-- ===== src/Tests/Caches.antt =====
-- The theorems about the caches of src/services/video_cache.rs, at concrete inputs.
use hometube.Prelude.{◌≡◌, ◌⊎◌, refl, true, Option, none, some, [], ◌∷◌, arith, if◌then◌else◌}
use hometube.Prelude.Int.{ℤ, pos, leb_ℤ, parse_i64, all_digits}
use hometube.Prelude.I64.{add_i64, sub_i64, of_word, diff_i64}
use hometube.Prelude.Text.{Text, codes, text_eq, value_from}
use hometube.Prelude.Split.{split_once, before, split, find_map, filter_map, keep_some, or_else}
use hometube.Prelude.Assoc.{get, insert, remove}
use hometube.Prelude.Sql.{All}
use hometube.Sabr.{SabrSessionMemo, begin_change, forget, changes}
use hometube.Metadata.{
  ExtractResult, media_urls_are_fresh, effective_cache_expiry, earliest_media_url_expiry,
  format_expiry, media_url_expiry, min_of, is_fresh_at, capped_expiry,
}
use hometube.Metadata.Expiry.{UrlLasts}
use hometube.Metadata.Layers.{
  Layers, Clock, absent, found, get_cached, check_memory, is_live, load_from_db, store_in_db,
  IsKept, get_cached-IsKept, load_from_db-store_in_db,
}
use hometube.Metadata.Fill.{Answers}
use hometube.Metadata.Key.{fields}

-- What the tests compute with.
program : Unit {0}
unfolding text_eq split_once before split find_map filter_map keep_some or_else get insert remove
    media_url_expiry format_expiry min_of is_fresh_at media_urls_are_fresh earliest_media_url_expiry
    parse_i64 value_from all_digits capped_expiry effective_cache_expiry add_i64 sub_i64 of_word
    diff_i64 is_live check_memory get_cached load_from_db changes fields
program = tt

abbrev video : Text
video = codes "v"

abbrev url : Text
url = codes "https://m/videoplayback?expire=5000&itag=137"

abbrev result : ExtractResult
result = record {
  id = video;
  channel_id = none;
  formats = record { format_id = codes "137"; url = some url } ∷ [];
}

expiry_example : media_url_expiry url ≡ some (pos 5000)
unfolding program
expiry_example = refl

-- A codec for the tests, of one result.
abbrev to_json : ExtractResult → Text
to_json r = codes "{}"

abbrev from_json : Text → Option ExtractResult
from_json json = some result

abbrev key : Text
key = codes "key"

late : (e : ℤ) → earliest_media_url_expiry result ≡ some e → (e ≡ pos 5000)
unfolding program
late e h = cc (h)

load_from_db-store_in_db_example :
    load_from_db to_json from_json true video key
      (pos 1500)
      (store_in_db to_json from_json true (pos 1000) video result 3600 key []).0
    ≡ (if leb_ℤ (effective_cache_expiry result (add_i64 (pos 1000) (of_word 3600))) (pos 1500)
        then absent
        else if text_eq key key
        then found (result, effective_cache_expiry result (add_i64 (pos 1000) (of_word 3600)))
        else absent)
load_from_db-store_in_db_example =
    load_from_db-store_in_db to_json from_json (pos 1000) 1500 3600 video key key result [] refl
      (omega arith) (λ e h. rw (late e h) (refl, omega arith))

abbrev clock : Clock
clock = record { now = pos 1000; instant = 0 }

abbrev layers : Layers
layers = record {
  inner = (video, record { expires_at = 100; result = result; extractor_config_key = key }) ∷ [];
  table = [];
}

abbrev nothing_else : Layers → Layers
nothing_else w = w

hits : (get_cached to_json from_json true clock nothing_else video key layers).0 ≡ found result
unfolding program
hits = refl

get_cached-IsKept_example :
    All (UrlLasts (pos 1000)) result.formats
    × (IsKept to_json from_json video key result layers
        ⊎ IsKept to_json from_json video key result
            (record layers { inner = (check_memory clock video key layers.inner).1 }))
get_cached-IsKept_example =
    get_cached-IsKept to_json from_json true clock nothing_else video key layers result hits

abbrev nothing_cached : Layers
nothing_cached = record { inner = []; table = [] }

abbrev answers : Answers
answers = record {
  active_config_key = some key;
  lookup_succeeds = true;
  lookup_clock = clock;
  during_lookup = nothing_else;
  extraction = some result;
  calls_meanwhile = begin_change ∷ forget ∷ [];
  layers_meanwhile = nothing_else;
  clock = clock;
  ttl_hours = none;
  store_now = pos 1000;
  store_succeeds = true;
  insert_instant = 0;
}

abbrev memo : SabrSessionMemo
memo = record { generation = 3; verdict_until = none }
