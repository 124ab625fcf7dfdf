-- ===== src/Metadata.antt =====
-- The cache of extraction results of src/services/video_cache.rs: what stands in its two layers, and
-- how long a result may be served. A timestamp is an `i64` of seconds, an instant a number of
-- nanoseconds. `ExtractResult` has the fields that the cache reads; the JSON codec is a parameter.
pub mod Expiry
pub mod Layers
pub mod Fill
pub mod Key
use hometube.Prelude.{
  ℕ, ◌+◌, ◌-◌, ◌*◌, ◌%◌, Bool, true, false, Option, none, some, List, [], ◌∷◌, if◌then◌else◌,
}
use hometube.Prelude.Int.{ℤ, pos, negsuc, pos_part, neg_part, leb_ℤ, i64_half, parse_i64}
use hometube.Prelude.I64.{word_mod, of_word, add_i64, sub_i64, min_ℤ, ltb_ℤ}
use hometube.Prelude.Text.{Text, codes, text_eq}
use hometube.Prelude.Split.{split_once, before, split, find_map, filter_map}

pub record Format : Type 0 where
  pub format_id : Text
  pub url : Option Text

pub record ExtractResult : Type 0 where
  pub id : Text
  pub channel_id : Option Text
  pub formats : List Format

-- `CachedMetadata`, less its `fetched_at`, which nothing reads.
pub record CachedMetadata : Type 0 where
  pub expires_at : ℕ
  pub result : ExtractResult
  pub extractor_config_key : Text

-- A row of `video_metadata_cache`.
pub record MetadataRow : Type 0 where
  pub metadata_json : Text
  pub cached_at : ℤ
  pub expires_at : ℤ
  pub extractor_config_key : Text

-- `MEDIA_URL_EXPIRY_MARGIN_SECONDS`
abbrev pub margin : ℤ
margin = pos 300

abbrev pub nanos : ℕ
nanos = 1000000000

expire_of : Option (Text × Text) → Option ℤ
expire_of none = none
expire_of (some p) = if text_eq p.0 (codes "expire") then parse_i64 p.1 else none

expiry_in : Option (Text × Text) → Option ℤ
unfolding expire_of
expiry_in none = none
expiry_in (some p) =
    find_map (λ pair. expire_of (split_once b'=' pair)) (split b'&' (before b'#' p.1))

unfoldable pub media_url_expiry : Text → Option ℤ
unfolding expiry_in
media_url_expiry url = expiry_in (split_once b'?' url)

unfoldable pub format_expiry : Format → Option ℤ
format_expiry f = elim f.url [ none ↦ none | some url ↦ media_url_expiry url ]

-- `min`
unfoldable pub min_of : List ℤ → Option ℤ
min_of [] = none
min_of (x ∷ xs) = elim (min_of xs) [ none ↦ some x | some least ↦ some (min_ℤ x least) ]

unfoldable pub earliest_media_url_expiry : ExtractResult → Option ℤ
unfolding format_expiry min_of
earliest_media_url_expiry result = min_of (filter_map format_expiry result.formats)

-- `is_none_or`
unfoldable pub is_fresh_at : ℤ → Option ℤ → Bool
is_fresh_at now none = true
is_fresh_at now (some expiry) = ltb_ℤ (add_i64 now margin) expiry

unfoldable pub media_urls_are_fresh : ExtractResult → ℤ → Bool
unfolding is_fresh_at
media_urls_are_fresh result now = is_fresh_at now (earliest_media_url_expiry result)

unfoldable pub capped_expiry : ℤ → Option ℤ → ℤ
capped_expiry configured_expires_at none = configured_expires_at
capped_expiry configured_expires_at (some expiry) =
    min_ℤ configured_expires_at (sub_i64 expiry margin)

unfoldable pub effective_cache_expiry : ExtractResult → ℤ → ℤ
unfolding capped_expiry
effective_cache_expiry result configured_expires_at =
    capped_expiry configured_expires_at (earliest_media_url_expiry result)

-- `expires_at.saturating_sub(now).max(0) as u64`; above `i64::MAX` the difference saturates.
unfoldable pub seconds_left : ℤ → ℤ → ℕ
seconds_left expires_at now =
    let left = pos_part expires_at + neg_part now - (pos_part now + neg_part expires_at) in
    if leb_ℤ (pos left) (pos (i64_half - 1)) then left else i64_half - 1

unfoldable pub instant_deadline : ℕ → ℤ → ℤ → ℕ
unfolding seconds_left
instant_deadline instant expires_at now = instant + seconds_left expires_at now * nanos

abbrev default_ttl_hours : ℤ
default_ttl_hours = pos 4

ttl_hours : Option Text → ℤ
ttl_hours none = default_ttl_hours
ttl_hours (some s) = elim (parse_i64 s) [ none ↦ default_ttl_hours | some hours ↦ hours ]

-- The seconds of `current_ttl`; what the configuration holds, or none where reading it fails.
unfoldable pub current_ttl : Option Text → ℕ
unfolding ttl_hours
current_ttl configured = pos_part (ttl_hours configured) * 3600 % word_mod
