-- ===== src/Tests/Evictions.antt =====
-- The theorems about the cleanup of src/services/video_cache.rs, at concrete inputs.
use mathlib.Core.List.{Permᴰ}
use hometube.Prelude.{
  ℕ, ◌<◌, ◌≤◌, ◌≡◌, refl, true, false, Option, none, some, List, [], ◌∷◌, arith, take, drop,
}
use hometube.Prelude.Text.{Text, codes}
use hometube.Prelude.Sql.{All}
use hometube.Segments.Table.{Row, Disk}
use hometube.Eviction.{
  Cache, Allowlists, Answers, total_size, cache_size_preset_to_bytes, current_cache_size_label,
}
use hometube.Eviction.Cleanup.{Lru, Totals, lru_loop, order_by_access, cleanup_segment_cache}
use hometube.Eviction.Kept.{EndsIn, AllSucceed}
use hometube.Eviction.Cleaned.{AllAllowed, cleanup_segment_cache-EndsIn}
use hometube.Eviction.Oldest.{lru_loop-oldest}

-- What the tests compute with.
program : Unit {0}
unfolding total_size
program = tt

abbrev row : ℕ → Text → ℕ → ℕ → Row
row id video size at = record {
  id = id;
  video_id = video;
  format_id = codes "137";
  segment_number = id;
  file_path = id ∷ [];
  file_size_bytes = size;
  fingerprint = none;
  cached_at = at;
  last_accessed_at = at;
}

abbrev rows : List Row
rows = row 1 (codes "a") 60 300 ∷ row 2 (codes "b") 50 100 ∷ row 3 (codes "a") 40 200 ∷ []

abbrev disk : Disk
disk = record { rows = rows; next_id = 4; files = λ path. some [] }

abbrev answers : Answers
answers = record {
  lists_rows = λ video. true;
  deletes_rows = λ video. true;
  deletes_metadata = λ video. true;
  deletes_row = λ id. true;
  reads_allowlists = λ video. true;
  unlinks = λ path. false;
  logs = λ video. true;
}

abbrev nothing : Totals
nothing = record { evicted_videos = 0; evicted_segments = 0; evicted_bytes = 0 }

abbrev loop : Lru
loop = record { disk = disk; current_total = 150; totals = nothing; per_video = [] }

adds_up : total_size rows ≡ 150
unfolding program
adds_up = refl

lru_loop-oldest_example :
    (k : ℕ) × ((lru_loop answers 100 (order_by_access rows) loop).0 ≡ true)
    × Permᴰ rows (order_by_access rows)
    × Permᴰ
        (lru_loop answers 100 (order_by_access rows) loop).1.disk.rows
        (drop k (order_by_access rows))
    × All
        (λ e.
          All
            (λ r. e.last_accessed_at ≤ r.last_accessed_at)
            (lru_loop answers 100 (order_by_access rows) loop).1.disk.rows)
        (take k (order_by_access rows))
    × (total_size (lru_loop answers 100 (order_by_access rows) loop).1.disk.rows ≤ 100)
    × ((j : ℕ) → j < k → 100 < total_size (drop j (order_by_access rows)))
lru_loop-oldest_example =
    lru_loop-oldest answers 100 loop (λ id. refl)
      (((λ e. omega arith), ((λ e. omega arith), tt)), (((λ e. omega arith), tt), (tt, tt)))
      (rw adds_up refl)

abbrev cache : Cache
cache = record { disk = disk; metadata = []; evictions = [] }

abbrev lists : Allowlists
lists = record { videos = codes "a" ∷ []; channels = [] }

abbrev channel_of : Text → Option Text
channel_of json = none

succeed : AllSucceed answers
succeed = record {
  lists = λ video. refl;
  rows = λ video. refl;
  metadata = λ video. refl;
  row = λ id. refl;
  reads = λ video. refl;
}

cleanup_segment_cache-EndsIn_example :
    EndsIn
      (λ c'.
        (0 < cache_size_preset_to_bytes (current_cache_size_label (some (codes "10 GB")))
          → total_size c'.disk.rows
            ≤ cache_size_preset_to_bytes (current_cache_size_label (some (codes "10 GB"))))
        × AllAllowed channel_of lists c')
      (cleanup_segment_cache channel_of lists answers 1000 (some (codes "10 GB")) true true cache)
cleanup_segment_cache-EndsIn_example =
    cleanup_segment_cache-EndsIn channel_of lists answers 1000 (some (codes "10 GB")) true cache
      succeed (((λ e. omega arith), ((λ e. omega arith), tt)), (((λ e. omega arith), tt), (tt, tt)))
      (rw adds_up (omega arith))
