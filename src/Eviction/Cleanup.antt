-- ===== src/Eviction/Cleanup.antt =====
-- `cleanup_segment_cache` of src/services/video_cache.rs: the videos on no allowlist, then the
-- least recently used segments above the limit, then metadata that has expired and old log entries.
-- The text of the report is not modelled, its counts are.
use hometube.Prelude.{
  ℕ, ◌-◌, ◌*◌, Bool, true, false, not, ◌&&◌, ◌||◌, Option, none, some, List, [], ◌∷◌, ltb, leb,
  ◌==◌, if◌then◌else◌,
}
use hometube.Prelude.Int.{pos, leb_ℤ}
use hometube.Prelude.Text.{Text, text_eq}
use hometube.Prelude.Assoc.{Assoc, get, insert, remove}
use hometube.Prelude.Sql.{delete, exists, count}
use hometube.Metadata.{MetadataRow}
use hometube.Segments.Chunk.{add64}
use hometube.Segments.Table.{Row, Disk, remove_file}
use hometube.Eviction.{
  Eviction, Cache, Allowlists, Answers, Run, ended, stopped, not_allowlisted, lru_size_limit,
  of_video, log_eviction, evict_video, total_cache_bytes, cache_size_preset_to_bytes,
  current_cache_size_label,
}

-- The counts that the report states.
pub record Totals : Type 0 where
  pub evicted_videos : ℕ
  pub evicted_segments : ℕ
  pub evicted_bytes : ℕ

-- The channel that the cached metadata of a video names.
cached_channel : (Text → Option Text) → Option MetadataRow → Option Text
cached_channel channel_of none = none
cached_channel channel_of (some row) = channel_of row.metadata_json

channel_listed : Allowlists → Option Text → Bool
channel_listed lists none = false
channel_listed lists (some ch) = exists (text_eq ch) lists.channels

unfoldable pub video_is_anywhere_allowlisted :
    (Text → Option Text) → Allowlists → Assoc MetadataRow → Text → Bool
unfolding cached_channel channel_listed
video_is_anywhere_allowlisted channel_of lists metadata video =
    exists (text_eq video) lists.videos
    || channel_listed lists (cached_channel channel_of (get video metadata))

-- `SELECT DISTINCT video_id`
unfoldable pub distinct_videos : List Row → List Text
distinct_videos [] = []
distinct_videos (r ∷ rows) =
    let rest = distinct_videos rows in
    if exists (text_eq r.video_id) rest then rest else r.video_id ∷ rest

counted : Totals → ℕ × ℕ → Totals
counted t p = record {
  evicted_videos = add64 t.evicted_videos 1;
  evicted_segments = add64 t.evicted_segments p.0;
  evicted_bytes = add64 t.evicted_bytes p.1;
}

module _ (channel_of : Text → Option Text) (lists : Allowlists) (answers : Answers) (now : ℕ) where
  unfoldable pub count_run : Totals → Run (ℕ × ℕ) → Run Totals
  unfolding counted
  count_run t (ended p c) = ended (counted t p) c
  count_run t (stopped c) = stopped c

  -- One round of the first loop.
  unfoldable pub sweep_video : Text → Totals → Cache → Run Totals
  unfolding count_run evict_video
  sweep_video video t c =
      if not (answers.reads_allowlists video)
      then stopped c
      else if video_is_anywhere_allowlisted channel_of lists c.metadata video
      then ended t c
      else count_run t (evict_video answers now video not_allowlisted c)

  unfoldable pub sweep : List Text → Totals → Cache → Run Totals
  unfolding sweep_video
  sweep [] t c = ended t c
  sweep (video ∷ videos) t c = elim (sweep_video video t c) [
    | stopped c' ↦ stopped c'
    | ended t' c' ↦ sweep videos t' c'
  ]

-- `ORDER BY last_accessed_at ASC`
unfoldable pub insert_row : Row → List Row → List Row
insert_row r [] = r ∷ []
insert_row r (s ∷ rows) =
    let rest = insert_row r rows in
    if leb r.last_accessed_at s.last_accessed_at then r ∷ s ∷ rows else s ∷ rest

unfoldable pub order_by_access : List Row → List Row
order_by_access [] = []
order_by_access (r ∷ rows) = insert_row r (order_by_access rows)

-- What the loop of the second step keeps.
pub record Lru : Type 0 where
  pub disk : Disk
  pub current_total : ℕ
  pub totals : Totals
  pub per_video : Assoc (ℕ × ℕ)

or_zero : Option (ℕ × ℕ) → ℕ × ℕ
or_zero none = (0, 0)
or_zero (some p) = p

unfoldable pub by_id : ℕ → Row → Bool
by_id id r = r.id == id

-- A round of the loop once it has not stopped: the disk behind the unlink, and behind the DELETE.
unfoldable pub unlinked : Answers → Row → Disk → Disk
unfolding remove_file
unlinked answers r d = record d {
  files = if answers.unlinks r.file_path then remove_file r.file_path d.files else d.files;
}

unfoldable pub evict_row : Answers → Row → Lru → Lru
unfolding unlinked or_zero
evict_row answers r s =
    let d = unlinked answers r s.disk in
    let entry = or_zero (get r.video_id s.per_video) in
    record {
      disk = record d { rows = delete (by_id r.id) d.rows };
      current_total = s.current_total - r.file_size_bytes;
      totals = record (s.totals) {
        evicted_segments = add64 s.totals.evicted_segments 1;
        evicted_bytes = add64 s.totals.evicted_bytes r.file_size_bytes;
      };
      per_video = insert r.video_id (add64 entry.0 1, add64 entry.1 r.file_size_bytes) s.per_video;
    }

-- The loop, with whether it came to its end.
unfoldable pub lru_loop : Answers → ℕ → List Row → Lru → Bool × Lru
unfolding evict_row unlinked
lru_loop answers limit [] s = (true, s)
lru_loop answers limit (r ∷ rows) s =
    let rest = lru_loop answers limit rows (evict_row answers r s) in
    if leb s.current_total limit
    then (true, s)
    else if answers.deletes_row r.id
    then rest
    else (false, record s { disk = unlinked answers r s.disk })

-- The loop over `per_video`.
unfoldable pub log_videos : Answers → ℕ → Assoc (ℕ × ℕ) → Totals → Cache → Run Totals
unfolding log_eviction
log_videos answers now [] t c = ended t c
log_videos answers now (p ∷ videos) t c =
    let orphaned = count (of_video p.0) c.disk.rows == 0 in
    let without = if orphaned then record c { metadata = remove p.0 c.metadata } else c in
    let rest =
      log_videos answers now videos (record t { evicted_videos = add64 t.evicted_videos 1 })
        (log_eviction answers now p.0 p.1.0 p.1.1 lru_size_limit without) in
    if orphaned && not (answers.deletes_metadata p.0) then stopped c else rest

unfoldable pub after_loop : Answers → ℕ → Bool × Lru → Cache → Run Totals
unfolding log_videos
after_loop answers now (true, s) c =
    log_videos answers now s.per_video s.totals (record c { disk = s.disk })
after_loop answers now (false, s) c = stopped (record c { disk = s.disk })

unfoldable pub evict_lru : Answers → ℕ → ℕ → Totals → Cache → Run Totals
unfolding after_loop lru_loop
evict_lru answers now limit t c =
    let current_total = total_cache_bytes c.disk.rows in
    let start : Lru = record {
      disk = c.disk;
      current_total = current_total;
      totals = t;
      per_video = [];
    } in
    if not (ltb 0 limit)
    then ended t c
    else if not (ltb limit current_total)
    then ended t c
    else after_loop answers now (lru_loop answers limit (order_by_access c.disk.rows) start) c

-- `expires_at <= unixepoch() AND NOT EXISTS (…)`
unfoldable pub is_expired_orphan : ℕ → List Row → Text × MetadataRow → Bool
unfolding of_video
is_expired_orphan now rows entry =
    leb_ℤ entry.1.expires_at (pos now) && not (exists (of_video entry.0) rows)

unfoldable pub prune_eviction_log : ℕ → ℕ → List Eviction → List Eviction
prune_eviction_log now keep_days log =
    delete (λ row. ltb row.evicted_at (now - keep_days * 86400)) log

-- `prunes` is whether the statement on the log succeeds, `tidies` the one on the metadata.
unfoldable pub tidy : ℕ → Bool → Bool → Run Totals → Run Totals
unfolding is_expired_orphan prune_eviction_log
tidy now tidies prunes (stopped c) = stopped c
tidy now tidies prunes (ended t c) =
    let tidied = record c { metadata = delete (is_expired_orphan now c.disk.rows) c.metadata } in
    if not tidies
    then stopped c
    else if prunes
    then ended t (record tidied { evictions = prune_eviction_log now 90 tidied.evictions })
    else ended t tidied

unfoldable pub lru_behind : Answers → ℕ → Option Text → Run Totals → Run Totals
unfolding evict_lru
lru_behind answers now label (stopped c) = stopped c
lru_behind answers now label (ended t c) =
    evict_lru answers now (cache_size_preset_to_bytes (current_cache_size_label label)) t c

unfoldable pub cleanup_segment_cache :
    (Text → Option Text) → Allowlists → Answers → ℕ → Option Text → Bool → Bool → Cache → Run Totals
unfolding sweep lru_behind tidy
cleanup_segment_cache channel_of lists answers now label tidies prunes c =
    let nothing : Totals = record { evicted_videos = 0; evicted_segments = 0; evicted_bytes = 0 } in
    tidy now tidies prunes (
      lru_behind answers now label
        (sweep channel_of lists answers now (distinct_videos c.disk.rows) nothing c))
