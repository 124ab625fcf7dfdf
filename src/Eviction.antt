-- ===== src/Eviction.antt =====
-- The eviction of cached segments of src/services/video_cache.rs: the state it works on, the limit,
-- and `evict_video`. The metadata's JSON is read by the parameter `channel_of`, which stands for
-- serde's parse and the lookup of `channel_id`. Directories are not modelled.
pub mod Cleanup
pub mod Lru
pub mod Kept
pub mod Cleaned
pub mod Oldest
use hometube.Prelude.{
  ℕ, suc, ◌+◌, ◌-◌, ◌*◌, ◌<◌, Bool, true, false, not, ◌&&◌, ◌||◌, Option, none, some, List, [], ◌∷◌,
  length, ltb, leb, ◌==◌, if◌then◌else◌, map,
}
use hometube.Prelude.Int.{i64_half}
use hometube.Prelude.Text.{Text, codes, text_eq}
use hometube.Prelude.Assoc.{Assoc, get, remove}
use hometube.Prelude.Split.{trim}
use hometube.Prelude.Sql.{select, delete, exists, count}
use hometube.Metadata.{MetadataRow}
use hometube.Segments.Chunk.{add64}
use hometube.Segments.Table.{Row, Disk, remove_file}

-- `reason`
pub data Reason : Type 0 where
  manual clear_all_reason not_allowlisted lru_size_limit : Reason

-- A row of `cache_evictions`.
pub record Eviction : Type 0 where
  pub video_id : Text
  pub segment_count : ℕ
  pub bytes_freed : ℕ
  pub reason : Reason
  pub evicted_at : ℕ

pub record Cache : Type 0 where
  pub disk : Disk
  pub metadata : Assoc MetadataRow
  pub evictions : List Eviction

-- The columns of the allowlists that the cleanup reads, of all children.
pub record Allowlists : Type 0 where
  pub videos : List Text
  pub channels : List Text

-- Which statements and file operations succeed.
pub record Answers : Type 0 where
  pub lists_rows : Text → Bool
  pub deletes_rows : Text → Bool
  pub deletes_metadata : Text → Bool
  pub deletes_row : ℕ → Bool
  pub reads_allowlists : Text → Bool
  pub unlinks : Text → Bool
  pub logs : Text → Bool

-- A run ends with a value, or at a statement that fails; what it did so far stands.
pub data Run (A : Type 0) : Type 0 where
  ended : A → Cache → Run A
  stopped : Cache → Run A

gib : ℕ
gib = 1024 * 1024 * 1024

preset : Text → ℕ
unfolding gib
preset label =
    if text_eq label (codes "10 GB")
    then 10 * gib
    else if text_eq label (codes "25 GB")
    then 25 * gib
    else if text_eq label (codes "50 GB")
    then 50 * gib
    else if text_eq label (codes "100 GB")
    then 100 * gib
    else if text_eq label (codes "250 GB")
    then 250 * gib
    else if text_eq label (codes "500 GB")
    then 500 * gib
    else 0

-- "Unlimited" and every unknown label are 0.
unfoldable pub cache_size_preset_to_bytes : Text → ℕ
unfolding preset
cache_size_preset_to_bytes label = preset (trim label)

abbrev pub cache_size_presets : List Text
cache_size_presets =
    codes "10 GB"
    ∷ codes "25 GB"
    ∷ codes "50 GB"
    ∷ codes "100 GB"
    ∷ codes "250 GB"
    ∷ codes "500 GB"
    ∷ codes "Unlimited"
    ∷ []

-- What reading the configuration gives, or none where there is no entry or it fails.
unfoldable pub current_cache_size_label : Option Text → Text
current_cache_size_label none = codes "100 GB"
current_cache_size_label (some label) = label

-- The new entry, or none where the label is refused.
unfoldable pub set_cache_size : Text → Option Text
set_cache_size label = if exists (text_eq label) cache_size_presets then some label else none

unfoldable pub total_size : List Row → ℕ
total_size [] = 0
total_size (r ∷ rows) = r.file_size_bytes + total_size rows

-- A sum that an `i64` does not hold is an error of the query, which gives 0.
unfoldable pub total_cache_bytes : List Row → ℕ
unfolding total_size
total_cache_bytes rows = if ltb (total_size rows) i64_half then total_size rows else 0

unfoldable pub total_segment_count : List Row → ℕ
total_segment_count rows = length rows

unfoldable pub of_video : Text → Row → Bool
of_video video r = text_eq r.video_id video

unfoldable pub log_eviction : Answers → ℕ → Text → ℕ → ℕ → Reason → Cache → Cache
log_eviction answers now video segment_count bytes_freed reason c =
    let row : Eviction = record {
      video_id = video;
      segment_count = segment_count;
      bytes_freed = bytes_freed;
      reason = reason;
      evicted_at = now;
    } in
    if answers.logs video then record c { evictions = row ∷ c.evictions } else c

-- The loop of `evict_video` over the listed rows: the files that are left, and the totals.
unfoldable pub unlink_listed :
    Answers → List Row → (Text → Option (List ℕ)) → Text → Option (List ℕ)
unfolding remove_file
unlink_listed answers [] files = files
unlink_listed answers (r ∷ rows) files =
    unlink_listed answers rows
      (if answers.unlinks r.file_path then remove_file r.file_path files else files)

unfoldable pub listed_bytes : List Row → ℕ
listed_bytes [] = 0
listed_bytes (r ∷ rows) = add64 r.file_size_bytes (listed_bytes rows)

module _ {V : Type 0} where
  abbrev is_some : Option V → Bool
  is_some none = false
  is_some (some v) = true

-- Files go first, then the rows, then the metadata, and an entry in the log unless there was nothing.
unfoldable pub evict_video : Answers → ℕ → Text → Reason → Cache → Run (ℕ × ℕ)
unfolding unlink_listed listed_bytes log_eviction
evict_video answers now video why c =
    let rows = select (of_video video) c.disk.rows in
    let bytes_total = listed_bytes rows in
    let segs = length rows in
    let unlinked = record c {
      disk = record (c.disk) { files = unlink_listed answers rows c.disk.files };
    } in
    let without_rows = record unlinked {
      disk = record (unlinked.disk) { rows = delete (of_video video) unlinked.disk.rows };
    } in
    let without_metadata = record without_rows { metadata = remove video without_rows.metadata } in
    let something = ltb 0 segs || (is_some (get video c.metadata) || ltb 0 bytes_total) in
    if not (answers.lists_rows video)
    then stopped c
    else if not (answers.deletes_rows video)
    then stopped unlinked
    else if not (answers.deletes_metadata video)
    then stopped without_rows
    else if something
    then ended (segs, bytes_total)
        (log_eviction answers now video segs bytes_total why without_metadata)
    else ended (segs, bytes_total) without_metadata
