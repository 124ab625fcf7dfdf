-- ===== src/Segments/Table.antt =====
-- The `segment_cache` table beside the cache directory, and the operations of
-- src/services/segment_store.rs on them. Each takes what the outside answers: whether a statement or
-- a file operation fails, and the time.
use hometube.Prelude.{
  ℕ, ◌+◌, Bool, true, false, not, ◌&&◌, Option, none, some, List, [], ◌∷◌, length, leb, ◌==◌,
  if◌then◌else◌,
}
use hometube.Prelude.Sql.{count, exists, select, update, delete}
use hometube.Prelude.Text.{Text, text_eq}
use hometube.Segments.Chunk.{sub32, chunk_index, next_chunk}
use hometube.Segments.Paths.{chunk_path, tmp_path}

pub record Row : Type 0 where
  pub id : ℕ
  pub video_id : Text
  pub format_id : Text
  pub segment_number : ℕ
  pub file_path : Text
  pub file_size_bytes : ℕ
  pub fingerprint : Option Text
  pub cached_at : ℕ
  pub last_accessed_at : ℕ

-- `next_id` is the AUTOINCREMENT counter. A path has bytes where a file stands.
pub record Disk : Type 0 where
  pub rows : List Row
  pub next_id : ℕ
  pub files : Text → Option (List ℕ)

unfoldable pub write_file : Text → List ℕ → (Text → Option (List ℕ)) → Text → Option (List ℕ)
write_file path bytes files p = if text_eq p path then some bytes else files p

unfoldable pub remove_file : Text → (Text → Option (List ℕ)) → Text → Option (List ℕ)
remove_file path files p = if text_eq p path then none else files p

-- `tokio::fs::rename` replaces the target.
unfoldable pub rename : Text → Text → List ℕ → (Text → Option (List ℕ)) → Text → Option (List ℕ)
unfolding write_file remove_file
rename source target bytes files = write_file target bytes (remove_file source files)

-- SQLite's `a IS b` on a nullable text.
unfoldable pub is_same : Option Text → Option Text → Bool
is_same none none = true
is_same (some s) (some t) = text_eq s t
is_same _ _ = false

unfoldable pub of_format : Text → Text → Row → Bool
of_format video_id format_id r = text_eq r.video_id video_id && text_eq r.format_id format_id

-- The unique key of the table.
unfoldable pub has_key : Text → Text → ℕ → Row → Bool
unfolding of_format
has_key video_id format_id n r = of_format video_id format_id r && (r.segment_number == n)

pub record RangeStatus : Type 0 where
  pub fully_cached : Bool
  pub has_stale : Bool

-- A row in the requested range that was copied from the current file.
unfoldable pub in_range : Text → Text → Option Text → ℕ → ℕ → Row → Bool
unfolding of_format is_same
in_range video_id format_id fingerprint first_chunk last_chunk r =
    of_format video_id format_id r
    && (is_same r.fingerprint fingerprint
        && (leb first_chunk r.segment_number && leb r.segment_number last_chunk))

unfoldable pub is_stale : Text → Text → Option Text → Row → Bool
unfolding of_format is_same
is_stale video_id format_id fingerprint r =
    of_format video_id format_id r && not (is_same r.fingerprint fingerprint)

-- `answers` is whether the query succeeds; where it fails the default is returned.
unfoldable pub range_status : ℕ → Bool → Text → Text → Option Text → ℕ → ℕ → Disk → RangeStatus
unfolding in_range is_stale count exists
range_status size answers video_id format_id fingerprint byte_start byte_end d =
    let first_chunk = chunk_index size byte_start in
    let last_chunk = chunk_index size byte_end in
    let needed = next_chunk (sub32 last_chunk first_chunk) in
    let matching = count (in_range video_id format_id fingerprint first_chunk last_chunk) d.rows in
    if answers
    then record {
      fully_cached = leb needed matching;
      has_stale = exists (is_stale video_id format_id fingerprint) d.rows;
    }
    else record { fully_cached = false; has_stale = false }

-- `DO UPDATE SET …` of `store_chunk`
unfoldable pub refreshed : ℕ → Text → ℕ → Option Text → Row → Row
refreshed now path size fingerprint r = record r {
  file_path = path;
  file_size_bytes = size;
  fingerprint = fingerprint;
  cached_at = now;
  last_accessed_at = now;
}

-- `INSERT … ON CONFLICT(video_id, format_id, segment_number) DO UPDATE`: a row with the key keeps
-- its id.
unfoldable pub upsert_row : ℕ → Text → Text → ℕ → Text → ℕ → Option Text → Disk → Disk
unfolding has_key exists update refreshed
upsert_row now video_id format_id n path size fingerprint d =
    let test = has_key video_id format_id n in
    let inserted : Row = record {
      id = d.next_id;
      video_id = video_id;
      format_id = format_id;
      segment_number = n;
      file_path = path;
      file_size_bytes = size;
      fingerprint = fingerprint;
      cached_at = now;
      last_accessed_at = now;
    } in
    if exists test d.rows
    then record d { rows = update test (refreshed now path size fingerprint) d.rows }
    else record d { rows = inserted ∷ d.rows; next_id = d.next_id + 1 }

-- Where `store_chunk` fails. A write that fails may leave a part of the staging file.
pub data StoreFault : Type 0 where
  no_fault mkdir_fails rename_fails upsert_fails : StoreFault
  write_fails : List ℕ → StoreFault

pub data Outcome : Type 0 where
  stored : Outcome
  failed : Outcome

-- The write of the staging file and its rename.
unfoldable pub install_chunk : Text → Text → Text → ℕ → List ℕ → Disk → Disk
unfolding write_file rename
install_chunk cache_dir video_id format_id n bytes d =
    let path = chunk_path cache_dir video_id format_id n in
    let tmp = tmp_path path in
    record d { files = rename tmp path bytes (write_file tmp bytes d.files) }

-- `store_chunk` from end to end, with nothing between its operations.
unfoldable pub store_chunk :
    StoreFault → ℕ → Text → Text → Text → Option Text → ℕ → List ℕ → Disk → Disk × Outcome
unfolding write_file install_chunk upsert_row
store_chunk mkdir_fails now cache_dir video_id format_id fingerprint n bytes d = (d, failed)
store_chunk (write_fails part) now cache_dir video_id format_id fingerprint n bytes d =
    let tmp = tmp_path (chunk_path cache_dir video_id format_id n) in
    (record d { files = write_file tmp part d.files }, failed)
store_chunk rename_fails now cache_dir video_id format_id fingerprint n bytes d =
    let tmp = tmp_path (chunk_path cache_dir video_id format_id n) in
    (record d { files = write_file tmp bytes d.files }, failed)
store_chunk upsert_fails now cache_dir video_id format_id fingerprint n bytes d =
    (install_chunk cache_dir video_id format_id n bytes d, failed)
store_chunk no_fault now cache_dir video_id format_id fingerprint n bytes d =
    let path = chunk_path cache_dir video_id format_id n in
    let installed = install_chunk cache_dir video_id format_id n bytes d in
    (upsert_row now video_id format_id n path (length bytes) fingerprint installed, stored)

-- What the statements and file operations of one round of a purge answer.
pub record PurgeAnswers : Type 0 where
  pub delete_succeeds : Bool
  pub unlink_succeeds : Bool

pub record Purged : Type 0 where
  pub disk : Disk
  pub removed : ℕ
  pub bytes : ℕ

-- The row with the listed id, if its fingerprint still mismatches.
unfoldable pub still_stale : ℕ → Option Text → Row → Bool
unfolding is_same
still_stale id fingerprint r = (r.id == id) && not (is_same r.fingerprint fingerprint)

-- One round of the loop of `purge_stale_chunks`, under the chunk's lock, on a row as it was listed.
unfoldable pub purge_row : PurgeAnswers → Option Text → Row → Purged → Purged
unfolding still_stale count delete remove_file
purge_row answers fingerprint listed p =
    let test = still_stale listed.id fingerprint in
    let kept = delete test p.disk.rows in
    let files =
      if answers.unlink_succeeds then remove_file listed.file_path p.disk.files else p.disk.files in
    if answers.delete_succeeds && (count test p.disk.rows == 1)
    then record {
      disk = record (p.disk) { rows = kept; files = files };
      removed = p.removed + 1;
      bytes = p.bytes + listed.file_size_bytes;
    }
    else p

unfoldable pub purge_rows : List PurgeAnswers → Option Text → List Row → Purged → Purged
unfolding purge_row
purge_rows answers fingerprint [] p = p
purge_rows [] fingerprint (r ∷ rows) p =
    purge_rows [] fingerprint rows
      (purge_row (record { delete_succeeds = true; unlink_succeeds = true }) fingerprint r p)
purge_rows (a ∷ answers) fingerprint (r ∷ rows) p =
    purge_rows answers fingerprint rows (purge_row a fingerprint r p)

-- A purge with nothing between its rounds. `lists` is whether the listing succeeds.
unfoldable pub purge_stale_chunks :
    Bool → List PurgeAnswers → Text → Text → Option Text → Disk → Purged
unfolding select is_stale purge_rows
purge_stale_chunks lists answers video_id format_id fingerprint d =
    let none_yet : Purged = record { disk = d; removed = 0; bytes = 0 } in
    let stale = select (is_stale video_id format_id fingerprint) d.rows in
    if lists then purge_rows answers fingerprint stale none_yet else none_yet

unfoldable pub in_chunks : Text → Text → ℕ → ℕ → Row → Bool
unfolding of_format
in_chunks video_id format_id chunk_start chunk_end r =
    of_format video_id format_id r
    && (leb chunk_start r.segment_number && leb r.segment_number chunk_end)

unfoldable pub touched : ℕ → Row → Row
touched now r = record r { last_accessed_at = now }

unfoldable pub touch_chunks : ℕ → Bool → Text → Text → ℕ → ℕ → Disk → Disk
unfolding in_chunks touched update
touch_chunks now answers video_id format_id chunk_start chunk_end d =
    let rows = update (in_chunks video_id format_id chunk_start chunk_end) (touched now) d.rows in
    if answers then record d { rows = rows } else d
