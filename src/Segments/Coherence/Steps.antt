-- ===== src/Segments/Coherence/Steps.antt =====
-- Writers, purges and touches of the chunk cache of src/services/segment_store.rs as interleaved
-- steps, between which anything may come. The model of `chunk_lock` is the list of the chunks whose
-- store stands between rename and row. The evictions of src/services/video_cache.rs, which take no
-- such lock, are not among the steps.
use hometube.Prelude.{ℕ, ◌≡◌, ◌≢◌, Bool, Option, none, List, [], ◌∷◌, ◌++◌, map, length}
use hometube.Prelude.Sql.{All, select}
use hometube.Prelude.Text.{Text}
use hometube.Segments.Coherence.{Upstream, chunk_of}
use hometube.Segments.Paths.{IsComponent, chunk_path, tmp_path}
use hometube.Segments.Table.{
  Row, Disk, PurgeAnswers, is_stale, upsert_row, install_chunk, purge_row, touch_chunks, write_file,
}

-- A row that some purge has listed, and the fingerprint that the purge keeps.
pub record Listed : Type 0 where
  pub fingerprint : Option Text
  pub row : Row

-- A chunk of the upstream file with a fingerprint.
pub record Chunk : Type 0 where
  pub video_id : Text
  pub format_id : Text
  pub fingerprint : Option Text
  pub number : ℕ

-- The chunks that are held are those whose new file stands under the lock of `store_chunk` while
-- their row is not yet written.
pub record State : Type 0 where
  pub disk : Disk
  pub held : List Chunk
  pub listed : List Listed

abbrev pub fresh : State
fresh = record {
  disk = record { rows = []; next_id = 1; files = λ p. none };
  held = [];
  listed = [];
}

abbrev pub list_as : Option Text → Row → Listed
list_as fp r = record { fingerprint = fp; row = r }

abbrev pub path_of : Text → Chunk → Text
path_of dir c = chunk_path dir c.video_id c.format_id c.number

abbrev pub bytes_of : ℕ → Upstream → Chunk → List ℕ
bytes_of size content c = chunk_of size content c.video_id c.format_id c.fingerprint c.number

-- No chunk that is held has the path.
abbrev pub IsFree : Text → Text → List Chunk → Type 0
IsFree dir path held = All (λ c. path_of dir c ≢ path) held

-- A store writes its staging file, renames it, and then writes the row; the lock of the chunk keeps
-- other stores and purges of the chunk out in between, but no reader. A round of a purge is one
-- step: between its DELETE and the removal of the file a reader sees a row no more, or still the
-- file.
pub data Step (size : ℕ) (dir : Text) (content : Upstream) (s : State) : State → Type 0 where
  stage :
      (path : Text) (part : List ℕ)
      → Step size dir content s (record s {
        disk = record (s.disk) { files = write_file (tmp_path path) part s.disk.files };
      })
  install :
      (c : Chunk)
      → IsComponent c.video_id
      → IsComponent c.format_id
      → IsFree dir (path_of dir c) s.held
      → Step size dir content s (record s {
        disk = install_chunk dir c.video_id c.format_id c.number (bytes_of size content c) s.disk;
        held = c ∷ s.held;
      })
  upsert :
      (now : ℕ) (c : Chunk) (before behind : List Chunk)
      → s.held ≡ before ++ c ∷ behind
      → Step size dir content s (record s {
        disk =
            upsert_row now c.video_id c.format_id c.number
              (path_of dir c)
              (length (bytes_of size content c))
              c.fingerprint
              s.disk;
        held = before ++ behind;
      })
  begin_purge :
      (v f : Text) (fp : Option Text)
      → Step size dir content s (record s {
        listed = map (list_as fp) (select (is_stale v f fp) s.disk.rows) ++ s.listed;
      })
  purge :
      (answers : PurgeAnswers) (l : Listed) (before behind : List Listed)
      → s.listed ≡ before ++ l ∷ behind
      → IsFree dir l.row.file_path s.held
      → Step size dir content s (record s {
        disk =
            (purge_row answers l.fingerprint l.row
              (record { disk = s.disk; removed = 0; bytes = 0 })).disk;
        listed = before ++ behind;
      })
  touch :
      (now : ℕ) (answers : Bool) (v f : Text) (chunk_start chunk_end : ℕ)
      → Step size dir content s
          (record s { disk = touch_chunks now answers v f chunk_start chunk_end s.disk })

pub data Reach (size : ℕ) (dir : Text) (content : Upstream) : State → Type 0 where
  start : Reach size dir content fresh
  next :
      {s t : State}
      → Reach size dir content s
      → Step size dir content s t
      → Reach size dir content t
