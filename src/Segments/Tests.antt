-- ===== src/Segments/Tests.antt =====
-- Runs of the chunk cache on small files, and its theorems at them.
use mathlib.Core.Path.{subst}
use hometube.Prelude.{
  ℕ, ◌+◌, ◌-◌, ◌≤◌, ◌≡◌, refl, sym, ap, inr, Bool, true, false, none, some, List, [], ◌∷◌, arith,
  length,
}
use hometube.Prelude.Slice.{slice}
use hometube.Prelude.Text.{Text, codes, text_eq, decimal, zero_padded}
use hometube.Segments.Chunk.{add64, sub64, sub32, chunk_index, chunk_byte_start, next_chunk}
use hometube.Segments.Coherence.{Upstream}
use hometube.Segments.Coherence.Served.{Reach-served}
use hometube.Segments.Coherence.Steps.{
  Chunk, State, IsFree, path_of, bytes_of, Reach, start, next, install, upsert, fresh,
}
use hometube.Segments.Coherence.Readers.{Spared, at_once, after}
use hometube.Segments.Paths.{IsComponent, chunk_path, tmp_path}
use hometube.Segments.Read.{chunk_piece, read_chunks, read_range_from_cache}
use hometube.Segments.Stream.{Poll, item, ended, messages, delivered, TeeStream-stores}
use hometube.Segments.Table.{
  Disk, range_status, install_chunk, upsert_row, purge_row, purge_stale_chunks,
}
use hometube.Segments.Tee.{
  bytes, eof, flush_loop, flush_complete_chunks, on_data, receive, finish, is_end_of_file,
  tee_writer_task,
}
use hometube.Segments.Tee.Complete.{end_chunk}
use hometube.Segments.Tee.Plan.{store_chunks}
use hometube.Segments.Tee.Receive.{received, first_chunk}

-- What the tests compute with.
program : Unit {0}
unfolding add64 sub64 sub32 chunk_index chunk_byte_start next_chunk flush_loop flush_complete_chunks
    on_data receive finish is_end_of_file tee_writer_task slice install_chunk upsert_row chunk_path
    decimal zero_padded tmp_path text_eq range_status read_range_from_cache chunk_piece read_chunks
    received delivered messages first_chunk end_chunk purge_row purge_stale_chunks store_chunks
program = tt

abbrev ten : List ℕ
ten = 1 ∷ 2 ∷ 3 ∷ 4 ∷ 5 ∷ 6 ∷ 7 ∷ 8 ∷ 9 ∷ 10 ∷ []

abbrev upstream : Upstream
upstream v f fp = ten

abbrev video : Text
video = codes "dQw4w9WgXcQ"

abbrev format : Text
format = codes "137"

abbrev dir : Text
dir = codes "/cache"

video-IsComponent : IsComponent video
video-IsComponent = record { filled = λ e. cc; lacks_separator = omega arith }

format-IsComponent : IsComponent format
format-IsComponent = record { filled = λ e. cc; lacks_separator = omega arith }

chunk_path_example : chunk_path dir video format 7 ≡ codes "/cache/dQ/dQw4w9WgXcQ/137_000007.chunk"
unfolding program
chunk_path_example = refl

-- A log of what is stored, in place of the disk.
abbrev log : ℕ → List ℕ → List (ℕ × List ℕ) → List (ℕ × List ℕ)
log cn piece done = (cn, piece) ∷ done

-- The stream starts inside chunk 0 and reaches the end of the file.
tee_example :
    tee_writer_task 4 log 2
      (some 10)
      (bytes (3 ∷ []) ∷ bytes (4 ∷ 5 ∷ 6 ∷ 7 ∷ 8 ∷ 9 ∷ []) ∷ bytes (10 ∷ []) ∷ eof ∷ [])
      []
    ≡ (2, 9 ∷ 10 ∷ []) ∷ (1, 5 ∷ 6 ∷ 7 ∷ 8 ∷ []) ∷ []
unfolding program
tee_example = refl

-- The channel refuses the second item.
abbrev polls : List (Poll × Bool)
polls = (item (1 ∷ 2 ∷ 3 ∷ 4 ∷ 5 ∷ []), true) ∷ (item (6 ∷ 7 ∷ 8 ∷ []), false) ∷ (ended, true) ∷ []

TeeStream-stores_example :
    (pos : ℕ) × (0 ≤ pos)
    × (pos ≤ 0 + length (delivered polls))
    × (tee_writer_task 4 log 0 none (messages false polls) []
        ≡ store_chunks 4 log ten (end_chunk 4 none pos - first_chunk 4 0) (first_chunk 4 0) [])
unfolding program
TeeStream-stores_example =
    TeeStream-stores 4 log ten 0 none polls [] (omega arith) (omega arith) (omega arith) total
      (omega arith) refl
  where
    total : (t : ℕ) → none ≡ some t → t ≡ 10
    total t e = cc

-- Three chunks of four, four and two bytes, each by a rename and a row.
abbrev chunk : ℕ → Chunk
chunk n = record { video_id = video; format_id = format; fingerprint = none; number = n }

abbrev renamed : ℕ → State → State
renamed n s = record s {
  disk = install_chunk dir video format n (bytes_of 4 upstream (chunk n)) s.disk;
  held = chunk n ∷ s.held;
}

abbrev recorded : ℕ → State → State
recorded n s = record s {
  disk =
      upsert_row 100 video format n (path_of dir (chunk n)) (length (bytes_of 4 upstream (chunk n)))
        none s.disk;
  held = [];
}

abbrev put : ℕ → State → State
put n s = recorded n (renamed n s)

abbrev full : State
full = put 2 (put 1 (put 0 fresh))

put-Reach :
    (n : ℕ) {s : State} → s.held ≡ [] → Reach 4 dir upstream s → Reach 4 dir upstream (put n s)
put-Reach n {s} none_held r =
    next
      (next r (
        install (chunk n) video-IsComponent format-IsComponent
          (subst (IsFree dir (path_of dir (chunk n))) (sym none_held) tt)))
      (upsert 100 (chunk n) [] [] (ap (λ (held : List Chunk). chunk n ∷ held) none_held))

full-Reach : Reach 4 dir upstream full
full-Reach = put-Reach 2 refl (put-Reach 1 refl (put-Reach 0 refl start))

full_cached : (range_status 4 true video format none 3 9 full.disk).fully_cached ≡ true
unfolding program
full_cached = refl

-- The files are read while another store renames the same chunk of the same file anew.
abbrev busy : State
busy = renamed 1 full

busy-Spared : (n : ℕ) → Spared 4 dir upstream (chunk_path dir video format n) none full busy
busy-Spared n = after at_once (install (chunk 1) video-IsComponent format-IsComponent tt) (inr refl)

Reach-served_example :
    read_range_from_cache 4 (λ n. busy.disk.files (chunk_path dir video format n)) 3 9
    ≡ some (slice ten 3 (9 + 1 - 3))
Reach-served_example =
    Reach-served 4 dir upstream full video format none 3 9 (λ n. busy) (omega arith) (omega arith)
      (omega arith) (omega arith) video-IsComponent format-IsComponent full-Reach full_cached
      (λ n low high. (tt, busy-Spared n))

-- A query between the rename and the row of a newer file still says cached, and the reader gets the
-- newer bytes.
abbrev newer : Disk
newer = install_chunk dir video format 1 (20 ∷ 21 ∷ 22 ∷ 23 ∷ []) full.disk

torn_status : (range_status 4 true video format none 3 9 newer).fully_cached ≡ true
unfolding program
torn_status = refl

torn_read :
    read_range_from_cache 4 (λ n. newer.files (chunk_path dir video format n)) 3 9
    ≡ some (4 ∷ 20 ∷ 21 ∷ 22 ∷ 23 ∷ 9 ∷ 10 ∷ [])
unfolding program
torn_read = refl

-- A purge lists the rows of a file that has no fingerprint, once the file has one.
purge_example :
    (purge_stale_chunks true [] video format (some (codes "lmt:1")) full.disk).removed ≡ 3
unfolding program
purge_example = refl
