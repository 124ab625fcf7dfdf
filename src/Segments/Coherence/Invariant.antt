-- ===== src/Segments/Coherence/Invariant.antt =====
-- What the steps of the chunk cache keep: rows agree with files, but for the chunks that a store is
-- about to write the row of.
use hometube.Prelude.{
  ℕ, ◌<◌, ◌≡◌, ◌≢◌, refl, Bool, true, false, Bool-cases, inl, inr, Option, List, [], ◌∷◌, ◌++◌,
  ◌&&◌, ◌==◌, some, map, arith, length,
}
use hometube.Prelude.Sql.{All, All-both, All-map, All-update, exists, count}
use hometube.Prelude.Text.{Text}
use hometube.Segments.Coherence.{Upstream, IsSound, IsCoherent}
use hometube.Segments.Coherence.Store.{
  rename-ne, remove_file-ne, has_key_sound, Distinct-update, Keeps,
}
use hometube.Segments.Coherence.Purge.{IsListed}
use hometube.Segments.Paths.{IsComponent, chunk_path, tmp_path, tmp_path-ne-chunk_path}
use hometube.Segments.Table.{
  Row, Disk, PurgeAnswers, StoreFault, no_fault, mkdir_fails, rename_fails, upsert_fails,
  write_fails, has_key, upsert_row, install_chunk, store_chunk, still_stale, remove_file, purge_row,
  touch_chunks, in_chunks, touched, refreshed, write_file, rename,
}
use hometube.Segments.Coherence.Steps.{Chunk, State, list_as, path_of, bytes_of, IsFree}

abbrev pub IsInstalled : ℕ → Text → Upstream → (Text → Option (List ℕ)) → Chunk → Type 0
IsInstalled size dir content files c =
    IsComponent c.video_id
    × IsComponent c.format_id
    × (files (path_of dir c) ≡ some (bytes_of size content c))

-- The rows agree with the files as they were before the chunks that are held got theirs.
pub record Inv (size : ℕ) (dir : Text) (content : Upstream) (s : State) : Type 0 where
  pub settled : Text → Option (List ℕ)
  pub coherent : IsCoherent size dir content (record (s.disk) { files = settled })
  pub same :
      (v f : Text) (n : ℕ)
      → IsComponent v
      → IsComponent f
      → IsFree dir (chunk_path dir v f n) s.held
      → s.disk.files (chunk_path dir v f n) ≡ settled (chunk_path dir v f n)
  pub installed : All (IsInstalled size dir content s.disk.files) s.held
  pub listings : All (λ l. IsListed l.row s.disk) s.listed

pub All-drop :
    {A : Type 0} (P : A → Type 0) (before : List A) (l : A) (behind : List A)
    → All P (before ++ l ∷ behind)
    → P l × All P (before ++ behind)
All-drop P [] l behind h = h
All-drop P (b ∷ before) l behind h = let r = All-drop P before l behind h.1 in (r.0, (h.0, r.1))

pub All-put :
    {A : Type 0} (P : A → Type 0) (before : List A) (l : A) (behind : List A)
    → P l
    → All P (before ++ behind)
    → All P (before ++ l ∷ behind)
All-put P [] l behind p h = (p, h)
All-put P (b ∷ before) l behind p h = (h.0, All-put P before l behind p h.1)

pub All-IsListed :
    (d : Disk) (fp : Option Text) (rows : List Row)
    → All (λ r. IsListed r d) rows
    → All (λ l. IsListed l.row d) (map (list_as fp) rows)
All-IsListed d fp [] h = tt
All-IsListed d fp (r ∷ rows) h = (h.0, All-IsListed d fp rows h.1)

module _ (size : ℕ) (dir : Text) (content : Upstream) where
  -- `store_chunk` leaves every listing in force: a row keeps its id and its path.
  pub store_chunk-IsListed :
      (fault : StoreFault) (now : ℕ) (v f : Text) (fp : Option Text) (n : ℕ) (bytes : List ℕ)
      (d : Disk) (l : Row)
      → IsCoherent size dir content d
      → IsListed l d
      → IsListed l (store_chunk fault now dir v f fp n bytes d).0
  unfolding store_chunk install_chunk refreshed
  store_chunk-IsListed mkdir_fails now v f fp n bytes d l h k = k
  store_chunk-IsListed upsert_fails now v f fp n bytes d l h k = record {
    old = k.old;
    same = k.same;
  }
  store_chunk-IsListed rename_fails now v f fp n bytes d l h k = record {
    old = k.old;
    same = k.same;
  }
  store_chunk-IsListed (write_fails part) now v f fp n bytes d l h k = record {
    old = k.old;
    same = k.same;
  }
  store_chunk-IsListed no_fault now v f fp n bytes d l h k = upserted (
      rename (tmp_path (chunk_path dir v f n)) (chunk_path dir v f n) bytes
        (write_file (tmp_path (chunk_path dir v f n)) bytes d.files))
    where
      upserted :
          (files : Text → Option (List ℕ))
          → IsListed l (
              upsert_row now v f n
                (chunk_path dir v f n)
                (length bytes)
                fp
                (record d { files = files }))
      upserted files = elim (Bool-cases (exists (has_key v f n) d.rows)) [
        | inl e ↦ rw e (record {
          old = k.old;
          same =
              All-update {Q = λ r. r.id ≡ l.id → r.file_path ≡ l.file_path} (has_key v f n)
                (refreshed now (chunk_path dir v f n) (length bytes) fp) d.rows
                (λ r b e i.
                  let ids = has_key_sound v f n r e in cc (b.0.at, ids.0, ids.1, ids.2, b.1 i))
                (λ r b e. b.1)
                (All-both (IsSound size dir content d.files)
                  (λ r. r.id ≡ l.id → r.file_path ≡ l.file_path) d.rows h.sound k.same);
        })
        | inr e ↦ rw e (record {
          old = omega (arith, k.old);
          same = ((λ i. absurd (omega (arith, k.old))), k.same);
        })
      ]

  pub touch_chunks-IsCoherent :
      (now : ℕ) (answers : Bool) (v f : Text) (a b : ℕ) (d : Disk)
      → IsCoherent size dir content d
      → IsCoherent size dir content (touch_chunks now answers v f a b d)
  unfolding touch_chunks Keeps
  touch_chunks-IsCoherent now false v f a b d h = h
  touch_chunks-IsCoherent now true v f a b d h = record {
    sound =
        All-update {Q = IsSound size dir content d.files} (in_chunks v f a b) (touched now) d.rows
          (λ r s e. record { video = s.video; format = s.format; at = s.at; holds = s.holds })
          (λ r s e. s) h.sound;
    distinct =
        Distinct-update (in_chunks v f a b) (touched now) d.rows
          (All-map (λ r s e. (refl, refl)) d.rows h.sound) h.distinct;
    numbered =
        All-update {Q = λ r. r.id < d.next_id} (in_chunks v f a b) (touched now) d.rows (λ r s e. s)
          (λ r s e. s) h.numbered;
  }

  pub touch_chunks-IsListed :
      (now : ℕ) (answers : Bool) (v f : Text) (a b : ℕ) (d : Disk) (l : Row)
      → IsListed l d
      → IsListed l (touch_chunks now answers v f a b d)
  unfolding touch_chunks
  touch_chunks-IsListed now false v f a b d l k = k
  touch_chunks-IsListed now true v f a b d l k = record {
    old = k.old;
    same =
        All-update {Q = λ r. r.id ≡ l.id → r.file_path ≡ l.file_path} (in_chunks v f a b)
          (touched now) d.rows (λ r s e. s) (λ r s e. s) k.same;
  }

  pub upsert_row-files :
      (now : ℕ) (v f : Text) (n : ℕ) (path : Text) (bytes : ℕ) (fp : Option Text) (d : Disk)
      (files : Text → Option (List ℕ))
      → upsert_row now v f n path bytes fp (record d { files = files })
        ≡ record (upsert_row now v f n path bytes fp d) { files = files }
  unfolding upsert_row
  upsert_row-files now v f n path bytes fp d files =
      elim (Bool-cases (exists (has_key v f n) d.rows)) [ inl e ↦ rw e refl | inr e ↦ rw e refl ]

  pub upsert_row_keeps :
      (now : ℕ) (v f : Text) (n : ℕ) (path : Text) (bytes : ℕ) (fp : Option Text) (d : Disk)
      → (upsert_row now v f n path bytes fp d).files ≡ d.files
  unfolding upsert_row
  upsert_row_keeps now v f n path bytes fp d = elim (Bool-cases (exists (has_key v f n) d.rows)) [
    | inl e ↦ rw e refl
    | inr e ↦ rw e refl
  ]

  -- A purge goes by the rows alone.
  pub purge_row-files :
      (answers : PurgeAnswers) (fp : Option Text) (listed : Row) (d : Disk)
      (files : Text → Option (List ℕ))
      → let after =
          (purge_row answers fp listed
            (record { disk = record d { files = files }; removed = 0; bytes = 0 })).disk in
        after
        ≡ record ((purge_row answers fp listed
            (record { disk = d; removed = 0; bytes = 0 })).disk) { files = after.files }
  unfolding purge_row
  purge_row-files answers fp listed d files =
      elim (Bool-cases
        (answers.delete_succeeds && (count (still_stale listed.id fp) d.rows == 1))) [
          | inl e ↦ rw e refl
          | inr e ↦ rw e refl
        ]

  -- A purge treats a path alike on files that agree there, and leaves every path but that of the row.
  pub purge_row-path :
      (answers : PurgeAnswers) (fp : Option Text) (listed : Row) (d : Disk)
      (files : Text → Option (List ℕ)) (path : Text)
      → d.files path ≡ files path
      → (purge_row answers fp listed (record { disk = d; removed = 0; bytes = 0 })).disk.files path
        ≡ (purge_row answers fp listed
              (record { disk = record d { files = files }; removed = 0; bytes = 0 })).disk.files
            path
  unfolding purge_row remove_file
  purge_row-path answers fp listed d files path e =
      elim (Bool-cases
        (answers.delete_succeeds && (count (still_stale listed.id fp) d.rows == 1))) [
          | inr off ↦ rw off e
          | inl on ↦ elim (Bool-cases (answers.unlink_succeeds)) [
            | inr kept ↦ rw (on, kept) e
            | inl gone ↦ rw (on, gone, e) refl
          ]
        ]

  pub purge_row-other :
      (answers : PurgeAnswers) (fp : Option Text) (listed : Row) (d : Disk) (path : Text)
      → listed.file_path ≢ path
      → (purge_row answers fp listed (record { disk = d; removed = 0; bytes = 0 })).disk.files path
        ≡ d.files path
  unfolding purge_row
  purge_row-other answers fp listed d path ne =
      elim (Bool-cases
        (answers.delete_succeeds && (count (still_stale listed.id fp) d.rows == 1))) [
          | inr off ↦ rw off refl
          | inl on ↦ elim (Bool-cases (answers.unlink_succeeds)) [
            | inr kept ↦ rw (on, kept) refl
            | inl gone ↦ rw (on, gone) (remove_file-ne listed.file_path path d.files ne)
          ]
        ]

  pub install_chunk-other :
      (c : Chunk) (v f : Text) (n : ℕ) (d : Disk)
      → IsComponent v
      → IsComponent f
      → path_of dir c ≢ chunk_path dir v f n
      → (install_chunk dir c.video_id c.format_id c.number (bytes_of size content c) d).files
          (chunk_path dir v f n)
        ≡ d.files (chunk_path dir v f n)
  unfolding install_chunk
  install_chunk-other c v f n d hv hf ne =
      rename-ne (tmp_path (path_of dir c)) (path_of dir c) (chunk_path dir v f n)
        (bytes_of size content c) d.files (tmp_path-ne-chunk_path (path_of dir c) dir v f n hv hf)
        ne
