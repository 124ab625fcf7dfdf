-- ===== src/Segments/Coherence.antt =====
-- Rows and files of the chunk cache agree: every row of `segment_cache` stands for a chunk file that
-- holds its part of the upstream file which the row's fingerprint names.
pub mod Store
pub mod Purge
pub mod Steps
pub mod Invariant
pub mod Kept
pub mod Reached
pub mod Readers
pub mod Served
use hometube.Prelude.{ℕ, ◌+◌, ◌*◌, ◌<◌, ◌≡◌, ◌≢◌, refl, ap, Option, some, List, [], ◌∷◌, length}
use hometube.Prelude.Slice.{slice}
use hometube.Prelude.Sql.{All}
use hometube.Prelude.Text.{Text}
use hometube.Segments.Paths.{IsComponent, chunk_path}
use hometube.Segments.Table.{Row, Disk}

-- The bytes of the upstream file of a video's format, by its fingerprint.
abbrev pub Upstream : Type 0
Upstream = Text → Text → Option Text → List ℕ

-- The bytes of one chunk of it.
abbrev pub chunk_of : ℕ → Upstream → Text → Text → Option Text → ℕ → List ℕ
chunk_of size content video_id format_id fingerprint n =
    slice (content video_id format_id fingerprint) (n * size) size

pub record IsSound (size : ℕ) (cache_dir : Text) (content : Upstream)
    (files : Text → Option (List ℕ)) (r : Row) : Type 0 where
  pub video : IsComponent r.video_id
  pub format : IsComponent r.format_id
  pub at : r.file_path ≡ chunk_path cache_dir r.video_id r.format_id r.segment_number
  pub holds :
      files r.file_path
      ≡ some (chunk_of size content r.video_id r.format_id r.fingerprint r.segment_number)

-- No two rows have one id or one path.
abbrev pub Apart : Row → Row → Type 0
Apart r s = (r.file_path ≢ s.file_path) × (r.id ≢ s.id)

abbrev pub Distinct : List Row → Type 0
Distinct [] = Unit
Distinct (r ∷ rows) = All (Apart r) rows × Distinct rows

pub record IsCoherent (size : ℕ) (cache_dir : Text) (content : Upstream) (d : Disk) : Type 0 where
  pub sound : All (IsSound size cache_dir content d.files) d.rows
  pub distinct : Distinct d.rows
  pub numbered : All (λ r. r.id < d.next_id) d.rows
