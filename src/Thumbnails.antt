-- ===== src/Thumbnails.antt =====
-- The thumbnail cache of src/services/thumbnail_store.rs: the table `thumbnail_cache` beside the files.
-- Each operation takes what the outside answers: where it fails, and the time in unix seconds.
pub mod Stored
use hometube.Prelude.{
  ℕ, ◌+◌, ◌-◌, ◌*◌, Bool, true, false, not, ◌&&◌, ◌||◌, Option, none, some, List, [], ◌∷◌, ◌++◌,
  length, ltb, leb, ◌==◌, if◌then◌else◌,
}
use hometube.Prelude.Int.{ℤ, pos, negsuc, i64_half, parse_i64}
use hometube.Prelude.Text.{Text, codes, text_eq}
use hometube.Prelude.Sql.{delete, exists, update}
use hometube.Segments.Paths.{join}
use hometube.Segments.Table.{write_file, remove_file, rename}

pub record Thumbnail : Type 0 where
  pub key : Text
  pub file_path : Text
  pub file_size_bytes : ℕ
  pub cached_at : ℕ
  pub last_accessed_at : ℕ

pub record Thumbnails : Type 0 where
  pub rows : List Thumbnail
  pub files : Text → Option (List ℕ)

unfoldable pub is_id_byte : ℕ → Bool
is_id_byte b =
    leb b'a' b && leb b b'z'
    || (leb b'A' b && leb b b'Z' || (leb b'0' b && leb b b'9' || (b == b'_' || b == b'-')))

unfoldable pub all_id_bytes : Text → Bool
unfolding is_id_byte
all_id_bytes [] = true
all_id_bytes (b ∷ s) = is_id_byte b && all_id_bytes s

unfoldable pub is_safe_video_id : Text → Bool
unfolding all_id_bytes
is_safe_video_id s = ltb 0 (length s) && (leb (length s) 64 && all_id_bytes s)

unfoldable pub thumbnail_path : Text → Text → Text
thumbnail_path cache_dir video_id =
    join (join cache_dir (codes "thumbnails")) (video_id ++ codes ".jpg")

unfoldable pub channel_thumbnail_path : Text → Text → Text
channel_thumbnail_path cache_dir channel_id =
    join (join (join cache_dir (codes "thumbnails")) (codes "channels"))
      (channel_id ++ codes ".jpg")

unfoldable pub channel_cache_key : Text → Text
channel_cache_key channel_id = codes "channel:" ++ channel_id

unfoldable pub has_cache_key : Text → Thumbnail → Bool
has_cache_key key r = text_eq r.key key

unfoldable pub row_of : Text → List Thumbnail → Option Thumbnail
unfolding has_cache_key
row_of key [] = none
row_of key (r ∷ rows) = if has_cache_key key r then some r else row_of key rows

unfoldable pub touched_thumbnail : ℕ → Thumbnail → Thumbnail
touched_thumbnail now r = record r { last_accessed_at = now }

-- `writes` is whether the statement behind the read succeeds.
unfoldable pub on_file :
    Bool → ℕ → Text → Thumbnail → Option (List ℕ) → Thumbnails → Thumbnails × Option Text
unfolding has_cache_key touched_thumbnail
on_file writes now key r none db =
    ((if writes then record db { rows = delete (has_cache_key key) db.rows } else db), none)
on_file writes now key r (some bytes) db = (
  (if writes
      then record db { rows = update (has_cache_key key) (touched_thumbnail now) db.rows }
      else db),
  some r.file_path,
)

unfoldable pub on_row : Bool → ℕ → Text → Option Thumbnail → Thumbnails → Thumbnails × Option Text
unfolding on_file
on_row writes now key none db = (db, none)
on_row writes now key (some r) db = on_file writes now key r (db.files r.file_path) db

unfoldable pub get_by_key : Bool → Bool → ℕ → Text → Thumbnails → Thumbnails × Option Text
unfolding on_row row_of
get_by_key answers writes now key db =
    if answers then on_row writes now key (row_of key db.rows) db else (db, none)

unfoldable pub get : Bool → Bool → ℕ → Text → Thumbnails → Thumbnails × Option Text
unfolding get_by_key is_safe_video_id
get answers writes now video_id db =
    if not (is_safe_video_id video_id)
    then (db, none)
    else get_by_key answers writes now video_id db

unfoldable pub get_channel : Bool → Bool → ℕ → Text → Thumbnails → Thumbnails × Option Text
unfolding get_by_key is_safe_video_id channel_cache_key
get_channel answers writes now channel_id db =
    if not (is_safe_video_id channel_id)
    then (db, none)
    else get_by_key answers writes now (channel_cache_key channel_id) db

-- Where `put_by_key` fails. A write that fails may leave a part of the staging file.
pub data PutFault : Type 0 where
  no_fault mkdir_fails rename_fails upsert_fails : PutFault
  write_fails : List ℕ → PutFault

-- `path.with_extension("jpg.partial")` of a path that ends in `.jpg`.
unfoldable pub partial_path : Text → Text
partial_path path = path ++ codes ".partial"

unfoldable pub refreshed_thumbnail : ℕ → Text → ℕ → Thumbnail → Thumbnail
refreshed_thumbnail now path size r = record r {
  file_path = path;
  file_size_bytes = size;
  last_accessed_at = now;
}

unfoldable pub upsert_thumbnail : ℕ → Text → Text → ℕ → List Thumbnail → List Thumbnail
unfolding has_cache_key refreshed_thumbnail
upsert_thumbnail now key path size rows =
    if exists (has_cache_key key) rows
    then update (has_cache_key key) (refreshed_thumbnail now path size) rows
    else record {
      key = key;
      file_path = path;
      file_size_bytes = size;
      cached_at = now;
      last_accessed_at = now;
    }
      ∷ rows

-- The Boolean is whether the call returns `Ok`; only a statement that fails is an error.
unfoldable pub put_by_key : PutFault → ℕ → Text → Text → List ℕ → Thumbnails → Thumbnails × Bool
unfolding write_file remove_file rename upsert_thumbnail partial_path
put_by_key mkdir_fails now key path bytes db = (db, true)
put_by_key (write_fails part) now key path bytes db =
    (record db { files = write_file (partial_path path) part db.files }, true)
put_by_key rename_fails now key path bytes db = (
  record db {
    files = remove_file (partial_path path) (write_file (partial_path path) bytes db.files);
  },
  true,
)
put_by_key upsert_fails now key path bytes db = (
  record db {
    files = rename (partial_path path) path bytes (write_file (partial_path path) bytes db.files);
  },
  false,
)
put_by_key no_fault now key path bytes db = (
  record {
    rows = upsert_thumbnail now key path (length bytes) db.rows;
    files = rename (partial_path path) path bytes (write_file (partial_path path) bytes db.files);
  },
  true,
)

unfoldable pub put : PutFault → ℕ → Text → Text → List ℕ → Thumbnails → Thumbnails × Bool
unfolding put_by_key is_safe_video_id thumbnail_path
put fault now cache_dir video_id bytes db =
    if not (is_safe_video_id video_id)
    then (db, true)
    else put_by_key fault now video_id (thumbnail_path cache_dir video_id) bytes db

unfoldable pub put_channel : PutFault → ℕ → Text → Text → List ℕ → Thumbnails → Thumbnails × Bool
unfolding put_by_key is_safe_video_id channel_thumbnail_path channel_cache_key
put_channel fault now cache_dir channel_id bytes db =
    if not (is_safe_video_id channel_id)
    then (db, true)
    else put_by_key fault now (channel_cache_key channel_id)
        (channel_thumbnail_path cache_dir channel_id) bytes db

abbrev default_max_bytes : ℤ
default_max_bytes = pos (500 * 1024 * 1024)

limit_of : Option ℤ → ℤ
limit_of none = default_max_bytes
limit_of (some (pos n)) = pos n
limit_of (some (negsuc n)) = default_max_bytes

unfoldable pub configured_max_bytes : Option Text → ℤ
unfolding limit_of
configured_max_bytes none = default_max_bytes
configured_max_bytes (some raw) = limit_of (parse_i64 raw)
