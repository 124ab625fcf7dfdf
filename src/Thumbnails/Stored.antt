-- ===== src/Thumbnails/Stored.antt =====
-- What a thumbnail that is put in the cache of src/services/thumbnail_store.rs is got back as.
use hometube.Prelude.{
  ℕ, ◌≡◌, ◌≢◌, refl, sym, ap, ◌∙◌, Bool, true, false, Bool-cases, inl, inr, some, List, [], ◌∷◌,
  arith, length,
}
use hometube.Prelude.Text.{Text, text_eq, text_eq_iff, text_eq_refl}
use hometube.Prelude.Sql.{update, exists}
use hometube.Segments.Table.{write_file, rename}
use hometube.Segments.Coherence.Store.{rename_self}
use hometube.Thumbnails.{
  Thumbnail, Thumbnails, is_id_byte, all_id_bytes, is_safe_video_id, thumbnail_path,
  channel_cache_key, has_cache_key, row_of, get_by_key, get, no_fault, partial_path,
  upsert_thumbnail, put_by_key, put, on_row, on_file, refreshed_thumbnail,
}

row_of-update_self :
    (now : ℕ) (key path : Text) (size : ℕ) (rows : List Thumbnail)
    → exists (has_cache_key key) rows ≡ true
    → (r : Thumbnail) × (row_of key
          (update (has_cache_key key) (refreshed_thumbnail now path size) rows)
        ≡ some r)
      × (r.file_path ≡ path)
unfolding exists update row_of has_cache_key refreshed_thumbnail
row_of-update_self now key path size [] e = absurd (cc (e))
row_of-update_self now key path size (r ∷ rows) e = elim (Bool-cases (text_eq r.key key)) [
  | inl on ↦ (refreshed_thumbnail now path size r, rw on (rw on refl), refl)
  | inr off ↦
      let rest = row_of-update_self now key path size rows (ground (arith, e, off)) in
      (rest.0, rw off (rw off rest.1), rest.2)
]

row_of-update_other :
    (now : ℕ) (key other path : Text) (size : ℕ) (rows : List Thumbnail)
    → text_eq key other ≡ false
    → row_of other (update (has_cache_key key) (refreshed_thumbnail now path size) rows)
      ≡ row_of other rows
unfolding update row_of has_cache_key refreshed_thumbnail
row_of-update_other now key other path size [] off = refl
row_of-update_other now key other path size (r ∷ rows) off = elim (Bool-cases (text_eq r.key key)) [
  | inl on ↦
      let differ : text_eq r.key other ≡ false =
        ap (λ k. text_eq k other) ((text_eq_iff r.key key).0 on) ∙ off in
      rw on (rw (differ) (row_of-update_other now key other path size rows off))
  | inr not_on ↦ rw not_on (elim (Bool-cases (text_eq r.key other)) [
    | inl here ↦ rw here refl
    | inr there ↦ rw there (row_of-update_other now key other path size rows off)
  ])
]

row_of-upsert_thumbnail_self :
    (now : ℕ) (key path : Text) (size : ℕ) (rows : List Thumbnail)
    → (r : Thumbnail) × (row_of key (upsert_thumbnail now key path size rows) ≡ some r)
      × (r.file_path ≡ path)
unfolding upsert_thumbnail row_of has_cache_key
row_of-upsert_thumbnail_self now key path size rows =
    elim (Bool-cases (exists (has_cache_key key) rows)) [
      | inl known ↦ rw known (row_of-update_self now key path size rows known)
      | inr fresh ↦
          rw (fresh, text_eq_refl key)
            (
              record {
                key = key;
                file_path = path;
                file_size_bytes = size;
                cached_at = now;
                last_accessed_at = now;
              },
              refl,
              refl,
            )
    ]

row_of-upsert_thumbnail_other :
    (now : ℕ) (key other path : Text) (size : ℕ) (rows : List Thumbnail)
    → text_eq key other ≡ false
    → row_of other (upsert_thumbnail now key path size rows) ≡ row_of other rows
unfolding upsert_thumbnail row_of has_cache_key
row_of-upsert_thumbnail_other now key other path size rows off =
    elim (Bool-cases (exists (has_cache_key key) rows)) [
      | inl known ↦ rw known (row_of-update_other now key other path size rows off)
      | inr fresh ↦ rw (fresh, off) refl
    ]

safe-bytes : (s : Text) → is_safe_video_id s ≡ true → all_id_bytes s ≡ true
unfolding is_safe_video_id
safe-bytes s h = ground (arith, h)

channel_key-unsafe : (channel : Text) → all_id_bytes (channel_cache_key channel) ≡ false
unfolding all_id_bytes is_id_byte channel_cache_key
channel_key-unsafe channel = refl

-- No safe identifier is the key of a channel.
channel_key-apart :
    (video channel : Text)
    → is_safe_video_id video ≡ true
    → text_eq video (channel_cache_key channel) ≡ false
channel_key-apart video channel safe =
    elim (Bool-cases (text_eq video (channel_cache_key channel))) [
      | inr off ↦ off
      | inl on ↦
          let same : video ≡ channel_cache_key channel =
            (text_eq_iff video (channel_cache_key channel)).0 on in
          absurd (cc (safe-bytes video safe, same, channel_key-unsafe channel))
    ]

-- A row whose file stands is answered with its path.
get_by_key-found :
    (writes : Bool) (now : ℕ) (key : Text) (db : Thumbnails) (r : Thumbnail) (bytes : List ℕ)
    → row_of key db.rows ≡ some r
    → db.files r.file_path ≡ some bytes
    → (get_by_key true writes now key db).1 ≡ some r.file_path
unfolding get_by_key on_row on_file
get_by_key-found writes now key db r bytes row file = rw row (rw file refl)

-- A thumbnail of a safe identifier that is put without a fault is got back by its path, at which its
-- bytes stand; the rows of other videos and of channels are as before.
pub get-put :
    (now later : ℕ) (writes : Bool) (dir video : Text) (bytes : List ℕ) (db : Thumbnails)
    → is_safe_video_id video ≡ true
    → let stored = (put no_fault now dir video bytes db).0 in
      ((get true writes later video stored).1 ≡ some (thumbnail_path dir video))
      × (stored.files (thumbnail_path dir video) ≡ some bytes)
      × ((other : Text) → other ≢ video → row_of other stored.rows ≡ row_of other db.rows)
      × ((channel : Text)
          → row_of (channel_cache_key channel) stored.rows
            ≡ row_of (channel_cache_key channel) db.rows)
unfolding get put put_by_key
get-put now later writes dir video bytes db safe =
    let path = thumbnail_path dir video in
    let row = row_of-upsert_thumbnail_self now video path (length bytes) db.rows in
    let file =
      rename_self (partial_path path) path bytes (write_file (partial_path path) bytes db.files) in
    let stored : Thumbnails = record {
      rows = upsert_thumbnail now video path (length bytes) db.rows;
      files = rename (partial_path path) path bytes (write_file (partial_path path) bytes db.files);
    } in
    rw safe (
      get_by_key-found writes later video stored row.0 bytes row.1 (ap stored.files row.2 ∙ file)
          ∙ ap some row.2,
      file,
      (λ other ne.
          row_of-upsert_thumbnail_other now video other path (length bytes) db.rows
            (differs video other ne)),
      (λ channel.
          row_of-upsert_thumbnail_other now video (channel_cache_key channel) path (length bytes)
            db.rows (channel_key-apart video channel safe)),
    )
  where
    differs : (a b : Text) → b ≢ a → text_eq a b ≡ false
    differs a b ne = elim (Bool-cases (text_eq a b)) [
      | inl on ↦ absurd (ne (sym ((text_eq_iff a b).0 on)))
      | inr off ↦ off
    ]
