-- ===== src/Segments/Coherence/Store.antt =====
-- `store_chunk` keeps rows and files in agreement, wherever it fails before the upsert.
use hometube.Prelude.{
  ℕ, ◌+◌, ◌<◌, ◌≡◌, ◌≢◌, refl, ◌∙◌, Bool, true, false, Bool-cases, inl, inr, Option, some, List, [],
  ◌∷◌, length, arith,
}
use hometube.Prelude.Sql.{All, All-both, All-map, All-update, All-not-exists, update, exists}
use hometube.Prelude.Text.{Text, text_eq_iff, text_eq_refl}
use hometube.Segments.Coherence.{Upstream, chunk_of, IsSound, Apart, Distinct, IsCoherent}
use hometube.Segments.Paths.{
  IsComponent, chunk_path, chunk_path-injective, tmp_path, tmp_path-ne-chunk_path,
}
use hometube.Segments.Table.{
  Row, Disk, write_file, remove_file, rename, has_key, refreshed, upsert_row, StoreFault, no_fault,
  mkdir_fails, rename_fails, upsert_fails, write_fails, install_chunk, store_chunk,
}

pub has_key_sound :
    (v f : Text) (n : ℕ) (r : Row)
    → has_key v f n r ≡ true
    → (r.video_id ≡ v) × (r.format_id ≡ f) × (r.segment_number ≡ n)
unfolding has_key
has_key_sound v f n r h = ground (arith, text_eq_iff r.video_id v, text_eq_iff r.format_id f)

has_key_complete : (r : Row) → has_key r.video_id r.format_id r.segment_number r ≡ true
unfolding has_key
has_key_complete r = ground (arith, text_eq_refl r.video_id, text_eq_refl r.format_id)

pub write_file-ne :
    (path p : Text) (bytes : List ℕ) (files : Text → Option (List ℕ))
    → path ≢ p
    → write_file path bytes files p ≡ files p
unfolding write_file
write_file-ne path p bytes files h = ground (arith, text_eq_iff p path)

pub remove_file-ne :
    (path p : Text) (files : Text → Option (List ℕ)) → path ≢ p → remove_file path files p ≡ files p
unfolding remove_file
remove_file-ne path p files h = ground (arith, text_eq_iff p path)

pub rename-ne :
    (source target p : Text) (bytes : List ℕ) (files : Text → Option (List ℕ))
    → source ≢ p
    → target ≢ p
    → rename source target bytes (write_file source bytes files) p ≡ files p
unfolding rename
rename-ne source target p bytes files h k =
    write_file-ne target p bytes (remove_file source (write_file source bytes files)) k
    ∙ remove_file-ne source p (write_file source bytes files) h
    ∙ write_file-ne source p bytes files h

pub rename_self :
    (source target : Text) (bytes : List ℕ) (files : Text → Option (List ℕ))
    → rename source target bytes files target ≡ some bytes
unfolding rename write_file
rename_self source target bytes files = rw (text_eq_refl target) refl

-- An update that changes neither the path nor the id of a row.
unfoldable pub Keeps : (Row → Bool) → (Row → Row) → Row → Type 0
Keeps test set r = (test r ≡ true) → ((set r).file_path ≡ r.file_path) × ((set r).id ≡ r.id)

Apart-update :
    (test : Row → Bool) (set : Row → Row) (r r' : Row) (rows : List Row)
    → (r'.file_path ≡ r.file_path) × (r'.id ≡ r.id)
    → All (Keeps test set) rows
    → All (Apart r) rows
    → All (Apart r') (update test set rows)
unfolding Keeps
Apart-update test set r r' rows same keeps apart =
    All-update {P = λ s. Keeps test set s × Apart r s} {Q = Apart r'} test set rows
      (λ s h e. ((λ p. h.1.0 (cc (same.0, (h.0 e).0))), (λ p. h.1.1 (cc (same.1, (h.0 e).1)))))
      (λ s h e. ((λ p. h.1.0 (cc (same.0))), (λ p. h.1.1 (cc (same.1)))))
      (All-both (Keeps test set) (Apart r) rows keeps apart)

pub Distinct-update :
    (test : Row → Bool) (set : Row → Row) (rows : List Row)
    → All (Keeps test set) rows
    → Distinct rows
    → Distinct (update test set rows)
unfolding update Keeps
Distinct-update test set [] keeps h = tt
Distinct-update test set (r ∷ rows) keeps h = elim (Bool-cases (test r)) [
  | inl e ↦ rw e (
    Apart-update test set r (set r) rows (keeps.0 e) keeps.1 h.0,
    Distinct-update test set rows keeps.1 h.1,
  )
  | inr e ↦ rw e (
    Apart-update test set r r rows (refl, refl) keeps.1 h.0,
    Distinct-update test set rows keeps.1 h.1,
  )
]

module _ (size : ℕ) (dir : Text) (content : Upstream) where
  abbrev Sound : (Text → Option (List ℕ)) → Row → Type 0
  Sound = IsSound size dir content

  -- A row stays sound while its file stays.
  pub IsSound-frame :
      (files files' : Text → Option (List ℕ)) (r : Row)
      → files' r.file_path ≡ files r.file_path
      → Sound files r
      → Sound files' r
  IsSound-frame files files' r e h = record {
    video = h.video;
    format = h.format;
    at = h.at;
    holds = e ∙ h.holds;
  }

  tmp-ne :
      (path : Text) (files : Text → Option (List ℕ)) (r : Row)
      → Sound files r
      → tmp_path path ≢ r.file_path
  tmp-ne path files r h e =
      tmp_path-ne-chunk_path path dir r.video_id r.format_id r.segment_number h.video h.format
        (e ∙ h.at)

  -- A staging file stands in no row's way.
  staged-IsCoherent :
      (path : Text) (bytes : List ℕ) (d : Disk)
      → IsCoherent size dir content d
      → IsCoherent size dir content (record d { files = write_file (tmp_path path) bytes d.files })
  staged-IsCoherent path bytes d h = record {
    sound =
        All-map
          (λ r s.
            IsSound-frame d.files _ r
              (write_file-ne (tmp_path path) r.file_path bytes d.files (tmp-ne path d.files r s)) s)
          d.rows h.sound;
    distinct = h.distinct;
    numbered = h.numbered;
  }

  -- A row of another key has another path.
  path-ne :
      (files : Text → Option (List ℕ)) (v f : Text) (n : ℕ) (r : Row)
      → IsComponent v
      → IsComponent f
      → Sound files r
      → has_key v f n r ≡ false
      → chunk_path dir v f n ≢ r.file_path
  path-ne files v f n r hv hf h e same =
      let ids =
        chunk_path-injective dir v f r.video_id r.format_id n r.segment_number hv hf h.video
          h.format (same ∙ h.at) in
      ground (arith, has_key_complete r)

  module _ (v f : Text) (n now : ℕ) (fp : Option Text) (hv : IsComponent v) (hf : IsComponent f)
      (d : Disk) (coherent : IsCoherent size dir content d) where
    path : Text
    path = chunk_path dir v f n

    piece : List ℕ
    piece = chunk_of size content v f fp n

    after : Text → Option (List ℕ)
    after = rename (tmp_path path) path piece (write_file (tmp_path path) piece d.files)

    set_row : Row → Row
    set_row = refreshed now path (length piece) fp

    -- A row with the key stands for the new file.
    Sound-set : (r : Row) → Sound d.files r → has_key v f n r ≡ true → Sound after (set_row r)
    unfolding set_row refreshed path piece after
    Sound-set r h e =
        let ids = has_key_sound v f n r e in
        record {
          video = h.video;
          format = h.format;
          at = cc (ids.0, ids.1, ids.2);
          holds =
              rename_self (tmp_path path) path piece (write_file (tmp_path path) piece d.files)
              ∙ cc (ids.0, ids.1, ids.2);
        }

    Sound-kept : (r : Row) → Sound d.files r → has_key v f n r ≡ false → Sound after r
    unfolding path after
    Sound-kept r h e =
        IsSound-frame d.files after r
          (rename-ne (tmp_path path) path r.file_path piece d.files (tmp-ne path d.files r h)
            (path-ne d.files v f n r hv hf h e))
          h

    -- The row is there, and now stands for the new file.
    updated-IsCoherent :
        IsCoherent size dir content
          (record d { rows = update (has_key v f n) set_row d.rows; files = after })
    unfolding set_row refreshed path Keeps
    updated-IsCoherent = record {
      sound = All-update (has_key v f n) set_row d.rows Sound-set Sound-kept coherent.sound;
      distinct =
          Distinct-update (has_key v f n) set_row d.rows
            (All-map
              (λ r h e. let ids = has_key_sound v f n r e in (cc (h.at, ids.0, ids.1, ids.2), refl))
              d.rows coherent.sound)
            coherent.distinct;
      numbered =
          All-update (has_key v f n) set_row d.rows (λ r h e. h) (λ r h e. h) coherent.numbered;
    }

    inserted : Row
    inserted = record {
      id = d.next_id;
      video_id = v;
      format_id = f;
      segment_number = n;
      file_path = path;
      file_size_bytes = length piece;
      fingerprint = fp;
      cached_at = now;
      last_accessed_at = now;
    }

    -- The row is new.
    inserted-IsCoherent :
        exists (has_key v f n) d.rows ≡ false
        → IsCoherent size dir content
            (record d { rows = inserted ∷ d.rows; next_id = d.next_id + 1; files = after })
    unfolding inserted path piece after
    inserted-IsCoherent absent =
        let others = All-not-exists (Sound d.files) (has_key v f n) d.rows absent coherent.sound in
        record {
          sound = (
            record {
              video = hv;
              format = hf;
              at = refl;
              holds =
                  rename_self (tmp_path path) path piece (write_file (tmp_path path) piece d.files);
            },
            All-map (λ r h. Sound-kept r h.0 h.1) d.rows others,
          );
          distinct = (
            All-map (λ r h. (path-ne d.files v f n r hv hf h.0.0 h.0.1, λ e. omega (arith, h.1)))
                d.rows
                (All-both (λ r. Sound d.files r × (has_key v f n r ≡ false)) (λ r. r.id < d.next_id)
                  d.rows others coherent.numbered),
            coherent.distinct,
          );
          numbered = (omega arith, All-map (λ r h. omega (arith, h)) d.rows coherent.numbered);
        }

    installed-IsCoherent :
        IsCoherent size dir content
          (upsert_row now v f n path (length piece) fp (record d { files = after }))
    unfolding upsert_row
    installed-IsCoherent = elim (Bool-cases (exists (has_key v f n) d.rows)) [
      | inl e ↦ rw e (unfold set_row in updated-IsCoherent)
      | inr e ↦ rw e (unfold inserted in inserted-IsCoherent e)
    ]

  -- A chunk of the upstream file is stored under names without separators, or storing it fails
  -- before the upsert: rows and files still agree.
  pub store_chunk-IsCoherent :
      (fault : StoreFault) (now : ℕ) (v f : Text) (fp : Option Text) (n : ℕ) (d : Disk)
      → fault ≢ upsert_fails
      → IsComponent v
      → IsComponent f
      → IsCoherent size dir content d
      → IsCoherent size dir content
          (store_chunk fault now dir v f fp n (chunk_of size content v f fp n) d).0
  unfolding store_chunk install_chunk
  store_chunk-IsCoherent mkdir_fails now v f fp n d ok hv hf h = h
  store_chunk-IsCoherent upsert_fails now v f fp n d ok hv hf h = absurd (ok refl)
  store_chunk-IsCoherent rename_fails now v f fp n d ok hv hf h =
      staged-IsCoherent (chunk_path dir v f n) (chunk_of size content v f fp n) d h
  store_chunk-IsCoherent (write_fails part) now v f fp n d ok hv hf h =
      staged-IsCoherent (chunk_path dir v f n) part d h
  store_chunk-IsCoherent no_fault now v f fp n d ok hv hf h =
      unfold path piece after in installed-IsCoherent v f n now fp hv hf d h
