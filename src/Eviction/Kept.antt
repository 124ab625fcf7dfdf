-- ===== src/Eviction/Kept.antt =====
-- What `cleanup_segment_cache` of src/services/video_cache.rs leaves in the cache.
use mathlib.Core.List.{Sublistᴰ}
use mathlib.Core.List.Sublistᴰ
use hometube.Prelude.{
  ℕ, ◌≤◌, ◌≡◌, ◌≢◌, ◌⊎◌, refl, ◌∙◌, Bool, true, false, ◌||◌, Bool-cases, inl, inr, List, [], ◌∷◌,
  if◌then◌else◌, arith, Option,
}
use hometube.Prelude.Text.{Text, text_eq, text_eq_iff, text_eq_comm}
use hometube.Prelude.Assoc.{Assoc, remove, get-remove}
use hometube.Prelude.Sql.{All, All-map, delete, exists, select}
use hometube.Metadata.{MetadataRow}
use hometube.Segments.Table.{Row}
use hometube.Eviction.{
  Cache, Allowlists, Answers, Run, Reason, Eviction, unlink_listed, not_allowlisted, ended, stopped,
  of_video, evict_video, total_size, log_eviction,
}
use hometube.Eviction.Cleanup.{Totals, video_is_anywhere_allowlisted, count_run, sweep_video, sweep}
use hometube.Eviction.Lru.{UniqueIds}

-- A run that comes to its end, in a cache with the property.
abbrev pub EndsIn {ℓ} : {A : Type 0} → (Cache → Type ℓ) → Run A → Type ℓ
EndsIn P (ended a c) = P c
EndsIn P (stopped c) = (false ≡ true) × P c

-- No statement fails.
pub record AllSucceed (answers : Answers) : Type 0 where
  pub lists : (video : Text) → answers.lists_rows video ≡ true
  pub rows : (video : Text) → answers.deletes_rows video ≡ true
  pub metadata : (video : Text) → answers.deletes_metadata video ≡ true
  pub row : (id : ℕ) → answers.deletes_row id ≡ true
  pub reads : (video : Text) → answers.reads_allowlists video ≡ true

pub delete-Sublist : (test : Row → Bool) (rows : List Row) → Sublistᴰ (delete test rows) rows
unfolding delete
delete-Sublist test [] = Sublistᴰ.slnil
delete-Sublist test (r ∷ rows) = elim (Bool-cases (test r)) [
  | inl on ↦ rw on (Sublistᴰ.cons (delete-Sublist test rows))
  | inr off ↦ rw off (Sublistᴰ.cons-cons refl (delete-Sublist test rows))
]

pub All-Sublist : (P : Row → Type 0) {xs ys : List Row} → Sublistᴰ xs ys → All P ys → All P xs
All-Sublist P Sublistᴰ.slnil h = tt
All-Sublist P (Sublistᴰ.cons s) h = All-Sublist P s h.1
All-Sublist P (Sublistᴰ.cons-cons e s) h = (rw e h.0, All-Sublist P s h.1)

pub UniqueIds-Sublist : {xs ys : List Row} → Sublistᴰ xs ys → UniqueIds ys → UniqueIds xs
UniqueIds-Sublist Sublistᴰ.slnil h = tt
UniqueIds-Sublist (Sublistᴰ.cons s) h = UniqueIds-Sublist s h.1
UniqueIds-Sublist (Sublistᴰ.cons-cons {b} e s) h =
    (rw e (All-Sublist (λ r. b.id ≢ r.id) s h.0), UniqueIds-Sublist s h.1)

pub total_size-Sublist : {xs ys : List Row} → Sublistᴰ xs ys → total_size xs ≤ total_size ys
unfolding total_size
total_size-Sublist Sublistᴰ.slnil = omega arith
total_size-Sublist (Sublistᴰ.cons s) = omega (arith, total_size-Sublist s)
total_size-Sublist (Sublistᴰ.cons-cons e s) = rw e (omega (arith, total_size-Sublist s))

-- An end that holds of one property holds of a weaker one.
pub EndsIn-map :
    {A : Type 0} (P Q : Cache → Type 0) (run : Run A)
    → ((c : Cache) → P c → Q c)
    → EndsIn P run
    → EndsIn Q run
EndsIn-map P Q (ended a c) f h = f c h
EndsIn-map P Q (stopped c) f h = (h.0, f c h.1)

pub EndsIn-if :
    {A : Type 0} (P : Cache → Type 0) (b : Bool) (x y : Run A)
    → EndsIn P x
    → EndsIn P y
    → EndsIn P (if b then x else y)
EndsIn-if P true x y h k = h
EndsIn-if P false x y h k = k

module _ (channel_of : Text → Option Text) (lists : Allowlists) where
  abbrev pub IsAllowed : Assoc MetadataRow → Text → Type 0
  IsAllowed metadata video = video_is_anywhere_allowlisted channel_of lists metadata video ≡ true

  -- The rows of the videos that `D` names are of videos that are allowlisted.
  abbrev pub Cleared : (Text → Type 0) → Cache → Type 0
  Cleared D c = All (λ r. D r.video_id → IsAllowed c.metadata r.video_id) c.disk.rows

  -- The rows are some of those before, and those of the videos that `D` names are allowed.
  abbrev pub Swept : (Text → Type 0) → Cache → Cache → Type 0
  Swept D c c' = Sublistᴰ c'.disk.rows c.disk.rows × Cleared D c'

  regroup : (D : Type 0) (a b : Bool) → D ⊎ (a || b ≡ true) → (D ⊎ (a ≡ true)) ⊎ (b ≡ true)
  regroup D a b (inl d) = inl (inl d)
  regroup D true b (inr e) = inl (inr refl)
  regroup D false b (inr e) = inr e

  -- Metadata of another video does not matter.
  pub allowed-remove :
      (video other : Text) (metadata : Assoc MetadataRow)
      → text_eq other video ≡ false
      → video_is_anywhere_allowlisted channel_of lists (remove other metadata) video
        ≡ video_is_anywhere_allowlisted channel_of lists metadata video
  unfolding video_is_anywhere_allowlisted
  allowed-remove video other metadata off = rw (get-remove other video metadata, off) refl

  module _ (answers : Answers) (now : ℕ) (succeed : AllSucceed answers) where
    -- What the eviction of a video leaves, but for the log.
    abbrev evicted : Text → Cache → List Eviction → Cache
    evicted video c log = record {
      disk = record (c.disk) {
        rows = delete (of_video video) c.disk.rows;
        files = unlink_listed answers (select (of_video video) c.disk.rows) c.disk.files;
      };
      metadata = remove video c.metadata;
      evictions = log;
    }

    pub logged :
        (P : Cache → Type 0) (segs bytes : ℕ) (video : Text) (why : Reason) (c : Cache)
        → ((log : List Eviction) → P (record c { evictions = log }))
        → P (log_eviction answers now video segs bytes why c)
    unfolding log_eviction
    logged P segs bytes video why c h = elim (Bool-cases (answers.logs video)) [
      | inl on ↦ rw on (h _)
      | inr off ↦ rw off (h _)
    ]

    evict_video-EndsIn :
        (P : Cache → Type 0) (video : Text) (why : Reason) (c : Cache)
        → ((log : List Eviction) → P (evicted video c log))
        → EndsIn P (evict_video answers now video why c)
    unfolding evict_video
    evict_video-EndsIn P video why c h =
        rw (succeed.lists video, succeed.rows video, succeed.metadata video)
          (EndsIn-if P _
            (ended _ (log_eviction answers now video _ _ why (evicted video c c.evictions)))
            (ended _ (evicted video c c.evictions))
            (logged P _ _ video why (evicted video c c.evictions) h) (h c.evictions))

    count_run-EndsIn :
        (P : Cache → Type 0) (t : Totals) (run : Run (ℕ × ℕ))
        → EndsIn P run
        → EndsIn P (count_run channel_of lists answers now t run)
    unfolding count_run
    count_run-EndsIn P t (ended p c) h = h
    count_run-EndsIn P t (stopped c) h = h

    -- The rows that are left of other videos are as allowed as they were.
    evicted-Cleared :
        (D : Text → Type 0) (video : Text) (log : List Eviction) (c : Cache)
        → Cleared D c
        → Cleared (λ v. D v ⊎ (text_eq v video ≡ true)) (evicted video c log)
    unfolding delete of_video
    evicted-Cleared D video log c h = go c.disk.rows h
      where
        go :
            (rows : List Row)
            → All (λ r. D r.video_id → IsAllowed c.metadata r.video_id) rows
            → All
                (λ r.
                  D r.video_id ⊎ (text_eq r.video_id video ≡ true)
                  → IsAllowed (remove video c.metadata) r.video_id)
                (delete (of_video video) rows)
        go [] h = tt
        go (r ∷ rows) h = elim (Bool-cases (text_eq r.video_id video)) [
          | inl on ↦ rw on (go rows h.1)
          | inr off ↦ rw off (
            (λ d.
                rw
                  (allowed-remove r.video_id video c.metadata (text_eq_comm video r.video_id ∙ off))
                  (elim d [ inl old ↦ h.0 old | inr same ↦ absurd (cc (same, off)) ])),
            go rows h.1,
          )
        ]

    sweep_video-Cleared :
        (D : Text → Type 0) (video : Text) (t : Totals) (c : Cache)
        → Cleared D c
        → EndsIn
            (Swept (λ v. D v ⊎ (text_eq v video ≡ true)) c)
            (sweep_video channel_of lists answers now video t c)
    unfolding sweep_video
    sweep_video-Cleared D video t c h =
        rw (succeed.reads video)
          (elim (Bool-cases (video_is_anywhere_allowlisted channel_of lists c.metadata video)) [
            | inl on ↦ rw on (
              Sublistᴰ.refl c.disk.rows,
              All-map
                  (λ r k d. elim d [
                    | inl old ↦ k old
                    | inr same ↦ rw ((text_eq_iff r.video_id video).0 same) on
                  ])
                  c.disk.rows h,
            )
            | inr off ↦ rw off (
                let P : Cache → Type 0 = Swept (λ v. D v ⊎ (text_eq v video ≡ true)) c in
                count_run-EndsIn P t (evict_video answers now video not_allowlisted c) (
                  evict_video-EndsIn P video not_allowlisted c (λ log. (
                    delete-Sublist (of_video video) c.disk.rows,
                    evicted-Cleared D video log c h,
                  ))))
          ])

    pub sweep-Cleared :
        (D : Text → Type 0) (videos : List Text) (t : Totals) (c : Cache)
        → Cleared D c
        → EndsIn
            (Swept (λ v. D v ⊎ (exists (text_eq v) videos ≡ true)) c)
            (sweep channel_of lists answers now videos t c)
    unfolding sweep exists
    sweep-Cleared D [] t c h = (
      Sublistᴰ.refl c.disk.rows,
      All-map (λ r k d. elim d [ inl old ↦ k old | inr never ↦ absurd (cc (never)) ]) c.disk.rows h,
    )
    sweep-Cleared D (video ∷ videos) t c h =
        behind (sweep_video channel_of lists answers now video t c)
          (sweep_video-Cleared D video t c h)
          (λ t' c' k. sweep-Cleared (λ v. D v ⊎ (text_eq v video ≡ true)) videos t' c' k)
      where
        behind :
            (run : Run Totals)
            → EndsIn (Swept (λ v. D v ⊎ (text_eq v video ≡ true)) c) run
            → ((t' : Totals) (c' : Cache)
                → Cleared (λ v. D v ⊎ (text_eq v video ≡ true)) c'
                → EndsIn
                    (Swept
                      (λ v. (D v ⊎ (text_eq v video ≡ true)) ⊎ (exists (text_eq v) videos ≡ true))
                      c')
                    (sweep channel_of lists answers now videos t' c'))
            → EndsIn
                (Swept (λ v. D v ⊎ (text_eq v video || exists (text_eq v) videos ≡ true)) c)
                (elim run [
                  | stopped c' ↦ stopped c'
                  | ended t' c' ↦ sweep channel_of lists answers now videos t' c'
                ])
        behind (stopped c') k rest = absurd (cc (k.0))
        behind (ended t' c') k rest =
            EndsIn-map _ _ (sweep channel_of lists answers now videos t' c')
              (λ last l. (
                Sublistᴰ.trans l.0 k.0,
                All-map
                    (λ r f d. f (
                      regroup (D r.video_id) (text_eq r.video_id video)
                        (exists (text_eq r.video_id) videos) d))
                    last.disk.rows l.1,
              ))
              (rest t' c' k.1)
