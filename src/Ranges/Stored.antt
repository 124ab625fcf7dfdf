-- ===== src/Ranges/Stored.antt =====
-- What the table of src/services/segment_ranges.rs answers after a batch was stored.
use hometube.Prelude.{
  ℕ, ◌≡◌, refl, ◌∙◌, Bool, true, false, ◌&&◌, ◌||◌, Option, none, some, List, [], ◌∷◌, arith,
  if◌then◌else◌, Bool-cases, Option-cases, inl, inr,
}
use hometube.Prelude.Text.{Text, text_eq, text_eq_iff, text_eq_refl}
use hometube.Prelude.Assoc.{Assoc, get, get-insert}
use hometube.Ranges.Rows.{
  BoxRanges, FormatRow, is_row, find, ranges_of, lookup, upsert_ranges, upsert_batch, finish_batch,
  store_all, lookup_one, lookup_loop, lookup_all,
}

-- The last entry of a batch for a format, or else what stood there before.
abbrev pub newest : Text → List (Text × BoxRanges) → Option BoxRanges → Option BoxRanges
newest format [] before = before
newest format (r ∷ batch) before =
    newest format batch (if text_eq r.0 format then some r.1 else before)

-- The total size that is recorded for a format.
abbrev pub total_of : Option FormatRow → Option ℕ
total_of none = none
total_of (some row) = row.total_bytes

is_row-other :
    (v f w g : Text) (row : FormatRow)
    → is_row w g row ≡ false
    → is_row v f row ≡ true
    → (text_eq w v && text_eq g f) ≡ false
unfolding is_row
is_row-other v f w g row off on = elim (Bool-cases (text_eq w v && text_eq g f)) [
  | inr differ ↦ differ
  | inl equal ↦
      let a : w ≡ v = (text_eq_iff w v).0 (ground arith) in
      let b : g ≡ f = (text_eq_iff g f).0 (ground arith) in absurd (cc (a, b, on, off))
]

module _ (now : ℕ) (v f w g : Text) (r : BoxRanges) where
  lookup-upsert_ranges :
      (rows : List FormatRow)
      → lookup v f (upsert_ranges now w g r rows)
        ≡ (if text_eq w v && text_eq g f then some r else lookup v f rows)
  unfolding lookup ranges_of find upsert_ranges is_row
  lookup-upsert_ranges [] = elim (Bool-cases (text_eq w v && text_eq g f)) [
    | inl on ↦ rw on refl
    | inr off ↦ rw off refl
  ]
  lookup-upsert_ranges (row ∷ rows) = elim (Bool-cases (is_row w g row)) [
    | inl on ↦
        let video : row.video_id ≡ w = (text_eq_iff row.video_id w).0 (ground arith) in
        let format : row.format_id ≡ g = (text_eq_iff row.format_id g).0 (ground arith) in
        rw on (
          rw (video, format)
            (elim (Bool-cases (text_eq w v && text_eq g f)) [
              | inl here ↦ rw here refl
              | inr there ↦ rw there refl
            ]))
    | inr off ↦ rw off (elim (Bool-cases (is_row v f row)) [
      | inl on ↦ rw on (rw (is_row-other v f w g row off on) refl)
      | inr on ↦ rw on (lookup-upsert_ranges rows)
    ])
  ]

  total-upsert_ranges :
      (rows : List FormatRow)
      → total_of (find v f (upsert_ranges now w g r rows)) ≡ total_of (find v f rows)
  unfolding find upsert_ranges is_row
  total-upsert_ranges [] = elim (Bool-cases (text_eq w v && text_eq g f)) [
    | inl on ↦ rw on refl
    | inr off ↦ rw off refl
  ]
  total-upsert_ranges (row ∷ rows) = elim (Bool-cases (is_row w g row)) [
    | inl on ↦
        let video : row.video_id ≡ w = (text_eq_iff row.video_id w).0 (ground arith) in
        let format : row.format_id ≡ g = (text_eq_iff row.format_id g).0 (ground arith) in
        rw on (
          rw (video, format)
            (elim (Bool-cases (text_eq w v && text_eq g f)) [
              | inl here ↦ rw here refl
              | inr there ↦ rw there refl
            ]))
    | inr off ↦ rw off (elim (Bool-cases (is_row v f row)) [
      | inl on ↦ rw on refl
      | inr on ↦ rw on (total-upsert_ranges rows)
    ])
  ]

-- What a batch leaves of a table, read at a key of the video and at any other.
pub record Stored (v : Text) (batch : List (Text × BoxRanges)) (rows new : List FormatRow)
    : Type 0 where
  pub newest_ranges : (f : Text) → lookup v f new ≡ newest f batch (lookup v f rows)
  pub other_videos : (u f : Text) → text_eq v u ≡ false → lookup u f new ≡ lookup u f rows
  pub totals : (u f : Text) → total_of (find u f new) ≡ total_of (find u f rows)

upsert_batch-Stored :
    (succeeds : Text → Bool) (now : ℕ) (v : Text) (batch : List (Text × BoxRanges))
    (rows new : List FormatRow)
    → upsert_batch succeeds now v batch rows ≡ some new
    → Stored v batch rows new
unfolding upsert_batch
upsert_batch-Stored succeeds now v [] rows new e =
    let same : new ≡ rows = ground arith in
    rw same
      (record { newest_ranges = λ f. refl; other_videos = λ u f off. refl; totals = λ u f. refl })
upsert_batch-Stored succeeds now v (r ∷ batch) rows new e =
    let next = upsert_ranges now v r.0 r.1 rows in
    let done : upsert_batch succeeds now v batch next ≡ some new = ground arith in
    let rest = upsert_batch-Stored succeeds now v batch next new done in
    record {
      newest_ranges = λ f.
          rest.newest_ranges f
          ∙ rw (lookup-upsert_ranges now v f v r.0 r.1 rows, text_eq_refl v) refl;
      other_videos = λ u f off.
          rest.other_videos u f off ∙ rw (lookup-upsert_ranges now u f v r.0 r.1 rows, off) refl;
      totals = λ u f. rest.totals u f ∙ total-upsert_ranges now u f v r.0 r.1 rows;
    }

-- A `store_all` that returns `Ok` makes every format of the video answer with the last entry of the
-- batch for it, or as before where the batch has none; the answers of other videos and every total
-- size that is recorded stay.
pub store_all-Stored :
    (succeeds : Text → Bool) (commits : Bool) (now : ℕ) (v : Text) (batch : List (Text × BoxRanges))
    (rows : List FormatRow)
    → (store_all succeeds commits now v batch rows).1 ≡ true
    → Stored v batch rows (store_all succeeds commits now v batch rows).0
unfolding store_all finish_batch
store_all-Stored succeeds commits now v [] rows ok = record {
  newest_ranges = λ f. refl;
  other_videos = λ u f off. refl;
  totals = λ u f. refl;
}
store_all-Stored succeeds commits now v (r ∷ batch) rows ok =
    elim (Option-cases (upsert_batch succeeds now v (r ∷ batch) rows)) [
      | inl failed ↦ absurd (ground arith)
      | inr (new, done) ↦
          let same : (store_all succeeds commits now v (r ∷ batch) rows).0 ≡ new = ground arith in
          rw same (upsert_batch-Stored succeeds now v (r ∷ batch) rows new done)
    ]

-- A `store_all` that returns an error, for a failed statement or a failed COMMIT, leaves the table
-- as it was.
pub store_all-error :
    (succeeds : Text → Bool) (commits : Bool) (now : ℕ) (v : Text) (batch : List (Text × BoxRanges))
    (rows : List FormatRow)
    → (store_all succeeds commits now v batch rows).1 ≡ false
    → (store_all succeeds commits now v batch rows).0 ≡ rows
unfolding store_all finish_batch
store_all-error succeeds commits now v [] rows failed = cc
store_all-error succeeds commits now v (r ∷ batch) rows failed =
    elim (Option-cases (upsert_batch succeeds now v (r ∷ batch) rows)) [
      | inl none_stored ↦ rw none_stored refl
      | inr (new, done) ↦ ground arith
    ]

-- The format is in the list.
abbrev pub listed : Text → List (Text × Text) → Bool
listed format [] = false
listed format (f ∷ formats) = text_eq f.0 format || listed format formats

or_else : Option BoxRanges → Option BoxRanges → Option BoxRanges
or_else none before = before
or_else (some r) before = some r

get-lookup_one :
    (f g : Text) (found : Option BoxRanges) (out : Assoc BoxRanges)
    → get f (lookup_one g found out)
      ≡ (if text_eq g f then or_else found (get f out) else get f out)
unfolding lookup_one or_else
get-lookup_one f g none out = elim (Bool-cases (text_eq g f)) [
  | inl on ↦ rw on refl
  | inr off ↦ rw off refl
]
get-lookup_one f g (some r) out = get-insert g f r out

or_else-twice :
    (found before : Option BoxRanges) → or_else found (or_else found before) ≡ or_else found before
unfolding or_else
or_else-twice none before = refl
or_else-twice (some r) before = refl

lookup_loop-get :
    (v f : Text) (formats : List (Text × Text)) (rows : List FormatRow) (out : Assoc BoxRanges)
    → get f (lookup_loop v formats rows out)
      ≡ (if listed f formats then or_else (lookup v f rows) (get f out) else get f out)
unfolding lookup_loop
lookup_loop-get v f [] rows out = refl
lookup_loop-get v f (g ∷ formats) rows out =
    let next = lookup_one g.0 (lookup v g.0 rows) out in
    lookup_loop-get v f formats rows next
    ∙ rw (get-lookup_one f g.0 (lookup v g.0 rows) out) (elim (Bool-cases (text_eq g.0 f)) [
      | inl on ↦
          let same : g.0 ≡ f = (text_eq_iff g.0 f).0 on in
          rw on (
            rw same (elim (Bool-cases (listed f formats)) [
              | inl here ↦ rw here (or_else-twice (lookup v f rows) (get f out))
              | inr there ↦ rw there refl
            ]))
      | inr off ↦ rw off refl
    ])

-- `lookup_all` answers for a format as `lookup` does where the format is in its list, and has no
-- entry for any other.
pub lookup_all-lookup :
    (v f : Text) (formats : List (Text × Text)) (rows : List FormatRow)
    → get f (lookup_all v formats rows) ≡ (if listed f formats then lookup v f rows else none)
unfolding lookup_all or_else get
lookup_all-lookup v f formats rows =
    lookup_loop-get v f formats rows [] ∙ (elim (Option-cases (lookup v f rows)) [
      | inl missing ↦ rw missing refl
      | inr (r, found) ↦ rw found refl
    ])
