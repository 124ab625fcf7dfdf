-- ===== src/Dash/Order.antt =====
-- The keys of `by_lang` in src/services/dash.rs, a map in the order of its texts.
use hometube.Prelude.{◌≡◌, refl, true, false, Bool-cases, inl, inr, List, [], ◌∷◌, map, arith}
use hometube.Prelude.Text.{Text, text_eq, text_eq_iff, text_le}
use hometube.Prelude.Sql.{All, All-both, All-map, Member}
use hometube.Prelude.Queries.{map-All, All-Member}
use hometube.Prelude.Assoc.{Assoc}
use hometube.Ranges.Rows.{BoxRanges}
use hometube.Dash.Formats.{Floats, Format}
use hometube.Dash.Choice.{
  value_or, bitrate, better, best_of_language, by_lang, trim_audio_representations,
}

text_le_antisym : (s t : Text) → text_eq s t ≡ false → text_le s t ≡ true → text_le t s ≡ false
unfolding text_le text_eq
text_le_antisym [] [] differ le = absurd (cc)
text_le_antisym [] (d ∷ t) differ le = refl
text_le_antisym (c ∷ s) [] differ le = absurd (cc)
text_le_antisym (c ∷ s) (d ∷ t) differ le = ground (arith, text_le_antisym s t)

text_lt_trans : (r s t : Text) → text_le s r ≡ false → text_le t s ≡ false → text_le t r ≡ false
unfolding text_le
text_lt_trans r [] t on above = absurd (cc)
text_lt_trans r (d ∷ s) [] on above = absurd (cc)
text_lt_trans [] (d ∷ s) (e ∷ t) on above = refl
text_lt_trans (c ∷ r) (d ∷ s) (e ∷ t) on above = ground (arith, text_lt_trans r s t)

module _ {F : Type 0} where
  -- The language, or the empty text.
  abbrev pub language_key : Format F → Text
  language_key f = value_or f.language []

  -- From each format to the later ones the language rises.
  abbrev pub LanguagesAscend : List (Format F) → Type 0
  LanguagesAscend [] = Unit
  LanguagesAscend (f ∷ fs) =
      All (λ g. text_le (language_key g) (language_key f) ≡ false) fs × LanguagesAscend fs

module _ {F : Type 0} (floats : Floats F) (box_ranges : Assoc BoxRanges) where
  abbrev IsLater : Text → Text × Format F → Type 0
  IsLater lang e = text_le e.0 lang ≡ false

  abbrev Ascends : List (Text × Format F) → Type 0
  Ascends [] = Unit
  Ascends (e ∷ m) = All (IsLater e.0) m × Ascends m

  best_of_language-All :
      (P : Text × Format F → Type 0) (lang : Text) (f : Format F) (m : List (Text × Format F))
      → ((e : Text × Format F)
          → P e
          → text_eq lang e.0 ≡ true
          → P (e.0, better floats box_ranges f e.1))
      → P (lang, f)
      → All P m
      → All P (best_of_language floats box_ranges lang f m)
  unfolding best_of_language
  best_of_language-All P lang f [] same p ps = (p, tt)
  best_of_language-All P lang f (e ∷ m) same p ps = elim (Bool-cases (text_eq lang e.0)) [
    | inl equal ↦ rw equal (same e ps.0 equal, ps.1)
    | inr other ↦ elim (Bool-cases (text_le lang e.0)) [
      | inl before ↦ rw (other, before) (p, ps)
      | inr after ↦ rw (other, after) (ps.0, best_of_language-All P lang f m same p ps.1)
    ]
  ]

  best_of_language-Ascends :
      (lang : Text) (f : Format F) (m : List (Text × Format F))
      → Ascends m
      → Ascends (best_of_language floats box_ranges lang f m)
  unfolding best_of_language
  best_of_language-Ascends lang f [] up = (tt, tt)
  best_of_language-Ascends lang f (e ∷ m) up = elim (Bool-cases (text_eq lang e.0)) [
    | inl equal ↦ rw equal up
    | inr other ↦ elim (Bool-cases (text_le lang e.0)) [
      | inl before ↦
          let below = text_le_antisym lang e.0 other before in
          rw (other, before)
            ((below, All-map (λ x above. text_lt_trans lang e.0 x.0 below above) m up.0), up)
      | inr after ↦
          rw (other, after)
            (
              best_of_language-All (IsLater e.0) lang f m (λ x above same. above) after up.0,
              best_of_language-Ascends lang f m up.1,
            )
    ]
  ]

  by_lang-Ascends :
      (fs : List (Format F)) (m : List (Text × Format F))
      → Ascends m
      → Ascends (by_lang floats box_ranges fs m)
  unfolding by_lang
  by_lang-Ascends [] m up = up
  by_lang-Ascends (f ∷ fs) m up =
      by_lang-Ascends fs (best_of_language floats box_ranges (language_key f) f m)
        (best_of_language-Ascends (language_key f) f m up)

  languages-Ascend :
      (m : List (Text × Format F))
      → Ascends m
      → All (λ e. language_key e.1 ≡ e.0) m
      → LanguagesAscend (map (λ (e : Text × Format F). e.1) m)
  languages-Ascend [] up own = tt
  languages-Ascend (e ∷ m) up own = (
    map-All (λ (x : Text × Format F). IsLater e.0 x × (language_key x.1 ≡ x.0))
        (λ g. text_le (language_key g) (language_key e.1) ≡ false) (λ x. x.1) m
        (λ x (above, there). rw (there, own.0) above)
        (All-both (IsLater e.0) (λ x. language_key x.1 ≡ x.0) m up.0 own.1),
    languages-Ascend m up.1 own.1,
  )

  -- An entry holds one of the formats, of its language.
  abbrev pub IsEntryOf : List (Format F) → Text × Format F → Type 0
  IsEntryOf fs e = Member e.1 fs × (language_key e.1 ≡ e.0)

  better-IsEntryOf :
      (fs : List (Format F)) (f : Format F) (e : Text × Format F)
      → Member f fs
      → IsEntryOf fs e
      → text_eq (language_key f) e.0 ≡ true
      → IsEntryOf fs (e.0, better floats box_ranges f e.1)
  unfolding better
  better-IsEntryOf fs f e given entry same =
      elim (Bool-cases
        (floats.is_above (bitrate floats box_ranges f) (bitrate floats box_ranges e.1))) [
          | inl on ↦ rw on (given, (text_eq_iff (language_key f) e.0).0 same)
          | inr off ↦ rw off entry
        ]

  by_lang-IsEntryOf :
      (candidates fs : List (Format F)) (m : List (Text × Format F))
      → All (λ f. Member f candidates) fs
      → All (IsEntryOf candidates) m
      → All (IsEntryOf candidates) (by_lang floats box_ranges fs m)
  unfolding by_lang
  by_lang-IsEntryOf candidates [] m each own = own
  by_lang-IsEntryOf candidates (f ∷ fs) m each own =
      by_lang-IsEntryOf candidates fs (best_of_language floats box_ranges (language_key f) f m)
        each.1
        (best_of_language-All (IsEntryOf candidates) (language_key f) f m
          (λ e entry same. better-IsEntryOf candidates f e each.0 entry same) (each.0, refl) own)

  pub entries-IsEntryOf :
      (candidates : List (Format F))
      → All (IsEntryOf candidates) (by_lang floats box_ranges candidates [])
  entries-IsEntryOf candidates =
      by_lang-IsEntryOf candidates candidates [] (All-Member candidates) tt

  -- Every audio representation of a codec is one of the candidates, and from each to the later ones
  -- the language rises: a language has one representation at most.
  pub trim_audio_representations-Ascends :
      (candidates : List (Format F))
      → All (λ f. Member f candidates) (trim_audio_representations floats box_ranges candidates)
        × LanguagesAscend (trim_audio_representations floats box_ranges candidates)
  unfolding trim_audio_representations
  trim_audio_representations-Ascends candidates =
      let m = by_lang floats box_ranges candidates [] in
      let own = entries-IsEntryOf candidates in
      (
        map-All (IsEntryOf candidates) (λ f. Member f candidates) (λ e. e.1) m (λ e entry. entry.0)
            own,
        languages-Ascend m (by_lang-Ascends candidates [] tt) (All-map (λ e entry. entry.1) m own),
      )
