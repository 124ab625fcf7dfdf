-- ===== src/Dash/Languages.antt =====
-- Which audio representation a language gets: `trim_audio_representations` of
-- src/services/dash.rs.
use hometube.Prelude.{◌≡◌, refl, sym, ap, ◌∙◌, true, false, Bool-cases, inl, inr, List, [], ◌∷◌}
use hometube.Prelude.Text.{Text, text_eq, text_eq_iff, text_le}
use hometube.Prelude.Sql.{Member, Member-All}
use hometube.Prelude.Queries.{map-Member}
use hometube.Prelude.Assoc.{Assoc}
use hometube.Ranges.Rows.{BoxRanges}
use hometube.Dash.Formats.{Floats, Format}
use hometube.Dash.Choice.{bitrate, better, best_of_language, by_lang, trim_audio_representations}
use hometube.Dash.Order.{language_key, IsEntryOf, entries-IsEntryOf}

module _ {F : Type 0} (floats : Floats F) (box_ranges : Assoc BoxRanges)
    (is_above_asym : (a b : F) → floats.is_above a b ≡ true → floats.is_above b a ≡ false)
    (is_above_trans : (a b c : F)
      → floats.is_above a b ≡ false
      → floats.is_above b c ≡ false
      → floats.is_above a c ≡ false) where
  abbrev rate : Format F → F
  rate f = bitrate floats box_ranges f

  -- The entry of a language has a bitrate that the given one is not above.
  abbrev Serves : Text → F → List (Text × Format F) → Type 0
  Serves lang b m =
      (e : Text × Format F) × Member e m × (e.0 ≡ lang) × (floats.is_above b (rate e.1) ≡ false)

  is_above_irrefl : (a : F) → floats.is_above a a ≡ false
  is_above_irrefl a = elim (Bool-cases (floats.is_above a a)) [
    | inl on ↦ is_above_asym a a on
    | inr off ↦ off
  ]

  better-new :
      (f g : Format F) → floats.is_above (rate f) (rate (better floats box_ranges f g)) ≡ false
  unfolding better
  better-new f g = elim (Bool-cases (floats.is_above (rate f) (rate g))) [
    | inl on ↦ rw on (is_above_irrefl (rate f))
    | inr off ↦ rw off off
  ]

  better-old :
      (f g : Format F) → floats.is_above (rate g) (rate (better floats box_ranges f g)) ≡ false
  unfolding better
  better-old f g = elim (Bool-cases (floats.is_above (rate f) (rate g))) [
    | inl on ↦ rw on (is_above_asym (rate f) (rate g) on)
    | inr off ↦ rw off (is_above_irrefl (rate g))
  ]

  module _ (lang : Text) (f : Format F) where
    best_of_language-Serves :
        (m : List (Text × Format F))
        → Serves lang (rate f) (best_of_language floats box_ranges lang f m)
    unfolding best_of_language
    best_of_language-Serves [] = ((lang, f), inl refl, refl, is_above_irrefl (rate f))
    best_of_language-Serves (e ∷ m) = elim (Bool-cases (text_eq lang e.0)) [
      | inl same ↦
          let new : Text × Format F = (e.0, better floats box_ranges f e.1) in
          rw same (new, inl refl, sym ((text_eq_iff lang e.0).0 same), better-new f e.1)
      | inr other ↦ elim (Bool-cases (text_le lang e.0)) [
        | inl before ↦ rw (other, before) ((lang, f), inl refl, refl, is_above_irrefl (rate f))
        | inr after ↦
            let (x, in_m, key, best) = best_of_language-Serves m in
            rw (other, after) (x, inr in_m, key, best)
      ]
    ]

    best_of_language-keeps :
        (k : Text) (b : F) (m : List (Text × Format F))
        → Serves k b m
        → Serves k b (best_of_language floats box_ranges lang f m)
    unfolding best_of_language
    best_of_language-keeps k b [] (x, in_m, key, best) = absurd (cc)
    best_of_language-keeps k b (e ∷ m) (x, in_m, key, best) = elim (Bool-cases (text_eq lang e.0)) [
      | inr other ↦ elim (Bool-cases (text_le lang e.0)) [
        | inl before ↦ rw (other, before) (x, inr in_m, key, best)
        | inr after ↦ elim in_m [
          | inl here ↦ rw (other, after) (x, inl here, key, best)
          | inr later ↦
              let (y, in_rest, key', best') = best_of_language-keeps k b m (x, later, key, best) in
              rw (other, after) (y, inr in_rest, key', best')
        ]
      ]
      | inl same ↦ elim in_m [
        | inr later ↦ rw same (x, inr later, key, best)
        | inl here ↦
            let old : floats.is_above b (rate e.1) ≡ false =
              ap (λ (y : Text × Format F). floats.is_above b (rate y.1)) (sym here) ∙ best in
            rw same (
              (e.0, better floats box_ranges f e.1),
              inl refl,
              ap (λ (y : Text × Format F). y.0) (sym here) ∙ key,
              is_above_trans b (rate e.1) (rate (better floats box_ranges f e.1)) old
                  (better-old f e.1),
            )
      ]
    ]

  by_lang-keeps :
      (k : Text) (b : F) (fs : List (Format F)) (m : List (Text × Format F))
      → Serves k b m
      → Serves k b (by_lang floats box_ranges fs m)
  unfolding by_lang
  by_lang-keeps k b [] m serves = serves
  by_lang-keeps k b (f ∷ fs) m serves =
      by_lang-keeps k b fs (best_of_language floats box_ranges (language_key f) f m)
        (best_of_language-keeps (language_key f) f k b m serves)

  by_lang-Serves :
      (g : Format F) (fs : List (Format F)) (m : List (Text × Format F))
      → Member g fs
      → Serves (language_key g) (rate g) (by_lang floats box_ranges fs m)
  unfolding by_lang
  by_lang-Serves g [] m in_fs = absurd (cc)
  by_lang-Serves g (f ∷ fs) m (inl here) =
      by_lang-keeps (language_key g) (rate g) fs
        (best_of_language floats box_ranges (language_key f) f m)
        (rw here (best_of_language-Serves (language_key f) f m))
  by_lang-Serves g (f ∷ fs) m (inr later) =
      by_lang-Serves g fs (best_of_language floats box_ranges (language_key f) f m) later

  -- Where bitrates are ordered, each candidate has an audio representation of its language that is
  -- itself a candidate, and whose bitrate its own is not above.
  pub trim_audio_representations-best :
      (candidates : List (Format F)) (g : Format F)
      → Member g candidates
      → (f : Format F) × Member f (trim_audio_representations floats box_ranges candidates)
        × Member f candidates
        × (language_key f ≡ language_key g)
        × (floats.is_above (rate g) (rate f) ≡ false)
  unfolding trim_audio_representations
  trim_audio_representations-best candidates g given =
      let (e, in_map, key, best) = by_lang-Serves g candidates [] given in
      let m = by_lang floats box_ranges candidates [] in
      let (from, own) =
        Member-All (IsEntryOf floats box_ranges candidates) e m in_map
          (entries-IsEntryOf floats box_ranges candidates) in
      (e.1, map-Member (λ (e : Text × Format F). e.1) e m in_map, from, own ∙ key, best)
