-- ===== src/Dash/Heights.antt =====
-- The order of `by_height` in src/services/dash.rs, a map that `trim_video_representations` fills.
use hometube.Prelude.{
  ◌≡◌, refl, sym, ap, ◌∙◌, true, false, Bool-cases, Option-cases, some, inl, inr, List, [], ◌∷◌,
  arith,
}
use hometube.Prelude.Int.{ℤ}
use hometube.Prelude.I64.{ltb_ℤ}
use hometube.Prelude.Sql.{All, All-map, Member}
use hometube.Prelude.Assoc.{Assoc}
use hometube.Ranges.Rows.{BoxRanges}
use hometube.Dash.Formats.{Floats, Format}
use hometube.Dash.Choice.{or_insert_height, by_height}

not-lt-eq : (a b : ℤ) → ltb_ℤ a b ≡ false → ltb_ℤ b a ≡ false → b ≡ a
not-lt-eq a b e f = ground arith

lt_trans : (a b c : ℤ) → ltb_ℤ a b ≡ true → ltb_ℤ b c ≡ true → ltb_ℤ a c ≡ true
lt_trans a b c e f = ground arith

module _ {F : Type 0} (floats : Floats F) (box_ranges : Assoc BoxRanges) where
  abbrev HeightEntry : Type 0
  HeightEntry = ℤ × Format F

  abbrev IsAbove : ℤ → HeightEntry → Type 0
  IsAbove h e = ltb_ℤ h e.0 ≡ true

  -- The keys strictly ascend.
  abbrev pub Ascends : List (ℤ × Format F) → Type 0
  Ascends [] = Unit
  Ascends (e ∷ m) = All (IsAbove e.0) m × Ascends m

  -- A format of the height is in the map.
  abbrev pub HasHeight : ℤ → List (ℤ × Format F) → Type 0
  HasHeight h m = (e : ℤ × Format F) × Member e m × (e.0 ≡ h)

  module _ (h : ℤ) (f : Format F) where
    or_insert_height-All :
        (P : HeightEntry → Type 0) (m : List HeightEntry)
        → P (h, f)
        → All P m
        → All P (or_insert_height floats box_ranges h f m)
    unfolding or_insert_height
    or_insert_height-All P [] p ps = (p, tt)
    or_insert_height-All P (e ∷ m) p ps = elim (Bool-cases (ltb_ℤ h e.0)) [
      | inl below ↦ rw below (p, ps)
      | inr on ↦ elim (Bool-cases (ltb_ℤ e.0 h)) [
        | inl above ↦ rw (on, above) (ps.0, or_insert_height-All P m p ps.1)
        | inr equal ↦ rw (on, equal) ps
      ]
    ]

    or_insert_height-Ascends :
        (m : List HeightEntry) → Ascends m → Ascends (or_insert_height floats box_ranges h f m)
    unfolding or_insert_height
    or_insert_height-Ascends [] up = (tt, tt)
    or_insert_height-Ascends (e ∷ m) up = elim (Bool-cases (ltb_ℤ h e.0)) [
      | inl below ↦
          rw below ((below, All-map (λ x above. lt_trans h e.0 x.0 below above) m up.0), up)
      | inr on ↦ elim (Bool-cases (ltb_ℤ e.0 h)) [
        | inl above ↦
            rw (on, above)
              (or_insert_height-All (IsAbove e.0) m above up.0, or_insert_height-Ascends m up.1)
        | inr equal ↦ rw (on, equal) up
      ]
    ]

    or_insert_height-HasHeight :
        (m : List HeightEntry) → HasHeight h (or_insert_height floats box_ranges h f m)
    unfolding or_insert_height
    or_insert_height-HasHeight [] = ((h, f), inl refl, refl)
    or_insert_height-HasHeight (e ∷ m) = elim (Bool-cases (ltb_ℤ h e.0)) [
      | inl below ↦ rw below ((h, f), inl refl, refl)
      | inr on ↦ elim (Bool-cases (ltb_ℤ e.0 h)) [
        | inl above ↦
            let (x, m', at) = or_insert_height-HasHeight m in rw (on, above) (x, inr m', at)
        | inr equal ↦ rw (on, equal) (e, inl refl, not-lt-eq h e.0 on equal)
      ]
    ]

    or_insert_height-keeps :
        (k : ℤ) (m : List HeightEntry)
        → HasHeight k m
        → HasHeight k (or_insert_height floats box_ranges h f m)
    unfolding or_insert_height
    or_insert_height-keeps k [] (x, in_m, at) = absurd (cc)
    or_insert_height-keeps k (e ∷ m) (x, in_m, at) = elim (Bool-cases (ltb_ℤ h e.0)) [
      | inl below ↦ rw below (x, inr in_m, at)
      | inr on ↦ elim (Bool-cases (ltb_ℤ e.0 h)) [
        | inr equal ↦ rw (on, equal) (x, in_m, at)
        | inl above ↦ elim in_m [
          | inl here ↦ rw (on, above) (x, inl here, at)
          | inr later ↦
              let (y, m', at') = or_insert_height-keeps k m (x, later, at) in
              rw (on, above) (y, inr m', at')
        ]
      ]
    ]

  -- What holds of every format at its height holds of every entry.
  pub by_height-All :
      (P : ℤ × Format F → Type 0) (fs : List (Format F)) (m : List (ℤ × Format F))
      → All (λ f. (h : ℤ) → f.height ≡ some h → P (h, f)) fs
      → All P m
      → All P (by_height floats box_ranges fs m)
  unfolding by_height
  by_height-All P [] m each ps = ps
  by_height-All P (f ∷ fs) m each ps = elim (Option-cases f.height) [
    | inl e ↦ rw e (by_height-All P fs m each.1 ps)
    | inr (h, e) ↦ rw e (
        by_height-All P fs (or_insert_height floats box_ranges h f m) each.1
          (or_insert_height-All h f P m (each.0 h e) ps))
  ]

  pub by_height-Ascends :
      (fs : List (Format F)) (m : List (ℤ × Format F))
      → Ascends m
      → Ascends (by_height floats box_ranges fs m)
  unfolding by_height
  by_height-Ascends [] m up = up
  by_height-Ascends (f ∷ fs) m up = elim (Option-cases f.height) [
    | inl e ↦ rw e (by_height-Ascends fs m up)
    | inr (h, e) ↦ rw e (
        by_height-Ascends fs (or_insert_height floats box_ranges h f m)
          (or_insert_height-Ascends h f m up))
  ]

  by_height-keeps :
      (k : ℤ) (fs : List (Format F)) (m : List HeightEntry)
      → HasHeight k m
      → HasHeight k (by_height floats box_ranges fs m)
  unfolding by_height
  by_height-keeps k [] m has = has
  by_height-keeps k (f ∷ fs) m has = elim (Option-cases f.height) [
    | inl e ↦ rw e (by_height-keeps k fs m has)
    | inr (h, e) ↦ rw e (
        by_height-keeps k fs (or_insert_height floats box_ranges h f m)
          (or_insert_height-keeps h f k m has))
  ]

  pub by_height-HasHeight :
      (h : ℤ) (f : Format F) (fs : List (Format F)) (m : List (ℤ × Format F))
      → Member f fs
      → f.height ≡ some h
      → HasHeight h (by_height floats box_ranges fs m)
  unfolding by_height
  by_height-HasHeight h f [] m in_fs at = absurd (cc)
  by_height-HasHeight h f (g ∷ fs) m (inl here) at =
      let same : g.height ≡ some h = ap (λ (x : Format F). x.height) (sym here) ∙ at in
      rw same (
        by_height-keeps h fs (or_insert_height floats box_ranges h g m)
          (or_insert_height-HasHeight h g m))
  by_height-HasHeight h f (g ∷ fs) m (inr later) at = elim (Option-cases g.height) [
    | inl e ↦ rw e (by_height-HasHeight h f fs m later at)
    | inr (k, e) ↦
        rw e (by_height-HasHeight h f fs (or_insert_height floats box_ranges k g m) later at)
  ]
