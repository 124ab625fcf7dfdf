-- ===== src/Dash/Pools.antt =====
-- What the pools of a manifest of src/services/dash.rs hold: `dedupe_prefer_with_ranges` and
-- `trim_video_representations`.
use hometube.Prelude.{
  ◌≡◌, refl, sym, ap, ◌∙◌, true, not, ◌&&◌, Bool-cases, Option, none, some, inl, inr, List, [], ◌∷◌,
  arith,
}
use hometube.Prelude.Text.{Text, text_eq_iff}
use hometube.Prelude.Int.{ℤ}
use hometube.Prelude.Sql.{All, Member}
use hometube.Prelude.Assoc.{Assoc}
use hometube.Ranges.Rows.{BoxRanges}
use hometube.Dash.Formats.{Floats, Format}
use hometube.Dash.Choice.{
  int_eq, same_text, same_int, has_ranges, same_media, keep_format, dedupe_loop,
}

pub int_eq-eq : (a b : ℤ) → int_eq a b ≡ true → a ≡ b
unfolding int_eq
int_eq-eq a b e = ground arith

same_text-eq : (s t : Option Text) → same_text s t ≡ true → s ≡ t
unfolding same_text
same_text-eq none none e = refl
same_text-eq none (some t) e = absurd (cc)
same_text-eq (some s) none e = absurd (cc)
same_text-eq (some s) (some t) e = ap some ((text_eq_iff s t).0 e)

same_int-eq : (a b : Option ℤ) → same_int a b ≡ true → a ≡ b
unfolding same_int
same_int-eq none none e = refl
same_int-eq none (some t) e = absurd (cc)
same_int-eq (some s) none e = absurd (cc)
same_int-eq (some s) (some t) e = ap some (int_eq-eq s t e)

module _ {F : Type 0} (floats : Floats F) (box_ranges : Assoc BoxRanges) where
  -- What of its key a format's place in the pools hangs on.
  abbrev pub Place : Type 0
  Place = Option Text × Option Text × Option ℤ

  abbrev pub place : Format F → Place
  place f = (f.vcodec, f.acodec, f.height)

  pub same_media-place :
      (f g : Format F) → same_media floats box_ranges f g ≡ true → place f ≡ place g
  unfolding same_media
  same_media-place f g e =
      let v = same_text-eq f.vcodec g.vcodec (ground (arith, e)) in
      let a = same_text-eq f.acodec g.acodec (ground (arith, e)) in
      let h = same_int-eq f.height g.height (ground (arith, e)) in λ i. (v i, a i, h i)

  -- A format of the place with ranges is kept.
  abbrev pub Ranged : Place → List (Format F) → Type 0
  Ranged p kept =
      (x : Format F) × Member x kept × (place x ≡ p) × (has_ranges floats box_ranges x ≡ true)

  keep_format-Ranged :
      (p : Place) (f : Format F) (kept : List (Format F))
      → Ranged p kept
      → Ranged p (keep_format floats box_ranges f kept)
  unfolding keep_format
  keep_format-Ranged p f [] (x, m, at, ranged) = absurd (cc)
  keep_format-Ranged p f (g ∷ kept) (x, inl here, at, ranged) =
      let has : has_ranges floats box_ranges g ≡ true =
        ap (has_ranges floats box_ranges) (sym here) ∙ ranged in
      elim (Bool-cases (same_media floats box_ranges g f)) [
        | inl same ↦ elim (Bool-cases (has_ranges floats box_ranges f)) [
          | inl on ↦ simp (same, on, has) (x, inl here, at, ranged)
          | inr off ↦ simp (same, off) (x, inl here, at, ranged)
        ]
        | inr other ↦ simp other (x, inl here, at, ranged)
      ]
  keep_format-Ranged p f (g ∷ kept) (x, inr later, at, ranged) =
      elim (Bool-cases (same_media floats box_ranges g f)) [
        | inl same ↦
            elim (Bool-cases
              (has_ranges floats box_ranges f && not (has_ranges floats box_ranges g))) [
                | inl on ↦ simp (same, on) (x, inr later, at, ranged)
                | inr off ↦ simp (same, off) (x, inr later, at, ranged)
              ]
        | inr other ↦
            let (y, m, at', ranged') = keep_format-Ranged p f kept (x, later, at, ranged) in
            simp other (y, inr m, at', ranged')
      ]

  keep_format-Ranged_self :
      (f : Format F) (kept : List (Format F))
      → has_ranges floats box_ranges f ≡ true
      → Ranged (place f) (keep_format floats box_ranges f kept)
  unfolding keep_format
  keep_format-Ranged_self f [] has = (f, inl refl, refl, has)
  keep_format-Ranged_self f (g ∷ kept) has = elim (Bool-cases (same_media floats box_ranges g f)) [
    | inl same ↦ elim (Bool-cases (has_ranges floats box_ranges g)) [
      | inl on ↦ simp (same, on, has) (g, inl refl, same_media-place g f same, on)
      | inr off ↦ simp (same, off, has) (f, inl refl, refl, has)
    ]
    | inr other ↦
        let (y, m, at, ranged) = keep_format-Ranged_self f kept has in
        simp other (y, inr m, at, ranged)
  ]

  dedupe_loop-keeps :
      (p : Place) (fs kept : List (Format F))
      → Ranged p kept
      → Ranged p (dedupe_loop floats box_ranges fs kept)
  unfolding dedupe_loop
  dedupe_loop-keeps p [] kept h = h
  dedupe_loop-keeps p (f ∷ fs) kept h =
      dedupe_loop-keeps p fs (keep_format floats box_ranges f kept) (keep_format-Ranged p f kept h)

  pub dedupe_loop-Ranged :
      (g : Format F) (fs kept : List (Format F))
      → Member g fs
      → has_ranges floats box_ranges g ≡ true
      → Ranged (place g) (dedupe_loop floats box_ranges fs kept)
  unfolding dedupe_loop
  dedupe_loop-Ranged g [] kept m has = absurd (cc)
  dedupe_loop-Ranged g (f ∷ fs) kept (inl here) has =
      dedupe_loop-keeps (place g) fs (keep_format floats box_ranges f kept) (
        rw here
          (keep_format-Ranged_self f kept (ap (has_ranges floats box_ranges) (sym here) ∙ has)))
  dedupe_loop-Ranged g (f ∷ fs) kept (inr later) has =
      dedupe_loop-Ranged g fs (keep_format floats box_ranges f kept) later has

  module _ (P : Format F → Type 0) where
    keep_format-All :
        (f : Format F) (kept : List (Format F))
        → P f
        → All P kept
        → All P (keep_format floats box_ranges f kept)
    unfolding keep_format
    keep_format-All f [] p ps = (p, tt)
    keep_format-All f (g ∷ kept) p ps = elim (Bool-cases (same_media floats box_ranges g f)) [
      | inl same ↦
          elim (Bool-cases
            (has_ranges floats box_ranges f && not (has_ranges floats box_ranges g))) [
              | inl on ↦ simp (same, on) (p, ps.1)
              | inr off ↦ simp (same, off) ps
            ]
      | inr other ↦ simp other (ps.0, keep_format-All f kept p ps.1)
    ]

    pub dedupe_loop-All :
        (fs kept : List (Format F))
        → All P fs
        → All P kept
        → All P (dedupe_loop floats box_ranges fs kept)
    unfolding dedupe_loop
    dedupe_loop-All [] kept ps qs = qs
    dedupe_loop-All (f ∷ fs) kept ps qs =
        dedupe_loop-All fs (keep_format floats box_ranges f kept) ps.1
          (keep_format-All f kept ps.0 qs)
