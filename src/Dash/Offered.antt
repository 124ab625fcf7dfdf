-- ===== src/Dash/Offered.antt =====
-- What the video representations of a manifest are: the pools of `synthesize_manifest` in
-- src/services/dash.rs.
use hometube.Prelude.{
  ◌≡◌, refl, sym, ap, ◌∙◌, Bool, true, not, ◌&&◌, Option, Option-cases, some, inl, inr, List, [],
  ◌∷◌, map, arith,
}
use hometube.Prelude.Text.{Text, codes, text_eq}
use hometube.Prelude.Int.{ℤ}
use hometube.Prelude.I64.{ltb_ℤ}
use hometube.Prelude.Sql.{All, All-both, All-map, Member, Member-All, select}
use hometube.Prelude.Queries.{select-All, select-Member, map-All, map-Member, All-Member}
use hometube.Prelude.Assoc.{Assoc}
use hometube.Ranges.Rows.{BoxRanges}
use hometube.Dash.Formats.{Floats, Format, or_none_text, is_given, is_video_only, is_dash_usable}
use hometube.Dash.Choice.{
  has_ranges, dedupe_loop, dedupe_prefer_with_ranges, by_height, trim_video_representations,
  split_video, usable_formats, video_pool,
}
use hometube.Dash.Pools.{place, Ranged, dedupe_loop-Ranged, dedupe_loop-All}
use hometube.Dash.Heights.{Ascends, by_height-All, by_height-Ascends, by_height-HasHeight}

module _ {F : Type 0} where
  -- The format has a lower height than the other.
  abbrev IsLower : Format F → Format F → Type 0
  IsLower f g = (h : ℤ) × (k : ℤ) × (f.height ≡ some h) × (g.height ≡ some k) × (ltb_ℤ h k ≡ true)

  abbrev pub HeightsAscend : List (Format F) → Type 0
  HeightsAscend [] = Unit
  HeightsAscend (f ∷ fs) = All (IsLower f) fs × HeightsAscend fs

  has_height : (f : Format F) (h : ℤ) → f.height ≡ some h → is_given f.height ≡ true
  unfolding is_given
  has_height f h at = rw at refl

  usable-height :
      (f : Format F)
      → is_dash_usable f ≡ true
      → is_video_only f ≡ true
      → (h : ℤ) × (f.height ≡ some h)
  unfolding is_dash_usable is_given
  usable-height f usable video = elim (Option-cases f.height) [
    | inr found ↦ found
    | inl e ↦ absurd (ground (arith, e, usable, video))
  ]

module _ {F : Type 0} (floats : Floats F) (box_ranges : Assoc BoxRanges) (codec : Text → Bool) where
  -- The format is one of those given, is usable, is of the codec and has ranges.
  abbrev pub IsOffered : List (Format F) → Format F → Type 0
  IsOffered formats f =
      Member f formats
      × (is_dash_usable f ≡ true)
      × (is_video_only f ≡ true)
      × (codec (or_none_text f.vcodec) ≡ true)
      × (has_ranges floats box_ranges f ≡ true)

  abbrev is_candidate : Format F → Bool
  is_candidate f = is_video_only f && (is_given f.height && codec (or_none_text f.vcodec))

  -- What `trim_video_representations` is called with.
  abbrev ranged_videos : List (Format F) → List (Format F)
  ranged_videos formats =
      select (has_ranges floats box_ranges)
        (select is_candidate (dedupe_loop floats box_ranges (select is_dash_usable formats) []))

  ranged_videos-IsOffered :
      (formats : List (Format F)) → All (IsOffered formats) (ranged_videos formats)
  ranged_videos-IsOffered formats =
      let usable =
        dedupe_loop-All floats box_ranges (λ f. Member f formats × (is_dash_usable f ≡ true))
          (select is_dash_usable formats) []
          (select-All (λ f. Member f formats) is_dash_usable formats (All-Member formats)) tt in
      let videos =
        select-All (λ f. Member f formats × (is_dash_usable f ≡ true)) is_candidate
          (dedupe_loop floats box_ranges (select is_dash_usable formats) []) usable in
      let kept = dedupe_loop floats box_ranges (select is_dash_usable formats) [] in
      All-map (λ f (((m, u), v), r). (m, u, ground (arith, v), ground (arith, v), r))
        (ranged_videos formats)
        (select-All (λ f. (Member f formats × (is_dash_usable f ≡ true)) × (is_candidate f ≡ true))
          (has_ranges floats box_ranges) (select is_candidate kept) videos)

  entries-IsOffered :
      (formats : List (Format F))
      → All
          (λ e. IsOffered formats e.1 × (e.1.height ≡ some e.0))
          (by_height floats box_ranges (ranged_videos formats) [])
  entries-IsOffered formats =
      by_height-All floats box_ranges (λ e. IsOffered formats e.1 × (e.1.height ≡ some e.0))
        (ranged_videos formats) []
        (All-map (λ f offered h at. (offered, at)) (ranged_videos formats)
          (ranged_videos-IsOffered formats))
        tt

  heights-Ascend :
      (m : List (ℤ × Format F))
      → Ascends floats box_ranges m
      → All (λ e. e.1.height ≡ some e.0) m
      → HeightsAscend (map (λ (e : ℤ × Format F). e.1) m)
  heights-Ascend [] up at = tt
  heights-Ascend (e ∷ m) up at = (
    map-All (λ (x : ℤ × Format F). (ltb_ℤ e.0 x.0 ≡ true) × (x.1.height ≡ some x.0)) (IsLower e.1)
        (λ x. x.1) m (λ x (above, there). (e.0, x.0, at.0, there, above))
        (All-both (λ (x : ℤ × Format F). ltb_ℤ e.0 x.0 ≡ true)
          (λ (x : ℤ × Format F). x.1.height ≡ some x.0) m up.0 at.1),
    heights-Ascend m up.1 at.1,
  )

  -- Every video representation of a manifest is one of the formats given, is usable, has only video
  -- of the codec, and has ranges; and from each representation to the later ones the height rises.
  pub video_pool-IsOffered :
      (formats : List (Format F))
      → All (IsOffered formats) (video_pool floats box_ranges codec formats)
        × HeightsAscend (video_pool floats box_ranges codec formats)
  unfolding video_pool usable_formats dedupe_prefer_with_ranges split_video
      trim_video_representations
  video_pool-IsOffered formats =
      let m = by_height floats box_ranges (ranged_videos formats) [] in
      (
        map-All (λ (e : ℤ × Format F). IsOffered formats e.1 × (e.1.height ≡ some e.0))
            (IsOffered formats) (λ e. e.1) m (λ e offered. offered.0) (entries-IsOffered formats),
        heights-Ascend m (by_height-Ascends floats box_ranges (ranged_videos formats) [] tt)
            (All-map (λ e offered. offered.1) m (entries-IsOffered formats)),
      )

  -- Whether a format is a candidate hangs on its place.
  same-candidate :
      (x g : Format F)
      → place floats box_ranges x ≡ place floats box_ranges g
      → is_candidate x ≡ is_candidate g
  unfolding is_video_only
  same-candidate x g at =
      ap
        (λ (p : Option Text × Option Text × Option ℤ).
          (not (text_eq (or_none_text p.0) (codes "none"))
            && text_eq (or_none_text p.1) (codes "none"))
          && (is_given p.2 && codec (or_none_text p.0)))
        at

  ranged_videos-HasPlace :
      (formats : List (Format F)) (g : Format F)
      → IsOffered formats g
      → Ranged floats box_ranges (place floats box_ranges g) (ranged_videos formats)
  ranged_videos-HasPlace formats g (given, usable, video, of_codec, ranged) =
      let (x, in_kept, at, has) =
        dedupe_loop-Ranged floats box_ranges g (select is_dash_usable formats) []
          (select-Member is_dash_usable g formats given usable) ranged in
      let (h, tall) = usable-height g usable video in
      let passes : is_candidate g ≡ true = ground (arith, video, of_codec, has_height g h tall) in
      let kept = dedupe_loop floats box_ranges (select is_dash_usable formats) [] in
      let in_videos = select-Member is_candidate x kept in_kept (same-candidate x g at ∙ passes) in
      (
        x,
        select-Member (has_ranges floats box_ranges) x (select is_candidate kept) in_videos has,
        at,
        has,
      )

  -- Where a usable format with video alone of the codec and with ranges is given, the manifest has
  -- a video representation of its height.
  pub video_pool_complete :
      (formats : List (Format F)) (g : Format F)
      → IsOffered formats g
      → (f : Format F) × Member f (video_pool floats box_ranges codec formats)
        × (f.height ≡ g.height)
  unfolding video_pool usable_formats dedupe_prefer_with_ranges split_video
      trim_video_representations
  video_pool_complete formats g offered =
      let (h, tall) = usable-height g offered.1 offered.2 in
      let (x, in_candidates, at, has) = ranged_videos-HasPlace formats g offered in
      let (e, in_map, key) =
        by_height-HasHeight floats box_ranges h x (ranged_videos formats) [] in_candidates
          (ap (λ (p : Option Text × Option Text × Option ℤ). p.2) at ∙ tall) in
      let m = by_height floats box_ranges (ranged_videos formats) [] in
      let there =
        Member-All (λ (e : ℤ × Format F). IsOffered formats e.1 × (e.1.height ≡ some e.0)) e m
          in_map (entries-IsOffered formats) in
      (e.1, map-Member (λ (e : ℤ × Format F). e.1) e m in_map, there.1 ∙ ap some key ∙ sym tall)
