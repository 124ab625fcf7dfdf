-- ===== src/Dash/Choice.antt =====
-- Which formats a manifest of src/services/dash.rs offers: `dedupe_prefer_with_ranges`,
-- `trim_video_representations`, `trim_audio_representations`, `pick_main_audio_lang`, and the pools
-- of `synthesize_manifest`.
use hometube.Prelude.{
  Bool, true, false, not, ◌&&◌, Option, none, some, List, [], ◌∷◌, map, if◌then◌else◌,
}
use hometube.Prelude.Text.{Text, codes, text_eq, text_le}
use hometube.Prelude.Int.{ℤ, leb_ℤ}
use hometube.Prelude.I64.{ltb_ℤ}
use hometube.Prelude.Sql.{select}
use hometube.Prelude.Assoc.{Assoc, get}
use hometube.Ranges.Rows.{BoxRanges}
use hometube.Dash.Formats.{
  or_none_text, is_given, notes, is_video_only, is_audio_only, is_dash_usable, Floats, Format,
}

unfoldable pub int_eq : ℤ → ℤ → Bool
int_eq a b = leb_ℤ a b && leb_ℤ b a

unfoldable pub same_text : Option Text → Option Text → Bool
same_text none none = true
same_text none (some t) = false
same_text (some s) none = false
same_text (some s) (some t) = text_eq s t

unfoldable pub same_int : Option ℤ → Option ℤ → Bool
same_int none none = true
same_int none (some t) = false
same_int (some s) none = false
same_int (some s) (some t) = int_eq s t

unfoldable pub value_or {ℓ} : {A : Type ℓ} → Option A → A → A
value_or none d = d
value_or (some a) d = a

-- `or`
unfoldable pub or_other {ℓ} : {A : Type ℓ} → Option A → Option A → Option A
or_other none o = o
or_other (some a) o = some a

module _ {F : Type 0} (floats : Floats F) (box_ranges : Assoc BoxRanges) where
  unfoldable pub has_ranges : Format F → Bool
  has_ranges f = is_given (get f.format_id box_ranges)

  -- Two formats have one key.
  unfoldable pub same_media : Format F → Format F → Bool
  same_media f g =
      same_text f.vcodec g.vcodec
      && (same_text f.acodec g.acodec
          && (same_int f.height g.height
              && (same_int f.width g.width
                  && (int_eq (floats.as_i64 (value_or f.tbr floats.zero))
                        (floats.as_i64 (value_or g.tbr floats.zero))
                      && same_text f.language g.language))))

  -- A round of the loop, on the kept formats in the order of their keys.
  unfoldable pub keep_format : Format F → List (Format F) → List (Format F)
  keep_format f [] = f ∷ []
  keep_format f (g ∷ kept) =
      let rest = keep_format f kept in
      if same_media g f
      then (if has_ranges f && not (has_ranges g) then f ∷ kept else g ∷ kept)
      else g ∷ rest

  unfoldable pub dedupe_loop : List (Format F) → List (Format F) → List (Format F)
  unfolding keep_format
  dedupe_loop [] kept = kept
  dedupe_loop (f ∷ fs) kept = dedupe_loop fs (keep_format f kept)

  unfoldable pub dedupe_prefer_with_ranges : List (Format F) → List (Format F)
  unfolding dedupe_loop
  dedupe_prefer_with_ranges usable = dedupe_loop usable []

  -- `by_height.entry(height).or_insert(f)`, on a map in the order of its keys.
  unfoldable pub or_insert_height : ℤ → Format F → List (ℤ × Format F) → List (ℤ × Format F)
  or_insert_height h f [] = (h, f) ∷ []
  or_insert_height h f (e ∷ m) =
      let rest = or_insert_height h f m in
      if ltb_ℤ h e.0 then (h, f) ∷ e ∷ m else if ltb_ℤ e.0 h then e ∷ rest else e ∷ m

  unfoldable pub by_height : List (Format F) → List (ℤ × Format F) → List (ℤ × Format F)
  unfolding or_insert_height
  by_height [] m = m
  by_height (f ∷ fs) m = by_height fs (elim f.height [ none ↦ m | some h ↦ or_insert_height h f m ])

  unfoldable pub trim_video_representations : List (Format F) → List (Format F)
  unfolding by_height
  trim_video_representations candidates = map (λ (e : ℤ × Format F). e.1) (by_height candidates [])

  unfoldable pub bitrate : Format F → F
  bitrate f = value_or (or_other f.abr f.tbr) floats.zero

  unfoldable pub better : Format F → Format F → Format F
  better f existing = if floats.is_above (bitrate f) (bitrate existing) then f else existing

  -- The entry of a language: the new format where its bitrate is above.
  unfoldable pub best_of_language :
      Text → Format F → List (Text × Format F) → List (Text × Format F)
  best_of_language lang f [] = (lang, f) ∷ []
  best_of_language lang f (e ∷ m) =
      let rest = best_of_language lang f m in
      if text_eq lang e.0
      then (e.0, better f e.1) ∷ m
      else if text_le lang e.0
      then (lang, f) ∷ e ∷ m
      else e ∷ rest

  unfoldable pub by_lang : List (Format F) → List (Text × Format F) → List (Text × Format F)
  unfolding best_of_language
  by_lang [] m = m
  by_lang (f ∷ fs) m = by_lang fs (best_of_language (value_or f.language []) f m)

  unfoldable pub trim_audio_representations : List (Format F) → List (Format F)
  unfolding by_lang
  trim_audio_representations candidates = map (λ (e : Text × Format F). e.1) (by_lang candidates [])

  unfoldable pub split_video : (Text → Bool) → List (Format F) → List (Format F)
  split_video codec usable =
      select
        (λ (f : Format F). is_video_only f && (is_given f.height && codec (or_none_text f.vcodec)))
        usable

  unfoldable pub split_audio : (Text → Bool) → List (Format F) → List (Format F)
  split_audio codec usable =
      select (λ (f : Format F). is_audio_only f && codec (or_none_text f.acodec)) usable

  unfoldable pub usable_formats : List (Format F) → List (Format F)
  usable_formats formats = dedupe_prefer_with_ranges (select is_dash_usable formats)

  -- The representations of a codec family.
  unfoldable pub video_pool : (Text → Bool) → List (Format F) → List (Format F)
  unfolding usable_formats split_video has_ranges
  video_pool codec formats =
      trim_video_representations (select has_ranges (split_video codec (usable_formats formats)))

  unfoldable pub audio_pool : (Text → Bool) → List (Format F) → List (Format F)
  unfolding usable_formats split_audio has_ranges
  audio_pool codec formats =
      trim_audio_representations (select has_ranges (split_audio codec (usable_formats formats)))

language_of : Option (Text × ℤ) → Option Text
language_of none = none
language_of (some (lang, pref)) = some lang

-- `pick_main_audio_lang`: the loop that looks for the original, and the one for the preference.
module _ {F : Type 0} where
  preferred : List (Format F) → Option (Text × ℤ) → Option (Text × ℤ)
  preferred [] best = best
  preferred (f ∷ fs) best = preferred fs (elim f.language [
    | none ↦ best
    | some lang ↦ elim f.language_preference [
      | none ↦ best
      | some pref ↦ elim best [
        | none ↦ some (lang, pref)
        | some (l, p) ↦ if ltb_ℤ p pref then some (lang, pref) else some (l, p)
      ]
    ]
  ])

  unfoldable pub original : List (Format F) → Option (Format F)
  original [] = none
  original (f ∷ fs) = if notes (codes "original") f.format_note then some f else original fs

  unfoldable pub pick_main_audio_lang : List (Format F) → Option Text
  unfolding original preferred language_of
  pick_main_audio_lang fs = elim (original fs) [
    | some f ↦ f.language
    | none ↦ language_of (preferred fs none)
  ]
