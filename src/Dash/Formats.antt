-- ===== src/Dash/Formats.antt =====
-- The formats of a manifest of src/services/dash.rs and the tests on them: `is_dash_usable` and the
-- codecs. Floating-point numbers are a parameter: a type with the operations that the source uses.
use hometube.Prelude.{Bool, true, false, not, ◌&&◌, ◌||◌, Option, none, some, [], if◌then◌else◌}
use hometube.Prelude.Text.{Text, codes, text_eq}
use hometube.Prelude.Int.{ℤ}
use hometube.Prelude.Split.{backwards}
use hometube.Backfill.Failure.{to_ascii_lowercase, starts_with, contains}

-- The operations on `f64` that the choice of formats uses: `>`, `0.0` and `as i64`.
pub record Floats (F : Type 0) : Type 0 where
  pub is_above : F → F → Bool
  pub zero : F
  pub as_i64 : F → ℤ

-- `Format`, less the fields that the manifest does not read.
pub record Format (F : Type 0) : Type 0 where
  pub format_id : Text
  pub height : Option ℤ
  pub width : Option ℤ
  pub tbr : Option F
  pub abr : Option F
  pub vcodec : Option Text
  pub acodec : Option Text
  pub url : Option Text
  pub protocol : Option Text
  pub language : Option Text
  pub language_preference : Option ℤ
  pub format_note : Option Text

unfoldable pub is_vp9 : Text → Bool
is_vp9 c = starts_with c (codes "vp9") || starts_with c (codes "vp09")

unfoldable pub is_avc1 : Text → Bool
is_avc1 c = starts_with c (codes "avc1") || starts_with c (codes "avc3")

unfoldable pub is_opus : Text → Bool
is_opus c = starts_with c (codes "opus")

unfoldable pub is_mp4a : Text → Bool
is_mp4a c = starts_with c (codes "mp4a")

unfoldable pub ends_with : Text → Text → Bool
ends_with s t = starts_with (backwards [] s) (backwards [] t)

unfoldable pub or_none_text : Option Text → Text
or_none_text none = codes "none"
or_none_text (some t) = t

unfoldable pub is_given {ℓ} : {A : Type ℓ} → Option A → Bool
is_given none = false
is_given (some a) = true

unfoldable pub notes : Text → Option Text → Bool
notes word none = false
notes word (some note) = contains (to_ascii_lowercase note) word

is_direct : Option Text → Bool
is_direct none = false
is_direct (some p) = text_eq p (codes "https") || text_eq p (codes "http_dash_segments")

module _ {F : Type 0} where
  unfoldable pub is_drc : Format F → Bool
  is_drc f =
      contains f.format_id (codes "-drc-")
      || (ends_with f.format_id (codes "-drc") || notes (codes "drc") f.format_note)

  unfoldable pub is_video_only : Format F → Bool
  is_video_only f =
      not (text_eq (or_none_text f.vcodec) (codes "none"))
      && text_eq (or_none_text f.acodec) (codes "none")

  unfoldable pub is_audio_only : Format F → Bool
  is_audio_only f =
      not (text_eq (or_none_text f.acodec) (codes "none"))
      && text_eq (or_none_text f.vcodec) (codes "none")

  unfoldable pub is_dash_usable : Format F → Bool
  unfolding is_direct
  is_dash_usable f =
      if starts_with f.format_id (codes "sb")
      then false
      else if not (is_direct f.protocol) || not (is_given f.url)
      then false
      else if is_drc f
      then false
      else if is_video_only f
      then is_given f.height && (is_vp9 (or_none_text f.vcodec) || is_avc1 (or_none_text f.vcodec))
      else if is_audio_only f
      then is_opus (or_none_text f.acodec) || is_mp4a (or_none_text f.acodec)
      else false
