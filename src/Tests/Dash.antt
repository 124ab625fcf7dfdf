-- ===== src/Tests/Dash.antt =====
-- The theorems about the formats of src/services/dash.rs, at concrete inputs.
use hometube.Prelude.{
  ℕ, ◌≡◌, refl, true, false, Option, none, some, inl, inr, List, [], ◌∷◌, ltb, arith,
}
use hometube.Prelude.Text.{Text, codes, text_eq, text_le}
use hometube.Prelude.Int.{pos}
use hometube.Prelude.Sql.{All, Member, select, exists}
use hometube.Prelude.Assoc.{Assoc, get}
use hometube.Prelude.Split.{backwards}
use hometube.Backfill.Failure.{to_ascii_lowercase, starts_with, contains}
use hometube.Ranges.Rows.{BoxRanges}
use hometube.Dash.Formats.{
  Floats, Format, is_vp9, is_dash_usable, is_video_only, or_none_text, is_given, is_drc, ends_with,
  notes, is_audio_only,
}
use hometube.Dash.Choice.{
  value_or, bitrate, pick_main_audio_lang, trim_audio_representations, video_pool, has_ranges,
  better, trim_video_representations, dedupe_prefer_with_ranges, same_media, same_text, same_int,
  int_eq, or_other,
}
use hometube.Dash.Offered.{HeightsAscend, IsOffered, video_pool-IsOffered, video_pool_complete}
use hometube.Dash.Order.{language_key}
use hometube.Dash.Languages.{trim_audio_representations-best}

abbrev floats : Floats ℕ
floats = record { is_above = λ a b. ltb b a; zero = 0; as_i64 = pos }

abbrev format : Text → Option ℕ → Text → Text → Format ℕ
format id height video audio = record {
  format_id = id;
  height = elim height [ none ↦ none | some h ↦ some (pos h) ];
  width = none;
  tbr = some 90;
  abr = none;
  vcodec = some video;
  acodec = some audio;
  url = some (codes "https://host/videoplayback");
  protocol = some (codes "https");
  language = none;
  language_preference = none;
  format_note = none;
}

abbrev high : Format ℕ
high = format (codes "248") (some 1080) (codes "vp9") (codes "none")

-- The other variant of the same media.
abbrev dashy : Format ℕ
dashy = format (codes "248-dashy") (some 1080) (codes "vp9") (codes "none")

abbrev low : Format ℕ
low = format (codes "278") (some 144) (codes "vp9") (codes "none")

abbrev muxed : Format ℕ
muxed = format (codes "18") (some 360) (codes "avc1.42001E") (codes "mp4a.40.2")

abbrev audio : Text → ℕ → Option Text → Option ℕ → Option Text → Format ℕ
audio id rate language preference note = record {
  format_id = id;
  height = none;
  width = none;
  tbr = some rate;
  abr = none;
  vcodec = some (codes "none");
  acodec = some (codes "opus");
  url = some (codes "https://host/videoplayback");
  protocol = some (codes "https");
  language = language;
  language_preference = elim preference [ none ↦ none | some p ↦ some (pos p) ];
  format_note = note;
}

abbrev thin : Format ℕ
thin = audio (codes "249") 50 (some (codes "en")) (some 10) none

abbrev rich : Format ℕ
rich = audio (codes "251") 130 (some (codes "en")) (some 10) none

abbrev dub : Format ℕ
dub = audio (codes "251-1") 128 (some (codes "de")) (some 5) (some (codes "Original"))

abbrev formats : List (Format ℕ)
formats = high ∷ dashy ∷ muxed ∷ low ∷ []

abbrev ranges : Assoc BoxRanges
ranges =
    (
      codes "248-dashy",
      record { init = record { start = 0; end = 99 }; index = record { start = 100; end = 199 } },
    )
    ∷ (
      codes "278",
      record { init = record { start = 0; end = 99 }; index = record { start = 100; end = 199 } },
    )
    ∷ []

program : Unit {0}
unfolding video_pool is_vp9 is_dash_usable is_video_only has_ranges or_none_text better bitrate
    trim_audio_representations pick_main_audio_lang value_or text_eq text_le starts_with contains
    to_ascii_lowercase select exists get backwards trim_video_representations
    dedupe_prefer_with_ranges is_given is_drc ends_with notes is_audio_only same_media same_text
    same_int int_eq or_other
program = tt

pool_adds_up : video_pool floats ranges is_vp9 formats ≡ low ∷ dashy ∷ []
unfolding program
pool_adds_up = refl

video_pool-IsOffered_example :
    All (IsOffered floats ranges is_vp9 formats) (video_pool floats ranges is_vp9 formats)
    × HeightsAscend (video_pool floats ranges is_vp9 formats)
video_pool-IsOffered_example = video_pool-IsOffered floats ranges is_vp9 formats

dashy-IsOffered : IsOffered floats ranges is_vp9 formats dashy
unfolding program
dashy-IsOffered = (inr (inl refl), refl, refl, refl, refl)

video_pool_complete_example :
    (f : Format ℕ) × Member f (video_pool floats ranges is_vp9 formats)
    × (f.height ≡ some (pos 1080))
video_pool_complete_example = video_pool_complete floats ranges is_vp9 formats dashy dashy-IsOffered

audio_adds_up : trim_audio_representations floats ranges (thin ∷ dub ∷ rich ∷ []) ≡ dub ∷ rich ∷ []
unfolding program
audio_adds_up = refl

above_asym : (a b : ℕ) → ltb b a ≡ true → ltb a b ≡ false
above_asym a b on = ground arith

above_trans : (a b c : ℕ) → ltb b a ≡ false → ltb c b ≡ false → ltb c a ≡ false
above_trans a b c off other = ground arith

trim_audio_representations-best_example :
    (f : Format ℕ) × Member f (trim_audio_representations floats ranges (thin ∷ dub ∷ rich ∷ []))
    × Member f (thin ∷ dub ∷ rich ∷ [])
    × (language_key f ≡ language_key rich)
    × (ltb (bitrate floats ranges f) (bitrate floats ranges rich) ≡ false)
trim_audio_representations-best_example =
    trim_audio_representations-best floats ranges above_asym above_trans (thin ∷ dub ∷ rich ∷ [])
      rich (inr (inr (inl refl)))

main_of_original : pick_main_audio_lang (thin ∷ dub ∷ []) ≡ some (codes "de")
unfolding program
main_of_original = refl

main_of_preference : pick_main_audio_lang (rich ∷ thin ∷ []) ≡ some (codes "en")
unfolding program
main_of_preference = refl
