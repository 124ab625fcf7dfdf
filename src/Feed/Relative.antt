-- ===== src/Feed/Relative.antt =====
-- Relative times of the sidecar: `parse_relative_to_unix` and `split_compact_token` of
-- src/services/feed_refresher.rs. An instant is a number, so that "yesterday" wants a clock that is
-- a day past 1970.
use hometube.Prelude.{
  ℕ, ◌-◌, ◌*◌, ◌^◌, ◌≤◌, ◌≡◌, Bool, true, false, ◌&&◌, ◌||◌, Option, Option-cases, none, some, inl,
  inr, List, [], ◌∷◌, ◌++◌, arith, leb, ◌==◌, if◌then◌else◌,
}
use hometube.Prelude.Text.{Text, codes, text_eq}
use hometube.Prelude.Split.{is_whitespace, backwards, trim, or_else}
use hometube.Prelude.Int.{parse_u32}
use hometube.Backfill.Failure.{to_ascii_lowercase}

-- `strip_prefix` and `strip_suffix`
unfoldable pub strip_prefix : Text → Text → Option Text
strip_prefix [] s = some s
strip_prefix (c ∷ p) [] = none
strip_prefix (c ∷ p) (d ∷ s) = if c == d then strip_prefix p s else none

mirrored : Option Text → Option Text
mirrored none = none
mirrored (some s) = some (backwards [] s)

unfoldable pub strip_suffix : Text → Text → Option Text
unfolding strip_prefix mirrored backwards
strip_suffix p s = mirrored (strip_prefix (backwards [] p) (backwards [] s))

push_word : Text → List Text → List Text
push_word [] words = words
push_word (c ∷ s) words = (c ∷ s) ∷ words

-- `split_whitespace`, behind the part of a word that was read.
words_from : Text → Text → List Text
unfolding push_word is_whitespace
words_from word [] = push_word word []
words_from word (c ∷ s) =
    let rest = words_from [] s in
    let longer = words_from (word ++ c ∷ []) s in
    if is_whitespace c then push_word word rest else longer

unfoldable pub split_whitespace : Text → List Text
unfolding words_from
split_whitespace s = words_from [] s

-- `trim_end_matches('s')`
skip_s : Text → Text
skip_s [] = []
skip_s (c ∷ s) = if c == b's' then skip_s s else c ∷ s

unfoldable pub trim_end_s : Text → Text
unfolding skip_s backwards
trim_end_s s = backwards [] (skip_s (backwards [] s))

is_ascii_digit : ℕ → Bool
is_ascii_digit c = leb b'0' c && leb c b'9'

-- The digits in front, and the rest.
digits_front : Text → Text × Text
unfolding is_ascii_digit
digits_front [] = ([], [])
digits_front (c ∷ s) =
    let rest = digits_front s in if is_ascii_digit c then (c ∷ rest.0, rest.1) else ([], c ∷ s)

unfoldable pub long_unit : Text → Option Text
long_unit suffix =
    if text_eq suffix (codes "s")
    then some (codes "seconds")
    else if text_eq suffix (codes "m")
    then some (codes "minutes")
    else if text_eq suffix (codes "h")
    then some (codes "hours")
    else if text_eq suffix (codes "d")
    then some (codes "days")
    else if text_eq suffix (codes "w")
    then some (codes "weeks")
    else if text_eq suffix (codes "mo")
    then some (codes "months")
    else if text_eq suffix (codes "y")
    then some (codes "years")
    else none

with_count : Text → Option Text → Option (Text × Text)
with_count count none = none
with_count count (some unit) = some (count, unit)

glued : Text → Text → Option (Text × Text)
unfolding long_unit with_count
glued [] suffix = none
glued (c ∷ count) [] = none
glued (c ∷ count) (d ∷ suffix) = with_count (c ∷ count) (long_unit (d ∷ suffix))

unfoldable pub split_compact_token : Text → Option (Text × Text)
unfolding digits_front glued
split_compact_token token = let parts = digits_front token in glued parts.0 parts.1

-- The accepted shapes, as a count and a unit.
unfoldable pub count_and_unit : List Text → Option (Text × Text)
unfolding split_compact_token
count_and_unit [] = none
count_and_unit (single ∷ []) = split_compact_token single
count_and_unit (c ∷ u ∷ []) = some (c, u)
count_and_unit (a ∷ b ∷ u ∷ []) =
    if text_eq a (codes "a") && text_eq b (codes "few")
    then some (codes "few", u)
    else if text_eq a (codes "a") && text_eq b (codes "couple")
    then some (codes "couple", u)
    else none
count_and_unit (a ∷ b ∷ o ∷ u ∷ []) =
    if text_eq a (codes "a") && (text_eq b (codes "couple") && text_eq o (codes "of"))
    then some (codes "couple", u)
    else none
count_and_unit (a ∷ b ∷ o ∷ u ∷ w ∷ words) = none

unfoldable pub count_of : Text → Option ℕ
count_of t =
    if text_eq t (codes "a") || text_eq t (codes "an")
    then some 1
    else if text_eq t (codes "few")
    then some 3
    else if text_eq t (codes "couple")
    then some 2
    else parse_u32 t

unfoldable pub unit_secs : Text → Option ℕ
unit_secs t =
    if text_eq t (codes "second")
    then some 1
    else if text_eq t (codes "minute")
    then some 60
    else if text_eq t (codes "hour")
    then some 3600
    else if text_eq t (codes "day")
    then some 86400
    else if text_eq t (codes "week")
    then some (7 * 86400)
    else if text_eq t (codes "month")
    then some (30 * 86400)
    else if text_eq t (codes "year")
    then some (365 * 86400)
    else none

-- `i64::saturating_mul` of two numbers that are not negative.
saturating_mul : ℕ → ℕ → ℕ
saturating_mul a b = if leb (a * b) (2 ^ 63 - 1) then a * b else 2 ^ 63 - 1

unfoldable pub back_by : ℕ → Option ℕ → Option ℕ → Option ℕ
unfolding saturating_mul
back_by now none unit = none
back_by now (some count) none = none
back_by now (some count) (some secs) =
    if leb (saturating_mul count secs) now then some (now - saturating_mul count secs) else none

counted_back : ℕ → Option (Text × Text) → Option ℕ
unfolding back_by count_of unit_secs trim_end_s
counted_back now none = none
counted_back now (some (count, unit)) = back_by now (count_of count) (unit_secs (trim_end_s unit))

or_text : Option Text → Text → Text
or_text none t = t
or_text (some s) t = s

-- The text without its known prefix and without the suffix.
unfoldable pub relative_body : Text → Text
unfolding strip_prefix strip_suffix or_text or_else trim
relative_body raw =
    let lower = to_ascii_lowercase (trim raw) in
    let body =
      or_text
        (or_else (strip_prefix (codes "streamed live ") lower) (
          or_else (strip_prefix (codes "streamed ") lower)
            (strip_prefix (codes "premiered ") lower)))
        lower in
    trim (or_text (strip_suffix (codes " ago") body) body)

unfoldable pub relative_of : Text → ℕ → Option ℕ
unfolding split_whitespace count_and_unit counted_back
relative_of body now =
    if text_eq body (codes "just now")
      || (text_eq body (codes "moments") || text_eq body (codes "a moment"))
    then some now
    else if text_eq body (codes "yesterday")
    then some (now - 86400)
    else counted_back now (count_and_unit (split_whitespace body))

unfoldable pub parse_relative_to_unix : Text → ℕ → Option ℕ
unfolding relative_body relative_of
parse_relative_to_unix raw now = relative_of (relative_body raw) now

counted_back-le :
    (now : ℕ) (parts : Option (Text × Text)) (t : ℕ) → counted_back now parts ≡ some t → t ≤ now
unfolding counted_back back_by
counted_back-le now none t e = absurd (cc)
counted_back-le now (some (count, unit)) t e = elim (Option-cases (count_of count)) [
  | inl n ↦ absurd (ground arith)
  | inr (c, counts) ↦ elim (Option-cases (unit_secs (trim_end_s unit))) [
    | inl n ↦ absurd (ground arith)
    | inr (u, secs) ↦ ground arith
  ]
]

some_injective : {a b : ℕ} → some a ≡ some b → a ≡ b
some_injective e = ground arith

fixed-or-le :
    (is_now is_yesterday : Bool) (now : ℕ) (back : Option ℕ) (t : ℕ)
    → (back ≡ some t → t ≤ now)
    → (if is_now then some now else if is_yesterday then some (now - 86400) else back) ≡ some t
    → t ≤ now
fixed-or-le true is_yesterday now back t h e = omega (arith, some_injective e)
fixed-or-le false true now back t h e = omega (arith, some_injective e)
fixed-or-le false false now back t h e = h e

-- A relative time that is read never lies in the future.
pub parse_relative_to_unix-le :
    (raw : Text) (now t : ℕ) → parse_relative_to_unix raw now ≡ some t → t ≤ now
unfolding parse_relative_to_unix relative_of
parse_relative_to_unix-le raw now t =
    fixed-or-le _ _ now (counted_back now (count_and_unit (split_whitespace (relative_body raw)))) t
      (counted_back-le now (count_and_unit (split_whitespace (relative_body raw))) t)
