-- ===== src/Prelude/Int.antt =====
-- Signed integers over the native numbers, and the texts of `i64`: `to_string` and `parse`.
use hometube.Prelude.{
  ℕ, zero, suc, ◌+◌, ◌/◌, ◌%◌, ◌^◌, ◌<◌, ◌≡◌, ◌≢◌, refl, ap, ◌∙◌, Bool, true, ◌&&◌, Bool-cases, inl,
  inr, Option, none, some, [], ◌∷◌, ◌++◌, arith, ltb, leb, ◌==◌, if◌then◌else◌,
}
use hometube.Prelude.Text.{Text, decimal, digits_loop, value_from, value-decimal}

-- `negsuc n` is -(n + 1).
pub data ℤ : Type 0 where
  pos : ℕ → ℤ
  negsuc : ℕ → ℤ

abbrev pub pos_part : ℤ → ℕ
pos_part (pos n) = n
pos_part (negsuc n) = 0

abbrev pub neg_part : ℤ → ℕ
neg_part (pos n) = 0
neg_part (negsuc n) = suc n

abbrev pub leb_ℤ : ℤ → ℤ → Bool
leb_ℤ a b = leb (pos_part a + neg_part b) (pos_part b + neg_part a)

abbrev pub i64_half : ℕ
i64_half = 2 ^ 63

-- The value fits an `i64`.
abbrev pub IsI64 : ℤ → Type 0
IsI64 (pos n) = n < i64_half
IsI64 (negsuc n) = n < i64_half

-- `to_string`
unfoldable pub int_text : ℤ → Text
int_text (pos n) = decimal n
int_text (negsuc n) = b'-' ∷ decimal (suc n)

is_digit : ℕ → Bool
is_digit c = leb b'0' c && leb c b'9'

unfoldable pub all_digits : Text → Bool
unfolding is_digit
all_digits [] = true
all_digits (c ∷ s) = is_digit c && all_digits s

-- The digits behind a sign, which are not none.
digits_value : Text → Option ℕ
unfolding all_digits
digits_value [] = none
digits_value (c ∷ s) = if all_digits (c ∷ s) then some (value_from 0 (c ∷ s)) else none

positive : Option ℕ → Option ℤ
positive none = none
positive (some n) = if ltb n i64_half then some (pos n) else none

negative : Option ℕ → Option ℤ
negative none = none
negative (some zero) = some (pos 0)
negative (some (suc n)) = if ltb n i64_half then some (negsuc n) else none

-- `str::parse::<i64>`
unfoldable pub parse_i64 : Text → Option ℤ
unfolding digits_value positive negative
parse_i64 [] = none
parse_i64 (c ∷ s) =
    if c == b'-'
    then negative (digits_value s)
    else if c == b'+'
    then positive (digits_value s)
    else positive (digits_value (c ∷ s))

unsigned : Option ℕ → Option ℕ
unsigned none = none
unsigned (some n) = if ltb n (2 ^ 64) then some n else none

-- `str::parse::<u64>`
unfoldable pub parse_u64 : Text → Option ℕ
unfolding digits_value unsigned
parse_u64 [] = none
parse_u64 (c ∷ s) = if c == b'+' then unsigned (digits_value s) else unsigned (digits_value (c ∷ s))

-- `str::parse::<u32>`
unfoldable pub parse_u32 : Text → Option ℕ
parse_u32 s = elim (parse_u64 s) [ none ↦ none | some n ↦ if ltb n (2 ^ 32) then some n else none ]

all_digits-append :
    (s t : Text) → all_digits s ≡ true → all_digits t ≡ true → all_digits (s ++ t) ≡ true
unfolding all_digits
all_digits-append [] t h k = k
all_digits-append (c ∷ s) t h k = ground (arith, all_digits-append s t)

all_digits-digits_loop : (fuel n : ℕ) → all_digits (digits_loop fuel n) ≡ true
unfolding digits_loop all_digits is_digit
all_digits-digits_loop zero n = refl
all_digits-digits_loop (suc fuel) n = elim (Bool-cases (ltb n 10)) [
  | inl small ↦ rw small (ground arith)
  | inr large ↦ rw large (
      all_digits-append (digits_loop fuel (n / 10)) ((b'0' + n % 10) ∷ [])
        (all_digits-digits_loop fuel (n / 10)) (ground arith))
]

append_last-ne-nil : (s : Text) (c : ℕ) → s ++ c ∷ [] ≢ []
append_last-ne-nil [] c e = cc
append_last-ne-nil (d ∷ s) c e = cc

digits_loop-ne-nil : (fuel n : ℕ) → digits_loop (suc fuel) n ≢ []
unfolding digits_loop
digits_loop-ne-nil fuel n = elim (Bool-cases (ltb n 10)) [
  | inl small ↦ rw small (λ e. cc)
  | inr large ↦ rw large (append_last-ne-nil (digits_loop fuel (n / 10)) (b'0' + n % 10))
]

decimal-ne-nil : (n : ℕ) → decimal n ≢ []
unfolding decimal
decimal-ne-nil n = let fuel : n + 1 ≡ suc n = omega arith in rw fuel (digits_loop-ne-nil n n)

pub all_digits-decimal : (n : ℕ) → all_digits (decimal n) ≡ true
unfolding decimal
all_digits-decimal n = all_digits-digits_loop (n + 1) n

digits_value-some :
    (s : Text) → s ≢ [] → all_digits s ≡ true → digits_value s ≡ some (value_from 0 s)
unfolding digits_value
digits_value-some [] ne h = absurd (ne refl)
digits_value-some (c ∷ s) ne h = rw h

digits_value-decimal : (n : ℕ) → digits_value (decimal n) ≡ some n
digits_value-decimal n =
    digits_value-some (decimal n) (decimal-ne-nil n) (all_digits-decimal n)
    ∙ ap some (value-decimal n)

parse_i64-digits :
    (s : Text) → s ≢ [] → all_digits s ≡ true → parse_i64 s ≡ positive (digits_value s)
unfolding parse_i64 all_digits is_digit
parse_i64-digits [] ne h = absurd (ne refl)
parse_i64-digits (c ∷ s) ne h = ground arith

-- An `i64` that is written out is read back.
pub parse_i64-int_text : (z : ℤ) → IsI64 z → parse_i64 (int_text z) ≡ some z
unfolding int_text positive
parse_i64-int_text (pos n) fits =
    parse_i64-digits (decimal n) (decimal-ne-nil n) (all_digits-decimal n)
    ∙ rw (digits_value-decimal n) (ground arith)
parse_i64-int_text (negsuc n) fits =
    unfold parse_i64 negative in rw (digits_value-decimal (suc n)) (ground arith)

parse_u64-digits :
    (s : Text) → s ≢ [] → all_digits s ≡ true → parse_u64 s ≡ unsigned (digits_value s)
unfolding parse_u64 all_digits is_digit
parse_u64-digits [] ne h = absurd (ne refl)
parse_u64-digits (c ∷ s) ne h = ground arith

-- A `u64` that is written out is read back.
pub parse_u64-decimal : (n : ℕ) → n < 2 ^ 64 → parse_u64 (decimal n) ≡ some n
unfolding unsigned
parse_u64-decimal n fits =
    parse_u64-digits (decimal n) (decimal-ne-nil n) (all_digits-decimal n)
    ∙ rw (digits_value-decimal n) (ground arith)
