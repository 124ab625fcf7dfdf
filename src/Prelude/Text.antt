-- ===== src/Prelude/Text.antt =====
-- Texts as sequences of code points, as the source walks them.
use Prim.Native.Char.{code}
use Prim.Native.String.{String}
use hometube.Prelude.{
  ℕ, zero, suc, ◌+◌, ◌-◌, ◌*◌, ◌/◌, ◌%◌, ◌<◌, ◌≡◌, ◌≢◌, ◌↔◌, ◌⊎◌, refl, ◌∙◌, Bool, true, false,
  List, [], ◌∷◌, ◌++◌, arith, ltb, ◌==◌, ◌&&◌, ◌||◌, if◌then◌else◌, Bool-cases, inl, inr, length,
  replicate,
}

abbrev pub Text : Type 0
Text = List ℕ

-- The code points of a literal. `String` has its own `[]` and `∷`.
abbrev pub codes : String → Text
codes String.[] = []
codes (String.◌∷◌ c s) = code c ∷ codes s

unfoldable pub text_eq : Text → Text → Bool
text_eq [] [] = true
text_eq (c ∷ s) (d ∷ t) = (c == d) && text_eq s t
text_eq _ _ = false

text_eq_sound : (s t : Text) → text_eq s t ≡ true → s ≡ t
unfolding text_eq
text_eq_sound [] [] h = refl
text_eq_sound (c ∷ s) (d ∷ t) h = ground (arith, text_eq_sound s t)
text_eq_sound [] (d ∷ t) h = cc
text_eq_sound (c ∷ s) [] h = cc

pub text_eq_refl : (s : Text) → text_eq s s ≡ true
unfolding text_eq
text_eq_refl [] = refl
text_eq_refl (c ∷ s) = ground (arith, text_eq_refl s)

pub text_eq_iff : (s t : Text) → (text_eq s t ≡ true) ↔ (s ≡ t)
text_eq_iff s t = (text_eq_sound s t, λ e. rw e (text_eq_refl t))

pub text_eq_comm : (s t : Text) → text_eq s t ≡ text_eq t s
unfolding text_eq
text_eq_comm [] [] = refl
text_eq_comm [] (d ∷ t) = refl
text_eq_comm (c ∷ s) [] = refl
text_eq_comm (c ∷ s) (d ∷ t) = ground (arith, text_eq_comm s t)

-- The order of strings.
unfoldable pub text_le : Text → Text → Bool
text_le [] t = true
text_le (c ∷ s) [] = false
text_le (c ∷ s) (d ∷ t) = ltb c d || ((c == d) && text_le s t)

-- The decimal digits of a number, with fuel.
unfoldable pub digits_loop : ℕ → ℕ → Text
digits_loop zero n = []
digits_loop (suc fuel) n =
    let rest = digits_loop fuel (n / 10) in
    if ltb n 10 then (b'0' + n) ∷ [] else rest ++ (b'0' + n % 10) ∷ []

-- `n.to_string()`; the digits need less fuel than the number.
unfoldable pub decimal : ℕ → Text
unfolding digits_loop
decimal n = digits_loop (n + 1) n

-- The number that digits stand for, behind the digits read so far.
unfoldable pub value_from : ℕ → Text → ℕ
value_from acc [] = acc
value_from acc (c ∷ s) = value_from (acc * 10 + (c - b'0')) s

value_from-append :
    (s t : Text) (acc : ℕ) → value_from acc (s ++ t) ≡ value_from (value_from acc s) t
unfolding value_from
value_from-append [] t acc = refl
value_from-append (c ∷ s) t acc = value_from-append s t (acc * 10 + (c - b'0'))

value-digits : (fuel n : ℕ) → n < fuel → value_from 0 (digits_loop fuel n) ≡ n
unfolding digits_loop value_from
value-digits zero n h = absurd (omega arith)
value-digits (suc fuel) n h = elim (Bool-cases (ltb n 10)) [
  | inl small ↦ rw small (omega arith)
  | inr large ↦
      let ih : value_from 0 (digits_loop fuel (n / 10)) ≡ n / 10 =
        value-digits fuel (n / 10) (ground arith) in
      rw (large, value_from-append, ih) (omega arith)
]

-- Reading the digits of a number gives the number.
pub value-decimal : (n : ℕ) → value_from 0 (decimal n) ≡ n
unfolding decimal
value-decimal n = value-digits (n + 1) n (omega arith)

-- `format!("{:0width$}", n)`
unfoldable pub zero_padded : ℕ → ℕ → Text
zero_padded width n = replicate (width - length (decimal n)) b'0' ++ decimal n

value-zeros : (k : ℕ) (s : Text) → value_from 0 (replicate k b'0' ++ s) ≡ value_from 0 s
unfolding value_from
value-zeros zero s = refl
value-zeros (suc k) s = value-zeros k s

pub value-zero_padded : (width n : ℕ) → value_from 0 (zero_padded width n) ≡ n
unfolding zero_padded
value-zero_padded width n = value-zeros (width - length (decimal n)) (decimal n) ∙ value-decimal n

-- The text does not hold the character `c`.
abbrev pub Lacks : ℕ → Text → Type 0
Lacks c [] = Unit
Lacks c (d ∷ s) = (d ≢ c) × Lacks c s

pub Lacks-append : (c : ℕ) (s t : Text) → Lacks c s → Lacks c t → Lacks c (s ++ t)
Lacks-append c [] t h k = k
Lacks-append c (d ∷ s) t h k = (h.0, Lacks-append c s t h.1 k)

Lacks-digits : (c fuel n : ℕ) → (c < b'0') ⊎ (b'9' < c) → Lacks c (digits_loop fuel n)
unfolding digits_loop
Lacks-digits c zero n h = tt
Lacks-digits c (suc fuel) n h = elim (Bool-cases (ltb n 10)) [
  | inl small ↦ rw small ((λ e. ground arith), tt)
  | inr large ↦ rw large (
      Lacks-append c (digits_loop fuel (n / 10)) ((b'0' + n % 10) ∷ [])
        (Lacks-digits c fuel (n / 10) h) ((λ e. omega arith), tt))
]

pub Lacks-zero_padded : (c width n : ℕ) → (c < b'0') ⊎ (b'9' < c) → Lacks c (zero_padded width n)
unfolding zero_padded decimal
Lacks-zero_padded c width n h =
    Lacks-append c (replicate (width - length (decimal n)) b'0') (decimal n)
      (zeros (width - length (decimal n))) (Lacks-digits c (n + 1) n h)
  where
    zeros : (k : ℕ) → Lacks c (replicate k b'0')
    zeros zero = tt
    zeros (suc k) = ((λ e. omega arith), zeros k)

-- Two texts that are equal up to a separator which their heads lack.
pub split-first :
    (c : ℕ) (s t x y : Text) → Lacks c s → Lacks c t → s ++ c ∷ x ≡ t ++ c ∷ y → (s ≡ t) × (x ≡ y)
split-first c [] [] x y h k e = ground arith
split-first c [] (d ∷ t) x y h k e = absurd (k.0 (ground arith))
split-first c (d ∷ s) [] x y h k e = absurd (h.0 (ground arith))
split-first c (d ∷ s) (d' ∷ t) x y h k e =
    let r = split-first c s t x y h.1 k.1 (ground arith) in ground arith

pub Lacks-not-append : (c : ℕ) (s x y : Text) → Lacks c x → x ≢ s ++ c ∷ y
Lacks-not-append c [] [] y h e = ground arith
Lacks-not-append c [] (d ∷ x) y h e = h.0 (ground arith)
Lacks-not-append c (d ∷ s) [] y h e = ground arith
Lacks-not-append c (d ∷ s) (d' ∷ x) y h e = Lacks-not-append c s x y h.1 (ground arith)

-- The same with a separator that the tails lack.
pub split-last :
    (c : ℕ) (s t x y : Text) → Lacks c x → Lacks c y → s ++ c ∷ x ≡ t ++ c ∷ y → (s ≡ t) × (x ≡ y)
split-last c [] [] x y h k e = ground arith
split-last c [] (d ∷ t) x y h k e = absurd (Lacks-not-append c t x y h (ground arith))
split-last c (d ∷ s) [] x y h k e = absurd (Lacks-not-append c s y x k (ground arith))
split-last c (d ∷ s) (d' ∷ t) x y h k e =
    let r = split-last c s t x y h k (ground arith) in ground arith

pub append_cancel_left : (s x y : Text) → s ++ x ≡ s ++ y → x ≡ y
append_cancel_left [] x y e = e
append_cancel_left (c ∷ s) x y e = append_cancel_left s x y (ground arith)
