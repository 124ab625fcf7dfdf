-- ===== src/Links/Encode.antt =====
-- How src/services/dash.rs and src/services/youtube.rs write bytes as text: `percent_encode` and
-- `hex_encode`. A string is here the list of its bytes.
use hometube.Prelude.{
  ℕ, ◌+◌, ◌-◌, ◌/◌, ◌%◌, ◌<◌, ◌≡◌, ◌≢◌, refl, sym, Bool, true, false, ◌&&◌, ◌||◌, Bool-cases, inl,
  inr, List, [], ◌∷◌, arith, ltb, leb, ◌==◌, if◌then◌else◌,
}
use hometube.Prelude.Int.{all_digits}
use hometube.Prelude.Text.{Text, Lacks}

unfoldable pub is_unreserved : ℕ → Bool
is_unreserved b =
    leb b'A' b && leb b b'Z'
    || (leb b'a' b && leb b b'z'
        || (leb b'0' b && leb b b'9' || (b == b'-' || (b == b'_' || (b == b'.' || b == b'~')))))

-- One digit of `{:02X}`, and of the lowercase table `HEX`.
upper_hex : ℕ → ℕ
upper_hex d = if ltb d 10 then b'0' + d else b'A' + (d - 10)

lower_hex : ℕ → ℕ
lower_hex d = if ltb d 10 then b'0' + d else b'a' + (d - 10)

unfoldable pub percent_encode : Text → Text
unfolding upper_hex
percent_encode [] = []
percent_encode (b ∷ s) =
    let rest = percent_encode s in
    if is_unreserved b then b ∷ rest else b'%' ∷ upper_hex (b / 16) ∷ upper_hex (b % 16) ∷ rest

unfoldable pub hex_encode : List ℕ → Text
unfolding lower_hex
hex_encode [] = []
hex_encode (b ∷ s) = lower_hex (b / 16) ∷ lower_hex (b % 16) ∷ hex_encode s

upper_hex-injective : (d e : ℕ) → upper_hex d ≡ upper_hex e → d ≡ e
unfolding upper_hex
upper_hex-injective d e h = ground arith

lower_hex-injective : (d e : ℕ) → lower_hex d ≡ lower_hex e → d ≡ e
unfolding lower_hex
lower_hex-injective d e h = ground arith

nibbles : (b c : ℕ) → b / 16 ≡ c / 16 → b % 16 ≡ c % 16 → b ≡ c
nibbles b c h k = omega arith

percent-off : (b : ℕ) → is_unreserved b ≡ true → b ≢ b'%'
unfolding is_unreserved
percent-off b on e = ground arith

-- Two strings with one percent-encoding are one string.
pub percent_encode-injective : (s t : Text) → percent_encode s ≡ percent_encode t → s ≡ t
unfolding percent_encode
percent_encode-injective [] [] e = refl
percent_encode-injective [] (c ∷ t) e = absurd (ground arith)
percent_encode-injective (b ∷ s) [] e = absurd (ground arith)
percent_encode-injective (b ∷ s) (c ∷ t) e = elim (Bool-cases (is_unreserved b)) [
  | inl b_on ↦ elim (Bool-cases (is_unreserved c)) [
    | inl c_on ↦ ground (arith, percent_encode-injective s t)
    | inr c_off ↦ absurd (percent-off b b_on (ground arith))
  ]
  | inr b_off ↦ elim (Bool-cases (is_unreserved c)) [
    | inl c_on ↦ absurd (percent-off c c_on (ground arith))
    | inr c_off ↦
        let high : upper_hex (b / 16) ≡ upper_hex (c / 16) = ground arith in
        let low : upper_hex (b % 16) ≡ upper_hex (c % 16) = ground arith in
        let rest : percent_encode s ≡ percent_encode t = ground arith in
        let same : b ≡ c =
          nibbles b c (upper_hex-injective _ _ high) (upper_hex-injective _ _ low) in
        cc (same, percent_encode-injective s t rest)
  ]
]

-- Two lists of bytes with one hexadecimal text are one list.
pub hex_encode-injective : (s t : List ℕ) → hex_encode s ≡ hex_encode t → s ≡ t
unfolding hex_encode
hex_encode-injective [] [] e = refl
hex_encode-injective [] (c ∷ t) e = absurd (ground arith)
hex_encode-injective (b ∷ s) [] e = absurd (ground arith)
hex_encode-injective (b ∷ s) (c ∷ t) e =
    let high : lower_hex (b / 16) ≡ lower_hex (c / 16) = ground arith in
    let low : lower_hex (b % 16) ≡ lower_hex (c % 16) = ground arith in
    let rest : hex_encode s ≡ hex_encode t = ground arith in
    let same : b ≡ c = nibbles b c (lower_hex-injective _ _ high) (lower_hex-injective _ _ low) in
    cc (same, hex_encode-injective s t rest)

upper_hex-other : (c d : ℕ) → is_unreserved c ≡ false → c < b'A' → upper_hex d ≢ c
unfolding upper_hex is_unreserved
upper_hex-other c d h l e = ground arith

-- An encoding holds no character that a query string is cut at.
pub Lacks-percent_encode :
    (c : ℕ) (s : Text) → is_unreserved c ≡ false → c ≢ b'%' → c < b'A' → Lacks c (percent_encode s)
unfolding percent_encode
Lacks-percent_encode c [] h k l = tt
Lacks-percent_encode c (b ∷ s) h k l = elim (Bool-cases (is_unreserved b)) [
  | inl on ↦ rw on ((λ e. cc), Lacks-percent_encode c s h k l)
  | inr off ↦ rw off (
    (λ e. k (sym e)),
    (
      upper_hex-other c (b / 16) h l,
      (upper_hex-other c (b % 16) h l, Lacks-percent_encode c s h k l),
    ),
  )
]

-- A text of digits is its own encoding.
pub percent_encode-digits : (s : Text) → all_digits s ≡ true → percent_encode s ≡ s
unfolding percent_encode is_unreserved all_digits
percent_encode-digits [] h = refl
percent_encode-digits (b ∷ s) h = ground (arith, percent_encode-digits s)
