-- ===== src/Prelude/I64.antt =====
-- The arithmetic of `i64`, with its wrap-around in a release build.
use hometube.Prelude.{
  ℕ, ◌+◌, ◌-◌, ◌%◌, ◌^◌, ◌≤◌, ◌<◌, ◌≡◌, Bool, not, Bool-cases, inl, inr, arith, ltb, if◌then◌else◌,
}
use hometube.Prelude.Int.{ℤ, pos, negsuc, pos_part, neg_part, leb_ℤ, i64_half}

abbrev pub word_mod : ℕ
word_mod = 2 ^ 64

-- The bits of a word as a signed number.
unfoldable pub of_word : ℕ → ℤ
of_word w = if ltb w i64_half then pos w else negsuc (word_mod - 1 - w)

-- The difference of two numbers, wrapped.
unfoldable pub diff_i64 : ℕ → ℕ → ℤ
unfolding of_word
diff_i64 a b = of_word ((a + (word_mod - b % word_mod)) % word_mod)

unfoldable pub add_i64 : ℤ → ℤ → ℤ
add_i64 x y = diff_i64 (pos_part x + pos_part y) (neg_part x + neg_part y)

unfoldable pub sub_i64 : ℤ → ℤ → ℤ
sub_i64 x y = diff_i64 (pos_part x + neg_part y) (neg_part x + pos_part y)

abbrev pub min_ℤ : ℤ → ℤ → ℤ
min_ℤ x y = if leb_ℤ x y then x else y

abbrev pub ltb_ℤ : ℤ → ℤ → Bool
ltb_ℤ x y = not (leb_ℤ y x)

-- Where the difference fits, it is the difference.
pub diff_i64-eq :
    (a b : ℕ)
    → a < b + i64_half
    → b ≤ a + i64_half
    → pos_part (diff_i64 a b) + b ≡ a + neg_part (diff_i64 a b)
unfolding diff_i64 of_word
diff_i64-eq a b h k =
    elim (Bool-cases (ltb ((a + (word_mod - b % word_mod)) % word_mod) i64_half)) [
      | inl on ↦ rw on (ground arith)
      | inr off ↦ rw off (ground arith)
    ]
