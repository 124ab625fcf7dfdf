-- ===== src/Prelude/Slice.antt =====
-- Windows of a byte sequence: `slice xs s n` is the source's `&data[s..s + n]`, cut at the end.
use Prim.Native.Nat.{min}
use hometube.Prelude.{
  ℕ, zero, suc, ◌+◌, ◌-◌, ◌≤◌, ◌≡◌, refl, ap, ◌∙◌, sym, List, [], ◌∷◌, ◌++◌, arith, length, take,
  drop, length-take, length-drop, length-append,
}

module _ {ℓ} {A : Type ℓ} where
  pub drop-nil : (n : ℕ) → drop {A = A} n [] ≡ []
  drop-nil zero = refl
  drop-nil (suc n) = refl

  pub take-nil : (n : ℕ) → take {A = A} n [] ≡ []
  take-nil zero = refl
  take-nil (suc n) = refl

  take-eq : (xs : List A) {m n : ℕ} → m ≡ n → take m xs ≡ take n xs
  take-eq xs e = ap (λ k. take k xs) e

  drop-eq : (xs : List A) {m n : ℕ} → m ≡ n → drop m xs ≡ drop n xs
  drop-eq xs e = ap (λ k. drop k xs) e

  pub drop-drop : (m n : ℕ) (xs : List A) → drop m (drop n xs) ≡ drop (n + m) xs
  drop-drop m zero xs = drop-eq xs (omega arith)
  drop-drop m (suc n) [] = drop-nil m ∙ sym (drop-nil (suc n + m))
  drop-drop m (suc n) (x ∷ xs) =
      drop-drop m n xs ∙ drop-eq (x ∷ xs) {m = suc (n + m)} {n = suc n + m} (omega arith)

  pub take-take : (m n : ℕ) (xs : List A) → m ≤ n → take m (take n xs) ≡ take m xs
  take-take zero n xs h = refl
  take-take (suc m) zero xs h = absurd (omega arith)
  take-take (suc m) (suc n) [] h = refl
  take-take (suc m) (suc n) (x ∷ xs) h = ap (◌∷◌ x) (take-take m n xs (omega arith))

  pub take-length : (n : ℕ) (xs : List A) → length xs ≤ n → take n xs ≡ xs
  take-length zero [] h = refl
  take-length zero (x ∷ xs) h = absurd (omega arith)
  take-length (suc n) [] h = refl
  take-length (suc n) (x ∷ xs) h = ap (◌∷◌ x) (take-length n xs (omega arith))

  pub drop-take : (m n : ℕ) (xs : List A) → drop m (take n xs) ≡ take (n - m) (drop m xs)
  drop-take zero n xs = take-eq xs (omega arith)
  drop-take (suc m) zero xs = take-eq (drop (suc m) xs) {m = zero} {n = zero - suc m} (omega arith)
  drop-take (suc m) (suc n) [] = sym (take-nil (suc n - suc m))
  drop-take (suc m) (suc n) (x ∷ xs) =
      drop-take m n xs ∙ take-eq (drop m xs) {m = n - m} {n = suc n - suc m} (omega arith)

  pub take-add : (m n : ℕ) (xs : List A) → take m xs ++ take n (drop m xs) ≡ take (m + n) xs
  take-add zero n xs = take-eq xs (omega arith)
  take-add (suc m) n [] = take-nil n ∙ sym (take-nil (suc m + n))
  take-add (suc m) n (x ∷ xs) =
      ap (◌∷◌ x) (take-add m n xs)
      ∙ take-eq (x ∷ xs) {m = suc (m + n)} {n = suc m + n} (omega arith)

  -- Shut: its lemmas say all that the proofs need.
  unfoldable pub slice : List A → ℕ → ℕ → List A
  slice xs s n = take n (drop s xs)

  pub slice-eq : (xs : List A) {s t m n : ℕ} → s ≡ t → m ≡ n → slice xs s m ≡ slice xs t n
  slice-eq xs p q = λ i. slice xs (p i) (q i)

  pub length-slice : (xs : List A) (s n : ℕ) → s + n ≤ length xs → length (slice xs s n) ≡ n
  unfolding slice
  length-slice xs s n h = omega (arith, length-take n (drop s xs), length-drop s xs)

  pub length-slice-le : (xs : List A) (s n : ℕ) → length (slice xs s n) ≤ n
  unfolding slice
  length-slice-le xs s n = omega (arith, length-take n (drop s xs))

  pub slice-zero : (xs : List A) (s : ℕ) → slice xs s 0 ≡ []
  unfolding slice
  slice-zero xs s = refl

  pub slice-append :
      (xs : List A) (s m n : ℕ) → slice xs s m ++ slice xs (s + m) n ≡ slice xs s (m + n)
  unfolding slice
  slice-append xs s m n =
      ap (λ ys. take m (drop s xs) ++ take n ys) (sym (drop-drop m s xs)) ∙ take-add m n (drop s xs)

  pub take-slice : (xs : List A) (s m n : ℕ) → m ≤ n → take m (slice xs s n) ≡ slice xs s m
  unfolding slice
  take-slice xs s m n h = take-take m n (drop s xs) h

  pub drop-slice : (xs : List A) (s m n : ℕ) → drop m (slice xs s n) ≡ slice xs (s + m) (n - m)
  unfolding slice
  drop-slice xs s m n = drop-take m n (drop s xs) ∙ ap (take (n - m)) (drop-drop m s xs)

  pub slice-slice :
      (xs : List A) (s n t m : ℕ) → m ≤ n - t → slice (slice xs s n) t m ≡ slice xs (s + t) m
  unfolding slice
  slice-slice xs s n t m h =
      ap (take m) (drop-take t n (drop s xs) ∙ ap (take (n - t)) (drop-drop t s xs))
      ∙ take-take m (n - t) (drop (s + t) xs) h

  pub slice-past : (xs : List A) (s n : ℕ) → length xs ≤ s → slice xs s n ≡ []
  unfolding slice
  slice-past xs s n h = ap (take n) (past s xs h) ∙ take-nil n
    where
      past : (k : ℕ) (ys : List A) → length ys ≤ k → drop k ys ≡ []
      past zero [] q = refl
      past zero (y ∷ ys) q = absurd (omega arith)
      past (suc k) [] q = refl
      past (suc k) (y ∷ ys) q = past k ys (omega arith)

  -- A window is cut at the end of the data.
  pub slice-min : (xs : List A) (s n : ℕ) → slice xs s (min n (length xs - s)) ≡ slice xs s n
  unfolding slice
  slice-min xs s n = cut n (drop s xs) (length xs - s) (sym (length-drop s xs))
    where
      cut : (k : ℕ) (ys : List A) (l : ℕ) → l ≡ length ys → take (min k l) ys ≡ take k ys
      cut zero ys l e = take-eq ys {m = min zero l} {n = zero} (omega arith)
      cut (suc k) [] l e = take-nil (min (suc k) l)
      cut (suc k) (y ∷ ys) l e =
          take-eq (y ∷ ys) {m = min (suc k) l} {n = suc (min k (l - 1))} (omega arith)
          ∙ ap (◌∷◌ y) (cut k ys (l - 1) (omega arith))

  take-append : (xs ys : List A) → take (length xs) (xs ++ ys) ≡ xs
  take-append [] ys = refl
  take-append (x ∷ xs) ys = ap (◌∷◌ x) (take-append xs ys)

  drop-append : (xs ys : List A) → drop (length xs) (xs ++ ys) ≡ ys
  drop-append [] ys = refl
  drop-append (x ∷ xs) ys = drop-append xs ys

  -- A window that is two texts in a row is the two windows.
  pub slice-split :
      (file : List A) (s : ℕ) (xs ys : List A)
      → slice file s (length (xs ++ ys)) ≡ xs ++ ys
      → (slice file s (length xs) ≡ xs) × (slice file (s + length xs) (length ys) ≡ ys)
  slice-split file s xs ys e =
      let sum = length-append xs ys in
      (
        sym (take-slice file s (length xs) (length (xs ++ ys)) (omega arith))
            ∙ ap (take (length xs)) e
            ∙ take-append xs ys,
        slice-eq file {s = s + length xs} {t = s + length xs} {m = length ys}
              {n = length (xs ++ ys) - length xs} refl (omega arith)
            ∙ sym (drop-slice file s (length xs) (length (xs ++ ys)))
            ∙ ap (drop (length xs)) e
            ∙ drop-append xs ys,
      )
