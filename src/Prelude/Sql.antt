-- ===== src/Prelude/Sql.antt =====
-- Tables as lists of rows: what the SQL of the source does with the rows that pass a test.
use hometube.Prelude.{
  ℕ, ◌+◌, ◌≤◌, ◌<◌, ◌≡◌, refl, Bool, true, false, ◌||◌, List, [], ◌∷◌, ◌++◌, arith, if◌then◌else◌,
  Bool-cases, ◌⊎◌, inl, inr,
}

-- Every element has the property.
abbrev pub All {ℓ κ} : {A : Type ℓ} → (A → Type κ) → List A → Type κ
All P [] = Unit
All P (x ∷ xs) = P x × All P xs

-- The row is in the table.
abbrev pub Member : {R : Type 0} → R → List R → Type 0
Member r [] = false ≡ true
Member r (x ∷ rows) = (r ≡ x) ⊎ Member r rows

module _ {ℓ} {R : Type ℓ} where
  -- `SELECT COUNT(*) … WHERE`
  unfoldable pub count : (R → Bool) → List R → ℕ
  count test [] = 0
  count test (r ∷ rows) = (if test r then 1 else 0) + count test rows

  -- `EXISTS(SELECT 1 … WHERE)`
  unfoldable pub exists : (R → Bool) → List R → Bool
  exists test [] = false
  exists test (r ∷ rows) = test r || exists test rows

  -- `SELECT … WHERE`
  unfoldable pub select : (R → Bool) → List R → List R
  select test [] = []
  select test (r ∷ rows) = let rest = select test rows in if test r then r ∷ rest else rest

  -- `UPDATE … SET … WHERE`
  unfoldable pub update : (R → Bool) → (R → R) → List R → List R
  update test set [] = []
  update test set (r ∷ rows) = (if test r then set r else r) ∷ update test set rows

  -- `DELETE … WHERE`
  unfoldable pub delete : (R → Bool) → List R → List R
  delete test [] = []
  delete test (r ∷ rows) = let rest = delete test rows in if test r then rest else r ∷ rest

module _ {ℓ κ μ} {R : Type ℓ} (P : R → Type κ) (Q : R → Type μ) where
  pub All-both : (rows : List R) → All P rows → All Q rows → All (λ r. P r × Q r) rows
  All-both [] h k = tt
  All-both (r ∷ rows) h k = ((h.0, k.0), All-both rows h.1 k.1)

module _ {ℓ κ μ} {R : Type ℓ} {P : R → Type κ} {Q : R → Type μ} where
  pub All-map : (f : (r : R) → P r → Q r) (rows : List R) → All P rows → All Q rows
  All-map f [] h = tt
  All-map f (r ∷ rows) h = (f r h.0, All-map f rows h.1)

  -- An update establishes a property where the test holds and where it does not.
  pub All-update :
      (test : R → Bool) (set : R → R) (rows : List R)
      → ((r : R) → P r → test r ≡ true → Q (set r))
      → ((r : R) → P r → test r ≡ false → Q r)
      → All P rows
      → All Q (update test set rows)
  unfolding update
  All-update test set [] here there h = tt
  All-update test set (r ∷ rows) here there h = elim (Bool-cases (test r)) [
    | inl e ↦ rw e (here r h.0 e, All-update test set rows here there h.1)
    | inr e ↦ rw e (there r h.0 e, All-update test set rows here there h.1)
  ]

module _ {ℓ} {R : Type ℓ} where
  pub All-any : (rows : List R) → All {ℓ, 0} (λ r. Unit) rows
  All-any [] = tt
  All-any (r ∷ rows) = (tt, All-any rows)

module _ {ℓ κ} {R : Type ℓ} (P : R → Type κ) where
  pub All-delete : (test : R → Bool) (rows : List R) → All P rows → All P (delete test rows)
  unfolding delete
  All-delete test [] h = h
  All-delete test (r ∷ rows) h = elim (Bool-cases (test r)) [
    | inl e ↦ rw e (All-delete test rows h.1)
    | inr e ↦ rw e (h.0, All-delete test rows h.1)
  ]

  pub All-append : (xs ys : List R) → All P xs → All P ys → All P (xs ++ ys)
  All-append [] ys h k = k
  All-append (x ∷ xs) ys h k = (h.0, All-append xs ys h.1 k)

  pub All-select : (test : R → Bool) (rows : List R) → All P rows → All P (select test rows)
  unfolding select
  All-select test [] h = h
  All-select test (r ∷ rows) h = elim (Bool-cases (test r)) [
    | inl e ↦ rw e (h.0, All-select test rows h.1)
    | inr e ↦ rw e (All-select test rows h.1)
  ]

  -- Where the count of a test is not 0, a row passes it.
  pub find-row :
      (test : R → Bool) (rows : List R)
      → All P rows
      → 0 < count test rows
      → (r : R) × P r × (test r ≡ true)
  unfolding count
  find-row test [] h k = absurd (omega arith)
  find-row test (r ∷ rows) h k = elim (Bool-cases (test r)) [
    | inl e ↦ (r, h.0, e)
    | inr e ↦ find-row test rows h.1 (ground arith)
  ]

  -- Where no row exists that passes a test, every row fails it.
  pub All-not-exists :
      (test : R → Bool) (rows : List R)
      → exists test rows ≡ false
      → All P rows
      → All (λ r. P r × (test r ≡ false)) rows
  unfolding exists
  All-not-exists test [] e h = tt
  All-not-exists test (r ∷ rows) e h =
      ((h.0, ground arith), All-not-exists test rows (ground arith) h.1)

module _ {ℓ} {R : Type ℓ} where
  pub count-le-sum :
      (p q r : R → Bool) (rows : List R)
      → ((x : R) → (if p x then 1 else 0) ≤ (if q x then 1 else 0) + (if r x then 1 else 0))
      → count p rows ≤ count q rows + count r rows
  unfolding count
  count-le-sum p q r [] h = omega arith
  count-le-sum p q r (x ∷ rows) h = omega (arith, h x, count-le-sum p q r rows h)

  pub count-none : (p : R → Bool) (rows : List R) → ((x : R) → p x ≡ false) → count p rows ≡ 0
  unfolding count
  count-none p [] h = refl
  count-none p (x ∷ rows) h = rw (h x) (omega (arith, count-none p rows h))

module _ {R : Type 0} where
  pub Member-All : (P : R → Type 0) (r : R) (rows : List R) → Member r rows → All P rows → P r
  Member-All P r [] m h = absurd (cc)
  Member-All P r (x ∷ rows) m h = elim m [
    | inl e ↦ rw e h.0
    | inr later ↦ Member-All P r rows later h.1
  ]

  pub Member-update :
      (test : R → Bool) (set : R → R) (r : R) (rows : List R)
      → Member r rows
      → test r ≡ true
      → Member (set r) (update test set rows)
  unfolding update
  Member-update test set r [] m on = absurd (cc)
  Member-update test set r (x ∷ rows) m on = elim m [
    | inl e ↦ inl (ground arith)
    | inr later ↦ inr (Member-update test set r rows later on)
  ]

module _ {ℓ} {R : Type ℓ} where
  pub exists-append_last :
      (test : R → Bool) (rows : List R) (r : R)
      → test r ≡ true
      → exists test (rows ++ (r ∷ [])) ≡ true
  unfolding exists
  exists-append_last test [] r e = rw e refl
  exists-append_last test (x ∷ rows) r e = elim (Bool-cases (test x)) [
    | inl on ↦ rw on refl
    | inr off ↦ rw off (exists-append_last test rows r e)
  ]

  pub exists-append :
      (test : R → Bool) (rows more : List R)
      → exists test rows ≡ true
      → exists test (rows ++ more) ≡ true
  unfolding exists
  exists-append test [] more e = absurd (cc)
  exists-append test (x ∷ rows) more e = elim (Bool-cases (test x)) [
    | inl on ↦ rw on refl
    | inr off ↦ rw off (exists-append test rows more (ground (arith, e, off)))
  ]

  -- An update that keeps a test keeps that a row passes it.
  pub exists-update :
      (test which : R → Bool) (set : R → R) (rows : List R)
      → ((r : R) → test (set r) ≡ test r)
      → exists test (update which set rows) ≡ exists test rows
  unfolding exists update
  exists-update test which set [] keep = refl
  exists-update test which set (r ∷ rows) keep = elim (Bool-cases (which r)) [
    | inl on ↦ rw (on, keep r, exists-update test which set rows keep) refl
    | inr off ↦ rw (off, exists-update test which set rows keep) refl
  ]
