-- ===== src/Prelude/Queries.antt =====
-- What queries select: lemmas on `WHERE`, `LIMIT` and the rows that a join makes.
use hometube.Prelude.{
  ℕ, zero, suc, ◌≤◌, ◌≡◌, ◌∙◌, ap, refl, sym, Bool, true, Bool-cases, Option, Option-cases, some,
  inl, inr, List, [], ◌∷◌, map, ltb, take, length, arith,
}
use hometube.Prelude.Sql.{All, All-map, Member, count, exists, select}
use hometube.Prelude.Split.{filter_map}

module _ {ℓ} {R : Type ℓ} where
  -- `EXISTS` is a count that is not 0.
  pub exists-count : (test : R → Bool) (rows : List R) → exists test rows ≡ ltb 0 (count test rows)
  unfolding exists count
  exists-count test [] = refl
  exists-count test (r ∷ rows) = elim (Bool-cases (test r)) [
    | inl on ↦ rw on (ground arith)
    | inr off ↦ ground (arith, exists-count test rows)
  ]

module _ {ℓ κ} {R : Type ℓ} (P : R → Type κ) where
  pub select-All :
      (test : R → Bool) (rows : List R)
      → All P rows
      → All (λ r. P r × (test r ≡ true)) (select test rows)
  unfolding select
  select-All test [] h = tt
  select-All test (r ∷ rows) h = elim (Bool-cases (test r)) [
    | inl on ↦ rw on ((h.0, on), select-All test rows h.1)
    | inr off ↦ rw off (select-All test rows h.1)
  ]

  pub take-All : (n : ℕ) (rows : List R) → All P rows → All P (take n rows)
  take-All zero rows h = tt
  take-All (suc n) [] h = tt
  take-All (suc n) (r ∷ rows) h = (h.0, take-All n rows h.1)

module _ {ℓ κ μ ν} {R : Type ℓ} {B : Type κ} (P : R → Type μ) (Q : B → Type ν) where
  pub filter_map-All :
      (f : R → Option B) (rows : List R)
      → ((r : R) (b : B) → P r → f r ≡ some b → Q b)
      → All P rows
      → All Q (filter_map f rows)
  unfolding filter_map
  filter_map-All f [] h ps = tt
  filter_map-All f (r ∷ rows) h ps = elim (Option-cases (f r)) [
    | inl e ↦ rw e (filter_map-All f rows h ps.1)
    | inr (b, e) ↦ rw e (h r b ps.0 e, filter_map-All f rows h ps.1)
  ]

  pub map-All :
      (f : R → B) (rows : List R) → ((r : R) → P r → Q (f r)) → All P rows → All Q (map f rows)
  map-All f [] h ps = tt
  map-All f (r ∷ rows) h ps = (h r ps.0, map-All f rows h ps.1)

module _ {R : Type 0} where
  -- Every row of a table is in it.
  pub All-Member : (rows : List R) → All (λ r. Member r rows) rows
  All-Member [] = tt
  All-Member (r ∷ rows) = (inl refl, All-map (λ x m. inr m) rows (All-Member rows))

  pub select-Member :
      (test : R → Bool) (r : R) (rows : List R)
      → Member r rows
      → test r ≡ true
      → Member r (select test rows)
  unfolding select
  select-Member test r [] m on = m
  select-Member test r (x ∷ rows) (inl here) on =
      let same : test x ≡ true = ap test (sym here) ∙ on in rw same (inl here)
  select-Member test r (x ∷ rows) (inr later) on = elim (Bool-cases (test x)) [
    | inl e ↦ rw e (inr (select-Member test r rows later on))
    | inr e ↦ rw e (select-Member test r rows later on)
  ]

  pub take-Member :
      (n : ℕ) (r : R) (rows : List R) → length rows ≤ n → Member r rows → Member r (take n rows)
  take-Member zero r [] h m = m
  take-Member zero r (x ∷ rows) h m = absurd (omega arith)
  take-Member (suc n) r [] h m = m
  take-Member (suc n) r (x ∷ rows) h (inl here) = inl here
  take-Member (suc n) r (x ∷ rows) h (inr later) = inr (take-Member n r rows (omega arith) later)

module _ {R B : Type 0} where
  pub filter_map-Member :
      (f : R → Option B) (r : R) (b : B) (rows : List R)
      → Member r rows
      → f r ≡ some b
      → Member b (filter_map f rows)
  unfolding filter_map
  filter_map-Member f r b [] m e = absurd (cc)
  filter_map-Member f r b (x ∷ rows) (inl here) e =
      let same : f x ≡ some b = ap f (sym here) ∙ e in rw same (inl refl)
  filter_map-Member f r b (x ∷ rows) (inr later) e = elim (Option-cases (f x)) [
    | inl n ↦ rw n (filter_map-Member f r b rows later e)
    | inr (c, s) ↦ rw s (inr (filter_map-Member f r b rows later e))
  ]

  pub map-Member : (f : R → B) (r : R) (rows : List R) → Member r rows → Member (f r) (map f rows)
  map-Member f r [] m = absurd (cc)
  map-Member f r (x ∷ rows) (inl here) = inl (ap f here)
  map-Member f r (x ∷ rows) (inr later) = inr (map-Member f r rows later)
