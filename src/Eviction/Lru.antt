-- ===== src/Eviction/Lru.antt =====
-- The loop of `cleanup_segment_cache` of src/services/video_cache.rs that evicts the least recently
-- used segments: it ends below the limit, and evicts nothing that it need not.
use mathlib.Core.List.{Permᴰ}
use mathlib.Core.List.Permᴰ
use hometube.Prelude.{
  ℕ, zero, suc, ◌<◌, ◌≤◌, ◌≡◌, ◌≢◌, refl, sym, ap, ◌∙◌, Bool, true, Bool-cases, inl, inr, List, [],
  ◌∷◌, leb, ◌==◌, drop, arith,
}
use hometube.Prelude.Sql.{All, All-map, delete}
use hometube.Segments.Table.{Row}
use hometube.Eviction.{Answers, total_size}
use hometube.Eviction.Cleanup.{
  Lru, by_id, unlinked, evict_row, lru_loop, insert_row, order_by_access,
}

-- No two rows have one id.
abbrev OtherId : Row → Row → Type 0
OtherId r s = r.id ≢ s.id

abbrev pub UniqueIds : List Row → Type 0
UniqueIds [] = Unit
UniqueIds (r ∷ rows) = All (OtherId r) rows × UniqueIds rows

insert_row-Perm : (r : Row) (rows : List Row) → Permᴰ (insert_row r rows) (r ∷ rows)
unfolding insert_row
insert_row-Perm r [] = Permᴰ.refl (r ∷ [])
insert_row-Perm r (s ∷ rows) = elim (Bool-cases (leb r.last_accessed_at s.last_accessed_at)) [
  | inl on ↦ rw on (Permᴰ.refl (r ∷ s ∷ rows))
  | inr off ↦ rw off (Permᴰ.trans (Permᴰ.cons refl (insert_row-Perm r rows)) (Permᴰ.swap refl refl))
]

pub order_by_access-Perm : (rows : List Row) → Permᴰ (order_by_access rows) rows
unfolding order_by_access
order_by_access-Perm [] = Permᴰ.nil
order_by_access-Perm (r ∷ rows) =
    Permᴰ.trans (insert_row-Perm r (order_by_access rows))
      (Permᴰ.cons refl (order_by_access-Perm rows))

pub total_size-Perm : {xs ys : List Row} → Permᴰ xs ys → total_size xs ≡ total_size ys
unfolding total_size
total_size-Perm Permᴰ.nil = refl
total_size-Perm (Permᴰ.cons e p) = cc (e, total_size-Perm p)
total_size-Perm (Permᴰ.swap e f) = rw (e, f) (omega arith)
total_size-Perm (Permᴰ.trans p q) = total_size-Perm p ∙ total_size-Perm q

pub All-Perm : (P : Row → Type 0) {xs ys : List Row} → Permᴰ xs ys → All P xs → All P ys
All-Perm P Permᴰ.nil h = h
All-Perm P (Permᴰ.cons e p) h = (rw (sym e) h.0, All-Perm P p h.1)
All-Perm P (Permᴰ.swap e f) h = (rw (sym f) h.1.0, (rw (sym e) h.0, h.1.1))
All-Perm P (Permᴰ.trans p q) h = All-Perm P q (All-Perm P p h)

others-eq : {a b : Row} (l : List Row) → a ≡ b → All (OtherId a) l → All (OtherId b) l
others-eq {a} {b} l e h = All-map {P = OtherId a} {Q = OtherId b} (λ r k d. k (cc (e, d))) l h

UniqueIds-Perm : {xs ys : List Row} → Permᴰ xs ys → UniqueIds xs → UniqueIds ys
UniqueIds-Perm Permᴰ.nil h = h
UniqueIds-Perm (Permᴰ.cons {b} e p) h = (rw (sym e) (All-Perm _ p h.0), UniqueIds-Perm p h.1)
UniqueIds-Perm (Permᴰ.swap {l = l} e f) h =
    (((λ d. h.0.0 (cc (e, f, d))), others-eq l f h.1.0), (others-eq l e h.0.1, h.1.1))
UniqueIds-Perm (Permᴰ.trans p q) h = UniqueIds-Perm q (UniqueIds-Perm p h)

pub UniqueIds-order_by_access :
    (rows : List Row) → UniqueIds rows → UniqueIds (order_by_access rows)
UniqueIds-order_by_access rows h = UniqueIds-Perm (Permᴰ.symm (order_by_access-Perm rows)) h

delete-swap :
    (test : Row → Bool) (a b : Row) (rows : List Row)
    → Permᴰ (delete test (a ∷ b ∷ rows)) (delete test (b ∷ a ∷ rows))
unfolding delete
delete-swap test a b rows = elim (Bool-cases (test a)) [
  | inl on ↦ elim (Bool-cases (test b)) [
    | inl on' ↦ rw (on, on') (Permᴰ.refl _)
    | inr off' ↦ rw (on, off') (Permᴰ.refl _)
  ]
  | inr off ↦ elim (Bool-cases (test b)) [
    | inl on' ↦ rw (off, on') (Permᴰ.refl _)
    | inr off' ↦ rw (off, off') (Permᴰ.swap refl refl)
  ]
]

delete-cons :
    (test : Row → Bool) (a : Row) (xs ys : List Row)
    → Permᴰ (delete test xs) (delete test ys)
    → Permᴰ (delete test (a ∷ xs)) (delete test (a ∷ ys))
unfolding delete
delete-cons test a xs ys p = elim (Bool-cases (test a)) [
  | inl on ↦ rw on p
  | inr off ↦ rw off (Permᴰ.cons refl p)
]

pub delete-Perm :
    (test : Row → Bool) {xs ys : List Row} → Permᴰ xs ys → Permᴰ (delete test xs) (delete test ys)
delete-Perm test Permᴰ.nil = Permᴰ.refl _
delete-Perm test (Permᴰ.cons {a} {l₁ = k} {l₂ = l} e p) =
    rw (sym e) (delete-cons test a k l (delete-Perm test p))
delete-Perm test (Permᴰ.swap {a} {b} {l = l} e f) = rw (sym e, sym f) (delete-swap test a b l)
delete-Perm test (Permᴰ.trans p q) = Permᴰ.trans (delete-Perm test p) (delete-Perm test q)

delete-others : (r : Row) (rows : List Row) → All (OtherId r) rows → delete (by_id r.id) rows ≡ rows
unfolding delete by_id
delete-others r [] h = refl
delete-others r (s ∷ rows) h = elim (Bool-cases (s.id == r.id)) [
  | inl on ↦ absurd (h.0 (ground arith))
  | inr off ↦ rw off (ap (λ (rest : List Row). s ∷ rest) (delete-others r rows h.1))
]

delete-head :
    (r : Row) (rest : List Row) → UniqueIds (r ∷ rest) → Permᴰ (delete (by_id r.id) (r ∷ rest)) rest
unfolding delete
delete-head r rest unique =
    let here : by_id r.id r ≡ true = unfold by_id in ground arith in
    rw (here, delete-others r rest unique.0) (Permᴰ.refl rest)

-- Deleting the first listed row by its id leaves the rows of the others.
delete-first :
    (r : Row) (rest rows : List Row)
    → UniqueIds (r ∷ rest)
    → Permᴰ rows (r ∷ rest)
    → Permᴰ (delete (by_id r.id) rows) rest
delete-first r rest rows unique p =
    Permᴰ.trans (delete-Perm (by_id r.id) p) (delete-head r rest unique)

-- How the loop ends: after `k` rounds, with the rows behind the first `k` listed ones.
abbrev pub Ends : ℕ → List Row → Bool × Lru → Type 0
Ends limit listed result =
    (k : ℕ) × (result.0 ≡ true)
    × Permᴰ result.1.disk.rows (drop k listed)
    × (total_size result.1.disk.rows ≤ limit)
    × ((j : ℕ) → j < k → limit < total_size (drop j listed))

above :
    (limit : ℕ) (r : Row) (rest : List Row) (k : ℕ)
    → limit < total_size (r ∷ rest)
    → ((j : ℕ) → j < k → limit < total_size (drop j rest))
    → (j : ℕ) → j < suc k
    → limit < total_size (drop j (r ∷ rest))
above limit r rest k h later zero l = h
above limit r rest k h later (suc j) l = later j (omega arith)

pub lru_loop-Ends :
    (answers : Answers) (limit : ℕ) (listed : List Row) (s : Lru)
    → ((id : ℕ) → answers.deletes_row id ≡ true)
    → UniqueIds listed
    → Permᴰ s.disk.rows listed
    → s.current_total ≡ total_size listed
    → Ends limit listed (lru_loop answers limit listed s)
unfolding lru_loop total_size evict_row unlinked
lru_loop-Ends answers limit [] s deletes unique p e =
    (0, refl, p, rw (total_size-Perm p) (omega arith), λ j h. absurd (omega arith))
lru_loop-Ends answers limit (r ∷ rest) s deletes unique p e =
    elim (Bool-cases (leb s.current_total limit)) [
      | inl on ↦
          rw on (0, refl, p, rw (total_size-Perm p) (ground arith), λ j h. absurd (omega arith))
      | inr off ↦
          let later =
            lru_loop-Ends answers limit rest (evict_row answers r s) deletes unique.1
              (delete-first r rest s.disk.rows unique p) (omega (arith, e)) in
          rw (off, deletes r.id)
            (
              suc later.0,
              later.1,
              later.2,
              later.3,
              above limit r rest later.0 (ground (arith, e, off)) later.4,
            )
    ]
