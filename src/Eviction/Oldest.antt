-- ===== src/Eviction/Oldest.antt =====
-- Which segments the loop of `cleanup_segment_cache` of src/services/video_cache.rs evicts.
use mathlib.Core.List.{Permᴰ}
use mathlib.Core.List.Permᴰ
use hometube.Prelude.{
  ℕ, zero, suc, ◌<◌, ◌≤◌, ◌≡◌, sym, true, Bool-cases, inl, inr, List, [], ◌∷◌, leb, take, drop,
  arith,
}
use hometube.Prelude.Sql.{All, All-map}
use hometube.Segments.Table.{Row}
use hometube.Eviction.{Answers, total_size}
use hometube.Eviction.Cleanup.{Lru, lru_loop, insert_row, order_by_access}
use hometube.Eviction.Lru.{
  UniqueIds, All-Perm, order_by_access-Perm, total_size-Perm, UniqueIds-order_by_access,
  lru_loop-Ends,
}

abbrev NotLater : Row → Row → Type 0
NotLater r s = r.last_accessed_at ≤ s.last_accessed_at

abbrev IsOrdered : List Row → Type 0
IsOrdered [] = Unit
IsOrdered (r ∷ rows) = All (NotLater r) rows × IsOrdered rows

insert_row-All :
    (P : Row → Type 0) (r : Row) (rows : List Row) → P r → All P rows → All P (insert_row r rows)
unfolding insert_row
insert_row-All P r [] p h = (p, tt)
insert_row-All P r (s ∷ rows) p h = elim (Bool-cases (leb r.last_accessed_at s.last_accessed_at)) [
  | inl on ↦ rw on (p, h)
  | inr off ↦ rw off (h.0, insert_row-All P r rows p h.1)
]

insert_row-IsOrdered : (r : Row) (rows : List Row) → IsOrdered rows → IsOrdered (insert_row r rows)
unfolding insert_row
insert_row-IsOrdered r [] h = (tt, tt)
insert_row-IsOrdered r (s ∷ rows) h =
    elim (Bool-cases (leb r.last_accessed_at s.last_accessed_at)) [
      | inl on ↦
          let le : NotLater r s = ground (arith, on) in
          rw on (
            (le, All-map {P = NotLater s} {Q = NotLater r} (λ t k. omega (arith, le, k)) rows h.0),
            h,
          )
      | inr off ↦ rw off (
        insert_row-All (NotLater s) r rows (ground (arith, off)) h.0,
        insert_row-IsOrdered r rows h.1,
      )
    ]

order_by_access-IsOrdered : (rows : List Row) → IsOrdered (order_by_access rows)
unfolding order_by_access
order_by_access-IsOrdered [] = tt
order_by_access-IsOrdered (r ∷ rows) =
    insert_row-IsOrdered r (order_by_access rows) (order_by_access-IsOrdered rows)

All-drop : (P : Row → Type 0) (k : ℕ) (rows : List Row) → All P rows → All P (drop k rows)
All-drop P zero rows h = h
All-drop P (suc k) [] h = h
All-drop P (suc k) (r ∷ rows) h = All-drop P k rows h.1

taken-before :
    (k : ℕ) (rows : List Row)
    → IsOrdered rows
    → All (λ e. All (NotLater e) (drop k rows)) (take k rows)
taken-before zero rows h = tt
taken-before (suc k) [] h = tt
taken-before (suc k) (r ∷ rows) h = (All-drop (NotLater r) k rows h.0, taken-before k rows h.1)

-- Where no DELETE fails, the loop takes a number of rows from the front of the listing and leaves
-- exactly the others, in some order. Each row it took was last accessed no later than any row that is
-- left. It ends within the limit, and was above it before each row it took. It starts from the
-- table's rows, which have different ids, and their sum; the listing has exactly these rows.
pub lru_loop-oldest :
    (answers : Answers) (limit : ℕ) (s : Lru)
    → ((id : ℕ) → answers.deletes_row id ≡ true)
    → UniqueIds s.disk.rows
    → s.current_total ≡ total_size s.disk.rows
    → let listed = order_by_access s.disk.rows in
      let result = lru_loop answers limit listed s in
      (k : ℕ) × (result.0 ≡ true)
      × Permᴰ s.disk.rows listed
      × Permᴰ result.1.disk.rows (drop k listed)
      × All
          (λ e. All (λ r. e.last_accessed_at ≤ r.last_accessed_at) result.1.disk.rows)
          (take k listed)
      × (total_size result.1.disk.rows ≤ limit)
      × ((j : ℕ) → j < k → limit < total_size (drop j listed))
lru_loop-oldest answers limit s deletes unique e =
    let listed = order_by_access s.disk.rows in
    let same = Permᴰ.symm (order_by_access-Perm s.disk.rows) in
    let ends =
      lru_loop-Ends answers limit listed s deletes (UniqueIds-order_by_access s.disk.rows unique)
        same (rw (sym (total_size-Perm same)) e) in
    (
      ends.0,
      ends.1,
      same,
      ends.2,
      All-map (λ (r : Row) h. All-Perm (NotLater r) (Permᴰ.symm ends.2) h) (take ends.0 listed)
          (taken-before ends.0 listed (order_by_access-IsOrdered s.disk.rows)),
      ends.3,
      ends.4,
    )
