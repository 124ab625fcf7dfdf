-- ===== src/Segments/Tee/Loop.antt =====
-- That the loop of `flush_complete_chunks` of src/services/segment_store.rs ends: the rounds its
-- buffer allows are enough, and where it stops there is no whole chunk left.
use Prim.Native.Nat.{min}
use native.Mathlib.Nat.{mod-eq_of_lt, lt_of_mul-lt-mul_right}
use hometube.Prelude.{
  ℕ, zero, suc, ◌+◌, ◌-◌, ◌*◌, ◌/◌, ◌%◌, ◌≤◌, ◌<◌, ◌≡◌, ◌⊎◌, refl, Bool-cases, true, false, inl,
  inr, List, [], ◌∷◌, arith, length, take, drop, length-drop, ◌==◌,
}
use hometube.Segments.Chunk.{
  u32_mod, u64_mod, sub64, sub64-eq, chunk_index, chunk_byte_start, next_chunk, chunk_index_unique,
  div-bounds,
}
use hometube.Segments.Tee.{Writer, is_empty, flush_loop, flush_complete_chunks}
use hometube.Segments.Tee.Plan.{
  is_empty-false, flush_stop, flush_store, flush_discard, le-or-lt, mul_mono,
}

-- The buffer ends at the position, which is within the chunks that a `u32` counts.
abbrev pub IsPlaced : {W : Type 0} → ℕ → Writer W → Type 0
IsPlaced size s = (length s.buf ≤ s.position) × (s.position < (u32_mod - 1) * size)

-- There is nothing to store or to throw away: the buffer is empty, or less than a chunk from a
-- boundary on.
abbrev pub IsSettled : {W : Type 0} → ℕ → Writer W → Type 0
IsSettled size s =
    (s.buf ≡ []) ⊎ ((k : ℕ) × (k * size + length s.buf ≡ s.position) × (length s.buf < size))

nil_of_length : (xs : List ℕ) → length xs ≤ 0 → xs ≡ []
nil_of_length [] h = refl
nil_of_length (x ∷ xs) h = absurd (omega arith)

module _ {W : Type 0} (size : ℕ) (store : ℕ → List ℕ → W → W) (positive : 0 < size)
    (small : size ≤ u32_mod) where
  -- A round that goes on, from a writer to the one it goes on with.
  abbrev Continues : Writer W → Type 0
  Continues s =
      (rest : Writer W) × (length rest.buf < length s.buf)
      × IsPlaced size rest
      × ((fuel : ℕ) → flush_loop size store (suc fuel) s ≡ flush_loop size store fuel rest)

  abbrev Stops : Writer W → Type 0
  Stops s = IsSettled size s × ((fuel : ℕ) → flush_loop size store (suc fuel) s ≡ s)

  full_round : (s : Writer W) → IsPlaced size s → 0 < length s.buf → Stops s ⊎ Continues s
  unfolding chunk_byte_start next_chunk
  full_round s placed some_left =
      let a : ℕ = s.position - length s.buf in
      let q : ℕ = a / size in
      let bounds = div-bounds a size positive in
      let room : s.position < u64_mod =
        omega (arith, mul_mono (u32_mod - 1) size u32_mod small, placed.1) in
      let start : sub64 s.position (length s.buf) ≡ a =
        sub64-eq s.position (length s.buf) placed.0 room in
      let lt : q < u32_mod - 1 = lt_of_mul-lt-mul_right size (omega (arith, placed.1, bounds.0)) in
      let big : q + 1 < u32_mod = omega arith in
      let index : chunk_index size (sub64 s.position (length s.buf)) ≡ q =
        rw start (chunk_index_unique size positive a q (omega arith) bounds.0 bounds.1) in
      let full = is_empty-false s.buf some_left in
      elim (Bool-cases (a == q * size)) [
        | inl on ↦
            let aligned : (sub64 s.position (length s.buf) == q * size) ≡ true = rw start on in
            elim (le-or-lt (length s.buf) size) [
              | inl short ↦ inl (
                inr (q, ground (arith, placed.0), short),
                λ fuel. flush_stop size store fuel s full q index aligned short,
              )
              | inr long ↦ inr (
                record s { buf = drop size s.buf; world = store q (take size s.buf) s.world },
                omega (arith, length-drop size s.buf),
                (omega (arith, length-drop size s.buf, placed.0), placed.1),
                λ fuel. flush_store size store fuel s full q index aligned long,
              )
            ]
        | inr off ↦
            let unaligned : (sub64 s.position (length s.buf) == q * size) ≡ false = rw start off in
            let d : ℕ = min (q * size + size - a) (length s.buf) in
            let ahead : 0 < d = omega (arith, bounds.1) in
            let boundary : (q + 1) % u32_mod * size ≡ q * size + size =
              rw (mod-eq_of_lt big) (omega arith) in
            let top : q * size + size < u64_mod =
              omega (arith, mul_mono size (q + 1) (u32_mod - 1) (omega arith)) in
            inr (
              record s { buf = drop d s.buf },
              omega (arith, length-drop d s.buf),
              (omega (arith, length-drop d s.buf, placed.0), placed.1),
              λ fuel. flush_discard size store fuel s full q index unaligned d (
                  rw (start, boundary, sub64-eq (q * size + size) a (omega (arith, bounds.1)) top)
                    refl),
            )
      ]

  flush_round : (s : Writer W) → IsPlaced size s → Stops s ⊎ Continues s
  unfolding flush_loop is_empty
  flush_round s placed = elim (le-or-lt 0 (length s.buf)) [
    | inl more ↦ full_round s placed more
    | inr nothing ↦
        let none_left : s.buf ≡ [] = nil_of_length s.buf nothing in
        inl (inl none_left, λ fuel. rw none_left refl)
  ]

  flush_loop_settles :
      (fuel k : ℕ) (s : Writer W)
      → IsPlaced size s
      → length s.buf < fuel
      → length s.buf < k
      → (flush_loop size store k s ≡ flush_loop size store fuel s)
        × IsSettled size (flush_loop size store fuel s)
  flush_loop_settles zero k s placed h g = absurd (omega arith)
  flush_loop_settles (suc fuel) zero s placed h g = absurd (omega arith)
  flush_loop_settles (suc fuel) (suc k) s placed h g = elim (flush_round s placed) [
    | inl stop ↦ rw (stop.1 fuel, stop.1 k) (refl, stop.0)
    | inr next ↦
        let later =
          flush_loop_settles fuel k next.0 next.2 (omega (arith, next.1)) (omega (arith, next.1)) in
        rw (next.3 fuel, next.3 k) later
  ]

  -- The loop ends: any number of rounds above the bytes of the buffer gives the result, in which
  -- no chunk is left to store.
  pub flush_loop-terminates :
      (k : ℕ) (s : Writer W)
      → IsPlaced size s
      → length s.buf < k
      → (flush_loop size store k s ≡ flush_complete_chunks size store s)
        × IsSettled size (flush_complete_chunks size store s)
  unfolding flush_complete_chunks
  flush_loop-terminates k s placed h =
      flush_loop_settles (length s.buf + 1) k s placed (omega arith) h
