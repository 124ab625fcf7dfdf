-- ===== src/Segments/Coherence/Served.antt =====
-- What `range_status` calls cached is served exactly.
use hometube.Prelude.{
  ℕ, zero, suc, ◌+◌, ◌-◌, ◌*◌, ◌≤◌, ◌<◌, ◌≡◌, refl, ap, Bool, true, false, ◌&&◌, ◌==◌, Bool-cases,
  inl, inr, Option, none, some, List, [], ◌∷◌, arith, leb→le, if◌then◌else◌,
}
use native.Mathlib.Nat.{mod-eq_of_lt, lt_of_mul-lt-mul_right}
use hometube.Segments.Tee.Plan.{le_of_mul}
use hometube.Prelude.Slice.{slice}
use hometube.Prelude.Sql.{All, count, count-le-sum, count-none, find-row}
use hometube.Prelude.Text.{Text, text_eq_iff}
use hometube.Segments.Chunk.{
  u32_mod, sub32, sub32-eq, chunk_index, next_chunk, chunk_index_bounds, chunk_byte_start,
}
use hometube.Segments.Coherence.{Upstream, chunk_of, IsSound, Apart, Distinct, IsCoherent}
use hometube.Segments.Coherence.Steps.{State, Reach}
use hometube.Segments.Coherence.Reached.{Reach-Inv}
use hometube.Segments.Coherence.Readers.{IsCurrent, Spared, Spared-Holds, Inv-Holds}
use hometube.Segments.Paths.{IsComponent, chunk_path}
use hometube.Segments.Read.{read_range_from_cache, read_range_from_cache-exact}
use hometube.Segments.Table.{Row, Disk, of_format, is_same, in_range, range_status}

pub is_same_sound : (a b : Option Text) → is_same a b ≡ true → a ≡ b
unfolding is_same
is_same_sound none none h = refl
is_same_sound (some s) (some t) h = ap some ((text_eq_iff s t).0 h)
is_same_sound none (some t) h = cc
is_same_sound (some s) none h = cc

-- `c k + c (k + 1) + …`, `m` of them.
sum_from : (ℕ → ℕ) → ℕ → ℕ → ℕ
sum_from c k zero = 0
sum_from c k (suc m) = c k + sum_from c (k + 1) m

sum_from-le : (c : ℕ → ℕ) (k m : ℕ) → ((i : ℕ) → c i ≤ 1) → sum_from c k m ≤ m
unfolding sum_from
sum_from-le c k zero h = omega arith
sum_from-le c k (suc m) h = omega (arith, h k, sum_from-le c (k + 1) m h)

-- A sum of ones and zeros that is as large as it can be has no zero.
sum_from-full :
    (c : ℕ → ℕ) (k m : ℕ)
    → ((i : ℕ) → c i ≤ 1)
    → m ≤ sum_from c k m
    → (i : ℕ) → k ≤ i
    → i < k + m
    → 0 < c i
unfolding sum_from
sum_from-full c k zero h full i a b = absurd (omega arith)
sum_from-full c k (suc m) h full i a b = elim (Bool-cases (i == k)) [
  | inl e ↦ let at : i ≡ k = ground arith in rw at (omega (arith, h k, sum_from-le c (k + 1) m h))
  | inr e ↦ sum_from-full c (k + 1) m h (omega (arith, h k)) i (ground arith) (omega arith)
]

module _ (v f : Text) (fp : Option Text) where
  -- A current row of one chunk.
  of_chunk : ℕ → Row → Bool
  of_chunk n r = of_format v f r && (is_same r.fingerprint fp && (r.segment_number == n))

  of_chunk_sound :
      (n : ℕ) (r : Row)
      → of_chunk n r ≡ true
      → (r.video_id ≡ v) × (r.format_id ≡ f) × (r.fingerprint ≡ fp) × (r.segment_number ≡ n)
  unfolding of_chunk of_format
  of_chunk_sound n r h =
      ground
        (arith, text_eq_iff r.video_id v, text_eq_iff r.format_id f, is_same_sound r.fingerprint fp)

  in_range-head :
      (lo hi : ℕ) (r : Row)
      → (if in_range v f fp lo hi r then 1 else 0)
        ≤ (if of_chunk lo r then 1 else 0) + (if in_range v f fp (lo + 1) hi r then 1 else 0)
  unfolding in_range of_chunk
  in_range-head lo hi r = ground arith

  in_range-none : (lo hi : ℕ) → hi < lo → (r : Row) → in_range v f fp lo hi r ≡ false
  unfolding in_range
  in_range-none lo hi h r = ground arith

  count-in_range :
      (rows : List Row) (m lo hi : ℕ)
      → hi + 1 ≡ lo + m
      → count (in_range v f fp lo hi) rows ≤ sum_from (λ n. count (of_chunk n) rows) lo m
  unfolding sum_from
  count-in_range rows zero lo hi e =
      omega (arith, count-none (in_range v f fp lo hi) rows (in_range-none lo hi (omega arith)))
  count-in_range rows (suc m) lo hi e = omega (
    arith,
    count-le-sum (in_range v f fp lo hi) (of_chunk lo) (in_range v f fp (lo + 1) hi) rows
        (in_range-head lo hi),
    count-in_range rows m (lo + 1) hi (omega arith),
  )

  module _ (size : ℕ) (dir : Text) (content : Upstream) (files : Text → Option (List ℕ)) where
    none-Apart :
        (n : ℕ) (r : Row) (rows : List Row)
        → of_chunk n r ≡ true
        → IsSound size dir content files r
        → All (IsSound size dir content files) rows
        → All (Apart r) rows
        → count (of_chunk n) rows ≡ 0
    unfolding count
    none-Apart n r [] e s h a = refl
    none-Apart n r (t ∷ rows) e s h a = elim (Bool-cases (of_chunk n t)) [
      | inl p ↦
          let x = of_chunk_sound n r e in
          let y = of_chunk_sound n t p in
          absurd (a.0.0 (cc (s.at, h.0.at, x.0, x.1, x.3, y.0, y.1, y.3)))
      | inr p ↦ rw p (omega (arith, none-Apart n r rows e s h.1 a.1))
    ]

    -- One row at most stands for a chunk.
    count-of_chunk-le :
        (n : ℕ) (rows : List Row)
        → All (IsSound size dir content files) rows
        → Distinct rows
        → count (of_chunk n) rows ≤ 1
    unfolding count
    count-of_chunk-le n [] h a = omega arith
    count-of_chunk-le n (r ∷ rows) h a = elim (Bool-cases (of_chunk n r)) [
      | inl e ↦ rw e (omega (arith, none-Apart n r rows e h.0 h.1 a.0))
      | inr e ↦ rw e (omega (arith, count-of_chunk-le n rows h.1 a.1))
    ]

-- If `range_status` says that a range is cached, each chunk file of the range holds its part of the
-- upstream file.
chunks_cached :
    (size : ℕ) (dir : Text) (content : Upstream) (d : Disk) (v f : Text) (fp : Option Text)
    (byte_start byte_end : ℕ)
    → 0 < size
    → byte_start ≤ byte_end
    → byte_end < (u32_mod - 1) * size
    → IsCoherent size dir content d
    → (range_status size true v f fp byte_start byte_end d).fully_cached ≡ true
    → (n : ℕ) → chunk_index size byte_start ≤ n
    → n ≤ chunk_index size byte_end
    → d.files (chunk_path dir v f n) ≡ some (chunk_of size content v f fp n)
unfolding range_status next_chunk chunk_byte_start
chunks_cached size dir content d v f fp a b positive order fits h status n low high =
    let A = chunk_index_bounds size positive a (omega arith) in
    let B = chunk_index_bounds size positive b (omega arith) in
    let first : ℕ = chunk_index size a in
    let last : ℕ = chunk_index size b in
    let ordered : first ≤ last = le_of_mul size first last (omega (arith, A, B)) in
    let top : last < u32_mod - 1 = lt_of_mul-lt-mul_right size (omega (arith, B)) in
    let needed : next_chunk (sub32 last first) ≡ last - first + 1 =
      rw (sub32-eq last first ordered (omega arith)) (mod-eq_of_lt (omega arith)) in
    let matching : next_chunk (sub32 last first) ≤ count (in_range v f fp first last) d.rows =
      leb→le _ _ status in
    let m : ℕ = last - first + 1 in
    let c : ℕ → ℕ = λ k. count (of_chunk v f fp k) d.rows in
    let covered = count-in_range v f fp d.rows m first last (omega arith) in
    let there : 0 < c n =
      sum_from-full c first m
        (λ k. count-of_chunk-le v f fp size dir content d.files k d.rows h.sound h.distinct)
        (omega arith) n low (omega arith) in
    let (r, sound, e) =
      find-row (IsSound size dir content d.files) (of_chunk v f fp n) d.rows h.sound there in
    let x = of_chunk_sound v f fp n r e in cc (sound.at, sound.holds, x.0, x.1, x.2, x.3)

-- A range that `range_status` calls cached for a fingerprint, the reader returns exactly as the upstream
-- file of that fingerprint has it, in any interleaving with the steps of stores, purges and touches,
-- though query and reader take no lock and each chunk file is read in a later state of its own. For
-- each chunk of the range two things are asked. At the query no store holds it with a chunk of
-- another file, between its rename and its row. And from the query to the read of the chunk's file,
-- no store renames a chunk of another file to it, and no purge takes a row with its path. No upsert
-- fails after its rename. The chunk size is a positive `u32`, and every chunk number fits one.
pub Reach-served :
    (size : ℕ) (dir : Text) (content : Upstream) (s : State) (v f : Text) (fp : Option Text)
    (byte_start byte_end : ℕ) (reads : ℕ → State)
    → 0 < size
    → size ≤ u32_mod
    → byte_start ≤ byte_end
    → byte_end < (u32_mod - 1) * size
    → IsComponent v
    → IsComponent f
    → Reach size dir content s
    → (range_status size true v f fp byte_start byte_end s.disk).fully_cached ≡ true
    → ((n : ℕ)
        → chunk_index size byte_start ≤ n
        → n ≤ chunk_index size byte_end
        → All (IsCurrent dir (chunk_path dir v f n) fp) s.held
          × Spared size dir content (chunk_path dir v f n) fp s (reads n))
    → read_range_from_cache size
        (λ n. (reads n).disk.files (chunk_path dir v f n))
        byte_start
        byte_end
      ≡ some (slice (content v f fp) byte_start (byte_end + 1 - byte_start))
unfolding range_status
Reach-served size dir content s v f fp a b reads positive small order fits hv hf r status quiet =
    let h = Reach-Inv size dir content r in
    let calm : Disk = record (s.disk) { files = h.settled } in
    read_range_from_cache-exact size positive (content v f fp)
      (λ n. (reads n).disk.files (chunk_path dir v f n)) a b small order (omega arith)
      (λ n low high.
        let (current, spared) = quiet n low high in
        Spared-Holds size dir content v f fp n hv hf spared (
          Inv-Holds size dir content v f fp n hv hf h current (
            chunks_cached size dir content calm v f fp a b positive order fits h.coherent status n
              low high)))
