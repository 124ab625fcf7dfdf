-- ===== src/Segments/Read.antt =====
-- `read_range_from_cache` of src/services/segment_store.rs: the bytes of a range out of the chunk
-- files that cover it.
use Prim.Native.Nat.{min}
use hometube.Prelude.{
  ℕ, zero, suc, ◌+◌, ◌-◌, ◌*◌, ◌≤◌, ◌<◌, ◌≡◌, refl, sym, ap, ◌∙◌, Bool-cases, inl, inr, Option,
  none, some, List, [], ◌++◌, arith, length, ltb, ◌==◌, if◌then◌else◌,
}
use hometube.Prelude.Slice.{
  slice, slice-eq, slice-append, slice-slice, slice-zero, slice-min, length-slice-le,
}
use mathlib.Core.List.{append-nil}
use hometube.Segments.Tee.Plan.{le_of_mul, mul_mono}
use hometube.Segments.Chunk.{
  u32_mod, u64_mod, sub64, sub64-eq, chunk_index, chunk_byte_start, chunk_index_bounds,
}

module _ (size : ℕ) where
  -- What one chunk gives: `&data[local_start..local_end]`.
  unfoldable pub chunk_piece : ℕ → ℕ → ℕ → ℕ → ℕ → List ℕ → List ℕ
  chunk_piece first_chunk last_chunk byte_start byte_end cn bytes =
      let chunk_start_abs = chunk_byte_start size cn in
      let local_start : ℕ = if cn == first_chunk then sub64 byte_start chunk_start_abs else 0 in
      let asked : ℕ =
        if cn == last_chunk then sub64 byte_end chunk_start_abs + 1 else length bytes in
      let local_end : ℕ = min asked (length bytes) in
      if ltb local_start local_end then slice bytes local_start (local_end - local_start) else []

  -- `for cn in first_chunk..=last_chunk`, by the chunks that are left; `none` is a chunk whose file
  -- cannot be read.
  unfoldable pub read_chunks : (ℕ → Option (List ℕ)) → ℕ → ℕ → ℕ → ℕ → ℕ → ℕ → Option (List ℕ)
  read_chunks read first_chunk last_chunk byte_start byte_end zero cn = some []
  read_chunks read first_chunk last_chunk byte_start byte_end (suc left) cn = elim (read cn) [
    | none ↦ none
    | some bytes ↦
        elim (read_chunks read first_chunk last_chunk byte_start byte_end left (cn + 1)) [
          | none ↦ none
          | some rest ↦
              some (chunk_piece first_chunk last_chunk byte_start byte_end cn bytes ++ rest)
        ]
  ]

  -- `read` is the file of each chunk, at its `chunk_path`.
  unfoldable pub read_range_from_cache : (ℕ → Option (List ℕ)) → ℕ → ℕ → Option (List ℕ)
  unfolding read_chunks
  read_range_from_cache read byte_start byte_end =
      let first_chunk = chunk_index size byte_start in
      let last_chunk = chunk_index size byte_end in
      read_chunks read first_chunk last_chunk byte_start byte_end (last_chunk + 1 - first_chunk)
        first_chunk

read_chunks-suc :
    (size : ℕ) (read : ℕ → Option (List ℕ)) (first last byte_start byte_end left cn : ℕ)
    {bytes rest : List ℕ}
    → read cn ≡ some bytes
    → read_chunks size read first last byte_start byte_end left (cn + 1) ≡ some rest
    → read_chunks size read first last byte_start byte_end (suc left) cn
      ≡ some (chunk_piece size first last byte_start byte_end cn bytes ++ rest)
unfolding read_chunks
read_chunks-suc size read first last byte_start byte_end left cn p q = ground arith

-- Cutting a window at the end of its data changes nothing.
slice-cut :
    (xs : List ℕ) (a b : ℕ)
    → (if ltb a (min b (length xs)) then slice xs a (min b (length xs) - a) else [])
      ≡ slice xs a (b - a)
slice-cut xs a b = elim (Bool-cases (ltb a (min b (length xs)))) [
  | inl e ↦ rw e (
      slice-eq xs {s = a} {t = a} {m = min b (length xs) - a} {n = min (b - a) (length xs - a)} refl
        (omega arith)
      ∙ slice-min xs a (b - a))
  | inr e ↦
      let past : min b (length xs) ≤ a = ground arith in
      rw e (
        sym (
          sym (slice-min xs a (b - a))
          ∙ slice-eq xs {s = a} {t = a} {m = min (b - a) (length xs - a)} {n = 0} refl (omega arith)
          ∙ slice-zero xs a))
]

module _ (size : ℕ) (positive : 0 < size) (file : List ℕ) where
  -- A part of a chunk is that part of the file.
  piece_of_file :
      (cn a b : ℕ)
      → b ≤ size
      → slice (slice file (cn * size) size) a (b - a) ≡ slice file (cn * size + a) (b - a)
  piece_of_file cn a b h = slice-slice file (cn * size) size a (b - a) (omega arith)

  whole_chunk :
      (cn a : ℕ)
      → slice (slice file (cn * size) size) a (length (slice file (cn * size) size) - a)
        ≡ slice file (cn * size + a) (size - a)
  whole_chunk cn a =
      let xs = slice file (cn * size) size in
      slice-eq xs {s = a} {t = a} {m = length xs - a} {n = min (size - a) (length xs - a)} refl
        (omega (arith, length-slice-le file (cn * size) size))
      ∙ slice-min xs a (size - a)
      ∙ piece_of_file cn a size (omega arith)

  module _ (byte_start byte_end first last : ℕ) (fits : byte_end < u64_mod)
      (order : byte_start ≤ byte_end) (low : first * size ≤ byte_start)
      (low' : byte_start < first * size + size) (high : last * size ≤ byte_end)
      (high' : byte_end < last * size + size) where
    from : ℕ → ℕ
    from cn = if cn == first then byte_start else cn * size

    upto : ℕ → ℕ
    upto cn = if cn == last then byte_end + 1 else cn * size + size

    from_first : from first ≡ byte_start
    unfolding from
    from_first = ground arith

    local_start :
        (cn : ℕ)
        → ((if cn == first then sub64 byte_start (cn * size) else 0) ≡ from cn - cn * size)
          × (cn * size ≤ from cn)
    unfolding from
    local_start cn = elim (Bool-cases (cn == first)) [
      | inl e ↦
          let at : cn ≡ first = ground arith in
          let here : cn * size ≤ byte_start = rw at low in
          rw e (sub64-eq byte_start (cn * size) here (omega arith), here)
      | inr e ↦ rw e (omega arith, omega arith)
    ]

    from_bounds : (cn : ℕ) → first ≤ cn → (cn * size ≤ from cn) × (from cn ≤ cn * size + size)
    unfolding from
    from_bounds cn h = elim (Bool-cases (cn == first)) [
      | inl e ↦
          let at : cn ≡ first = ground arith in
          let here : cn * size ≤ byte_start = rw at low in
          let near : byte_start < cn * size + size = rw at low' in rw e (here, omega arith)
      | inr e ↦ rw e (omega arith, omega arith)
    ]

    piece_lem :
        (cn : ℕ)
        → chunk_piece size first last byte_start byte_end cn (slice file (cn * size) size)
          ≡ slice file (from cn) (upto cn - from cn)
    unfolding chunk_piece chunk_byte_start upto
    piece_lem cn =
        let begin = local_start cn in
        let xs = slice file (cn * size) size in
        let a : ℕ = from cn - cn * size in
        elim (Bool-cases (cn == last)) [
          | inl e ↦
              let at : cn ≡ last = ground arith in
              let here : cn * size ≤ byte_end = rw at high in
              let near : byte_end < cn * size + size = rw at high' in
              rw (e, begin.0, sub64-eq byte_end (cn * size) here fits)
                (slice-cut xs a (byte_end - cn * size + 1)
                  ∙ piece_of_file cn a (byte_end - cn * size + 1) (omega arith)
                  ∙ slice-eq file {s = cn * size + a} {t = from cn}
                      {m = byte_end - cn * size + 1 - a} {n = byte_end + 1 - from cn} (omega arith)
                      (omega arith))
          | inr e ↦
              rw (e, begin.0)
                (slice-cut xs a (length xs)
                  ∙ whole_chunk cn a
                  ∙ slice-eq file {s = cn * size + a} {t = from cn} {m = size - a}
                      {n = cn * size + size - from cn} (omega arith) (omega arith))
        ]

    first-le-last : first ≤ last
    first-le-last = le_of_mul size first last (omega arith)

    from_behind : (cn : ℕ) → first ≤ cn → from (cn + 1) ≡ cn * size + size
    unfolding from
    from_behind cn h = elim (Bool-cases (cn + 1 == first)) [
      | inl e ↦ absurd (ground arith)
      | inr e ↦ rw e (omega arith)
    ]

    -- The window of one chunk and that of the chunks behind it.
    joined :
        (cn : ℕ)
        → first ≤ cn
        → cn ≤ last
        → slice file (from cn) (upto cn - from cn)
            ++ slice file (from (cn + 1)) (byte_end + 1 - from (cn + 1))
          ≡ slice file (from cn) (byte_end + 1 - from cn)
    unfolding upto
    joined cn h k = rw (from_behind cn h) (elim (Bool-cases (cn == last)) [
      | inl e ↦
          let at : cn ≡ last = ground arith in
          let far : byte_end < cn * size + size = rw at high' in
          rw e (
            ap (λ (ys : List ℕ). slice file (from cn) (byte_end + 1 - from cn) ++ ys)
              (slice-eq file {s = cn * size + size} {t = cn * size + size}
                  {m = byte_end + 1 - (cn * size + size)} {n = 0} refl (omega arith)
                ∙ slice-zero file (cn * size + size))
            ∙ append-nil (slice file (from cn) (byte_end + 1 - from cn)))
      | inr e ↦
          let below : cn + 1 ≤ last = ground arith in
          let m = mul_mono size (cn + 1) last below in
          let b = from_bounds cn h in
          rw e (
            ap (λ (ys : List ℕ). slice file (from cn) (cn * size + size - from cn) ++ ys)
              (slice-eq file {s = cn * size + size} {t = from cn + (cn * size + size - from cn)}
                {m = byte_end + 1 - (cn * size + size)} {n = byte_end + 1 - (cn * size + size)}
                (omega arith) refl)
            ∙ slice-append file (from cn) (cn * size + size - from cn)
                (byte_end + 1 - (cn * size + size))
            ∙ slice-eq file {s = from cn} {t = from cn}
                {m = cn * size + size - from cn + (byte_end + 1 - (cn * size + size))}
                {n = byte_end + 1 - from cn} refl (omega arith))
    ])

    read_chunks_lem :
        (read : ℕ → Option (List ℕ)) (left cn : ℕ)
        → first ≤ cn
        → cn + left ≡ last + 1
        → ((k : ℕ) → cn ≤ k → k ≤ last → read k ≡ some (slice file (k * size) size))
        → read_chunks size read first last byte_start byte_end left cn
          ≡ some (slice file (from cn) (byte_end + 1 - from cn))
    unfolding read_chunks
    read_chunks_lem read zero cn h e cached =
        let b = from_behind last first-le-last in
        let at : cn ≡ last + 1 = omega arith in
        rw (at, b)
          (ap some (
            sym (
              slice-eq file {s = last * size + size} {t = last * size + size}
                {m = byte_end + 1 - (last * size + size)} {n = 0} refl (omega arith)
              ∙ slice-zero file (last * size + size))))
    read_chunks_lem read (suc left) cn h e cached =
        let rest =
          read_chunks_lem read left (cn + 1) (omega arith) (omega arith)
            (λ k l m. cached k (omega arith) m) in
        read_chunks-suc size read first last byte_start byte_end left cn
          (cached cn (omega arith) (omega arith)) rest
        ∙ ap some (
            ap (λ (p : List ℕ). p ++ slice file (from (cn + 1)) (byte_end + 1 - from (cn + 1)))
              (piece_lem cn)
            ∙ joined cn h (omega arith))

  -- Where every chunk file of a range holds its part of the file and every chunk number is a `u32`,
  -- the range is read exactly.
  pub read_range_from_cache-exact :
      (read : ℕ → Option (List ℕ)) (byte_start byte_end : ℕ)
      → size ≤ u32_mod
      → byte_start ≤ byte_end
      → byte_end < u32_mod * size
      → ((k : ℕ)
          → chunk_index size byte_start ≤ k
          → k ≤ chunk_index size byte_end
          → read k ≡ some (slice file (k * size) size))
      → read_range_from_cache size read byte_start byte_end
        ≡ some (slice file byte_start (byte_end + 1 - byte_start))
  unfolding read_range_from_cache chunk_byte_start
  read_range_from_cache-exact read byte_start byte_end small order fits cached =
      let b = chunk_index_bounds size positive byte_start (omega arith) in
      let e = chunk_index_bounds size positive byte_end fits in
      let first : ℕ = chunk_index size byte_start in
      let last : ℕ = chunk_index size byte_end in
      let room : byte_end < u64_mod = omega (arith, mul_mono u32_mod size u32_mod small) in
      let order' = first-le-last byte_start byte_end first last room order b.0 b.1 e.0 e.1 in
      read_chunks_lem byte_start byte_end first last room order b.0 b.1 e.0 e.1 read
        (last + 1 - first) first (omega arith) (omega arith) cached
      ∙ ap (λ (s : ℕ). some (slice file s (byte_end + 1 - s)))
          (from_first byte_start byte_end first last room order b.0 b.1 e.0 e.1)
