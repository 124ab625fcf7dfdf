-- ===== src/Segments/Tee/Complete.antt =====
-- A whole run of `tee_writer_task` over the bytes of one file.
use Prim.Native.Nat.{min}
use native.Mathlib.Nat.{lt_of_mul-lt-mul_right}
use hometube.Prelude.{
  ℕ, ◌+◌, ◌-◌, ◌*◌, ◌/◌, ◌≤◌, ◌<◌, ◌≡◌, ◌⊎◌, refl, sym, ap, ◌∙◌, Option, none, some, List, [],
  arith, length, if◌then◌else◌, true, inl, inr, Bool-cases,
}
use hometube.Prelude.Slice.{slice, slice-eq, length-slice, slice-zero, slice-min}
use hometube.Segments.Chunk.{
  u32_mod, u64_mod, sub64, sub64-eq, chunk_index_unique, chunk_byte_start, div-bounds,
}
use hometube.Segments.Tee.{
  TeeMsg, Writer, is_empty, receive, finish, is_end_of_file, tee_writer_task,
}
use hometube.Segments.Tee.Plan.{
  is_empty-false, store_chunks, file_window, le_of_mul, mul_mono, le-or-lt,
}
use hometube.Segments.Tee.Receive.{
  received, first_chunk, first_chunk_bounds, tail_start, tail_start-below, tail_start-above,
  store_chunks-append, file_reached, receive-reached,
}

-- The chunk behind the last one that a run up to `pos` stores: at the end of the file the rest
-- behind the last boundary is one chunk more.
unfoldable pub end_chunk : ℕ → Option ℕ → ℕ → ℕ
end_chunk size total_size pos =
    if is_end_of_file total_size pos then first_chunk size pos else pos / size

module _ {W : Type 0} (size : ℕ) (store : ℕ → List ℕ → W → W) (positive : 0 < size)
    (small : size ≤ u32_mod) (file : List ℕ) (fits : length file < (u32_mod - 1) * size)
    (start : ℕ) where
  abbrev reached : ℕ → W → Writer W
  reached = file_reached size store file start

  -- Where no byte of the stream stands behind the last boundary, there is no such chunk.
  end_chunk-settled :
      (total_size : Option ℕ) (pos : ℕ)
      → start ≤ pos
      → (pos / size * size < start) ⊎ (pos / size * size ≡ pos)
      → end_chunk size total_size pos - first_chunk size start ≡ pos / size - first_chunk size start
  unfolding end_chunk
  end_chunk-settled total_size pos a h =
      let f = first_chunk_bounds size pos positive in
      let g = first_chunk_bounds size start positive in
      let d = div-bounds pos size positive in
      let up : first_chunk size pos ≤ pos / size + 1 =
        le_of_mul size (first_chunk size pos) (pos / size + 1) (omega (arith, f, d)) in
      elim h [
        | inl before ↦
            let low : pos / size + 1 ≤ first_chunk size start =
              le_of_mul size (pos / size + 1) (first_chunk size start) (omega (arith, g)) in
            ground arith
        | inr at ↦
            let same : first_chunk size pos ≤ pos / size =
              le_of_mul size (first_chunk size pos) (pos / size) (omega (arith, f)) in
            let same' : pos / size ≤ first_chunk size pos =
              le_of_mul size (pos / size) (first_chunk size pos) (omega (arith, f)) in
            ground arith
      ]

  finish-empty :
      (total_size : Option ℕ) (pos : ℕ) (w : W)
      → finish size store total_size (file_window file pos pos w) ≡ w
  unfolding finish is_empty
  finish-empty total_size pos w =
      rw
        (slice-eq file {s = pos} {t = pos} {m = pos - pos} {n = 0} refl (omega arith)
          ∙ slice-zero file pos)
        refl

  finish-rest :
      (total_size : Option ℕ) (pos q : ℕ) (w : W)
      → pos ≤ length file
      → q * size < pos
      → pos < q * size + size
      → finish size store total_size (file_window file (q * size) pos w) ≡ (
          if is_end_of_file total_size pos
          then store q (slice file (q * size) (pos - q * size)) w
          else w)
  unfolding finish chunk_byte_start
  finish-rest total_size pos q w b h k =
      let len = length-slice file (q * size) (pos - q * size) (omega arith) in
      let full = is_empty-false (slice file (q * size) (pos - q * size)) (omega (arith, len)) in
      let room : pos < u64_mod = omega (arith, mul_mono (u32_mod - 1) size u32_mod small) in
      let at : sub64 pos (pos - q * size) ≡ q * size =
        sub64-eq pos (pos - q * size) (omega arith) room ∙ omega arith in
      let lt : q < u32_mod - 1 = lt_of_mul-lt-mul_right size (omega arith) in
      let index =
        chunk_index_unique size positive (q * size) q (omega arith) (omega arith) (omega arith) in
      rw (full, len, at, index) (ground arith)

  end-length :
      (total_size : Option ℕ) (pos : ℕ)
      → ((total : ℕ) → total_size ≡ some total → total ≡ length file)
      → pos ≤ length file
      → is_end_of_file total_size pos ≡ true
      → pos ≡ length file
  unfolding is_end_of_file
  end-length none pos t b h = cc
  end-length (some total) pos t b h = ground (arith, t total refl)

  -- The rest behind the last boundary is the last chunk of the file.
  store-rest :
      (pos q : ℕ) (w : W)
      → pos ≡ length file
      → q * size < pos
      → pos < q * size + size
      → first_chunk size start ≤ q
      → store q
          (slice file (q * size) (pos - q * size))
          (store_chunks size store file (q - first_chunk size start) (first_chunk size start) w)
        ≡ store_chunks size store file
            (first_chunk size pos - first_chunk size start)
            (first_chunk size start)
            w
  unfolding store_chunks
  store-rest pos q w e h k l =
      let c : ℕ = first_chunk size start in
      let f = first_chunk_bounds size pos positive in
      let up : first_chunk size pos ≤ q + 1 =
        le_of_mul size (first_chunk size pos) (q + 1) (omega (arith, f)) in
      let low : q < first_chunk size pos = lt_of_mul-lt-mul_right size (omega (arith, f)) in
      let n : q - c + 1 ≡ first_chunk size pos - c = omega arith in
      let at : c + (q - c) ≡ q = omega arith in
      let cut =
        slice-eq file {s = q * size} {t = q * size} {m = pos - q * size}
          {n = min size (length file - q * size)} refl (omega arith)
        ∙ slice-min file (q * size) size in
      ap (λ (piece : List ℕ). store q piece (store_chunks size store file (q - c) c w)) cut
      ∙ (rw n at (rw at at (store_chunks-append size store file (q - c) 1 c w)))

  last_chunk :
      (total_size : Option ℕ) (pos : ℕ) (w : W)
      → ((total : ℕ) → total_size ≡ some total → total ≡ length file)
      → pos ≤ length file
      → pos / size * size < pos
      → pos < pos / size * size + size
      → first_chunk size start ≤ pos / size
      → (if is_end_of_file total_size pos
          then store (pos / size) (slice file (pos / size * size) (pos - pos / size * size)) (
              store_chunks size store file
                (pos / size - first_chunk size start)
                (first_chunk size start)
                w)
          else store_chunks size store file
              (pos / size - first_chunk size start)
              (first_chunk size start)
              w)
        ≡ store_chunks size store file
            (end_chunk size total_size pos - first_chunk size start)
            (first_chunk size start)
            w
  unfolding end_chunk
  last_chunk total_size pos w t b h k l = elim (Bool-cases (is_end_of_file total_size pos)) [
    | inl at_end ↦
        rw at_end (store-rest pos (pos / size) w (end-length total_size pos t b at_end) h k l)
    | inr not_yet ↦ rw not_yet refl
  ]

  start-reached : (w : W) → record { buf = []; position = start; world = w } ≡ reached start w
  unfolding store_chunks tail_start
  start-reached w =
      let d = div-bounds start size positive in
      let q : start / size ≤ first_chunk size start =
        le_of_mul size (start / size) (first_chunk size start)
          (omega (arith, first_chunk_bounds size start positive, d)) in
      let z : start / size - first_chunk size start ≡ 0 = omega arith in
      let at : tail_start size start start ≡ start = ground (arith, d) in
      let empty : slice file start (start - start) ≡ [] =
        slice-eq file {s = start} {t = start} {m = start - start} {n = 0} refl (omega arith)
        ∙ slice-zero file start in
      rw (z, at, empty) refl

  finish-reached :
      (total_size : Option ℕ) (pos : ℕ) (w : W)
      → ((total : ℕ) → total_size ≡ some total → total ≡ length file)
      → start ≤ pos
      → pos ≤ length file
      → finish size store total_size (reached pos w)
        ≡ store_chunks size store file
            (end_chunk size total_size pos - first_chunk size start)
            (first_chunk size start)
            w
  finish-reached total_size pos w t a b =
      let q : ℕ = pos / size in
      let c : ℕ = first_chunk size start in
      let d = div-bounds pos size positive in
      elim (le-or-lt (q * size) start) [
        | inl before ↦ rw (tail_start-below size start pos before) (
            finish-empty total_size pos (store_chunks size store file (q - c) c w)
            ∙ ap (λ (n : ℕ). store_chunks size store file n c w)
                (sym (end_chunk-settled total_size pos a (inl before))))
        | inr behind ↦ elim (le-or-lt (q * size) pos) [
          | inl rest ↦
              let l : c ≤ q =
                le_of_mul size c q (omega (arith, first_chunk_bounds size start positive)) in
              rw (tail_start-above size start pos behind) (
                finish-rest total_size pos q (store_chunks size store file (q - c) c w) b rest d.1
                ∙ last_chunk total_size pos w t b rest d.1 l)
          | inr nothing ↦
              let at : q * size ≡ pos = omega (arith, d) in
              rw (tail_start-above size start pos behind, at)
                (finish-empty total_size pos (store_chunks size store file (q - c) c w)
                  ∙ ap (λ (n : ℕ). store_chunks size store file n c w)
                      (sym (end_chunk-settled total_size pos a (inr at))))
        ]
      ]

  -- A run over a part of one file that begins at `start` stores exactly the chunks of the file that
  -- it saw whole, each once, in order and with the file's bytes. The chunk size is a positive `u32`,
  -- every chunk number of the file fits one, and a total size, where it is known, is the file's.
  pub tee_writer_task-stores :
      (total_size : Option ℕ) (msgs : List TeeMsg) (w : W)
      → ((total : ℕ) → total_size ≡ some total → total ≡ length file)
      → start + length (received msgs) ≤ length file
      → slice file start (length (received msgs)) ≡ received msgs
      → tee_writer_task size store start total_size msgs w
        ≡ store_chunks size store file
            (end_chunk size total_size (start + length (received msgs)) - first_chunk size start)
            (first_chunk size start)
            w
  unfolding tee_writer_task
  tee_writer_task-stores total_size msgs w t b e =
      let n : ℕ = length (received msgs) in
      ap (λ (s : Writer W). finish size store total_size (receive size store msgs s))
        (start-reached w)
      ∙ ap (finish size store total_size)
          (receive-reached size store positive small file fits start msgs start w (omega arith) b e)
      ∙ finish-reached total_size (start + n) w t (omega arith) b
