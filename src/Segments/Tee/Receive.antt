-- ===== src/Segments/Tee/Receive.antt =====
-- What `tee_writer_task` has stored and still holds while messages arrive.
use hometube.Prelude.{
  ℕ, zero, suc, ◌+◌, ◌-◌, ◌*◌, ◌/◌, ◌≤◌, ◌<◌, ◌≡◌, refl, sym, ap, ◌∙◌, List, [], ◌∷◌, ◌++◌, arith,
  length, length-append, ltb, if◌then◌else◌, inl, inr,
}
use hometube.Prelude.Slice.{slice, slice-eq, length-slice, slice-append, slice-split}
use hometube.Segments.Chunk.{u32_mod, u64_mod, add64-eq, div-bounds}
use hometube.Segments.Tee.{TeeMsg, bytes, eof, Writer, flush_complete_chunks, on_data, receive}
use hometube.Segments.Tee.Plan.{
  store_chunks, flush_loop_lem, file_window, le_of_mul, mul_mono, le-or-lt,
}

-- The bytes that arrive before the stream ends or the sender is dropped.
unfoldable pub received : List TeeMsg → List ℕ
received [] = []
received (bytes arrived ∷ msgs) = arrived ++ received msgs
received (eof ∷ msgs) = []

-- The first chunk that starts at `s` or behind it.
unfoldable pub first_chunk : ℕ → ℕ → ℕ
first_chunk size s = (s + size - 1) / size

-- Where the bytes start that a writer still holds at `pos`: at the last boundary, if the stream
-- holds that boundary.
unfoldable pub tail_start : ℕ → ℕ → ℕ → ℕ
tail_start size start pos = if ltb (pos / size * size) start then pos else pos / size * size

pub first_chunk_bounds :
    (size s : ℕ)
    → 0 < size
    → (s ≤ first_chunk size s * size) × (first_chunk size s * size < s + size)
unfolding first_chunk
first_chunk_bounds size s h =
    let d = div-bounds (s + size - 1) size h in (omega (arith, d.1), omega (arith, d.0))

pub tail_start-below :
    (size start pos : ℕ) → pos / size * size < start → tail_start size start pos ≡ pos
unfolding tail_start
tail_start-below size start pos h = ground arith

pub tail_start-above :
    (size start pos : ℕ) → start ≤ pos / size * size → tail_start size start pos ≡ pos / size * size
unfolding tail_start
tail_start-above size start pos h = ground arith

module _ {W : Type 0} (size : ℕ) (store : ℕ → List ℕ → W → W) where
  pub store_chunks-append :
      (file : List ℕ) (m n k : ℕ) (w : W)
      → store_chunks size store file n (k + m) (store_chunks size store file m k w)
        ≡ store_chunks size store file (m + n) k w
  unfolding store_chunks
  store_chunks-append file zero n k w =
      let e : k + 0 ≡ k = omega arith in let z : 0 + n ≡ n = omega arith in rw (e, z) refl
  store_chunks-append file (suc m) n k w =
      let e : k + suc m ≡ k + 1 + m = omega arith in
      let z : suc m + n ≡ suc (m + n) = omega arith in
      rw (e, z) (store_chunks-append file m n (k + 1) (store k (slice file (k * size) size) w))

-- The writer when the stream stands at `pos`.
abbrev pub file_reached : {W : Type 0} → ℕ → (ℕ → List ℕ → W → W) → List ℕ → ℕ → ℕ → W → Writer W
file_reached size store file start pos w =
    file_window file (tail_start size start pos) pos (
      store_chunks size store file (pos / size - first_chunk size start) (first_chunk size start) w)

module _ {W : Type 0} (size : ℕ) (store : ℕ → List ℕ → W → W) (positive : 0 < size)
    (small : size ≤ u32_mod) (file : List ℕ) (fits : length file < (u32_mod - 1) * size)
    (start : ℕ) where
  -- The arrived bytes join the window, and the loop runs over the longer one.
  on_data-window :
      (t pos c q u : ℕ) (arrived : List ℕ) (w : W)
      → t ≤ pos
      → pos + length arrived ≤ length file
      → slice file pos (length arrived) ≡ arrived
      → t ≤ c * size
      → c * size < t + size
      → q * size ≤ pos + length arrived
      → pos + length arrived < q * size + size
      → (q * size < t → u ≡ pos + length arrived)
      → (t ≤ q * size → u ≡ q * size)
      → on_data size store arrived (file_window file t pos w)
        ≡ file_window file u (pos + length arrived) (store_chunks size store file (q - c) c w)
  unfolding on_data flush_complete_chunks
  on_data-window t pos c q u arrived w a b e c1 c2 q1 q2 u1 u2 =
      rw (joined, add64-eq pos (length arrived) room)
        (flush_loop_lem size store positive small file fits
          (length (slice file t (pos + length arrived - t)) + 1) t (pos + length arrived) c q u w
          (omega (arith, length-slice file t (pos + length arrived - t) (omega arith)))
          (omega arith) b c1 c2 q1 q2 u1 u2)
    where
      joined : slice file t (pos - t) ++ arrived ≡ slice file t (pos + length arrived - t)
      joined =
          ap (λ (ys : List ℕ). slice file t (pos - t) ++ ys)
            (sym e
              ∙ slice-eq file {s = pos} {t = t + (pos - t)} {m = length arrived}
                  {n = length arrived} (omega arith) refl)
          ∙ slice-append file t (pos - t) (length arrived)
          ∙ slice-eq file {s = t} {t = t} {m = pos - t + length arrived}
              {n = pos + length arrived - t} refl (omega arith)

      room : pos + length arrived < u64_mod
      room = omega (arith, mul_mono (u32_mod - 1) size u32_mod small)

  abbrev reached : ℕ → W → Writer W
  reached = file_reached size store file start

  join :
      (q q' : ℕ)
      → first_chunk size start ≤ q
      → q ≤ q'
      → (w : W)
      → store_chunks size store file
          (q' - q)
          q
          (store_chunks size store file (q - first_chunk size start) (first_chunk size start) w)
        ≡ store_chunks size store file (q' - first_chunk size start) (first_chunk size start) w
  join q q' h k w =
      let c : ℕ = first_chunk size start in
      let e : c + (q - c) ≡ q = omega arith in
      let z : q - c + (q' - q) ≡ q' - c = omega arith in
      let sum = store_chunks-append size store file (q - c) (q' - q) c w in
      let at_q = rw e at sum in rw z at at_q

  on_data-reached :
      (pos : ℕ) (arrived : List ℕ) (w : W)
      → start ≤ pos
      → pos + length arrived ≤ length file
      → slice file pos (length arrived) ≡ arrived
      → on_data size store arrived (reached pos w) ≡ reached (pos + length arrived) w
  unfolding store_chunks
  on_data-reached pos arrived w a b e =
      let q : ℕ = pos / size in
      let c : ℕ = first_chunk size start in
      let pos' : ℕ = pos + length arrived in
      let q' : ℕ = pos' / size in
      let d = div-bounds pos size positive in
      let d' = div-bounds pos' size positive in
      let f = first_chunk_bounds size start positive in
      let le_q : q ≤ q' = le_of_mul size q q' (omega (arith, d, d')) in
      let below = tail_start-below size start pos' in
      let above = tail_start-above size start pos' in
      elim (le-or-lt (q * size) start) [
        | inl before ↦
            let lt_c : q + 1 ≤ c = le_of_mul size (q + 1) c (omega (arith, f)) in
            let ge_c = mul_mono size (q + 1) c lt_c in
            let none_yet : q - c ≡ 0 = omega arith in
            rw (tail_start-below size start pos before, none_yet)
              (on_data-window pos pos c q' (tail_start size start pos') arrived w (omega arith) b e
                (omega arith) (omega (arith, f)) d'.0 d'.1
                (λ l.
                  below
                    (omega (arith, mul_mono size q' q (le_of_mul size q' q (omega (arith, d))))))
                (λ l. above (omega arith)))
        | inr behind ↦
            let ge_c : c ≤ q = le_of_mul size c q (omega (arith, f)) in
            rw (tail_start-above size start pos behind) (
              on_data-window (q * size) pos q q' (tail_start size start pos') arrived
                (store_chunks size store file (q - c) c w) d.0 b e (omega arith) (omega arith) d'.0
                d'.1 (λ l. absurd (omega (arith, mul_mono size q q' le_q)))
                (λ l. above (omega arith))
              ∙ ap (file_window file (tail_start size start pos') pos') (join q q' ge_c le_q w))
      ]

  pub receive-reached :
      (msgs : List TeeMsg) (pos : ℕ) (w : W)
      → start ≤ pos
      → pos + length (received msgs) ≤ length file
      → slice file pos (length (received msgs)) ≡ received msgs
      → receive size store msgs (reached pos w) ≡ reached (pos + length (received msgs)) w
  unfolding receive received
  receive-reached [] pos w a b e = let z : pos + 0 ≡ pos = omega arith in rw z refl
  receive-reached (eof ∷ msgs) pos w a b e = let z : pos + 0 ≡ pos = omega arith in rw z refl
  receive-reached (bytes arrived ∷ msgs) pos w a b e =
      let sum = length-append arrived (received msgs) in
      let parts = slice-split file pos arrived (received msgs) e in
      let z : pos + length (arrived ++ received msgs)
          ≡ pos + length arrived + length (received msgs) =
        omega arith in
      ap (receive size store msgs) (on_data-reached pos arrived w a (omega arith) parts.0)
      ∙ receive-reached msgs (pos + length arrived) w (omega arith) (omega arith) parts.1
      ∙ ap (λ (p : ℕ). reached p w) (sym z)
