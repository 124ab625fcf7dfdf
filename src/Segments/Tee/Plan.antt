-- ===== src/Segments/Tee/Plan.antt =====
-- What `flush_complete_chunks` stores: the aligned chunks that a stretch of the file completes.
use Prim.Native.Nat.{min}
use native.Mathlib.Nat.{mod-eq_of_lt, lt_of_mul-lt-mul_right}
use hometube.Prelude.{
  ℕ, zero, suc, ◌+◌, ◌-◌, ◌*◌, ◌%◌, ◌≤◌, ◌<◌, ◌≡◌, refl, sym, ap, ◌∙◌, ◌⊎◌, inl, inr, List, [], ◌∷◌,
  arith, length, take, drop, false, ◌==◌, true,
}
use hometube.Prelude.Slice.{slice, slice-eq, length-slice, drop-slice, take-slice, slice-zero}
use hometube.Segments.Chunk.{
  u32_mod, u64_mod, sub64, sub64-eq, chunk_index, chunk_byte_start, next_chunk, chunk_index_unique,
}
use hometube.Segments.Tee.{Writer, is_empty, flush_loop}

pub is_empty-false : (xs : List ℕ) → 0 < length xs → is_empty xs ≡ false
unfolding is_empty
is_empty-false [] h = absurd (omega arith)
is_empty-false (x ∷ xs) h = refl

-- Products of one factor are compared by the other.
pub le_of_mul : (size a b : ℕ) → a * size < b * size + size → a ≤ b
le_of_mul size a b h =
    let p : a * size < (b + 1) * size = omega arith in
    let k : a < b + 1 = lt_of_mul-lt-mul_right size p in omega arith

-- The chunk before a boundary above 0 starts one chunk size lower.
chunk_before :
    (size c : ℕ) {s : ℕ} → s < c * size → (k : ℕ) × (c ≡ suc k) × (k * size + size ≡ c * size)
chunk_before size zero h = absurd (omega arith)
chunk_before size (suc k) h = (k, refl, omega arith)

pub mul_mono : (size a b : ℕ) → a ≤ b → a * size ≤ b * size
mul_mono size a b h = grind arith

module _ {W : Type 0} (size : ℕ) (store : ℕ → List ℕ → W → W) where
  -- `count` chunks of the file from chunk `k` on, stored in order.
  unfoldable pub store_chunks : List ℕ → ℕ → ℕ → W → W
  store_chunks file zero k w = w
  store_chunks file (suc count) k w =
      store_chunks file count (k + 1) (store k (slice file (k * size) size) w)

  pub flush_stop :
      (fuel : ℕ) (s : Writer W)
      → is_empty s.buf ≡ false
      → (cn : ℕ) → chunk_index size (sub64 s.position (length s.buf)) ≡ cn
      → (sub64 s.position (length s.buf) == chunk_byte_start size cn) ≡ true
      → length s.buf < size
      → flush_loop size store (suc fuel) s ≡ s
  unfolding flush_loop
  flush_stop fuel s full cn e aligned short = rw (full, e, aligned) (ground arith)

  pub flush_store :
      (fuel : ℕ) (s : Writer W)
      → is_empty s.buf ≡ false
      → (cn : ℕ) → chunk_index size (sub64 s.position (length s.buf)) ≡ cn
      → (sub64 s.position (length s.buf) == chunk_byte_start size cn) ≡ true
      → size ≤ length s.buf
      → flush_loop size store (suc fuel) s
        ≡ flush_loop size store fuel
            (record s { buf = drop size s.buf; world = store cn (take size s.buf) s.world })
  unfolding flush_loop
  flush_store fuel s full cn e aligned long = rw (full, e, aligned) (ground arith)

  pub flush_discard :
      (fuel : ℕ) (s : Writer W)
      → is_empty s.buf ≡ false
      → (cn : ℕ) → chunk_index size (sub64 s.position (length s.buf)) ≡ cn
      → (sub64 s.position (length s.buf) == chunk_byte_start size cn) ≡ false
      → (d : ℕ)
      → min
          (sub64 (chunk_byte_start size (next_chunk cn)) (sub64 s.position (length s.buf)))
          (length s.buf)
        ≡ d
      → flush_loop size store (suc fuel) s
        ≡ flush_loop size store fuel (record s { buf = drop d s.buf })
  unfolding flush_loop
  flush_discard fuel s full cn e unaligned d m = rw (full, e, unaligned, m) refl

-- A writer whose buffer holds the bytes of the file from `s` up to `pos`.
abbrev pub file_window : {W : Type 0} → List ℕ → ℕ → ℕ → W → Writer W
file_window file s pos w = record { buf = slice file s (pos - s); position = pos; world = w }

pub le-or-lt : (a b : ℕ) → (a < b) ⊎ (b ≤ a)
le-or-lt a b = grind arith

module _ {W : Type 0} (size : ℕ) (store : ℕ → List ℕ → W → W) (positive : 0 < size)
    (small : size ≤ u32_mod) (file : List ℕ) (fits : length file < (u32_mod - 1) * size) where
  abbrev window : ℕ → ℕ → W → Writer W
  window = file_window file

  window_length :
      (s pos : ℕ) → s ≤ pos → pos ≤ length file → length (slice file s (pos - s)) ≡ pos - s
  window_length s pos h k = length-slice file s (pos - s) (omega arith)

  window_start :
      (s pos : ℕ) → s ≤ pos → pos ≤ length file → sub64 pos (length (slice file s (pos - s))) ≡ s
  window_start s pos h k =
      rw (window_length s pos h k)
        (sub64-eq pos (pos - s) (omega arith) (omega arith) ∙ omega arith)

  module _ (s pos : ℕ) (h : s < pos) (k : pos ≤ length file) where
    window_full : is_empty (slice file s (pos - s)) ≡ false
    window_full = is_empty-false _ (rw (window_length s pos (omega arith) k) (omega arith))

  flush_nothing : (fuel : ℕ) (s : Writer W) → s.buf ≡ [] → flush_loop size store (suc fuel) s ≡ s
  unfolding flush_loop is_empty
  flush_nothing fuel s e = rw e refl

  -- Nothing is left to store, and the buffer stays.
  settled :
      (s pos c q t : ℕ) (w : W)
      → t ≡ s
      → q ≤ c
      → window s pos w ≡ window t pos (store_chunks size store file (q - c) c w)
  unfolding store_chunks
  settled s pos c q t w e h = let z : q - c ≡ 0 = omega arith in rw (e, z) refl

  index_of : (s k : ℕ) → s ≤ length file → k * size ≤ s → s < k * size + size → k + 1 < u32_mod
  index_of s k b p h =
      let m : k * size < (u32_mod - 1) * size = omega arith in
      let l : k < u32_mod - 1 = lt_of_mul-lt-mul_right size m in omega arith

  -- The round that throws the bytes before the next boundary away.
  discard_round :
      (fuel s pos cn : ℕ) (w : W)
      → s < pos
      → pos ≤ length file
      → cn * size < s
      → s < cn * size + size
      → flush_loop size store (suc fuel) (window s pos w)
        ≡ flush_loop size store fuel (window (s + min (cn * size + size - s) (pos - s)) pos w)
  unfolding chunk_byte_start next_chunk
  discard_round fuel s pos cn w h b p r =
      let big : cn + 1 < u32_mod = index_of s cn (omega arith) (omega arith) r in
      let room : cn * size + size < u64_mod = room_of cn big in
      let d : ℕ = min (cn * size + size - s) (pos - s) in
      let start = window_start s pos (omega arith) b in
      let len = window_length s pos (omega arith) b in
      flush_discard size store fuel (window s pos w) (window_full s pos h b) cn
        (rw start (chunk_index_unique size positive s cn (omega arith) (omega arith) r))
        (rw start (ground arith)) d
        (rw (start, len)
          (let n : (cn + 1) % u32_mod * size ≡ cn * size + size =
              rw (mod-eq_of_lt big) (omega arith) in
            rw (n, sub64-eq (cn * size + size) s (omega arith) room) refl))
      ∙ ap
          (λ (b : List ℕ).
            flush_loop size store fuel (record { buf = b; position = pos; world = w }))
          (drop-slice file s d (pos - s)
            ∙ slice-eq file {s = s + d} {t = s + d} {m = pos - s - d} {n = pos - (s + d)} refl
                (omega arith))
    where
      room_of : (k : ℕ) → k + 1 < u32_mod → k * size + size < u64_mod
      room_of k g = omega (arith, mul_mono size (k + 1) (u32_mod - 1) (omega arith))

  -- The round that stores the full chunk at the front.
  store_round :
      (fuel s pos c : ℕ) (w : W)
      → s + size ≤ pos
      → pos ≤ length file
      → c * size ≡ s
      → flush_loop size store (suc fuel) (window s pos w)
        ≡ flush_loop size store fuel
            (window (s + size) pos (store c (slice file (c * size) size) w))
  unfolding chunk_byte_start
  store_round fuel s pos c w h b e =
      let start = window_start s pos (omega arith) b in
      let len = window_length s pos (omega arith) b in
      let here : c * size ≤ s = omega arith in
      let big : c + 1 < u32_mod = index_of s c (omega arith) here (omega arith) in
      flush_store size store fuel (window s pos w) (window_full s pos (omega arith) b) c
        (rw start (chunk_index_unique size positive s c (omega arith) here (omega arith)))
        (rw start (ground arith)) (omega (arith, len))
      ∙ (λ i.
          flush_loop size store fuel
            (record { buf = rest i; position = pos; world = store c (front i) w }))
    where
      rest : drop size (slice file s (pos - s)) ≡ slice file (s + size) (pos - (s + size))
      rest =
          drop-slice file s size (pos - s)
          ∙ slice-eq file {s = s + size} {t = s + size} {m = pos - s - size} {n = pos - (s + size)}
              refl (omega arith)

      front : take size (slice file s (pos - s)) ≡ slice file (c * size) size
      front =
          take-slice file s size (pos - s) (omega arith)
          ∙ slice-eq file {s = s} {t = c * size} {m = size} {n = size} (sym e) refl

  stop_round :
      (fuel s pos c : ℕ) (w : W)
      → s < pos
      → pos < s + size
      → pos ≤ length file
      → c * size ≡ s
      → flush_loop size store (suc fuel) (window s pos w) ≡ window s pos w
  unfolding chunk_byte_start
  stop_round fuel s pos c w h r b e =
      let start = window_start s pos (omega arith) b in
      let len = window_length s pos (omega arith) b in
      let here : c * size ≤ s = omega arith in
      let big : c + 1 < u32_mod = index_of s c (omega arith) here (omega arith) in
      flush_stop size store fuel (window s pos w) (window_full s pos h b) c
        (rw start (chunk_index_unique size positive s c (omega arith) here (omega arith)))
        (rw start (ground arith)) (omega (arith, len))

  store_chunks-suc :
      (q c : ℕ)
      → c + 1 ≤ q
      → (w : W)
      → store_chunks size store file (q - (c + 1)) (c + 1) (store c (slice file (c * size) size) w)
        ≡ store_chunks size store file (q - c) c w
  unfolding store_chunks
  store_chunks-suc q c h w = let e : q - c ≡ suc (q - (c + 1)) = omega arith in rw e refl

  -- With enough fuel the loop stores every chunk that lies between `s` and `pos`, in order, and
  -- keeps the bytes behind the last boundary.
  pub flush_loop_lem :
      (fuel s pos c q t : ℕ) (w : W)
      → pos - s < fuel
      → s ≤ pos
      → pos ≤ length file
      → s ≤ c * size
      → c * size < s + size
      → q * size ≤ pos
      → pos < q * size + size
      → (q * size < s → t ≡ pos)
      → (s ≤ q * size → t ≡ q * size)
      → flush_loop size store fuel (file_window file s pos w)
        ≡ file_window file t pos (store_chunks size store file (q - c) c w)
  flush_loop_lem zero s pos c q t w f a b c1 c2 q1 q2 t1 t2 = absurd (omega arith)
  flush_loop_lem (suc fuel) s pos c q t w f a b c1 c2 q1 q2 t1 t2 = elim (le-or-lt s pos) [
    | inr none_left ↦
        flush_nothing fuel (window s pos w) (
          slice-eq file {s = s} {t = s} {m = pos - s} {n = 0} refl (omega arith)
          ∙ slice-zero file s)
        ∙ settled s pos c q t w (ground arith) (le_of_mul size q c (omega arith))
    | inl more ↦ elim (le-or-lt s (c * size)) [
      | inl unaligned ↦
          let (k, e, next) = chunk_before size c unaligned in
          let below : k * size < s = omega arith in
          let round = discard_round fuel s pos k w more b below (omega arith) in
          elim (le-or-lt pos (c * size)) [
            | inl outside ↦
                let u : s + min (k * size + size - s) (pos - s) ≡ pos = omega arith in
                let low : q ≤ k = le_of_mul size q k (omega arith) in
                let low' = mul_mono size q k low in
                round
                ∙ rw u (
                    flush_loop_lem fuel pos pos c q t w (omega arith) (omega arith) b (omega arith)
                      (omega arith) q1 q2 (λ l. t1 (omega arith)) (λ l. absurd (omega arith)))
            | inr inside ↦
                let u : s + min (k * size + size - s) (pos - s) ≡ c * size = omega arith in
                let high : c ≤ q = le_of_mul size c q (omega arith) in
                let high' = mul_mono size c q high in
                round
                ∙ rw u (
                    flush_loop_lem fuel (c * size) pos c q t w (omega arith) inside b (omega arith)
                      (omega arith) q1 q2 (λ l. absurd (omega arith)) (λ l. t2 (omega arith)))
          ]
      | inr aligned ↦ elim (le-or-lt pos (s + size)) [
        | inl short ↦
            stop_round fuel s pos c w more short b (omega arith)
            ∙ settled s pos c q t w
                (omega (
                  arith,
                  mul_mono size c q (le_of_mul size c q (omega arith)),
                  mul_mono size q c (le_of_mul size q c (omega arith)),
                ))
                (le_of_mul size q c (omega arith))
        | inr long ↦
            let same : c * size ≡ s = omega arith in
            let more' : c + 1 ≤ q = le_of_mul size (c + 1) q (omega arith) in
            store_round fuel s pos c w long b same
            ∙ flush_loop_lem fuel (s + size) pos (c + 1) q t
                (store c (slice file (c * size) size) w) (omega arith) long b (omega arith)
                (omega arith) q1 q2 (λ l. absurd (omega (arith, mul_mono size (c + 1) q more')))
                (λ l. t2 (omega arith))
            ∙ ap (window t pos) (store_chunks-suc q c more' w)
      ]
    ]
  ]
