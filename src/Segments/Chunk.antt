-- ===== src/Segments/Chunk.antt =====
-- Chunk arithmetic of src/services/segment_store.rs, with the casts and the wrap of its machine
-- integers. `chunk_size` is a parameter; the source's constant is `CHUNK_SIZE` below.
use hometube.Prelude.{ℕ, ◌+◌, ◌-◌, ◌*◌, ◌/◌, ◌%◌, ◌^◌, ◌≤◌, ◌<◌, ◌≡◌, arith}
use native.Mathlib.Nat.{mod-eq_of_lt, div-add-mod', mod-lt, le-div_iff_mul-le, div-lt_iff_lt-mul}

abbrev pub u32_mod : ℕ
u32_mod = 2 ^ 32

abbrev pub u64_mod : ℕ
u64_mod = 2 ^ 64

-- `CHUNK_SIZE`: 2 MiB.
abbrev pub chunk_size_bytes : ℕ
chunk_size_bytes = 2 * 1024 * 1024

-- `a + b` on `u64`.
unfoldable pub add64 : ℕ → ℕ → ℕ
add64 a b = (a + b) % u64_mod

pub add64-eq : (a b : ℕ) → a + b < u64_mod → add64 a b ≡ a + b
unfolding add64
add64-eq a b h = omega arith

-- `a - b` on `u64` and on `u32` in a release build.
unfoldable pub sub64 : ℕ → ℕ → ℕ
sub64 a b = (a + u64_mod - b) % u64_mod

unfoldable pub sub32 : ℕ → ℕ → ℕ
sub32 a b = (a + u32_mod - b) % u32_mod

pub sub64-eq : (a b : ℕ) → b ≤ a → a < u64_mod → sub64 a b ≡ a - b
unfolding sub64
sub64-eq a b h k = omega arith

pub sub32-eq : (a b : ℕ) → b ≤ a → a < u32_mod → sub32 a b ≡ a - b
unfolding sub32
sub32-eq a b h k = omega arith

-- `(byte_offset / CHUNK_SIZE) as u32`
unfoldable pub chunk_index : ℕ → ℕ → ℕ
chunk_index size byte_offset = byte_offset / size % u32_mod

-- `chunk_num as u64 * CHUNK_SIZE`
unfoldable pub chunk_byte_start : ℕ → ℕ → ℕ
chunk_byte_start size chunk_num = chunk_num * size

-- `cn + 1` on `u32`
unfoldable pub next_chunk : ℕ → ℕ
next_chunk cn = (cn + 1) % u32_mod

pub div-bounds : (n size : ℕ) → 0 < size → (n / size * size ≤ n) × (n < n / size * size + size)
div-bounds n size h = omega (arith, div-add-mod' n size, mod-lt n h)

pub div_unique : (n size k : ℕ) → 0 < size → k * size ≤ n → n < k * size + size → n / size ≡ k
div_unique n size k h p q =
    let low : k ≤ n / size = (le-div_iff_mul-le h).1 p in
    let high : n / size < k + 1 = (div-lt_iff_lt-mul h).1 (omega arith) in omega arith

module _ (size : ℕ) (pos : 0 < size) where
  -- The index of an offset is the one chunk that holds it, below 2 ^ 32 chunks.
  pub chunk_index_bounds :
      (n : ℕ)
      → n < u32_mod * size
      → (chunk_byte_start size (chunk_index size n) ≤ n)
        × (n < chunk_byte_start size (chunk_index size n) + size)
        × (chunk_index size n < u32_mod)
  unfolding chunk_index chunk_byte_start
  chunk_index_bounds n h =
      let small : n / size < u32_mod = (div-lt_iff_lt-mul pos).1 h in
      rw (mod-eq_of_lt small) ((div-bounds n size pos).0, (div-bounds n size pos).1, small)

  pub chunk_index_unique :
      (n k : ℕ) → k < u32_mod → k * size ≤ n → n < k * size + size → chunk_index size n ≡ k
  unfolding chunk_index
  chunk_index_unique n k h p q = rw (div_unique n size k pos p q) (mod-eq_of_lt h)
