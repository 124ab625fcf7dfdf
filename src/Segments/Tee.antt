-- ===== src/Segments/Tee.antt =====
-- The writer behind a proxied stream: `tee_writer_task` and `flush_complete_chunks` of
-- src/services/segment_store.rs, over any world `W` with the effect of `store_chunk`, whose error
-- the writer only logs.
pub mod Plan
pub mod Receive
pub mod Complete
pub mod Loop
use hometube.Prelude.{
  ℕ, zero, suc, ◌+◌, ◌*◌, ◌≤◌, Bool, true, false, ◌&&◌, Option, none, some, List, [], ◌∷◌, ◌++◌,
  length, take, drop, ltb, leb, ◌==◌, if◌then◌else◌,
}
use Prim.Native.Nat.{min}
use hometube.Segments.Chunk.{add64, sub64, chunk_index, chunk_byte_start, next_chunk}

-- `TeeMsg`. That the list of messages ends is that the sender was dropped.
pub data TeeMsg : Type 0 where
  bytes : List ℕ → TeeMsg
  eof : TeeMsg

pub record Writer (W : Type 0) : Type 0 where
  pub buf : List ℕ
  pub position : ℕ
  pub world : W

unfoldable pub is_empty : List ℕ → Bool
is_empty [] = true
is_empty (_ ∷ _) = false

-- `total_size.is_some_and(|total| position >= total)`
unfoldable pub is_end_of_file : Option ℕ → ℕ → Bool
is_end_of_file none position = false
is_end_of_file (some total) position = leb total position

module _ {W : Type 0} (size : ℕ) (store : ℕ → List ℕ → W → W) where
  -- The `loop` of `flush_complete_chunks`, with fuel.
  unfoldable pub flush_loop : ℕ → Writer W → Writer W
  unfolding is_empty
  flush_loop zero s = s
  flush_loop (suc fuel) s =
      let current_abs_start = sub64 s.position (length s.buf) in
      let cn = chunk_index size current_abs_start in
      let cn_start = chunk_byte_start size cn in
      let next_boundary = chunk_byte_start size (next_chunk cn) in
      let discard = min (sub64 next_boundary current_abs_start) (length s.buf) in
      let discarded = flush_loop fuel (record s { buf = drop discard s.buf }) in
      let written =
        flush_loop fuel
          (record s { buf = drop size s.buf; world = store cn (take size s.buf) s.world }) in
      if is_empty s.buf
      then s
      else if current_abs_start == cn_start
      then (if leb size (length s.buf) then written else s)
      else discarded

  -- Every round but the last takes a byte from the buffer.
  unfoldable pub flush_complete_chunks : Writer W → Writer W
  flush_complete_chunks s = flush_loop (length s.buf + 1) s

  unfoldable pub on_data : List ℕ → Writer W → Writer W
  on_data arrived s =
      flush_complete_chunks
        (record s { buf = s.buf ++ arrived; position = add64 s.position (length arrived) })

  -- `while let Some(msg) = rx.recv().await`
  unfoldable pub receive : List TeeMsg → Writer W → Writer W
  receive [] s = s
  receive (bytes arrived ∷ msgs) s = receive msgs (on_data arrived s)
  receive (eof ∷ msgs) s = s

  -- What stands behind the loop: the final partial chunk.
  unfoldable pub finish : Option ℕ → Writer W → W
  unfolding is_empty is_end_of_file
  finish total_size s =
      let buf_abs_start = sub64 s.position (length s.buf) in
      let cn = chunk_index size buf_abs_start in
      let cn_start = chunk_byte_start size cn in
      if is_empty s.buf
      then s.world
      else if is_end_of_file total_size s.position && (buf_abs_start == cn_start)
      then store cn s.buf s.world
      else s.world

  unfoldable pub tee_writer_task : ℕ → Option ℕ → List TeeMsg → W → W
  unfolding receive finish
  tee_writer_task range_start total_size msgs w =
      finish total_size (receive msgs (record { buf = []; position = range_start; world = w }))
