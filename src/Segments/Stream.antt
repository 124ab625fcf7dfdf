-- ===== src/Segments/Stream.antt =====
-- `TeeStream::poll_next` of src/services/segment_store.rs: what the stream hands to the writer, whose
-- channel may refuse a message.
use hometube.Prelude.{
  ℕ, ◌+◌, ◌-◌, ◌*◌, ◌≤◌, ◌<◌, ◌≡◌, refl, sym, ap, ◌∙◌, Bool, true, false, Option, none, some, List,
  [], ◌∷◌, ◌++◌, arith, length, length-append,
}
use mathlib.Core.List.{append_assoc}
use hometube.Prelude.Slice.{slice, slice-split}
use hometube.Segments.Chunk.{u32_mod}
use hometube.Segments.Tee.{TeeMsg, bytes, eof, tee_writer_task}
use hometube.Segments.Tee.Receive.{received, first_chunk}
use hometube.Segments.Tee.Complete.{end_chunk, tee_writer_task-stores}
use hometube.Segments.Tee.Plan.{store_chunks}

-- What the wrapped stream answers to a poll.
pub data Poll : Type 0 where
  item : List ℕ → Poll
  error ended pending : Poll

-- One poll: whether the stream is poisoned behind it, and the message that the channel took.
-- `accepts` is what `try_send` answers.
unfoldable pub poll_next : Bool → Poll → Bool → Bool × Option TeeMsg
poll_next true poll accepts = (true, none)
poll_next false (item arrived) true = (false, some (bytes arrived))
poll_next false (item arrived) false = (true, none)
poll_next false ended true = (false, some eof)
poll_next false ended false = (false, none)
poll_next false error accepts = (false, none)
poll_next false pending accepts = (false, none)

send : Option TeeMsg → List TeeMsg → List TeeMsg
send none msgs = msgs
send (some m) msgs = m ∷ msgs

-- The messages of a whole stream.
unfoldable pub messages : Bool → List (Poll × Bool) → List TeeMsg
unfolding poll_next send
messages poisoned [] = []
messages poisoned ((poll, accepts) ∷ polls) =
    let (poisoned', m) = poll_next poisoned poll accepts in send m (messages poisoned' polls)

-- The bytes that pass through to the consumer of the response.
unfoldable pub delivered : List (Poll × Bool) → List ℕ
delivered [] = []
delivered ((item arrived, accepts) ∷ polls) = arrived ++ delivered polls
delivered ((error, accepts) ∷ polls) = delivered polls
delivered ((ended, accepts) ∷ polls) = delivered polls
delivered ((pending, accepts) ∷ polls) = delivered polls

messages-poisoned : (polls : List (Poll × Bool)) → messages true polls ≡ []
unfolding messages
messages-poisoned [] = refl
messages-poisoned (p ∷ polls) = messages-poisoned polls

-- The writer gets the bytes of the response up to some point, with no gap.
messages-prefix :
    (polls : List (Poll × Bool))
    → (rest : List ℕ) × (received (messages false polls) ++ rest ≡ delivered polls)
unfolding messages received delivered
messages-prefix [] = ([], refl)
messages-prefix ((item arrived, true) ∷ polls) =
    let (rest, e) = messages-prefix polls in
    (
      rest,
      append_assoc arrived (received (messages false polls)) rest
          ∙ ap (λ (ys : List ℕ). arrived ++ ys) e,
    )
messages-prefix ((item arrived, false) ∷ polls) =
    (delivered ((item arrived, false) ∷ polls), rw (messages-poisoned polls) refl)
messages-prefix ((ended, true) ∷ polls) = (delivered polls, refl)
messages-prefix ((ended, false) ∷ polls) = messages-prefix polls
messages-prefix ((error, accepts) ∷ polls) = messages-prefix polls
messages-prefix ((pending, accepts) ∷ polls) = messages-prefix polls

-- A proxied stream of a file's bytes from `start` on: wherever the channel refuses a message, the
-- writer stores exactly the chunks of the file that lie whole between `start` and some point of the
-- stream, in order and with the file's bytes. The chunk size is a positive `u32`, every chunk number
-- of the file fits one, and a total size, where it is known, is the file's.
pub TeeStream-stores :
    {W : Type 0} (size : ℕ) (store : ℕ → List ℕ → W → W) (file : List ℕ) (start : ℕ)
    (total_size : Option ℕ) (polls : List (Poll × Bool)) (w : W)
    → 0 < size
    → size ≤ u32_mod
    → length file < (u32_mod - 1) * size
    → ((total : ℕ) → total_size ≡ some total → total ≡ length file)
    → start + length (delivered polls) ≤ length file
    → slice file start (length (delivered polls)) ≡ delivered polls
    → (pos : ℕ) × (start ≤ pos)
      × (pos ≤ start + length (delivered polls))
      × (tee_writer_task size store start total_size (messages false polls) w
          ≡ store_chunks size store file
              (end_chunk size total_size pos - first_chunk size start)
              (first_chunk size start)
              w)
TeeStream-stores size store file start total_size polls w positive small fits t b e =
    let (rest, prefix) = messages-prefix polls in
    let got = received (messages false polls) in
    let sum = length-append got rest in
    let len : length (delivered polls) ≡ length got + length rest = ap length (sym prefix) ∙ sum in
    let seen : slice file start (length (got ++ rest)) ≡ got ++ rest = rw (← prefix) at e in
    (
      start + length got,
      omega arith,
      omega arith,
      tee_writer_task-stores size store positive small file fits start total_size
          (messages false polls) w t (omega arith) (slice-split file start got rest seen).0,
    )
