-- ===== src/Backfill/Lifecycle.antt =====
-- The life of one channel in the queue of src/services/channel_backfill.rs, seen from outside: it
-- waits, is held until a time, is parked, or is done. The operations on the tables implement its
-- moves.
pub mod Rows
pub mod Moves
use hometube.Prelude.{ℕ, ◌+◌, ◌≤◌, Option, none, some, List, [], ◌∷◌, if◌then◌else◌}
use hometube.Prelude.Text.{Text}
use hometube.Backfill.Queue.{
  Status, Channel, pending, running, complete, failed, shelved, has_id, lease_secs, claim_one_due,
  enqueue_run_now, unshelve,
}
use hometube.Backfill.Failure.{FailureConfig}
use hometube.Backfill.Apply.{Tables, Run}
use hometube.Backfill.Run.{Fetched, fetched, fetch_failed, run_backfill_for}

pub data Life : Type 0 where
  waiting : Life
  held : Option ℕ → Life
  parked : Life
  done : Life

unfoldable pub life : Status → Option ℕ → Life
life pending lease = waiting
life running lease = held lease
life shelved lease = parked
life complete lease = done
life failed lease = done

-- What the abstract view keeps of a row.
unfoldable pub view : Channel → Life
unfolding life
view c = life c.status c.lease_expires_at

-- The row with the identifier, which is the primary key.
unfoldable pub find : Text → List Channel → Option Channel
find id [] = none
find id (c ∷ rows) = if has_id id c then some c else find id rows

-- What the tasks of the process call.
pub data Call : Type 0 where
  claim_at : ℕ → Call
  run_now : Text → Call
  take_off_shelf : Text → Call
  finish : (ℕ → ℕ) → FailureConfig → Run → Text → ℕ → Fetched → Call

unfoldable pub call : Call → Tables → Tables
call (claim_at now) db = record db { channels = (claim_one_due now db.channels).0 }
call (run_now id) db = record db { channels = (enqueue_run_now id db.channels).0 }
call (take_off_shelf id) db = record db { channels = (unshelve id db.channels).0 }
call (finish jitter cfg run id started answer) db =
    (run_backfill_for jitter cfg run id started answer db).0

unfoldable pub calls : List Call → Tables → Tables
unfolding call
calls [] db = db
calls (c ∷ cs) db = calls cs (call c db)

-- Who may be taken at a time: a channel that waits, or one that was held until then at most.
pub data IsFree (now : ℕ) : Life → Type 0 where
  waits : IsFree now waiting
  lapsed : (until : ℕ) → until ≤ now → IsFree now (held (some until))

-- The specification of one channel: which call may change it, and how. A claim is the only way
-- into the hold of a worker, and takes a free channel; nothing but the shelf's own call or a
-- worker's outcome for this channel ends the parking; an outcome releases or parks.
pub data Move (id : Text) : Call → Life → Life → Type 0 where
  stays : (c : Call) (l : Life) → Move id c l l
  taken :
      (now : ℕ) (l : Life)
      → IsFree now l
      → Move id (claim_at now) l (held (some (now + lease_secs)))
  unparked : Move id (take_off_shelf id) parked waiting
  released :
      (jitter : ℕ → ℕ) (cfg : FailureConfig) (run : Run) (started : ℕ) (answer : Fetched) (l : Life)
      → Move id (finish jitter cfg run id started answer) l waiting
  shelved_by :
      (jitter : ℕ → ℕ) (cfg : FailureConfig) (run : Run) (started : ℕ) (err : Text) (l : Life)
      → Move id (finish jitter cfg run id started (fetch_failed err)) l parked

-- The moves along a list of calls.
pub data Trace (id : Text) : List Call → Life → Life → Type 0 where
  stop : (l : Life) → Trace id [] l l
  step :
      (c : Call) (cs : List Call) (l m n : Life)
      → Move id c l m
      → Trace id cs m n
      → Trace id (c ∷ cs) l n
