-- ===== src/Tests/Machines.antt =====
-- The theorems about the loop of the tee writer in src/services/segment_store.rs and about the life of a
-- channel in the queue of src/services/channel_backfill.rs, at concrete inputs.
use hometube.Prelude.{ℕ, ◌≡◌, refl, none, some, List, [], ◌∷◌, arith}
use hometube.Prelude.Text.{Text, codes, text_eq}
use hometube.Backfill.Queue.{Channel, shelved, has_id}
use hometube.Backfill.Apply.{Tables}
use hometube.Backfill.Lifecycle.{Call, claim_at, take_off_shelf, calls, find, view, Trace}
use hometube.Backfill.Lifecycle.Moves.{calls-Trace}
use hometube.Segments.Tee.{Writer, flush_loop, flush_complete_chunks}
use hometube.Segments.Tee.Loop.{IsSettled, flush_loop-terminates}

-- What the tests compute with.
program : Unit {0}
unfolding find has_id text_eq
program = tt

abbrev log : ℕ → List ℕ → List (ℕ × List ℕ) → List (ℕ × List ℕ)
log cn piece done = (cn, piece) ∷ done

-- A writer that starts inside chunk 0 of four bytes and has seen up to byte 9.
abbrev writer : Writer (List (ℕ × List ℕ))
writer = record { buf = 3 ∷ 4 ∷ 5 ∷ 6 ∷ 7 ∷ 8 ∷ 9 ∷ []; position = 9; world = [] }

flush_loop-terminates_example :
    (flush_loop 4 log 50 writer ≡ flush_complete_chunks 4 log writer)
    × IsSettled 4 (flush_complete_chunks 4 log writer)
flush_loop-terminates_example =
    flush_loop-terminates 4 log (omega arith) (omega arith) 50 writer (omega arith, omega arith)
      (omega arith)

abbrev a : Text
a = codes "a"

abbrev channel : Text → Channel
channel id = record {
  channel_id = id;
  status = shelved;
  next_at = 0;
  lease_expires_at = none;
  last_sidecar_fallback_at = none;
  last_started_at = none;
  last_attempted_at = none;
  last_completed_at = none;
  last_error = none;
  consecutive_errors = 9;
  videos_observed_total = 0;
  videos_new_last_run = 0;
  videos_removed_last_run = 0;
}

abbrev tables : Tables
tables = record {
  channels = channel a ∷ channel (codes "b") ∷ [];
  channel_videos = [];
  videos = [];
}

-- A parent takes the channel off the shelf, and a worker claims it.
abbrev ops : List Call
ops = take_off_shelf a ∷ claim_at 100 ∷ claim_at 200 ∷ []

found_a : find a tables.channels ≡ some (channel a)
unfolding program
found_a = refl

calls-Trace_example :
    (d : Channel) × (find a (calls ops tables).channels ≡ some d)
    × Trace a ops (view (channel a)) (view d)
calls-Trace_example =
    calls-Trace a ops tables (channel a) (((λ e. ground arith), tt), (tt, tt)) found_a
