-- ===== src/Tests/Backfill.antt =====
-- The theorems about the backfill of src/services/channel_backfill.rs, at concrete inputs.
use hometube.Prelude.{ℕ, ◌+◌, ◌≤◌, ◌<◌, ◌≡◌, refl, true, false, none, some, List, [], ◌∷◌, arith}
use hometube.Prelude.Sql.{All, Member, count, exists, select, update, delete}
use hometube.Prelude.Text.{Text, codes, text_eq}
use hometube.Access.{Entry}
use hometube.Backfill.Queue.{Channel, pending, is_due, first_due, has_id, lease, claim_one_due}
use hometube.Backfill.Claim.{claim_one_due-exclusive, claim_one_due-recovers}
use hometube.Backfill.Failure.{
  FailureConfig, record_failure, recorded, row_missing, contains, starts_with, to_ascii_lowercase,
  is_not_found_error, backoff_for_attempt, retry_outcome, retry, errors_of,
}
use hometube.Backfill.Retry.{record_failure-quiet}
use hometube.Backfill.Apply.{
  FlatPlaylistEntry, ChannelVideo, backfill, Tables, Run, observed, is_channel_video,
  apply_backfill_entries,
}
use hometube.Backfill.Tombstones.{apply_backfill_entries-observed, apply_backfill_entries-vanished}
use hometube.Backfill.Run.{fetch_failed, run_backfill_for, IsReleased, run_backfill_for-IsReleased}
use hometube.Backfill.Allowlist.{
  is_allowlisted, reconcile_with_allowlist, reconcile_with_allowlist-channels,
}

-- What the tests compute with.
program : Unit {0}
unfolding run_backfill_for claim_one_due first_due is_due has_id lease text_eq update count exists
    select delete observed record_failure contains starts_with to_ascii_lowercase is_not_found_error
    retry errors_of retry_outcome
program = tt

abbrev a : Text
a = codes "a"

abbrev channel : Text → ℕ → Channel
channel id next = record {
  channel_id = id;
  status = pending;
  next_at = next;
  lease_expires_at = none;
  last_sidecar_fallback_at = none;
  last_started_at = none;
  last_attempted_at = none;
  last_completed_at = none;
  last_error = none;
  consecutive_errors = 0;
  videos_observed_total = 0;
  videos_new_last_run = 0;
  videos_removed_last_run = 0;
}

abbrev queue : List Channel
queue = channel (codes "late") 90 ∷ channel a 50 ∷ channel (codes "future") 500 ∷ []

claims_a : (claim_one_due 100 queue).1 ≡ some a
unfolding program
claims_a = refl

abbrev idle : List Channel
idle = channel (codes "future") 500 ∷ []

claims_none : (claim_one_due 100 idle).1 ≡ none
unfolding program
claims_none = refl

claim_one_due-exclusive_example :
    All (λ d. has_id a d ≡ true → is_due 2000 d ≡ false) (claim_one_due 100 queue).0
claim_one_due-exclusive_example = claim_one_due-exclusive 100 2000 queue a claims_a (omega arith)

claim_one_due-recovers_example :
    (d : Channel) × Member d (claim_one_due 100 queue).0
    × (d.channel_id ≡ a)
    × (is_due 2200 d ≡ true)
claim_one_due-recovers_example = claim_one_due-recovers 100 2200 queue a claims_a (omega arith)

abbrev cfg : FailureConfig
cfg = record {
  max_consecutive_errors_before_shelve = 2;
  notify_on_shelve = true;
  min_gap_between_channels = 30;
}

abbrev exactly : ℕ → ℕ
exactly n = n

abbrev message : Text
message = codes "HTTP Error 503"

records : (record_failure exactly cfg 100 a message queue).1 ≡ recorded
unfolding program
records = refl

records_row : (record_failure exactly cfg 100 a message queue).1 ≡ row_missing → false ≡ true
records_row e = cc (records, e)

record_failure-quiet_example :
    All
      (λ d.
        has_id a d ≡ true
        → is_due 120 d ≡ true
        → (d.status ≡ pending)
          × (100 + backoff_for_attempt exactly d.consecutive_errors 30 ≤ 120)
          × (d.consecutive_errors < 2))
      (record_failure exactly cfg 100 a message queue).0
record_failure-quiet_example = record_failure-quiet exactly cfg 100 120 a message queue records_row

abbrev entry : Text → FlatPlaylistEntry
entry video = record {
  video_id = video;
  title = none;
  duration = none;
  upload_date = none;
  view_count = none;
}

abbrev seen : Text → ChannelVideo
seen video = record {
  channel_id = a;
  video_id = video;
  published_at = none;
  published_raw = none;
  view_count = none;
  first_seen_at = 10;
  last_seen_at = 10;
  source = backfill;
  is_deleted = false;
}

abbrev tables : Tables
tables = record {
  channels = queue;
  channel_videos = seen (codes "old") ∷ seen (codes "kept") ∷ [];
  videos = [];
}

abbrev run : Run
run = record {
  now = 100;
  upload_time = λ raw. none;
  round = exactly;
  jittered_interval = 1000;
  commits = true;
  updates = true;
}

abbrev entries : List FlatPlaylistEntry
entries = entry (codes "kept") ∷ entry (codes "new") ∷ []

observes_new : observed entries (codes "new") ≡ true
unfolding program
observes_new = refl

apply_backfill_entries-observed_example :
    All
      (λ r. is_channel_video a (codes "new") r ≡ true → r.is_deleted ≡ false)
      (apply_backfill_entries run a 100 entries tables).0.channel_videos
    × (exists
          (is_channel_video a (codes "new"))
          (apply_backfill_entries run a 100 entries tables).0.channel_videos
        ≡ true)
apply_backfill_entries-observed_example =
    apply_backfill_entries-observed run a 100 entries tables (codes "new") refl observes_new

apply_backfill_entries-vanished_example :
    All
      (λ r.
        text_eq r.channel_id a ≡ true
        → observed entries r.video_id ≡ false
        → r.first_seen_at < 100
        → r.is_deleted ≡ true)
      (apply_backfill_entries run a 100 entries tables).0.channel_videos
apply_backfill_entries-vanished_example =
    apply_backfill_entries-vanished run a 100 entries tables refl

abbrev allowlist : List Entry
allowlist = record { child_account_id = 1; id = a } ∷ []

reconcile_with_allowlist-channels_example :
    ((id : Text)
      → exists (has_id id) (reconcile_with_allowlist true allowlist tables).0.channels
        ≡ is_allowlisted allowlist id)
    × All
        (λ r. is_allowlisted allowlist r.channel_id ≡ true)
        (reconcile_with_allowlist true allowlist tables).0.channel_videos
reconcile_with_allowlist-channels_example = reconcile_with_allowlist-channels allowlist tables

runs : (run_backfill_for exactly cfg run a 100 (fetch_failed message) tables).1 ≡ true
unfolding program
runs = refl

run_backfill_for-IsReleased_example :
    All
      (λ c. has_id a c ≡ true → IsReleased c)
      (run_backfill_for exactly cfg run a 100 (fetch_failed message) tables).0.channels
run_backfill_for-IsReleased_example =
    run_backfill_for-IsReleased exactly cfg run a 100 (fetch_failed message) tables runs
