-- ===== src/Backfill/Run.antt =====
-- One run of a claimed channel: `run_backfill_for` of src/services/channel_backfill.rs. What yt-dlp
-- answers is a parameter; the prefetch of thumbnails that it starts is left out.
use hometube.Prelude.{
  ℕ, suc, ◌≡◌, ◌⊎◌, refl, Bool, true, false, Bool-cases, Option-cases, inl, inr, Option, none, some,
  List, arith, leb,
}
use hometube.Prelude.Text.{Text}
use hometube.Prelude.Sql.{All, All-any, All-update}
use hometube.Backfill.Queue.{Channel, pending, shelved, has_id}
use hometube.Backfill.Failure.{
  FailureConfig, Outcome, recorded, notified, row_missing, is_not_found_error, errors_of, retry,
  retry_row, shelve, back_off, not_found, record_failure,
}
use hometube.Backfill.Apply.{FlatPlaylistEntry, Tables, Run, completed, apply_backfill_entries}

-- What `flat_playlist_channel` returns.
pub data Fetched : Type 0 where
  fetched : List FlatPlaylistEntry → Fetched
  fetch_failed : Text → Fetched

is_ok : Outcome → Bool
is_ok recorded = true
is_ok notified = true
is_ok row_missing = false

unfoldable pub after_failure : Tables → List Channel × Outcome → Tables × Bool
unfolding is_ok
after_failure db out = (record db { channels = out.0 }, is_ok out.1)

is_some : Option (List Text) → Bool
is_some none = false
is_some (some videos) = true

-- The tables after the run, and whether it returns `Ok`.
unfoldable pub run_backfill_for :
    (ℕ → ℕ) → FailureConfig → Run → Text → ℕ → Fetched → Tables → Tables × Bool
unfolding after_failure is_some
run_backfill_for jitter cfg run id started (fetch_failed err) db =
    after_failure db (record_failure jitter cfg run.now id err db.channels)
run_backfill_for jitter cfg run id started (fetched entries) db =
    let out = apply_backfill_entries run id started entries db in (out.0, is_some out.1)

-- The row holds no lease, and waits or is on the shelf.
abbrev pub IsReleased : Channel → Type 0
IsReleased c = (c.lease_expires_at ≡ none) × ((c.status ≡ pending) ⊎ (c.status ≡ shelved))

retry_row-IsReleased :
    (jitter : ℕ → ℕ) (cfg : FailureConfig) (now : ℕ) (err : Text) (attempt : ℕ) (c : Channel)
    → IsReleased (retry_row jitter cfg now err attempt c)
unfolding retry_row shelve back_off
retry_row-IsReleased jitter cfg now err attempt c =
    elim (Bool-cases (leb cfg.max_consecutive_errors_before_shelve attempt)) [
      | inl full ↦ rw full (refl, inr refl)
      | inr room ↦ rw room (refl, inl refl)
    ]

missing_fails :
    (jitter : ℕ → ℕ) (cfg : FailureConfig) (now : ℕ) (id err : Text) (rows : List Channel)
    → is_not_found_error err ≡ false
    → errors_of id rows ≡ none
    → is_ok (record_failure jitter cfg now id err rows).1 ≡ false
unfolding record_failure retry is_ok
missing_fails jitter cfg now id err rows other missing = rw (other, missing) refl

record_failure-IsReleased :
    (jitter : ℕ → ℕ) (cfg : FailureConfig) (now : ℕ) (id err : Text) (rows : List Channel)
    → is_ok (record_failure jitter cfg now id err rows).1 ≡ true
    → All (λ c. has_id id c ≡ true → IsReleased c) (record_failure jitter cfg now id err rows).0
unfolding record_failure retry not_found is_ok
record_failure-IsReleased jitter cfg now id err rows ok =
    elim (Bool-cases (is_not_found_error err)) [
      | inl gone ↦ rw gone (
          All-update {P = λ c. Unit} {Q = λ c. has_id id c ≡ true → IsReleased c} (has_id id)
            (not_found now) rows (λ c any on key. (refl, inr refl))
            (λ c any off key. absurd (cc (off, key))) (All-any rows))
      | inr other ↦ elim (Option-cases (errors_of id rows)) [
        | inl missing ↦ absurd (cc (ok, missing_fails jitter cfg now id err rows other missing))
        | inr (errors, found) ↦
            rw (other, found)
              (All-update {P = λ c. Unit} {Q = λ c. has_id id c ≡ true → IsReleased c} (has_id id)
                (retry_row jitter cfg now err (suc errors)) rows
                (λ c any on key. retry_row-IsReleased jitter cfg now err (suc errors) c)
                (λ c any off key. absurd (cc (off, key))) (All-any rows))
      ]
    ]

-- A run that returns `Ok`, whether yt-dlp failed or not, releases the channel's lease: its rows are
-- pending again or on the shelf, and none stays `running`.
pub run_backfill_for-IsReleased :
    (jitter : ℕ → ℕ) (cfg : FailureConfig) (run : Run) (id : Text) (started : ℕ) (answer : Fetched)
    (db : Tables)
    → (run_backfill_for jitter cfg run id started answer db).1 ≡ true
    → All
        (λ c. has_id id c ≡ true → IsReleased c)
        (run_backfill_for jitter cfg run id started answer db).0.channels
unfolding run_backfill_for after_failure is_some apply_backfill_entries completed
run_backfill_for-IsReleased jitter cfg run id started (fetch_failed err) db ok =
    record_failure-IsReleased jitter cfg run.now id err db.channels ok
run_backfill_for-IsReleased jitter cfg run id started (fetched entries) db ok =
    elim (Bool-cases run.commits) [
      | inr off ↦ absurd (ground arith)
      | inl on ↦ elim (Bool-cases run.updates) [
        | inr off ↦ absurd (ground arith)
        | inl both ↦
            rw (on, both)
              (All-update {P = λ c. Unit} {Q = λ c. has_id id c ≡ true → IsReleased c} (has_id id) _
                db.channels (λ c any here key. (refl, inl refl))
                (λ c any there key. absurd (cc (there, key))) (All-any db.channels))
      ]
    ]
