-- ===== src/Backfill/Lifecycle/Moves.antt =====
-- The operations of src/services/channel_backfill.rs on the tables implement the moves of one channel.
use hometube.Prelude.{
  ℕ, suc, ◌+◌, ◌≡◌, refl, sym, ◌∙◌, Bool, true, ◌⊎◌, Bool-cases, Option-cases, inl, inr, Option,
  none, some, List, [], ◌∷◌, arith, leb, length,
}
use hometube.Prelude.Text.{Text, text_eq_iff}
use hometube.Prelude.Sql.{update, count}
use hometube.Backfill.Queue.{
  Status, Channel, pending, running, complete, failed, shelved, has_id, is_due, claimable, elapsed,
  is_shelved, first_due, first_due-lem, first_due-Member, lease, claim, claim_one_due,
  enqueue_run_now, unshelve,
}
use hometube.Backfill.Failure.{
  FailureConfig, is_not_found_error, errors_of, retry, retry_row, shelve, back_off, not_found,
  record_failure,
}
use hometube.Backfill.Apply.{
  FlatPlaylistEntry, Tables, Run, completed, new_videos, is_vanished, upsert_entries,
  apply_backfill_entries,
}
use hometube.Backfill.Run.{fetched, fetch_failed, run_backfill_for, after_failure}
use hometube.Backfill.Lifecycle.{
  parked, life, view, find, Call, claim_at, run_now, take_off_shelf, finish, call, calls, IsFree,
  Move, Trace,
}
use hometube.Backfill.Lifecycle.Rows.{
  UniqueChannels, KeepsId, update-Unique, update-Move, find-id, find-Member,
}

-- What a call does to the row of a channel, and that the identifiers stay different.
abbrev Follows : Text → Call → Channel → List Channel → Type 0
Follows id op c rows =
    (d : Channel) × (find id rows ≡ some d) × Move id op (view c) (view d) × UniqueChannels rows

same-id :
    (id k : Text) (rows : List Channel) (c : Channel)
    → find id rows ≡ some c
    → has_id k c ≡ true
    → k ≡ id
unfolding has_id
same-id id k rows c found on = sym ((text_eq_iff c.channel_id k).0 on) ∙ find-id id rows c found

update-Follows :
    (id : Text) (op : Call) (test : Channel → Bool) (set : Channel → Channel) (rows : List Channel)
    (c : Channel)
    → UniqueChannels rows
    → find id rows ≡ some c
    → KeepsId set
    → (test c ≡ true → Move id op (view c) (view (set c)))
    → Follows id op c (update test set rows)
update-Follows id op test set rows c unique found keep moves =
    let moved = update-Move id op test set rows c found keep moves in
    (moved.0, moved.1, moved.2, update-Unique test set rows keep unique)

nothing-Follows :
    (id : Text) (op : Call) (rows : List Channel) (c : Channel)
    → UniqueChannels rows
    → find id rows ≡ some c
    → Follows id op c rows
nothing-Follows id op rows c unique found = (c, found, Move.stays op (view c), unique)

due-IsFree :
    (now : ℕ) (s : Status) (lease : Option ℕ)
    → claimable now s lease ≡ true
    → IsFree now (life s lease)
unfolding claimable elapsed life
due-IsFree now pending lease h = IsFree.waits
due-IsFree now running none h = absurd (cc)
due-IsFree now running (some t) h = IsFree.lapsed t (ground arith)
due-IsFree now complete lease h = absurd (cc)
due-IsFree now failed lease h = absurd (cc)
due-IsFree now shelved lease h = absurd (cc)

parked_of : (s : Status) (lease : Option ℕ) → is_shelved s ≡ true → life s lease ≡ parked
unfolding is_shelved life
parked_of shelved lease h = refl
parked_of pending lease h = absurd (cc)
parked_of running lease h = absurd (cc)
parked_of complete lease h = absurd (cc)
parked_of failed lease h = absurd (cc)

lease-Move :
    (id : Text) (now : ℕ) (c : Channel)
    → is_due now c ≡ true
    → Move id (claim_at now) (view c) (view (lease now c))
unfolding view life lease is_due
lease-Move id now c h =
    Move.taken now (life c.status c.lease_expires_at)
      (due-IsFree now c.status c.lease_expires_at (ground arith))

unshelve-Move :
    (id k : Text) (c d : Channel)
    → k ≡ id
    → is_shelved c.status ≡ true
    → d.status ≡ pending
    → Move id (take_off_shelf k) (view c) (view d)
unfolding view life
unshelve-Move id k c d same h e =
    rw (same, parked_of c.status c.lease_expires_at h, e) Move.unparked

claim-Follows :
    (id : Text) (now : ℕ) (rows : List Channel) (c : Channel)
    → UniqueChannels rows
    → find id rows ≡ some c
    → Follows id (claim_at now) c (claim_one_due now rows).0
unfolding claim_one_due claim
claim-Follows id now rows c unique found = elim (Option-cases (first_due now rows)) [
  | inl nothing ↦ rw nothing (nothing-Follows id (claim_at now) rows c unique found)
  | inr (b, first) ↦ rw first (
      update-Follows id (claim_at now) (has_id b.channel_id) (lease now) rows c unique found
        (unfold lease in λ d. refl)
        (λ on.
          let same = same-id id b.channel_id rows c found on in
          let only : c ≡ b =
            find-Member id rows b c unique (first_due-Member now rows b first) same found in
          lease-Move id now c (rw only (first_due-lem now rows b first).0)))
]

unshelve-Follows :
    (id k : Text) (rows : List Channel) (c : Channel)
    → UniqueChannels rows
    → find id rows ≡ some c
    → Follows id (take_off_shelf k) c (unshelve k rows).0
unfolding unshelve
unshelve-Follows id k rows c unique found =
    update-Follows id (take_off_shelf k) _ _ rows c unique found (λ d. refl)
      (λ on.
        let same : k ≡ id = same-id id k rows c found (ground arith) in
        unshelve-Move id k c _ same (ground arith) refl)

run_now-Follows :
    (id k : Text) (rows : List Channel) (c : Channel)
    → UniqueChannels rows
    → find id rows ≡ some c
    → Follows id (run_now k) c (enqueue_run_now k rows).0
unfolding enqueue_run_now view
run_now-Follows id k rows c unique found =
    update-Follows id (run_now k) _ _ rows c unique found (λ d. refl)
      (λ on. Move.stays (run_now k) (view c))

retry_row-Move :
    (id : Text) (jitter : ℕ → ℕ) (cfg : FailureConfig) (run : Run) (started : ℕ) (err : Text)
    (attempt : ℕ) (c : Channel)
    → Move id
        (finish jitter cfg run id started (fetch_failed err))
        (view c)
        (view (retry_row jitter cfg run.now err attempt c))
unfolding retry_row shelve back_off view life
retry_row-Move id jitter cfg run started err attempt c =
    elim (Bool-cases (leb cfg.max_consecutive_errors_before_shelve attempt)) [
      | inl full ↦ rw full (Move.shelved_by jitter cfg run started err _)
      | inr room ↦ rw room (Move.released jitter cfg run started (fetch_failed err) _)
    ]

retry_row-KeepsId :
    (jitter : ℕ → ℕ) (cfg : FailureConfig) (now : ℕ) (err : Text) (attempt : ℕ)
    → KeepsId (retry_row jitter cfg now err attempt)
unfolding retry_row shelve back_off
retry_row-KeepsId jitter cfg now err attempt c =
    elim (Bool-cases (leb cfg.max_consecutive_errors_before_shelve attempt)) [
      | inl full ↦ rw full refl
      | inr room ↦ rw room refl
    ]

failure-Follows :
    (id k : Text) (jitter : ℕ → ℕ) (cfg : FailureConfig) (run : Run) (started : ℕ) (err : Text)
    (rows : List Channel) (c : Channel)
    → UniqueChannels rows
    → find id rows ≡ some c
    → Follows id
        (finish jitter cfg run k started (fetch_failed err))
        c
        (record_failure jitter cfg run.now k err rows).0
unfolding record_failure retry
failure-Follows id k jitter cfg run started err rows c unique found =
    let op = finish jitter cfg run k started (fetch_failed err) in
    elim (Bool-cases (is_not_found_error err)) [
      | inl gone ↦ rw gone (
          update-Follows id op (has_id k) (not_found run.now) rows c unique found
            (unfold not_found in λ d. refl)
            (λ on. gone-Move id k jitter cfg run started err c (same-id id k rows c found on)))
      | inr other ↦ elim (Option-cases (errors_of k rows)) [
        | inl missing ↦ rw (other, missing) (nothing-Follows id op rows c unique found)
        | inr (errors, known) ↦
            rw (other, known)
              (update-Follows id op (has_id k) (retry_row jitter cfg run.now err (suc errors)) rows
                c unique found (retry_row-KeepsId jitter cfg run.now err (suc errors))
                (λ on.
                  rw (same-id id k rows c found on)
                    (retry_row-Move id jitter cfg run started err (suc errors) c)))
      ]
    ]
  where
    gone-Move :
        (id k : Text) (jitter : ℕ → ℕ) (cfg : FailureConfig) (run : Run) (started : ℕ) (err : Text)
        (c : Channel)
        → k ≡ id
        → Move id
            (finish jitter cfg run k started (fetch_failed err))
            (view c)
            (view (not_found run.now c))
    gone-Move id k jitter cfg run started err c same =
        rw same (unfold not_found view life in Move.shelved_by jitter cfg run started err (view c))

-- A run whose entries are applied writes its row of the queue or leaves the rows as they are.
applied-channels :
    (run : Run) (k : Text) (started : ℕ) (entries : List FlatPlaylistEntry) (db : Tables)
    → ((apply_backfill_entries run k started entries db).0.channels ≡ db.channels)
      ⊎ ((next : ℕ) × (total : ℕ) × (new_count : ℕ) × (removed : ℕ) × ((apply_backfill_entries run k
              started entries db).0.channels
            ≡ update (has_id k) (completed run.now next total new_count removed) db.channels))
unfolding apply_backfill_entries
applied-channels run k started entries db = elim (Bool-cases run.commits) [
  | inr off ↦ inl (rw off refl)
  | inl on ↦ elim (Bool-cases run.updates) [
    | inr off ↦ inl (rw (on, off) refl)
    | inl both ↦ inr (
      run.now + run.jittered_interval,
      length entries,
      length (new_videos k db.channel_videos entries),
      count (is_vanished k started entries)
          (upsert_entries run.upload_time k started entries db.channel_videos),
      rw (on, both) refl,
    )
  ]
]

success-Follows :
    (id k : Text) (jitter : ℕ → ℕ) (cfg : FailureConfig) (run : Run) (started : ℕ)
    (entries : List FlatPlaylistEntry) (db : Tables) (c : Channel)
    → UniqueChannels db.channels
    → find id db.channels ≡ some c
    → Follows id
        (finish jitter cfg run k started (fetched entries))
        c
        (apply_backfill_entries run k started entries db).0.channels
success-Follows id k jitter cfg run started entries db c unique found =
    let op = finish jitter cfg run k started (fetched entries) in
    elim (applied-channels run k started entries db) [
      | inl same ↦ rw same (nothing-Follows id op db.channels c unique found)
      | inr (next, total, new_count, removed, e) ↦ rw e (
          update-Follows id op (has_id k) (completed run.now next total new_count removed)
            db.channels c unique found (unfold completed in λ d. refl)
            (λ here. rw (same-id id k db.channels c found here) (
              unfold completed view life in
              Move.released jitter cfg run started (fetched entries) (view c))))
    ]

call-Follows :
    (id : Text) (op : Call) (db : Tables) (c : Channel)
    → UniqueChannels db.channels
    → find id db.channels ≡ some c
    → Follows id op c (call op db).channels
unfolding call run_backfill_for after_failure
call-Follows id (claim_at now) db c unique found = claim-Follows id now db.channels c unique found
call-Follows id (run_now k) db c unique found = run_now-Follows id k db.channels c unique found
call-Follows id (take_off_shelf k) db c unique found =
    unshelve-Follows id k db.channels c unique found
call-Follows id (finish jitter cfg run k started (fetch_failed err)) db c unique found =
    failure-Follows id k jitter cfg run started err db.channels c unique found
call-Follows id (finish jitter cfg run k started (fetched entries)) db c unique found =
    success-Follows id k jitter cfg run started entries db c unique found

-- Whatever claims, outcomes and calls of a parent follow each other on tables with different
-- identifiers, the row of each channel stays, and its life follows the moves of the specification.
pub calls-Trace :
    (id : Text) (ops : List Call) (db : Tables) (c : Channel)
    → UniqueChannels db.channels
    → find id db.channels ≡ some c
    → (d : Channel) × (find id (calls ops db).channels ≡ some d) × Trace id ops (view c) (view d)
unfolding calls
calls-Trace id [] db c unique found = (c, found, Trace.stop (view c))
calls-Trace id (op ∷ ops) db c unique found =
    let first = call-Follows id op db c unique found in
    let rest = calls-Trace id ops (call op db) first.0 first.3 first.1 in
    (rest.0, rest.1, Trace.step op ops (view c) (view first.0) (view rest.0) first.2 rest.2)
