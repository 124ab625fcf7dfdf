-- ===== src/Backfill/Retry.antt =====
-- How failures of src/services/channel_backfill.rs add up: the wait after each, and the shelf.
use hometube.Prelude.{
  ℕ, suc, ◌+◌, ◌*◌, ◌^◌, ◌≤◌, ◌<◌, ◌≡◌, refl, sym, ◌∙◌, true, false, Bool-cases, ◌⊎◌, inl, inr,
  Option-cases, List, [], ◌∷◌, arith, leb, length, if◌then◌else◌,
}
use hometube.Prelude.Text.{Text}
use hometube.Prelude.Sql.{All, All-any, All-update}
use hometube.Backfill.Queue.{Channel, pending, shelved, is_due, has_id, lease}
use hometube.Backfill.Failure.{
  FailureConfig, is_not_found_error, capped_backoff, backoff_for_attempt, max_backoff, not_found,
  shelve, back_off, retry_row, record_failure, row_missing, retry, errors_of, lesser, clamp,
}

double : (interval n : ℕ) → interval * 2 ^ n ≤ interval * 2 ^ suc n
double interval n = let twice : 2 ^ suc n ≡ 2 ^ n + 2 ^ n = omega arith in rw twice (grind arith)

clamp-suc :
    (a : ℕ) → (clamp 1 16 (suc a) ≡ clamp 1 16 a) ⊎ (clamp 1 16 (suc a) ≡ suc (clamp 1 16 a))
unfolding clamp
clamp-suc a = elim (Bool-cases (leb 16 a)) [
  | inl large ↦ inl (ground arith)
  | inr small ↦ elim (Bool-cases (leb a 0)) [
    | inl none_yet ↦ inl (ground arith)
    | inr some_yet ↦ inr (ground arith)
  ]
]

target-suc : (a interval : ℕ) → interval * 2 ^ clamp 1 16 a ≤ interval * 2 ^ clamp 1 16 (suc a)
target-suc a interval = elim (clamp-suc a) [
  | inl same ↦ rw same (omega arith)
  | inr more ↦ rw more (double interval (clamp 1 16 a))
]

lesser_mono : (x y m : ℕ) → x ≤ y → lesser x m ≤ lesser y m
unfolding lesser
lesser_mono x y m h = ground arith

lesser-le : (x m : ℕ) → lesser x m ≤ m
unfolding lesser
lesser-le x m = ground arith

-- The wait before the jitter is at most a day, and does not shrink from one attempt to the next.
pub capped_backoff-bounds :
    (attempt interval : ℕ)
    → (capped_backoff attempt interval ≤ max_backoff)
      × (capped_backoff attempt interval ≤ capped_backoff (suc attempt) interval)
unfolding capped_backoff
capped_backoff-bounds attempt interval = (
  lesser-le (interval * 2 ^ clamp 1 16 attempt) max_backoff,
  lesser_mono _ _ max_backoff (target-suc attempt interval),
)

-- A run of failures of one row, none of which says that the channel is gone: each is claimed at its
-- time, fails, and is recorded.
abbrev pub failures : (ℕ → ℕ) → FailureConfig → List (ℕ × Text) → Channel → Channel
failures jitter cfg [] c = c
failures jitter cfg (f ∷ fs) c =
    failures jitter cfg fs (retry_row jitter cfg f.0 f.1 (suc c.consecutive_errors) (lease f.0 c))

module _ (jitter : ℕ → ℕ) (cfg : FailureConfig) where
  retry_row-errors :
      (now : ℕ) (err : Text) (attempt : ℕ) (c : Channel)
      → (retry_row jitter cfg now err attempt c).consecutive_errors ≡ attempt
  unfolding retry_row shelve back_off
  retry_row-errors now err attempt c =
      elim (Bool-cases (leb cfg.max_consecutive_errors_before_shelve attempt)) [
        | inl full ↦ rw full refl
        | inr room ↦ rw room refl
      ]

  retry_row-status :
      (now : ℕ) (err : Text) (attempt : ℕ) (c : Channel)
      → (retry_row jitter cfg now err attempt c).status
        ≡ (if leb cfg.max_consecutive_errors_before_shelve attempt then shelved else pending)
  unfolding retry_row shelve back_off
  retry_row-status now err attempt c =
      elim (Bool-cases (leb cfg.max_consecutive_errors_before_shelve attempt)) [
        | inl full ↦ rw full refl
        | inr room ↦ rw room refl
      ]

-- After consecutive failures that do not say that the channel is gone, the row counts each of them,
-- and it is on the shelf exactly where the count has reached the limit.
pub failures-shelve :
    (jitter : ℕ → ℕ) (cfg : FailureConfig) (f : ℕ × Text) (fs : List (ℕ × Text)) (c : Channel)
    → ((failures jitter cfg (f ∷ fs) c).consecutive_errors ≡ c.consecutive_errors + suc (length fs))
      × ((failures jitter cfg (f ∷ fs) c).status ≡ (
          if leb cfg.max_consecutive_errors_before_shelve (c.consecutive_errors + suc (length fs))
          then shelved
          else pending))
failures-shelve jitter cfg f [] c =
    let one : c.consecutive_errors + 1 ≡ suc c.consecutive_errors = omega arith in
    (
      retry_row-errors jitter cfg f.0 f.1 (suc c.consecutive_errors) (lease f.0 c) ∙ sym one,
      rw one (retry_row-status jitter cfg f.0 f.1 (suc c.consecutive_errors) (lease f.0 c)),
    )
failures-shelve jitter cfg f (g ∷ fs) c =
    let next = retry_row jitter cfg f.0 f.1 (suc c.consecutive_errors) (lease f.0 c) in
    let errors : next.consecutive_errors ≡ suc c.consecutive_errors =
      retry_row-errors jitter cfg f.0 f.1 (suc c.consecutive_errors) (lease f.0 c) in
    let total : next.consecutive_errors + suc (length fs)
        ≡ c.consecutive_errors + suc (suc (length fs)) =
      omega (arith, errors) in
    let rest = failures-shelve jitter cfg g fs next in (rest.0 ∙ total, rw (sym total) rest.1)

due-wait :
    (next t : ℕ) (err : Text) (attempt : ℕ) (d : Channel)
    → is_due t (back_off err attempt next d) ≡ true
    → next ≤ t
unfolding is_due back_off
due-wait next t err attempt d due = ground arith

retry_row-quiet :
    (jitter : ℕ → ℕ) (cfg : FailureConfig) (now t : ℕ) (err : Text) (attempt : ℕ) (d : Channel)
    → is_due t (retry_row jitter cfg now err attempt d) ≡ true
    → ((retry_row jitter cfg now err attempt d).status ≡ pending)
      × (now
            + backoff_for_attempt jitter
                (retry_row jitter cfg now err attempt d).consecutive_errors
                cfg.min_gap_between_channels
          ≤ t)
      × ((retry_row jitter cfg now err attempt d).consecutive_errors
          < cfg.max_consecutive_errors_before_shelve)
unfolding retry_row is_due shelve back_off
retry_row-quiet jitter cfg now t err attempt d due =
    elim (Bool-cases (leb cfg.max_consecutive_errors_before_shelve attempt)) [
      | inl full ↦ absurd (ground arith)
      | inr room ↦
          let next = now + backoff_for_attempt jitter attempt cfg.min_gap_between_channels in
          let waited : is_due t (back_off err attempt next d) ≡ true = ground (arith, due, room) in
          rw room (refl, due-wait next t err attempt d waited, ground arith)
    ]

-- However a failure of a channel that has a row is recorded, no row of the channel is due again
-- before the wait after this attempt has passed, and none that the failure puts on the shelf is due
-- at all.
pub record_failure-quiet :
    (jitter : ℕ → ℕ) (cfg : FailureConfig) (now t : ℕ) (id err : Text) (rows : List Channel)
    → ((record_failure jitter cfg now id err rows).1 ≡ row_missing → false ≡ true)
    → All
        (λ d.
          has_id id d ≡ true
          → is_due t d ≡ true
          → (d.status ≡ pending)
            × (now + backoff_for_attempt jitter d.consecutive_errors cfg.min_gap_between_channels
                ≤ t)
            × (d.consecutive_errors < cfg.max_consecutive_errors_before_shelve))
        (record_failure jitter cfg now id err rows).0
unfolding record_failure retry is_due not_found
record_failure-quiet jitter cfg now t id err rows ok = elim (Bool-cases (is_not_found_error err)) [
  | inl gone ↦ rw gone (
      All-update {P = λ d. Unit} (has_id id) (not_found now) rows
        (λ d any on found due. absurd (cc)) (λ d any off on due. absurd (cc)) (All-any rows))
  | inr other ↦ elim (Option-cases (errors_of id rows)) [
    | inl missing ↦ absurd (cc (ok (rw (other, missing) refl)))
    | inr (errors, found) ↦
        rw (other, found)
          (All-update {P = λ d. Unit} (has_id id) (retry_row jitter cfg now err (suc errors)) rows
            (λ d any on here due. retry_row-quiet jitter cfg now t err (suc errors) d due)
            (λ d any off on due. absurd (cc)) (All-any rows))
  ]
]
