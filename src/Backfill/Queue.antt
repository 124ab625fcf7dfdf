-- ===== src/Backfill/Queue.antt =====
-- The `channels` table as a queue with leases: `claim_one_due`, `enqueue_run_now` and `unshelve` of
-- src/services/channel_backfill.rs. Times are unix seconds.
use hometube.Prelude.{
  ℕ, ◌+◌, ◌*◌, ◌≤◌, ◌≡◌, ap, ◌∙◌, Bool, true, false, ◌&&◌, Bool-cases, inl, inr, Option,
  Option-cases, none, some, List, [], ◌∷◌, arith, tests, leb, if◌then◌else◌,
}
use hometube.Prelude.Sql.{All, All-map, Member, update, count}
use hometube.Prelude.Text.{Text, text_eq}

pub data Status : Type 0 where
  pending running complete failed shelved : Status

pub record Channel : Type 0 where
  pub channel_id : Text
  pub status : Status
  pub next_at : ℕ
  pub lease_expires_at : Option ℕ
  pub last_sidecar_fallback_at : Option ℕ
  pub last_started_at : Option ℕ
  pub last_attempted_at : Option ℕ
  pub last_completed_at : Option ℕ
  pub last_error : Option Text
  pub consecutive_errors : ℕ
  pub videos_observed_total : ℕ
  pub videos_new_last_run : ℕ
  pub videos_removed_last_run : ℕ

-- `LEASE_SECS` and `SIDECAR_FALLBACK_COOLDOWN_SECS`
abbrev pub lease_secs : ℕ
lease_secs = 30 * 60 + 5 * 60

abbrev pub sidecar_fallback_cooldown_secs : ℕ
sidecar_fallback_cooldown_secs = 60 * 60

-- A column is not NULL and at most `now`.
unfoldable pub elapsed : ℕ → Option ℕ → Bool
elapsed now none = false
elapsed now (some t) = leb t now

unfoldable pub claimable : ℕ → Status → Option ℕ → Bool
unfolding elapsed
claimable now pending lease = true
claimable now running lease = elapsed now lease
claimable now complete lease = false
claimable now failed lease = false
claimable now shelved lease = false

unfoldable pub cooled : ℕ → Option ℕ → Bool
cooled now none = true
cooled now (some t) = leb (t + sidecar_fallback_cooldown_secs) now

-- The WHERE of the claim.
unfoldable pub is_due : ℕ → Channel → Bool
unfolding claimable cooled
is_due now c =
    claimable now c.status c.lease_expires_at
    && (leb c.next_at now && cooled now c.last_sidecar_fallback_at)

-- ORDER BY `next_at` ASC LIMIT 1, among the rows that are due.
earlier : Channel → Option Channel → Channel
earlier c none = c
earlier c (some d) = if leb c.next_at d.next_at then c else d

unfoldable pub first_due : ℕ → List Channel → Option Channel
unfolding earlier
first_due now [] = none
first_due now (c ∷ rows) =
    let rest = first_due now rows in if is_due now c then some (earlier c rest) else rest

unfoldable pub has_id : Text → Channel → Bool
has_id id c = text_eq c.channel_id id

-- The UPDATE of the claim.
unfoldable pub lease : ℕ → Channel → Channel
lease now c = record c {
  status = running;
  last_started_at = some now;
  last_attempted_at = some now;
  lease_expires_at = some (now + lease_secs);
}

unfoldable pub claim : ℕ → List Channel → Option Channel → List Channel × Option Text
claim now rows none = (rows, none)
claim now rows (some c) = (update (has_id c.channel_id) (lease now) rows, some c.channel_id)

unfoldable pub claim_one_due : ℕ → List Channel → List Channel × Option Text
unfolding claim
claim_one_due now rows = claim now rows (first_due now rows)

unfoldable pub can_run_now : Status → Bool
can_run_now pending = true
can_run_now failed = true
can_run_now complete = true
can_run_now running = false
can_run_now shelved = false

unfoldable pub is_shelved : Status → Bool
is_shelved shelved = true
is_shelved pending = false
is_shelved running = false
is_shelved complete = false
is_shelved failed = false

-- The rows, and how many changed.
unfoldable pub enqueue_run_now : Text → List Channel → List Channel × ℕ
unfolding can_run_now
enqueue_run_now id rows =
    let test = λ (c : Channel). has_id id c && can_run_now c.status in
    (update test (λ (c : Channel). record c { next_at = 0 }) rows, count test rows)

unfoldable pub unshelve : Text → List Channel → List Channel × ℕ
unfolding is_shelved
unshelve id rows =
    let test = λ (c : Channel). has_id id c && is_shelved c.status in
    let reset = λ (c : Channel). record c {
      status = pending;
      last_error = none;
      consecutive_errors = 0;
      next_at = 0;
      lease_expires_at = none;
    } in
    (update test reset rows, count test rows)

pub first_due-none :
    (now : ℕ) (rows : List Channel)
    → first_due now rows ≡ none
    → All (λ d. is_due now d ≡ false) rows
unfolding first_due
first_due-none now [] e = tt
first_due-none now (d ∷ rows) e = elim (Bool-cases (is_due now d)) [
  | inr off ↦ (off, first_due-none now rows (ground arith))
  | inl on ↦ absurd (ground arith)
]

-- A row that is due is no earlier than the first that is.
pub first_due-lem :
    (now : ℕ) (rows : List Channel) (c : Channel)
    → first_due now rows ≡ some c
    → (is_due now c ≡ true) × All (λ d. is_due now d ≡ true → c.next_at ≤ d.next_at) rows
unfolding first_due earlier
first_due-lem now [] c e = absurd (cc)
first_due-lem now (d ∷ rows) c e = elim (Bool-cases (is_due now d)) [
  | inr off ↦
      let rec = first_due-lem now rows c (ground arith) in (rec.0, ((λ due. absurd (cc)), rec.1))
  | inl on ↦ elim (Option-cases (first_due now rows)) [
    | inl empty ↦
        let same : c ≡ d = ground arith in
        rw same (
          on,
          (
            (λ due. omega arith),
            All-map (λ x off due. absurd (cc)) rows (first_due-none now rows empty),
          ),
        )
    | inr (b, found) ↦
        let rec = first_due-lem now rows b found in
        elim (Bool-cases (leb d.next_at b.next_at)) [
          | inl le ↦
              let same : c ≡ d = ground arith in
              rw same (
                on,
                (
                  (λ due. omega arith),
                  All-map
                      (λ x least due.
                        omega (tests, le, least due, ap (λ (y : Channel). y.next_at) same))
                      rows rec.1,
                ),
              )
          | inr gt ↦
              let same : c ≡ b = ground arith in
              let later : b.next_at ≤ d.next_at = ground arith in
              rw same (
                rec.0,
                (
                  (λ due. later),
                  All-map
                      (λ x least due.
                        omega (tests, least due, ap (λ (y : Channel). y.next_at) same))
                      rows rec.1,
                ),
              )
        ]
  ]
]

pub first_due-Member :
    (now : ℕ) (rows : List Channel) (c : Channel) → first_due now rows ≡ some c → Member c rows
unfolding first_due earlier
first_due-Member now [] c e = absurd (cc)
first_due-Member now (d ∷ rows) c e = elim (Bool-cases (is_due now d)) [
  | inr off ↦ inr (first_due-Member now rows c (ground arith))
  | inl on ↦ elim (Option-cases (first_due now rows)) [
    | inl empty ↦ inl (ground arith)
    | inr (b, found) ↦ elim (Bool-cases (leb d.next_at b.next_at)) [
      | inl le ↦ inl (ground arith)
      | inr gt ↦
          let same : b ≡ c = ground arith in
          inr (first_due-Member now rows c (found ∙ ap some same))
    ]
  ]
]
