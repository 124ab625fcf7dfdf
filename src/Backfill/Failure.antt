-- ===== src/Backfill/Failure.antt =====
-- What a failed run does to its channel: `record_failure`, `is_not_found_error`,
-- `is_bot_check_error` and `backoff_for_attempt` of src/services/channel_backfill.rs. The random
-- jitter is a parameter: what it makes of a number of seconds.
use hometube.Prelude.{
  ℕ, suc, ◌+◌, ◌*◌, ◌^◌, Bool, true, false, ◌&&◌, ◌||◌, Option, none, some, List, [], ◌∷◌, leb,
  if◌then◌else◌,
}
use hometube.Prelude.Text.{Text, codes}
use hometube.Prelude.Sql.{update}
use hometube.Backfill.Queue.{Channel, pending, shelved, has_id}

-- `to_ascii_lowercase`, of one code point and of all.
ascii_lower : ℕ → ℕ
ascii_lower c = if leb 65 c && leb c 90 then c + 32 else c

unfoldable pub to_ascii_lowercase : Text → Text
unfolding ascii_lower
to_ascii_lowercase [] = []
to_ascii_lowercase (c ∷ s) = ascii_lower c ∷ to_ascii_lowercase s

same_code : ℕ → ℕ → Bool
same_code a b = leb a b && leb b a

unfoldable pub starts_with : Text → Text → Bool
unfolding same_code
starts_with s [] = true
starts_with [] (d ∷ t) = false
starts_with (c ∷ s) (d ∷ t) = same_code c d && starts_with s t

unfoldable pub contains : Text → Text → Bool
contains [] t = starts_with [] t
contains (c ∷ s) t = starts_with (c ∷ s) t || contains s t

unfoldable pub is_not_found_error : Text → Bool
is_not_found_error err =
    let lower = to_ascii_lowercase err in
    contains lower (codes "channel does not exist")
    || (contains lower (codes "this channel was terminated")
        || (contains lower (codes "http error 404")
            || (contains lower (codes " 404 ")
                || (contains lower (codes "status 404") || contains lower (codes "returned 404")))))

unfoldable pub is_bot_check_error : Text → Bool
is_bot_check_error err =
    let lower = to_ascii_lowercase err in
    contains lower (codes "sign in to confirm")
    || (contains lower (codes "consent.youtube.com")
        || (contains lower (codes "captcha")
            || (contains lower (codes "http error 403")
                || (contains lower (codes "http error 429")
                    || (contains lower (codes "status 403")
                        || (contains lower (codes "status 429")
                            || (contains lower (codes "rate-limit")
                                || contains lower (codes "rate limit"))))))))

-- `MAX_BACKOFF`
abbrev pub max_backoff : ℕ
max_backoff = 24 * 60 * 60

unfoldable pub lesser : ℕ → ℕ → ℕ
lesser a b = if leb a b then a else b

unfoldable pub clamp : ℕ → ℕ → ℕ → ℕ
clamp low high n = if leb n low then low else (if leb high n then high else n)

-- The target of `backoff_for_attempt` before the jitter.
unfoldable pub capped_backoff : ℕ → ℕ → ℕ
unfolding lesser clamp
capped_backoff attempt interval = lesser (interval * 2 ^ clamp 1 16 attempt) max_backoff

unfoldable pub backoff_for_attempt : (ℕ → ℕ) → ℕ → ℕ → ℕ
backoff_for_attempt jitter attempt interval = jitter (capped_backoff attempt interval)

-- The fields of `BackfillConfig` that a failure reads.
pub record FailureConfig : Type 0 where
  pub max_consecutive_errors_before_shelve : ℕ
  pub notify_on_shelve : Bool
  pub min_gap_between_channels : ℕ

-- The three UPDATEs.
unfoldable pub not_found : ℕ → Channel → Channel
not_found now c = record c {
  status = shelved;
  last_error = some (codes "channel_not_found");
  lease_expires_at = none;
  next_at = now + 365 * 24 * 60 * 60;
}

unfoldable pub shelve : Text → ℕ → Channel → Channel
shelve err attempt c = record c {
  status = shelved;
  last_error = some err;
  consecutive_errors = attempt;
  lease_expires_at = none;
}

unfoldable pub back_off : Text → ℕ → ℕ → Channel → Channel
back_off err attempt next c = record c {
  status = pending;
  last_error = some err;
  consecutive_errors = attempt;
  next_at = next;
  lease_expires_at = none;
}

-- The outcome of a call: it fails where the channel has no row.
pub data Outcome : Type 0 where
  recorded notified row_missing : Outcome

-- `SELECT backfill_consecutive_errors … WHERE channel_id = ?`
unfoldable pub errors_of : Text → List Channel → Option ℕ
errors_of id [] = none
errors_of id (c ∷ rows) = if has_id id c then some c.consecutive_errors else errors_of id rows

-- What the next attempt does to a row.
unfoldable pub retry_row : (ℕ → ℕ) → FailureConfig → ℕ → Text → ℕ → Channel → Channel
retry_row jitter cfg now err attempt c =
    if leb cfg.max_consecutive_errors_before_shelve attempt
    then shelve err attempt c
    else back_off err attempt
        (now + backoff_for_attempt jitter attempt cfg.min_gap_between_channels) c

unfoldable pub retry_outcome : FailureConfig → ℕ → Outcome
retry_outcome cfg attempt =
    if leb cfg.max_consecutive_errors_before_shelve attempt && cfg.notify_on_shelve
    then notified
    else recorded

unfoldable pub retry :
    (ℕ → ℕ) → FailureConfig → ℕ → Text → Text → List Channel → Option ℕ → List Channel × Outcome
retry jitter cfg now id err rows none = (rows, row_missing)
retry jitter cfg now id err rows (some errors) = (
  update (has_id id) (retry_row jitter cfg now err (suc errors)) rows,
  retry_outcome cfg (suc errors),
)

unfoldable pub record_failure :
    (ℕ → ℕ) → FailureConfig → ℕ → Text → Text → List Channel → List Channel × Outcome
unfolding retry errors_of
record_failure jitter cfg now id err rows =
    if is_not_found_error err
    then (update (has_id id) (not_found now) rows, recorded)
    else retry jitter cfg now id err rows (errors_of id rows)
