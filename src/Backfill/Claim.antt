-- ===== src/Backfill/Claim.antt =====
-- What a claim of the queue of src/services/channel_backfill.rs promises: `claim_one_due`.
use hometube.Prelude.{
  ℕ, ◌+◌, ◌≤◌, ◌<◌, ◌≡◌, true, false, inl, inr, Option-cases, none, some, List, arith,
}
use hometube.Prelude.Sql.{All, All-any, All-update, Member, Member-update, update}
use hometube.Prelude.Text.{Text, text_eq_refl}
use hometube.Backfill.Queue.{
  Channel, is_due, first_due, first_due-lem, first_due-none, first_due-Member, has_id, lease,
  claim_one_due, lease_secs,
}

-- A claim that returns an identifier took a row of the table with it, which is due and is as early
-- as every row that is due, and leased that row and every other with its identifier.
pub claim_one_due-first :
    (now : ℕ) (rows : List Channel) (id : Text)
    → (claim_one_due now rows).1 ≡ some id
    → (c : Channel) × Member c rows
      × (c.channel_id ≡ id)
      × (is_due now c ≡ true)
      × All (λ d. is_due now d ≡ true → c.next_at ≤ d.next_at) rows
      × ((claim_one_due now rows).0 ≡ update (has_id id) (lease now) rows)
unfolding claim_one_due
claim_one_due-first now rows id e = elim (Option-cases (first_due now rows)) [
  | inl empty ↦ absurd (ground arith)
  | inr (c, found) ↦
      let same : c.channel_id ≡ id = ground arith in
      let lem = first_due-lem now rows c found in
      (c, first_due-Member now rows c found, same, lem.0, lem.1, ground arith)
]

-- A claim returns no identifier only if no row is due, and then changes no row.
pub claim_one_due-none :
    (now : ℕ) (rows : List Channel)
    → (claim_one_due now rows).1 ≡ none
    → All (λ d. is_due now d ≡ false) rows × ((claim_one_due now rows).0 ≡ rows)
unfolding claim_one_due
claim_one_due-none now rows e = elim (Option-cases (first_due now rows)) [
  | inl empty ↦ (first_due-none now rows empty, ground arith)
  | inr (c, found) ↦ absurd (ground arith)
]

leased-busy : (now t : ℕ) (d : Channel) → t < now + lease_secs → is_due t (lease now d) ≡ false
unfolding is_due lease
leased-busy now t d k = ground arith

-- Until the lease of a claim ends, no row with the claimed identifier is due, so that no other
-- claim takes the channel.
pub claim_one_due-exclusive :
    (now t : ℕ) (rows : List Channel) (id : Text)
    → (claim_one_due now rows).1 ≡ some id
    → t < now + lease_secs
    → All (λ d. has_id id d ≡ true → is_due t d ≡ false) (claim_one_due now rows).0
unfolding has_id
claim_one_due-exclusive now t rows id e k =
    let first = claim_one_due-first now rows id e in
    rw first.5 (
      All-update {P = λ d. Unit} (has_id id) (lease now) rows
        (λ d any on other. leased-busy now t d k) (λ d any off on. absurd (cc)) (All-any rows))

cooled-later :
    (now t : ℕ) (c : Channel)
    → is_due now c ≡ true
    → now + lease_secs ≤ t
    → is_due t (lease now c) ≡ true
unfolding is_due lease
cooled-later now t c e k = elim (Option-cases c.last_sidecar_fallback_at) [
  | inl never ↦ ground arith
  | inr (last, at) ↦ ground arith
]

-- A worker that stops without an outcome loses the channel to a later claim: from the end of the
-- lease on, a row with the claimed identifier is due.
pub claim_one_due-recovers :
    (now t : ℕ) (rows : List Channel) (id : Text)
    → (claim_one_due now rows).1 ≡ some id
    → now + lease_secs ≤ t
    → (d : Channel) × Member d (claim_one_due now rows).0
      × (d.channel_id ≡ id)
      × (is_due t d ≡ true)
unfolding has_id lease
claim_one_due-recovers now t rows id e k =
    let first = claim_one_due-first now rows id e in
    let (c, member, same, due, least, table) = first in
    let found : has_id id c ≡ true = rw same (text_eq_refl id) in
    (
      lease now c,
      rw table (Member-update (has_id id) (lease now) c rows member found),
      same,
      cooled-later now t c due k,
    )
