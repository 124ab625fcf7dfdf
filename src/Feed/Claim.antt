-- ===== src/Feed/Claim.antt =====
-- The claims of the feed refresher: `claim_due_sources` of src/services/feed_cache.rs.
use Prim.Native.Nat.{min}
use mathlib.Core.Path.{subst}
use hometube.Prelude.{
  ℕ, ◌≤◌, ◌<◌, ◌≡◌, refl, sym, ap, ◌∙◌, Bool, true, false, Bool-cases, inl, inr, List, [], ◌∷◌, map,
  take, length, length-take, length-map, map, leb, arith,
}
use hometube.Prelude.Text.{Text, text_eq, text_eq_refl, text_eq_iff}
use hometube.Prelude.Sql.{
  All, All-any, All-map, All-update, Member, Member-All, count, exists, select,
}
use hometube.Prelude.Queries.{All-Member, select-All, take-All, select-Member, map-Member, map-All}
use hometube.Feed.Sources.{
  Source, is_due_source, order_by_next_poll, due_ids, among, claimed_source, leased_until,
  saturating_add, claim_due_sources,
}
use hometube.Feed.Unique.{
  UniqueChannels, has_id, count-take, count-order, count-select, length-select, length-order,
  unique-eq, among-Member, count-among,
}
use hometube.Feed.Due.{
  order_by_next_poll-All, order_by_next_poll-IsOrdered, order_by_next_poll-Member, Member-among,
  beyond,
}

leased-busy :
    (until t : ℕ) (s : Source) → t < until → is_due_source t (leased_until until s) ≡ false
unfolding is_due_source leased_until
leased-busy until t s h = ground arith

module _ (now limit : ℕ) (rows : List Source) where
  -- The rows of the inner SELECT.
  abbrev pub chosen : List Source
  chosen = take limit (order_by_next_poll (select (is_due_source now) rows))

  chosen-All : All (λ (s : Source). Member s rows × (is_due_source now s ≡ true)) chosen
  chosen-All = take-All _ limit _ (
      order_by_next_poll-All _ _
        (select-All (λ s. Member s rows) (is_due_source now) rows (All-Member rows)))

  due-beyond :
      (s : Source)
      → Member s rows
      → is_due_source now s ≡ true
      → claimed_source (due_ids now limit rows) s ≡ false
      → All (λ (t : Source). t.rss_next_poll_at ≤ s.rss_next_poll_at) chosen
  unfolding claimed_source due_ids
  due-beyond s m due off =
      elim (beyond limit s (order_by_next_poll (select (is_due_source now) rows))
        (order_by_next_poll-IsOrdered _)
        (order_by_next_poll-Member s _ (select-Member (is_due_source now) s rows m due))) [
          | inl in_chosen ↦ absurd (
              cc (
                Member-among s.channel_id _
                  (map-Member (λ (x : Source). x.channel_id) s chosen in_chosen)))
          | inr all ↦ all
        ]

  -- The channels of the chosen rows differ.
  chosen-UniqueChannels : UniqueChannels rows → UniqueChannels chosen
  chosen-UniqueChannels unique id =
      let due = select (is_due_source now) rows in
      omega (
        arith,
        unique id,
        count-take (has_id id) limit (order_by_next_poll due),
        count-order (has_id id) due,
        count-select (has_id id) (is_due_source now) rows,
      )

  -- A row that is claimed is chosen.
  claimed-chosen :
      (s : Source)
      → UniqueChannels rows
      → Member s rows
      → claimed_source (due_ids now limit rows) s ≡ true
      → Member s chosen
  unfolding claimed_source due_ids
  claimed-chosen s unique m on =
      let (c, in_chosen, e) = among-Member s.channel_id chosen on in
      let there =
        Member-All (λ (x : Source). Member x rows × (is_due_source now x ≡ true)) c chosen in_chosen
          chosen-All in
      let same = unique-eq rows s c (unique c.channel_id) m there.0 e in
      subst (λ x. Member x chosen) (sym same) in_chosen

  claimed-length :
      UniqueChannels rows
      → count (claimed_source (due_ids now limit rows)) rows
        ≡ min limit (count (is_due_source now) rows)
  unfolding due_ids
  claimed-length unique =
      let due = select (is_due_source now) rows in
      count-among rows chosen unique (chosen-UniqueChannels unique)
        (All-map (λ s h. h.0) chosen chosen-All)
      ∙ omega (
        arith,
        length-take limit (order_by_next_poll due),
        length-order due,
        length-select (is_due_source now) rows,
      )

Member-exists :
    (u : Source) (rows : List Source) (r : Source)
    → Member r rows
    → text_eq r.channel_id u.channel_id ≡ true
    → exists (λ (x : Source). text_eq x.channel_id u.channel_id) rows ≡ true
unfolding exists
Member-exists u [] r m e = absurd (cc)
Member-exists u (x ∷ rows) r (inl here) e =
    let same : text_eq x.channel_id u.channel_id ≡ true =
      ap (λ (y : Source). text_eq y.channel_id u.channel_id) (sym here) ∙ e in
    rw same refl
Member-exists u (x ∷ rows) r (inr later) e = ground (arith, Member-exists u rows r later e)

-- A row of the channel is among those that a claim returns.
unfoldable pub is_returned : List Source → Source → Bool
is_returned claimed s = exists (λ (r : Source). text_eq r.channel_id s.channel_id) claimed

module _ (ids : List Text) (until : ℕ) where
  -- What the UPDATE returns.
  abbrev updated : List Source → List Source
  updated rows = map (leased_until until) (select (claimed_source ids) rows)

  updated-claimed :
      (u : Source) (rows : List Source)
      → is_returned (updated rows) u ≡ true
      → claimed_source ids u ≡ true
  unfolding is_returned leased_until select exists claimed_source
  updated-claimed u [] on = absurd (cc)
  updated-claimed u (s ∷ rows) on = elim (Bool-cases (among ids s.channel_id)) [
    | inr off ↦ updated-claimed u rows (rw off at on)
    | inl taken ↦ elim (Bool-cases (text_eq s.channel_id u.channel_id)) [
      | inl here ↦ ap (among ids) (sym ((text_eq_iff s.channel_id u.channel_id).0 here)) ∙ taken
      | inr other ↦ updated-claimed u rows (rw (taken, other) at on)
    ]
  ]

  claimed-updated :
      (u : Source) (rows : List Source)
      → Member u rows
      → claimed_source ids u ≡ true
      → is_returned (updated rows) u ≡ true
  unfolding is_returned leased_until exists
  claimed-updated u rows m on =
      Member-exists u (updated rows) (leased_until until u)
        (map-Member (leased_until until) u (select (claimed_source ids) rows)
          (select-Member (claimed_source ids) u rows m on))
        (text_eq_refl u.channel_id)

-- The row is what the claim makes of a row of the table that was due, and no due row that the claim
-- leaves comes before that one.
abbrev pub IsFirstDue : ℕ → ℕ → List Source → List Source → Source → Type 0
IsFirstDue now until rows claimed r =
    (s : Source) × Member s rows
    × (s.rss_next_poll_at ≤ now)
    × (r ≡ record s { rss_next_poll_at = until })
    × All
        (λ (u : Source).
          u.rss_next_poll_at ≤ now
          → is_returned claimed u ≡ false
          → s.rss_next_poll_at ≤ u.rss_next_poll_at)
        rows

module _ (now limit until : ℕ) (rows : List Source) (unique : UniqueChannels rows) where
  abbrev ids : List Text
  ids = due_ids now limit rows

  first-due :
      (s : Source)
      → Member s rows
      → claimed_source ids s ≡ true
      → IsFirstDue now until rows (updated ids until rows) (leased_until until s)
  unfolding leased_until is_due_source
  first-due s m on =
      let in_chosen = claimed-chosen now limit rows s unique m on in
      let due =
        Member-All (λ (x : Source). Member x rows × (is_due_source now x ≡ true)) s
          (chosen now limit rows) in_chosen (chosen-All now limit rows) in
      (
        s,
        m,
        ground (arith, due.1),
        refl,
        All-map {P = λ (u : Source). Member u rows}
            (λ (u : Source) there early left.
              Member-All (λ (t : Source). t.rss_next_poll_at ≤ u.rss_next_poll_at) s
                (chosen now limit rows) in_chosen
                (due-beyond now limit rows u there (ground arith) (unclaimed u there left)))
            rows (All-Member rows),
      )
    where
      unclaimed :
          (u : Source)
          → Member u rows
          → is_returned (updated ids until rows) u ≡ false
          → claimed_source ids u ≡ false
      unclaimed u there left = elim (Bool-cases (claimed_source ids u)) [
        | inr off ↦ off
        | inl taken ↦ absurd (cc (left, claimed-updated ids until u rows there taken))
      ]

-- Where the channels of the table differ, a claim returns as many rows as are due, up to the limit.
-- Each of them was due, has the end of its lease as its next poll, and comes no later than a due
-- row whose channel is not returned. Until that end no row of a returned channel is due, so that
-- no second claim takes the channel.
pub claim_due_sources-first :
    (now limit lease_secs t : ℕ) (rows : List Source)
    → UniqueChannels rows
    → t < saturating_add now lease_secs
    → let claim = claim_due_sources now limit lease_secs rows in
      (length claim.1 ≡ min limit (count (λ s. leb s.rss_next_poll_at now) rows))
      × All (IsFirstDue now (saturating_add now lease_secs) rows claim.1) claim.1
      × All (λ u. is_returned claim.1 u ≡ true → is_due_source t u ≡ false) claim.0
unfolding claim_due_sources is_due_source
claim_due_sources-first now limit lease_secs t rows unique early =
    let ids = due_ids now limit rows in
    let until = saturating_add now lease_secs in
    let lease = leased_until until in
    (
      length-map (select (claimed_source ids) rows) lease
          ∙ length-select (claimed_source ids) rows
          ∙ claimed-length now limit rows unique,
      map-All (λ s. Member s rows × (claimed_source ids s ≡ true))
          (IsFirstDue now until rows (updated ids until rows)) lease
          (select (claimed_source ids) rows)
          (λ s h. first-due now limit until rows unique s h.0 h.1)
          (select-All (λ s. Member s rows) (claimed_source ids) rows (All-Member rows)),
      All-update {P = λ s. Unit {0}} (claimed_source ids) lease rows
          (λ s any on back. leased-busy until t s early)
          (λ s any off back. absurd (cc (off, updated-claimed ids until s rows back)))
          (All-any rows),
    )
