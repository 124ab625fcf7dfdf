-- ===== src/Feed/Due.antt =====
-- The order in which the claim of src/services/feed_cache.rs takes due channels.
use hometube.Prelude.{
  ℕ, zero, suc, ◌≤◌, ◌≡◌, ◌⊎◌, refl, true, Bool-cases, inl, inr, List, [], ◌∷◌, take, leb, arith,
}
use hometube.Prelude.Text.{Text, text_eq, text_eq_refl}
use hometube.Prelude.Sql.{All, All-map, Member, Member-All, exists}
use hometube.Feed.Sources.{Source, insert_source, order_by_next_poll, among}

module _ (P : Source → Type 0) where
  insert_source-All :
      (s : Source) (rows : List Source) → P s → All P rows → All P (insert_source s rows)
  unfolding insert_source
  insert_source-All s [] p ps = (p, tt)
  insert_source-All s (t ∷ rows) p ps =
      elim (Bool-cases (leb s.rss_next_poll_at t.rss_next_poll_at)) [
        | inl on ↦ rw on (p, ps)
        | inr off ↦ rw off (ps.0, insert_source-All s rows p ps.1)
      ]

  pub order_by_next_poll-All : (rows : List Source) → All P rows → All P (order_by_next_poll rows)
  unfolding order_by_next_poll
  order_by_next_poll-All [] ps = ps
  order_by_next_poll-All (s ∷ rows) ps =
      insert_source-All s (order_by_next_poll rows) ps.0 (order_by_next_poll-All rows ps.1)

-- The rows in the order of their polls.
abbrev pub IsOrdered : List Source → Type 0
IsOrdered [] = Unit
IsOrdered (s ∷ rows) =
    All (λ (t : Source). s.rss_next_poll_at ≤ t.rss_next_poll_at) rows × IsOrdered rows

insert_source-IsOrdered :
    (s : Source) (rows : List Source) → IsOrdered rows → IsOrdered (insert_source s rows)
unfolding insert_source
insert_source-IsOrdered s [] h = (tt, tt)
insert_source-IsOrdered s (t ∷ rows) h =
    elim (Bool-cases (leb s.rss_next_poll_at t.rss_next_poll_at)) [
      | inl on ↦ rw on (
        (
          ground arith,
          All-map {P = λ (x : Source). t.rss_next_poll_at ≤ x.rss_next_poll_at}
              {Q = λ (x : Source). s.rss_next_poll_at ≤ x.rss_next_poll_at}
              (λ x k. ground (arith, k, on)) rows h.0,
        ),
        h,
      )
      | inr off ↦ rw off (
        insert_source-All (λ x. t.rss_next_poll_at ≤ x.rss_next_poll_at) s rows (ground arith) h.0,
        insert_source-IsOrdered s rows h.1,
      )
    ]

pub order_by_next_poll-IsOrdered : (rows : List Source) → IsOrdered (order_by_next_poll rows)
unfolding order_by_next_poll
order_by_next_poll-IsOrdered [] = tt
order_by_next_poll-IsOrdered (s ∷ rows) =
    insert_source-IsOrdered s (order_by_next_poll rows) (order_by_next_poll-IsOrdered rows)

insert_source-Member :
    (s t : Source) (rows : List Source) → (t ≡ s) ⊎ Member t rows → Member t (insert_source s rows)
unfolding insert_source
insert_source-Member s t [] m = m
insert_source-Member s t (u ∷ rows) m =
    elim (Bool-cases (leb s.rss_next_poll_at u.rss_next_poll_at)) [
      | inl on ↦ rw on m
      | inr off ↦ rw off (elim m [
        | inl here ↦ inr (insert_source-Member s t rows (inl here))
        | inr (inl first) ↦ inl first
        | inr (inr later) ↦ inr (insert_source-Member s t rows (inr later))
      ])
    ]

pub order_by_next_poll-Member :
    (t : Source) (rows : List Source) → Member t rows → Member t (order_by_next_poll rows)
unfolding order_by_next_poll
order_by_next_poll-Member t [] m = m
order_by_next_poll-Member t (s ∷ rows) m =
    insert_source-Member s t (order_by_next_poll rows)
      (elim m [ inl here ↦ inl here | inr later ↦ inr (order_by_next_poll-Member t rows later) ])

pub Member-among : (id : Text) (ids : List Text) → Member id ids → among ids id ≡ true
unfolding among exists
Member-among id [] m = absurd (cc)
Member-among id (i ∷ ids) (inl here) = rw (here, text_eq_refl i) refl
Member-among id (i ∷ ids) (inr later) = elim (Bool-cases (text_eq i id)) [
  | inl on ↦ rw on refl
  | inr off ↦ rw off (Member-among id ids later)
]

-- Of rows in order, one that the first rows miss is no earlier than any of them.
pub beyond :
    (n : ℕ) (t : Source) (rows : List Source)
    → IsOrdered rows
    → Member t rows
    → Member t (take n rows)
      ⊎ All (λ (s : Source). s.rss_next_poll_at ≤ t.rss_next_poll_at) (take n rows)
beyond zero t rows h m = inr tt
beyond (suc n) t [] h m = absurd (cc)
beyond (suc n) t (s ∷ rows) h (inl here) = inl (inl here)
beyond (suc n) t (s ∷ rows) h (inr later) = elim (beyond n t rows h.1 later) [
  | inl m ↦ inl (inr m)
  | inr all ↦
      inr
        (Member-All (λ (x : Source). s.rss_next_poll_at ≤ x.rss_next_poll_at) t rows later h.0, all)
]
