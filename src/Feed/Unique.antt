-- ===== src/Feed/Unique.antt =====
-- How many rows of `channels` the claim of src/services/feed_cache.rs takes: of each channel one.
use hometube.Prelude.{
  ℕ, zero, suc, ◌≤◌, ◌≡◌, refl, sym, ap, ◌∙◌, Bool, true, false, Bool-cases, inl, inr, List, [],
  ◌∷◌, ◌+◌, map, if◌then◌else◌, take, length, leb, arith,
}
use hometube.Prelude.Text.{Text, text_eq, text_eq_refl, text_eq_comm, text_eq_iff}
use hometube.Prelude.Sql.{All, Member, count, count-none, exists, select}
use hometube.Feed.Sources.{Source, insert_source, order_by_next_poll, among, claimed_source}

abbrev pub has_id : Text → Source → Bool
has_id id s = text_eq id s.channel_id

-- The primary key of `channels`.
abbrev pub UniqueChannels : List Source → Type 0
UniqueChannels rows = (id : Text) → count (has_id id) rows ≤ 1

module _ (test : Source → Bool) where
  pub count-take : (n : ℕ) (rows : List Source) → count test (take n rows) ≤ count test rows
  unfolding count
  count-take zero rows = omega arith
  count-take (suc n) [] = omega arith
  count-take (suc n) (s ∷ rows) = omega (arith, count-take n rows)

  count-insert_source :
      (s : Source) (rows : List Source) → count test (insert_source s rows) ≡ count test (s ∷ rows)
  unfolding count insert_source
  count-insert_source s [] = refl
  count-insert_source s (t ∷ rows) = elim (Bool-cases (leb s.rss_next_poll_at t.rss_next_poll_at)) [
    | inl on ↦ rw on refl
    | inr off ↦ rw off (omega (arith, count-insert_source s rows))
  ]

  pub count-order : (rows : List Source) → count test (order_by_next_poll rows) ≡ count test rows
  unfolding count order_by_next_poll
  count-order [] = refl
  count-order (s ∷ rows) =
      count-insert_source s (order_by_next_poll rows) ∙ omega (arith, count-order rows)

  pub count-select :
      (p : Source → Bool) (rows : List Source) → count test (select p rows) ≤ count test rows
  unfolding count select
  count-select p [] = omega arith
  count-select p (s ∷ rows) = elim (Bool-cases (p s)) [
    | inl on ↦ rw on (omega (arith, count-select p rows))
    | inr off ↦ rw off (omega (arith, count-select p rows))
  ]

  pub length-select : (rows : List Source) → length (select test rows) ≡ count test rows
  unfolding count select
  length-select [] = refl
  length-select (s ∷ rows) = elim (Bool-cases (test s)) [
    | inl on ↦ rw on (omega (arith, length-select rows))
    | inr off ↦ rw off (omega (arith, length-select rows))
  ]

length-insert_source :
    (s : Source) (rows : List Source) → length (insert_source s rows) ≡ suc (length rows)
unfolding insert_source
length-insert_source s [] = refl
length-insert_source s (t ∷ rows) = elim (Bool-cases (leb s.rss_next_poll_at t.rss_next_poll_at)) [
  | inl on ↦ rw on refl
  | inr off ↦ rw off (omega (arith, length-insert_source s rows))
]

pub length-order : (rows : List Source) → length (order_by_next_poll rows) ≡ length rows
unfolding order_by_next_poll
length-order [] = refl
length-order (s ∷ rows) =
    length-insert_source s (order_by_next_poll rows) ∙ omega (arith, length-order rows)

count-Member :
    (test : Source → Bool) (s : Source) (rows : List Source)
    → Member s rows
    → test s ≡ true
    → 1 ≤ count test rows
unfolding count
count-Member test s [] m on = absurd (cc)
count-Member test s (x ∷ rows) (inl here) on =
    let same : test x ≡ true = ap test (sym here) ∙ on in rw same (omega arith)
count-Member test s (x ∷ rows) (inr later) on = omega (arith, count-Member test s rows later on)

-- Two rows of one id are one row.
pub unique-eq :
    (rows : List Source) (s t : Source)
    → count (has_id t.channel_id) rows ≤ 1
    → Member s rows
    → Member t rows
    → text_eq t.channel_id s.channel_id ≡ true
    → s ≡ t
unfolding count
unique-eq [] s t one m k e = absurd (cc)
unique-eq (x ∷ rows) s t one (inl here) (inl there) e = here ∙ sym there
unique-eq (x ∷ rows) s t one (inl here) (inr k) e =
    let same : has_id t.channel_id x ≡ true = ap (has_id t.channel_id) (sym here) ∙ e in
    let more = count-Member (has_id t.channel_id) t rows k (text_eq_refl t.channel_id) in
    absurd (ground (arith, one, same, more))
unique-eq (x ∷ rows) s t one (inr m) (inl there) e =
    let same : has_id t.channel_id x ≡ true =
      ap (has_id t.channel_id) (sym there) ∙ text_eq_refl t.channel_id in
    let more = count-Member (has_id t.channel_id) s rows m e in
    absurd (ground (arith, one, same, more))
unique-eq (x ∷ rows) s t one (inr m) (inr k) e = unique-eq rows s t (omega (arith, one)) m k e

abbrev pub ids_of : List Source → List Text
ids_of cs = map (λ (s : Source). s.channel_id) cs

pub among-Member :
    (id : Text) (cs : List Source)
    → among (ids_of cs) id ≡ true
    → (c : Source) × Member c cs × (text_eq c.channel_id id ≡ true)
unfolding among exists
among-Member id [] on = absurd (cc)
among-Member id (c ∷ cs) on = elim (Bool-cases (text_eq c.channel_id id)) [
  | inl here ↦ (c, inl refl, here)
  | inr other ↦ let (d, m, e) = among-Member id cs (ground (arith, on, other)) in (d, inr m, e)
]

among-none :
    (id : Text) (cs : List Source) → count (has_id id) cs ≤ 0 → among (ids_of cs) id ≡ false
unfolding among exists count
among-none id [] none_left = refl
among-none id (c ∷ cs) none_left =
    ground
      (arith, none_left, among-none id cs (omega (arith, none_left)), text_eq_comm id c.channel_id)

count-sum :
    (r p q : Source → Bool) (rows : List Source)
    → ((s : Source) → (if r s then 1 else 0) ≡ (if p s then 1 else 0) + (if q s then 1 else 0))
    → count r rows ≡ count p rows + count q rows
unfolding count
count-sum r p q [] each = refl
count-sum r p q (s ∷ rows) each = omega (arith, each s, count-sum r p q rows each)

-- A channel that the rest lacks counts for itself.
among-apart :
    (c : Source) (cs : List Source) (s : Source)
    → among (ids_of cs) c.channel_id ≡ false
    → (if claimed_source (ids_of (c ∷ cs)) s then 1 else 0)
      ≡ (if has_id c.channel_id s then 1 else 0) + (if claimed_source (ids_of cs) s then 1 else 0)
unfolding claimed_source among exists
among-apart c cs s alone = elim (Bool-cases (text_eq c.channel_id s.channel_id)) [
  | inl here ↦
      let same : c.channel_id ≡ s.channel_id = (text_eq_iff c.channel_id s.channel_id).0 here in
      let off : among (ids_of cs) s.channel_id ≡ false =
        ap (among (ids_of cs)) (sym same) ∙ alone in
      ground (arith, here, off)
  | inr other ↦ ground (arith, other)
]

-- Of rows that are in the table and have different ids, the table has each once.
pub count-among :
    (rows cs : List Source)
    → UniqueChannels rows
    → UniqueChannels cs
    → All (λ c. Member c rows) cs
    → count (claimed_source (ids_of cs)) rows ≡ length cs
unfolding claimed_source among exists count
count-among rows [] unique apart all = count-none (λ s. false) rows (λ s. refl)
count-among rows (c ∷ cs) unique apart all =
    let one = count-Member (has_id c.channel_id) c rows all.0 (text_eq_refl c.channel_id) in
    let rest = count-among rows cs unique (λ id. omega (arith, apart id)) all.1 in
    let alone : among (ids_of cs) c.channel_id ≡ false =
      among-none c.channel_id cs (ground (arith, apart c.channel_id, text_eq_refl c.channel_id)) in
    count-sum _ (has_id c.channel_id) (claimed_source (ids_of cs)) rows
      (λ s. among-apart c cs s alone)
    ∙ omega (arith, unique c.channel_id, one, rest)
