-- ===== src/Feed/Child/Order.antt =====
-- The order of the feed of src/services/feed_cache.rs, and what its windows keep: of each video the
-- row that comes first.
use hometube.Prelude.{◌≡◌, ◌⊎◌, ◌∙◌, refl, true, false, List, [], ◌∷◌, arith, Bool-cases, inl, inr}
use hometube.Prelude.Text.{text_eq, text_eq_comm, text_eq_iff, text_eq_refl}
use hometube.Prelude.Sql.{All, All-map, Member, Member-All, exists}
use hometube.Feed.Child.{
  Candidate, comes_first, insert_candidate, newest_first, of_same_video, first_rows,
}

comes_first_refl : (a : Candidate) → comes_first a a ≡ true
unfolding comes_first
comes_first_refl a = ground arith

comes_first_total : (a b : Candidate) → comes_first a b ≡ false → comes_first b a ≡ true
unfolding comes_first
comes_first_total a b e = ground arith

comes_first_trans :
    (a b c : Candidate) → comes_first a b ≡ true → comes_first b c ≡ true → comes_first a c ≡ true
unfolding comes_first
comes_first_trans a b c e f = ground arith

-- Newest first.
abbrev pub IsOrdered : List Candidate → Type 0
IsOrdered [] = Unit
IsOrdered (c ∷ cs) = All (λ d. comes_first c d ≡ true) cs × IsOrdered cs

module _ (P : Candidate → Type 0) where
  insert_candidate-All :
      (c : Candidate) (cs : List Candidate) → P c → All P cs → All P (insert_candidate c cs)
  unfolding insert_candidate
  insert_candidate-All c [] p ps = (p, tt)
  insert_candidate-All c (d ∷ cs) p ps = elim (Bool-cases (comes_first c d)) [
    | inl on ↦ rw on (p, ps)
    | inr off ↦ rw off (ps.0, insert_candidate-All c cs p ps.1)
  ]

  pub newest_first-All : (cs : List Candidate) → All P cs → All P (newest_first cs)
  unfolding newest_first
  newest_first-All [] ps = ps
  newest_first-All (c ∷ cs) ps =
      insert_candidate-All c (newest_first cs) ps.0 (newest_first-All cs ps.1)

  pub first_rows-All : (seen cs : List Candidate) → All P cs → All P (first_rows seen cs)
  unfolding first_rows
  first_rows-All seen [] ps = ps
  first_rows-All seen (c ∷ cs) ps = elim (Bool-cases (exists (of_same_video c) seen)) [
    | inl old ↦ rw old (first_rows-All (c ∷ seen) cs ps.1)
    | inr new ↦ rw new (ps.0, first_rows-All (c ∷ seen) cs ps.1)
  ]

insert_candidate-IsOrdered :
    (c : Candidate) (cs : List Candidate) → IsOrdered cs → IsOrdered (insert_candidate c cs)
unfolding insert_candidate
insert_candidate-IsOrdered c [] h = (tt, tt)
insert_candidate-IsOrdered c (d ∷ cs) h = elim (Bool-cases (comes_first c d)) [
  | inl on ↦ rw on ((on, All-map (λ x k. comes_first_trans c d x on k) cs h.0), h)
  | inr off ↦ rw off (
    insert_candidate-All (λ x. comes_first d x ≡ true) c cs (comes_first_total c d off) h.0,
    insert_candidate-IsOrdered c cs h.1,
  )
]

pub newest_first-IsOrdered : (cs : List Candidate) → IsOrdered (newest_first cs)
unfolding newest_first
newest_first-IsOrdered [] = tt
newest_first-IsOrdered (c ∷ cs) =
    insert_candidate-IsOrdered c (newest_first cs) (newest_first-IsOrdered cs)

insert_candidate-Member :
    (c d : Candidate) (cs : List Candidate)
    → (d ≡ c) ⊎ Member d cs
    → Member d (insert_candidate c cs)
unfolding insert_candidate
insert_candidate-Member c d [] m = m
insert_candidate-Member c d (e ∷ cs) m = elim (Bool-cases (comes_first c e)) [
  | inl on ↦ rw on m
  | inr off ↦ rw off (elim m [
    | inl here ↦ inr (insert_candidate-Member c d cs (inl here))
    | inr (inl first) ↦ inl first
    | inr (inr later) ↦ inr (insert_candidate-Member c d cs (inr later))
  ])
]

pub newest_first-Member :
    (d : Candidate) (cs : List Candidate) → Member d cs → Member d (newest_first cs)
unfolding newest_first
newest_first-Member d [] m = m
newest_first-Member d (c ∷ cs) m =
    insert_candidate-Member c d (newest_first cs)
      (elim m [ inl here ↦ inl here | inr later ↦ inr (newest_first-Member d cs later) ])

-- No two rows of one video.
abbrev pub Differs : Candidate → Candidate → Type 0
Differs c d = text_eq c.video_id d.video_id ≡ false

abbrev pub IsDistinct : List Candidate → Type 0
IsDistinct [] = Unit
IsDistinct (c ∷ cs) = All (Differs c) cs × IsDistinct cs

insert_candidate-IsDistinct :
    (c : Candidate) (cs : List Candidate)
    → All (Differs c) cs
    → IsDistinct cs
    → IsDistinct (insert_candidate c cs)
unfolding insert_candidate
insert_candidate-IsDistinct c [] h k = (tt, tt)
insert_candidate-IsDistinct c (d ∷ cs) h k = elim (Bool-cases (comes_first c d)) [
  | inl on ↦ rw on (h, k)
  | inr off ↦ rw off (
    insert_candidate-All (Differs d) c cs (text_eq_comm d.video_id c.video_id ∙ h.0) k.0,
    insert_candidate-IsDistinct c cs h.1 k.1,
  )
]

pub newest_first-IsDistinct : (cs : List Candidate) → IsDistinct cs → IsDistinct (newest_first cs)
unfolding newest_first
newest_first-IsDistinct [] h = h
newest_first-IsDistinct (c ∷ cs) h =
    insert_candidate-IsDistinct c (newest_first cs) (newest_first-All (Differs c) cs h.0)
      (newest_first-IsDistinct cs h.1)

first_rows-unseen :
    (seen cs : List Candidate)
    → All (λ c. exists (of_same_video c) seen ≡ false) (first_rows seen cs)
unfolding first_rows exists
first_rows-unseen seen [] = tt
first_rows-unseen seen (c ∷ cs) =
    let rest =
      All-map {P = λ d. exists (of_same_video d) (c ∷ seen) ≡ false}
        {Q = λ d. exists (of_same_video d) seen ≡ false} (λ d h. ground (arith, h))
        (first_rows (c ∷ seen) cs) (first_rows-unseen (c ∷ seen) cs) in
    elim (Bool-cases (exists (of_same_video c) seen)) [
      | inl old ↦ rw old rest
      | inr new ↦ rw new (new, rest)
    ]

pub first_rows-IsDistinct : (seen cs : List Candidate) → IsDistinct (first_rows seen cs)
unfolding first_rows exists of_same_video
first_rows-IsDistinct seen [] = tt
first_rows-IsDistinct seen (c ∷ cs) =
    let rest = first_rows-IsDistinct (c ∷ seen) cs in
    let differ =
      All-map {P = λ d. exists (of_same_video d) (c ∷ seen) ≡ false} {Q = Differs c}
        (λ d h. ground (arith, h)) (first_rows (c ∷ seen) cs) (first_rows-unseen (c ∷ seen) cs) in
    elim (Bool-cases (exists (of_same_video c) seen)) [
      | inl old ↦ rw old rest
      | inr new ↦ rw new (differ, rest)
    ]

reaches-same :
    (seen cs : List Candidate) (c e : Candidate)
    → text_eq e.video_id c.video_id ≡ true
    → comes_first e c ≡ true
    → (exists (of_same_video c) seen ≡ true)
      ⊎ ((d : Candidate) × Member d (first_rows seen (e ∷ cs))
          × (d.video_id ≡ c.video_id)
          × (comes_first d c ≡ true))
unfolding first_rows of_same_video
reaches-same seen cs c e same first =
    let video : e.video_id ≡ c.video_id = (text_eq_iff e.video_id c.video_id).0 same in
    elim (Bool-cases (exists (of_same_video e) seen)) [
      | inl old ↦ inl (rw (← video) old)
      | inr new ↦ inr (e, rw new (inl refl), video, first)
    ]

-- Behind the window every row has one of its video that comes first, unless one was seen before.
first_rows-reaches :
    (seen cs : List Candidate) (c : Candidate)
    → IsOrdered cs
    → Member c cs
    → (exists (of_same_video c) seen ≡ true)
      ⊎ ((d : Candidate) × Member d (first_rows seen cs)
          × (d.video_id ≡ c.video_id)
          × (comes_first d c ≡ true))
unfolding first_rows exists of_same_video
first_rows-reaches seen [] c ordered m = absurd (cc)
first_rows-reaches seen (e ∷ cs) c ordered (inl here) =
    reaches-same seen cs c e (rw here (text_eq_refl e.video_id)) (rw here (comes_first_refl e))
first_rows-reaches seen (e ∷ cs) c ordered (inr later) =
    elim (Bool-cases (text_eq e.video_id c.video_id)) [
      | inl same ↦
          reaches-same seen cs c e same
            (Member-All (λ x. comes_first e x ≡ true) c cs later ordered.0)
      | inr other ↦ elim (first_rows-reaches (e ∷ seen) cs c ordered.1 later) [
        | inl old ↦ inl (ground (arith, old, other))
        | inr (d, m, same, first) ↦ inr (d, member d m, same, first)
      ]
    ]
  where
    member :
        (d : Candidate) → Member d (first_rows (e ∷ seen) cs) → Member d (first_rows seen (e ∷ cs))
    member d m = elim (Bool-cases (exists (of_same_video e) seen)) [
      | inl old ↦ rw old m
      | inr new ↦ rw new (inr m)
    ]

-- Every row has a row of its video in the window that comes first among them.
pub first_rows-first :
    (cs : List Candidate) (c : Candidate)
    → IsOrdered cs
    → Member c cs
    → (d : Candidate) × Member d (first_rows [] cs)
      × (d.video_id ≡ c.video_id)
      × (comes_first d c ≡ true)
unfolding exists
first_rows-first cs c ordered m = elim (first_rows-reaches [] cs c ordered m) [
  | inl none ↦ absurd (cc)
  | inr found ↦ found
]
