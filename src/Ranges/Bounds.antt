-- ===== src/Ranges/Bounds.antt =====
-- How large the memo of src/services/segment_ranges.rs grows, and that a failed write is retried.
use hometube.Prelude.{
  ℕ, ◌≤◌, ◌<◌, ◌≡◌, refl, ◌∙◌, true, none, some, List, ◌∷◌, ◌++◌, arith, leb, Bool-cases,
  Option-cases, inl, inr, length,
}
use hometube.Prelude.Text.{Text, text_eq_refl}
use hometube.Prelude.Assoc.{
  Assoc, get, insert, remove, get-insert, get-remove, length-insert, length-insert_present,
  length-remove,
}
use hometube.Ranges.Memo.{
  PersistState, in_flight, persisted, claim_set, commit, abort, is_known, make_room, is_writing,
  max_tracked_videos,
}
use hometube.Ranges.Published.{Reach, start, begins, commits, aborts}

length-make_room : (m : Assoc PersistState) → length (make_room m) < max_tracked_videos
unfolding make_room
length-make_room m = elim (Bool-cases (leb max_tracked_videos (length m))) [
  | inl full ↦ rw full (omega arith)
  | inr room ↦ rw room (ground arith)
]

length-claim_set :
    (v : Text) (fp : ℕ) (m : Assoc PersistState)
    → length m ≤ max_tracked_videos
    → length (claim_set v fp m).0 ≤ max_tracked_videos
unfolding claim_set
length-claim_set v fp m h = elim (Bool-cases (is_known fp (get v m))) [
  | inl known ↦ rw known h
  | inr fresh ↦
      rw fresh (omega (arith, length-make_room m, length-insert v (in_flight fp) (make_room m)))
]

length-commit :
    (v : Text) (token : ℕ) (m : Assoc PersistState) → length (commit v token m) ≤ length m
unfolding commit is_writing
length-commit v token m = elim (Option-cases (get v m)) [
  | inl missing ↦ rw missing (omega arith)
  | inr (s, found) ↦ elim (Bool-cases (is_writing token (get v m))) [
    | inl writing ↦ rw writing (length-insert_present v (persisted token) s m found)
    | inr idle ↦ rw idle (omega arith)
  ]
]

length-abort : (v : Text) (token : ℕ) (m : Assoc PersistState) → length (abort v token m) ≤ length m
unfolding abort
length-abort v token m = elim (Bool-cases (is_writing token (get v m))) [
  | inl writing ↦ rw writing (length-remove v m)
  | inr idle ↦ rw idle (omega arith)
]

-- Wherever the memo's calls lead, it tracks at most 4096 videos.
pub Reach-length :
    (m : Assoc PersistState) (pending written : List (Text × ℕ))
    → Reach m pending written
    → length m ≤ max_tracked_videos
Reach-length m pending written start = omega arith
Reach-length m pending written (begins v fp token old waiting log before claimed) =
    length-claim_set v fp old (Reach-length old waiting log before)
Reach-length m pending written (commits v token before after old log earlier) = omega (
  arith,
  length-commit v token old,
  Reach-length old (before ++ ((v, token) ∷ after)) log earlier,
)
Reach-length m pending written (aborts v token before after old log earlier) =
    omega (
      arith,
      length-abort v token old,
      Reach-length old (before ++ ((v, token) ∷ after)) log earlier,
    )

claimed-get :
    (v : Text) (fp token : ℕ) (m : Assoc PersistState)
    → (claim_set v fp m).1 ≡ some token
    → get v (claim_set v fp m).0 ≡ some (in_flight fp)
unfolding claim_set
claimed-get v fp token m e = elim (Bool-cases (is_known fp (get v m))) [
  | inl known ↦ absurd (ground arith)
  | inr fresh ↦ rw fresh (get-insert v v (in_flight fp) (make_room m) ∙ rw (text_eq_refl v) refl)
]

module _ (v : Text) (fp : ℕ) (m : Assoc PersistState) (flight : get v m ≡ some (in_flight fp)) where
  claim_set-in_flight : (claim_set v fp m).1 ≡ none
  unfolding claim_set is_known
  claim_set-in_flight =
      let known : is_known fp (get v m) ≡ true = rw flight (ground arith) in rw known refl

  writing : is_writing fp (get v m) ≡ true
  unfolding is_writing
  writing = rw flight (ground arith)

  claim_set-commit : (claim_set v fp (commit v fp m)).1 ≡ none
  unfolding claim_set commit is_known
  claim_set-commit =
      let now : get v (insert v (persisted fp) m) ≡ some (persisted fp) =
        get-insert v v (persisted fp) m ∙ rw (text_eq_refl v) refl in
      let known : is_known fp (get v (insert v (persisted fp) m)) ≡ true = rw now (ground arith) in
      rw (writing, known) refl

  claim_set-abort : (claim_set v fp (abort v fp m)).1 ≡ some fp
  unfolding claim_set abort is_known
  claim_set-abort =
      let now : get v (remove v m) ≡ none = get-remove v v m ∙ rw (text_eq_refl v) refl in
      rw (writing, now) refl

-- A set that was claimed and not superseded is claimed no second time, until its write fails: then
-- the next request gets a token for it again.
pub claim_set-retry :
    (v : Text) (fp token : ℕ) (m : Assoc PersistState)
    → (claim_set v fp m).1 ≡ some token
    → ((claim_set v fp (claim_set v fp m).0).1 ≡ none)
      × ((claim_set v fp (commit v fp (claim_set v fp m).0)).1 ≡ none)
      × ((claim_set v fp (abort v fp (claim_set v fp m).0)).1 ≡ some fp)
claim_set-retry v fp token m e =
    let new = (claim_set v fp m).0 in
    let flight = claimed-get v fp token m e in
    (
      claim_set-in_flight v fp new flight,
      claim_set-commit v fp new flight,
      claim_set-abort v fp new flight,
    )
