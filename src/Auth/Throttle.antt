-- ===== src/Auth/Throttle.antt =====
-- `SwitchThrottle` of src/routes/auth.rs: the wrong attempts of each peer. An address is a text, an
-- instant a number of nanoseconds.
use hometube.Prelude.{
  ℕ, ◌+◌, ◌-◌, ◌*◌, ◌≤◌, ◌≡◌, refl, Bool, true, false, Bool-cases, inl, inr, Option, Option-cases,
  none, some, List, [], ◌∷◌, ◌++◌, arith, ltb, leb, length, if◌then◌else◌,
}
use hometube.Prelude.Text.{Text, text_eq, text_eq_refl}
use hometube.Prelude.Assoc.{Assoc, get, insert, remove, get-insert}
use hometube.Prelude.Sql.{select, count}

abbrev pub throttle_max_failures : ℕ
throttle_max_failures = 5

abbrev pub throttle_window : ℕ
throttle_window = 60 * 1000000000

-- `now.duration_since(t) < THROTTLE_WINDOW`; `duration_since` stops at 0.
unfoldable pub in_window : ℕ → ℕ → Bool
in_window now t = ltb (now - t) throttle_window

judge : Text → List ℕ → Assoc (List ℕ) → Assoc (List ℕ) × Bool
judge ip [] failures = (remove ip failures, false)
judge ip (t ∷ times) failures =
    (insert ip (t ∷ times) failures, leb throttle_max_failures (length (t ∷ times)))

check_peer : ℕ → Text → Option (List ℕ) → Assoc (List ℕ) → Assoc (List ℕ) × Bool
unfolding judge
check_peer now ip none failures = (failures, false)
check_peer now ip (some times) failures = judge ip (select (in_window now) times) failures

unfoldable pub is_blocked : ℕ → Text → Assoc (List ℕ) → Assoc (List ℕ) × Bool
unfolding check_peer
is_blocked now ip failures = check_peer now ip (get ip failures) failures

or_default : Option (List ℕ) → List ℕ
or_default none = []
or_default (some times) = times

unfoldable pub record_failure : ℕ → Text → Assoc (List ℕ) → Assoc (List ℕ)
unfolding or_default
record_failure now ip failures =
    insert ip (select (in_window now) (or_default (get ip failures)) ++ (now ∷ [])) failures

-- The wrong attempts of a peer that an instant still counts.
unfoldable pub recent : ℕ → Text → Assoc (List ℕ) → ℕ
unfolding or_default
recent now ip failures = count (in_window now) (or_default (get ip failures))

length-select : (test : ℕ → Bool) (xs : List ℕ) → length (select test xs) ≡ count test xs
unfolding select count
length-select test [] = refl
length-select test (x ∷ xs) = elim (Bool-cases (test x)) [
  | inl on ↦ rw on (omega (arith, length-select test xs))
  | inr off ↦ rw off (omega (arith, length-select test xs))
]

judge-lem :
    (ip : Text) (times : List ℕ) (failures : Assoc (List ℕ))
    → (judge ip times failures).1 ≡ leb throttle_max_failures (length times)
unfolding judge
judge-lem ip [] failures = refl
judge-lem ip (t ∷ times) failures = refl

-- A peer is blocked exactly while at least five of its wrong attempts lie in the window.
pub is_blocked-recent :
    (now : ℕ) (ip : Text) (failures : Assoc (List ℕ))
    → (is_blocked now ip failures).1 ≡ leb throttle_max_failures (recent now ip failures)
unfolding is_blocked check_peer recent or_default count
is_blocked-recent now ip failures = elim (Option-cases (get ip failures)) [
  | inl missing ↦ rw missing refl
  | inr (times, found) ↦
      rw
        (
          found,
          judge-lem ip (select (in_window now) times) failures,
          length-select (in_window now) times,
        )
        refl
]

later-window : (now later t : ℕ) → now ≤ later → in_window later t ≡ true → in_window now t ≡ true
unfolding in_window
later-window now later t h on = ground arith

count-select_later :
    (now later : ℕ) (times : List ℕ)
    → now ≤ later
    → count (in_window later) (select (in_window now) times ++ (now ∷ []))
      ≡ (if in_window later now then 1 else 0) + count (in_window later) times
unfolding select count
count-select_later now later [] h = refl
count-select_later now later (t ∷ times) h =
    let rest = count-select_later now later times h in
    elim (Bool-cases (in_window now t)) [
      | inl on ↦ rw on (omega (arith, rest))
      | inr off ↦
          let gone : in_window later t ≡ false = elim (Bool-cases (in_window later t)) [
            | inl still ↦ absurd (cc (later-window now later t h still, off))
            | inr past ↦ past
          ] in
          rw (off, gone) (omega (arith, rest))
    ]

-- A wrong attempt counts one more for its peer as long as it lies in the window, and forgets none
-- that still counts; the other peers' counts stay.
pub record_failure-recent :
    (now later : ℕ) (ip other : Text) (failures : Assoc (List ℕ))
    → now ≤ later
    → (recent later ip (record_failure now ip failures)
        ≡ (if in_window later now then 1 else 0) + recent later ip failures)
      × (text_eq ip other ≡ false
          → recent later other (record_failure now ip failures) ≡ recent later other failures)
unfolding recent record_failure or_default
record_failure-recent now later ip other failures h =
    let own =
      get-insert ip ip (select (in_window now) (or_default (get ip failures)) ++ (now ∷ []))
        failures in
    (
      rw (own, text_eq_refl ip) (count-select_later now later (or_default (get ip failures)) h),
      λ off.
          rw
            (
              get-insert ip other
                  (select (in_window now) (or_default (get ip failures)) ++ (now ∷ [])) failures,
              off,
            )
            refl,
    )
