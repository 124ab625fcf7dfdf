-- ===== src/Auth/Switch.antt =====
-- `POST /api/auth/switch` of src/routes/auth.rs: which requests open a session for which account, and
-- what a wrong PIN leaves behind. Argon2 is a parameter. The statements on the old and the new session
-- may fail, and the others succeed.
use hometube.Prelude.{
  ℕ, ◌%◌, Bool, true, false, not, ◌&&◌, ◌||◌, Option, none, some, List, [], ◌∷◌, ◌++◌, leb, ◌==◌,
  length, replicate, if◌then◌else◌,
}
use hometube.Prelude.Text.{Text, text_eq, decimal}
use hometube.Prelude.Assoc.{Assoc}
use hometube.Prelude.Sql.{count, delete}
use hometube.Auth.Throttle.{is_blocked, record_failure}

pub data AccountType : Type 0 where
  parent child : AccountType

pub record Account : Type 0 where
  pub id : ℕ
  pub account_type : AccountType
  pub pin_hash : Option Text

pub record Session : Type 0 where
  pub session_id : Text
  pub account_id : ℕ

-- The metadata of a notification of a wrong attempt.
pub data Kind : Type 0 where
  pin_attempt_failed : ℕ → Kind
  pin_attempt_failed_child_switch : Kind

pub record Notification : Type 0 where
  pub kind : Kind
  pub created_at : ℕ

pub record State : Type 0 where
  pub failures : Assoc (List ℕ)
  pub accounts : List Account
  pub sessions : List Session
  pub parent_notifications : List Notification

pub data Verdict : Type 0 where
  accepted forbidden_pin invalid_hash : Verdict

pub data Response : Type 0 where
  too_many_requests not_found bad_request forbidden other_error : Response
  switched : Text → Response

-- `account::find_by_id` and `account::list_parent_pin_hashes`
unfoldable pub find_by_id : ℕ → List Account → Option Account
find_by_id id [] = none
find_by_id id (a ∷ accounts) = if a.id == id then some a else find_by_id id accounts

hash_of : Account → List Text → List Text
hash_of a rest = elim a.account_type [
  | parent ↦ elim a.pin_hash [ none ↦ rest | some h ↦ h ∷ rest ]
  | child ↦ rest
]

unfoldable pub list_parent_pin_hashes : List Account → List Text
unfolding hash_of
list_parent_pin_hashes [] = []
list_parent_pin_hashes (a ∷ accounts) = hash_of a (list_parent_pin_hashes accounts)

all_digits : Text → Bool
all_digits [] = true
all_digits (c ∷ s) = (leb 48 c && leb c 57) && all_digits s

-- The length of a string is in bytes, which for digits is the number of code points.
unfoldable pub is_valid_pin : Text → Bool
unfolding all_digits
is_valid_pin pin = (leb 4 (length pin) && leb (length pin) 6) && all_digits pin

abbrev pub is_parent : Account → Bool
is_parent a = elim a.account_type [ parent ↦ true | child ↦ false ]

-- One notification for each parent.
broadcast : Kind → ℕ → State → State
broadcast kind now st = record st {
  parent_notifications =
      replicate (count is_parent st.accounts) (record { kind = kind; created_at = now })
      ++ st.parent_notifications;
}

prefix : Text → Text → Bool
prefix [] t = true
prefix (c ∷ s) [] = false
prefix (c ∷ s) (d ∷ t) = (c == d) && prefix s t

-- `metadata LIKE …`: the number of the target is the start of the number that is recorded.
unfoldable pub matches_target : ℕ → ℕ → Notification → Bool
unfolding prefix
matches_target window_start target n = leb window_start n.created_at && (elim n.kind [
  | pin_attempt_failed id ↦ prefix (decimal target) (decimal id)
  | pin_attempt_failed_child_switch ↦ false
])

unfoldable pub matches_child_switch : ℕ → Notification → Bool
matches_child_switch window_start n =
    leb window_start n.created_at
    && (elim n.kind [ pin_attempt_failed id ↦ false | pin_attempt_failed_child_switch ↦ true ])

is_silenced : ℕ → Bool
is_silenced recent_count = leb 5 recent_count && not ((recent_count % 5) == 0)

-- `window` is the start of the last five minutes.
unfoldable pub record_failed_pin : ℕ → ℕ → ℕ → State → State
unfolding is_silenced broadcast
record_failed_pin now window target st =
    if is_silenced (count (matches_target window target) st.parent_notifications)
    then st
    else broadcast (pin_attempt_failed target) now st

unfoldable pub record_failed_child_switch : ℕ → ℕ → State → State
unfolding is_silenced broadcast
record_failed_child_switch now window st =
    if is_silenced (count (matches_child_switch window) st.parent_notifications)
    then st
    else broadcast pin_attempt_failed_child_switch now st

-- A request: its instant and its time in seconds, the peer, the session it comes with, and its body;
-- and what the outside gives it: the id of a new session, and whether the DELETE of the old session
-- and the INSERT of the new one succeed.
pub record Request : Type 0 where
  pub instant : ℕ
  pub now : ℕ
  pub window_start : ℕ
  pub peer_ip : Option Text
  pub current : Option Text
  pub account_id : ℕ
  pub pin : Option Text
  pub new_session_id : Text
  pub deletes_session : Bool
  pub creates_session : Bool

unfoldable pub note_failure : Request → State → State
note_failure req st = elim req.peer_ip [
  | none ↦ st
  | some ip ↦ record st { failures = record_failure req.instant ip st.failures }
]

abbrev pub provided : Request → Text
provided req = elim req.pin [ none ↦ [] | some pin ↦ pin ]

abbrev pub has_session : Text → Session → Bool
has_session id s = text_eq s.session_id id

unfoldable pub drop_session : Option Text → List Session → List Session
drop_session none sessions = sessions
drop_session (some id) sessions = delete (has_session id) sessions

-- What the DELETE of the old session leaves; that it fails is ignored.
unfoldable pub remaining : Request → List Session → List Session
unfolding drop_session
remaining req sessions = if req.deletes_session then drop_session req.current sessions else sessions

-- The end of the handler: the old session goes, and a new one is made. Where the INSERT fails the old
-- session is gone all the same.
unfoldable pub open_session : Request → Account → State → State × Response
unfolding remaining
open_session req target st =
    let left = remaining req st.sessions in
    let made : Session = record { session_id = req.new_session_id; account_id = target.id } in
    if req.creates_session
    then (record st { sessions = made ∷ left }, switched req.new_session_id)
    else (record st { sessions = left }, other_error)

unfoldable pub any_accepts : (Text → Text → Verdict) → List Text → Text → Bool
any_accepts verify_pin [] pin = false
any_accepts verify_pin (h ∷ hashes) pin =
    (elim (verify_pin h pin) [ accepted ↦ true | forbidden_pin ↦ false | invalid_hash ↦ false ])
    || any_accepts verify_pin hashes pin

unfoldable pub to_parent :
    (Text → Text → Verdict) → Request → Account → Option Text → State → State × Response
unfolding note_failure
to_parent verify_pin req target none st = (st, bad_request)
to_parent verify_pin req target (some stored) st =
    let failed = record_failed_pin req.now req.window_start target.id (note_failure req st) in
    elim (verify_pin stored (provided req)) [
      | accepted ↦ open_session req target st
      | forbidden_pin ↦ (failed, forbidden)
      | invalid_hash ↦ (failed, other_error)
    ]

unfoldable pub to_child :
    (Text → Text → Verdict) → Request → Account → List Text → State → State × Response
unfolding note_failure
to_child verify_pin req target [] st = (st, bad_request)
to_child verify_pin req target (h ∷ hashes) st =
    let failed = record_failed_child_switch req.now req.window_start (note_failure req st) in
    if not (is_valid_pin (provided req))
    then (failed, forbidden)
    else if any_accepts verify_pin (h ∷ hashes) (provided req)
    then open_session req target st
    else (failed, forbidden)

unfoldable pub to_account :
    (Text → Text → Verdict) → Request → Option Account → State → State × Response
unfolding to_parent to_child
to_account verify_pin req none st = (st, not_found)
to_account verify_pin req (some target) st = elim target.account_type [
  | parent ↦ to_parent verify_pin req target target.pin_hash st
  | child ↦ to_child verify_pin req target (list_parent_pin_hashes st.accounts) st
]

-- The throttle's answer and the state after its check.
unfoldable pub check_throttle : Request → State → State × Bool
check_throttle req st = elim req.peer_ip [
  | none ↦ (st, false)
  | some ip ↦
      let answer = is_blocked req.instant ip st.failures in
      (record st { failures = answer.0 }, answer.1)
]

unfoldable pub switch : (Text → Text → Verdict) → Request → State → State × Response
unfolding to_account check_throttle
switch verify_pin req st =
    let checked = check_throttle req st in
    if checked.1
    then (checked.0, too_many_requests)
    else to_account verify_pin req (find_by_id req.account_id checked.0.accounts) checked.0
