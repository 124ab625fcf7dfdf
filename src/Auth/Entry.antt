-- ===== src/Auth/Entry.antt =====
-- Who gets a session from the switch of src/routes/auth.rs.
use hometube.Prelude.{
  ◌≤◌, ◌≡◌, ◌⊎◌, refl, ◌∙◌, Bool, true, false, some, List, ◌∷◌, arith, if◌then◌else◌,
}
use hometube.Prelude.Text.{Text}
use hometube.Auth.Throttle.{is_blocked, recent, is_blocked-recent}
use hometube.Auth.Switch.{
  Account, parent, child, Session, State, Verdict, accepted, Response, switched, too_many_requests,
  not_found, bad_request, forbidden, other_error, Request, list_parent_pin_hashes, is_valid_pin,
  provided, drop_session, open_session, any_accepts, check_throttle, switch,
}

-- The request's PIN entitles it to a session of the account: for a parent, the account's own hash
-- accepts it; for a child, it has the form of a PIN and the hash of some parent accepts it.
pub IsEntitled : (Text → Text → Verdict) → Request → List Account → Account → Type 0
IsEntitled verify_pin req accounts target =
    ((target.account_type ≡ parent)
      × ((h : Text) × (target.pin_hash ≡ some h) × (verify_pin h (provided req) ≡ accepted)))
    ⊎ ((target.account_type ≡ child)
        × (is_valid_pin (provided req) ≡ true)
        × (any_accepts verify_pin (list_parent_pin_hashes accounts) (provided req) ≡ true))

-- The response opens a session.
pub opens : Response → Bool
opens r = elim r [
  | too_many_requests ↦ false
  | not_found ↦ false
  | bad_request ↦ false
  | forbidden ↦ false
  | other_error ↦ false
  | switched id ↦ true
]

-- Either the sessions stay and the response is an error, or the request is entitled to the account
-- and the session is made.
abbrev pub Judged : (Text → Text → Verdict) → Request → State → Account → State × Response → Type 0
Judged verify_pin req st target out =
    ((opens out.1 ≡ false) × (out.0.sessions ≡ st.sessions))
    ⊎ (IsEntitled verify_pin req st.accounts target × (out ≡ open_session req target st))

-- The request's old session goes, unless its DELETE fails. Where the INSERT succeeds a session of the
-- account is added and is the response, and where it fails the response is an error.
abbrev pub IsReplaced : Request → Account → List Session → State × Response → Type 0
IsReplaced req target before out =
    ((req.creates_session ≡ true)
      × (out.1 ≡ switched req.new_session_id)
      × (out.0.sessions
          ≡ record { session_id = req.new_session_id; account_id = target.id }
            ∷ (if req.deletes_session then drop_session req.current before else before)))
    ⊎ ((req.creates_session ≡ false)
        × (out.1 ≡ other_error)
        × (out.0.sessions
            ≡ (if req.deletes_session then drop_session req.current before else before)))

-- A peer with five or more wrong attempts in the window gets no session, whatever PIN it sends.
pub switch-throttled :
    (verify_pin : Text → Text → Verdict) (req : Request) (st : State) (ip : Text)
    → req.peer_ip ≡ some ip
    → 5 ≤ recent req.instant ip st.failures
    → (switch verify_pin req st).1 ≡ too_many_requests
unfolding switch check_throttle
switch-throttled verify_pin req st ip known many =
    let blocked : (is_blocked req.instant ip st.failures).1 ≡ true =
      is_blocked-recent req.instant ip st.failures ∙ ground arith in
    rw (known, blocked) refl
