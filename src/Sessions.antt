-- ===== src/Sessions.antt =====
-- The `sessions` table of src/models/session.rs and how src/middleware/auth.rs resolves a cookie.
-- Times are unix seconds. That a signed cookie holds what the server put there is the signature's part.
pub mod Lifetime
use hometube.Prelude.{
  ℕ, ◌+◌, ◌*◌, ◌≤◌, ◌<◌, ◌≡◌, ◌≢◌, ◌⊎◌, refl, sym, ap, ◌∙◌, Bool, true, false, not, ◌&&◌,
  Bool-cases, Option-cases, inl, inr, Option, none, some, List, [], ◌∷◌, arith, leb, ◌==◌,
  if◌then◌else◌,
}
use hometube.Prelude.Text.{Text, codes, text_eq, text_eq_iff, text_eq_refl}
use hometube.Prelude.Sql.{All, All-map, Member, delete, exists}

pub record Session : Type 0 where
  pub id : Text
  pub account_id : ℕ
  pub expires_at : ℕ
  pub created_at : ℕ

pub data AccountType : Type 0 where
  parent child : AccountType

-- The columns of `accounts` that a session shows.
pub record Account : Type 0 where
  pub account_id : ℕ
  pub display_name : Text
  pub account_type : Text

pub record CurrentAccount : Type 0 where
  pub account_id : ℕ
  pub display_name : Text
  pub account_type : AccountType
  pub session_id : Text

unfoldable pub parse : Text → Option AccountType
parse value =
    if text_eq value (codes "parent")
    then some parent
    else if text_eq value (codes "child")
    then some child
    else none

unfoldable pub typed : Account → AccountType
typed a = elim (parse a.account_type) [ none ↦ child | some t ↦ t ]

pub record Tables : Type 0 where
  pub sessions : List Session
  pub accounts : List Account

abbrev pub default_session_days : ℕ
default_session_days = 7

unfoldable pub has_session_id : Text → Session → Bool
has_session_id id s = text_eq s.id id

-- `id` is what `new_session_id` draws. The id is the primary key, and the account must exist; where
-- the INSERT is refused the call fails.
unfoldable pub create : Text → ℕ → ℕ → Tables → Tables × Option Session
unfolding has_session_id
create id now account db =
    let session : Session = record {
      id = id;
      account_id = account;
      expires_at = now + default_session_days * 86400;
      created_at = now;
    } in
    if exists (has_session_id id) db.sessions
    then (db, none)
    else if exists (λ (a : Account). a.account_id == account) db.accounts
    then (record db { sessions = session ∷ db.sessions }, some session)
    else (db, none)

-- `answers` is whether the statement succeeds.
unfoldable pub delete_session : Bool → Text → Tables → Tables
unfolding has_session_id
delete_session answers id db =
    if answers then record db { sessions = delete (has_session_id id) db.sessions } else db

unfoldable pub find_session : Text → List Session → Option Session
unfolding has_session_id
find_session id [] = none
find_session id (s ∷ rows) = if has_session_id id s then some s else find_session id rows

unfoldable pub find_account : ℕ → List Account → Option Account
find_account id [] = none
find_account id (a ∷ rows) = if a.account_id == id then some a else find_account id rows

-- `AppResult<Option<(Session, Account)>>`
pub data Lookup : Type 0 where
  failed : Lookup
  absent : Lookup
  found : Session → Account → Lookup

unfoldable pub joined : Bool → ℕ → Tables → Session → Option Account → Tables × Lookup
unfolding delete_session
joined deletes now db s none = (db, absent)
joined deletes now db s (some a) =
    if leb s.expires_at now then (delete_session deletes s.id db, absent) else (db, found s a)

unfoldable pub with_row : Bool → ℕ → Tables → Option Session → Tables × Lookup
unfolding joined
with_row deletes now db none = (db, absent)
with_row deletes now db (some s) = joined deletes now db s (find_account s.account_id db.accounts)

-- The join with `accounts`; an expired row is deleted on the way, if the DELETE succeeds.
unfoldable pub lookup_with_account : Bool → Bool → ℕ → Text → Tables → Tables × Lookup
unfolding with_row find_session find_account
lookup_with_account answers deletes now id db =
    if answers then with_row deletes now db (find_session id db.sessions) else (db, failed)

-- What the layer leaves: the tables, the account of the request, and whether the cookie is cleared.
pub record Layered : Type 0 where
  pub db : Tables
  pub current : Option CurrentAccount
  pub clears_cookie : Bool

unfoldable pub resolve : Tables × Lookup → Layered
resolve (db, failed) = record { db = db; current = none; clears_cookie = false }
resolve (db, absent) = record { db = db; current = none; clears_cookie = true }
resolve (db, found s a) = record {
  db = db;
  current = some (record {
    account_id = a.account_id;
    display_name = a.display_name;
    account_type = typed a;
    session_id = s.id;
  });
  clears_cookie = false;
}

-- `cookie` is the value of the signed cookie, if there is one.
unfoldable pub session_layer : Bool → Bool → ℕ → Option Text → Tables → Layered
unfolding resolve lookup_with_account
session_layer answers deletes now none db = record {
  db = db;
  current = none;
  clears_cookie = false;
}
session_layer answers deletes now (some id) db =
    resolve (lookup_with_account answers deletes now id db)

unfoldable pub current_of : Text → Account → CurrentAccount
current_of id a = record {
  account_id = a.account_id;
  display_name = a.display_name;
  account_type = typed a;
  session_id = id;
}
