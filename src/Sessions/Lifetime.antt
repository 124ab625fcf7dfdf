-- ===== src/Sessions/Lifetime.antt =====
-- Which requests a session of src/models/session.rs authenticates, and for how long.
use hometube.Prelude.{
  ℕ, ◌+◌, ◌*◌, ◌<◌, ◌≡◌, refl, sym, ap, ◌∙◌, Bool, true, false, Bool-cases, Option-cases, inl, inr,
  Option, none, some, List, [], ◌∷◌, arith, leb, ◌==◌, if◌then◌else◌,
}
use hometube.Prelude.Text.{Text, text_eq, text_eq_iff, text_eq_refl}
use hometube.Prelude.Sql.{Member, delete, exists}
use hometube.Sessions.{
  Session, Account, CurrentAccount, Tables, default_session_days, has_session_id, create,
  delete_session, find_session, find_account, joined, with_row, lookup_with_account, resolve,
  session_layer, current_of,
}

find_account-some :
    (id : ℕ) (rows : List Account)
    → exists (λ (a : Account). a.account_id == id) rows ≡ true
    → (a : Account) × (find_account id rows ≡ some a)
unfolding find_account exists
find_account-some id [] e = absurd (cc)
find_account-some id (a ∷ rows) e = elim (Bool-cases (a.account_id == id)) [
  | inl on ↦ (a, rw on refl)
  | inr off ↦
      let rest = find_account-some id rows (ground (arith, e, off)) in (rest.0, rw off rest.1)
]

find_session-deleted :
    (id : Text) (rows : List Session) → find_session id (delete (has_session_id id) rows) ≡ none
unfolding find_session delete
find_session-deleted id [] = refl
find_session-deleted id (s ∷ rows) = elim (Bool-cases (has_session_id id s)) [
  | inl on ↦ rw on (find_session-deleted id rows)
  | inr off ↦ rw off (rw off (find_session-deleted id rows))
]

-- What the table holds behind a `create`.
create-head :
    (id : Text) (now account : ℕ) (db db' : Tables) (s : Session)
    → create id now account db ≡ (db', some s)
    → (a : Account) × (find_account account db.accounts ≡ some a)
      × (db' ≡ record db {
        sessions =
            record {
              id = id;
              account_id = account;
              expires_at = now + default_session_days * 86400;
              created_at = now;
            }
            ∷ db.sessions;
      })
unfolding create
create-head id now account db db' s e = elim (Bool-cases (exists (has_session_id id) db.sessions)) [
  | inl taken ↦ absurd (ground (arith, e, taken))
  | inr free ↦ elim (Bool-cases (exists (λ (a : Account). a.account_id == account) db.accounts)) [
    | inr unknown ↦ absurd (ground (arith, e, free, unknown))
    | inl known ↦
        let found_one = find_account-some account db.accounts known in
        (
          found_one.0,
          found_one.1,
          sym (ap (λ (p : Tables × Option Session). p.0) (rw (free, known) at e)),
        )
  ]
]

-- A session that is created resolves its cookie to its account for seven days, whatever the type of
-- the account, and to none from then on; once it is deleted it resolves to none at any time.
pub session_layer-create :
    (id : Text) (now account t : ℕ) (deletes : Bool) (db db' : Tables) (s : Session)
    → create id now account db ≡ (db', some s)
    → (a : Account) × (find_account account db.accounts ≡ some a)
      × ((session_layer true deletes t (some id) db').current
          ≡ (if leb (now + 7 * 86400) t then none else some (current_of id a)))
      × ((session_layer true deletes t (some id) (delete_session true id db')).current ≡ none)
unfolding session_layer lookup_with_account with_row joined resolve delete_session
session_layer-create id now account t deletes db db' s e =
    let made = create-head id now account db db' s e in
    (
      made.0,
      made.1,
      rw (made.2, text_eq_refl id)
          (rw made.1 (elim (Bool-cases (leb (now + 7 * 86400) t)) [
            | inl over ↦ rw over refl
            | inr live ↦ rw live (unfold current_of in refl)
          ])),
      rw (find_session-deleted id db'.sessions) refl,
    )

find_session-Member :
    (id : Text) (rows : List Session) (s : Session)
    → find_session id rows ≡ some s
    → Member s rows × (s.id ≡ id)
unfolding find_session has_session_id
find_session-Member id [] s e = absurd (cc)
find_session-Member id (r ∷ rows) s e = elim (Bool-cases (text_eq r.id id)) [
  | inl on ↦
      let same : s ≡ r = ground (arith, e, on) in (inl same, rw same ((text_eq_iff r.id id).0 on))
  | inr off ↦
      let rest = find_session-Member id rows s (ground (arith, e, off)) in (inr rest.0, rest.1)
]

find_account-id :
    (id : ℕ) (rows : List Account) (a : Account) → find_account id rows ≡ some a → a.account_id ≡ id
unfolding find_account
find_account-id id [] a e = absurd (cc)
find_account-id id (b ∷ rows) a e = elim (Bool-cases (b.account_id == id)) [
  | inl on ↦ let same : a ≡ b = ground (arith, e, on) in rw same (ground (arith, on))
  | inr off ↦ find_account-id id rows a (ground (arith, e, off))
]

-- The session that an account of a request stands for.
abbrev pub IsBacked : ℕ → Option Text → Tables → CurrentAccount → Type 0
IsBacked now cookie db cur =
    (s : Session) × Member s db.sessions
    × (cookie ≡ some s.id)
    × (now < s.expires_at)
    × (cur.session_id ≡ s.id)
    × (cur.account_id ≡ s.account_id)

joined-IsBacked :
    (deletes : Bool) (now : ℕ) (id : Text) (db : Tables) (s : Session) (o : Option Account)
    (cur : CurrentAccount)
    → Member s db.sessions
    → s.id ≡ id
    → find_account s.account_id db.accounts ≡ o
    → (resolve (joined deletes now db s o)).current ≡ some cur
    → IsBacked now (some id) db cur
unfolding joined resolve current_of
joined-IsBacked deletes now id db s none cur m same known e = absurd (cc)
joined-IsBacked deletes now id db s (some a) cur m same known e =
    elim (Bool-cases (leb s.expires_at now)) [
      | inl over ↦ absurd (ground (arith, e, over))
      | inr live ↦
          let shown : current_of s.id a ≡ cur = unfold current_of in ground (arith, e, live) in
          (
            s,
            m,
            ap some (sym same),
            ground (arith, live),
            sym (ap (λ (c : CurrentAccount). c.session_id) shown),
            sym (ap (λ (c : CurrentAccount). c.account_id) shown)
                ∙ find_account-id s.account_id db.accounts a known,
          )
    ]

-- A request gets an account only from a cookie that names a session of the table, which has not
-- expired, and it is that session's account.
pub session_layer-IsBacked :
    (answers deletes : Bool) (now : ℕ) (cookie : Option Text) (db : Tables) (cur : CurrentAccount)
    → (session_layer answers deletes now cookie db).current ≡ some cur
    → IsBacked now cookie db cur
unfolding session_layer lookup_with_account with_row resolve
session_layer-IsBacked answers deletes now none db cur e = absurd (cc)
session_layer-IsBacked false deletes now (some id) db cur e = absurd (cc)
session_layer-IsBacked true deletes now (some id) db cur e =
    elim (Option-cases (find_session id db.sessions)) [
      | inl missing ↦ absurd (ground (arith, e, missing))
      | inr (s, row) ↦
          let at = find_session-Member id db.sessions s row in
          joined-IsBacked deletes now id db s (find_account s.account_id db.accounts) cur at.0 at.1
            refl (rw row at e)
    ]
