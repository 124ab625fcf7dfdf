-- ===== src/Backfill/Allowlist.antt =====
-- `reconcile_with_allowlist` of src/services/channel_backfill.rs: the channels that have a row are
-- those that some child's allowlist has.
use hometube.Prelude.{
  ◌≡◌, refl, sym, ◌∙◌, Bool, true, false, ◌||◌, not, Bool-cases, inl, inr, none, List, [], ◌∷◌,
  ◌++◌, arith, if◌then◌else◌,
}
use hometube.Prelude.Text.{Text, text_eq, text_eq_iff, text_eq_refl}
use hometube.Prelude.Sql.{All, All-map, exists, exists-append, exists-append_last, delete}
use hometube.Access.{Entry}
use hometube.Backfill.Queue.{Channel, pending, has_id}
use hometube.Backfill.Apply.{ChannelVideo, Tables}

-- The `INSERT … ON CONFLICT DO NOTHING` of one channel.
unfoldable pub seed : Text → List Channel → List Channel
seed id channels =
    if exists (has_id id) channels
    then channels
    else channels
      ++ (record {
        channel_id = id;
        status = pending;
        next_at = 0;
        lease_expires_at = none;
        last_sidecar_fallback_at = none;
        last_started_at = none;
        last_attempted_at = none;
        last_completed_at = none;
        last_error = none;
        consecutive_errors = 0;
        videos_observed_total = 0;
        videos_new_last_run = 0;
        videos_removed_last_run = 0;
      }
          ∷ [])

unfoldable pub seed_all : List Entry → List Channel → List Channel
seed_all [] channels = channels
seed_all (e ∷ allowlist) channels = seed_all allowlist (seed e.id channels)

unfoldable pub is_allowlisted : List Entry → Text → Bool
is_allowlisted [] id = false
is_allowlisted (e ∷ allowlist) id = text_eq e.id id || is_allowlisted allowlist id

unfoldable pub is_dropped : List Entry → Channel → Bool
is_dropped allowlist c = not (is_allowlisted allowlist c.channel_id)

unfoldable pub is_stranded : List Entry → ChannelVideo → Bool
is_stranded allowlist r = not (is_allowlisted allowlist r.channel_id)

-- One transaction: nothing changes where the database does not commit it.
unfoldable pub reconcile_with_allowlist : Bool → List Entry → Tables → Tables × Bool
reconcile_with_allowlist commits allowlist db =
    let reconciled : Tables = record db {
      channels = delete (is_dropped allowlist) (seed_all allowlist db.channels);
      channel_videos = delete (is_stranded allowlist) db.channel_videos;
    } in
    if commits then (reconciled, true) else (db, false)

seed-exists :
    (id other : Text) (channels : List Channel)
    → exists (has_id other) channels ≡ true
    → exists (has_id other) (seed id channels) ≡ true
unfolding seed
seed-exists id other channels h = elim (Bool-cases (exists (has_id id) channels)) [
  | inl known ↦ rw known h
  | inr fresh ↦ rw fresh (exists-append (has_id other) channels _ h)
]

seed_self : (id : Text) (channels : List Channel) → exists (has_id id) (seed id channels) ≡ true
unfolding seed has_id
seed_self id channels = elim (Bool-cases (exists (has_id id) channels)) [
  | inl known ↦ rw known known
  | inr fresh ↦ rw fresh (exists-append_last (has_id id) channels _ (text_eq_refl id))
]

seed_all-keep :
    (allowlist : List Entry) (id : Text) (channels : List Channel)
    → exists (has_id id) channels ≡ true
    → exists (has_id id) (seed_all allowlist channels) ≡ true
unfolding seed_all
seed_all-keep [] id channels h = h
seed_all-keep (e ∷ allowlist) id channels h =
    seed_all-keep allowlist id (seed e.id channels) (seed-exists e.id id channels h)

seed_all-exists :
    (allowlist : List Entry) (id : Text) (channels : List Channel)
    → is_allowlisted allowlist id ≡ true
    → exists (has_id id) (seed_all allowlist channels) ≡ true
unfolding seed_all is_allowlisted
seed_all-exists [] id channels h = absurd (cc)
seed_all-exists (e ∷ allowlist) id channels h = elim (Bool-cases (text_eq e.id id)) [
  | inl on ↦
      let same : e.id ≡ id = (text_eq_iff e.id id).0 on in
      rw (sym same) (seed_all-keep allowlist e.id (seed e.id channels) (seed_self e.id channels))
  | inr off ↦ seed_all-exists allowlist id (seed e.id channels) (ground (arith, h, off))
]

module _ {R : Type 0} where
  delete-fails : (test : R → Bool) (rows : List R) → All (λ r. test r ≡ false) (delete test rows)
  unfolding delete
  delete-fails test [] = tt
  delete-fails test (r ∷ rows) = elim (Bool-cases (test r)) [
    | inl on ↦ rw on (delete-fails test rows)
    | inr off ↦ rw off (off, delete-fails test rows)
  ]

  delete-exists :
      (test which : R → Bool) (rows : List R)
      → ((r : R) → test r ≡ true → which r ≡ false)
      → exists test (delete which rows) ≡ exists test rows
  unfolding delete exists
  delete-exists test which [] apart = refl
  delete-exists test which (r ∷ rows) apart = elim (Bool-cases (which r)) [
    | inl on ↦
        let no : test r ≡ false = elim (Bool-cases (test r)) [
          | inl passes ↦ absurd (cc (apart r passes, on))
          | inr fails ↦ fails
        ] in
        rw (on, no) (delete-exists test which rows apart)
    | inr off ↦ rw (off, delete-exists test which rows apart) refl
  ]

  delete-absent :
      (test which : R → Bool) (rows : List R)
      → ((r : R) → test r ≡ true → which r ≡ true)
      → exists test (delete which rows) ≡ false
  unfolding delete exists
  delete-absent test which [] covers = refl
  delete-absent test which (r ∷ rows) covers = elim (Bool-cases (which r)) [
    | inl on ↦ rw on (delete-absent test which rows covers)
    | inr off ↦
        let no : test r ≡ false = elim (Bool-cases (test r)) [
          | inl passes ↦ absurd (cc (covers r passes, off))
          | inr fails ↦ fails
        ] in
        rw (off, no) (delete-absent test which rows covers)
  ]

has_id-dropped :
    (allowlist : List Entry) (id : Text) (c : Channel) (b : Bool)
    → is_allowlisted allowlist id ≡ b
    → has_id id c ≡ true
    → is_dropped allowlist c ≡ not b
unfolding has_id is_dropped
has_id-dropped allowlist id c b e on =
    let same : c.channel_id ≡ id = (text_eq_iff c.channel_id id).0 on in rw (same, e) refl

-- A reconciliation that is committed gives every allowlisted channel a row and leaves no other, and
-- leaves no video of another channel.
pub reconcile_with_allowlist-channels :
    (allowlist : List Entry) (db : Tables)
    → ((id : Text)
        → exists (has_id id) (reconcile_with_allowlist true allowlist db).0.channels
          ≡ is_allowlisted allowlist id)
      × All
          (λ r. is_allowlisted allowlist r.channel_id ≡ true)
          (reconcile_with_allowlist true allowlist db).0.channel_videos
unfolding reconcile_with_allowlist is_stranded
reconcile_with_allowlist-channels allowlist db = (
  λ id. elim (Bool-cases (is_allowlisted allowlist id)) [
    | inl on ↦
        delete-exists (has_id id) (is_dropped allowlist) (seed_all allowlist db.channels)
          (λ c has. has_id-dropped allowlist id c true on has)
        ∙ seed_all-exists allowlist id db.channels on
        ∙ sym on
    | inr off ↦
        delete-absent (has_id id) (is_dropped allowlist) (seed_all allowlist db.channels)
          (λ c has. has_id-dropped allowlist id c false off has)
        ∙ sym off
  ],
  All-map (λ r kept. ground arith) _ (delete-fails (is_stranded allowlist) db.channel_videos),
)
