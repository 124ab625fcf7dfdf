-- ===== src/Access.antt =====
-- The decision whether a child may view a video: src/services/access.rs.
use hometube.Prelude.{
  ℕ, ◌≡◌, ◌↔◌, ◌⊎◌, refl, sym, ap, ◌∙◌, Bool, true, false, ◌&&◌, Option, none, some, List, [], ◌∷◌,
  map, arith, ltb, ◌==◌, if◌then◌else◌, Bool-cases, inl, inr,
}
use hometube.Prelude.Text.{Text, text_eq, text_eq_iff, text_eq_refl, codes}
use hometube.Prelude.Sql.{count, select, Member}

-- A row of `blocked_videos`, `hidden_videos`, `allowlisted_videos` or `allowlisted_channels`: the
-- child's account and the identifier of the video or the channel.
pub record Entry : Type 0 where
  pub child_account_id : ℕ
  pub id : Text

pub record Account : Type 0 where
  pub account_id : ℕ
  pub account_type : Text

pub record Tables : Type 0 where
  pub blocked_videos : List Entry
  pub hidden_videos : List Entry
  pub allowlisted_videos : List Entry
  pub allowlisted_channels : List Entry
  pub accounts : List Account

unfoldable pub is_entry : ℕ → Text → Entry → Bool
is_entry child id e = (e.child_account_id == child) && text_eq e.id id

unfoldable pub is_hidden_for_child : Tables → ℕ → Text → Bool
is_hidden_for_child db child video = ltb 0 (count (is_entry child video) db.hidden_videos)

unfoldable pub is_blocked : Tables → ℕ → Text → Bool
is_blocked db child video = ltb 0 (count (is_entry child video) db.blocked_videos)

unfoldable pub is_allowlisted_video : Tables → ℕ → Text → Bool
is_allowlisted_video db child video = ltb 0 (count (is_entry child video) db.allowlisted_videos)

unfoldable pub is_allowlisted_channel : Tables → ℕ → Text → Bool
is_allowlisted_channel db child channel =
    ltb 0 (count (is_entry child channel) db.allowlisted_channels)

is_channel_allowed : Tables → ℕ → Option Text → Bool
is_channel_allowed db child none = false
is_channel_allowed db child (some channel) = is_allowlisted_channel db child channel

unfoldable pub can_child_view : Tables → ℕ → Text → Option Text → Bool
unfolding is_channel_allowed
can_child_view db child video channel =
    if is_blocked db child video
    then false
    else if is_hidden_for_child db child video
    then false
    else if is_allowlisted_video db child video
    then true
    else is_channel_allowed db child channel

type_of : ℕ → List Account → Option Text
type_of id [] = none
type_of id (a ∷ accounts) = if a.account_id == id then some a.account_type else type_of id accounts

is_child_type : Option Text → Bool
is_child_type none = false
is_child_type (some t) = text_eq t (codes "child")

unfoldable pub is_child_account : Tables → ℕ → Bool
unfolding type_of is_child_type
is_child_account db id = is_child_type (type_of id db.accounts)

of_child : ℕ → Entry → Bool
of_child child e = e.child_account_id == child

unfoldable pub child_allowlisted_channel_ids : Tables → ℕ → List Text
unfolding of_child
child_allowlisted_channel_ids db child =
    map (λ (e : Entry). e.id) (select (of_child child) db.allowlisted_channels)

-- The row that a query looks for.
abbrev pub entry : ℕ → Text → Entry
entry child id = record { child_account_id = child; id = id }

is_entry-entry :
    (child : ℕ) (id : Text) (e : Entry) → is_entry child id e ≡ true → entry child id ≡ e
unfolding is_entry
is_entry-entry child id e h =
    let a : e.child_account_id ≡ child = ground arith in
    let b : e.id ≡ id = (text_eq_iff e.id id).0 (ground arith) in rw (sym a, sym b) refl

entry-is_entry :
    (child : ℕ) (id : Text) (e : Entry) → entry child id ≡ e → is_entry child id e ≡ true
unfolding is_entry
entry-is_entry child id e h = rw (sym h, text_eq_refl id) (ground arith)

count-Member :
    (child : ℕ) (id : Text) (rows : List Entry)
    → (ltb 0 (count (is_entry child id) rows) ≡ true)
    → Member (entry child id) rows
unfolding count
count-Member child id [] h = absurd (ground arith)
count-Member child id (e ∷ rows) h = elim (Bool-cases (is_entry child id e)) [
  | inl on ↦ inl (is_entry-entry child id e on)
  | inr off ↦ inr (count-Member child id rows (ground (arith, h, off)))
]

Member-count :
    (child : ℕ) (id : Text) (rows : List Entry)
    → Member (entry child id) rows
    → (ltb 0 (count (is_entry child id) rows) ≡ true)
unfolding count
Member-count child id [] m = absurd (cc)
Member-count child id (e ∷ rows) m = elim m [
  | inl here ↦ rw (entry-is_entry child id e here) (ground arith)
  | inr later ↦ ground (arith, Member-count child id rows later)
]

-- The decision as a function of the four queries.
decision : Bool → Bool → Bool → Bool → Bool
decision blocked hidden video channel =
    if blocked then false else (if hidden then false else (if video then true else channel))

decision-allowed :
    (blocked hidden video channel : Bool)
    → decision blocked hidden video channel ≡ true
    → (blocked ≡ false) × (hidden ≡ false) × ((video ≡ true) ⊎ (channel ≡ true))
unfolding decision
decision-allowed true hidden video channel e = absurd (cc)
decision-allowed false true video channel e = absurd (cc)
decision-allowed false false true channel e = (refl, refl, inl refl)
decision-allowed false false false channel e = (refl, refl, inr e)

allowed-decision :
    (blocked hidden video channel : Bool)
    → blocked ≡ false
    → hidden ≡ false
    → (video ≡ true) ⊎ (channel ≡ true)
    → decision blocked hidden video channel ≡ true
unfolding decision
allowed-decision blocked hidden true channel b h how = rw (b, h) refl
allowed-decision blocked hidden false channel b h how = elim how [
  | inl on ↦ absurd (cc)
  | inr on ↦ rw (b, h) on
]

module _ (db : Tables) (child : ℕ) where
  blocked-Member :
      (video : Text)
      → Member (entry child video) db.blocked_videos
      → is_blocked db child video ≡ true
  unfolding is_blocked
  blocked-Member video m = Member-count child video db.blocked_videos m

  hidden-Member :
      (video : Text)
      → Member (entry child video) db.hidden_videos
      → is_hidden_for_child db child video ≡ true
  unfolding is_hidden_for_child
  hidden-Member video m = Member-count child video db.hidden_videos m

  Member-blocked :
      (video : Text)
      → is_blocked db child video ≡ true
      → Member (entry child video) db.blocked_videos
  unfolding is_blocked
  Member-blocked video e = count-Member child video db.blocked_videos e

  Member-hidden :
      (video : Text)
      → is_hidden_for_child db child video ≡ true
      → Member (entry child video) db.hidden_videos
  unfolding is_hidden_for_child
  Member-hidden video e = count-Member child video db.hidden_videos e

  channel-Member :
      (channel : Option Text)
      → is_channel_allowed db child channel ≡ true
      → (c : Text) × (channel ≡ some c) × Member (entry child c) db.allowlisted_channels
  unfolding is_channel_allowed is_allowlisted_channel
  channel-Member none e = absurd (cc)
  channel-Member (some c) e = (c, refl, count-Member child c db.allowlisted_channels e)

  Member-channel :
      (channel : Option Text) (c : Text)
      → channel ≡ some c
      → Member (entry child c) db.allowlisted_channels
      → is_channel_allowed db child channel ≡ true
  unfolding is_channel_allowed is_allowlisted_channel
  Member-channel channel c e m = rw e (Member-count child c db.allowlisted_channels m)

-- A child sees a video exactly where it is neither blocked nor hidden for the child and the video
-- itself, or the channel that the caller knows, is on the child's allowlist.
pub can_child_view_iff :
    (db : Tables) (child : ℕ) (video : Text) (channel : Option Text)
    → (can_child_view db child video channel ≡ true) ↔ (
        (Member (entry child video) db.blocked_videos → false ≡ true)
        × (Member (entry child video) db.hidden_videos → false ≡ true)
        × (Member (entry child video) db.allowlisted_videos
            ⊎ ((c : Text) × (channel ≡ some c) × Member (entry child c) db.allowlisted_channels)))
unfolding can_child_view decision is_allowlisted_video
can_child_view_iff db child video channel =
    let b = is_blocked db child video in
    let h = is_hidden_for_child db child video in
    let a = is_allowlisted_video db child video in
    let c = is_channel_allowed db child channel in
    (
      λ e.
          let (unblocked, shown, how) = decision-allowed b h a c e in
          (
            λ m. sym unblocked ∙ blocked-Member db child video m,
            λ m. sym shown ∙ hidden-Member db child video m,
            elim how [
              | inl on ↦ inl (count-Member child video db.allowlisted_videos on)
              | inr on ↦ inr (channel-Member db child channel on)
            ],
          ),
      λ (unblocked, shown, how).
          allowed-decision b h a c
            (elim (Bool-cases b) [
              | inr off ↦ off
              | inl on ↦ absurd (cc (unblocked (Member-blocked db child video on)))
            ])
            (elim (Bool-cases h) [
              | inr off ↦ off
              | inl on ↦ absurd (cc (shown (Member-hidden db child video on)))
            ])
            (elim how [
              | inl m ↦ inl (Member-count child video db.allowlisted_videos m)
              | inr (id, e, m) ↦ inr (Member-channel db child channel id e m)
            ]),
    )

ids-Member :
    (child : ℕ) (channel : Text) (rows : List Entry)
    → Member (entry child channel) rows
    → Member channel (map (λ (e : Entry). e.id) (select (of_child child) rows))
unfolding select of_child
ids-Member child channel [] m = absurd (cc)
ids-Member child channel (e ∷ rows) m = elim (Bool-cases (e.child_account_id == child)) [
  | inl on ↦ rw on (elim m [
    | inl here ↦ inl (ap (λ (x : Entry). x.id) here)
    | inr later ↦ inr (ids-Member child channel rows later)
  ])
  | inr off ↦ rw off (elim m [
    | inl here ↦
        let same : child ≡ e.child_account_id = ap (λ (x : Entry). x.child_account_id) here in
        absurd (ground arith)
    | inr later ↦ ids-Member child channel rows later
  ])
]

-- Every channel by which a child sees a video is in the child's list of channels.
pub is_allowlisted_channel-listed :
    (db : Tables) (child : ℕ) (channel : Text)
    → is_allowlisted_channel db child channel ≡ true
    → Member channel (child_allowlisted_channel_ids db child)
unfolding is_allowlisted_channel child_allowlisted_channel_ids
is_allowlisted_channel-listed db child channel e =
    ids-Member child channel db.allowlisted_channels
      (count-Member child channel db.allowlisted_channels e)
