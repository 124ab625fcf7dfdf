-- ===== src/Backfill/Lifecycle/Rows.antt =====
-- The row of one channel under the updates of the queue.
use hometube.Prelude.{
  ◌≡◌, ◌≢◌, refl, sym, ap, ◌∙◌, Bool, true, false, Bool-cases, inl, inr, Option, none, some, List,
  [], ◌∷◌, if◌then◌else◌, arith,
}
use hometube.Prelude.Text.{Text, text_eq, text_eq_iff}
use hometube.Prelude.Sql.{All, All-map, Member, Member-All, update}
use hometube.Backfill.Queue.{Channel, has_id}
use hometube.Backfill.Lifecycle.{Call, Move, find, view}

-- No two rows have one identifier.
abbrev OtherChannel : Channel → Channel → Type 0
OtherChannel c d = c.channel_id ≢ d.channel_id

abbrev pub UniqueChannels : List Channel → Type 0
UniqueChannels [] = Unit
UniqueChannels (c ∷ rows) = All (OtherChannel c) rows × UniqueChannels rows

abbrev pub KeepsId : (Channel → Channel) → Type 0
KeepsId set = (c : Channel) → (set c).channel_id ≡ c.channel_id

update-others :
    (test : Channel → Bool) (set : Channel → Channel) (c : Channel) (rows : List Channel)
    → KeepsId set
    → All (OtherChannel c) rows
    → All (OtherChannel c) (update test set rows)
unfolding update
update-others test set c [] keep h = tt
update-others test set c (d ∷ rows) keep h = elim (Bool-cases (test d)) [
  | inl on ↦ rw on ((λ e. h.0 (e ∙ keep d)), update-others test set c rows keep h.1)
  | inr off ↦ rw off (h.0, update-others test set c rows keep h.1)
]

pub update-Unique :
    (test : Channel → Bool) (set : Channel → Channel) (rows : List Channel)
    → KeepsId set
    → UniqueChannels rows
    → UniqueChannels (update test set rows)
unfolding update
update-Unique test set [] keep h = tt
update-Unique test set (c ∷ rows) keep h = elim (Bool-cases (test c)) [
  | inl on ↦ rw on (
    All-map {P = OtherChannel c} {Q = OtherChannel (set c)} (λ d k e. k (sym (keep c) ∙ e))
        (update test set rows) (update-others test set c rows keep h.0),
    update-Unique test set rows keep h.1,
  )
  | inr off ↦ rw off (update-others test set c rows keep h.0, update-Unique test set rows keep h.1)
]

changed : (Channel → Bool) → (Channel → Channel) → Option Channel → Option Channel
changed test set none = none
changed test set (some c) = some (if test c then set c else c)

find-update :
    (id : Text) (test : Channel → Bool) (set : Channel → Channel) (rows : List Channel)
    → KeepsId set
    → find id (update test set rows) ≡ changed test set (find id rows)
unfolding find update changed has_id
find-update id test set [] keep = refl
find-update id test set (c ∷ rows) keep = elim (Bool-cases (test c)) [
  | inl here ↦ rw here (elim (Bool-cases (text_eq c.channel_id id)) [
    | inl on ↦
        let same : text_eq (set c).channel_id id ≡ true = ap (λ k. text_eq k id) (keep c) ∙ on in
        rw (same, on) (rw here refl)
    | inr off ↦
        let other : text_eq (set c).channel_id id ≡ false = ap (λ k. text_eq k id) (keep c) ∙ off in
        rw (other, off) (find-update id test set rows keep)
  ])
  | inr not_here ↦ rw not_here (elim (Bool-cases (text_eq c.channel_id id)) [
    | inl on ↦ rw on (rw not_here refl)
    | inr off ↦ rw off (find-update id test set rows keep)
  ])
]

pub find-id :
    (id : Text) (rows : List Channel) (c : Channel) → find id rows ≡ some c → c.channel_id ≡ id
unfolding find has_id
find-id id [] c e = absurd (cc)
find-id id (d ∷ rows) c e = elim (Bool-cases (text_eq d.channel_id id)) [
  | inl on ↦ let same : d ≡ c = ground arith in rw (sym same) ((text_eq_iff d.channel_id id).0 on)
  | inr off ↦ find-id id rows c (ground arith)
]

-- With different identifiers the row that is found is the only one.
pub find-Member :
    (id : Text) (rows : List Channel) (b c : Channel)
    → UniqueChannels rows
    → Member b rows
    → b.channel_id ≡ id
    → find id rows ≡ some c
    → c ≡ b
unfolding find has_id
find-Member id [] b c unique m same e = absurd (cc)
find-Member id (d ∷ rows) b c unique m same e = elim (Bool-cases (text_eq d.channel_id id)) [
  | inl on ↦
      let first : d ≡ c = ground arith in
      elim m [
        | inl here ↦ cc (first, here)
        | inr later ↦ absurd (
            Member-All (OtherChannel d) b rows later unique.0
              ((text_eq_iff d.channel_id id).0 on ∙ sym same))
      ]
  | inr off ↦ elim m [
    | inl here ↦
        let on : text_eq d.channel_id id ≡ true =
          (text_eq_iff d.channel_id id).1 (ap (λ (x : Channel). x.channel_id) (sym here) ∙ same) in
        absurd (cc (on, off))
    | inr later ↦ find-Member id rows b c unique.1 later same (ground arith)
  ]
]

-- An update moves the row of the channel as it moves the row that its test passes.
pub update-Move :
    (id : Text) (op : Call) (test : Channel → Bool) (set : Channel → Channel) (rows : List Channel)
    (c : Channel)
    → find id rows ≡ some c
    → KeepsId set
    → (test c ≡ true → Move id op (view c) (view (set c)))
    → (d : Channel) × (find id (update test set rows) ≡ some d) × Move id op (view c) (view d)
unfolding changed
update-Move id op test set rows c found keep moves = elim (Bool-cases (test c)) [
  | inl on ↦ (set c, find-update id test set rows keep ∙ rw (found, on) refl, moves on)
  | inr off ↦ (c, find-update id test set rows keep ∙ rw (found, off) refl, Move.stays op (view c))
]
