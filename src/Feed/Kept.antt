-- ===== src/Feed/Kept.antt =====
-- What a batch of items does to the rows of `channel_videos`: `upsert_channel_videos` of
-- src/services/feed_cache.rs.
use hometube.Prelude.{
  ℕ, ◌+◌, ◌≡◌, refl, sym, ap, ◌∙◌, Bool, true, false, not, ◌&&◌, Bool-cases, inl, inr, Option, none,
  some, List, [], ◌∷◌, ◌++◌, length, arith,
}
use hometube.Prelude.Text.{Text, text_eq, text_eq_refl}
use hometube.Prelude.Sql.{All, exists, exists-append, exists-append_last, update}
use hometube.Backfill.Apply.{ChannelVideo, Video, is_channel_video}
use hometube.Backfill.Apply as Apply
use hometube.Feed.Items.{
  ItemRow, UpsertStats, Feeds, resighted, sighted, upsert_item, upsert_items, prior, counted,
  count_items, upsert_channel_videos,
}

module _ {R : Type 0} where
  exists-update_mono :
      (test which : R → Bool) (set : R → R) (rows : List R)
      → ((r : R) → test r ≡ true → test (set r) ≡ true)
      → exists test rows ≡ true
      → exists test (update which set rows) ≡ true
  unfolding exists update
  exists-update_mono test which set [] h e = e
  exists-update_mono test which set (r ∷ rows) h e = elim (Bool-cases (test r)) [
    | inl here ↦ elim (Bool-cases (which r)) [
      | inl on ↦ rw (on, h r here) refl
      | inr off ↦ rw (off, here) refl
    ]
    | inr there ↦
        ground (arith, exists-update_mono test which set rows h (ground (arith, e, there)))
  ]

  exists-update_which :
      (test which : R → Bool) (set : R → R) (rows : List R)
      → ((r : R) → which r ≡ true → test (set r) ≡ true)
      → exists which rows ≡ true
      → exists test (update which set rows) ≡ true
  unfolding exists update
  exists-update_which test which set [] h e = absurd (cc)
  exists-update_which test which set (r ∷ rows) h e = elim (Bool-cases (which r)) [
    | inl on ↦ rw (on, h r on) refl
    | inr off ↦ ground (arith, exists-update_which test which set rows h (ground (arith, e, off)))
  ]

module _ (channel : Text) where
  -- A row behind a batch, against the row before.
  pub record IsKept (r s : ChannelVideo) : Type 0 where
    pub channel_id : s.channel_id ≡ r.channel_id
    pub video_id : s.video_id ≡ r.video_id
    pub first_seen_at : s.first_seen_at ≡ r.first_seen_at
    pub view_count : s.view_count ≡ r.view_count
    pub published_at : (t : ℕ) → r.published_at ≡ some t → s.published_at ≡ some t
    pub is_deleted : r.is_deleted ≡ false → s.is_deleted ≡ false
    pub others : text_eq r.channel_id channel ≡ false → s ≡ r

  IsKept-refl : (r : ChannelVideo) → IsKept r r
  IsKept-refl r = record {
    channel_id = refl;
    video_id = refl;
    first_seen_at = refl;
    view_count = refl;
    published_at = λ t e. e;
    is_deleted = λ e. e;
    others = λ e. refl;
  }

  IsKept-trans : (q r s : ChannelVideo) → IsKept q r → IsKept r s → IsKept q s
  IsKept-trans q r s h k = record {
    channel_id = k.channel_id ∙ h.channel_id;
    video_id = k.video_id ∙ h.video_id;
    first_seen_at = k.first_seen_at ∙ h.first_seen_at;
    view_count = k.view_count ∙ h.view_count;
    published_at = λ t e. k.published_at t (h.published_at t e);
    is_deleted = λ e. k.is_deleted (h.is_deleted e);
    others = λ e. k.others (ap (λ (c : Text). text_eq c channel) h.channel_id ∙ e) ∙ h.others e;
  }

  -- Every row stays in its place, and live rows of the channel follow.
  abbrev pub Extends : List ChannelVideo → List ChannelVideo → Type 0
  Extends [] new = All (λ (r : ChannelVideo). (r.channel_id ≡ channel) × (r.is_deleted ≡ false)) new
  Extends (r ∷ rows) [] = false ≡ true
  Extends (r ∷ rows) (s ∷ after) = IsKept r s × Extends rows after

  Extends-refl : (rows : List ChannelVideo) → Extends rows rows
  Extends-refl [] = tt
  Extends-refl (r ∷ rows) = (IsKept-refl r, Extends-refl rows)

  new-Extends :
      (new after : List ChannelVideo)
      → All (λ (r : ChannelVideo). (r.channel_id ≡ channel) × (r.is_deleted ≡ false)) new
      → Extends new after
      → All (λ (r : ChannelVideo). (r.channel_id ≡ channel) × (r.is_deleted ≡ false)) after
  new-Extends [] after h k = k
  new-Extends (r ∷ new) [] h k = absurd (cc)
  new-Extends (r ∷ new) (s ∷ after) h k =
      ((k.0.channel_id ∙ h.0.0, k.0.is_deleted h.0.1), new-Extends new after h.1 k.1)

  Extends-trans :
      (rows between after : List ChannelVideo)
      → Extends rows between
      → Extends between after
      → Extends rows after
  Extends-trans [] between after h k = new-Extends between after h k
  Extends-trans (r ∷ rows) [] after h k = absurd (cc)
  Extends-trans (r ∷ rows) (s ∷ between) [] h k = absurd (cc)
  Extends-trans (r ∷ rows) (s ∷ between) (t ∷ after) h k =
      (IsKept-trans r s t h.0 k.0, Extends-trans rows between after h.1 k.1)

  append-Extends :
      (r : ChannelVideo) (rows : List ChannelVideo)
      → r.channel_id ≡ channel
      → r.is_deleted ≡ false
      → Extends rows (rows ++ r ∷ [])
  append-Extends r [] h k = ((h, k), tt)
  append-Extends r (s ∷ rows) h k = (IsKept-refl s, append-Extends r rows h k)

  -- A live row of the channel shows the video.
  abbrev pub IsLive : Text → List ChannelVideo → Type 0
  IsLive video rows =
      exists (λ (r : ChannelVideo). is_channel_video channel video r && not r.is_deleted) rows
      ≡ true

  module _ (source : Apply.Source) (now : ℕ) where
    resighted-IsKept :
        (item : ItemRow) (r : ChannelVideo)
        → is_channel_video channel item.video_id r ≡ true
        → IsKept r (resighted source now item r)
    unfolding resighted is_channel_video
    resighted-IsKept item r on = record {
      channel_id = refl;
      video_id = refl;
      first_seen_at = refl;
      view_count = refl;
      published_at = λ t e. rw e refl;
      is_deleted = λ e. refl;
      others = λ off. absurd (ground arith);
    }

    update-Extends :
        (item : ItemRow) (rows : List ChannelVideo)
        → Extends rows
            (update (is_channel_video channel item.video_id) (resighted source now item) rows)
    unfolding update
    update-Extends item [] = tt
    update-Extends item (r ∷ rows) = elim (Bool-cases (is_channel_video channel item.video_id r)) [
      | inl on ↦ rw on (resighted-IsKept item r on, update-Extends item rows)
      | inr off ↦ rw off (IsKept-refl r, update-Extends item rows)
    ]

    upsert_item-Extends :
        (item : ItemRow) (rows : List ChannelVideo)
        → Extends rows (upsert_item source channel now item rows)
    unfolding upsert_item sighted
    upsert_item-Extends item rows =
        elim (Bool-cases (exists (is_channel_video channel item.video_id) rows)) [
          | inl known ↦ rw known (update-Extends item rows)
          | inr fresh ↦ rw fresh (append-Extends _ rows refl refl)
        ]

    upsert_items-Extends :
        (items : List ItemRow) (rows : List ChannelVideo) (videos : List Video)
        → Extends rows (upsert_items source channel now items (rows, videos)).0
    unfolding upsert_items
    upsert_items-Extends [] rows videos = Extends-refl rows
    upsert_items-Extends (item ∷ items) rows videos =
        Extends-trans rows (upsert_item source channel now item rows) _
          (upsert_item-Extends item rows) (upsert_items-Extends items _ _)

    upsert_item-IsLive :
        (item : ItemRow) (video : Text) (rows : List ChannelVideo)
        → IsLive video rows
        → IsLive video (upsert_item source channel now item rows)
    unfolding upsert_item resighted is_channel_video
    upsert_item-IsLive item video rows h =
        elim (Bool-cases (exists (is_channel_video channel item.video_id) rows)) [
          | inl known ↦ rw known (
              exists-update_mono _ (is_channel_video channel item.video_id)
                (resighted source now item) rows (λ r live. ground (arith, live)) h)
          | inr fresh ↦ rw fresh (exists-append _ rows _ h)
        ]

    upsert_item-IsLive_self :
        (item : ItemRow) (rows : List ChannelVideo)
        → IsLive item.video_id (upsert_item source channel now item rows)
    unfolding upsert_item resighted sighted is_channel_video
    upsert_item-IsLive_self item rows =
        elim (Bool-cases (exists (is_channel_video channel item.video_id) rows)) [
          | inl known ↦ rw known (
              exists-update_which _ (is_channel_video channel item.video_id)
                (resighted source now item) rows (λ r on. ground (arith, on)) known)
          | inr fresh ↦ rw fresh (
              exists-append_last _ rows (sighted source channel now item)
                (rw (text_eq_refl channel, text_eq_refl item.video_id) refl))
        ]

    upsert_items-keep :
        (items : List ItemRow) (video : Text) (rows : List ChannelVideo) (videos : List Video)
        → IsLive video rows
        → IsLive video (upsert_items source channel now items (rows, videos)).0
    unfolding upsert_items
    upsert_items-keep [] video rows videos h = h
    upsert_items-keep (item ∷ items) video rows videos h =
        upsert_items-keep items video _ _ (upsert_item-IsLive item video rows h)

    upsert_items-IsLive :
        (items : List ItemRow) (rows : List ChannelVideo) (videos : List Video)
        → All
            (λ (item : ItemRow).
              IsLive item.video_id (upsert_items source channel now items (rows, videos)).0)
            items
    unfolding upsert_items
    upsert_items-IsLive [] rows videos = tt
    upsert_items-IsLive (item ∷ items) rows videos = (
      upsert_items-keep items item.video_id _ _ (upsert_item-IsLive_self item rows),
      upsert_items-IsLive items _ _,
    )

abbrev pub total : UpsertStats → ℕ
total s = s.inserted + s.updated + s.untombstoned

counted-total : (state : Option Bool) (s : UpsertStats) → total (counted state s) ≡ total s + 1
unfolding counted
counted-total none s = omega arith
counted-total (some true) s = omega arith
counted-total (some false) s = omega arith

count_items-total :
    (channel : Text) (rows : List ChannelVideo) (items : List ItemRow) (s : UpsertStats)
    → total (count_items channel rows items s) ≡ total s + length items
unfolding count_items
count_items-total channel rows [] s = omega arith
count_items-total channel rows (item ∷ items) s = omega (
  arith,
  count_items-total channel rows items (counted (prior channel item.video_id rows) s),
  counted-total (prior channel item.video_id rows) s,
)

-- A batch that is committed leaves every row in its place, behind them live rows of the channel, and
-- a live row of the channel for every item of the batch. A row keeps its key, when it was first
-- seen, its view count, and its time of publication if it has one; no live row becomes a tombstone,
-- and rows of other channels do not change. The statistics count every item once. A batch that is
-- not committed changes nothing.
pub upsert_channel_videos-Extends :
    (commits : Bool) (source : Apply.Source) (channel : Text) (now : ℕ) (items : List ItemRow)
    (db after : Feeds) (stats : Option UpsertStats)
    → upsert_channel_videos commits source channel now items db ≡ (after, stats)
    → ((s : UpsertStats)
        → stats ≡ some s
        → Extends channel db.channel_videos after.channel_videos
          × All (λ (item : ItemRow). IsLive channel item.video_id after.channel_videos) items
          × (total s ≡ length items))
      × (stats ≡ none → after ≡ db)
unfolding upsert_channel_videos
upsert_channel_videos-Extends true source channel now items db after stats e =
    let none_yet : UpsertStats = record { inserted = 0; updated = 0; untombstoned = 0 } in
    let rows = upsert_items source channel now items (db.channel_videos, db.videos) in
    let same : after.channel_videos ≡ rows.0 =
      sym (ap (λ (p : Feeds × Option UpsertStats). p.0.channel_videos) e) in
    let counts : stats ≡ some (count_items channel db.channel_videos items none_yet) =
      sym (ap (λ (p : Feeds × Option UpsertStats). p.1) e) in
    (
      λ s given. rw same (
        upsert_items-Extends channel source now items db.channel_videos db.videos,
        upsert_items-IsLive channel source now items db.channel_videos db.videos,
        let stat : s ≡ count_items channel db.channel_videos items none_yet = cc in
            rw stat (omega (arith, count_items-total channel db.channel_videos items none_yet)),
      ),
      λ nothing. absurd (cc),
    )
upsert_channel_videos-Extends false source channel now items db after stats e =
    (λ s given. absurd (cc), λ nothing. sym (ap (λ (p : Feeds × Option UpsertStats). p.0) e))
