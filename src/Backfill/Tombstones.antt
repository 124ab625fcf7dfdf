-- ===== src/Backfill/Tombstones.antt =====
-- Which videos a finished run of src/services/channel_backfill.rs leaves alive:
-- `apply_backfill_entries`.
use hometube.Prelude.{
  ℕ, ◌<◌, ◌≡◌, refl, sym, ◌∙◌, true, false, Bool-cases, inl, inr, Option, List, [], ◌∷◌, arith,
}
use hometube.Prelude.Text.{Text, text_eq, text_eq_iff, text_eq_refl}
use hometube.Prelude.Sql.{
  All, All-any, All-map, All-append, All-not-exists, All-update, exists, exists-append,
  exists-append_last, exists-update, update,
}
use hometube.Backfill.Apply.{
  FlatPlaylistEntry, ChannelVideo, Tables, Run, is_channel_video, observe, first_seen,
  upsert_channel_video, upsert_entries, observed, is_vanished, tombstone, apply_backfill_entries,
}

module _ (channel : Text) where
  -- A row of the channel and the video is no tombstone.
  abbrev Alive : Text → ChannelVideo → Type 0
  Alive video r = is_channel_video channel video r ≡ true → r.is_deleted ≡ false

  module _ (upload_time : Text → Option ℕ) (started : ℕ) where
    upsert-Alive :
        (e : FlatPlaylistEntry) (video : Text) (rows : List ChannelVideo)
        → All (Alive video) rows
        → All (Alive video) (upsert_channel_video upload_time channel started e rows)
    unfolding upsert_channel_video first_seen observe
    upsert-Alive e video rows h =
        elim (Bool-cases (exists (is_channel_video channel e.video_id) rows)) [
          | inl known ↦ rw known (
              All-update {Q = Alive video} (is_channel_video channel e.video_id)
                (observe upload_time started e) rows (λ r alive on key. refl) (λ r alive off. alive)
                h)
          | inr fresh ↦ rw fresh (All-append (Alive video) rows _ h (λ key. refl, tt))
        ]

    upsert-Alive_self :
        (e : FlatPlaylistEntry) (rows : List ChannelVideo)
        → All (Alive e.video_id) (upsert_channel_video upload_time channel started e rows)
    unfolding upsert_channel_video first_seen observe
    upsert-Alive_self e rows =
        elim (Bool-cases (exists (is_channel_video channel e.video_id) rows)) [
          | inl known ↦ rw known (
              All-update {P = λ r. Unit} {Q = Alive e.video_id}
                (is_channel_video channel e.video_id) (observe upload_time started e) rows
                (λ r any on key. refl) (λ r any off key. absurd (cc (off, key))) (All-any rows))
          | inr fresh ↦
              let others =
                All-not-exists (λ r. Unit) (is_channel_video channel e.video_id) rows fresh
                  (All-any rows) in
              rw fresh (
                All-append (Alive e.video_id) rows _
                  (All-map {Q = Alive e.video_id} (λ r no key. absurd (cc (no.1, key))) rows others)
                  (λ key. refl, tt))
        ]

    upsert-exists :
        (e : FlatPlaylistEntry) (video : Text) (rows : List ChannelVideo)
        → exists (is_channel_video channel video) rows ≡ true
        → exists
            (is_channel_video channel video)
            (upsert_channel_video upload_time channel started e rows)
          ≡ true
    unfolding upsert_channel_video observe is_channel_video
    upsert-exists e video rows h =
        elim (Bool-cases (exists (is_channel_video channel e.video_id) rows)) [
          | inl known ↦ rw known (
              exists-update (is_channel_video channel video) (is_channel_video channel e.video_id)
                (observe upload_time started e) rows (λ r. refl)
              ∙ h)
          | inr fresh ↦ rw fresh (exists-append (is_channel_video channel video) rows _ h)
        ]

    upsert-exists_self :
        (e : FlatPlaylistEntry) (rows : List ChannelVideo)
        → exists
            (is_channel_video channel e.video_id)
            (upsert_channel_video upload_time channel started e rows)
          ≡ true
    unfolding upsert_channel_video observe is_channel_video first_seen
    upsert-exists_self e rows =
        elim (Bool-cases (exists (is_channel_video channel e.video_id) rows)) [
          | inl known ↦ rw known (
              exists-update (is_channel_video channel e.video_id)
                (is_channel_video channel e.video_id) (observe upload_time started e) rows
                (λ r. refl)
              ∙ known)
          | inr fresh ↦ rw fresh (
              exists-append_last (is_channel_video channel e.video_id) rows
                (first_seen upload_time channel started e)
                (rw (text_eq_refl channel, text_eq_refl e.video_id) refl))
        ]

    entries-keep :
        (entries : List FlatPlaylistEntry) (video : Text) (rows : List ChannelVideo)
        → All (Alive video) rows
        → exists (is_channel_video channel video) rows ≡ true
        → All (Alive video) (upsert_entries upload_time channel started entries rows)
          × (exists
                (is_channel_video channel video)
                (upsert_entries upload_time channel started entries rows)
              ≡ true)
    unfolding upsert_entries
    entries-keep [] video rows h k = (h, k)
    entries-keep (e ∷ entries) video rows h k =
        entries-keep entries video (upsert_channel_video upload_time channel started e rows)
          (upsert-Alive e video rows h) (upsert-exists e video rows k)

    entries-observed :
        (entries : List FlatPlaylistEntry) (video : Text) (rows : List ChannelVideo)
        → observed entries video ≡ true
        → All (Alive video) (upsert_entries upload_time channel started entries rows)
          × (exists
                (is_channel_video channel video)
                (upsert_entries upload_time channel started entries rows)
              ≡ true)
    unfolding upsert_entries observed
    entries-observed [] video rows on = absurd (cc)
    entries-observed (e ∷ entries) video rows on =
        let next = upsert_channel_video upload_time channel started e rows in
        elim (Bool-cases (text_eq e.video_id video)) [
          | inl same ↦
              let it : e.video_id ≡ video = (text_eq_iff e.video_id video).0 same in
              rw (sym it) (
                entries-keep entries e.video_id next (upsert-Alive_self e rows)
                  (upsert-exists_self e rows))
          | inr other ↦ entries-observed entries video next (ground (arith, on, other))
        ]

observed-kept :
    (channel : Text) (started : ℕ) (entries : List FlatPlaylistEntry) (video : Text)
    (r : ChannelVideo)
    → observed entries video ≡ true
    → is_vanished channel started entries r ≡ true
    → is_channel_video channel video r ≡ true
    → true ≡ false
unfolding is_vanished is_channel_video
observed-kept channel started entries video r on gone key =
    let same : r.video_id ≡ video = (text_eq_iff r.video_id video).0 (ground arith) in
    let seen : observed entries r.video_id ≡ true = rw same on in ground arith

vanished-deleted :
    (channel : Text) (started : ℕ) (entries : List FlatPlaylistEntry) (r : ChannelVideo)
    → is_vanished channel started entries r ≡ false
    → text_eq r.channel_id channel ≡ true
    → observed entries r.video_id ≡ false
    → r.first_seen_at < started
    → r.is_deleted ≡ true
unfolding is_vanished
vanished-deleted channel started entries r off here unseen old = ground arith

written-rows :
    (run : Run) (channel : Text) (started : ℕ) (entries : List FlatPlaylistEntry) (db : Tables)
    → run.commits ≡ true
    → (apply_backfill_entries run channel started entries db).0.channel_videos
      ≡ update
          (is_vanished channel started entries)
          tombstone
          (upsert_entries run.upload_time channel started entries db.channel_videos)
unfolding apply_backfill_entries
written-rows run channel started entries db committed = elim (Bool-cases run.updates) [
  | inl on ↦ rw (committed, on) refl
  | inr off ↦ rw (committed, off) refl
]

-- A run that was committed leaves every video that it observed with a row of the channel, and no
-- such row is a tombstone.
pub apply_backfill_entries-observed :
    (run : Run) (channel : Text) (started : ℕ) (entries : List FlatPlaylistEntry) (db : Tables)
    (video : Text)
    → run.commits ≡ true
    → observed entries video ≡ true
    → All
        (λ r. is_channel_video channel video r ≡ true → r.is_deleted ≡ false)
        (apply_backfill_entries run channel started entries db).0.channel_videos
      × (exists
            (is_channel_video channel video)
            (apply_backfill_entries run channel started entries db).0.channel_videos
          ≡ true)
unfolding is_vanished tombstone is_channel_video
apply_backfill_entries-observed run channel started entries db video committed on =
    let h = entries-observed channel run.upload_time started entries video db.channel_videos on in
    let rows = upsert_entries run.upload_time channel started entries db.channel_videos in
    rw (written-rows run channel started entries db committed) (
      All-update {P = Alive channel video} {Q = Alive channel video}
          (is_vanished channel started entries) tombstone rows
          (λ r alive gone key. observed-kept channel started entries video r on gone key)
          (λ r alive kept. alive) h.0,
      exists-update (is_channel_video channel video) (is_vanished channel started entries) tombstone
            rows (λ r. refl)
          ∙ h.1,
    )

-- A run that was committed leaves as tombstone every row of the channel that it did not observe and
-- that was first seen before it started.
pub apply_backfill_entries-vanished :
    (run : Run) (channel : Text) (started : ℕ) (entries : List FlatPlaylistEntry) (db : Tables)
    → run.commits ≡ true
    → All
        (λ r.
          text_eq r.channel_id channel ≡ true
          → observed entries r.video_id ≡ false
          → r.first_seen_at < started
          → r.is_deleted ≡ true)
        (apply_backfill_entries run channel started entries db).0.channel_videos
unfolding is_vanished tombstone
apply_backfill_entries-vanished run channel started entries db committed =
    rw (written-rows run channel started entries db committed) (
      All-update {P = λ r. Unit} (is_vanished channel started entries) tombstone
        (upsert_entries run.upload_time channel started entries db.channel_videos)
        (λ r any on here unseen old. refl)
        (λ r any off here unseen old.
          vanished-deleted channel started entries r off here unseen old)
        (All-any _))
