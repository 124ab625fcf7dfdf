-- ===== src/Backfill/Apply.antt =====
-- What a finished run writes: `apply_backfill_entries` of src/services/channel_backfill.rs and the
-- upsert of src/models/video.rs. The time that an upload date stands for, the rounding of a duration
-- and the jitter are parameters, and so is which transaction the database commits.
use hometube.Prelude.{
  ℕ, ◌+◌, Bool, true, false, not, ◌&&◌, ◌||◌, Option, none, some, List, [], ◌∷◌, ◌++◌, ltb, length,
  if◌then◌else◌,
}
use hometube.Prelude.Text.{Text, text_eq}
use hometube.Prelude.Sql.{count, exists, update}
use hometube.Backfill.Queue.{Channel, pending, has_id}

-- An entry of the flat playlist, as yt-dlp reports it.
pub record FlatPlaylistEntry : Type 0 where
  pub video_id : Text
  pub title : Option Text
  pub duration : Option ℕ
  pub upload_date : Option Text
  pub view_count : Option ℕ

-- A row of `videos`.
pub record Video : Type 0 where
  pub video_id : Text
  pub title : Text
  pub channel_id : Option Text
  pub duration_seconds : Option ℕ
  pub thumbnail_url : Option Text
  pub last_updated_at : ℕ

pub data Source : Type 0 where
  backfill rss sidecar : Source

-- A row of `channel_videos`.
pub record ChannelVideo : Type 0 where
  pub channel_id : Text
  pub video_id : Text
  pub published_at : Option ℕ
  pub published_raw : Option Text
  pub view_count : Option ℕ
  pub first_seen_at : ℕ
  pub last_seen_at : ℕ
  pub source : Source
  pub is_deleted : Bool

-- `COALESCE` and `NULLIF(…, '')`
coalesce : {A : Type 0} → Option A → Option A → Option A
coalesce none stored = stored
coalesce (some a) stored = some a

or_stored : Option Text → Text → Text
or_stored none stored = stored
or_stored (some t) stored = t

unfoldable pub non_empty : Option Text → Option Text
non_empty none = none
non_empty (some []) = none
non_empty (some (c ∷ s)) = some (c ∷ s)

unfoldable pub is_video : Text → Video → Bool
is_video id v = text_eq v.video_id id

unfoldable pub refresh_video :
    ℕ → Option Text → Option Text → Option ℕ → Option Text → Video → Video
unfolding coalesce or_stored
refresh_video now title channel duration thumbnail v = record v {
  title = or_stored (non_empty title) v.title;
  channel_id = coalesce (non_empty channel) v.channel_id;
  duration_seconds = coalesce duration v.duration_seconds;
  thumbnail_url = coalesce (non_empty thumbnail) v.thumbnail_url;
  last_updated_at = now;
}

-- `models::video::upsert`
unfoldable pub upsert :
    ℕ → Text → Option Text → Option Text → Option ℕ → Option Text → List Video → List Video
unfolding or_stored
upsert now id title channel duration thumbnail videos =
    if exists (is_video id) videos
    then update (is_video id) (refresh_video now title channel duration thumbnail) videos
    else videos
      ++ (record {
        video_id = id;
        title = or_stored title id;
        channel_id = channel;
        duration_seconds = duration;
        thumbnail_url = thumbnail;
        last_updated_at = now;
      }
          ∷ [])

-- The primary key of `channel_videos`.
unfoldable pub is_channel_video : Text → Text → ChannelVideo → Bool
is_channel_video channel video r = text_eq r.channel_id channel && text_eq r.video_id video

unfoldable pub observe : (Text → Option ℕ) → ℕ → FlatPlaylistEntry → ChannelVideo → ChannelVideo
unfolding coalesce
observe upload_time started e r = record r {
  published_at =
      coalesce r.published_at (elim e.upload_date [ none ↦ none | some raw ↦ upload_time raw ]);
  published_raw = coalesce r.published_raw e.upload_date;
  view_count = coalesce e.view_count r.view_count;
  last_seen_at = started;
  source = backfill;
  is_deleted = false;
}

unfoldable pub first_seen : (Text → Option ℕ) → Text → ℕ → FlatPlaylistEntry → ChannelVideo
first_seen upload_time channel started e = record {
  channel_id = channel;
  video_id = e.video_id;
  published_at = elim e.upload_date [ none ↦ none | some raw ↦ upload_time raw ];
  published_raw = e.upload_date;
  view_count = e.view_count;
  first_seen_at = started;
  last_seen_at = started;
  source = backfill;
  is_deleted = false;
}

-- The upsert into `channel_videos`.
unfoldable pub upsert_channel_video :
    (Text → Option ℕ) → Text → ℕ → FlatPlaylistEntry → List ChannelVideo → List ChannelVideo
upsert_channel_video upload_time channel started e rows =
    if exists (is_channel_video channel e.video_id) rows
    then update (is_channel_video channel e.video_id) (observe upload_time started e) rows
    else rows ++ (first_seen upload_time channel started e ∷ [])

unfoldable pub upsert_entries :
    (Text → Option ℕ) → Text → ℕ → List FlatPlaylistEntry → List ChannelVideo → List ChannelVideo
upsert_entries upload_time channel started [] rows = rows
upsert_entries upload_time channel started (e ∷ entries) rows =
    upsert_entries upload_time channel started entries
      (upsert_channel_video upload_time channel started e rows)

round_duration : (ℕ → ℕ) → Option ℕ → Option ℕ
round_duration round none = none
round_duration round (some d) = some (round d)

unfoldable pub upsert_videos : (ℕ → ℕ) → ℕ → Text → List FlatPlaylistEntry → List Video → List Video
unfolding round_duration
upsert_videos round now channel [] videos = videos
upsert_videos round now channel (e ∷ entries) videos = upsert_videos round now channel entries (
    upsert now e.video_id (non_empty e.title) (some channel) (round_duration round e.duration) none
      videos)

-- The entries whose video has no row of the channel before the run, in order.
unfoldable pub new_videos : Text → List ChannelVideo → List FlatPlaylistEntry → List Text
new_videos channel rows [] = []
new_videos channel rows (e ∷ entries) =
    let rest = new_videos channel rows entries in
    if exists (is_channel_video channel e.video_id) rows then rest else e.video_id ∷ rest

-- The video is among the observed.
unfoldable pub observed : List FlatPlaylistEntry → Text → Bool
observed [] video = false
observed (e ∷ entries) video = text_eq e.video_id video || observed entries video

-- The WHERE of the tombstones.
unfoldable pub is_vanished : Text → ℕ → List FlatPlaylistEntry → ChannelVideo → Bool
is_vanished channel started entries r =
    text_eq r.channel_id channel
    && (not r.is_deleted && (ltb r.first_seen_at started && not (observed entries r.video_id)))

unfoldable pub tombstone : ChannelVideo → ChannelVideo
tombstone r = record r { is_deleted = true }

unfoldable pub completed : ℕ → ℕ → ℕ → ℕ → ℕ → Channel → Channel
completed now next total new_count removed c = record c {
  status = pending;
  last_completed_at = some now;
  last_error = none;
  consecutive_errors = 0;
  next_at = next;
  lease_expires_at = none;
  videos_observed_total = total;
  videos_new_last_run = new_count;
  videos_removed_last_run = removed;
}

pub record Tables : Type 0 where
  pub channels : List Channel
  pub channel_videos : List ChannelVideo
  pub videos : List Video

-- What the run does not decide itself: the clock, the library calls, and the database's outcomes.
pub record Run : Type 0 where
  pub now : ℕ
  pub upload_time : Text → Option ℕ
  pub round : ℕ → ℕ
  pub jittered_interval : ℕ
  pub commits : Bool
  pub updates : Bool

-- The tables after the call, and the new videos where it returns `Ok`.
unfoldable pub apply_backfill_entries :
    Run → Text → ℕ → List FlatPlaylistEntry → Tables → Tables × Option (List Text)
apply_backfill_entries run channel started entries db =
    let new_video_ids = new_videos channel db.channel_videos entries in
    let rows = upsert_entries run.upload_time channel started entries db.channel_videos in
    let vanished = is_vanished channel started entries in
    let written : Tables = record db {
      channel_videos = update vanished tombstone rows;
      videos = upsert_videos run.round run.now channel entries db.videos;
    } in
    let finished : Tables = record written {
      channels =
          update (has_id channel)
            (completed run.now (run.now + run.jittered_interval) (length entries)
              (length new_video_ids) (count vanished rows))
            db.channels;
    } in
    if run.commits
    then (if run.updates then (finished, some new_video_ids) else (written, none))
    else (db, none)
