-- ===== src/Feed/Items.antt =====
-- The videos that a poll writes: `upsert_channel_videos` of src/services/feed_cache.rs, for a feed
-- and for the sidecar. Whether the transaction commits is a parameter.
use hometube.Prelude.{
  ℕ, ◌+◌, Bool, true, false, Option, none, some, List, [], ◌∷◌, ◌++◌, if◌then◌else◌,
}
use hometube.Prelude.Text.{Text}
use hometube.Prelude.Sql.{exists, update}
use hometube.Prelude.Split.{find_map}
use hometube.Backfill.Apply.{ChannelVideo, Video, rss, sidecar, is_channel_video, non_empty, upsert}
use hometube.Backfill.Apply as Apply
use hometube.Feed.Sources.{Source, is_source}

pub record ItemRow : Type 0 where
  pub video_id : Text
  pub title : Text
  pub channel_id : Option Text
  pub channel_title : Option Text
  pub thumbnail_url : Option Text
  pub published_at : Option ℕ
  pub published_raw : Option Text

pub record UpsertStats : Type 0 where
  pub inserted : ℕ
  pub updated : ℕ
  pub untombstoned : ℕ

-- The tables that a poll writes to.
pub record Feeds : Type 0 where
  pub sources : List Source
  pub channel_videos : List ChannelVideo
  pub videos : List Video

-- `COALESCE(stored, given)`
first_of {ℓ} : {A : Type ℓ} → Option A → Option A → Option A
first_of none given = given
first_of (some a) given = some a

-- The DO UPDATE of `channel_videos`.
unfoldable pub resighted : Apply.Source → ℕ → ItemRow → ChannelVideo → ChannelVideo
unfolding first_of
resighted source now item r = record r {
  published_at = first_of r.published_at item.published_at;
  published_raw = first_of r.published_raw item.published_raw;
  last_seen_at = now;
  source = source;
  is_deleted = false;
}

unfoldable pub sighted : Apply.Source → Text → ℕ → ItemRow → ChannelVideo
sighted source channel now item = record {
  channel_id = channel;
  video_id = item.video_id;
  published_at = item.published_at;
  published_raw = item.published_raw;
  view_count = none;
  first_seen_at = now;
  last_seen_at = now;
  source = source;
  is_deleted = false;
}

unfoldable pub upsert_item :
    Apply.Source → Text → ℕ → ItemRow → List ChannelVideo → List ChannelVideo
upsert_item source channel now item rows =
    if exists (is_channel_video channel item.video_id) rows
    then update (is_channel_video channel item.video_id) (resighted source now item) rows
    else rows ++ (sighted source channel now item ∷ [])

-- `item.channel_id.as_deref().or(Some(channel_id))`
or_channel : Option Text → Text → Option Text
or_channel none channel = some channel
or_channel (some c) channel = some c

unfoldable pub upsert_items :
    Apply.Source
    → Text
    → ℕ
    → List ItemRow
    → List ChannelVideo × List Video
    → List ChannelVideo × List Video
unfolding or_channel upsert_item
upsert_items source channel now [] tables = tables
upsert_items source channel now (item ∷ items) (rows, videos) =
    upsert_items source channel now items (
      upsert_item source channel now item rows,
      upsert now item.video_id (non_empty (some item.title)) (or_channel item.channel_id channel)
          none (non_empty item.thumbnail_url) videos,
    )

-- The first title of the batch that is not blank.
unfoldable pub feed_channel_title : List ItemRow → Option Text
feed_channel_title items = find_map (λ (i : ItemRow). non_empty i.channel_title) items

unfoldable pub propagate_title : Text → Option Text → List Source → List Source
propagate_title channel none rows = rows
propagate_title channel (some title) rows =
    update (is_source channel) (λ (s : Source). record s { channel_title = some title }) rows

-- The state of a video before the batch: whether its row is a tombstone.
unfoldable pub prior : Text → Text → List ChannelVideo → Option Bool
prior channel video [] = none
prior channel video (r ∷ rows) =
    if is_channel_video channel video r then some r.is_deleted else prior channel video rows

unfoldable pub counted : Option Bool → UpsertStats → UpsertStats
counted none s = record s { inserted = s.inserted + 1 }
counted (some true) s = record s { untombstoned = s.untombstoned + 1 }
counted (some false) s = record s { updated = s.updated + 1 }

unfoldable pub count_items : Text → List ChannelVideo → List ItemRow → UpsertStats → UpsertStats
unfolding prior counted
count_items channel rows [] s = s
count_items channel rows (item ∷ items) s =
    count_items channel rows items (counted (prior channel item.video_id rows) s)

unfoldable pub upsert_channel_videos :
    Bool → Apply.Source → Text → ℕ → List ItemRow → Feeds → Feeds × Option UpsertStats
upsert_channel_videos commits source channel now items db =
    let none_yet : UpsertStats = record { inserted = 0; updated = 0; untombstoned = 0 } in
    let written = upsert_items source channel now items (db.channel_videos, db.videos) in
    if commits
    then (
      record {
        sources = propagate_title channel (feed_channel_title items) db.sources;
        channel_videos = written.0;
        videos = written.1;
      },
      some (count_items channel db.channel_videos items none_yet),
    )
    else (db, none)

unfoldable pub upsert_channel_videos_from_rss :
    Bool → Text → ℕ → List ItemRow → Feeds → Feeds × Option UpsertStats
upsert_channel_videos_from_rss commits channel now items db =
    upsert_channel_videos commits rss channel now items db

unfoldable pub upsert_channel_videos_from_sidecar :
    Bool → Text → ℕ → List ItemRow → Feeds → Feeds × Option UpsertStats
upsert_channel_videos_from_sidecar commits channel now items db =
    upsert_channel_videos commits sidecar channel now items db
