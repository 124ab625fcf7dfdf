-- ===== src/Tests/Feed.antt =====
-- The theorems about the feed of src/services/feed_cache.rs and src/services/feed_refresher.rs, at
-- concrete inputs.
use Prim.Native.Nat.{min}
use hometube.Prelude.{
  leb, ◌-◌, ◌*◌, ◌≤◌, ◌<◌, ◌≡◌, ◌≢◌, refl, Bool, true, false, Option, none, some, inl, List, [],
  ◌∷◌, length, arith,
}
use hometube.Prelude.Text.{Text, codes, text_eq, decimal, value_from}
use hometube.Prelude.Assoc.{insert}
use hometube.Prelude.Int.{pos, int_text, parse_u32, parse_u64}
use hometube.Prelude.Sql.{All, Member, count, exists, select, update}
use hometube.Prelude.Split.{find_map, filter_map}
use hometube.Access.{Tables, entry, is_entry}
use hometube.Backfill.Apply.{ChannelVideo, Video, rss, backfill, is_channel_video, is_video, upsert}
use hometube.Backfill.Failure.{to_ascii_lowercase}
use hometube.Feed.Sources.{
  Source, new_source, is_source, is_due_source, saturating_add, claim_due_sources,
  record_source_dead, dead, record_sidecar_fallback_dispatched, dispatched,
}
use hometube.Feed.Items.{
  ItemRow, UpsertStats, Feeds, upsert_channel_videos, upsert_items, upsert_item, count_items, prior,
  counted, feed_channel_title, propagate_title,
}
use hometube.Feed.Unique.{UniqueChannels}
use hometube.Feed.Claim.{is_returned, IsFirstDue, claim_due_sources-first}
use hometube.Feed.Kept.{Extends, IsLive, total, upsert_channel_videos-Extends}
use hometube.Feed.Relative.{parse_relative_to_unix}
use hometube.Feed.Config.{RefresherConfig, default_config, load}
use hometube.Feed.Settings.{UpdateRefresherSettings, admin_put_refresher_settings, saved}
use hometube.Feed.Tunables.{
  IsInRange, load-IsInRange, overridden, admin_put_refresher_settings-load,
}
use hometube.Feed.Poll.{
  Poll, rss_failed, not_found, fallback_caps_permit, effective_sidecar_min_interval, max_published,
  poll_one,
}
use hometube.Feed.Settled.{poll_one-Settles}
use hometube.Feed.Caps.{last_fallbacks, IsPermitted, poll_one-IsPermitted}
use hometube.Feed.Child.{
  Candidate, new_video_item, find_video, joined_video, is_shown, comes_first, ordered_rows,
  candidates, newest_first, insert_candidate, first_rows, feed_for_child, title_of, shown_at,
}
use hometube.Feed.Shown.{
  IsJoined, IsNotOlder, IsViewable, HasOneEach, feed_for_child-IsViewable, feed_for_child-newest,
}

-- What the tests compute with.
program : Unit {0}
unfolding text_eq exists select update count filter_map find_map is_entry is_video is_channel_video
    upsert upsert_channel_videos upsert_items upsert_item count_items prior counted
    feed_channel_title propagate_title new_source is_source find_video joined_video title_of
    is_shown candidates comes_first shown_at newest_first insert_candidate first_rows ordered_rows
    poll_one fallback_caps_permit effective_sidecar_min_interval max_published default_config
    admin_put_refresher_settings insert decimal int_text
program = tt

three_days :
    parse_relative_to_unix (codes " Streamed 3 days ago") 1000000 ≡ some (1000000 - 3 * 86400)
unfolding parse_relative_to_unix text_eq to_ascii_lowercase parse_u32 parse_u64 value_from
three_days = refl

two_months : parse_relative_to_unix (codes "2mo") 10000000 ≡ some (10000000 - 2 * 30 * 86400)
unfolding parse_relative_to_unix text_eq to_ascii_lowercase parse_u32 parse_u64 value_from
two_months = refl

abbrev channel : Text
channel = codes "c"

abbrev video : Text
video = codes "v"

abbrev row : ChannelVideo
row = record {
  channel_id = channel;
  video_id = video;
  published_at = some 70;
  published_raw = none;
  view_count = none;
  first_seen_at = 60;
  last_seen_at = 90;
  source = backfill;
  is_deleted = false;
}

abbrev watched : Video
watched = record {
  video_id = video;
  title = codes "Video";
  channel_id = some channel;
  duration_seconds = none;
  thumbnail_url = none;
  last_updated_at = 60;
}

abbrev source : Source
source = record {
  channel_id = channel;
  channel_title = none;
  channel_thumbnail_url = none;
  description = none;
  rss_etag = none;
  rss_last_modified = none;
  rss_last_polled_at = none;
  rss_last_success_at = none;
  rss_last_error = none;
  rss_consecutive_errors = 2;
  rss_next_poll_at = 50;
  last_sidecar_fallback_at = none;
}

abbrev feeds : Feeds
feeds = record { sources = source ∷ []; channel_videos = row ∷ []; videos = watched ∷ [] }

abbrev lists : Tables
lists = record {
  blocked_videos = [];
  hidden_videos = [];
  allowlisted_videos = [];
  allowlisted_channels = entry 7 channel ∷ [];
  accounts = [];
}

feed_for_child-IsViewable_example :
    All (IsViewable lists feeds 7) (feed_for_child lists feeds 7 20)
    × HasOneEach (feed_for_child lists feeds 7 20)
    × (length (feed_for_child lists feeds 7 20) ≤ 20)
feed_for_child-IsViewable_example = feed_for_child-IsViewable lists feeds 7 20

abbrev candidate : Candidate
candidate = record {
  video_id = video;
  title = codes "Video";
  channel_id = channel;
  channel_title = none;
  thumbnail_url = none;
  published_at = some 70;
  last_seen_at = 90;
}

shown : is_shown lists 7 row ≡ true
unfolding program
shown = refl

found : find_video video feeds.videos ≡ some watched
unfolding program
found = refl

joined : joined_video feeds.sources row (some watched) ≡ some candidate
unfolding program
joined = refl

one_row : ordered_rows lists feeds 7 ≡ candidate ∷ []
unfolding program
one_row = refl

fits : length (ordered_rows lists feeds 7) ≤ 20
fits = rw one_row (omega arith)

feed_for_child-newest_example :
    (d : Candidate) × Member (new_video_item d) (feed_for_child lists feeds 7 20)
    × (d.video_id ≡ video)
    × IsJoined lists feeds 7 d
    × IsNotOlder d candidate
feed_for_child-newest_example =
    feed_for_child-newest lists feeds 7 20 row watched candidate (inl refl) shown found joined fits

early : 150 < saturating_add 100 120
unfolding saturating_add
early = omega arith

one_source : UniqueChannels (source ∷ [])
unfolding program
one_source id = ground arith

claim_due_sources-first_example :
    (length (claim_due_sources 100 5 120 (source ∷ [])).1
      ≡ min 5 (count (λ s. leb s.rss_next_poll_at 100) (source ∷ [])))
    × All
        (IsFirstDue 100
          (saturating_add 100 120)
          (source ∷ [])
          (claim_due_sources 100 5 120 (source ∷ [])).1)
        (claim_due_sources 100 5 120 (source ∷ [])).1
    × All
        (λ u.
          is_returned (claim_due_sources 100 5 120 (source ∷ [])).1 u ≡ true
          → is_due_source 150 u ≡ false)
        (claim_due_sources 100 5 120 (source ∷ [])).0
claim_due_sources-first_example =
    claim_due_sources-first 100 5 120 150 (source ∷ []) one_source early

-- The feed fails, and the sidecar does not know the channel.
abbrev poll : Poll
poll = record {
  now = 100;
  rss = rss_failed (codes "timeout");
  sidecar = not_found;
  jitter = λ n. n;
  reads_published = true;
  reserves = true;
  commits = true;
  records = true;
}

config : RefresherConfig
config = default_config

interval_pos : 0 < config.channel_interval
unfolding config default_config
interval_pos = omega arith

poll_one-Settles_example :
    (poll.records ≡ true
      → poll.commits ≡ true
      → poll.reserves ≡ true
      → (poll_one true poll 0 source config feeds).1 ≡ true)
    × ((poll_one true poll 0 source config feeds).1 ≡ true
        → All
            (λ s. is_source source.channel_id s ≡ true → 100 < s.rss_next_poll_at)
            (poll_one true poll 0 source config feeds).0.sources)
poll_one-Settles_example = poll_one-Settles true poll 0 source config feeds (λ n h. h) interval_pos

reserved : last_fallbacks (poll_one true poll 0 source config feeds).0 ≡ some 100 ∷ []
unfolding program config record_source_dead record_sidecar_fallback_dispatched dispatched dead
reserved = refl

changes : last_fallbacks (poll_one true poll 0 source config feeds).0 ≢ last_fallbacks feeds
changes = rw reserved (λ e. cc)

poll_one-IsPermitted_example :
    ((err : Text) × (poll.rss ≡ rss_failed err))
    × (◌≡◌ {A = Bool} true true)
    × IsPermitted source
        (effective_sidecar_min_interval true feeds.channel_videos channel config 100)
        config
        0
        100
poll_one-IsPermitted_example = poll_one-IsPermitted true poll 0 source config feeds changes

abbrev item : ItemRow
item = record {
  video_id = codes "w";
  title = codes "New";
  channel_id = none;
  channel_title = some channel;
  thumbnail_url = none;
  published_at = some 95;
  published_raw = none;
}

abbrev batch : List ItemRow
batch = item ∷ []

abbrev result : Feeds × Option UpsertStats
result = upsert_channel_videos true rss channel 100 batch feeds

upsert_channel_videos-Extends_example :
    ((s : UpsertStats)
      → result.1 ≡ some s
      → Extends channel feeds.channel_videos result.0.channel_videos
        × All (λ (i : ItemRow). IsLive channel i.video_id result.0.channel_videos) batch
        × (total s ≡ length batch))
    × (result.1 ≡ none → result.0 ≡ feeds)
upsert_channel_videos-Extends_example =
    upsert_channel_videos-Extends true rss channel 100 batch feeds result.0 result.1 refl

load-IsInRange_example :
    IsInRange (load true ((codes "feed_refresher_max_inflight", codes "900") ∷ []))
load-IsInRange_example =
    load-IsInRange true ((codes "feed_refresher_max_inflight", codes "900") ∷ [])

abbrev body : UpdateRefresherSettings
body = record {
  dispatch_delay_ms = some 500;
  max_inflight = none;
  batch_size = some (pos 10);
  idle_tick_s = none;
  channel_interval_s = none;
  sidecar_fallback_enabled = some false;
  sidecar_fallback_min_interval_s = none;
  sidecar_fallback_dormant_interval_s = none;
  sidecar_fallback_archived_interval_s = none;
  sidecar_dormant_threshold_days = none;
  sidecar_archived_threshold_days = none;
  sidecar_fallback_max_per_hour = none;
}

answers : (admin_put_refresher_settings (λ key. true) body []).1 ≡ saved
unfolding program
answers = refl

admin_put_refresher_settings-load_example :
    load true (admin_put_refresher_settings (λ key. true) body []).0
    ≡ overridden body (load true [])
admin_put_refresher_settings-load_example =
    admin_put_refresher_settings-load (λ key. true) body [] answers
