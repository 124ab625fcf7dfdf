-- ===== src/Feed/Poll.antt =====
-- One poll of a channel: `poll_one`, `run_sidecar_fallback`, `fallback_caps_permit`,
-- `effective_sidecar_min_interval` and `backoff_for_attempt` of src/services/feed_refresher.rs. The
-- answers of YouTube and of the sidecar, the random jitter and which statements succeed are
-- parameters.
use hometube.Prelude.{
  ℕ, ◌+◌, ◌-◌, ◌*◌, ◌/◌, ◌^◌, Bool, true, false, not, ◌&&◌, Option, none, some, List, [], ◌∷◌, ◌++◌,
  ltb, leb, if◌then◌else◌, map,
}
use hometube.Prelude.Text.{Text, codes, decimal, text_eq}
use hometube.Prelude.Sql.{select}
use hometube.Prelude.Split.{find_map}
use hometube.Prelude.Assoc.{Assoc, get}
use hometube.Prelude.Int.{i64_half}
use hometube.Backfill.Apply.{ChannelVideo}
use hometube.Backfill.Failure.{lesser, clamp, max_backoff}
use hometube.Feed.Sources.{
  Source, PollSuccess, record_poll_success, record_poll_failure, record_source_dead,
  record_sidecar_fallback_dispatched,
}
use hometube.Feed.Items.{
  ItemRow, UpsertStats, Feeds, upsert_channel_videos_from_rss, upsert_channel_videos_from_sidecar,
}
use hometube.Feed.Config.{RefresherConfig}
use hometube.Feed.Relative.{parse_relative_to_unix}

-- `PollOutcome`, and an error with its message.
pub data PollOutcome : Type 0 where
  not_modified : PollOutcome
  updated : Option Text → Option Text → Option Text → List ItemRow → PollOutcome
  rss_failed : Text → PollOutcome

-- What the model reads of the sidecar's `ChannelVideoItem`.
pub record SidecarItem : Type 0 where
  pub video_id : Text
  pub title : Text
  pub channel_id : Option Text
  pub channel_title : Option Text
  pub thumbnails : Assoc Text
  pub published_at : Option Text

pub data SidecarOutcome : Type 0 where
  items : List SidecarItem → SidecarOutcome
  not_found : SidecarOutcome
  sidecar_failed : Text → SidecarOutcome

-- What one poll meets: the answers, the random intervals, and which statements succeed.
pub record Poll : Type 0 where
  pub now : ℕ
  pub rss : PollOutcome
  pub sidecar : SidecarOutcome
  pub jitter : ℕ → ℕ
  pub reads_published : Bool
  pub reserves : Bool
  pub commits : Bool
  pub records : Bool

abbrev pub dead_source_defer_secs : ℕ
dead_source_defer_secs = 365 * 24 * 60 * 60

abbrev pub sidecar_notfound_shelve_threshold : ℕ
sidecar_notfound_shelve_threshold = 3

unfoldable pub capped_interval : ℕ → ℕ → ℕ
unfolding lesser clamp
capped_interval attempt interval = lesser (interval * 2 ^ clamp 1 16 attempt) max_backoff

unfoldable pub fallback_caps_permit : Source → ℕ → RefresherConfig → ℕ → ℕ → Bool
fallback_caps_permit source interval cfg fallbacks_this_hour now =
    let hourly = not (
      ltb 0 cfg.sidecar_fallback_max_per_hour
      && leb cfg.sidecar_fallback_max_per_hour fallbacks_this_hour) in
    elim source.last_sidecar_fallback_at [
      | none ↦ hourly
      | some last ↦ if ltb now (last + interval) then false else hourly
    ]

later : Option ℕ → Option ℕ → Option ℕ
later none o = o
later (some t) none = some t
later (some t) (some u) = some (if leb t u then u else t)

unfoldable pub max_published : List ChannelVideo → Option ℕ
unfolding later
max_published [] = none
max_published (r ∷ rows) = later r.published_at (max_published rows)

is_live_of : Text → ChannelVideo → Bool
is_live_of channel r = text_eq r.channel_id channel && not r.is_deleted

days_since : ℕ → Option ℕ → ℕ
days_since now none = i64_half - 1
days_since now (some t) = (now - t) / 86400

bucket_of : RefresherConfig → ℕ → ℕ
bucket_of cfg days =
    if leb days cfg.sidecar_dormant_threshold_days
    then cfg.sidecar_fallback_min_interval
    else if leb days cfg.sidecar_archived_threshold_days
    then cfg.sidecar_fallback_dormant_interval
    else cfg.sidecar_fallback_archived_interval

unfoldable pub effective_sidecar_min_interval :
    Bool → List ChannelVideo → Text → RefresherConfig → ℕ → ℕ
unfolding max_published is_live_of days_since bucket_of
effective_sidecar_min_interval reads rows channel cfg now =
    bucket_of cfg
      (days_since now (if reads then max_published (select (is_live_of channel) rows) else none))

parsed_time : Option Text → ℕ → Option ℕ
unfolding parse_relative_to_unix
parsed_time none now = none
parsed_time (some raw) now = parse_relative_to_unix raw now

unfoldable pub sidecar_item_to_row : ℕ → SidecarItem → ItemRow
unfolding parsed_time
sidecar_item_to_row now item = record {
  video_id = item.video_id;
  title = item.title;
  channel_id = item.channel_id;
  channel_title = item.channel_title;
  thumbnail_url =
      find_map (λ (k : Text). get k item.thumbnails)
        (codes "maxres" ∷ codes "high" ∷ codes "standard" ∷ codes "medium" ∷ codes "default" ∷ []);
  published_at = parsed_time item.published_at now;
  published_raw = item.published_at;
}

-- The statement that ends a poll, and whether the call returns `Ok`.
unfoldable pub finish : Poll → (List Source → List Source) → Feeds → Feeds × Bool
finish poll write db =
    if poll.records then (record db { sources = write db.sources }, true) else (db, false)

-- The upsert of the items, and the success behind it.
unfoldable pub after_items : Poll → PollSuccess → Feeds × Option UpsertStats → Feeds × Bool
unfolding finish
after_items poll args (db, none) = (db, false)
after_items poll args (db, some stats) = finish poll (record_poll_success args) db

unfoldable pub backoff : Poll → ℕ → RefresherConfig → ℕ
unfolding capped_interval
backoff poll attempt cfg = poll.now + poll.jitter (capped_interval attempt cfg.channel_interval)

unfoldable pub on_not_found : Poll → Source → RefresherConfig → Feeds → Feeds × Bool
unfolding finish backoff
on_not_found poll source cfg db =
    let attempt = source.rss_consecutive_errors + 1 in
    if leb sidecar_notfound_shelve_threshold attempt
    then finish poll
        (record_source_dead source.channel_id (codes "sidecar reports source not found")
          (poll.now + dead_source_defer_secs) poll.now)
        db
    else finish poll
        (record_poll_failure source.channel_id
          (codes "sidecar reports source not found ("
            ++ (decimal attempt
                ++ (codes "/" ++ (decimal sidecar_notfound_shelve_threshold ++ codes ")"))))
          (backoff poll attempt cfg) poll.now)
        db

-- The answer of the sidecar; `rss_err` is given, as `poll_one` gives it.
unfoldable pub on_sidecar :
    Poll → Source → RefresherConfig → Text → SidecarOutcome → Feeds → Feeds × Bool
unfolding after_items on_not_found finish backoff
on_sidecar poll source cfg rss_err (items found) db =
    after_items poll
      (record {
        channel_id = source.channel_id;
        title = none;
        etag = none;
        last_modified = none;
        next_poll_at = poll.now + poll.jitter cfg.channel_interval;
        now = poll.now;
      })
      (upsert_channel_videos_from_sidecar poll.commits source.channel_id poll.now
        (map (sidecar_item_to_row poll.now) found) db)
on_sidecar poll source cfg rss_err not_found db = on_not_found poll source cfg db
on_sidecar poll source cfg rss_err (sidecar_failed err) db =
    finish poll
      (record_poll_failure source.channel_id
        (codes "rss: " ++ (rss_err ++ (codes "; sidecar: " ++ err)))
        (backoff poll (source.rss_consecutive_errors + 1) cfg) poll.now)
      db

unfoldable pub run_sidecar_fallback : Poll → Source → RefresherConfig → Text → Feeds → Feeds × Bool
unfolding on_sidecar
run_sidecar_fallback poll source cfg rss_err db =
    if poll.reserves
    then on_sidecar poll source cfg rss_err poll.sidecar (record db {
      sources = record_sidecar_fallback_dispatched source.channel_id poll.now db.sources;
    })
    else (db, false)

-- An RSS error: the fallback where there is a client and both caps permit it, or a failure.
unfoldable pub on_rss_failed :
    Bool → Poll → ℕ → Source → RefresherConfig → Text → Feeds → Feeds × Bool
unfolding run_sidecar_fallback finish backoff
on_rss_failed has_client poll fallbacks source cfg err db =
    let interval =
      effective_sidecar_min_interval poll.reads_published db.channel_videos source.channel_id cfg
        poll.now in
    if has_client && fallback_caps_permit source interval cfg fallbacks poll.now
    then run_sidecar_fallback poll source cfg err db
    else finish poll
        (record_poll_failure source.channel_id err
          (backoff poll (source.rss_consecutive_errors + 1) cfg) poll.now)
        db

unfoldable pub on_rss :
    Bool → Poll → ℕ → Source → RefresherConfig → PollOutcome → Feeds → Feeds × Bool
unfolding on_rss_failed after_items finish
on_rss has_client poll fallbacks source cfg not_modified db =
    finish poll
      (record_poll_success (record {
        channel_id = source.channel_id;
        title = none;
        etag = source.rss_etag;
        last_modified = source.rss_last_modified;
        next_poll_at = poll.now + poll.jitter cfg.channel_interval;
        now = poll.now;
      }))
      db
on_rss has_client poll fallbacks source cfg (updated title etag last_modified found) db =
    after_items poll
      (record {
        channel_id = source.channel_id;
        title = title;
        etag = etag;
        last_modified = last_modified;
        next_poll_at = poll.now + poll.jitter cfg.channel_interval;
        now = poll.now;
      })
      (upsert_channel_videos_from_rss poll.commits source.channel_id poll.now found db)
on_rss has_client poll fallbacks source cfg (rss_failed err) db =
    on_rss_failed has_client poll fallbacks source cfg err db

-- The tables, and whether the call returns `Ok`. `source` is the row that the claim returned.
unfoldable pub poll_one : Bool → Poll → ℕ → Source → RefresherConfig → Feeds → Feeds × Bool
unfolding on_rss
poll_one has_client poll fallbacks source cfg db =
    on_rss has_client poll fallbacks source cfg poll.rss db
