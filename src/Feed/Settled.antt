-- ===== src/Feed/Settled.antt =====
-- How a poll of src/services/feed_refresher.rs leaves its channel, and when it asks the sidecar:
-- `poll_one` and `fallback_caps_permit`.
use hometube.Prelude.{
  ℕ, zero, suc, ◌+◌, ◌*◌, ◌^◌, ◌<◌, ◌≡◌, Bool, true, false, ◌&&◌, Bool-cases, Option, none, some,
  inl, inr, List, leb, arith, if◌then◌else◌,
}
use hometube.Prelude.Text.{Text}
use hometube.Prelude.Sql.{All, All-any, All-update, update}
use hometube.Backfill.Apply as Apply
use hometube.Backfill.Failure.{lesser, clamp, max_backoff}
use hometube.Feed.Sources.{
  Source, PollSuccess, is_source, succeeded, failed_poll, dead, record_poll_success,
  record_poll_failure, record_source_dead, record_sidecar_fallback_dispatched,
}
use hometube.Feed.Items.{
  ItemRow, UpsertStats, Feeds, upsert_channel_videos, upsert_channel_videos_from_rss,
  upsert_channel_videos_from_sidecar,
}
use hometube.Feed.Config.{RefresherConfig}
use hometube.Feed.Poll.{
  Poll, PollOutcome, not_modified, updated, rss_failed, SidecarOutcome, items, not_found,
  sidecar_failed, capped_interval, fallback_caps_permit, effective_sidecar_min_interval,
  after_items, backoff, on_not_found, on_sidecar, run_sidecar_fallback, on_rss_failed, on_rss,
  poll_one, finish, dead_source_defer_secs,
}

lesser_pos : (a b : ℕ) → 0 < a → 0 < b → 0 < lesser a b
unfolding lesser
lesser_pos a b h k = ground arith

power_pos : (k : ℕ) → 0 < 2 ^ k
power_pos zero = omega arith
power_pos (suc k) =
    let twice : 2 ^ suc k ≡ 2 ^ k + 2 ^ k = omega arith in omega (arith, power_pos k)

pow_pos : (a k : ℕ) → 0 < a → 0 < a * 2 ^ k
pow_pos a k h = let p = power_pos k in grind arith

capped_interval_pos : (attempt interval : ℕ) → 0 < interval → 0 < capped_interval attempt interval
unfolding capped_interval
capped_interval_pos attempt interval h =
    lesser_pos (interval * 2 ^ clamp 1 16 attempt) max_backoff
      (pow_pos interval (clamp 1 16 attempt) h) (omega arith)

module _ (poll : Poll) (id : Text) where
  -- Every row of the channel is polled again later than now.
  abbrev IsSettled : List Source → Type 0
  IsSettled rows = All (λ (s : Source). is_source id s ≡ true → poll.now < s.rss_next_poll_at) rows

  -- The same of a call, where it returns `Ok`.
  abbrev Settles : Feeds × Bool → Type 0
  Settles result = result.1 ≡ true → IsSettled result.0.sources

  branch-Settles :
      (b : Bool) (x y : Feeds × Bool) → Settles x → Settles y → Settles (if b then x else y)
  branch-Settles true x y h k = h
  branch-Settles false x y h k = k

  write-IsSettled :
      (set : Source → Source) (rows : List Source)
      → ((s : Source) → poll.now < (set s).rss_next_poll_at)
      → IsSettled (update (is_source id) set rows)
  write-IsSettled set rows h =
      All-update {P = λ s. Unit {0}} (is_source id) set rows (λ s any on on'. h s)
        (λ s any off on. absurd (cc)) (All-any rows)

  finish-Settles :
      (write : List Source → List Source) (db : Feeds)
      → ((rows : List Source) → IsSettled (write rows))
      → Settles (finish poll write db)
  unfolding finish
  finish-Settles write db h e = elim (Bool-cases poll.records) [
    | inl on ↦ rw on (h db.sources)
    | inr off ↦ absurd (ground arith)
  ]

module _ (poll : Poll) (source : Source) (cfg : RefresherConfig) where
  module _ (jitter_pos : (n : ℕ) → 0 < n → 0 < poll.jitter n)
      (interval_pos : 0 < cfg.channel_interval) where
    failure-Settles :
        (err : Text) (attempt : ℕ) (db : Feeds)
        → Settles poll source.channel_id (
            finish poll
              (record_poll_failure source.channel_id err (backoff poll attempt cfg) poll.now)
              db)
    unfolding record_poll_failure failed_poll backoff
    failure-Settles err attempt db =
        let waits =
          jitter_pos (capped_interval attempt cfg.channel_interval)
            (capped_interval_pos attempt cfg.channel_interval interval_pos) in
        finish-Settles poll source.channel_id _ db
          λ rows. write-IsSettled poll source.channel_id _ rows (λ s. omega (arith, waits))

    success-Settles :
        (title etag last_modified : Option Text) (db : Feeds)
        → Settles poll source.channel_id (
            finish poll
              (record_poll_success (record {
                channel_id = source.channel_id;
                title = title;
                etag = etag;
                last_modified = last_modified;
                next_poll_at = poll.now + poll.jitter cfg.channel_interval;
                now = poll.now;
              }))
              db)
    unfolding record_poll_success succeeded
    success-Settles title etag last_modified db =
        let waits = jitter_pos cfg.channel_interval interval_pos in
        finish-Settles poll source.channel_id _ db
          λ rows. write-IsSettled poll source.channel_id _ rows (λ s. omega (arith, waits))

    items-Settles :
        (title etag last_modified : Option Text) (stored : Feeds × Option UpsertStats)
        → Settles poll source.channel_id (
            after_items poll
              (record {
                channel_id = source.channel_id;
                title = title;
                etag = etag;
                last_modified = last_modified;
                next_poll_at = poll.now + poll.jitter cfg.channel_interval;
                now = poll.now;
              })
              stored)
    unfolding after_items
    items-Settles title etag last_modified (db, none) = λ e. absurd (cc)
    items-Settles title etag last_modified (db, some stats) =
        success-Settles title etag last_modified db

    dead-Settles :
        (reason : Text) (db : Feeds)
        → Settles poll source.channel_id (
            finish poll
              (record_source_dead source.channel_id reason
                (poll.now + dead_source_defer_secs)
                poll.now)
              db)
    unfolding record_source_dead dead
    dead-Settles reason db =
        finish-Settles poll source.channel_id _ db
          λ rows. write-IsSettled poll source.channel_id _ rows (λ s. omega arith)

    not_found-Settles :
        (db : Feeds) → Settles poll source.channel_id (on_not_found poll source cfg db)
    unfolding on_not_found
    not_found-Settles db =
        branch-Settles poll source.channel_id (leb 3 (source.rss_consecutive_errors + 1)) _ _
          (dead-Settles _ db) (failure-Settles _ (source.rss_consecutive_errors + 1) db)

    sidecar-Settles :
        (err : Text) (answer : SidecarOutcome) (db : Feeds)
        → Settles poll source.channel_id (on_sidecar poll source cfg err answer db)
    unfolding on_sidecar
    sidecar-Settles err (items found) db = items-Settles none none none _
    sidecar-Settles err not_found db = not_found-Settles db
    sidecar-Settles err (sidecar_failed e) db =
        failure-Settles _ (source.rss_consecutive_errors + 1) db

    fallback-Settles :
        (err : Text) (db : Feeds)
        → Settles poll source.channel_id (run_sidecar_fallback poll source cfg err db)
    unfolding run_sidecar_fallback
    fallback-Settles err db =
        branch-Settles poll source.channel_id poll.reserves _ _ (sidecar-Settles err poll.sidecar _)
          (λ e. absurd (cc))

    rss-Settles :
        (has_client : Bool) (fallbacks : ℕ) (answer : PollOutcome) (db : Feeds)
        → Settles poll source.channel_id (on_rss has_client poll fallbacks source cfg answer db)
    unfolding on_rss on_rss_failed
    rss-Settles has_client fallbacks not_modified db = success-Settles _ _ _ db
    rss-Settles has_client fallbacks (updated title etag last_modified found) db =
        items-Settles title etag last_modified _
    rss-Settles has_client fallbacks (rss_failed err) db =
        let interval =
          effective_sidecar_min_interval poll.reads_published db.channel_videos source.channel_id
            cfg poll.now in
        branch-Settles poll source.channel_id
          (has_client && fallback_caps_permit source interval cfg fallbacks poll.now) _ _
          (fallback-Settles err db) (failure-Settles err (source.rss_consecutive_errors + 1) db)

module _ (poll : Poll) (records : poll.records ≡ true) where
  finish-Ok : (write : List Source → List Source) (db : Feeds) → (finish poll write db).1 ≡ true
  unfolding finish
  finish-Ok write db = ground arith

  stored-Ok :
      (commits : Bool) (args : PollSuccess) (kind : Apply.Source) (id : Text) (rows : List ItemRow)
      (db : Feeds)
      → commits ≡ true
      → (after_items poll args (upsert_channel_videos commits kind id poll.now rows db)).1 ≡ true
  unfolding after_items upsert_channel_videos finish
  stored-Ok true args kind id rows db e = ground arith
  stored-Ok false args kind id rows db e = absurd (cc)

  module _ (source : Source) (cfg : RefresherConfig) (commits : poll.commits ≡ true) where
    sidecar-Ok :
        (err : Text) (answer : SidecarOutcome) (db : Feeds)
        → (on_sidecar poll source cfg err answer db).1 ≡ true
    unfolding on_sidecar upsert_channel_videos_from_sidecar on_not_found finish
    sidecar-Ok err (items found) db =
        stored-Ok poll.commits _ Apply.sidecar source.channel_id _ db commits
    sidecar-Ok err not_found db = ground arith
    sidecar-Ok err (sidecar_failed e) db = ground arith

    fallback-Ok :
        (err : Text) (db : Feeds)
        → poll.reserves ≡ true
        → (run_sidecar_fallback poll source cfg err db).1 ≡ true
    unfolding run_sidecar_fallback
    fallback-Ok err db reserves = ground (
      arith,
      sidecar-Ok err poll.sidecar (record db {
        sources = record_sidecar_fallback_dispatched source.channel_id poll.now db.sources;
      }),
    )

    rss-Ok :
        (has_client : Bool) (fallbacks : ℕ) (answer : PollOutcome) (db : Feeds)
        → poll.reserves ≡ true
        → (on_rss has_client poll fallbacks source cfg answer db).1 ≡ true
    unfolding on_rss on_rss_failed upsert_channel_videos_from_rss finish
    rss-Ok has_client fallbacks not_modified db reserves = ground arith
    rss-Ok has_client fallbacks (updated title etag last_modified found) db reserves =
        stored-Ok poll.commits _ Apply.rss source.channel_id found db commits
    rss-Ok has_client fallbacks (rss_failed err) db reserves =
        ground (arith, fallback-Ok err db reserves)

-- A poll returns Ok whatever YouTube and the sidecar answer, where its statements succeed. Where it
-- returns Ok its channel is polled again only later than now, if the polling interval is not 0 and
-- the jitter of a number that is not 0 is not 0.
pub poll_one-Settles :
    (has_client : Bool) (poll : Poll) (fallbacks : ℕ) (source : Source) (cfg : RefresherConfig)
    (db : Feeds)
    → ((n : ℕ) → 0 < n → 0 < poll.jitter n)
    → 0 < cfg.channel_interval
    → (poll.records ≡ true
        → poll.commits ≡ true
        → poll.reserves ≡ true
        → (poll_one has_client poll fallbacks source cfg db).1 ≡ true)
      × ((poll_one has_client poll fallbacks source cfg db).1 ≡ true
          → All
              (λ s. is_source source.channel_id s ≡ true → poll.now < s.rss_next_poll_at)
              (poll_one has_client poll fallbacks source cfg db).0.sources)
unfolding poll_one
poll_one-Settles has_client poll fallbacks source cfg db jitter_pos interval_pos = (
  λ records commits reserves.
      rss-Ok poll records source cfg commits has_client fallbacks poll.rss db reserves,
  rss-Settles poll source cfg jitter_pos interval_pos has_client fallbacks poll.rss db,
)
