-- ===== src/Feed/Caps.antt =====
-- When a poll of src/services/feed_refresher.rs reserves the sidecar: `fallback_caps_permit`,
-- `effective_sidecar_min_interval` and the polls that they guard.
use hometube.Prelude.{
  ℕ, ◌+◌, ◌≤◌, ◌<◌, ◌≡◌, ◌≢◌, ◌⊎◌, refl, ◌∙◌, Bool, true, false, ◌&&◌, not, Bool-cases, Option,
  none, some, inl, inr, List, [], ◌∷◌, map, ltb, leb, arith, Option-cases,
}
use hometube.Prelude.Text.{Text}
use hometube.Prelude.Sql.{update}
use hometube.Backfill.Apply as Apply
use hometube.Feed.Sources.{
  Source, PollSuccess, is_source, succeeded, failed_poll, record_poll_success, record_poll_failure,
}
use hometube.Feed.Items.{
  ItemRow, Feeds, propagate_title, feed_channel_title, upsert_channel_videos,
  upsert_channel_videos_from_rss,
}
use hometube.Feed.Config.{RefresherConfig}
use hometube.Feed.Poll.{
  Poll, PollOutcome, not_modified, updated, rss_failed, fallback_caps_permit,
  effective_sidecar_min_interval, after_items, on_rss_failed, on_rss, poll_one, finish,
}

-- When each row's channel was last asked of the sidecar.
abbrev pub last_fallbacks : Feeds → List (Option ℕ)
last_fallbacks db = map (λ (s : Source). s.last_sidecar_fallback_at) db.sources

update-keeps :
    (test : Source → Bool) (set : Source → Source) (rows : List Source)
    → ((s : Source) → (set s).last_sidecar_fallback_at ≡ s.last_sidecar_fallback_at)
    → map (λ (s : Source). s.last_sidecar_fallback_at) (update test set rows)
      ≡ map (λ (s : Source). s.last_sidecar_fallback_at) rows
unfolding update
update-keeps test set [] h = refl
update-keeps test set (s ∷ rows) h = elim (Bool-cases (test s)) [
  | inl on ↦ simp (on, h s, update-keeps test set rows h)
  | inr off ↦ simp (off, update-keeps test set rows h)
]

finish-keeps :
    (poll : Poll) (id : Text) (set : Source → Source) (db : Feeds)
    → ((s : Source) → (set s).last_sidecar_fallback_at ≡ s.last_sidecar_fallback_at)
    → last_fallbacks (finish poll (update (is_source id) set) db).0 ≡ last_fallbacks db
unfolding finish
finish-keeps poll id set db h = elim (Bool-cases poll.records) [
  | inl on ↦ simp on (update-keeps (is_source id) set db.sources h)
  | inr off ↦ simp off
]

title-keeps :
    (id : Text) (title : Option Text) (db : Feeds)
    → map (λ (s : Source). s.last_sidecar_fallback_at) (propagate_title id title db.sources)
      ≡ last_fallbacks db
unfolding propagate_title
title-keeps id none db = refl
title-keeps id (some t) db = update-keeps (is_source id) _ db.sources (λ s. refl)

items-keep :
    (poll : Poll) (commits : Bool) (args : PollSuccess) (kind : Apply.Source) (id : Text)
    (rows : List ItemRow) (db : Feeds)
    → last_fallbacks
        (after_items poll args (upsert_channel_videos commits kind id poll.now rows db)).0
      ≡ last_fallbacks db
unfolding after_items upsert_channel_videos record_poll_success succeeded
items-keep poll false args kind id rows db = refl
items-keep poll true args kind id rows db =
    finish-keeps poll args.channel_id (succeeded args) _ (λ s. refl)
    ∙ title-keeps id (feed_channel_title rows) db

-- Both caps in arithmetic: the last fallback lies an interval back, and the hour has room.
abbrev pub IsPermitted : Source → ℕ → RefresherConfig → ℕ → ℕ → Type 0
IsPermitted source interval cfg fallbacks now =
    ((last : ℕ) → source.last_sidecar_fallback_at ≡ some last → last + interval ≤ now)
    × ((cfg.sidecar_fallback_max_per_hour ≡ 0) ⊎ (fallbacks < cfg.sidecar_fallback_max_per_hour))

hour_has_room :
    (cap fallbacks : ℕ)
    → not (ltb 0 cap && leb cap fallbacks) ≡ true
    → (cap ≡ 0) ⊎ (fallbacks < cap)
hour_has_room cap fallbacks e = elim (Bool-cases (ltb 0 cap)) [
  | inl on ↦ inr (ground arith)
  | inr off ↦ inl (ground arith)
]

permit-IsPermitted :
    (source : Source) (interval : ℕ) (cfg : RefresherConfig) (fallbacks now : ℕ)
    → fallback_caps_permit source interval cfg fallbacks now ≡ true
    → IsPermitted source interval cfg fallbacks now
unfolding fallback_caps_permit
permit-IsPermitted source interval cfg fallbacks now e = (
  λ last at. ground arith,
  hour_has_room cfg.sidecar_fallback_max_per_hour fallbacks
      (elim (Option-cases source.last_sidecar_fallback_at) [
        | inl never ↦ ground arith
        | inr (last, at) ↦ ground arith
      ]),
)

rss-IsPermitted :
    (has_client : Bool) (poll : Poll) (fallbacks : ℕ) (source : Source) (cfg : RefresherConfig)
    (answer : PollOutcome) (db : Feeds)
    → last_fallbacks (on_rss has_client poll fallbacks source cfg answer db).0 ≢ last_fallbacks db
    → ((err : Text) × (answer ≡ rss_failed err))
      × (has_client ≡ true)
      × IsPermitted source
          (effective_sidecar_min_interval poll.reads_published db.channel_videos source.channel_id
            cfg poll.now)
          cfg
          fallbacks
          poll.now
unfolding on_rss on_rss_failed upsert_channel_videos_from_rss record_poll_success succeeded
    record_poll_failure failed_poll
rss-IsPermitted has_client poll fallbacks source cfg not_modified db changed =
    absurd (changed (finish-keeps poll source.channel_id _ db (λ s. refl)))
rss-IsPermitted has_client poll fallbacks source cfg (updated title etag last_modified found) db
      changed =
    absurd (changed (items-keep poll poll.commits _ Apply.rss source.channel_id found db))
rss-IsPermitted has_client poll fallbacks source cfg (rss_failed err) db changed =
    let interval =
      effective_sidecar_min_interval poll.reads_published db.channel_videos source.channel_id cfg
        poll.now in
    elim (Bool-cases (has_client && fallback_caps_permit source interval cfg fallbacks poll.now)) [
      | inl on ↦ (
        (err, refl),
        ground (arith, on),
        permit-IsPermitted source interval cfg fallbacks poll.now (ground (arith, on)),
      )
      | inr off ↦ absurd (changed (simp off (finish-keeps poll source.channel_id _ db (λ s. refl))))
    ]

-- A poll that changes when a channel was last asked of the sidecar had an error from the feed and a
-- client for the sidecar, its channel was last asked at least the effective interval ago or never,
-- and the hourly cap is off or not reached.
pub poll_one-IsPermitted :
    (has_client : Bool) (poll : Poll) (fallbacks : ℕ) (source : Source) (cfg : RefresherConfig)
    (db : Feeds)
    → last_fallbacks (poll_one has_client poll fallbacks source cfg db).0 ≢ last_fallbacks db
    → ((err : Text) × (poll.rss ≡ rss_failed err))
      × (has_client ≡ true)
      × IsPermitted source
          (effective_sidecar_min_interval poll.reads_published db.channel_videos source.channel_id
            cfg poll.now)
          cfg
          fallbacks
          poll.now
unfolding poll_one
poll_one-IsPermitted has_client poll fallbacks source cfg db changed =
    rss-IsPermitted has_client poll fallbacks source cfg poll.rss db changed
