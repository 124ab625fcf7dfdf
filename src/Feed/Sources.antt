-- ===== src/Feed/Sources.antt =====
-- The polling state of channels: the statements of src/services/feed_cache.rs on the columns of
-- `channels` that the feed refresher keeps. Times are unix seconds; the sum of a lease saturates.
use hometube.Prelude.{
  ℕ, ◌+◌, ◌-◌, ◌^◌, Bool, true, false, not, Option, none, some, List, [], ◌∷◌, ◌++◌, leb, take, map,
  if◌then◌else◌,
}
use hometube.Prelude.Text.{Text, text_eq}
use hometube.Prelude.Sql.{count, delete, exists, select, update}
use hometube.Access.{Entry}
use hometube.Backfill.Apply.{ChannelVideo, non_empty}

-- The columns of a row of `channels` that the statements read or write.
pub record Source : Type 0 where
  pub channel_id : Text
  pub channel_title : Option Text
  pub channel_thumbnail_url : Option Text
  pub description : Option Text
  pub rss_etag : Option Text
  pub rss_last_modified : Option Text
  pub rss_last_polled_at : Option ℕ
  pub rss_last_success_at : Option ℕ
  pub rss_last_error : Option Text
  pub rss_consecutive_errors : ℕ
  pub rss_next_poll_at : ℕ
  pub last_sidecar_fallback_at : Option ℕ

unfoldable pub is_source : Text → Source → Bool
is_source id s = text_eq s.channel_id id

-- A row as the INSERTs make it.
unfoldable pub new_source : Text → Option Text → Option Text → Option Text → Source
new_source id title thumbnail description = record {
  channel_id = id;
  channel_title = title;
  channel_thumbnail_url = thumbnail;
  description = description;
  rss_etag = none;
  rss_last_modified = none;
  rss_last_polled_at = none;
  rss_last_success_at = none;
  rss_last_error = none;
  rss_consecutive_errors = 0;
  rss_next_poll_at = 0;
  last_sidecar_fallback_at = none;
}

unfoldable pub upsert_channel : Text → List Source → List Source
unfolding new_source
upsert_channel id rows =
    if exists (is_source id) rows then rows else rows ++ (new_source id none none none ∷ [])

-- `COALESCE(NULLIF(given, ''), stored)`
or_kept : Option Text → Option Text → Option Text
or_kept none stored = stored
or_kept (some t) stored = some t

unfoldable pub given_or_stored : Option Text → Option Text → Option Text
unfolding or_kept
given_or_stored given stored = or_kept (non_empty given) stored

unfoldable pub upsert_channel_with_metadata :
    Text → Option Text → Option Text → Option Text → List Source → List Source
unfolding new_source given_or_stored
upsert_channel_with_metadata id title thumbnail description rows =
    let refresh = λ (s : Source). record s {
      channel_title = given_or_stored title s.channel_title;
      channel_thumbnail_url = given_or_stored thumbnail s.channel_thumbnail_url;
      description = given_or_stored description s.description;
    } in
    if exists (is_source id) rows
    then update (is_source id) refresh rows
    else rows ++ (new_source id title thumbnail description ∷ [])

allows : List Entry → Text → Bool
allows allowed id = exists (λ (e : Entry). text_eq e.id id) allowed

-- Both DELETEs of the transaction, with the number of channels that went.
unfoldable pub gc_orphan_sources :
    List Entry → List Source × List ChannelVideo → (List Source × List ChannelVideo) × ℕ
unfolding allows
gc_orphan_sources allowed (rows, videos) =
    let orphan = λ (s : Source). not (allows allowed s.channel_id) in
    (
      (delete orphan rows, delete (λ (v : ChannelVideo). not (allows allowed v.channel_id)) videos),
      count orphan rows,
    )

pub record PollSuccess : Type 0 where
  pub channel_id : Text
  pub title : Option Text
  pub etag : Option Text
  pub last_modified : Option Text
  pub next_poll_at : ℕ
  pub now : ℕ

unfoldable pub succeeded : PollSuccess → Source → Source
unfolding given_or_stored
succeeded args s = record s {
  channel_title = given_or_stored args.title s.channel_title;
  rss_etag = args.etag;
  rss_last_modified = args.last_modified;
  rss_last_polled_at = some args.now;
  rss_last_success_at = some args.now;
  rss_last_error = none;
  rss_consecutive_errors = 0;
  rss_next_poll_at = args.next_poll_at;
}

unfoldable pub record_poll_success : PollSuccess → List Source → List Source
record_poll_success args rows = update (is_source args.channel_id) (succeeded args) rows

unfoldable pub record_poll_deferred : Text → Text → ℕ → ℕ → List Source → List Source
record_poll_deferred id reason next now rows =
    update (is_source id)
      (λ s. record s {
        rss_last_polled_at = some now;
        rss_last_error = some reason;
        rss_next_poll_at = next;
      })
      rows

unfoldable pub record_poll_skipped : Text → Text → ℕ → List Source → List Source
record_poll_skipped id reason next rows =
    update (is_source id)
      (λ s. record s {
        rss_last_error = some reason;
        rss_consecutive_errors = 0;
        rss_next_poll_at = next;
      })
      rows

unfoldable pub failed_poll : Text → ℕ → ℕ → Source → Source
failed_poll err next now s = record s {
  rss_last_polled_at = some now;
  rss_last_error = some err;
  rss_consecutive_errors = s.rss_consecutive_errors + 1;
  rss_next_poll_at = next;
}

unfoldable pub record_poll_failure : Text → Text → ℕ → ℕ → List Source → List Source
record_poll_failure id err next now rows = update (is_source id) (failed_poll err next now) rows

unfoldable pub dead : Text → ℕ → ℕ → Source → Source
dead reason next now s = record s {
  rss_last_polled_at = some now;
  rss_last_error = some reason;
  rss_consecutive_errors = 0;
  rss_next_poll_at = next;
}

unfoldable pub record_source_dead : Text → Text → ℕ → ℕ → List Source → List Source
record_source_dead id reason next now rows = update (is_source id) (dead reason next now) rows

unfoldable pub dispatched : ℕ → Source → Source
dispatched now s = record s { last_sidecar_fallback_at = some now }

unfoldable pub record_sidecar_fallback_dispatched : Text → ℕ → List Source → List Source
record_sidecar_fallback_dispatched id now rows = update (is_source id) (dispatched now) rows

-- A column is not NULL and at least `now - 3600`.
unfoldable pub in_last_hour : ℕ → Option ℕ → Bool
in_last_hour now none = false
in_last_hour now (some t) = leb now (t + 3600)

unfoldable pub sidecar_fallbacks_in_last_hour : ℕ → List Source → ℕ
sidecar_fallbacks_in_last_hour now rows =
    count (λ (s : Source). in_last_hour now s.last_sidecar_fallback_at) rows

pub record FeedRefresherCapacityCounts : Type 0 where
  pub total_sources : ℕ
  pub queue_depth : ℕ
  pub polls_last_hour : ℕ
  pub sidecar_fallbacks_last_hour : ℕ

unfoldable pub is_due_source : ℕ → Source → Bool
is_due_source now s = leb s.rss_next_poll_at now

unfoldable pub capacity_counts : ℕ → List Source → FeedRefresherCapacityCounts
unfolding in_last_hour is_due_source
capacity_counts now rows = record {
  total_sources = count (λ (s : Source). true) rows;
  queue_depth = count (is_due_source now) rows;
  polls_last_hour = count (λ (s : Source). in_last_hour now s.rss_last_polled_at) rows;
  sidecar_fallbacks_last_hour =
      count (λ (s : Source). in_last_hour now s.last_sidecar_fallback_at) rows;
}

-- `i64::saturating_add` of two numbers that are not negative.
unfoldable pub saturating_add : ℕ → ℕ → ℕ
saturating_add a b = if leb (a + b) (2 ^ 63 - 1) then a + b else 2 ^ 63 - 1

-- `ORDER BY rss_next_poll_at ASC`
unfoldable pub insert_source : Source → List Source → List Source
insert_source s [] = s ∷ []
insert_source s (t ∷ rows) =
    let rest = insert_source s rows in
    if leb s.rss_next_poll_at t.rss_next_poll_at then s ∷ t ∷ rows else t ∷ rest

unfoldable pub order_by_next_poll : List Source → List Source
order_by_next_poll [] = []
order_by_next_poll (s ∷ rows) = insert_source s (order_by_next_poll rows)

-- The inner SELECT.
unfoldable pub due_ids : ℕ → ℕ → List Source → List Text
due_ids now limit rows =
    map (λ (s : Source). s.channel_id)
      (take limit (order_by_next_poll (select (is_due_source now) rows)))

unfoldable pub among : List Text → Text → Bool
among ids id = exists (λ (i : Text). text_eq i id) ids

unfoldable pub leased_until : ℕ → Source → Source
leased_until until s = record s { rss_next_poll_at = until }

unfoldable pub claimed_source : List Text → Source → Bool
unfolding among
claimed_source ids s = among ids s.channel_id

-- The rows behind the UPDATE, and those that it returns.
unfoldable pub claim_due_sources : ℕ → ℕ → ℕ → List Source → List Source × List Source
claim_due_sources now limit lease_secs rows =
    let ids = due_ids now limit rows in
    let lease = leased_until (saturating_add now lease_secs) in
    (update (claimed_source ids) lease rows, map lease (select (claimed_source ids) rows))
