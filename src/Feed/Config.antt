-- ===== src/Feed/Config.antt =====
-- The tunables of the feed refresher: `RefresherConfig` of src/services/feed_refresher.rs and how it
-- is loaded from the table `app_config`. The delay is in milliseconds, the other durations are in
-- seconds.
use hometube.Prelude.{[], ℕ, ◌*◌, Bool, true, false, ◌&&◌, Option, none, some, leb, if◌then◌else◌}
use hometube.Prelude.Text.{Text, codes, text_eq}
use hometube.Prelude.Assoc.{Assoc, get}
use hometube.Prelude.Int.{ℤ, pos, negsuc, parse_i64, parse_u64}

pub record RefresherConfig : Type 0 where
  pub dispatch_delay : ℕ
  pub max_inflight : ℕ
  pub batch_size : ℕ
  pub idle_tick : ℕ
  pub channel_interval : ℕ
  pub sidecar_fallback_enabled : Bool
  pub sidecar_fallback_min_interval : ℕ
  pub sidecar_fallback_dormant_interval : ℕ
  pub sidecar_fallback_archived_interval : ℕ
  pub sidecar_dormant_threshold_days : ℕ
  pub sidecar_archived_threshold_days : ℕ
  pub sidecar_fallback_max_per_hour : ℕ

pub record RefresherConfigRaw : Type 0 where
  pub dispatch_delay_ms : Option Text
  pub max_inflight : Option Text
  pub batch_size : Option Text
  pub idle_tick_s : Option Text
  pub channel_interval_s : Option Text
  pub sidecar_fallback_enabled : Option Text
  pub sidecar_fallback_min_interval_s : Option Text
  pub sidecar_fallback_dormant_interval_s : Option Text
  pub sidecar_fallback_archived_interval_s : Option Text
  pub sidecar_dormant_threshold_days : Option Text
  pub sidecar_archived_threshold_days : Option Text
  pub sidecar_fallback_max_per_hour : Option Text

-- `RefresherConfig::default`
unfoldable pub default_config : RefresherConfig
default_config = record {
  dispatch_delay = 2000;
  max_inflight = 4;
  batch_size = 25;
  idle_tick = 30;
  channel_interval = 60 * 60;
  sidecar_fallback_enabled = true;
  sidecar_fallback_min_interval = 60 * 60;
  sidecar_fallback_dormant_interval = 6 * 60 * 60;
  sidecar_fallback_archived_interval = 24 * 60 * 60;
  sidecar_dormant_threshold_days = 30;
  sidecar_archived_threshold_days = 90;
  sidecar_fallback_max_per_hour = 120;
}

-- The keys of `app_config`, in the order of the fields.
abbrev pub key_dispatch_delay_ms : Text
key_dispatch_delay_ms = codes "feed_refresher_dispatch_delay_ms"

abbrev pub key_max_inflight : Text
key_max_inflight = codes "feed_refresher_max_inflight"

abbrev pub key_batch_size : Text
key_batch_size = codes "feed_refresher_batch_size"

abbrev pub key_idle_tick_s : Text
key_idle_tick_s = codes "feed_refresher_idle_tick_s"

abbrev pub key_channel_interval_s : Text
key_channel_interval_s = codes "feed_channel_interval_s"

abbrev pub key_sidecar_fallback_enabled : Text
key_sidecar_fallback_enabled = codes "feed_refresher_sidecar_fallback_enabled"

abbrev pub key_sidecar_fallback_min_interval_s : Text
key_sidecar_fallback_min_interval_s = codes "feed_refresher_sidecar_fallback_min_interval_s"

abbrev pub key_sidecar_fallback_dormant_interval_s : Text
key_sidecar_fallback_dormant_interval_s = codes "feed_refresher_sidecar_fallback_dormant_interval_s"

abbrev pub key_sidecar_fallback_archived_interval_s : Text
key_sidecar_fallback_archived_interval_s =
    codes "feed_refresher_sidecar_fallback_archived_interval_s"

abbrev pub key_sidecar_dormant_threshold_days : Text
key_sidecar_dormant_threshold_days = codes "feed_refresher_sidecar_dormant_threshold_days"

abbrev pub key_sidecar_archived_threshold_days : Text
key_sidecar_archived_threshold_days = codes "feed_refresher_sidecar_archived_threshold_days"

abbrev pub key_sidecar_fallback_max_per_hour : Text
key_sidecar_fallback_max_per_hour = codes "feed_refresher_sidecar_fallback_max_per_hour"

-- The rows of the query, sorted by their keys.
unfoldable pub load_raw : Assoc Text → RefresherConfigRaw
load_raw app_config = record {
  dispatch_delay_ms = get key_dispatch_delay_ms app_config;
  max_inflight = get key_max_inflight app_config;
  batch_size = get key_batch_size app_config;
  idle_tick_s = get key_idle_tick_s app_config;
  channel_interval_s = get key_channel_interval_s app_config;
  sidecar_fallback_enabled = get key_sidecar_fallback_enabled app_config;
  sidecar_fallback_min_interval_s = get key_sidecar_fallback_min_interval_s app_config;
  sidecar_fallback_dormant_interval_s = get key_sidecar_fallback_dormant_interval_s app_config;
  sidecar_fallback_archived_interval_s = get key_sidecar_fallback_archived_interval_s app_config;
  sidecar_dormant_threshold_days = get key_sidecar_dormant_threshold_days app_config;
  sidecar_archived_threshold_days = get key_sidecar_archived_threshold_days app_config;
  sidecar_fallback_max_per_hour = get key_sidecar_fallback_max_per_hour app_config;
}

unfoldable pub in_range_or : ℕ → ℕ → ℕ → Option ℕ → ℕ
in_range_or low high default none = default
in_range_or low high default (some v) = if leb low v && leb v high then v else default

unfoldable pub parse_number : Option Text → Option ℕ
parse_number none = none
parse_number (some s) = parse_u64 s

unfoldable pub not_negative : Option ℤ → Option ℕ
not_negative none = none
not_negative (some (pos n)) = some n
not_negative (some (negsuc n)) = none

-- A negative batch size is below the range, as none is.
unfoldable pub parse_batch : Option Text → Option ℕ
parse_batch none = none
parse_batch (some s) = not_negative (parse_i64 s)

unfoldable pub parse_flag : Bool → Option Text → Bool
parse_flag default none = default
parse_flag default (some s) =
    if text_eq s (codes "true") then true else if text_eq s (codes "false") then false else default

-- The effective configuration of raw values.
unfoldable pub effective : RefresherConfigRaw → RefresherConfig
unfolding in_range_or parse_number not_negative parse_batch parse_flag default_config
effective raw = record {
  dispatch_delay =
      in_range_or 50 600000 default_config.dispatch_delay (parse_number raw.dispatch_delay_ms);
  max_inflight = in_range_or 1 64 default_config.max_inflight (parse_number raw.max_inflight);
  batch_size = in_range_or 1 500 default_config.batch_size (parse_batch raw.batch_size);
  idle_tick = in_range_or 1 3600 default_config.idle_tick (parse_number raw.idle_tick_s);
  channel_interval =
      in_range_or 60 86400 default_config.channel_interval (parse_number raw.channel_interval_s);
  sidecar_fallback_enabled =
      parse_flag default_config.sidecar_fallback_enabled raw.sidecar_fallback_enabled;
  sidecar_fallback_min_interval =
      in_range_or 60 86400 default_config.sidecar_fallback_min_interval
        (parse_number raw.sidecar_fallback_min_interval_s);
  sidecar_fallback_dormant_interval =
      in_range_or 60 86400 default_config.sidecar_fallback_dormant_interval
        (parse_number raw.sidecar_fallback_dormant_interval_s);
  sidecar_fallback_archived_interval =
      in_range_or 60 604800 default_config.sidecar_fallback_archived_interval
        (parse_number raw.sidecar_fallback_archived_interval_s);
  sidecar_dormant_threshold_days =
      in_range_or 1 3650 default_config.sidecar_dormant_threshold_days
        (parse_number raw.sidecar_dormant_threshold_days);
  sidecar_archived_threshold_days =
      in_range_or 1 3650 default_config.sidecar_archived_threshold_days
        (parse_number raw.sidecar_archived_threshold_days);
  sidecar_fallback_max_per_hour =
      in_range_or 0 10000 default_config.sidecar_fallback_max_per_hour
        (parse_number raw.sidecar_fallback_max_per_hour);
}

-- `answers` is whether the query succeeds; where it fails it gives no rows.
unfoldable pub load_with_raw : Bool → Assoc Text → RefresherConfig × RefresherConfigRaw
unfolding load_raw
load_with_raw answers app_config =
    let raw = load_raw (if answers then app_config else []) in (effective raw, raw)

unfoldable pub load : Bool → Assoc Text → RefresherConfig
load answers app_config = (load_with_raw answers app_config).0
