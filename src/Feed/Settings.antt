-- ===== src/Feed/Settings.antt =====
-- Setting the tunables of the feed refresher: `admin_put_refresher_settings` of
-- src/routes/feed.rs, and `set_config_value` of src/services/setup.rs. Which statements succeed is a
-- parameter.
use hometube.Prelude.{
  ℕ, Bool, true, false, not, ◌&&◌, Option, none, some, List, [], ◌∷◌, leb, if◌then◌else◌,
}
use hometube.Prelude.Text.{Text, codes, decimal}
use hometube.Prelude.Assoc.{Assoc, insert}
use hometube.Prelude.Int.{ℤ, pos, negsuc, int_text}
use hometube.Feed.Config.{
  key_dispatch_delay_ms, key_max_inflight, key_batch_size, key_idle_tick_s, key_channel_interval_s,
  key_sidecar_fallback_enabled, key_sidecar_fallback_min_interval_s,
  key_sidecar_fallback_dormant_interval_s, key_sidecar_fallback_archived_interval_s,
  key_sidecar_dormant_threshold_days, key_sidecar_archived_threshold_days,
  key_sidecar_fallback_max_per_hour,
}

pub record UpdateRefresherSettings : Type 0 where
  pub dispatch_delay_ms : Option ℕ
  pub max_inflight : Option ℕ
  pub batch_size : Option ℤ
  pub idle_tick_s : Option ℕ
  pub channel_interval_s : Option ℕ
  pub sidecar_fallback_enabled : Option Bool
  pub sidecar_fallback_min_interval_s : Option ℕ
  pub sidecar_fallback_dormant_interval_s : Option ℕ
  pub sidecar_fallback_archived_interval_s : Option ℕ
  pub sidecar_dormant_threshold_days : Option ℕ
  pub sidecar_archived_threshold_days : Option ℕ
  pub sidecar_fallback_max_per_hour : Option ℕ

-- `set_config_value`
unfoldable pub set_config_value : Text → Text → Assoc Text → Assoc Text
set_config_value key value app_config = insert key value app_config

-- One `if let` of the handler: the key, the text of the value where one is given, and whether the
-- value passes the check.
pub record Setting : Type 0 where
  pub key : Text
  pub value : Option Text
  pub is_accepted : Bool

unfoldable pub number_text : Option ℕ → Option Text
number_text none = none
number_text (some n) = some (decimal n)

unfoldable pub in_range : ℕ → ℕ → Option ℕ → Bool
in_range low high none = true
in_range low high (some n) = leb low n && leb n high

unfoldable pub number_setting : Text → ℕ → ℕ → Option ℕ → Setting
unfolding number_text in_range
number_setting key low high v = record {
  key = key;
  value = number_text v;
  is_accepted = in_range low high v;
}

unfoldable pub signed_text : Option ℤ → Option Text
signed_text none = none
signed_text (some z) = some (int_text z)

unfoldable pub in_signed_range : ℕ → ℕ → Option ℤ → Bool
in_signed_range low high none = true
in_signed_range low high (some (pos n)) = leb low n && leb n high
in_signed_range low high (some (negsuc n)) = false

unfoldable pub signed_setting : Text → ℕ → ℕ → Option ℤ → Setting
unfolding signed_text in_signed_range
signed_setting key low high v = record {
  key = key;
  value = signed_text v;
  is_accepted = in_signed_range low high v;
}

unfoldable pub flag_text : Option Bool → Option Text
flag_text none = none
flag_text (some true) = some (codes "true")
flag_text (some false) = some (codes "false")

unfoldable pub flag_setting : Text → Option Bool → Setting
unfolding flag_text
flag_setting key v = record { key = key; value = flag_text v; is_accepted = true }

-- The settings in the order of the handler.
unfoldable pub settings_of : UpdateRefresherSettings → List Setting
unfolding number_setting signed_setting flag_setting
settings_of body =
    number_setting key_dispatch_delay_ms 50 600000 body.dispatch_delay_ms
    ∷ number_setting key_max_inflight 1 64 body.max_inflight
    ∷ signed_setting key_batch_size 1 500 body.batch_size
    ∷ number_setting key_idle_tick_s 1 3600 body.idle_tick_s
    ∷ number_setting key_channel_interval_s 60 86400 body.channel_interval_s
    ∷ flag_setting key_sidecar_fallback_enabled body.sidecar_fallback_enabled
    ∷ number_setting key_sidecar_fallback_min_interval_s 60 86400
        body.sidecar_fallback_min_interval_s
    ∷ number_setting key_sidecar_fallback_dormant_interval_s 60 86400
        body.sidecar_fallback_dormant_interval_s
    ∷ number_setting key_sidecar_fallback_archived_interval_s 60 604800
        body.sidecar_fallback_archived_interval_s
    ∷ number_setting key_sidecar_dormant_threshold_days 1 3650 body.sidecar_dormant_threshold_days
    ∷ number_setting key_sidecar_archived_threshold_days 1 3650 body.sidecar_archived_threshold_days
    ∷ number_setting key_sidecar_fallback_max_per_hour 0 10000 body.sidecar_fallback_max_per_hour
    ∷ []

-- How the handler ends: at a value out of range, at a statement that fails, or with the settings.
pub data Response : Type 0 where
  bad_request failed saved : Response

-- `writes` is whether the statement for a key succeeds. What was written before a refusal stays.
unfoldable pub put_settings : (Text → Bool) → List Setting → Assoc Text → Assoc Text × Response
unfolding set_config_value
put_settings writes [] app_config = (app_config, saved)
put_settings writes (s ∷ settings) app_config = elim s.value [
  | none ↦ put_settings writes settings app_config
  | some value ↦
      let rest = put_settings writes settings (set_config_value s.key value app_config) in
      if not s.is_accepted
      then (app_config, bad_request)
      else if writes s.key
      then rest
      else (app_config, failed)
]

unfoldable pub admin_put_refresher_settings :
    (Text → Bool) → UpdateRefresherSettings → Assoc Text → Assoc Text × Response
unfolding settings_of put_settings
admin_put_refresher_settings writes body app_config =
    put_settings writes (settings_of body) app_config
