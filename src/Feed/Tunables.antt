-- ===== src/Feed/Tunables.antt =====
-- The tunables that the feed refresher runs with: `RefresherConfig::load` of
-- src/services/feed_refresher.rs behind `admin_put_refresher_settings` of src/routes/feed.rs.
use hometube.Prelude.{
  ℕ, ◌^◌, ◌≤◌, ◌<◌, ◌≡◌, refl, ap, ◌∙◌, Bool, true, false, Bool-cases, Option, Option-cases, none,
  some, inl, inr, List, [], ◌∷◌, arith, if◌then◌else◌,
}
use hometube.Prelude.Text.{Text, text_eq, decimal}
use hometube.Prelude.Assoc.{Assoc, get, get-insert}
use hometube.Prelude.Int.{ℤ, pos, negsuc, int_text, parse_u64-decimal, parse_i64-int_text}
use hometube.Feed.Config.{
  RefresherConfig, RefresherConfigRaw, default_config, load_raw, effective, load_with_raw, load,
  in_range_or, parse_number, not_negative, parse_batch, parse_flag, key_dispatch_delay_ms,
  key_max_inflight, key_batch_size, key_idle_tick_s, key_channel_interval_s,
  key_sidecar_fallback_enabled, key_sidecar_fallback_min_interval_s,
  key_sidecar_fallback_dormant_interval_s, key_sidecar_fallback_archived_interval_s,
  key_sidecar_dormant_threshold_days, key_sidecar_archived_threshold_days,
  key_sidecar_fallback_max_per_hour,
}
use hometube.Feed.Settings.{
  UpdateRefresherSettings, Setting, settings_of, put_settings, Response, saved, number_text,
  in_range, signed_text, in_signed_range, flag_text, number_setting, signed_setting, flag_setting,
  admin_put_refresher_settings, set_config_value,
}

-- Every tunable lies in its range.
pub record IsInRange (cfg : RefresherConfig) : Type 0 where
  pub dispatch_delay : (50 ≤ cfg.dispatch_delay) × (cfg.dispatch_delay ≤ 600000)
  pub max_inflight : (1 ≤ cfg.max_inflight) × (cfg.max_inflight ≤ 64)
  pub batch_size : (1 ≤ cfg.batch_size) × (cfg.batch_size ≤ 500)
  pub idle_tick : (1 ≤ cfg.idle_tick) × (cfg.idle_tick ≤ 3600)
  pub channel_interval : (60 ≤ cfg.channel_interval) × (cfg.channel_interval ≤ 86400)
  pub sidecar_fallback_min_interval :
      (60 ≤ cfg.sidecar_fallback_min_interval) × (cfg.sidecar_fallback_min_interval ≤ 86400)
  pub sidecar_fallback_dormant_interval :
      (60 ≤ cfg.sidecar_fallback_dormant_interval) × (cfg.sidecar_fallback_dormant_interval ≤ 86400)
  pub sidecar_fallback_archived_interval :
      (60 ≤ cfg.sidecar_fallback_archived_interval)
      × (cfg.sidecar_fallback_archived_interval ≤ 604800)
  pub sidecar_dormant_threshold_days :
      (1 ≤ cfg.sidecar_dormant_threshold_days) × (cfg.sidecar_dormant_threshold_days ≤ 3650)
  pub sidecar_archived_threshold_days :
      (1 ≤ cfg.sidecar_archived_threshold_days) × (cfg.sidecar_archived_threshold_days ≤ 3650)
  pub sidecar_fallback_max_per_hour :
      (0 ≤ cfg.sidecar_fallback_max_per_hour) × (cfg.sidecar_fallback_max_per_hour ≤ 10000)

in_range_or_bounds :
    (low high default : ℕ) (v : Option ℕ)
    → low ≤ default
    → default ≤ high
    → (low ≤ in_range_or low high default v) × (in_range_or low high default v ≤ high)
unfolding in_range_or
in_range_or_bounds low high default none h k = (h, k)
in_range_or_bounds low high default (some v) h k = ground arith

effective-IsInRange : (raw : RefresherConfigRaw) → IsInRange (effective raw)
unfolding effective default_config
effective-IsInRange raw = record {
  dispatch_delay =
      in_range_or_bounds 50 600000 default_config.dispatch_delay
        (parse_number raw.dispatch_delay_ms) (omega arith) (omega arith);
  max_inflight =
      in_range_or_bounds 1 64 default_config.max_inflight (parse_number raw.max_inflight)
        (omega arith) (omega arith);
  batch_size =
      in_range_or_bounds 1 500 default_config.batch_size (parse_batch raw.batch_size) (omega arith)
        (omega arith);
  idle_tick =
      in_range_or_bounds 1 3600 default_config.idle_tick (parse_number raw.idle_tick_s)
        (omega arith) (omega arith);
  channel_interval =
      in_range_or_bounds 60 86400 default_config.channel_interval
        (parse_number raw.channel_interval_s) (omega arith) (omega arith);
  sidecar_fallback_min_interval =
      in_range_or_bounds 60 86400 default_config.sidecar_fallback_min_interval
        (parse_number raw.sidecar_fallback_min_interval_s) (omega arith) (omega arith);
  sidecar_fallback_dormant_interval =
      in_range_or_bounds 60 86400 default_config.sidecar_fallback_dormant_interval
        (parse_number raw.sidecar_fallback_dormant_interval_s) (omega arith) (omega arith);
  sidecar_fallback_archived_interval =
      in_range_or_bounds 60 604800 default_config.sidecar_fallback_archived_interval
        (parse_number raw.sidecar_fallback_archived_interval_s) (omega arith) (omega arith);
  sidecar_dormant_threshold_days =
      in_range_or_bounds 1 3650 default_config.sidecar_dormant_threshold_days
        (parse_number raw.sidecar_dormant_threshold_days) (omega arith) (omega arith);
  sidecar_archived_threshold_days =
      in_range_or_bounds 1 3650 default_config.sidecar_archived_threshold_days
        (parse_number raw.sidecar_archived_threshold_days) (omega arith) (omega arith);
  sidecar_fallback_max_per_hour =
      in_range_or_bounds 0 10000 default_config.sidecar_fallback_max_per_hour
        (parse_number raw.sidecar_fallback_max_per_hour) (omega arith) (omega arith);
}

-- Whatever is in the table `app_config`, and whether the query on it succeeds or not, the configuration
-- that is loaded lies in its ranges.
pub load-IsInRange :
    (answers : Bool) (app_config : Assoc Text) → IsInRange (load answers app_config)
unfolding load load_with_raw
load-IsInRange answers app_config =
    effective-IsInRange (load_raw (if answers then app_config else []))

or_old {ℓ} : {A : Type ℓ} → Option A → Option A → Option A
or_old none old = old
or_old (some a) old = some a

-- What a list of settings leaves under a key.
written : Text → List Setting → Option Text → Option Text
written key [] old = old
written key (s ∷ settings) old =
    written key settings (if text_eq s.key key then or_old s.value old else old)

-- Every value that is given was accepted.
abbrev AreAccepted : List Setting → Type 0
AreAccepted [] = Unit
AreAccepted (s ∷ settings) =
    ((text : Text) → s.value ≡ some text → s.is_accepted ≡ true) × AreAccepted settings

put_settings-written :
    (writes : Text → Bool) (settings : List Setting) (m : Assoc Text)
    → (put_settings writes settings m).1 ≡ saved
    → AreAccepted settings
      × ((key : Text)
          → get key (put_settings writes settings m).0 ≡ written key settings (get key m))
unfolding put_settings written or_old
put_settings-written writes [] m e = (tt, λ key. refl)
put_settings-written writes (s ∷ settings) m e = elim (Option-cases s.value) [
  | inl absent ↦
      let kept : put_settings writes (s ∷ settings) m ≡ put_settings writes settings m =
        rw (absent, put_settings) in
      let rest = put_settings-written writes settings m (ground (arith, e, kept)) in
      (
        ((λ text given. absurd (cc)), rest.0),
        λ key.
            ap (λ (r : Assoc Text × Response). get key r.0) kept
            ∙ rest.1 key
            ∙ elim (Bool-cases (text_eq s.key key)) [
              | inl on ↦ simp (absent, on)
              | inr off ↦ simp (absent, off)
            ],
      )
  | inr (value, given) ↦ elim (Bool-cases s.is_accepted) [
    | inr refused ↦ absurd (ground arith)
    | inl accepted ↦ elim (Bool-cases (writes s.key)) [
      | inr fails ↦ absurd (ground arith)
      | inl holds ↦
          let m' = set_config_value s.key value m in
          let went : put_settings writes (s ∷ settings) m ≡ put_settings writes settings m' =
            ground arith in
          let rest = put_settings-written writes settings m' (ground (arith, e, went)) in
          (
            ((λ text same. accepted), rest.0),
            λ key.
                ap (λ (r : Assoc Text × Response). get key r.0) went
                ∙ rest.1 key
                ∙ ap (written key settings) (
                    unfold set_config_value in
                    get-insert s.key key value m ∙ elim (Bool-cases (text_eq s.key key)) [
                      | inl on ↦ simp (given, on)
                      | inr off ↦ simp (given, off)
                    ]),
          )
    ]
  ]
]

given_or {ℓ} : {A : Type ℓ} → Option A → A → A
given_or none old = old
given_or (some a) old = a

not_negative_or : Option ℤ → ℕ → ℕ
not_negative_or none old = old
not_negative_or (some (pos n)) old = n
not_negative_or (some (negsuc n)) old = old

-- The configuration with the given values in place of the old ones.
unfoldable pub overridden : UpdateRefresherSettings → RefresherConfig → RefresherConfig
unfolding given_or not_negative_or
overridden body cfg = record {
  dispatch_delay = given_or body.dispatch_delay_ms cfg.dispatch_delay;
  max_inflight = given_or body.max_inflight cfg.max_inflight;
  batch_size = not_negative_or body.batch_size cfg.batch_size;
  idle_tick = given_or body.idle_tick_s cfg.idle_tick;
  channel_interval = given_or body.channel_interval_s cfg.channel_interval;
  sidecar_fallback_enabled = given_or body.sidecar_fallback_enabled cfg.sidecar_fallback_enabled;
  sidecar_fallback_min_interval =
      given_or body.sidecar_fallback_min_interval_s cfg.sidecar_fallback_min_interval;
  sidecar_fallback_dormant_interval =
      given_or body.sidecar_fallback_dormant_interval_s cfg.sidecar_fallback_dormant_interval;
  sidecar_fallback_archived_interval =
      given_or body.sidecar_fallback_archived_interval_s cfg.sidecar_fallback_archived_interval;
  sidecar_dormant_threshold_days =
      given_or body.sidecar_dormant_threshold_days cfg.sidecar_dormant_threshold_days;
  sidecar_archived_threshold_days =
      given_or body.sidecar_archived_threshold_days cfg.sidecar_archived_threshold_days;
  sidecar_fallback_max_per_hour =
      given_or body.sidecar_fallback_max_per_hour cfg.sidecar_fallback_max_per_hour;
}

number-lem :
    (low high default : ℕ) (v : Option ℕ) (old : Option Text)
    → high < 2 ^ 64
    → ((text : Text) → number_text v ≡ some text → in_range low high v ≡ true)
    → in_range_or low high default (parse_number (or_old (number_text v) old))
      ≡ given_or v (in_range_or low high default (parse_number old))
unfolding number_text in_range or_old given_or in_range_or parse_number
number-lem low high default none old small accepted = refl
number-lem low high default (some n) old small accepted =
    let within = accepted (decimal n) refl in
    let read = parse_u64-decimal n (ground (arith, within, small)) in
    simp read (ground (arith, within))

batch-lem :
    (low high default : ℕ) (v : Option ℤ) (old : Option Text)
    → high < 2 ^ 63
    → ((text : Text) → signed_text v ≡ some text → in_signed_range low high v ≡ true)
    → in_range_or low high default (parse_batch (or_old (signed_text v) old))
      ≡ not_negative_or v (in_range_or low high default (parse_batch old))
unfolding signed_text in_signed_range or_old not_negative_or in_range_or parse_batch not_negative
batch-lem low high default none old small accepted = refl
batch-lem low high default (some (pos n)) old small accepted =
    let within = accepted (int_text (pos n)) refl in
    let read = parse_i64-int_text (pos n) (ground (arith, within, small)) in
    simp read (ground (arith, within))
batch-lem low high default (some (negsuc n)) old small accepted =
    absurd (cc (accepted (int_text (negsuc n)) refl))

flag-lem :
    (default : Bool) (v : Option Bool) (old : Option Text)
    → parse_flag default (or_old (flag_text v) old) ≡ given_or v (parse_flag default old)
unfolding flag_text or_old given_or parse_flag text_eq
flag-lem default none old = refl
flag-lem default (some true) old = refl
flag-lem default (some false) old = refl

module _ (body : UpdateRefresherSettings) (m after : Assoc Text) where
  -- The texts that the handler leaves, of which the given were accepted.
  module _ (accepted : AreAccepted (settings_of body))
      (texts : (key : Text) → get key after ≡ written key (settings_of body) (get key m)) where
    load-overridden : load true after ≡ overridden body (load true m)
    unfolding load load_with_raw load_raw effective settings_of overridden number_setting
        signed_setting flag_setting written text_eq
    load-overridden = λ i. record {
      dispatch_delay =
          (ap
                (λ (t : Option Text).
                  in_range_or 50 600000 default_config.dispatch_delay (parse_number t))
                (texts key_dispatch_delay_ms)
              ∙ number-lem 50 600000 default_config.dispatch_delay body.dispatch_delay_ms
                  (get key_dispatch_delay_ms m) (omega arith) (accepted.0))
            i;
      max_inflight =
          (ap (λ (t : Option Text). in_range_or 1 64 default_config.max_inflight (parse_number t))
                (texts key_max_inflight)
              ∙ number-lem 1 64 default_config.max_inflight body.max_inflight
                  (get key_max_inflight m) (omega arith) (accepted.1.0))
            i;
      batch_size =
          (ap (λ (t : Option Text). in_range_or 1 500 default_config.batch_size (parse_batch t))
                (texts key_batch_size)
              ∙ batch-lem 1 500 default_config.batch_size body.batch_size (get key_batch_size m)
                  (omega arith) (accepted.1.1.0))
            i;
      idle_tick =
          (ap (λ (t : Option Text). in_range_or 1 3600 default_config.idle_tick (parse_number t))
                (texts key_idle_tick_s)
              ∙ number-lem 1 3600 default_config.idle_tick body.idle_tick_s (get key_idle_tick_s m)
                  (omega arith) (accepted.1.1.1.0))
            i;
      channel_interval =
          (ap
                (λ (t : Option Text).
                  in_range_or 60 86400 default_config.channel_interval (parse_number t))
                (texts key_channel_interval_s)
              ∙ number-lem 60 86400 default_config.channel_interval body.channel_interval_s
                  (get key_channel_interval_s m) (omega arith) (accepted.1.1.1.1.0))
            i;
      sidecar_fallback_enabled =
          (ap (λ (t : Option Text). parse_flag default_config.sidecar_fallback_enabled t)
                (texts key_sidecar_fallback_enabled)
              ∙ flag-lem default_config.sidecar_fallback_enabled body.sidecar_fallback_enabled
                  (get key_sidecar_fallback_enabled m))
            i;
      sidecar_fallback_min_interval =
          (ap
                (λ (t : Option Text).
                  in_range_or 60 86400 default_config.sidecar_fallback_min_interval
                    (parse_number t))
                (texts key_sidecar_fallback_min_interval_s)
              ∙ number-lem 60 86400 default_config.sidecar_fallback_min_interval
                  body.sidecar_fallback_min_interval_s (get key_sidecar_fallback_min_interval_s m)
                  (omega arith) (accepted.1.1.1.1.1.1.0))
            i;
      sidecar_fallback_dormant_interval =
          (ap
                (λ (t : Option Text).
                  in_range_or 60 86400 default_config.sidecar_fallback_dormant_interval
                    (parse_number t))
                (texts key_sidecar_fallback_dormant_interval_s)
              ∙ number-lem 60 86400 default_config.sidecar_fallback_dormant_interval
                  body.sidecar_fallback_dormant_interval_s
                  (get key_sidecar_fallback_dormant_interval_s m) (omega arith)
                  (accepted.1.1.1.1.1.1.1.0))
            i;
      sidecar_fallback_archived_interval =
          (ap
                (λ (t : Option Text).
                  in_range_or 60 604800 default_config.sidecar_fallback_archived_interval
                    (parse_number t))
                (texts key_sidecar_fallback_archived_interval_s)
              ∙ number-lem 60 604800 default_config.sidecar_fallback_archived_interval
                  body.sidecar_fallback_archived_interval_s
                  (get key_sidecar_fallback_archived_interval_s m) (omega arith)
                  (accepted.1.1.1.1.1.1.1.1.0))
            i;
      sidecar_dormant_threshold_days =
          (ap
                (λ (t : Option Text).
                  in_range_or 1 3650 default_config.sidecar_dormant_threshold_days (parse_number t))
                (texts key_sidecar_dormant_threshold_days)
              ∙ number-lem 1 3650 default_config.sidecar_dormant_threshold_days
                  body.sidecar_dormant_threshold_days (get key_sidecar_dormant_threshold_days m)
                  (omega arith) (accepted.1.1.1.1.1.1.1.1.1.0))
            i;
      sidecar_archived_threshold_days =
          (ap
                (λ (t : Option Text).
                  in_range_or 1 3650 default_config.sidecar_archived_threshold_days
                    (parse_number t))
                (texts key_sidecar_archived_threshold_days)
              ∙ number-lem 1 3650 default_config.sidecar_archived_threshold_days
                  body.sidecar_archived_threshold_days (get key_sidecar_archived_threshold_days m)
                  (omega arith) (accepted.1.1.1.1.1.1.1.1.1.1.0))
            i;
      sidecar_fallback_max_per_hour =
          (ap
                (λ (t : Option Text).
                  in_range_or 0 10000 default_config.sidecar_fallback_max_per_hour (parse_number t))
                (texts key_sidecar_fallback_max_per_hour)
              ∙ number-lem 0 10000 default_config.sidecar_fallback_max_per_hour
                  body.sidecar_fallback_max_per_hour (get key_sidecar_fallback_max_per_hour m)
                  (omega arith) (accepted.1.1.1.1.1.1.1.1.1.1.1.0))
            i;
    }

-- Where the handler answers with the settings, the configuration that the next successful query loads
-- has the given
-- values, and the old ones where none is given.
pub admin_put_refresher_settings-load :
    (writes : Text → Bool) (body : UpdateRefresherSettings) (app_config : Assoc Text)
    → (admin_put_refresher_settings writes body app_config).1 ≡ saved
    → load true (admin_put_refresher_settings writes body app_config).0
      ≡ overridden body (load true app_config)
unfolding admin_put_refresher_settings
admin_put_refresher_settings-load writes body app_config e =
    let (accepted, texts) = put_settings-written writes (settings_of body) app_config e in
    load-overridden body app_config _ accepted texts
