-- ===== src/Config/Schema.antt =====
-- SETTINGS_SCHEMA of src/utils/config.py: what a value of each key may be, whether it applies without
-- a restart, and whether the cloud may set it. Bounds of decimals are in ten-thousandths.
use wqm.Prelude.{ℕ, Bool, true, false, Option, none, some, List, [], ◌∷◌, String}
use wqm.Prelude.Int.{ℤ, pos}

-- The type with its bounds: for texts the greatest length and the values to choose from.
pub data Form : Type 0 where
  flags : Form
  wholes : Option ℤ → Option ℤ → Form
  decimals : Option ℤ → Option ℤ → Form
  texts : Option ℕ → Option (List String) → Form

pub record SettingSpec : Type 0 where
  pub form : Form
  pub hot : Bool
  pub remote : Bool

abbrev spec : Form → Bool → Bool → SettingSpec
spec form hot remote = record { form = form; hot = hot; remote = remote }

abbrev pub settings_schema : List (String × SettingSpec)
settings_schema =
    ("sensor_read_s", spec (wholes (some (pos 5)) (some (pos 3600))) true true)
    ∷ ("lora_tx_s", spec (wholes (some (pos 60)) (some (pos 86400))) true true)
    ∷ ("gps_fix_s", spec (wholes (some (pos 86400)) (some (pos 1296000))) true true)
    ∷ ("gps_fix_timeout_s", spec (wholes (some (pos 5)) (some (pos 300))) true true)
    ∷ ("command_poll_s", spec (wholes (some (pos 5)) (some (pos 3600))) true true)
    ∷ ("sync_interval_s", spec (wholes (some (pos 30)) (some (pos 86400))) true true)
    ∷ ("heartbeat_s", spec (wholes (some (pos 60)) (some (pos 86400))) true true)
    ∷ ("batch_size", spec (wholes (some (pos 1)) (some (pos 200))) true true)
    ∷ ("max_retries", spec (wholes (some (pos 1)) (some (pos 10))) true true)
    ∷ ("gps_baud", spec (wholes (some (pos 1200)) (some (pos 921600))) false false)
    ∷ ("gps_enabled", spec flags false false)
    ∷ ("lora_enabled", spec flags false false)
    ∷ ("backhaul", spec (texts (some 8) (some ("wifi" ∷ "lte" ∷ "none" ∷ []))) false false)
    ∷ ("app_key", spec (texts (some 32) none) false false)
    ∷ ("app_eui", spec (texts (some 16) none) false false)
    ∷ ("lora_sub_band", spec (wholes (some (pos 1)) (some (pos 8))) false false)
    ∷ ("cloud_enabled", spec flags false false)
    ∷ ("cloud_ingest_url", spec (texts (some 256) none) false false)
    ∷ ("cloud_command_url", spec (texts (some 256) none) false false)
    ∷ ("cloud_api_base", spec (texts (some 256) none) false false)
    ∷ ("api_key", spec (texts (some 128) none) false false)
    ∷ ("ota_enabled", spec flags true true)
    ∷ ("ota_poll_s", spec (wholes (some (pos 300)) (some (pos 86400))) true true)
    ∷ ("ota_max_bundle_bytes", spec (wholes (some (pos 1000000)) (some (pos 536870912))) true true)
    ∷ ("ota_self_test_timeout_s", spec (wholes (some (pos 60)) (some (pos 3600))) true true)
    ∷ ("ota_keep_releases", spec (wholes (some (pos 1)) (some (pos 10))) true true)
    ∷ ("db_path", spec (texts (some 256) none) false false)
    ∷ ("log_path", spec (texts (some 256) none) false false)
    ∷ ("log_max_bytes", spec (wholes (some (pos 1024)) (some (pos 1073741824))) false false)
    ∷ ("log_backup_count", spec (wholes (some (pos 0)) (some (pos 50))) false false)
    ∷ ("db_max_rows", spec (wholes (some (pos 1000)) (some (pos 10000000))) true true)
    ∷ ("cmd_sock", spec (texts (some 256) none) false false)
    ∷ ("simulate_enabled", spec flags false false)
    ∷ ("simulate_seed", spec (wholes (some (pos 0)) (some (pos 2147483647))) false false)
    ∷ ("simulate_faults", spec (texts (some 512) none) false false)
    ∷ ("board", spec (texts (some 32) none) false false)
    ∷ ("orp_enabled", spec flags false true)
    ∷ ("ph_enabled", spec flags false true)
    ∷ ("tds_enabled", spec flags false true)
    ∷ ("turbidity_enabled", spec flags false true)
    ∷ ("temperature_enabled", spec flags false true)
    ∷ ("rs485_port", spec (texts (some 64) none) false false)
    ∷ ("rs485_chlorine_enabled", spec flags false true)
    ∷ ("rs485_chlorine_addr", spec (wholes (some (pos 1)) (some (pos 247))) false true)
    ∷ ("rs485_orp_enabled", spec flags false true)
    ∷ ("rs485_orp_addr", spec (wholes (some (pos 1)) (some (pos 247))) false true)
    ∷ ("rs485_multi_enabled", spec flags false true)
    ∷ ("rs485_multi_addr", spec (wholes (some (pos 1)) (some (pos 247))) false true)
    ∷ ("rs485_baud", spec (wholes (some (pos 1200)) (some (pos 115200))) false true)
    ∷ ("flow_pulse_enabled", spec flags false true)
    ∷ ("flow_pulse_gpio", spec (wholes (some (pos 0)) (some (pos 27))) false false)
    ∷ ("rs485_flow_enabled", spec flags false true)
    ∷ ("rs485_flow_addr", spec (wholes (some (pos 1)) (some (pos 247))) false true)
    ∷ ("rs485_flow_model", spec (texts (some 32) none) false true)
    ∷ ("adaptive_sampling_enabled", spec flags true true)
    ∷ ("sensor_read_fast_s", spec (wholes (some (pos 5)) (some (pos 600))) true true)
    ∷ ("adaptive_delta_threshold", spec (decimals (some (pos 0)) (some (pos 10000000))) true true)
    ∷ ("adaptive_hold_s", spec (wholes (some (pos 30)) (some (pos 86400))) true true)
    ∷ ("flatline_window_min", spec (wholes (some (pos 5)) (some (pos 1440))) true true)
    ∷ ("spike_z_threshold", spec (decimals (some (pos 10000)) (some (pos 200000))) true true)
    ∷ ("drift_check_enabled", spec flags true true)
    ∷ ("calibration_max_age_days", spec (wholes (some (pos 1)) (some (pos 3650))) true true)
    ∷ ("hardware_watchdog_enabled", spec flags false false)
    ∷ ("fan_on_temp_c", spec (decimals (some (pos 300000)) (some (pos 900000))) true true)
    ∷ ("fan_off_temp_c", spec (decimals (some (pos 250000)) (some (pos 850000))) true true)
    ∷ (
      "smart_breaker_vendor",
      spec (texts (some 16) (some ("none" ∷ "relay_only" ∷ "ableedge" ∷ []))) false false,
    )
    ∷ ("smart_breaker_device_id", spec (texts (some 64) none) false false)
    ∷ ("smart_breaker_site_id", spec (texts (some 64) none) false false)
    ∷ ("smart_breaker_circuit_label", spec (texts (some 64) none) false true)
    ∷ ("smart_breaker_circuit_amps", spec (wholes (some (pos 0)) (some (pos 200))) false false)
    ∷ ("smart_breaker_interlock_relay", spec (wholes (some (pos 0)) (some (pos 4))) false false)
    ∷ ("smart_breaker_poll_s", spec (wholes (some (pos 15)) (some (pos 3600))) true true)
    ∷ (
      "smart_breaker_fail_safe",
      spec (texts (some 8) (some ("off" ∷ "last" ∷ "on" ∷ []))) true true,
    )
    ∷ (
      "smart_breaker_unreachable_grace_s",
      spec (wholes (some (pos 0)) (some (pos 86400))) true true,
    )
    ∷ ("smart_breaker_min_off_s", spec (wholes (some (pos 0)) (some (pos 3600))) true true)
    ∷ (
      "smart_breaker_auth_mode",
      spec (texts (some 16) (some ("direct" ∷ "cloud_proxy" ∷ []))) false false,
    )
    ∷ ("smart_breaker_api_base", spec (texts (some 256) none) false false)
    ∷ ("smart_breaker_token_url", spec (texts (some 256) none) false false)
    ∷ ("smart_breaker_client_id", spec (texts (some 128) none) false false)
    ∷ ("smart_breaker_client_secret", spec (texts (some 256) none) false false)
    ∷ ("smart_breaker_subscription_key", spec (texts (some 128) none) false false)
    ∷ ("irrigation_hold_enabled", spec flags true true)
    ∷ ("irrigation_hold_relay", spec (wholes (some (pos 0)) (some (pos 4))) true true)
    ∷ (
      "irrigation_hold_turbidity_ntu",
      spec (decimals (some (pos 0)) (some (pos 40000000))) true true,
    )
    ∷ ("irrigation_hold_tds_ppm", spec (decimals (some (pos 0)) (some (pos 200000000))) true true)
    ∷ ("irrigation_hold_ph_min", spec (decimals (some (pos 0)) (some (pos 140000))) true true)
    ∷ ("irrigation_hold_ph_max", spec (decimals (some (pos 0)) (some (pos 140000))) true true)
    ∷ (
      "irrigation_hold_flow_gpm_max",
      spec (decimals (some (pos 0)) (some (pos 10000000))) true true,
    )
    ∷ ("irrigation_hold_trip_samples", spec (wholes (some (pos 1)) (some (pos 10))) true true)
    ∷ ("irrigation_hold_release_min", spec (wholes (some (pos 0)) (some (pos 1440))) true true)
    ∷ ("irrigation_hold_on_fault", spec (texts (some 8) (some ("release" ∷ "hold" ∷ []))) true true)
    ∷ ("apple_home_enabled", spec flags true true)
    ∷ ("apple_home_port", spec (wholes (some (pos 1024)) (some (pos 65535))) false false)
    ∷ ("mqtt_enabled", spec flags true true)
    ∷ ("mqtt_host", spec (texts (some 253) none) true false)
    ∷ ("mqtt_port", spec (wholes (some (pos 0)) (some (pos 65535))) true false)
    ∷ ("mqtt_username", spec (texts (some 128) none) true false)
    ∷ ("mqtt_password", spec (texts (some 256) none) true false)
    ∷ ("mqtt_tls", spec flags true false)
    ∷ ("mqtt_discovery_prefix", spec (texts (some 64) none) true false)
    ∷ []
