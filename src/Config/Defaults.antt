-- ===== src/Config/Defaults.antt =====
-- The defaults of Settings in src/utils/config.py, of the keys that the schema has.
use wqm.Prelude.{Bool, true, false, List, [], ◌∷◌, String}
use wqm.Prelude.Int.{ℤ, pos}

-- A value as YAML reads it; decimals are in ten-thousandths, with NaN apart, and lists, the infinities,
-- which no setting takes, and the rest are opaque.
pub data Value : Type 0 where
  flag : Bool → Value
  whole : ℤ → Value
  decimal : ℤ → Value
  nan : Value
  text : String → Value
  opaque : Value

abbrev pub default_settings : List (String × Value)
default_settings =
    ("sensor_read_s", whole (pos 60))
    ∷ ("lora_tx_s", whole (pos 300))
    ∷ ("gps_fix_s", whole (pos 86400))
    ∷ ("gps_fix_timeout_s", whole (pos 60))
    ∷ ("gps_baud", whole (pos 38400))
    ∷ ("gps_enabled", flag true)
    ∷ ("lora_enabled", flag true)
    ∷ ("backhaul", text "wifi")
    ∷ ("app_key", text "00000000000000000000000000000000")
    ∷ ("app_eui", text "0000000000000000")
    ∷ ("lora_sub_band", whole (pos 2))
    ∷ ("cloud_enabled", flag false)
    ∷ (
      "cloud_ingest_url",
      text "https://us-central1-waterquality-trading.cloudfunctions.net/ingestReading",
    )
    ∷ (
      "cloud_command_url",
      text "https://us-central1-waterquality-trading.cloudfunctions.net/deviceCommands",
    )
    ∷ ("cloud_api_base", text "https://us-central1-waterquality-trading.cloudfunctions.net/app")
    ∷ ("command_poll_s", whole (pos 5))
    ∷ ("api_key", text "")
    ∷ ("batch_size", whole (pos 50))
    ∷ ("sync_interval_s", whole (pos 300))
    ∷ ("max_retries", whole (pos 3))
    ∷ ("heartbeat_s", whole (pos 600))
    ∷ ("ota_enabled", flag true)
    ∷ ("ota_poll_s", whole (pos 900))
    ∷ ("ota_max_bundle_bytes", whole (pos 67108864))
    ∷ ("ota_self_test_timeout_s", whole (pos 600))
    ∷ ("ota_keep_releases", whole (pos 2))
    ∷ ("db_path", text "/var/lib/bluesignal/wqm1.db")
    ∷ ("log_path", text "/var/log/bluesignal/wqm1.log")
    ∷ ("log_max_bytes", whole (pos 10485760))
    ∷ ("log_backup_count", whole (pos 5))
    ∷ ("db_max_rows", whole (pos 100000))
    ∷ ("cmd_sock", text "/var/run/bluesignal/cmd.sock")
    ∷ ("simulate_enabled", flag false)
    ∷ ("simulate_seed", whole (pos 0))
    ∷ ("simulate_faults", text "")
    ∷ ("board", text "auto")
    ∷ ("orp_enabled", flag false)
    ∷ ("ph_enabled", flag true)
    ∷ ("tds_enabled", flag true)
    ∷ ("turbidity_enabled", flag true)
    ∷ ("temperature_enabled", flag true)
    ∷ ("rs485_port", text "/dev/ttyUSB0")
    ∷ ("rs485_chlorine_enabled", flag false)
    ∷ ("rs485_chlorine_addr", whole (pos 1))
    ∷ ("rs485_orp_enabled", flag false)
    ∷ ("rs485_orp_addr", whole (pos 2))
    ∷ ("rs485_multi_enabled", flag false)
    ∷ ("rs485_multi_addr", whole (pos 3))
    ∷ ("rs485_baud", whole (pos 9600))
    ∷ ("flow_pulse_enabled", flag false)
    ∷ ("flow_pulse_gpio", whole (pos 26))
    ∷ ("rs485_flow_enabled", flag false)
    ∷ ("rs485_flow_addr", whole (pos 4))
    ∷ ("rs485_flow_model", text "tuf2000m")
    ∷ ("adaptive_sampling_enabled", flag false)
    ∷ ("sensor_read_fast_s", whole (pos 15))
    ∷ ("adaptive_delta_threshold", decimal (pos 50000))
    ∷ ("adaptive_hold_s", whole (pos 600))
    ∷ ("flatline_window_min", whole (pos 20))
    ∷ ("spike_z_threshold", decimal (pos 60000))
    ∷ ("drift_check_enabled", flag true)
    ∷ ("calibration_max_age_days", whole (pos 90))
    ∷ ("hardware_watchdog_enabled", flag false)
    ∷ ("fan_on_temp_c", decimal (pos 600000))
    ∷ ("fan_off_temp_c", decimal (pos 550000))
    ∷ ("smart_breaker_vendor", text "none")
    ∷ ("smart_breaker_device_id", text "")
    ∷ ("smart_breaker_site_id", text "")
    ∷ ("smart_breaker_circuit_label", text "")
    ∷ ("smart_breaker_circuit_amps", whole (pos 0))
    ∷ ("smart_breaker_interlock_relay", whole (pos 0))
    ∷ ("smart_breaker_poll_s", whole (pos 60))
    ∷ ("smart_breaker_fail_safe", text "off")
    ∷ ("smart_breaker_unreachable_grace_s", whole (pos 300))
    ∷ ("smart_breaker_min_off_s", whole (pos 180))
    ∷ ("smart_breaker_auth_mode", text "direct")
    ∷ ("smart_breaker_api_base", text "https://api.em.eaton.com/api/v1")
    ∷ ("smart_breaker_token_url", text "https://api.em.eaton.com/oauth2/token")
    ∷ ("smart_breaker_client_id", text "")
    ∷ ("smart_breaker_client_secret", text "")
    ∷ ("smart_breaker_subscription_key", text "")
    ∷ ("irrigation_hold_enabled", flag false)
    ∷ ("irrigation_hold_relay", whole (pos 0))
    ∷ ("irrigation_hold_turbidity_ntu", decimal (pos 0))
    ∷ ("irrigation_hold_tds_ppm", decimal (pos 0))
    ∷ ("irrigation_hold_ph_min", decimal (pos 0))
    ∷ ("irrigation_hold_ph_max", decimal (pos 0))
    ∷ ("irrigation_hold_flow_gpm_max", decimal (pos 0))
    ∷ ("irrigation_hold_trip_samples", whole (pos 2))
    ∷ ("irrigation_hold_release_min", whole (pos 10))
    ∷ ("irrigation_hold_on_fault", text "release")
    ∷ ("apple_home_enabled", flag false)
    ∷ ("apple_home_port", whole (pos 51826))
    ∷ ("mqtt_enabled", flag false)
    ∷ ("mqtt_host", text "")
    ∷ ("mqtt_port", whole (pos 0))
    ∷ ("mqtt_username", text "")
    ∷ ("mqtt_password", text "")
    ∷ ("mqtt_tls", flag false)
    ∷ ("mqtt_discovery_prefix", text "homeassistant")
    ∷ []
