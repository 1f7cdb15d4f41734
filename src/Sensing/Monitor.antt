-- ===== src/Sensing/Monitor.antt =====
-- SensorMonitor of src/sensing/monitor.py: what the last windows of readings say of each sensor. Values
-- are ten-thousandths, times milliseconds; the texts of the events and of `health` are left out.
use wqm.Prelude.{
  ℕ, ◌+◌, ◌-◌, leb, ltb, Bool, true, false, not, ◌&&◌, ◌||◌, Option, none, some, List, [], ◌∷◌,
  ◌++◌, length, String, get_or, if◌then◌else◌,
}
use wqm.Prelude.Int.{ℤ}
use wqm.Prelude.Texts.{has_name, find, put_name}
use wqm.Sensing.Statistics.{is_noisy, is_outlier, push}
use wqm.Sensing.Drift
use wqm.Sensing.Drift.{Tracker, Drift, new_state}

abbrev pub field_to_sensor : List (String × String)
field_to_sensor =
    ("ph", "ph")
    ∷ ("tds_ppm", "tds")
    ∷ ("turbidity_ntu", "turbidity")
    ∷ ("temp_c", "temperature")
    ∷ ("orp_mv", "orp")
    ∷ ("chlorine_mgl", "chlorine")
    ∷ ("conductivity_uscm", "conductivity")
    ∷ ("salinity_ppt", "salinity")
    ∷ ("flow_rate_gpm", "flow")
    ∷ []

abbrev pub no_flatline : List String
no_flatline = "flow" ∷ []

abbrev pub noise_floor : List (String × ℕ)
noise_floor =
    ("ph", 200)
    ∷ ("tds", 50000)
    ∷ ("turbidity", 10000)
    ∷ ("temperature", 500)
    ∷ ("orp", 20000)
    ∷ ("chlorine", 50)
    ∷ ("conductivity", 5000)
    ∷ ("salinity", 50)
    ∷ ("flow", 10)
    ∷ []

abbrev pub floor_of : String → ℕ
floor_of sensor = get_or (find sensor noise_floor) 0

abbrev pub spike_rate_limit : ℕ
spike_rate_limit = 1800000

abbrev pub spike_min_samples : ℕ
spike_min_samples = 10

pub data Kind : Type 0 where
  flat no_data : Kind

pub data Event : Type 0 where
  sensor_stuck : Kind → Event
  sensor_recovered : Kind → Event
  anomaly_spike : Event
  calibration_drift : Event

-- The settings: the flatline window, the z-score of a spike in ten-thousandths, and whether drift is
-- watched.
pub record Settings : Type 0 where
  pub window : ℕ
  pub spike_z : ℕ
  pub drift_check : Bool

pub record Sensor : Type 0 where
  pub window : List (ℕ × Option ℤ)
  pub stuck : Option Kind
  pub last_spike : Option ℕ
  pub last_emit : Option ℕ
  pub drift : Drift

abbrev pub new_sensor : Sensor
new_sensor = record {
  window = [];
  stuck = none;
  last_spike = none;
  last_emit = none;
  drift = new_state;
}

unfoldable pub trim : ℕ → ℕ → List (ℕ × Option ℤ) → List (ℕ × Option ℤ)
trim span now [] = []
trim span now ((t, v) ∷ w) =
    let rest = trim span now w in if ltb (t + span) now then rest else (t, v) ∷ w

unfoldable pub values : List (ℕ × Option ℤ) → List ℤ
values [] = []
values ((t, none) ∷ w) = values w
values ((t, some v) ∷ w) = v ∷ values w

-- The time that the window spans, up to now.
abbrev pub span : ℕ → List (ℕ × Option ℤ) → ℕ
span now [] = 0
span now ((t, v) ∷ w) = now - t

abbrev pub is_value : Option ℤ → Bool
is_value none = false
is_value (some v) = true

abbrev pub recovers : String → Option ℤ → List ℤ → Kind → Bool
recovers sensor value vs no_data = is_value value
recovers sensor value vs flat = leb 2 (length vs) && is_noisy (floor_of sensor) vs

unfoldable pub verdict : String → List ℤ → List Event × Option Kind
verdict sensor [] = (sensor_stuck no_data ∷ [], some no_data)
verdict sensor (v ∷ vs) =
    if is_noisy (floor_of sensor) (v ∷ vs) || has_name sensor no_flatline
    then ([], none)
    else (sensor_stuck flat ∷ [], some flat)

-- The events, and whether the sensor is stuck then.
unfoldable pub check_stuck :
    Settings → String → ℕ → Option ℤ → List (ℕ × Option ℤ) → Option Kind → List Event × Option Kind
check_stuck cfg sensor now value w (some k) =
    if recovers sensor value (values w) k then (sensor_recovered k ∷ [], none) else ([], some k)
check_stuck cfg sensor now value w none =
    if ltb (span now w) cfg.window then ([], none) else verdict sensor (values w)

abbrev pub too_soon : ℕ → Option ℕ → Bool
too_soon now none = false
too_soon now (some last) = ltb now (last + spike_rate_limit)

abbrev pub is_stuck : Option Kind → Bool
is_stuck none = false
is_stuck (some k) = true

unfoldable pub check_spike : Settings → String → ℕ → ℤ → Sensor → List Event × Sensor
check_spike cfg sensor now value s =
    let vs = values s.window in
    if is_stuck s.stuck
    then ([], s)
    else if ltb (length vs) spike_min_samples
    then ([], s)
    else if not (is_outlier (floor_of sensor) cfg.spike_z vs value)
    then ([], s)
    else if too_soon now s.last_emit
    then ([], record s { last_spike = some now })
    else (anomaly_spike ∷ [], record s { last_spike = some now; last_emit = some now })

unfoldable pub check_drift : Settings → Tracker → String → ℕ → ℤ → Sensor → List Event × Sensor
check_drift cfg tracker sensor now value s =
    let out = Drift.observe tracker now sensor value s.drift in
    if cfg.drift_check
    then ((if out.0 then calibration_drift ∷ [] else []), record s { drift = out.1 })
    else ([], s)

-- What follows for a value of a sensor that was not stuck coming in.
unfoldable pub watch :
    Settings → Tracker → String → ℕ → Option ℤ → Bool → Sensor → List Event × Sensor
watch cfg tracker sensor now none was_stuck s = ([], s)
watch cfg tracker sensor now (some v) true s = ([], s)
watch cfg tracker sensor now (some v) false s =
    let spiked = check_spike cfg sensor now v s in
    let drifted = check_drift cfg tracker sensor now v spiked.1 in
    (spiked.0 ++ drifted.0, drifted.1)

unfoldable pub observe_sensor :
    Settings → Tracker → String → ℕ → Option ℤ → Sensor → List Event × Sensor
observe_sensor cfg tracker sensor now value s =
    let w = trim cfg.window now (push 4096 (now, value) s.window) in
    let checked = check_stuck cfg sensor now value w s.stuck in
    let watched =
      watch cfg tracker sensor now value (is_stuck s.stuck)
        (record s { window = w; stuck = checked.1 }) in
    (checked.0 ++ watched.0, watched.1)

abbrev of_sensor : String → List Event → List (String × Event)
of_sensor sensor [] = []
of_sensor sensor (e ∷ es) = (sensor, e) ∷ of_sensor sensor es

-- The loop over the fields: one that the reading has not is passed over.
unfoldable pub observe_fields :
    Settings
    → Tracker
    → ℕ
    → List (String × Option ℤ)
    → List (String × String)
    → List (String × Sensor)
    → List (String × Event) × List (String × Sensor)
observe_fields cfg tracker now reading [] m = ([], m)
observe_fields cfg tracker now reading ((field, sensor) ∷ fields) m = elim (find field reading) [
  | none ↦ observe_fields cfg tracker now reading fields m
  | some value ↦
      let out = observe_sensor cfg tracker sensor now value (get_or (find sensor m) new_sensor) in
      let rest = observe_fields cfg tracker now reading fields (put_name sensor out.1 m) in
      (of_sensor sensor out.0 ++ rest.0, rest.1)
]

unfoldable pub observe :
    Settings
    → Tracker
    → ℕ
    → List (String × Option ℤ)
    → List (String × Sensor)
    → List (String × Event) × List (String × Sensor)
observe cfg tracker now reading m = observe_fields cfg tracker now reading field_to_sensor m

abbrev pub is_suspended : Option Kind → Bool
is_suspended (some no_data) = true
is_suspended _ = false

unfoldable pub suspended_sensors : List (String × Sensor) → List String
suspended_sensors [] = []
suspended_sensors ((sensor, s) ∷ m) =
    let rest = suspended_sensors m in if is_suspended s.stuck then sensor ∷ rest else rest

unfoldable pub reset_baseline : String → List (String × Sensor) → List (String × Sensor)
reset_baseline sensor m =
    put_name sensor (record (get_or (find sensor m) new_sensor) { drift = new_state }) m
