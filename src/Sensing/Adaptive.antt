-- ===== src/Sensing/Adaptive.antt =====
-- AdaptiveSampler of src/sensing/adaptive.py. Values and full-scale spans are ten-thousandths, times
-- milliseconds, and the rate is compared multiplied out.
use wqm.Prelude.{
  ℕ, ◌+◌, ◌-◌, ◌*◌, leb, ltb, Bool, true, false, not, ◌&&◌, ◌||◌, Option, none, some, List, [], ◌∷◌,
  String, get_or, if◌then◌else◌,
}
use wqm.Prelude.Int.{ℤ, ◌-ℤ◌, abs}
use wqm.Prelude.Texts.{find, put_name}

abbrev pub sensor_ranges : List (String × ℕ)
sensor_ranges =
    ("ph", 140000)
    ∷ ("tds_ppm", 50000000)
    ∷ ("turbidity_ntu", 40000000)
    ∷ ("temp_c", 600000)
    ∷ ("orp_mv", 40000000)
    ∷ ("flow_rate_gpm", 5000000)
    ∷ []

abbrev pub field_to_sensor : List (String × String)
field_to_sensor =
    ("ph", "ph")
    ∷ ("tds_ppm", "tds")
    ∷ ("turbidity_ntu", "turbidity")
    ∷ ("temp_c", "temperature")
    ∷ ("orp_mv", "orp")
    ∷ ("flow_rate_gpm", "flow")
    ∷ []

-- The intervals are in seconds; the threshold is in ten-thousandths of a percent of the range a minute.
pub record Settings : Type 0 where
  pub enabled : Bool
  pub sensor_read_s : ℕ
  pub sensor_read_fast_s : ℕ
  pub delta_threshold : ℕ
  pub hold : ℕ

pub record Sampler : Type 0 where
  pub last : List (String × (ℕ × ℤ))
  pub fast_since : Option ℕ
  pub last_trigger : Option ℕ
  pub trigger_sensor : Option String

abbrev pub init : Sampler
init = record { last = []; fast_since = none; last_trigger = none; trigger_sensor = none }

abbrev pub normal : Sampler → Sampler
normal a = record a { fast_since = none; last_trigger = none; trigger_sensor = none }

abbrev pub held_long_enough : Settings → ℕ → Option ℕ → Bool
held_long_enough cfg now none = false
held_long_enough cfg now (some t) = leb (t + cfg.hold) now

unfoldable pub decay_from : Option ℕ → Settings → ℕ → Sampler → Sampler
decay_from none cfg now a = a
decay_from (some since) cfg now a =
    if not cfg.enabled || held_long_enough cfg now a.last_trigger then normal a else a

unfoldable pub maybe_decay : Settings → ℕ → Sampler → Sampler
maybe_decay cfg now a = decay_from a.fast_since cfg now a

-- Whether a value has changed fast since the one before; no time between them is no rate.
unfoldable pub is_fast : Settings → ℕ → ℕ → ℤ → Option (ℕ × ℤ) → Bool
is_fast cfg range now v none = false
is_fast cfg range now v (some (t, u)) =
    ltb t now
    && (cfg.enabled
        && leb (cfg.delta_threshold * range * (now - t)) (abs (v -ℤ u) * 100 * 60000 * 10000))

unfoldable pub trigger : ℕ → String → Sampler → Sampler
trigger now field a = record a {
  fast_since = some (get_or a.fast_since now);
  last_trigger = some now;
  trigger_sensor = find field field_to_sensor;
}

unfoldable pub take_value : Settings → ℕ → String → ℕ → Option ℤ → Sampler → Sampler
take_value cfg now field range none a = a
take_value cfg now field range (some v) a =
    let next = record a { last = put_name field (now, v) a.last } in
    if is_fast cfg range now v (find field a.last) then trigger now field next else next

-- The loop over the fields, from the readings by their fields.
unfoldable pub observe_fields :
    Settings → ℕ → List (String × Option ℤ) → List (String × ℕ) → Sampler → Sampler
observe_fields cfg now reading [] a = a
observe_fields cfg now reading ((field, range) ∷ fields) a =
    observe_fields cfg now reading fields
      (take_value cfg now field range (get_or (find field reading) none) a)

unfoldable pub observe : Settings → ℕ → List (String × Option ℤ) → Sampler → Sampler
observe cfg now reading a = maybe_decay cfg now (observe_fields cfg now reading sensor_ranges a)

abbrev pub is_normal : Option ℕ → Bool
is_normal none = true
is_normal (some t) = false

unfoldable pub current_interval_s : Settings → ℕ → Sampler → ℕ × Sampler
current_interval_s cfg now a =
    let b = maybe_decay cfg now a in
    (
      (if not cfg.enabled || is_normal b.fast_since
          then cfg.sensor_read_s
          else cfg.sensor_read_fast_s),
      b,
    )

-- `mode` is fast or not, with the trigger and since when.
unfoldable pub status : Settings → ℕ → Sampler → (Bool × Option String × Option ℕ) × Sampler
status cfg now a =
    let b = maybe_decay cfg now a in
    if not cfg.enabled || is_normal b.fast_since
    then ((false, none, none), b)
    else ((true, b.trigger_sensor, b.fast_since), b)
