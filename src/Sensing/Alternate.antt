-- ===== src/Sensing/Alternate.antt =====
-- The events of src/sensing/monitor.py as the cloud receives them: they tell the state of a sensor.
use wqm.Prelude.{
  ℕ, ◌≡◌, inl, inr, refl, sym, ap, ◌∙◌, Bool, true, false, not, ◌||◌, Option, none, some, List, [],
  ◌∷◌, ◌++◌, String, length, ltb, if◌then◌else◌, Bool-cases,
}
use wqm.Prelude.Int.{ℤ}
use wqm.Prelude.Texts.{has_name}
use wqm.Sensing.Statistics.{push, is_noisy, is_outlier}
use wqm.Sensing.Drift
use wqm.Sensing.Drift.{Tracker}
use wqm.Sensing.Monitor.{
  Settings, Sensor, Kind, flat, no_data, Event, sensor_stuck, sensor_recovered, anomaly_spike,
  calibration_drift, trim, values, span, verdict, recovers, check_stuck, check_spike, check_drift,
  watch, observe_sensor, is_stuck, too_soon, floor_of, no_flatline, spike_min_samples,
}
use wqm.Sensing.Suspended.{Feed, watch-Beside}

abbrev same_kind : Kind → Kind → Bool
same_kind flat flat = true
same_kind no_data no_data = true
same_kind _ _ = false

-- What one who hears the events makes of a sensor; none where an event does not fit what was heard.
unfoldable pub hear : Event → Option Kind → Option (Option Kind)
hear (sensor_stuck k) none = some (some k)
hear (sensor_stuck k) (some j) = none
hear (sensor_recovered k) none = none
hear (sensor_recovered k) (some j) = if same_kind j k then some none else none
hear anomaly_spike heard = some heard
hear calibration_drift heard = some heard

unfoldable pub hear_all : List Event → Option Kind → Option (Option Kind)
hear_all [] heard = some heard
hear_all (e ∷ es) heard = elim (hear e heard) [ none ↦ none | some next ↦ hear_all es next ]

-- The events of the readings in their order.
unfoldable pub events_of : Tracker → String → List Feed → Sensor → List Event × Sensor
events_of tracker sensor [] s = ([], s)
events_of tracker sensor (f ∷ fs) s =
    let out = observe_sensor f.cfg tracker sensor f.now f.value s in
    let rest = events_of tracker sensor fs out.1 in (out.0 ++ rest.0, rest.1)

heard_next :
    (es fs : List Event) (next : Option Kind) (o : Option (Option Kind))
    → ((k : Option Kind) → hear_all es k ≡ some next → hear_all (es ++ fs) k ≡ hear_all fs next)
    → elim o [ none ↦ none | some k ↦ hear_all es k ] ≡ some next
    → elim o [ none ↦ none | some k ↦ hear_all (es ++ fs) k ] ≡ hear_all fs next
heard_next es fs next none more h = absurd cc
heard_next es fs next (some k) more h = more k h

hear_all-append :
    (es fs : List Event) (heard next : Option Kind)
    → hear_all es heard ≡ some next
    → hear_all (es ++ fs) heard ≡ hear_all fs next
unfolding hear_all
hear_all-append [] fs heard next h = ap (λ o. elim o [ none ↦ none | some k ↦ hear_all fs k ]) h
hear_all-append (e ∷ es) fs heard next h =
    heard_next es fs next (hear e heard) (λ k. hear_all-append es fs k next) h

-- Spikes and drift do not change what was heard.
Quiet : List Event → Type 0
Quiet es = (heard : Option Kind) → hear_all es heard ≡ some heard

if-Quiet :
    (b : Bool) (x y : List Event × Sensor) → Quiet x.0 → Quiet y.0 → Quiet (if b then x else y).0
if-Quiet true x y h k = h
if-Quiet false x y h k = k

nothing-Quiet : Quiet []
unfolding Quiet hear_all
nothing-Quiet heard = refl

check_spike-Quiet :
    (cfg : Settings) (sensor : String) (now : ℕ) (v : ℤ) (s : Sensor)
    → Quiet (check_spike cfg sensor now v s).0
unfolding check_spike Quiet hear_all hear
check_spike-Quiet cfg sensor now v s =
    let quiet : List Event × Sensor = ([], record s { last_spike = some now }) in
    let loud : List Event × Sensor =
      (anomaly_spike ∷ [], record s { last_spike = some now; last_emit = some now }) in
    let found = if too_soon now s.last_emit then quiet else loud in
    let odd = not (is_outlier (floor_of sensor) cfg.spike_z (values s.window) v) in
    let tested : List Event × Sensor = if odd then ([], s) else found in
    let few = ltb (length (values s.window)) spike_min_samples in
    if-Quiet (is_stuck s.stuck) ([], s) (if few then ([], s) else tested) nothing-Quiet
      (if-Quiet few ([], s) tested nothing-Quiet
        (if-Quiet odd ([], s) found nothing-Quiet
          (if-Quiet (too_soon now s.last_emit) quiet loud nothing-Quiet (λ heard. refl))))

check_drift-Quiet :
    (cfg : Settings) (tracker : Tracker) (sensor : String) (now : ℕ) (v : ℤ) (s : Sensor)
    → Quiet (check_drift cfg tracker sensor now v s).0
unfolding check_drift Quiet hear_all hear
check_drift-Quiet cfg tracker sensor now v s heard = elim (Bool-cases cfg.drift_check) [
  | inr e ↦ rw e refl
  | inl e ↦ elim (Bool-cases (Drift.observe tracker now sensor v s.drift).0) [
    | inl f ↦ rw (e, f) refl
    | inr f ↦ rw (e, f) refl
  ]
]

watch-Quiet :
    (cfg : Settings) (tracker : Tracker) (sensor : String) (now : ℕ) (value : Option ℤ) (b : Bool)
    → (s : Sensor) → Quiet (watch cfg tracker sensor now value b s).0
unfolding watch Quiet
watch-Quiet cfg tracker sensor now none b s = nothing-Quiet
watch-Quiet cfg tracker sensor now (some v) true s = nothing-Quiet
watch-Quiet cfg tracker sensor now (some v) false s = λ heard.
    let spiked = check_spike cfg sensor now v s in
    hear_all-append spiked.0 (check_drift cfg tracker sensor now v spiked.1).0 heard heard
      (check_spike-Quiet cfg sensor now v s heard)
    ∙ check_drift-Quiet cfg tracker sensor now v spiked.1 heard

Told : Option Kind → List Event × Option Kind → Type 0
Told stuck out = hear_all out.0 stuck ≡ some out.1

if-Told :
    (b : Bool) (stuck : Option Kind) (x y : List Event × Option Kind)
    → Told stuck x
    → Told stuck y
    → Told stuck (if b then x else y)
if-Told true stuck x y h k = h
if-Told false stuck x y h k = k

verdict-Told : (sensor : String) (vs : List ℤ) → Told none (verdict sensor vs)
unfolding verdict Told hear_all hear
verdict-Told sensor [] = refl
verdict-Told sensor (v ∷ vs) =
    if-Told (is_noisy (floor_of sensor) (v ∷ vs) || has_name sensor no_flatline) none ([], none)
      (sensor_stuck flat ∷ [], some flat) refl refl

check_stuck-Told :
    (cfg : Settings) (sensor : String) (now : ℕ) (value : Option ℤ) (w : List (ℕ × Option ℤ))
    → (stuck : Option Kind) → Told stuck (check_stuck cfg sensor now value w stuck)
unfolding check_stuck Told hear_all hear
check_stuck-Told cfg sensor now value w none =
    if-Told (ltb (span now w) cfg.window) none ([], none) (verdict sensor (values w)) refl
      (verdict-Told sensor (values w))
check_stuck-Told cfg sensor now value w (some flat) =
    if-Told (recovers sensor value (values w) flat) (some flat) (sensor_recovered flat ∷ [], none)
      ([], some flat) refl refl
check_stuck-Told cfg sensor now value w (some no_data) =
    if-Told (recovers sensor value (values w) no_data) (some no_data)
      (sensor_recovered no_data ∷ [], none) ([], some no_data) refl refl

module _ (tracker : Tracker) (sensor : String) where
  observe_sensor-hear :
      (cfg : Settings) (now : ℕ) (value : Option ℤ) (s : Sensor)
      → let out = observe_sensor cfg tracker sensor now value s in
        hear_all out.0 s.stuck ≡ some out.1.stuck
  unfolding observe_sensor Told Quiet
  observe_sensor-hear cfg now value s =
      let w = trim cfg.window now (push 4096 (now, value) s.window) in
      let checked = check_stuck cfg sensor now value w s.stuck in
      let next = record s { window = w; stuck = checked.1 } in
      let b = watch-Beside cfg tracker sensor now value (is_stuck s.stuck) next in
      hear_all-append checked.0 (watch cfg tracker sensor now value (is_stuck s.stuck) next).0
        s.stuck checked.1 (check_stuck-Told cfg sensor now value w s.stuck)
      ∙ (watch-Quiet cfg tracker sensor now value (is_stuck s.stuck) next checked.1
          ∙ ap some (sym b.stuck))

  -- Whatever readings a sensor has: the events raised for it fit each other, each recovery to the fault
  -- before it, and one who heard them all knows whether the sensor is stuck and how.
  pub events_tell_state :
      (fs : List Feed) (s : Sensor)
      → hear_all (events_of tracker sensor fs s).0 s.stuck
        ≡ some (events_of tracker sensor fs s).1.stuck
  unfolding events_of hear_all
  events_tell_state [] s = refl
  events_tell_state (f ∷ fs) s =
      let out = observe_sensor f.cfg tracker sensor f.now f.value s in
      hear_all-append out.0 (events_of tracker sensor fs out.1).0 s.stuck out.1.stuck
        (observe_sensor-hear f.cfg f.now f.value s)
      ∙ events_tell_state fs out.1
