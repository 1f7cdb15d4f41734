-- ===== src/Sensing/Suspended.antt =====
-- Which sensors src/sensing/monitor.py suspends the rules of.
use mathlib.Core.Path.{subst}
use wqm.Prelude.{
  ℕ, zero, suc, ◌+◌, ◌-◌, ◌≤◌, ◌≡◌, inl, inr, refl, sym, ap, ◌∙◌, leb, ltb, Bool, true, false, not,
  ◌&&◌, ◌||◌, Option, none, some, List, [], ◌∷◌, ◌++◌, length, length-append, drop, String, arith,
  if◌then◌else◌, Bool-cases,
}
use wqm.Prelude.Int.{ℤ}
use wqm.Prelude.Texts.{has_name}
use wqm.Sensing.Statistics.{push, is_noisy, is_outlier}
use wqm.Sensing.Drift.{Tracker}
use wqm.Sensing.Monitor.{
  Settings, Sensor, new_sensor, Kind, flat, no_data, Event, anomaly_spike, spike_min_samples, trim,
  values, span, verdict, check_stuck, check_spike, check_drift, watch, observe_sensor, is_stuck,
  is_suspended, too_soon, floor_of, no_flatline,
}

-- A reading of one sensor: the settings at its time, the time and the value.
pub record Feed : Type 0 where
  pub cfg : Settings
  pub now : ℕ
  pub value : Option ℤ

-- The readings of a sensor in their order.
unfoldable pub run : Tracker → String → List Feed → Sensor → Sensor
run tracker sensor [] s = s
run tracker sensor (f ∷ fs) s =
    run tracker sensor fs (observe_sensor f.cfg tracker sensor f.now f.value s).1

-- What becomes of the spikes and the drift does not touch the window and the state.
pub record Beside (s : Sensor) (out : List Event × Sensor) : Type 0 where
  pub window : out.1.window ≡ s.window
  pub stuck : out.1.stuck ≡ s.stuck

if-Beside :
    (b : Bool) (s : Sensor) (x y : List Event × Sensor)
    → Beside s x
    → Beside s y
    → Beside s (if b then x else y)
if-Beside true s x y h k = h
if-Beside false s x y h k = k

check_spike-Beside :
    (cfg : Settings) (sensor : String) (now : ℕ) (v : ℤ) (s : Sensor)
    → Beside s (check_spike cfg sensor now v s)
unfolding check_spike
check_spike-Beside cfg sensor now v s =
    let quiet : List Event × Sensor = ([], record s { last_spike = some now }) in
    let loud : List Event × Sensor =
      (anomaly_spike ∷ [], record s { last_spike = some now; last_emit = some now }) in
    let found = if too_soon now s.last_emit then quiet else loud in
    let odd = not (is_outlier (floor_of sensor) cfg.spike_z (values s.window) v) in
    let tested : List Event × Sensor = if odd then ([], s) else found in
    let few = ltb (length (values s.window)) spike_min_samples in
    if-Beside (is_stuck s.stuck) s ([], s) (if few then ([], s) else tested)
      (record { window = refl; stuck = refl })
      (if-Beside few s ([], s) tested (record { window = refl; stuck = refl })
        (if-Beside odd s ([], s) found (record { window = refl; stuck = refl })
          (if-Beside (too_soon now s.last_emit) s quiet loud
            (record { window = refl; stuck = refl }) (record { window = refl; stuck = refl }))))

check_drift-Beside :
    (cfg : Settings) (tracker : Tracker) (sensor : String) (now : ℕ) (v : ℤ) (s : Sensor)
    → Beside s (check_drift cfg tracker sensor now v s)
unfolding check_drift
check_drift-Beside cfg tracker sensor now v s =
    if-Beside cfg.drift_check s _ _ (record { window = refl; stuck = refl })
      (record { window = refl; stuck = refl })

pub watch-Beside :
    (cfg : Settings) (tracker : Tracker) (sensor : String) (now : ℕ) (value : Option ℤ) (b : Bool)
    → (s : Sensor) → Beside s (watch cfg tracker sensor now value b s)
unfolding watch
watch-Beside cfg tracker sensor now none b s = record { window = refl; stuck = refl }
watch-Beside cfg tracker sensor now (some v) true s = record { window = refl; stuck = refl }
watch-Beside cfg tracker sensor now (some v) false s =
    let a = check_spike-Beside cfg sensor now v s in
    let b = check_drift-Beside cfg tracker sensor now v (check_spike cfg sensor now v s).1 in
    record { window = b.window ∙ a.window; stuck = b.stuck ∙ a.stuck }

drop-append :
    (n : ℕ) (xs : List (ℕ × Option ℤ)) (x : ℕ × Option ℤ)
    → n ≤ length xs
    → drop n (xs ++ x ∷ []) ≡ drop n xs ++ x ∷ []
drop-append zero xs x h = refl
drop-append (suc n) [] x h = absurd (omega arith)
drop-append (suc n) (y ∷ xs) x h = drop-append n xs x (omega arith)

trim-append :
    (s now : ℕ) (xs : List (ℕ × Option ℤ)) (v : Option ℤ)
    → trim s now (xs ++ (now, v) ∷ []) ≡ trim s now xs ++ (now, v) ∷ []
unfolding trim
trim-append s now [] v = rw (let fresh : ltb (now + s) now ≡ false = ground arith in fresh) refl
trim-append s now ((t, u) ∷ xs) v = elim (Bool-cases (ltb (t + s) now)) [
  | inl e ↦ rw e (trim-append s now xs v)
  | inr e ↦ rw e refl
]

-- What is left of a window when a reading has come, before that reading.
left : ℕ → ℕ → List (ℕ × Option ℤ) → List (ℕ × Option ℤ)
left s now xs = trim s now (drop (length xs + 1 - 4096) xs)

window-left :
    (s now : ℕ) (xs : List (ℕ × Option ℤ)) (v : Option ℤ)
    → trim s now (push 4096 (now, v) xs) ≡ left s now xs ++ (now, v) ∷ []
unfolding push left
window-left s now xs v =
    ap (λ n. trim s now (drop (n - 4096) (xs ++ (now, v) ∷ []))) (length-append xs ((now, v) ∷ []))
    ∙ (ap (trim s now) (drop-append (length xs + 1 - 4096) xs (now, v) (omega arith))
        ∙ trim-append s now (drop (length xs + 1 - 4096) xs) v)

values-append : (xs ys : List (ℕ × Option ℤ)) → values (xs ++ ys) ≡ values xs ++ values ys
unfolding values
values-append [] ys = refl
values-append ((t, none) ∷ xs) ys = values-append xs ys
values-append ((t, some v) ∷ xs) ys = ap (λ l. v ∷ l) (values-append xs ys)

values-drop : (n : ℕ) (xs : List (ℕ × Option ℤ)) → values xs ≡ [] → values (drop n xs) ≡ []
unfolding values
values-drop zero xs h = h
values-drop (suc n) [] h = refl
values-drop (suc n) ((t, none) ∷ xs) h = values-drop n xs h
values-drop (suc n) ((t, some v) ∷ xs) h = absurd cc

values-trim : (s now : ℕ) (xs : List (ℕ × Option ℤ)) → values xs ≡ [] → values (trim s now xs) ≡ []
unfolding values trim
values-trim s now [] h = refl
values-trim s now ((t, none) ∷ xs) h = elim (Bool-cases (ltb (t + s) now)) [
  | inl e ↦ rw e (values-trim s now xs h)
  | inr e ↦ rw e h
]
values-trim s now ((t, some v) ∷ xs) h = absurd cc

-- A suspended sensor has no value in its window.
abbrev pub Silent : Option Kind → List (ℕ × Option ℤ) → Type 0
Silent none w = Unit
Silent (some flat) w = Unit
Silent (some no_data) w = values w ≡ []

verdict-Silent :
    (sensor : String) (w : List (ℕ × Option ℤ)) (vs : List ℤ)
    → values w ≡ vs
    → Silent (verdict sensor vs).1 w
unfolding verdict
verdict-Silent sensor w [] h = h
verdict-Silent sensor w (v ∷ vs) h =
    elim (Bool-cases (is_noisy (floor_of sensor) (v ∷ vs) || has_name sensor no_flatline)) [
      | inl e ↦ rw e tt
      | inr e ↦ rw e tt
    ]

check_stuck-Silent :
    (cfg : Settings) (sensor : String) (now : ℕ) (value : Option ℤ) (old w : List (ℕ × Option ℤ))
    → (stuck : Option Kind) → (value ≡ none → values old ≡ [] → values w ≡ [])
    → Silent stuck old
    → Silent (check_stuck cfg sensor now value w stuck).1 w
unfolding check_stuck
check_stuck-Silent cfg sensor now value old w none keep h =
    elim (Bool-cases (ltb (span now w) cfg.window)) [
      | inl e ↦ rw e tt
      | inr e ↦ rw e (verdict-Silent sensor w (values w) refl)
    ]
check_stuck-Silent cfg sensor now value old w (some flat) keep h =
    elim (Bool-cases (leb 2 (length (values w)) && is_noisy (floor_of sensor) (values w))) [
      | inl e ↦ rw e tt
      | inr e ↦ rw e tt
    ]
check_stuck-Silent cfg sensor now none old w (some no_data) keep h = keep refl h
check_stuck-Silent cfg sensor now (some v) old w (some no_data) keep h = tt

some-values :
    (xs : List (ℕ × Option ℤ)) (t : ℕ) (v : ℤ)
    → ((u : ℤ) × (us : List ℤ) × (values (xs ++ (t, some v) ∷ []) ≡ u ∷ us))
unfolding values
some-values [] t v = (v, [], refl)
some-values ((s, none) ∷ xs) t v = some-values xs t v
some-values ((s, some u) ∷ xs) t v = (u, values (xs ++ (t, some v) ∷ []), refl)

verdict-unsuspended :
    (sensor : String) (v : ℤ) (vs : List ℤ) → is_suspended (verdict sensor (v ∷ vs)).1 ≡ false
unfolding verdict
verdict-unsuspended sensor v vs =
    elim (Bool-cases (is_noisy (floor_of sensor) (v ∷ vs) || has_name sensor no_flatline)) [
      | inl e ↦ rw e refl
      | inr e ↦ rw e refl
    ]

check_stuck-value :
    (cfg : Settings) (sensor : String) (now : ℕ) (v : ℤ) (xs : List (ℕ × Option ℤ))
    → (stuck : Option Kind)
    → is_suspended (check_stuck cfg sensor now (some v) (xs ++ (now, some v) ∷ []) stuck).1 ≡ false
unfolding check_stuck
check_stuck-value cfg sensor now v xs (some no_data) = refl
check_stuck-value cfg sensor now v xs (some flat) =
    elim (Bool-cases (
      leb 2 (length (values (xs ++ (now, some v) ∷ [])))
      && is_noisy (floor_of sensor) (values (xs ++ (now, some v) ∷ [])))) [
        | inl e ↦ rw e refl
        | inr e ↦ rw e refl
      ]
check_stuck-value cfg sensor now v xs none =
    let (u, us, e) = some-values xs now v in
    elim (Bool-cases (ltb (span now (xs ++ (now, some v) ∷ [])) cfg.window)) [
      | inl f ↦ rw f refl
      | inr f ↦
          rw f (ap (λ l. is_suspended (verdict sensor l).1) e ∙ verdict-unsuspended sensor u us)
    ]

Silent-values :
    (k : Option Kind) (w : List (ℕ × Option ℤ)) → is_suspended k ≡ true → Silent k w → values w ≡ []
Silent-values none w h q = absurd cc
Silent-values (some flat) w h q = absurd cc
Silent-values (some no_data) w h q = q

-- A window without values has none after a reading without one.
window-Silent :
    (cfg : Settings) (now : ℕ) (value : Option ℤ) (w : List (ℕ × Option ℤ))
    → value ≡ none
    → values w ≡ []
    → values (trim cfg.window now (push 4096 (now, value) w)) ≡ []
unfolding values left
window-Silent cfg now (some v) w e h = absurd cc
window-Silent cfg now none w e h =
    ap values (window-left cfg.window now w none)
    ∙ (values-append (left cfg.window now w) ((now, none) ∷ [])
        ∙ ap (λ l. l ++ [])
            (values-trim cfg.window now (drop (length w + 1 - 4096) w)
              (values-drop (length w + 1 - 4096) w h)))

module _ (tracker : Tracker) (sensor : String) where
  observe_sensor-Silent :
      (cfg : Settings) (now : ℕ) (value : Option ℤ) (s : Sensor)
      → Silent s.stuck s.window
      → let t = (observe_sensor cfg tracker sensor now value s).1 in Silent t.stuck t.window
  unfolding observe_sensor
  observe_sensor-Silent cfg now value s h =
      let w = trim cfg.window now (push 4096 (now, value) s.window) in
      let checked = check_stuck cfg sensor now value w s.stuck in
      let b =
        watch-Beside cfg tracker sensor now value (is_stuck s.stuck)
          (record s { window = w; stuck = checked.1 }) in
      let t =
        (watch cfg tracker sensor now value (is_stuck s.stuck)
          (record s { window = w; stuck = checked.1 })).1 in
      subst (λ x. Silent t.stuck x) (sym b.window)
        (subst (λ k. Silent k w) (sym b.stuck)
          (check_stuck-Silent cfg sensor now value s.window w s.stuck
            (window-Silent cfg now value s.window) h))

  run-Silent :
      (fs : List Feed) (s : Sensor)
      → Silent s.stuck s.window
      → Silent (run tracker sensor fs s).stuck (run tracker sensor fs s).window
  unfolding run
  run-Silent [] s h = h
  run-Silent (f ∷ fs) s h =
      run-Silent fs (observe_sensor f.cfg tracker sensor f.now f.value s).1
        (observe_sensor-Silent f.cfg f.now f.value s h)

  observe_sensor-value :
      (cfg : Settings) (now : ℕ) (v : ℤ) (s : Sensor)
      → is_suspended (observe_sensor cfg tracker sensor now (some v) s).1.stuck ≡ false
  unfolding observe_sensor
  observe_sensor-value cfg now v s =
      let w = trim cfg.window now (push 4096 (now, some v) s.window) in
      let checked = check_stuck cfg sensor now (some v) w s.stuck in
      let b =
        watch-Beside cfg tracker sensor now (some v) (is_stuck s.stuck)
          (record s { window = w; stuck = checked.1 }) in
      ap is_suspended b.stuck
      ∙ subst (λ x. is_suspended (check_stuck cfg sensor now (some v) x s.stuck).1 ≡ false)
          (sym (window-left cfg.window now s.window (some v)))
          (check_stuck-value cfg sensor now v (left cfg.window now s.window) s.stuck)

  -- Whatever readings a sensor has had, at any settings and times: while it is suspended there is no
  -- value in its window, and the next value ends the suspension.
  pub suspended_is_silent :
      (fs : List Feed) (next : Settings) (now : ℕ) (v : ℤ)
      → let s = run tracker sensor fs new_sensor in
        (is_suspended s.stuck ≡ true → values s.window ≡ [])
        × (is_suspended (observe_sensor next tracker sensor now (some v) s).1.stuck ≡ false)
  suspended_is_silent fs next now v =
      let s = run tracker sensor fs new_sensor in
      (
        (λ h. Silent-values s.stuck s.window h (run-Silent fs new_sensor tt)),
        observe_sensor-value next now v s,
      )
