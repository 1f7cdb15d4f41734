-- ===== src/Sensing/Tests.antt =====
-- The monitor and the sampler at concrete inputs: a pH probe that falls silent and comes back.
use wqm.Prelude.{ℕ, ◌≡◌, ◌⊎◌, true, false, Option, none, some, List, [], ◌∷◌}
use wqm.Prelude.Int.{ℤ, pos}
use wqm.Sensing.Drift.{Tracker}
use wqm.Sensing.Monitor
use wqm.Sensing.Monitor.{new_sensor, is_suspended, values, observe_sensor}
use wqm.Sensing.Suspended.{Feed, run, suspended_is_silent}
use wqm.Sensing.Alternate.{hear_all, events_of, events_tell_state}
use wqm.Sensing.Adaptive
use wqm.Sensing.Adaptive.{init, current_interval_s}
use wqm.Sensing.Cause.{Call, observed, paced, shown, serve_all}
use wqm.Sensing.Pace.{IsHeld, fast_only_when-IsHeld}

abbrev tracker : Tracker
tracker = record {
  baseline_capture_h = 24;
  compare_window_h = 24;
  history_h = 168;
  event_interval = 604800000;
}

abbrev cfg : Monitor.Settings
cfg = record { window = 1200000; spike_z = 60000; drift_check = true }

abbrev reading : ℕ → Option ℤ → Feed
reading now value = record { cfg = cfg; now = now; value = value }

-- Nothing for 20 minutes, and then a value.
abbrev feeds : List Feed
feeds =
    reading 0 (some (pos 72000))
    ∷ reading 60000 none
    ∷ reading 660000 none
    ∷ reading 1260000 none
    ∷ reading 1320000 none
    ∷ reading 1380000 (some (pos 71900))
    ∷ []

suspended_is_silent_example :
    let s = run tracker "ph" feeds new_sensor in
    (is_suspended s.stuck ≡ true → values s.window ≡ [])
    × (is_suspended (observe_sensor cfg tracker "ph" 1440000 (some (pos 72100)) s).1.stuck ≡ false)
suspended_is_silent_example = suspended_is_silent tracker "ph" feeds cfg 1440000 (pos 72100)

events_tell_state_example :
    hear_all (events_of tracker "ph" feeds new_sensor).0 none
    ≡ some (events_of tracker "ph" feeds new_sensor).1.stuck
events_tell_state_example = events_tell_state tracker "ph" feeds new_sensor

abbrev pace : Adaptive.Settings
pace = record {
  enabled = true;
  sensor_read_s = 60;
  sensor_read_fast_s = 15;
  delta_threshold = 50000;
  hold = 600000;
}

-- The pH rises by two within a minute.
abbrev calls : List Call
calls =
    observed pace 0 (("ph", some (pos 70000)) ∷ [])
    ∷ paced pace 30000
    ∷ observed pace 60000 (("ph", some (pos 90000)) ∷ [])
    ∷ shown pace 90000
    ∷ []

fast_only_when-IsHeld_example :
    let out = current_interval_s pace 120000 (serve_all calls init) in
    ((out.0 ≡ 15) × IsHeld calls pace 120000 out.1) ⊎ (out.0 ≡ 60)
fast_only_when-IsHeld_example = fast_only_when-IsHeld calls pace 120000

abbrev told : List Monitor.Event
told = (events_of tracker "ph" feeds new_sensor).0

abbrev paces : List ℕ
paces =
    (current_interval_s pace 120000 (serve_all calls init)).0
    ∷ (current_interval_s pace 660000 (serve_all calls init)).0
    ∷ []
