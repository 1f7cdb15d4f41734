-- ===== src/Sensing/Drift.antt =====
-- DriftTracker of src/sensing/monitor.py, one sensor at a time: hourly medians, a baseline from the
-- first of them, and the comparison of the last day with it. Medians are doubled at each step, so the
-- baseline and the current median are held in quarters.
use wqm.Prelude.{
  ℕ, suc, ◌+◌, ◌*◌, ◌/◌, leb, ltb, ◌==◌, Bool, true, false, Option, none, some, List, [], ◌∷◌, ◌++◌,
  length, String, if◌then◌else◌,
}
use wqm.Prelude.Int.{ℤ, ◌-ℤ◌, abs}
use wqm.Prelude.Texts.{find}
use wqm.Sensing.Statistics.{median2, push}

-- A band in the unit of the reading, or a fraction of the baseline, in ten-thousandths.
pub data Threshold : Type 0 where
  absolute relative : ℕ → Threshold

abbrev pub drift_thresholds : List (String × Threshold)
drift_thresholds =
    ("ph", absolute 3000)
    ∷ ("tds", relative 1000)
    ∷ ("turbidity", relative 1500)
    ∷ ("orp", absolute 300000)
    ∷ ("chlorine", absolute 2000)
    ∷ ("conductivity", relative 1000)
    ∷ ("salinity", relative 1000)
    ∷ []

pub record Tracker : Type 0 where
  pub baseline_capture_h : ℕ
  pub compare_window_h : ℕ
  pub history_h : ℕ
  pub event_interval : ℕ

pub record Drift : Type 0 where
  pub bucket_hour : Option ℕ
  pub bucket : List ℤ
  pub snapshots : List (ℕ × ℤ)
  pub capture : List ℤ
  pub baseline : Option ℤ
  pub last_event : Option ℕ
  pub drifting : Bool

abbrev pub hour_ms : ℕ
hour_ms = 3600000

-- `_new_state`, to which `reset_baseline` goes back.
abbrev pub new_state : Drift
new_state = record {
  bucket_hour = none;
  bucket = [];
  snapshots = [];
  capture = [];
  baseline = none;
  last_event = none;
  drifting = false;
}

unfoldable pub captured : Tracker → ℤ → Drift → Drift
captured t med st =
    let capture = st.capture ++ med ∷ [] in
    if leb t.baseline_capture_h (length capture)
    then record st { baseline = some (median2 capture); capture = [] }
    else record st { capture = capture }

abbrev capture_if : Option ℤ → Tracker → ℤ → Drift → Drift
capture_if none t med st = captured t med st
capture_if (some b) t med st = st

unfoldable pub finalize_of : List ℤ → ℕ → Tracker → Drift → Drift
finalize_of [] hour t st = st
finalize_of (v ∷ vs) hour t st =
    let med = median2 (v ∷ vs) in
    capture_if st.baseline t med (record st {
      snapshots = push t.history_h (suc hour * hour_ms, med) st.snapshots;
      bucket = [];
    })

unfoldable pub roll_over : Option ℕ → ℕ → Tracker → Drift → Drift
roll_over none hour t st = record st { bucket_hour = some hour }
roll_over (some b) hour t st =
    if b == hour then st else record (finalize_of st.bucket b t st) { bucket_hour = some hour }

-- The medians of the hours that ended within the comparison window.
unfoldable pub recent : Tracker → ℕ → List (ℕ × ℤ) → List ℤ
recent t now [] = []
recent t now ((ended, m) ∷ snapshots) =
    let rest = recent t now snapshots in
    if ltb now (ended + t.compare_window_h * hour_ms) then m ∷ rest else rest

-- Whether the threshold is exceeded; none where there is nothing to compare with.
unfoldable pub exceeded : Threshold → ℤ → ℤ → Option Bool
exceeded (absolute band) baseline current = some (ltb (4 * band) (abs (current -ℤ baseline)))
exceeded (relative part) baseline current =
    if abs baseline == 0
    then none
    else some (ltb (part * abs baseline) (10000 * abs (current -ℤ baseline)))

abbrev too_soon : Tracker → ℕ → Option ℕ → Bool
too_soon t now none = false
too_soon t now (some last) = ltb now (last + t.event_interval)

unfoldable pub noted : Tracker → ℕ → Option Bool → Drift → Bool × Drift
noted t now none st = (false, st)
noted t now (some false) st = (false, record st { drifting = false })
noted t now (some true) st =
    if too_soon t now st.last_event
    then (false, record st { drifting = true })
    else (true, record st { drifting = true; last_event = some now })

unfoldable pub compared : Tracker → ℕ → Threshold → ℤ → List ℤ → Drift → Bool × Drift
compared t now threshold baseline [] st = (false, st)
compared t now threshold baseline (m ∷ ms) st =
    noted t now (exceeded threshold baseline (median2 (m ∷ ms))) st

unfoldable pub check : Tracker → ℕ → Option Threshold → Option ℤ → Drift → Bool × Drift
check t now none baseline st = (false, st)
check t now (some threshold) none st = (false, st)
check t now (some threshold) (some baseline) st =
    compared t now threshold baseline (recent t now st.snapshots) st

-- Whether drift is newly reported, with the state.
unfoldable pub observe : Tracker → ℕ → String → ℤ → Drift → Bool × Drift
observe t now sensor value st =
    let rolled = roll_over st.bucket_hour (now / hour_ms) t st in
    let fed = record rolled { bucket = push 720 value rolled.bucket } in
    check t now (find sensor drift_thresholds) fed.baseline fed
