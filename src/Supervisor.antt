-- ===== src/Supervisor.antt =====
-- The supervisor of src/app/supervisor.py, the workers' loop of src/app/workers.py and the shared store
-- of src/app/state.py. Times are milliseconds of the monotonic clock. A worker's step is an event: when
-- it began, when it ended, and whether it raised.
pub mod Queue
pub mod Liveness
pub mod Hung
pub mod Cadence
mod Tests
use wqm.Prelude.{
  ℕ, zero, suc, ◌+◌, ◌-◌, ◌*◌, ◌≤◌, ◌<◌, ◌≡◌, max, min, Bool, true, false, ◌&&◌, not, Option, none,
  some, List, [], ◌∷◌, leb, ltb, ◌==◌, if◌then◌else◌, get_or,
}
use wqm.Prelude.Texts.{String, str_eq, has_name, find, put_name}

-- A worker: its name, what `interval_s()` answers now, none when that raises, its error bucket and its
-- streak. The interval is asked for anew at every turn and every check, see `reinterval`.
pub record Worker : Type 0 where
  pub name : String
  pub interval : Option ℕ
  pub error_bucket : String
  pub consecutive_errors : ℕ

-- The workers once `interval_s()` of the one with the name answers otherwise: sampling has sped up or
-- slowed down, or the settings were loaded again.
unfoldable pub reinterval : String → Option ℕ → List Worker → List Worker
reinterval name answer [] = []
reinterval name answer (w ∷ workers) =
    let rest = reinterval name answer workers in
    if str_eq w.name name then record w { interval = answer } ∷ rest else w ∷ rest

-- `StateStore`, its beats, error counters and restart request
pub record StateStore : Type 0 where
  pub beats : List (String × ℕ)
  pub error_counts : List (String × ℕ)
  pub restart_requested : Bool

abbrev pub empty_store : StateStore
empty_store = record {
  beats = [];
  error_counts = ("sensor", 0) ∷ ("lora", 0) ∷ ("cloud", 0) ∷ ("gps", 0) ∷ ("db", 0) ∷ [];
  restart_requested = false;
}

abbrev pub counted : String → Option ℕ → StateStore → StateStore
counted bucket none s = s
counted bucket (some n) s = record s { error_counts = put_name bucket (n + 1) s.error_counts }

unfoldable pub incr_error : String → StateStore → StateStore
incr_error bucket s = counted bucket (find bucket s.error_counts) s

unfoldable pub beat : String → ℕ → StateStore → StateStore
beat worker now s = record s { beats = put_name worker now s.beats }

abbrev pub request_restart : StateStore → StateStore
request_restart s = record s { restart_requested = true }

-- What the supervisor keeps: `pets` are the times at which it petted the watchdogs, last first.
pub record Supervisor : Type 0 where
  pub workers : List Worker
  pub state : StateStore
  pub faulted : List String
  pub last_rotate : ℕ
  pub last_liveness_touch : Option ℕ
  pub pets : List ℕ
  pub exit_reason : Option String

abbrev pub liveness_factor : ℕ
liveness_factor = 3

abbrev pub liveness_min : ℕ
liveness_min = 60000

abbrev pub fault_streak : ℕ
fault_streak = 5

abbrev pub db_rotate_every : ℕ
db_rotate_every = 600000

abbrev pub liveness_touch : ℕ
liveness_touch = 30000

-- `_BACKOFF_S[min(streak - 1, 3)]`
unfoldable pub backoff : ℕ → ℕ
backoff zero = 0
backoff (suc zero) = 5000
backoff (suc (suc zero)) = 15000
backoff (suc (suc (suc zero))) = 30000
backoff (suc (suc (suc (suc n)))) = 60000

-- `_deadline_for`, on the interval that is asked for at this check
unfoldable pub deadline_for : Worker → ℕ
deadline_for w = max (get_or w.interval 60000 * liveness_factor) liveness_min

abbrev pub is_fresh : Option ℕ → ℕ → ℕ → Bool
is_fresh none deadline now = false
is_fresh (some last) deadline now = not (ltb deadline (now - last))

-- The loop of `all_workers_alive`
unfoldable pub all_alive : List Worker → List (String × ℕ) → ℕ → Bool
all_alive [] beats now = true
all_alive (w ∷ workers) beats now =
    let rest = all_alive workers beats now in
    if not (is_fresh (find w.name beats) (deadline_for w) now) then false else rest

unfoldable pub all_workers_alive : ℕ → Supervisor → Bool
all_workers_alive now s = all_alive s.workers s.state.beats now

-- The rotation of the database, which may raise.
unfoldable pub rotate : ℕ → Bool → Supervisor → Supervisor
rotate now ok s =
    if leb db_rotate_every (now - s.last_rotate)
    then record s { last_rotate = now; state = if ok then s.state else incr_error "db" s.state }
    else s

-- `self._last_liveness_touch` begins at minus infinity.
abbrev pub touch_due : ℕ → Option ℕ → Bool
touch_due now none = true
touch_due now (some last) = leb liveness_touch (now - last)

unfoldable pub pet : ℕ → Supervisor → Supervisor
pet now s = record s {
  pets = now ∷ s.pets;
  last_liveness_touch =
      if touch_due now s.last_liveness_touch then some now else s.last_liveness_touch;
}

-- `tick`, whose first clock reading is `now` and whose second is `checked`.
unfoldable pub tick : ℕ → ℕ → Bool → Supervisor → Supervisor
tick now checked ok s =
    let rotated = rotate now ok s in
    if all_workers_alive checked rotated then pet now rotated else rotated

-- One turn of `run` before its wait: whether the loop goes on.
unfoldable pub run_once : ℕ → ℕ → Bool → Supervisor → Bool × Supervisor
run_once now checked ok s =
    let s' = tick now checked ok s in
    if s'.state.restart_requested
    then (false, record s' { exit_reason = some "restart" })
    else (true, s')

unfoldable pub on_fault : String → Supervisor → Supervisor
on_fault worker s = record s {
  faulted = if has_name worker s.faulted then s.faulted else worker ∷ s.faulted;
}

-- The seed beats of `start`.
unfoldable pub seed : ℕ → List Worker → StateStore → StateStore
seed now [] s = s
seed now (w ∷ workers) s = seed now workers (beat w.name now s)

abbrev pub start : ℕ → List Worker → Supervisor
start now workers = record {
  workers = workers;
  state = seed now workers empty_store;
  faulted = [];
  last_rotate = now;
  last_liveness_touch = none;
  pets = [];
  exit_reason = none;
}

-- What a turn of `run_forever` leaves: the worker, and how long it waits, none if `interval_s` raises
-- and the thread ends.
pub record Turn : Type 0 where
  pub worker : Worker
  pub wait : Option ℕ
  pub faults : Bool

abbrev pub streak_after : Bool → ℕ → ℕ
streak_after true errors = 0
streak_after false errors = suc errors

-- `max(max(0, interval - elapsed), backoff)`
unfoldable pub wait_for : ℕ → ℕ → ℕ → ℕ
wait_for interval elapsed errors = max (interval - elapsed) (backoff errors)

abbrev pub wait_of : Option ℕ → ℕ → ℕ → Option ℕ
wait_of none elapsed errors = none
wait_of (some interval) elapsed errors = some (wait_for interval elapsed errors)

abbrev pub run_turn : ℕ → ℕ → Bool → Worker → Turn
run_turn started ended ok w =
    let errors = streak_after ok w.consecutive_errors in
    record {
      worker = record w { consecutive_errors = errors };
      wait = wait_of w.interval (ended - started) errors;
      faults = not ok && leb fault_streak errors;
    }

abbrev pub count_failure : Bool → String → StateStore → StateStore
count_failure true bucket s = s
count_failure false bucket s = incr_error bucket s

-- The turn's effects on what is shared, with its beat.
unfoldable pub finish_turn : ℕ → ℕ → Bool → Worker → Supervisor → Supervisor
finish_turn started ended ok w s =
    let s' = record s { state = beat w.name ended (count_failure ok w.error_bucket s.state) } in
    if (run_turn started ended ok w).faults then on_fault w.name s' else s'
