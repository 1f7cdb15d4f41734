-- ===== src/Supervisor/Tests.antt =====
-- The supervisor at concrete inputs.
use wqm.Prelude.{
  ℕ, ◌+◌, ◌≤◌, ◌<◌, ◌≡◌, ◌↔◌, refl, true, false, some, List, [], ◌∷◌, arith, take, length, get_or,
  All,
}
use wqm.Prelude.Texts.{find, put_name}
use wqm.Supervisor.{
  Worker, Supervisor, start, seed, beat, tick, run_turn, deadline_for, is_fresh, backoff, wait_for,
}
use wqm.Supervisor.Queue.{
  Call, emits, drains, serve_all, log_all, no_traffic, max_events, queue_refines_log,
}
use wqm.Supervisor.Liveness.{IsAlive, pets_iff_IsAlive}
use wqm.Supervisor.Hung.{Event, ticks, paces, has_worker, IsSilent, live, hung_starves}
use wqm.Supervisor.Cadence.{backing_off_overdue}

abbrev calls : List (Call ℕ)
calls = emits 7 ∷ emits 8 ∷ drains 1 ∷ emits 9 ∷ []

queue_refines_log_example :
    ((serve_all calls no_traffic).accepted
      ≡ (log_all calls (record { events = []; given = 0 })).events)
    × ((serve_all calls no_traffic).delivered
        ≡ take
            (log_all calls (record { events = []; given = 0 })).given
            (log_all calls (record { events = []; given = 0 })).events)
    × (length (serve_all calls no_traffic).queue ≤ max_events)
queue_refines_log_example = queue_refines_log calls

-- A worker that polls every five seconds.
abbrev polling : Worker
polling = record {
  name = "commands";
  interval = some 5000;
  error_bucket = "cloud";
  consecutive_errors = 0;
}

abbrev unit : Supervisor
unit = start 0 (polling ∷ [])

pets_iff_IsAlive_example :
    ((tick 1000 1001 true unit).pets ≡ 1000 ∷ unit.pets)
    ↔ All (IsAlive unit.state.beats 1001) unit.workers
pets_iff_IsAlive_example = pets_iff_IsAlive 1000 1001 true unit

seeded : find "commands" unit.state.beats ≡ some 0
unfolding seed beat find put_name
seeded = refl

abbrev silent_minutes : List Event
silent_minutes =
    ticks 90500 90501 true ∷ paces "commands" (some 30000) ∷ ticks 91500 91501 false ∷ []

here : has_worker "commands" 30000 unit.workers ≡ true
unfolding has_worker
here = refl

late : All (IsSilent "commands" 30000 0) silent_minutes
unfolding IsSilent
late = (omega arith, (λ h. omega arith, (omega arith, tt)))

-- The worker's interval grows from 5 s to 30 s between two checks.
hung_starves_example : (live silent_minutes unit).pets ≡ unit.pets
hung_starves_example = hung_starves "commands" 30000 0 silent_minutes unit here seeded late

in_time : 20000 ≤ 10000 + get_or (run_turn 9000 10000 true polling).wait 0 + 7000
unfolding wait_for backoff
in_time = omega arith

-- The same worker after three errors in a row.
abbrev failing : Worker
failing = record polling { consecutive_errors = 3 }

waited : 10000 + get_or (run_turn 9000 10000 false failing).wait 0 < 70500
unfolding wait_for backoff
waited = omega arith

backing_off_overdue_example :
    is_fresh (some 10000) (deadline_for (run_turn 9000 10000 false failing).worker) 70500 ≡ false
backing_off_overdue_example =
    backing_off_overdue 9000 10000 70500 5000 false failing refl (omega arith) (omega arith) waited
