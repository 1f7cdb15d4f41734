-- ===== src/Breaker/Tests.antt =====
-- The smart breaker controller at concrete inputs: an AbleEdge breaker whose interlock is relay 1.
use wqm.Prelude.{ℕ, ◌≢◌, ◌<◌, refl, Bool, true, false, some, List, [], ◌∷◌, arith, All}
use wqm.Relay
use wqm.Relay.{is_on}
use wqm.Relay.Steps.{Works}
use wqm.Breaker.{Breaker, Settings, Status, Answers, init, request, ableedge, off, ok, failed}
use wqm.Breaker.FailSafe.{Inv, Call, asked, polled, run, vendor_run-Inv}
use wqm.Breaker.ShortCycle.{Within, no_short_cycle}

abbrev works : ℕ → Bool
works _ = true

abbrev relays : Relay.Relays
relays = Relay.init works 60000

abbrev pump : Settings
pump = record { vendor = ableedge; fail_safe = off; grace = 30000; min_off = 60000; interlock = 1 }

abbrev fresh : Breaker
fresh = init (some relays) true 0

abbrev seen_on : Status
seen_on = record { is_on = some true; connected = some true; observed_at = 0 }

abbrev all_well : Answers
all_well = record { to_pending = ok tt; to_status = ok seen_on; to_power = ok 750 }

abbrev calls : List Call
calls =
    polled pump 40000 0 (record all_well { to_status = failed "timeout" })
    ∷ asked pump 50000 0 true "operator" (ok tt)
    ∷ polled pump 60000 0 all_well
    ∷ []

relays-Works : Works relays
unfolding Relay.init
relays-Works k = refl

small : relays.state < 16
unfolding Relay.init
small = omega arith

calls-Within : All (Within 40000) calls
calls-Within =
    ((omega arith, omega arith), ((omega arith, omega arith), ((omega arith, omega arith), tt)))

no_short_cycle_example :
    (run (request pump 40000 0 false "operator" (failed "timeout") fresh).1 calls).desired
    ≢ some true
no_short_cycle_example =
    no_short_cycle pump 40000 0 "operator" (failed "timeout") fresh calls refl refl calls-Within

abbrev queued : Breaker
queued = record fresh { pending = some (false, "operator"); last_off = some 10 }

vendor_run-Inv_example : Inv (run (init (some relays) true 0) calls)
vendor_run-Inv_example = vendor_run-Inv (some relays) true 0 calls
