-- ===== src/Relay/Tests.antt =====
-- The relay controller at concrete inputs.
use wqm.Prelude.{
  ℕ, ◌≡◌, refl, Bool, true, false, some, arith, io_error, raised, returned, not, ◌==◌,
  if◌then◌else◌,
}
use wqm.Prelude.Dict.{get, remove, put}
use wqm.Relay.{
  Timer, Relays, is_on, set, arm_auto_off, auto_off, pending_auto_off, init, test_bit, set_bit,
}
use wqm.Relay.Steps.{World, IsValid, ◌⟶*◌, request, wait, here, next}
use wqm.Relay.Steps.Reach.{start, ceiling_holds}

abbrev works : ℕ → Bool
works _ = true

-- A rule switches relay 2 on at time 5, with a ceiling of 60 ticks, and bounds it to 30.
abbrev at_five : World
at_five = record (start works 60) { now = 5 }

abbrev lit : World
lit = record at_five {
  relays = (set 5 2 true false at_five.relays).1;
  exempt = λ d. (if 2 == d then false else false);
}

abbrev run : start works 60 ⟶* lit
run = next (next here (wait (start works 60) 5)) (request at_five 2 true false)

ceiling_holds_example : IsValid lit
ceiling_holds_example = ceiling_holds works 60 (λ _. refl) (omega arith) run

abbrev pending : Timer
pending = record { id = 0; due = 65 }

pending_found : get 2 lit.relays.timers ≡ some pending
unfolding set get put remove init
pending_found = refl

-- The second write raises.
abbrev flaky : ℕ → Bool
flaky k = not (k == 1)

abbrev flaky_lit : Relays
flaky_lit = (set 5 2 true false (init flaky 60)).1

-- The timer goes before the write that raises, and the coil stays on.
lost :
    let out = auto_off 2 0 flaky_lit in
    (out.0 ≡ raised io_error) × (is_on 2 out.1 ≡ true) × (pending_auto_off 2 out.1 ≡ false)
unfolding set init get put remove is_on test_bit set_bit auto_off pending_auto_off
lost = (refl, refl, refl)

-- A duration beyond the ceiling is cut to it.
cut_to_ceiling : (arm_auto_off 5 2 90 lit.relays).0 ≡ returned 60
unfolding arm_auto_off set init is_on test_bit set_bit
cut_to_ceiling = refl
