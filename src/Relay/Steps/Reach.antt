-- ===== src/Relay/Steps/Reach.antt =====
-- What holds of the relay controller at every moment of a run.
use wqm.Prelude.{ℕ, ◌+◌, ◌<◌, ◌≡◌, sym, Bool, true, false, none, some, arith, ◌==◌, ==_refl}
use wqm.Prelude.Dict.{get, get-remove}
use wqm.Relay.{Timer, pin_of, check_channel, is_on, auto_off, init, test_bit}
use wqm.Relay.Methods.{auto_off-own}
use wqm.Relay.Steps.{World, IsValid, ◌⟶◌, ◌⟶*◌, request, bound, fire, off, clean, wait, here, next}
use wqm.Relay.Steps.Request.{request-IsValid}
use wqm.Relay.Steps.Timers.{bound-IsValid, fire-IsValid, is_on-dropped}
use wqm.Relay.Steps.Dark.{off-IsValid, clean-IsValid, zero-dark}

wait-IsValid : (w : World) (d : ℕ) → IsValid w → IsValid (record w { now = w.now + d })
wait-IsValid w d h = record {
  works = h.works;
  small = h.small;
  ceiling = h.ceiling;
  level = h.level;
  pending = h.pending;
  covered = λ c k free on. let (t, found, soon) = h.covered c k free on in (t, found, omega arith);
}

step-IsValid : {s t : World} → s ⟶ t → IsValid s → IsValid t
step-IsValid (request w c on unbounded) h = request-IsValid w c on unbounded h
step-IsValid (bound w c d) h = bound-IsValid w c d h
step-IsValid (fire w c id) h = fire-IsValid w c id h
step-IsValid (off w) h = off-IsValid w h
step-IsValid (clean w) h = clean-IsValid w h
step-IsValid (wait w d) h = wait-IsValid w d h

run-IsValid : {s t : World} → IsValid s → s ⟶* t → IsValid t
run-IsValid h here = h
run-IsValid h (next r st) = step-IsValid st (run-IsValid h r)

abbrev pub start : (ℕ → Bool) → ℕ → World
start answers max_on = record { relays = init answers max_on; now = 0; exempt = λ _. false }

start-IsValid :
    (answers : ℕ → Bool) (max_on : ℕ)
    → ((k : ℕ) → answers k ≡ true)
    → 0 < max_on
    → IsValid (start answers max_on)
unfolding init is_on test_bit get
start-IsValid answers max_on works some_ceiling = record {
  works = works;
  small = omega arith;
  ceiling = some_ceiling;
  level = λ c k. sym (zero-dark c k);
  pending = λ c t e. cc;
  covered = λ c k free on. cc (zero-dark c k);
}

-- With a ceiling set and a GPIO that takes every write, whatever calls, timer threads and delays
-- follow the start, in any order: the mask tells the level of every line, a pending timer belongs
-- to an energised channel, and every energised channel whose last request was not the unbounded one
-- has a timer that is due no later than the ceiling from now.
pub ceiling_holds :
    (answers : ℕ → Bool) (max_on : ℕ) {w : World}
    → ((k : ℕ) → answers k ≡ true)
    → 0 < max_on
    → start answers max_on ⟶* w
    → IsValid w
ceiling_holds answers max_on works some_ceiling run =
    run-IsValid (start-IsValid answers max_on works some_ceiling) run

module _ (w : World) (h : IsValid w) (c : ℕ) (t : Timer)
    (found : get c w.relays.timers ≡ some t) where
  -- In a valid state the thread of a channel's pending timer drops that coil, its line and its
  -- timer, and no other channel's coil.
  pub fire_drops :
      (is_on c (auto_off c t.id w.relays).1 ≡ false)
      × ((auto_off c t.id w.relays).1.io.level (pin_of c) ≡ false)
      × (get c (auto_off c t.id w.relays).1.timers ≡ none)
      × ((d : ℕ)
          → check_channel d ≡ true
          → (c == d) ≡ false
          → is_on d (auto_off c t.id w.relays).1 ≡ is_on d w.relays)
  fire_drops =
      let (valid, lit, _) = h.pending c t found in
      rw (auto_off-own w.relays c t.id t found (==_refl t.id) lit (h.works w.relays.io.writes)) (
        ground (arith, is_on-dropped w h c valid lit c valid),
        ground arith,
        ground (arith, get-remove c c w.relays.timers),
        λ d k ne. ground (arith, is_on-dropped w h c valid lit d k),
      )
