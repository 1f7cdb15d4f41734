-- ===== src/Relay/Methods.antt =====
-- What the methods of the relay controller leave behind, channel by channel.
use wqm.Prelude.{
  ℕ, ◌+◌, ◌-◌, ◌<◌, ◌≡◌, refl, Bool, true, false, not, ◌&&◌, ◌||◌, Option, none, some, arith, ltb,
  ◌==◌, if◌then◌else◌, holds_under, holds_under_lem, Bool-cases, inl, inr, returned, raised,
  value_error,
}
use wqm.Prelude.Dict
use wqm.Prelude.Dict.{get, get-put, get-remove}
use wqm.Relay.{
  Timer, Relays, pin_of, check_channel, is_on, arm, note_set, set, arm_auto_off, bounded_seconds,
  auto_off, clear_bit, test-set, test-clear, set-lt, clear-lt,
}

abbrev pins_differ : ℕ → ℕ → Bool
pins_differ c d =
    not (check_channel c && check_channel d)
    || (if c == d then pin_of c == pin_of d else not (pin_of c == pin_of d))

abbrev pins_of : ℕ → Bool
pins_of c = holds_under 5 (pins_differ c)

pins_table : holds_under 5 pins_of ≡ true
unfolding holds_under
pins_table = refl

-- The four channels have four pins.
pub pin_of-injective :
    (c d : ℕ) → check_channel c ≡ true → check_channel d ≡ true → (pin_of d == pin_of c) ≡ (c == d)
pin_of-injective c d h k = ground (
  arith,
  holds_under_lem 5 (pins_differ c) d (holds_under_lem 5 pins_of c pins_table (ground arith))
      (ground arith),
)

pub pred-eq :
    (c d : ℕ) → check_channel c ≡ true → check_channel d ≡ true → (c - 1 == d - 1) ≡ (c == d)
pred-eq c d h k = ground arith

module _ (r : Relays) (c : ℕ) (small : r.state < 16) (valid : check_channel c ≡ true) where
  -- A switch shows in the mask on its channel and on no other.
  pub is_on-note_set :
      (now : ℕ) (on unbounded : Bool) (d : ℕ)
      → check_channel d ≡ true
      → is_on d (note_set now c on unbounded r) ≡ (if c == d then on else is_on d r)
  unfolding is_on note_set
  is_on-note_set now true unbounded d h = ground (
    arith,
    pred-eq c d valid h,
    test-set r.state (c - 1) (d - 1) small (ground arith) (ground arith),
  )
  is_on-note_set now false unbounded d h = ground (
    arith,
    pred-eq c d valid h,
    test-clear r.state (c - 1) (d - 1) small (ground arith) (ground arith),
  )

  pub state-note_set : (now : ℕ) (on unbounded : Bool) → (note_set now c on unbounded r).state < 16
  unfolding note_set
  state-note_set now true unbounded = ground (arith, set-lt r.state (c - 1) small (ground arith))
  state-note_set now false unbounded = ground (arith, clear-lt r.state (c - 1) small (ground arith))

-- The timer that `set` leaves on its channel.
abbrev pub timer_after_set : ℕ → Bool → Bool → Relays → Option Timer
timer_after_set now on unbounded r =
    if on && ltb 0 r.max_on && not unbounded
    then some (record { id = r.next_id; due = now + r.max_on })
    else none

module _ (r : Relays) (now c : ℕ) where
  pub timers-arm :
      (seconds d : ℕ)
      → get d (arm now c seconds r).timers
        ≡ (if c == d then some (record { id = r.next_id; due = now + seconds }) else get d r.timers)
  unfolding arm
  timers-arm seconds d = ground (
    arith,
    get-remove d c r.timers,
    get-put d c (record { id = r.next_id; due = now + seconds }) (Dict.remove c r.timers),
  )

  pub timers-note_set :
      (on unbounded : Bool) (d : ℕ)
      → get d (note_set now c on unbounded r).timers
        ≡ (if c == d then timer_after_set now on unbounded r else get d r.timers)
  unfolding note_set
  timers-note_set false unbounded d = get-remove d c r.timers
  timers-note_set true true d = ground (arith, get-remove d c r.timers)
  timers-note_set true false d = elim (Bool-cases (ltb 0 r.max_on)) [
    | inl bounded ↦ rw bounded (simp (get-put, get-remove) (ground arith))
    | inr free ↦ rw free (get-remove d c r.timers)
  ]

-- The controller after a write that succeeds.
abbrev pub driven : ℕ → Bool → Relays → Relays
driven c on r = record r {
  io = record r.io {
    writes = r.io.writes + 1;
    level = λ p. if p == pin_of c then on else r.io.level p;
  };
}

module _ (r : Relays) (now c : ℕ) (on unbounded : Bool) where
  pub set-valid :
      check_channel c ≡ true
      → r.io.answers r.io.writes ≡ true
      → set now c on unbounded r ≡ (returned tt, note_set now c on unbounded (driven c on r))
  unfolding set
  set-valid valid works = rw (valid, works)

  pub set-invalid : check_channel c ≡ false → set now c on unbounded r ≡ (raised value_error, r)
  unfolding set
  set-invalid bad = rw bad

  pub io-note_set : (note_set now c on unbounded r).io ≡ r.io
  unfolding note_set
  io-note_set = ground arith

  pub max_on-note_set : (note_set now c on unbounded r).max_on ≡ r.max_on
  unfolding note_set
  max_on-note_set = ground arith

  pub next_id-note_set :
      (note_set now c on unbounded r).next_id
      ≡ (if on && ltb 0 r.max_on && not unbounded then r.next_id + 1 else r.next_id)
  unfolding note_set
  next_id-note_set = ground arith

pub is_on-driven : (d c : ℕ) (on : Bool) (r : Relays) → is_on d (driven c on r) ≡ is_on d r
unfolding is_on
is_on-driven d c on r = refl

module _ (r : Relays) (now c d : ℕ) where
  pub arm_auto_off-arms :
      (check_channel c && not (d == 0) && is_on c r) ≡ true
      → arm_auto_off now c d r
        ≡ (returned (bounded_seconds r.max_on d), arm now c (bounded_seconds r.max_on d) r)
  unfolding arm_auto_off
  arm_auto_off-arms h = ground arith

  pub arm_auto_off-idle :
      (check_channel c && not (d == 0) && is_on c r) ≡ false → (arm_auto_off now c d r).1 ≡ r
  unfolding arm_auto_off
  arm_auto_off-idle h = ground arith

-- The controller after a timer has dropped its coil.
abbrev pub dropped : ℕ → Relays → Relays
dropped c r = record (driven c false r) {
  state = clear_bit r.state (c - 1);
  timers = Dict.remove c r.timers;
}

module _ (r : Relays) (c id : ℕ) where
  pub auto_off-none : get c r.timers ≡ none → auto_off c id r ≡ (returned tt, r)
  unfolding auto_off
  auto_off-none h = rw (h, auto_off)

  -- A thread whose timer was replaced changes nothing.
  pub auto_off-stale :
      (t : Timer)
      → get c r.timers ≡ some t
      → (t.id == id) ≡ false
      → auto_off c id r ≡ (returned tt, r)
  unfolding auto_off
  auto_off-stale t found old = ground arith

  pub auto_off-own :
      (t : Timer)
      → get c r.timers ≡ some t
      → (t.id == id) ≡ true
      → is_on c r ≡ true
      → r.io.answers r.io.writes ≡ true
      → auto_off c id r ≡ (returned tt, dropped c r)
  unfolding auto_off is_on
  auto_off-own t found own lit works = ground arith

-- A switch whose write succeeds shows in the mask.
pub is_on-set :
    (r : Relays) (now c : ℕ) (on unbounded : Bool)
    → check_channel c ≡ true
    → r.state < 16
    → r.io.answers r.io.writes ≡ true
    → is_on c (set now c on unbounded r).1 ≡ on
is_on-set r now c on unbounded valid small good =
    rw (set-valid r now c on unbounded valid good)
      (ground (arith, is_on-note_set (driven c on r) c small valid now on unbounded c valid))
