-- ===== src/Relay/Steps/Timers.antt =====
-- `arm_auto_off`, the timer threads, `all_off` and `cleanup` keep the controller valid.
use wqm.Prelude.{
  ℕ, ◌+◌, ◌≤◌, ◌<◌, ◌≡◌, true, false, arith, ◌==◌, if◌then◌else◌, Bool-cases, inl, inr,
  Option-cases, not, ◌&&◌, ◌-◌,
}
use wqm.Prelude.Dict.{get, get-remove}
use wqm.Relay.{
  Relays, check_channel, is_on, arm, arm_auto_off, auto_off, bounded_seconds, cancel_timer,
  test-clear, clear-lt,
}
use wqm.Relay.Methods.{
  pin_of-injective, pred-eq, timers-arm, arm_auto_off-arms, arm_auto_off-idle, dropped,
  auto_off-none, auto_off-own, auto_off-stale,
}
use wqm.Relay.Steps.{World, IsValid}

pub bounded-le : (m s : ℕ) → 0 < m → bounded_seconds m s ≤ m
unfolding bounded_seconds
bounded-le m s h = ground arith

module _ (w : World) (h : IsValid w) (c : ℕ) (valid : check_channel c ≡ true)
    (lit : is_on c w.relays ≡ true) (seconds : ℕ) (fits : seconds ≤ w.relays.max_on) where
  arm-IsValid : IsValid (record w { relays = arm w.now c seconds w.relays })
  unfolding arm is_on cancel_timer
  arm-IsValid = record {
    works = h.works;
    small = h.small;
    ceiling = h.ceiling;
    level = h.level;
    pending = λ d t e. ground (arith, timers-arm w.relays w.now c seconds d, h.pending d t);
    covered = λ d k free on. elim (Bool-cases (c == d)) [
      | inl eq ↦ (
        record { id = w.relays.next_id; due = w.now + seconds },
        ground (arith, timers-arm w.relays w.now c seconds d),
        omega arith,
      )
      | inr ne ↦
          let (t, found, soon) = h.covered d k free on in
          (t, ground (arith, timers-arm w.relays w.now c seconds d), soon)
    ];
  }

pub bound-IsValid :
    (w : World) (c d : ℕ)
    → IsValid w
    → IsValid (record w { relays = (arm_auto_off w.now c d w.relays).1 })
bound-IsValid w c d h = elim (Bool-cases (check_channel c && not (d == 0) && is_on c w.relays)) [
  | inl arms ↦ rw (arm_auto_off-arms w.relays w.now c d arms) (
      arm-IsValid w h c (ground arith) (ground arith) (bounded_seconds w.relays.max_on d)
        (bounded-le _ d h.ceiling))
  | inr idle ↦ rw (arm_auto_off-idle w.relays w.now c d idle) h
]

module _ (w : World) (h : IsValid w) (c : ℕ) (valid : check_channel c ≡ true)
    (lit : is_on c w.relays ≡ true) where
  abbrev pub r' : Relays
  r' = dropped c w.relays

  -- The mask of the dropped channel.
  pub is_on-dropped :
      (d : ℕ) → check_channel d ≡ true → is_on d r' ≡ (if c == d then false else is_on d w.relays)
  unfolding is_on
  is_on-dropped d k = ground (
    arith,
    pred-eq c d valid k,
    test-clear w.relays.state (c - 1) (d - 1) h.small (ground arith) (ground arith),
  )

  dropped-IsValid : IsValid (record w { relays = r' })
  dropped-IsValid = record {
    works = h.works;
    small = clear-lt w.relays.state (c - 1) h.small (ground arith);
    ceiling = h.ceiling;
    level = λ d k. ground (arith, is_on-dropped d k, pin_of-injective c d valid k, h.level d k);
    pending =
        λ d t e. ground (arith, get-remove d c w.relays.timers, h.pending d t, is_on-dropped d);
    covered = λ d k free on.
        let (t, found, soon) = h.covered d k free (ground (arith, is_on-dropped d k)) in
        (t, ground (arith, get-remove d c w.relays.timers, is_on-dropped d k), soon);
  }

-- A timer thread drops its coil if it is still the channel's timer, and does nothing otherwise.
pub fire-IsValid :
    (w : World) (c id : ℕ) → IsValid w → IsValid (record w { relays = (auto_off c id w.relays).1 })
fire-IsValid w c id h = elim (Option-cases (get c w.relays.timers)) [
  | inl none' ↦ rw (auto_off-none w.relays c id none') h
  | inr (t, found) ↦ elim (Bool-cases (t.id == id)) [
    | inl own ↦
        let (valid, lit, _) = h.pending c t found in
        rw (auto_off-own w.relays c id t found own lit (h.works w.relays.io.writes))
          (dropped-IsValid w h c valid lit)
    | inr old ↦ rw (auto_off-stale w.relays c id t found old) h
  ]
]
