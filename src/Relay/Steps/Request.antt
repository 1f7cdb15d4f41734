-- ===== src/Relay/Steps/Request.antt =====
-- `set` keeps the controller valid.
use wqm.Prelude.{
  ℕ, ◌+◌, ◌≤◌, ◌<◌, ◌≡◌, Bool, true, false, ◌&&◌, some, arith, ◌==◌, Bool-cases, inl, inr,
}
use wqm.Prelude.Dict.{get}
use wqm.Relay.{Timer, Relays, pin_of, check_channel, is_on, set, note_set}
use wqm.Relay.Methods.{
  pin_of-injective, is_on-note_set, state-note_set, timers-note_set, driven, set-valid, set-invalid,
  io-note_set, max_on-note_set, next_id-note_set, is_on-driven,
}
use wqm.Relay.Steps.{World, IsValid, mark}

module _ (w : World) (h : IsValid w) (c : ℕ) (valid : check_channel c ≡ true)
    (on unbounded : Bool) where
  abbrev r' : Relays
  r' = driven c on w.relays

  abbrev after : World
  after = record w {
    relays = note_set w.now c on unbounded r';
    exempt = mark c (on && unbounded) w.exempt;
  }

  note_set-level :
      (d : ℕ) → check_channel d ≡ true → after.relays.io.level (pin_of d) ≡ is_on d after.relays
  note_set-level d k =
      simp
        (
          io-note_set r' w.now c on unbounded,
          is_on-note_set r' c h.small valid w.now on unbounded d k,
          pin_of-injective c d valid k,
        )
        (ground (arith, h.level d k, is_on-driven d c on w.relays))

  note_set-pending :
      (d : ℕ) (t : Timer)
      → get d after.relays.timers ≡ some t
      → (check_channel d ≡ true) × (is_on d after.relays ≡ true) × (t.id < after.relays.next_id)
  note_set-pending d t e = elim (Bool-cases (c == d)) [
    | inl eq ↦ ground (
      arith,
      is_on-note_set r' c h.small valid w.now on unbounded d (ground arith),
      timers-note_set r' w.now c on unbounded d,
      next_id-note_set r' w.now c on unbounded,
    )
    | inr ne ↦ ground (
      arith,
      timers-note_set r' w.now c on unbounded d,
      next_id-note_set r' w.now c on unbounded,
      h.pending d t,
      is_on-note_set r' c h.small valid w.now on unbounded d,
      is_on-driven d c on w.relays,
    )
  ]

  note_set-covered :
      (d : ℕ)
      → check_channel d ≡ true
      → mark c (on && unbounded) w.exempt d ≡ false
      → is_on d after.relays ≡ true
      → (t : Timer) × (get d after.relays.timers ≡ some t) × (t.due ≤ w.now + after.relays.max_on)
  note_set-covered d k free lit = elim (Bool-cases (c == d)) [
    | inl eq ↦ (
      record { id = w.relays.next_id; due = w.now + w.relays.max_on },
      ground (
        arith,
        is_on-note_set r' c h.small valid w.now on unbounded d k,
        timers-note_set r' w.now c on unbounded d,
        h.ceiling,
      ),
      ground (arith, max_on-note_set r' w.now c on unbounded),
    )
    | inr ne ↦
        let (t, found, soon) = h.covered d k (ground arith) (
          ground (
            arith,
            is_on-note_set r' c h.small valid w.now on unbounded d k,
            is_on-driven d c on w.relays,
          )) in
        (
          t,
          ground (arith, timers-note_set r' w.now c on unbounded d),
          ground (arith, max_on-note_set r' w.now c on unbounded),
        )
  ]

  pub note_set-IsValid : IsValid after
  note_set-IsValid = record {
    works = λ k. rw (io-note_set r' w.now c on unbounded) (h.works k);
    small = state-note_set r' c h.small valid w.now on unbounded;
    ceiling = ground (arith, max_on-note_set r' w.now c on unbounded, h.ceiling);
    level = note_set-level;
    pending = note_set-pending;
    covered = note_set-covered;
  }

-- `set` on any channel, valid or not.
pub request-IsValid :
    (w : World) (c : ℕ) (on unbounded : Bool)
    → IsValid w
    → IsValid (record w {
      relays = (set w.now c on unbounded w.relays).1;
      exempt = mark c (on && unbounded) w.exempt;
    })
request-IsValid w c on unbounded h = elim (Bool-cases (check_channel c)) [
  | inl valid ↦
      rw (set-valid w.relays w.now c on unbounded valid (h.works w.relays.io.writes))
        (note_set-IsValid w h c valid on unbounded)
  | inr bad ↦ rw (set-invalid w.relays w.now c on unbounded bad) (record {
    works = h.works;
    small = h.small;
    ceiling = h.ceiling;
    level = h.level;
    pending = h.pending;
    covered = λ d k free. h.covered d k (ground arith);
  })
]
