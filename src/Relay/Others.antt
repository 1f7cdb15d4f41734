-- ===== src/Relay/Others.antt =====
-- A call on one channel leaves the others alone, whether or not its write raises.
use wqm.Prelude.{
  ℕ, ◌+◌, ◌∙◌, ◌&&◌, not, ◌≡◌, ◌<◌, refl, Bool, true, false, arith, ◌==◌, Bool-cases, inl, inr,
  raised, io_error,
}
use wqm.Prelude.Dict.{get}
use wqm.Relay.{Relays, pin_of, check_channel, is_on, set, arm_auto_off, arm, bounded_seconds}
use wqm.Relay.Methods.{
  pin_of-injective, is_on-note_set, is_on-driven, state-note_set, timers-note_set, timers-arm,
  driven, set-invalid, set-valid, io-note_set, arm_auto_off-arms, arm_auto_off-idle,
}

-- `r'` has the coil, the timer and the line of a channel as `r` has them.
pub record Untouched (d : ℕ) (r r' : Relays) : Type 0 where
  pub small : r'.state < 16
  pub coil : is_on d r' ≡ is_on d r
  pub timer : get d r'.timers ≡ get d r.timers
  pub line : r'.io.level (pin_of d) ≡ r.io.level (pin_of d)

module _ (d : ℕ) (real : check_channel d ≡ true) where
  set-raises :
      (r : Relays) (now c : ℕ) (on unbounded : Bool)
      → check_channel c ≡ true
      → r.io.answers r.io.writes ≡ false
      → set now c on unbounded r
        ≡ (raised io_error, record r { io = record r.io { writes = r.io.writes + 1 } })
  unfolding set
  set-raises r now c on unbounded valid bad = rw (valid, bad)

  pub set-Untouched :
      (r : Relays) (now c : ℕ) (on unbounded : Bool)
      → r.state < 16
      → (c == d) ≡ false
      → Untouched d r (set now c on unbounded r).1
  set-Untouched r now c on unbounded small ne = elim (Bool-cases (check_channel c)) [
    | inr bad ↦
        rw (set-invalid r now c on unbounded bad)
          (record { small = small; coil = refl; timer = refl; line = refl })
    | inl valid ↦ elim (Bool-cases (r.io.answers r.io.writes)) [
      | inr bad ↦
          rw (set-raises r now c on unbounded valid bad)
            (record { small = small; coil = unfold is_on in refl; timer = refl; line = refl })
      | inl good ↦
          let r1 = driven c on r in
          rw (set-valid r now c on unbounded valid good) (record {
            small = state-note_set r1 c small valid now on unbounded;
            coil = ground (
              arith,
              is_on-note_set r1 c small valid now on unbounded d real,
              is_on-driven d c on r,
            );
            timer = ground (arith, timers-note_set r1 now c on unbounded d);
            line =
                rw (io-note_set r1 now c on unbounded)
                  (ground (arith, pin_of-injective c d valid real));
          })
    ]
  ]

  arm-Untouched :
      (r : Relays) (now c n : ℕ) → r.state < 16 → (c == d) ≡ false → Untouched d r (arm now c n r)
  arm-Untouched r now c n small ne = record {
    small = unfold arm in small;
    coil = unfold arm is_on in refl;
    timer = ground (arith, timers-arm r now c n d);
    line = unfold arm in refl;
  }

  pub arm_auto_off-Untouched :
      (r : Relays) (now c n : ℕ)
      → r.state < 16
      → (c == d) ≡ false
      → Untouched d r (arm_auto_off now c n r).1
  arm_auto_off-Untouched r now c n small ne =
      elim (Bool-cases (check_channel c && not (n == 0) && is_on c r)) [
        | inl arms ↦
            rw (arm_auto_off-arms r now c n arms)
              (arm-Untouched r now c (bounded_seconds r.max_on n) small ne)
        | inr idle ↦
            rw (arm_auto_off-idle r now c n idle)
              (record { small = small; coil = refl; timer = refl; line = refl })
      ]

  pub Untouched-trans : (r s u : Relays) → Untouched d r s → Untouched d s u → Untouched d r u
  Untouched-trans r s u h k = record {
    small = k.small;
    coil = k.coil ∙ h.coil;
    timer = k.timer ∙ h.timer;
    line = k.line ∙ h.line;
  }
