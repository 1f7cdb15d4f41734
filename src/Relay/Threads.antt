-- ===== src/Relay/Threads.antt =====
-- A timer's thread leaves the other channels alone, and its own if it has no timer.
use mathlib.Core.Path.{subst}
use wqm.Prelude.{
  ℕ, ◌≡◌, ◌<◌, ◌∙◌, refl, sym, ap, true, false, none, some, arith, ◌==◌, Bool-cases, Option-cases,
  ◌⊎◌, inl, inr, Outcome, if◌then◌else◌,
}
use wqm.Prelude.Dict.{get, get-remove}
use wqm.Relay.{Relays, check_channel, is_on, set, auto_off, expire, cancel_timer, note_set, Timer}
use wqm.Relay.Methods.{set-valid, auto_off-none, auto_off-stale, auto_off-own, dropped}
use wqm.Relay.Others.{Untouched, set-Untouched}
use wqm.Relay.Steps.{Works}

dropped-set :
    (r : Relays) (c : ℕ)
    → check_channel c ≡ true
    → Works r
    → dropped c r ≡ (set 0 c false false r).1
unfolding note_set cancel_timer
dropped-set r c valid w =
    sym (ap (λ (out : _ × Relays). out.1) (set-valid r 0 c false false valid (w r.io.writes)))

auto_off-dark :
    (r : Relays) (c id : ℕ) (t : Timer)
    → get c r.timers ≡ some t
    → (t.id == id) ≡ true
    → is_on c r ≡ false
    → (auto_off c id r).1 ≡ cancel_timer c r
unfolding auto_off expire is_on cancel_timer
auto_off-dark r c id t found own dark = ground arith

-- On a controller that works, a thread does nothing, or switches its channel off, or only forgets a
-- timer.
pub thread-cases :
    (r : Relays) (c id : ℕ)
    → check_channel c ≡ true
    → Works r
    → ((auto_off c id r).1 ≡ r)
      ⊎ (((auto_off c id r).1 ≡ (set 0 c false false r).1)
          ⊎ ((auto_off c id r).1 ≡ cancel_timer c r))
thread-cases r c id valid w = elim (Option-cases (get c r.timers)) [
  | inl free ↦ inl (ap snd (auto_off-none r c id free))
  | inr (t, found) ↦ elim (Bool-cases (t.id == id)) [
    | inr old ↦ inl (ap snd (auto_off-stale r c id t found old))
    | inl own ↦ elim (Bool-cases (is_on c r)) [
      | inl lit ↦ inr (
          inl (
            ap snd (auto_off-own r c id t found own lit (w r.io.writes)) ∙ dropped-set r c valid w))
      | inr dark ↦ inr (inr (auto_off-dark r c id t found own dark))
    ]
  ]
]
  where
    snd : Outcome (Unit {0}) × Relays → Relays
    snd out = out.1

cancel-Untouched :
    (d : ℕ) (r : Relays) (c : ℕ)
    → r.state < 16
    → (c == d) ≡ false
    → Untouched d r (cancel_timer c r)
unfolding cancel_timer is_on
cancel-Untouched d r c small ne = record {
  small = small;
  coil = refl;
  timer = get-remove d c r.timers ∙ ap (λ b. if b then none else get d r.timers) ne;
  line = refl;
}

pub thread-Untouched :
    (d : ℕ) (r : Relays) (c id : ℕ)
    → check_channel d ≡ true
    → check_channel c ≡ true
    → (c == d) ≡ false
    → Works r
    → r.state < 16
    → Untouched d r (auto_off c id r).1
thread-Untouched d r c id real valid ne w small = elim (thread-cases r c id valid w) [
  | inl same ↦
      subst (Untouched d r) (sym same)
        (record { small = small; coil = refl; timer = refl; line = refl })
  | inr (inl drops) ↦
      subst (Untouched d r) (sym drops) (set-Untouched d real r 0 c false false small ne)
  | inr (inr forgets) ↦ subst (Untouched d r) (sym forgets) (cancel-Untouched d r c small ne)
]
