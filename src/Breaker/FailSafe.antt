-- ===== src/Breaker/FailSafe.antt =====
-- The queue, the link and the fail-safe of the smart breaker controller.
use mathlib.Core.Path.{subst}
use wqm.Prelude.{
  ℕ, ◌-◌, ◌≡◌, ◌≢◌, ◌∙◌, ◌/◌, ◌⊎◌, inl, inr, refl, sym, Option-cases, Bool, true, false, not, ◌&&◌,
  Option, none, some, List, [], ◌∷◌, arith, ltb, if◌then◌else◌, Bool-cases,
}
use wqm.Prelude.Texts.{String}
use wqm.Relay.{Relays}
use wqm.Breaker.{
  Breaker, Settings, Mode, off, on, last, Vendor, no_vendor, relay_only, ableedge, Answer, ok,
  failed, Answers, Result, Status, init, set_interlock, mark_ok, mark_fail, note_accepted,
  evaluate_fail_safe, apply_mode, request, request_vendor, request_on, request_off, request_relay,
  poll, poll_link, on_status, on_pending, finish_off, is_ableedge, is_bound, interlock_relay,
  short_cycle_remaining, or_now,
}

-- A call of the controller at a time.
pub data Call : Type 0 where
  asked : Settings → ℕ → ℕ → Bool → String → Answer (Unit {0}) → Call
  polled : Settings → ℕ → ℕ → Answers → Call

unfoldable pub apply : Breaker → Call → Breaker
apply b (asked s now wall close why answer) = (request s now wall close why answer b).1
apply b (polled s now wall a) = poll s now wall a b

unfoldable pub run : Breaker → List Call → Breaker
run b [] = b
run b (c ∷ cs) = run (apply b c) cs

-- Nothing but an OFF is queued.
abbrev pub OnlyOff : Option (Bool × String) → Type 0
OnlyOff none = Unit
OnlyOff (some (close, why)) = close ≡ false

-- Nothing but an OFF is queued, and a fail-safe stands applied only while the link is down.
pub record Inv (b : Breaker) : Type 0 where
  pub only_off : OnlyOff b.pending
  pub applied_down : b.unreachable_since ≡ none → b.fail_safe_applied ≡ none

pub set_interlock-keeps :
    (s : Settings) (now : ℕ) (close : Bool) (b : Breaker)
    → (set_interlock s now close b).1 ≡ record b { relays = (set_interlock s now close b).1.relays }
unfolding set_interlock
set_interlock-keeps s now close b = ground arith

mark_ok-Inv : (now : ℕ) (b : Breaker) → Inv b → Inv (mark_ok now b)
unfolding mark_ok
mark_ok-Inv now b v = ground arith

-- Past the grace period a fail-safe is applied; before it, and once it is applied, nothing is.
pub due-cases :
    (s : Settings) (now : ℕ) (b : Breaker)
    → (evaluate_fail_safe s now b ≡ b)
      ⊎ ((n : ℕ) × (evaluate_fail_safe s now b
            ≡ apply_mode s now n s.fail_safe (record b { fail_safe_applied = some s.fail_safe })))
unfolding evaluate_fail_safe
due-cases s now b = elim (Option-cases b.unreachable_since) [
  | inl up ↦ inl (ground arith)
  | inr (since, down) ↦ elim (Option-cases b.fail_safe_applied) [
    | inr (m, applied) ↦ inl (ground arith)
    | inl fresh ↦ elim (Bool-cases (ltb (now - since) s.grace)) [
      | inl early ↦ inl (ground arith)
      | inr late ↦ inr ((now - since) / 1000, ground arith)
    ]
  ]
]

apply_mode-Inv :
    (s : Settings) (now n : ℕ) (m : Mode) (b : Breaker)
    → b.unreachable_since ≢ none
    → Inv b
    → Inv (apply_mode s now n m b)
unfolding apply_mode
apply_mode-Inv s now n off b down v =
    ground (arith, set_interlock-keeps s now false (record b { last_off = some now }))
apply_mode-Inv s now n on b down v = ground (arith, set_interlock-keeps s now true b)
apply_mode-Inv s now n last b down v = ground arith

mark_fail-Inv :
    (s : Settings) (now : ℕ) (e : String) (b : Breaker) → Inv b → Inv (mark_fail s now e b)
unfolding mark_fail
mark_fail-Inv s now e b v =
    let b' : Breaker = record b {
      last_error = some e;
      unreachable_since = or_now now b.unreachable_since;
    } in
    let down : or_now now b.unreachable_since ≢ none = λ up. ground arith in
    let v' : Inv b' = record { only_off = v.only_off; applied_down = λ up. absurd (down up) } in
    elim (due-cases s now b') [
      | inl same ↦ subst Inv (sym same) v'
      | inr (n, applied) ↦ subst Inv (sym applied) (
          apply_mode-Inv s now n s.fail_safe (record b' { fail_safe_applied = some s.fail_safe })
            down (record { only_off = v.only_off; applied_down = λ up. absurd (down up) }))
    ]

-- The fields that the invariant is about.
with_fields :
    (b c : Breaker)
    → Inv b
    → OnlyOff c.pending
    → c.unreachable_since ≡ b.unreachable_since
    → c.fail_safe_applied ≡ b.fail_safe_applied
    → Inv c
with_fields b c v q u f = record {
  only_off = q;
  applied_down = λ h. f ∙ v.applied_down (sym u ∙ h);
}

set_interlock-Inv :
    (s : Settings) (now : ℕ) (close : Bool) (b : Breaker)
    → Inv b
    → Inv (set_interlock s now close b).1
set_interlock-Inv s now close b v =
    rw (set_interlock-keeps s now close b)
      (record { only_off = v.only_off; applied_down = v.applied_down })

request_on-Inv :
    (s : Settings) (now wall : ℕ) (answer : Answer (Unit {0})) (b : Breaker)
    → Inv b
    → Inv (request_on s now wall answer b).1
unfolding request_on note_accepted
request_on-Inv s now wall (failed e) b v = mark_fail-Inv s now e b v
request_on-Inv s now wall (ok _) b v =
    set_interlock-Inv s now true _
      (with_fields (mark_ok now b) _ (mark_ok-Inv now b v) tt refl refl)

finish_off-Inv :
    (s : Settings) (now wall : ℕ) (why : String) (set : Bool) (answer : Answer (Unit {0}))
    (b : Breaker)
    → Inv b
    → Inv (finish_off s now wall why set answer b).1
unfolding finish_off note_accepted
finish_off-Inv s now wall why set (ok _) b v =
    with_fields (mark_ok now b) _ (mark_ok-Inv now b v) tt refl refl
finish_off-Inv s now wall why set (failed e) b v =
    with_fields (mark_fail s now e b) _ (mark_fail-Inv s now e b v) refl refl refl

request_off-Inv :
    (s : Settings) (now wall : ℕ) (why : String) (answer : Answer (Unit {0})) (b : Breaker)
    → Inv b
    → Inv (request_off s now wall why answer b).1
unfolding request_off
request_off-Inv s now wall why answer b v =
    let b1 = (set_interlock s now false b).1 in
    let v1 = set_interlock-Inv s now false b v in
    finish_off-Inv s now wall why (set_interlock s now false b).0 answer
      (record b1 { desired = some false }) (with_fields b1 _ v1 v1.only_off refl refl)

if-Inv : (t : Bool) (x y : Result × Breaker) → Inv x.1 → Inv y.1 → Inv (if t then x else y).1
if-Inv true x y v w = v
if-Inv false x y v w = w

request_relay-Inv :
    (s : Settings) (now : ℕ) (close : Bool) (c : Option ℕ) (b : Breaker)
    → Inv b
    → Inv (request_relay s now close c b).1
unfolding request_relay
request_relay-Inv s now close none b v = v
request_relay-Inv s now close (some c) b v =
    let v1 = set_interlock-Inv s now close b v in
    with_fields (set_interlock s now close b).1 _ v1 v1.only_off refl refl

request_vendor-Inv :
    (x : Vendor) (s : Settings) (now wall : ℕ) (close : Bool) (why : String)
    (answer : Answer (Unit {0})) (b : Breaker)
    → Inv b
    → Inv (request_vendor x s now wall close why answer b).1
unfolding request_vendor
request_vendor-Inv no_vendor s now wall close why answer b v = v
request_vendor-Inv relay_only s now wall close why answer b v =
    request_relay-Inv s now close (interlock_relay s) b v
request_vendor-Inv ableedge s now wall close why answer b v = if-Inv (not b.has_client) _ _ v (
    if-Inv close _ _ (request_on-Inv s now wall answer b v)
      (request_off-Inv s now wall why answer b v))

request-Inv :
    (s : Settings) (now wall : ℕ) (close : Bool) (why : String) (answer : Answer (Unit {0}))
    (b : Breaker)
    → Inv b
    → Inv (request s now wall close why answer b).1
unfolding request
request-Inv s now wall close why answer b v =
    if-Inv (is_bound s.vendor) _ _
      (if-Inv close _ _
        (if-Inv (ltb 0 (short_cycle_remaining s now b)) _ _ v
          (request_vendor-Inv s.vendor s now wall true why answer b v))
        (request_vendor-Inv s.vendor s now wall false why answer (record b { last_off = some now })
          (with_fields b _ v v.only_off refl refl)))
      v

on_status-Inv :
    (s : Settings) (now : ℕ) (p : Answer ℕ) (a : Answer Status) (b : Breaker)
    → Inv b
    → Inv (on_status s now p a b)
unfolding on_status
on_status-Inv s now p (failed e) b v = mark_fail-Inv s now e b v
on_status-Inv s now (failed e) (ok st) b v =
    mark_ok-Inv now _ (with_fields b _ v v.only_off refl refl)
on_status-Inv s now (ok w) (ok st) b v =
    let v1 =
      mark_ok-Inv now (record b { last_status = some st })
        (with_fields b _ v v.only_off refl refl) in
    with_fields (mark_ok now (record b { last_status = some st })) _ v1 v1.only_off refl refl

on_pending-Inv :
    (s : Settings) (now wall : ℕ) (a : Answers) (close : Bool) (r : Answer (Unit {0})) (b : Breaker)
    → Inv b
    → Inv (on_pending s now wall a close r b)
unfolding on_pending note_accepted
on_pending-Inv s now wall a close (failed e) b v = mark_fail-Inv s now e b v
on_pending-Inv s now wall a close (ok _) b v =
    let b1 : Breaker = record b { pending = none } in
    let v1 = mark_ok-Inv now b1 (with_fields b b1 v tt refl refl) in
    on_status-Inv s now a.to_power a.to_status _
      (with_fields (mark_ok now b1) _ v1 v1.only_off refl refl)

poll_link-Inv :
    (s : Settings) (now wall : ℕ) (a : Answers) (q : Option (Bool × String)) (b : Breaker)
    → Inv b
    → Inv (poll_link s now wall a q b)
unfolding poll_link
poll_link-Inv s now wall a none b v = on_status-Inv s now a.to_power a.to_status b v
poll_link-Inv s now wall a (some (close, why)) b v =
    on_pending-Inv s now wall a close a.to_pending b v

poll-Inv :
    (s : Settings) (now wall : ℕ) (a : Answers) (b : Breaker) → Inv b → Inv (poll s now wall a b)
unfolding poll
poll-Inv s now wall a b v = elim (Bool-cases (is_ableedge s.vendor && b.has_client)) [
  | inl linked ↦ simp linked (poll_link-Inv s now wall a b.pending b v)
  | inr idle ↦ simp idle v
]

apply-Inv : (b : Breaker) (c : Call) → Inv b → Inv (apply b c)
unfolding apply
apply-Inv b (asked s now wall close why answer) v = request-Inv s now wall close why answer b v
apply-Inv b (polled s now wall a) v = poll-Inv s now wall a b v

run_from-Inv : (b : Breaker) (cs : List Call) → Inv b → Inv (run b cs)
unfolding run
run_from-Inv b [] v = v
run_from-Inv b (c ∷ cs) v = run_from-Inv (apply b c) cs (apply-Inv b c v)

-- After any requests and polls, whatever the vendor answers: only an OFF is ever queued, and a
-- fail-safe stands applied only while the link is down.
pub vendor_run-Inv :
    (relays : Option Relays) (has_client : Bool) (now : ℕ) (cs : List Call)
    → Inv (run (init relays has_client now) cs)
vendor_run-Inv relays has_client now cs =
    run_from-Inv (init relays has_client now) cs (record { only_off = tt; applied_down = λ h. cc })
