-- ===== src/Breaker.antt =====
-- The smart breaker controller of src/integrations/smart_breaker/controller.py. The vendor's client
-- is code outside this file: a call of it is the answer that it gives, an argument of the method.
-- Time is in ticks of a millisecond and stands still during a call; the lock makes a method one
-- step. Messages are left out of results and events, but for the reason that a queued command
-- carries.
pub mod ShortCycle
pub mod FailSafe
mod Tests
use wqm.Prelude.{
  ℕ, ◌+◌, ◌-◌, ◌/◌, Bool, true, false, not, ◌&&◌, Option, none, some, List, [], ◌∷◌, ◌++◌, ltb, leb,
  ◌==◌, if◌then◌else◌, Outcome, returned, raised,
}
use wqm.Prelude.Texts.{String}
use wqm.Relay
use wqm.Relay.{Relays}

pub data Vendor : Type 0 where
  no_vendor relay_only ableedge : Vendor

-- FailSafeMode of base.py
pub data Mode : Type 0 where
  off on last : Mode

-- The `smart_breaker_*` settings that the controller reads.
pub record Settings : Type 0 where
  pub vendor : Vendor
  pub fail_safe : Mode
  pub grace : ℕ
  pub min_off : ℕ
  pub interlock : ℕ

-- CircuitStatus of base.py, as far as the controller looks at it
pub record Status : Type 0 where
  pub is_on : Option Bool
  pub connected : Option Bool
  pub observed_at : ℕ

pub data Event : Type 0 where
  restored : Mode → ℕ → Event
  fail_safe : Mode → ℕ → Bool → Event

pub record Breaker : Type 0 where
  pub relays : Option Relays
  pub has_client : Bool
  pub desired : Option Bool
  pub last_status : Option Status
  pub last_power : Option ℕ
  pub last_ok : Option ℕ
  pub unreachable_since : Option ℕ
  pub last_error : Option String
  pub fail_safe_applied : Option Mode
  pub pending : Option (Bool × String)
  pub last_off : Option ℕ
  pub events : List Event

-- `__init__`: the link counts as down until the first call that succeeds.
abbrev pub init : Option Relays → Bool → ℕ → Breaker
init relays has_client now = record {
  relays = relays;
  has_client = has_client;
  desired = none;
  last_status = none;
  last_power = none;
  last_ok = none;
  unreachable_since = some now;
  last_error = none;
  fail_safe_applied = none;
  pending = none;
  last_off = none;
  events = [];
}

abbrev remaining_since : ℕ → ℕ → Option ℕ → ℕ
remaining_since min_off now none = 0
remaining_since min_off now (some since) = min_off - (now - since)

-- The ticks until an ON request is accepted; the subtraction stops at 0, as `max(0.0, …)` does.
unfoldable pub short_cycle_remaining : Settings → ℕ → Breaker → ℕ
short_cycle_remaining s now b = remaining_since s.min_off now b.last_off

-- `interlock_relay`
abbrev pub interlock_relay : Settings → Option ℕ
interlock_relay s = if leb 1 s.interlock && leb s.interlock 4 then some s.interlock else none

abbrev interlock_set : ℕ → Bool → Option ℕ → Option Relays → Breaker → Bool × Breaker
interlock_set now close none relays b = (true, b)
interlock_set now close (some c) none b = (true, b)
interlock_set now close (some c) (some r) b =
    let (out, r') = Relay.set now c close false r in
    (elim out [ returned _ ↦ true | raised _ ↦ false ], record b { relays = some r' })

-- `_set_interlock`
unfoldable pub set_interlock : Settings → ℕ → Bool → Breaker → Bool × Breaker
set_interlock s now close b = interlock_set now close (interlock_relay s) b.relays b

abbrev restored_events : ℕ → ℕ → Option Mode → List Event
restored_events now since none = []
restored_events now since (some m) = restored m ((now - since) / 1000) ∷ []

abbrev link_restored : ℕ → Option ℕ → Breaker → Breaker
link_restored now none b = b
link_restored now (some since) b = record b {
  unreachable_since = none;
  events = b.events ++ restored_events now since b.fail_safe_applied;
  fail_safe_applied = none;
}

-- `_mark_ok`
unfoldable pub mark_ok : ℕ → Breaker → Breaker
mark_ok now b =
    link_restored now b.unreachable_since (record b { last_ok = some now; last_error = none })

abbrev connected_of : Option Status → Option Bool
connected_of none = none
connected_of (some s) = s.connected

-- `_note_accepted`
unfoldable pub note_accepted : Bool → ℕ → Breaker → Breaker
note_accepted close wall b = record b {
  last_status =
      some
        (record { is_on = some close; connected = connected_of b.last_status; observed_at = wall });
}

abbrev emit : Event → Breaker → Breaker
emit e b = record b { events = b.events ++ e ∷ [] }

-- What the fail-safe does in each mode.
unfoldable pub apply_mode : Settings → ℕ → ℕ → Mode → Breaker → Breaker
apply_mode s now down off b =
    let (dropped, b') = set_interlock s now false (record b { last_off = some now }) in
    emit (fail_safe off down dropped) (record b' {
      desired = some false;
      pending = some (false, "WQM-1 fail-safe: breaker API unreachable");
    })
apply_mode s now down on b =
    let (closed, b') = set_interlock s now true b in emit (fail_safe on down closed) b'
apply_mode s now down last b = emit (fail_safe last down true) b

abbrev pub fail_safe_due : Settings → ℕ → Option ℕ → Option Mode → Breaker → Breaker
fail_safe_due s now (some since) none b =
    if ltb (now - since) s.grace
    then b
    else apply_mode s now ((now - since) / 1000) s.fail_safe
        (record b { fail_safe_applied = some s.fail_safe })
fail_safe_due s now (some since) (some m) b = b
fail_safe_due s now none m b = b

-- `_evaluate_fail_safe`
unfoldable pub evaluate_fail_safe : Settings → ℕ → Breaker → Breaker
evaluate_fail_safe s now b = fail_safe_due s now b.unreachable_since b.fail_safe_applied b

abbrev pub or_now : ℕ → Option ℕ → Option ℕ
or_now now none = some now
or_now now (some since) = some since

-- `_mark_fail`
unfoldable pub mark_fail : Settings → ℕ → String → Breaker → Breaker
mark_fail s now error b =
    evaluate_fail_safe s now
      (record b { last_error = some error; unreachable_since = or_now now b.unreachable_since })

-- What the vendor answers to one call.
pub data Answer {ℓ} (A : Type ℓ) : Type ℓ where
  ok : A → Answer A
  failed : String → Answer A

-- `breaker` of a result: confirmed, unconfirmed, or not asked.
pub data Verdict : Type 0 where
  confirmed unconfirmed not_asked : Verdict

pub data Result : Type 0 where
  disabled no_interlock no_client : Result
  short_cycle : ℕ → Result
  done : Bool → Verdict → Option Bool → Result

-- `relay_only`, with the channel of the interlock.
unfoldable pub request_relay : Settings → ℕ → Bool → Option ℕ → Breaker → Result × Breaker
request_relay s now close none b = (no_interlock, b)
request_relay s now close (some _) b =
    let (set, b') = set_interlock s now close b in
    (done set not_asked none, record b' { desired = some close })

-- OFF: the local half first, then the vendor.
unfoldable pub finish_off :
    Settings → ℕ → ℕ → String → Bool → Answer (Unit {0}) → Breaker → Result × Breaker
finish_off s now wall why set (ok _) b = (
  done true confirmed (some set),
  record (note_accepted false wall (mark_ok now b)) { pending = none },
)
finish_off s now wall why set (failed error) b = (
  done false unconfirmed (some set),
  record (mark_fail s now error b) { pending = some (false, why) },
)

unfoldable pub request_off :
    Settings → ℕ → ℕ → String → Answer (Unit {0}) → Breaker → Result × Breaker
request_off s now wall why answer b =
    let (set, b') = set_interlock s now false b in
    finish_off s now wall why set answer (record b' { desired = some false })

-- ON: the vendor first; the interlock follows a confirmed close.
unfoldable pub request_on : Settings → ℕ → ℕ → Answer (Unit {0}) → Breaker → Result × Breaker
request_on s now wall (failed error) b = (done false unconfirmed none, mark_fail s now error b)
request_on s now wall (ok _) b =
    let b1 : Breaker = record (note_accepted true wall (mark_ok now b)) {
      desired = some true;
      pending = none;
    } in
    let (set, b2) = set_interlock s now true b1 in (done set confirmed (some set), b2)

-- `request` past the short-cycle guard.
unfoldable pub request_vendor :
    Vendor → Settings → ℕ → ℕ → Bool → String → Answer (Unit {0}) → Breaker → Result × Breaker
request_vendor no_vendor s now wall close why answer b = (disabled, b)
request_vendor relay_only s now wall close why answer b =
    request_relay s now close (interlock_relay s) b
request_vendor ableedge s now wall close why answer b =
    if not b.has_client
    then (no_client, b)
    else if close
    then request_on s now wall answer b
    else request_off s now wall why answer b

abbrev pub is_bound : Vendor → Bool
is_bound no_vendor = false
is_bound _ = true

unfoldable pub request :
    Settings → ℕ → ℕ → Bool → String → Answer (Unit {0}) → Breaker → Result × Breaker
request s now wall close why answer b =
    if is_bound s.vendor
    then if close
      then (let remaining = short_cycle_remaining s now b in
          if ltb 0 remaining
          then (short_cycle ((remaining + 999) / 1000), b)
          else request_vendor s.vendor s now wall true why answer b)
      else request_vendor s.vendor s now wall false why answer (record b { last_off = some now })
    else (disabled, b)

-- The vendor's answers to the calls of one poll.
pub record Answers : Type 0 where
  pub to_pending : Answer (Unit {0})
  pub to_status : Answer Status
  pub to_power : Answer ℕ

abbrev pub keep_power : Answer ℕ → Breaker → Breaker
keep_power (ok p) b = record b { last_power = some p }
keep_power (failed _) b = b

unfoldable pub on_status : Settings → ℕ → Answer ℕ → Answer Status → Breaker → Breaker
on_status s now power (failed error) b = mark_fail s now error b
on_status s now power (ok status) b =
    keep_power power (mark_ok now (record b { last_status = some status }))

-- The queued command goes out before the status is read.
unfoldable pub on_pending :
    Settings → ℕ → ℕ → Answers → Bool → Answer (Unit {0}) → Breaker → Breaker
on_pending s now wall a close (failed error) b = mark_fail s now error b
on_pending s now wall a close (ok _) b =
    on_status s now a.to_power a.to_status
      (note_accepted close wall (mark_ok now (record b { pending = none })))

unfoldable pub poll_link : Settings → ℕ → ℕ → Answers → Option (Bool × String) → Breaker → Breaker
poll_link s now wall a none b = on_status s now a.to_power a.to_status b
poll_link s now wall a (some (close, why)) b = on_pending s now wall a close a.to_pending b

abbrev pub is_ableedge : Vendor → Bool
is_ableedge ableedge = true
is_ableedge _ = false

unfoldable pub poll : Settings → ℕ → ℕ → Answers → Breaker → Breaker
poll s now wall a b =
    if is_ableedge s.vendor && b.has_client then poll_link s now wall a b.pending b else b
