-- ===== src/Breaker/ShortCycle.antt =====
-- The short-cycle guard of the smart breaker controller.
use mathlib.Core.Path.{subst}
use wqm.Prelude.{
  ℕ, ◌+◌, ◌≤◌, ◌<◌, ◌≡◌, ◌≢◌, ◌∙◌, refl, sym, Bool, true, false, ◌&&◌, Option, none, some, List, [],
  ◌∷◌, arith, ltb, ap, Bool-cases, inl, inr, All,
}
use wqm.Prelude.Texts.{String}
use wqm.Breaker.{
  Breaker, Settings, Mode, off, on, last, Vendor, no_vendor, relay_only, ableedge, Answer, ok,
  failed, Answers, Status, set_interlock, mark_ok, mark_fail, note_accepted, apply_mode, request,
  request_vendor, request_off, finish_off, request_relay, poll, poll_link, on_status, on_pending,
  interlock_relay, short_cycle_remaining, is_bound, is_ableedge, or_now,
}
use wqm.Breaker.FailSafe.{Call, asked, polled, apply, run, due-cases, set_interlock-keeps}

-- The last OFF was issued at `t` or later.
abbrev pub OffSince : ℕ → Option ℕ → Type 0
OffSince t none = ⊥
OffSince t (some x) = t ≤ x

-- The circuit is not wanted on, and an OFF was issued at `t` or later.
pub record HeldOff (t : ℕ) (b : Breaker) : Type 0 where
  pub wanted : b.desired ≢ some true
  pub since : OffSince t b.last_off

module _ (t : ℕ) where
  same :
      (b c : Breaker) → HeldOff t b → c.desired ≡ b.desired → c.last_off ≡ b.last_off → HeldOff t c
  same b c h d l = record {
    wanted = λ e. h.wanted (sym d ∙ e);
    since = subst (OffSince t) (sym l) h.since;
  }

  set_interlock-HeldOff :
      (s : Settings) (now : ℕ) (close : Bool) (b : Breaker)
      → HeldOff t b
      → HeldOff t (set_interlock s now close b).1
  set_interlock-HeldOff s now close b h =
      rw (set_interlock-keeps s now close b) (record { wanted = h.wanted; since = h.since })

  mark_ok-HeldOff : (now : ℕ) (b : Breaker) → HeldOff t b → HeldOff t (mark_ok now b)
  unfolding mark_ok
  mark_ok-HeldOff now b h = same b (mark_ok now b) h (ground arith) (ground arith)

  apply_mode-HeldOff :
      (s : Settings) (now n : ℕ) (m : Mode) (b : Breaker)
      → t ≤ now
      → HeldOff t b
      → HeldOff t (apply_mode s now n m b)
  unfolding apply_mode
  apply_mode-HeldOff s now n off b late h = record {
    wanted = λ e. cc;
    since =
        subst (OffSince t)
          (sym (
            ap (λ (c : Breaker). c.last_off)
              (set_interlock-keeps s now false (record b { last_off = some now }))))
          late;
  }
  apply_mode-HeldOff s now n on b late h =
      same (set_interlock s now true b).1 _ (set_interlock-HeldOff s now true b h) refl refl
  apply_mode-HeldOff s now n last b late h = same b _ h refl refl

  mark_fail-HeldOff :
      (s : Settings) (now : ℕ) (e : String) (b : Breaker)
      → t ≤ now
      → HeldOff t b
      → HeldOff t (mark_fail s now e b)
  unfolding mark_fail
  mark_fail-HeldOff s now e b late h =
      let b' : Breaker = record b {
        last_error = some e;
        unreachable_since = or_now now b.unreachable_since;
      } in
      elim (due-cases s now b') [
        | inl idle ↦ subst (HeldOff t) (sym idle) (same b b' h refl refl)
        | inr (n, applied) ↦ subst (HeldOff t) (sym applied) (
            apply_mode-HeldOff s now n s.fail_safe
              (record b' { fail_safe_applied = some s.fail_safe }) late (same b _ h refl refl))
      ]

  finish_off-HeldOff :
      (s : Settings) (now wall : ℕ) (why : String) (set : Bool) (answer : Answer (Unit {0}))
      (b : Breaker)
      → t ≤ now
      → HeldOff t b
      → HeldOff t (finish_off s now wall why set answer b).1
  unfolding finish_off note_accepted
  finish_off-HeldOff s now wall why set (ok _) b late h =
      same (mark_ok now b) _ (mark_ok-HeldOff now b h) refl refl
  finish_off-HeldOff s now wall why set (failed e) b late h =
      same (mark_fail s now e b) _ (mark_fail-HeldOff s now e b late h) refl refl

  request_off-HeldOff :
      (s : Settings) (now wall : ℕ) (why : String) (answer : Answer (Unit {0})) (b : Breaker)
      → t ≤ now
      → OffSince t b.last_off
      → HeldOff t (request_off s now wall why answer b).1
  unfolding request_off
  request_off-HeldOff s now wall why answer b late since =
      let set = set_interlock s now false b in
      let kept = ap (λ (c : Breaker). c.last_off) (set_interlock-keeps s now false b) in
      finish_off-HeldOff s now wall why set.0 answer (record set.1 { desired = some false }) late
        (record { wanted = λ e. cc; since = subst (OffSince t) (sym kept) since })

  request_relay-HeldOff :
      (s : Settings) (now : ℕ) (c : Option ℕ) (b : Breaker)
      → HeldOff t b
      → HeldOff t (request_relay s now false c b).1
  unfolding request_relay
  request_relay-HeldOff s now none b h = h
  request_relay-HeldOff s now (some c) b h = record {
    wanted = λ e. cc;
    since = (set_interlock-HeldOff s now false b h).since;
  }

  vendor_off-HeldOff :
      (x : Vendor) (s : Settings) (now wall : ℕ) (why : String) (answer : Answer (Unit {0}))
      (b : Breaker)
      → t ≤ now
      → HeldOff t b
      → HeldOff t (request_vendor x s now wall false why answer b).1
  unfolding request_vendor
  vendor_off-HeldOff no_vendor s now wall why answer b late h = h
  vendor_off-HeldOff relay_only s now wall why answer b late h =
      request_relay-HeldOff s now (interlock_relay s) b h
  vendor_off-HeldOff ableedge s now wall why answer b late h = elim (Bool-cases b.has_client) [
    | inl there ↦ simp there (request_off-HeldOff s now wall why answer b late h.since)
    | inr without ↦ simp without h
  ]

  -- The guard refuses an ON while the minimum off time since `t` runs.
  guarded :
      (s : Settings) (now : ℕ) (b : Breaker)
      → t ≤ now
      → now < t + s.min_off
      → HeldOff t b
      → ltb 0 (short_cycle_remaining s now b) ≡ true
  unfolding short_cycle_remaining
  guarded s now b late early h = ground (arith, h.since)

  request-HeldOff :
      (s : Settings) (now wall : ℕ) (close : Bool) (why : String) (answer : Answer (Unit {0}))
      (b : Breaker)
      → t ≤ now
      → now < t + s.min_off
      → HeldOff t b
      → HeldOff t (request s now wall close why answer b).1
  unfolding request
  request-HeldOff s now wall true why answer b late early h =
      elim (Bool-cases (is_bound s.vendor)) [
        | inl bound ↦ simp (bound, guarded s now b late early h) h
        | inr without ↦ simp without h
      ]
  request-HeldOff s now wall false why answer b late early h =
      elim (Bool-cases (is_bound s.vendor)) [
        | inl bound ↦ simp bound (
            vendor_off-HeldOff s.vendor s now wall why answer (record b { last_off = some now })
              late (record { wanted = h.wanted; since = late }))
        | inr without ↦ simp without h
      ]

  on_status-HeldOff :
      (s : Settings) (now : ℕ) (p : Answer ℕ) (a : Answer Status) (b : Breaker)
      → t ≤ now
      → HeldOff t b
      → HeldOff t (on_status s now p a b)
  unfolding on_status
  on_status-HeldOff s now p (failed e) b late h = mark_fail-HeldOff s now e b late h
  on_status-HeldOff s now (failed e) (ok st) b late h = mark_ok-HeldOff now _ (same b _ h refl refl)
  on_status-HeldOff s now (ok w) (ok st) b late h =
      let h' = mark_ok-HeldOff now (record b { last_status = some st }) (same b _ h refl refl) in
      same (mark_ok now (record b { last_status = some st })) _ h' refl refl

  on_pending-HeldOff :
      (s : Settings) (now wall : ℕ) (a : Answers) (close : Bool) (r : Answer (Unit {0}))
      (b : Breaker)
      → t ≤ now
      → HeldOff t b
      → HeldOff t (on_pending s now wall a close r b)
  unfolding on_pending note_accepted
  on_pending-HeldOff s now wall a close (failed e) b late h = mark_fail-HeldOff s now e b late h
  on_pending-HeldOff s now wall a close (ok _) b late h =
      let b1 : Breaker = record b { pending = none } in
      on_status-HeldOff s now a.to_power a.to_status _ late
        (same (mark_ok now b1) _ (mark_ok-HeldOff now b1 (same b b1 h refl refl)) refl refl)

  poll_link-HeldOff :
      (s : Settings) (now wall : ℕ) (a : Answers) (q : Option (Bool × String)) (b : Breaker)
      → t ≤ now
      → HeldOff t b
      → HeldOff t (poll_link s now wall a q b)
  unfolding poll_link
  poll_link-HeldOff s now wall a none b late h =
      on_status-HeldOff s now a.to_power a.to_status b late h
  poll_link-HeldOff s now wall a (some (close, why)) b late h =
      on_pending-HeldOff s now wall a close a.to_pending b late h

  poll-HeldOff :
      (s : Settings) (now wall : ℕ) (a : Answers) (b : Breaker)
      → t ≤ now
      → HeldOff t b
      → HeldOff t (poll s now wall a b)
  unfolding poll
  poll-HeldOff s now wall a b late h = elim (Bool-cases (is_ableedge s.vendor && b.has_client)) [
    | inl linked ↦ simp linked (poll_link-HeldOff s now wall a b.pending b late h)
    | inr idle ↦ simp idle h
  ]

-- A call in the minimum off time after `t`.
abbrev pub Within : ℕ → Call → Type 0
Within t (asked s now wall close why answer) = (t ≤ now) × (now < t + s.min_off)
Within t (polled s now wall a) = (t ≤ now) × (now < t + s.min_off)

run-HeldOff :
    (t : ℕ) (cs : List Call) (b : Breaker) → HeldOff t b → All (Within t) cs → HeldOff t (run b cs)
unfolding run apply
run-HeldOff t [] b h w = h
run-HeldOff t (asked s now wall close why answer ∷ cs) b h w =
    run-HeldOff t cs (request s now wall close why answer b).1
      (request-HeldOff t s now wall close why answer b w.0.0 w.0.1 h) w.1
run-HeldOff t (polled s now wall a ∷ cs) b h w =
    run-HeldOff t cs (poll s now wall a b) (poll-HeldOff t s now wall a b w.0.0 h) w.1

linked_off :
    (s : Settings) (t wall : ℕ) (why : String) (answer : Answer (Unit {0})) (b : Breaker)
    → s.vendor ≡ ableedge
    → b.has_client ≡ true
    → request s t wall false why answer b
      ≡ request_off s t wall why answer (record b { last_off = some t })
unfolding request request_vendor
linked_off s t wall why answer b bound there = ground arith

-- After an OFF is requested at `t` of a circuit with a vendor client, no run of requests and polls
-- within the minimum off time from `t`, whatever the vendor answers, makes the circuit wanted on.
pub no_short_cycle :
    (s : Settings) (t wall : ℕ) (why : String) (answer : Answer (Unit {0})) (b : Breaker)
    (cs : List Call)
    → s.vendor ≡ ableedge
    → b.has_client ≡ true
    → All (Within t) cs
    → (run (request s t wall false why answer b).1 cs).desired ≢ some true
no_short_cycle s t wall why answer b cs bound there w =
    (run-HeldOff t cs (request s t wall false why answer b).1
      (rw (linked_off s t wall why answer b bound there) (
        request_off-HeldOff t s t wall why answer (record b { last_off = some t }) (omega arith)
          (omega arith)))
      w).wanted

-- A queued OFF that a poll delivers moves no clock: the short-cycle guard goes on counting from the
-- request or the fail-safe that queued it, not from the time at which the breaker opened.
pub late_off_uncounted :
    (s : Settings) (now wall : ℕ) (a : Answers) (status : Status) (why : String) (b : Breaker)
    → s.vendor ≡ ableedge
    → b.has_client ≡ true
    → b.pending ≡ some (false, why)
    → a.to_pending ≡ ok tt
    → a.to_status ≡ ok status
    → (poll s now wall a b).last_off ≡ b.last_off
unfolding poll poll_link on_pending on_status note_accepted mark_ok
late_off_uncounted s now wall a status why b bound there queued delivered seen = ground arith
