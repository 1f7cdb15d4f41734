-- ===== src/Rules/Release.antt =====
-- What an evaluation must switch off: expired timers and the channels of suspended sensors.
use mathlib.Core.List.{Memᴰ}
use wqm.Prelude.{
  ℕ, ◌≡◌, refl, ap, Bool, true, false, not, ◌&&◌, ◌||◌, none, some, List, [], ◌∷◌, ◌++◌, arith, ltb,
  leb, ◌==◌, if◌then◌else◌, contains, keep, Bool-cases, inl, inr,
}
use wqm.Prelude.Dict.{Dict, get, get-remove}
use wqm.Prelude.Int.{ℤ}
use wqm.Prelude.Texts.{String, has_name}
use wqm.Rules.{
  Moment, Action, Engine, is_in_schedule, is_in_cooldown, check_on_time_budget, note_off,
  drop_timer, sweep, forget_reserved, expire_timers, revert, revert_suspended_to_failsafe,
  add_channel, queue_newly, columns_of, set_suspended_sensors,
}
use wqm.Rules.Rule.{Rule}
use wqm.Rules.Evaluate.{
  Pass, switch_on, switch_off, run_rule, run_rules, apply, release_first, evaluate,
}
use wqm.Rules.Grants.{start_pass, run_rule-cases}

mem-left {ℓ} : {A : Type ℓ} {a : A} (xs ys : List A) → Memᴰ a xs → Memᴰ a (xs ++ ys)
mem-left [] ys m = elim m [ ]
mem-left (x ∷ xs) ys (Memᴰ.head e) = Memᴰ.head e
mem-left (x ∷ xs) ys (Memᴰ.tail m) = Memᴰ.tail (mem-left xs ys m)

mem-right {ℓ} : {A : Type ℓ} {a : A} (xs ys : List A) → Memᴰ a ys → Memᴰ a (xs ++ ys)
mem-right [] ys m = m
mem-right (x ∷ xs) ys m = Memᴰ.tail (mem-right xs ys m)

-- A timer of the channel in the list is due.
abbrev due_in : ℕ → ℕ → Dict ℕ → Bool
due_in now c [] = false
due_in now c ((k, deadline) ∷ d) = (k == c && leb deadline now) || due_in now c d

timers-sweep :
    (now c : ℕ) (d : Dict ℕ) (e : Engine)
    → get c (sweep now d e).1.timers ≡ (if due_in now c d then none else get c e.timers)
unfolding sweep note_off drop_timer
timers-sweep now c [] e = refl
timers-sweep now c ((k, deadline) ∷ d) e = elim (Bool-cases (leb deadline now)) [
  | inl due ↦ rw due (
      ground
        (arith, timers-sweep now c d (drop_timer k (note_off now k e)), get-remove c k e.timers))
  | inr later ↦ rw later (ground (arith, timers-sweep now c d e))
]

due_in-get :
    (now c deadline : ℕ) (d : Dict ℕ)
    → get c d ≡ some deadline
    → due_in now c d ≡ false
    → leb deadline now ≡ false
unfolding get
due_in-get now c deadline [] h k = cc
due_in-get now c deadline ((j, v) ∷ d) h k = ground (arith, due_in-get now c deadline d)

get-forget :
    (reserved : List ℕ) (c : ℕ) (d : Dict ℕ)
    → get c (forget_reserved reserved d) ≡ (if contains c reserved then none else get c d)
unfolding forget_reserved get
get-forget reserved c [] = ground arith
get-forget reserved c ((k, v) ∷ d) = elim (Bool-cases (contains k reserved)) [
  | inl own ↦ rw own (ground (arith, get-forget reserved c d))
  | inr free ↦ rw free (ground (arith, get-forget reserved c d))
]

-- After the sweep a timer is left on a channel only if it was pending there before, the channel
-- is not reserved, and it was not due.
pub timers_swept :
    (reserved : List ℕ) (now c deadline : ℕ) (e : Engine)
    → get c (expire_timers reserved now e).1.timers ≡ some deadline
    → (get c e.timers ≡ some deadline) × (contains c reserved ≡ false) × (leb deadline now ≡ false)
unfolding expire_timers
timers_swept reserved now c deadline e h =
    let timers = forget_reserved reserved e.timers in
    let e' : Engine = record e { timers = timers } in
    ground (
      arith,
      timers-sweep now c timers e',
      get-forget reserved c e.timers,
      due_in-get now c deadline timers,
    )

contains-add : (c d : ℕ) (cs : List ℕ) → contains d (add_channel c cs) ≡ (c == d || contains d cs)
unfolding contains add_channel
contains-add c d [] = refl
contains-add c d (x ∷ cs) = ground (arith, contains-add c d cs)

queued :
    (columns old : List String) (rs : List Rule) (pending : List ℕ) (r : Rule)
    → Memᴰ r rs
    → has_name r.sensor columns ≡ true
    → has_name r.sensor old ≡ false
    → contains r.relay (queue_newly columns old rs pending) ≡ true
unfolding queue_newly
queued columns old [] pending r m now before = elim m [ ]
queued columns old (x ∷ rs) pending r (Memᴰ.head e) now before =
    let sensors : r.sensor ≡ x.sensor = ap (λ (y : Rule). y.sensor) e in
    let relays : r.relay ≡ x.relay = ap (λ (y : Rule). y.relay) e in
    let fresh : (has_name x.sensor columns && not (has_name x.sensor old)) ≡ true =
      rw (← sensors, now, before) in
    rw (fresh, contains-add x.relay r.relay (queue_newly columns old rs pending)) (ground arith)
queued columns old (x ∷ rs) pending r (Memᴰ.tail m) now before = ground (
  arith,
  queued columns old rs pending r m now before,
  contains-add x.relay r.relay (queue_newly columns old rs pending),
)

contains-keep :
    (p : ℕ → Bool) (c : ℕ) (cs : List ℕ)
    → contains c cs ≡ true
    → p c ≡ true
    → contains c (keep p cs) ≡ true
unfolding contains keep
contains-keep p c [] h k = cc
contains-keep p c (x ∷ cs) h k = ground (arith, contains-keep p c cs)

revert-mem :
    (now c : ℕ) (cs : List ℕ) (e : Engine)
    → contains c cs ≡ true
    → Memᴰ (c, false) (revert now cs e).0
unfolding revert contains
revert-mem now c [] e h = cc
revert-mem now c (x ∷ cs) e h = elim (Bool-cases (x == c)) [
  | inl here ↦ Memᴰ.head (ground arith)
  | inr there ↦ Memᴰ.tail (revert-mem now c cs (drop_timer x (note_off now x e)) (ground arith))
]

-- The loop over the rules only adds actions.
module _ (reserved : List ℕ) (reading : List (String × ℤ)) (t : Moment) (a : Action) where
  mem-switch_on : (r : Rule) (p : Pass) → Memᴰ a p.actions → Memᴰ a (switch_on t r p).actions
  unfolding switch_on
  mem-switch_on r p m = elim (Bool-cases (is_in_cooldown t r.relay p.engine)) [
    | inl cooling ↦ rw cooling m
    | inr ready ↦ elim (Bool-cases (check_on_time_budget t r.relay p.engine).0) [
      | inr spent ↦ rw (ready, spent) m
      | inl budget ↦ elim (Bool-cases (ltb 0 r.duration_s)) [
        | inl bounded ↦ rw (ready, budget, bounded) (mem-left p.actions _ m)
        | inr forever ↦ rw (ready, budget, forever) (mem-left p.actions _ m)
      ]
    ]
  ]

  mem-run_rule :
      (r : Rule) (p : Pass) → Memᴰ a p.actions → Memᴰ a (run_rule reserved reading t r p).actions
  unfolding run_rule switch_off
  mem-run_rule r p m =
      run_rule-cases (λ q. Memᴰ a q.actions) reserved reading t r p m (mem-switch_on r p m)
        (mem-left p.actions _ m)

  mem-run_rules :
      (rs : List Rule) (p : Pass)
      → Memᴰ a p.actions
      → Memᴰ a (run_rules reserved reading t rs p).actions
  unfolding run_rules
  mem-run_rules [] p m = m
  mem-run_rules (r ∷ rs) p m =
      mem-run_rules rs (run_rule reserved reading t r p) (mem-run_rule r p m)

  mem-evaluate :
      (e : Engine)
      → Memᴰ a (release_first reserved t e).0
      → Memᴰ a (evaluate reserved reading t e).0
  unfolding evaluate apply
  mem-evaluate e m =
      let e1 = (release_first reserved t e).1 in
      elim (Bool-cases (not (is_in_schedule t e1) || e1.manual_override)) [
        | inl shut ↦ rw shut m
        | inr open_ ↦ rw open_ (mem-run_rules e1.rules (start_pass reserved reading t e) m)
      ]

-- The actions of the evaluation after a sensor is newly suspended.
pub suspension_acts :
    (reserved : List ℕ) (reading : List (String × ℤ)) (t : Moment) (e : Engine)
    (sensors : List String) (r : Rule)
    → Memᴰ r e.rules
    → has_name r.sensor (columns_of sensors) ≡ true
    → has_name r.sensor e.suspended ≡ false
    → contains r.relay reserved ≡ false
    → Memᴰ (r.relay, false) (evaluate reserved reading t (set_suspended_sensors sensors e)).0
suspension_acts reserved reading t e sensors r m now before free =
    mem-evaluate reserved reading t (r.relay, false) (set_suspended_sensors sensors e)
      (unfold release_first revert_suspended_to_failsafe set_suspended_sensors in
        mem-left _ _ (
          revert-mem t.mono r.relay _ _ (
            contains-keep (λ c. not (contains c reserved)) r.relay _
              (queued (columns_of sensors) e.suspended e.rules e.pending_failsafe r m now before)
              (rw free))))
