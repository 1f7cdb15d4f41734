-- ===== src/Node/Ownership.antt =====
-- The channel of the irrigation hold, under single steps of the other threads of the unit.
use mathlib.Core.Path.{subst}
use wqm.Prelude.{
  ℕ, ◌≡◌, inl, inr, refl, sym, ap, Bool, true, false, ◌&&◌, none, ltb, ◌==◌, if◌then◌else◌, get_or,
  Outcome, returned, raised, Bool-cases, ==_iff,
}
use wqm.Prelude.Dict.{get}
use wqm.Relay
use wqm.Relay.{Relays, check_channel, is_on, cancel_timer, pending_auto_off}
use wqm.Relay.Methods.{auto_off-none}
use wqm.Relay.Others.{Untouched, Untouched-trans, set-Untouched, arm_auto_off-Untouched}
use wqm.Relay.Threads.{thread-cases, thread-Untouched}
use wqm.Rules.{Engine}
use wqm.Rules.Evaluate.{command_relay, ticks}
use wqm.Rules.Wired.{Steady, set-Steady, arm_auto_off-Steady}
use wqm.Hold.Config.{HoldConfig}
use wqm.Hold.{configure}
use wqm.Hold.Standing.{configure-Owned}
use wqm.Node.{
  Source, command, radio, Ask, Node, rules_of, hold_of, reload, switch_and_arm, act, thread,
}
use wqm.Node.Fine.{Fine, to-Owned, Owned-Fine, Allowed, carry, real_channel}

pub reload-Fine : (now : ℕ) (cfg : HoldConfig) (n : Node) → Fine n → Fine (reload now cfg n)
unfolding reload
reload-Fine now cfg n f =
    Owned-Fine (configure now cfg (hold_of n)) n
      (configure-Owned now cfg (hold_of n) (to-Owned n f))

-- A switch of another channel, and a timer for it.
module _ (n : Node) (f : Fine n) (now c : ℕ) (on : Bool)
    (other : n.hold.driven ≡ true → (c == n.hold.driven_channel) ≡ false) where
  set-Allowed : Allowed n (Relay.set now c on false n.relays).1
  set-Allowed = record {
    steady = set-Steady n.relays now c on false f.steady;
    untouched = λ d.
        set-Untouched n.hold.driven_channel (real_channel n f d) n.relays now c on false
          f.steady.small (other d);
  }

  arm-Allowed :
      (seconds : ℕ) (r : Relays) → Allowed n r → Allowed n (Relay.arm_auto_off now c seconds r).1
  arm-Allowed seconds r a = record {
    steady = arm_auto_off-Steady r now c seconds a.steady;
    untouched = λ d.
        Untouched-trans n.hold.driven_channel (real_channel n f d) n.relays r _ (a.untouched d) (
          arm_auto_off-Untouched n.hold.driven_channel (real_channel n f d) r now c seconds
            a.steady.small (other d));
  }

  if-Allowed :
      (b : Bool) (r r' : Relays) → Allowed n r → Allowed n r' → Allowed n (if b then r else r')
  if-Allowed true r r' a a' = a
  if-Allowed false r r' a a' = a'

  switch-Allowed :
      (seconds : ℕ) (out : Outcome (Unit {0})) (r : Relays)
      → Allowed n r
      → Allowed n (switch_and_arm now c on seconds out r)
  switch-Allowed seconds (raised e) r a = a
  switch-Allowed seconds (returned u) r a =
      if-Allowed (on && ltb 0 seconds) _ r (arm-Allowed seconds r a) a

-- The engine's controller after a relay command of the radio.
Leaves : Node → Engine → Type 0
Leaves n e = Allowed n (get_or e.relay n.relays)

if-Leaves :
    (n : Node) (b : Bool) (x y : Outcome Bool × Engine)
    → Leaves n x.1
    → Leaves n y.1
    → Leaves n (if b then x else y).1
if-Leaves n true x y h k = h
if-Leaves n false x y h k = k

relay-Leaves :
    (n : Node) (f : Fine n) (now c : ℕ) (on : Bool) (seconds : ℕ)
    (other : n.hold.driven ≡ true → (c == n.hold.driven_channel) ≡ false) (out : Outcome (Unit {0}))
    (r : Relays)
    → Allowed n r
    → Leaves n (command_relay now c on seconds (rules_of n) out r).1
unfolding Leaves
relay-Leaves n f now c on seconds other (raised e) r a = a
relay-Leaves n f now c on seconds other (returned u) r a =
    if-Leaves n (on && ltb 0 seconds) _ _ (arm-Allowed n f now c on other (ticks seconds) r a) a

pub act-Fine :
    (now : ℕ) (source : Source) (a : Ask) (n : Node)
    → Fine n
    → (n.hold.driven ≡ true → (a.channel == n.hold.driven_channel) ≡ false)
    → Fine (act now source a n)
unfolding act
act-Fine now command a n f other =
    let out = Relay.set now a.channel a.on false n.relays in
    carry n (switch_and_arm now a.channel a.on a.duration out.0 out.1) n.rules f (
      switch-Allowed n f now a.channel a.on other a.duration out.0 out.1
        (set-Allowed n f now a.channel a.on other))
act-Fine now radio a n f other =
    let out = Relay.set now a.channel a.on false n.relays in
    carry n _ _ f (
      unfold Leaves in
      relay-Leaves n f now a.channel a.on a.duration other out.0 out.1
        (set-Allowed n f now a.channel a.on other))

thread-Steady :
    (n : Node) (c id : ℕ)
    → check_channel c ≡ true
    → Fine n
    → Steady (Relay.auto_off c id n.relays).1
unfolding cancel_timer
thread-Steady n c id valid f = elim (thread-cases n.relays c id valid f.steady.works) [
  | inl same ↦ subst Steady (sym same) f.steady
  | inr (inl drops) ↦ subst Steady (sym drops) (set-Steady n.relays 0 c false false f.steady)
  | inr (inr forgets) ↦
      subst Steady (sym forgets) (record { works = f.steady.works; small = f.steady.small })
]

pub thread-Fine : (c id : ℕ) → check_channel c ≡ true → (n : Node) → Fine n → Fine (thread c id n)
unfolding thread
thread-Fine c id valid n f = carry n (Relay.auto_off c id n.relays).1 n.rules f (record {
  steady = thread-Steady n c id valid f;
  untouched = λ d. elim (Bool-cases (c == n.hold.driven_channel)) [
    | inr ne ↦
        thread-Untouched n.hold.driven_channel n.relays c id (real_channel n f d) valid ne
          f.steady.works f.steady.small
    | inl e ↦
        let here = (==_iff c n.hold.driven_channel).0 e in
        let idle =
          ap (λ (out : Outcome (Unit {0}) × Relays). out.1)
            (auto_off-none n.relays c id
              (subst (λ k. get k n.relays.timers ≡ none) (sym here) (f.stands d).untimed)) in
        subst (Untouched n.hold.driven_channel n.relays) (sym idle)
          (record { small = f.steady.small; coil = refl; timer = refl; line = refl })
  ];
})
