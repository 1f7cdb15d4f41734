-- ===== src/Rules/Evaluate.antt =====
-- `evaluate`, `_apply` and `process_downlink_command` of src/control/rules.py.
use wqm.Prelude.{
  ℕ, ◌+◌, ◌*◌, Bool, true, false, not, ◌&&◌, ◌||◌, Option, none, some, List, [], ◌∷◌, ◌++◌, leb,
  ltb, ◌==◌, if◌then◌else◌, get_or, contains, Outcome, returned, raised,
}
use wqm.Prelude.Dict
use wqm.Prelude.Dict.{Dict}
use wqm.Prelude.Int.{ℤ}
use wqm.Prelude.Texts.{String, has_name}
use wqm.Relay
use wqm.Relay.{Relays}
use wqm.Rules.{
  Moment, Action, Engine, is_in_schedule, is_in_cooldown, check_on_time_budget, accumulate_all,
  note_off, expire_timers, revert_suspended_to_failsafe,
}
use wqm.Rules.Rule.{Rule, fires}

-- What the loop over the rules carries: the engine, the actions so far and their durations.
pub record Pass : Type 0 where
  pub engine : Engine
  pub actions : List Action
  pub durations : Dict ℕ

-- Seconds in ticks.
abbrev pub ticks : ℕ → ℕ
ticks s = s * 1000

-- `if rule.relay not in self._on_since`
unfoldable pub track_on : ℕ → ℕ → Engine → Engine
track_on now relay e = elim (Dict.get relay e.on_since) [
  | none ↦ record e { on_since = Dict.put relay now e.on_since }
  | some _ ↦ e
]

abbrev push : Action → Pass → Pass
push a p = record p { actions = p.actions ++ a ∷ [] }

abbrev with_timer : Moment → Rule → Pass → Pass
with_timer t rule p =
    if ltb 0 rule.duration_s
    then record p {
      engine = record p.engine {
        timers = Dict.put rule.relay (t.mono + ticks rule.duration_s) p.engine.timers;
      };
      durations = Dict.put rule.relay rule.duration_s p.durations;
    }
    else p

-- A rule that fires to switch its relay on, past the two guards.
unfoldable pub switch_on : Moment → Rule → Pass → Pass
unfolding track_on
switch_on t rule p =
    if is_in_cooldown t rule.relay p.engine
    then p
    else (let (budget, e) = check_on_time_budget t rule.relay p.engine in
        let p' = record p { engine = e } in
        if budget
        then with_timer t rule
            (push (rule.relay, true) (record p { engine = track_on t.mono rule.relay e }))
        else p')

unfoldable pub switch_off : Moment → Rule → Pass → Pass
unfolding note_off
switch_off t rule p =
    push (rule.relay, false) (record p { engine = note_off t.mono rule.relay p.engine })

-- One turn of the loop.
unfoldable pub run_rule : List ℕ → List (String × ℤ) → Moment → Rule → Pass → Pass
run_rule reserved reading t rule p =
    if contains rule.relay reserved
    then p
    else if has_name rule.sensor p.engine.suspended
    then p
    else if fires p.engine.baselines t.utc_hour reading rule
    then if rule.action_on then switch_on t rule p else switch_off t rule p
    else p

unfoldable pub run_rules : List ℕ → List (String × ℤ) → Moment → List Rule → Pass → Pass
run_rules reserved reading t [] p = p
run_rules reserved reading t (rule ∷ rules) p =
    run_rules reserved reading t rules (run_rule reserved reading t rule p)

-- `_arm_relay_timer` after a `set` that returned; what either raises is logged.
abbrev pub arm_after : ℕ → Action → Dict ℕ → Outcome (Unit {0}) → Relays → Relays
arm_after now (channel, on) durations (raised _) r = r
arm_after now (channel, on) durations (returned _) r =
    let seconds = get_or (Dict.get channel durations) 0 in
    if on && ltb 0 seconds then (Relay.arm_auto_off now channel (ticks seconds) r).1 else r

unfoldable pub apply_one : ℕ → Dict ℕ → Action → Relays → Relays
apply_one now durations (channel, on) r =
    let (out, r') = Relay.set now channel on false r in arm_after now (channel, on) durations out r'

unfoldable pub apply_all : ℕ → Dict ℕ → List Action → Relays → Relays
apply_all now durations [] r = r
apply_all now durations (a ∷ as') r = apply_all now durations as' (apply_one now durations a r)

abbrev pub apply_relay : ℕ → Dict ℕ → List Action → Option Relays → Option Relays
apply_relay now durations actions none = none
apply_relay now durations actions (some r) = some (apply_all now durations actions r)

-- `_apply`
unfoldable pub apply : ℕ → Dict ℕ → List Action → Engine → List Action × Engine
apply now durations actions e =
    (actions, record e { relay = apply_relay now durations actions e.relay })

-- The two de-energising sweeps that come before the guards.
unfoldable pub release_first : List ℕ → Moment → Engine → List Action × Engine
release_first reserved t e =
    let (reverted, e1) = revert_suspended_to_failsafe reserved t.mono e in
    let (expired, e2) = expire_timers reserved t.mono e1 in (reverted ++ expired, e2)

unfoldable pub evaluate : List ℕ → List (String × ℤ) → Moment → Engine → List Action × Engine
evaluate reserved reading t e =
    let (first, e1) = release_first reserved t e in
    if not (is_in_schedule t e1) || e1.manual_override
    then apply t.mono [] first e1
    else (let p =
          run_rules reserved reading t e1.rules (record {
            engine = accumulate_all t e1.on_since e1;
            actions = first;
            durations = [];
          }) in
        apply t.mono p.durations p.actions p.engine)

-- The four bytes of a relay command on FPort 100.
abbrev pub duration_of : List ℕ → ℕ
duration_of (high ∷ low ∷ _) = high * 256 + low
duration_of _ = 0

abbrev pub command_relay :
    ℕ → ℕ → Bool → ℕ → Engine → Outcome (Unit {0}) → Relays → Outcome Bool × Engine
command_relay now channel on duration e (raised x) r = (raised x, record e { relay = some r })
command_relay now channel on duration e (returned _) r =
    if on && ltb 0 duration
    then (
      returned true,
      record e {
        relay = some (Relay.arm_auto_off now channel (ticks duration) r).1;
        timers = Dict.put channel (now + ticks duration) e.timers;
      },
    )
    else (returned true, record e { relay = some r })

abbrev pub command : List ℕ → ℕ → ℕ → Bool → ℕ → Engine → Outcome Bool × Engine
command reserved now channel on duration e =
    if not (leb 1 channel && leb channel 4)
    then (returned false, e)
    else if contains channel reserved
    then (returned false, e)
    else elim e.relay [
      | none ↦ (returned true, e)
      | some r ↦
          let (out, r') = Relay.set now channel on false r in
          command_relay now channel on duration e out r'
    ]

unfoldable pub process_downlink_command : List ℕ → ℕ → ℕ → List ℕ → Engine → Outcome Bool × Engine
process_downlink_command reserved now fport (channel ∷ state ∷ rest) e =
    if fport == 100
    then command reserved now channel (not (state == 0)) (duration_of rest) e
    else (returned false, e)
process_downlink_command reserved now fport payload e = (returned false, e)
