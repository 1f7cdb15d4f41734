-- ===== src/Node.antt =====
-- The parts of one unit that share its relay controller, as src/app/workers.py and src/main.py compose
-- them: the rules engine, the irrigation hold, and commands from outside.
pub mod Fine
pub mod Ownership
pub mod Steps
pub mod Threads
mod Tests
use wqm.Prelude.{
  ℕ, zero, suc, ◌≡◌, Bool, true, false, not, ◌&&◌, ◌||◌, Option, none, some, List, [], ◌∷◌, ◌++◌,
  contains, leb, ltb, ◌==◌, if◌then◌else◌, get_or, Outcome, returned, raised,
}
use wqm.Prelude.Texts.{String}
use wqm.Relay
use wqm.Relay.{Relays, check_channel}
use wqm.Rules.{Moment, Engine, set_suspended_sensors}
use wqm.Rules.Evaluate.{evaluate, command_relay, duration_of}
use wqm.Hold.Config.{HoldConfig}
use wqm.Hold.Scan.{Reading}
use wqm.Hold
use wqm.Hold.{Hold, configure, owns, reserved_channels}

-- A request for a relay whose check has passed, and which has not switched it yet: it came as a
-- command, with a duration in ticks, or over the radio, with one in seconds. No lock covers the two.
pub data Source : Type 0 where
  command radio : Source

pub record Ask : Type 0 where
  pub source : Source
  pub channel : ℕ
  pub on : Bool
  pub duration : ℕ

-- The controller is one object; the engines' own fields for it are set when they are called. `pass` is
-- the set of reserved channels that an evaluation of the rules under way has read.
pub record Node : Type 0 where
  pub relays : Relays
  pub rules : Engine
  pub hold : Hold
  pub under_way : List Ask
  pub pass : Option (List ℕ)

abbrev pub rules_of : Node → Engine
rules_of n = record n.rules { relay = some n.relays }

abbrev pub hold_of : Node → Hold
hold_of n = record n.hold { relays = some n.relays }

abbrev pub after_rules : Engine → Node → Node
after_rules e n = record n { relays = get_or e.relay n.relays; rules = e }

abbrev pub after_hold : Hold → Node → Node
after_hold h n = record n { relays = get_or h.relays n.relays; hold = h }

abbrev pub note_suspended : Option (List String) → Engine → Engine
note_suspended none e = e
note_suspended (some sensors) e = set_suspended_sensors sensors e

-- The part of a sampling cycle that acts: the rules, which first read what is reserved, then the hold
-- with fresh settings, then the hold's evaluation. Other threads may come between any two of these.
unfoldable pub starts_pass : Node → Node
starts_pass n = record n { pass = some (reserved_channels n.hold) }

-- The suspended sensors are none if the monitor raised.
abbrev pub end_with : Reading → Option (List String) → Moment → Option (List ℕ) → Node → Node
end_with reading suspended t none n = n
end_with reading suspended t (some reserved) n =
    after_rules (evaluate reserved reading t (note_suspended suspended (rules_of n))).1
      (record n { pass = none })

unfoldable pub ends_pass : Reading → Option (List String) → Moment → Node → Node
ends_pass reading suspended t n = end_with reading suspended t n.pass n

-- `configure` of the cycle and of `_reconfigure_hold`, each in its own thread.
unfoldable pub reload : ℕ → HoldConfig → Node → Node
reload now cfg n = after_hold (configure now cfg (hold_of n)) n

-- Without a monitor the hold is told that no sensors are suspended.
unfoldable pub sample_hold : Reading → Bool → Option (List String) → ℕ → ℕ → Node → Node
sample_hold reading monitored suspended now stamp n =
    after_hold
      (Hold.evaluate reading (if monitored then suspended else some []) now stamp (hold_of n)) n

abbrev pub ask : Ask → Node → Node
ask a n = record n { under_way = n.under_way ++ a ∷ [] }

-- The checks of `relay_set` in `_handle_cmd`, on an integer channel, a Boolean state and a duration that
-- is no less than zero, zero for none.
unfoldable pub check_command : ℕ → Bool → ℕ → Node → Node
check_command channel on duration n =
    if not (check_channel channel)
    then n
    else if owns channel n.hold
    then n
    else ask (record { source = command; channel = channel; on = on; duration = duration }) n

-- The checks of `process_downlink_command`, as the radio worker hands it a LoRaWAN downlink.
unfoldable pub check_downlink : ℕ → List ℕ → Node → Node
check_downlink fport (channel ∷ state ∷ rest) n =
    if not (fport == 100)
    then n
    else if not (leb 1 channel && leb channel 4)
    then n
    else if contains channel (reserved_channels n.hold)
    then n
    else ask
        (record {
          source = radio;
          channel = channel;
          on = not (state == 0);
          duration = duration_of rest;
        })
        n
check_downlink fport payload n = n

abbrev pub switch_and_arm : ℕ → ℕ → Bool → ℕ → Outcome (Unit {0}) → Relays → Relays
switch_and_arm now channel on duration (raised e) r = r
switch_and_arm now channel on duration (returned _) r =
    if on && ltb 0 duration then (Relay.arm_auto_off now channel duration r).1 else r

-- What comes after the checks: the relay is switched, and its timer is armed.
unfoldable pub act : ℕ → Source → Ask → Node → Node
act now command a n =
    let out = Relay.set now a.channel a.on false n.relays in
    record n { relays = switch_and_arm now a.channel a.on a.duration out.0 out.1 }
act now radio a n =
    let out = Relay.set now a.channel a.on false n.relays in
    after_rules (command_relay now a.channel a.on a.duration (rules_of n) out.0 out.1).1 n

unfoldable pub ask_at : ℕ → List Ask → Option Ask
ask_at i [] = none
ask_at zero (a ∷ asks) = some a
ask_at (suc i) (a ∷ asks) = ask_at i asks

unfoldable pub without : ℕ → List Ask → List Ask
without i [] = []
without zero (a ∷ asks) = asks
without (suc i) (a ∷ asks) = a ∷ without i asks

abbrev pub act_with : ℕ → ℕ → Option Ask → Node → Node
act_with now i none n = n
act_with now i (some a) n = act now a.source a (record n { under_way = without i n.under_way })

-- The request in that place acts, in any order.
unfoldable pub act_at : ℕ → ℕ → Node → Node
act_at now i n = act_with now i (ask_at i n.under_way) n

-- A timer's thread of the controller.
unfoldable pub thread : ℕ → ℕ → Node → Node
thread channel id n = record n { relays = (Relay.auto_off channel id n.relays).1 }

pub data Event : Type 0 where
  starts : Event
  ends : Reading → Option (List String) → Moment → Event
  reloads : ℕ → HoldConfig → Event
  samples : Reading → Bool → Option (List String) → ℕ → ℕ → Event
  commands : ℕ → Bool → ℕ → Event
  downlinks : ℕ → List ℕ → Event
  acts : ℕ → ℕ → Event
  threads : (channel id : ℕ) → check_channel channel ≡ true → Event

unfoldable pub happen : Event → Node → Node
happen starts n = starts_pass n
happen (ends reading suspended t) n = ends_pass reading suspended t n
happen (reloads now cfg) n = reload now cfg n
happen (samples reading monitored suspended now stamp) n =
    sample_hold reading monitored suspended now stamp n
happen (commands channel on duration) n = check_command channel on duration n
happen (downlinks fport payload) n = check_downlink fport payload n
happen (acts now i) n = act_at now i n
happen (threads channel id valid) n = thread channel id n

unfoldable pub live : List Event → Node → Node
live [] n = n
live (e ∷ es) n = live es (happen e n)
