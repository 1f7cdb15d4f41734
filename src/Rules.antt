-- ===== src/Rules.antt =====
-- The rules engine of src/control/rules.py. A method takes the moment of its call and, where the
-- source asks the installed provider, the provider's answer: the reserved channels. It returns the
-- engine that it leaves behind; the relay controller is a field. Time is in ticks of a millisecond,
-- and the clocks stand still during one call. `_set_aside` serves the log alone and is left out.
pub mod Rule
pub mod Evaluate
pub mod Later
pub mod Safety
pub mod Grants
mod Coils
pub mod Reserved
pub mod Wired
pub mod Release
mod Tests
use wqm.Prelude.{
  ℕ, ◌+◌, ◌-◌, ◌*◌, Bool, true, false, not, ◌&&◌, ◌||◌, Option, none, some, List, [], ◌∷◌, ◌++◌,
  leb, ltb, ◌==◌, if◌then◌else◌, get_or, get_elem?, drop, contains, keep, Outcome, returned, raised,
  map,
}
use wqm.Prelude.Dict
use wqm.Prelude.Dict.{Dict}
use wqm.Prelude.Int.{ℤ}
use wqm.Prelude.Texts.{String, find, has_name}
use wqm.Relay
use wqm.Relay.{Relays}
use Rule.{Profile, fires, acceptable, sensor_to_column}

-- The clocks: monotonic ticks, ticks since local midnight, the local and the UTC hour.
pub record Moment : Type 0 where
  pub mono : ℕ
  pub time_of_day : ℕ
  pub hour : ℕ
  pub utc_hour : ℕ

abbrev pub Action : Type 0
Action = ℕ × Bool

pub record Engine : Type 0 where
  pub relay : Option Relays
  pub rules : List Rule.Rule
  pub timers : Dict ℕ
  pub schedule_enabled : Bool
  pub schedule_start : Option ℕ
  pub schedule_end : Option ℕ
  pub cooldown : ℕ
  pub max_on_per_hour : ℕ
  pub max_continuous_on_s : ℕ
  pub manual_override : Bool
  pub last_off : Dict ℕ
  pub on_time : Dict (ℕ × ℕ)
  pub on_since : Dict ℕ
  pub suspended : List String
  pub pending_failsafe : List ℕ
  pub baselines : Profile

abbrev pub init : Option Relays → Engine
init relay = record {
  relay = relay;
  rules = [];
  timers = [];
  schedule_enabled = false;
  schedule_start = none;
  schedule_end = none;
  cooldown = 0;
  max_on_per_hour = 0;
  max_continuous_on_s = 0;
  manual_override = false;
  last_off = [];
  on_time = [];
  on_since = [];
  suspended = [];
  pending_failsafe = [];
  baselines = [];
}

-- A set of channels is a strictly rising list, as `sorted` gives it.
unfoldable pub add_channel : ℕ → List ℕ → List ℕ
add_channel c [] = c ∷ []
add_channel c (d ∷ ds) =
    let rest = d ∷ add_channel c ds in
    if ltb c d then c ∷ d ∷ ds else if c == d then d ∷ ds else rest

abbrev to_column : String → String
to_column s = get_or (find s sensor_to_column) s

unfoldable pub columns_of : List String → List String
unfolding find
columns_of [] = []
columns_of (s ∷ ss) = to_column s ∷ columns_of ss

-- The channels of the rules whose sensor is in `columns` and was not in `old`.
unfoldable pub queue_newly : List String → List String → List Rule.Rule → List ℕ → List ℕ
unfolding has_name add_channel
queue_newly columns old [] pending = pending
queue_newly columns old (r ∷ rs) pending =
    let rest = queue_newly columns old rs pending in
    if has_name r.sensor columns && not (has_name r.sensor old)
    then add_channel r.relay rest
    else rest

unfoldable pub set_suspended_sensors : List String → Engine → Engine
unfolding columns_of queue_newly
set_suspended_sensors sensors e =
    let columns = columns_of sensors in
    record e {
      pending_failsafe = queue_newly columns e.suspended e.rules e.pending_failsafe;
      suspended = columns;
    }

-- policies.yaml; the two "HH:MM" texts as hours and minutes
pub record Policies : Type 0 where
  pub enabled : Bool
  pub start : ℕ × ℕ
  pub end_ : ℕ × ℕ
  pub cooldown_seconds : ℕ
  pub max_on_minutes_per_hour : ℕ
  pub max_continuous_on_minutes : ℕ
  pub override : Bool

abbrev second : ℕ
second = 1000

abbrev day_time : ℕ × ℕ → ℕ
day_time (h, m) = (h * 60 + m) * 60 * second

unfoldable pub load_policies : Policies → Engine → Engine
load_policies p e =
    let e' =
      (if p.enabled
        then record e {
          schedule_enabled = true;
          schedule_start = some (day_time p.start);
          schedule_end = some (day_time p.end_);
        }
        else e) in
    record e' {
      cooldown = p.cooldown_seconds * second;
      max_on_per_hour = p.max_on_minutes_per_hour * 60 * second;
      max_continuous_on_s = p.max_continuous_on_minutes * 60;
      manual_override = p.override;
    }

unfoldable pub add_rule : Rule.Rule → Engine → Engine
unfolding acceptable
add_rule rule e = if acceptable rule then record e { rules = e.rules ++ rule ∷ [] } else e

abbrev add_rules : List Rule.Rule → Engine → Engine
add_rules [] e = e
add_rules (r ∷ rs) e = add_rules rs (add_rule r e)

-- The loop over rules that their dicts have been read into.
unfoldable pub load_rules : List Rule.Rule → Engine → Engine
unfolding add_rule
load_rules rs e = add_rules rs (record e { rules = [] })

-- The window, with both ends in it; it may run over midnight.
abbrev in_window : Option ℕ → Option ℕ → ℕ → Bool
in_window none finish now = true
in_window (some start) none now = true
in_window (some start) (some finish) now =
    if leb start finish then leb start now && leb now finish else leb start now || leb now finish

unfoldable pub is_in_schedule : Moment → Engine → Bool
is_in_schedule t e =
    if e.schedule_enabled then in_window e.schedule_start e.schedule_end t.time_of_day else true

abbrev cooling : ℕ → ℕ → Option ℕ → Bool
cooling cooldown now none = false
cooling cooldown now (some last) = ltb (now - last) cooldown

unfoldable pub is_in_cooldown : Moment → ℕ → Engine → Bool
is_in_cooldown t relay e =
    if e.cooldown == 0 then false else cooling e.cooldown t.mono (Dict.get relay e.last_off)

abbrev pub spent_this_hour : ℕ → Option (ℕ × ℕ) → Option ℕ
spent_this_hour hour none = none
spent_this_hour hour (some (h, s)) = if h == hour then some s else none

-- The check also opens a new hour's account.
unfoldable pub check_on_time_budget : Moment → ℕ → Engine → Bool × Engine
check_on_time_budget t relay e =
    if e.max_on_per_hour == 0
    then (true, e)
    else elim (spent_this_hour t.hour (Dict.get relay e.on_time)) [
      | none ↦ (true, record e { on_time = Dict.put relay (t.hour, 0) e.on_time })
      | some s ↦ (ltb s e.max_on_per_hour, e)
    ]

unfoldable pub accumulate_on_time : Moment → ℕ → ℕ → Engine → Engine
accumulate_on_time t relay ticks e = if e.max_on_per_hour == 0 then e else record e {
  on_time =
      Dict.put relay (t.hour, get_or (spent_this_hour t.hour (Dict.get relay e.on_time)) 0 + ticks)
        e.on_time;
}

-- The loop over `list(self._on_since.items())`.
unfoldable pub accumulate_all : Moment → Dict ℕ → Engine → Engine
unfolding accumulate_on_time
accumulate_all t [] e = e
accumulate_all t ((relay, since) ∷ rest) e =
    let e' = accumulate_on_time t relay (t.mono - since) e in
    accumulate_all t rest (record e' { on_since = Dict.put relay t.mono e'.on_since })

-- A channel that was let go: remembered for the cooldown, forgotten for the on-time.
unfoldable pub note_off : ℕ → ℕ → Engine → Engine
note_off now channel e = record e {
  last_off = Dict.put channel now e.last_off;
  on_since = Dict.remove channel e.on_since;
}

unfoldable pub drop_timer : ℕ → Engine → Engine
drop_timer channel e = record e { timers = Dict.remove channel e.timers }

-- The sweep of `_expire_timers`, over a copy of the timers.
unfoldable pub sweep : ℕ → Dict ℕ → Engine → List Action × Engine
unfolding note_off drop_timer
sweep now [] e = ([], e)
sweep now ((channel, deadline) ∷ rest) e =
    if leb deadline now
    then (let (actions, e') = sweep now rest (drop_timer channel (note_off now channel e)) in
        ((channel, false) ∷ actions, e'))
    else sweep now rest e

unfoldable pub forget_reserved : List ℕ → Dict ℕ → Dict ℕ
forget_reserved reserved [] = []
forget_reserved reserved ((channel, deadline) ∷ rest) =
    let kept = forget_reserved reserved rest in
    if contains channel reserved then kept else (channel, deadline) ∷ kept

unfoldable pub expire_timers : List ℕ → ℕ → Engine → List Action × Engine
expire_timers reserved now e =
    let timers = forget_reserved reserved e.timers in
    sweep now timers (record e { timers = timers })

abbrev is_free : List ℕ → ℕ → Bool
is_free reserved channel = not (contains channel reserved)

-- The loop of `_revert_suspended_to_failsafe`.
unfoldable pub revert : ℕ → List ℕ → Engine → List Action × Engine
unfolding note_off drop_timer
revert now [] e = ([], e)
revert now (channel ∷ rest) e =
    let (actions, e') = revert now rest (drop_timer channel (note_off now channel e)) in
    ((channel, false) ∷ actions, e')

unfoldable pub revert_suspended_to_failsafe : List ℕ → ℕ → Engine → List Action × Engine
revert_suspended_to_failsafe reserved now e =
    revert now (keep (is_free reserved) e.pending_failsafe) (record e { pending_failsafe = [] })
