-- ===== src/Hold.antt =====
-- The irrigation hold of src/control/irrigation_hold.py. A method returns the engine it leaves
-- behind; the relay controller that it drives is a field, as in the source. Time is in ticks of a
-- millisecond, `stamp` is the wall clock's answer where the source formats it, and a reading or a
-- threshold is a decimal of four places (`Prelude.Int`). Logging is left out.
pub mod Config
pub mod Scan
pub mod Drive
pub mod Invariant
pub mod Safety
pub mod Owned
pub mod Standing
pub mod Timing
mod Tests
use wqm.Prelude.{
  ℕ, suc, ◌-◌, ◌≡◌, Bool, true, false, not, ◌&&◌, ◌||◌, Option, none, some, List, [], ◌∷◌, leb, ltb,
  ◌==◌, if◌then◌else◌, get_or, Outcome, returned, raised,
}
use wqm.Prelude.Texts.{String}
use wqm.Relay
use wqm.Relay.{Relays}
use Config.{HoldConfig, OnFault, release, hold, armed, conflict, same_config, default_config}
use Scan.{Reason, Reading, scan, or_reasons, is_some_reason, bool_ne}

pub data Fault : Type 0 where
  released held : Fault

pub record Hold : Type 0 where
  pub relays : Option Relays
  pub cfg : HoldConfig
  pub configured : Bool
  pub holding : Bool
  pub driven : Bool
  pub driven_channel : ℕ
  pub trip_count : ℕ
  pub clear_since : Option ℕ
  pub since : Option ℕ
  pub reasons : List Reason
  pub fault : Option Fault
  pub last_suspended : List String

-- `__init__`
abbrev pub init : Option Relays → Hold
init relays = record {
  relays = relays;
  cfg = default_config;
  configured = false;
  holding = false;
  driven = false;
  driven_channel = 0;
  trip_count = 0;
  clear_since = none;
  since = none;
  reasons = [];
  fault = none;
  last_suspended = [];
}

unfoldable pub reset : Hold → Hold
reset h = record h {
  holding = false;
  trip_count = 0;
  clear_since = none;
  since = none;
  reasons = [];
  fault = none;
}

-- The channel that `_drive` switches.
abbrev pub drive_channel : Bool → Hold → ℕ
drive_channel on h =
    if on then h.cfg.relay else if h.driven_channel == 0 then h.cfg.relay else h.driven_channel

-- The `try` of `_drive`: what the relay controller raises leaves the engine as it was.
abbrev pub note_drive : Bool → ℕ → Outcome (Unit {0}) → Hold → Hold
note_drive on channel (returned _) h = record h {
  driven = on;
  driven_channel = if on then channel else 0;
}
note_drive on channel (raised _) h = h

abbrev pub drive_with : ℕ → Bool → Hold → Option Relays → Hold
drive_with now on h none = h
drive_with now on h (some r) =
    let channel = drive_channel on h in
    if Relay.check_channel channel
    then (let (out, r') = Relay.set now channel on on r in
        note_drive on channel out (record h { relays = some r' }))
    else h

unfoldable pub drive : ℕ → Bool → Hold → Hold
drive now on h = drive_with now on h h.relays

-- `configure` on a snapshot that `from_settings` has taken: letting go of the old channel …
unfoldable pub let_go : ℕ → HoldConfig → HoldConfig → Hold → Hold
unfolding drive reset
let_go now old cfg h =
    if h.driven && (not (armed cfg) || not (cfg.relay == h.driven_channel))
    then reset (drive now false h)
    else if not (armed cfg) || not (cfg.relay == old.relay)
    then reset h
    else h

-- … and taking the new one over, released.
unfoldable pub take_over : ℕ → HoldConfig → HoldConfig → Hold → Hold
unfolding drive
take_over now old cfg h =
    if armed cfg && (not (armed old) || not (cfg.relay == old.relay)) then drive now false h else h

unfoldable pub configure : ℕ → HoldConfig → Hold → Hold
configure now cfg h =
    if h.configured && same_config cfg h.cfg
    then h
    else take_over now h.cfg cfg (let_go now h.cfg cfg (record h { cfg = cfg; configured = true }))

unfoldable pub owns : ℕ → Hold → Bool
owns channel h = armed h.cfg && channel == h.cfg.relay

unfoldable pub reserved_channels : Hold → List ℕ
reserved_channels h = if armed h.cfg then h.cfg.relay ∷ [] else []

-- The three branches of `evaluate` on what the scan of the conditions found.
unfoldable pub on_unknown : Hold → Hold
unfolding reset
on_unknown h = record (reset h) { fault = some released }

unfoldable pub on_tripping : ℕ → List Reason → Bool → Hold → Hold
on_tripping stamp tripping unknown h =
    let count = suc h.trip_count in
    let engage = not h.holding && leb h.cfg.trip_samples count in
    record h {
      trip_count = count;
      clear_since = none;
      reasons = or_reasons tripping h.reasons;
      holding = h.holding || engage;
      since = if engage then some stamp else h.since;
      fault = if unknown && (h.holding || engage) then some held else none;
    }

unfoldable pub on_clear : ℕ → Hold → Hold
unfolding reset
on_clear now h =
    let h' = record h { trip_count = 0; fault = none } in
    if h.holding
    then (let first = get_or h.clear_since now in
        if leb h.cfg.release (now - first)
        then reset h'
        else record h' { clear_since = some first })
    else h'

abbrev pub is_release : OnFault → Bool
is_release release = true
is_release hold = false

unfoldable pub judge : ℕ → ℕ → List Reason × Bool → Hold → Hold
unfolding on_unknown on_tripping on_clear
judge now stamp (tripping, unknown) h =
    if unknown && is_release h.cfg.on_fault
    then on_unknown h
    else if is_some_reason tripping || unknown
    then on_tripping stamp tripping unknown h
    else on_clear now h

-- The last lines of `evaluate`: the coil follows the logical state.
unfoldable pub follow : ℕ → Hold → Hold
unfolding drive
follow now h = if bool_ne h.holding h.driven then drive now h.holding h else h

-- A release that failed is tried again before anything else.
unfoldable pub retry : ℕ → Hold → Hold
unfolding drive
retry now h =
    if h.driven && (not (armed h.cfg) || not (h.driven_channel == h.cfg.relay))
    then drive now false h
    else h

unfoldable pub evaluate : Reading → Option (List String) → ℕ → ℕ → Hold → Hold
evaluate reading suspended now stamp h =
    let h' = retry now (record h { last_suspended = get_or suspended h.last_suspended }) in
    if armed h'.cfg
    then follow now (judge now stamp (scan reading h'.last_suspended h'.cfg.thresholds) h')
    else h'
