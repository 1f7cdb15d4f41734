-- ===== src/Relay.antt =====
-- The four-channel relay controller of src/control/relay.py. A method takes the time of its call
-- (a count of ticks, the unit of every duration here; `threading.Timer` counts from there) and
-- returns the controller it leaves behind, also when it raises. The GPIO facade is the parameter
-- `answers` of the port: its k-th write raises where `answers k` is false. The lock makes each
-- method one step; `Relay.Steps` interleaves them with the timer threads.
mod Bits
unfoldable pub use Bits.{set_bit, clear_bit, test_bit}
pub use Bits.{test-set, test-clear, set-lt, clear-lt}
pub mod Methods
pub mod Others
pub mod Threads
pub mod Steps
mod Tests
use wqm.Prelude.{
  ℕ, ◌+◌, ◌-◌, ◌<◌, ◌≡◌, min, Bool, true, false, not, ◌&&◌, Option, none, some, List, [], ◌∷◌,
  Outcome, returned, raised, value_error, io_error, ltb, leb, ◌==◌, if◌then◌else◌, get_elem?,
  get_or,
}
use wqm.Prelude.Dict.{Dict, get, put, remove}

-- The GPIO lines, with how many writes they have seen.
pub record Io : Type 0 where
  pub answers : ℕ → Bool
  pub writes : ℕ
  pub level : ℕ → Bool

-- `HostGpio.write`: a write that raises leaves the line as it was.
unfoldable pub write : ℕ → Bool → Io → Bool × Io
write pin on io =
    let seen = record io { writes = io.writes + 1 } in
    if io.answers io.writes
    then (true, record seen { level = λ p. if p == pin then on else io.level p })
    else (false, seen)

-- A started `threading.Timer`; `id` stands for the thread.
pub record Timer : Type 0 where
  pub id : ℕ
  pub due : ℕ

pub record Relays : Type 0 where
  pub io : Io
  pub state : ℕ
  pub timers : Dict Timer
  pub next_id : ℕ
  pub max_on : ℕ

-- RELAY_PINS of utils/config.py
abbrev pub relay_pins : List ℕ
relay_pins = 17 ∷ 27 ∷ 22 ∷ 23 ∷ []

abbrev pub pin_of : ℕ → ℕ
pin_of channel = get_or (get_elem? relay_pins (channel - 1)) 0

abbrev pub check_channel : ℕ → Bool
check_channel channel = leb 1 channel && leb channel 4

-- `get` on a channel that was checked
unfoldable pub is_on : ℕ → Relays → Bool
is_on channel r = test_bit r.state (channel - 1)

unfoldable pub cancel_timer : ℕ → Relays → Relays
cancel_timer channel r = record r { timers = remove channel r.timers }

unfoldable pub arm : ℕ → ℕ → ℕ → Relays → Relays
unfolding cancel_timer
arm now channel seconds r =
    let r' = cancel_timer channel r in
    record r' {
      timers = put channel (record { id = r.next_id; due = now + seconds }) r'.timers;
      next_id = r.next_id + 1;
    }

-- What `set` does after the write.
unfoldable pub note_set : ℕ → ℕ → Bool → Bool → Relays → Relays
unfolding arm cancel_timer
note_set now channel on unbounded r =
    let bits = if on then set_bit r.state (channel - 1) else clear_bit r.state (channel - 1) in
    let r' = cancel_timer channel (record r { state = bits }) in
    if on && ltb 0 r.max_on && not unbounded then arm now channel r.max_on r' else r'

unfoldable pub set : ℕ → ℕ → Bool → Bool → Relays → Outcome (Unit {0}) × Relays
unfolding note_set write
set now channel on unbounded r =
    if check_channel channel
    then (let (done, io') = write (pin_of channel) on r.io in
        let r' = record r { io = io' } in
        if done then (returned tt, note_set now channel on unbounded r') else (raised io_error, r'))
    else (raised value_error, r)

-- The seconds that `arm_auto_off` arms for a channel that is on.
unfoldable pub bounded_seconds : ℕ → ℕ → ℕ
bounded_seconds max_on seconds = if ltb 0 max_on then min seconds max_on else seconds

unfoldable pub arm_auto_off : ℕ → ℕ → ℕ → Relays → Outcome ℕ × Relays
unfolding arm is_on bounded_seconds
arm_auto_off now channel duration r =
    if check_channel channel
    then if duration == 0
      then (returned 0, r)
      else if is_on channel r
      then (let seconds = bounded_seconds r.max_on duration in
          (returned seconds, arm now channel seconds r))
      else (returned 0, r)
    else (raised value_error, r)

-- What `_auto_off` does when its thread is still the channel's timer.
unfoldable pub expire : ℕ → Relays → Outcome (Unit {0}) × Relays
unfolding is_on cancel_timer write
expire channel r =
    let r' = cancel_timer channel r in
    if is_on channel r'
    then (let (done, io') = write (pin_of channel) false r'.io in
        if done
        then (returned tt, record r' { io = io'; state = clear_bit r'.state (channel - 1) })
        else (raised io_error, record r' { io = io' }))
    else (returned tt, r')

-- `_auto_off`, run by the thread `id`.
unfoldable pub auto_off : ℕ → ℕ → Relays → Outcome (Unit {0}) × Relays
unfolding expire
auto_off channel id r = elim (get channel r.timers) [
  | none ↦ (returned tt, r)
  | some t ↦ if t.id == id then expire channel r else (returned tt, r)
]

unfoldable pub pending_auto_off : ℕ → Relays → Bool
pending_auto_off channel r = elim (get channel r.timers) [ none ↦ false | some _ ↦ true ]

abbrev cancel_all : Relays → Relays
cancel_all r = cancel_timer 4 (cancel_timer 3 (cancel_timer 2 (cancel_timer 1 r)))

-- The loop of `all_off` over the pins: the first write that raises ends it.
unfoldable pub write_low : List ℕ → Io → Bool × Io
unfolding write
write_low [] io = (true, io)
write_low (pin ∷ pins) io =
    let (done, io') = write pin false io in
    let rest = write_low pins io' in if done then rest else (false, io')

unfoldable pub all_off : Relays → Outcome (Unit {0}) × Relays
unfolding cancel_timer write_low
all_off r =
    let r' = cancel_all r in
    let (done, io') = write_low relay_pins r'.io in
    if done
    then (returned tt, record r' { io = io'; state = 0 })
    else (raised io_error, record r' { io = io' })

-- The loop of `cleanup`: what a write raises is suppressed.
unfoldable pub release_pins : List ℕ → Io → Io
unfolding write
release_pins [] io = io
release_pins (pin ∷ pins) io = release_pins pins (write pin false io).1

unfoldable pub cleanup : Relays → Relays
unfolding cancel_timer release_pins
cleanup r = let r' = cancel_all r in record r' { io = release_pins relay_pins r'.io; state = 0 }

-- `__init__`, over lines that come up low.
unfoldable pub init : (ℕ → Bool) → ℕ → Relays
init answers max_on = record {
  io = record { answers = answers; writes = 0; level = λ _. false };
  state = 0;
  timers = [];
  next_id = 0;
  max_on = max_on;
}
