-- ===== src/Commands/Tests.antt =====
-- The queued commands at concrete inputs.
use wqm.Prelude.{
  ℕ, ◌+◌, ◌≤◌, ◌≡◌, refl, true, false, none, some, [], ◌∷◌, arith, keep, leb, if◌then◌else◌,
}
use wqm.Prelude.Int.{pos}
use wqm.Prelude.Texts.{find}
use wqm.Commands.{
  Hardware, Call, returns, raises, no_calibration, PhPayload, start, analog, no_buffer,
}
use wqm.Commands.Setup.{Rs485Payload, add, address, no_address, no_flag}
use wqm.Commands.Dispatch.{
  Readings, Command, at, rs485_kind, Dispatcher, apply, evict_expired, answer, with_fields,
  with_kind, with_expiry, with_payload, carry_out,
}
use wqm.Commands.Spent.{delivers, restarts, Fair, Orderly, carried, live}
use wqm.Commands.Bounds.{Agree}
use wqm.Commands.Once.{carried_once, redelivered_same, ends}

-- A bus that counts the sensors added to it.
abbrev bus : Hardware ℕ ℕ
bus = record {
  read_ph_adc_volts = λ w. (returns (some (pos 2500000)), w);
  apply_analog_ph = λ v4 v7 w. (returns (v4, v7), w);
  calibrate_rs485_ph_point = λ b w. (returns tt, w);
  rs485_add = λ name n w. (returns (w + 1), w + 1);
  rs485_set_address = λ name a b w. (returns w, w);
  rs485_set_enabled = λ name a on w. (raises "no bus", w);
}

abbrev ph : PhPayload
ph = record { extra = none; step = some start; probe = some analog; buffer = no_buffer }

abbrev rs485 : Rs485Payload
rs485 = record {
  extra = none;
  op = some add;
  sensor = some "RD-ORP-WE-01";
  sensor_address = address (pos 3);
  new_address = no_address;
  enabled = no_flag;
}

abbrev command : Command
command = record {
  id = some "a7";
  extra = none;
  kind = some rs485_kind;
  expires = at 5000;
  payload = some (record { ph = ph; rs485 = rs485 });
}

abbrev empty : Dispatcher ℕ ℕ
empty = record { calibration = no_calibration; handled = []; cache = []; world = 0 }

abbrev soon : Readings
soon = record { evicts = 1000; asks = 1000; checks = 1001; stores = 1400 }

abbrev later : Readings
later = record { evicts = 2000; asks = 2000; checks = 2001; stores = 2002 }

soon-Fair : Fair "a7" 5000 1000 soon true command
soon-Fair = record {
  first = omega arith;
  second = omega arith;
  third = omega arith;
  fourth = omega arith;
  written = refl;
  same_expiry = λ e. refl;
}

later-Fair : Fair "a7" 5000 1400 later true command
later-Fair = record {
  first = omega arith;
  second = omega arith;
  third = omega arith;
  fourth = omega arith;
  written = refl;
  same_expiry = λ e. refl;
}

orderly :
    Orderly "a7" 5000 1000
      (delivers soon true command ∷ restarts ∷ delivers later true command ∷ [])
unfolding Orderly
orderly = (soon-Fair, (later-Fair, tt))

carried_once_example :
    carried bus "a7"
      (delivers soon true command ∷ restarts ∷ delivers later true command ∷ [])
      empty
    ≤ 1
carried_once_example =
    carried_once bus "a7" 5000
      (delivers soon true command ∷ restarts ∷ delivers later true command ∷ []) 1000 empty orderly

runs : (apply bus soon true command empty).carried_out ≡ true
unfolding answer with_fields with_kind with_expiry with_payload carry_out evict_expired keep find
runs = refl

restart_only : Orderly "a7" 5000 1400 (restarts ∷ [])
unfolding Orderly
restart_only = tt

in_order : ends 1400 (restarts ∷ []) ≤ 2000
unfolding ends
in_order = omega arith

-- A bus that refuses an address that is too high.
abbrev strict_bus : Hardware ℕ ℕ
strict_bus = record bus {
  rs485_add = λ name n w. if leb n 247 then (returns (w + 1), w + 1) else (raises "bad address", w);
}

allowed :
    (n w : ℕ)
    → n ≤ 247
    → ◌≡◌ {A = Call ℕ × ℕ}
        (returns (w + 1), w + 1)
        (if leb n 247 then (returns (w + 1), w + 1) else (raises "bad address", w))
allowed n w high = ground arith

buses-Agree : Agree bus strict_bus
buses-Agree = record {
  adds = λ name n w known low high. allowed n w high;
  moves = λ name n k w known low high low' high'. refl;
  switches = λ name on w known. refl;
  switches_at = λ name n on w known low high. refl;
}

redelivered_same_example :
    let first = apply bus soon true command empty in
    let d' = live bus (restarts ∷ []) first.after in
    let again = apply bus later true command d' in
    (again.outcome ≡ first.outcome) × (again.carried_out ≡ false) × (again.after.world ≡ d'.world)
redelivered_same_example =
    redelivered_same bus "a7" 5000 1000 soon true command (restarts ∷ []) later true command empty
      soon-Fair refl runs restart_only refl in_order (omega arith)
