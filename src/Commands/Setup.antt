-- ===== src/Commands/Setup.antt =====
-- The two commands of src/cloud/device_commands.py: the pH calibration and the RS485 sensors. A call of
-- the hardware that raises ends the command as rejected, with what was stored before it.
use wqm.Prelude.{
  ℕ, ◌⊎◌, inl, inr, Bool, true, false, ◌&&◌, Option, none, some, List, [], ◌∷◌, ◌++◌, leb, ltb,
  if◌then◌else◌,
}
use wqm.Prelude.Int.{ℤ, pos, negsuc, ◌-ℤ◌, abs, eq_ℤ}
use wqm.Prelude.Texts.{String, has_name}
use wqm.Commands.{
  Message, CommandOutcome, refuse, accept, Call, raises, returns, Hardware, Calibration, PhPayload,
  Step, start, point, finish, Probe, analog, rs485_multi, Buffer, Done, points, fitted, sensors,
  buffer_fault, value_of, has_buffer, is_started, sort, steady, stored_points, sample, has_ℤ,
  unexpected, failure, unknown_step, unknown_probe, buffer_not_here, not_started, not_stable,
  missing_points, too_close, started, point_stored, calibration_applied, unknown_op, bad_sensor,
  bad_enabled, must_enable, must_disable, sensor_added, address_set, sensor_enabled,
  sensor_disabled, address_missing, address_no_number, non_finite, address_fraction, address_range,
}

pub data Address : Type 0 where
  no_address address_text address_infinite address_part : Address
  address : ℤ → Address

-- `_modbus_addr`
unfoldable pub modbus_addr : String → Address → Message ⊎ ℕ
modbus_addr key no_address = inl (address_missing key)
modbus_addr key address_text = inl (address_no_number key)
modbus_addr key address_infinite = inl non_finite
modbus_addr key address_part = inl (address_fraction key)
modbus_addr key (address (negsuc n)) = inl (address_range key)
modbus_addr key (address (pos n)) = if leb 1 n && leb n 247 then inr n else inl (address_range key)

pub data Op : Type 0 where
  add set_address enable disable : Op

pub data Flag : Type 0 where
  no_flag flag_other : Flag
  flag : Bool → Flag

pub record Rs485Payload : Type 0 where
  pub extra : Option String
  pub op : Option Op
  pub sensor : Option String
  pub sensor_address : Address
  pub new_address : Address
  pub enabled : Flag

abbrev pub allowed_sensors : List String
allowed_sensors = "residual_chlorine" ∷ "RD-ORP-WE-01" ∷ "RD-PETSTS-01" ∷ []

-- The flag that contradicts the operation, or is none.
unfoldable pub flag_fault : Bool → Flag → Option Message
flag_fault on no_flag = none
flag_fault on flag_other = some bad_enabled
flag_fault true (flag false) = some must_enable
flag_fault true (flag true) = none
flag_fault false (flag true) = some must_disable
flag_fault false (flag false) = none

abbrev store_volts : ℤ → ℤ → Calibration → Calibration
store_volts b v c =
    if eq_ℤ b (pos 400) then record c { analog_4 = some v } else record c { analog_7 = some v }

abbrev add_buffer : ℤ → List ℤ → List ℤ
add_buffer b buffers = if has_ℤ b buffers then buffers else buffers ++ b ∷ []

abbrev pub given : Message ⊎ ℕ → Message ⊎ Option ℕ
given (inl message) = inl message
given (inr n) = inr (some n)

-- The optional address of `enable` and `disable`.
abbrev pub optional_addr : Address → Message ⊎ Option ℕ
optional_addr no_address = inr none
optional_addr a = given (modbus_addr "address" a)

module _ {World Sensors : Type 0} (hardware : Hardware World Sensors) where
  abbrev pub done : CommandOutcome Sensors → Calibration → World → Done World Sensors
  done outcome c world = record { outcome = outcome; calibration = c; world = world }

  unfoldable pub ph_start : Probe → Buffer → Calibration → World → Done World Sensors
  ph_start analog b c world =
      if has_buffer b
      then done (refuse buffer_not_here) c world
      else done (accept started (points []))
          (record c { analog_4 = none; analog_7 = none; analog_started = true }) world
  ph_start rs485_multi b c world =
      if has_buffer b
      then done (refuse buffer_not_here) c world
      else done (accept started (points [])) (record c { rs485_buffers = []; rs485_started = true })
          world

  abbrev store_analog : ℤ → Option ℤ → Calibration → World → Done World Sensors
  store_analog b none c world = done (refuse not_stable) c world
  store_analog b (some v) c world =
      let c' = store_volts b v c in done (accept point_stored (points (stored_points c'))) c' world

  abbrev pub analog_point : ℤ → Message ⊎ List ℤ → Calibration → World → Done World Sensors
  analog_point b (inl message) c world = done (refuse message) c world
  analog_point b (inr samples) c world = store_analog b (steady (sort samples)) c world

  abbrev pub rs485_point : ℤ → Call {0} Unit → Calibration → World → Done World Sensors
  rs485_point b (raises text) c world = done (refuse (failure text)) c world
  rs485_point b (returns u) c world =
      let buffers = add_buffer b c.rs485_buffers in
      done (accept point_stored (points buffers)) (record c { rs485_buffers = buffers }) world

  unfoldable pub take_point : Probe → ℤ → Calibration → World → Done World Sensors
  take_point analog b c world = let out = sample hardware 5 [] world in analog_point b out.0 c out.1
  take_point rs485_multi b c world =
      let out = hardware.calibrate_rs485_ph_point b world in rs485_point b out.0 c out.1

  abbrev pub point_if : Option Message → Probe → Buffer → Calibration → World → Done World Sensors
  point_if (some message) p b c world = done (refuse message) c world
  point_if none p b c world =
      if is_started p c
      then take_point p (value_of b) c world
      else done (refuse not_started) c world

  unfoldable pub ph_point : Probe → Buffer → Calibration → World → Done World Sensors
  ph_point p b c world = point_if (buffer_fault p b) p b c world

  abbrev pub fit : Call (ℤ × ℤ) → Calibration → World → Done World Sensors
  fit (raises text) c world = done (refuse (failure text)) c world
  fit (returns line) c world =
      done (accept calibration_applied (fitted (some line) (pos 400 ∷ pos 700 ∷ [])))
        (record c { analog_4 = none; analog_7 = none; analog_started = false }) world

  -- `_finish_analog`
  unfoldable pub finish_analog : Option ℤ → Option ℤ → Calibration → World → Done World Sensors
  finish_analog none other c world = done (refuse missing_points) c world
  finish_analog (some v4) none c world = done (refuse missing_points) c world
  finish_analog (some v4) (some v7) c world =
      if ltb (abs (v7 -ℤ v4)) 1000
      then done (refuse too_close) c world
      else let out = hardware.apply_analog_ph v4 v7 world in fit out.0 c out.1

  -- `_finish_rs485`
  unfoldable pub finish_rs485 : List ℤ → Calibration → World → Done World Sensors
  finish_rs485 [] c world = done (refuse missing_points) c world
  finish_rs485 (b ∷ buffers) c world =
      done (accept calibration_applied (fitted none (b ∷ buffers)))
        (record c { rs485_buffers = []; rs485_started = false }) world

  abbrev pub finish_probe : Probe → Calibration → World → Done World Sensors
  finish_probe analog c world = finish_analog c.analog_4 c.analog_7 c world
  finish_probe rs485_multi c world = finish_rs485 c.rs485_buffers c world

  unfoldable pub ph_finish : Probe → Buffer → Calibration → World → Done World Sensors
  ph_finish p b c world =
      if has_buffer b
      then done (refuse buffer_not_here) c world
      else if is_started p c
      then finish_probe p c world
      else done (refuse not_started) c world

  abbrev pub ph_step :
      Option Step → Option Probe → Buffer → Calibration → World → Done World Sensors
  ph_step none p b c world = done (refuse unknown_step) c world
  ph_step (some s) none b c world = done (refuse unknown_probe) c world
  ph_step (some start) (some p) b c world = ph_start p b c world
  ph_step (some point) (some p) b c world = ph_point p b c world
  ph_step (some finish) (some p) b c world = ph_finish p b c world

  abbrev pub ph_fields : Option String → PhPayload → Calibration → World → Done World Sensors
  ph_fields (some field) p c world = done (refuse (unexpected field)) c world
  ph_fields none p c world = ph_step p.step p.probe p.buffer c world

  -- `_ph_calibrate`
  unfoldable pub ph_calibrate : PhPayload → Calibration → World → Done World Sensors
  ph_calibrate p c world = ph_fields p.extra p c world

  abbrev pub report : Message → Call Sensors → Calibration → World → Done World Sensors
  report message (raises text) c world = done (refuse (failure text)) c world
  report message (returns s) c world = done (accept message (sensors s)) c world

  abbrev pub add_at : String → Message ⊎ ℕ → Calibration → World → Done World Sensors
  add_at name (inl message) c world = done (refuse message) c world
  add_at name (inr a) c world =
      let out = hardware.rs485_add name a world in report sensor_added out.0 c out.1

  abbrev pub move_to : String → Message ⊎ ℕ → Message ⊎ ℕ → Calibration → World → Done World Sensors
  move_to name (inl message) other c world = done (refuse message) c world
  move_to name (inr a) (inl message) c world = done (refuse message) c world
  move_to name (inr a) (inr b) c world =
      let out = hardware.rs485_set_address name a b world in report address_set out.0 c out.1

  abbrev pub switch_at :
      String → Bool → Message ⊎ Option ℕ → Calibration → World → Done World Sensors
  switch_at name on (inl message) c world = done (refuse message) c world
  switch_at name on (inr a) c world =
      let out = hardware.rs485_set_enabled name a on world in
      report (if on then sensor_enabled else sensor_disabled) out.0 c out.1

  abbrev pub switch_if :
      Option Message → String → Bool → Address → Calibration → World → Done World Sensors
  switch_if (some message) name on a c world = done (refuse message) c world
  switch_if none name on a c world = switch_at name on (optional_addr a) c world

  unfoldable pub switch : String → Bool → Flag → Address → Calibration → World → Done World Sensors
  switch name on f a c world = switch_if (flag_fault on f) name on a c world

  unfoldable pub rs485_op : Op → String → Rs485Payload → Calibration → World → Done World Sensors
  rs485_op add name p c world = add_at name (modbus_addr "address" p.sensor_address) c world
  rs485_op set_address name p c world =
      move_to name (modbus_addr "address" p.sensor_address) (modbus_addr "newAddress" p.new_address)
        c world
  rs485_op enable name p c world = switch name true p.enabled p.sensor_address c world
  rs485_op disable name p c world = switch name false p.enabled p.sensor_address c world

  abbrev pub rs485_known :
      Option Op → Option String → Rs485Payload → Calibration → World → Done World Sensors
  rs485_known none name p c world = done (refuse unknown_op) c world
  rs485_known (some op) none p c world = done (refuse bad_sensor) c world
  rs485_known (some op) (some name) p c world =
      if has_name name allowed_sensors
      then rs485_op op name p c world
      else done (refuse bad_sensor) c world

  abbrev pub rs485_fields : Option String → Rs485Payload → Calibration → World → Done World Sensors
  rs485_fields (some field) p c world = done (refuse (unexpected field)) c world
  rs485_fields none p c world = rs485_known p.op p.sensor p c world

  -- `_rs485_config`
  unfoldable pub rs485_config : Rs485Payload → Calibration → World → Done World Sensors
  rs485_config p c world = rs485_fields p.extra p c world
