-- ===== src/Commands.antt =====
-- The queued commands of src/cloud/device_commands.py, and the pH calibration that they drive. A command
-- is what `json` gave, field by field, with what is wrong of it as a case of its own. Voltages are
-- microvolts, buffers hundredths of a pH. The texts of the messages are constructors; where a text
-- quotes a name, so does the constructor.
pub mod Setup
pub mod Dispatch
pub mod Once
mod Kept
mod New
pub mod Bounds
pub mod Spent
mod Tests
use wqm.Prelude.{
  ℕ, zero, suc, ◌+◌, ◌-◌, ◌≤◌, ◌<◌, ◌≡◌, ◌⊎◌, inl, inr, Bool, true, false, ◌&&◌, ◌||◌, not, Option,
  none, some, List, [], ◌∷◌, ◌++◌, leb, ltb, ◌==◌, if◌then◌else◌, length,
}
use wqm.Prelude.Int.{ℤ, pos, negsuc, ◌-ℤ◌, abs, leb_ℤ, ltb_ℤ, eq_ℤ}
use wqm.Prelude.Texts.{String, has_name}

pub data Status : Type 0 where
  applied rejected : Status

pub data Message : Type 0 where
  not_object missing_id missing_type unknown_type missing_expires bad_expires expired bad_payload :
      Message
  unknown_step unknown_probe buffer_not_here buffer_no_number non_finite bad_analog_buffer
        bad_rs485_buffer :
      Message
  not_started not_stable missing_points too_close : Message
  unknown_op bad_sensor bad_enabled must_enable must_disable : Message
  started point_stored calibration_applied sensor_added address_set sensor_enabled sensor_disabled :
      Message
  unexpected failure : String → Message
  address_missing address_no_number address_fraction address_range : String → Message

-- The result of an outcome: the points so far, the line that was fitted, or the sensors.
pub data Report (Sensors : Type 0) : Type 0 where
  no_report : Report Sensors
  points : List ℤ → Report Sensors
  fitted : Option (ℤ × ℤ) → List ℤ → Report Sensors
  sensors : Sensors → Report Sensors

pub record CommandOutcome (Sensors : Type 0) : Type 0 where
  pub status : Status
  pub result : Report Sensors
  pub message : Message

abbrev pub refuse : {Sensors : Type 0} → Message → CommandOutcome Sensors
refuse message = record { status = rejected; result = no_report; message = message }

abbrev pub accept : {Sensors : Type 0} → Message → Report Sensors → CommandOutcome Sensors
accept message result = record { status = applied; result = result; message = message }

-- What a call of the hardware does: it raises with a text, or it returns.
pub data Call {ℓ} (A : Type ℓ) : Type ℓ where
  raises : String → Call A
  returns : A → Call A

-- `CommandHardware`, over a state of its own
pub record Hardware (World Sensors : Type 0) : Type 0 where
  pub read_ph_adc_volts : World → Call (Option ℤ) × World
  pub apply_analog_ph : ℤ → ℤ → World → Call (ℤ × ℤ) × World
  pub calibrate_rs485_ph_point : ℤ → World → Call {0} Unit × World
  pub rs485_add : String → ℕ → World → Call Sensors × World
  pub rs485_set_address : String → ℕ → ℕ → World → Call Sensors × World
  pub rs485_set_enabled : String → Option ℕ → Bool → World → Call Sensors × World

-- What the dispatcher keeps of a calibration.
pub record Calibration : Type 0 where
  pub analog_4 : Option ℤ
  pub analog_7 : Option ℤ
  pub rs485_buffers : List ℤ
  pub analog_started : Bool
  pub rs485_started : Bool

abbrev pub no_calibration : Calibration
no_calibration = record {
  analog_4 = none;
  analog_7 = none;
  rs485_buffers = [];
  analog_started = false;
  rs485_started = false;
}

pub data Step : Type 0 where
  start point finish : Step

pub data Probe : Type 0 where
  analog rs485_multi : Probe

pub data Buffer : Type 0 where
  no_buffer buffer_text buffer_infinite : Buffer
  buffer : ℤ → Buffer

pub record PhPayload : Type 0 where
  pub extra : Option String
  pub step : Option Step
  pub probe : Option Probe
  pub buffer : Buffer

-- What a call leaves.
pub record Done (World Sensors : Type 0) : Type 0 where
  pub outcome : CommandOutcome Sensors
  pub calibration : Calibration
  pub world : World

-- `_buffer_label` of a buffer: none if the label is allowed.
unfoldable pub buffer_fault : Probe → Buffer → Option Message
buffer_fault p no_buffer = some buffer_no_number
buffer_fault p buffer_text = some buffer_no_number
buffer_fault p buffer_infinite = some non_finite
buffer_fault analog (buffer b) =
    if eq_ℤ b (pos 400) || eq_ℤ b (pos 700) then none else some bad_analog_buffer
buffer_fault rs485_multi (buffer b) =
    if eq_ℤ b (pos 918) || (eq_ℤ b (pos 686) || eq_ℤ b (pos 401))
    then none
    else some bad_rs485_buffer

abbrev pub value_of : Buffer → ℤ
value_of no_buffer = pos 0
value_of buffer_text = pos 0
value_of buffer_infinite = pos 0
value_of (buffer b) = b

abbrev pub has_buffer : Buffer → Bool
has_buffer no_buffer = false
has_buffer buffer_text = true
has_buffer buffer_infinite = true
has_buffer (buffer b) = true

abbrev pub is_started : Probe → Calibration → Bool
is_started analog c = c.analog_started
is_started rs485_multi c = c.rs485_started

-- A sorted list with one more voltage, and the middle of five.
unfoldable pub insert : ℤ → List ℤ → List ℤ
insert v [] = v ∷ []
insert v (w ∷ ws) = let rest = insert v ws in if leb_ℤ v w then v ∷ w ∷ ws else w ∷ rest

unfoldable pub sort : List ℤ → List ℤ
sort [] = []
sort (v ∷ vs) = insert v (sort vs)

abbrev pub has_ℤ : ℤ → List ℤ → Bool
has_ℤ b [] = false
has_ℤ b (c ∷ cs) = eq_ℤ c b || has_ℤ b cs

-- The spread of five samples in order, and their median.
unfoldable pub steady : List ℤ → Option ℤ
steady (a ∷ b ∷ c ∷ d ∷ e ∷ []) = if ltb_ℤ (pos 20000) (e -ℤ a) then none else some c
steady _ = none

abbrev point_if : ℤ → Option ℤ → List ℤ
point_if b none = []
point_if b (some v) = b ∷ []

-- `sorted(self._analog_volts)`
abbrev pub stored_points : Calibration → List ℤ
stored_points c = point_if (pos 400) c.analog_4 ++ point_if (pos 700) c.analog_7

module _ {World Sensors : Type 0} (hardware : Hardware World Sensors) where
  -- The samples that `_read_analog_point` takes, or what stops it.
  unfoldable pub sample : ℕ → List ℤ → World → (Message ⊎ List ℤ) × World
  sample zero samples world = (inr samples, world)
  sample (suc n) samples world =
      let out = hardware.read_ph_adc_volts world in
      elim out.0 [
        | raises text ↦ (inl (failure text), out.1)
        | returns read ↦ elim read [
          | none ↦ (inl non_finite, out.1)
          | some v ↦ sample n (v ∷ samples) out.1
        ]
      ]
