-- ===== src/Commands/Bounds.antt =====
-- The calls of the hardware that src/cloud/device_commands.py makes stay within its checks.
use mathlib.Core.Path.{subst}
use wqm.Prelude.{
  ℕ, ◌≤◌, ◌≡◌, ◌⊎◌, inl, inr, refl, ap, Bool, true, false, ◌&&◌, Option, none, some, arith, leb,
  if◌then◌else◌, Bool-cases,
}
use wqm.Prelude.Int.{pos, negsuc}
use wqm.Prelude.Texts.{String, has_name}
use wqm.Commands.{Message, Hardware, Calibration}
use wqm.Commands.Setup.{
  Address, no_address, address_text, address_infinite, address_part, address, modbus_addr, Op, add,
  set_address, enable, disable, Flag, flag_fault, Rs485Payload, allowed_sensors, optional_addr,
  given, switch, rs485_op, rs485_config, add_at, move_to, switch_at, switch_if, rs485_fields,
  rs485_known, report,
}

-- Two buses that do the same when they are called within the checks: a sensor of the list, and
-- addresses from 1 to 247.
pub record Agree {World Sensors : Type 0} (h h' : Hardware World Sensors) : Type 0 where
  pub adds :
      (name : String) (n : ℕ) (w : World)
      → has_name name allowed_sensors ≡ true
      → 1 ≤ n
      → n ≤ 247
      → h.rs485_add name n w ≡ h'.rs485_add name n w
  pub moves :
      (name : String) (n k : ℕ) (w : World)
      → has_name name allowed_sensors ≡ true
      → 1 ≤ n
      → n ≤ 247
      → 1 ≤ k
      → k ≤ 247
      → h.rs485_set_address name n k w ≡ h'.rs485_set_address name n k w
  pub switches :
      (name : String) (on : Bool) (w : World)
      → has_name name allowed_sensors ≡ true
      → h.rs485_set_enabled name none on w ≡ h'.rs485_set_enabled name none on w
  pub switches_at :
      (name : String) (n : ℕ) (on : Bool) (w : World)
      → has_name name allowed_sensors ≡ true
      → 1 ≤ n
      → n ≤ 247
      → h.rs485_set_enabled name (some n) on w ≡ h'.rs485_set_enabled name (some n) on w

-- An address that was let through.
InRange : Message ⊎ ℕ → Type 0
InRange r = (n : ℕ) → r ≡ inr n → (1 ≤ n) × (n ≤ 247)

not_inr : (m : Message) (n : ℕ) → inl m ≡ inr n → ⊥
not_inr m n h = cc

if-InRange :
    (b : Bool) (m : Message) (n : ℕ)
    → (b ≡ true → (1 ≤ n) × (n ≤ 247))
    → InRange (if b then inr n else inl m)
unfolding InRange
if-InRange true m n h k e =
    subst (λ i. (1 ≤ i) × (i ≤ 247)) (ap (λ (r : Message ⊎ ℕ). number r) e) (h refl)
  where
    number : Message ⊎ ℕ → ℕ
    number (inl m) = n
    number (inr i) = i
if-InRange false m n h k e = absurd (not_inr m k e)

in_range : (n : ℕ) → (leb 1 n && leb n 247) ≡ true → (1 ≤ n) × (n ≤ 247)
in_range n h = (ground arith, ground arith)

modbus_addr-InRange : (key : String) (a : Address) → InRange (modbus_addr key a)
unfolding modbus_addr InRange
modbus_addr-InRange key no_address n e = absurd (not_inr _ n e)
modbus_addr-InRange key address_text n e = absurd (not_inr _ n e)
modbus_addr-InRange key address_infinite n e = absurd (not_inr _ n e)
modbus_addr-InRange key address_part n e = absurd (not_inr _ n e)
modbus_addr-InRange key (address (negsuc k)) n e = absurd (not_inr _ n e)
modbus_addr-InRange key (address (pos k)) n e =
    if-InRange (leb 1 k && leb k 247) (Message.address_range key) k (in_range k) n e

module _ {World Sensors : Type 0} (h h' : Hardware World Sensors) (agree : Agree h h')
    (c : Calibration) (w : World) where
  add-same :
      (name : String) (r : Message ⊎ ℕ)
      → has_name name allowed_sensors ≡ true
      → InRange r
      → add_at h name r c w ≡ add_at h' name r c w
  unfolding InRange
  add-same name (inl m) known range = refl
  add-same name (inr n) known range =
      ap (λ out. report h Message.sensor_added out.0 c out.1)
        (agree.adds name n w known (range n refl).0 (range n refl).1)

  move-same :
      (name : String) (r r' : Message ⊎ ℕ)
      → has_name name allowed_sensors ≡ true
      → InRange r
      → InRange r'
      → move_to h name r r' c w ≡ move_to h' name r r' c w
  unfolding InRange
  move-same name (inl m) r' known range range' = refl
  move-same name (inr n) (inl m) known range range' = refl
  move-same name (inr n) (inr k) known range range' =
      ap (λ out. report h Message.address_set out.0 c out.1)
        (agree.moves name n k w known (range n refl).0 (range n refl).1 (range' k refl).0
          (range' k refl).1)

  given-same :
      (name : String) (on : Bool) (r : Message ⊎ ℕ)
      → has_name name allowed_sensors ≡ true
      → InRange r
      → switch_at h name on (given r) c w ≡ switch_at h' name on (given r) c w
  unfolding InRange
  given-same name on (inl m) known range = refl
  given-same name on (inr n) known range =
      ap
        (λ out.
          report h (if on then Message.sensor_enabled else Message.sensor_disabled) out.0 c out.1)
        (agree.switches_at name n on w known (range n refl).0 (range n refl).1)

  switch_at-same :
      (name : String) (on : Bool) (a : Address)
      → has_name name allowed_sensors ≡ true
      → switch_at h name on (optional_addr a) c w ≡ switch_at h' name on (optional_addr a) c w
  switch_at-same name on no_address known =
      ap
        (λ out.
          report h (if on then Message.sensor_enabled else Message.sensor_disabled) out.0 c out.1)
        (agree.switches name on w known)
  switch_at-same name on address_text known =
      given-same name on _ known (modbus_addr-InRange "address" address_text)
  switch_at-same name on address_infinite known =
      given-same name on _ known (modbus_addr-InRange "address" address_infinite)
  switch_at-same name on address_part known =
      given-same name on _ known (modbus_addr-InRange "address" address_part)
  switch_at-same name on (address a) known =
      given-same name on _ known (modbus_addr-InRange "address" (address a))

  switch_if-same :
      (fault : Option Message) (name : String) (on : Bool) (a : Address)
      → has_name name allowed_sensors ≡ true
      → switch_if h fault name on a c w ≡ switch_if h' fault name on a c w
  switch_if-same (some m) name on a known = refl
  switch_if-same none name on a known = switch_at-same name on a known

  switch-same :
      (name : String) (on : Bool) (f : Flag) (a : Address)
      → has_name name allowed_sensors ≡ true
      → switch h name on f a c w ≡ switch h' name on f a c w
  unfolding switch
  switch-same name on f a known = switch_if-same (flag_fault on f) name on a known

  op-same :
      (op : Op) (name : String) (p : Rs485Payload)
      → has_name name allowed_sensors ≡ true
      → rs485_op h op name p c w ≡ rs485_op h' op name p c w
  unfolding rs485_op
  op-same add name p known = add-same name _ known (modbus_addr-InRange "address" p.sensor_address)
  op-same set_address name p known =
      move-same name _ _ known (modbus_addr-InRange "address" p.sensor_address)
        (modbus_addr-InRange "newAddress" p.new_address)
  op-same enable name p known = switch-same name true p.enabled p.sensor_address known
  op-same disable name p known = switch-same name false p.enabled p.sensor_address known

  known-same :
      (op : Option Op) (name : Option String) (p : Rs485Payload)
      → rs485_known h op name p c w ≡ rs485_known h' op name p c w
  known-same none name p = refl
  known-same (some op) none p = refl
  known-same (some op) (some name) p = elim (Bool-cases (has_name name allowed_sensors)) [
    | inl known ↦ rw known (op-same op name p known)
    | inr other ↦ rw other refl
  ]

  fields-same :
      (f : Option String) (p : Rs485Payload) → rs485_fields h f p c w ≡ rs485_fields h' f p c w
  fields-same (some field) p = refl
  fields-same none p = known-same p.op p.sensor p

  -- A sensor command calls the hardware only for a sensor of the list and with addresses from 1 to 247:
  -- it does the same on two buses that agree on those calls.
  pub rs485_within_checks : (p : Rs485Payload) → rs485_config h p c w ≡ rs485_config h' p c w
  unfolding rs485_config
  rs485_within_checks p = fields-same p.extra p
