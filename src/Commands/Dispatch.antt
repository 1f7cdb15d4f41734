-- ===== src/Commands/Dispatch.antt =====
-- `DeviceCommandDispatcher` of src/cloud/device_commands.py: what it does with one queued command, and
-- the outcomes that it keeps, in memory and in its file. Times are epoch milliseconds. The clock is read
-- several times in a call, so each reading is a parameter, and so is whether the file was written.
use wqm.Prelude.{
  ℕ, ◌+◌, Bool, true, false, not, Option, none, some, List, [], ◌∷◌, ◌++◌, leb, if◌then◌else◌, keep,
}
use wqm.Prelude.Texts.{String, str_eq, find}
use wqm.Commands.{
  Message, CommandOutcome, refuse, Hardware, Calibration, no_calibration, PhPayload, Done,
  unexpected, missing_id, missing_type, unknown_type, missing_expires, bad_expires, expired,
  bad_payload,
}
use wqm.Commands.Setup.{Rs485Payload, ph_calibrate, rs485_config}

pub data Expiry : Type 0 where
  no_expiry bad_expiry : Expiry
  at : ℕ → Expiry

-- `_parse_expires_at_ms`
abbrev pub parsed : Expiry → Option ℕ
parsed no_expiry = none
parsed bad_expiry = none
parsed (at ms) = some ms

-- `type`, when it is a text that is not empty
pub data Kind : Type 0 where
  ph_kind rs485_kind other_kind : Kind

-- A payload that is an object, as either type of command reads it.
pub record Payload : Type 0 where
  pub ph : PhPayload
  pub rs485 : Rs485Payload

-- A command: `id` when it is a text that is not empty, and the first field that is not allowed.
pub record Command : Type 0 where
  pub id : Option String
  pub extra : Option String
  pub kind : Option Kind
  pub expires : Expiry
  pub payload : Option Payload

-- `_Handled`
pub record Row (Sensors : Type 0) : Type 0 where
  pub outcome : CommandOutcome Sensors
  pub expires_at : ℕ

abbrev pub Handled : Type 0 → Type 0
Handled Sensors = List (String × Row Sensors)

pub record Dispatcher (World Sensors : Type 0) : Type 0 where
  pub calibration : Calibration
  pub handled : Handled Sensors
  pub cache : Handled Sensors
  pub world : World

-- The readings of the clock in one call: for the eviction, for the default expiry, for the expiry, and
-- for the eviction before the outcome is stored.
pub record Readings : Type 0 where
  pub evicts : ℕ
  pub asks : ℕ
  pub checks : ℕ
  pub stores : ℕ

abbrev pub handled_without_expires : ℕ
handled_without_expires = 86400000

-- `_keep_until_ms`
abbrev pub keep_until : ℕ → Expiry → ℕ
keep_until now (at ms) = ms
keep_until now no_expiry = now + handled_without_expires
keep_until now bad_expiry = now + handled_without_expires

-- The rows without one key, for `move_to_end`.
unfoldable pub without {ℓ} : {V : Type ℓ} → String → List (String × V) → List (String × V)
without k [] = []
without k ((j, v) ∷ d) = let rest = without k d in if str_eq j k then rest else (j, v) ∷ rest

unfoldable pub last_put {ℓ} : {V : Type ℓ} → String → V → List (String × V) → List (String × V)
last_put k v d = without k d ++ (k, v) ∷ []

-- `_evict_expired`
unfoldable pub evict_expired : {Sensors : Type 0} → ℕ → Handled Sensors → Handled Sensors
evict_expired now rows = keep (λ r. not (leb r.1.expires_at now)) rows

-- What a call gives: its outcome, the dispatcher after it, and whether a command was carried out.
pub record Applied (World Sensors : Type 0) : Type 0 where
  pub outcome : CommandOutcome Sensors
  pub after : Dispatcher World Sensors
  pub carried_out : Bool

module _ {World Sensors : Type 0} (hardware : Hardware World Sensors) where
  -- `_store`, with the file written or not.
  unfoldable pub store :
      Readings
      → Bool
      → String
      → ℕ
      → CommandOutcome Sensors
      → Dispatcher World Sensors
      → Dispatcher World Sensors
  store t saved id until outcome d =
      let handled =
        last_put id (record { outcome = outcome; expires_at = until })
          (evict_expired t.stores d.handled) in
      record d { handled = handled; cache = if saved then handled else d.cache }

  abbrev reject_with :
      Readings → Bool → String → ℕ → Message → Dispatcher World Sensors → Applied World Sensors
  reject_with t saved id until message d = record {
    outcome = refuse message;
    after = store t saved id until (refuse message) d;
    carried_out = false;
  }

  abbrev run_kind : Bool → Payload → Dispatcher World Sensors → Done World Sensors
  run_kind true p d = ph_calibrate hardware p.ph d.calibration d.world
  run_kind false p d = rs485_config hardware p.rs485 d.calibration d.world

  unfoldable pub carry_out :
      Readings
      → Bool
      → String
      → ℕ
      → Bool
      → Payload
      → Dispatcher World Sensors
      → Applied World Sensors
  carry_out t saved id until is_ph p d =
      let out = run_kind is_ph p d in
      record {
        outcome = out.outcome;
        after =
            store t saved id until out.outcome
              (record d { calibration = out.calibration; world = out.world });
        carried_out = true;
      }

  -- From the payload on.
  unfoldable pub with_payload :
      Readings
      → Bool
      → String
      → ℕ
      → Bool
      → Option Payload
      → Dispatcher World Sensors
      → Applied World Sensors
  with_payload t saved id until is_ph none d = reject_with t saved id until bad_payload d
  with_payload t saved id until is_ph (some p) d = carry_out t saved id until is_ph p d

  -- From `expiresAt` on.
  unfoldable pub with_expiry :
      Readings
      → Bool
      → String
      → ℕ
      → Bool
      → Command
      → Expiry
      → Dispatcher World Sensors
      → Applied World Sensors
  with_expiry t saved id until is_ph c no_expiry d = reject_with t saved id until missing_expires d
  with_expiry t saved id until is_ph c bad_expiry d = reject_with t saved id until bad_expires d
  with_expiry t saved id until is_ph c (at ms) d =
      if leb ms t.checks
      then reject_with t saved id until expired d
      else with_payload t saved id until is_ph c.payload d

  -- From `type` on.
  unfoldable pub with_kind :
      Readings
      → Bool
      → String
      → ℕ
      → Option Kind
      → Command
      → Dispatcher World Sensors
      → Applied World Sensors
  with_kind t saved id until none c d = reject_with t saved id until missing_type d
  with_kind t saved id until (some other_kind) c d = reject_with t saved id until unknown_type d
  with_kind t saved id until (some ph_kind) c d = with_expiry t saved id until true c c.expires d
  with_kind t saved id until (some rs485_kind) c d =
      with_expiry t saved id until false c c.expires d

  unfoldable pub with_fields :
      Readings
      → Bool
      → String
      → ℕ
      → Option String
      → Command
      → Dispatcher World Sensors
      → Applied World Sensors
  with_fields t saved id until (some field) c d = reject_with t saved id until (unexpected field) d
  with_fields t saved id until none c d = with_kind t saved id until c.kind c d

  -- For an id that is not handled.
  abbrev pub apply_new :
      Readings → Bool → String → ℕ → Command → Dispatcher World Sensors → Applied World Sensors
  apply_new t saved id until c d = with_fields t saved id until c.extra c d

  -- With the eviction done: a row that is found answers, and moves to the end.
  unfoldable pub answer :
      Readings
      → Bool
      → String
      → Command
      → Option (Row Sensors)
      → Dispatcher World Sensors
      → Applied World Sensors
  answer t saved id c (some row) d = record {
    outcome = row.outcome;
    after = record d { handled = last_put id row d.handled };
    carried_out = false;
  }
  answer t saved id c none d = apply_new t saved id (keep_until t.asks c.expires) c d

  abbrev pub apply_id :
      Readings → Bool → Option String → Command → Dispatcher World Sensors → Applied World Sensors
  apply_id t saved none c d = record { outcome = refuse missing_id; after = d; carried_out = false }
  apply_id t saved (some id) c d =
      let rows = evict_expired t.evicts d.handled in
      answer t saved id c (find id rows) (record d { handled = rows })

  -- `apply`
  abbrev pub apply : Readings → Bool → Command → Dispatcher World Sensors → Applied World Sensors
  apply t saved c d = apply_id t saved c.id c d

-- A restart: `_load_handled` of the file, and no calibration.
unfoldable pub restart :
    {World Sensors : Type 0} → Dispatcher World Sensors → Dispatcher World Sensors
restart d = record d { calibration = no_calibration; handled = d.cache }
