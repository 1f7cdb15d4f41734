-- ===== src/Modbus/Bus.antt =====
-- The transactions of `ModbusBus` in src/sensors/modbus.py. The serial port and the sensors behind it
-- are a parameter: what `read` brings for a request, attempt by attempt, or none if the port raises.
-- pyserial's `read(n)` brings at most `n` bytes.
use wqm.Prelude.{
  ℕ, zero, suc, ◌+◌, ◌*◌, ◌/◌, ◌%◌, max, Bool, true, false, ◌&&◌, not, Option, none, some, List, [],
  ◌∷◌, leb, ltb, ◌==◌, if◌then◌else◌, length, take, drop,
}
use wqm.Modbus.{
  Bytes, byte, check_crc, build_read, build_read_input, build_write_single, build_write_multiple,
  words_of,
}

-- `ModbusTimeout`, `ModbusCRCError`, `ModbusExceptionResponse`, a plain `ModbusError`, and what the port
-- raises.
pub data Fault : Type 0 where
  timed_out bad_crc bad_count port_lost : Fault
  refused : ℕ → ℕ → Fault

pub data Reply {ℓ} (A : Type ℓ) : Type ℓ where
  replied : A → Reply A
  failed : Fault → Reply A

-- The checks of one attempt on the bytes that were read.
unfoldable pub judge : ℕ → Bytes → Reply Bytes
judge response_len response =
    let exc = take 5 response in
    if leb 5 (length response) && byte response 1 / 128 % 2 == 1
    then if not (check_crc exc)
      then failed bad_crc
      else failed (refused (byte exc 1 % 128) (byte exc 2))
    else if ltb (length response) response_len
    then failed timed_out
    else if not (check_crc response)
    then failed bad_crc
    else replied response

-- The errors after which the loop tries again.
abbrev pub is_retried : Fault → Bool
is_retried timed_out = true
is_retried bad_crc = true
is_retried bad_count = true
is_retried port_lost = false
is_retried (refused code exception) = false

-- What came of a transaction, and how often the request was written.
pub record Exchange : Type 0 where
  pub reply : Reply Bytes
  pub written : ℕ

-- What an attempt makes of what `read` did.
abbrev pub of_read : ℕ → Option Bytes → Reply Bytes
of_read response_len none = failed port_lost
of_read response_len (some response) = judge response_len response

module _ (line : Bytes → ℕ → Option Bytes) where
  abbrev pub attempt : Bytes → ℕ → ℕ → Reply Bytes
  attempt request response_len i = of_read response_len (line request i)

  -- The attempts that are left, from attempt `i` on, after an error.
  unfoldable pub transact_from : Bytes → ℕ → ℕ → ℕ → Fault → Exchange
  transact_from request response_len zero i last = record { reply = failed last; written = 0 }
  transact_from request response_len (suc n) i last = elim (attempt request response_len i) [
    | replied response ↦ record { reply = replied response; written = 1 }
    | failed fault ↦ elim (is_retried fault) [
      | true ↦
          let rest = transact_from request response_len n (suc i) fault in
          record { reply = rest.reply; written = suc rest.written }
      | false ↦ record { reply = failed fault; written = 1 }
    ]
  ]

  unfoldable pub transact : ℕ → Bytes → ℕ → Exchange
  transact retries request response_len =
      transact_from request response_len (max 1 retries) 0 timed_out

  abbrev pub registers_of : ℕ → Reply Bytes → Reply (List ℕ)
  registers_of count (failed fault) = failed fault
  registers_of count (replied response) =
      if byte response 2 == 2 * count
      then replied (words_of (take (byte response 2) (drop 3 response)))
      else failed bad_count

  unfoldable pub read_regs : ℕ → Bytes → ℕ → Reply (List ℕ)
  read_regs retries request count =
      registers_of count (transact retries request (5 + 2 * count)).reply

  unfoldable pub read_registers : ℕ → ℕ → ℕ → ℕ → Reply (List ℕ)
  read_registers retries address start count =
      read_regs retries (build_read address start count) count

  unfoldable pub read_input_registers : ℕ → ℕ → ℕ → ℕ → Reply (List ℕ)
  read_input_registers retries address start count =
      read_regs retries (build_read_input address start count) count

  abbrev done : Reply Bytes → Reply {0} Unit
  done (replied response) = replied tt
  done (failed fault) = failed fault

  unfoldable pub write_register : ℕ → ℕ → ℕ → ℕ → Reply {0} Unit
  write_register retries address register value =
      done (transact retries (build_write_single address register value) 8).reply

  unfoldable pub write_registers : ℕ → ℕ → ℕ → List ℕ → Reply {0} Unit
  write_registers retries address start values =
      done (transact retries (build_write_multiple address start values) 8).reply

  -- Only the port's own errors get through.
  abbrev answers : Reply (List ℕ) → Reply Bool
  answers (replied regs) = replied true
  answers (failed timed_out) = replied false
  answers (failed bad_crc) = replied false
  answers (failed bad_count) = replied false
  answers (failed (refused code exception)) = replied false
  answers (failed port_lost) = failed port_lost

  unfoldable pub probe : ℕ → ℕ → ℕ → Reply Bool
  probe retries address register = answers (read_registers retries address register 1)

  abbrev found : ℕ → Reply Bool → Reply (List ℕ) → Reply (List ℕ)
  found address (failed fault) rest = failed fault
  found address (replied heard) (failed fault) = failed fault
  found address (replied true) (replied rest) = replied (address ∷ rest)
  found address (replied false) (replied rest) = replied rest

  unfoldable pub scan : ℕ → List ℕ → Reply (List ℕ)
  scan retries [] = replied []
  scan retries (address ∷ addresses) =
      found address (probe retries address 0) (scan retries addresses)

  -- The broadcast question, asked once.
  unfoldable pub query_single_address : Option ℕ
  query_single_address = elim (line (build_read 254 0 1) 0) [
    | none ↦ none
    | some response ↦
        if ltb (length response) 7
        then none
        else if check_crc response
        then some (byte response 0)
        else none
  ]
