-- ===== src/Lora/Commands.antt =====
-- The MAC commands of a downlink, of src/radio/lorawan.py.
use wqm.Prelude.{
  ℕ, zero, suc, ◌+◌, ◌-◌, ◌*◌, ◌/◌, ◌%◌, ◌^◌, min, Bool, true, false, ◌&&◌, ◌||◌, Option, none,
  some, List, [], ◌∷◌, leb, ltb, ◌==◌, if◌then◌else◌, length, get_elem?, get_or, take,
}
use wqm.Prelude.Int.{ℤ, pos, negsuc}
use wqm.Lora.{Bytes, Mac, queue_answer}

-- _MAC_REQ_LEN
unfoldable pub mac_req_len : ℕ → Option ℕ
mac_req_len cid =
    if cid == 2
    then some 2
    else if cid == 3
    then some 4
    else if cid == 4
    then some 1
    else if cid == 5
    then some 4
    else if cid == 6
    then some 0
    else if cid == 7
    then some 5
    else if cid == 8
    then some 1
    else if cid == 9
    then some 1
    else if cid == 10
    then some 4
    else none

abbrev pub byte : Bytes → ℕ → ℕ
byte bytes i = get_or (get_elem? bytes i) 0

-- `bool(x >> bit & 1)`
abbrev bit_of : ℕ → ℕ → Bool
bit_of x bit = x / 2 ^ bit % 2 == 1

-- `mask[i] = v`; out of range Python raises IndexError
unfoldable pub set_mask : ℕ → Bool → List Bool → Option (List Bool)
set_mask i v [] = none
set_mask zero v (x ∷ xs) = some (v ∷ xs)
set_mask (suc i) v (x ∷ xs) = elim (set_mask i v xs) [ none ↦ none | some ys ↦ some (x ∷ ys) ]

abbrev pub then_mask : Option (List Bool) → (List Bool → Option (List Bool)) → Option (List Bool)
then_mask none f = none
then_mask (some m) f = f m

-- `for bit in range(count): mask[base + bit] = test bit`, from `bit` on
unfoldable pub set_bits : (ℕ → Bool) → ℕ → ℕ → ℕ → List Bool → Option (List Bool)
set_bits test base bit zero mask = some mask
set_bits test base bit (suc count) mask =
    then_mask (set_mask (base + bit) (test bit) mask) (set_bits test base (suc bit) count)

unfoldable pub any_of : List Bool → Bool
any_of [] = false
any_of (b ∷ bs) = b || any_of bs

-- The new mask and whether it is acceptable so far.
unfoldable pub new_mask : ℕ → ℕ → List Bool → Option (List Bool × Bool)
new_mask cntl bits mask =
    if leb cntl 4
    then elim (set_bits (bit_of bits) (cntl * 16) 0 16 mask) [
      | none ↦ none
      | some m ↦ some (m, true)
    ]
    else if cntl == 6 || cntl == 7
    then elim (then_mask (set_bits (λ _. cntl == 6) 0 0 64 mask) (set_bits (bit_of bits) 64 0 8)) [
      | none ↦ none
      | some m ↦ some (m, true)
    ]
    else some (mask, false)

-- _UP_DR_TO_SF
abbrev sf_of_dr : ℕ → ℕ
sf_of_dr dr = 10 - dr

abbrev flag : Bool → ℕ → ℕ
flag true n = n
flag false n = 0

abbrev pub apply_link_adr : ℕ → ℕ → List Bool × Bool → Mac → Mac
apply_link_adr dr tx_power (mask, wanted) m =
    let mask_ok = wanted && any_of (take 64 mask) in
    let dr_ok = dr == 1 || dr == 2 || dr == 3 || dr == 15 in
    let power_ok = leb tx_power 10 || tx_power == 15 in
    let m' =
      (if mask_ok && dr_ok && power_ok
        then record m { channel_mask = mask; sf = if dr == 15 then m.sf else sf_of_dr dr }
        else m) in
    queue_answer (3 ∷ (flag mask_ok 1 + flag dr_ok 2 + flag power_ok 4) ∷ []) m'

-- `_handle_link_adr`; `none` is the IndexError.
unfoldable pub handle_link_adr : Bytes → Mac → Option Mac
handle_link_adr args m =
    let cntl = byte args 3 / 16 % 8 in
    elim (new_mask cntl (byte args 1 + byte args 2 * 256) m.channel_mask) [
      | none ↦ none
      | some found ↦ some (apply_link_adr (byte args 0 / 16) (byte args 0 % 16) found m)
    ]

unfoldable pub handle_rx_param : Bytes → Mac → Mac
handle_rx_param args m =
    let freq = (byte args 1 + byte args 2 * 256 + byte args 3 * 65536) * 100 in
    let offset = byte args 0 / 16 % 8 in
    let rx2_dr = byte args 0 % 16 in
    let offset_ok = leb offset 3 in
    let dr_ok = leb 8 rx2_dr && leb rx2_dr 13 in
    let freq_ok = leb 923300000 freq && leb freq 927500000 in
    let m' =
      (if offset_ok && dr_ok && freq_ok
        then record m { rx1_dr_offset = offset; rx2_dr = rx2_dr; rx2_frequency = freq }
        else m) in
    queue_answer (5 ∷ (flag offset_ok 4 + flag dr_ok 2 + flag freq_ok 1) ∷ []) m'

-- The SNR margin: 0 if there is none, else clamped to six bits of two's complement.
abbrev margin : Option ℤ → ℕ
margin none = 0
margin (some (pos n)) = min 31 n
margin (some (negsuc n)) = 64 - min 32 (suc n)

unfoldable pub handle_rx_timing : Bytes → Mac → Mac
handle_rx_timing args m =
    let delay = byte args 0 % 16 in
    queue_answer (8 ∷ []) (record m { rx1_delay_s = if delay == 0 then 1 else delay })

-- `_handle_mac_command`; `none` is an exception.
unfoldable pub handle_mac_command : ℕ → Bytes → Mac → Option Mac
handle_mac_command cid args m =
    if cid == 2
    then some (record m { last_link_check = some (byte args 0, byte args 1) })
    else if cid == 3
    then handle_link_adr args m
    else if cid == 4
    then some (queue_answer (4 ∷ []) m)
    else if cid == 5
    then some (handle_rx_param args m)
    else if cid == 6
    then some (queue_answer (6 ∷ 0 ∷ margin m.last_snr ∷ []) m)
    else if cid == 8
    then some (handle_rx_timing args m)
    else some m

-- The `try` round one command.
unfoldable pub try_command : ℕ → Bytes → Mac → Mac
try_command cid args m = get_or (handle_mac_command cid args m) m

-- The argument bytes of a command; `none` is an unknown command or too few bytes.
unfoldable pub fetch : ℕ → Bytes → Option Bytes
fetch cid bytes = elim (mac_req_len cid) [
  | none ↦ none
  | some len ↦ if ltb (length (take len bytes)) len then none else some (take len bytes)
]

-- The loop of `_handle_mac_commands`; the number counts the argument bytes that are still to pass.
unfoldable pub commands_from : ℕ → Bytes → Mac → Mac
commands_from skip [] m = m
commands_from (suc skip) (b ∷ bytes) m = commands_from skip bytes m
commands_from zero (cid ∷ bytes) m = elim (fetch cid bytes) [
  | none ↦ m
  | some args ↦ commands_from (length args) bytes (try_command cid args m)
]

unfoldable pub handle_mac_commands : Bytes → Mac → Mac
handle_mac_commands = commands_from 0
