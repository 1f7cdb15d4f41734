-- ===== src/Modbus.antt =====
-- The frames of src/sensors/modbus.py: the CRC, the requests, and the numbers in registers.
pub mod Crc
mod Errors
pub mod Bus
pub mod Trip
mod Reads
mod Tests
use wqm.Prelude.{
  ℕ, zero, suc, ◌+◌, ◌-◌, ◌*◌, ◌/◌, ◌%◌, Bool, true, false, ◌&&◌, Option, none, some, List, [], ◌∷◌,
  ◌++◌, leb, ltb, ◌==◌, if◌then◌else◌, get_or, length, get_elem?, take, drop, xor_bits,
}
use wqm.Prelude.Int.{ℤ, pos, sub_ℕ}

abbrev pub Bytes : Type 0
Bytes = List ℕ

-- `bytes[i]` of bytes that have it
abbrev pub byte : Bytes → ℕ → ℕ
byte bytes i = get_or (get_elem? bytes i) 0

-- One bit of the CRC.
unfoldable pub crc_bit : ℕ → ℕ
crc_bit crc = if crc % 2 == 1 then xor_bits 16 (crc / 2) 40961 else crc / 2

unfoldable pub crc_bits : ℕ → ℕ → ℕ
crc_bits zero crc = crc
crc_bits (suc n) crc = crc_bits n (crc_bit crc)

-- The loop over the bytes, from a CRC on.
unfoldable pub crc_from : ℕ → Bytes → ℕ
crc_from crc [] = crc
crc_from crc (b ∷ text) = crc_from (crc_bits 8 (xor_bits 16 crc b)) text

unfoldable pub crc16 : Bytes → ℕ
crc16 text = crc_from 65535 text

-- A CRC has sixteen bits, so its high byte is what is left of it.
unfoldable pub append_crc : Bytes → Bytes
append_crc frame = frame ++ crc16 frame % 256 ∷ crc16 frame / 256 ∷ []

unfoldable pub check_crc : Bytes → Bool
check_crc frame =
    let crc = crc16 (take (length frame - 2) frame) in
    if ltb (length frame) 4
    then false
    else byte frame (length frame - 2) == crc % 256 && byte frame (length frame - 1) == crc / 256

-- `struct.pack(">H", n)`, of a number that fits
unfoldable pub pack_word : ℕ → Bytes
pack_word n = n / 256 ∷ n % 256 ∷ []

unfoldable pub pack_words : List ℕ → Bytes
pack_words [] = []
pack_words (w ∷ words) = pack_word (w % 65536) ++ pack_words words

-- FC03 and FC04, by their function code.
unfoldable pub build_request : ℕ → ℕ → ℕ → ℕ → Bytes
build_request code address start count =
    append_crc (address ∷ code ∷ (pack_word start ++ pack_word count))

unfoldable pub build_read : ℕ → ℕ → ℕ → Bytes
build_read address start count = build_request 3 address start count

unfoldable pub build_read_input : ℕ → ℕ → ℕ → Bytes
build_read_input address start count = build_request 4 address start count

unfoldable pub build_write_single : ℕ → ℕ → ℕ → Bytes
build_write_single address register value = build_request 6 address register (value % 65536)

unfoldable pub build_write_multiple : ℕ → ℕ → List ℕ → Bytes
build_write_multiple address start values = append_crc (
    address
    ∷ 16
    ∷ (pack_word start ++ (pack_word (length values) ++ (length values * 2 ∷ pack_words values))))

-- `struct.unpack(">H", ...)`
abbrev pub word : ℕ → ℕ → ℕ
word high low = 256 * high + low

-- The registers in the first bytes of the data, two bytes each.
unfoldable pub words_of : Bytes → List ℕ
words_of [] = []
words_of (high ∷ []) = []
words_of (high ∷ low ∷ text) = word high low ∷ words_of text

unfoldable pub to_int16 : ℕ → ℤ
to_int16 reg = if leb 32768 reg then sub_ℕ reg 65536 else pos reg

unfoldable pub decode_int32_abcd : ℕ → ℕ → ℤ
decode_int32_abcd ab cd =
    let n = 65536 * ab + cd in if leb 2147483648 n then sub_ℕ n 4294967296 else pos n
