-- ===== src/Modbus/Crc.antt =====
-- The CRC of src/sensors/modbus.py: what it accepts, and the errors that it detects.
use wqm.Prelude.{
  ℕ, zero, suc, ◌+◌, ◌-◌, ◌/◌, ◌%◌, ◌≤◌, ◌<◌, ◌≡◌, ◌⊎◌, inl, inr, refl, sym, ap, ◌∙◌, true, false,
  ◌&&◌, [], ◌∷◌, ◌++◌, arith, ltb, ◌==◌, ==_refl, length, length-append, take, xor_bits,
  xor_bits_bound, xor_bits_injective, xor_bits_comm, xor_bits_top,
}
use wqm.Modbus.{Bytes, byte, crc_bit, crc_bits, crc_from, crc16, append_crc, check_crc}

crc_bit-bound : (c : ℕ) → c < 65536 → crc_bit c < 65536
unfolding crc_bit
crc_bit-bound c h = ground (arith, xor_bits_bound 16 (c / 2) 40961)

-- The bit that is shifted out shows as the top bit.
crc_bit-even : (c : ℕ) → c < 65536 → c % 2 ≡ 0 → (crc_bit c ≡ c / 2) × (crc_bit c < 32768)
unfolding crc_bit
crc_bit-even c h e = (ground arith, ground arith)

crc_bit-odd :
    (c : ℕ) → c < 65536 → c % 2 ≡ 1 → (crc_bit c ≡ xor_bits 16 (c / 2) 40961) × (32768 ≤ crc_bit c)
unfolding crc_bit
crc_bit-odd c h e =
    let top : 32768 ≤ xor_bits 16 (c / 2) 40961 =
      xor_bits_top 15 (c / 2) 40961 (omega arith) (omega arith) (omega arith) in
    (ground arith, ground (arith, top))

parity : (c : ℕ) → (c % 2 ≡ 0) ⊎ (c % 2 ≡ 1)
parity c = omega arith

crc_bit-injective : (a b : ℕ) → a < 65536 → b < 65536 → crc_bit a ≡ crc_bit b → a ≡ b
crc_bit-injective a b ha hb h = elim (parity a) [
  | inl ea ↦ elim (parity b) [
    | inl eb ↦ omega (arith, (crc_bit-even a ha ea).0, (crc_bit-even b hb eb).0)
    | inr eb ↦ absurd (omega (arith, (crc_bit-even a ha ea).1, (crc_bit-odd b hb eb).1))
  ]
  | inr ea ↦ elim (parity b) [
    | inl eb ↦ absurd (omega (arith, (crc_bit-odd a ha ea).1, (crc_bit-even b hb eb).1))
    | inr eb ↦
        let halves : a / 2 ≡ b / 2 =
          xor_bits_injective 16 (a / 2) (b / 2) 40961 (omega arith) (omega arith)
            (sym (crc_bit-odd a ha ea).0 ∙ (h ∙ (crc_bit-odd b hb eb).0)) in
        omega (arith, halves)
  ]
]

crc_bits-bound : (n c : ℕ) → c < 65536 → crc_bits n c < 65536
unfolding crc_bits
crc_bits-bound zero c h = h
crc_bits-bound (suc n) c h = crc_bits-bound n (crc_bit c) (crc_bit-bound c h)

crc_bits-injective : (n a b : ℕ) → a < 65536 → b < 65536 → crc_bits n a ≡ crc_bits n b → a ≡ b
unfolding crc_bits
crc_bits-injective zero a b ha hb h = h
crc_bits-injective (suc n) a b ha hb h =
    crc_bit-injective a b ha hb
      (crc_bits-injective n (crc_bit a) (crc_bit b) (crc_bit-bound a ha) (crc_bit-bound b hb) h)

crc_from-bound : (c : ℕ) (text : Bytes) → c < 65536 → crc_from c text < 65536
unfolding crc_from
crc_from-bound c [] h = h
crc_from-bound c (b ∷ text) h =
    crc_from-bound (crc_bits 8 (xor_bits 16 c b)) text (crc_bits-bound 8 _ (xor_bits_bound 16 c b))

-- Whatever bytes follow, CRCs that differ stay different.
crc_from-injective :
    (text : Bytes) (a b : ℕ) → a < 65536 → b < 65536 → crc_from a text ≡ crc_from b text → a ≡ b
unfolding crc_from
crc_from-injective [] a b ha hb h = h
crc_from-injective (d ∷ text) a b ha hb h = xor_bits_injective 16 a b d ha hb (
    crc_bits-injective 8 _ _ (xor_bits_bound 16 a d) (xor_bits_bound 16 b d) (
      crc_from-injective text _ _ (crc_bits-bound 8 _ (xor_bits_bound 16 a d))
        (crc_bits-bound 8 _ (xor_bits_bound 16 b d)) h))

-- One byte among others.
pub crc_from-byte :
    (before after : Bytes) (c a b : ℕ)
    → c < 65536
    → a < 65536
    → b < 65536
    → crc_from c (before ++ a ∷ after) ≡ crc_from c (before ++ b ∷ after)
    → a ≡ b
unfolding crc_from
crc_from-byte [] after c a b hc ha hb h =
    let states =
      crc_from-injective after _ _ (crc_bits-bound 8 _ (xor_bits_bound 16 c a))
        (crc_bits-bound 8 _ (xor_bits_bound 16 c b)) h in
    let words = crc_bits-injective 8 _ _ (xor_bits_bound 16 c a) (xor_bits_bound 16 c b) states in
    xor_bits_injective 16 a b c ha hb (xor_bits_comm 16 a c ∙ (words ∙ xor_bits_comm 16 c b))
crc_from-byte (d ∷ before) after c a b hc ha hb h =
    crc_from-byte before after (crc_bits 8 (xor_bits 16 c d)) a b
      (crc_bits-bound 8 _ (xor_bits_bound 16 c d)) ha hb h

pub crc16-bound : (text : Bytes) → crc16 text < 65536
unfolding crc16
crc16-bound text = crc_from-bound 65535 text (omega arith)

-- The two bytes after the others.
pub take-append : (text rest : Bytes) → take (length text) (text ++ rest) ≡ text
take-append [] [] = refl
take-append [] (r ∷ rest) = refl
take-append (t ∷ text) rest = ap (λ l. t ∷ l) (take-append text rest)

pub byte-append :
    (text rest : Bytes) (i j : ℕ) → j ≡ length text + i → byte (text ++ rest) j ≡ byte rest i
byte-append [] rest i j e = ap (byte rest) (omega arith)
byte-append (t ∷ text) rest i zero e = absurd (omega arith)
byte-append (t ∷ text) rest i (suc j) e = byte-append text rest i j (omega arith)

-- What `check_crc` reads of a frame that ends in two bytes.
check_crc_split :
    (text : Bytes) (low high : ℕ)
    → 2 ≤ length text
    → check_crc (text ++ low ∷ high ∷ []) ≡ (low == crc16 text % 256 && high == crc16 text / 256)
unfolding check_crc
check_crc_split text low high long =
    let frame = text ++ low ∷ high ∷ [] in
    let total : length frame ≡ length text + 2 = length-append text (low ∷ high ∷ []) in
    let enough : ltb (length frame) 4 ≡ false = ground (arith, total) in
    let cut : length frame - 2 ≡ length text = omega (arith, total) in
    let first : byte frame (length frame - 2) ≡ low =
      byte-append text (low ∷ high ∷ []) 0 (length frame - 2) (omega (arith, total)) in
    let last : byte frame (length frame - 1) ≡ high =
      byte-append text (low ∷ high ∷ []) 1 (length frame - 1) (omega (arith, total)) in
    let rest : take (length frame - 2) frame ≡ text =
      ap (λ n. take n frame) cut ∙ take-append text (low ∷ high ∷ []) in
    rw (enough, first, last, rest)

-- A frame of at least two bytes passes the check once its CRC is appended.
pub check-append : (frame : Bytes) → 2 ≤ length frame → check_crc (append_crc frame) ≡ true
unfolding append_crc
check-append frame long =
    check_crc_split frame (crc16 frame % 256) (crc16 frame / 256) long
    ∙ rw (==_refl (crc16 frame % 256), ==_refl (crc16 frame / 256)) refl
