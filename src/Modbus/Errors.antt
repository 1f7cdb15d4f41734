-- ===== src/Modbus/Errors.antt =====
-- The errors on the wire that the CRC of src/sensors/modbus.py detects.
use mathlib.Core.Path.{subst}
use wqm.Prelude.{
  ℕ, zero, suc, ◌+◌, ◌-◌, ◌/◌, ◌%◌, ◌≤◌, ◌<◌, ◌≡◌, ◌≢◌, ◌⊎◌, inl, inr, refl, sym, ap, ◌∙◌, true,
  false, [], ◌∷◌, ◌++◌, arith, length, length-append, take, Bool-cases,
}
use wqm.Modbus.{Bytes, byte, crc16, check_crc}
use wqm.Modbus.Crc.{crc_from-byte, byte-append}

-- What a frame of `n` bytes that passes says of its last two bytes.
record Passes (frame : Bytes) (n : ℕ) : Type 0 where
  whole : 4 ≤ n
  low : byte frame (n - 2) ≡ crc16 (take (n - 2) frame) % 256
  high : byte frame (n - 1) ≡ crc16 (take (n - 2) frame) / 256

check_crc-Passes :
    (frame : Bytes) (n : ℕ) → length frame ≡ n → check_crc frame ≡ true → Passes frame n
unfolding check_crc
check_crc-Passes frame n e h =
    subst (Passes frame) e
      (record { whole = ground (arith, h); low = ground (arith, h); high = ground (arith, h) })

length-change :
    (before after : Bytes) (a b : ℕ) → length (before ++ a ∷ after) ≡ length (before ++ b ∷ after)
length-change [] after a b = refl
length-change (t ∷ before) after a b = ap suc (length-change before after a b)

-- The bytes before the change, and the others.
take-before :
    (n : ℕ) (before after : Bytes) (a b : ℕ)
    → n ≤ length before
    → take n (before ++ a ∷ after) ≡ take n (before ++ b ∷ after)
take-before zero before after a b h = refl
take-before (suc n) [] after a b h = absurd (omega arith)
take-before (suc n) (t ∷ before) after a b h =
    ap (λ l. t ∷ l) (take-before n before after a b (omega arith))

take-after :
    (n k : ℕ) (before after : Bytes) (a : ℕ)
    → n ≡ length before + suc k
    → take n (before ++ a ∷ after) ≡ before ++ a ∷ take k after
take-after zero k before after a e = absurd (omega arith)
take-after (suc n) k [] after a e = ap (λ j. a ∷ take j after) (omega arith)
take-after (suc n) k (t ∷ before) after a e =
    ap (λ l. t ∷ l) (take-after n k before after a (omega arith))

byte-change :
    (before after : Bytes) (a b i : ℕ)
    → i ≢ length before
    → byte (before ++ a ∷ after) i ≡ byte (before ++ b ∷ after) i
byte-change [] after a b zero h = absurd (h refl)
byte-change [] after a b (suc i) h = refl
byte-change (t ∷ before) after a b zero h = refl
byte-change (t ∷ before) after a b (suc i) h = byte-change before after a b i (λ e. h (ap suc e))

byte-here : (before after : Bytes) (a i : ℕ) → i ≡ length before → byte (before ++ a ∷ after) i ≡ a
byte-here before after a i e = byte-append before (a ∷ after) 0 i (omega arith)

same_halves : (x y : ℕ) → x % 256 ≡ y % 256 → x / 256 ≡ y / 256 → x ≡ y
same_halves x y low high = omega arith

-- The changed byte is among the last two, or before them.
place : (i n : ℕ) → i < n → 4 ≤ n → (i ≡ n - 1) ⊎ ((i ≡ n - 2) ⊎ (i < n - 2))
place i n h long = omega arith

-- Two frames that pass the check do not differ in one byte alone.
both_pass :
    (before after : Bytes) (a b n : ℕ)
    → a < 65536
    → b < 65536
    → length before < n
    → Passes (before ++ a ∷ after) n
    → Passes (before ++ b ∷ after) n
    → a ≡ b
unfolding crc16
both_pass before after a b n ha hb size p q = elim (place (length before) n size p.whole) [
  | inl last ↦
      let same : crc16 (take (n - 2) (before ++ a ∷ after))
          ≡ crc16 (take (n - 2) (before ++ b ∷ after)) =
        ap crc16 (take-before (n - 2) before after a b (omega arith)) in
      sym (byte-here before after a (n - 1) (sym last))
      ∙ (p.high
          ∙ (ap (λ c. c / 256) same ∙ (sym q.high ∙ byte-here before after b (n - 1) (sym last))))
  | inr (inl second) ↦
      let same : crc16 (take (n - 2) (before ++ a ∷ after))
          ≡ crc16 (take (n - 2) (before ++ b ∷ after)) =
        ap crc16 (take-before (n - 2) before after a b (omega arith)) in
      sym (byte-here before after a (n - 2) (sym second))
      ∙ (p.low
          ∙ (ap (λ c. c % 256) same ∙ (sym q.low ∙ byte-here before after b (n - 2) (sym second))))
  | inr (inr inside) ↦
      let k = n - 2 - length before - 1 in
      let whole_a = take-after (n - 2) k before after a (omega arith) in
      let whole_b = take-after (n - 2) k before after b (omega arith) in
      let same : crc16 (take (n - 2) (before ++ a ∷ after))
          ≡ crc16 (take (n - 2) (before ++ b ∷ after)) =
        same_halves _ _
          (sym p.low ∙ (byte-change before after a b (n - 2) (λ e. omega arith) ∙ q.low))
          (sym p.high ∙ (byte-change before after a b (n - 1) (λ e. omega arith) ∙ q.high)) in
      crc_from-byte before (take k after) 65535 a b (omega arith) ha hb
        (ap crc16 (sym whole_a) ∙ (same ∙ ap crc16 whole_b))
]

-- A frame that passes the check, data and CRC together, is refused when any one of its bytes has
-- become another byte.
pub corrupted_refused :
    (before after : Bytes) (a b : ℕ)
    → a < 256
    → b < 256
    → a ≢ b
    → check_crc (before ++ a ∷ after) ≡ true
    → check_crc (before ++ b ∷ after) ≡ false
corrupted_refused before after a b ha hb different h =
    let n = length (before ++ a ∷ after) in
    let size : length before < n = omega (arith, length-append before (a ∷ after)) in
    elim (Bool-cases (check_crc (before ++ b ∷ after))) [
      | inr refused ↦ refused
      | inl passes ↦ absurd (
          different (
            both_pass before after a b n (omega arith) (omega arith) size
              (check_crc-Passes (before ++ a ∷ after) n refl h)
              (check_crc-Passes (before ++ b ∷ after) n (length-change before after b a) passes)))
    ]
