-- ===== src/Prelude/Bits.antt =====
-- The exclusive or of machine words: `a ^ b` of Python at numbers of `n` bits.
use Prim.Native.Nat.{ℕ, zero, suc, ◌+◌, ◌*◌, ◌/◌, ◌%◌, ◌^◌, ◌≤◌, ◌<◌}
use mathlib.Core.Path.{◌≡◌, sym, ap, ◌∙◌}
use native.Mathlib.Omega.{arith}
use native.Mathlib.Nat.{pow-suc}

-- The low `n` bits of the exclusive or.
unfoldable pub xor_bits : ℕ → ℕ → ℕ → ℕ
xor_bits zero a b = 0
xor_bits (suc n) a b = (a % 2 + b % 2) % 2 + 2 * xor_bits n (a / 2) (b / 2)

-- The lowest bit and the others, put together and taken apart.
xor_bits_step :
    (a b r back : ℕ)
    → back ≡ a / 2
    → (((a % 2 + b % 2) % 2 + 2 * r) / 2 ≡ r)
      × ((((a % 2 + b % 2) % 2 + 2 * r) % 2 + b % 2) % 2 + 2 * back ≡ a)
xor_bits_step a b r back h = (omega arith, omega (arith, h))

pow_half : (a n : ℕ) → a < 2 ^ suc n → a / 2 < 2 ^ n
pow_half a n h = omega (arith, h, pow-suc 2 n)

pub xor_bits_twice : (n a b : ℕ) → a < 2 ^ n → xor_bits n (xor_bits n a b) b ≡ a
unfolding xor_bits
xor_bits_twice zero a b h = omega arith
xor_bits_twice (suc n) a b h =
    let step =
      xor_bits_step a b (xor_bits n (a / 2) (b / 2))
        (xor_bits n (xor_bits n (a / 2) (b / 2)) (b / 2))
        (xor_bits_twice n (a / 2) (b / 2) (pow_half a n h)) in
    rw step.0 step.1

pub xor_bits_bound : (n a b : ℕ) → xor_bits n a b < 2 ^ n
unfolding xor_bits
xor_bits_bound zero a b = omega arith
xor_bits_bound (suc n) a b = omega (arith, xor_bits_bound n (a / 2) (b / 2), pow-suc 2 n)

-- Words that differ still differ after the same exclusive or.
pub xor_bits_injective :
    (n a b c : ℕ) → a < 2 ^ n → b < 2 ^ n → xor_bits n a c ≡ xor_bits n b c → a ≡ b
xor_bits_injective n a b c ha hb h =
    sym (xor_bits_twice n a c ha) ∙ (ap (λ r. xor_bits n r c) h ∙ xor_bits_twice n b c hb)

pub xor_bits_comm : (n a b : ℕ) → xor_bits n a b ≡ xor_bits n b a
unfolding xor_bits
xor_bits_comm zero a b = omega arith
xor_bits_comm (suc n) a b = omega (arith, xor_bits_comm n (a / 2) (b / 2))

-- A top bit that only one of the words has stays.
pub xor_bits_top :
    (n a b : ℕ) → a < 2 ^ n → 2 ^ n ≤ b → b < 2 ^ suc n → 2 ^ n ≤ xor_bits (suc n) a b
unfolding xor_bits
xor_bits_top zero a b ha hb hb' = omega arith
xor_bits_top (suc n) a b ha hb hb' = omega (
  arith,
  ha,
  hb,
  hb',
  pow-suc 2 n,
  pow-suc 2 (suc n),
  xor_bits_top n (a / 2) (b / 2) (pow_half a n ha) (omega (arith, hb, pow-suc 2 n))
      (pow_half b (suc n) hb'),
)
