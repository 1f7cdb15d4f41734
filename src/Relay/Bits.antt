-- ===== src/Relay/Bits.antt =====
-- The 4-bit state mask of src/control/relay.py: `|= 1 << k`, `&= ~(1 << k)` and the bit test.
use Prim.Native.Nat.{bit_and, bit_or}
use wqm.Prelude.{
  ℕ, ◌-◌, ◌^◌, ◌<◌, ◌≡◌, refl, Bool, true, false, not, ◌&&◌, arith, ltb, ◌==◌, if◌then◌else◌,
  holds_under, holds_under_lem,
}

-- state | (1 << k)
unfoldable pub set_bit : ℕ → ℕ → ℕ
set_bit s k = bit_or s (2 ^ k)

-- state & ~(1 << k), on a number that is not negative
unfoldable pub clear_bit : ℕ → ℕ → ℕ
clear_bit s k = s - bit_and s (2 ^ k)

-- bool(state & (1 << k))
unfoldable pub test_bit : ℕ → ℕ → Bool
test_bit s k = not (bit_and s (2 ^ k) == 0)

abbrev bool_eq : Bool → Bool → Bool
bool_eq true b = b
bool_eq false b = not b

-- The facts at one mask and two bits, as a test.
abbrev bit_facts : ℕ → ℕ → ℕ → Bool
bit_facts s k j =
    bool_eq (test_bit (set_bit s k) j) (if k == j then true else test_bit s j)
    && bool_eq (test_bit (clear_bit s k) j) (if k == j then false else test_bit s j)
    && ltb (set_bit s k) 16
    && ltb (clear_bit s k) 16

abbrev table : ℕ → ℕ → Bool
table s k = holds_under 4 (bit_facts s k)

table_holds : holds_under 16 (λ s. holds_under 4 (table s)) ≡ true
unfolding holds_under set_bit clear_bit test_bit
table_holds = refl

at_entry : (s k j : ℕ) → s < 16 → k < 4 → j < 4 → bit_facts s k j ≡ true
at_entry s k j hs hk hj =
    holds_under_lem 4 (bit_facts s k) j
      (holds_under_lem 4 (table s) k
        (holds_under_lem 16 (λ t. holds_under 4 (table t)) s table_holds hs) hk)
      hj

module _ (s k j : ℕ) (hs : s < 16) (hk : k < 4) (hj : j < 4) where
  pub test-set : test_bit (set_bit s k) j ≡ (if k == j then true else test_bit s j)
  test-set = ground (arith, at_entry s k j hs hk hj)

  pub test-clear : test_bit (clear_bit s k) j ≡ (if k == j then false else test_bit s j)
  test-clear = ground (arith, at_entry s k j hs hk hj)

module _ (s k : ℕ) (hs : s < 16) (hk : k < 4) where
  pub set-lt : set_bit s k < 16
  set-lt = ground (arith, at_entry s k 0 hs hk (omega arith))

  pub clear-lt : clear_bit s k < 16
  clear-lt = ground (arith, at_entry s k 0 hs hk (omega arith))
