-- ===== src/Ota/SelfTest.antt =====
-- `_self_test` of src/ota/agent.py: it ends, and what its result says.
use wqm.Prelude.{ℕ, ◌≤◌, ◌<◌, ◌≡◌, Bool, false}
use wqm.Ota.Cycle.{Probe, passes}

-- What a result is of: a turn at which the unit passes, or one at or past the deadline, and of the turns
-- before it neither holds.
pub record IsVerdict (probe : ℕ → Probe) (deadline n : ℕ) (b : Bool) : Type 0 where
  pub turn : ℕ
  pub result : passes (probe turn) ≡ b
  pub earlier :
      (k : ℕ) → n ≤ k → k < turn → (passes (probe k) ≡ false) × ((probe k).clock < deadline)
  pub at_end : b ≡ false → deadline ≤ (probe turn).clock
