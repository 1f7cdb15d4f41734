-- ===== src/Sensing.antt =====
-- The health of the sensors and the pace of the sampling, for src/sensing: what is watched between the
-- readings and the rules.
pub mod Statistics
pub mod Drift
pub mod Monitor
pub mod Adaptive
mod Suspended
mod Alternate
mod Cause
mod Pace
mod Tests
