-- ===== src/Agent.antt =====
-- agent/ and runspec/: the loop's observations, detectors, evidence and closing gates and review.
pub mod Outcome
pub mod Evidence
pub mod Observation
pub mod Policy
pub mod Tracker
pub mod Spiral
pub mod Spend
pub mod Gates
pub mod Review
pub mod Standing
pub mod Fence
pub mod Repro
pub mod TextLoop
pub mod Closing
