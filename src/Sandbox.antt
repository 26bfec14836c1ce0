-- ===== src/Sandbox.antt =====
-- sandbox/: the gate in front of a sandbox's execution.
pub mod Gated
