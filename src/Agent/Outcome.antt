-- ===== src/Agent/Outcome.antt =====
-- The outcome of a run (agent/agent.go).
pub data Outcome : Type 0 where
  answered unverified hit_cap killed_repeat killed_spiral killed_stagnant hit_deadline : Outcome
  hit_budget provider_err hit_context_limit refused_unsafe scope_violation canceled : Outcome
  -- The empty string, which stands for "no outcome yet", and any other text.
  no_outcome : Outcome
  other_outcome : Outcome
