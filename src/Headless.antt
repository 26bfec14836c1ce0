-- ===== src/Headless.antt =====
-- headless/output.go: the exit code of a run.
pub mod Trust
mod Tests
use driver_os.Base.{ℕ, ◌≡◌, ◌↔◌, ◌≤◌, arith}
use driver_os.Agent.Outcome.{
  Outcome, answered, unverified, hit_cap, killed_repeat, killed_spiral, killed_stagnant,
  hit_deadline, hit_budget, provider_err, hit_context_limit, refused_unsafe, scope_violation,
  canceled,
}

unfoldable pub exit_code_for : Outcome → ℕ
exit_code_for answered = 0
exit_code_for unverified = 2
exit_code_for hit_cap = 3
exit_code_for hit_deadline = 3
exit_code_for hit_context_limit = 3
exit_code_for hit_budget = 3
exit_code_for killed_repeat = 4
exit_code_for killed_spiral = 4
exit_code_for killed_stagnant = 4
exit_code_for provider_err = 5
exit_code_for refused_unsafe = 6
exit_code_for canceled = 7
exit_code_for scope_violation = 8
exit_code_for _ = 1

-- A run exits with 0 exactly when it answered, and no exit code is above 8.
pub exit_code_for-answered :
    (o : Outcome) → ((exit_code_for o ≡ 0) ↔ (o ≡ answered)) × (exit_code_for o ≤ 8)
unfolding exit_code_for
exit_code_for-answered o = (ground arith, ground arith)
