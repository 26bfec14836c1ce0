-- ===== src/Agent/Policy.antt =====
-- runspec/types.go and the resolution of the no-progress thresholds in runspec/runspec.go. The
-- thresholds are signed in Go; a negative one is replaced as zero is, so that ℕ loses nothing.
mod Tests
use driver_os.Base.{
  ℕ, suc, ◌≤◌, ◌<◌, ◌≡◌, ◌≢◌, refl, arith, Bool, [], ◌∷◌, Option, none, some, Text, codes, ◌==◌,
  is_empty, if◌then◌else◌,
}

pub record TerminationPolicy : Type 0 where
  pub version : Text
  pub max_repeats : ℕ
  pub max_reasoning_repeats : ℕ
  pub max_stagnant : ℕ
  pub nav_spiral_window : ℕ
  pub wander_multiple : ℕ
  pub frontier_cap : ℕ
  pub green_repeat_threshold : ℕ

abbrev pub default_termination_policy : TerminationPolicy
default_termination_policy = record {
  version = codes "tp-2026-07-10";
  max_repeats = 2;
  max_reasoning_repeats = 6;
  max_stagnant = 3;
  nav_spiral_window = 4;
  wander_multiple = 4;
  frontier_cap = 64;
  green_repeat_threshold = 3;
}

-- agent/termination.go: telemetry that the detectors write and never read.
pub record DetectorCounters : Type 0 where
  pub repeat : ℕ
  pub reasoning_repeat : ℕ
  pub tool_obs_repeat : ℕ
  pub stagnant : ℕ
  pub spiral_cycle : ℕ
  pub spiral_wander : ℕ
  pub churn_nudge : ℕ
  pub green_repeat_nudge : ℕ
  pub finish_nudge : ℕ
  pub answer_nudge : ℕ
  pub diagnostics : ℕ
  pub terminated_by : Text
  pub terminated_at_iter : ℕ

unfoldable pub terminated : DetectorCounters → Text → ℕ → DetectorCounters
terminated c by iter = record c { terminated_by = by; terminated_at_iter = iter }

-- `if r.X <= 0 { r.X = d.X }`
or_default : ℕ → ℕ → ℕ
or_default n d = if n == 0 then d else n

unfoldable pub resolve_termination : Option TerminationPolicy → TerminationPolicy
unfolding or_default
resolve_termination none = default_termination_policy
resolve_termination (some r) =
    let d = default_termination_policy in
    record {
      version = if is_empty r.version then d.version else r.version;
      max_repeats = or_default r.max_repeats d.max_repeats;
      max_reasoning_repeats = or_default r.max_reasoning_repeats d.max_reasoning_repeats;
      max_stagnant = or_default r.max_stagnant d.max_stagnant;
      nav_spiral_window = or_default r.nav_spiral_window d.nav_spiral_window;
      wander_multiple = or_default r.wander_multiple d.wander_multiple;
      frontier_cap = or_default r.frontier_cap d.frontier_cap;
      green_repeat_threshold = or_default r.green_repeat_threshold d.green_repeat_threshold;
    }

-- Every detector has a threshold to fire at.
pub record IsComplete (p : TerminationPolicy) : Type 0 where
  pub version_given : p.version ≢ []
  pub repeats : 0 < p.max_repeats
  pub reasoning_repeats : 0 < p.max_reasoning_repeats
  pub stagnant : 0 < p.max_stagnant
  pub window : 0 < p.nav_spiral_window
  pub wander : 0 < p.wander_multiple
  pub cap : 0 < p.frontier_cap
  pub green_repeat : 0 < p.green_repeat_threshold

pub resolve_termination-IsComplete :
    (p : Option TerminationPolicy) → IsComplete (resolve_termination p)
unfolding resolve_termination
resolve_termination-IsComplete none = record {
  version_given = λ e. cc;
  repeats = omega arith;
  reasoning_repeats = omega arith;
  stagnant = omega arith;
  window = omega arith;
  wander = omega arith;
  cap = omega arith;
  green_repeat = omega arith;
}
resolve_termination-IsComplete (some r) = ground arith

resolve_termination_complete :
    (r : TerminationPolicy) → IsComplete r → resolve_termination (some r) ≡ r
unfolding resolve_termination
resolve_termination_complete r h = ground arith

-- The policy that is resolved has every threshold positive, resolving it again changes nothing, and
-- a policy that has all of them already is kept as it is.
pub resolve_termination_total :
    (p : Option TerminationPolicy)
    → IsComplete (resolve_termination p)
      × (resolve_termination (some (resolve_termination p)) ≡ resolve_termination p)
      × ((r : TerminationPolicy) → IsComplete r → resolve_termination (some r) ≡ r)
resolve_termination_total p = (
  resolve_termination-IsComplete p,
  resolve_termination_complete (resolve_termination p) (resolve_termination-IsComplete p),
  resolve_termination_complete,
)
