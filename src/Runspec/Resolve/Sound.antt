-- ===== src/Runspec/Resolve/Sound.antt =====
-- What every resolved policy is fit for: its ranges, its thresholds, and the floor of its trust.
use driver_os.Base.{
  ◌≡◌, ◌≤◌, ◌<◌, refl, subst, arith, ℤ, pos_part, is_negative, true, false, Option, none, some,
  ◌==◌, Bool-cases, if◌then◌else◌, inl, inr,
}
use driver_os.Agent.Policy.{
  TerminationPolicy, default_termination_policy, IsComplete, resolve_termination_total,
}
use driver_os.Profile.Posture.{
  Trust, floor_for, isolation_value, network_off, network_unrestricted, network_value, TrustError,
}
use driver_os.Profile.Posture.Order.{Meets, enforce-trust_name}
use driver_os.Runspec.{RequestedConfig, PolicyValue, ResolvedSpec, TerminationRequest}
use driver_os.Runspec.Resolve.{
  Digests, ok, or_error, resolved_thresholds, with_window, candidate, floor_error, validate_policy,
  defaulted, settled, with_profile, selected_trust, resolve_policy, resolve_trace, resolve,
  as_below,
}
use driver_os.Runspec.Resolve.Checks.{>>=-eq-ok, Passed, resolve_policy-Passed}

-- The values of the schema, every threshold, and the floor of a trust profile. The worktree has no
-- part in it: a policy's worktree is compared with the floor only where it asks for one.
pub record IsSound (t : Trust) (p : PolicyValue) : Type 0 where
  pub iterations : 0 < pos_part p.max_iterations
  pub tokens : 0 < pos_part p.max_tokens
  pub run_timeout : 0 < pos_part p.run_timeout
  pub verify_timeout : 0 < pos_part p.verify_timeout
  pub rounds : 0 < pos_part p.review_rounds
  pub read_window : is_negative p.read_window ≡ false
  pub churn : is_negative p.churn_nudge_runs ≡ false
  pub finish_window : is_negative p.finish_nudge_window ≡ false
  pub answer_window : is_negative p.answer_nudge_window ≡ false
  pub thresholds : IsComplete p.termination_policy
  pub isolation : isolation_value (floor_for t).min_isolation ≤ isolation_value p.min_isolation
  pub network : (floor_for t).network ≡ network_off → p.require_network_off ≡ true

-- The ranges of the schema.
record InRange (p : PolicyValue) : Type 0 where
  iterations : 0 < pos_part p.max_iterations
  tokens : 0 < pos_part p.max_tokens
  run_timeout : 0 < pos_part p.run_timeout
  verify_timeout : 0 < pos_part p.verify_timeout
  rounds : 0 < pos_part p.review_rounds
  read_window : is_negative p.read_window ≡ false
  churn : is_negative p.churn_nudge_runs ≡ false
  finish_window : is_negative p.finish_nudge_window ≡ false
  answer_window : is_negative p.answer_nudge_window ≡ false

validate_policy-InRange : (p : PolicyValue) → validate_policy p ≡ none → InRange p
unfolding validate_policy
validate_policy-InRange p h = ground arith

abbrev closed : TerminationPolicy → TerminationPolicy
closed t = record t {
  nav_spiral_window =
      if t.nav_spiral_window == 0
      then (default_termination_policy).nav_spiral_window
      else t.nav_spiral_window;
}

window-IsComplete :
    (t : TerminationPolicy) (o : Option ℤ) → IsComplete t → IsComplete (closed (with_window o t))
window-IsComplete t none h = ground arith
window-IsComplete t (some n) h = record {
  version_given = h.version_given;
  repeats = h.repeats;
  reasoning_repeats = h.reasoning_repeats;
  stagnant = h.stagnant;
  window = ground arith;
  wander = h.wander;
  cap = h.cap;
  green_repeat = h.green_repeat;
}

resolved_thresholds-IsComplete :
    (o : Option TerminationRequest) (p : TerminationPolicy) → IsComplete (resolved_thresholds o p)
unfolding resolved_thresholds
resolved_thresholds-IsComplete none p = (resolve_termination_total (some p)).0
resolved_thresholds-IsComplete (some q) p = (resolve_termination_total (some _)).0

as_below-none : (o : Option TrustError) → as_below o ≡ none → o ≡ none
as_below-none none h = refl
as_below-none (some x) h = cc

floor_error-Meets :
    (t : Trust) (p : PolicyValue) → floor_error t p ≡ none → Meets (candidate t p) (floor_for t)
unfolding floor_error
floor_error-Meets t p h = enforce-trust_name t (candidate t p) (as_below-none _ h)

absurd_off : network_value network_off ≤ network_value network_unrestricted → ⊥
absurd_off h = omega arith

network-off :
    (t : Trust) (p : PolicyValue)
    → network_value (floor_for t).network ≤ network_value (candidate t p).network
    → (floor_for t).network ≡ network_off
    → p.require_network_off ≡ true
unfolding candidate
network-off t p h e = elim (Bool-cases p.require_network_off) [
  | inl b ↦ b
  | inr b ↦ absurd (absurd_off (rw (e, b) at h))
]

pub Passed-IsSound :
    (r : RequestedConfig) (t : Trust) (q p : PolicyValue) → Passed r t q p → IsSound t p
unfolding defaulted settled candidate
Passed-IsSound r t q p h =
    let v = validate_policy-InRange (defaulted r (settled r q)) h.ranges in
    let m = floor_error-Meets t (settled r q) h.floor in
    let c =
      window-IsComplete _ r.nav_spiral_window
        (resolved_thresholds-IsComplete r.termination_policy q.termination_policy) in
    subst (IsSound t) h.policy (record {
      iterations = v.iterations;
      tokens = v.tokens;
      run_timeout = v.run_timeout;
      verify_timeout = v.verify_timeout;
      rounds = v.rounds;
      read_window = v.read_window;
      churn = v.churn;
      finish_window = v.finish_window;
      answer_window = v.answer_window;
      thresholds = c;
      isolation = m.isolation;
      network = network-off t (settled r q) m.network;
    })

-- A request that resolves, whatever it asks for: its trust profile is one of the four, and the policy
-- has positive budgets, timeouts and review rounds, no negative window, every threshold of the
-- detectors positive, an isolation that is not below the floor of that profile, and the network off
-- where that floor has it off.
pub resolve-IsSound :
    (d : Digests) (r : RequestedConfig) (s : ResolvedSpec)
    → resolve d r ≡ ok s
    → (t : Trust) × (selected_trust r ≡ ok t) × IsSound t s.policy
unfolding resolve
resolve-IsSound d r s h =
    let (t, e, f) = >>=-eq-ok (selected_trust r) _ s h in
    let (x, g, k) = >>=-eq-ok (with_profile r t) _ s f in
    let (p, l, u) = >>=-eq-ok (resolve_policy r t x.0) _ s k in
    let (b, v, w) = >>=-eq-ok (or_error (d.of_policy p)) _ s u in
    let (y, z, q) = >>=-eq-ok (or_error (d.of_trace (resolve_trace r t x.1))) _ s w in
    (t, e, subst (IsSound t) (cc q) (Passed-IsSound r t x.0 p (resolve_policy-Passed r t x.0 p l)))
