-- ===== src/Agent/Observation.antt =====
-- The readings of a `run` observation: agent/tools.go (isRunFailure to runFingerprint),
-- agent/verify.go (infraFaultSignature) and agent/tracker.go (classifyRunObservation).
pub mod Fingerprint
mod Tests
use driver_os.Base.{
  ℕ, Bool, true, false, not, ◌&&◌, List, [], ◌∷◌, Option, none, some, Text, codes, if◌then◌else◌,
  is_empty, has_prefix, contains, to_lower, before, ◌≡◌, ◌↔◌, arith,
}
use driver_os.Agent.Evidence.{EvidenceStatus, inconclusive, failed, passed}

unfoldable pub is_run_failure : Text → Bool
is_run_failure obs = has_prefix obs (codes "exit ") && not (has_prefix obs (codes "exit 0 "))

unfoldable pub is_run_timeout : Text → Bool
is_run_timeout obs = contains (before b'\n' obs) (codes "[timed out")

unfoldable pub is_run_success : Text → Bool
is_run_success obs = has_prefix obs (codes "exit 0 ")

abbrev infra_signatures : List Text
infra_signatures =
    codes "disk quota exceeded"
    ∷ codes "no space left on device"
    ∷ codes "cannot allocate memory"
    ∷ codes "too many open files"
    ∷ []

first_found : Text → List Text → Text
first_found lower [] = []
first_found lower (sig ∷ sigs) = if contains lower sig then sig else first_found lower sigs

unfoldable pub infra_fault_signature : Text → Text
unfolding first_found
infra_fault_signature out =
    if contains out (codes "--- FAIL") then [] else first_found (to_lower out) infra_signatures

unfoldable pub is_infra_fault : Text → Bool
is_infra_fault out = not (is_empty (infra_fault_signature out))

-- VerificationCause; `no_cause` is the empty string.
pub data Cause : Type 0 where
  no_cause test_failure timeout environment cancellation execution_error : Cause

unfoldable pub classify_run_observation : Text → EvidenceStatus × Cause
classify_run_observation obs =
    if is_run_success obs
    then (passed, no_cause)
    else if is_run_timeout obs
    then (inconclusive, timeout)
    else if is_infra_fault obs
    then (inconclusive, environment)
    else if has_prefix obs (codes "ERROR:") && contains (to_lower obs) (codes "cancel")
    then (inconclusive, cancellation)
    else if has_prefix obs (codes "ERROR:")
    then (inconclusive, execution_error)
    else if is_run_failure obs
    then (failed, test_failure)
    else (inconclusive, execution_error)

exit_not_error : (obs : Text) → is_run_failure obs ≡ true → has_prefix obs (codes "ERROR:") ≡ false
unfolding is_run_failure has_prefix
exit_not_error [] h = cc
exit_not_error (c ∷ obs) h = ground arith

exit_not_success : (obs : Text) → is_run_failure obs ≡ true → is_run_success obs ≡ false
unfolding is_run_failure is_run_success
exit_not_success obs h = ground arith

-- An observation counts as passed exactly when it is a clean exit, and as failed exactly when it is a
-- nonzero exit that neither timed out nor hit an environment fault; the cause says which.
pub classify_exact :
    (obs : Text)
    → ((classify_run_observation obs).0 ≡ passed ↔ is_run_success obs ≡ true)
      × ((classify_run_observation obs).0 ≡ failed
          ↔ (is_run_failure obs ≡ true)
            × (is_run_timeout obs ≡ false)
            × (is_infra_fault obs ≡ false))
      × ((classify_run_observation obs).1 ≡ test_failure
          ↔ (classify_run_observation obs).0 ≡ failed)
unfolding classify_run_observation
classify_exact obs = (
  ((λ h. ground arith), λ h. ground arith),
  (
    (λ h. (ground arith, ground arith, ground arith)),
    λ h. ground (arith, exit_not_success obs, exit_not_error obs),
  ),
  ((λ h. ground arith), λ h. ground arith),
)
