-- ===== src/Runspec/Resolve/Checks.antt =====
-- What the checks of a resolution let through.
use driver_os.Base.{◌≡◌, refl, ap, Option, none, some}
use driver_os.Runspec.{RequestedConfig, PolicyValue}
use driver_os.Profile.Posture.{Trust}
use driver_os.Runspec.Resolve.{
  RunspecError, Result, ok, err, ◌>>=◌, ◌>>◌, raise, thresholds_error, window_error,
  windows_conflict, floor_error, validate_policy, defaulted, settled, resolve_policy,
}

-- A check that a successful chain went through found nothing.
pub raise-ok {ℓ} :
    {B : Type ℓ} (o : Option RunspecError) (k : Result B) (b : B)
    → (raise o >> k) ≡ ok b
    → (o ≡ none) × (k ≡ ok b)
raise-ok none k b h = (refl, h)
raise-ok (some x) k b h = cc

pub >>=-eq-ok {ℓ κ} :
    {A : Type ℓ} {B : Type κ} (m : Result A) (f : A → Result B) (b : B)
    → (m >>= f) ≡ ok b
    → (a : A) × (m ≡ ok a) × (f a ≡ ok b)
>>=-eq-ok (ok a) f b h = (a, refl, h)
>>=-eq-ok (err e) f b h = cc

-- Every check of a policy that is resolved has passed.
pub record Passed (r : RequestedConfig) (t : Trust) (q p : PolicyValue) : Type 0 where
  pub thresholds : thresholds_error r.termination_policy ≡ none
  pub window : window_error r.nav_spiral_window ≡ none
  pub windows : windows_conflict r.nav_spiral_window r.termination_policy ≡ none
  pub floor : floor_error t (settled r q) ≡ none
  pub ranges : validate_policy (defaulted r (settled r q)) ≡ none
  pub policy : defaulted r (settled r q) ≡ p

pub resolve_policy-Passed :
    (r : RequestedConfig) (t : Trust) (q p : PolicyValue)
    → resolve_policy r t q ≡ ok p
    → Passed r t q p
unfolding resolve_policy
resolve_policy-Passed r t q p h =
    let a = raise-ok (thresholds_error r.termination_policy) _ p h in
    let b = raise-ok (window_error r.nav_spiral_window) _ p a.1 in
    let c = raise-ok (windows_conflict r.nav_spiral_window r.termination_policy) _ p b.1 in
    let d = raise-ok (floor_error t (settled r q)) _ p c.1 in
    let e = raise-ok (validate_policy (defaulted r (settled r q))) _ p d.1 in
    record {
      thresholds = a.0;
      window = b.0;
      windows = c.0;
      floor = d.0;
      ranges = e.0;
      policy = cc e.1;
    }

pub Passed-resolve_policy :
    (r : RequestedConfig) (t : Trust) (q p : PolicyValue)
    → Passed r t q p
    → resolve_policy r t q ≡ ok p
unfolding resolve_policy
Passed-resolve_policy r t q p h =
    rw (h.thresholds, h.window, h.windows, h.floor, h.ranges) (ap ok h.policy)
