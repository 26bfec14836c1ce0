-- ===== src/Headless/Trust/Planned.antt =====
-- What a planned posture holds, whatever the flags.
use driver_os.Base.{
  ◌≡◌, refl, sym, ap, ◌∙◌, subst, arith, true, false, List, Option, none, some, Text, codes,
}
use driver_os.Profile.Posture.{
  Trust, trusted_local, reviewed_local, container, untrusted, trust_name, floor_for,
  isolation_kernel, secrets_none, Posture, TrustError, enforce,
}
use driver_os.Profile.Posture.Order.{Meets, enforce-trust_name}
use driver_os.Headless.Trust.{
  Flags, TrustPlan, PlanResult, planned, rejected, default_policy, tightened, switched,
  posture_for_plan, unless_below, enforced, enforced_in, plan_tightened, plan_trust,
}

-- The sandbox is the container one, off the network, on a copy of the tree.
pub record IsContained (p : TrustPlan) : Type 0 where
  pub sandbox : p.sandbox_kind ≡ codes "docker"
  pub network : p.network ≡ false
  pub worktree : p.force_worktree ≡ true

-- And behind the policy, under a kernel of its own, without secrets or the project's skills.
pub record IsConfined (p : TrustPlan) : Type 0 where
  pub contained : IsContained p
  pub runtime : p.runtime ≡ codes "runsc"
  pub isolation : p.min_isolation ≡ isolation_kernel
  pub policy : p.gate_policy ≡ some default_policy
  pub secrets : p.secrets ≡ secrets_none
  pub skills : p.allow_project_skills ≡ false

-- What each profile holds.
abbrev pub Holds : Trust → TrustPlan → Type 0
Holds trusted_local p = Unit
Holds reviewed_local p = (p.force_worktree ≡ true) × (p.gate_policy ≡ some default_policy)
Holds container p = IsContained p
Holds untrusted p = IsConfined p

switched-Holds :
    (env : List Text) (t : Trust) (f : Flags) (p : TrustPlan)
    → switched env t f ≡ planned p
    → (p.trust ≡ t) × Holds t p
unfolding switched
switched-Holds env trusted_local f p h = (ground arith, tt)
switched-Holds env reviewed_local f p h = ground arith
switched-Holds env container f p h = ground arith
switched-Holds env untrusted f p h = ground arith

unless_below-planned :
    (o : Option TrustError) (p q : TrustPlan) → unless_below o p ≡ planned q → (o ≡ none) × (p ≡ q)
unless_below-planned none p q h = (refl, cc h)
unless_below-planned (some e) p q h = cc

enforced_in-planned :
    (o : Option Posture) (p q : TrustPlan)
    → enforced_in p o ≡ planned q
    → (x : Posture) × (o ≡ some x) × Meets x (floor_for p.trust) × (p ≡ q)
enforced_in-planned none p q h = cc
enforced_in-planned (some x) p q h =
    let k = unless_below-planned (enforce (trust_name p.trust) x) p q h in
    (x, refl, enforce-trust_name p.trust x k.0, k.1)

-- The posture of a plan meets the floor of its trust profile.
pub record IsFloored (p : TrustPlan) : Type 0 where
  pub posture : Posture
  pub given : posture_for_plan p ≡ some posture
  pub meets : Meets posture (floor_for p.trust)

enforced-planned :
    (r : PlanResult) (q : TrustPlan) → enforced r ≡ planned q → (r ≡ planned q) × IsFloored q
enforced-planned (rejected e) q h = cc
enforced-planned (planned p) q h =
    let (x, a, m, e) = enforced_in-planned (posture_for_plan p) p q h in
    (ap planned e, subst IsFloored e (record { posture = x; given = a; meets = m }))

tightened-untrusted :
    (t : Trust) (f : Flags) (u : Trust) → tightened t f ≡ some u → t ≡ untrusted → u ≡ untrusted
unfolding tightened
tightened-untrusted t f u h e = ground arith

-- A plan that a headless run accepts.
pub record IsPlanned (t : Trust) (f : Flags) (p : TrustPlan) : Type 0 where
  pub trust : tightened t f ≡ some p.trust
  pub kept : t ≡ untrusted → p.trust ≡ untrusted
  pub holds : Holds p.trust p
  pub floored : IsFloored p

plan_tightened-IsPlanned :
    (env : List Text) (t : Trust) (f : Flags) (o : Option Trust) (p : TrustPlan)
    → tightened t f ≡ o
    → plan_tightened env f o ≡ planned p
    → IsPlanned t f p
plan_tightened-IsPlanned env t f none p e h = cc
plan_tightened-IsPlanned env t f (some u) p e h =
    let k = enforced-planned (switched env u f) p h in
    let s = switched-Holds env u f p k.0 in
    record {
      trust = e ∙ ap some (sym s.0);
      kept = λ x. s.0 ∙ tightened-untrusted t f u e x;
      holds = subst (λ x. Holds x p) (sym s.0) s.1;
      floored = k.1;
    }

-- A posture that a headless run accepts, whatever the flags: its profile is the one selected or
-- untrusted by the legacy flag, and untrusted stays untrusted; an untrusted or contained run is in the
-- container sandbox, off the network, on a copy of the tree, and an untrusted one also behind the
-- default policy, under runsc, with neither secrets nor the project's skills; a reviewed one is on a copy
-- of the tree behind that policy; and the posture meets the floor of the profile in every dimension.
pub plan_trust-IsPlanned :
    (env : List Text) (t : Trust) (f : Flags) (p : TrustPlan)
    → plan_trust env t f ≡ planned p
    → IsPlanned t f p
unfolding plan_trust
plan_trust-IsPlanned env t f p h = plan_tightened-IsPlanned env t f (tightened t f) p refl h
