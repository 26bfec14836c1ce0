-- ===== src/Headless/Trust.antt =====
-- headless/trust.go: the safety posture of a headless run from its trust profile and its flags, and the
-- policy that it puts before every command. A flag is none where it is not given.
pub mod Planned
pub mod Readonly
use driver_os.Base.{
  Bool, true, false, not, ◌&&◌, ◌||◌, List, [], ◌∷◌, Option, none, some, Text, codes, if◌then◌else◌,
  is_empty, text_eq, and_then,
}
use driver_os.Profile.Posture.{
  Trust, trusted_local, reviewed_local, container, untrusted, trust_name, parse_trust, SandboxClass,
  sandbox_local, sandbox_container, Isolation, isolation_none, isolation_process, isolation_kernel,
  Worktree, worktree_auto, worktree_required, Approval, approval_none, approval_policy_gated,
  Secrets, secrets_ambient, secrets_allowlist, secrets_none, Network, network_unrestricted,
  network_off, Posture, TrustError, enforce,
}
use driver_os.Profile.Shell.{File}
use driver_os.Profile.Policy.{ApprovalPolicy, default_headless_policy, allows, allows_exec}
use driver_os.Sandbox.Gated.{Command, Verdict, allow, deny}

-- The flags that the plan reads: the values, and which of them were given.
pub record Flags : Type 0 where
  pub untrusted : Bool
  pub sandbox_kind : Text
  pub runtime : Text
  pub network : Bool
  pub worktree : Option Bool
  pub untrusted_given : Bool
  pub worktree_given : Bool
  pub sandbox_given : Bool
  pub network_given : Bool
  pub runtime_given : Bool

pub record TrustPlan : Type 0 where
  pub trust : Trust
  pub sandbox_kind : Text
  pub runtime : Text
  pub network : Bool
  pub force_worktree : Bool
  pub min_isolation : Isolation
  pub gate_policy : Option ApprovalPolicy
  pub env_allowlist : List Text
  pub secrets : Secrets
  pub allow_project_skills : Bool

pub data PlanError : Type 0 where
  missing_trust : PlanError
  unknown_profile : Text → PlanError
  weakens_untrusted weakens_worktree weakens_sandbox weakens_network weakens_runtime : PlanError
  unknown_sandbox : Text → PlanError
  below_floor : TrustError → PlanError

pub data PlanResult : Type 0 where
  planned : TrustPlan → PlanResult
  rejected : PlanError → PlanResult

-- resolveTrust: the profile, or the error.
pub data Selected : Type 0 where
  selected : Trust → Selected
  unselected : PlanError → Selected

abbrev parsed : Text → Option Trust → Selected
parsed raw none = unselected (unknown_profile raw)
parsed raw (some t) = selected t

unfoldable pub resolve_trust : Text → Selected
resolve_trust raw = if is_empty raw then unselected missing_trust else parsed raw (parse_trust raw)

-- The shipped policy that PolicyByName gives for the default name.
abbrev pub default_policy : ApprovalPolicy
default_policy = record {
  name = default_headless_policy;
  version = codes "3";
  allowlist =
      codes "go test [safe args]"
      ∷ codes "go build [safe args]"
      ∷ codes "go vet [safe args]"
      ∷ codes "git status [safe args]"
      ∷ codes "git diff [safe args]"
      ∷ codes "rg [search-tool args]"
      ∷ [];
}

abbrev is_untrusted : Trust → Bool
is_untrusted untrusted = true
is_untrusted _ = false

-- The legacy flag: it tightens any profile, and may not loosen this one.
unfoldable pub tightened : Trust → Flags → Option Trust
tightened t f =
    if not f.untrusted_given
    then some t
    else if f.untrusted
    then some untrusted
    else if is_untrusted t
    then none
    else some t

-- `explicit["worktree"] && f.worktree.set && !f.worktree.val`
abbrev pub drops_worktree : Flags → Bool
drops_worktree f = f.worktree_given && (elim (f.worktree) [ none ↦ false | some b ↦ not b ])

abbrev start : Trust → Flags → TrustPlan
start t f = record {
  trust = t;
  sandbox_kind = f.sandbox_kind;
  runtime = f.runtime;
  network = f.network;
  force_worktree = false;
  min_isolation = isolation_none;
  gate_policy = none;
  env_allowlist = [];
  secrets = secrets_ambient;
  allow_project_skills = true;
}

abbrev contained : Trust → Flags → TrustPlan
contained t f = record (start t f) {
  sandbox_kind = codes "docker";
  network = false;
  force_worktree = true;
  min_isolation = isolation_process;
  secrets = secrets_allowlist;
}

-- What both contained profiles refuse.
abbrev weakening : Flags → Option PlanError
weakening f =
    if f.sandbox_given && text_eq f.sandbox_kind (codes "local")
    then some weakens_sandbox
    else if f.network_given && f.network
    then some weakens_network
    else if drops_worktree f
    then some weakens_worktree
    else none

abbrev unless : Option PlanError → PlanResult → PlanResult
unless none p = p
unless (some e) p = rejected e

-- The switch on the profile. The environment of a reviewed run is a constant of the program.
unfoldable pub switched : List Text → Trust → Flags → PlanResult
switched clean_env trusted_local f = planned (start trusted_local f)
switched clean_env reviewed_local f =
    if drops_worktree f
    then rejected weakens_worktree
    else planned (record (start reviewed_local f) {
      force_worktree = true;
      gate_policy = some default_policy;
      env_allowlist = clean_env;
      secrets = secrets_allowlist;
    })
switched clean_env container f = unless (weakening f) (planned (contained container f))
switched clean_env untrusted f = unless (weakening f) (
    if f.runtime_given && not (text_eq f.runtime (codes "runsc"))
    then rejected weakens_runtime
    else planned (record (contained untrusted f) {
      runtime = codes "runsc";
      min_isolation = isolation_kernel;
      secrets = secrets_none;
      allow_project_skills = false;
      gate_policy = some default_policy;
    }))

unfoldable pub class_of : Text → Option SandboxClass
class_of kind =
    if text_eq kind (codes "local")
    then some sandbox_local
    else if text_eq kind (codes "docker")
    then some sandbox_container
    else none

abbrev approval_of : Option ApprovalPolicy → Approval
approval_of none = approval_none
approval_of (some p) = approval_policy_gated

abbrev posture_in : TrustPlan → SandboxClass → Posture
posture_in p c = record {
  sandbox = c;
  min_isolation = p.min_isolation;
  worktree = if p.force_worktree then worktree_required else worktree_auto;
  approval = approval_of p.gate_policy;
  secrets = p.secrets;
  network =
      if text_eq p.sandbox_kind (codes "docker") && not p.network
      then network_off
      else network_unrestricted;
}

-- postureForPlan: none is a sandbox that is not known.
unfoldable pub posture_for_plan : TrustPlan → Option Posture
unfolding class_of
posture_for_plan p = and_then (class_of p.sandbox_kind) (λ c. some (posture_in p c))

abbrev pub unless_below : Option TrustError → TrustPlan → PlanResult
unless_below none p = planned p
unless_below (some e) p = rejected (below_floor e)

abbrev pub enforced_in : TrustPlan → Option Posture → PlanResult
enforced_in p none = rejected (unknown_sandbox p.sandbox_kind)
enforced_in p (some q) = unless_below (enforce (trust_name p.trust) q) p

abbrev pub enforced : PlanResult → PlanResult
enforced (rejected e) = rejected e
enforced (planned p) = enforced_in p (posture_for_plan p)

abbrev pub plan_tightened : List Text → Flags → Option Trust → PlanResult
plan_tightened clean_env f none = rejected weakens_untrusted
plan_tightened clean_env f (some t) = enforced (switched clean_env t f)

unfoldable pub plan_trust : List Text → Trust → Flags → PlanResult
unfolding tightened switched posture_for_plan
plan_trust clean_env t f = plan_tightened clean_env f (tightened t f)

-- approvalPolicyAdapter, over what the shell's parser makes of a line.
abbrev verdict_of : Bool → Verdict
verdict_of true = allow
verdict_of false = deny

abbrev is_transport : Text → Text → Bool
is_transport path c = text_eq path (codes "sh") && text_eq c (codes "-c")

unfoldable pub adapted : (Text → Option File) → ApprovalPolicy → Text → List Text → Verdict
adapted parse p path (c ∷ line ∷ []) =
    if is_transport path c
    then verdict_of (allows p (parse line))
    else verdict_of (allows_exec p path (c ∷ line ∷ []))
adapted parse p path args = verdict_of (allows_exec p path args)

unfoldable pub approval_policy_adapter : (Text → Option File) → ApprovalPolicy → Command → Verdict
unfolding adapted
approval_policy_adapter parse p cmd = adapted parse p cmd.path cmd.args
