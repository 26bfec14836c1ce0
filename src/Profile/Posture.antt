-- ===== src/Profile/Posture.antt =====
-- profile/posture.go and the descriptor table of profile/profile.go: the six-dimensional trust floor
-- and its enforcement. The enumerations are closed: values outside their constants have no model.
pub mod Order
use driver_os.Base.{
  ℕ, ◌≡◌, Bool, true, false, ◌&&◌, ◌||◌, not, List, [], ◌∷◌, ◌++◌, Option, none, some, Text, codes,
  leb, text_eq, if◌then◌else◌,
}

pub data Trust : Type 0 where
  trusted_local reviewed_local container untrusted : Trust

-- The canonical name of a profile, which is the value itself in Go.
unfoldable pub trust_name : Trust → Text
trust_name trusted_local = codes "trusted-local"
trust_name reviewed_local = codes "reviewed-local"
trust_name container = codes "container"
trust_name untrusted = codes "untrusted"

unfoldable pub parse_trust : Text → Option Trust
unfolding trust_name
parse_trust s =
    if text_eq s (trust_name trusted_local)
    then some trusted_local
    else if text_eq s (trust_name reviewed_local)
    then some reviewed_local
    else if text_eq s (trust_name container)
    then some container
    else if text_eq s (trust_name untrusted)
    then some untrusted
    else none

pub data SandboxClass : Type 0 where
  sandbox_local sandbox_container : SandboxClass

pub data Isolation : Type 0 where
  isolation_none isolation_process isolation_kernel isolation_vm : Isolation

pub data Worktree : Type 0 where
  worktree_auto worktree_required : Worktree

pub data Approval : Type 0 where
  approval_none approval_required approval_interactive approval_policy_gated : Approval
  approval_deny_all approval_classifier_gated : Approval

pub data Secrets : Type 0 where
  secrets_ambient secrets_allowlist secrets_none : Secrets

pub data Network : Type 0 where
  network_unrestricted network_allowlisted network_off : Network

-- The values of the constants, which `iota` numbers.
abbrev pub sandbox_value : SandboxClass → ℕ
sandbox_value sandbox_local = 0
sandbox_value sandbox_container = 1

abbrev pub isolation_value : Isolation → ℕ
isolation_value isolation_none = 0
isolation_value isolation_process = 1
isolation_value isolation_kernel = 2
isolation_value isolation_vm = 3

abbrev pub worktree_value : Worktree → ℕ
worktree_value worktree_auto = 0
worktree_value worktree_required = 1

abbrev pub secrets_value : Secrets → ℕ
secrets_value secrets_ambient = 0
secrets_value secrets_allowlist = 1
secrets_value secrets_none = 2

abbrev pub network_value : Network → ℕ
network_value network_unrestricted = 0
network_value network_allowlisted = 1
network_value network_off = 2

-- The `Satisfies` methods, and the comparison of isolations in the table.
unfoldable pub sandbox_satisfies : SandboxClass → SandboxClass → Bool
sandbox_satisfies c floor = leb (sandbox_value floor) (sandbox_value c)

unfoldable pub isolation_satisfies : Isolation → Isolation → Bool
isolation_satisfies c floor = leb (isolation_value floor) (isolation_value c)

unfoldable pub worktree_satisfies : Worktree → Worktree → Bool
worktree_satisfies w floor = leb (worktree_value floor) (worktree_value w)

unfoldable pub secrets_satisfies : Secrets → Secrets → Bool
secrets_satisfies s floor = leb (secrets_value floor) (secrets_value s)

unfoldable pub network_satisfies : Network → Network → Bool
network_satisfies n floor = leb (network_value floor) (network_value n)

abbrev is_deny_all : Approval → Bool
is_deny_all approval_deny_all = true
is_deny_all _ = false

abbrev is_interactive : Approval → Bool
is_interactive approval_interactive = true
is_interactive _ = false

abbrev is_policy_gated : Approval → Bool
is_policy_gated approval_policy_gated = true
is_policy_gated _ = false

abbrev is_required : Approval → Bool
is_required approval_required = true
is_required _ = false

-- The switch on the floor; the first test of the method has settled the floor `approval_none`.
abbrev approval_meets : Approval → Approval → Bool
approval_meets a approval_none = true
approval_meets a approval_required = is_required a || is_interactive a || is_policy_gated a
approval_meets a approval_interactive = is_interactive a
approval_meets a approval_policy_gated = is_policy_gated a
approval_meets a approval_deny_all = false
approval_meets a approval_classifier_gated = false

unfoldable pub approval_satisfies : Approval → Approval → Bool
approval_satisfies a floor = if is_deny_all a then true else approval_meets a floor

-- The `String` methods.
unfoldable pub sandbox_text : SandboxClass → Text
sandbox_text sandbox_local = codes "local"
sandbox_text sandbox_container = codes "container"

unfoldable pub isolation_text : Isolation → Text
isolation_text isolation_none = codes "none"
isolation_text isolation_process = codes "process"
isolation_text isolation_kernel = codes "kernel"
isolation_text isolation_vm = codes "vm"

unfoldable pub worktree_text : Worktree → Text
worktree_text worktree_auto = codes "auto"
worktree_text worktree_required = codes "required"

unfoldable pub approval_text : Approval → Text
approval_text approval_none = codes "none"
approval_text approval_required = codes "required"
approval_text approval_interactive = codes "interactive"
approval_text approval_policy_gated = codes "policy-gated"
approval_text approval_deny_all = codes "deny-all"
approval_text approval_classifier_gated = codes "classifier-gated"

unfoldable pub secrets_text : Secrets → Text
secrets_text secrets_ambient = codes "ambient"
secrets_text secrets_allowlist = codes "allowlist"
secrets_text secrets_none = codes "none"

unfoldable pub network_text : Network → Text
network_text network_unrestricted = codes "unrestricted"
network_text network_allowlisted = codes "allowlisted"
network_text network_off = codes "off"

pub record Posture : Type 0 where
  pub sandbox : SandboxClass
  pub min_isolation : Isolation
  pub worktree : Worktree
  pub approval : Approval
  pub secrets : Secrets
  pub network : Network

unfoldable pub requires_network_off : Posture → Bool
unfolding network_satisfies
requires_network_off p = network_satisfies p.network network_off

unfoldable pub floor_for : Trust → Posture
floor_for trusted_local = record {
  sandbox = sandbox_local;
  min_isolation = isolation_none;
  worktree = worktree_auto;
  approval = approval_none;
  secrets = secrets_ambient;
  network = network_unrestricted;
}
floor_for reviewed_local = record {
  sandbox = sandbox_local;
  min_isolation = isolation_none;
  worktree = worktree_auto;
  approval = approval_required;
  secrets = secrets_allowlist;
  network = network_unrestricted;
}
floor_for container = record {
  sandbox = sandbox_container;
  min_isolation = isolation_process;
  worktree = worktree_required;
  approval = approval_none;
  secrets = secrets_allowlist;
  network = network_off;
}
floor_for untrusted = record {
  sandbox = sandbox_container;
  min_isolation = isolation_process;
  worktree = worktree_required;
  approval = approval_policy_gated;
  secrets = secrets_none;
  network = network_off;
}

-- A row of the table: its name, the test and the two values as text.
pub record Descriptor : Type 0 where
  pub name : Text
  pub satisfies : Posture → Posture → Bool
  pub violation : Posture → Posture → Text

-- "<name> candidate <c> does not meet floor <f>"
abbrev pub violation_text : Text → Text → Text → Text
violation_text name c f = name ++ codes " candidate " ++ c ++ codes " does not meet floor " ++ f

unfoldable pub descriptors : List Descriptor
descriptors =
    record {
      name = codes "sandbox";
      satisfies = λ c f. sandbox_satisfies c.sandbox f.sandbox;
      violation =
          λ c f. violation_text (codes "sandbox") (sandbox_text c.sandbox) (sandbox_text f.sandbox);
    }
    ∷ record {
      name = codes "min-isolation";
      satisfies = λ c f. isolation_satisfies c.min_isolation f.min_isolation;
      violation = λ c f.
          violation_text (codes "min-isolation") (isolation_text c.min_isolation)
            (isolation_text f.min_isolation);
    }
    ∷ record {
      name = codes "worktree";
      satisfies = λ c f. worktree_satisfies c.worktree f.worktree;
      violation = λ c f.
          violation_text (codes "worktree") (worktree_text c.worktree) (worktree_text f.worktree);
    }
    ∷ record {
      name = codes "approval";
      satisfies = λ c f. approval_satisfies c.approval f.approval;
      violation = λ c f.
          violation_text (codes "approval") (approval_text c.approval) (approval_text f.approval);
    }
    ∷ record {
      name = codes "secrets";
      satisfies = λ c f. secrets_satisfies c.secrets f.secrets;
      violation =
          λ c f. violation_text (codes "secrets") (secrets_text c.secrets) (secrets_text f.secrets);
    }
    ∷ record {
      name = codes "network";
      satisfies = λ c f. network_satisfies c.network f.network;
      violation =
          λ c f. violation_text (codes "network") (network_text c.network) (network_text f.network);
    }
    ∷ []

-- The errors of Enforce: the text of the input, or of the input, the row and its violation.
pub data TrustError : Type 0 where
  unknown_trust : Text → TrustError
  violates : Text → Text → Text → TrustError

-- The loop over the table.
unfoldable pub first_violation : Text → Posture → Posture → List Descriptor → Option TrustError
first_violation t candidate floor [] = none
first_violation t candidate floor (d ∷ ds) =
    if not (d.satisfies candidate floor)
    then some (violates t d.name (d.violation candidate floor))
    else first_violation t candidate floor ds

-- What ParseTrust gave: an error, or a profile.
unfoldable pub enforce_parsed : Text → Posture → Option Trust → Option TrustError
enforce_parsed t candidate none = some (unknown_trust t)
enforce_parsed t candidate (some p) = first_violation t candidate (floor_for p) descriptors

-- The error, where there is one.
unfoldable pub enforce : Text → Posture → Option TrustError
enforce t candidate = enforce_parsed t candidate (parse_trust t)
