-- ===== src/Headless/Tests.antt =====
-- The exit codes, an untrusted run with no flags, and its policy in front of a sandbox that counts.
use driver_os.Base.{
  ◌≡◌, ◌⊎◌, ℕ, ◌+◌, refl, true, false, [], ◌∷◌, Option, none, some, Text, codes, text_eq,
}
use driver_os.Profile.Posture.{
  untrusted, trusted_local, isolation_kernel, secrets_none, trust_name, parse_trust, floor_for,
  descriptors, first_violation, enforce_parsed, enforce, sandbox_satisfies, isolation_satisfies,
  worktree_satisfies, approval_satisfies, secrets_satisfies, network_satisfies,
}
use driver_os.Profile.Shell.{File}
use driver_os.Sandbox.Gated.{Command, Sandbox, Gated, blocked, exec}
use driver_os.Headless.Trust.{
  Flags, TrustPlan, planned, default_policy, tightened, switched, class_of, posture_for_plan,
  plan_trust, approval_policy_adapter,
}
use driver_os.Headless.Trust.Planned.{IsPlanned, plan_trust-IsPlanned}
use driver_os.Headless.Trust.Readonly.{IsPermitted, exec-IsPermitted}

abbrev flags : Flags
flags = record {
  untrusted = true;
  sandbox_kind = codes "local";
  runtime = codes "runc";
  network = true;
  worktree = none;
  untrusted_given = true;
  worktree_given = false;
  sandbox_given = false;
  network_given = false;
  runtime_given = false;
}

abbrev confined : TrustPlan
confined = record {
  trust = untrusted;
  sandbox_kind = codes "docker";
  runtime = codes "runsc";
  network = false;
  force_worktree = true;
  min_isolation = isolation_kernel;
  gate_policy = some default_policy;
  env_allowlist = [];
  secrets = secrets_none;
  allow_project_skills = false;
}

legacy_flag_confines : plan_trust [] trusted_local flags ≡ planned confined
unfolding plan_trust tightened switched posture_for_plan class_of enforce enforce_parsed parse_trust
    trust_name text_eq first_violation descriptors floor_for sandbox_satisfies isolation_satisfies
    worktree_satisfies approval_satisfies secrets_satisfies network_satisfies
legacy_flag_confines = refl

plan_trust-IsPlanned_example : IsPlanned trusted_local flags confined
plan_trust-IsPlanned_example =
    plan_trust-IsPlanned [] trusted_local flags confined legacy_flag_confines

abbrev counting : Sandbox ℕ
counting = record {
  exec = λ cmd w. (some (record { exit_code = 0; stderr = [] }), w + 1);
  read_file = λ path w. none;
  read_file_limit = none;
  make_dir_all = none;
  append_file = none;
  root = none;
  workdir = none;
}

abbrev unparsed : Text → Option File
unparsed line = none

abbrev gate : Gated ℕ
gate = record {
  inner = counting;
  policy = approval_policy_adapter unparsed default_policy;
  approver = none;
}

abbrev removal : Command
removal = record { path = codes "sh"; args = codes "-c" ∷ codes "rm -r build" ∷ [] }

exec-IsPermitted_example :
    (IsPermitted unparsed default_policy removal.path removal.args
      × (exec gate removal 3 ≡ counting.exec removal 3))
    ⊎ ((why : Text) × (exec gate removal 3 ≡ (some (blocked removal why), 3)))
exec-IsPermitted_example = exec-IsPermitted unparsed default_policy gate removal 3 refl
