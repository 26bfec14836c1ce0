-- ===== src/Agent/Repro/Tests.antt =====
-- A workspace whose state is its tree, and a reproduction that fails on the base tree.
use driver_os.Base.{
  ◌≡◌, ◌⊎◌, refl, true, false, [], ◌∷◌, none, some, Text, codes, text_eq, trim_space, trim_left,
  is_space, has_prefix, contains, before, to_lower, clean_path, clean, clean_parts, clean_step,
  joined, with_ups, split,
}
use driver_os.Agent.Observation.{is_run_failure, is_run_timeout}
use driver_os.Agent.Repro.{
  validated, skipped, ReproState, ReproGate, Workspace, safe_join, clean_rel,
}
use driver_os.Agent.Repro.Declare.{
  grade_repro_red, restore, locked, judged, run_on_base, copy_to_base, validate, deferred,
  declare_tree, declare_read, declare_path, declare_repro,
}
use driver_os.Agent.Repro.Declare.Red.{Outcome, declare_repro-Outcome}
use driver_os.Agent.Repro.Finish.{
  clear, repro_finish, finish_state, finish_status, finish_locked, finish_read, finish_tree,
  finish_run,
}
use driver_os.Agent.Repro.Finish.Cleared.{IsGreen, repro_finish-clear}
use driver_os.Agent.Repro.Locked.{
  Lock, IsLockedOn, declare, skip, finish, operate_all, operate_all-IsLockedOn,
}

-- The command fails on the tree "base" with a copied file, and passes elsewhere.
abbrev space : Workspace Text
space = record {
  read = λ p w. some (codes "func TestX");
  exists = λ p w. false;
  make_dir = λ p w. (true, w);
  write = λ p d w. (true, codes "copied");
  write_tree = λ w. some w;
  restore_tree = λ t w. (true, t);
  run = λ cmd w. (some (codes "exit 1 (1ms)\n--- FAIL: TestX"), codes "after");
  hash = λ s. s;
  clip = λ s. s;
}

abbrev passing : Workspace Text
passing = record space { run = λ cmd w. (some (codes "exit 0 (1ms)"), codes "after") }

abbrev gate : ReproGate
gate = record {
  repro_first = true;
  run_base_tree = codes "base";
  test_fence = [];
  alias = [];
  fence = none;
  repro = none;
}

abbrev declared_state : ReproState
declared_state = record {
  report = record {
    status = validated;
    path = codes "x_test.go";
    cmd = codes "go test";
    skip_reason = [];
    red_excerpt = codes "exit 1 (1ms)\n--- FAIL: TestX";
    green = none;
    detail = [];
  };
  sha256 = codes "func TestX";
}

abbrev locked_gate : ReproGate
locked_gate = record gate { repro = some declared_state }

declares :
    (declare_repro space (codes "x_test.go") (codes "go test") gate (codes "now")).1 ≡ locked_gate
unfolding declare_repro declare_path declare_read declare_tree deferred validate copy_to_base
    run_on_base judged locked restore grade_repro_red safe_join clean_rel clean_path clean
    clean_parts clean_step joined with_ups split trim_space trim_left is_space has_prefix contains
    text_eq is_run_failure is_run_timeout before to_lower
declares = refl

declare_repro-Outcome_example :
    let r = declare_repro space (codes "x_test.go") (codes "go test") gate (codes "now") in
    Outcome space (codes "x_test.go") (codes "go test") gate (codes "now") r.0 r.1
declare_repro-Outcome_example =
    declare_repro-Outcome space (codes "x_test.go") (codes "go test") gate (codes "now")

finishes : (repro_finish passing locked_gate (codes "now")).0 ≡ clear
unfolding repro_finish finish_state finish_status finish_locked finish_read finish_tree finish_run
    text_eq is_run_failure is_run_timeout has_prefix contains before
finishes = refl

repro_finish-clear_example :
    (locked_gate.repro_first ≡ false)
    ⊎ ((s : ReproState) × (locked_gate.repro ≡ some s)
        × ((s.report.status ≡ skipped) ⊎ IsGreen passing s (codes "now")))
repro_finish-clear_example = repro_finish-clear passing locked_gate (codes "now") finishes

abbrev lock : Lock
lock = record { path = codes "x_test.go"; cmd = codes "go test"; sha256 = codes "func TestX" }

operate_all-IsLockedOn_example :
    IsLockedOn lock
      (operate_all space
        (skip (codes "no test") ∷ declare (codes "y_test.go") (codes "true") ∷ finish ∷ [])
        locked_gate
        (codes "now")).0
operate_all-IsLockedOn_example =
    operate_all-IsLockedOn space lock
      (skip (codes "no test") ∷ declare (codes "y_test.go") (codes "true") ∷ finish ∷ [])
      locked_gate (codes "now")
      (record { state = declared_state; held = refl; status = refl; lock = refl })
