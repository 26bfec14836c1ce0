-- ===== src/Agent/Closing/Tests.antt =====
-- An answer that the gates accept with a fence and a locked reproduction.
use driver_os.Base.{
  ◌≡◌, refl, true, false, [], ◌∷◌, List, none, some, Text, codes, text_eq, trim_space, has_code,
  path_match, base_name, clean_path, has_prefix, joined, with_ups, clean_parts, split, clean_step,
  sort_texts, contains, before,
}
use driver_os.Agent.Observation.{is_run_failure, is_run_timeout}
use driver_os.Agent.Gates.{
  World, Gates, finished_run, verify_run, verify_safety, scope_check, fence_check,
  require_diff_failure,
}
use driver_os.Agent.Gates.Completion.{
  reason_of, concluded, first_run, verify_termination, settled, verified, knows_baseline,
  verify_completion, verify_finish, verify_completion_failure,
}
use driver_os.Agent.Gates.Finish.{
  Reviews, FinishInput, answered_with, reviewed, answer_stage, repro_stage, verdict_stage, finish,
}
use driver_os.Agent.Fence.{matches_fence}
use driver_os.Agent.Fence.Snapshots.{
  Listing, file, empty, entry, FenceState, walk_fenced, violation_check, visit_file, put_file,
}
use driver_os.Agent.Repro.{validated, ReproGate, Workspace}
use driver_os.Agent.Repro.Finish.{
  repro_finish, finish_state, finish_status, finish_locked, finish_read, finish_tree, finish_run,
}
use driver_os.Agent.Closing.{as_feedback, fenced, gated}
use driver_os.Agent.Closing.Closed.{IsReproduced, IsUntouched, finish-IsClosed}

abbrev space : Workspace Text
space = record {
  read = λ p v. some (codes "func TestX");
  exists = λ p v. true;
  make_dir = λ p v. (true, v);
  write = λ p d v. (true, v);
  write_tree = λ v. some v;
  restore_tree = λ t v. (true, t);
  run = λ cmd v. (some (codes "exit 0 (1ms)"), v);
  hash = λ s. s;
  clip = λ s. s;
}

abbrev globs : List Text
globs = codes "a_test.go" ∷ []

abbrev listing : Text → Listing
listing v = entry (codes "a_test.go") (file (some (codes "x", false)) none) empty

abbrev identity : Text → Text
identity s = s

abbrev armed : FenceState
armed = record {
  globs = globs;
  base = walk_fenced identity globs (listing []);
  snapshot_failed = false;
}

abbrev gate : ReproGate
gate = record {
  repro_first = true;
  run_base_tree = codes "t0";
  test_fence = globs;
  alias = [];
  fence = some armed;
  repro = some (record {
    report = record {
      status = validated;
      path = codes "x_test.go";
      cmd = codes "go test";
      skip_reason = [];
      red_excerpt = [];
      green = none;
      detail = [];
    };
    sha256 = codes "func TestX";
  });
}

abbrev world : World (ReproGate × Text)
world = record {
  canceled = λ x. false;
  run_command = λ cmd x. (some (codes "exit 0 (1ms)"), x);
  write_tree = λ x. some (codes "t1");
  diff_tree_names = λ a b x. some [];
  fence_violation = λ x. none;
  normal = λ p. p;
  matches_scope = λ p. true;
  quoted = λ s. s;
  timeout_text = [];
  show = λ n. [];
}

abbrev reviews : Reviews (ReproGate × Text)
reviews = record {
  repro_finish = λ x. (([], []), x);
  review_finish = λ b g x. (([], []), g, x);
  review_unverified = λ g x. (g, x);
}

abbrev gates : Gates
gates = record {
  cmd = codes "go test ./...";
  verify_last_run = false;
  verify_continue = true;
  auto_verify_soft = false;
  skip_verify_baseline = false;
  require_diff = false;
  fence = true;
  scope = none;
  globs = [];
  run_base_tree = codes "t0";
  verify_baseline_red = false;
  verify_baseline_out = [];
  verify_baseline_measured = true;
  verify_infra_signature = [];
  baseline_grace_used = false;
  auto_verify_feedback = 0;
  closing_verification = none;
  closing_verify_gen = 0;
  ev = none;
}

abbrev input : FinishInput
input = record {
  answer = codes "done";
  last_run_failed = false;
  can_continue = true;
  trusted = false;
  verify_continue_phrase = [];
}

abbrev start : ReproGate × Text
start = (gate, codes "now")

finish_answers :
    (finish
      (fenced space identity listing world)
      (gated space identity listing reviews)
      input
      gates
      start).0
    ≡ answered_with (codes "done")
unfolding finish verdict_stage repro_stage answer_stage reviewed verify_finish verify_safety
    fence_check scope_check verify_completion require_diff_failure knows_baseline verified settled
    verify_termination first_run verify_run finished_run concluded reason_of is_run_failure
    is_run_timeout text_eq verify_completion_failure trim_space fenced gated as_feedback
    repro_finish finish_state finish_status finish_locked finish_read finish_tree finish_run
    violation_check visit_file matches_fence has_code path_match base_name clean_path has_prefix
    joined with_ups clean_parts split clean_step sort_texts put_file contains before
finish_answers = refl

finish-IsClosed_example :
    IsUntouched identity armed (listing (codes "now"))
    × IsReproduced space
        (verify_finish (fenced space identity listing world) gates false false start).2
finish-IsClosed_example =
    finish-IsClosed space identity listing world reviews armed input gates start (codes "done") refl
      refl refl finish_answers
