-- ===== src/Agent/Repro/Declare.antt =====
-- agent/repro.go: declareRepro, which runs the reproduction on the base tree.
pub mod Kept
pub mod Red
use driver_os.Base.{
  Bool, true, false, not, ◌&&◌, ◌||◌, List, [], ◌∷◌, ◌++◌, Option, none, some, Text, codes,
  if◌then◌else◌, is_empty, text_eq, has_prefix, contains, to_lower, trim_space, clean_path,
}
use driver_os.Agent.Observation.{is_run_failure, is_run_timeout}
use driver_os.Agent.Fence.{matches_fence, fence_rel_path}
use driver_os.Agent.Fence.Snapshots.{FenceState, FencedFile, entries, put_file}
use driver_os.Agent.Repro.{
  Status, missing, skipped, validated, is_validated, ReproReport, empty_report, ReproState,
  ReproGate, Workspace, ReproError, empty_cmd, already_locked, escapes_root, not_written,
  no_base_tree, no_snapshot, base_not_restored, not_new, no_directory, not_copied, not_restored,
  not_run, timed_out, passes_on_base, fails_to_build, Said, said, failed, is_locked, safe_join,
}

pub data Grade : Type 0 where
  test_failure build_failure unrecognized : Grade

abbrev pub is_build_failure : Grade → Bool
is_build_failure build_failure = true
is_build_failure _ = false

abbrev detail_of : Grade → Text
detail_of unrecognized = codes "red_signature:unrecognized"
detail_of _ = []

unfoldable pub grade_repro_red : Text → Grade
grade_repro_red out =
    let s = to_lower out in
    if contains out (codes "--- FAIL")
    then test_failure
    else if contains s (codes "[build failed]")
        || contains s (codes "[setup failed]")
        || contains s (codes "[vet failed]")
        || contains s (codes "build constraints exclude")
    then build_failure
    else if contains out (codes "FAIL\t")
    then test_failure
    else unrecognized

-- The lock goes into the snapshot of a fence that matches it. A nil map is made.
abbrev locked_fence : List Text → Text → FencedFile → Option FenceState → Option FenceState
locked_fence globs rel f none = none
locked_fence globs rel f (some s) =
    if matches_fence globs rel
    then some (record s { base = some (put_file rel f (entries s.base)) })
    else some s

module _ {ℓ} {W : Type ℓ} (space : Workspace W) where
  -- Where a declaration stands behind its first restore: what it says, the gate, whether the deferred
  -- restore is disarmed, and the workspace.
  pub record Stage : Type ℓ where
    pub answer : Said
    pub gate : ReproGate
    pub restored : Bool
    pub world : W

  -- restore: it disarms where it succeeds and the tree is the current one.
  unfoldable pub restore : Text → Text → Bool → W → Bool × Bool × W
  restore cur tree restored w =
      let (done, v) = space.restore_tree tree w in (done, (done && text_eq tree cur) || restored, v)

  -- The gate once the reproduction is validated.
  unfoldable pub locked : Text → Text → Text → Text → ReproGate → ReproGate
  unfolding grade_repro_red
  locked rel cmd data_read out g = record g {
    repro = some (record {
      report = record (empty_report validated) {
        path = rel;
        cmd = cmd;
        red_excerpt = space.clip out;
        detail = detail_of (grade_repro_red out);
      };
      sha256 = space.hash data_read;
    });
    fence =
        locked_fence g.test_fence rel
          (record {
            hash = space.hash data_read;
            content = some data_read;
            full_hash = [];
            size = 0;
          })
          g.fence;
  }

  -- What the run on the base tree means.
  unfoldable pub judged : Text → Text → Text → ReproGate → Option Text → Said × ReproGate
  unfolding locked
  judged rel cmd data_read g none = (failed not_run, g)
  judged rel cmd data_read g (some out) =
      if is_run_timeout out
      then (failed timed_out, g)
      else if not (is_run_failure out)
      then (failed passes_on_base, g)
      else if is_build_failure (grade_repro_red out)
      then (failed fails_to_build, g)
      else (
        said (codes "repro validated and locked. Base failure:\n" ++ space.clip out),
        locked rel cmd data_read out g,
      )

  -- The run, and the restore behind it.
  unfoldable pub run_on_base : Text → Text → Text → Text → Bool → ReproGate → W → Stage
  unfolding restore judged
  run_on_base cur rel cmd data_read restored g w =
      let (out, v) = space.run cmd w in
      let (done, r, u) = restore cur cur restored v in
      if not done
      then record { answer = failed not_restored; gate = g; restored = r; world = u }
      else let (a, h) = judged rel cmd data_read g out in
        record { answer = a; gate = h; restored = r; world = u }

  -- The reproduction is copied into the base tree.
  unfoldable pub copy_to_base : Text → Text → Text → Text → Bool → ReproGate → W → Stage
  unfolding run_on_base
  copy_to_base cur rel cmd data_read restored g w =
      let (made, v) = space.make_dir rel w in
      let (wrote, u) = space.write rel data_read v in
      if not made
      then record { answer = failed no_directory; gate = g; restored = restored; world = v }
      else if not wrote
      then record { answer = failed not_copied; gate = g; restored = restored; world = u }
      else run_on_base cur rel cmd data_read restored g u

  -- Behind the snapshot of the current tree, without the deferred restore.
  unfoldable pub validate : Text → Text → Text → Text → ReproGate → W → Stage
  unfolding restore copy_to_base
  validate cur rel cmd data_read g w =
      let (done, r, v) = restore cur g.run_base_tree false w in
      let (again, r', u) = restore cur cur r v in
      if not done
      then record { answer = failed base_not_restored; gate = g; restored = r; world = v }
      else if space.exists rel v
      then record { answer = failed not_new; gate = g; restored = r'; world = u }
      else copy_to_base cur rel cmd data_read r g v

  -- The deferred restore.
  unfoldable pub deferred : Text → Stage → Said × ReproGate × W
  unfolding restore
  deferred cur s =
      if s.restored
      then (s.answer, s.gate, s.world)
      else (s.answer, s.gate, (space.restore_tree cur s.world).1)

  -- With the snapshot of the current tree, where there is one.
  unfoldable pub declare_tree :
      Text → Text → Text → ReproGate → W → Option Text → Said × ReproGate × W
  unfolding validate deferred
  declare_tree rel cmd data_read g w none = (failed no_snapshot, g, w)
  declare_tree rel cmd data_read g w (some cur) = deferred cur (validate cur rel cmd data_read g w)

  -- Behind the checks of the declaration itself.
  unfoldable pub declare_read : Text → Text → Option Text → ReproGate → W → Said × ReproGate × W
  unfolding declare_tree
  declare_read rel cmd none g w = (failed not_written, g, w)
  declare_read rel cmd (some data_read) g w =
      if is_empty g.run_base_tree
      then (failed no_base_tree, g, w)
      else declare_tree rel cmd data_read g w (space.write_tree w)

  unfoldable pub declare_path : Text → Option Text → ReproGate → W → Said × ReproGate × W
  unfolding declare_read
  declare_path cmd none g w = (failed escapes_root, g, w)
  declare_path cmd (some rel) g w = declare_read rel cmd (space.read rel w) g w

  unfoldable pub declare_repro : Text → Text → ReproGate → W → Said × ReproGate × W
  unfolding declare_path safe_join
  declare_repro p cmd g w =
      if is_empty (trim_space cmd)
      then (failed empty_cmd, g, w)
      else if is_locked g
      then (failed already_locked, g, w)
      else declare_path cmd (safe_join p) g w
