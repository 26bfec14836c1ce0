-- ===== src/Agent/Repro/Finish.antt =====
-- agent/repro.go: reproFinish, the check of the declared reproduction.
pub mod Cleared
use driver_os.Base.{
  Bool, true, false, not, ◌&&◌, ◌||◌, List, [], ◌∷◌, ◌++◌, Option, none, some, Text, codes,
  if◌then◌else◌, is_empty, text_eq, has_prefix, contains, to_lower, trim_space, clean_path,
}
use driver_os.Agent.Observation.{is_run_failure, is_run_timeout}
use driver_os.Agent.Fence.{matches_fence, fence_rel_path}
use driver_os.Agent.Fence.Snapshots.{FenceState, FencedFile, Snapshot, put_file}
use driver_os.Agent.Repro.{
  Status, missing, validated, Status, missing, skipped, validated, is_validated, ReproReport,
  empty_report, ReproState, ReproGate, Workspace, ReproError, empty_cmd, already_locked,
  escapes_root, not_written, no_base_tree, no_snapshot, base_not_restored, not_new, no_directory,
  not_copied, not_restored, not_run, timed_out, passes_on_base, fails_to_build, Said, said, failed,
  is_locked, safe_join,
}

-- What a finish asks of the repro gate: nothing, or a reason to go on with the kind of its block.
pub data Block : Type 0 where
  clear repro_missing : Block
  repro_red : Text → Block

module _ {ℓ} {W : Type ℓ} (space : Workspace W) where
  -- The output of the declared command, behind which the tree is put back.
  unfoldable pub finish_run : ReproState → Option Text → Block × ReproState
  finish_run s none = (repro_red (codes "could not run declared repro"), s)
  finish_run s (some out) =
      let tried = record s {
        report = record (s.report) { green = some (not (is_run_failure out)) };
      } in
      if is_run_timeout out
      then (clear, record s { report = record (s.report) { detail = codes "repro_timeout" } })
      else if is_run_failure out
      then (
        repro_red (codes "your fix does not make the declared repro pass:\n" ++ space.clip out),
        tried,
      )
      else (clear, tried)

  unfoldable pub finish_tree : ReproState → Option Text → W → Block × ReproState × W
  unfolding finish_run
  finish_tree s none w = (repro_red (codes "could not snapshot before repro check"), s, w)
  finish_tree s (some cur) w =
      let (out, v) = space.run s.report.cmd w in
      let (b, t) = finish_run s out in (b, t, (space.restore_tree cur v).1)

  unfoldable pub finish_read : ReproState → Option Text → W → Block × ReproState × W
  unfolding finish_tree
  finish_read s none w = (repro_red (codes "declared repro file is missing"), s, w)
  finish_read s (some data_read) w =
      if not (text_eq (space.hash data_read) s.sha256)
      then (repro_red (codes "declared repro file changed after it was locked"), s, w)
      else finish_tree s (space.write_tree w) w

  unfoldable pub finish_locked : ReproGate → ReproState → W → Block × ReproGate × W
  unfolding finish_read
  finish_locked g s w =
      let (b, t, v) = finish_read s (space.read s.report.path w) w in
      (b, record g { repro = some t }, v)

  unfoldable pub finish_status : ReproGate → ReproState → Status → W → Block × ReproGate × W
  unfolding finish_locked
  finish_status g s skipped w = (clear, g, w)
  finish_status g s _ w = finish_locked g s w

  unfoldable pub finish_state : ReproGate → Option ReproState → W → Block × ReproGate × W
  unfolding finish_status
  finish_state g none w = (repro_missing, g, w)
  finish_state g (some s) w = finish_status g s s.report.status w

  unfoldable pub repro_finish : ReproGate → W → Block × ReproGate × W
  unfolding finish_state
  repro_finish g w = if not g.repro_first then (clear, g, w) else finish_state g g.repro w
