-- ===== src/Agent/Repro.antt =====
-- agent/repro.go: the reproduction test that a run declares, its validation on the base tree, its lock
-- and the check of it at a finish. The workspace `W` with its files, git trees and commands is a
-- parameter; the words of an error are left out, but for which error it is.
pub mod Declare
pub mod Finish
pub mod Locked
mod Tests
use driver_os.Base.{
  Bool, true, false, not, ◌&&◌, ◌||◌, List, [], ◌∷◌, ◌++◌, Option, none, some, Text, codes,
  if◌then◌else◌, is_empty, text_eq, has_prefix, contains, to_lower, trim_space, clean_path,
}
use driver_os.Agent.Observation.{is_run_failure, is_run_timeout}
use driver_os.Agent.Fence.{matches_fence, fence_rel_path}
use driver_os.Agent.Fence.Snapshots.{FenceState, FencedFile, Snapshot, put_file}

pub data Status : Type 0 where
  missing skipped validated : Status

abbrev pub is_validated : Status → Bool
is_validated validated = true
is_validated _ = false

pub record ReproReport : Type 0 where
  pub status : Status
  pub path : Text
  pub cmd : Text
  pub skip_reason : Text
  pub red_excerpt : Text
  pub green : Option Bool
  pub detail : Text

abbrev pub empty_report : Status → ReproReport
empty_report s = record {
  status = s;
  path = [];
  cmd = [];
  skip_reason = [];
  red_excerpt = [];
  green = none;
  detail = [];
}

-- reproState; its `iter` is never written.
pub record ReproState : Type 0 where
  pub report : ReproReport
  pub sha256 : Text

-- The fields of the gates that the repro gate reads or writes.
pub record ReproGate : Type 0 where
  pub repro_first : Bool
  pub run_base_tree : Text
  pub test_fence : List Text
  pub alias : Text
  pub fence : Option FenceState
  pub repro : Option ReproState

-- The workspace. A write, a directory and a restored tree come with whether they succeeded.
pub record Workspace {ℓ} (W : Type ℓ) : Type ℓ where
  pub read : Text → W → Option Text
  pub exists : Text → W → Bool
  pub make_dir : Text → W → Bool × W
  pub write : Text → Text → W → Bool × W
  pub write_tree : W → Option Text
  pub restore_tree : Text → W → Bool × W
  pub run : Text → W → Option Text × W
  -- crypto/sha256 in hexadecimal, and clip at 4000 code points.
  pub hash : Text → Text
  pub clip : Text → Text

pub data ReproError : Type 0 where
  empty_cmd already_locked escapes_root not_written no_base_tree no_snapshot : ReproError
  base_not_restored not_new no_directory not_copied not_restored not_run : ReproError
  timed_out passes_on_base fails_to_build empty_reason : ReproError

pub data Said : Type 0 where
  said : Text → Said
  failed : ReproError → Said

abbrev is_locked_state : Option ReproState → Bool
is_locked_state none = false
is_locked_state (some s) = is_validated s.report.status

-- `g.repro != nil && g.repro.report.Status == "validated"`
abbrev pub is_locked : ReproGate → Bool
is_locked g = is_locked_state g.repro

-- strings.TrimPrefix(p, "/")
abbrev without_slash : Text → Text
without_slash [] = []
without_slash (c ∷ s) = if has_prefix (c ∷ s) (codes "/") then s else c ∷ s

unfoldable pub clean_rel : Text → Text
clean_rel p = let q = clean_path (without_slash p) in if text_eq q (codes ".") then [] else q

-- safeJoin: the relative path, where it stays in the root.
unfoldable pub safe_join : Text → Option Text
unfolding clean_rel
safe_join p =
    let rel = clean_rel p in
    if is_empty rel
      || text_eq rel (codes "..")
      || has_prefix rel (codes "../")
      || has_prefix p (codes "/")
    then none
    else some rel

abbrev is_path_of : Text → Option ReproState → Bool
is_path_of rel none = false
is_path_of rel (some s) = is_validated s.report.status && text_eq rel s.report.path

unfoldable pub repro_locked_path : ReproGate → Text → Bool
repro_locked_path g p = is_path_of (clean_rel (fence_rel_path g.alias p)) g.repro

-- reproFenceClosed
unfoldable pub repro_fence_closed : ReproGate → Text → Bool
repro_fence_closed g p =
    is_locked g
    && not (is_empty g.test_fence)
    && matches_fence g.test_fence (fence_rel_path g.alias p)

-- lockReproTool: what a writing tool answers, none being the tool's own call.
pub data Refusal : Type 0 where
  repro_is_locked : Text → Refusal
  fence_is_closed : Text → Refusal

unfoldable pub lock_repro_tool : ReproGate → Text → Option Refusal
unfolding repro_locked_path repro_fence_closed
lock_repro_tool g p =
    if repro_locked_path g p
    then some (repro_is_locked p)
    else if repro_fence_closed g p
    then some (fence_is_closed p)
    else none

unfoldable pub skip_repro : Text → ReproGate → Said × ReproGate
skip_repro reason g =
    let r = trim_space reason in
    if is_empty r
    then (failed empty_reason, g)
    else if is_locked g
    then (failed already_locked, g)
    else (
      said (codes "repro skipped: " ++ r),
      record g {
        repro =
            some
              (record { report = record (empty_report skipped) { skip_reason = r }; sha256 = [] });
      },
    )

abbrev reported : Option ReproState → ReproReport
reported none = record (empty_report missing) { detail = codes "repro_missing" }
reported (some s) = s.report

unfoldable pub repro_report : ReproGate → Option ReproReport
repro_report g = if not g.repro_first then none else some (reported g.repro)
