-- ===== src/Agent/Gates.antt =====
-- agent/gate.go and agent/verify.go: what the closing gates keep, and the checks they compose. The
-- world `W` (sandbox, git, clock, context) is a parameter; notes to the observer and the text of an
-- error are left out.
pub mod Completion
pub mod Finish
pub mod Rescue
pub mod Measured
pub mod Check
mod Tests
use driver_os.Base.{
  ℕ, ◌+◌, Bool, true, false, not, ◌&&◌, ◌||◌, List, [], ◌∷◌, ◌++◌, Option, none, some, Text, codes,
  ltb, ◌==◌, if◌then◌else◌, is_empty, text_eq, sort_texts, take,
}
use driver_os.Agent.Outcome.{Outcome, no_outcome, unverified, scope_violation}
use driver_os.Agent.Evidence.{
  EvidenceStatus, degraded, failed, inconclusive, passed, EvidenceLog, record_verify,
}
use driver_os.Agent.Observation.{is_run_failure, is_run_timeout, infra_fault_signature}
use driver_os.Agent.Tracker.{VerificationRecord, new_verification_record}

-- What the gates ask of the world. `run_command` runs the verification command detached from a
-- cancellation: none is a command that could not start. The trees are vcs.WriteTree and
-- vcs.DiffTreeNames on the root, none being an error.
pub record World {ℓ} (W : Type ℓ) : Type ℓ where
  pub canceled : W → Bool
  pub run_command : Text → W → Option Text × W
  pub write_tree : W → Option Text
  pub diff_tree_names : Text → Text → W → Option (List Text)
  -- fenceState.violationCheck: none is an error, the empty text no violation.
  pub fence_violation : W → Option Text
  -- path.Clean and matchesScope, for the globs of the run.
  pub normal : Text → Text
  pub matches_scope : Text → Bool
  -- fmt's %q, %s of the timeout and %d.
  pub quoted : Text → Text
  pub timeout_text : Text
  pub show : ℕ → Text

-- gateCheck
pub record GateCheck : Type 0 where
  pub reason : Text
  pub unverifiable : Bool

abbrev pub clean_check : GateCheck
clean_check = record { reason = []; unverifiable = false }

abbrev pub unverifiable_check : Text → GateCheck
unverifiable_check why = record { reason = why; unverifiable = true }

-- The fields of gates and of its verifyState and policy that the closing stages read or write. A scope
-- without a base tree is one whose snapshot failed.
pub record Gates : Type 0 where
  pub cmd : Text
  pub verify_last_run : Bool
  pub verify_continue : Bool
  pub auto_verify_soft : Bool
  pub skip_verify_baseline : Bool
  pub require_diff : Bool
  pub fence : Bool
  pub scope : Option (Option Text)
  pub globs : Text
  pub run_base_tree : Text
  pub verify_baseline_red : Bool
  pub verify_baseline_out : Text
  pub verify_baseline_measured : Bool
  pub verify_infra_signature : Text
  pub baseline_grace_used : Bool
  pub auto_verify_feedback : ℕ
  pub closing_verification : Option VerificationRecord
  pub closing_verify_gen : ℕ
  pub ev : Option EvidenceLog

-- A stage's verdict: the empty reason is a clean one.
pub record Verdict : Type 0 where
  pub outcome : Outcome
  pub reason : Text
  pub no_continue : Bool

abbrev pub clean_verdict : Verdict
clean_verdict = record { outcome = no_outcome; reason = []; no_continue = false }

abbrev pub verdict : Outcome → Text → Bool → Verdict
verdict o r n = record { outcome = o; reason = r; no_continue = n }

-- verifyRun's result.
pub data Run : Type 0 where
  skipped : Run
  errored : Run
  output : Text → Run

unfoldable pub status_of : Option Text → EvidenceStatus
status_of none = inconclusive
status_of (some out) =
    if is_run_timeout out || not (is_empty (infra_fault_signature out))
    then inconclusive
    else if is_run_failure out
    then failed
    else passed

unfoldable pub logged : Text → EvidenceStatus → Option EvidenceLog → Option EvidenceLog
logged cmd status none = none
logged cmd status (some l) = if l.closing_ready then record_verify (some l) cmd status else some l

abbrev pub as_run : Option Text → Run
as_run none = errored
as_run (some out) = output out

abbrev pub mutation_gen : Option EvidenceLog → ℕ
mutation_gen none = 0
mutation_gen (some l) = l.mut_gen

-- A text of changed paths, ", " between them.
abbrev pub comma_joined : List Text → Text
comma_joined [] = []
comma_joined (p ∷ []) = p
comma_joined (p ∷ q ∷ ps) = p ++ codes ", " ++ comma_joined (q ∷ ps)

abbrev pub is_tree : Option Text → Text → Bool
is_tree none base = false
is_tree (some cur) base = text_eq cur base

-- The tree, empty on an error.
abbrev pub tree_or_empty : Option Text → Text
tree_or_empty none = []
tree_or_empty (some t) = t

module _ {ℓ} {W : Type ℓ} (world : World W) where
  -- The paths outside the scope.
  unfoldable pub outside : List Text → List Text
  outside [] = []
  outside (p ∷ ps) =
      let rest = outside ps in
      if world.matches_scope (world.normal p) then rest else world.normal p ∷ rest

  unfoldable pub scope_verdict : Gates → List Text → GateCheck
  scope_verdict g [] = clean_check
  scope_verdict g (p ∷ ps) = record {
    reason =
        codes "diff scope violated: "
        ++ comma_joined (take 20 (sort_texts (p ∷ ps)))
        ++ codes " — only paths matching ("
        ++ g.globs
        ++ codes ") may be changed";
    unverifiable = false;
  }

  unfoldable pub scope_names : Gates → Option (List Text) → GateCheck
  scope_names g none =
      unverifiable_check (codes "diff scope could not be re-verified: tree diff failed")
  scope_names g (some names) = scope_verdict g (outside names)

  unfoldable pub scope_trees : Gates → Text → Option Text → W → GateCheck
  scope_trees g base none w =
      unverifiable_check
        (codes "diff scope could not be re-verified: closing-gate tree snapshot failed")
  scope_trees g base (some cur) w =
      if text_eq cur base then clean_check else scope_names g (world.diff_tree_names base cur w)

  unfoldable pub scope_base : Gates → Option Text → W → GateCheck
  scope_base g none w =
      unverifiable_check (codes "diff scope could not be re-verified: run-start snapshot failed")
  scope_base g (some base) w = scope_trees g base (world.write_tree w) w

  unfoldable pub scope_check : Gates → W → GateCheck
  scope_check g w = elim g.scope [ none ↦ clean_check | some base ↦ scope_base g base w ]

  abbrev pub fence_verdict : Option Text → GateCheck
  fence_verdict none = unverifiable_check (codes "test fence could not be re-verified: ")
  fence_verdict (some reason) = record { reason = reason; unverifiable = false }

  unfoldable pub fence_check : Gates → W → GateCheck
  fence_check g w = if not g.fence then clean_check else fence_verdict (world.fence_violation w)

  unfoldable pub verify_safety : Gates → W → Verdict
  verify_safety g w =
      let f = fence_check g w in
      let s = scope_check g w in
      if not (is_empty f.reason)
      then verdict unverified f.reason true
      else if not (is_empty s.reason)
      then (if s.unverifiable
          then verdict unverified s.reason true
          else verdict scope_violation s.reason false)
      else clean_verdict

  unfoldable pub unchanged_run_tree : Gates → W → Bool
  unchanged_run_tree g w =
      if is_empty g.run_base_tree then false else is_tree (world.write_tree w) g.run_base_tree

  unfoldable pub require_diff_failure : Gates → W → Verdict
  require_diff_failure g w =
      if g.require_diff && unchanged_run_tree g w
      then verdict unverified (codes "require-diff: run completed with no changes") true
      else clean_verdict

  unfoldable pub capture_closing_verification : Gates → Text → Text → Gates
  capture_closing_verification g out tree = record g {
    closing_verification = some (new_verification_record world.show g.cmd out tree);
    closing_verify_gen = elim g.ev [ none ↦ g.closing_verify_gen | some l ↦ l.mut_gen ];
  }

  -- The record that the result carries.
  unfoldable pub apply_closing_verification : Gates → Option VerificationRecord
  apply_closing_verification g = elim g.closing_verification [
    | none ↦ none
    | some r ↦
        if ltb g.closing_verify_gen (mutation_gen g.ev)
        then some (record r { status = degraded })
        else some r
  ]

  unfoldable pub finished_run : Gates → Option Text × W → Run × Gates × W
  finished_run g (o, w) = (as_run o, record g { ev = logged g.cmd (status_of o) g.ev }, w)

  unfoldable pub verify_run : Gates → W → Run × Gates × W
  verify_run g w =
      if world.canceled w then (skipped, g, w) else finished_run g (world.run_command g.cmd w)
