-- ===== src/Agent/Gates/Check.antt =====
-- Gate.Check of agent/gate.go: the closing gates on a finished tree, without a run.
use driver_os.Base.{◌≡◌, arith, Bool, true, false, not, [], Text, if◌then◌else◌, is_empty}
use driver_os.Agent.Observation.{is_run_failure}
use driver_os.Agent.Gates.{World, Gates, fence_check}
use driver_os.Agent.Gates.Completion.{verify_termination}
use driver_os.Agent.Gates.Completion.Runs.{Ran}
use driver_os.Agent.Gates.Completion.Confirmed.{verify_termination-Sound}
use driver_os.Agent.Gates.Finish.{Reviews}

-- GateReport, without the review's own report.
pub record GateReport : Type 0 where
  pub blocked : Bool
  pub fence_violation : Text
  pub verify_reason : Text

module _ {ℓ} {W : Type ℓ} (world : World W) (reviews : Reviews W) where
  unfoldable pub checked_review : (Text × Text) × Gates × W → GateReport × Gates × W
  checked_review ((fb, block), g, w) =
      (record { blocked = not (is_empty block); fence_violation = []; verify_reason = [] }, g, w)

  unfoldable pub checked_verify : (Text × Text) × Gates × W → GateReport × Gates × W
  checked_verify ((reason, out), g, w) =
      if not (is_empty reason)
      then (record { blocked = true; fence_violation = []; verify_reason = reason }, g, w)
      else checked_review (reviews.review_finish false g w)

  unfoldable pub gate_check : Gates → W → GateReport × Gates × W
  gate_check g w =
      let f = fence_check world g w in
      if not (is_empty f.reason)
      then (record { blocked = true; fence_violation = f.reason; verify_reason = [] }, g, w)
      else checked_verify (verify_termination world g false w)

  checked_verify-passed :
      (x : (Text × Text) × Gates × W)
      → (checked_verify x).0.blocked ≡ false
      → (is_empty x.0.0 ≡ true) × (is_empty (reviews.review_finish false x.1 x.2).0.1 ≡ true)
  unfolding checked_verify checked_review
  checked_verify-passed ((reason, out), g, w) e = (ground arith, ground arith)

  gate_check-stages :
      (g : Gates) (w : W)
      → (gate_check g w).0.blocked ≡ false
      → (is_empty (fence_check world g w).reason ≡ true)
        × ((checked_verify (verify_termination world g false w)).0.blocked ≡ false)
  unfolding gate_check
  gate_check-stages g w e = (ground arith, ground arith)

  -- A standalone check under a verification command that does not block: the fence is clean, the command
  -- ran and its output is no failure, and the review, asked behind it, has no reason to block.
  pub gate_check-passed :
      (g : Gates) (w : W)
      → is_empty g.cmd ≡ false
      → (gate_check g w).0.blocked ≡ false
      → let x = verify_termination world g false w in
        (is_empty (fence_check world g w).reason ≡ true)
        × (Ran world g x.0.1 × (is_run_failure x.0.1 ≡ false))
        × (is_empty (reviews.review_finish false x.1 x.2).0.1 ≡ true)
  gate_check-passed g w c e =
      let (f, k) = gate_check-stages g w e in
      let (r, b) = checked_verify-passed (verify_termination world g false w) k in
      (f, (verify_termination-Sound world g false w c).confirms r, b)
