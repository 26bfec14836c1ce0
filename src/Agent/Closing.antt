-- ===== src/Agent/Closing.antt =====
-- agent/finish.go and agent/gate.go: the closing gates with the fence and the repro gate that they call.
-- The fence is one object: a declared reproduction is added to the snapshot that the fence compares.
pub mod Closed
mod Tests
use driver_os.Base.{[], Text, codes}
use driver_os.Agent.Gates.{World}
use driver_os.Agent.Gates.Finish.{Reviews}
use driver_os.Agent.Fence.Snapshots.{Listing, violation_check}
use driver_os.Agent.Repro.{ReproGate, Workspace}
use driver_os.Agent.Repro.Finish.{Block, clear, repro_missing, repro_red, repro_finish}

-- The feedback of a block and its detail.
unfoldable pub block_texts : Block → Text × Text
block_texts clear = ([], [])
block_texts repro_missing = (
  codes
      "You must declare a failing reproduction test (declare_repro) or explicitly skip_repro before answering",
  codes "repro_missing",
)
block_texts (repro_red why) = (why, codes "repro_red")

-- What repro_finish leaves, in the form that finish reads.
unfoldable pub as_feedback {ℓ} :
    {V : Type ℓ} → Block × ReproGate × V → (Text × Text) × (ReproGate × V)
unfolding block_texts
as_feedback (b, g, v) = (block_texts b, (g, v))

module _ {ℓ} {V : Type ℓ} (space : Workspace V) (sha256 : Text → Text) (listing : V → Listing) where
  -- fenceCheck calls violationCheck of the gates' fence.
  unfoldable pub fenced : World (ReproGate × V) → World (ReproGate × V)
  fenced world = record world {
    fence_violation = λ (x : ReproGate × V). violation_check sha256 x.0.fence (listing x.1);
  }

  -- finish calls reproFinish.
  unfoldable pub gated : Reviews (ReproGate × V) → Reviews (ReproGate × V)
  unfolding as_feedback
  gated reviews = record reviews {
    repro_finish = λ (x : ReproGate × V). as_feedback (repro_finish space x.0 x.1);
  }
