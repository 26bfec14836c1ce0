-- ===== src/Agent/Closing/Closed.antt =====
-- What the fence and the repro gate have shown of an answer that the gates accept.
use driver_os.Base.{
  ◌≡◌, ◌⊎◌, refl, sym, ap, ◌∙◌, arith, true, false, [], Option, none, some, Text, is_empty,
}
use driver_os.Agent.Gates.{World, Gates, fence_check}
use driver_os.Agent.Gates.Completion.{verify_finish}
use driver_os.Agent.Gates.Finish.{Reviews, FinishInput, answered_with, finish}
use driver_os.Agent.Gates.Finish.Answered.{finish-Passed, verify_finish-safe, verify_safety-clean}
use driver_os.Agent.Fence.Snapshots.{
  Snapshot, Listing, FenceState, entries, walk_fenced, violation_check,
}
use driver_os.Agent.Fence.Snapshots.Drift.{Agree, violation_check-Agree}
use driver_os.Agent.Repro.{Status, missing, skipped, validated, ReproState, ReproGate, Workspace}
use driver_os.Agent.Repro.Finish.{
  Block, clear, finish_run, finish_tree, finish_read, finish_locked, finish_status, finish_state,
  repro_finish,
}
use driver_os.Agent.Repro.Finish.Cleared.{IsGreen, repro_finish-clear}
use driver_os.Agent.Closing.{block_texts, as_feedback, fenced, gated}

module _ {ℓ} {V : Type ℓ} (space : Workspace V) where
  -- A block that says nothing is none.
  abbrev IsSaid : Block → Type 0
  IsSaid b = is_empty (block_texts b).0 ≡ true → b ≡ clear

  finish_run-IsSaid : (s : ReproState) (o : Option Text) → IsSaid (finish_run space s o).0
  unfolding finish_run block_texts
  finish_run-IsSaid s none h = cc
  finish_run-IsSaid s (some out) h = ground arith

  finish_tree-IsSaid :
      (s : ReproState) (o : Option Text) (w : V) → IsSaid (finish_tree space s o w).0
  unfolding finish_tree block_texts
  finish_tree-IsSaid s none w h = cc
  finish_tree-IsSaid s (some cur) w h = finish_run-IsSaid s (space.run s.report.cmd w).0 h

  finish_read-IsSaid :
      (s : ReproState) (o : Option Text) (w : V) → IsSaid (finish_read space s o w).0
  unfolding finish_read block_texts
  finish_read-IsSaid s none w h = cc
  finish_read-IsSaid s (some d) w h = ground (arith, finish_tree-IsSaid s (space.write_tree w) w)

  finish_status-IsSaid :
      (g : ReproGate) (s : ReproState) (t : Status) (w : V) → IsSaid (finish_status space g s t w).0
  unfolding finish_status finish_locked
  finish_status-IsSaid g s skipped w h = refl
  finish_status-IsSaid g s missing w h = finish_read-IsSaid s (space.read s.report.path w) w h
  finish_status-IsSaid g s validated w h = finish_read-IsSaid s (space.read s.report.path w) w h

  finish_state-IsSaid :
      (g : ReproGate) (o : Option ReproState) (w : V) → IsSaid (finish_state space g o w).0
  unfolding finish_state block_texts
  finish_state-IsSaid g none w h = cc
  finish_state-IsSaid g (some s) w h = finish_status-IsSaid g s s.report.status w h

  repro_finish-IsSaid : (g : ReproGate) (w : V) → IsSaid (repro_finish space g w).0
  unfolding repro_finish
  repro_finish-IsSaid g w h = ground (arith, finish_state-IsSaid g g.repro w)

  -- The repro gate asks for nothing in this state.
  abbrev pub IsReproduced : ReproGate × V → Type 0
  IsReproduced (g, v) =
      (g.repro_first ≡ false)
      ⊎ ((s : ReproState) × (g.repro ≡ some s) × ((s.report.status ≡ skipped) ⊎ IsGreen space s v))

-- The snapshot of the fence did not fail, and the fenced files of the listing agree with it.
abbrev pub IsUntouched : (Text → Text) → FenceState → Listing → Type 0
IsUntouched sha256 f l =
    (f.snapshot_failed ≡ false)
    × ((cur : Snapshot) × (walk_fenced sha256 f.globs l ≡ some cur) × Agree (entries f.base) cur)

module _ {ℓ} {V : Type ℓ} (space : Workspace V) (sha256 : Text → Text) (listing : V → Listing)
    (world : World (ReproGate × V)) (reviews : Reviews (ReproGate × V)) where
  gated-IsReproduced :
      (x : ReproGate × V)
      → is_empty ((gated space sha256 listing reviews).repro_finish x).0.0 ≡ true
      → IsReproduced space x
  unfolding gated as_feedback
  gated-IsReproduced (g, v) h = repro_finish-clear space g v (repro_finish-IsSaid space g v h)

  fenced-violation :
      (g : Gates) (x : ReproGate × V)
      → g.fence ≡ true
      → is_empty (fence_check (fenced space sha256 listing world) g x).reason ≡ true
      → violation_check sha256 x.0.fence (listing x.1) ≡ some []
  unfolding fence_check fenced
  fenced-violation g (r, v) f h = ground arith

  -- An answer that the gates accept, untrusted, in a run with a fence: the snapshot of the fence did not
  -- fail, and when the finish begins, before the verification and the reproduction run, every path has
  -- the same hashes and size in the walk of the workspace and in the snapshot, a reproduction that was
  -- locked into it included, or is absent in both; and behind the verification no reproduction was asked for,
  -- or one was skipped, or the declared one reads as it was locked and its command ran and did not fail
  -- or ran out of time.
  pub finish-IsClosed :
      (f : FenceState) (i : FinishInput) (g : Gates) (x : ReproGate × V) (a : Text)
      → x.0.fence ≡ some f
      → g.fence ≡ true
      → i.trusted ≡ false
      → (finish (fenced space sha256 listing world) (gated space sha256 listing reviews) i g x).0
        ≡ answered_with a
      → IsUntouched sha256 f (listing x.1)
        × IsReproduced space
            (verify_finish (fenced space sha256 listing world) g i.last_run_failed i.trusted x).2
  finish-IsClosed f i g x a k e t h =
      let w = fenced space sha256 listing world in
      let r = gated space sha256 listing reviews in
      let p = (finish-Passed w r i g x a h).1 in
      let c =
        ap (λ b. is_empty (verify_finish w g i.last_run_failed b x).0.reason) (sym t) ∙ p.clean in
      let (q, _) = verify_safety-clean w r g x (verify_finish-safe w r g i.last_run_failed x c) in
      let v = fenced-violation g x e q in
      (
        violation_check-Agree sha256 f (listing x.1)
            (ap (λ s. violation_check sha256 s (listing x.1)) (sym k) ∙ v),
        gated-IsReproduced _ p.reproduced,
      )
