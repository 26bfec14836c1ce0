-- ===== src/Agent/Gates/Finish/Answered.antt =====
-- What an accepted answer has passed.

use driver_os.Base.{
  ◌≡◌, ◌⊎◌, inl, inr, sym, ap, ◌∙◌, arith, Bool, true, false, Text, is_empty, trim_space,
  Bool-cases,
}
use driver_os.Agent.Gates.{
  World, Gates, Verdict, verify_safety, fence_check, scope_check, tree_or_empty,
}
use driver_os.Agent.Gates.Completion.{verify_completion, verify_finish, knows_baseline}
use driver_os.Agent.Gates.Completion.Confirmed.{Confirmed, verify_completion-Confirmed}
use driver_os.Agent.Gates.Finish.{
  Reviews, FinishInput, answered_with, stop_reviewed, reviewed, answer_stage, repro_stage,
  is_scope_violation, verdict_stage, finish,
}

module _ {ℓ} {W : Type ℓ} (world : World W) (reviews : Reviews W) where
  -- The gates that an answer passed, in their order.
  pub record Passed (i : FinishInput) (x : Verdict × Gates × W) : Type ℓ where
    pub clean : is_empty x.0.reason ≡ true
    in_scope : is_scope_violation x.0.outcome ≡ false
    not_canceled : world.canceled x.2 ≡ false
    pub reproduced : is_empty (reviews.repro_finish x.2).0.0 ≡ true
    answer : is_empty (trim_space i.answer) ≡ false
    reviewed :
        (i.trusted ≡ true)
        ⊎ (let r = (reviews.review_finish i.can_continue x.1 (reviews.repro_finish x.2).1).0 in
            (is_empty r.0 ≡ true) × (is_empty r.1 ≡ true))

  reviewed-answered :
      (i : FinishInput) (x : (Text × Text) × Gates × W) (a : Text)
      → (reviewed world reviews i x).0 ≡ answered_with a
      → (a ≡ i.answer) × (is_empty x.0.0 ≡ true) × (is_empty x.0.1 ≡ true)
  unfolding reviewed
  reviewed-answered i ((fb, block), g, w) a e = (ground arith, ground arith, ground arith)

  answer_stage-answered :
      (i : FinishInput) (g : Gates) (w : W) (a : Text)
      → (answer_stage world reviews i g w).0 ≡ answered_with a
      → (a ≡ i.answer)
        × (is_empty (trim_space i.answer) ≡ false)
        × ((i.trusted ≡ true)
            ⊎ (let r = (reviews.review_finish i.can_continue g w).0 in
                (is_empty r.0 ≡ true) × (is_empty r.1 ≡ true)))
  unfolding answer_stage stop_reviewed
  answer_stage-answered i g w a e = elim (Bool-cases i.trusted) [
    | inl t ↦ (ground (arith, e, t), ground (arith, e), inl t)
    | inr t ↦
        let (p, q, r) =
          reviewed-answered i (reviews.review_finish i.can_continue g w) a (ground (arith, e, t)) in
        (p, ground (arith, e), inr (q, r))
  ]

  repro_stage-answered :
      (i : FinishInput) (g : Gates) (x : (Text × Text) × W) (a : Text)
      → (repro_stage world reviews i g x).0 ≡ answered_with a
      → (is_empty x.0.0 ≡ true) × ((answer_stage world reviews i g x.1).0 ≡ answered_with a)
  unfolding repro_stage stop_reviewed
  repro_stage-answered i g ((fb, detail), w) a e = (ground arith, ground arith)

  verdict_stage-answered :
      (i : FinishInput) (v : Verdict) (g : Gates) (w : W) (a : Text)
      → (verdict_stage world reviews i (v, g, w)).0 ≡ answered_with a
      → (is_empty v.reason ≡ true)
        × (is_scope_violation v.outcome ≡ false)
        × (world.canceled w ≡ false)
        × ((repro_stage world reviews i g (reviews.repro_finish w)).0 ≡ answered_with a)
  unfolding verdict_stage stop_reviewed
  verdict_stage-answered i v g w a e = (ground arith, ground arith, ground arith, ground arith)

  stage-Passed :
      (i : FinishInput) (x : Verdict × Gates × W) (a : Text)
      → (verdict_stage world reviews i x).0 ≡ answered_with a
      → (a ≡ i.answer) × Passed i x
  stage-Passed i (v, g, w) a e =
      let (c, s, n, r) = verdict_stage-answered i v g w a e in
      let (m, q) = repro_stage-answered i g (reviews.repro_finish w) a r in
      let (p, b, t) = answer_stage-answered i g (reviews.repro_finish w).1 a q in
      (
        p,
        record {
          clean = c;
          in_scope = s;
          not_canceled = n;
          reproduced = m;
          answer = b;
          reviewed = t;
        },
      )

  -- An accepted answer is the model's, is not blank, and passed every gate in order: the verification
  -- verdict is clean and no scope violation, the run was not canceled, the repro gate had nothing to
  -- say and, unless the finish is trusted, the review neither fed back nor blocked.
  pub finish-Passed :
      (i : FinishInput) (g : Gates) (w : W) (a : Text)
      → (finish world reviews i g w).0 ≡ answered_with a
      → (a ≡ i.answer) × Passed i (verify_finish world g i.last_run_failed i.trusted w)
  unfolding finish
  finish-Passed i g w a e = stage-Passed i (verify_finish world g i.last_run_failed i.trusted w) a e

  -- The stages before the verification were clean too.
  pub verify_finish-safe :
      (g : Gates) (last : Bool) (w : W)
      → is_empty (verify_finish world g last false w).0.reason ≡ true
      → is_empty (verify_safety world g w).reason ≡ true
  unfolding verify_finish
  verify_finish-safe g last w e = ground (arith, e)

  verify_finish-completion :
      (g : Gates) (last : Bool) (w : W)
      → is_empty (verify_finish world g last false w).0.reason ≡ true
      → verify_finish world g last false w ≡ verify_completion world g last w
  unfolding verify_finish
  verify_finish-completion g last w e = ground (arith, e)

  pub verify_safety-clean :
      (g : Gates) (w : W)
      → is_empty (verify_safety world g w).reason ≡ true
      → (is_empty (fence_check world g w).reason ≡ true)
        × (is_empty (scope_check world g w).reason ≡ true)
  unfolding verify_safety
  verify_safety-clean g w e = (ground arith, ground arith)

  -- An answer that is accepted, untrusted, under an authoritative verification command: the fence and
  -- the scope are clean, and either the tree is the one that the run started from with a green baseline
  -- or the command ran, passed, and stands in the gates as the closing record.
  pub finish-Confirmed :
      (i : FinishInput) (g : Gates) (w : W) (a : Text)
      → i.trusted ≡ false
      → is_empty g.cmd ≡ false
      → g.auto_verify_soft ≡ false
      → (finish world reviews i g w).0 ≡ answered_with a
      → (is_empty (fence_check world g w).reason ≡ true)
        × (is_empty (scope_check world g w).reason ≡ true)
        × (((knows_baseline world g w ≡ true) × (g.verify_baseline_red ≡ false))
            ⊎ Confirmed world g
                (verify_completion world g i.last_run_failed w).1
                (tree_or_empty (world.write_tree w)))
  finish-Confirmed i g w a t c s e =
      let p = (finish-Passed i g w a e).1 in
      let n =
        ap (λ b. is_empty (verify_finish world g i.last_run_failed b w).0.reason) (sym t)
        ∙ p.clean in
      let (f, k) = verify_safety-clean g w (verify_finish-safe g i.last_run_failed w n) in
      let q = verify_finish-completion g i.last_run_failed w n in
      (
        f,
        k,
        verify_completion-Confirmed world g i.last_run_failed w c s
            (ap (λ x. is_empty x.0.reason) (sym q) ∙ n),
      )
