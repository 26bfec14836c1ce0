-- ===== src/Agent/Gates/Rescue/Upgraded.antt =====
-- A run that is upgraded to answered has cleared the gates of an answer.
use mathlib.Core.Path.{subst}
use driver_os.Base.{
  ◌≡◌, inl, inr, refl, sym, ap, ◌∙◌, arith, Bool, true, false, not, ◌&&◌, [], Text, is_empty,
  text_eq, Bool-cases,
}
use driver_os.Agent.Outcome.{Outcome, answered}
use driver_os.Agent.Observation.{is_run_failure, infra_fault_signature}
use driver_os.Agent.Gates.{
  World, Gates, Run, skipped, errored, output, verify_run, scope_check, fence_check,
  require_diff_failure,
}
use driver_os.Agent.Gates.Completion.Runs.{Ran, RunOf, verify_run-RunOf, RunOf-Same}
use driver_os.Agent.Gates.Finish.{Reviews}
use driver_os.Agent.Gates.Rescue.{
  RunResult, rescued, after_review, after_repro, green, second_run, first_upgrade_run,
  pre_verify_tree, upgrade_run, upgrade_if_verified,
}

abbrev pub is_answered : Outcome → Bool
is_answered answered = true
is_answered _ = false

module _ {ℓ} {W : Type ℓ} (world : World W) (reviews : Reviews W)
    (outcome_text : Outcome → Text) where
  -- The command ran and passed, and the result names the outcome that it replaced.
  pub record Rescued (g : Gates) (res after : RunResult) : Type ℓ where
    out : Text
    ran : Ran world g out
    passed : is_run_failure out ≡ false
    from : after.rescued_from ≡ res.outcome

  after_review-from :
      (res : RunResult) (x : (Text × Text) × Gates × W)
      → is_answered res.outcome ≡ false
      → is_answered (after_review world reviews outcome_text res x).0.outcome ≡ true
      → (after_review world reviews outcome_text res x).0.rescued_from ≡ res.outcome
  unfolding after_review rescued
  after_review-from res ((fb, block), g, w) n e = ground arith

  after_repro-from :
      (res : RunResult) (g : Gates) (x : (Text × Text) × W)
      → is_answered res.outcome ≡ false
      → is_answered (after_repro world reviews outcome_text res g x).0.outcome ≡ true
      → (after_repro world reviews outcome_text res g x).0.rescued_from ≡ res.outcome
  unfolding after_repro
  after_repro-from res g ((fb, detail), w) n e =
      ground (arith, after_review-from res (reviews.review_finish false g w) n)

  green-from :
      (res : RunResult) (tree out : Text) (g : Gates) (w : W)
      → is_answered res.outcome ≡ false
      → is_answered (green world reviews outcome_text res tree out g w).0.outcome ≡ true
      → (green world reviews outcome_text res tree out g w).0.rescued_from ≡ res.outcome
  unfolding green
  green-from res tree out g w n e = after_repro-from res _ (reviews.repro_finish w) n e

  second_run-Rescued :
      (g : Gates) (res : RunResult) (tree sig : Text) (x : Run × Gates × W)
      → RunOf world g x
      → is_answered res.outcome ≡ false
      → is_answered (second_run world reviews outcome_text res tree sig x).0.outcome ≡ true
      → Rescued g res (second_run world reviews outcome_text res tree sig x).0
  unfolding second_run
  second_run-Rescued g res tree sig (skipped, h, w) t n e = ground arith
  second_run-Rescued g res tree sig (errored, h, w) t n e = ground arith
  second_run-Rescued g res tree sig (output out, h, w) t n e =
      let k = record h { verify_infra_signature = [] } in
      elim (Bool-cases (is_run_failure out)) [
        | inl y ↦ ground (arith, y, e, n)
        | inr y ↦ record {
          out = out;
          ran = t.of out refl;
          passed = y;
          from = ground (arith, y, e, n, green-from res tree out k w n);
        }
      ]

  first_upgrade_run-Rescued :
      (g : Gates) (res : RunResult) (tree : Text) (x : Run × Gates × W)
      → RunOf world g x
      → is_answered res.outcome ≡ false
      → is_answered (first_upgrade_run world reviews outcome_text res tree x).0.outcome ≡ true
      → Rescued g res (first_upgrade_run world reviews outcome_text res tree x).0
  unfolding first_upgrade_run
  first_upgrade_run-Rescued g res tree (skipped, h, w) t n e = ground arith
  first_upgrade_run-Rescued g res tree (errored, h, w) t n e = ground arith
  first_upgrade_run-Rescued g res tree (output out, h, w) t n e =
      let sig = infra_fault_signature out in
      let k = record h { verify_infra_signature = sig } in
      elim (Bool-cases (is_run_failure out)) [
        | inr y ↦ record {
          out = out;
          ran = t.of out refl;
          passed = y;
          from = ground (arith, y, e, n, green-from res tree out h w n);
        }
        | inl y ↦ elim (Bool-cases (is_empty sig)) [
          | inl z ↦ ground (arith, y, z, e, n)
          | inr z ↦
              let r =
                RunOf-Same world g k (verify_run world k w)
                  (record { cmd = t.same.cmd; soft = t.same.soft }) (verify_run-RunOf world k w) in
              let u =
                second_run-Rescued g res tree sig (verify_run world k w) r n
                  (ground (arith, y, z, e)) in
              record {
                out = u.out;
                ran = u.ran;
                passed = u.passed;
                from = ground (arith, y, z, u.from);
              }
        ]
      ]

  upgrade_run-changed :
      (g : Gates) (res : RunResult) (w : W)
      → is_answered res.outcome ≡ false
      → is_answered (upgrade_run world reviews outcome_text res g w).0.outcome ≡ true
      → ((not (is_empty g.run_base_tree)
            && text_eq (pre_verify_tree world reviews outcome_text g w) g.run_base_tree)
          ≡ false)
        × (upgrade_run world reviews outcome_text res g w
            ≡ first_upgrade_run world reviews outcome_text res
                (pre_verify_tree world reviews outcome_text g w)
                (verify_run world g w))
  unfolding upgrade_run
  upgrade_run-changed g res w n e = (ground arith, ground arith)

  upgrade_run-Rescued :
      (g : Gates) (res : RunResult) (w : W)
      → is_answered res.outcome ≡ false
      → is_answered (upgrade_run world reviews outcome_text res g w).0.outcome ≡ true
      → ((not (is_empty g.run_base_tree)
            && text_eq (pre_verify_tree world reviews outcome_text g w) g.run_base_tree)
          ≡ false)
        × Rescued g res (upgrade_run world reviews outcome_text res g w).0
  upgrade_run-Rescued g res w n e =
      let tree = pre_verify_tree world reviews outcome_text g w in
      let (c, q) = upgrade_run-changed g res w n e in
      (
        c,
        subst (λ (x : RunResult × Gates × W). Rescued g res x.0) (sym q)
            (first_upgrade_run-Rescued g res tree (verify_run world g w)
              (verify_run-RunOf world g w) n (ap (λ x. is_answered x.0.outcome) (sym q) ∙ e)),
      )

  require_diff_failure-outcome :
      (g : Gates) (w : W) → is_answered (require_diff_failure world g w).outcome ≡ false
  unfolding require_diff_failure
  require_diff_failure-outcome g w = ground arith

  upgrade_if_verified-stages :
      (g : Gates) (res : RunResult) (w : W)
      → is_answered res.outcome ≡ false
      → is_answered (upgrade_if_verified world reviews outcome_text res g w).0.outcome ≡ true
      → (is_empty (scope_check world g w).reason ≡ true)
        × (is_empty (fence_check world g w).reason ≡ true)
        × (is_empty g.cmd ≡ false)
        × (upgrade_if_verified world reviews outcome_text res g w
            ≡ upgrade_run world reviews outcome_text res g w)
  unfolding upgrade_if_verified
  upgrade_if_verified-stages g res w n e =
      let d = require_diff_failure-outcome g w in
      (
        ground (arith, d, n, e),
        ground (arith, d, n, e),
        ground (arith, d, n, e),
        ground (arith, d, n, e),
      )

  -- A result that was not answered and that the exit upgrades to answered: the scope and the fence are
  -- clean; there is a verification command; the command ran in some world and its output is no failure;
  -- where the tree that the run started from is known, it is not the tree before the verification, which
  -- counts as another where it could not be written; and the result names the outcome that it replaced.
  pub upgrade_if_verified-Rescued :
      (g : Gates) (res : RunResult) (w : W)
      → is_answered res.outcome ≡ false
      → is_answered (upgrade_if_verified world reviews outcome_text res g w).0.outcome ≡ true
      → (is_empty (scope_check world g w).reason ≡ true)
        × (is_empty (fence_check world g w).reason ≡ true)
        × (is_empty g.cmd ≡ false)
        × ((not (is_empty g.run_base_tree)
              && text_eq (pre_verify_tree world reviews outcome_text g w) g.run_base_tree)
            ≡ false)
        × Rescued g res (upgrade_if_verified world reviews outcome_text res g w).0
  upgrade_if_verified-Rescued g res w n e =
      let (s, f, c, q) = upgrade_if_verified-stages g res w n e in
      let (t, r) = upgrade_run-Rescued g res w n (ap (λ x. is_answered x.0.outcome) (sym q) ∙ e) in
      (s, f, c, t, subst (λ (x : RunResult × Gates × W). Rescued g res x.0) (sym q) r)
