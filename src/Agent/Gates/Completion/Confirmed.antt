-- ===== src/Agent/Gates/Completion/Confirmed.antt =====
-- A clean completion under a verification command rests on a run of it, or on an untouched tree.
use mathlib.Core.Path.{subst}
use driver_os.Base.{
  ◌≡◌, ◌⊎◌, inl, inr, refl, sym, ap, ◌∙◌, arith, Bool, true, false, not, ◌&&◌, ◌++◌, some, Text,
  codes, if◌then◌else◌, is_empty, Bool-cases,
}
use driver_os.Agent.Observation.{is_run_failure, is_run_timeout, is_infra_fault}
use driver_os.Agent.Tracker.{new_verification_record}
use driver_os.Agent.Gates.{
  World, Gates, Verdict, clean_verdict, Run, skipped, errored, output, verify_run,
  capture_closing_verification, tree_or_empty,
}
use driver_os.Agent.Gates.Completion.Runs.{Ran, Same, RunOf, verify_run-RunOf, Same-trans, Ran-Same}
use driver_os.Agent.Gates.Completion.{
  baseline_failure, hard_failure, verify_completion_failure, named, reason_of, concluded, retried,
  first_run, verify_termination, settled, verified, unchanged_completion, knows_baseline,
  verify_completion,
}

-- Without the soft gate a failure with a reason stays a failure.
hard_failure-reason :
    (g : Gates) (reason out : Text)
    → is_empty reason ≡ false
    → is_empty (hard_failure g reason out).0.reason ≡ false
unfolding hard_failure baseline_failure
hard_failure-reason g reason out h = ground arith

verify_completion_failure-clean :
    (g : Gates) (reason out : Text)
    → g.auto_verify_soft ≡ false
    → is_empty (verify_completion_failure g reason out).0.reason ≡ true
    → is_empty reason ≡ true
unfolding verify_completion_failure
verify_completion_failure-clean g reason out s h =
    ground (arith, Bool-cases (is_empty reason), hard_failure-reason g reason out)

module _ {ℓ} {W : Type ℓ} (world : World W) where
  -- An empty reason comes with an output that is no failure, of a run of the command.
  pub record Sound (g : Gates) (x : (Text × Text) × Gates × W) : Type ℓ where
    same : Same world g x.1
    pub confirms : is_empty x.0.0 ≡ true → Ran world g x.0.1 × (is_run_failure x.0.1 ≡ false)

  reason_of-failure :
      (g : Gates) (out : Text)
      → is_empty (reason_of world g out) ≡ true
      → is_run_failure out ≡ false
  unfolding reason_of
  reason_of-failure g out h = ground arith

  concluded-Sound :
      (g h : Gates) (out : Text) (w : W)
      → Same world g h
      → Ran world g out
      → Sound g (concluded world out h w)
  unfolding concluded
  concluded-Sound g h out w s r = record {
    same = s;
    confirms = λ e. (r, reason_of-failure h out e);
  }

  retried-Sound :
      (g h : Gates) (out : Text) (x : Run × Gates × W)
      → Same world g h
      → RunOf world h x
      → Ran world g out
      → Sound g (retried world out x)
  unfolding retried
  retried-Sound g h out (output o, k, w) s t r =
      concluded-Sound g k o w (Same-trans world g h k s t.same)
        (Ran-Same world g h o s (t.of o refl))
  retried-Sound g h out (skipped, k, w) s t r =
      concluded-Sound g k out w (Same-trans world g h k s t.same) r
  retried-Sound g h out (errored, k, w) s t r =
      concluded-Sound g k out w (Same-trans world g h k s t.same) r

  first_run-Sound :
      (g : Gates) (x : Run × Gates × W) → RunOf world g x → Sound g (first_run world x)
  unfolding first_run
  first_run-Sound g (skipped, h, w) t = record { same = t.same; confirms = λ e. ground arith }
  first_run-Sound g (errored, h, w) t = record { same = t.same; confirms = λ e. ground arith }
  first_run-Sound g (output out, h, w) t =
      elim (is_run_failure out && not (is_run_timeout out) && is_infra_fault out)
        as (λ b.
          Sound g
            (if b then retried world out (verify_run world h w) else concluded world out h w)) [
              | true ↦
                  retried-Sound g h out (verify_run world h w) t.same (verify_run-RunOf world h w)
                    (t.of out refl)
              | false ↦ concluded-Sound g h out w t.same (t.of out refl)
            ]

  pub verify_termination-first_run :
      (g : Gates) (last : Bool) (w : W)
      → is_empty g.cmd ≡ false
      → verify_termination world g last w ≡ first_run world (verify_run world g w)
  unfolding verify_termination
  verify_termination-first_run g last w c = ground (arith, c)

  pub verify_termination-Sound :
      (g : Gates) (last : Bool) (w : W)
      → is_empty g.cmd ≡ false
      → Sound g (verify_termination world g last w)
  verify_termination-Sound g last w c =
      subst (Sound g) (sym (verify_termination-first_run g last w c))
        (first_run-Sound g (verify_run world g w) (verify_run-RunOf world g w))

  -- What a clean end needs of the reason, and what it then leaves.
  settled-reason :
      (g : Gates) (tree reason out : Text) (w : W)
      → g.auto_verify_soft ≡ false
      → is_empty (settled world tree ((reason, out), g, w)).0.reason ≡ true
      → is_empty reason ≡ true
  unfolding settled
  settled-reason g tree reason out w s e = elim (Bool-cases (is_empty reason)) [
    | inl y ↦ y
    | inr n ↦ verify_completion_failure-clean g reason out s (ground (arith, n, e))
  ]

  settled-clean :
      (g : Gates) (tree reason out : Text) (w : W)
      → is_empty g.cmd ≡ false
      → is_empty reason ≡ true
      → settled world tree ((reason, out), g, w)
        ≡ (clean_verdict, capture_closing_verification world g out tree, w)
  unfolding settled verify_completion_failure
  settled-clean g tree reason out w c e = ground (arith, c, e)

  captured :
      (g : Gates) (out tree : Text)
      → (capture_closing_verification world g out tree).closing_verification
        ≡ some (new_verification_record world.show g.cmd out tree)
  unfolding capture_closing_verification
  captured g out tree = refl

  -- The command ran and passed, and its record stands in the gates.
  pub record Confirmed (g h : Gates) (tree : Text) : Type ℓ where
    out : Text
    ran : Ran world g out
    passed : is_run_failure out ≡ false
    recorded : h.closing_verification ≡ some (new_verification_record world.show g.cmd out tree)

  settled-Confirmed :
      (g : Gates) (tree : Text) (x : (Text × Text) × Gates × W)
      → is_empty g.cmd ≡ false
      → g.auto_verify_soft ≡ false
      → Sound g x
      → is_empty (settled world tree x).0.reason ≡ true
      → Confirmed g (settled world tree x).1 tree
  settled-Confirmed g tree ((reason, out), h, w) c s t e =
      let r = settled-reason h tree reason out w (t.same.soft ∙ s) e in
      let q = settled-clean h tree reason out w (ap is_empty t.same.cmd ∙ c) r in
      record {
        out = out;
        ran = (t.confirms r).0;
        passed = (t.confirms r).1;
        recorded =
            ap (λ (x : Verdict × Gates × W). x.1.closing_verification) q
            ∙ captured h out tree
            ∙ ap (λ k. some (new_verification_record world.show k out tree)) t.same.cmd;
      }

  unchanged_completion-green :
      (g : Gates) (w : W)
      → g.auto_verify_soft ≡ false
      → is_empty (unchanged_completion world g w).0.reason ≡ true
      → g.verify_baseline_red ≡ false
  unfolding unchanged_completion
  unchanged_completion-green g w s e = elim (Bool-cases g.verify_baseline_red) [
    | inr n ↦ n
    | inl y ↦ ground (
      arith,
      verify_completion_failure-clean g
          (named world g ++ codes " did not pass:\n" ++ g.verify_baseline_out) g.verify_baseline_out
          s (ground (arith, e, s, y)),
    )
  ]

  verify_completion-known :
      (g : Gates) (last : Bool) (w : W)
      → knows_baseline world g w ≡ true
      → is_empty (verify_completion world g last w).0.reason ≡ true
      → verify_completion world g last w ≡ unchanged_completion world g w
  unfolding verify_completion
  verify_completion-known g last w k e = ground (arith, k, e)

  verify_completion-verified :
      (g : Gates) (last : Bool) (w : W)
      → knows_baseline world g w ≡ false
      → is_empty (verify_completion world g last w).0.reason ≡ true
      → verify_completion world g last w ≡ verified world g last w
  unfolding verify_completion
  verify_completion-verified g last w k e = ground (arith, k, e)

  verified-Confirmed :
      (g : Gates) (last : Bool) (w : W)
      → is_empty g.cmd ≡ false
      → g.auto_verify_soft ≡ false
      → is_empty (verified world g last w).0.reason ≡ true
      → Confirmed g (verified world g last w).1 (tree_or_empty (world.write_tree w))
  unfolding verified
  verified-Confirmed g last w c s e =
      settled-Confirmed g (tree_or_empty (world.write_tree w)) (verify_termination world g last w) c
        s (verify_termination-Sound g last w c) e

  -- Under an authoritative verification command a clean completion means one of two things: the tree
  -- is the one that the run started from and the baseline was green on it, or the command ran, its
  -- output is no failure, and this output is the closing record, with the tree from before the run.
  pub verify_completion-Confirmed :
      (g : Gates) (last : Bool) (w : W)
      → is_empty g.cmd ≡ false
      → g.auto_verify_soft ≡ false
      → is_empty (verify_completion world g last w).0.reason ≡ true
      → ((knows_baseline world g w ≡ true) × (g.verify_baseline_red ≡ false))
        ⊎ Confirmed g (verify_completion world g last w).1 (tree_or_empty (world.write_tree w))
  verify_completion-Confirmed g last w c s e = elim (Bool-cases (knows_baseline world g w)) [
    | inl k ↦ inl (
      k,
      unchanged_completion-green g w s
          (ap (λ x. is_empty x.0.reason) (sym (verify_completion-known g last w k e)) ∙ e),
    )
    | inr k ↦
        let q = verify_completion-verified g last w k e in
        inr (
          subst (λ (x : Verdict × Gates × W). Confirmed g x.1 (tree_or_empty (world.write_tree w)))
            (sym q) (verified-Confirmed g last w c s (ap (λ x. is_empty x.0.reason) (sym q) ∙ e)))
  ]
