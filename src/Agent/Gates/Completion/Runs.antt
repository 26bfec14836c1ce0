-- ===== src/Agent/Gates/Completion/Runs.antt =====
-- What a run of the verification command leaves.

use driver_os.Base.{
  ◌≡◌, refl, sym, ap, ◌∙◌, arith, true, false, Option, none, some, Text, if◌then◌else◌,
}
use driver_os.Agent.Gates.{World, Gates, Run, skipped, output, finished_run, verify_run}

module _ {ℓ} {W : Type ℓ} (world : World W) where
  -- The command of these gates ran in some world and gave this output.
  pub record Ran (g : Gates) (out : Text) : Type ℓ where
    pub from : W
    pub to : W
    pub ran : world.run_command g.cmd from ≡ (some out, to)

  -- The gates of a result have the command and the mode of those before.
  pub record Same (g h : Gates) : Type 0 where
    pub cmd : h.cmd ≡ g.cmd
    pub soft : h.auto_verify_soft ≡ g.auto_verify_soft

  pub record RunOf (g : Gates) (x : Run × Gates × W) : Type ℓ where
    pub same : Same g x.1
    pub of : (out : Text) → x.0 ≡ output out → Ran g out

  finished_run-RunOf :
      (g : Gates) (w : W) (x : Option Text × W)
      → world.run_command g.cmd w ≡ x
      → RunOf g (finished_run world g x)
  unfolding finished_run
  finished_run-RunOf g w (none, v) e = record {
    same = record { cmd = refl; soft = refl };
    of = λ out q. ground arith;
  }
  finished_run-RunOf g w (some out, v) e = record {
    same = record { cmd = refl; soft = refl };
    of = λ o q. record { from = w; to = v; ran = ground (arith, e, q) };
  }

  pub verify_run-RunOf : (g : Gates) (w : W) → RunOf g (verify_run world g w)
  unfolding verify_run
  verify_run-RunOf g w =
      elim (world.canceled w)
        as (λ b.
          RunOf g
            (if b then (skipped, g, w) else finished_run world g (world.run_command g.cmd w))) [
              | true ↦ record {
                same = record { cmd = refl; soft = refl };
                of = λ out q. ground arith;
              }
              | false ↦ finished_run-RunOf g w (world.run_command g.cmd w) refl
            ]

  pub Same-trans : (g h k : Gates) → Same g h → Same h k → Same g k
  Same-trans g h k s t = record { cmd = t.cmd ∙ s.cmd; soft = t.soft ∙ s.soft }

  pub Ran-Same : (g h : Gates) (out : Text) → Same g h → Ran h out → Ran g out
  Ran-Same g h out s r = record {
    from = r.from;
    to = r.to;
    ran = ap (λ c. world.run_command c r.from) (sym s.cmd) ∙ r.ran;
  }

  pub RunOf-Same : (g h : Gates) (x : Run × Gates × W) → Same g h → RunOf h x → RunOf g x
  RunOf-Same g h x s t = record {
    same = Same-trans g h x.1 s t.same;
    of = λ out e. Ran-Same g h out s (t.of out e);
  }
