-- ===== src/Profile/Resolve/Fields.antt =====
-- The values of a resolved profile, field by field, and the flags of a run.
use driver_os.Base.{◌≡◌, ◌↔◌, refl, arith, true, Option, none, some, Text}
use driver_os.Profile.Exec.{Exec}
use driver_os.Profile.Resolve.{Overrides, is_canonical, given, is_absent, merged}

-- A value is that of the flag where one is given, and the declared one where none is.
abbrev pub IsGiven {ℓ} : {A : Type ℓ} → Option A → A → A → Type ℓ
IsGiven {A} o d v = ((x : A) → o ≡ some x → v ≡ x) × (o ≡ none → v ≡ d)

pub given-IsGiven {ℓ} : {A : Type ℓ} → (o : Option A) (d : A) → IsGiven o d (given o d)
given-IsGiven none d = (λ x h. cc h, λ h. refl)
given-IsGiven (some y) d = (λ x h. cc h, λ h. cc h)

-- Every field but the worktree. The name and the required trust are the profile's own.
pub record IsValues (e d : Exec) (o : Overrides) (n : Exec) : Type 0 where
  pub name : n.name ≡ e.name
  pub required_trust : n.required_trust ≡ e.required_trust
  pub max_iters : IsGiven o.max_iters d.max_iters n.max_iters
  pub max_tokens : IsGiven o.max_tokens d.max_tokens n.max_tokens
  pub finish_nudge : IsGiven o.finish_nudge d.finish_nudge n.finish_nudge
  pub run_timeout : IsGiven o.run_timeout d.run_timeout n.run_timeout
  pub effort : IsGiven o.effort d.effort n.effort
  pub verify_continue : IsGiven o.verify_continue d.verify_continue n.verify_continue
  pub auto_verify : IsGiven o.auto_verify d.auto_verify n.auto_verify
  pub auto_verify_soft : IsGiven o.auto_verify_soft d.auto_verify_soft n.auto_verify_soft
  pub memory : IsGiven o.memory d.memory n.memory
  pub boot_context : IsGiven o.boot_context d.boot_context n.boot_context
  pub standing_context : IsGiven o.standing_context d.standing_context n.standing_context
  pub batch_reads : IsGiven o.batch_reads d.batch_reads n.batch_reads
  pub require_diff : IsGiven o.require_diff d.require_diff n.require_diff
  pub read_window : IsGiven o.read_window d.read_window n.read_window
  pub read_outline : IsGiven o.read_outline d.read_outline n.read_outline
  pub churn_nudge_runs : IsGiven o.churn_nudge_runs d.churn_nudge_runs n.churn_nudge_runs
  pub nav_spiral_window : IsGiven o.nav_spiral_window d.nav_spiral_window n.nav_spiral_window
  pub answer_nudge_window :
      IsGiven o.answer_nudge_window d.answer_nudge_window n.answer_nudge_window

pub merged-IsValues :
    (e d : Exec) (o : Overrides) (t : Text)
    → IsValues e d o (record (merged e d o) { worktree = t })
unfolding merged
merged-IsValues e d o t = record {
  name = refl;
  required_trust = refl;
  max_iters = given-IsGiven o.max_iters d.max_iters;
  max_tokens = given-IsGiven o.max_tokens d.max_tokens;
  finish_nudge = given-IsGiven o.finish_nudge d.finish_nudge;
  run_timeout = given-IsGiven o.run_timeout d.run_timeout;
  effort = given-IsGiven o.effort d.effort;
  verify_continue = given-IsGiven o.verify_continue d.verify_continue;
  auto_verify = given-IsGiven o.auto_verify d.auto_verify;
  auto_verify_soft = given-IsGiven o.auto_verify_soft d.auto_verify_soft;
  memory = given-IsGiven o.memory d.memory;
  boot_context = given-IsGiven o.boot_context d.boot_context;
  standing_context = given-IsGiven o.standing_context d.standing_context;
  batch_reads = given-IsGiven o.batch_reads d.batch_reads;
  require_diff = given-IsGiven o.require_diff d.require_diff;
  read_window = given-IsGiven o.read_window d.read_window;
  read_outline = given-IsGiven o.read_outline d.read_outline;
  churn_nudge_runs = given-IsGiven o.churn_nudge_runs d.churn_nudge_runs;
  nav_spiral_window = given-IsGiven o.nav_spiral_window d.nav_spiral_window;
  answer_nudge_window = given-IsGiven o.answer_nudge_window d.answer_nudge_window;
}

-- No flag is given.
pub record IsFlagless (o : Overrides) : Type 0 where
  pub max_iters : o.max_iters ≡ none
  pub max_tokens : o.max_tokens ≡ none
  pub finish_nudge : o.finish_nudge ≡ none
  pub run_timeout : o.run_timeout ≡ none
  pub effort : o.effort ≡ none
  pub verify_continue : o.verify_continue ≡ none
  pub auto_verify : o.auto_verify ≡ none
  pub auto_verify_soft : o.auto_verify_soft ≡ none
  pub memory : o.memory ≡ none
  pub boot_context : o.boot_context ≡ none
  pub standing_context : o.standing_context ≡ none
  pub batch_reads : o.batch_reads ≡ none
  pub require_diff : o.require_diff ≡ none
  pub read_window : o.read_window ≡ none
  pub read_outline : o.read_outline ≡ none
  pub churn_nudge_runs : o.churn_nudge_runs ≡ none
  pub nav_spiral_window : o.nav_spiral_window ≡ none
  pub answer_nudge_window : o.answer_nudge_window ≡ none
  pub worktree : o.worktree ≡ none

absent-none {ℓ} : {A : Type ℓ} → (o : Option A) → is_absent o ≡ true → o ≡ none
absent-none none h = refl
absent-none (some x) h = cc h

pub is_canonical-IsFlagless : (o : Overrides) → (is_canonical o ≡ true) ↔ IsFlagless o
unfolding is_canonical
is_canonical-IsFlagless o = (
  λ h. record {
    max_iters = absent-none o.max_iters (ground (arith, h));
    max_tokens = absent-none o.max_tokens (ground (arith, h));
    finish_nudge = absent-none o.finish_nudge (ground (arith, h));
    run_timeout = absent-none o.run_timeout (ground (arith, h));
    effort = absent-none o.effort (ground (arith, h));
    verify_continue = absent-none o.verify_continue (ground (arith, h));
    auto_verify = absent-none o.auto_verify (ground (arith, h));
    auto_verify_soft = absent-none o.auto_verify_soft (ground (arith, h));
    memory = absent-none o.memory (ground (arith, h));
    boot_context = absent-none o.boot_context (ground (arith, h));
    standing_context = absent-none o.standing_context (ground (arith, h));
    batch_reads = absent-none o.batch_reads (ground (arith, h));
    require_diff = absent-none o.require_diff (ground (arith, h));
    read_window = absent-none o.read_window (ground (arith, h));
    read_outline = absent-none o.read_outline (ground (arith, h));
    churn_nudge_runs = absent-none o.churn_nudge_runs (ground (arith, h));
    nav_spiral_window = absent-none o.nav_spiral_window (ground (arith, h));
    answer_nudge_window = absent-none o.answer_nudge_window (ground (arith, h));
    worktree = absent-none o.worktree (ground (arith, h));
  },
  λ x.
      rw
        (
          x.max_iters, x.max_tokens, x.finish_nudge, x.run_timeout, x.effort, x.verify_continue,
          x.auto_verify, x.auto_verify_soft, x.memory, x.boot_context, x.standing_context,
          x.batch_reads, x.require_diff, x.read_window, x.read_outline, x.churn_nudge_runs,
          x.nav_spiral_window, x.answer_nudge_window, x.worktree,
        )
        refl,
)
