-- ===== src/Profile/Resolve.antt =====
-- profile/resolve.go: a profile, the explicit flags and the trust posture become one set of values with
-- a trace of where each came from. An absent flag is none.
pub mod Fields
pub mod Merged
mod Tests
use driver_os.Base.{
  ℤ, Bool, true, false, not, ◌&&◌, List, [], ◌∷◌, ◌++◌, Option, none, some, Text, codes,
  if◌then◌else◌, text_eq,
}
use driver_os.Profile.Posture.{
  Worktree, worktree_auto, worktree_required, worktree_satisfies, Posture,
}
use driver_os.Profile.Exec.{
  Exec, Stance, default, demand, declared, worktree_stance, ExecError, require_trust,
}

pub record TrustPosture : Type 0 where
  pub selected : Text
  pub posture : Posture

pub record Overrides : Type 0 where
  pub max_iters : Option ℤ
  pub max_tokens : Option ℤ
  pub finish_nudge : Option ℤ
  pub run_timeout : Option ℤ
  pub effort : Option Text
  pub worktree : Option Text
  pub verify_continue : Option Bool
  pub auto_verify : Option Bool
  pub auto_verify_soft : Option Bool
  pub memory : Option Bool
  pub boot_context : Option Bool
  pub standing_context : Option Bool
  pub batch_reads : Option Bool
  pub require_diff : Option Bool
  pub read_window : Option ℤ
  pub read_outline : Option Bool
  pub churn_nudge_runs : Option ℤ
  pub nav_spiral_window : Option ℤ
  pub answer_nudge_window : Option ℤ

pub data Source : Type 0 where
  profile cli trust : Source

-- What a trace entry holds.
pub data Setting : Type 0 where
  int : ℤ → Setting
  flag : Bool → Setting
  text : Text → Setting

pub record TraceEntry : Type 0 where
  pub field : Text
  pub value : Setting
  pub source : Source

pub record Trace : Type 0 where
  pub fields : List TraceEntry
  pub canonical : Bool
  pub selected_trust : Text
  pub required_trust : Text

-- The flag where it is given, else what is declared.
abbrev pub given {ℓ} : {A : Type ℓ} → Option A → A → A
given none d = d
given (some x) d = x

abbrev pub is_absent {ℓ} : {A : Type ℓ} → Option A → Bool
is_absent none = true
is_absent (some x) = false

abbrev source_of {ℓ} : {A : Type ℓ} → Option A → Source
source_of none = profile
source_of (some x) = cli

abbrev entry {ℓ} : {A : Type ℓ} → Text → (A → Setting) → Option A → A → TraceEntry
entry f as_setting o d = record { field = f; value = as_setting (given o d); source = source_of o }

-- The loop over ProfileFields, on the values. The name and the required trust are the profile's.
unfoldable pub merged : Exec → Exec → Overrides → Exec
merged e d o = record {
  name = e.name;
  required_trust = e.required_trust;
  max_iters = given o.max_iters d.max_iters;
  max_tokens = given o.max_tokens d.max_tokens;
  finish_nudge = given o.finish_nudge d.finish_nudge;
  run_timeout = given o.run_timeout d.run_timeout;
  effort = given o.effort d.effort;
  worktree = given o.worktree d.worktree;
  verify_continue = given o.verify_continue d.verify_continue;
  auto_verify = given o.auto_verify d.auto_verify;
  memory = given o.memory d.memory;
  boot_context = given o.boot_context d.boot_context;
  standing_context = given o.standing_context d.standing_context;
  batch_reads = given o.batch_reads d.batch_reads;
  auto_verify_soft = given o.auto_verify_soft d.auto_verify_soft;
  require_diff = given o.require_diff d.require_diff;
  read_window = given o.read_window d.read_window;
  read_outline = given o.read_outline d.read_outline;
  churn_nudge_runs = given o.churn_nudge_runs d.churn_nudge_runs;
  nav_spiral_window = given o.nav_spiral_window d.nav_spiral_window;
  answer_nudge_window = given o.answer_nudge_window d.answer_nudge_window;
}

-- No flag is given: the trace stays canonical.
unfoldable pub is_canonical : Overrides → Bool
is_canonical o =
    is_absent o.max_iters
    && is_absent o.max_tokens
    && is_absent o.finish_nudge
    && is_absent o.run_timeout
    && is_absent o.effort
    && is_absent o.worktree
    && is_absent o.verify_continue
    && is_absent o.auto_verify
    && is_absent o.auto_verify_soft
    && is_absent o.memory
    && is_absent o.boot_context
    && is_absent o.standing_context
    && is_absent o.batch_reads
    && is_absent o.require_diff
    && is_absent o.read_window
    && is_absent o.read_outline
    && is_absent o.churn_nudge_runs
    && is_absent o.nav_spiral_window
    && is_absent o.answer_nudge_window

-- The loop over ProfileFields, on the trace. The map is a list in the order of the fields.
unfoldable pub traced : Exec → Overrides → List TraceEntry
traced d o =
    entry (codes "max_iters") int o.max_iters d.max_iters
    ∷ entry (codes "max_tokens") int o.max_tokens d.max_tokens
    ∷ entry (codes "finish_nudge") int o.finish_nudge d.finish_nudge
    ∷ entry (codes "run_timeout") int o.run_timeout d.run_timeout
    ∷ entry (codes "effort") text o.effort d.effort
    ∷ entry (codes "worktree") text o.worktree d.worktree
    ∷ entry (codes "verify_continue") flag o.verify_continue d.verify_continue
    ∷ entry (codes "auto_verify") flag o.auto_verify d.auto_verify
    ∷ entry (codes "auto_verify_soft") flag o.auto_verify_soft d.auto_verify_soft
    ∷ entry (codes "memory") flag o.memory d.memory
    ∷ entry (codes "boot_context") flag o.boot_context d.boot_context
    ∷ entry (codes "standing_context") flag o.standing_context d.standing_context
    ∷ entry (codes "batch_reads") flag o.batch_reads d.batch_reads
    ∷ entry (codes "require_diff") flag o.require_diff d.require_diff
    ∷ entry (codes "read_window") int o.read_window d.read_window
    ∷ entry (codes "read_outline") flag o.read_outline d.read_outline
    ∷ entry (codes "churn_nudge_runs") int o.churn_nudge_runs d.churn_nudge_runs
    ∷ entry (codes "nav_spiral_window") int o.nav_spiral_window d.nav_spiral_window
    ∷ entry (codes "answer_nudge_window") int o.answer_nudge_window d.answer_nudge_window
    ∷ []

unfoldable pub worktree_of : Text → Worktree
worktree_of s = if text_eq s (codes "required") then worktree_required else worktree_auto

-- `m[k] = v` on a key that is there.
unfoldable pub put_entry : TraceEntry → List TraceEntry → List TraceEntry
put_entry x [] = []
put_entry x (y ∷ ys) = (if text_eq x.field y.field then x else y) ∷ put_entry x ys

pub data ResolveError : Type 0 where
  trust_error : ExecError → ResolveError
  cli_conflict : Text → ResolveError
  demand_conflict : Text → ResolveError

pub data Resolved : Type 0 where
  resolved : Exec → Trace → Resolved
  refused : ResolveError → Resolved

-- The worktree is below the floor: a flag or a demand is an error, and a default is raised.
unfoldable pub raised : Option Text → Stance → Exec → Trace → Resolved
raised (some w) stance n tr = refused (cli_conflict n.worktree)
raised none demand n tr = refused (demand_conflict n.worktree)
raised none default n tr =
    resolved (record n { worktree = codes "required" })
      (record tr {
        fields =
            put_entry
              (record { field = codes "worktree"; value = text (codes "required"); source = trust })
              tr.fields;
      })

unfoldable pub with_floor : Worktree → Option Text → Stance → Exec → Trace → Resolved
unfolding raised worktree_of
with_floor floor given_tree stance n tr =
    if not (worktree_satisfies (worktree_of n.worktree) floor)
    then raised given_tree stance n tr
    else resolved n tr

-- What RequireTrust gave: nothing, or an error.
unfoldable pub checked : TrustPosture → Exec → Overrides → Option ExecError → Resolved
unfolding merged traced is_canonical with_floor
checked post e o (some err) = refused (trust_error err)
checked post e o none =
    let d = declared e in
    with_floor post.posture.worktree o.worktree (worktree_stance e) (merged e d o) (record {
      fields = traced d o;
      canonical = is_canonical o;
      selected_trust = post.selected;
      required_trust = e.required_trust;
    })

unfoldable pub resolve : TrustPosture → Exec → Overrides → Resolved
unfolding checked
resolve post e o = checked post e o (require_trust e post.selected)
