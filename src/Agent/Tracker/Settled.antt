-- ===== src/Agent/Tracker/Settled.antt =====
-- The near-cap finisher fires in a settled world only: the tracker against the trace of operations.
use driver_os.Base.{
  ℕ, ◌+◌, ◌≤◌, ◌<◌, ◌≡◌, arith, Bool, true, false, ◌||◌, List, [], ◌∷◌, Text, codes, if◌then◌else◌,
  text_eq,
}
use driver_os.Agent.Observation.Fingerprint.{run_fingerprint}
use driver_os.Agent.Observation.{is_run_success}
use driver_os.Agent.Policy.{TerminationPolicy}
use driver_os.Agent.Tracker.{
  TrackerDeps, TurnTracker, new_turn_tracker, read_run, track_stagnant, track_green, observe_run,
  record_run, observe_tool_observation, observe_action, churn_nudge, diagnostics, finish_nudge,
  green_repeat_nudge, feed, diagnose_source, DiagState, diag_unknown, diag_clean, diag_dirty,
}
use driver_os.Agent.Tracker.Nudges.{
  Op, run_seen, recorded, tool_seen, acted, churn, diagnosed, finish, green, apply, run_ops,
}

abbrev pub is_mutation : Text → Bool
is_mutation verb = text_eq verb (codes "write_file") || text_eq verb (codes "edit_file")

-- The iteration of the last mutation in a trace, and whether the last run of it was green.
abbrev pub edit_iter : ℕ → Op → ℕ
edit_iter j (acted i verb) = if is_mutation verb then i else j
edit_iter j _ = j

abbrev pub green_run : Bool → Op → Bool
green_run g (run_seen obs) = is_run_success obs
green_run g _ = g

pub last_edit : ℕ → List Op → ℕ
last_edit j [] = j
last_edit j (o ∷ os) = last_edit (edit_iter j o) os

pub last_green : Bool → List Op → Bool
last_green g [] = g
last_green g (o ∷ os) = last_green (green_run g o) os

-- What the finisher reads of a tracker.
record Reads (t : TurnTracker) (edit : ℕ) (passed : Bool) (deps : TrackerDeps) (max_iter : ℕ)
    : Type 0 where
  edit_is : t.last_edit_iter ≡ edit
  passed_is : t.last_run_passed ≡ passed
  deps_is : t.deps ≡ deps
  max_is : t.max_iter ≡ max_iter

abbrev Keeps : TurnTracker → TurnTracker → Type 0
Keeps t u = Reads u t.last_edit_iter t.last_run_passed t.deps t.max_iter

read_run-Reads :
    (t : TurnTracker) (o : Text)
    → Reads (read_run t o) t.last_edit_iter (is_run_success o) t.deps t.max_iter
unfolding read_run
read_run-Reads t o = ground arith

track_stagnant-Keeps : (t : TurnTracker) (fp : Text) → Keeps t (track_stagnant t fp)
unfolding track_stagnant
track_stagnant-Keeps t fp = ground arith

track_green-Keeps : (t : TurnTracker) (fp : Text) → Keeps t (track_green t fp)
unfolding track_green
track_green-Keeps t fp = ground arith

feed-Keeps : (t : TurnTracker) (r : Text × DiagState) → Keeps t (feed t r).0
unfolding feed
feed-Keeps t (report, diag_unknown) = ground arith
feed-Keeps t (report, diag_clean) = ground arith
feed-Keeps t (report, diag_dirty) = ground arith

observe_run-Reads :
    (t : TurnTracker) (o : Text)
    → Reads (observe_run t o).0 t.last_edit_iter (is_run_success o) t.deps t.max_iter
unfolding observe_run
observe_run-Reads t o =
    let fp = run_fingerprint o in
    let u = read_run t o in
    let v = if u.last_run_failed then record u { fail_runs = u.fail_runs + 1 } else u in
    ground (
      arith,
      read_run-Reads t o,
      track_stagnant-Keeps v fp,
      track_green-Keeps (track_stagnant v fp) fp,
    )

apply-Reads :
    (show : ℕ → Text) (t : TurnTracker) (o : Op)
    → Reads
        (apply show t o).0
        (edit_iter t.last_edit_iter o)
        (green_run t.last_run_passed o)
        t.deps
        t.max_iter
unfolding apply
apply-Reads show t (run_seen obs) = ground (arith, observe_run-Reads t obs)
apply-Reads show t (recorded cmd obs tree) = unfold record_run in ground arith
apply-Reads show t (tool_seen fp) = unfold observe_tool_observation in ground arith
apply-Reads show t (acted i verb) = unfold observe_action in ground arith
apply-Reads show t churn = unfold churn_nudge in ground arith
apply-Reads show t (diagnosed run) =
    unfold diagnostics in ground (arith, feed-Keeps t (diagnose_source t.deps.diagnose_cmd run))
apply-Reads show t (finish i) = unfold finish_nudge in ground arith
apply-Reads show t green = unfold green_repeat_nudge in ground arith

run_ops-Reads :
    (show : ℕ → Text) (os : List Op) (t : TurnTracker)
    → Reads
        (run_ops show t os).0
        (last_edit t.last_edit_iter os)
        (last_green t.last_run_passed os)
        t.deps
        t.max_iter
unfolding run_ops last_edit last_green
run_ops-Reads show [] t = ground arith
run_ops-Reads show (o ∷ os) t =
    ground (arith, apply-Reads show t o, run_ops-Reads show os (apply show t o).0)

finish_nudge_fires :
    (t : TurnTracker) (i : ℕ)
    → (finish_nudge t i).1 ≡ true
    → (i < t.max_iter)
      × (t.max_iter ≤ i + t.deps.finish_nudge_window)
      × (t.last_run_passed ≡ true)
      × (t.last_edit_iter + t.deps.finish_nudge_window ≤ i)
unfolding finish_nudge
finish_nudge_fires t i h = ground arith

module _ (show : ℕ → Text) (deps : TrackerDeps) (max_iter : ℕ) (policy : TerminationPolicy) where
  abbrev pub after_ops : List Op → TurnTracker
  after_ops os = (run_ops show (new_turn_tracker deps max_iter policy) os).0

  -- Where the finisher fires at iteration `i`, behind any operations: another turn is left, the budget
  -- is within the window, the last `run` of the trace was green, and no file was mutated within the
  -- window.
  pub finish_nudge-settled :
      (os : List Op) (i : ℕ)
      → (finish_nudge (after_ops os) i).1 ≡ true
      → (i < max_iter)
        × (max_iter ≤ i + deps.finish_nudge_window)
        × (last_green false os ≡ true)
        × (last_edit 0 os + deps.finish_nudge_window ≤ i)
  unfolding new_turn_tracker
  finish_nudge-settled os i h = ground (
    arith,
    finish_nudge_fires (after_ops os) i h,
    run_ops-Reads show os (new_turn_tracker deps max_iter policy),
  )
