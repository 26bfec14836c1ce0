-- ===== src/Agent/Tracker/Nudges.antt =====
-- The nudges of the tracker over any sequence of its operations.
use driver_os.Base.{
  ℕ, suc, ◌+◌, ◌≤◌, ◌≡◌, arith, Bool, true, false, List, [], ◌∷◌, Option, Text, if◌then◌else◌,
}
use driver_os.Agent.Observation.Fingerprint.{run_fingerprint}
use driver_os.Agent.Tracker.{
  TurnTracker, read_run, track_stagnant, track_green, observe_run, record_run,
  observe_tool_observation, observe_action, churn_nudge, diagnostics, finish_nudge,
  green_repeat_nudge, feed, diagnose_source, DiagState, diag_unknown, diag_clean, diag_dirty,
}

-- The operations of the tracker, with their inputs.
pub data Op : Type 0 where
  run_seen : Text → Op
  recorded : Text → Text → Text → Op
  tool_seen : Text → Op
  acted : ℕ → Text → Op
  churn : Op
  diagnosed : (Text → Option Text) → Op
  finish : ℕ → Op
  green : Op

-- Which nudge an operation fired.
pub data Fired : Type 0 where
  nothing churned finished greened : Fired

abbrev fired_if : Bool → Fired → Fired
fired_if b f = if b then f else nothing

unfoldable pub apply : (ℕ → Text) → TurnTracker → Op → TurnTracker × Fired
apply show t (run_seen obs) = ((observe_run t obs).0, nothing)
apply show t (recorded cmd obs tree) = (record_run show t cmd obs tree, nothing)
apply show t (tool_seen fp) = ((observe_tool_observation t fp).0, nothing)
apply show t (acted i verb) = ((observe_action t i verb).0, nothing)
apply show t churn = let (t', b) = churn_nudge t in (t', fired_if b churned)
apply show t (diagnosed run) = ((diagnostics t run).0, nothing)
apply show t (finish i) = let (t', b) = finish_nudge t i in (t', fired_if b finished)
apply show t green = let (t', b) = green_repeat_nudge t in (t', fired_if b greened)

-- The tracker behind operations in order, and what each fired.
unfoldable pub run_ops : (ℕ → Text) → TurnTracker → List Op → TurnTracker × List Fired
run_ops show t [] = (t, [])
run_ops show t (o ∷ os) =
    let (t', f) = apply show t o in let (t'', fs) = run_ops show t' os in (t'', f ∷ fs)

abbrev pub is_churned : Fired → Bool
is_churned churned = true
is_churned _ = false

abbrev pub is_finished : Fired → Bool
is_finished finished = true
is_finished _ = false

abbrev pub is_greened : Fired → Bool
is_greened greened = true
is_greened _ = false

pub count : (Fired → Bool) → List Fired → ℕ
count p [] = 0
count p (f ∷ fs) = let rest = count p fs in if p f then suc rest else rest

-- The latches behind an operation, where the nudges fired so far are counted in.
abbrev pub bit : Bool → ℕ
bit b = if b then 1 else 0

record Latched (t u : TurnTracker) (f : Fired) : Type 0 where
  churn_latch : bit (is_churned f) + bit t.nudged ≤ bit u.nudged
  finish_latch : bit (is_finished f) + bit t.finish_nudged ≤ bit u.finish_nudged
  green_latch : bit (is_greened f) + bit t.green_nudged ≤ bit u.green_nudged

record SameLatches (t u : TurnTracker) : Type 0 where
  same_churn : u.nudged ≡ t.nudged
  same_finish : u.finish_nudged ≡ t.finish_nudged
  same_green : u.green_nudged ≡ t.green_nudged

read_run-SameLatches : (t : TurnTracker) (o : Text) → SameLatches t (read_run t o)
unfolding read_run
read_run-SameLatches t o = ground arith

track_stagnant-SameLatches : (t : TurnTracker) (fp : Text) → SameLatches t (track_stagnant t fp)
unfolding track_stagnant
track_stagnant-SameLatches t fp = ground arith

track_green-SameLatches : (t : TurnTracker) (fp : Text) → SameLatches t (track_green t fp)
unfolding track_green
track_green-SameLatches t fp = ground arith

feed-SameLatches : (t : TurnTracker) (r : Text × DiagState) → SameLatches t (feed t r).0
unfolding feed
feed-SameLatches t (report, diag_unknown) = ground arith
feed-SameLatches t (report, diag_clean) = ground arith
feed-SameLatches t (report, diag_dirty) = ground arith

observe_run-SameLatches : (t : TurnTracker) (o : Text) → SameLatches t (observe_run t o).0
unfolding observe_run
observe_run-SameLatches t o =
    let fp = run_fingerprint o in
    let u = read_run t o in
    let v = if u.last_run_failed then record u { fail_runs = u.fail_runs + 1 } else u in
    ground (
      arith,
      read_run-SameLatches t o,
      track_stagnant-SameLatches v fp,
      track_green-SameLatches (track_stagnant v fp) fp,
    )

apply-Latched :
    (show : ℕ → Text) (t : TurnTracker) (o : Op) → Latched t (apply show t o).0 (apply show t o).1
unfolding apply
apply-Latched show t (run_seen obs) = ground (arith, observe_run-SameLatches t obs)
apply-Latched show t (recorded cmd obs tree) = unfold record_run in ground arith
apply-Latched show t (tool_seen fp) = unfold observe_tool_observation in ground arith
apply-Latched show t (acted i verb) = unfold observe_action in ground arith
apply-Latched show t churn = unfold churn_nudge in ground arith
apply-Latched show t (diagnosed run) =
    unfold diagnostics in
    ground (arith, feed-SameLatches t (diagnose_source t.deps.diagnose_cmd run))
apply-Latched show t (finish i) = unfold finish_nudge in ground arith
apply-Latched show t green = unfold green_repeat_nudge in ground arith

run_ops-Latched :
    (show : ℕ → Text) (t : TurnTracker) (os : List Op)
    → (count is_churned (run_ops show t os).1 + bit t.nudged ≤ bit (run_ops show t os).0.nudged)
      × (count is_finished (run_ops show t os).1 + bit t.finish_nudged
          ≤ bit (run_ops show t os).0.finish_nudged)
      × (count is_greened (run_ops show t os).1 + bit t.green_nudged
          ≤ bit (run_ops show t os).0.green_nudged)
unfolding run_ops count
run_ops-Latched show t [] = omega arith
run_ops-Latched show t (o ∷ os) =
    ground (arith, apply-Latched show t o, run_ops-Latched show (apply show t o).0 os)

bit-le : (b : Bool) → bit b ≤ 1
bit-le b = ground arith

-- Whatever operations run in whatever order, from whatever tracker, each of the three nudges fires
-- at most once, and not at all where it has fired before.
pub nudges_once :
    (show : ℕ → Text) (t : TurnTracker) (os : List Op)
    → (count is_churned (run_ops show t os).1 + bit t.nudged ≤ 1)
      × (count is_finished (run_ops show t os).1 + bit t.finish_nudged ≤ 1)
      × (count is_greened (run_ops show t os).1 + bit t.green_nudged ≤ 1)
nudges_once show t os =
    let (a, b, c) = run_ops-Latched show t os in
    let u = (run_ops show t os).0 in
    (
      omega (arith, a, bit-le u.nudged),
      omega (arith, b, bit-le u.finish_nudged),
      omega (arith, c, bit-le u.green_nudged),
    )
