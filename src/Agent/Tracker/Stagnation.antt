-- ===== src/Agent/Tracker/Stagnation.antt =====
-- The stagnation detector against a description of the run history, newest observation first.
use driver_os.Base.{
  ℕ, suc, ◌+◌, ◌<◌, ◌≡◌, refl, ◌∙◌, arith, Bool, true, false, not, ◌&&◌, List, [], ◌∷◌, Text, leb,
  if◌then◌else◌, text_eq, text_eq_iff, inl, inr, ◌⊎◌,
}
use driver_os.Agent.Observation.Fingerprint.{run_fingerprint}
use driver_os.Agent.Observation.{is_run_failure, is_infra_fault}
use driver_os.Agent.Policy.{TerminationPolicy}
use driver_os.Agent.Tracker.{
  TrackerDeps, TurnTracker, new_turn_tracker, read_run, track_stagnant, track_green, observe_run,
}

-- A failure that is no fault of the environment.
abbrev pub real_failure : Text → Bool
real_failure o = is_run_failure o && not (is_infra_fault o)

abbrev infra_failure : Text → Bool
infra_failure o = is_run_failure o && is_infra_fault o

-- How many of the newest observations are real failures with the fingerprint `fp`; failures of the
-- environment are passed over.
pub same_run : Text → List Text → ℕ
same_run fp [] = 0
same_run fp (o ∷ h) =
    let rest = same_run fp h in
    if infra_failure o
    then rest
    else if real_failure o && text_eq fp (run_fingerprint o)
    then suc rest
    else 0

pub streak : List Text → ℕ
streak [] = 0
streak (o ∷ h) =
    let rest = streak h in
    if infra_failure o
    then rest
    else if real_failure o
    then suc (same_run (run_fingerprint o) h)
    else 0

track_stagnant_real :
    (t : TurnTracker) (fp : Text)
    → t.last_run_failed ≡ true
    → ((track_stagnant t fp).last_run_fp ≡ fp)
      × ((track_stagnant t fp).stagnant ≡ (if text_eq fp t.last_run_fp then suc t.stagnant else 1))
unfolding track_stagnant
track_stagnant_real t fp h = ground (arith, text_eq_iff fp t.last_run_fp)

track_stagnant_other :
    (t : TurnTracker) (fp : Text)
    → t.last_run_failed ≡ false
    → ((track_stagnant t fp).last_run_fp ≡ []) × ((track_stagnant t fp).stagnant ≡ 0)
unfolding track_stagnant
track_stagnant_other t fp h = ground arith

track_green_keeps :
    (t : TurnTracker) (fp : Text)
    → ((track_green t fp).last_run_fp ≡ t.last_run_fp)
      × ((track_green t fp).stagnant ≡ t.stagnant)
      × ((track_green t fp).policy ≡ t.policy)
unfolding track_green
track_green_keeps t fp = ground arith

track_stagnant-policy : (t : TurnTracker) (fp : Text) → (track_stagnant t fp).policy ≡ t.policy
unfolding track_stagnant
track_stagnant-policy t fp = ground arith

read_run_keeps :
    (t : TurnTracker) (o : Text)
    → ((read_run t o).last_run_failed ≡ is_run_failure o)
      × ((read_run t o).last_run_fp ≡ t.last_run_fp)
      × ((read_run t o).stagnant ≡ t.stagnant)
      × ((read_run t o).policy ≡ t.policy)
unfolding read_run
read_run_keeps t o = ground arith

-- A failure of the environment leaves the streak alone.
observe_run_infra :
    (t : TurnTracker) (o : Text)
    → infra_failure o ≡ true
    → ((observe_run t o).0.last_run_fp ≡ t.last_run_fp)
      × ((observe_run t o).0.stagnant ≡ t.stagnant)
      × ((observe_run t o).1 ≡ false)
      × ((observe_run t o).2 ≡ t.stagnant)
unfolding observe_run
observe_run_infra t o h = ground (arith, read_run_keeps t o)

-- A real failure goes on with the streak or begins a new one.
observe_run_real :
    (t : TurnTracker) (o : Text)
    → real_failure o ≡ true
    → ((observe_run t o).0.last_run_fp ≡ run_fingerprint o)
      × ((observe_run t o).0.stagnant
          ≡ (if text_eq (run_fingerprint o) t.last_run_fp then suc t.stagnant else 1))
      × ((observe_run t o).1 ≡ leb t.policy.max_stagnant (observe_run t o).0.stagnant)
      × ((observe_run t o).2 ≡ (observe_run t o).0.stagnant)
unfolding observe_run
observe_run_real t o h =
    let fp = run_fingerprint o in
    let u = read_run t o in
    let v = record u { fail_runs = u.fail_runs + 1 } in
    ground (
      arith,
      read_run_keeps t o,
      track_stagnant_real v fp,
      track_stagnant-policy v fp,
      track_green_keeps (track_stagnant v fp) fp,
    )

-- Any other observation ends the streak.
observe_run_other :
    (t : TurnTracker) (o : Text)
    → is_run_failure o ≡ false
    → ((observe_run t o).0.last_run_fp ≡ [])
      × ((observe_run t o).0.stagnant ≡ 0)
      × ((observe_run t o).1 ≡ leb t.policy.max_stagnant 0)
      × ((observe_run t o).2 ≡ 0)
unfolding observe_run
observe_run_other t o h =
    let fp = run_fingerprint o in
    let u = read_run t o in
    ground (
      arith,
      read_run_keeps t o,
      track_stagnant_other u fp,
      track_stagnant-policy u fp,
      track_green_keeps (track_stagnant u fp) fp,
    )

-- The three kinds of observation.
run_kinds :
    (o : Text) → (infra_failure o ≡ true) ⊎ ((real_failure o ≡ true) ⊎ (is_run_failure o ≡ false))
run_kinds o = ground arith

observe_run-policy : (t : TurnTracker) (o : Text) → (observe_run t o).0.policy ≡ t.policy
unfolding observe_run
observe_run-policy t o =
    let fp = run_fingerprint o in
    let u = read_run t o in
    let v = if u.last_run_failed then record u { fail_runs = u.fail_runs + 1 } else u in
    ground (
      arith,
      read_run_keeps t o,
      track_stagnant-policy v fp,
      track_green_keeps (track_stagnant v fp) fp,
    )

module _ (deps : TrackerDeps) (max_iter : ℕ) (policy : TerminationPolicy) where
  -- The tracker behind a history of runs, newest first.
  pub after_runs : List Text → TurnTracker
  after_runs [] = new_turn_tracker deps max_iter policy
  after_runs (o ∷ h) = (observe_run (after_runs h) o).0

  after_runs-policy : (h : List Text) → (after_runs h).policy ≡ policy
  unfolding after_runs new_turn_tracker
  after_runs-policy [] = refl
  after_runs-policy (o ∷ h) = observe_run-policy (after_runs h) o ∙ after_runs-policy h

  same_run-after_runs :
      (h : List Text) (fp : Text)
      → same_run fp h
        ≡ (if text_eq fp (after_runs h).last_run_fp then (after_runs h).stagnant else 0)
  unfolding after_runs new_turn_tracker same_run
  same_run-after_runs [] fp = ground arith
  same_run-after_runs (o ∷ h) fp = elim (run_kinds o) [
    | inl k ↦ ground (arith, observe_run_infra (after_runs h) o, same_run-after_runs h fp)
    | inr (inl k) ↦ ground (
      arith,
      observe_run_real (after_runs h) o,
      same_run-after_runs h (run_fingerprint o),
      text_eq_iff fp (run_fingerprint o),
    )
    | inr (inr k) ↦ ground (arith, observe_run_other (after_runs h) o)
  ]

  stagnant-after_runs : (h : List Text) → (after_runs h).stagnant ≡ streak h
  unfolding after_runs new_turn_tracker streak
  stagnant-after_runs [] = refl
  stagnant-after_runs (o ∷ h) = elim (run_kinds o) [
    | inl k ↦ ground (arith, observe_run_infra (after_runs h) o, stagnant-after_runs h)
    | inr (inl k) ↦
        ground (arith, observe_run_real (after_runs h) o, same_run-after_runs h (run_fingerprint o))
    | inr (inr k) ↦ ground (arith, observe_run_other (after_runs h) o)
  ]

  -- For every history of runs and one more, with a positive threshold: the count that is reported is
  -- the length of the newest streak of real failures with one fingerprint, and the run is killed
  -- exactly when the new observation is a real failure and that streak has reached the threshold.
  pub observe_run-streak :
      (h : List Text) (o : Text)
      → 0 < policy.max_stagnant
      → ((observe_run (after_runs h) o).2 ≡ streak (o ∷ h))
        × ((observe_run (after_runs h) o).1
            ≡ (real_failure o && leb policy.max_stagnant (streak (o ∷ h))))
  unfolding after_runs
  observe_run-streak h o pos =
      let t = after_runs h in
      let p = after_runs-policy h in
      let s = stagnant-after_runs (o ∷ h) in
      elim (run_kinds o) [
        | inl k ↦ ground (arith, observe_run_infra t o)
        | inr (inl k) ↦ ground (arith, observe_run_real t o)
        | inr (inr k) ↦ ground (arith, observe_run_other t o)
      ]
