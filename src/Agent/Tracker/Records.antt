-- ===== src/Agent/Tracker/Records.antt =====
-- The verification records that `recordRun` keeps for the standing context.
use driver_os.Base.{
  ℕ, suc, ◌≡◌, refl, arith, Bool, not, ◌&&◌, List, [], ◌∷◌, Text, if◌then◌else◌, is_empty, text_eq,
  trim_space, length,
}
use driver_os.Agent.Policy.{TerminationPolicy}
use driver_os.Agent.Tracker.{
  VerificationRecord, no_record, new_verification_record, TrackerDeps, TurnTracker,
  new_turn_tracker, record_run,
}

-- A run: its command, its observation and the tree that it measured.
pub record Run : Type 0 where
  pub cmd : Text
  pub obs : Text
  pub tree : Text

module _ (show : ℕ → Text) (deps : TrackerDeps) (max_iter : ℕ) (policy : TerminationPolicy) where
  -- The tracker behind these runs, newest first.
  pub after_records : List Run → TurnTracker
  after_records [] = new_turn_tracker deps max_iter policy
  after_records (r ∷ h) = record_run show (after_records h) r.cmd r.obs r.tree

  abbrev pub record_of : Run → VerificationRecord
  record_of r = new_verification_record show r.cmd r.obs r.tree

  -- The runs of the gate's command, but for the space round it.
  abbrev pub is_gate : Run → Bool
  is_gate r =
      not (is_empty (trim_space deps.verify_cmd))
      && text_eq (trim_space r.cmd) (trim_space deps.verify_cmd)

  pub gate_runs : List Run → List Run
  gate_runs [] = []
  gate_runs (r ∷ h) = let rest = gate_runs h in if is_gate r then r ∷ rest else rest

  -- The newest run's record, and the newest gate run's with its number.
  abbrev pub last_of : List Run → VerificationRecord
  last_of [] = no_record
  last_of (r ∷ h) = record_of r

  abbrev pub verify_of : List Run → VerificationRecord
  verify_of [] = no_record
  verify_of (r ∷ h) = record (record_of r) { attempts = suc (length h) }

  after_records-deps : (h : List Run) → (after_records h).deps ≡ deps
  unfolding after_records record_run new_turn_tracker
  after_records-deps [] = refl
  after_records-deps (r ∷ h) = ground (arith, after_records-deps h)

  verify_of-attempts : (gs : List Run) → (verify_of gs).attempts ≡ length gs
  verify_of-attempts [] = refl
  verify_of-attempts (r ∷ gs) = refl

  record_of-command : (r : Run) → (record_of r).command ≡ trim_space r.cmd
  unfolding new_verification_record
  record_of-command r = ground arith

  -- For every list of runs: `lastRun` is the record of the newest run, and `lastVerify` that of the
  -- newest run of the gate's command, which no later run of another command replaces; its attempts
  -- count the runs of that command.
  pub after_records-exact :
      (h : List Run)
      → ((after_records h).last_run ≡ last_of h)
        × ((after_records h).last_verify ≡ verify_of (gate_runs h))
  unfolding after_records record_run new_turn_tracker gate_runs
  after_records-exact [] = (refl, refl)
  after_records-exact (r ∷ h) = ground (
    arith,
    after_records-deps h,
    after_records-exact h,
    verify_of-attempts (gate_runs h),
    record_of-command r,
  )
