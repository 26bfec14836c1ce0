-- ===== src/Agent/Evidence/Tests.antt =====
-- The report of a run that verified, then changed a file.
use driver_os.Base.{◌≡◌, refl, true, false, [], ◌∷◌, none, some, codes}
use driver_os.Agent.Outcome.{answered}
use driver_os.Agent.Evidence.{absent, passed, EvidenceLog, Vcs, finalize_guarantees}
use driver_os.Agent.Evidence.Explained.{IsHonest}
use driver_os.Agent.Evidence.Honest.{finalize_guarantees-IsHonest}
use driver_os.Agent.Evidence.Trace.{
  mutated, verified, log_after, standing, checks, finalize_guarantees-standing,
}

abbrev log : EvidenceLog
log = record {
  verify = [];
  mut_gen = 0;
  isolation = absent;
  observed_isolation = [];
  observed_network = none;
  verify_configured = true;
  review_configured = false;
  cost_configured = true;
  verify_command = codes "go test ./...";
  closing_ready = true;
  unpriced = true;
  root = codes "/w";
  base_tree = codes "t0";
  reviewed_gen = 0;
  review_reached = false;
}

abbrev stale : EvidenceLog
stale = record log {
  verify = record { status = passed; command = codes "go test ./..."; gen = 1 } ∷ [];
  mut_gen = 2;
}

abbrev end : Vcs
end = record { current_tree = some (codes "t1"); changed_names = some (codes "a.go" ∷ []) }

finalize_guarantees-IsHonest_example : IsHonest (finalize_guarantees (some stale) answered none end)
finalize_guarantees-IsHonest_example =
    finalize_guarantees-IsHonest stale answered none end (refl, tt)

finalize_guarantees-standing_example :
    let h = mutated ∷ verified (codes "go test ./...") passed ∷ mutated ∷ [] in
    let v = (finalize_guarantees (log_after log h) answered none end).verification in
    (v.status ≡ standing false h) × (v.attempts ≡ checks h)
finalize_guarantees-standing_example =
    finalize_guarantees-standing log
      (mutated ∷ verified (codes "go test ./...") passed ∷ mutated ∷ []) answered none end refl refl
