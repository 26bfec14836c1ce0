-- ===== src/Agent/Standing/Tests.antt =====
-- A run that passed on a tree that has changed since.
use driver_os.Base.{◌≡◌, ◌↔◌, ◌⊎◌, refl, true, false, Text, List, [], ◌∷◌, some, codes, text_eq}
use driver_os.Agent.Evidence.{passed}
use driver_os.Agent.Tracker.{VerificationRecord, no_record, TurnTracker, new_turn_tracker}
use driver_os.Agent.Policy.{default_termination_policy}
use driver_os.Agent.Standing.{verification_word, freshness_tag, standing_word, render_verification}
use driver_os.Agent.Standing.Shown.{IsFresh, gate_line, render_verification-pass}

abbrev green : VerificationRecord
green = record no_record { status = passed; command = codes "go test ./..."; tree = codes "t1" }

stale_shown :
    standing_word green (codes "t2") false false
    ≡ codes "PASS  [STALE: files changed since this ran — re-run to confirm]"
unfolding standing_word verification_word freshness_tag text_eq
stale_shown = refl

abbrev tracker : TurnTracker
tracker =
    record (new_turn_tracker
      (record {
        verify_cmd = codes "make check";
        churn_nudge_runs = 0;
        diagnose_cmd = [];
        diagnose_after_edits = 0;
        finish_nudge_window = 0;
      })
      9 default_termination_policy) { last_verify = green }

render_verification-pass_example :
    ((rest : List Text) × (render_verification
          (λ c. [])
          (some tracker)
          (codes "make check")
          (codes "t2")
          false
          true
        ≡ gate_line (codes "go test ./...") (codes "PASS") ∷ rest))
    ↔ ((green.status ≡ passed) × ((true ≡ true) ⊎ IsFresh green (codes "t2") false))
render_verification-pass_example =
    render_verification-pass (λ c. []) tracker (codes "make check") (codes "t2") false true refl
      refl
