-- ===== src/Agent/Evidence.antt =====
-- agent/evidence.go: the log of what a run verified and reviewed, and the report made of it.
pub mod Explained
pub mod Honest
pub mod Trace
mod Tests
use driver_os.Base.{
  ℕ, ◌+◌, Bool, true, false, not, ◌&&◌, ◌||◌, List, [], ◌∷◌, ◌++◌, Option, none, some, Text, codes,
  ltb, ◌==◌, if◌then◌else◌, is_empty, text_eq, to_lower, length, sort_texts,
}
use driver_os.Agent.Outcome.{Outcome, answered}

-- The empty string of Go, the zero value, is `absent`.
pub data EvidenceStatus : Type 0 where
  absent skipped degraded inconclusive failed passed : EvidenceStatus

pub data DegradationReason : Type 0 where
  gate_timeout fail_open unpriced_spend no_vcs policy_skip infra_fault : DegradationReason
  not_reached stale_evidence no_op_answer artifact_write : DegradationReason

-- `no_effect` is the zero value.
pub data WorkspaceEffect : Type 0 where
  no_effect changed unchanged unknown : WorkspaceEffect

pub record Degradation : Type 0 where
  pub guarantee : Text
  pub reason : DegradationReason
  pub detail : Text

pub record VerificationEvidence : Type 0 where
  pub status : EvidenceStatus
  pub command : Text
  pub attempts : ℕ
  pub mutation_gen : ℕ
  pub final_gen : ℕ

pub record DiffEvidence : Type 0 where
  pub status : EvidenceStatus
  pub files_changed : List Text
  pub patch_ref : Text
  pub capture_gen : ℕ
  pub workspace_effect : WorkspaceEffect

pub record ReviewEvidence : Type 0 where
  pub status : EvidenceStatus
  pub rounds : ℕ
  pub findings_total : ℕ
  pub blockers_fired : ℕ
  pub surviving_finding_ids : List Text
  pub repaired_finding_ids : List Text
  pub reviewed_gen : ℕ

pub record Guarantees : Type 0 where
  pub verification : VerificationEvidence
  pub review : ReviewEvidence
  pub cost_bound : EvidenceStatus
  pub isolation : EvidenceStatus
  pub observed_isolation : Text
  pub observed_network : Option Bool
  pub diff : DiffEvidence
  pub degradations : List Degradation

abbrev pub zero_guarantees : Guarantees
zero_guarantees = record {
  verification = record {
    status = absent;
    command = [];
    attempts = 0;
    mutation_gen = 0;
    final_gen = 0;
  };
  review = record {
    status = absent;
    rounds = 0;
    findings_total = 0;
    blockers_fired = 0;
    surviving_finding_ids = [];
    repaired_finding_ids = [];
    reviewed_gen = 0;
  };
  cost_bound = absent;
  isolation = absent;
  observed_isolation = [];
  observed_network = none;
  diff = record {
    status = absent;
    files_changed = [];
    patch_ref = [];
    capture_gen = 0;
    workspace_effect = no_effect;
  };
  degradations = [];
}

pub record VerifyEvidenceEvent : Type 0 where
  pub status : EvidenceStatus
  pub command : Text
  pub gen : ℕ

pub record EvidenceLog : Type 0 where
  pub verify : List VerifyEvidenceEvent
  pub mut_gen : ℕ
  pub isolation : EvidenceStatus
  pub observed_isolation : Text
  pub observed_network : Option Bool
  pub verify_configured : Bool
  pub review_configured : Bool
  pub cost_configured : Bool
  pub verify_command : Text
  pub closing_ready : Bool
  pub unpriced : Bool
  pub root : Text
  pub base_tree : Text
  pub reviewed_gen : ℕ
  pub review_reached : Bool

-- A nil log is left alone.
unfoldable pub mutation : Option EvidenceLog → Option EvidenceLog
mutation none = none
mutation (some l) = some (record l { mut_gen = l.mut_gen + 1 })

unfoldable pub record_verify : Option EvidenceLog → Text → EvidenceStatus → Option EvidenceLog
record_verify none command status = none
record_verify (some l) command status = some (record l {
  verify = l.verify ++ record { status = status; command = command; gen = l.mut_gen } ∷ [];
})

unfoldable pub degradation : Text → DegradationReason → Text → Guarantees → Guarantees
degradation g r detail out = record out {
  degradations = out.degradations ++ record { guarantee = g; reason = r; detail = detail } ∷ [];
}

-- The fates of agent/review.go; `pending` is the empty string.
pub data Fate : Type 0 where
  pending repaired refuted expired advised note dropped : Fate

-- What the report reads of a ReviewedFinding, and of a ReviewReport.
pub record Finding : Type 0 where
  pub id : Text
  pub severity : Text
  pub fate : Fate

pub record Review : Type 0 where
  pub rounds : ℕ
  pub blocked : Bool
  pub skipped : Text
  pub findings : List Finding

cost_part : EvidenceLog → Guarantees → Guarantees
cost_part l g =
    let h = record g { cost_bound = if not l.cost_configured then absent else passed } in
    if l.unpriced
    then degradation (codes "cost-bound") unpriced_spend (codes "continued with unpriced spend")
        (record h { cost_bound = degraded })
    else h

-- The last event, where there is one.
last_event : VerifyEvidenceEvent → List VerifyEvidenceEvent → VerifyEvidenceEvent
last_event e [] = e
last_event e (f ∷ fs) = last_event f fs

verify_events : EvidenceLog → List VerifyEvidenceEvent → Guarantees → Guarantees
verify_events l [] g =
    degradation (codes "verification") not_reached (codes "verification stage was not reached")
      (record g {
        verification = record (g.verification) { command = l.verify_command; status = skipped };
      })
verify_events l (e ∷ es) g =
    let last = last_event e es in
    let h = record g {
      verification = record (g.verification) {
        status = last.status;
        command = last.command;
        attempts = length (e ∷ es);
        mutation_gen = last.gen;
      };
    } in
    if ltb last.gen l.mut_gen
    then degradation (codes "verification") stale_evidence
        (codes "workspace changed after verification")
        (record h { verification = record (h.verification) { status = degraded } })
    else h

verification_part : EvidenceLog → Guarantees → Guarantees
verification_part l g =
    let h = record g { verification = record (g.verification) { final_gen = l.mut_gen } } in
    if l.verify_configured then verify_events l l.verify h else h

-- One finding of the loop; the severity is compared under case folding of ASCII letters.
count_finding : ReviewEvidence → Finding → ReviewEvidence
count_finding r f =
    let q =
      if text_eq (to_lower f.severity) (codes "blocker")
      then record r { blockers_fired = r.blockers_fired + 1 }
      else r in
    elim f.fate [
      | repaired ↦ record q { repaired_finding_ids = q.repaired_finding_ids ++ f.id ∷ [] }
      | expired ↦ record q { surviving_finding_ids = q.surviving_finding_ids ++ f.id ∷ [] }
      | _ ↦ q
    ]

count_findings : ReviewEvidence → List Finding → ReviewEvidence
count_findings r [] = r
count_findings r (f ∷ fs) = count_findings (count_finding r f) fs

with_status : Guarantees → EvidenceStatus → Guarantees
with_status g s = record g { review = record (g.review) { status = s } }

review_unreached : Guarantees → Guarantees
review_unreached g =
    degradation (codes "review") not_reached (codes "review stage was not reached")
      (with_status g skipped)

review_reached : EvidenceLog → Review → Guarantees → Guarantees
review_reached l review g =
    let a = record g {
      review =
          count_findings
            (record (g.review) {
              status = passed;
              rounds = review.rounds;
              findings_total = length review.findings;
            })
            review.findings;
    } in
    let b =
      if review.blocked
      then with_status a failed
      else if not (is_empty review.skipped)
      then degradation (codes "review") policy_skip review.skipped (with_status a degraded)
      else a in
    if ltb l.reviewed_gen l.mut_gen
    then degradation (codes "review") stale_evidence (codes "workspace changed after review")
        (with_status b degraded)
    else b

review_part : EvidenceLog → Option Review → Guarantees → Guarantees
review_part l review g =
    let h = record g { review = record (g.review) { reviewed_gen = l.reviewed_gen } } in
    if l.review_configured
    then elim review [
      | none ↦ review_unreached h
      | some r ↦
          if not l.review_reached && r.rounds == 0 then review_unreached h else review_reached l r h
    ]
    else g

-- What vcs.WriteTree and vcs.DiffTreeNames give at the end of the run; none is an error.
pub record Vcs : Type 0 where
  pub current_tree : Option Text
  pub changed_names : Option (List Text)

abbrev diff_status : Guarantees → EvidenceStatus → WorkspaceEffect → Guarantees
diff_status g s e = record g { diff = record (g.diff) { status = s; workspace_effect = e } }

-- With a root and a base tree: the results of WriteTree and of DiffTreeNames.
diff_found : EvidenceLog → Option Text → Option (List Text) → Guarantees → Guarantees
diff_found l none names g = record g { diff = record (g.diff) { status = inconclusive } }
diff_found l (some cur) none g = diff_status g inconclusive unknown
diff_found l (some cur) (some names) g = record g {
  diff = record (g.diff) {
    status = passed;
    files_changed = sort_texts names;
    capture_gen = l.mut_gen;
    workspace_effect = if text_eq cur l.base_tree then unchanged else changed;
  };
}

diff_part : EvidenceLog → Vcs → Guarantees → Guarantees
diff_part l vcs g =
    if not (is_empty l.root) && not (is_empty l.base_tree)
    then diff_found l vcs.current_tree vcs.changed_names g
    else if not (is_empty l.root)
    then degradation (codes "diff") no_vcs (codes "no workspace baseline available")
        (record g { diff = record (g.diff) { status = skipped } })
    else g

abbrev is_answered : Outcome → Bool
is_answered answered = true
is_answered _ = false

abbrev is_unchanged : WorkspaceEffect → Bool
is_unchanged unchanged = true
is_unchanged _ = false

no_op_part : Outcome → Guarantees → Guarantees
no_op_part outcome g =
    if is_answered outcome && is_unchanged g.diff.workspace_effect
    then degradation (codes "diff") no_op_answer (codes "answered with no workspace changes") g
    else g

-- The fields copied from the log.
copied : EvidenceLog → Guarantees
copied l =
    let z = zero_guarantees in
    record z {
      diff = record (z.diff) { workspace_effect = unknown };
      isolation = l.isolation;
      observed_isolation = l.observed_isolation;
      observed_network = l.observed_network;
    }

pub finalize_guarantees : Option EvidenceLog → Outcome → Option Review → Vcs → Guarantees
finalize_guarantees none _ review vcs = zero_guarantees
finalize_guarantees (some l) outcome review vcs =
    no_op_part outcome
      (diff_part l vcs (review_part l review (verification_part l (cost_part l (copied l)))))

unfoldable pub is_mutating_tool : Text → Bool
is_mutating_tool name =
    text_eq name (codes "write_file")
    || text_eq name (codes "edit_file")
    || text_eq name (codes "run")
    || text_eq name (codes "exec")
