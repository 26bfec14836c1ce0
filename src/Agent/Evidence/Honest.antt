-- ===== src/Agent/Evidence/Honest.antt =====
-- No weakened guarantee goes unexplained in the report.
use driver_os.Base.{
  ◌≡◌, refl, ap, ◌∙◌, arith, false, not, ◌&&◌, List, [], ◌∷◌, Option, none, some, Text, ltb,
  is_empty, ◌==◌, All,
}
use driver_os.Agent.Outcome.{Outcome}
use driver_os.Agent.Evidence.{
  degraded, unpriced_spend, not_reached, stale_evidence, policy_skip, no_vcs, no_op_answer,
  Guarantees, EvidenceLog, VerifyEvidenceEvent, Finding, Review, ReviewEvidence, Vcs, cost_part,
  last_event, verify_events, verification_part, count_finding, count_findings, with_status,
  review_unreached, review_reached, review_part, diff_found, diff_part, is_answered, is_unchanged,
  no_op_part, copied, finalize_guarantees,
}
use driver_os.Agent.Evidence.Explained.{
  is_weak, IsHonest, IsHonest-if, weaken-verification, weaken-review, weaken_cost, weaken-diff,
  strong-verification, strong-review, strong-diff,
}

copied-IsHonest : (l : EvidenceLog) → IsHonest (copied l)
unfolding copied
copied-IsHonest l = ground arith

cost_part-IsHonest : (l : EvidenceLog) (g : Guarantees) → IsHonest g → IsHonest (cost_part l g)
unfolding cost_part
cost_part-IsHonest l g h =
    IsHonest-if l.unpriced _ _ (weaken_cost g h unpriced_spend _ degraded) (record {
      verification = h.verification;
      review = h.review;
      cost_bound = ground arith;
      diff = h.diff;
    })

-- What the closing check records of a run is never a weak status (it records passed, failed or inconclusive only).
abbrev pub AllMeasured : List VerifyEvidenceEvent → Type 0
AllMeasured = All (λ e. is_weak e.status ≡ false)

last_event-strong :
    (e : VerifyEvidenceEvent) (es : List VerifyEvidenceEvent)
    → AllMeasured (e ∷ es)
    → is_weak (last_event e es).status ≡ false
unfolding last_event
last_event-strong e [] m = m.0
last_event-strong e (f ∷ fs) m = last_event-strong f fs m.1

verify_events-IsHonest :
    (l : EvidenceLog) (es : List VerifyEvidenceEvent) (g : Guarantees)
    → AllMeasured es
    → IsHonest g
    → IsHonest (verify_events l es g)
unfolding verify_events
verify_events-IsHonest l [] g m h = weaken-verification g h not_reached _ _
verify_events-IsHonest l (e ∷ es) g m h =
    IsHonest-if (ltb (last_event e es).gen l.mut_gen) _ _
      (weaken-verification g h stale_evidence _ _)
      (strong-verification g _ h (last_event-strong e es m))

verification_part-IsHonest :
    (l : EvidenceLog) (g : Guarantees)
    → AllMeasured l.verify
    → IsHonest g
    → IsHonest (verification_part l g)
unfolding verification_part
verification_part-IsHonest l g m h =
    let k : IsHonest
        (record g { verification = record (g.verification) { final_gen = l.mut_gen } }) =
      record {
        verification = h.verification;
        review = h.review;
        cost_bound = h.cost_bound;
        diff = h.diff;
      } in
    IsHonest-if l.verify_configured _ _ (verify_events-IsHonest l l.verify _ m k) k

count_finding-status : (r : ReviewEvidence) (f : Finding) → (count_finding r f).status ≡ r.status
unfolding count_finding
count_finding-status r f = ground arith

count_findings-status :
    (fs : List Finding) (r : ReviewEvidence) → (count_findings r fs).status ≡ r.status
unfolding count_findings
count_findings-status [] r = refl
count_findings-status (f ∷ fs) r =
    count_findings-status fs (count_finding r f) ∙ count_finding-status r f

review_reached-IsHonest :
    (l : EvidenceLog) (r : Review) (g : Guarantees) → IsHonest g → IsHonest (review_reached l r g)
unfolding review_reached with_status
review_reached-IsHonest l r g h =
    let counted = strong-review g _ h (ap is_weak (count_findings-status r.findings _)) in
    let judged = IsHonest-if r.blocked _ _ (strong-review _ _ counted refl) (
      IsHonest-if (not (is_empty r.skipped)) _ _ (weaken-review _ counted policy_skip r.skipped _)
        counted) in
    IsHonest-if (ltb l.reviewed_gen l.mut_gen) _ _ (weaken-review _ judged stale_evidence _ _)
      judged

review_part-IsHonest :
    (l : EvidenceLog) (r : Option Review) (g : Guarantees)
    → IsHonest g
    → IsHonest (review_part l r g)
unfolding review_part review_unreached with_status
review_part-IsHonest l none g h =
    IsHonest-if l.review_configured _ _ (weaken-review g h not_reached _ _) h
review_part-IsHonest l (some r) g h =
    let k : IsHonest (record g { review = record (g.review) { reviewed_gen = l.reviewed_gen } }) =
      record {
        verification = h.verification;
        review = h.review;
        cost_bound = h.cost_bound;
        diff = h.diff;
      } in
    IsHonest-if l.review_configured _ _
      (IsHonest-if (not l.review_reached && r.rounds == 0) _ _ (weaken-review g h not_reached _ _)
        (review_reached-IsHonest l r _ k))
      h

diff_found-IsHonest :
    (l : EvidenceLog) (cur : Option Text) (changed : Option (List Text)) (g : Guarantees)
    → IsHonest g
    → IsHonest (diff_found l cur changed g)
unfolding diff_found
diff_found-IsHonest l none changed g h = strong-diff g _ h refl
diff_found-IsHonest l (some cur) none g h = strong-diff g _ h refl
diff_found-IsHonest l (some cur) (some changed) g h = strong-diff g _ h refl

diff_part-IsHonest :
    (l : EvidenceLog) (vcs : Vcs) (g : Guarantees) → IsHonest g → IsHonest (diff_part l vcs g)
unfolding diff_part
diff_part-IsHonest l vcs g h =
    IsHonest-if (not (is_empty l.root) && not (is_empty l.base_tree)) _ _
      (diff_found-IsHonest l vcs.current_tree vcs.changed_names g h)
      (IsHonest-if (not (is_empty l.root)) _ _ (weaken-diff g h no_vcs _ _) h)

no_op_part-IsHonest : (o : Outcome) (g : Guarantees) → IsHonest g → IsHonest (no_op_part o g)
unfolding no_op_part
no_op_part-IsHonest o g h =
    IsHonest-if (is_answered o && is_unchanged g.diff.workspace_effect) _ _
      (weaken-diff g h no_op_answer _ g.diff) h

-- Whatever the log, the outcome, the review and the state of the workspace: where the report gives the
-- verification, the review, the cost bound or the diff as skipped or degraded, it has an entry that
-- names that guarantee. The log's events are those of the closing check, which are never such.
pub finalize_guarantees-IsHonest :
    (l : EvidenceLog) (o : Outcome) (review : Option Review) (vcs : Vcs)
    → AllMeasured l.verify
    → IsHonest (finalize_guarantees (some l) o review vcs)
unfolding finalize_guarantees
finalize_guarantees-IsHonest l o review vcs m = no_op_part-IsHonest o _ (
    diff_part-IsHonest l vcs _ (
      review_part-IsHonest l review _
        (verification_part-IsHonest l _ m (cost_part-IsHonest l _ (copied-IsHonest l)))))
