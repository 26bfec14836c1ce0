-- ===== src/Agent/Evidence/Trace.antt =====
-- The verification that the report states, against the order of the run's events.
use driver_os.Base.{
  ℕ, suc, ◌+◌, ◌<◌, ◌≡◌, refl, ap, ◌∙◌, arith, Bool, true, false, List, [], ◌∷◌, ◌++◌, Option, none,
  some, Text, ltb, if◌then◌else◌, length, length-append,
}
use driver_os.Agent.Outcome.{Outcome}
use driver_os.Agent.Evidence.{
  EvidenceStatus, skipped, degraded, Guarantees, EvidenceLog, VerificationEvidence,
  VerifyEvidenceEvent, Review, Vcs, mutation, record_verify, degradation, cost_part, last_event,
  verify_events, verification_part, review_unreached, review_reached, with_status, review_part,
  diff_found, diff_part, no_op_part, copied, finalize_guarantees,
}

-- What happens to the log while the run goes on.
pub data Event : Type 0 where
  mutated : Event
  verified : Text → EvidenceStatus → Event

-- The log behind these events, newest first.
pub log_after : EvidenceLog → List Event → Option EvidenceLog
log_after l [] = some l
log_after l (mutated ∷ h) = mutation (log_after l h)
log_after l (verified cmd s ∷ h) = record_verify (log_after l h) cmd s

-- What the events say of the verification: the status of the newest check, but that a mutation behind
-- it makes it stale, and that with no check at all the stage was skipped.
pub standing : Bool → List Event → EvidenceStatus
standing stale [] = skipped
standing stale (mutated ∷ h) = standing true h
standing stale (verified cmd s ∷ h) = if stale then degraded else s

pub checks : List Event → ℕ
checks [] = 0
checks (mutated ∷ h) = checks h
checks (verified cmd s ∷ h) = suc (checks h)

abbrev stated : List VerifyEvidenceEvent → ℕ → EvidenceStatus
stated [] gen = skipped
stated (e ∷ es) gen =
    let last = last_event e es in if ltb last.gen gen then degraded else last.status

abbrev gen_of : List VerifyEvidenceEvent → ℕ
gen_of [] = 0
gen_of (e ∷ es) = (last_event e es).gen

-- What the log knows of its events.
record Knows (l m : EvidenceLog) (h : List Event) : Type 0 where
  configured : m.verify_configured ≡ l.verify_configured
  fresh : stated m.verify m.mut_gen ≡ standing false h
  stale : (n : ℕ) → m.mut_gen < n → stated m.verify n ≡ standing true h
  number : length m.verify ≡ checks h

last_event-append :
    (e f : VerifyEvidenceEvent) (es : List VerifyEvidenceEvent) → last_event e (es ++ f ∷ []) ≡ f
unfolding last_event
last_event-append e f [] = refl
last_event-append e f (x ∷ es) = last_event-append x f es

stated-append :
    (es : List VerifyEvidenceEvent) (f : VerifyEvidenceEvent) (n : ℕ)
    → stated (es ++ f ∷ []) n ≡ (if ltb f.gen n then degraded else f.status)
unfolding last_event
stated-append [] f n = refl
stated-append (e ∷ es) f n =
    ap (λ (x : VerifyEvidenceEvent). if ltb x.gen n then degraded else x.status)
      (last_event-append e f es)

log_after-Knows :
    (l : EvidenceLog) (h : List Event)
    → l.verify ≡ []
    → (m : EvidenceLog) × (log_after l h ≡ some m) × Knows l m h
unfolding log_after mutation record_verify standing checks
log_after-Knows l [] e = (
  l,
  refl,
  record {
    configured = refl;
    fresh = ap (λ es. stated es l.mut_gen) e;
    stale = λ n q. ap (λ es. stated es n) e;
    number = ap length e;
  },
)
log_after-Knows l (mutated ∷ h) e =
    let (m, p, k) = log_after-Knows l h e in
    (
      record m { mut_gen = m.mut_gen + 1 },
      rw p,
      record {
        configured = k.configured;
        fresh = k.stale (m.mut_gen + 1) (omega arith);
        stale = λ n q. k.stale n (omega arith);
        number = k.number;
      },
    )
log_after-Knows l (verified cmd s ∷ h) e =
    let (m, p, k) = log_after-Knows l h e in
    (
      record m { verify = m.verify ++ record { status = s; command = cmd; gen = m.mut_gen } ∷ [] },
      rw p,
      record {
        configured = k.configured;
        fresh = stated-append m.verify _ m.mut_gen ∙ ground arith;
        stale = λ n q. stated-append m.verify _ n ∙ ground arith;
        number = length-append m.verify _ ∙ ground arith;
      },
    )

no_op_part-verification :
    (o : Outcome) (g : Guarantees) → (no_op_part o g).verification ≡ g.verification
unfolding no_op_part degradation
no_op_part-verification o g = ground arith

diff_part-verification :
    (l : EvidenceLog) (vcs : Vcs) (g : Guarantees)
    → (diff_part l vcs g).verification ≡ g.verification
unfolding diff_part diff_found degradation
diff_part-verification l vcs g = ground arith

review_reached-verification :
    (l : EvidenceLog) (r : Review) (g : Guarantees)
    → (review_reached l r g).verification ≡ g.verification
unfolding review_reached with_status degradation
review_reached-verification l r g = ground arith

review_part-verification :
    (l : EvidenceLog) (r : Option Review) (g : Guarantees)
    → (review_part l r g).verification ≡ g.verification
unfolding review_part review_unreached with_status degradation
review_part-verification l none g = ground arith
review_part-verification l (some r) g =
    let h = record g { review = record (g.review) { reviewed_gen = l.reviewed_gen } } in
    ground (arith, review_reached-verification l r h)

verify_events-stated :
    (l : EvidenceLog) (es : List VerifyEvidenceEvent) (g : Guarantees)
    → (verify_events l es g).verification.status ≡ stated es l.mut_gen
unfolding verify_events degradation
verify_events-stated l [] g = refl
verify_events-stated l (e ∷ es) g = ground arith

verify_events-attempts :
    (l : EvidenceLog) (es : List VerifyEvidenceEvent) (g : Guarantees)
    → g.verification.attempts ≡ 0
    → (verify_events l es g).verification.attempts ≡ length es
unfolding verify_events degradation
verify_events-attempts l [] g z = z
verify_events-attempts l (e ∷ es) g z = ground arith

finalize_guarantees-verification :
    (l : EvidenceLog) (o : Outcome) (review : Option Review) (vcs : Vcs)
    → (finalize_guarantees (some l) o review vcs).verification
      ≡ (verification_part l (cost_part l (copied l))).verification
unfolding finalize_guarantees
finalize_guarantees-verification l o review vcs =
    no_op_part-verification o _
    ∙ diff_part-verification l vcs _
    ∙ review_part-verification l review _

cost_part-attempts : (l : EvidenceLog) → (cost_part l (copied l)).verification.attempts ≡ 0
unfolding cost_part copied degradation
cost_part-attempts l = ground arith

verification_part-Knows :
    (l m : EvidenceLog) (h : List Event) (g : Guarantees)
    → Knows l m h
    → l.verify_configured ≡ true
    → g.verification.attempts ≡ 0
    → ((verification_part m g).verification.status ≡ standing false h)
      × ((verification_part m g).verification.attempts ≡ checks h)
unfolding verification_part
verification_part-Knows l m h g k c z =
    let f = record g { verification = record (g.verification) { final_gen = m.mut_gen } } in
    ground (
      arith,
      k.configured,
      k.fresh,
      k.number,
      verify_events-stated m m.verify f,
      verify_events-attempts m m.verify f z,
    )

-- For a log that starts with no check and with a verification configured, after any run of mutations
-- and checks, the report states the status of the newest check, `degraded` when a mutation came after
-- it and `skipped` when there was none, and it counts every check.
pub finalize_guarantees-standing :
    (l : EvidenceLog) (h : List Event) (o : Outcome) (review : Option Review) (vcs : Vcs)
    → l.verify ≡ []
    → l.verify_configured ≡ true
    → let v = (finalize_guarantees (log_after l h) o review vcs).verification in
      (v.status ≡ standing false h) × (v.attempts ≡ checks h)
finalize_guarantees-standing l h o review vcs e c =
    let (m, p, k) = log_after-Knows l h e in
    let (s, n) = verification_part-Knows l m h _ k c (cost_part-attempts m) in
    let q =
      ap (λ x. (finalize_guarantees x o review vcs).verification) p
      ∙ finalize_guarantees-verification m o review vcs in
    (
      ap (λ (v : VerificationEvidence). v.status) q ∙ s,
      ap (λ (v : VerificationEvidence). v.attempts) q ∙ n,
    )
