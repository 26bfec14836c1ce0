-- ===== src/Agent/Gates/Completion/Feedback.antt =====
-- How often a failed verification can send the model back to work.
use driver_os.Base.{
  ℕ, ◌+◌, ◌-◌, ◌≤◌, ◌≡◌, ◌⊎◌, inl, inr, refl, ap, ◌∙◌, arith, Bool, true, false, not, List, [], ◌∷◌,
  Text, codes, is_empty, text_eq, contains, Bool-cases, All,
}
use driver_os.Agent.Observation.{is_run_timeout, is_infra_fault}
use driver_os.Agent.Observation.Fingerprint.{run_fingerprint}
use driver_os.Agent.Gates.{Gates, Verdict}
use driver_os.Agent.Gates.Completion.{
  with_signature, baseline_failure, hard_failure, soft_failure, verify_completion_failure,
  auto_verify_max_feedback,
}

-- A failed verification: its reason and its output.
pub record Failure : Type 0 where
  pub reason : Text
  pub out : Text

-- The gates behind a failure, and whether it rejects the finish.
after : Gates → Failure → Gates
after g f = (verify_completion_failure g f.reason f.out).1

rejects : Gates → Failure → Bool
rejects g f = not (is_empty (verify_completion_failure g f.reason f.out).0.reason)

abbrev one_if : Bool → ℕ
one_if true = 1
one_if false = 0

-- How many of the failures, one behind the other, reject the finish.
pub rejections : Gates → List Failure → ℕ
rejections g [] = 0
rejections g (f ∷ fs) = one_if (rejects g f) + rejections (after g f) fs

abbrev left : Gates → ℕ
left g = auto_verify_max_feedback - g.auto_verify_feedback

hard_failure-keeps :
    (g : Gates) (reason out : Text)
    → ((hard_failure g reason out).1.auto_verify_soft ≡ g.auto_verify_soft)
      × ((hard_failure g reason out).1.auto_verify_feedback ≡ g.auto_verify_feedback)
unfolding hard_failure baseline_failure with_signature
hard_failure-keeps g reason out = (ground arith, ground arith)

soft_failure-counts :
    (g : Gates) (reason out : Text)
    → ((soft_failure g reason out).1.auto_verify_soft ≡ g.auto_verify_soft)
      × ((soft_failure g reason out).1.auto_verify_feedback ≡ g.auto_verify_feedback)
      × ((is_empty (soft_failure g reason out).0.reason ≡ true) ⊎ (g.auto_verify_feedback ≤ 2))
unfolding soft_failure with_signature
soft_failure-counts g reason out =
    let (s, f) = hard_failure-keeps g reason out in
    (ground (arith, s), ground (arith, f), ground arith)

after-left :
    (g : Gates) (f : Failure)
    → g.auto_verify_soft ≡ true
    → ((after g f).auto_verify_soft ≡ true) × (one_if (rejects g f) + left (after g f) ≤ left g)
unfolding after rejects verify_completion_failure
after-left g f s =
    let h = record g { auto_verify_feedback = g.auto_verify_feedback + 1 } in
    let (a, b, c) = soft_failure-counts h f.reason f.out in
    (ground (arith, s, a), ground (arith, s, a, b, c))

rejections-left :
    (g : Gates) (fs : List Failure) → g.auto_verify_soft ≡ true → rejections g fs ≤ left g
unfolding rejections
rejections-left g [] s = omega arith
rejections-left g (f ∷ fs) s =
    let (t, b) = after-left g f s in omega (arith, b, rejections-left (after g f) fs t)

-- A soft gate rejects at most two finishes of a run, however many verifications fail.
pub rejections-bounded :
    (g : Gates) (fs : List Failure) → g.auto_verify_soft ≡ true → rejections g fs ≤ 2
rejections-bounded g fs s = omega (arith, rejections-left g fs s)

-- A failure that looks as the red baseline did: not soft, neither a timeout nor an environment fault,
-- the same fingerprint of an output that is not empty.
pub record IsBaseline (base : Text) (f : Failure) : Type 0 where
  pub not_timeout : is_run_timeout f.out ≡ false
  pub not_fault : is_infra_fault f.out ≡ false
  pub did_not_pass : contains f.reason (codes "did not pass:") ≡ true
  pub not_empty : is_empty f.out ≡ false
  pub same : text_eq (run_fingerprint f.out) (run_fingerprint base) ≡ true

-- How many of the failures leave it open to continue.
pub grants : Gates → List Failure → ℕ
grants g [] = 0
grants g (f ∷ fs) =
    one_if (not (verify_completion_failure g f.reason f.out).0.no_continue) + grants (after g f) fs

contains-nonempty : (s : Text) → contains s (codes "did not pass:") ≡ true → is_empty s ≡ false
unfolding contains
contains-nonempty [] h = ground arith
contains-nonempty (x ∷ s) h = refl

baseline_failure-grace :
    (g : Gates) (f : Failure)
    → g.verify_baseline_red ≡ true
    → IsBaseline g.verify_baseline_out f
    → ((baseline_failure g f.reason f.out).0.no_continue ≡ g.baseline_grace_used)
      × ((baseline_failure g f.reason f.out).1 ≡ record g { baseline_grace_used = true })
unfolding baseline_failure
baseline_failure-grace g f r b = (
  ground (arith, r, b.did_not_pass, b.not_empty, b.same),
  ground (arith, r, b.did_not_pass, b.not_empty, b.same),
)

failure-baseline :
    (g : Gates) (f : Failure)
    → g.auto_verify_soft ≡ false
    → IsBaseline g.verify_baseline_out f
    → verify_completion_failure g f.reason f.out ≡ baseline_failure g f.reason f.out
unfolding verify_completion_failure hard_failure
failure-baseline g f s b =
    ground (arith, s, b.not_timeout, b.not_fault, contains-nonempty f.reason b.did_not_pass)

abbrev spent : Bool → ℕ
spent true = 0
spent false = 1

grants-spent :
    (g : Gates) (fs : List Failure)
    → g.auto_verify_soft ≡ false
    → g.verify_baseline_red ≡ true
    → All (IsBaseline g.verify_baseline_out) fs
    → grants g fs ≤ spent g.baseline_grace_used
unfolding grants after
grants-spent g [] s r a = omega arith
grants-spent g (f ∷ fs) s r (b, a) =
    let e = failure-baseline g f s b in
    let (n, q) = baseline_failure-grace g f r b in
    let h = record g { baseline_grace_used = true } in
    let m =
      ap (λ (x : Verdict × Gates). one_if (not x.0.no_continue)) e ∙ ap (λ b. one_if (not b)) n in
    let k = ap (λ (x : Verdict × Gates). grants x.1 fs) e ∙ ap (λ x. grants x fs) q in
    elim (Bool-cases g.baseline_grace_used) [
      | inl y ↦ ground (arith, m, k, y, grants-spent h fs s r a)
      | inr y ↦ ground (arith, m, k, y, grants-spent h fs s r a)
    ]

-- Under an authoritative command whose baseline was red, of all the failures that look as the baseline
-- did at most one lets the run continue.
pub grants-bounded :
    (g : Gates) (fs : List Failure)
    → g.auto_verify_soft ≡ false
    → g.verify_baseline_red ≡ true
    → All (IsBaseline g.verify_baseline_out) fs
    → grants g fs ≤ 1
grants-bounded g fs s r a = ground (arith, grants-spent g fs s r a)
