-- ===== src/Agent/Gates/Measured.antt =====
-- What the gates record of a run of the verification command in the evidence log.
use mathlib.Core.Path.{subst}
use driver_os.Base.{
  refl, ℕ, ◌++◌, ◌∙◌, ap, append_assoc, append-nil, ◌≡◌, sym, arith, Bool, true, false, not, ◌&&◌,
  List, [], ◌∷◌, Option, none, some, Text, is_empty, All-append, Bool-cases, inl, inr, All, ◌⊎◌,
}
use driver_os.Agent.Evidence.{
  EvidenceStatus, passed, failed, inconclusive, VerifyEvidenceEvent, EvidenceLog, record_verify,
}
use driver_os.Agent.Observation.{
  is_run_failure, is_run_timeout, is_infra_fault, infra_fault_signature,
}
use driver_os.Agent.Gates.{
  World, Gates, Run, skipped, errored, output, status_of, logged, finished_run, verify_run,
}
use driver_os.Agent.Gates.Completion.{concluded, retried, first_run, verify_termination}
use driver_os.Agent.Gates.Completion.Confirmed.{verify_termination-first_run}

-- What a status says of what a run of a command gave: an output, or none where it could not start.
pub data Tells : Option Text → EvidenceStatus → Type 0 where
  unstarted : Tells none inconclusive
  unsettled :
      (out : Text)
      → (is_run_timeout out ≡ true) ⊎ (is_empty (infra_fault_signature out) ≡ false)
      → Tells (some out) inconclusive
  failing :
      (out : Text)
      → is_run_timeout out ≡ false
      → is_empty (infra_fault_signature out) ≡ true
      → is_run_failure out ≡ true
      → Tells (some out) failed
  passing :
      (out : Text)
      → is_run_timeout out ≡ false
      → is_empty (infra_fault_signature out) ≡ true
      → is_run_failure out ≡ false
      → Tells (some out) passed

status_of-Tells : (o : Option Text) → Tells o (status_of o)
unfolding status_of
status_of-Tells none = unstarted
status_of-Tells (some out) = elim (Bool-cases (is_run_timeout out)) [
  | inl t ↦ rw t (unsettled out (inl t))
  | inr t ↦ elim (Bool-cases (is_empty (infra_fault_signature out))) [
    | inr i ↦ rw (t, i) (unsettled out (inr i))
    | inl i ↦ elim (Bool-cases (is_run_failure out)) [
      | inl f ↦ rw (t, i, f) (failing out t i f)
      | inr f ↦ rw (t, i, f) (passing out t i f)
    ]
  ]
]

abbrev pub checks_of : Option EvidenceLog → List VerifyEvidenceEvent
checks_of none = []
checks_of (some l) = l.verify

-- Recording a check adds it to the log, or nothing where the log is not open to the closing checks.
logged-checks :
    (cmd : Text) (s : EvidenceStatus) (o : Option EvidenceLog)
    → (checks_of (logged cmd s o) ≡ checks_of o)
      ⊎ ((n : ℕ) × (checks_of (logged cmd s o)
            ≡ checks_of o ++ record { status = s; command = cmd; gen = n } ∷ []))
unfolding logged record_verify
logged-checks cmd s none = inl refl
logged-checks cmd s (some l) = elim (Bool-cases l.closing_ready) [
  | inl b ↦ rw b (inr (l.mut_gen, refl))
  | inr b ↦ rw b (inl refl)
]

module _ {ℓ} {W : Type ℓ} (world : World W) where
  -- A check of this command, which ran in some world; the status says what it gave.
  abbrev pub IsRunOf : Text → VerifyEvidenceEvent → Type ℓ
  IsRunOf cmd e = (e.command ≡ cmd) × ((w : W) × Tells (world.run_command cmd w).0 e.status)

  -- The log is the one before with checks behind it, each of a run of this command.
  pub record IsMeasured (cmd : Text) (old : List VerifyEvidenceEvent) (g : Gates) : Type ℓ where
    pub same : g.cmd ≡ cmd
    pub added : List VerifyEvidenceEvent
    pub log : checks_of g.ev ≡ old ++ added
    pub runs : All (IsRunOf cmd) added

  module _ (cmd : Text) (old : List VerifyEvidenceEvent) where
    finished_run-IsMeasured :
        (g : Gates) (w : W)
        → IsMeasured cmd old g
        → IsMeasured cmd old (finished_run world g (world.run_command g.cmd w)).1
    unfolding finished_run
    finished_run-IsMeasured g w h =
        let s = status_of (world.run_command g.cmd w).0 in
        elim (logged-checks g.cmd s g.ev) [
          | inl e ↦ record { same = h.same; added = h.added; log = e ∙ h.log; runs = h.runs }
          | inr (n, e) ↦
              let check : VerifyEvidenceEvent = record { status = s; command = g.cmd; gen = n } in
              let t =
                subst (λ c. Tells (world.run_command c w).0 s) h.same
                  (status_of-Tells (world.run_command g.cmd w).0) in
              record {
                same = h.same;
                added = h.added ++ check ∷ [];
                log = e ∙ ap (λ l. l ++ check ∷ []) h.log ∙ append_assoc old h.added (check ∷ []);
                runs = All-append (IsRunOf cmd) h.added (check ∷ []) h.runs ((h.same, (w, t)), tt);
              }
        ]

    verify_run-IsMeasured :
        (g : Gates) (w : W) → IsMeasured cmd old g → IsMeasured cmd old (verify_run world g w).1
    unfolding verify_run
    verify_run-IsMeasured g w h = elim (Bool-cases (world.canceled w)) [
      | inl c ↦ rw c h
      | inr c ↦ rw c (finished_run-IsMeasured g w h)
    ]

    retried-IsMeasured :
        (out : Text) (x : Run × Gates × W)
        → IsMeasured cmd old x.1
        → IsMeasured cmd old (retried world out x).1
    unfolding retried concluded
    retried-IsMeasured out (skipped, g, w) h = h
    retried-IsMeasured out (errored, g, w) h = h
    retried-IsMeasured out (output o, g, w) h = h

    first_run-IsMeasured :
        (x : Run × Gates × W) → IsMeasured cmd old x.1 → IsMeasured cmd old (first_run world x).1
    unfolding first_run concluded
    first_run-IsMeasured (skipped, g, w) h = h
    first_run-IsMeasured (errored, g, w) h = h
    first_run-IsMeasured (output out, g, w) h =
        elim (Bool-cases (is_run_failure out && not (is_run_timeout out) && is_infra_fault out)) [
          | inl c ↦
              rw c (retried-IsMeasured out (verify_run world g w) (verify_run-IsMeasured g w h))
          | inr c ↦ rw c h
        ]

  verify_termination-empty :
      (g : Gates) (last : Bool) (w : W)
      → is_empty g.cmd ≡ true
      → (verify_termination world g last w).1 ≡ g
  unfolding verify_termination
  verify_termination-empty g last w y = ground (arith, y)

  -- The log of the gates behind a verification at the finish, the retry behind an environment fault
  -- included, is the one before with checks behind it, and each of these names the gates' command, which
  -- was run in some world: it is recorded as passed only where the run neither failed nor timed out nor
  -- met a fault of the environment, as failed only where it failed without these two, and as
  -- inconclusive only where it could not start, timed out or met such a fault.
  pub verify_termination-IsMeasured :
      (g : Gates) (last : Bool) (w : W)
      → IsMeasured g.cmd (checks_of g.ev) (verify_termination world g last w).1
  verify_termination-IsMeasured g last w =
      let old = checks_of g.ev in
      let h : IsMeasured g.cmd old g = record {
        same = refl;
        added = [];
        log = sym (append-nil old);
        runs = tt;
      } in
      elim (Bool-cases (is_empty g.cmd)) [
        | inr n ↦
            subst (λ (x : (Text × Text) × Gates × W). IsMeasured g.cmd old x.1)
              (sym (verify_termination-first_run world g last w n))
              (first_run-IsMeasured g.cmd old (verify_run world g w)
                (verify_run-IsMeasured g.cmd old g w h))
        | inl y ↦ subst (IsMeasured g.cmd old) (sym (verify_termination-empty g last w y)) h
      ]
