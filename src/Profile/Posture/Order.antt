-- ===== src/Profile/Posture/Order.antt =====
-- The order that the `Satisfies` methods make of approvals and of whole postures.
use driver_os.Base.{
  ◌≡◌, ◌≢◌, ◌↔◌, ◌≤◌, refl, sym, ap, ◌∙◌, arith, true, none, some, Text, text_eq, text_eq_iff,
  Option-cases, inl, inr,
}
use driver_os.Profile.Posture.{
  Trust, trusted_local, reviewed_local, container, untrusted, trust_name, parse_trust,
  sandbox_value, isolation_value, worktree_value, secrets_value, network_value, sandbox_satisfies,
  isolation_satisfies, worktree_satisfies, secrets_satisfies, network_satisfies, Approval,
  approval_none, approval_deny_all, approval_classifier_gated, approval_satisfies, Posture,
  floor_for, descriptors, first_violation, enforce_parsed, enforce,
}

-- Approvals: whatever satisfies a mode that satisfies a floor satisfies the floor; two modes that
-- satisfy each other are the same; a mode satisfies itself unless it is classifier-gated; deny-all
-- satisfies every floor, and every mode satisfies the floor of none.
pub record IsApprovalOrder : Type 0 where
  transitive :
      (a b c : Approval)
      → approval_satisfies a b ≡ true
      → approval_satisfies b c ≡ true
      → approval_satisfies a c ≡ true
  antisymmetric :
      (a b : Approval) → approval_satisfies a b ≡ true → approval_satisfies b a ≡ true → a ≡ b
  reflexive : (a : Approval) → (approval_satisfies a a ≡ true) ↔ (a ≢ approval_classifier_gated)
  strongest : (a : Approval) → approval_satisfies approval_deny_all a ≡ true
  weakest : (a : Approval) → approval_satisfies a approval_none ≡ true

-- The `Satisfies` method of approvals is a partial order on the modes other than classifier-gated,
-- with deny-all on top and no approval at the bottom; classifier-gated alone does not satisfy itself.
approval_satisfies-IsApprovalOrder : IsApprovalOrder
unfolding approval_satisfies
approval_satisfies-IsApprovalOrder = record {
  transitive = λ a b c p q. ground arith;
  antisymmetric = λ a b p q. ground arith;
  reflexive = λ a. ground arith;
  strongest = λ a. ground arith;
  weakest = λ a. ground arith;
}

-- A posture is at a floor in all six dimensions.
pub record Meets (c f : Posture) : Type 0 where
  sandbox : sandbox_value f.sandbox ≤ sandbox_value c.sandbox
  pub isolation : isolation_value f.min_isolation ≤ isolation_value c.min_isolation
  pub worktree : worktree_value f.worktree ≤ worktree_value c.worktree
  approval : approval_satisfies c.approval f.approval ≡ true
  secrets : secrets_value f.secrets ≤ secrets_value c.secrets
  pub network : network_value f.network ≤ network_value c.network

first_violation-Meets :
    (t : Text) (c f : Posture) → first_violation t c f descriptors ≡ none → Meets c f
unfolding first_violation descriptors sandbox_satisfies isolation_satisfies worktree_satisfies
    secrets_satisfies network_satisfies
first_violation-Meets t c f h = record {
  sandbox = ground arith;
  isolation = ground arith;
  worktree = ground arith;
  approval = ground arith;
  secrets = ground arith;
  network = ground arith;
}

Meets-first_violation :
    (t : Text) (c f : Posture) → Meets c f → first_violation t c f descriptors ≡ none
unfolding first_violation descriptors sandbox_satisfies isolation_satisfies worktree_satisfies
    secrets_satisfies network_satisfies
Meets-first_violation t c f m = ground arith

parse_trust-trust_name : (t : Trust) → parse_trust (trust_name t) ≡ some t
unfolding parse_trust text_eq
parse_trust-trust_name trusted_local = refl
parse_trust-trust_name reviewed_local = refl
parse_trust-trust_name container = refl
parse_trust-trust_name untrusted = refl

parse_trust-exact : (s : Text) (t : Trust) → parse_trust s ≡ some t → s ≡ trust_name t
unfolding parse_trust trust_name
parse_trust-exact s t e = ground (
  arith,
  text_eq_iff s (trust_name trusted_local),
  text_eq_iff s (trust_name reviewed_local),
  text_eq_iff s (trust_name container),
  text_eq_iff s (trust_name untrusted),
)

enforce-some :
    (s : Text) (c : Posture) (t : Trust)
    → parse_trust s ≡ some t
    → enforce s c ≡ first_violation s c (floor_for t) descriptors
unfolding enforce enforce_parsed
enforce-some s c t e = ap (enforce_parsed s c) e

pub enforce-trust_name :
    (t : Trust) (c : Posture) → enforce (trust_name t) c ≡ none → Meets c (floor_for t)
enforce-trust_name t c e =
    first_violation-Meets (trust_name t) c (floor_for t)
      (sym (enforce-some (trust_name t) c t (parse_trust-trust_name t)) ∙ e)

enforce-none : (s : Text) (c : Posture) → parse_trust s ≡ none → enforce s c ≢ none
unfolding enforce enforce_parsed
enforce-none s c e q = ground (arith, sym (ap (enforce_parsed s c) e) ∙ q)

-- Enforcement accepts a posture for exactly the four canonical names, and for such a name exactly when
-- the posture meets the floor of that profile in every dimension.
pub enforce-exact :
    (s : Text) (c : Posture)
    → (enforce s c ≡ none) ↔ ((t : Trust) × (s ≡ trust_name t) × Meets c (floor_for t))
enforce-exact s c = (
  λ e. elim (Option-cases (parse_trust s)) [
    | inl n ↦ absurd (enforce-none s c n e)
    | inr (t, q) ↦ (
      t,
      parse_trust-exact s t q,
      first_violation-Meets s c (floor_for t) (sym (enforce-some s c t q) ∙ e),
    )
  ],
  λ (t, q, m).
      enforce-some s c t (ap parse_trust q ∙ parse_trust-trust_name t)
      ∙ Meets-first_violation s c (floor_for t) m,
)

Meets-untrusted : (c : Posture) (t : Trust) → Meets c (floor_for untrusted) → Meets c (floor_for t)
unfolding floor_for approval_satisfies
Meets-untrusted c t m = record {
  sandbox = ground (arith, m.sandbox);
  isolation = ground (arith, m.isolation);
  worktree = ground (arith, m.worktree);
  approval = ground (arith, m.approval);
  secrets = ground (arith, m.secrets);
  network = ground (arith, m.network);
}

-- A posture that is accepted for the untrusted profile is accepted for every profile.
pub enforce-untrusted :
    (c : Posture) (t : Trust)
    → enforce (trust_name untrusted) c ≡ none
    → enforce (trust_name t) c ≡ none
enforce-untrusted c t e =
    let q = parse_trust-trust_name in
    enforce-some (trust_name t) c t (q t)
    ∙ Meets-first_violation (trust_name t) c (floor_for t) (
        Meets-untrusted c t (
          first_violation-Meets (trust_name untrusted) c (floor_for untrusted)
            (sym (enforce-some (trust_name untrusted) c untrusted (q untrusted)) ∙ e)))
