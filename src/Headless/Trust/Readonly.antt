-- ===== src/Headless/Trust/Readonly.antt =====
-- The headless policy in front of the sandbox: the adapter, the policy and the gate together.
use driver_os.Base.{
  ◌&&◌, text_eq_iff, ◌≡◌, ◌≢◌, ◌⊎◌, refl, sym, ap, ◌∙◌, arith, Bool, true, false, List, [], ◌∷◌,
  Option, some, Text, codes, text_eq, inl, inr, Bool-cases,
}
use driver_os.Profile.Shell.{File, parse_simple_command}
use driver_os.Profile.Policy.{ApprovalPolicy, allows_exec}
use driver_os.Profile.Policy.Commands.{IsReadOnly, allows-IsReadOnly}
use driver_os.Sandbox.Gated.{Command, allow, ask, Result, blocked, Gated, exec}
use driver_os.Sandbox.Gated.Execution.{Gating, allowed, agreed, refused, declined, exec-Gating}
use driver_os.Headless.Trust.{adapted, approval_policy_adapter}

-- A command that the policy lets through: a line of the shell that parses to one read-only command, or
-- a direct execution that the policy allows.
abbrev pub IsPermitted : (Text → Option File) → ApprovalPolicy → Text → List Text → Type 0
IsPermitted parse p path args =
    ((line : Text) × (argv : List Text) × (path ≡ codes "sh")
      × (args ≡ codes "-c" ∷ line ∷ [])
      × (parse_simple_command (parse line) ≡ some argv)
      × IsReadOnly argv)
    ⊎ (allows_exec p path args ≡ true)

and-left : (a b : Bool) → (a && b) ≡ true → a ≡ true
and-left true b h = refl
and-left false b h = h

and-right : (a b : Bool) → (a && b) ≡ true → b ≡ true
and-right true b h = h
and-right false b h = cc

module _ (parse : Text → Option File) (p : ApprovalPolicy) where
  transport-IsPermitted :
      (path c line : Text)
      → adapted parse p path (c ∷ line ∷ []) ≡ allow
      → IsPermitted parse p path (c ∷ line ∷ [])
  unfolding adapted
  transport-IsPermitted path c line h =
      elim (Bool-cases (text_eq path (codes "sh") && text_eq c (codes "-c"))) [
        | inr e ↦ inr (ground (arith, e))
        | inl e ↦
            let (x, (argv, a, r)) = allows-IsReadOnly p (parse line) (ground (arith, e)) in
            inl (
              line,
              argv,
              (text_eq_iff path (codes "sh")).0 (and-left (text_eq path (codes "sh")) _ e),
              ap (λ x. x ∷ line ∷ [])
                  ((text_eq_iff c (codes "-c")).0 (and-right (text_eq path (codes "sh")) _ e)),
              a,
              r,
            )
      ]

  adapted-IsPermitted :
      (path : Text) (args : List Text)
      → adapted parse p path args ≡ allow
      → IsPermitted parse p path args
  unfolding adapted
  adapted-IsPermitted path [] h = inr (ground arith)
  adapted-IsPermitted path (c ∷ []) h = inr (ground arith)
  adapted-IsPermitted path (c ∷ line ∷ []) h = transport-IsPermitted path c line h
  adapted-IsPermitted path (c ∷ line ∷ d ∷ ds) h = inr (ground arith)

  adapted-never_asks : (path : Text) (args : List Text) → adapted parse p path args ≢ ask
  unfolding adapted
  adapted-never_asks path [] h = ground arith
  adapted-never_asks path (c ∷ []) h = ground arith
  adapted-never_asks path (c ∷ line ∷ []) h = ground arith
  adapted-never_asks path (c ∷ line ∷ d ∷ ds) h = ground arith

module _ {ℓ} {W : Type ℓ} (parse : Text → Option File) (p : ApprovalPolicy) where
  Gating-IsPermitted :
      (s : Gated W) (cmd : Command) (w : W)
      → s.policy cmd ≡ adapted parse p cmd.path cmd.args
      → {r : Option Result × W} → Gating s cmd w r
      → (IsPermitted parse p cmd.path cmd.args × (r ≡ s.inner.exec cmd w))
        ⊎ ((why : Text) × (r ≡ (some (blocked cmd why), w)))
  Gating-IsPermitted s cmd w e (allowed q) =
      inl (adapted-IsPermitted parse p cmd.path cmd.args (sym e ∙ q), refl)
  Gating-IsPermitted s cmd w e (agreed a v q _ _) =
      absurd (adapted-never_asks parse p cmd.path cmd.args (sym e ∙ q))
  Gating-IsPermitted s cmd w e (refused why q) = inr (why, refl)
  Gating-IsPermitted s cmd w e (declined why a v x q _ _ _) =
      absurd (adapted-never_asks parse p cmd.path cmd.args (sym e ∙ q))

  -- A sandbox behind the policy of a headless run, whoever may be there to approve: a command reaches
  -- it only as `sh -c` of a line that the shell parses to one read-only command, or as a direct
  -- execution that the policy allows; nobody is asked; and any other is answered with exit code 126 and
  -- leaves the world alone.
  pub exec-IsPermitted :
      (s : Gated W) (cmd : Command) (w : W)
      → s.policy ≡ approval_policy_adapter parse p
      → (IsPermitted parse p cmd.path cmd.args × (exec s cmd w ≡ s.inner.exec cmd w))
        ⊎ ((why : Text) × (exec s cmd w ≡ (some (blocked cmd why), w)))
  unfolding approval_policy_adapter
  exec-IsPermitted s cmd w e = Gating-IsPermitted s cmd w (ap (λ f. f cmd) e) (exec-Gating s cmd w)
