-- ===== src/Sandbox/Gated/Execution.antt =====
-- When a command reaches the sandbox behind the gate.
use mathlib.Core.Path.{subst}
use driver_os.Base.{
  ◌≡◌, ◌≢◌, ◌⊎◌, Bool-cases, inl, inr, refl, ap, arith, true, false, List, [], ◌∷◌, ◌++◌, Option,
  none, some, Text, text_eq, text_eq_iff, has_prefix, contains, All, trim_space,
}
use driver_os.Sandbox.Gated.{
  Verdict, ask, allow, deny, Command, Result, display, blocked, safe_prefixes, chaining, has_token,
  has_shell_chaining, trusts, default_policy, Sandbox, Answer, answer, unavailable, Approver, Gated,
  new_gated, answered, confirm, ruled, exec,
}

-- The text is one of these.
pub data IsOneOf : Text → List Text → Type 0 where
  here : {x : Text} {xs : List Text} → IsOneOf x (x ∷ xs)
  there : {x y : Text} {xs : List Text} → IsOneOf x xs → IsOneOf x (y ∷ xs)

-- A line that holds no token of a second command and begins with a trusted prefix.
pub record IsPlain (line : Text) : Type 0 where
  no_chaining : All (λ tok. contains line tok ≡ false) chaining
  trusted : Text
  is_trusted : IsOneOf trusted safe_prefixes
  begins : (line ≡ trusted) ⊎ (has_prefix line (trusted ++ b' ' ∷ []) ≡ true)

has_token-All :
    (line : Text) (toks : List Text)
    → has_token line toks ≡ false
    → All (λ tok. contains line tok ≡ false) toks
unfolding has_token
has_token-All line [] h = tt
has_token-All line (tok ∷ toks) h = (ground arith, has_token-All line toks (ground arith))

trusts-IsOneOf :
    (line : Text) (ps : List Text)
    → trusts line ps ≡ allow
    → (p : Text) × IsOneOf p ps × ((line ≡ p) ⊎ (has_prefix line (p ++ b' ' ∷ []) ≡ true))
unfolding trusts
trusts-IsOneOf line [] h = ground arith
trusts-IsOneOf line (p ∷ ps) h = elim (Bool-cases (text_eq line p)) [
  | inl y ↦ (p, here, inl ((text_eq_iff line p).0 y))
  | inr n ↦ elim (Bool-cases (has_prefix line (p ++ b' ' ∷ []))) [
    | inl y ↦ (p, here, inr y)
    | inr m ↦ let (q, o, b) = trusts-IsOneOf line ps (ground (arith, n, m)) in (q, there o, b)
  ]
]

trusts-never_denies : (line : Text) (ps : List Text) → trusts line ps ≢ deny
unfolding trusts
trusts-never_denies line [] h = ground arith
trusts-never_denies line (p ∷ ps) h = trusts-never_denies line ps (ground arith)

default_policy-IsPlain :
    (cmd : Command) → default_policy cmd ≡ allow → IsPlain (trim_space (display cmd))
unfolding default_policy has_shell_chaining
default_policy-IsPlain cmd h =
    let line = trim_space (display cmd) in
    let (p, o, b) = trusts-IsOneOf line safe_prefixes (ground arith) in
    record {
      no_chaining = has_token-All line chaining (ground arith);
      trusted = p;
      is_trusted = o;
      begins = b;
    }

default_policy-never_denies : (cmd : Command) → default_policy cmd ≢ deny
unfolding default_policy
default_policy-never_denies cmd h =
    trusts-never_denies (trim_space (display cmd)) safe_prefixes (ground arith)

verdict_cases : (v : Verdict) → (v ≡ allow) ⊎ ((v ≡ ask) ⊎ (v ≡ deny))
verdict_cases allow = inl refl
verdict_cases ask = inr (inl refl)
verdict_cases deny = inr (inr refl)

module _ {ℓ} {W : Type ℓ} where
  -- How an execution can end: the command reached the sandbox, since the policy allows it or since the
  -- approver was asked and agreed; or it did not, with exit code 126, and only the approver, where
  -- one was asked, saw the world.
  pub data Gating (s : Gated W) (cmd : Command) (w : W) : Option Result × W → Type ℓ where
    allowed : s.policy cmd ≡ allow → Gating s cmd w (s.inner.exec cmd w)
    agreed :
        (a : Approver W) (v : W)
        → s.policy cmd ≡ ask
        → s.approver ≡ some a
        → a (record { command = cmd; display = display cmd }) w ≡ (answer true, v)
        → Gating s cmd w (s.inner.exec cmd v)
    refused :
        (why : Text)
        → (s.policy cmd ≡ deny) ⊎ ((s.policy cmd ≡ ask) × (s.approver ≡ none))
        → Gating s cmd w (some (blocked cmd why), w)
    declined :
        (why : Text) (a : Approver W) (v : W) (x : Answer)
        → s.policy cmd ≡ ask
        → s.approver ≡ some a
        → a (record { command = cmd; display = display cmd }) w ≡ (x, v)
        → x ≢ answer true
        → Gating s cmd w (some (blocked cmd why), v)

  answered-Gating :
      (s : Gated W) (cmd : Command) (w : W) (a : Approver W) (x : Answer × W)
      → s.policy cmd ≡ ask
      → s.approver ≡ some a
      → a (record { command = cmd; display = display cmd }) w ≡ x
      → Gating s cmd w (answered s.inner cmd x)
  unfolding answered
  answered-Gating s cmd w a (answer true, v) p q r = agreed a v p q r
  answered-Gating s cmd w a (answer false, v) p q r =
      declined _ a v (answer false) p q r (λ e. ground arith)
  answered-Gating s cmd w a (unavailable e, v) p q r =
      declined _ a v (unavailable e) p q r (λ e. ground arith)

  confirm-Gating :
      (s : Gated W) (cmd : Command) (w : W) (o : Option (Approver W))
      → s.policy cmd ≡ ask
      → s.approver ≡ o
      → Gating s cmd w (confirm s.inner o cmd w)
  unfolding confirm
  confirm-Gating s cmd w none p q = refused _ (inr (p, q))
  confirm-Gating s cmd w (some a) p q = answered-Gating s cmd w a _ p q refl

  ruled-Gating :
      (s : Gated W) (cmd : Command) (w : W) (v : Verdict)
      → s.policy cmd ≡ v
      → Gating s cmd w (ruled s v cmd w)
  unfolding ruled
  ruled-Gating s cmd w allow p = allowed p
  ruled-Gating s cmd w deny p = refused _ (inl p)
  ruled-Gating s cmd w ask p =
      subst (λ o. Gating s cmd w (confirm s.inner o cmd w)) refl
        (confirm-Gating s cmd w s.approver p refl)

  -- Every execution through the gate ends in one of the four ways.
  pub exec-Gating : (s : Gated W) (cmd : Command) (w : W) → Gating s cmd w (exec s cmd w)
  unfolding exec
  exec-Gating s cmd w = ruled-Gating s cmd w (s.policy cmd) refl

  -- With the default policy and nobody to ask, a command reaches the sandbox only when its shown line
  -- is plain; any other is answered with exit code 126 and leaves the world alone.
  pub exec-unattended :
      (inner : Sandbox W) (cmd : Command) (w : W)
      → let r = exec (new_gated inner none none) cmd w in
        (IsPlain (trim_space (display cmd)) × (r ≡ inner.exec cmd w))
        ⊎ ((why : Text) × (r ≡ (some (blocked cmd why), w)))
  unfolding exec new_gated ruled confirm
  exec-unattended inner cmd w = elim (verdict_cases (default_policy cmd)) [
    | inl e ↦
        inl (default_policy-IsPlain cmd e, ap (λ v. ruled (new_gated inner none none) v cmd w) e)
    | inr (inl e) ↦ inr (_, ap (λ v. ruled (new_gated inner none none) v cmd w) e)
    | inr (inr e) ↦ absurd (default_policy-never_denies cmd e)
  ]
