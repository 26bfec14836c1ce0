-- ===== src/Agent/Standing/Shown.antt =====
-- When a check is shown as a bare PASS.
use driver_os.Base.{
  ◌≡◌, ◌↔◌, ◌⊎◌, refl, arith, Bool, true, false, List, [], ◌∷◌, ◌++◌, some, Text, codes,
  text_eq_iff, is_empty, inl, inr, Bool-cases, sym, ap, ◌∙◌,
}
use driver_os.Agent.Evidence.{EvidenceStatus, passed}
use driver_os.Agent.Observation.{Cause}
use driver_os.Agent.Tracker.{VerificationRecord, TurnTracker}
use driver_os.Agent.Standing.{
  word_of, verification_word, freshness_tag, standing_word, gate_lines, render_verification,
}

freshness_tag-empty :
    (run_tree cur_tree : Text) (unknown : Bool)
    → (freshness_tag run_tree cur_tree unknown ≡ [])
      ↔ ((run_tree ≡ []) ⊎ ((unknown ≡ false) × (run_tree ≡ cur_tree)))
unfolding freshness_tag
freshness_tag-empty run_tree cur_tree unknown =
    (ground (arith, text_eq_iff run_tree cur_tree), ground (arith, text_eq_iff run_tree cur_tree))

word_of-pass :
    (s : EvidenceStatus) (c : Cause) (x : Text)
    → (word_of s c ++ x ≡ codes "PASS") ↔ ((s ≡ passed) × (x ≡ []))
word_of-pass s c x = (ground arith, ground arith)

-- The tree that a record ran on is not known, or it is the working tree.
abbrev pub IsFresh : VerificationRecord → Text → Bool → Type 0
IsFresh r cur_tree unknown = (r.tree ≡ []) ⊎ ((unknown ≡ false) × (r.tree ≡ cur_tree))

fresh :
    (r : VerificationRecord) (cur_tree : Text) (unknown : Bool)
    → (false ≡ true) ⊎ IsFresh r cur_tree unknown
    → IsFresh r cur_tree unknown
fresh r cur_tree unknown (inl e) = cc e
fresh r cur_tree unknown (inr f) = f

standing_word-exact :
    (r : VerificationRecord) (cur_tree : Text) (unknown unchanged : Bool)
    → (standing_word r cur_tree unknown unchanged ≡ codes "PASS")
      ↔ ((r.status ≡ passed) × ((unchanged ≡ true) ⊎ IsFresh r cur_tree unknown))
unfolding standing_word verification_word
standing_word-exact r cur_tree unknown true =
    let w = word_of-pass r.status r.cause [] in
    (λ e. ((w.0 e).0, inl refl), λ (a, b). w.1 (a, refl))
standing_word-exact r cur_tree unknown false =
    let w = word_of-pass r.status r.cause (freshness_tag r.tree cur_tree unknown) in
    let f = freshness_tag-empty r.tree cur_tree unknown in
    (
      λ e. let (a, b) = w.0 e in (a, inr (f.0 b)),
      λ (a, b). w.1 (a, f.1 (fresh r cur_tree unknown b)),
    )

cons-head : {x y : Text} {xs ys : List Text} → x ∷ xs ≡ y ∷ ys → x ≡ y
cons-head h = cc h

append-cancel : (xs ys zs : Text) → xs ++ ys ≡ xs ++ zs → ys ≡ zs
append-cancel [] ys zs h = h
append-cancel (x ∷ xs) ys zs h = append-cancel xs ys zs (cc h)

-- The gate's line, with this behind the arrow.
abbrev pub gate_line : Text → Text → Text
gate_line command word = codes "gate: `" ++ command ++ codes "` → " ++ word

gate_line-cancel : (command v w : Text) → gate_line command v ≡ gate_line command w → v ≡ w
gate_line-cancel command v w h = append-cancel (codes "gate: `" ++ command ++ codes "` → ") v w h

module _ (skip_filter : Text → Text) (t : TurnTracker) (verify_cmd cur_tree : Text)
    (unknown unchanged : Bool) where
  -- With a verification command that has run, the gate's line is the first.
  render_verification-first :
      is_empty verify_cmd ≡ false
      → is_empty t.last_verify.command ≡ false
      → (rest : List Text) × (render_verification skip_filter
            (some t)
            verify_cmd
            cur_tree
            unknown
            unchanged
          ≡ gate_line t.last_verify.command (standing_word t.last_verify cur_tree unknown unchanged)
            ∷ rest)
  unfolding render_verification gate_lines
  render_verification-first v c = elim (Bool-cases (is_empty t.last_verify.output)) [
    | inl e ↦ rw (v, c, e) (_, refl)
    | inr e ↦ rw (v, c, e) (_, refl)
  ]

  -- With a verification command that has run, the first line of the last verification is the gate's with
  -- a bare PASS exactly when its record passed and either the tree is unchanged since the session start,
  -- or the record does not know its tree, or the working tree is known and is that tree.
  pub render_verification-pass :
      is_empty verify_cmd ≡ false
      → is_empty t.last_verify.command ≡ false
      → ((rest : List Text) × (render_verification skip_filter
              (some t)
              verify_cmd
              cur_tree
              unknown
              unchanged
            ≡ gate_line t.last_verify.command (codes "PASS") ∷ rest))
        ↔ ((t.last_verify.status ≡ passed)
            × ((unchanged ≡ true) ⊎ IsFresh t.last_verify cur_tree unknown))
  render_verification-pass v c =
      let command = t.last_verify.command in
      let x = standing_word-exact t.last_verify cur_tree unknown unchanged in
      let (rest, s) = render_verification-first v c in
      (
        λ (more, e). x.0 (gate_line-cancel command _ _ (cons-head (sym s ∙ e))),
        λ h. (rest, s ∙ ap (λ w. gate_line command w ∷ rest) (x.1 h)),
      )
