-- ===== src/Agent/Review/Standing.antt =====
-- Which claims come to block.
use driver_os.Base.{
  ℕ, ◌-◌, ◌≤◌, ◌≡◌, ◌⊎◌, inl, inr, refl, sym, ap, ◌∙◌, arith, Bool, true, false, not, ◌&&◌, ◌||◌,
  Option, none, some, Text, ltb, is_empty, trim_space, Bool-cases,
}
use driver_os.Agent.Evidence.{Fate, pending}
use driver_os.Agent.Observation.{is_run_failure}
use driver_os.Agent.Review.{
  Claim, Reviewed, Workspace, block_confidence, is_blocker, by_confidence, settled, is_tree,
  after_run, escalate_from, escalate, laddered, blocker_ladder, is_grounded, classify,
}

abbrev pub is_pending : Fate → Bool
is_pending pending = true
is_pending _ = false

by_confidence-backed :
    (f : Claim) → is_pending (by_confidence f).fate ≡ true → block_confidence ≤ f.confidence
unfolding by_confidence
by_confidence-backed f p = ground arith

module _ {ℓ} {W : Type ℓ} (space : Workspace W) where
  -- The repro of a claim ran and failed, and changed neither the tree nor a fenced path.
  pub record HasFailed (f : Claim) (w : W) : Type ℓ where
    pub pre : Text
    pub out : Text
    pub before : space.write_tree w ≡ some pre
    pub ran : (space.run (trim_space f.repro_cmd) w).0 ≡ some out
    pub failing : is_run_failure out ≡ true
    pub kept : is_tree (space.write_tree (space.run (trim_space f.repro_cmd) w).1) pre ≡ true
    pub fenced : space.drift (space.run (trim_space f.repro_cmd) w).1 ≡ false

  settled-failing :
      (f : Claim) (o : Option Text) (r : Reviewed)
      → settled f o ≡ some r
      → is_pending r.fate ≡ true
      → (out : Text) × (o ≡ some out) × (is_run_failure out ≡ true)
  unfolding settled
  settled-failing f none r e p = cc e
  settled-failing f (some out) r e p = (out, refl, ground (arith, e, p))

  after_run-HasFailed :
      (f : Claim) (pre : Text) (w : W) (r : Reviewed)
      → space.write_tree w ≡ some pre
      → (after_run space f pre (space.run (trim_space f.repro_cmd) w)).0 ≡ some r
      → is_pending r.fate ≡ true
      → HasFailed f w
  unfolding after_run
  after_run-HasFailed f pre w r b e p =
      let v = (space.run (trim_space f.repro_cmd) w).1 in
      elim (Bool-cases (not (is_tree (space.write_tree v) pre) || space.drift v)) [
        | inl y ↦ ground (arith, y, e, p)
        | inr y ↦
            let s = settled-failing f (space.run (trim_space f.repro_cmd) w).0 r (rw y at e) p in
            record {
              pre = pre;
              out = s.0;
              before = b;
              ran = s.1;
              failing = s.2;
              kept = ground (arith, y);
              fenced = ground (arith, y);
            }
      ]

  escalate_from-HasFailed :
      (f : Claim) (o : Option Text) (w : W) (r : Reviewed)
      → space.write_tree w ≡ o
      → (escalate_from space f o w).0 ≡ some r
      → is_pending r.fate ≡ true
      → HasFailed f w
  unfolding escalate_from
  escalate_from-HasFailed f none w r b e p = cc e
  escalate_from-HasFailed f (some pre) w r b e p = after_run-HasFailed f pre w r b e p

  laddered-backed :
      (f : Claim) (n : ℕ) (w : W) (x : Option Reviewed × W)
      → ((r : Reviewed) → x.0 ≡ some r → is_pending r.fate ≡ true → HasFailed f w)
      → is_pending (laddered space f n x).0.fate ≡ true
      → HasFailed f w ⊎ (block_confidence ≤ f.confidence)
  unfolding laddered
  laddered-backed f n w (none, u) h p = inr (by_confidence-backed f p)
  laddered-backed f n w (some r, u) h p = inl (h r refl p)

  blocker_ladder-backed :
      (f : Claim) (n : ℕ) (w : W)
      → is_pending (blocker_ladder space f n w).0.fate ≡ true
      → HasFailed f w ⊎ (block_confidence ≤ f.confidence)
  unfolding blocker_ladder escalate
  blocker_ladder-backed f n w p =
      let x = escalate_from space f (space.write_tree w) w in
      elim (Bool-cases (not (is_empty (trim_space f.repro_cmd)) && ltb 0 n)) [
        | inl y ↦
            laddered-backed f (n - 1) w x
              (λ r. escalate_from-HasFailed f (space.write_tree w) w r refl) (rw y at p)
        | inr y ↦ inr (by_confidence-backed f (rw y at p))
      ]

  classify-stages :
      (f : Claim) (n : ℕ) (w : W)
      → is_pending (classify space f n w).0.fate ≡ true
      → (is_empty (trim_space f.quote) ≡ false)
        × (is_grounded space f w ≡ true)
        × (is_blocker f ≡ true)
        × (classify space f n w ≡ blocker_ladder space f n w)
  unfolding classify
  classify-stages f n w p = (ground arith, ground arith, ground arith, ground arith)

  -- A claim comes to block only when it quotes something, the quote stands in the file that it names
  -- where that file exists, its severity is a blocker's, and either its repro command was run on the
  -- workspace, which could be snapshotted, and failed without changing the tree or a fenced path, or its
  -- confidence is a blocking one.
  pub classify-backed :
      (f : Claim) (n : ℕ) (w : W)
      → is_pending (classify space f n w).0.fate ≡ true
      → (is_empty (trim_space f.quote) ≡ false)
        × (is_grounded space f w ≡ true)
        × (is_blocker f ≡ true)
        × (HasFailed f w ⊎ (block_confidence ≤ f.confidence))
  classify-backed f n w p =
      let (q, g, b, e) = classify-stages f n w p in
      let h = ap (λ (x : Reviewed × ℕ × W). is_pending x.0.fate) (sym e) ∙ p in
      (q, g, b, blocker_ladder-backed f n w h)
