-- ===== src/Agent/Repro/Declare/Red.antt =====
-- What a reproduction that is validated has shown.
use driver_os.Base.{
  ◌≡◌, refl, Bool, true, false, Option, none, some, Text, is_empty, trim_space, Bool-cases, inl,
  inr,
}
use driver_os.Agent.Observation.{is_run_failure, is_run_timeout}
use driver_os.Agent.Repro.{
  ReproGate, Workspace, ReproError, empty_cmd, already_locked, escapes_root, not_written,
  no_base_tree, no_snapshot, base_not_restored, not_new, no_directory, not_copied, not_restored,
  not_run, timed_out, passes_on_base, fails_to_build, Said, said, failed, is_locked, safe_join,
}
use driver_os.Agent.Repro.Declare.{
  Stage, restore, judged, locked, run_on_base, copy_to_base, validate, deferred, declare_tree,
  declare_read, declare_path, declare_repro, grade_repro_red, is_build_failure,
}

module _ {ℓ} {W : Type ℓ} (space : Workspace W) where
  -- The base tree with the data in it, on which the command is run.
  abbrev pub on_base : Text → Text → ReproGate → W → W
  on_base rel d g w =
      (space.write rel d (space.make_dir rel (space.restore_tree g.run_base_tree w).1).1).1

  -- A run of the command in this world that failed, in time and not in its build; the gate is locked on
  -- it.
  pub record IsRed (rel cmd d : Text) (world : W) (g h : ReproGate) : Type ℓ where
    pub out : Text
    pub ran : (space.run cmd world).0 ≡ some out
    pub failing : is_run_failure out ≡ true
    pub in_time : is_run_timeout out ≡ false
    pub builds : is_build_failure (grade_repro_red out) ≡ false
    pub gate : h ≡ locked space rel cmd d out g

  -- Around the run: the base tree was restored, the file was new in it and was copied, and the restore
  -- of the current tree behind the run succeeded.
  pub record IsStaged (cur rel cmd d : Text) (g : ReproGate) (w : W) : Type 0 where
    pub based : (space.restore_tree g.run_base_tree w).0 ≡ true
    pub new : space.exists rel (space.restore_tree g.run_base_tree w).1 ≡ false
    pub made : (space.make_dir rel (space.restore_tree g.run_base_tree w).1).0 ≡ true
    pub copied :
        (space.write rel d (space.make_dir rel (space.restore_tree g.run_base_tree w).1).1).0 ≡ true
    pub behind : (space.restore_tree cur (space.run cmd (on_base rel d g w)).1).0 ≡ true

  -- A refusal leaves the gate alone. `P` is what else a proof has shown.
  pub data Declared (P : Type 0) (rel cmd d : Text) (v : W) (g : ReproGate)
      : Said → ReproGate → Type ℓ where
    refused : (x : ReproError) → Declared P rel cmd d v g (failed x) g
    proven :
        (t : Text) (h : ReproGate) → IsRed rel cmd d v g h → P → Declared P rel cmd d v g (said t) h

  module _ (P : Type 0) (cur rel cmd d : Text) (g : ReproGate) where
    judged-Declared :
        (w : W) (o : Option Text)
        → P
        → (space.run cmd w).0 ≡ o
        → Declared P rel cmd d w g (judged space rel cmd d g o).0 (judged space rel cmd d g o).1
    unfolding judged
    judged-Declared w none x e = refused not_run
    judged-Declared w (some out) x e = elim (Bool-cases (is_run_timeout out)) [
      | inl t ↦ rw t (refused timed_out)
      | inr t ↦ elim (Bool-cases (is_run_failure out)) [
        | inr f ↦ rw (t, f) (refused passes_on_base)
        | inl f ↦ elim (Bool-cases (is_build_failure (grade_repro_red out))) [
          | inl b ↦ rw (t, f, b) (refused fails_to_build)
          | inr b ↦
              rw (t, f, b)
                (proven _ _
                  (record { out = out; ran = e; failing = f; in_time = t; builds = b; gate = refl })
                  x)
        ]
      ]
    ]

    abbrev Stands : W → Stage space → Type ℓ
    Stands v s = Declared P rel cmd d v g s.answer s.gate

    run_on_base-Stands :
        (restored : Bool) (w : W)
        → ((space.restore_tree cur (space.run cmd w).1).0 ≡ true → P)
        → Stands w (run_on_base space cur rel cmd d restored g w)
    unfolding run_on_base restore
    run_on_base-Stands restored w x =
        elim (Bool-cases (space.restore_tree cur (space.run cmd w).1).0) [
          | inl b ↦ rw b (judged-Declared w (space.run cmd w).0 (x b) refl)
          | inr b ↦ rw b (refused not_restored)
        ]

    copy_to_base-Stands :
        (restored : Bool) (w : W)
        → ((space.make_dir rel w).0 ≡ true
            → (space.write rel d (space.make_dir rel w).1).0 ≡ true
            → (space.restore_tree cur
                (space.run cmd (space.write rel d (space.make_dir rel w).1).1).1).0
              ≡ true
            → P)
        → Stands
            (space.write rel d (space.make_dir rel w).1).1
            (copy_to_base space cur rel cmd d restored g w)
    unfolding copy_to_base
    copy_to_base-Stands restored w x = elim (Bool-cases (space.make_dir rel w).0) [
      | inr m ↦ rw m (refused no_directory)
      | inl m ↦ elim (Bool-cases (space.write rel d (space.make_dir rel w).1).0) [
        | inr c ↦ rw (m, c) (refused not_copied)
        | inl c ↦ rw (m, c) (run_on_base-Stands restored _ (x m c))
      ]
    ]

    validate-Stands :
        (w : W)
        → (IsStaged cur rel cmd d g w → P)
        → Stands (on_base rel d g w) (validate space cur rel cmd d g w)
    unfolding validate restore
    validate-Stands w k = elim (Bool-cases (space.restore_tree g.run_base_tree w).0) [
      | inr b ↦ rw b (refused base_not_restored)
      | inl b ↦ elim (Bool-cases (space.exists rel (space.restore_tree g.run_base_tree w).1)) [
        | inl x ↦ rw (b, x) (refused not_new)
        | inr x ↦
            rw (b, x)
              (copy_to_base-Stands _ _
                (λ m c s. k (record { based = b; new = x; made = m; copied = c; behind = s })))
      ]
    ]

    deferred-Declared :
        (v : W) (s : Stage space)
        → Stands v s
        → Declared P rel cmd d v g (deferred space cur s).0 (deferred space cur s).1
    unfolding deferred
    deferred-Declared v s h = elim (Bool-cases s.restored) [ inl r ↦ rw r h | inr r ↦ rw r h ]

  -- A declaration that ends well: its path stays in the root, the file has data there, the current tree
  -- has a snapshot and the base tree is known.
  pub record IsProven (p cmd : Text) (g h : ReproGate) (w : W) : Type ℓ where
    pub rel : Text
    pub found : Text
    pub path : safe_join p ≡ some rel
    pub written : space.read rel w ≡ some found
    pub unlocked : is_locked g ≡ false
    pub based : is_empty g.run_base_tree ≡ false
    pub cur : Text
    pub snapshot : space.write_tree w ≡ some cur
    pub staged : IsStaged cur rel cmd found g w
    pub red : IsRed rel cmd found (on_base rel found g w) g h

  pub data Outcome (p cmd : Text) (g : ReproGate) (w : W) : Said → ReproGate → Type ℓ where
    left : (x : ReproError) → Outcome p cmd g w (failed x) g
    locks : (t : Text) (h : ReproGate) → IsProven p cmd g h w → Outcome p cmd g w (said t) h

  proven-Outcome :
      (p cmd rel d cur : Text) (g : ReproGate) (w : W)
      → is_empty g.run_base_tree ≡ false
      → space.write_tree w ≡ some cur
      → is_locked g ≡ false
      → safe_join p ≡ some rel
      → space.read rel w ≡ some d
      → {a : Said} {h : ReproGate}
      → Declared (IsStaged cur rel cmd d g w) rel cmd d (on_base rel d g w) g a h
      → Outcome p cmd g w a h
  proven-Outcome p cmd rel d cur g w b c u e k (refused x) = left x
  proven-Outcome p cmd rel d cur g w b c u e k (proven t h r s) = locks t h (record {
    rel = rel;
    found = d;
    path = e;
    written = k;
    unlocked = u;
    based = b;
    cur = cur;
    snapshot = c;
    staged = s;
    red = r;
  })

  declare_tree-Outcome :
      (p cmd rel d : Text) (g : ReproGate) (w : W) (o : Option Text)
      → is_empty g.run_base_tree ≡ false
      → space.write_tree w ≡ o
      → is_locked g ≡ false
      → safe_join p ≡ some rel
      → space.read rel w ≡ some d
      → Outcome p cmd g w
          (declare_tree space rel cmd d g w o).0
          (declare_tree space rel cmd d g w o).1
  unfolding declare_tree
  declare_tree-Outcome p cmd rel d g w none b c u e k = left no_snapshot
  declare_tree-Outcome p cmd rel d g w (some cur) b c u e k =
      proven-Outcome p cmd rel d cur g w b c u e k (
        deferred-Declared (IsStaged cur rel cmd d g w) cur rel cmd d g (on_base rel d g w)
          (validate space cur rel cmd d g w)
          (validate-Stands (IsStaged cur rel cmd d g w) cur rel cmd d g w (λ s. s)))

  declare_read-Outcome :
      (p cmd rel : Text) (g : ReproGate) (w : W) (o : Option Text)
      → is_locked g ≡ false
      → safe_join p ≡ some rel
      → space.read rel w ≡ o
      → Outcome p cmd g w (declare_read space rel cmd o g w).0 (declare_read space rel cmd o g w).1
  unfolding declare_read
  declare_read-Outcome p cmd rel g w none u e k = left not_written
  declare_read-Outcome p cmd rel g w (some d) u e k = elim (Bool-cases (is_empty g.run_base_tree)) [
    | inl b ↦ rw b (left no_base_tree)
    | inr b ↦ rw b (declare_tree-Outcome p cmd rel d g w (space.write_tree w) b refl u e k)
  ]

  declare_path-Outcome :
      (p cmd : Text) (g : ReproGate) (w : W) (o : Option Text)
      → is_locked g ≡ false
      → safe_join p ≡ o
      → Outcome p cmd g w (declare_path space cmd o g w).0 (declare_path space cmd o g w).1
  unfolding declare_path
  declare_path-Outcome p cmd g w none u e = left escapes_root
  declare_path-Outcome p cmd g w (some rel) u e =
      declare_read-Outcome p cmd rel g w (space.read rel w) u e refl

  -- A declaration of a reproduction ends in one of two ways, whatever the workspace: it fails, and the
  -- gate is as it was; or the gate was not locked, the path stays in the root, the file can be read, the
  -- current tree has a snapshot, the restore of the run's base tree succeeded, the file was new there and
  -- was copied, the command ran on that and failed, did not time out and did not fail in the build, the
  -- restore of the current tree behind the run succeeded, and the gate is locked on that path, command
  -- and data.
  pub declare_repro-Outcome :
      (p cmd : Text) (g : ReproGate) (w : W)
      → Outcome p cmd g w (declare_repro space p cmd g w).0 (declare_repro space p cmd g w).1
  unfolding declare_repro
  declare_repro-Outcome p cmd g w = elim (Bool-cases (is_empty (trim_space cmd))) [
    | inl c ↦ rw c (left empty_cmd)
    | inr c ↦ elim (Bool-cases (is_locked g)) [
      | inl l ↦ rw (c, l) (left already_locked)
      | inr l ↦ rw (c, l) (declare_path-Outcome p cmd g w (safe_join p) l refl)
    ]
  ]
