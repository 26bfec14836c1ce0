-- ===== src/Agent/Repro/Locked.antt =====
-- A lock outlives every later operation of the repro gate.
use driver_os.Base.{
  ◌≡◌, refl, sym, ◌∙◌, subst, arith, Bool, true, false, not, List, [], ◌∷◌, Option, none, some,
  Text, if◌then◌else◌, is_empty, trim_space, text_eq, Bool-cases, inl, inr,
}
use driver_os.Agent.Observation.{is_run_failure, is_run_timeout}
use driver_os.Agent.Repro.{validated, ReproState, ReproGate, Workspace, is_locked, skip_repro}
use driver_os.Agent.Repro.Declare.{declare_repro}
use driver_os.Agent.Repro.Finish.{
  clear, finish_run, finish_tree, finish_read, finish_locked, finish_status, finish_state,
  repro_finish,
}

-- What is locked: the path, the command and the hash.
pub record Lock : Type 0 where
  pub path : Text
  pub cmd : Text
  pub sha256 : Text

abbrev pub lock_of : ReproState → Lock
lock_of s = record { path = s.report.path; cmd = s.report.cmd; sha256 = s.sha256 }

-- The gate is locked on this.
pub record IsLockedOn (k : Lock) (g : ReproGate) : Type 0 where
  pub state : ReproState
  pub held : g.repro ≡ some state
  pub status : state.report.status ≡ validated
  pub lock : lock_of state ≡ k

pub data Operation : Type 0 where
  declare : Text → Text → Operation
  skip : Text → Operation
  finish : Operation

IsLockedOn-is_locked : (k : Lock) (g : ReproGate) → IsLockedOn k g → is_locked g ≡ true
IsLockedOn-is_locked k g h = ground (arith, h.held, h.status)

module _ {ℓ} {W : Type ℓ} (space : Workspace W) where
  unfoldable pub operate : Operation → ReproGate → W → ReproGate × W
  operate (declare p cmd) g w = let r = declare_repro space p cmd g w in (r.1, r.2)
  operate (skip reason) g w = ((skip_repro reason g).1, w)
  operate finish g w = let r = repro_finish space g w in (r.1, r.2)

  unfoldable pub operate_all : List Operation → ReproGate → W → ReproGate × W
  unfolding operate
  operate_all [] g w = (g, w)
  operate_all (o ∷ os) g w = let r = operate o g w in operate_all os r.0 r.1

  finish_run-lock :
      (s : ReproState) (o : Option Text)
      → (lock_of (finish_run space s o).1 ≡ lock_of s)
        × ((finish_run space s o).1.report.status ≡ s.report.status)
  unfolding finish_run
  finish_run-lock s none = (refl, refl)
  finish_run-lock s (some out) = elim (Bool-cases (is_run_timeout out)) [
    | inl t ↦ rw t (refl, refl)
    | inr t ↦ elim (Bool-cases (is_run_failure out)) [
      | inl f ↦ rw (t, f) (refl, refl)
      | inr f ↦ rw (t, f) (refl, refl)
    ]
  ]

  finish_tree-lock :
      (s : ReproState) (o : Option Text) (w : W)
      → (lock_of (finish_tree space s o w).1 ≡ lock_of s)
        × ((finish_tree space s o w).1.report.status ≡ s.report.status)
  unfolding finish_tree
  finish_tree-lock s none w = (refl, refl)
  finish_tree-lock s (some cur) w = finish_run-lock s (space.run s.report.cmd w).0

  finish_read-lock :
      (s : ReproState) (o : Option Text) (w : W)
      → (lock_of (finish_read space s o w).1 ≡ lock_of s)
        × ((finish_read space s o w).1.report.status ≡ s.report.status)
  unfolding finish_read
  finish_read-lock s none w = (refl, refl)
  finish_read-lock s (some d) w = elim (Bool-cases (text_eq (space.hash d) s.sha256)) [
    | inr x ↦ rw x (refl, refl)
    | inl x ↦ rw x (finish_tree-lock s (space.write_tree w) w)
  ]

  finish_locked-IsLockedOn :
      (k : Lock) (g : ReproGate) (s : ReproState) (w : W)
      → s.report.status ≡ validated
      → lock_of s ≡ k
      → IsLockedOn k (finish_locked space g s w).1
  unfolding finish_locked
  finish_locked-IsLockedOn k g s w v l =
      let h = finish_read-lock s (space.read s.report.path w) w in
      record {
        state = (finish_read space s (space.read s.report.path w) w).1;
        held = refl;
        status = h.1 ∙ v;
        lock = h.0 ∙ l;
      }

  finish_state-IsLockedOn :
      (k : Lock) (g : ReproGate) (o : Option ReproState) (s : ReproState) (w : W)
      → o ≡ some s
      → s.report.status ≡ validated
      → lock_of s ≡ k
      → IsLockedOn k (finish_state space g o w).1
  unfolding finish_state finish_status
  finish_state-IsLockedOn k g o s w e v l =
      let a : IsLockedOn k (finish_status space g s s.report.status w).1 =
        subst (λ x. IsLockedOn k (finish_status space g s x w).1) (sym v)
          (finish_locked-IsLockedOn k g s w v l) in
      subst (λ x. IsLockedOn k (finish_state space g x w).1) (sym e) a

  finish-IsLockedOn :
      (k : Lock) (g : ReproGate) (w : W) (b : Bool)
      → IsLockedOn k g
      → IsLockedOn k (if not b then (clear, g, w) else finish_state space g g.repro w).1
  finish-IsLockedOn k g w false h = h
  finish-IsLockedOn k g w true h =
      finish_state-IsLockedOn k g g.repro h.state w h.held h.status h.lock

  operate-IsLockedOn :
      (k : Lock) (o : Operation) (g : ReproGate) (w : W)
      → IsLockedOn k g
      → IsLockedOn k (operate o g w).0
  unfolding operate declare_repro skip_repro repro_finish
  operate-IsLockedOn k (declare p cmd) g w h = elim (Bool-cases (is_empty (trim_space cmd))) [
    | inl c ↦ rw c h
    | inr c ↦ rw (c, IsLockedOn-is_locked k g h) h
  ]
  operate-IsLockedOn k (skip reason) g w h = elim (Bool-cases (is_empty (trim_space reason))) [
    | inl c ↦ rw c h
    | inr c ↦ rw (c, IsLockedOn-is_locked k g h) h
  ]
  operate-IsLockedOn k finish g w h = finish-IsLockedOn k g w g.repro_first h

  -- A gate that is locked on a path, a command and a hash stays locked on them over every sequence of
  -- declarations, skips and finishes, whatever the workspace does.
  pub operate_all-IsLockedOn :
      (k : Lock) (os : List Operation) (g : ReproGate) (w : W)
      → IsLockedOn k g
      → IsLockedOn k (operate_all os g w).0
  unfolding operate_all
  operate_all-IsLockedOn k [] g w h = h
  operate_all-IsLockedOn k (o ∷ os) g w h =
      operate_all-IsLockedOn k os (operate o g w).0 (operate o g w).1 (operate-IsLockedOn k o g w h)
