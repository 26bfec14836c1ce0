-- ===== src/Profile/Resolve/Merged.antt =====
-- What the resolution of a profile keeps, raises and refuses.
use driver_os.Base.{
  Bool, ◌≡◌, ◌↔◌, refl, sym, ap, ◌∙◌, arith, true, false, Option, none, some, Option-cases, Text,
  codes, text_eq, inl, inr, ◌⊎◌,
}
use driver_os.Profile.Posture.{Worktree, worktree_required, worktree_auto, worktree_satisfies}
use driver_os.Profile.Exec.{
  Exec, ExecError, default, demand, Stance, declared, worktree_stance, require_trust,
}
use driver_os.Profile.Resolve.{
  TrustPosture, Overrides, Trace, traced, resolved, refused, trust_error, cli_conflict,
  demand_conflict, raised, is_canonical, merged, with_floor, worktree_of, checked, resolve,
}
use driver_os.Profile.Resolve.Fields.{
  IsGiven, given-IsGiven, IsValues, merged-IsValues, IsFlagless, is_canonical-IsFlagless,
}

-- The worktree is that of the flag or else the declared one; or no flag asks for one, the declared one
-- is below the floor, and it is required.
abbrev pub IsTree : Worktree → Option Text → Text → Text → Type 0
IsTree floor o d v =
    IsGiven o d v
    ⊎ ((o ≡ none) × (worktree_satisfies (worktree_of d) floor ≡ false) × (v ≡ codes "required"))

-- What a resolved profile is.
pub record IsMerged (post : TrustPosture) (e : Exec) (o : Overrides) (n : Exec) (tr : Trace)
    : Type 0 where
  pub values : IsValues e (declared e) o n
  pub tree : IsTree post.posture.worktree o.worktree (declared e).worktree n.worktree
  pub floor : worktree_satisfies (worktree_of n.worktree) post.posture.worktree ≡ true
  pub canonical : (tr.canonical ≡ true) ↔ IsFlagless o

resolve-some :
    (post : TrustPosture) (e : Exec) (o : Overrides) (x : ExecError)
    → require_trust e post.selected ≡ some x
    → resolve post e o ≡ refused (trust_error x)
unfolding resolve
resolve-some post e o x h = ap (checked post e o) h

abbrev start : TrustPosture → Exec → Overrides → Trace
start post e o = record {
  fields = traced (declared e) o;
  canonical = is_canonical o;
  selected_trust = post.selected;
  required_trust = e.required_trust;
}

resolve-none :
    (post : TrustPosture) (e : Exec) (o : Overrides)
    → require_trust e post.selected ≡ none
    → resolve post e o
      ≡ with_floor post.posture.worktree o.worktree
          (worktree_stance e)
          (merged e (declared e) o)
          (start post e o)
unfolding resolve
resolve-none post e o h = ap (checked post e o) h

required_meets : (fl : Worktree) → worktree_satisfies (worktree_of (codes "required")) fl ≡ true
unfolding worktree_of worktree_satisfies text_eq
required_meets worktree_auto = refl
required_meets worktree_required = refl

-- Raising keeps all but the worktree, and happens without a flag only.
raised-resolved :
    (o : Option Text) (s : Stance) (m n : Exec) (t tr : Trace)
    → raised o s m t ≡ resolved n tr
    → (o ≡ none) × (record m { worktree = codes "required" } ≡ n) × (t.canonical ≡ tr.canonical)
unfolding raised
raised-resolved (some w) s m n t tr h = cc
raised-resolved none demand m n t tr h = cc
raised-resolved none default m n t tr h = ground arith

module _ (post : TrustPosture) (e : Exec) (o : Overrides) where
  merged-flag : (w : Text) → o.worktree ≡ some w → (merged e (declared e) o).worktree ≡ w
  unfolding merged
  merged-flag w h = rw h

  merged-none : o.worktree ≡ none → (merged e (declared e) o).worktree ≡ (declared e).worktree
  unfolding merged
  merged-none h = rw h

  merged-IsGiven : IsGiven o.worktree (declared e).worktree (merged e (declared e) o).worktree
  unfolding merged
  merged-IsGiven = given-IsGiven o.worktree (declared e).worktree

  floored :
      (b : Bool) (s : Stance) (n : Exec) (tr : Trace)
      → worktree_satisfies (worktree_of (merged e (declared e) o).worktree) post.posture.worktree
        ≡ b
      → with_floor post.posture.worktree o.worktree s (merged e (declared e) o) (start post e o)
        ≡ resolved n tr
      → IsMerged post e o n tr
  unfolding with_floor
  floored true s n tr b h =
      let p : resolved (merged e (declared e) o) (start post e o) ≡ resolved n tr = (rw b at h) in
      let q : merged e (declared e) o ≡ n = cc p in
      let c : tr.canonical ≡ is_canonical o = ground (arith, p) in
      record {
        values = rw (← q) (merged-IsValues e (declared e) o (merged e (declared e) o).worktree);
        tree = inl (rw (← q) (merged-IsGiven));
        floor = rw (← q) b;
        canonical = rw c (is_canonical-IsFlagless o);
      }
  floored false s n tr b h =
      let r =
        raised-resolved o.worktree s (merged e (declared e) o) n (start post e o) tr (rw b at h) in
      record {
        values = rw (← r.1) (merged-IsValues e (declared e) o (codes "required"));
        tree = inr (r.0, (rw (merged-none r.0) at b), rw (← r.1) refl);
        floor = rw (← r.1) (required_meets post.posture.worktree);
        canonical = rw (← r.2) (is_canonical-IsFlagless o);
      }

-- A profile that is resolved: its trust is granted, its name and required trust are the profile's, and
-- each of the other values is that of its own flag or else the one declared, but for a declared worktree
-- below the floor of the posture that no flag asks for, which is then required; the worktree is at the
-- floor, and the trace is canonical exactly when none of the nineteen flags is given.
pub resolve-IsMerged :
    (post : TrustPosture) (e : Exec) (o : Overrides) (n : Exec) (tr : Trace)
    → resolve post e o ≡ resolved n tr
    → (require_trust e post.selected ≡ none) × IsMerged post e o n tr
resolve-IsMerged post e o n tr h = elim (Option-cases (require_trust e post.selected)) [
  | inl q ↦
      (q, floored post e o _ (worktree_stance e) n tr refl (sym (resolve-none post e o q) ∙ h))
  | inr (x, q) ↦ cc (sym (resolve-some post e o x q) ∙ h)
]

with_floor-cli :
    (fl : Worktree) (o : Option Text) (s : Stance) (m : Exec) (t : Trace) (w : Text)
    → ((v : Text) → o ≡ some v → m.worktree ≡ v)
    → (with_floor fl o s m t ≡ refused (cli_conflict w))
      ↔ ((o ≡ some w) × (text_eq w (codes "required") ≡ false) × (fl ≡ worktree_required))
unfolding with_floor raised worktree_of worktree_satisfies
with_floor-cli worktree_auto (some v) s m t w g = ground (arith, g v refl)
with_floor-cli worktree_required (some v) s m t w g = ground (arith, g v refl)
with_floor-cli worktree_auto none s m t w g = ground arith
with_floor-cli worktree_required none s m t w g = ground arith

with_floor-demand :
    (fl : Worktree) (o : Option Text) (s : Stance) (m : Exec) (t : Trace) (w : Text)
    → (with_floor fl o s m t ≡ refused (demand_conflict w)) ↔ (
        (o ≡ none)
        × (m.worktree ≡ w)
        × (s ≡ demand)
        × (text_eq w (codes "required") ≡ false)
        × (fl ≡ worktree_required))
unfolding with_floor raised worktree_of worktree_satisfies
with_floor-demand worktree_auto o s m t w = ground arith
with_floor-demand worktree_required (some v) s m t w = ground arith
with_floor-demand worktree_required none s m t w = ground arith

-- The worktree is refused exactly when the posture's floor requires one and either a flag or a profile
-- that demands its worktree asks for none.
pub resolve-conflict :
    (post : TrustPosture) (e : Exec) (o : Overrides)
    → require_trust e post.selected ≡ none
    → ((w : Text)
        → (resolve post e o ≡ refused (cli_conflict w)) ↔ (
            (o.worktree ≡ some w)
            × (text_eq w (codes "required") ≡ false)
            × (post.posture.worktree ≡ worktree_required)))
      × ((w : Text)
          → (resolve post e o ≡ refused (demand_conflict w)) ↔ (
              (o.worktree ≡ none)
              × ((declared e).worktree ≡ w)
              × (worktree_stance e ≡ demand)
              × (text_eq w (codes "required") ≡ false)
              × (post.posture.worktree ≡ worktree_required)))
resolve-conflict post e o t =
    let m = merged e (declared e) o in
    let f = post.posture.worktree in
    rw (resolve-none post e o t) (
      λ w.
          with_floor-cli f o.worktree (worktree_stance e) m (start post e o) w
            (merged-flag post e o),
      λ w. (
        λ h.
            let x = (with_floor-demand f o.worktree (worktree_stance e) m (start post e o) w).0 h in
            (x.0, sym (merged-none post e o x.0) ∙ x.1, x.2, x.3, x.4),
        λ h.
            (with_floor-demand f o.worktree (worktree_stance e) m (start post e o) w).1
              (h.0, merged-none post e o h.0 ∙ h.1, h.2, h.3, h.4),
      ),
    )
