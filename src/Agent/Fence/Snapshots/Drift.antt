-- ===== src/Agent/Fence/Snapshots/Drift.antt =====
-- When a fence is clean, and when it cannot be verified.
use driver_os.Base.{
  ◌≡◌, ◌≢◌, ◌↔◌, ◌⊎◌, refl, ◌∙◌, arith, Bool, true, false, List, [], ◌∷◌, ◌++◌, Option, none, some,
  Text, text_eq, text_eq_iff, text_eq_refl, if◌then◌else◌, Bool-cases, Option-cases, inl, inr,
  codes, subst, sort_texts, insert_text, and_then, and_then-some,
}
use driver_os.Agent.Fence.{matches_fence}
use driver_os.Agent.Fence.Snapshots.{
  FencedFile, Snapshot, find_file, put_file, same_file, changed_files, deleted_files, drifted, Node,
  file, folder, Listing, unlisted, empty, entry, fenced_file, visit_file, child, walk, visit,
  walk_fenced, violation_text, FenceState, is_nil, entries, new_fence_state, drift_check,
  violation_check,
}

-- The same file in both, or none in either.
abbrev pub agrees : Option FencedFile → Option FencedFile → Bool
agrees none none = true
agrees (some b) none = false
agrees b (some f) = same_file b f

pub Agree : Snapshot → Snapshot → Type 0
Agree base cur = (p : Text) → agrees (find_file p base) (find_file p cur) ≡ true

changed_files-same :
    (base cur : Snapshot) (p : Text) (f : FencedFile)
    → changed_files base cur ≡ []
    → find_file p cur ≡ some f
    → same_file (find_file p base) f ≡ true
unfolding changed_files find_file
changed_files-same base [] p f h e = cc
changed_files-same base ((q, g) ∷ cur) p f h e =
    ground (arith, text_eq_iff p q, changed_files-same base cur p f)

deleted_files-missing :
    (base cur : Snapshot) (p : Text)
    → deleted_files base cur ≡ []
    → find_file p cur ≡ none
    → find_file p base ≡ none
unfolding deleted_files find_file
deleted_files-missing [] cur p h e = refl
deleted_files-missing ((q, g) ∷ base) cur p h e =
    ground (arith, text_eq_iff p q, deleted_files-missing base cur p)

insert_text-not_empty : (x : Text) (xs : List Text) → insert_text x xs ≢ []
unfolding insert_text
insert_text-not_empty x [] h = cc
insert_text-not_empty x (y ∷ ys) h = ground arith

sort_texts-empty : (xs : List Text) → sort_texts xs ≡ [] → xs ≡ []
unfolding sort_texts
sort_texts-empty [] h = refl
sort_texts-empty (x ∷ xs) h = absurd (insert_text-not_empty x _ h)

append-empty : (xs ys : List Text) → xs ++ ys ≡ [] → (xs ≡ []) × (ys ≡ [])
append-empty [] ys h = (refl, h)
append-empty (x ∷ xs) ys h = cc

drifted-Agree : (base cur : Snapshot) → drifted base cur ≡ [] → Agree base cur
unfolding drifted Agree
drifted-Agree base cur h p =
    let e = append-empty (changed_files base cur) (deleted_files base cur) (sort_texts-empty _ h) in
    elim (Option-cases (find_file p cur)) [
      | inl n ↦ rw (n, deleted_files-missing base cur p e.1 n) refl
      | inr (f, s) ↦ rw s (changed_files-same base cur p f e.0 s)
    ]

-- Every path has one entry.
abbrev Unique : Snapshot → Type 0
Unique [] = Unit
Unique ((p, f) ∷ m) = (find_file p m ≡ none) × Unique m

find_file-put_file :
    (p q : Text) (f : FencedFile) (m : Snapshot)
    → find_file q (put_file p f m) ≡ (if text_eq q p then some f else find_file q m)
unfolding find_file put_file
find_file-put_file p q f [] = refl
find_file-put_file p q f ((x, g) ∷ m) =
    ground (arith, text_eq_iff q p, text_eq_iff p x, text_eq_iff q x, find_file-put_file p q f m)

put_file-Unique : (p : Text) (f : FencedFile) (m : Snapshot) → Unique m → Unique (put_file p f m)
unfolding put_file find_file
put_file-Unique p f [] u = (refl, tt)
put_file-Unique p f ((q, g) ∷ m) u = elim (Bool-cases (text_eq p q)) [
  | inl e ↦ rw e (rw ((text_eq_iff p q).0 e) u.0, u.1)
  | inr e ↦ rw e (
    find_file-put_file p q f m ∙ ground (arith, u.0, text_eq_iff p q, text_eq_iff q p),
    put_file-Unique p f m u.1,
  )
]

changed_files-empty :
    (base cur : Snapshot)
    → Unique cur
    → ((p : Text) (f : FencedFile)
        → find_file p cur ≡ some f
        → same_file (find_file p base) f ≡ true)
    → changed_files base cur ≡ []
unfolding changed_files find_file
changed_files-empty base [] u h = refl
changed_files-empty base ((q, g) ∷ cur) u h =
    let rest =
      changed_files-empty base cur u.1 (λ p f e. h p f (ground (arith, text_eq_iff p q, u.0, e))) in
    let here = h q g (ground (arith, text_eq_refl q)) in rw (here, rest) refl

deleted_files-empty :
    (base cur : Snapshot)
    → Unique base
    → ((p : Text) → find_file p cur ≡ none → find_file p base ≡ none)
    → deleted_files base cur ≡ []
unfolding deleted_files find_file
deleted_files-empty [] cur u h = refl
deleted_files-empty ((q, g) ∷ base) cur u h =
    let rest =
      deleted_files-empty base cur u.1 (λ p e. ground (arith, h p e, text_eq_iff p q, u.0)) in
    elim (Option-cases (find_file q cur)) [
      | inl n ↦ absurd (ground (arith, h q n, text_eq_refl q))
      | inr (f, e) ↦ rw (e, rest) refl
    ]

agrees-none : (o : Option FencedFile) → agrees o none ≡ true → o ≡ none
agrees-none none h = refl
agrees-none (some b) h = cc

Agree-drifted :
    (base cur : Snapshot) → Unique base → Unique cur → Agree base cur → drifted base cur ≡ []
unfolding drifted Agree sort_texts
Agree-drifted base cur ub uc h =
    let c = changed_files-empty base cur uc (λ p f e. rw e at (h p)) in
    let d =
      deleted_files-empty base cur ub (λ p e. agrees-none (find_file p base) (rw e at (h p))) in
    rw (c, d) refl

module _ (sha256 : Text → Text) (globs : List Text) where
  visit_file-Unique :
      (p : Text) (bounded : Option (Text × Bool)) (full : Option Text) (m out : Snapshot)
      → Unique m
      → visit_file sha256 globs p bounded full m ≡ some out
      → Unique out
  unfolding visit_file
  visit_file-Unique p bounded full m out u h = elim (Bool-cases (matches_fence globs p)) [
    | inl e ↦
        let (r, a, k) = and_then-some bounded _ out (rw e at h) in
        let (f, b, l) = and_then-some (fenced_file sha256 r full) _ out k in
        let q : put_file p f m ≡ out = cc l in subst Unique q (put_file-Unique p f m u)
    | inr e ↦ let k : some m ≡ some out = (rw e at h) in let q : m ≡ out = cc k in subst Unique q u
  ]

  mutual
    unfolding walk visit

    walk-Unique :
        (dir : Text) (l : Listing) (m out : Snapshot)
        → Unique m
        → walk sha256 globs dir l m ≡ some out
        → Unique out
    walk-Unique dir unlisted m out u h = cc
    walk-Unique dir empty m out u h = let q : m ≡ out = cc h in subst Unique q u
    walk-Unique dir (entry name n rest) m out u h =
        let (x, e, k) = and_then-some (visit sha256 globs (child dir name) name n m) _ out h in
        walk-Unique dir rest x out (visit-Unique (child dir name) name n m x u e) k

    visit-Unique :
        (p name : Text) (n : Node) (m out : Snapshot)
        → Unique m
        → visit sha256 globs p name n m ≡ some out
        → Unique out
    visit-Unique p name (file bounded full) m out u h = visit_file-Unique p bounded full m out u h
    visit-Unique p name (folder l) m out u h = elim (Bool-cases (text_eq name (codes ".git"))) [
      | inl e ↦
          let k : some m ≡ some out = (rw e at h) in let q : m ≡ out = cc k in subst Unique q u
      | inr e ↦ walk-Unique p l m out u (rw e at h)
    ]

  walk_fenced-Unique :
      (l : Listing) (out : Snapshot) → walk_fenced sha256 globs l ≡ some out → Unique out
  unfolding walk_fenced
  walk_fenced-Unique l out h = walk-Unique (codes ".") l [] out tt h

-- The violation that is found between two walks, none where either fails.
abbrev pub between : List Text → Option Snapshot → Option Snapshot → Option Text
between globs base cur =
    and_then base (λ b. and_then cur (λ c. some (violation_text globs (drifted b c))))

violation_text-empty : (globs ps : List Text) → violation_text globs ps ≡ [] → ps ≡ []
unfolding violation_text
violation_text-empty globs [] h = refl
violation_text-empty globs (p ∷ ps) h = cc

violation_check-between :
    (sha256 : Text → Text) (globs : List Text) (B : Option Snapshot) (l : Listing)
    → violation_check sha256
        (some (record { globs = globs; base = B; snapshot_failed = is_nil B }))
        l
      ≡ between globs B (walk_fenced sha256 globs l)
unfolding violation_check drift_check
violation_check-between sha256 globs none l = refl
violation_check-between sha256 globs (some b) l = ground arith

-- A fence, however it came about, that is found clean: its snapshot did not fail, the walk of the check
-- succeeded, and both agree.
pub violation_check-Agree :
    (sha256 : Text → Text) (f : FenceState) (l : Listing)
    → violation_check sha256 (some f) l ≡ some []
    → (f.snapshot_failed ≡ false)
      × ((cur : Snapshot) × (walk_fenced sha256 f.globs l ≡ some cur) × Agree (entries f.base) cur)
unfolding violation_check drift_check
violation_check-Agree sha256 f l h = elim (Bool-cases f.snapshot_failed) [
  | inl b ↦ cc (rw b at h)
  | inr b ↦ (
    b,
    elim (Option-cases (walk_fenced sha256 f.globs l)) [
      | inl n ↦ cc (rw (b, n) at h)
      | inr (cur, e) ↦
          let d : some (violation_text f.globs (drifted (entries f.base) cur)) ≡ some [] =
            (rw (b, e) at h) in
          (cur, e, drifted-Agree (entries f.base) cur (violation_text-empty f.globs _ (cc d)))
    ],
  )
]

violation_text_none : (globs : List Text) → some (violation_text globs []) ≡ some []
unfolding violation_text
violation_text_none globs = refl

no_none : {b c : Snapshot} → (some b ≡ none) ⊎ (some c ≡ none) → ⊥
no_none (inl e) = cc
no_none (inr e) = cc

between-exact :
    (globs : List Text) (B C : Option Snapshot)
    → ((b : Snapshot) → B ≡ some b → Unique b)
    → ((c : Snapshot) → C ≡ some c → Unique c)
    → ((between globs B C ≡ some []) ↔ (
        (base : Snapshot) × (cur : Snapshot) × (B ≡ some base) × (C ≡ some cur) × Agree base cur))
      × ((between globs B C ≡ none) ↔ ((B ≡ none) ⊎ (C ≡ none)))
between-exact globs none C ub uc = ((λ h. cc, λ (b, c, e, k, a). cc), (λ h. inl refl, λ h. refl))
between-exact globs (some b) none ub uc =
    ((λ h. cc, λ (b, c, e, k, a). cc), (λ h. inr refl, λ h. refl))
between-exact globs (some b) (some c) ub uc = (
  (
    λ h. (b, c, refl, refl, drifted-Agree b c (violation_text-empty globs (drifted b c) (cc h))),
    λ (x, y, e, k, a).
        let p : x ≡ b = cc e in
        let q : y ≡ c = cc k in
        let d =
          Agree-drifted b c (ub b refl) (uc c refl)
            (subst (λ u. Agree u c) p (subst (Agree x) q a)) in
        rw d (violation_text_none globs),
  ),
  (λ h. cc, λ h. absurd (no_none h)),
)

-- The two verdicts on a check between two states of the workspace.
abbrev pub Exact : (Text → Text) → List Text → Listing → Listing → Option Text → Type 0
Exact sha256 globs l₀ l verdict =
    ((verdict ≡ some []) ↔ (
      (base : Snapshot) × (cur : Snapshot) × (walk_fenced sha256 globs l₀ ≡ some base)
      × (walk_fenced sha256 globs l ≡ some cur)
      × Agree base cur))
    × ((verdict ≡ none)
        ↔ ((walk_fenced sha256 globs l₀ ≡ none) ⊎ (walk_fenced sha256 globs l ≡ none)))

-- A fence that was set up on one state of the workspace and is checked on another, whatever the hash:
-- it is found clean exactly when both states could be walked and every path, fenced or not, has an
-- entry with the same hashes and size in both snapshots or none in either; and it is reported as not
-- verifiable, which is neither clean nor a violation, exactly when one of the walks failed.
pub violation_check-Exact :
    (sha256 : Text → Text) (globs : List Text) (l₀ l : Listing) (f : FenceState)
    → new_fence_state sha256 globs l₀ ≡ some f
    → Exact sha256 globs l₀ l (violation_check sha256 (some f) l)
unfolding new_fence_state
violation_check-Exact sha256 [] l₀ l f h = cc
violation_check-Exact sha256 (g ∷ gs) l₀ l f h =
    let B = walk_fenced sha256 (g ∷ gs) l₀ in
    let q : record { globs = g ∷ gs; base = B; snapshot_failed = is_nil B } ≡ f = cc h in
    subst (λ x. Exact sha256 (g ∷ gs) l₀ l (violation_check sha256 (some x) l)) q
      (rw (violation_check-between sha256 (g ∷ gs) B l) (
        between-exact (g ∷ gs) B (walk_fenced sha256 (g ∷ gs) l)
          (walk_fenced-Unique sha256 (g ∷ gs) l₀) (walk_fenced-Unique sha256 (g ∷ gs) l)))
