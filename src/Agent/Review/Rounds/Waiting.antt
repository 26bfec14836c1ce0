-- ===== src/Agent/Review/Rounds/Waiting.antt =====
-- Which findings wait for the next round, through the operations of the review state.
use driver_os.Base.{
  ℕ, zero, suc, ◌≡◌, ◌⊎◌, inl, inr, refl, sym, ap, ◌∙◌, arith, Bool, true, false, ◌||◌, List, [],
  ◌∷◌, ◌++◌, some, ◌==◌, length, length-append, Bool-cases,
}
use driver_os.Agent.Evidence.{Fate, expired}
use driver_os.Agent.Review.{Reviewed}
use driver_os.Agent.Review.Rounds.{
  ReviewStatus, blocked, ReviewState, is_pending, resolve_at, resolve_all, resolve_pending, at,
  expire_at, record_finding, Tally, counted, set_semantic_status, expire,
}

pub has : ℕ → List ℕ → Bool
has i [] = false
has i (k ∷ ks) = k == i || has i ks

-- Every pending finding waits.
pub record Tracks (s : ReviewState) : Type 0 where
  pub waits :
      (i : ℕ) (r : Reviewed)
      → at i s.findings ≡ some r
      → is_pending r.fate ≡ true
      → has i s.waiting ≡ true

-- No finding is pending.
pub record IsSettled (s : ReviewState) : Type 0 where
  pub settled : (i : ℕ) (r : Reviewed) → at i s.findings ≡ some r → is_pending r.fate ≡ false

pub IsSettled-Tracks : (s : ReviewState) → IsSettled s → Tracks s
IsSettled-Tracks s h = record { waits = λ i r e p. ground (arith, h.settled i r e, p) }

at-resolve_at :
    (fate : Fate) (i j : ℕ) (rs : List Reviewed) (r : Reviewed)
    → is_pending fate ≡ false
    → at j (resolve_at fate i rs) ≡ some r
    → is_pending r.fate ≡ true
    → ((i == j) ≡ false) × (at j rs ≡ some r)
unfolding at resolve_at
at-resolve_at fate i j [] r n e p = ground arith
at-resolve_at fate zero zero (x ∷ rs) r n e p = ground arith
at-resolve_at fate zero (suc j) (x ∷ rs) r n e p = (ground arith, e)
at-resolve_at fate (suc i) zero (x ∷ rs) r n e p = (ground arith, e)
at-resolve_at fate (suc i) (suc j) (x ∷ rs) r n e p =
    let (d, q) = at-resolve_at fate i j rs r n e p in (ground (arith, d), q)

at-resolve_all :
    (fate : Fate) (ks : List ℕ) (j : ℕ) (rs : List Reviewed) (r : Reviewed)
    → is_pending fate ≡ false
    → at j (resolve_all fate ks rs) ≡ some r
    → is_pending r.fate ≡ true
    → (has j ks ≡ false) × (at j rs ≡ some r)
unfolding resolve_all has
at-resolve_all fate [] j rs r n e p = (refl, e)
at-resolve_all fate (k ∷ ks) j rs r n e p =
    let (h, q) = at-resolve_all fate ks j (resolve_at fate k rs) r n e p in
    let (d, q') = at-resolve_at fate k j rs r n q p in (ground (arith, h, d), q')

pub resolve_pending-IsSettled :
    (fate : Fate) (s : ReviewState)
    → is_pending fate ≡ false
    → Tracks s
    → IsSettled (resolve_pending fate s)
unfolding resolve_pending
resolve_pending-IsSettled fate s n t = record {
  settled = λ i r e. elim (Bool-cases (is_pending r.fate)) [
    | inr y ↦ y
    | inl y ↦
        let (h, q) = at-resolve_all fate s.waiting i s.findings r n e y in
        ground (arith, h, t.waits i r q y)
  ];
}

at-append :
    (i : ℕ) (rs : List Reviewed) (q r : Reviewed)
    → at i (rs ++ q ∷ []) ≡ some r
    → (at i rs ≡ some r) ⊎ ((i ≡ length rs) × (q ≡ r))
unfolding at
at-append zero [] q r e = inr (refl, ground (arith, e))
at-append (suc i) [] q r e = ground arith
at-append zero (x ∷ rs) q r e = inl e
at-append (suc i) (x ∷ rs) q r e = ground (arith, at-append i rs q r e)

has-append : (i k : ℕ) (ks : List ℕ) → has i (ks ++ k ∷ []) ≡ (has i ks || k == i)
unfolding has
has-append i k [] = ground arith
has-append i k (x ∷ ks) = ground (arith, has-append i k ks)

record_finding-Tracks : (s : ReviewState) (r : Reviewed) → Tracks s → Tracks (record_finding s r)
unfolding record_finding
record_finding-Tracks s r t = record {
  waits = λ i x e p.
      let q = record r { round = s.rounds } in
      let k = has-append i (length s.findings) s.waiting in
      elim (at-append i s.findings q x e) [
        | inl h ↦ ground (arith, k, t.waits i x h p)
        | inr (h, m) ↦ ground (arith, k, h, p, ap (λ (y : Reviewed). y.fate) m)
      ];
}

-- The tally counts the findings that wait.
pub record Counts (t : Tally) : Type 0 where
  pub tracks : Tracks t.state
  pub counts : t.blocking ≡ length t.state.waiting

pub counted-Counts : (t : Tally) (r : Reviewed) → Counts t → Counts (counted t r)
unfolding counted record_finding
counted-Counts t r c = record {
  tracks = record_finding-Tracks t.state r c.tracks;
  counts = ground (arith, c.counts, length-append t.state.waiting (length t.state.findings ∷ []));
}

has-empty : (i : ℕ) (ks : List ℕ) → length ks ≡ 0 → has i ks ≡ false
unfolding has
has-empty i [] z = refl
has-empty i (k ∷ ks) z = ground arith

empty-IsSettled : (s : ReviewState) → Tracks s → length s.waiting ≡ 0 → IsSettled s
empty-IsSettled s t z = record {
  settled = λ i r e. elim (Bool-cases (is_pending r.fate)) [
    | inr y ↦ y
    | inl y ↦ ground (arith, t.waits i r e y, has-empty i s.waiting z)
  ];
}

pub Counts-IsSettled : (t : Tally) → Counts t → (t.blocking == 0) ≡ true → IsSettled t.state
Counts-IsSettled t c h = empty-IsSettled t.state c.tracks (ground (arith, h, c.counts))

pub set_semantic_status-findings :
    (x : ReviewStatus) (s : ReviewState)
    → ((set_semantic_status x s).findings ≡ s.findings)
      × ((set_semantic_status x s).waiting ≡ s.waiting)
      × ((set_semantic_status x s).rounds ≡ s.rounds)
      × ((set_semantic_status x s).max_rounds ≡ s.max_rounds)
unfolding set_semantic_status
set_semantic_status-findings x s = (ground arith, ground arith, ground arith, ground arith)

pub set_semantic_status-Tracks :
    (x : ReviewStatus) (s : ReviewState) → Tracks s → Tracks (set_semantic_status x s)
set_semantic_status-Tracks x s t =
    let (f, w, n, m) = set_semantic_status-findings x s in
    record { waits = λ i r e p. ap (has i) w ∙ t.waits i r (ap (at i) (sym f) ∙ e) p }

pub set_semantic_status-IsSettled :
    (x : ReviewStatus) (s : ReviewState) → IsSettled s → IsSettled (set_semantic_status x s)
set_semantic_status-IsSettled x s h =
    let (f, w, n, m) = set_semantic_status-findings x s in
    record { settled = λ i r e. h.settled i r (ap (at i) (sym f) ∙ e) }

pub at-expire_at :
    (i j : ℕ) (rs : List Reviewed) (r : Reviewed)
    → at i (expire_at j rs) ≡ some r
    → is_pending r.fate ≡ true
    → at i rs ≡ some r
unfolding at expire_at
at-expire_at i j [] r e p = ground arith
at-expire_at zero zero (x ∷ rs) r e p = ground arith
at-expire_at zero (suc j) (x ∷ rs) r e p = e
at-expire_at (suc i) zero (x ∷ rs) r e p = e
at-expire_at (suc i) (suc j) (x ∷ rs) r e p = at-expire_at i j rs r e p

pub expire-IsSettled : (s : ReviewState) → Tracks s → IsSettled (expire s)
unfolding expire
expire-IsSettled s t =
    resolve_pending-IsSettled expired (record s { status = blocked; is_blocked = true }) refl
      (record { waits = t.waits })
