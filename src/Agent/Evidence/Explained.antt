-- ===== src/Agent/Evidence/Explained.antt =====
-- What it is for a report to explain its weak guarantees, and the changes that keep it so.
use driver_os.Base.{
  ◌≡◌, arith, Bool, true, false, not, ◌||◌, List, [], ◌∷◌, ◌++◌, Text, codes, if◌then◌else◌,
  text_eq, text_eq_refl,
}
use driver_os.Agent.Evidence.{
  EvidenceStatus, skipped, degraded, DegradationReason, VerificationEvidence, DiffEvidence,
  Degradation, Guarantees, ReviewEvidence, degradation,
}

-- A guarantee that was configured and is weaker than it should be.
abbrev pub is_weak : EvidenceStatus → Bool
is_weak skipped = true
is_weak degraded = true
is_weak _ = false

-- Some entry is about this guarantee.
pub names : Text → List Degradation → Bool
names x [] = false
names x (d ∷ ds) = text_eq d.guarantee x || names x ds

names-append :
    (x : Text) (ds : List Degradation) (d : Degradation)
    → names x (ds ++ d ∷ []) ≡ (names x ds || text_eq d.guarantee x)
unfolding names
names-append x [] d = ground arith
names-append x (e ∷ ds) d = ground (arith, names-append x ds d)

-- A status is strong, or its guarantee is named.
abbrev pub explained : Text → EvidenceStatus → List Degradation → Bool
explained x s ds = not (is_weak s) || names x ds

pub record IsHonest (g : Guarantees) : Type 0 where
  pub verification : explained (codes "verification") g.verification.status g.degradations ≡ true
  pub review : explained (codes "review") g.review.status g.degradations ≡ true
  pub cost_bound : explained (codes "cost-bound") g.cost_bound g.degradations ≡ true
  pub diff : explained (codes "diff") g.diff.status g.degradations ≡ true

-- An entry more keeps what was explained, and explains its own guarantee.
entry-keeps :
    (x y : Text) (s : EvidenceStatus) (r : DegradationReason) (detail : Text)
    (ds : List Degradation)
    → explained x s ds ≡ true
    → explained x s (ds ++ record { guarantee = y; reason = r; detail = detail } ∷ []) ≡ true
entry-keeps x y s r detail ds h =
    ground (arith, names-append x ds (record { guarantee = y; reason = r; detail = detail }))

entry-explains :
    (x : Text) (s : EvidenceStatus) (r : DegradationReason) (detail : Text) (ds : List Degradation)
    → explained x s (ds ++ record { guarantee = x; reason = r; detail = detail } ∷ []) ≡ true
entry-explains x s r detail ds = ground (
  arith,
  names-append x ds (record { guarantee = x; reason = r; detail = detail }),
  text_eq_refl x,
)

pub IsHonest-if :
    (b : Bool) (g h : Guarantees) → IsHonest g → IsHonest h → IsHonest (if b then g else h)
IsHonest-if true g h x y = x
IsHonest-if false g h x y = y

-- A status may be weakened where the entry about it is put in.
module _ (g : Guarantees) (h : IsHonest g) (r : DegradationReason) (detail : Text) where
  keeps :
      (x y : Text) (s : EvidenceStatus)
      → explained x s g.degradations ≡ true
      → explained x s (g.degradations ++ record { guarantee = y; reason = r; detail = detail } ∷ [])
        ≡ true
  keeps x y s e = entry-keeps x y s r detail g.degradations e

  pub weaken-verification :
      (v : VerificationEvidence)
      → IsHonest (degradation (codes "verification") r detail (record g { verification = v }))
  unfolding degradation
  weaken-verification v = record {
    verification = entry-explains (codes "verification") v.status r detail g.degradations;
    review = keeps (codes "review") (codes "verification") g.review.status h.review;
    cost_bound = keeps (codes "cost-bound") (codes "verification") g.cost_bound h.cost_bound;
    diff = keeps (codes "diff") (codes "verification") g.diff.status h.diff;
  }

  pub weaken-review :
      (v : ReviewEvidence)
      → IsHonest (degradation (codes "review") r detail (record g { review = v }))
  unfolding degradation
  weaken-review v = record {
    verification =
        keeps (codes "verification") (codes "review") g.verification.status h.verification;
    review = entry-explains (codes "review") v.status r detail g.degradations;
    cost_bound = keeps (codes "cost-bound") (codes "review") g.cost_bound h.cost_bound;
    diff = keeps (codes "diff") (codes "review") g.diff.status h.diff;
  }

  pub weaken_cost :
      (s : EvidenceStatus)
      → IsHonest (degradation (codes "cost-bound") r detail (record g { cost_bound = s }))
  unfolding degradation
  weaken_cost s = record {
    verification =
        keeps (codes "verification") (codes "cost-bound") g.verification.status h.verification;
    review = keeps (codes "review") (codes "cost-bound") g.review.status h.review;
    cost_bound = entry-explains (codes "cost-bound") s r detail g.degradations;
    diff = keeps (codes "diff") (codes "cost-bound") g.diff.status h.diff;
  }

  pub weaken-diff :
      (v : DiffEvidence) → IsHonest (degradation (codes "diff") r detail (record g { diff = v }))
  unfolding degradation
  weaken-diff v = record {
    verification = keeps (codes "verification") (codes "diff") g.verification.status h.verification;
    review = keeps (codes "review") (codes "diff") g.review.status h.review;
    cost_bound = keeps (codes "cost-bound") (codes "diff") g.cost_bound h.cost_bound;
    diff = entry-explains (codes "diff") v.status r detail g.degradations;
  }

pub strong-verification :
    (g : Guarantees) (v : VerificationEvidence)
    → IsHonest g
    → is_weak v.status ≡ false
    → IsHonest (record g { verification = v })
strong-verification g v h s = record {
  verification = ground arith;
  review = h.review;
  cost_bound = h.cost_bound;
  diff = h.diff;
}

pub strong-review :
    (g : Guarantees) (v : ReviewEvidence)
    → IsHonest g
    → is_weak v.status ≡ false
    → IsHonest (record g { review = v })
strong-review g v h s = record {
  verification = h.verification;
  review = ground arith;
  cost_bound = h.cost_bound;
  diff = h.diff;
}

pub strong-diff :
    (g : Guarantees) (v : DiffEvidence)
    → IsHonest g
    → is_weak v.status ≡ false
    → IsHonest (record g { diff = v })
strong-diff g v h s = record {
  verification = h.verification;
  review = h.review;
  cost_bound = h.cost_bound;
  diff = ground arith;
}
