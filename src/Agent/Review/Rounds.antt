-- ===== src/Agent/Review/Rounds.antt =====
-- reviewFinish of agent/gate.go from the reviewer's verdict on, and the review state of agent/review.go.
-- The verdict, its repro commands solicited, is an argument: what comes before it calls the reviewer.
pub mod Waiting
pub mod Pending
pub mod Bounded
use driver_os.Base.{
  ℕ, zero, suc, ◌+◌, Bool, true, false, not, ◌&&◌, ◌||◌, List, [], ◌∷◌, ◌++◌, Option, none, some,
  Text, codes, ltb, ◌==◌, if◌then◌else◌, is_empty, text_eq, length,
}
use driver_os.Agent.Evidence.{Fate, pending, repaired, expired, advised}
use driver_os.Agent.Review.{Claim, Reviewed, Workspace, classify}

-- ReviewStatus; `no_status` is the empty string.
pub data ReviewStatus : Type 0 where
  no_status clean blocked advisory unavailable parse_error timeout canceled : ReviewStatus

-- What reviewState keeps of the rounds.
pub record ReviewState : Type 0 where
  pub max_rounds : ℕ
  pub rounds : ℕ
  pub status : ReviewStatus
  pub is_blocked : Bool
  pub findings : List Reviewed
  pub waiting : List ℕ

abbrev pub is_pending : Fate → Bool
is_pending pending = true
is_pending _ = false

-- `if rv.findings[i].Fate == "" { rv.findings[i].Fate = fate }`
unfoldable pub resolve_at : Fate → ℕ → List Reviewed → List Reviewed
resolve_at fate i [] = []
resolve_at fate zero (r ∷ rs) = (if is_pending r.fate then record r { fate = fate } else r) ∷ rs
resolve_at fate (suc i) (r ∷ rs) = r ∷ resolve_at fate i rs

unfoldable pub resolve_all : Fate → List ℕ → List Reviewed → List Reviewed
resolve_all fate [] rs = rs
resolve_all fate (i ∷ is) rs = resolve_all fate is (resolve_at fate i rs)

unfoldable pub resolve_pending : Fate → ReviewState → ReviewState
resolve_pending fate s = record s { findings = resolve_all fate s.waiting s.findings; waiting = [] }

unfoldable pub at : ℕ → List Reviewed → Option Reviewed
at i [] = none
at zero (r ∷ rs) = some r
at (suc i) (r ∷ rs) = at i rs

-- The index of an earlier confirmed finding on the same file and quote.
unfoldable pub earlier : ℕ → Reviewed → ℕ → List Reviewed → Option ℕ
earlier round r j [] = none
earlier round r j (p ∷ ps) =
    let rest = earlier round r (j + 1) ps in
    if ltb p.round round
      && p.confirmed
      && text_eq p.claim.file r.claim.file
      && text_eq p.claim.quote r.claim.quote
    then some j
    else rest

abbrev pub recurs : ReviewState → Option Reviewed → Option ℕ
recurs s none = none
recurs s (some r) = if r.confirmed then earlier s.rounds r 0 s.findings else none

-- findRecurringConfirmedBlocker: the earlier index.
unfoldable pub find_recurring : ReviewState → List ℕ → Option ℕ
find_recurring s [] = none
find_recurring s (i ∷ is) = elim (recurs s (at i s.findings)) [
  | some j ↦ some j
  | none ↦ find_recurring s is
]

-- `rv.findings[prevIdx].Fate = FateExpired`
unfoldable pub expire_at : ℕ → List Reviewed → List Reviewed
expire_at i [] = []
expire_at zero (r ∷ rs) = record r { fate = expired } ∷ rs
expire_at (suc i) (r ∷ rs) = r ∷ expire_at i rs

abbrev pub is_advised : Fate → Bool
is_advised advised = true
is_advised _ = false

-- One finding of the loop, classified.
unfoldable pub record_finding : ReviewState → Reviewed → ReviewState
record_finding s r =
    let q = record r { round = s.rounds } in
    record s {
      findings = s.findings ++ q ∷ [];
      waiting = if is_pending q.fate then s.waiting ++ length s.findings ∷ [] else s.waiting;
    }

-- How many findings block and how many advise, and what the round leaves.
pub record Tally : Type 0 where
  pub blocking : ℕ
  pub advising : ℕ
  pub state : ReviewState

abbrev pub one_if : Bool → ℕ
one_if true = 1
one_if false = 0

unfoldable pub counted : Tally → Reviewed → Tally
counted t r = record {
  blocking = t.blocking + one_if (is_pending r.fate);
  advising = t.advising + one_if (is_advised r.fate);
  state = record_finding t.state r;
}

-- reviewRequiredBlockReason and setReviewSemanticStatus.
abbrev pub is_infrastructure : ReviewStatus → Bool
is_infrastructure unavailable = true
is_infrastructure parse_error = true
is_infrastructure timeout = true
is_infrastructure _ = false

unfoldable pub required_block : Bool → ReviewState → Bool
required_block required s = required && is_infrastructure s.status

unfoldable pub set_semantic_status : ReviewStatus → ReviewState → ReviewState
set_semantic_status x s = if is_infrastructure s.status then s else record s { status = x }

-- How a round ends: findings are fed back, or the finish passes or is blocked.
pub data Ruling : Type 0 where
  feed_back pass block : Ruling

unfoldable pub passed_or : Bool → ReviewState → Ruling × ReviewState
passed_or required s = (if required_block required s then block else pass, s)

unfoldable pub expire : ReviewState → ReviewState
expire s = resolve_pending expired (record s { status = blocked; is_blocked = true })

-- The end of reviewFinish, where no blocker recurred.
unfoldable pub rule : Bool → Bool → Tally → Ruling × ReviewState
rule required can_continue t =
    let s = t.state in
    if t.blocking == 0 && t.advising == 0
    then passed_or required (set_semantic_status clean s)
    else if can_continue && ltb s.rounds s.max_rounds
    then (
      feed_back,
      if t.blocking == 0
          then set_semantic_status advisory (set_semantic_status blocked s)
          else set_semantic_status blocked s,
    )
    else if t.blocking == 0
    then passed_or required (set_semantic_status advisory s)
    else (block, expire s)

unfoldable pub conclude : Bool → Bool → Tally → Option ℕ → Ruling × ReviewState
conclude required can_continue t none = rule required can_continue t
conclude required can_continue t (some j) =
    let s = t.state in (block, expire (record s { findings = expire_at j s.findings }))

-- The state in which the reviewer is asked: the last round's blockers are repaired, the round counts.
unfoldable pub next_round : ReviewState → ReviewState
next_round s = let u = resolve_pending repaired s in record u { rounds = u.rounds + 1 }

module _ {ℓ} {W : Type ℓ} (space : Workspace W) where
  unfoldable pub tally : Tally → List Claim → ℕ → W → Tally × W
  tally t [] budget w = (t, w)
  tally t (f ∷ fs) budget w =
      let (r, left, v) = classify space f budget w in tally (counted t r) fs left v

  unfoldable pub review_round :
      Bool → Bool → ReviewState → List Claim → W → (Ruling × ReviewState) × W
  review_round required can_continue s claims w =
      let (t, v) = tally (record { blocking = 0; advising = 0; state = next_round s }) claims 2 w in
      (conclude required can_continue t (find_recurring t.state t.state.waiting), v)
