-- ===== src/Agent/Review/Rounds/Bounded.antt =====
-- How often a review can send the model back to work.
use driver_os.Base.{
  ℕ, ◌+◌, ◌-◌, ◌≤◌, ◌<◌, ◌≡◌, refl, ◌∙◌, arith, Bool, true, false, List, [], ◌∷◌, Option, none,
  some, Bool-cases, inl, inr,
}
use driver_os.Agent.Review.{Claim, Workspace, classify}
use driver_os.Agent.Review.Rounds.{
  ReviewStatus, ReviewState, resolve_pending, record_finding, Tally, one_if, counted,
  find_recurring, set_semantic_status, Ruling, feed_back, passed_or, expire, rule, conclude,
  next_round, tally, review_round,
}

abbrev pub is_feed_back : Ruling → Bool
is_feed_back feed_back = true
is_feed_back _ = false

-- A review with its claims and whether the run can continue behind it.
pub record Asked : Type 0 where
  pub can_continue : Bool
  pub claims : List Claim

-- The state counts as many rounds as another, of the same bound.
record SameRounds (s u : ReviewState) : Type 0 where
  rounds : u.rounds ≡ s.rounds
  bound : u.max_rounds ≡ s.max_rounds

set_semantic_status-SameRounds :
    (x : ReviewStatus) (s : ReviewState) → SameRounds s (set_semantic_status x s)
unfolding set_semantic_status
set_semantic_status-SameRounds x s = record { rounds = ground arith; bound = ground arith }

rule-SameRounds :
    (required can_continue : Bool) (t : Tally) → SameRounds t.state (rule required can_continue t).1
unfolding rule passed_or expire resolve_pending set_semantic_status
rule-SameRounds required can_continue t = record { rounds = ground arith; bound = ground arith }

conclude-SameRounds :
    (required can_continue : Bool) (t : Tally) (o : Option ℕ)
    → SameRounds t.state (conclude required can_continue t o).1
unfolding conclude expire resolve_pending
conclude-SameRounds required can_continue t none = rule-SameRounds required can_continue t
conclude-SameRounds required can_continue t (some j) = record { rounds = refl; bound = refl }

rule-feeds :
    (required can_continue : Bool) (t : Tally)
    → is_feed_back (rule required can_continue t).0 ≡ true
    → t.state.rounds < t.state.max_rounds
unfolding rule passed_or
rule-feeds required can_continue t e = ground arith

conclude-feeds :
    (required can_continue : Bool) (t : Tally) (o : Option ℕ)
    → is_feed_back (conclude required can_continue t o).0 ≡ true
    → t.state.rounds < t.state.max_rounds
unfolding conclude
conclude-feeds required can_continue t none e = rule-feeds required can_continue t e
conclude-feeds required can_continue t (some j) e = ground arith

module _ {ℓ} {W : Type ℓ} (space : Workspace W) where
  tally-SameRounds :
      (t : Tally) (fs : List Claim) (n : ℕ) (w : W)
      → SameRounds t.state (tally space t fs n w).0.state
  unfolding tally counted record_finding
  tally-SameRounds t [] n w = record { rounds = refl; bound = refl }
  tally-SameRounds t (f ∷ fs) n w =
      let (r, k, v) = classify space f n w in
      let h = tally-SameRounds (counted t r) fs k v in record { rounds = h.rounds; bound = h.bound }

  -- One round counts one, and feeds back below the bound only.
  record Steps (s : ReviewState) (x : Ruling × ReviewState) : Type 0 where
    rounds : x.1.rounds ≡ s.rounds + 1
    bound : x.1.max_rounds ≡ s.max_rounds
    feeds : is_feed_back x.0 ≡ true → s.rounds + 1 < s.max_rounds

  review_round-Steps :
      (required can_continue : Bool) (s : ReviewState) (claims : List Claim) (w : W)
      → Steps s (review_round space required can_continue s claims w).0
  unfolding review_round next_round resolve_pending
  review_round-Steps required can_continue s claims w =
      let start : Tally = record { blocking = 0; advising = 0; state = next_round s } in
      let t = (tally space start claims 2 w).0 in
      let a = tally-SameRounds start claims 2 w in
      let o = find_recurring t.state t.state.waiting in
      let b = conclude-SameRounds required can_continue t o in
      record {
        rounds = b.rounds ∙ a.rounds;
        bound = b.bound ∙ a.bound;
        feeds = λ e. omega (arith, conclude-feeds required can_continue t o e, a.rounds, a.bound);
      }

  -- How many of the reviews, one behind the other, feed findings back.
  unfoldable pub feedbacks : Bool → ReviewState → List Asked → W → ℕ
  feedbacks required s [] w = 0
  feedbacks required s (q ∷ qs) w =
      let ((r, u), v) = review_round space required q.can_continue s q.claims w in
      one_if (is_feed_back r) + feedbacks required u qs v

  feedbacks-left :
      (required : Bool) (s : ReviewState) (qs : List Asked) (w : W)
      → feedbacks required s qs w ≤ s.max_rounds - 1 - s.rounds
  unfolding feedbacks
  feedbacks-left required s [] w = omega arith
  feedbacks-left required s (q ∷ qs) w =
      let x = review_round space required q.can_continue s q.claims w in
      let h = review_round-Steps required q.can_continue s q.claims w in
      let k = feedbacks-left required x.0.1 qs x.1 in
      elim (Bool-cases (is_feed_back x.0.0)) [
        | inl y ↦ ground (arith, y, k, h.rounds, h.bound, h.feeds y)
        | inr y ↦ ground (arith, y, k, h.rounds, h.bound)
      ]

  -- However many reviews a run asks for, whatever they claim and whether or not the run can continue
  -- behind each, they send it back to work at most one time less than the bound on rounds, and never
  -- where that bound is 0.
  pub feedbacks-bounded :
      (required : Bool) (s : ReviewState) (qs : List Asked) (w : W)
      → feedbacks required s qs w ≤ s.max_rounds - 1
  feedbacks-bounded required s qs w = omega (arith, feedbacks-left required s qs w)
