-- ===== src/Agent/Review/Rounds/Pending.antt =====
-- No blocking finding is forgotten: each waits for the next round, or its fate is settled.
use driver_os.Base.{
  ℕ, ◌<◌, ◌≡◌, ◌≢◌, refl, arith, Bool, true, false, ◌&&◌, List, [], ◌∷◌, Option, none, some, ltb,
  ◌==◌, if◌then◌else◌,
}
use driver_os.Agent.Evidence.{repaired}
use driver_os.Agent.Review.{Claim, Workspace, classify}
use driver_os.Agent.Review.Rounds.{
  ReviewStatus, clean, blocked, advisory, ReviewState, resolve_pending, expire_at, Tally, counted,
  set_semantic_status, Ruling, feed_back, block, passed_or, expire, rule, conclude, next_round,
  tally, review_round,
}
use driver_os.Agent.Review.Rounds.Waiting.{
  Tracks, IsSettled, Counts, IsSettled-Tracks, resolve_pending-IsSettled, counted-Counts,
  Counts-IsSettled, set_semantic_status-findings, set_semantic_status-Tracks,
  set_semantic_status-IsSettled, at-expire_at, expire-IsSettled,
}

-- What a round leaves: its findings track, none is pending unless they were fed back, and they are fed
-- back only where the run can continue and a round is left.
pub record IsRuled (can_continue : Bool) (x : Ruling × ReviewState) : Type 0 where
  tracks : Tracks x.1
  settled : x.0 ≢ feed_back → IsSettled x.1
  fed_back : x.0 ≡ feed_back → (can_continue ≡ true) × (x.1.rounds < x.1.max_rounds)

passed_or-IsRuled :
    (required can_continue : Bool) (s : ReviewState)
    → IsSettled s
    → IsRuled can_continue (passed_or required s)
unfolding passed_or
passed_or-IsRuled required can_continue s h = record {
  tracks = IsSettled-Tracks s h;
  settled = λ n. h;
  fed_back = λ e. ground arith;
}

expire-IsRuled :
    (can_continue : Bool) (s : ReviewState) → Tracks s → IsRuled can_continue (block, expire s)
expire-IsRuled can_continue s t = record {
  tracks = IsSettled-Tracks (expire s) (expire-IsSettled s t);
  settled = λ n. expire-IsSettled s t;
  fed_back = λ e. ground arith;
}

feed_back-IsRuled :
    (can_continue : Bool) (x : ReviewStatus) (s : ReviewState)
    → Tracks s
    → can_continue ≡ true
    → s.rounds < s.max_rounds
    → IsRuled can_continue (feed_back, set_semantic_status x s)
feed_back-IsRuled can_continue x s t c l =
    let (f, w, n, m) = set_semantic_status-findings x s in
    record {
      tracks = set_semantic_status-Tracks x s t;
      settled = λ n. absurd (n refl);
      fed_back = λ e. (c, omega (arith, l, n, m));
    }

IsRuled-if :
    (c b : Bool) (x y : Ruling × ReviewState)
    → (b ≡ true → IsRuled c x)
    → (b ≡ false → IsRuled c y)
    → IsRuled c (if b then x else y)
IsRuled-if c true x y h k = h refl
IsRuled-if c false x y h k = k refl

IsRuled-fed :
    (c b : Bool) (x y : ReviewState)
    → IsRuled c (feed_back, x)
    → IsRuled c (feed_back, y)
    → IsRuled c (feed_back, if b then x else y)
IsRuled-fed c true x y h k = h
IsRuled-fed c false x y h k = k

rule-IsRuled :
    (required can_continue : Bool) (t : Tally)
    → Counts t
    → IsRuled can_continue (rule required can_continue t)
unfolding rule
rule-IsRuled required can_continue t c =
    let s = t.state in
    let u = set_semantic_status blocked s in
    let (f, w, n, m) = set_semantic_status-findings blocked s in
    IsRuled-if can_continue (t.blocking == 0 && t.advising == 0) _ _
      (λ h.
        passed_or-IsRuled required can_continue (set_semantic_status clean s)
          (set_semantic_status-IsSettled clean s (Counts-IsSettled t c (ground (arith, h)))))
      (λ _.
        IsRuled-if can_continue (can_continue && ltb s.rounds s.max_rounds) _ _
          (λ h.
            IsRuled-fed can_continue (t.blocking == 0) _ _
              (feed_back-IsRuled can_continue advisory u
                (set_semantic_status-Tracks blocked s c.tracks) (ground (arith, h))
                (ground (arith, h, n, m)))
              (feed_back-IsRuled can_continue blocked s c.tracks (ground (arith, h))
                (ground (arith, h))))
          (λ _.
            IsRuled-if can_continue (t.blocking == 0) _ _
              (λ h.
                passed_or-IsRuled required can_continue (set_semantic_status advisory s)
                  (set_semantic_status-IsSettled advisory s (Counts-IsSettled t c h)))
              (λ _. expire-IsRuled can_continue s c.tracks)))

conclude-IsRuled :
    (required can_continue : Bool) (t : Tally) (o : Option ℕ)
    → Counts t
    → IsRuled can_continue (conclude required can_continue t o)
unfolding conclude
conclude-IsRuled required can_continue t none c = rule-IsRuled required can_continue t c
conclude-IsRuled required can_continue t (some j) c =
    expire-IsRuled can_continue (record (t.state) { findings = expire_at j t.state.findings })
      (record { waits = λ i r e p. c.tracks.waits i r (at-expire_at i j t.state.findings r e p) p })

next_round-Counts :
    (s : ReviewState)
    → Tracks s
    → Counts (record { blocking = 0; advising = 0; state = next_round s })
unfolding next_round resolve_pending
next_round-Counts s t = record {
  tracks = record {
    waits =
        (IsSettled-Tracks (resolve_pending repaired s)
          (resolve_pending-IsSettled repaired s refl t)).waits;
  };
  counts = refl;
}

module _ {ℓ} {W : Type ℓ} (space : Workspace W) where
  tally-Counts :
      (t : Tally) (fs : List Claim) (n : ℕ) (w : W) → Counts t → Counts (tally space t fs n w).0
  unfolding tally
  tally-Counts t [] n w c = c
  tally-Counts t (f ∷ fs) n w c =
      let (r, k, v) = classify space f n w in
      tally-Counts (counted t r) fs k v (counted-Counts t r c)

  -- From a state in which every pending finding waits, a round of review leaves such a state, whatever
  -- the claims: unless findings are fed back, no finding is pending any more, and they are fed back only
  -- where the run can continue and the rounds are below their bound.
  pub review_round-IsRuled :
      (required can_continue : Bool) (s : ReviewState) (claims : List Claim) (w : W)
      → Tracks s
      → IsRuled can_continue (review_round space required can_continue s claims w).0
  unfolding review_round
  review_round-IsRuled required can_continue s claims w t =
      conclude-IsRuled required can_continue _ _ (tally-Counts _ claims 2 w (next_round-Counts s t))
