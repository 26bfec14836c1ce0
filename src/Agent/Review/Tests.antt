-- ===== src/Agent/Review/Tests.antt =====
-- A workspace whose state is its tree, and a repro command that fails and leaves a file behind.
use driver_os.Base.{
  ◌≤◌, ◌≡◌, List, ◌⊎◌, refl, arith, true, false, [], ◌∷◌, some, Text, codes, is_empty, text_eq,
  trim_space, contains, to_lower, has_prefix,
}
use driver_os.Agent.Review.{
  Claim, Workspace, content, is_blocker, names_file, by_confidence, blocker_ladder, is_grounded,
  block_confidence, classify,
}
use driver_os.Agent.Review.Standing.{is_pending, HasFailed, classify-backed}
use driver_os.Agent.Review.Rounds.{
  ReviewState, no_status, at, review_round, next_round, resolve_pending, tally, counted,
  record_finding, find_recurring, conclude, rule, resolve_at, resolve_all, earlier, expire_at,
  expire, set_semantic_status, passed_or,
}
use driver_os.Agent.Review.Rounds.Waiting.{Tracks}
use driver_os.Agent.Review.Rounds.Pending.{IsRuled, review_round-IsRuled}
use driver_os.Agent.Review.Rounds.Bounded.{Asked, feedbacks, feedbacks-bounded}

abbrev space : Workspace Text
space = record {
  read = λ path w. content (codes "if n > 0 {");
  write_tree = λ w. some w;
  run = λ cmd w. (some (codes "exit 1 (took 0.1s)"), codes "dirty");
  drift = λ w. false;
  restore_fence = λ w. (true, w);
  restore_tree = λ t w. (true, t);
}

abbrev claim : Claim
claim = record {
  file = codes "queue.go";
  quote = codes "n > 0";
  severity = codes "Blocker";
  confidence = 9;
  repro_cmd = [];
}

abbrev start : ReviewState
start = record {
  max_rounds = 2;
  rounds = 0;
  status = no_status;
  is_blocked = false;
  findings = [];
  waiting = [];
}

claim_blocks : is_pending (classify space claim 2 (codes "t1")).0.fate ≡ true
unfolding classify is_grounded names_file is_blocker blocker_ladder by_confidence trim_space
    to_lower text_eq contains has_prefix
claim_blocks = refl

classify-backed_example :
    (is_empty (trim_space claim.quote) ≡ false)
    × (is_grounded space claim (codes "t1") ≡ true)
    × (is_blocker claim ≡ true)
    × (HasFailed space claim (codes "t1") ⊎ (block_confidence ≤ 9))
classify-backed_example = classify-backed space claim 2 (codes "t1") claim_blocks

abbrev dirty : Claim
dirty = record claim { repro_cmd = codes "go test -run TestQueue" }

start-Tracks : Tracks start
unfolding at
start-Tracks = record { waits = λ i r e p. ground arith }

review_round-IsRuled_example :
    IsRuled true (review_round space false true start (claim ∷ claim ∷ []) (codes "t1")).0
review_round-IsRuled_example =
    review_round-IsRuled space false true start (claim ∷ claim ∷ []) (codes "t1") start-Tracks

abbrev asked : List Asked
asked =
    record { can_continue = true; claims = claim ∷ [] }
    ∷ record { can_continue = true; claims = claim ∷ [] }
    ∷ []

fed_back_once : feedbacks space false start asked (codes "t1") ≡ 1
unfolding feedbacks at review_round resolve_at resolve_all earlier expire_at expire
    set_semantic_status passed_or next_round resolve_pending tally counted record_finding
    find_recurring conclude rule classify is_grounded names_file is_blocker blocker_ladder
    by_confidence trim_space to_lower text_eq contains has_prefix
fed_back_once = refl

feedbacks-bounded_example : feedbacks space false start asked (codes "t1") ≤ 1
feedbacks-bounded_example = feedbacks-bounded space false start asked (codes "t1")
