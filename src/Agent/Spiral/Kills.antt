-- ===== src/Agent/Spiral/Kills.antt =====
-- When a stretch of discovery turns ends in a kill, and when it may go on.
use driver_os.Base.{
  ℕ, ◌+◌, ◌*◌, ◌≤◌, ◌<◌, ◌≡◌, refl, arith, Bool, true, false, not, ◌&&◌, ◌||◌, List, [], ◌∷◌, ◌++◌,
  Text, leb, if◌then◌else◌, length,
}
use driver_os.Agent.Spiral.{
  SpiralState, SpiralKillKind, kill_none, kill_cycle, kill_wander, elem, drop_oldest, add, visit,
  counted, insert, bump_cycle, bump_wander, observe_discovery_turn,
}

-- Some target was not seen before.
unfoldable pub any_new : List Text → List Text → Bool
any_new visited [] = false
any_new visited (tgt ∷ tgts) = not (elem tgt visited) || any_new visited tgts

visit-true : (tgts : List Text) (s : SpiralState) → (visit true s tgts).0 ≡ true
unfolding visit
visit-true [] s = refl
visit-true (tgt ∷ tgts) s = visit-true tgts (if elem tgt s.visited then s else add s tgt)

-- The flag of the loop says whether the turn reveals a target that was not seen when it began.
visit-novel : (tgts : List Text) (s : SpiralState) → (visit false s tgts).0 ≡ any_new s.visited tgts
unfolding visit any_new
visit-novel [] s = refl
visit-novel (tgt ∷ tgts) s =
    ground (arith, visit-novel tgts s, visit-true tgts (add s tgt), visit-true tgts s)

-- Where it reveals none, the loop leaves the state alone.
visit-old :
    (tgts : List Text) (s : SpiralState)
    → any_new s.visited tgts ≡ false
    → (visit false s tgts).1 ≡ s
unfolding visit any_new
visit-old [] s h = refl
visit-old (tgt ∷ tgts) s h = ground (arith, visit-old tgts s)

record SameCounts (s t : SpiralState) : Type 0 where
  same_policy : t.policy ≡ s.policy
  same_window : t.window ≡ s.window
  same_cycle : t.cycle_run ≡ s.cycle_run
  same_wander : t.wander ≡ s.wander

drop_oldest-SameCounts : (s : SpiralState) (l : List Text) → SameCounts s (drop_oldest s l)
unfolding drop_oldest
drop_oldest-SameCounts s [] = ground arith
drop_oldest-SameCounts s (x ∷ l) = ground arith

add-SameCounts : (s : SpiralState) (tgt : Text) → SameCounts s (add s tgt)
unfolding add
add-SameCounts s tgt =
    let g = record s { visited = insert tgt s.visited; order = s.order ++ tgt ∷ [] } in
    ground (arith, drop_oldest-SameCounts g (s.order ++ tgt ∷ []))

visit-SameCounts :
    (tgts : List Text) (novel : Bool) (s : SpiralState) → SameCounts s (visit novel s tgts).1
unfolding visit
visit-SameCounts [] novel s = ground arith
visit-SameCounts (tgt ∷ tgts) novel s = ground (
  arith,
  add-SameCounts s tgt,
  visit-SameCounts tgts (novel || not (elem tgt s.visited)) s,
  visit-SameCounts tgts (novel || not (elem tgt s.visited)) (add s tgt),
)

module _ (show : ℕ → Text) where
  -- The counts behind a discovery turn, and the kind of kill.
  record Behind (s t : SpiralState) (novel : Bool) (kind : SpiralKillKind) : Type 0 where
    policy_kept : t.policy ≡ s.policy
    window_kept : t.window ≡ s.window
    wander_counts : t.wander ≡ s.wander + 1
    cycle_counts : t.cycle_run ≡ (if novel then 0 else s.cycle_run + 1)
    kind_is : kind ≡ (
        if leb s.window t.cycle_run
        then kill_cycle
        else if leb (s.policy.wander_multiple * s.window) t.wander
        then kill_wander
        else kill_none)

  abbrev after : SpiralState → List Text → SpiralState
  after s tgts = (observe_discovery_turn show s tgts).0

  abbrev kind_of : SpiralState → List Text → SpiralKillKind
  kind_of s tgts = (observe_discovery_turn show s tgts).1

  turn-Behind :
      (s : SpiralState) (tgts : List Text)
      → Behind s (after s tgts) (any_new s.visited tgts) (kind_of s tgts)
  unfolding observe_discovery_turn counted bump_cycle bump_wander
  turn-Behind s tgts = ground (arith, visit-SameCounts tgts false s, visit-novel tgts s)

  abbrev goes_on : SpiralKillKind → Bool
  goes_on kill_none = true
  goes_on _ = false

  -- No turn of the stretch ends the run.
  unfoldable pub survives : SpiralState → List (List Text) → Bool
  survives s [] = true
  survives s (tgts ∷ turns) = goes_on (kind_of s tgts) && survives (after s tgts) turns

  goes_on-turn :
      (s : SpiralState) (tgts : List Text)
      → goes_on (kind_of s tgts) ≡ true
      → ((after s tgts).cycle_run < s.window)
        × ((after s tgts).wander < s.policy.wander_multiple * s.window)
  goes_on-turn s tgts h = ground (arith, turn-Behind s tgts)

  turn-goes_on :
      (s : SpiralState) (tgts : List Text)
      → (after s tgts).cycle_run < s.window
      → (after s tgts).wander < s.policy.wander_multiple * s.window
      → goes_on (kind_of s tgts) ≡ true
  turn-goes_on s tgts c w = ground (arith, turn-Behind s tgts)

  bound-after :
      (s : SpiralState) (tgts : List Text)
      → (after s tgts).policy.wander_multiple * (after s tgts).window
        ≡ s.policy.wander_multiple * s.window
  bound-after s tgts = ground (arith, turn-Behind s tgts)

  -- Whatever the targets, a stretch of discovery turns that goes on is shorter than the wandering
  -- bound: as many turns as the multiple of the window end the run.
  pub survives-wander :
      (turns : List (List Text)) (s : SpiralState)
      → 0 < length turns
      → survives s turns ≡ true
      → s.wander + length turns < s.policy.wander_multiple * s.window
  unfolding survives
  survives-wander [] s pos h = elim pos [ ]
  survives-wander (tgts ∷ []) s pos h = ground (arith, turn-Behind s tgts, goes_on-turn s tgts)
  survives-wander (tgts ∷ next ∷ turns) s pos h =
      ground (
        arith,
        turn-Behind s tgts,
        bound-after s tgts,
        survives-wander (next ∷ turns) (after s tgts),
      )

  -- Every turn reveals a target that was not seen when it began.
  unfoldable pub all_new : SpiralState → List (List Text) → Bool
  all_new s [] = true
  all_new s (tgts ∷ turns) = any_new s.visited tgts && all_new (after s tgts) turns

  -- Orientation is not killed: where each turn reveals something new, the run goes on up to the
  -- wandering bound.
  pub survives_new :
      (turns : List (List Text)) (s : SpiralState)
      → 0 < s.window
      → all_new s turns ≡ true
      → s.wander + length turns < s.policy.wander_multiple * s.window
      → survives s turns ≡ true
  unfolding survives all_new
  survives_new [] s pos n h = refl
  survives_new (tgts ∷ turns) s pos n h = ground (
    arith,
    turn-Behind s tgts,
    bound-after s tgts,
    turn-goes_on s tgts,
    survives_new turns (after s tgts),
  )

  visited-after :
      (s : SpiralState) (tgts : List Text)
      → any_new s.visited tgts ≡ false
      → (after s tgts).visited ≡ s.visited
  unfolding observe_discovery_turn counted bump_cycle bump_wander
  visited-after s tgts h = ground (arith, visit-old tgts s)

  -- No turn reveals a target that is not in this set.
  unfoldable pub all_old : List Text → List (List Text) → Bool
  all_old visited [] = true
  all_old visited (tgts ∷ turns) = not (any_new visited tgts) && all_old visited turns

  -- Going in a circle is killed: a window of turns that revisit seen targets only ends the run.
  pub survives_old :
      (turns : List (List Text)) (s : SpiralState)
      → 0 < length turns
      → all_old s.visited turns ≡ true
      → s.window ≤ s.cycle_run + length turns
      → survives s turns ≡ false
  unfolding survives all_old
  survives_old [] s pos n h = elim pos [ ]
  survives_old (tgts ∷ []) s pos n h = ground (arith, turn-Behind s tgts, goes_on-turn s tgts)
  survives_old (tgts ∷ next ∷ turns) s pos n h =
      ground (
        arith,
        turn-Behind s tgts,
        visited-after s tgts,
        survives_old (next ∷ turns) (after s tgts),
      )
