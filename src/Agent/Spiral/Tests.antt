-- ===== src/Agent/Spiral/Tests.antt =====
-- The discovery detector at the default policy.
use driver_os.Base.{
  ℕ, ◌+◌, ◌*◌, ◌<◌, ◌≡◌, refl, arith, true, List, [], ◌∷◌, none, Text, codes, length, text_eq,
}
use driver_os.Agent.Policy.{default_termination_policy}
use driver_os.Agent.Spiral.{
  SpiralState, new_spiral_state, elem, insert, add, visit, counted, observe_discovery_turn,
}
use driver_os.Agent.Spiral.Frontier.{
  discovery, progress, take_turns, IsFrontier, take_turns-IsFrontier,
}
use driver_os.Agent.Spiral.Kills.{
  any_new, survives, all_new, all_old, survives-wander, survives_new,
}

abbrev digits : ℕ → Text
digits n = codes "4"

abbrev start : SpiralState
start = new_spiral_state default_termination_policy none

abbrev fresh : List (List Text)
fresh = (codes "a" ∷ []) ∷ (codes "b" ∷ codes "a" ∷ []) ∷ []

-- Behind one look at two directories, four looks at them again.
abbrev seen : SpiralState
seen = record start { visited = codes "a" ∷ codes "b" ∷ []; order = codes "b" ∷ codes "a" ∷ [] }

abbrev circle : List (List Text)
circle = (codes "a" ∷ []) ∷ (codes "b" ∷ []) ∷ (codes "a" ∷ codes "b" ∷ []) ∷ (codes "b" ∷ []) ∷ []

take_turns-IsFrontier_example : IsFrontier (
    take_turns digits start
      (discovery (codes "a" ∷ codes "b" ∷ []) ∷ progress ∷ discovery (codes "a" ∷ []) ∷ []))
take_turns-IsFrontier_example =
    take_turns-IsFrontier digits default_termination_policy none
      (discovery (codes "a" ∷ codes "b" ∷ []) ∷ progress ∷ discovery (codes "a" ∷ []) ∷ [])

fresh_new : all_new digits start fresh ≡ true
unfolding all_new any_new observe_discovery_turn visit add elem insert counted text_eq
    new_spiral_state
fresh_new = refl

fresh_survives : survives digits start fresh ≡ true
unfolding survives observe_discovery_turn visit add elem insert counted text_eq new_spiral_state
fresh_survives = refl

circle_old : all_old digits seen.visited circle ≡ true
unfolding all_old any_new elem text_eq
circle_old = refl

survives-wander_example : start.wander + length fresh < start.policy.wander_multiple * start.window
unfolding new_spiral_state
survives-wander_example = survives-wander digits fresh start (omega arith) fresh_survives

survives_new_example : survives digits start fresh ≡ true
unfolding new_spiral_state
survives_new_example = survives_new digits fresh start (omega arith) fresh_new (omega arith)
