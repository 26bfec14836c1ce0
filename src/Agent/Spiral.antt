-- ===== src/Agent/Spiral.antt =====
-- agent/tracker.go: spiralState, the detector of discovery turns that lead nowhere. The set `visited` is
-- the list of its keys.
pub mod Frontier
pub mod Kills
mod Tests
use driver_os.Base.{
  ℕ, ◌+◌, ◌*◌, Bool, true, false, not, ◌||◌, List, [], ◌∷◌, ◌++◌, Option, none, some, Text, codes,
  leb, ltb, if◌then◌else◌, text_eq, length,
}
use driver_os.Agent.Policy.{TerminationPolicy, DetectorCounters}

pub record SpiralState : Type 0 where
  pub policy : TerminationPolicy
  pub counters : Option DetectorCounters
  pub window : ℕ
  pub visited : List Text
  pub order : List Text
  pub cycle_run : ℕ
  pub wander : ℕ

pub data SpiralKillKind : Type 0 where
  kill_none kill_cycle kill_wander : SpiralKillKind

unfoldable pub new_spiral_state : TerminationPolicy → Option DetectorCounters → SpiralState
new_spiral_state policy counters = record {
  policy = policy;
  counters = counters;
  window = policy.nav_spiral_window;
  visited = [];
  order = [];
  cycle_run = 0;
  wander = 0;
}

-- Reads and writes of the map `visited`.
unfoldable pub elem : Text → List Text → Bool
elem x [] = false
elem x (y ∷ ys) = text_eq y x || elem x ys

unfoldable pub insert : Text → List Text → List Text
insert x ys = if elem x ys then ys else x ∷ ys

unfoldable pub delete : Text → List Text → List Text
delete x [] = []
delete x (y ∷ ys) = let rest = delete x ys in if text_eq y x then rest else y ∷ rest

-- `delete(s.visited, s.order[0]); s.order = s.order[1:]`
drop_oldest : SpiralState → List Text → SpiralState
drop_oldest s [] = s
drop_oldest s (x ∷ rest) = record s { visited = delete x s.visited; order = rest }

pub add : SpiralState → Text → SpiralState
add s tgt =
    let u = record s { visited = insert tgt s.visited; order = s.order ++ tgt ∷ [] } in
    if ltb u.policy.frontier_cap (length u.order) then drop_oldest u u.order else u

-- The loop over the targets; the flag is `novel`.
pub visit : Bool → SpiralState → List Text → Bool × SpiralState
visit novel s [] = (novel, s)
visit novel s (tgt ∷ tgts) =
    let seen = elem tgt s.visited in visit (novel || not seen) (if seen then s else add s tgt) tgts

bump_cycle : DetectorCounters → DetectorCounters
bump_cycle c = record c { spiral_cycle = c.spiral_cycle + 1 }

bump_wander : DetectorCounters → DetectorCounters
bump_wander c = record c { spiral_wander = c.spiral_wander + 1 }

-- The counters, if there are any.
counted : (DetectorCounters → DetectorCounters) → SpiralState → SpiralState
counted bump s = elim s.counters [ none ↦ s | some c ↦ record s { counters = some (bump c) } ]

module _ (show : ℕ → Text) where
  unfoldable pub cycle_reason : ℕ → Text
  cycle_reason n =
      codes "no progress: "
      ++ show n
      ++ codes
          " discovery turns revisiting only already-seen targets (list_dir/search) — read or edit a specific target, or answer"

  unfoldable pub wander_reason : ℕ → Text
  wander_reason n =
      codes "no progress: "
      ++ show n
      ++ codes
          " discovery-only turns without reading, editing, or running anything — follow a pointer to a concrete target, or answer"

  pub observe_discovery_turn : SpiralState → List Text → SpiralState × SpiralKillKind × Text
  observe_discovery_turn s targets =
      let (novel, u) = visit false s targets in
      let v = record u {
        wander = u.wander + 1;
        cycle_run = if novel then 0 else u.cycle_run + 1;
      } in
      if leb v.window v.cycle_run
      then (counted bump_cycle v, kill_cycle, cycle_reason v.cycle_run)
      else if leb (v.policy.wander_multiple * v.window) v.wander
      then (counted bump_wander v, kill_wander, wander_reason v.wander)
      else (v, kill_none, [])

unfoldable pub reset : SpiralState → SpiralState
reset s = record s { cycle_run = 0; wander = 0; visited = []; order = [] }
