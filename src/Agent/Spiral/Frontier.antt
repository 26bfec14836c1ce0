-- ===== src/Agent/Spiral/Frontier.antt =====
-- The frontier of visited targets: the map and the order agree, and the cap holds.
use driver_os.Base.{
  ℕ, ◌+◌, ◌≤◌, ◌<◌, ◌≡◌, refl, ap, arith, Bool, true, false, not, ◌&&◌, ◌||◌, List, [], ◌∷◌, ◌++◌,
  Text, ltb, if◌then◌else◌, text_eq, text_eq_iff, length, length-append, Bool-cases, inl, inr,
  ltb→lt, Option,
}
use driver_os.Agent.Policy.{TerminationPolicy, DetectorCounters}
use driver_os.Agent.Spiral.{
  SpiralState, new_spiral_state, elem, insert, delete, drop_oldest, add, visit, counted, bump_cycle,
  bump_wander, observe_discovery_turn, reset,
}

-- No target stands twice in the list.
pub distinct : List Text → Bool
distinct [] = true
distinct (x ∷ xs) = not (elem x xs) && distinct xs

-- `visited` holds what `order` lists, each once, and no more than the cap.
pub record IsFrontier (s : SpiralState) : Type 0 where
  pub agrees : (x : Text) → elem x s.visited ≡ elem x s.order
  pub once : distinct s.order ≡ true
  pub capped : length s.order ≤ s.policy.frontier_cap

elem-insert : (x y : Text) (l : List Text) → elem x (insert y l) ≡ (text_eq y x || elem x l)
unfolding elem insert
elem-insert x y l = ground (arith, text_eq_iff y x)

elem-delete : (x y : Text) (l : List Text) → elem x (delete y l) ≡ (not (text_eq y x) && elem x l)
unfolding elem delete
elem-delete x y [] = ground arith
elem-delete x y (z ∷ l) =
    ground (arith, elem-delete x y l, text_eq_iff z y, text_eq_iff z x, text_eq_iff y x)

elem-append : (x y : Text) (l : List Text) → elem x (l ++ y ∷ []) ≡ (elem x l || text_eq y x)
unfolding elem
elem-append x y [] = ground arith
elem-append x y (z ∷ l) = ground (arith, elem-append x y l)

distinct-append :
    (y : Text) (l : List Text)
    → elem y l ≡ false
    → distinct l ≡ true
    → distinct (l ++ y ∷ []) ≡ true
unfolding distinct elem
distinct-append y [] h d = refl
distinct-append y (z ∷ l) h d =
    ground (arith, distinct-append y l, elem-append z y l, text_eq_iff z y, text_eq_iff y z)

-- The frontier with `tgt` put in, and the oldest target out.
module _ (s : SpiralState) (tgt : Text) where
  abbrev grown : SpiralState
  grown = record s { visited = insert tgt s.visited; order = s.order ++ tgt ∷ [] }

  grown-agrees : IsFrontier s → (x : Text) → elem x grown.visited ≡ elem x grown.order
  grown-agrees f x =
      ground (arith, elem-insert x tgt s.visited, elem-append x tgt s.order, f.agrees x)

  grown-once : IsFrontier s → elem tgt s.visited ≡ false → distinct grown.order ≡ true
  grown-once f new = distinct-append tgt s.order (ground (arith, f.agrees tgt)) f.once

drop_oldest-IsFrontier :
    (s : SpiralState) (l : List Text)
    → s.order ≡ l
    → ((x : Text) → elem x s.visited ≡ elem x s.order)
    → distinct s.order ≡ true
    → length s.order ≤ s.policy.frontier_cap + 1
    → s.policy.frontier_cap < length s.order
    → IsFrontier (drop_oldest s l)
unfolding drop_oldest
drop_oldest-IsFrontier s [] e agrees once small big =
    absurd (omega (arith, ap (λ (o : List Text). length o) e))
drop_oldest-IsFrontier s (y ∷ l) e agrees once small big = record {
  agrees = λ x.
      unfold elem distinct in ground (arith, elem-delete x y s.visited, agrees x, text_eq_iff y x);
  once = unfold distinct in ground arith;
  capped = omega (arith, ap (λ (o : List Text). length o) e);
}

add-IsFrontier :
    (s : SpiralState) (tgt : Text)
    → IsFrontier s
    → elem tgt s.visited ≡ false
    → IsFrontier (add s tgt)
unfolding add
add-IsFrontier s tgt f new =
    let g = grown s tgt in
    let agrees = grown-agrees s tgt f in
    let once = grown-once s tgt f new in
    let size = length-append s.order (tgt ∷ []) in
    elim (Bool-cases (ltb s.policy.frontier_cap (length (s.order ++ tgt ∷ [])))) [
      | inl big ↦ rw big (
          drop_oldest-IsFrontier g (s.order ++ tgt ∷ []) refl agrees once
            (omega (arith, size, f.capped)) (ltb→lt _ _ big))
      | inr small ↦ rw small (record { agrees = agrees; once = once; capped = ground arith })
    ]

add_if_new-IsFrontier :
    (s : SpiralState) (tgt : Text)
    → IsFrontier s
    → IsFrontier (if elem tgt s.visited then s else add s tgt)
add_if_new-IsFrontier s tgt f = elim (Bool-cases (elem tgt s.visited)) [
  | inl old ↦ rw old f
  | inr new ↦ rw new (add-IsFrontier s tgt f new)
]

visit-IsFrontier :
    (tgts : List Text) (novel : Bool) (s : SpiralState)
    → IsFrontier s
    → IsFrontier (visit novel s tgts).1
unfolding visit
visit-IsFrontier [] novel s f = f
visit-IsFrontier (tgt ∷ tgts) novel s f =
    visit-IsFrontier tgts (novel || not (elem tgt s.visited))
      (if elem tgt s.visited then s else add s tgt) (add_if_new-IsFrontier s tgt f)

-- A turn of the loop: discovery of some targets, or progress of another kind.
pub data Turn : Type 0 where
  discovery : List Text → Turn
  progress : Turn

pub take_turn : (ℕ → Text) → SpiralState → Turn → SpiralState
take_turn show s (discovery tgts) = (observe_discovery_turn show s tgts).0
take_turn show s progress = reset s

pub take_turns : (ℕ → Text) → SpiralState → List Turn → SpiralState
take_turns show s [] = s
take_turns show s (t ∷ ts) = take_turns show (take_turn show s t) ts

IsFrontier-same :
    (s t : SpiralState)
    → t.visited ≡ s.visited
    → t.order ≡ s.order
    → t.policy ≡ s.policy
    → IsFrontier s
    → IsFrontier t
IsFrontier-same s t v o p f = record {
  agrees = λ x. rw (v, o) (f.agrees x);
  once = rw o f.once;
  capped = rw (o, p) f.capped;
}

take_turn-IsFrontier :
    (show : ℕ → Text) (s : SpiralState) (t : Turn) → IsFrontier s → IsFrontier (take_turn show s t)
unfolding take_turn
take_turn-IsFrontier show s (discovery tgts) f =
    let u = (visit false s tgts).1 in
    unfold observe_discovery_turn counted bump_cycle bump_wander in
    IsFrontier-same u _ (ground arith) (ground arith) (ground arith)
      (visit-IsFrontier tgts false s f)
take_turn-IsFrontier show s progress f =
    unfold reset distinct in record { agrees = λ x. refl; once = refl; capped = omega arith }

take_turns-keep :
    (show : ℕ → Text) (ts : List Turn) (s : SpiralState)
    → IsFrontier s
    → IsFrontier (take_turns show s ts)
unfolding take_turns
take_turns-keep show [] s f = f
take_turns-keep show (t ∷ ts) s f =
    take_turns-keep show ts (take_turn show s t) (take_turn-IsFrontier show s t f)

new_spiral_state-IsFrontier :
    (policy : TerminationPolicy) (counters : Option DetectorCounters)
    → IsFrontier (new_spiral_state policy counters)
unfolding new_spiral_state distinct
new_spiral_state-IsFrontier policy counters = record {
  agrees = λ x. refl;
  once = refl;
  capped = omega arith;
}

-- Over every sequence of turns the frontier stays sound: the set of visited targets is what the
-- eviction order lists, no target is listed twice, and the list never passes the cap of the policy.
pub take_turns-IsFrontier :
    (show : ℕ → Text) (policy : TerminationPolicy) (counters : Option DetectorCounters)
    (ts : List Turn)
    → IsFrontier (take_turns show (new_spiral_state policy counters) ts)
take_turns-IsFrontier show policy counters ts =
    take_turns-keep show ts (new_spiral_state policy counters)
      (new_spiral_state-IsFrontier policy counters)
