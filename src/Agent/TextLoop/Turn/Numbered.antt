-- ===== src/Agent/TextLoop/Turn/Numbered.antt =====
-- The trace of a text run, and how far it goes.
use driver_os.Base.{
  ℕ, zero, suc, ◌+◌, ◌≤◌, ◌≡◌, ◌⊎◌, inl, inr, refl, sym, ap, ◌∙◌, arith, List, [], ◌∷◌, ◌++◌, Text,
}
use driver_os.Agent.Outcome.{Outcome}
use driver_os.Agent.Gates.{World}
use driver_os.Agent.Gates.Finish.{Reviews}
use driver_os.Agent.Gates.Rescue.{RunResult}
use driver_os.Agent.TextLoop.{Outside, LoopPolicy, LoopState, Step}
use driver_os.Agent.TextLoop.Calls.{Exit, closed, rescuable, Turn, going, ending}
use driver_os.Agent.TextLoop.Calls.Good.{IsNext, IsGood, goes_on, ends}
use driver_os.Agent.TextLoop.Turn.{turn, concluded, after, turns, text_loop}
use driver_os.Agent.TextLoop.Turn.Good.{turn-IsGood}

-- The turns of the steps.
abbrev pub numbers : List Step → List ℕ
numbers [] = []
numbers (e ∷ es) = e.iter ∷ numbers es

-- 1, 2, …, n
abbrev pub up_to : ℕ → List ℕ
up_to zero = []
up_to (suc n) = up_to n ++ (n + 1) ∷ []

numbers-append : (es : List Step) (e : Step) → numbers (es ++ e ∷ []) ≡ numbers es ++ e.iter ∷ []
numbers-append [] e = refl
numbers-append (d ∷ es) e = ap (λ x. d.iter ∷ x) (numbers-append es e)

suc-add : (k : ℕ) → suc k ≡ k + 1
suc-add k = omega arith

numbers-IsNext :
    (k : ℕ) (es fs : List Step)
    → numbers es ≡ up_to k
    → IsNext (k + 1) es fs
    → numbers fs ≡ up_to (k + 1)
numbers-IsNext k es fs h (e, i, m) =
    ap numbers m
    ∙ numbers-append es e
    ∙ ap (λ x. x ++ e.iter ∷ []) h
    ∙ ap (λ n. up_to k ++ n ∷ []) i
    ∙ ap up_to (suc-add k)

module _ {ℓ ℓ'} {W : Type ℓ} {D : Type ℓ'} (world : World W) (reviews : Reviews W)
    (outcome_text : Outcome → Text) (out : Outside W D) (pol : LoopPolicy D) where
  -- The turns 1, …, k of a run from this state and world, each of which went on.
  pub data Went (s : LoopState D) (w : W) : ℕ → LoopState D → W → Type (ℓ ⊔ ℓ') where
    from_start : Went s w 0 s w
    went :
        (k : ℕ) (u u' : LoopState D) (v v' : W)
        → Went s w k u v
        → turn world reviews outcome_text out pol (k + 1) u v ≡ going u' v'
        → Went s w (k + 1) u' v'

  -- How a run ends behind k turns that went on, with the state that it leaves: at the cap, or with the
  -- next turn, which ends it.
  pub data Ended (k : ℕ) (u : LoopState D) (v : W) (f : LoopState D) : Type (ℓ ⊔ ℓ') where
    at_cap : k ≡ pol.max_iter → f.steps ≡ u.steps → f.iterations ≡ k → Ended k u v f
    in_turn :
        (x : Exit) (e : LoopState D) (v' : W)
        → k + 1 ≤ pol.max_iter
        → turn world reviews outcome_text out pol (k + 1) u v ≡ ending x e v'
        → f.steps ≡ e.steps
        → f.iterations ≡ e.iterations
        → (f.iterations ≡ k) ⊎ (f.iterations ≡ k + 1)
        → Ended k u v f

  -- The state that a run leaves: its trace against the turns that it made.
  pub record IsNumbered (s : LoopState D) (w : W) (f : LoopState D) : Type (ℓ ⊔ ℓ') where
    pub count : ℕ
    pub last : LoopState D
    pub behind : W
    pub turns_made : Went s w count last behind
    pub end : Ended count last behind f
    pub steps : numbers f.steps ≡ up_to f.iterations

  concluded-state :
      (x : Exit) (u : LoopState D) (v : W)
      → let f = (concluded world reviews outcome_text out pol x u v).1 in
        (f.steps ≡ u.steps) × (f.iterations ≡ u.iterations)
  unfolding concluded
  concluded-state (closed res) u v = (refl, refl)
  concluded-state (rescuable res) u v = (refl, refl)

  same_numbers :
      (f u : LoopState D) (k : ℕ)
      → (f.steps ≡ u.steps) × (f.iterations ≡ u.iterations)
      → u.iterations ≡ k
      → numbers u.steps ≡ up_to k
      → numbers f.steps ≡ up_to f.iterations
  same_numbers f u k (a, b) i h = ap numbers a ∙ h ∙ ap up_to (sym (b ∙ i))

  module _ (s₀ : LoopState D) (w₀ : W) where
    ends-IsNumbered :
        (k : ℕ) (s u f : LoopState D) (w v : W) (x : Exit)
        → Went s₀ w₀ k s w
        → k + 1 ≤ pol.max_iter
        → turn world reviews outcome_text out pol (k + 1) s w ≡ ending x u v
        → numbers s.steps ≡ up_to k
        → ((u.steps ≡ s.steps) × (u.iterations + 1 ≡ k + 1))
          ⊎ (IsNext (k + 1) s.steps u.steps × (u.iterations ≡ k + 1))
        → (f.steps ≡ u.steps) × (f.iterations ≡ u.iterations)
        → IsNumbered s₀ w₀ f
    ends-IsNumbered k s u f w v x c b t h (inl (e, i)) q =
        let j : u.iterations ≡ k = omega arith in
        record {
          count = k;
          last = s;
          behind = w;
          turns_made = c;
          end = in_turn x u v b t q.0 q.1 (inl (q.1 ∙ j));
          steps = same_numbers f u k q j (ap numbers e ∙ h);
        }
    ends-IsNumbered k s u f w v x c b t h (inr (e, i)) q = record {
      count = k;
      last = s;
      behind = w;
      turns_made = c;
      end = in_turn x u v b t q.0 q.1 (inr (q.1 ∙ i));
      steps = same_numbers f u (k + 1) q i (numbers-IsNext k s.steps u.steps h e);
    }

    capped-IsNumbered :
        (k : ℕ) (res : RunResult) (s : LoopState D) (w : W)
        → Went s₀ w₀ k s w
        → k ≡ pol.max_iter
        → numbers s.steps ≡ up_to k
        → s.iterations ≡ k
        → IsNumbered s₀ w₀ (concluded world reviews outcome_text out pol (rescuable res) s w).1
    capped-IsNumbered k res s w c e h i =
        let q = concluded-state (rescuable res) s w in
        record {
          count = k;
          last = s;
          behind = w;
          turns_made = c;
          end = at_cap e q.0 (q.1 ∙ i);
          steps =
              same_numbers (concluded world reviews outcome_text out pol (rescuable res) s w).1 s k
                q i h;
        }

    after-IsNumbered :
        (k : ℕ) (s : LoopState D) (w : W) (t : Turn W D)
        (more : LoopState D → W → RunResult × LoopState D × W)
        → IsGood world reviews outcome_text out pol (k + 1) s.steps t
        → turn world reviews outcome_text out pol (k + 1) s w ≡ t
        → Went s₀ w₀ k s w
        → k + 1 ≤ pol.max_iter
        → numbers s.steps ≡ up_to k
        → ((u : LoopState D) (v : W)
            → Went s₀ w₀ (k + 1) u v
            → numbers u.steps ≡ up_to (k + 1)
            → u.iterations ≡ k + 1
            → IsNumbered s₀ w₀ (more u v).1)
        → IsNumbered s₀ w₀ (after world reviews outcome_text out pol t more).1
    after-IsNumbered k s w _ more (goes_on u v e i) q c b h m =
        m u v (went k s u w v c q) (numbers-IsNext k s.steps u.steps h e) i
    after-IsNumbered k s w _ more (ends x u v f e) q c b h m =
        ends-IsNumbered k s u _ w v x c b q h e (concluded-state x u v)

    turns-IsNumbered :
        (m k : ℕ) (s : LoopState D) (w : W)
        → m + k ≡ pol.max_iter
        → Went s₀ w₀ k s w
        → numbers s.steps ≡ up_to k
        → s.iterations ≡ k
        → IsNumbered s₀ w₀ (turns world reviews outcome_text out pol m (k + 1) s w).1
    unfolding turns
    turns-IsNumbered zero k s w e c h i = capped-IsNumbered k _ s w c (omega arith) h i
    turns-IsNumbered (suc m) k s w e c h i =
        after-IsNumbered k s w (turn world reviews outcome_text out pol (k + 1) s w) _
          (turn-IsGood world reviews outcome_text out pol (k + 1) s w (ap (λ n. n + 1) i)) refl c
          (omega arith) h (λ u v d g j. turns-IsNumbered m (k + 1) u v (omega arith) d g j)

  -- A text run from an empty trace, whatever the model says and the tools do: a number of turns went on,
  -- one behind the other from the start, and then the run ended, at the cap or with the next turn, which
  -- is within the cap. Its trace has the step of each turn 1, 2, … up to the turns that the run counts,
  -- in that order and each once, and it counts every turn that went on, and the one that ended it or not.
  pub text_loop-IsNumbered :
      (s : LoopState D) (w : W)
      → s.steps ≡ []
      → s.iterations ≡ 0
      → IsNumbered s w (text_loop world reviews outcome_text out pol s w).1
  unfolding text_loop
  text_loop-IsNumbered s w e i =
      turns-IsNumbered s w pol.max_iter 0 s w (omega arith) from_start (ap numbers e) i
