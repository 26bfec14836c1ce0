-- ===== src/Agent/TextLoop.antt =====
-- agent/loop_text.go: what the loop of the text protocol keeps, and its parts beside the detectors and the
-- gates. The model, the tools and the clock act on the state `W` of the world and are parameters. The
-- counters of the detectors, the notes to the observer and the latencies are left out.
pub mod Action
pub mod Budget
pub mod Calls
pub mod Turn
mod Tests
use driver_os.Base.{
  ℕ, ◌+◌, ◌-◌, Bool, true, false, not, ◌&&◌, ◌||◌, List, [], ◌∷◌, ◌++◌, Option, none, some, Text,
  codes, ltb, leb, ◌==◌, if◌then◌else◌, is_empty, text_eq, has_prefix, trim_space, length,
  clean_path, drop,
}
use driver_os.Agent.Outcome.{
  Outcome, no_outcome, hit_deadline, hit_context_limit, provider_err, canceled,
}
use driver_os.Agent.Spend.{Usage, Spend, usage_reported, usd, floor, reported}
use driver_os.Agent.Tracker.{TurnTracker}
use driver_os.Agent.Spiral.{SpiralState}
use driver_os.Agent.Evidence.{EvidenceLog}
use driver_os.Agent.Gates.{Gates}
use driver_os.Agent.Gates.Rescue.{RunResult}
use driver_os.Agent.Policy.{TerminationPolicy}

pub data Message : Type 0 where
  user assistant : Text → Message

-- llm.Response: its text, the signature of its reasoning, and its usage.
pub record Response {ℓ} (D : Type ℓ) : Type ℓ where
  pub text : Text
  pub reasoning : Text
  pub usage : Usage D

-- What a failed generation is: whether it is llm.ErrContextLength, and its words.
pub record Failure : Type 0 where
  pub context_length : Bool
  pub words : Text

-- generateWithEviction: the messages may come back shrunk.
pub data Generated {ℓ} (D : Type ℓ) : Type ℓ where
  replied : Response D → List Message → Generated D
  broke : Failure → List Message → Generated D

-- A tool's result: an output, or the words of an error.
pub data ToolOutput : Type 0 where
  output : Text → ToolOutput
  error : Text → ToolOutput

-- What the loop asks of the world beside the gates. The wording of the stops of the dollar budget, on a
-- price or for want of one, and of the duration is a parameter.
pub record Outside {ℓ ℓ'} (W : Type ℓ) (D : Type ℓ') : Type (ℓ ⊔ ℓ') where
  -- time.Since(start) > MaxWallClock, and the deadline of the loop's context.
  pub overdue : W → Bool
  pub expired : W → Bool
  pub generate : List Message → W → Generated D × W
  -- The tool of a name, where there is one.
  pub tool : Text → Option (Text → W → ToolOutput × W)
  pub tool_names : List Text
  -- The diagnostics command, where it is due: its output, none if it could not run, and what it leaves.
  pub diagnose : Text → W → Option Text × W
  pub hash : Text → Text
  -- truncate of agent/generate.go, and the decoder of parseAction.
  pub truncate : Text → Text
  pub decode : Text → Option (List (Text × Option Text))
  pub wall_clock_text : Text
  pub cost_reason : Bool → ℕ → Text
  -- The dollars, their comparison, and CostFn, where there is one.
  pub zero_usd : D
  pub plus : D → D → D
  pub at_least : D → D → Bool
  pub cost_fn : Option (Usage D → Option D)

-- The fields of the policy that the loop reads. A budget that is not positive is none.
pub record LoopPolicy {ℓ} (D : Type ℓ) : Type ℓ where
  pub max_iter : ℕ
  pub has_wall_clock : Bool
  pub max_total_tokens : ℕ
  pub max_total_cost : Option D
  pub allow_unpriced : Bool
  pub solver_model : Text
  pub termination : TerminationPolicy

-- A step of the trace.
pub record Step : Type 0 where
  pub iter : ℕ
  pub verb : Text
  pub arg : Text
  pub observation : Text
  pub grounded : Bool

-- The variables of the loop, with the fields of the result that it adds to.
pub record LoopState {ℓ} (D : Type ℓ) : Type ℓ where
  pub messages : List Message
  pub last_action : Text
  pub last_read_sig : Text
  pub last_read_obs : Text
  pub last_executed_sig : Text
  pub seen : List (Text × ℕ)
  pub repeats : ℕ
  pub spiral : SpiralState
  pub last_reasoning : Text
  pub tracker : TurnTracker
  pub grounded : Bool
  pub usage : Usage D
  pub spend : Option (Spend D)
  pub gates : Gates
  pub steps : List Step
  pub iterations : ℕ

-- The fields of an empty result.
abbrev pub no_result : RunResult
no_result = record {
  outcome = no_outcome;
  reason = [];
  answer = [];
  rescued_from = no_outcome;
  verify_infra_signature = [];
  verify_infra = false;
}

abbrev pub ended : Outcome → Text → RunResult
ended o why = record (no_result) { outcome = o; reason = why }

unfoldable pub add_usage {ℓ} : {D : Type ℓ} → (D → D → D) → Usage D → Usage D → Usage D
add_usage plus a b = record {
  prompt_tokens = a.prompt_tokens + b.prompt_tokens;
  completion_tokens = a.completion_tokens + b.completion_tokens;
  total_tokens = a.total_tokens + b.total_tokens;
  cached_tokens = a.cached_tokens + b.cached_tokens;
  reasoning_tokens = a.reasoning_tokens + b.reasoning_tokens;
  cost = plus a.cost b.cost;
}

unfoldable pub normalize_dir_path : Text → Text
normalize_dir_path p = let q = trim_space p in if is_empty q then codes "." else clean_path q

unfoldable pub text_discovery_target : Text → Text → Text
unfolding normalize_dir_path
text_discovery_target verb arg =
    if text_eq verb (codes "list_dir")
    then codes "list_dir " ++ normalize_dir_path arg
    else verb ++ codes " " ++ trim_space arg

abbrev pub is_discovery : Text → Bool
is_discovery verb = text_eq verb (codes "list_dir") || text_eq verb (codes "search")

abbrev pub is_read_only : Text → Bool
is_read_only verb =
    text_eq verb (codes "read_file")
    || text_eq verb (codes "search")
    || text_eq verb (codes "list_dir")

abbrev pub is_error : Text → Bool
is_error observation = has_prefix observation (codes "ERROR:")

abbrev pub signature : Text → Text → Text
signature verb arg = verb ++ codes " " ++ arg

-- The bytes of a text in UTF-8.
abbrev code_bytes : ℕ → ℕ
code_bytes c = if ltb c 128 then 1 else if ltb c 2048 then 2 else if ltb c 65536 then 3 else 4

unfoldable pub byte_length : Text → ℕ
byte_length [] = 0
byte_length (c ∷ s) = code_bytes c + byte_length s

-- obsDedup: the first iteration of an observation, by its hash.
abbrev pub obs_dedup_min_len : ℕ
obs_dedup_min_len = 200

abbrev first_seen : Text → List (Text × ℕ) → Option ℕ
first_seen k [] = none
first_seen k ((j, i) ∷ m) = if text_eq k j then some i else first_seen k m

unfoldable pub stub : (Text → Text) → List (Text × ℕ) → Text → ℕ → Option ℕ × List (Text × ℕ)
unfolding byte_length
stub hash seen raw i =
    let key = hash raw in
    if ltb (byte_length raw) obs_dedup_min_len
    then (none, seen)
    else elim (first_seen key seen) [ some k ↦ (some k, seen) | none ↦ (none, (key, i) ∷ seen) ]

-- The observation on the wire: a stub for the raw part, where it was seen before.
unfoldable pub on_wire : (ℕ → Text) → Option ℕ → Text → Text → Text
on_wire show none raw observation = observation
on_wire show (some k) raw observation =
    codes "[identical to iter "
    ++ show k
    ++ codes " — deduped]"
    ++ (if has_prefix observation raw then drop (length raw) observation else observation)

unfoldable pub escalating_repeat_nudge : ℕ → Text
escalating_repeat_nudge count =
    if count == 3
    then codes
        "[harness: you have produced the identical tool result 3 times. If you are just confirming a green state, stop and either finish or take a genuinely different action.]"
    else if count == 4
    then codes
        "[harness: this is now 4 identical tool-result turns; repeating it again will not change the outcome. Finish if the work is done, or take a genuinely different action.]"
    else if count == 5
    then codes
        "[harness: this is the 5th identical tool-result turn; the next identical turn ENDS the run. Write your FINAL answer / bank your patch NOW.]"
    else []

abbrev pub comma_list : List Text → Text
comma_list [] = []
comma_list (a ∷ []) = a
comma_list (a ∷ b ∷ rest) = a ++ codes ", " ++ comma_list (b ∷ rest)

module _ {ℓ ℓ'} {W : Type ℓ} {D : Type ℓ'} (out : Outside W D) where
  abbrev shaped : ToolOutput × W → Text × W
  shaped (output text, w) = (out.truncate text, w)
  shaped (error words, w) = (codes "ERROR: " ++ words, w)

  -- dispatch: every failure is an observation.
  unfoldable pub dispatch : Text → Text → W → Text × W
  dispatch verb arg w = elim (out.tool verb) [
    | none ↦ (
      codes "ERROR: no action recognized — your line must START with `answer` or a tool ("
          ++ comma_list out.tool_names
          ++ codes
              "). To finish, prefix your conclusion with `answer` (e.g. `answer config.yaml does not exist`); a confirmed absence is a valid answer.",
      w,
    )
    | some run ↦ shaped (run arg w)
  ]
