-- ===== src/Agent/TextLoop/Budget.antt =====
-- agent/generate.go and agent/loop_shared.go: the dollar budget at a turn boundary, and what a failed
-- generation does to a run.
use driver_os.Base.{
  Bool, true, false, not, ◌&&◌, ◌||◌, Option, none, some, Text, codes, ◌++◌, if◌then◌else◌,
}
use driver_os.Agent.Outcome.{Outcome, hit_deadline, hit_context_limit, provider_err, canceled}
use driver_os.Agent.Evidence.{EvidenceLog}
use driver_os.Agent.Spend.{Usage, Spend, usage_reported, usd, floor, reported}
use driver_os.Agent.TextLoop.{Failure}

-- What a spend says at a turn boundary: the run goes on, goes on unpriced, or is stopped as over its
-- budget or as one that cannot be priced.
pub data Budget : Type 0 where
  within within_unpriced over_budget unpriceable : Budget

module _ {ℓ} {D : Type ℓ} (zero_usd : D) (plus : D → D → D) (at_least : D → D → Bool) where
  abbrev unpriced : Bool → Budget
  unpriced allow = if allow then within_unpriced else unpriceable

  abbrev priced : D → Option D → Bool → Budget
  priced limit none allow = unpriced allow
  priced limit (some cost) allow = if at_least cost limit then over_budget else within

  -- The accumulator's part.
  unfoldable pub spent_budget : D → Bool → Spend D → Budget
  spent_budget limit allow s =
      let (cost, ok) = floor zero_usd plus (some s) in
      let (total, complete) = usd zero_usd plus (some s) in
      if not ok && not (reported zero_usd plus (some s))
      then within
      else if ok && at_least cost limit
      then over_budget
      else if not complete || not ok
      then unpriced allow
      else if at_least cost limit
      then over_budget
      else within

  -- Without an accumulator the usage is priced by a function, where there is one.
  unfoldable pub usage_budget : D → Bool → Option (Usage D → Option D) → Usage D → Budget
  usage_budget limit allow price u =
      if not (usage_reported u)
      then within
      else elim price [ none ↦ unpriced allow | some f ↦ priced limit (f u) allow ]

  -- dollarBudgetStop
  unfoldable pub dollar_budget_stop :
      Option D → Bool → Option (Usage D → Option D) → Option (Spend D) → Usage D → Budget
  unfolding spent_budget usage_budget
  dollar_budget_stop none allow price s u = within
  dollar_budget_stop (some limit) allow price none u = usage_budget limit allow price u
  dollar_budget_stop (some limit) allow price (some s) u = spent_budget limit allow s

abbrev pub set_unpriced : Option EvidenceLog → Option EvidenceLog
set_unpriced none = none
set_unpriced (some l) = some (record l { unpriced = true })

-- classifyGenerateErr, with whether the error is returned too.
unfoldable pub classify_generate_err : Text → Bool → Bool → Bool → Failure → Outcome × Text × Bool
classify_generate_err wall_clock has_wall_clock expired is_canceled f =
    if has_wall_clock && expired
    then (hit_deadline, codes "hit wall-clock budget (" ++ wall_clock ++ codes ") mid-turn", false)
    else if f.context_length
    then (
      hit_context_limit,
      codes "context window exceeded and could not be compacted further",
      false,
    )
    else if is_canceled
    then (canceled, codes "run canceled by the caller (interrupt)", false)
    else (provider_err, f.words, true)
