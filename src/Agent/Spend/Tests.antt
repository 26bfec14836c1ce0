-- ===== src/Agent/Spend/Tests.antt =====
-- The dollars of three calls, in cents, one of a model without a price.
use driver_os.Base.{
  ℕ, ◌+◌, ◌≡◌, not, ◌&&◌, List, [], ◌∷◌, Option, none, some, Text, codes, is_empty, text_eq,
  if◌then◌else◌,
}
use driver_os.Agent.Spend.{Usage, new_spend, usd, floor}
use driver_os.Agent.Spend.Total.{Call, add_all, prices, misses, sum_from, usd-total}

abbrev price : Text → Usage ℕ → Option ℕ
price model u = if text_eq model (codes "known") then some u.total_tokens else none

abbrev call : Text → ℕ → Call ℕ
call model n = record {
  model = model;
  usage = record {
    prompt_tokens = n;
    completion_tokens = 0;
    total_tokens = n;
    cached_tokens = 0;
    reasoning_tokens = 0;
    cost = 0;
  };
}

abbrev calls : List (Call ℕ)
calls = call (codes "known") 7 ∷ call (codes "new") 3 ∷ call (codes "known") 0 ∷ []

abbrev plus : ℕ → ℕ → ℕ
plus a b = a + b

usd-total_example :
    let s = add_all 0 plus price (some (new_spend 0 plus price)) calls in
    (usd 0 plus s ≡ (
      sum_from 0 plus price 0 (prices 0 plus price calls),
      not (is_empty (prices 0 plus price calls)) && not (misses 0 plus price calls),
    ))
    × (floor 0 plus s ≡ (
      sum_from 0 plus price 0 (prices 0 plus price calls),
      not (is_empty (prices 0 plus price calls)),
    ))
usd-total_example = usd-total 0 plus price calls
