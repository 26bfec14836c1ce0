-- ===== src/Agent/Spend.antt =====
-- agent/spend.go: the dollars of a run over its roles. The dollars `D`, their sum and the pricer are
-- parameters; the lock leaves no state. Token counts are only compared with zero.
pub mod Total
mod Tests
use driver_os.Base.{
  ℕ, Bool, true, false, not, ◌&&◌, ◌||◌, List, [], ◌∷◌, Option, none, some, Text, ◌==◌,
  if◌then◌else◌,
}

-- llm.Usage. The cost is the provider's, and zero where it reports none.
pub record Usage {ℓ} (D : Type ℓ) : Type ℓ where
  pub prompt_tokens : ℕ
  pub completion_tokens : ℕ
  pub total_tokens : ℕ
  pub cached_tokens : ℕ
  pub reasoning_tokens : ℕ
  pub cost : D

unfoldable pub usage_reported {ℓ} : {D : Type ℓ} → Usage D → Bool
usage_reported u =
    not (u.prompt_tokens == 0)
    || not (u.completion_tokens == 0)
    || not (u.total_tokens == 0)
    || not (u.cached_tokens == 0)
    || not (u.reasoning_tokens == 0)

pub record Spend {ℓ} (D : Type ℓ) : Type ℓ where
  pub usd : D
  pub priced : Bool
  pub unpriced : Bool
  pub price : Option (Text → Usage D → Option D)

module _ {ℓ} {D : Type ℓ} (zero_usd : D) (plus : D → D → D) where
  unfoldable pub new_spend : (Text → Usage D → Option D) → Spend D
  new_spend price = record { usd = zero_usd; priced = false; unpriced = false; price = some price }

  -- What the pricer said of one call.
  unfoldable pub charged : Spend D → Option D → Spend D
  charged s none = record s { unpriced = true }
  charged s (some c) = record s { usd = plus s.usd c; priced = true }

  unfoldable pub add_priced :
      Spend D → Option (Text → Usage D → Option D) → Text → Usage D → Spend D
  add_priced s none model u = s
  add_priced s (some price) model u = if usage_reported u then charged s (price model u) else s

  -- A nil accumulator stays nil.
  unfoldable pub add : Option (Spend D) → Text → Usage D → Option (Spend D)
  add none model u = none
  add (some s) model u = some (add_priced s s.price model u)

  unfoldable pub usd : Option (Spend D) → D × Bool
  usd none = (zero_usd, false)
  usd (some s) = (s.usd, s.priced && not s.unpriced)

  unfoldable pub floor : Option (Spend D) → D × Bool
  floor none = (zero_usd, false)
  floor (some s) = (s.usd, s.priced)

  abbrev pub reported : Option (Spend D) → Bool
  reported none = false
  reported (some s) = s.priced || s.unpriced
