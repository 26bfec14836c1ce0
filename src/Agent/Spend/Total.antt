-- ===== src/Agent/Spend/Total.antt =====
-- The accumulated dollars against the list of the calls.
use driver_os.Base.{
  ◌≡◌, ap, arith, Bool, true, false, not, ◌&&◌, ◌||◌, List, [], ◌∷◌, Option, none, some, Text,
  if◌then◌else◌, is_empty, Bool-cases, Option-cases, inl, inr,
}
use driver_os.Agent.Spend.{
  Usage, usage_reported, Spend, new_spend, charged, add_priced, add, usd, floor,
}

pub record Call {ℓ} (D : Type ℓ) : Type ℓ where
  pub model : Text
  pub usage : Usage D

module _ {ℓ} {D : Type ℓ} (zero_usd : D) (plus : D → D → D)
    (price : Text → Usage D → Option D) where
  -- The run's calls, one behind the other.
  pub add_all : Option (Spend D) → List (Call D) → Option (Spend D)
  add_all s [] = s
  add_all s (c ∷ cs) = add_all (add zero_usd plus s c.model c.usage) cs

  -- The prices of the calls that report a usage and can be priced, and whether one cannot.
  abbrev pub with_price : Option D → List D → List D
  with_price none ds = ds
  with_price (some d) ds = d ∷ ds

  abbrev pub is_miss : Option D → Bool
  is_miss none = true
  is_miss (some d) = false

  pub prices : List (Call D) → List D
  prices [] = []
  prices (c ∷ cs) =
      let rest = prices cs in
      if usage_reported c.usage then with_price (price c.model c.usage) rest else rest

  pub misses : List (Call D) → Bool
  misses [] = false
  misses (c ∷ cs) =
      let rest = misses cs in
      if usage_reported c.usage then is_miss (price c.model c.usage) || rest else rest

  pub sum_from : D → List D → D
  sum_from a [] = a
  sum_from a (d ∷ ds) = sum_from (plus a d) ds

  abbrev spend : D → Bool → Bool → Spend D
  spend a p u = record { usd = a; priced = p; unpriced = u; price = some price }

  add_all-spend :
      (a : D) (p u : Bool) (cs : List (Call D))
      → add_all (some (spend a p u)) cs
        ≡ some (spend (sum_from a (prices cs)) (p || not (is_empty (prices cs))) (u || misses cs))
  unfolding add_all add prices misses sum_from add_priced charged
  add_all-spend a p u [] = ground arith
  add_all-spend a p u (c ∷ cs) = elim (Bool-cases (usage_reported c.usage)) [
    | inr n ↦ ground (arith, n, add_all-spend a p u cs)
    | inl y ↦ elim (Option-cases (price c.model c.usage)) [
      | inl m ↦ ground (arith, y, m, add_all-spend a p true cs)
      | inr (d, e) ↦ ground (arith, y, e, add_all-spend (plus a d) true u cs)
    ]
  ]

  -- For any calls, the dollars are the sum, in order, of the prices of the calls that report a usage and
  -- can be priced; the figure is complete exactly when there is such a call and none that cannot be
  -- priced, and it is a floor as soon as there is such a call.
  pub usd-total :
      (cs : List (Call D))
      → let s = add_all (some (new_spend zero_usd plus price)) cs in
        (usd zero_usd plus s
          ≡ (sum_from zero_usd (prices cs), not (is_empty (prices cs)) && not (misses cs)))
        × (floor zero_usd plus s ≡ (sum_from zero_usd (prices cs), not (is_empty (prices cs))))
  unfolding usd floor new_spend
  usd-total cs =
      let e = add_all-spend zero_usd false false cs in
      (ap (usd zero_usd plus) e, ap (floor zero_usd plus) e)
