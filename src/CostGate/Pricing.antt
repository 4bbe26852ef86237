-- ===== src/CostGate/Pricing.antt =====
-- packages/cost-gate/src/pricing.ts. Providers and models are compared only, so they are numbers.
-- Times are milliseconds; a price is in millionths of a dollar for a million tokens.
use byok_business_autopilot.Base.{
  ℕ, ◌+◌, ◌*◌, Option, List, map, Result, ok, ◌>>=◌, ◌>>◌, guard, or_throw, not, ltb, Eq, nat_eq,
}
use byok_business_autopilot.Base.Dict.{Dict, lookup}
use mathlib.Core.List.{filter}

pub data Tier : Type 0 where
  t1 t2 t3 : Tier

pub Tier-discrete : Discrete Tier
Tier-discrete = hlevel

instance abbrev pub tier_eq : Eq Tier
tier_eq = record { dec = Tier-discrete }

pub record PricingEntry : Type 0 where
  pub provider : ℕ
  pub tier : Tier
  pub input_per_m_tok : ℕ
  pub output_per_m_tok : ℕ

-- `last_verified` is `none` where the date does not parse.
pub record PricingTable : Type 0 where
  pub last_verified : Option ℕ
  pub prices : Dict ℕ PricingEntry
  pub stale_after_days : ℕ

pub data PricingError : Type 0 where
  stale_pricing_table unknown_model : PricingError

abbrev pub default_stale_after_days : ℕ
default_stale_after_days = 45

abbrev pub day_ms : ℕ
day_ms = 86400000

-- A date in the future has a negative age, which is fresh.
unfoldable pub assert_fresh : PricingTable → ℕ → Result PricingError (Unit {0})
assert_fresh table now = do
  last ← or_throw table.last_verified stale_pricing_table
  guard (not (ltb (last + table.stale_after_days * day_ms) now)) stale_pricing_table

unfoldable pub price_for : PricingTable → ℕ → ℕ → Result PricingError PricingEntry
unfolding assert_fresh
price_for table now model = do
  assert_fresh table now
  or_throw (lookup model table.prices) unknown_model

unfoldable pub models_for_tier : PricingTable → ℕ → Tier → Result PricingError (List ℕ)
unfolding assert_fresh
models_for_tier table now tier = do
  assert_fresh table now
  ok (map (λ e. e.0) (filter (λ e. Tier-discrete e.1.tier tier) table.prices))
