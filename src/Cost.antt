-- ===== src/Cost.antt =====
-- src/cost.rs: what a request costs, from its token usage and the operator's prices. A price is a
-- whole number of units per million tokens, so a cost is a whole number of millionths of a unit: the
-- source's division by 1,000,000 is the change of unit, and its rounding is not modelled.
pub mod Bounds
mod Tests
use kinetix.Base.{
  ℕ, ◌+◌, ◌-◌, ◌*◌, min, Bool, true, false, Option, none, some, ◌==◌, if◌then◌else◌, unwrap_or,
  and_then,
}
use kinetix.Types.{Prices, TokenUsage, is_configured}

-- `match price { Some(price) => price, None if tokens == 0.0 => 0.0, None => return None }`
abbrev pub price_for : Option ℕ → ℕ → Option ℕ
price_for (some price) tokens = some price
price_for none tokens = if tokens == 0 then some 0 else none

-- The parts of the reported totals that are priced apart.
pub record Partition : Type 0 where
  pub regular_input : ℕ
  pub cached : ℕ
  pub cache_write : ℕ
  pub regular_output : ℕ
  pub thinking : ℕ

unfoldable pub partition : TokenUsage → Partition
partition u =
    let input = unwrap_or u.input 0 in
    let output = unwrap_or u.output 0 in
    let cached = min (unwrap_or u.cached 0) input in
    let cache_write = min (unwrap_or u.cache_write 0) (input - cached) in
    let thinking = min (unwrap_or u.thinking 0) output in
    record {
      regular_input = input - cached - cache_write;
      cached = cached;
      cache_write = cache_write;
      regular_output = output - thinking;
      thinking = thinking;
    }

unfoldable pub total_cost : Prices → Partition → ℕ → ℕ → ℕ
total_cost p u input_price output_price =
    u.regular_input * input_price
    + u.cached * unwrap_or p.cached_per_1m input_price
    + u.cache_write * unwrap_or p.cache_write_per_1m input_price
    + u.regular_output * output_price
    + u.thinking * unwrap_or p.thinking_per_1m output_price

unfoldable pub compute_cost : Prices → TokenUsage → Option ℕ
unfolding partition total_cost
compute_cost p u =
    if is_configured p
    then and_then (price_for p.input_per_1m (unwrap_or u.input 0)) (λ input_price.
      and_then (price_for p.output_per_1m (unwrap_or u.output 0))
        (λ output_price. some (total_cost p (partition u) input_price output_price)))
    else none
