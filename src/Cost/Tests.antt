-- ===== src/Cost/Tests.antt =====
-- A priced request.
use kinetix.Base.{◌≡◌, refl, none, some}
use kinetix.Types.{Prices, TokenUsage}
use kinetix.Cost.{partition, total_cost, compute_cost}

abbrev prices : Prices
prices = record {
  input_per_1m = some 3;
  output_per_1m = some 15;
  cached_per_1m = some 1;
  cache_write_per_1m = none;
  thinking_per_1m = none;
}

-- More cached and cache-write tokens than input.
abbrev usage : TokenUsage
usage = record {
  input = some 1000;
  output = some 200;
  cached = some 800;
  cache_write = some 500;
  thinking = some 50;
}

usage_cost : compute_cost prices usage ≡ some 4400
unfolding compute_cost partition total_cost
usage_cost = refl
