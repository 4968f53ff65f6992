-- ===== src/Cost/Bounds.antt =====
-- The partition of the totals, and why an admission estimate covers the real cost.
use kinetix.Base.{ℕ, ◌+◌, ◌*◌, ◌≤◌, ◌≡◌, max, Option, none, some, unwrap_or, arith}
use kinetix.Types.{Prices, TokenUsage}
use kinetix.Cost.{partition, price_for, total_cost}

-- The five parts that are priced add up to the reported totals, whatever breakdown was reported: no
-- token is charged twice, and none is left out.
pub partition_exact :
    (u : TokenUsage)
    → let p = partition u in
      (p.regular_input + p.cached + p.cache_write ≡ unwrap_or u.input 0)
      × (p.regular_output + p.thinking ≡ unwrap_or u.output 0)
      × (p.cached ≤ unwrap_or u.cached 0)
      × (p.cache_write ≤ unwrap_or u.cache_write 0)
      × (p.thinking ≤ unwrap_or u.thinking 0)
unfolding partition
partition_exact u = omega arith

mul_le : (a b r : ℕ) → b ≤ r → a * b ≤ a * r
mul_le a b r h = grind arith

mul_le_left : (m n r : ℕ) → m ≤ n → m * r ≤ n * r
mul_le_left m n r h = grind arith

-- A sum of priced parts costs at most the whole at the highest price.
priced_le :
    (a b c n x y z r : ℕ) → a + b + c ≤ n → x ≤ r → y ≤ r → z ≤ r → a * x + b * y + c * z ≤ n * r
priced_le a b c n x y z r s hx hy hz =
    let whole = mul_le_left (a + b + c) n r s in
    omega (arith, mul_le a x r hx, mul_le b y r hy, mul_le c z r hz, whole)

abbrev pub input_rate : Prices → ℕ → ℕ
input_rate p base =
    max (max base (unwrap_or p.cached_per_1m base)) (unwrap_or p.cache_write_per_1m base)

abbrev pub output_rate : Prices → ℕ → ℕ
output_rate p base = max base (unwrap_or p.thinking_per_1m base)

pub total_cost-le :
    (p : Prices) (u : TokenUsage) (input output ip op : ℕ)
    → unwrap_or u.input 0 ≤ input
    → unwrap_or u.output 0 ≤ output
    → total_cost p (partition u) ip op ≤ input * input_rate p ip + output * output_rate p op
unfolding total_cost
total_cost-le p u input output ip op hi ho =
    let q = partition u in
    let e = partition_exact u in
    let i =
      priced_le q.regular_input q.cached q.cache_write input ip (unwrap_or p.cached_per_1m ip)
        (unwrap_or p.cache_write_per_1m ip) (input_rate p ip) (omega (arith, e)) (omega arith)
        (omega arith) (omega arith) in
    let o =
      priced_le q.regular_output q.thinking 0 output op (unwrap_or p.thinking_per_1m op) 0
        (output_rate p op) (omega (arith, e)) (omega arith) (omega arith) (omega arith) in
    omega (arith, i, o)

-- A price that is found for a number of tokens is the price of any smaller number, except that no
-- tokens may be free.
pub price_for_le :
    (price : Option ℕ) (n m base : ℕ)
    → n ≤ m
    → price_for price m ≡ some base
    → price_for price n ≡ some base
price_for_le none n m base h e = ground arith
price_for_le (some x) n m base h e = e
