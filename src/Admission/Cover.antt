-- ===== src/Admission/Cover.antt =====
-- The estimate of a request covers every model that may serve it, and every usage within it.
use kinetix.Base.{
  ℕ, ◌≤◌, ◌≡◌, refl, inl, inr, max, Option, none, some, List, [], ◌∷◌, unwrap_or, saturating_add,
  Bool-cases, Option-cases, All, arith,
}
use kinetix.Types.{Prices, TokenUsage, is_configured}
use kinetix.Cost.{price_for, compute_cost, partition, total_cost}
use kinetix.Cost.Bounds.{total_cost-le, price_for_le}
use kinetix.Registry.{ModelRow}
use kinetix.Admission.{AdmissionEstimate}
use kinetix.Admission.Estimate.{
  InternalRequest, conservative_cost, output_reservation, widen, estimated_input_tokens, widest,
  estimate_models,
}

-- A cost that is estimated for so many input and output tokens is an upper bound: any usage of at
-- most as many tokens, however it is broken down, has a known cost, which is not above the estimate.
pub conservative_cost_covers :
    (p : Prices) (u : TokenUsage) (input output bound : ℕ)
    → unwrap_or u.input 0 ≤ input
    → unwrap_or u.output 0 ≤ output
    → conservative_cost p input output ≡ some bound
    → (c : ℕ) × (compute_cost p u ≡ some c) × (c ≤ bound)
unfolding conservative_cost compute_cost
conservative_cost_covers p u input output bound hi ho h = elim (Bool-cases (is_configured p)) [
  | inr off ↦ absurd (ground (arith, h, off))
  | inl on ↦ elim (Option-cases (price_for p.input_per_1m input)) [
    | inl miss ↦ absurd (ground (arith, h, on, miss))
    | inr (ip, ie) ↦ elim (Option-cases (price_for p.output_per_1m output)) [
      | inl miss ↦ absurd (ground (arith, h, on, ie, miss))
      | inr (op, oe) ↦
          let i = price_for_le p.input_per_1m _ input ip hi ie in
          let o = price_for_le p.output_per_1m _ output op ho oe in
          (
            total_cost p (partition u) ip op,
            rw (on, i, o) refl,
            ground (arith, h, on, ie, oe, total_cost-le p u input output ip op hi ho),
          )
    ]
  ]
]

-- What an estimate must be for a candidate, read at the cost that is estimated.
record CoversAt (r : InternalRequest) (input : ℕ) (e : AdmissionEstimate) (m : ModelRow)
    : Type 0 where
  tokens : saturating_add input (output_reservation r m) ≤ e.tokens
  cost :
      (bound : ℕ)
      → e.cost ≡ some bound
      → (c : ℕ) × (conservative_cost m.prices input (output_reservation r m) ≡ some c) × (c ≤ bound)

-- One estimate is below another.
record Below (e e' : AdmissionEstimate) : Type 0 where
  tokens : e.tokens ≤ e'.tokens
  cost : (bound : ℕ) → e'.cost ≡ some bound → (c : ℕ) × (e.cost ≡ some c) × (c ≤ bound)

widen-Below :
    (r : InternalRequest) (input : ℕ) (m : ModelRow) (e : AdmissionEstimate)
    → Below e (widen r input m e)
unfolding widen
widen-Below r input m e = record {
  tokens = omega arith;
  cost = λ bound h. elim (Option-cases e.cost) [
    | inl k ↦ absurd (ground (arith, h, k))
    | inr (c, k) ↦ (c, k, ground (arith, h, k))
  ];
}

widen-CoversAt :
    (r : InternalRequest) (input : ℕ) (m : ModelRow) (e : AdmissionEstimate)
    → CoversAt r input (widen r input m e) m
unfolding widen
widen-CoversAt r input m e = record {
  tokens = omega arith;
  cost = λ bound h. elim (Option-cases e.cost) [
    | inl k ↦ absurd (ground (arith, h, k))
    | inr (c, k) ↦ elim (Option-cases (conservative_cost m.prices input (output_reservation r m))) [
      | inl n ↦ absurd (ground (arith, h, k, n))
      | inr (d, n) ↦ (d, n, ground (arith, h, k, n))
    ]
  ];
}

Below-trans : (e f g : AdmissionEstimate) → Below e f → Below f g → Below e g
Below-trans e f g p q = record {
  tokens = omega arith;
  cost = λ bound h.
      let (c, k, le) = q.cost bound h in let (d, k', le') = p.cost c k in (d, k', omega arith);
}

CoversAt-Below :
    (r : InternalRequest) (input : ℕ) (m : ModelRow) (e f : AdmissionEstimate)
    → CoversAt r input e m
    → Below e f
    → CoversAt r input f m
CoversAt-Below r input m e f p q = record {
  tokens = omega (arith, p.tokens, q.tokens);
  cost = λ bound h.
      let (c, k, le) = q.cost bound h in let (d, k', le') = p.cost c k in (d, k', omega arith);
}

widest-Below :
    (r : InternalRequest) (input : ℕ) (ms : List ModelRow) (e : AdmissionEstimate)
    → Below e (widest r input ms e)
unfolding widest
widest-Below r input [] e = record { tokens = omega arith; cost = λ b h. (b, h, omega arith) }
widest-Below r input (m ∷ ms) e =
    Below-trans e (widen r input m e) _ (widen-Below r input m e)
      (widest-Below r input ms (widen r input m e))

widest-CoversAt :
    (r : InternalRequest) (input : ℕ) (ms : List ModelRow) (e : AdmissionEstimate)
    → All (CoversAt r input (widest r input ms e)) ms
unfolding widest
widest-CoversAt r input [] e = tt
widest-CoversAt r input (m ∷ ms) e = (
  CoversAt-Below r input m (widen r input m e) _ (widen-CoversAt r input m e)
      (widest-Below r input ms (widen r input m e)),
  widest-CoversAt r input ms (widen r input m e),
)

All-CoversAt-max :
    (r : InternalRequest) (input : ℕ) (ms : List ModelRow) (e : AdmissionEstimate)
    → All (CoversAt r input e) ms
    → All (CoversAt r input (record { tokens = max e.tokens input; cost = e.cost })) ms
All-CoversAt-max r input [] e h = tt
All-CoversAt-max r input (m ∷ ms) e h = (
  record { tokens = omega (arith, h.0.tokens); cost = h.0.cost },
  All-CoversAt-max r input ms e h.1,
)

-- If a cost is estimated, the other cost is known and not above it.
abbrev pub CostCovers : Option ℕ → Option ℕ → Type 0
CostCovers none cost = Unit
CostCovers (some bound) cost = (c : ℕ) × (cost ≡ some c) × (c ≤ bound)

pub record Covers (r : InternalRequest) (input : ℕ) (e : AdmissionEstimate) (m : ModelRow)
    : Type 0 where
  pub tokens : saturating_add input (output_reservation r m) ≤ e.tokens
  pub cost : CostCovers e.cost (conservative_cost m.prices input (output_reservation r m))

CostCovers-at :
    (estimate cost : Option ℕ)
    → ((bound : ℕ) → estimate ≡ some bound → (c : ℕ) × (cost ≡ some c) × (c ≤ bound))
    → CostCovers estimate cost
CostCovers-at none cost h = tt
CostCovers-at (some bound) cost h = h bound refl

All-Covers :
    (r : InternalRequest) (input : ℕ) (e : AdmissionEstimate) (ms : List ModelRow)
    → All (CoversAt r input e) ms
    → All (Covers r input e) ms
All-Covers r input e [] h = tt
All-Covers r input e (m ∷ ms) h = (
  record { tokens = h.0.tokens; cost = CostCovers-at e.cost _ h.0.cost },
  All-Covers r input e ms h.1,
)

-- The estimate of a request covers each candidate model: its tokens are at least the estimated input
-- and that model's output reservation, and if a cost is estimated, then the model's conservative
-- cost is known and not above it.
pub estimate-Covers :
    (r : InternalRequest) (ms : List ModelRow)
    → All (Covers r (estimated_input_tokens r) (estimate_models r ms)) ms
unfolding estimate_models
estimate-Covers r ms = All-Covers r (estimated_input_tokens r) _ ms (
    All-CoversAt-max r (estimated_input_tokens r) ms _
      (widest-CoversAt r (estimated_input_tokens r) ms _))
