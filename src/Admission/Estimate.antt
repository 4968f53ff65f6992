-- ===== src/Admission/Estimate.antt =====
-- src/admission.rs, `estimate_request`: what a request may use at most, before it is sent; with the
-- size estimate of src/types.rs. A text is given by its length in bytes.
use kinetix.Base.{
  ℕ, ◌+◌, ◌*◌, ◌/◌, min, max, Bool, true, not, Option, none, some, List, [], ◌∷◌, String,
  contains_str, if◌then◌else◌, unwrap_or, and_then, saturating_add, positive, get, Result, ok, err,
}
use kinetix.Types.{Prices, ProxyError, is_configured, new, not_found, forbidden}
use kinetix.Cost.{price_for}
use kinetix.Registry.{Snapshot, ModelRow, Resolved, ResolvedTarget, single, route, resolve_in}
use kinetix.Admission.{AdmissionEstimate}

-- A part of a message, with the lengths of its texts; an image is not measured.
pub data Part : Type 0 where
  text thinking : ℕ → Part
  image : Part
  tool_call : ℕ → ℕ → Part
  tool_result : ℕ → Part

-- A tool's name, description and printed parameters.
pub record ToolDef : Type 0 where
  pub name : ℕ
  pub description : Option ℕ
  pub parameters : ℕ

pub record InternalRequest : Type 0 where
  pub requested_model : String
  pub system : List ℕ
  pub messages : List (List Part)
  pub tools : List ToolDef
  pub max_tokens : Option ℕ

abbrev pub part_chars : Part → ℕ
part_chars (text t) = t
part_chars (thinking t) = t
part_chars (tool_call name arguments) = name + arguments
part_chars (tool_result content) = content
part_chars image = 1000

unfoldable pub sum_chars : List Part → ℕ
sum_chars [] = 0
sum_chars (p ∷ ps) = part_chars p + sum_chars ps

unfoldable pub message_chars : List (List Part) → ℕ
unfolding sum_chars
message_chars [] = 0
message_chars (m ∷ ms) = sum_chars m + message_chars ms

unfoldable pub sum_lengths : List ℕ → ℕ
sum_lengths [] = 0
sum_lengths (n ∷ ns) = n + sum_lengths ns

-- `div_ceil(4)`
abbrev pub div_ceil_4 : ℕ → ℕ
div_ceil_4 n = (n + 3) / 4

-- Lengths are those of texts in memory, so their sums are not reduced modulo 2^64.
unfoldable pub approx_input_tokens : InternalRequest → ℕ
unfolding message_chars sum_lengths
approx_input_tokens r = div_ceil_4 (sum_lengths r.system + message_chars r.messages)

unfoldable pub tool_chars : List ToolDef → ℕ
tool_chars [] = 0
tool_chars (t ∷ ts) = t.name + unwrap_or t.description 0 + t.parameters + 32 + tool_chars ts

unfoldable pub estimated_input_tokens : InternalRequest → ℕ
unfolding approx_input_tokens tool_chars
estimated_input_tokens r =
    max (saturating_add (approx_input_tokens r) (div_ceil_4 (tool_chars r.tools))) 1

abbrev pub default_output_reservation : ℕ
default_output_reservation = 8192

abbrev pub smaller : Option ℕ → Option ℕ → ℕ
smaller (some requested) (some maximum) = min requested maximum
smaller (some requested) none = requested
smaller none (some maximum) = maximum
smaller none none = default_output_reservation

unfoldable pub output_reservation : InternalRequest → ModelRow → ℕ
output_reservation r m = smaller r.max_tokens (positive m.max_output_tokens)

unfoldable pub conservative_cost : Prices → ℕ → ℕ → Option ℕ
conservative_cost p input output =
    if is_configured p
    then and_then (price_for p.input_per_1m input) (λ input_base.
      and_then (price_for p.output_per_1m output) (λ output_base. some (
        input
          * max (max input_base (unwrap_or p.cached_per_1m input_base))
              (unwrap_or p.cache_write_per_1m input_base)
        + output * max output_base (unwrap_or p.thinking_per_1m output_base))))
    else none

abbrev pub is_allowed : List String → String → Bool
is_allowed [] provider = true
is_allowed (p ∷ ps) provider = contains_str provider (p ∷ ps)

-- The models of the route's targets that the key may use, each once.
unfoldable pub route_models : List String → List String → List ResolvedTarget → List ModelRow
route_models allowed seen [] = []
route_models allowed seen (t ∷ ts) =
    let skip = route_models allowed seen ts in
    let take = t.model ∷ route_models allowed (t.model.id ∷ seen) ts in
    if not (is_allowed allowed t.provider.id)
    then skip
    else if contains_str t.model.id seen
    then skip
    else take

abbrev pub one_model : Option ModelRow → List ModelRow
one_model none = []
one_model (some m) = m ∷ []

abbrev pub some_models : List ModelRow → Result ProxyError (List ModelRow)
some_models [] = err (new forbidden)
some_models (m ∷ ms) = ok (m ∷ ms)

unfoldable pub candidate_models :
    Snapshot → List String → Resolved → Result ProxyError (List ModelRow)
unfolding route_models
candidate_models snap allowed (single provider_id model_id) =
    if not (is_allowed allowed provider_id)
    then err (new forbidden)
    else ok (one_model (get model_id snap.models))
candidate_models snap allowed (route r ts) = some_models (route_models allowed [] ts)

-- One round of the loop over the candidates: the larger token count, and the larger cost if both are
-- known.
unfoldable pub widen : InternalRequest → ℕ → ModelRow → AdmissionEstimate → AdmissionEstimate
widen r input m e =
    let output = output_reservation r m in
    record {
      tokens = max e.tokens (saturating_add input output);
      cost =
          and_then e.cost
            (λ c. and_then (conservative_cost m.prices input output) (λ d. some (max c d)));
    }

unfoldable pub widest : InternalRequest → ℕ → List ModelRow → AdmissionEstimate → AdmissionEstimate
widest r input [] e = e
widest r input (m ∷ ms) e = widest r input ms (widen r input m e)

unfoldable pub estimate_models : InternalRequest → List ModelRow → AdmissionEstimate
unfolding widest widen output_reservation conservative_cost estimated_input_tokens
estimate_models r ms =
    let input = estimated_input_tokens r in
    let e = widest r input ms (record { tokens = 0; cost = some 0 }) in
    record { tokens = max e.tokens input; cost = e.cost }

unfoldable pub estimate_request :
    (String → Option (String × String))
    → Snapshot
    → List String
    → InternalRequest
    → Result ProxyError AdmissionEstimate
unfolding candidate_models estimate_models
estimate_request split_once snap allowed r = elim (resolve_in split_once snap r.requested_model) [
  | none ↦ err (new not_found)
  | some resolved ↦ elim (candidate_models snap allowed resolved) [
    | err e ↦ err e
    | ok ms ↦ ok (estimate_models r ms)
  ]
]
