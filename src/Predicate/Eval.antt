-- ===== src/Predicate/Eval.antt =====
-- src/predicate.rs, `fact_value`, `eval_with_facts` and `eligibility_with_facts`.
use kinetix.Base.{
  Bool, true, false, ◌||◌, not, Option, none, some, List, [], any, String, str_eq, if◌then◌else◌,
  pos,
}
use kinetix.Predicate.{
  Host, Tri, tri_true, tri_false, unknown, from_bool, WhenUnknown, skip, allow, FactRef, name, arg,
  CmpOp, eq, ne, lt, lte, gt, gte, is_in, not_in, contains, RequestFacts, TargetFacts,
  capability_flag, PluginFacts, get_fact, capabilities_declared, Predicate, Predicates, const,
  all_of, any_of, negated, cmp, nil, cons, TargetPredicate,
}

abbrev pub option_map {ℓ κ} : {A : Type ℓ} {B : Type κ} → (A → B) → Option A → Option B
option_map f none = none
option_map f (some a) = some (f a)

abbrev pub not_tri : Tri → Tri
not_tri tri_true = tri_false
not_tri tri_false = tri_true
not_tri unknown = unknown

abbrev pub allows : WhenUnknown → Bool
allows allow = true
allows skip = false

abbrev pub eligible : Tri → WhenUnknown → Bool
eligible tri_true when_unknown = true
eligible tri_false when_unknown = false
eligible unknown when_unknown = allows when_unknown

module _ (host : Host) (req : RequestFacts) (t : TargetFacts host) where
  abbrev pub capability_value : Option String → Option host.Value
  capability_value none = none
  capability_value (some cap) =
      if capabilities_declared host t.capabilities_raw cap
      then some (host.bool (capability_flag t.capabilities cap))
      else none

  abbrev pub native_value : String → Option String → Option host.Value
  native_value n a =
      if str_eq n "has_tools"
      then some (host.bool req.has_tools)
      else if str_eq n "has_images"
      then some (host.bool req.has_images)
      else if str_eq n "has_reasoning"
      then some (host.bool req.has_reasoning)
      else if str_eq n "frontend"
      then some (host.string req.frontend)
      else if str_eq n "requested_alias" || str_eq n "requested_model"
      then some (host.string req.requested_model)
      else if str_eq n "requested_route"
      then option_map host.string req.requested_route
      else if str_eq n "key_tag"
      then option_map host.string req.key_tag
      else if str_eq n "input_tokens"
      then some (host.number (pos req.input_tokens))
      else if str_eq n "target_model" || str_eq n "target_model_id"
      then some (host.string t.model_id)
      else if str_eq n "target_provider" || str_eq n "target_provider_id"
      then some (host.string t.provider_id)
      else if str_eq n "target_capability"
      then capability_value a
      else if str_eq n "target_context_window"
      then option_map host.number t.context_window
      else if str_eq n "target_max_output_tokens"
      then option_map host.number t.max_output_tokens
      else none

  -- `none` is an unknown fact.
  unfoldable pub fact_value : FactRef → PluginFacts host → Option host.Value
  unfolding get_fact capability_flag capabilities_declared
  fact_value fact plugin =
      if host.starts_with (name fact) "plugin."
      then get_fact host plugin (name fact)
      else native_value (name fact) (arg fact)

  -- Equal values, or numbers that are close.
  abbrev pub close_numbers : Option host.Number → Option host.Number → Bool
  close_numbers (some x) (some y) = host.close x y
  close_numbers _ _ = false

  unfoldable pub json_eq : host.Value → host.Value → Bool
  json_eq a b = if host.is_same a b then true else close_numbers (host.as_f64 a) (host.as_f64 b)

  abbrev pub compare_numbers :
      (host.Number → host.Number → Bool) → Option host.Number → Option host.Number → Tri
  compare_numbers test (some a) (some b) = from_bool (test a b)
  compare_numbers test _ _ = unknown

  abbrev pub member : (Bool → Bool) → host.Value → Option (List host.Value) → Tri
  member test actual none = unknown
  member test actual (some arr) = from_bool (test (any (λ v. json_eq actual v) arr))

  -- A text in a text, or a value in an array.
  abbrev pub contained : Option String → Option String → Option (List host.Value) → host.Value → Tri
  contained (some s) (some sub) a expected = from_bool (host.contains s sub)
  contained s sub (some a) expected = from_bool (any (λ x. json_eq x expected) a)
  contained s sub none expected = unknown

  unfoldable pub eval_op : CmpOp → host.Value → host.Value → Tri
  unfolding json_eq
  eval_op eq actual expected = from_bool (json_eq actual expected)
  eval_op ne actual expected = from_bool (not (json_eq actual expected))
  eval_op lt actual expected =
      compare_numbers (λ a b. host.less a b) (host.as_f64 actual) (host.as_f64 expected)
  eval_op lte actual expected =
      compare_numbers (λ a b. host.at_most a b) (host.as_f64 actual) (host.as_f64 expected)
  eval_op gt actual expected =
      compare_numbers (λ a b. host.less b a) (host.as_f64 actual) (host.as_f64 expected)
  eval_op gte actual expected =
      compare_numbers (λ a b. host.at_most b a) (host.as_f64 actual) (host.as_f64 expected)
  eval_op is_in actual expected = member (λ b. b) actual (host.as_array expected)
  eval_op not_in actual expected = member (λ b. not b) actual (host.as_array expected)
  eval_op contains actual expected =
      contained (host.as_str actual) (host.as_str expected) (host.as_array actual) expected

  unfoldable pub eval_cmp : FactRef → CmpOp → host.Value → PluginFacts host → Tri
  unfolding fact_value eval_op
  eval_cmp fact op expected plugin = elim (fact_value fact plugin) [
    | none ↦ unknown
    | some actual ↦ eval_op op actual expected
  ]

  module _ (plugin : PluginFacts host) where
    -- The loops over the parts carry `saw_unknown`, and return at the first part that decides.
    unfoldable mutual
      unfolding eval_cmp

      pub eval_with_facts : Predicate host → Tri
      eval_with_facts (const b) = from_bool b
      eval_with_facts (all_of ps) = eval_and ps false
      eval_with_facts (any_of ps) = eval_or ps false
      eval_with_facts (negated p) = not_tri (eval_with_facts p)
      eval_with_facts (cmp fact op value) = eval_cmp fact op value plugin

      pub eval_and : Predicates host → Bool → Tri
      eval_and nil saw_unknown = if saw_unknown then unknown else tri_true
      eval_and (cons p ps) saw_unknown = elim (eval_with_facts p) [
        | tri_false ↦ tri_false
        | unknown ↦ eval_and ps true
        | tri_true ↦ eval_and ps saw_unknown
      ]

      pub eval_or : Predicates host → Bool → Tri
      eval_or nil saw_unknown = if saw_unknown then unknown else tri_false
      eval_or (cons p ps) saw_unknown = elim (eval_with_facts p) [
        | tri_true ↦ tri_true
        | unknown ↦ eval_or ps true
        | tri_false ↦ eval_or ps saw_unknown
      ]

    -- Whether the target is eligible, and the result that decides it.
    unfoldable pub eligibility_with_facts : TargetPredicate host → Bool × Tri
    unfolding eval_with_facts
    eligibility_with_facts pred = elim pred.expr [
      | none ↦ (true, tri_true)
      | some expr ↦ let r = eval_with_facts expr in (eligible r pred.when_unknown, r)
    ]

  unfoldable pub eval : Predicate host → Tri
  unfolding eval_with_facts
  eval pred = eval_with_facts [] pred

  unfoldable pub eligibility : TargetPredicate host → Bool × Tri
  unfolding eligibility_with_facts
  eligibility pred = eligibility_with_facts [] pred
