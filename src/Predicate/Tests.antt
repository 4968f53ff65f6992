-- ===== src/Predicate/Tests.antt =====
-- Predicates on simple values, and the theorems at them.
use kinetix.Base.{
  ℕ, Bool, true, false, ◌≡◌, ◌≢◌, refl, Option, none, some, [], ◌∷◌, String, str_eq, ltb, leb, ◌==◌,
  if◌then◌else◌, ℤ, pos,
}
use kinetix.Predicate.{
  Host, tri_true, unknown, skip, bare, eq, gt, RequestFacts, TargetFacts, PluginFacts, get_fact,
  Predicate, all_of, any_of, cmp, nil, cons, TargetPredicate,
}
use kinetix.Predicate.Eval.{
  fact_value, json_eq, eval_op, eval_cmp, eval_with_facts, eval_and, eval_or,
  eligibility_with_facts,
}
use kinetix.Predicate.Kleene.{meaning, eval_with_facts-Kleene}

-- Truth values, texts and numbers.
data Simple : Type 0 where
  truth : Bool → Simple
  words : String → Simple
  digits : ℤ → Simple

abbrev same : Simple → Simple → Bool
same (truth true) (truth b) = b
same (truth false) (truth b) = if b then false else true
same (words s) (words u) = str_eq s u
same _ _ = false

abbrev amount : Simple → Option ℕ
amount (digits (pos n)) = some n
amount _ = none

abbrev spelled : Simple → Option String
spelled (words s) = some s
spelled _ = none

abbrev host : Host
host = record {
  Value = Simple;
  Number = ℕ;
  bool = λ b. truth b;
  string = λ s. words s;
  number = λ n. digits n;
  is_same = λ a b. same a b;
  as_f64 = λ v. amount v;
  as_str = λ v. spelled v;
  as_array = λ v. none;
  field = λ v k. none;
  less = λ a b. ltb a b;
  at_most = λ a b. leb a b;
  close = λ a b. a == b;
  starts_with = λ s u. str_eq s "plugin.load.level";
  contains = λ s u. str_eq s u;
}

abbrev req : RequestFacts
req = record {
  frontend = "openai";
  requested_model = "coder";
  requested_route = none;
  key_tag = some "dev";
  has_tools = true;
  has_images = false;
  has_reasoning = false;
  input_tokens = 1200;
}

abbrev target : TargetFacts host
target = record {
  model_id = "m";
  provider_id = "p";
  capabilities = record {
    text = true;
    vision = false;
    reasoning = false;
    tool_calling = true;
    audio = false;
    structured_output = false;
  };
  capabilities_raw = truth true;
  context_window = some (pos 8000);
  max_output_tokens = none;
}

abbrev large : Predicate host
large = cmp (bare "input_tokens") gt (digits (pos 1000))

abbrev calm : Predicate host
calm = cmp (bare "plugin.load.level") eq (words "low")

-- Unknown without the plugin's fact, and known with it.
abbrev both : Predicate host
both = all_of (cons calm (cons large nil))

-- Known without it.
abbrev either : Predicate host
either = any_of (cons calm (cons large nil))

abbrev no_facts : PluginFacts host
no_facts = []

abbrev load : PluginFacts host
load = ("plugin.load.level", words "low") ∷ []

both_unknown : eval_with_facts host req target no_facts both ≡ unknown
unfolding eval_with_facts eval_and eval_cmp fact_value get_fact eval_op json_eq
both_unknown = refl

both_known : eval_with_facts host req target load both ≡ tri_true
unfolding eval_with_facts eval_and eval_cmp fact_value get_fact eval_op json_eq
both_known = refl

either_known : eval_with_facts host req target no_facts either ≡ tri_true
unfolding eval_with_facts eval_or eval_cmp fact_value get_fact eval_op json_eq
either_known = refl

known : tri_true ≢ unknown
known e = cc

eval_with_facts-Kleene_example :
    eval_with_facts host req target no_facts both ≡ meaning host req target no_facts both
eval_with_facts-Kleene_example = eval_with_facts-Kleene host req target no_facts both

nothing_more :
    (n : String) (v : Simple) → get_fact host no_facts n ≡ some v → get_fact host load n ≡ some v
unfolding get_fact
nothing_more n v h = cc

abbrev guarded : TargetPredicate host
guarded = record { expr = some either; when_unknown = skip }

guarded_known : (eligibility_with_facts host req target no_facts guarded).1 ≢ unknown
unfolding eligibility_with_facts
guarded_known = rw either_known known
