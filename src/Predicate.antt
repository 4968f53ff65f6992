-- ===== src/Predicate.antt =====
-- src/predicate.rs: the predicates of route targets, evaluated to true, false or unknown on facts
-- about the request, the target and what plugins contribute. Explanations and the parsing of the
-- stored text are left out, and with the explanations the failure of `compact`, which cuts a long
-- value at a byte. The values of facts are serde_json's.
pub mod Eval
pub mod Kleene
pub mod Monotone
mod Tests
use kinetix.Base.{
  ℕ, Bool, true, false, ◌&&◌, ◌||◌, not, Option, none, some, List, [], ◌∷◌, ◌++◌, any, String,
  str_eq, if◌then◌else◌, is_some, and_then, ℤ, pos, find,
}

-- `serde_json::Value` and its floating-point numbers, with `str`'s tests. `less` and `at_most` compare
-- two numbers, and `close` tells whether they are nearer than `f64::EPSILON`.
pub record Host : Type 1 where
  pub Value : Type 0
  pub Number : Type 0
  pub bool : Bool → Value
  pub string : String → Value
  pub number : ℤ → Value
  pub is_same : Value → Value → Bool
  pub as_f64 : Value → Option Number
  pub as_str : Value → Option String
  pub as_array : Value → Option (List Value)
  pub field : Value → String → Option Value
  pub less : Number → Number → Bool
  pub at_most : Number → Number → Bool
  pub close : Number → Number → Bool
  pub starts_with : String → String → Bool
  pub contains : String → String → Bool

-- The constructors carry a prefix beside those of `Bool`.
pub data Tri : Type 0 where
  tri_true tri_false unknown : Tri

abbrev pub from_bool : Bool → Tri
from_bool true = tri_true
from_bool false = tri_false

pub data WhenUnknown : Type 0 where
  skip allow : WhenUnknown

pub data FactRef : Type 0 where
  bare : String → FactRef
  detailed : String → Option String → FactRef

abbrev pub name : FactRef → String
name (bare n) = n
name (detailed n a) = n

abbrev pub arg : FactRef → Option String
arg (bare n) = none
arg (detailed n a) = a

pub data CmpOp : Type 0 where
  eq ne lt lte gt gte is_in not_in contains : CmpOp

pub record Capabilities : Type 0 where
  pub text : Bool
  pub vision : Bool
  pub reasoning : Bool
  pub tool_calling : Bool
  pub audio : Bool
  pub structured_output : Bool

pub record RequestFacts : Type 0 where
  pub frontend : String
  pub requested_model : String
  pub requested_route : Option String
  pub key_tag : Option String
  pub has_tools : Bool
  pub has_images : Bool
  pub has_reasoning : Bool
  pub input_tokens : ℕ

unfoldable pub capability_flag : Capabilities → String → Bool
capability_flag caps n =
    if str_eq n "text"
    then caps.text
    else if str_eq n "vision"
    then caps.vision
    else if str_eq n "reasoning"
    then caps.reasoning
    else if str_eq n "tool_calling" || str_eq n "tools"
    then caps.tool_calling
    else if str_eq n "audio"
    then caps.audio
    else if str_eq n "structured_output"
    then caps.structured_output
    else false

-- The keys under which a capability may be declared.
abbrev pub capability_keys : String → List String
capability_keys n =
    if str_eq n "tool_calling"
    then "tool_calling" ∷ "tools" ∷ "tool_calls" ∷ []
    else if str_eq n "structured_output"
    then "structured_output" ∷ "structuredOutput" ∷ []
    else n ∷ []

module _ (host : Host) where
  pub record TargetFacts : Type 0 where
    pub model_id : String
    pub provider_id : String
    pub capabilities : Capabilities
    pub capabilities_raw : host.Value
    pub context_window : Option ℤ
    pub max_output_tokens : Option ℤ

  -- The facts of plugins by their full name; their sources are left out.
  abbrev pub PluginFacts : Type 0
  PluginFacts = List (String × host.Value)

  unfoldable pub get_fact : PluginFacts → String → Option host.Value
  get_fact [] n = none
  get_fact ((m, v) ∷ es) n = if str_eq m n then some v else get_fact es n

  -- The first writer wins.
  unfoldable pub insert_fact : PluginFacts → String → host.Value → PluginFacts
  insert_fact es n v = if any (λ e. str_eq e.0 n) es then es else es ++ (n, v) ∷ []

  unfoldable pub capabilities_declared : host.Value → String → Bool
  capabilities_declared raw n = any (λ k. is_some (host.field raw k)) (capability_keys n)

  mutual
    pub data Predicate : Type 0 where
      const : Bool → Predicate
      all_of any_of : Predicates → Predicate
      negated : Predicate → Predicate
      cmp : FactRef → CmpOp → host.Value → Predicate

    pub data Predicates : Type 0 where
      nil : Predicates
      cons : Predicate → Predicates → Predicates

  pub record TargetPredicate : Type 0 where
    pub expr : Option Predicate
    pub when_unknown : WhenUnknown
