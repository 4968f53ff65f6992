-- ===== src/Pipeline/Tools.antt =====
-- src/pipeline.rs, `ToolStreamState`: one numbering of tool calls, whatever indexes and ids a provider
-- sends, and the signatures that belong to them. `to_text` prints a number.
pub mod Numbering
mod Tests
use kinetix.Base.{
  ℕ, ◌+◌, ◌%◌, Bool, true, false, ◌&&◌, Option, none, some, is_some, and_then, or_option, unwrap_or,
  List, [], ◌∷◌, String, ◌<>◌, str_eq, ◌==◌, if◌then◌else◌, get,
}
use kinetix.Types.{
  StreamEvent, start, thinking_delta, text_delta, refusal_delta, tool_call_start,
  tool_call_args_delta, usage, finish,
}

pub record ToolStreamState : Type 0 where
  pub next_index : ℕ
  pub upstream_indexes : List (ℕ × ℕ)
  pub ids : List (String × ℕ)
  pub request_id : String
  pub pending_signature : Option String

-- The request's id is given without its dashes and underscores.
abbrev pub new : String → ToolStreamState
new request_id = record {
  next_index = 0;
  upstream_indexes = [];
  ids = [];
  request_id = request_id;
  pending_signature = none;
}

-- `HashMap<u32, u32>`
unfoldable pub get_index : ℕ → List (ℕ × ℕ) → Option ℕ
get_index i [] = none
get_index i ((j, c) ∷ m) = if j == i then some c else get_index i m

unfoldable pub put_index : ℕ → ℕ → List (ℕ × ℕ) → List (ℕ × ℕ)
put_index i c [] = (i, c) ∷ []
put_index i c ((j, d) ∷ m) = if j == i then (j, c) ∷ m else (j, d) ∷ put_index i c m

-- `HashMap<String, u32>`: `insert`, and `entry(..).or_insert(..)`.
unfoldable pub put_id : String → ℕ → List (String × ℕ) → List (String × ℕ)
put_id k c [] = (k, c) ∷ []
put_id k c ((j, d) ∷ m) = if str_eq j k then (j, c) ∷ m else (j, d) ∷ put_id k c m

abbrev pub or_insert : String → ℕ → List (String × ℕ) → List (String × ℕ)
or_insert k c m = if is_some (get k m) then m else put_id k c m

abbrev pub non_empty : Option String → Option String
non_empty none = none
non_empty (some s) = if str_eq s "" then none else some s

-- `next_index += 1` on 32 bits.
abbrev pub bump : ℕ → ℕ
bump n = (n + 1) % 4294967296

-- The index of a call: that of its id, or a new one.
abbrev pub canonical_of : ToolStreamState → Option ℕ → ToolStreamState × ℕ
canonical_of t (some c) = (t, c)
canonical_of t none = (record t { next_index = bump t.next_index }, t.next_index)

module _ (to_text : ℕ → String) where
  abbrev pub generated : String → ℕ → String
  generated request_id c = "call_" <> request_id <> "_" <> to_text c

  -- The id that the client sees, and the index under it.
  abbrev pub name_call : ToolStreamState → ℕ → Option String → ToolStreamState × String
  name_call t c none = let g = generated t.request_id c in (record t { ids = put_id g c t.ids }, g)
  name_call t c (some id) = (record t { ids = or_insert id c t.ids }, id)

  -- The arm for `ToolCallStart`.
  unfoldable pub start_call :
      ToolStreamState → ℕ → Option String → String → Option String → ToolStreamState × StreamEvent
  unfolding get_index put_index put_id get
  start_call t index id name signature =
      let resolved_signature = or_option signature t.pending_signature in
      let (t1, c) =
        canonical_of (record t { pending_signature = none }) (and_then id (λ i. get i t.ids)) in
      let t2 = record t1 { upstream_indexes = put_index index c t1.upstream_indexes } in
      let (t3, shown) = name_call t2 c (non_empty id) in
      (t3, tool_call_start c (some shown) name resolved_signature)

  -- One round of the loop of `normalize`.
  unfoldable pub normalize_one : ToolStreamState → StreamEvent → ToolStreamState × StreamEvent
  unfolding start_call
  normalize_one t (thinking_delta text signature) = (
    record t {
      pending_signature = if str_eq text "" && is_some signature then signature else none;
    },
    thinking_delta text signature,
  )
  normalize_one t (text_delta text) = (record t { pending_signature = none }, text_delta text)
  normalize_one t (refusal_delta text) = (record t { pending_signature = none }, refusal_delta text)
  normalize_one t (tool_call_start index id name signature) = start_call t index id name signature
  normalize_one t (tool_call_args_delta index args) =
      (t, tool_call_args_delta (unwrap_or (get_index index t.upstream_indexes) index) args)
  normalize_one t (finish reason) = (record t { pending_signature = none }, finish reason)
  normalize_one t (start id) = (t, start id)
  normalize_one t (usage u) = (t, usage u)

  unfoldable pub normalize : ToolStreamState → List StreamEvent → ToolStreamState × List StreamEvent
  unfolding normalize_one
  normalize t [] = (t, [])
  normalize t (e ∷ es) =
      let (t', e') = normalize_one t e in let (t'', es') = normalize t' es in (t'', e' ∷ es')
