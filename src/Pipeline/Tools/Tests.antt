-- ===== src/Pipeline/Tools/Tests.antt =====
-- Two calls that a provider sends under one index.
use kinetix.Base.{
  ℕ, ◌≡◌, refl, inl, inr, none, some, List, [], ◌∷◌, String, ◌==◌, if◌then◌else◌, In, get, arith,
}
use kinetix.Types.{StreamEvent, tool_call_start, tool_call_args_delta}
use kinetix.Pipeline.Tools.{new, get_index, put_index, put_id, start_call, normalize_one, normalize}
use kinetix.Pipeline.Tools.Numbering.{calls, normalize-calls}

abbrev to_text : ℕ → String
to_text n = if n == 0 then "0" else if n == 1 then "1" else "many"

abbrev events : List StreamEvent
events =
    tool_call_start 0 (some "a") "f" none
    ∷ tool_call_args_delta 0 "{}"
    ∷ tool_call_start 0 (some "b") "g" none
    ∷ tool_call_start 0 none "h" none
    ∷ []

two_indexes :
    calls (normalize to_text (new "r") events).1 ≡ (0, "a") ∷ (1, "b") ∷ (2, "call_r_many") ∷ []
unfolding calls normalize normalize_one start_call get put_index put_id get_index
two_indexes = refl

second : In (1, "b") (calls (normalize to_text (new "r") events).1)
second = rw two_indexes (inr (inl refl))

normalize-calls_example : ◌≡◌ {A = String} "b" "b"
normalize-calls_example = normalize-calls to_text "r" events 1 "b" "b" (omega arith) second second
