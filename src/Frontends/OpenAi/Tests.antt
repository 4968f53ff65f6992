-- ===== src/Frontends/OpenAi/Tests.antt =====
-- A usage before the finish, and one after it.
use kinetix.Base.{ℕ, ◌≡◌, refl, true, none, some, List, [], ◌∷◌, ◌++◌, String, ◌==◌, if◌then◌else◌}
use kinetix.Types.{StreamEvent, FinishReason, TokenUsage}
use kinetix.Frontends.OpenAi.{usage_of, finish_reason, done, new, answer}
use kinetix.Frontends.OpenAi.Usage.{endings, reported, last_usage, no_finish, answer-endings}

abbrev to_text : ℕ → String
to_text n = if n == 0 then "0" else "many"

abbrev used : ℕ → TokenUsage
used n = record {
  input = some n;
  output = some 1;
  cached = none;
  cache_write = none;
  thinking = none;
}

abbrev before : List StreamEvent
before = StreamEvent.usage (used 3) ∷ StreamEvent.text_delta "Hi." ∷ []

abbrev after : List StreamEvent
after = StreamEvent.usage (used 5) ∷ []

before_open : no_finish before ≡ true
unfolding no_finish
before_open = refl

after_open : no_finish after ≡ true
unfolding no_finish
after_open = refl

answer-endings_example :
    endings (answer to_text (new "c" true) (before ++ StreamEvent.finish FinishReason.stop ∷ after))
    ≡ finish_reason "stop" ∷ (reported true (last_usage none before) ++ done ∷ [])
answer-endings_example =
    answer-endings to_text "c" true before after FinishReason.stop before_open after_open

first_usage : reported true (last_usage none before) ≡ usage_of 3 1 4 none none ∷ []
unfolding last_usage
first_usage = refl
