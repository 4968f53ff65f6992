-- ===== src/Opaque/Tests.antt =====
-- A store with room for one signature, and two tool calls.
use kinetix.Base.{
  Bool-cases, inl, inr, ◌≤◌, ◌<◌, ◌≡◌, refl, ap, sym, arith, true, false, Option, none, some, List,
  [], ◌∷◌, In, String, str_eq, length, ◌⊎◌, some-injective, filter, find, seconds,
}
use kinetix.Base.Keyed.{lookup, insert, remove}
use kinetix.Opaque.{
  OpaqueStateTarget, gemini_thought_signature, Cipher, compatible, incompatible, missing,
  tool_name_mismatch, session_mismatch, as_str, key_eq, cache_key, tool_call_hash,
}
use kinetix.Opaque.Table.{
  matches, place, newest_first, stored_row, selects, fetch_rows, upsert, row_of, write_row,
  persist_opaque_state, prune_pool,
}
use kinetix.Opaque.Store.{
  new, count, evict, touch_order, put_cached, try_send, answered, answer, refusal, sessions_differ,
  identity_mismatch, capture_tool_signature, other_rows, restore, restore_row, resolve_exact,
  resolve_rows, resolve_stored, resolve_cached, resolve_target, resolve_tool_signature, work_on,
  work,
}
use kinetix.Opaque.History.{Capture, Event, capture, worked, step, run}
use kinetix.Opaque.Origin.{Laws}
use kinetix.Opaque.Bounded.{cache_bounded}
use kinetix.Opaque.Recall.{resolve-capture}
use kinetix.Opaque.Conversation.{captures, restored_conversation}
use text.Mathlib.TextEquality.{eq_iff}
use Prim.Native.Char.{char}

-- Every text is its own hash but for a mark, and a sealed text is the text with a mark.
abbrev hash : String → String
hash s = String.◌∷◌ (char 104 tt) s

abbrev unseal : String → Option String
unseal String.[] = none
unseal (String.◌∷◌ c s) = some s

abbrev cipher : Cipher
cipher = record { encrypt = λ nonce s. some (String.◌∷◌ (char 101 tt) s); decrypt = unseal }

seal-unseal :
    (s sealed : String) → some (String.◌∷◌ (char 101 tt) s) ≡ some sealed → unseal sealed ≡ some s
seal-unseal s sealed e = ap unseal (sym (some-injective e))

hash_not_empty : (s : String) → str_eq (hash s) "" ≡ false
hash_not_empty s = elim (Bool-cases (str_eq (hash s) "")) [
  | inl e ↦
      let none_left : some s ≡ none = ap unseal ((eq_iff (hash s) "").0 e) in
      absurd (ground (arith, none_left))
  | inr e ↦ e
]

laws : Laws hash cipher
laws = record {
  decrypts = λ nonce s sealed e. seal-unseal s sealed e;
  collision_free = λ a b e. some-injective (ap unseal e);
  not_empty = hash_not_empty;
}

abbrev flash : OpaqueStateTarget
flash = record {
  kind = gemini_thought_signature;
  provider_id = "p";
  family = "gemini";
  producer = "google";
  model_id = "flash";
}

abbrev pro : OpaqueStateTarget
pro = record flash { model_id = "pro" }

abbrev weather : Capture
weather = record {
  scope = "key";
  target = flash;
  session = some "s";
  call = "call_1";
  name = "get_weather";
  signature = "sig_1";
}

abbrev files : Capture
files = record weather { call = "call_2"; name = "read_file"; signature = "sig_2" }

-- The first signature is written to the table, and then evicted by the second.
abbrev events : List Event
events = capture weather (seconds 1) ∷ worked 7 (seconds 2) true ∷ capture files (seconds 3) ∷ []

first_restored :
    (resolve_tool_signature hash cipher
      (run hash cipher (new 1) events)
      "key"
      (some flash)
      (some "s")
      "call_1"
      "get_weather"
      (seconds 4)
      (seconds 4)
      true).1
    ≡ compatible "sig_1"
unfolding run step capture_tool_signature resolve_tool_signature resolve_target resolve_cached
    resolve_stored resolve_rows resolve_exact restore_row restore answer answered count put_cached
    touch_order evict try_send work work_on identity_mismatch sessions_differ other_rows refusal
    lookup insert remove filter find new cache_key tool_call_hash as_str key_eq matches place
    newest_first stored_row selects fetch_rows upsert row_of write_row persist_opaque_state
    prune_pool
first_restored = refl

-- Another session, another tool and another model are refused; another client finds nothing.
refusals :
    let s = run hash cipher (new 1) events in
    let look = λ (scope : String) (target : OpaqueStateTarget) (session name : String).
      (resolve_tool_signature hash cipher s scope
        (some target)
        (some session)
        "call_1"
        name
        (seconds 4)
        (seconds 4)
        true).1 in
    (look "key" flash "other" "get_weather" ≡ session_mismatch)
    × (look "key" flash "s" "read_file" ≡ tool_name_mismatch)
    × (look "key" pro "s" "get_weather" ≡ incompatible)
    × (look "stranger" flash "s" "get_weather" ≡ missing)
unfolding run step capture_tool_signature resolve_tool_signature resolve_target resolve_cached
    resolve_stored resolve_rows resolve_exact restore_row restore answer answered count put_cached
    touch_order evict try_send work work_on identity_mismatch sessions_differ other_rows refusal
    lookup insert remove filter find new cache_key tool_call_hash as_str key_eq matches place
    newest_first stored_row selects fetch_rows upsert row_of write_row persist_opaque_state
    prune_pool
refusals = (refl, refl, refl, refl)

room : 0 < (run hash cipher (new 1) events).max_memory_rows
unfolding run step capture_tool_signature resolve_tool_signature resolve_target resolve_cached
    resolve_stored resolve_rows resolve_exact restore_row restore answer answered count put_cached
    touch_order evict try_send work work_on identity_mismatch sessions_differ other_rows refusal
    lookup insert remove filter find new cache_key tool_call_hash as_str key_eq matches place
    newest_first stored_row selects fetch_rows upsert row_of write_row persist_opaque_state
    prune_pool
room = omega arith

cache_bounded_example : length (run hash cipher (new 1) events).cache ≤ 1
cache_bounded_example = cache_bounded hash cipher 1 events

restored_conversation_example :
    (c : Capture) × In c (captures events)
    × (c.scope ≡ "key")
    × (c.call ≡ "call_1")
    × (◌≡◌ {A = Option OpaqueStateTarget} (some flash) (some c.target))
    × (c.name ≡ "get_weather")
    × (c.signature ≡ "sig_1")
    × ((c.session ≡ none) ⊎ ((◌≡◌ {A = Option String} (some "s") none) ⊎ (c.session ≡ some "s")))
restored_conversation_example =
    restored_conversation hash cipher laws 1 events "key" (some flash) (some "s") "call_1"
      "get_weather" (seconds 4) (seconds 4) true "sig_1" first_restored

resolve-capture_example :
    (resolve_tool_signature hash cipher
      (capture_tool_signature hash
        (run hash cipher (new 1) events)
        "key"
        pro
        none
        "call_1"
        "get_weather"
        "sig_3"
        (seconds 5))
      "key"
      (some pro)
      none
      "call_1"
      "get_weather"
      (seconds 60)
      (seconds 60)
      false).1
    ≡ compatible "sig_3"
resolve-capture_example =
    resolve-capture hash cipher (run hash cipher (new 1) events) "key" pro none "call_1"
      "get_weather" "sig_3" (seconds 5) (seconds 60) (seconds 60) false room refl refl (omega arith)
