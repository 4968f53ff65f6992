-- ===== src/Frontends/Anthropic/Protocol.antt =====
-- Anthropic's message stream as a client reads it: one message, blocks numbered from 0 that do not
-- overlap, deltas of the open block and of its kind, then the stop reason and the end.
use mathlib.Core.List.{append_assoc}
use kinetix.Base.{
  sym, ℕ, ◌+◌, ◌-◌, ◌≤◌, ◌<◌, ◌≡◌, refl, ap, ◌∙◌, Bool, true, false, ◌&&◌, Option, none, some,
  unwrap_or, List, [], ◌∷◌, ◌++◌, String, ◌<>◌, ◌==◌, if◌then◌else◌, length, arith,
}
use kinetix.Types.{StreamEvent}
use kinetix.Frontends.Anthropic.{
  AnthropicEncoder, BlockState, Block, text_block, thinking_block, tool_use, Delta, Frame,
  message_start, content_block_start, content_block_delta, content_block_stop, message_delta,
  message_stop, new, block_of, put_block, thinking_deltas, encode, finalize, answer,
}

pub data Kind : Type 0 where
  text_kind thinking_kind tool_kind : Kind

abbrev pub kind_of : Block → Kind
kind_of text_block = text_kind
kind_of thinking_block = thinking_kind
kind_of (tool_use id name) = tool_kind

-- Where a client is in the stream; `between` and `inside` know the index of the next or the open block.
pub data Client : Type 0 where
  idle closing done failed : Client
  between : ℕ → Client
  inside : ℕ → Kind → Client

abbrev pub fits : Kind → Delta → Bool
fits text_kind (Delta.text_delta t) = true
fits thinking_kind (Delta.thinking_delta t) = true
fits thinking_kind (Delta.signature_delta t) = true
fits tool_kind (Delta.input_json_delta t) = true
fits _ _ = false

unfoldable pub read : Client → Frame → Client
read idle (message_start id model) = between 0
read (between n) (content_block_start i b) = if i == n then inside n (kind_of b) else failed
read (between n) (message_delta reason tokens) = closing
read (inside n b) (content_block_delta i d) = if i == n && fits b d then inside n b else failed
read (inside n b) (content_block_stop i) = if i == n then between (n + 1) else failed
read closing message_stop = done
read _ _ = failed

unfoldable pub read_all : Client → List Frame → Client
read_all p [] = p
read_all p (f ∷ fs) = read_all (read p f) fs

read_all-append :
    (p : Client) (fs gs : List Frame) → read_all p (fs ++ gs) ≡ read_all (read_all p fs) gs
unfolding read_all
read_all-append p [] gs = refl
read_all-append p (f ∷ fs) gs = read_all-append (read p f) fs gs

-- The last content of the answer so far.
pub data Last : Type 0 where
  nothing words thoughts : Last
  tool : ℕ → Last

abbrev pub is_tool : Last → Bool
is_tool (tool i) = true
is_tool _ = false

abbrev pub is_that_tool : Last → ℕ → Bool
is_that_tool (tool i) j = i == j
is_that_tool _ j = false

abbrev pub after : Last → StreamEvent → Last
after l (StreamEvent.text_delta t) = words
after l (StreamEvent.refusal_delta t) = words
after l (StreamEvent.thinking_delta t g) = thoughts
after l (StreamEvent.tool_call_start i id name g) = tool i
after l _ = l

-- Text does not follow a tool call directly, and arguments belong to the call that is last.
abbrev pub allowed : Last → StreamEvent → Bool
allowed (tool i) (StreamEvent.text_delta t) = false
allowed (tool i) (StreamEvent.refusal_delta t) = false
allowed l (StreamEvent.tool_call_args_delta j args) = is_that_tool l j
allowed _ _ = true

unfoldable pub ordered : Last → List StreamEvent → Bool
ordered l [] = true
ordered l (e ∷ es) = allowed l e && ordered (after l e) es

-- The last content after some more events.
unfoldable pub last_of : Last → List StreamEvent → Last
last_of l [] = l
last_of l (e ∷ es) = last_of (after l e) es

block_of-put_block :
    (i : ℕ) (b : ℕ × String × String) (m : List (ℕ × (ℕ × String × String)))
    → block_of i (put_block i b m) ≡ some b.0
unfolding block_of put_block
block_of-put_block i (k, a, b) [] = ground arith
block_of-put_block i (k, a, b) ((j, (c, x, y)) ∷ m) =
    ground (arith, block_of-put_block i (k, a, b) m)

-- The encoder and its client after the same frames.
abbrev Open : AnthropicEncoder → BlockState → Kind → Client → Type 0
Open s state kind p =
    (s.started ≡ true)
    × (0 < s.next_index)
    × (s.open_block ≡ some (s.next_index - 1, state))
    × (p ≡ inside (s.next_index - 1) kind)
    × (s.stop_reason_sent ≡ false)

abbrev pub InStep : Last → AnthropicEncoder → Client → Type 0
InStep nothing s p =
    (s.open_block ≡ none)
    × (s.stop_reason_sent ≡ false)
    × (p ≡ (if s.started then between s.next_index else idle))
    × ((if s.started then 0 else s.next_index) ≡ 0)
InStep words s p = Open s BlockState.text text_kind p
InStep thoughts s p = Open s BlockState.thinking thinking_kind p
InStep (tool i) s p =
    Open s BlockState.text tool_kind p × (block_of i s.tool_blocks ≡ some (s.next_index - 1))

read-thinking_deltas :
    (i : ℕ) (t : String) (g : Option String)
    → read_all (inside i thinking_kind) (thinking_deltas i t g) ≡ inside i thinking_kind
unfolding read read_all
read-thinking_deltas i t none = ground arith
read-thinking_deltas i t (some g) = ground arith

module _ (to_text : ℕ → String) (plain : String → String) where
  encode-InStep :
      (l : Last) (s : AnthropicEncoder) (p : Client) (e : StreamEvent)
      → allowed l e ≡ true
      → s.next_index + 1 < 4294967296
      → InStep l s p
      → let (s', out) = encode to_text plain s e in
        InStep (after l e) s' (read_all p out) × (s'.next_index ≤ s.next_index + 1)
  unfolding encode read_all read
  encode-InStep nothing s p (StreamEvent.start id) a small h = ground arith
  encode-InStep nothing s p (StreamEvent.text_delta t) a small h = ground arith
  encode-InStep nothing s p (StreamEvent.refusal_delta t) a small h = ground arith
  encode-InStep l s p (StreamEvent.thinking_delta t g) a small h =
      ground
        (arith, read-thinking_deltas s.next_index t g, read-thinking_deltas (s.next_index - 1) t g)
  encode-InStep l s p (StreamEvent.tool_call_start i id n g) a small h = ground (
    arith,
    block_of-put_block i
        (s.next_index, unwrap_or id ("toolu_" <> s.request_id <> "_" <> to_text i), n)
        s.tool_blocks,
  )
  encode-InStep l s p e a small h = ground arith

  -- The client reads the end of an answer in every state that the encoder leaves it in.
  finalize-done :
      (l : Last) (s : AnthropicEncoder) (p : Client)
      → InStep l s p
      → read_all p (finalize to_text plain s).1 ≡ done
  unfolding finalize read_all read
  finalize-done nothing s p h = ground arith
  finalize-done l s p h = ground arith

  answer-done :
      (l : Last) (s : AnthropicEncoder) (p : Client) (es : List StreamEvent)
      → ordered l es ≡ true
      → s.next_index + length es < 4294967296
      → InStep l s p
      → read_all p (answer to_text plain s es) ≡ done
  unfolding answer ordered
  answer-done l s p [] o small h = finalize-done l s p h
  answer-done l s p (e ∷ es) o small h =
      let (k, le) = encode-InStep l s p e (ground arith) (omega arith) h in
      read_all-append p (encode to_text plain s e).1
        (answer to_text plain (encode to_text plain s e).0 es)
      ∙ answer-done (after l e) (encode to_text plain s e).0 _ es (ground arith) (omega arith) k

  -- The encoder implements the protocol: the frames of an answer of fewer than 2^32 events are a whole
  -- message (one start, blocks numbered from 0 that never overlap, every delta in the open block and of
  -- its kind, one stop reason, the end) if no text follows a tool call directly and the arguments of a
  -- tool call come before anything else is started.
  pub answer-ordered :
      (request_id model_name : String) (es : List StreamEvent)
      → ordered nothing es ≡ true
      → length es < 4294967296
      → read_all idle (answer to_text plain (new request_id model_name) es) ≡ done
  answer-ordered request_id model_name es o small =
      answer-done nothing (new request_id model_name) idle es o (omega arith)
        (refl, refl, refl, refl)

  -- In an answer some text is written as a delta of the block that the client has open for a tool call.
  pub record IsMisplaced (p : Client) (t : String) (fs : List Frame) : Type 0 where
    pub before : List Frame
    pub later : List Frame
    pub block : ℕ
    pub written : fs ≡ before ++ content_block_delta block (Delta.text_delta t) ∷ later
    pub client_inside : read_all p before ≡ inside block tool_kind

  text_in_tool :
      (i : ℕ) (s : AnthropicEncoder) (p : Client) (t : String)
      → InStep (tool i) s p
      → ((encode to_text plain s (StreamEvent.text_delta t)).1
          ≡ content_block_delta (s.next_index - 1) (Delta.text_delta t) ∷ [])
        × (p ≡ inside (s.next_index - 1) tool_kind)
  unfolding encode
  text_in_tool i s p t h = (ground (arith, h), h.0.3)

  -- The answer so far ends in a tool call.
  IsMisplaced-from :
      (l : Last) (s : AnthropicEncoder) (p : Client) (es rest : List StreamEvent) (t : String)
      → ordered l es ≡ true
      → is_tool (last_of l es) ≡ true
      → s.next_index + length es < 4294967296
      → InStep l s p
      → IsMisplaced p t (answer to_text plain s (es ++ StreamEvent.text_delta t ∷ rest))
  unfolding answer ordered last_of read_all
  IsMisplaced-from (tool i) s p [] rest t o k small h =
      let (s', out) = encode to_text plain s (StreamEvent.text_delta t) in
      let (frame, reads) = text_in_tool i s p t h in
      record {
        before = [];
        later = answer to_text plain s' rest;
        block = s.next_index - 1;
        written = ap (λ z. z ++ answer to_text plain s' rest) frame;
        client_inside = reads;
      }
  IsMisplaced-from l s p [] rest t o k small h = cc
  IsMisplaced-from l s p (e ∷ es) rest t o k small h =
      let (k', le) = encode-InStep l s p e (ground arith) (omega arith) h in
      let (s', out) = encode to_text plain s e in
      let m =
        IsMisplaced-from (after l e) s' (read_all p out) es rest t (ground arith) k (omega arith)
          k' in
      record {
        before = out ++ m.before;
        later = m.later;
        block = m.block;
        written = ap (λ z. out ++ z) m.written ∙ sym (append_assoc out m.before _);
        client_inside = read_all-append p out m.before ∙ m.client_inside;
      }

  -- After a tool call that is the last content so far, a delta of text is written as a text delta into
  -- the block of the tool call, which the client then has open, whatever follows.
  pub answer_broken :
      (request_id model_name : String) (es rest : List StreamEvent) (t : String)
      → ordered nothing es ≡ true
      → is_tool (last_of nothing es) ≡ true
      → length es < 4294967296
      → IsMisplaced idle t
          (answer to_text plain (new request_id model_name) (es ++ StreamEvent.text_delta t ∷ rest))
  answer_broken request_id model_name es rest t o k small =
      IsMisplaced-from nothing (new request_id model_name) idle es rest t o k (omega arith)
        (refl, refl, refl, refl)
