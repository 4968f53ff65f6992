-- ===== src/Sse.antt =====
-- src/sse.rs: the splitter of a byte stream into server-sent-event frames. Bytes are numbers. The
-- lossy decoding of a finished frame is `String::from_utf8_lossy`, the parameter `from_utf8_lossy`.
-- The loop of `push` takes fuel; a round removes a delimiter, so the buffer's length is enough.
pub mod Data
pub mod Scan
pub mod Chunks
pub mod Streams
pub mod Limits
mod Tests
use kinetix.Base.{
  ℕ, zero, suc, ◌+◌, ◌-◌, min, max, Bool, true, false, ◌&&◌, not, Option, none, some, List, [], ◌∷◌,
  ◌++◌, String, str_eq, ltb, ◌==◌, if◌then◌else◌, length, take, drop, Result, ok, err,
}

pub data SseFrameError : Type 0 where
  frame_too_large : ℕ → ℕ → SseFrameError

pub record SseFramer : Type 0 where
  pub buffer : List ℕ
  pub scan_from : ℕ
  pub max_frame_bytes : ℕ

abbrev pub default_max_frame_bytes : ℕ
default_max_frame_bytes = 1048576

unfoldable pub with_max_frame_bytes : ℕ → SseFramer
with_max_frame_bytes n = record { buffer = []; scan_from = 0; max_frame_bytes = max n 1 }

-- `\n\n` at the head of the list.
abbrev pub is_lf_lf : List ℕ → Bool
is_lf_lf (a ∷ b ∷ l) = a == 10 && b == 10
is_lf_lf _ = false

-- `\r\n\r\n` at the head of the list.
abbrev pub is_crlf_crlf : List ℕ → Bool
is_crlf_crlf (a ∷ b ∷ c ∷ d ∷ l) = a == 13 && (b == 10 && (c == 13 && d == 10))
is_crlf_crlf _ = false

-- The loop of `find_delimiter`, on what lies from index `i` on: index and length of the delimiter.
unfoldable pub scan : List ℕ → ℕ → Option (ℕ × ℕ)
scan [] i = none
scan (x ∷ l) i =
    let rest = scan l (i + 1) in
    if is_lf_lf (x ∷ l) then some (i, 2) else if is_crlf_crlf (x ∷ l) then some (i, 4) else rest

unfoldable pub find_delimiter : List ℕ → ℕ → Option (ℕ × ℕ)
unfolding scan
find_delimiter bytes start = let i = min start (length bytes) in scan (drop i bytes) i

unfoldable pub normalize_crlf : List ℕ → List ℕ
normalize_crlf [] = []
normalize_crlf (a ∷ []) = a ∷ []
normalize_crlf (a ∷ b ∷ l) =
    let skip = 10 ∷ normalize_crlf l in
    let keep = a ∷ normalize_crlf (b ∷ l) in if a == 13 && b == 10 then skip else keep

-- What a call of `push` returns, with the framer that it leaves.
pub record Pushed : Type 0 where
  pub result : Result SseFrameError (List String)
  pub framer : SseFramer

abbrev pub is_empty {ℓ} : {A : Type ℓ} → List A → Bool
is_empty [] = true
is_empty (x ∷ l) = false

abbrev pub too_large : ℕ → ℕ → Pushed
too_large pending limit = record {
  result = err (frame_too_large pending limit);
  framer = record { buffer = []; scan_from = 0; max_frame_bytes = limit };
}

-- Frames found before the rest; an error later in the same call loses them.
abbrev pub prepend : List String → Option Pushed → Option Pushed
prepend fs none = none
prepend fs (some p) =
    some (record p { result = elim p.result [ ok gs ↦ ok (fs ++ gs) | err e ↦ err e ] })

module _ (from_utf8_lossy : List ℕ → String) where
  -- The frame that some bytes make: none, if there are none.
  abbrev pub frame_of : List ℕ → List String
  frame_of bytes =
      if is_empty bytes
      then []
      else if is_empty (normalize_crlf bytes)
      then []
      else from_utf8_lossy (normalize_crlf bytes) ∷ []

  unfoldable pub push_loop : ℕ → ℕ → List ℕ → ℕ → Option Pushed
  unfolding normalize_crlf
  push_loop zero limit buffer scan_from = none
  push_loop (suc fuel) limit buffer scan_from = elim (find_delimiter buffer scan_from) [
    | none ↦
        if ltb limit (length buffer)
        then some (too_large (length buffer) limit)
        else some (record {
          result = ok [];
          framer = record {
            buffer = buffer;
            scan_from = length buffer - 3;
            max_frame_bytes = limit;
          };
        })
    | some (idx, delimiter_len) ↦
        if ltb limit idx
        then some (too_large idx limit)
        else prepend (frame_of (take idx buffer))
            (push_loop fuel limit (drop delimiter_len (drop idx buffer)) 0)
  ]

  unfoldable pub push : SseFramer → List ℕ → Option Pushed
  push f bytes =
      let buffer = f.buffer ++ bytes in
      push_loop (suc (length buffer)) f.max_frame_bytes buffer f.scan_from

  -- Trailing incomplete data, unless it is white space; `trim` is `str`'s.
  unfoldable pub flush : (String → String) → SseFramer → SseFramer × Option String
  flush trim f =
      if is_empty f.buffer
      then (f, none)
      else (let rest = from_utf8_lossy (normalize_crlf f.buffer) in
          (
            record f { buffer = []; scan_from = 0 },
            if str_eq (trim rest) "" then none else some rest,
          ))

unfoldable pub pending : SseFramer → Bool
pending f = not (is_empty f.buffer)

unfoldable pub pending_bytes : SseFramer → ℕ
pending_bytes f = length f.buffer
