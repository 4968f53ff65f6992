-- ===== src/Sse/Tests.antt =====
-- Streams of two frames, cut in the middle of a delimiter, and the theorems at these inputs.
use kinetix.Base.{ℕ, ◌≡◌, refl, true, none, some, List, [], ◌∷◌, String, arith}
use kinetix.Sse.Data.{extract_data}
use kinetix.Sse.{
  SseFramer, scan, find_delimiter, normalize_crlf, push_loop, push, with_max_frame_bytes, too_large,
  frame_of, flush, pending, pending_bytes,
}
use kinetix.Sse.Chunks.{done}
use kinetix.Sse.Streams.{push_all, push_all-concat, new-IsScanned}
use kinetix.Sse.Limits.{split_delimiter_refused}

-- A decoding for the tests.
abbrev letters : List ℕ → String
letters [] = ""
letters (b ∷ l) = "x"

abbrev framer : SseFramer
framer = with_max_frame_bytes 4

-- `a\r\n\r\nb\n\nc`, in three chunks.
abbrev chunk_1 : List ℕ
chunk_1 = 97 ∷ 13 ∷ 10 ∷ []

abbrev chunk_2 : List ℕ
chunk_2 = 13 ∷ 10 ∷ 98 ∷ 10 ∷ []

abbrev chunk_3 : List ℕ
chunk_3 = 10 ∷ 99 ∷ []

abbrev leftover : SseFramer
leftover = record { buffer = 99 ∷ []; scan_from = 0; max_frame_bytes = 4 }

chunks_pushed :
    push_all letters framer (chunk_1 ∷ chunk_2 ∷ chunk_3 ∷ []) ≡ done ("x" ∷ "x" ∷ []) leftover
unfolding push_all push push_loop find_delimiter scan normalize_crlf with_max_frame_bytes
chunks_pushed = refl

leftover_flushed : (flush letters (λ s. s) leftover).1 ≡ some "x"
unfolding flush normalize_crlf
leftover_flushed = refl

leftover-pending : (pending leftover ≡ true) × (pending_bytes leftover ≡ 1)
unfolding pending pending_bytes
leftover-pending = (refl, refl)

push_all-concat_example :
    push letters framer (97 ∷ 13 ∷ 10 ∷ 13 ∷ 10 ∷ 98 ∷ 10 ∷ 10 ∷ 99 ∷ [])
    ≡ done ("x" ∷ "x" ∷ []) leftover
push_all-concat_example =
    push_all-concat letters (chunk_2 ∷ chunk_3 ∷ []) framer leftover chunk_1 ("x" ∷ "x" ∷ [])
      (new-IsScanned 4) chunks_pushed

oversized_refused : push letters framer (97 ∷ 97 ∷ 97 ∷ 97 ∷ 97 ∷ []) ≡ some (too_large 5 4)
unfolding push push_loop find_delimiter scan normalize_crlf with_max_frame_bytes
oversized_refused = refl

split_delimiter_refused_example :
    (push letters (with_max_frame_bytes 3) (97 ∷ 98 ∷ 99 ∷ 10 ∷ 10 ∷ [])
      ≡ done (frame_of letters (97 ∷ 98 ∷ 99 ∷ [])) (with_max_frame_bytes 3))
    × (push letters (with_max_frame_bytes 3) (97 ∷ 98 ∷ 99 ∷ 10 ∷ []) ≡ some (too_large 4 3))
split_delimiter_refused_example =
    split_delimiter_refused letters 3 (97 ∷ 98 ∷ 99 ∷ []) (omega arith) refl
      (refl, (refl, (refl, tt)))

two_lines : extract_data "event: x\r\ndata: a\ndata:b" ≡ some "a\nb"
unfolding extract_data
two_lines = refl

no_data : extract_data ": keepalive\n" ≡ none
unfolding extract_data
no_data = refl
