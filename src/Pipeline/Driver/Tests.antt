-- ===== src/Pipeline/Driver/Tests.antt =====
-- The driver between an OpenAI client and a provider whose payloads are one letter: `t` a text, `e` an
-- error, and all others the end.
use kinetix.Base.{
  ℕ, ◌≡◌, refl, true, false, none, some, List, [], ◌∷◌, ◌++◌, String, str_eq, ◌==◌, if◌then◌else◌,
  ok,
}
use kinetix.Types.{StreamEvent, FinishReason, server_error, merge}
use kinetix.Sse.{SseFramer, push, push_loop, find_delimiter, scan, normalize_crlf, pending_bytes}
use kinetix.Sse.Data.{extract_data, lines, strip_prefix, data_lines}
use kinetix.Pipeline.Tools.{new, normalize, normalize_one, start_call}
use kinetix.Pipeline.Driver.{
  EncoderOf, AdapterOf, success, stream_error, Input, chunk, ended, Drive, drive, on_input,
  on_frames, on_payload, on_events, emit_translated_events, send_error, settle, close, send,
  send_all, emit_frames, payload_is_terminal,
}
use kinetix.Pipeline.Driver.Played.{Play, view, play}
use kinetix.Pipeline.Driver.Endings.{drive-success}
use kinetix.Pipeline.Driver.Errors.{twice, error_sent_twice}
use kinetix.Frontends.OpenAi
use kinetix.Frontends.OpenAi.{OpenAiEncoder, Chunk, error_object, finish_reason, done}

abbrev to_text : ℕ → String
to_text n = "n"

abbrev same : String → String
same s = s

abbrev client : EncoderOf OpenAiEncoder Chunk
client = record {
  encode = OpenAi.encode to_text;
  finalize = OpenAi.finalize to_text;
  error_frame = λ s m. (s, OpenAi.error_frame m);
}

abbrev provider : AdapterOf
provider = record {
  parse_stream_chunk = λ p. ok (
      if str_eq p "t"
      then StreamEvent.text_delta "Hi." ∷ []
      else StreamEvent.finish FinishReason.stop ∷ []);
  payload_error = λ p. if str_eq p "e" then some (server_error, "down") else none;
  is_message_stop = λ p. false;
}

-- The bytes 1, 2 and 3 stand for whole lines of data.
abbrev letters : List ℕ → String
letters [] = ""
letters (x ∷ xs) = if x == 1 then "data: t" else if x == 2 then "data: e" else "data: f"

abbrev begin : Drive OpenAiEncoder Chunk
begin = record {
  encoder = OpenAi.new "c" true;
  tool_stream = new "r";
  framer = record { buffer = []; scan_from = 0; max_frame_bytes = 100 };
  usage = record {
    input = none;
    output = none;
    cached = none;
    cache_write = none;
    thinking = none;
  };
  terminal_seen = false;
  status = success;
  status_code = 200;
  error_message = none;
  provider_failure = none;
  committed = false;
  cancellations = 0;
  sent = [];
  room = none;
}

abbrev whole : List Input
whole = chunk (1 ∷ 10 ∷ 10 ∷ 3 ∷ 10 ∷ []) ∷ chunk (10 ∷ []) ∷ ended ∷ []

abbrev after_whole : Drive OpenAiEncoder Chunk
after_whole = record begin {
  encoder = record (OpenAi.new "c" true) { role_sent = true; finish_sent = true };
  terminal_seen = true;
  committed = true;
  sent = OpenAi.role ∷ OpenAi.content "Hi." ∷ finish_reason "stop" ∷ done ∷ [];
}

whole_answer : drive to_text letters same client provider OpenAi.role begin whole ≡ some after_whole
unfolding drive on_input on_frames on_payload on_events emit_translated_events send_error settle
    close send send_all emit_frames payload_is_terminal push push_loop find_delimiter scan
    normalize_crlf pending_bytes extract_data lines strip_prefix data_lines normalize normalize_one
    start_call merge OpenAi.encode OpenAi.finalize
whole_answer = refl

abbrev whole_play : Play OpenAiEncoder Chunk
whole_play = play to_text letters same client provider OpenAi.role (view begin) whole

drive-success_example :
    (whole_play.over ≡ true)
    × (pending_bytes whole_play.framer ≡ 0)
    × (after_whole.sent ≡ whole_play.frames ++ (client.finalize whole_play.encoder).1)
drive-success_example =
    drive-success to_text letters same client provider OpenAi.role begin after_whole whole
      whole_answer refl

abbrev bad : List ℕ
bad = 2 ∷ 10 ∷ 10 ∷ []

abbrev emptied : SseFramer
emptied = record { buffer = []; scan_from = 0; max_frame_bytes = 100 }

bad_pushed :
    push letters begin.framer bad ≡ some (record { result = ok ("data: e" ∷ []); framer = emptied })
unfolding push push_loop find_delimiter scan normalize_crlf
bad_pushed = refl

bad_data : extract_data "data: e" ≡ some "e"
unfolding extract_data lines data_lines strip_prefix
bad_data = refl

error_sent_twice_example :
    (d' : Drive OpenAiEncoder Chunk) × (drive to_text letters same client provider OpenAi.role begin
        (chunk bad ∷ [])
      ≡ some d')
    × (d'.status ≡ stream_error)
    × (d'.sent ≡ begin.sent ++ twice client begin.encoder "down")
error_sent_twice_example =
    error_sent_twice to_text letters same client provider OpenAi.role begin bad "data: e" "e" "down"
      [] emptied server_error [] refl bad_pushed bad_data refl refl
