-- ===== src/Live/Tests.antt =====
-- The live stream's theorems at concrete inputs.
use grokcli_2api.Base.{
  ◌≡◌, ◌⊎◌, refl, String, true, none, some, List, [], ◌∷◌, ◌<>◌, arith, str_eq, cut, text_length,
}
use grokcli_2api.Live.Frames.{
  CallDelta, created, in_progress, message_added, part_added, text_delta, call_added, args_delta,
  args_done, call_done, failed, numbered, done_mark,
}
use grokcli_2api.Live.Streamer.{
  Tooling, ◌then◌, new_streamer, fail, complete, merge_deltas, ready_rounds, emit_all_ready,
}
use grokcli_2api.Live.Client.{before, ended, accept_all}
use grokcli_2api.Live.Turns.{LiveChunk, text, calls, take_chunks, response_accepted}
use grokcli_2api.Live.Rounds.{ready_rounds_end}

-- One kind of tool, with one text of arguments.
abbrev args : String
args = "{\"path\":\"a\"}"

abbrev tooling : Tooling
tooling = record {
  strip = λ s. s;
  canonical_outbound_tool_name = λ s. s;
  normalize_tool_arguments = λ name s. s;
  is_complete = λ name s. str_eq s args;
  merge_tool_argument_delta = λ name s t. s <> t;
  requires_keys = λ name. true;
  is_parsed = λ s. str_eq s args;
}

abbrev delta : String → CallDelta
delta fragment = record {
  index = 0;
  id = "call_1";
  drawn_id = "fc_1";
  drawn_call_id = "call_drawn";
  function_name = "Read";
  function_arguments = some fragment;
  arguments = none;
}

abbrev chunks : List LiveChunk
chunks = text "1" "hm" ∷ calls (delta "{\"path\":" ∷ []) ∷ calls (delta "\"a\"}" ∷ []) ∷ []

text_and_call :
    ((take_chunks tooling chunks then fail "lost" "server_error") new_streamer).1
    ≡ numbered 0 created
      ∷ numbered 1 in_progress
      ∷ numbered 2 (message_added 0 "msg_1")
      ∷ numbered 3 (part_added 0 "msg_1")
      ∷ numbered 4 (text_delta 0 "msg_1" "hm")
      ∷ numbered 5 (call_added 1 "fc_1" "call_1" "Read")
      ∷ numbered 6 (args_delta 1 "fc_1" args)
      ∷ numbered 7 (args_done 1 "fc_1" args)
      ∷ numbered 8 (call_done 1 "fc_1" "call_1" "Read" args)
      ∷ numbered 9 (failed "lost" "server_error")
      ∷ done_mark
      ∷ []
unfolding take_chunks fail cut text_length
text_and_call = refl

response_accepted_example :
    (accept_all before ((take_chunks tooling chunks then fail "lost" "server_error") new_streamer).1
      ≡ ended)
    × (((complete tooling (take_chunks tooling chunks new_streamer).0).1 ≡ [])
        ⊎ (accept_all before ((take_chunks tooling chunks then complete tooling) new_streamer).1
            ≡ ended))
response_accepted_example = response_accepted tooling chunks "lost" "server_error"

ready_rounds_end_example :
    ready_rounds tooling 7
      (record new_streamer { slots = merge_deltas tooling (delta args ∷ []) [] })
    ≡ emit_all_ready tooling
        (record new_streamer { slots = merge_deltas tooling (delta args ∷ []) [] })
unfolding merge_deltas
ready_rounds_end_example =
    ready_rounds_end tooling 7
      (record new_streamer { slots = merge_deltas tooling (delta args ∷ []) [] }) (omega arith)
