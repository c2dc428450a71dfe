-- ===== src/Stream/Tests.antt =====
-- The stream's theorems at concrete inputs.
use mathlib.Core.Path.{subst}
use grokcli_2api.Base.{
  ◌≡◌, refl, sym, String, true, none, some, List, [], ◌∷◌, ◌<>◌, is_text, str_eq, eq_iff, text_from,
  text_length, cut,
}
use grokcli_2api.Stream.Events.{
  Piece, Usage, message_start, block_start_tool, input_json_delta, block_stop, message_delta,
  message_stop,
}
use grokcli_2api.Stream.Assembler.{
  Rules, ◌then◌, new_assembler, finish, take_pieces, is_budget_spent,
}
use grokcli_2api.Stream.Client.{before, ended, accept_all}
use grokcli_2api.Stream.Served.{Chunk, feed_all, answer_accepted}

-- Rules for one kind of tool, whose arguments are always the same text.
abbrev only_args : String
only_args = "{\"path\":\"a\"}"

abbrev rules : Rules
rules = record {
  max_tools = 1;
  tools_requested = true;
  strip = λ s. s;
  canonical_outbound_tool_name = λ s. s;
  normalize_tool_arguments = λ name s. s;
  is_complete = λ name s. str_eq s only_args;
  merge_tool_argument_delta = λ name s t. s <> t;
  requires_keys = λ name. true;
}

complete_has_text :
    (name args : String) → rules.is_complete name args ≡ true → is_text (rules.strip args) ≡ true
complete_has_text name args h =
    subst (λ s. is_text s ≡ true) (sym ((eq_iff args only_args).0 h)) refl

abbrev piece : String → Piece
piece args = record {
  index = 0;
  id = "call_1";
  fresh_id = "toolu_1";
  function_name = "Read";
  name = "";
  function_arguments = some args;
  arguments = none;
  input = none;
}

abbrev without_usage : Usage
without_usage = record {
  completion_tokens = 0;
  prompt_tokens = 0;
  cache_read = 0;
  cache_creation = 0;
}

-- A thought, and a call in two fragments.
abbrev chunks : List Chunk
chunks =
    record { content = ""; reasoning = "hm"; tool_calls = [] }
    ∷ record { content = ""; reasoning = ""; tool_calls = piece "{\"path\":" ∷ [] }
    ∷ record { content = ""; reasoning = ""; tool_calls = piece "\"a\"}" ∷ [] }
    ∷ []

-- The thought is dropped, and the call is one block.
one_call :
    ((feed_all rules chunks then finish rules "stop" without_usage 0) new_assembler).1
    ≡ message_start 0
      ∷ block_start_tool 0 "call_1" "Read"
      ∷ input_json_delta 0 only_args
      ∷ block_stop 0
      ∷ message_delta "tool_use" 3 none 0 0
      ∷ message_stop
      ∷ []
unfolding feed_all finish take_pieces is_budget_spent text_from text_length cut
one_call = refl

answer_accepted_example :
    accept_all rules.is_complete before
      ((feed_all rules chunks then finish rules "stop" without_usage 0) new_assembler).1
    ≡ ended
answer_accepted_example = answer_accepted rules complete_has_text chunks "stop" without_usage 0
