-- ===== src/Stream/Events.antt =====
-- The server-sent events of grok2api/protocol/anthropic_compat.py, as values, and the slots of the
-- assembler's tool calls. A text that Python may have as `None` is empty there.
use grokcli_2api.Base.{ℕ, String, Bool, false, Option, none}

-- The JSON text of an event is left out; a block event carries the index of its block.
pub data StreamEvent : Type 0 where
  message_start : ℕ → StreamEvent
  block_start_text block_start_thinking : ℕ → StreamEvent
  block_start_tool : ℕ → String → String → StreamEvent
  text_delta thinking_delta input_json_delta : ℕ → String → StreamEvent
  block_stop : ℕ → StreamEvent
  message_delta : String → ℕ → Option ℕ → ℕ → ℕ → StreamEvent
  message_stop : StreamEvent

-- An entry of `_tools`, with its key; `args_sent` is the length of `args_sent_text`.
pub record Tool : Type 0 where
  pub index : ℕ
  pub block_index : Option ℕ
  pub id : String
  pub name : String
  pub args : String
  pub args_sent_text : String
  pub started : Bool
  pub stopped : Bool

abbrev pub new_tool : ℕ → String → Tool
new_tool index id = record {
  index = index;
  block_index = none;
  id = id;
  name = "";
  args = "";
  args_sent_text = "";
  started = false;
  stopped = false;
}

-- A piece of a tool call as the upstream sends it. `fresh_id` is the id that the assembler draws if
-- the first piece of a call has none.
pub record Piece : Type 0 where
  pub index : ℕ
  pub id : String
  pub fresh_id : String
  pub function_name : String
  pub name : String
  pub function_arguments : Option String
  pub arguments : Option String
  pub input : Option String

-- `usage` of the upstream's last chunk, and what `_anthropic_cache_tokens` answers for it.
pub record Usage : Type 0 where
  pub completion_tokens : ℕ
  pub prompt_tokens : ℕ
  pub cache_read : ℕ
  pub cache_creation : ℕ
