-- ===== src/Stream/Assembler/Wire.antt =====
-- The assembler's state, and the parts of it that close and open content blocks.
use grokcli_2api.Base.{
  ℕ, ◌+◌, String, Bool, true, false, not, ◌&&◌, Option, none, some, List, [], ◌∷◌, ◌++◌, get_or,
  leb, ◌==◌, is_text, starts_with, text_from, text_length, ◌<>◌, if◌then◌else◌,
}
use grokcli_2api.Stream.Events.{
  StreamEvent, message_start, block_start_text, block_start_thinking, text_delta, thinking_delta,
  input_json_delta, block_stop, Tool,
}

-- What the assembler is made with, and the functions on names and arguments that it calls. A limit of
-- zero is none; it is read when the assembler is made.
pub record Rules : Type 0 where
  pub max_tools : ℕ
  pub tools_requested : Bool
  pub strip : String → String
  pub canonical_outbound_tool_name : String → String
  pub normalize_tool_arguments : String → String → String
  pub is_complete : String → String → Bool
  pub merge_tool_argument_delta : String → String → String → String
  pub requires_keys : String → Bool

pub record Assembler : Type 0 where
  pub next_index : ℕ
  pub text_index : Option ℕ
  pub thinking_index : Option ℕ
  pub tools : List Tool
  pub started : Bool
  pub saw_tool : Bool
  pub tools_pending : Bool
  pub held_pre_tool : List (String × String)
  pub output_chars : ℕ
  pub tools_started_count : ℕ

abbrev pub new_assembler : Assembler
new_assembler = record {
  next_index = 0;
  text_index = none;
  thinking_index = none;
  tools = [];
  started = false;
  saw_tool = false;
  tools_pending = false;
  held_pre_tool = [];
  output_chars = 0;
  tools_started_count = 0;
}

-- Python's threading of the state through two calls that answer events.
abbrev pub Step : Type 0
Step = Assembler → Assembler × List StreamEvent

infixl 5 ◌then◌
abbrev pub ◌then◌ : Step → Step → Step
◌then◌ f g a = let (b, es) = f a in let (c, fs) = g b in (c, es ++ fs)

-- `_tool_budget_left() == 0`
unfoldable pub is_budget_spent : Rules → Assembler → Bool
is_budget_spent rules a = not (rules.max_tools == 0) && leb rules.max_tools a.tools_started_count

unfoldable pub start : ℕ → Step
start input_tokens a =
    if a.started then (a, []) else (record a { started = true }, message_start input_tokens ∷ [])

unfoldable pub close_text : Step
close_text a = elim a.text_index [
  | none ↦ (a, [])
  | some i ↦ (record a { text_index = none }, block_stop i ∷ [])
]

unfoldable pub close_thinking : Step
close_thinking a = elim a.thinking_index [
  | none ↦ (a, [])
  | some i ↦ (record a { thinking_index = none }, block_stop i ∷ [])
]

-- `self._tools.get(index)` and `self._tools[tool.index] = tool`
unfoldable pub get_tool : ℕ → List Tool → Option Tool
get_tool i [] = none
get_tool i (t ∷ ts) = if t.index == i then some t else get_tool i ts

unfoldable pub put_tool : Tool → List Tool → List Tool
put_tool t [] = t ∷ []
put_tool t (u ∷ us) =
    let rest = put_tool t us in
    if u.index == t.index then t ∷ us else if leb t.index u.index then t ∷ u ∷ us else u ∷ rest

-- The index of the block of a tool that is started.
abbrev pub block_of : Tool → ℕ
block_of t = get_or t.block_index 0

unfoldable pub is_open_tool : Tool → Bool
is_open_tool t = t.started && not t.stopped

-- `remaining` of `_flush_tool_args`, empty where it returns early
unfoldable pub unsent_args : Rules → Bool → Tool → String
unsent_args rules closing t =
    if not t.started
    then ""
    else if not (is_text t.args)
    then ""
    else if is_text t.args_sent_text && not (starts_with t.args t.args_sent_text)
    then ""
    else if not (rules.is_complete t.name t.args) && not closing
    then ""
    else text_from (text_length t.args_sent_text) t.args

-- `_flush_tool_args`, with `_closing` as an argument
unfoldable pub flush_tool_args :
    Rules → Bool → Tool → Assembler → Tool × Assembler × List StreamEvent
unfolding unsent_args
flush_tool_args rules closing t a =
    let remaining = unsent_args rules closing t in
    if is_text remaining
    then ((
      record t { args_sent_text = t.args_sent_text <> remaining },
      record a { output_chars = a.output_chars + text_length remaining },
      input_json_delta (block_of t) remaining ∷ [],
    ))
    else (t, a, [])

-- The loop's body in `_close_tools` after the flush: a tool of which nothing was sent, and that
-- requires nothing, has empty arguments.
unfoldable pub stop_tool : Rules → Tool → Step
stop_tool rules t a =
    if not (is_text (rules.strip t.args_sent_text))
      && not (rules.requires_keys (rules.strip t.name))
    then ((
      record a {
        tools =
            put_tool
              (record t {
                args = if is_text t.args then t.args else "{}";
                args_sent_text = "{}";
                stopped = true;
              })
              a.tools;
        output_chars = a.output_chars + 2;
      },
      input_json_delta (block_of t) "{}" ∷ block_stop (block_of t) ∷ [],
    ))
    else ((
      record a { tools = put_tool (record t { stopped = true }) a.tools },
      block_stop (block_of t) ∷ [],
    ))

unfoldable pub close_tool : Rules → Tool → Step
unfolding flush_tool_args stop_tool
close_tool rules t a =
    let (u, b, es) = flush_tool_args rules true t a in
    let (c, fs) = stop_tool rules u b in (c, es ++ fs)

-- `open_states`, sorted by block
unfoldable pub insert_by_block : Tool → List Tool → List Tool
insert_by_block t [] = t ∷ []
insert_by_block t (u ∷ us) =
    let rest = insert_by_block t us in
    if leb (block_of t) (block_of u) then t ∷ u ∷ us else u ∷ rest

unfoldable pub open_tools : List Tool → List Tool
unfolding insert_by_block is_open_tool
open_tools [] = []
open_tools (t ∷ ts) =
    let rest = open_tools ts in if is_open_tool t then insert_by_block t rest else rest

unfoldable pub close_each : Rules → List Tool → Step
unfolding close_tool
close_each rules [] a = (a, [])
close_each rules (t ∷ ts) a = (close_tool rules t then close_each rules ts) a

unfoldable pub close_tools : Rules → Step
unfolding close_each open_tools
close_tools rules a = close_each rules (open_tools a.tools) a

-- `_emit_text_and_thinking`, one half each
unfoldable pub open_thinking : Step
unfolding close_text
open_thinking a = elim a.thinking_index [
  | none ↦
      let (b, es) = close_text a in
      (
        record b { thinking_index = some b.next_index; next_index = b.next_index + 1 },
        es ++ (block_start_thinking b.next_index ∷ []),
      )
  | some i ↦ (a, [])
]

unfoldable pub write_thinking : String → Step
write_thinking reasoning a = (
  record a { output_chars = a.output_chars + text_length reasoning },
  thinking_delta (get_or a.thinking_index 0) reasoning ∷ [],
)

unfoldable pub emit_thinking : Rules → String → Step
unfolding close_tools open_thinking write_thinking
emit_thinking rules reasoning a =
    if is_text reasoning
    then (close_tools rules then open_thinking then write_thinking reasoning) a
    else (a, [])

unfoldable pub open_text : Step
open_text a = elim a.text_index [
  | none ↦ (
    record a { text_index = some a.next_index; next_index = a.next_index + 1 },
    block_start_text a.next_index ∷ [],
  )
  | some i ↦ (a, [])
]

unfoldable pub write_text : String → Step
write_text content a = (
  record a { output_chars = a.output_chars + text_length content },
  text_delta (get_or a.text_index 0) content ∷ [],
)

unfoldable pub emit_text : Rules → String → Step
unfolding close_tools close_thinking open_text write_text
emit_text rules content a =
    if is_text content
    then (close_tools rules then close_thinking then open_text then write_text content) a
    else (a, [])

unfoldable pub emit_text_and_thinking : Rules → String → String → Step
unfolding emit_thinking emit_text
emit_text_and_thinking rules content reasoning =
    emit_thinking rules reasoning then emit_text rules content
