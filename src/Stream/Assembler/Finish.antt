-- ===== src/Stream/Assembler/Finish.antt =====
-- `finish`: the last texts, the tools that are complete by then, and the end of the message.
use grokcli_2api.Base.{
  ℕ, ◌/◌, String, Bool, not, ◌&&◌, ◌||◌, none, some, List, [], ◌∷◌, is_text, one_of, str_eq, max,
  ltb, ◌==◌, if◌then◌else◌,
}
use grokcli_2api.Stream.Events.{message_delta, message_stop, Tool, Usage}
use grokcli_2api.Stream.Assembler.Wire.{
  Rules, Assembler, Step, ◌then◌, is_budget_spent, start, close_text, close_thinking, close_tools,
  get_tool, put_tool, emit_text_and_thinking,
}
use grokcli_2api.Stream.Assembler.Ship.{any_tool, start_tool}

-- `_effective_tool_arguments_json`
unfoldable pub effective_tool_arguments : Rules → String → String → String
effective_tool_arguments rules name args =
    let text = rules.strip (rules.normalize_tool_arguments name args) in
    if is_text text then text else if rules.requires_keys name then "" else "{}"

-- An empty tool that requires nothing is filled.
unfoldable pub filled : Rules → Tool → Tool
unfolding effective_tool_arguments
filled rules t =
    let name = rules.strip t.name in
    let args = effective_tool_arguments rules name t.args in
    if t.stopped || t.started || not (is_text name)
    then t
    else if is_text args && not (str_eq args (rules.strip t.args))
    then record t { args = args }
    else t

unfoldable pub filled_tools : Rules → List Tool → List Tool
unfolding filled
filled_tools rules [] = []
filled_tools rules (t ∷ ts) = filled rules t ∷ filled_tools rules ts

-- `has_ready_tool`, for one tool
unfoldable pub is_ready_at_end : Rules → Tool → Bool
is_ready_at_end rules t =
    is_text (rules.strip t.name)
    && is_text (rules.strip t.args)
    && rules.is_complete t.name t.args
    && not t.stopped

unfoldable pub emit_held : Rules → List (String × String) → Step
unfolding emit_text_and_thinking
emit_held rules [] a = (a, [])
emit_held rules ((content, reasoning) ∷ held) a =
    (emit_text_and_thinking rules content reasoning then emit_held rules held) a

-- The preface is dropped where a tool has won, and emitted elsewhere.
unfoldable pub settle_preface : Rules → Step
unfolding any_tool is_ready_at_end emit_held
settle_preface rules a =
    if a.saw_tool || any_tool (is_ready_at_end rules) a.tools
    then (record a { held_pre_tool = [] }, [])
    else emit_held rules a.held_pre_tool (record a { held_pre_tool = [] })

-- The slot with its name remapped and its arguments normalized.
unfoldable pub last_form : Rules → Tool → Tool
last_form rules t =
    let stripped = rules.strip t.name in
    let name = if is_text stripped then rules.canonical_outbound_tool_name stripped else stripped in
    let args = rules.strip t.args in
    record t {
      name = if is_text stripped then name else t.name;
      args =
          if is_text args && is_text name then rules.normalize_tool_arguments name args else t.args;
    }

-- `args` of the loop, after it was normalized
unfoldable pub last_args : Rules → Tool → String
last_args rules t =
    let stripped = rules.strip t.name in
    let name = if is_text stripped then rules.canonical_outbound_tool_name stripped else stripped in
    let args = rules.strip t.args in
    if is_text args && is_text name then rules.normalize_tool_arguments name args else args

unfoldable pub last_name : Rules → Tool → String
last_name rules t =
    let stripped = rules.strip t.name in
    if is_text stripped then rules.canonical_outbound_tool_name stripped else stripped

abbrev pub set_tool : Tool → Assembler → Assembler
set_tool t a = record a { tools = put_tool t a.tools }

-- The slot is opened, after the others were closed.
unfoldable pub open_last : Rules → Tool → String → Step
unfolding close_tools start_tool
open_last rules t name = close_tools rules then λ b.
    let (u, c, es) = start_tool t (if is_text name then name else "tool") b in (set_tool u c, es)

-- The loop's body, up to the closing of the tools.
unfoldable pub finish_tool : Rules → Tool → Step
unfolding last_form last_args last_name open_last close_tools
finish_tool rules t a =
    let u = last_form rules t in
    let b = set_tool u a in
    let name = last_name rules t in
    let args = last_args rules t in
    if t.stopped
    then (a, [])
    else if t.started
    then close_tools rules b
    else if not (is_text name && is_text args && rules.is_complete name args)
    then (b, [])
    else if is_budget_spent rules b
    then (b, [])
    else (open_last rules u name then close_tools rules) b

unfoldable pub finish_tools : Rules → List ℕ → Step
unfolding finish_tool get_tool
finish_tools rules [] a = (a, [])
finish_tools rules (i ∷ is) a = elim (get_tool i a.tools) [
  | none ↦ finish_tools rules is a
  | some t ↦ (finish_tool rules t then finish_tools rules is) a
]

abbrev pub keys : List Tool → List ℕ
keys [] = []
keys (t ∷ ts) = t.index ∷ keys ts

-- `map_finish_to_stop_reason`; a finish reason that is `None` is empty.
unfoldable pub map_finish_to_stop_reason : String → Bool → String
map_finish_to_stop_reason finish has_tool_calls =
    if has_tool_calls
    then "tool_use"
    else if str_eq finish "tool_calls"
    then "end_turn"
    else if not (is_text finish) || str_eq finish "stop"
    then "end_turn"
    else if one_of finish ("length" ∷ "max_tokens" ∷ [])
    then "max_tokens"
    else if str_eq finish "content_filter"
    then "refusal"
    else if str_eq finish "stop_sequence"
    then "stop_sequence"
    else "end_turn"

unfoldable pub effective_finish : Bool → String → String
effective_finish saw_tool finish =
    if saw_tool && one_of finish ("" ∷ "stop" ∷ "end_turn" ∷ []) then "tool_calls" else finish

-- The tokens of the answer: the upstream's count, or a quarter of the characters.
unfoldable pub output_tokens : ℕ → Usage → ℕ
output_tokens chars usage =
    if usage.completion_tokens == 0
    then (if chars == 0 then 0 else max 1 (chars / 4))
    else usage.completion_tokens

-- The last two events.
unfoldable pub end_message : String → Usage → ℕ → Step
unfolding effective_finish map_finish_to_stop_reason output_tokens
end_message finish usage input_tokens a =
    let stop = map_finish_to_stop_reason (effective_finish a.saw_tool finish) a.saw_tool in
    let n = if ltb 0 usage.prompt_tokens then usage.prompt_tokens else input_tokens in
    (
      a,
      message_delta stop (output_tokens a.output_chars usage) (if ltb 0 n then some n else none)
            usage.cache_read usage.cache_creation
          ∷ message_stop
          ∷ [],
    )

-- `finish`; a missing `usage` is one of zeros.
unfoldable pub finish : Rules → String → Usage → ℕ → Step
unfolding start filled_tools settle_preface close_thinking close_text finish_tools end_message
finish rules reason usage input_tokens =
    start input_tokens
    then (λ a. (record a { tools = filled_tools rules a.tools }, []))
    then settle_preface rules
    then close_thinking
    then close_text
    then (λ a. finish_tools rules (keys a.tools) a)
    then close_tools rules
    then end_message reason usage input_tokens
