-- ===== src/Stream/Assembler/Ship.antt =====
-- `feed`: merging the pieces, then starting, flushing and stopping tools in the order of their index.
use grokcli_2api.Base.{
  ◌+◌, String, Bool, true, false, not, ◌&&◌, ◌||◌, some, List, [], ◌∷◌, ◌++◌, is_text, is_empty,
  str_eq, text_length, if◌then◌else◌,
}
use grokcli_2api.Stream.Events.{StreamEvent, block_start_tool, block_stop, Tool, Piece}
use grokcli_2api.Stream.Assembler.Wire.{
  Rules, Assembler, Step, ◌then◌, is_budget_spent, start, close_text, close_thinking, is_open_tool,
  block_of, flush_tool_args, emit_text_and_thinking,
}
use grokcli_2api.Stream.Assembler.Pieces.{take_pieces}

-- `ready`
unfoldable pub is_ready_tool : Rules → Tool → Bool
is_ready_tool rules t = is_text t.name && is_text t.args && rules.is_complete t.name t.args

-- A tool of a lower index that is not through, as far as it is known.
unfoldable pub holds_back : Rules → Tool → Bool
holds_back rules t =
    not t.stopped && (t.started || is_text t.name || is_text t.id || is_text (rules.strip t.args))

unfoldable pub any_tool : (Tool → Bool) → List Tool → Bool
any_tool test [] = false
any_tool test (t ∷ ts) = test t || any_tool test ts

-- What one round of the loop leaves: `goes_on` is false after a `break`.
pub record Round : Type 0 where
  pub tool : Tool
  pub assembler : Assembler
  pub events : List StreamEvent
  pub goes_on : Bool

abbrev pub unchanged : Tool → Assembler → Bool → Round
unchanged t a goes_on = record { tool = t; assembler = a; events = []; goes_on = goes_on }

-- The tool's block is opened.
unfoldable pub start_tool : Tool → String → Assembler → Tool × Assembler × List StreamEvent
start_tool t name a = (
  record t { block_index = some a.next_index; started = true },
  record a {
    next_index = a.next_index + 1;
    tools_started_count = a.tools_started_count + 1;
    saw_tool = true;
    held_pre_tool = [];
  },
  block_start_tool a.next_index t.id name ∷ [],
)

-- The arguments of a started tool are flushed, and the tool is stopped once they are all sent.
unfoldable pub send_tool : Rules → Tool → Assembler → List StreamEvent → Round
unfolding flush_tool_args
send_tool rules t a es =
    let (u, b, fs) = flush_tool_args rules false t a in
    if is_text u.args_sent_text
      && is_text u.args
      && str_eq u.args_sent_text u.args
      && rules.is_complete u.name u.args
    then (record {
      tool = record u { stopped = true };
      assembler = b;
      events = es ++ (fs ++ (block_stop (block_of u) ∷ []));
      goes_on = true;
    })
    else (record { tool = u; assembler = b; events = es ++ fs; goes_on = true })

unfoldable pub start_and_send : Rules → Tool → Assembler → Round
unfolding start_tool send_tool
start_and_send rules t a = let (u, b, es) = start_tool t t.name a in send_tool rules u b es

-- Why a tool that is complete is not started in this round.
unfoldable pub must_wait : Rules → List Tool → List Tool → Assembler → Bool
unfolding holds_back any_tool is_open_tool
must_wait rules lower higher a =
    any_tool (holds_back rules) lower
    || (any_tool is_open_tool lower || any_tool is_open_tool higher)
    || is_budget_spent rules a

-- One round: `lower` are the tools of lower indices, `higher` those of higher ones.
unfoldable pub ship_tool : Rules → List Tool → Tool → List Tool → Assembler → Round
unfolding is_ready_tool must_wait start_and_send send_tool
ship_tool rules lower t higher a =
    if t.stopped
    then unchanged t a true
    else if t.started
    then send_tool rules t a []
    else if not (is_ready_tool rules t)
    then unchanged t a (not (is_text t.name || is_text t.id))
    else if must_wait rules lower higher a
    then unchanged t a false
    else start_and_send rules t a

-- The loop; the tools behind it come out in their order.
unfoldable pub ship_tools :
    Rules → List Tool → List Tool → Assembler → List Tool × Assembler × List StreamEvent
unfolding ship_tool
ship_tools rules lower [] a = ([], a, [])
ship_tools rules lower (t ∷ ts) a =
    let r = ship_tool rules lower t ts a in
    let (us, b, es) = ship_tools rules (lower ++ (r.tool ∷ [])) ts r.assembler in
    if r.goes_on then (r.tool ∷ us, b, r.events ++ es) else (r.tool ∷ ts, r.assembler, r.events)

unfoldable pub feed_tools : Rules → List Piece → Step
unfolding ship_tools
feed_tools rules pieces a =
    let (ts, b, es) = ship_tools rules [] (take_pieces rules pieces a.tools) a in
    (record b { tools = ts }, es)

-- The first half of `feed`: what becomes of a text and a thought.
unfoldable pub feed_text : Rules → String → String → Step
unfolding emit_text_and_thinking
feed_text rules content reasoning a =
    if rules.tools_requested
    then (if not a.saw_tool && (is_text content || is_text reasoning)
        then ((
          record a {
            held_pre_tool = a.held_pre_tool ++ ((content, reasoning) ∷ []);
            output_chars = a.output_chars + text_length content + text_length reasoning;
          },
          [],
        ))
        else (a, []))
    else emit_text_and_thinking rules content reasoning a

unfoldable pub feed_pieces : Rules → List Piece → Step
unfolding feed_tools close_thinking close_text
feed_pieces rules pieces a =
    if is_empty pieces
    then (a, [])
    else ((close_thinking then close_text then feed_tools rules pieces)
        (record a { tools_pending = true }))

-- `feed`
unfoldable pub feed : Rules → String → String → List Piece → Step
unfolding start feed_text feed_pieces
feed rules content reasoning pieces =
    start 0 then feed_text rules content reasoning then feed_pieces rules pieces
