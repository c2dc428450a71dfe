-- ===== src/Stream/Closing.antt =====
-- Opening and closing a tool's block as the client reads it.
use grokcli_2api.Base.{
  ◌+◌, ◌≡◌, refl, sym, ap, ◌∙◌, true, false, not, some, List, [], ◌∷◌, ◌++◌, String, is_text,
  if◌then◌else◌, arith, text_length,
}
use mathlib.Core.Path.{subst}
use grokcli_2api.Stream.Events.{StreamEvent, Tool, block_start_tool, block_stop, input_json_delta}
use grokcli_2api.Stream.Assembler.{
  Rules, Assembler, ◌then◌, stop_tool, close_tool, close_tools, close_each, flush_tool_args,
  put_tool, set_tool, open_last, start_tool, open_tools, is_open_tool, block_of, unsent_args,
}
use grokcli_2api.Stream.Client.{accept_all}
use grokcli_2api.Stream.Idle.{
  AllIdle, AllIdle-put_tool, close_tools-idle, open_tools-put_tool, put_tool_twice,
}
use grokcli_2api.Stream.Blocks.{IsQuiet, place_of}
use grokcli_2api.Stream.Feeding.{place-quiet}
use grokcli_2api.Stream.Shipping.{empty_of, from_start, append_start, accept-block}

-- A tool that is complete, and of which nothing was sent, is closed with all its arguments.
abbrev closed : Tool → Tool
closed t = record t { args_sent_text = t.args; stopped = true }

unsent_args-closing :
    (rules : Rules) (t : Tool)
    → t.started ≡ true
    → is_text t.args_sent_text ≡ false
    → is_text t.args ≡ true
    → unsent_args rules true t ≡ t.args
unfolding unsent_args
unsent_args-closing rules t h e f =
    ground (arith, from_start t.args_sent_text t.args (empty_of t.args_sent_text e))

close_tool_complete :
    (rules : Rules) (t : Tool) (a : Assembler)
    → t.started ≡ true
    → is_text t.args_sent_text ≡ false
    → is_text t.args ≡ true
    → is_text (rules.strip t.args) ≡ true
    → close_tool rules t a ≡ (
      record a {
        tools = put_tool (closed t) a.tools;
        output_chars = a.output_chars + text_length t.args;
      },
      input_json_delta (block_of t) t.args ∷ block_stop (block_of t) ∷ [],
    )
unfolding close_tool flush_tool_args stop_tool
close_tool_complete rules t a h e f g = ground (
  arith,
  unsent_args-closing rules t h e f,
  append_start t.args_sent_text t.args (empty_of t.args_sent_text e),
)

-- A step from a place to another, between blocks behind it.
abbrev pub Led : Rules → Assembler → Assembler × List StreamEvent → Type 0
Led rules a (b, es) = (accept_all rules.is_complete (place_of a) es ≡ place_of b) × IsQuiet b

abbrev pub opened : Tool → String → Assembler → Assembler × List StreamEvent
opened t name a =
    let (u, c, es) = start_tool t (if is_text name then name else "tool") a in (set_tool u c, es)

pub open_last-idle :
    (rules : Rules) (t : Tool) (name : String) (a : Assembler)
    → AllIdle a.tools
    → open_last rules t name a ≡ opened t name a
unfolding open_last
open_last-idle rules t name a h = rw (close_tools-idle rules a h) refl

close_tools-one :
    (rules : Rules) (u : Tool) (a : Assembler)
    → open_tools a.tools ≡ u ∷ []
    → close_tools rules a ≡ ((close_tool rules u a).0, (close_tool rules u a).1 ++ [])
unfolding close_tools close_each
close_tools-one rules u a h = rw h refl

-- A complete tool that is opened between blocks and closed at once: the client has read a whole block.
pub Led-opened :
    (rules : Rules) (t : Tool) (name : String) (a : Assembler)
    → IsQuiet a
    → t.stopped ≡ false
    → is_text t.args_sent_text ≡ false
    → is_text name ≡ true
    → is_text t.args ≡ true
    → is_text (rules.strip t.args) ≡ true
    → rules.is_complete name t.args ≡ true
    → Led rules a ((open_last rules t name then close_tools rules) a)
unfolding start_tool is_open_tool
Led-opened rules t name a q s e n f g c =
    let u = record t { block_index = some a.next_index; started = true } in
    let b = (opened t name a).0 in
    let one = open_tools-put_tool u a.tools (ap not s) q.tools_idle in
    rw
      (
        open_last-idle rules t name a q.tools_idle,
        close_tools-one rules u b one,
        close_tool_complete rules u b refl e f g,
        n,
      )
      (
        ap
              (λ p. accept_all rules.is_complete p (
                block_start_tool a.next_index t.id name
                ∷ input_json_delta a.next_index t.args
                ∷ block_stop a.next_index
                ∷ []))
              (place-quiet a.thinking_index a.text_index a.next_index q.no_thinking q.no_text)
            ∙ (accept-block rules.is_complete a.next_index t.id name t.args c
                ∙ sym (
                    place-quiet a.thinking_index a.text_index (a.next_index + 1) q.no_thinking
                      q.no_text)),
        record {
          no_thinking = q.no_thinking;
          no_text = q.no_text;
          tools_idle =
              subst AllIdle (sym (put_tool_twice u (closed u) a.tools refl))
                (AllIdle-put_tool (closed u) a.tools refl q.tools_idle);
          message_open = q.message_open;
        },
      )
