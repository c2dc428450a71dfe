-- ===== src/Live/Streamer/State.antt =====
-- The streamer's state, the numbering of its frames, and the text item.
use grokcli_2api.Base.{
  ℕ, ◌+◌, String, Bool, true, false, not, ◌||◌, List, [], ◌∷◌, ◌++◌, is_text, ◌<>◌, if◌then◌else◌,
}
use grokcli_2api.Live.Frames.{
  Frame, created, in_progress, message_added, part_added, text_delta, text_done, part_done,
  message_done, failed, Sent, numbered, done_mark, Slot,
}

-- The functions on names and arguments that the streamer calls. `is_parsed` holds of the text of a JSON
-- object or array.
pub record Tooling : Type 0 where
  pub strip : String → String
  pub canonical_outbound_tool_name : String → String
  pub normalize_tool_arguments : String → String → String
  pub is_complete : String → String → Bool
  pub merge_tool_argument_delta : String → String → String → String
  pub requires_keys : String → Bool
  pub is_parsed : String → Bool

pub record Streamer : Type 0 where
  pub seq : ℕ
  pub started : Bool
  pub text_open : Bool
  pub msg_id : String
  pub text_parts : List String
  pub slots : List Slot
  pub output_index : ℕ
  pub text_output_index : ℕ
  pub closed : Bool

abbrev pub new_streamer : Streamer
new_streamer = record {
  seq = 0;
  started = false;
  text_open = false;
  msg_id = "";
  text_parts = [];
  slots = [];
  output_index = 0;
  text_output_index = 0;
  closed = false;
}

abbrev pub Step : Type 0
Step = Streamer → Streamer × List Sent

infixl 5 ◌then◌
abbrev pub ◌then◌ : Step → Step → Step
◌then◌ f g s = let (t, fs) = f s in let (u, gs) = g t in (u, fs ++ gs)

-- `_emit`
unfoldable pub emit : Frame → Step
emit f s = (record s { seq = s.seq + 1 }, numbered s.seq f ∷ [])

unfoldable pub emit_all : List Frame → Step
unfolding emit
emit_all [] s = (s, [])
emit_all (f ∷ fs) s = (emit f then emit_all fs) s

-- `start`
unfoldable pub begin_response : Step
unfolding emit_all
begin_response s =
    if s.started
    then (s, [])
    else emit_all (created ∷ in_progress ∷ []) (record s { started = true })

-- `fail`
unfoldable pub fail : String → String → Step
unfolding begin_response emit
fail message err_type s =
    if s.closed
    then (s, [])
    else ((begin_response then emit (failed message err_type) then λ t.
          (record t { closed = true }, done_mark ∷ []))
        s)

-- `_ensure_text_open`, with the digits of the id that it draws
unfoldable pub ensure_text_open : String → Step
unfolding emit_all
ensure_text_open drawn s =
    if s.text_open
    then (s, [])
    else emit_all
        (message_added s.output_index ("msg_" <> drawn)
          ∷ part_added s.output_index ("msg_" <> drawn)
          ∷ [])
        (record s {
          text_open = true;
          msg_id = "msg_" <> drawn;
          text_output_index = s.output_index;
          output_index = s.output_index + 1;
        })

unfoldable pub send_text : String → Step
unfolding emit
send_text delta s =
    emit (text_delta s.text_output_index s.msg_id delta)
      (record s { text_parts = s.text_parts ++ (delta ∷ []) })

-- `on_text_delta`
unfoldable pub on_text_delta : String → String → Step
unfolding begin_response ensure_text_open send_text
on_text_delta drawn delta s =
    if not (is_text delta) || s.closed
    then (s, [])
    else (begin_response then ensure_text_open drawn then send_text delta) s

-- `"".join(self._text_parts)`
unfoldable pub joined : List String → String
joined [] = ""
joined (p ∷ ps) = p <> joined ps

-- `_close_open_text`
unfoldable pub close_open_text : Step
unfolding emit_all joined
close_open_text s =
    let text = joined s.text_parts in
    if not s.text_open || not (is_text s.msg_id)
    then (s, [])
    else emit_all
        (text_done s.text_output_index s.msg_id text
          ∷ part_done s.text_output_index s.msg_id text
          ∷ message_done s.text_output_index s.msg_id text
          ∷ [])
        (record s { text_open = false })
