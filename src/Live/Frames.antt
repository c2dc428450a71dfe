-- ===== src/Live/Frames.antt =====
-- The frames of `ResponsesLiveStreamer` (grok2api/protocol/openai_responses.py), as values, with the
-- fields that tell one item from another, and the slots of its tool calls.
use grokcli_2api.Base.{ℕ, String, Bool, false, Option, none, List}

-- An item of the completed response's output.
pub data Item : Type 0 where
  message_item : String → String → Item
  call_item : String → String → String → String → Item

-- A frame names the index and the id of its output item.
pub data Frame : Type 0 where
  created in_progress : Frame
  message_added part_added : ℕ → String → Frame
  text_delta text_done part_done message_done : ℕ → String → String → Frame
  call_added : ℕ → String → String → String → Frame
  args_delta args_done : ℕ → String → String → Frame
  call_done : ℕ → String → String → String → String → Frame
  completed : List Item → Frame
  failed : String → String → Frame

-- What goes out: a frame with its `sequence_number`, or the end mark of the stream.
pub data Sent : Type 0 where
  numbered : ℕ → Frame → Sent
  done_mark : Sent

-- An entry of `_tools` with its key; `opened` and `is_done` stand for `_tool_opened` and `_tool_done`.
-- `drawn_call_id` is the id that is drawn where the upstream gives none.
pub record Slot : Type 0 where
  pub index : ℕ
  pub id : String
  pub call_id : String
  pub drawn_call_id : String
  pub name : String
  pub arguments : String
  pub output_index : Option ℕ
  pub args_emitted : Bool
  pub opened : Bool
  pub is_done : Bool

abbrev pub new_slot : ℕ → String → String → Slot
new_slot index id drawn = record {
  index = index;
  id = id;
  call_id = "";
  drawn_call_id = drawn;
  name = "";
  arguments = "";
  output_index = none;
  args_emitted = false;
  opened = false;
  is_done = false;
}

-- A piece of a tool call, and the ids that are drawn if it is the first of its slot.
pub record CallDelta : Type 0 where
  pub index : ℕ
  pub id : String
  pub drawn_id : String
  pub drawn_call_id : String
  pub function_name : String
  pub function_arguments : Option String
  pub arguments : Option String
