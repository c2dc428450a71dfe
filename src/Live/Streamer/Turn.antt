-- ===== src/Live/Streamer/Turn.antt =====
-- The end of a turn: `_close_open_tools`, `has_client_payload` and `complete`.
use grokcli_2api.Base.{
  ℕ, suc, zero, String, Bool, true, false, not, ◌&&◌, ◌||◌, none, some, List, [], ◌∷◌, ◌++◌,
  is_text, is_empty, length, if◌then◌else◌,
}
use grokcli_2api.Live.Frames.{completed, Item, message_item, call_item, Sent, done_mark, Slot}
use grokcli_2api.Live.Streamer.State.{
  Tooling, Streamer, Step, ◌then◌, emit, begin_response, joined, close_open_text,
}
use grokcli_2api.Live.Streamer.Calls.{
  terminal_args, any_slot, any_shipable, ship_call, emit_ready_tools,
}

-- `while True: more = self._emit_ready_tools()`, with a round for each slot and one more.
unfoldable pub ready_rounds : Tooling → ℕ → Step
unfolding emit_ready_tools
ready_rounds k zero s = (s, [])
ready_rounds k (suc n) s =
    let (t, fs) = emit_ready_tools k s in
    let (u, gs) = ready_rounds k n t in if is_empty fs then (t, []) else (u, fs ++ gs)

unfoldable pub emit_all_ready : Tooling → Step
unfolding ready_rounds
emit_all_ready k s = ready_rounds k (suc (length s.slots)) s

-- One round of the loop of `_close_open_tools` behind these rounds.
unfoldable pub flush_slot : Tooling → Slot → Streamer → Slot × Streamer × List Sent
unfolding terminal_args ship_call
flush_slot k t s =
    let stripped = k.strip t.name in
    let name = k.canonical_outbound_tool_name stripped in
    let args =
      if is_text (k.strip t.arguments)
      then k.normalize_tool_arguments name t.arguments
      else t.arguments in
    let u = record t { name = name; arguments = args } in
    if t.is_done
    then (t, s, [])
    else if not (is_text stripped)
    then (t, s, [])
    else elim (terminal_args k name args) [
      | none ↦ (u, s, [])
      | some final ↦ ship_call (record u { arguments = final }) s
    ]

unfoldable pub flush_slots : Tooling → List Slot → Streamer → List Slot × Streamer × List Sent
unfolding flush_slot
flush_slots k [] s = ([], s, [])
flush_slots k (t ∷ ts) s =
    let (w, x, gs) = flush_slot k t s in
    let (ws, y, hs) = flush_slots k ts x in (w ∷ ws, y, gs ++ hs)

unfoldable pub flush_tools : Tooling → Step
unfolding flush_slots
flush_tools k s = let (ts, t, fs) = flush_slots k s.slots s in (record t { slots = ts }, fs)

-- `_close_open_tools`
unfoldable pub close_open_tools : Tooling → Step
unfolding emit_all_ready flush_tools
close_open_tools k = emit_all_ready k then flush_tools k

unfoldable pub any_text : List String → Bool
any_text [] = false
any_text (p ∷ ps) = is_text p || any_text ps

-- `has_client_payload`
unfoldable pub has_client_payload : Tooling → Streamer → Bool
unfolding any_text any_slot
has_client_payload k s =
    any_text s.text_parts
    || any_slot (λ t. t.is_done) s.slots
    || any_slot (λ t. t.args_emitted && is_text (k.strip t.name)) s.slots

-- The output of `_build_completed_response`
unfoldable pub call_items : Tooling → List Slot → List Item
call_items k [] = []
call_items k (t ∷ ts) =
    let rest = call_items k ts in
    if t.is_done
    then call_item t.id (if is_text t.call_id then t.call_id else t.drawn_call_id) (k.strip t.name)
        (if is_text t.arguments then t.arguments else "{}")
      ∷ rest
    else rest

unfoldable pub completed_output : Tooling → Streamer → List Item
unfolding joined call_items
completed_output k s =
    let text = joined s.text_parts in
    let calls = call_items k s.slots in
    if is_text text then message_item s.msg_id text ∷ calls else calls

-- What `complete` does after the pre-check, up to its last tests.
unfoldable pub settle_turn : Tooling → Step
unfolding begin_response emit_all_ready close_open_tools close_open_text
settle_turn k = begin_response then emit_all_ready k then close_open_tools k then close_open_text

-- The last tests of `complete`: with nothing to show, the frames are dropped.
unfoldable pub end_turn : Tooling → Streamer × List Sent → Streamer × List Sent
unfolding has_client_payload completed_output emit
end_turn k (s, fs) =
    let output = completed_output k s in
    let (t, gs) = emit (completed output) s in
    if not (has_client_payload k s)
    then (s, [])
    else if is_empty output
    then (s, [])
    else (record t { closed = true }, fs ++ (gs ++ (done_mark ∷ [])))

-- `complete`, with `force_flush_partial_tools` on, as every caller has it
unfoldable pub complete : Tooling → Step
unfolding has_client_payload any_shipable settle_turn end_turn
complete k s =
    if s.closed
    then (s, [])
    else if not (has_client_payload k s)
        && not (any_shipable k false [] s.slots)
        && not (any_shipable k true [] s.slots)
    then (s, [])
    else end_turn k (settle_turn k s)
