-- ===== src/Live/Streamer/Calls.antt =====
-- The tool calls: merging their fragments, and emitting the one that is next and complete.
use grokcli_2api.Base.{
  ℕ, ◌+◌, String, Bool, true, false, not, ◌&&◌, ◌||◌, Option, none, some, List, [], ◌∷◌, ◌++◌,
  is_text, is_empty, starts_with, contains_text, text_length, get_or, leb, ◌==◌, if◌then◌else◌,
}
use grokcli_2api.Live.Frames.{
  Frame, call_added, args_delta, args_done, call_done, Sent, Slot, CallDelta, new_slot,
}
use grokcli_2api.Live.Streamer.State.{Tooling, Streamer, Step, ◌then◌, emit_all, begin_response}

unfoldable pub get_slot : ℕ → List Slot → Option Slot
get_slot i [] = none
get_slot i (t ∷ ts) = if t.index == i then some t else get_slot i ts

unfoldable pub put_slot : Slot → List Slot → List Slot
put_slot t [] = t ∷ []
put_slot t (u ∷ us) =
    let rest = put_slot t us in
    if u.index == t.index then t ∷ us else if leb t.index u.index then t ∷ u ∷ us else u ∷ rest

-- `_merge_tool_name`; a suffix of the current name is in it.
unfoldable pub merge_tool_name : Tooling → String → String → String
merge_tool_name k current incoming =
    let cur = k.strip current in
    let inc = k.strip incoming in
    k.canonical_outbound_tool_name (
      if not (is_text inc)
      then cur
      else if not (is_text cur)
      then inc
      else if starts_with inc cur
      then inc
      else if contains_text cur inc
      then cur
      else if leb (text_length cur) (text_length inc)
      then inc
      else cur)

-- One round of the loop over `tool_calls` in `on_tool_delta`.
unfoldable pub merged_slot : Tooling → CallDelta → Slot → Slot
unfolding merge_tool_name
merged_slot k d t =
    let name =
      if is_text d.function_name then merge_tool_name k t.name d.function_name else t.name in
    record t {
      call_id = if is_text d.id then d.id else t.call_id;
      name = name;
      arguments = elim d.function_arguments [
        | some raw ↦ k.merge_tool_argument_delta name t.arguments raw
        | none ↦ elim d.arguments [
          | some raw ↦ k.merge_tool_argument_delta name t.arguments raw
          | none ↦ t.arguments
        ]
      ];
    }

unfoldable pub merge_deltas : Tooling → List CallDelta → List Slot → List Slot
unfolding get_slot put_slot merged_slot
merge_deltas k [] ts = ts
merge_deltas k (d ∷ ds) ts =
    let first = new_slot d.index d.drawn_id d.drawn_call_id in
    merge_deltas k ds (put_slot (merged_slot k d (get_or (get_slot d.index ts) first)) ts)

-- `_args_ready`
unfoldable pub is_args_ready : Tooling → String → String → Bool
is_args_ready k name args = k.is_complete name (k.normalize_tool_arguments name args)

-- `_terminal_args`
unfoldable pub terminal_args : Tooling → String → String → Option String
terminal_args k name args =
    let text = k.strip (k.normalize_tool_arguments name args) in
    if not (is_text text)
    then some "{}"
    else if not (k.is_parsed text)
    then none
    else if not (k.is_complete name text) && k.requires_keys name
    then none
    else some text

-- A slot that is known and not through holds the later ones back.
unfoldable pub is_pending : Tooling → Slot → Bool
is_pending k t =
    not t.is_done && (is_text t.name || is_text t.call_id || is_text (k.strip t.arguments))

unfoldable pub any_slot : (Slot → Bool) → List Slot → Bool
any_slot test [] = false
any_slot test (t ∷ ts) = test t || any_slot test ts

-- The slot gets its item, where it has none.
unfoldable pub opened_slot : Slot → Streamer → Slot
opened_slot t s = if t.opened then t else record t {
  call_id = if is_text t.call_id then t.call_id else t.drawn_call_id;
  output_index = some s.output_index;
  opened = true;
}

-- The frames of a call: what is left of its item, its arguments, and the end of both.
unfoldable pub call_frames : Slot → Slot → List Frame
call_frames t u =
    let i = get_or u.output_index 0 in
    (if t.opened then [] else call_added i u.id u.call_id u.name ∷ [])
    ++ ((if t.args_emitted then [] else args_delta i u.id u.arguments ∷ [])
        ++ (args_done i u.id u.arguments ∷ call_done i u.id u.call_id u.name u.arguments ∷ []))

-- A call goes out in one burst.
unfoldable pub ship_call : Slot → Streamer → Slot × Streamer × List Sent
unfolding opened_slot call_frames emit_all
ship_call t s =
    let u = opened_slot t s in
    let (v, fs) =
      emit_all (call_frames t u)
        (record s { output_index = if t.opened then s.output_index else s.output_index + 1 }) in
    (record u { args_emitted = true; is_done = true }, v, fs)

-- The slot with its name remapped and its arguments normalized.
unfoldable pub remapped : Tooling → Slot → Slot
remapped k t =
    let name = k.canonical_outbound_tool_name (k.strip t.name) in
    record t { name = name; arguments = k.normalize_tool_arguments name t.arguments }

-- The loop of `_emit_ready_tools`; `lower` are the slots of lower indices.
unfoldable pub emit_ready :
    Tooling → List Slot → List Slot → Streamer → List Slot × Streamer × List Sent
unfolding is_pending any_slot remapped is_args_ready ship_call
emit_ready k lower [] s = ([], s, [])
emit_ready k lower (t ∷ ts) s =
    let (us, v, fs) = emit_ready k (lower ++ (t ∷ [])) ts s in
    let u = remapped k t in
    let (w, x, gs) = ship_call u s in
    if t.is_done
    then (t ∷ us, v, fs)
    else if any_slot (is_pending k) lower
    then (t ∷ ts, s, [])
    else if not (is_text (k.strip t.name))
    then (if is_text t.call_id || is_text (k.strip t.arguments)
        then (t ∷ ts, s, [])
        else (t ∷ us, v, fs))
    else if not (is_args_ready k u.name u.arguments)
    then (u ∷ ts, s, [])
    else (w ∷ ts, x, gs)

-- `_emit_ready_tools`
unfoldable pub emit_ready_tools : Tooling → Step
unfolding emit_ready
emit_ready_tools k s = let (ts, t, fs) = emit_ready k [] s.slots s in (record t { slots = ts }, fs)

-- `_tool_is_ready`
unfoldable pub is_tool_ready : Tooling → Bool → Slot → Bool
unfolding terminal_args is_args_ready
is_tool_ready k terminal t =
    let name = k.strip t.name in
    if t.is_done
    then false
    else if not (is_text name)
    then false
    else if terminal
    then elim (terminal_args k name t.arguments) [ none ↦ false | some a ↦ true ]
    else is_args_ready k name t.arguments

-- `_any_shipable_tool`: a lower slot that is known must be ready too.
unfoldable pub any_shipable : Tooling → Bool → List Slot → List Slot → Bool
unfolding is_pending any_slot is_tool_ready
any_shipable k terminal lower [] = false
any_shipable k terminal lower (t ∷ ts) =
    let rest = any_shipable k terminal (lower ++ (t ∷ [])) ts in
    if any_slot (λ u. is_pending k u && not (is_tool_ready k terminal u)) lower
    then false
    else if is_tool_ready k terminal t
    then true
    else rest

-- `on_tool_delta`
unfoldable pub on_tool_delta : Tooling → List CallDelta → Step
unfolding merge_deltas any_shipable begin_response emit_ready_tools
on_tool_delta k ds s =
    let t = record s { slots = merge_deltas k ds s.slots } in
    if is_empty ds || s.closed
    then (s, [])
    else if not (any_shipable k false [] t.slots)
    then (t, [])
    else (begin_response then emit_ready_tools k) t
