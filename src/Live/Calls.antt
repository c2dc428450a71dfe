-- ===== src/Live/Calls.antt =====
-- The tool calls of a piece of the stream as the client reads them.
use grokcli_2api.Base.{
  ◌∙◌, inl, inr, Bool, true, false, not, ◌||◌, List, [], ◌∷◌, ◌++◌, is_text, arith, if◌then◌else◌,
  is_empty,
}
use grokcli_2api.Live.Frames.{Sent, Slot, CallDelta}
use grokcli_2api.Live.Streamer.{
  Tooling, Streamer, ◌then◌, begin_response, merge_deltas, ship_call, remapped, emit_ready,
  emit_ready_tools, on_tool_delta, is_pending, any_slot, any_shipable, is_args_ready,
}
use grokcli_2api.Live.Client.{Phase, accept_all}
use grokcli_2api.Live.Texts.{
  AllWhole, IsSound, Leads, accept-then, Stands, Runs, Runs-of, Stands-if, accept-begin, IsFresh,
}
use grokcli_2api.Live.Bursts.{
  AllWhole-merge_deltas, Emits, Emits-nothing, Emits-cons, Emits-if, unsent_of, Emits-ship,
}

Emits-emit_ready :
    (k : Tooling) (lower ts : List Slot) (s : Streamer)
    → AllWhole ts
    → Emits s (emit_ready k lower ts s)
unfolding emit_ready remapped
Emits-emit_ready k lower [] s h = Emits-nothing s [] tt
Emits-emit_ready k lower (t ∷ ts) s (w, hs) =
    let more = emit_ready k (lower ++ (t ∷ [])) ts s in
    let later = Emits-cons s t more w (Emits-emit_ready k (lower ++ (t ∷ [])) ts s hs) in
    let still = Emits-nothing s (t ∷ ts) (w, hs) in
    let u = remapped k t in
    let shipped : List Slot × Streamer × List Sent =
      ((ship_call u s).0 ∷ ts, (ship_call u s).1, (ship_call u s).2) in
    let passed : List Slot × Streamer × List Sent = (t ∷ more.0, more.1, more.2) in
    let kept : List Slot × Streamer × List Sent = (t ∷ ts, s, []) in
    let waiting : List Slot × Streamer × List Sent = (u ∷ ts, s, []) in
    let ready = if not (is_args_ready k u.name u.arguments) then waiting else shipped in
    let known = is_text t.call_id || is_text (k.strip t.arguments) in
    let nameless = if known then kept else passed in
    let named = if not (is_text (k.strip t.name)) then nameless else ready in
    let free = if any_slot (is_pending k) lower then kept else named in
    Emits-if t.is_done s passed free (λ x. later)
      (λ e.
        let unsent = unsent_of t w e in
        Emits-if (any_slot (is_pending k) lower) s kept named (λ x. still)
          (λ x.
            Emits-if (not (is_text (k.strip t.name))) s nameless ready
              (λ y. Emits-if known s kept passed (λ z. still) (λ z. later))
              (λ y.
                Emits-if (not (is_args_ready k u.name u.arguments)) s waiting shipped
                  (λ z. Emits-nothing s (u ∷ ts) (w, hs))
                  (λ z. Emits-ship u ts s unsent.0 unsent.1 hs))))

-- What a loop over the slots leaves, once they are put back.
pub Leads-slots :
    (f : Streamer → List Slot × Streamer × List Sent)
    → ((s : Streamer) → IsSound s → Emits s (f s))
    → Leads IsSound IsSound (λ s. let (ts, t, es) = f s in (record t { slots = ts }, es))
Leads-slots f emits s h =
    let out = emits s h in
    let same = out.1 in
    (
      out.0,
      record {
        begun = same.started_stays ∙ h.begun;
        running = same.closed_stays ∙ h.running;
        whole = out.2;
        has_id = rw (same.open_stays, same.id_stays) h.has_id;
      },
    )

pub Leads-emit_ready_tools : (k : Tooling) → Leads IsSound IsSound (emit_ready_tools k)
unfolding emit_ready_tools
Leads-emit_ready_tools k =
    Leads-slots (λ s. emit_ready k [] s.slots s) (λ s h. Emits-emit_ready k [] s.slots s h.whole)

IsFresh-slots :
    (s : Streamer) (ts : List Slot) → AllWhole ts → IsFresh s → IsFresh (record s { slots = ts })
IsFresh-slots s ts w f = record {
  not_begun = f.not_begun;
  not_closed = f.not_closed;
  at_zero = f.at_zero;
  no_item = f.no_item;
  no_text = f.no_text;
  nothing_sent = w;
}

IsSound-slots :
    (s : Streamer) (ts : List Slot) → AllWhole ts → IsSound s → IsSound (record s { slots = ts })
IsSound-slots s ts w h = record {
  begun = h.begun;
  running = h.running;
  whole = w;
  has_id = h.has_id;
}

Runs-slots :
    (p : Phase) (s : Streamer) (ts : List Slot)
    → AllWhole ts
    → Runs p s
    → Runs p (record s { slots = ts })
Runs-slots p s ts w (inl (e, f)) = inl (e, IsFresh-slots s ts w f)
Runs-slots p s ts w (inr (e, h)) = inr (e, IsSound-slots s ts w h)

pub whole_of : (p : Phase) (s : Streamer) → Runs p s → AllWhole s.slots
whole_of p s (inl (e, f)) = f.nothing_sent
whole_of p s (inr (e, h)) = h.whole

pub Stands-of : (p : Phase) (s : Streamer) → Runs p s → Stands p s
Stands-of p s (inl h) = inl h
Stands-of p s (inr h) = inr (inl h)

Stands-either :
    (b : Bool) (p : Phase) (x y : Streamer × List Sent)
    → Stands (accept_all p x.1) x.0
    → Stands (accept_all p y.1) y.0
    → Stands (accept_all p (if b then x else y).1) (if b then x else y).0
Stands-either true p x y h k = h
Stands-either false p x y h k = k

-- A piece of a tool call leaves the client where the streamer stands.
pub Stands-on_tool_delta :
    (k : Tooling) (ds : List CallDelta) (p : Phase) (s : Streamer)
    → Stands p s
    → Stands (accept_all p (on_tool_delta k ds s).1) (on_tool_delta k ds s).0
unfolding on_tool_delta accept_all
Stands-on_tool_delta k ds p s h =
    let t = record s { slots = merge_deltas k ds s.slots } in
    let shipping = (begin_response then emit_ready_tools k) t in
    let silent = not (any_shipable k false [] t.slots) in
    Stands-if (is_empty ds || s.closed) p s (if silent then (t, []) else shipping) h (λ e.
      let runs = Runs-of p s h (ground arith) in
      let merged =
        Runs-slots p s t.slots (AllWhole-merge_deltas k ds s.slots (whole_of p s runs)) runs in
      Stands-either silent p (t, []) shipping (Stands-of p t merged)
        (inr (
          inl (
            accept-then IsSound IsSound p t begin_response (emit_ready_tools k)
              (accept-begin p t merged) (Leads-emit_ready_tools k)))))
