-- ===== src/Live/Turns.antt =====
-- The end of a turn as the client reads it.
use grokcli_2api.Base.{
  ◌+◌, ◌≡◌, refl, ap, ◌∙◌, ◌⊎◌, inl, inr, String, Bool, true, false, not, ◌&&◌, List, [], ◌∷◌, ◌++◌,
  arith, if◌then◌else◌, is_empty,
}
use grokcli_2api.Live.Frames.{completed, Item, Sent, CallDelta, numbered, done_mark}
use grokcli_2api.Live.Streamer.{
  Tooling, Streamer, Step, ◌then◌, emit, begin_response, emit_all_ready, flush_tools,
  close_open_tools, close_open_text, settle_turn, end_turn, complete, has_client_payload,
  completed_output, any_shipable, new_streamer, on_text_delta, on_tool_delta, fail,
}
use grokcli_2api.Live.Client.{Phase, before, ended, accept_all, accept_all-append}
use grokcli_2api.Live.Texts.{
  place_of, IsSound, IsQuiet, accept-then, accept-begin, Stands, Runs, Runs-of,
  Leads-close_open_text, Stands-on_text_delta, accept-fail,
}
use grokcli_2api.Live.Calls.{Stands-on_tool_delta}
use grokcli_2api.Live.Flushing.{Leads-emit_all_ready, Leads-flush_tools}

-- What `complete` does before its last tests.
accept-settle_turn :
    (k : Tooling) (p : Phase) (s : Streamer)
    → Runs p s
    → (accept_all p (settle_turn k s).1 ≡ place_of (settle_turn k s).0)
      × IsQuiet (settle_turn k s).0
unfolding settle_turn close_open_tools
accept-settle_turn k p s h =
    let opening = begin_response then emit_all_ready k in
    let closing = emit_all_ready k then flush_tools k in
    accept-then IsSound IsQuiet p s (opening then closing) close_open_text
      (accept-then IsSound IsSound p s opening closing
        (accept-then IsSound IsSound p s begin_response (emit_all_ready k) (accept-begin p s h)
          (Leads-emit_all_ready k))
        (λ t q.
          accept-then IsSound IsSound (place_of t) t (emit_all_ready k) (flush_tools k)
            (Leads-emit_all_ready k t q) (Leads-flush_tools k)))
      Leads-close_open_text

accept-completed :
    (output : List Item) (t : Streamer)
    → is_empty output ≡ false
    → t.text_open ≡ false
    → accept_all (place_of t) (numbered t.seq (completed output) ∷ done_mark ∷ []) ≡ ended
unfolding accept_all
accept-completed [] t e q = cc
accept-completed (x ∷ xs) t e q = ground arith

-- A turn that is ended gives nothing, or ends the answer.
abbrev Ends : Phase → List Sent → Type 0
Ends p es = (es ≡ []) ⊎ (accept_all p es ≡ ended)

Ends-if :
    (b : Bool) (p : Phase) (s : Streamer) (r : Streamer × List Sent)
    → (b ≡ false → Ends p r.1)
    → Ends p (if b then (s, []) else r).1
Ends-if true p s r h = inl refl
Ends-if false p s r h = h refl

Ends-end_turn :
    (k : Tooling) (p : Phase) (r : Streamer × List Sent)
    → (accept_all p r.1 ≡ place_of r.0) × IsQuiet r.0
    → Ends p (end_turn k r).1
unfolding end_turn emit
Ends-end_turn k p (s, es) (e, (h, q)) =
    let output = completed_output k s in
    let last = numbered s.seq (completed output) ∷ done_mark ∷ [] in
    let t = record s { seq = s.seq + 1; closed = true } in
    let whole : Streamer × List Sent = (t, es ++ last) in
    let some_output = if is_empty output then (s, []) else whole in
    Ends-if (not (has_client_payload k s)) p s some_output (λ x.
      Ends-if (is_empty output) p s whole (λ y. inr (
        accept_all-append p es last
        ∙ (ap (λ z. accept_all z last) e ∙ accept-completed output s y q))))

Ends-complete : (k : Tooling) (p : Phase) (s : Streamer) → Stands p s → Ends p (complete k s).1
unfolding complete
Ends-complete k p s h =
    let idle =
      not (has_client_payload k s)
      && not (any_shipable k false [] s.slots)
      && not (any_shipable k true [] s.slots) in
    let ending = end_turn k (settle_turn k s) in
    Ends-if s.closed p s (if idle then (s, []) else ending) (λ e.
      Ends-if idle p s ending
        (λ x. Ends-end_turn k p (settle_turn k s) (accept-settle_turn k p s (Runs-of p s h e))))

-- What the upstream sends: a text with the id that is drawn for its item, or pieces of tool calls.
pub data LiveChunk : Type 0 where
  text : String → String → LiveChunk
  calls : List CallDelta → LiveChunk

unfoldable pub take_chunk : Tooling → LiveChunk → Step
unfolding on_text_delta on_tool_delta
take_chunk k (text drawn s) = on_text_delta drawn s
take_chunk k (calls ds) = on_tool_delta k ds

unfoldable pub take_chunks : Tooling → List LiveChunk → Step
unfolding take_chunk
take_chunks k [] s = (s, [])
take_chunks k (c ∷ cs) s = (take_chunk k c then take_chunks k cs) s

Stands-take_chunks :
    (k : Tooling) (cs : List LiveChunk) (p : Phase) (s : Streamer)
    → Stands p s
    → Stands (accept_all p (take_chunks k cs s).1) (take_chunks k cs s).0
unfolding take_chunks accept_all
Stands-take_chunks k [] p s h = h
Stands-take_chunks k (text drawn t ∷ cs) p s h =
    let fed = on_text_delta drawn t s in
    rw (accept_all-append p fed.1 (take_chunks k cs fed.0).1)
      (Stands-take_chunks k cs (accept_all p fed.1) fed.0 (Stands-on_text_delta drawn t p s h))
Stands-take_chunks k (calls ds ∷ cs) p s h =
    let fed = on_tool_delta k ds s in
    rw (accept_all-append p fed.1 (take_chunks k cs fed.0).1)
      (Stands-take_chunks k cs (accept_all p fed.1) fed.0 (Stands-on_tool_delta k ds p s h))

Stands-new_streamer : Stands before new_streamer
Stands-new_streamer = inl (
  refl,
  record {
    not_begun = refl;
    not_closed = refl;
    at_zero = refl;
    no_item = refl;
    no_text = refl;
    nothing_sent = tt;
  },
)

-- Whatever chunks come, the client accepts every frame. With `fail` behind them the answer ends; with
-- `complete` behind them it ends too, unless `complete` sends nothing. The client requires sequence
-- numbers from zero without a gap, the envelope first, items numbered in the order in which they are
-- added, each call in one burst with the same arguments, at most one text item open, and one terminal
-- frame with the end mark behind it.
pub response_accepted :
    (k : Tooling) (cs : List LiveChunk) (message err_type : String)
    → (accept_all before ((take_chunks k cs then fail message err_type) new_streamer).1 ≡ ended)
      × (((complete k (take_chunks k cs new_streamer).0).1 ≡ [])
          ⊎ (accept_all before ((take_chunks k cs then complete k) new_streamer).1 ≡ ended))
response_accepted k cs message err_type =
    let fed = take_chunks k cs new_streamer in
    let stands = Stands-take_chunks k cs before new_streamer Stands-new_streamer in
    (
      rw (accept_all-append before fed.1 (fail message err_type fed.0).1)
          (accept-fail message err_type (accept_all before fed.1) fed.0 stands),
      rw (accept_all-append before fed.1 (complete k fed.0).1)
          (Ends-complete k (accept_all before fed.1) fed.0 stands),
    )
