-- ===== src/Live/Flushing.antt =====
-- The loops at the end of a turn, which send the tool calls that are left.
use grokcli_2api.Base.{
  ℕ, suc, zero, ◌≡◌, refl, ap, ◌∙◌, String, Bool, true, false, not, Option, none, some, List, [],
  ◌∷◌, ◌++◌, is_text, if◌then◌else◌, is_empty, length,
}
use grokcli_2api.Live.Frames.{Sent, Slot}
use grokcli_2api.Live.Streamer.{
  Tooling, Streamer, ◌then◌, emit_ready_tools, ready_rounds, emit_all_ready, flush_slot,
  flush_slots, flush_tools, ship_call, terminal_args,
}
use grokcli_2api.Live.Client.{Phase, accept_all, accept_all-append}
use grokcli_2api.Live.Texts.{is_whole, AllWhole, place_of, IsSound, Leads}
use grokcli_2api.Live.Bursts.{SameRest, Emits, Emits-nothing, Emits-ship, unsent_of}
use grokcli_2api.Live.Calls.{Leads-slots, Leads-emit_ready_tools}

abbrev Read : Phase → Streamer × List Sent → Type 0
Read p (s, es) = (accept_all p es ≡ place_of s) × IsSound s

Read-if_empty :
    (p : Phase) (t : Streamer) (es : List Sent) (r : Streamer × List Sent)
    → Read p (t, es)
    → Read (accept_all p es) r
    → Read p (if is_empty es then (t, []) else (r.0, es ++ r.1))
Read-if_empty p t [] r h k = h
Read-if_empty p t (e ∷ es) r h k = (accept_all-append p (e ∷ es) r.1 ∙ k.0, k.1)

Leads-ready_rounds : (k : Tooling) (n : ℕ) → Leads IsSound IsSound (ready_rounds k n)
unfolding ready_rounds accept_all
Leads-ready_rounds k zero s h = (refl, h)
Leads-ready_rounds k (suc n) s h =
    let one = Leads-emit_ready_tools k s h in
    let t = (emit_ready_tools k s).0 in
    let es = (emit_ready_tools k s).1 in
    let more = Leads-ready_rounds k n t one.1 in
    Read-if_empty (place_of s) t es (ready_rounds k n t) one
      (ap (λ p. accept_all p (ready_rounds k n t).1) one.0 ∙ more.0, more.1)

pub Leads-emit_all_ready : (k : Tooling) → Leads IsSound IsSound (emit_all_ready k)
unfolding emit_all_ready
Leads-emit_all_ready k s h = Leads-ready_rounds k (suc (length s.slots)) s h

SameRest-trans : (s t u : Streamer) → SameRest s t → SameRest t u → SameRest s u
SameRest-trans s t u h k = record {
  started_stays = k.started_stays ∙ h.started_stays;
  closed_stays = k.closed_stays ∙ h.closed_stays;
  open_stays = k.open_stays ∙ h.open_stays;
  id_stays = k.id_stays ∙ h.id_stays;
  at_stays = k.at_stays ∙ h.at_stays;
  texts_stay = k.texts_stay ∙ h.texts_stay;
  slots_stay = k.slots_stay ∙ h.slots_stay;
}

-- A shipped call, and the loop behind it.
Emits-then :
    (s : Streamer) (w : Slot) (t : Streamer) (es : List Sent) (r : List Slot × Streamer × List Sent)
    → Emits s (w ∷ [], t, es)
    → Emits t r
    → Emits s (w ∷ r.0, r.1, es ++ r.2)
Emits-then s w t es r (e, same, (whole, u)) (f, same', hs) = (
  accept_all-append (place_of s) es r.2 ∙ (ap (λ p. accept_all p r.2) e ∙ f),
  SameRest-trans s t r.1 same same',
  (whole, hs),
)

abbrev One : Streamer → Slot × Streamer × List Sent → Type 0
One s (w, t, es) = Emits s (w ∷ [], t, es)

One-if :
    (b : Bool) (s : Streamer) (x y : Slot × Streamer × List Sent)
    → (b ≡ true → One s x)
    → (b ≡ false → One s y)
    → One s (if b then x else y)
One-if true s x y h k = h refl
One-if false s x y h k = k refl

One-final :
    (o : Option String) (u : Slot) (s : Streamer)
    → is_whole u ≡ true
    → u.opened ≡ false
    → u.args_emitted ≡ false
    → One s
        (elim o [ none ↦ (u, s, []) | some final ↦ ship_call (record u { arguments = final }) s ])
One-final none u s w a b = Emits-nothing s (u ∷ []) (w, tt)
One-final (some final) u s w a b = Emits-ship (record u { arguments = final }) [] s a b tt

Emits-flush_slot :
    (k : Tooling) (t : Slot) (s : Streamer)
    → is_whole t ≡ true
    → Emits s ((flush_slot k t s).0 ∷ [], (flush_slot k t s).1, (flush_slot k t s).2)
unfolding flush_slot
Emits-flush_slot k t s w =
    let stripped = k.strip t.name in
    let name = k.canonical_outbound_tool_name stripped in
    let args =
      if is_text (k.strip t.arguments)
      then k.normalize_tool_arguments name t.arguments
      else t.arguments in
    let u = record t { name = name; arguments = args } in
    let kept : Slot × Streamer × List Sent = (t, s, []) in
    let final : Slot × Streamer × List Sent = elim (terminal_args k name args) [
      | none ↦ (u, s, [])
      | some a ↦ ship_call (record u { arguments = a }) s
    ] in
    let named = if not (is_text stripped) then kept else final in
    let still = Emits-nothing s (t ∷ []) (w, tt) in
    One-if t.is_done s kept named (λ x. still)
      (λ e.
        let unsent = unsent_of t w e in
        One-if (not (is_text stripped)) s kept final (λ x. still)
          (λ x. One-final (terminal_args k name args) u s w unsent.0 unsent.1))

Emits-flush_slots :
    (k : Tooling) (ts : List Slot) (s : Streamer) → AllWhole ts → Emits s (flush_slots k ts s)
unfolding flush_slots
Emits-flush_slots k [] s h = Emits-nothing s [] tt
Emits-flush_slots k (t ∷ ts) s (w, hs) =
    let one = flush_slot k t s in
    Emits-then s one.0 one.1 one.2 (flush_slots k ts one.1) (Emits-flush_slot k t s w)
      (Emits-flush_slots k ts one.1 hs)

pub Leads-flush_tools : (k : Tooling) → Leads IsSound IsSound (flush_tools k)
unfolding flush_tools
Leads-flush_tools k =
    Leads-slots (λ s. flush_slots k s.slots s) (λ s h. Emits-flush_slots k s.slots s h.whole)
