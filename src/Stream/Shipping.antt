-- ===== src/Stream/Shipping.antt =====
-- The loop of `feed` over the tools as the client reads it: each block that it opens is closed at once.
use grokcli_2api.Base.{
  not-eq_false, ℕ, ◌+◌, ◌≡◌, refl, Bool, true, false, not, ◌||◌, none, List, [], ◌∷◌, ◌++◌, String,
  is_text, if◌then◌else◌, arith, eq_refl, text_length, text_from, ◌<>◌,
}
use text.Mathlib.TextLemmas.{nil-append}
use grokcli_2api.Stream.Events.{StreamEvent, Tool, input_json_delta, block_stop, block_start_tool}
use grokcli_2api.Stream.Assembler.{
  Rules, Assembler, ◌then◌, unsent_args, flush_tool_args, send_tool, ship_tool, start_and_send,
  must_wait, unchanged, is_ready_tool, start_tool, block_of, Round,
}
use grokcli_2api.Stream.Client.{between, accept_all}
use grokcli_2api.Stream.Idle.{is_idle}

pub empty_of : (s : String) → is_text s ≡ false → s ≡ ""
empty_of String.[] h = refl
empty_of (String.◌∷◌ c s) h = cc

-- What is sent of a tool that has just been opened: all its arguments, and the stop.
abbrev sent : Tool → Assembler → List StreamEvent → Round
sent t a es = record {
  tool = record t { args_sent_text = t.args; stopped = true };
  assembler = record a { output_chars = a.output_chars + text_length t.args };
  events = es ++ (input_json_delta (block_of t) t.args ∷ block_stop (block_of t) ∷ []);
  goes_on = true;
}

pub from_start : (s t : String) → s ≡ "" → text_from (text_length s) t ≡ t
unfolding text_from text_length
from_start s t e = rw e refl

pub append_start : (s t : String) → s ≡ "" → s <> t ≡ t
append_start s t e = rw e (nil-append t)

unsent_args-ready :
    (rules : Rules) (t : Tool)
    → t.started ≡ true
    → t.args_sent_text ≡ ""
    → is_text t.args_sent_text ≡ false
    → is_text t.args ≡ true
    → rules.is_complete t.name t.args ≡ true
    → unsent_args rules false t ≡ t.args
unfolding unsent_args
unsent_args-ready rules t h e e' f g = ground (arith, from_start t.args_sent_text t.args e)

send_tool-ready :
    (rules : Rules) (t : Tool) (a : Assembler) (es : List StreamEvent)
    → t.started ≡ true
    → t.args_sent_text ≡ ""
    → is_text t.args_sent_text ≡ false
    → is_text t.args ≡ true
    → rules.is_complete t.name t.args ≡ true
    → send_tool rules t a es ≡ sent t a es
unfolding send_tool flush_tool_args
send_tool-ready rules t a es h e e' f g = ground (
  arith,
  unsent_args-ready rules t h e e' f g,
  append_start t.args_sent_text t.args e,
  eq_refl t.args,
)

-- Between blocks, and with the message open.
abbrev pub IsResting : Assembler → Type 0
IsResting a = (a.thinking_index ≡ none) × (a.text_index ≡ none) × (a.started ≡ true)

abbrev pub Rests : Rules → Assembler → List StreamEvent → Assembler → Type 0
Rests rules a es b =
    (accept_all rules.is_complete (between a.next_index) es ≡ between b.next_index) × IsResting b

-- A whole block with a complete input is accepted.
pub accept-block :
    (k : String → String → Bool) (n : ℕ) (id name args : String)
    → k name args ≡ true
    → accept_all k
        (between n)
        (block_start_tool n id name ∷ input_json_delta n args ∷ block_stop n ∷ [])
      ≡ between (n + 1)
unfolding accept_all
accept-block k n id name args h = ground (arith, nil-append args)

-- What a round leaves: the client has read its events, and its tool is idle.
abbrev pub Ships : Rules → Assembler → Round → Type 0
Ships rules a r = Rests rules a r.events r.assembler × (is_idle r.tool ≡ true)

Ships-start_and_send :
    (rules : Rules) (t : Tool) (a : Assembler)
    → is_text t.args_sent_text ≡ false
    → is_ready_tool rules t ≡ true
    → IsResting a
    → Ships rules a (start_and_send rules t a)
unfolding start_and_send start_tool is_ready_tool
Ships-start_and_send rules t a e r (p, q, s) =
    rw
      (send_tool-ready rules (start_tool t t.name a).0 (start_tool t t.name a).1
        (start_tool t t.name a).2 refl (empty_of t.args_sent_text e) e (ground arith)
        (ground arith))
      (
        (accept-block rules.is_complete a.next_index t.id t.name t.args (ground arith), (p, q, s)),
        refl,
      )

Ships-unchanged :
    (rules : Rules) (t : Tool) (a : Assembler) (b : Bool)
    → IsResting a
    → is_idle t ≡ true
    → Ships rules a (unchanged t a b)
unfolding accept_all
Ships-unchanged rules t a b h i = ((refl, h), i)

Ships-if :
    (rules : Rules) (b : Bool) (a : Assembler) (r s : Round)
    → (b ≡ true → Ships rules a r)
    → (b ≡ false → Ships rules a s)
    → Ships rules a (if b then r else s)
Ships-if rules true a r s h k = h refl
Ships-if rules false a r s h k = k refl

new_tool_facts :
    (t : Tool)
    → is_idle t ≡ true
    → t.stopped ≡ false
    → (t.started ≡ false) × (is_text t.args_sent_text ≡ false)
new_tool_facts t h e = ground arith

pub Ships-ship_tool :
    (rules : Rules) (lower : List Tool) (t : Tool) (higher : List Tool) (a : Assembler)
    → IsResting a
    → is_idle t ≡ true
    → Ships rules a (ship_tool rules lower t higher a)
unfolding ship_tool
Ships-ship_tool rules lower t higher a h i =
    let still = λ (b : Bool). Ships-unchanged rules t a b h i in
    let late =
      if must_wait rules lower higher a then unchanged t a false else start_and_send rules t a in
    let waiting = unchanged t a (not (is_text t.name || is_text t.id)) in
    let idle = if not (is_ready_tool rules t) then waiting else late in
    let running = if t.started then send_tool rules t a [] else idle in
    Ships-if rules t.stopped a (unchanged t a true) running (λ x. still true)
      (λ e.
        let fresh = new_tool_facts t i e in
        Ships-if rules t.started a (send_tool rules t a []) idle
          (λ started. absurd (cc (fresh.0, started)))
          (λ u.
            Ships-if rules (not (is_ready_tool rules t)) a waiting late
              (λ x. still (not (is_text t.name || is_text t.id)))
              (λ ready.
                Ships-if rules (must_wait rules lower higher a) a (unchanged t a false)
                  (start_and_send rules t a) (λ x. still false)
                  (λ w.
                    Ships-start_and_send rules t a fresh.1
                      (not-eq_false (is_ready_tool rules t) ready) h))))
