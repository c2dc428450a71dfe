-- ===== src/Stream/Blocks.antt =====
-- The assembler's steps as the client reads them: texts and thoughts.
use grokcli_2api.Base.{
  ℕ, suc, ◌≡◌, ◌≢◌, refl, Bool, true, false, Option, none, some, [], String, is_text, if◌then◌else◌,
  arith,
}
use grokcli_2api.Stream.Assembler.{
  Rules, Assembler, Step, ◌then◌, close_text, close_thinking, close_tools, open_thinking,
  write_thinking, write_text, emit_thinking, open_text, emit_text, emit_text_and_thinking,
}
use grokcli_2api.Stream.Client.{Phase, between, writing, thinking, accept_all, accept_all-append}
use grokcli_2api.Stream.Idle.{AllIdle, close_tools-idle}

-- Where the client is when the assembler stands at a thought, a text, or between blocks.
abbrev pub place : Option ℕ → Option ℕ → ℕ → Phase
place (some i) t n = thinking i
place none (some i) n = writing i
place none none n = between n

abbrev pub place_of : Assembler → Phase
place_of a = place a.thinking_index a.text_index a.next_index

-- At most one of the two is open, and it is the last block.
abbrev pub Fits : Option ℕ → Option ℕ → ℕ → Type 0
Fits none none n = Unit
Fits (some i) none n = suc i ≡ n
Fits none (some i) n = suc i ≡ n
Fits (some i) (some j) n = ⊥

pub record IsPlaced (a : Assembler) : Type 0 where
  pub fits : Fits a.thinking_index a.text_index a.next_index
  pub idle : AllIdle a.tools
  pub open_message : a.started ≡ true

-- No block is open.
pub record IsQuiet (a : Assembler) : Type 0 where
  pub no_thinking : a.thinking_index ≡ none
  pub no_text : a.text_index ≡ none
  pub tools_idle : AllIdle a.tools
  pub message_open : a.started ≡ true

pub IsQuiet-IsPlaced : (a : Assembler) → IsQuiet a → IsPlaced a
IsQuiet-IsPlaced a q = record {
  fits = rw (q.no_thinking, q.no_text) tt;
  idle = q.tools_idle;
  open_message = q.message_open;
}

-- A placed assembler with a thought open, or with a text open.
abbrev IsThinking : Assembler → Type 0
IsThinking a = IsPlaced a × (a.thinking_index ≢ none)

abbrev IsWriting : Assembler → Type 0
IsWriting a = IsPlaced a × (a.text_index ≢ none)

abbrev pub IsUnthinking : Assembler → Type 0
IsUnthinking a = IsPlaced a × (a.thinking_index ≡ none)

module _ (rules : Rules) where
  -- The client reads the events of a step from the place before it to the place behind it.
  abbrev pub Leads : (Assembler → Type 0) → (Assembler → Type 0) → Step → Type 0
  Leads P Q f =
      (a : Assembler)
      → P a
      → (accept_all rules.is_complete (place_of a) (f a).1 ≡ place_of (f a).0) × Q (f a).0

  pub Leads-then :
      (P Q R : Assembler → Type 0) (f g : Step) → Leads P Q f → Leads Q R g → Leads P R (f then g)
  Leads-then P Q R f g hf hg a p = (
    rw (accept_all-append rules.is_complete (place_of a) (f a).1 (g (f a).0).1, (hf a p).0)
        (hg (f a).0 (hf a p).1).0,
    (hg (f a).0 (hf a p).1).1,
  )

  pub Leads-close_text : Leads IsPlaced IsPlaced close_text
  unfolding close_text accept_all
  Leads-close_text a h = ground arith

  pub Leads-close_thinking : Leads IsPlaced IsPlaced close_thinking
  unfolding close_thinking accept_all
  Leads-close_thinking a h = ground arith

  -- With no tool open, closing the tools does nothing.
  pub Leads-close_tools : Leads IsPlaced IsPlaced (close_tools rules)
  unfolding accept_all
  Leads-close_tools a h = rw (close_tools-idle rules a h.idle) (refl, h)

  Leads-open_thinking : Leads IsPlaced IsThinking open_thinking
  unfolding open_thinking close_text accept_all
  Leads-open_thinking a h = ground arith

  pub Leads-unthink : Leads IsPlaced IsUnthinking close_thinking
  unfolding close_thinking accept_all
  Leads-unthink a h = ground arith

  Leads-open_text : Leads IsUnthinking IsWriting open_text
  unfolding open_text accept_all
  Leads-open_text a (h, e) = ground arith

  Leads-write_thinking : (s : String) → Leads IsThinking IsPlaced (write_thinking s)
  unfolding write_thinking accept_all
  Leads-write_thinking s a (h, e) = ground arith

  Leads-write_text : (s : String) → Leads IsWriting IsPlaced (write_text s)
  unfolding write_text accept_all
  Leads-write_text s a (h, e) = ground arith

  Leads-if :
      (b : Bool) (f : Step)
      → Leads IsPlaced IsPlaced f
      → Leads IsPlaced IsPlaced (λ a. if b then f a else (a, []))
  unfolding accept_all
  Leads-if true f h a p = h a p
  Leads-if false f h a p = (refl, p)

  pub Leads-emit_thinking : (s : String) → Leads IsPlaced IsPlaced (emit_thinking rules s)
  unfolding emit_thinking
  Leads-emit_thinking s =
      Leads-if (is_text s) (close_tools rules then open_thinking then write_thinking s) (
        Leads-then IsPlaced IsThinking IsPlaced (close_tools rules then open_thinking)
          (write_thinking s)
          (Leads-then IsPlaced IsPlaced IsThinking (close_tools rules) open_thinking
            (Leads-close_tools) Leads-open_thinking)
          (Leads-write_thinking s))

  pub Leads-emit_text : (s : String) → Leads IsPlaced IsPlaced (emit_text rules s)
  unfolding emit_text
  Leads-emit_text s =
      Leads-if (is_text s) (close_tools rules then close_thinking then open_text then write_text s)
        (Leads-then IsPlaced IsWriting IsPlaced
          (close_tools rules then close_thinking then open_text) (write_text s)
          (Leads-then IsPlaced IsUnthinking IsWriting (close_tools rules then close_thinking)
            open_text
            (Leads-then IsPlaced IsPlaced IsUnthinking (close_tools rules) close_thinking
              (Leads-close_tools) Leads-unthink)
            Leads-open_text)
          (Leads-write_text s))

  pub Leads-emit : (s t : String) → Leads IsPlaced IsPlaced (emit_text_and_thinking rules s t)
  unfolding emit_text_and_thinking
  Leads-emit s t =
      Leads-then IsPlaced IsPlaced IsPlaced (emit_thinking rules t) (emit_text rules s)
        (Leads-emit_thinking t) (Leads-emit_text s)

  pub Leads-IsQuiet_text : Leads IsUnthinking IsQuiet close_text
  unfolding close_text accept_all
  Leads-IsQuiet_text a (h, e) = ground arith

  -- Thought and text are closed before tools.
  pub Leads-IsQuiet : Leads IsPlaced IsQuiet (close_thinking then close_text)
  Leads-IsQuiet =
      Leads-then IsPlaced IsUnthinking IsQuiet close_thinking close_text Leads-unthink
        Leads-IsQuiet_text
