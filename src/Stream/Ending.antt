-- ===== src/Stream/Ending.antt =====
-- `finish` as the client reads it.
use grokcli_2api.Base.{
  not-eq_false, ℕ, ◌≡◌, refl, ap, ◌∙◌, Bool, true, false, not, ◌&&◌, ◌||◌, Option, none, some, List,
  [], ◌∷◌, String, is_text, if◌then◌else◌, arith, Bool-cases, inl, inr,
}
use grokcli_2api.Stream.Events.{StreamEvent, Tool, Usage}
use grokcli_2api.Stream.Assembler.{
  Rules, Assembler, Step, ◌then◌, start, close_tools, get_tool, close_thinking, close_text, filled,
  filled_tools, emit_held, settle_preface, last_form, last_name, last_args, set_tool, open_last,
  finish_tool, finish_tools, keys, end_message, finish, is_budget_spent, emit_text_and_thinking,
  any_tool, is_ready_at_end,
}
use grokcli_2api.Stream.Client.{Phase, ended, accept_all, accept_all-append}
use grokcli_2api.Stream.Idle.{AllIdle, is_idle, AllIdle-put_tool, get_tool_idle, close_tools-idle}
use grokcli_2api.Stream.Blocks.{
  IsPlaced, IsQuiet, Leads, Leads-then, Leads-unthink, Leads-IsQuiet_text, IsUnthinking, Leads-emit,
  place_of,
}
use grokcli_2api.Stream.Closing.{Led, Led-opened}
use grokcli_2api.Stream.Feeding.{Stands, accept-start, accept-then, place-quiet}

stopped_of : (t : Tool) → is_idle t ≡ true → t.started ≡ true → t.stopped ≡ false → ⊥
stopped_of t i e s = ground arith

unsent_of : (t : Tool) → is_idle t ≡ true → t.started ≡ false → is_text t.args_sent_text ≡ false
unsent_of t i e = ground arith

-- What the loop tests is what the slot holds.
last_form_args :
    (rules : Rules) (t : Tool)
    → is_text (last_name rules t) ≡ true
    → is_text (last_args rules t) ≡ true
    → (last_form rules t).args ≡ last_args rules t
unfolding last_form last_args last_name
last_form_args rules t n a = ground arith

AllIdle-filled_tools :
    (rules : Rules) (ts : List Tool) → AllIdle ts → AllIdle (filled_tools rules ts)
unfolding filled_tools filled
AllIdle-filled_tools rules [] h = tt
AllIdle-filled_tools rules (t ∷ ts) (i, h) = (ground arith, AllIdle-filled_tools rules ts h)

-- Arguments that are complete are not blank.
module _ (rules : Rules)
    (has_text : (name args : String)
      → rules.is_complete name args ≡ true
      → is_text (rules.strip args) ≡ true) where
  Led-if :
      (b : Bool) (a : Assembler) (x y : Assembler × List StreamEvent)
      → (b ≡ true → Led rules a x)
      → (b ≡ false → Led rules a y)
      → Led rules a (if b then x else y)
  Led-if true a x y h k = h refl
  Led-if false a x y h k = k refl

  Led-open_last :
      (t : Tool) (a b : Assembler)
      → IsQuiet b
      → t.stopped ≡ false
      → is_text t.args_sent_text ≡ false
      → (is_text (last_name rules t)
            && is_text (last_args rules t)
            && rules.is_complete (last_name rules t) (last_args rules t)
          ≡ true)
      → Led rules b
          ((open_last rules (last_form rules t) (last_name rules t) then close_tools rules) b)
  unfolding last_form
  Led-open_last t a b q s e ready =
      let n : is_text (last_name rules t) ≡ true = ground arith in
      let g : is_text (last_args rules t) ≡ true = ground arith in
      let c : rules.is_complete (last_name rules t) (last_args rules t) ≡ true = ground arith in
      let same = last_form_args rules t n g in
      Led-opened rules (last_form rules t) (last_name rules t) b q s e n (ap is_text same ∙ g)
        (ap (λ x. is_text (rules.strip x)) same
          ∙ has_text (last_name rules t) (last_args rules t) c)
        (ap (rules.is_complete (last_name rules t)) same ∙ c)

  -- The body of the loop.
  Led-finish_tool :
      (t : Tool) (a : Assembler)
      → IsQuiet a
      → is_idle t ≡ true
      → Led rules a (finish_tool rules t a)
  unfolding finish_tool last_form accept_all
  Led-finish_tool t a q i =
      let u = last_form rules t in
      let b = set_tool u a in
      let quiet : IsQuiet b = record {
        no_thinking = q.no_thinking;
        no_text = q.no_text;
        tools_idle = AllIdle-put_tool u a.tools i q.tools_idle;
        message_open = q.message_open;
      } in
      let name = last_name rules t in
      let args = last_args rules t in
      let ready = is_text name && is_text args && rules.is_complete name args in
      let opening = (open_last rules u name then close_tools rules) b in
      let late = if is_budget_spent rules b then (b, []) else opening in
      let idle = if not ready then (b, []) else late in
      let running = if t.started then close_tools rules b else idle in
      Led-if t.stopped a (a, []) running (λ x. (refl, q))
        (λ s.
          Led-if t.started a (close_tools rules b) idle (λ e. absurd (stopped_of t i e s))
            (λ e.
              Led-if (not ready) a (b, []) late (λ x. (refl, quiet))
                (λ x.
                  Led-if (is_budget_spent rules b) a (b, []) opening (λ y. (refl, quiet))
                    (λ y. Led-open_last t a b quiet s (unsent_of t i e) (not-eq_false ready x)))))

  Led-found :
      (is : List ℕ) (a : Assembler) (o : Option Tool)
      → IsQuiet a
      → ((t : Tool) → o ≡ some t → is_idle t ≡ true)
      → Leads rules IsQuiet IsQuiet (finish_tools rules is)
      → Led rules a (elim o [
        | none ↦ finish_tools rules is a
        | some t ↦ (finish_tool rules t then finish_tools rules is) a
      ])
  Led-found is a none q i rest = rest a q
  Led-found is a (some t) q i rest =
      accept-then rules IsQuiet IsQuiet (place_of a) a (finish_tool rules t) (finish_tools rules is)
        (Led-finish_tool t a q (i t refl)) rest

  Leads-finish_tools : (is : List ℕ) → Leads rules IsQuiet IsQuiet (finish_tools rules is)
  unfolding finish_tools accept_all
  Leads-finish_tools [] a q = (refl, q)
  Leads-finish_tools (i ∷ is) a q =
      Led-found is a (get_tool i a.tools) q (λ t. get_tool_idle i a.tools t q.tools_idle)
        (Leads-finish_tools is)

  Leads-emit_held :
      (held : List (String × String)) → Leads rules IsPlaced IsPlaced (emit_held rules held)
  unfolding emit_held accept_all
  Leads-emit_held [] a h = (refl, h)
  Leads-emit_held ((s, t) ∷ held) a h =
      Leads-then rules IsPlaced IsPlaced IsPlaced (emit_text_and_thinking rules s t)
        (emit_held rules held) (Leads-emit rules s t) (Leads-emit_held held) a h

  Leads-settle_preface : Leads rules IsPlaced IsPlaced (settle_preface rules)
  unfolding settle_preface accept_all
  Leads-settle_preface a h =
      let bare : IsPlaced (record a { held_pre_tool = [] }) = record {
        fits = h.fits;
        idle = h.idle;
        open_message = h.open_message;
      } in
      elim (Bool-cases (a.saw_tool || any_tool (is_ready_at_end rules) a.tools)) [
        | inl e ↦ rw e (refl, bare)
        | inr e ↦ rw e (Leads-emit_held a.held_pre_tool (record a { held_pre_tool = [] }) bare)
      ]

  Leads-fill :
      Leads rules IsPlaced IsPlaced (λ a. (record a { tools = filled_tools rules a.tools }, []))
  unfolding accept_all
  Leads-fill a h = (
    refl,
    record {
      fits = h.fits;
      idle = AllIdle-filled_tools rules a.tools h.idle;
      open_message = h.open_message;
    },
  )

  Leads-last_close : Leads rules IsQuiet IsQuiet (close_tools rules)
  unfolding accept_all
  Leads-last_close a q = rw (close_tools-idle rules a q.tools_idle) (refl, q)

  accept-end_message :
      (reason : String) (usage : Usage) (tokens : ℕ) (p : Phase) (a : Assembler) (f : Step)
      → (accept_all rules.is_complete p (f a).1 ≡ place_of (f a).0) × IsQuiet (f a).0
      → accept_all rules.is_complete p ((f then end_message reason usage tokens) a).1 ≡ ended
  unfolding end_message accept_all
  accept-end_message reason usage tokens p a f (e, q) =
      let b = (f a).0 in
      let last = (end_message reason usage tokens b).1 in
      accept_all-append rules.is_complete p (f a).1 last
      ∙ ap (λ x. accept_all rules.is_complete x last)
          (e ∙ place-quiet b.thinking_index b.text_index b.next_index q.no_thinking q.no_text)

  -- `finish` ends the message wherever the assembler stands.
  pub accept-finish :
      (reason : String) (usage : Usage) (tokens : ℕ) (p : Phase) (a : Assembler)
      → Stands p a
      → accept_all rules.is_complete p (finish rules reason usage tokens a).1 ≡ ended
  unfolding finish
  accept-finish reason usage tokens p a h =
      let fill : Step = λ a. (record a { tools = filled_tools rules a.tools }, []) in
      let finish_all : Step = λ a. finish_tools rules (keys a.tools) a in
      let filling = start tokens then fill in
      let settled = filling then settle_preface rules in
      let thought = settled then close_thinking in
      let quiet = thought then close_text in
      let all = quiet then finish_all in
      accept-end_message reason usage tokens p a (all then close_tools rules) (
        accept-then rules IsQuiet IsQuiet p a all (close_tools rules)
          (accept-then rules IsQuiet IsQuiet p a quiet finish_all
            (accept-then rules IsUnthinking IsQuiet p a thought close_text
              (accept-then rules IsPlaced IsUnthinking p a settled close_thinking
                (accept-then rules IsPlaced IsPlaced p a filling (settle_preface rules)
                  (accept-then rules IsPlaced IsPlaced p a (start tokens) fill
                    (accept-start rules p a tokens h) (Leads-fill))
                  (Leads-settle_preface))
                (Leads-unthink rules))
              (Leads-IsQuiet_text rules))
            (λ b. Leads-finish_tools (keys b.tools) b))
          (Leads-last_close))
