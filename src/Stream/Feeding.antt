-- ===== src/Stream/Feeding.antt =====
-- `feed` as the client reads it.
use grokcli_2api.Base.{
  ℕ, ◌≡◌, refl, sym, ap, ◌∙◌, Bool, true, false, not, ◌&&◌, ◌||◌, Option, none, some, List, [], ◌∷◌,
  ◌++◌, String, is_text, if◌then◌else◌, arith, Bool-cases, ◌⊎◌, inl, inr, get_or,
}
use grokcli_2api.Stream.Events.{StreamEvent, Tool, Piece, new_tool}
use grokcli_2api.Stream.Assembler.{
  Rules, Assembler, Step, ◌then◌, start, ship_tool, ship_tools, feed_tools, feed_text, feed_pieces,
  feed, take_piece, take_pieces, merged, get_tool, put_tool, close_thinking, close_text,
}
use grokcli_2api.Stream.Client.{Phase, before, between, accept_all, accept_all-append}
use grokcli_2api.Stream.Idle.{AllIdle, is_idle, AllIdle-put_tool, get_tool_idle}
use grokcli_2api.Stream.Blocks.{
  IsPlaced, IsQuiet, IsQuiet-IsPlaced, Leads, Leads-then, Leads-IsQuiet, Leads-emit, place,
  place_of,
}
use grokcli_2api.Stream.Shipping.{IsResting, Rests, Ships-ship_tool}

Rests-append :
    (rules : Rules) (a b c : Assembler) (es fs : List StreamEvent)
    → Rests rules a es b
    → Rests rules b fs c
    → Rests rules a (es ++ fs) c
Rests-append rules a b c es fs (p, r) (q, s) =
    (rw (accept_all-append rules.is_complete (between a.next_index) es fs, p) q, s)

abbrev Shipped : Rules → Assembler → List Tool × Assembler × List StreamEvent → Type 0
Shipped rules a (ts, b, es) = Rests rules a es b × AllIdle ts

Shipped-if :
    (rules : Rules) (go : Bool) (a : Assembler)
    (more done : List Tool × Assembler × List StreamEvent)
    → Shipped rules a more
    → Shipped rules a done
    → Shipped rules a (if go then more else done)
Shipped-if rules true a more done h k = h
Shipped-if rules false a more done h k = k

Shipped-ship_tools :
    (rules : Rules) (lower ts : List Tool) (a : Assembler)
    → IsResting a
    → AllIdle ts
    → Shipped rules a (ship_tools rules lower ts a)
unfolding ship_tools accept_all
Shipped-ship_tools rules lower [] a h hs = ((refl, h), tt)
Shipped-ship_tools rules lower (t ∷ ts) a h (i, hs) =
    let r = ship_tool rules lower t ts a in
    let one = Ships-ship_tool rules lower t ts a h i in
    let later = ship_tools rules (lower ++ (r.tool ∷ [])) ts r.assembler in
    let rest = Shipped-ship_tools rules (lower ++ (r.tool ∷ [])) ts r.assembler one.0.1 hs in
    Shipped-if rules r.goes_on a (r.tool ∷ later.0, later.1, r.events ++ later.2)
      (r.tool ∷ ts, r.assembler, r.events)
      (Rests-append rules a r.assembler later.1 r.events later.2 one.0 rest.0, (one.1, rest.1))
      (one.0, (one.1, hs))

get_or_idle :
    (o : Option Tool) (d : Tool)
    → ((t : Tool) → o ≡ some t → is_idle t ≡ true)
    → is_idle d ≡ true
    → is_idle (get_or o d) ≡ true
get_or_idle none d h k = k
get_or_idle (some t) d h k = h t refl

AllIdle-if :
    (b : Bool) (ts us : List Tool) → AllIdle ts → AllIdle us → AllIdle (if b then ts else us)
AllIdle-if true ts us h k = h
AllIdle-if false ts us h k = k

AllIdle-take_pieces :
    (rules : Rules) (ps : List Piece) (ts : List Tool)
    → AllIdle ts
    → AllIdle (take_pieces rules ps ts)
unfolding take_pieces take_piece merged
AllIdle-take_pieces rules [] ts h = h
AllIdle-take_pieces rules (p ∷ ps) ts h =
    let first = new_tool p.index (if is_text p.id then p.id else p.fresh_id) in
    let t = get_or (get_tool p.index ts) first in
    AllIdle-take_pieces rules ps (take_piece rules p ts) (
      AllIdle-if t.stopped ts (put_tool (merged rules p t) ts) h (
        AllIdle-put_tool (merged rules p t) ts
          (get_or_idle (get_tool p.index ts) first (λ u. get_tool_idle p.index ts u h) refl) h))

pub place-quiet : (x y : Option ℕ) (n : ℕ) → x ≡ none → y ≡ none → place x y n ≡ between n
place-quiet x y n e f = ground arith

Leads-feed_tools :
    (rules : Rules) (ps : List Piece) → Leads rules IsQuiet IsQuiet (feed_tools rules ps)
unfolding feed_tools
Leads-feed_tools rules ps a q =
    let shipped =
      Shipped-ship_tools rules [] (take_pieces rules ps a.tools) a
        (q.no_thinking, q.no_text, q.message_open)
        (AllIdle-take_pieces rules ps a.tools q.tools_idle) in
    let after = shipped.0.1 in
    let out = ship_tools rules [] (take_pieces rules ps a.tools) a in
    let b = out.1 in
    (
      ap (λ p. accept_all rules.is_complete p out.2)
            (place-quiet a.thinking_index a.text_index a.next_index q.no_thinking q.no_text)
          ∙ (shipped.0.0
              ∙ sym (place-quiet b.thinking_index b.text_index b.next_index after.0 after.1)),
      record {
        no_thinking = after.0;
        no_text = after.1;
        tools_idle = shipped.1;
        message_open = after.2;
      },
    )

Leads-feed_text :
    (rules : Rules) (s t : String) → Leads rules IsPlaced IsPlaced (feed_text rules s t)
unfolding feed_text accept_all
Leads-feed_text rules s t a h = elim (Bool-cases rules.tools_requested) [
  | inl e ↦ rw e (elim (Bool-cases (not a.saw_tool && (is_text s || is_text t))) [
    | inl held ↦
        rw held (refl, record { fits = h.fits; idle = h.idle; open_message = h.open_message })
    | inr dropped ↦ rw dropped (refl, h)
  ])
  | inr e ↦ rw e (Leads-emit rules s t a h)
]

Leads-pend :
    (rules : Rules) → Leads rules IsPlaced IsPlaced (λ a. (record a { tools_pending = true }, []))
unfolding accept_all
Leads-pend rules a h =
    (refl, record { fits = h.fits; idle = h.idle; open_message = h.open_message })

Leads-weaken :
    (rules : Rules) (f : Step) → Leads rules IsPlaced IsQuiet f → Leads rules IsPlaced IsPlaced f
Leads-weaken rules f h a p = ((h a p).0, IsQuiet-IsPlaced (f a).0 (h a p).1)

Leads-feed_pieces :
    (rules : Rules) (ps : List Piece) → Leads rules IsPlaced IsPlaced (feed_pieces rules ps)
unfolding feed_pieces accept_all
Leads-feed_pieces rules [] a h = (refl, h)
Leads-feed_pieces rules (p ∷ ps) a h =
    Leads-weaken rules (close_thinking then close_text then feed_tools rules (p ∷ ps))
      (Leads-then rules IsPlaced IsQuiet IsQuiet (close_thinking then close_text)
        (feed_tools rules (p ∷ ps)) (Leads-IsQuiet rules) (Leads-feed_tools rules (p ∷ ps)))
      (record a { tools_pending = true }) (Leads-pend rules a h).1

-- An assembler that has not started stands before the message, with everything closed.
pub record IsFresh (a : Assembler) : Type 0 where
  pub not_started : a.started ≡ false
  pub at_zero : a.next_index ≡ 0
  pub nothing_thought : a.thinking_index ≡ none
  pub nothing_written : a.text_index ≡ none
  pub nothing_called : AllIdle a.tools

-- Where the client is, before the message included.
abbrev pub Stands : Phase → Assembler → Type 0
Stands p a = ((p ≡ before) × IsFresh a) ⊎ ((p ≡ place_of a) × IsPlaced a)

-- After `start` the message is open.
pub accept-start :
    (rules : Rules) (p : Phase) (a : Assembler) (tokens : ℕ)
    → Stands p a
    → (accept_all rules.is_complete p (start tokens a).1 ≡ place_of (start tokens a).0)
      × IsPlaced (start tokens a).0
unfolding start accept_all
accept-start rules p a tokens (inl (e, f)) = ground arith
accept-start rules p a tokens (inr (e, h)) = ground arith

-- A step behind others.
pub accept-then :
    (rules : Rules) (P Q : Assembler → Type 0) (p : Phase) (a : Assembler) (f g : Step)
    → (accept_all rules.is_complete p (f a).1 ≡ place_of (f a).0) × P (f a).0
    → Leads rules P Q g
    → (accept_all rules.is_complete p ((f then g) a).1 ≡ place_of ((f then g) a).0)
      × Q ((f then g) a).0
accept-then rules P Q p a f g (e, h) leads = (
  rw (accept_all-append rules.is_complete p (f a).1 (g (f a).0).1, e) (leads (f a).0 h).0,
  (leads (f a).0 h).1,
)

-- The client accepts what `feed` emits, whatever the upstream sends.
pub Stands-feed :
    (rules : Rules) (s t : String) (ps : List Piece) (p : Phase) (a : Assembler)
    → Stands p a
    → Stands (accept_all rules.is_complete p (feed rules s t ps a).1) (feed rules s t ps a).0
unfolding feed
Stands-feed rules s t ps p a h = inr (
    accept-then rules IsPlaced IsPlaced p a (start 0 then feed_text rules s t)
      (feed_pieces rules ps)
      (accept-then rules IsPlaced IsPlaced p a (start 0) (feed_text rules s t)
        (accept-start rules p a 0 h) (Leads-feed_text rules s t))
      (Leads-feed_pieces rules ps))
