-- ===== src/Live/Texts.antt =====
-- The streamer's steps as the client reads them: the envelope, the text item, and the failure.
use grokcli_2api.Base.{
  ℕ, ◌≡◌, refl, ap, ◌∙◌, ◌⊎◌, inl, inr, String, Bool, true, false, not, ◌||◌, Option, none, some,
  List, [], ◌∷◌, All, is_text, ◌<>◌, arith, eq_refl, if◌then◌else◌,
}
use text.Mathlib.TextLemmas.{cons-append}
use mathlib.Core.List.{append_assoc}
use grokcli_2api.Live.Frames.{Sent, Slot, numbered, done_mark, failed}
use grokcli_2api.Live.Streamer.{
  Streamer, Step, ◌then◌, emit, begin_response, ensure_text_open, send_text, on_text_delta,
  close_open_text, fail, joined,
}
use grokcli_2api.Live.Client.{Phase, before, reading, ended, rest, accept_all, accept_all-append}

-- A call that is not through has sent nothing.
abbrev pub is_whole : Slot → Bool
is_whole t = t.is_done || not (t.opened || t.args_emitted)

abbrev pub AllWhole : List Slot → Type 0
AllWhole ts = All (λ t. is_whole t ≡ true) ts

abbrev pub open_item : Streamer → Option ℕ
open_item s = if s.text_open then some s.text_output_index else none

-- Where the client is between two steps.
abbrev pub place_of : Streamer → Phase
place_of s = reading s.seq s.output_index (open_item s) rest

pub record IsSound (s : Streamer) : Type 0 where
  pub begun : s.started ≡ true
  pub running : s.closed ≡ false
  pub whole : AllWhole s.slots
  pub has_id : not s.text_open || is_text s.msg_id ≡ true

abbrev pub Leads : (Streamer → Type 0) → (Streamer → Type 0) → Step → Type 0
Leads P Q f =
    (s : Streamer) → P s → (accept_all (place_of s) (f s).1 ≡ place_of (f s).0) × Q (f s).0

-- A step behind others.
pub accept-then :
    (P Q : Streamer → Type 0) (p : Phase) (s : Streamer) (f g : Step)
    → (accept_all p (f s).1 ≡ place_of (f s).0) × P (f s).0
    → Leads P Q g
    → (accept_all p ((f then g) s).1 ≡ place_of ((f then g) s).0) × Q ((f then g) s).0
accept-then P Q p s f g (e, h) leads =
    (rw (accept_all-append p (f s).1 (g (f s).0).1, e) (leads (f s).0 h).0, (leads (f s).0 h).1)

-- A streamer that has sent nothing.
pub record IsFresh (s : Streamer) : Type 0 where
  pub not_begun : s.started ≡ false
  pub not_closed : s.closed ≡ false
  pub at_zero : s.seq ≡ 0
  pub no_item : s.output_index ≡ 0
  pub no_text : s.text_open ≡ false
  pub nothing_sent : AllWhole s.slots

-- Where the client is: before the answer, in it, or behind it.
abbrev pub Stands : Phase → Streamer → Type 0
Stands p s =
    ((p ≡ before) × IsFresh s) ⊎ ((p ≡ place_of s) × IsSound s) ⊎ ((p ≡ ended) × (s.closed ≡ true))

abbrev pub Runs : Phase → Streamer → Type 0
Runs p s = ((p ≡ before) × IsFresh s) ⊎ ((p ≡ place_of s) × IsSound s)

pub accept-begin :
    (p : Phase) (s : Streamer)
    → Runs p s
    → (accept_all p (begin_response s).1 ≡ place_of (begin_response s).0)
      × IsSound (begin_response s).0
unfolding begin_response accept_all
accept-begin p s (inl (e, f)) = ground arith
accept-begin p s (inr (e, h)) = ground arith

is_text-message_id : (s : String) → is_text ("msg_" <> s) ≡ true
is_text-message_id s = rw (cons-append "m" "sg_" s) refl

abbrev HasText : Streamer → Type 0
HasText s = IsSound s × (s.text_open ≡ true)

Leads-ensure : (drawn : String) → Leads IsSound HasText (ensure_text_open drawn)
unfolding ensure_text_open accept_all
Leads-ensure drawn s h = ground (arith, is_text-message_id drawn)

Leads-send_text : (delta : String) → Leads HasText IsSound (send_text delta)
unfolding send_text accept_all
Leads-send_text delta s (h, o) = ground arith

abbrev pub IsQuiet : Streamer → Type 0
IsQuiet s = IsSound s × (s.text_open ≡ false)

pub Leads-close_open_text : Leads IsSound IsQuiet close_open_text
unfolding close_open_text accept_all
Leads-close_open_text s h = ground (arith, eq_refl (joined s.text_parts))

accept-failed :
    (message err_type : String) (t : Streamer)
    → accept_all (place_of t) (numbered t.seq (failed message err_type) ∷ done_mark ∷ []) ≡ ended
unfolding accept_all
accept-failed message err_type t = ground arith

pub if_false : (b : Bool) (x y : Streamer × List Sent) → b ≡ false → (if b then x else y) ≡ y
if_false true x y e = cc
if_false false x y e = refl

pub if_true : (b : Bool) (x y : Streamer × List Sent) → b ≡ true → (if b then x else y) ≡ x
if_true true x y e = refl
if_true false x y e = cc

-- Whether it stops at a guard or goes on, the client stands where the streamer does.
pub Stands-if :
    (b : Bool) (p : Phase) (s : Streamer) (r : Streamer × List Sent)
    → Stands p s
    → (b ≡ false → Stands (accept_all p r.1) r.0)
    → Stands (accept_all p (if b then (s, []) else r).1) (if b then (s, []) else r).0
unfolding accept_all
Stands-if true p s r h k = h
Stands-if false p s r h k = k refl

abbrev failing : String → String → Step
failing message err_type = begin_response then emit (failed message err_type) then λ t.
    (record t { closed = true }, done_mark ∷ [])

accept-fail_running :
    (message err_type : String) (p : Phase) (s : Streamer)
    → Runs p s
    → s.closed ≡ false
    → accept_all p (fail message err_type s).1 ≡ ended
unfolding fail emit
accept-fail_running message err_type p s h e =
    let t = (begin_response s).0 in
    let es = (begin_response s).1 in
    let last = numbered t.seq (failed message err_type) ∷ done_mark ∷ [] in
    ap (λ r. accept_all p r.1) (if_false s.closed (s, []) (failing message err_type s) e)
    ∙ (ap (accept_all p)
          (append_assoc es (numbered t.seq (failed message err_type) ∷ []) (done_mark ∷ []))
        ∙ (accept_all-append p es last
            ∙ (ap (λ q. accept_all q last) (accept-begin p s h).0
                ∙ accept-failed message err_type t)))

-- What runs while the stream is not closed.
pub Runs-of : (p : Phase) (s : Streamer) → Stands p s → s.closed ≡ false → Runs p s
Runs-of p s (inl h) e = inl h
Runs-of p s (inr (inl h)) e = inr h
Runs-of p s (inr (inr (q, c))) e = cc

-- A failure ends the answer, where it has not ended before.
pub accept-fail :
    (message err_type : String) (p : Phase) (s : Streamer)
    → Stands p s
    → accept_all p (fail message err_type s).1 ≡ ended
unfolding fail accept_all
accept-fail message err_type p s (inl (e, f)) =
    accept-fail_running message err_type p s (inl (e, f)) f.not_closed
accept-fail message err_type p s (inr (inl (e, h))) =
    accept-fail_running message err_type p s (inr (e, h)) h.running
accept-fail message err_type p s (inr (inr (e, c))) = rw (c, e) refl

-- A text delta leaves the client where the streamer stands.
pub Stands-on_text_delta :
    (drawn delta : String) (p : Phase) (s : Streamer)
    → Stands p s
    → Stands (accept_all p (on_text_delta drawn delta s).1) (on_text_delta drawn delta s).0
unfolding on_text_delta accept_all
Stands-on_text_delta drawn delta p s h =
    Stands-if (not (is_text delta) || s.closed) p s
      ((begin_response then ensure_text_open drawn then send_text delta) s) h
      (λ e. inr (
        inl (
          accept-then HasText IsSound p s (begin_response then ensure_text_open drawn)
            (send_text delta)
            (accept-then IsSound HasText p s begin_response (ensure_text_open drawn)
              (accept-begin p s (Runs-of p s h (ground arith))) (Leads-ensure drawn))
            (Leads-send_text delta))))
