-- ===== src/Stream/Idle.antt =====
-- Between two calls no tool is open, so that there is none to close.
use grokcli_2api.Base.{
  ℕ, ◌≡◌, refl, Bool, true, not, some, List, [], ◌∷◌, All, is_text, if◌then◌else◌, arith,
}
use grokcli_2api.Stream.Events.{Tool}
use grokcli_2api.Stream.Assembler.{
  Rules, Assembler, get_tool, put_tool, is_open_tool, open_tools, close_tools,
}

-- A tool that is started is stopped, and of another nothing was sent.
abbrev pub is_idle : Tool → Bool
is_idle t = if t.started then t.stopped else not (is_text t.args_sent_text)

abbrev pub AllIdle : List Tool → Type 0
AllIdle ts = All (λ t. is_idle t ≡ true) ts

pub AllIdle-put_tool :
    (t : Tool) (ts : List Tool) → is_idle t ≡ true → AllIdle ts → AllIdle (put_tool t ts)
unfolding put_tool
AllIdle-put_tool t [] h hs = (h, tt)
AllIdle-put_tool t (u ∷ us) h (k, hs) = ground (arith, AllIdle-put_tool t us h hs)

pub open_tools-idle : (ts : List Tool) → AllIdle ts → open_tools ts ≡ []
unfolding open_tools
open_tools-idle [] hs = refl
open_tools-idle (t ∷ ts) (h, hs) = ground (arith, open_tools-idle ts hs)

pub close_tools-idle :
    (rules : Rules) (a : Assembler) → AllIdle a.tools → close_tools rules a ≡ (a, [])
unfolding close_tools
close_tools-idle rules a hs = rw (open_tools-idle a.tools hs) refl

-- A tool that is put in beside idle ones is the only open one.
pub open_tools-put_tool :
    (t : Tool) (ts : List Tool)
    → is_open_tool t ≡ true
    → AllIdle ts
    → open_tools (put_tool t ts) ≡ t ∷ []
unfolding put_tool open_tools
open_tools-put_tool t [] h hs = rw h refl
open_tools-put_tool t (u ∷ us) h (k, hs) =
    ground (arith, open_tools-put_tool t us h hs, open_tools-idle us hs)

-- The second write of a slot replaces the first.
pub put_tool_twice :
    (t u : Tool) (ts : List Tool) → t.index ≡ u.index → put_tool u (put_tool t ts) ≡ put_tool u ts
unfolding put_tool
put_tool_twice t u [] e = ground arith
put_tool_twice t u (v ∷ vs) e = ground (arith, put_tool_twice t u vs e)

pub get_tool_idle :
    (i : ℕ) (ts : List Tool) (t : Tool) → AllIdle ts → get_tool i ts ≡ some t → is_idle t ≡ true
unfolding get_tool
get_tool_idle i [] t hs e = cc
get_tool_idle i (u ∷ us) t (k, hs) e = ground (arith, get_tool_idle i us t hs)
