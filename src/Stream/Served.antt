-- ===== src/Stream/Served.antt =====
-- A whole answer as the client reads it.
use grokcli_2api.Base.{ℕ, ◌≡◌, refl, inl, String, true, List, [], ◌∷◌, is_text}
use grokcli_2api.Stream.Events.{Piece, Usage}
use grokcli_2api.Stream.Assembler.{Rules, Assembler, Step, ◌then◌, new_assembler, feed, finish}
use grokcli_2api.Stream.Client.{Phase, before, ended, accept_all, accept_all-append}
use grokcli_2api.Stream.Feeding.{Stands, Stands-feed}
use grokcli_2api.Stream.Ending.{accept-finish}

-- A chunk of the upstream: its text, its thought and its pieces of tool calls.
pub record Chunk : Type 0 where
  pub content : String
  pub reasoning : String
  pub tool_calls : List Piece

-- `feed` for each chunk
unfoldable pub feed_all : Rules → List Chunk → Step
unfolding feed
feed_all rules [] a = (a, [])
feed_all rules (c ∷ cs) a = (feed rules c.content c.reasoning c.tool_calls then feed_all rules cs) a

Stands-feed_all :
    (rules : Rules) (cs : List Chunk) (p : Phase) (a : Assembler)
    → Stands p a
    → Stands (accept_all rules.is_complete p (feed_all rules cs a).1) (feed_all rules cs a).0
unfolding feed_all accept_all
Stands-feed_all rules [] p a h = h
Stands-feed_all rules (c ∷ cs) p a h =
    let fed = feed rules c.content c.reasoning c.tool_calls a in
    rw (accept_all-append rules.is_complete p fed.1 (feed_all rules cs fed.0).1) (
      Stands-feed_all rules cs (accept_all rules.is_complete p fed.1) fed.0
        (Stands-feed rules c.content c.reasoning c.tool_calls p a h))

-- Whatever chunks the upstream sends, the client accepts every event up to the end of the message:
-- the message starts once and stops once, one content block is open at a time, the blocks are
-- numbered from zero without a gap, each delta is of the open block, and the input of each tool call
-- is complete for the tool's name when its block is closed. The test that arguments are complete is
-- taken to refuse blank ones.
pub answer_accepted :
    (rules : Rules)
    → ((name args : String)
        → rules.is_complete name args ≡ true
        → is_text (rules.strip args) ≡ true)
    → (cs : List Chunk) (reason : String) (usage : Usage) (tokens : ℕ)
    → accept_all rules.is_complete before
        ((feed_all rules cs then finish rules reason usage tokens) new_assembler).1
      ≡ ended
answer_accepted rules has_text cs reason usage tokens =
    let fed = feed_all rules cs new_assembler in
    rw (accept_all-append rules.is_complete before fed.1 (finish rules reason usage tokens fed.0).1)
      (accept-finish rules has_text reason usage tokens (accept_all rules.is_complete before fed.1)
        fed.0
        (Stands-feed_all rules cs before new_assembler (
          inl (
            refl,
            record {
              not_started = refl;
              at_zero = refl;
              nothing_thought = refl;
              nothing_written = refl;
              nothing_called = tt;
            },
          ))))
