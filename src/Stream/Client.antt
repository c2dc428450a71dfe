-- ===== src/Stream/Client.antt =====
-- What a client requires of a stream: an independent reading of the events, with one content block
-- open at a time, numbered from zero, a message that starts and stops once, and tool calls whose
-- input is complete when their block is closed.
use grokcli_2api.Base.{
  ℕ, suc, ◌≡◌, refl, String, Bool, ◌&&◌, List, [], ◌∷◌, ◌++◌, ◌<>◌, ◌==◌, if◌then◌else◌,
}
use grokcli_2api.Stream.Events.{
  StreamEvent, message_start, block_start_text, block_start_thinking, block_start_tool, text_delta,
  thinking_delta, input_json_delta, block_stop, message_delta, message_stop,
}

-- Before the message; between blocks, with the next index; inside a text, a thought or a tool call,
-- with its name and the input so far; after the last block; after the message; and refused.
pub data Phase : Type 0 where
  before ending ended broken : Phase
  between writing thinking : ℕ → Phase
  calling : ℕ → String → String → Phase

abbrev pub expect : ℕ → ℕ → Phase → Phase
expect n i p = if n == i then p else broken

-- `is_complete name input` tells whether an input is one for the tool.
module _ (is_complete : String → String → Bool) where
  unfoldable pub accept : Phase → StreamEvent → Phase
  accept before (message_start n) = between 0
  accept (between n) (block_start_text i) = expect n i (writing n)
  accept (between n) (block_start_thinking i) = expect n i (thinking n)
  accept (between n) (block_start_tool i id name) = expect n i (calling n name "")
  accept (between n) (message_delta stop out input read creation) = ending
  accept (writing n) (text_delta i s) = expect n i (writing n)
  accept (writing n) (block_stop i) = expect n i (between (suc n))
  accept (thinking n) (thinking_delta i s) = expect n i (thinking n)
  accept (thinking n) (block_stop i) = expect n i (between (suc n))
  accept (calling n name input) (input_json_delta i s) = expect n i (calling n name (input <> s))
  accept (calling n name input) (block_stop i) =
      if n == i && is_complete name input then between (suc n) else broken
  accept ending message_stop = ended
  accept p e = broken

  unfoldable pub accept_all : Phase → List StreamEvent → Phase
  unfolding accept
  accept_all p [] = p
  accept_all p (e ∷ es) = accept_all (accept p e) es

  pub accept_all-append :
      (p : Phase) (es fs : List StreamEvent)
      → accept_all p (es ++ fs) ≡ accept_all (accept_all p es) fs
  unfolding accept_all
  accept_all-append p [] fs = refl
  accept_all-append p (e ∷ es) fs = accept_all-append (accept p e) es fs
