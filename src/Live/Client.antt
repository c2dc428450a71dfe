-- ===== src/Live/Client.antt =====
-- What a client requires of the frames, written without the streamer: sequence numbers from zero without
-- a gap, the envelope first, items numbered in the order in which they are added, each call in one
-- burst, at most one text item open, one terminal frame, and the end mark behind it.
use grokcli_2api.Base.{
  ℕ, suc, ◌≡◌, refl, String, ◌&&◌, Option, none, some, List, [], ◌∷◌, ◌++◌, ◌==◌, str_eq,
  if◌then◌else◌,
}
use grokcli_2api.Live.Frames.{
  Frame, created, in_progress, message_added, part_added, text_delta, text_done, part_done,
  message_done, call_added, args_delta, args_done, call_done, completed, failed, Sent, numbered,
  done_mark,
}

-- The frame that has to come next, if any: with the item's index, and the text that it repeats.
pub data Await : Type 0 where
  rest progress : Await
  part delta : ℕ → Await
  args_end call_end part_end message_end : ℕ → String → Await

-- `reading` holds the next sequence number, the next item's index, and the open text item.
pub data Phase : Type 0 where
  before finishing ended broken : Phase
  reading : ℕ → ℕ → Option ℕ → Await → Phase

unfoldable pub react : ℕ → ℕ → Option ℕ → Await → Frame → Phase
react n m t progress in_progress = reading n m t rest
react n m none rest (message_added i id) =
    if i == m then reading n (suc m) (some i) (part i) else broken
react n m t (part i) (part_added j id) = if i == j then reading n m t rest else broken
react n m (some i) rest (text_delta j id s) = if i == j then reading n m (some i) rest else broken
react n m t rest (call_added i id call name) =
    if i == m then reading n (suc m) t (delta i) else broken
react n m t (delta i) (args_delta j id s) = if i == j then reading n m t (args_end i s) else broken
react n m t (args_end i s) (args_done j id u) =
    if i == j && str_eq s u then reading n m t (call_end i s) else broken
react n m t (call_end i s) (call_done j id call name u) =
    if i == j && str_eq s u then reading n m t rest else broken
react n m (some i) rest (text_done j id s) =
    if i == j then reading n m (some i) (part_end i s) else broken
react n m t (part_end i s) (part_done j id u) =
    if i == j && str_eq s u then reading n m t (message_end i s) else broken
react n m t (message_end i s) (message_done j id u) =
    if i == j && str_eq s u then reading n m none rest else broken
react n m none rest (completed (x ∷ xs)) = finishing
react n m t rest (failed message err_type) = finishing
react n m t w f = broken

unfoldable pub accept : Phase → Sent → Phase
unfolding react
accept before (numbered k created) = if k == 0 then reading 1 0 none progress else broken
accept (reading n m t w) (numbered k f) = if n == k then react (suc n) m t w f else broken
accept finishing done_mark = ended
accept p e = broken

unfoldable pub accept_all : Phase → List Sent → Phase
unfolding accept
accept_all p [] = p
accept_all p (e ∷ es) = accept_all (accept p e) es

pub accept_all-append :
    (p : Phase) (es fs : List Sent) → accept_all p (es ++ fs) ≡ accept_all (accept_all p es) fs
unfolding accept_all
accept_all-append p [] fs = refl
accept_all-append p (e ∷ es) fs = accept_all-append (accept p e) es fs
