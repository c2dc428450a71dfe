-- ===== src/Ready/Publish.antt =====
-- The state events of grok2api/store/events_redis.py, as far as they touch the index: the counter
-- of an account's versions, and the patch that is applied to the index before its event is queued.
use grokcli_2api.Base.{
  ℕ, ◌+◌, String, Bool, true, false, Option, none, some, is_text, ◌==◌, if◌then◌else◌,
}
use grokcli_2api.Ready.Status.{Env, Meta}
use grokcli_2api.Ready.SortedSet.{SortedSet}
use grokcli_2api.Ready.Index.{Index, set_at, apply_status_patch, apply_success_sequence}

-- `account_state` and `account_stats` payloads
pub data Event : Type 0 where
  account_state : String → ℕ → Meta → Event
  account_stats : String → Bool → ℕ → ℕ → Event

module _ (S : SortedSet) where
  -- `next_state_sequence`: `INCR` on the counter of the account, zero for an empty id.
  unfoldable pub next_state_sequence : String → Index S → ℕ × Index S
  unfolding set_at
  next_state_sequence account idx =
      if is_text account
      then (
        idx.floor account + 1,
        record idx { floor = set_at account (idx.floor account + 1) idx.floor },
      )
      else (0, idx)

  -- `state_seq or next_state_sequence(account_id) or 0`
  unfoldable pub choose_seq : String → Option ℕ → Index S → ℕ × Index S
  unfolding next_state_sequence
  choose_seq account none idx = next_state_sequence account idx
  choose_seq account (some n) idx = if n == 0 then next_state_sequence account idx else (n, idx)

  unfoldable pub publish_numbered : Env → String → Meta → ℕ × Index S → Option Event × Index S
  unfolding apply_status_patch
  publish_numbered env account patch (seq, idx) = (
    some (account_state account seq patch),
    apply_status_patch S env account patch (some seq) idx,
  )

  -- `publish_account_state`: the event for the queue, and the index after it.
  unfoldable pub publish_account_state :
      Env → String → Meta → Option ℕ → Index S → Option Event × Index S
  unfolding choose_seq publish_numbered
  publish_account_state env account patch state_seq idx =
      if is_text account
      then publish_numbered env account patch (choose_seq account state_seq idx)
      else (none, idx)

  unfoldable pub publish_success : ℕ → String → ℕ × Index S → Option Event × Index S
  unfolding apply_success_sequence
  publish_success occurred_at account (seq, idx) =
      (some (account_stats account true seq occurred_at), apply_success_sequence S account seq idx)

  -- `publish_account_stats`
  unfoldable pub publish_account_stats : ℕ → String → Bool → Index S → Option Event × Index S
  unfolding publish_success next_state_sequence
  publish_account_stats occurred_at account success idx =
      if is_text account
      then (if success
          then publish_success occurred_at account (next_state_sequence account idx)
          else (some (account_stats account false 0 occurred_at), idx))
      else (none, idx)
