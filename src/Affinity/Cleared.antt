-- ===== src/Affinity/Cleared.antt =====
-- After the pins of an account are cleared, no conversation is sent to it until it is bound again.
use grokcli_2api.Base.{
  ℕ, ◌≡◌, ◌≢◌, String, true, false, Option, none, some, is_text, str_eq, eq_iff, arith,
}
use grokcli_2api.Base.Dict
use grokcli_2api.Affinity.Pins.{
  Pin, Pins, PinRules, get_affinity_entry, get_affinity, bind_affinity, clear_affinity,
  without_account, clear_affinity_for_account, rebind_on_failover,
}
use grokcli_2api.Affinity.Unpinned.{
  IsUnpinned, IsAvoided, IsAvoided-get_affinity_entry, IsUnpinned-bind_affinity,
  IsUnpinned-rebind_on_failover, IsUnpinned-of, IsUnpinned-if, IsUnpinned-remove,
  IsUnpinned-without_account, clear_affinity_for_account-IsUnpinned,
}

-- Every operation that pins no conversation to the account: a look-up, a binding or a failover to
-- another account, and a clearing of a fingerprint or of any account. A failover that others interrupt
-- is its look-up, their steps, and its binding.
pub data Step (rules : PinRules) (account : String) (m : Pins) : Pins → Type 0 where
  looks : (now : ℕ) (fp : String) → Step rules account m (get_affinity_entry rules now fp m).0
  binds :
      (now : ℕ) (fp other session key : String)
      → str_eq other account ≡ false
      → Step rules account m (bind_affinity rules now fp other session key m)
  fails_over :
      (now bound : ℕ) (fp failed other session : String)
      → str_eq other account ≡ false
      → Step rules account m
          (rebind_on_failover rules now bound fp failed other session (λ n. n) (λ n. n) m)
  clears : (fp : String) → Step rules account m (clear_affinity fp m)
  clears_account : (other : String) → Step rules account m (clear_affinity_for_account other m)

pub data Reach (rules : PinRules) (account : String) (m : Pins) : Pins → Type 0 where
  here : Reach rules account m m
  next : {n o : Pins} → Reach rules account m n → Step rules account n o → Reach rules account m o

IsUnpinned-Step :
    {rules : PinRules} {account : String} {m n : Pins}
    → Step rules account m n
    → IsUnpinned account m
    → IsUnpinned account n
unfolding clear_affinity clear_affinity_for_account
IsUnpinned-Step {rules} {account} {m} (looks now fp) h =
    IsUnpinned-of account (get_affinity_entry rules now fp m)
      (IsAvoided-get_affinity_entry account rules now fp m h)
IsUnpinned-Step {rules} {account} {m} (binds now fp other session key e) h =
    IsUnpinned-bind_affinity account rules now fp other session key m e h
IsUnpinned-Step {rules} {account} {m} (fails_over now bound fp failed other session e) h =
    IsUnpinned-rebind_on_failover account rules now bound fp failed other session (λ n. n) (λ n. n)
      m e (λ n k. k) (λ n k. k) h
IsUnpinned-Step {rules} {account} {m} (clears fp) h =
    IsUnpinned-if account (is_text fp) (Dict.remove fp m) m (IsUnpinned-remove account fp m h) h
IsUnpinned-Step {rules} {account} {m} (clears_account other) h =
    IsUnpinned-if account (is_text other) (without_account other m) m
      (IsUnpinned-without_account account other m h) h

IsUnpinned-Reach :
    {rules : PinRules} {account : String} {m n : Pins}
    → IsUnpinned account m
    → Reach rules account m n
    → IsUnpinned account n
IsUnpinned-Reach h here = h
IsUnpinned-Reach h (next r step) = IsUnpinned-Step step (IsUnpinned-Reach h r)

answer_avoids :
    (account : String) (r : Pins × Option Pin)
    → IsAvoided account r
    → elim r.1 [ none ↦ none | some p ↦ some p.account_id ] ≢ some account
answer_avoids account (m, none) h = λ e. cc
answer_avoids account (m, some p) h = λ e. ground (arith, eq_iff p.account_id account, h.1)

-- After the pins of an account are cleared, no look-up answers the account, whatever operations come
-- between that pin no conversation to it.
pub cleared_stays_unpinned :
    (rules : PinRules) (account : String) (m n : Pins)
    → is_text account ≡ true
    → Reach rules account (clear_affinity_for_account account m) n
    → (now : ℕ) (fp : String) → get_affinity rules now fp n ≢ some account
unfolding get_affinity
cleared_stays_unpinned rules account m n named run now fp =
    answer_avoids account (get_affinity_entry rules now fp n) (
      IsAvoided-get_affinity_entry account rules now fp n
        (IsUnpinned-Reach (clear_affinity_for_account-IsUnpinned account m named) run))
