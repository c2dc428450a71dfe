-- ===== src/Locks/Slot.antt =====
-- The waiting of `redis_maintenance_slot` (grok2api/store/locks_redis.py). What `set_nx_ex` answers to
-- each attempt and what the clock shows after it are arguments; times are milliseconds, and the loop
-- runs on fuel.
use grokcli_2api.Base.{
  ℕ, zero, suc, ◌+◌, ◌*◌, ◌/◌, ◌≤◌, ◌<◌, ◌≡◌, ◌⊎◌, refl, max, Bool, true, false, not, String,
  Option, none, some, leb, ◌==◌, if◌then◌else◌, Bool-cases, inl, inr, arith,
}
use mathlib.Core.Path.{subst}
use grokcli_2api.Locks.Leader.{compare_and_delete}

-- `ttl`, in seconds, for a timeout in milliseconds
unfoldable pub slot_ttl : ℕ → ℕ
slot_ttl timeout = max 5 (if timeout == 0 then 60 else timeout / 1_000)

-- The loop from attempt n on, until the slot is taken or given up.
unfoldable pub wait_slot : ℕ → Bool → ℕ → (ℕ → ℕ) → (ℕ → Bool) → ℕ → Option Bool
wait_slot zero blocking deadline clock answer n = none
wait_slot (suc fuel) blocking deadline clock answer n =
    let rest = wait_slot fuel blocking deadline clock answer (n + 1) in
    if answer n
    then some true
    else if not blocking
    then some false
    else if leb deadline (clock n)
    then some false
    else rest

-- What is yielded: whether the slot was acquired.
unfoldable pub enter_slot : ℕ → Bool → ℕ → ℕ → (ℕ → ℕ) → (ℕ → Bool) → Option Bool
unfolding wait_slot
enter_slot fuel blocking timeout begun clock answer =
    wait_slot fuel blocking (begun + (if blocking then timeout else 0)) clock answer 0

-- The `finally` clause, on the lock's value.
unfoldable pub leave_slot : String → Option String → Option String
unfolding compare_and_delete
leave_slot token lock = compare_and_delete token lock

module _ (deadline : ℕ) (clock : ℕ → ℕ) (answer : ℕ → Bool) where
  -- The attempts from n up to m fail before the deadline, and m ends the waiting.
  abbrev Ends : ℕ → ℕ → Option Bool → Type 0
  Ends n m o =
      ((i : ℕ) → n ≤ i → i < m → (answer i ≡ false) × (clock i < deadline))
      × (((answer m ≡ true) × (o ≡ some true))
          ⊎ ((answer m ≡ false) × (deadline ≤ clock m) × (o ≡ some false)))

  extend :
      (n m : ℕ) (o : Option Bool)
      → answer n ≡ false
      → clock n < deadline
      → Ends (n + 1) m o
      → Ends n m o
  extend n m o busy early (before, end) = (
    λ i low high. elim (eq_or_lt n i low) [
      | inl same ↦ subst (λ k. (answer k ≡ false) × (clock k < deadline)) same (busy, early)
      | inr above ↦ before i above high
    ],
    end,
  )
    where
      eq_or_lt : (a b : ℕ) → a ≤ b → (a ≡ b) ⊎ (a + 1 ≤ b)
      eq_or_lt a b h = omega arith

  -- One attempt, with what the rest of the loop answers if it goes on.
  attempt :
      (n fuel : ℕ)
      → (clock n < deadline
          → (m : ℕ) × Ends (n + 1) m (wait_slot fuel true deadline clock answer (n + 1)))
      → (m : ℕ) × Ends n m (wait_slot (suc fuel) true deadline clock answer n)
  unfolding wait_slot
  attempt n fuel more = elim (Bool-cases (answer n)) [
    | inl taken ↦ rw taken (n, ((λ i low high. absurd (omega arith)), inl (taken, refl)))
    | inr busy ↦ rw busy (elim (Bool-cases (leb deadline (clock n))) [
      | inl late ↦
          rw late (n, ((λ i low high. absurd (omega arith)), inr (busy, ground arith, refl)))
      | inr early ↦ rw early (further busy (ground arith))
    ])
  ]
    where
      further :
          answer n ≡ false
          → clock n < deadline
          → (m : ℕ) × Ends n m (wait_slot fuel true deadline clock answer (n + 1))
      further busy early =
          let (m, end) = more early in
          (m, extend n m (wait_slot fuel true deadline clock answer (n + 1)) busy early end)

  ends :
      (fuel n : ℕ)
      → ((i : ℕ) → clock i + 50 ≤ clock (i + 1))
      → deadline ≤ clock n + 50 * fuel
      → (m : ℕ) × Ends n m (wait_slot (suc fuel) true deadline clock answer n)
  ends zero n sleeps near = attempt n zero (λ early. absurd (omega arith))
  ends (suc fuel) n sleeps near =
      attempt n (suc fuel) (λ early. ends fuel (n + 1) sleeps (omega (arith, sleeps n)))

-- Attempt m ends a wait that yields `o`: all earlier attempts are busy and before the deadline, and it
-- either takes the slot, or is busy at or after the deadline.
abbrev pub EndsAt : ℕ → (ℕ → ℕ) → (ℕ → Bool) → Option Bool → ℕ → Type 0
EndsAt deadline clock answer o m =
    ((i : ℕ) → i < m → (answer i ≡ false) × (clock i < deadline))
    × (((answer m ≡ true) × (o ≡ some true))
        ⊎ ((answer m ≡ false) × (deadline ≤ clock m) × (o ≡ some false)))

single : (b : Bool) → (if b then some true else some false) ≡ some b
single true = refl
single false = refl

blocking_ends :
    (timeout begun : ℕ) (clock : ℕ → ℕ) (answer : ℕ → Bool)
    → begun ≤ clock 0
    → ((i : ℕ) → clock i + 50 ≤ clock (i + 1))
    → (m : ℕ) × EndsAt
        (begun + timeout)
        clock
        answer
        (enter_slot (suc (timeout / 50 + 1)) true timeout begun clock answer)
        m
unfolding enter_slot
blocking_ends timeout begun clock answer started sleeps =
    let (m, end) = ends (begun + timeout) clock answer (timeout / 50 + 1) 0 sleeps (omega arith) in
    (m, ((λ i high. end.0 i (omega arith) high), end.1))

-- Where each sleep lasts 50 milliseconds or more, every wait for the slot ends. A blocking one, with
-- fuel for one attempt in every 50 milliseconds of the timeout and two more, ends at some attempt: all
-- earlier attempts are busy and before the deadline, and that one either takes the slot, and true is
-- yielded, or is busy at or after the deadline, and false is. A wait that does not block yields the
-- answer of its only attempt.
pub wait_ends :
    (timeout begun : ℕ) (clock : ℕ → ℕ) (answer : ℕ → Bool)
    → begun ≤ clock 0
    → ((i : ℕ) → clock i + 50 ≤ clock (i + 1))
    → ((m : ℕ) × EndsAt
          (begun + timeout)
          clock
          answer
          (enter_slot (suc (timeout / 50 + 1)) true timeout begun clock answer)
          m)
      × (enter_slot 1 false timeout begun clock answer ≡ some (answer 0))
unfolding enter_slot wait_slot
wait_ends timeout begun clock answer started sleeps =
    (blocking_ends timeout begun clock answer started sleeps, single (answer 0))
