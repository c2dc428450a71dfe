-- ===== src/Locks/Tests.antt =====
-- The theorems of the locks at concrete inputs.
use grokcli_2api.Base.{ℕ, suc, ◌+◌, ◌*◌, ◌/◌, ◌≡◌, Bool, true, false, some, leb, arith}
use grokcli_2api.Locks.Election.{Cluster, empty_cluster, acted, tried}
use grokcli_2api.Locks.Slot.{enter_slot, EndsAt, wait_ends}

-- Two workers try: the first gets the lock, the second does not.
abbrev contested : Cluster
contested = acted "w2" (acted "w1" (tried "w2" (tried "w1" empty_cluster)))

-- The slot becomes free a quarter of a second after the wait begins.
abbrev clock : ℕ → ℕ
clock n = 1_000 + 60 * n

abbrev free : ℕ → Bool
free n = leb 1_250 (clock n)

wait_ends_example :
    ((m : ℕ) × EndsAt
        (1_000 + 900)
        clock
        free
        (enter_slot (suc (900 / 50 + 1)) true 900 1_000 clock free)
        m)
    × (enter_slot 1 false 900 1_000 clock free ≡ some (free 0))
wait_ends_example = wait_ends 900 1_000 clock free (omega arith) (λ i. omega arith)
