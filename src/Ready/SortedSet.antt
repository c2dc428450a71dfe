-- ===== src/Ready/SortedSet.antt =====
-- Redis' sorted sets of texts, as grok2api/store/ready_redis.py uses them: a parameter, with the laws
-- of the Redis documentation that the index relies on.
use grokcli_2api.Base.{
  ℕ, ◌+◌, ◌≡◌, String, true, Option, none, some, List, All, get_or, is_some, str_eq, if◌then◌else◌,
}

pub record SortedSet : Type 1 where
  pub Set : Type 0
  pub empty : Set
  pub zscore : String → Set → Option ℕ
  pub zadd : String → ℕ → Set → Set
  pub zrem : String → Set → Set
  pub zincrby : String → ℕ → Set → Set
  -- the first n members, by score
  pub zrange : ℕ → Set → List String
  -- at most n members of a score up to the bound
  pub zrangebyscore : ℕ → ℕ → Set → List String
  pub zcard : Set → ℕ
  pub zscore-empty : (j : String) → zscore j empty ≡ none
  pub zscore-zadd :
      (k j : String) (n : ℕ) (z : Set)
      → zscore j (zadd k n z) ≡ (if str_eq k j then some n else zscore j z)
  pub zscore-zrem :
      (k j : String) (z : Set) → zscore j (zrem k z) ≡ (if str_eq k j then none else zscore j z)
  pub zscore-zincrby :
      (k j : String) (n : ℕ) (z : Set)
      → zscore j (zincrby k n z)
        ≡ (if str_eq k j then some (get_or (zscore k z) 0 + n) else zscore j z)
  pub zrange_members : (n : ℕ) (z : Set) → All (λ k. is_some (zscore k z) ≡ true) (zrange n z)
