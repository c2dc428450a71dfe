-- ===== src/Ready/Served.antt =====
-- What a claim of the index promises its caller.
use grokcli_2api.Base.{
  ℕ, ◌+◌, ◌<◌, ◌≡◌, refl, String, Bool, true, false, not, ◌&&◌, ◌||◌, Option, none, some, List,
  str_eq, if◌then◌else◌, eq_iff, arith,
}
use mathlib.Core.Path.{subst}
use grokcli_2api.Ready.Status.{Env, is_open}
use grokcli_2api.Ready.SortedSet.{SortedSet}
use grokcli_2api.Ready.Index.{Index, set_at, meta_of, first_free, lease, claim, claim_found}
use grokcli_2api.Ready.Placing.{member, is_placed}
use grokcli_2api.Ready.Claiming.{
  IsFirstFree, Picked, Picked-first_free, first_free-lt, first_free-All,
}
use grokcli_2api.Ready.Runs.{Reach, IsSound-Reach}

-- The leases that an answer adds to an account.
abbrev pub granted : Option String → String → ℕ
granted none a = 0
granted (some b) a = if str_eq b a then 1 else 0

module _ (S : SortedSet) where
  -- The accounts that one claim looks at.
  abbrev pub front : Index S → List String
  front idx = S.zrange 64 idx.ready

  leases-found :
      (env : Env) (least_used : Bool) (o : Option String) (idx : Index S) (b : String)
      → (claim_found S env least_used o idx).1.leases b ≡ idx.leases b + granted o b
  unfolding claim_found lease set_at
  leases-found env least_used none idx b = omega arith
  leases-found env least_used (some a) idx b = ground (arith, eq_iff a b)

  outcome-found :
      (env : Env) (least_used : Bool) (o : Option String) (idx : Index S)
      → Picked env.max_inflight idx.leases (front idx) o
      → Picked env.max_inflight idx.leases (front idx) (claim_found S env least_used o idx).0
        × ((b : String)
            → (claim_found S env least_used o idx).1.leases b
              ≡ idx.leases b + granted (claim_found S env least_used o idx).0 b)
        × ((claim_found S env least_used o idx).1.status ≡ idx.status)
        × ((claim_found S env least_used o idx).1.cooldown ≡ idx.cooldown)
  unfolding claim_found lease
  outcome-found env least_used none idx picked =
      (picked, leases-found env least_used none idx, refl, refl)
  outcome-found env least_used (some a) idx picked =
      (picked, leases-found env least_used (some a) idx, refl, refl)

  -- A claim answers none exactly when each of the first 64 ready accounts has all its slots taken, and
  -- else the first of them with a free slot; it adds one lease to that account and none to another, and
  -- leaves the stored statuses and the cooldown set as they are.
  pub claim_outcome :
      (env : Env) (least_used : Bool) (idx : Index S)
      → Picked env.max_inflight idx.leases (front idx) (claim S env least_used idx).0
        × ((b : String)
            → (claim S env least_used idx).1.leases b
              ≡ idx.leases b + granted (claim S env least_used idx).0 b)
        × ((claim S env least_used idx).1.status ≡ idx.status)
        × ((claim S env least_used idx).1.cooldown ≡ idx.cooldown)
  unfolding claim
  claim_outcome env least_used idx =
      outcome-found env least_used (first_free env.max_inflight idx.leases (front idx)) idx
        (Picked-first_free env.max_inflight idx.leases (front idx))

  -- Along every run of the index an account of the ready set is not in the cooldown set, and its stored
  -- status is neither switched off, nor disabled for quota, nor expired, nor cooling.
  pub sets_apart :
      {cap : ℕ} (idx : Index S)
      → Reach S cap idx
      → (a : String) → member S a idx.ready ≡ true
      → (member S a idx.cooldown ≡ false) × (is_open (meta_of (idx.status a)) ≡ true)
  unfolding is_placed
  sets_apart idx r a there =
      parts (member S a idx.ready) (member S a idx.cooldown) (is_open (meta_of (idx.status a)))
        there (IsSound-Reach S r a)
    where
      parts : (p q o : Bool) → p ≡ true → (not p || (not q && o)) ≡ true → (q ≡ false) × (o ≡ true)
      parts p q o h k = ground arith

  -- Along every run of the index the account that a claim answers has a free slot, is not in the
  -- cooldown set, and has a status that is neither switched off, nor disabled for quota, nor expired,
  -- nor cooling.
  pub claim_serves :
      {cap : ℕ} (idx : Index S)
      → Reach S cap idx
      → (env : Env) (least_used : Bool) (a : String) → env.max_inflight ≡ cap
      → (claim S env least_used idx).0 ≡ some a
      → (idx.leases a < cap)
        × (member S a idx.cooldown ≡ false)
        × (is_open (meta_of (idx.status a)) ≡ true)
  claim_serves {cap} idx r env least_used a bound answer = (
    subst (λ n. idx.leases a < n) bound
        (first_free-lt env.max_inflight idx.leases (front idx) a first),
    (sets_apart idx r a there).0,
    (sets_apart idx r a there).1,
  )
    where
      first : IsFirstFree env.max_inflight idx.leases (front idx) a
      first =
          subst (Picked env.max_inflight idx.leases (front idx)) answer
            (claim_outcome env least_used idx).0

      there : member S a idx.ready ≡ true
      there =
          first_free-All (λ k. member S k idx.ready ≡ true) env.max_inflight idx.leases (front idx)
            a first (S.zrange_members 64 idx.ready)
