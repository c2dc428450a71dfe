-- ===== src/Ready/Claiming.antt =====
-- Which account a claim takes, and what the operations on leases leave as it was.
use grokcli_2api.Base.{
  ℕ, ◌+◌, ◌*◌, ◌≤◌, ◌<◌, ◌≡◌, refl, sym, ◌⊎◌, String, Bool, true, false, Option, none, some, List,
  [], ◌∷◌, All, ltb, leb, is_text, Bool-cases, inl, inr, eq_iff, arith, ltb→lt,
}
use mathlib.Core.Path.{subst}
use grokcli_2api.Ready.Status.{Env}
use grokcli_2api.Ready.SortedSet.{SortedSet}
use grokcli_2api.Ready.Index.{
  Index, first_free, lease, claim, claim_found, claim_preferred, take_lease,
}
use grokcli_2api.Ready.Placing.{member, member-zadd, member-zincrby, is_placed}

-- Every account of the list has taken all its slots.
abbrev pub AllFull : ℕ → (String → ℕ) → List String → Type 0
AllFull cap leases ids = All (λ a. cap ≤ leases a) ids

-- The account is the first of the list with a free slot.
abbrev pub IsFirstFree : ℕ → (String → ℕ) → List String → String → Type 0
IsFirstFree cap leases [] a = ⊥
IsFirstFree cap leases (b ∷ ids) a =
    ((a ≡ b) × (leases a < cap)) ⊎ ((cap ≤ leases b) × IsFirstFree cap leases ids a)

-- What the answer of `first_free` says of the list.
abbrev pub Picked : ℕ → (String → ℕ) → List String → Option String → Type 0
Picked cap leases ids none = AllFull cap leases ids
Picked cap leases ids (some a) = IsFirstFree cap leases ids a

full-cons :
    (cap : ℕ) (leases : String → ℕ) (b : String) (ids : List String) (o : Option String)
    → cap ≤ leases b
    → Picked cap leases ids o
    → Picked cap leases (b ∷ ids) o
full-cons cap leases b ids none full rest = (full, rest)
full-cons cap leases b ids (some a) full rest = inr (full, rest)

pub Picked-first_free :
    (cap : ℕ) (leases : String → ℕ) (ids : List String)
    → Picked cap leases ids (first_free cap leases ids)
unfolding first_free
Picked-first_free cap leases [] = tt
Picked-first_free cap leases (b ∷ ids) = elim (Bool-cases (ltb (leases b) cap)) [
  | inl free ↦ rw free (inl (refl, ltb→lt (leases b) cap free))
  | inr full ↦ rw full (
      full-cons cap leases b ids (first_free cap leases ids) (ground arith)
        (Picked-first_free cap leases ids))
]

pub first_free-lt :
    (cap : ℕ) (leases : String → ℕ) (ids : List String) (a : String)
    → IsFirstFree cap leases ids a
    → leases a < cap
first_free-lt cap leases [] a h = elim h [ ]
first_free-lt cap leases (b ∷ ids) a (inl (same, free)) = free
first_free-lt cap leases (b ∷ ids) a (inr (full, rest)) = first_free-lt cap leases ids a rest

pub first_free-All :
    (P : String → Type 0) (cap : ℕ) (leases : String → ℕ) (ids : List String) (a : String)
    → IsFirstFree cap leases ids a
    → All P ids
    → P a
first_free-All P cap leases [] a h all = elim h [ ]
first_free-All P cap leases (b ∷ ids) a (inl (same, free)) (p, all) = subst P (sym same) p
first_free-All P cap leases (b ∷ ids) a (inr (full, rest)) (p, all) =
    first_free-All P cap leases ids a rest all

module _ (S : SortedSet) where
  -- A lease of an account of the ready set moves no account between the sets.
  pub placed-lease :
      (env : Env) (least_used : Bool) (account : String) (idx : Index S) (a : String)
      → member S account idx.ready ≡ true
      → is_placed S idx a ≡ true
      → is_placed S (lease S env least_used account idx) a ≡ true
  unfolding lease is_placed
  placed-lease env true account idx a there h =
      rw (member-zincrby S account a 1_000 idx.ready) (ground (arith, eq_iff account a))
  placed-lease env false account idx a there h =
      rw (member-zadd S account a (env.now + idx.leases account * 1_000) idx.ready)
        (ground (arith, eq_iff account a))

  placed-found :
      (env : Env) (least_used : Bool) (idx : Index S) (o : Option String) (a : String)
      → Picked env.max_inflight idx.leases (S.zrange 64 idx.ready) o
      → is_placed S idx a ≡ true
      → is_placed S (claim_found S env least_used o idx).1 a ≡ true
  unfolding claim_found
  placed-found env least_used idx none a picked h = h
  placed-found env least_used idx (some account) a picked h =
      placed-lease env least_used account idx a
        (first_free-All (λ k. member S k idx.ready ≡ true) env.max_inflight idx.leases
          (S.zrange 64 idx.ready) account picked (S.zrange_members 64 idx.ready))
        h

  pub placed-claim :
      (env : Env) (least_used : Bool) (idx : Index S) (a : String)
      → is_placed S idx a ≡ true
      → is_placed S (claim S env least_used idx).1 a ≡ true
  unfolding claim
  placed-claim env least_used idx a h =
      placed-found env least_used idx
        (first_free env.max_inflight idx.leases (S.zrange 64 idx.ready)) a
        (Picked-first_free env.max_inflight idx.leases (S.zrange 64 idx.ready)) h

  placed-take_lease :
      (env : Env) (least_used : Bool) (account : String) (idx : Index S) (a : String)
      → member S account idx.ready ≡ true
      → is_placed S idx a ≡ true
      → is_placed S (take_lease S env least_used account idx).1 a ≡ true
  unfolding take_lease
  placed-take_lease env least_used account idx a there h =
      elim (Bool-cases (leb env.max_inflight (idx.leases account))) [
        | inl full ↦ rw full h
        | inr free ↦ rw free (placed-lease env least_used account idx a there h)
      ]

  pub placed-claim_preferred :
      (env : Env) (least_used : Bool) (account : String) (idx : Index S) (a : String)
      → is_placed S idx a ≡ true
      → is_placed S (claim_preferred S env least_used account idx).1 a ≡ true
  unfolding claim_preferred
  placed-claim_preferred env least_used account idx a h = elim (Bool-cases (is_text account)) [
    | inr nameless ↦ rw nameless h
    | inl named ↦ rw named (elim (Bool-cases (member S account idx.ready)) [
      | inl there ↦ rw there (placed-take_lease env least_used account idx a there h)
      | inr gone ↦ rw gone h
    ])
  ]
