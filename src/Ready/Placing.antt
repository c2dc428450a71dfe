-- ===== src/Ready/Placing.antt =====
-- Where an account stands after its status was written: in at most one of the two sets, and in the
-- ready set only with an open status.
use grokcli_2api.Base.{
  ℕ, ◌+◌, max, eq_refl, ◌≡◌, refl, String, Bool, true, false, not, ◌&&◌, ◌||◌, Option, some, List,
  [], ◌∷◌, is_some, str_eq, Bool-cases, inl, inr, eq_iff, arith,
}
use grokcli_2api.Base.Dict
use grokcli_2api.Ready.Status.{
  Env, Meta, is_open, status_active, field, score, cooling_until, is_cooling, stamp, reset_streak,
}
use grokcli_2api.Ready.SortedSet.{SortedSet}
use grokcli_2api.Ready.Index.{
  Index, year, set_at, meta_of, enlist, set_status, delist, put_status, zrem_all,
}

module _ (S : SortedSet) where
  abbrev pub member : String → S.Set → Bool
  member j z = is_some (S.zscore j z)

  pub member-zadd :
      (k j : String) (n : ℕ) (z : S.Set) → member j (S.zadd k n z) ≡ (str_eq k j || member j z)
  member-zadd k j n z = rw (S.zscore-zadd k j n z) ground arith

  pub member-zrem :
      (k j : String) (z : S.Set) → member j (S.zrem k z) ≡ (not (str_eq k j) && member j z)
  member-zrem k j z = rw (S.zscore-zrem k j z) ground arith

  pub member-zincrby :
      (k j : String) (n : ℕ) (z : S.Set) → member j (S.zincrby k n z) ≡ (str_eq k j || member j z)
  member-zincrby k j n z = rw (S.zscore-zincrby k j n z) ground arith

  pub member-empty : (j : String) → member j S.empty ≡ false
  member-empty j = rw (S.zscore-empty j) refl

  -- An account in the ready set is not in the cooldown set, and its status is open.
  unfoldable pub is_placed : Index S → String → Bool
  is_placed idx a =
      not (member a idx.ready) || (not (member a idx.cooldown) && is_open (meta_of (idx.status a)))

  abbrev pub IsSound : Index S → Type 0
  IsSound idx = (a : String) → is_placed idx a ≡ true

  open_of_active : (env : Env) (meta : Meta) → status_active env meta ≡ true → is_open meta ≡ true
  unfolding status_active
  open_of_active env meta h = ground arith

  placed-zadd_cooldown :
      (account : String) (n : ℕ) (idx : Index S) (a : String)
      → member account idx.ready ≡ false
      → is_placed idx a ≡ true
      → is_placed (record idx { cooldown = S.zadd account n idx.cooldown }) a ≡ true
  unfolding is_placed
  placed-zadd_cooldown account n idx a out h =
      rw (member-zadd account a n idx.cooldown) (ground (arith, eq_iff account a))

  placed-zadd_ready :
      (account : String) (n : ℕ) (idx : Index S) (a : String)
      → member account idx.cooldown ≡ false
      → is_open (meta_of (idx.status account)) ≡ true
      → is_placed idx a ≡ true
      → is_placed (record idx { ready = S.zadd account n idx.ready }) a ≡ true
  unfolding is_placed
  placed-zadd_ready account n idx a out fine h =
      rw (member-zadd account a n idx.ready) (ground (arith, eq_iff account a))

  pub placed-enlist :
      (env : Env) (cooling : Bool) (account : String) (meta : Meta) (idx : Index S) (a : String)
      → member account idx.ready ≡ false
      → member account idx.cooldown ≡ false
      → idx.status account ≡ some meta
      → is_placed idx a ≡ true
      → is_placed (enlist S env cooling account meta idx) a ≡ true
  unfolding enlist meta_of
  placed-enlist env true account meta idx a r c st h =
      placed-zadd_cooldown account (max (cooling_until env meta) (env.now + year)) idx a r h
  placed-enlist env false account meta idx a r c st h = elim (Bool-cases (status_active env meta)) [
    | inl active ↦ rw active (
        placed-zadd_ready account (score env meta) idx a c (rw st (open_of_active env meta active))
          h)
    | inr passive ↦ rw passive h
  ]

  pub status-set :
      (account : String) (meta : Meta) (idx : Index S)
      → (set_status S account meta idx).status account ≡ some meta
  unfolding set_status set_at
  status-set account meta idx = rw (eq_refl account) refl

  pub placed-delisted :
      (account : String) (meta : Option Meta) (idx : Index S) (a : String)
      → is_placed idx a ≡ true
      → is_placed (delist S account (record idx { status = set_at account meta idx.status })) a
        ≡ true
  unfolding is_placed delist set_at
  placed-delisted account meta idx a h =
      rw (member-zrem account a idx.ready, member-zrem account a idx.cooldown)
        (ground (arith, eq_iff account a))

  pub placed-put_status :
      (env : Env) (account : String) (meta : Meta) (idx : Index S) (a : String)
      → is_placed idx a ≡ true
      → is_placed (put_status S env account meta idx) a ≡ true
  unfolding put_status set_status delist
  placed-put_status env account meta idx a h =
      placed-enlist env (is_cooling env meta) account meta
        (delist S account (set_status S account meta idx)) a
        (rw (member-zrem account account idx.ready, eq_refl account) refl)
        (rw (member-zrem account account idx.cooldown, eq_refl account) refl)
        (status-set account meta idx) (placed-delisted account (some meta) idx a h)

  -- The statuses that a success writes are as open as before.
  pub open-success : (n : ℕ) (meta : Meta) → is_open (stamp n (reset_streak meta)) ≡ is_open meta
  unfolding is_open stamp reset_streak field
  open-success n meta = simp (Dict.get-put)

  pub placed-set_status :
      (account : String) (meta : Meta) (idx : Index S) (a : String)
      → is_open meta ≡ is_open (meta_of (idx.status account))
      → is_placed idx a ≡ true
      → is_placed (set_status S account meta idx) a ≡ true
  unfolding is_placed set_status set_at meta_of
  placed-set_status account meta idx a same h = ground (arith, eq_iff account a)

  placed-zrem :
      (k : String) (idx : Index S) (a : String)
      → is_placed idx a ≡ true
      → is_placed (record idx { cooldown = S.zrem k idx.cooldown }) a ≡ true
  unfolding is_placed
  placed-zrem k idx a h = rw (member-zrem k a idx.cooldown) (ground arith)

  pub placed-zrem_all :
      (ids : List String) (idx : Index S) (a : String)
      → is_placed idx a ≡ true
      → is_placed (record idx { cooldown = zrem_all S ids idx.cooldown }) a ≡ true
  unfolding zrem_all
  placed-zrem_all [] idx a h = h
  placed-zrem_all (k ∷ ids) idx a h =
      placed-zrem_all ids (record idx { cooldown = S.zrem k idx.cooldown }) a
        (placed-zrem k idx a h)
