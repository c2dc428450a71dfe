-- ===== src/Ready/Index.antt =====
-- The operations of grok2api/store/ready_redis.py, with Redis switched on, as functions of the state
-- that they share: each is one Redis script, or a sequence of commands that is taken as one step. An
-- account id neither starts nor ends with a colon. A lease that is absent counts zero; its expiry is a
-- step of its own.
use grokcli_2api.Base.{
  ℕ, ◌+◌, ◌-◌, ◌*◌, max, min, String, Bool, true, false, Option, none, some, List, [], ◌∷◌, is_text,
  is_some, str_eq, ltb, leb, ◌==◌, length, if◌then◌else◌,
}
use grokcli_2api.Ready.Status.{
  Env, Meta, is_cooling, status_active, score, cooling_until, merge, version, stamp, reset_streak,
}
use grokcli_2api.Ready.Rows.{IndexRow, row_meta, is_cooling_row}
use grokcli_2api.Ready.SortedSet.{SortedSet}

abbrev pub year : ℕ
year = 31_536_000_000

-- A map of keys that end in an account id.
unfoldable pub set_at {ℓ} : {A : Type ℓ} → String → A → (String → A) → String → A
set_at k v f j = if str_eq k j then v else f j

unfoldable pub meta_of : Option Meta → Meta
meta_of none = []
meta_of (some meta) = meta

-- `state_seq or current_seq + 1`
unfoldable pub incoming_seq : ℕ → Option ℕ → ℕ
incoming_seq current none = current + 1
incoming_seq current (some seq) = if seq == 0 then current + 1 else seq

-- The first account with a free slot.
unfoldable pub first_free : ℕ → (String → ℕ) → List String → Option String
first_free cap leases [] = none
first_free cap leases (a ∷ ids) =
    let rest = first_free cap leases ids in if ltb (leases a) cap then some a else rest

module _ (S : SortedSet) where
  pub record Index : Type 0 where
    pub status : String → Option Meta
    pub ready : S.Set
    pub cooldown : S.Set
    pub leases : String → ℕ
    pub floor : String → ℕ
    pub marker : Option (ℕ × ℕ)

  abbrev pub empty_index : Index
  empty_index = record {
    status = λ a. none;
    ready = S.empty;
    cooldown = S.empty;
    leases = λ a. 0;
    floor = λ a. 0;
    marker = none;
  }

  unfoldable pub zrem_all : List String → S.Set → S.Set
  zrem_all [] z = z
  zrem_all (k ∷ ks) z = zrem_all ks (S.zrem k z)

  -- `_raise_state_sequence_floor`
  unfoldable pub raise_floor : String → ℕ → Index → Index
  unfolding set_at
  raise_floor account n idx = record idx {
    floor = set_at account (max (idx.floor account) n) idx.floor;
  }

  -- `zadd` to the cooldown set, or to the ready set, or to none
  unfoldable pub enlist : Env → Bool → String → Meta → Index → Index
  unfolding status_active score cooling_until
  enlist env cooling account meta idx =
      if cooling
      then record idx {
        cooldown = S.zadd account (max (cooling_until env meta) (env.now + year)) idx.cooldown;
      }
      else if status_active env meta
      then record idx { ready = S.zadd account (score env meta) idx.ready }
      else idx

  -- `_set_status`
  unfoldable pub set_status : String → Meta → Index → Index
  unfolding set_at
  set_status account meta idx = record idx { status = set_at account (some meta) idx.status }

  unfoldable pub delist : String → Index → Index
  delist account idx = record idx {
    ready = S.zrem account idx.ready;
    cooldown = S.zrem account idx.cooldown;
  }

  -- The status is stored and the account sorted anew.
  unfoldable pub put_status : Env → String → Meta → Index → Index
  unfolding set_status delist enlist is_cooling
  put_status env account meta idx =
      enlist env (is_cooling env meta) account meta (delist account (set_status account meta idx))

  unfoldable pub patch_status : Env → String → Meta → ℕ → Meta → Index → Index
  unfolding raise_floor put_status merge version stamp
  patch_status env account patch incoming current idx =
      let floored = raise_floor account (max (version current) incoming) idx in
      if ltb incoming (version current)
      then floored
      else put_status env account (stamp incoming (merge patch current)) floored

  -- `apply_status_patch`
  unfoldable pub apply_status_patch : Env → String → Meta → Option ℕ → Index → Index
  unfolding patch_status meta_of incoming_seq
  apply_status_patch env account patch state_seq idx =
      let current = meta_of (idx.status account) in
      if is_text account
      then patch_status env account patch (incoming_seq (version current) state_seq) current idx
      else idx

  unfoldable pub record_success : String → ℕ → Meta → Index → Index
  unfolding raise_floor set_status version stamp reset_streak
  record_success account incoming current idx =
      let floored = raise_floor account (max (version current) incoming) idx in
      if leb incoming (version current)
      then floored
      else set_status account (stamp incoming (reset_streak current)) floored

  -- `apply_success_sequence`
  unfoldable pub apply_success_sequence : String → ℕ → Index → Index
  unfolding record_success meta_of
  apply_success_sequence account state_seq idx =
      if is_text account
      then (if state_seq == 0
          then idx
          else record_success account state_seq (meta_of (idx.status account)) idx)
      else idx

  -- `sync_account`
  unfoldable pub sync_account : Env → String → Meta → Index → Index
  unfolding apply_status_patch version
  sync_account env account meta idx = apply_status_patch env account meta (some (version meta)) idx

  unfoldable pub forget : String → Index → Index
  unfolding set_at delist
  forget account idx =
      let gone = delist account idx in
      record gone {
        status = set_at account none gone.status;
        leases = set_at account 0 gone.leases;
      }

  -- `remove`
  unfoldable pub remove : String → Index → Index
  unfolding forget
  remove account idx = if is_text account then forget account idx else idx

  -- `release`: a count that would fall to zero or below is deleted.
  unfoldable pub release : String → Index → Index
  unfolding set_at
  release account idx =
      if is_text account
      then record idx { leases = set_at account (idx.leases account - 1) idx.leases }
      else idx

  -- The lease that both scripts take.
  unfoldable pub lease : Env → Bool → String → Index → Index
  unfolding set_at
  lease env least_used account idx = record idx {
    leases = set_at account (idx.leases account + 1) idx.leases;
    ready =
        if least_used
        then S.zincrby account 1_000 idx.ready
        else S.zadd account (env.now + idx.leases account * 1_000) idx.ready;
  }

  unfoldable pub claim_found : Env → Bool → Option String → Index → Option String × Index
  unfolding lease
  claim_found env least_used none idx = (none, idx)
  claim_found env least_used (some account) idx = (some account, lease env least_used account idx)

  -- `claim`
  unfoldable pub claim : Env → Bool → Index → Option String × Index
  unfolding claim_found first_free
  claim env least_used idx =
      claim_found env least_used (first_free env.max_inflight idx.leases (S.zrange 64 idx.ready))
        idx

  unfoldable pub take_lease : Env → Bool → String → Index → Bool × Index
  unfolding lease
  take_lease env least_used account idx =
      if leb env.max_inflight (idx.leases account)
      then (false, idx)
      else (true, lease env least_used account idx)

  -- `claim_preferred`
  unfoldable pub claim_preferred : Env → Bool → String → Index → Bool × Index
  unfolding take_lease
  claim_preferred env least_used account idx =
      if is_text account
      then (if is_some (S.zscore account idx.ready)
          then take_lease env least_used account idx
          else (false, idx))
      else (false, idx)

  -- `list_candidates`, in its ordered modes
  unfoldable pub list_candidates : ℕ → Index → List String
  list_candidates limit idx = S.zrange (max 1 (min 64 (if limit == 0 then 4 else limit))) idx.ready

  -- `is_ready`
  unfoldable pub is_ready : String → Index → Bool
  is_ready account idx = if is_text account then is_some (S.zscore account idx.ready) else false

  -- `reclaim_expired_cooldowns`
  unfoldable pub reclaim_expired_cooldowns : Env → Index → ℕ × Index
  unfolding zrem_all
  reclaim_expired_cooldowns env idx =
      let ids = S.zrangebyscore env.now 500 idx.cooldown in
      (length ids, record idx { cooldown = zrem_all ids idx.cooldown })

  unfoldable pub clear_index : Index → Index
  clear_index idx = record idx { ready = S.empty; cooldown = S.empty; marker = none }

  -- One row of the rebuild, which takes the clock once.
  unfoldable pub index_row : Env → IndexRow → Index → Index
  unfolding set_status enlist row_meta is_cooling_row
  index_row env row idx =
      enlist env (is_cooling_row env row) row.id (row_meta row)
        (set_status row.id (row_meta row) idx)

  unfoldable pub index_rows : List (Env × IndexRow) → Index → Index
  unfolding index_row
  index_rows [] idx = idx
  index_rows ((env, row) ∷ rows) idx = index_rows rows (index_row env row idx)

  unfoldable pub mark_built : ℕ → Index → Index
  mark_built total idx = record idx {
    marker = some (total, S.zcard idx.ready + S.zcard idx.cooldown);
  }

  -- `rebuild_ready_index`, on the rows of all pages
  unfoldable pub rebuild_ready_index : List (Env × IndexRow) → Index → ℕ × Index
  unfolding clear_index index_rows mark_built
  rebuild_ready_index rows idx =
      (length rows, mark_built (length rows) (index_rows rows (clear_index idx)))
