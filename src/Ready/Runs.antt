-- ===== src/Ready/Runs.antt =====
-- The index under traffic: every operation of grok2api/store/ready_redis.py, the publishing of events,
-- and the expiry of leases, on any accounts and in any order, each as one step.
use grokcli_2api.Base.{
  ℕ, ◌≡◌, refl, String, Bool, true, Option, none, some, List, ltb, leb, is_text, ◌==◌, Bool-cases,
  inl, inr, max,
}
use grokcli_2api.Ready.Status.{Env, Meta, version, stamp, reset_streak, merge}
use grokcli_2api.Ready.Rows.{IndexRow}
use grokcli_2api.Ready.SortedSet.{SortedSet}
use grokcli_2api.Ready.Index.{
  Index, empty_index, set_at, meta_of, incoming_seq, raise_floor, patch_status, apply_status_patch,
  record_success, apply_success_sequence, sync_account, remove, forget, release, claim,
  claim_preferred, reclaim_expired_cooldowns, rebuild_ready_index,
}
use grokcli_2api.Ready.Publish.{next_state_sequence}
use grokcli_2api.Ready.Placing.{
  is_placed, IsSound, member-empty, placed-put_status, placed-delisted, open-success,
  placed-set_status, placed-zrem_all,
}
use grokcli_2api.Ready.Rebuild.{HasKeys, IsSound-rebuild}
use grokcli_2api.Ready.Claiming.{placed-claim, placed-claim_preferred}

module _ (S : SortedSet) where
  -- One operation, under the bound on leases.
  pub data Step (cap : ℕ) (idx : Index S) : Index S → Type 0 where
    patches :
        (env : Env) (account : String) (patch : Meta) (state_seq : Option ℕ)
        → Step cap idx (apply_status_patch S env account patch state_seq idx)
    succeeds :
        (account : String) (state_seq : ℕ)
        → Step cap idx (apply_success_sequence S account state_seq idx)
    syncs :
        (env : Env) (account : String) (meta : Meta)
        → Step cap idx (sync_account S env account meta idx)
    removes : (account : String) → Step cap idx (remove S account idx)
    releases : (account : String) → Step cap idx (release S account idx)
    expires :
        (account : String) → Step cap idx (record idx { leases = set_at account 0 idx.leases })
    claims :
        (env : Env) (least_used : Bool)
        → env.max_inflight ≡ cap
        → Step cap idx (claim S env least_used idx).1
    prefers :
        (env : Env) (least_used : Bool) (account : String)
        → env.max_inflight ≡ cap
        → Step cap idx (claim_preferred S env least_used account idx).1
    reclaims : (env : Env) → Step cap idx (reclaim_expired_cooldowns S env idx).1
    draws : (account : String) → Step cap idx (next_state_sequence S account idx).1

  -- Steps and rebuilds, from the empty index.
  pub data Reach (cap : ℕ) : Index S → Type 0 where
    start : Reach cap (empty_index S)
    next : {idx after : Index S} → Reach cap idx → Step cap idx after → Reach cap after
    rebuilt :
        {idx : Index S} (rows : List (Env × IndexRow))
        → HasKeys rows
        → Reach cap idx
        → Reach cap (rebuild_ready_index S rows idx).1

  placed-patch_status :
      (env : Env) (account : String) (patch : Meta) (incoming : ℕ) (current : Meta) (idx : Index S)
      (a : String)
      → is_placed S idx a ≡ true
      → is_placed S (patch_status S env account patch incoming current idx) a ≡ true
  unfolding patch_status is_placed
  placed-patch_status env account patch incoming current idx a h =
      elim (Bool-cases (ltb incoming (version current))) [
        | inl stale ↦ rw stale h
        | inr newer ↦ rw newer (
            placed-put_status S env account (stamp incoming (merge patch current))
              (raise_floor S account (max (version current) incoming) idx) a h)
      ]

  placed-apply_status_patch :
      (env : Env) (account : String) (patch : Meta) (state_seq : Option ℕ) (idx : Index S)
      (a : String)
      → is_placed S idx a ≡ true
      → is_placed S (apply_status_patch S env account patch state_seq idx) a ≡ true
  unfolding apply_status_patch
  placed-apply_status_patch env account patch state_seq idx a h =
      elim (Bool-cases (is_text account)) [
        | inl named ↦ rw named (
            placed-patch_status env account patch
              (incoming_seq (version (meta_of (idx.status account))) state_seq)
              (meta_of (idx.status account)) idx a h)
        | inr nameless ↦ rw nameless h
      ]

  placed-record_success :
      (account : String) (incoming : ℕ) (idx : Index S) (a : String)
      → is_placed S idx a ≡ true
      → is_placed S (record_success S account incoming (meta_of (idx.status account)) idx) a ≡ true
  unfolding record_success is_placed
  placed-record_success account incoming idx a h =
      elim (Bool-cases (leb incoming (version (meta_of (idx.status account))))) [
        | inl stale ↦ rw stale h
        | inr newer ↦ rw newer (
            placed-set_status S account
              (stamp incoming (reset_streak (meta_of (idx.status account))))
              (raise_floor S account (max (version (meta_of (idx.status account))) incoming) idx) a
              (open-success S incoming (meta_of (idx.status account))) h)
      ]

  placed-apply_success :
      (account : String) (seq : ℕ) (idx : Index S) (a : String)
      → is_placed S idx a ≡ true
      → is_placed S (apply_success_sequence S account seq idx) a ≡ true
  unfolding apply_success_sequence
  placed-apply_success account seq idx a h = elim (Bool-cases (is_text account)) [
    | inr nameless ↦ rw nameless h
    | inl named ↦ rw named (elim (Bool-cases (seq == 0)) [
      | inl zeroth ↦ rw zeroth h
      | inr drawn ↦ rw drawn (placed-record_success account seq idx a h)
    ])
  ]

  -- Every step keeps the sets apart, and the ready ones open.
  pub IsSound-Step :
      {cap : ℕ} {idx after : Index S} → Step cap idx after → IsSound S idx → IsSound S after
  unfolding sync_account remove forget release reclaim_expired_cooldowns next_state_sequence
      is_placed
  IsSound-Step {cap} {idx} (patches env account patch state_seq) h a =
      placed-apply_status_patch env account patch state_seq idx a (h a)
  IsSound-Step {cap} {idx} (succeeds account state_seq) h a =
      placed-apply_success account state_seq idx a (h a)
  IsSound-Step {cap} {idx} (syncs env account meta) h a =
      placed-apply_status_patch env account meta (some (version meta)) idx a (h a)
  IsSound-Step {cap} {idx} (removes account) h a = elim (Bool-cases (is_text account)) [
    | inl named ↦ rw named (placed-delisted S account none idx a (h a))
    | inr nameless ↦ rw nameless (h a)
  ]
  IsSound-Step {cap} {idx} (releases account) h a = elim (Bool-cases (is_text account)) [
    | inl named ↦ rw named (h a)
    | inr nameless ↦ rw nameless (h a)
  ]
  IsSound-Step {cap} {idx} (expires account) h a = h a
  IsSound-Step {cap} {idx} (claims env least_used bound) h a =
      placed-claim S env least_used idx a (h a)
  IsSound-Step {cap} {idx} (prefers env least_used account bound) h a =
      placed-claim_preferred S env least_used account idx a (h a)
  IsSound-Step {cap} {idx} (reclaims env) h a =
      placed-zrem_all S (S.zrangebyscore env.now 500 idx.cooldown) idx a (h a)
  IsSound-Step {cap} {idx} (draws account) h a = elim (Bool-cases (is_text account)) [
    | inl named ↦ rw named (h a)
    | inr nameless ↦ rw nameless (h a)
  ]

  IsSound-empty : IsSound S (empty_index S)
  unfolding is_placed
  IsSound-empty a = rw (member-empty S a) refl

  pub IsSound-Reach : {cap : ℕ} {idx : Index S} → Reach cap idx → IsSound S idx
  IsSound-Reach start = IsSound-empty
  IsSound-Reach (next r st) = IsSound-Step st (IsSound-Reach r)
  IsSound-Reach (rebuilt {idx} rows keys r) = IsSound-rebuild S rows idx keys
