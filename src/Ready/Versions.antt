-- ===== src/Ready/Versions.antt =====
-- The numbers of the events: the counter of an account is never behind the status that the index
-- stores, so an event that is published with a fresh number is applied.
use grokcli_2api.Base.{
  ℕ, ◌≤◌, ◌≡◌, refl, String, Bool, true, false, Option, none, some, str_eq, ltb, leb, is_text, ◌==◌,
  Bool-cases, inl, inr, eq_iff, arith, max,
}
use grokcli_2api.Base.Dict
use grokcli_2api.Ready.Status.{
  Env, Meta, version, stamp, merge, reset_streak, status_active, is_cooling, field, found, to_int,
}
use grokcli_2api.Ready.SortedSet.{SortedSet}
use grokcli_2api.Ready.Index.{
  Index, empty_index, set_at, meta_of, incoming_seq, raise_floor, set_status, put_status, delist,
  enlist, patch_status, apply_status_patch, record_success, apply_success_sequence, sync_account,
  remove, forget, release, lease, claim, claim_found, take_lease, claim_preferred, first_free,
  reclaim_expired_cooldowns,
}
use grokcli_2api.Ready.Publish.{next_state_sequence}
use grokcli_2api.Ready.Runs.{
  Step, patches, succeeds, syncs, removes, releases, expires, claims, prefers, reclaims, draws,
}

version-stamp : (n : ℕ) (meta : Meta) → version (stamp n meta) ≡ n
unfolding version stamp field
version-stamp n meta = simp (Dict.get-put)

module _ (S : SortedSet) where
  -- Operations in a row, without a rebuild.
  pub data Run (cap : ℕ) (first : Index S) : Index S → Type 0 where
    here : Run cap first first
    next : {idx after : Index S} → Run cap first idx → Step S cap idx after → Run cap first after

  -- The number of the status that is stored for an account.
  abbrev pub stored_version : Index S → String → ℕ
  stored_version idx a = version (meta_of (idx.status a))

  abbrev pub IsCounted : Index S → Type 0
  IsCounted idx = (a : String) → stored_version idx a ≤ idx.floor a

  pub status-enlist :
      (env : Env) (cooling : Bool) (account : String) (meta : Meta) (idx : Index S)
      → ((enlist S env cooling account meta idx).status ≡ idx.status)
        × ((enlist S env cooling account meta idx).floor ≡ idx.floor)
  unfolding enlist
  status-enlist env true account meta idx = (refl, refl)
  status-enlist env false account meta idx = elim (Bool-cases (status_active env meta)) [
    | inl active ↦ rw active (refl, refl)
    | inr passive ↦ rw passive (refl, refl)
  ]

  counted-same :
      (idx after : Index S) (a : String)
      → (after.status ≡ idx.status) × (after.floor ≡ idx.floor)
      → stored_version idx a ≤ idx.floor a
      → stored_version after a ≤ after.floor a
  counted-same idx after a (p, q) h = rw (p, q) h

  same-found :
      (env : Env) (least_used : Bool) (o : Option String) (idx : Index S)
      → ((claim_found S env least_used o idx).1.status ≡ idx.status)
        × ((claim_found S env least_used o idx).1.floor ≡ idx.floor)
  unfolding claim_found lease
  same-found env least_used none idx = (refl, refl)
  same-found env least_used (some a) idx = (refl, refl)

  same-claim_preferred :
      (env : Env) (least_used : Bool) (account : String) (idx : Index S)
      → ((claim_preferred S env least_used account idx).1.status ≡ idx.status)
        × ((claim_preferred S env least_used account idx).1.floor ≡ idx.floor)
  unfolding claim_preferred take_lease lease
  same-claim_preferred env least_used account idx = (ground arith, ground arith)

  counted-raise :
      (account : String) (n : ℕ) (idx : Index S) (a : String)
      → stored_version idx a ≤ idx.floor a
      → stored_version (raise_floor S account n idx) a ≤ (raise_floor S account n idx).floor a
  unfolding raise_floor set_at
  counted-raise account n idx a h = ground (arith, eq_iff account a)

  counted-written :
      (account : String) (n : ℕ) (meta : Meta) (bound : ℕ) (idx : Index S) (a : String)
      → n ≤ bound
      → stored_version idx a ≤ idx.floor a
      → stored_version (set_status S account (stamp n meta) (raise_floor S account bound idx)) a
        ≤ (set_status S account (stamp n meta) (raise_floor S account bound idx)).floor a
  unfolding set_status raise_floor set_at meta_of
  counted-written account n meta bound idx a le h =
      ground (arith, eq_iff account a, version-stamp n meta)

  counted-patch_status :
      (env : Env) (account : String) (patch : Meta) (incoming : ℕ) (current : Meta) (idx : Index S)
      (a : String)
      → stored_version idx a ≤ idx.floor a
      → stored_version (patch_status S env account patch incoming current idx) a
        ≤ (patch_status S env account patch incoming current idx).floor a
  unfolding patch_status put_status delist
  counted-patch_status env account patch incoming current idx a h =
      elim (Bool-cases (ltb incoming (version current))) [
        | inl stale ↦ rw stale (counted-raise account (max (version current) incoming) idx a h)
        | inr newer ↦ rw newer (
            counted-same written (put_status S env account stamped raised) a
              (status-enlist env (is_cooling env stamped) account stamped
                (delist S account written))
              (counted-written account incoming (merge patch current)
                (max (version current) incoming) idx a (omega arith) h))
      ]
    where
      stamped : Meta
      stamped = stamp incoming (merge patch current)

      raised : Index S
      raised = raise_floor S account (max (version current) incoming) idx

      written : Index S
      written = set_status S account stamped raised

  counted-apply_status_patch :
      (env : Env) (account : String) (patch : Meta) (state_seq : Option ℕ) (idx : Index S)
      (a : String)
      → stored_version idx a ≤ idx.floor a
      → stored_version (apply_status_patch S env account patch state_seq idx) a
        ≤ (apply_status_patch S env account patch state_seq idx).floor a
  unfolding apply_status_patch
  counted-apply_status_patch env account patch state_seq idx a h =
      elim (Bool-cases (is_text account)) [
        | inl named ↦ rw named (
            counted-patch_status env account patch
              (incoming_seq (version (meta_of (idx.status account))) state_seq)
              (meta_of (idx.status account)) idx a h)
        | inr nameless ↦ rw nameless h
      ]

  counted-apply_success :
      (account : String) (seq : ℕ) (idx : Index S) (a : String)
      → stored_version idx a ≤ idx.floor a
      → stored_version (apply_success_sequence S account seq idx) a
        ≤ (apply_success_sequence S account seq idx).floor a
  unfolding apply_success_sequence record_success
  counted-apply_success account seq idx a h = elim (Bool-cases (is_text account)) [
    | inr nameless ↦ rw nameless h
    | inl named ↦ rw named (elim (Bool-cases (seq == 0)) [
      | inl zeroth ↦ rw zeroth h
      | inr drawn ↦ rw drawn (elim (Bool-cases (leb seq (stored_version idx account))) [
        | inl stale ↦
            rw stale (counted-raise account (max (stored_version idx account) seq) idx a h)
        | inr newer ↦ rw newer (
            counted-written account seq (reset_streak (meta_of (idx.status account)))
              (max (stored_version idx account) seq) idx a (omega arith) h)
      ])
    ])
  ]

  counted-forget :
      (account : String) (idx : Index S) (a : String)
      → stored_version idx a ≤ idx.floor a
      → stored_version (forget S account idx) a ≤ (forget S account idx).floor a
  unfolding forget delist set_at meta_of version field found to_int Dict.get
  counted-forget account idx a h = elim (Bool-cases (str_eq account a)) [
    | inl same ↦ rw same (omega arith)
    | inr other ↦ rw other h
  ]

  IsCounted-Step :
      {cap : ℕ} {idx after : Index S} → Step S cap idx after → IsCounted idx → IsCounted after
  unfolding sync_account remove forget delist release set_at reclaim_expired_cooldowns
      next_state_sequence meta_of claim
  IsCounted-Step {cap} {idx} (patches env account patch state_seq) h a =
      counted-apply_status_patch env account patch state_seq idx a (h a)
  IsCounted-Step {cap} {idx} (succeeds account seq) h a =
      counted-apply_success account seq idx a (h a)
  IsCounted-Step {cap} {idx} (syncs env account meta) h a =
      counted-apply_status_patch env account meta (some (version meta)) idx a (h a)
  IsCounted-Step {cap} {idx} (removes account) h a = elim (Bool-cases (is_text account)) [
    | inl named ↦ rw named (counted-forget account idx a (h a))
    | inr nameless ↦ rw nameless (h a)
  ]
  IsCounted-Step {cap} {idx} (releases account) h a = ground (arith, h a)
  IsCounted-Step {cap} {idx} (expires account) h a = h a
  IsCounted-Step {cap} {idx} (claims env least_used bound) h a =
      counted-same idx (claim S env least_used idx).1 a
        (same-found env least_used (first_free env.max_inflight idx.leases (S.zrange 64 idx.ready))
          idx)
        (h a)
  IsCounted-Step {cap} {idx} (prefers env least_used account bound) h a =
      counted-same idx (claim_preferred S env least_used account idx).1 a
        (same-claim_preferred env least_used account idx) (h a)
  IsCounted-Step {cap} {idx} (reclaims env) h a = h a
  IsCounted-Step {cap} {idx} (draws account) h a = ground (arith, eq_iff account a, h a)

  pub IsCounted-Run :
      {cap : ℕ} {first idx : Index S} → Run cap first idx → IsCounted first → IsCounted idx
  IsCounted-Run here h = h
  IsCounted-Run (next r st) h = IsCounted-Step st (IsCounted-Run r h)

  pub IsCounted-empty : IsCounted (empty_index S)
  unfolding meta_of version field found to_int Dict.get
  IsCounted-empty a = omega arith
