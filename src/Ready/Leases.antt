-- ===== src/Ready/Leases.antt =====
-- The leases of the index: how many an account has along a run, and whom a claim serves.
use grokcli_2api.Base.{
  ℕ, ◌≤◌, ◌<◌, ◌≡◌, ◌∙◌, sym, refl, String, Bool, true, false, Option, none, some, List, [], ◌∷◌,
  ltb, is_text, Bool-cases, inl, inr, eq_iff, arith, max,
}
use mathlib.Core.Path.{subst}
use grokcli_2api.Ready.Status.{Env, Meta, version, status_active, is_cooling, stamp, merge}
use grokcli_2api.Ready.Rows.{IndexRow, row_meta, is_cooling_row}
use grokcli_2api.Ready.SortedSet.{SortedSet}
use grokcli_2api.Ready.Index.{
  Index, set_at, meta_of, incoming_seq, raise_floor, set_status, put_status, delist, enlist,
  patch_status, apply_status_patch, record_success, apply_success_sequence, sync_account, remove,
  forget, release, lease, claim, claim_found, take_lease, claim_preferred, first_free,
  reclaim_expired_cooldowns, rebuild_ready_index, clear_index, index_row, index_rows, mark_built,
}
use grokcli_2api.Ready.Publish.{next_state_sequence}
use grokcli_2api.Ready.Claiming.{Picked, Picked-first_free, first_free-lt}
use grokcli_2api.Ready.Runs.{
  Step, patches, succeeds, syncs, removes, releases, expires, claims, prefers, reclaims, draws,
  Reach, start, next, rebuilt,
}

module _ (S : SortedSet) where
  leases-enlist :
      (env : Env) (cooling : Bool) (account : String) (meta : Meta) (idx : Index S)
      → (enlist S env cooling account meta idx).leases ≡ idx.leases
  unfolding enlist
  leases-enlist env true account meta idx = refl
  leases-enlist env false account meta idx = elim (Bool-cases (status_active env meta)) [
    | inl active ↦ rw active refl
    | inr passive ↦ rw passive refl
  ]

  leases-index_rows :
      (rows : List (Env × IndexRow)) (idx : Index S) → (index_rows S rows idx).leases ≡ idx.leases
  unfolding index_rows index_row set_status
  leases-index_rows [] idx = refl
  leases-index_rows ((env, row) ∷ rows) idx =
      leases-index_rows rows (index_row S env row idx)
      ∙ leases-enlist env (is_cooling_row env row) row.id (row_meta row)
          (set_status S row.id (row_meta row) idx)

  leases-patch_status :
      (env : Env) (account : String) (patch : Meta) (incoming : ℕ) (current : Meta) (idx : Index S)
      → (patch_status S env account patch incoming current idx).leases ≡ idx.leases
  unfolding patch_status put_status raise_floor set_status delist
  leases-patch_status env account patch incoming current idx =
      elim (Bool-cases (ltb incoming (version current))) [
        | inl stale ↦ rw stale refl
        | inr newer ↦ rw newer (
            leases-enlist env (is_cooling env (stamp incoming (merge patch current))) account
              (stamp incoming (merge patch current))
              (delist S account (
                set_status S account (stamp incoming (merge patch current))
                  (raise_floor S account (max (version current) incoming) idx))))
      ]

  leases-apply_status_patch :
      (env : Env) (account : String) (patch : Meta) (state_seq : Option ℕ) (idx : Index S)
      → (apply_status_patch S env account patch state_seq idx).leases ≡ idx.leases
  unfolding apply_status_patch
  leases-apply_status_patch env account patch state_seq idx = elim (Bool-cases (is_text account)) [
    | inl named ↦ rw named (
        leases-patch_status env account patch
          (incoming_seq (version (meta_of (idx.status account))) state_seq)
          (meta_of (idx.status account)) idx)
    | inr nameless ↦ rw nameless refl
  ]

  leases-apply_success :
      (account : String) (seq : ℕ) (idx : Index S)
      → (apply_success_sequence S account seq idx).leases ≡ idx.leases
  unfolding apply_success_sequence record_success raise_floor set_status
  leases-apply_success account seq idx = ground arith

  abbrev IsBounded : ℕ → Index S → Type 0
  IsBounded cap idx = (a : String) → idx.leases a ≤ cap

  IsBounded-lease :
      (env : Env) (least_used : Bool) (account : String) (idx : Index S)
      → idx.leases account < env.max_inflight
      → IsBounded env.max_inflight idx
      → IsBounded env.max_inflight (lease S env least_used account idx)
  unfolding lease set_at
  IsBounded-lease env least_used account idx free h a = ground (arith, eq_iff account a, h a)

  IsBounded-found :
      (env : Env) (least_used : Bool) (idx : Index S) (o : Option String)
      → Picked env.max_inflight idx.leases (S.zrange 64 idx.ready) o
      → IsBounded env.max_inflight idx
      → IsBounded env.max_inflight (claim_found S env least_used o idx).1
  unfolding claim_found
  IsBounded-found env least_used idx none picked h = h
  IsBounded-found env least_used idx (some account) picked h =
      IsBounded-lease env least_used account idx
        (first_free-lt env.max_inflight idx.leases (S.zrange 64 idx.ready) account picked) h

  IsBounded-claim_preferred :
      (env : Env) (least_used : Bool) (account : String) (idx : Index S)
      → IsBounded env.max_inflight idx
      → IsBounded env.max_inflight (claim_preferred S env least_used account idx).1
  unfolding claim_preferred take_lease lease set_at
  IsBounded-claim_preferred env least_used account idx h a = ground (arith, eq_iff account a, h a)

  IsBounded-Step :
      {cap : ℕ} {idx after : Index S}
      → Step S cap idx after
      → IsBounded cap idx
      → IsBounded cap after
  unfolding sync_account remove forget delist release set_at reclaim_expired_cooldowns
      next_state_sequence claim
  IsBounded-Step {cap} {idx} (patches env account patch state_seq) h a =
      rw (leases-apply_status_patch env account patch state_seq idx) (h a)
  IsBounded-Step {cap} {idx} (succeeds account seq) h a =
      rw (leases-apply_success account seq idx) (h a)
  IsBounded-Step {cap} {idx} (syncs env account meta) h a =
      rw (leases-apply_status_patch env account meta (some (version meta)) idx) (h a)
  IsBounded-Step {cap} {idx} (removes account) h a = ground (arith, eq_iff account a, h a)
  IsBounded-Step {cap} {idx} (releases account) h a = ground (arith, eq_iff account a, h a)
  IsBounded-Step {cap} {idx} (expires account) h a = ground (arith, eq_iff account a, h a)
  IsBounded-Step {cap} {idx} (claims env least_used bound) h a =
      subst (λ n. (claim S env least_used idx).1.leases a ≤ n) bound
        (IsBounded-found env least_used idx
          (first_free env.max_inflight idx.leases (S.zrange 64 idx.ready))
          (Picked-first_free env.max_inflight idx.leases (S.zrange 64 idx.ready))
          (subst (λ n. IsBounded n idx) (sym bound) h) a)
  IsBounded-Step {cap} {idx} (prefers env least_used account bound) h a =
      subst (λ n. (claim_preferred S env least_used account idx).1.leases a ≤ n) bound
        (IsBounded-claim_preferred env least_used account idx
          (subst (λ n. IsBounded n idx) (sym bound) h) a)
  IsBounded-Step {cap} {idx} (reclaims env) h a = h a
  IsBounded-Step {cap} {idx} (draws account) h a = ground (arith, h a)

  -- Along every run of the index, rebuilds included, no account has more leases than the bound.
  pub leases_bounded :
      {cap : ℕ} {idx : Index S} → Reach S cap idx → (a : String) → idx.leases a ≤ cap
  unfolding rebuild_ready_index mark_built clear_index
  leases_bounded start a = omega arith
  leases_bounded (next r st) a = IsBounded-Step st (λ b. leases_bounded r b) a
  leases_bounded (rebuilt {idx} rows keys r) a =
      rw (leases-index_rows rows (clear_index S idx)) (leases_bounded r a)
