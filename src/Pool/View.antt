-- ===== src/Pool/View.antt =====
-- `_pool_meta` and `_eligible` of grok2api/pool/account_pool.py: the scheduling view of a row.
use grokcli_2api.Base.{
  ℕ, Bool, false, not, Option, none, some, String, max, is_empty, if◌then◌else◌,
}
use grokcli_2api.Pool.Meta.{
  AccountMeta, PoolStatus, normal, cooldown, disabled, quota_disabled, model_blocked,
}
use grokcli_2api.Pool.Status.{is_in_cooldown, is_status_expired, is_renewal_broken}
use grokcli_2api.Pool.Blocks.{is_model_blocked, drop_over}

-- The status that the view shows, from the row's status, whether it cools, and its blocks.
unfoldable pub shown_status : AccountMeta → Bool → PoolStatus
shown_status m cooling =
    if is_status_expired m.pool_status
    then PoolStatus.expired
    else if is_renewal_broken m.last_renew_status
    then PoolStatus.expired
    else elim m.pool_status [
      | none ↦
          if m.disabled_for_quota
          then quota_disabled
          else if not m.enabled
          then disabled
          else if cooling
          then cooldown
          else if not (is_empty m.blocked_models)
          then model_blocked
          else normal
      | some normal ↦ if cooling then cooldown else normal
      | some s ↦ s
    ]

-- `_pool_meta` with `redis_overlay=False`: blocks that are over are dropped, and the keys that the
-- view does not carry are missing.
unfoldable pub pool_meta : ℕ → AccountMeta → AccountMeta
unfolding shown_status
pool_meta now m =
    let kept = record m {
      weight = max 1 m.weight;
      blocked_models = (drop_over now m.blocked_models).0;
      cooldown_detail = none;
      kicked_from_rotation = false;
      kick_reason = none;
      kick_at = none;
      state_version = 0;
    } in
    record kept { pool_status = some (shown_status kept (is_in_cooldown now kept)) }

-- What rotation reads of a credential.
pub record Credentials : Type 0 where
  pub auth_key : String
  pub expired : Bool
  pub has_token : Bool

-- `_eligible`, under the probe-only recovery that the code is built with.
unfoldable pub is_eligible : ℕ → Credentials → AccountMeta → Option String → Bool
is_eligible now creds row_meta model =
    let meta = pool_meta now row_meta in
    if creds.expired
    then false
    else if is_status_expired meta.pool_status
    then false
    else if not meta.enabled
    then false
    else if is_in_cooldown now meta
    then false
    else not (is_model_blocked now false model meta)
