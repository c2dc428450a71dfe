-- ===== src/Pool/Status.antt =====
-- The status of an account: `is_in_cooldown` (grok2api/pool/account_pool.py), the two
-- `_derive_pool_status` (grok2api/store/settings_pg.py, grok2api/admin/settings_store.py), and the
-- commit of a patch (`patch_pool_meta`, `apply_pool_state_event`).
use grokcli_2api.Base.{
  ℕ, ◌+◌, Bool, true, false, not, ◌&&◌, ◌||◌, Option, none, some, ltb, leb, max, is_empty, is_some,
  if◌then◌else◌,
}
use grokcli_2api.Pool.Meta.{
  AccountMeta, Row, no_meta, PoolStatus, normal, cooldown, disabled, quota_disabled, model_blocked,
  RenewStatus, ok,
}

abbrev pub is_status_expired : Option PoolStatus → Bool
is_status_expired none = false
is_status_expired (some PoolStatus.expired) = true
is_status_expired (some _) = false

abbrev pub is_status_cooldown : Option PoolStatus → Bool
is_status_cooldown none = false
is_status_cooldown (some cooldown) = true
is_status_cooldown (some _) = false

-- `last_renew_status in {"failed", "expired", "sso_failed", "no_sso_removed", "sso_attempt"}`
abbrev pub is_renewal_broken : Option RenewStatus → Bool
is_renewal_broken none = false
is_renewal_broken (some ok) = false
is_renewal_broken (some _) = true

-- `until is not None and float(until) > now`
abbrev pub is_after : Option ℕ → ℕ → Bool
is_after none now = false
is_after (some t) now = ltb now t

-- `is_in_cooldown` at the time `now`.
unfoldable pub is_in_cooldown : ℕ → AccountMeta → Bool
is_in_cooldown now m =
    if ltb 0 m.cooldown_count
    then true
    else if not (is_empty m.status_stack)
    then true
    else if is_status_cooldown m.pool_status
    then true
    else is_after m.cooldown_until now

-- `_derive_pool_status` of grok2api/store/settings_pg.py.
unfoldable pub derive_pool_status : ℕ → AccountMeta → PoolStatus
derive_pool_status now m =
    if is_status_expired m.pool_status
    then PoolStatus.expired
    else if is_some m.token_expired_at
        && not m.disabled_for_quota
        && (m.enabled || is_renewal_broken m.last_renew_status)
        && (is_renewal_broken m.last_renew_status || ltb 0 m.renew_fail_count)
    then PoolStatus.expired
    else if m.disabled_for_quota
    then quota_disabled
    else if not m.enabled
    then disabled
    else if ltb 0 m.cooldown_count
    then cooldown
    else if not (is_empty m.status_stack)
    then cooldown
    else if is_after m.cooldown_until now
    then cooldown
    else if not (is_empty m.blocked_models)
    then model_blocked
    else normal

-- `_derive_pool_status` of grok2api/admin/settings_store.py, for the store without PostgreSQL.
unfoldable pub file_pool_status : ℕ → AccountMeta → PoolStatus
file_pool_status now m =
    if m.disabled_for_quota
    then quota_disabled
    else if not m.enabled
    then disabled
    else if ltb 0 m.cooldown_count
    then cooldown
    else if is_after m.cooldown_until now
    then cooldown
    else if is_status_expired m.pool_status
    then PoolStatus.expired
    else if not (is_empty m.blocked_models)
    then model_blocked
    else normal

-- The dictionary that `patch_pool_meta` and `apply_pool_state_event` start a missing row from.
abbrev pub fresh_meta : AccountMeta
fresh_meta = record no_meta { pool_status = some normal }

abbrev pub or_fresh : Row → AccountMeta
or_fresh none = fresh_meta
or_fresh (some m) = m

-- A patch: the keys with a value are set, those with `None` are popped.
abbrev pub Patch : Type 0
Patch = AccountMeta → AccountMeta

-- What a commit reads from outside the row: the clock, and the account's counter in Redis
-- (`next_state_sequence`, 0 where Redis is off).
pub record Env : Type 0 where
  pub now : ℕ
  pub seq : ℕ

-- `meta["pool_status"] = _derive_pool_status(meta)`
abbrev pub stamp : ℕ → AccountMeta → AccountMeta
stamp now m = record m { pool_status = some (derive_pool_status now m) }

-- `patch_pool_meta`: the merge, the version, and the derived status. `_upsert_pool` derives the
-- status once more.
unfoldable pub patch_pool_meta : Env → Patch → Row → AccountMeta
patch_pool_meta env patch row =
    let m = patch (or_fresh row) in
    let v = record m { state_version = max (m.state_version + 1) env.seq } in
    stamp env.now (stamp env.now v)

-- `apply_pool_state_event`: a queued patch is applied only if its version is newer than the row's.
-- The counters of the row are kept (`preserve_counters`), and so is the later `last_used_at`
-- (`GREATEST`, which passes over a NULL).
unfoldable pub later : Option ℕ → Option ℕ → Option ℕ
later none b = b
later (some a) none = some a
later (some a) (some b) = some (max a b)

unfoldable pub keep_counters : Row → AccountMeta → AccountMeta
unfolding later
keep_counters none m = m
keep_counters (some r) m = record m {
  request_count = r.request_count;
  success_count = r.success_count;
  fail_count = r.fail_count;
  last_used_at = later r.last_used_at m.last_used_at;
}

unfoldable pub apply_pool_state_event : ℕ → Patch → ℕ → Row → Row
unfolding keep_counters
apply_pool_state_event now patch version row =
    let m = patch (or_fresh row) in
    let v = record m { state_version = version } in
    let w = keep_counters row (stamp now (stamp now v)) in
    if leb version (or_fresh row).state_version then row else some w
