-- ===== src/Pool/Stats.antt =====
-- `touch_account_stats` (grok2api/admin/settings_store.py) on its synchronous PostgreSQL path: the
-- counters, the failure fields and the status of one account. The Redis copy of the counters and the
-- event queue that replaces the write when it is on are other components' state.
use grokcli_2api.Base.{
  ℕ, ◌+◌, String, Bool, not, ◌&&◌, ◌||◌, Option, none, some, get_or, or_else, is_some, is_text,
  if◌then◌else◌,
}
use grokcli_2api.Pool.Meta.{AccountMeta, Row, read, cooldown}
use grokcli_2api.Pool.Status.{Env, Patch, patch_pool_meta, file_pool_status, is_after}

-- The keyword arguments.
pub record StatsUpdate : Type 0 where
  pub success : Bool
  pub error : String
  pub cooldown_until : Option ℕ
  pub clear_cooldown : Bool
  pub consecutive_fails : Option ℕ
  pub last_status_code : Option ℕ
  pub cooldown_sec : Option ℕ
  pub preserve_cooldown : Bool

-- `durable_patch` without `last_used_at`.
unfoldable pub outcome_patch : StatsUpdate → Patch
outcome_patch u m =
    let fails = get_or u.consecutive_fails (if u.success then 0 else m.consecutive_fails) in
    let clear = u.clear_cooldown && not u.preserve_cooldown in
    if u.success
    then record m {
      consecutive_fails = fails;
      last_error = if u.preserve_cooldown then m.last_error else none;
      cooldown_until = if clear then none else m.cooldown_until;
      cooldown_sec = if clear then none else m.cooldown_sec;
    }
    else record m {
      consecutive_fails = fails;
      last_error = if is_text u.error then some u.error else m.last_error;
      last_status_code = or_else u.last_status_code m.last_status_code;
      cooldown_until = or_else u.cooldown_until m.cooldown_until;
      cooldown_sec = or_else u.cooldown_sec m.cooldown_sec;
    }

-- The counters, from what the caller read of the account.
unfoldable pub counter_patch : ℕ → StatsUpdate → AccountMeta → Patch
counter_patch now u cur m = record m {
  last_used_at = some now;
  request_count = cur.request_count + 1;
  success_count = if u.success then cur.success_count + 1 else m.success_count;
  fail_count = if u.success then m.fail_count else cur.fail_count + 1;
}

-- The last patch. While the account cools and the cooldown is preserved, the stored reason stays.
unfoldable pub stats_patch : ℕ → StatsUpdate → AccountMeta → Patch
unfolding outcome_patch counter_patch
stats_patch now u cur m =
    let patch = λ (x : AccountMeta). counter_patch now u cur (outcome_patch u x) in
    let merged = patch cur in
    let cooling = is_after cur.cooldown_until now in
    if u.preserve_cooldown && cooling
    then record (patch m) { last_error = m.last_error; pool_status = some cooldown }
    else record (patch m) { pool_status = some (file_pool_status now merged) }

-- The failure's `state_patch` is not empty.
unfoldable pub has_state_patch : StatsUpdate → Bool
has_state_patch u =
    is_some u.consecutive_fails
    || is_text u.error
    || is_some u.last_status_code
    || is_some u.cooldown_until
    || is_some u.cooldown_sec

-- `current` is `current_meta`; without it the row is read.
unfoldable pub touch_account_stats : Env → StatsUpdate → Option AccountMeta → Row → AccountMeta
unfolding stats_patch has_state_patch
touch_account_stats env u current row =
    let failed : Row =
      if u.success || not (has_state_patch u)
      then row
      else some (patch_pool_meta env (outcome_patch u) row) in
    patch_pool_meta env (stats_patch env.now u (get_or current (read failed))) failed
