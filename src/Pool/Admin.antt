-- ===== src/Pool/Admin.antt =====
-- Operator and quota actions of grok2api/pool/account_pool.py: `clear_account_cooldown`,
-- `kick_from_pool`, `set_account_enabled`, `disable_for_quota` and `reenable_for_quota`, on the row of
-- one account. The Redis copy of the cooldown and the conversation bindings are other components'.
use grokcli_2api.Base.{
  ℕ, ◌+◌, ◌*◌, String, Bool, true, false, Option, none, some, [], max, ltb, cut, is_text, ◌<>◌,
  get_or, if◌then◌else◌,
}
use grokcli_2api.Pool.Meta.{Row, read, normal, cooldown, disabled}
use grokcli_2api.Pool.Status.{Env, Patch, patch_pool_meta}
use grokcli_2api.Pool.Cooldown.{probe_hold, stack_cooldown_count}
use grokcli_2api.Pool.View.{pool_meta}
use grokcli_2api.Pool.Stats.{StatsUpdate, touch_account_stats}

-- The keys that a recovery clears.
unfoldable pub clear_patch : Patch
clear_patch m = record m {
  cooldown_count = 0;
  status_stack = [];
  cooldown_until = none;
  cooldown_sec = none;
  cooldown_reason = none;
  cooldown_code = none;
  cooldown_model = none;
  cooldown_tokens_actual = none;
  cooldown_tokens_limit = none;
  cooldown_detail = none;
  consecutive_fails = 0;
  probe_fail_streak = 0;
  last_error = none;
  last_probe_status = some "normal";
  pool_status = some normal;
}

unfoldable pub clear_account_cooldown : Env → Row → Row
unfolding clear_patch
clear_account_cooldown env row = some (patch_pool_meta env clear_patch row)

abbrev pub or_text : String → String → String
or_text s d = if is_text s then s else d

unfoldable pub soft_kick_patch : ℕ → ℕ → String → Patch
soft_kick_patch now count reason m = record m {
  cooldown_count = count;
  pool_status = some cooldown;
  cooldown_until = some (now + probe_hold);
  cooldown_sec = some (count * 1_000);
  last_error = some reason;
}

unfoldable pub soft_kick_update : ℕ → ℕ → String → ℕ → StatsUpdate
soft_kick_update now count reason fails = record {
  success = false;
  error = reason;
  cooldown_until = some (now + probe_hold);
  clear_cooldown = false;
  consecutive_fails = some (max 1 fails);
  last_status_code = none;
  cooldown_sec = some (count * 1_000);
  preserve_cooldown = false;
}

-- The soft kick: one more on the count, and a far-future marker.
unfoldable pub soft_kick : Env → String → Row → Row
unfolding soft_kick_patch soft_kick_update
soft_kick env reason row =
    let meta0 = pool_meta env.now (read row) in
    let count = stack_cooldown_count env.now meta0 1 in
    some (
      touch_account_stats env (soft_kick_update env.now count reason meta0.consecutive_fails) none
        (some (patch_pool_meta env (soft_kick_patch env.now count reason) row)))

-- The hard kick: the account is disabled, not for quota.
unfoldable pub hard_kick : Env → String → Row → Row
hard_kick env reason row = some (
    patch_pool_meta env
      (λ m. record m {
        enabled = false;
        disabled_reason = some reason;
        last_error = some reason;
        pool_status = some disabled;
      })
      row)

-- `kick_from_pool`: soft with a positive `cooldown_sec`, hard without.
unfoldable pub kick_from_pool : Env → String → Option ℕ → Row → Row
unfolding soft_kick hard_kick
kick_from_pool env reason cooldown_sec row =
    let reason_s = cut 300 (or_text reason "手动移出轮询") in
    if ltb 0 (get_or cooldown_sec 0) then soft_kick env reason_s row else hard_kick env reason_s row

-- `set_account_enabled`
unfoldable pub enable_patch : Patch
enable_patch m = record m {
  enabled = true;
  disabled_for_quota = false;
  disabled_reason = none;
  disabled_source = none;
  quota_disabled_at = none;
  quota_source = none;
  blocked_models = [];
  cooldown_until = none;
  cooldown_sec = none;
  consecutive_fails = 0;
  last_error = none;
  last_status_code = none;
  pool_status = some normal;
}

unfoldable pub set_account_enabled : Env → Bool → Row → Row
unfolding enable_patch
set_account_enabled env true row = some (patch_pool_meta env enable_patch row)
set_account_enabled env false row =
    some (patch_pool_meta env (λ m. record m { enabled = false; pool_status = some disabled }) row)

-- `disable_for_quota`
unfoldable pub disable_for_quota : Env → String → String → Row → Row
disable_for_quota env reason source row =
    let reason_s = cut 300 (or_text reason "额度已耗尽") in
    some (
      patch_pool_meta env
        (λ m. record m {
          enabled = false;
          disabled_for_quota = true;
          disabled_reason = some reason_s;
          disabled_source = some source;
          quota_disabled_at = some env.now;
          quota_source = some source;
          last_error = some reason_s;
          last_quota = some (record {
            fetched_at = env.now;
            exhausted = true;
            auto_disabled = true;
            summary = "额度耗尽 · 已移出轮询（" <> reason_s <> "）";
            source = or_text source "billing";
          });
        })
        row)

-- `reenable_for_quota`
unfoldable pub reenable_for_quota : Env → String → Row → Row
reenable_for_quota env reason row = some (
    patch_pool_meta env
      (λ m. record m {
        enabled = true;
        disabled_for_quota = false;
        disabled_reason = none;
        disabled_source = none;
        quota_disabled_at = none;
        quota_source = none;
        pool_status = some normal;
        last_error = some (cut 300 (or_text reason "额度已恢复"));
      })
      row)
