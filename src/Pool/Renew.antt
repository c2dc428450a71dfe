-- ===== src/Pool/Renew.antt =====
-- Token expiry and renewal in grok2api/pool/account_pool.py, on the row of one account. The hard
-- deletion of an account, which `remove_from_pool_after_renew_failure` does by default, removes the
-- row; its soft variant is the patch here.
use grokcli_2api.Base.{
  ℕ, ◌+◌, String, Bool, true, false, ◌||◌, Option, none, some, max, or_else, get_or, cut, str_eq,
  ◌==◌, if◌then◌else◌,
}
use grokcli_2api.Pool.Meta.{AccountMeta, Row, read, PoolStatus, normal, RenewStatus, ok}
use grokcli_2api.Pool.Status.{Env, Patch, patch_pool_meta}
use grokcli_2api.Pool.Admin.{or_text}

-- `mark_account_expired`
unfoldable pub mark_account_expired : Env → String → Row → Row
mark_account_expired env reason row =
    let cur = read row in
    some (
      patch_pool_meta env
        (λ m. record m {
          pool_status = some PoolStatus.expired;
          token_expired_at = or_else cur.token_expired_at (some env.now);
          token_expired_reason = some reason;
          last_renew_status = or_else cur.last_renew_status (some RenewStatus.expired);
          last_error = some reason;
        })
        row)

abbrev pub was_removed : Option RenewStatus → Bool
was_removed none = false
was_removed (some RenewStatus.no_sso_removed) = true
was_removed (some _) = false

-- The markers of a removal for want of SSO.
abbrev pub has_removal_marker : AccountMeta → Bool
has_removal_marker cur =
    let source = get_or cur.disabled_source "" in
    str_eq source "renew_fail_no_sso" || str_eq source "kick" || was_removed cur.last_renew_status

-- `clear_account_expired`
unfoldable pub renewed_patch : ℕ → String → AccountMeta → Patch
renewed_patch now source cur m =
    let wipe = if cur.disabled_for_quota then false else has_removal_marker cur in
    record m {
      pool_status = some normal;
      token_expired_at = none;
      token_expired_reason = none;
      renew_fail_count = 0;
      last_renew_fail_at = none;
      last_renew_error = none;
      last_renew_status = some ok;
      last_renew_source = some source;
      last_renew_ok_at = some now;
      sso_reauth_attempted_at = none;
      sso_reauth_failed_at = none;
      sso_reauth_error = none;
      sso_reauth_next_at = none;
      last_error = none;
      enabled = if cur.disabled_for_quota then m.enabled else true;
      disabled_reason = if wipe then none else m.disabled_reason;
      disabled_source = if wipe then none else m.disabled_source;
    }

unfoldable pub clear_account_expired : Env → String → Row → Row
unfolding renewed_patch
clear_account_expired env source row =
    some (patch_pool_meta env (renewed_patch env.now source (read row)) row)

-- `record_renew_success`
unfoldable pub record_renew_success : Env → String → Row → Row
record_renew_success env source row = clear_account_expired env source row

-- `record_renew_failure`: the count of failures in a row, and the row.
unfoldable pub record_renew_failure : Env → String → String → Row → ℕ × Row
record_renew_failure env error source row =
    let cur = read row in
    let n = cur.renew_fail_count + 1 in
    let msg = cut 300 (or_text error "renew_failed") in
    (
      n,
      some (
          patch_pool_meta env
            (λ m. record m {
              pool_status = some PoolStatus.expired;
              token_expired_at = or_else cur.token_expired_at (some env.now);
              token_expired_reason = or_else cur.token_expired_reason (some "renew_failed");
              renew_fail_count = n;
              last_renew_fail_at = some env.now;
              last_renew_error = some msg;
              last_renew_status = some RenewStatus.failed;
              last_renew_source = some source;
              last_error = some msg;
            })
            row),
    )

-- `mark_sso_reauth_attempt`
unfoldable pub mark_sso_reauth_attempt : Env → Row → Row
mark_sso_reauth_attempt env row = some (
    patch_pool_meta env
      (λ m. record m {
        sso_reauth_attempted_at = some env.now;
        last_renew_status = some RenewStatus.sso_attempt;
        last_renew_source = some "sso";
      })
      row)

-- `mark_sso_reauth_failure`; a cooldown of 0 stands for the hour.
unfoldable pub mark_sso_reauth_failure : Env → String → ℕ → Row → Row
mark_sso_reauth_failure env error cooldown_sec row =
    let msg = cut 300 (or_text error "sso_reauth_failed") in
    some (
      patch_pool_meta env
        (λ m. record m {
          pool_status = some PoolStatus.expired;
          sso_reauth_failed_at = some env.now;
          sso_reauth_error = some msg;
          sso_reauth_next_at =
              some (env.now + max 60_000 (if cooldown_sec == 0 then 3_600_000 else cooldown_sec));
          last_renew_status = some RenewStatus.sso_failed;
          last_renew_source = some "sso";
          last_error = some msg;
        })
        row)

-- `remove_from_pool_after_renew_failure` with `hard_delete=False`.
unfoldable pub soft_remove : Env → String → Row → Row
soft_remove env reason row =
    let msg = cut 300 (or_text reason "连续续期失败且无 SSO，已删除账号") in
    some (
      patch_pool_meta env
        (λ m. record m {
          enabled = false;
          disabled_for_quota = false;
          pool_status = some PoolStatus.expired;
          token_expired_at = some env.now;
          token_expired_reason = some msg;
          last_renew_status = some RenewStatus.no_sso_removed;
          last_renew_error = some msg;
          last_error = some msg;
          disabled_reason = some msg;
          disabled_source = some "renew_fail_no_sso";
          cooldown_until = none;
          cooldown_count = 0;
        })
        row)
