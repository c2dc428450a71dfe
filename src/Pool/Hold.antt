-- ===== src/Pool/Hold.antt =====
-- The hold of an account, operation by operation (grok2api/pool/account_pool.py).
use grokcli_2api.Base.{
  ◌||◌, not, ℕ, ◌≡◌, ◌∙◌, refl, String, Bool, true, false, Option, none, some, arith, get_or,
  if◌then◌else◌,
}
use grokcli_2api.Base.Dict
use grokcli_2api.Pool.Meta.{AccountMeta, ModelBlock, Row, read}
use grokcli_2api.Pool.Status.{Env, or_fresh, is_in_cooldown, patch_pool_meta}
use grokcli_2api.Pool.Blocks.{block_model, unblock_model, prune_expired_model_blocks}
use grokcli_2api.Pool.View.{pool_meta}
use grokcli_2api.Pool.Stats.{
  StatsUpdate, touch_account_stats, outcome_patch, stats_patch, has_state_patch,
}
use grokcli_2api.Pool.Admin.{set_account_enabled, disable_for_quota, reenable_for_quota}
use grokcli_2api.Pool.Upstream.{some_text}
use grokcli_2api.Pool.Live.{
  lift_found, lift_of, is_soft_block, lift_soft_block, clear_probe_streak, success_update,
  count_success, settle_success, report_success,
}
use grokcli_2api.Pool.Renew.{
  mark_account_expired, clear_account_expired, record_renew_success, record_renew_failure,
  mark_sso_reauth_attempt, mark_sso_reauth_failure,
}
use grokcli_2api.Pool.Commit.{hold, hold-commit_same}

-- What an operation leaves of the hold of `row`.
abbrev pub Keeps : Row → Row → Type 0
Keeps row after = hold (read after) ≡ hold (read row)

Keeps-if : (row x y : Row) (b : Bool) → Keeps row x → Keeps row y → Keeps row (if b then x else y)
Keeps-if row x y true hx hy = hx
Keeps-if row x y false hx hy = hy

pub Keeps-block_model :
    (env : Env) (model reason source : String) (ttl : Option ℕ) (row : Row)
    → Keeps row (block_model env model reason source ttl row)
unfolding block_model patch_pool_meta
Keeps-block_model env model reason source ttl none = ground arith
Keeps-block_model env model reason source ttl (some m) = ground arith

pub Keeps-unblock_model :
    (env : Env) (model : Option String) (row : Row) → Keeps row (unblock_model env model row)
unfolding unblock_model patch_pool_meta
Keeps-unblock_model env none none = refl
Keeps-unblock_model env none (some m) = refl
Keeps-unblock_model env (some model) none = ground arith
Keeps-unblock_model env (some model) (some m) = ground arith

pub Keeps-prune : (env : Env) (row : Row) → Keeps row (prune_expired_model_blocks env row).0
unfolding prune_expired_model_blocks patch_pool_meta
Keeps-prune env none = ground arith
Keeps-prune env (some m) = ground arith

hold-outcome_patch : (u : StatsUpdate) (m : AccountMeta) → hold (outcome_patch u m) ≡ hold m
unfolding outcome_patch
hold-outcome_patch u m = ground arith

hold-stats_patch :
    (now : ℕ) (u : StatsUpdate) (cur m : AccountMeta) → hold (stats_patch now u cur m) ≡ hold m
unfolding stats_patch
hold-stats_patch now u cur m = ground arith

pub Keeps-touch :
    (env : Env) (u : StatsUpdate) (current : Option AccountMeta) (row : Row)
    → Keeps row (some (touch_account_stats env u current row))
unfolding touch_account_stats
Keeps-touch env u current row =
    hold-commit_same env (stats_patch env.now u (get_or current (read failed))) failed
      (hold-stats_patch env.now u (get_or current (read failed)) (or_fresh failed))
    ∙ Keeps-if row row written (u.success || not (has_state_patch u)) refl
        (hold-commit_same env (outcome_patch u) row (hold-outcome_patch u (or_fresh row)))
  where
    written : Row
    written = some (patch_pool_meta env (outcome_patch u) row)

    failed : Row
    failed = if u.success || not (has_state_patch u) then row else written

-- The actions of an operator and of the quota check, other than a recovery.
pub Keeps-set_account_enabled :
    (env : Env) (on : Bool) (row : Row) → Keeps row (set_account_enabled env on row)
unfolding set_account_enabled patch_pool_meta
Keeps-set_account_enabled env true none = refl
Keeps-set_account_enabled env true (some m) = refl
Keeps-set_account_enabled env false none = refl
Keeps-set_account_enabled env false (some m) = refl

pub Keeps-disable_for_quota :
    (env : Env) (reason source : String) (row : Row)
    → Keeps row (disable_for_quota env reason source row)
unfolding disable_for_quota patch_pool_meta
Keeps-disable_for_quota env reason source none = refl
Keeps-disable_for_quota env reason source (some m) = refl

pub Keeps-reenable_for_quota :
    (env : Env) (reason : String) (row : Row) → Keeps row (reenable_for_quota env reason row)
unfolding reenable_for_quota patch_pool_meta
Keeps-reenable_for_quota env reason none = refl
Keeps-reenable_for_quota env reason (some m) = refl

-- Expiry and renewal.
pub Keeps-mark_account_expired :
    (env : Env) (reason : String) (row : Row) → Keeps row (mark_account_expired env reason row)
unfolding mark_account_expired patch_pool_meta
Keeps-mark_account_expired env reason none = refl
Keeps-mark_account_expired env reason (some m) = refl

pub Keeps-record_renew_success :
    (env : Env) (source : String) (row : Row) → Keeps row (record_renew_success env source row)
unfolding record_renew_success clear_account_expired patch_pool_meta
Keeps-record_renew_success env source none = refl
Keeps-record_renew_success env source (some m) = refl

pub Keeps-record_renew_failure :
    (env : Env) (error source : String) (row : Row)
    → Keeps row (record_renew_failure env error source row).1
unfolding record_renew_failure patch_pool_meta
Keeps-record_renew_failure env error source none = refl
Keeps-record_renew_failure env error source (some m) = refl

pub Keeps-sso_attempt : (env : Env) (row : Row) → Keeps row (mark_sso_reauth_attempt env row)
unfolding mark_sso_reauth_attempt patch_pool_meta
Keeps-sso_attempt env none = refl
Keeps-sso_attempt env (some m) = refl

pub Keeps-sso_failure :
    (env : Env) (error : String) (wait : ℕ) (row : Row)
    → Keeps row (mark_sso_reauth_failure env error wait row)
unfolding mark_sso_reauth_failure patch_pool_meta
Keeps-sso_failure env error wait none = refl
Keeps-sso_failure env error wait (some m) = refl

Keeps-lift_found :
    (env : Env) (model : String) (b : Option ModelBlock) (row : Row)
    → Keeps row (lift_found env model b row)
unfolding lift_found
Keeps-lift_found env model none row = refl
Keeps-lift_found env model (some b) row =
    Keeps-if row _ row (is_soft_block b) (Keeps-unblock_model env (some model) row) refl

Keeps-lift_of :
    (env : Env) (model : Option String) (meta : AccountMeta) (row : Row)
    → Keeps row (lift_of env model meta row)
unfolding lift_of
Keeps-lift_of env none meta row = refl
Keeps-lift_of env (some model) meta row =
    Keeps-lift_found env model (Dict.get model meta.blocked_models) row

Keeps-lift :
    (env : Env) (model : Option String) (meta : AccountMeta) (row : Row)
    → Keeps row (lift_soft_block env model meta row)
unfolding lift_soft_block
Keeps-lift env model meta row = Keeps-lift_of env (some_text model) meta row

Keeps-streak :
    (env : Env) (meta : AccountMeta) (row : Row) → Keeps row (clear_probe_streak env meta row)
unfolding clear_probe_streak patch_pool_meta
Keeps-streak env meta none = ground arith
Keeps-streak env meta (some m) = ground arith

-- A successful request leaves the hold as it is.
pub Keeps-report_success :
    (env : Env) (model : Option String) (row : Row) → Keeps row (report_success env model row)
unfolding report_success
Keeps-report_success env model row =
    Keeps-if row (some saved) (settle_success env model saved)
      (is_in_cooldown env.now (pool_meta env.now (read row))) counted
      (Keeps-lift env model after (clear_probe_streak env after (some saved))
        ∙ Keeps-streak env after (some saved)
        ∙ counted)
  where
    saved : AccountMeta
    saved = count_success env row

    after : AccountMeta
    after = pool_meta env.now saved

    counted : Keeps row (some saved)
    counted = Keeps-touch env success_update (some (pool_meta env.now (read row))) row
