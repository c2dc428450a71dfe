-- ===== src/Pool/Kept.antt =====
-- Kicks and failing probes on an account that is held (grok2api/pool/account_pool.py).
use grokcli_2api.Base.{
  ℕ, ◌+◌, ◌≡◌, ◌≤◌, ap, ltb, get_or, cut, ◌∙◌, refl, String, Bool, true, false, Option, none, some,
  arith, ◌&&◌, leb, if◌then◌else◌, Bool-cases, inl, inr,
}
use grokcli_2api.Pool.Meta.{AccountMeta, Row, read}
use grokcli_2api.Pool.Status.{Env, or_fresh, patch_pool_meta}
use grokcli_2api.Pool.Cooldown.{CooldownPolicy, stack_cooldown_count, stack_status_entry}
use grokcli_2api.Pool.View.{pool_meta}
use grokcli_2api.Pool.FreeUsage.{UpstreamError, Kick, apply_free_usage_cooldown}
use grokcli_2api.Pool.Stats.{StatsUpdate, touch_account_stats}
use grokcli_2api.Pool.Admin.{
  or_text, soft_kick_patch, soft_kick_update, kick_from_pool, soft_kick, hard_kick,
}
use grokcli_2api.Pool.Probe.{
  Probe, probe_failed, after_usage_check, escalate, streak_patch, failed_patch, escalated_patch,
  probe_entry,
}
use grokcli_2api.Pool.Commit.{is_held, is_holding, hold-commit}
use grokcli_2api.Pool.Hold.{Keeps, Keeps-touch}
use grokcli_2api.Pool.Failure.{
  held_of_Keeps, KickHolds, apply_free_usage-KickHolds, length-stack_status_entry,
}

pub count_positive : (now : ℕ) (m : AccountMeta) → 1 ≤ stack_cooldown_count now m 1
unfolding stack_cooldown_count
count_positive now m = ground arith

pub held-if :
    (b : Bool) (x y : Row)
    → is_held (read x) ≡ true
    → is_held (read y) ≡ true
    → is_held (read (if b then x else y)) ≡ true
held-if true x y hx hy = hx
held-if false x y hx hy = hy

pub held-soft_kick :
    (env : Env) (reason : String) (row : Row) → is_held (read (soft_kick env reason row)) ≡ true
unfolding soft_kick
held-soft_kick env reason row =
    held_of_Keeps kicked (some (touch_account_stats env update none kicked))
      (Keeps-touch env update none kicked) (patched row)
  where
    count : ℕ
    count = stack_cooldown_count env.now (pool_meta env.now (read row)) 1

    update : StatsUpdate
    update = soft_kick_update env.now count reason (pool_meta env.now (read row)).consecutive_fails

    kicked : Row
    kicked = some (patch_pool_meta env (soft_kick_patch env.now count reason) row)

    patched :
        (r : Row) → is_held (patch_pool_meta env (soft_kick_patch env.now count reason) r) ≡ true
    patched r = ap is_holding (hold-commit env (soft_kick_patch env.now count reason) r) ∙ positive
      where
        positive : is_holding (count, (or_fresh r).status_stack) ≡ true
        positive = ground (arith, count_positive env.now (pool_meta env.now (read row)))

pub Keeps-hard_kick :
    (env : Env) (reason : String) (row : Row) → Keeps row (hard_kick env reason row)
unfolding hard_kick patch_pool_meta
Keeps-hard_kick env reason none = refl
Keeps-hard_kick env reason (some m) = refl

pub held-kick_from_pool :
    (env : Env) (reason : String) (wait : Option ℕ) (row : Row)
    → is_held (read row) ≡ true
    → is_held (read (kick_from_pool env reason wait row)) ≡ true
unfolding kick_from_pool
held-kick_from_pool env reason wait row h =
    held-if (ltb 0 (get_or wait 0)) (soft_kick env cut_reason row) (hard_kick env cut_reason row)
      (held-soft_kick env cut_reason row)
      (held_of_Keeps row (hard_kick env cut_reason row) (Keeps-hard_kick env cut_reason row) h)
  where
    cut_reason : String
    cut_reason = cut 300 (or_text reason "手动移出轮询")

pub Keeps-failed :
    (env : Env) (streak : ℕ) (model : Option String) (e : UpstreamError) (row : Row)
    → Keeps row (some (patch_pool_meta env (failed_patch env.now streak model e) row))
unfolding failed_patch patch_pool_meta
Keeps-failed env streak model e none = refl
Keeps-failed env streak model e (some m) = refl

pub held-escalated :
    (env : Env) (streak : ℕ) (p : Probe) (e : UpstreamError) (meta : AccountMeta) (row : Row)
    → is_held (
        patch_pool_meta env
          (escalated_patch env.now streak p.model e
            (stack_status_entry meta (probe_entry env.now streak p.model e p.source)))
          row)
      ≡ true
unfolding escalated_patch patch_pool_meta
held-escalated env streak p e meta row =
    ground (arith, length-stack_status_entry meta (probe_entry env.now streak p.model e p.source))

pub Keeps-streak_patch :
    (env : Env) (streak : ℕ) (row : Row)
    → Keeps row (some (patch_pool_meta env (streak_patch env.now streak) row))
unfolding streak_patch patch_pool_meta
Keeps-streak_patch env streak none = refl
Keeps-streak_patch env streak (some m) = refl

pub held-escalate :
    (env : Env) (pol : CooldownPolicy) (p : Probe) (e : UpstreamError) (meta : AccountMeta)
    (row : Row)
    → is_held (read row) ≡ true
    → is_held (read (escalate env pol p e meta row).1) ≡ true
unfolding escalate
held-escalate env pol p e meta row h =
    elim (Bool-cases (p.auto_kick && leb pol.probe_fail_kick_streak streak)) [
      | inl long ↦ rw long (held-escalated env streak p e meta row)
      | inr short ↦ rw short (
          held_of_Keeps row (some (patch_pool_meta env (failed_patch env.now streak p.model e) row))
            (Keeps-failed env streak p.model e row) h)
    ]
  where
    streak : ℕ
    streak = meta.probe_fail_streak + 1

pub held-after_usage_check :
    (env : Env) (pol : CooldownPolicy) (p : Probe) (e : UpstreamError) (meta : AccountMeta)
    (row : Row) (answer : Option (Kick × Row))
    → KickHolds answer
    → is_held (read row) ≡ true
    → is_held (read (after_usage_check env pol p e meta row answer).1) ≡ true
unfolding after_usage_check
held-after_usage_check env pol p e meta row (some (kick, held)) k h =
    held_of_Keeps held (some (patch_pool_meta env (streak_patch env.now streak) held))
      (Keeps-streak_patch env streak held) k
  where
    streak : ℕ
    streak = meta.probe_fail_streak + 1
held-after_usage_check env pol p e meta row none k h = held-escalate env pol p e meta row h

pub held-probe_failed :
    (env : Env) (pol : CooldownPolicy) (p : Probe) (e : UpstreamError) (row : Row)
    → is_held (read row) ≡ true
    → is_held (read (probe_failed env pol p e row).1) ≡ true
unfolding probe_failed
held-probe_failed env pol p e row h =
    held-after_usage_check env pol p e (pool_meta env.now (read row)) row
      (apply_free_usage_cooldown env e p.model p.source row)
      (apply_free_usage-KickHolds env e p.model p.source row) h
