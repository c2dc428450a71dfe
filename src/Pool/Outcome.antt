-- ===== src/Pool/Outcome.antt =====
-- What a failed request and a failing probe do to the counters of an account.
use grokcli_2api.Base.{◌+◌, ◌∙◌, refl, String, Option, none, some, arith, length}
use grokcli_2api.Pool.Meta.{AccountMeta, Row, read}
use grokcli_2api.Pool.Status.{Env, patch_pool_meta}
use grokcli_2api.Pool.Cooldown.{CooldownPolicy, stack_status_entry}
use grokcli_2api.Pool.View.{pool_meta}
use grokcli_2api.Pool.FreeUsage.{UpstreamError, Kick, apply_free_usage_cooldown}
use grokcli_2api.Pool.Upstream.{
  Classified, Policy, some_text, handle_upstream_error_for_quota, handle_upstream_error_for_model,
}
use grokcli_2api.Pool.Live.{
  report_failure, act_on_error, cool_down, count_usage_failure, usage_failure_update, stack_failure,
  failure_patch, failure_update, failure_entry,
}
use grokcli_2api.Pool.Probe.{
  Probe, probe_failed, after_usage_check, escalate, streak_patch, failed_patch, escalated_patch,
}
use grokcli_2api.Pool.Counters.{Uncounted, counts-commit}
use grokcli_2api.Pool.Blame.{
  Balances, Preserves, of_Uncounted, Preserves-touch, Preserves-touched, Preserves-quota,
  AnswerUncounted, answer_uncounted, Preserves-model,
}

pub Preserves-act_on_error :
    (env : Env) (pol : Policy) (e : Classified) (model : Option String) (row : Row)
    → Preserves row (act_on_error env pol e model row)
unfolding act_on_error
Preserves-act_on_error env pol e model row h = of_model (some_text model)
  where
    quota : Row
    quota = (handle_upstream_error_for_quota env e row).1

    of_model :
        (o : Option String)
        → Balances (elim o [
          | none ↦ quota
          | some m ↦ (handle_upstream_error_for_model env pol e (some m) quota).1
        ])
    of_model none = Preserves-quota env e row h
    of_model (some m) = Preserves-model env pol e (some m) quota (Preserves-quota env e row h)

pub Preserves-cool_down :
    (env : Env) (e : Classified) (model : Option String) (meta : AccountMeta) (row : Row)
    (answer : Option (Kick × Row))
    → AnswerUncounted row answer
    → Preserves row (cool_down env e model meta row answer)
unfolding cool_down count_usage_failure stack_failure failure_patch
Preserves-cool_down env e model meta row (some (kick, kicked)) a h =
    Preserves-touch env (usage_failure_update e (meta.consecutive_fails + 1) kick) kicked
      (of_Uncounted row kicked a h)
Preserves-cool_down env e model meta row none a h =
    Preserves-touched env
      (failure_update env.now e (meta.consecutive_fails + 1)
        (length (stack_status_entry meta (failure_entry env.now e model))))
      (failure_patch env.now e model meta) row refl h

pub Preserves-report_failure :
    (env : Env) (pol : Policy) (e : Classified) (model : Option String) (row : Row)
    → Preserves row (report_failure env pol e model row)
unfolding report_failure
Preserves-report_failure env pol e model row h =
    Preserves-cool_down env e model (pool_meta env.now (read row)) acted
      (apply_free_usage_cooldown env e.upstream model "live" acted)
      (answer_uncounted env e.upstream model "live" acted)
      (Preserves-act_on_error env pol e model row h)
  where
    acted : Row
    acted = act_on_error env pol e model row

pub Uncounted-escalate :
    (env : Env) (pol : CooldownPolicy) (p : Probe) (e : UpstreamError) (meta : AccountMeta)
    (row : Row)
    → Uncounted row (escalate env pol p e meta row).1
unfolding escalate escalated_patch failed_patch patch_pool_meta
Uncounted-escalate env pol p e meta none = ground arith
Uncounted-escalate env pol p e meta (some m) = ground arith

pub Uncounted-after_usage_check :
    (env : Env) (pol : CooldownPolicy) (p : Probe) (e : UpstreamError) (meta : AccountMeta)
    (row : Row) (answer : Option (Kick × Row))
    → AnswerUncounted row answer
    → Uncounted row (after_usage_check env pol p e meta row answer).1
unfolding after_usage_check streak_patch
Uncounted-after_usage_check env pol p e meta row (some (kick, kicked)) a =
    counts-commit env (streak_patch env.now (meta.probe_fail_streak + 1)) kicked refl ∙ a
Uncounted-after_usage_check env pol p e meta row none a = Uncounted-escalate env pol p e meta row

pub Uncounted-probe_failed :
    (env : Env) (pol : CooldownPolicy) (p : Probe) (e : UpstreamError) (row : Row)
    → Uncounted row (probe_failed env pol p e row).1
unfolding probe_failed
Uncounted-probe_failed env pol p e row =
    Uncounted-after_usage_check env pol p e (pool_meta env.now (read row)) row
      (apply_free_usage_cooldown env e p.model p.source row)
      (answer_uncounted env e p.model p.source row)
