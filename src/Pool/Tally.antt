-- ===== src/Pool/Tally.antt =====
-- How often a failed request is counted.
use grokcli_2api.Base.{
  ◌+◌, ◌≡◌, ◌∙◌, refl, ap, String, Bool, true, false, Option, none, some, if◌then◌else◌, not,
  length,
}
use mathlib.Core.Bool.{true≢false}
use grokcli_2api.Pool.Meta.{AccountMeta, Row, read}
use grokcli_2api.Pool.Status.{Env, Patch, patch_pool_meta}
use grokcli_2api.Pool.Cooldown.{stack_status_entry}
use grokcli_2api.Pool.View.{pool_meta}
use grokcli_2api.Pool.FreeUsage.{Kick, apply_free_usage_cooldown}
use grokcli_2api.Pool.Admin.{disable_for_quota}
use grokcli_2api.Pool.Upstream.{
  Classified, Policy, some_text, handle_upstream_error_for_quota, handle_upstream_error_for_model,
  block_account, block_unavailable, reason_of, on_temporary, on_model,
}
use grokcli_2api.Pool.Live.{
  report_failure, act_on_error, cool_down, count_usage_failure, usage_failure_update, stack_failure,
  failure_patch, failure_update, failure_entry,
}
use grokcli_2api.Pool.Counters.{Counts, counts, count_one, Uncounted, counts-commit, counts-touch}
use grokcli_2api.Pool.Blame.{
  AnswerUncounted, answer_uncounted, Uncounted-on_temporary, Uncounted-disable_for_quota,
}

-- A test that fails.
otherwise :
    (row : Row) (x y : Bool × Row) (b : Bool)
    → b ≡ false
    → Uncounted row y.1
    → Uncounted row (if b then x else y).1
otherwise row x y true fails h = elim (true≢false fails) [ ]
otherwise row x y false fails h = h

either :
    (row : Row) (x y : Bool × Row) (b : Bool)
    → Uncounted row x.1
    → Uncounted row y.1
    → Uncounted row (if b then x else y).1
either row x y true hx hy = hx
either row x y false hx hy = hy

Uncounted-on_model :
    (env : Env) (pol : Policy) (e : Classified) (model : Option String) (row : Row)
    → e.model_unavailable ≡ false
    → Uncounted row (on_model env pol e model row).1
unfolding on_model
Uncounted-on_model env pol e none row there = refl
Uncounted-on_model env pol e (some model) row there =
    otherwise row (true, block_unavailable env pol e model row) (false, row) e.model_unavailable
      there refl

Uncounted-model :
    (env : Env) (pol : Policy) (e : Classified) (model : Option String) (row : Row)
    → e.account_block ≡ false
    → e.model_unavailable ≡ false
    → Uncounted row (handle_upstream_error_for_model env pol e model row).1
unfolding handle_upstream_error_for_model
Uncounted-model env pol e model row fine there =
    either row (false, row) decided (not pol.auto_disable) refl
      (either row (true, on_temporary env (some_text model) row answer) blamed e.temporary
        (Uncounted-on_temporary env (some_text model) row answer
          (answer_uncounted env e.upstream (some_text model) "upstream" row))
        (otherwise row (true, block_account env pol e row)
          (on_model env pol e (some_text model) row) e.account_block fine
          (Uncounted-on_model env pol e (some_text model) row there)))
  where
    answer : Option (Kick × Row)
    answer = apply_free_usage_cooldown env e.upstream (some_text model) "upstream" row

    blamed : Bool × Row
    blamed =
        if e.account_block
        then (true, block_account env pol e row)
        else on_model env pol e (some_text model) row

    decided : Bool × Row
    decided = if e.temporary then (true, on_temporary env (some_text model) row answer) else blamed

pub Uncounted-quota :
    (env : Env) (e : Classified) (row : Row)
    → Uncounted row (handle_upstream_error_for_quota env e row).1
unfolding handle_upstream_error_for_quota
Uncounted-quota env e row =
    either row (true, disable_for_quota env (reason_of "上游额度错误" 120 e) "upstream_error" row)
      (false, row) e.hard_quota
      (Uncounted-disable_for_quota env (reason_of "上游额度错误" 120 e) "upstream_error" row) refl

Uncounted-act_on_error :
    (env : Env) (pol : Policy) (e : Classified) (model : Option String) (row : Row)
    → e.account_block ≡ false
    → e.model_unavailable ≡ false
    → Uncounted row (act_on_error env pol e model row)
unfolding act_on_error
Uncounted-act_on_error env pol e model row fine there = of_model (some_text model)
  where
    quota : Row
    quota = (handle_upstream_error_for_quota env e row).1

    of_model :
        (o : Option String)
        → Uncounted row (elim o [
          | none ↦ quota
          | some m ↦ (handle_upstream_error_for_model env pol e (some m) quota).1
        ])
    of_model none = Uncounted-quota env e row
    of_model (some m) =
        Uncounted-model env pol e (some m) quota fine there ∙ Uncounted-quota env e row

counts-cool_down :
    (env : Env) (e : Classified) (model : Option String) (meta : AccountMeta) (row : Row)
    (answer : Option (Kick × Row))
    → AnswerUncounted row answer
    → counts (read (cool_down env e model meta row answer)) ≡ count_one false (counts (read row))
unfolding cool_down count_usage_failure stack_failure failure_patch usage_failure_update
    failure_update
counts-cool_down env e model meta row (some (kick, kicked)) a =
    counts-touch env (usage_failure_update e (meta.consecutive_fails + 1) kick) none kicked refl
    ∙ ap (count_one false) a
counts-cool_down env e model meta row none a =
    counts-touch env
      (failure_update env.now e (meta.consecutive_fails + 1)
        (length (stack_status_entry meta (failure_entry env.now e model))))
      none (some (patch_pool_meta env patch row)) refl
    ∙ ap (count_one false) (counts-commit env patch row refl)
  where
    patch : Patch
    patch = failure_patch env.now e model meta

pub counts-report_failure :
    (env : Env) (pol : Policy) (e : Classified) (model : Option String) (row : Row)
    → counts (read (report_failure env pol e model row))
      ≡ count_one false (counts (read (act_on_error env pol e model row)))
unfolding report_failure
counts-report_failure env pol e model row =
    counts-cool_down env e model (pool_meta env.now (read row)) acted
      (apply_free_usage_cooldown env e.upstream model "live" acted)
      (answer_uncounted env e.upstream model "live" acted)
  where
    acted : Row
    acted = act_on_error env pol e model row

failure-counts :
    (env : Env) (pol : Policy) (e : Classified) (model : Option String) (row : Row)
    → e.account_block ≡ false
    → e.model_unavailable ≡ false
    → counts (read (report_failure env pol e model row)) ≡ count_one false (counts (read row))
failure-counts env pol e model row fine there =
    counts-report_failure env pol e model row
    ∙ ap (count_one false) (Uncounted-act_on_error env pol e model row fine there)

-- A failed request whose error blames neither the account nor the model counts one failure, whatever
-- the error is otherwise.
pub failure_counted :
    (env : Env) (pol : Policy) (e : Classified) (model : Option String) (row : Row)
    → e.account_block ≡ false
    → e.model_unavailable ≡ false
    → ((read (report_failure env pol e model row)).request_count ≡ (read row).request_count + 1)
      × ((read (report_failure env pol e model row)).success_count ≡ (read row).success_count)
      × ((read (report_failure env pol e model row)).fail_count ≡ (read row).fail_count + 1)
failure_counted env pol e model row fine there = (
  ap (λ (x : Counts). x.0) (failure-counts env pol e model row fine there),
  ap (λ (x : Counts). x.1) (failure-counts env pol e model row fine there),
  ap (λ (x : Counts). x.2) (failure-counts env pol e model row fine there),
)
