-- ===== src/Pool/Blame.antt =====
-- What the handling of an upstream error does to the counters of an account.
use grokcli_2api.Base.{
  ℕ, ◌+◌, ◌≡◌, refl, sym, String, Bool, true, false, Option, none, some, arith, if◌then◌else◌, ltb,
  get_or, cut, Bool-cases, inl, inr, not,
}
use mathlib.Core.Path.{subst}
use grokcli_2api.Pool.Meta.{AccountMeta, Row, read}
use grokcli_2api.Pool.Status.{Env, Patch, or_fresh, patch_pool_meta}
use grokcli_2api.Pool.Cooldown.{stack_cooldown_count}
use grokcli_2api.Pool.Blocks.{block_model}
use grokcli_2api.Pool.View.{pool_meta}
use grokcli_2api.Pool.FreeUsage.{
  UpstreamError, UsageSignal, Kick, apply_free_usage_cooldown, kick_account, usage_signal,
}
use grokcli_2api.Pool.Stats.{StatsUpdate, touch_account_stats}
use grokcli_2api.Pool.Admin.{
  or_text, kick_from_pool, soft_kick, hard_kick, soft_kick_patch, soft_kick_update,
  disable_for_quota,
}
use grokcli_2api.Pool.Upstream.{
  Classified, Policy, some_text, handle_upstream_error_for_quota, handle_upstream_error_for_model,
  block_temporary, block_account, block_unavailable, reason_of, temporary_reason, unavailable_wait,
  on_temporary, on_model,
}
use grokcli_2api.Pool.Counters.{
  Counts, counts, count_one, Uncounted, counts-commit, counts-touch, Uncounted-block_model,
  Uncounted-kick_account,
}

abbrev pub Sums : Counts → Type 0
Sums (r, s, f) = r ≡ s + f

-- The books of a row balance.
abbrev pub Balances : Row → Type 0
Balances row = Sums (counts (read row))

abbrev pub Preserves : Row → Row → Type 0
Preserves row after = Balances row → Balances after

pub Sums-count_one : (b : Bool) (c : Counts) → Sums c → Sums (count_one b c)
Sums-count_one true (r, s, f) h = omega (arith, h)
Sums-count_one false (r, s, f) h = omega (arith, h)

pub of_Uncounted : (row after : Row) → Uncounted row after → Preserves row after
of_Uncounted row after k h = subst Sums (sym k) h

pub of_counted :
    (row after : Row) (b : Bool)
    → counts (read after) ≡ count_one b (counts (read row))
    → Preserves row after
of_counted row after b k h = subst Sums (sym k) (Sums-count_one b (counts (read row)) h)

pub Preserves-if :
    (row x y : Row) (b : Bool)
    → Preserves row x
    → Preserves row y
    → Preserves row (if b then x else y)
Preserves-if row x y true hx hy = hx
Preserves-if row x y false hx hy = hy

pub choose :
    (row : Row) (x y : Bool × Row) (b : Bool)
    → Preserves row x.1
    → Preserves row y.1
    → Preserves row (if b then x else y).1
choose row x y true hx hy = hx
choose row x y false hx hy = hy

pub Preserves-touch :
    (env : Env) (u : StatsUpdate) (row : Row)
    → Preserves row (some (touch_account_stats env u none row))
Preserves-touch env u row =
    of_counted row (some (touch_account_stats env u none row)) u.success
      (counts-touch env u none row refl)

-- A patch that counts nothing, and the touch after it.
pub Preserves-touched :
    (env : Env) (u : StatsUpdate) (p : Patch) (row : Row)
    → counts (p (or_fresh row)) ≡ counts (or_fresh row)
    → Preserves row (some (touch_account_stats env u none (some (patch_pool_meta env p row))))
Preserves-touched env u p row k h =
    Preserves-touch env u (some (patch_pool_meta env p row))
      (of_Uncounted row (some (patch_pool_meta env p row)) (counts-commit env p row k) h)

pub Preserves-soft_kick :
    (env : Env) (reason : String) (row : Row) → Preserves row (soft_kick env reason row)
unfolding soft_kick soft_kick_patch
Preserves-soft_kick env reason row =
    Preserves-touched env (soft_kick_update env.now count reason meta.consecutive_fails)
      (soft_kick_patch env.now count reason) row refl
  where
    meta : AccountMeta
    meta = pool_meta env.now (read row)

    count : ℕ
    count = stack_cooldown_count env.now meta 1

pub Uncounted-hard_kick :
    (env : Env) (reason : String) (row : Row) → Uncounted row (hard_kick env reason row)
unfolding hard_kick patch_pool_meta
Uncounted-hard_kick env reason none = refl
Uncounted-hard_kick env reason (some m) = refl

pub Preserves-kick_from_pool :
    (env : Env) (reason : String) (wait : Option ℕ) (row : Row)
    → Preserves row (kick_from_pool env reason wait row)
unfolding kick_from_pool
Preserves-kick_from_pool env reason wait row =
    Preserves-if row (soft_kick env text row) (hard_kick env text row) (ltb 0 (get_or wait 0))
      (Preserves-soft_kick env text row)
      (of_Uncounted row (hard_kick env text row) (Uncounted-hard_kick env text row))
  where
    text : String
    text = cut 300 (or_text reason "手动移出轮询")

pub Uncounted-disable_for_quota :
    (env : Env) (reason source : String) (row : Row)
    → Uncounted row (disable_for_quota env reason source row)
unfolding disable_for_quota patch_pool_meta
Uncounted-disable_for_quota env reason source none = refl
Uncounted-disable_for_quota env reason source (some m) = refl

pub Preserves-quota :
    (env : Env) (e : Classified) (row : Row)
    → Preserves row (handle_upstream_error_for_quota env e row).1
unfolding handle_upstream_error_for_quota
Preserves-quota env e row = elim (Bool-cases e.hard_quota) [
  | inl hard ↦ rw hard (
      of_Uncounted row disabled
        (Uncounted-disable_for_quota env (reason_of "上游额度错误" 120 e) "upstream_error" row))
  | inr soft ↦ rw soft (λ h. h)
]
  where
    disabled : Row
    disabled = disable_for_quota env (reason_of "上游额度错误" 120 e) "upstream_error" row

-- What a free-usage check answers counts nothing.
abbrev pub AnswerUncounted : Row → Option (Kick × Row) → Type 0
AnswerUncounted row none = Unit
AnswerUncounted row (some (kick, kicked)) = Uncounted row kicked

pub answer_uncounted :
    (env : Env) (e : UpstreamError) (model : Option String) (source : String) (row : Row)
    → AnswerUncounted row (apply_free_usage_cooldown env e model source row)
unfolding apply_free_usage_cooldown
answer_uncounted env e model source row = of_signal (usage_signal e model)
  where
    of_signal :
        (s : Option UsageSignal)
        → AnswerUncounted row
            (elim s [ none ↦ none | some p ↦ some (kick_account env p e.status_code source row) ])
    of_signal none = tt
    of_signal (some p) = Uncounted-kick_account env p e.status_code source row

pub Uncounted-block_temporary :
    (env : Env) (model : Option String) (row : Row) → Uncounted row (block_temporary env model row)
unfolding block_temporary
Uncounted-block_temporary env none row = refl
Uncounted-block_temporary env (some model) row =
    Uncounted-block_model env model (temporary_reason model) "temp_usage" (some 600_000) row

pub Preserves-block_account :
    (env : Env) (pol : Policy) (e : Classified) (row : Row)
    → Preserves row (block_account env pol e row)
unfolding block_account
Preserves-block_account env pol e row h =
    of_Uncounted kicked (disable_for_quota env (reason_of "账号不可用" 120 e) "model_health" kicked)
      (Uncounted-disable_for_quota env (reason_of "账号不可用" 120 e) "model_health" kicked)
      (Preserves-kick_from_pool env (reason_of "账号不可用" 120 e)
        (some pol.cooldowns.probe_kick_cooldown) row h)
  where
    kicked : Row
    kicked =
        kick_from_pool env (reason_of "账号不可用" 120 e) (some pol.cooldowns.probe_kick_cooldown) row

pub Preserves-block_unavailable :
    (env : Env) (pol : Policy) (e : Classified) (model : String) (row : Row)
    → Preserves row (block_unavailable env pol e model row)
unfolding block_unavailable
Preserves-block_unavailable env pol e model row h =
    Preserves-kick_from_pool env (reason_of "模型不可用" 160 e) (some (unavailable_wait pol e)) blocked (
      of_Uncounted row blocked
        (Uncounted-block_model env model (reason_of "模型不可用" 160 e) "upstream_error"
          (some pol.cooldowns.durable_block_ttl) row)
        h)
  where
    blocked : Row
    blocked =
        block_model env model (reason_of "模型不可用" 160 e) "upstream_error"
          (some pol.cooldowns.durable_block_ttl) row

pub Uncounted-on_temporary :
    (env : Env) (model : Option String) (row : Row) (answer : Option (Kick × Row))
    → AnswerUncounted row answer
    → Uncounted row (on_temporary env model row answer)
unfolding on_temporary
Uncounted-on_temporary env model row none a = Uncounted-block_temporary env model row
Uncounted-on_temporary env model row (some (kick, kicked)) a = a

pub Preserves-on_model :
    (env : Env) (pol : Policy) (e : Classified) (model : Option String) (row : Row)
    → Preserves row (on_model env pol e model row).1
unfolding on_model
Preserves-on_model env pol e none row h = h
Preserves-on_model env pol e (some model) row h = elim (Bool-cases e.model_unavailable) [
  | inl gone ↦ rw gone (Preserves-block_unavailable env pol e model row h)
  | inr there ↦ rw there h
]

pub Preserves-model :
    (env : Env) (pol : Policy) (e : Classified) (model : Option String) (row : Row)
    → Preserves row (handle_upstream_error_for_model env pol e model row).1
unfolding handle_upstream_error_for_model
Preserves-model env pol e model row =
    choose row (false, row) decided (not pol.auto_disable) (λ h. h)
      (choose row (true, on_temporary env (some_text model) row answer) blamed e.temporary
        (of_Uncounted row (on_temporary env (some_text model) row answer) (
          Uncounted-on_temporary env (some_text model) row answer
            (answer_uncounted env e.upstream (some_text model) "upstream" row)))
        (choose row (true, block_account env pol e row) (on_model env pol e (some_text model) row)
          e.account_block (Preserves-block_account env pol e row)
          (Preserves-on_model env pol e (some_text model) row)))
  where
    answer : Option (Kick × Row)
    answer = apply_free_usage_cooldown env e.upstream (some_text model) "upstream" row

    blamed : Bool × Row
    blamed =
        if e.account_block
        then (true, block_account env pol e row)
        else on_model env pol e (some_text model) row

    decided : Bool × Row
    decided = if e.temporary then (true, on_temporary env (some_text model) row answer) else blamed
