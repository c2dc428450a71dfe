-- ===== src/Pool/Upstream.antt =====
-- What an upstream error does to an account beside its cooldown: `handle_upstream_error_for_quota`
-- (grok2api/pool/quota.py) and `handle_upstream_error_for_model` (grok2api/pool/model_health.py).
-- The classifiers match regular expressions: their answers for the error at hand are the fields of
-- `Classified`.
use grokcli_2api.Base.{
  ℕ, String, Bool, true, false, not, Option, none, some, max, min, cut, is_text, ◌<>◌,
  show_optional, if◌then◌else◌,
}
use grokcli_2api.Pool.Meta.{Row}
use grokcli_2api.Pool.Status.{Env}
use grokcli_2api.Pool.Cooldown.{CooldownPolicy, compute_cooldown_seconds}
use grokcli_2api.Pool.Blocks.{block_model}
use grokcli_2api.Pool.FreeUsage.{UpstreamError, Kick, apply_free_usage_cooldown}
use grokcli_2api.Pool.Admin.{kick_from_pool, disable_for_quota}

-- An error with the answers of `is_quota_error_message`, `is_account_block_error` and
-- `is_model_unavailable_error`, the `Retry-After` hint, and the lower-case text.
pub record Classified : Type 0 where
  pub upstream : UpstreamError
  pub open upstream use *
  pub hard_quota : Bool
  pub account_block : Bool
  pub model_unavailable : Bool
  pub retry_after : Option ℕ
  pub lowered : String

-- What the request path reads: the policy, the auto-disable switch, and the jitter's draw.
pub record Policy : Type 0 where
  pub cooldowns : CooldownPolicy
  pub auto_disable : Bool
  pub draw : ℕ

-- `if model:`
abbrev pub some_text : Option String → Option String
some_text none = none
some_text (some s) = if is_text s then some s else none

-- `f"{label} (HTTP {status_code}): {text[:n]}"`
abbrev pub reason_of : String → ℕ → Classified → String
reason_of label n e =
    label <> (" (HTTP " <> (show_optional e.status_code <> ("): " <> cut n e.text)))

-- True where the account was disabled.
unfoldable pub handle_upstream_error_for_quota : Env → Classified → Row → Bool × Row
handle_upstream_error_for_quota env e row =
    if e.hard_quota
    then (true, disable_for_quota env (reason_of "上游额度错误" 120 e) "upstream_error" row)
    else (false, row)

abbrev pub temporary_reason : String → String
temporary_reason model = cut 300 ("临时额度耗尽，已冷却，等待下次测活成功" <> (" · " <> model))

-- The fallback where the parser missed a temporary error.
unfoldable pub block_temporary : Env → Option String → Row → Row
block_temporary env none row = row
block_temporary env (some model) row =
    block_model env model (temporary_reason model) "temp_usage" (some 600_000) row

unfoldable pub block_account : Env → Policy → Classified → Row → Row
block_account env pol e row =
    disable_for_quota env (reason_of "账号不可用" 120 e) "model_health"
      (kick_from_pool env (reason_of "账号不可用" 120 e) (some pol.cooldowns.probe_kick_cooldown) row)

abbrev pub unavailable_wait : Policy → Classified → ℕ
unavailable_wait pol e = max 30_000 (
    min (compute_cooldown_seconds pol.cooldowns e.status_code 2 e.retry_after false pol.draw)
      pol.cooldowns.durable_block_ttl)

unfoldable pub block_unavailable : Env → Policy → Classified → String → Row → Row
block_unavailable env pol e model row =
    kick_from_pool env (reason_of "模型不可用" 160 e) (some (unavailable_wait pol e)) (
      block_model env model (reason_of "模型不可用" 160 e) "upstream_error"
        (some pol.cooldowns.durable_block_ttl) row)

-- A temporary error, on what `apply_free_usage_cooldown` answered.
unfoldable pub on_temporary : Env → Option String → Row → Option (Kick × Row) → Row
unfolding block_temporary
on_temporary env model row (some (kick, kicked)) = kicked
on_temporary env model row none = block_temporary env model row

-- An error of no account, with or without a model.
unfoldable pub on_model : Env → Policy → Classified → Option String → Row → Bool × Row
unfolding block_unavailable
on_model env pol e none row = (false, row)
on_model env pol e (some model) row =
    if e.model_unavailable then (true, block_unavailable env pol e model row) else (false, row)

-- True where an action was taken.
unfoldable pub handle_upstream_error_for_model :
    Env → Policy → Classified → Option String → Row → Bool × Row
unfolding on_temporary on_model block_account
handle_upstream_error_for_model env pol e model row =
    let answer = apply_free_usage_cooldown env e.upstream (some_text model) "upstream" row in
    if not pol.auto_disable
    then (false, row)
    else if e.temporary
    then (true, on_temporary env (some_text model) row answer)
    else if e.account_block
    then (true, block_account env pol e row)
    else on_model env pol e (some_text model) row
