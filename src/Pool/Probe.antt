-- ===== src/Pool/Probe.antt =====
-- `record_model_probe_outcome` of grok2api/pool/account_pool.py: what a model probe does to the row
-- of its account, in a deployment without the Redis overlay on the row that it reads.
use grokcli_2api.Base.{
  ℕ, ◌+◌, ◌*◌, String, Bool, true, not, ◌&&◌, ◌||◌, Option, none, some, List, [], ◌∷◌, get_or,
  or_else, length, leb, ◌==◌, cut, is_text, is_some, one_of, ◌<>◌, show_ℕ, if◌then◌else◌,
}
use grokcli_2api.Base.Dict
use grokcli_2api.Base.Dict.{Dict}
use text.Mathlib.Text.{starts_with}
use grokcli_2api.Pool.Meta.{AccountMeta, ModelBlock, StatusEntry, Row, read, normal, cooldown}
use grokcli_2api.Pool.Status.{Env, Patch, patch_pool_meta}
use grokcli_2api.Pool.Cooldown.{CooldownPolicy, probe_hold, stack_status_entry}
use grokcli_2api.Pool.View.{pool_meta}
use grokcli_2api.Pool.FreeUsage.{UpstreamError, Kick, apply_free_usage_cooldown}
use grokcli_2api.Pool.Upstream.{some_text}

-- A block that a successful probe of its model lifts.
abbrev pub is_probe_block : ModelBlock → Bool
is_probe_block b =
    is_some b.until || one_of b.source ("temp_usage" ∷ "soft" ∷ "temporary" ∷ "probe" ∷ "" ∷ [])

-- The blocks that the patch writes: the view's without the lifted one, or else the row's.
unfoldable pub lifted_blocks : Option String → AccountMeta → Dict ModelBlock → Dict ModelBlock
lifted_blocks model meta stored = elim (some_text model) [
  | none ↦ stored
  | some m ↦ elim (Dict.get m meta.blocked_models) [
    | none ↦ stored
    | some b ↦ if is_probe_block b then Dict.remove m meta.blocked_models else stored
  ]
]

abbrev pub probe_sources : List String
probe_sources = "model_health" ∷ "probe" ∷ "probe_kick" ∷ []

abbrev pub is_probe_reason : String → Bool
is_probe_reason r =
    starts_with r "模型探测失败"
    || starts_with r "模型不可用"
    || starts_with r "探测连续失败"
    || starts_with r "临时额度耗尽"

-- The account was disabled by an earlier probe, and by nothing else.
unfoldable pub was_probe_disabled : AccountMeta → Bool
was_probe_disabled meta =
    let quota_first =
      get_or (or_else (some_text meta.quota_source) (some_text meta.disabled_source)) "" in
    let source_first =
      get_or (or_else (some_text meta.disabled_source) (some_text meta.quota_source)) "" in
    not meta.enabled
    && not meta.disabled_for_quota
    && one_of quota_first ("" ∷ "None" ∷ probe_sources)
    && (one_of source_first probe_sources || is_probe_reason (get_or meta.disabled_reason ""))

unfoldable pub recovery_patch : ℕ → Option String → AccountMeta → Patch
unfolding lifted_blocks was_probe_disabled
recovery_patch now model meta m =
    let reenable = was_probe_disabled meta in
    record m {
      probe_fail_streak = 0;
      consecutive_fails = 0;
      last_probe_ok_at = some now;
      last_probe_status = some "normal";
      cooldown_count = 0;
      status_stack = [];
      cooldown_until = none;
      cooldown_sec = none;
      cooldown_reason = none;
      cooldown_code = none;
      cooldown_model = none;
      cooldown_tokens_actual = none;
      cooldown_tokens_limit = none;
      cooldown_detail = none;
      last_error = none;
      pool_status = some normal;
      blocked_models = lifted_blocks model meta m.blocked_models;
      enabled = if reenable then true else m.enabled;
      disabled_reason = if reenable then none else m.disabled_reason;
      disabled_source = if reenable then none else m.disabled_source;
    }

-- The branch of a successful probe.
unfoldable pub probe_recovered : Env → Option String → Row → Row
unfolding recovery_patch
probe_recovered env model row =
    some (patch_pool_meta env (recovery_patch env.now model (pool_meta env.now (read row))) row)

unfoldable pub probe_reason : ℕ → Option String → UpstreamError → String
probe_reason streak model e =
    let of_model : String = elim (some_text model) [ none ↦ "" | some m ↦ " model=" <> m ] in
    let of_code : String = elim e.status_code [
      | none ↦ ""
      | some c ↦ if c == 0 then "" else " HTTP " <> show_ℕ c
    ] in
    let of_text = if is_text e.text then ": " <> cut 120 e.text else "" in
    cut 300 ("探测连续失败×" <> show_ℕ streak <> of_model <> of_code <> of_text)

-- `patch_fail`
unfoldable pub failed_patch : ℕ → ℕ → Option String → UpstreamError → Patch
unfolding probe_reason
failed_patch now streak model e m = record m {
  probe_fail_streak = streak;
  last_error = some (probe_reason streak model e);
  last_status_code = e.status_code;
  last_probe_fail_at = some now;
  last_probe_status = some "error";
}

unfoldable pub probe_entry : ℕ → ℕ → Option String → UpstreamError → String → StatusEntry
unfolding probe_reason
probe_entry now streak model e source = record {
  kind = "probe_fail";
  code = "probe_fail";
  model = model;
  tokens_actual = none;
  tokens_limit = none;
  source = source;
  status_code = e.status_code;
  at = now;
  reason = probe_reason streak model e;
}

-- The escalation of `patch_fail` once the streak is long enough.
unfoldable pub escalated_patch : ℕ → ℕ → Option String → UpstreamError → List StatusEntry → Patch
unfolding failed_patch
escalated_patch now streak model e stack m = record (failed_patch now streak model e m) {
  status_stack = stack;
  cooldown_count = length stack;
  pool_status = some cooldown;
  cooldown_until = some (now + probe_hold);
  cooldown_sec = some (length stack * 1_000);
  cooldown_reason = some (probe_reason streak model e);
  cooldown_code = some "probe_fail";
  cooldown_model = model;
  last_probe_status = some "cooldown";
}

pub data ProbeAction : Type 0 where
  recovered recorded cooled : ProbeAction
  kicked : Kick → ProbeAction

-- The keyword arguments beside the error; `source` is never empty.
pub record Probe : Type 0 where
  pub model : Option String
  pub source : String
  pub auto_kick : Bool

-- The streak beside a kick.
unfoldable pub streak_patch : ℕ → ℕ → Patch
streak_patch now streak m = record m {
  probe_fail_streak = streak;
  last_probe_fail_at = some now;
  last_probe_status = some "cooldown";
}

-- A failure that is no usage signal: it escalates once the streak is long enough.
unfoldable pub escalate :
    Env → CooldownPolicy → Probe → UpstreamError → AccountMeta → Row → ProbeAction × Row
unfolding failed_patch escalated_patch probe_entry
escalate env pol p e meta row =
    let streak = meta.probe_fail_streak + 1 in
    let stack = stack_status_entry meta (probe_entry env.now streak p.model e p.source) in
    if p.auto_kick && leb pol.probe_fail_kick_streak streak
    then (cooled, some (patch_pool_meta env (escalated_patch env.now streak p.model e stack) row))
    else (recorded, some (patch_pool_meta env (failed_patch env.now streak p.model e) row))

-- The two branches, on what `apply_free_usage_cooldown` answered.
unfoldable pub after_usage_check :
    Env
    → CooldownPolicy
    → Probe
    → UpstreamError
    → AccountMeta
    → Row
    → Option (Kick × Row)
    → ProbeAction × Row
unfolding streak_patch escalate
after_usage_check env pol p e meta row (some (kick, held)) = (
  kicked kick,
  some (patch_pool_meta env (streak_patch env.now (meta.probe_fail_streak + 1)) held),
)
after_usage_check env pol p e meta row none = escalate env pol p e meta row

unfoldable pub probe_failed : Env → CooldownPolicy → Probe → UpstreamError → Row → ProbeAction × Row
unfolding after_usage_check
probe_failed env pol p e row =
    after_usage_check env pol p e (pool_meta env.now (read row)) row
      (apply_free_usage_cooldown env e p.model p.source row)

-- `none` for a probe that succeeded, else its error.
unfoldable pub record_model_probe_outcome :
    Env → CooldownPolicy → Probe → Option UpstreamError → Row → ProbeAction × Row
unfolding probe_recovered probe_failed
record_model_probe_outcome env pol p none row = (recovered, probe_recovered env p.model row)
record_model_probe_outcome env pol p (some e) row = probe_failed env pol p e row
