-- ===== src/Pool/Live.antt =====
-- The request path of grok2api/pool/account_pool.py: `report_success` and `report_failure`, on the
-- row of one account and on their synchronous path. The pick marks that they release and the Redis
-- copy of the cooldown are other components' state.
use grokcli_2api.Base.{
  ℕ, ◌+◌, ◌*◌, String, Bool, true, false, ◌||◌, Option, none, some, length, cut, is_text, is_some,
  one_of, longer_than, contains_text, ◌<>◌, show_ℕ, ltb, ◌==◌, if◌then◌else◌,
}
use grokcli_2api.Base.Dict
use text.Mathlib.Text.{starts_with}
use grokcli_2api.Pool.Meta.{AccountMeta, ModelBlock, StatusEntry, Row, read, cooldown}
use grokcli_2api.Pool.Status.{Env, Patch, patch_pool_meta, is_in_cooldown}
use grokcli_2api.Pool.Cooldown.{probe_hold, stack_status_entry}
use grokcli_2api.Pool.Blocks.{unblock_model, soft_sources}
use grokcli_2api.Pool.View.{pool_meta}
use grokcli_2api.Pool.FreeUsage.{Kick, apply_free_usage_cooldown}
use grokcli_2api.Pool.Stats.{StatsUpdate, touch_account_stats}
use grokcli_2api.Pool.Upstream.{
  Classified, Policy, some_text, handle_upstream_error_for_quota, handle_upstream_error_for_model,
}

-- A block that live traffic may lift.
abbrev pub is_soft_block : ModelBlock → Bool
is_soft_block b = is_some b.until || one_of b.source soft_sources

unfoldable pub lift_found : Env → String → Option ModelBlock → Row → Row
lift_found env model none row = row
lift_found env model (some b) row =
    if is_soft_block b then unblock_model env (some model) row else row

unfoldable pub lift_of : Env → Option String → AccountMeta → Row → Row
unfolding lift_found
lift_of env none meta row = row
lift_of env (some model) meta row = lift_found env model (Dict.get model meta.blocked_models) row

-- The soft block of the model that just answered is lifted.
unfoldable pub lift_soft_block : Env → Option String → AccountMeta → Row → Row
unfolding lift_of
lift_soft_block env model meta row = lift_of env (some_text model) meta row

unfoldable pub clear_probe_streak : Env → AccountMeta → Row → Row
clear_probe_streak env meta row =
    if ltb 0 meta.probe_fail_streak
    then some (patch_pool_meta env (λ m. record m { probe_fail_streak = 0 }) row)
    else row

abbrev pub success_update : StatsUpdate
success_update = record {
  success = true;
  error = "";
  cooldown_until = none;
  clear_cooldown = false;
  consecutive_fails = some 0;
  last_status_code = none;
  cooldown_sec = none;
  preserve_cooldown = true;
}

-- The counters of a success.
unfoldable pub count_success : Env → Row → AccountMeta
count_success env row =
    touch_account_stats env success_update (some (pool_meta env.now (read row))) row

-- The rest of a success, for an account that does not cool.
unfoldable pub settle_success : Env → Option String → AccountMeta → Row
unfolding clear_probe_streak lift_soft_block
settle_success env model saved =
    let after = pool_meta env.now saved in
    lift_soft_block env model after (clear_probe_streak env after (some saved))

-- `report_success`
unfoldable pub report_success : Env → Option String → Row → Row
unfolding count_success settle_success
report_success env model row =
    let saved = count_success env row in
    if is_in_cooldown env.now (pool_meta env.now (read row))
    then some saved
    else settle_success env model saved

-- `empty_upstream`
unfoldable pub is_empty_upstream : String → Bool
is_empty_upstream lowered =
    contains_text lowered "empty model output"
    || contains_text lowered "no content/tool_calls"
    || contains_text lowered "no client-visible content"

unfoldable pub failure_code : Classified → String
unfolding is_empty_upstream
failure_code e = if is_empty_upstream e.lowered then "empty_upstream" else elim e.status_code [
  | none ↦ "request_fail"
  | some c ↦ if c == 0 then "request_fail" else "http_" <> show_ℕ c
]

unfoldable pub failure_entry : ℕ → Classified → Option String → StatusEntry
unfolding failure_code
failure_entry now e model = record {
  kind = if is_empty_upstream e.lowered then "empty_upstream" else "request_fail";
  code = failure_code e;
  model = model;
  tokens_actual = none;
  tokens_limit = none;
  source = "live";
  status_code = e.status_code;
  at = now;
  reason = cut 200 e.text;
}

-- `err_store`: a long JSON body is cut shorter.
unfoldable pub stored_error : String → String
stored_error text =
    let s = cut 300 text in
    if starts_with s "{" then (if longer_than 160 s then cut 160 s <> "…" else s) else s

unfoldable pub usage_failure_update : Classified → ℕ → Kick → StatsUpdate
usage_failure_update e streak kick = record {
  success = false;
  error = cut 300 (if is_text kick.cooldown_reason then kick.cooldown_reason else e.text);
  cooldown_until = some kick.cooldown_until;
  clear_cooldown = false;
  consecutive_fails = some streak;
  last_status_code = e.status_code;
  cooldown_sec = some (kick.cooldown_count * 1_000);
  preserve_cooldown = true;
}

-- The free-usage branch, after the kick has been written.
unfoldable pub count_usage_failure : Env → Classified → ℕ → Kick → Row → Row
unfolding usage_failure_update
count_usage_failure env e streak kick row =
    some (touch_account_stats env (usage_failure_update e streak kick) none row)

unfoldable pub failure_update : ℕ → Classified → ℕ → ℕ → StatsUpdate
unfolding stored_error
failure_update now e streak count = record {
  success = false;
  error = stored_error e.text;
  cooldown_until = some (now + probe_hold);
  clear_cooldown = false;
  consecutive_fails = some streak;
  last_status_code = e.status_code;
  cooldown_sec = some (count * 1_000);
  preserve_cooldown = false;
}

unfoldable pub failure_patch : ℕ → Classified → Option String → AccountMeta → Patch
unfolding failure_entry stored_error
failure_patch now e model meta m =
    let stack = stack_status_entry meta (failure_entry now e model) in
    record m {
      status_stack = stack;
      cooldown_count = length stack;
      pool_status = some cooldown;
      cooldown_until = some (now + probe_hold);
      cooldown_sec = some (length stack * 1_000);
      cooldown_reason = some (stored_error e.text);
      cooldown_code = some (failure_code e);
      cooldown_model = model;
    }

-- The generic branch: an entry on the stack as it stood when the failure arrived, and a hold.
unfoldable pub stack_failure : Env → Classified → Option String → ℕ → AccountMeta → Row → Row
unfolding failure_patch failure_update
stack_failure env e model streak meta row =
    let count = length (stack_status_entry meta (failure_entry env.now e model)) in
    some (
      touch_account_stats env (failure_update env.now e streak count) none
        (some (patch_pool_meta env (failure_patch env.now e model meta) row)))

-- What the error did to the quota flags and to its model, before the cooldown.
unfoldable pub act_on_error : Env → Policy → Classified → Option String → Row → Row
act_on_error env pol e model row =
    let quota = (handle_upstream_error_for_quota env e row).1 in
    elim (some_text model) [
      | none ↦ quota
      | some m ↦ (handle_upstream_error_for_model env pol e (some m) quota).1
    ]

-- The two branches, on what `apply_free_usage_cooldown` answered for the row `acted`.
unfoldable pub cool_down :
    Env → Classified → Option String → AccountMeta → Row → Option (Kick × Row) → Row
unfolding count_usage_failure stack_failure
cool_down env e model meta acted (some (kick, kicked)) =
    count_usage_failure env e (meta.consecutive_fails + 1) kick kicked
cool_down env e model meta acted none =
    stack_failure env e model (meta.consecutive_fails + 1) meta acted

-- `_report_failure_impl`. The adaptive cooldown that it computes is not used: under
-- PROBE_ONLY_COOLDOWN_RECOVERY, which is on, the hold takes its place.
unfoldable pub report_failure : Env → Policy → Classified → Option String → Row → Row
unfolding act_on_error cool_down
report_failure env pol e model row =
    let acted = act_on_error env pol e model row in
    cool_down env e model (pool_meta env.now (read row)) acted
      (apply_free_usage_cooldown env e.upstream model "live" acted)
