-- ===== src/Pool/FreeUsage.antt =====
-- `apply_free_usage_cooldown` of grok2api/pool/account_pool.py: a free-usage hit takes the account
-- out of rotation. The regular expressions of `parse_free_usage_error` and of
-- `is_temporary_usage_error` are parameters: their answers for the error at hand. The conversation
-- bindings, the pick marks and the Redis copy of the cooldown, which it also clears or sets, are
-- other components' state.
use grokcli_2api.Base.{
  ℕ, ◌+◌, ◌-◌, ◌*◌, String, Bool, true, false, not, ◌&&◌, ◌||◌, Option, none, some, List, [], ◌∷◌,
  max, min, ltb, leb, ◌==◌, length, take_last, get_or, or_else, is_empty, cut, is_text,
  if◌then◌else◌,
}
use grokcli_2api.Pool.Meta.{AccountMeta, StatusEntry, Row, read, cooldown}
use grokcli_2api.Pool.Status.{Env, patch_pool_meta, is_status_cooldown, is_after}
use grokcli_2api.Pool.Cooldown.{
  free_usage_max, free_usage_stack_max, free_usage_restack_min, probe_hold, soft_model_block_ttl,
  free_usage_cooldown_ttl, stack_status_entry,
}
use grokcli_2api.Pool.Blocks.{block_model}
use grokcli_2api.Pool.View.{pool_meta}

-- What `parse_free_usage_error` returns.
pub record UsageSignal : Type 0 where
  pub code : String
  pub reason : String
  pub model : Option String
  pub tokens_actual : Option ℕ
  pub tokens_limit : Option ℕ
  pub detail : String

-- An error as the classifiers read it.
pub record UpstreamError : Type 0 where
  pub text : String
  pub status_code : Option ℕ
  pub parsed : Option UsageSignal
  pub temporary : Bool

-- The parsed signal, or the fallback for a temporary error that the parser missed; the model of the
-- request stands in for a missing one.
unfoldable pub usage_signal : UpstreamError → Option String → Option UsageSignal
usage_signal err model = elim err.parsed [
  | some p ↦ some (record p { model = or_else p.model model })
  | none ↦
      if err.temporary
      then some (record {
        code = "temporary_usage";
        reason = "临时额度/限流，已冷却踢出轮询";
        model = model;
        tokens_actual = none;
        tokens_limit = none;
        detail = cut 400 err.text;
      })
      else none
]

-- The last entry's time, or the last failed probe's.
unfoldable pub last_hit_at : AccountMeta → List StatusEntry → ℕ
last_hit_at m [] = get_or m.last_probe_fail_at 0
last_hit_at m (e ∷ []) = if e.at == 0 then get_or m.last_probe_fail_at 0 else e.at
last_hit_at m (e ∷ f ∷ es) = last_hit_at m (f ∷ es)

-- What the hit decides before it writes.
pub record Hit : Type 0 where
  pub still_active : Bool
  pub restack : Bool
  pub stack : List StatusEntry
  pub count : ℕ

unfoldable pub usage_entry : ℕ → UsageSignal → Option ℕ → String → StatusEntry
usage_entry now p status_code source = record {
  kind = "free_usage_exhausted";
  code = p.code;
  model = p.model;
  tokens_actual = p.tokens_actual;
  tokens_limit = p.tokens_limit;
  source = source;
  status_code = status_code;
  at = now;
  reason = p.reason;
}

-- A repeated hit within the window, or on a full stack, only refreshes the marker.
unfoldable pub weigh_hit : ℕ → AccountMeta → StatusEntry → Hit
unfolding last_hit_at
weigh_hit now meta entry =
    let prev = meta.status_stack in
    let prev_count = max meta.cooldown_count (length prev) in
    let active = is_after meta.cooldown_until now || is_status_cooldown meta.pool_status in
    let recent = ltb (now - last_hit_at meta prev) free_usage_restack_min in
    let restack = not (active && recent) && not (leb free_usage_stack_max prev_count && active) in
    let grown = take_last free_usage_stack_max (stack_status_entry meta entry) in
    record {
      still_active = active;
      restack = restack;
      stack = if restack then grown else if is_empty prev then entry ∷ [] else prev;
      count =
          if restack
          then min free_usage_stack_max (max 1 (length grown))
          else max 1 (min free_usage_stack_max (if prev_count == 0 then 1 else prev_count));
    }

-- The far-future marker, never earlier than a marker that is still in force.
unfoldable pub hold_until : ℕ → Bool → Option ℕ → ℕ
hold_until now active none = now + probe_hold
hold_until now active (some u) = if active then max u (now + probe_hold) else now + probe_hold

-- The soft block's length.
unfoldable pub soft_block_ttl : ℕ → ℕ
soft_block_ttl count =
    max 60_000 (
      min free_usage_max (min (free_usage_cooldown_ttl count) (soft_model_block_ttl * max 1 count)))

abbrev pub kick_reason_text : UsageSignal → String
kick_reason_text p = cut 300 (if is_text p.reason then p.reason else "临时额度耗尽，已冷却踢出轮询，等待下次测活成功")

-- The patch that takes the account out of rotation.
unfoldable pub kick_patch : ℕ → UsageSignal → Option ℕ → Hit → ℕ → AccountMeta → AccountMeta
kick_patch now p status_code hit until m = record m {
  pool_status = some cooldown;
  cooldown_count = hit.count;
  status_stack = hit.stack;
  cooldown_reason = some (kick_reason_text p);
  cooldown_code = some p.code;
  cooldown_model = p.model;
  cooldown_tokens_actual = p.tokens_actual;
  cooldown_tokens_limit = p.tokens_limit;
  cooldown_detail = some p.detail;
  cooldown_until = some until;
  cooldown_sec = some (free_usage_cooldown_ttl hit.count);
  last_error = some (kick_reason_text p);
  last_status_code = status_code;
  enabled = true;
  disabled_reason = none;
  disabled_source = none;
  disabled_for_quota = false;
  last_probe_status = some "cooldown";
  last_probe_fail_at = some now;
  kicked_from_rotation = true;
  kick_reason = some "free_usage";
  kick_at = some now;
}

-- The returned summary.
pub record Kick : Type 0 where
  pub action : String
  pub cooldown_count : ℕ
  pub status_stack_len : ℕ
  pub cooldown_code : String
  pub cooldown_model : Option String
  pub cooldown_reason : String
  pub cooldown_until : ℕ
  pub cooldown_ttl : ℕ

-- The soft block of the exhausted model, if it is known.
unfoldable pub block_exhausted : Env → UsageSignal → Hit → Row → Row
unfolding soft_block_ttl
block_exhausted env p hit row = elim p.model [
  | none ↦ row
  | some mid ↦
      block_model env mid (kick_reason_text p) "temp_usage" (some (soft_block_ttl hit.count)) row
]

unfoldable pub kick_account : Env → UsageSignal → Option ℕ → String → Row → Kick × Row
unfolding usage_entry weigh_hit hold_until kick_patch block_exhausted
kick_account env p status_code source row =
    let meta = pool_meta env.now (read row) in
    let hit = weigh_hit env.now meta (usage_entry env.now p status_code source) in
    let until = hold_until env.now hit.still_active meta.cooldown_until in
    let blocked = block_exhausted env p hit row in
    (
      record {
        action =
            if hit.restack || not hit.still_active then "cooldown_kick" else "cooldown_refresh";
        cooldown_count = hit.count;
        status_stack_len = length hit.stack;
        cooldown_code = p.code;
        cooldown_model = p.model;
        cooldown_reason = kick_reason_text p;
        cooldown_until = until;
        cooldown_ttl = free_usage_cooldown_ttl hit.count;
      },
      some (patch_pool_meta env (kick_patch env.now p status_code hit until) blocked),
    )

-- `none` where the error is no usage signal: then nothing is written.
unfoldable pub apply_free_usage_cooldown :
    Env → UpstreamError → Option String → String → Row → Option (Kick × Row)
unfolding usage_signal kick_account
apply_free_usage_cooldown env err model source row = elim (usage_signal err model) [
  | none ↦ none
  | some p ↦ some (kick_account env p err.status_code source row)
]
