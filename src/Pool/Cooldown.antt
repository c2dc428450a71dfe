-- ===== src/Pool/Cooldown.antt =====
-- Cooldown arithmetic of grok2api/pool/account_pool.py: the policy knobs, the free-usage window, the
-- adaptive cooldown, and the stacks of status entries and counts. Durations are milliseconds,
-- rounded down where the source has a float.
use grokcli_2api.Base.{
  ℕ, ◌+◌, ◌-◌, ◌*◌, ◌/◌, ◌^◌, String, Bool, ◌&&◌, ◌||◌, Option, none, some, List, [], ◌∷◌, ◌++◌,
  max, min, ltb, leb, ◌==◌, length, take_last, get_or, if◌then◌else◌,
}
use grokcli_2api.Pool.Meta.{AccountMeta, StatusEntry}
use grokcli_2api.Pool.Status.{is_in_cooldown}

abbrev pub free_usage_base : ℕ
free_usage_base = 900_000

abbrev pub free_usage_max : ℕ
free_usage_max = 3_600_000

abbrev pub free_usage_stack_max : ℕ
free_usage_stack_max = 4

abbrev pub free_usage_restack_min : ℕ
free_usage_restack_min = 30_000

-- `PROBE_HOLD_COOLDOWN_SEC`, 365 days.
abbrev pub probe_hold : ℕ
probe_hold = 31_536_000_000

abbrev pub soft_model_block_ttl : ℕ
soft_model_block_ttl = 180_000

abbrev pub cooldown_max : ℕ
cooldown_max = 600_000

-- What `_policy_float` finds for a name: the stored setting, else the environment's, each already
-- read as a number (`none` where it is missing or does not parse). Its five-second cache is left out.
pub record Settings : Type 0 where
  pub stored : String → Option ℕ
  pub environment : String → Option ℕ

unfoldable pub policy_float : Settings → String → ℕ → ℕ → ℕ → ℕ
policy_float s name default minimum maximum =
    max minimum (min maximum (get_or (s.stored name) (get_or (s.environment name) default)))

-- `cooldown_defaults`; the two streaks are plain numbers.
pub record CooldownPolicy : Type 0 where
  pub default : ℕ
  pub auth : ℕ
  pub rate_limit : ℕ
  pub server_error : ℕ
  pub soft_block_ttl : ℕ
  pub durable_block_ttl : ℕ
  pub ceiling : ℕ
  pub probe_fail_kick_streak : ℕ
  pub probe_fail_disable_streak : ℕ
  pub probe_kick_cooldown : ℕ

unfoldable pub cooldown_defaults : Settings → CooldownPolicy
unfolding policy_float
cooldown_defaults s = record {
  default = policy_float s "cooldown_default_sec" 20_000 1_000 cooldown_max;
  auth = policy_float s "cooldown_auth_sec" 90_000 5_000 cooldown_max;
  rate_limit = policy_float s "cooldown_rate_limit_sec" 45_000 5_000 cooldown_max;
  server_error = policy_float s "cooldown_server_error_sec" 20_000 1_000 cooldown_max;
  soft_block_ttl = policy_float s "soft_model_block_ttl_sec" soft_model_block_ttl 30_000 3_600_000;
  durable_block_ttl = policy_float s "durable_model_block_ttl_sec" 3_600_000 60_000 86_400_000;
  ceiling = policy_float s "cooldown_max_sec" cooldown_max 30_000 3_600_000;
  probe_fail_kick_streak = policy_float s "probe_fail_kick_streak" 2 1 20;
  probe_fail_disable_streak = policy_float s "probe_fail_disable_streak" 4 2 50;
  probe_kick_cooldown = policy_float s "probe_kick_cooldown_sec" 600_000 30_000 7_200_000;
}

-- `_free_usage_cooldown_ttl`: the base, half as much again for each further hit, within limits.
unfoldable pub free_usage_cooldown_ttl : ℕ → ℕ
free_usage_cooldown_ttl stack_count =
    let n = max 1 stack_count in
    max 60_000 (min free_usage_max (free_usage_base * 3 ^ (n - 1) / 2 ^ (n - 1)))

-- `_jitter`: 15 % to either side. The draw of `random.uniform(-span, span)` is `draw - span`.
unfoldable pub jitter : ℕ → ℕ → ℕ
jitter draw seconds =
    let span = seconds * 15 / 100 in if seconds == 0 then 0 else seconds + draw - span

-- The base of `compute_cooldown_seconds` for a status code.
unfoldable pub cooldown_base : CooldownPolicy → Option ℕ → Bool → ℕ
cooldown_base pol status_code model_soft_blocked =
    let code = get_or status_code 0 in
    if code == 401
    then pol.auth
    else if code == 429
    then (if model_soft_blocked
        then min pol.rate_limit (max 10_000 (pol.default * 3 / 4))
        else pol.rate_limit)
    else if code == 502 || code == 503 || code == 504 || code == 500
    then pol.server_error
    else if code == 403 || code == 404
    then max 8_000 (pol.default / 2)
    else max 5_000 (pol.default * 35 / 100)

-- The growth on consecutive failures, capped at four times the base.
unfoldable pub grown : ℕ → ℕ → ℕ
grown streak base =
    let k = min (streak - 1) 6 in
    if leb 2 streak then min (4 * base) (base * 3 ^ k / 2 ^ k) else base

-- A hint from upstream raises the base, up to the ceiling.
unfoldable pub hinted : CooldownPolicy → ℕ → Option ℕ → ℕ
hinted pol base none = base
hinted pol base (some r) = max base (min r pol.ceiling)

-- `compute_cooldown_seconds` before the jitter; `retry_after` is what `_parse_retry_after` finds in
-- the response.
unfoldable pub cooldown_seconds : CooldownPolicy → Option ℕ → ℕ → Option ℕ → Bool → ℕ
unfolding cooldown_base grown hinted
cooldown_seconds pol status_code consecutive_fails retry_after model_soft_blocked =
    let base = cooldown_base pol status_code model_soft_blocked in
    min pol.ceiling (grown consecutive_fails (hinted pol base retry_after))

unfoldable pub compute_cooldown_seconds : CooldownPolicy → Option ℕ → ℕ → Option ℕ → Bool → ℕ → ℕ
unfolding cooldown_seconds jitter
compute_cooldown_seconds pol status_code consecutive_fails retry_after model_soft_blocked draw =
    jitter draw (cooldown_seconds pol status_code consecutive_fails retry_after model_soft_blocked)

-- `stack_status_entry`: the entry is appended, and the oldest beyond 50 are dropped.
unfoldable pub stack_status_entry : AccountMeta → StatusEntry → List StatusEntry
stack_status_entry m entry =
    let stack = m.status_stack ++ entry ∷ [] in
    if ltb 50 (length stack) then take_last 50 stack else stack

-- `stack_cooldown_count`
unfoldable pub stack_cooldown_count : ℕ → AccountMeta → ℕ → ℕ
unfolding is_in_cooldown
stack_cooldown_count now m add =
    let cur = if (m.cooldown_count == 0) && is_in_cooldown now m then 1 else m.cooldown_count in
    cur + add

-- `stack_cooldown_until`
unfoldable pub stack_cooldown_until : ℕ → AccountMeta → ℕ → ℕ × ℕ
unfolding stack_cooldown_count
stack_cooldown_until now m add_sec =
    let count = stack_cooldown_count now m (if ltb 0 add_sec then 1 else 0) in
    (now + max 3_600_000 add_sec * max 1 count, count)
