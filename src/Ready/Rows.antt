-- ===== src/Ready/Rows.antt =====
-- The rows that `rebuild_ready_index` of grok2api/store/ready_redis.py reads from the tables of accounts
-- and of the pool, and the status that it makes of each.
use grokcli_2api.Base.{
  ℕ, String, Bool, ◌||◌, Option, none, some, [], ◌∷◌, get_or, is_text, ltb, str_eq, if◌then◌else◌,
}
use grokcli_2api.Ready.Status.{Env, Json, Meta, cooling_until}
use grokcli_2api.Ready.Status.Json.{null, flag, whole, decimal, text, packed}

-- A row: the columns after the defaults of the query.
pub record IndexRow : Type 0 where
  pub id : String
  pub expires_at : Option ℕ
  pub enabled : Bool
  pub disabled_for_quota : Bool
  pub pool_status : String
  pub cooldown_until : Option ℕ
  pub request_count : ℕ
  pub last_used_at : Option ℕ
  pub state_version : ℕ
  pub blocked_models : String
  pub cooldown_count : ℕ
  pub cooldown_reason : Option String
  pub cooldown_code : Option String
  pub cooldown_model : Option String
  pub last_error : Option String
  pub status_stack : Option String
  pub consecutive_fails : ℕ
  pub last_status_code : Option String
  pub disabled_source : Option String
  pub last_probe_fail_at : Option String

unfoldable pub time_value : Option ℕ → Json
time_value none = null
time_value (some t) = decimal t

unfoldable pub text_value : Option String → Json
text_value none = null
text_value (some s) = text s

-- `row[4] or "normal"`
unfoldable pub status_value : String → String
status_value s = if is_text s then s else "normal"

unfoldable pub row_meta : IndexRow → Meta
unfolding time_value text_value status_value
row_meta row =
    ("expires_at", time_value row.expires_at)
    ∷ ("enabled", flag row.enabled)
    ∷ ("disabled_for_quota", flag row.disabled_for_quota)
    ∷ ("pool_status", text (status_value row.pool_status))
    ∷ ("cooldown_until", time_value row.cooldown_until)
    ∷ ("request_count", whole row.request_count)
    ∷ ("last_used_at", time_value row.last_used_at)
    ∷ ("state_version", whole row.state_version)
    ∷ ("blocked_models", packed row.blocked_models)
    ∷ ("cooldown_count", whole row.cooldown_count)
    ∷ ("cooldown_reason", text_value row.cooldown_reason)
    ∷ ("cooldown_code", text_value row.cooldown_code)
    ∷ ("cooldown_model", text_value row.cooldown_model)
    ∷ ("last_error", text_value row.last_error)
    ∷ ("status_stack", packed (get_or row.status_stack "[]"))
    ∷ ("consecutive_fails", whole row.consecutive_fails)
    ∷ ("last_status_code", text_value row.last_status_code)
    ∷ ("disabled_source", text_value row.disabled_source)
    ∷ ("last_probe_fail_at", text_value row.last_probe_fail_at)
    ∷ []

-- The rebuild's own test for the cooldown set.
unfoldable pub is_cooling_row : Env → IndexRow → Bool
unfolding cooling_until row_meta status_value
is_cooling_row env row =
    ltb env.now (cooling_until env (row_meta row))
    || str_eq (status_value row.pool_status) "cooldown"
