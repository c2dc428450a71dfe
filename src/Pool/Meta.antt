-- ===== src/Pool/Meta.antt =====
-- The pool metadata of one account: a row of `account_pool` (grok2api/store/settings_pg.py), as the
-- dictionary that `_row_to_meta` returns and `_upsert_pool` writes. A key that a patch pops is `none`,
-- or the default that every reader takes for a missing key (0, false, the empty list).
-- Times are milliseconds since the epoch and durations milliseconds, where the source has floats of
-- seconds.
use grokcli_2api.Base.{ℕ, String, Bool, true, false, Option, none, some, List, []}
use grokcli_2api.Base.Dict.{Dict}

pub data PoolStatus : Type 0 where
  normal cooldown expired disabled quota_disabled model_blocked : PoolStatus

-- `last_renew_status`
pub data RenewStatus : Type 0 where
  ok failed expired sso_failed no_sso_removed sso_attempt : RenewStatus

-- An entry of `status_stack`.
pub record StatusEntry : Type 0 where
  pub kind : String
  pub code : String
  pub model : Option String
  pub tokens_actual : Option ℕ
  pub tokens_limit : Option ℕ
  pub source : String
  pub status_code : Option ℕ
  pub at : ℕ
  pub reason : String

-- An entry of `blocked_models`.
pub record ModelBlock : Type 0 where
  pub reason : String
  pub blocked_at : ℕ
  pub source : String
  pub ttl : Option ℕ
  pub until : Option ℕ
  pub stacked_add : Option ℕ

-- `last_quota`, as `disable_for_quota` writes it.
pub record QuotaSnapshot : Type 0 where
  pub fetched_at : ℕ
  pub exhausted : Bool
  pub auto_disabled : Bool
  pub summary : String
  pub source : String

pub record AccountMeta : Type 0 where
  pub enabled : Bool
  pub weight : ℕ
  pub disabled_for_quota : Bool
  pub disabled_reason : Option String
  pub disabled_source : Option String
  pub quota_disabled_at : Option ℕ
  pub quota_source : Option String
  pub last_quota : Option QuotaSnapshot
  pub blocked_models : Dict ModelBlock
  pub request_count : ℕ
  pub success_count : ℕ
  pub fail_count : ℕ
  pub consecutive_fails : ℕ
  pub last_used_at : Option ℕ
  pub last_error : Option String
  pub last_status_code : Option ℕ
  pub cooldown_until : Option ℕ
  pub cooldown_sec : Option ℕ
  pub cooldown_count : ℕ
  pub cooldown_reason : Option String
  pub cooldown_code : Option String
  pub cooldown_model : Option String
  pub cooldown_tokens_actual : Option ℕ
  pub cooldown_tokens_limit : Option ℕ
  pub cooldown_detail : Option String
  pub status_stack : List StatusEntry
  pub pool_status : Option PoolStatus
  pub last_probe_status : Option String
  pub last_probe_ok_at : Option ℕ
  pub last_probe_fail_at : Option ℕ
  pub probe_fail_streak : ℕ
  pub token_expired_at : Option ℕ
  pub token_expired_reason : Option String
  pub renew_fail_count : ℕ
  pub last_renew_fail_at : Option ℕ
  pub last_renew_error : Option String
  pub last_renew_status : Option RenewStatus
  pub last_renew_source : Option String
  pub last_renew_ok_at : Option ℕ
  pub sso_reauth_attempted_at : Option ℕ
  pub sso_reauth_failed_at : Option ℕ
  pub sso_reauth_error : Option String
  pub sso_reauth_next_at : Option ℕ
  pub kicked_from_rotation : Bool
  pub kick_reason : Option String
  pub kick_at : Option ℕ
  pub state_version : ℕ

-- What the readers see of an account with no row: every key is missing.
abbrev pub no_meta : AccountMeta
no_meta = record {
  enabled = true;
  weight = 1;
  disabled_for_quota = false;
  disabled_reason = none;
  disabled_source = none;
  quota_disabled_at = none;
  quota_source = none;
  last_quota = none;
  blocked_models = [];
  request_count = 0;
  success_count = 0;
  fail_count = 0;
  consecutive_fails = 0;
  last_used_at = none;
  last_error = none;
  last_status_code = none;
  cooldown_until = none;
  cooldown_sec = none;
  cooldown_count = 0;
  cooldown_reason = none;
  cooldown_code = none;
  cooldown_model = none;
  cooldown_tokens_actual = none;
  cooldown_tokens_limit = none;
  cooldown_detail = none;
  status_stack = [];
  pool_status = none;
  last_probe_status = none;
  last_probe_ok_at = none;
  last_probe_fail_at = none;
  probe_fail_streak = 0;
  token_expired_at = none;
  token_expired_reason = none;
  renew_fail_count = 0;
  last_renew_fail_at = none;
  last_renew_error = none;
  last_renew_status = none;
  last_renew_source = none;
  last_renew_ok_at = none;
  sso_reauth_attempted_at = none;
  sso_reauth_failed_at = none;
  sso_reauth_error = none;
  sso_reauth_next_at = none;
  kicked_from_rotation = false;
  kick_reason = none;
  kick_at = none;
  state_version = 0;
}

-- A row of the table, or none.
abbrev pub Row : Type 0
Row = Option AccountMeta

-- `get_account_pool_meta(id) or {}`
abbrev pub read : Row → AccountMeta
read none = no_meta
read (some m) = m
