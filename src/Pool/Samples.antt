-- ===== src/Pool/Samples.antt =====
-- Sample data for the tests of the pool.
use grokcli_2api.Base.{true, false, none, some, [], ◌∷◌}
use grokcli_2api.Pool.Meta.{AccountMeta, StatusEntry, ModelBlock, no_meta, RenewStatus}
use grokcli_2api.Pool.Status.{Env, Patch}
use grokcli_2api.Pool.Cooldown.{CooldownPolicy}
use grokcli_2api.Pool.View.{Credentials}
use grokcli_2api.Pool.FreeUsage.{UsageSignal}
use grokcli_2api.Pool.Upstream.{Classified, Policy}
use grokcli_2api.Pool.Live.{report_failure, report_success}
use grokcli_2api.Pool.Admin.{set_account_enabled}
use grokcli_2api.Pool.Probe.{Probe}
use grokcli_2api.Pool.Lifecycle.{Table, set_row}

abbrev pub noon : Env
noon = record { now = 1_000_000; seq = 7 }

abbrev pub evening : Env
evening = record { now = 1_010_000; seq = 8 }

abbrev pub cooldowns : CooldownPolicy
cooldowns = record {
  default = 20_000;
  auth = 90_000;
  rate_limit = 45_000;
  server_error = 20_000;
  soft_block_ttl = 180_000;
  durable_block_ttl = 3_600_000;
  ceiling = 600_000;
  probe_fail_kick_streak = 2;
  probe_fail_disable_streak = 4;
  probe_kick_cooldown = 600_000;
}

abbrev pub policy : Policy
policy = record { cooldowns = cooldowns; auto_disable = true; draw = 3 }

-- A server error, which no classifier takes for anything else.
abbrev pub bad_gateway : Classified
bad_gateway = record {
  upstream = record {
    text = "bad gateway";
    status_code = some 502;
    parsed = none;
    temporary = false;
  };
  hard_quota = false;
  account_block = false;
  model_unavailable = false;
  retry_after = none;
  lowered = "bad gateway";
}

abbrev pub usage : UsageSignal
usage = record {
  code = "subscription:free-usage-exhausted";
  reason = "free usage exhausted";
  model = some "grok-4";
  tokens_actual = some 90;
  tokens_limit = some 80;
  detail = "";
}

-- A usage error whose text also reads as a spent quota.
abbrev pub spent : Classified
spent = record {
  upstream = record {
    text = "free usage exhausted";
    status_code = some 429;
    parsed = some usage;
    temporary = true;
  };
  hard_quota = true;
  account_block = false;
  model_unavailable = false;
  retry_after = none;
  lowered = "free usage exhausted";
}

abbrev pub creds : Credentials
creds = record { auth_key = "a"; expired = false; has_token = true }

abbrev pub probe : Probe
probe = record { model = some "grok-4"; source = "model_health"; auto_kick = true }

abbrev pub old_entry : StatusEntry
old_entry = record {
  kind = "request_fail";
  code = "http_502";
  model = none;
  tokens_actual = none;
  tokens_limit = none;
  source = "live";
  status_code = some 502;
  at = 990_000;
  reason = "bad gateway";
}

-- An account that cools after one failure.
abbrev pub cooling : AccountMeta
cooling = record no_meta {
  cooldown_count = 1;
  status_stack = old_entry ∷ [];
  cooldown_until = some 5_000_000;
  request_count = 3;
  success_count = 2;
  fail_count = 1;
}

abbrev pub timed_block : ModelBlock
timed_block = record {
  reason = "slow";
  blocked_at = 900_000;
  source = "soft";
  ttl = some 200_000;
  until = some 1_100_000;
  stacked_add = some 200_000;
}

abbrev pub past_block : ModelBlock
past_block = record timed_block { until = some 950_000 }

abbrev pub blocked : AccountMeta
blocked = record no_meta { blocked_models = ("grok-4", timed_block) ∷ ("grok-3", past_block) ∷ [] }

abbrev pub unrenewed : AccountMeta
unrenewed = record no_meta {
  renew_fail_count = 2;
  token_expired_at = some 900_000;
  last_renew_status = some RenewStatus.failed;
}

abbrev pub reset_streak : Patch
reset_streak m = record m { probe_fail_streak = 0 }

abbrev pub empty_table : Table
empty_table id = none

-- A failure on the account `a`, then a success on `b`, and `a` switched on by hand.
abbrev pub after_failure : Table
after_failure =
    set_row empty_table "a" (report_failure noon policy bad_gateway (some "grok-4") none)

abbrev pub after_success : Table
after_success = set_row after_failure "b" (report_success evening none (after_failure "b"))

abbrev pub after_switch : Table
after_switch = set_row after_success "a" (set_account_enabled evening true (after_success "a"))

-- An error that says that the model does not exist.
abbrev pub gone : Classified
gone = record bad_gateway { model_unavailable = true }
