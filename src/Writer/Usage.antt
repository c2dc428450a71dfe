-- ===== src/Writer/Usage.antt =====
-- `_apply_usage` of grok2api/writer.py: the daily counters by dimension, and the totals of accounts and
-- keys. The day of a time (Python's `datetime`) is an argument; the rows of single requests, which only
-- copy the event, are left out.
use grokcli_2api.Base.{
  ℕ, ◌+◌, String, Bool, ◌&&◌, Option, none, some, List, [], ◌∷◌, ◌++◌, cut, is_text, str_eq, ltb,
  ◌==◌, if◌then◌else◌,
}
use grokcli_2api.Pool.Status.{later}
use grokcli_2api.Writer.Events.{UsagePayload, Payload, account_stats, account_state, usage, unknown}
use grokcli_2api.Writer.Group.{apply_batch}

-- `req`, a row of `usage_daily`
pub record Daily : Type 0 where
  pub requests : ℕ
  pub success : ℕ
  pub fail : ℕ
  pub prompt_tokens : ℕ
  pub completion_tokens : ℕ
  pub total_tokens : ℕ
  pub cache_read_tokens : ℕ
  pub cache_creation_tokens : ℕ
  pub reasoning_tokens : ℕ
  pub cache_hit_requests : ℕ

abbrev pub no_usage : Daily
no_usage = record {
  requests = 0;
  success = 0;
  fail = 0;
  prompt_tokens = 0;
  completion_tokens = 0;
  total_tokens = 0;
  cache_read_tokens = 0;
  cache_creation_tokens = 0;
  reasoning_tokens = 0;
  cache_hit_requests = 0;
}

unfoldable pub add_daily : Daily → Daily → Daily
add_daily e d = record {
  requests = d.requests + e.requests;
  success = d.success + e.success;
  fail = d.fail + e.fail;
  prompt_tokens = d.prompt_tokens + e.prompt_tokens;
  completion_tokens = d.completion_tokens + e.completion_tokens;
  total_tokens = d.total_tokens + e.total_tokens;
  cache_read_tokens = d.cache_read_tokens + e.cache_read_tokens;
  cache_creation_tokens = d.cache_creation_tokens + e.cache_creation_tokens;
  reasoning_tokens = d.reasoning_tokens + e.reasoning_tokens;
  cache_hit_requests = d.cache_hit_requests + e.cache_hit_requests;
}

unfoldable pub merge_daily : Daily → Option Daily → Option Daily
unfolding add_daily
merge_daily d none = some d
merge_daily d (some row) = some (add_daily d row)

abbrev pub one_if : Bool → ℕ
one_if b = if b then 1 else 0

-- `max(0, int(v or 0)) if ok else 0`
abbrev pub if_ok : Bool → ℕ → ℕ
if_ok ok n = if ok then n else 0

unfoldable pub total_of : UsagePayload → ℕ
total_of p = if p.total_tokens == 0 then p.prompt_tokens + p.completion_tokens else p.total_tokens

unfoldable pub request_usage : UsagePayload → Daily
unfolding total_of
request_usage p = record {
  requests = 1;
  success = one_if p.ok;
  fail = if p.ok then 0 else 1;
  prompt_tokens = if_ok p.ok p.prompt_tokens;
  completion_tokens = if_ok p.ok p.completion_tokens;
  total_tokens = if_ok p.ok (total_of p);
  cache_read_tokens = if_ok p.ok p.cache_read_tokens;
  cache_creation_tokens = if_ok p.ok p.cache_creation_tokens;
  reasoning_tokens = if_ok p.ok p.reasoning_tokens;
  cache_hit_requests = one_if (p.ok && ltb 0 p.cache_read_tokens);
}

-- The key of `usage_daily`.
pub record Bucket : Type 0 where
  pub day : String
  pub dim : String
  pub dim_id : String

unfoldable pub same_bucket : Bucket → Bucket → Bool
same_bucket a b = str_eq a.day b.day && str_eq a.dim b.dim && str_eq a.dim_id b.dim_id

-- `dims.append(...)` where the payload names one
unfoldable pub dim_of : String → ℕ → Option String → List (String × String)
dim_of dim n none = []
dim_of dim n (some s) = if is_text s then (dim, cut n s) ∷ [] else []

unfoldable pub dims : UsagePayload → List (String × String)
unfolding dim_of
dims p =
    ("global", "") ∷ dim_of "key" 256 p.api_key_id
    ++ dim_of "account" 256 p.account_id
    ++ dim_of "model" 120 p.model

unfoldable pub buckets :
    String → Daily → List (String × String) → List (Bucket × Daily) → List (Bucket × Daily)
buckets day req [] rest = rest
buckets day req ((dim, dim_id) ∷ ds) rest =
    (record { day = day; dim = dim; dim_id = dim_id }, req) ∷ buckets day req ds rest

-- Tokens of an account or a key.
pub record Totals : Type 0 where
  pub requests : ℕ
  pub last_used_at : Option ℕ
  pub prompt_tokens : ℕ
  pub completion_tokens : ℕ
  pub total_tokens : ℕ

abbrev pub no_totals : Totals
no_totals = record {
  requests = 0;
  last_used_at = none;
  prompt_tokens = 0;
  completion_tokens = 0;
  total_tokens = 0;
}

unfoldable pub add_totals : Totals → Totals → Totals
unfolding later
add_totals e d = record {
  requests = d.requests + e.requests;
  last_used_at = later d.last_used_at e.last_used_at;
  prompt_tokens = d.prompt_tokens + e.prompt_tokens;
  completion_tokens = d.completion_tokens + e.completion_tokens;
  total_tokens = d.total_tokens + e.total_tokens;
}

-- `UPDATE ... WHERE id = ...`: a row that is missing stays missing.
unfoldable pub merge_totals : Totals → Option Totals → Option Totals
unfolding add_totals
merge_totals d none = none
merge_totals d (some row) = some (add_totals d row)

unfoldable pub named : Option String → Totals → List (String × Totals) → List (String × Totals)
named none t rest = rest
named (some s) t rest = if is_text s then (s, t) ∷ rest else rest

unfoldable pub account_totals : UsagePayload → Totals
unfolding total_of
account_totals p = record no_totals {
  prompt_tokens = p.prompt_tokens;
  completion_tokens = p.completion_tokens;
  total_tokens = total_of p;
}

unfoldable pub key_totals : UsagePayload → ℕ → Totals
unfolding request_usage
key_totals p ts = record {
  requests = 1;
  last_used_at = some ts;
  prompt_tokens = (request_usage p).prompt_tokens;
  completion_tokens = (request_usage p).completion_tokens;
  total_tokens = (request_usage p).total_tokens;
}

unfoldable pub usage_payload : Payload → Option UsagePayload
usage_payload (account_stats p) = none
usage_payload (account_state p) = none
usage_payload (usage p) = some p
usage_payload unknown = none

module _ (day_of : ℕ → String) where
  unfoldable pub daily_of : List (UsagePayload × ℕ) → List (Bucket × Daily)
  unfolding buckets dims request_usage
  daily_of [] = []
  daily_of ((p, ts) ∷ us) = buckets (day_of ts) (request_usage p) (dims p) (daily_of us)

  unfoldable pub apply_daily :
      List (UsagePayload × ℕ) → (Bucket → Option Daily) → Bucket → Option Daily
  unfolding daily_of same_bucket add_daily merge_daily apply_batch
  apply_daily us table = apply_batch same_bucket add_daily no_usage merge_daily (daily_of us) table

unfoldable pub by_account : List (UsagePayload × ℕ) → List (String × Totals)
unfolding named account_totals
by_account [] = []
by_account ((p, ts) ∷ us) =
    let rest = by_account us in if p.ok then named p.account_id (account_totals p) rest else rest

unfoldable pub by_key : List (UsagePayload × ℕ) → List (String × Totals)
unfolding named key_totals
by_key [] = []
by_key ((p, ts) ∷ us) = named p.api_key_id (key_totals p ts) (by_key us)

unfoldable pub apply_totals :
    List (String × Totals) → (String → Option Totals) → String → Option Totals
unfolding add_totals merge_totals apply_batch
apply_totals ts table = apply_batch str_eq add_totals no_totals merge_totals ts table
