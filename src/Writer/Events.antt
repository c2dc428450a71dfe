-- ===== src/Writer/Events.antt =====
-- The queued events, as `build_event` of grok2api/store/events_redis.py makes them and
-- grok2api/writer.py reads them. Numbers are natural; an account id carries no blanks at its ends;
-- `occurred_at` is set by `build_event` and not zero. A state patch is a function on the row, as in the
-- pool.
use grokcli_2api.Base.{ℕ, String, Bool, Option, none, some, is_text, ◌==◌, if◌then◌else◌}
use grokcli_2api.Pool.Status.{Patch}

pub record StatsPayload : Type 0 where
  pub account_id : Option String
  pub requests : ℕ
  pub success : ℕ
  pub fail : ℕ
  pub reset_consecutive_fails : Bool
  pub state_seq : ℕ
  pub last_used_at : Option ℕ

pub record StatePayload : Type 0 where
  pub account_id : Option String
  pub patch : Patch
  pub state_seq : ℕ

pub record UsagePayload : Type 0 where
  pub ok : Bool
  pub prompt_tokens : ℕ
  pub completion_tokens : ℕ
  pub total_tokens : ℕ
  pub cache_read_tokens : ℕ
  pub cache_creation_tokens : ℕ
  pub reasoning_tokens : ℕ
  pub api_key_id : Option String
  pub account_id : Option String
  pub model : Option String

-- The payload, by the event's kind.
pub data Payload : Type 0 where
  account_stats : StatsPayload → Payload
  account_state : StatePayload → Payload
  usage : UsagePayload → Payload
  unknown : Payload

pub record QueuedEvent : Type 0 where
  pub event_id : String
  pub account_id : String
  pub occurred_at : ℕ
  pub payload : Payload

-- `p.get("account_id") or event.get("account_id") or ""`
unfoldable pub account_of : Option String → String → String
account_of none outer = outer
account_of (some s) outer = if is_text s then s else outer

-- `p.get("last_used_at") or _event_ts(event)`
unfoldable pub used_at : Option ℕ → ℕ → ℕ
used_at none ts = ts
used_at (some t) ts = if t == 0 then ts else t
