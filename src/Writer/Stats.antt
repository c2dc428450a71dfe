-- ===== src/Writer/Stats.antt =====
-- `_apply_account_stats` of grok2api/writer.py: the sums of a batch by account, and the upsert of each
-- into `account_pool`. An inserted row has the columns' defaults.
use grokcli_2api.Base.{
  ℕ, ◌+◌, max, String, Bool, false, ◌&&◌, none, some, List, [], ◌∷◌, is_text, str_eq, ltb, ◌==◌,
  if◌then◌else◌,
}
use grokcli_2api.Pool.Meta.{AccountMeta, Row}
use grokcli_2api.Pool.Status.{fresh_meta, later}
use grokcli_2api.Writer.Events.{
  StatsPayload, Payload, account_stats, account_state, usage, unknown, QueuedEvent, account_of,
  used_at,
}
use grokcli_2api.Writer.Group.{apply_batch}

-- A row of `grouped`.
pub record Delta : Type 0 where
  pub requests : ℕ
  pub success : ℕ
  pub fail : ℕ
  pub reset_consecutive_fails : Bool
  pub state_version : ℕ
  pub last_used_at : ℕ

abbrev pub fresh_delta : Delta
fresh_delta = record {
  requests = 0;
  success = 0;
  fail = 0;
  reset_consecutive_fails = false;
  state_version = 0;
  last_used_at = 0;
}

-- A payload with the time of its event.
abbrev pub Stat : Type 0
Stat = StatsPayload × ℕ

unfoldable pub success_seq : StatsPayload → ℕ
success_seq p = if p.success == 0 then 0 else p.state_seq

unfoldable pub add_stat : Stat → Delta → Delta
unfolding success_seq used_at
add_stat (p, ts) d =
    let newer = ltb d.state_version (success_seq p) in
    record {
      requests = d.requests + p.requests;
      success = d.success + p.success;
      fail = d.fail + p.fail;
      reset_consecutive_fails =
          if newer then p.reset_consecutive_fails else d.reset_consecutive_fails;
      state_version = if newer then success_seq p else d.state_version;
      last_used_at = max d.last_used_at (used_at p.last_used_at ts);
    }

unfoldable pub inserted : Delta → AccountMeta
inserted d = record fresh_meta {
  request_count = d.requests;
  success_count = d.success;
  fail_count = d.fail;
  last_used_at = some d.last_used_at;
  state_version = d.state_version;
}

-- `ON CONFLICT DO UPDATE`
unfoldable pub updated : Delta → AccountMeta → AccountMeta
unfolding later
updated d m = record m {
  request_count = m.request_count + d.requests;
  success_count = m.success_count + d.success;
  fail_count = m.fail_count + d.fail;
  last_used_at = later m.last_used_at (some d.last_used_at);
  consecutive_fails =
      if ltb m.state_version d.state_version && d.reset_consecutive_fails
      then 0
      else m.consecutive_fails;
  state_version = max m.state_version d.state_version;
}

unfoldable pub upsert : Delta → Row → Row
unfolding inserted updated
upsert d none = some (inserted d)
upsert d (some m) = some (updated d m)

unfoldable pub keyed_stat : QueuedEvent → StatsPayload → List (String × Stat) → List (String × Stat)
unfolding account_of
keyed_stat e p rest =
    let aid = account_of p.account_id e.account_id in
    if is_text aid then (aid, (p, e.occurred_at)) ∷ rest else rest

unfoldable pub stat_of : Payload → QueuedEvent → List (String × Stat) → List (String × Stat)
unfolding keyed_stat
stat_of (account_stats p) e rest = keyed_stat e p rest
stat_of (account_state p) e rest = rest
stat_of (usage p) e rest = rest
stat_of unknown e rest = rest

-- The events of the kind, under their accounts.
unfoldable pub stats_of : List QueuedEvent → List (String × Stat)
unfolding stat_of
stats_of [] = []
stats_of (e ∷ es) = stat_of e.payload e (stats_of es)

-- `_apply_account_stats`
unfoldable pub apply_account_stats : List QueuedEvent → (String → Row) → String → Row
unfolding stats_of add_stat upsert apply_batch
apply_account_stats es table = apply_batch str_eq add_stat fresh_delta upsert (stats_of es) table
