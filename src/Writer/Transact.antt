-- ===== src/Writer/Transact.antt =====
-- `_insert_inbox` and the transaction of `_process` of grok2api/writer.py: the tables that it changes.
-- Times are milliseconds, and a transaction has one. The deletion of old usage rows is left out.
use grokcli_2api.Base.{
  ℕ, String, Bool, not, ◌&&◌, Option, none, some, List, [], ◌∷◌, get_or, is_some, is_text, ◌+◌, ◌*◌,
  str_eq, ltb, if◌then◌else◌,
}
use grokcli_2api.Pool.Meta.{Row}
use grokcli_2api.Pool.Status.{apply_pool_state_event}
use grokcli_2api.Writer.Events.{
  UsagePayload, Payload, account_stats, account_state, usage, unknown, QueuedEvent, account_of,
}
use grokcli_2api.Writer.Group.{set_key}
use grokcli_2api.Writer.Stats.{apply_account_stats}
use grokcli_2api.Writer.Usage.{
  Daily, Bucket, Totals, usage_payload, apply_daily, by_account, by_key, apply_totals,
}

-- The tables: the inbox, with the time at which each event id was processed, the rows and token totals of accounts, the totals of keys, and
-- the daily counters.
pub record Tables : Type 0 where
  pub inbox : String → Option ℕ
  pub rows : String → Row
  pub accounts : String → Totals
  pub keys : String → Option Totals
  pub daily : Bucket → Option Daily

-- `INSERT ... ON CONFLICT DO NOTHING RETURNING` gives a row.
unfoldable pub is_new : (String → Option ℕ) → QueuedEvent → Bool
is_new inbox e = is_text e.event_id && not (is_some (inbox e.event_id))

unfoldable pub note : ℕ → (String → Option ℕ) → QueuedEvent → String → Option ℕ
unfolding is_new set_key
note now inbox e = if is_new inbox e then set_key str_eq e.event_id (some now) inbox else inbox

-- `_insert_inbox`: the events that were not in the inbox, and the inbox.
unfoldable pub insert_inbox :
    ℕ → (String → Option ℕ) → List QueuedEvent → List QueuedEvent × (String → Option ℕ)
unfolding is_new note
insert_inbox now inbox [] = ([], inbox)
insert_inbox now inbox (e ∷ es) =
    let after = insert_inbox now (note now inbox e) es in
    (if is_new inbox e then e ∷ after.0 else after.0, after.1)

-- The ids older than twice the retention are deleted.
abbrev pub inbox_window : ℕ → ℕ
inbox_window days = days * 172_800_000

unfoldable pub purge_inbox : ℕ → ℕ → (String → Option ℕ) → String → Option ℕ
purge_inbox days now inbox i = elim (inbox i) [
  | none ↦ none
  | some at ↦ if ltb (at + inbox_window days) now then none else some at
]

unfoldable pub apply_state : ℕ → QueuedEvent → Payload → (String → Row) → String → Row
unfolding account_of set_key apply_pool_state_event
apply_state now e (account_state p) rows =
    let aid = account_of p.account_id e.account_id in
    if is_text aid
    then set_key str_eq aid (apply_pool_state_event now p.patch p.state_seq (rows aid)) rows
    else rows
apply_state now e (account_stats p) rows = rows
apply_state now e (usage p) rows = rows
apply_state now e unknown rows = rows

-- The loop over the state events.
unfoldable pub apply_states : ℕ → List QueuedEvent → (String → Row) → String → Row
unfolding apply_state
apply_states now [] rows = rows
apply_states now (e ∷ es) rows = apply_states now es (apply_state now e e.payload rows)

unfoldable pub usage_of : List QueuedEvent → List (UsagePayload × ℕ)
unfolding usage_payload
usage_of [] = []
usage_of (e ∷ es) =
    let rest = usage_of es in
    elim (usage_payload e.payload) [ none ↦ rest | some p ↦ (p, e.occurred_at) ∷ rest ]

-- The totals of the accounts that have a row.
unfoldable pub of_rows : (String → Row) → (String → Totals) → String → Option Totals
of_rows rows totals a = if is_some (rows a) then some (totals a) else none

-- `UPDATE account_pool` with the tokens of the batch
unfoldable pub credit :
    (String → Row) → List (String × Totals) → (String → Totals) → String → Totals
unfolding of_rows apply_totals
credit rows used totals a = get_or (apply_totals used (of_rows rows totals) a) (totals a)

module _ (day_of : ℕ → String) where
  unfoldable pub apply_accepted : ℕ → List QueuedEvent → (String → Option ℕ) → Tables → Tables
  unfolding apply_account_stats apply_states usage_of apply_daily apply_totals by_account by_key
      credit
  apply_accepted now accepted inbox t =
      let rows = apply_states now accepted (apply_account_stats accepted t.rows) in
      let used = usage_of accepted in
      record {
        inbox = inbox;
        rows = rows;
        accounts = credit rows (by_account used) t.accounts;
        keys = apply_totals (by_key used) t.keys;
        daily = apply_daily day_of used t.daily;
      }

  -- The transaction of `_process`; `due` tells whether the hourly retention is made in it.
  unfoldable pub transact : ℕ → Bool → ℕ → List QueuedEvent → Tables → Tables
  unfolding insert_inbox apply_accepted purge_inbox
  transact days due now events t =
      let taken = insert_inbox now t.inbox events in
      let applied = apply_accepted now taken.0 taken.1 t in
      if due then record applied { inbox = purge_inbox days now applied.inbox } else applied
