-- ===== src/Writer/Tests.antt =====
-- The theorems of the writer at concrete inputs.
use grokcli_2api.Base.{
  ℕ, ◌≡◌, refl, String, true, false, ◌&&◌, ◌||◌, is_some, All, none, some, List, [], ◌∷◌, ◌++◌,
  arith,
}
use grokcli_2api.Writer.Events.{StatsPayload, StatePayload, UsagePayload, QueuedEvent, account_of}
use grokcli_2api.Writer.Stats.{success_seq, apply_account_stats}
use grokcli_2api.Writer.Usage.{no_totals, apply_daily, apply_totals, by_key, by_account}
use grokcli_2api.Writer.Transact.{Tables, apply_accepted, transact, purge_inbox}
use grokcli_2api.Writer.Process.{Message, World, has_message, Outcome, process}
use grokcli_2api.Writer.Cutting.{usage_cut}
use grokcli_2api.Writer.Batching.{AllReset, stats_cut}
use grokcli_2api.Writer.Delivery.{is_young, transact_all, redelivered}
use grokcli_2api.Writer.Losing.{never_lost}
use grokcli_2api.Writer.Overtaking.{state_event, stats_event, success_overtakes}

abbrev one_day : ℕ → String
one_day ts = "2026-01-02"

abbrev success : ℕ → StatsPayload
success n = record {
  account_id = none;
  requests = 1;
  success = 1;
  fail = 0;
  reset_consecutive_fails = true;
  state_seq = n;
  last_used_at = none;
}

abbrev failure : StatsPayload
failure = record {
  account_id = some "b";
  requests = 1;
  success = 0;
  fail = 1;
  reset_consecutive_fails = false;
  state_seq = 0;
  last_used_at = some 9_000;
}

abbrev cooled : StatePayload
cooled = record { account_id = none; patch = λ m. record m { cooldown_count = 1 }; state_seq = 5 }

abbrev spent : UsagePayload
spent = record {
  ok = true;
  prompt_tokens = 10;
  completion_tokens = 4;
  total_tokens = 0;
  cache_read_tokens = 3;
  cache_creation_tokens = 0;
  reasoning_tokens = 1;
  api_key_id = some "k";
  account_id = some "a";
  model = some "grok-4";
}

abbrev tables : Tables
tables = record {
  inbox = λ i. none;
  rows = λ a. none;
  accounts = λ a. no_totals;
  keys = λ k. some no_totals;
  daily = λ b. none;
}

abbrev first_batch : List QueuedEvent
first_batch = stats_event "1" "a" 7_000 (success 4) ∷ stats_event "2" "c" 7_100 failure ∷ []

abbrev second_batch : List QueuedEvent
second_batch = state_event "3" "a" 7_200 cooled ∷ stats_event "4" "a" 7_300 (success 6) ∷ []

abbrev message : Message
message = record {
  stream = "account_stats";
  id = "7-0";
  event = stats_event "1" "a" 7_000 (success 4);
}

abbrev world : World
world = record {
  tables = tables;
  entries = message ∷ [];
  unacked = message ∷ [];
  dead = [];
  last_retention = 0;
}

-- The commit succeeds, and the connection to Redis is lost after the first command.
abbrev one_ack : Outcome
one_ack = record {
  pg_enabled = true;
  has_client = true;
  commits = true;
  retains = false;
  acks = 1;
  deliveries = λ m. 0;
  letters = λ m. 0;
}

first_reset : AllReset first_batch
unfolding success_seq
first_reset = (refl, (refl, tt))

second_reset : AllReset second_batch
unfolding success_seq
second_reset = (tt, (refl, tt))

own_cooled : account_of cooled.account_id "a" ≡ "a"
unfolding account_of
own_cooled = refl

own_success : account_of (success 6).account_id "a" ≡ "a"
unfolding account_of
own_success = refl

stats_cut_example :
    apply_account_stats (first_batch ++ second_batch) tables.rows
    ≡ apply_account_stats second_batch (apply_account_stats first_batch tables.rows)
stats_cut_example = stats_cut first_batch second_batch tables.rows first_reset second_reset

usage_cut_example :
    (apply_daily one_day ((spent, 1) ∷ (spent, 2) ∷ []) tables.daily
      ≡ apply_daily one_day ((spent, 2) ∷ []) (apply_daily one_day ((spent, 1) ∷ []) tables.daily))
    × (apply_totals (by_key ((spent, 1) ∷ (spent, 2) ∷ [])) tables.keys
        ≡ apply_totals
            (by_key ((spent, 2) ∷ []))
            (apply_totals (by_key ((spent, 1) ∷ [])) tables.keys))
    × (apply_totals (by_account ((spent, 1) ∷ (spent, 2) ∷ [])) tables.keys
        ≡ apply_totals
            (by_account ((spent, 2) ∷ []))
            (apply_totals (by_account ((spent, 1) ∷ [])) tables.keys))
usage_cut_example =
    usage_cut one_day ((spent, 1) ∷ []) ((spent, 2) ∷ []) tables.daily tables.keys tables.keys

redelivered_example :
    let before =
      transact_all one_day 1
        ((true, 8_500, second_batch) ∷ [])
        (transact one_day 1 true 8_000 first_batch tables) in
    transact one_day 1 true 9_000 first_batch before
    ≡ record before { inbox = purge_inbox 1 9_000 before.inbox }
redelivered_example =
    redelivered one_day 1 8_600 8_000 9_000 true true first_batch ((true, 8_500, second_batch) ∷ [])
      tables (omega arith) (omega arith) (omega arith, tt) young
  where
    young : All (λ e. is_young 1 8_600 (tables.inbox e.event_id) ≡ true) first_batch
    young = unfold is_young in (refl, (refl, tt))

never_lost_example :
    let after = process one_day 1 5 one_ack 8_000 (message ∷ []) world in
    ((has_message message after.entries && has_message message after.unacked)
      || has_message message after.dead
      || is_some (world.tables.inbox message.event.event_id)
      || is_some (after.tables.inbox message.event.event_id))
    ≡ true
never_lost_example =
    never_lost one_day 1 5 one_ack 8_000 (message ∷ []) world message ((λ same. refl), tt) refl
      pending
  where
    pending : (has_message message world.entries && has_message message world.unacked) ≡ true
    pending = unfold has_message in refl

success_overtakes_example :
    (apply_accepted one_day 8_000 second_batch tables.inbox tables).rows
    ≡ (apply_accepted one_day 8_000
        (stats_event "4" "a" 7_300 (success 6) ∷ [])
        tables.inbox
        tables).rows
success_overtakes_example =
    success_overtakes one_day 8_000 "3" "4" "a" cooled (success 6) 7_200 7_300 tables.inbox tables
      own_cooled own_success refl refl (omega arith)
