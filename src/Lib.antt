-- ===== src/Lib.antt =====
-- grok2api: the account pool, the provider registry, the Redis index of ready accounts, the event
-- writer, the client keys, the election of a leader, the stream of an answer and the pins of
-- conversations to accounts, of an API gateway that spreads requests over many upstream accounts.
--
-- The program keeps a row of metadata for each account (table `account_pool`). Requests report their
-- outcome, background probes test the accounts, a maintainer renews their tokens, and an operator acts
-- on them by hand. Each of these patches the row; rotation reads it and asks whether the account is
-- eligible. This library models these operations, file by file:
--
--   Base            shared helpers: tests on numbers, lists, texts, and Python's dictionaries
--   Pool/Meta       the row: `_row_to_meta` (grok2api/store/settings_pg.py)
--   Pool/Status     `is_in_cooldown` (grok2api/pool/account_pool.py); `_derive_pool_status`,
--                   `patch_pool_meta`, `apply_pool_state_event` (grok2api/store/settings_pg.py); the
--                   other `_derive_pool_status` (grok2api/admin/settings_store.py)
--   Pool/Cooldown   `cooldown_defaults`, `compute_cooldown_seconds`, `_free_usage_cooldown_ttl`,
--                   `stack_status_entry`, `stack_cooldown_count` (grok2api/pool/account_pool.py)
--   Pool/Blocks     `block_model`, `unblock_model`, `is_model_blocked`, `prune_expired_model_blocks`
--   Pool/View       `_pool_meta`, `_eligible`
--   Pool/Pick       `acquire` with the ready index off, `_pick_round_robin`, `_pick_least_used`,
--                   `_health_penalty`
--   Pool/FreeUsage  `apply_free_usage_cooldown`
--   Pool/Stats      `touch_account_stats` (grok2api/admin/settings_store.py)
--   Pool/Admin      `clear_account_cooldown`, `kick_from_pool`, `set_account_enabled`,
--                   `disable_for_quota`, `reenable_for_quota`
--   Pool/Upstream   `handle_upstream_error_for_quota` (grok2api/pool/quota.py),
--                   `handle_upstream_error_for_model` (grok2api/pool/model_health.py)
--   Pool/Live       `report_success`, `_report_failure_impl`
--   Pool/Probe      `record_model_probe_outcome`
--   Pool/Renew      `mark_account_expired`, `clear_account_expired`, `record_renew_failure` and the
--                   markers of SSO
--
-- where no file is named, it is grok2api/pool/account_pool.py. The other files of Pool hold the proofs:
-- Commit and Hold (what each operation leaves of the count and the stack that keep an account cooling),
-- Failure, Kept, Lifecycle (runs of the whole pool), Recovery, Windows, Events, Blocking, Renewal,
-- Escalation, Kicks, Picking (whom `acquire` picks); Counters, Counted, Blame, Outcome, Balance, Tally
-- and Twice (what is counted); and Samples and Tests.
--
--   Providers/Registry  `ProviderRegistry` (grok2api/providers/registry.py) and the enumerations of
--                       grok2api/providers/types.py, with the proofs in Resolution, Choice and
--                       Missing
--
-- The registry maps a requested model to a route of one of the providers. It shares no state with the
-- pool: a request is resolved first, and its account is then taken from the provider's pool.
--
--   Ready/Status        the status that the Redis index stores of an account, `_status_active`, `_score`
--                       (grok2api/store/ready_redis.py)
--   Ready/Rows          the rows of the rebuild, and the status made of them
--   Ready/SortedSet     Redis' sorted sets: a parameter with its laws
--   Ready/Index         every operation of grok2api/store/ready_redis.py on the index's state, with the
--                       proofs in Placing, Rebuild, Claiming, Runs, Leases, Served, Versions, Published
--   Ready/Publish       `next_state_sequence`, `publish_account_state`, `publish_account_stats`
--                       (grok2api/store/events_redis.py) on that state
--
-- The index holds a copy of what rotation reads of each account, and the leases of running requests.
-- Its state is a record: a map of statuses, the two sorted sets, the leases, the counters of versions.
-- An operation is one step; that several Redis commands of one operation may be interleaved with
-- another's is left out. A float is a number of thousandths there, so a time is one of milliseconds.
--
--   Writer/Events       the queued events, as grok2api/writer.py reads them
--   Writer/Group        grouping by key and upserting, the pattern of its statements
--   Writer/Stats        `_apply_account_stats`
--   Writer/Usage        `_apply_usage`, without the detail rows of single requests
--   Writer/Transact     `_insert_inbox` and the transaction of `_process`
--   Writer/Process      `_process`, `_dead_letter_exhausted`, with the proofs in Grouped, Cutting,
--                       Batching, Delivery, Lettering, Losing and Overtaking
--
-- The writer takes the events that the gateway publishes and applies them to the same rows as the pool,
-- through `upsert` and `apply_pool_state_event` of Pool/Status. A failure of PostgreSQL or Redis is an
-- argument of `process`. Tables are functions of their keys, and a statement that merges sums changes
-- the row of each key that has one.
--
--   Keys/Store          grok2api/admin/apikeys.py in file mode: the list of client keys, the cache of
--                       verified ones and every operation, with the proofs in Caching, Runs and Life
--
-- A client's key is verified before its request reaches the registry and the pool. SHA-256 is a function
-- that a proof assumes nothing of, except that two given secrets have two hashes; which texts are ASCII,
-- so that `secrets.compare_digest` does not raise, is another.
--
--   Locks/Leader        grok2api/store/leader.py: a worker's flags, and its thread, command by command
--   Locks/Election      all workers, interleaved
--   Locks/Slot          the waiting of `redis_maintenance_slot` (grok2api/store/locks_redis.py)
--
-- One worker is elected to run the background maintainers, which renew tokens and probe accounts. The
-- wait for the slot is a loop on fuel: one unit for each attempt, of which a timeout leaves one
-- in every 50 milliseconds and two more. The election is modelled while its lock does not expire.
--
--   Stream/Events     the events of a streamed answer, and the slots of its tool calls
--   Stream/Assembler  `AnthropicStreamAssembler` (grok2api/protocol/anthropic_compat.py): its blocks in
--                     Wire, the merging of fragments in Pieces, `feed` in Ship, `finish` in Finish
--   Stream/Client     what a client requires of the events, written without the assembler
--
-- A request's answer comes back as a stream of chunks, which the assembler turns into content blocks.
-- The other files of Stream hold the proofs: Idle, Blocks, Shipping, Feeding, Closing, Ending, Served.
-- The state of the assembler is a record, and a method a function from it to the new one and the events.
--
--   Live/Frames       the frames of a Responses stream, and the slots of its tool calls
--   Live/Streamer     `ResponsesLiveStreamer` (grok2api/protocol/openai_responses.py): numbering and text
--                     in State, tool calls in Calls, `complete` in Turn
--   Live/Client       what a client requires of the frames, written without the streamer
--
-- It is the same for clients of the Responses protocol, with proofs in Texts, Bursts, Calls, Flushing,
-- Turns and Rounds. The loop over the ready tools has a round for each slot and one more.
--
--   Affinity/Pins     grok2api/pool/conversation_affinity.py in file mode: which account a conversation is
--                     pinned to, and every operation on the pins, with the proofs in Unpinned, Cleared,
--                     Bound and Failover
--
-- A request of a known conversation first tries the account that it is pinned to, and an account that
-- fails is left by `rebind_on_failover` or `clear_affinity_for_account`. Each operation but
-- `rebind_on_failover` holds the lock of the map, so it is one step. That one takes the lock three times,
-- and what other requests do in between are two arguments. The file of the map is left out.
--
-- A row is an optional record. A patch is a function on records: a key that Python pops is `none`, or
-- the default that its readers take for a missing key. An operation takes the clock and the account's
-- counter in Redis (`Env`) and the row, and returns the row that it commits. Times and durations are
-- milliseconds, natural numbers, where the source has floats of seconds; a count that the source stores
-- in `cooldown_sec` is stored as so many thousands. The code is built with
-- PROBE_ONLY_COOLDOWN_RECOVERY, and that branch is the one modelled.
--
-- Parameters: the routes that a provider's adapter offers; what the regular expressions of the error
-- classifiers answer for an error (fields of `UpstreamError` and `Classified`); the stored settings, the
-- draw of the jitter, and the clock; the functions that read and repair the JSON text of a tool's
-- arguments, the remapping of tool names, and Python's `strip` (fields of `Rules` and `Tooling`).
--
-- Not modelled: the other copies in Redis; the trimming of the writer's dead letters and its detail
-- rows; in the pool's operations, the event queue that replaces their
-- synchronous writes where it is on, the file store, the pins of conversations and the pick marks, which
-- the operations also update; the indexed picks of `acquire`, the weights of its random mode and the
-- refresh of the picked token; the hard deletion of an account; SQL, HTTP and the other parts of the
-- program. All other functions are structural.
pub mod Base
pub mod Pool
pub mod Providers
pub mod Ready
pub mod Writer
pub mod Keys
pub mod Locks
pub mod Stream
pub mod Live
pub mod Affinity
