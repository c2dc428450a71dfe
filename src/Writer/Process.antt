-- ===== src/Writer/Process.antt =====
-- `_process` and `_dead_letter_exhausted` of grok2api/writer.py: the streams of messages around the
-- transaction. PostgreSQL and Redis may fail: where they do is an argument. The metrics and the trimming
-- of the dead letters beyond 100 000 are left out, and Redis' client does not come or go within an
-- attempt.
use grokcli_2api.Base.{
  ℕ, String, Bool, true, false, not, ◌&&◌, ◌||◌, List, [], ◌∷◌, ◌++◌, map, is_empty, one_of, take,
  length, ◌+◌, str_eq, ltb, if◌then◌else◌,
}
use grokcli_2api.Writer.Events.{QueuedEvent}
use grokcli_2api.Writer.Transact.{Tables, transact}

-- A message of a stream.
pub record Message : Type 0 where
  pub stream : String
  pub id : String
  pub event : QueuedEvent

-- The tables, the entries of the streams, those that were delivered and not acknowledged, the dead
-- letters, and the writer's `_last_retention`.
pub record World : Type 0 where
  pub tables : Tables
  pub entries : List Message
  pub unacked : List Message
  pub dead : List Message
  pub last_retention : ℕ

unfoldable pub same_message : Message → Message → Bool
same_message a b = str_eq a.stream b.stream && str_eq a.id b.id

unfoldable pub has_message : Message → List Message → Bool
unfolding same_message
has_message m [] = false
has_message m (b ∷ batch) = same_message m b || has_message m batch

unfoldable pub acknowledge : List Message → List Message → List Message
unfolding has_message
acknowledge batch [] = []
acknowledge batch (m ∷ ms) =
    let rest = acknowledge batch ms in if has_message m batch then rest else m ∷ rest

-- What the writer sends to Redis: `move_to_dlq`, `xack` and `xdel`.
pub data Command : Type 0 where
  move_to_dlq : Message → Command
  xack xdel : List Message → Command

unfoldable pub run_command : Command → World → World
unfolding acknowledge
run_command (move_to_dlq m) w = record w { dead = w.dead ++ m ∷ [] }
run_command (xack ms) w = record w { unacked = acknowledge ms w.unacked }
run_command (xdel ms) w = record w { entries = acknowledge ms w.entries }

unfoldable pub run_all : List Command → World → World
unfolding run_command
run_all [] w = w
run_all (c ∷ cs) w = run_all cs (run_command c w)

-- `by_stream`: its keys in the order of the batch, and the messages of one.
unfoldable pub streams_of : List String → List Message → List String
streams_of seen [] = []
streams_of seen (m ∷ ms) = elim (one_of m.stream seen) [
  | true ↦ streams_of seen ms
  | false ↦ m.stream ∷ streams_of (m.stream ∷ seen) ms
]

unfoldable pub ids_of : String → List Message → List Message
ids_of stream [] = []
ids_of stream (m ∷ ms) =
    let rest = ids_of stream ms in if str_eq m.stream stream then m ∷ rest else rest

unfoldable pub ack_each : List String → List Message → List Command
unfolding ids_of
ack_each [] batch = []
ack_each (s ∷ ss) batch = xack (ids_of s batch) ∷ xdel (ids_of s batch) ∷ ack_each ss batch

-- What an attempt meets: whether PostgreSQL is enabled, Redis has a client and the transaction commits;
-- if it does not, whether the retention was reached; how many commands of the acknowledgement succeed;
-- and for each message what `_pending_deliveries` answers and how many commands of its dead letter
-- succeed.
pub record Outcome : Type 0 where
  pub pg_enabled : Bool
  pub has_client : Bool
  pub commits : Bool
  pub retains : Bool
  pub acks : ℕ
  pub deliveries : Message → ℕ
  pub letters : Message → ℕ

-- `_dead_letter_exhausted`
unfoldable pub dead_letter : Outcome → Message → World → World
unfolding run_all
dead_letter o m w =
    run_all (take (o.letters m) (move_to_dlq m ∷ xack (m ∷ []) ∷ xdel (m ∷ []) ∷ [])) w

unfoldable pub dead_letter_each : ℕ → Outcome → List Message → World → World
unfolding dead_letter
dead_letter_each retries o [] w = w
dead_letter_each retries o (m ∷ ms) w =
    dead_letter_each retries o ms (if ltb (o.deliveries m) retries then w else dead_letter o m w)

unfoldable pub dead_letter_exhausted : ℕ → Outcome → List Message → World → World
unfolding dead_letter_each
dead_letter_exhausted retries o batch w =
    if o.has_client then dead_letter_each retries o batch w else w

unfoldable pub is_retention_due : ℕ → World → Bool
is_retention_due now w = ltb (w.last_retention + 3_600_000) now

module _ (day_of : ℕ → String) (days retries : ℕ) where
  unfoldable pub commit : ℕ → List Message → World → World
  unfolding transact is_retention_due
  commit now batch w =
      let due = is_retention_due now w in
      record w {
        tables = transact day_of days due now (map (λ m. m.event) batch) w.tables;
        last_retention = if due then now else w.last_retention;
      }

  -- After the commit
  unfoldable pub settle : Outcome → List Message → World → World
  unfolding ack_each streams_of run_all dead_letter_exhausted
  settle o batch w =
      let commands = if o.has_client then ack_each (streams_of [] batch) batch else [] in
      let after = run_all (take o.acks commands) w in
      if ltb o.acks (length commands) then dead_letter_exhausted retries o batch after else after

  -- The transaction fails.
  unfoldable pub give_up : Outcome → ℕ → List Message → World → World
  unfolding dead_letter_exhausted is_retention_due
  give_up o now batch w = dead_letter_exhausted retries o batch (record w {
    last_retention = if is_retention_due now w && o.retains then now else w.last_retention;
  })

  -- `_process`
  unfoldable pub process : Outcome → ℕ → List Message → World → World
  unfolding commit settle give_up
  process o now batch w =
      if is_empty batch || not o.pg_enabled
      then w
      else if o.commits
      then settle o batch (commit now batch w)
      else give_up o now batch w
