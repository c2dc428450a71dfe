-- ===== src/Locks/Election.antt =====
-- The workers together: their commands interleaved in any order, failures of Redis, and releases.
use grokcli_2api.Base.{◌≡◌, String, true, not, ◌||◌, Option, none, str_eq, if◌then◌else◌}
use grokcli_2api.Locks.Leader.{
  idle, acquiring, Worker, fresh_worker, released, owns, compare_and_delete, command,
}

pub record Cluster : Type 0 where
  pub lock : Option String
  pub workers : String → Worker

abbrev pub empty_cluster : Cluster
empty_cluster = record { lock = none; workers = λ i. fresh_worker }

unfoldable pub set_worker : String → Worker → (String → Worker) → String → Worker
set_worker id w ws j = if str_eq id j then w else ws j

-- The cluster after the next command of a worker's thread, and after a worker has set out to try.
abbrev pub acted : String → Cluster → Cluster
acted id c = record {
  lock = (command (c.workers id).pc id c.lock (c.workers id)).0;
  workers = set_worker id (command (c.workers id).pc id c.lock (c.workers id)).1 c.workers;
}

abbrev pub tried : String → Cluster → Cluster
tried id c = record c {
  workers = set_worker id (record (c.workers id) { pc = acquiring }) c.workers;
}

abbrev pub given_up : String → Cluster → Cluster
given_up id c = record c { workers = set_worker id (record (c.workers id) { pc = idle }) c.workers }

abbrev pub left : String → Cluster → Cluster
left id c = record {
  lock = compare_and_delete id c.lock;
  workers = set_worker id (released (c.workers id)) c.workers;
}

-- A step of one worker, in the automatic mode with several workers: a command, a first try, a command
-- that raises, or `release_leader`. The lock does not run out.
pub data Step (c : Cluster) : Cluster → Type 0 where
  commands : (id : String) → Step c (acted id c)
  tries : (id : String) → Step c (tried id c)
  fails : (id : String) → Step c (given_up id c)
  releases : (id : String) → Step c (left id c)

pub data Reach : Cluster → Type 0 where
  start : Reach empty_cluster
  next : {c d : Cluster} → Reach c → Step c d → Reach d

-- A worker that leads holds the lock and has its maintainers started; one that does not has not.
abbrev IsFaithful : Option String → String → Worker → Type 0
IsFaithful lock id w =
    ((not w.is_leader || owns id lock) ≡ true) × (w.maintainers_started ≡ w.is_leader)

abbrev IsOrdered : Cluster → Type 0
IsOrdered c = (id : String) → IsFaithful c.lock id (c.workers id)
