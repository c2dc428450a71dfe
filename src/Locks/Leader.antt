-- ===== src/Locks/Leader.antt =====
-- grok2api/store/leader.py: the flags of one worker, and its thread that tries, watches and renews, one
-- Redis command at a time. The lock is one Redis key, read and written by `set_nx_ex`, `get_str`,
-- `renew_if_owner` and `compare_and_delete` of grok2api/store/redis_client.py, each of which is atomic.
-- That the maintainers run is a flag; starting and stopping them never fails here.
use grokcli_2api.Base.{
  ℕ, String, Bool, true, false, not, ◌&&◌, Option, none, some, [], ◌∷◌, one_of, str_eq, leb,
  if◌then◌else◌,
}

-- MAINTAINER_LEADER: `None`, `True` or `False` of `_want_force_leader`
pub data Force : Type 0 where
  auto always never : Force

-- `_want_force_leader`, on the lower-case value
unfoldable pub want_force_leader : String → Force
want_force_leader v =
    if one_of v ("1" ∷ "true" ∷ "yes" ∷ "on" ∷ "always" ∷ [])
    then always
    else if one_of v ("0" ∷ "false" ∷ "no" ∷ "off" ∷ "never" ∷ [])
    then never
    else auto

-- Where the thread is: between two rounds, or before the named command of a round.
pub data Pc : Type 0 where
  idle renewing acquiring checking claiming : Pc

-- The module's variables in one process.
pub record Worker : Type 0 where
  pub pc : Pc
  pub is_leader : Bool
  pub leader_id : Option String
  pub maintainers_started : Bool
  pub running : Bool

abbrev pub fresh_worker : Worker
fresh_worker = record {
  pc = idle;
  is_leader = false;
  leader_id = none;
  maintainers_started = false;
  running = false;
}

-- `_start_maintainers_if_needed`
unfoldable pub start_maintainers : Worker → Worker
start_maintainers w =
    if w.maintainers_started then w else record w { maintainers_started = true; running = true }

-- `_stop_maintainers_if_needed`
unfoldable pub stop_maintainers : Worker → Worker
stop_maintainers w =
    if w.maintainers_started then record w { maintainers_started = false; running = false } else w

-- `_set_leader_state`, at the end of a round
unfoldable pub set_leader_state : Bool → Option String → Worker → Worker
unfolding start_maintainers stop_maintainers
set_leader_state lead lid w =
    let set = record w { pc = idle; is_leader = lead; leader_id = if lead then lid else none } in
    if lead && not w.is_leader
    then start_maintainers set
    else if not lead && w.is_leader
    then stop_maintainers set
    else set

-- The answer that needs no lock: of the forced modes, and of a single worker.
unfoldable pub settled : Force → ℕ → Option (Bool × Option String)
settled never workers = some (false, none)
settled always workers = some (true, some (if leb workers 1 then "local" else "forced"))
settled auto workers = if leb workers 1 then some (true, some "local") else none

unfoldable pub begin : Option (Bool × Option String) → Worker → Worker
unfolding set_leader_state
begin none w = record w { pc = acquiring }
begin (some (lead, lid)) w = set_leader_state lead lid w

-- `try_become_leader` up to its first Redis command
unfoldable pub try_become_leader : Force → ℕ → Worker → Worker
unfolding settled begin
try_become_leader force workers w = begin (settled force workers) w

-- `release_leader`: the flags fall, and the maintainers are left as they are.
unfoldable pub released : Worker → Worker
released w = record w { is_leader = false; maintainers_started = false }

unfoldable pub owns : String → Option String → Bool
owns id none = false
owns id (some owner) = str_eq owner id

-- `compare_and_delete`
unfoldable pub compare_and_delete : String → Option String → Option String
unfolding owns
compare_and_delete id lock = if owns id lock then none else lock

unfoldable pub watch_read : String → Option String → Worker → Worker
unfolding set_leader_state
watch_read id none w = record w { pc = acquiring }
watch_read id (some owner) w =
    if str_eq owner id then record w { pc = renewing } else set_leader_state false none w

unfoldable pub check_read : String → Option String → Worker → Worker
unfolding owns set_leader_state
check_read id lock w =
    if owns id lock then record w { pc = claiming } else set_leader_state false none w

unfoldable pub renewed : String → Option String → Worker → Worker
unfolding owns set_leader_state
renewed id lock w =
    if owns id lock then set_leader_state true (some id) w else set_leader_state false none w

unfoldable pub set_nx : String → Option String → Worker → Option String × Worker
unfolding set_leader_state
set_nx id none w = (some id, set_leader_state true (some id) w)
set_nx id (some owner) w = (some owner, record w { pc = checking })

-- The next command of the thread of worker `id`: `_watch_loop` from `idle`, and `try_become_leader`
-- from `acquiring`.
unfoldable pub command : Pc → String → Option String → Worker → Option String × Worker
unfolding watch_read renewed set_nx check_read
command idle id lock w = (lock, watch_read id lock w)
command renewing id lock w = (lock, renewed id lock w)
command acquiring id lock w = set_nx id lock w
command checking id lock w = (lock, check_read id lock w)
command claiming id lock w = (lock, renewed id lock w)
