-- ===== src/Affinity/Pins.antt =====
-- The pins of grok2api/pool/conversation_affinity.py in file mode: `_map`, the purge and every operation.
-- Each operation but `rebind_on_failover`, which takes the lock three times, holds it throughout, so it
-- is one step. Times are milliseconds. The file that the map is flushed to and loaded from is left out.
use grokcli_2api.Base.{
  ℕ, ◌+◌, ◌-◌, String, Bool, false, not, ◌&&◌, ◌||◌, Option, none, some, [], ◌∷◌, length, take, cut,
  is_text, one_of, str_eq, starts_with, ltb, leb, if◌then◌else◌,
}
use grokcli_2api.Base.Dict
use grokcli_2api.Base.Dict.{Dict}

-- An entry; a text that is missing or `None` is empty.
pub record Pin : Type 0 where
  pub account_id : String
  pub bound_at : ℕ
  pub last_seen : ℕ
  pub hits : ℕ
  pub session_fp : String
  pub prompt_cache_key : String

-- `_enabled`, `_ttl`, `_max_entries`, and Python's `strip` and `lower`.
pub record PinRules : Type 0 where
  pub enabled : Bool
  pub ttl : ℕ
  pub max_entries : ℕ
  pub strip : String → String
  pub lower : String → String

abbrev pub Pins : Type 0
Pins = Dict Pin

-- The entries that were seen within the ttl.
unfoldable pub fresh_pins : PinRules → ℕ → Pins → Pins
fresh_pins rules now [] = []
fresh_pins rules now ((k, p) ∷ m) =
    let rest = fresh_pins rules now m in
    if ltb (p.last_seen + rules.ttl) now then rest else (k, p) ∷ rest

-- `sorted(_map.items(), key=last_seen)`
unfoldable pub insert_pin : String → Pin → Pins → Pins
insert_pin k p [] = (k, p) ∷ []
insert_pin k p ((j, q) ∷ m) =
    let rest = insert_pin k p m in
    if leb p.last_seen q.last_seen then (k, p) ∷ (j, q) ∷ m else (j, q) ∷ rest

unfoldable pub oldest_first : Pins → Pins
unfolding insert_pin
oldest_first [] = []
oldest_first ((k, p) ∷ m) = insert_pin k p (oldest_first m)

unfoldable pub drop_keys : Pins → Pins → Pins
drop_keys [] m = m
drop_keys ((k, p) ∷ dead) m = drop_keys dead (Dict.remove k m)

-- `_purge_locked`
unfoldable pub purge : PinRules → ℕ → Pins → Pins
unfolding fresh_pins oldest_first drop_keys take
purge rules now m =
    let kept = fresh_pins rules now m in
    if ltb rules.max_entries (length kept)
    then drop_keys (take (length kept - rules.max_entries) (oldest_first kept)) kept
    else kept

-- `normalize_prompt_cache_key`
unfoldable pub normalize_prompt_cache_key : PinRules → String → String
normalize_prompt_cache_key rules value =
    let s = rules.strip value in
    if not (is_text s) || one_of (rules.lower s) ("null" ∷ "none" ∷ "undefined" ∷ [])
    then ""
    else cut 240 s

-- `entry` of `get_affinity_entry`, after the purge
unfoldable pub touch : ℕ → String → Pins → Option Pin → Pins × Option Pin
touch now fp m none = (m, none)
touch now fp m (some p) =
    let q = record p { last_seen = now; hits = p.hits + 1 } in
    if is_text p.account_id then (Dict.put fp q m, some q) else (m, none)

-- `get_affinity_entry`
unfoldable pub get_affinity_entry : PinRules → ℕ → String → Pins → Pins × Option Pin
unfolding purge touch
get_affinity_entry rules now fp m =
    let kept = purge rules now m in
    if not (is_text fp) || not rules.enabled
    then (m, none)
    else touch now fp kept (Dict.get fp kept)

-- `get_affinity`
unfoldable pub get_affinity : PinRules → ℕ → String → Pins → Option String
unfolding get_affinity_entry
get_affinity rules now fp m = elim (get_affinity_entry rules now fp m).1 [
  | none ↦ none
  | some p ↦ some p.account_id
]

-- The entry that `bind_affinity` leaves, from the one that was there.
unfoldable pub bound_pin : ℕ → String → String → String → String → Option Pin → Pin
bound_pin now fp account sfp pck none = record {
  account_id = account;
  bound_at = now;
  last_seen = now;
  hits = 1;
  session_fp = sfp;
  prompt_cache_key = pck;
}
bound_pin now fp account sfp pck (some p) =
    let kept_key = if is_text pck then pck else p.prompt_cache_key in
    if str_eq p.account_id account
    then record p {
      last_seen = now;
      hits = p.hits + 1;
      session_fp =
          if is_text sfp
          then sfp
          else if not (is_text p.session_fp) && starts_with fp "fp:"
          then fp
          else p.session_fp;
      prompt_cache_key = kept_key;
    }
    else record {
      account_id = account;
      bound_at = now;
      last_seen = now;
      hits = p.hits + 1;
      session_fp = if is_text sfp then sfp else p.session_fp;
      prompt_cache_key = kept_key;
    }

-- `bind_affinity`
unfoldable pub bind_affinity : PinRules → ℕ → String → String → String → String → Pins → Pins
unfolding purge bound_pin normalize_prompt_cache_key
bind_affinity rules now fp account session cache_key m =
    let sfp = rules.strip session in
    let pck = normalize_prompt_cache_key rules cache_key in
    let kept = purge rules now m in
    if not (is_text fp) || not (is_text account) || not rules.enabled
    then m
    else Dict.put fp (bound_pin now fp account sfp pck (Dict.get fp kept)) kept

-- `clear_affinity`
unfoldable pub clear_affinity : String → Pins → Pins
clear_affinity fp m = if is_text fp then Dict.remove fp m else m

-- `clear_affinity_for_account`, without the count that it answers
unfoldable pub without_account : String → Pins → Pins
without_account account [] = []
without_account account ((k, p) ∷ m) =
    let rest = without_account account m in
    if str_eq p.account_id account then rest else (k, p) ∷ rest

unfoldable pub clear_affinity_for_account : String → Pins → Pins
unfolding without_account
clear_affinity_for_account account m = if is_text account then without_account account m else m

-- `rebind_on_failover`: the session's fingerprint is looked up if none is given, and a pin that another
-- request has moved meanwhile stays.
unfoldable pub session_of : Option Pin → String
session_of none = ""
session_of (some p) = p.session_fp

unfoldable pub is_moved : String → Option Pin → Bool
is_moved failed none = false
is_moved failed (some p) = is_text failed && not (str_eq p.account_id failed)

-- Its first look-up, which it makes only if no session is given: the map, and the session to bind.
unfoldable pub failover_session : PinRules → ℕ → String → String → Pins → Pins × String
unfolding get_affinity_entry session_of
failover_session rules now fp session m =
    let given = rules.strip session in
    let looked = get_affinity_entry rules now fp m in
    (if is_text given then m else looked.0, if is_text given then given else session_of looked.1)

-- The lock is released after the look-up and again after the check of the pin: `first` and `second` are
-- what other requests do to the map then. `now` is the time of the look-up, `bound` that of the binding.
unfoldable pub rebind_on_failover :
    PinRules
    → ℕ
    → ℕ
    → String
    → String
    → String
    → String
    → (Pins → Pins)
    → (Pins → Pins)
    → Pins
    → Pins
unfolding failover_session bind_affinity is_moved
rebind_on_failover rules now bound fp failed account session first second m =
    let looked = failover_session rules now fp session m in
    let n = first looked.0 in
    if not (is_text fp) || not (is_text account)
    then m
    else if is_moved failed (Dict.get fp n)
    then n
    else bind_affinity rules bound fp account looked.1 "" (second n)
