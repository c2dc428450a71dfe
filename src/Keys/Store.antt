-- ===== src/Keys/Store.antt =====
-- grok2api/admin/apikeys.py without PostgreSQL and Redis: the key list of `keys.json`, the cache of
-- verified keys, and every operation on them. SHA-256, the random secrets and ids, the clock and the
-- environment's key are arguments; texts come without blanks at their ends. Times are milliseconds.
use grokcli_2api.Base.{
  ℕ, ◌+◌, max, String, Bool, true, false, not, ◌&&◌, ◌||◌, Option, none, some, List, [], ◌∷◌, ◌++◌,
  cut, drop, length, get_or, is_text, str_eq, leb, ltb, ◌==◌, if◌then◌else◌,
}
use grokcli_2api.Base.Dict
use grokcli_2api.Base.Dict.{Dict}

pub record ApiKeyRecord : Type 0 where
  pub id : String
  pub name : String
  pub prefix : String
  pub key_hash : String
  pub created_at : ℕ
  pub enabled : Bool
  pub note : String
  pub last_used_at : Option ℕ
  pub request_count : ℕ
  pub secret : Option String

pub record Store : Type 0 where
  pub keys : List ApiKeyRecord
  pub cache : Dict (ApiKeyRecord × ℕ)

-- What does not change while the process runs: the hash, which texts are ASCII, the key of the
-- environment (`API_KEY`), and the cache's time to live.
pub record Settings : Type 0 where
  pub hash_key : String → String
  pub is_ascii : String → Bool
  pub api_key : String
  pub cache_ttl : ℕ

abbrev pub cache_max : ℕ
cache_max = 2_048

unfoldable pub read_entry :
    ℕ → String → Option (ApiKeyRecord × ℕ) → Store → Option ApiKeyRecord × Store
read_entry now h none st = (none, st)
read_entry now h (some (rec, exp)) st =
    if ltb exp now then (none, record st { cache = Dict.remove h st.cache }) else (some rec, st)

-- `_cache_get`
unfoldable pub cache_get : ℕ → String → Store → Option ApiKeyRecord × Store
unfolding read_entry
cache_get now h st = read_entry now h (Dict.get h st.cache) st

-- `_cache_put`: a full cache first loses its 64 oldest entries.
unfoldable pub cache_put : Settings → ℕ → String → ApiKeyRecord → Store → Store
cache_put cfg now h rec st =
    let room = if leb cache_max (length st.cache) then drop 64 st.cache else st.cache in
    record st { cache = Dict.put h (rec, now + max 500 cfg.cache_ttl) room }

-- `_save_raw` and `_cache_invalidate`
unfoldable pub save : List ApiKeyRecord → Store → Store
save keys st = record { keys = keys; cache = [] }

unfoldable pub new_record : Settings → ℕ → String → String → String → String → ApiKeyRecord
new_record cfg now id raw name note = record {
  id = id;
  name = if is_text name then name else "default";
  prefix = cut 12 raw;
  key_hash = cfg.hash_key raw;
  created_at = now;
  enabled = true;
  note = note;
  last_used_at = none;
  request_count = 0;
  secret = some raw;
}

-- `create_key`, with the id and the secret that were drawn
unfoldable pub create_key :
    Settings → ℕ → String → String → String → String → Store → ApiKeyRecord × Store
unfolding new_record save
create_key cfg now id raw name note st =
    let rec = new_record cfg now id raw name note in (rec, save (st.keys ++ (rec ∷ [])) st)

-- The loop that changes the first key of an id, and returns.
unfoldable pub change_first :
    String
    → (ApiKeyRecord → ApiKeyRecord)
    → List ApiKeyRecord
    → Option (ApiKeyRecord × List ApiKeyRecord)
change_first id f [] = none
change_first id f (k ∷ ks) =
    let rest = change_first id f ks in
    if str_eq k.id id
    then some (f k, f k ∷ ks)
    else elim rest [ none ↦ none | some (r, others) ↦ some (r, k ∷ others) ]

unfoldable pub saved :
    Option (ApiKeyRecord × List ApiKeyRecord) → Store → Option ApiKeyRecord × Store
unfolding save
saved none st = (none, st)
saved (some (rec, keys)) st = (some rec, save keys st)

unfoldable pub rotated : Settings → String → ApiKeyRecord → ApiKeyRecord
rotated cfg raw k = record k { prefix = cut 12 raw; key_hash = cfg.hash_key raw; secret = some raw }

-- `regenerate_key`
unfoldable pub regenerate_key : Settings → String → String → Store → Option ApiKeyRecord × Store
unfolding change_first saved rotated
regenerate_key cfg id raw st = saved (change_first id (rotated cfg raw) st.keys) st

-- `set_enabled`
unfoldable pub set_enabled : String → Bool → Store → Option ApiKeyRecord × Store
unfolding change_first saved
set_enabled id on st = saved (change_first id (λ k. record k { enabled = on }) st.keys) st

-- `update_key`: a name of blanks leaves the name.
unfoldable pub renamed : Option String → Option String → ApiKeyRecord → ApiKeyRecord
renamed name note k = record k {
  name = if is_text (get_or name "") then get_or name "" else k.name;
  note = get_or note k.note;
}

unfoldable pub update_key :
    String → Option String → Option String → Store → Option ApiKeyRecord × Store
unfolding change_first saved renamed
update_key id name note st = saved (change_first id (renamed name note) st.keys) st

unfoldable pub without : String → List ApiKeyRecord → List ApiKeyRecord
without id [] = []
without id (k ∷ ks) = let rest = without id ks in if str_eq k.id id then rest else k ∷ rest

-- `delete_key`
unfoldable pub delete_key : String → Store → Bool × Store
unfolding without save
delete_key id st =
    let left = without id st.keys in
    if length left == length st.keys then (false, st) else (true, save left st)

unfoldable pub counted : ℕ → ApiKeyRecord → ApiKeyRecord
counted now k = record k { last_used_at = some now; request_count = k.request_count + 1 }

unfoldable pub is_match : String → ApiKeyRecord → Bool
is_match h k = k.enabled && str_eq k.key_hash h

-- The scan of `verify_key`: the first enabled key with the hash, and the list with its use counted.
unfoldable pub scan : ℕ → String → List ApiKeyRecord → Option (ApiKeyRecord × List ApiKeyRecord)
unfolding is_match counted
scan now h [] = none
scan now h (k ∷ ks) =
    let rest = scan now h ks in
    if is_match h k
    then some (k, counted now k ∷ ks)
    else elim rest [ none ↦ none | some (r, others) ↦ some (r, k ∷ others) ]

unfoldable pub found_key :
    Settings
    → ℕ
    → String
    → Option (ApiKeyRecord × List ApiKeyRecord)
    → Store
    → Option ApiKeyRecord × Store
unfolding cache_put
found_key cfg now h none st = (none, st)
found_key cfg now h (some (rec, keys)) st =
    let cached = cache_put cfg now h rec st in (some rec, record cached { keys = keys })

unfoldable pub look_up :
    Settings → ℕ → String → Option ApiKeyRecord × Store → Option ApiKeyRecord × Store
unfolding scan found_key
look_up cfg now h (some rec, st) = (if rec.enabled then some rec else none, st)
look_up cfg now h (none, st) = found_key cfg now h (scan now h st.keys) st

unfoldable pub env_record : Settings → String → ApiKeyRecord
env_record cfg raw = record {
  id = "env";
  name = "env:GROK2API_API_KEY";
  prefix = cut 12 raw;
  key_hash = cfg.hash_key raw;
  created_at = 0;
  enabled = true;
  note = "from environment";
  last_used_at = none;
  request_count = 0;
  secret = none;
}

unfoldable pub is_env_key : Settings → String → Bool
is_env_key cfg raw = is_text cfg.api_key && str_eq raw cfg.api_key

-- `secrets.compare_digest` takes ASCII texts only.
unfoldable pub is_comparable : Settings → String → Bool
is_comparable cfg raw = not (is_text cfg.api_key) || (cfg.is_ascii raw && cfg.is_ascii cfg.api_key)

-- `verify_key`; an absent key is the empty text. Where `compare_digest` raises, the request fails without
-- a record.
unfoldable pub verify_key : Settings → ℕ → String → Store → Option ApiKeyRecord × Store
unfolding is_env_key is_comparable env_record look_up cache_get
verify_key cfg now raw st =
    if not (is_text raw) || not (is_comparable cfg raw)
    then (none, st)
    else if is_env_key cfg raw
    then (some (env_record cfg raw), st)
    else look_up cfg now (cfg.hash_key raw) (cache_get now (cfg.hash_key raw) st)

unfoldable pub any_enabled : List ApiKeyRecord → Bool
any_enabled [] = false
any_enabled (k ∷ ks) = k.enabled || any_enabled ks

-- `has_any_keys`
unfoldable pub has_any_keys : Settings → Store → Bool
unfolding any_enabled
has_any_keys cfg st = if is_text cfg.api_key then true else any_enabled st.keys

-- REQUIRE_API_KEY, in its readings
pub data Require : Type 0 where
  on off auto : Require

-- `auth_required`
unfoldable pub auth_required : Settings → Require → Store → Bool
unfolding has_any_keys
auth_required cfg on st = true
auth_required cfg off st = false
auth_required cfg auto st = has_any_keys cfg st
