-- ===== src/Ready/Status.antt =====
-- The status of an account as the index stores it, a JSON object (`meta` in
-- grok2api/store/ready_redis.py), and the readings of it. A float is held in thousandths; negative
-- numbers do not occur. How Python's `float` reads a text is a parameter, a field of `Env`.
use grokcli_2api.Base.{
  ℕ, ◌+◌, ◌*◌, ◌/◌, String, Bool, true, false, not, ◌&&◌, ◌||◌, Option, none, some, List, [], ◌∷◌,
  get_or, is_text, one_of, ltb, leb, ◌==◌, if◌then◌else◌,
}
use grokcli_2api.Base.Dict
use grokcli_2api.Base.Dict.{Dict}
use Prim.Native.Char.{code}

-- A JSON value; a list or an object as the compact text that it is stored as.
pub data Json : Type 0 where
  null : Json
  flag : Bool → Json
  whole : ℕ → Json
  decimal : ℕ → Json
  text : String → Json
  packed : String → Json

abbrev pub Meta : Type 0
Meta = Dict Json

pub record Env : Type 0 where
  pub now : ℕ
  pub read_float : String → Option ℕ
  pub max_inflight : ℕ

-- `meta.get(k)`
unfoldable pub found : Option Json → Json
found none = null
found (some v) = v

unfoldable pub field : String → Meta → Json
unfolding found
field k meta = found (Dict.get k meta)

unfoldable pub truthy : Json → Bool
truthy null = false
truthy (flag b) = b
truthy (whole n) = ltb 0 n
truthy (decimal n) = ltb 0 n
truthy (text s) = is_text s
truthy (packed s) = not (one_of s ("[]" ∷ "{}" ∷ []))

-- `float(v)` in thousandths, with `none` for the `TypeError` or `ValueError`
unfoldable pub to_float : (String → Option ℕ) → Json → Option ℕ
to_float read null = none
to_float read (flag b) = some (if b then 1_000 else 0)
to_float read (whole n) = some (n * 1_000)
to_float read (decimal n) = some n
to_float read (text s) = read s
to_float read (packed s) = none

-- `int(v or 0)` of a version, which this module alone writes, as a whole number.
unfoldable pub to_int : Json → ℕ
to_int (flag b) = if b then 1 else 0
to_int (whole n) = n
to_int (decimal n) = n / 1_000
to_int v = 0

unfoldable pub lower_code : ℕ → ℕ
lower_code c = if leb b'A' c && leb c b'Z' then c + 32 else c

-- `s.lower() == t`, for an ASCII `t` without the letter k
unfoldable pub spells : String → String → Bool
unfolding lower_code
spells String.[] String.[] = true
spells String.[] (String.◌∷◌ d t) = false
spells (String.◌∷◌ c s) String.[] = false
spells (String.◌∷◌ c s) (String.◌∷◌ d t) = lower_code (code c) == code d && spells s t

-- `str(v).lower()` is one of the names; of the values only a text can be.
unfoldable pub is_named : List String → Json → Bool
unfolding spells
is_named (n ∷ ns) (text s) = spells s n || is_named ns (text s)
is_named ns v = false

abbrev pub shut_statuses : List String
shut_statuses = "disabled" ∷ "expired" ∷ "quota_disabled" ∷ "cooldown" ∷ []

-- `v is False`
unfoldable pub is_false : Json → Bool
is_false (flag false) = true
is_false v = false

-- The part of `_status_active` that does not read the clock.
unfoldable pub is_open : Meta → Bool
unfolding field truthy is_named is_false
is_open meta =
    not (is_false (field "enabled" meta))
    && not (truthy (field "disabled_for_quota" meta))
    && not (is_named shut_statuses (field "pool_status" meta))

-- `v is not None and float(v) <= now`
unfoldable pub has_come : ℕ → Option ℕ → Bool
has_come now none = false
has_come now (some t) = leb t now

-- `v is not None and float(v) > now`
unfoldable pub lies_ahead : ℕ → Option ℕ → Bool
lies_ahead now none = false
lies_ahead now (some t) = ltb now t

-- `_status_active`
unfoldable pub status_active : Env → Meta → Bool
unfolding is_open has_come lies_ahead field to_float
status_active env meta =
    is_open meta
    && not (has_come env.now (to_float env.read_float (field "expires_at" meta)))
    && not (lies_ahead env.now (to_float env.read_float (field "cooldown_until" meta)))

-- `_score` in its default mode
unfoldable pub score : Env → Meta → ℕ
unfolding field to_float
score env meta = get_or (to_float env.read_float (field "last_used_at" meta)) 0

-- `until_f`
unfoldable pub cooling_until : Env → Meta → ℕ
unfolding field to_float
cooling_until env meta = get_or (to_float env.read_float (field "cooldown_until" meta)) 0

-- The test that sends an account to the cooldown set.
unfoldable pub is_cooling : Env → Meta → Bool
unfolding cooling_until is_named field
is_cooling env meta =
    ltb env.now (cooling_until env meta) || is_named ("cooldown" ∷ []) (field "pool_status" meta)

-- A patch of the status: `None` removes a key.
unfoldable pub assign : String → Json → Meta → Meta
assign k null meta = Dict.remove k meta
assign k v meta = Dict.put k v meta

unfoldable pub merge : Meta → Meta → Meta
unfolding assign
merge [] meta = meta
merge ((k, v) ∷ patch) meta = merge patch (assign k v meta)

unfoldable pub version : Meta → ℕ
unfolding field to_int
version meta = to_int (field "state_version" meta)

unfoldable pub stamp : ℕ → Meta → Meta
stamp n meta = Dict.put "state_version" (whole n) meta

-- A success resets the streak of failures.
unfoldable pub reset_streak : Meta → Meta
reset_streak meta = Dict.put "consecutive_fails" (whole 0) meta
