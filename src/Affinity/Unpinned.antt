-- ===== src/Affinity/Unpinned.antt =====
-- What the operations on the pins keep: that no conversation is pinned to an account.
use grokcli_2api.Base.{
  ℕ, ◌+◌, ◌≡◌, refl, ap, ◌∙◌, String, Bool, true, false, not, ◌||◌, Option, none, some, [], ◌∷◌,
  All, take, ◌-◌, is_text, str_eq, eq_iff, arith, if◌then◌else◌, ltb, length,
}
use grokcli_2api.Base.Dict
use grokcli_2api.Affinity.Pins.{
  Pin, Pins, PinRules, fresh_pins, oldest_first, drop_keys, purge, touch, get_affinity_entry,
  bound_pin, bind_affinity, without_account, clear_affinity_for_account, is_moved,
  rebind_on_failover, failover_session, normalize_prompt_cache_key,
}

-- No pin of the map leads to the account.
abbrev pub IsUnpinned : String → Pins → Type 0
IsUnpinned account m = All (λ e. str_eq e.1.account_id account ≡ false) m

IsUnpinned-put :
    (account k : String) (p : Pin) (m : Pins)
    → str_eq p.account_id account ≡ false
    → IsUnpinned account m
    → IsUnpinned account (Dict.put k p m)
unfolding Dict.put
IsUnpinned-put account k p [] h hs = (h, tt)
IsUnpinned-put account k p ((j, q) ∷ m) h (g, hs) =
    ground (arith, IsUnpinned-put account k p m h hs)

pub IsUnpinned-remove :
    (account k : String) (m : Pins) → IsUnpinned account m → IsUnpinned account (Dict.remove k m)
unfolding Dict.remove
IsUnpinned-remove account k [] h = tt
IsUnpinned-remove account k ((j, q) ∷ m) (g, hs) = ground (arith, IsUnpinned-remove account k m hs)

IsUnpinned-fresh_pins :
    (account : String) (rules : PinRules) (now : ℕ) (m : Pins)
    → IsUnpinned account m
    → IsUnpinned account (fresh_pins rules now m)
unfolding fresh_pins
IsUnpinned-fresh_pins account rules now [] h = tt
IsUnpinned-fresh_pins account rules now ((j, q) ∷ m) (g, hs) =
    ground (arith, IsUnpinned-fresh_pins account rules now m hs)

IsUnpinned-drop_keys :
    (account : String) (dead m : Pins)
    → IsUnpinned account m
    → IsUnpinned account (drop_keys dead m)
unfolding drop_keys
IsUnpinned-drop_keys account [] m h = h
IsUnpinned-drop_keys account ((k, p) ∷ dead) m h =
    IsUnpinned-drop_keys account dead (Dict.remove k m) (IsUnpinned-remove account k m h)

pub IsUnpinned-if :
    (account : String) (b : Bool) (m n : Pins)
    → IsUnpinned account m
    → IsUnpinned account n
    → IsUnpinned account (if b then m else n)
IsUnpinned-if account true m n h k = h
IsUnpinned-if account false m n h k = k

IsUnpinned-purge :
    (account : String) (rules : PinRules) (now : ℕ) (m : Pins)
    → IsUnpinned account m
    → IsUnpinned account (purge rules now m)
unfolding purge
IsUnpinned-purge account rules now m h =
    let kept = fresh_pins rules now m in
    let fresh = IsUnpinned-fresh_pins account rules now m h in
    let dead = take (length kept - rules.max_entries) (oldest_first kept) in
    IsUnpinned-if account (ltb rules.max_entries (length kept)) (drop_keys dead kept) kept
      (IsUnpinned-drop_keys account dead kept fresh) fresh

get-IsUnpinned :
    (account k : String) (m : Pins) (p : Pin)
    → IsUnpinned account m
    → Dict.get k m ≡ some p
    → str_eq p.account_id account ≡ false
unfolding Dict.get
get-IsUnpinned account k [] p h e = cc
get-IsUnpinned account k ((j, q) ∷ m) p (g, hs) e = ground (arith, get-IsUnpinned account k m p hs)

-- A map without a pin to the account, and an answer that is not a pin to it.
abbrev pub IsAvoided : String → Pins × Option Pin → Type 0
IsAvoided account (m, none) = IsUnpinned account m
IsAvoided account (m, some p) = IsUnpinned account m × (str_eq p.account_id account ≡ false)

IsAvoided-if :
    (account : String) (b : Bool) (x y : Pins × Option Pin)
    → IsAvoided account x
    → IsAvoided account y
    → IsAvoided account (if b then x else y)
IsAvoided-if account true x y h k = h
IsAvoided-if account false x y h k = k

IsAvoided-touch :
    (account : String) (now : ℕ) (fp : String) (m : Pins) (o : Option Pin)
    → IsUnpinned account m
    → ((p : Pin) → o ≡ some p → str_eq p.account_id account ≡ false)
    → IsAvoided account (touch now fp m o)
unfolding touch
IsAvoided-touch account now fp m none h k = h
IsAvoided-touch account now fp m (some p) h k =
    let q = record p { last_seen = now; hits = p.hits + 1 } in
    IsAvoided-if account (is_text p.account_id) (Dict.put fp q m, some q) (m, none)
      (IsUnpinned-put account fp q m (k p refl) h, k p refl) h

pub IsAvoided-get_affinity_entry :
    (account : String) (rules : PinRules) (now : ℕ) (fp : String) (m : Pins)
    → IsUnpinned account m
    → IsAvoided account (get_affinity_entry rules now fp m)
unfolding get_affinity_entry
IsAvoided-get_affinity_entry account rules now fp m h =
    let kept = purge rules now m in
    let unpinned = IsUnpinned-purge account rules now m h in
    IsAvoided-if account (not (is_text fp) || not rules.enabled) (m, none)
      (touch now fp kept (Dict.get fp kept)) h
      (IsAvoided-touch account now fp kept (Dict.get fp kept) unpinned
        (λ p. get-IsUnpinned account fp kept p unpinned))

pub IsUnpinned-of :
    (account : String) (r : Pins × Option Pin) → IsAvoided account r → IsUnpinned account r.0
IsUnpinned-of account (m, none) h = h
IsUnpinned-of account (m, some p) h = h.0

bound_pin-account :
    (now : ℕ) (fp account sfp pck : String) (o : Option Pin)
    → (bound_pin now fp account sfp pck o).account_id ≡ account
unfolding bound_pin
bound_pin-account now fp account sfp pck none = refl
bound_pin-account now fp account sfp pck (some p) = ground (arith, eq_iff p.account_id account)

pub IsUnpinned-bind_affinity :
    (account : String) (rules : PinRules) (now : ℕ) (fp other session key : String) (m : Pins)
    → str_eq other account ≡ false
    → IsUnpinned account m
    → IsUnpinned account (bind_affinity rules now fp other session key m)
unfolding bind_affinity
IsUnpinned-bind_affinity account rules now fp other session key m e h =
    let kept = purge rules now m in
    let pin =
      bound_pin now fp other (rules.strip session) (normalize_prompt_cache_key rules key)
        (Dict.get fp kept) in
    IsUnpinned-if account (not (is_text fp) || not (is_text other) || not rules.enabled) m
      (Dict.put fp pin kept) h
      (IsUnpinned-put account fp pin kept
        (ap (λ a. str_eq a account)
            (bound_pin-account now fp other (rules.strip session)
              (normalize_prompt_cache_key rules key) (Dict.get fp kept))
          ∙ e)
        (IsUnpinned-purge account rules now m h))

pub IsUnpinned-rebind_on_failover :
    (account : String) (rules : PinRules) (now bound : ℕ) (fp failed other session : String)
    (first second : Pins → Pins) (m : Pins)
    → str_eq other account ≡ false
    → ((n : Pins) → IsUnpinned account n → IsUnpinned account (first n))
    → ((n : Pins) → IsUnpinned account n → IsUnpinned account (second n))
    → IsUnpinned account m
    → IsUnpinned account (rebind_on_failover rules now bound fp failed other session first second m)
unfolding rebind_on_failover failover_session
IsUnpinned-rebind_on_failover account rules now bound fp failed other session first second m e f g
      h =
    let given = rules.strip session in
    let found = get_affinity_entry rules now fp m in
    let looked = failover_session rules now fp session m in
    let n = first looked.0 in
    let unpinned = f looked.0 (
      IsUnpinned-if account (is_text given) m found.0 h
        (IsUnpinned-of account found (IsAvoided-get_affinity_entry account rules now fp m h))) in
    let rebound = bind_affinity rules bound fp other looked.1 "" (second n) in
    let rest = if is_moved failed (Dict.get fp n) then n else rebound in
    IsUnpinned-if account (not (is_text fp) || not (is_text other)) m rest h (
      IsUnpinned-if account (is_moved failed (Dict.get fp n)) n rebound unpinned (
        IsUnpinned-bind_affinity account rules bound fp other looked.1 "" (second n) e
          (g n unpinned)))

pub IsUnpinned-without_account :
    (account other : String) (m : Pins)
    → IsUnpinned account m
    → IsUnpinned account (without_account other m)
unfolding without_account
IsUnpinned-without_account account other [] h = tt
IsUnpinned-without_account account other ((k, p) ∷ m) (g, hs) =
    ground (arith, IsUnpinned-without_account account other m hs)

IsUnpinned-without_self :
    (account : String) (m : Pins) → IsUnpinned account (without_account account m)
unfolding without_account
IsUnpinned-without_self account [] = tt
IsUnpinned-without_self account ((k, p) ∷ m) = ground (arith, IsUnpinned-without_self account m)

pub clear_affinity_for_account-IsUnpinned :
    (account : String) (m : Pins)
    → is_text account ≡ true
    → IsUnpinned account (clear_affinity_for_account account m)
unfolding clear_affinity_for_account
clear_affinity_for_account-IsUnpinned account m e = rw e (IsUnpinned-without_self account m)
