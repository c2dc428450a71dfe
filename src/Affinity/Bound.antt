-- ===== src/Affinity/Bound.antt =====
-- A conversation that is bound stays with its account.
use grokcli_2api.Base.{
  ℕ, ◌+◌, ◌≤◌, ◌<◌, ◌≡◌, refl, ap, ◌∙◌, String, Bool, true, false, not, ◌||◌, Option, none, some,
  [], ◌∷◌, is_text, str_eq, eq_refl, eq_iff, arith, if◌then◌else◌, ltb, length, le→ltb,
}
use grokcli_2api.Base.Dict
use grokcli_2api.Affinity.Pins.{
  Pin, Pins, PinRules, fresh_pins, purge, touch, get_affinity_entry, get_affinity, bound_pin,
  bind_affinity, normalize_prompt_cache_key,
}

pub fresh_pins-le-length :
    (rules : PinRules) (now : ℕ) (m : Pins) → length (fresh_pins rules now m) ≤ length m
unfolding fresh_pins
fresh_pins-le-length rules now [] = omega arith
fresh_pins-le-length rules now ((k, p) ∷ m) = ground (arith, fresh_pins-le-length rules now m)

pub put-le-length : (k : String) (p : Pin) (m : Pins) → length (Dict.put k p m) ≤ length m + 1
unfolding Dict.put
put-le-length k p [] = omega arith
put-le-length k p ((j, q) ∷ m) = ground (arith, put-le-length k p m)

-- A map with room loses only what is stale.
purge_with_room :
    (rules : PinRules) (now : ℕ) (m : Pins)
    → length m ≤ rules.max_entries
    → purge rules now m ≡ fresh_pins rules now m
unfolding purge
purge_with_room rules now m h =
    rw
      (le→ltb rules.max_entries (length (fresh_pins rules now m))
        (omega (arith, fresh_pins-le-length rules now m)))
      refl

pub get-fresh_pins :
    (rules : PinRules) (now : ℕ) (k : String) (m : Pins) (p : Pin)
    → Dict.get k m ≡ some p
    → ltb (p.last_seen + rules.ttl) now ≡ false
    → Dict.get k (fresh_pins rules now m) ≡ some p
unfolding fresh_pins Dict.get
get-fresh_pins rules now k [] p e f = cc
get-fresh_pins rules now k ((j, q) ∷ m) p e f = ground (arith, get-fresh_pins rules now k m p)

bound_pin_facts :
    (now : ℕ) (fp account sfp pck : String) (o : Option Pin)
    → ((bound_pin now fp account sfp pck o).account_id ≡ account)
      × ((bound_pin now fp account sfp pck o).last_seen ≡ now)
unfolding bound_pin
bound_pin_facts now fp account sfp pck none = (refl, refl)
bound_pin_facts now fp account sfp pck (some p) = ground (arith, eq_iff p.account_id account)

pub if_true {ℓ} : {A : Type ℓ} (b : Bool) (x y : A) → b ≡ true → (if b then x else y) ≡ x
if_true b x y e = rw e refl

pub if_false {ℓ} : {A : Type ℓ} (b : Bool) (x y : A) → b ≡ false → (if b then x else y) ≡ y
if_false b x y e = rw e refl

-- A pin that has just been looked up.
abbrev pub seen_at : ℕ → Pin → Pin
seen_at now p = record p { last_seen = now; hits = p.hits + 1 }

touch_found :
    (now : ℕ) (fp : String) (m : Pins) (o : Option Pin) (p : Pin)
    → o ≡ some p
    → is_text p.account_id ≡ true
    → touch now fp m o ≡ (Dict.put fp (seen_at now p) m, some (seen_at now p))
unfolding touch
touch_found now fp m o p found text = rw found (rw text refl)

-- A look-up that finds a pin writes it back with the time.
pub look_up_found :
    (rules : PinRules) (later : ℕ) (fp : String) (n : Pins) (p : Pin)
    → rules.enabled ≡ true
    → is_text fp ≡ true
    → length n ≤ rules.max_entries
    → Dict.get fp n ≡ some p
    → is_text p.account_id ≡ true
    → later ≤ p.last_seen + rules.ttl
    → get_affinity_entry rules later fp n
      ≡ (Dict.put fp (seen_at later p) (fresh_pins rules later n), some (seen_at later p))
unfolding get_affinity_entry
look_up_found rules later fp n p on named room found text early =
    let live =
      get-fresh_pins rules later fp n p found (le→ltb (p.last_seen + rules.ttl) later early) in
    let kept = purge rules later n in
    if_false (not (is_text fp) || not rules.enabled) (n, none)
      (touch later fp kept (Dict.get fp kept)) (ground arith)
    ∙ touch_found later fp kept (Dict.get fp kept) p
        (ap (Dict.get fp) (purge_with_room rules later n room) ∙ live) text
    ∙ ap (λ k. (Dict.put fp (seen_at later p) k, some (seen_at later p)))
        (purge_with_room rules later n room)

pub look_up_answer :
    (rules : PinRules) (later : ℕ) (fp : String) (n : Pins) (p : Pin)
    → rules.enabled ≡ true
    → is_text fp ≡ true
    → length n ≤ rules.max_entries
    → Dict.get fp n ≡ some p
    → is_text p.account_id ≡ true
    → later ≤ p.last_seen + rules.ttl
    → get_affinity rules later fp n ≡ some p.account_id
unfolding get_affinity
look_up_answer rules later fp n p on named room found text early =
    ap (λ (r : Pins × Option Pin). elim r.1 [ none ↦ none | some q ↦ some q.account_id ])
      (look_up_found rules later fp n p on named room found text early)

-- Where the map has room, a conversation that is bound to an account is answered with it until the ttl
-- has passed, whatever it was bound to before.
pub bound_stays :
    (rules : PinRules) (now later : ℕ) (fp account session key : String) (m : Pins)
    → rules.enabled ≡ true
    → is_text fp ≡ true
    → is_text account ≡ true
    → length m < rules.max_entries
    → later ≤ now + rules.ttl
    → get_affinity rules later fp (bind_affinity rules now fp account session key m) ≡ some account
unfolding bind_affinity
bound_stays rules now later fp account session key m on named text room early =
    let kept = purge rules now m in
    let pin =
      bound_pin now fp account (rules.strip session) (normalize_prompt_cache_key rules key)
        (Dict.get fp kept) in
    let facts =
      bound_pin_facts now fp account (rules.strip session) (normalize_prompt_cache_key rules key)
        (Dict.get fp kept) in
    let n = Dict.put fp pin kept in
    let small : length n ≤ rules.max_entries = omega (
      arith,
      put-le-length fp pin kept,
      ap length (purge_with_room rules now m (omega arith)),
      fresh_pins-le-length rules now m,
    ) in
    let found =
      look_up_answer rules later fp n pin on named small
        (Dict.get-put fp fp pin kept
          ∙ if_true (str_eq fp fp) (some pin) (Dict.get fp kept) (eq_refl fp))
        (ap is_text facts.0 ∙ text) (omega (arith, facts.1)) in
    ap (get_affinity rules later fp)
      (if_false (not (is_text fp) || not (is_text account) || not rules.enabled) m n (ground arith))
    ∙ found
    ∙ ap some facts.0
