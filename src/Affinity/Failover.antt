-- ===== src/Affinity/Failover.antt =====
-- What a failover does with a pin.
use grokcli_2api.Base.{
  ℕ, ◌+◌, ◌≤◌, ◌<◌, ◌≡◌, refl, sym, ap, ◌∙◌, String, Bool, true, false, not, ◌||◌, Option, some, [],
  ◌∷◌, is_text, str_eq, eq_refl, arith, if◌then◌else◌, le→ltb, length, Bool-cases, inl, inr,
}
use grokcli_2api.Base.Dict
use grokcli_2api.Affinity.Pins.{
  Pin, Pins, PinRules, fresh_pins, get_affinity_entry, get_affinity, bind_affinity, is_moved,
  rebind_on_failover, failover_session,
}
use grokcli_2api.Affinity.Bound.{
  if_true, if_false, fresh_pins-le-length, get-fresh_pins, seen_at, look_up_found, look_up_answer,
  bound_stays,
}

put-length_found :
    (k : String) (p q : Pin) (m : Pins) → Dict.get k m ≡ some q → length (Dict.put k p m) ≡ length m
unfolding Dict.put Dict.get
put-length_found k p q [] e = cc
put-length_found k p q ((j, r) ∷ m) e = ground (arith, put-length_found k p q m)

-- The map has room and pins the conversation as `p` does, seen then or later.
record IsPinned (rules : PinRules) (fp : String) (p : Pin) (n : Pins) : Type 0 where
  entry : Pin
  pinned : Dict.get fp n ≡ some entry
  same : entry.account_id ≡ p.account_id
  seen : p.last_seen ≤ entry.last_seen
  room : length n < rules.max_entries

IsPinned-if :
    (rules : PinRules) (fp : String) (p : Pin) (b : Bool) (m n : Pins)
    → IsPinned rules fp p m
    → IsPinned rules fp p n
    → IsPinned rules fp p (if b then m else n)
IsPinned-if rules fp p true m n h k = h
IsPinned-if rules fp p false m n h k = k

IsPinned-get_affinity_entry :
    (rules : PinRules) (now : ℕ) (fp : String) (m : Pins) (p : Pin)
    → rules.enabled ≡ true
    → is_text fp ≡ true
    → is_text p.account_id ≡ true
    → length m < rules.max_entries
    → Dict.get fp m ≡ some p
    → p.last_seen ≤ now
    → now ≤ p.last_seen + rules.ttl
    → IsPinned rules fp p (get_affinity_entry rules now fp m).0
IsPinned-get_affinity_entry rules now fp m p on named text room found seen early =
    let kept = fresh_pins rules now m in
    let q = seen_at now p in
    let live = get-fresh_pins rules now fp m p found (le→ltb (p.last_seen + rules.ttl) now early) in
    rw (look_up_found rules now fp m p on named (omega arith) found text early) record {
      entry = q;
      pinned =
          Dict.get-put fp fp q kept
          ∙ if_true (str_eq fp fp) (some q) (Dict.get fp kept) (eq_refl fp);
      same = refl;
      seen = seen;
      room = omega (arith, put-length_found fp q p kept live, fresh_pins-le-length rules now m);
    }

is_moved_lem :
    (failed account : String) (o : Option Pin) (q : Pin)
    → is_text failed ≡ true
    → o ≡ some q
    → q.account_id ≡ account
    → is_moved failed o ≡ not (str_eq account failed)
unfolding is_moved
is_moved_lem failed account o q text found same = rw found (rw (text, same) refl)

IsPinned-changed :
    (rules : PinRules) (fp : String) (p : Pin) (k : ℕ) (change : Pins → Pins) (n : Pins)
    → ((o : Pins) → Dict.get fp (change o) ≡ Dict.get fp o)
    → ((o : Pins) → length (change o) ≤ length o + k)
    → IsPinned rules fp p n
    → length n + k < rules.max_entries
    → IsPinned rules fp p (change n)
IsPinned-changed rules fp p k change n keeps grows h room = record {
  entry = h.entry;
  pinned = keeps n ∙ h.pinned;
  same = h.same;
  seen = h.seen;
  room = omega (arith, grows n);
}

IsPinned-failover_session :
    (rules : PinRules) (now : ℕ) (fp session : String) (m : Pins) (p : Pin)
    → rules.enabled ≡ true
    → is_text fp ≡ true
    → is_text p.account_id ≡ true
    → length m < rules.max_entries
    → Dict.get fp m ≡ some p
    → p.last_seen ≤ now
    → now ≤ p.last_seen + rules.ttl
    → IsPinned rules fp p (failover_session rules now fp session m).0
unfolding failover_session
IsPinned-failover_session rules now fp session m p on named own room found seen early =
    IsPinned-if rules fp p (is_text (rules.strip session)) m (get_affinity_entry rules now fp m).0
      (record { entry = p; pinned = found; same = refl; seen = omega arith; room = room })
      (IsPinned-get_affinity_entry rules now fp m p on named own room found seen early)

length-failover_session :
    (rules : PinRules) (now : ℕ) (fp session : String) (m : Pins) (p : Pin)
    → rules.enabled ≡ true
    → is_text fp ≡ true
    → is_text p.account_id ≡ true
    → length m < rules.max_entries
    → Dict.get fp m ≡ some p
    → now ≤ p.last_seen + rules.ttl
    → length (failover_session rules now fp session m).0 ≤ length m
unfolding failover_session
length-failover_session rules now fp session m p on named own room found early =
    elim (Bool-cases (is_text (rules.strip session))) [
      | inl given ↦ rw given (omega arith)
      | inr absent ↦ rw absent (length-looked)
    ]
  where
    length-looked : length (get_affinity_entry rules now fp m).0 ≤ length m
    length-looked =
        let live =
          get-fresh_pins rules now fp m p found (le→ltb (p.last_seen + rules.ttl) now early) in
        rw (look_up_found rules now fp m p on named (omega arith) found own early) (
          omega (
            arith,
            put-length_found fp (seen_at now p) p (fresh_pins rules now m) live,
            fresh_pins-le-length rules now m,
          ))

-- After a failover of a conversation with a live pin, where the map has room, the next look-up, made
-- before the ttl of the old pin has passed and with no operation in between, answers the new account if
-- the pin led to the account that failed, and the account of the pin if it led to a third one. Between
-- the failover's own look-up and its check other requests may change the map for other conversations,
-- and between the check and the binding in any way, adding at most `j` and `k` pins. So what they bind
-- the conversation to after the check is overwritten.
pub failover_swaps :
    (rules : PinRules) (now bound later : ℕ) (fp failed other session : String) (j k : ℕ)
    (first second : Pins → Pins) (m : Pins) (p : Pin)
    → rules.enabled ≡ true
    → is_text fp ≡ true
    → is_text failed ≡ true
    → is_text other ≡ true
    → is_text p.account_id ≡ true
    → length m + j + k < rules.max_entries
    → Dict.get fp m ≡ some p
    → p.last_seen ≤ now
    → now ≤ bound
    → bound ≤ later
    → later ≤ p.last_seen + rules.ttl
    → ((n : Pins) → Dict.get fp (first n) ≡ Dict.get fp n)
    → ((n : Pins) → length (first n) ≤ length n + j)
    → ((n : Pins) → length (second n) ≤ length n + k)
    → get_affinity rules later fp
        (rebind_on_failover rules now bound fp failed other session first second m)
      ≡ some (if str_eq p.account_id failed then other else p.account_id)
unfolding rebind_on_failover
failover_swaps rules now bound later fp failed other session j k first second m p on named gone text
      own room found seen wait late early keeps grows_first grows_second =
    let looked = failover_session rules now fp session m in
    let short =
      length-failover_session rules now fp session m p on named own (omega arith) found
        (omega arith) in
    let pinned =
      IsPinned-failover_session rules now fp session m p on named own (omega arith) found seen
        (omega arith) in
    let n = first looked.0 in
    let kept =
      IsPinned-changed rules fp p j first looked.0 keeps grows_first pinned
        (omega (arith, short)) in
    let moved =
      is_moved_lem failed p.account_id (Dict.get fp n) kept.entry gone kept.pinned kept.same in
    let rebound = bind_affinity rules bound fp other looked.1 "" (second n) in
    ap (get_affinity rules later fp) (
      if_false (not (is_text fp) || not (is_text other)) m
        (if is_moved failed (Dict.get fp n) then n else rebound) (ground arith))
    ∙ elim (Bool-cases (str_eq p.account_id failed)) [
      | inl e ↦
          ap (get_affinity rules later fp)
            (if_false (is_moved failed (Dict.get fp n)) n rebound (moved ∙ ap not e))
          ∙ bound_stays rules bound later fp other looked.1 "" (second n) on named text
              (omega (arith, grows_second n, grows_first looked.0, short)) (omega arith)
          ∙ ap some (sym (if_true (str_eq p.account_id failed) other p.account_id e))
      | inr e ↦
          ap (get_affinity rules later fp)
            (if_true (is_moved failed (Dict.get fp n)) n rebound (moved ∙ ap not e))
          ∙ look_up_answer rules later fp n kept.entry on named (omega (arith, kept.room))
              kept.pinned (ap is_text kept.same ∙ own) (omega (arith, kept.seen))
          ∙ ap some (kept.same ∙ sym (if_false (str_eq p.account_id failed) other p.account_id e))
    ]
