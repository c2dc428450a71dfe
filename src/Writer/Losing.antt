-- ===== src/Writer/Losing.antt =====
-- No attempt of the writer loses a message.
use grokcli_2api.Base.{
  ℕ, ◌≡◌, refl, sym, ap, ◌∙◌, String, Bool, true, false, not, ◌&&◌, ◌||◌, Option, none, some, List,
  [], ◌∷◌, map, All, is_text, is_some, is_empty, take, length, ltb, if◌then◌else◌, Bool-cases, inl,
  inr, arith,
}
use mathlib.Core.Path.{subst}
use grokcli_2api.Writer.Events.{QueuedEvent}
use grokcli_2api.Writer.Transact.{Tables, note, insert_inbox, purge_inbox, apply_accepted, transact}
use grokcli_2api.Writer.Process.{
  Message, World, same_message, has_message, run_all, streams_of, ack_each, Outcome,
  dead_letter_exhausted, is_retention_due, commit, settle, give_up, process,
}
use grokcli_2api.Writer.Delivery.{
  is_kept, is_young, is_kept-insert_inbox, is_kept-purge_inbox, is_young-note, IsKept-self,
}
use grokcli_2api.Writer.Lettering.{
  spares, Agrees, is_safe, safe-run_all, spares-ack_each, safe-dead_letter_exhausted,
  tables-run_all, tables-dead_letter_exhausted,
}

own_kept :
    (days now : ℕ) (inbox : String → Option ℕ) (e : QueuedEvent) (i : String)
    → e.event_id ≡ i
    → is_text i ≡ true
    → is_young days now (inbox i) ≡ true
    → is_kept days now (note now inbox e i) ≡ true
own_kept days now inbox e i same named young =
    subst (λ j. is_kept days now (note now inbox e j) ≡ true) same
      (own (
        IsKept-self days now now inbox e (omega arith)
          (ap (λ j. is_young days now (inbox j)) same ∙ young)))
  where
    own :
        (not (is_text e.event_id) || is_kept days now (note now inbox e e.event_id)) ≡ true
        → is_kept days now (note now inbox e e.event_id) ≡ true
    own h =
        let texted : is_text e.event_id ≡ true = ap is_text same ∙ named in
        ground (arith, texted, h)

kept_event :
    (days now : ℕ) (inbox : String → Option ℕ) (m : Message) (batch : List Message)
    → Agrees m batch
    → is_text m.event.event_id ≡ true
    → has_message m batch ≡ true
    → is_young days now (inbox m.event.event_id) ≡ true
    → is_kept days now ((insert_inbox now inbox (map (λ b. b.event) batch)).1 m.event.event_id)
      ≡ true
unfolding insert_inbox has_message
kept_event days now inbox m [] agree named h young = ground arith
kept_event days now inbox m (b ∷ batch) (same, agree) named h young =
    elim (Bool-cases (same_message m b)) [
      | inl here ↦
          is_kept-insert_inbox days now now (note now inbox b.event) (map (λ x. x.event) batch)
            m.event.event_id
            (own_kept days now inbox b.event m.event.event_id (same here) named young)
      | inr further ↦
          kept_event days now (note now inbox b.event) m batch agree named (later further h)
            (is_young-note days now now inbox b.event m.event.event_id (omega arith) young)
    ]
  where
    later :
        same_message m b ≡ false
        → (same_message m b || has_message m batch) ≡ true
        → has_message m batch ≡ true
    later f g = ground arith

some_of_kept : (days now : ℕ) (o : Option ℕ) → is_kept days now o ≡ true → is_some o ≡ true
unfolding is_kept
some_of_kept days now none h = cc
some_of_kept days now (some at) h = refl

young_of_none : (days now : ℕ) (o : Option ℕ) → is_some o ≡ false → is_young days now o ≡ true
unfolding is_young
young_of_none days now none h = refl
young_of_none days now (some at) h = cc

either : (P : World → Type 0) (b : Bool) (x y : World) → P x → P y → P (if b then x else y)
either P true x y h k = h
either P false x y h k = k

module _ (day_of : ℕ → String) (days retries : ℕ) where
  some-transact :
      (due : Bool) (now : ℕ) (es : List QueuedEvent) (t : Tables) (i : String)
      → is_kept days now ((insert_inbox now t.inbox es).1 i) ≡ true
      → is_some ((transact day_of days due now es t).inbox i) ≡ true
  unfolding transact apply_accepted
  some-transact true now es t i h =
      let inbox = (insert_inbox now t.inbox es).1 in
      some_of_kept days now (purge_inbox days now inbox i)
        (is_kept-purge_inbox days now now inbox i (omega arith) h)
  some-transact false now es t i h = some_of_kept days now ((insert_inbox now t.inbox es).1 i) h

  known_after :
      (due : Bool) (now : ℕ) (batch : List Message) (t : Tables) (m : Message)
      → Agrees m batch
      → is_text m.event.event_id ≡ true
      → has_message m batch ≡ true
      → (is_some (t.inbox m.event.event_id)
          || is_some
              ((transact day_of days due now (map (λ b. b.event) batch) t).inbox m.event.event_id))
        ≡ true
  known_after due now batch t m agree named h =
      elim (Bool-cases (is_some (t.inbox m.event.event_id))) [
        | inl old ↦ ground (arith, old)
        | inr new ↦
            let taken = some-transact due now (map (λ b. b.event) batch) t m.event.event_id (
              kept_event days now t.inbox m batch agree named h
                (young_of_none days now (t.inbox m.event.event_id) new)) in
            ground (arith, taken)
      ]

  tables-settle :
      (o : Outcome) (batch : List Message) (w : World)
      → (settle day_of days retries o batch w).tables ≡ w.tables
  unfolding settle
  tables-settle o batch w =
      let commands = if o.has_client then ack_each (streams_of [] batch) batch else [] in
      let after = run_all (take o.acks commands) w in
      let same = tables-run_all (take o.acks commands) w in
      either (λ x. x.tables ≡ w.tables) (ltb o.acks (length commands))
        (dead_letter_exhausted retries o batch after) after
        (tables-dead_letter_exhausted retries o batch after ∙ same) same

  safe-settle :
      (o : Outcome) (batch : List Message) (w : World) (m : Message)
      → has_message m batch ≡ false
      → is_safe m w ≡ true
      → is_safe m (settle day_of days retries o batch w) ≡ true
  unfolding settle
  safe-settle o batch w m h s =
      let commands = if o.has_client then ack_each (streams_of [] batch) batch else [] in
      let after = run_all (take o.acks commands) w in
      let safe = safe-run_all m o.acks commands w (spared o.has_client) s in
      either (λ x. is_safe m x ≡ true) (ltb o.acks (length commands))
        (dead_letter_exhausted retries o batch after) after
        (safe-dead_letter_exhausted m retries o batch after safe) safe
    where
      spared :
          (c : Bool)
          → All (λ d. spares m d ≡ true) (if c then ack_each (streams_of [] batch) batch else [])
      spared true = spares-ack_each m (streams_of [] batch) batch h
      spared false = tt

  -- The message is safe, or its event was in the inbox or is there now.
  abbrev is_held : Message → World → World → Bool
  is_held m w after =
      is_safe m after
      || is_some (w.tables.inbox m.event.event_id)
      || is_some (after.tables.inbox m.event.event_id)

  held-safe : (m : Message) (w after : World) → is_safe m after ≡ true → is_held m w after ≡ true
  held-safe m w after s = ground arith

  held-settle :
      (o : Outcome) (now : ℕ) (batch : List Message) (w : World) (m : Message)
      → Agrees m batch
      → is_text m.event.event_id ≡ true
      → is_safe m w ≡ true
      → is_held m w (settle day_of days retries o batch (commit day_of days retries now batch w))
        ≡ true
  held-settle o now batch w m agree named s = elim (Bool-cases (has_message m batch)) [
    | inl taken ↦ held_known (
        subst
          (λ (t : Tables).
            (is_some (w.tables.inbox m.event.event_id) || is_some (t.inbox m.event.event_id))
            ≡ true)
          (sym (tables-settle o batch done))
          (unfold commit in
            known_after (is_retention_due now w) now batch w.tables m agree named taken))
    | inr left ↦
        held-safe m w (settle day_of days retries o batch done)
          (safe-settle o batch done m left (unfold commit in s))
  ]
    where
      done : World
      done = commit day_of days retries now batch w

      held_known :
          (is_some (w.tables.inbox m.event.event_id)
              || is_some ((settle day_of days retries o batch done).tables.inbox m.event.event_id))
            ≡ true
          → is_held m w (settle day_of days retries o batch done) ≡ true
      held_known k = ground (arith, k)

  -- Whatever an attempt meets - a transaction that fails, an acknowledgement that fails after any number
  -- of its commands, a dead letter that is not sent, acknowledged or deleted -, a message whose event has
  -- an id is not lost: if it was in its stream and not acknowledged, then it still is, or it is in the
  -- dead letters, or its event is in the inbox, before the attempt or after it, and so was applied.
  -- Messages with one stream and id are taken to have one event, and the dead letters are not trimmed.
  pub never_lost :
      (o : Outcome) (now : ℕ) (batch : List Message) (w : World) (m : Message)
      → Agrees m batch
      → is_text m.event.event_id ≡ true
      → (has_message m w.entries && has_message m w.unacked) ≡ true
      → let after = process day_of days retries o now batch w in
        ((has_message m after.entries && has_message m after.unacked)
          || has_message m after.dead
          || is_some (w.tables.inbox m.event.event_id)
          || is_some (after.tables.inbox m.event.event_id))
        ≡ true
  unfolding process
  never_lost o now batch w m agree named there =
      written_out (process day_of days retries o now batch w) (
        either (λ x. is_held m w x ≡ true) (is_empty batch || not o.pg_enabled) w
          (if o.commits
            then settle day_of days retries o batch (commit day_of days retries now batch w)
            else give_up day_of days retries o now batch w)
          (held-safe m w w safe)
          (either (λ x. is_held m w x ≡ true) o.commits
            (settle day_of days retries o batch (commit day_of days retries now batch w))
            (give_up day_of days retries o now batch w)
            (held-settle o now batch w m agree named safe)
            (held-safe m w (give_up day_of days retries o now batch w) given_up)))
    where
      safe : is_safe m w ≡ true
      safe = ground arith

      given_up : is_safe m (give_up day_of days retries o now batch w) ≡ true
      given_up =
          unfold give_up in
          safe-dead_letter_exhausted m retries o batch
            (record w {
              last_retention =
                  if is_retention_due now w && o.retains then now else w.last_retention;
            })
            safe

      written_out :
          (x : World)
          → is_held m w x ≡ true
          → ((has_message m x.entries && has_message m x.unacked)
              || has_message m x.dead
              || is_some (w.tables.inbox m.event.event_id)
              || is_some (x.tables.inbox m.event.event_id))
            ≡ true
      written_out x h = ground (arith, h)
