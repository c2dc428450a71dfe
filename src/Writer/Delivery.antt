-- ===== src/Writer/Delivery.antt =====
-- Messages that are delivered twice: the inbox of grok2api/writer.py.
use grokcli_2api.Base.{
  ℕ, ◌+◌, ◌≤◌, ◌≡◌, ◌∙◌, refl, ap, String, Bool, true, false, not, ◌||◌, Option, none, some, List,
  [], ◌∷◌, All, is_text, if◌then◌else◌, leb, eq_iff, arith,
}
use grokcli_2api.Pool.Meta.{Row}
use grokcli_2api.Writer.Events.{QueuedEvent}
use grokcli_2api.Writer.Group.{set_key, gather, merge_all, merge_sum, apply_batch}
use grokcli_2api.Writer.Stats.{apply_account_stats, stats_of}
use grokcli_2api.Writer.Usage.{Totals, apply_daily, daily_of, apply_totals, by_account, by_key}
use grokcli_2api.Writer.Transact.{
  Tables, is_new, note, insert_inbox, inbox_window, purge_inbox, apply_states, usage_of, of_rows,
  credit, apply_accepted, transact,
}

-- The id is in the inbox, and no retention up to the horizon deletes it.
unfoldable pub is_kept : ℕ → ℕ → Option ℕ → Bool
is_kept days horizon none = false
is_kept days horizon (some at) = leb horizon (at + inbox_window days)

-- The id is not in the inbox, or no retention up to the horizon deletes it.
unfoldable pub is_young : ℕ → ℕ → Option ℕ → Bool
is_young days horizon none = true
is_young days horizon (some at) = leb horizon (at + inbox_window days)

-- The event has no id, or its id is kept.
abbrev pub IsKept : ℕ → ℕ → (String → Option ℕ) → QueuedEvent → Type 0
IsKept days horizon inbox e =
    (not (is_text e.event_id) || is_kept days horizon (inbox e.event_id)) ≡ true

is_kept-note :
    (days horizon now : ℕ) (inbox : String → Option ℕ) (e : QueuedEvent) (i : String)
    → is_kept days horizon (inbox i) ≡ true
    → is_kept days horizon (note now inbox e i) ≡ true
unfolding is_new note set_key is_kept
is_kept-note days horizon now inbox e i h = ground (arith, eq_iff e.event_id i)

pub is_kept-insert_inbox :
    (days horizon now : ℕ) (inbox : String → Option ℕ) (es : List QueuedEvent) (i : String)
    → is_kept days horizon (inbox i) ≡ true
    → is_kept days horizon ((insert_inbox now inbox es).1 i) ≡ true
unfolding insert_inbox
is_kept-insert_inbox days horizon now inbox [] i h = h
is_kept-insert_inbox days horizon now inbox (e ∷ es) i h =
    is_kept-insert_inbox days horizon now (note now inbox e) es i
      (is_kept-note days horizon now inbox e i h)

pub is_kept-purge_inbox :
    (days horizon now : ℕ) (inbox : String → Option ℕ) (i : String)
    → now ≤ horizon
    → is_kept days horizon (inbox i) ≡ true
    → is_kept days horizon (purge_inbox days now inbox i) ≡ true
unfolding purge_inbox is_kept
is_kept-purge_inbox days horizon now inbox i n h = ground arith

pub IsKept-self :
    (days horizon now : ℕ) (inbox : String → Option ℕ) (e : QueuedEvent)
    → horizon ≤ now + inbox_window days
    → is_young days horizon (inbox e.event_id) ≡ true
    → IsKept days horizon (note now inbox e) e
unfolding is_new note set_key is_kept is_young
IsKept-self days horizon now inbox e w h = ground (arith, eq_iff e.event_id e.event_id)

pub is_young-note :
    (days horizon now : ℕ) (inbox : String → Option ℕ) (e : QueuedEvent) (i : String)
    → horizon ≤ now + inbox_window days
    → is_young days horizon (inbox i) ≡ true
    → is_young days horizon (note now inbox e i) ≡ true
unfolding is_new note set_key is_young
is_young-note days horizon now inbox e i w h = ground (arith, eq_iff e.event_id i)

IsKept-insert_inbox :
    (days horizon now : ℕ) (inbox : String → Option ℕ) (es : List QueuedEvent) (f : QueuedEvent)
    → IsKept days horizon inbox f
    → IsKept days horizon (insert_inbox now inbox es).1 f
IsKept-insert_inbox days horizon now inbox es f h =
    ground (arith, is_kept-insert_inbox days horizon now inbox es f.event_id)

All-is_young-note :
    (days horizon now : ℕ) (inbox : String → Option ℕ) (e : QueuedEvent) (fs : List QueuedEvent)
    → horizon ≤ now + inbox_window days
    → All (λ f. is_young days horizon (inbox f.event_id) ≡ true) fs
    → All (λ f. is_young days horizon (note now inbox e f.event_id) ≡ true) fs
All-is_young-note days horizon now inbox e [] w h = tt
All-is_young-note days horizon now inbox e (f ∷ fs) w (h, hs) = (
  is_young-note days horizon now inbox e f.event_id w h,
  All-is_young-note days horizon now inbox e fs w hs,
)

pub All-IsKept :
    (days horizon now : ℕ) (inbox : String → Option ℕ) (es : List QueuedEvent)
    → horizon ≤ now + inbox_window days
    → All (λ e. is_young days horizon (inbox e.event_id) ≡ true) es
    → All (IsKept days horizon (insert_inbox now inbox es).1) es
unfolding insert_inbox
All-IsKept days horizon now inbox [] w h = tt
All-IsKept days horizon now inbox (e ∷ es) w (h, hs) = (
  IsKept-insert_inbox days horizon now (note now inbox e) es e
      (IsKept-self days horizon now inbox e w h),
  All-IsKept days horizon now (note now inbox e) es w
      (All-is_young-note days horizon now inbox e es w hs),
)

is_new-IsKept :
    (days horizon : ℕ) (inbox : String → Option ℕ) (e : QueuedEvent)
    → IsKept days horizon inbox e
    → is_new inbox e ≡ false
unfolding is_new is_kept
is_new-IsKept days horizon inbox e h = ground arith

insert_known :
    (days horizon now : ℕ) (inbox : String → Option ℕ) (es : List QueuedEvent)
    → All (IsKept days horizon inbox) es
    → insert_inbox now inbox es ≡ ([], inbox)
unfolding insert_inbox note
insert_known days horizon now inbox [] h = refl
insert_known days horizon now inbox (e ∷ es) (kept, h) =
    rw (is_new-IsKept days horizon inbox e kept) (insert_known days horizon now inbox es h)

credit-none :
    (rows : String → Row) (totals : String → Totals) (a : String)
    → credit rows [] totals a ≡ totals a
unfolding credit apply_totals of_rows apply_batch gather merge_all merge_sum
credit-none rows totals a = ground arith

module _ (day_of : ℕ → String) where
  apply_none : (now : ℕ) (t : Tables) → apply_accepted day_of now [] t.inbox t ≡ t
  unfolding apply_accepted apply_account_stats apply_states usage_of apply_daily apply_totals
      by_account by_key stats_of daily_of apply_batch gather merge_all merge_sum
  apply_none now t i = record t { accounts = λ a. credit-none t.rows t.accounts a i }

  IsKept-transact :
      (days horizon : ℕ) (due : Bool) (now : ℕ) (es : List QueuedEvent) (t : Tables)
      (f : QueuedEvent)
      → now ≤ horizon
      → IsKept days horizon (insert_inbox now t.inbox es).1 f
      → IsKept days horizon (transact day_of days due now es t).inbox f
  unfolding transact apply_accepted
  IsKept-transact days horizon true now es t f n h =
      ground
        (arith, is_kept-purge_inbox days horizon now (insert_inbox now t.inbox es).1 f.event_id n)
  IsKept-transact days horizon false now es t f n h = h

  pub All-IsKept-transact :
      (days horizon : ℕ) (due : Bool) (now : ℕ) (es : List QueuedEvent) (t : Tables)
      (fs : List QueuedEvent)
      → now ≤ horizon
      → All (IsKept days horizon (insert_inbox now t.inbox es).1) fs
      → All (IsKept days horizon (transact day_of days due now es t).inbox) fs
  All-IsKept-transact days horizon due now es t [] n h = tt
  All-IsKept-transact days horizon due now es t (f ∷ fs) n (h, hs) = (
    IsKept-transact days horizon due now es t f n h,
    All-IsKept-transact days horizon due now es t fs n hs,
  )

  All-IsKept-further :
      (days horizon now : ℕ) (inbox : String → Option ℕ) (es fs : List QueuedEvent)
      → All (IsKept days horizon inbox) fs
      → All (IsKept days horizon (insert_inbox now inbox es).1) fs
  All-IsKept-further days horizon now inbox es [] h = tt
  All-IsKept-further days horizon now inbox es (f ∷ fs) (h, hs) = (
    IsKept-insert_inbox days horizon now inbox es f h,
    All-IsKept-further days horizon now inbox es fs hs,
  )

  -- Batches in a row, each with its clock and with whether the retention is made in it.
  unfoldable pub transact_all : ℕ → List (Bool × ℕ × List QueuedEvent) → Tables → Tables
  transact_all days [] t = t
  transact_all days ((due, now, es) ∷ batches) t =
      transact_all days batches (transact day_of days due now es t)

  All-IsKept-transact_all :
      (days horizon : ℕ) (batches : List (Bool × ℕ × List QueuedEvent)) (t : Tables)
      (fs : List QueuedEvent)
      → All (λ b. b.1 ≤ horizon) batches
      → All (IsKept days horizon t.inbox) fs
      → All (IsKept days horizon (transact_all days batches t).inbox) fs
  unfolding transact_all
  All-IsKept-transact_all days horizon [] t fs n h = h
  All-IsKept-transact_all days horizon ((due, now, es) ∷ batches) t fs (n, ns) h =
      All-IsKept-transact_all days horizon batches (transact day_of days due now es t) fs ns (
        All-IsKept-transact days horizon due now es t fs n
          (All-IsKept-further days horizon now t.inbox es fs h))

  transact_known :
      (days horizon : ℕ) (due : Bool) (now : ℕ) (es : List QueuedEvent) (t : Tables)
      → All (IsKept days horizon t.inbox) es
      → transact day_of days due now es t
        ≡ (if due then record t { inbox = purge_inbox days now t.inbox } else t)
  unfolding transact
  transact_known days horizon due now es t h =
      ap
        (λ (x : List QueuedEvent × (String → Option ℕ)).
          let applied = apply_accepted day_of now x.0 x.1 t in
          if due then record applied { inbox = purge_inbox days now applied.inbox } else applied)
        (insert_known days horizon now t.inbox es h)
      ∙ ap (λ (x : Tables). if due then record x { inbox = purge_inbox days now x.inbox } else x)
          (apply_none now t)

  -- A batch that is delivered again, after any batches in between, changes neither the rows of the
  -- accounts, nor the totals, nor the daily counters, and takes no event; an hourly retention that is
  -- due then deletes old ids from the inbox. The first transaction and the batches in between come no
  -- later than a horizon, which is within the window of the retention (twice the days that usage events
  -- are kept) from the first transaction, and from any earlier one that took an event of the batch.
  pub redelivered :
      (days horizon now later : ℕ) (due due_later : Bool) (es : List QueuedEvent)
      (batches : List (Bool × ℕ × List QueuedEvent)) (t : Tables)
      → now ≤ horizon
      → horizon ≤ now + inbox_window days
      → All (λ b. b.1 ≤ horizon) batches
      → All (λ e. is_young days horizon (t.inbox e.event_id) ≡ true) es
      → let before = transact_all days batches (transact day_of days due now es t) in
        transact day_of days due_later later es before ≡ (
          if due_later
          then record before { inbox = purge_inbox days later before.inbox }
          else before)
  redelivered days horizon now later due due_later es batches t n w ns young =
      let first = transact day_of days due now es t in
      transact_known days horizon due_later later es (transact_all days batches first) (
        All-IsKept-transact_all days horizon batches first es ns (
          All-IsKept-transact days horizon due now es t es n
            (All-IsKept days horizon now t.inbox es w young)))
