-- ===== src/Writer/Overtaking.antt =====
-- The order of kinds within a batch of grok2api/writer.py: statistics first, then states.
use grokcli_2api.Base.{
  ℕ, ◌≤◌, ◌≡◌, ◌∙◌, refl, sym, ap, String, Bool, true, false, Option, none, some, [], ◌∷◌, is_text,
  str_eq, ◌==◌, if◌then◌else◌, eq_iff, eq_refl, arith,
}
use mathlib.Core.Path.{subst}
use grokcli_2api.Pool.Meta.{Row}
use grokcli_2api.Pool.Status.{or_fresh, apply_pool_state_event}
use grokcli_2api.Pool.Events.{stale_event}
use grokcli_2api.Writer.Events.{
  StatsPayload, StatePayload, account_stats, account_state, QueuedEvent, account_of,
}
use grokcli_2api.Writer.Group.{set_key, gather, merge_all, merge_sum, apply_batch}
use grokcli_2api.Writer.Stats.{
  fresh_delta, success_seq, add_stat, upsert, keyed_stat, stat_of, stats_of, apply_account_stats,
}
use grokcli_2api.Writer.Transact.{Tables, apply_state, apply_states, apply_accepted}

abbrev pub state_event : String → String → ℕ → StatePayload → QueuedEvent
state_event i a ts p = record {
  event_id = i;
  account_id = a;
  occurred_at = ts;
  payload = account_state p;
}

abbrev pub stats_event : String → String → ℕ → StatsPayload → QueuedEvent
stats_event i a ts p = record {
  event_id = i;
  account_id = a;
  occurred_at = ts;
  payload = account_stats p;
}

version-upsert :
    (s : StatsPayload) (ts : ℕ) (row : Row)
    → success_seq s ≤ (or_fresh (upsert (add_stat (s, ts) fresh_delta) row)).state_version
unfolding upsert add_stat
version-upsert s ts none = ground arith
version-upsert s ts (some m) = ground arith

success_number : (s : StatsPayload) → (s.success == 0) ≡ false → success_seq s ≡ s.state_seq
unfolding success_seq
success_number s h = rw h refl

row-after :
    (a j : String) (s : StatsPayload) (us : ℕ) (rows : String → Row)
    → account_of s.account_id a ≡ a
    → is_text a ≡ true
    → apply_account_stats (stats_event j a us s ∷ []) rows a
      ≡ upsert (add_stat (s, us) fresh_delta) (rows a)
unfolding apply_account_stats stats_of stat_of keyed_stat apply_batch gather merge_all merge_sum
    set_key
row-after a j s us rows same named = rw (same, named, eq_refl a) refl

set_same :
    (a : String) (rows : String → Row) (row : Row) → row ≡ rows a → set_key str_eq a row rows ≡ rows
unfolding set_key
set_same a rows row h i k = set_at k (str_eq a k) refl i
  where
    set_at : (k : String) (b : Bool) → str_eq a k ≡ b → (if b then row else rows k) ≡ rows k
    set_at k true e = h ∙ ap rows ((eq_iff a k).0 e)
    set_at k false e = refl

if_same : (b : Bool) (x y : String → Row) → x ≡ y → (if b then x else y) ≡ y
if_same true x y h = h
if_same false x y h = refl

-- A state event and a success of the same account with the same number or a later one, accepted in one
-- batch, give the same rows as the success alone: the patch of the state event is lost.
pub success_overtakes :
    (day_of : ℕ → String) (now : ℕ) (i j a : String) (p : StatePayload) (s : StatsPayload)
    (ts us : ℕ) (inbox : String → Option ℕ) (t : Tables)
    → account_of p.account_id a ≡ a
    → account_of s.account_id a ≡ a
    → is_text a ≡ true
    → (s.success == 0) ≡ false
    → p.state_seq ≤ s.state_seq
    → (apply_accepted day_of now (state_event i a ts p ∷ stats_event j a us s ∷ []) inbox t).rows
      ≡ (apply_accepted day_of now (stats_event j a us s ∷ []) inbox t).rows
unfolding apply_accepted apply_states apply_state apply_account_stats stats_of stat_of
success_overtakes day_of now i j a p s ts us inbox t outer same named succeeded old =
    if_same (is_text (account_of p.account_id a))
      (set_key str_eq (account_of p.account_id a)
        (apply_pool_state_event now p.patch p.state_seq (rows (account_of p.account_id a))) rows)
      rows
      (set_same (account_of p.account_id a) rows
        (apply_pool_state_event now p.patch p.state_seq (rows (account_of p.account_id a)))
        (stale_event now p.patch p.state_seq (rows (account_of p.account_id a)) stale))
  where
    numbered : success_seq s ≡ s.state_seq
    numbered = success_number s succeeded

    rows : String → Row
    rows = apply_account_stats (stats_event j a us s ∷ []) t.rows

    newer : p.state_seq ≤ (or_fresh (rows a)).state_version
    newer =
        rw (row-after a j s us t.rows same named)
          (omega (arith, version-upsert s us (t.rows a), numbered))

    stale : p.state_seq ≤ (or_fresh (rows (account_of p.account_id a))).state_version
    stale = subst (λ k. p.state_seq ≤ (or_fresh (rows k)).state_version) (sym outer) newer
