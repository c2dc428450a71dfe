-- ===== src/Writer/Batching.antt =====
-- How the writer's events are cut into batches makes no difference to its sums.
use grokcli_2api.Base.{
  ◌≡◌, ◌∙◌, refl, ap, String, true, not, ◌||◌, none, some, List, [], ◌∷◌, ◌++◌, All, is_text,
  str_eq, ltb, Bool-cases, inl, inr, arith,
}
use grokcli_2api.Pool.Meta.{Row}
use grokcli_2api.Pool.Status.{later}
use grokcli_2api.Writer.Events.{
  StatsPayload, Payload, account_stats, account_state, usage, unknown, QueuedEvent, account_of,
}
use grokcli_2api.Writer.Group.{apply_batch}
use grokcli_2api.Writer.Grouped.{Merges}
use grokcli_2api.Writer.Cutting.{str_eq_path, cut-batch}
use grokcli_2api.Writer.Stats.{
  Stat, Delta, fresh_delta, success_seq, add_stat, upsert, keyed_stat, stat_of, stats_of,
  apply_account_stats,
}

-- A success that carries a number resets the streak of failures.
abbrev pub HasReset : StatsPayload → Type 0
HasReset p = (not (ltb 0 (success_seq p)) || p.reset_consecutive_fails) ≡ true

FitsStat : Stat → Type 0
FitsStat (p, ts) = HasReset p

IsDelta : Delta → Type 0
IsDelta d = d.reset_consecutive_fails ≡ ltb 0 d.state_version

IsDelta-add : (s : Stat) (d : Delta) → FitsStat s → IsDelta d → IsDelta (add_stat s d)
unfolding FitsStat IsDelta add_stat
IsDelta-add (p, ts) d f h = ground arith

upsert-add :
    (s : Stat) (d : Delta) (row : Row)
    → FitsStat s
    → IsDelta d
    → upsert (add_stat s d) row ≡ upsert (add_stat s fresh_delta) (upsert d row)
unfolding FitsStat IsDelta add_stat upsert later
upsert-add (p, ts) d none f h = ground arith
upsert-add (p, ts) d (some m) f h = ground arith

Merges-stats : Merges str_eq add_stat fresh_delta upsert FitsStat IsDelta
unfolding IsDelta
Merges-stats = record {
  same_eq = str_eq_path;
  sum_fresh = refl;
  sum_add = IsDelta-add;
  law = upsert-add;
}

-- Every payload of statistics fits.
abbrev EventFits : Payload → Type 0
EventFits (account_stats p) = HasReset p
EventFits (account_state p) = Unit
EventFits (usage p) = Unit
EventFits unknown = Unit

abbrev pub AllReset : List QueuedEvent → Type 0
AllReset es = All (λ e. EventFits e.payload) es

fits-keyed :
    (e : QueuedEvent) (p : StatsPayload) (rest : List (String × Stat))
    → HasReset p
    → All (λ x. FitsStat x.1) rest
    → All (λ x. FitsStat x.1) (keyed_stat e p rest)
unfolding keyed_stat FitsStat
fits-keyed e p rest f h = elim (Bool-cases (is_text (account_of p.account_id e.account_id))) [
  | inl named ↦ rw named (f, h)
  | inr nameless ↦ rw nameless h
]

fits-stat_of :
    (o : Payload) (e : QueuedEvent) (rest : List (String × Stat))
    → EventFits o
    → All (λ x. FitsStat x.1) rest
    → All (λ x. FitsStat x.1) (stat_of o e rest)
unfolding stat_of
fits-stat_of (account_stats p) e rest f h = fits-keyed e p rest f h
fits-stat_of (account_state p) e rest f h = h
fits-stat_of (usage p) e rest f h = h
fits-stat_of unknown e rest f h = h

fits-stats_of : (es : List QueuedEvent) → AllReset es → All (λ x. FitsStat x.1) (stats_of es)
unfolding stats_of
fits-stats_of [] h = tt
fits-stats_of (e ∷ es) (f, h) = fits-stat_of e.payload e (stats_of es) f (fits-stats_of es h)

keyed-append :
    (e : QueuedEvent) (p : StatsPayload) (rest more : List (String × Stat))
    → keyed_stat e p (rest ++ more) ≡ keyed_stat e p rest ++ more
unfolding keyed_stat
keyed-append e p rest more = elim (Bool-cases (is_text (account_of p.account_id e.account_id))) [
  | inl named ↦ rw named refl
  | inr nameless ↦ rw nameless refl
]

stat_of-append :
    (o : Payload) (e : QueuedEvent) (rest more : List (String × Stat))
    → stat_of o e (rest ++ more) ≡ stat_of o e rest ++ more
unfolding stat_of
stat_of-append (account_stats p) e rest more = keyed-append e p rest more
stat_of-append (account_state p) e rest more = refl
stat_of-append (usage p) e rest more = refl
stat_of-append unknown e rest more = refl

stats_of-append : (xs ys : List QueuedEvent) → stats_of (xs ++ ys) ≡ stats_of xs ++ stats_of ys
unfolding stats_of
stats_of-append [] ys = refl
stats_of-append (e ∷ xs) ys =
    ap (stat_of e.payload e) (stats_of-append xs ys)
    ∙ stat_of-append e.payload e (stats_of xs) (stats_of ys)

-- Where every success that carries a number resets the streak of failures, as those that the gateway
-- publishes do, two batches of statistics give the same rows as one batch of all their events.
pub stats_cut :
    (xs ys : List QueuedEvent) (table : String → Row)
    → AllReset xs
    → AllReset ys
    → apply_account_stats (xs ++ ys) table ≡ apply_account_stats ys (apply_account_stats xs table)
unfolding apply_account_stats
stats_cut xs ys table f g =
    ap (λ (ss : List (String × Stat)). apply_batch str_eq add_stat fresh_delta upsert ss table)
      (stats_of-append xs ys)
    ∙ cut-batch str_eq add_stat fresh_delta upsert FitsStat IsDelta Merges-stats (stats_of xs)
        (stats_of ys) table (fits-stats_of xs f) (fits-stats_of ys g)
