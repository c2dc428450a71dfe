-- ===== src/Pool/Counters.antt =====
-- The counters of an account, operation by operation (grok2api/pool/account_pool.py,
-- grok2api/admin/settings_store.py).
use grokcli_2api.Base.{
  ◌||◌, not, ℕ, ◌+◌, ◌≡◌, ◌∙◌, refl, ap, String, Bool, true, false, Option, none, some, arith,
  get_or, if◌then◌else◌, Bool-cases, inl, inr, sym,
}
use grokcli_2api.Pool.Meta.{AccountMeta, Row, read}
use grokcli_2api.Pool.Status.{Env, Patch, or_fresh, patch_pool_meta}
use grokcli_2api.Pool.Blocks.{block_model, unblock_model, prune_expired_model_blocks}
use grokcli_2api.Pool.View.{pool_meta}
use grokcli_2api.Pool.FreeUsage.{
  UsageSignal, Hit, block_exhausted, kick_reason_text, soft_block_ttl, weigh_hit, hold_until,
  usage_entry, kick_account, kick_patch,
}
use grokcli_2api.Pool.Stats.{
  StatsUpdate, touch_account_stats, outcome_patch, stats_patch, counter_patch, has_state_patch,
}

-- Requests, successes and failures.
abbrev pub Counts : Type 0
Counts = ℕ × ℕ × ℕ

abbrev pub counts : AccountMeta → Counts
counts m = (m.request_count, m.success_count, m.fail_count)

-- One more request with its outcome.
abbrev pub count_one : Bool → Counts → Counts
count_one true (r, s, f) = (r + 1, s + 1, f)
count_one false (r, s, f) = (r + 1, s, f + 1)

-- An operation that counts nothing.
abbrev pub Uncounted : Row → Row → Type 0
Uncounted row after = counts (read after) ≡ counts (read row)

pub Uncounted-if :
    (row x y : Row) (b : Bool)
    → Uncounted row x
    → Uncounted row y
    → Uncounted row (if b then x else y)
Uncounted-if row x y true hx hy = hx
Uncounted-if row x y false hx hy = hy

counts-or_fresh : (row : Row) → counts (or_fresh row) ≡ counts (read row)
counts-or_fresh none = refl
counts-or_fresh (some m) = refl

-- A commit of a patch that leaves the counters alone.
pub counts-commit :
    (env : Env) (p : Patch) (row : Row)
    → counts (p (or_fresh row)) ≡ counts (or_fresh row)
    → Uncounted row (some (patch_pool_meta env p row))
unfolding patch_pool_meta
counts-commit env p row h = h ∙ counts-or_fresh row

counts-outcome : (u : StatsUpdate) (m : AccountMeta) → counts (outcome_patch u m) ≡ counts m
unfolding outcome_patch
counts-outcome u m = ground arith

counts-counter :
    (now : ℕ) (u : StatsUpdate) (cur m : AccountMeta)
    → counts cur ≡ counts m
    → counts (counter_patch now u cur m) ≡ count_one u.success (counts m)
unfolding counter_patch
counts-counter now u cur m h = elim (Bool-cases u.success) [
  | inl won ↦ rw won (ap (λ (x : Counts). (x.0 + 1, x.1 + 1, m.fail_count)) h)
  | inr lost ↦ rw lost (ap (λ (x : Counts). (x.0 + 1, m.success_count, x.2 + 1)) h)
]

counts-stats :
    (now : ℕ) (u : StatsUpdate) (cur m : AccountMeta)
    → counts (stats_patch now u cur m) ≡ counts (counter_patch now u cur (outcome_patch u m))
unfolding stats_patch counter_patch
counts-stats now u cur m = ground arith

-- The row that `touch_account_stats` counts on: a failure is written first.
abbrev written_first : Env → StatsUpdate → Row → Row
written_first env u row =
    if u.success || not (has_state_patch u)
    then row
    else some (patch_pool_meta env (outcome_patch u) row)

Uncounted-written_first :
    (env : Env) (u : StatsUpdate) (row : Row) → Uncounted row (written_first env u row)
Uncounted-written_first env u row =
    Uncounted-if row row (some (patch_pool_meta env (outcome_patch u) row))
      (u.success || not (has_state_patch u)) refl
      (counts-commit env (outcome_patch u) row (counts-outcome u (or_fresh row)))

-- `touch_account_stats` counts one request, where what it is given of the counters is the row's.
pub counts-touch :
    (env : Env) (u : StatsUpdate) (current : Option AccountMeta) (row : Row)
    → counts (get_or current (read (written_first env u row)))
      ≡ counts (read (written_first env u row))
    → counts (touch_account_stats env u current row) ≡ count_one u.success (counts (read row))
unfolding touch_account_stats patch_pool_meta
counts-touch env u current row h =
    counts-stats env.now u cur (or_fresh first)
    ∙ counts-counter env.now u cur (outcome_patch u (or_fresh first)) same
    ∙ ap (count_one u.success) (
        counts-outcome u (or_fresh first)
        ∙ counts-or_fresh first
        ∙ Uncounted-written_first env u row)
  where
    first : Row
    first = written_first env u row

    cur : AccountMeta
    cur = get_or current (read first)

    same : counts cur ≡ counts (outcome_patch u (or_fresh first))
    same = h ∙ sym (counts-outcome u (or_fresh first) ∙ counts-or_fresh first)

pub Uncounted-block_model :
    (env : Env) (model reason source : String) (ttl : Option ℕ) (row : Row)
    → Uncounted row (block_model env model reason source ttl row)
unfolding block_model patch_pool_meta
Uncounted-block_model env model reason source ttl none = ground arith
Uncounted-block_model env model reason source ttl (some m) = ground arith

pub Uncounted-unblock_model :
    (env : Env) (model : Option String) (row : Row) → Uncounted row (unblock_model env model row)
unfolding unblock_model patch_pool_meta
Uncounted-unblock_model env none none = refl
Uncounted-unblock_model env none (some m) = refl
Uncounted-unblock_model env (some model) none = ground arith
Uncounted-unblock_model env (some model) (some m) = ground arith

pub Uncounted-prune : (env : Env) (row : Row) → Uncounted row (prune_expired_model_blocks env row).0
unfolding prune_expired_model_blocks patch_pool_meta
Uncounted-prune env none = ground arith
Uncounted-prune env (some m) = ground arith

pub Uncounted-block_exhausted :
    (env : Env) (p : UsageSignal) (hit : Hit) (row : Row)
    → Uncounted row (block_exhausted env p hit row)
unfolding block_exhausted
Uncounted-block_exhausted env p hit row = of_model p.model
  where
    of_model :
        (model : Option String)
        → Uncounted row (block_exhausted env (record p { model = model }) hit row)
    of_model none = refl
    of_model (some mid) =
        Uncounted-block_model env mid (kick_reason_text p) "temp_usage"
          (some (soft_block_ttl hit.count)) row

pub Uncounted-kick_account :
    (env : Env) (p : UsageSignal) (code : Option ℕ) (source : String) (row : Row)
    → Uncounted row (kick_account env p code source row).1
unfolding kick_account kick_patch
Uncounted-kick_account env p code source row =
    counts-commit env (kick_patch env.now p code hit until) (block_exhausted env p hit row) refl
    ∙ Uncounted-block_exhausted env p hit row
  where
    meta : AccountMeta
    meta = pool_meta env.now (read row)

    hit : Hit
    hit = weigh_hit env.now meta (usage_entry env.now p code source)

    until : ℕ
    until = hold_until env.now hit.still_active meta.cooldown_until
