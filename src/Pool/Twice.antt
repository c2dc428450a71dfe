-- ===== src/Pool/Twice.antt =====
-- How often a request whose model is unavailable is counted.
use grokcli_2api.Base.{
  ℕ, ◌+◌, ◌≡◌, ◌∙◌, refl, ap, String, Bool, true, false, not, Option, none, some, if◌then◌else◌,
  ltb, arith, sym, is_text, cut,
}
use mathlib.Core.Bool.{true≢false}
use mathlib.Core.Path.{subst}
use grokcli_2api.Pool.Meta.{AccountMeta, Row, read}
use grokcli_2api.Pool.Status.{Env, Patch, patch_pool_meta}
use grokcli_2api.Pool.Cooldown.{stack_cooldown_count}
use grokcli_2api.Pool.Blocks.{block_model}
use grokcli_2api.Pool.View.{pool_meta}
use grokcli_2api.Pool.FreeUsage.{Kick, apply_free_usage_cooldown}
use grokcli_2api.Pool.Admin.{
  or_text, kick_from_pool, soft_kick, hard_kick, soft_kick_patch, soft_kick_update,
}
use grokcli_2api.Pool.Upstream.{
  Classified, Policy, some_text, reason_of, handle_upstream_error_for_quota,
  handle_upstream_error_for_model, block_account, block_unavailable, unavailable_wait, on_temporary,
  on_model,
}
use grokcli_2api.Pool.Live.{report_failure, act_on_error}
use grokcli_2api.Pool.Counters.{
  Counts, counts, count_one, counts-commit, counts-touch, Uncounted-block_model,
}
use grokcli_2api.Pool.Tally.{counts-report_failure, Uncounted-quota}

if_true : (P : Row → Type 0) (x y : Row) (b : Bool) → b ≡ true → P x → P (if b then x else y)
if_true P x y true h p = p
if_true P x y false h p = elim (true≢false (sym h)) [ ]

-- Tests that decide a pair.
pair_true :
    (P : Row → Type 0) (x y : Bool × Row) (b : Bool) → b ≡ true → P x.1 → P (if b then x else y).1
pair_true P x y true h p = p
pair_true P x y false h p = elim (true≢false (sym h)) [ ]

pair_false :
    (P : Row → Type 0) (x y : Bool × Row) (b : Bool) → b ≡ false → P y.1 → P (if b then x else y).1
pair_false P x y true h p = elim (true≢false h) [ ]
pair_false P x y false h p = p

counts-soft_kick :
    (env : Env) (reason : String) (row : Row)
    → counts (read (soft_kick env reason row)) ≡ count_one false (counts (read row))
unfolding soft_kick soft_kick_patch soft_kick_update
counts-soft_kick env reason row =
    counts-touch env (soft_kick_update env.now count reason meta.consecutive_fails) none
      (some (patch_pool_meta env patch row)) refl
    ∙ ap (count_one false) (counts-commit env patch row refl)
  where
    meta : AccountMeta
    meta = pool_meta env.now (read row)

    count : ℕ
    count = stack_cooldown_count env.now meta 1

    patch : Patch
    patch = soft_kick_patch env.now count reason

-- An unavailable model's wait is positive.
wait_positive : (pol : Policy) (e : Classified) → ltb 0 (unavailable_wait pol e) ≡ true
wait_positive pol e = ground arith

counts-block_unavailable :
    (env : Env) (pol : Policy) (e : Classified) (model : String) (row : Row)
    → counts (read (block_unavailable env pol e model row)) ≡ count_one false (counts (read row))
unfolding block_unavailable kick_from_pool
counts-block_unavailable env pol e model row =
    if_true (λ r. counts (read r) ≡ count_one false (counts (read row)))
      (soft_kick env text blocked) (hard_kick env text blocked) (ltb 0 (unavailable_wait pol e))
      (wait_positive pol e)
      (counts-soft_kick env text blocked
        ∙ ap (count_one false) (
            Uncounted-block_model env model (reason_of "模型不可用" 160 e) "upstream_error"
              (some pol.cooldowns.durable_block_ttl) row))
  where
    text : String
    text = cut 300 (or_text (reason_of "模型不可用" 160 e) "手动移出轮询")

    blocked : Row
    blocked =
        block_model env model (reason_of "模型不可用" 160 e) "upstream_error"
          (some pol.cooldowns.durable_block_ttl) row

abbrev CountsOne : Row → Row → Type 0
CountsOne row after = counts (read after) ≡ count_one false (counts (read row))

counts-on_model :
    (env : Env) (pol : Policy) (e : Classified) (model : String) (row : Row)
    → e.model_unavailable ≡ true
    → CountsOne row (on_model env pol e (some model) row).1
unfolding on_model
counts-on_model env pol e model row gone =
    pair_true (CountsOne row) (true, block_unavailable env pol e model row) (false, row)
      e.model_unavailable gone (counts-block_unavailable env pol e model row)

text_some : (model : String) → is_text model ≡ true → some_text (some model) ≡ some model
text_some model h = rw h refl

counts-model :
    (env : Env) (pol : Policy) (e : Classified) (model : String) (row : Row)
    → pol.auto_disable ≡ true
    → e.temporary ≡ false
    → e.account_block ≡ false
    → e.model_unavailable ≡ true
    → is_text model ≡ true
    → CountsOne row (handle_upstream_error_for_model env pol e (some model) row).1
unfolding handle_upstream_error_for_model
counts-model env pol e model row on lasting fine gone h =
    pair_false (CountsOne row) (false, row) decided (not pol.auto_disable) (ap not on)
      (pair_false (CountsOne row) (true, on_temporary env (some_text (some model)) row answer)
        blamed e.temporary lasting
        (pair_false (CountsOne row) (true, block_account env pol e row)
          (on_model env pol e (some_text (some model)) row) e.account_block fine
          (subst (λ m. CountsOne row (on_model env pol e m row).1) (sym (text_some model h))
            (counts-on_model env pol e model row gone))))
  where
    answer : Option (Kick × Row)
    answer = apply_free_usage_cooldown env e.upstream (some_text (some model)) "upstream" row

    blamed : Bool × Row
    blamed =
        if e.account_block
        then (true, block_account env pol e row)
        else on_model env pol e (some_text (some model)) row

    decided : Bool × Row
    decided =
        if e.temporary then (true, on_temporary env (some_text (some model)) row answer) else blamed

counts-act_on_error :
    (env : Env) (pol : Policy) (e : Classified) (model : String) (row : Row)
    → pol.auto_disable ≡ true
    → e.temporary ≡ false
    → e.account_block ≡ false
    → e.model_unavailable ≡ true
    → is_text model ≡ true
    → CountsOne row (act_on_error env pol e (some model) row)
unfolding act_on_error
counts-act_on_error env pol e model row on lasting fine gone h =
    subst
      (λ o. CountsOne row (elim o [
        | none ↦ quota
        | some m ↦ (handle_upstream_error_for_model env pol e (some m) quota).1
      ]))
      (sym (text_some model h))
      (counts-model env pol e model quota on lasting fine gone h
        ∙ ap (count_one false) (Uncounted-quota env e row))
  where
    quota : Row
    quota = (handle_upstream_error_for_quota env e row).1

-- With the automatic actions on, one request that fails because its model is unavailable counts two
-- requests and two failures.
pub unavailable_counted_twice :
    (env : Env) (pol : Policy) (e : Classified) (model : String) (row : Row)
    → pol.auto_disable ≡ true
    → e.temporary ≡ false
    → e.account_block ≡ false
    → e.model_unavailable ≡ true
    → is_text model ≡ true
    → ((read (report_failure env pol e (some model) row)).request_count
        ≡ (read row).request_count + 1 + 1)
      × ((read (report_failure env pol e (some model) row)).fail_count
          ≡ (read row).fail_count + 1 + 1)
unavailable_counted_twice env pol e model row on lasting fine gone h =
    (ap (λ (x : Counts). x.0) twice, ap (λ (x : Counts). x.2) twice)
  where
    twice :
        counts (read (report_failure env pol e (some model) row))
        ≡ count_one false (count_one false (counts (read row)))
    twice =
        counts-report_failure env pol e (some model) row
        ∙ ap (count_one false) (counts-act_on_error env pol e model row on lasting fine gone h)
