-- ===== src/Pool/Counted.antt =====
-- How a successful request is counted.
use grokcli_2api.Base.{ℕ, ◌+◌, ◌≡◌, ◌∙◌, refl, ap, String, true, Option, none, some, arith}
use grokcli_2api.Base.Dict
use grokcli_2api.Pool.Meta.{AccountMeta, ModelBlock, Row, read}
use grokcli_2api.Pool.Status.{Env, is_in_cooldown, patch_pool_meta}
use grokcli_2api.Pool.View.{pool_meta}
use grokcli_2api.Pool.Upstream.{some_text}
use grokcli_2api.Pool.Live.{
  lift_found, lift_of, is_soft_block, lift_soft_block, clear_probe_streak, success_update,
  count_success, settle_success, report_success,
}
use grokcli_2api.Pool.Counters.{
  Counts, counts, count_one, Uncounted, Uncounted-if, counts-touch, Uncounted-unblock_model,
}

Uncounted-lift_found :
    (env : Env) (model : String) (b : Option ModelBlock) (row : Row)
    → Uncounted row (lift_found env model b row)
unfolding lift_found
Uncounted-lift_found env model none row = refl
Uncounted-lift_found env model (some b) row =
    Uncounted-if row _ row (is_soft_block b) (Uncounted-unblock_model env (some model) row) refl

Uncounted-lift_of :
    (env : Env) (model : Option String) (meta : AccountMeta) (row : Row)
    → Uncounted row (lift_of env model meta row)
unfolding lift_of
Uncounted-lift_of env none meta row = refl
Uncounted-lift_of env (some model) meta row =
    Uncounted-lift_found env model (Dict.get model meta.blocked_models) row

Uncounted-streak :
    (env : Env) (meta : AccountMeta) (row : Row) → Uncounted row (clear_probe_streak env meta row)
unfolding clear_probe_streak patch_pool_meta
Uncounted-streak env meta none = ground arith
Uncounted-streak env meta (some m) = ground arith

counts-pool_meta : (now : ℕ) (m : AccountMeta) → counts (pool_meta now m) ≡ counts m
unfolding pool_meta
counts-pool_meta now m = refl

pub counts-report_success :
    (env : Env) (model : Option String) (row : Row)
    → counts (read (report_success env model row)) ≡ count_one true (counts (read row))
unfolding report_success settle_success lift_soft_block
counts-report_success env model row =
    Uncounted-if (some saved) (some saved) (settle_success env model saved)
      (is_in_cooldown env.now (pool_meta env.now (read row))) refl
      (Uncounted-lift_of env (some_text model) after (clear_probe_streak env after (some saved))
        ∙ Uncounted-streak env after (some saved))
    ∙ counts-touch env success_update (some (pool_meta env.now (read row))) row
        (counts-pool_meta env.now (read row))
  where
    saved : AccountMeta
    saved = count_success env row

    after : AccountMeta
    after = pool_meta env.now saved

-- A successful request counts one success, whether its account cools or not.
pub success_counted :
    (env : Env) (model : Option String) (row : Row)
    → ((read (report_success env model row)).request_count ≡ (read row).request_count + 1)
      × ((read (report_success env model row)).success_count ≡ (read row).success_count + 1)
      × ((read (report_success env model row)).fail_count ≡ (read row).fail_count)
success_counted env model row = (
  ap (λ (x : Counts). x.0) (counts-report_success env model row),
  ap (λ (x : Counts). x.1) (counts-report_success env model row),
  ap (λ (x : Counts). x.2) (counts-report_success env model row),
)
