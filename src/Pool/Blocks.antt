-- ===== src/Pool/Blocks.antt =====
-- Model blocks of grok2api/pool/account_pool.py: `block_model`, `unblock_model`, `is_model_blocked`
-- and `prune_expired_model_blocks`, on the row of one account.
use grokcli_2api.Base.{
  ℕ, ◌+◌, ◌-◌, String, Bool, true, false, not, ◌&&◌, ◌||◌, Option, none, some, List, [], ◌∷◌, leb,
  ltb, cut, one_of, is_text, is_some, ◌<>◌, if◌then◌else◌,
}
use grokcli_2api.Base.Dict
use grokcli_2api.Base.Dict.{Dict}
use grokcli_2api.Pool.Meta.{AccountMeta, ModelBlock, Row, read}
use grokcli_2api.Pool.Status.{Env, patch_pool_meta}

-- What is left of an earlier block of the same model.
unfoldable pub remaining_block : ℕ → Option ModelBlock → ℕ
remaining_block now none = 0
remaining_block now (some b) = elim b.until [ none ↦ 0 | some u ↦ u - now ]

-- The new entry: a ttl is added to what is left, and without one the block has no end.
unfoldable pub block_entry : ℕ → Option ModelBlock → String → String → Option ℕ → ModelBlock
unfolding remaining_block
block_entry now prev reason source ttl_sec =
    let plain : ModelBlock = record {
      reason = cut 300 (if is_text reason then reason else "模型不可用");
      blocked_at = now;
      source = source;
      ttl = none;
      until = none;
      stacked_add = none;
    } in
    let timed = λ (t : ℕ). record plain {
      ttl = some (remaining_block now prev + t);
      until = some (now + (remaining_block now prev + t));
      stacked_add = some t;
    } in
    elim ttl_sec [ none ↦ plain | some t ↦ if ltb 0 t then timed t else plain ]

unfoldable pub block_model : Env → String → String → String → Option ℕ → Row → Row
unfolding block_entry
block_model env model reason source ttl_sec row =
    let blocked = (read row).blocked_models in
    let entry = block_entry env.now (Dict.get model blocked) reason source ttl_sec in
    if is_text model
    then some (
        patch_pool_meta env
          (λ m. record m {
            blocked_models = Dict.put model entry blocked;
            last_error = some ("[" <> model <> "] " <> entry.reason);
          })
          row)
    else row

-- `unblock_model`; `none` clears every block.
unfoldable pub unblock_model : Env → Option String → Row → Row
unblock_model env none row = some (patch_pool_meta env (λ m. record m { blocked_models = [] }) row)
unblock_model env (some model) row =
    let blocked = (read row).blocked_models in
    if is_some (Dict.get model blocked)
    then some
        (patch_pool_meta env (λ m. record m { blocked_models = Dict.remove model blocked }) row)
    else row

abbrev pub soft_sources : List String
soft_sources = "temp_usage" ∷ "soft" ∷ "temporary" ∷ []

-- The entry test of `is_model_blocked`.
unfoldable pub entry_blocks : ℕ → Bool → ModelBlock → Bool
entry_blocks now durable_only b =
    if durable_only
    then not (is_some b.until || one_of b.source soft_sources)
    else elim b.until [ none ↦ true | some u ↦ ltb now u ]

unfoldable pub is_model_blocked : ℕ → Bool → Option String → AccountMeta → Bool
unfolding entry_blocks
is_model_blocked now durable_only none m = false
is_model_blocked now durable_only (some model) m =
    is_text model && (elim (Dict.get model m.blocked_models) [
      | none ↦ false
      | some b ↦ entry_blocks now durable_only b
    ])

-- A block is over when its `until` has passed.
unfoldable pub is_block_over : ℕ → ModelBlock → Bool
is_block_over now b = elim b.until [ none ↦ false | some u ↦ leb u now ]

-- The loop that drops what is over, and how many it drops.
unfoldable pub drop_over : ℕ → Dict ModelBlock → Dict ModelBlock × ℕ
unfolding is_block_over
drop_over now [] = ([], 0)
drop_over now ((model, b) ∷ d) =
    let (rest, n) = drop_over now d in
    if is_block_over now b then (rest, n + 1) else ((model, b) ∷ rest, n)

-- `prune_expired_model_blocks`, for one account.
unfoldable pub prune_expired_model_blocks : Env → Row → Row × ℕ
unfolding drop_over
prune_expired_model_blocks env row =
    let (kept, removed) = drop_over env.now (read row).blocked_models in
    if ltb 0 removed
    then (some (patch_pool_meta env (λ m. record m { blocked_models = kept }) row), removed)
    else (row, 0)
