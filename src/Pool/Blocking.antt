-- ===== src/Pool/Blocking.antt =====
-- What the model blocks of grok2api/pool/account_pool.py do to `is_model_blocked`.
use grokcli_2api.Base.{
  ℕ, ◌+◌, ◌≤◌, ◌≡◌, refl, String, Bool, true, false, not, ◌&&◌, Option, none, some, [], ◌∷◌, ltb,
  arith, str_eq, is_text, if◌then◌else◌, eq_iff, eq_refl, length, Bool-cases, Option-cases, inl,
  inr, is_some,
}
use grokcli_2api.Base.Dict
use grokcli_2api.Base.Dict.{Dict, get-put, get-remove}
use grokcli_2api.Pool.Meta.{ModelBlock, Row, read}
use grokcli_2api.Pool.Status.{Env, patch_pool_meta}
use grokcli_2api.Pool.Blocks.{
  block_model, unblock_model, block_entry, remaining_block, is_model_blocked, entry_blocks,
  drop_over, is_block_over, prune_expired_model_blocks,
}

-- A block of a named model with a positive ttl holds until the ttl and what was left of an earlier block
-- of the model have passed, and no longer.
pub block_window :
    (env : Env) (model reason source : String) (ttl : ℕ) (row : Row) (at : ℕ)
    → is_text model ≡ true
    → ltb 0 ttl ≡ true
    → is_model_blocked at false
        (some model)
        (read (block_model env model reason source (some ttl) row))
      ≡ ltb at
          (env.now + (remaining_block env.now (Dict.get model (read row).blocked_models) + ttl))
unfolding block_model is_model_blocked entry_blocks block_entry patch_pool_meta
block_window env model reason source ttl row at h t = rw (h, t, get-put, eq_refl model) refl

-- Blocking a model leaves every other model as it was.
pub block_others :
    (env : Env) (model reason source : String) (ttl : Option ℕ) (row : Row) (at : ℕ)
    (durable : Bool) (other : String)
    → str_eq model other ≡ false
    → is_model_blocked at durable (some other) (read (block_model env model reason source ttl row))
      ≡ is_model_blocked at durable (some other) (read row)
unfolding block_model is_model_blocked patch_pool_meta
block_others env model reason source ttl row at durable other h =
    elim (Bool-cases (is_text model)) [ inl t ↦ rw (t, get-put, h) refl | inr f ↦ rw f refl ]

-- Lifting the block of a model leaves the model unblocked and every other model as it was, and lifting
-- without a model leaves none blocked.
pub unblock_lifts :
    (env : Env) (model : String) (row : Row) (at : ℕ) (durable : Bool) (other : String)
    → (is_model_blocked at durable (some other) (read (unblock_model env none row)) ≡ false)
      × (is_model_blocked at durable (some other) (read (unblock_model env (some model) row)) ≡ (
          if str_eq model other
          then false
          else is_model_blocked at durable (some other) (read row)))
unfolding unblock_model is_model_blocked patch_pool_meta Dict.get
unblock_lifts env model row at durable other = (
  ground arith,
  elim (Option-cases (Dict.get model (read row).blocked_models)) [
    | inl absent ↦ rw absent (ground (arith, absent, eq_iff model other))
    | inr (b, present) ↦
        rw (present, get-remove model other (read row).blocked_models)
          (ground (arith, eq_iff model other))
  ],
)

-- What the prune keeps is not over, and what it counts is the rest.
pub drop_over-count :
    (now : ℕ) (d : Dict ModelBlock) → length (drop_over now d).0 + (drop_over now d).1 ≡ length d
unfolding drop_over
drop_over-count now [] = refl
drop_over-count now ((model, b) ∷ d) = ground (arith, drop_over-count now d)

-- A dictionary has each key once.
unfoldable pub lacks : String → Dict ModelBlock → Bool
lacks k d = not (is_some (Dict.get k d))

unfoldable pub has_distinct_keys : Dict ModelBlock → Bool
unfolding lacks
has_distinct_keys [] = true
has_distinct_keys ((k, b) ∷ d) = lacks k d && has_distinct_keys d

blocks_at : ℕ → Option ModelBlock → Bool
blocks_at at none = false
blocks_at at (some b) = entry_blocks at false b

lacks-drop_over :
    (now : ℕ) (k : String) (d : Dict ModelBlock)
    → lacks k d ≡ true
    → lacks k (drop_over now d).0 ≡ true
unfolding drop_over lacks Dict.get
lacks-drop_over now k [] h = refl
lacks-drop_over now k ((j, b) ∷ d) h = ground (arith, lacks-drop_over now k d)

blocks-drop_over :
    (now at : ℕ) (k : String) (d : Dict ModelBlock)
    → now ≤ at
    → has_distinct_keys d ≡ true
    → blocks_at at (Dict.get k (drop_over now d).0) ≡ blocks_at at (Dict.get k d)
unfolding drop_over has_distinct_keys Dict.get blocks_at is_block_over entry_blocks
blocks-drop_over now at k [] le h = refl
blocks-drop_over now at k ((j, b) ∷ d) le h =
    ground (arith, eq_iff j k, blocks-drop_over now at k d le, lacks-drop_over now j d)

-- A prune at the time `now` is not seen by any later test: a model is blocked after it exactly where
-- it was blocked before, whatever was dropped.
pub prune_unseen :
    (env : Env) (row : Row) (at : ℕ) (model : Option String)
    → env.now ≤ at
    → has_distinct_keys (read row).blocked_models ≡ true
    → is_model_blocked at false model (read (prune_expired_model_blocks env row).0)
      ≡ is_model_blocked at false model (read row)
unfolding is_model_blocked prune_expired_model_blocks blocks_at patch_pool_meta
prune_unseen env row at none le h = refl
prune_unseen env row at (some model) le h =
    ground (arith, blocks-drop_over env.now at model (read row).blocked_models le h)
