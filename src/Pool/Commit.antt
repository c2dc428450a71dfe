-- ===== src/Pool/Commit.antt =====
-- What a commit of grok2api/store/settings_pg.py makes of a patch.
use grokcli_2api.Base.{
  ap, sym, max, ◌+◌, ℕ, ◌≡◌, refl, Bool, ◌||◌, not, none, some, List, ltb, is_empty, arith,
}
use grokcli_2api.Pool.Meta.{AccountMeta, StatusEntry, Row, read}
use grokcli_2api.Pool.Status.{Env, Patch, or_fresh, stamp, derive_pool_status, patch_pool_meta}

-- What keeps an account cooling whatever the clock says: the count and the stack.
abbrev pub Hold : Type 0
Hold = ℕ × List StatusEntry

abbrev pub hold : AccountMeta → Hold
hold m = (m.cooldown_count, m.status_stack)

abbrev pub is_holding : Hold → Bool
is_holding h = ltb 0 h.0 || not (is_empty h.1)

abbrev pub is_held : AccountMeta → Bool
is_held m = is_holding (hold m)

pub hold-or_fresh : (row : Row) → hold (or_fresh row) ≡ hold (read row)
hold-or_fresh none = refl
hold-or_fresh (some m) = refl

-- A commit writes the hold that its patch leaves.
pub hold-commit :
    (env : Env) (p : Patch) (row : Row) → hold (patch_pool_meta env p row) ≡ hold (p (or_fresh row))
unfolding patch_pool_meta
hold-commit env p row = refl

-- A patch that leaves the hold alone.
pub hold-commit_same :
    (env : Env) (p : Patch) (row : Row)
    → hold (p (or_fresh row)) ≡ hold (or_fresh row)
    → hold (patch_pool_meta env p row) ≡ hold (read row)
hold-commit_same env p row h = rw (hold-commit env p row, h) (hold-or_fresh row)

pub enabled-commit :
    (env : Env) (p : Patch) (row : Row)
    → (patch_pool_meta env p row).enabled ≡ (p (or_fresh row)).enabled
unfolding patch_pool_meta
enabled-commit env p row = refl

pub derive_idem :
    (now : ℕ) (m : AccountMeta) → derive_pool_status now (stamp now m) ≡ derive_pool_status now m
unfolding derive_pool_status
derive_idem now m = ground arith

-- The status that a commit stores is the one derived, at its time, from the row that it stores.
pub status-commit :
    (env : Env) (p : Patch) (row : Row)
    → (patch_pool_meta env p row).pool_status
      ≡ some (derive_pool_status env.now (patch_pool_meta env p row))
unfolding patch_pool_meta
status-commit env p row = ap some (
    sym (
      derive_idem env.now (
        stamp env.now (record (p (or_fresh row)) {
          state_version = max ((p (or_fresh row)).state_version + 1) env.seq;
        }))))
