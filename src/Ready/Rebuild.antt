-- ===== src/Ready/Rebuild.antt =====
-- The rebuild of the index from the tables: what one row changes, and where the accounts stand after
-- all rows.
use grokcli_2api.Base.{
  ◌≡◌, refl, String, Bool, true, false, List, [], ◌∷◌, All, str_eq, Bool-cases, inl, inr, eq_iff,
  arith, max, ◌+◌,
}
use grokcli_2api.Ready.Status.{Env, Meta, status_active, score, cooling_until}
use grokcli_2api.Ready.Rows.{IndexRow, row_meta, is_cooling_row}
use grokcli_2api.Ready.SortedSet.{SortedSet}
use grokcli_2api.Ready.Index.{
  Index, year, set_at, meta_of, enlist, set_status, clear_index, index_row, index_rows,
  rebuild_ready_index, mark_built,
}
use grokcli_2api.Ready.Placing.{
  member, member-zadd, member-empty, is_placed, IsSound, placed-enlist, status-set,
}

-- Ids are a key of the table of accounts.
abbrev pub HasKeys : List (Env × IndexRow) → Type 0
HasKeys [] = Unit
HasKeys ((env, row) ∷ rows) = All (λ r. str_eq row.id r.1.id ≡ false) rows × HasKeys rows

module _ (S : SortedSet) where
  abbrev Unlisted : Index S → Env × IndexRow → Type 0
  Unlisted idx r = (member S r.1.id idx.ready ≡ false) × (member S r.1.id idx.cooldown ≡ false)

  Unlisted-enlist :
      (env : Env) (cooling : Bool) (account : String) (meta : Meta) (idx : Index S)
      (r : Env × IndexRow)
      → str_eq account r.1.id ≡ false
      → Unlisted idx r
      → Unlisted (enlist S env cooling account meta idx) r
  unfolding enlist
  Unlisted-enlist env true account meta idx r other (p, q) = (
    p,
    rw
        (
          member-zadd S account r.1.id (max (cooling_until env meta) (env.now + year)) idx.cooldown,
          other,
        )
        q,
  )
  Unlisted-enlist env false account meta idx r other (p, q) =
      elim (Bool-cases (status_active env meta)) [
        | inl active ↦
            rw active (rw (member-zadd S account r.1.id (score env meta) idx.ready, other) p, q)
        | inr passive ↦ rw passive (p, q)
      ]

  All-Unlisted :
      (env : Env) (row : IndexRow) (rows : List (Env × IndexRow)) (idx : Index S)
      → All (λ r. str_eq row.id r.1.id ≡ false) rows
      → All (Unlisted idx) rows
      → All (Unlisted (index_row S env row idx)) rows
  unfolding index_row set_status
  All-Unlisted env row [] idx others free = tt
  All-Unlisted env row (r ∷ rows) idx (o, others) (f, free) = (
    Unlisted-enlist env (is_cooling_row env row) row.id (row_meta row)
        (set_status S row.id (row_meta row) idx) r o f,
    All-Unlisted env row rows idx others free,
  )

  placed-set_unlisted :
      (account : String) (meta : Meta) (idx : Index S) (a : String)
      → member S account idx.ready ≡ false
      → is_placed S idx a ≡ true
      → is_placed S (set_status S account meta idx) a ≡ true
  unfolding is_placed set_status set_at meta_of
  placed-set_unlisted account meta idx a out h = ground (arith, eq_iff account a)

  placed-index_row :
      (env : Env) (row : IndexRow) (idx : Index S) (a : String)
      → Unlisted idx (env, row)
      → is_placed S idx a ≡ true
      → is_placed S (index_row S env row idx) a ≡ true
  unfolding index_row
  placed-index_row env row idx a free h =
      placed-enlist S env (is_cooling_row env row) row.id (row_meta row)
        (set_status S row.id (row_meta row) idx) a free.0 free.1
        (status-set S row.id (row_meta row) idx)
        (placed-set_unlisted row.id (row_meta row) idx a free.0 h)

  IsSound-index_rows :
      (rows : List (Env × IndexRow)) (idx : Index S)
      → HasKeys rows
      → All (Unlisted idx) rows
      → IsSound S idx
      → IsSound S (index_rows S rows idx)
  unfolding index_rows
  IsSound-index_rows [] idx keys free h = h
  IsSound-index_rows ((env, row) ∷ rows) idx (others, keys) (f, free) h =
      IsSound-index_rows rows (index_row S env row idx) keys
        (All-Unlisted env row rows idx others free) (λ a. placed-index_row env row idx a f (h a))

  All-Unlisted-cleared :
      (rows : List (Env × IndexRow)) (idx : Index S) → All (Unlisted (clear_index S idx)) rows
  unfolding clear_index
  All-Unlisted-cleared [] idx = tt
  All-Unlisted-cleared (r ∷ rows) idx =
      ((member-empty S r.1.id, member-empty S r.1.id), All-Unlisted-cleared rows idx)

  IsSound-clear_index : (idx : Index S) → IsSound S (clear_index S idx)
  unfolding clear_index is_placed
  IsSound-clear_index idx a = rw (member-empty S a) refl

  pub IsSound-rebuild :
      (rows : List (Env × IndexRow)) (idx : Index S)
      → HasKeys rows
      → IsSound S (rebuild_ready_index S rows idx).1
  unfolding rebuild_ready_index mark_built is_placed
  IsSound-rebuild rows idx keys =
      IsSound-index_rows rows (clear_index S idx) keys (All-Unlisted-cleared rows idx)
        (IsSound-clear_index idx)
