-- ===== src/Ready/Published.antt =====
-- What publishing a state event does to the index: the patch is applied where the counter of the
-- account's numbers is not behind the stored status, and lost where a rebuild has put it behind.
use grokcli_2api.Base.{
  ℕ, ◌+◌, ◌≤◌, ◌<◌, ◌≡◌, ◌∙◌, refl, sym, ap, String, true, false, not, ◌&&◌, Option, none, some, [],
  ◌∷◌, is_text, ◌==◌, Bool-cases, inl, inr, eq_refl, arith, max, le→ltb, lt→ltb,
}
use grokcli_2api.Base.Dict
use grokcli_2api.Ready.Status.{
  Env, Meta, version, stamp, merge, status_active, is_cooling, field, found, to_int, score,
  cooling_until,
}
use grokcli_2api.Ready.SortedSet.{SortedSet}
use grokcli_2api.Ready.Index.{
  Index, year, empty_index, set_at, meta_of, incoming_seq, raise_floor, set_status, put_status,
  delist, enlist, patch_status, apply_status_patch,
}
use grokcli_2api.Ready.Publish.{
  Event, account_state, next_state_sequence, choose_seq, publish_numbered, publish_account_state,
}
use mathlib.Core.Path.{subst}
use grokcli_2api.Ready.Placing.{status-set, member, member-zadd, member-zrem}
use grokcli_2api.Ready.Versions.{Run, stored_version, status-enlist, IsCounted-Run, IsCounted-empty}
use grokcli_2api.Ready.Rows.{IndexRow, row_meta, is_cooling_row}
use grokcli_2api.Ready.Index.{rebuild_ready_index, mark_built, index_rows, index_row, clear_index}

module _ (S : SortedSet) where
  -- The sets after a status was written.
  placed_by :
      (env : Env) (account : String) (meta : Meta) (idx : Index S)
      → (member S account (put_status S env account meta idx).ready
          ≡ (not (is_cooling env meta) && status_active env meta))
        × (member S account (put_status S env account meta idx).cooldown ≡ is_cooling env meta)
  unfolding put_status set_status delist enlist
  placed_by env account meta idx = elim (Bool-cases (is_cooling env meta)) [
    | inl cooling ↦
        rw
          (
            cooling,
            member-zrem S account account idx.ready,
            member-zadd S account account (max (cooling_until env meta) (env.now + year))
                (S.zrem account idx.cooldown),
            eq_refl account,
          )
          (refl, refl)
    | inr warm ↦ rw warm (elim (Bool-cases (status_active env meta)) [
      | inl active ↦
          rw
            (
              active,
              member-zrem S account account idx.cooldown,
              member-zadd S account account (score env meta) (S.zrem account idx.ready),
              eq_refl account,
            )
            (refl, refl)
      | inr passive ↦
          rw
            (
              passive,
              member-zrem S account account idx.cooldown,
              member-zrem S account account idx.ready,
              eq_refl account,
            )
            (refl, refl)
    ])
  ]

  put-fresh :
      (env : Env) (account : String) (patch : Meta) (seq : ℕ) (idx : Index S)
      → is_text account ≡ true
      → (seq == 0) ≡ false
      → stored_version S idx account ≤ seq
      → apply_status_patch S env account patch (some seq) idx
        ≡ put_status S env account
            (stamp seq (merge patch (meta_of (idx.status account))))
            (raise_floor S account (max (stored_version S idx account) seq) idx)
  unfolding apply_status_patch incoming_seq patch_status
  put-fresh env account patch seq idx named drawn newer =
      rw (named, drawn, le→ltb seq (stored_version S idx account) newer) refl

  status-put_status :
      (env : Env) (account : String) (meta : Meta) (idx : Index S)
      → (put_status S env account meta idx).status account ≡ some meta
  unfolding put_status delist
  status-put_status env account meta idx =
      ap (λ (s : String → Option Meta). s account)
        (status-enlist S env (is_cooling env meta) account meta
          (delist S account (set_status S account meta idx))).0
      ∙ status-set S account meta idx

  -- The index once a status stands in it.
  abbrev pub Stands : Env → String → Meta → Index S → Type 0
  Stands env account meta idx =
      (idx.status account ≡ some meta)
      × (member S account idx.ready ≡ (not (is_cooling env meta) && status_active env meta))
      × (member S account idx.cooldown ≡ is_cooling env meta)

  Stands-put_status :
      (env : Env) (account : String) (meta : Meta) (idx : Index S)
      → Stands env account meta (put_status S env account meta idx)
  Stands-put_status env account meta idx = (
    status-put_status env account meta idx,
    (placed_by env account meta idx).0,
    (placed_by env account meta idx).1,
  )

  Stands-fresh :
      (env : Env) (account : String) (patch : Meta) (seq : ℕ) (idx : Index S)
      → is_text account ≡ true
      → (seq == 0) ≡ false
      → stored_version S idx account ≤ seq
      → Stands env account
          (stamp seq (merge patch (meta_of (idx.status account))))
          (apply_status_patch S env account patch (some seq) idx)
  Stands-fresh env account patch seq idx named drawn newer =
      subst (Stands env account (stamp seq (merge patch (meta_of (idx.status account)))))
        (sym (put-fresh env account patch seq idx named drawn newer))
        (Stands-put_status env account (stamp seq (merge patch (meta_of (idx.status account))))
          (raise_floor S account (max (stored_version S idx account) seq) idx))

  -- The index with the next number drawn.
  drawn_index : String → Index S → Index S
  unfolding set_at
  drawn_index account idx = record idx { floor = set_at account (idx.floor account + 1) idx.floor }

  publish-unnumbered :
      (env : Env) (account : String) (patch : Meta) (idx : Index S)
      → is_text account ≡ true
      → publish_account_state S env account patch none idx ≡ (
        some (account_state account (idx.floor account + 1) patch),
        apply_status_patch S env account patch
            (some (idx.floor account + 1))
            (drawn_index account idx),
      )
  unfolding publish_account_state choose_seq next_state_sequence publish_numbered drawn_index
  publish-unnumbered env account patch idx named = rw named refl

  -- A state event that is published without a number of its own, at any point of a run from the empty
  -- index without a rebuild, is applied to the index: its number is above the one that was stored, the
  -- status becomes the patched one under that number, and the account stands in the cooldown set if
  -- that status is cooling, in the ready set if it is active and not cooling, and else in neither.
  pub published_applies :
      {cap : ℕ} (idx : Index S)
      → Run S cap (empty_index S) idx
      → (env : Env) (account : String) (patch : Meta) → is_text account ≡ true
      → let seq = idx.floor account + 1 in
        let published = publish_account_state S env account patch none idx in
        (published.0 ≡ some (account_state account seq patch))
        × (stored_version S idx account < seq)
        × Stands env account (stamp seq (merge patch (meta_of (idx.status account)))) published.1
  unfolding drawn_index
  published_applies idx r env account patch named = (
    ap (λ (x : Option Event × Index S). x.0) (publish-unnumbered env account patch idx named),
    omega (arith, below),
    subst
        (λ (x : Option Event × Index S).
          Stands env account
            (stamp (idx.floor account + 1) (merge patch (meta_of (idx.status account)))) x.1)
        (sym (publish-unnumbered env account patch idx named))
        (Stands-fresh env account patch (idx.floor account + 1) (drawn_index account idx) named
          (ground arith) (omega (arith, below))),
  )
    where
      below : stored_version S idx account ≤ idx.floor account
      below = IsCounted-Run S r (IsCounted-empty S) account

  stale-patch_status :
      (env : Env) (account : String) (patch : Meta) (incoming : ℕ) (current : Meta) (idx : Index S)
      → incoming < version current
      → (patch_status S env account patch incoming current idx).status ≡ idx.status
  unfolding patch_status raise_floor
  stale-patch_status env account patch incoming current idx old =
      rw (lt→ltb incoming (version current) old) refl

  stale-apply :
      (env : Env) (account : String) (patch : Meta) (seq : ℕ) (idx : Index S)
      → is_text account ≡ true
      → (seq == 0) ≡ false
      → seq < stored_version S idx account
      → (apply_status_patch S env account patch (some seq) idx).status ≡ idx.status
  unfolding apply_status_patch incoming_seq
  stale-apply env account patch seq idx named drawn old =
      rw (named, drawn)
        (stale-patch_status env account patch seq (meta_of (idx.status account)) idx old)

  -- The index that is rebuilt, on an empty Redis, from a table of one account.
  abbrev pub rebuilt_alone : Env → IndexRow → Index S
  rebuilt_alone env row = (rebuild_ready_index S ((env, row) ∷ []) (empty_index S)).1

  status-rebuilt :
      (env : Env) (row : IndexRow) → (rebuilt_alone env row).status row.id ≡ some (row_meta row)
  unfolding rebuild_ready_index mark_built index_rows index_row
  status-rebuilt env row =
      ap (λ (s : String → Option Meta). s row.id)
        (status-enlist S env (is_cooling_row env row) row.id (row_meta row)
          (set_status S row.id (row_meta row) (clear_index S (empty_index S)))).0
      ∙ status-set S row.id (row_meta row) (clear_index S (empty_index S))

  floor-rebuilt : (env : Env) (row : IndexRow) → (rebuilt_alone env row).floor row.id ≡ 0
  unfolding rebuild_ready_index mark_built index_rows index_row clear_index
  floor-rebuilt env row =
      ap (λ (s : String → ℕ). s row.id)
        (status-enlist S env (is_cooling_row env row) row.id (row_meta row)
          (set_status S row.id (row_meta row) (clear_index S (empty_index S)))).1

  version-row_meta : (row : IndexRow) → version (row_meta row) ≡ row.state_version
  unfolding version field found to_int row_meta Dict.get
  version-row_meta row = refl

  version-rebuilt :
      (env : Env) (row : IndexRow)
      → stored_version S (rebuilt_alone env row) row.id ≡ row.state_version
  unfolding meta_of
  version-rebuilt env row = rw (status-rebuilt env row) (version-row_meta row)

  -- On an empty Redis, after a rebuild from a table with one account whose version is above one, the
  -- first state event that is published for the account without a number of its own is numbered one,
  -- and its patch is dropped: the stored status stays the one of the table.
  pub rebuild_drops_patch :
      (env later : Env) (row : IndexRow) (patch : Meta)
      → is_text row.id ≡ true
      → 1 < row.state_version
      → let published = publish_account_state S later row.id patch none (rebuilt_alone env row) in
        (published.0 ≡ some (account_state row.id 1 patch))
        × (published.1.status row.id ≡ some (row_meta row))
  unfolding drawn_index
  rebuild_drops_patch env later row patch named ahead = (
    ap (λ (x : Option Event × Index S). x.0) published
        ∙ ap (λ (n : ℕ). some (account_state row.id (n + 1) patch)) (floor-rebuilt env row),
    ap (λ (x : Option Event × Index S). x.1.status row.id) published
        ∙ ap (λ (s : String → Option Meta). s row.id)
            (stale-apply later row.id patch ((rebuilt_alone env row).floor row.id + 1)
              (drawn_index row.id (rebuilt_alone env row)) named (ground arith)
              (omega (arith, floor-rebuilt env row, version-rebuilt env row)))
        ∙ status-rebuilt env row,
  )
    where
      published : publish_account_state S later row.id patch none (rebuilt_alone env row) ≡ (
        some (account_state row.id ((rebuilt_alone env row).floor row.id + 1) patch),
        apply_status_patch S later row.id patch
            (some ((rebuilt_alone env row).floor row.id + 1))
            (drawn_index row.id (rebuilt_alone env row)),
      )
      published = publish-unnumbered later row.id patch (rebuilt_alone env row) named
