-- ===== src/Pool/Events.antt =====
-- Commits and queued events of grok2api/store/settings_pg.py: the order of versions, redelivery, and
-- the two derivations of the status.
use grokcli_2api.Base.{
  ℕ, ◌≤◌, ◌≡◌, refl, true, false, none, some, max, ltb, leb, arith, is_empty, ◌||◌, Bool-cases, inl,
  inr, leb→le, le→leb,
}
use grokcli_2api.Pool.Meta.{AccountMeta, Row}
use grokcli_2api.Pool.Status.{
  Env, Patch, or_fresh, patch_pool_meta, apply_pool_state_event, derive_pool_status,
  file_pool_status, is_status_expired, keep_counters,
}

abbrev version : Row → ℕ
version row = (or_fresh row).state_version

pub stale_event :
    (now : ℕ) (p : Patch) (v : ℕ) (row : Row)
    → v ≤ version row
    → apply_pool_state_event now p v row ≡ row
unfolding apply_pool_state_event
stale_event now p v row h = let t = le→leb v (version row) h in rw t refl

fresh_event :
    (now : ℕ) (p : Patch) (v : ℕ) (row : Row)
    → leb v (version row) ≡ false
    → version (apply_pool_state_event now p v row) ≡ v
unfolding apply_pool_state_event keep_counters
fresh_event now p v none h = rw h refl
fresh_event now p v (some r) h = rw h refl

-- The version of a row never falls: after an event it is the later of its own and the event's.
pub version-event :
    (now : ℕ) (p : Patch) (v : ℕ) (row : Row)
    → (or_fresh (apply_pool_state_event now p v row)).state_version
      ≡ max (or_fresh row).state_version v
version-event now p v row = elim (Bool-cases (leb v (version row))) [
  | inl stale ↦
      let le = leb→le v (version row) stale in
      let same = stale_event now p v row le in rw same (omega arith)
  | inr fresh ↦ let e = fresh_event now p v row fresh in rw e (ground (arith, fresh))
]

-- Events that arrive late or twice are passed over: once an event has been offered to a row, an event
-- of the same or an earlier version changes nothing.
pub late_event :
    (now later : ℕ) (p q : Patch) (v w : ℕ) (row : Row)
    → w ≤ v
    → apply_pool_state_event later q w (apply_pool_state_event now p v row)
      ≡ apply_pool_state_event now p v row
late_event now later p q v w row h =
    stale_event later q w (apply_pool_state_event now p v row)
      (rw (version-event now p v row) (omega arith))

-- A commit that drew the account's counter outranks every event whose version was drawn before it:
-- such an event leaves the committed row as it is.
pub commit_outranks :
    (env : Env) (later : ℕ) (p q : Patch) (v : ℕ) (row : Row)
    → v ≤ env.seq
    → apply_pool_state_event later q v (some (patch_pool_meta env p row))
      ≡ some (patch_pool_meta env p row)
unfolding patch_pool_meta
commit_outranks env later p q v row h =
    stale_event later q v (some (patch_pool_meta env p row)) (omega arith)

-- The two derivations of the status agree on a row that no expiry marks and whose stack is counted.
pub statuses_agree :
    (now : ℕ) (m : AccountMeta)
    → is_status_expired m.pool_status ≡ false
    → m.token_expired_at ≡ none
    → is_empty m.status_stack || ltb 0 m.cooldown_count ≡ true
    → derive_pool_status now m ≡ file_pool_status now m
unfolding derive_pool_status file_pool_status
statuses_agree now m s t c = ground arith
