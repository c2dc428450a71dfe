-- ===== src/Pool/Lifecycle.antt =====
-- The whole pool under traffic: every operation of the request path, of renewals, of the quota check
-- and of failing probes, on any account and in any order. A successful probe,
-- `clear_account_cooldown`, and the removal of an account are no steps here.
use grokcli_2api.Base.{
  ℕ, ◌≡◌, ap, ◌∙◌, String, Bool, true, false, Option, str_eq, if◌then◌else◌, Bool-cases, inl, inr,
  eq_iff, eq_refl,
}
use grokcli_2api.Pool.Meta.{Row, read}
use grokcli_2api.Pool.Status.{Env}
use grokcli_2api.Pool.Cooldown.{CooldownPolicy}
use grokcli_2api.Pool.Blocks.{block_model, unblock_model, prune_expired_model_blocks}
use grokcli_2api.Pool.View.{Credentials, is_eligible}
use grokcli_2api.Pool.FreeUsage.{UpstreamError}
use grokcli_2api.Pool.Admin.{
  kick_from_pool, set_account_enabled, disable_for_quota, reenable_for_quota,
}
use grokcli_2api.Pool.Upstream.{Classified, Policy}
use grokcli_2api.Pool.Live.{report_success, report_failure}
use grokcli_2api.Pool.Probe.{Probe, probe_failed}
use grokcli_2api.Pool.Renew.{
  mark_account_expired, record_renew_success, record_renew_failure, mark_sso_reauth_attempt,
  mark_sso_reauth_failure,
}
use grokcli_2api.Pool.Commit.{is_held, is_holding}
use grokcli_2api.Pool.Hold.{
  Keeps-block_model, Keeps-unblock_model, Keeps-prune, Keeps-set_account_enabled,
  Keeps-disable_for_quota, Keeps-reenable_for_quota, Keeps-mark_account_expired,
  Keeps-record_renew_success, Keeps-record_renew_failure, Keeps-sso_attempt, Keeps-sso_failure,
  Keeps-report_success,
}
use grokcli_2api.Pool.Failure.{held-report_failure, ineligible_of_held}
use grokcli_2api.Pool.Kept.{held-kick_from_pool, held-probe_failed}

-- One operation on the row of an account.
pub data LiveStep (row : Row) : Row → Type 0 where
  success : (env : Env) (model : Option String) → LiveStep row (report_success env model row)
  failure :
      (env : Env) (pol : Policy) (e : Classified) (model : Option String)
      → LiveStep row (report_failure env pol e model row)
  probe_fails :
      (env : Env) (pol : CooldownPolicy) (p : Probe) (e : UpstreamError)
      → LiveStep row (probe_failed env pol p e row).1
  blocks :
      (env : Env) (model reason source : String) (ttl : Option ℕ)
      → LiveStep row (block_model env model reason source ttl row)
  unblocks : (env : Env) (model : Option String) → LiveStep row (unblock_model env model row)
  prunes : (env : Env) → LiveStep row (prune_expired_model_blocks env row).0
  kicks :
      (env : Env) (reason : String) (cooldown_sec : Option ℕ)
      → LiveStep row (kick_from_pool env reason cooldown_sec row)
  switches : (env : Env) (on : Bool) → LiveStep row (set_account_enabled env on row)
  quota_off :
      (env : Env) (reason source : String) → LiveStep row (disable_for_quota env reason source row)
  quota_on : (env : Env) (reason : String) → LiveStep row (reenable_for_quota env reason row)
  expires : (env : Env) (reason : String) → LiveStep row (mark_account_expired env reason row)
  renews : (env : Env) (source : String) → LiveStep row (record_renew_success env source row)
  renew_fails :
      (env : Env) (error source : String)
      → LiveStep row (record_renew_failure env error source row).1
  sso_attempt : (env : Env) → LiveStep row (mark_sso_reauth_attempt env row)
  sso_failure :
      (env : Env) (error : String) (wait : ℕ)
      → LiveStep row (mark_sso_reauth_failure env error wait row)

-- Every step keeps a held account held.
pub held-LiveStep :
    {row after : Row} → LiveStep row after → is_held (read row) ≡ true → is_held (read after) ≡ true
held-LiveStep {row} (success env model) h = ap is_holding (Keeps-report_success env model row) ∙ h
held-LiveStep {row} (failure env pol e model) h = held-report_failure env pol e model row
held-LiveStep {row} (probe_fails env pol p e) h = held-probe_failed env pol p e row h
held-LiveStep {row} (blocks env model reason source ttl) h =
    ap is_holding (Keeps-block_model env model reason source ttl row) ∙ h
held-LiveStep {row} (unblocks env model) h = ap is_holding (Keeps-unblock_model env model row) ∙ h
held-LiveStep {row} (prunes env) h = ap is_holding (Keeps-prune env row) ∙ h
held-LiveStep {row} (kicks env reason wait) h = held-kick_from_pool env reason wait row h
held-LiveStep {row} (switches env on) h = ap is_holding (Keeps-set_account_enabled env on row) ∙ h
held-LiveStep {row} (quota_off env reason source) h =
    ap is_holding (Keeps-disable_for_quota env reason source row) ∙ h
held-LiveStep {row} (quota_on env reason) h =
    ap is_holding (Keeps-reenable_for_quota env reason row) ∙ h
held-LiveStep {row} (expires env reason) h =
    ap is_holding (Keeps-mark_account_expired env reason row) ∙ h
held-LiveStep {row} (renews env source) h =
    ap is_holding (Keeps-record_renew_success env source row) ∙ h
held-LiveStep {row} (renew_fails env error source) h =
    ap is_holding (Keeps-record_renew_failure env error source row) ∙ h
held-LiveStep {row} (sso_attempt env) h = ap is_holding (Keeps-sso_attempt env row) ∙ h
held-LiveStep {row} (sso_failure env error wait) h =
    ap is_holding (Keeps-sso_failure env error wait row) ∙ h

-- The table: a row for each account.
abbrev pub Table : Type 0
Table = String → Row

abbrev pub set_row : Table → String → Row → Table
set_row t id row j = if str_eq id j then row else t j

-- A run: steps on any accounts, in any order. An empty id is passed over by every operation.
pub data Run (t : Table) : Table → Type 0 where
  here : Run t t
  next :
      {u : Table} (id : String) {after : Row}
      → Run t u
      → LiveStep (u id) after
      → Run t (set_row u id after)

held-set_row :
    (t : Table) (id j : String) (row : Row)
    → (is_held (read (t id)) ≡ true → is_held (read row) ≡ true)
    → is_held (read (t j)) ≡ true
    → is_held (read (set_row t id row j)) ≡ true
held-set_row t id j row step h = elim (Bool-cases (str_eq id j)) [
  | inl same ↦ rw same (step (rw ((eq_iff id j).0 same) h))
  | inr other ↦ rw other h
]

held-Run :
    {t u : Table} (id : String)
    → Run t u
    → is_held (read (t id)) ≡ true
    → is_held (read (u id)) ≡ true
held-Run id here h = h
held-Run id (next {u} other {after} run step) h =
    held-set_row u other id after (held-LiveStep step) (held-Run id run h)

-- Once a request on an account has failed, no run of the pool makes the account eligible again, for
-- any credential, model and time: the runs hold every operation on every account but the successful
-- probe, `clear_account_cooldown` and the removal of the account.
pub failure_holds :
    (t : Table) (id : String) (env : Env) (pol : Policy) (e : Classified) (failed : Option String)
    {u : Table}
    → Run (set_row t id (report_failure env pol e failed (t id))) u
    → (now : ℕ) (c : Credentials) (model : Option String)
    → is_eligible now c (read (u id)) model ≡ false
failure_holds t id env pol e failed {u} run now c model =
    ineligible_of_held now c (read (u id)) model (held-Run id run held)
  where
    held : is_held (read (set_row t id (report_failure env pol e failed (t id)) id)) ≡ true
    held = rw (eq_refl id) (held-report_failure env pol e failed (t id))
