-- ===== src/Pool/Recovery.antt =====
-- The operations that are to bring an account back (grok2api/pool/account_pool.py): a successful
-- probe, `clear_account_cooldown`, and enabling the account by hand.
use grokcli_2api.Base.{
  ℕ, ◌≡◌, ◌∙◌, ap, refl, String, true, false, Option, none, some, [], arith, not,
}
use grokcli_2api.Pool.Meta.{AccountMeta, Row, read}
use grokcli_2api.Pool.Status.{
  Env, Patch, or_fresh, patch_pool_meta, is_in_cooldown, derive_pool_status, is_renewal_broken,
  is_status_expired,
}
use grokcli_2api.Pool.Blocks.{is_model_blocked}
use grokcli_2api.Pool.View.{pool_meta, Credentials, is_eligible}
use grokcli_2api.Pool.Admin.{clear_account_cooldown, clear_patch, set_account_enabled}
use grokcli_2api.Pool.Probe.{probe_recovered, recovery_patch}
use grokcli_2api.Pool.Commit.{status-commit, is_held, is_holding}
use grokcli_2api.Pool.Hold.{Keeps-set_account_enabled}
use grokcli_2api.Pool.Failure.{ineligible_of_held}

-- With no hold and no marker the derived status does not cool, and the account is out of cooldown.
pub warm_of_clear :
    (now later : ℕ) (m : AccountMeta)
    → m.cooldown_count ≡ 0
    → m.status_stack ≡ []
    → m.cooldown_until ≡ none
    → m.pool_status ≡ some (derive_pool_status now m)
    → is_in_cooldown later m ≡ false
unfolding is_in_cooldown derive_pool_status
warm_of_clear now later m c s u p = ground arith

-- A patch that clears the hold and the marker.
abbrev Clears : Patch → Type 0
Clears p =
    (m : AccountMeta)
    → ((p m).cooldown_count ≡ 0) × ((p m).status_stack ≡ []) × ((p m).cooldown_until ≡ none)

warm_of_commit :
    (env : Env) (p : Patch) (row : Row) (later : ℕ)
    → Clears p
    → is_in_cooldown later (patch_pool_meta env p row) ≡ false
unfolding patch_pool_meta
warm_of_commit env p row later clears =
    warm_of_clear env.now later (patch_pool_meta env p row) c.0 c.1 c.2 (status-commit env p row)
  where
    c :
        ((p (or_fresh row)).cooldown_count ≡ 0)
        × ((p (or_fresh row)).status_stack ≡ [])
        × ((p (or_fresh row)).cooldown_until ≡ none)
    c = clears (or_fresh row)

-- After a successful probe the account is out of cooldown, at every later time, whatever its row was.
pub probe_warms :
    (env : Env) (model : Option String) (row : Row) (later : ℕ)
    → is_in_cooldown later (read (probe_recovered env model row)) ≡ false
unfolding probe_recovered recovery_patch
probe_warms env model row later =
    warm_of_commit env (recovery_patch env.now model (pool_meta env.now (read row))) row later
      (λ m. (refl, refl, refl))

-- After `clear_account_cooldown` the account is out of cooldown, at every later time, whatever its row
-- was.
pub clear_warms :
    (env : Env) (row : Row) (later : ℕ)
    → is_in_cooldown later (read (clear_account_cooldown env row)) ≡ false
unfolding clear_account_cooldown clear_patch
clear_warms env row later = warm_of_commit env clear_patch row later (λ m. (refl, refl, refl))

-- Enabling a held account by hand leaves it out of rotation, for every credential, model and time.
pub enable_keeps_hold :
    (env : Env) (row : Row) (now : ℕ) (c : Credentials) (model : Option String)
    → is_held (read row) ≡ true
    → is_eligible now c (read (set_account_enabled env true row)) model ≡ false
enable_keeps_hold env row now c model h =
    ineligible_of_held now c (read (set_account_enabled env true row)) model
      (ap is_holding (Keeps-set_account_enabled env true row) ∙ h)

warm_view :
    (now : ℕ) (m : AccountMeta)
    → is_in_cooldown now m ≡ false
    → is_in_cooldown now (pool_meta now m) ≡ false
unfolding is_in_cooldown pool_meta
warm_view now m warm = ground arith

unexpired_view :
    (now : ℕ) (m : AccountMeta)
    → is_status_expired m.pool_status ≡ false
    → is_renewal_broken m.last_renew_status ≡ false
    → is_status_expired (pool_meta now m).pool_status ≡ false
unfolding pool_meta
unexpired_view now m s r = ground arith

enabled_view : (now : ℕ) (m : AccountMeta) → (pool_meta now m).enabled ≡ m.enabled
unfolding pool_meta
enabled_view now m = refl

-- What a row needs for eligibility beside being out of cooldown.
pub view_eligible :
    (now : ℕ) (c : Credentials) (m : AccountMeta) (model : Option String)
    → c.expired ≡ false
    → m.enabled ≡ true
    → is_in_cooldown now m ≡ false
    → is_status_expired m.pool_status ≡ false
    → is_renewal_broken m.last_renew_status ≡ false
    → is_eligible now c m model ≡ not (is_model_blocked now false model (pool_meta now m))
unfolding is_eligible
view_eligible now c m model e on warm s r =
    ground (arith, warm_view now m warm, unexpired_view now m s r, enabled_view now m)

unexpired_probe :
    (env : Env) (model : Option String) (m : AccountMeta)
    → m.token_expired_at ≡ none
    → is_status_expired (read (probe_recovered env model (some m))).pool_status ≡ false
unfolding probe_recovered recovery_patch patch_pool_meta derive_pool_status
unexpired_probe env model m t = ground arith

enabled_probe :
    (env : Env) (model : Option String) (m : AccountMeta)
    → m.enabled ≡ true
    → (read (probe_recovered env model (some m))).enabled ≡ true
unfolding probe_recovered recovery_patch patch_pool_meta
enabled_probe env model m on = ground arith

renewal_probe :
    (env : Env) (model : Option String) (m : AccountMeta)
    → (read (probe_recovered env model (some m))).last_renew_status ≡ m.last_renew_status
unfolding probe_recovered recovery_patch patch_pool_meta
renewal_probe env model m = refl

-- A probe that succeeds brings an enabled account with a sound token back into rotation: at every
-- later time, with a credential that has not expired, the account is eligible for exactly the models
-- that are not blocked then.
pub probe_restores :
    (env : Env) (model : Option String) (m : AccountMeta) (later : ℕ) (c : Credentials)
    (wanted : Option String)
    → m.enabled ≡ true
    → m.token_expired_at ≡ none
    → is_renewal_broken m.last_renew_status ≡ false
    → c.expired ≡ false
    → is_eligible later c (read (probe_recovered env model (some m))) wanted
      ≡ not (
          is_model_blocked later false wanted
            (pool_meta later (read (probe_recovered env model (some m)))))
probe_restores env model m later c wanted on t r e =
    view_eligible later c (read (probe_recovered env model (some m))) wanted e
      (enabled_probe env model m on) (probe_warms env model (some m) later)
      (unexpired_probe env model m t) (ap is_renewal_broken (renewal_probe env model m) ∙ r)
