-- ===== src/Pool/Renewal.antt =====
-- What expiry and renewal (grok2api/pool/account_pool.py) do to eligibility.
use grokcli_2api.Base.{
  ℕ, ◌+◌, ◌≡◌, refl, String, true, false, not, Option, none, some, [], arith, or_else,
}
use grokcli_2api.Pool.Meta.{AccountMeta, Row, read}
use grokcli_2api.Pool.Status.{
  Env, patch_pool_meta, is_status_expired, is_renewal_broken, is_in_cooldown, derive_pool_status,
}
use grokcli_2api.Pool.Blocks.{is_model_blocked}
use grokcli_2api.Pool.View.{pool_meta, Credentials, is_eligible, shown_status}
use grokcli_2api.Pool.Renew.{
  record_renew_failure, record_renew_success, clear_account_expired, renewed_patch,
  mark_account_expired,
}
use grokcli_2api.Pool.Commit.{status-commit}
use grokcli_2api.Pool.Recovery.{warm_of_clear, view_eligible}

-- An expired status in the row keeps the account out of rotation at every time.
ineligible_of_expired :
    (now : ℕ) (c : Credentials) (m : AccountMeta) (model : Option String)
    → is_status_expired m.pool_status ≡ true
    → is_eligible now c m model ≡ false
unfolding is_eligible pool_meta shown_status
ineligible_of_expired now c m model h = ground arith

expired-failure :
    (env : Env) (error source : String) (row : Row)
    → is_status_expired (read (record_renew_failure env error source row).1).pool_status ≡ true
unfolding record_renew_failure patch_pool_meta derive_pool_status
expired-failure env error source row = refl

expired-mark :
    (env : Env) (reason : String) (row : Row)
    → is_status_expired (read (mark_account_expired env reason row)).pool_status ≡ true
unfolding mark_account_expired patch_pool_meta derive_pool_status
expired-mark env reason row = refl

-- After a failed renewal the account is eligible for no credential, model and time, the count of
-- failures it returns is one more than the row's and is the stored one, and the time of the first
-- expiry stays.
pub renewal_failure :
    (env : Env) (error source : String) (row : Row) (now : ℕ) (c : Credentials)
    (model : Option String)
    → (is_eligible now c (read (record_renew_failure env error source row).1) model ≡ false)
      × ((record_renew_failure env error source row).0 ≡ (read row).renew_fail_count + 1)
      × ((read (record_renew_failure env error source row).1).renew_fail_count
          ≡ (record_renew_failure env error source row).0)
      × ((read (record_renew_failure env error source row).1).token_expired_at
          ≡ or_else (read row).token_expired_at (some env.now))
unfolding record_renew_failure patch_pool_meta
renewal_failure env error source row now c model = (
  ineligible_of_expired now c (read (record_renew_failure env error source row).1) model
      (expired-failure env error source row),
  refl,
  refl,
  refl,
)

-- An account that has been marked as expired is eligible for no credential, model and time.
pub expiry_holds :
    (env : Env) (reason : String) (row : Row) (now : ℕ) (c : Credentials) (model : Option String)
    → is_eligible now c (read (mark_account_expired env reason row)) model ≡ false
expiry_holds env reason row now c model =
    ineligible_of_expired now c (read (mark_account_expired env reason row)) model
      (expired-mark env reason row)

warm-renewed :
    (env : Env) (source : String) (m : AccountMeta) (later : ℕ)
    → m.cooldown_count ≡ 0
    → m.status_stack ≡ []
    → m.cooldown_until ≡ none
    → is_in_cooldown later (read (record_renew_success env source (some m))) ≡ false
unfolding record_renew_success clear_account_expired renewed_patch patch_pool_meta
warm-renewed env source m later n s u =
    warm_of_clear env.now later (read (record_renew_success env source (some m))) n s u
      (status-commit env (renewed_patch env.now source m) (some m))

sound-renewed :
    (env : Env) (source : String) (m : AccountMeta)
    → m.disabled_for_quota ≡ false
    → ((read (record_renew_success env source (some m))).enabled ≡ true)
      × (is_status_expired (read (record_renew_success env source (some m))).pool_status ≡ false)
      × (is_renewal_broken (read (record_renew_success env source (some m))).last_renew_status
          ≡ false)
unfolding record_renew_success clear_account_expired renewed_patch patch_pool_meta
    derive_pool_status
sound-renewed env source m q = ground arith

-- A successful renewal brings back an account that is not disabled for quota, counts no hits, has an
-- empty stack and no stored end of a cooldown, whatever expiry, failure count or removal marker it had:
-- at every later time, with a credential that has not expired, it is eligible for exactly the models
-- that are not blocked then.
pub renewal_restores :
    (env : Env) (source : String) (m : AccountMeta) (later : ℕ) (c : Credentials)
    (wanted : Option String)
    → m.disabled_for_quota ≡ false
    → m.cooldown_count ≡ 0
    → m.status_stack ≡ []
    → m.cooldown_until ≡ none
    → c.expired ≡ false
    → is_eligible later c (read (record_renew_success env source (some m))) wanted
      ≡ not (
          is_model_blocked later false wanted
            (pool_meta later (read (record_renew_success env source (some m)))))
renewal_restores env source m later c wanted q n s u e =
    view_eligible later c (read (record_renew_success env source (some m))) wanted e
      (sound-renewed env source m q).0 (warm-renewed env source m later n s u)
      (sound-renewed env source m q).1 (sound-renewed env source m q).2
