-- ===== src/Pool/Failure.antt =====
-- What `_report_failure_impl` and a free-usage kick (grok2api/pool/account_pool.py) do to the hold of
-- an account, and what a hold means for eligibility.
use grokcli_2api.Base.{
  ℕ, ◌+◌, ◌≤◌, ◌≡◌, ◌∙◌, refl, String, true, false, Option, none, some, [], ◌∷◌, ◌++◌, arith,
  length, min, ap, length-take_last, length-append,
}
use grokcli_2api.Pool.Meta.{AccountMeta, StatusEntry, Row, read}
use grokcli_2api.Pool.Status.{Env, is_in_cooldown, patch_pool_meta}
use grokcli_2api.Pool.Cooldown.{stack_status_entry, free_usage_stack_max}
use grokcli_2api.Pool.View.{pool_meta, Credentials, is_eligible}
use grokcli_2api.Pool.FreeUsage.{
  UpstreamError, UsageSignal, Kick, apply_free_usage_cooldown, kick_account, usage_signal,
  weigh_hit,
}
use grokcli_2api.Pool.Stats.{StatsUpdate, touch_account_stats}
use grokcli_2api.Pool.Upstream.{Classified, Policy}
use grokcli_2api.Pool.Live.{
  report_failure, act_on_error, cool_down, stack_failure, failure_update, failure_patch,
  failure_entry, usage_failure_update,
}
use grokcli_2api.Pool.Commit.{hold, is_held, is_holding}
use grokcli_2api.Pool.Hold.{Keeps, Keeps-touch}

pub hold-pool_meta : (now : ℕ) (m : AccountMeta) → hold (pool_meta now m) ≡ hold m
unfolding pool_meta
hold-pool_meta now m = refl

pub cooling_of_held : (now : ℕ) (m : AccountMeta) → is_held m ≡ true → is_in_cooldown now m ≡ true
unfolding is_in_cooldown
cooling_of_held now m h = ground arith

-- A held account is eligible for no model, whatever its credential and the clock.
pub ineligible_of_held :
    (now : ℕ) (c : Credentials) (m : AccountMeta) (model : Option String)
    → is_held m ≡ true
    → is_eligible now c m model ≡ false
unfolding is_eligible
ineligible_of_held now c m model h =
    ground (arith, cooling_of_held now (pool_meta now m) (ap is_holding (hold-pool_meta now m) ∙ h))

-- The stack that an entry has been put on is not empty.
pub length-stack_status_entry :
    (m : AccountMeta) (e : StatusEntry)
    → length (stack_status_entry m e) ≡ min 50 (length m.status_stack + 1)
unfolding stack_status_entry
length-stack_status_entry m e =
    ground
      (arith, length-append m.status_stack (e ∷ []), length-take_last 50 (m.status_stack ++ e ∷ []))

pub weigh_hit-count :
    (now : ℕ) (meta : AccountMeta) (e : StatusEntry)
    → (1 ≤ (weigh_hit now meta e).count) × ((weigh_hit now meta e).count ≤ free_usage_stack_max)
unfolding weigh_hit
weigh_hit-count now meta e = ground arith

held-kick_account :
    (env : Env) (p : UsageSignal) (code : Option ℕ) (source : String) (row : Row)
    → is_held (read (kick_account env p code source row).1) ≡ true
unfolding kick_account patch_pool_meta
held-kick_account env p code source row =
    ground (arith, weigh_hit-count env.now (pool_meta env.now (read row)) _)

-- The answer of a free-usage check, if there is one, is a held row.
abbrev pub KickHolds : Option (Kick × Row) → Type 0
KickHolds none = Unit
KickHolds (some (kick, row)) = is_held (read row) ≡ true

pub apply_free_usage-KickHolds :
    (env : Env) (e : UpstreamError) (model : Option String) (source : String) (row : Row)
    → KickHolds (apply_free_usage_cooldown env e model source row)
unfolding apply_free_usage_cooldown
apply_free_usage-KickHolds env e model source row = of_signal (usage_signal e model)
  where
    of_signal :
        (s : Option UsageSignal)
        → KickHolds
            (elim s [ none ↦ none | some p ↦ some (kick_account env p e.status_code source row) ])
    of_signal none = tt
    of_signal (some p) = held-kick_account env p e.status_code source row

pub held_of_Keeps :
    (row after : Row) → Keeps row after → is_held (read row) ≡ true → is_held (read after) ≡ true
held_of_Keeps row after k h = ap is_holding k ∙ h

held-failure_patch :
    (env : Env) (e : Classified) (model : Option String) (meta : AccountMeta) (row : Row)
    → is_held (patch_pool_meta env (failure_patch env.now e model meta) row) ≡ true
unfolding patch_pool_meta failure_patch
held-failure_patch env e model meta row =
    ground (arith, length-stack_status_entry meta (failure_entry env.now e model))

held-stack_failure :
    (env : Env) (e : Classified) (model : Option String) (streak : ℕ) (meta : AccountMeta)
    (row : Row)
    → is_held (read (stack_failure env e model streak meta row)) ≡ true
unfolding stack_failure
held-stack_failure env e model streak meta row =
    held_of_Keeps stacked (some (touch_account_stats env update none stacked))
      (Keeps-touch env update none stacked) (held-failure_patch env e model meta row)
  where
    update : StatsUpdate
    update =
        failure_update env.now e streak
          (length (stack_status_entry meta (failure_entry env.now e model)))

    stacked : Row
    stacked = some (patch_pool_meta env (failure_patch env.now e model meta) row)

held-cool_down :
    (env : Env) (e : Classified) (model : Option String) (meta : AccountMeta) (row : Row)
    (answer : Option (Kick × Row))
    → KickHolds answer
    → is_held (read (cool_down env e model meta row answer)) ≡ true
unfolding cool_down
held-cool_down env e model meta row (some (kick, kicked)) h =
    held_of_Keeps kicked (some (touch_account_stats env update none kicked))
      (Keeps-touch env update none kicked) h
  where
    update : StatsUpdate
    update = usage_failure_update e (meta.consecutive_fails + 1) kick
held-cool_down env e model meta row none h =
    held-stack_failure env e model (meta.consecutive_fails + 1) meta row

pub held-report_failure :
    (env : Env) (pol : Policy) (e : Classified) (model : Option String) (row : Row)
    → is_held (read (report_failure env pol e model row)) ≡ true
unfolding report_failure
held-report_failure env pol e model row =
    held-cool_down env e model (pool_meta env.now (read row)) acted
      (apply_free_usage_cooldown env e.upstream model "live" acted)
      (apply_free_usage-KickHolds env e.upstream model "live" acted)
  where
    acted : Row
    acted = act_on_error env pol e model row
