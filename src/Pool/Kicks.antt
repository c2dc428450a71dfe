-- ===== src/Pool/Kicks.antt =====
-- Free-usage kicks of grok2api/pool/account_pool.py: the stacked count, the refresh of a repeated hit,
-- and the flags that a kick resets.
use grokcli_2api.Base.{
  ℕ, ◌+◌, ◌-◌, ◌≤◌, ◌≡◌, refl, ap, ◌∙◌, String, Bool, true, false, Option, none, some, List, [],
  ◌∷◌, ltb, leb, ◌||◌, arith, is_empty,
}
use grokcli_2api.Pool.Meta.{AccountMeta, Row, read, StatusEntry}
use grokcli_2api.Pool.Status.{Env, Patch, patch_pool_meta, is_after, or_fresh}
use grokcli_2api.Pool.Cooldown.{free_usage_stack_max, free_usage_restack_min, probe_hold}
use grokcli_2api.Pool.View.{pool_meta}
use grokcli_2api.Pool.FreeUsage.{
  UpstreamError, UsageSignal, Kick, apply_free_usage_cooldown, kick_account, kick_patch,
  usage_signal, weigh_hit, last_hit_at, hold_until, usage_entry,
}
use grokcli_2api.Pool.Stats.{
  StatsUpdate, touch_account_stats, outcome_patch, stats_patch, counter_patch,
}
use grokcli_2api.Pool.Upstream.{Classified, Policy}
use grokcli_2api.Pool.Live.{
  report_failure, act_on_error, cool_down, count_usage_failure, usage_failure_update,
}
use grokcli_2api.Pool.Failure.{weigh_hit-count}

hold_until_lem :
    (now : ℕ) (active : Bool) (until : Option ℕ) → now + probe_hold ≤ hold_until now active until
unfolding hold_until
hold_until_lem now active none = omega arith
hold_until_lem now active (some u) = ground arith

-- A kick reports between one and four hits and stores the count that it reports; the marker that it
-- stores is the reported one, and a year away at least.
pub kick_bounds :
    (env : Env) (p : UsageSignal) (code : Option ℕ) (source : String) (row : Row)
    → (1 ≤ (kick_account env p code source row).0.cooldown_count)
      × ((kick_account env p code source row).0.cooldown_count ≤ free_usage_stack_max)
      × ((read (kick_account env p code source row).1).cooldown_count
          ≡ (kick_account env p code source row).0.cooldown_count)
      × ((read (kick_account env p code source row).1).cooldown_until
          ≡ some (kick_account env p code source row).0.cooldown_until)
      × (env.now + probe_hold ≤ (kick_account env p code source row).0.cooldown_until)
unfolding kick_account patch_pool_meta kick_patch
kick_bounds env p code source row =
    let hit = weigh_hit-count env.now meta (usage_entry env.now p code source) in
    (
      hit.0,
      hit.1,
      refl,
      refl,
      hold_until_lem env.now
          (weigh_hit env.now meta (usage_entry env.now p code source)).still_active
          meta.cooldown_until,
    )
  where
    meta : AccountMeta
    meta = pool_meta env.now (read row)

repeated-weigh_hit :
    (now : ℕ) (meta : AccountMeta) (e : StatusEntry)
    → is_after meta.cooldown_until now ≡ true
    → is_empty meta.status_stack ≡ false
    → ltb (now - last_hit_at meta meta.status_stack) free_usage_restack_min
        || leb free_usage_stack_max meta.cooldown_count
      ≡ true
    → (weigh_hit now meta e).stack ≡ meta.status_stack
unfolding weigh_hit
repeated-weigh_hit now meta e a n r = ground arith

last_hit_at-pool_meta :
    (now : ℕ) (m : AccountMeta) (stack : List StatusEntry)
    → last_hit_at (pool_meta now m) stack ≡ last_hit_at m stack
unfolding last_hit_at pool_meta
last_hit_at-pool_meta now m [] = refl
last_hit_at-pool_meta now m (e ∷ []) = refl
last_hit_at-pool_meta now m (e ∷ f ∷ es) = last_hit_at-pool_meta now m (f ∷ es)

stack-kick :
    (env : Env) (p : UsageSignal) (code : Option ℕ) (source : String) (row : Row)
    → (read (kick_account env p code source row).1).status_stack
      ≡ (weigh_hit env.now (pool_meta env.now (read row)) (usage_entry env.now p code source)).stack
unfolding kick_account patch_pool_meta kick_patch
stack-kick env p code source row = refl

recent_view :
    (now : ℕ) (m : AccountMeta)
    → ltb (now - last_hit_at m m.status_stack) free_usage_restack_min
        || leb free_usage_stack_max m.cooldown_count
      ≡ true
    → ltb (now - last_hit_at (pool_meta now m) m.status_stack) free_usage_restack_min
        || leb free_usage_stack_max m.cooldown_count
      ≡ true
recent_view now m h = rw (last_hit_at-pool_meta now m m.status_stack) h

-- A repeated hit only refreshes: while the marker is in force, a hit within half a minute of the last
-- entry, or on an account that counts four hits, leaves the stack of entries as it is.
pub repeated_kick :
    (env : Env) (p : UsageSignal) (code : Option ℕ) (source : String) (row : Row)
    → is_after (read row).cooldown_until env.now ≡ true
    → is_empty (read row).status_stack ≡ false
    → ltb (env.now - last_hit_at (read row) (read row).status_stack) free_usage_restack_min
        || leb free_usage_stack_max (read row).cooldown_count
      ≡ true
    → (read (kick_account env p code source row).1).status_stack ≡ (read row).status_stack
unfolding pool_meta
repeated_kick env p code source row active stacked again =
    stack-kick env p code source row
    ∙ repeated-weigh_hit env.now (pool_meta env.now (read row)) (usage_entry env.now p code source)
        active stacked (recent_view env.now (read row) again)

-- The two switches that take an account out of rotation by hand or for quota.
abbrev switches : AccountMeta → Bool × Bool
switches m = (m.disabled_for_quota, m.enabled)

switches-kick :
    (env : Env) (p : UsageSignal) (code : Option ℕ) (source : String) (row : Row)
    → switches (read (kick_account env p code source row).1) ≡ (false, true)
unfolding kick_account patch_pool_meta kick_patch
switches-kick env p code source row = refl

switches-outcome : (u : StatsUpdate) (m : AccountMeta) → switches (outcome_patch u m) ≡ switches m
unfolding outcome_patch
switches-outcome u m = ground arith

switches-stats :
    (now : ℕ) (u : StatsUpdate) (cur m : AccountMeta)
    → switches (stats_patch now u cur m) ≡ switches (outcome_patch u m)
unfolding stats_patch counter_patch
switches-stats now u cur m = ground arith

switches-or_fresh : (row : Row) → switches (or_fresh row) ≡ switches (read row)
switches-or_fresh none = refl
switches-or_fresh (some m) = refl

switches-commit :
    (env : Env) (patch : Patch) (row : Row)
    → switches (patch_pool_meta env patch row) ≡ switches (patch (or_fresh row))
unfolding patch_pool_meta
switches-commit env patch row = refl

switches-count :
    (env : Env) (e : Classified) (streak : ℕ) (kick : Kick) (row : Row)
    → switches (read (count_usage_failure env e streak kick row)) ≡ switches (read row)
unfolding count_usage_failure touch_account_stats usage_failure_update
switches-count env e streak kick row =
    switches-commit env (stats_patch env.now update written) (some written)
    ∙ switches-stats env.now update written written
    ∙ switches-outcome update written
    ∙ switches-commit env (outcome_patch update) row
    ∙ switches-outcome update (or_fresh row)
    ∙ switches-or_fresh row
  where
    update : StatsUpdate
    update = usage_failure_update e streak kick

    written : AccountMeta
    written = patch_pool_meta env (outcome_patch update) row

kick_of_signal :
    (env : Env) (e : UpstreamError) (model : Option String) (source : String) (row : Row)
    (s : UsageSignal)
    → usage_signal e model ≡ some s
    → apply_free_usage_cooldown env e model source row
      ≡ some (kick_account env s e.status_code source row)
unfolding apply_free_usage_cooldown
kick_of_signal env e model source row s h = rw (h, apply_free_usage_cooldown) refl

switches-failure :
    (env : Env) (pol : Policy) (e : Classified) (model : Option String) (row : Row)
    (s : UsageSignal)
    → usage_signal e.upstream model ≡ some s
    → switches (read (report_failure env pol e model row)) ≡ (false, true)
unfolding report_failure cool_down
switches-failure env pol e model row s h =
    rw (kick_of_signal env e.upstream model "live" acted s h) (
      switches-count env e streak kicked.0 kicked.1
      ∙ switches-kick env s e.status_code "live" acted)
  where
    acted : Row
    acted = act_on_error env pol e model row

    streak : ℕ
    streak = (pool_meta env.now (read row)).consecutive_fails + 1

    kicked : Kick × Row
    kicked = kick_account env s e.status_code "live" acted

-- After a request that failed with a free-usage signal the account is enabled and not disabled for
-- quota, also where the same error had disabled it for quota.
pub usage_failure_enables :
    (env : Env) (pol : Policy) (e : Classified) (model : Option String) (row : Row)
    (s : UsageSignal)
    → usage_signal e.upstream model ≡ some s
    → ((read (report_failure env pol e model row)).disabled_for_quota ≡ false)
      × ((read (report_failure env pol e model row)).enabled ≡ true)
usage_failure_enables env pol e model row s h = (
  ap (λ x. x.0) (switches-failure env pol e model row s h),
  ap (λ x. x.1) (switches-failure env pol e model row s h),
)
