-- ===== src/Pool/Tests.antt =====
-- The pool's theorems at concrete inputs.
use grokcli_2api.Base.{
  List, ◌+◌, ◌*◌, ◌≤◌, ◌≡◌, refl, true, false, not, none, some, [], ◌∷◌, arith, ltb, max, min, ◌/◌,
}
use grokcli_2api.Pool.Meta.{read, no_meta}
use grokcli_2api.Pool.Status.{
  patch_pool_meta, apply_pool_state_event, derive_pool_status, file_pool_status,
}
use grokcli_2api.Pool.Cooldown.{cooldown_base, cooldown_seconds, compute_cooldown_seconds}
use grokcli_2api.Pool.Blocks.{
  block_model, is_model_blocked, prune_expired_model_blocks, remaining_block,
}
use grokcli_2api.Pool.View.{is_eligible, pool_meta}
use grokcli_2api.Base.Dict
use grokcli_2api.Pool.FreeUsage.{usage_signal}
use grokcli_2api.Pool.Admin.{set_account_enabled}
use grokcli_2api.Pool.Live.{report_failure, report_success}
use grokcli_2api.Pool.Probe.{probe_recovered}
use grokcli_2api.Pool.Renew.{record_renew_failure, record_renew_success}
use grokcli_2api.Pool.Lifecycle.{failure_holds, Run, here, next, success, switches}
use grokcli_2api.Pool.Recovery.{enable_keeps_hold, probe_restores}
use grokcli_2api.Pool.Windows.{cooldown_bounds}
use grokcli_2api.Pool.Events.{late_event, commit_outranks, statuses_agree}
use grokcli_2api.Pool.Blocking.{block_window, prune_unseen, has_distinct_keys}
use grokcli_2api.Pool.Renewal.{renewal_failure, renewal_restores}
use grokcli_2api.Pool.Escalation.{probes_kick, fail_probes}
use grokcli_2api.Pool.Kicks.{usage_failure_enables}
use grokcli_2api.Pool.Counted.{success_counted}
use grokcli_2api.Pool.Tally.{failure_counted}
use grokcli_2api.Pool.Twice.{unavailable_counted_twice}
use grokcli_2api.Pool.Pick.{Candidate, acquire, not_excluded, round_robin}
use grokcli_2api.Pool.Picking.{acquire_sound, Acquired}
use grokcli_2api.Pool.Samples.{
  gone, noon, evening, cooldowns, policy, bad_gateway, usage, spent, creds, probe, cooling, blocked,
  unrenewed, reset_streak, empty_table, after_failure, after_switch, timed_block,
}

-- A failure on one account, traffic on another, and the first switched on by hand.
Run-after_failure : Run after_failure after_switch
Run-after_failure = next "a" (next "b" here (success evening none)) (switches evening true)

failure_holds_example :
    is_eligible 99_000_000_000 creds (read (after_switch "a")) (some "grok-3") ≡ false
failure_holds_example =
    failure_holds empty_table "a" noon policy bad_gateway (some "grok-4") Run-after_failure
      99_000_000_000 creds (some "grok-3")

probe_restores_example :
    is_eligible 2_000_000 creds
      (read (probe_recovered noon (some "grok-4") (some cooling)))
      (some "grok-4")
    ≡ not (
        is_model_blocked 2_000_000 false
          (some "grok-4")
          (pool_meta 2_000_000 (read (probe_recovered noon (some "grok-4") (some cooling)))))
probe_restores_example =
    probe_restores noon (some "grok-4") cooling 2_000_000 creds (some "grok-4") refl refl refl refl

probes_kick_example :
    (is_eligible 2_000_000 creds
        (read (
          fail_probes cooldowns probe
            ((evening, bad_gateway.upstream) ∷ (noon, bad_gateway.upstream) ∷ [])
            none))
        none
      ≡ false)
    × ((read (
          fail_probes cooldowns probe
            ((evening, bad_gateway.upstream) ∷ (noon, bad_gateway.upstream) ∷ [])
            none)).probe_fail_streak
        ≡ 2)
probes_kick_example =
    probes_kick cooldowns probe evening bad_gateway.upstream ((noon, bad_gateway.upstream) ∷ [])
      none refl (omega arith) 2_000_000 creds none

failure_counted_example :
    ((read (report_failure noon policy bad_gateway none (some cooling))).request_count ≡ 4)
    × ((read (report_failure noon policy bad_gateway none (some cooling))).success_count ≡ 2)
    × ((read (report_failure noon policy bad_gateway none (some cooling))).fail_count ≡ 2)
failure_counted_example = failure_counted noon policy bad_gateway none (some cooling) refl refl

success_counted_example :
    ((read (report_success noon none (some cooling))).request_count ≡ 4)
    × ((read (report_success noon none (some cooling))).success_count ≡ 3)
    × ((read (report_success noon none (some cooling))).fail_count ≡ 1)
success_counted_example = success_counted noon none (some cooling)

late_event_example :
    apply_pool_state_event 6 reset_streak 3 (apply_pool_state_event 5 reset_streak 9 (some cooling))
    ≡ apply_pool_state_event 5 reset_streak 9 (some cooling)
late_event_example = late_event 5 6 reset_streak reset_streak 9 3 (some cooling) (omega arith)

commit_outranks_example :
    apply_pool_state_event 6 reset_streak 7
      (some (patch_pool_meta noon reset_streak (some cooling)))
    ≡ some (patch_pool_meta noon reset_streak (some cooling))
commit_outranks_example =
    commit_outranks noon 6 reset_streak reset_streak 7 (some cooling) (omega arith)

statuses_agree_example : derive_pool_status 1_000_000 cooling ≡ file_pool_status 1_000_000 cooling
statuses_agree_example = statuses_agree 1_000_000 cooling refl refl refl

enable_keeps_hold_example :
    is_eligible 99_000_000 creds (read (set_account_enabled noon true (some cooling))) none ≡ false
enable_keeps_hold_example = enable_keeps_hold noon (some cooling) 99_000_000 creds none refl

usage_failure_enables_example :
    ((read (report_failure noon policy spent (some "grok-4") (some cooling))).disabled_for_quota
      ≡ false)
    × ((read (report_failure noon policy spent (some "grok-4") (some cooling))).enabled ≡ true)
unfolding usage_signal
usage_failure_enables_example =
    usage_failure_enables noon policy spent (some "grok-4") (some cooling) usage refl

in_span : 9 ≤ 2 * (cooldown_seconds cooldowns (some 429) 3 (some 60_000) false * 15 / 100)
unfolding cooldown_seconds
in_span = omega arith

cooldown_bounds_example :
    (compute_cooldown_seconds cooldowns (some 429) 3 (some 60_000) false 9 * 100 ≤ 600_000 * 115)
    × (min 600_000 (cooldown_base cooldowns (some 429) false) * 85
        ≤ compute_cooldown_seconds cooldowns (some 429) 3 (some 60_000) false 9 * 100)
    × (min 60_000 600_000 * 85
        ≤ compute_cooldown_seconds cooldowns (some 429) 3 (some 60_000) false 9 * 100)
    × (cooldown_seconds cooldowns (some 429) 3 (some 60_000) false
        ≤ cooldown_seconds cooldowns (some 429) 5 (some 60_000) false)
    × (cooldown_seconds cooldowns (some 429) 7 (some 60_000) false
        ≡ min 600_000 (4 * max (cooldown_base cooldowns (some 429) false) (min 60_000 600_000)))
    × (compute_cooldown_seconds cooldowns
          (some 429)
          3
          (some 60_000)
          false
          (2 * (cooldown_seconds cooldowns (some 429) 3 (some 60_000) false * 15 / 100))
        ≡ cooldown_seconds cooldowns (some 429) 3 (some 60_000) false
          + cooldown_seconds cooldowns (some 429) 3 (some 60_000) false * 15 / 100)
cooldown_bounds_example = cooldown_bounds cooldowns (some 429) 3 2 (some 60_000) false 9 in_span

block_window_example :
    is_model_blocked 1_200_000 false
      (some "grok-4")
      (read (block_model noon "grok-4" "slow" "soft" (some 500_000) (some blocked)))
    ≡ ltb 1_200_000 (1_000_000 + (remaining_block 1_000_000 (some timed_block) + 500_000))
unfolding Dict.get
block_window_example =
    block_window noon "grok-4" "slow" "soft" 500_000 (some blocked) 1_200_000 refl refl

prune_unseen_example :
    is_model_blocked 1_000_001 false
      (some "grok-3")
      (read (prune_expired_model_blocks noon (some blocked)).0)
    ≡ is_model_blocked 1_000_001 false (some "grok-3") blocked
unfolding has_distinct_keys Dict.get
prune_unseen_example = prune_unseen noon (some blocked) 1_000_001 (some "grok-3") (omega arith) refl

renewal_failure_example :
    (is_eligible 2_000_000 creds
        (read (record_renew_failure noon "boom" "oidc" (some unrenewed)).1)
        none
      ≡ false)
    × ((record_renew_failure noon "boom" "oidc" (some unrenewed)).0 ≡ 3)
    × ((read (record_renew_failure noon "boom" "oidc" (some unrenewed)).1).renew_fail_count
        ≡ (record_renew_failure noon "boom" "oidc" (some unrenewed)).0)
    × ((read (record_renew_failure noon "boom" "oidc" (some unrenewed)).1).token_expired_at
        ≡ some 900_000)
renewal_failure_example = renewal_failure noon "boom" "oidc" (some unrenewed) 2_000_000 creds none

renewal_restores_example :
    is_eligible 2_000_000 creds (read (record_renew_success noon "oidc" (some unrenewed))) none
    ≡ not (
        is_model_blocked 2_000_000 false none
          (pool_meta 2_000_000 (read (record_renew_success noon "oidc" (some unrenewed)))))
renewal_restores_example =
    renewal_restores noon "oidc" unrenewed 2_000_000 creds none refl refl refl refl refl

unavailable_counted_twice_example :
    ((read (report_failure noon policy gone (some "grok-9") (some cooling))).request_count ≡ 5)
    × ((read (report_failure noon policy gone (some "grok-9") (some cooling))).fail_count ≡ 3)
unavailable_counted_twice_example =
    unavailable_counted_twice noon policy gone "grok-9" (some cooling) refl refl refl refl refl

abbrev live : List Candidate
live =
    record { creds = creds; row = cooling }
    ∷ record { creds = record creds { auth_key = "b" }; row = no_meta }
    ∷ record { creds = record creds { auth_key = "c" }; row = blocked }
    ∷ []

acquire_sound_example :
    Acquired 1_000_000
      (some "grok-4")
      (not_excluded ("b" ∷ []) live)
      (acquire 1_000_000 (round_robin 3) ("b" ∷ []) (some "grok-4") live)
acquire_sound_example = acquire_sound 1_000_000 (round_robin 3) ("b" ∷ []) (some "grok-4") live
