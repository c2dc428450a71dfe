-- ===== src/Pool/Escalation.antt =====
-- Failing probes: the streak that they count, and the hold that ends it.
use grokcli_2api.Base.{
  ℕ, ◌+◌, ◌≤◌, ◌≡◌, refl, String, true, false, Option, none, some, List, [], ◌∷◌, leb, length,
  arith, Bool-cases, inl, inr, le→leb,
}
use grokcli_2api.Pool.Meta.{AccountMeta, Row, read}
use grokcli_2api.Pool.Status.{Env, patch_pool_meta}
use grokcli_2api.Pool.Cooldown.{CooldownPolicy}
use grokcli_2api.Pool.View.{pool_meta, Credentials, is_eligible}
use grokcli_2api.Pool.FreeUsage.{UpstreamError, Kick, apply_free_usage_cooldown, usage_signal}
use grokcli_2api.Pool.Probe.{
  Probe, recorded, probe_failed, after_usage_check, escalate, streak_patch, failed_patch,
  escalated_patch,
}
use grokcli_2api.Pool.Commit.{hold, is_held}
use grokcli_2api.Pool.Failure.{
  ineligible_of_held, KickHolds, apply_free_usage-KickHolds, held_of_Keeps,
}
use grokcli_2api.Pool.Kept.{held-escalated, Keeps-streak_patch, Keeps-failed}

abbrev streak : Row → ℕ
streak row = (read row).probe_fail_streak

streak-after :
    (env : Env) (pol : CooldownPolicy) (p : Probe) (e : UpstreamError) (meta : AccountMeta)
    (row : Row) (answer : Option (Kick × Row))
    → streak (after_usage_check env pol p e meta row answer).1 ≡ meta.probe_fail_streak + 1
unfolding after_usage_check escalate streak_patch failed_patch escalated_patch patch_pool_meta
streak-after env pol p e meta row (some (kick, held)) = refl
streak-after env pol p e meta row none = ground arith

-- Each failing probe adds one to the stored streak, whatever its error.
streak-probe_failed :
    (env : Env) (pol : CooldownPolicy) (p : Probe) (e : UpstreamError) (row : Row)
    → streak (probe_failed env pol p e row).1 ≡ streak row + 1
unfolding probe_failed pool_meta
streak-probe_failed env pol p e row =
    streak-after env pol p e (pool_meta env.now (read row)) row
      (apply_free_usage_cooldown env e p.model p.source row)

held-long :
    (env : Env) (pol : CooldownPolicy) (p : Probe) (e : UpstreamError) (meta : AccountMeta)
    (row : Row) (answer : Option (Kick × Row))
    → KickHolds answer
    → p.auto_kick ≡ true
    → pol.probe_fail_kick_streak ≤ meta.probe_fail_streak + 1
    → is_held (read (after_usage_check env pol p e meta row answer).1) ≡ true
unfolding after_usage_check escalate
held-long env pol p e meta row (some (kick, held)) k auto long =
    held_of_Keeps held
      (some (patch_pool_meta env (streak_patch env.now (meta.probe_fail_streak + 1)) held))
      (Keeps-streak_patch env (meta.probe_fail_streak + 1) held) k
held-long env pol p e meta row none k auto long =
    let test = le→leb pol.probe_fail_kick_streak (meta.probe_fail_streak + 1) long in
    rw (auto, test) (held-escalated env (meta.probe_fail_streak + 1) p e meta row)

held-probe_failed_long :
    (env : Env) (pol : CooldownPolicy) (p : Probe) (e : UpstreamError) (row : Row)
    → p.auto_kick ≡ true
    → pol.probe_fail_kick_streak ≤ streak row + 1
    → is_held (read (probe_failed env pol p e row).1) ≡ true
unfolding probe_failed pool_meta
held-probe_failed_long env pol p e row auto long =
    held-long env pol p e (pool_meta env.now (read row)) row
      (apply_free_usage_cooldown env e p.model p.source row)
      (apply_free_usage-KickHolds env e p.model p.source row) auto long

-- Failing probes in a row, the latest first.
abbrev pub Failures : Type 0
Failures = List (Env × UpstreamError)

unfoldable pub fail_probes : CooldownPolicy → Probe → Failures → Row → Row
fail_probes pol p [] row = row
fail_probes pol p ((env, e) ∷ earlier) row =
    (probe_failed env pol p e (fail_probes pol p earlier row)).1

streak-fail_probes :
    (pol : CooldownPolicy) (p : Probe) (es : Failures) (row : Row)
    → streak (fail_probes pol p es row) ≡ streak row + length es
unfolding fail_probes
streak-fail_probes pol p [] row = omega arith
streak-fail_probes pol p ((env, e) ∷ earlier) row =
    rw (streak-probe_failed env pol p e (fail_probes pol p earlier row))
      (omega (arith, streak-fail_probes pol p earlier row))

-- Probes with automatic kicks that fail in a row, whatever their errors, take their account out of
-- rotation once the streak that was stored before them and their number reach the threshold: the
-- account is then eligible for no credential, model and time. The stored streak grows by one with each.
pub probes_kick :
    (pol : CooldownPolicy) (p : Probe) (env : Env) (e : UpstreamError) (earlier : Failures)
    (row : Row)
    → p.auto_kick ≡ true
    → pol.probe_fail_kick_streak ≤ (read row).probe_fail_streak + length ((env, e) ∷ earlier)
    → (now : ℕ) (c : Credentials) (model : Option String)
    → (is_eligible now c (read (fail_probes pol p ((env, e) ∷ earlier) row)) model ≡ false)
      × ((read (fail_probes pol p ((env, e) ∷ earlier) row)).probe_fail_streak
          ≡ (read row).probe_fail_streak + length ((env, e) ∷ earlier))
unfolding fail_probes
probes_kick pol p env e earlier row auto long now c model = (
  ineligible_of_held now c (read (fail_probes pol p ((env, e) ∷ earlier) row)) model (
      held-probe_failed_long env pol p e (fail_probes pol p earlier row) auto
        (omega (arith, streak-fail_probes pol p earlier row))),
  streak-fail_probes pol p ((env, e) ∷ earlier) row,
)

pub no_kick :
    (env : Env) (e : UpstreamError) (model : Option String) (source : String) (row : Row)
    → usage_signal e model ≡ none
    → apply_free_usage_cooldown env e model source row ≡ none
unfolding apply_free_usage_cooldown
no_kick env e model source row h = rw (h, apply_free_usage_cooldown) refl

short-escalate :
    (env : Env) (pol : CooldownPolicy) (p : Probe) (e : UpstreamError) (meta : AccountMeta)
    (row : Row)
    → leb pol.probe_fail_kick_streak (meta.probe_fail_streak + 1) ≡ false
    → ((escalate env pol p e meta row).0 ≡ recorded)
      × (hold (read (escalate env pol p e meta row).1) ≡ hold (read row))
unfolding escalate
short-escalate env pol p e meta row short = elim (Bool-cases p.auto_kick) [
  | inl auto ↦ rw (auto, short) (refl, Keeps-failed env (meta.probe_fail_streak + 1) p.model e row)
  | inr manual ↦ rw manual (refl, Keeps-failed env (meta.probe_fail_streak + 1) p.model e row)
]

-- Below the threshold a probe that fails with no usage signal is only recorded: the hold of the
-- account stays as it was.
pub probe_recorded :
    (env : Env) (pol : CooldownPolicy) (p : Probe) (e : UpstreamError) (row : Row)
    → usage_signal e p.model ≡ none
    → leb pol.probe_fail_kick_streak ((read row).probe_fail_streak + 1) ≡ false
    → ((probe_failed env pol p e row).0 ≡ recorded)
      × (hold (read (probe_failed env pol p e row).1) ≡ hold (read row))
unfolding probe_failed after_usage_check pool_meta
probe_recorded env pol p e row silent short =
    rw (no_kick env e p.model p.source row silent)
      (short-escalate env pol p e (pool_meta env.now (read row)) row short)
