-- ===== src/Affinity/Tests.antt =====
-- The pins' theorems at concrete inputs.
use grokcli_2api.Base.{◌≡◌, ◌≢◌, refl, true, some, [], ◌∷◌, arith}
use grokcli_2api.Base.Dict
use grokcli_2api.Affinity.Pins.{
  Pin, Pins, PinRules, get_affinity, bind_affinity, rebind_on_failover, clear_affinity_for_account,
}
use grokcli_2api.Affinity.Cleared.{Reach, here, next, binds, fails_over, cleared_stays_unpinned}
use grokcli_2api.Affinity.Bound.{put-le-length}
use grokcli_2api.Affinity.Failover.{failover_swaps}

abbrev rules : PinRules
rules = record {
  enabled = true;
  ttl = 7_200_000;
  max_entries = 100;
  strip = λ s. s;
  lower = λ s. s;
}

abbrev pin : Pin
pin = record {
  account_id = "a";
  bound_at = 1_000;
  last_seen = 2_000;
  hits = 3;
  session_fp = "fp:1";
  prompt_cache_key = "";
}

-- Two conversations with one account.
abbrev two_pins : Pins
two_pins = ("fp:1", pin) ∷ ("resp:2", pin) ∷ []

abbrev cleared : Pins
cleared = clear_affinity_for_account "a" two_pins

-- Both come back: the first is bound to another account, and the second fails over twice.
abbrev resumed : Pins
resumed =
    rebind_on_failover rules 9_000 9_000 "resp:2" "b" "c" "" (λ n. n) (λ n. n)
      (rebind_on_failover rules 8_000 8_500 "resp:2" "a" "b" "fp:1" (λ n. n) (λ n. n)
        (bind_affinity rules 7_000 "fp:1" "b" "" "key" cleared))

Reach-resumed : Reach rules "a" cleared resumed
Reach-resumed =
    next
      (next (next here (binds 7_000 "fp:1" "b" "" "key" refl))
        (fails_over 8_000 8_500 "resp:2" "a" "b" "fp:1" refl))
      (fails_over 9_000 9_000 "resp:2" "b" "c" "" refl)

cleared_stays_unpinned_example : get_affinity rules 10_000 "fp:1" resumed ≢ some "a"
cleared_stays_unpinned_example =
    cleared_stays_unpinned rules "a" two_pins resumed refl Reach-resumed 10_000 "fp:1"

resumed_pins : get_affinity rules 10_000 "resp:2" resumed ≡ some "c"
unfolding get_affinity rebind_on_failover bind_affinity clear_affinity_for_account Dict.get Dict.put
resumed_pins = refl

get-two_pins : Dict.get "fp:1" two_pins ≡ some pin
unfolding Dict.get
get-two_pins = refl

-- Another request pins the conversation to "d" after the check.
abbrev rival : Pins → Pins
rival n = Dict.put "fp:1" (record pin { account_id = "d" }) n

failover_swaps_example :
    get_affinity rules 7_000_000 "fp:1"
      (rebind_on_failover rules 9_000 9_500 "fp:1" "a" "b" "" (λ n. n) rival two_pins)
    ≡ some "b"
failover_swaps_example =
    failover_swaps rules 9_000 9_500 7_000_000 "fp:1" "a" "b" "" 0 1 (λ n. n) rival two_pins pin
      refl refl refl refl refl (omega arith) get-two_pins (omega arith) (omega arith) (omega arith)
      (omega arith) (λ n. refl) (λ n. omega arith)
      (put-le-length "fp:1" (record pin { account_id = "d" }))

-- Another request has moved the pin from "c" to "a".
third_account :
    get_affinity rules 7_000_000 "fp:1"
      (rebind_on_failover rules 9_000 9_500 "fp:1" "c" "b" "" (λ n. n) (λ n. n) two_pins)
    ≡ some "a"
third_account =
    failover_swaps rules 9_000 9_500 7_000_000 "fp:1" "c" "b" "" 0 0 (λ n. n) (λ n. n) two_pins pin
      refl refl refl refl refl (omega arith) get-two_pins (omega arith) (omega arith) (omega arith)
      (omega arith) (λ n. refl) (λ n. omega arith) (λ n. omega arith)
