-- ===== src/Ready/Tests.antt =====
-- The theorems of the index at concrete inputs.
use grokcli_2api.Base.{
  ◌+◌, ◌≤◌, ◌<◌, ◌≡◌, refl, String, true, false, none, some, [], ◌∷◌, arith, take,
}
use grokcli_2api.Base.Dict
use grokcli_2api.Ready.Status.{is_open, stamp, merge}
use grokcli_2api.Ready.Rows.{row_meta}
use grokcli_2api.Ready.Index.{
  Index, empty_index, meta_of, claim, apply_status_patch, rebuild_ready_index,
}
use grokcli_2api.Ready.Publish.{account_state, publish_account_state}
use grokcli_2api.Ready.Placing.{member}
use grokcli_2api.Ready.Claiming.{Picked}
use grokcli_2api.Ready.Runs.{patches, claims, Reach, start, next, rebuilt}
use grokcli_2api.Ready.Leases.{leases_bounded}
use grokcli_2api.Ready.Served.{front, granted, claim_outcome, claim_serves}
use grokcli_2api.Ready.Versions.{Run, here, next as later, stored_version}
use grokcli_2api.Ready.Published.{Stands, published_applies, rebuild_drops_patch}
use grokcli_2api.Ready.Samples.{
  by_score, minute, normal, cooled, renewed, after_rebuild, after_patch, after_claim,
}

Reach-after_patch : Reach by_score 1 after_patch
Reach-after_patch =
    next (rebuilt ((minute 1, renewed) ∷ []) (tt, tt) start)
      (patches (minute 2) "a" normal (some 3))

Reach-after_claim : Reach by_score 1 after_claim
Reach-after_claim = next Reach-after_patch (claims (minute 3) false refl)

claim_served : (claim by_score (minute 4) false after_claim).0 ≡ some "c"
unfolding claim apply_status_patch rebuild_ready_index Dict.get Dict.put Dict.remove take
claim_served = refl

claim_serves_example :
    (after_claim.leases "c" < 1)
    × (member by_score "c" after_claim.cooldown ≡ false)
    × (is_open (meta_of (after_claim.status "c")) ≡ true)
claim_serves_example =
    claim_serves by_score after_claim Reach-after_claim (minute 4) false "c" refl claim_served

leases_bounded_example : after_claim.leases "a" ≤ 1
leases_bounded_example = leases_bounded by_score Reach-after_claim "a"

claim_outcome_example :
    Picked 1 after_claim.leases
      (front by_score after_claim)
      (claim by_score (minute 4) false after_claim).0
    × ((b : String)
        → (claim by_score (minute 4) false after_claim).1.leases b
          ≡ after_claim.leases b + granted (claim by_score (minute 4) false after_claim).0 b)
    × ((claim by_score (minute 4) false after_claim).1.status ≡ after_claim.status)
    × ((claim by_score (minute 4) false after_claim).1.cooldown ≡ after_claim.cooldown)
claim_outcome_example = claim_outcome by_score (minute 4) false after_claim

-- The index after one patch.
abbrev patched : Index by_score
patched = apply_status_patch by_score (minute 1) "a" normal (some 2) (empty_index by_score)

Run-patched : Run by_score 1 (empty_index by_score) patched
Run-patched = later here (patches (minute 1) "a" normal (some 2))

published_applies_example :
    let published = publish_account_state by_score (minute 5) "a" cooled none patched in
    (published.0 ≡ some (account_state "a" (patched.floor "a" + 1) cooled))
    × (stored_version by_score patched "a" < patched.floor "a" + 1)
    × Stands by_score
        (minute 5)
        "a"
        (stamp (patched.floor "a" + 1) (merge cooled (meta_of (patched.status "a"))))
        published.1
published_applies_example =
    published_applies by_score patched Run-patched (minute 5) "a" cooled refl

rebuild_drops_patch_example :
    let published = publish_account_state by_score (minute 5) "c" cooled none after_rebuild in
    (published.0 ≡ some (account_state "c" 1 cooled))
    × (published.1.status "c" ≡ some (row_meta renewed))
rebuild_drops_patch_example =
    rebuild_drops_patch by_score (minute 1) (minute 5) renewed cooled refl (omega arith)
