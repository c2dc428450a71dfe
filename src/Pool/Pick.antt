-- ===== src/Pool/Pick.antt =====
-- `acquire` of grok2api/pool/account_pool.py with the ready index off: the filters, from strict to
-- lenient, and the choice by mode. The credentials and rows are what `list_live_credentials` and
-- `get_account_pool_state` answer. The health penalty is exact here, not a float; the soft marks of
-- picks, the cursor and the drawn index are arguments; the weights of the draw are left out, as are the
-- refresh of the picked token and the mark of the pick.
use grokcli_2api.Base.{
  ℕ, ◌+◌, ◌*◌, ◌%◌, max, min, suc, zero, String, Bool, true, not, ◌&&◌, Option, none, some, List,
  [], ◌∷◌, length, get_or, one_of, ltb, ◌==◌, if◌then◌else◌,
}
use grokcli_2api.Pool.Meta.{AccountMeta}
use grokcli_2api.Pool.Status.{is_in_cooldown, is_status_expired}
use grokcli_2api.Pool.Blocks.{is_model_blocked}
use grokcli_2api.Pool.View.{pool_meta, Credentials, is_eligible}

-- A live credential with the row of its account.
pub record Candidate : Type 0 where
  pub creds : Credentials
  pub row : AccountMeta

unfoldable pub keep : (Candidate → Bool) → List Candidate → List Candidate
keep test [] = []
keep test (c ∷ cs) = let rest = keep test cs in if test c then c ∷ rest else rest

-- `candidates`
unfoldable pub not_excluded : List String → List Candidate → List Candidate
unfolding keep
not_excluded exclude live = keep (λ c. not (one_of c.creds.auth_key exclude)) live

-- `_usable` and `_not_cooling`
unfoldable pub is_sound : ℕ → Candidate → Bool
is_sound now c =
    not c.creds.expired
    && not (is_in_cooldown now (pool_meta now c.row))
    && not (is_status_expired (pool_meta now c.row).pool_status)

-- 1) without the temporary blocks of the model
unfoldable pub passes_durable : ℕ → Option String → Candidate → Bool
unfolding is_sound
passes_durable now model c =
    is_sound now c
    && (pool_meta now c.row).enabled
    && not (is_model_blocked now true model (pool_meta now c.row))

-- 2) without the blocks
unfoldable pub passes_enabled : ℕ → Candidate → Bool
unfolding is_sound
passes_enabled now c = is_sound now c && (pool_meta now c.row).enabled

-- 3) also accounts that are switched off, but not for quota
unfoldable pub passes_last : ℕ → Candidate → Bool
unfolding is_sound
passes_last now c = is_sound now c && not (pool_meta now c.row).disabled_for_quota

unfoldable pub or_else_list : List Candidate → List Candidate → List Candidate
or_else_list [] cs = cs
or_else_list (d ∷ ds) cs = d ∷ ds

unfoldable pub eligible_of : ℕ → Option String → List Candidate → List Candidate
unfolding keep passes_durable passes_enabled passes_last or_else_list
eligible_of now model cs = or_else_list (keep (λ c. is_eligible now c.creds c.row model) cs) (
    or_else_list (keep (passes_durable now model) cs)
      (or_else_list (keep (passes_enabled now) cs) (keep (passes_last now) cs)))

-- What other picks have left: the requests in flight and the soft stamp of an account.
pub record Spread : Type 0 where
  pub inflight : String → ℕ
  pub soft_used : String → ℕ

-- `eligible[i]`
unfoldable pub pick_at : ℕ → Candidate → List Candidate → Candidate
pick_at zero c cs = c
pick_at (suc i) c [] = c
pick_at (suc i) c (d ∷ ds) = pick_at i d ds

-- `_pick_round_robin`, at the cursor's value
unfoldable pub pick_round_robin : ℕ → Candidate → List Candidate → Candidate
unfolding pick_at
pick_round_robin cursor c cs = pick_at (cursor % length (c ∷ cs)) c cs

-- `_health_penalty` of an account that does not cool, as a fraction
unfoldable pub health_penalty : AccountMeta → ℕ → ℕ × ℕ
health_penalty m inflight =
    let total = max 1 (m.fail_count + m.success_count) in
    ((6 * m.consecutive_fails + min 24 (5 * inflight)) * total + 10 * m.fail_count, 2 * total)

-- `_effective_last_used`
unfoldable pub effective_last_used : AccountMeta → ℕ → ℕ
effective_last_used m soft = max (get_or m.last_used_at 0) soft

-- The key of `_pick_least_used` is smaller.
unfoldable pub comes_before : ℕ → Spread → Candidate → Candidate → Bool
unfolding health_penalty effective_last_used
comes_before now s c d =
    let m = pool_meta now c.row in
    let n = pool_meta now d.row in
    let i = s.inflight c.creds.auth_key in
    let j = s.inflight d.creds.auth_key in
    let p = health_penalty m i in
    let q = health_penalty n j in
    let k = m.request_count + i * 2 in
    let l = n.request_count + j * 2 in
    if p.0 * q.1 == q.0 * p.1
    then (if k == l
        then ltb (effective_last_used m (s.soft_used c.creds.auth_key))
            (effective_last_used n (s.soft_used d.creds.auth_key))
        else ltb k l)
    else ltb (p.0 * q.1) (q.0 * p.1)

-- `min(eligible, key=score)`: the first of the least.
unfoldable pub pick_least_used : ℕ → Spread → Candidate → List Candidate → Candidate
unfolding comes_before
pick_least_used now s best [] = best
pick_least_used now s best (c ∷ cs) =
    pick_least_used now s (if comes_before now s c best then c else best) cs

-- The mode, with the cursor or the drawn index.
pub data Mode : Type 0 where
  round_robin random : ℕ → Mode
  least_used : Spread → Mode

unfoldable pub pick : ℕ → Mode → Candidate → List Candidate → Candidate
unfolding pick_round_robin pick_at pick_least_used
pick now (round_robin cursor) c cs = pick_round_robin cursor c cs
pick now (random index) c cs = pick_at index c cs
pick now (least_used s) c cs = pick_least_used now s c cs

unfoldable pub pick_any : ℕ → Mode → List Candidate → Option Candidate
unfolding pick
pick_any now mode [] = none
pick_any now mode (c ∷ cs) = some (pick now mode c cs)

-- `acquire`; `none` for the `AuthError`.
unfoldable pub acquire : ℕ → Mode → List String → Option String → List Candidate → Option Candidate
unfolding pick_any eligible_of not_excluded
acquire now mode exclude model live =
    pick_any now mode (eligible_of now model (not_excluded exclude live))
