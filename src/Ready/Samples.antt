-- ===== src/Ready/Samples.antt =====
-- A sorted set that keeps the laws, and states of the index to test with.
use grokcli_2api.Base.{
  ℕ, zero, suc, ◌+◌, ◌*◌, ◌≡◌, refl, String, true, false, none, some, List, [], ◌∷◌, All, get_or,
  is_some, length, take, ltb, leb, if◌then◌else◌, Bool-cases, inl, inr, eq_iff, arith,
}
use grokcli_2api.Base.Dict
use grokcli_2api.Base.Dict.{Dict}
use grokcli_2api.Ready.Status.{Env, Meta}
use grokcli_2api.Ready.Status.Json.{text}
use grokcli_2api.Ready.Rows.{IndexRow}
use grokcli_2api.Ready.SortedSet.{SortedSet}
use grokcli_2api.Ready.Index.{Index, empty_index, apply_status_patch, claim, rebuild_ready_index}

-- The members by ascending score.
abbrev pub insert : String × ℕ → Dict ℕ → Dict ℕ
insert e [] = e ∷ []
insert (k, n) ((j, m) ∷ z) =
    let rest = insert (k, n) z in if ltb n m then (k, n) ∷ (j, m) ∷ z else (j, m) ∷ rest

abbrev pub sort : Dict ℕ → Dict ℕ
sort [] = []
sort (e ∷ z) = insert e (sort z)

abbrev pub names : Dict ℕ → List String
names [] = []
names ((k, n) ∷ z) = k ∷ names z

abbrev pub up_to : ℕ → Dict ℕ → Dict ℕ
up_to bound [] = []
up_to bound ((k, n) ∷ z) = let rest = up_to bound z in if leb n bound then (k, n) ∷ rest else rest

module _ (P : String → Type 0) where
  pub All-take : (n : ℕ) (ks : List String) → All P ks → All P (take n ks)
  unfolding take
  All-take zero ks h = tt
  All-take (suc n) [] h = tt
  All-take (suc n) (k ∷ ks) (p, h) = (p, All-take n ks h)

  All-insert :
      (k : String) (n : ℕ) (z : Dict ℕ) → P k → All P (names z) → All P (names (insert (k, n) z))
  All-insert k n [] p h = (p, h)
  All-insert k n ((j, m) ∷ z) p (q, h) = elim (Bool-cases (ltb n m)) [
    | inl less ↦ rw less (p, (q, h))
    | inr more ↦ rw more (q, All-insert k n z p h)
  ]

  pub All-sort : (z : Dict ℕ) → All P (names z) → All P (names (sort z))
  All-sort [] h = tt
  All-sort ((k, n) ∷ z) (p, h) = All-insert k n (sort z) p (All-sort z h)

abbrev pub IsIn : Dict ℕ → String → Type 0
IsIn z k = is_some (Dict.get k z) ≡ true

IsIn-cons : (j : String) (m : ℕ) (z : Dict ℕ) (k : String) → IsIn z k → IsIn ((j, m) ∷ z) k
unfolding Dict.get
IsIn-cons j m z k h = ground (arith, eq_iff j k)

IsIn-head : (j : String) (m : ℕ) (z : Dict ℕ) → IsIn ((j, m) ∷ z) j
unfolding Dict.get
IsIn-head j m z = ground (arith, eq_iff j j)

All-cons :
    (j : String) (m : ℕ) (z : Dict ℕ) (ks : List String)
    → All (IsIn z) ks
    → All (IsIn ((j, m) ∷ z)) ks
All-cons j m z [] h = tt
All-cons j m z (k ∷ ks) (p, h) = (IsIn-cons j m z k p, All-cons j m z ks h)

pub All-names : (z : Dict ℕ) → All (IsIn z) (names z)
All-names [] = tt
All-names ((k, n) ∷ z) = (IsIn-head k n z, All-cons k n z (names z) (All-names z))

pub get-empty : (j : String) → Dict.get {V = ℕ} j [] ≡ none
unfolding Dict.get
get-empty j = refl

abbrev pub by_score : SortedSet
by_score = record {
  Set = Dict ℕ;
  empty = [];
  zscore = Dict.get;
  zadd = Dict.put;
  zrem = Dict.remove;
  zincrby = λ k n z. Dict.put k (get_or (Dict.get k z) 0 + n) z;
  zrange = λ n z. take n (names (sort z));
  zrangebyscore = λ bound n z. take n (names (sort (up_to bound z)));
  zcard = length;
  zscore-empty = get-empty;
  zscore-zadd = λ k j n z. Dict.get-put k j n z;
  zscore-zrem = λ k j z. Dict.get-remove k j z;
  zscore-zincrby = λ k j n z. Dict.get-put k j (get_or (Dict.get k z) 0 + n) z;
  zrange_members = λ n z. All-take (IsIn z) n (names (sort z)) (All-sort (IsIn z) z (All-names z));
}

abbrev pub minute : ℕ → Env
minute n = record { now = n * 60_000; read_float = λ s. none; max_inflight = 1 }

abbrev pub normal : Meta
normal = ("pool_status", text "normal") ∷ []

abbrev pub cooled : Meta
cooled = ("pool_status", text "Cooldown") ∷ []

abbrev pub renewed : IndexRow
renewed = record {
  id = "c";
  expires_at = some 9_000_000;
  enabled = true;
  disabled_for_quota = false;
  pool_status = "";
  cooldown_until = none;
  request_count = 5;
  last_used_at = some 40_000;
  state_version = 7;
  blocked_models = "{}";
  cooldown_count = 0;
  cooldown_reason = none;
  cooldown_code = none;
  cooldown_model = none;
  last_error = none;
  status_stack = none;
  consecutive_fails = 0;
  last_status_code = none;
  disabled_source = none;
  last_probe_fail_at = none;
}

-- A rebuild with one account, a patch of another, and a lease of the first.
abbrev pub after_rebuild : Index by_score
after_rebuild = (rebuild_ready_index by_score ((minute 1, renewed) ∷ []) (empty_index by_score)).1

abbrev pub after_patch : Index by_score
after_patch = apply_status_patch by_score (minute 2) "a" normal (some 3) after_rebuild

abbrev pub after_claim : Index by_score
after_claim = (claim by_score (minute 3) false after_patch).1
