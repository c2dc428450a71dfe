-- ===== src/Pool/Picking.antt =====
-- Whom `acquire` picks, and when it refuses.
use grokcli_2api.Base.{
  ℕ, ◌%◌, suc, zero, ◌≡◌, ◌⊎◌, refl, String, Bool, true, false, not, ◌&&◌, ◌||◌, Option, none, some,
  List, [], ◌∷◌, All, length, if◌then◌else◌, inl, inr, arith,
}
use grokcli_2api.Pool.View.{pool_meta, is_eligible}
use grokcli_2api.Pool.Pick.{
  Candidate, keep, not_excluded, is_sound, passes_durable, passes_enabled, passes_last,
  or_else_list, eligible_of, Spread, pick_at, pick_round_robin, comes_before, pick_least_used, Mode,
  round_robin, random, least_used, pick, pick_any, acquire,
}

-- A candidate of the list that passes a test.
abbrev pub IsAmong : (Candidate → Type 0) → Candidate → List Candidate → Type 0
IsAmong P c [] = ⊥
IsAmong P c (d ∷ ds) = ((c ≡ d) × P d) ⊎ IsAmong P c ds

-- The part of the last filter's test that does not read the mode of switching off.
abbrev pub could_serve : ℕ → Candidate → Bool
could_serve now c =
    is_sound now c
    && ((pool_meta now c.row).enabled || not (pool_meta now c.row).disabled_for_quota)

IsAmong-pick_at :
    (i : ℕ) (c : Candidate) (cs : List Candidate) → IsAmong (λ d. Unit) (pick_at i c cs) (c ∷ cs)
unfolding pick_at
IsAmong-pick_at zero c cs = inl (refl, tt)
IsAmong-pick_at (suc i) c [] = inl (refl, tt)
IsAmong-pick_at (suc i) c (d ∷ ds) = inr (IsAmong-pick_at i d ds)

IsAmong-pick_least_used :
    (now : ℕ) (s : Spread) (best : Candidate) (cs all : List Candidate)
    → IsAmong (λ d. Unit) best all
    → ((c : Candidate) → IsAmong (λ d. Unit) c cs → IsAmong (λ d. Unit) c all)
    → IsAmong (λ d. Unit) (pick_least_used now s best cs) all
unfolding pick_least_used
IsAmong-pick_least_used now s best [] all here there = here
IsAmong-pick_least_used now s best (c ∷ cs) all here there =
    IsAmong-pick_least_used now s (if comes_before now s c best then c else best) cs all
      (better (comes_before now s c best)) (λ d among. there d (inr among))
  where
    better : (b : Bool) → IsAmong (λ d. Unit) (if b then c else best) all
    better true = there c (inl (refl, tt))
    better false = here

IsAmong-pick :
    (now : ℕ) (mode : Mode) (c : Candidate) (cs : List Candidate)
    → IsAmong (λ d. Unit) (pick now mode c cs) (c ∷ cs)
unfolding pick pick_round_robin
IsAmong-pick now (round_robin cursor) c cs = IsAmong-pick_at (cursor % length (c ∷ cs)) c cs
IsAmong-pick now (random index) c cs = IsAmong-pick_at index c cs
IsAmong-pick now (least_used s) c cs =
    IsAmong-pick_least_used now s c cs (c ∷ cs) (inl (refl, tt)) (λ d among. inr among)

IsAmong-if :
    (P : Candidate → Type 0) (c d : Candidate) (kept ds : List Candidate) (b : Bool)
    → (b ≡ true → P d)
    → (IsAmong (λ x. Unit) c kept → IsAmong P c ds)
    → IsAmong (λ x. Unit) c (if b then d ∷ kept else kept)
    → IsAmong P c (d ∷ ds)
IsAmong-if P c d kept ds true fits more (inl (same, u)) = inl (same, fits refl)
IsAmong-if P c d kept ds true fits more (inr rest) = inr (more rest)
IsAmong-if P c d kept ds false fits more rest = inr (more rest)

-- What is among the kept ones is among all, and passes.
IsAmong-keep :
    (P : Candidate → Type 0) (test : Candidate → Bool) (c : Candidate) (cs : List Candidate)
    → ((d : Candidate) → test d ≡ true → P d)
    → IsAmong (λ d. Unit) c (keep test cs)
    → IsAmong P c cs
unfolding keep
IsAmong-keep P test c [] fits among = among
IsAmong-keep P test c (d ∷ ds) fits among =
    IsAmong-if P c d (keep test ds) ds (test d) (fits d) (IsAmong-keep P test c ds fits) among

abbrev IsNil : List Candidate → Type 0
IsNil [] = Unit
IsNil (c ∷ cs) = ⊥

fails-if :
    (test : Candidate → Bool) (d : Candidate) (kept ds : List Candidate) (b : Bool)
    → test d ≡ b
    → (IsNil kept → All (λ c. test c ≡ false) ds)
    → IsNil (if b then d ∷ kept else kept)
    → All (λ c. test c ≡ false) (d ∷ ds)
fails-if test d kept ds true e more h = elim h [ ]
fails-if test d kept ds false e more h = (e, more h)

All-keep :
    (test : Candidate → Bool) (cs : List Candidate)
    → IsNil (keep test cs)
    → All (λ c. test c ≡ false) cs
unfolding keep
All-keep test [] h = tt
All-keep test (d ∷ ds) h = fails-if test d (keep test ds) ds (test d) refl (All-keep test ds) h

IsAmong-or_else :
    (R : Type 0) (c : Candidate) (xs ys : List Candidate)
    → (IsAmong (λ d. Unit) c xs → R)
    → (IsNil xs → IsAmong (λ d. Unit) c ys → R)
    → IsAmong (λ d. Unit) c (or_else_list xs ys)
    → R
unfolding or_else_list
IsAmong-or_else R c [] ys f g among = g tt among
IsAmong-or_else R c (x ∷ xs) ys f g among = f among

sound-eligible :
    (now : ℕ) (model : Option String) (d : Candidate)
    → is_eligible now d.creds d.row model ≡ true
    → is_sound now d ≡ true
unfolding is_eligible is_sound
sound-eligible now model d h = ground arith

sound-durable :
    (now : ℕ) (model : Option String) (d : Candidate)
    → passes_durable now model d ≡ true
    → is_sound now d ≡ true
unfolding passes_durable
sound-durable now model d h = ground arith

sound-enabled : (now : ℕ) (d : Candidate) → passes_enabled now d ≡ true → is_sound now d ≡ true
unfolding passes_enabled
sound-enabled now d h = ground arith

sound-last : (now : ℕ) (d : Candidate) → passes_last now d ≡ true → is_sound now d ≡ true
unfolding passes_last
sound-last now d h = ground arith

-- An account that may be picked, and why: it is eligible, or no candidate is.
abbrev pub IsFit : ℕ → Option String → List Candidate → Candidate → Type 0
IsFit now model cs c =
    (is_sound now c ≡ true)
    × ((is_eligible now c.creds c.row model ≡ true)
        ⊎ All (λ d. is_eligible now d.creds d.row model ≡ false) cs)

IsAmong-fallback :
    (now : ℕ) (model : Option String) (test : Candidate → Bool) (c : Candidate)
    (cs : List Candidate)
    → ((d : Candidate) → test d ≡ true → is_sound now d ≡ true)
    → All (λ d. is_eligible now d.creds d.row model ≡ false) cs
    → IsAmong (λ d. Unit) c (keep test cs)
    → IsAmong (IsFit now model cs) c cs
IsAmong-fallback now model test c cs sound nobody =
    IsAmong-keep (IsFit now model cs) test c cs (λ d h. (sound d h, inr nobody))

IsAmong-eligible_of :
    (now : ℕ) (model : Option String) (c : Candidate) (cs : List Candidate)
    → IsAmong (λ d. Unit) c (eligible_of now model cs)
    → IsAmong (IsFit now model cs) c cs
unfolding eligible_of
IsAmong-eligible_of now model c cs =
    let eligible = keep (λ d. is_eligible now d.creds d.row model) cs in
    let durable = keep (passes_durable now model) cs in
    let enabled = keep (passes_enabled now) cs in
    let last = keep (passes_last now) cs in
    IsAmong-or_else (IsAmong (IsFit now model cs) c cs) c eligible
      (or_else_list durable (or_else_list enabled last))
      (IsAmong-keep (IsFit now model cs) (λ d. is_eligible now d.creds d.row model) c cs
        (λ d h. (sound-eligible now model d h, inl h)))
      (λ nil.
        let nobody = All-keep (λ d. is_eligible now d.creds d.row model) cs nil in
        IsAmong-or_else (IsAmong (IsFit now model cs) c cs) c durable (or_else_list enabled last)
          (IsAmong-fallback now model (passes_durable now model) c cs (sound-durable now model)
            nobody)
          (λ u.
            IsAmong-or_else (IsAmong (IsFit now model cs) c cs) c enabled last
              (IsAmong-fallback now model (passes_enabled now) c cs (sound-enabled now) nobody)
              (λ v. IsAmong-fallback now model (passes_last now) c cs (sound-last now) nobody)))

IsNil-or_else : (xs ys : List Candidate) → IsNil (or_else_list xs ys) → IsNil xs × IsNil ys
unfolding or_else_list
IsNil-or_else [] ys h = (tt, h)
IsNil-or_else (x ∷ xs) ys h = elim h [ ]

All-serve :
    (now : ℕ) (cs : List Candidate)
    → All (λ c. passes_enabled now c ≡ false) cs
    → All (λ c. passes_last now c ≡ false) cs
    → All (λ c. could_serve now c ≡ false) cs
unfolding passes_enabled passes_last
All-serve now [] f g = tt
All-serve now (c ∷ cs) (p, f) (q, g) = (ground arith, All-serve now cs f g)

IsNil-eligible_of :
    (now : ℕ) (model : Option String) (cs : List Candidate)
    → IsNil (eligible_of now model cs)
    → All (λ c. could_serve now c ≡ false) cs
unfolding eligible_of
IsNil-eligible_of now model cs h =
    let a =
      IsNil-or_else (keep (λ d. is_eligible now d.creds d.row model) cs)
        (or_else_list (keep (passes_durable now model) cs)
          (or_else_list (keep (passes_enabled now) cs) (keep (passes_last now) cs)))
        h in
    let b =
      IsNil-or_else (keep (passes_durable now model) cs)
        (or_else_list (keep (passes_enabled now) cs) (keep (passes_last now) cs)) a.1 in
    let c = IsNil-or_else (keep (passes_enabled now) cs) (keep (passes_last now) cs) b.1 in
    All-serve now cs (All-keep (passes_enabled now) cs c.0) (All-keep (passes_last now) cs c.1)

-- What an answer of `acquire` says of the candidates.
abbrev pub Acquired : ℕ → Option String → List Candidate → Option Candidate → Type 0
Acquired now model cs none = All (λ c. could_serve now c ≡ false) cs
Acquired now model cs (some c) = IsAmong (IsFit now model cs) c cs

Acquired-pick_any :
    (now : ℕ) (mode : Mode) (model : Option String) (cs xs : List Candidate)
    → ((c : Candidate) → IsAmong (λ d. Unit) c xs → IsAmong (IsFit now model cs) c cs)
    → (IsNil xs → All (λ c. could_serve now c ≡ false) cs)
    → Acquired now model cs (pick_any now mode xs)
unfolding pick_any
Acquired-pick_any now mode model cs [] among nil = nil tt
Acquired-pick_any now mode model cs (x ∷ xs) among nil =
    among (pick now mode x xs) (IsAmong-pick now mode x xs)

-- In every mode `acquire` picks one of the live accounts that are not excluded, and one whose
-- credential has not expired, which is not cooling and not marked as expired; what it picks is
-- eligible for the model unless no such account is. It refuses only where each of them fails one of
-- the three, or is both switched off and disabled for quota.
pub acquire_sound :
    (now : ℕ) (mode : Mode) (exclude : List String) (model : Option String) (live : List Candidate)
    → Acquired now model (not_excluded exclude live) (acquire now mode exclude model live)
unfolding acquire
acquire_sound now mode exclude model live =
    Acquired-pick_any now mode model (not_excluded exclude live)
      (eligible_of now model (not_excluded exclude live))
      (λ c. IsAmong-eligible_of now model c (not_excluded exclude live))
      (IsNil-eligible_of now model (not_excluded exclude live))
