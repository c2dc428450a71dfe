-- ===== src/Keys/Caching.antt =====
-- The cache of verified keys never speaks against the stored ones.
use grokcli_2api.Base.{
  ◌||◌, ℕ, ◌+◌, max, ◌≡◌, ◌∙◌, refl, sym, ap, String, Bool, true, false, not, ◌&&◌, Option, none,
  some, List, [], ◌∷◌, drop, length, is_text, str_eq, leb, ltb, if◌then◌else◌, Bool-cases, inl, inr,
  eq_iff, arith, zero, suc, All,
}
use mathlib.Core.Path.{subst}
use grokcli_2api.Base.Dict
use grokcli_2api.Base.Dict.{Dict}
use grokcli_2api.Keys.Store.{
  ApiKeyRecord, Store, Settings, cache_max, read_entry, cache_get, cache_put, counted, is_match,
  scan, found_key, look_up, env_record, is_env_key, is_comparable, verify_key,
}

abbrev pub id_of : Option ApiKeyRecord → Option String
id_of none = none
id_of (some k) = some k.id

-- The id of the first enabled key with the hash.
unfoldable pub owner : String → List ApiKeyRecord → Option String
owner h [] = none
owner h (k ∷ ks) = let rest = owner h ks in if is_match h k then some k.id else rest

-- Whom a presented key belongs to, by the stored keys alone; a key that the comparison with the
-- environment's refuses belongs to nobody.
unfoldable pub holder : Settings → String → List ApiKeyRecord → Option String
unfolding is_env_key is_comparable
holder cfg raw keys =
    if not (is_text raw) || not (is_comparable cfg raw)
    then none
    else if is_env_key cfg raw
    then some "env"
    else owner (cfg.hash_key raw) keys

-- An entry of the cache is an enabled key, the one that the stored keys give for its hash.
abbrev Fits : List ApiKeyRecord → String × (ApiKeyRecord × ℕ) → Type 0
Fits keys (h, (rec, exp)) = (rec.enabled ≡ true) × (owner h keys ≡ some rec.id)

abbrev pub IsCoherent : Store → Type 0
IsCoherent st = All (Fits st.keys) st.cache

never : (v : ApiKeyRecord × ℕ) → Dict.get "" [] ≡ some v → ⊥
unfolding Dict.get
never v e = ground (arith, e)

module _ (P : String × (ApiKeyRecord × ℕ) → Type 0) where
  All-drop : (n : ℕ) (d : Dict (ApiKeyRecord × ℕ)) → All P d → All P (drop n d)
  unfolding drop
  All-drop zero d h = h
  All-drop (suc n) [] h = tt
  All-drop (suc n) (e ∷ d) (p, h) = All-drop n d h

  All-put :
      (k : String) (v : ApiKeyRecord × ℕ) (d : Dict (ApiKeyRecord × ℕ))
      → P (k, v)
      → All P d
      → All P (Dict.put k v d)
  unfolding Dict.put
  All-put k v [] p h = (p, tt)
  All-put k v ((j, w) ∷ d) p (q, h) = elim (Bool-cases (str_eq j k)) [
    | inl same ↦ rw same (subst (λ i. P (i, v)) (sym ((eq_iff j k).0 same)) p, h)
    | inr other ↦ rw other (q, All-put k v d p h)
  ]

  All-remove : (k : String) (d : Dict (ApiKeyRecord × ℕ)) → All P d → All P (Dict.remove k d)
  unfolding Dict.remove
  All-remove k [] h = tt
  All-remove k ((j, w) ∷ d) (q, h) = elim (Bool-cases (str_eq j k)) [
    | inl same ↦ rw same (All-remove k d h)
    | inr other ↦ rw other (q, All-remove k d h)
  ]

  All-get :
      (k : String) (v : ApiKeyRecord × ℕ) (d : Dict (ApiKeyRecord × ℕ))
      → Dict.get k d ≡ some v
      → All P d
      → P (k, v)
  unfolding Dict.get
  All-get k v [] e h = elim (never v e) [ ]
  All-get k v ((j, w) ∷ d) e (q, h) = elim (Bool-cases (str_eq j k)) [
    | inl same ↦
        subst (λ x. P (k, x)) (found same e) (subst (λ i. P (i, w)) ((eq_iff j k).0 same) q)
    | inr other ↦ All-get k v d (later other e) h
  ]
    where
      found : str_eq j k ≡ true → (if str_eq j k then some w else Dict.get k d) ≡ some v → w ≡ v
      found same e = ground arith

      later :
          str_eq j k ≡ false
          → (if str_eq j k then some w else Dict.get k d) ≡ some v
          → Dict.get k d ≡ some v
      later other e = ground arith

-- A scan finds the owner, and counting its use leaves the owners as they are.
abbrev ScanFits : String → List ApiKeyRecord → Option (ApiKeyRecord × List ApiKeyRecord) → Type 0
ScanFits h keys none = owner h keys ≡ none
ScanFits h keys (some (rec, after)) =
    (owner h keys ≡ some rec.id)
    × (rec.enabled ≡ true)
    × ((i : String) → owner i after ≡ owner i keys)

scan-cons :
    (h : String) (k : ApiKeyRecord) (ks : List ApiKeyRecord)
    (o : Option (ApiKeyRecord × List ApiKeyRecord))
    → is_match h k ≡ false
    → ScanFits h ks o
    → ScanFits h (k ∷ ks) (elim o [ none ↦ none | some (r, others) ↦ some (r, k ∷ others) ])
unfolding owner
scan-cons h k ks none skip f = rw skip f
scan-cons h k ks (some (rec, after)) skip (own, on, same) = (
  rw skip own,
  on,
  λ i. ap (λ (o : Option String). if is_match i k then some k.id else o) (same i),
)

owner-hit :
    (h : String) (k : ApiKeyRecord) (ks : List ApiKeyRecord)
    → is_match h k ≡ true
    → owner h (k ∷ ks) ≡ some k.id
unfolding owner
owner-hit h k ks hit = rw hit refl

enabled_of : (p q : Bool) → (p && q) ≡ true → p ≡ true
enabled_of p q h = ground arith

ScanFits-scan :
    (now : ℕ) (h : String) (keys : List ApiKeyRecord) → ScanFits h keys (scan now h keys)
unfolding scan owner is_match counted
ScanFits-scan now h [] = refl
ScanFits-scan now h (k ∷ ks) = elim (Bool-cases (is_match h k)) [
  | inl hit ↦
      rw hit (owner-hit h k ks hit, enabled_of k.enabled (str_eq k.key_hash h) hit, λ i. refl)
  | inr skip ↦ rw skip (scan-cons h k ks (scan now h ks) skip (ScanFits-scan now h ks))
]

pub coherent_cache_put :
    (cfg : Settings) (now : ℕ) (h : String) (rec : ApiKeyRecord) (keys : List ApiKeyRecord)
    (st : Store)
    → All (Fits keys) st.cache
    → Fits keys (h, (rec, now + max 500 cfg.cache_ttl))
    → All (Fits keys) (cache_put cfg now h rec st).cache
unfolding cache_put
coherent_cache_put cfg now h rec keys st all fits =
    elim (Bool-cases (leb cache_max (length st.cache))) [
      | inl full ↦ rw full (
          All-put (Fits keys) h (rec, now + max 500 cfg.cache_ttl) (drop 64 st.cache) fits
            (All-drop (Fits keys) 64 st.cache all))
      | inr room ↦
          rw room (All-put (Fits keys) h (rec, now + max 500 cfg.cache_ttl) st.cache fits all)
    ]

-- The entries fit a list with the same owners.
All-same :
    (keys after : List ApiKeyRecord) (d : Dict (ApiKeyRecord × ℕ))
    → ((i : String) → owner i after ≡ owner i keys)
    → All (Fits keys) d
    → All (Fits after) d
All-same keys after [] same h = tt
All-same keys after ((k, (rec, exp)) ∷ d) same ((on, own), h) =
    ((on, same k ∙ own), All-same keys after d same h)

-- What an answer says about the stored keys, and that the cache still fits.
abbrev Answers : String → List ApiKeyRecord → Option ApiKeyRecord × Store → Type 0
Answers h keys (o, st) = (id_of o ≡ owner h keys) × IsCoherent st

Answers-found :
    (cfg : Settings) (now : ℕ) (h : String) (o : Option (ApiKeyRecord × List ApiKeyRecord))
    (st : Store)
    → ScanFits h st.keys o
    → IsCoherent st
    → Answers h st.keys (found_key cfg now h o st)
unfolding found_key
Answers-found cfg now h none st f coh = (sym f, coh)
Answers-found cfg now h (some (rec, after)) st (own, on, same) coh = (
  sym own,
  All-same st.keys after (cache_put cfg now h rec st).cache same
      (coherent_cache_put cfg now h rec st.keys st coh (on, own)),
)

-- What reading the cache says.
abbrev Reads : String → List ApiKeyRecord → Option ApiKeyRecord × Store → Type 0
Reads h keys (none, st) = (st.keys ≡ keys) × IsCoherent st
Reads h keys (some rec, st) =
    (st.keys ≡ keys) × IsCoherent st × (rec.enabled ≡ true) × (owner h keys ≡ some rec.id)

Reads-entry :
    (now : ℕ) (h : String) (o : Option (ApiKeyRecord × ℕ)) (st : Store)
    → Dict.get h st.cache ≡ o
    → IsCoherent st
    → Reads h st.keys (read_entry now h o st)
unfolding read_entry
Reads-entry now h none st e coh = (refl, coh)
Reads-entry now h (some (rec, exp)) st e coh = elim (Bool-cases (ltb exp now)) [
  | inl old ↦ rw old (refl, All-remove (Fits st.keys) h st.cache coh)
  | inr live ↦ rw live (
    refl,
    coh,
    (All-get (Fits st.keys) h (rec, exp) st.cache e coh).0,
    (All-get (Fits st.keys) h (rec, exp) st.cache e coh).1,
  )
]

Answers-look_up :
    (cfg : Settings) (now : ℕ) (h : String) (keys : List ApiKeyRecord)
    (r : Option ApiKeyRecord × Store)
    → Reads h keys r
    → Answers h keys (look_up cfg now h r)
unfolding look_up
Answers-look_up cfg now h keys (none, st) (same, coh) =
    subst (λ ks. Answers h ks (found_key cfg now h (scan now h st.keys) st)) same
      (Answers-found cfg now h (scan now h st.keys) st (ScanFits-scan now h st.keys) coh)
Answers-look_up cfg now h keys (some rec, st) (same, coh, on, own) = rw on (sym own, coh)

-- `verify_key` answers for the key's holder, and keeps the cache fitting.
pub verify-holder :
    (cfg : Settings) (now : ℕ) (raw : String) (st : Store)
    → IsCoherent st
    → (id_of (verify_key cfg now raw st).0 ≡ holder cfg raw st.keys)
      × IsCoherent (verify_key cfg now raw st).1
unfolding verify_key holder cache_get env_record
verify-holder cfg now raw st coh = elim (Bool-cases (is_text raw)) [
  | inr blank ↦ rw blank (refl, coh)
  | inl given ↦ rw given (elim (Bool-cases (is_comparable cfg raw)) [
    | inr refused ↦ rw refused (refl, coh)
    | inl compared ↦ rw compared (elim (Bool-cases (is_env_key cfg raw)) [
      | inl env ↦ rw env (refl, coh)
      | inr managed ↦ rw managed (
          Answers-look_up cfg now (cfg.hash_key raw) st.keys
            (read_entry now (cfg.hash_key raw) (Dict.get (cfg.hash_key raw) st.cache) st)
            (Reads-entry now (cfg.hash_key raw) (Dict.get (cfg.hash_key raw) st.cache) st refl coh))
    ])
  ])
]
