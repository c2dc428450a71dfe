-- ===== src/Keys/Runs.antt =====
-- Every operation on the keys, in any order, and what a key's life is from its creation on.
use grokcli_2api.Base.{
  ℕ, ◌≡◌, refl, ap, String, Bool, true, false, Option, none, some, List, [], ◌∷◌, ◌++◌, All, length,
  str_eq, if◌then◌else◌, Bool-cases, inl, inr, arith, ◌==◌,
}
use grokcli_2api.Keys.Store.{
  ApiKeyRecord, Store, Settings, save, create_key, change_first, saved, rotated, regenerate_key,
  set_enabled, renamed, update_key, without, delete_key, is_match, verify_key,
}
use grokcli_2api.Keys.Caching.{id_of, owner, holder, IsCoherent, verify-holder}

-- One operation.
pub data Step (cfg : Settings) (st : Store) : Store → Type 0 where
  creates :
      (now : ℕ) (id raw name note : String) → Step cfg st (create_key cfg now id raw name note st).1
  rotates : (id raw : String) → Step cfg st (regenerate_key cfg id raw st).1
  switches : (id : String) (on : Bool) → Step cfg st (set_enabled id on st).1
  edits : (id : String) (name note : Option String) → Step cfg st (update_key id name note st).1
  deletes : (id : String) → Step cfg st (delete_key id st).1
  verifies : (now : ℕ) (raw : String) → Step cfg st (verify_key cfg now raw st).1

-- Operations in a row, from a start of the process with the stored keys.
pub data Reach (cfg : Settings) (keys : List ApiKeyRecord) : Store → Type 0 where
  start : Reach cfg keys (record { keys = keys; cache = [] })
  next : {st after : Store} → Reach cfg keys st → Step cfg st after → Reach cfg keys after

IsCoherent-saved :
    (o : Option (ApiKeyRecord × List ApiKeyRecord)) (st : Store)
    → IsCoherent st
    → IsCoherent (saved o st).1
unfolding saved
IsCoherent-saved none st coh = coh
IsCoherent-saved (some (rec, keys)) st coh = tt

IsCoherent-Step :
    {cfg : Settings} {st after : Store} → Step cfg st after → IsCoherent st → IsCoherent after
unfolding create_key save regenerate_key set_enabled update_key delete_key
IsCoherent-Step {cfg} {st} (creates now id raw name note) coh = tt
IsCoherent-Step {cfg} {st} (rotates id raw) coh =
    IsCoherent-saved (change_first id (rotated cfg raw) st.keys) st coh
IsCoherent-Step {cfg} {st} (switches id on) coh =
    IsCoherent-saved (change_first id (λ k. record k { enabled = on }) st.keys) st coh
IsCoherent-Step {cfg} {st} (edits id name note) coh =
    IsCoherent-saved (change_first id (renamed name note) st.keys) st coh
IsCoherent-Step {cfg} {st} (deletes id) coh =
    elim (Bool-cases (length (without id st.keys) == length st.keys)) [
      | inl absent ↦ rw absent coh
      | inr gone ↦ rw gone tt
    ]
IsCoherent-Step {cfg} {st} (verifies now raw) coh = (verify-holder cfg now raw st coh).1

IsCoherent-Reach :
    {cfg : Settings} {keys : List ApiKeyRecord} {st : Store} → Reach cfg keys st → IsCoherent st
IsCoherent-Reach start = tt
IsCoherent-Reach (next r step) = IsCoherent-Step step (IsCoherent-Reach r)

-- The cache is never seen: after any operations of the process, a presented key is verified for the id
-- that the stored keys alone give: the environment's, or else the first enabled key with its hash, and
-- for none where the comparison with the environment's key raises on it.
pub cache_unseen :
    (cfg : Settings) (keys : List ApiKeyRecord) (st : Store)
    → Reach cfg keys st
    → (now : ℕ) (raw : String) → id_of (verify_key cfg now raw st).0 ≡ holder cfg raw st.keys
cache_unseen cfg keys st r now raw = (verify-holder cfg now raw st (IsCoherent-Reach r)).0

abbrev pub IsFreshId : String → List ApiKeyRecord → Type 0
IsFreshId id keys = All (λ k. str_eq k.id id ≡ false) keys

pub owner-append :
    (h : String) (keys : List ApiKeyRecord) (k : ApiKeyRecord)
    → owner h keys ≡ none
    → owner h (keys ++ (k ∷ [])) ≡ (if is_match h k then some k.id else none)
unfolding owner
owner-append h [] k free = refl
owner-append h (j ∷ keys) k free = ground (arith, owner-append h keys k)

pub change_last :
    (id : String) (f : ApiKeyRecord → ApiKeyRecord) (keys : List ApiKeyRecord) (k : ApiKeyRecord)
    → IsFreshId id keys
    → str_eq k.id id ≡ true
    → change_first id f (keys ++ (k ∷ [])) ≡ some (f k, keys ++ (f k ∷ []))
unfolding change_first
change_last id f [] k fresh own = rw own refl
change_last id f (j ∷ keys) k (other, fresh) own =
    rw (other, change_last id f keys k fresh own) refl

pub without-last :
    (id : String) (keys : List ApiKeyRecord) (k : ApiKeyRecord)
    → IsFreshId id keys
    → str_eq k.id id ≡ true
    → without id (keys ++ (k ∷ [])) ≡ keys
unfolding without
without-last id [] k fresh own = rw own refl
without-last id (j ∷ keys) k (other, fresh) own =
    rw other (ap (◌∷◌ j) (without-last id keys k fresh own))
