-- ===== src/Keys/Life.antt =====
-- A key from its creation on: whom it is verified for, until it is switched off, rotated or deleted.
use grokcli_2api.Base.{
  ℕ, ◌≡◌, ◌∙◌, refl, ap, String, true, false, Option, none, some, List, [], ◌∷◌, ◌++◌, length,
  length-append, is_text, str_eq, if◌then◌else◌, eq_refl, arith, ◌==◌,
}
use grokcli_2api.Keys.Store.{
  ApiKeyRecord, Store, Settings, save, new_record, create_key, change_first, saved, rotated,
  regenerate_key, set_enabled, delete_key, is_match, is_env_key, is_comparable, verify_key,
}
use grokcli_2api.Keys.Caching.{id_of, owner, holder, IsCoherent, verify-holder}
use grokcli_2api.Keys.Runs.{IsFreshId, owner-append, change_last, without-last}

-- A text that is sent as a key, can be compared with the key of the environment, and is not that key.
abbrev pub IsManaged : Settings → String → Type 0
IsManaged cfg raw =
    (is_text raw ≡ true) × (is_comparable cfg raw ≡ true) × (is_env_key cfg raw ≡ false)

verified :
    (cfg : Settings) (now : ℕ) (raw : String) (st : Store)
    → IsManaged cfg raw
    → IsCoherent st
    → id_of (verify_key cfg now raw st).0 ≡ owner (cfg.hash_key raw) st.keys
unfolding holder
verified cfg now raw st (given, compared, managed) coh =
    (verify-holder cfg now raw st coh).0 ∙ rw (given, compared, managed) refl

module _ (cfg : Settings) (made later : ℕ) (id raw name note : String) (st : Store)
    (managed : IsManaged cfg raw) (fresh : IsFreshId id st.keys)
    (unused : owner (cfg.hash_key raw) st.keys ≡ none) where
  -- The store after the creation.
  abbrev pub created : Store
  created = (create_key cfg made id raw name note st).1

  abbrev rec : ApiKeyRecord
  rec = new_record cfg made id raw name note

  owner-last :
      (h : String) (k : ApiKeyRecord)
      → owner h st.keys ≡ none
      → owner h (st.keys ++ (k ∷ [])) ≡ (if is_match h k then some k.id else none)
  owner-last h k free = owner-append h st.keys k free

  created-verified : id_of (verify_key cfg later raw created).0 ≡ some id
  unfolding create_key save new_record is_match
  created-verified =
      verified cfg later raw created managed tt
      ∙ owner-last (cfg.hash_key raw) rec unused
      ∙ rw (eq_refl (cfg.hash_key raw)) refl

  changed_store :
      (f : ApiKeyRecord → ApiKeyRecord)
      → (saved (change_first id f created.keys) created).1 ≡ save (st.keys ++ (f rec ∷ [])) created
  unfolding create_key save new_record saved
  changed_store f =
      ap (λ (o : Option (ApiKeyRecord × List ApiKeyRecord)). (saved o created).1)
        (change_last id f st.keys rec fresh (eq_refl id))

  -- Whom a key is verified for once the created record has been changed.
  verified-changed :
      (f : ApiKeyRecord → ApiKeyRecord) (sent : String)
      → IsManaged cfg sent
      → owner (cfg.hash_key sent) st.keys ≡ none
      → id_of (verify_key cfg later sent (saved (change_first id f created.keys) created).1).0
        ≡ (if is_match (cfg.hash_key sent) (f rec) then some (f rec).id else none)
  unfolding save
  verified-changed f sent own free =
      ap (λ (s : Store). id_of (verify_key cfg later sent s).0) (changed_store f)
      ∙ verified cfg later sent (save (st.keys ++ (f rec ∷ [])) created) own tt
      ∙ owner-last (cfg.hash_key sent) (f rec) free

  off-refused : id_of (verify_key cfg later raw (set_enabled id false created).1).0 ≡ none
  unfolding set_enabled is_match
  off-refused = verified-changed (λ k. record k { enabled = false }) raw managed unused

  rotated-refused :
      (raw2 : String)
      → str_eq (cfg.hash_key raw2) (cfg.hash_key raw) ≡ false
      → id_of (verify_key cfg later raw (regenerate_key cfg id raw2 created).1).0 ≡ none
  unfolding regenerate_key rotated is_match new_record
  rotated-refused raw2 other =
      verified-changed (rotated cfg raw2) raw managed unused ∙ rw other refl

  rotated-verified :
      (raw2 : String)
      → IsManaged cfg raw2
      → owner (cfg.hash_key raw2) st.keys ≡ none
      → id_of (verify_key cfg later raw2 (regenerate_key cfg id raw2 created).1).0 ≡ some id
  unfolding regenerate_key rotated is_match new_record
  rotated-verified raw2 own free =
      verified-changed (rotated cfg raw2) raw2 own free ∙ rw (eq_refl (cfg.hash_key raw2)) refl

  deleted_store : (delete_key id created).1 ≡ save st.keys created
  unfolding create_key save new_record delete_key
  deleted_store = rw (without-last id st.keys rec fresh (eq_refl id), shorter st.keys rec) refl
    where
      shorter :
          (ks : List ApiKeyRecord) (k : ApiKeyRecord)
          → (length ks == length (ks ++ (k ∷ []))) ≡ false
      shorter ks k = ground (arith, length-append ks (k ∷ []))

  deleted-refused : id_of (verify_key cfg later raw (delete_key id created).1).0 ≡ none
  unfolding save
  deleted-refused =
      ap (λ (s : Store). id_of (verify_key cfg later raw s).0) deleted_store
      ∙ verified cfg later raw (save st.keys created) managed tt
      ∙ unused

  -- A created key, whose id is new and whose secret can be compared with the environment's, is not that
  -- and has the hash of no enabled key, is verified for its id, and no longer once it is switched off or deleted. When it is
  -- rotated to another such secret of another hash, the new one is verified and the old one refused.
  pub key_life :
      (raw2 : String)
      → IsManaged cfg raw2
      → owner (cfg.hash_key raw2) st.keys ≡ none
      → str_eq (cfg.hash_key raw2) (cfg.hash_key raw) ≡ false
      → (id_of (verify_key cfg later raw created).0 ≡ some id)
        × (id_of (verify_key cfg later raw (set_enabled id false created).1).0 ≡ none)
        × (id_of (verify_key cfg later raw (delete_key id created).1).0 ≡ none)
        × (id_of (verify_key cfg later raw2 (regenerate_key cfg id raw2 created).1).0 ≡ some id)
        × (id_of (verify_key cfg later raw (regenerate_key cfg id raw2 created).1).0 ≡ none)
  key_life raw2 own free other = (
    created-verified,
    off-refused,
    deleted-refused,
    rotated-verified raw2 own free,
    rotated-refused raw2 other,
  )
