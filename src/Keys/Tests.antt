-- ===== src/Keys/Tests.antt =====
-- The theorems of the API keys at concrete inputs, with a hash that only marks its text.
use grokcli_2api.Base.{true, ◌≡◌, refl, false, ◌<>◌, none, some, [], ◌∷◌}
use grokcli_2api.Keys.Store.{
  ApiKeyRecord, Store, Settings, new_record, create_key, set_enabled, delete_key, regenerate_key,
  verify_key, is_env_key, is_comparable, is_match,
}
use grokcli_2api.Keys.Caching.{id_of, owner, holder}
use grokcli_2api.Keys.Runs.{IsFreshId, Reach, start, next, verifies, switches, cache_unseen}
use grokcli_2api.Keys.Life.{IsManaged, key_life}

abbrev settings : Settings
settings = record {
  hash_key = λ s. "#" <> s;
  is_ascii = λ s. true;
  api_key = "master";
  cache_ttl = 5_000;
}

abbrev old_key : ApiKeyRecord
old_key = new_record settings 1_000 "k1" "sk-old" "first" ""

abbrev stored : Store
stored = record { keys = old_key ∷ []; cache = [] }

-- The old key is verified, and so cached; then it is switched off.
abbrev used : Store
used = (verify_key settings 2_000 "sk-old" stored).1

abbrev switched_off : Store
switched_off = (set_enabled "k1" false used).1

Reach-switched_off : Reach settings (old_key ∷ []) switched_off
Reach-switched_off = next (next start (verifies 2_000 "sk-old")) (switches "k1" false)

cache_unseen_example :
    id_of (verify_key settings 2_500 "sk-old" switched_off).0
    ≡ holder settings "sk-old" switched_off.keys
cache_unseen_example =
    cache_unseen settings (old_key ∷ []) switched_off Reach-switched_off 2_500 "sk-old"

own_new : IsManaged settings "sk-new"
unfolding is_env_key is_comparable
own_new = (refl, refl, refl)

own_newer : IsManaged settings "sk-newer"
unfolding is_env_key is_comparable
own_newer = (refl, refl, refl)

unused_new : owner "#sk-new" stored.keys ≡ none
unfolding owner new_record is_match
unused_new = refl

unused_newer : owner "#sk-newer" stored.keys ≡ none
unfolding owner new_record is_match
unused_newer = refl

new_id : IsFreshId "k2" stored.keys
unfolding new_record
new_id = (refl, tt)

key_life_example :
    let made = (create_key settings 3_000 "k2" "sk-new" "second" "" stored).1 in
    (id_of (verify_key settings 4_000 "sk-new" made).0 ≡ some "k2")
    × (id_of (verify_key settings 4_000 "sk-new" (set_enabled "k2" false made).1).0 ≡ none)
    × (id_of (verify_key settings 4_000 "sk-new" (delete_key "k2" made).1).0 ≡ none)
    × (id_of
          (verify_key settings 4_000 "sk-newer" (regenerate_key settings "k2" "sk-newer" made).1).0
        ≡ some "k2")
    × (id_of (verify_key settings 4_000 "sk-new" (regenerate_key settings "k2" "sk-newer" made).1).0
        ≡ none)
key_life_example =
    key_life settings 3_000 4_000 "k2" "sk-new" "second" "" stored own_new new_id unused_new
      "sk-newer" own_newer unused_newer refl
