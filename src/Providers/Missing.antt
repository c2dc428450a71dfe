-- ===== src/Providers/Missing.antt =====
-- What it means that the provider registry (grok2api/providers/registry.py) finds no route.
use grokcli_2api.Base.{
  ◌≡◌, refl, sym, ap, is_empty, String, Bool, true, false, ◌&&◌, Option, none, some, List, [], ◌∷◌,
  ◌++◌, All, if◌then◌else◌,
}
use Prim.Native.Nat.{Ordering}
use mathlib.Core.Bool.{true≢false}
use grokcli_2api.Providers.Registry.{
  ProviderName, same_provider, Capability, ModelRoute, Registry, wants_provider, keeps_route,
  filter_routes, collect_routes, compare_routes, insert_route, sort_routes, routes, names_model,
  has_other_provider, least, choose_route, candidates, resolve, Resolution, resolved, refused,
  ambiguous, not_found, prefix_conflict,
}
use grokcli_2api.Providers.Resolution.{Offers, requested_of}

-- Predicates back through the lists.
module _ (P : ModelRoute → Type 0) where
  All-parts : (rs ss : List ModelRoute) → All P (rs ++ ss) → All P rs × All P ss
  All-parts [] ss a = (tt, a)
  All-parts (r ∷ rs) ss (p, a) = let rest = All-parts rs ss a in ((p, rest.0), rest.1)

  inserted_by_order :
      (o : Ordering) (r s : ModelRoute) (rs after : List ModelRoute)
      → (All P after → P r × All P rs)
      → All P (elim o [ Ordering.gt ↦ s ∷ after | _ ↦ r ∷ s ∷ rs ])
      → P r × (P s × All P rs)
  inserted_by_order Ordering.gt r s rs after f (q, a) = let rest = f a in (rest.0, (q, rest.1))
  inserted_by_order Ordering.lt r s rs after f (p, (q, a)) = (p, (q, a))
  inserted_by_order Ordering.eq r s rs after f (p, (q, a)) = (p, (q, a))

  All-inserted :
      (r : ModelRoute) (rs : List ModelRoute) → All P (insert_route r rs) → P r × All P rs
  unfolding insert_route
  All-inserted r [] (p, a) = (p, tt)
  All-inserted r (s ∷ rs) a =
      inserted_by_order (compare_routes r s) r s rs (insert_route r rs) (All-inserted r rs) a

  All-sorted : (rs : List ModelRoute) → All P (sort_routes rs) → All P rs
  unfolding sort_routes
  All-sorted [] a = tt
  All-sorted (r ∷ rs) a =
      let parts = All-inserted r (sort_routes rs) a in (parts.0, All-sorted rs parts.1)

All-everywhere :
    (P : ModelRoute → Type 0) → ((r : ModelRoute) → P r) → (rs : List ModelRoute) → All P rs
All-everywhere P f [] = tt
All-everywhere P f (r ∷ rs) = (f r, All-everywhere P f rs)

nothing_kept :
    (b : Bool) (r : ModelRoute) (rest : List ModelRoute)
    → (if b then r ∷ rest else rest) ≡ []
    → (b ≡ false) × (rest ≡ [])
nothing_kept true r rest h = elim (true≢false (sym (ap is_empty h))) [ ]
nothing_kept false r rest h = (refl, h)

none_passes :
    (test : ModelRoute → Bool) (rs : List ModelRoute)
    → filter_routes test rs ≡ []
    → All (λ r. test r ≡ false) rs
unfolding filter_routes
none_passes test [] h = tt
none_passes test (r ∷ rs) h =
    let parts = nothing_kept (test r) r (filter_routes test rs) h in
    (parts.0, none_passes test rs parts.1)

kept_parts :
    (test : ModelRoute → Bool) (b : Bool) (r : ModelRoute) (rest : List ModelRoute)
    → All (λ s. test s ≡ false) (if b then r ∷ rest else rest)
    → (b && test r ≡ false) × All (λ s. test s ≡ false) rest
kept_parts test true r rest (p, a) = (p, a)
kept_parts test false r rest a = (refl, a)

unfiltered :
    (keep test : ModelRoute → Bool) (rs : List ModelRoute)
    → All (λ r. test r ≡ false) (filter_routes keep rs)
    → All (λ r. keep r && test r ≡ false) rs
unfolding filter_routes
unfiltered keep test [] a = tt
unfiltered keep test (r ∷ rs) a =
    let parts = kept_parts test (keep r) r (filter_routes keep rs) a in
    (parts.0, unfiltered keep test rs parts.1)

-- A route of an adapter that the request asks for.
unfoldable pub answers :
    Option ProviderName → Capability → String → ProviderName → ModelRoute → Bool
answers requested capability model q r =
    wants_provider requested q && (keeps_route (some capability) true r && names_model model r)

module _ (requested : Option ProviderName) (capability : Capability) (model : String) where
  unwanted-answers :
      (q : ProviderName) (r : ModelRoute)
      → wants_provider requested q ≡ false
      → answers requested capability model q r ≡ false
  unfolding answers
  unwanted-answers q r h = rw h refl

  wanted-answers :
      (q : ProviderName) (rs : List ModelRoute)
      → wants_provider requested q ≡ true
      → All (λ r. keeps_route (some capability) true r && names_model model r ≡ false) rs
      → All (λ r. answers requested capability model q r ≡ false) rs
  unfolding answers
  wanted-answers q [] h a = tt
  wanted-answers q (r ∷ rs) h (p, a) = (rw h p, wanted-answers q rs h a)

  Offers-none :
      (reg : Registry)
      → All (λ r. names_model model r ≡ false) (collect_routes requested (some capability) true reg)
      → Offers (λ q r. answers requested capability model q r ≡ false) reg
  unfolding collect_routes
  Offers-none [] a = tt
  Offers-none ((q, b) ∷ reg) a = by_key (wants_provider requested q) refl a (Offers-none reg)
    where
      kept : List ModelRoute
      kept = filter_routes (keeps_route (some capability) true) b.model_routes

      rest : List ModelRoute
      rest = collect_routes requested (some capability) true reg

      by_key :
          (w : Bool)
          → wants_provider requested q ≡ w
          → All (λ r. names_model model r ≡ false) (if w then kept ++ rest else rest)
          → (All (λ r. names_model model r ≡ false) rest
              → Offers (λ q r. answers requested capability model q r ≡ false) reg)
          → All (λ r. answers requested capability model q r ≡ false) b.model_routes
            × Offers (λ q r. answers requested capability model q r ≡ false) reg
      by_key true h a f =
          let parts = All-parts (λ r. names_model model r ≡ false) kept rest a in
          (
            wanted-answers q b.model_routes h (
                unfiltered (keeps_route (some capability) true) (names_model model) b.model_routes
                  parts.0),
            f parts.1,
          )
      by_key false h a f = (
        All-everywhere (λ r. answers requested capability model q r ≡ false)
            (λ r. unwanted-answers q r h) b.model_routes,
        f a,
      )

  Offers-no_candidates :
      (reg : Registry)
      → candidates requested capability model reg ≡ []
      → Offers (λ q r. answers requested capability model q r ≡ false) reg
  unfolding candidates routes
  Offers-no_candidates reg h = Offers-none reg (
      All-sorted (λ r. names_model model r ≡ false)
        (collect_routes requested (some capability) true reg)
        (none_passes (names_model model)
          (sort_routes (collect_routes requested (some capability) true reg)) h))

abbrev is_not_found : Resolution → Bool
is_not_found (refused not_found) = true
is_not_found _ = false

no_candidates :
    (requested : Option ProviderName) (rs : List ModelRoute)
    → choose_route requested rs ≡ refused not_found
    → rs ≡ []
unfolding choose_route
no_candidates requested [] h = refl
no_candidates (some p) (r ∷ rs) h = elim (true≢false (sym (ap is_not_found h))) [ ]
no_candidates none (r ∷ rs) h = by_provider (has_other_provider r.provider rs) h
  where
    by_provider :
        (b : Bool)
        → (if b then refused ambiguous else resolved (least r rs)) ≡ refused not_found
        → (r ∷ rs) ≡ []
    by_provider true h = elim (true≢false (sym (ap is_not_found h))) [ ]
    by_provider false h = elim (true≢false (sym (ap is_not_found h))) [ ]

-- Where a model is not found, no adapter that its prefix, or else the argument, asks for offers an
-- enabled route of the capability with the model's name.
pub resolve-not_found :
    (prefix : Option ProviderName) (model : String) (capability : Capability)
    (provider : Option ProviderName) (reg : Registry)
    → resolve prefix model capability provider reg ≡ refused not_found
    → Offers (λ q r. answers (requested_of prefix provider) capability model q r ≡ false) reg
unfolding resolve requested_of
resolve-not_found none model capability provider reg h =
    Offers-no_candidates provider capability model reg
      (no_candidates provider (candidates provider capability model reg) h)
resolve-not_found (some p) model capability none reg h =
    Offers-no_candidates (some p) capability model reg
      (no_candidates (some p) (candidates (some p) capability model reg) h)
resolve-not_found (some p) model capability (some q) reg h = by_prefix (same_provider p q) h
  where
    chosen : Resolution
    chosen = choose_route (some p) (candidates (some p) capability model reg)

    by_prefix :
        (b : Bool)
        → (if b then chosen else refused prefix_conflict) ≡ refused not_found
        → Offers (λ o r. answers (some p) capability model o r ≡ false) reg
    by_prefix true h =
        Offers-no_candidates (some p) capability model reg
          (no_candidates (some p) (candidates (some p) capability model reg) h)
    by_prefix false h = elim (true≢false (sym (ap is_not_found h))) [ ]
