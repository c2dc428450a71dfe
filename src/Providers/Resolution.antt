-- ===== src/Providers/Resolution.antt =====
-- What the provider registry (grok2api/providers/registry.py) resolves a model to.
use grokcli_2api.Base.{
  ltb, ◌≡◌, String, Bool, true, false, Option, none, some, List, [], ◌∷◌, ◌++◌, All, arith,
  if◌then◌else◌, Bool-cases, inl, inr,
}
use Prim.Native.Nat.{Ordering}
use mathlib.Core.Path.{subst}
use grokcli_2api.Providers.Registry.{
  ProviderName, same_provider, same_capability, Capability, ModelRoute, Registry, wants_provider,
  wants_capability, keeps_route, filter_routes, collect_routes, compare_routes, insert_route,
  sort_routes, routes, Resolution, resolved, refused, ambiguous, prefix_conflict, names_model,
  has_other_provider, least, choose_route, candidates, resolve,
}

-- Predicates through the lists.
module _ (P : ModelRoute → Type 0) where
  All-append : (rs ss : List ModelRoute) → All P rs → All P ss → All P (rs ++ ss)
  All-append [] ss a b = b
  All-append (r ∷ rs) ss (p, a) b = (p, All-append rs ss a b)

  All-by_order :
      (o : Ordering) (after before : List ModelRoute)
      → All P after
      → All P before
      → All P (elim o [ Ordering.gt ↦ after | _ ↦ before ])
  All-by_order Ordering.gt after before a b = a
  All-by_order Ordering.lt after before a b = b
  All-by_order Ordering.eq after before a b = b

  All-insert_route :
      (r : ModelRoute) (rs : List ModelRoute) → P r → All P rs → All P (insert_route r rs)
  unfolding insert_route
  All-insert_route r [] p a = (p, a)
  All-insert_route r (s ∷ rs) p (q, a) =
      All-by_order (compare_routes r s) (s ∷ insert_route r rs) (r ∷ s ∷ rs)
        (q, All-insert_route r rs p a) (p, (q, a))

  All-sort_routes : (rs : List ModelRoute) → All P rs → All P (sort_routes rs)
  unfolding sort_routes
  All-sort_routes [] a = a
  All-sort_routes (r ∷ rs) (p, a) = All-insert_route r (sort_routes rs) p (All-sort_routes rs a)

  if-P : (b : Bool) (r s : ModelRoute) → P r → P s → P (if b then r else s)
  if-P true r s p q = p
  if-P false r s p q = q

  pub least-All : (best : ModelRoute) (rs : List ModelRoute) → P best → All P rs → P (least best rs)
  unfolding least
  least-All best [] p a = p
  least-All best (r ∷ rs) p (q, a) =
      least-All (if ltb r.priority best.priority then r else best) rs
        (if-P (ltb r.priority best.priority) r best q p) a

module _ (P Q : ModelRoute → Type 0) where
  All-filter_routes :
      (test : ModelRoute → Bool)
      → ((r : ModelRoute) → P r → test r ≡ true → Q r)
      → (rs : List ModelRoute) → All P rs
      → All Q (filter_routes test rs)
  unfolding filter_routes
  All-filter_routes test f [] a = a
  All-filter_routes test f (r ∷ rs) (p, a) = elim (Bool-cases (test r)) [
    | inl holds ↦ rw holds (f r p holds, All-filter_routes test f rs a)
    | inr fails ↦ rw fails (All-filter_routes test f rs a)
  ]

-- What each adapter offers under its key.
abbrev pub Offers : (ProviderName → ModelRoute → Type 0) → Registry → Type 0
Offers P [] = Unit
Offers P ((q, a) ∷ reg) = All (P q) a.model_routes × Offers P reg

-- A route that was offered under a wanted key, is enabled, and has the capability.
abbrev pub Fits :
    (ProviderName → ModelRoute → Type 0) → Option ProviderName → Capability → ModelRoute → Type 0
Fits P requested capability r =
    ((q : ProviderName) × P q r × (wants_provider requested q ≡ true))
    × (r.enabled ≡ true)
    × (same_capability r.capability capability ≡ true)

module _ (P : ProviderName → ModelRoute → Type 0) (requested : Option ProviderName)
    (capability : Capability) where
  Fits-keeps_route :
      (q : ProviderName)
      → wants_provider requested q ≡ true
      → (r : ModelRoute) → P q r
      → keeps_route (some capability) true r ≡ true
      → Fits P requested capability r
  unfolding keeps_route wants_capability
  Fits-keeps_route q w r p k = ((q, p, w), ground arith, ground arith)

  Fits-collect_routes :
      (reg : Registry)
      → Offers P reg
      → All (Fits P requested capability) (collect_routes requested (some capability) true reg)
  unfolding collect_routes
  Fits-collect_routes [] o = tt
  Fits-collect_routes ((q, a) ∷ reg) (here, rest) = elim (Bool-cases (wants_provider requested q)) [
    | inl wanted ↦ rw wanted (
        All-append (Fits P requested capability)
          (filter_routes (keeps_route (some capability) true) a.model_routes)
          (collect_routes requested (some capability) true reg)
          (All-filter_routes (P q) (Fits P requested capability)
            (keeps_route (some capability) true) (Fits-keeps_route q wanted) a.model_routes here)
          (Fits-collect_routes reg rest))
    | inr unwanted ↦ rw unwanted (Fits-collect_routes reg rest)
  ]

  -- A candidate fits and has the model's name.
  Fits-candidates :
      (model : String) (reg : Registry)
      → Offers P reg
      → All
          (λ r. Fits P requested capability r × (names_model model r ≡ true))
          (candidates requested capability model reg)
  unfolding candidates routes
  Fits-candidates model reg o =
      All-filter_routes (Fits P requested capability)
        (λ r. Fits P requested capability r × (names_model model r ≡ true)) (names_model model)
        (λ r f n. (f, n)) (sort_routes (collect_routes requested (some capability) true reg))
        (All-sort_routes (Fits P requested capability)
          (collect_routes requested (some capability) true reg) (Fits-collect_routes reg o))

-- What a choice resolves to is one of the candidates.
abbrev pub Resolves : (ModelRoute → Type 0) → Resolution → Type 0
Resolves P (resolved r) = P r
Resolves P (refused e) = Unit

Resolves-choose_route :
    (P : ModelRoute → Type 0) (requested : Option ProviderName) (rs : List ModelRoute)
    → All P rs
    → Resolves P (choose_route requested rs)
unfolding choose_route
Resolves-choose_route P requested [] a = tt
Resolves-choose_route P (some p) (r ∷ rs) (q, a) = least-All P r rs q a
Resolves-choose_route P none (r ∷ rs) (q, a) = by_provider (has_other_provider r.provider rs)
  where
    by_provider : (b : Bool) → Resolves P (if b then refused ambiguous else resolved (least r rs))
    by_provider true = tt
    by_provider false = least-All P r rs q a

-- The provider that a reference and an argument ask for together.
unfoldable pub requested_of : Option ProviderName → Option ProviderName → Option ProviderName
requested_of none provider = provider
requested_of (some p) provider = some p

Resolves-resolve :
    (P : ProviderName → ModelRoute → Type 0) (prefix : Option ProviderName) (model : String)
    (capability : Capability) (provider : Option ProviderName) (reg : Registry)
    → Offers P reg
    → Resolves
        (λ r. Fits P (requested_of prefix provider) capability r × (names_model model r ≡ true))
        (resolve prefix model capability provider reg)
unfolding resolve requested_of
Resolves-resolve P none model capability provider reg o =
    Resolves-choose_route (λ r. Fits P provider capability r × (names_model model r ≡ true))
      provider (candidates provider capability model reg)
      (Fits-candidates P provider capability model reg o)
Resolves-resolve P (some p) model capability none reg o =
    Resolves-choose_route (λ r. Fits P (some p) capability r × (names_model model r ≡ true))
      (some p) (candidates (some p) capability model reg)
      (Fits-candidates P (some p) capability model reg o)
Resolves-resolve P (some p) model capability (some q) reg o = by_prefix (same_provider p q)
  where
    by_prefix :
        (b : Bool)
        → Resolves
            (λ r. Fits P (some p) capability r × (names_model model r ≡ true))
            (if b
              then choose_route (some p) (candidates (some p) capability model reg)
              else refused prefix_conflict)
    by_prefix true =
        Resolves-choose_route (λ r. Fits P (some p) capability r × (names_model model r ≡ true))
          (some p) (candidates (some p) capability model reg)
          (Fits-candidates P (some p) capability model reg o)
    by_prefix false = tt

-- The route that a model resolves to was offered by an adapter under a key that the prefix, or else the
-- argument, asks for; it is enabled, has the wanted capability, and its public or upstream name is the
-- model's. `P` is any property of the routes that each adapter offers.
pub resolve_sound :
    (P : ProviderName → ModelRoute → Type 0) (prefix : Option ProviderName) (model : String)
    (capability : Capability) (provider : Option ProviderName) (reg : Registry) (r : ModelRoute)
    → Offers P reg
    → resolve prefix model capability provider reg ≡ resolved r
    → Fits P (requested_of prefix provider) capability r × (names_model model r ≡ true)
resolve_sound P prefix model capability provider reg r o e =
    subst
      (Resolves
        (λ s. Fits P (requested_of prefix provider) capability s × (names_model model s ≡ true)))
      e (Resolves-resolve P prefix model capability provider reg o)
