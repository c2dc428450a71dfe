-- ===== src/Providers/Choice.antt =====
-- The choice among the candidates of a model, and registration, in the provider registry
-- (grok2api/providers/registry.py).
use grokcli_2api.Base.{
  ◌≤◌, ◌≡◌, refl, String, Bool, true, false, not, ◌&&◌, Option, none, some, List, [], ◌∷◌, All,
  arith, if◌then◌else◌, eq_iff, eq_refl, is_some, ltb, ap, sym, ◌∙◌,
}
use mathlib.Core.Path.{subst}
use mathlib.Core.Option.{none-ne-some, some-injective}
use grokcli_2api.Providers.Resolution.{Resolves, least-All}
use grokcli_2api.Providers.Registry.{
  ProviderName, value, same_provider, Capability, ModelRoute, Adapter, Registry, lookup, store,
  register, has_other_provider, least, choose_route, candidates, resolve, resolved, refused,
  ambiguous,
}

-- The least of a list, and what it is compared with.
least-least :
    (best : ModelRoute) (rs : List ModelRoute)
    → ((least best rs).priority ≤ best.priority)
      × All (λ r. (least best rs).priority ≤ r.priority) rs
unfolding least
least-least best [] = (omega arith, tt)
least-least best (r ∷ rs) =
    let rest = least-least (if ltb r.priority best.priority then r else best) rs in
    (ground (arith, rest.0), (ground (arith, rest.0), rest.1))

lookup-store :
    (p q : ProviderName) (a : Adapter) (reg : Registry)
    → lookup q (store p a reg) ≡ (if same_provider p q then some a else lookup q reg)
unfolding lookup store
lookup-store p q a [] = refl
lookup-store p q a ((o, b) ∷ reg) = ground (
  arith,
  eq_iff (value p) (value q),
  eq_iff (value o) (value q),
  eq_iff (value o) (value p),
  lookup-store p q a reg,
)

refused-some :
    (after reg : Registry) (b : Bool)
    → (if b then none else some reg) ≡ some after
    → (b ≡ false) × (reg ≡ after)
refused-some after reg true h = elim (none-ne-some after h) [ ]
refused-some after reg false h = (refl, some-injective reg after h)

-- A registration that is not refused had its provider free or replaces the other; what is registered is
-- found under its provider, and every other provider as before.
pub lookup-register :
    (a : Adapter) (replace : Bool) (reg after : Registry) (q : ProviderName)
    → register a replace reg ≡ some after
    → (is_some (lookup a.provider reg) && not replace ≡ false)
      × (lookup q after ≡ (if same_provider a.provider q then some a else lookup q reg))
unfolding register
lookup-register a replace reg after q h =
    let stored =
      refused-some after (store a.provider a reg) (is_some (lookup a.provider reg) && not replace)
        h in
    (stored.0, sym (ap (lookup q) stored.1) ∙ lookup-store a.provider q a reg)

one_provider :
    (p : ProviderName) (rs : List ModelRoute)
    → has_other_provider p rs ≡ false
    → All (λ r. same_provider r.provider p ≡ true) rs
unfolding has_other_provider
one_provider p [] h = tt
one_provider p (r ∷ rs) h = (ground (arith, h), one_provider p rs (ground (arith, h)))

same_as :
    (p q : ProviderName) (rs : List ModelRoute)
    → same_provider q p ≡ true
    → All (λ r. same_provider r.provider p ≡ true) rs
    → All (λ r. same_provider r.provider q ≡ true) rs
same_as p q [] e a = tt
same_as p q (r ∷ rs) e (b, a) = (
  ground (
    arith,
    eq_iff (value r.provider) (value p),
    eq_iff (value q) (value p),
    eq_iff (value r.provider) (value q),
  ),
  same_as p q rs e a,
)

-- What the choice is: the least priority of all, and with no provider asked for the provider of all.
abbrev IsBest : Option ProviderName → List ModelRoute → ModelRoute → Type 0
IsBest (some p) rs r = All (λ s. r.priority ≤ s.priority) rs
IsBest none rs r =
    All (λ s. r.priority ≤ s.priority) rs × All (λ s. same_provider s.provider r.provider ≡ true) rs

IsBest-choose_route :
    (requested : Option ProviderName) (rs : List ModelRoute)
    → Resolves (IsBest requested rs) (choose_route requested rs)
unfolding choose_route
IsBest-choose_route none [] = tt
IsBest-choose_route (some p) [] = tt
IsBest-choose_route (some p) (r ∷ rs) = least-least r rs
IsBest-choose_route none (r ∷ rs) = by_provider (has_other_provider r.provider rs) refl
  where
    by_provider :
        (b : Bool)
        → has_other_provider r.provider rs ≡ b
        → Resolves (IsBest none (r ∷ rs)) (if b then refused ambiguous else resolved (least r rs))
    by_provider true h = tt
    by_provider false h =
        let here = eq_refl (value r.provider) in
        let same = one_provider r.provider rs h in
        (
          least-least r rs,
          same_as r.provider (least r rs).provider (r ∷ rs)
              (least-All (λ s. same_provider s.provider r.provider ≡ true) r rs here same)
              (here, same),
        )

-- A model that is asked for without a provider and that resolves to a route has no candidate of another
-- provider, and none of a lower priority number: no request moves from one provider to another.
pub resolve_without_failover :
    (model : String) (capability : Capability) (reg : Registry) (r : ModelRoute)
    → resolve none model capability none reg ≡ resolved r
    → All (λ s. r.priority ≤ s.priority) (candidates none capability model reg)
      × All (λ s. same_provider s.provider r.provider ≡ true) (candidates none capability model reg)
unfolding resolve
resolve_without_failover model capability reg r h =
    subst (Resolves (IsBest none (candidates none capability model reg))) h
      (IsBest-choose_route none (candidates none capability model reg))
