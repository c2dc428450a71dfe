-- ===== src/Providers/Tests.antt =====
-- The provider registry's theorems at concrete inputs.
use grokcli_2api.Base.{◌≤◌, ◌≡◌, refl, true, false, none, some, [], ◌∷◌, All}
use grokcli_2api.Providers.Registry.{
  ProviderName, build, web, chat, ModelRoute, Adapter, Registry, filter_routes, wants_provider,
  wants_capability, keeps_route, collect_routes, compare_routes, insert_route, sort_routes, routes,
  names_model, has_other_provider, least, choose_route, candidates, resolve, same_provider,
}
use grokcli_2api.Providers.Resolution.{resolve_sound, Fits, Offers, requested_of}
use grokcli_2api.Providers.Missing.{answers, resolve-not_found}
use grokcli_2api.Providers.Choice.{resolve_without_failover}

abbrev fast : ModelRoute
fast = record {
  public_model = "grok-4-fast";
  provider = build;
  upstream_model = "grok-4-fast-2";
  capability = chat;
  priority = 1;
  enabled = true;
}

abbrev slow : ModelRoute
slow = record fast { upstream_model = "grok-4-fast-1"; priority = 2 }

abbrev page : ModelRoute
page = record fast { public_model = "grok-web"; upstream_model = "grok-web"; provider = web }

abbrev of_build : Adapter
of_build = record { provider = build; model_routes = slow ∷ fast ∷ [] }

abbrev of_web : Adapter
of_web = record { provider = web; model_routes = page ∷ [] }

abbrev both : Registry
both = (build, of_build) ∷ (web, of_web) ∷ []

-- A route says the provider that it is offered under.
abbrev SaysProvider : ProviderName → ModelRoute → Type 0
SaysProvider q r = same_provider r.provider q ≡ true

resolve_sound_example : Fits SaysProvider none chat fast × (names_model "grok-4-fast" fast ≡ true)
unfolding resolve choose_route candidates routes collect_routes sort_routes insert_route
    compare_routes filter_routes keeps_route wants_provider wants_capability names_model
    has_other_provider least requested_of
resolve_sound_example =
    resolve_sound SaysProvider none "grok-4-fast" chat none both fast
      ((refl, (refl, tt)), ((refl, tt), tt)) refl

resolve_without_failover_example :
    All (λ s. fast.priority ≤ s.priority) (candidates none chat "grok-4-fast" both)
    × All
        (λ s. same_provider s.provider fast.provider ≡ true)
        (candidates none chat "grok-4-fast" both)
unfolding resolve choose_route candidates routes collect_routes sort_routes insert_route
    compare_routes filter_routes keeps_route wants_provider wants_capability names_model
    has_other_provider least
resolve_without_failover_example = resolve_without_failover "grok-4-fast" chat both fast refl

resolve-not_found_example : Offers (λ q r. answers (some web) chat "grok-4-fast" q r ≡ false) both
unfolding resolve choose_route candidates routes collect_routes sort_routes insert_route
    compare_routes filter_routes keeps_route wants_provider wants_capability names_model
    requested_of
resolve-not_found_example = resolve-not_found (some web) "grok-4-fast" chat none both refl
