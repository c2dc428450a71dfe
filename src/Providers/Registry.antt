-- ===== src/Providers/Registry.antt =====
-- The provider registry (grok2api/providers/registry.py, grok2api/providers/types.py): registration of
-- adapters and strict resolution of a model to a route. What an adapter's `model_routes()` returns is a
-- parameter: a field of `Adapter`. Enumerations come in normalized, and a model reference comes in
-- parsed: the provider that its prefix names, if it names one, and the bare model.
use grokcli_2api.Base.{
  ℕ, String, Bool, true, false, not, ◌&&◌, ◌||◌, Option, none, some, List, [], ◌∷◌, ◌++◌, str_eq,
  ltb, is_some, if◌then◌else◌,
}
use Prim.Native.Nat.{compare as compare_ℕ, Ordering}
use Prim.Native.String.{compare as compare_text, then as or_then}

pub data ProviderName : Type 0 where
  build web console : ProviderName

-- `ProviderName.value`
abbrev pub value : ProviderName → String
value build = "grok_build"
value web = "grok_web"
value console = "grok_console"

pub data Capability : Type 0 where
  chat responses messages image image_edit video tts stt realtime : Capability

-- `Capability.value`
abbrev pub capability_value : Capability → String
capability_value chat = "chat"
capability_value responses = "responses"
capability_value messages = "messages"
capability_value image = "image"
capability_value image_edit = "image_edit"
capability_value video = "video"
capability_value tts = "tts"
capability_value stt = "stt"
capability_value realtime = "realtime"

-- Members of an enumeration of texts are compared by their values.
abbrev pub same_provider : ProviderName → ProviderName → Bool
same_provider a b = str_eq (value a) (value b)

abbrev pub same_capability : Capability → Capability → Bool
same_capability a b = str_eq (capability_value a) (capability_value b)

-- The fields that resolution reads.
pub record ModelRoute : Type 0 where
  pub public_model : String
  pub provider : ProviderName
  pub upstream_model : String
  pub capability : Capability
  pub priority : ℕ
  pub enabled : Bool

pub record Adapter : Type 0 where
  pub provider : ProviderName
  pub model_routes : List ModelRoute

-- `self._adapters`, in insertion order.
abbrev pub Registry : Type 0
Registry = List (ProviderName × Adapter)

unfoldable pub lookup : ProviderName → Registry → Option Adapter
lookup p [] = none
lookup p ((q, a) ∷ r) = if same_provider q p then some a else lookup p r

unfoldable pub store : ProviderName → Adapter → Registry → Registry
store p a [] = (p, a) ∷ []
store p a ((q, b) ∷ r) = if same_provider q p then (q, a) ∷ r else (q, b) ∷ store p a r

-- `register`; `none` for the `ValueError`.
unfoldable pub register : Adapter → Bool → Registry → Option Registry
register a replace reg =
    if is_some (lookup a.provider reg) && not replace then none else some (store a.provider a reg)

-- A filter that may be absent.
unfoldable pub wants_provider : Option ProviderName → ProviderName → Bool
wants_provider none q = true
wants_provider (some p) q = same_provider q p

unfoldable pub wants_capability : Option Capability → Capability → Bool
wants_capability none d = true
wants_capability (some c) d = same_capability d c

unfoldable pub keeps_route : Option Capability → Bool → ModelRoute → Bool
unfolding wants_capability
keeps_route capability enabled_only route =
    not (enabled_only && not route.enabled) && wants_capability capability route.capability

unfoldable pub filter_routes : (ModelRoute → Bool) → List ModelRoute → List ModelRoute
filter_routes test [] = []
filter_routes test (r ∷ rs) = let rest = filter_routes test rs in if test r then r ∷ rest else rest

-- The two loops of `routes`, before the sort.
unfoldable pub collect_routes :
    Option ProviderName → Option Capability → Bool → Registry → List ModelRoute
unfolding wants_provider keeps_route filter_routes
collect_routes provider capability enabled_only [] = []
collect_routes provider capability enabled_only ((q, a) ∷ reg) =
    let rest = collect_routes provider capability enabled_only reg in
    if wants_provider provider q
    then filter_routes (keeps_route capability enabled_only) a.model_routes ++ rest
    else rest

-- The sort key: priority, provider, public model.
unfoldable pub compare_routes : ModelRoute → ModelRoute → Ordering
compare_routes a b = or_then (compare_ℕ a.priority b.priority) (
    or_then (compare_text (value a.provider) (value b.provider))
      (compare_text a.public_model b.public_model))

unfoldable pub insert_route : ModelRoute → List ModelRoute → List ModelRoute
unfolding compare_routes
insert_route r [] = r ∷ []
insert_route r (s ∷ rs) =
    let rest = insert_route r rs in
    elim (compare_routes r s) [ Ordering.gt ↦ s ∷ rest | _ ↦ r ∷ s ∷ rs ]

-- `values.sort(...)`, stable.
unfoldable pub sort_routes : List ModelRoute → List ModelRoute
unfolding insert_route
sort_routes [] = []
sort_routes (r ∷ rs) = insert_route r (sort_routes rs)

unfoldable pub routes : Option ProviderName → Option Capability → Bool → Registry → List ModelRoute
unfolding collect_routes sort_routes
routes provider capability enabled_only reg =
    sort_routes (collect_routes provider capability enabled_only reg)

-- The errors of `resolve`.
pub data RouteError : Type 0 where
  prefix_conflict not_found ambiguous : RouteError

pub data Resolution : Type 0 where
  resolved : ModelRoute → Resolution
  refused : RouteError → Resolution

unfoldable pub names_model : String → ModelRoute → Bool
names_model model r = str_eq r.public_model model || str_eq r.upstream_model model

-- More than one provider among the candidates.
unfoldable pub has_other_provider : ProviderName → List ModelRoute → Bool
has_other_provider p [] = false
has_other_provider p (r ∷ rs) = not (same_provider r.provider p) || has_other_provider p rs

-- `min(candidates, key=priority)`: the first of the least priority.
unfoldable pub least : ModelRoute → List ModelRoute → ModelRoute
least best [] = best
least best (r ∷ rs) = least (if ltb r.priority best.priority then r else best) rs

-- The choice among the candidates.
unfoldable pub choose_route : Option ProviderName → List ModelRoute → Resolution
unfolding has_other_provider least
choose_route requested [] = refused not_found
choose_route (some p) (r ∷ rs) = resolved (least r rs)
choose_route none (r ∷ rs) =
    if has_other_provider r.provider rs then refused ambiguous else resolved (least r rs)

unfoldable pub candidates : Option ProviderName → Capability → String → Registry → List ModelRoute
unfolding names_model filter_routes
candidates requested capability model reg =
    filter_routes (names_model model) (routes requested (some capability) true reg)

-- `resolve`, on the parsed reference (`prefix`, `model`).
unfoldable pub resolve :
    Option ProviderName → String → Capability → Option ProviderName → Registry → Resolution
unfolding choose_route candidates
resolve none model capability provider reg =
    choose_route provider (candidates provider capability model reg)
resolve (some p) model capability none reg =
    choose_route (some p) (candidates (some p) capability model reg)
resolve (some p) model capability (some q) reg =
    if same_provider p q
    then choose_route (some p) (candidates (some p) capability model reg)
    else refused prefix_conflict
