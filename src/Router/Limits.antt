-- ===== src/Router/Limits.antt =====
-- The limits on output tokens in services/impl/router_service_impl.go: fetched from the router for
-- a whole provider, and kept in a map.
use tas_agent_builder.Base.{
  ◌==◌, if◌then◌else◌, Str, codes, str_eq, List, [], ◌∷◌, Option, none, some, ℤ, pos, ltb_ℤ, ok,
  err, panic,
}
use tas_agent_builder.External.{HttpReply, unreachable, answered}
use tas_agent_builder.Floats.{Float}
use tas_agent_builder.Router.Wire.{extract_provider}

pub record SupportedModel : Type 0 where
  pub name : Str
  pub display_name : Str
  pub max_context_window : ℤ
  pub max_output_tokens : ℤ
  pub input_cost_per_1k : Float
  pub output_cost_per_1k : Float
  pub provider_model_id : Str

-- `modelLimitsCache`: the first entry of a name counts.
abbrev pub LimitsCache : Type 0
LimitsCache = List (Str × ℤ)

unfoldable pub find_limit : Str → LimitsCache → Option ℤ
find_limit model [] = none
find_limit model ((name, limit) ∷ rest) =
    let later = find_limit model rest in if str_eq name model then some limit else later

-- The loop that stores the positive limits.
unfoldable pub store_limits : LimitsCache → List SupportedModel → LimitsCache
store_limits cache [] = cache
store_limits cache (m ∷ rest) =
    let stored = store_limits ((m.name, m.max_output_tokens) ∷ cache) rest in
    let kept = store_limits cache rest in if ltb_ℤ (pos 0) m.max_output_tokens then stored else kept

-- The limit in the cache, and 4096 without one.
unfoldable pub limit_or_default : Str → LimitsCache → ℤ
limit_or_default model cache = elim (find_limit model cache) [ some n ↦ n | none ↦ pos 4096 ]

unfoldable pub limits_of_reply : LimitsCache → HttpReply (List SupportedModel) → LimitsCache
limits_of_reply cache (unreachable e) = cache
limits_of_reply cache (answered status body decoded) =
    if status == 200
    then elim decoded [ ok models ↦ store_limits cache models | err e ↦ cache | panic ↦ cache ]
    else cache

-- `reply` is what the router answers about a provider, where it is asked. If it does not answer
-- with a list of models, the cache does not have the model, and the default is returned.
unfoldable pub get_model_max_output_tokens :
    (Str → HttpReply (List SupportedModel)) → LimitsCache → Str → LimitsCache × ℤ
unfolding limit_or_default limits_of_reply
get_model_max_output_tokens reply cache model = elim (find_limit model cache) [
  | some limit ↦ (cache, limit)
  | none ↦
      if str_eq (extract_provider model) (codes "unknown")
      then (cache, pos 4096)
      else let cache' = limits_of_reply cache (reply (extract_provider model)) in
        (cache', limit_or_default model cache')
]

unfoldable pub cap_max_tokens_for_model :
    (Str → HttpReply (List SupportedModel)) → LimitsCache → Option ℤ → Str → LimitsCache × Option ℤ
cap_max_tokens_for_model reply cache none model = (cache, none)
cap_max_tokens_for_model reply cache (some max_tokens) model =
    let (cache', limit) = get_model_max_output_tokens reply cache model in
    (cache', some (if ltb_ℤ limit max_tokens then limit else max_tokens))
