-- ===== src/Router/Providers.antt =====
-- The providers of services/impl/router_service_impl.go.
use tas_agent_builder.Base.{
  ◌==◌, if◌then◌else◌, not, Str, codes, concat, str_eq, is_nil, List, [], ◌∷◌, map, ℤ, pos, Result,
  ok, err, panic, wrap, or_wrap, ◌||◌, Bool, false,
}
use tas_agent_builder.External.{HttpReply, unreachable, answered}
use tas_agent_builder.Floats.{Float}
use tas_agent_builder.Models.Agent.{AgentLlmConfig}
use tas_agent_builder.Models.Services.{Provider, Model}
use tas_agent_builder.Router.Wire.{capitalize_first}

-- The models that the code knows of a provider.
unfoldable pub known_models : Str → List Str
known_models name =
    if str_eq name (codes "openai")
    then codes "gpt-3.5-turbo" ∷ codes "gpt-4o" ∷ codes "gpt-4" ∷ codes "gpt-4-turbo" ∷ []
    else if str_eq name (codes "anthropic")
    then codes "claude-sonnet-4-20250514"
      ∷ codes "claude-3-haiku-20240307"
      ∷ codes "claude-3-opus-20240229"
      ∷ []
    else []

unfoldable pub provider_of_name : Str → Provider
unfolding known_models
provider_of_name name = record {
  name = name;
  display_name = capitalize_first name;
  models = known_models name;
  features = codes "chat_completions" ∷ [];
}

-- `decode` is the wrapping of a body that does not decode; `decimal` prints a status.
unfoldable pub reply_or_error : (ℤ → Str) → HttpReply (List Str) → Result (List Str)
reply_or_error decimal (unreachable e) = err (wrap "failed to send request" e)
reply_or_error decimal (answered status body decoded) =
    if not (status == 200)
    then err
        (concat (codes "router returned status " ∷ decimal (pos status) ∷ codes ": " ∷ body ∷ []))
    else or_wrap "failed to decode providers response" decoded

unfoldable pub get_available_providers : (ℤ → Str) → HttpReply (List Str) → Result (List Provider)
unfolding reply_or_error provider_of_name
get_available_providers decimal reply = elim (reply_or_error decimal reply) [
  | ok names ↦ ok (map provider_of_name names)
  | err e ↦ err e
  | panic ↦ panic
]

-- A model as the reply about a provider lists it.
pub record ModelInfo : Type 0 where
  pub name : Str
  pub display_name : Str
  pub max_tokens : ℤ
  pub cost_per_1000 : Float
  pub features : List Str

unfoldable pub model_of_info : Str → ModelInfo → Model
model_of_info provider m = record {
  name = m.name;
  display_name = m.display_name;
  provider = provider;
  max_tokens = m.max_tokens;
  cost_per_1000 = m.cost_per_1000;
  features = m.features;
}

unfoldable pub get_provider_models :
    (ℤ → Str) → Str → HttpReply (List ModelInfo) → Result (List Model)
unfolding model_of_info
get_provider_models decimal provider (unreachable e) = err (wrap "failed to send request" e)
get_provider_models decimal provider (answered status body decoded) =
    if not (status == 200)
    then err
        (concat (codes "router returned status " ∷ decimal (pos status) ∷ codes ": " ∷ body ∷ []))
    else elim (or_wrap "failed to decode provider response" decoded) [
      | ok infos ↦ ok (map (model_of_info provider) infos)
      | err e ↦ err e
      | panic ↦ panic
    ]

unfoldable pub has_text : Str → List Str → Bool
has_text s [] = false
has_text s (t ∷ rest) = str_eq t s || has_text s rest

-- The loops of `ValidateConfig`: the first provider of the name decides.
unfoldable pub check_provider : AgentLlmConfig → List Provider → Result (Unit {0})
unfolding has_text
check_provider config [] =
    err (concat (codes "provider " ∷ config.provider ∷ codes " not available" ∷ []))
check_provider config (p ∷ rest) =
    let later = check_provider config rest in
    if str_eq p.name config.provider
    then if has_text config.model p.models
      then ok tt
      else err (
          concat (
            codes "model "
            ∷ config.model
            ∷ codes " not available for provider "
            ∷ config.provider
            ∷ []))
    else later

unfoldable pub validate_config :
    (ℤ → Str) → HttpReply (List Str) → AgentLlmConfig → Result (Unit {0})
unfolding check_provider
validate_config decimal reply config =
    if is_nil config.provider
    then err (codes "provider is required")
    else if is_nil config.model
    then err (codes "model is required")
    else elim (or_wrap "failed to get available providers"
        (get_available_providers decimal reply)) [
          | ok providers ↦ check_provider config providers
          | err e ↦ err e
          | panic ↦ panic
        ]
