-- ===== src/Router/Wire.antt =====
-- The messages of services/impl/router_service_impl.go to the router and back, and the small
-- helpers that build them. `time.ParseDuration` is a parameter.
use tas_agent_builder.Base.{
  ◌-◌, if◌then◌else◌, ◌&&◌, ltb, leb, Bool, Str, codes, str_eq, is_nil, List, [], ◌∷◌, Option, none,
  some, length, take, ℤ, pos,
}
use tas_agent_builder.Floats.{Float, FloatOps}
use tas_agent_builder.Json.{Fields, get_field, as_text}
use tas_agent_builder.Models.Agent
use tas_agent_builder.Models.Agent.{AgentLlmConfig}
use tas_agent_builder.Models.Services.{Message}

-- Durations are nanoseconds.
pub record RouterRetryConfig : Type 0 where
  pub max_attempts : ℤ
  pub backoff_type : Str
  pub base_delay : ℤ
  pub max_delay : ℤ
  pub retryable_errors : List Str

pub record RouterRequest : Type 0 where
  pub model : Str
  pub messages : List Message
  pub temperature : Option Float
  pub max_tokens : Option ℤ
  pub top_p : Option Float
  pub top_k : Option ℤ
  pub stop : List Str
  pub optimize_for : Str
  pub required_features : List Str
  pub max_cost : Option Float
  pub retry_config : Option RouterRetryConfig
  pub fallback_config : Option Agent.FallbackConfig

pub record RouterChoice : Type 0 where
  pub index : ℤ
  pub message : Message
  pub finish_reason : Str

pub record RouterUsage : Type 0 where
  pub prompt_tokens : ℤ
  pub completion_tokens : ℤ
  pub total_tokens : ℤ

pub record RouterApiResponse : Type 0 where
  pub id : Str
  pub object : Str
  pub created : ℤ
  pub model : Str
  pub choices : List RouterChoice
  pub usage : RouterUsage
  pub router_metadata : Option Fields

-- The duration of a text that is not empty and parses, and 0 otherwise.
unfoldable pub delay_of : (Str → Option ℤ) → Str → ℤ
delay_of parse_duration s =
    if is_nil s then pos 0 else elim (parse_duration s) [ some d ↦ d | none ↦ pos 0 ]

unfoldable pub build_retry_config :
    (Str → Option ℤ) → Option Agent.RetryConfig → Option RouterRetryConfig
unfolding delay_of
build_retry_config parse_duration none = none
build_retry_config parse_duration (some retry) = some (record {
  max_attempts = retry.max_attempts;
  backoff_type = retry.backoff_type;
  base_delay = delay_of parse_duration retry.base_delay;
  max_delay = delay_of parse_duration retry.max_delay;
  retryable_errors = retry.retryable_errors;
})

-- The two types have the same fields, and every field is copied.
unfoldable pub build_fallback_config : Option Agent.FallbackConfig → Option Agent.FallbackConfig
build_fallback_config none = none
build_fallback_config (some fallback) = some (record {
  enabled = fallback.enabled;
  preferred_chain = fallback.preferred_chain;
  max_cost_increase = fallback.max_cost_increase;
  require_same_features = fallback.require_same_features;
})

-- `len(s) > n && s[:n] == prefix`, where `n` is the length of the prefix.
unfoldable pub longer_with : Str → Str → Bool
longer_with prefix s = ltb (length prefix) (length s) && str_eq (take (length prefix) s) prefix

unfoldable pub extract_provider : Str → Str
unfolding longer_with
extract_provider model =
    if longer_with (codes "gpt") model
    then codes "openai"
    else if longer_with (codes "claude") model
    then codes "anthropic"
    else codes "unknown"

-- `strings.ToUpper` of the first byte; one that is no ASCII character becomes U+FFFD.
unfoldable pub capitalize_first : Str → Str
capitalize_first [] = []
capitalize_first (c ∷ rest) =
    if leb 97 c && leb c 122
    then (c - 32) ∷ rest
    else if ltb c 128
    then c ∷ rest
    else 239 ∷ 191 ∷ 189 ∷ rest

unfoldable pub calculate_cost_usd : FloatOps → RouterUsage → Str → Float
unfolding longer_with
calculate_cost_usd f usage model =
    let per_thousand : Float → Float =
      λ rate. f.div (f.mul (f.of_int usage.total_tokens) rate) (f.of_int (pos 1000)) in
    if str_eq model (codes "gpt-3.5-turbo")
    then per_thousand (f.ratio 1 1000)
    else if str_eq model (codes "gpt-4o")
    then per_thousand (f.ratio 3 100)
    else if longer_with (codes "claude") model
    then per_thousand (f.ratio 15 1000)
    else f.ratio 0 1

-- The metadata's text for a key, if it has one, or else the default.
unfoldable pub text_field_or : Str → Option Fields → Str → Str
text_field_or key none default = default
text_field_or key (some m) default = elim (as_text (get_field key m)) [
  | some s ↦ s
  | none ↦ default
]

-- The optimization that is asked for: "cost", the metadata's, and over both the explicit one.
unfoldable pub optimize_for_of : AgentLlmConfig → Str
unfolding text_field_or
optimize_for_of config =
    if is_nil config.optimize_for
    then text_field_or (codes "optimize_for") config.metadata (codes "cost")
    else config.optimize_for

unfoldable pub build_request :
    (Str → Option ℤ) → AgentLlmConfig → Option ℤ → List Message → RouterRequest
unfolding build_retry_config build_fallback_config optimize_for_of
build_request parse_duration config max_tokens messages = record {
  model = config.model;
  messages = messages;
  temperature = config.temperature;
  max_tokens = max_tokens;
  top_p = config.top_p;
  top_k = none;
  stop = config.stop;
  optimize_for = optimize_for_of config;
  required_features = config.required_features;
  max_cost = config.max_cost;
  retry_config = build_retry_config parse_duration config.retry_config;
  fallback_config = build_fallback_config config.fallback_config;
}
