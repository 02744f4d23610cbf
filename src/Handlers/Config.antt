-- ===== src/Handlers/Config.antt =====
-- The checks of a configuration in handlers/agent_handlers.go and what the handlers recommend, with the
-- ready configurations of models/agent.go.
use tas_agent_builder.Base.{
  if◌then◌else◌, ◌&&◌, ◌||◌, not, Bool, true, false, Str, codes, concat, str_eq, is_nil, List, [],
  ◌∷◌, map, Option, none, some, ℤ, pos, ltb_ℤ, Result, ok, err, or_wrap, ◌>>=◌,
}
use tas_agent_builder.Floats.{Float, FloatOps}
use tas_agent_builder.Models.Agent.{RetryConfig, FallbackConfig, AgentLlmConfig}
use tas_agent_builder.Models.Services.{Provider}
use tas_agent_builder.Router.Providers.{has_text}
use tas_agent_builder.Handlers.Http.{RouterService}

unfoldable pub default_retry_config : RetryConfig
default_retry_config = record {
  max_attempts = pos 3;
  backoff_type = codes "exponential";
  base_delay = codes "1s";
  max_delay = codes "30s";
  retryable_errors =
      codes "timeout" ∷ codes "connection" ∷ codes "unavailable" ∷ codes "rate_limit" ∷ [];
}

unfoldable pub high_reliability_retry : RetryConfig
high_reliability_retry = record {
  max_attempts = pos 5;
  backoff_type = codes "exponential";
  base_delay = codes "500ms";
  max_delay = codes "60s";
  retryable_errors =
      codes "timeout"
      ∷ codes "connection"
      ∷ codes "unavailable"
      ∷ codes "rate_limit"
      ∷ codes "server_error"
      ∷ [];
}

unfoldable pub cost_optimized_retry : RetryConfig
cost_optimized_retry = record {
  max_attempts = pos 2;
  backoff_type = codes "linear";
  base_delay = codes "2s";
  max_delay = codes "10s";
  retryable_errors = codes "timeout" ∷ codes "connection" ∷ [];
}

unfoldable pub performance_optimized_retry : RetryConfig
performance_optimized_retry = record {
  max_attempts = pos 2;
  backoff_type = codes "linear";
  base_delay = codes "100ms";
  max_delay = codes "2s";
  retryable_errors = codes "timeout" ∷ codes "connection" ∷ [];
}

module _ (f : FloatOps) where
  unfoldable pub default_fallback_config : FallbackConfig
  default_fallback_config = record {
    enabled = true;
    preferred_chain = [];
    max_cost_increase = some (f.ratio 5 10);
    require_same_features = true;
  }

  unfoldable pub high_reliability_config : RetryConfig × FallbackConfig
  unfolding high_reliability_retry
  high_reliability_config = (
    high_reliability_retry,
    record {
      enabled = true;
      preferred_chain = [];
      max_cost_increase = some (f.ratio 10 10);
      require_same_features = false;
    },
  )

  unfoldable pub cost_optimized_config : RetryConfig × FallbackConfig
  unfolding cost_optimized_retry
  cost_optimized_config = (
    cost_optimized_retry,
    record {
      enabled = true;
      preferred_chain = codes "openai" ∷ codes "anthropic" ∷ [];
      max_cost_increase = some (f.ratio 2 10);
      require_same_features = true;
    },
  )

  unfoldable pub performance_optimized_config : RetryConfig × FallbackConfig
  unfolding performance_optimized_retry
  performance_optimized_config = (
    performance_optimized_retry,
    record {
      enabled = true;
      preferred_chain = codes "openai" ∷ codes "anthropic" ∷ [];
      max_cost_increase = some (f.ratio 3 10);
      require_same_features = true;
    },
  )

-- The result of `time.ParseDuration`: nanoseconds, or an error.
abbrev pub Durations : Type 0
Durations = Str → Result ℤ

-- `if text != "" { if _, err := time.ParseDuration(text); err != nil { … } }`
unfoldable pub check_delay : Durations → Str → Result {0} Unit
check_delay parse [] = ok tt
check_delay parse (c ∷ delay) = parse (c ∷ delay) >>= λ n. ok tt

unfoldable pub validate_retry_config : Durations → RetryConfig → Result {0} Unit
unfolding check_delay
validate_retry_config parse config =
    if ltb_ℤ config.max_attempts (pos 1) || ltb_ℤ (pos 5) config.max_attempts
    then err (codes "max_attempts must be between 1 and 5")
    else if not (is_nil config.backoff_type)
        && (not (str_eq config.backoff_type (codes "exponential"))
            && not (str_eq config.backoff_type (codes "linear")))
    then err (codes "backoff_type must be 'exponential' or 'linear'")
    else or_wrap "invalid base_delay format" (check_delay parse config.base_delay) >>= λ u.
        or_wrap "invalid max_delay format" (check_delay parse config.max_delay)

-- The loop over `PreferredChain`.
unfoldable pub check_chain : List Str → List Str → Result {0} Unit
check_chain available [] = ok tt
check_chain available (name ∷ chain) =
    let rest = check_chain available chain in
    if has_text name available
    then rest
    else err
        (concat (codes "provider '" ∷ name ∷ codes "' in preferred_chain is not available" ∷ []))

unfoldable pub cost_out_of_range : FloatOps → Option Float → Bool
cost_out_of_range f none = false
cost_out_of_range f (some x) = f.lt x (f.ratio 0 1) || f.lt (f.ratio 20 10) x

-- `if config != nil { if err := check(*config); err != nil { … } }`
abbrev pub when_given {ℓ} : {A : Type ℓ} → Option A → (A → Result {0} Unit) → Result {0} Unit
when_given none check = ok tt
when_given (some a) check = check a

module _ (router : RouterService) (f : FloatOps) where
  unfoldable pub check_preferred_chain : List Str → Result {0} Unit
  unfolding check_chain
  check_preferred_chain [] = ok tt
  check_preferred_chain (name ∷ chain) =
      or_wrap "failed to validate providers" router.get_available_providers >>= λ providers.
      check_chain (map (λ (p : Provider). p.name) providers) (name ∷ chain)

  unfoldable pub validate_fallback_config : FallbackConfig → Result {0} Unit
  unfolding cost_out_of_range check_preferred_chain
  validate_fallback_config config =
      if cost_out_of_range f config.max_cost_increase
      then err (codes "max_cost_increase must be between 0 and 2.0 (0-200%)")
      else check_preferred_chain config.preferred_chain

  unfoldable pub validate_llm_config : Durations → AgentLlmConfig → Result {0} Unit
  unfolding validate_retry_config validate_fallback_config
  validate_llm_config parse config =
      or_wrap "router validation failed" (router.validate_config config) >>= λ u.
      or_wrap "invalid retry config" (when_given config.retry_config (validate_retry_config parse))
      >>= λ v.
          or_wrap "invalid fallback config"
            (when_given config.fallback_config validate_fallback_config)

pub record Recommendations : Type 0 where
  pub retry_config : RetryConfig
  pub fallback_config : FallbackConfig
  pub reason : Str
  pub provider_tips : List (Str × Str)

unfoldable pub provider_tips_of : Str → List (Str × Str)
provider_tips_of provider =
    if str_eq provider (codes "openai")
    then (codes "model_upgrade", codes "Consider upgrading to gpt-4o for better performance")
      ∷ (codes "features", codes "OpenAI supports function calling and vision capabilities")
      ∷ []
    else if str_eq provider (codes "anthropic")
    then (
      codes "model_latest",
      codes "Claude 3.5 Sonnet offers the best balance of speed and capability",
    )
      ∷ (codes "context", codes "Claude models support very large context windows (200k tokens)")
      ∷ []
    else []

unfoldable pub recommend : RetryConfig × FallbackConfig → Str → List (Str × Str) → Recommendations
recommend (retry, fallback) reason tips = record {
  retry_config = retry;
  fallback_config = fallback;
  reason = reason;
  provider_tips = tips;
}

unfoldable pub generate_config_recommendations : FloatOps → AgentLlmConfig → Recommendations
unfolding recommend provider_tips_of high_reliability_config cost_optimized_config
    performance_optimized_config
generate_config_recommendations f config =
    let tips = provider_tips_of config.provider in
    if str_eq config.optimize_for (codes "performance")
    then recommend (performance_optimized_config f)
        (codes "Performance-optimized configuration with minimal retry delays") tips
    else if str_eq config.optimize_for (codes "cost")
    then recommend (cost_optimized_config f)
        (codes "Cost-optimized configuration with conservative retry and fallback") tips
    else recommend (high_reliability_config f)
        (codes "High-reliability configuration for maximum uptime") tips
