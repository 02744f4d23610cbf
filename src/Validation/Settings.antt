-- ===== src/Validation/Settings.antt =====
-- The settings that services/impl/validation.go checks: of the language model, of the document
-- context and of multi-pass processing. An empty strategy or scope is `other_…` of "".
use tas_agent_builder.Base.{
  if◌then◌else◌, ◌||◌, not, Bool, false, Str, codes, concat, is_nil, List, [], ◌∷◌, ◌++◌, Option,
  none, some, ℤ, pos, ltb_ℤ, leb_ℤ,
}
use tas_agent_builder.Floats.{Float, FloatOps}
use tas_agent_builder.Models.Agent.{
  AgentLlmConfig, RetryConfig, FallbackConfig, DocumentScope, DocumentContextConfig,
}
use tas_agent_builder.Models.Document.{ContextStrategy, MultiPassConfig}

pub record ValidationError : Type 0 where
  pub field : Str
  pub message : Str

-- `if bad { errors = append(errors, …) }`
unfoldable pub error_if : Bool → Str → Str → List ValidationError
error_if bad field message = if bad then record { field = field; message = message } ∷ [] else []

-- `x < 0.0 || x > 1.0`
unfoldable pub outside_unit : FloatOps → Float → Bool
outside_unit f x = f.lt x (f.ratio 0 1) || f.lt (f.ratio 1 1) x

unfoldable pub validate_multi_pass_config : MultiPassConfig → List ValidationError
unfolding error_if
validate_multi_pass_config cfg =
    error_if (ltb_ℤ cfg.segment_size (pos 100)) (codes "document_context.multi_pass.segment_size")
      (codes "segment_size must be at least 100 tokens")
    ++ (error_if (ltb_ℤ (pos 128000) cfg.segment_size)
          (codes "document_context.multi_pass.segment_size")
          (codes "segment_size must be 128000 or less")
        ++ (error_if (ltb_ℤ cfg.overlap_tokens (pos 0))
              (codes "document_context.multi_pass.overlap_tokens")
              (codes "overlap_tokens must be non-negative")
            ++ (error_if (leb_ℤ cfg.segment_size cfg.overlap_tokens)
                  (codes "document_context.multi_pass.overlap_tokens")
                  (codes "overlap_tokens must be less than segment_size")
                ++ (error_if (ltb_ℤ cfg.max_passes (pos 1))
                      (codes "document_context.multi_pass.max_passes")
                      (codes "max_passes must be at least 1")
                    ++ error_if (ltb_ℤ (pos 50) cfg.max_passes)
                        (codes "document_context.multi_pass.max_passes")
                        (codes "max_passes must be 50 or less")))))

unfoldable pub strategy_errors : ContextStrategy → List ValidationError
unfolding error_if
strategy_errors (ContextStrategy.other_strategy s) =
    error_if (not (is_nil s)) (codes "document_context.strategy") (
      concat (
        codes "invalid strategy '"
        ∷ s
        ∷ codes "', must be one of: vector, full, hybrid, mcp, none"
        ∷ []))
strategy_errors _ = []

unfoldable pub scope_errors : DocumentScope → List ValidationError
unfolding error_if
scope_errors (DocumentScope.other_scope s) =
    error_if (not (is_nil s)) (codes "document_context.scope")
      (concat (codes "invalid scope '" ∷ s ∷ codes "', must be one of: all, selected, none" ∷ []))
scope_errors _ = []

unfoldable pub multi_pass_errors : Option MultiPassConfig → List ValidationError
unfolding validate_multi_pass_config
multi_pass_errors none = []
multi_pass_errors (some cfg) = validate_multi_pass_config cfg

unfoldable pub validate_document_context_config :
    FloatOps → DocumentContextConfig → List ValidationError
unfolding strategy_errors scope_errors multi_pass_errors outside_unit
validate_document_context_config f cfg =
    strategy_errors cfg.strategy
    ++ (scope_errors cfg.scope
        ++ (error_if (ltb_ℤ cfg.max_context_tokens (pos 0))
              (codes "document_context.max_context_tokens")
              (codes "max_context_tokens must be non-negative")
            ++ (error_if (ltb_ℤ (pos 128000) cfg.max_context_tokens)
                  (codes "document_context.max_context_tokens")
                  (codes "max_context_tokens must be 128000 or less")
                ++ (error_if (ltb_ℤ cfg.top_k (pos 0)) (codes "document_context.top_k")
                      (codes "top_k must be non-negative")
                    ++ (error_if (ltb_ℤ (pos 100) cfg.top_k) (codes "document_context.top_k")
                          (codes "top_k must be 100 or less")
                        ++ (error_if (outside_unit f cfg.min_score)
                              (codes "document_context.min_score")
                              (codes "min_score must be between 0.0 and 1.0")
                            ++ (error_if (outside_unit f cfg.vector_weight)
                                  (codes "document_context.vector_weight")
                                  (codes "vector_weight must be between 0.0 and 1.0")
                                ++ (error_if (outside_unit f cfg.full_doc_weight)
                                      (codes "document_context.full_doc_weight")
                                      (codes "full_doc_weight must be between 0.0 and 1.0")
                                    ++ multi_pass_errors cfg.multi_pass))))))))

-- A check on a setting that may be absent.
abbrev pub given {ℓ} : {A : Type ℓ} → Option A → (A → Bool) → Bool
given none bad = false
given (some a) bad = bad a

unfoldable pub fallback_below_zero : FloatOps → Option FallbackConfig → Bool
fallback_below_zero f none = false
fallback_below_zero f (some fallback) = given fallback.max_cost_increase (λ x. f.lt x (f.ratio 0 1))

unfoldable pub bad_temperature : FloatOps → Float → Bool
bad_temperature f x = f.lt x (f.ratio 0 1) || f.lt (f.ratio 2 1) x

unfoldable pub bad_max_tokens : ℤ → Bool
bad_max_tokens n = ltb_ℤ n (pos 1) || ltb_ℤ (pos 128000) n

unfoldable pub bad_top_k : ℤ → Bool
bad_top_k n = ltb_ℤ n (pos 0)

unfoldable pub bad_retries : RetryConfig → Bool
bad_retries r = ltb_ℤ r.max_attempts (pos 1) || ltb_ℤ (pos 10) r.max_attempts

-- A chain of `if bad { return fmt.Errorf(message) }`: the message of the first failed check.
unfoldable pub first_failed : List (Bool × Str) → Option Str
first_failed [] = none
first_failed ((bad, message) ∷ rest) =
    let later = first_failed rest in if bad then some message else later

-- The checks of `validateLLMConfig`, in order.
unfoldable pub llm_checks : FloatOps → AgentLlmConfig → List (Bool × Str)
unfolding fallback_below_zero
llm_checks f cfg =
    (is_nil cfg.provider, codes "provider is required")
    ∷ (is_nil cfg.model, codes "model is required")
    ∷ (given cfg.temperature (bad_temperature f), codes "temperature must be between 0.0 and 2.0")
    ∷ (given cfg.max_tokens bad_max_tokens, codes "max_tokens must be between 1 and 128000")
    ∷ (given cfg.top_p (outside_unit f), codes "top_p must be between 0.0 and 1.0")
    ∷ (given cfg.top_k bad_top_k, codes "top_k must be non-negative")
    ∷ (
      given cfg.retry_config bad_retries,
      codes "retry_config.max_attempts must be between 1 and 10",
    )
    ∷ (
      fallback_below_zero f cfg.fallback_config,
      codes "fallback_config.max_cost_increase must be non-negative",
    )
    ∷ []

-- The error of `validateLLMConfig`, if there is one.
unfoldable pub validate_llm_config : FloatOps → AgentLlmConfig → Option Str
unfolding first_failed llm_checks
validate_llm_config f cfg = first_failed (llm_checks f cfg)
