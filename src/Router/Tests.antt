-- ===== src/Router/Tests.antt =====
-- Instances of the theorems about services/impl/router_service_impl.go.
use tas_agent_builder.Base.{
  ℕ, zero, suc, ◌≡◌, ◌↔◌, refl, true, Str, codes, List, [], ◌∷◌, none, some, ℤ, pos, ◌≤ℤ◌, ◌<ℤ◌, ok,
  err, arith,
}
use tas_agent_builder.External.{HttpReply, unreachable, answered}
use tas_agent_builder.Memory.Samples.{sample_floats}
use tas_agent_builder.Models.Agent.{AgentLlmConfig}
use tas_agent_builder.Router.Wire.{RouterRequest, build_request}
use tas_agent_builder.Router.Limits.{
  SupportedModel, LimitsCache, get_model_max_output_tokens, cap_max_tokens_for_model,
}
use tas_agent_builder.Router.Send.{
  HttpPost, Attempt, no_response, responded, Client, Outside, handle_reply, is_retryable,
  send_with_retries,
}
use tas_agent_builder.Router.Providers.{known_models, has_text, validate_config}
use tas_agent_builder.Router.Retries.{linear, send_with_retries-reply, send_with_retries-exhausted}
use tas_agent_builder.Router.Capped.{IsPositive, cap_max_tokens_for_model-IsPositive}
use tas_agent_builder.Router.Available.{validate_config-ok}

abbrev llm : AgentLlmConfig
llm = record {
  provider = codes "openai";
  model = codes "gpt-4o";
  temperature = none;
  max_tokens = none;
  top_p = none;
  top_k = none;
  stop = [];
  metadata = none;
  optimize_for = [];
  required_features = [];
  max_cost = none;
  retry_config = none;
  fallback_config = none;
}

abbrev outside : Outside
outside = record {
  marshal = λ request. ok [];
  unmarshal = λ body. err (codes "no JSON");
  parse_duration = λ s. none;
  decimal = λ n. [];
  floats = sample_floats;
}

abbrev request : RouterRequest
request = build_request (λ s. none) llm none []

abbrev post : HttpPost
post = record { url = []; authorization = none; user_id = []; body = [] }

unfoldable nth_reply : ℕ → Attempt
nth_reply zero = no_response (codes "refused")
nth_reply (suc zero) = responded 503 (ok []) (pos 2)
nth_reply (suc (suc n)) = responded 200 (ok (codes "{}")) (pos 2)

-- The first request is refused, the second answered with 503, and every later one with 200.
abbrev flaky : Client
flaky = record { State = ℕ; post = λ s request. (suc s, nth_reply s) }

abbrev dead : Client
dead = record { State = ℕ; post = λ s request. (suc s, no_response (codes "refused")) }

send_with_retries-reply_example :
    send_with_retries flaky outside (pos 3) request post 0
    ≡ (3, linear 0 2, handle_reply outside request 200 (codes "{}") (pos 2))
unfolding nth_reply is_retryable
send_with_retries-reply_example =
    send_with_retries-reply flaky outside 2 3 request post 0 2 (codes "{}") (pos 2) (omega arith)
      (tt, (refl, refl)) refl

send_with_retries-exhausted_example :
    (e : Str) × (send_with_retries dead outside (pos 1) request post 0 ≡ (2, linear 0 1, err e))
send_with_retries-exhausted_example =
    send_with_retries-exhausted dead outside 1 request post 0 2 (tt, (tt, refl))

abbrev no_reply : Str → HttpReply (List SupportedModel)
no_reply provider = unreachable (codes "refused")

abbrev kept : LimitsCache
kept = (codes "gpt-4o", pos 16384) ∷ []

cap_max_tokens_for_model-IsPositive_example :
    (n : ℤ) × ((cap_max_tokens_for_model no_reply kept (some (pos 20000)) (codes "gpt-4o")).1
      ≡ some n)
    × (pos 0 <ℤ n)
    × (n ≤ℤ pos 20000)
    × (n ≤ℤ (get_model_max_output_tokens no_reply kept (codes "gpt-4o")).1)
    × IsPositive (cap_max_tokens_for_model no_reply kept (some (pos 20000)) (codes "gpt-4o")).0
cap_max_tokens_for_model-IsPositive_example =
    cap_max_tokens_for_model-IsPositive no_reply kept (codes "gpt-4o") (pos 20000) (omega arith, tt)
      (omega arith)

validate_config-ok_example :
    (validate_config (λ n. []) (answered 200 [] (ok (codes "openai" ∷ []))) llm ≡ ok tt) ↔ (
      (has_text (codes "openai") (codes "openai" ∷ []) ≡ true)
      × (has_text (codes "gpt-4o") (known_models (codes "openai")) ≡ true))
validate_config-ok_example = validate_config-ok (λ n. []) [] (codes "openai" ∷ []) llm
