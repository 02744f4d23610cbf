-- ===== src/Router/Send.antt =====
-- `SendRequest` of services/impl/router_service_impl.go. The HTTP client is a parameter with a state
-- of its own, which each attempt may change; the sleeps between the attempts are listed in the
-- result.
use tas_agent_builder.Base.{
  ℕ, zero, suc, ◌+◌, ◌*◌, ◌==◌, leb, if◌then◌else◌, ◌&&◌, ◌||◌, not, Bool, Str, codes, concat,
  is_nil, List, [], ◌∷◌, ◌++◌, Option, none, some, ℤ, pos, negsuc, Result, ok, err, panic, wrap,
  or_wrap,
}
use tas_agent_builder.External.{HttpReply, UuidText}
use tas_agent_builder.Floats.{FloatOps}
use tas_agent_builder.Json.{Fields, end, field, text, number, boolean, null, object, text_array}
use tas_agent_builder.Models.Agent.{AgentLlmConfig}
use tas_agent_builder.Models.Memory.{second}
use tas_agent_builder.Models.Services.{Message, RouterResponse}
use tas_agent_builder.Router.Wire.{
  RouterRequest, RouterChoice, RouterApiResponse, build_request, extract_provider,
  calculate_cost_usd, text_field_or,
}
use tas_agent_builder.Router.Reliability.{ReliabilityMetadata, extract_reliability_metadata}
use tas_agent_builder.Router.Limits.{SupportedModel, LimitsCache, cap_max_tokens_for_model}

pub record RouterConfig : Type 0 where
  pub base_url : Str
  pub api_key : Str
  pub timeout : ℤ
  pub max_retries : ℤ

-- The request that every attempt sends.
pub record HttpPost : Type 0 where
  pub url : Str
  pub authorization : Option Str
  pub user_id : Str
  pub body : Str

-- What one call of `httpClient.Do` comes to: an error, or a status with the result of reading the
-- body and the milliseconds it took.
pub data Attempt : Type 0 where
  no_response : Str → Attempt
  responded : ℕ → Result Str → ℤ → Attempt

pub record Client : Type 1 where
  pub State : Type 0
  pub post : State → HttpPost → State × Attempt

-- What the code reads of the outside: JSON, durations, numbers as text, and floats.
pub record Outside : Type 0 where
  pub marshal : RouterRequest → Result Str
  pub unmarshal : Str → Result RouterApiResponse
  pub parse_duration : Str → Option ℤ
  pub decimal : ℤ → Str
  pub floats : FloatOps

unfoldable pub response_metadata :
    FloatOps → RouterApiResponse → RouterChoice → ReliabilityMetadata → Fields
response_metadata f r choice m = field (codes "request_id") (text r.id) (
    field (codes "finish_reason") (text choice.finish_reason) (
      field (codes "prompt_tokens") (number (f.of_int r.usage.prompt_tokens)) (
        field (codes "completion_tokens") (number (f.of_int r.usage.completion_tokens)) (
          field (codes "created") (number (f.of_int r.created)) (
            field (codes "router_metadata")
              (elim r.router_metadata [ none ↦ null | some fields ↦ object fields ])
              (field (codes "retry_attempts") (number (f.of_int m.retry_attempts)) (
                field (codes "fallback_used") (boolean m.fallback_used) (
                  field (codes "failed_providers") (text_array m.failed_providers) (
                    field (codes "total_retry_time") (number (f.of_int m.total_retry_time)) (
                      field (codes "provider_latency") (number (f.of_int m.provider_latency))
                        (field (codes "routing_reason") (text_array m.routing_reason) end)))))))))))

-- A 200 reply whose body decoded, as the service's response.
unfoldable pub service_response :
    Outside → RouterRequest → ℤ → RouterApiResponse → Result RouterResponse
unfolding response_metadata
service_response out request took r = elim r.choices [
  | [] ↦ err (codes "no choices in router response")
  | choice ∷ more ↦ ok (record {
    content = choice.message.content;
    provider = text_field_or (codes "provider") r.router_metadata (extract_provider r.model);
    model = r.model;
    routing_strategy = request.optimize_for;
    token_usage = r.usage.total_tokens;
    cost_usd = calculate_cost_usd out.floats r.usage r.model;
    response_time_ms = took;
    metadata =
        response_metadata out.floats r choice
          (extract_reliability_metadata out.floats out.parse_duration r.router_metadata);
  })
]

-- `resp.StatusCode == 429 || resp.StatusCode >= 500`
unfoldable pub is_retryable : ℕ → Bool
is_retryable status = status == 429 || leb 500 status

-- The reply of an attempt that is not repeated.
unfoldable pub handle_reply : Outside → RouterRequest → ℕ → Str → ℤ → Result RouterResponse
unfolding service_response
handle_reply out request status body took =
    if not (status == 200)
    then err (
        concat
          (codes "router returned status " ∷ out.decimal (pos status) ∷ codes ": " ∷ body ∷ []))
    else elim (or_wrap "failed to unmarshal router response" (out.unmarshal body)) [
      | ok r ↦ service_response out request took r
      | err e ↦ err e
      | panic ↦ panic
    ]

module _ (client : Client) (out : Outside) where
  open client use {State}

  abbrev pub Outcome : Type 0
  Outcome = State × List ℤ × Result RouterResponse

  -- An attempt with `left` more allowed after it, as the number `attempt`. A failed one sleeps for
  -- `attempt + 1` seconds and is repeated, if it may be.
  unfoldable pub attempts : ℕ → ℕ → RouterRequest → HttpPost → State → Outcome
  unfolding handle_reply is_retryable
  attempts zero attempt request post state =
      let (state', got) = client.post state post in
      elim got [
        | no_response e ↦ (
          state',
          [],
          err (
              concat
                (codes "failed after " ∷ out.decimal (pos attempt) ∷ codes " retries: " ∷ e ∷ [])),
        )
        | responded status (ok body) took ↦ (state', [], handle_reply out request status body took)
        | responded status (err e) took ↦ (state', [], err (wrap "failed to read response body" e))
        | responded status panic took ↦ (state', [], panic)
      ]
  attempts (suc left) attempt request post state =
      let (state', got) = client.post state post in
      let again = attempts left (attempt + 1) request post state' in
      let repeated : Outcome = (again.0, pos ((attempt + 1) * second) ∷ again.1, again.2) in
      elim got [
        | no_response e ↦ repeated
        | responded status (ok body) took ↦
            if not (status == 200) && is_retryable status
            then repeated
            else (state', [], handle_reply out request status body took)
        | responded status (err e) took ↦ (state', [], err (wrap "failed to read response body" e))
        | responded status panic took ↦ (state', [], panic)
      ]

  -- The loop `attempt <= MaxRetries`; with a negative limit it is not entered.
  unfoldable pub send_with_retries : ℤ → RouterRequest → HttpPost → State → Outcome
  unfolding attempts
  send_with_retries (pos max_retries) request post state = attempts max_retries 0 request post state
  send_with_retries (negsuc n) request post state =
      (state, [], err (codes "unexpected error in router request"))

  unfoldable pub send_request :
      RouterConfig
      → UuidText
      → (Str → HttpReply (List SupportedModel))
      → LimitsCache
      → State
      → AgentLlmConfig
      → List Message
      → ℕ
      → LimitsCache × Outcome
  unfolding send_with_retries
  send_request config uuid reply cache state llm messages user_id =
      let (cache', max_tokens) = cap_max_tokens_for_model reply cache llm.max_tokens llm.model in
      let request = build_request out.parse_duration llm max_tokens messages in
      elim (out.marshal request) [
        | ok body ↦ (
          cache',
          send_with_retries config.max_retries request
              (record {
                url = config.base_url ++ codes "/v1/chat/completions";
                authorization =
                    if is_nil config.api_key
                    then none
                    else some (codes "Bearer " ++ config.api_key);
                user_id = uuid.to_string user_id;
                body = body;
              })
              state,
        )
        | err e ↦ (cache', (state, [], err (wrap "failed to marshal router request" e)))
        | panic ↦ (cache', (state, [], panic))
      ]
