-- ===== src/MultiPass/Execute.antt =====
-- `ExecuteMultiPass` of services/impl/multipass_service_impl.go. The router is a parameter, with a
-- state of its own; the times are left at 0.
use tas_agent_builder.Base.{
  ℕ, ◌+◌, if◌then◌else◌, not, Bool, true, false, Str, codes, List, [], ◌∷◌, ◌++◌, Option, none,
  some, length, take, ℤ, pos, pos_part, ltb_ℤ, ◌+ℤ◌, Result, ok, err, panic, wrap, or_wrap,
}
use tas_agent_builder.Models.Agent.{Agent, AgentLlmConfig}
use tas_agent_builder.Models.Services.{Message, RouterResponse}
use tas_agent_builder.Models.Document.{
  DocumentContextResult, ContextInjectionResult, MultiPassConfig, SegmentResult, MultiPassResult,
}
use tas_agent_builder.MultiPass.Segments.{segment_documents}
use tas_agent_builder.MultiPass.Prompts.{
  build_segment_system_prompt, build_extraction_prompt, aggregation_prompt,
}

-- services.RouterService, as far as this code calls it.
pub record Sender : Type 1 where
  pub State : Type 0
  pub send_request : State → AgentLlmConfig → List Message → ℕ → State × Result RouterResponse

unfoldable pub default_multi_pass_config : MultiPassConfig
default_multi_pass_config = record {
  enabled = false;
  segment_size = pos 8000;
  overlap_tokens = pos 500;
  max_passes = pos 10;
  aggregation_prompt = [];
}

unfoldable pub get_multi_pass_config : Agent → MultiPassConfig
unfolding default_multi_pass_config
get_multi_pass_config agent = elim agent.document_context [
  | none ↦ default_multi_pass_config
  | some context ↦ elim context.multi_pass [
    | none ↦ default_multi_pass_config
    | some config ↦ config
  ]
]

-- `segments[:config.MaxPasses]`, which panics for a negative limit.
unfoldable pub limit_passes : ℤ → List ContextInjectionResult → Result (List ContextInjectionResult)
limit_passes max_passes segments =
    if not (ltb_ℤ max_passes (pos (length segments)))
    then ok segments
    else if ltb_ℤ max_passes (pos 0)
    then panic
    else ok (take (pos_part max_passes) segments)

unfoldable pub segment_result : ℕ → ContextInjectionResult → RouterResponse → SegmentResult
segment_result i segment response = record {
  segment_number = pos (i + 1);
  content = segment.formatted_context;
  partial_result = response.content;
  tokens_used = response.token_usage;
  processing_time_ms = pos 0;
}

module _ (router : Sender) (decimal : ℤ → Str) (estimate : Str → ℤ) where
  open router use {State}

  unfoldable pub segment_messages : Agent → ContextInjectionResult → Str → ℕ → ℕ → List Message
  segment_messages agent segment user_input i total =
      record { role = codes "system"; content = build_segment_system_prompt agent }
      ∷ record {
        role = codes "user";
        content = build_extraction_prompt decimal segment user_input (pos (i + 1)) (pos total);
      }
      ∷ []

  -- The loop over the segments, from the number `i` on, with `total` segments and the tokens so far.
  unfoldable pub process_segments :
      State
      → Agent
      → Str
      → ℕ
      → ℕ
      → ℕ
      → ℤ
      → List ContextInjectionResult
      → State × Result (List SegmentResult × ℤ)
  unfolding segment_messages segment_result
  process_segments state agent user_input user_id total i tokens [] = (state, ok ([], tokens))
  process_segments state agent user_input user_id total i tokens (segment ∷ rest) =
      let (state', response) =
        router.send_request state agent.llm_config
          (segment_messages agent segment user_input i total) user_id in
      elim response [
        | ok r ↦
            let (state'', done) =
              process_segments state' agent user_input user_id total (i + 1)
                (tokens +ℤ r.token_usage) rest in
            elim done [
              | ok (results, sum) ↦ (state'', ok (segment_result i segment r ∷ results, sum))
              | err e ↦ (state'', err e)
              | panic ↦ (state'', panic)
            ]
        | err e ↦ (
          state',
          err (codes "failed to process segment " ++ (decimal (pos (i + 1)) ++ (codes ": " ++ e))),
        )
        | panic ↦ (state', panic)
      ]

  unfoldable pub aggregation_messages : Agent → List SegmentResult → Str → List Message
  aggregation_messages agent results user_input =
      record {
        role = codes "system";
        content =
            codes
              "You are an expert at synthesizing and summarizing information from multiple sources.";
      }
      ∷ record {
        role = codes "user";
        content = aggregation_prompt decimal agent results user_input;
      }
      ∷ []

  unfoldable pub aggregate_results :
      State → Agent → List SegmentResult → Str → ℕ → State × Result Str
  unfolding aggregation_messages
  aggregate_results state agent results user_input user_id =
      let (state', response) =
        router.send_request state agent.llm_config (aggregation_messages agent results user_input)
          user_id in
      elim response [
        | ok r ↦ (state', ok r.content)
        | err e ↦ (state', err (wrap "aggregation request failed" e))
        | panic ↦ (state', panic)
      ]

  unfoldable pub multi_pass_result : List SegmentResult → Str → ℤ → MultiPassResult
  multi_pass_result results aggregated tokens = record {
    segments = results;
    aggregated_result = aggregated;
    total_passes = pos (length results);
    total_tokens = tokens;
    processing_time_ms = pos 0;
  }

  -- What follows the loop: more than one result is aggregated, a single one is the answer. An
  -- empty list would be an index out of range.
  unfoldable pub finish :
      State → Agent → Str → ℕ → List SegmentResult → ℤ → State × Result MultiPassResult
  unfolding multi_pass_result
  finish state agent user_input user_id [] tokens = (state, panic)
  finish state agent user_input user_id (result ∷ []) tokens =
      (state, ok (multi_pass_result (result ∷ []) result.partial_result tokens))
  finish state agent user_input user_id (result ∷ next ∷ rest) tokens =
      let (state', aggregated) =
        aggregate_results state agent (result ∷ next ∷ rest) user_input user_id in
      elim (or_wrap "failed to aggregate results" aggregated) [
        | ok answer ↦ (state', ok (multi_pass_result (result ∷ next ∷ rest) answer tokens))
        | err e ↦ (state', err e)
        | panic ↦ (state', panic)
      ]

  unfoldable pub run_segments :
      State → Agent → Str → ℕ → List ContextInjectionResult → State × Result MultiPassResult
  unfolding finish process_segments
  run_segments state agent user_input user_id segments =
      let (state', done) =
        process_segments state agent user_input user_id (length segments) 0 (pos 0) segments in
      elim done [
        | ok (results, tokens) ↦ finish state' agent user_input user_id results tokens
        | err e ↦ (state', err e)
        | panic ↦ (state', panic)
      ]

  -- The segments of a request; no documents is no segment.
  unfoldable pub segments_of :
      MultiPassConfig → Option DocumentContextResult → List ContextInjectionResult
  segments_of config none = []
  segments_of config (some documents) =
      segment_documents estimate documents.chunks config.segment_size config.overlap_tokens

  unfoldable pub execute_multi_pass :
      State → Agent → Option DocumentContextResult → Str → ℕ → State × Result MultiPassResult
  unfolding get_multi_pass_config segments_of run_segments limit_passes
  execute_multi_pass state agent documents user_input user_id =
      let config = get_multi_pass_config agent in
      let segments = segments_of config documents in
      if not config.enabled
      then (state, err (codes "multi-pass execution is not enabled for this agent"))
      else if is_empty segments
      then (state, err (codes "no document segments to process"))
      else elim (limit_passes config.max_passes segments) [
        | ok passes ↦ run_segments state agent user_input user_id passes
        | err e ↦ (state, err e)
        | panic ↦ (state, panic)
      ]
    where
      is_empty : List ContextInjectionResult → Bool
      is_empty [] = true
      is_empty (s ∷ rest) = false
