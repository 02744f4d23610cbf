-- ===== src/MultiPass/Tests.antt =====
-- Instances of the theorems about services/impl/multipass_service_impl.go at three chunks.
use tas_agent_builder.Base.{
  ℕ, ◌+◌, ◌≡◌, refl, true, false, Str, codes, List, [], ◌∷◌, none, some, length, ℤ, pos, ok, ◌+ℤ◌,
}
use tas_agent_builder.Json.{end}
use tas_agent_builder.Models.Agent.{Agent, AgentLlmConfig, DocumentScope}
use tas_agent_builder.Models.Document.{
  RetrievedChunk, DocumentContextResult, ContextInjectionResult, ContextStrategy, MultiPassResult,
}
use tas_agent_builder.MultiPass.Segments.{
  Segment, segment_documents, segments_from, overflows, with_chunk, next_segment,
  get_overlap_chunks, overlap_from, count_tokens, format_segment, format_segments,
}
use tas_agent_builder.MultiPass.Coverage.{Covers, segment_documents-Covers}
use tas_agent_builder.MultiPass.Execute.{
  Sender, execute_multi_pass, get_multi_pass_config, segments_of,
}
use tas_agent_builder.MultiPass.Passes.{Passes, Answers, Combined, used, execute_multi_pass-Answers}

abbrev piece : Str → RetrievedChunk
piece content = record {
  id = [];
  document_id = codes "d1";
  document_name = [];
  notebook_id = [];
  content = content;
  chunk_number = pos 0;
  total_chunks = pos 1;
  score = record { bits = 0 };
  distance = record { bits = 0 };
  metadata = none;
  content_type = [];
  language = [];
  page_number = none;
}

-- A token for each character.
abbrev by_length : Str → ℤ
by_length s = pos (length s)

abbrev three : List RetrievedChunk
three = piece (codes "aaaa") ∷ piece (codes "bbb") ∷ piece (codes "cc") ∷ []

-- Five tokens a segment and one of overlap: the last segment takes over the chunk of three.
segments_run :
    segments_from by_length (pos 5) (pos 1) ([], pos 0) three
    ≡ (piece (codes "aaaa") ∷ [], pos 4)
      ∷ (piece (codes "aaaa") ∷ piece (codes "bbb") ∷ [], pos 7)
      ∷ (piece (codes "bbb") ∷ piece (codes "cc") ∷ [], pos 5)
      ∷ []
unfolding segments_from overflows with_chunk next_segment get_overlap_chunks overlap_from
    count_tokens ◌+ℤ◌
segments_run = refl

segment_documents-Covers_example :
    (segments : List (Segment by_length)) × (segment_documents by_length three (pos 5) (pos 1)
      ≡ format_segments by_length segments)
    × Covers by_length (pos 5) [] segments three
segment_documents-Covers_example = segment_documents-Covers by_length three (pos 5) (pos 1)

abbrev llm : AgentLlmConfig
llm = record {
  provider = codes "openai";
  model = codes "gpt-4o";
  temperature = none;
  max_tokens = none;
  top_p = none;
  top_k = none;
  stop = [];
  metadata = none;
  optimize_for = [];
  required_features = [];
  max_cost = none;
  retry_config = none;
  fallback_config = none;
}

-- At most two passes over segments of five tokens.
abbrev reader : Agent
reader = record {
  id = 7;
  name = codes "reader";
  description = [];
  system_prompt = codes "Read.";
  llm_config = llm;
  owner_id = codes "u1";
  space_id = codes "s1";
  tenant_id = codes "t1";
  status = codes "published";
  space_type = codes "personal";
  kind = codes "producer";
  is_public = false;
  is_template = false;
  is_internal = false;
  notebook_ids = codes "[]";
  enable_knowledge = true;
  enable_memory = false;
  document_context = some (record {
    strategy = ContextStrategy.full;
    scope = DocumentScope.all_documents;
    default_documents = [];
    include_sub_notebooks = false;
    max_context_tokens = pos 8000;
    top_k = pos 10;
    min_score = record { bits = 0 };
    vector_weight = record { bits = 0 };
    full_doc_weight = record { bits = 0 };
    multi_pass = some (record {
      enabled = true;
      segment_size = pos 5;
      overlap_tokens = pos 1;
      max_passes = pos 2;
      aggregation_prompt = [];
    });
  });
  tags = codes "[]";
  total_executions = pos 0;
  total_cost_usd = record { bits = 0 };
  avg_response_time_ms = pos 0;
  last_executed_at = none;
  created_at = pos 1;
  updated_at = pos 1;
  deleted_at = none;
}

-- A router that counts its requests and answers each with nine tokens.
abbrev counting : Sender
counting = record {
  State = ℕ;
  send_request = λ s config messages user_id. (
    s + 1,
    ok (record {
      content = codes "fine";
      provider = codes "openai";
      model = codes "gpt-4o";
      routing_strategy = codes "cost";
      token_usage = pos 9;
      cost_usd = record { bits = 0 };
      response_time_ms = pos 1;
      metadata = end;
    }),
  );
}

abbrev documents : DocumentContextResult
documents = record {
  chunks = three;
  total_tokens = pos 9;
  truncated_chunks = pos 0;
  strategy = ContextStrategy.full;
  retrieval_time_ms = pos 0;
  metadata = none;
}

abbrev no_digits : ℤ → Str
no_digits n = []

abbrev first_segment : ContextInjectionResult
first_segment = format_segment (piece (codes "aaaa") ∷ []) (pos 4)

abbrev more_segments : List ContextInjectionResult
more_segments =
    format_segment (piece (codes "aaaa") ∷ piece (codes "bbb") ∷ []) (pos 7)
    ∷ format_segment (piece (codes "bbb") ∷ piece (codes "cc") ∷ []) (pos 5)
    ∷ []

segments_of_runs :
    segments_of counting no_digits by_length (get_multi_pass_config reader) (some documents)
    ≡ first_segment ∷ more_segments
unfolding segments_of get_multi_pass_config segment_documents format_segments segments_from
    overflows with_chunk next_segment get_overlap_chunks overlap_from count_tokens ◌+ℤ◌
segments_of_runs = refl

-- Two of the three segments are sent.
execute_multi_pass-Answers_example :
    (result : MultiPassResult) × (passes : List ContextInjectionResult) × ((execute_multi_pass
        counting no_digits by_length 0 reader
        (some documents)
        (codes "why")
        1).1
      ≡ ok result)
    × Passes (pos 2) (first_segment ∷ more_segments) passes
    × Answers counting no_digits by_length 0 reader
        (codes "why")
        1
        (length passes)
        0
        passes
        result.segments
    × Combined counting no_digits by_length reader
        (codes "why")
        1
        result.segments
        result.aggregated_result
    × (result.total_passes ≡ pos (length passes))
    × (result.total_tokens ≡ used result.segments)
unfolding get_multi_pass_config
execute_multi_pass-Answers_example =
    execute_multi_pass-Answers counting no_digits by_length (λ s config messages user_id. (_, refl))
      0 reader (some documents) (codes "why") 1 1 first_segment more_segments refl refl
      segments_of_runs
