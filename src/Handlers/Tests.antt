-- ===== src/Handlers/Tests.antt =====
-- Instances of the theorems about handlers/agent_handlers.go.
use tas_agent_builder.Base.{
  ℕ, zero, suc, ◌==◌, ◌≡◌, ◌↔◌, refl, Bool, true, false, inl, inr, Str, codes, str_eq, List, [],
  ◌∷◌, none, some, Option, ℤ, pos, Result, ok, err, panic, filter,
}
use tas_agent_builder.External.Samples.{sample_uuid}
use tas_agent_builder.External.Tables.{sample_table-updates}
use tas_agent_builder.Json.{Fields, end, field, text, boolean}
use tas_agent_builder.Memory.Samples.{sample_floats}
use tas_agent_builder.Models.Agent.{AgentListResponse}
use tas_agent_builder.Models.Document.{RetrievedChunk, DocumentContextResult, ContextStrategy}
use tas_agent_builder.Models.Execution.{AgentExecution}
use tas_agent_builder.Retrieval.Inject.{format_context_for_injection}
use tas_agent_builder.Agents.Requests.{Outside}
use tas_agent_builder.Handlers.Http.{claimed, go}
use tas_agent_builder.Handlers.Config.{validate_llm_config}
use tas_agent_builder.Handlers.Query.{ListQuery, Readers}
use tas_agent_builder.Handlers.Prompt.{
  DocumentContextService, retrieve_context, get_context_strategy, strategy_of_kind,
  build_system_prompt_with_context,
}
use tas_agent_builder.Handlers.Execute.{check_execute, execute_agent}
use tas_agent_builder.Handlers.Internal.{InternalReply, execute_internal_agent}
use tas_agent_builder.Handlers.Recorded.{execute_agent-Ended}
use tas_agent_builder.Handlers.Endings.{Ended}
use tas_agent_builder.Handlers.Accepted.{IsAccepted, validate_llm_config_iff}
use tas_agent_builder.Handlers.Knowledge.{
  retrieved, IsPrompt, build_system_prompt_with_context-IsPrompt,
}
use tas_agent_builder.Handlers.Reached.{IsRun, execute_internal_agent-IsRun}
use tas_agent_builder.Handlers.Samples.{
  llm, helper, router, agents, executions, one, none_yet, docs, memory, parse, question,
}

execute_agent-Ended_example :
    Ended executions router
      (check_execute agents one (ok 1) (claimed (codes "ann")) (claimed (codes "t")) (ok question))
      7
      none_yet
      (execute_agent executions
        (λ m. ok [])
        memory
        sample_floats
        (pos 5)
        (pos 2)
        agents
        docs
        router
        (λ s. ok (4 ∷ []))
        parse
        true
        one
        (none_yet, [])
        7
        8
        (ok 1)
        (claimed (codes "ann"))
        (claimed (codes "t"))
        (ok question))
execute_agent-Ended_example =
    execute_agent-Ended executions (λ m. ok []) memory sample_floats (pos 5) (pos 2) (λ e. refl)
      (λ a metadata messages. ([], refl))
      (λ s p g keeps. sample_table-updates (λ (e : AgentExecution). e.id) p g keeps s) agents docs
      router (λ s. ok (4 ∷ [])) parse true one none_yet [] 7 8 (ok 1) (claimed (codes "ann"))
      (claimed (codes "t")) (ok question) (λ e h. refl)

validate_llm_config_iff_example :
    (validate_llm_config router sample_floats (λ s. ok (pos 1)) llm ≡ ok tt)
    ↔ IsAccepted router sample_floats (λ s. ok (pos 1)) llm
validate_llm_config_iff_example = validate_llm_config_iff router sample_floats (λ s. ok (pos 1)) llm

abbrev piece : RetrievedChunk
piece = record {
  id = [];
  document_id = codes "d1";
  document_name = [];
  notebook_id = [];
  content = codes "some text";
  chunk_number = pos 0;
  total_chunks = pos 1;
  score = record { bits = 0 };
  distance = record { bits = 0 };
  metadata = none;
  content_type = [];
  language = [];
  page_number = none;
}

abbrev found : DocumentContextResult
found = record {
  chunks = piece ∷ [];
  total_tokens = pos 2;
  truncated_chunks = pos 0;
  strategy = ContextStrategy.full;
  retrieval_time_ms = pos 0;
  metadata = none;
}

abbrev library : DocumentContextService
library = record {
  retrieve_vector_context = λ req. ok none;
  retrieve_full_documents = λ req. ok (some found);
  retrieve_hybrid_context = λ query req v w. ok none;
  format_context_for_injection =
      λ result limit. ok (format_context_for_injection sample_floats (some result) limit);
}

abbrev ids : Str → Result (List ℕ)
ids s = ok (4 ∷ [])

retrieves : retrieved library sample_floats ids helper question ≡ some (ok (some found))
unfolding retrieve_context get_context_strategy strategy_of_kind str_eq
retrieves = refl

calm : ¬ (retrieved library sample_floats ids helper question ≡ some panic)
calm = λ h. cc (retrieves, h)

build_system_prompt_with_context-IsPrompt_example :
    (prompt : Str) × (metadata : Fields) × (build_system_prompt_with_context library sample_floats
        ids helper question
      ≡ ok (prompt, metadata))
    × IsPrompt library sample_floats ids helper question prompt
build_system_prompt_with_context-IsPrompt_example =
    build_system_prompt_with_context-IsPrompt library sample_floats ids helper question
      (λ r n. refl) calm

abbrev out : Outside
out = record {
  ids_json = λ ids. codes "[1]";
  texts_json = λ texts. codes "[]";
  uuid = sample_uuid;
  ilike = λ s pattern. true;
  json_contains = λ s part. true;
  floats = sample_floats;
}

abbrev readers : Readers
readers = record { parse_uuid = parse; texts_of_json = λ s. ok [] }

abbrev query : ListQuery
query = record {
  owner_id = [];
  space_id = [];
  tenant_id = [];
  status = [];
  space_type = [];
  is_public = [];
  is_template = [];
  tags = [];
  search = [];
  page = [];
  size = codes "50";
}

abbrev page : AgentListResponse
page = record { agents = helper ∷ []; total = pos 1; page = pos 1; size = pos 50 }

abbrev body : Fields
body = field (codes "input") (text (codes "What?")) end

abbrev said : InternalReply
said = record {
  execution_id = 9;
  output = codes "hello";
  tokens_used = pos 3;
  cost_usd = record { bits = 0 };
  model = codes "gpt-4o";
  provider = codes "openai";
  routing_strategy = [];
  response_time_ms = pos 1;
  total_time_ms = pos 2;
  context_metadata =
      field (codes "knowledge_enabled") (boolean false)
        (field (codes "reason") (text (codes "no notebook_ids or tenant_id provided")) end);
  conversation_id = codes "s9";
}

runs :
    execute_internal_agent agents docs router sample_floats ids parse one
      (ok 1)
      (claimed (codes "bob"))
      (ok body)
      []
      9
      (codes "s9")
      (pos 2)
    ≡ go (200, said)
unfolding execute_internal_agent tas_agent_builder.Agents.Service.get_internal_agent filter str_eq
runs = refl

execute_internal_agent-IsRun_example : IsRun agents one router 1 said
execute_internal_agent-IsRun_example =
    execute_internal_agent-IsRun agents one docs router sample_floats ids parse 1
      (claimed (codes "bob")) (ok body) [] 9 (codes "s9") (pos 2) 200 said runs
