-- ===== src/Handlers/Prompt.antt =====
-- The system prompt in handlers/agent_handlers.go, with the context of documents.
use tas_agent_builder.Base.{
  ℕ, ◌==◌, if◌then◌else◌, ◌||◌, not, true, false, Str, codes, concat, str_eq, is_nil, List, [], ◌∷◌,
  ◌++◌, Option, none, some, length, ℤ, pos, ltb_ℤ, Result, ok, err, panic,
}
use tas_agent_builder.Floats.{Float, FloatOps}
use tas_agent_builder.Json.{Fields, end, field, set_field, text, number, boolean}
use tas_agent_builder.Models.Agent.{Agent, DocumentContextConfig}
use tas_agent_builder.Models.Document.{
  ContextStrategy, VectorSearchRequest, ChunkRetrievalRequest, DocumentContextResult,
  ContextInjectionResult,
}
use tas_agent_builder.Models.Services.{ExecutionContextRequest}

-- services.DocumentContextService, as the handlers use it; a nil result is `none`.
pub record DocumentContextService : Type 0 where
  pub retrieve_vector_context : VectorSearchRequest → Result (Option DocumentContextResult)
  pub retrieve_full_documents : ChunkRetrievalRequest → Result (Option DocumentContextResult)
  pub retrieve_hybrid_context :
      Str → ChunkRetrievalRequest → Float → Float → Result (Option DocumentContextResult)
  pub format_context_for_injection : DocumentContextResult → ℤ → Result ContextInjectionResult

unfoldable pub build_system_prompt : Agent → Str
build_system_prompt agent = concat (
    (if is_nil agent.name
      then codes "You are a helpful AI assistant."
      else concat (codes "You are " ∷ agent.name ∷ codes ", an AI assistant." ∷ []))
    ∷ (if is_nil agent.description then [] else codes " " ++ agent.description)
    ∷ codes " Provide helpful, accurate, and well-structured responses."
    ∷ [])

-- `basePrompt`
unfoldable pub base_prompt : Agent → Str
unfolding build_system_prompt
base_prompt agent =
    if is_nil agent.system_prompt then build_system_prompt agent else agent.system_prompt

-- A JSON text that is nil or does not decode holds no ids; `ids_of_json` decodes it.
unfoldable pub parse_notebook_ids : (Str → Result (List ℕ)) → Agent → List ℕ
parse_notebook_ids ids_of_json agent =
    if is_nil agent.notebook_ids
    then []
    else elim (ids_of_json agent.notebook_ids) [ ok ids ↦ ids | err e ↦ [] | panic ↦ [] ]

unfoldable pub strategy_of_kind : Str → ContextStrategy
strategy_of_kind kind =
    if str_eq kind (codes "producer") then ContextStrategy.full else ContextStrategy.vector

-- `strategy != ""`, where the empty string is no constant.
unfoldable pub strategy_or : ContextStrategy → ContextStrategy → ContextStrategy
strategy_or (ContextStrategy.other_strategy []) other = other
strategy_or (ContextStrategy.other_strategy (c ∷ s)) other = ContextStrategy.other_strategy (c ∷ s)
strategy_or ContextStrategy.vector other = ContextStrategy.vector
strategy_or ContextStrategy.full other = ContextStrategy.full
strategy_or ContextStrategy.hybrid other = ContextStrategy.hybrid
strategy_or ContextStrategy.mcp other = ContextStrategy.mcp
strategy_or ContextStrategy.off other = ContextStrategy.off

unfoldable pub get_context_strategy : Agent → ContextStrategy
unfolding strategy_of_kind strategy_or
get_context_strategy agent = elim agent.document_context [
  | none ↦ strategy_of_kind agent.kind
  | some config ↦ strategy_or config.strategy (strategy_of_kind agent.kind)
]

-- `if config != nil && config.X > 0 { x = config.X }`
unfoldable pub positive_or : (DocumentContextConfig → ℤ) → ℤ → Option DocumentContextConfig → ℤ
positive_or of other none = other
positive_or of other (some config) = if ltb_ℤ (pos 0) (of config) then of config else other

unfoldable pub get_max_context_tokens : Agent → ℤ
unfolding positive_or
get_max_context_tokens agent =
    positive_or (λ config. config.max_context_tokens) (pos 8000) agent.document_context

unfoldable pub tenant_of : Agent → ExecutionContextRequest → Str
tenant_of agent req = if is_nil req.tenant_id then agent.tenant_id else req.tenant_id

module _ (f : FloatOps) where
  unfoldable pub positive_float_or :
      (DocumentContextConfig → Float) → Float → Option DocumentContextConfig → Float
  positive_float_or of other none = other
  positive_float_or of other (some config) =
      if f.lt (f.ratio 0 1) (of config) then of config else other

  unfoldable pub vector_request : Agent → ExecutionContextRequest → List ℕ → VectorSearchRequest
  unfolding positive_or positive_float_or tenant_of
  vector_request agent req notebook_ids = record {
    query_text = req.input;
    dataset_id = [];
    notebook_ids = notebook_ids;
    document_ids = req.selected_documents;
    tenant_id = tenant_of agent req;
    space_id = agent.space_id;
    options = record {
      top_k = positive_or (λ config. config.top_k) (pos 10) agent.document_context;
      min_score =
          positive_float_or (λ config. config.min_score) (f.ratio 7 10) agent.document_context;
      max_tokens = pos 0;
      include_chunks = true;
      filters = none;
    };
    auth_token = req.auth_token;
  }

unfoldable pub chunk_request : Agent → ExecutionContextRequest → List ℕ → ChunkRetrievalRequest
unfolding tenant_of
chunk_request agent req notebook_ids = record {
  tenant_id = tenant_of agent req;
  file_ids = req.selected_documents;
  notebook_ids = notebook_ids;
  chunk_types = [];
  limit = pos 0;
  offset = pos 0;
  order_by = [];
  auth_token = req.auth_token;
}

-- `string(strategy)`
unfoldable pub strategy_text : ContextStrategy → Str
strategy_text ContextStrategy.vector = codes "vector"
strategy_text ContextStrategy.full = codes "full"
strategy_text ContextStrategy.hybrid = codes "hybrid"
strategy_text ContextStrategy.mcp = codes "mcp"
strategy_text ContextStrategy.off = codes "none"
strategy_text (ContextStrategy.other_strategy s) = s

-- The notebook ids, and where they come from.
unfoldable pub notebooks_of :
    (Str → Result (List ℕ)) → Agent → ExecutionContextRequest → List ℕ × Str
unfolding parse_notebook_ids
notebooks_of ids_of_json agent req = elim req.notebook_ids [
  | [] ↦ (parse_notebook_ids ids_of_json agent, codes "agent")
  | id ∷ ids ↦ (id ∷ ids, codes "request")
]

module _ (docs : DocumentContextService) (f : FloatOps) (ids_of_json : Str → Result (List ℕ)) where
  -- The switch over the strategies; `none` where nothing is retrieved.
  unfoldable pub retrieve_context :
      ContextStrategy
      → Agent
      → ExecutionContextRequest
      → List ℕ
      → Option (Result (Option DocumentContextResult))
  unfolding vector_request chunk_request positive_float_or
  retrieve_context ContextStrategy.full agent req ids =
      some (docs.retrieve_full_documents (chunk_request agent req ids))
  retrieve_context ContextStrategy.hybrid agent req ids = some (
      docs.retrieve_hybrid_context req.input (chunk_request agent req ids)
        (positive_float_or f (λ config. config.vector_weight) (f.ratio 5 10) agent.document_context)
        (positive_float_or f (λ config. config.full_doc_weight) (f.ratio 5 10)
          agent.document_context))
  retrieve_context ContextStrategy.off agent req ids = none
  retrieve_context ContextStrategy.vector agent req ids =
      some (docs.retrieve_vector_context (vector_request f agent req ids))
  retrieve_context ContextStrategy.mcp agent req ids =
      some (docs.retrieve_vector_context (vector_request f agent req ids))
  retrieve_context (ContextStrategy.other_strategy s) agent req ids =
      some (docs.retrieve_vector_context (vector_request f agent req ids))

  unfoldable pub context_metadata : Fields → DocumentContextResult → ContextInjectionResult → Fields
  context_metadata metadata result c =
      set_field (codes "retrieval_time_ms") (number (f.of_int result.retrieval_time_ms)) (
        set_field (codes "truncated") (boolean c.truncated) (
          set_field (codes "total_tokens") (number (f.of_int c.total_tokens)) (
            set_field (codes "document_count") (number (f.of_int c.document_count)) (
              set_field (codes "chunk_count") (number (f.of_int c.chunk_count))
                (set_field (codes "knowledge_enabled") (boolean true) metadata)))))

  unfoldable pub inject_formatted :
      Str → Fields → DocumentContextResult → Result ContextInjectionResult → Result (Str × Fields)
  unfolding context_metadata
  inject_formatted base metadata result (ok c) =
      ok (base ++ (10 ∷ 10 ∷ c.formatted_context), context_metadata metadata result c)
  inject_formatted base metadata result (err e) =
      ok (base, set_field (codes "format_error") (text e) metadata)
  inject_formatted base metadata result panic = panic

  -- From the retrieved context on; a retrieval that failed leaves the base prompt.
  unfoldable pub inject_retrieved :
      Agent → Str → Fields → Option (Result (Option DocumentContextResult)) → Result (Str × Fields)
  unfolding inject_formatted get_max_context_tokens
  inject_retrieved agent base metadata none =
      ok (base, set_field (codes "knowledge_enabled") (boolean false) metadata)
  inject_retrieved agent base metadata (some (err e)) =
      ok (base, set_field (codes "context_error") (text e) metadata)
  inject_retrieved agent base metadata (some panic) = panic
  inject_retrieved agent base metadata (some (ok none)) =
      ok (base, set_field (codes "context_empty") (boolean true) metadata)
  inject_retrieved agent base metadata (some (ok (some result))) =
      if length result.chunks == 0
      then ok (base, set_field (codes "context_empty") (boolean true) metadata)
      else inject_formatted base metadata result
          (docs.format_context_for_injection result (get_max_context_tokens agent))

  unfoldable pub inject_notebooks :
      Agent → ExecutionContextRequest → List ℕ × Str → Result (Str × Fields)
  unfolding base_prompt get_context_strategy strategy_text retrieve_context inject_retrieved
  inject_notebooks agent req ([], source) = ok (
    base_prompt agent,
    field (codes "notebook_source") (text source) (
        field (codes "knowledge_enabled") (boolean true)
          (field (codes "no_notebooks") (boolean true) end)),
  )
  inject_notebooks agent req (id ∷ ids, source) =
      let strategy = get_context_strategy agent in
      inject_retrieved agent (base_prompt agent)
        (field (codes "notebook_source") (text source)
          (field (codes "strategy") (text (strategy_text strategy)) end))
        (retrieve_context strategy agent req (id ∷ ids))

  unfoldable pub build_system_prompt_with_context :
      Agent → ExecutionContextRequest → Result (Str × Fields)
  unfolding base_prompt notebooks_of inject_notebooks
  build_system_prompt_with_context agent req =
      if not agent.enable_knowledge || req.disable_knowledge
      then ok (base_prompt agent, field (codes "knowledge_enabled") (boolean false) end)
      else inject_notebooks agent req (notebooks_of ids_of_json agent req)
