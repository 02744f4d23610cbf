-- ===== src/Handlers/Services.antt =====
-- The services behind the interfaces of the handlers, as cmd/main.go passes them to `NewAgentHandlers`.
use tas_agent_builder.Base.{Str, List, Option, some, ℤ, Result, ok, ◌>>=◌}
use tas_agent_builder.External.{Redis, Codec, UuidText, HttpReply, Printer}
use tas_agent_builder.Floats.{Float, FloatOps}
use tas_agent_builder.Models.Document.{
  VectorSearchRequest, ChunkRetrievalRequest, DocumentContextResult,
}
use tas_agent_builder.Models.Memory.{ShortTermMemory, WorkingMemory, MemoryConfig}
use tas_agent_builder.Memory.LongTerm.{DeepLake}
use tas_agent_builder.Memory.Formatted.{get_formatted_memory}
use tas_agent_builder.Memory.Unified.{add_memory}
use tas_agent_builder.Retrieval.Full.{AudiModal, retrieve_full_documents}
use tas_agent_builder.Retrieval.Inject.{format_context_for_injection}
use tas_agent_builder.Router.Limits.{SupportedModel, LimitsCache}
use tas_agent_builder.Router.Providers.{get_available_providers, validate_config}
use tas_agent_builder.Router.Send.{RouterConfig, Client, Outside, send_request}
use tas_agent_builder.Handlers.Http.{RouterService}
use tas_agent_builder.Handlers.Prompt.{DocumentContextService}
use tas_agent_builder.Handlers.Messages.{MemoryService}

-- services/impl/router_service_impl.go, in one state of its client and its cache.
abbrev pub router_service :
    (client : Client)
    → Outside
    → RouterConfig
    → UuidText
    → HttpReply (List Str)
    → (Str → HttpReply (List SupportedModel))
    → LimitsCache
    → client.State
    → RouterService
router_service client out config uuid providers reply cache state = record {
  validate_config = validate_config out.decimal providers;
  get_available_providers = get_available_providers out.decimal providers;
  send_request = λ llm messages user_id.
      (send_request client out config uuid reply cache state llm messages user_id).1.2;
}

-- services/impl/document_context_impl.go, with the two retrievals that are not modelled as parameters.
abbrev pub document_context_service :
    AudiModal
    → FloatOps
    → ℤ
    → (VectorSearchRequest → Result (Option DocumentContextResult))
    → (Str → ChunkRetrievalRequest → Float → Float → Result (Option DocumentContextResult))
    → DocumentContextService
document_context_service modal f took vector hybrid = record {
  retrieve_vector_context = vector;
  retrieve_full_documents =
      λ req. retrieve_full_documents modal took req >>= λ result. ok (some result);
  retrieve_hybrid_context = hybrid;
  format_context_for_injection =
      λ result limit. ok (format_context_for_injection f (some result) limit);
}

-- services/memory/memory_service.go at one time, with the ids that it makes; the goroutine that it may
-- start runs later.
abbrev pub memory_service :
    (redis : Redis)
    → Codec ShortTermMemory
    → Codec WorkingMemory
    → Codec ℤ
    → (lake : DeepLake) → lake.State
    → UuidText
    → FloatOps
    → Printer
    → MemoryConfig
    → ℤ
    → Str
    → Str
    → MemoryService
memory_service redis talk desk clock lake memories uuid f printer config now fresh unused = record {
  State = redis.Store;
  get_formatted_memory = λ store req budget.
      get_formatted_memory redis talk desk clock lake uuid f printer config store memories now req
        budget;
  add_memory = λ store req.
      let (store', due, done) =
        add_memory redis talk desk clock lake uuid f printer config store now fresh unused req in
      (store', done);
}
