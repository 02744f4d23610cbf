-- ===== src/Agents/Requests.antt =====
-- What services/impl/agent_service_impl.go makes of the requests to create and to update an agent.
use mathlib.Core.Option.{get_or}
use tas_agent_builder.Base.{
  ℕ, ◌==◌, if◌then◌else◌, ◌||◌, not, Bool, true, false, Str, codes, str_eq, is_nil, List, [],
  Option, none, some, length, ℤ, pos,
}
use tas_agent_builder.External.{UuidText}
use tas_agent_builder.Floats.{FloatOps}
use tas_agent_builder.Models.Agent.{
  Agent, CreateAgentRequest, UpdateAgentRequest, DocumentContextConfig, DocumentScope,
}
use tas_agent_builder.Models.Document.{ContextStrategy}

-- JSON texts of ids and of strings, the text of an id, and the operators `ILIKE` and `@>` of
-- PostgreSQL.
pub record Outside : Type 0 where
  pub ids_json : List ℕ → Str
  pub texts_json : List Str → Str
  pub uuid : UuidText
  pub ilike : Str → Str → Bool
  pub json_contains : Str → Str → Bool
  pub floats : FloatOps

abbrev pub draft : Str
draft = codes "draft"

abbrev pub published : Str
published = codes "published"

abbrev pub conversational : Str
conversational = codes "conversational"

-- `if x == "" { x = other }`
abbrev pub text_or : Str → Str → Str
text_or s other = if is_nil s then other else s

-- Creating a row replaces a zero value by the `default` of the field's gorm tag.
unfoldable pub with_defaults : Agent → Agent
with_defaults a = record a {
  status = text_or a.status draft;
  kind = text_or a.kind conversational;
  notebook_ids = text_or a.notebook_ids (codes "[]");
  enable_knowledge = true;
  enable_memory = true;
  tags = text_or a.tags (codes "[]");
}

unfoldable pub default_document_context : FloatOps → DocumentContextConfig
default_document_context f = record {
  strategy = ContextStrategy.vector;
  scope = DocumentScope.all_documents;
  default_documents = [];
  include_sub_notebooks = false;
  max_context_tokens = pos 8000;
  top_k = pos 10;
  min_score = f.ratio 7 10;
  vector_weight = f.ratio 5 10;
  full_doc_weight = f.ratio 5 10;
  multi_pass = none;
}

unfoldable pub enables_knowledge : CreateAgentRequest → Bool
enables_knowledge req = req.enable_knowledge || not (length req.notebook_ids == 0)

unfoldable pub enables_memory : CreateAgentRequest → Bool
enables_memory req = req.enable_memory || str_eq (text_or req.kind conversational) conversational

unfoldable pub context_of_request : FloatOps → CreateAgentRequest → Option DocumentContextConfig
unfolding enables_knowledge default_document_context
context_of_request f req = elim req.document_context [
  | some cfg ↦ some cfg
  | none ↦ if enables_knowledge req then some (default_document_context f) else none
]

module _ (out : Outside) where
  unfoldable pub agent_of_request : ℤ → ℕ → CreateAgentRequest → Str → Str → Agent
  unfolding enables_knowledge enables_memory context_of_request
  agent_of_request now new_id req owner_id tenant_id = record {
    id = new_id;
    name = req.name;
    description = req.description;
    system_prompt = req.system_prompt;
    llm_config = req.llm_config;
    owner_id = owner_id;
    space_id = req.space_id;
    tenant_id = tenant_id;
    status = draft;
    space_type = text_or req.space_type (codes "personal");
    kind = text_or req.kind conversational;
    is_public = req.is_public;
    is_template = req.is_template;
    is_internal = req.is_internal;
    notebook_ids = if length req.notebook_ids == 0 then [] else out.ids_json req.notebook_ids;
    enable_knowledge = enables_knowledge req;
    enable_memory = enables_memory req;
    document_context = context_of_request out.floats req;
    tags = if length req.tags == 0 then [] else out.texts_json req.tags;
    total_executions = pos 0;
    total_cost_usd = out.floats.ratio 0 1;
    avg_response_time_ms = pos 0;
    last_executed_at = none;
    created_at = now;
    updated_at = now;
    deleted_at = none;
  }

  -- `Updates` of the map of the fields that the request gives.
  unfoldable pub with_updates : ℤ → UpdateAgentRequest → Agent → Agent
  with_updates now req a = record a {
    name = get_or req.name a.name;
    description = get_or req.description a.description;
    system_prompt = get_or req.system_prompt a.system_prompt;
    llm_config = get_or req.llm_config a.llm_config;
    status = get_or req.status a.status;
    kind = get_or req.kind a.kind;
    is_public = get_or req.is_public a.is_public;
    is_template = get_or req.is_template a.is_template;
    is_internal = get_or req.is_internal a.is_internal;
    enable_knowledge = get_or req.enable_knowledge a.enable_knowledge;
    enable_memory = get_or req.enable_memory a.enable_memory;
    document_context = elim req.document_context [
      | some cfg ↦ some cfg
      | none ↦ a.document_context
    ];
    notebook_ids = elim req.notebook_ids [ some ids ↦ out.ids_json ids | none ↦ a.notebook_ids ];
    tags = elim req.tags [ some tags ↦ out.texts_json tags | none ↦ a.tags ];
    updated_at = now;
  }
