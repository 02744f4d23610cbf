-- ===== src/Agents/Tests.antt =====
-- Instances of the theorems about services/impl/agent_service_impl.go.
use tas_agent_builder.Base.{
  ◌==◌, ◌≡◌, ◌↔◌, refl, true, false, inl, codes, str_eq, [], ◌∷◌, none, some, pos, ok, All, Among,
  filter,
}
use tas_agent_builder.External.Database.{Table}
use tas_agent_builder.External.Samples.{sample_uuid}
use tas_agent_builder.External.Tables.{sample_table}
use tas_agent_builder.Memory.Samples.{sample_floats}
use tas_agent_builder.Models.Agent.{Agent, AgentLlmConfig, CreateAgentRequest, AgentListFilter}
use tas_agent_builder.Models.Execution.{AgentExecution}
use tas_agent_builder.Agents.Service.{create_agent, get_agent, publish_agent, delete_agent}
use tas_agent_builder.Agents.Requests.{Outside, draft, with_defaults, agent_of_request}
use tas_agent_builder.Agents.Access.{MaySee, get_agent_iff}
use tas_agent_builder.Agents.Isolation.{IsPrivate, Reach, here, next, publishes, Reach-Among}
use tas_agent_builder.Agents.Stored.{create_agent-get, delete_agent-gone}

abbrev out : Outside
out = record {
  ids_json = λ ids. codes "[1]";
  texts_json = λ texts. codes "[]";
  uuid = sample_uuid;
  ilike = λ s pattern. true;
  json_contains = λ s part. true;
  floats = sample_floats;
}

abbrev llm : AgentLlmConfig
llm = record {
  provider = codes "openai";
  model = codes "gpt-4o";
  temperature = none;
  max_tokens = none;
  top_p = none;
  top_k = none;
  stop = [];
  metadata = none;
  optimize_for = [];
  required_features = [];
  max_cost = none;
  retry_config = none;
  fallback_config = none;
}

abbrev request : CreateAgentRequest
request = record {
  name = codes "helper";
  description = [];
  system_prompt = codes "Help.";
  llm_config = llm;
  space_id = codes "space";
  space_type = [];
  kind = [];
  is_public = false;
  is_template = false;
  is_internal = false;
  notebook_ids = [];
  tags = [];
  enable_knowledge = false;
  enable_memory = false;
  document_context = none;
}

abbrev helper : Agent
helper = with_defaults (agent_of_request out (pos 1) 1 request (codes "ann") (codes "t"))

abbrev agents : Table Agent
agents = sample_table (λ (a : Agent). a.id)

abbrev executions : Table AgentExecution
executions = sample_table (λ (e : AgentExecution). e.id)

abbrev empty : agents.Store
empty = ([], refl)

abbrev one : agents.Store
one = (helper ∷ [], refl)

get_agent_iff_example :
    (get_agent agents one 1 (codes "ann") ≡ ok helper)
    ↔ (Among helper (agents.rows one) × (helper.id ≡ 1) × MaySee (codes "ann") helper)
get_agent_iff_example =
    get_agent_iff agents one (λ a. refl) (λ p. (filter p one.0, refl)) 1 (codes "ann") helper

create_agent-get_example :
    (get_agent agents
        (create_agent agents out empty (pos 1) 1 request (codes "ann") (codes "t")).0
        1
        (codes "ann")
      ≡ ok helper)
    × (helper.status ≡ draft)
    × (helper.enable_knowledge ≡ true)
    × (helper.enable_memory ≡ true)
unfolding create_agent
create_agent-get_example =
    create_agent-get agents out empty (pos 1) 1 request (codes "ann") (codes "t") helper (λ b. refl)
      (λ t p. (filter p t.0, refl)) refl

helper-IsPrivate : IsPrivate (codes "bob") helper
unfolding with_defaults agent_of_request str_eq
helper-IsPrivate = record { other_owner = refl; not_public = refl; not_internal = refl }

abbrev after : agents.Store
after = (publish_agent agents one (pos 2) 1 (codes "bob")).0

bob_tries : Reach agents out (codes "bob") one after
bob_tries = next here (publishes (pos 2) 1 refl)

Reach-Among_example : Among helper (agents.rows after)
Reach-Among_example =
    Reach-Among agents out (codes "bob") (λ a. refl) helper helper-IsPrivate bob_tries (inl refl)

abbrev wanted : AgentListFilter
wanted = record {
  owner_id = none;
  space_id = none;
  tenant_id = none;
  status = some draft;
  space_type = none;
  is_public = none;
  is_template = none;
  is_internal = none;
  tags = [];
  search = [];
  page = pos 0;
  size = pos 500;
}

delete_agent-gone_example :
    All
      (λ a. (a.id == 1) ≡ false)
      (agents.rows (delete_agent agents executions one ([], refl) 1 (codes "bob")).0)
    × All
        (λ e. (e.agent_id == 1) ≡ false)
        (executions.rows (delete_agent agents executions one ([], refl) 1 (codes "bob")).1.0)
unfolding delete_agent with_defaults agent_of_request filter
delete_agent-gone_example = delete_agent-gone agents executions one ([], refl) 1 (codes "bob") refl
