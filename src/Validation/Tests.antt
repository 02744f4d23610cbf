-- ===== src/Validation/Tests.antt =====
-- Instances of the theorems about services/impl/validation.go.
use tas_agent_builder.Base.{
  ℕ, zero, suc, ◌≡◌, ◌↔◌, refl, true, false, codes, [], ◌∷◌, none, some, pos, ok, err,
}
use tas_agent_builder.External.{HttpReply, unreachable, answered}
use tas_agent_builder.Floats.{FloatOps}
use tas_agent_builder.External.Samples.{sample_uuid}
use tas_agent_builder.Models.Agent.{AgentLlmConfig, CreateAgentRequest}
use tas_agent_builder.Models.Document.{MultiPassConfig}
use tas_agent_builder.Validation.Settings.{
  bad_temperature, bad_max_tokens, bad_top_k, validate_multi_pass_config, validate_llm_config,
}
use tas_agent_builder.Validation.Requests.{Aether, NotebookExistsResponse, validate_create_request}
use tas_agent_builder.Validation.Accepts.{
  IsMultiPass, IsCreate, validate_multi_pass_config-IsMultiPass, validate_create_request-IsCreate,
}

abbrev floats : FloatOps
floats = record {
  of_int = λ n. record { bits = 0 };
  ratio = λ a b. record { bits = a };
  add = λ a b. a;
  sub = λ a b. a;
  mul = λ a b. a;
  div = λ a b. a;
  lt = λ a b. false;
  le = λ a b. true;
  to_int = λ a. pos 0;
}

abbrev llm : AgentLlmConfig
llm = record {
  provider = codes "openai";
  model = codes "gpt-4o";
  temperature = some (record { bits = 1 });
  max_tokens = some (pos 1000);
  top_p = none;
  top_k = some (pos 40);
  stop = [];
  metadata = none;
  optimize_for = [];
  required_features = [];
  max_cost = none;
  retry_config = none;
  fallback_config = none;
}

abbrev multi_pass : MultiPassConfig
multi_pass = record {
  enabled = true;
  segment_size = pos 8000;
  overlap_tokens = pos 500;
  max_passes = pos 10;
  aggregation_prompt = [];
}

abbrev notebook : NotebookExistsResponse
notebook = record { id = 1; name = codes "notes"; tenant_id = codes "t" }

-- Notebook 1 is there, notebook 2 is missing, and Aether-BE fails on every other one.
unfoldable reply_about : ℕ → HttpReply NotebookExistsResponse
reply_about (suc zero) = answered 200 [] (ok notebook)
reply_about (suc (suc zero)) = answered 404 [] (err (codes "no JSON"))
reply_about id = unreachable (codes "refused")

abbrev aether : Aether
aether = record {
  configured = true;
  notebook = λ tenant id. reply_about id;
  uuid = sample_uuid;
  decimal = λ n. [];
  floats = floats;
}

abbrev request : CreateAgentRequest
request = record {
  name = codes "helper";
  description = [];
  system_prompt = codes "Help.";
  llm_config = llm;
  space_id = codes "space";
  space_type = [];
  kind = [];
  is_public = false;
  is_template = false;
  is_internal = false;
  notebook_ids = 1 ∷ 3 ∷ [];
  tags = [];
  enable_knowledge = true;
  enable_memory = false;
  document_context = none;
}

validate_multi_pass_config-IsMultiPass_example :
    (validate_multi_pass_config multi_pass ≡ []) ↔ IsMultiPass multi_pass
validate_multi_pass_config-IsMultiPass_example = validate_multi_pass_config-IsMultiPass multi_pass

validate_create_request-IsCreate_example : IsCreate aether (codes "t") request
unfolding validate_create_request bad_temperature bad_max_tokens bad_top_k reply_about
    validate_llm_config
validate_create_request-IsCreate_example =
    validate_create_request-IsCreate aether (codes "t") request refl
