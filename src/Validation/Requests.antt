-- ===== src/Validation/Requests.antt =====
-- The requests that services/impl/validation.go checks. Aether-BE is a parameter: what it answers
-- about a notebook.
use mathlib.Core.Option.{get_or}
use tas_agent_builder.Base.{
  ℕ, ◌+◌, ◌==◌, ltb, if◌then◌else◌, not, Bool, true, false, Str, codes, concat, is_nil, List, [],
  ◌∷◌, ◌++◌, Option, none, some, length, ℤ, pos, Result, ok, err, panic,
}
use tas_agent_builder.External.{HttpReply, unreachable, answered, UuidText}
use tas_agent_builder.Floats.{FloatOps}
use tas_agent_builder.Models.Agent.{
  AgentLlmConfig, DocumentContextConfig, CreateAgentRequest, UpdateAgentRequest,
}
use tas_agent_builder.Validation.Settings.{
  ValidationError, error_if, validate_document_context_config, validate_llm_config,
}

pub record NotebookExistsResponse : Type 0 where
  pub id : ℕ
  pub name : Str
  pub tenant_id : Str

-- What the validator reads of the outside: whether it has Aether-BE's address, what Aether-BE
-- answers about a notebook of a tenant, ids and numbers as text, and floats.
pub record Aether : Type 0 where
  pub configured : Bool
  pub notebook : Str → ℕ → HttpReply NotebookExistsResponse
  pub uuid : UuidText
  pub decimal : ℤ → Str
  pub floats : FloatOps

module _ (aether : Aether) (tenant_id : Str) where
  unfoldable pub status_error : ℕ → Str
  status_error status = codes "unexpected status code: " ++ aether.decimal (pos status)

  unfoldable pub check_notebook_exists : ℕ → Result Bool
  unfolding status_error
  check_notebook_exists id = elim (aether.notebook tenant_id id) [
    | unreachable e ↦ err e
    | answered status body decoded ↦
        if status == 200
        then ok true
        else if status == 404
        then ok false
        else err (status_error status)
  ]

  unfoldable pub get_notebook_details : ℕ → Result (Option NotebookExistsResponse)
  unfolding status_error
  get_notebook_details id = elim (aether.notebook tenant_id id) [
    | unreachable e ↦ err e
    | answered status body decoded ↦
        if status == 200
        then elim decoded [ ok notebook ↦ ok (some notebook) | err e ↦ err e | panic ↦ panic ]
        else if status == 404
        then ok none
        else err (status_error status)
  ]

  unfoldable pub not_found : ℕ → ℕ → ValidationError
  not_found i id = record {
    field = concat (codes "notebook_ids[" ∷ aether.decimal (pos i) ∷ codes "]" ∷ []);
    message = concat (codes "notebook " ∷ aether.uuid.to_string id ∷ codes " not found" ∷ []);
  }

  -- The loop over the notebooks, from the index `i` on; a failed check is passed over.
  unfoldable pub check_notebooks : ℕ → List ℕ → List ValidationError
  unfolding not_found check_notebook_exists
  check_notebooks i [] = []
  check_notebooks i (id ∷ ids) =
      let rest = check_notebooks (i + 1) ids in
      elim (check_notebook_exists id) [
        | ok true ↦ rest
        | ok false ↦ not_found i id ∷ rest
        | err e ↦ rest
        | panic ↦ rest
      ]

  unfoldable pub validate_notebook_ids : List ℕ → List ValidationError
  unfolding check_notebooks
  validate_notebook_ids ids = if not aether.configured then [] else check_notebooks 0 ids

  unfoldable pub collect_notebooks : ℕ → List ℕ → List NotebookExistsResponse × List ValidationError
  unfolding not_found get_notebook_details
  collect_notebooks i [] = ([], [])
  collect_notebooks i (id ∷ ids) =
      let (found, errors) = collect_notebooks (i + 1) ids in
      elim (get_notebook_details id) [
        | ok (some notebook) ↦ (notebook ∷ found, errors)
        | ok none ↦ (found, not_found i id ∷ errors)
        | err e ↦ (found, errors)
        | panic ↦ (found, errors)
      ]

  unfoldable pub validate_notebook_ids_with_details :
      List ℕ → List NotebookExistsResponse × List ValidationError
  unfolding collect_notebooks
  validate_notebook_ids_with_details ids =
      if not aether.configured then ([], []) else collect_notebooks 0 ids

  unfoldable pub llm_errors : AgentLlmConfig → List ValidationError
  llm_errors cfg = elim (validate_llm_config aether.floats cfg) [
    | none ↦ []
    | some e ↦ record { field = codes "llm_config"; message = e } ∷ []
  ]

  unfoldable pub context_errors : Option DocumentContextConfig → List ValidationError
  context_errors none = []
  context_errors (some cfg) = validate_document_context_config aether.floats cfg

  unfoldable pub validate_create_request : CreateAgentRequest → List ValidationError
  unfolding error_if llm_errors context_errors validate_notebook_ids
  validate_create_request req =
      error_if (is_nil req.name) (codes "name") (codes "name is required")
      ++ (error_if (ltb 255 (length req.name)) (codes "name")
            (codes "name must be 255 characters or less")
          ++ (error_if (is_nil req.system_prompt) (codes "system_prompt")
                (codes "system prompt is required")
              ++ (error_if (is_nil req.space_id) (codes "space_id") (codes "space ID is required")
                  ++ (llm_errors req.llm_config
                      ++ (context_errors req.document_context
                          ++ (if req.enable_knowledge
                              then validate_notebook_ids req.notebook_ids
                              else []))))))

  unfoldable pub name_errors : Option Str → List ValidationError
  unfolding error_if
  name_errors none = []
  name_errors (some name) =
      error_if (is_nil name) (codes "name") (codes "name cannot be empty")
      ++ error_if (ltb 255 (length name)) (codes "name")
          (codes "name must be 255 characters or less")

  unfoldable pub prompt_errors : Option Str → List ValidationError
  unfolding error_if
  prompt_errors none = []
  prompt_errors (some prompt) =
      error_if (is_nil prompt) (codes "system_prompt") (codes "system prompt cannot be empty")

  unfoldable pub llm_update_errors : Option AgentLlmConfig → List ValidationError
  unfolding llm_errors
  llm_update_errors none = []
  llm_update_errors (some cfg) = llm_errors cfg

  unfoldable pub validate_update_request : UpdateAgentRequest → List ValidationError
  unfolding name_errors prompt_errors llm_update_errors context_errors validate_notebook_ids
  validate_update_request req =
      name_errors req.name
      ++ (prompt_errors req.system_prompt
          ++ (llm_update_errors req.llm_config
              ++ (context_errors req.document_context
                  ++ validate_notebook_ids (get_or req.notebook_ids []))))
