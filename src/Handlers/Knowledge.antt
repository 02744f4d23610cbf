-- ===== src/Handlers/Knowledge.antt =====
-- The prompt that handlers/agent_handlers.go builds, with the context that the document context service
-- formats.
use tas_agent_builder.Base.{
  ℕ, suc, ◌==◌, ◌≡◌, refl, ap, ◌∙◌, ◌⊎◌, inl, inr, ◌||◌, not, Bool, Bool-cases, true, false, Str,
  codes, List, [], ◌∷◌, ◌++◌, Option, none, some, length, ℤ, pos, ◌≤ℤ◌, Result, ok, err, panic,
  arith,
}
use tas_agent_builder.Floats.{FloatOps}
use tas_agent_builder.Json.{Fields, end, field, set_field, boolean}
use tas_agent_builder.Models.Agent.{Agent, DocumentContextConfig}
use tas_agent_builder.Models.Document.{
  RetrievedChunk, DocumentContextResult, ContextInjectionResult,
}
use tas_agent_builder.Models.Services.{ExecutionContextRequest}
use tas_agent_builder.Retrieval.Inject.{format_context_for_injection}
use tas_agent_builder.Retrieval.Injected.{IsInjected, format_context_for_injection-IsInjected}
use tas_agent_builder.Handlers.Prompt.{
  DocumentContextService, base_prompt, notebooks_of, get_context_strategy, positive_or,
  get_max_context_tokens, retrieve_context, context_metadata, inject_formatted, inject_retrieved,
  inject_notebooks, build_system_prompt_with_context,
}

positive_or-positive :
    (config : Option DocumentContextConfig)
    → pos 1 ≤ℤ positive_or (λ c. c.max_context_tokens) (pos 8000) config
unfolding positive_or
positive_or-positive none = omega arith
positive_or-positive (some c) = ground arith

suc_apart : (n : ℕ) → (suc n == 0) ≡ false
suc_apart n = ground arith

positive_limit : (agent : Agent) → pos 1 ≤ℤ get_max_context_tokens agent
unfolding get_max_context_tokens
positive_limit agent = positive_or-positive agent.document_context

module _ (docs : DocumentContextService) (f : FloatOps) (ids_of_json : Str → Result (List ℕ))
    (agent : Agent) (req : ExecutionContextRequest) where
  -- What the strategy of the agent retrieves for the notebooks of the request, or of the agent.
  abbrev pub retrieved : Option (Result (Option DocumentContextResult))
  retrieved =
      retrieve_context docs f ids_of_json (get_context_strategy agent) agent req
        (notebooks_of ids_of_json agent req).0

  -- A prompt with the context of documents after the base prompt.
  pub record IsEnhanced (prompt : Str) : Type 0 where
    pub enabled : agent.enable_knowledge ≡ true
    pub allowed : req.disable_knowledge ≡ false
    pub result : DocumentContextResult
    pub found : retrieved ≡ some (ok (some result))
    pub context : ContextInjectionResult
    pub injected : IsInjected result (get_max_context_tokens agent) context
    pub limited : pos 1 ≤ℤ get_max_context_tokens agent
    pub text : prompt ≡ base_prompt agent ++ (10 ∷ 10 ∷ context.formatted_context)

  abbrev pub IsPrompt : Str → Type 0
  IsPrompt prompt = (prompt ≡ base_prompt agent) ⊎ IsEnhanced prompt

  abbrev Built : Result (Str × Fields) → Type 0
  Built r = (prompt : Str) × (metadata : Fields) × (r ≡ ok (prompt, metadata)) × IsPrompt prompt

  module _
      (formats : (result : DocumentContextResult) (limit : ℤ)
        → docs.format_context_for_injection result limit
          ≡ ok (format_context_for_injection f (some result) limit)) where
    found-Built :
        (metadata : Fields) (result : DocumentContextResult) (chunks : List RetrievedChunk)
        → agent.enable_knowledge ≡ true
        → req.disable_knowledge ≡ false
        → retrieved ≡ some (ok (some result))
        → result.chunks ≡ chunks
        → Built (
            inject_retrieved docs f ids_of_json agent
              (base_prompt agent)
              metadata
              (some (ok (some result))))
    unfolding inject_retrieved inject_formatted
    found-Built metadata result [] on allowed found e = (
      base_prompt agent,
      set_field (codes "context_empty") (boolean true) metadata,
      rw (e) refl,
      inl refl,
    )
    found-Built metadata result (chunk ∷ chunks) on allowed found e =
        let limit = get_max_context_tokens agent in
        let context = format_context_for_injection f (some result) limit in
        let some_chunks : (length result.chunks == 0) ≡ false =
          rw (e) (suc_apart (length chunks)) in
        (
          base_prompt agent ++ (10 ∷ 10 ∷ context.formatted_context),
          context_metadata docs f ids_of_json metadata result context,
          rw (some_chunks, formats result limit) refl,
          inr (record {
            enabled = on;
            allowed = allowed;
            result = result;
            found = found;
            context = context;
            injected = format_context_for_injection-IsInjected f result limit chunk chunks e;
            limited = positive_limit agent;
            text = refl;
          }),
        )

    inject_retrieved-Built :
        (metadata : Fields) (got : Option (Result (Option DocumentContextResult)))
        → agent.enable_knowledge ≡ true
        → req.disable_knowledge ≡ false
        → retrieved ≡ got
        → ¬ (got ≡ some panic)
        → Built (inject_retrieved docs f ids_of_json agent (base_prompt agent) metadata got)
    unfolding inject_retrieved
    inject_retrieved-Built metadata none on allowed found calm = (_, _, refl, inl refl)
    inject_retrieved-Built metadata (some (err e)) on allowed found calm = (_, _, refl, inl refl)
    inject_retrieved-Built metadata (some panic) on allowed found calm = absurd (calm refl)
    inject_retrieved-Built metadata (some (ok none)) on allowed found calm = (_, _, refl, inl refl)
    inject_retrieved-Built metadata (some (ok (some result))) on allowed found calm =
        found-Built metadata result result.chunks on allowed found refl

    inject_notebooks-Built :
        agent.enable_knowledge ≡ true
        → req.disable_knowledge ≡ false
        → (notebooks : List ℕ × Str) → notebooks_of ids_of_json agent req ≡ notebooks
        → ¬ (retrieved ≡ some panic)
        → Built (inject_notebooks docs f ids_of_json agent req notebooks)
    unfolding inject_notebooks
    inject_notebooks-Built on allowed ([], source) e calm = (_, _, refl, inl refl)
    inject_notebooks-Built on allowed (id ∷ ids, source) e calm =
        let same =
          ap
            (λ (n : List ℕ × Str).
              retrieve_context docs f ids_of_json (get_context_strategy agent) agent req n.0)
            e in
        inject_retrieved-Built _ _ on allowed same (λ h. calm (same ∙ h))

  switches : (on off : Bool) → (not on || off) ≡ false → (on ≡ true) × (off ≡ false)
  switches on off h = ground arith

  -- When retrieval does not panic, there is a prompt: the base prompt, or, only with knowledge enabled and
  -- not disabled for this execution, the base prompt followed by the longest beginning of the retrieved
  -- chunks that is within the positive limit of the agent.
  pub build_system_prompt_with_context-IsPrompt :
      ((result : DocumentContextResult) (limit : ℤ)
        → docs.format_context_for_injection result limit
          ≡ ok (format_context_for_injection f (some result) limit))
      → ¬ (retrieved ≡ some panic)
      → (prompt : Str) × (metadata : Fields) × (build_system_prompt_with_context docs f ids_of_json
            agent req
          ≡ ok (prompt, metadata))
        × IsPrompt prompt
  unfolding build_system_prompt_with_context
  build_system_prompt_with_context-IsPrompt formats calm =
      elim (Bool-cases (not agent.enable_knowledge || req.disable_knowledge)) [
        | inl disabled ↦ (
          base_prompt agent,
          field (codes "knowledge_enabled") (boolean false) end,
          rw (disabled) refl,
          inl refl,
        )
        | inr used ↦
            let (on, allowed) = switches agent.enable_knowledge req.disable_knowledge used in
            rw (used) (
              inject_notebooks-Built formats on allowed (notebooks_of ids_of_json agent req) refl
                calm)
      ]
