-- ===== src/Validation/Accepts.antt =====
-- What the checks of services/impl/validation.go accept.
use tas_agent_builder.Base.{
  ℕ, ◌+◌, ◌≤◌, ltb, ◌≡◌, ◌≢◌, refl, sym, ap, ◌∙◌, ◌↔◌, ◌||◌, Bool, true, false, Bool-cases, inl,
  inr, Str, is_nil, List, [], ◌∷◌, ◌++◌, Option, Option-cases, none, some, if◌then◌else◌, length, ℤ,
  pos, ltb_ℤ, leb_ℤ, ltb_ℤ_false, ltb_ℤ_of_le, leb_ℤ_false, ◌≤ℤ◌, ◌<ℤ◌, Result-cases, ok, All,
  arith,
}
use tas_agent_builder.Floats.{Float, FloatOps}
use tas_agent_builder.Models.Agent.{AgentLlmConfig, RetryConfig, FallbackConfig, CreateAgentRequest}
use tas_agent_builder.Models.Document.{MultiPassConfig}
use tas_agent_builder.Validation.Settings.{
  ValidationError, error_if, first_failed, given, llm_checks, outside_unit, bad_temperature,
  bad_max_tokens, bad_top_k, bad_retries, fallback_below_zero, validate_multi_pass_config,
  validate_llm_config,
}
use tas_agent_builder.Validation.Requests.{
  Aether, check_notebook_exists, check_notebooks, validate_notebook_ids, llm_errors, context_errors,
  validate_create_request,
}

append-nil_inv : (xs ys : List ValidationError) → xs ++ ys ≡ [] → (xs ≡ []) × (ys ≡ [])
append-nil_inv [] ys h = (refl, h)
append-nil_inv (x ∷ xs) ys h = cc

error_if-nil : (bad : Bool) (field message : Str) → error_if bad field message ≡ [] → bad ≡ false
unfolding error_if
error_if-nil true field message h = cc
error_if-nil false field message h = refl

-- The multi-pass settings that make sense.
pub record IsMultiPass (cfg : MultiPassConfig) : Type 0 where
  pub least_size : pos 100 ≤ℤ cfg.segment_size
  pub most_size : cfg.segment_size ≤ℤ pos 128000
  pub overlap : pos 0 ≤ℤ cfg.overlap_tokens
  pub smaller_overlap : cfg.overlap_tokens <ℤ cfg.segment_size
  pub least_passes : pos 1 ≤ℤ cfg.max_passes
  pub most_passes : cfg.max_passes ≤ℤ pos 50

-- `validateMultiPassConfig` reports no error exactly for settings within their bounds, with an
-- overlap smaller than a segment.
pub validate_multi_pass_config-IsMultiPass :
    (cfg : MultiPassConfig) → (validate_multi_pass_config cfg ≡ []) ↔ IsMultiPass cfg
unfolding validate_multi_pass_config error_if
validate_multi_pass_config-IsMultiPass cfg = (accepted, accepts)
  where
    accepted : validate_multi_pass_config cfg ≡ [] → IsMultiPass cfg
    accepted h =
        let (a, h1) = append-nil_inv (error_if (ltb_ℤ cfg.segment_size (pos 100)) _ _) _ h in
        let (b, h2) = append-nil_inv (error_if (ltb_ℤ (pos 128000) cfg.segment_size) _ _) _ h1 in
        let (c, h3) = append-nil_inv (error_if (ltb_ℤ cfg.overlap_tokens (pos 0)) _ _) _ h2 in
        let (d, h4) =
          append-nil_inv (error_if (leb_ℤ cfg.segment_size cfg.overlap_tokens) _ _) _ h3 in
        let (e, g) = append-nil_inv (error_if (ltb_ℤ cfg.max_passes (pos 1)) _ _) _ h4 in
        record {
          least_size = ltb_ℤ_false cfg.segment_size (pos 100) (error_if-nil _ _ _ a);
          most_size = ltb_ℤ_false (pos 128000) cfg.segment_size (error_if-nil _ _ _ b);
          overlap = ltb_ℤ_false cfg.overlap_tokens (pos 0) (error_if-nil _ _ _ c);
          smaller_overlap = leb_ℤ_false cfg.segment_size cfg.overlap_tokens (error_if-nil _ _ _ d);
          least_passes = ltb_ℤ_false cfg.max_passes (pos 1) (error_if-nil _ _ _ e);
          most_passes = ltb_ℤ_false (pos 50) cfg.max_passes (error_if-nil _ _ _ g);
        }

    accepts : IsMultiPass cfg → validate_multi_pass_config cfg ≡ []
    accepts s =
        let d : leb_ℤ cfg.segment_size cfg.overlap_tokens ≡ false =
          ground (arith, s.smaller_overlap) in
        rw (ltb_ℤ_of_le cfg.segment_size (pos 100) s.least_size) (
          rw (ltb_ℤ_of_le (pos 128000) cfg.segment_size s.most_size) (
            rw (ltb_ℤ_of_le cfg.overlap_tokens (pos 0) s.overlap) (
              rw d (
                rw (ltb_ℤ_of_le cfg.max_passes (pos 1) s.least_passes)
                  (rw (ltb_ℤ_of_le (pos 50) cfg.max_passes s.most_passes) refl)))))

first_failed-none :
    (checks : List (Bool × Str))
    → first_failed checks ≡ none
    → All (λ check. check.0 ≡ false) checks
unfolding first_failed
first_failed-none [] h = tt
first_failed-none ((true, message) ∷ rest) h = cc
first_failed-none ((false, message) ∷ rest) h = (refl, first_failed-none rest h)

-- The settings of a language model that make sense.
pub record IsLlm (f : FloatOps) (cfg : AgentLlmConfig) : Type 0 where
  pub provider : is_nil cfg.provider ≡ false
  pub model : is_nil cfg.model ≡ false
  pub temperature :
      (x : Float) → cfg.temperature ≡ some x → f.lt x (f.ratio 0 1) || f.lt (f.ratio 2 1) x ≡ false
  pub max_tokens : (n : ℤ) → cfg.max_tokens ≡ some n → (pos 1 ≤ℤ n) × (n ≤ℤ pos 128000)
  pub top_p :
      (x : Float) → cfg.top_p ≡ some x → f.lt x (f.ratio 0 1) || f.lt (f.ratio 1 1) x ≡ false
  pub top_k : (n : ℤ) → cfg.top_k ≡ some n → pos 0 ≤ℤ n
  pub max_attempts :
      (r : RetryConfig)
      → cfg.retry_config ≡ some r
      → (pos 1 ≤ℤ r.max_attempts) × (r.max_attempts ≤ℤ pos 10)
  pub max_cost_increase :
      (c : FallbackConfig) (x : Float)
      → cfg.fallback_config ≡ some c
      → c.max_cost_increase ≡ some x
      → f.lt x (f.ratio 0 1) ≡ false

given-some :
    {A : Type 0} (o : Option A) (bad : A → Bool)
    → given o bad ≡ false
    → (a : A) → o ≡ some a
    → bad a ≡ false
given-some none bad h a e = cc
given-some (some b) bad h a e = cc

within : (low high n : ℤ) → ltb_ℤ n low || ltb_ℤ high n ≡ false → (low ≤ℤ n) × (n ≤ℤ high)
within low high n h = elim (Bool-cases (ltb_ℤ n low)) [
  | inl under ↦ cc (rw under at h)
  | inr enough ↦ (ltb_ℤ_false n low enough, ltb_ℤ_false high n (rw enough at h))
]

fallback_below_zero-false :
    (f : FloatOps) (o : Option FallbackConfig)
    → fallback_below_zero f o ≡ false
    → (c : FallbackConfig) (x : Float) → o ≡ some c
    → c.max_cost_increase ≡ some x
    → f.lt x (f.ratio 0 1) ≡ false
unfolding fallback_below_zero
fallback_below_zero-false f none h c x e g = cc
fallback_below_zero-false f (some b) h c x e g =
    let same : b ≡ c = cc (e) in
    given-some b.max_cost_increase (λ y. f.lt y (f.ratio 0 1)) h x
      (ap (λ k. k.max_cost_increase) same ∙ g)

-- `validateLLMConfig` accepts only settings within their bounds.
pub validate_llm_config-IsLlm :
    (f : FloatOps) (cfg : AgentLlmConfig) → validate_llm_config f cfg ≡ none → IsLlm f cfg
unfolding validate_llm_config llm_checks outside_unit bad_temperature bad_max_tokens bad_top_k
    bad_retries
validate_llm_config-IsLlm f cfg h =
    let (a, (b, (c, (d, (e, (g, (k, (l, _)))))))) = first_failed-none (llm_checks f cfg) h in
    record {
      provider = a;
      model = b;
      temperature = given-some cfg.temperature (bad_temperature f) c;
      max_tokens =
          λ n e'. within (pos 1) (pos 128000) n (given-some cfg.max_tokens bad_max_tokens d n e');
      top_p = given-some cfg.top_p (outside_unit f) e;
      top_k = λ n e'. ltb_ℤ_false n (pos 0) (given-some cfg.top_k bad_top_k g n e');
      max_attempts = λ r e'.
          within (pos 1) (pos 10) r.max_attempts (given-some cfg.retry_config bad_retries k r e');
      max_cost_increase = fallback_below_zero-false f cfg.fallback_config l;
    }

module _ (aether : Aether) (tenant_id : Str) where
  -- Aether-BE does not answer about the notebook that it is missing.
  abbrev pub NotMissing : ℕ → Type 0
  NotMissing id = check_notebook_exists aether tenant_id id ≢ ok false

  check_notebooks-NotMissing :
      (i : ℕ) (ids : List ℕ) → check_notebooks aether tenant_id i ids ≡ [] → All NotMissing ids
  unfolding check_notebooks
  check_notebooks-NotMissing i [] h = tt
  check_notebooks-NotMissing i (id ∷ ids) h =
      let rest = check_notebooks-NotMissing (i + 1) ids in
      elim (Result-cases (check_notebook_exists aether tenant_id id)) [
        | inl (there, e) ↦ elim (Bool-cases there) [
          | inl found ↦
              let e' = e ∙ ap ok found in (λ m. cc (e', m), rest (rw (e', check_notebooks) at h))
          | inr missing ↦ cc (rw (e ∙ ap ok missing, check_notebooks) at h)
        ]
        | inr (inl (x, e)) ↦ (λ m. cc (e, m), rest (rw (e, check_notebooks) at h))
        | inr (inr e) ↦ (λ m. cc (e, m), rest (rw (e, check_notebooks) at h))
      ]

  llm_errors-IsLlm :
      (cfg : AgentLlmConfig) → llm_errors aether tenant_id cfg ≡ [] → IsLlm aether.floats cfg
  unfolding llm_errors
  llm_errors-IsLlm cfg h = elim (Option-cases (validate_llm_config aether.floats cfg)) [
    | inl e ↦ validate_llm_config-IsLlm aether.floats cfg e
    | inr (x, e) ↦ cc (rw (e, llm_errors) at h)
  ]

  -- What a request to create an agent satisfies once it is accepted.
  pub record IsCreate (req : CreateAgentRequest) : Type 0 where
    pub named : is_nil req.name ≡ false
    pub short_name : length req.name ≤ 255
    pub prompted : is_nil req.system_prompt ≡ false
    pub placed : is_nil req.space_id ≡ false
    pub llm : IsLlm aether.floats req.llm_config
    pub notebooks :
        aether.configured ≡ true → req.enable_knowledge ≡ true → All NotMissing req.notebook_ids

  notebooks_lem :
      (knowledge : Bool) (ids : List ℕ)
      → (if knowledge then validate_notebook_ids aether tenant_id ids else []) ≡ []
      → aether.configured ≡ true
      → knowledge ≡ true
      → All NotMissing ids
  unfolding validate_notebook_ids
  notebooks_lem false ids h on knows = cc
  notebooks_lem true ids h on knows = check_notebooks-NotMissing 0 ids (sym (simp on) ∙ h)

  -- `ValidateCreateRequest` reports no error only for a request with a name of 1 to 255 bytes, a
  -- prompt, a space and settings of the model within their bounds, and, with knowledge enabled and
  -- Aether-BE configured, notebooks that Aether-BE does not report as missing.
  pub validate_create_request-IsCreate :
      (req : CreateAgentRequest) → validate_create_request aether tenant_id req ≡ [] → IsCreate req
  unfolding validate_create_request
  validate_create_request-IsCreate req h =
      let (a, h1) = append-nil_inv (error_if (is_nil req.name) _ _) _ h in
      let (b, h2) = append-nil_inv (error_if (ltb 255 (length req.name)) _ _) _ h1 in
      let (c, h3) = append-nil_inv (error_if (is_nil req.system_prompt) _ _) _ h2 in
      let (d, h4) = append-nil_inv (error_if (is_nil req.space_id) _ _) _ h3 in
      let (e, h5) = append-nil_inv (llm_errors aether tenant_id req.llm_config) _ h4 in
      let (_, h6) = append-nil_inv (context_errors aether tenant_id req.document_context) _ h5 in
      let long : ltb 255 (length req.name) ≡ false = error_if-nil _ _ _ b in
      record {
        named = error_if-nil _ _ _ a;
        short_name = ground (arith, long);
        prompted = error_if-nil _ _ _ c;
        placed = error_if-nil _ _ _ d;
        llm = llm_errors-IsLlm req.llm_config e;
        notebooks = notebooks_lem req.enable_knowledge req.notebook_ids h6;
      }
