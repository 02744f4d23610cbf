-- ===== src/Router/Available.antt =====
-- What `ValidateConfig` of services/impl/router_service_impl.go accepts.
use tas_agent_builder.Base.{
  ◌≡◌, refl, ◌↔◌, Bool, true, false, Bool-cases, inl, inr, Str, str_eq, str_eq_iff, is_nil, List,
  [], ◌∷◌, map, ℤ, ok, arith,
}
use tas_agent_builder.External.{answered}
use tas_agent_builder.Models.Agent.{AgentLlmConfig}
use tas_agent_builder.Router.Providers.{
  known_models, provider_of_name, get_available_providers, reply_or_error, has_text, check_provider,
  validate_config,
}

check_provider-ok :
    (config : AgentLlmConfig) (names : List Str)
    → has_text config.provider names ≡ true
    → has_text config.model (known_models config.provider) ≡ true
    → check_provider config (map provider_of_name names) ≡ ok tt
unfolding check_provider has_text provider_of_name
check_provider-ok config [] listed known = cc
check_provider-ok config (name ∷ names) listed known =
    elim (Bool-cases (str_eq name config.provider)) [
      | inl here ↦
          let e = (str_eq_iff name config.provider).0 here in rw here (rw e (rw known refl))
      | inr there ↦ rw there (check_provider-ok config names (rw there at listed) known)
    ]

check_provider-listed :
    (config : AgentLlmConfig) (names : List Str)
    → check_provider config (map provider_of_name names) ≡ ok tt
    → (has_text config.provider names ≡ true)
      × (has_text config.model (known_models config.provider) ≡ true)
unfolding check_provider has_text provider_of_name
check_provider-listed config [] h = cc
check_provider-listed config (name ∷ names) h = elim (Bool-cases (str_eq name config.provider)) [
  | inl here ↦
      let e = (str_eq_iff name config.provider).0 here in
      elim (Bool-cases (has_text config.model (known_models config.provider))) [
        | inl known ↦ (rw here refl, known)
        | inr unknown ↦ cc (rw unknown at (rw e at (rw here at h)))
      ]
  | inr there ↦
      let (listed, known) = check_provider-listed config names (rw there at h) in
      (rw there listed, known)
]

no_nil_model : (name : Str) → has_text [] (known_models name) ≡ false
unfolding has_text known_models str_eq
no_nil_model name = ground arith

no_model_of_nil : (model : Str) → has_text model (known_models []) ≡ false
unfolding has_text known_models str_eq
no_model_of_nil model = refl

nil_of : (s : Str) → is_nil s ≡ true → s ≡ []
nil_of [] h = refl
nil_of (c ∷ s) h = cc

known_apart : {b : Bool} → b ≡ false → ¬ (b ≡ true)
known_apart apart = λ h. cc (apart, h)

-- When the router lists its providers, `ValidateConfig` accepts exactly the configurations whose
-- provider is listed and whose model is one that the code knows of that provider.
pub validate_config-ok :
    (decimal : ℤ → Str) (body : Str) (names : List Str) (config : AgentLlmConfig)
    → (validate_config decimal (answered 200 body (ok names)) config ≡ ok tt) ↔ (
        (has_text config.provider names ≡ true)
        × (has_text config.model (known_models config.provider) ≡ true))
unfolding validate_config get_available_providers reply_or_error
validate_config-ok decimal body names config = (accepted, accepts)
  where
    accepted :
        validate_config decimal (answered 200 body (ok names)) config ≡ ok tt
        → (has_text config.provider names ≡ true)
          × (has_text config.model (known_models config.provider) ≡ true)
    accepted h = elim (Bool-cases (is_nil config.provider)) [
      | inl nil ↦ cc (rw (nil, validate_config) at h)
      | inr named ↦ elim (Bool-cases (is_nil config.model)) [
        | inl nil ↦ cc (rw nil at (rw (named, validate_config) at h))
        | inr model ↦
            check_provider-listed config names (rw model at (rw (named, validate_config) at h))
      ]
    ]

    accepts :
        (has_text config.provider names ≡ true)
          × (has_text config.model (known_models config.provider) ≡ true)
        → validate_config decimal (answered 200 body (ok names)) config ≡ ok tt
    accepts (listed, known) = elim (Bool-cases (is_nil config.provider)) [
      | inl nil ↦
          absurd
            (known_apart (no_model_of_nil config.model) (rw (nil_of config.provider nil) at known))
      | inr named ↦ elim (Bool-cases (is_nil config.model)) [
        | inl nil ↦
            absurd
              (known_apart (no_nil_model config.provider) (rw (nil_of config.model nil) at known))
        | inr model ↦
            rw (named, validate_config) (rw model (check_provider-ok config names listed known))
      ]
    ]
