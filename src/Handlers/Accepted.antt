-- ===== src/Handlers/Accepted.antt =====
-- What the handlers of handlers/agent_handlers.go accept as a configuration of the model.
use mathlib.Core.Path.{subst}
use tas_agent_builder.Base.{
  ◌≡◌, refl, ◌↔◌, ◌⊎◌, inl, inr, ◌||◌, Bool, Bool-cases, true, false, Str, List, [], ◌∷◌, map,
  Option, none, some, Result, Result-cases, ok, arith, All,
}
use tas_agent_builder.Floats.{Float, FloatOps}
use tas_agent_builder.Models.Agent.{RetryConfig, FallbackConfig, AgentLlmConfig}
use tas_agent_builder.Models.Services.{Provider}
use tas_agent_builder.Router.Providers.{has_text}
use tas_agent_builder.Handlers.Http.{RouterService}
use tas_agent_builder.Handlers.Config.{
  Durations, validate_retry_config, check_chain, cost_out_of_range, check_preferred_chain,
  validate_fallback_config, when_given, validate_llm_config,
}
use tas_agent_builder.Handlers.Checks.{
  IsRetry, both_iff, wrap_iff, refuse_iff, validate_retry_config_iff,
}

check_chain_iff :
    (available chain : List Str)
    → (check_chain available chain ≡ ok tt) ↔ All (λ name. has_text name available ≡ true) chain
unfolding check_chain
check_chain_iff available [] = (λ h. tt, λ h. refl)
check_chain_iff available (name ∷ chain) = elim (Bool-cases (has_text name available)) [
  | inl listed ↦ (
    λ h. (listed, (check_chain_iff available chain).0 (rw (listed) at h)),
    λ h. rw (listed) ((check_chain_iff available chain).1 h.1),
  )
  | inr other ↦ (λ h. cc (rw (other) at h), λ h. cc (other, h.0))
]

-- The names that the router lists.
unfoldable pub names_of : List Provider → List Str
names_of = map (λ p. p.name)

pub record IsFallback (router : RouterService) (f : FloatOps) (config : FallbackConfig)
    : Type 0 where
  pub cost :
      (x : Float)
      → config.max_cost_increase ≡ some x
      → (f.lt x (f.ratio 0 1) ≡ false) × (f.lt (f.ratio 20 10) x ≡ false)
  pub chain :
      (config.preferred_chain ≡ [])
      ⊎ ((providers : List Provider) × (router.get_available_providers ≡ ok providers)
          × All (λ name. has_text name (names_of providers) ≡ true) config.preferred_chain)

or_false : (a b : Bool) → (a || b) ≡ false → (a ≡ false) × (b ≡ false)
or_false a b h = ground arith

cost_iff :
    (f : FloatOps) (cost : Option Float)
    → (cost_out_of_range f cost ≡ false) ↔ (
        (x : Float)
        → cost ≡ some x
        → (f.lt x (f.ratio 0 1) ≡ false) × (f.lt (f.ratio 20 10) x ≡ false))
unfolding cost_out_of_range
cost_iff f none = (λ h. λ x e. cc (e), λ h. refl)
cost_iff f (some y) = (
  λ h. λ x e.
      let same : x ≡ y = cc (e) in
      rw (same) (or_false (f.lt y (f.ratio 0 1)) (f.lt (f.ratio 20 10) y) h),
  λ h. let (low, high) = h y refl in rw (low, high) refl,
)

chain_iff :
    (router : RouterService) (f : FloatOps) (chain : List Str)
    → (check_preferred_chain router f chain ≡ ok tt) ↔ (
        (chain ≡ [])
        ⊎ ((providers : List Provider) × (router.get_available_providers ≡ ok providers)
            × All (λ name. has_text name (names_of providers) ≡ true) chain))
unfolding check_preferred_chain names_of
chain_iff router f [] = (λ h. inl refl, λ h. refl)
chain_iff router f (name ∷ chain) = elim (Result-cases router.get_available_providers) [
  | inl (providers, e) ↦ (
    λ h. inr (providers, e, (check_chain_iff (names_of providers) (name ∷ chain)).0 (rw (e) at h)),
    λ h. elim h [
      | inl nil ↦ cc (nil)
      | inr (others, e', all) ↦
          let same : others ≡ providers = cc (e, e') in
          rw (e) (
            (check_chain_iff (names_of providers) (name ∷ chain)).1
              (subst (λ ps. All (λ n. has_text n (names_of ps) ≡ true) (name ∷ chain)) same all))
    ],
  )
  | inr (inl (x, e)) ↦ (
    λ h. cc (rw (e) at h),
    λ h. elim h [ inl nil ↦ cc (nil) | inr (others, e', all) ↦ cc (e, e') ],
  )
  | inr (inr e) ↦ (
    λ h. cc (rw (e) at h),
    λ h. elim h [ inl nil ↦ cc (nil) | inr (others, e', all) ↦ cc (e, e') ],
  )
]

validate_fallback_config_iff :
    (router : RouterService) (f : FloatOps) (config : FallbackConfig)
    → (validate_fallback_config router f config ≡ ok tt) ↔ IsFallback router f config
unfolding validate_fallback_config
validate_fallback_config_iff router f config =
    let checks =
      refuse_iff (cost_out_of_range f config.max_cost_increase) _ _
        (cost_iff f config.max_cost_increase) (chain_iff router f config.preferred_chain) in
    (
      λ h. let (cost, chain) = checks.0 h in record { cost = cost; chain = chain },
      λ is. checks.1 (is.cost, is.chain),
    )

some_inj : {A : Type 0} (b a : A) → some b ≡ some a → b ≡ a
some_inj b a e = cc

given_iff :
    {A : Type 0} (o : Option A) (check : A → Result {0} Unit) (P : A → Type 0)
    → ((a : A) → (check a ≡ ok tt) ↔ P a)
    → (when_given o check ≡ ok tt) ↔ ((a : A) → o ≡ some a → P a)
given_iff none check P iff = (λ h. λ a e. cc (e), λ h. refl)
given_iff (some b) check P iff =
    (λ h. λ a e. subst P (some_inj b a e) ((iff b).0 h), λ h. (iff b).1 (h b refl))

-- A configuration that the router accepts, with settings of retries and fallbacks within their bounds.
pub record IsAccepted (router : RouterService) (f : FloatOps) (parse : Durations)
    (config : AgentLlmConfig) : Type 0 where
  pub routed : router.validate_config config ≡ ok tt
  pub retry : (r : RetryConfig) → config.retry_config ≡ some r → IsRetry parse r
  pub fallback : (b : FallbackConfig) → config.fallback_config ≡ some b → IsFallback router f b

-- The check before an agent is created passes exactly the configurations that the router accepts and
-- whose retries, delays, cost increase and preferred providers are within their bounds.
pub validate_llm_config_iff :
    (router : RouterService) (f : FloatOps) (parse : Durations) (config : AgentLlmConfig)
    → (validate_llm_config router f parse config ≡ ok tt) ↔ IsAccepted router f parse config
unfolding validate_llm_config
validate_llm_config_iff router f parse config =
    let retry =
      given_iff config.retry_config (validate_retry_config parse) (IsRetry parse)
        (validate_retry_config_iff parse) in
    let fallback =
      given_iff config.fallback_config (validate_fallback_config router f) (IsFallback router f)
        (validate_fallback_config_iff router f) in
    let checks =
      both_iff _ _
        (wrap_iff "router validation failed" (router.validate_config config) (λ h. h, λ h. h))
        (both_iff _ _ (wrap_iff "invalid retry config" _ retry)
          (wrap_iff "invalid fallback config" _ fallback)) in
    (
      λ h.
          let (routed, (retry, fallback)) = checks.0 h in
          record { routed = routed; retry = retry; fallback = fallback },
      λ is. checks.1 (is.routed, (is.retry, is.fallback)),
    )
