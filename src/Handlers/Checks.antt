-- ===== src/Handlers/Checks.antt =====
-- What `validateRetryConfig` of handlers/agent_handlers.go accepts.
use Prim.Native.String.{String}
use tas_agent_builder.Base.{
  if◌then◌else◌, ◌≡◌, refl, ◌↔◌, ◌⊎◌, inl, inr, ◌&&◌, ◌||◌, not, Bool, Bool-cases, true, false, Str,
  codes, str_eq, str_eq_iff, is_nil, [], ◌∷◌, ℤ, pos, ◌≤ℤ◌, ltb_ℤ, Result, Result-cases, ok, err,
  panic, or_wrap, arith, ◌>>=◌,
}
use tas_agent_builder.Models.Agent.{RetryConfig}
use tas_agent_builder.Handlers.Config.{Durations, check_delay, validate_retry_config}

-- An empty delay, or one that `time.ParseDuration` reads.
unfoldable pub IsDelay : Durations → Str → Type 0
IsDelay parse [] = Unit
IsDelay parse (c ∷ delay) = (n : ℤ) × (parse (c ∷ delay) ≡ ok n)

pub record IsRetry (parse : Durations) (config : RetryConfig) : Type 0 where
  pub attempts : (pos 1 ≤ℤ config.max_attempts) × (config.max_attempts ≤ℤ pos 5)
  pub backoff :
      (config.backoff_type ≡ [])
      ⊎ (config.backoff_type ≡ codes "exponential")
      ⊎ (config.backoff_type ≡ codes "linear")
  pub base : IsDelay parse config.base_delay
  pub max : IsDelay parse config.max_delay

-- A check, and another after it.
pub both_iff :
    (r t : Result {0} Unit) {P Q : Type 0}
    → (r ≡ ok tt) ↔ P
    → (t ≡ ok tt) ↔ Q
    → (r >>= (λ u. t) ≡ ok tt) ↔ (P × Q)
both_iff (ok tt) t p q = (λ h. (p.0 refl, q.0 h), λ h. q.1 h.1)
both_iff (err e) t p q = (λ h. cc (h), λ h. cc (p.1 h.0))
both_iff panic t p q = (λ h. cc (h), λ h. cc (p.1 h.0))

pub wrap_iff :
    (what : String) (r : Result {0} Unit) {P : Type 0}
    → (r ≡ ok tt) ↔ P
    → (or_wrap what r ≡ ok tt) ↔ P
wrap_iff what (ok tt) p = p
wrap_iff what (err e) p = (λ h. cc (h), λ h. cc (p.1 h))
wrap_iff what panic p = (λ h. cc (h), λ h. cc (p.1 h))

-- A check that refuses, and another after it.
pub refuse_iff :
    (bad : Bool) (e : Str) (r : Result {0} Unit) {P Q : Type 0}
    → (bad ≡ false) ↔ P
    → (r ≡ ok tt) ↔ Q
    → ((if bad then err e else r) ≡ ok tt) ↔ (P × Q)
refuse_iff true e r p q = (λ h. cc (h), λ h. cc (p.1 h.0))
refuse_iff false e r p q = (λ h. (p.0 refl, q.0 h), λ h. q.1 h.1)

pub check_delay_iff :
    (parse : Durations) (delay : Str) → (check_delay parse delay ≡ ok tt) ↔ IsDelay parse delay
unfolding check_delay IsDelay
check_delay_iff parse [] = (λ h. tt, λ h. refl)
check_delay_iff parse (c ∷ delay) = (
  λ h. elim (Result-cases (parse (c ∷ delay))) [
    | inl (n, e) ↦ (n, e)
    | inr (inl (x, e)) ↦ cc (rw (e) at h)
    | inr (inr e) ↦ cc (rw (e) at h)
  ],
  λ h. rw (h.1) refl,
)

pub attempts_iff :
    (n : ℤ) → ((ltb_ℤ n (pos 1) || ltb_ℤ (pos 5) n) ≡ false) ↔ ((pos 1 ≤ℤ n) × (n ≤ℤ pos 5))
attempts_iff n = (λ h. ground (arith, h), λ h. ground (arith, h))

pub and_false : (b : Bool) → (b && false) ≡ false
and_false b = ground arith

pub backoff_iff :
    (s : Str)
    → ((not (is_nil s) && (not (str_eq s (codes "exponential")) && not (str_eq s (codes "linear"))))
        ≡ false)
      ↔ ((s ≡ []) ⊎ (s ≡ codes "exponential") ⊎ (s ≡ codes "linear"))
backoff_iff [] = (λ h. inl refl, λ h. refl)
backoff_iff (c ∷ s) = (
  λ h. elim (Bool-cases (str_eq (c ∷ s) (codes "exponential"))) [
    | inl e ↦ inr (inl ((str_eq_iff (c ∷ s) (codes "exponential")).0 e))
    | inr n ↦ elim (Bool-cases (str_eq (c ∷ s) (codes "linear"))) [
      | inl e ↦ inr (inr ((str_eq_iff (c ∷ s) (codes "linear")).0 e))
      | inr n' ↦ cc (rw (n, n') at h)
    ]
  ],
  λ h. elim h [
    | inl e ↦ cc (e)
    | inr (inl e) ↦ rw ((str_eq_iff (c ∷ s) (codes "exponential")).1 e) refl
    | inr (inr e) ↦
        rw ((str_eq_iff (c ∷ s) (codes "linear")).1 e)
          (and_false (not (str_eq (c ∷ s) (codes "exponential"))))
  ],
)

-- `validateRetryConfig` accepts exactly 1 to 5 attempts, a known backoff or none, and delays that are
-- empty or durations.
pub validate_retry_config_iff :
    (parse : Durations) (config : RetryConfig)
    → (validate_retry_config parse config ≡ ok tt) ↔ IsRetry parse config
unfolding validate_retry_config
validate_retry_config_iff parse config =
    let n = config.max_attempts in
    let checks = refuse_iff (ltb_ℤ n (pos 1) || ltb_ℤ (pos 5) n) _ _ (attempts_iff n) (
      refuse_iff _ _ _ (backoff_iff config.backoff_type) (
        both_iff _ _
          (wrap_iff "invalid base_delay format" _ (check_delay_iff parse config.base_delay))
          (wrap_iff "invalid max_delay format" _ (check_delay_iff parse config.max_delay)))) in
    (
      λ h.
          let (attempts, (backoff, (base, max))) = checks.0 h in
          record { attempts = attempts; backoff = backoff; base = base; max = max },
      λ is. checks.1 (is.attempts, (is.backoff, (is.base, is.max))),
    )
