-- ===== src/Handlers/Http.antt =====
-- What the handlers of handlers/agent_handlers.go read of a request and answer to it. A gin context is
-- the values of the request that the handler reads; what it writes is the result.
use Prim.Native.String.{String}
use tas_agent_builder.Base.{
  ℕ, ◌≡◌, refl, ◌⊎◌, inl, inr, Str, codes, Option, none, some, Result, ok, err, panic, List,
}
use tas_agent_builder.Models.Agent.{AgentLlmConfig}
use tas_agent_builder.Models.Services.{Message, Provider, RouterResponse}

-- `c.Get(key)`: no value, one that is no string, or a string.
pub data Claim : Type 0 where
  missing not_text : Claim
  claimed : Str → Claim

-- What a handler has come to: a value to go on with, or a reply with an error, or a panic, which the
-- recovery of gin answers.
pub data Reply {ℓ} (A : Type ℓ) : Type ℓ where
  go : A → Reply A
  refuse : ℕ → Str → Option Str → Reply A
  crash : Reply A

-- `if … { c.JSON(…); return }; …`
infixl 5 ◌>>=◌
abbrev pub ◌>>=◌ {ℓ κ} : {A : Type ℓ} {B : Type κ} → Reply A → (A → Reply B) → Reply B
◌>>=◌ m next = elim m [ go a ↦ next a | refuse n e d ↦ refuse n e d | crash ↦ crash ]

-- `if err != nil { c.JSON(status, gin.H{"error": what, "details": err.Error()}); return }`
abbrev pub or_refuse {ℓ} : {A : Type ℓ} → ℕ → String → Result A → Reply A
or_refuse status what (ok a) = go a
or_refuse status what (err e) = refuse status (codes what) (some e)
or_refuse status what panic = crash

-- The same without the details.
abbrev pub or_only {ℓ} : {A : Type ℓ} → ℕ → String → Result A → Reply A
or_only status what (ok a) = go a
or_only status what (err e) = refuse status (codes what) none
or_only status what panic = crash

-- `c.JSON(http.StatusNotFound, gin.H{"error": err.Error()})`
abbrev pub or_error {ℓ} : {A : Type ℓ} → ℕ → Result A → Reply A
or_error status (ok a) = go a
or_error status (err e) = refuse status e none
or_error status panic = crash

-- `x, exists := c.Get(key)` and `s, ok := x.(string)`, with their two refusals.
unfoldable pub claim_text : String → String → Claim → Reply Str
claim_text absent bad missing = refuse 401 (codes absent) none
claim_text absent bad not_text = refuse 400 (codes bad) none
claim_text absent bad (claimed s) = go s

-- `if _, exists := c.Get(key); !exists { … }`
unfoldable pub claim_present : String → Claim → Reply {0} Unit
claim_present absent missing = refuse 401 (codes absent) none
claim_present absent not_text = go tt
claim_present absent (claimed s) = go tt

-- A handler that changes the store goes on only when the checks before it passed.
abbrev pub serve {ℓ κ} :
    {S : Type 0} {A : Type ℓ} {B : Type κ} → S → Reply A → (A → S × Reply B) → S × Reply B
serve s (go a) next = next a
serve s (refuse n e d) next = (s, refuse n e d)
serve s crash next = (s, crash)

-- services.RouterService, as the handlers use it.
pub record RouterService : Type 0 where
  pub validate_config : AgentLlmConfig → Result {0} Unit
  pub get_available_providers : Result (List Provider)
  pub send_request : AgentLlmConfig → List Message → ℕ → Result RouterResponse

pub Reply-cases {ℓ} :
    {A : Type ℓ} (r : Reply A)
    → ((a : A) × (r ≡ go a))
      ⊎ ((n : ℕ) × (e : Str) × (d : Option Str) × (r ≡ refuse n e d))
      ⊎ (r ≡ crash)
Reply-cases (go a) = inl (a, refl)
Reply-cases (refuse n e d) = inr (inl (n, e, d, refl))
Reply-cases crash = inr (inr refl)

-- What a chain that went through has done first.
pub >>=-go {ℓ κ} :
    {A : Type ℓ} {B : Type κ} (m : Reply A) (next : A → Reply B) (b : B)
    → m >>= next ≡ go b
    → (a : A) × (m ≡ go a) × (next a ≡ go b)
>>=-go (go a) next b h = (a, refl, h)
>>=-go (refuse n e d) next b h = cc
>>=-go crash next b h = cc
