-- ===== src/Base/Errors.antt =====
-- Go's `(value, error)` pairs: an error is its message, as `Error()` prints it. A run-time panic
-- (an index or a slice out of range) is a result of its own, which no caller catches.
use Prim.Native.String.{String}
use mathlib.Core.List.{◌++◌}
use mathlib.Core.Logic.{◌⊎◌, inl, inr}
use mathlib.Core.Path.{◌≡◌, refl}
use mathlib.Core.Option.{Option, none, some}
use tas_agent_builder.Base.Text.{Str, codes}

pub data Result {ℓ} (A : Type ℓ) : Type ℓ where
  ok : A → Result A
  err : Str → Result A
  panic : Result A

-- fmt.Errorf("<what>: %w", e)
abbrev pub wrap : String → Str → Str
wrap what e = codes what ++ codes ": " ++ e

-- `if err != nil { return nil, fmt.Errorf("<what>: %w", err) }`
abbrev pub or_wrap {ℓ} : {A : Type ℓ} → String → Result A → Result A
or_wrap what (ok a) = ok a
or_wrap what (err e) = err (wrap what e)
or_wrap what panic = panic

-- `x, err := m; if err != nil { return …, err }; …`
infixl 5 ◌>>=◌
abbrev pub ◌>>=◌ {ℓ κ} : {A : Type ℓ} {B : Type κ} → Result A → (A → Result B) → Result B
◌>>=◌ m next = elim m [ ok a ↦ next a | err e ↦ err e | panic ↦ panic ]

-- The `error` that a call returns, where the caller passes it on unchanged or wraps it.
abbrev pub error_result {ℓ} : {A : Type ℓ} → A → Option Str → Result A
error_result a none = ok a
error_result a (some e) = err e

pub Result-cases {ℓ} :
    {A : Type ℓ} (r : Result A) → ((a : A) × (r ≡ ok a)) ⊎ ((e : Str) × (r ≡ err e)) ⊎ (r ≡ panic)
Result-cases (ok a) = inl (a, refl)
Result-cases (err e) = inr (inl (e, refl))
Result-cases panic = inr (inr refl)

pub error_result-ok {ℓ} :
    {A : Type ℓ} (a : A) (e : Option Str) {b : A} → error_result a e ≡ ok b → e ≡ none
error_result-ok a none h = refl
error_result-ok a (some e) h = cc

pub or_wrap-ok {ℓ} :
    {A : Type ℓ} (what : String) (r : Result A) {a : A} → or_wrap what r ≡ ok a → r ≡ ok a
or_wrap-ok what (ok a) h = h
or_wrap-ok what (err e) h = cc
or_wrap-ok what panic h = cc
