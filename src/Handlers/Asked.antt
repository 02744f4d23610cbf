-- ===== src/Handlers/Asked.antt =====
-- What the query of a list says, in the filter that handlers/agent_handlers.go makes of it.
use Prim.Native.String.{String}
use tas_agent_builder.Base.{
  ℕ, ◌≡◌, ◌⊎◌, refl, inl, inr, not, Bool, Bool-cases, Str, List, [], ◌∷◌, Option, none, some, ℤ,
  pos, ltb_ℤ, ◌||◌, Result, ok, err, panic,
}
use tas_agent_builder.Models.Agent.{AgentListFilter}
use tas_agent_builder.Handlers.Http.{go, >>=-go, or_only}
use tas_agent_builder.Handlers.Query.{
  ListQuery, Readers, given_text, given_bool, atoi, checked_number, given_id, given_tags,
  page_number, size_number,
}

abbrev pub ReadId : Readers → Str → Option ℕ → Type 0
ReadId read s o = (id : ℕ) × (read.parse_uuid s ≡ ok id) × (o ≡ some id)

-- A parameter that is absent, with its default, or read by `reads`.
abbrev pub Param {ℓ} : {A : Type ℓ} → Str → A → (A → Type ℓ) → A → Type ℓ
Param s absent reads a = ((s ≡ []) × (a ≡ absent)) ⊎ reads a

-- The filter has what the query of the request says, parameter by parameter.
pub record IsAsked (read : Readers) (q : ListQuery) (wanted : AgentListFilter) : Type 0 where
  pub owner : Param q.owner_id none (ReadId read q.owner_id) wanted.owner_id
  pub space : Param q.space_id none (ReadId read q.space_id) wanted.space_id
  pub tenant : Param q.tenant_id none (ReadId read q.tenant_id) wanted.tenant_id
  pub tags : Param q.tags [] (λ tags. read.texts_of_json q.tags ≡ ok tags) wanted.tags
  pub page : Param q.page (pos 1) (λ n. atoi q.page ≡ some n) wanted.page
  pub size : Param q.size (pos 20) (λ n. atoi q.size ≡ some n) wanted.size
  pub status : wanted.status ≡ given_text q.status
  pub space_type : wanted.space_type ≡ given_text q.space_type
  pub open_to_all : wanted.is_public ≡ given_bool q.is_public
  pub template : wanted.is_template ≡ given_bool q.is_template
  pub internal : wanted.is_internal ≡ none
  pub search : wanted.search ≡ q.search

or_only-ok :
    {A : Type 0} (code : ℕ) (bad : String) (r : Result A) (a : A)
    → or_only code bad r ≡ go a
    → r ≡ ok a
or_only-ok code bad (ok b) a h = cc
or_only-ok code bad (err e) a h = cc
or_only-ok code bad panic a h = cc

pub given_id-Param :
    (read : Readers) (bad : String) (s : Str) (o : Option ℕ)
    → given_id read bad s ≡ go o
    → Param s none (ReadId read s) o
unfolding given_id
given_id-Param read bad [] o h = inl (refl, cc (h))
given_id-Param read bad (c ∷ s) o h =
    let (id, parsed, e) = >>=-go (or_only 400 bad (read.parse_uuid (c ∷ s))) _ o h in
    inr (id, or_only-ok 400 bad (read.parse_uuid (c ∷ s)) id parsed, cc (e))

pub given_tags-Param :
    (read : Readers) (s : Str) (tags : List Str)
    → given_tags read s ≡ go tags
    → Param s [] (λ t. read.texts_of_json s ≡ ok t) tags
unfolding given_tags
given_tags-Param read [] tags h = inl (refl, cc (h))
given_tags-Param read (c ∷ s) tags h =
    inr (or_only-ok 400 "Invalid tags format" (read.texts_of_json (c ∷ s)) tags h)

checked_number-read :
    (bad : String) (good : ℤ → Bool) (o : Option ℤ) (n : ℤ)
    → checked_number bad good o ≡ go n
    → o ≡ some n
unfolding checked_number
checked_number-read bad good none n h = cc
checked_number-read bad good (some k) n h = elim (Bool-cases (good k)) [
  | inl holds ↦ cc (rw holds at h)
  | inr fails ↦ cc (rw fails at h)
]

pub page_number-Param :
    (s : Str) (n : ℤ) → page_number s ≡ go n → Param s (pos 1) (λ k. atoi s ≡ some k) n
unfolding page_number
page_number-Param [] n h = inl (refl, cc (h))
page_number-Param (c ∷ s) n h =
    inr
      (checked_number-read "Invalid page parameter" (λ k. not (ltb_ℤ k (pos 1))) (atoi (c ∷ s)) n h)

pub size_number-Param :
    (s : Str) (n : ℤ) → size_number s ≡ go n → Param s (pos 20) (λ k. atoi s ≡ some k) n
unfolding size_number
size_number-Param [] n h = inl (refl, cc (h))
size_number-Param (c ∷ s) n h = inr (
    checked_number-read "Invalid size parameter (must be 1-100)"
      (λ k. not (ltb_ℤ k (pos 1) || ltb_ℤ (pos 100) k)) (atoi (c ∷ s)) n h)
