-- ===== src/Router/Capped.antt =====
-- The cap on `max_tokens` in services/impl/router_service_impl.go.
use tas_agent_builder.Base.{
  ◌≡◌, refl, ◌==◌, Bool-cases, Option-cases, inl, inr, Str, codes, str_eq, List, [], ◌∷◌, some, ℤ,
  pos, ltb_ℤ, ltb_ℤ_true, ltb_ℤ_false, ◌≤ℤ◌, ◌<ℤ◌, Result, ok, err, panic, All, arith,
}
use tas_agent_builder.External.{HttpReply, unreachable, answered}
use tas_agent_builder.Router.Wire.{extract_provider}
use tas_agent_builder.Router.Limits.{
  SupportedModel, LimitsCache, find_limit, store_limits, limit_or_default, limits_of_reply,
  get_model_max_output_tokens, cap_max_tokens_for_model,
}

-- Every limit that is kept is positive.
abbrev pub IsPositive : LimitsCache → Type 0
IsPositive cache = All (λ entry. pos 0 <ℤ entry.1) cache

find_limit-IsPositive :
    (model : Str) (cache : LimitsCache) (n : ℤ)
    → IsPositive cache
    → find_limit model cache ≡ some n
    → pos 0 <ℤ n
unfolding find_limit
find_limit-IsPositive model [] n p h = cc
find_limit-IsPositive model ((name, limit) ∷ rest) n (q, p) h =
    elim (Bool-cases (str_eq name model)) [
      | inl here ↦ rw (some_inj limit n (rw here at h)) q
      | inr there ↦ find_limit-IsPositive model rest n p (rw there at h)
    ]
  where
    some_inj : (a b : ℤ) → some a ≡ some b → b ≡ a
    some_inj a b e = cc

store_limits-IsPositive :
    (cache : LimitsCache) (models : List SupportedModel)
    → IsPositive cache
    → IsPositive (store_limits cache models)
unfolding store_limits
store_limits-IsPositive cache [] p = p
store_limits-IsPositive cache (m ∷ rest) p = elim (Bool-cases (ltb_ℤ (pos 0) m.max_output_tokens)) [
  | inl positive ↦ rw positive (
      store_limits-IsPositive ((m.name, m.max_output_tokens) ∷ cache) rest
        (ltb_ℤ_true (pos 0) m.max_output_tokens positive, p))
  | inr not_positive ↦ rw not_positive (store_limits-IsPositive cache rest p)
]

limits_of_reply-IsPositive :
    (cache : LimitsCache) (reply : HttpReply (List SupportedModel))
    → IsPositive cache
    → IsPositive (limits_of_reply cache reply)
unfolding limits_of_reply
limits_of_reply-IsPositive cache (unreachable e) p = p
limits_of_reply-IsPositive cache (answered status body decoded) p =
    elim (Bool-cases (status == 200)) [
      | inr bad ↦ rw bad p
      | inl fine ↦ rw fine (decoded_case decoded)
    ]
  where
    decoded_case :
        (d : Result (List SupportedModel))
        → IsPositive
            (elim d [ ok models ↦ store_limits cache models | err e ↦ cache | panic ↦ cache ])
    decoded_case (ok models) = store_limits-IsPositive cache models p
    decoded_case (err e) = p
    decoded_case panic = p

limit_or_default-positive :
    (model : Str) (cache : LimitsCache) → IsPositive cache → pos 0 <ℤ limit_or_default model cache
unfolding limit_or_default
limit_or_default-positive model cache p = elim (Option-cases (find_limit model cache)) [
  | inl missing ↦ rw (missing, limit_or_default) (omega arith)
  | inr (n, there) ↦ rw (there, limit_or_default) (find_limit-IsPositive model cache n p there)
]

get_model_max_output_tokens-IsPositive :
    (reply : Str → HttpReply (List SupportedModel)) (cache : LimitsCache) (model : Str)
    → IsPositive cache
    → IsPositive (get_model_max_output_tokens reply cache model).0
      × (pos 0 <ℤ (get_model_max_output_tokens reply cache model).1)
unfolding get_model_max_output_tokens
get_model_max_output_tokens-IsPositive reply cache model p =
    elim (Option-cases (find_limit model cache)) [
      | inr (n, there) ↦
          rw (there, get_model_max_output_tokens) (p, find_limit-IsPositive model cache n p there)
      | inl missing ↦ elim (Bool-cases (str_eq (extract_provider model) (codes "unknown"))) [
        | inl unknown ↦ rw (missing, get_model_max_output_tokens) (rw unknown (p, omega arith))
        | inr known ↦
            let q = limits_of_reply-IsPositive cache (reply (extract_provider model)) p in
            rw (missing, get_model_max_output_tokens)
              (rw known (q, limit_or_default-positive model _ q))
      ]
    ]

-- With positive limits kept, a positive request for tokens stays positive, is not raised, is
-- within the limit of the model, and the limits kept after it are positive, whatever the router
-- answers.
pub cap_max_tokens_for_model-IsPositive :
    (reply : Str → HttpReply (List SupportedModel)) (cache : LimitsCache) (model : Str)
    (requested : ℤ)
    → IsPositive cache
    → pos 0 <ℤ requested
    → (n : ℤ) × ((cap_max_tokens_for_model reply cache (some requested) model).1 ≡ some n)
      × (pos 0 <ℤ n)
      × (n ≤ℤ requested)
      × (n ≤ℤ (get_model_max_output_tokens reply cache model).1)
      × IsPositive (cap_max_tokens_for_model reply cache (some requested) model).0
unfolding cap_max_tokens_for_model
cap_max_tokens_for_model-IsPositive reply cache model requested p h =
    let (q, positive) = get_model_max_output_tokens-IsPositive reply cache model p in
    let limit = (get_model_max_output_tokens reply cache model).1 in
    elim (Bool-cases (ltb_ℤ limit requested)) [
      | inl over ↦ (
        limit,
        rw over refl,
        positive,
        omega (arith, ltb_ℤ_true limit requested over),
        omega arith,
        q,
      )
      | inr under ↦ (requested, rw under refl, h, omega arith, ltb_ℤ_false limit requested under, q)
    ]
