-- ===== src/Validation/Details.antt =====
-- The two checks of notebooks of services/impl/validation.go, with and without their details.
use tas_agent_builder.Base.{
  ℕ, ◌+◌, ◌==◌, ◌≡◌, refl, ap, Bool-cases, Str, List, [], ◌∷◌, inl, inr, Result-cases,
}
use tas_agent_builder.External.{HttpReply-cases}
use tas_agent_builder.Validation.Requests.{
  Aether, check_notebook_exists, get_notebook_details, not_found, check_notebooks,
  collect_notebooks, validate_notebook_ids, validate_notebook_ids_with_details,
}

module _ (aether : Aether) (tenant_id : Str) where
  collect_notebooks-check_notebooks :
      (i : ℕ) (ids : List ℕ)
      → (collect_notebooks aether tenant_id i ids).1 ≡ check_notebooks aether tenant_id i ids
  unfolding collect_notebooks check_notebooks get_notebook_details check_notebook_exists
  collect_notebooks-check_notebooks i [] = refl
  collect_notebooks-check_notebooks i (id ∷ ids) =
      let rest = collect_notebooks-check_notebooks (i + 1) ids in
      elim (HttpReply-cases (aether.notebook tenant_id id)) [
        | inl (x, e) ↦ rw (e, collect_notebooks, check_notebooks) rest
        | inr (status, body, decoded, e) ↦ elim (Bool-cases (status == 200)) [
          | inl success ↦ elim (Result-cases decoded) [
            | inl (notebook, d) ↦ rw (e, collect_notebooks, check_notebooks, success, d) rest
            | inr (inl (x, d)) ↦ rw (e, collect_notebooks, check_notebooks, success, d) rest
            | inr (inr d) ↦ rw (e, collect_notebooks, check_notebooks, success, d) rest
          ]
          | inr other ↦ elim (Bool-cases (status == 404)) [
            | inl missing ↦
                rw (e, collect_notebooks, check_notebooks, other, missing)
                  (ap (λ errors. not_found aether tenant_id i id ∷ errors) rest)
            | inr strange ↦ rw (e, collect_notebooks, check_notebooks, other, strange) rest
          ]
        ]
      ]

  -- `ValidateNotebookIDsWithDetails` reports the errors that `ValidateNotebookIDs` reports.
  pub validate_notebook_ids_with_details-errors :
      (ids : List ℕ)
      → (validate_notebook_ids_with_details aether tenant_id ids).1
        ≡ validate_notebook_ids aether tenant_id ids
  unfolding validate_notebook_ids_with_details validate_notebook_ids
  validate_notebook_ids_with_details-errors ids = elim (Bool-cases aether.configured) [
    | inl on ↦ simp (on) (collect_notebooks-check_notebooks 0 ids)
    | inr off ↦ simp (off) refl
  ]
