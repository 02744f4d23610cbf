-- ===== src/Executions/Status.antt =====
-- The status of one execution in the rows of services/impl/execution_service_impl.go.
use tas_agent_builder.Base.{
  ℕ, ◌==◌, ==_iff, ◌≡◌, refl, sym, ap, if◌then◌else◌, Bool, Bool-cases, true, false, inl, inr, List,
  [], ◌∷◌, ◌++◌, Option, none, some, Among, update_where,
}
use tas_agent_builder.Models.Execution.{ExecutionStatus, AgentExecution}

-- The status of the execution with an id, if there is one.
unfoldable pub status_of : ℕ → List AgentExecution → Option ExecutionStatus
status_of id [] = none
status_of id (e ∷ rows) = let rest = status_of id rows in if e.id == id then some e.status else rest

-- No other row has the id of the execution.
abbrev pub IsOnly : AgentExecution → List AgentExecution → Type 0
IsOnly e rows = (b : AgentExecution) → Among b rows → b.id ≡ e.id → b ≡ e

pub status_of-Among :
    (e : AgentExecution) (rows : List AgentExecution)
    → Among e rows
    → IsOnly e rows
    → status_of e.id rows ≡ some e.status
unfolding status_of
status_of-Among e [] m only = elim m [ ]
status_of-Among e (x ∷ rows) m only = elim (Bool-cases (x.id == e.id)) [
  | inl same ↦
      let eq : x ≡ e = only x (inl refl) ((==_iff x.id e.id).0 same) in
      rw (same) (ap (λ b. some b.status) eq)
  | inr other ↦ elim m [
    | inl eq ↦ cc (other, (==_iff x.id e.id).1 (ap (λ b. b.id) (sym eq)))
    | inr n ↦ rw (other) (status_of-Among e rows n (λ b there. only b (inr there)))
  ]
]

-- An update of executions with other ids.
pub status_of-update_other :
    (p : AgentExecution → Bool) (f : AgentExecution → AgentExecution) (id : ℕ)
    (rows : List AgentExecution)
    → ((e : AgentExecution) → (f e).id ≡ e.id)
    → ((e : AgentExecution) → (e.id == id) ≡ true → p e ≡ false)
    → status_of id (update_where p f rows) ≡ status_of id rows
unfolding status_of update_where
status_of-update_other p f id [] keeps apart = refl
status_of-update_other p f id (e ∷ rows) keeps apart =
    let rest = status_of-update_other p f id rows keeps apart in
    elim (Bool-cases (e.id == id)) [
      | inl same ↦ rw (apart e same, same) refl
      | inr other ↦ elim (Bool-cases (p e)) [
        | inl taken ↦ rw (taken, keeps e, other) rest
        | inr left ↦ rw (left, other) rest
      ]
    ]

-- An update of the execution with the id, that sets its status.
pub status_of-update_same :
    (f : AgentExecution → AgentExecution) (id : ℕ) (status : ExecutionStatus)
    (rows : List AgentExecution)
    → ((e : AgentExecution) → (f e).id ≡ e.id)
    → ((e : AgentExecution) → (f e).status ≡ status)
    → status_of id (update_where (λ e. e.id == id) f rows)
      ≡ elim (status_of id rows) [ none ↦ none | some old ↦ some status ]
unfolding status_of update_where
status_of-update_same f id status [] keeps sets = refl
status_of-update_same f id status (e ∷ rows) keeps sets =
    let rest = status_of-update_same f id status rows keeps sets in
    elim (Bool-cases (e.id == id)) [
      | inl same ↦ rw (same, keeps e, same) (ap some (sets e))
      | inr other ↦ rw (other, other) rest
    ]

pub status_of-append :
    (e : AgentExecution) (id : ℕ) (rows : List AgentExecution)
    → (e.id == id) ≡ false
    → status_of id (rows ++ (e ∷ [])) ≡ status_of id rows
unfolding status_of
status_of-append e id [] other = rw (other) refl
status_of-append e id (x ∷ rows) other = elim (Bool-cases (x.id == id)) [
  | inl same ↦ rw (same) refl
  | inr apart ↦ rw (apart) (status_of-append e id rows other)
]
