-- ===== src/Executions/Lifecycle.antt =====
-- The states of an execution through the calls of services/impl/execution_service_impl.go.
use tas_agent_builder.Base.{
  ℕ, ◌==◌, ==_iff, ◌≡◌, refl, sym, ap, ◌∙◌, if◌then◌else◌, Bool, Bool-cases, true, false, inl, inr,
  Str, List, [], ◌∷◌, ◌++◌, Option, Option-cases, none, some, ℤ, Result, Result-cases, ok, err,
  panic, Among, Among-append_last, arith,
}
use tas_agent_builder.External.Database.{Table}
use tas_agent_builder.Models.Execution.{ExecutionStatus, queued, cancelled, AgentExecution}
use tas_agent_builder.Executions.Service.{
  GoMap, StartExecutionRequest, new_execution, with_output, with_completion, start_execution,
  complete_execution, cancel_execution, missing_column,
}
use tas_agent_builder.Executions.Status.{
  status_of, IsOnly, status_of-Among, status_of-update_other, status_of-update_same,
  status_of-append,
}

pub data Call : Type 0 where
  start : ℤ → ℕ → StartExecutionRequest → ℕ → Call
  complete : ℤ → ℕ → ExecutionStatus → Option GoMap → Option Str → ℤ → Call
  cancel : ℤ → ℕ → ℕ → Call

abbrev pub is_ok {ℓ} : {A : Type ℓ} → Result A → Bool
is_ok (ok a) = true
is_ok (err e) = false
is_ok panic = false

-- What a call that succeeded, or failed, does to the status of the execution `k`.
unfoldable pub next_status : ℕ → Call → Bool → Option ExecutionStatus → Option ExecutionStatus
next_status k call false status = status
next_status k (start now id req user_id) true status = if id == k then some queued else status
next_status k (complete now id new output message duration) true status =
    if id == k then elim status [ none ↦ none | some old ↦ some new ] else status
next_status k (cancel now id user_id) true status = if id == k then some cancelled else status

unfoldable pub replay : ℕ → List (Call × Bool) → Option ExecutionStatus → Option ExecutionStatus
unfolding next_status
replay k [] status = status
replay k ((call, succeeded) ∷ calls) status = replay k calls (next_status k call succeeded status)

pub only :
    (executions : Table AgentExecution)
    → ((e : AgentExecution) → executions.key e ≡ e.id)
    → (s : executions.Store) (e : AgentExecution) → Among e (executions.rows s)
    → IsOnly e (executions.rows s)
only executions keyed s e m b n h = executions.unique s b e n m (keyed b ∙ h ∙ sym (keyed e))

pub apart : (i j k : ℕ) → (i == j) ≡ false → (k == j) ≡ true → (k == i) ≡ false
apart i j k h e = ground (arith, h, e)

module _ (executions : Table AgentExecution) (marshal : GoMap → Result Str) where
  unfoldable pub call_on : executions.Store → Call → executions.Store × Bool
  unfolding start_execution complete_execution cancel_execution
  call_on s (start now id req user_id) =
      let (t, r) = start_execution executions marshal s now id req user_id in (t, is_ok r)
  call_on s (complete now id status output message duration) =
      let (t, r) = complete_execution executions marshal s now id status output message duration in
      (t, is_ok r)
  call_on s (cancel now id user_id) =
      let (t, r) = cancel_execution executions s now id user_id in (t, is_ok r)

  -- The store after the calls, and each call with whether it succeeded.
  unfoldable pub run : executions.Store → List Call → executions.Store × List (Call × Bool)
  unfolding call_on
  run s [] = (s, [])
  run s (call ∷ calls) =
      let (t, succeeded) = call_on s call in
      let (u, trace) = run t calls in (u, (call, succeeded) ∷ trace)

  with_completion-id :
      (now : ℤ) (status : ExecutionStatus) (output : Option GoMap) (message : Option Str)
      (duration : ℤ) (e : AgentExecution)
      → (with_completion marshal now status output message duration e).id ≡ e.id
  unfolding with_completion with_output
  with_completion-id now status none message duration e = refl
  with_completion-id now status (some output) message duration e = refl

  with_completion-status :
      (now : ℤ) (status : ExecutionStatus) (output : Option GoMap) (message : Option Str)
      (duration : ℤ) (e : AgentExecution)
      → (with_completion marshal now status output message duration e).status ≡ status
  unfolding with_completion
  with_completion-status now status output message duration e = refl

  module _ (keyed : (e : AgentExecution) → executions.key e ≡ e.id) where
    pub start-refines :
        (s : executions.Store) (k : ℕ) (now : ℤ) (id : ℕ) (req : StartExecutionRequest)
        (user_id : ℕ)
        → let (t, r) = start_execution executions marshal s now id req user_id in
          status_of k (executions.rows t)
          ≡ next_status k (start now id req user_id) (is_ok r) (status_of k (executions.rows s))
    unfolding start_execution next_status new_execution
    start-refines s k now id req user_id = elim (Result-cases (marshal req.input_data)) [
      | inl (input, m) ↦
          let e = new_execution marshal now id req user_id input in
          elim (Option-cases (executions.insert s e).1) [
            | inl done ↦
                let rows : executions.rows (executions.insert s e).0
                    ≡ executions.rows s ++ (e ∷ []) =
                  executions.insert-done s e done in
                let there : Among e (executions.rows (executions.insert s e).0) =
                  rw (rows) (Among-append_last e (executions.rows s)) in
                rw (m, start_execution, done)
                  (elim (Bool-cases (id == k)) [
                    | inl same ↦
                        rw (same, sym ((==_iff id k).0 same))
                          (status_of-Among e (executions.rows (executions.insert s e).0) there
                            (only executions keyed (executions.insert s e).0 e there))
                    | inr other ↦ rw (other, rows) (status_of-append e k (executions.rows s) other)
                  ])
            | inr (x, failure) ↦
                rw (m, start_execution, failure)
                  (ap (status_of k) (executions.insert-failed s e x failure))
          ]
      | inr (inl (x, m)) ↦ rw (m, start_execution) refl
      | inr (inr m) ↦ rw (m, start_execution) refl
    ]

    pub complete-refines :
        (s : executions.Store) (k : ℕ) (now : ℤ) (id : ℕ) (status : ExecutionStatus)
        (output : Option GoMap) (message : Option Str) (duration : ℤ)
        → let (t, r) =
            complete_execution executions marshal s now id status output message duration in
          status_of k (executions.rows t)
          ≡ next_status k
              (complete now id status output message duration)
              (is_ok r)
              (status_of k (executions.rows s))
    unfolding complete_execution next_status
    complete-refines s k now id status output message duration =
        let p = λ (e : AgentExecution). e.id == id in
        let f = with_completion marshal now status output message duration in
        let keeps = with_completion-id now status output message duration in
        elim (Option-cases (missing_column output)) [
          | inr (column, refused) ↦ rw (refused, complete_execution) refl
          | inl served ↦ elim (Result-cases (executions.update s p f).1) [
            | inl (n, done) ↦
                let rows = (executions.update-done s p f n done).0 in
                elim (Bool-cases (id == k)) [
                  | inl same ↦
                      rw (served, complete_execution, done, rows, same, sym ((==_iff id k).0 same))
                        (status_of-update_same f id status (executions.rows s) keeps
                          (with_completion-status now status output message duration))
                  | inr other ↦
                      rw (served, complete_execution, done, rows, other)
                        (status_of-update_other p f k (executions.rows s) keeps
                          (λ e h. apart id k e.id other h))
                ]
            | inr (inl (x, failure)) ↦
                rw (served, complete_execution, failure)
                  (ap (status_of k) (executions.update-failed s p f x failure))
            | inr (inr died) ↦
                rw (served, complete_execution, died)
                  (ap (status_of k) (executions.update-panic s p f died))
          ]
        ]
