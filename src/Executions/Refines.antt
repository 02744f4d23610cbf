-- ===== src/Executions/Refines.antt =====
-- The calls of services/impl/execution_service_impl.go as a state machine on one execution.
use tas_agent_builder.Base.{ℕ, ◌≡◌, refl, ◌∙◌, ap, Str, List, [], ◌∷◌, Result}
use tas_agent_builder.External.Database.{Table}
use tas_agent_builder.Models.Execution.{AgentExecution}
use tas_agent_builder.Executions.Service.{GoMap}
use tas_agent_builder.Executions.Status.{status_of}
use tas_agent_builder.Executions.Lifecycle.{
  Call, start, complete, cancel, next_status, replay, call_on, run, start-refines, complete-refines,
}
use tas_agent_builder.Executions.Cancel.{cancel-refines}

module _ (executions : Table AgentExecution) (marshal : GoMap → Result Str)
    (keyed : (e : AgentExecution) → executions.key e ≡ e.id) where
  call_on-refines :
      (s : executions.Store) (k : ℕ) (call : Call)
      → status_of k (executions.rows (call_on executions marshal s call).0)
        ≡ next_status k call (call_on executions marshal s call).1 (status_of k (executions.rows s))
  unfolding call_on
  call_on-refines s k (start now id req user_id) =
      start-refines executions marshal keyed s k now id req user_id
  call_on-refines s k (complete now id status output message duration) =
      complete-refines executions marshal keyed s k now id status output message duration
  call_on-refines s k (cancel now id user_id) = cancel-refines executions s keyed k now id user_id

  -- Through any calls that start, complete and cancel executions, with or without errors, the
  -- status of an execution is that of the state machine: a call that fails changes nothing, a start
  -- queues, a cancellation cancels, and a completion sets its status, whatever it was before.
  pub run-refines :
      (calls : List Call) (s : executions.Store) (k : ℕ)
      → status_of k (executions.rows (run executions marshal s calls).0)
        ≡ replay k (run executions marshal s calls).1 (status_of k (executions.rows s))
  unfolding run replay
  run-refines [] s k = refl
  run-refines (call ∷ calls) s k =
      let (t, succeeded) = call_on executions marshal s call in
      run-refines calls t k
      ∙ ap (replay k (run executions marshal t calls).1) (call_on-refines s k call)
