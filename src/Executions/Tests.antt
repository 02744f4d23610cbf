-- ===== src/Executions/Tests.antt =====
-- Instances of the theorems about services/impl/execution_service_impl.go.
use tas_agent_builder.Base.{
  ℕ, ◌≡◌, ◌↔◌, refl, true, Str, List, [], ◌∷◌, none, some, ℤ, pos, Result, ok,
}
use tas_agent_builder.External.Database.{Table}
use tas_agent_builder.External.Tables.{sample_table}
use tas_agent_builder.Models.Execution.{AgentExecution, completed}
use tas_agent_builder.Executions.Service.{
  GoMap, StartExecutionRequest, new_execution, cancel_execution,
}
use tas_agent_builder.Executions.Status.{status_of}
use tas_agent_builder.Executions.Lifecycle.{Call, start, complete, cancel, replay, run, is_ok}
use tas_agent_builder.Executions.Cancel.{CanCancel, cancel_execution_iff}
use tas_agent_builder.Executions.Refines.{run-refines}

abbrev executions : Table AgentExecution
executions = sample_table (λ (e : AgentExecution). e.id)

abbrev marshal : GoMap → Result Str
marshal m = ok []

abbrev request : StartExecutionRequest
request = record { agent_id = 1; session_id = none; input_data = [] }

abbrev empty : executions.Store
empty = ([], refl)

abbrev one : executions.Store
one = (new_execution marshal (pos 1) 7 request 3 [] ∷ [], refl)

-- The completion comes after the cancellation, and wins.
abbrev calls : List Call
calls =
    start (pos 1) 7 request 3
    ∷ cancel (pos 2) 7 3
    ∷ complete (pos 3) 7 completed none none (pos 5)
    ∷ []

run-refines_example :
    status_of 7 (executions.rows (run executions marshal empty calls).0)
    ≡ replay 7 (run executions marshal empty calls).1 (status_of 7 (executions.rows empty))
run-refines_example = run-refines executions marshal (λ e. refl) calls empty 7

completion_wins :
    status_of 7 (executions.rows (run executions marshal empty calls).0) ≡ some completed
unfolding run status_of tas_agent_builder.Base.update_where
completion_wins = refl

cancel_execution_iff_example :
    (is_ok (cancel_execution executions one (pos 2) 7 3).1 ≡ true)
    ↔ ((e : AgentExecution) × CanCancel 7 3 (executions.rows one) e)
unfolding cancel_execution new_execution tas_agent_builder.Base.update_where
    tas_agent_builder.Base.filter
cancel_execution_iff_example = cancel_execution_iff executions one (pos 2) 7 3 1 refl
