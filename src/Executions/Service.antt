-- ===== src/Executions/Service.antt =====
-- The operations of services/impl/execution_service_impl.go. The table of the executions is a
-- parameter, and so is JSON; `now` is the clock and `new_id` the id that the database makes.
use tas_agent_builder.Base.{
  ℕ, zero, suc, ◌==◌, if◌then◌else◌, ◌&&◌, ◌||◌, not, Bool, true, false, Str, codes, str_eq, List,
  [], ◌++◌, Option, none, some, take, drop, pos_part, ℤ, pos, ◌-ℤ◌, ◌*ℤ◌, ltb_ℤ, leb_ℤ, Result, ok,
  err, panic, ◌>>=◌, error_result,
}
use tas_agent_builder.External.Database.{Table, first, count}
use tas_agent_builder.Floats.{Float}
use tas_agent_builder.Hybrid.Score.{sort_slice, lookup}
use tas_agent_builder.Json.{Fields}
use tas_agent_builder.Models.Services.{Message}
use tas_agent_builder.Models.Execution.{
  ExecutionStatus, queued, running, completed, failed, timeout, cancelled, other_status,
  AgentExecution, ExecutionListFilter, ExecutionListResponse,
}
use tas_agent_builder.Agents.Listing.{matches}

-- A value of a `map[string]any`, by its dynamic type.
pub data GoValue : Type 0 where
  whole : ℤ → GoValue
  real : Float → GoValue
  words : Str → GoValue
  structured : Fields → GoValue
  conversation : List Message → GoValue

abbrev pub GoMap : Type 0
GoMap = List (Str × GoValue)

pub record StartExecutionRequest : Type 0 where
  pub agent_id : ℕ
  pub session_id : Option Str
  pub input_data : GoMap

-- `m[key].(int)`, `m[key].(float64)` and `m[key].(string)` in the form `x, ok := …`.
unfoldable pub whole_at : Str → GoMap → Option ℤ
unfolding lookup
whole_at key m = elim (lookup key m) [ some (whole n) ↦ some n | _ ↦ none ]

unfoldable pub real_at : Str → GoMap → Option Float
unfolding lookup
real_at key m = elim (lookup key m) [ some (real x) ↦ some x | _ ↦ none ]

unfoldable pub words_at : Str → GoMap → Option Str
unfolding lookup
words_at key m = elim (lookup key m) [ some (words s) ↦ some s | _ ↦ none ]

-- `updates[column] = x` where there is an x.
abbrev pub replace {ℓ} : {A : Type ℓ} → Option A → Option A → Option A
replace none old = old
replace (some a) old = some a

-- `updates["router_provider"]`, `updates["router_model"]` and `updates["routing_strategy"]` are set
-- for an output with these texts, but `AgentExecution` and its table `ab_agent_executions` have no
-- such columns. The first of them in the statement, whose columns gorm puts in order.
unfoldable pub missing_column : Option GoMap → Option Str
unfolding words_at
missing_column none = none
missing_column (some output) = elim (words_at (codes "model") output) [
  | some model ↦ some (codes "router_model")
  | none ↦ elim (words_at (codes "provider") output) [
    | some provider ↦ some (codes "router_provider")
    | none ↦ elim (words_at (codes "routing_strategy") output) [
      | some strategy ↦ some (codes "routing_strategy")
      | none ↦ none
    ]
  ]
]

-- What PostgreSQL answers to a statement that names a column that the table does not have.
unfoldable pub undefined_column : Str → Str
undefined_column column =
    codes "ERROR: column \""
    ++ (column ++ codes "\" of relation \"ab_agent_executions\" does not exist (SQLSTATE 42703)")

module _ (marshal : GoMap → Result Str) where
  unfoldable pub new_execution : ℤ → ℕ → StartExecutionRequest → ℕ → Str → AgentExecution
  new_execution now new_id req user_id input = record {
    id = new_id;
    agent_id = req.agent_id;
    user_id = user_id;
    session_id = req.session_id;
    input_data = input;
    output_data = none;
    status = queued;
    router_response = none;
    execution_steps = [];
    token_usage = none;
    cost_usd = none;
    total_duration_ms = none;
    retry_attempts = pos 0;
    fallback_used = false;
    failed_providers = codes "[]";
    total_retry_time_ms = pos 0;
    provider_latency_ms = none;
    routing_reason = codes "[]";
    actual_cost_usd = none;
    estimated_cost_usd = none;
    error_message = none;
    error_details = none;
    started_at = none;
    completed_at = none;
    created_at = now;
    updated_at = now;
    deleted_at = none;
  }

  unfoldable pub marshalled : GoMap → Option Str
  marshalled output = elim (marshal output) [ ok s ↦ some s | err e ↦ none | panic ↦ none ]

  -- The columns that the table has; see `missing_column` for the others.
  unfoldable pub with_output : Option GoMap → AgentExecution → AgentExecution
  unfolding marshalled whole_at real_at
  with_output none e = e
  with_output (some output) e = record e {
    output_data = replace (marshalled output) e.output_data;
    token_usage = replace (whole_at (codes "tokens_used") output) e.token_usage;
    cost_usd = replace (real_at (codes "cost_usd") output) e.cost_usd;
  }

  unfoldable pub with_completion :
      ℤ → ExecutionStatus → Option GoMap → Option Str → ℤ → AgentExecution → AgentExecution
  unfolding with_output
  with_completion now status output error_message duration_ms e =
      let old = with_output output e in
      record old {
        status = status;
        total_duration_ms = some duration_ms;
        completed_at = some now;
        updated_at = now;
        error_message = replace error_message e.error_message;
      }

unfoldable pub with_cancellation : ℤ → AgentExecution → AgentExecution
with_cancellation now e = record e { status = cancelled; completed_at = some now; updated_at = now }

-- `status IN ("queued", "running")`
unfoldable pub is_live : ExecutionStatus → Bool
is_live queued = true
is_live running = true
is_live _ = false

unfoldable pub status_eq : ExecutionStatus → ExecutionStatus → Bool
status_eq queued queued = true
status_eq running running = true
status_eq completed completed = true
status_eq failed failed = true
status_eq timeout timeout = true
status_eq cancelled cancelled = true
status_eq (other_status s) (other_status t) = str_eq s t
status_eq _ _ = false

unfoldable pub is_cancellable : ℕ → ℕ → AgentExecution → Bool
unfolding is_live
is_cancellable id user_id e = (e.id == id) && ((e.user_id == user_id) && is_live e.status)

unfoldable pub record_not_found : Str
record_not_found = codes "record not found"

unfoldable pub matches_filter : ExecutionListFilter → ℕ → AgentExecution → Bool
unfolding status_eq
matches_filter filter user_id e =
    (e.user_id == user_id)
    && (matches filter.agent_id (λ id. e.agent_id == id)
        && (matches filter.session_id
              (λ s. elim e.session_id [ none ↦ false | some t ↦ str_eq t s ])
            && (matches filter.status (status_eq e.status)
                && (matches filter.start_date (λ d. leb_ℤ d e.created_at)
                    && (matches filter.end_date (λ d. leb_ℤ e.created_at d)
                        && (matches filter.with_retries
                              (λ b. not b || ltb_ℤ (pos 0) e.retry_attempts)
                            && matches filter.with_fallback (λ b. not b || e.fallback_used)))))))

-- `OFFSET … LIMIT …`; a negative limit is none.
unfoldable pub limited {ℓ} : {A : Type ℓ} → ℤ → ℤ → List A → List A
limited offset limit rows =
    let rest = drop (pos_part offset) rows in
    if ltb_ℤ limit (pos 0) then rest else take (pos_part limit) rest

-- `created_at DESC`
unfoldable pub latest_first : List AgentExecution → List AgentExecution
unfolding sort_slice
latest_first = sort_slice (λ a b. ltb_ℤ b.created_at a.created_at)

module _ (executions : Table AgentExecution) where
  unfoldable pub start_execution :
      (GoMap → Result Str)
      → executions.Store
      → ℤ
      → ℕ
      → StartExecutionRequest
      → ℕ
      → executions.Store × Result AgentExecution
  unfolding new_execution
  start_execution marshal s now new_id req user_id = elim (marshal req.input_data) [
    | ok input ↦
        let e = new_execution marshal now new_id req user_id input in
        let (t, failure) = executions.insert s e in (t, error_result e failure)
    | err x ↦ (s, err x)
    | panic ↦ (s, panic)
  ]

  unfoldable pub complete_execution :
      (GoMap → Result Str)
      → executions.Store
      → ℤ
      → ℕ
      → ExecutionStatus
      → Option GoMap
      → Option Str
      → ℤ
      → executions.Store × Result ℕ
  unfolding missing_column with_completion undefined_column
  complete_execution marshal s now id status output error_message duration_ms =
      elim (missing_column output) [
        | some column ↦ (s, err (undefined_column column))
        | none ↦
            executions.update s (λ e. e.id == id)
              (with_completion marshal now status output error_message duration_ms)
      ]

  -- The number of rows is what is not 0 on success.
  unfoldable pub cancel_execution : executions.Store → ℤ → ℕ → ℕ → executions.Store × Result ℕ
  unfolding is_cancellable with_cancellation record_not_found
  cancel_execution s now id user_id =
      let (t, changed) = executions.update s (is_cancellable id user_id) (with_cancellation now) in
      (
        t,
        elim changed [
          | ok zero ↦ err record_not_found
          | ok (suc n) ↦ ok (suc n)
          | err e ↦ err e
          | panic ↦ panic
        ],
      )

  module _ (s : executions.Store) where
    unfoldable pub get_execution : ℕ → ℕ → Result AgentExecution
    unfolding first record_not_found
    get_execution id user_id =
        elim (first executions s (λ e. (e.id == id) && (e.user_id == user_id))) [
          | ok none ↦ err record_not_found
          | ok (some e) ↦ ok e
          | err e ↦ err e
          | panic ↦ panic
        ]

    unfoldable pub list_executions : ExecutionListFilter → ℕ → Result ExecutionListResponse
    unfolding count matches_filter latest_first limited
    list_executions filter user_id = count executions s (matches_filter filter user_id) >>= λ total.
        executions.select s (matches_filter filter user_id) >>= λ rows. ok (record {
          executions =
              limited ((filter.page -ℤ pos 1) *ℤ filter.size) filter.size (latest_first rows);
          total = pos total;
          page = filter.page;
          size = filter.size;
        })

    unfoldable pub get_executions_by_agent : ℕ → ℕ → ℤ → Result (List AgentExecution)
    unfolding latest_first limited
    get_executions_by_agent agent_id user_id limit =
        executions.select s (λ e. (e.agent_id == agent_id) && (e.user_id == user_id)) >>= λ rows.
        ok (limited (pos 0) limit (latest_first rows))

    unfoldable pub get_executions_by_session : Str → ℕ → Result (List AgentExecution)
    unfolding sort_slice
    get_executions_by_session session_id user_id =
        executions.select s (λ e.
          elim e.session_id [ none ↦ false | some t ↦ str_eq t session_id ]
          && (e.user_id == user_id))
        >>= λ rows. ok (sort_slice (λ a b. ltb_ℤ a.created_at b.created_at) rows)
