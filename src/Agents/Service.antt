-- ===== src/Agents/Service.antt =====
-- The operations of services/impl/agent_service_impl.go on single agents. The table of the agents
-- is a parameter; `now` is the clock and `new_id` the id that the code makes.
use Prim.Native.String.{String}
use tas_agent_builder.Base.{
  ℕ, zero, suc, ◌==◌, ◌&&◌, ◌||◌, Bool, true, false, Str, codes, str_eq, Option, none, some, ℤ, pos,
  Result, ok, err, panic, or_wrap,
}
use tas_agent_builder.External.Database.{Table, first, count}
use tas_agent_builder.Floats.{FloatOps}
use tas_agent_builder.Models.Agent.{Agent, CreateAgentRequest, UpdateAgentRequest}
use tas_agent_builder.Models.Execution.{AgentExecution}
use tas_agent_builder.Agents.Requests.{
  Outside, draft, published, with_defaults, agent_of_request, with_updates,
}

-- `owner_id = ? OR is_public = true OR is_internal = true`
unfoldable pub is_visible : Str → Agent → Bool
is_visible user_id a = str_eq a.owner_id user_id || a.is_public || a.is_internal

unfoldable pub is_owned : ℕ → Str → Agent → Bool
is_owned id owner_id a = (a.id == id) && str_eq a.owner_id owner_id

-- `if errors.Is(err, gorm.ErrRecordNotFound) { … }`: the agent, or one of two messages.
unfoldable pub found_or : String → String → Result (Option Agent) → Result Agent
found_or missing what (ok none) = err (codes missing)
found_or missing what (ok (some a)) = ok a
found_or missing what (err e) = or_wrap what (err e)
found_or missing what panic = panic

-- A statement that must take a row.
unfoldable pub affected_or : {A : Type 0} → String → String → A → Result ℕ → Result A
affected_or missing what a (ok zero) = err (codes missing)
affected_or missing what a (ok (suc n)) = ok a
affected_or missing what a (err e) = or_wrap what (err e)
affected_or missing what a panic = panic

module _ (agents : Table Agent) where
  unfoldable pub get_agent : agents.Store → ℕ → Str → Result Agent
  unfolding found_or is_visible first
  get_agent s id user_id =
      found_or "agent not found or access denied" "failed to get agent"
        (first agents s (λ a. (a.id == id) && is_visible user_id a))

  unfoldable pub get_agent_by_owner : agents.Store → ℕ → Str → Result Agent
  unfolding found_or is_owned first
  get_agent_by_owner s id owner_id =
      found_or "agent not found" "failed to get agent" (first agents s (is_owned id owner_id))

  unfoldable pub get_internal_agent : agents.Store → ℕ → Result Agent
  unfolding found_or first
  get_internal_agent s id = found_or "internal agent not found" "failed to get internal agent" (
      first agents s
        (λ a. (a.id == id) && a.is_internal && elim a.deleted_at [ none ↦ true | some t ↦ false ]))

  unfoldable pub create : agents.Store → String → Agent → agents.Store × Result Agent
  unfolding with_defaults
  create s what agent =
      let saved = with_defaults agent in
      let (t, failure) = agents.insert s saved in
      (t, elim failure [ none ↦ ok saved | some e ↦ or_wrap what (err e) ])

  unfoldable pub create_agent :
      Outside → agents.Store → ℤ → ℕ → CreateAgentRequest → Str → Str → agents.Store × Result Agent
  unfolding create agent_of_request
  create_agent out s now new_id req owner_id tenant_id =
      create s "failed to create agent" (agent_of_request out now new_id req owner_id tenant_id)

  -- `First(&agent, id)`
  unfoldable pub reload : agents.Store → ℕ → Result Agent
  unfolding found_or first
  reload s id =
      found_or "failed to reload agent: record not found" "failed to reload agent"
        (first agents s (λ a. a.id == id))

  unfoldable pub update_found :
      Outside → agents.Store → ℤ → UpdateAgentRequest → Result Agent → agents.Store × Result Agent
  unfolding with_updates reload
  update_found out s now req (ok agent) =
      let (t, changed) = agents.update s (λ a. a.id == agent.id) (with_updates out now req) in
      (
        t,
        elim changed [
          | ok n ↦ reload t agent.id
          | err e ↦ or_wrap "failed to update agent" (err e)
          | panic ↦ panic
        ],
      )
  update_found out s now req (err e) = (s, err e)
  update_found out s now req panic = (s, panic)

  unfoldable pub update_agent :
      Outside → agents.Store → ℤ → ℕ → UpdateAgentRequest → Str → agents.Store × Result Agent
  unfolding found_or is_visible first update_found
  update_agent out s now id req owner_id = update_found out s now req (
      found_or "agent not found" "failed to find agent"
        (first agents s (λ a. (a.id == id) && is_visible owner_id a)))

  unfoldable pub set_status :
      agents.Store → String → Str → ℤ → ℕ → Str → agents.Store × Result {0} Unit
  unfolding is_owned affected_or
  set_status s what status now id owner_id =
      let (t, changed) =
        agents.update s (is_owned id owner_id)
          (λ a. record a { status = status; updated_at = now }) in
      (t, affected_or "agent not found or access denied" what tt changed)

  unfoldable pub publish_agent : agents.Store → ℤ → ℕ → Str → agents.Store × Result {0} Unit
  unfolding set_status
  publish_agent s = set_status s "failed to publish agent" published

  unfoldable pub unpublish_agent : agents.Store → ℤ → ℕ → Str → agents.Store × Result {0} Unit
  unfolding set_status
  unpublish_agent s = set_status s "failed to unpublish agent" draft

  unfoldable pub copy_of : FloatOps → ℤ → ℕ → Str → Str → Str → Agent → Agent
  copy_of f now new_id new_name user_id tenant_id source = record source {
    id = new_id;
    name = new_name;
    owner_id = user_id;
    tenant_id = tenant_id;
    status = draft;
    is_public = false;
    is_template = false;
    total_executions = pos 0;
    total_cost_usd = f.ratio 0 1;
    avg_response_time_ms = pos 0;
    last_executed_at = none;
    created_at = now;
    updated_at = now;
    deleted_at = none;
  }

  unfoldable pub duplicate_found :
      FloatOps → agents.Store → ℤ → ℕ → Str → Str → Str → Result Agent → agents.Store × Result Agent
  unfolding create copy_of
  duplicate_found f s now new_id new_name user_id tenant_id (ok source) =
      create s "failed to duplicate agent" (copy_of f now new_id new_name user_id tenant_id source)
  duplicate_found f s now new_id new_name user_id tenant_id (err e) = (s, err e)
  duplicate_found f s now new_id new_name user_id tenant_id panic = (s, panic)

  unfoldable pub duplicate_agent :
      FloatOps → agents.Store → ℤ → ℕ → ℕ → Str → Str → Str → agents.Store × Result Agent
  unfolding found_or first duplicate_found
  duplicate_agent f s now new_id source_id new_name user_id tenant_id =
      duplicate_found f s now new_id new_name user_id tenant_id (
        found_or "source agent not found or access denied" "failed to get source agent" (
          first agents s (λ a.
            (a.id == source_id) && (str_eq a.owner_id user_id || a.is_public || a.is_template))))

  -- The executions go first; nothing undoes that when the agent cannot be deleted. The owner is
  -- an argument that the code does not read.
  unfoldable pub delete_agent :
      (executions : Table AgentExecution)
      → agents.Store
      → executions.Store
      → ℕ
      → Str
      → agents.Store × (executions.Store × Result {0} Unit)
  unfolding count affected_or
  delete_agent executions s x id owner_id =
      let (y, gone) = executions.delete x (λ e. e.agent_id == id) in
      let (t, deleted) = agents.delete s (λ a. a.id == id) in
      elim (count agents s (λ a. a.id == id)) [
        | ok (suc n) ↦ elim gone [
          | ok m ↦
              (t, (y, affected_or "failed to delete agent" "failed to delete agent" tt deleted))
          | err e ↦ (s, (y, or_wrap "failed to delete agent executions" (err e)))
          | panic ↦ (s, (y, panic))
        ]
        | ok zero ↦ (s, (x, err (codes "agent not found")))
        | err e ↦ (s, (x, err (codes "agent not found")))
        | panic ↦ (s, (x, panic))
      ]
