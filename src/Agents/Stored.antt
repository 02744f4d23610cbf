-- ===== src/Agents/Stored.antt =====
-- What services/impl/agent_service_impl.go leaves in the database.
use Prim.Native.String.{String}
use tas_agent_builder.Base.{
  ℕ, zero, suc, ◌==◌, ◌≡◌, refl, ap, not, Bool, true, false, inl, inr, Str, List, Option-cases, ℤ,
  Result-cases, ok, All, Among, Among-append_last,
}
use tas_agent_builder.External.Database.{Table, count}
use tas_agent_builder.Models.Agent.{Agent, CreateAgentRequest}
use tas_agent_builder.Models.Execution.{AgentExecution}
use tas_agent_builder.Agents.Service.{create, create_agent, get_agent, delete_agent}
use tas_agent_builder.Agents.Requests.{Outside, draft, with_defaults, agent_of_request}
use tas_agent_builder.Agents.Access.{get_agent_iff}
use tas_agent_builder.Agents.Listed.{All-filter}

module _ (agents : Table Agent) where
  created :
      (s : agents.Store) (what : String) (agent a : Agent)
      → (create agents s what agent).1 ≡ ok a
      → (a ≡ with_defaults agent) × Among a (agents.rows (create agents s what agent).0)
  unfolding create
  created s what agent a h = elim (Option-cases (agents.insert s (with_defaults agent)).1) [
    | inl done ↦
        let e : a ≡ with_defaults agent = cc (rw done at h) in
        (
          e,
          rw (e, agents.insert-done s (with_defaults agent) done)
              (Among-append_last (with_defaults agent) (agents.rows s)),
        )
    | inr (x, failed) ↦ cc (rw failed at h)
  ]

  -- When the database answers, an agent that `CreateAgent` returned is what its owner gets by its
  -- id. It is a draft, and always has knowledge and memory enabled.
  pub create_agent-get :
      (out : Outside) (s : agents.Store) (now : ℤ) (new_id : ℕ) (req : CreateAgentRequest)
      (owner_id tenant_id : Str) (a : Agent)
      → ((b : Agent) → agents.key b ≡ b.id)
      → ((t : agents.Store) (p : Agent → Bool)
          → (found : List Agent) × (agents.select t p ≡ ok found))
      → (create_agent agents out s now new_id req owner_id tenant_id).1 ≡ ok a
      → (get_agent agents
            (create_agent agents out s now new_id req owner_id tenant_id).0
            new_id
            owner_id
          ≡ ok a)
        × (a.status ≡ draft)
        × (a.enable_knowledge ≡ true)
        × (a.enable_memory ≡ true)
  unfolding create_agent agent_of_request with_defaults
  create_agent-get out s now new_id req owner_id tenant_id a keyed answers h =
      let agent = agent_of_request out now new_id req owner_id tenant_id in
      let (e, there) = created s "failed to create agent" agent a h in
      let t = (create agents s "failed to create agent" agent).0 in
      (
        (get_agent_iff agents t keyed (answers t) new_id owner_id a).1
            (there, ap (λ b. b.id) e, inl (ap (λ b. b.owner_id) e)),
        ap (λ b. b.status) e,
        ap (λ b. b.enable_knowledge) e,
        ap (λ b. b.enable_memory) e,
      )

  not-true : (b : Bool) → not b ≡ true → b ≡ false
  not-true true h = cc
  not-true false h = refl

  -- Once `DeleteAgent` reports success, for whatever owner it was called, no agent has the id and
  -- no execution is one of that agent.
  pub delete_agent-gone :
      (executions : Table AgentExecution) (s : agents.Store) (x : executions.Store) (id : ℕ)
      (owner_id : Str)
      → (delete_agent agents executions s x id owner_id).1.1 ≡ ok tt
      → All
          (λ a. (a.id == id) ≡ false)
          (agents.rows (delete_agent agents executions s x id owner_id).0)
        × All
            (λ e. (e.agent_id == id) ≡ false)
            (executions.rows (delete_agent agents executions s x id owner_id).1.0)
  unfolding delete_agent
  delete_agent-gone executions s x id owner_id h =
      elim (Result-cases (count agents s (λ a. a.id == id))) [
        | inl (zero, e) ↦ cc (rw (e, delete_agent) at h)
        | inl (suc n, e) ↦ elim (Result-cases (executions.delete x (λ e. e.agent_id == id)).1) [
          | inl (m, gone) ↦ elim (Result-cases (agents.delete s (λ a. a.id == id)).1) [
            | inl (k, deleted) ↦
                rw
                  (
                    e,
                    delete_agent,
                    gone,
                    (agents.delete-done s _ k deleted).0,
                    (executions.delete-done x _ m gone).0,
                  )
                  (
                    All-filter _ _ (agents.rows s) (λ a. not-true (a.id == id)),
                    All-filter _ _ (executions.rows x) (λ r. not-true (r.agent_id == id)),
                  )
            | inr (inl (y, failed)) ↦ cc (rw (e, gone, failed, delete_agent) at h)
            | inr (inr died) ↦ cc (rw (e, gone, died, delete_agent) at h)
          ]
          | inr (inl (y, failed)) ↦ cc (rw (e, failed, delete_agent) at h)
          | inr (inr died) ↦ cc (rw (e, died, delete_agent) at h)
        ]
        | inr (inl (y, e)) ↦ cc (rw (e, delete_agent) at h)
        | inr (inr e) ↦ cc (rw (e, delete_agent) at h)
      ]
