-- ===== src/Handlers/Endings.antt =====
-- How an execution of handlers/agent_handlers.go can end, and the steps that keep to it.
use tas_agent_builder.Base.{
  ℕ, ◌≡◌, refl, ◌⊎◌, inl, inr, Str, codes, List, Option, none, some, Result, ok, err, panic,
}
use tas_agent_builder.External.Database.{Table}
use tas_agent_builder.Floats.{FloatOps}
use tas_agent_builder.Models.Execution.{queued, failed, AgentExecution}
use tas_agent_builder.Models.Services.{Message, RouterResponse}
use tas_agent_builder.Executions.Status.{status_of}
use tas_agent_builder.Handlers.Http.{Reply, go, refuse, crash, serve, RouterService, ◌>>=◌}
use tas_agent_builder.Handlers.Messages.{
  MemoryService, ExecutionReply, Asked, logged, store_interaction, store_answer, memory_request,
  answer_metadata,
}

-- The router answered a request with the settings of the agent that was asked, and the reply holds
-- what it said.
pub record Answers (router : RouterService) (checked : Reply Asked) (out : ExecutionReply)
    : Type 0 where
  pub a : Asked
  pub asked : checked ≡ go a
  pub messages : List Message
  pub user_uuid : ℕ
  pub response : RouterResponse
  pub sent : router.send_request a.agent.llm_config messages user_uuid ≡ ok response
  pub same_output : out.output ≡ response.content
  pub same_tokens : out.tokens_used ≡ response.token_usage

module _ (executions : Table AgentExecution) (router : RouterService) (checked : Reply Asked)
    (id : ℕ) (x : executions.Store) where
  -- How the execution `id` ends: with a reply it is still queued; with a refusal nothing was stored,
  -- or it is failed.
  unfoldable pub Ended : {M : Type 0} → (executions.Store × M) × Reply (ℕ × ExecutionReply) → Type 0
  unfolding status_of
  Ended (s, go (code, out)) =
      (code ≡ 200)
      × ((status_of id (executions.rows s.0) ≡ some queued)
          × ((out.execution_id ≡ id) × Answers router checked out))
  Ended (s, refuse code message details) =
      (s.0 ≡ x) ⊎ ((code ≡ 500) × (status_of id (executions.rows s.0) ≡ some failed))
  Ended (s, crash) = Unit

  pub serve-Ended :
      {A M : Type 0} (m : M) (r : Reply A)
      (next : A → (executions.Store × M) × Reply (ℕ × ExecutionReply))
      → ((a : A) → r ≡ go a → Ended (next a))
      → Ended (serve (x, m) r next)
  unfolding Ended
  serve-Ended m (go a) next h = h a refl
  serve-Ended m (refuse n e d) next h = inl refl
  serve-Ended m crash next h = tt

  pub served-Ended :
      {M : Type 0} (s : executions.Store × M) (done : Reply {0} Unit)
      (next : Unit → (executions.Store × M) × Reply (ℕ × ExecutionReply))
      → done ≡ go tt
      → Ended (next tt)
      → Ended (serve s done next)
  served-Ended s done next e h = rw (e) h

  -- A reply whose last step is done, or has crashed.
  pub replied-Ended :
      {M : Type 0} (s : executions.Store × M) (stored : Reply {0} Unit) (out : ExecutionReply)
      → (stored ≡ go tt) ⊎ (stored ≡ crash)
      → Ended (s, go (200, out))
      → Ended (s, stored >>= λ u. go (200, out))
  unfolding Ended
  replied-Ended s stored out (inl e) h = rw (e) h
  replied-Ended s stored out (inr e) h = rw (e) tt

abbrev pub finished {ℓ} : {A : Type ℓ} → Reply A → Reply {0} Unit
finished r = r >>= λ u. go tt

pub logged-quiet :
    {A : Type 0} (r : Result A) → (finished (logged r) ≡ go tt) ⊎ (finished (logged r) ≡ crash)
logged-quiet (ok a) = inl refl
logged-quiet (err e) = inl refl
logged-quiet panic = inr refl

pub serve-quiet :
    {M A : Type 0} (m : M) (r : Result A) (next : Option A → M × Reply {0} Unit)
    → ((o : Option A) → ((next o).1 ≡ go tt) ⊎ ((next o).1 ≡ crash))
    → ((serve m (logged r) next).1 ≡ go tt) ⊎ ((serve m (logged r) next).1 ≡ crash)
serve-quiet m (ok a) next h = h (some a)
serve-quiet m (err e) next h = h none
serve-quiet m panic next h = inr refl

pub store_interaction-quiet :
    (memory : MemoryService) (f : FloatOps) (m : memory.State) (session : Option Str) (a : Asked)
    (r : RouterResponse)
    → ((store_interaction memory f m session a r).1 ≡ go tt)
      ⊎ ((store_interaction memory f m session a r).1 ≡ crash)
unfolding store_interaction store_answer
store_interaction-quiet memory f m none a r = inl refl
store_interaction-quiet memory f m (some session_id) a r =
    let (m', asked) =
      memory.add_memory m (memory_request memory session_id a (codes "user") a.req.input none) in
    serve-quiet m' asked (λ o. store_answer memory f session_id a r m')
      (λ o.
        logged-quiet
          (memory.add_memory m' (
            memory_request memory session_id a (codes "assistant") r.content
              (some (answer_metadata memory f r)))).1)
