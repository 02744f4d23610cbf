-- ===== src/Handlers/Pages.antt =====
-- The list of agents that handlers/agent_handlers.go replies with, through the agent service.
use Prim.Native.String.{String}
use tas_agent_builder.Base.{◌≡◌, Str}
use tas_agent_builder.External.Database.{Table}
use tas_agent_builder.Models.Agent.{Agent, AgentListFilter, AgentListResponse}
use tas_agent_builder.Agents.Requests.{Outside}
use tas_agent_builder.Agents.Listing
use tas_agent_builder.Agents.Listed
use tas_agent_builder.Agents.Listed.{listed, IsListed}
use tas_agent_builder.Handlers.Http.{Claim, claimed}
use tas_agent_builder.Handlers.Asked.{IsAsked}
use tas_agent_builder.Handlers.Query.{ListQuery, Readers}

module _ (agents : Table Agent) (out : Outside) (s : agents.Store) where
  -- The list that was asked for: what the query says, its page and its size.
  pub record AsAsked (read : Readers) (q : ListQuery) (user : Claim) (r : AgentListResponse)
      : Type 0 where
    pub wanted : AgentListFilter
    pub user_id : Str
    pub asked : IsAsked read q wanted
    pub known : user ≡ claimed user_id
    pub page : r.page ≡ wanted.page
    pub size : r.size ≡ wanted.size
    pub listed : IsListed agents out s wanted user_id r
