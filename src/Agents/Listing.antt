-- ===== src/Agents/Listing.antt =====
-- The lists of services/impl/agent_service_impl.go. `ORDER BY` is the insertion sort of
-- Hybrid/Score, on the rows that the database reads; names are ordered by their bytes, as in the
-- collation C.
use tas_agent_builder.Base.{
  ℕ, if◌then◌else◌, ◌&&◌, ◌||◌, not, Bool, true, false, Str, codes, str_eq, is_nil, List, [], ◌∷◌,
  ◌++◌, Option, none, some, take, drop, ℤ, pos, ◌-ℤ◌, ◌*ℤ◌, ltb_ℤ, min_ℤ, max_ℤ, pos_part, Result,
  ok, or_wrap, ◌>>=◌,
}
use tas_agent_builder.External.Database.{Table, count}
use tas_agent_builder.Hybrid.Score.{sort_slice}
use tas_agent_builder.Models.Agent.{Agent, AgentListFilter, AgentListResponse}
use tas_agent_builder.Retrieval.Full.{str_less}
use tas_agent_builder.Agents.Service.{is_visible}
use tas_agent_builder.Agents.Requests.{Outside}

-- `if filter.F != nil { query = query.Where(…) }`
abbrev pub matches {ℓ} : {A : Type ℓ} → Option A → (A → Bool) → Bool
matches none holds = true
matches (some a) holds = holds a

abbrev pub bool_eq : Bool → Bool → Bool
bool_eq true b = b
bool_eq false b = not b

module _ (out : Outside) where
  unfoldable pub matches_search : Str → Agent → Bool
  matches_search search a =
      is_nil search
      || (out.ilike a.name (codes "%" ++ (search ++ codes "%"))
          || out.ilike a.description (codes "%" ++ (search ++ codes "%")))

  -- The tag stands in the JSON text as it is, without any escaping.
  unfoldable pub matches_tags : List Str → Agent → Bool
  matches_tags [] a = true
  matches_tags (tag ∷ tags) a =
      out.json_contains a.tags (codes "[\"" ++ (tag ++ codes "\"]")) && matches_tags tags a

  unfoldable pub matches_filter : AgentListFilter → Agent → Bool
  unfolding matches_search matches_tags
  matches_filter filter a =
      matches filter.owner_id (λ id. str_eq a.owner_id (out.uuid.to_string id))
      && (matches filter.space_id (λ id. str_eq a.space_id (out.uuid.to_string id))
          && (matches filter.tenant_id (λ id. str_eq a.tenant_id (out.uuid.to_string id))
              && (matches filter.status (λ status. str_eq a.status status)
                  && (matches filter.space_type (λ kind. str_eq a.space_type kind)
                      && (matches filter.is_public (bool_eq a.is_public)
                          && (matches filter.is_template (bool_eq a.is_template)
                              && (matches filter.is_internal (bool_eq a.is_internal)
                                  && (matches_search filter.search a
                                      && matches_tags filter.tags a))))))))

unfoldable pub page_of : AgentListFilter → ℤ
page_of filter = max_ℤ filter.page (pos 1)

unfoldable pub size_of : AgentListFilter → ℤ
size_of filter =
    if ltb_ℤ filter.size (pos 1) then pos 20 else min_ℤ (max_ℤ filter.size (pos 1)) (pos 100)

-- `OFFSET … LIMIT …`
unfoldable pub window {ℓ} : {A : Type ℓ} → ℤ → ℤ → List A → List A
window offset limit rows = take (pos_part limit) (drop (pos_part offset) rows)

-- `created_at DESC`
unfoldable pub newest_first : List Agent → List Agent
unfolding sort_slice
newest_first = sort_slice (λ a b. ltb_ℤ b.created_at a.created_at)

unfoldable pub list_response : AgentListFilter → ℕ → List Agent → AgentListResponse
unfolding page_of size_of window newest_first
list_response filter total rows =
    let page = page_of filter in
    let size = size_of filter in
    record {
      agents = window ((page -ℤ pos 1) *ℤ size) size (newest_first rows);
      total = pos total;
      page = page;
      size = size;
    }

module _ (agents : Table Agent) (out : Outside) (s : agents.Store) where
  unfoldable pub list_agents : AgentListFilter → Str → Result AgentListResponse
  unfolding is_visible matches_filter list_response count
  list_agents filter user_id =
      let listed = λ (a : Agent). is_visible user_id a && matches_filter out filter a in
      or_wrap "failed to count agents" (count agents s listed) >>= λ total.
      or_wrap "failed to list agents" (agents.select s listed) >>= λ rows.
      ok (list_response filter total rows)

  unfoldable pub get_public_agents : AgentListFilter → Result AgentListResponse
  unfolding list_agents
  get_public_agents filter = list_agents (record filter { is_public = some true }) []

  unfoldable pub get_agent_templates : AgentListFilter → Result AgentListResponse
  unfolding list_agents
  get_agent_templates filter = list_agents (record filter { is_template = some true }) []

  unfoldable pub get_agents_by_space : ℕ → Str → Result (List Agent)
  unfolding newest_first
  get_agents_by_space space_id user_id =
      or_wrap "failed to get agents by space" (
        agents.select s (λ a.
          str_eq a.space_id (out.uuid.to_string space_id)
          && (str_eq a.owner_id user_id || a.is_public)))
      >>= λ rows. ok (newest_first rows)

  unfoldable pub get_internal_agents : Result (List Agent)
  unfolding sort_slice str_less
  get_internal_agents =
      or_wrap "failed to get internal agents"
        (agents.select s (λ a. a.is_internal && elim a.deleted_at [ none ↦ true | some t ↦ false ]))
      >>= λ rows. ok (sort_slice (λ a b. str_less a.name b.name) rows)
