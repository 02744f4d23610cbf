-- ===== src/Handlers/Query.antt =====
-- `ListAgents` of handlers/agent_handlers.go: the filter that the query of the request asks for. A
-- parameter that is not in the query is the empty string.
use Prim.Native.String.{String}
use tas_agent_builder.Base.{
  ℕ, ◌+◌, ◌*◌, ◌-◌, ◌==◌, leb, ltb, if◌then◌else◌, ◌&&◌, ◌||◌, not, Bool, Str, codes, str_eq,
  is_nil, List, [], ◌∷◌, Option, none, some, ℤ, pos, ◌-ℤ◌, ltb_ℤ, Result,
}
use tas_agent_builder.External.Database.{Table}
use tas_agent_builder.Models.Agent.{Agent, AgentListFilter, AgentListResponse}
use tas_agent_builder.Agents.Requests.{Outside}
use tas_agent_builder.Agents.Listing
use tas_agent_builder.Handlers.Http.{Claim, Reply, go, refuse, ◌>>=◌, or_refuse, or_only}
use tas_agent_builder.Handlers.Crud.{user_of}

pub record ListQuery : Type 0 where
  pub owner_id : Str
  pub space_id : Str
  pub tenant_id : Str
  pub status : Str
  pub space_type : Str
  pub is_public : Str
  pub is_template : Str
  pub tags : Str
  pub search : Str
  pub page : Str
  pub size : Str

-- `uuid.Parse` and the decoding of a JSON array of strings.
pub record Readers : Type 0 where
  pub parse_uuid : Str → Result ℕ
  pub texts_of_json : Str → Result (List Str)

-- The digits of `strconv.Atoi`, after `n`.
unfoldable pub digits_from : ℕ → Str → Option ℕ
digits_from n [] = some n
digits_from n (c ∷ s) =
    let rest = digits_from (n * 10 + (c - 48)) s in if leb 48 c && leb c 57 then rest else none

unfoldable pub digits : Str → Option ℕ
unfolding digits_from
digits [] = none
digits (c ∷ s) = digits_from 0 (c ∷ s)

-- `strconv.Atoi` of a sign and digits, within the range of an int.
unfoldable pub atoi : Str → Option ℤ
unfolding digits
atoi s = elim s [
  | [] ↦ none
  | c ∷ rest ↦
      if c == 45
      then (elim (digits rest) [
        | none ↦ none
        | some n ↦ if leb n 9223372036854775808 then some (pos 0 -ℤ pos n) else none
      ])
      else elim (digits (if c == 43 then rest else c ∷ rest)) [
        | none ↦ none
        | some n ↦ if ltb n 9223372036854775808 then some (pos n) else none
      ]
]

-- `if s := c.Query(name); s != "" { … }`
abbrev pub given_text : Str → Option Str
given_text s = if is_nil s then none else some s

abbrev pub given_bool : Str → Option Bool
given_bool s = if is_nil s then none else some (str_eq s (codes "true"))

unfoldable pub given_id : Readers → String → Str → Reply (Option ℕ)
given_id read bad [] = go none
given_id read bad (c ∷ s) = or_only 400 bad (read.parse_uuid (c ∷ s)) >>= λ id. go (some id)

unfoldable pub given_tags : Readers → Str → Reply (List Str)
given_tags read [] = go []
given_tags read (c ∷ s) = or_only 400 "Invalid tags format" (read.texts_of_json (c ∷ s))

-- A number of the query that must satisfy a condition.
unfoldable pub checked_number : String → (ℤ → Bool) → Option ℤ → Reply ℤ
checked_number bad good none = refuse 400 (codes bad) none
checked_number bad good (some n) = if good n then go n else refuse 400 (codes bad) none

unfoldable pub page_number : Str → Reply ℤ
unfolding atoi checked_number
page_number s =
    if is_nil s
    then go (pos 1)
    else checked_number "Invalid page parameter" (λ n. not (ltb_ℤ n (pos 1))) (atoi s)

unfoldable pub size_number : Str → Reply ℤ
unfolding atoi checked_number
size_number s =
    if is_nil s
    then go (pos 20)
    else checked_number "Invalid size parameter (must be 1-100)"
        (λ n. not (ltb_ℤ n (pos 1) || ltb_ℤ (pos 100) n)) (atoi s)

unfoldable pub list_filter : Readers → ListQuery → Reply AgentListFilter
unfolding given_id given_tags page_number size_number
list_filter read q = given_id read "Invalid owner_id" q.owner_id >>= λ owner_id.
    given_id read "Invalid space_id" q.space_id >>= λ space_id.
    given_id read "Invalid tenant_id" q.tenant_id >>= λ tenant_id.
    given_tags read q.tags >>= λ tags. page_number q.page >>= λ page. size_number q.size >>= λ size.
    go (record {
      owner_id = owner_id;
      space_id = space_id;
      tenant_id = tenant_id;
      status = given_text q.status;
      space_type = given_text q.space_type;
      is_public = given_bool q.is_public;
      is_template = given_bool q.is_template;
      is_internal = none;
      tags = tags;
      search = q.search;
      page = page;
      size = size;
    })

unfoldable pub list_agents :
    (agents : Table Agent)
    → Outside
    → Readers
    → agents.Store
    → ListQuery
    → Claim
    → Reply (ℕ × AgentListResponse)
unfolding list_filter user_of
list_agents agents out read s q user = list_filter read q >>= λ filter. user_of user >>= λ user_id.
    or_refuse 500 "Failed to list agents" (Listing.list_agents agents out s filter user_id)
    >>= λ response. go (200, response)
