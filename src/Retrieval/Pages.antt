-- ===== src/Retrieval/Pages.antt =====
-- The pages of a file's chunks in services/impl/document_context_impl.go. AudiModal is a parameter:
-- what it answers to the request for a page. Log lines are left out.
use tas_agent_builder.Base.{
  ℕ, zero, suc, ◌+◌, ◌/◌, ◌==◌, if◌then◌else◌, ◌||◌, not, Bool, true, false, Str, codes, List, [],
  ◌∷◌, ◌++◌, Option, none, some, length, ℤ, pos, ◌+ℤ◌, ltb_ℤ, Result, ok, err, panic,
}
use tas_agent_builder.External.{HttpReply, unreachable, answered}
use tas_agent_builder.Json.{Fields}

pub record AudiModalChunk : Type 0 where
  pub id : Str
  pub file_id : Str
  pub chunk_id : Str
  pub chunk_type : Str
  pub chunk_number : ℤ
  pub content : Str
  pub page_number : Option ℤ
  pub metadata : Option Fields

-- The fields that the code reads of a decoded reply.
pub record AudiModalResponse : Type 0 where
  pub chunks : List AudiModalChunk
  pub total_count : ℤ
  pub has_next : Bool
  pub count : Option ℤ

unfoldable pub estimate_token_count : Str → ℤ
estimate_token_count text = pos (length text / 4)

unfoldable pub total_count_of : AudiModalResponse → ℤ
total_count_of r = elim r.count [
  | none ↦ r.total_count
  | some n ↦ if ltb_ℤ r.total_count n then n else r.total_count
]

unfoldable pub max_token_budget : ℤ
max_token_budget = pos 50000

-- The loop over the chunks of a page: what it appends, `currentTokens` after it, and whether it
-- stopped at the token budget.
unfoldable pub take_chunks : ℤ → List AudiModalChunk → List AudiModalChunk × (ℤ × Bool)
unfolding estimate_token_count max_token_budget
take_chunks tokens [] = ([], (tokens, false))
take_chunks tokens (chunk ∷ chunks) =
    let next = tokens +ℤ estimate_token_count chunk.content in
    let (more, end) = take_chunks next chunks in
    if ltb_ℤ max_token_budget next then ([], (tokens, true)) else (chunk ∷ more, end)

-- `!hasNext || len(chunks) == 0`
unfoldable pub is_last : AudiModalResponse → Bool
is_last r = not r.has_next || (length r.chunks == 0)

unfoldable pub status_error : (ℤ → Str) → ℕ → Str → Str
status_error decimal status body =
    codes "AudiModal returned status " ++ (decimal (pos status) ++ (codes ": " ++ body))

module _ (decimal : ℤ → Str) (page_of : ℕ → HttpReply AudiModalResponse) where
  -- The pages from `page` on, when the safety limit allows `left` more.
  unfoldable pub fetch_pages :
      ℕ → ℕ → List AudiModalChunk → ℤ → ℤ → Result (List AudiModalChunk × ℤ)
  unfolding take_chunks is_last total_count_of status_error
  fetch_pages zero page all tokens total = ok (all, total)
  fetch_pages (suc left) page all tokens total = elim (page_of page) [
    | unreachable e ↦ err (codes "failed to execute request: " ++ e)
    | answered status body decoded ↦ elim (status == 200) [
      | false ↦ err (status_error decimal status body)
      | true ↦ elim decoded [
        | err e ↦ err (codes "failed to decode response: " ++ e)
        | panic ↦ panic
        | ok r ↦
            let (taken, (now, stopped)) = take_chunks tokens r.chunks in
            elim (stopped || is_last r) [
              | true ↦ ok (all ++ taken, total_count_of r)
              | false ↦ fetch_pages left (page + 1) (all ++ taken) now (total_count_of r)
            ]
      ]
    ]
  ]

  -- The limit of 100 pages is the code's.
  unfoldable pub fetch_chunks_for_file : Result (List AudiModalChunk × ℤ)
  unfolding fetch_pages
  fetch_chunks_for_file = fetch_pages 100 1 [] (pos 0) (pos 0)
