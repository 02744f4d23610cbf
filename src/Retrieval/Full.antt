-- ===== src/Retrieval/Full.antt =====
-- `RetrieveFullDocuments` of services/impl/document_context_impl.go. The retrieval time is given;
-- `sort.Slice` is the insertion sort of Hybrid/Score.
use tas_agent_builder.Base.{
  ℕ, ◌==◌, if◌then◌else◌, ltb, Bool, true, false, Str, str_eq, codes, List, [], ◌∷◌, ◌++◌, some,
  map, ℤ, pos, ◌+ℤ◌, ltb_ℤ, Result, ok, err, panic,
}
use tas_agent_builder.External.{HttpReply, unreachable, answered}
use tas_agent_builder.Floats.{FloatOps}
use tas_agent_builder.Json.{end, field, number, boolean}
use tas_agent_builder.Models.Document.{
  RetrievedChunk, ChunkRetrievalRequest, DocumentContextResult, ContextStrategy,
}
use tas_agent_builder.Hybrid.Score.{sort_slice}
use tas_agent_builder.Retrieval.Pages.{
  AudiModalChunk, AudiModalResponse, estimate_token_count, total_count_of, status_error,
  fetch_chunks_for_file,
}

-- What AudiModal answers: to the request for a page of a file, and for
-- the chunks of a tenant, with a token.
pub record AudiModal : Type 0 where
  pub file_page : Str → Str → ℕ → ℕ → HttpReply AudiModalResponse
  pub tenant_chunks : Str → Str → ℤ → ℤ → HttpReply AudiModalResponse
  pub decimal : ℤ → Str
  pub floats : FloatOps

-- `a < b` on strings.
unfoldable pub str_less : Str → Str → Bool
str_less s [] = false
str_less [] (d ∷ t) = true
str_less (c ∷ s) (d ∷ t) = let rest = str_less s t in if c == d then rest else ltb c d

unfoldable pub chunk_less : RetrievedChunk → RetrievedChunk → Bool
unfolding str_less
chunk_less a b =
    if str_eq a.document_id b.document_id
    then ltb_ℤ a.chunk_number b.chunk_number
    else str_less a.document_id b.document_id

unfoldable pub retrieved_of : FloatOps → AudiModalChunk → RetrievedChunk
retrieved_of f c = record {
  id = c.id;
  document_id = c.file_id;
  document_name = [];
  notebook_id = [];
  content = c.content;
  chunk_number = c.chunk_number;
  total_chunks = pos 0;
  score = f.ratio 0 1;
  distance = f.ratio 0 1;
  metadata = c.metadata;
  content_type = c.chunk_type;
  language = [];
  page_number = c.page_number;
}

module _ (modal : AudiModal) where
  unfoldable pub fetch_all_chunks_for_tenant : Str → Str → ℤ → ℤ → Result (List AudiModalChunk × ℤ)
  unfolding total_count_of status_error
  fetch_all_chunks_for_tenant tenant_id token limit offset =
      elim (modal.tenant_chunks tenant_id token limit offset) [
        | unreachable e ↦ err (codes "failed to execute request: " ++ e)
        | answered status body decoded ↦
            if status == 200
            then elim decoded [
              | ok r ↦ ok (r.chunks, total_count_of r)
              | err e ↦ err (codes "failed to decode response: " ++ e)
              | panic ↦ panic
            ]
            else err (status_error modal.decimal status body)
      ]

  -- The loop over the files; one whose chunks cannot be fetched is passed over.
  unfoldable pub fetch_files : Str → Str → List ℕ → Result (List AudiModalChunk × ℤ)
  unfolding fetch_chunks_for_file
  fetch_files tenant_id token [] = ok ([], pos 0)
  fetch_files tenant_id token (id ∷ ids) =
      let rest = fetch_files tenant_id token ids in
      elim (fetch_chunks_for_file modal.decimal (modal.file_page tenant_id token id)) [
        | ok (mine, count) ↦ elim rest [
          | ok (chunks, total) ↦ ok (mine ++ chunks, count +ℤ total)
          | err e ↦ err e
          | panic ↦ panic
        ]
        | err e ↦ rest
        | panic ↦ panic
      ]

  unfoldable pub fetch_request : ChunkRetrievalRequest → Result (List AudiModalChunk × ℤ)
  unfolding fetch_files fetch_all_chunks_for_tenant
  fetch_request req = elim req.file_ids [
    | [] ↦ fetch_all_chunks_for_tenant req.tenant_id req.auth_token req.limit req.offset
    | id ∷ ids ↦ fetch_files req.tenant_id req.auth_token (id ∷ ids)
  ]

  unfoldable pub estimated : List RetrievedChunk → ℤ
  unfolding estimate_token_count
  estimated [] = pos 0
  estimated (chunk ∷ chunks) = estimate_token_count chunk.content +ℤ estimated chunks

  unfoldable pub full_result : ℤ → List AudiModalChunk × ℤ → DocumentContextResult
  unfolding sort_slice chunk_less retrieved_of estimated
  full_result took (all, total) =
      let chunks = map (retrieved_of modal.floats) all in
      record {
        chunks = sort_slice chunk_less chunks;
        total_tokens = estimated chunks;
        truncated_chunks = pos 0;
        strategy = ContextStrategy.full;
        retrieval_time_ms = took;
        metadata = some (
            field (codes "total") (number (modal.floats.of_int total))
              (field (codes "has_more") (boolean false) end));
      }

  unfoldable pub retrieve_full_documents : ℤ → ChunkRetrievalRequest → Result DocumentContextResult
  unfolding fetch_request full_result
  retrieve_full_documents took req = elim (fetch_request req) [
    | ok got ↦ ok (full_result took got)
    | err e ↦ err e
    | panic ↦ panic
  ]
