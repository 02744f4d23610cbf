-- ===== src/Retrieval/Tests.antt =====
-- Instances of the theorems about services/impl/document_context_impl.go.
use tas_agent_builder.Base.{
  ℕ, ◌≡◌, refl, true, false, codes, List, [], ◌∷◌, none, some, ℤ, pos, ok, ◌+ℤ◌,
}
use tas_agent_builder.External.{HttpReply, answered}
use tas_agent_builder.Memory.Samples.{sample_floats}
use tas_agent_builder.Models.Document.{RetrievedChunk, DocumentContextResult, ContextStrategy}
use tas_agent_builder.Retrieval.Pages.{AudiModalChunk, AudiModalResponse, fetch_chunks_for_file}
use tas_agent_builder.Retrieval.Inject.{include_chunks, start, format_context_for_injection}
use tas_agent_builder.Models.Document.{ChunkRetrievalRequest}
use tas_agent_builder.Retrieval.Full.{AudiModal, fetch_request, retrieve_full_documents}
use tas_agent_builder.Retrieval.Ordered.{IsOrdered, retrieve_full_documents-IsOrdered}
use tas_agent_builder.Retrieval.Fetched.{IsLongest, available, fetch_chunks_for_file-IsLongest}
use tas_agent_builder.Retrieval.Injected.{IsInjected, format_context_for_injection-IsInjected}

abbrev stored : AudiModalChunk
stored = record {
  id = codes "c1";
  file_id = codes "f1";
  chunk_id = [];
  chunk_type = [];
  chunk_number = pos 0;
  content = codes "some text";
  page_number = none;
  metadata = none;
}

abbrev page : ℕ → AudiModalResponse
page n = record {
  chunks = stored ∷ stored ∷ [];
  total_count = pos 2;
  has_next = false;
  count = none;
}

abbrev reply : ℕ → HttpReply AudiModalResponse
reply n = answered 200 [] (ok (page n))

fetch_run : fetch_chunks_for_file (λ n. []) reply ≡ ok (stored ∷ stored ∷ [], pos 2)
unfolding fetch_chunks_for_file ◌+ℤ◌
fetch_run = refl

fetch_chunks_for_file-IsLongest_example :
    (got : List AudiModalChunk) × (counted : ℤ) × (fetch_chunks_for_file (λ n. []) reply
      ≡ ok (got, counted))
    × IsLongest (pos 0) (available (λ n. []) reply page (λ n. []) (λ n. refl) 100 1) got
fetch_chunks_for_file-IsLongest_example =
    fetch_chunks_for_file-IsLongest (λ n. []) reply page (λ n. []) (λ n. refl)

abbrev piece : RetrievedChunk
piece = record {
  id = [];
  document_id = codes "d1";
  document_name = [];
  notebook_id = [];
  content = codes "some text";
  chunk_number = pos 0;
  total_chunks = pos 1;
  score = record { bits = 0 };
  distance = record { bits = 0 };
  metadata = none;
  content_type = [];
  language = [];
  page_number = none;
}

abbrev result : DocumentContextResult
result = record {
  chunks = piece ∷ piece ∷ [];
  total_tokens = pos 4;
  truncated_chunks = pos 0;
  strategy = ContextStrategy.vector;
  retrieval_time_ms = pos 0;
  metadata = none;
}

-- The opening mark has 6 tokens and each chunk 2; nine tokens hold one chunk.
include_run : (include_chunks (pos 9) (pos 6) start result.chunks).1 ≡ (1, true)
unfolding include_chunks ◌+ℤ◌
include_run = refl

format_context_for_injection-IsInjected_example :
    IsInjected result (pos 9) (format_context_for_injection sample_floats (some result) (pos 9))
format_context_for_injection-IsInjected_example =
    format_context_for_injection-IsInjected sample_floats result (pos 9) piece (piece ∷ []) refl

abbrev modal : AudiModal
modal = record {
  file_page = λ tenant token file n. reply n;
  tenant_chunks = λ tenant token limit offset. reply 1;
  decimal = λ n. [];
  floats = sample_floats;
}

abbrev two_files : ChunkRetrievalRequest
two_files = record {
  tenant_id = codes "t";
  file_ids = 1 ∷ 2 ∷ [];
  notebook_ids = [];
  chunk_types = [];
  limit = pos 0;
  offset = pos 0;
  order_by = [];
  auth_token = [];
}

abbrev four : List AudiModalChunk
four = stored ∷ stored ∷ stored ∷ stored ∷ []

retrieve_full_documents-IsOrdered_example :
    (got : DocumentContextResult) × (retrieve_full_documents modal (pos 0) two_files ≡ ok got)
    × IsOrdered modal four got
unfolding fetch_request ◌+ℤ◌
retrieve_full_documents-IsOrdered_example =
    retrieve_full_documents-IsOrdered modal (pos 0) two_files four (pos 4) refl
