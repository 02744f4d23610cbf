-- ===== src/Memory/Working/Tests.antt =====
-- Instances of the theorems about services/memory/working_memory.go at small memories.
use tas_agent_builder.Base.{
  ℕ, ◌≡◌, refl, Str, codes, List, [], ◌∷◌, none, pos, ◌+ℤ◌, ok, ◌≤◌, arith, true, ℕ_discrete,
}
use tas_agent_builder.External.{Codec}
use tas_agent_builder.External.Samples.{
  sample_redis, sample_uuid, sample_text, table_codec, lookup, write,
}
use tas_agent_builder.Models.Document.{RetrievedChunk}
use tas_agent_builder.Models.Memory.{LoadedDocument, WorkingMemory, MemoryConfig}
use tas_agent_builder.Memory.Tokens.{estimate_token_count}
use tas_agent_builder.Memory.Working.{
  get_working_memory, set_document_context, write_memory, set_chunks, fit_chunks, trim_chunks,
  count_tokens, empty_memory, load_document_in, unload_document_in,
}
use tas_agent_builder.Memory.Working.Chunks.{chunk_sum, LongestPrefix}
use tas_agent_builder.Memory.Working.Documents.{count, IsValid, load_document_in-IsValid}
use tas_agent_builder.Memory.Working.Unload.{Unloads, unload_document_in-Unloads}
use tas_agent_builder.Memory.Working.Store.{set_document_context-get}

WorkingMemory-discrete : Discrete WorkingMemory
WorkingMemory-discrete = hlevel ℕ_discrete

-- Two documents and three tokens at most.
abbrev small : MemoryConfig
small = record {
  short_term_max_tokens = pos 10;
  short_term_ttl = pos 60;
  short_term_max_entries = pos 2;
  working_memory_max_tokens = pos 3;
  working_memory_ttl = pos 60;
  max_loaded_documents = pos 2;
  auto_refresh_threshold = record { bits = 0 };
  long_term_enabled = true;
  consolidation_interval = pos 60;
  max_long_term_entries = pos 5;
  summary_min_tokens = pos 5;
  summary_max_tokens = pos 5;
}

abbrev chunk : Str → Str → RetrievedChunk
chunk document content = record {
  id = [];
  document_id = document;
  document_name = [];
  notebook_id = [];
  content = content;
  chunk_number = pos 0;
  total_chunks = pos 1;
  score = record { bits = 0 };
  distance = record { bits = 0 };
  metadata = none;
  content_type = [];
  language = [];
  page_number = none;
}

abbrev document : ℕ → LoadedDocument
document id = record {
  document_id = id;
  document_name = [];
  notebook_id = 0;
  chunk_count = pos 1;
  token_count = pos 2;
  loaded_at = pos 1;
}

abbrev desk : List LoadedDocument → List RetrievedChunk → ℕ → WorkingMemory
desk docs chunks total = record {
  session_id = codes "s";
  agent_id = 7;
  tenant_id = [];
  user_id = [];
  loaded_documents = docs;
  retrieved_chunks = chunks;
  total_tokens = pos total;
  max_tokens = pos 3;
  last_query = [];
  last_query_time = none;
  created_at = pos 5;
  updated_at = pos 5;
  expires_at = pos 65;
}

-- Tokens 2, 1 and 1: the third chunk does not fit.
abbrev pages : List RetrievedChunk
pages =
    chunk (codes "a") (codes "12345678")
    ∷ chunk (codes "b") (codes "1234")
    ∷ chunk (codes "b") (codes "12345")
    ∷ []

abbrev kept_pages : List RetrievedChunk
kept_pages = chunk (codes "a") (codes "12345678") ∷ chunk (codes "b") (codes "1234") ∷ []

abbrev json : Codec WorkingMemory
json = table_codec WorkingMemory-discrete (desk [] kept_pages 3 ∷ [])

set_runs :
    (set_document_context sample_redis json sample_uuid small [] (pos 5) (codes "s") 7 pages).1
    ≡ ok tt
unfolding set_document_context get_working_memory lookup empty_memory write_memory set_chunks
    fit_chunks trim_chunks count_tokens write WorkingMemory-discrete ℕ_discrete ◌+ℤ◌
    estimate_token_count
set_runs = refl

set_document_context-get_example :
    (kept : List RetrievedChunk) × (get_working_memory sample_redis json sample_uuid small
        (set_document_context sample_redis json sample_uuid small [] (pos 5) (codes "s") 7 pages).0
        (pos 9)
        (codes "s")
        7
      ≡ ok (record (desk [] [] 0) { retrieved_chunks = kept; total_tokens = chunk_sum kept }))
    × LongestPrefix (pos 3) pages kept
unfolding get_working_memory lookup empty_memory ◌+ℤ◌
set_document_context-get_example =
    set_document_context-get sample_redis json sample_uuid small [] (pos 5) (pos 9) (codes "s") 7
      pages (desk [] [] 0) (omega arith) refl set_runs

at_most_one : (id : ℕ) → count id (document 1 ∷ document 2 ∷ []) ≤ 1
unfolding count
at_most_one id = ground arith

desk-IsValid : IsValid small (desk (document 1 ∷ document 2 ∷ []) kept_pages 3)
unfolding chunk_sum estimate_token_count ◌+ℤ◌
desk-IsValid = record { bounded = omega arith; distinct = at_most_one; counted = refl }

load_document_in-IsValid_example :
    (memory' : WorkingMemory) × (load_document_in small
        (pos 6)
        (document 3)
        (desk (document 1 ∷ document 2 ∷ []) kept_pages 3)
      ≡ ok memory')
    × IsValid small memory'
    × (count 3 memory'.loaded_documents ≡ 1)
    × (memory'.retrieved_chunks ≡ kept_pages)
load_document_in-IsValid_example =
    load_document_in-IsValid small (pos 6) (document 3)
      (desk (document 1 ∷ document 2 ∷ []) kept_pages 3) (omega arith) desk-IsValid

unload_document_in-Unloads_example :
    Unloads small
      (sample_text 1)
      1
      (desk (document 1 ∷ document 2 ∷ []) kept_pages 3)
      (unload_document_in sample_uuid (pos 6) 1 (desk (document 1 ∷ document 2 ∷ []) kept_pages 3))
unload_document_in-Unloads_example =
    unload_document_in-Unloads small sample_uuid (pos 6) 1
      (desk (document 1 ∷ document 2 ∷ []) kept_pages 3) desk-IsValid
