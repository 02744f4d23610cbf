-- ===== src/Cache/Through.antt =====
-- `CachedContextService` in services/impl/cache_service_impl.go: the document context service read
-- through the cache.
use tas_agent_builder.Base.{
  true, Str, codes, Option, none, some, ℤ, pos, leb_ℤ, if◌then◌else◌, Result, ok, err, panic,
}
use tas_agent_builder.External.{Redis, Codec, UuidText}
use tas_agent_builder.Floats.{Float}
use tas_agent_builder.Json.{Fields, end, boolean, text, set_field}
use tas_agent_builder.Models.Document.{
  DocumentContextResult, VectorSearchRequest, ChunkRetrievalRequest,
}
use tas_agent_builder.Cache.Keys.{
  Sha256, Numerals, generate_vector_search_cache_key, generate_chunk_retrieval_cache_key,
  generate_hybrid_cache_key,
}
use tas_agent_builder.Cache.Service.{CacheConfig, MemCache, get_cached_context, set_cached_context}

-- `NewCachedContextService`: a TTL that is not positive is replaced by the default.
unfoldable pub service_ttl : ℤ → ℤ
service_ttl ttl_seconds = if leb_ℤ ttl_seconds (pos 0) then pos 1800 else ttl_seconds

-- The metadata of a hit, on a new map where there was none.
unfoldable pub mark_cached : Str → DocumentContextResult → DocumentContextResult
mark_cached cache_key result =
    let old : Fields = elim result.metadata [ none ↦ end | some m ↦ m ] in
    record result {
      metadata = some (
          set_field (codes "cache_key") (text cache_key)
            (set_field (codes "cached") (boolean true) old));
    }

module _ (redis : Redis) (codec : Codec DocumentContextResult) (uuid : UuidText)
    (config : CacheConfig) (sha : Sha256) (numerals : Numerals) (ttl : ℤ) where
  open redis use {Store}

  -- What a miss does with the delegate's answer, a pointer that may be nil.
  unfoldable pub fill :
      Store × MemCache
      → ℤ
      → Str
      → Result (Option DocumentContextResult)
      → (Store × MemCache) × Result (Option DocumentContextResult)
  fill state now cache_key (ok none) = (state, ok none)
  fill state now cache_key (ok (some result)) = (
    (set_cached_context redis codec uuid config state now cache_key (some result) ttl).0,
    ok (some result),
  )
  fill state now cache_key (err e) = (state, err e)
  fill state now cache_key panic = (state, panic)

  -- The steps that the three retrievals share: the answer of the delegate is used on a miss, and
  -- where the cache fails.
  unfoldable pub retrieve :
      Store × MemCache
      → ℤ
      → Str
      → Result (Option DocumentContextResult)
      → (Store × MemCache) × Result (Option DocumentContextResult)
  unfolding fill
  retrieve state now cache_key delegate =
      let (state', cached) = get_cached_context redis codec uuid config state now cache_key in
      elim cached [
        | ok (some result) ↦ (state', ok (some (mark_cached cache_key result)))
        | ok none ↦ fill state' now cache_key delegate
        | err e ↦ fill state' now cache_key delegate
        | panic ↦ (state', panic)
      ]

  unfoldable pub retrieve_vector_context :
      Store × MemCache
      → ℤ
      → VectorSearchRequest
      → Result (Option DocumentContextResult)
      → (Store × MemCache) × Result (Option DocumentContextResult)
  retrieve_vector_context state now req =
      retrieve state now (generate_vector_search_cache_key sha uuid numerals req)

  unfoldable pub retrieve_full_documents :
      Store × MemCache
      → ℤ
      → ChunkRetrievalRequest
      → Result (Option DocumentContextResult)
      → (Store × MemCache) × Result (Option DocumentContextResult)
  retrieve_full_documents state now req =
      retrieve state now (generate_chunk_retrieval_cache_key sha uuid numerals req)

  unfoldable pub retrieve_hybrid_context :
      Store × MemCache
      → ℤ
      → Str
      → ChunkRetrievalRequest
      → Float
      → Float
      → Result (Option DocumentContextResult)
      → (Store × MemCache) × Result (Option DocumentContextResult)
  retrieve_hybrid_context state now query req vector_weight full_doc_weight =
      retrieve state now
        (generate_hybrid_cache_key sha uuid numerals query req vector_weight full_doc_weight)
