-- ===== src/Cache/Tests.antt =====
-- Instances of the theorems about services/impl/cache_service_impl.go at a small cache.
use tas_agent_builder.Base.{
  ℕ, ◌≡◌, refl, true, false, codes, List, [], ◌∷◌, ◌++◌, none, some, pos, ◌+ℤ◌, ◌*ℤ◌, ok, err,
  arith, ℕ_discrete,
}
use tas_agent_builder.External.{Codec}
use tas_agent_builder.External.Samples.{sample_redis, sample_uuid, table_codec, lookup, write}
use tas_agent_builder.Models.Document.{DocumentContextResult, ContextStrategy}
use tas_agent_builder.Cache.Keys.{Sha256, Numerals}
use tas_agent_builder.Cache.Service.{
  CacheConfig, MemCache, last_page, get_cached_context, set_cached_context, invalidate_agent_cache,
  cache_ttl,
}
use tas_agent_builder.Cache.Through.{mark_cached, retrieve}
use tas_agent_builder.Cache.Invalidate.{invalidate_agent_cache-get}
use tas_agent_builder.Cache.RoundTrip.{set_cached_context-get, retrieve-again}

DocumentContextResult-discrete : Discrete DocumentContextResult
DocumentContextResult-discrete = hlevel ℕ_discrete

abbrev empty_result : DocumentContextResult
empty_result = record {
  chunks = [];
  total_tokens = pos 0;
  truncated_chunks = pos 0;
  strategy = ContextStrategy.vector;
  retrieval_time_ms = pos 3;
  metadata = none;
}

abbrev json : Codec DocumentContextResult
json = table_codec DocumentContextResult-discrete (empty_result ∷ [])

-- The cache in memory, with a configured TTL of a minute.
abbrev in_memory : CacheConfig
in_memory = record { enabled = true; use_redis = false; ttl = some (pos 60) }

abbrev in_redis : CacheConfig
in_redis = record { enabled = true; use_redis = true; ttl = some (pos 60) }

abbrev zeros : List ℕ
zeros = 0 ∷ 0 ∷ 0 ∷ 0 ∷ 0 ∷ 0 ∷ 0 ∷ 0 ∷ []

abbrev sample_sha : Sha256
sample_sha = record { sum = λ s. zeros ++ zeros ++ zeros ++ zeros; length-sum = λ s. refl }

abbrev sample_numerals : Numerals
sample_numerals = record { decimal = λ n. []; two_decimals = λ f. [] }

abbrev full : MemCache
full = (codes "doc_context:k1", record { bytes = []; expires_at = pos 100 }) ∷ []

marshal_runs : json.marshal empty_result ≡ ok []
unfolding write DocumentContextResult-discrete ℕ_discrete
marshal_runs = refl

set_cached_context-get_example :
    (get_cached_context sample_redis json sample_uuid in_memory
      (set_cached_context sample_redis json sample_uuid in_memory
        ([], [])
        (pos 5)
        (codes "k1")
        (some empty_result)
        (pos 0)).0
      (pos 7)
      (codes "k1")).1
    ≡ ok (some empty_result)
unfolding cache_ttl ◌*ℤ◌ ◌+ℤ◌
set_cached_context-get_example =
    set_cached_context-get sample_redis json sample_uuid in_memory [] [] (pos 5) (pos 7)
      (codes "k1") [] empty_result (pos 0) refl marshal_runs refl (omega arith)

-- The context of key k1 is still there after every context of agent 7 was to be removed.
invalidate_agent_cache-get_example :
    (get_cached_context sample_redis json sample_uuid in_memory
      (invalidate_agent_cache sample_redis json sample_uuid in_memory ([], full) (last_page []) 7)
      (pos 7)
      (codes "k1")).1
    ≡ (get_cached_context sample_redis json sample_uuid in_memory ([], full) (pos 7) (codes "k1")).1
invalidate_agent_cache-get_example =
    invalidate_agent_cache-get sample_redis json sample_uuid in_memory [] full (last_page []) 7
      (codes "k1") (pos 7) tt (omega arith)

-- The second retrieval takes the stored context although the delegate would fail.
retrieve-again_example :
    (retrieve sample_redis json sample_uuid in_redis sample_sha sample_numerals
      (pos 60)
      (retrieve sample_redis json sample_uuid in_redis sample_sha sample_numerals
        (pos 60)
        ([], [])
        (pos 5)
        (codes "k1")
        (ok (some empty_result))).0
      (pos 7)
      (codes "k1")
      (err (codes "down"))).1
    ≡ ok (some (mark_cached (codes "k1") empty_result))
unfolding get_cached_context lookup cache_ttl ◌*ℤ◌ ◌+ℤ◌
retrieve-again_example =
    retrieve-again sample_redis json sample_uuid in_redis sample_sha sample_numerals (pos 60) [] []
      (pos 5) (pos 7) (codes "k1") [] empty_result (err (codes "down")) refl refl refl marshal_runs
      refl (omega arith)
