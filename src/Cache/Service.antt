-- ===== src/Cache/Service.antt =====
-- The methods of `cacheServiceImpl` in services/impl/cache_service_impl.go.
use tas_agent_builder.Base.{
  ℕ, ◌*◌, if◌then◌else◌, not, Bool, Str, str_eq, List, [], ◌∷◌, Option, none, some, ℤ, pos, ltb_ℤ,
  leb_ℤ, ◌+ℤ◌, ◌*ℤ◌, Result, ok, err, panic, wrap, or_wrap, ◌>>=◌,
}
use tas_agent_builder.External.{Redis, found, redis_nil, failed, Codec, UuidText}
use tas_agent_builder.Models.Document.{DocumentContextResult}
use tas_agent_builder.Models.Memory.{second}
use tas_agent_builder.Cache.Keys.{prefix_key, match_pattern, agent_pattern, session_pattern}

pub record CacheEntry : Type 0 where
  pub bytes : Str
  pub expires_at : ℤ

-- The map `memCache`, as a list in which the first entry of a key counts.
abbrev pub MemCache : Type 0
MemCache = List (Str × CacheEntry)

-- The settings of the service. `use_redis` is set only with a client. `ttl` is the configured
-- `ContextCacheTTL`, where there is a configuration.
pub record CacheConfig : Type 0 where
  pub enabled : Bool
  pub use_redis : Bool
  pub ttl : Option ℤ

unfoldable pub find_entry : Str → MemCache → Option CacheEntry
find_entry k [] = none
find_entry k ((j, e) ∷ m) = let rest = find_entry k m in if str_eq j k then some e else rest

unfoldable pub delete_entry : Str → MemCache → MemCache
delete_entry k [] = []
delete_entry k ((j, e) ∷ m) =
    let rest = delete_entry k m in if str_eq j k then rest else (j, e) ∷ rest

-- The loop of `InvalidateCache` over the map.
unfoldable pub delete_matching : Str → MemCache → MemCache
delete_matching pattern [] = []
delete_matching pattern ((j, e) ∷ m) =
    let rest = delete_matching pattern m in if match_pattern j pattern then rest else (j, e) ∷ rest

-- The replies to the SCAN calls of one invalidation, until the cursor is 0 or a call fails.
pub data Scan : Type 0 where
  scan_failed : Scan
  last_page : List Str → Scan
  next_page : List Str → Scan → Scan

-- The TTL of `SetCachedContext`.
unfoldable pub cache_ttl : CacheConfig → ℤ → ℤ
cache_ttl config ttl_seconds =
    let ttl =
      if leb_ℤ ttl_seconds (pos 0)
      then elim config.ttl [
        | some configured ↦ configured *ℤ pos second
        | none ↦ ttl_seconds *ℤ pos second
      ]
      else ttl_seconds *ℤ pos second in
    if leb_ℤ ttl (pos 0) then pos (1800 * second) else ttl

unfoldable pub set_in_mem_cache : ℤ → Str → Str → ℤ → MemCache → MemCache
set_in_mem_cache now key bytes ttl mem =
    (key, record { bytes = bytes; expires_at = now +ℤ ttl }) ∷ delete_entry key mem

module _ (redis : Redis) (codec : Codec DocumentContextResult) (uuid : UuidText)
    (config : CacheConfig) where
  open redis use {Store}

  unfoldable pub get_from_mem_cache :
      MemCache → ℤ → Str → MemCache × Result (Option DocumentContextResult)
  get_from_mem_cache mem now key = elim (find_entry key mem) [
    | none ↦ (mem, ok none)
    | some entry ↦ if ltb_ℤ entry.expires_at now then (delete_entry key mem, ok none) else (
      mem,
      do
        result ← or_wrap "failed to unmarshal cached context" (codec.unmarshal entry.bytes)
        ok (some result),
    )
  ]

  unfoldable pub get_cached_context :
      Store × MemCache → ℤ → Str → (Store × MemCache) × Result (Option DocumentContextResult)
  get_cached_context (store, mem) now cache_key =
      if not config.enabled
      then ((store, mem), ok none)
      else let (mem', kept) = get_from_mem_cache mem now (prefix_key cache_key) in
        if config.use_redis
        then elim (redis.get store (prefix_key cache_key)) [
          | found bytes ↦ elim (codec.unmarshal bytes) [
            | ok result ↦ ((store, mem), ok (some result))
            | err e ↦ (((redis.del store (prefix_key cache_key)).0, mem), ok none)
            | panic ↦ ((store, mem), panic)
          ]
          | redis_nil ↦ ((store, mem), ok none)
          | failed e ↦ ((store, mem'), kept)
        ]
        else ((store, mem'), kept)

  unfoldable pub write_context : Store × MemCache → ℤ → Str → Str → ℤ → Store × MemCache
  write_context (store, mem) now key bytes ttl =
      let (store', e) = redis.set store key bytes ttl in
      let mem' = set_in_mem_cache now key bytes ttl mem in
      if config.use_redis
      then elim e [ none ↦ (store', mem) | some failure ↦ (store', mem') ]
      else (store, mem')

  -- The result is a pointer in the code, and a nil one is not stored.
  unfoldable pub set_cached_context :
      Store × MemCache
      → ℤ
      → Str
      → Option DocumentContextResult
      → ℤ
      → (Store × MemCache) × Result (Unit {0})
  set_cached_context state now cache_key none ttl_seconds = (state, ok tt)
  set_cached_context state now cache_key (some result) ttl_seconds =
      if not config.enabled then (state, ok tt) else elim (codec.marshal result) [
        | ok bytes ↦ (
          write_context state now (prefix_key cache_key) bytes (cache_ttl config ttl_seconds),
          ok tt,
        )
        | err e ↦ (state, err (wrap "failed to marshal context for caching" e))
        | panic ↦ (state, panic)
      ]

  -- `redis.Del(ctx, keys...)`; its error is not read.
  unfoldable pub delete_keys : Store → List Str → Store
  delete_keys store [] = store
  delete_keys store (key ∷ keys) = delete_keys (redis.del store key).0 keys

  unfoldable pub delete_scanned : Store → Scan → Store
  unfolding delete_keys
  delete_scanned store scan_failed = store
  delete_scanned store (last_page keys) = delete_keys store keys
  delete_scanned store (next_page keys rest) = delete_scanned (delete_keys store keys) rest

  unfoldable pub invalidate_cache : Store × MemCache → Scan → Str → Store × MemCache
  invalidate_cache (store, mem) scanned pattern = if not config.enabled then (store, mem) else (
    (if config.use_redis then delete_scanned store scanned else store),
    delete_matching (prefix_key pattern) mem,
  )

  unfoldable pub invalidate_agent_cache : Store × MemCache → Scan → ℕ → Store × MemCache
  invalidate_agent_cache state scanned agent_id =
      invalidate_cache state scanned (agent_pattern uuid agent_id)

  unfoldable pub invalidate_session_cache : Store × MemCache → Scan → ℕ → Str → Store × MemCache
  invalidate_session_cache state scanned agent_id session_id =
      invalidate_cache state scanned (session_pattern uuid agent_id session_id)
