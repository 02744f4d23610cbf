-- ===== src/Cache/RoundTrip.antt =====
-- That services/impl/cache_service_impl.go returns what it stored, and what it invalidated no more.
use tas_agent_builder.Base.{
  ◌≡◌, refl, ◌∙◌, true, false, Bool-cases, inl, inr, Str, Option, none, some, ℤ, ltb_ℤ_of_le, ◌≤ℤ◌,
  ◌+ℤ◌, Result, ok,
}
use tas_agent_builder.External.{found, Redis, Codec, UuidText}
use tas_agent_builder.Models.Document.{DocumentContextResult}
use tas_agent_builder.Cache.Keys.{Sha256, Numerals, match_pattern, prefix_key}
use tas_agent_builder.Cache.Memory.{find_entry-delete_matching, find_entry-set_in_mem_cache}
use tas_agent_builder.Cache.Service.{
  CacheConfig, CacheEntry, MemCache, Scan, find_entry, delete_matching, set_in_mem_cache, cache_ttl,
  get_from_mem_cache, get_cached_context, set_cached_context, write_context, invalidate_cache,
}
use tas_agent_builder.Cache.Through.{mark_cached, fill, retrieve}

module _ (redis : Redis) (codec : Codec DocumentContextResult) (uuid : UuidText)
    (config : CacheConfig) where
  open redis use {Store}

  get_from_mem_cache-fresh :
      (mem : MemCache) (now : ℤ) (k : Str) (entry : CacheEntry) (result : DocumentContextResult)
      → find_entry k mem ≡ some entry
      → now ≤ℤ entry.expires_at
      → codec.unmarshal entry.bytes ≡ ok result
      → (get_from_mem_cache redis codec uuid config mem now k).1 ≡ ok (some result)
  unfolding get_from_mem_cache
  get_from_mem_cache-fresh mem now k entry result there early back =
      rw (there, get_from_mem_cache) (rw (ltb_ℤ_of_le entry.expires_at now early) (rw back refl))

  get_from_mem_cache-missing :
      (mem : MemCache) (now : ℤ) (k : Str)
      → find_entry k mem ≡ none
      → (get_from_mem_cache redis codec uuid config mem now k).1 ≡ ok none
  unfolding get_from_mem_cache
  get_from_mem_cache-missing mem now k gone = rw (gone, get_from_mem_cache) refl

  get_cached_context-memory :
      (state : Store × MemCache) (now : ℤ) (key : Str)
      → config.enabled ≡ true
      → config.use_redis ≡ false
      → (get_cached_context redis codec uuid config state now key).1
        ≡ (get_from_mem_cache redis codec uuid config state.1 now (prefix_key key)).1
  unfolding get_cached_context
  get_cached_context-memory (store, mem) now key on memory = simp (on, memory)

  get_cached_context-redis :
      (state : Store × MemCache) (now : ℤ) (key bytes : Str) (result : DocumentContextResult)
      → config.enabled ≡ true
      → config.use_redis ≡ true
      → redis.get state.0 (prefix_key key) ≡ found bytes
      → codec.unmarshal bytes ≡ ok result
      → (get_cached_context redis codec uuid config state now key).1 ≡ ok (some result)
  unfolding get_cached_context
  get_cached_context-redis (store, mem) now key bytes result on remote got back =
      simp (on, remote, got, back)

  set_cached_context-write :
      (state : Store × MemCache) (now : ℤ) (key bytes : Str) (result : DocumentContextResult)
      (ttl_seconds : ℤ)
      → config.enabled ≡ true
      → codec.marshal result ≡ ok bytes
      → (set_cached_context redis codec uuid config state now key (some result) ttl_seconds).0
        ≡ write_context redis codec uuid config state now
            (prefix_key key)
            bytes
            (cache_ttl config ttl_seconds)
  unfolding set_cached_context
  set_cached_context-write state now key bytes result ttl_seconds on m = simp (on, m)

  write_context-memory :
      (store : Store) (mem : MemCache) (now : ℤ) (k bytes : Str) (ttl : ℤ)
      → config.use_redis ≡ false
      → write_context redis codec uuid config (store, mem) now k bytes ttl
        ≡ (store, set_in_mem_cache now k bytes ttl mem)
  unfolding write_context
  write_context-memory store mem now k bytes ttl memory = simp memory

  write_context-redis :
      (store : Store) (mem : MemCache) (now : ℤ) (k bytes : Str) (ttl : ℤ)
      → config.use_redis ≡ true
      → (redis.set store k bytes ttl).1 ≡ none
      → write_context redis codec uuid config (store, mem) now k bytes ttl
        ≡ ((redis.set store k bytes ttl).0, mem)
  unfolding write_context
  write_context-redis store mem now k bytes ttl remote done = simp (remote, done)

  -- With the cache enabled and in memory, or in a Redis whose write reports no error, a context that
  -- `SetCachedContext` could serialize is returned until its TTL has passed.
  pub set_cached_context-get :
      (store : Store) (mem : MemCache) (now later : ℤ) (key bytes : Str)
      (result : DocumentContextResult) (ttl_seconds : ℤ)
      → config.enabled ≡ true
      → codec.marshal result ≡ ok bytes
      → (redis.set store (prefix_key key) bytes (cache_ttl config ttl_seconds)).1 ≡ none
      → later ≤ℤ now +ℤ cache_ttl config ttl_seconds
      → (get_cached_context redis codec uuid config
          (set_cached_context redis codec uuid config
            (store, mem)
            now
            key
            (some result)
            ttl_seconds).0
          later
          key).1
        ≡ ok (some result)
  set_cached_context-get store mem now later key bytes result ttl_seconds on m done early =
      let back = codec.unmarshal-marshal result bytes m in
      let ttl = cache_ttl config ttl_seconds in
      let k = prefix_key key in
      rw (set_cached_context-write (store, mem) now key bytes result ttl_seconds on m)
        (elim (Bool-cases config.use_redis) [
          | inl remote ↦ rw (write_context-redis store mem now k bytes ttl remote done) (
              get_cached_context-redis _ later key bytes result on remote
                (redis.get-set store k bytes ttl done) back)
          | inr memory ↦ rw (write_context-memory store mem now k bytes ttl memory) (
              get_cached_context-memory _ later key on memory
              ∙ get_from_mem_cache-fresh _ later k
                  (record { bytes = bytes; expires_at = now +ℤ ttl }) result
                  (find_entry-set_in_mem_cache now ttl k bytes mem) early back)
        ])

  -- With the cache enabled and in memory, after `InvalidateCache` a key that the pattern matches
  -- has no context.
  pub invalidate_cache-get :
      (store : Store) (mem : MemCache) (scanned : Scan) (pattern key : Str) (now : ℤ)
      → config.use_redis ≡ false
      → match_pattern (prefix_key key) (prefix_key pattern) ≡ true
      → config.enabled ≡ true
      → (get_cached_context redis codec uuid config
          (invalidate_cache redis codec uuid config (store, mem) scanned pattern)
          now
          key).1
        ≡ ok none
  unfolding invalidate_cache
  invalidate_cache-get store mem scanned pattern key now memory h on =
      let k = prefix_key key in
      let gone : find_entry k (delete_matching (prefix_key pattern) mem) ≡ none =
        find_entry-delete_matching (prefix_key pattern) k mem ∙ rw h refl in
      let cleared : (invalidate_cache redis codec uuid config (store, mem) scanned pattern)
          ≡ (store, delete_matching (prefix_key pattern) mem) =
        simp (on, memory) in
      rw cleared
        (get_cached_context-memory _ now key on memory ∙ get_from_mem_cache-missing _ now k gone)

  module _ (sha : Sha256) (numerals : Numerals) (ttl : ℤ) where
    -- A context that the delegate returned on a miss is returned again, marked as cached, until
    -- its TTL has passed, whatever the delegate would answer then.
    pub retrieve-again :
        (store : Store) (mem : MemCache) (now later : ℤ) (key bytes : Str)
        (result : DocumentContextResult) (other : Result (Option DocumentContextResult))
        → config.enabled ≡ true
        → (get_cached_context redis codec uuid config (store, mem) now key).1 ≡ ok none
        → (get_cached_context redis codec uuid config (store, mem) now key).0 ≡ (store, mem)
        → codec.marshal result ≡ ok bytes
        → (redis.set store (prefix_key key) bytes (cache_ttl config ttl)).1 ≡ none
        → later ≤ℤ now +ℤ cache_ttl config ttl
        → (retrieve redis codec uuid config sha numerals ttl
            (retrieve redis codec uuid config sha numerals ttl
              (store, mem)
              now
              key
              (ok (some result))).0
            later
            key
            other).1
          ≡ ok (some (mark_cached key result))
    unfolding retrieve fill
    retrieve-again store mem now later key bytes result other on miss same m done early =
        let hit = set_cached_context-get store mem now later key bytes result ttl on m done early in
        rw (miss, same, retrieve) (rw (hit, retrieve) refl)
