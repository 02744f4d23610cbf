-- ===== src/Cache/Invalidate.antt =====
-- What the invalidations of services/impl/cache_service_impl.go remove.
use tas_agent_builder.Base.{
  ℕ, ◌≤◌, ◌≡◌, ◌≢◌, refl, ◌∙◌, true, false, Bool-cases, inl, inr, Str, length, List, [], ◌∷◌,
  Option-cases, ℤ, ltb_ℤ, Result-cases, All,
}
use tas_agent_builder.External.{Redis, Reply-cases, Codec, UuidText}
use tas_agent_builder.Models.Document.{DocumentContextResult}
use tas_agent_builder.Cache.Keys.{match_pattern, prefix_key, agent_pattern}
use tas_agent_builder.Cache.Match.{agent_pattern-short}
use tas_agent_builder.Cache.Memory.{find_entry-delete_matching}
use tas_agent_builder.Cache.Service.{
  CacheConfig, MemCache, Scan, scan_failed, last_page, next_page, find_entry, delete_matching,
  get_from_mem_cache, get_cached_context, invalidate_cache, invalidate_agent_cache, delete_keys,
  delete_scanned,
}

-- Every key that a SCAN returned matches its pattern, as Redis documents.
abbrev pub ScanMatches : Str → Scan → Type 0
ScanMatches pattern scan_failed = Unit
ScanMatches pattern (last_page keys) = All (λ k. match_pattern k pattern ≡ true) keys
ScanMatches pattern (next_page keys rest) =
    All (λ k. match_pattern k pattern ≡ true) keys × ScanMatches pattern rest

apart_of_match :
    (pattern j k : Str) → match_pattern j pattern ≡ true → match_pattern k pattern ≡ false → k ≢ j
apart_of_match pattern j k hj hk = λ e. cc (hj, hk, e)

module _ (redis : Redis) (codec : Codec DocumentContextResult) (uuid : UuidText)
    (config : CacheConfig) where
  open redis use {Store}

  get_from_mem_cache-same :
      (m n : MemCache) (now : ℤ) (k : Str)
      → find_entry k m ≡ find_entry k n
      → (get_from_mem_cache redis codec uuid config m now k).1
        ≡ (get_from_mem_cache redis codec uuid config n now k).1
  unfolding get_from_mem_cache
  get_from_mem_cache-same m n now k e = elim (Option-cases (find_entry k n)) [
    | inl none_there ↦
        rw (e ∙ none_there, get_from_mem_cache) (rw (none_there, get_from_mem_cache) refl)
    | inr (entry, there) ↦ elim (Bool-cases (ltb_ℤ entry.expires_at now)) [
      | inl old ↦ rw (e ∙ there, get_from_mem_cache) (rw (there, get_from_mem_cache) (rw old refl))
      | inr fresh ↦
          rw (e ∙ there, get_from_mem_cache) (rw (there, get_from_mem_cache) (rw fresh refl))
    ]
  ]

  delete_keys-get :
      (pattern k : Str) (store : Store) (keys : List Str)
      → match_pattern k pattern ≡ false
      → All (λ j. match_pattern j pattern ≡ true) keys
      → redis.get (delete_keys redis codec uuid config store keys) k ≡ redis.get store k
  unfolding delete_keys
  delete_keys-get pattern k store [] h all = refl
  delete_keys-get pattern k store (j ∷ keys) h (m, all) =
      delete_keys-get pattern k (redis.del store j).0 keys h all
      ∙ redis.get-del_ne store j k (apart_of_match pattern j k m h)

  delete_scanned-get :
      (pattern k : Str) (store : Store) (scanned : Scan)
      → match_pattern k pattern ≡ false
      → ScanMatches pattern scanned
      → redis.get (delete_scanned redis codec uuid config store scanned) k ≡ redis.get store k
  unfolding delete_scanned
  delete_scanned-get pattern k store scan_failed h all = refl
  delete_scanned-get pattern k store (last_page keys) h all =
      delete_keys-get pattern k store keys h all
  delete_scanned-get pattern k store (next_page keys rest) h (all, later) =
      delete_scanned-get pattern k (delete_keys redis codec uuid config store keys) rest h later
      ∙ delete_keys-get pattern k store keys h all

  -- Two states that agree on a key give the same answer for it.
  get_cached_context-same :
      (s t : Store) (m n : MemCache) (now : ℤ) (key : Str)
      → redis.get s (prefix_key key) ≡ redis.get t (prefix_key key)
      → find_entry (prefix_key key) m ≡ find_entry (prefix_key key) n
      → (get_cached_context redis codec uuid config (s, m) now key).1
        ≡ (get_cached_context redis codec uuid config (t, n) now key).1
  unfolding get_cached_context get_from_mem_cache
  get_cached_context-same s t m n now key e f =
      let k = prefix_key key in
      let kept = get_from_mem_cache-same m n now k f in
      elim (Bool-cases config.enabled) [
        | inr off ↦ rw off refl
        | inl on ↦ elim (Bool-cases config.use_redis) [
          | inr memory ↦ rw on (rw memory kept)
          | inl remote ↦ elim (Reply-cases (redis.get t k)) [
            | inr (inl got) ↦ rw on (rw remote (rw (e ∙ got) (rw got refl)))
            | inr (inr (x, got)) ↦ rw on (rw remote (rw (e ∙ got) (rw got kept)))
            | inl (bytes, got) ↦ elim (Result-cases (codec.unmarshal bytes)) [
              | inl (r, d) ↦ rw on (rw remote (rw (e ∙ got) (rw got (rw d refl))))
              | inr (inl (x, d)) ↦ rw on (rw remote (rw (e ∙ got) (rw got (rw d refl))))
              | inr (inr d) ↦ rw on (rw remote (rw (e ∙ got) (rw got (rw d refl))))
            ]
          ]
        ]
      ]

  -- On a key that the pattern does not match `InvalidateCache` changes no answer, where SCAN returns
  -- only keys that match.
  pub invalidate_cache-get_ne :
      (store : Store) (mem : MemCache) (scanned : Scan) (pattern key : Str) (now : ℤ)
      → ScanMatches (prefix_key pattern) scanned
      → match_pattern (prefix_key key) (prefix_key pattern) ≡ false
      → (get_cached_context redis codec uuid config
          (invalidate_cache redis codec uuid config (store, mem) scanned pattern)
          now
          key).1
        ≡ (get_cached_context redis codec uuid config (store, mem) now key).1
  unfolding invalidate_cache
  invalidate_cache-get_ne store mem scanned pattern key now all h =
      let k = prefix_key key in
      let found : find_entry k (delete_matching (prefix_key pattern) mem) ≡ find_entry k mem =
        find_entry-delete_matching (prefix_key pattern) k mem ∙ rw h refl in
      elim (Bool-cases config.enabled) [
        | inr off ↦ rw (off, invalidate_cache) refl
        | inl on ↦ elim (Bool-cases config.use_redis) [
          | inl remote ↦
              simp (on, invalidate_cache)
                (simp remote (
                  get_cached_context-same _ store _ mem now key
                    (delete_scanned-get (prefix_key pattern) k store scanned h all) found))
          | inr memory ↦
              simp (on, invalidate_cache)
                (simp memory (get_cached_context-same store store _ mem now key refl found))
        ]
      ]

  -- `InvalidateAgentCache` changes the answer for no key of at most 32 characters, where SCAN returns
  -- only keys that match.
  pub invalidate_agent_cache-get :
      (store : Store) (mem : MemCache) (scanned : Scan) (a : ℕ) (key : Str) (now : ℤ)
      → ScanMatches (prefix_key (agent_pattern uuid a)) scanned
      → length key ≤ 32
      → (get_cached_context redis codec uuid config
          (invalidate_agent_cache redis codec uuid config (store, mem) scanned a)
          now
          key).1
        ≡ (get_cached_context redis codec uuid config (store, mem) now key).1
  unfolding invalidate_agent_cache
  invalidate_agent_cache-get store mem scanned a key now all h =
      invalidate_cache-get_ne store mem scanned (agent_pattern uuid a) key now all
        (agent_pattern-short uuid a key h)
