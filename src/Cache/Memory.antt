-- ===== src/Cache/Memory.antt =====
-- The map of services/impl/cache_service_impl.go: what a lookup finds after each change.
use tas_agent_builder.Base.{
  ◌≡◌, refl, ap, if◌then◌else◌, Str, str_eq_iff, str_eq_refl, [], ◌∷◌, none, some, arith, ℤ, ◌+ℤ◌,
}
use tas_agent_builder.Cache.Keys.{match_pattern}
use tas_agent_builder.Cache.Service.{MemCache, find_entry, delete_matching, set_in_mem_cache}

pub find_entry-delete_matching :
    (pattern k : Str) (mem : MemCache)
    → find_entry k (delete_matching pattern mem)
      ≡ (if match_pattern k pattern then none else find_entry k mem)
unfolding find_entry delete_matching
find_entry-delete_matching pattern k [] = ground arith
find_entry-delete_matching pattern k ((j, e) ∷ mem) = ground (
  arith,
  str_eq_iff j k,
  ap (λ x. match_pattern x pattern) {x = j} {y = k},
  find_entry-delete_matching pattern k mem,
)

pub find_entry-set_in_mem_cache :
    (now ttl : ℤ) (k bytes : Str) (mem : MemCache)
    → find_entry k (set_in_mem_cache now k bytes ttl mem)
      ≡ some (record { bytes = bytes; expires_at = now +ℤ ttl })
unfolding find_entry set_in_mem_cache
find_entry-set_in_mem_cache now ttl k bytes mem = rw (str_eq_refl k) refl
