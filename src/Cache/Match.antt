-- ===== src/Cache/Match.antt =====
-- Which keys the patterns of services/impl/cache_service_impl.go match.
use tas_agent_builder.Base.{
  ℕ, ◌+◌, ◌≤◌, ◌<◌, ◌≡◌, refl, sym, ap, false, Str, codes, List, [], ◌∷◌, ◌++◌, append_assoc, some,
  length, take, length-append, length-take-le, arith,
}
use tas_agent_builder.External.{UuidText}
use tas_agent_builder.Cache.Keys.{
  Sha256, Numerals, hex, prefix_key, star_prefix, match_pattern, agent_pattern, hash_query,
}

pub star_prefix-append : (p : Str) → star_prefix (p ++ (42 ∷ [])) ≡ some p
unfolding star_prefix
star_prefix-append [] = refl
star_prefix-append (c ∷ []) = refl
star_prefix-append (c ∷ d ∷ p) = rw (star_prefix-append (d ∷ p)) refl

-- A key that is shorter than the text before the star is not matched.
match_pattern-short :
    (key p : Str) → length key < length p → match_pattern key (p ++ (42 ∷ [])) ≡ false
unfolding match_pattern
match_pattern-short key p h = rw (star_prefix-append p, match_pattern) (ground arith)

length-hex : (bytes : List ℕ) → length (hex bytes) ≡ length bytes + length bytes
unfolding hex
length-hex [] = refl
length-hex (b ∷ bytes) = omega (arith, length-hex bytes)

-- Every key that the services make has at most 32 characters.
pub length-hash_query :
    (sha : Sha256) (uuid : UuidText) (numerals : Numerals) (query : Str)
    → length (hash_query sha uuid numerals query) ≤ 32
unfolding hash_query
length-hash_query sha uuid numerals query =
    omega (arith, length-hex (take 16 (sha.sum query)), length-take-le 16 (sha.sum query))

-- The pattern of an agent, or of one of its sessions, is a text of at least 49 characters with a star.
long_pattern :
    (uuid : UuidText) (a : ℕ) (rest key : Str)
    → length key ≤ 32
    → match_pattern
        (prefix_key key)
        (prefix_key (uuid.to_string a ++ (codes ":" ++ (rest ++ codes "*"))))
      ≡ false
unfolding prefix_key
long_pattern uuid a rest key h =
    let p = codes "doc_context:" ++ (uuid.to_string a ++ (codes ":" ++ rest)) in
    let e : codes "doc_context:" ++ (uuid.to_string a ++ (codes ":" ++ (rest ++ codes "*")))
        ≡ p ++ (42 ∷ []) =
      ap (λ x. codes "doc_context:" ++ x)
        (sym (append_assoc (uuid.to_string a) (codes ":" ++ rest) (42 ∷ []))) in
    rw e (
      match_pattern-short (codes "doc_context:" ++ key) p (
        omega
          (arith, length-append (uuid.to_string a) (codes ":" ++ rest), uuid.length-to_string a)))

pub agent_pattern-short :
    (uuid : UuidText) (a : ℕ) (key : Str)
    → length key ≤ 32
    → match_pattern (prefix_key key) (prefix_key (agent_pattern uuid a)) ≡ false
unfolding agent_pattern
agent_pattern-short uuid a key h = long_pattern uuid a [] key h
