-- ===== src/Cache/Keys.antt =====
-- The keys and patterns of services/impl/cache_service_impl.go. SHA-256 is a parameter that returns
-- 32 bytes.
use tas_agent_builder.Base.{
  ℕ, ◌/◌, ◌-◌, ◌+◌, ◌*◌, ◌≡◌, if◌then◌else◌, ◌&&◌, ltb, leb, Bool, ◌==◌, Str, codes, str_eq, List,
  [], ◌∷◌, ◌++◌, map, Option, none, some, length, take, ℤ,
}
use tas_agent_builder.External.{UuidText}
use tas_agent_builder.Floats.{Float}
use tas_agent_builder.Models.Document.{VectorSearchRequest, ChunkRetrievalRequest}

-- crypto/sha256
pub record Sha256 : Type 0 where
  pub sum : Str → List ℕ
  pub length-sum : (s : Str) → length (sum s) ≡ 32

-- What `fmt.Sprintf` prints for "%d" and "%.2f".
pub record Numerals : Type 0 where
  pub decimal : ℤ → Str
  pub two_decimals : Float → Str

-- encoding/hex: two digits for each byte.
abbrev pub hex_digit : ℕ → ℕ
hex_digit n = if ltb n 10 then 48 + n else 87 + n

unfoldable pub hex : List ℕ → Str
hex [] = []
hex (b ∷ bs) = hex_digit (b / 16) ∷ hex_digit (b - (b / 16) * 16) ∷ hex bs

unfoldable pub prefix_key : Str → Str
prefix_key key = codes "doc_context:" ++ key

-- `pattern[len(pattern)-1] == '*'`, and the pattern before it.
unfoldable pub star_prefix : Str → Option Str
star_prefix [] = none
star_prefix (c ∷ []) = if c == 42 then some [] else none
star_prefix (c ∷ d ∷ rest) = elim (star_prefix (d ∷ rest)) [ none ↦ none | some p ↦ some (c ∷ p) ]

unfoldable pub match_pattern : Str → Str → Bool
unfolding star_prefix
match_pattern key pattern = elim (star_prefix pattern) [
  | some prefix ↦ leb (length prefix) (length key) && str_eq (take (length prefix) key) prefix
  | none ↦ str_eq key pattern
]

-- "%v" of a list of values: their texts in brackets, with a blank between two.
unfoldable pub join_blank : List Str → Str
join_blank [] = []
join_blank (s ∷ []) = s
join_blank (s ∷ t ∷ rest) = s ++ (32 ∷ join_blank (t ∷ rest))

unfoldable pub show_list : List Str → Str
unfolding join_blank
show_list ss = 91 ∷ (join_blank ss ++ (93 ∷ []))

module _ (sha : Sha256) (uuid : UuidText) (numerals : Numerals) where
  unfoldable pub hash_query : Str → Str
  unfolding hex
  hash_query query = hex (take 16 (sha.sum query))

  unfoldable pub generate_cache_key : ℕ → Option Str → Str → Str
  unfolding hex
  generate_cache_key agent_id none query_hash =
      take 16 (hex (sha.sum (uuid.to_string agent_id ++ query_hash)))
  generate_cache_key agent_id (some session_id) query_hash =
      take 16 (hex (sha.sum (uuid.to_string agent_id ++ (session_id ++ query_hash))))

  unfoldable pub generate_vector_search_cache_key : VectorSearchRequest → Str
  unfolding hash_query show_list
  generate_vector_search_cache_key req = hash_query (
      codes "vector:"
      ++ (req.tenant_id
          ++ (codes ":"
              ++ (req.query_text
                  ++ (codes ":"
                      ++ (show_list (map uuid.to_string req.notebook_ids)
                          ++ (codes ":"
                              ++ (show_list (map uuid.to_string req.document_ids)
                                  ++ (codes ":"
                                      ++ (numerals.decimal req.options.top_k
                                          ++ (codes ":"
                                              ++ numerals.two_decimals
                                                  req.options.min_score)))))))))))

  unfoldable pub generate_chunk_retrieval_cache_key : ChunkRetrievalRequest → Str
  unfolding hash_query show_list
  generate_chunk_retrieval_cache_key req = hash_query (
      codes "chunks:"
      ++ (req.tenant_id
          ++ (codes ":"
              ++ (show_list (map uuid.to_string req.file_ids)
                  ++ (codes ":"
                      ++ (show_list (map uuid.to_string req.notebook_ids)
                          ++ (codes ":"
                              ++ (show_list req.chunk_types
                                  ++ (codes ":"
                                      ++ (numerals.decimal req.limit
                                          ++ (codes ":" ++ numerals.decimal req.offset)))))))))))

  unfoldable pub generate_hybrid_cache_key : Str → ChunkRetrievalRequest → Float → Float → Str
  unfolding hash_query show_list
  generate_hybrid_cache_key query req vector_weight full_doc_weight = hash_query (
      codes "hybrid:"
      ++ (req.tenant_id
          ++ (codes ":"
              ++ (query
                  ++ (codes ":"
                      ++ (show_list (map uuid.to_string req.file_ids)
                          ++ (codes ":"
                              ++ (show_list (map uuid.to_string req.notebook_ids)
                                  ++ (codes ":"
                                      ++ (numerals.two_decimals vector_weight
                                          ++ (codes ":"
                                              ++ numerals.two_decimals full_doc_weight)))))))))))

-- The patterns of `InvalidateAgentCache` and `InvalidateSessionCache`.
unfoldable pub agent_pattern : UuidText → ℕ → Str
agent_pattern uuid agent_id = uuid.to_string agent_id ++ codes ":*"

unfoldable pub session_pattern : UuidText → ℕ → Str → Str
session_pattern uuid agent_id session_id =
    uuid.to_string agent_id ++ (codes ":" ++ (session_id ++ codes ":*"))
