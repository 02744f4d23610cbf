-- ===== src/Hybrid/Score.antt =====
-- The scores of services/impl/hybrid_context.go. `range` over a map has no fixed order, so the order
-- is a parameter. `sort.Slice` is an insertion sort; Go's does not fix the order of two elements
-- that are equal in the order, and this one keeps it.
use tas_agent_builder.Base.{
  ℕ, ◌+◌, ◌-◌, ◌/◌, ◌%◌, if◌then◌else◌, ◌&&◌, ◌||◌, not, Bool, false, ltb, leb, Str, codes, str_eq,
  is_nil, List, [], ◌∷◌, ◌++◌, Option, none, some, map, ℤ, pos, negsuc, leb_ℤ,
}
use tas_agent_builder.Cache.Keys.{Sha256}
use tas_agent_builder.Floats.{Float, FloatOps}
use tas_agent_builder.Json.{Fields, get_field, as_text, as_boolean}
use tas_agent_builder.Models.Document.{RetrievedChunk}
use tas_agent_builder.Models.Hybrid.{
  HybridContextConfig, ScoredChunk, from_vector, from_full_doc, from_both,
}

-- What the builder takes from outside: floats, SHA-256, the estimate of tokens and the order of a
-- map.
pub record Parts : Type 0 where
  pub floats : FloatOps
  pub sha : Sha256
  pub token_estimator : Str → ℤ
  pub range_order : List ScoredChunk → List ScoredChunk

unfoldable pub insert {ℓ} : {A : Type ℓ} → (A → A → Bool) → A → List A → List A
insert less x [] = x ∷ []
insert less x (y ∷ ys) = let rest = insert less x ys in if less y x then y ∷ rest else x ∷ y ∷ ys

unfoldable pub sort_slice {ℓ} : {A : Type ℓ} → (A → A → Bool) → List A → List A
unfolding insert
sort_slice less [] = []
sort_slice less (x ∷ xs) = insert less x (sort_slice less xs)

abbrev tail : ℕ → ℕ
tail k = 128 + k % 64

-- The UTF-8 bytes of a code point, U+FFFD where it is none.
unfoldable pub utf8 : ℕ → Str
utf8 n =
    if ltb n 128
    then n ∷ []
    else if ltb n 2048
    then (192 + n / 64) ∷ tail n ∷ []
    else if ltb 1114111 n || (leb 55296 n && ltb n 57344)
    then 239 ∷ 191 ∷ 189 ∷ []
    else if ltb n 65536
    then (224 + n / 4096) ∷ tail (n / 64) ∷ tail n ∷ []
    else (240 + n / 262144) ∷ tail (n / 4096) ∷ tail (n / 64) ∷ tail n ∷ []

-- `string(rune(n))`; a negative rune is no code point.
unfoldable pub rune_text : ℤ → Str
unfolding utf8
rune_text (pos n) = utf8 (n % 4294967296)
rune_text (negsuc n) = utf8 (4294967296 - 1 - n % 4294967296)

unfoldable pub chunk_key : RetrievedChunk → Str
unfolding rune_text
chunk_key chunk =
    if not (is_nil chunk.id)
    then chunk.id
    else chunk.document_id ++ (95 ∷ rune_text chunk.chunk_number)

unfoldable pub calculate_position_score : FloatOps → ℤ → ℤ → Float
calculate_position_score f chunk_number total_chunks =
    let total = if leb_ℤ total_chunks (pos 0) then pos 100 else total_chunks in
    f.sub (f.ratio 1 1) (f.div (f.of_int chunk_number) (f.of_int total))

-- `b, ok := m[key].(bool); ok && b`
unfoldable pub is_marked : Str → Option Fields → Bool
is_marked key none = false
is_marked key (some m) = elim (as_boolean (get_field key m)) [ none ↦ false | some b ↦ b ]

unfoldable pub calculate_full_doc_score : FloatOps → RetrievedChunk → Float
unfolding is_marked
calculate_full_doc_score f chunk =
    let base = f.ratio 5 10 in
    let early = if leb_ℤ chunk.chunk_number (pos 2) then f.add base (f.ratio 3 10) else base in
    let headed =
      if is_marked (codes "is_header") chunk.metadata then f.add early (f.ratio 2 10) else early in
    if is_marked (codes "is_summary") chunk.metadata then f.add headed (f.ratio 3 10) else headed

unfoldable pub is_summary_type : Option Fields → Bool
is_summary_type none = false
is_summary_type (some m) = elim (as_text (get_field (codes "chunk_type") m)) [
  | none ↦ false
  | some t ↦
      str_eq t (codes "summary") || str_eq t (codes "abstract") || str_eq t (codes "introduction")
]

unfoldable pub calculate_summary_boost : FloatOps → HybridContextConfig → RetrievedChunk → Float
unfolding is_marked is_summary_type
calculate_summary_boost f cfg chunk =
    if not cfg.include_summaries
    then f.ratio 1 1
    else if is_marked (codes "is_summary") chunk.metadata
    then cfg.summary_boost
    else if is_summary_type chunk.metadata
    then cfg.summary_boost
    else f.ratio 1 1

unfoldable pub calculate_combined_score : FloatOps → HybridContextConfig → ScoredChunk → Float
calculate_combined_score f cfg sc =
    f.mul
      (f.add
        (f.add (f.mul sc.vector_score cfg.vector_weight)
          (f.mul sc.full_doc_score cfg.full_doc_weight))
        (f.mul sc.position_score cfg.position_weight))
      sc.boost

-- `m[key] = value`
unfoldable pub put {ℓ} : {A : Type ℓ} → Str → A → List (Str × A) → List (Str × A)
put key a [] = (key, a) ∷ []
put key a ((k, b) ∷ m) =
    let rest = put key a m in if str_eq k key then (k, a) ∷ m else (k, b) ∷ rest

-- `value, exists := m[key]`
unfoldable pub lookup {ℓ} : {A : Type ℓ} → Str → List (Str × A) → Option A
lookup key [] = none
lookup key ((k, b) ∷ m) = let rest = lookup key m in if str_eq k key then some b else rest

module _ (parts : Parts) (cfg : HybridContextConfig) where
  unfoldable pub with_score : ScoredChunk → ScoredChunk
  unfolding calculate_combined_score
  with_score sc = record sc { combined_score = calculate_combined_score parts.floats cfg sc }

  unfoldable pub score_vector_chunk : RetrievedChunk → ScoredChunk
  unfolding calculate_position_score calculate_summary_boost with_score
  score_vector_chunk chunk = with_score (record {
    chunk = chunk;
    vector_score = chunk.score;
    position_score = calculate_position_score parts.floats chunk.chunk_number chunk.total_chunks;
    full_doc_score = parts.floats.ratio 0 1;
    boost = calculate_summary_boost parts.floats cfg chunk;
    combined_score = parts.floats.ratio 0 1;
    source = from_vector;
    priority_tier = [];
    estimated_tokens = parts.token_estimator chunk.content;
  })

  unfoldable pub score_full_doc_chunk : RetrievedChunk → ScoredChunk
  unfolding calculate_position_score calculate_full_doc_score calculate_summary_boost with_score
  score_full_doc_chunk chunk = with_score (record {
    chunk = chunk;
    vector_score = parts.floats.ratio 0 1;
    position_score = calculate_position_score parts.floats chunk.chunk_number chunk.total_chunks;
    full_doc_score = calculate_full_doc_score parts.floats chunk;
    boost = calculate_summary_boost parts.floats cfg chunk;
    combined_score = parts.floats.ratio 0 1;
    source = from_full_doc;
    priority_tier = [];
    estimated_tokens = parts.token_estimator chunk.content;
  })

  unfoldable pub score_both : RetrievedChunk → ScoredChunk → ScoredChunk
  unfolding calculate_full_doc_score with_score
  score_both chunk existing = with_score (record existing {
    full_doc_score = calculate_full_doc_score parts.floats chunk;
    source = from_both;
  })

  unfoldable pub score_vector_chunks :
      List RetrievedChunk → List (Str × ScoredChunk) → List (Str × ScoredChunk)
  unfolding chunk_key put score_vector_chunk
  score_vector_chunks [] m = m
  score_vector_chunks (chunk ∷ chunks) m =
      score_vector_chunks chunks (put (chunk_key chunk) (score_vector_chunk chunk) m)

  unfoldable pub score_full_doc_chunks :
      List RetrievedChunk → List (Str × ScoredChunk) → List (Str × ScoredChunk)
  unfolding chunk_key put lookup score_both score_full_doc_chunk
  score_full_doc_chunks [] m = m
  score_full_doc_chunks (chunk ∷ chunks) m =
      let scored : ScoredChunk = elim (lookup (chunk_key chunk) m) [
        | some existing ↦ score_both chunk existing
        | none ↦ score_full_doc_chunk chunk
      ] in
      score_full_doc_chunks chunks (put (chunk_key chunk) scored m)

  unfoldable pub by_score : List ScoredChunk → List ScoredChunk
  unfolding sort_slice
  by_score = sort_slice (λ a b. parts.floats.lt b.combined_score a.combined_score)

  unfoldable pub score_all_chunks : List RetrievedChunk → List RetrievedChunk → List ScoredChunk
  unfolding score_vector_chunks score_full_doc_chunks by_score
  score_all_chunks vector_chunks full_doc_chunks = by_score (
      parts.range_order (
        map (λ entry. entry.1)
          (score_full_doc_chunks full_doc_chunks (score_vector_chunks vector_chunks []))))
