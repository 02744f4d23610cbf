-- ===== src/Hybrid/Tests.antt =====
-- Instances of the theorems about services/impl/hybrid_context.go.
use tas_agent_builder.Base.{
  false, true, ltb, ◌≡◌, refl, Str, codes, List, [], ◌∷◌, ◌++◌, none, pos, ◌≤ℤ◌, length, arith, ℕ,
}
use tas_agent_builder.Memory.Samples.{sample_floats}
use tas_agent_builder.Models.Document.{RetrievedChunk}
use tas_agent_builder.Models.Hybrid.{
  ScoredChunk, HybridContextConfig, default_hybrid_context_config,
}
use tas_agent_builder.Hybrid.Sorted.{Sorted}
use tas_agent_builder.Floats.{Float}
use tas_agent_builder.Hybrid.Score.{Parts, score_vector_chunk, rune_text}
use tas_agent_builder.Hybrid.Select.{deduplicate_by_content}
use tas_agent_builder.Hybrid.Build.{build_hybrid_context}
use tas_agent_builder.Hybrid.Budget.{build_hybrid_context-within, build_hybrid_context-Sorted}
use tas_agent_builder.Hybrid.Distinct.{IsDeduplicated, deduplicate_by_content-IsDeduplicated}

abbrev zeros : List ℕ
zeros = 0 ∷ 0 ∷ 0 ∷ 0 ∷ 0 ∷ 0 ∷ 0 ∷ 0 ∷ []

abbrev parts : Parts
parts = record {
  floats = sample_floats;
  sha = record { sum = λ s. zeros ++ zeros ++ zeros ++ zeros; length-sum = λ s. refl };
  token_estimator = λ s. pos (length s);
  range_order = λ chunks. chunks;
}

abbrev piece : Str → Str → RetrievedChunk
piece id content = record {
  id = id;
  document_id = codes "d1";
  document_name = [];
  notebook_id = [];
  content = content;
  chunk_number = pos 0;
  total_chunks = pos 1;
  score = record { bits = 0 };
  distance = record { bits = 0 };
  metadata = none;
  content_type = [];
  language = [];
  page_number = none;
}

abbrev cfg : HybridContextConfig
cfg = record (default_hybrid_context_config sample_floats) { token_budget = pos 5 }

abbrev found : List RetrievedChunk
found = piece (codes "a") (codes "aaaa") ∷ piece (codes "b") (codes "bbb") ∷ []

abbrev whole : List RetrievedChunk
whole = piece (codes "b") (codes "bbb") ∷ piece (codes "c") (codes "ccc") ∷ []

abbrev scored : List ScoredChunk
scored =
    score_vector_chunk parts cfg (piece (codes "a") (codes "aaaa"))
    ∷ score_vector_chunk parts cfg (piece (codes "b") (codes "bbb"))
    ∷ []

-- U+20AC, and a surrogate.
euro : rune_text (pos 8364) ≡ 226 ∷ 130 ∷ 172 ∷ []
unfolding rune_text
euro = refl

surrogate : rune_text (pos 55296) ≡ 239 ∷ 191 ∷ 189 ∷ []
unfolding rune_text
surrogate = refl

build_hybrid_context-within_example :
    (build_hybrid_context parts cfg (pos 0) found whole).document_context.total_tokens
    ≤ℤ cfg.token_budget
build_hybrid_context-within_example =
    build_hybrid_context-within parts cfg (pos 0) found whole (omega arith)

deduplicate_by_content-IsDeduplicated_example :
    let (kept, removed) = deduplicate_by_content parts scored in
    IsDeduplicated parts scored kept removed
deduplicate_by_content-IsDeduplicated_example = deduplicate_by_content-IsDeduplicated parts scored

abbrev ordered_parts : Parts
ordered_parts = record parts { floats = record sample_floats { lt = λ a b. ltb a.bits b.bits } }

lt-asymmetric :
    (a b : Float) → ordered_parts.floats.lt a b ≡ true → ordered_parts.floats.lt b a ≡ false
lt-asymmetric a b h =
    let less : ltb a.bits b.bits ≡ true = h in
    let other : ltb b.bits a.bits ≡ false = ground (arith, less) in other

build_hybrid_context-Sorted_example :
    Sorted
      (λ a b. ordered_parts.floats.lt b.combined_score a.combined_score)
      (build_hybrid_context ordered_parts cfg (pos 0) found whole).scored_chunks
build_hybrid_context-Sorted_example =
    build_hybrid_context-Sorted ordered_parts cfg (pos 0) found whole (omega arith) lt-asymmetric
