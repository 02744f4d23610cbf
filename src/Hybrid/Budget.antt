-- ===== src/Hybrid/Budget.antt =====
-- The token budget of services/impl/hybrid_context.go.
use tas_agent_builder.Base.{
  min_ℤ, ◌&&◌, ◌≡◌, refl, ap, ◌∙◌, Bool, Bool-cases, true, false, not, inl, inr, Str, List, [], ◌∷◌,
  ◌++◌, map, ℤ, pos, ◌+ℤ◌, ◌-ℤ◌, ◌≤ℤ◌, ◌<ℤ◌, ltb_ℤ, leb_ℤ, leb_ℤ_true, ltb_ℤ_false, pos_part,
  neg_part, int_laws, arith,
}
use tas_agent_builder.Memory.Tokens.{contains}
use tas_agent_builder.Models.Document.{RetrievedChunk}
use tas_agent_builder.Models.Hybrid.{HybridContextConfig, HybridPriorityTier, ScoredChunk}
use tas_agent_builder.Floats.{Float}
use tas_agent_builder.Hybrid.Sorted.{Sorted, sort_slice-Sorted}
use tas_agent_builder.Hybrid.Score.{Parts, chunk_key, insert, sort_slice, by_score, put}
use tas_agent_builder.Hybrid.Fit.{
  Counts, count_at, tier_budgets, tier_chunks, fill_tier, fill_tiers, fill_rest, second_pass,
  fit_to_token_budget,
}
use tas_agent_builder.Hybrid.Build.{total_tokens, build_hybrid_context}

total_tokens-append :
    (xs ys : List ScoredChunk) → total_tokens (xs ++ ys) ≡ total_tokens xs +ℤ total_tokens ys
unfolding total_tokens
total_tokens-append [] ys = omega int_laws
total_tokens-append (x ∷ xs) ys =
    let rest = total_tokens-append xs ys in omega (int_laws, ap pos_part rest, ap neg_part rest)

total_tokens-insert :
    (less : ScoredChunk → ScoredChunk → Bool) (x : ScoredChunk) (ys : List ScoredChunk)
    → total_tokens (insert less x ys) ≡ x.estimated_tokens +ℤ total_tokens ys
unfolding total_tokens insert
total_tokens-insert less x [] = refl
total_tokens-insert less x (y ∷ ys) =
    let rest = total_tokens-insert less x ys in
    elim (Bool-cases (less y x)) [
      | inl before ↦ rw (before) (ap (λ t. y.estimated_tokens +ℤ t) rest ∙ omega int_laws)
      | inr after ↦ rw (after) refl
    ]

total_tokens-sort :
    (less : ScoredChunk → ScoredChunk → Bool) (xs : List ScoredChunk)
    → total_tokens (sort_slice less xs) ≡ total_tokens xs
unfolding total_tokens sort_slice
total_tokens-sort less [] = refl
total_tokens-sort less (x ∷ xs) =
    total_tokens-insert less x (sort_slice less xs)
    ∙ ap (λ t. x.estimated_tokens +ℤ t) (total_tokens-sort less xs)

-- A tier's loop counts what it takes, and stays below any limit above its budget.
fill_tier_lem :
    (budget limit used : ℤ) (chunks : List ScoredChunk)
    → budget ≤ℤ limit
    → used ≤ℤ limit
    → ((fill_tier budget used chunks).1 ≡ used +ℤ total_tokens (fill_tier budget used chunks).0)
      × ((fill_tier budget used chunks).1 ≤ℤ limit)
unfolding total_tokens fill_tier
fill_tier_lem budget limit used [] h below = (omega int_laws, below)
fill_tier_lem budget limit used (chunk ∷ chunks) h below =
    let t = chunk.estimated_tokens in
    elim (Bool-cases (leb_ℤ (used +ℤ t) budget)) [
      | inl fits ↦
          let under = leb_ℤ_true (used +ℤ t) budget fits in
          let (total, within) = fill_tier_lem budget limit (used +ℤ t) chunks h (omega arith) in
          rw (fits) (total ∙ omega int_laws, within)
      | inr full ↦ rw (full) (fill_tier_lem budget limit used chunks h below)
    ]

min_ℤ-le : (a b : ℤ) → min_ℤ a b ≤ℤ b
unfolding min_ℤ
min_ℤ-le a b = elim (Bool-cases (ltb_ℤ b a)) [
  | inl less ↦ rw (less) (omega arith)
  | inr more ↦ rw (more) (ltb_ℤ_false b a more)
]

-- What the first pass takes and what remains add up to the budget, and what remains is not negative.
fill_tiers_lem :
    (budgets : Counts) (chunks : List ScoredChunk) (tiers : List HybridPriorityTier) (remaining : ℤ)
    (breakdown : Counts)
    → pos 0 ≤ℤ remaining
    → let (taken, (left, counts)) = fill_tiers budgets chunks tiers remaining breakdown in
      (total_tokens taken +ℤ left ≡ remaining) × (pos 0 ≤ℤ left)
unfolding total_tokens fill_tiers
fill_tiers_lem budgets chunks [] remaining breakdown h = (omega int_laws, h)
fill_tiers_lem budgets chunks (tier ∷ tiers) remaining breakdown h =
    let budget = min_ℤ (count_at tier.name budgets) remaining in
    let mine = tier_chunks tier.name chunks in
    let (got, used) = fill_tier budget (pos 0) mine in
    let (total, within) = fill_tier_lem budget remaining (pos 0) mine (min_ℤ-le _ remaining) h in
    let counts = put tier.name used breakdown in
    let (more, (left, end)) = fill_tiers budgets chunks tiers (remaining -ℤ used) counts in
    let (sum, enough) =
      fill_tiers_lem budgets chunks tiers (remaining -ℤ used) counts (omega (int_laws, within)) in
    (
      ap (λ t. t +ℤ left) (total_tokens-append got more)
          ∙ omega
              (int_laws, ap pos_part sum, ap neg_part sum, ap pos_part total, ap neg_part total),
      enough,
    )

-- The second pass takes at most what remained.
fill_rest_lem :
    (keys : List Str) (chunks : List ScoredChunk) (remaining : ℤ) (breakdown : Counts)
    → pos 0 ≤ℤ remaining
    → total_tokens (fill_rest keys chunks remaining breakdown).0 ≤ℤ remaining
unfolding total_tokens fill_rest
fill_rest_lem keys [] remaining breakdown h = h
fill_rest_lem keys (chunk ∷ chunks) remaining breakdown h =
    let t = chunk.estimated_tokens in
    let key = chunk_key chunk.chunk in
    elim (Bool-cases (not (contains key keys) && leb_ℤ t remaining)) [
      | inl fits ↦
          let under = leb_ℤ_true t remaining (and_right _ _ fits) in
          let rest =
            fill_rest_lem (key ∷ keys) chunks (remaining -ℤ t)
              (put chunk.priority_tier (count_at chunk.priority_tier breakdown +ℤ t) breakdown)
              (omega (int_laws, under)) in
          rw (fits) (omega (int_laws, rest))
      | inr skipped ↦ rw (skipped) (fill_rest_lem keys chunks remaining breakdown h)
    ]
  where
    and_right : (a b : Bool) → a && b ≡ true → b ≡ true
    and_right true b e = e
    and_right false b e = cc

second_pass_lem :
    (chunks result : List ScoredChunk) (remaining budget : ℤ) (breakdown : Counts)
    → total_tokens result +ℤ remaining ≡ budget
    → pos 0 ≤ℤ remaining
    → total_tokens (second_pass chunks result remaining breakdown).0 ≤ℤ budget
unfolding second_pass
second_pass_lem chunks result remaining budget breakdown sum h =
    elim (Bool-cases (ltb_ℤ (pos 0) remaining)) [
      | inl some_left ↦
          let keys = map (λ chunk. chunk_key chunk.chunk) result in
          let (more, end) = fill_rest keys chunks remaining breakdown in
          let rest = fill_rest_lem keys chunks remaining breakdown h in
          let both = total_tokens-append result more in
          rw (some_left) (
            omega (
              int_laws,
              rest,
              ap pos_part sum,
              ap neg_part sum,
              ap pos_part both,
              ap neg_part both,
            ))
      | inr used_up ↦ rw (used_up) (omega (int_laws, ap pos_part sum, ap neg_part sum))
    ]

-- With a positive budget `fitToTokenBudget` selects chunks of at most that many tokens, whatever
-- the tiers and the estimates are.
fit_to_token_budget-within :
    (parts : Parts) (cfg : HybridContextConfig) (chunks : List ScoredChunk)
    → pos 0 <ℤ cfg.token_budget
    → total_tokens (fit_to_token_budget parts cfg chunks).0 ≤ℤ cfg.token_budget
unfolding fit_to_token_budget by_score
fit_to_token_budget-within parts cfg chunks h =
    let budgets = tier_budgets parts.floats cfg.token_budget cfg.priority_tiers [] in
    let (first, (remaining, breakdown)) =
      fill_tiers budgets chunks cfg.priority_tiers cfg.token_budget [] in
    let (sum, enough) =
      fill_tiers_lem budgets chunks cfg.priority_tiers cfg.token_budget [] (omega arith) in
    let result = (second_pass chunks first remaining breakdown).0 in
    let on : leb_ℤ cfg.token_budget (pos 0) ≡ false = ground (arith, h) in
    rw (on) (
      rw (total_tokens-sort _ result)
        (second_pass_lem chunks first remaining cfg.token_budget breakdown sum enough))

-- With a positive token budget the chunks that `BuildHybridContext` returns have at most that many
-- tokens together, by the estimates that it was given.
pub build_hybrid_context-within :
    (parts : Parts) (cfg : HybridContextConfig) (took : ℤ)
    (vector_chunks full_doc_chunks : List RetrievedChunk)
    → pos 0 <ℤ cfg.token_budget
    → (build_hybrid_context parts cfg took vector_chunks
        full_doc_chunks).document_context.total_tokens
      ≤ℤ cfg.token_budget
unfolding build_hybrid_context
build_hybrid_context-within parts cfg took vector_chunks full_doc_chunks h =
    fit_to_token_budget-within parts cfg _ h

fit_to_token_budget-Sorted :
    (parts : Parts) (cfg : HybridContextConfig) (chunks : List ScoredChunk)
    → pos 0 <ℤ cfg.token_budget
    → ((a b : Float) → parts.floats.lt a b ≡ true → parts.floats.lt b a ≡ false)
    → Sorted
        (λ a b. parts.floats.lt b.combined_score a.combined_score)
        (fit_to_token_budget parts cfg chunks).0
unfolding fit_to_token_budget by_score
fit_to_token_budget-Sorted parts cfg chunks h asymmetric =
    let budgets = tier_budgets parts.floats cfg.token_budget cfg.priority_tiers [] in
    let (first, (remaining, breakdown)) =
      fill_tiers budgets chunks cfg.priority_tiers cfg.token_budget [] in
    let on : leb_ℤ cfg.token_budget (pos 0) ≡ false = ground (arith, h) in
    rw (on) (
      sort_slice-Sorted {A = ScoredChunk} (λ a b. parts.floats.lt b.combined_score a.combined_score)
        (λ a b. asymmetric b.combined_score a.combined_score)
        (second_pass chunks first remaining breakdown).0)

-- With a positive token budget, and a comparison of floats that is not both ways, the chunks that
-- `BuildHybridContext` returns are in descending order of their combined scores.
pub build_hybrid_context-Sorted :
    (parts : Parts) (cfg : HybridContextConfig) (took : ℤ)
    (vector_chunks full_doc_chunks : List RetrievedChunk)
    → pos 0 <ℤ cfg.token_budget
    → ((a b : Float) → parts.floats.lt a b ≡ true → parts.floats.lt b a ≡ false)
    → Sorted
        (λ a b. parts.floats.lt b.combined_score a.combined_score)
        (build_hybrid_context parts cfg took vector_chunks full_doc_chunks).scored_chunks
unfolding build_hybrid_context
build_hybrid_context-Sorted parts cfg took vector_chunks full_doc_chunks h asymmetric =
    fit_to_token_budget-Sorted parts cfg _ h asymmetric
