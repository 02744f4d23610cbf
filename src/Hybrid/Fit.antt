-- ===== src/Hybrid/Fit.antt =====
-- `fitToTokenBudget` of services/impl/hybrid_context.go.
use tas_agent_builder.Base.{
  min_ℤ, if◌then◌else◌, ◌&&◌, not, Str, str_eq, List, [], ◌∷◌, ◌++◌, none, some, map, ℤ, pos, ◌+ℤ◌,
  ◌-ℤ◌, ltb_ℤ, leb_ℤ,
}
use tas_agent_builder.Floats.{FloatOps}
use tas_agent_builder.Memory.Tokens.{contains}
use tas_agent_builder.Models.Hybrid.{HybridContextConfig, HybridPriorityTier, ScoredChunk}
use tas_agent_builder.Hybrid.Score.{Parts, chunk_key, put, lookup, by_score}

-- A `map[string]int`, whose missing keys read as 0.
abbrev pub Counts : Type 0
Counts = List (Str × ℤ)

unfoldable pub count_at : Str → Counts → ℤ
unfolding lookup
count_at key counts = elim (lookup key counts) [ none ↦ pos 0 | some n ↦ n ]

-- The budget of one tier, of `budget` tokens in all.
unfoldable pub tier_share : FloatOps → ℤ → HybridPriorityTier → ℤ
tier_share f budget tier =
    let share = f.to_int (f.mul (f.of_int budget) tier.percentage) in
    if ltb_ℤ (pos 0) tier.max_tokens && ltb_ℤ tier.max_tokens share then tier.max_tokens else share

unfoldable pub tier_budgets : FloatOps → ℤ → List HybridPriorityTier → Counts → Counts
unfolding put tier_share
tier_budgets f budget [] counts = counts
tier_budgets f budget (tier ∷ tiers) counts =
    tier_budgets f budget tiers (put tier.name (tier_share f budget tier) counts)

-- `tierChunks[name]`
unfoldable pub tier_chunks : Str → List ScoredChunk → List ScoredChunk
tier_chunks name [] = []
tier_chunks name (chunk ∷ chunks) =
    let rest = tier_chunks name chunks in
    if str_eq chunk.priority_tier name then chunk ∷ rest else rest

-- The chunks that a tier's loop appends to `result`, and `tierUsedTokens` after it.
unfoldable pub fill_tier : ℤ → ℤ → List ScoredChunk → List ScoredChunk × ℤ
fill_tier budget used [] = ([], used)
fill_tier budget used (chunk ∷ chunks) =
    let fits = leb_ℤ (used +ℤ chunk.estimated_tokens) budget in
    let (more, total) =
      fill_tier budget (if fits then used +ℤ chunk.estimated_tokens else used) chunks in
    (if fits then chunk ∷ more else more, total)

-- The first pass over the tiers: what it appends, `remainingBudget` and `tierBreakdown` after it.
unfoldable pub fill_tiers :
    Counts
    → List ScoredChunk
    → List HybridPriorityTier
    → ℤ
    → Counts
    → List ScoredChunk × (ℤ × Counts)
unfolding fill_tier tier_chunks count_at min_ℤ put
fill_tiers budgets chunks [] remaining breakdown = ([], (remaining, breakdown))
fill_tiers budgets chunks (tier ∷ tiers) remaining breakdown =
    let (got, used) =
      fill_tier (min_ℤ (count_at tier.name budgets) remaining) (pos 0)
        (tier_chunks tier.name chunks) in
    let (more, end) =
      fill_tiers budgets chunks tiers (remaining -ℤ used) (put tier.name used breakdown) in
    (got ++ more, end)

-- The second pass, with the keys of the chunks that are in `result`: what it appends, and
-- `tierBreakdown` after it.
unfoldable pub fill_rest : List Str → List ScoredChunk → ℤ → Counts → List ScoredChunk × Counts
unfolding chunk_key contains count_at put
fill_rest keys [] remaining breakdown = ([], breakdown)
fill_rest keys (chunk ∷ chunks) remaining breakdown =
    let key = chunk_key chunk.chunk in
    let fits = not (contains key keys) && leb_ℤ chunk.estimated_tokens remaining in
    let (more, end) =
      fill_rest (if fits then key ∷ keys else keys) chunks
        (if fits then remaining -ℤ chunk.estimated_tokens else remaining)
        (if fits
          then put chunk.priority_tier
              (count_at chunk.priority_tier breakdown +ℤ chunk.estimated_tokens) breakdown
          else breakdown) in
    (if fits then chunk ∷ more else more, end)

unfoldable pub second_pass :
    List ScoredChunk → List ScoredChunk → ℤ → Counts → List ScoredChunk × Counts
unfolding fill_rest chunk_key
second_pass chunks result remaining breakdown =
    let (more, end) =
      fill_rest (map (λ chunk. chunk_key chunk.chunk) result) chunks remaining breakdown in
    if ltb_ℤ (pos 0) remaining then (result ++ more, end) else (result, breakdown)

-- A budget that is not positive is none: every chunk is kept, and the map is nil.
unfoldable pub fit_to_token_budget :
    Parts → HybridContextConfig → List ScoredChunk → List ScoredChunk × Counts
unfolding tier_budgets fill_tiers second_pass by_score
fit_to_token_budget parts cfg chunks =
    let budgets = tier_budgets parts.floats cfg.token_budget cfg.priority_tiers [] in
    let (first, (remaining, breakdown)) =
      fill_tiers budgets chunks cfg.priority_tiers cfg.token_budget [] in
    let (result, end) = second_pass chunks first remaining breakdown in
    if leb_ℤ cfg.token_budget (pos 0) then (chunks, []) else (by_score parts cfg result, end)
