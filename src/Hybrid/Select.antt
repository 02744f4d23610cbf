-- ===== src/Hybrid/Select.antt =====
-- The duplicates and the tiers of services/impl/hybrid_context.go. The map `seen` from a hash to an
-- index of `result` and the slice `result` are one list of pairs, in the order of `result`.
use tas_agent_builder.Base.{
  if◌then◌else◌, Str, codes, List, [], ◌∷◌, none, some, map, take, ℤ, pos, ◌+ℤ◌,
}
use tas_agent_builder.Cache.Keys.{hex}
use tas_agent_builder.Floats.{Float}
use tas_agent_builder.Models.Hybrid.{HybridPriorityTier, ScoredChunk}
use tas_agent_builder.Hybrid.Score.{Parts, sort_slice, put, lookup}

module _ (parts : Parts) where
  unfoldable pub hash_content : Str → Str
  unfolding hex
  hash_content content = take 16 (hex (parts.sha.sum content))

  -- The higher scoring of two versions.
  unfoldable pub better : ScoredChunk → ScoredChunk → ScoredChunk
  better existing chunk =
      if parts.floats.lt existing.combined_score chunk.combined_score then chunk else existing

  unfoldable pub deduplicate_from :
      List (Str × ScoredChunk) → ℤ → List ScoredChunk → List ScoredChunk × ℤ
  unfolding hash_content better put lookup
  deduplicate_from kept removed [] = (map (λ entry. entry.1) kept, removed)
  deduplicate_from kept removed (chunk ∷ chunks) =
      let h = hash_content chunk.chunk.content in
      elim (lookup h kept) [
        | some existing ↦
            deduplicate_from (put h (better existing chunk) kept) (removed +ℤ pos 1) chunks
        | none ↦ deduplicate_from (put h chunk kept) removed chunks
      ]

  unfoldable pub deduplicate_by_content : List ScoredChunk → List ScoredChunk × ℤ
  unfolding deduplicate_from
  deduplicate_by_content = deduplicate_from [] (pos 0)

  -- The name of the first tier that a score reaches, of the last one if it reaches none.
  unfoldable pub tier_of : HybridPriorityTier → List HybridPriorityTier → Float → Str
  tier_of tier [] score = tier.name
  tier_of tier (next ∷ tiers) score =
      let rest = tier_of next tiers score in
      if parts.floats.le tier.min_score score then tier.name else rest

  unfoldable pub sorted_tiers : List HybridPriorityTier → List HybridPriorityTier
  unfolding sort_slice
  sorted_tiers = sort_slice (λ a b. parts.floats.lt b.min_score a.min_score)

  unfoldable pub tier_name : List HybridPriorityTier → Float → Str
  unfolding tier_of
  tier_name [] score = codes "default"
  tier_name (tier ∷ tiers) score = tier_of tier tiers score

  unfoldable pub with_tier : List HybridPriorityTier → ScoredChunk → ScoredChunk
  unfolding tier_name
  with_tier tiers chunk = record chunk { priority_tier = tier_name tiers chunk.combined_score }

  unfoldable pub assign_priority_tiers :
      List HybridPriorityTier → List ScoredChunk → List ScoredChunk
  unfolding sorted_tiers with_tier
  assign_priority_tiers tiers chunks = map (with_tier (sorted_tiers tiers)) chunks
