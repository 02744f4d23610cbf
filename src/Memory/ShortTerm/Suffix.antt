-- ===== src/Memory/ShortTerm/Suffix.antt =====
-- The limits of the short-term buffer (`ShortTermMaxEntries`, `ShortTermMaxTokens` of
-- services/memory/short_term.go), and the longest tail of a conversation that meets them.
use tas_agent_builder.Base.{
  ℕ, ◌<◌, ◌≡◌, sym, ap, ◌∙◌, ◌⊎◌, List, [], ◌∷◌, ◌++◌, length, drop, ℤ, pos, ◌+ℤ◌, ◌≤ℤ◌, +ℤ-zero,
  zero-+ℤ, +ℤ_assoc,
}
use tas_agent_builder.Models.Memory.{MemoryEntry, ShortTermMemory, MemoryConfig}

-- The tokens that a list of entries holds.
unfoldable pub token_sum : List MemoryEntry → ℤ
token_sum [] = pos 0
token_sum (entry ∷ rest) = entry.token_count +ℤ token_sum rest

abbrev pub Fits : MemoryConfig → List MemoryEntry → Type 0
Fits config es =
    (pos (length es) ≤ℤ config.short_term_max_entries)
    × (token_sum es ≤ℤ config.short_term_max_tokens)

-- `kept` is what is left after dropping the fewest oldest entries that makes the rest fit; it is
-- empty if nothing fits.
pub record LongestFit (config : MemoryConfig) (es kept : List MemoryEntry) : Type 0 where
  pub dropped : ℕ
  pub is_suffix : kept ≡ drop dropped es
  pub fits : Fits config kept ⊎ (kept ≡ [])
  pub fewest : (k : ℕ) → k < dropped → ¬ Fits config (drop k es)

-- The running total is the sum over the entries.
abbrev pub IsCounted : ShortTermMemory → Type 0
IsCounted memory = memory.total_tokens ≡ token_sum memory.entries

pub token_sum-append :
    (es : List MemoryEntry) (e : MemoryEntry)
    → token_sum (es ++ (e ∷ [])) ≡ token_sum es +ℤ e.token_count
unfolding token_sum
token_sum-append [] e = +ℤ-zero e.token_count ∙ sym (zero-+ℤ e.token_count)
token_sum-append (x ∷ es) e =
    ap (◌+ℤ◌ x.token_count) (token_sum-append es e)
    ∙ sym (+ℤ_assoc x.token_count (token_sum es) e.token_count)
