-- ===== src/Memory/Working/Chunks.antt =====
-- Which chunks `SetDocumentContext` of services/memory/working_memory.go keeps, and what it counts.
use tas_agent_builder.Base.{
  ◌≡◌, refl, sym, ap, ◌∙◌, Bool-cases, List, [], ◌∷◌, ◌++◌, append-nil, ℤ, pos, ltb_ℤ, ◌+ℤ◌, ◌≤ℤ◌,
  ◌<ℤ◌, ltb_ℤ_true, ltb_ℤ_false, zero-+ℤ, +ℤ-zero, +ℤ_assoc, inl, inr,
}
use tas_agent_builder.Models.Document.{RetrievedChunk}
use tas_agent_builder.Models.Memory.{MemoryConfig}
use tas_agent_builder.Memory.Working.{
  chunk_tokens, count_tokens, trim_chunks_from, trim_chunks, fit_chunks,
}

unfoldable pub chunk_sum : List RetrievedChunk → ℤ
chunk_sum [] = pos 0
chunk_sum (chunk ∷ rest) = chunk_tokens chunk +ℤ chunk_sum rest

-- The counting loop adds the sum to its start.
pub count_tokens-chunk_sum :
    (total : ℤ) (cs : List RetrievedChunk) → count_tokens total cs ≡ total +ℤ chunk_sum cs
unfolding count_tokens chunk_sum
count_tokens-chunk_sum total [] = sym (+ℤ-zero total)
count_tokens-chunk_sum total (c ∷ cs) =
    count_tokens-chunk_sum (total +ℤ chunk_tokens c) cs
    ∙ +ℤ_assoc total (chunk_tokens c) (chunk_sum cs)

pub count_tokens-zero : (cs : List RetrievedChunk) → count_tokens (pos 0) cs ≡ chunk_sum cs
count_tokens-zero cs = count_tokens-chunk_sum (pos 0) cs ∙ zero-+ℤ (chunk_sum cs)

-- Nothing is left over, or the first chunk left over would have passed the limit.
abbrev pub Blocked : ℤ → ℤ → List RetrievedChunk → Type 0
Blocked limit total [] = Unit {0}
Blocked limit total (next ∷ rest) = limit <ℤ total +ℤ chunk_tokens next

-- `kept` is the longest prefix of `cs` that one can take chunk by chunk within the limit.
pub record LongestPrefix (limit : ℤ) (cs kept : List RetrievedChunk) : Type 0 where
  pub rest : List RetrievedChunk
  pub splits : cs ≡ kept ++ rest
  pub fits : chunk_sum kept ≤ℤ limit
  pub blocked : Blocked limit (chunk_sum kept) rest

-- The loop from any total: what it keeps, what it reports, and why it stops.
record Trimmed (limit total : ℤ) (cs kept : List RetrievedChunk) (sum : ℤ) : Type 0 where
  rest : List RetrievedChunk
  splits : cs ≡ kept ++ rest
  summed : sum ≡ total +ℤ chunk_sum kept
  fits : sum ≤ℤ limit
  blocked : Blocked limit sum rest

trim_chunks_from-Trimmed :
    (limit total : ℤ) (cs : List RetrievedChunk)
    → total ≤ℤ limit
    → Trimmed limit total cs (trim_chunks_from limit total cs).0 (trim_chunks_from limit total cs).1
unfolding trim_chunks_from chunk_sum
trim_chunks_from-Trimmed limit total [] h = record {
  rest = [];
  splits = refl;
  summed = sym (+ℤ-zero total);
  fits = h;
  blocked = tt;
}
trim_chunks_from-Trimmed limit total (c ∷ cs) h =
    elim (Bool-cases (ltb_ℤ limit (total +ℤ chunk_tokens c))) [
      | inl over ↦ rw over (record {
        rest = c ∷ cs;
        splits = refl;
        summed = sym (+ℤ-zero total);
        fits = h;
        blocked = ltb_ℤ_true limit (total +ℤ chunk_tokens c) over;
      })
      | inr under ↦
          let t =
            trim_chunks_from-Trimmed limit (total +ℤ chunk_tokens c) cs
              (ltb_ℤ_false limit (total +ℤ chunk_tokens c) under) in
          rw under (record {
            rest = t.rest;
            splits = ap (◌∷◌ c) t.splits;
            summed = t.summed ∙ +ℤ_assoc total (chunk_tokens c) _;
            fits = t.fits;
            blocked = t.blocked;
          })
    ]

-- With a token limit that is not negative, the chunks kept are the longest prefix within the limit
-- (all of them if they fit), and the total that is stored is their sum.
pub fit_chunks-LongestPrefix :
    (config : MemoryConfig) (cs : List RetrievedChunk)
    → pos 0 ≤ℤ config.working_memory_max_tokens
    → LongestPrefix config.working_memory_max_tokens cs (fit_chunks config cs).0
      × ((fit_chunks config cs).1 ≡ chunk_sum (fit_chunks config cs).0)
unfolding fit_chunks trim_chunks
fit_chunks-LongestPrefix config cs h =
    let limit = config.working_memory_max_tokens in
    elim (Bool-cases (ltb_ℤ limit (count_tokens (pos 0) cs))) [
      | inl over ↦
          let t = trim_chunks_from-Trimmed limit (pos 0) cs h in
          let sum = t.summed ∙ zero-+ℤ (chunk_sum (trim_chunks_from limit (pos 0) cs).0) in
          rw over (
            record {
              rest = t.rest;
              splits = t.splits;
              fits = rw (← sum) t.fits;
              blocked = rw (← sum) t.blocked;
            },
            sum,
          )
      | inr under ↦ rw under (
        record {
          rest = [];
          splits = sym (append-nil cs);
          fits = rw (← count_tokens-zero cs) (ltb_ℤ_false limit (count_tokens (pos 0) cs) under);
          blocked = tt;
        },
        count_tokens-zero cs,
      )
    ]
