-- ===== src/Retrieval/Injected.antt =====
-- What the text for a prompt of services/impl/document_context_impl.go holds.
use tas_agent_builder.Base.{
  ℕ, suc, ◌≡◌, refl, ap, ◌⊎◌, Bool, Bool-cases, true, false, inl, inr, List, [], ◌∷◌, ◌++◌, some,
  length, ℤ, pos, ◌+ℤ◌, ◌≤ℤ◌, ◌<ℤ◌, ltb_ℤ, ltb_ℤ_true, ltb_ℤ_false, ltb_ℤ_of_lt, pos_part, neg_part,
  int_laws,
}
use tas_agent_builder.Floats.{FloatOps}
use tas_agent_builder.Models.Document.{
  RetrievedChunk, DocumentContextResult, ContextInjectionResult,
}
use tas_agent_builder.MultiPass.Segments.{Writing, write_chunks}
use tas_agent_builder.Retrieval.Pages.{estimate_token_count}
use tas_agent_builder.Retrieval.Inject.{
  context_start, context_end, write_chunk, exceeds, include_chunks, start, inject,
  format_context_for_injection,
}

unfoldable pub chunk_tokens : List RetrievedChunk → ℤ
chunk_tokens [] = pos 0
chunk_tokens (chunk ∷ chunks) = estimate_token_count chunk.content +ℤ chunk_tokens chunks

-- What the loop writes of the chunks: the first ones that fit, after `tokens`.
pub record Included (max_tokens tokens : ℤ) (w : Writing) (chunks : List RetrievedChunk)
    (written : Writing) (included : ℕ) (truncated : Bool) : Type 0 where
  pub shown : List RetrievedChunk
  pub left : List RetrievedChunk
  pub split : shown ++ left ≡ chunks
  pub text : written ≡ write_chunks w shown
  pub count : included ≡ length shown
  -- A limit of 0 or less is none.
  pub within : (max_tokens ≤ℤ pos 0) ⊎ (shown ≡ []) ⊎ (tokens +ℤ chunk_tokens shown ≤ℤ max_tokens)
  pub longest :
      ((truncated ≡ false) × (left ≡ []))
      ⊎ ((truncated ≡ true)
          × (chunk : RetrievedChunk) × (after : List RetrievedChunk) × (left ≡ chunk ∷ after)
          × (pos 0 <ℤ max_tokens)
          × (max_tokens <ℤ tokens +ℤ chunk_tokens shown +ℤ estimate_token_count chunk.content))

exceeds-true :
    (max_tokens tokens : ℤ) (chunk : RetrievedChunk)
    → exceeds max_tokens tokens chunk ≡ true
    → (pos 0 <ℤ max_tokens) × (max_tokens <ℤ tokens +ℤ estimate_token_count chunk.content)
unfolding exceeds
exceeds-true max_tokens tokens chunk h = elim (Bool-cases (ltb_ℤ (pos 0) max_tokens)) [
  | inl limited ↦ (ltb_ℤ_true (pos 0) max_tokens limited, ltb_ℤ_true max_tokens _ (rw limited at h))
  | inr free ↦ cc (rw free at h)
]

exceeds-false :
    (max_tokens tokens : ℤ) (chunk : RetrievedChunk)
    → exceeds max_tokens tokens chunk ≡ false
    → pos 0 <ℤ max_tokens
    → tokens +ℤ estimate_token_count chunk.content ≤ℤ max_tokens
unfolding exceeds
exceeds-false max_tokens tokens chunk h limited =
    let on = ltb_ℤ_of_lt (pos 0) max_tokens limited in
    ltb_ℤ_false max_tokens (tokens +ℤ estimate_token_count chunk.content) (rw on at h)

-- One more chunk that fits, before chunks that are within the limit after it.
within_more :
    (max_tokens tokens : ℤ) (chunk : RetrievedChunk) (more : List RetrievedChunk)
    → exceeds max_tokens tokens chunk ≡ false
    → (max_tokens ≤ℤ pos 0)
      ⊎ (more ≡ [])
      ⊎ (tokens +ℤ estimate_token_count chunk.content +ℤ chunk_tokens more ≤ℤ max_tokens)
    → (max_tokens ≤ℤ pos 0)
      ⊎ (chunk ∷ more ≡ [])
      ⊎ (tokens +ℤ chunk_tokens (chunk ∷ more) ≤ℤ max_tokens)
unfolding chunk_tokens
within_more max_tokens tokens chunk more fits within =
    elim (Bool-cases (ltb_ℤ (pos 0) max_tokens)) [
      | inl limited ↦
          let first =
            exceeds-false max_tokens tokens chunk fits (ltb_ℤ_true (pos 0) max_tokens limited) in
          elim within [
            | inl free ↦ inl free
            | inr (inl none_more) ↦
                let zero_more = ap chunk_tokens none_more in
                inr (inr (omega (int_laws, first, ap pos_part zero_more, ap neg_part zero_more)))
            | inr (inr below) ↦ inr (inr (omega (int_laws, below)))
          ]
      | inr free ↦ inl (ltb_ℤ_false (pos 0) max_tokens free)
    ]

include_chunks-Included :
    (max_tokens tokens : ℤ) (w : Writing) (chunks : List RetrievedChunk)
    → let (written, (included, truncated)) = include_chunks max_tokens tokens w chunks in
      Included max_tokens tokens w chunks written included truncated
unfolding include_chunks chunk_tokens write_chunks write_chunk
include_chunks-Included max_tokens tokens w [] = record {
  shown = [];
  left = [];
  split = refl;
  text = refl;
  count = refl;
  within = inr (inl refl);
  longest = inl (refl, refl);
}
include_chunks-Included max_tokens tokens w (chunk ∷ chunks) =
    let t = estimate_token_count chunk.content in
    elim (Bool-cases (exceeds max_tokens tokens chunk)) [
      | inl over ↦
          let (limited, much) = exceeds-true max_tokens tokens chunk over in
          rw (over, include_chunks)
            (record {
              shown = [];
              left = chunk ∷ chunks;
              split = refl;
              text = refl;
              count = refl;
              within = inr (inl refl);
              longest = inr (refl, chunk, chunks, refl, limited, omega (int_laws, much));
            })
      | inr fits ↦
          let rest =
            include_chunks-Included max_tokens (tokens +ℤ t) (write_chunk chunk w) chunks in
          let more = rest.shown in
          rw (fits, include_chunks)
            (record {
              shown = chunk ∷ more;
              left = rest.left;
              split = ap (λ l. chunk ∷ l) rest.split;
              text = rest.text;
              count = ap suc rest.count;
              within = within_more max_tokens tokens chunk more fits rest.within;
              longest = elim rest.longest [
                | inl all ↦ inl all
                | inr (stop, next, after, split, limited, much) ↦
                    inr (stop, next, after, split, limited, omega (int_laws, much))
              ];
            })
    ]

-- The context of a result with chunks: the text of the first chunks that fit between its two
-- marks, their number, and whether some were left out.
pub record IsInjected (result : DocumentContextResult) (max_tokens : ℤ)
    (context : ContextInjectionResult) : Type 0 where
  pub written : Writing
  pub included : ℕ
  pub chosen :
      Included max_tokens
        (estimate_token_count context_start)
        start
        result.chunks
        written
        included
        context.truncated
  pub text : context.formatted_context ≡ written.written ++ context_end
  pub count : context.chunk_count ≡ pos included

-- `FormatContextForInjection` writes, of a result with chunks, the longest beginning of them whose
-- tokens, with those of the opening mark, are within a positive limit, and says whether it left
-- chunks out.
pub format_context_for_injection-IsInjected :
    (f : FloatOps) (result : DocumentContextResult) (max_tokens : ℤ) (chunk : RetrievedChunk)
    (chunks : List RetrievedChunk)
    → result.chunks ≡ chunk ∷ chunks
    → IsInjected result max_tokens (format_context_for_injection f (some result) max_tokens)
unfolding format_context_for_injection inject
format_context_for_injection-IsInjected f result max_tokens chunk chunks e =
    let tokens = estimate_token_count context_start in
    let (written, (included, truncated)) =
      include_chunks max_tokens tokens start (chunk ∷ chunks) in
    let lem = include_chunks-Included max_tokens tokens start (chunk ∷ chunks) in
    rw (e, format_context_for_injection)
      (record {
        written = written;
        included = included;
        chosen = rw (e) lem;
        text = refl;
        count = refl;
      })
