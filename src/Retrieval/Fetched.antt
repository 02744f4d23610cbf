-- ===== src/Retrieval/Fetched.antt =====
-- What the pages of services/impl/document_context_impl.go come to.
use mathlib.Core.Path.{subst}
use tas_agent_builder.Base.{
  ℕ, zero, suc, ◌+◌, ◌≡◌, refl, sym, ap, ◌∙◌, Bool-cases, true, false, inl, inr, Str, List, [], ◌∷◌,
  ◌++◌, append-nil, append_assoc, ℤ, pos, ◌+ℤ◌, ◌≤ℤ◌, ◌<ℤ◌, ltb_ℤ, if◌then◌else◌, ◌⊎◌, ltb_ℤ_true,
  ltb_ℤ_false, pos_part, neg_part, int_laws, arith, ok,
}
use tas_agent_builder.External.{HttpReply, answered}
use tas_agent_builder.Retrieval.Pages.{
  AudiModalChunk, AudiModalResponse, estimate_token_count, total_count_of, max_token_budget,
  take_chunks, is_last, fetch_pages, fetch_chunks_for_file,
}

unfoldable pub tokens_of : List AudiModalChunk → ℤ
tokens_of [] = pos 0
tokens_of (chunk ∷ chunks) = estimate_token_count chunk.content +ℤ tokens_of chunks

tokens_of-append :
    (xs ys : List AudiModalChunk) → tokens_of (xs ++ ys) ≡ tokens_of xs +ℤ tokens_of ys
unfolding tokens_of
tokens_of-append [] ys = omega int_laws
tokens_of-append (x ∷ xs) ys =
    let rest = tokens_of-append xs ys in omega (int_laws, ap pos_part rest, ap neg_part rest)

-- The next chunk, if there is one, does not fit when `tokens` are taken.
abbrev pub Stops : ℤ → List AudiModalChunk → Type 0
Stops tokens [] = Unit
Stops tokens (chunk ∷ chunks) = pos 50000 <ℤ tokens +ℤ estimate_token_count chunk.content

-- `got` is the longest beginning of `available` that fits after `tokens`.
pub record IsLongest (tokens : ℤ) (available got : List AudiModalChunk) : Type 0 where
  pub within : tokens +ℤ tokens_of got ≤ℤ pos 50000
  pub rest : List AudiModalChunk
  pub first : got ++ rest ≡ available
  pub longest : Stops (tokens +ℤ tokens_of got) rest

-- Either all chunks of a page are taken, or the next one does not fit.
take_chunks_lem :
    (tokens : ℤ) (chunks : List AudiModalChunk)
    → tokens ≤ℤ pos 50000
    → let (taken, (now, stopped)) = take_chunks tokens chunks in
      (now ≡ tokens +ℤ tokens_of taken)
      × (now ≤ℤ pos 50000)
      × (((stopped ≡ false) × (taken ≡ chunks))
          ⊎ ((stopped ≡ true)
              × (chunk : AudiModalChunk) × (after : List AudiModalChunk) × (taken ++ (chunk ∷ after)
                  ≡ chunks)
              × (pos 50000 <ℤ now +ℤ estimate_token_count chunk.content)))
unfolding take_chunks tokens_of max_token_budget
take_chunks_lem tokens [] h = (omega int_laws, h, inl (refl, refl))
take_chunks_lem tokens (chunk ∷ chunks) h =
    let next = tokens +ℤ estimate_token_count chunk.content in
    elim (Bool-cases (ltb_ℤ (pos 50000) next)) [
      | inl over ↦
          rw (over, take_chunks)
            (omega int_laws, h, inr (refl, chunk, chunks, refl, ltb_ℤ_true (pos 50000) next over))
      | inr fits ↦
          let (sum, within, end) =
            take_chunks_lem next chunks (ltb_ℤ_false (pos 50000) next fits) in
          rw (fits, take_chunks)
            (
              sum ∙ omega int_laws,
              within,
              elim end [
                | inl (going, whole) ↦ inl (going, ap (λ l. chunk ∷ l) whole)
                | inr (stop, c, after, split, over) ↦
                    inr (stop, c, after, ap (λ l. chunk ∷ l) split, over)
              ],
            )
    ]

-- All chunks of a page, and the longest beginning of those after it.
IsLongest-append :
    (tokens now : ℤ) (page more got : List AudiModalChunk)
    → now ≡ tokens +ℤ tokens_of page
    → IsLongest now more got
    → IsLongest tokens (page ++ more) (page ++ got)
IsLongest-append tokens now page more got sum longest =
    let both = tokens_of-append page got in
    let e : tokens +ℤ tokens_of (page ++ got) ≡ now +ℤ tokens_of got =
      omega (int_laws, ap pos_part both, ap neg_part both, ap pos_part sum, ap neg_part sum) in
    record {
      within = rw (e) longest.within;
      rest = longest.rest;
      first = append_assoc page got longest.rest ∙ ap (λ l. page ++ l) longest.first;
      longest = rw (e) longest.longest;
    }

-- Chunks that are taken from a page until one does not fit, or until the page ends and no more come.
IsLongest-taken :
    (tokens now : ℤ) (taken rest all : List AudiModalChunk)
    → now ≡ tokens +ℤ tokens_of taken
    → now ≤ℤ pos 50000
    → taken ++ rest ≡ all
    → Stops now rest
    → IsLongest tokens all taken
IsLongest-taken tokens now taken rest all sum within first stops = record {
  within = omega (int_laws, within, ap pos_part sum, ap neg_part sum);
  rest = rest;
  first = first;
  longest = subst (λ n. Stops n rest) sum stops;
}

module _ (decimal : ℤ → Str) (page_of : ℕ → HttpReply AudiModalResponse)
    (pages : ℕ → AudiModalResponse) (bodies : ℕ → Str)
    (answers : (page : ℕ) → page_of page ≡ answered 200 (bodies page) (ok (pages page))) where
  -- The chunks of at most `n` pages from `page` on, through the last page.
  unfoldable pub available : ℕ → ℕ → List AudiModalChunk
  available zero page = []
  available (suc n) page =
      let more = available n (page + 1) in
      (pages page).chunks ++ (if is_last (pages page) then [] else more)

  fetch_pages_lem :
      (left page : ℕ) (all : List AudiModalChunk) (tokens total : ℤ)
      → tokens ≤ℤ pos 50000
      → (got : List AudiModalChunk) × (counted : ℤ) × (fetch_pages decimal page_of left page all
            tokens total
          ≡ ok (all ++ got, counted))
        × IsLongest tokens (available left page) got
  unfolding fetch_pages available tokens_of
  fetch_pages_lem zero page all tokens total h = (
    [],
    total,
    ap (λ l. ok (l, total)) (sym (append-nil all)),
    record { within = omega (int_laws, h); rest = []; first = refl; longest = tt },
  )
  fetch_pages_lem (suc left) page all tokens total h =
      let r = pages page in
      let more = if is_last r then [] else available left (page + 1) in
      let (taken, (now, stopped)) = take_chunks tokens r.chunks in
      let (sum, within, end) = take_chunks_lem tokens r.chunks h in
      elim end [
        | inr (stop, chunk, after, split, over) ↦ (
          taken,
          total_count_of r,
          rw (answers page, fetch_pages, stop) refl,
          IsLongest-taken tokens now taken (chunk ∷ (after ++ more)) (r.chunks ++ more) sum within
              (sym (append_assoc taken (chunk ∷ after) more) ∙ ap (λ l. l ++ more) split) over,
        )
        | inl (going, whole) ↦ elim (Bool-cases (is_last r)) [
          | inl last ↦ (
            taken,
            total_count_of r,
            rw (answers page, fetch_pages, going, last) refl,
            rw (last) (
                IsLongest-taken tokens now taken [] (r.chunks ++ []) sum within
                  (ap (λ l. l ++ []) whole) tt),
          )
          | inr further ↦
              let (got, counted, result, longest) =
                fetch_pages_lem left (page + 1) (all ++ taken) now (total_count_of r) within in
              let later = available left (page + 1) in
              (
                taken ++ got,
                counted,
                rw (answers page, fetch_pages, going, further)
                    (result ∙ ap (λ l. ok (l, counted)) (append_assoc all taken got)),
                rw (further) (
                    subst (λ l. IsLongest tokens (l ++ later) (taken ++ got)) whole
                      (IsLongest-append tokens now taken later got sum longest)),
              )
        ]
      ]

  -- When AudiModal answers every page with chunks, `fetchChunksForFile` returns the longest
  -- beginning of the chunks of the pages, through the last page or page 100, that is within the
  -- token budget of 50000.
  pub fetch_chunks_for_file-IsLongest :
      (got : List AudiModalChunk) × (counted : ℤ) × (fetch_chunks_for_file decimal page_of
        ≡ ok (got, counted))
      × IsLongest (pos 0) (available 100 1) got
  unfolding fetch_chunks_for_file
  fetch_chunks_for_file-IsLongest = fetch_pages_lem 100 1 [] (pos 0) (pos 0) (omega arith)
