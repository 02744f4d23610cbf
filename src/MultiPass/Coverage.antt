-- ===== src/MultiPass/Coverage.antt =====
-- What the segments of services/impl/multipass_service_impl.go cover.
use mathlib.Core.List.{reverse-cons, reverse-reverse}
use tas_agent_builder.Base.{
  ◌≡◌, refl, sym, ap, ◌∙◌, ◌⊎◌, inl, inr, false, Bool-cases, Str, List, [], ◌∷◌, ◌++◌, append-nil,
  append_assoc, reverse, length, ℤ, pos, ltb_ℤ, leb_ℤ, ltb_ℤ_false, ◌+ℤ◌, ◌≤◌, length-append, ◌≤ℤ◌,
  +ℤ_assoc, +ℤ-zero, zero-+ℤ, arith,
}
use tas_agent_builder.Models.Document.{RetrievedChunk}
use tas_agent_builder.MultiPass.Segments.{
  overlap_from, get_overlap_chunks, count_tokens, Segment, overflows, with_chunk, next_segment,
  segments_from, format_segments, segment_documents,
}

module _ (estimate : Str → ℤ) where
  unfoldable pub token_sum : List RetrievedChunk → ℤ
  token_sum [] = pos 0
  token_sum (chunk ∷ rest) = estimate chunk.content +ℤ token_sum rest

  token_sum-append :
      (xs ys : List RetrievedChunk) → token_sum (xs ++ ys) ≡ token_sum xs +ℤ token_sum ys
  unfolding token_sum
  token_sum-append [] ys = sym (zero-+ℤ (token_sum ys))
  token_sum-append (x ∷ xs) ys =
      ap (λ t. estimate x.content +ℤ t) (token_sum-append xs ys)
      ∙ sym (+ℤ_assoc (estimate x.content) (token_sum xs) (token_sum ys))

  count_tokens_lem :
      (tokens : ℤ) (xs : List RetrievedChunk)
      → count_tokens estimate tokens xs ≡ tokens +ℤ token_sum xs
  unfolding count_tokens token_sum
  count_tokens_lem tokens [] = sym (+ℤ-zero tokens)
  count_tokens_lem tokens (x ∷ xs) =
      count_tokens_lem (tokens +ℤ estimate x.content) xs
      ∙ +ℤ_assoc tokens (estimate x.content) (token_sum xs)

  token_sum-last :
      (xs : List RetrievedChunk) (chunk : RetrievedChunk)
      → token_sum (xs ++ (chunk ∷ [])) ≡ token_sum xs +ℤ estimate chunk.content
  unfolding token_sum
  token_sum-last xs chunk =
      token_sum-append xs (chunk ∷ [])
      ∙ ap (λ t. token_sum xs +ℤ t) (+ℤ-zero (estimate chunk.content))

  -- The chunks taken over from a segment are its last ones.
  abbrev pub Ends : List RetrievedChunk → List RetrievedChunk → Type 0
  Ends over whole = (before : List RetrievedChunk) × (whole ≡ before ++ over)

  overlap_from-Ends :
      (limit tokens : ℤ) (xs taken : List RetrievedChunk)
      → Ends (overlap_from estimate limit tokens xs taken) (reverse xs ++ taken)
  unfolding overlap_from
  overlap_from-Ends limit tokens [] taken = ([], refl)
  overlap_from-Ends limit tokens (x ∷ xs) taken = elim (Bool-cases (ltb_ℤ tokens limit)) [
    | inl more ↦
        let (before, e) = overlap_from-Ends limit (tokens +ℤ estimate x.content) xs (x ∷ taken) in
        (
          before,
          rw more (
              ap (λ r. r ++ taken) (reverse-cons x xs)
              ∙ append_assoc (reverse xs) (x ∷ []) taken
              ∙ e),
        )
    | inr done ↦ (reverse (x ∷ xs), rw done refl)
  ]

  get_overlap_chunks-Ends :
      (chunks : List RetrievedChunk) (overlap_tokens : ℤ)
      → Ends (get_overlap_chunks estimate chunks overlap_tokens) chunks
  unfolding get_overlap_chunks
  get_overlap_chunks-Ends chunks overlap_tokens = elim (Bool-cases (leb_ℤ overlap_tokens (pos 0))) [
    | inl off ↦ (chunks, rw off (sym (append-nil chunks)))
    | inr on ↦
        let (before, e) = overlap_from-Ends overlap_tokens (pos 0) (reverse chunks) [] in
        (before, rw on (sym (append-nil (reverse (reverse chunks)) ∙ reverse-reverse chunks) ∙ e))
  ]

  -- A segment: some last chunks of the one before and then at least one new chunk, its tokens
  -- counted, and within the size unless a single chunk is new.
  pub record IsSegment (segment_size : ℤ) (previous : List RetrievedChunk)
      (segment : Segment estimate) (fresh : List RetrievedChunk) : Type 0 where
    pub over : List RetrievedChunk
    pub content : segment.0 ≡ over ++ fresh
    pub taken_over : Ends over previous
    pub some_new : 1 ≤ length fresh
    pub is_counted : segment.1 ≡ token_sum segment.0
    pub size : (segment.1 ≤ℤ segment_size) ⊎ (length fresh ≡ 1)

  -- The segments in order: the new chunks of all of them are exactly the chunks.
  abbrev pub Covers :
      ℤ → List RetrievedChunk → List (Segment estimate) → List RetrievedChunk → Type 0
  Covers segment_size previous [] chunks = chunks ≡ []
  Covers segment_size previous (segment ∷ segments) chunks =
      (fresh later : List RetrievedChunk) × (chunks ≡ fresh ++ later)
      × IsSegment segment_size previous segment fresh
      × Covers segment_size segment.0 segments later

  nil_not-IsSegment :
      (segment_size : ℤ) (previous : List RetrievedChunk) (tokens : ℤ) (fresh : List RetrievedChunk)
      → ¬ IsSegment segment_size previous ([], tokens) fresh
  nil_not-IsSegment segment_size previous tokens fresh s =
      omega (arith, ap length s.content, length-append s.over fresh, s.some_new)

  -- The first chunk opens a segment of its own, whatever its length.
  first_lem :
      (segment_size overlap_tokens : ℤ) (chunk : RetrievedChunk) (rest : List RetrievedChunk)
      → segments_from estimate segment_size overlap_tokens ([], pos 0) (chunk ∷ rest)
        ≡ segments_from estimate segment_size overlap_tokens
            (with_chunk estimate ([], pos 0) chunk)
            rest
  unfolding segments_from overflows
  first_lem segment_size overlap_tokens chunk rest = ground arith

  first-IsSegment :
      (segment_size : ℤ) (chunk : RetrievedChunk)
      → IsSegment segment_size [] (with_chunk estimate ([], pos 0) chunk) (chunk ∷ [])
  unfolding with_chunk token_sum
  first-IsSegment segment_size chunk = record {
    over = [];
    content = refl;
    taken_over = ([], refl);
    some_new = omega arith;
    is_counted = sym (token_sum-last [] chunk);
    size = inr refl;
  }

  overflows-false :
      (segment_size tokens : ℤ) (c chunk : RetrievedChunk) (cs : List RetrievedChunk)
      → overflows estimate segment_size (c ∷ cs, tokens) chunk ≡ false
      → tokens +ℤ estimate chunk.content ≤ℤ segment_size
  unfolding overflows
  overflows-false segment_size tokens c chunk cs h =
      ltb_ℤ_false segment_size (tokens +ℤ estimate chunk.content) (ground arith)

  -- The segment that a chunk opens after a cut.
  opened :
      (segment_size overlap_tokens : ℤ) (current : List RetrievedChunk) (chunk : RetrievedChunk)
      → IsSegment segment_size current
          (with_chunk estimate (next_segment estimate overlap_tokens current) chunk)
          (chunk ∷ [])
  unfolding with_chunk next_segment
  opened segment_size overlap_tokens current chunk =
      let over = get_overlap_chunks estimate current overlap_tokens in
      record {
        over = over;
        content = refl;
        taken_over = get_overlap_chunks-Ends current overlap_tokens;
        some_new = omega arith;
        is_counted =
            ap (λ t. t +ℤ estimate chunk.content)
              (count_tokens_lem (pos 0) over ∙ zero-+ℤ (token_sum over))
            ∙ sym (token_sum-last over chunk);
        size = inr refl;
      }

  -- The segment that takes in one more chunk.
  grown :
      (segment_size : ℤ) (previous : List RetrievedChunk) (segment : Segment estimate)
      (fresh : List RetrievedChunk) (chunk : RetrievedChunk)
      → IsSegment segment_size previous segment fresh
      → overflows estimate segment_size segment chunk ≡ false
      → IsSegment segment_size previous (with_chunk estimate segment chunk) (fresh ++ (chunk ∷ []))
  unfolding with_chunk token_sum
  grown segment_size previous ([], tokens) fresh chunk s h =
      absurd (nil_not-IsSegment segment_size previous tokens fresh s)
  grown segment_size previous (c ∷ cs, tokens) fresh chunk s h = record {
    over = s.over;
    content = ap (λ cs. cs ++ (chunk ∷ [])) s.content ∙ append_assoc s.over fresh (chunk ∷ []);
    taken_over = s.taken_over;
    some_new = omega (arith, length-append fresh (chunk ∷ []), s.some_new);
    is_counted =
        ap (λ t. t +ℤ estimate chunk.content) s.is_counted ∙ sym (token_sum-last (c ∷ cs) chunk);
    size = inl (overflows-false segment_size tokens c chunk cs h);
  }

  segments_from-Covers :
      (segment_size overlap_tokens : ℤ) (previous : List RetrievedChunk)
      (segment : Segment estimate) (fresh rest : List RetrievedChunk)
      → IsSegment segment_size previous segment fresh
      → Covers segment_size previous
          (segments_from estimate segment_size overlap_tokens segment rest)
          (fresh ++ rest)
  unfolding segments_from
  segments_from-Covers segment_size overlap_tokens previous ([], tokens) fresh [] s =
      absurd (nil_not-IsSegment segment_size previous tokens fresh s)
  segments_from-Covers segment_size overlap_tokens previous (c ∷ cs, tokens) fresh [] s =
      (fresh, [], refl, s, refl)
  segments_from-Covers segment_size overlap_tokens previous segment fresh (chunk ∷ rest) s =
      elim (Bool-cases (overflows estimate segment_size segment chunk)) [
        | inl over ↦ rw over (
          fresh,
          chunk ∷ rest,
          refl,
          s,
          segments_from-Covers segment_size overlap_tokens segment.0 _ (chunk ∷ []) rest
              (opened segment_size overlap_tokens segment.0 chunk),
        )
        | inr under ↦
            let covered =
              segments_from-Covers segment_size overlap_tokens previous _ (fresh ++ (chunk ∷ []))
                rest (grown segment_size previous segment fresh chunk s under) in
            rw under (rw (append_assoc fresh (chunk ∷ []) rest) at covered)
      ]

  -- `segmentDocuments` formats segments that cover the chunks: each is some last chunks of the one
  -- before it followed by at least one new chunk, the new chunks of all are exactly the chunks in
  -- their order, and a segment of more than one new chunk is within the segment size.
  pub segment_documents-Covers :
      (chunks : List RetrievedChunk) (segment_size overlap_tokens : ℤ)
      → (segments : List (Segment estimate)) × (segment_documents estimate chunks segment_size
            overlap_tokens
          ≡ format_segments estimate segments)
        × Covers segment_size [] segments chunks
  unfolding segment_documents segments_from
  segment_documents-Covers [] segment_size overlap_tokens = ([], refl, refl)
  segment_documents-Covers (chunk ∷ rest) segment_size overlap_tokens = (
    segments_from estimate segment_size overlap_tokens (with_chunk estimate ([], pos 0) chunk) rest,
    ap (format_segments estimate) (first_lem segment_size overlap_tokens chunk rest),
    segments_from-Covers segment_size overlap_tokens [] _ (chunk ∷ []) rest
        (first-IsSegment segment_size chunk),
  )
