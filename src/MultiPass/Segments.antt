-- ===== src/MultiPass/Segments.antt =====
-- The segments of services/impl/multipass_service_impl.go. The estimate of the tokens of a text is
-- the document service's, and a parameter.
use tas_agent_builder.Base.{
  if◌then◌else◌, ◌&&◌, ◌||◌, not, Bool, true, false, Str, codes, str_eq, is_nil, List, [], ◌∷◌,
  ◌++◌, reverse, none, length, ℤ, pos, ltb_ℤ, leb_ℤ, ◌+ℤ◌,
}
use tas_agent_builder.Models.Document.{RetrievedChunk, ContextInjectionResult, ContextStrategy}

-- A text is in a list, for the set `documentSet` of a segment.
unfoldable pub mem_text : Str → List Str → Bool
mem_text s [] = false
mem_text s (t ∷ rest) = str_eq s t || mem_text s rest

unfoldable pub add_text : Str → List Str → List Str
unfolding mem_text
add_text s set = if mem_text s set then set else s ∷ set

-- The state of the loop of `formatSegment`: the text, `currentDocID` and `documentSet`.
pub record Writing : Type 0 where
  pub written : Str
  pub current : Str
  pub documents : List Str

-- The header of a document, where a chunk starts a new one.
unfoldable pub document_header : RetrievedChunk → Writing → Writing
unfolding add_text
document_header chunk w =
    if not (str_eq chunk.document_id w.current) && not (is_nil chunk.document_id)
    then record {
      written =
          w.written
          ++ ((if is_nil w.current then [] else 10 ∷ [])
              ++ (codes "--- Document: "
                  ++ ((if is_nil chunk.document_name
                        then chunk.document_id
                        else chunk.document_name)
                      ++ (codes " ---" ++ (10 ∷ [])))));
      current = chunk.document_id;
      documents = add_text chunk.document_id w.documents;
    }
    else w

unfoldable pub write_chunks : Writing → List RetrievedChunk → Writing
unfolding document_header
write_chunks w [] = w
write_chunks w (chunk ∷ rest) =
    let headed = document_header chunk w in
    write_chunks (record headed { written = headed.written ++ (chunk.content ++ (10 ∷ [])) }) rest

unfoldable pub format_segment : List RetrievedChunk → ℤ → ContextInjectionResult
unfolding write_chunks
format_segment chunks total_tokens =
    let start : Writing = record {
      written = 10 ∷ (codes "--- DOCUMENT SEGMENT ---" ++ (10 ∷ 10 ∷ []));
      current = [];
      documents = [];
    } in
    let w = write_chunks start chunks in
    record {
      formatted_context = w.written ++ (10 ∷ (codes "--- END SEGMENT ---" ++ (10 ∷ [])));
      chunk_count = pos (length chunks);
      document_count = pos (length w.documents);
      total_tokens = total_tokens;
      strategy = ContextStrategy.full;
      truncated = false;
      metadata = none;
    }

module _ (estimate : Str → ℤ) where
  -- The loop of `getOverlapChunks`, on the chunks from the last to the first.
  unfoldable pub overlap_from :
      ℤ → ℤ → List RetrievedChunk → List RetrievedChunk → List RetrievedChunk
  overlap_from overlap_tokens tokens [] taken = taken
  overlap_from overlap_tokens tokens (chunk ∷ before) taken =
      let more =
        overlap_from overlap_tokens (tokens +ℤ estimate chunk.content) before (chunk ∷ taken) in
      if ltb_ℤ tokens overlap_tokens then more else taken

  unfoldable pub get_overlap_chunks : List RetrievedChunk → ℤ → List RetrievedChunk
  unfolding overlap_from
  get_overlap_chunks chunks overlap_tokens =
      if leb_ℤ overlap_tokens (pos 0)
      then []
      else overlap_from overlap_tokens (pos 0) (reverse chunks) []

  unfoldable pub count_tokens : ℤ → List RetrievedChunk → ℤ
  count_tokens tokens [] = tokens
  count_tokens tokens (chunk ∷ rest) = count_tokens (tokens +ℤ estimate chunk.content) rest

  -- A segment before it is formatted: its chunks and the tokens counted for them.
  abbrev pub Segment : Type 0
  Segment = List RetrievedChunk × ℤ

  unfoldable pub overflows : ℤ → Segment → RetrievedChunk → Bool
  overflows segment_size (current, tokens) chunk =
      ltb_ℤ segment_size (tokens +ℤ estimate chunk.content) && not (is_empty_list current)
    where
      is_empty_list : List RetrievedChunk → Bool
      is_empty_list [] = true
      is_empty_list (c ∷ rest) = false

  unfoldable pub with_chunk : Segment → RetrievedChunk → Segment
  with_chunk (current, tokens) chunk = (current ++ (chunk ∷ []), tokens +ℤ estimate chunk.content)

  unfoldable pub next_segment : ℤ → List RetrievedChunk → Segment
  next_segment overlap_tokens current =
      let overlap = get_overlap_chunks current overlap_tokens in
      (overlap, count_tokens (pos 0) overlap)

  -- The loop of `segmentDocuments` from a current segment on, with the final segment.
  unfoldable pub segments_from : ℤ → ℤ → Segment → List RetrievedChunk → List Segment
  unfolding overflows with_chunk next_segment
  segments_from segment_size overlap_tokens ([], tokens) [] = []
  segments_from segment_size overlap_tokens (c ∷ current, tokens) [] = (c ∷ current, tokens) ∷ []
  segments_from segment_size overlap_tokens current (chunk ∷ rest) =
      let cut =
        segments_from segment_size overlap_tokens
          (with_chunk (next_segment overlap_tokens current.0) chunk) rest in
      let grown = segments_from segment_size overlap_tokens (with_chunk current chunk) rest in
      if overflows segment_size current chunk then current ∷ cut else grown

  unfoldable pub format_segments : List Segment → List ContextInjectionResult
  unfolding format_segment
  format_segments [] = []
  format_segments ((chunks, tokens) ∷ rest) = format_segment chunks tokens ∷ format_segments rest

  unfoldable pub segment_documents : List RetrievedChunk → ℤ → ℤ → List ContextInjectionResult
  unfolding format_segments segments_from
  segment_documents chunks segment_size overlap_tokens =
      format_segments (segments_from segment_size overlap_tokens ([], pos 0) chunks)
