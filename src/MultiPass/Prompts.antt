-- ===== src/MultiPass/Prompts.antt =====
-- The prompts of services/impl/multipass_service_impl.go.
use tas_agent_builder.Base.{
  ◌+◌, ℕ, Str, concat, codes, is_nil, if◌then◌else◌, List, [], ◌∷◌, ◌++◌, none, some, ℤ, pos,
}
use tas_agent_builder.Models.Agent.{Agent}
use tas_agent_builder.Models.Document.{ContextInjectionResult, SegmentResult}

abbrev line : Str → Str
line s = s ++ (10 ∷ [])

abbrev gap : Str
gap = 10 ∷ 10 ∷ []

unfoldable pub build_segment_system_prompt : Agent → Str
build_segment_system_prompt agent =
    let base : Str =
      codes
        "You are a document analysis assistant. Your task is to extract relevant information from the provided document segment." in
    if is_nil agent.system_prompt
    then base
    else agent.system_prompt ++ (gap ++ (codes "For this segment analysis task: " ++ base))

-- `decimal` prints a number, as "%d" does.
unfoldable pub build_extraction_prompt : (ℤ → Str) → ContextInjectionResult → Str → ℤ → ℤ → Str
build_extraction_prompt decimal segment user_input segment_num total_segments = concat (
    codes "This is segment "
    ∷ decimal segment_num
    ∷ codes " of "
    ∷ decimal total_segments
    ∷ codes " from the document(s)."
    ∷ gap
    ∷ line (codes "DOCUMENT CONTENT:")
    ∷ segment.formatted_context
    ∷ gap
    ∷ line (codes "USER QUESTION/TASK:")
    ∷ user_input
    ∷ gap
    ∷ line (codes "INSTRUCTIONS:")
    ∷ line (codes "1. Analyze the document content in this segment.")
    ∷ line (codes "2. Extract any information relevant to the user's question/task.")
    ∷ line (codes "3. If this segment contains relevant information, provide a detailed response.")
    ∷ line
        (codes "4. If this segment does not contain relevant information, indicate that briefly.")
    ∷ line (codes "5. Note any partial information that might need context from other segments.")
    ∷ [])

unfoldable pub partial_results : (ℤ → Str) → ℕ → List SegmentResult → Str
partial_results decimal i [] = []
partial_results decimal i (result ∷ rest) =
    codes "--- Segment "
    ++ (decimal (pos (i + 1))
        ++ (line (codes " Result ---")
            ++ (result.partial_result ++ (gap ++ partial_results decimal (i + 1) rest))))

-- The custom prompt of the agent's configuration, "" where there is none.
unfoldable pub custom_prompt : Agent → Str
custom_prompt agent = elim agent.document_context [
  | none ↦ []
  | some context ↦ elim context.multi_pass [ none ↦ [] | some config ↦ config.aggregation_prompt ]
]

unfoldable pub aggregation_prompt : (ℤ → Str) → Agent → List SegmentResult → Str → Str
unfolding custom_prompt partial_results
aggregation_prompt decimal agent results user_input =
    let built : Str = concat (
      codes
        "You are synthesizing information from multiple document segments to answer the user's question."
      ∷ gap
      ∷ line (codes "USER QUESTION/TASK:")
      ∷ user_input
      ∷ gap
      ∷ codes "PARTIAL RESULTS FROM DOCUMENT SEGMENTS:"
      ∷ gap
      ∷ partial_results decimal 0 results
      ∷ line (codes "INSTRUCTIONS:")
      ∷ line (codes "1. Synthesize the information from all segment results.")
      ∷ line (codes "2. Provide a comprehensive, well-organized response to the user's question.")
      ∷ line (codes "3. Remove any redundancy or duplicate information.")
      ∷ line (codes "4. If there are conflicting pieces of information, note them.")
      ∷ line (
          codes
            "5. Ensure the response is complete and addresses the user's original question/task.")
      ∷ []) in
    if is_nil (custom_prompt agent) then built else custom_prompt agent ++ (gap ++ built)
