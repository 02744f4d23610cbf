-- ===== src/MultiPass/Passes.antt =====
-- What `ExecuteMultiPass` of services/impl/multipass_service_impl.go returns.
use tas_agent_builder.Base.{
  length-take, ℕ, suc, ◌+◌, ◌≤◌, ◌≡◌, refl, sym, ap, ◌∙◌, ◌⊎◌, inl, inr, Bool-cases, true, Str,
  List, [], ◌∷◌, ◌++◌, append-nil, Option, length, take, drop, take-append-drop, length-take-le, ℤ,
  pos, ltb_ℤ, ◌+ℤ◌, ◌≤ℤ◌, ltb_ℤ_true, ltb_ℤ_false, ltb_ℤ_of_le, +ℤ-zero, zero-+ℤ, +ℤ_assoc, ok,
  arith,
}
use tas_agent_builder.Models.Agent.{Agent, AgentLlmConfig}
use tas_agent_builder.Models.Services.{Message, RouterResponse}
use tas_agent_builder.Models.Document.{
  DocumentContextResult, ContextInjectionResult, SegmentResult, MultiPassResult,
}
use tas_agent_builder.MultiPass.Execute.{
  Sender, get_multi_pass_config, limit_passes, segment_result, segment_messages, process_segments,
  aggregation_messages, aggregate_results, multi_pass_result, finish, run_segments, segments_of,
  execute_multi_pass,
}

-- The tokens of the requests for the segments.
unfoldable pub used : List SegmentResult → ℤ
used [] = pos 0
used (r ∷ rest) = r.tokens_used +ℤ used rest

-- The passes of a request: the first segments, at least one and at most the limit.
pub record Passes (max_passes : ℤ) (segments passes : List ContextInjectionResult) : Type 0 where
  pub left : List ContextInjectionResult
  pub first : segments ≡ passes ++ left
  pub some_pass : 1 ≤ length passes
  pub limited : pos (length passes) ≤ℤ max_passes
  pub most : (left ≡ []) ⊎ (pos (length passes) ≡ max_passes)

limit_passes-Passes :
    (n : ℕ) (s : ContextInjectionResult) (segments : List ContextInjectionResult)
    → (passes : List ContextInjectionResult) × (limit_passes (pos (suc n)) (s ∷ segments)
        ≡ ok passes)
      × Passes (pos (suc n)) (s ∷ segments) passes
unfolding limit_passes
limit_passes-Passes n s segments =
    elim (Bool-cases (ltb_ℤ (pos (suc n)) (pos (length (s ∷ segments))))) [
      | inr whole ↦ (
        s ∷ segments,
        rw whole refl,
        record {
          left = [];
          first = sym (append-nil (s ∷ segments));
          some_pass = omega arith;
          limited = ltb_ℤ_false (pos (suc n)) (pos (length (s ∷ segments))) whole;
          most = inl refl;
        },
      )
      | inl cut ↦ (
        s ∷ take n segments,
        rw cut (rw (ltb_ℤ_of_le (pos (suc n)) (pos 0) (omega arith)) refl),
        record {
          left = drop n segments;
          first = ap (λ t. s ∷ t) (sym (take-append-drop n segments));
          some_pass = omega arith;
          limited = omega (arith, length-take-le n segments);
          most = inr (
              ap (λ k. pos (suc k))
                (length-take n segments
                  (omega (arith, ltb_ℤ_true (pos (suc n)) (pos (length (s ∷ segments))) cut))));
        },
      )
    ]

module _ (router : Sender) (decimal : ℤ → Str) (estimate : Str → ℤ) where
  open router use {State}

  -- A router that answers every request.
  abbrev pub AlwaysAnswers : Type 0
  AlwaysAnswers =
      (state : State) (config : AgentLlmConfig) (messages : List Message) (user_id : ℕ)
      → (r : RouterResponse) × ((router.send_request state config messages user_id).1 ≡ ok r)

  -- One result for each segment, in order, with the segment's text and its number, and the content
  -- and the tokens that the router answered to the prompt for this segment.
  abbrev pub Answers :
      State → Agent → Str → ℕ → ℕ → ℕ → List ContextInjectionResult → List SegmentResult → Type 0
  Answers state agent user_input user_id total i [] [] = Unit
  Answers state agent user_input user_id total i [] (r ∷ results) = ⊥
  Answers state agent user_input user_id total i (s ∷ segments) [] = ⊥
  Answers state agent user_input user_id total i (s ∷ segments) (r ∷ results) =
      let sent =
        router.send_request state agent.llm_config
          (segment_messages router decimal estimate agent s user_input i total) user_id in
      (response : RouterResponse) × (sent.1 ≡ ok response)
      × (r.segment_number ≡ pos (i + 1))
      × (r.content ≡ s.formatted_context)
      × (r.partial_result ≡ response.content)
      × (r.tokens_used ≡ response.token_usage)
      × Answers sent.0 agent user_input user_id total (i + 1) segments results

  -- The answer is the only partial result, or what the router says of all of them.
  abbrev pub Combined : Agent → Str → ℕ → List SegmentResult → Str → Type 0
  Combined agent user_input user_id [] answer = ⊥
  Combined agent user_input user_id (r ∷ []) answer = answer ≡ r.partial_result
  Combined agent user_input user_id (r ∷ next ∷ rest) answer =
      (state : State) × (response : RouterResponse) × ((router.send_request state agent.llm_config
          (aggregation_messages router decimal estimate agent (r ∷ next ∷ rest) user_input)
          user_id).1
        ≡ ok response)
      × (answer ≡ response.content)

  length-Answers :
      (agent : Agent) (user_input : Str) (user_id total : ℕ)
      (segments : List ContextInjectionResult) (results : List SegmentResult) (state : State)
      (i : ℕ)
      → Answers state agent user_input user_id total i segments results
      → length results ≡ length segments
  length-Answers agent user_input user_id total [] [] state i h = refl
  length-Answers agent user_input user_id total [] (r ∷ results) state i h = absurd h
  length-Answers agent user_input user_id total (s ∷ segments) [] state i h = absurd h
  length-Answers agent user_input user_id total (s ∷ segments) (r ∷ results) state i
        (_, _, _, _, _, _, h) =
      ap suc (length-Answers agent user_input user_id total segments results _ (i + 1) h)

  process_segments_lem :
      AlwaysAnswers
      → (state : State) (agent : Agent) (user_input : Str) (user_id total i : ℕ) (tokens : ℤ)
        (segments : List ContextInjectionResult)
      → (results : List SegmentResult) × (sum : ℤ) × ((process_segments router decimal estimate
            state agent user_input user_id total i tokens segments).1
          ≡ ok (results, sum))
        × (sum ≡ tokens +ℤ used results)
        × Answers state agent user_input user_id total i segments results
  unfolding process_segments used segment_result
  process_segments_lem always state agent user_input user_id total i tokens [] =
      ([], tokens, refl, sym (+ℤ-zero tokens), tt)
  process_segments_lem always state agent user_input user_id total i tokens (s ∷ segments) =
      let messages = segment_messages router decimal estimate agent s user_input i total in
      let (r, answered) = always state agent.llm_config messages user_id in
      let (results, sum, e, counted, h) =
        process_segments_lem always (router.send_request state agent.llm_config messages user_id).0
          agent user_input user_id total (i + 1) (tokens +ℤ r.token_usage) segments in
      (
        segment_result i s r ∷ results,
        sum,
        rw (answered, process_segments) (rw e refl),
        counted ∙ +ℤ_assoc tokens r.token_usage (used results),
        (r, answered, refl, refl, refl, refl, h),
      )

  finish_lem :
      AlwaysAnswers
      → (state : State) (agent : Agent) (user_input : Str) (user_id : ℕ)
        (results : List SegmentResult) (tokens : ℤ)
      → 1 ≤ length results
      → (answer : Str) × ((finish router decimal estimate state agent user_input user_id results
            tokens).1
          ≡ ok (multi_pass_result router decimal estimate results answer tokens))
        × Combined agent user_input user_id results answer
  unfolding finish aggregate_results
  finish_lem always state agent user_input user_id [] tokens h = absurd (omega arith)
  finish_lem always state agent user_input user_id (r ∷ []) tokens h =
      (r.partial_result, refl, refl)
  finish_lem always state agent user_input user_id (r ∷ next ∷ rest) tokens h =
      let messages =
        aggregation_messages router decimal estimate agent (r ∷ next ∷ rest) user_input in
      let (a, answered) = always state agent.llm_config messages user_id in
      (a.content, rw (answered, finish, aggregate_results) refl, (state, a, answered, refl))

  run_segments_lem :
      AlwaysAnswers
      → (state : State) (agent : Agent) (user_input : Str) (user_id : ℕ)
        (passes : List ContextInjectionResult)
      → 1 ≤ length passes
      → (result : MultiPassResult) × ((run_segments router decimal estimate state agent user_input
            user_id passes).1
          ≡ ok result)
        × Answers state agent user_input user_id (length passes) 0 passes result.segments
        × Combined agent user_input user_id result.segments result.aggregated_result
        × (result.total_passes ≡ pos (length passes))
        × (result.total_tokens ≡ used result.segments)
  unfolding run_segments multi_pass_result
  run_segments_lem always state agent user_input user_id passes some_pass =
      let (results, sum, processed, counted, h) =
        process_segments_lem always state agent user_input user_id (length passes) 0 (pos 0)
          passes in
      let lengths =
        length-Answers agent user_input user_id (length passes) passes results state 0 h in
      let (answer, finished, combined) =
        finish_lem always
          (process_segments router decimal estimate state agent user_input user_id (length passes) 0
            (pos 0) passes).0
          agent user_input user_id results sum (omega (arith, some_pass, lengths)) in
      (
        multi_pass_result router decimal estimate results answer sum,
        rw (processed, run_segments) finished,
        h,
        combined,
        ap pos lengths,
        counted ∙ zero-+ℤ (used results),
      )

  -- With multi-pass enabled, a limit on passes of at least one, at least one segment and a router
  -- that answers, `ExecuteMultiPass` returns a result: for each of the first segments up to the
  -- limit, in order, the content and the tokens that the router answered to its prompt, the number
  -- of these segments and the sum of these tokens; the final result is the only partial one, or the
  -- router's answer to a prompt with all of them.
  pub execute_multi_pass-Answers :
      AlwaysAnswers
      → (state : State) (agent : Agent) (documents : Option DocumentContextResult)
        (user_input : Str) (user_id n : ℕ) (s : ContextInjectionResult)
        (segments : List ContextInjectionResult)
      → (get_multi_pass_config agent).enabled ≡ true
      → (get_multi_pass_config agent).max_passes ≡ pos (suc n)
      → segments_of router decimal estimate (get_multi_pass_config agent) documents ≡ s ∷ segments
      → (result : MultiPassResult) × (passes : List ContextInjectionResult) × ((execute_multi_pass
            router decimal estimate state agent documents user_input user_id).1
          ≡ ok result)
        × Passes (pos (suc n)) (s ∷ segments) passes
        × Answers state agent user_input user_id (length passes) 0 passes result.segments
        × Combined agent user_input user_id result.segments result.aggregated_result
        × (result.total_passes ≡ pos (length passes))
        × (result.total_tokens ≡ used result.segments)
  unfolding execute_multi_pass
  execute_multi_pass-Answers always state agent documents user_input user_id n s segments on limit
        cut =
      let (passes, limited, p) = limit_passes-Passes n s segments in
      let (result, run, h, combined, lengths, counted) =
        run_segments_lem always state agent user_input user_id passes p.some_pass in
      (result, passes, simp (on, cut, limit, limited) run, p, h, combined, lengths, counted)
