-- ===== src/Memory/Consolidation.antt =====
-- services/memory/consolidation.go: a session's conversation is summarised by the LLM router, and
-- the summary goes to long-term memory. The router is a parameter: its reply to a chat request is
-- the list of the choices' contents.
pub mod Taken
pub mod Session
pub mod Due
mod Tests
use tas_agent_builder.Base.{
  ◌+◌, ◌*◌, ℕ, ◌==◌, if◌then◌else◌, ◌&&◌, Bool, true, false, not, Str, codes, is_nil, List, [], ◌∷◌,
  ◌++◌, map, Option, none, some, length, take, ℤ, pos, pos_part, ltb_ℤ, ◌+ℤ◌, ◌-ℤ◌, Result, ok, err,
  panic, wrap, or_wrap,
}
use tas_agent_builder.External.{
  Redis, found, redis_nil, failed, Codec, UuidText, HttpReply, unreachable, answered, Printer,
}
use tas_agent_builder.Floats.{Float, FloatOps}
use tas_agent_builder.Models.Memory.{
  MemoryEntry, ShortTermMemory, LongTermMemoryEntry, MemoryConfig, ConsolidationRequest,
  ConsolidationResult, second,
}
use tas_agent_builder.Memory.LongTerm.{DeepLake, store_summary}
use tas_agent_builder.Memory.Prompts.{summary_system, summary_user, facts_system, facts_user}
use tas_agent_builder.Memory.ShortTerm.{get_conversation}
use tas_agent_builder.Memory.Tokens.{estimate_token_count}

pub record ChatRequest : Type 0 where
  pub system_prompt : Str
  pub user_prompt : Str
  pub max_tokens : ℤ
  pub temperature : Float

abbrev pub Chat : Type 0
Chat = ChatRequest → HttpReply (List Str)

unfoldable pub consolidation_key : UuidText → Str → ℕ → Str
consolidation_key uuid session_id agent_id =
    codes "memory:consolidation"
    ++ codes ":"
    ++ (uuid.to_string agent_id ++ (codes ":" ++ session_id))

-- "%s: %s\n" of the role and the content, for each entry.
unfoldable pub conversation_text : Str → List MemoryEntry → Str
conversation_text sofar [] = sofar
conversation_text sofar (entry ∷ rest) =
    conversation_text (sofar ++ (entry.role ++ (codes ": " ++ (entry.content ++ (10 ∷ []))))) rest

-- The content of the first choice, or the error that the code returns.
unfoldable pub first_choice : Printer → HttpReply (List Str) → Result Str
first_choice printer (unreachable e) = err (wrap "failed to call LLM router" e)
first_choice printer (answered status body decoded) =
    if not (status == 200)
    then err (
        codes "LLM router returned status "
        ++ (printer.decimal (pos status) ++ (codes ": " ++ body)))
    else elim (or_wrap "failed to decode response" decoded) [
      | ok [] ↦ err (codes "no response from LLM")
      | ok (choice ∷ rest) ↦ ok choice
      | err e ↦ err e
      | panic ↦ panic
    ]

unfoldable pub generate_summary : Chat → FloatOps → Printer → List MemoryEntry → ℤ → Result Str
generate_summary chat f printer [] max_tokens = ok []
generate_summary chat f printer (entry ∷ rest) max_tokens = first_choice printer (
    chat (record {
      system_prompt = summary_system;
      user_prompt = summary_user printer (conversation_text [] (entry ∷ rest)) max_tokens;
      max_tokens = max_tokens;
      temperature = f.ratio 3 10;
    }))

-- `entries[:req.MaxEntries]` where a limit is asked for.
unfoldable pub entries_to_process : ℤ → List MemoryEntry → List MemoryEntry
entries_to_process max_entries entries =
    if ltb_ℤ (pos 0) max_entries && ltb_ℤ max_entries (pos (length entries))
    then take (pos_part max_entries) entries
    else entries

unfoldable pub original_tokens : ℤ → List MemoryEntry → ℤ
original_tokens total [] = total
original_tokens total (entry ∷ rest) = original_tokens (total +ℤ entry.token_count) rest

-- The two guards of `ConsolidateSession`: too few entries, or too few tokens, unless forced.
unfoldable pub is_skipped : MemoryConfig → Bool → ShortTermMemory → Bool
is_skipped config force memory =
    if ltb_ℤ (pos (length memory.entries)) (pos 2) && not force
    then true
    else ltb_ℤ memory.total_tokens config.summary_min_tokens && not force

unfoldable pub skipped_result : ℤ → ConsolidationResult
skipped_result now = record {
  entries_processed = pos 0;
  summaries_created = pos 0;
  tokens_consolidated = pos 0;
  tokens_saved = pos 0;
  duration = pos 0;
  timestamp = now;
}

unfoldable pub consolidated_result : ℤ → ℤ → List MemoryEntry → Str → ConsolidationResult
consolidated_result now took entries summary = record {
  entries_processed = pos (length entries);
  summaries_created = pos 1;
  tokens_consolidated = original_tokens (pos 0) entries;
  tokens_saved = original_tokens (pos 0) entries -ℤ estimate_token_count summary;
  duration = took;
  timestamp = now;
}

-- The test of `ScheduleConsolidation`.
unfoldable pub schedule_consolidation : ℤ → Result (Unit {0})
schedule_consolidation interval_seconds =
    if ltb_ℤ interval_seconds (pos 60)
    then err (codes "consolidation interval must be at least 60 seconds")
    else ok tt

-- The entries of `ExtractFacts`: one for each fact that is not empty, under a fresh id each, with
-- the session of the first entry of the conversation.
unfoldable pub fact_entries : ℤ → (ℕ → Str) → MemoryEntry → ℕ → List Str → List LongTermMemoryEntry
fact_entries now fresh head n [] = []
fact_entries now fresh head n (fact ∷ rest) =
    let tail = fact_entries now fresh head (n + 1) rest in
    if is_nil fact
    then tail
    else record {
      id = fresh n;
      agent_id = head.agent_id;
      tenant_id = head.tenant_id;
      content_type = codes "fact";
      content = fact;
      embedding = [];
      token_count = estimate_token_count fact;
      score = record { bits = 0 };
      source_type = codes "conversation";
      source_id = [];
      session_id = head.session_id;
      metadata = none;
      created_at = now;
      accessed_at = now;
      access_count = pos 0;
    }
      ∷ tail

-- The content is parsed as a JSON array of strings; where that fails there are no facts.
unfoldable pub extract_facts :
    Chat
    → FloatOps
    → Printer
    → (Str → Result (List Str))
    → ℤ
    → (ℕ → Str)
    → List MemoryEntry
    → Result (List LongTermMemoryEntry)
extract_facts chat f printer parse now fresh [] = ok []
extract_facts chat f printer parse now fresh (entry ∷ rest) =
    elim (first_choice printer (
      chat (record {
        system_prompt = facts_system;
        user_prompt = facts_user (conversation_text [] (entry ∷ rest));
        max_tokens = pos 500;
        temperature = f.ratio 1 10;
      }))) [
        | ok content ↦ elim (parse content) [
          | ok facts ↦ ok (fact_entries now fresh entry 0 facts)
          | err e ↦ ok []
          | panic ↦ panic
        ]
        | err e ↦ err e
        | panic ↦ panic
      ]

module _ (redis : Redis) (codec : Codec ShortTermMemory) (clock : Codec ℤ) (lake : DeepLake)
    (uuid : UuidText) (f : FloatOps) (printer : Printer) (config : MemoryConfig) where
  open redis use {Store}

  unfoldable pub should_consolidate : Store → ℤ → Str → ℕ → Result Bool
  should_consolidate store now session_id agent_id =
      elim (redis.get store (consolidation_key uuid session_id agent_id)) [
        | redis_nil ↦ ok true
        | failed e ↦ err (wrap "failed to get last consolidation time" e)
        | found bytes ↦ elim (clock.unmarshal bytes) [
          | ok last ↦ ok (ltb_ℤ config.consolidation_interval (now -ℤ last))
          | err e ↦ err (wrap "failed to get last consolidation time" e)
          | panic ↦ panic
        ]
      ]

  -- `redis.Set(key, time.Now(), 24h)`; a failure is only logged.
  unfoldable pub note_consolidation : Store → ℤ → Str → ℕ → Store
  note_consolidation store now session_id agent_id = elim (clock.marshal now) [
    | ok bytes ↦
        (redis.set store (consolidation_key uuid session_id agent_id) bytes
          (pos (24 * 3600 * second))).0
    | _ ↦ store
  ]

  -- The part after the guards: summarise, store the summary, note the time.
  unfoldable pub consolidate_entries :
      Chat
      → Store
      → lake.State
      → ℤ
      → ℤ
      → Str
      → ConsolidationRequest
      → List MemoryEntry
      → Store × lake.State × Result ConsolidationResult
  unfolding note_consolidation
  consolidate_entries chat store state now took fresh req entries =
      elim (or_wrap "failed to generate summary"
        (generate_summary chat f printer entries config.summary_max_tokens)) [
          | ok summary ↦
              let (state', stored) =
                store_summary lake uuid f printer config state now fresh req.agent_id req.session_id
                  summary (map (λ e. e.id) entries) in
              elim (or_wrap "failed to store summary" stored) [
                | ok _ ↦ (
                  note_consolidation store now req.session_id req.agent_id,
                  state',
                  ok (consolidated_result now took entries summary),
                )
                | err e ↦ (store, state', err e)
                | panic ↦ (store, state', panic)
              ]
          | err e ↦ (store, state, err e)
          | panic ↦ (store, state, panic)
        ]

  unfoldable pub consolidate_session :
      Chat
      → Store
      → lake.State
      → ℤ
      → ℤ
      → Str
      → ConsolidationRequest
      → Store × lake.State × Result ConsolidationResult
  consolidate_session chat store state now took fresh req =
      elim (or_wrap "failed to get short-term memory"
        (get_conversation redis codec uuid config store now req.session_id req.agent_id)) [
          | ok memory ↦
              if is_skipped config req.force memory
              then (store, state, ok (skipped_result now))
              else consolidate_entries chat store state now took fresh req
                  (entries_to_process req.max_entries memory.entries)
          | err e ↦ (store, state, err e)
          | panic ↦ (store, state, panic)
        ]
