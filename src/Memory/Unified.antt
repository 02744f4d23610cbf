-- ===== src/Memory/Unified.antt =====
-- services/memory/memory_service.go: the service over the tiers.
pub mod Session
mod Tests
use tas_agent_builder.Base.{
  ℕ, if◌then◌else◌, ◌&&◌, Bool, true, false, not, Str, codes, is_nil, List, [], ◌∷◌, ◌++◌, Option,
  none, some, length, ℤ, pos, ltb_ℤ, leb_ℤ, ◌+ℤ◌, ◌*ℤ◌, quot_ℤ, Result, ok, err, panic, or_wrap,
  ◌>>=◌,
}
use tas_agent_builder.External.{Redis, Codec, UuidText, Printer}
use tas_agent_builder.Floats.{FloatOps}
use tas_agent_builder.Json.{Fields}
use tas_agent_builder.Models.Document.{RetrievedChunk}
use tas_agent_builder.Models.Memory.{
  MemoryType, short_term, working, long_term, MemoryEntry, ShortTermMemory, WorkingMemory,
  LongTermMemoryEntry, MemoryConfig, AddMemoryRequest, GetMemoryRequest, MemoryState, MemoryContext,
  ConsolidationRequest, ConsolidationResult, MemoryStats,
}
use tas_agent_builder.Memory.Consolidation.{Chat, should_consolidate, consolidate_session}
use tas_agent_builder.Memory.LongTerm
use tas_agent_builder.Memory.LongTerm.{DeepLake, search_memory, get_memory_count}
use tas_agent_builder.Memory.ShortTerm
use tas_agent_builder.Memory.ShortTerm.{
  get_conversation, add_message, trim_to_token_limit, clear_conversation,
}
use tas_agent_builder.Memory.Tokens.{estimate_token_count}
use tas_agent_builder.Memory.Working
use tas_agent_builder.Memory.Working.{
  get_working_memory, set_document_context, clear_working_memory, is_context_stale,
}

unfoldable pub entry_of_request : ℤ → Str → AddMemoryRequest → MemoryEntry
entry_of_request now fresh req = record {
  id = fresh;
  session_id = req.session_id;
  agent_id = req.agent_id;
  tenant_id = req.tenant_id;
  user_id = req.user_id;
  kind = short_term;
  role = req.role;
  content = req.content;
  token_count = estimate_token_count req.content;
  timestamp = now;
  metadata = req.metadata;
}

unfoldable pub stats_of :
    ℤ → Str → ℕ → Result ShortTermMemory → Result WorkingMemory → Result ℤ → Result MemoryStats
stats_of now session_id agent_id talked worked counted =
    let start : MemoryStats = record {
      session_id = session_id;
      agent_id = agent_id;
      short_term_entries = pos 0;
      short_term_tokens = pos 0;
      working_documents = pos 0;
      working_chunks = pos 0;
      working_tokens = pos 0;
      long_term_entries = pos 0;
      last_access = now;
    } in
    do s ← with_talk start talked; s' ← with_work s worked; with_count s' counted
  where
    with_talk : MemoryStats → Result ShortTermMemory → Result MemoryStats
    with_talk s (ok m) = ok (record s {
      short_term_entries = pos (length m.entries);
      short_term_tokens = m.total_tokens;
    })
    with_talk s (err e) = ok s
    with_talk s panic = panic

    with_work : MemoryStats → Result WorkingMemory → Result MemoryStats
    with_work s (ok m) = ok (record s {
      working_documents = pos (length m.loaded_documents);
      working_chunks = pos (length m.retrieved_chunks);
      working_tokens = m.total_tokens;
    })
    with_work s (err e) = ok s
    with_work s panic = panic

    with_count : MemoryStats → Result ℤ → Result MemoryStats
    with_count s (ok n) = ok (record s { long_term_entries = n })
    with_count s (err e) = ok s
    with_count s panic = panic

unfoldable pub consolidation_request : AddMemoryRequest → ConsolidationRequest
consolidation_request req = record {
  session_id = req.session_id;
  agent_id = req.agent_id;
  tenant_id = req.tenant_id;
  user_id = req.user_id;
  force = false;
  max_entries = pos 0;
}

module _ (redis : Redis) (talk : Codec ShortTermMemory) (desk : Codec WorkingMemory)
    (clock : Codec ℤ) (lake : DeepLake) (uuid : UuidText) (f : FloatOps) (printer : Printer)
    (config : MemoryConfig) where
  open redis use {Store}

  -- `AddMemory`: whether it starts a consolidation is the flag beside the result; the goroutine
  -- runs `consolidate_memory` on `consolidation_request req` later, on the store it then finds.
  unfoldable pub add_memory :
      Store → ℤ → Str → Str → AddMemoryRequest → Store × Bool × Result (Unit {0})
  add_memory store now fresh unused req =
      let (store', done) =
        add_message redis talk uuid config store now unused (entry_of_request now fresh req) in
      elim (or_wrap "failed to add to short-term memory" done) [
        | ok _ ↦
            elim (should_consolidate redis talk clock lake uuid f printer config store' now
              req.session_id req.agent_id) [
                | ok due ↦ (store', due, ok tt)
                | err e ↦ (store', false, ok tt)
                | panic ↦ (store', false, panic)
              ]
        | err e ↦ (store', false, err e)
        | panic ↦ (store', false, panic)
      ]

  unfoldable pub update_working_memory :
      Store → ℤ → Str → ℕ → List RetrievedChunk → Store × Result (Unit {0})
  update_working_memory = set_document_context redis desk uuid config

  unfoldable pub consolidate_memory :
      Chat
      → Store
      → lake.State
      → ℤ
      → ℤ
      → Str
      → ConsolidationRequest
      → Store × lake.State × Result ConsolidationResult
  consolidate_memory = consolidate_session redis talk clock lake uuid f printer config

  unfoldable pub get_memory_stats : Store → lake.State → ℤ → Str → ℕ → Result MemoryStats
  get_memory_stats store memories now session_id agent_id =
      stats_of now session_id agent_id
        (get_conversation redis talk uuid config store now session_id agent_id)
        (get_working_memory redis desk uuid config store now session_id agent_id)
        (if config.long_term_enabled
          then get_memory_count lake uuid f printer config memories agent_id
          else ok (pos 0))

  unfoldable pub clear_session : Store → Str → ℕ → Store × Result (Unit {0})
  clear_session store session_id agent_id =
      let (store', done) = clear_conversation redis talk uuid config store session_id agent_id in
      let (store'', done') =
        clear_working_memory redis desk uuid config store' session_id agent_id in
      elim (or_wrap "failed to clear short-term memory" done) [
        | ok _ ↦ (store'', or_wrap "failed to clear working memory" done')
        | err e ↦ (store', err e)
        | panic ↦ (store', panic)
      ]

  unfoldable pub needs_document_refresh : Store → ℤ → Str → ℕ → Str → Bool × Result (Unit {0})
  needs_document_refresh store now session_id agent_id query =
      is_context_stale redis desk uuid config f store now session_id agent_id query
        config.auto_refresh_threshold
