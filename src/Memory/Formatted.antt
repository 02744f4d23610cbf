-- ===== src/Memory/Formatted.antt =====
-- services/memory/memory_service.go: `GetFormattedMemory`, the memory text for a prompt.
pub mod Entries
pub mod Budget
mod Tests
use tas_agent_builder.Base.{
  ℕ, if◌then◌else◌, ◌&&◌, Bool, true, false, not, Str, codes, is_nil, List, [], ◌∷◌, ◌++◌, Option,
  none, some, length, ℤ, pos, ltb_ℤ, leb_ℤ, ◌+ℤ◌, ◌*ℤ◌, quot_ℤ, Result, ok, err, panic, or_wrap,
  ◌>>=◌,
}
use tas_agent_builder.External.{Redis, Codec, UuidText, Printer}
use tas_agent_builder.Floats.{FloatOps}
use tas_agent_builder.Json.{Fields}
use tas_agent_builder.Models.Document.{RetrievedChunk}
use tas_agent_builder.Models.Memory.{
  MemoryType, short_term, working, long_term, MemoryEntry, ShortTermMemory, WorkingMemory,
  LongTermMemoryEntry, MemoryConfig, AddMemoryRequest, GetMemoryRequest, MemoryState, MemoryContext,
  ConsolidationRequest, ConsolidationResult, MemoryStats,
}
use tas_agent_builder.Memory.Consolidation.{Chat, should_consolidate, consolidate_session}
use tas_agent_builder.Memory.LongTerm
use tas_agent_builder.Memory.LongTerm.{DeepLake, search_memory, get_memory_count}
use tas_agent_builder.Memory.ShortTerm
use tas_agent_builder.Memory.ShortTerm.{
  get_conversation, add_message, trim_to_token_limit, clear_conversation,
}
use tas_agent_builder.Memory.Tokens.{estimate_token_count}
use tas_agent_builder.Memory.Working
use tas_agent_builder.Memory.Working.{
  get_working_memory, set_document_context, clear_working_memory, is_context_stale,
}

-- The budgets of `GetFormattedMemory`: 50, 35 and 15 percent, each rounded towards zero.
unfoldable pub short_term_budget : ℤ → ℤ
short_term_budget budget = quot_ℤ budget 2

unfoldable pub working_budget : ℤ → ℤ
working_budget budget = quot_ℤ (budget *ℤ pos 35) 100

unfoldable pub long_term_budget : ℤ → ℤ
long_term_budget budget = quot_ℤ (budget *ℤ pos 15) 100

-- The loop that takes long-term entries until one would pass the budget.
unfoldable pub take_entries : ℤ → ℤ → List LongTermMemoryEntry → List LongTermMemoryEntry × ℤ
take_entries limit total [] = ([], total)
take_entries limit total (entry ∷ rest) =
    let (kept, sum) = take_entries limit (total +ℤ entry.token_count) rest in
    if ltb_ℤ limit (total +ℤ entry.token_count) then ([], total) else (entry ∷ kept, sum)

-- A formatted part of the context with its tokens.
abbrev pub Part : Type 0
Part = Str × ℤ

unfoldable pub conversation_part : ShortTermMemory → Part
conversation_part m = (ShortTerm.format_for_context (some m), m.total_tokens)

unfoldable pub reread_part : Result ShortTermMemory → Result Part
reread_part (ok m) = ok (conversation_part m)
reread_part (err e) = panic
reread_part panic = panic

unfoldable pub no_part : Part
no_part = ([], pos 0)

-- The long-term part of the entries found.
unfoldable pub entries_part : ℤ → List LongTermMemoryEntry → Part
entries_part limit [] = no_part
entries_part limit (entry ∷ rest) =
    let (kept, sum) = take_entries limit (pos 0) (entry ∷ rest) in
    (LongTerm.format_for_context kept, sum)

unfoldable pub context_of_parts : ℤ → Part → Part → Part → MemoryContext
context_of_parts budget a b c = record {
  formatted_short_term = a.0;
  formatted_working = b.0;
  formatted_long_term = c.0;
  total_tokens = pos 0 +ℤ a.1 +ℤ b.1 +ℤ c.1;
  truncated = ltb_ℤ budget (pos 0 +ℤ a.1 +ℤ b.1 +ℤ c.1);
  strategy = codes "priority";
}

module _ (redis : Redis) (talk : Codec ShortTermMemory) (desk : Codec WorkingMemory)
    (clock : Codec ℤ) (lake : DeepLake) (uuid : UuidText) (f : FloatOps) (printer : Printer)
    (config : MemoryConfig) where
  open redis use {Store}

  unfoldable pub trimmed_part :
      ℤ → GetMemoryRequest → ShortTermMemory → Store × Result (Unit {0}) → Store × Result Part
  trimmed_part now req m (store', ok _) = (
    store',
    reread_part (get_conversation redis talk uuid config store' now req.session_id req.agent_id),
  )
  trimmed_part now req m (store', err e) = (store', ok (conversation_part m))
  trimmed_part now req m (store', panic) = (store', panic)

  -- The short-term part: over budget, the stored conversation is trimmed and read again. If that
  -- second read fails the code goes on with a nil pointer, and panics at its `TotalTokens`.
  unfoldable pub short_term_part : Store → ℤ → GetMemoryRequest → ℤ → Store × Result Part
  short_term_part store now req budget =
      if is_nil req.session_id
      then (store, ok no_part)
      else elim (get_conversation redis talk uuid config store now req.session_id req.agent_id) [
        | ok m ↦
            if ltb_ℤ budget m.total_tokens
            then trimmed_part now req m (
                trim_to_token_limit redis talk uuid config store now req.session_id req.agent_id
                  budget)
            else (store, ok (conversation_part m))
        | err e ↦ (store, ok no_part)
        | panic ↦ (store, panic)
      ]

  unfoldable pub working_part : Store → ℤ → GetMemoryRequest → ℤ → Result Part
  working_part store now req budget =
      if is_nil req.session_id
      then ok no_part
      else elim (get_working_memory redis desk uuid config store now req.session_id req.agent_id) [
        | ok m ↦
            if leb_ℤ m.total_tokens budget
            then ok (Working.format_for_context (some m), m.total_tokens)
            else ok no_part
        | err e ↦ ok no_part
        | panic ↦ panic
      ]

  unfoldable pub long_term_part : lake.State → GetMemoryRequest → ℤ → Result Part
  long_term_part memories req budget =
      if config.long_term_enabled && not (is_nil req.query)
      then elim (search_memory lake uuid f printer config memories req.agent_id req.query (pos 3)) [
        | ok entries ↦ ok (entries_part budget entries)
        | err e ↦ ok no_part
        | panic ↦ panic
      ]
      else ok no_part

  -- The parts in the code's order; each reads the store that the one before left.
  unfoldable pub get_formatted_memory :
      Store → lake.State → ℤ → GetMemoryRequest → ℤ → Store × Result MemoryContext
  get_formatted_memory store memories now req budget =
      let (store', talked) = short_term_part store now req (short_term_budget budget) in
      (
        store',
        do
          a ← talked
          b ← working_part store' now req (working_budget budget)
          c ← long_term_part memories req (long_term_budget budget)
          ok (context_of_parts budget a b c),
      )
