-- ===== src/Memory/State.antt =====
-- services/memory/memory_service.go: `GetMemoryState`, the tiers gathered for an execution.
use tas_agent_builder.Base.{
  if◌then◌else◌, ◌&&◌, Bool, true, false, not, is_nil, List, [], ◌∷◌, none, some, ℤ, pos, ◌+ℤ◌,
  Result, ok, err, panic, or_wrap, ◌>>=◌,
}
use tas_agent_builder.External.{Redis, Codec, UuidText, Printer}
use tas_agent_builder.Floats.{FloatOps}
use tas_agent_builder.Models.Memory.{
  MemoryType, short_term, working, long_term, ShortTermMemory, WorkingMemory, LongTermMemoryEntry,
  MemoryConfig, GetMemoryRequest, MemoryState,
}
use tas_agent_builder.Memory.LongTerm.{DeepLake, search_memory}
use tas_agent_builder.Memory.ShortTerm.{get_conversation}
use tas_agent_builder.Memory.Working.{get_working_memory}

-- The tiers that `GetMemoryState` includes.
pub record Include : Type 0 where
  pub short : Bool
  pub work : Bool
  pub long : Bool

unfoldable pub include_type : MemoryConfig → Include → MemoryType → Include
include_type config i short_term = record i { short = true }
include_type config i working = record i { work = true }
include_type config i long_term = record i { long = config.long_term_enabled }

unfoldable pub include_types : MemoryConfig → Include → List MemoryType → Include
unfolding include_type
include_types config i [] = i
include_types config i (t ∷ rest) = include_types config (include_type config i t) rest

unfoldable pub included : MemoryConfig → List MemoryType → Include
unfolding include_types
included config [] = record { short = true; work = true; long = config.long_term_enabled }
included config (t ∷ rest) =
    include_types config (record { short = false; work = false; long = false }) (t ∷ rest)

-- `for _, entry := range longTerm { state.TotalTokens += entry.TokenCount }`
unfoldable pub add_entry_tokens : ℤ → List LongTermMemoryEntry → ℤ
add_entry_tokens total [] = total
add_entry_tokens total (entry ∷ rest) = add_entry_tokens (total +ℤ entry.token_count) rest

module _ (redis : Redis) (talk : Codec ShortTermMemory) (desk : Codec WorkingMemory)
    (clock : Codec ℤ) (lake : DeepLake) (uuid : UuidText) (f : FloatOps) (printer : Printer)
    (config : MemoryConfig) where
  open redis use {Store}

  -- One step of `GetMemoryState` for each tier.
  unfoldable pub state_short_term : Store → ℤ → GetMemoryRequest → MemoryState → Result MemoryState
  state_short_term store now req state =
      elim (or_wrap "failed to get short-term memory"
        (get_conversation redis talk uuid config store now req.session_id req.agent_id)) [
          | ok m ↦ ok (record state {
            short_term = some m;
            total_tokens = state.total_tokens +ℤ m.total_tokens;
          })
          | err e ↦ err e
          | panic ↦ panic
        ]

  unfoldable pub state_working : Store → ℤ → GetMemoryRequest → MemoryState → Result MemoryState
  state_working store now req state =
      elim (or_wrap "failed to get working memory"
        (get_working_memory redis desk uuid config store now req.session_id req.agent_id)) [
          | ok m ↦ ok (record state {
            working = some m;
            total_tokens = state.total_tokens +ℤ m.total_tokens;
          })
          | err e ↦ err e
          | panic ↦ panic
        ]

  -- A failed search is only logged.
  unfoldable pub state_long_term : lake.State → GetMemoryRequest → MemoryState → Result MemoryState
  state_long_term memories req state =
      elim (search_memory lake uuid f printer config memories req.agent_id req.query (pos 5)) [
        | ok entries ↦ ok (record state {
          long_term = entries;
          total_tokens = add_entry_tokens state.total_tokens entries;
        })
        | err e ↦ ok state
        | panic ↦ panic
      ]

  unfoldable pub get_memory_state : Store → lake.State → ℤ → GetMemoryRequest → Result MemoryState
  get_memory_state store memories now req = do
    let i = included config req.include_types
    let start : MemoryState = record {
      short_term = none;
      working = none;
      long_term = [];
      total_tokens = pos 0;
      token_budget = req.max_tokens;
    }
    s ←
        if i.short && not (is_nil req.session_id)
        then state_short_term store now req start
        else ok start
    s' ← if i.work && not (is_nil req.session_id) then state_working store now req s else ok s
    if i.long && not (is_nil req.query) then state_long_term memories req s' else ok s'
