-- ===== src/Memory/ShortTerm/Tests.antt =====
-- Instances of the theorems about services/memory/short_term.go at a small conversation.
use tas_agent_builder.Base.{
  ℕ, ◌≡◌, refl, codes, List, [], ◌∷◌, none, pos, ◌+ℤ◌, ok, arith, str_eq, ℕ_discrete, true, ◌-ℤ◌,
}
use tas_agent_builder.External.{Codec}
use tas_agent_builder.External.Samples.{sample_redis, sample_uuid, table_codec, lookup, write}
use tas_agent_builder.Models.Memory.{MemoryEntry, ShortTermMemory, MemoryConfig, MemoryType}
use tas_agent_builder.Memory.ShortTerm.{
  add_message, get_conversation, appended, append_entry, grow, exceeds, trim_memory, trim_count,
  trim_tokens, stamp_entry, empty_conversation, store_conversation,
}
use tas_agent_builder.Memory.ShortTerm.Suffix.{token_sum, LongestFit}
use tas_agent_builder.Memory.ShortTerm.Trim.{trim_memory-LongestFit}
use tas_agent_builder.Memory.ShortTerm.Store.{add_message-get_conversation}

ShortTermMemory-discrete : Discrete ShortTermMemory
ShortTermMemory-discrete = hlevel ℕ_discrete

-- At most two entries and ten tokens.
abbrev small : MemoryConfig
small = record {
  short_term_max_tokens = pos 10;
  short_term_ttl = pos 60;
  short_term_max_entries = pos 2;
  working_memory_max_tokens = pos 20;
  working_memory_ttl = pos 60;
  max_loaded_documents = pos 2;
  auto_refresh_threshold = record { bits = 0 };
  long_term_enabled = true;
  consolidation_interval = pos 60;
  max_long_term_entries = pos 5;
  summary_min_tokens = pos 5;
  summary_max_tokens = pos 5;
}

abbrev said : ℕ → ℕ → MemoryEntry
said who tokens = record {
  id = who ∷ [];
  session_id = codes "s1";
  agent_id = 7;
  tenant_id = [];
  user_id = [];
  kind = MemoryType.short_term;
  role = codes "user";
  content = codes "hi";
  token_count = pos tokens;
  timestamp = pos 3;
  metadata = none;
}

abbrev talk : List MemoryEntry → ℕ → ShortTermMemory
talk entries total = record {
  session_id = codes "s1";
  agent_id = 7;
  tenant_id = [];
  user_id = [];
  entries = entries;
  total_tokens = pos total;
  max_tokens = pos 10;
  created_at = pos 5;
  updated_at = pos 5;
  expires_at = pos 65;
}

abbrev json : Codec ShortTermMemory
json = table_codec ShortTermMemory-discrete (talk (said 1 4 ∷ []) 4 ∷ [])

-- Three entries of 4, 5 and 6 tokens: the limit of two entries drops the first, that of ten
-- tokens the second.
trim_memory-LongestFit_example :
    (kept : List MemoryEntry) × (trim_memory small (talk (said 1 4 ∷ said 2 5 ∷ said 3 6 ∷ []) 15)
      ≡ ok (record (talk (said 1 4 ∷ said 2 5 ∷ said 3 6 ∷ []) 15) {
        entries = kept;
        total_tokens = token_sum kept;
      }))
    × LongestFit small (said 1 4 ∷ said 2 5 ∷ said 3 6 ∷ []) kept
unfolding token_sum ◌+ℤ◌
trim_memory-LongestFit_example =
    trim_memory-LongestFit small (talk (said 1 4 ∷ said 2 5 ∷ said 3 6 ∷ []) 15) (omega arith) refl

trim_memory_runs :
    trim_memory small (talk (said 1 4 ∷ said 2 5 ∷ said 3 6 ∷ []) 15) ≡ ok (talk (said 3 6 ∷ []) 6)
unfolding trim_memory trim_count trim_tokens ◌-ℤ◌
trim_memory_runs = refl

add_runs : (add_message sample_redis json sample_uuid small [] (pos 5) [] (said 1 4)).1 ≡ ok tt
unfolding add_message appended get_conversation lookup stamp_entry empty_conversation append_entry
    exceeds grow store_conversation write ShortTermMemory-discrete ℕ_discrete ◌+ℤ◌ str_eq
add_runs = refl

add_message-get_conversation_example :
    (kept : List MemoryEntry) × (get_conversation sample_redis json sample_uuid small
        (add_message sample_redis json sample_uuid small [] (pos 5) [] (said 1 4)).0
        (pos 9)
        (codes "s1")
        7
      ≡ ok (record (talk [] 0) { entries = kept; total_tokens = token_sum kept }))
    × LongestFit small (stamp_entry (pos 5) [] (said 1 4) ∷ []) kept
unfolding get_conversation lookup empty_conversation token_sum ◌+ℤ◌
add_message-get_conversation_example =
    add_message-get_conversation sample_redis json sample_uuid small [] (pos 5) [] (said 1 4)
      (talk [] 0) (pos 9) (omega arith) refl refl add_runs
