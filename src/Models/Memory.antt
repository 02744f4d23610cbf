-- ===== src/Models/Memory.antt =====
-- models/memory.go. Ids of agents and documents are UUIDs (numbers), times are nanoseconds since
-- Go's zero time (so 0 is the zero time), and durations are nanoseconds.
use tas_agent_builder.Base.{ℕ, Bool, true, Str, Option, List, ℤ, pos, ◌*◌}
use tas_agent_builder.Floats.{Float, FloatOps}
use tas_agent_builder.Json.{Fields}
use tas_agent_builder.Models.Document.{RetrievedChunk}

pub data MemoryType : Type 0 where
  short_term working long_term : MemoryType

pub record MemoryEntry : Type 0 where
  pub id : Str
  pub session_id : Str
  pub agent_id : ℕ
  pub tenant_id : Str
  pub user_id : Str
  pub kind : MemoryType
  pub role : Str
  pub content : Str
  pub token_count : ℤ
  pub timestamp : ℤ
  pub metadata : Option Fields

pub record ShortTermMemory : Type 0 where
  pub session_id : Str
  pub agent_id : ℕ
  pub tenant_id : Str
  pub user_id : Str
  pub entries : List MemoryEntry
  pub total_tokens : ℤ
  pub max_tokens : ℤ
  pub created_at : ℤ
  pub updated_at : ℤ
  pub expires_at : ℤ

pub record LoadedDocument : Type 0 where
  pub document_id : ℕ
  pub document_name : Str
  pub notebook_id : ℕ
  pub chunk_count : ℤ
  pub token_count : ℤ
  pub loaded_at : ℤ

pub record WorkingMemory : Type 0 where
  pub session_id : Str
  pub agent_id : ℕ
  pub tenant_id : Str
  pub user_id : Str
  pub loaded_documents : List LoadedDocument
  pub retrieved_chunks : List RetrievedChunk
  pub total_tokens : ℤ
  pub max_tokens : ℤ
  pub last_query : Str
  pub last_query_time : Option ℤ
  pub created_at : ℤ
  pub updated_at : ℤ
  pub expires_at : ℤ

pub record LongTermMemoryEntry : Type 0 where
  pub id : Str
  pub agent_id : ℕ
  pub tenant_id : Str
  pub content_type : Str
  pub content : Str
  pub embedding : List Float
  pub token_count : ℤ
  pub score : Float
  pub source_type : Str
  pub source_id : Str
  pub session_id : Str
  pub metadata : Option Fields
  pub created_at : ℤ
  pub accessed_at : ℤ
  pub access_count : ℤ

pub record MemoryConfig : Type 0 where
  pub short_term_max_tokens : ℤ
  pub short_term_ttl : ℤ
  pub short_term_max_entries : ℤ
  pub working_memory_max_tokens : ℤ
  pub working_memory_ttl : ℤ
  pub max_loaded_documents : ℤ
  pub auto_refresh_threshold : Float
  pub long_term_enabled : Bool
  pub consolidation_interval : ℤ
  pub max_long_term_entries : ℤ
  pub summary_min_tokens : ℤ
  pub summary_max_tokens : ℤ

-- time.Second
abbrev pub second : ℕ
second = 1_000_000_000

pub default_memory_config : FloatOps → MemoryConfig
default_memory_config f = record {
  short_term_max_tokens = pos 4000;
  short_term_ttl = pos (3600 * second);
  short_term_max_entries = pos 50;
  working_memory_max_tokens = pos 8000;
  working_memory_ttl = pos (30 * 60 * second);
  max_loaded_documents = pos 10;
  auto_refresh_threshold = f.ratio 5 10;
  long_term_enabled = true;
  consolidation_interval = pos (5 * 60 * second);
  max_long_term_entries = pos 1000;
  summary_min_tokens = pos 500;
  summary_max_tokens = pos 500;
}

pub record AddMemoryRequest : Type 0 where
  pub session_id : Str
  pub agent_id : ℕ
  pub tenant_id : Str
  pub user_id : Str
  pub role : Str
  pub content : Str
  pub metadata : Option Fields

pub record GetMemoryRequest : Type 0 where
  pub session_id : Str
  pub agent_id : ℕ
  pub tenant_id : Str
  pub user_id : Str
  pub max_tokens : ℤ
  pub include_types : List MemoryType
  pub query : Str

pub record MemoryState : Type 0 where
  pub short_term : Option ShortTermMemory
  pub working : Option WorkingMemory
  pub long_term : List LongTermMemoryEntry
  pub total_tokens : ℤ
  pub token_budget : ℤ

pub record MemoryContext : Type 0 where
  pub formatted_short_term : Str
  pub formatted_working : Str
  pub formatted_long_term : Str
  pub total_tokens : ℤ
  pub truncated : Bool
  pub strategy : Str

pub record ConsolidationRequest : Type 0 where
  pub session_id : Str
  pub agent_id : ℕ
  pub tenant_id : Str
  pub user_id : Str
  pub force : Bool
  pub max_entries : ℤ

pub record ConsolidationResult : Type 0 where
  pub entries_processed : ℤ
  pub summaries_created : ℤ
  pub tokens_consolidated : ℤ
  pub tokens_saved : ℤ
  pub duration : ℤ
  pub timestamp : ℤ

pub record MemoryStats : Type 0 where
  pub session_id : Str
  pub agent_id : ℕ
  pub short_term_entries : ℤ
  pub short_term_tokens : ℤ
  pub working_documents : ℤ
  pub working_chunks : ℤ
  pub working_tokens : ℤ
  pub long_term_entries : ℤ
  pub last_access : ℤ
