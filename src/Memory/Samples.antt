-- ===== src/Memory/Samples.antt =====
-- A small configuration and concrete services, at which the theorems on services/memory are
-- instantiated.
use tas_agent_builder.Base.{
  ℕ, Str, codes, List, [], ◌∷◌, none, ℤ, pos, true, ok, err, Result, ◌≡◌, negsuc, ℕ_discrete,
}
use tas_agent_builder.External.{Codec, answered, Printer}
use tas_agent_builder.External.Samples.{table_codec}
use tas_agent_builder.Floats.{FloatOps}
use tas_agent_builder.Models.Memory.{
  MemoryEntry, ShortTermMemory, WorkingMemory, MemoryConfig, MemoryType, GetMemoryRequest,
}
use tas_agent_builder.Memory.LongTerm.{DeepLake, SearchResult}

unfoldable pub ShortTermMemory-discrete : Discrete ShortTermMemory
ShortTermMemory-discrete = hlevel ℕ_discrete

-- Float arithmetic that returns its first argument: the examples do not compare floats.
abbrev pub sample_floats : FloatOps
sample_floats = record {
  of_int = λ n. record { bits = 0 };
  ratio = λ a b. record { bits = a };
  add = λ a b. a;
  sub = λ a b. a;
  mul = λ a b. a;
  div = λ a b. a;
  lt = λ a b. true;
  le = λ a b. true;
  to_int = λ a. pos 0;
}

abbrev pub sample_printer : Printer
sample_printer = record { decimal = λ n. []; rfc3339 = λ t. [] }

abbrev pub sample_result : SearchResult
sample_result = record {
  id = codes "r1";
  content = codes "a summary of more than three tokens";
  score = record { bits = 0 };
  distance = record { bits = 0 };
  metadata = none;
}

-- A store of memories that counts the requests to insert, and finds one result.
abbrev pub sample_lake : DeepLake
sample_lake = record {
  State = ℕ;
  search = λ s req. answered 200 [] (ok (sample_result ∷ []));
  insert = λ s req. (s, answered 201 [] (ok tt));
  count = λ s dataset. answered 200 [] (ok (pos s));
}

-- At most two entries and ten tokens.
abbrev pub small : MemoryConfig
small = record {
  short_term_max_tokens = pos 10;
  short_term_ttl = pos 60;
  short_term_max_entries = pos 2;
  working_memory_max_tokens = pos 20;
  working_memory_ttl = pos 60;
  max_loaded_documents = pos 2;
  auto_refresh_threshold = record { bits = 0 };
  long_term_enabled = true;
  consolidation_interval = pos 60;
  max_long_term_entries = pos 5;
  summary_min_tokens = pos 5;
  summary_max_tokens = pos 5;
}

abbrev pub said : ℕ → ℕ → MemoryEntry
said who tokens = record {
  id = who ∷ [];
  session_id = codes "s1";
  agent_id = 7;
  tenant_id = [];
  user_id = [];
  kind = MemoryType.short_term;
  role = codes "user";
  content = codes "hi";
  token_count = pos tokens;
  timestamp = pos 3;
  metadata = none;
}

abbrev pub talk : List MemoryEntry → ℕ → ShortTermMemory
talk entries total = record {
  session_id = codes "s1";
  agent_id = 7;
  tenant_id = [];
  user_id = [];
  entries = entries;
  total_tokens = pos total;
  max_tokens = pos 10;
  created_at = pos 5;
  updated_at = pos 5;
  expires_at = pos 65;
}

-- The first conversation of the table is stored as the empty text.
abbrev pub talk_json : Codec ShortTermMemory
talk_json =
    table_codec ShortTermMemory-discrete
      (talk (said 1 4 ∷ said 2 5 ∷ []) 9 ∷ talk (said 2 5 ∷ []) 5 ∷ [])

-- A codec that writes nothing.
abbrev pub desk_json : Codec WorkingMemory
desk_json = record {
  marshal = λ m. err [];
  unmarshal = λ s. err [];
  unmarshal-marshal = λ m s e. cc;
}

unfoldable pub write_time : ℤ → Result Str
write_time (pos n) = ok (n ∷ [])
write_time (negsuc n) = err []

unfoldable pub read_time : Str → Result ℤ
read_time [] = err []
read_time (n ∷ rest) = ok (pos n)

pub read_time-write_time : (t : ℤ) (s : Str) → write_time t ≡ ok s → read_time s ≡ ok t
unfolding write_time read_time
read_time-write_time (pos n) [] h = cc
read_time-write_time (pos n) (m ∷ rest) h = cc
read_time-write_time (negsuc n) s h = cc

-- A time is the one character of its text.
abbrev pub time_json : Codec ℤ
time_json = record {
  marshal = write_time;
  unmarshal = read_time;
  unmarshal-marshal = read_time-write_time;
}

abbrev pub asked : GetMemoryRequest
asked = record {
  session_id = codes "s1";
  agent_id = 7;
  tenant_id = [];
  user_id = [];
  max_tokens = pos 12;
  include_types = [];
  query = codes "what";
}
