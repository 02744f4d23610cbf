-- ===== src/Memory/LongTerm.antt =====
-- services/memory/long_term.go: the client of the vector store. DeepLake is reached over HTTP and
-- is a parameter: its state, and its replies to the requests that this code builds.
use tas_agent_builder.Base.{
  ℕ, ◌==◌, if◌then◌else◌, ◌||◌, not, Str, codes, str_eq, List, [], ◌∷◌, ◌++◌, map, Option, none,
  some, ℤ, pos, leb_ℤ, ◌-ℤ◌, Result, ok, err, panic, wrap, or_wrap,
}
use tas_agent_builder.External.{UuidText, HttpReply, unreachable, answered, Printer}
use tas_agent_builder.Floats.{Float, FloatOps}
use tas_agent_builder.Json.{Fields, end, field, text, text_array, text_or_empty, merge_fields}
use tas_agent_builder.Models.Memory.{LongTermMemoryEntry, MemoryConfig}
use tas_agent_builder.Memory.Tokens.{estimate_token_count}

pub record SearchRequest : Type 0 where
  pub dataset : Str
  pub query_text : Str
  pub top_k : ℤ
  pub filters : List (Str × Str)

pub record SearchResult : Type 0 where
  pub id : Str
  pub content : Str
  pub score : Float
  pub distance : Float
  pub metadata : Option Fields

pub record VectorRequest : Type 0 where
  pub dataset : Str
  pub id : Str
  pub content : Str
  pub metadata : Fields

-- The service as this client meets it.
pub record DeepLake : Type 1 where
  pub State : Type 0
  pub search : State → SearchRequest → HttpReply (List SearchResult)
  pub insert : State → VectorRequest → State × HttpReply (Unit {0})
  pub count : State → Str → HttpReply ℤ

-- "memory_%s"
unfoldable pub dataset_id : UuidText → ℕ → Str
dataset_id uuid agent_id = codes "memory_" ++ uuid.to_string agent_id

unfoldable pub search_request : UuidText → ℕ → Str → ℤ → SearchRequest
unfolding dataset_id
search_request uuid agent_id query top_k = record {
  dataset = dataset_id uuid agent_id;
  query_text = query;
  top_k = top_k;
  filters =
      (codes "agent_id", uuid.to_string agent_id) ∷ (codes "memory_type", codes "long_term") ∷ [];
}

-- The entry that `SearchMemory` builds from one result. The fields it does not name are zero.
unfoldable pub entry_of_result : FloatOps → ℕ → SearchResult → LongTermMemoryEntry
entry_of_result f agent_id result = record {
  id = result.id;
  agent_id = agent_id;
  tenant_id = text_or_empty (codes "tenant_id") result.metadata;
  content_type = text_or_empty (codes "content_type") result.metadata;
  content = result.content;
  embedding = [];
  token_count = pos 0;
  score = result.score;
  source_type = text_or_empty (codes "source_type") result.metadata;
  source_id = text_or_empty (codes "source_id") result.metadata;
  session_id = text_or_empty (codes "session_id") result.metadata;
  metadata = result.metadata;
  created_at = pos 0;
  accessed_at = pos 0;
  access_count = pos 0;
}

-- "<what> status %d: %s"
status_error : Printer → Str → ℕ → Str → Str
status_error printer what status body =
    what ++ (printer.decimal (pos status) ++ (codes ": " ++ body))

unfoldable pub entries_of_reply :
    FloatOps → Printer → ℕ → HttpReply (List SearchResult) → Result (List LongTermMemoryEntry)
unfolding status_error
entries_of_reply f printer agent_id (unreachable e) = err (wrap "failed to search DeepLake" e)
entries_of_reply f printer agent_id (answered status body decoded) =
    if status == 404
    then ok []
    else if not (status == 200)
    then err (status_error printer (codes "DeepLake search failed with status ") status body)
    else elim (or_wrap "failed to decode search response" decoded) [
      | ok results ↦ ok (map (entry_of_result f agent_id) results)
      | err e ↦ err e
      | panic ↦ panic
    ]

-- The metadata of `StoreMemory`, the entry's own fields laid over it.
unfoldable pub stored_metadata : UuidText → Printer → LongTermMemoryEntry → Fields
stored_metadata uuid printer entry =
    let own = field (codes "agent_id") (text (uuid.to_string entry.agent_id)) (
      field (codes "tenant_id") (text entry.tenant_id) (
        field (codes "content_type") (text entry.content_type) (
          field (codes "source_type") (text entry.source_type) (
            field (codes "source_id") (text entry.source_id) (
              field (codes "session_id") (text entry.session_id) (
                field (codes "memory_type") (text (codes "long_term")) (
                  field (codes "created_at") (text (printer.rfc3339 entry.created_at)) end))))))) in
    elim entry.metadata [ none ↦ own | some extra ↦ merge_fields own extra ]

unfoldable pub store_result : Printer → HttpReply (Unit {0}) → Result (Unit {0})
unfolding status_error
store_result printer (unreachable e) = err (wrap "failed to store in DeepLake" e)
store_result printer (answered status body _) =
    if status == 200 || status == 201
    then ok tt
    else err (status_error printer (codes "DeepLake store failed with status ") status body)

unfoldable pub summary_entry : ℤ → Str → ℕ → Str → Str → List Str → LongTermMemoryEntry
summary_entry now fresh agent_id session_id summary source_entries = record {
  id = fresh;
  agent_id = agent_id;
  tenant_id = [];
  content_type = codes "summary";
  content = summary;
  embedding = [];
  token_count = estimate_token_count summary;
  score = record { bits = 0 };
  source_type = codes "conversation";
  source_id = [];
  session_id = session_id;
  metadata = some (field (codes "source_entries") (text_array source_entries) end);
  created_at = now;
  accessed_at = now;
  access_count = pos 0;
}

-- One round of the loop in `FormatForContext`.
unfoldable pub format_entry : LongTermMemoryEntry → Str
format_entry entry =
    if str_eq entry.content_type (codes "summary")
    then codes "Previous conversation summary:" ++ (10 ∷ (entry.content ++ (10 ∷ 10 ∷ [])))
    else if str_eq entry.content_type (codes "fact")
    then codes "Known fact: " ++ (entry.content ++ (10 ∷ []))
    else if str_eq entry.content_type (codes "insight")
    then codes "Insight: " ++ (entry.content ++ (10 ∷ []))
    else entry.content ++ (10 ∷ [])

format_entries : Str → List LongTermMemoryEntry → Str
format_entries formatted [] = formatted
format_entries formatted (entry ∷ rest) = format_entries (formatted ++ format_entry entry) rest

unfoldable pub format_for_context : List LongTermMemoryEntry → Str
unfolding format_entries
format_for_context [] = []
format_for_context (entry ∷ rest) =
    format_entries (codes "--- Relevant Knowledge ---" ++ (10 ∷ 10 ∷ [])) (entry ∷ rest)
    ++ (codes "--- End Knowledge ---" ++ (10 ∷ []))

module _ (lake : DeepLake) (uuid : UuidText) (f : FloatOps) (printer : Printer)
    (config : MemoryConfig) where
  open lake use {State}

  unfoldable pub search_memory : State → ℕ → Str → ℤ → Result (List LongTermMemoryEntry)
  search_memory state agent_id query top_k =
      if not config.long_term_enabled
      then ok []
      else entries_of_reply f printer agent_id
          (lake.search state (search_request uuid agent_id query top_k))

  unfoldable pub store_memory : State → LongTermMemoryEntry → State × Result (Unit {0})
  store_memory state entry =
      let (state', reply) = lake.insert state (record {
        dataset = dataset_id uuid entry.agent_id;
        id = entry.id;
        content = entry.content;
        metadata = stored_metadata uuid printer entry;
      }) in
      if not config.long_term_enabled then (state, ok tt) else (state', store_result printer reply)

  unfoldable pub store_summary :
      State → ℤ → Str → ℕ → Str → Str → List Str → State × Result (Unit {0})
  unfolding store_memory
  store_summary state now fresh agent_id session_id summary source_entries =
      store_memory state (summary_entry now fresh agent_id session_id summary source_entries)

  unfoldable pub get_recent_memories : State → ℕ → ℤ → Result (List LongTermMemoryEntry)
  unfolding search_memory
  get_recent_memories state agent_id limit = search_memory state agent_id (codes "*") limit

  unfoldable pub count_of_reply : HttpReply ℤ → Result ℤ
  count_of_reply (unreachable e) = err (wrap "failed to get count from DeepLake" e)
  count_of_reply (answered status body decoded) =
      if status == 404
      then ok (pos 0)
      else if not (status == 200)
      then err (codes "DeepLake count failed with status " ++ printer.decimal (pos status))
      else or_wrap "failed to decode count response" decoded

  unfoldable pub get_memory_count : State → ℕ → Result ℤ
  unfolding count_of_reply
  get_memory_count state agent_id =
      if not config.long_term_enabled
      then ok (pos 0)
      else count_of_reply (lake.count state (dataset_id uuid agent_id))

  -- The number that is reported as removed; the code removes nothing.
  unfoldable pub prune_old_memories : State → ℕ → ℤ → Result ℤ
  unfolding get_memory_count
  prune_old_memories state agent_id max_entries = elim (get_memory_count state agent_id) [
    | ok count ↦ if leb_ℤ count max_entries then ok (pos 0) else ok (count -ℤ max_entries)
    | err e ↦ err e
    | panic ↦ panic
  ]
