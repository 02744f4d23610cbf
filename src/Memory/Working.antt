-- ===== src/Memory/Working.antt =====
-- services/memory/working_memory.go: the documents and chunks that a session works with, kept in
-- Redis as JSON under a key of their own.
pub mod Chunks
pub mod Documents
pub mod Unload
pub mod Store
mod Tests
use tas_agent_builder.Base.{
  ℕ, ◌==◌, if◌then◌else◌, Bool, true, false, not, Str, codes, str_eq, List, [], ◌∷◌, ◌++◌, Option,
  none, some, length, ℤ, pos, ltb_ℤ, leb_ℤ, ◌+ℤ◌, Result, ok, err, panic, wrap, or_wrap,
  error_result,
}
use tas_agent_builder.External.{Redis, found, redis_nil, failed, Codec, UuidText}
use tas_agent_builder.Floats.{FloatOps, Float}
use tas_agent_builder.Models.Document.{RetrievedChunk}
use tas_agent_builder.Models.Memory.{LoadedDocument, WorkingMemory, MemoryConfig}
use tas_agent_builder.Memory.Tokens.{estimate_token_count, calculate_simple_similarity, is_empty}

unfoldable pub memory_key : UuidText → Str → ℕ → Str
memory_key uuid session_id agent_id =
    codes "memory:working" ++ codes ":" ++ (uuid.to_string agent_id ++ (codes ":" ++ session_id))

unfoldable pub empty_memory : MemoryConfig → ℤ → Str → ℕ → WorkingMemory
empty_memory config now session_id agent_id = record {
  session_id = session_id;
  agent_id = agent_id;
  tenant_id = [];
  user_id = [];
  loaded_documents = [];
  retrieved_chunks = [];
  total_tokens = pos 0;
  max_tokens = config.working_memory_max_tokens;
  last_query = [];
  last_query_time = none;
  created_at = now;
  updated_at = now;
  expires_at = now +ℤ config.working_memory_ttl;
}

abbrev pub chunk_tokens : RetrievedChunk → ℤ
chunk_tokens chunk = estimate_token_count chunk.content

-- `for _, chunk := range chunks { totalTokens += estimateTokenCount(chunk.Content) }`
unfoldable pub count_tokens : ℤ → List RetrievedChunk → ℤ
count_tokens total [] = total
count_tokens total (chunk ∷ rest) = count_tokens (total +ℤ chunk_tokens chunk) rest

-- The loop of `trimChunks`; it breaks at the first chunk that does not fit.
unfoldable pub trim_chunks_from : ℤ → ℤ → List RetrievedChunk → List RetrievedChunk × ℤ
trim_chunks_from limit total [] = ([], total)
trim_chunks_from limit total (chunk ∷ rest) =
    let (kept, sum) = trim_chunks_from limit (total +ℤ chunk_tokens chunk) rest in
    if ltb_ℤ limit (total +ℤ chunk_tokens chunk) then ([], total) else (chunk ∷ kept, sum)

unfoldable pub trim_chunks : List RetrievedChunk → ℤ → List RetrievedChunk × ℤ
unfolding trim_chunks_from
trim_chunks chunks limit = trim_chunks_from limit (pos 0) chunks

-- The chunks that `SetDocumentContext` keeps, with their tokens.
unfoldable pub fit_chunks : MemoryConfig → List RetrievedChunk → List RetrievedChunk × ℤ
fit_chunks config chunks =
    if ltb_ℤ config.working_memory_max_tokens (count_tokens (pos 0) chunks)
    then trim_chunks chunks config.working_memory_max_tokens
    else (chunks, count_tokens (pos 0) chunks)

unfoldable pub set_chunks : MemoryConfig → ℤ → List RetrievedChunk → WorkingMemory → WorkingMemory
set_chunks config now chunks memory = record memory {
  retrieved_chunks = (fit_chunks config chunks).0;
  total_tokens = (fit_chunks config chunks).1;
  updated_at = now;
}

-- `memory.LoadedDocuments[i] = doc` at the first document with the id, if there is one.
unfoldable pub replace_document :
    LoadedDocument → List LoadedDocument → Option (List LoadedDocument)
replace_document doc [] = none
replace_document doc (existing ∷ rest) = elim (existing.document_id == doc.document_id) [
  | true ↦ some (doc ∷ rest)
  | false ↦ elim (replace_document doc rest) [ none ↦ none | some rest' ↦ some (existing ∷ rest') ]
]

-- `LoadedDocuments[1:]`
unfoldable pub without_oldest : List LoadedDocument → Result (List LoadedDocument)
without_oldest [] = panic
without_oldest (oldest ∷ rest) = ok rest

unfoldable pub make_room : MemoryConfig → List LoadedDocument → Result (List LoadedDocument)
unfolding without_oldest
make_room config docs =
    if leb_ℤ config.max_loaded_documents (pos (length docs)) then without_oldest docs else ok docs

unfoldable pub load_document_in :
    MemoryConfig → ℤ → LoadedDocument → WorkingMemory → Result WorkingMemory
load_document_in config now doc memory = elim (replace_document doc memory.loaded_documents) [
  | some docs ↦ ok (record memory { loaded_documents = docs })
  | none ↦ elim (make_room config memory.loaded_documents) [
    | ok docs ↦ ok (record memory {
      loaded_documents = docs ++ (record doc { loaded_at = now } ∷ []);
      updated_at = now;
    })
    | err e ↦ err e
    | panic ↦ panic
  ]
]

-- The list without the first document of that id, if there is one.
unfoldable pub remove_document : ℕ → List LoadedDocument → Option (List LoadedDocument)
remove_document id [] = none
remove_document id (doc ∷ rest) = elim (doc.document_id == id) [
  | true ↦ some rest
  | false ↦ elim (remove_document id rest) [ none ↦ none | some rest' ↦ some (doc ∷ rest') ]
]

-- `if chunk.DocumentID != documentID.String() { remainingChunks = append(…) }`
unfoldable pub remaining_chunks : Str → List RetrievedChunk → List RetrievedChunk
remaining_chunks id [] = []
remaining_chunks id (chunk ∷ rest) =
    let kept = remaining_chunks id rest in
    if not (str_eq chunk.document_id id) then chunk ∷ kept else kept

-- `none` where the document is not loaded, and nothing is saved.
unfoldable pub unload_document_in : UuidText → ℤ → ℕ → WorkingMemory → Option WorkingMemory
unload_document_in uuid now id memory = elim (remove_document id memory.loaded_documents) [
  | none ↦ none
  | some docs ↦
      let chunks = remaining_chunks (uuid.to_string id) memory.retrieved_chunks in
      some (record memory {
        loaded_documents = docs;
        retrieved_chunks = chunks;
        total_tokens = count_tokens (pos 0) chunks;
        updated_at = now;
      })
]

-- The similarity test of `IsContextStale`.
unfoldable pub is_stale : FloatOps → Str → Float → WorkingMemory → Bool
is_stale f new_query threshold memory =
    if is_empty memory.last_query
    then true
    else if length memory.retrieved_chunks == 0
    then true
    else f.lt (calculate_simple_similarity f memory.last_query new_query) threshold

-- The loop of `FormatForContext`: a header where the document changes, then the content.
unfoldable pub format_chunks : Str → Str → List RetrievedChunk → Str
format_chunks formatted current [] = formatted
format_chunks formatted current (chunk ∷ rest) =
    let header =
      if str_eq chunk.document_name current
      then []
      else (if is_empty current then [] else 10 ∷ [])
        ++ (codes "### Document: " ++ (chunk.document_name ++ (10 ∷ []))) in
    format_chunks (formatted ++ (header ++ (chunk.content ++ (10 ∷ [])))) chunk.document_name rest

unfoldable pub format_for_context : Option WorkingMemory → Str
format_for_context none = []
format_for_context (some memory) =
    if length memory.retrieved_chunks == 0
    then []
    else format_chunks (codes "--- Retrieved Document Context ---" ++ (10 ∷ 10 ∷ [])) []
        memory.retrieved_chunks
      ++ (10 ∷ codes "--- End Document Context ---" ++ (10 ∷ []))

module _ (redis : Redis) (codec : Codec WorkingMemory) (uuid : UuidText)
    (config : MemoryConfig) where
  open redis use {Store}

  unfoldable pub get_working_memory : Store → ℤ → Str → ℕ → Result WorkingMemory
  get_working_memory store now session_id agent_id =
      elim (redis.get store (memory_key uuid session_id agent_id)) [
        | found bytes ↦ or_wrap "failed to unmarshal working memory" (codec.unmarshal bytes)
        | redis_nil ↦ ok (empty_memory config now session_id agent_id)
        | failed e ↦ err (wrap "failed to get working memory" e)
      ]

  -- Marshal and write under the key, with the TTL that the caller chose.
  unfoldable pub write_memory : Store → Str → ℤ → WorkingMemory → Store × Result (Unit {0})
  write_memory store key ttl memory = elim (codec.marshal memory) [
    | ok bytes ↦ let (written, e) = redis.set store key bytes ttl in (written, error_result tt e)
    | err e ↦ (store, err (wrap "failed to marshal working memory" e))
    | panic ↦ (store, panic)
  ]

  -- `saveMemory` writes under the key of the session that the memory itself names.
  unfoldable pub save_memory : Store → WorkingMemory → Store × Result (Unit {0})
  unfolding write_memory
  save_memory store memory =
      let key = memory_key uuid memory.session_id memory.agent_id in
      let left = redis.ttl store key in
      write_memory store key (if leb_ℤ left (pos 0) then config.working_memory_ttl else left) memory

  unfoldable pub set_document_context :
      Store → ℤ → Str → ℕ → List RetrievedChunk → Store × Result (Unit {0})
  set_document_context store now session_id agent_id chunks =
      elim (get_working_memory store now session_id agent_id) [
        | ok memory ↦
            write_memory store (memory_key uuid session_id agent_id) config.working_memory_ttl
              (set_chunks config now chunks memory)
        | err e ↦ (store, err (wrap "failed to get existing working memory" e))
        | panic ↦ (store, panic)
      ]

  unfoldable pub load_document : Store → ℤ → Str → ℕ → LoadedDocument → Store × Result (Unit {0})
  load_document store now session_id agent_id doc =
      elim (get_working_memory store now session_id agent_id) [
        | ok memory ↦ elim (load_document_in config now doc memory) [
          | ok memory' ↦ save_memory store memory'
          | err e ↦ (store, err e)
          | panic ↦ (store, panic)
        ]
        | err e ↦ (store, err e)
        | panic ↦ (store, panic)
      ]

  unfoldable pub unload_document : Store → ℤ → Str → ℕ → ℕ → Store × Result (Unit {0})
  unload_document store now session_id agent_id id =
      elim (get_working_memory store now session_id agent_id) [
        | ok memory ↦ elim (unload_document_in uuid now id memory) [
          | some memory' ↦ save_memory store memory'
          | none ↦ (store, ok tt)
        ]
        | err e ↦ (store, err e)
        | panic ↦ (store, panic)
      ]

  unfoldable pub update_last_query : Store → ℤ → Str → ℕ → Str → Store × Result (Unit {0})
  update_last_query store now session_id agent_id query =
      elim (get_working_memory store now session_id agent_id) [
        | ok memory ↦
            save_memory store
              (record memory { last_query = query; last_query_time = some now; updated_at = now })
        | err e ↦ (store, err e)
        | panic ↦ (store, panic)
      ]

  -- On an error of the store the code answers `true` beside the error.
  unfoldable pub is_context_stale :
      FloatOps → Store → ℤ → Str → ℕ → Str → Float → Bool × Result (Unit {0})
  is_context_stale f store now session_id agent_id new_query threshold =
      elim (get_working_memory store now session_id agent_id) [
        | ok memory ↦ (is_stale f new_query threshold memory, ok tt)
        | err e ↦ (true, err e)
        | panic ↦ (true, panic)
      ]

  unfoldable pub clear_working_memory : Store → Str → ℕ → Store × Result (Unit {0})
  clear_working_memory store session_id agent_id =
      let (cleared, e) = redis.del store (memory_key uuid session_id agent_id) in
      (cleared, error_result tt e)
