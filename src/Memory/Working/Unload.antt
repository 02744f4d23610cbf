-- ===== src/Memory/Working/Unload.antt =====
-- `UnloadDocument` of services/memory/working_memory.go: the document, its chunks and their tokens
-- go, and nothing else does.
use tas_agent_builder.Base.{
  ℕ, ◌==◌, ◌++◌, ◌≡◌, ◌≢◌, refl, sym, ap, ◌∙◌, inl, inr, Bool-cases, Option-cases, if◌then◌else◌,
  Str, str_eq, str_eq_iff, List, [], ◌∷◌, Option, none, some, All, ℤ, arith,
}
use tas_agent_builder.External.{UuidText}
use tas_agent_builder.Models.Document.{RetrievedChunk}
use tas_agent_builder.Models.Memory.{LoadedDocument, WorkingMemory, MemoryConfig}
use tas_agent_builder.Memory.Working.{remove_document, remaining_chunks, unload_document_in}
use tas_agent_builder.Memory.Working.Chunks.{count_tokens-zero}
use tas_agent_builder.Memory.Working.Documents.{count, IsValid, Removed, remove_document-Removed}

-- The chunks of one document, in order.
unfoldable pub chunks_of : Str → List RetrievedChunk → List RetrievedChunk
chunks_of id [] = []
chunks_of id (chunk ∷ rest) =
    let tail = chunks_of id rest in if str_eq chunk.document_id id then chunk ∷ tail else tail

remaining_chunks-All :
    (id : Str) (cs : List RetrievedChunk) → All (λ c. c.document_id ≢ id) (remaining_chunks id cs)
unfolding remaining_chunks
remaining_chunks-All id [] = tt
remaining_chunks-All id (c ∷ cs) = elim (Bool-cases (str_eq c.document_id id)) [
  | inl same ↦ rw same (remaining_chunks-All id cs)
  | inr other ↦
      rw other (λ e. ground (arith, str_eq_iff c.document_id id), remaining_chunks-All id cs)
]

chunks_of-remaining_chunks :
    (id other : Str) (cs : List RetrievedChunk)
    → other ≢ id
    → chunks_of other (remaining_chunks id cs) ≡ chunks_of other cs
unfolding chunks_of remaining_chunks
chunks_of-remaining_chunks id other [] ne = refl
chunks_of-remaining_chunks id other (c ∷ cs) ne = ground (
  arith,
  str_eq_iff c.document_id id,
  str_eq_iff c.document_id other,
  chunks_of-remaining_chunks id other cs,
)

-- `after` is `before` without one document, of the id `id`; all the others stand as they were.
pub record WithoutOne (id : ℕ) (before after : List LoadedDocument) : Type 0 where
  pub front : List LoadedDocument
  pub removed : LoadedDocument
  pub back : List LoadedDocument
  pub was : before ≡ front ++ (removed ∷ back)
  pub rest : after ≡ front ++ back
  pub same_id : removed.document_id ≡ id

remove_document-WithoutOne :
    (id : ℕ) (docs after : List LoadedDocument)
    → remove_document id docs ≡ some after
    → WithoutOne id docs after
unfolding remove_document
remove_document-WithoutOne id [] after h = cc
remove_document-WithoutOne id (x ∷ docs) after h = elim (Bool-cases (x.document_id == id)) [
  | inl hit ↦
      let found : remove_document id (x ∷ docs) ≡ some docs = rw (hit, remove_document) refl in
      let e : docs ≡ after = cc (found, h) in
      record {
        front = [];
        removed = x;
        back = docs;
        was = refl;
        rest = sym e;
        same_id = ground (arith, hit);
      }
  | inr miss ↦ elim (Option-cases (remove_document id docs)) [
    | inl absent ↦
        let nothing : remove_document id (x ∷ docs) ≡ none =
          rw (miss, remove_document) (rw absent refl) in
        cc (nothing, h)
    | inr (fewer, present) ↦
        let w = remove_document-WithoutOne id docs fewer present in
        let found : remove_document id (x ∷ docs) ≡ some (x ∷ fewer) =
          rw (miss, remove_document) (rw present refl) in
        let e : (x ∷ fewer) ≡ after = cc (found, h) in
        record {
          front = x ∷ w.front;
          removed = w.removed;
          back = w.back;
          was = ap (λ l. x ∷ l) w.was;
          rest = sym e ∙ ap (λ l. x ∷ l) w.rest;
          same_id = w.same_id;
        }
  ]
]

-- Unloading a loaded document from a valid working memory leaves a valid one in which the document
-- is absent, no chunk carries its id, all other documents are the same, in the same order, and so
-- are the chunks of every other document.
pub record Unloaded (text : Str) (id : ℕ) (before after : WorkingMemory) : Type 0 where
  pub gone : count id after.loaded_documents ≡ 0
  pub others_loaded : WithoutOne id before.loaded_documents after.loaded_documents
  pub chunks_gone : All (λ c. c.document_id ≢ text) after.retrieved_chunks
  pub others_kept :
      (other : Str)
      → other ≢ text
      → chunks_of other after.retrieved_chunks ≡ chunks_of other before.retrieved_chunks

abbrev pub Unloads : MemoryConfig → Str → ℕ → WorkingMemory → Option WorkingMemory → Type 0
Unloads config text id memory none = count id memory.loaded_documents ≡ 0
Unloads config text id memory (some after) = IsValid config after × Unloaded text id memory after

-- `UnloadDocument` on a valid working memory: it saves nothing exactly where the document is not
-- loaded, and otherwise saves a valid memory without this document and its chunks, in which every
-- other document and chunk is as it was.
pub unload_document_in-Unloads :
    (config : MemoryConfig) (uuid : UuidText) (now : ℤ) (id : ℕ) (memory : WorkingMemory)
    → IsValid config memory
    → Unloads config (uuid.to_string id) id memory (unload_document_in uuid now id memory)
unfolding unload_document_in
unload_document_in-Unloads config uuid now id memory v =
    elim (Option-cases (remove_document id memory.loaded_documents)) [
      | inl absent ↦
          rw (absent, unload_document_in)
            (rw absent at (remove_document-Removed id memory.loaded_documents 0))
      | inr (docs, present) ↦
          let chunks = remaining_chunks (uuid.to_string id) memory.retrieved_chunks in
          let removed = λ (other : ℕ). removed_at docs present other in
          rw (present, unload_document_in)
            (
              record {
                bounded = omega (arith, (removed 0).0, v.bounded);
                distinct = λ other. omega (arith, (removed other).2, v.distinct other);
                counted = count_tokens-zero chunks;
              },
              record {
                gone = omega (arith, (removed id).1, v.distinct id);
                others_loaded = remove_document-WithoutOne id memory.loaded_documents docs present;
                chunks_gone = remaining_chunks-All (uuid.to_string id) memory.retrieved_chunks;
                others_kept = λ other.
                    chunks_of-remaining_chunks (uuid.to_string id) other memory.retrieved_chunks;
              },
            )
    ]
  where
    removed_at :
        (docs : List LoadedDocument)
        → remove_document id memory.loaded_documents ≡ some docs
        → (other : ℕ) → Removed id memory.loaded_documents other (some docs)
    removed_at docs present other =
        rw present at (remove_document-Removed id memory.loaded_documents other)
