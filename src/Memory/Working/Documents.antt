-- ===== src/Memory/Working/Documents.antt =====
-- The document list of services/memory/working_memory.go: `LoadDocument` and `UnloadDocument` keep
-- it free of duplicates and within `MaxLoadedDocuments`.
use tas_agent_builder.Base.{
  ℕ, suc, ◌+◌, ◌≤◌, ◌<◌, ◌==◌, ◌≡◌, ◌≢◌, refl, inl, inr, Bool-cases, Option-cases, if◌then◌else◌,
  false, List, [], ◌∷◌, ◌++◌, Option, none, some, length, length-append, ℤ, pos, ◌≤ℤ◌, leb_ℤ,
  leb_ℤ_false, ok, arith,
}
use tas_agent_builder.Models.Memory.{LoadedDocument, WorkingMemory, MemoryConfig}
use tas_agent_builder.Memory.Working.{
  replace_document, without_oldest, make_room, load_document_in, remove_document,
}
use tas_agent_builder.Memory.Working.Chunks.{chunk_sum}

-- How often a document is in the list.
unfoldable pub count : ℕ → List LoadedDocument → ℕ
count id [] = 0
count id (doc ∷ rest) = if doc.document_id == id then suc (count id rest) else count id rest

pub record IsValid (config : MemoryConfig) (memory : WorkingMemory) : Type 0 where
  pub bounded : pos (length memory.loaded_documents) ≤ℤ config.max_loaded_documents
  pub distinct : (id : ℕ) → count id memory.loaded_documents ≤ 1
  pub counted : memory.total_tokens ≡ chunk_sum memory.retrieved_chunks

count-append :
    (id : ℕ) (xs ys : List LoadedDocument) → count id (xs ++ ys) ≡ count id xs + count id ys
unfolding count
count-append id [] ys = omega arith
count-append id (x ∷ xs) ys = ground (arith, count-append id xs ys)

-- Replacing a document in place changes neither the length nor any count; it fails exactly where
-- the document is not loaded.
abbrev Replaced : LoadedDocument → List LoadedDocument → ℕ → Option (List LoadedDocument) → Type 0
Replaced doc docs id none = count doc.document_id docs ≡ 0
Replaced doc docs id (some docs') =
    (length docs' ≡ length docs)
    × (count id docs' ≡ count id docs)
    × (0 < count doc.document_id docs)

Replaced-cons :
    (doc x : LoadedDocument) (rest : List LoadedDocument) (id : ℕ)
    (r : Option (List LoadedDocument))
    → (x.document_id == doc.document_id) ≡ false
    → Replaced doc rest id r
    → Replaced doc (x ∷ rest) id (elim r [ none ↦ none | some rest' ↦ some (x ∷ rest') ])
unfolding count
Replaced-cons doc x rest id none miss h = ground arith
Replaced-cons doc x rest id (some rest') miss h = ground arith

replace_document-Replaced :
    (doc : LoadedDocument) (docs : List LoadedDocument) (id : ℕ)
    → Replaced doc docs id (replace_document doc docs)
unfolding replace_document count
replace_document-Replaced doc [] id = refl
replace_document-Replaced doc (x ∷ rest) id = elim (Bool-cases (x.document_id == doc.document_id)) [
  | inl hit ↦ rw (hit, Replaced) (ground arith, ground arith, ground arith)
  | inr miss ↦
      rw (miss, Replaced)
        (Replaced-cons doc x rest id (replace_document doc rest) miss
          (replace_document-Replaced doc rest id))
]

-- Removing takes out one occurrence of the document and nothing else; it fails exactly where the
-- document is not loaded.
abbrev pub Removed : ℕ → List LoadedDocument → ℕ → Option (List LoadedDocument) → Type 0
Removed id docs other none = count id docs ≡ 0
Removed id docs other (some docs') =
    (length docs' + 1 ≡ length docs)
    × (count id docs' + 1 ≡ count id docs)
    × (count other docs' ≤ count other docs)
    × (other ≢ id → count other docs' ≡ count other docs)

Removed-cons :
    (id : ℕ) (x : LoadedDocument) (rest : List LoadedDocument) (other : ℕ)
    (r : Option (List LoadedDocument))
    → (x.document_id == id) ≡ false
    → Removed id rest other r
    → Removed id (x ∷ rest) other (elim r [ none ↦ none | some rest' ↦ some (x ∷ rest') ])
unfolding count
Removed-cons id x rest other none miss h = ground arith
Removed-cons id x rest other (some rest') miss h =
    (ground arith, ground arith, ground arith, λ ne. ground (arith, h.3 ne))

pub remove_document-Removed :
    (id : ℕ) (docs : List LoadedDocument) (other : ℕ)
    → Removed id docs other (remove_document id docs)
unfolding remove_document count
remove_document-Removed id [] other = refl
remove_document-Removed id (x ∷ rest) other = elim (Bool-cases (x.document_id == id)) [
  | inl hit ↦ rw (hit, Removed) (ground arith, ground arith, ground arith, λ ne. ground arith)
  | inr miss ↦
      rw (miss, Removed)
        (Removed-cons id x rest other (remove_document id rest) miss
          (remove_document-Removed id rest other))
]

-- `make_room` drops at most the oldest document.
make_room-ok :
    (config : MemoryConfig) (docs : List LoadedDocument)
    → pos 1 ≤ℤ config.max_loaded_documents
    → pos (length docs) ≤ℤ config.max_loaded_documents
    → (docs' : List LoadedDocument) × (make_room config docs ≡ ok docs')
      × (pos (length docs' + 1) ≤ℤ config.max_loaded_documents)
      × ((id : ℕ) → count id docs' ≤ count id docs)
unfolding make_room without_oldest count
make_room-ok config [] one h = ([], ground arith, omega arith, λ id. omega arith)
make_room-ok config (x ∷ rest) one h =
    elim (Bool-cases (leb_ℤ config.max_loaded_documents (pos (length (x ∷ rest))))) [
      | inl full ↦ (rest, rw full, omega arith, λ id. ground arith)
      | inr space ↦ (
        x ∷ rest,
        rw space,
        omega (arith, leb_ℤ_false config.max_loaded_documents (pos (length (x ∷ rest))) space),
        λ id. omega arith,
      )
    ]

-- A document that was absent may be added, under the same or another load time.
count_added :
    (doc added : LoadedDocument) (docs : List LoadedDocument) (id : ℕ)
    → added.document_id ≡ doc.document_id
    → count doc.document_id docs ≡ 0
    → count id docs ≤ 1
    → (count id (docs ++ (added ∷ [])) ≤ 1) × (count doc.document_id (docs ++ (added ∷ [])) ≡ 1)
unfolding count
count_added doc added docs id e absent h = (
  ground (arith, count-append id docs (added ∷ [])),
  ground (arith, count-append doc.document_id docs (added ∷ [])),
)

-- `LoadDocument` on a valid working memory, with room for one document at least, does not fail:
-- the result is valid again, holds the document once, and keeps the chunks.
pub load_document_in-IsValid :
    (config : MemoryConfig) (now : ℤ) (doc : LoadedDocument) (memory : WorkingMemory)
    → pos 1 ≤ℤ config.max_loaded_documents
    → IsValid config memory
    → (memory' : WorkingMemory) × (load_document_in config now doc memory ≡ ok memory')
      × IsValid config memory'
      × (count doc.document_id memory'.loaded_documents ≡ 1)
      × (memory'.retrieved_chunks ≡ memory.retrieved_chunks)
unfolding load_document_in
load_document_in-IsValid config now doc memory one v =
    elim (Option-cases (replace_document doc memory.loaded_documents)) [
      | inl absent ↦
          let (docs, made, room, fewer) =
            make_room-ok config memory.loaded_documents one v.bounded in
          let none_before : count doc.document_id memory.loaded_documents ≡ 0 =
            rw absent at (replace_document-Replaced doc memory.loaded_documents 0) in
          let none_left : count doc.document_id docs ≡ 0 =
            omega (arith, fewer doc.document_id, none_before) in
          let fresh : List LoadedDocument = record doc { loaded_at = now } ∷ [] in
          (
            record memory { loaded_documents = docs ++ fresh; updated_at = now },
            rw (absent, load_document_in) (rw made refl),
            record {
              bounded = omega (arith, length-append docs fresh, room);
              distinct = λ id.
                  (count_added doc (record doc { loaded_at = now }) docs id refl none_left
                    (omega (arith, fewer id, v.distinct id))).0;
              counted = v.counted;
            },
            (count_added doc (record doc { loaded_at = now }) docs doc.document_id refl none_left
                (omega (arith, none_left))).1,
            refl,
          )
      | inr (docs, present) ↦ (
        record memory { loaded_documents = docs },
        rw (present, load_document_in) refl,
        record {
          bounded = omega (arith, (replaced docs present 0).0, v.bounded);
          distinct = λ id. omega (arith, (replaced docs present id).1, v.distinct id);
          counted = v.counted;
        },
        omega (arith, replaced docs present doc.document_id, v.distinct doc.document_id),
        refl,
      )
    ]
  where
    replaced :
        (docs : List LoadedDocument)
        → replace_document doc memory.loaded_documents ≡ some docs
        → (id : ℕ) → Replaced doc memory.loaded_documents id (some docs)
    replaced docs present id =
        rw present at (replace_document-Replaced doc memory.loaded_documents id)
