-- ===== src/Retrieval/Ordered.antt =====
-- The chunks that `RetrieveFullDocuments` of services/impl/document_context_impl.go returns.
use mathlib.Core.List.{Permᴰ}
use tas_agent_builder.Base.{
  ◌==◌, ◌<◌, ◌≤ℤ◌, ltb_ℤ_false, ltb, ltb_ℤ, ◌≡◌, ◌≢◌, ◌⊎◌, refl, sym, Bool-cases, true, false, inl,
  inr, Str, str_eq, str_eq_iff, str_eq_refl, List, [], ◌∷◌, map, ℤ, ok, arith,
}
use tas_agent_builder.Models.Document.{RetrievedChunk, ChunkRetrievalRequest, DocumentContextResult}
use tas_agent_builder.Hybrid.Sorted.{Sorted, sort_slice-Permᴰ, sort_slice-Sorted}
use tas_agent_builder.Retrieval.Pages.{AudiModalChunk}
use tas_agent_builder.Retrieval.Full.{
  AudiModal, str_less, chunk_less, retrieved_of, fetch_request, full_result,
  retrieve_full_documents,
}

str_less-asymmetric : (s t : Str) → str_less s t ≡ true → str_less t s ≡ false
unfolding str_less
str_less-asymmetric [] [] h = refl
str_less-asymmetric (c ∷ s) [] h = cc
str_less-asymmetric [] (d ∷ t) h = refl
str_less-asymmetric (c ∷ s) (d ∷ t) h = elim (Bool-cases (c == d)) [
  | inl same ↦
      let other : (d == c) ≡ true = ground (arith, same) in
      rw (other) (str_less-asymmetric s t (rw same at h))
  | inr apart ↦
      let other : (d == c) ≡ false = ground (arith, apart) in
      let less : ltb c d ≡ true = rw apart at h in
      let e : ltb d c ≡ false = ground (arith, less) in rw (other) e
]

str_eq-false : (s t : Str) → str_eq s t ≡ false → str_eq t s ≡ false
str_eq-false s t h = elim (Bool-cases (str_eq t s)) [
  | inl same ↦ cc (rw ((str_eq_iff t s).0 same, str_eq_refl s) at h)
  | inr other ↦ other
]

chunk_less-asymmetric : (a b : RetrievedChunk) → chunk_less a b ≡ true → chunk_less b a ≡ false
unfolding chunk_less
chunk_less-asymmetric a b h = elim (Bool-cases (str_eq a.document_id b.document_id)) [
  | inl same ↦
      let other : str_eq b.document_id a.document_id ≡ true =
        (str_eq_iff b.document_id a.document_id).1
          (sym ((str_eq_iff a.document_id b.document_id).0 same)) in
      let less : ltb_ℤ a.chunk_number b.chunk_number ≡ true = rw same at h in
      let e : ltb_ℤ b.chunk_number a.chunk_number ≡ false = ground (arith, less) in rw (other) e
  | inr apart ↦
      rw (str_eq-false a.document_id b.document_id apart)
        (str_less-asymmetric a.document_id b.document_id (rw apart at h))
]

-- `s` comes before `t` in the order of strings by their bytes.
abbrev pub Before : Str → Str → Type 0
Before s [] = ⊥
Before [] (d ∷ t) = Unit
Before (c ∷ s) (d ∷ t) = (c < d) ⊎ ((c ≡ d) × Before s t)

-- `a` may stand before `b`: its document comes first, or they are of one document and its number is
-- not the greater one.
abbrev pub InOrder : RetrievedChunk → RetrievedChunk → Type 0
InOrder a b =
    Before a.document_id b.document_id
    ⊎ ((a.document_id ≡ b.document_id) × (a.chunk_number ≤ℤ b.chunk_number))

abbrev pub Ordered : List RetrievedChunk → Type 0
Ordered [] = Unit
Ordered (a ∷ []) = Unit
Ordered (a ∷ b ∷ rest) = InOrder a b × Ordered (b ∷ rest)

str_less-Before : (s t : Str) → str_less s t ≡ false → s ≢ t → Before t s
unfolding str_less
str_less-Before [] [] h ne = absurd (ne refl)
str_less-Before (c ∷ s) [] h ne = tt
str_less-Before [] (d ∷ t) h ne = cc
str_less-Before (c ∷ s) (d ∷ t) h ne = elim (Bool-cases (c == d)) [
  | inl same ↦
      let e : c ≡ d = ground (arith, same) in
      inr (sym e, str_less-Before s t (rw same at h) (λ p. ne (cc (e, p))))
  | inr apart ↦ let less : ltb c d ≡ false = rw apart at h in inl (ground (arith, apart, less))
]

chunk_less-InOrder : (a b : RetrievedChunk) → chunk_less b a ≡ false → InOrder a b
unfolding chunk_less
chunk_less-InOrder a b h = elim (Bool-cases (str_eq b.document_id a.document_id)) [
  | inl same ↦ inr (
    sym ((str_eq_iff b.document_id a.document_id).0 same),
    ltb_ℤ_false b.chunk_number a.chunk_number (rw same at h),
  )
  | inr apart ↦ inl (
      str_less-Before b.document_id a.document_id (rw apart at h)
        (λ e. cc (apart, (str_eq_iff b.document_id a.document_id).1 e)))
]

Sorted-Ordered : (cs : List RetrievedChunk) → Sorted chunk_less cs → Ordered cs
Sorted-Ordered [] s = tt
Sorted-Ordered (a ∷ []) s = tt
Sorted-Ordered (a ∷ b ∷ rest) s = (chunk_less-InOrder a b s.0, Sorted-Ordered (b ∷ rest) s.1)

-- The chunks of `result` are those of `all`, ordered by document and number.
pub record IsOrdered (modal : AudiModal) (all : List AudiModalChunk)
    (result : DocumentContextResult) : Type 0 where
  pub same : Permᴰ result.chunks (map (retrieved_of modal.floats) all)
  pub ordered : Ordered result.chunks

-- When chunks could be fetched, `RetrieveFullDocuments` returns all of them, ordered by the bytes of
-- the document's id and, within a document, by ascending number.
pub retrieve_full_documents-IsOrdered :
    (modal : AudiModal) (took : ℤ) (req : ChunkRetrievalRequest) (all : List AudiModalChunk)
    (total : ℤ)
    → fetch_request modal req ≡ ok (all, total)
    → (result : DocumentContextResult) × (retrieve_full_documents modal took req ≡ ok result)
      × IsOrdered modal all result
unfolding retrieve_full_documents full_result
retrieve_full_documents-IsOrdered modal took req all total e =
    let chunks = map (retrieved_of modal.floats) all in
    (
      full_result modal took (all, total),
      rw (e, retrieve_full_documents) refl,
      record {
        same = sort_slice-Permᴰ chunk_less chunks;
        ordered = Sorted-Ordered _ (sort_slice-Sorted chunk_less chunk_less-asymmetric chunks);
      },
    )
