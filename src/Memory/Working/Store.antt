-- ===== src/Memory/Working/Store.antt =====
-- The methods of services/memory/working_memory.go on the store, and that the two tiers of
-- services/memory keep apart although they share one Redis.
use tas_agent_builder.Base.{
  ℕ, ◌≡◌, ◌≢◌, refl, ap, get_or, arith, ◌∙◌, inl, inr, Str, List, none, ℤ, pos, ◌≤ℤ◌, Result-cases,
  error_result-ok, ok,
}
use tas_agent_builder.External.{Redis, Codec, UuidText}
use tas_agent_builder.Models.Document.{RetrievedChunk}
use tas_agent_builder.Models.Memory.{MemoryEntry, ShortTermMemory, WorkingMemory, MemoryConfig}
use tas_agent_builder.Memory.ShortTerm
use tas_agent_builder.Memory.ShortTerm.{appended, add_message, store_conversation}
use tas_agent_builder.Memory.Working.{
  memory_key, get_working_memory, write_memory, set_document_context, set_chunks,
}
use tas_agent_builder.Memory.Working.Chunks.{chunk_sum, LongestPrefix, fit_chunks-LongestPrefix}

-- A key of the one tier is no key of the other.
pub tiers_apart :
    (uuid : UuidText) (s t : Str) (a b : ℕ) → memory_key uuid s a ≢ ShortTerm.memory_key uuid t b
unfolding memory_key ShortTerm.memory_key
tiers_apart uuid s t a b =
    λ e. let differ : ◌≡◌ {A = ℕ} b'w' b's' = ap (λ k. get_or k 7 0) e in omega arith

module _ (redis : Redis) (codec : Codec WorkingMemory) (uuid : UuidText)
    (config : MemoryConfig) where
  write_memory-get :
      (store : redis.Store) (s : Str) (a : ℕ) (ttl : ℤ) (memory : WorkingMemory) (later : ℤ)
      → (write_memory redis codec uuid config store (memory_key uuid s a) ttl memory).1 ≡ ok tt
      → get_working_memory redis codec uuid config
          (write_memory redis codec uuid config store (memory_key uuid s a) ttl memory).0
          later
          s
          a
        ≡ ok memory
  unfolding write_memory get_working_memory
  write_memory-get store s a ttl memory later h = elim (Result-cases (codec.marshal memory)) [
    | inl (bytes, m) ↦
        let k = memory_key uuid s a in
        let done : (redis.set store k bytes ttl).1 ≡ none =
          error_result-ok tt _ (rw (m, write_memory) at h) in
        rw (m, write_memory)
          (rw (redis.get-set store k bytes ttl done, get_working_memory)
            (rw (codec.unmarshal-marshal memory bytes m)))
    | inr (inl (e, m)) ↦ cc (rw (m, write_memory) at h)
    | inr (inr m) ↦ cc (rw (m, write_memory) at h)
  ]

  -- When `SetDocumentContext` reports success, the session reads back its working memory with the
  -- longest prefix of the chunks that is within the token limit, their sum as the total, and the
  -- loaded documents unchanged.
  pub set_document_context-get :
      (store : redis.Store) (now later : ℤ) (s : Str) (a : ℕ) (chunks : List RetrievedChunk)
      (memory : WorkingMemory)
      → pos 0 ≤ℤ config.working_memory_max_tokens
      → get_working_memory redis codec uuid config store now s a ≡ ok memory
      → (set_document_context redis codec uuid config store now s a chunks).1 ≡ ok tt
      → (kept : List RetrievedChunk) × (get_working_memory redis codec uuid config
            (set_document_context redis codec uuid config store now s a chunks).0
            later
            s
            a
          ≡ ok (record memory {
            retrieved_chunks = kept;
            total_tokens = chunk_sum kept;
            updated_at = now;
          }))
        × LongestPrefix config.working_memory_max_tokens chunks kept
  unfolding set_document_context set_chunks
  set_document_context-get store now later s a chunks memory h got done =
      let (fit, sum) = fit_chunks-LongestPrefix config chunks h in
      let stored = rw (got, set_document_context) at done in
      (
        _,
        rw (got, set_document_context) (write_memory-get store s a _ _ later stored ∙ rw sum refl),
        fit,
      )

  -- Adding a message to any conversation leaves every session's working memory as it is.
  pub get_working_memory-add_message :
      (talk : Codec ShortTermMemory) (store : redis.Store) (now : ℤ) (fresh : Str)
      (entry : MemoryEntry) (later : ℤ) (s : Str) (a : ℕ)
      → get_working_memory redis codec uuid config
          (add_message redis talk uuid config store now fresh entry).0
          later
          s
          a
        ≡ get_working_memory redis codec uuid config store later s a
  unfolding add_message store_conversation get_working_memory
  get_working_memory-add_message talk store now fresh entry later s a =
      elim (Result-cases (appended redis talk uuid config store now fresh entry)) [
        | inl (memory, m) ↦ elim (Result-cases (talk.marshal memory)) [
          | inl (bytes, b) ↦
              rw (m, add_message)
                (rw (b, store_conversation)
                  (rw
                    (
                      redis.get-set_ne store _ _ bytes config.short_term_ttl
                          (tiers_apart uuid s entry.session_id a entry.agent_id),
                      get_working_memory,
                    )
                    refl))
          | inr (inl (e, b)) ↦ rw (m, add_message) (rw (b, store_conversation) refl)
          | inr (inr b) ↦ rw (m, add_message) (rw (b, store_conversation) refl)
        ]
        | inr (inl (e, m)) ↦ rw (m, add_message) refl
        | inr (inr m) ↦ rw (m, add_message) refl
      ]
