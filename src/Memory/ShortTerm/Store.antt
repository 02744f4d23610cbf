-- ===== src/Memory/ShortTerm/Store.antt =====
-- The methods of services/memory/short_term.go on the store: what a session reads after a write,
-- and that sessions do not disturb one another.
use tas_agent_builder.Base.{
  ℕ, ◌≡◌, ◌≢◌, refl, sym, ap, ◌∙◌, inl, inr, Bool-cases, false, Str, List, [], ◌∷◌, ◌++◌, none,
  length, ℤ, pos, ◌+ℤ◌, ◌≤ℤ◌, Result-cases, error_result-ok, or_wrap-ok, ok, arith, append_inj,
  append_cancel, codes,
}
use tas_agent_builder.External.{Redis, Codec, UuidText}
use tas_agent_builder.Models.Memory.{MemoryEntry, ShortTermMemory, MemoryConfig}
use tas_agent_builder.Memory.ShortTerm.{
  grow, exceeds, memory_key, append_entry, stamp_entry, get_conversation, appended, add_message,
  store_conversation,
}
use tas_agent_builder.Memory.ShortTerm.Suffix.{token_sum, token_sum-append, LongestFit, IsCounted}
use tas_agent_builder.Memory.ShortTerm.Trim.{trim_memory-LongestFit}

-- Two sessions share a key only if they are the same session of the same agent.
pub memory_key_inj :
    (uuid : UuidText) (s t : Str) (a b : ℕ)
    → memory_key uuid s a ≡ memory_key uuid t b
    → (s ≡ t) × (a ≡ b)
unfolding memory_key
memory_key_inj uuid s t a b e =
    let same : length (uuid.to_string a) ≡ length (uuid.to_string b) =
      uuid.length-to_string a ∙ sym (uuid.length-to_string b) in
    let tail = append_cancel (codes "memory:short_term:") _ _ e in
    let (ids, rest) = append_inj (uuid.to_string a) (uuid.to_string b) _ _ same tail in
    (append_cancel (codes ":") s t rest, uuid.to_string_inj a b ids)

exceeds_false :
    (config : MemoryConfig) (memory : ShortTermMemory)
    → exceeds config memory ≡ false
    → (memory.total_tokens ≤ℤ config.short_term_max_tokens)
      × (pos (length memory.entries) ≤ℤ config.short_term_max_entries)
unfolding exceeds
exceeds_false config memory h = ground arith

grow-IsCounted :
    (now : ℤ) (entry : MemoryEntry) (memory : ShortTermMemory)
    → IsCounted memory
    → IsCounted (grow now entry memory)
unfolding grow
grow-IsCounted now entry memory counted =
    ap (λ t. t +ℤ entry.token_count) counted ∙ sym (token_sum-append memory.entries entry)

-- A buffer within both limits is its own longest fit.
LongestFit-self :
    (config : MemoryConfig) (memory : ShortTermMemory)
    → IsCounted memory
    → exceeds config memory ≡ false
    → LongestFit config memory.entries memory.entries
LongestFit-self config memory counted under =
    let (tokens, many) = exceeds_false config memory under in
    record {
      dropped = 0;
      is_suffix = refl;
      fits = inl (many, rw counted at tokens);
      fewest = λ k lt. absurd (omega arith);
    }

-- Appending an entry to a counted buffer keeps the longest tail within the limits, on every branch
-- of the test whether to trim.
pub append_entry-LongestFit :
    (config : MemoryConfig) (now : ℤ) (entry : MemoryEntry) (memory : ShortTermMemory)
    → pos 0 ≤ℤ config.short_term_max_entries
    → IsCounted memory
    → (kept : List MemoryEntry) × (append_entry config now entry memory
        ≡ ok (record memory { entries = kept; total_tokens = token_sum kept; updated_at = now }))
      × LongestFit config (memory.entries ++ (entry ∷ [])) kept
unfolding append_entry grow
append_entry-LongestFit config now entry memory h counted =
    let counted' = grow-IsCounted now entry memory counted in
    elim (Bool-cases (exceeds config (grow now entry memory))) [
      | inl over ↦
          let (kept, r, fit) = trim_memory-LongestFit config (grow now entry memory) h counted' in
          (kept, rw over r, fit)
      | inr under ↦ (
        memory.entries ++ (entry ∷ []),
        rw (under, counted'),
        LongestFit-self config (grow now entry memory) counted' under,
      )
    ]

module _ (redis : Redis) (codec : Codec ShortTermMemory) (uuid : UuidText)
    (config : MemoryConfig) where
  -- A write that reports success stores the buffer: the session reads it back from the
  -- store that is left.
  store_conversation-get :
      (store : redis.Store) (s : Str) (a : ℕ) (memory : ShortTermMemory) (later : ℤ)
      → (store_conversation redis codec uuid config store (memory_key uuid s a) memory).1 ≡ ok tt
      → get_conversation redis codec uuid config
          (store_conversation redis codec uuid config store (memory_key uuid s a) memory).0
          later
          s
          a
        ≡ ok memory
  unfolding store_conversation get_conversation
  store_conversation-get store s a memory later h = elim (Result-cases (codec.marshal memory)) [
    | inl (bytes, m) ↦
        let k = memory_key uuid s a in
        let done : (redis.set store k bytes config.short_term_ttl).1 ≡ none =
          error_result-ok tt _
            (or_wrap-ok "failed to store conversation" _ (rw (m, store_conversation) at h)) in
        rw (m, store_conversation)
          (rw (redis.get-set store k bytes config.short_term_ttl done, get_conversation)
            (rw (codec.unmarshal-marshal memory bytes m)))
    | inr (inl (e, m)) ↦ cc (rw (m, store_conversation) at h)
    | inr (inr m) ↦ cc (rw (m, store_conversation) at h)
  ]

  -- When `AddMessage` reports success, the session reads back from the store that is left the longest tail
  -- within the limits of its old entries and the new one, with the right total.
  pub add_message-get_conversation :
      (store : redis.Store) (now : ℤ) (fresh : Str) (entry : MemoryEntry) (memory : ShortTermMemory)
      (later : ℤ)
      → pos 0 ≤ℤ config.short_term_max_entries
      → get_conversation redis codec uuid config store now entry.session_id entry.agent_id
        ≡ ok memory
      → IsCounted memory
      → (add_message redis codec uuid config store now fresh entry).1 ≡ ok tt
      → (kept : List MemoryEntry) × (get_conversation redis codec uuid config
            (add_message redis codec uuid config store now fresh entry).0
            later
            entry.session_id
            entry.agent_id
          ≡ ok (record memory { entries = kept; total_tokens = token_sum kept; updated_at = now }))
        × LongestFit config (memory.entries ++ (stamp_entry now fresh entry ∷ [])) kept
  unfolding add_message appended
  add_message-get_conversation store now fresh entry memory later h got counted done =
      let (kept, r, fit) =
        append_entry-LongestFit config now (stamp_entry now fresh entry) memory h counted in
      let made : appended redis codec uuid config store now fresh entry ≡ ok _ =
        rw (got, appended) r in
      let stored = rw (made, add_message) at done in
      (kept, rw (made, add_message) (store_conversation-get store _ _ _ later stored), fit)

  -- Another session of any agent, or the same session of another agent.
  abbrev Other : Str → ℕ → Str → ℕ → Type 0
  Other s a t b = ¬ ((t ≡ s) × (b ≡ a))

  memory_key-ne_of_Other :
      (s t : Str) (a b : ℕ) → Other s a t b → memory_key uuid t b ≢ memory_key uuid s a
  memory_key-ne_of_Other s t a b other = λ e. other (memory_key_inj uuid t s b a e)

  store_conversation-get_ne :
      (store : redis.Store) (s t : Str) (a b : ℕ) (memory : ShortTermMemory) (later : ℤ)
      → Other s a t b
      → get_conversation redis codec uuid config
          (store_conversation redis codec uuid config store (memory_key uuid s a) memory).0
          later
          t
          b
        ≡ get_conversation redis codec uuid config store later t b
  unfolding store_conversation get_conversation
  store_conversation-get_ne store s t a b memory later other =
      elim (Result-cases (codec.marshal memory)) [
        | inl (bytes, m) ↦
            rw (m, store_conversation)
              (rw
                (
                  redis.get-set_ne store _ _ bytes config.short_term_ttl
                      (memory_key-ne_of_Other s t a b other),
                  get_conversation,
                )
                refl)
        | inr (inl (e, m)) ↦ rw (m, store_conversation) refl
        | inr (inr m) ↦ rw (m, store_conversation) refl
      ]

  -- `AddMessage` changes what its own session reads, and no other session's conversation, whether
  -- it succeeds or fails.
  pub add_message-get_conversation_ne :
      (store : redis.Store) (now : ℤ) (fresh : Str) (entry : MemoryEntry) (t : Str) (b : ℕ)
      (later : ℤ)
      → Other entry.session_id entry.agent_id t b
      → get_conversation redis codec uuid config
          (add_message redis codec uuid config store now fresh entry).0
          later
          t
          b
        ≡ get_conversation redis codec uuid config store later t b
  unfolding add_message
  add_message-get_conversation_ne store now fresh entry t b later other =
      elim (Result-cases (appended redis codec uuid config store now fresh entry)) [
        | inl (memory, m) ↦
            rw (m, add_message) (store_conversation-get_ne store _ t _ b memory later other)
        | inr (inl (e, m)) ↦ rw (m, add_message) refl
        | inr (inr m) ↦ rw (m, add_message) refl
      ]
