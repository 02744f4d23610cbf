-- ===== src/Memory/ShortTerm/Reads.antt =====
-- `GetRecentMessages` and `TrimToTokenLimit` of services/memory/short_term.go.
use tas_agent_builder.Base.{
  ℕ, ◌-◌, ◌≤◌, ◌≡◌, refl, sym, ap, ◌∙◌, ◌⊎◌, inl, inr, Bool-cases, Str, List, [], ◌++◌, none,
  length, take, drop, length-drop, take-append-drop, ℤ, pos, negsuc, pos_part, leb_ℤ, leb_ℤ_true,
  ◌-ℤ◌, ◌≤ℤ◌, ok, panic, arith, min, Result-cases, error_result-ok, dec_le,
}
use tas_agent_builder.External.{Redis, Codec, UuidText, Reply-cases}
use tas_agent_builder.Models.Memory.{MemoryEntry, ShortTermMemory, MemoryConfig}
use tas_agent_builder.Memory.ShortTerm.{
  recent, memory_key, get_conversation, trim_to_token_limit, rewrite_conversation,
  empty_conversation,
}
use tas_agent_builder.Memory.ShortTerm.Suffix.{token_sum, IsCounted}
use tas_agent_builder.Memory.ShortTerm.Trim.{trim_tokens_lem, Passed, TooLong}

-- The start of the slice, `len(memory.Entries) - limit`.
start_lem : (n limit : ℕ) → ¬ (n ≤ limit) → pos_part (pos n -ℤ pos limit) ≡ n - limit
unfolding ◌-ℤ◌
start_lem n limit h = ground arith

-- With a limit that is not negative, `GetRecentMessages` returns the last entries of the buffer:
-- as many as the limit, or all of them if there are fewer.
pub recent-suffix :
    (limit : ℕ) (entries : List MemoryEntry)
    → (older newer : List MemoryEntry) × (entries ≡ older ++ newer)
      × (recent (pos limit) entries ≡ ok newer)
      × (length newer ≡ min limit (length entries))
unfolding recent
recent-suffix limit entries = elim (dec_le (length entries) limit) [
  | yes h ↦ ([], entries, refl, ground arith, omega arith)
  | no h ↦
      let n = length entries - limit in
      (
        take n entries,
        drop n entries,
        sym (take-append-drop n entries),
        ground (arith, start_lem (length entries) limit h),
        omega (arith, length-drop n entries),
      )
]

-- A negative limit is below every length, and the slice starts past the end.
pub recent_negative :
    (limit : ℕ) (entries : List MemoryEntry) → recent (negsuc limit) entries ≡ panic
unfolding recent
recent_negative limit entries = ground arith

-- The buffer after a trim to `max_tokens`: the fewest oldest entries are gone.
pub record TokenTrimmed (max_tokens : ℤ) (es : List MemoryEntry) (memory' : ShortTermMemory)
    : Type 0 where
  pub dropped : ℕ
  pub is_suffix : memory'.entries ≡ drop dropped es
  pub counted : IsCounted memory'
  pub fits : (memory'.total_tokens ≤ℤ max_tokens) ⊎ (memory'.entries ≡ [])
  pub fewest : Passed (TooLong max_tokens) es dropped

module _ (redis : Redis) (codec : Codec ShortTermMemory) (uuid : UuidText)
    (config : MemoryConfig) where
  -- What `get_conversation` answers from a reply of Redis depends on the clock only in the times
  -- of an empty conversation.
  get_conversation-later :
      (store : redis.Store) (now later : ℤ) (s : Str) (a : ℕ) (memory : ShortTermMemory)
      → get_conversation redis codec uuid config store now s a ≡ ok memory
      → (memory' : ShortTermMemory) × (get_conversation redis codec uuid config store later s a
          ≡ ok memory')
        × (memory'.entries ≡ memory.entries)
        × (memory'.total_tokens ≡ memory.total_tokens)
  unfolding get_conversation empty_conversation
  get_conversation-later store now later s a memory h =
      elim (Reply-cases (redis.get store (memory_key uuid s a))) [
        | inl (bytes, r) ↦
            (memory, rw (r, get_conversation) (rw (r, get_conversation) at h), refl, refl)
        | inr (inl r) ↦
            let e = rw (r, get_conversation) at h in
            (empty_conversation config later s a, rw (r, get_conversation) refl, cc, cc)
        | inr (inr (e, r)) ↦ cc (rw (r, get_conversation) at h)
      ]

  rewrite_conversation-get :
      (store : redis.Store) (s : Str) (a : ℕ) (memory : ShortTermMemory) (later : ℤ)
      → (rewrite_conversation redis codec uuid config store (memory_key uuid s a) memory).1 ≡ ok tt
      → get_conversation redis codec uuid config
          (rewrite_conversation redis codec uuid config store (memory_key uuid s a) memory).0
          later
          s
          a
        ≡ ok memory
  unfolding rewrite_conversation get_conversation
  rewrite_conversation-get store s a memory later h = elim (Result-cases (codec.marshal memory)) [
    | inl (bytes, m) ↦
        let k = memory_key uuid s a in
        let done : (redis.set store k bytes _).1 ≡ none =
          error_result-ok tt _ (rw (m, rewrite_conversation) at h) in
        rw (m, rewrite_conversation)
          (rw (redis.get-set store k bytes _ done, get_conversation)
            (rw (codec.unmarshal-marshal memory bytes m)))
    | inr (inl (e, m)) ↦ cc (rw (m, rewrite_conversation) at h)
    | inr (inr m) ↦ cc (rw (m, rewrite_conversation) at h)
  ]

  -- When `TrimToTokenLimit` reports success on a counted buffer, the session reads back a buffer
  -- without the fewest oldest entries such that the rest holds at most `max_tokens` (or is empty),
  -- with its total right; a buffer within the limit keeps every entry.
  pub trim_to_token_limit-TokenTrimmed :
      (store : redis.Store) (now later : ℤ) (s : Str) (a : ℕ) (max_tokens : ℤ)
      (memory : ShortTermMemory)
      → get_conversation redis codec uuid config store now s a ≡ ok memory
      → IsCounted memory
      → (trim_to_token_limit redis codec uuid config store now s a max_tokens).1 ≡ ok tt
      → (memory' : ShortTermMemory) × (get_conversation redis codec uuid config
            (trim_to_token_limit redis codec uuid config store now s a max_tokens).0
            later
            s
            a
          ≡ ok memory')
        × TokenTrimmed max_tokens memory.entries memory'
  unfolding trim_to_token_limit
  trim_to_token_limit-TokenTrimmed store now later s a max_tokens memory got counted done =
      elim (Bool-cases (leb_ℤ memory.total_tokens max_tokens)) [
        | inl under ↦
            let (memory', r, es, total) = get_conversation-later store now later s a memory got in
            (
              memory',
              rw (got, trim_to_token_limit) (rw under r),
              record {
                dropped = 0;
                is_suffix = es;
                counted = total ∙ counted ∙ ap token_sum (sym es);
                fits = inl (rw total (leb_ℤ_true memory.total_tokens max_tokens under));
                fewest = λ k lt. absurd (omega arith);
              },
            )
        | inr over ↦
            let (n, r, fit, passed) =
              trim_tokens_lem max_tokens memory.entries memory.total_tokens counted in
            let kept = drop n memory.entries in
            let memory' : ShortTermMemory = record memory {
              entries = kept;
              total_tokens = token_sum kept;
              updated_at = now;
            } in
            let stored = rw r at (rw over at (rw (got, trim_to_token_limit) at done)) in
            (
              memory',
              rw (got, trim_to_token_limit)
                  (rw over (rw r (rewrite_conversation-get store s a memory' later stored))),
              record { dropped = n; is_suffix = refl; counted = refl; fits = fit; fewest = passed },
            )
      ]
