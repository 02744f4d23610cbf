-- ===== src/Memory/Consolidation/Session.antt =====
-- What `ConsolidateSession` of services/memory/consolidation.go leaves and reports.
use tas_agent_builder.Base.{
  ℕ, ◌*◌, ◌≡◌, ◌≢◌, refl, sym, ap, ◌∙◌, inl, inr, false, Bool-cases, Str, get_or, List, [], ◌∷◌,
  length, map, ℤ, pos, ◌+ℤ◌, ◌-ℤ◌, Result-cases, ok, arith, zero-+ℤ, +ℤ-zero, +ℤ_assoc,
}
use tas_agent_builder.External.{Redis, Codec, UuidText, Printer}
use tas_agent_builder.Floats.{FloatOps}
use tas_agent_builder.Models.Memory.{
  MemoryEntry, ShortTermMemory, MemoryConfig, ConsolidationRequest, ConsolidationResult, second,
}
use tas_agent_builder.Memory.LongTerm.{DeepLake, store_summary}
use tas_agent_builder.Memory.ShortTerm
use tas_agent_builder.Memory.ShortTerm.{get_conversation}
use tas_agent_builder.Memory.ShortTerm.Suffix.{token_sum}
use tas_agent_builder.Memory.Tokens.{estimate_token_count}
use tas_agent_builder.Memory.Consolidation.Taken.{Taken, entries_to_process-Taken}
use tas_agent_builder.Memory.Consolidation.{
  Chat, consolidation_key, consolidate_session, consolidate_entries, note_consolidation, is_skipped,
  entries_to_process, original_tokens, consolidated_result, generate_summary,
}

keys_apart :
    (uuid : UuidText) (s t : Str) (a b : ℕ)
    → ShortTerm.memory_key uuid s a ≢ consolidation_key uuid t b
unfolding ShortTerm.memory_key consolidation_key
keys_apart uuid s t a b =
    λ e. let differ : ◌≡◌ {A = ℕ} b's' b'c' = ap (λ k. get_or k 7 0) e in omega arith

original_tokens_lem :
    (total : ℤ) (es : List MemoryEntry) → original_tokens total es ≡ total +ℤ token_sum es
unfolding original_tokens token_sum
original_tokens_lem total [] = sym (+ℤ-zero total)
original_tokens_lem total (e ∷ es) =
    original_tokens_lem (total +ℤ e.token_count) es ∙ +ℤ_assoc total e.token_count (token_sum es)

module _ (redis : Redis) (codec : Codec ShortTermMemory) (clock : Codec ℤ) (lake : DeepLake)
    (uuid : UuidText) (f : FloatOps) (printer : Printer) (config : MemoryConfig) where
  open redis use {Store}

  note_consolidation-get_conversation :
      (store : Store) (now : ℤ) (t : Str) (b : ℕ) (later : ℤ) (s : Str) (a : ℕ)
      → get_conversation redis codec uuid config
          (note_consolidation redis codec clock lake uuid f printer config store now t b)
          later
          s
          a
        ≡ get_conversation redis codec uuid config store later s a
  unfolding note_consolidation get_conversation
  note_consolidation-get_conversation store now t b later s a =
      elim (Result-cases (clock.marshal now)) [
        | inl (bytes, m) ↦
            rw (m, note_consolidation)
              (rw
                (
                  redis.get-set_ne store (consolidation_key uuid t b)
                      (ShortTerm.memory_key uuid s a) bytes (pos (24 * 3600 * second))
                      (keys_apart uuid s t a b),
                  get_conversation,
                )
                refl)
        | inr (inl (e, m)) ↦ rw (m, note_consolidation) refl
        | inr (inr m) ↦ rw (m, note_consolidation) refl
      ]

  consolidate_entries-get_conversation :
      (chat : Chat) (store : Store) (state : lake.State) (now took : ℤ) (fresh : Str)
      (req : ConsolidationRequest) (es : List MemoryEntry) (later : ℤ) (s : Str) (a : ℕ)
      → get_conversation redis codec uuid config
          (consolidate_entries redis codec clock lake uuid f printer config chat store state now
            took fresh req es).0
          later
          s
          a
        ≡ get_conversation redis codec uuid config store later s a
  unfolding consolidate_entries
  consolidate_entries-get_conversation chat store state now took fresh req es later s a =
      elim (Result-cases (generate_summary chat f printer es config.summary_max_tokens)) [
        | inr (inl (e, m)) ↦ rw (m, consolidate_entries) refl
        | inr (inr m) ↦ rw (m, consolidate_entries) refl
        | inl (summary, m) ↦
            elim (Result-cases
              (store_summary lake uuid f printer config state now fresh req.agent_id req.session_id
                summary (map (λ e. e.id) es)).1) [
                  | inl (u, n) ↦
                      rw (m, consolidate_entries)
                        (rw n (
                          note_consolidation-get_conversation store now req.session_id req.agent_id
                            later s a))
                  | inr (inl (e, n)) ↦ rw (m, consolidate_entries) (rw n refl)
                  | inr (inr n) ↦ rw (m, consolidate_entries) (rw n refl)
                ]
      ]

  -- Whatever `ConsolidateSession` does, every session reads back the conversation that it had.
  pub consolidate_session-get_conversation :
      (chat : Chat) (store : Store) (state : lake.State) (now took : ℤ) (fresh : Str)
      (req : ConsolidationRequest) (later : ℤ) (s : Str) (a : ℕ)
      → get_conversation redis codec uuid config
          (consolidate_session redis codec clock lake uuid f printer config chat store state now
            took fresh req).0
          later
          s
          a
        ≡ get_conversation redis codec uuid config store later s a
  unfolding consolidate_session
  consolidate_session-get_conversation chat store state now took fresh req later s a =
      elim (Result-cases
        (get_conversation redis codec uuid config store now req.session_id req.agent_id)) [
          | inr (inl (e, m)) ↦ rw (m, consolidate_session) refl
          | inr (inr m) ↦ rw (m, consolidate_session) refl
          | inl (memory, m) ↦ elim (Bool-cases (is_skipped config req.force memory)) [
            | inl skip ↦ rw (m, consolidate_session) (rw skip refl)
            | inr go ↦
                rw (m, consolidate_session)
                  (rw go (
                    consolidate_entries-get_conversation chat store state now took fresh req
                      (entries_to_process req.max_entries memory.entries) later s a))
          ]
        ]

  -- What a consolidation of the entries `done` says and leaves in long-term memory: the router's
  -- summary of exactly these entries, stored under their ids.
  pub record Summarised (chat : Chat) (state : lake.State) (now took : ℤ) (fresh : Str)
      (req : ConsolidationRequest) (done : List MemoryEntry) (r : ConsolidationResult)
      (after : lake.State) : Type 0 where
    pub summary : Str
    pub summarised : generate_summary chat f printer done config.summary_max_tokens ≡ ok summary
    pub stored :
        store_summary lake uuid f printer config state now fresh req.agent_id req.session_id summary
          (map (λ e. e.id) done)
        ≡ (after, ok tt)
    pub entries_processed : r.entries_processed ≡ pos (length done)
    pub summaries_created : r.summaries_created ≡ pos 1
    pub tokens_consolidated : r.tokens_consolidated ≡ token_sum done
    pub tokens_saved : r.tokens_saved ≡ token_sum done -ℤ estimate_token_count summary

  Summarised-of :
      (chat : Chat) (store : Store) (state : lake.State) (now took : ℤ) (fresh : Str)
      (req : ConsolidationRequest) (es : List MemoryEntry) (summary : Str)
      → generate_summary chat f printer es config.summary_max_tokens ≡ ok summary
      → (store_summary lake uuid f printer config state now fresh req.agent_id req.session_id
          summary
          (map (λ e. e.id) es)).1
        ≡ ok tt
      → (r : ConsolidationResult) → r ≡ consolidated_result now took es summary
      → Summarised chat state now took fresh req es r
          (consolidate_entries redis codec clock lake uuid f printer config chat store state now
            took fresh req es).1
  unfolding consolidate_entries consolidated_result
  Summarised-of chat store state now took fresh req es summary m n r same =
      let sum = original_tokens_lem (pos 0) es ∙ zero-+ℤ (token_sum es) in
      record {
        summary = summary;
        summarised = m;
        stored = rw (m, consolidate_entries) (rw n refl);
        entries_processed = rw same refl;
        summaries_created = rw same refl;
        tokens_consolidated = rw same sum;
        tokens_saved = rw same (ap (λ t. t -ℤ estimate_token_count summary) sum);
      }

  -- A success of the part after the guards: the summary, and its own consequences.
  pub consolidate_entries-ok :
      (chat : Chat) (store : Store) (state : lake.State) (now took : ℤ) (fresh : Str)
      (req : ConsolidationRequest) (es : List MemoryEntry) (r : ConsolidationResult)
      → (consolidate_entries redis codec clock lake uuid f printer config chat store state now took
          fresh req es).2
        ≡ ok r
      → Summarised chat state now took fresh req es r
          (consolidate_entries redis codec clock lake uuid f printer config chat store state now
            took fresh req es).1
        × ((consolidate_entries redis codec clock lake uuid f printer config chat store state now
              took fresh req es).0
            ≡ note_consolidation redis codec clock lake uuid f printer config store now
                req.session_id req.agent_id)
  unfolding consolidate_entries consolidated_result
  consolidate_entries-ok chat store state now took fresh req es r done =
      elim (Result-cases (generate_summary chat f printer es config.summary_max_tokens)) [
        | inr (inl (e, m)) ↦ cc (rw (m, consolidate_entries) at done)
        | inr (inr m) ↦ cc (rw (m, consolidate_entries) at done)
        | inl (summary, m) ↦
            elim (Result-cases
              (store_summary lake uuid f printer config state now fresh req.agent_id req.session_id
                summary (map (λ e. e.id) es)).1) [
                  | inl (u, n) ↦
                      let same : ok (consolidated_result now took es summary) ≡ ok r =
                        rw n at (rw (m, consolidate_entries) at done) in
                      (
                        Summarised-of chat store state now took fresh req es summary m n r
                            (cc (same)),
                        rw (m, consolidate_entries) (rw n refl),
                      )
                  | inr (inl (e, n)) ↦ cc (rw n at (rw (m, consolidate_entries) at done))
                  | inr (inr n) ↦ cc (rw n at (rw (m, consolidate_entries) at done))
                ]
      ]

  -- On a conversation that is read and not skipped, a `ConsolidateSession` that succeeds takes the
  -- first entries up to a positive limit, or else all of them: what it stores in long-term memory is
  -- the router's summary of exactly these, under their ids, and it reports their number, their
  -- tokens, and these less those of the summary as saved.
  pub consolidate_session-result :
      (chat : Chat) (store : Store) (state : lake.State) (now took : ℤ) (fresh : Str)
      (req : ConsolidationRequest) (memory : ShortTermMemory) (r : ConsolidationResult)
      → get_conversation redis codec uuid config store now req.session_id req.agent_id ≡ ok memory
      → is_skipped config req.force memory ≡ false
      → (consolidate_session redis codec clock lake uuid f printer config chat store state now took
          fresh req).2
        ≡ ok r
      → (taken : List MemoryEntry) × Taken req.max_entries memory.entries taken
        × Summarised chat state now took fresh req taken r
            (consolidate_session redis codec clock lake uuid f printer config chat store state now
              took fresh req).1
  unfolding consolidate_session
  consolidate_session-result chat store state now took fresh req memory r got go done =
      let es = entries_to_process req.max_entries memory.entries in
      let (made, _) =
        consolidate_entries-ok chat store state now took fresh req es r
          (rw go at (rw (got, consolidate_session) at done)) in
      (
        es,
        entries_to_process-Taken req.max_entries memory.entries,
        rw (got, consolidate_session) (rw go made),
      )
