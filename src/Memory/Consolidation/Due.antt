-- ===== src/Memory/Consolidation/Due.antt =====
-- When `ShouldConsolidate` of services/memory/consolidation.go is true after a consolidation.
use tas_agent_builder.Base.{
  ℕ, ◌*◌, ◌≡◌, ◌≢◌, ◌≤ℤ◌, ◌<ℤ◌, ◌||◌, Bool, true, refl, sym, ap, inl, inr, false, Bool-cases, Str,
  none, ℤ, pos, ltb_ℤ, ◌-ℤ◌, ok, arith,
}
use tas_agent_builder.External.Expiry.{Expiry}
use tas_agent_builder.External.{Redis, Codec, UuidText, Printer}
use tas_agent_builder.Floats.{FloatOps}
use tas_agent_builder.Models.Memory.{
  ShortTermMemory, MemoryConfig, ConsolidationRequest, ConsolidationResult, second,
}
use tas_agent_builder.Memory.LongTerm.{DeepLake}
use tas_agent_builder.Memory.ShortTerm.{get_conversation}
use tas_agent_builder.Memory.Consolidation.{
  Chat, consolidation_key, consolidate_session, note_consolidation, should_consolidate, is_skipped,
  entries_to_process,
}
use tas_agent_builder.Memory.Consolidation.Session.{consolidate_entries-ok}

elapsed_at_least : (now later : ℤ) → now ≤ℤ later → pos 0 ≤ℤ later -ℤ now
unfolding ◌-ℤ◌
elapsed_at_least now later h = ground (arith, h)

still_before : (d t : ℤ) → ltb_ℤ t d ≡ false → d ≢ t → d <ℤ t
still_before d t h ne = ground (arith, h, ne)

or_false : (a : Bool) → a || false ≡ a
or_false true = refl
or_false false = refl

or_true : (a : Bool) → a || true ≡ true
or_true true = refl
or_true false = refl

module _ (redis : Redis) (codec : Codec ShortTermMemory) (clock : Codec ℤ) (lake : DeepLake)
    (uuid : UuidText) (f : FloatOps) (printer : Printer) (config : MemoryConfig) where
  open redis use {Store}

  -- The note of a consolidation, read after some time.
  noted-should_consolidate :
      (time : Expiry redis) (store : Store) (now later : ℤ) (bytes : Str) (t : Str) (b : ℕ)
      → now ≤ℤ later
      → later -ℤ now ≢ pos (24 * 3600 * second)
      → clock.marshal now ≡ ok bytes
      → (redis.set store (consolidation_key uuid t b) bytes (pos (24 * 3600 * second))).1 ≡ none
      → should_consolidate redis codec clock lake uuid f printer config
          (time.after
            (note_consolidation redis codec clock lake uuid f printer config store now t b)
            (later -ℤ now))
          later
          t
          b
        ≡ ok (
            ltb_ℤ config.consolidation_interval (later -ℤ now)
            || ltb_ℤ (pos (24 * 3600 * second)) (later -ℤ now))
  unfolding note_consolidation should_consolidate
  noted-should_consolidate time store now later bytes t b order apart written set =
      let k = consolidation_key uuid t b in
      let day = pos (24 * 3600 * second) in
      let elapsed = later -ℤ now in
      let back = clock.unmarshal-marshal now bytes written in
      elim (Bool-cases (ltb_ℤ day elapsed)) [
        | inr young ↦
            let there =
              time.kept store k bytes day elapsed set (elapsed_at_least now later order)
                (still_before elapsed day young apart) in
            rw (written, note_consolidation)
              (rw (there, should_consolidate) (rw back (rw young (ap ok (sym (or_false _))))))
        | inl old ↦
            let gone =
              time.expired store k bytes day elapsed set (ground arith) (ground (arith, old)) in
            rw (written, note_consolidation)
              (rw (gone, should_consolidate) (rw old (ap ok (sym (or_true _)))))
      ]

  -- After a `ConsolidateSession` that consolidated at the time `now`, and whose note of that time
  -- was written, the next one is due exactly when more than the interval or more than the 24 hours
  -- of the note have passed since, at any later time but the end of the 24 hours.
  pub consolidate_session-should_consolidate :
      (time : Expiry redis) (chat : Chat) (store : Store) (state : lake.State) (now took later : ℤ)
      (fresh bytes : Str) (req : ConsolidationRequest) (memory : ShortTermMemory)
      (r : ConsolidationResult)
      → get_conversation redis codec uuid config store now req.session_id req.agent_id ≡ ok memory
      → is_skipped config req.force memory ≡ false
      → (consolidate_session redis codec clock lake uuid f printer config chat store state now took
          fresh req).2
        ≡ ok r
      → now ≤ℤ later
      → later -ℤ now ≢ pos (24 * 3600 * second)
      → clock.marshal now ≡ ok bytes
      → (redis.set store
          (consolidation_key uuid req.session_id req.agent_id)
          bytes
          (pos (24 * 3600 * second))).1
        ≡ none
      → should_consolidate redis codec clock lake uuid f printer config
          (time.after
            (consolidate_session redis codec clock lake uuid f printer config chat store state now
              took fresh req).0
            (later -ℤ now))
          later
          req.session_id
          req.agent_id
        ≡ ok (
            ltb_ℤ config.consolidation_interval (later -ℤ now)
            || ltb_ℤ (pos (24 * 3600 * second)) (later -ℤ now))
  unfolding consolidate_session
  consolidate_session-should_consolidate time chat store state now took later fresh bytes req memory
        r got go done order apart written set =
      let es = entries_to_process req.max_entries memory.entries in
      let (_, noted) =
        consolidate_entries-ok redis codec clock lake uuid f printer config chat store state now
          took fresh req es r (rw go at (rw (got, consolidate_session) at done)) in
      rw (got, consolidate_session)
        (rw go (
          rw noted (
            noted-should_consolidate time store now later bytes req.session_id req.agent_id order
              apart written set)))
