-- ===== src/Memory/Formatted/Entries.antt =====
-- The long-term part of `GetFormattedMemory` of services/memory/memory_service.go, on what
-- `SearchMemory` of services/memory/long_term.go returns.
use tas_agent_builder.Base.{
  ℕ, ◌≡◌, refl, inl, inr, ◌==◌, Bool-cases, List, [], ◌∷◌, map, ℤ, pos, ◌≤ℤ◌, ltb_ℤ_of_le, All, Str,
  ◌+ℤ◌, Result-cases, ok,
}
use tas_agent_builder.External.{UuidText, HttpReply, unreachable, answered, Printer}
use tas_agent_builder.Floats.{FloatOps}
use tas_agent_builder.Models.Memory.{LongTermMemoryEntry, MemoryConfig}
use tas_agent_builder.Memory.LongTerm
use tas_agent_builder.Memory.LongTerm.{
  DeepLake, SearchResult, entry_of_result, entries_of_reply, search_memory,
}
use tas_agent_builder.Memory.Formatted.{take_entries, entries_part, no_part}

abbrev pub Uncounted : List LongTermMemoryEntry → Type 0
Uncounted es = All (λ e. e.token_count ≡ pos 0) es

Uncounted-results :
    (f : FloatOps) (a : ℕ) (results : List SearchResult)
    → Uncounted (map (entry_of_result f a) results)
unfolding entry_of_result
Uncounted-results f a [] = tt
Uncounted-results f a (r ∷ rest) = (refl, Uncounted-results f a rest)

ok_inj : {A : Type 0} (a b : A) → ok a ≡ ok b → b ≡ a
ok_inj a b h = cc

Uncounted-reply :
    (f : FloatOps) (printer : Printer) (a : ℕ) (reply : HttpReply (List SearchResult))
    (entries : List LongTermMemoryEntry)
    → entries_of_reply f printer a reply ≡ ok entries
    → Uncounted entries
unfolding entries_of_reply
Uncounted-reply f printer a (unreachable e) entries h = cc
Uncounted-reply f printer a (answered status body decoded) entries h =
    elim (Bool-cases (status == 404)) [
      | inl missing ↦ rw (ok_inj [] entries (rw (missing, entries_of_reply) at h)) tt
      | inr there ↦ elim (Bool-cases (status == 200)) [
        | inl fine ↦ elim (Result-cases decoded) [
          | inl (results, d) ↦
              let got = rw d at (rw fine at (rw (there, entries_of_reply) at h)) in
              rw (ok_inj (map (entry_of_result f a) results) entries got)
                (Uncounted-results f a results)
          | inr (inl (e, d)) ↦ cc (rw d at (rw fine at (rw (there, entries_of_reply) at h)))
          | inr (inr d) ↦ cc (rw d at (rw fine at (rw (there, entries_of_reply) at h)))
        ]
        | inr bad ↦ cc (rw bad at (rw (there, entries_of_reply) at h))
      ]
    ]

take_entries-Uncounted :
    (limit : ℤ) (es : List LongTermMemoryEntry)
    → pos 0 ≤ℤ limit
    → Uncounted es
    → take_entries limit (pos 0) es ≡ (es, pos 0)
unfolding take_entries ◌+ℤ◌
take_entries-Uncounted limit [] h u = refl
take_entries-Uncounted limit (e ∷ es) h (z, u) =
    rw z (rw (ltb_ℤ_of_le limit (pos 0) h) (rw (take_entries-Uncounted limit es h u) refl))

entries_part-Uncounted :
    (limit : ℤ) (es : List LongTermMemoryEntry)
    → pos 0 ≤ℤ limit
    → Uncounted es
    → entries_part limit es ≡ (LongTerm.format_for_context es, pos 0)
unfolding entries_part LongTerm.format_for_context no_part
entries_part-Uncounted limit [] h u = refl
entries_part-Uncounted limit (e ∷ es) h u = rw (take_entries-Uncounted limit (e ∷ es) h u) refl

module _ (lake : DeepLake) (uuid : UuidText) (f : FloatOps) (printer : Printer)
    (config : MemoryConfig) where
  -- Whatever `SearchMemory` finds, with a budget that is not negative the long-term part holds
  -- every entry found, of any length, and counts no token for it.
  pub search_memory-entries_part :
      (memories : lake.State) (a : ℕ) (query : Str) (top_k limit : ℤ)
      (es : List LongTermMemoryEntry)
      → pos 0 ≤ℤ limit
      → search_memory lake uuid f printer config memories a query top_k ≡ ok es
      → entries_part limit es ≡ (LongTerm.format_for_context es, pos 0)
  unfolding search_memory
  search_memory-entries_part memories a query top_k limit es h found =
      elim (Bool-cases config.long_term_enabled) [
        | inl on ↦
            entries_part-Uncounted limit es h
              (Uncounted-reply f printer a _ es (rw (on, search_memory) at found))
        | inr off ↦
            let e = ok_inj [] es (rw (off, search_memory) at found) in
            rw e (entries_part-Uncounted limit [] h tt)
      ]
