-- ===== src/Memory/Formatted/Tests.antt =====
-- Instances of the theorems about `GetFormattedMemory` of services/memory/memory_service.go.
use tas_agent_builder.Base.{
  ℕ, ◌≡◌, refl, codes, List, [], ◌∷◌, pos, ◌+ℤ◌, ◌-ℤ◌, quot_ℤ, ok, arith, str_eq, ℕ_discrete,
}
use tas_agent_builder.External.Samples.{sample_redis, sample_uuid, sample_text, lookup, write, read}
use tas_agent_builder.Models.Memory.{MemoryContext}
use tas_agent_builder.Memory.Samples.{
  ShortTermMemory-discrete, sample_floats, sample_printer, sample_lake, sample_result, small, said,
  talk, talk_json, desk_json, time_json, asked,
}
use tas_agent_builder.Memory.LongTerm
use tas_agent_builder.Memory.LongTerm.{search_memory, entries_of_reply, entry_of_result}
use tas_agent_builder.Memory.ShortTerm
use tas_agent_builder.Memory.ShortTerm.{
  get_conversation, trim_to_token_limit, trim_tokens, rewrite_conversation,
}
use tas_agent_builder.Memory.ShortTerm.Suffix.{token_sum}
use tas_agent_builder.Memory.Working
use tas_agent_builder.Memory.Working.{get_working_memory, empty_memory}
use tas_agent_builder.Memory.Formatted.{
  get_formatted_memory, entries_part, short_term_budget, short_term_part, trimmed_part,
}
use tas_agent_builder.Memory.Formatted.Entries.{search_memory-entries_part}
use tas_agent_builder.Memory.Formatted.Budget.{IsWithin, get_formatted_memory-IsWithin}

abbrev stored : List (List ℕ × List ℕ)
stored = (ShortTerm.memory_key sample_uuid (codes "s1") 7, []) ∷ []

-- A budget of no tokens takes in the whole summary.
search_memory-entries_part_example :
    entries_part (pos 0) (entry_of_result sample_floats 7 sample_result ∷ [])
    ≡ (LongTerm.format_for_context (entry_of_result sample_floats 7 sample_result ∷ []), pos 0)
unfolding search_memory entries_of_reply
search_memory-entries_part_example =
    search_memory-entries_part sample_lake sample_uuid sample_floats sample_printer small 3 7
      (codes "what") (pos 3) (pos 0) (entry_of_result sample_floats 7 sample_result ∷ [])
      (omega arith) refl

trim_runs :
    (trim_to_token_limit sample_redis talk_json sample_uuid small stored
      (pos 5)
      (codes "s1")
      7
      (short_term_budget (pos 12))).1
    ≡ ok tt
unfolding trim_to_token_limit get_conversation lookup read trim_tokens rewrite_conversation write
    ShortTermMemory-discrete ℕ_discrete ◌-ℤ◌ str_eq short_term_budget quot_ℤ ShortTerm.memory_key
    sample_text
trim_runs = refl

desk_runs :
    get_working_memory sample_redis desk_json sample_uuid small
      (short_term_part sample_redis talk_json desk_json time_json sample_lake sample_uuid
        sample_floats sample_printer small stored
        (pos 5)
        asked
        (short_term_budget (pos 12))).0
      (pos 5)
      (codes "s1")
      7
    ≡ ok (empty_memory small (pos 5) (codes "s1") 7)
unfolding get_working_memory short_term_part trimmed_part trim_to_token_limit get_conversation
    lookup read trim_tokens rewrite_conversation write ShortTermMemory-discrete ℕ_discrete ◌-ℤ◌
    str_eq short_term_budget quot_ℤ ShortTerm.memory_key Working.memory_key sample_text
desk_runs = refl

search_runs :
    search_memory sample_lake sample_uuid sample_floats sample_printer small 3 7
      (codes "what")
      (pos 3)
    ≡ ok (entry_of_result sample_floats 7 sample_result ∷ [])
unfolding search_memory entries_of_reply
search_runs = refl

-- Nine tokens are over the six of the share, and the conversation is trimmed to five.
get_formatted_memory-IsWithin_example :
    let after =
      get_formatted_memory sample_redis talk_json desk_json time_json sample_lake sample_uuid
        sample_floats sample_printer small stored 3
        (pos 5)
        asked
        (pos 12) in
    (found : MemoryContext) × (after.1 ≡ ok found)
    × IsWithin sample_redis talk_json desk_json time_json sample_lake sample_uuid sample_floats
        sample_printer small after.0
        (pos 5)
        asked
        12
        found
unfolding get_conversation lookup read str_eq ShortTerm.memory_key token_sum ◌+ℤ◌ sample_text
get_formatted_memory-IsWithin_example =
    get_formatted_memory-IsWithin sample_redis talk_json desk_json time_json sample_lake sample_uuid
      sample_floats sample_printer small stored 3 (pos 5) asked 12
      (talk (said 1 4 ∷ said 2 5 ∷ []) 9) refl refl trim_runs (λ e. cc (desk_runs, e))
      (λ e. cc (search_runs, e))
