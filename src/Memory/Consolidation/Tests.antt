-- ===== src/Memory/Consolidation/Tests.antt =====
-- Instances of the theorems about services/memory/consolidation.go at a small conversation.
use tas_agent_builder.Base.{
  ◌≡◌, refl, codes, Str, List, [], ◌∷◌, none, arith, pos, ◌-ℤ◌, ok, str_eq, false, true,
}
use tas_agent_builder.External.{answered}
use tas_agent_builder.External.Expiry.{TimedEntries, timed_redis, timed_expiry, timed_lookup}
use tas_agent_builder.External.Samples.{sample_redis, sample_uuid, sample_text, lookup, read}
use tas_agent_builder.Models.Memory.{MemoryEntry, ConsolidationRequest, ConsolidationResult}
use tas_agent_builder.Memory.Samples.{
  sample_floats, sample_printer, sample_lake, small, said, talk, talk_json, time_json, write_time,
}
use tas_agent_builder.Memory.LongTerm.{store_memory, store_summary, store_result}
use tas_agent_builder.Memory.ShortTerm
use tas_agent_builder.Memory.ShortTerm.{get_conversation}
use tas_agent_builder.Memory.Consolidation.{
  Chat, consolidate_session, consolidate_entries, consolidated_result, is_skipped, generate_summary,
  first_choice, should_consolidate, entries_to_process,
}
use tas_agent_builder.Memory.Consolidation.Taken.{Taken}
use tas_agent_builder.Memory.Consolidation.Due.{consolidate_session-should_consolidate}
use tas_agent_builder.Memory.Consolidation.Session.{
  Summarised, consolidate_session-get_conversation, consolidate_session-result,
}

abbrev stored : List (Str × Str)
stored = (ShortTerm.memory_key sample_uuid (codes "s1") 7, []) ∷ []

-- A router that always answers "short".
abbrev chat : Chat
chat = λ req. answered 200 [] (ok (codes "short" ∷ []))

abbrev first_only : ConsolidationRequest
first_only = record {
  session_id = codes "s1";
  agent_id = 7;
  tenant_id = [];
  user_id = [];
  force = false;
  max_entries = pos 1;
}

abbrev reported : ConsolidationResult
reported = consolidated_result (pos 9) (pos 0) (said 1 4 ∷ []) (codes "short")

session_runs :
    (consolidate_session sample_redis talk_json time_json sample_lake sample_uuid sample_floats
      sample_printer small chat stored 3
      (pos 9)
      (pos 0)
      []
      first_only).2
    ≡ ok reported
unfolding consolidate_session get_conversation lookup read str_eq ShortTerm.memory_key sample_text
    is_skipped consolidate_entries generate_summary first_choice store_memory store_summary
    store_result entries_to_process
session_runs = refl

consolidate_session-get_conversation_example :
    get_conversation sample_redis talk_json sample_uuid small
      (consolidate_session sample_redis talk_json time_json sample_lake sample_uuid sample_floats
        sample_printer small chat stored 3
        (pos 9)
        (pos 0)
        []
        first_only).0
      (pos 10)
      (codes "s1")
      7
    ≡ get_conversation sample_redis talk_json sample_uuid small stored (pos 10) (codes "s1") 7
consolidate_session-get_conversation_example =
    consolidate_session-get_conversation sample_redis talk_json time_json sample_lake sample_uuid
      sample_floats sample_printer small chat stored 3 (pos 9) (pos 0) [] first_only (pos 10)
      (codes "s1") 7

-- One of the two entries is consolidated: four tokens of nine.
consolidate_session-result_example :
    (taken : List MemoryEntry) × Taken (pos 1) (said 1 4 ∷ said 2 5 ∷ []) taken
    × Summarised sample_redis talk_json time_json sample_lake sample_uuid sample_floats
        sample_printer small chat 3
        (pos 9)
        (pos 0)
        []
        first_only
        taken
        reported
        (consolidate_session sample_redis talk_json time_json sample_lake sample_uuid sample_floats
          sample_printer small chat stored 3
          (pos 9)
          (pos 0)
          []
          first_only).1
unfolding get_conversation lookup read str_eq ShortTerm.memory_key sample_text is_skipped
consolidate_session-result_example =
    consolidate_session-result sample_redis talk_json time_json sample_lake sample_uuid
      sample_floats sample_printer small chat stored 3 (pos 9) (pos 0) [] first_only
      (talk (said 1 4 ∷ said 2 5 ∷ []) 9) reported refl refl session_runs

abbrev timed_stored : TimedEntries
timed_stored = (ShortTerm.memory_key sample_uuid (codes "s1") 7, [], none) ∷ []

timed_session_runs :
    (consolidate_session timed_redis talk_json time_json sample_lake sample_uuid sample_floats
      sample_printer small chat timed_stored 3
      (pos 9)
      (pos 0)
      []
      first_only).2
    ≡ ok reported
unfolding consolidate_session get_conversation timed_lookup read str_eq ShortTerm.memory_key
    sample_text is_skipped consolidate_entries generate_summary first_choice store_memory
    store_summary store_result entries_to_process
timed_session_runs = refl

-- The interval has passed, and the note has not expired.
consolidate_session-should_consolidate_example :
    should_consolidate timed_redis talk_json time_json sample_lake sample_uuid sample_floats
      sample_printer small
      (timed_expiry.after
        (consolidate_session timed_redis talk_json time_json sample_lake sample_uuid sample_floats
          sample_printer small chat timed_stored 3
          (pos 9)
          (pos 0)
          []
          first_only).0
        (pos 71))
      (pos 80)
      (codes "s1")
      7
    ≡ ok true
unfolding get_conversation timed_lookup read str_eq ShortTerm.memory_key sample_text is_skipped
    write_time ◌-ℤ◌
consolidate_session-should_consolidate_example =
    consolidate_session-should_consolidate timed_redis talk_json time_json sample_lake sample_uuid
      sample_floats sample_printer small timed_expiry chat timed_stored 3 (pos 9) (pos 0) (pos 80)
      [] (9 ∷ []) first_only (talk (said 1 4 ∷ said 2 5 ∷ []) 9) reported refl refl
      timed_session_runs (omega arith) (λ e. ground (arith, e)) refl refl
