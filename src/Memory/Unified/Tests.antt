-- ===== src/Memory/Unified/Tests.antt =====
-- Instances of the theorems about services/memory/memory_service.go at a small store.
use tas_agent_builder.Base.{◌≡◌, refl, codes, Str, List, [], ◌∷◌, pos, ok}
use tas_agent_builder.External.Samples.{sample_redis, sample_uuid}
use tas_agent_builder.Memory.Samples.{
  sample_floats, sample_printer, sample_lake, small, talk_json, desk_json, time_json,
}
use tas_agent_builder.Memory.ShortTerm
use tas_agent_builder.Memory.ShortTerm.{get_conversation, clear_conversation, empty_conversation}
use tas_agent_builder.Memory.Working.{get_working_memory, clear_working_memory, empty_memory}
use tas_agent_builder.Memory.Unified.{clear_session}
use tas_agent_builder.Memory.Unified.Session.{clear_session-empty}

abbrev stored : List (Str × Str)
stored = (ShortTerm.memory_key sample_uuid (codes "s1") 7, []) ∷ []

clear_session-empty_example :
    (get_conversation sample_redis talk_json sample_uuid small
        (clear_session sample_redis talk_json desk_json time_json sample_lake sample_uuid
          sample_floats sample_printer small stored
          (codes "s1")
          7).0
        (pos 9)
        (codes "s1")
        7
      ≡ ok (empty_conversation small (pos 9) (codes "s1") 7))
    × (get_working_memory sample_redis desk_json sample_uuid small
          (clear_session sample_redis talk_json desk_json time_json sample_lake sample_uuid
            sample_floats sample_printer small stored
            (codes "s1")
            7).0
          (pos 9)
          (codes "s1")
          7
        ≡ ok (empty_memory small (pos 9) (codes "s1") 7))
unfolding clear_session clear_conversation clear_working_memory
clear_session-empty_example =
    clear_session-empty sample_redis talk_json desk_json time_json sample_lake sample_uuid
      sample_floats sample_printer small stored (codes "s1") 7 (pos 9) refl
