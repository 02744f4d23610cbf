-- ===== src/Memory/Unified/Session.antt =====
-- `ClearSession` of services/memory/memory_service.go.
use tas_agent_builder.Base.{ℕ, ◌≡◌, refl, sym, inl, inr, Str, ℤ, Result-cases, ok, error_result-ok}
use tas_agent_builder.External.{Redis, redis_nil, Codec, UuidText, Printer}
use tas_agent_builder.Floats.{FloatOps}
use tas_agent_builder.Models.Memory.{ShortTermMemory, WorkingMemory, MemoryConfig}
use tas_agent_builder.Memory.LongTerm.{DeepLake}
use tas_agent_builder.Memory.ShortTerm
use tas_agent_builder.Memory.ShortTerm.{get_conversation, clear_conversation, empty_conversation}
use tas_agent_builder.Memory.Working
use tas_agent_builder.Memory.Working.{get_working_memory, clear_working_memory, empty_memory}
use tas_agent_builder.Memory.Working.Store.{tiers_apart}
use tas_agent_builder.Memory.Unified.{clear_session}

module _ (redis : Redis) (talk : Codec ShortTermMemory) (desk : Codec WorkingMemory)
    (clock : Codec ℤ) (lake : DeepLake) (uuid : UuidText) (f : FloatOps) (printer : Printer)
    (config : MemoryConfig) where
  open redis use {Store}

  cleared :
      (store : Store) (s : Str) (a : ℕ) (later : ℤ)
      → (clear_conversation redis talk uuid config store s a).1 ≡ ok tt
      → (clear_working_memory redis desk uuid config
          (clear_conversation redis talk uuid config store s a).0
          s
          a).1
        ≡ ok tt
      → (get_conversation redis talk uuid config
            (clear_session redis talk desk clock lake uuid f printer config store s a).0
            later
            s
            a
          ≡ ok (empty_conversation config later s a))
        × (get_working_memory redis desk uuid config
              (clear_session redis talk desk clock lake uuid f printer config store s a).0
              later
              s
              a
            ≡ ok (empty_memory config later s a))
  unfolding clear_session clear_conversation clear_working_memory get_conversation
      get_working_memory
  cleared store s a later first next =
      let k = ShortTerm.memory_key uuid s a in
      let j = Working.memory_key uuid s a in
      let mid = (redis.del store k).0 in
      let gone : redis.get mid k ≡ redis_nil = redis.get-del store k (error_result-ok tt _ first) in
      let gone' : redis.get (redis.del mid j).0 j ≡ redis_nil =
        redis.get-del mid j (error_result-ok tt _ next) in
      let kept : redis.get (redis.del mid j).0 k ≡ redis.get mid k =
        redis.get-del_ne mid j k (λ e. tiers_apart uuid s s a a (sym e)) in
      (
        rw (first, clear_session) (rw (kept, get_conversation) (rw gone refl)),
        rw (first, clear_session) (rw (gone', get_working_memory) refl),
      )

  -- When `ClearSession` reports success, the session reads back an empty conversation and an empty
  -- working memory.
  pub clear_session-empty :
      (store : Store) (s : Str) (a : ℕ) (later : ℤ)
      → (clear_session redis talk desk clock lake uuid f printer config store s a).1 ≡ ok tt
      → (get_conversation redis talk uuid config
            (clear_session redis talk desk clock lake uuid f printer config store s a).0
            later
            s
            a
          ≡ ok (empty_conversation config later s a))
        × (get_working_memory redis desk uuid config
              (clear_session redis talk desk clock lake uuid f printer config store s a).0
              later
              s
              a
            ≡ ok (empty_memory config later s a))
  unfolding clear_session clear_conversation clear_working_memory get_conversation
      get_working_memory
  clear_session-empty store s a later h =
      elim (Result-cases (clear_conversation redis talk uuid config store s a).1) [
        | inl (u, first) ↦
            elim (Result-cases
              (clear_working_memory redis desk uuid config
                (clear_conversation redis talk uuid config store s a).0 s a).1) [
                  | inl (v, next) ↦ cleared store s a later first next
                  | inr (inl (e, next)) ↦ cc (rw next at (rw (first, clear_session) at h))
                  | inr (inr next) ↦ cc (rw next at (rw (first, clear_session) at h))
                ]
        | inr (inl (e, first)) ↦ cc (rw (first, clear_session) at h)
        | inr (inr first) ↦ cc (rw (first, clear_session) at h)
      ]
