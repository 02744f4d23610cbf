-- ===== src/Memory/ShortTerm.antt =====
-- services/memory/short_term.go: the conversation buffer of a session, kept in Redis as JSON.
-- A method takes the store, the clock reading `now` and, where the code makes one, the fresh id;
-- a method that writes returns the new store beside its result.
pub mod Suffix
pub mod Trim
pub mod Store
pub mod Reads
mod Tests
use tas_agent_builder.Base.{
  ℕ, if◌then◌else◌, ◌||◌, Bool, Str, codes, str_eq, List, [], ◌∷◌, ◌++◌, Option, none, some, length,
  drop, ℤ, pos, ltb_ℤ, leb_ℤ, ◌+ℤ◌, ◌-ℤ◌, ◌*ℤ◌, eqb_ℤ, pos_part, Result, ok, err, panic, wrap,
  or_wrap, ◌>>=◌, error_result,
}
use tas_agent_builder.External.{Redis, found, redis_nil, failed, Codec, UuidText}
use tas_agent_builder.Models.Memory.{MemoryEntry, ShortTermMemory, MemoryConfig, MemoryType, second}

-- The two loops of `trimMemory`. The first reads `Entries[0]` with no test for emptiness.
unfoldable pub trim_count : ℤ → List MemoryEntry → ℤ → Result (List MemoryEntry × ℤ)
trim_count limit [] total = if ltb_ℤ limit (pos 0) then panic else ok ([], total)
trim_count limit (removed ∷ rest) total =
    let trimmed = trim_count limit rest (total -ℤ removed.token_count) in
    if ltb_ℤ limit (pos (length (removed ∷ rest))) then trimmed else ok (removed ∷ rest, total)

unfoldable pub trim_tokens : ℤ → List MemoryEntry → ℤ → List MemoryEntry × ℤ
trim_tokens limit [] total = ([], total)
trim_tokens limit (removed ∷ rest) total =
    let trimmed = trim_tokens limit rest (total -ℤ removed.token_count) in
    if ltb_ℤ limit total then trimmed else (removed ∷ rest, total)

unfoldable pub trim_memory : MemoryConfig → ShortTermMemory → Result ShortTermMemory
trim_memory config memory = do
  (counted, total) ← trim_count config.short_term_max_entries memory.entries memory.total_tokens
  let kept = trim_tokens config.short_term_max_tokens counted total
  ok (record memory { entries = kept.0; total_tokens = kept.1 })

-- "%s:%s:%s" of the prefix, the agent and the session.
unfoldable pub memory_key : UuidText → Str → ℕ → Str
memory_key uuid session_id agent_id =
    codes "memory:short_term" ++ codes ":" ++ (uuid.to_string agent_id ++ (codes ":" ++ session_id))

unfoldable pub empty_conversation : MemoryConfig → ℤ → Str → ℕ → ShortTermMemory
empty_conversation config now session_id agent_id = record {
  session_id = session_id;
  agent_id = agent_id;
  tenant_id = [];
  user_id = [];
  entries = [];
  total_tokens = pos 0;
  max_tokens = config.short_term_max_tokens;
  created_at = now;
  updated_at = now;
  expires_at = now +ℤ config.short_term_ttl;
}

-- The fields that `AddMessage` fills in: the timestamp and the id if they are unset, and the type.
unfoldable pub stamp_entry : ℤ → Str → MemoryEntry → MemoryEntry
stamp_entry now fresh entry = record entry {
  timestamp = if eqb_ℤ entry.timestamp (pos 0) then now else entry.timestamp;
  id = if str_eq entry.id [] then fresh else entry.id;
  kind = MemoryType.short_term;
}

-- The update of the buffer in `AddMessage`: append, then trim if a limit is passed.
unfoldable pub grow : ℤ → MemoryEntry → ShortTermMemory → ShortTermMemory
grow now entry memory = record memory {
  entries = memory.entries ++ (entry ∷ []);
  total_tokens = memory.total_tokens +ℤ entry.token_count;
  updated_at = now;
}

unfoldable pub exceeds : MemoryConfig → ShortTermMemory → Bool
exceeds config memory =
    ltb_ℤ config.short_term_max_tokens memory.total_tokens
    || ltb_ℤ config.short_term_max_entries (pos (length memory.entries))

unfoldable pub append_entry :
    MemoryConfig → ℤ → MemoryEntry → ShortTermMemory → Result ShortTermMemory
append_entry config now entry memory =
    if exceeds config (grow now entry memory)
    then trim_memory config (grow now entry memory)
    else ok (grow now entry memory)

unfoldable pub recent : ℤ → List MemoryEntry → Result (List MemoryEntry)
recent limit entries =
    if leb_ℤ (pos (length entries)) limit
    then ok entries
    else if ltb_ℤ limit (pos 0)
    then panic
    else ok (drop (pos_part (pos (length entries) -ℤ limit)) entries)

-- One round of the loop in `FormatForContext`.
unfoldable pub format_entry : MemoryEntry → Str
format_entry entry =
    if str_eq entry.role (codes "user")
    then codes "User: " ++ (entry.content ++ (10 ∷ []))
    else if str_eq entry.role (codes "assistant")
    then codes "Assistant: " ++ (entry.content ++ (10 ∷ []))
    else if str_eq entry.role (codes "system")
    then codes "System: " ++ (entry.content ++ (10 ∷ []))
    else []

format_entries : Str → List MemoryEntry → Str
format_entries formatted [] = formatted
format_entries formatted (entry ∷ rest) = format_entries (formatted ++ format_entry entry) rest

unfoldable pub format_for_context : Option ShortTermMemory → Str
unfolding format_entries
format_for_context none = []
format_for_context (some memory) = format_entries [] memory.entries

module _ (redis : Redis) (codec : Codec ShortTermMemory) (uuid : UuidText)
    (config : MemoryConfig) where
  open redis use {Store}

  unfoldable pub get_conversation : Store → ℤ → Str → ℕ → Result ShortTermMemory
  get_conversation store now session_id agent_id =
      elim (redis.get store (memory_key uuid session_id agent_id)) [
        | found bytes ↦ or_wrap "failed to unmarshal conversation" (codec.unmarshal bytes)
        | redis_nil ↦ ok (empty_conversation config now session_id agent_id)
        | failed e ↦ err (wrap "failed to get conversation" e)
      ]

  -- The tail of `AddMessage`: serialize and store with the configured TTL.
  unfoldable pub store_conversation : Store → Str → ShortTermMemory → Store × Result (Unit {0})
  store_conversation store key memory = elim (codec.marshal memory) [
    | ok bytes ↦
        let (written, e) = redis.set store key bytes config.short_term_ttl in
        (written, or_wrap "failed to store conversation" (error_result tt e))
    | err e ↦ (store, err (wrap "failed to marshal conversation" e))
    | panic ↦ (store, panic)
  ]

  -- The buffer that `AddMessage` is about to store.
  unfoldable pub appended : Store → ℤ → Str → MemoryEntry → Result ShortTermMemory
  appended store now fresh entry = do
    memory ←
        or_wrap "failed to get existing conversation"
          (get_conversation store now entry.session_id entry.agent_id)
    append_entry config now (stamp_entry now fresh entry) memory

  unfoldable pub add_message : Store → ℤ → Str → MemoryEntry → Store × Result (Unit {0})
  add_message store now fresh entry = elim (appended store now fresh entry) [
    | ok memory ↦ store_conversation store (memory_key uuid entry.session_id entry.agent_id) memory
    | err e ↦ (store, err e)
    | panic ↦ (store, panic)
  ]

  unfoldable pub get_recent_messages : Store → ℤ → Str → ℕ → ℤ → Result (List MemoryEntry)
  get_recent_messages store now session_id agent_id limit = do
    memory ← get_conversation store now session_id agent_id
    recent limit memory.entries

  -- The write at the end of `TrimToTokenLimit` keeps the TTL that the key still has.
  unfoldable pub rewrite_conversation : Store → Str → ShortTermMemory → Store × Result (Unit {0})
  rewrite_conversation store key memory = elim (codec.marshal memory) [
    | ok bytes ↦
        let left = redis.ttl store key in
        let (written, e) =
          redis.set store key bytes (if leb_ℤ left (pos 0) then config.short_term_ttl else left) in
        (written, error_result tt e)
    | err e ↦ (store, err (wrap "failed to marshal conversation" e))
    | panic ↦ (store, panic)
  ]

  unfoldable pub trim_to_token_limit : Store → ℤ → Str → ℕ → ℤ → Store × Result (Unit {0})
  trim_to_token_limit store now session_id agent_id max_tokens =
      elim (get_conversation store now session_id agent_id) [
        | ok memory ↦
            if leb_ℤ memory.total_tokens max_tokens
            then (store, ok tt)
            else let kept = trim_tokens max_tokens memory.entries memory.total_tokens in
              rewrite_conversation store (memory_key uuid session_id agent_id)
                (record memory { entries = kept.0; total_tokens = kept.1; updated_at = now })
        | err e ↦ (store, err e)
        | panic ↦ (store, panic)
      ]

  unfoldable pub clear_conversation : Store → Str → ℕ → Store × Result (Unit {0})
  clear_conversation store session_id agent_id =
      let (cleared, e) = redis.del store (memory_key uuid session_id agent_id) in
      (cleared, error_result tt e)

  unfoldable pub set_expiration : Store → Str → ℕ → ℤ → Store × Result (Unit {0})
  set_expiration store session_id agent_id ttl_seconds =
      let (changed, e) =
        redis.expire store (memory_key uuid session_id agent_id) (ttl_seconds *ℤ pos second) in
      (changed, error_result tt e)
