-- ===== src/External.antt =====
-- What the program takes from third-party packages: the Redis client (github.com/redis/go-redis),
-- uuid text (github.com/google/uuid) and encoding/json on the records that it stores. Each is a
-- record of operations with the documented laws that the code relies on.
pub mod Samples
pub mod Expiry
pub mod Database
pub mod Tables
use tas_agent_builder.Base.{
  ℕ, ◌≡◌, refl, ◌≢◌, ◌⊎◌, inl, inr, Str, Result, ok, Option, none, length, ℤ,
}

-- The answer of `Get(...).Bytes()`: the bytes, `redis.Nil`, or any other error.
pub data Reply : Type 0 where
  found : Str → Reply
  redis_nil : Reply
  failed : Str → Reply

pub Reply-cases :
    (r : Reply) → ((v : Str) × (r ≡ found v)) ⊎ (r ≡ redis_nil) ⊎ ((e : Str) × (r ≡ failed e))
Reply-cases (found v) = inl (v, refl)
Reply-cases redis_nil = inr (inl refl)
Reply-cases (failed e) = inr (inr (e, refl))

-- Durations are nanoseconds; `TTL` is not positive where the key has none or is not there. A call that changes the store returns the new store and its error.
pub record Redis : Type 1 where
  pub Store : Type 0
  pub get : Store → Str → Reply
  pub set : Store → Str → Str → ℤ → Store × Option Str
  pub del : Store → Str → Store × Option Str
  pub expire : Store → Str → ℤ → Store × Option Str
  pub ttl : Store → Str → ℤ
  -- A write that reports no error is read back, and touches no other key.
  pub get-set :
      (s : Store) (k v : Str) (t : ℤ) → (set s k v t).1 ≡ none → get (set s k v t).0 k ≡ found v
  pub get-set_ne : (s : Store) (k j v : Str) (t : ℤ) → j ≢ k → get (set s k v t).0 j ≡ get s j
  pub get-del : (s : Store) (k : Str) → (del s k).1 ≡ none → get (del s k).0 k ≡ redis_nil
  pub get-del_ne : (s : Store) (k j : Str) → j ≢ k → get (del s k).0 j ≡ get s j

-- json.Marshal and json.Unmarshal at one type.
pub record Codec (A : Type 0) : Type 0 where
  pub marshal : A → Result Str
  pub unmarshal : Str → Result A
  pub unmarshal-marshal : (a : A) (s : Str) → marshal a ≡ ok s → unmarshal s ≡ ok a

-- `uuid.UUID` is its 16 bytes as a number; `String()` prints 36 characters, one text for each id.
pub record UuidText : Type 0 where
  pub to_string : ℕ → Str
  pub length-to_string : (u : ℕ) → length (to_string u) ≡ 36
  pub to_string_inj : (u v : ℕ) → to_string u ≡ to_string v → u ≡ v

-- What `httpClient.Do` and the decoding of the body come to: no answer, or a status, the raw body
-- and the decoded one.
pub data HttpReply (A : Type 0) : Type 0 where
  unreachable : Str → HttpReply A
  answered : ℕ → Str → Result A → HttpReply A

pub HttpReply-cases :
    {A : Type 0} (r : HttpReply A)
    → ((e : Str) × (r ≡ unreachable e))
      ⊎ ((status : ℕ) × (body : Str) × (decoded : Result A) × (r ≡ answered status body decoded))
HttpReply-cases (unreachable e) = inl (e, refl)
HttpReply-cases (answered status body decoded) = inr (status, body, decoded, refl)

-- fmt.Sprintf("%d", n) and time.RFC3339.
pub record Printer : Type 0 where
  pub decimal : ℤ → Str
  pub rfc3339 : ℤ → Str
