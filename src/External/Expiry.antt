-- ===== src/External/Expiry.antt =====
-- The passing of time in Redis, for the writes of services/memory with an expiry, and a concrete
-- Redis whose entries expire.
use tas_agent_builder.Base.{
  ◌≡◌, ◌≢◌, refl, if◌then◌else◌, not, Bool, true, Str, str_eq, str_eq_iff, str_eq_refl, List, [],
  ◌∷◌, Option, none, some, ℤ, pos, ◌-ℤ◌, ltb_ℤ, ◌<ℤ◌, ◌≤ℤ◌, arith,
}
use tas_agent_builder.External.{Redis, Reply, found, redis_nil}

-- `after s d` is the store `s` when the time `d` has passed without a command. A value that was
-- written with a positive expiry is there before it, and gone after it.
pub record Expiry (redis : Redis) : Type 0 where
  pub after : redis.Store → ℤ → redis.Store
  pub kept :
      (s : redis.Store) (k v : Str) (t d : ℤ)
      → (redis.set s k v t).1 ≡ none
      → pos 0 ≤ℤ d
      → d <ℤ t
      → redis.get (after (redis.set s k v t).0 d) k ≡ found v
  pub expired :
      (s : redis.Store) (k v : Str) (t d : ℤ)
      → (redis.set s k v t).1 ≡ none
      → pos 0 <ℤ t
      → t <ℤ d
      → redis.get (after (redis.set s k v t).0 d) k ≡ redis_nil

-- A key with its value and the time that is left to it; `none` is no expiry.
abbrev pub TimedEntries : Type 0
TimedEntries = List (Str × Str × Option ℤ)

abbrev pub is_left : Option ℤ → Bool
is_left none = true
is_left (some t) = not (ltb_ℤ t (pos 0))

unfoldable pub timed_lookup : TimedEntries → Str → Reply
timed_lookup [] k = redis_nil
timed_lookup ((j, v, t) ∷ m) k =
    if str_eq j k then (if is_left t then found v else redis_nil) else timed_lookup m k

unfoldable pub timed_remove : Str → TimedEntries → TimedEntries
timed_remove k [] = []
timed_remove k ((j, v, t) ∷ m) =
    let rest = timed_remove k m in if str_eq j k then rest else (j, v, t) ∷ rest

-- An expiry of 0 is none.
unfoldable pub expiry_of : ℤ → Option ℤ
expiry_of t = if ltb_ℤ (pos 0) t then some t else none

abbrev pub sooner : ℤ → Option ℤ → Option ℤ
sooner d none = none
sooner d (some t) = some (t -ℤ d)

unfoldable pub pass : TimedEntries → ℤ → TimedEntries
pass [] d = []
pass ((j, v, t) ∷ m) d = (j, v, sooner d t) ∷ pass m d

pub lookup-remove : (m : TimedEntries) (k : Str) → timed_lookup (timed_remove k m) k ≡ redis_nil
unfolding timed_lookup timed_remove
lookup-remove [] k = refl
lookup-remove ((j, v, t) ∷ m) k = ground (arith, lookup-remove m k)

pub lookup-remove_ne :
    (m : TimedEntries) (k j : Str) → j ≢ k → timed_lookup (timed_remove k m) j ≡ timed_lookup m j
unfolding timed_lookup timed_remove
lookup-remove_ne [] k j h = refl
lookup-remove_ne ((i, v, t) ∷ m) k j h =
    ground (arith, str_eq_iff i k, str_eq_iff i j, lookup-remove_ne m k j h)

pub lookup-set :
    (m : TimedEntries) (k v : Str) (t : ℤ) → timed_lookup ((k, v, expiry_of t) ∷ m) k ≡ found v
unfolding timed_lookup expiry_of
lookup-set m k v t = ground (arith, str_eq_refl k)

pub lookup-set_ne :
    (m : TimedEntries) (k j v : Str) (t : ℤ)
    → j ≢ k
    → timed_lookup ((k, v, expiry_of t) ∷ m) j ≡ timed_lookup m j
unfolding timed_lookup
lookup-set_ne m k j v t h = ground (arith, str_eq_iff k j)

pub lookup-kept :
    (m : TimedEntries) (k v : Str) (t d : ℤ)
    → pos 0 ≤ℤ d
    → d <ℤ t
    → timed_lookup (pass ((k, v, expiry_of t) ∷ m) d) k ≡ found v
unfolding timed_lookup pass expiry_of ◌-ℤ◌
lookup-kept m k v t d h before = ground (arith, str_eq_refl k, h, before)

pub lookup-expired :
    (m : TimedEntries) (k v : Str) (t d : ℤ)
    → pos 0 <ℤ t
    → t <ℤ d
    → timed_lookup (pass ((k, v, expiry_of t) ∷ m) d) k ≡ redis_nil
unfolding timed_lookup pass expiry_of ◌-ℤ◌
lookup-expired m k v t d h past = ground (arith, str_eq_refl k, h, past)

abbrev pub timed_redis : Redis
timed_redis = record {
  Store = TimedEntries;
  get = timed_lookup;
  set = λ s k v t. ((k, v, expiry_of t) ∷ s, none);
  del = λ s k. (timed_remove k s, none);
  expire = λ s k t. (s, none);
  ttl = λ s k. pos 0;
  get-set = λ s k v t h. lookup-set s k v t;
  get-set_ne = λ s k j v t h. lookup-set_ne s k j v t h;
  get-del = λ s k h. lookup-remove s k;
  get-del_ne = λ s k j h. lookup-remove_ne s k j h;
}

abbrev pub timed_expiry : Expiry timed_redis
timed_expiry = record {
  after = pass;
  kept = λ s k v t d u h before. lookup-kept s k v t d h before;
  expired = λ s k v t d u h past. lookup-expired s k v t d h past;
}
