-- ===== src/External/Samples.antt =====
-- Concrete stand-ins for the external services, at which the theorems are instantiated: a Redis
-- that keeps an association list, and a codec that writes the position of a value in a table.
use tas_agent_builder.Base.{
  ℕ, ◌≡◌, ◌≢◌, refl, Str, str_eq, str_eq_iff, str_eq_refl, List, [], ◌∷◌, none, pos, Result, ok,
  err, panic, ap, codes, if◌then◌else◌, arith, length,
}
use tas_agent_builder.External.{Redis, Reply, found, redis_nil, Codec, UuidText}

abbrev pub Entries : Type 0
Entries = List (Str × Str)

unfoldable pub lookup : Entries → Str → Reply
lookup [] k = redis_nil
lookup ((j, v) ∷ m) k = if str_eq j k then found v else lookup m k

unfoldable pub remove : Str → Entries → Entries
remove k [] = []
remove k ((j, v) ∷ m) = let rest = remove k m in if str_eq j k then rest else (j, v) ∷ rest

pub lookup-remove : (m : Entries) (k : Str) → lookup (remove k m) k ≡ redis_nil
unfolding lookup remove
lookup-remove [] k = refl
lookup-remove ((j, v) ∷ m) k = ground (arith, lookup-remove m k)

pub lookup-remove_ne : (m : Entries) (k j : Str) → j ≢ k → lookup (remove k m) j ≡ lookup m j
unfolding lookup remove
lookup-remove_ne [] k j h = refl
lookup-remove_ne ((i, v) ∷ m) k j h =
    ground (arith, str_eq_iff i k, str_eq_iff i j, lookup-remove_ne m k j h)

pub lookup-set : (m : Entries) (k v : Str) → lookup ((k, v) ∷ m) k ≡ found v
unfolding lookup
lookup-set m k v = ground (arith, str_eq_refl k)

pub lookup-set_ne : (m : Entries) (k j v : Str) → j ≢ k → lookup ((k, v) ∷ m) j ≡ lookup m j
unfolding lookup
lookup-set_ne m k j v h = ground (arith, str_eq_iff k j)

abbrev pub sample_redis : Redis
sample_redis = record {
  Store = Entries;
  get = lookup;
  set = λ s k v t. ((k, v) ∷ s, none);
  del = λ s k. (remove k s, none);
  expire = λ s k t. (s, none);
  ttl = λ s k. pos 0;
  get-set = λ s k v t h. lookup-set s k v;
  get-set_ne = λ s k j v t h. lookup-set_ne s k j v h;
  get-del = λ s k h. lookup-remove s k;
  get-del_ne = λ s k j h. lookup-remove_ne s k j h;
}

-- `u` as a text of 36 characters: the number itself and 35 dashes.
unfoldable pub sample_text : ℕ → Str
sample_text u = u ∷ codes "-----------------------------------"

pub length-sample_text : (u : ℕ) → length (sample_text u) ≡ 36
unfolding sample_text
length-sample_text u = refl

pub sample_text_inj : (u v : ℕ) → sample_text u ≡ sample_text v → u ≡ v
unfolding sample_text
sample_text_inj u v e = cc

abbrev pub sample_uuid : UuidText
sample_uuid = record {
  to_string = sample_text;
  length-to_string = length-sample_text;
  to_string_inj = sample_text_inj;
}

write_step : {P : Type 0} → Dec P → Result Str → Result Str
write_step (yes p) rest = ok []
write_step (no p) (ok s) = ok (0 ∷ s)
write_step (no p) (err e) = err e
write_step (no p) panic = panic

unfoldable pub write : {A : Type 0} → Discrete A → List A → A → Result Str
unfolding write_step
write dec [] a = err (codes "no code")
write dec (x ∷ xs) a = write_step (dec x a) (write dec xs a)

unfoldable pub read : {A : Type 0} → List A → Str → Result A
read [] s = err (codes "no value")
read (x ∷ xs) [] = ok x
read (x ∷ xs) (c ∷ s) = read xs s

read-write_step :
    {A : Type 0} (x a : A) (xs : List A) (d : Dec (x ≡ a)) (r : Result Str) (s : Str)
    → ((t : Str) → r ≡ ok t → read xs t ≡ ok a)
    → write_step d r ≡ ok s
    → read (x ∷ xs) s ≡ ok a
unfolding write_step read
read-write_step x a xs (yes p) r [] ih h = ap ok p
read-write_step x a xs (yes p) r (c ∷ s) ih h = cc
read-write_step x a xs (no p) (ok t) [] ih h = cc
read-write_step x a xs (no p) (ok t) (c ∷ s) ih h = ih s (cc)
read-write_step x a xs (no p) (err e) s ih h = cc
read-write_step x a xs (no p) panic s ih h = cc

pub read-write :
    {A : Type 0} (dec : Discrete A) (xs : List A) (a : A) (s : Str)
    → write dec xs a ≡ ok s
    → read xs s ≡ ok a
unfolding write read
read-write dec [] a s h = cc
read-write dec (x ∷ xs) a s h =
    read-write_step x a xs (dec x a) (write dec xs a) s (λ t. read-write dec xs a t) h

abbrev pub table_codec : {A : Type 0} → Discrete A → List A → Codec A
table_codec dec xs = record {
  marshal = write dec xs;
  unmarshal = read xs;
  unmarshal-marshal = read-write dec xs;
}
