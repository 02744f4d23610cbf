-- ===== src/Hybrid/Keyed.antt =====
-- Lists of entries with keys that are all different, for the duplicates of
-- services/impl/hybrid_context.go.
use tas_agent_builder.Base.{
  ◌≡◌, refl, sym, ap, ◌∙◌, ◌||◌, Bool-cases, true, false, inl, inr, Str, str_eq, str_eq_iff,
  str_eq_refl, List, [], ◌∷◌, ◌++◌, none, some, map, All,
}
use tas_agent_builder.Memory.Tokens.{contains}
use tas_agent_builder.Hybrid.Score.{put, lookup}

-- No text occurs twice.
abbrev pub Distinct : List Str → Type 0
Distinct [] = Unit
Distinct (s ∷ ss) = (contains s ss ≡ false) × Distinct ss

module _ {A : Type 0} where
  abbrev pub keys : List (Str × A) → List Str
  keys m = map (λ entry. entry.0) m

  abbrev pub values : List (Str × A) → List A
  values m = map (λ entry. entry.1) m

  pub lookup-some :
      (k : Str) (a b : A) (m : List (Str × A))
      → lookup k m ≡ some b
      → (keys (put k a m) ≡ keys m) × (contains k (keys m) ≡ true)
  unfolding put lookup contains
  lookup-some k a b [] h = cc
  lookup-some k a b ((j, c) ∷ m) h = elim (Bool-cases (str_eq j k)) [
    | inl same ↦ (rw (same) refl, rw (same) refl)
    | inr other ↦
        let (ks, there) = lookup-some k a b m (rw other at h) in
        (rw (other) (ap (λ ss. j ∷ ss) ks), rw (other) there)
  ]

  pub lookup-none :
      (k : Str) (a : A) (m : List (Str × A))
      → lookup k m ≡ none
      → (put k a m ≡ m ++ ((k, a) ∷ [])) × (contains k (keys m) ≡ false)
  unfolding put lookup contains
  lookup-none k a [] h = (refl, refl)
  lookup-none k a ((j, c) ∷ m) h = elim (Bool-cases (str_eq j k)) [
    | inl same ↦ cc (rw same at h)
    | inr other ↦
        let (ks, absent) = lookup-none k a m (rw other at h) in
        (rw (other) (ap (λ l. (j, c) ∷ l) ks), rw (other) absent)
  ]

  pub keys-append : (m n : List (Str × A)) → keys (m ++ n) ≡ keys m ++ keys n
  keys-append [] n = refl
  keys-append (e ∷ m) n = ap (λ ss. e.0 ∷ ss) (keys-append m n)

pub str_eq_comm : (s t : Str) → str_eq s t ≡ false → str_eq t s ≡ false
str_eq_comm s t h = elim (Bool-cases (str_eq t s)) [
  | inl same ↦ cc (h, str_eq_refl s, ap (λ u. str_eq s u) ((str_eq_iff t s).0 same))
  | inr other ↦ other
]

pub contains-append :
    (s t : Str) (ss : List Str) → contains s (ss ++ (t ∷ [])) ≡ contains s ss || str_eq t s
unfolding contains
contains-append s t [] = elim (Bool-cases (str_eq t s)) [
  | inl same ↦ rw (same) refl
  | inr other ↦ rw (other) refl
]
contains-append s t (u ∷ ss) = elim (Bool-cases (str_eq u s)) [
  | inl same ↦ rw (same) refl
  | inr other ↦ rw (other) (contains-append s t ss)
]

pub append-Distinct :
    (t : Str) (ss : List Str) → contains t ss ≡ false → Distinct ss → Distinct (ss ++ (t ∷ []))
unfolding contains
append-Distinct t [] h d = (refl, tt)
append-Distinct t (s ∷ ss) h (fresh, d) = elim (Bool-cases (str_eq s t)) [
  | inl same ↦ cc (rw same at h)
  | inr other ↦
      let apart = str_eq_comm s t other in
      (contains-append s t ss ∙ rw (fresh, apart) refl, append-Distinct t ss (rw other at h) d)
]

module _ {A : Type 0} where
  pub put-All :
      (P : Str × A → Type 0) (k : Str) (a : A) (m : List (Str × A))
      → All P m
      → P (k, a)
      → All P (put k a m)
  unfolding put
  put-All P k a [] all p = (p, tt)
  put-All P k a ((j, c) ∷ m) (q, all) p = elim (Bool-cases (str_eq j k)) [
    | inl same ↦ rw (same) (rw ((str_eq_iff j k).0 same) p, all)
    | inr other ↦ rw (other) (q, put-All P k a m all p)
  ]

  pub lookup-All :
      (P : Str × A → Type 0) (k : Str) (a : A) (m : List (Str × A))
      → All P m
      → lookup k m ≡ some a
      → P (k, a)
  unfolding lookup
  lookup-All P k a [] all h = cc
  lookup-All P k a ((j, c) ∷ m) (q, all) h = elim (Bool-cases (str_eq j k)) [
    | inl same ↦ let e : c ≡ a = cc (rw same at h) in rw (sym ((str_eq_iff j k).0 same), sym e) q
    | inr other ↦ lookup-All P k a m all (rw other at h)
  ]
