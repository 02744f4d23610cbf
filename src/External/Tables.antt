-- ===== src/External/Tables.antt =====
-- A table of the database that keeps its rows in a list, at which the theorems are instantiated.
use tas_agent_builder.Base.{
  ℕ, ◌==◌, ==_iff, ◌≡◌, refl, sym, ap, ◌∙◌, if◌then◌else◌, ◌||◌, ◌⊎◌, not, Bool, Bool-cases, true,
  false, inl, inr, Str, codes, List, [], ◌∷◌, ◌++◌, Option, none, some, length, Result, ok, err,
  panic, Among, filter, update_where,
}
use tas_agent_builder.External.Database.{Table}

abbrev pub decide : (b : Bool) → (b ≡ true) ⊎ (b ≡ false)
decide true = inl refl
decide false = inr refl

pub same-ok : {A : Type 0} (a b : A) → ok a ≡ ok b → b ≡ a
same-ok a b h = cc

module _ {Row : Type 0} (key : Row → ℕ) where
  abbrev pub has_key : ℕ → List Row → Bool
  has_key k [] = false
  has_key k (a ∷ rows) = key a == k || has_key k rows

  -- No two rows have the same key.
  abbrev pub distinct_keys : List Row → Bool
  distinct_keys [] = true
  distinct_keys (a ∷ rows) = if has_key (key a) rows then false else distinct_keys rows

  has_key-Among : (a : Row) (rows : List Row) → Among a rows → has_key (key a) rows ≡ true
  has_key-Among a [] m = elim m [ ]
  has_key-Among a (b ∷ rows) (inl e) =
      let same : (key b == key a) ≡ true = (==_iff (key b) (key a)).1 (ap key (sym e)) in
      rw (same) refl
  has_key-Among a (b ∷ rows) (inr m) = elim (Bool-cases (key b == key a)) [
    | inl same ↦ rw (same) refl
    | inr other ↦ rw (other) (has_key-Among a rows m)
  ]

  pub distinct_keys_unique :
      (rows : List Row) (a b : Row)
      → distinct_keys rows ≡ true
      → Among a rows
      → Among b rows
      → key a ≡ key b
      → a ≡ b
  distinct_keys_unique [] a b d m n e = elim m [ ]
  distinct_keys_unique (c ∷ rows) a b d m n e = elim (Bool-cases (has_key (key c) rows)) [
    | inl again ↦ cc (rw again at d)
    | inr fresh ↦ elim m [
      | inl p ↦ elim n [
        | inl q ↦ p ∙ sym q
        | inr n' ↦ cc (rw (sym e ∙ ap key p, fresh) at (has_key-Among b rows n'))
      ]
      | inr m' ↦ elim n [
        | inl q ↦ cc (rw (e ∙ ap key q, fresh) at (has_key-Among a rows m'))
        | inr n' ↦ distinct_keys_unique rows a b (rw fresh at d) m' n' e
      ]
    ]
  ]

  abbrev pub Rows : Type 0
  Rows = (rows : List Row) × (distinct_keys rows ≡ true)

  abbrev pub commit_if :
      Rows
      → (rows : List Row) → ℕ
      → (distinct_keys rows ≡ true) ⊎ (distinct_keys rows ≡ false)
      → Rows × Result ℕ
  commit_if s rows n (inl distinct) = ((rows, distinct), ok n)
  commit_if s rows n (inr twice) = (s, err (codes "duplicate key"))

  -- The new rows, unless two of them have one key.
  abbrev pub commit : Rows → List Row → ℕ → Rows × Result ℕ
  commit s rows n = commit_if s rows n (decide (distinct_keys rows))

  pub commit_if-ok :
      (s : Rows) (rows : List Row) (n m : ℕ)
      (d : (distinct_keys rows ≡ true) ⊎ (distinct_keys rows ≡ false))
      → (commit_if s rows n d).1 ≡ ok m
      → ((commit_if s rows n d).0.0 ≡ rows) × (m ≡ n)
  commit_if-ok s rows n m (inl d) h = (refl, cc)
  commit_if-ok s rows n m (inr d) h = cc

  pub commit_if-failed :
      (s : Rows) (rows : List Row) (n : ℕ) (e : Str)
      (d : (distinct_keys rows ≡ true) ⊎ (distinct_keys rows ≡ false))
      → (commit_if s rows n d).1 ≡ err e
      → (commit_if s rows n d).0.0 ≡ s.0
  commit_if-failed s rows n e (inl d) h = cc
  commit_if-failed s rows n e (inr d) h = refl

  pub commit_if-panic :
      (s : Rows) (rows : List Row) (n : ℕ)
      (d : (distinct_keys rows ≡ true) ⊎ (distinct_keys rows ≡ false))
      → (commit_if s rows n d).1 ≡ panic
      → (commit_if s rows n d).0.0 ≡ s.0
  commit_if-panic s rows n (inl d) h = cc
  commit_if-panic s rows n (inr d) h = cc

  abbrev pub error_of : Result ℕ → Option Str
  error_of (ok n) = none
  error_of (err e) = some e
  error_of panic = none

  pub error_of-none :
      (s : Rows) (rows : List Row) (n : ℕ)
      (d : (distinct_keys rows ≡ true) ⊎ (distinct_keys rows ≡ false))
      → error_of (commit_if s rows n d).1 ≡ none
      → (commit_if s rows n d).0.0 ≡ rows
  error_of-none s rows n (inl d) h = refl
  error_of-none s rows n (inr d) h = cc

  pub error_of-some :
      (s : Rows) (rows : List Row) (n : ℕ) (e : Str)
      (d : (distinct_keys rows ≡ true) ⊎ (distinct_keys rows ≡ false))
      → error_of (commit_if s rows n d).1 ≡ some e
      → (commit_if s rows n d).0.0 ≡ s.0
  error_of-some s rows n e (inl d) h = cc
  error_of-some s rows n e (inr d) h = refl

  -- A table of rows in a list, whose statements fail only where two rows would have one key.
  abbrev pub sample_table : Table Row
  sample_table = record {
    Store = Rows;
    key = key;
    rows = λ s. s.0;
    select = λ s p. ok (filter p s.0);
    insert = λ s a. let (t, r) = commit s (s.0 ++ (a ∷ [])) 1 in (t, error_of r);
    update = λ s p f. commit s (update_where p f s.0) (length (filter p s.0));
    delete = λ s p. commit s (filter (λ a. not (p a)) s.0) (length (filter p s.0));
    unique = λ s a b m n e. distinct_keys_unique s.0 a b s.1 m n e;
    select-ok = λ s p found h. same-ok (filter p s.0) found h;
    insert-done = λ s a h. error_of-none s _ 1 (decide _) h;
    insert-failed = λ s a e h. error_of-some s _ 1 e (decide _) h;
    update-done = λ s p f n h. commit_if-ok s _ _ n (decide _) h;
    update-failed = λ s p f e h. commit_if-failed s _ _ e (decide _) h;
    update-panic = λ s p f h. commit_if-panic s _ _ (decide _) h;
    delete-done = λ s p n h. commit_if-ok s _ _ n (decide _) h;
  }

module _ {Row : Type 0} (key : Row → ℕ) (p : Row → Bool) (g : Row → Row)
    (keeps : (a : Row) → key (g a) ≡ key a) where
  has_key-update :
      (k : ℕ) (rows : List Row) → has_key key k (update_where p g rows) ≡ has_key key k rows
  unfolding update_where
  has_key-update k [] = refl
  has_key-update k (a ∷ rows) = elim (Bool-cases (p a)) [
    | inl taken ↦ rw (taken, keeps a, has_key-update k rows) refl
    | inr left ↦ rw (left, has_key-update k rows) refl
  ]

  distinct_keys-update :
      (rows : List Row) → distinct_keys key (update_where p g rows) ≡ distinct_keys key rows
  unfolding update_where
  distinct_keys-update [] = refl
  distinct_keys-update (a ∷ rows) = elim (Bool-cases (p a)) [
    | inl taken ↦ rw (taken, keeps a, has_key-update (key a) rows, distinct_keys-update rows) refl
    | inr left ↦ rw (left, has_key-update (key a) rows, distinct_keys-update rows) refl
  ]

  commit_if-distinct :
      (s : Rows key) (rows : List Row) (n : ℕ)
      (d : (distinct_keys key rows ≡ true) ⊎ (distinct_keys key rows ≡ false))
      → distinct_keys key rows ≡ true
      → (commit_if key s rows n d).1 ≡ ok n
  commit_if-distinct s rows n (inl yes_distinct) h = refl
  commit_if-distinct s rows n (inr twice) h = cc (twice, h)

  -- An update that keeps the keys does not fail.
  pub sample_table-updates : (s : Rows key) → (n : ℕ) × (((sample_table key).update s p g).1 ≡ ok n)
  sample_table-updates s =
      let rows = update_where p g s.0 in
      (
        length (filter p s.0),
        commit_if-distinct s rows (length (filter p s.0)) (decide (distinct_keys key rows))
            (distinct_keys-update s.0 ∙ s.1),
      )
