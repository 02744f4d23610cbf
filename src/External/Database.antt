-- ===== src/External/Database.antt =====
-- A table of the database (gorm.io/gorm over PostgreSQL). A condition is the meaning of a `WHERE`
-- clause; a statement that reports an error changes nothing, and one that reports none has the
-- effect that SQL documents. `rows` is what the table holds, in the order in which it is read.
use mathlib.Core.Path.{subst}
use tas_agent_builder.Base.{
  Among-append_left, update_where-Among, Option-cases, Result-cases, ℕ, ◌≡◌, refl, sym, ap, Bool,
  Bool-cases, true, false, inl, inr, Str, List, [], ◌∷◌, ◌++◌, Option, none, some, length, Result,
  ok, err, panic, Among, Among-filter, filter-Among, filter, update_where, not,
}

pub record Table (Row : Type 0) : Type 1 where
  pub Store : Type 0
  pub key : Row → ℕ
  pub rows : Store → List Row
  pub select : Store → (Row → Bool) → Result (List Row)
  pub insert : Store → Row → Store × Option Str
  -- The new store, and the number of rows that the condition took.
  pub update : Store → (Row → Bool) → (Row → Row) → Store × Result ℕ
  pub delete : Store → (Row → Bool) → Store × Result ℕ
  -- The primary key.
  pub unique : (s : Store) (a b : Row) → Among a (rows s) → Among b (rows s) → key a ≡ key b → a ≡ b
  pub select-ok :
      (s : Store) (p : Row → Bool) (found : List Row)
      → select s p ≡ ok found
      → found ≡ filter p (rows s)
  pub insert-done :
      (s : Store) (a : Row) → (insert s a).1 ≡ none → rows (insert s a).0 ≡ rows s ++ (a ∷ [])
  pub insert-failed :
      (s : Store) (a : Row) (e : Str) → (insert s a).1 ≡ some e → rows (insert s a).0 ≡ rows s
  pub update-done :
      (s : Store) (p : Row → Bool) (f : Row → Row) (n : ℕ)
      → (update s p f).1 ≡ ok n
      → (rows (update s p f).0 ≡ update_where p f (rows s)) × (n ≡ length (filter p (rows s)))
  pub update-failed :
      (s : Store) (p : Row → Bool) (f : Row → Row) (e : Str)
      → (update s p f).1 ≡ err e
      → rows (update s p f).0 ≡ rows s
  pub update-panic :
      (s : Store) (p : Row → Bool) (f : Row → Row)
      → (update s p f).1 ≡ panic
      → rows (update s p f).0 ≡ rows s
  pub delete-done :
      (s : Store) (p : Row → Bool) (n : ℕ)
      → (delete s p).1 ≡ ok n
      → (rows (delete s p).0 ≡ filter (λ a. not (p a)) (rows s)) × (n ≡ length (filter p (rows s)))

-- `First` of the rows of a condition; `none` is `gorm.ErrRecordNotFound`.
unfoldable pub first_row {ℓ} : {Row : Type ℓ} → Result (List Row) → Result (Option Row)
first_row (ok []) = ok none
first_row (ok (a ∷ rest)) = ok (some a)
first_row (err e) = err e
first_row panic = panic

unfoldable pub first : {Row : Type 0} (t : Table Row) → t.Store → (Row → Bool) → Result (Option Row)
unfolding first_row
first t s p = first_row (t.select s p)

-- `Count`
unfoldable pub count : {Row : Type 0} (t : Table Row) → t.Store → (Row → Bool) → Result ℕ
count t s p = elim (t.select s p) [ ok found ↦ ok (length found) | err e ↦ err e | panic ↦ panic ]

module _ {Row : Type 0} (p : Row → Bool) (rows : List Row) where
  first_row-some :
      (r : Result (List Row)) (a : Row)
      → ((found : List Row) → r ≡ ok found → found ≡ filter p rows)
      → first_row r ≡ ok (some a)
      → Among a rows × (p a ≡ true)
  unfolding first_row
  first_row-some (ok []) a selected h = cc
  first_row-some (ok (b ∷ rest)) a selected h =
      let e : a ≡ b = cc (h) in Among-filter p a rows (rw (sym (selected (b ∷ rest) refl)) (inl e))
  first_row-some (err e) a selected h = cc
  first_row-some panic a selected h = cc

  first_row-none :
      (r : Result (List Row)) (a : Row)
      → ((found : List Row) → r ≡ ok found → found ≡ filter p rows)
      → first_row r ≡ ok none
      → Among a rows
      → p a ≡ false
  unfolding first_row
  first_row-none (ok []) a selected h m = elim (Bool-cases (p a)) [
    | inl holds ↦ absurd (subst (Among a) (sym (selected [] refl)) (filter-Among p a rows m holds))
    | inr fails ↦ fails
  ]
  first_row-none (ok (b ∷ rest)) a selected h m = cc
  first_row-none (err e) a selected h m = cc
  first_row-none panic a selected h m = cc

module _ {Row : Type 0} (t : Table Row) (s : t.Store) (p : Row → Bool) (a : Row) where
  -- A row that `First` returns is in the table and satisfies the condition.
  pub first-some : first t s p ≡ ok (some a) → Among a (t.rows s) × (p a ≡ true)
  unfolding first
  first-some h = first_row-some p (t.rows s) (t.select s p) a (t.select-ok s p) h

  -- When `First` finds nothing, no row satisfies the condition.
  pub first-none : first t s p ≡ ok none → Among a (t.rows s) → p a ≡ false
  unfolding first
  first-none h m = first_row-none p (t.rows s) (t.select s p) a (t.select-ok s p) h m

  -- A condition that fixes the key finds the row that satisfies it.
  pub first-key :
      Among a (t.rows s)
      → p a ≡ true
      → ((b : Row) → p b ≡ true → t.key b ≡ t.key a)
      → (o : Option Row) → first t s p ≡ ok o
      → o ≡ some a
  unfolding first
  first-key m holds fixes none h =
      cc (first_row-none p (t.rows s) (t.select s p) a (t.select-ok s p) h m, holds)
  first-key m holds fixes (some b) h =
      let (there, sat) = first_row-some p (t.rows s) (t.select s p) b (t.select-ok s p) h in
      ap some (t.unique s b a there m (fixes b sat))

module _ {Row : Type 0} (t : Table Row) (s : t.Store) (a : Row) where
  -- Whether it fails or not, an insert keeps every row.
  pub insert-Among : (b : Row) → Among a (t.rows s) → Among a (t.rows (t.insert s b).0)
  insert-Among b m = elim (Option-cases (t.insert s b).1) [
    | inl done ↦ rw (t.insert-done s b done) (Among-append_left a (t.rows s) (b ∷ []) m)
    | inr (e, failed) ↦ rw (t.insert-failed s b e failed) m
  ]

  -- Whether it fails or not, an update keeps every row that its condition leaves out.
  pub update-Among :
      (p : Row → Bool) (f : Row → Row)
      → Among a (t.rows s)
      → p a ≡ false
      → Among a (t.rows (t.update s p f).0)
  update-Among p f m h = elim (Result-cases (t.update s p f).1) [
    | inl (n, done) ↦ rw ((t.update-done s p f n done).0) (update_where-Among p f a (t.rows s) m h)
    | inr (inl (e, failed)) ↦ rw (t.update-failed s p f e failed) m
    | inr (inr died) ↦ rw (t.update-panic s p f died) m
  ]
