-- ===== src/Hybrid/Sorted.antt =====
-- The insertion sort that stands for `sort.Slice` in services/impl.
use mathlib.Core.List.{Permᴰ}
use tas_agent_builder.Base.{◌≡◌, refl, Bool, Bool-cases, true, false, inl, inr, List, [], ◌∷◌}
use tas_agent_builder.Hybrid.Score.{insert, sort_slice}

module _ {A : Type 0} (less : A → A → Bool) where
  self-Permᴰ : (xs : List A) → Permᴰ xs xs
  self-Permᴰ [] = Permᴰ.nil
  self-Permᴰ (x ∷ xs) = Permᴰ.cons refl (self-Permᴰ xs)

  insert-Permᴰ : (x : A) (ys : List A) → Permᴰ (insert less x ys) (x ∷ ys)
  unfolding insert
  insert-Permᴰ x [] = Permᴰ.cons refl Permᴰ.nil
  insert-Permᴰ x (y ∷ ys) =
      let rest = insert-Permᴰ x ys in
      elim (Bool-cases (less y x)) [
        | inl before ↦ rw (before) (Permᴰ.trans (Permᴰ.cons refl rest) (Permᴰ.swap refl refl))
        | inr after ↦ rw (after) (self-Permᴰ (x ∷ y ∷ ys))
      ]

  pub sort_slice-Permᴰ : (xs : List A) → Permᴰ (sort_slice less xs) xs
  unfolding sort_slice
  sort_slice-Permᴰ [] = Permᴰ.nil
  sort_slice-Permᴰ (x ∷ xs) =
      Permᴰ.trans (insert-Permᴰ x (sort_slice less xs)) (Permᴰ.cons refl (sort_slice-Permᴰ xs))

  -- No element is less than the one before it.
  abbrev pub After : A → List A → Type 0
  After a [] = Unit
  After a (b ∷ l) = less b a ≡ false

  abbrev pub Sorted : List A → Type 0
  Sorted [] = Unit
  Sorted (a ∷ l) = After a l × Sorted l

  module _ (asymmetric : (a b : A) → less a b ≡ true → less b a ≡ false) where
    insert-After :
        (a x : A) (ys : List A) → less x a ≡ false → After a ys → After a (insert less x ys)
    unfolding insert
    insert-After a x [] h after = h
    insert-After a x (y ∷ ys) h after = elim (Bool-cases (less y x)) [
      | inl before ↦ rw (before) after
      | inr later ↦ rw (later) h
    ]

    insert-Sorted : (x : A) (ys : List A) → Sorted ys → Sorted (insert less x ys)
    unfolding insert
    insert-Sorted x [] s = (tt, tt)
    insert-Sorted x (y ∷ ys) (after, s) =
        let rest = insert-Sorted x ys s in
        elim (Bool-cases (less y x)) [
          | inl before ↦ rw (before) (insert-After y x ys (asymmetric y x before) after, rest)
          | inr later ↦ rw (later) (later, (after, s))
        ]

    pub sort_slice-Sorted : (xs : List A) → Sorted (sort_slice less xs)
    unfolding sort_slice
    sort_slice-Sorted [] = tt
    sort_slice-Sorted (x ∷ xs) = insert-Sorted x (sort_slice less xs) (sort_slice-Sorted xs)
