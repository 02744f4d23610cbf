-- ===== src/Base/Rows.antt =====
-- Lists that are read and changed by a Boolean condition, as the rows of a table are.
use Prim.Native.Nat.{ℕ, suc}
use native.Mathlib.Omega.{arith}
use tas_agent_builder.Base.Lists.{length}
use mathlib.Core.Path.{◌≡◌, refl, ap, sym, ◌∙◌}
use mathlib.Core.Bool.{Bool, true, false}
use mathlib.Core.Logic.{◌⊎◌, inl, inr}
use mathlib.Core.List.{List, [], ◌∷◌, ◌++◌}
use tas_agent_builder.Base.Tests.{if◌then◌else◌, Bool-cases}

module _ {A : Type 0} where
  -- An element of a list.
  abbrev pub Among : A → List A → Type 0
  Among a [] = ⊥
  Among a (x ∷ xs) = (a ≡ x) ⊎ Among a xs

  unfoldable pub filter : (A → Bool) → List A → List A
  filter p [] = []
  filter p (x ∷ xs) = let rest = filter p xs in if p x then x ∷ rest else rest

  -- `UPDATE … WHERE p`
  unfoldable pub update_where : (A → Bool) → (A → A) → List A → List A
  update_where p f [] = []
  update_where p f (x ∷ xs) = (if p x then f x else x) ∷ update_where p f xs

  pub Among-append_left : (a : A) (xs ys : List A) → Among a xs → Among a (xs ++ ys)
  Among-append_left a [] ys m = elim m [ ]
  Among-append_left a (x ∷ xs) ys (inl e) = inl e
  Among-append_left a (x ∷ xs) ys (inr m) = inr (Among-append_left a xs ys m)

  pub Among-append_last : (a : A) (xs : List A) → Among a (xs ++ (a ∷ []))
  Among-append_last a [] = inl refl
  Among-append_last a (x ∷ xs) = inr (Among-append_last a xs)

  pub Among-filter :
      (p : A → Bool) (a : A) (xs : List A) → Among a (filter p xs) → Among a xs × (p a ≡ true)
  unfolding filter
  Among-filter p a [] m = elim m [ ]
  Among-filter p a (x ∷ xs) m = elim (Bool-cases (p x)) [
    | inl yes_x ↦ elim (rw yes_x at m) [
      | inl e ↦ (inl e, ap p e ∙ yes_x)
      | inr n ↦ let (there, holds) = Among-filter p a xs n in (inr there, holds)
    ]
    | inr no_x ↦ let (there, holds) = Among-filter p a xs (rw no_x at m) in (inr there, holds)
  ]

  pub filter-Among :
      (p : A → Bool) (a : A) (xs : List A) → Among a xs → p a ≡ true → Among a (filter p xs)
  unfolding filter
  filter-Among p a [] m h = elim m [ ]
  filter-Among p a (x ∷ xs) (inl e) h = let h' : p x ≡ true = ap p (sym e) ∙ h in rw (h') (inl e)
  filter-Among p a (x ∷ xs) (inr m) h = elim (Bool-cases (p x)) [
    | inl yes_x ↦ rw (yes_x) (inr (filter-Among p a xs m h))
    | inr no_x ↦ rw (no_x) (filter-Among p a xs m h)
  ]

  -- A row that the condition leaves out stays as it is.
  pub update_where-Among :
      (p : A → Bool) (f : A → A) (a : A) (xs : List A)
      → Among a xs
      → p a ≡ false
      → Among a (update_where p f xs)
  unfolding update_where
  update_where-Among p f a [] m h = elim m [ ]
  update_where-Among p f a (x ∷ xs) (inl e) h =
      let h' : p x ≡ false = ap p (sym e) ∙ h in rw (h') (inl e)
  update_where-Among p f a (x ∷ xs) (inr m) h = inr (update_where-Among p f a xs m h)

  -- A row that the condition takes is there, changed.
  pub update_where-changed :
      (p : A → Bool) (f : A → A) (a : A) (xs : List A)
      → Among a xs
      → p a ≡ true
      → Among (f a) (update_where p f xs)
  unfolding update_where
  update_where-changed p f a [] m h = elim m [ ]
  update_where-changed p f a (x ∷ xs) (inl e) h =
      let h' : p x ≡ true = ap p (sym e) ∙ h in rw (h') (inl (ap f e))
  update_where-changed p f a (x ∷ xs) (inr m) h = inr (update_where-changed p f a xs m h)

  -- Every row after an update was there, or is a changed one.
  pub Among-update_where :
      (p : A → Bool) (f : A → A) (b : A) (xs : List A)
      → Among b (update_where p f xs)
      → (Among b xs × (p b ≡ false)) ⊎ ((a : A) × Among a xs × (p a ≡ true) × (b ≡ f a))
  unfolding update_where
  Among-update_where p f b [] m = elim m [ ]
  Among-update_where p f b (x ∷ xs) m = elim (Bool-cases (p x)) [
    | inl yes_x ↦ elim (rw yes_x at m) [
      | inl e ↦ inr (x, inl refl, yes_x, e)
      | inr n ↦ elim (Among-update_where p f b xs n) [
        | inl (there, h) ↦ inl (inr there, h)
        | inr (a, there, h, e) ↦ inr (a, inr there, h, e)
      ]
    ]
    | inr no_x ↦ elim (rw no_x at m) [
      | inl e ↦ inl (inl e, ap p e ∙ no_x)
      | inr n ↦ elim (Among-update_where p f b xs n) [
        | inl (there, h) ↦ inl (inr there, h)
        | inr (a, there, h, e) ↦ inr (a, inr there, h, e)
      ]
    ]
  ]

  -- An update that takes no row changes none, and one that takes some row has one to change.
  pub update_where-zero :
      (p : A → Bool) (f : A → A) (xs : List A) → 0 ≡ length (filter p xs) → update_where p f xs ≡ xs
  unfolding filter update_where
  update_where-zero p f [] h = refl
  update_where-zero p f (x ∷ xs) h = elim (Bool-cases (p x)) [
    | inl holds ↦ absurd (omega (arith, rw holds at h))
    | inr fails ↦ rw (fails) (ap (λ l. x ∷ l) (update_where-zero p f xs (rw fails at h)))
  ]

  pub filter-suc :
      (p : A → Bool) (n : ℕ) (xs : List A)
      → suc n ≡ length (filter p xs)
      → (a : A) × Among a xs × (p a ≡ true)
  unfolding filter
  filter-suc p n [] h = absurd (omega (arith, h))
  filter-suc p n (x ∷ xs) h = elim (Bool-cases (p x)) [
    | inl holds ↦ (x, inl refl, holds)
    | inr fails ↦ let (a, there, holds) = filter-suc p n xs (rw fails at h) in (a, inr there, holds)
  ]
