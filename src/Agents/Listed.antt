-- ===== src/Agents/Listed.antt =====
-- What a page of agents of services/impl/agent_service_impl.go holds.
use mathlib.Core.List.{Permᴰ}
use mathlib.Core.Path.{subst}
use tas_agent_builder.Base.{
  zero, suc, ◌≡◌, ◌⊎◌, ◌↔◌, refl, sym, ap, ◌∙◌, ◌&&◌, Bool, Bool-cases, true, false, inl, inr, Str,
  List, [], ◌∷◌, ◌++◌, length, length-take-le, length-take-cases, take-append-drop, take-nil,
  drop-past, take, drop, ℤ, pos, negsuc, ◌≤ℤ◌, ◌<ℤ◌, ◌-ℤ◌, ◌*ℤ◌, ltb_ℤ, min_ℤ, max_ℤ, All, filter,
  arith,
}
use tas_agent_builder.External.Database.{Table}
use tas_agent_builder.Hybrid.Score.{insert, sort_slice}
use tas_agent_builder.Hybrid.Sorted.{Sorted, sort_slice-Sorted, sort_slice-Permᴰ}
use tas_agent_builder.Models.Agent.{Agent, AgentListFilter, AgentListResponse}
use tas_agent_builder.Agents.Service.{is_visible}
use tas_agent_builder.Agents.Requests.{Outside}
use tas_agent_builder.Agents.Access.{
  MaySee, is_visible-MaySee, MaySee-is_visible, and_left, and_right, and_true,
}
use tas_agent_builder.Agents.Wanted.{IsWanted, matches_filter-IsWanted}
use tas_agent_builder.Agents.Listing.{
  matches_filter, page_of, size_of, window, newest_first, list_response,
}

abbrev pub newer : Agent → Agent → Bool
newer a b = ltb_ℤ b.created_at a.created_at

newer-asymmetric : (a b : Agent) → newer a b ≡ true → newer b a ≡ false
newer-asymmetric a b h = ground (arith, h)

module _ {A : Type 0} (P : A → Type 0) where
  pub All-filter : (p : A → Bool) (xs : List A) → ((a : A) → p a ≡ true → P a) → All P (filter p xs)
  unfolding filter
  All-filter p [] h = tt
  All-filter p (x ∷ xs) h = elim (Bool-cases (p x)) [
    | inl holds ↦ rw (holds) (h x holds, All-filter p xs h)
    | inr fails ↦ rw (fails) (All-filter p xs h)
  ]

size_of_bounds :
    (filter : AgentListFilter) → (pos 1 ≤ℤ size_of filter) × (size_of filter ≤ℤ pos 100)
unfolding size_of min_ℤ max_ℤ
size_of_bounds filter = ground arith

page_of_bounds : (filter : AgentListFilter) → pos 1 ≤ℤ page_of filter
unfolding page_of max_ℤ
page_of_bounds filter = ground arith

length-insert : (x : Agent) (ys : List Agent) → length (insert newer x ys) ≡ suc (length ys)
unfolding insert
length-insert x [] = refl
length-insert x (y ∷ ys) = elim (Bool-cases (newer y x)) [
  | inl before ↦ rw (before) (ap suc (length-insert x ys))
  | inr after ↦ rw (after) refl
]

length-sort_slice : (xs : List Agent) → length (sort_slice newer xs) ≡ length xs
unfolding sort_slice
length-sort_slice [] = refl
length-sort_slice (x ∷ xs) = length-insert x (sort_slice newer xs) ∙ ap suc (length-sort_slice xs)

-- A window of a list: as many elements as the offset says are before it, unless the list ends
-- earlier, and it is as long as the limit, unless the list ends with it.
pub record IsWindow {A : Type 0} (offset limit : ℤ) (whole part : List A) : Type 0 where
  pub before : List A
  pub after : List A
  pub parts : whole ≡ before ++ (part ++ after)
  pub skipped : (pos (length before) ≡ offset) ⊎ ((pos (length whole) <ℤ offset) × (part ≡ []))
  pub filled : (pos (length part) ≡ limit) ⊎ (after ≡ [])
  pub fits : pos (length part) ≤ℤ limit

window-IsWindow :
    {A : Type 0} (offset limit : ℤ) (xs : List A)
    → pos 0 ≤ℤ offset
    → pos 0 ≤ℤ limit
    → IsWindow offset limit xs (window offset limit xs)
unfolding window
window-IsWindow (negsuc n) limit xs h g = absurd (omega (arith, h))
window-IsWindow (pos n) (negsuc m) xs h g = absurd (omega (arith, g))
window-IsWindow (pos n) (pos m) xs h g =
    let rest = drop n xs in
    record {
      before = take n xs;
      after = drop m rest;
      parts =
          sym (take-append-drop n xs) ∙ ap (λ l. take n xs ++ l) (sym (take-append-drop m rest));
      skipped = elim (length-take-cases n xs) [
        | inl enough ↦ inl (ap pos enough)
        | inr past ↦
            let none_left : rest ≡ [] = drop-past n xs (omega (arith, past)) in
            inr (omega (arith, past), ap (take m) none_left ∙ take-nil m)
      ];
      filled = elim (length-take-cases m rest) [
        | inl enough ↦ inl (ap pos enough)
        | inr few ↦ inr (drop-past m rest (omega (arith, few)))
      ];
      fits = omega (arith, length-take-le m rest);
    }

product_bounds : (a b : ℤ) → pos 1 ≤ℤ a → pos 1 ≤ℤ b → pos 0 ≤ℤ (a -ℤ pos 1) *ℤ b
unfolding ◌*ℤ◌ ◌-ℤ◌
product_bounds (negsuc n) b h g = absurd (omega (arith, h))
product_bounds (pos zero) b h g = absurd (omega (arith, h))
product_bounds (pos (suc n)) (negsuc m) h g = absurd (omega (arith, g))
product_bounds (pos (suc n)) (pos m) h g = ground arith

module _ (agents : Table Agent) (out : Outside) (s : agents.Store) where
  abbrev pub listed : AgentListFilter → Str → Agent → Bool
  listed wanted user_id a = is_visible user_id a && matches_filter out wanted a

  -- What a list holds: the agents that the user may see and that have what the filter asks for.
  abbrev pub InList : AgentListFilter → Str → Agent → Type 0
  InList wanted user_id a = MaySee user_id a × IsWanted out wanted a

  listed-InList :
      (wanted : AgentListFilter) (user_id : Str) (a : Agent)
      → (listed wanted user_id a ≡ true) ↔ InList wanted user_id a
  listed-InList wanted user_id a = (
    λ h. (
      is_visible-MaySee user_id a (and_left _ _ h),
      (matches_filter-IsWanted out wanted a).0 (and_right _ _ h),
    ),
    λ w. and_true (MaySee-is_visible user_id a w.0) ((matches_filter-IsWanted out wanted a).1 w.1),
  )

  -- A page of the agents that a user may see and that a filter wants, the newest first: `whole` has
  -- exactly the rows of the table that pass, and the page is the window of its number and size.
  pub record IsListed (wanted : AgentListFilter) (user_id : Str) (r : AgentListResponse)
      : Type 0 where
    pub passes : Agent → Bool
    pub passing : (a : Agent) → (passes a ≡ true) ↔ InList wanted user_id a
    pub whole : List Agent
    pub same : Permᴰ whole (filter passes (agents.rows s))
    pub newest : Sorted newer whole
    pub window : IsWindow ((r.page -ℤ pos 1) *ℤ r.size) r.size whole r.agents
    pub size : (pos 1 ≤ℤ r.size) × (r.size ≤ℤ pos 100)
    pub page : pos 1 ≤ℤ r.page
    pub total : r.total ≡ pos (length whole)

  pub list_response-IsListed :
      (wanted : AgentListFilter) (user_id : Str) (found : List Agent)
      → found ≡ filter (listed wanted user_id) (agents.rows s)
      → IsListed wanted user_id (list_response wanted (length found) found)
  unfolding list_response newest_first
  list_response-IsListed wanted user_id found e =
      let (one, most) = size_of_bounds wanted in
      let sorted = sort_slice newer found in
      record {
        passes = listed wanted user_id;
        passing = listed-InList wanted user_id;
        whole = sorted;
        same = subst (Permᴰ sorted) e (sort_slice-Permᴰ newer found);
        newest = sort_slice-Sorted newer newer-asymmetric found;
        window =
            window-IsWindow ((page_of wanted -ℤ pos 1) *ℤ size_of wanted) (size_of wanted) sorted
              (product_bounds (page_of wanted) (size_of wanted) (page_of_bounds wanted) one)
              (omega (arith, one));
        size = size_of_bounds wanted;
        page = page_of_bounds wanted;
        total = ap pos (sym (length-sort_slice found));
      }
