-- ===== src/Agents/Access.antt =====
-- Who sees and changes which agents in services/impl/agent_service_impl.go.
use Prim.Native.String.{String}
use tas_agent_builder.Base.{
  ℕ, ◌==◌, ==_iff, ◌≡◌, ◌⊎◌, ◌↔◌, refl, sym, ap, ◌∙◌, ◌&&◌, Bool, Bool-cases, true, false, inl, inr,
  Str, str_eq, str_eq_iff, List, [], ◌∷◌, Option, none, some, Result, ok, err, panic, Among,
}
use tas_agent_builder.External.Database.{Table, first, first_row, first-some, first-key}
use tas_agent_builder.Models.Agent.{Agent}
use tas_agent_builder.Agents.Service.{is_visible, found_or, get_agent}

-- The ways in which an agent is open to a user.
abbrev pub MaySee : Str → Agent → Type 0
MaySee user_id a = (a.owner_id ≡ user_id) ⊎ (a.is_public ≡ true) ⊎ (a.is_internal ≡ true)

pub is_visible-MaySee : (user_id : Str) (a : Agent) → is_visible user_id a ≡ true → MaySee user_id a
unfolding is_visible
is_visible-MaySee user_id a h = elim (Bool-cases (str_eq a.owner_id user_id)) [
  | inl own ↦ inl ((str_eq_iff a.owner_id user_id).0 own)
  | inr other ↦ elim (Bool-cases a.is_public) [
    | inl open_to_all ↦ inr (inl open_to_all)
    | inr closed ↦ inr (inr (rw (other, closed) at h))
  ]
]

pub and_left : (a b : Bool) → a && b ≡ true → a ≡ true
and_left true b h = refl
and_left false b h = cc

pub and_right : (a b : Bool) → a && b ≡ true → b ≡ true
and_right true b h = h
and_right false b h = cc

pub found_or-ok :
    (missing what : String) (r : Result (Option Agent)) (a : Agent)
    → found_or missing what r ≡ ok a
    → r ≡ ok (some a)
unfolding found_or
found_or-ok missing what (ok none) a h = cc
found_or-ok missing what (ok (some b)) a h = cc
found_or-ok missing what (err e) a h = cc
found_or-ok missing what panic a h = cc

pub and_true : {a b : Bool} → a ≡ true → b ≡ true → a && b ≡ true
and_true p q = rw (p) q

pub MaySee-is_visible : (user_id : Str) (a : Agent) → MaySee user_id a → is_visible user_id a ≡ true
unfolding is_visible
MaySee-is_visible user_id a h = elim (Bool-cases (str_eq a.owner_id user_id)) [
  | inl own ↦ rw (own) refl
  | inr other ↦ elim (Bool-cases a.is_public) [
    | inl open_to_all ↦ rw (other, open_to_all) refl
    | inr closed ↦ elim h [
      | inl own ↦ cc (other, (str_eq_iff a.owner_id user_id).1 own)
      | inr (inl open_to_all) ↦ cc (closed, open_to_all)
      | inr (inr internal) ↦ rw (other, closed) internal
    ]
  ]
]

first_row-ok : (found : List Agent) → (o : Option Agent) × (first_row (ok found) ≡ ok o)
unfolding first_row
first_row-ok [] = (none, refl)
first_row-ok (a ∷ rest) = (some a, refl)

module _ (agents : Table Agent) (s : agents.Store) where
  -- What `GetAgent` returns is a stored agent with the id that the user may see.
  pub get_agent-MaySee :
      (id : ℕ) (user_id : Str) (a : Agent)
      → get_agent agents s id user_id ≡ ok a
      → Among a (agents.rows s) × (a.id ≡ id) × MaySee user_id a
  unfolding get_agent
  get_agent-MaySee id user_id a h =
      let (there, holds) =
        first-some agents s _ a
          (found_or-ok "agent not found or access denied" "failed to get agent" _ a h) in
      (
        there,
        (==_iff a.id id).0 (and_left _ _ holds),
        is_visible-MaySee user_id a (and_right _ _ holds),
      )

  -- When the database answers, `GetAgent` returns exactly the stored agent with the id, where the
  -- user may see it.
  pub get_agent_iff :
      ((a : Agent) → agents.key a ≡ a.id)
      → ((p : Agent → Bool) → (found : List Agent) × (agents.select s p ≡ ok found))
      → (id : ℕ) (user_id : Str) (a : Agent)
      → (get_agent agents s id user_id ≡ ok a)
        ↔ (Among a (agents.rows s) × (a.id ≡ id) × MaySee user_id a)
  unfolding get_agent found_or
  get_agent_iff keyed answers id user_id a = (get_agent-MaySee id user_id a, finds)
    where
      p : Agent → Bool
      p b = (b.id == id) && is_visible user_id b

      finds :
          (Among a (agents.rows s) × (a.id ≡ id) × MaySee user_id a)
          → get_agent agents s id user_id ≡ ok a
      finds (there, same, sees) =
          let holds : p a ≡ true =
            and_true ((==_iff a.id id).1 same) (MaySee-is_visible user_id a sees) in
          let fixes = λ (b : Agent) (h : p b ≡ true).
            keyed b ∙ (==_iff b.id id).0 (and_left _ _ h) ∙ sym same ∙ sym (keyed a) in
          let (found, selected) = answers p in
          let (o, e) = first_row-ok found in
          let read : first agents s p ≡ ok o = rw (selected, first) e in
          rw (read ∙ ap ok (first-key agents s p a there holds fixes o read)) refl
