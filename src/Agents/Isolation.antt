-- ===== src/Agents/Isolation.antt =====
-- What the calls of one user to services/impl/agent_service_impl.go leave alone.
use Prim.Native.String.{String}
use tas_agent_builder.Base.{
  ℕ, ◌==◌, ==_iff, ◌≡◌, refl, sym, ap, ◌∙◌, ◌&&◌, Bool, Bool-cases, true, false, inl, inr, Str,
  str_eq, ℤ, Result, ok, err, panic, Among,
}
use tas_agent_builder.External.Database.{Table, insert-Among, update-Among, first-some}
use tas_agent_builder.Floats.{FloatOps}
use tas_agent_builder.Models.Agent.{Agent, CreateAgentRequest, UpdateAgentRequest}
use tas_agent_builder.Agents.Service.{
  duplicate_found, copy_of, is_visible, is_owned, create, create_agent, update_found, update_agent,
  set_status, publish_agent, unpublish_agent, duplicate_agent,
}
use tas_agent_builder.Agents.Requests.{draft, published, Outside, agent_of_request, with_defaults}
use tas_agent_builder.Agents.Access.{and_right, found_or-ok}

and_false : (a : Bool) → a && false ≡ false
and_false true = refl
and_false false = refl

-- An agent that is neither the user's nor public nor internal.
pub record IsPrivate (user_id : Str) (a : Agent) : Type 0 where
  pub other_owner : str_eq a.owner_id user_id ≡ false
  pub not_public : a.is_public ≡ false
  pub not_internal : a.is_internal ≡ false

module _ (agents : Table Agent) (s : agents.Store) where
  IsPrivate-is_visible :
      (user_id : Str) (a : Agent) → IsPrivate user_id a → is_visible user_id a ≡ false
  unfolding is_visible
  IsPrivate-is_visible user_id a h = rw (h.other_owner, h.not_public) h.not_internal

  IsPrivate-is_owned :
      (id : ℕ) (user_id : Str) (a : Agent) → IsPrivate user_id a → is_owned id user_id a ≡ false
  unfolding is_owned
  IsPrivate-is_owned id user_id a h = rw (h.other_owner) (and_false (a.id == id))

  create-Among :
      (what : String) (new v : Agent)
      → Among v (agents.rows s)
      → Among v (agents.rows (create agents s what new).0)
  unfolding create
  create-Among what new v m = insert-Among agents s v (with_defaults new) m

  set_status-Among :
      (what : String) (status : Str) (now : ℤ) (id : ℕ) (user_id : Str) (v : Agent)
      → IsPrivate user_id v
      → Among v (agents.rows s)
      → Among v (agents.rows (set_status agents s what status now id user_id).0)
  unfolding set_status
  set_status-Among what status now id user_id v h m =
      update-Among agents s v (is_owned id user_id) _ m (IsPrivate-is_owned id user_id v h)

  update_found-Among :
      (out : Outside) (now : ℤ) (req : UpdateAgentRequest) (user_id : Str) (v : Agent)
      (r : Result Agent)
      → ((a : Agent) → agents.key a ≡ a.id)
      → ((a : Agent) → r ≡ ok a → Among a (agents.rows s) × (is_visible user_id a ≡ true))
      → IsPrivate user_id v
      → Among v (agents.rows s)
      → Among v (agents.rows (update_found agents out s now req r).0)
  unfolding update_found
  update_found-Among out now req user_id v (ok a) keyed found h m =
      let (there, sees) = found a refl in
      update-Among agents s v (λ b. b.id == a.id) _ m
        (elim (Bool-cases (v.id == a.id)) [
          | inl same ↦
              let e : v ≡ a =
                agents.unique s v a m there (keyed v ∙ (==_iff v.id a.id).0 same ∙ sym (keyed a)) in
              cc (e, sees, ap (is_visible user_id) e, IsPrivate-is_visible user_id v h)
          | inr other ↦ other
        ])
  update_found-Among out now req user_id v (err e) keyed found h m = m
  update_found-Among out now req user_id v panic keyed found h m = m

  duplicate_found-Among :
      (f : FloatOps) (now : ℤ) (new_id : ℕ) (new_name user_id tenant_id : Str) (v : Agent)
      (r : Result Agent)
      → Among v (agents.rows s)
      → Among v (agents.rows (duplicate_found agents f s now new_id new_name user_id tenant_id r).0)
  unfolding duplicate_found
  duplicate_found-Among f now new_id new_name user_id tenant_id v (ok source) m =
      create-Among "failed to duplicate agent"
        (copy_of agents f now new_id new_name user_id tenant_id source) v m
  duplicate_found-Among f now new_id new_name user_id tenant_id v (err e) m = m
  duplicate_found-Among f now new_id new_name user_id tenant_id v panic m = m

-- What a user can do to the agents, but for deleting them.
module _ (agents : Table Agent) (out : Outside) (user_id : Str) where
  pub data Step (s t : agents.Store) : Type 0 where
    creates :
        (now : ℤ) (new_id : ℕ) (req : CreateAgentRequest) (tenant_id : Str)
        → t ≡ (create_agent agents out s now new_id req user_id tenant_id).0
        → Step s t
    updates :
        (now : ℤ) (id : ℕ) (req : UpdateAgentRequest)
        → t ≡ (update_agent agents out s now id req user_id).0
        → Step s t
    publishes : (now : ℤ) (id : ℕ) → t ≡ (publish_agent agents s now id user_id).0 → Step s t
    unpublishes : (now : ℤ) (id : ℕ) → t ≡ (unpublish_agent agents s now id user_id).0 → Step s t
    duplicates :
        (now : ℤ) (new_id source_id : ℕ) (new_name tenant_id : Str)
        → t
          ≡ (duplicate_agent agents out.floats s now new_id source_id new_name user_id tenant_id).0
        → Step s t

  pub data Reach (s : agents.Store) : agents.Store → Type 0 where
    here : Reach s s
    next : {t u : agents.Store} → Reach s t → Step t u → Reach s u

  module _ (keyed : (a : Agent) → agents.key a ≡ a.id) (v : Agent) (h : IsPrivate user_id v) where
    Step-Among : (s t : agents.Store) → Step s t → Among v (agents.rows s) → Among v (agents.rows t)
    unfolding create_agent update_agent publish_agent unpublish_agent duplicate_agent
    Step-Among s t (creates now new_id req tenant_id e) m = rw (e) (
        create-Among agents s "failed to create agent"
          (agent_of_request out now new_id req user_id tenant_id) v m)
    Step-Among s t (updates now id req e) m = rw (e) (
        update_found-Among agents s out now req user_id v _ keyed
          (λ a found.
            let (there, holds) =
              first-some agents s _ a
                (found_or-ok "agent not found" "failed to find agent" _ a found) in
            (there, and_right _ _ holds))
          h m)
    Step-Among s t (publishes now id e) m =
        rw (e) (set_status-Among agents s "failed to publish agent" published now id user_id v h m)
    Step-Among s t (unpublishes now id e) m =
        rw (e) (set_status-Among agents s "failed to unpublish agent" draft now id user_id v h m)
    Step-Among s t (duplicates now new_id source_id new_name tenant_id e) m =
        rw (e)
          (duplicate_found-Among agents s out.floats now new_id new_name user_id tenant_id v _ m)

    -- Through any calls of a user, with or without errors, that create, update, publish, unpublish
    -- and duplicate agents, a stored agent that is neither the user's nor public nor internal stays
    -- stored as it is.
    pub Reach-Among :
        {s t : agents.Store} → Reach s t → Among v (agents.rows s) → Among v (agents.rows t)
    Reach-Among here m = m
    Reach-Among (next {t} {u} r step) m = Step-Among t u step (Reach-Among r m)
