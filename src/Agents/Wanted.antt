-- ===== src/Agents/Wanted.antt =====
-- What the filter of a list in services/impl/agent_service_impl.go asks of an agent.
use tas_agent_builder.Base.{
  ◌≡◌, refl, ◌⊎◌, ◌↔◌, inl, inr, Bool, Bool-cases, true, false, Str, codes, str_eq, str_eq_iff,
  List, [], ◌∷◌, ◌++◌, Option, none, some, All,
}
use tas_agent_builder.Models.Agent.{Agent, AgentListFilter}
use tas_agent_builder.Agents.Requests.{Outside}
use tas_agent_builder.Agents.Access.{and_left, and_right, and_true}
use tas_agent_builder.Agents.Listing.{
  matches, bool_eq, matches_search, matches_tags, matches_filter,
}

-- A field that the filter names has the value that it names.
abbrev pub Has {ℓ} : {A B : Type ℓ} → Option B → (B → A) → A → Type ℓ
Has none f a = Unit
Has (some b) f a = a ≡ f b

has_text :
    {B : Type 0} (o : Option B) (f : B → Str) (s : Str)
    → (matches o (λ b. str_eq s (f b)) ≡ true) ↔ Has o f s
has_text none f s = (λ h. tt, λ h. refl)
has_text (some b) f s = str_eq_iff s (f b)

has_bool : (o : Option Bool) (b : Bool) → (matches o (bool_eq b) ≡ true) ↔ Has o (λ x. x) b
has_bool none b = (λ h. tt, λ h. refl)
has_bool (some true) true = (λ h. refl, λ h. refl)
has_bool (some true) false = (λ h. cc, λ h. cc)
has_bool (some false) true = (λ h. cc, λ h. cc)
has_bool (some false) false = (λ h. refl, λ h. refl)

module _ (out : Outside) where
  -- What the filter asks: the fields that it names, the search text in the name or the description,
  -- and every tag, quoted in brackets, in the JSON of the tags.
  pub record IsWanted (wanted : AgentListFilter) (a : Agent) : Type 0 where
    pub owner : Has wanted.owner_id (λ id. out.uuid.to_string id) a.owner_id
    pub space : Has wanted.space_id (λ id. out.uuid.to_string id) a.space_id
    pub tenant : Has wanted.tenant_id (λ id. out.uuid.to_string id) a.tenant_id
    pub status : Has wanted.status (λ s. s) a.status
    pub space_type : Has wanted.space_type (λ s. s) a.space_type
    pub open_to_all : Has wanted.is_public (λ b. b) a.is_public
    pub template : Has wanted.is_template (λ b. b) a.is_template
    pub internal : Has wanted.is_internal (λ b. b) a.is_internal
    pub search :
        (wanted.search ≡ [])
        ⊎ (out.ilike a.name (codes "%" ++ (wanted.search ++ codes "%")) ≡ true)
        ⊎ (out.ilike a.description (codes "%" ++ (wanted.search ++ codes "%")) ≡ true)
    pub tags :
        All
          (λ tag. out.json_contains a.tags (codes "[\"" ++ (tag ++ codes "\"]")) ≡ true)
          wanted.tags

  Searched : Str → Agent → Type 0
  Searched s a =
      (s ≡ [])
      ⊎ (out.ilike a.name (codes "%" ++ (s ++ codes "%")) ≡ true)
      ⊎ (out.ilike a.description (codes "%" ++ (s ++ codes "%")) ≡ true)

  searched_lem : (s : Str) (a : Agent) → (matches_search out s a ≡ true) ↔ Searched s a
  unfolding matches_search Searched
  searched_lem [] a = (λ h. inl refl, λ h. refl)
  searched_lem (c ∷ s) a =
      let name = out.ilike a.name (codes "%" ++ ((c ∷ s) ++ codes "%")) in
      let description = out.ilike a.description (codes "%" ++ ((c ∷ s) ++ codes "%")) in
      (
        λ h. elim (Bool-cases name) [
          | inl in_name ↦ inr (inl in_name)
          | inr not_name ↦ inr (inr (rw (not_name) at h))
        ],
        λ h. elim h [
          | inl e ↦ cc (e)
          | inr (inl in_name) ↦ rw (in_name) refl
          | inr (inr in_description) ↦ elim (Bool-cases name) [
            | inl in_name ↦ rw (in_name) refl
            | inr not_name ↦ rw (not_name) in_description
          ]
        ],
      )

  tagged_lem :
      (tags : List Str) (a : Agent)
      → (matches_tags out tags a ≡ true)
        ↔ All (λ tag. out.json_contains a.tags (codes "[\"" ++ (tag ++ codes "\"]")) ≡ true) tags
  unfolding matches_tags
  tagged_lem [] a = (λ h. tt, λ h. refl)
  tagged_lem (tag ∷ tags) a =
      let (there, back) = tagged_lem tags a in
      (λ h. (and_left _ _ h, there (and_right _ _ h)), λ h. and_true h.0 (back h.1))

  filter-IsWanted :
      (wanted : AgentListFilter) (a : Agent)
      → matches_filter out wanted a ≡ true
      → IsWanted wanted a
  unfolding matches_filter Searched
  filter-IsWanted wanted a h =
      let h1 = and_right _ _ h in
      let h2 = and_right _ _ h1 in
      let h3 = and_right _ _ h2 in
      let h4 = and_right _ _ h3 in
      let h5 = and_right _ _ h4 in
      let h6 = and_right _ _ h5 in
      let h7 = and_right _ _ h6 in
      let h8 = and_right _ _ h7 in
      record {
        owner =
            (has_text wanted.owner_id (λ id. out.uuid.to_string id) a.owner_id).0 (and_left _ _ h);
        space =
            (has_text wanted.space_id (λ id. out.uuid.to_string id) a.space_id).0 (and_left _ _ h1);
        tenant =
            (has_text wanted.tenant_id (λ id. out.uuid.to_string id) a.tenant_id).0
              (and_left _ _ h2);
        status = (has_text wanted.status (λ s. s) a.status).0 (and_left _ _ h3);
        space_type = (has_text wanted.space_type (λ s. s) a.space_type).0 (and_left _ _ h4);
        open_to_all = (has_bool wanted.is_public a.is_public).0 (and_left _ _ h5);
        template = (has_bool wanted.is_template a.is_template).0 (and_left _ _ h6);
        internal = (has_bool wanted.is_internal a.is_internal).0 (and_left _ _ h7);
        search = (searched_lem wanted.search a).0 (and_left _ _ h8);
        tags = (tagged_lem wanted.tags a).0 (and_right _ _ h8);
      }

  IsWanted-filter :
      (wanted : AgentListFilter) (a : Agent)
      → IsWanted wanted a
      → matches_filter out wanted a ≡ true
  unfolding matches_filter Searched
  IsWanted-filter wanted a w =
      and_true ((has_text wanted.owner_id (λ id. out.uuid.to_string id) a.owner_id).1 w.owner) (
        and_true ((has_text wanted.space_id (λ id. out.uuid.to_string id) a.space_id).1 w.space) (
          and_true
            ((has_text wanted.tenant_id (λ id. out.uuid.to_string id) a.tenant_id).1 w.tenant)
            (and_true ((has_text wanted.status (λ s. s) a.status).1 w.status) (
              and_true ((has_text wanted.space_type (λ s. s) a.space_type).1 w.space_type) (
                and_true ((has_bool wanted.is_public a.is_public).1 w.open_to_all) (
                  and_true ((has_bool wanted.is_template a.is_template).1 w.template) (
                    and_true ((has_bool wanted.is_internal a.is_internal).1 w.internal) (
                      and_true ((searched_lem wanted.search a).1 w.search)
                        ((tagged_lem wanted.tags a).1 w.tags)))))))))

  pub matches_filter-IsWanted :
      (wanted : AgentListFilter) (a : Agent)
      → (matches_filter out wanted a ≡ true) ↔ IsWanted wanted a
  matches_filter-IsWanted wanted a = (filter-IsWanted wanted a, IsWanted-filter wanted a)
