-- ===== src/Memory/Formatted/Budget.antt =====
-- The budgets of `GetFormattedMemory` of services/memory/memory_service.go.
use tas_agent_builder.Base.{
  ℕ, Str, ◌⊎◌, true, +ℤ-zero, zero-+ℤ, ◌≡◌, refl, ap, ◌∙◌, inl, inr, ◌≢◌, false, not, ◌&&◌,
  Bool-cases, is_nil, [], some, ℤ, pos, ltb_ℤ, leb_ℤ, ◌≤ℤ◌, ◌<ℤ◌, leb_ℤ_false, err, ltb_ℤ_of_le,
  ltb_ℤ_false, leb_ℤ_true, arith, ◌+ℤ◌, ◌*ℤ◌, quot_ℤ, Result, Result-cases, ok, panic, +ℤ_parts,
}
use tas_agent_builder.External.{Redis, Codec, UuidText, Printer}
use tas_agent_builder.Floats.{FloatOps}
use tas_agent_builder.Models.Memory.{
  ShortTermMemory, WorkingMemory, MemoryConfig, GetMemoryRequest, MemoryContext,
}
use tas_agent_builder.Memory.LongTerm
use tas_agent_builder.Memory.LongTerm.{DeepLake, search_memory}
use tas_agent_builder.Memory.ShortTerm
use tas_agent_builder.Memory.ShortTerm.{get_conversation, trim_to_token_limit}
use tas_agent_builder.Memory.ShortTerm.Suffix.{token_sum, IsCounted}
use tas_agent_builder.Memory.ShortTerm.Reads.{trim_to_token_limit-TokenTrimmed}
use tas_agent_builder.Memory.Working
use tas_agent_builder.Memory.Working.{get_working_memory}
use tas_agent_builder.Memory.Formatted.{
  short_term_budget, working_budget, long_term_budget, context_of_parts, no_part, Part,
  short_term_part, working_part, long_term_part, get_formatted_memory, reread_part, trimmed_part,
  conversation_part,
}
use tas_agent_builder.Memory.Formatted.Entries.{search_memory-entries_part}

-- The three shares of a budget that is not negative are not negative, and sum to at most it.
pub budgets_lem :
    (n : ℕ)
    → (pos 0 ≤ℤ short_term_budget (pos n))
      × (pos 0 ≤ℤ working_budget (pos n))
      × (pos 0 ≤ℤ long_term_budget (pos n))
      × (short_term_budget (pos n) +ℤ working_budget (pos n) +ℤ long_term_budget (pos n) ≤ℤ pos n)
unfolding short_term_budget working_budget long_term_budget quot_ℤ ◌*ℤ◌ ◌+ℤ◌
budgets_lem n = ground arith

no_tokens : (budget : ℤ) → pos 0 ≤ℤ budget → token_sum [] ≤ℤ budget
unfolding token_sum
no_tokens budget h = h

context_within :
    (n : ℕ) (a b c : Part)
    → a.1 ≤ℤ short_term_budget (pos n)
    → b.1 ≤ℤ working_budget (pos n)
    → c.1 ≤ℤ long_term_budget (pos n)
    → pos 0 +ℤ a.1 +ℤ b.1 +ℤ c.1 ≤ℤ pos n
context_within n a b c ha hb hc =
    let (_, _, _, h) = budgets_lem n in
    omega (
      arith,
      +ℤ_parts (pos 0) a.1,
      +ℤ_parts (pos 0 +ℤ a.1) b.1,
      +ℤ_parts (pos 0 +ℤ a.1 +ℤ b.1) c.1,
      +ℤ_parts (short_term_budget (pos n)) (working_budget (pos n)),
      +ℤ_parts (short_term_budget (pos n) +ℤ working_budget (pos n)) (long_term_budget (pos n)),
    )

module _ (redis : Redis) (talk : Codec ShortTermMemory) (desk : Codec WorkingMemory)
    (clock : Codec ℤ) (lake : DeepLake) (uuid : UuidText) (f : FloatOps) (printer : Printer)
    (config : MemoryConfig) where
  open redis use {Store}

  -- The conversation that `store` holds stands in the text, within its share of the budget; there is
  -- none without a session.
  abbrev pub Talk : Store → ℤ → GetMemoryRequest → ℤ → Str → ℤ → Type 0
  Talk store now req budget text tokens =
      ((is_nil req.session_id ≡ true) × (text ≡ []) × (tokens ≡ pos 0))
      ⊎ ((m : ShortTermMemory) × (get_conversation redis talk uuid config store now req.session_id
              req.agent_id
            ≡ ok m)
          × (text ≡ ShortTerm.format_for_context (some m))
          × (tokens ≡ token_sum m.entries)
          × (tokens ≤ℤ budget))

  -- Nothing of a working memory fits: there is no session, it is not read, or it is over its share.
  abbrev pub NoDesk : Store → ℤ → GetMemoryRequest → ℤ → Type 0
  NoDesk store now req budget =
      (is_nil req.session_id ≡ true)
      ⊎ ((e : Str) × (get_working_memory redis desk uuid config store now req.session_id
              req.agent_id
            ≡ err e))
      ⊎ ((m : WorkingMemory) × (get_working_memory redis desk uuid config store now req.session_id
              req.agent_id
            ≡ ok m)
          × (budget <ℤ m.total_tokens))

  -- The working memory that `store` holds stands in the text, within its share; nothing does where
  -- nothing of it fits.
  abbrev pub Desk : Store → ℤ → GetMemoryRequest → ℤ → Str → ℤ → Type 0
  Desk store now req budget text tokens =
      (NoDesk store now req budget × (text ≡ []) × (tokens ≡ pos 0))
      ⊎ ((m : WorkingMemory) × (get_working_memory redis desk uuid config store now req.session_id
              req.agent_id
            ≡ ok m)
          × (text ≡ Working.format_for_context (some m))
          × (tokens ≡ m.total_tokens)
          × (tokens ≤ℤ budget))

  -- What the short-term part leaves and says.
  abbrev pub TalkPart : ℤ → GetMemoryRequest → ℤ → Store × Result Part → Type 0
  TalkPart now req budget (store, r) = (p : Part) × (r ≡ ok p) × Talk store now req budget p.0 p.1

  Talk-bound :
      (store : Store) (now : ℤ) (req : GetMemoryRequest) (budget : ℤ) (text : Str) (tokens : ℤ)
      → pos 0 ≤ℤ budget
      → Talk store now req budget text tokens
      → tokens ≤ℤ budget
  Talk-bound store now req budget text tokens h (inl (_, _, e)) = rw e h
  Talk-bound store now req budget text tokens h (inr (m, _, _, _, fits)) = fits

  Desk-bound :
      (store : Store) (now : ℤ) (req : GetMemoryRequest) (budget : ℤ) (text : Str) (tokens : ℤ)
      → pos 0 ≤ℤ budget
      → Desk store now req budget text tokens
      → tokens ≤ℤ budget
  Desk-bound store now req budget text tokens h (inl (_, _, e)) = rw e h
  Desk-bound store now req budget text tokens h (inr (m, _, _, _, fits)) = fits

  short_term_part-TalkPart :
      (store : Store) (now : ℤ) (req : GetMemoryRequest) (budget : ℤ) (m : ShortTermMemory)
      → pos 0 ≤ℤ budget
      → get_conversation redis talk uuid config store now req.session_id req.agent_id ≡ ok m
      → IsCounted m
      → (trim_to_token_limit redis talk uuid config store now req.session_id req.agent_id budget).1
        ≡ ok tt
      → TalkPart now req budget
          (short_term_part redis talk desk clock lake uuid f printer config store now req budget)
  unfolding short_term_part trimmed_part reread_part conversation_part no_part
  short_term_part-TalkPart store now req budget m h got counted done =
      elim (Bool-cases (is_nil req.session_id)) [
        | inl empty ↦ rw empty (no_part, refl, inl (refl, refl, refl))
        | inr some_session ↦ elim (Bool-cases (ltb_ℤ budget m.total_tokens)) [
          | inl over ↦
              let (m', r, t) =
                trim_to_token_limit-TokenTrimmed redis talk uuid config store now now req.session_id
                  req.agent_id budget m got counted done in
              let fits : token_sum m'.entries ≤ℤ budget = elim t.fits [
                | inl le ↦ rw⁻¹ t.counted le
                | inr e ↦ rw e (no_tokens budget h)
              ] in
              rw some_session (
                rw got (
                  rw over (
                    rw (done, trimmed_part)
                      (
                        conversation_part m',
                        rw r refl,
                        inr (m', r, refl, t.counted, rw (t.counted) fits),
                      ))))
          | inr under ↦ rw some_session (
              rw got (
                rw under (
                  conversation_part m,
                  refl,
                  inr (m, got, refl, counted, ltb_ℤ_false budget m.total_tokens under),
                )))
        ]
      ]

  working_part-Desk :
      (store : Store) (now : ℤ) (req : GetMemoryRequest) (budget : ℤ)
      → get_working_memory redis desk uuid config store now req.session_id req.agent_id ≢ panic
      → (p : Part) × (working_part redis talk desk clock lake uuid f printer config store now req
            budget
          ≡ ok p)
        × Desk store now req budget p.0 p.1
  unfolding working_part no_part
  working_part-Desk store now req budget np = elim (Bool-cases (is_nil req.session_id)) [
    | inl empty ↦ (no_part, rw empty refl, inl (inl empty, refl, refl))
    | inr some_session ↦
        elim (Result-cases
          (get_working_memory redis desk uuid config store now req.session_id req.agent_id)) [
            | inl (m, got) ↦ elim (Bool-cases (leb_ℤ m.total_tokens budget)) [
              | inl fits ↦ (
                (Working.format_for_context (some m), m.total_tokens),
                rw some_session (rw got (rw fits refl)),
                inr (m, got, refl, refl, leb_ℤ_true m.total_tokens budget fits),
              )
              | inr over ↦ (
                no_part,
                rw some_session (rw got (rw over refl)),
                inl (inr (inr (m, got, leb_ℤ_false m.total_tokens budget over)), refl, refl),
              )
            ]
            | inr (inl (e, got)) ↦
                (no_part, rw some_session (rw got refl), inl (inr (inl (e, got)), refl, refl))
            | inr (inr got) ↦ absurd (np got)
          ]
  ]

  -- The long-term part counts no token.
  long_term_part-uncounted :
      (memories : lake.State) (req : GetMemoryRequest) (budget : ℤ)
      → pos 0 ≤ℤ budget
      → search_memory lake uuid f printer config memories req.agent_id req.query (pos 3) ≢ panic
      → (text : Str) × (long_term_part redis talk desk clock lake uuid f printer config memories req
            budget
          ≡ ok (text, pos 0))
  unfolding long_term_part no_part
  long_term_part-uncounted memories req budget h np =
      elim (Bool-cases (config.long_term_enabled && not (is_nil req.query))) [
        | inr off ↦ ([], rw off refl)
        | inl on ↦
            elim (Result-cases
              (search_memory lake uuid f printer config memories req.agent_id req.query (pos 3))) [
                | inl (es, got) ↦
                    let all =
                      search_memory-entries_part lake uuid f printer config memories req.agent_id
                        req.query (pos 3) budget es h got in
                    (LongTerm.format_for_context es, rw on (rw got (rw all refl)))
                | inr (inl (e, got)) ↦ ([], rw on (rw got refl))
                | inr (inr got) ↦ absurd (np got)
              ]
      ]

  -- A context whose counted parts are within their shares of the budget `n`.
  pub record IsWithin (store : Store) (now : ℤ) (req : GetMemoryRequest) (n : ℕ)
      (found : MemoryContext) : Type 0 where
    pub talked : ℤ
    pub worked : ℤ
    pub conversation :
        Talk store now req (short_term_budget (pos n)) found.formatted_short_term talked
    pub documents : Desk store now req (working_budget (pos n)) found.formatted_working worked
    pub counted : found.total_tokens ≡ talked +ℤ worked
    pub within : found.total_tokens ≤ℤ pos n
    pub not_truncated : found.truncated ≡ false

  -- With a budget that is not negative, a counted conversation that is read and, where it is over
  -- its share, trimmed without an error, and no panic in the reads of working memory and of
  -- long-term memory, `GetFormattedMemory` returns a context with the stored conversation, of at
  -- most half of the budget, and the stored working memory, where that is within 35 percent of it.
  -- The total that it reports is that of these two parts alone, so it is at most the budget and
  -- never reported as truncated, whatever the long-term text adds.
  pub get_formatted_memory-IsWithin :
      (store : Store) (memories : lake.State) (now : ℤ) (req : GetMemoryRequest) (n : ℕ)
      (m : ShortTermMemory)
      → get_conversation redis talk uuid config store now req.session_id req.agent_id ≡ ok m
      → IsCounted m
      → (trim_to_token_limit redis talk uuid config store now req.session_id req.agent_id
          (short_term_budget (pos n))).1
        ≡ ok tt
      → get_working_memory redis desk uuid config
          (short_term_part redis talk desk clock lake uuid f printer config store now req
            (short_term_budget (pos n))).0
          now
          req.session_id
          req.agent_id
        ≢ panic
      → search_memory lake uuid f printer config memories req.agent_id req.query (pos 3) ≢ panic
      → let after =
          get_formatted_memory redis talk desk clock lake uuid f printer config store memories now
            req
            (pos n) in
        (found : MemoryContext) × (after.1 ≡ ok found) × IsWithin after.0 now req n found
  unfolding get_formatted_memory context_of_parts
  get_formatted_memory-IsWithin store memories now req n m got counted done no_panic no_panic' =
      let (hs, hw, hl, _) = budgets_lem n in
      let (a, ra, ta) = short_term_part-TalkPart store now req _ m hs got counted done in
      let left =
        (short_term_part redis talk desk clock lake uuid f printer config store now req
          (short_term_budget (pos n))).0 in
      let (b, rb, tb) = working_part-Desk left now req (working_budget (pos n)) no_panic in
      let (text, rc) = long_term_part-uncounted memories req _ hl no_panic' in
      let ha = Talk-bound left now req (short_term_budget (pos n)) a.0 a.1 hs ta in
      let hb = Desk-bound left now req (working_budget (pos n)) b.0 b.1 hw tb in
      let within = context_within n a b (text, pos 0) ha hb hl in
      (
        context_of_parts (pos n) a b (text, pos 0),
        rw ra (rw rb (rw rc refl)),
        record {
          talked = a.1;
          worked = b.1;
          conversation = ta;
          documents = tb;
          counted = +ℤ-zero (pos 0 +ℤ a.1 +ℤ b.1) ∙ ap (λ t. t +ℤ b.1) (zero-+ℤ a.1);
          within = within;
          not_truncated = ltb_ℤ_of_le (pos n) _ within;
        },
      )
