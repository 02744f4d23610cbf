-- ===== src/Memory/ShortTerm/Trim.antt =====
-- What `trimMemory` of services/memory/short_term.go computes.
use tas_agent_builder.Base.{
  ℕ, zero, suc, ◌+◌, ◌-◌, ◌<◌, ◌≡◌, refl, ap, ◌∙◌, ◌⊎◌, inl, inr, Bool-cases, List, [], ◌∷◌,
  ltb_ℤ_of_le, length, drop, drop-drop, ℤ, pos, ltb_ℤ, ◌-ℤ◌, ◌≤ℤ◌, ◌<ℤ◌, ltb_ℤ_true, ltb_ℤ_false,
  arith, +ℤ-cancel_left, ok, dec_lt, length-drop,
}
use tas_agent_builder.Models.Memory.{MemoryEntry, ShortTermMemory, MemoryConfig}
use tas_agent_builder.Memory.ShortTerm.{trim_count, trim_tokens, trim_memory}
use tas_agent_builder.Memory.ShortTerm.Suffix.{token_sum, Fits, LongestFit, IsCounted}

-- One entry less leaves the sum of the rest.
total-rest :
    (x : MemoryEntry) (es : List MemoryEntry) (total : ℤ)
    → total ≡ token_sum (x ∷ es)
    → total -ℤ x.token_count ≡ token_sum es
unfolding token_sum
total-rest x es total e =
    ap (λ t. t -ℤ x.token_count) e ∙ +ℤ-cancel_left x.token_count (token_sum es)

-- A loop that drops while a test holds: the rounds, and the test on each list that was passed.
abbrev pub Passed : (List MemoryEntry → Type 0) → List MemoryEntry → ℕ → Type 0
Passed P es n = (k : ℕ) → k < n → P (drop k es)

abbrev pub TooMany : ℤ → List MemoryEntry → Type 0
TooMany limit es = limit <ℤ pos (length es)

abbrev pub TooLong : ℤ → List MemoryEntry → Type 0
TooLong limit es = limit <ℤ token_sum es

Passed-zero : (P : List MemoryEntry → Type 0) (es : List MemoryEntry) → Passed P es 0
Passed-zero P es k lt = absurd (omega arith)

Passed-suc :
    (P : List MemoryEntry → Type 0) (x : MemoryEntry) (es : List MemoryEntry) (n : ℕ)
    → P (x ∷ es)
    → Passed P es n
    → Passed P (x ∷ es) (suc n)
Passed-suc P x es n here later zero lt = here
Passed-suc P x es n here later (suc k) lt = later k (omega arith)

trim_count_lem :
    (limit : ℤ) (es : List MemoryEntry) (total : ℤ)
    → pos 0 ≤ℤ limit
    → total ≡ token_sum es
    → (n : ℕ) × (trim_count limit es total ≡ ok (drop n es, token_sum (drop n es)))
      × (pos (length (drop n es)) ≤ℤ limit)
      × Passed (TooMany limit) es n
unfolding trim_count
trim_count_lem limit [] total h e =
    (0, rw (ltb_ℤ_of_le limit (pos 0) h, e), h, Passed-zero (TooMany limit) [])
trim_count_lem limit (x ∷ es) total h e = elim (Bool-cases (ltb_ℤ limit (pos (length (x ∷ es))))) [
  | inl over ↦
      let (n, r, fit, passed) = trim_count_lem limit es _ h (total-rest x es total e) in
      (
        suc n,
        rw over r,
        fit,
        Passed-suc (TooMany limit) x es n (ltb_ℤ_true limit (pos (length (x ∷ es))) over) passed,
      )
  | inr under ↦ (
    0,
    rw (under, e),
    ltb_ℤ_false limit (pos (length (x ∷ es))) under,
    Passed-zero (TooMany limit) (x ∷ es),
  )
]

pub trim_tokens_lem :
    (limit : ℤ) (es : List MemoryEntry) (total : ℤ)
    → total ≡ token_sum es
    → (n : ℕ) × (trim_tokens limit es total ≡ (drop n es, token_sum (drop n es)))
      × ((token_sum (drop n es) ≤ℤ limit) ⊎ (drop n es ≡ []))
      × Passed (TooLong limit) es n
unfolding trim_tokens
trim_tokens_lem limit [] total e = (0, rw e, inr refl, Passed-zero (TooLong limit) [])
trim_tokens_lem limit (x ∷ es) total e = elim (Bool-cases (ltb_ℤ limit total)) [
  | inl over ↦
      let (n, r, fit, passed) = trim_tokens_lem limit es _ (total-rest x es total e) in
      (
        suc n,
        rw over r,
        fit,
        Passed-suc (TooLong limit) x es n (rw (← e) (ltb_ℤ_true limit total over)) passed,
      )
  | inr under ↦ (
    0,
    rw (under, e),
    inl (rw (← e) (ltb_ℤ_false limit total under)),
    Passed-zero (TooLong limit) (x ∷ es),
  )
]

-- The two loops together drop the fewest entries after which both limits hold.
fewest_of_Passed :
    (config : MemoryConfig) (es : List MemoryEntry) (n m : ℕ)
    → Passed (TooMany config.short_term_max_entries) es n
    → Passed (TooLong config.short_term_max_tokens) (drop n es) m
    → (k : ℕ) → k < n + m
    → ¬ Fits config (drop k es)
fewest_of_Passed config es n m first second k lt fit = elim (dec_lt k n) [
  | yes early ↦ omega (arith, first k early)
  | no late ↦
      let e : drop (k - n) (drop n es) ≡ drop k es =
        drop-drop n (k - n) es ∙ ap (λ i. drop i es) (omega arith) in
      let over : config.short_term_max_tokens <ℤ token_sum (drop k es) =
        rw e at (second (k - n) (omega arith)) in
      omega arith
]

length-drop-le :
    (limit : ℤ) (es : List MemoryEntry) (m : ℕ)
    → pos (length es) ≤ℤ limit
    → pos (length (drop m es)) ≤ℤ limit
length-drop-le limit es m h = omega (arith, length-drop m es)

-- On a buffer whose running total is right, with a limit on entries that is not negative,
-- `trimMemory` does not panic: it keeps the longest tail within both limits (nothing, if no tail
-- is), the total is again the sum over what it kept, and no other field changes.
pub trim_memory-LongestFit :
    (config : MemoryConfig) (memory : ShortTermMemory)
    → pos 0 ≤ℤ config.short_term_max_entries
    → IsCounted memory
    → (kept : List MemoryEntry) × (trim_memory config memory
        ≡ ok (record memory { entries = kept; total_tokens = token_sum kept }))
      × LongestFit config memory.entries kept
unfolding trim_memory
trim_memory-LongestFit config memory h counted =
    let es = memory.entries in
    let (n, r, fit, first) =
      trim_count_lem config.short_term_max_entries es memory.total_tokens h counted in
    let (m, r', fit', second) =
      trim_tokens_lem config.short_term_max_tokens (drop n es) (token_sum (drop n es)) refl in
    (
      drop m (drop n es),
      rw (r, r'),
      record {
        dropped = n + m;
        is_suffix = drop-drop n m es;
        fits = elim fit' [
          | inl t ↦ inl (length-drop-le config.short_term_max_entries (drop n es) m fit, t)
          | inr e ↦ inr e
        ];
        fewest = fewest_of_Passed config es n m first second;
      },
    )
