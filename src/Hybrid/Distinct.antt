-- ===== src/Hybrid/Distinct.antt =====
-- The removal of duplicates of services/impl/hybrid_context.go.
use tas_agent_builder.Base.{
  Among, suc, ◌+◌, ◌≡◌, refl, ap, ◌∙◌, Bool-cases, true, false, inl, inr, Str, str_eq_refl, List,
  [], ◌∷◌, ◌++◌, Option-cases, map, length, length-append, ℤ, pos, ◌+ℤ◌, int_laws, All,
}
use tas_agent_builder.Memory.Tokens.{contains}
use tas_agent_builder.Models.Hybrid.{ScoredChunk}
use tas_agent_builder.Hybrid.Score.{Parts, put, lookup}
use tas_agent_builder.Hybrid.Select.{hash_content, better, deduplicate_from, deduplicate_by_content}
use tas_agent_builder.Hybrid.Keyed.{
  Distinct, keys, values, lookup-some, lookup-none, keys-append, contains-append, append-Distinct,
  put-All, lookup-All,
}

module _ (parts : Parts) where
  abbrev hash_of : ScoredChunk → Str
  hash_of chunk = hash_content parts chunk.chunk.content

  abbrev hashes : List ScoredChunk → List Str
  hashes chunks = map hash_of chunks

  -- An entry of the list of pairs: its key is the hash of its chunk, which satisfies `P`.
  abbrev Entry : (ScoredChunk → Type 0) → Str × ScoredChunk → Type 0
  Entry P entry = (hash_of entry.1 ≡ entry.0) × P entry.1

  hashes-values :
      (P : ScoredChunk → Type 0) (kept : List (Str × ScoredChunk))
      → All (Entry P) kept
      → hashes (values kept) ≡ keys kept
  hashes-values P [] all = refl
  hashes-values P (e ∷ kept) ((h, p), all) =
      ap (λ k. k ∷ hashes (values kept)) h ∙ ap (λ ks. e.0 ∷ ks) (hashes-values P kept all)

  values-All :
      (P : ScoredChunk → Type 0) (kept : List (Str × ScoredChunk))
      → All (Entry P) kept
      → All P (values kept)
  values-All P [] all = tt
  values-All P (e ∷ kept) ((h, p), all) = (p, values-All P kept all)

  better-Entry :
      (P : ScoredChunk → Type 0) (k : Str) (a b : ScoredChunk)
      → Entry P (k, a)
      → Entry P (k, b)
      → Entry P (k, better parts a b)
  unfolding better
  better-Entry P k a b p q = elim (Bool-cases (parts.floats.lt a.combined_score b.combined_score)) [
    | inl worse ↦ rw (worse) q
    | inr fine ↦ rw (fine) p
  ]

  length-keys : (kept : List (Str × ScoredChunk)) → length (values kept) ≡ length (keys kept)
  length-keys [] = refl
  length-keys (e ∷ kept) = ap suc (length-keys kept)

  -- What the loop does from `kept` on.
  record Loop (P : ScoredChunk → Type 0) (kept : List (Str × ScoredChunk)) (removed : ℤ)
      (chunks result : List ScoredChunk) (total : ℤ) : Type 0 where
    count :
        pos (length result) +ℤ total ≡ pos (length (keys kept)) +ℤ removed +ℤ pos (length chunks)
    distinct : Distinct (hashes result)
    among : All P result
    keeps : (k : Str) → contains k (keys kept) ≡ true → contains k (hashes result) ≡ true
    complete : All (λ chunk. contains (hash_of chunk) (hashes result) ≡ true) chunks

  -- A chunk whose hash is new is put at the end.
  kept_new :
      (P : ScoredChunk → Type 0) (kept : List (Str × ScoredChunk)) (removed : ℤ)
      (chunk : ScoredChunk) (chunks result : List ScoredChunk) (total : ℤ)
      → keys (put (hash_of chunk) chunk kept) ≡ keys kept ++ (hash_of chunk ∷ [])
      → contains (hash_of chunk) (keys kept) ≡ false
      → Loop P (put (hash_of chunk) chunk kept) removed chunks result total
      → Loop P kept removed (chunk ∷ chunks) result total
  kept_new P kept removed chunk chunks result total ks fresh rest =
      let h = hash_of chunk in
      let size : length (keys (put h chunk kept)) ≡ length (keys kept) + 1 =
        ap length ks ∙ length-append (keys kept) (h ∷ []) in
      let has = contains-append h h (keys kept) in
      record {
        count = rest.count ∙ rw (size) (omega int_laws);
        distinct = rest.distinct;
        among = rest.among;
        keeps =
            λ k there. rest.keeps k (rw (ks) (contains-append k h (keys kept) ∙ rw (there) refl));
        complete = (rest.keeps h (rw (ks, has, fresh, str_eq_refl h) refl), rest.complete);
      }

  -- Of two chunks with one hash, the better takes the place.
  kept_better :
      (P : ScoredChunk → Type 0) (kept : List (Str × ScoredChunk)) (removed : ℤ)
      (chunk new : ScoredChunk) (chunks result : List ScoredChunk) (total : ℤ)
      → keys (put (hash_of chunk) new kept) ≡ keys kept
      → contains (hash_of chunk) (keys kept) ≡ true
      → Loop P (put (hash_of chunk) new kept) (removed +ℤ pos 1) chunks result total
      → Loop P kept removed (chunk ∷ chunks) result total
  kept_better P kept removed chunk new chunks result total ks there rest = record {
    count = rest.count ∙ rw (ks) (omega int_laws);
    distinct = rest.distinct;
    among = rest.among;
    keeps = λ k old_key. rest.keeps k (rw (ks) old_key);
    complete = (rest.keeps (hash_of chunk) (rw (ks) there), rest.complete);
  }

  deduplicate_from_lem :
      (P : ScoredChunk → Type 0) (kept : List (Str × ScoredChunk)) (removed : ℤ)
      (chunks : List ScoredChunk)
      → All (Entry P) kept
      → Distinct (keys kept)
      → All P chunks
      → let (result, total) = deduplicate_from parts kept removed chunks in
        Loop P kept removed chunks result total
  unfolding deduplicate_from
  deduplicate_from_lem P kept removed [] entries d all =
      let e = hashes-values P kept entries in
      record {
        count = ap (λ n. pos n +ℤ removed) (length-keys kept) ∙ omega int_laws;
        distinct = rw (e) d;
        among = values-All P kept entries;
        keeps = λ k there. rw (e) there;
        complete = tt;
      }
  deduplicate_from_lem P kept removed (chunk ∷ chunks) entries d (p, all) =
      let h = hash_of chunk in
      elim (Option-cases (lookup h kept)) [
        | inl absent ↦
            let (put_eq, fresh) = lookup-none h chunk kept absent in
            let ks : keys (put h chunk kept) ≡ keys kept ++ (h ∷ []) =
              ap keys put_eq ∙ keys-append kept ((h, chunk) ∷ []) in
            rw (absent, deduplicate_from)
              (kept_new P kept removed chunk chunks _ _ ks fresh (
                deduplicate_from_lem P (put h chunk kept) removed chunks
                  (put-All (Entry P) h chunk kept entries (refl, p))
                  (rw (ks) (append-Distinct h (keys kept) fresh d)) all))
        | inr (existing, found) ↦
            let new = better parts existing chunk in
            let (ks, there) = lookup-some h new existing kept found in
            let old = lookup-All (Entry P) h existing kept entries found in
            rw (found, deduplicate_from)
              (kept_better P kept removed chunk new chunks _ _ ks there (
                deduplicate_from_lem P (put h new kept) (removed +ℤ pos 1) chunks
                  (put-All (Entry P) h new kept entries
                    (better-Entry P h existing chunk old (refl, p)))
                  (rw (ks) d) all))
      ]

  -- What is kept of the chunks when `removed` of them are not.
  pub record IsDeduplicated (chunks kept : List ScoredChunk) (removed : ℤ) : Type 0 where
    pub count : pos (length kept) +ℤ removed ≡ pos (length chunks)
    pub distinct : Distinct (hashes kept)
    pub among : All (λ chunk. Among chunk chunks) kept
    pub complete : All (λ chunk. contains (hash_of chunk) (hashes kept) ≡ true) chunks

  Among-self :
      (P : ScoredChunk → Type 0) (chunks : List ScoredChunk)
      → ((a : ScoredChunk) → Among a chunks → P a)
      → All P chunks
  Among-self P [] h = tt
  Among-self P (chunk ∷ chunks) h =
      (h chunk (inl refl), Among-self P chunks (λ a there. h a (inr there)))

  -- `deduplicateByContent` keeps chunks of its input with pairwise different hashes, one for every
  -- hash of the input, and counts the others as removed.
  pub deduplicate_by_content-IsDeduplicated :
      (chunks : List ScoredChunk)
      → let (kept, removed) = deduplicate_by_content parts chunks in
        IsDeduplicated chunks kept removed
  unfolding deduplicate_by_content
  deduplicate_by_content-IsDeduplicated chunks =
      let loop =
        deduplicate_from_lem (λ chunk. Among chunk chunks) [] (pos 0) chunks tt tt
          (Among-self (λ chunk. Among chunk chunks) chunks (λ a there. there)) in
      record {
        count = loop.count ∙ omega int_laws;
        distinct = loop.distinct;
        among = loop.among;
        complete = loop.complete;
      }
