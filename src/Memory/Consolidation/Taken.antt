-- ===== src/Memory/Consolidation/Taken.antt =====
-- Which entries of a conversation `ConsolidateSession` of services/memory/consolidation.go takes.
use tas_agent_builder.Base.{
  length-take, ◌≡◌, ◌⊎◌, ◌≤ℤ◌, negsuc, take, refl, sym, ap, inl, inr, Bool-cases, List, [], ◌++◌,
  length, drop, ◌&&◌, append-nil, pos_part, ℤ, pos, ltb_ℤ, arith, take-append-drop,
}
use tas_agent_builder.Models.Memory.{MemoryEntry}
use tas_agent_builder.Memory.Consolidation.{entries_to_process}

-- `done` is the first `max_entries` of the entries, or all of them: where there are no more, or no
-- limit is asked for.
pub record Taken (max_entries : ℤ) (entries done : List MemoryEntry) : Type 0 where
  pub left : List MemoryEntry
  pub first : entries ≡ done ++ left
  pub whole : max_entries ≤ℤ pos 0 → left ≡ []
  pub limited : pos 1 ≤ℤ max_entries → pos (length done) ≤ℤ max_entries
  pub most : (left ≡ []) ⊎ (pos (length done) ≡ max_entries)

take-Taken :
    (max_entries : ℤ) (es : List MemoryEntry)
    → pos 1 ≤ℤ max_entries
    → max_entries ≤ℤ pos (length es)
    → Taken max_entries es (take (pos_part max_entries) es)
take-Taken (negsuc n) es one h = absurd (omega (arith, one))
take-Taken (pos n) es one h =
    let size : length (take n es) ≡ n = length-take n es (omega (arith, h)) in
    record {
      left = drop n es;
      first = sym (take-append-drop n es);
      whole = λ none_asked. absurd (omega (arith, one, none_asked));
      limited = λ _. omega (arith, size);
      most = inr (ap pos size);
    }

pub entries_to_process-Taken :
    (max_entries : ℤ) (es : List MemoryEntry)
    → Taken max_entries es (entries_to_process max_entries es)
unfolding entries_to_process
entries_to_process-Taken max_entries es =
    elim (Bool-cases (ltb_ℤ (pos 0) max_entries && ltb_ℤ max_entries (pos (length es)))) [
      | inl cut ↦ rw cut (take-Taken max_entries es (ground (arith, cut)) (ground (arith, cut)))
      | inr whole ↦ rw whole (record {
        left = [];
        first = sym (append-nil es);
        whole = λ _. refl;
        limited = λ one. ground (arith, whole, one);
        most = inl refl;
      })
    ]
