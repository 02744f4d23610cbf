-- ===== src/Memory/Tokens.antt =====
-- The helpers at the end of services/memory/working_memory.go that the memory services share:
-- the token estimate, and the word overlap of two queries. Text is taken to be valid UTF-8, so
-- that splitting at the ASCII separators by bytes is splitting by runes.

use tas_agent_builder.Base.{
  ℕ, suc, ◌/◌, ◌==◌, if◌then◌else◌, ◌||◌, Bool, true, false, Str, str_eq, List, [], ◌∷◌, ◌++◌,
  length, ℤ, pos, ◌+ℤ◌, ◌-ℤ◌, eqb_ℤ,
}
use tas_agent_builder.Floats.{Float, FloatOps}

unfoldable pub estimate_token_count : Str → ℤ
estimate_token_count text = pos (length text / 4)

unfoldable pub is_separator : ℕ → Bool
is_separator r = r == b' ' || r == 9 || r == 10 || r == b'.' || r == b','

unfoldable pub is_empty : Str → Bool
is_empty [] = true
is_empty (c ∷ s) = false

-- `if current != "" { words = append(words, current) }`
unfoldable pub flush : Str → List Str → List Str
unfolding is_empty
flush current words = if is_empty current then words else words ++ (current ∷ [])

unfoldable pub split_from : List Str → Str → Str → List Str
unfolding flush is_separator
split_from words current [] = flush current words
split_from words current (r ∷ s) =
    split_from (if is_separator r then flush current words else words)
      (if is_separator r then [] else current ++ (r ∷ [])) s

unfoldable pub split_words : Str → List Str
unfolding split_from
split_words s = split_from [] [] s

-- A `map[string]bool` that is filled word by word; only membership and size are read.
unfoldable pub contains : Str → List Str → Bool
contains w [] = false
contains w (v ∷ words) = str_eq v w || contains w words

unfoldable pub word_set : List Str → List Str
unfolding contains
word_set [] = []
word_set (w ∷ words) = let rest = word_set words in if contains w rest then rest else w ∷ rest

unfoldable pub overlap : List Str → List Str → ℕ
unfolding contains
overlap [] other = 0
overlap (w ∷ words) other =
    let rest = overlap words other in if contains w other then suc rest else rest

unfoldable pub union_size : Str → Str → ℤ
unfolding overlap word_set split_words
union_size query1 query2 =
    let words1 = word_set (split_words query1) in
    let words2 = word_set (split_words query2) in
    pos (length words1) +ℤ pos (length words2) -ℤ pos (overlap words1 words2)

unfoldable pub calculate_simple_similarity : FloatOps → Str → Str → Float
unfolding is_empty union_size
calculate_simple_similarity f query1 query2 =
    if is_empty query1 || is_empty query2
    then f.ratio 0 1
    else if eqb_ℤ (union_size query1 query2) (pos 0)
    then f.ratio 0 1
    else f.div
        (f.of_int (pos (overlap (word_set (split_words query1)) (word_set (split_words query2)))))
        (f.of_int (union_size query1 query2))
