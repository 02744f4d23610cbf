-- ===== src/Memory/Prompts.antt =====
-- The prompts of services/memory/consolidation.go, line by line.
use Prim.Native.String.{String}
use tas_agent_builder.Base.{Str, codes, List, [], ◌∷◌, ◌++◌, ℤ}
use tas_agent_builder.External.{Printer}

-- The lines joined by newlines.
join_lines : List String → Str
join_lines [] = []
join_lines (line ∷ []) = codes line
join_lines (line ∷ next ∷ rest) = codes line ++ (10 ∷ join_lines (next ∷ rest))

pub summary_system : Str
summary_system = join_lines (
    "You are a memory consolidation assistant. Your task is to create concise summaries of conversations that preserve the key information, decisions, and context."
    ∷ "" ∷ "Requirements:" ∷ "- Preserve important facts, decisions, and action items"
    ∷ "- Maintain the essence of the discussion" ∷ "- Be concise but comprehensive"
    ∷ "- Write in third person narrative"
    ∷ "- Focus on what the user was trying to accomplish and what was learned" ∷ [])

pub facts_system : Str
facts_system = join_lines (
    "You are a fact extraction assistant. Your task is to identify and extract distinct factual statements from conversations."
    ∷ "" ∷ "Requirements:" ∷ "- Extract concrete facts, preferences, and decisions"
    ∷ "- Each fact should be a standalone statement"
    ∷ "- Format output as JSON array of fact strings"
    ∷ "- Focus on information that would be useful to remember for future conversations"
    ∷ "- Exclude opinions, pleasantries, and meta-commentary" ∷ [])

pub summary_user : Printer → Str → ℤ → Str
summary_user printer conversation max_tokens =
    codes "Please summarize the following conversation, preserving the key information and context:"
    ++ (10
        ∷ 10
        ∷ (conversation
            ++ (10
                ∷ 10
                ∷ (codes "Summary (maximum "
                    ++ (printer.decimal max_tokens ++ codes " tokens):")))))

pub facts_user : Str → Str
facts_user conversation =
    codes "Extract the key facts from this conversation as a JSON array:"
    ++ (10
        ∷ 10
        ∷ (conversation ++ (10 ∷ 10 ∷ codes "Output format: [\"fact 1\", \"fact 2\", ...]")))
