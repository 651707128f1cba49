-- ===== src/Context.antt =====
-- src/research/agent_loop/context.rs: the history of a run, its truncation, the assembled messages
-- and the parts of a page. Text is a list of characters, so an index counts characters where the
-- source counts bytes of the same cut.
pub mod Parts
pub mod Truncation
pub mod Pairing
use web_agent_research.Prelude.{
  [], ℕ, zero, suc, ◌+◌, ◌-◌, ◌/◌, max, ◌&&◌, Option, none, some, List, ◌∷◌, ◌++◌, map, Text, codes,
  show, length, take, drop, is_empty, ltb, leb, ◌==◌, if◌then◌else◌,
}
use web_agent_research.Budget.{LoopBudget}
use web_agent_research.Llm.{
  RequestedToolCall, ReplayBlocks, ChatMessage, system, user, assistant, assistant_tool_calls, tool,
}

pub record ToolMessage : Type 0 where
  pub id : Text
  pub content : Text

pub data HistoryEntry : Type 0 where
  text_turn : Text → Text → HistoryEntry
  tool_turn : Text → List RequestedToolCall → List ToolMessage → ReplayBlocks → HistoryEntry

abbrev sum : List ℕ → ℕ
sum [] = 0
sum (n ∷ ns) = n + sum ns

abbrev call_chars : RequestedToolCall → ℕ
call_chars c = length c.id + length c.name + length c.arguments

abbrev result_chars : ToolMessage → ℕ
result_chars r = length r.id + length r.content

unfoldable pub chars : HistoryEntry → ℕ
chars (text_turn assistant observation) = length assistant + length observation
chars (tool_turn text calls results replay) =
    length text + replay.chars + sum (map call_chars calls) + sum (map result_chars results)

-- `surviving.iter().map(HistoryEntry::chars).sum()`
unfoldable pub total_chars : List HistoryEntry → ℕ
total_chars [] = 0
total_chars (e ∷ es) = chars e + total_chars es

unfoldable pub cap_evidence : Text → ℕ → Text
cap_evidence text max_chars =
    if leb (length text) max_chars
    then text
    else take max_chars text
      ++ codes "\n[truncated "
      ++ show (length text - max_chars)
      ++ codes " chars]"

-- `rfind('\n')`, from the start of the text.
rfind_newline : Text → Option ℕ
rfind_newline [] = none
rfind_newline (c ∷ s) = elim (rfind_newline s) [
  | some i ↦ some (suc i)
  | none ↦ if c == 10 then some 0 else none
]

-- Where the window of a part is cut: behind the last newline of its tail, or at its end.
cut_at : ℕ → ℕ → Text → ℕ
cut_at part_chars tail_chars rest = elim (rfind_newline (drop tail_chars (take part_chars rest))) [
  | none ↦ part_chars
  | some newline ↦ tail_chars + newline + 1
]

-- The loop of `page_parts`; a round takes at least one character, so the characters of the page
-- are rounds enough (`Parts`).
parts_loop : ℕ → ℕ → ℕ → Text → List Text
parts_loop zero part_chars tail_chars rest = []
parts_loop (suc fuel) part_chars tail_chars rest =
    let cut = cut_at part_chars tail_chars rest in
    let more = take cut rest ∷ parts_loop fuel part_chars tail_chars (drop cut rest) in
    if leb (length rest) part_chars then rest ∷ [] else more

unfoldable pub page_parts : Text → ℕ → List Text
unfolding parts_loop cut_at rfind_newline
page_parts markdown part_chars =
    let n = max part_chars 1 in parts_loop (suc (length markdown)) n (n - n / 10) markdown

-- The `while` of `truncate_history`: the surviving entries, and how many were dropped.
truncate : ℕ → ℕ → List HistoryEntry → List HistoryEntry × ℕ
truncate fixed limit [] = ([], 0)
truncate fixed limit (e ∷ es) =
    let (rest, dropped) = truncate fixed limit es in
    if ltb 1 (length (e ∷ es)) && ltb limit (fixed + total_chars (e ∷ es))
    then (rest, suc dropped)
    else (e ∷ es, 0)

unfoldable pub truncate_history : ℕ → ℕ → List HistoryEntry → LoopBudget → List HistoryEntry × ℕ
unfolding truncate
truncate_history system_chars goal_chars history budget =
    truncate (system_chars + goal_chars) budget.max_context_chars history

abbrev tool_messages : List ToolMessage → List ChatMessage
tool_messages = map (λ r. tool r.id r.content)

abbrev entry_messages : HistoryEntry → List ChatMessage
entry_messages (text_turn assistant_text observation) =
    if is_empty assistant_text
    then user observation ∷ []
    else assistant assistant_text ∷ user observation ∷ []
entry_messages (tool_turn text calls results replay) =
    assistant_tool_calls text calls replay ∷ tool_messages results

abbrev pub history_messages : List HistoryEntry → List ChatMessage
history_messages [] = []
history_messages (e ∷ es) = entry_messages e ++ history_messages es

abbrev pub truncation_note : ℕ → List ChatMessage
truncation_note zero = []
truncation_note (suc n) =
    user (codes "[history truncated: " ++ show (suc n) ++ codes " oldest turn(s) dropped]") ∷ []

-- The goal message and the system prompt come as texts.
unfoldable pub assemble : Text → Text → List HistoryEntry → LoopBudget → List ChatMessage × ℕ
assemble system_prompt goal history budget =
    let (surviving, dropped) =
      truncate_history (length system_prompt) (length goal) history budget in
    (
      system system_prompt ∷ user goal ∷ truncation_note dropped ++ history_messages surviving,
      dropped,
    )
