-- ===== src/Tests/Loops.antt =====
-- Runs of the agent loop, its dispatch, its containers and its transcript.
use web_agent_research.Prelude.{
  ℕ, zero, suc, ◌+◌, ◌≤◌, ◌≡◌, refl, Option, none, some, List, [], ◌∷◌, arith, Text, codes, length,
  take, concat,
}
use web_agent_research.Budget.{default, LoopBudget}
use web_agent_research.Llm.{
  ChatResult, replied, RequestedToolCall, no_replay, no_usage, LlmReply, ChatMessage,
}
use web_agent_research.Context.{
  HistoryEntry, text_turn, tool_turn, assemble, page_parts, truncate_history,
}
use web_agent_research.Context.Parts.{page_parts_lem, IsParts}
use web_agent_research.Context.Pairing.{IsPaired, assemble-IsPaired}
use web_agent_research.Context.Truncation.{IsTruncation, truncate_history-IsTruncation}
use web_agent_research.ToolResult.{ToolResult, search_note, escape_closers}
use web_agent_research.ToolResult.Closers.{HasEndTag, escape_closers-HasEndTag}
use web_agent_research.Dispatch.{Tools, resolve_call_ids, dispatch_turn}
use web_agent_research.Dispatch.Pairing.{
  dispatch_turn-result_ids, result_ids, call_ids, outcome, cap,
}
use web_agent_research.Dispatch.Executed.{logged, allowed_calls, dispatch_turn-allowed_calls}
use web_agent_research.Runner.{
  LoopInput, medium, Services, ToolChoice, start, Loop, again, run_loop, RunResult, round,
  preflight,
}
use web_agent_research.Runner.Ends.{run_loop_ends}

-- The world counts the calls of the gateway; the first reply asks for a search, the second answers.
abbrev call : RequestedToolCall
call = record { id = []; name = codes "search"; arguments = codes "{}" }

abbrev reply_with : Text → List RequestedToolCall → LlmReply
reply_with output calls = record {
  thinking = [];
  output = output;
  finish_reason = none;
  tool_calls = calls;
  usage = no_usage;
  replay = no_replay;
}

abbrev execute : ℕ → RequestedToolCall → ℕ → ℕ → Option ToolResult × ℕ
execute w c part_chars timeout = (some (search_note (codes "try again")), w)

abbrev tools : Tools ℕ
tools = record { clock = λ w. (w, w); execute = execute }

abbrev chat : ℕ → List ChatMessage → List Text → Option ToolChoice → ChatResult × ℕ
chat zero messages defs choice = (replied (reply_with [] (call ∷ [])), 1)
chat (suc w) messages defs choice = (replied (reply_with (codes "ok") []), suc (suc w))

abbrev services : Services ℕ Text
services = record {
  tools = tools;
  chat = chat;
  parse_answer = λ output size. some output;
  settle_answer = λ answer evidence. answer;
}

abbrev input : LoopInput
input = record { goal = codes "goal"; size = medium; allowed_tools = codes "search" ∷ [] }

abbrev prompt : Text
prompt = codes "prompt"

abbrev nonce : Text
nonce = codes "00"

run_loop_ends_example :
    (r : RunResult Text) × (w : ℕ) × (run_loop services prompt input default nonce 0 ≡ some (r, w))
run_loop_ends_example = run_loop_ends services prompt input default nonce 0 (omega arith)

abbrev after_first : Loop
unfolding round dispatch_turn preflight
after_first = elim (round services prompt input default nonce start 0) [ again l w ↦ l | _ ↦ start ]

-- Four calls under a cap of three, one of them to an unknown tool.
abbrev calls : List RequestedToolCall
calls = call ∷ record { id = codes "a"; name = codes "shell"; arguments = [] } ∷ call ∷ call ∷ []

abbrev names : List Text
names = codes "search" ∷ codes "fetch" ∷ []

dispatch_turn-result_ids_example :
    (result_ids (outcome tools 1 names default nonce calls 0).results
      ≡ call_ids (outcome tools 1 names default nonce calls 0).calls)
    × ((outcome tools 1 names default nonce calls 0).calls ≡ resolve_call_ids 1 calls)
dispatch_turn-result_ids_example = dispatch_turn-result_ids tools 1 names default nonce calls 0

dispatch_turn-allowed_calls_example :
    let (s, o) = dispatch_turn (logged tools) 1 names default nonce calls (0, []) in
    (s.1 ≡ allowed_calls names (take (cap tools 1 names default nonce) (resolve_call_ids 1 calls)))
    × (length s.1 ≤ cap tools 1 names default nonce)
    × (o ≡ (dispatch_turn tools 1 names default nonce calls 0).1)
    × (length o.evidence ≡ length s.1)
    × (o.successful_searches ≤ length s.1)
dispatch_turn-allowed_calls_example =
    dispatch_turn-allowed_calls tools 1 names default nonce calls 0

escape_closers-HasEndTag_example : ¬ HasEndTag (escape_closers (codes "a</PAGE nonce=00></hit>"))
escape_closers-HasEndTag_example = escape_closers-HasEndTag (codes "a</PAGE nonce=00></hit>")

abbrev page : Text
page = codes "first line\nsecond line\nthird line"

page_parts_lem_example : (concat (page_parts page 12) ≡ page) × IsParts 12 (page_parts page 12)
page_parts_lem_example = page_parts_lem page 12

abbrev history : List HistoryEntry
history =
    text_turn (codes "hm") (codes "go on")
    ∷ tool_turn [] (call ∷ []) (record { id = []; content = codes "a result" } ∷ []) no_replay
    ∷ []

abbrev tight : LoopBudget
tight = record default { max_context_chars = 30 }

truncate_history-IsTruncation_example :
    IsTruncation
      (10 + 8)
      30
      history
      (truncate_history 10 8 history tight).0
      (truncate_history 10 8 history tight).1
truncate_history-IsTruncation_example = truncate_history-IsTruncation 10 8 history tight

assemble-IsPaired_example : IsPaired [] (assemble prompt (codes "goal") history tight).0
assemble-IsPaired_example = assemble-IsPaired prompt (codes "goal") history tight (tt, (refl, tt))
