-- ===== src/Dispatch.antt =====
-- src/research/agent_loop/dispatch.rs: one turn of tool dispatch and the notes for the model. The
-- clock and the tool registry are operations on a world, in the order the code calls them; an
-- execution that its timeout cuts off gives no result. The Events are not modelled, nor are the
-- parameters of the tool schemas: a tool definition is its name.
pub mod Pairing
pub mod Executed
use web_agent_research.Prelude.{
  [], ◌+◌, ◌-◌, ◌/◌, ◌%◌, ◌^◌, min, max, Bool, true, false, not, ◌||◌, Option, none, some, List,
  ◌∷◌, ◌++◌, map, Text, is_empty, contains, show, ltb, leb, ◌==◌, if◌then◌else◌, codes, join, ℕ,
}
use web_agent_research.Budget.{LoopBudget, work_cutoff}
use web_agent_research.Llm.{RequestedToolCall}
use web_agent_research.Context.{ToolMessage, cap_evidence}
use web_agent_research.ToolResult.{
  Evidence, FailureKind, dispatch, execution, ToolResult, search, fetch, search_note,
  search_blocked, already_fetched, failed, render, url, fetch_path, first_delivery_page, is_success,
  error_text, failure_kind,
}

-- `Instant::now()`, and `ToolRegistry::execute` of a call with a part size under a timeout.
pub record Tools (W : Type 0) : Type 0 where
  pub clock : W → ℕ × W
  pub execute : W → RequestedToolCall → ℕ → ℕ → Option ToolResult × W

abbrev pub tool_names : List Text
tool_names = codes "search" ∷ codes "fetch" ∷ []

abbrev tool_purposes : List (Text × Text)
tool_purposes =
    (
      codes "search",
      codes
          "Find candidate pages. Returns Hits (title, URL, snippet): leads to read, not Evidence.",
    )
    ∷ (
      codes "fetch",
      codes
          "Read one page. Returns its final URL and its content as markdown: Evidence you can cite.",
    )
    ∷ []

filter_allowed : List Text → List (Text × Text) → List (Text × Text)
filter_allowed allowed [] = []
filter_allowed allowed (tool ∷ tools) =
    let rest = filter_allowed allowed tools in if contains allowed tool.0 then tool ∷ rest else rest

unfoldable pub allowed_roster : List Text → List (Text × Text)
unfolding filter_allowed
allowed_roster allowed = filter_allowed allowed tool_purposes

abbrev roster_footer : List Text → Text
roster_footer allowed =
    join (codes "\n")
      (map (λ (tool : Text × Text). tool.0 ++ codes " — " ++ tool.1) (allowed_roster allowed))

abbrev pub turns_left_note : ℕ → Text
turns_left_note left =
    if left == 0
    then []
    else if left == 1
    then codes
        "\n\n[1 turn left: tools are off on it, so your next reply must be the final answer inside <answer></answer> tags.]"
    else codes "\n\n[" ++ show left ++ codes " turns left, counting the final answer.]"

unfoldable pub empty_answer_observation : List Text → ℕ → Text
empty_answer_observation allowed turns_left =
    if leb turns_left 1
    then codes "Your last reply had no tool call and no answer text." ++ turns_left_note turns_left
    else codes
        "Your last reply had no tool call and no answer text. Continue the research with a tool call, or reply with the final answer inside <answer></answer> tags.\nAvailable tools:\n"
      ++ roster_footer allowed
      ++ turns_left_note turns_left

abbrev pub cap_excerpt : Text → LoopBudget → Text
cap_excerpt rendered budget = cap_evidence rendered budget.max_part_chars

abbrev synthesize_id : ℕ → ℕ → Text
synthesize_id turn index = codes "call_" ++ show turn ++ codes "_" ++ show (index + 1)

resolve_from : ℕ → ℕ → List RequestedToolCall → List RequestedToolCall
resolve_from turn index [] = []
resolve_from turn index (call ∷ calls) =
    record call { id = if is_empty call.id then synthesize_id turn index else call.id }
    ∷ resolve_from turn (index + 1) calls

unfoldable pub resolve_call_ids : ℕ → List RequestedToolCall → List RequestedToolCall
unfolding resolve_from
resolve_call_ids turn calls = resolve_from turn 0 calls

pub record CallFailure : Type 0 where
  pub call_id : Text
  pub tool : Text
  pub kind : FailureKind
  pub reason : Text

pub record ToolEvidence : Type 0 where
  pub turn : ℕ
  pub id : Text
  pub tool : Text
  pub excerpt : Text
  pub url : Option Text
  pub fetch_path : Option Text
  pub page : Option Evidence

pub record TurnOutcome : Type 0 where
  pub calls : List RequestedToolCall
  pub results : List ToolMessage
  pub evidence : List ToolEvidence
  pub had_success : Bool
  pub failure : Option FailureKind
  pub failure_reason : Text
  pub search_blocked : Option Text
  pub had_search_hits : Bool
  pub successful_searches : ℕ
  pub failures : List CallFailure

-- What the loop over the calls starts from.
abbrev pub no_outcome : List RequestedToolCall → TurnOutcome
no_outcome calls = record {
  calls = calls;
  results = [];
  evidence = [];
  had_success = false;
  failure = none;
  failure_reason = [];
  search_blocked = none;
  had_search_hits = false;
  successful_searches = 0;
  failures = [];
}

abbrev answer_with : RequestedToolCall → Text → TurnOutcome → List ToolMessage
answer_with call content o = o.results ++ record { id = call.id; content = content } ∷ []

abbrev over_cap : LoopBudget → ℕ → RequestedToolCall → TurnOutcome → TurnOutcome
over_cap budget cap call o = record o {
  results =
      answer_with call
        (cap_excerpt
          (codes "not executed: per-turn tool-call cap (" ++ show cap ++ codes ") reached") budget)
        o;
}

abbrev failure_of : RequestedToolCall → FailureKind → Text → CallFailure
failure_of call kind reason = record {
  call_id = call.id;
  tool = call.name;
  kind = kind;
  reason = reason;
}

abbrev disallowed : LoopBudget → List Text → RequestedToolCall → TurnOutcome → TurnOutcome
disallowed budget allowed call o =
    let reason =
      codes "unknown tool '"
      ++ call.name
      ++ codes "' (available: "
      ++ join (codes ", ") allowed
      ++ codes ")" in
    record o {
      results = answer_with call (cap_excerpt (codes "FAILED: " ++ reason) budget) o;
      failures = o.failures ++ failure_of call dispatch reason ∷ [];
      failure = some dispatch;
      failure_reason = reason;
    }

abbrev evidence_of :
    ℕ → RequestedToolCall → Text → Option Text → Option Text → Option Evidence → ToolEvidence
evidence_of turn call excerpt url path page = record {
  turn = turn;
  id = call.id;
  tool = call.name;
  excerpt = excerpt;
  url = url;
  fetch_path = path;
  page = page;
}

abbrev as_secs : ℕ → ℕ
as_secs duration = duration / 1_000_000_000

abbrev timed_out : ℕ → LoopBudget → Text → ℕ → RequestedToolCall → TurnOutcome → TurnOutcome
timed_out turn budget nonce timeout call o =
    let reason =
      if ltb timeout budget.tool_timeout
      then codes "timeout after " ++ show (as_secs timeout) ++ codes "s: the run deadline is near"
      else codes "timeout after " ++ show (as_secs budget.tool_timeout) ++ codes "s" in
    let content = cap_excerpt (render nonce (failed call.name reason execution)) budget in
    record o {
      results = answer_with call content o;
      evidence = o.evidence ++ evidence_of turn call content none none none ∷ [];
      failures = o.failures ++ failure_of call execution reason ∷ [];
      failure = some execution;
      failure_reason = reason;
    }

abbrev excerpt_of : LoopBudget → Text → ToolResult → Text
excerpt_of budget rendered (fetch evidence from to part parts first served) = rendered
excerpt_of budget rendered _ = cap_excerpt rendered budget

abbrev hits_found : ToolResult → Bool
hits_found (search hits status) = not (is_empty hits)
hits_found _ = false

abbrev is_search : ToolResult → Bool
is_search (search hits status) = true
is_search _ = false

abbrev blocked : Option Text → ToolResult → Option Text
blocked before (search_blocked detail) = some detail
blocked before _ = before

abbrev reason_of : Text → ToolResult → Text
reason_of rendered (failed tool reason kind) = reason
reason_of rendered _ = rendered

abbrev succeeded :
    ℕ → LoopBudget → Text → RequestedToolCall → ToolResult → TurnOutcome → TurnOutcome
succeeded turn budget nonce call result o =
    let excerpt = excerpt_of budget (render nonce result) result in
    record o {
      results = answer_with call excerpt o;
      evidence =
          o.evidence
          ++ evidence_of turn call excerpt (url result) (fetch_path result)
              (first_delivery_page result)
            ∷ [];
      had_success = true;
      had_search_hits = o.had_search_hits || hits_found result;
      successful_searches =
          if is_search result then (o.successful_searches + 1) % 2 ^ 32 else o.successful_searches;
    }

abbrev or_reason : Option Text → Text → Text
or_reason none reason = reason
or_reason (some text) reason = text

abbrev failed_with :
    ℕ → LoopBudget → Text → RequestedToolCall → ToolResult → FailureKind → TurnOutcome → TurnOutcome
failed_with turn budget nonce call result kind o =
    let rendered = render nonce result in
    let excerpt = excerpt_of budget rendered result in
    let reason = reason_of rendered result in
    record o {
      results = answer_with call excerpt o;
      search_blocked = blocked o.search_blocked result;
      evidence = o.evidence ++ evidence_of turn call excerpt none none none ∷ [];
      failures = o.failures ++ failure_of call kind (or_reason (error_text result) reason) ∷ [];
      failure = some kind;
      failure_reason = reason;
    }

-- The kind is there exactly when the result is no success, so `expect` does not fail.
abbrev finished : ℕ → LoopBudget → Text → RequestedToolCall → ToolResult → TurnOutcome → TurnOutcome
finished turn budget nonce call result o = elim (failure_kind result) [
  | none ↦ succeeded turn budget nonce call result o
  | some kind ↦ failed_with turn budget nonce call result kind o
]

module _ {W : Type 0} (tools : Tools W) (turn : ℕ) (allowed : List Text) (budget : LoopBudget)
    (nonce : Text) where
  abbrev pub timeout_of : Option ℕ → W → ℕ × W
  timeout_of none w = (budget.tool_timeout, w)
  timeout_of (some cutoff) w =
      let (now, w') = tools.clock w in (min budget.tool_timeout (cutoff - now), w')

  abbrev pub settle : ℕ → RequestedToolCall → Option ToolResult → TurnOutcome → TurnOutcome
  settle timeout call none o = timed_out turn budget nonce timeout call o
  settle timeout call (some result) o = finished turn budget nonce call result o

  execute_call : RequestedToolCall → W → TurnOutcome → W × TurnOutcome
  execute_call call w o =
      let (timeout, w') = timeout_of (work_cutoff budget) w in
      let (executed, w'') = tools.execute w' call budget.max_part_chars timeout in
      (w'', settle timeout call executed o)

  dispatch_call : ℕ → RequestedToolCall → W → TurnOutcome → W × TurnOutcome
  unfolding execute_call
  dispatch_call index call w o =
      let cap = max budget.max_tools_per_turn 1 in
      if leb cap index
      then (w, over_cap budget cap call o)
      else if contains allowed call.name
      then execute_call call w o
      else (w, disallowed budget allowed call o)

  dispatch_calls : ℕ → List RequestedToolCall → W → TurnOutcome → W × TurnOutcome
  unfolding dispatch_call
  dispatch_calls index [] w o = (w, o)
  dispatch_calls index (call ∷ calls) w o =
      let (w', o') = dispatch_call index call w o in dispatch_calls (index + 1) calls w' o'

  unfoldable pub dispatch_turn : List RequestedToolCall → W → W × TurnOutcome
  unfolding dispatch_calls
  dispatch_turn calls w =
      let resolved = resolve_call_ids turn calls in
      dispatch_calls 0 resolved w (no_outcome resolved)
