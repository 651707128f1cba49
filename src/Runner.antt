-- ===== src/Runner.antt =====
-- src/research/agent_loop/runner.rs, with the contract of src/research/agent_loop/types.rs and the
-- goal message of src/research/agent_loop/context.rs: the loop of a research run. The clock, the
-- gateway and the tool registry are operations on a world, in the order the code calls them; the
-- answer parser and the verification of a parsed answer, and the text of the system prompt, are
-- parameters. The Events are not modelled.
pub mod Turns
pub mod Ends
use web_agent_research.Prelude.{
  [], ℕ, zero, suc, ◌+◌, ◌-◌, ◌%◌, ◌^◌, min, max, Bool, true, false, not, ◌&&◌, ◌||◌, Option, none,
  some, List, ◌∷◌, ◌++◌, map, Text, is_empty, contains, is_blank, show, ltb, leb, ◌==◌,
  if◌then◌else◌, codes,
}
use web_agent_research.Budget.{LoopBudget, turn_budget, in_final_reserve, deadline_passed}
use web_agent_research.Llm.{
  ChatResult, replied, refused_with, RequestedToolCall, ChatMessage, LlmReply, TokenUsage, add,
  no_usage, GatewayError, missing_api_key, timeout, auth, forbidden, rate_limited, server, client,
  error_body, transport, invalid_request, parse, empty_choices, refused,
}
use web_agent_research.Context.{ToolMessage, HistoryEntry, text_turn, tool_turn, assemble}
use web_agent_research.ToolResult.{FailureKind, dispatch, execution}
use web_agent_research.Dispatch.{
  Tools, TurnOutcome, ToolEvidence, tool_names, allowed_roster, turns_left_note,
  empty_answer_observation, resolve_call_ids, dispatch_turn,
}

pub data SynthesisSize : Type 0 where
  medium : SynthesisSize
  small : SynthesisSize
  large : SynthesisSize
  deep : SynthesisSize

abbrev as_str : SynthesisSize → Text
as_str medium = codes "medium"
as_str small = codes "small"
as_str large = codes "large"
as_str deep = codes "deep"

pub record LoopInput : Type 0 where
  pub goal : Text
  pub size : SynthesisSize
  pub allowed_tools : List Text

abbrev pub goal_message : LoopInput → Text
goal_message input =
    codes "Research goal: "
    ++ input.goal
    ++ codes "\nRequested synthesis size: "
    ++ as_str input.size
    ++ codes "."

pub data LoopError : Type 0 where
  no_start : Text → LoopError
  gateway : GatewayError → LoopError
  invalid_tool_call : Text → LoopError
  tool_failed : Text → LoopError
  budget_exhausted : ℕ → LoopError
  deadline_exceeded : ℕ → LoopError

pub record RunReport (S : Type 0) : Type 0 where
  pub synthesis : S
  pub turns_used : ℕ
  pub turn_budget : ℕ
  pub failures_used : ℕ
  pub evidence : List ToolEvidence
  pub usage : TokenUsage
  pub search_blocked : Option Text
  pub had_search_hits : Bool

pub data RunResult (S : Type 0) : Type 0 where
  report : RunReport S → RunResult S
  error : LoopError → RunResult S

pub data ToolChoice : Type 0 where
  auto : ToolChoice
  no_tools : ToolChoice

-- What the runner calls: the clock and the registry, the gateway with the messages, the names of
-- the tool definitions and the choice, `parse_answer`, and the check of an answer against the
-- evidence.
pub record Services (W S : Type 0) : Type 0 where
  pub tools : Tools W
  pub chat : W → List ChatMessage → List Text → Option ToolChoice → ChatResult × W
  pub parse_answer : Text → SynthesisSize → Option S
  pub settle_answer : S → List ToolEvidence → S

-- The variables of the loop.
pub record Loop : Type 0 where
  pub history : List HistoryEntry
  pub evidence : List ToolEvidence
  pub usage : TokenUsage
  pub consecutive_failures : ℕ
  pub failures_used : ℕ
  pub search_blocked : Option Text
  pub had_search_hits : Bool
  pub successful_searches : ℕ
  pub turn : ℕ

abbrev pub start : Loop
start = record {
  history = [];
  evidence = [];
  usage = no_usage;
  consecutive_failures = 0;
  failures_used = 0;
  search_blocked = none;
  had_search_hits = false;
  successful_searches = 0;
  turn = 0;
}

unknown_tool : List Text → Option Text
unknown_tool [] = none
unknown_tool (allowed ∷ more) =
    let rest = unknown_tool more in if contains tool_names allowed then rest else some allowed

-- The checks before the first turn, as the reason not to start.
unfoldable pub preflight : LoopInput → LoopBudget → Option Text
unfolding unknown_tool
preflight input budget =
    if is_blank input.goal
    then some (codes "research goal is empty")
    else elim (unknown_tool input.allowed_tools) [
      | some allowed ↦ some (codes "unknown tool: " ++ allowed)
      | none ↦
          if ltb budget.max_turns 1
          then some (codes "max_turns must be >= 1")
          else if ltb budget.max_turns_cap budget.max_turns
          then some (
              codes "max_turns_cap ("
              ++ show budget.max_turns_cap
              ++ codes ") must be >= max_turns ("
              ++ show budget.max_turns
              ++ codes ")")
          else if ltb budget.max_context_chars 1
          then some (codes "max_context_chars must be >= 1")
          else none
    ]

-- `+= 1` on a `u32`.
abbrev pub next_u32 : ℕ → ℕ
next_u32 n = (n + 1) % 2 ^ 32

-- How one turn of the loop ends.
pub data TurnEnd (W S : Type 0) : Type 0 where
  done : RunResult S → W → TurnEnd W S
  again : Loop → W → TurnEnd W S

abbrev choice_of : List Text → Bool → Option ToolChoice
choice_of [] final_turn = none
choice_of (def ∷ defs) final_turn = if final_turn then some no_tools else some auto

-- The note goes to the newest result.
unfoldable pub note_last : Text → List ToolMessage → List ToolMessage
note_last note [] = []
note_last note (r ∷ []) = record r { content = r.content ++ note } ∷ []
note_last note (r ∷ r' ∷ rs) = r ∷ note_last note (r' ∷ rs)

abbrev is_some {ℓ} : {A : Type ℓ} → Option A → Bool
is_some none = false
is_some (some a) = true

-- The counters after a turn of tools.
abbrev pub consecutive_after : TurnOutcome → ℕ → ℕ
consecutive_after outcome n =
    let reset = if outcome.had_success then 0 else n in
    if is_some outcome.failure && not outcome.had_success then next_u32 reset else reset

abbrev failures_after : TurnOutcome → ℕ → ℕ
failures_after outcome n = if is_some outcome.failure then next_u32 n else n

abbrev or_before {ℓ} : {A : Type ℓ} → Option A → Option A → Option A
or_before none before = before
or_before (some a) before = some a

abbrev failure_error : FailureKind → Text → LoopError
failure_error dispatch reason = invalid_tool_call reason
failure_error execution reason = tool_failed reason

abbrev pub resolve_reply : ℕ → LlmReply → LlmReply
resolve_reply turn reply = record reply { tool_calls = resolve_call_ids turn reply.tool_calls }

module _ {W S : Type 0} (services : Services W S) (system_prompt : Text) (input : LoopInput)
    (budget : LoopBudget) (nonce : Text) where
  abbrev defs : List Text
  defs = map (λ (tool : Text × Text). tool.0) (allowed_roster input.allowed_tools)

  -- `turns_left`, with its reading of the clock.
  abbrev pub turns_left : ℕ → ℕ → ℕ → ℕ
  turns_left now turn current = if in_final_reserve budget now then 1 else current - turn

  abbrev end_without_answer : Bool → ℕ → LoopError
  end_without_answer deadline_final turn =
      if deadline_final then deadline_exceeded turn else budget_exhausted turn

  -- The reply was no answer: a repair, or the end of the run.
  empty_answer : Loop → W → LlmReply → ℕ → Bool → Bool → TurnEnd W S
  empty_answer l w reply current deadline_final final_turn =
      let consecutive = next_u32 l.consecutive_failures in
      let (now, w') = services.tools.clock w in
      if ltb budget.max_repairs consecutive
      then done (error (invalid_tool_call (codes "empty answer"))) w
      else if final_turn
      then done (error (end_without_answer deadline_final l.turn)) w
      else again
          (record l {
            consecutive_failures = consecutive;
            failures_used = next_u32 l.failures_used;
            history =
                l.history
                ++ text_turn reply.output
                    (empty_answer_observation input.allowed_tools (turns_left now l.turn current))
                  ∷ [];
          })
          w'

  abbrev report_of : Loop → S → ℕ → RunReport S
  report_of l synthesis current = record {
    synthesis = services.settle_answer synthesis l.evidence;
    turns_used = l.turn;
    turn_budget = current;
    failures_used = l.failures_used;
    evidence = l.evidence;
    usage = l.usage;
    search_blocked = l.search_blocked;
    had_search_hits = l.had_search_hits;
  }

  answered : Loop → W → LlmReply → ℕ → Bool → Bool → Option S → TurnEnd W S
  unfolding empty_answer
  answered l w reply current deadline_final final_turn none =
      empty_answer l w reply current deadline_final final_turn
  answered l w reply current deadline_final final_turn (some synthesis) =
      done (report (report_of l synthesis current)) w

  answer_turn : Loop → W → LlmReply → ℕ → Bool → Bool → TurnEnd W S
  unfolding answered
  answer_turn l w reply current deadline_final final_turn =
      answered l w reply current deadline_final final_turn
        (if is_empty reply.tool_calls then services.parse_answer reply.output input.size else none)

  -- The loop's variables after a turn of tools, with the note at a reading of the clock.
  unfoldable pub after_tools : Loop → LlmReply → TurnOutcome → ℕ → Loop
  after_tools l reply outcome now =
      let searches = min (l.successful_searches + outcome.successful_searches) (2 ^ 32 - 1) in
      record l {
        evidence = l.evidence ++ outcome.evidence;
        consecutive_failures = consecutive_after outcome l.consecutive_failures;
        failures_used = failures_after outcome l.failures_used;
        search_blocked = or_before outcome.search_blocked l.search_blocked;
        had_search_hits = l.had_search_hits || outcome.had_search_hits;
        successful_searches = searches;
        history =
            l.history
            ++ tool_turn reply.output outcome.calls
                (note_last (turns_left_note (turns_left now l.turn (turn_budget budget searches)))
                  outcome.results)
                reply.replay
              ∷ [];
      }

  tool_end : Loop → W → TurnOutcome → TurnEnd W S
  tool_end l w outcome = elim outcome.failure [
    | none ↦ again l w
    | some kind ↦
        if ltb budget.max_repairs l.consecutive_failures
        then done (error (failure_error kind outcome.failure_reason)) w
        else again l w
  ]

  tools_turn : Loop → W → LlmReply → TurnEnd W S
  unfolding tool_end
  tools_turn l w reply =
      let (w', outcome) =
        dispatch_turn services.tools l.turn input.allowed_tools budget nonce reply.tool_calls w in
      let (now, w'') = services.tools.clock w' in
      tool_end (after_tools l reply outcome now) w'' outcome

  -- A reply with its ids resolved, `l.turn` being this turn.
  replied_turn : Loop → W → LlmReply → ℕ → Bool → Bool → TurnEnd W S
  unfolding answer_turn tools_turn
  replied_turn l w reply current deadline_final final_turn =
      if is_empty reply.tool_calls || final_turn
      then answer_turn l w reply current deadline_final final_turn
      else tools_turn l w reply

  gateway_error : ℕ → W → GatewayError → TurnEnd W S
  gateway_error turn w missing_api_key =
      if turn == 1
      then done (error (no_start (codes "GATEWAY_API_KEY is not set"))) w
      else done (error (gateway missing_api_key)) w
  gateway_error turn w timeout =
      let (now, w') = services.tools.clock w in
      if deadline_passed budget now
      then done (error (deadline_exceeded turn)) w'
      else done (error (gateway timeout)) w'
  gateway_error turn w err = done (error (gateway err)) w

  on_reply : Loop → W → ℕ → Bool → Bool → ChatResult → TurnEnd W S
  unfolding replied_turn gateway_error
  on_reply l w current deadline_final final_turn (refused_with err) = gateway_error l.turn w err
  on_reply l w current deadline_final final_turn (replied r) =
      replied_turn (record l { usage = add l.usage r.usage }) w (resolve_reply l.turn r) current
        deadline_final final_turn

  chat_turn : Loop → W → ℕ → Bool → Bool → TurnEnd W S
  unfolding on_reply
  chat_turn l w current deadline_final final_turn =
      let messages = (assemble system_prompt (goal_message input) l.history budget).0 in
      let (reply, w') = services.chat w messages defs (choice_of defs final_turn) in
      on_reply l w' current deadline_final final_turn reply

  -- One round of the loop. The two readings of the clock at its start are two calls.
  unfoldable pub round : Loop → W → TurnEnd W S
  unfolding chat_turn
  round l w =
      let current = turn_budget budget l.successful_searches in
      let (now, w') = services.tools.clock w in
      if deadline_passed budget now
      then done (error (deadline_exceeded l.turn)) w'
      else let turn = next_u32 l.turn in
        let (now', w'') = services.tools.clock w' in
        let deadline_final = in_final_reserve budget now' in
        chat_turn (record l { turn = turn }) w'' current deadline_final
          (leb current turn || deadline_final)

  abbrev pub continue_with :
      (Loop → W → Option (RunResult S × W)) → TurnEnd W S → Option (RunResult S × W)
  continue_with more (done result w) = some (result, w)
  continue_with more (again l w) = more l w

  -- The loop, a round for each unit of fuel; `none` when the fuel is used up.
  unfoldable pub rounds : ℕ → Loop → W → Option (RunResult S × W)
  rounds zero l w = none
  rounds (suc fuel) l w = continue_with (rounds fuel) (round l w)

  abbrev pub unless : Option Text → W → Option (RunResult S × W) → Option (RunResult S × W)
  unless (some reason) w run = some (error (no_start reason), w)
  unless none w run = run

  -- As many rounds as the largest turn budget are enough (`Ends`).
  unfoldable pub run_loop : W → Option (RunResult S × W)
  run_loop w =
      unless (preflight input budget) w (rounds (max budget.max_turns_cap budget.max_turns) start w)
