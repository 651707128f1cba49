-- ===== src/Runner/Turns.antt =====
-- One round of the loop (src/research/agent_loop/runner.rs): what the next round starts from.
use web_agent_research.Prelude.{
  [], is_empty, ◌∙◌, ◌||◌, true, ◌==◌, leb, some, none, ltb, ℕ, ◌+◌, ◌≤◌, ◌≡◌, refl, ap, ◌⊎◌, inl,
  inr, Bool, false, List, ◌∷◌, ◌++◌, arith, Text, Bool-cases, Option-cases, ◌<◌, Option,
}
use web_agent_research.Budget.{LoopBudget, deadline_passed, turn_budget}
use web_agent_research.Llm.{
  ChatResult, replied, refused_with, LlmReply, GatewayError, TokenUsage, add, missing_api_key,
  timeout, auth, forbidden, rate_limited, server, client, error_body, transport, invalid_request,
  parse, empty_choices, refused,
}
use web_agent_research.Context.{ToolMessage, HistoryEntry, text_turn, tool_turn}
use web_agent_research.Context.Pairing.{HasResults}
use web_agent_research.Dispatch.Pairing.{result_ids, dispatch_turn-result_ids}
use web_agent_research.Runner.{
  LoopInput, RunResult, Services, Loop, TurnEnd, done, again, next_u32, note_last, empty_answer,
  after_tools, answer_turn, gateway_error, replied_turn, tool_end, tools_turn, TurnOutcome,
  dispatch_turn, chat_turn, answered, on_reply, round, resolve_reply,
}

or_true : (b : Bool) → (b || true) ≡ true
or_true true = refl
or_true false = refl

result_ids-note_last :
    (note : Text) (rs : List ToolMessage) → result_ids (note_last note rs) ≡ result_ids rs
unfolding note_last
result_ids-note_last note [] = refl
result_ids-note_last note (r ∷ []) = refl
result_ids-note_last note (r ∷ r' ∷ rs) = ap (◌∷◌ r.id) (result_ids-note_last note (r' ∷ rs))

pub TurnEnd-cases :
    {W S : Type 0} (t : TurnEnd W S)
    → ((r : RunResult S) × (w : W) × (t ≡ done r w)) ⊎ ((l : Loop) × (w : W) × (t ≡ again l w))
TurnEnd-cases (done r w) = inl (r, w, refl)
TurnEnd-cases (again l w) = inr (l, w, refl)

-- A property of the loop's variables in the next round, if there is one.
abbrev pub OnAgain : {W S : Type 0} → (Loop → Type 0) → TurnEnd W S → Type 0
OnAgain P (done r w) = Unit
OnAgain P (again l w) = P l

-- The variables after a turn that does not end the run: the same turn, one more entry of the
-- history, whose calls all have results, and repairs within their limit.
pub record IsRound (budget : LoopBudget) (final_turn : Bool) (l l' : Loop) : Type 0 where
  pub turn : l'.turn ≡ l.turn
  pub not_final : final_turn ≡ false
  pub entry : HistoryEntry
  pub grows : l'.history ≡ l.history ++ entry ∷ []
  pub has_results : HasResults entry
  pub repairs :
      l.consecutive_failures ≤ budget.max_repairs → l'.consecutive_failures ≤ budget.max_repairs
  pub failures : l'.failures_used ≤ l.failures_used + 1

module _ {W S : Type 0} (services : Services W S) (system_prompt : Text) (input : LoopInput)
    (budget : LoopBudget) (nonce : Text) where
  empty_answer-IsRound :
      (l : Loop) (w : W) (reply : LlmReply) (current : ℕ) (deadline_final final_turn : Bool)
      → OnAgain (IsRound budget final_turn l) (
          empty_answer services system_prompt input budget nonce l w reply current deadline_final
            final_turn)
  unfolding empty_answer
  empty_answer-IsRound l w reply current deadline_final final_turn =
      elim (Bool-cases (ltb budget.max_repairs (next_u32 l.consecutive_failures))) [
        | inl e ↦ rw e tt
        | inr e ↦ elim (Bool-cases final_turn) [
          | inl u ↦ rw (e, u) tt
          | inr u ↦
              rw (e, u)
                record {
                  turn = refl;
                  not_final = refl;
                  entry = text_turn _ _;
                  grows = refl;
                  has_results = tt;
                  repairs = λ h. ground arith;
                  failures = omega arith;
                }
        ]
      ]

  answered-IsRound :
      (l : Loop) (w : W) (reply : LlmReply) (current : ℕ) (deadline_final final_turn : Bool)
      (answer : Option S)
      → OnAgain (IsRound budget final_turn l) (
          answered services system_prompt input budget nonce l w reply current deadline_final
            final_turn answer)
  unfolding answered
  answered-IsRound l w reply current deadline_final final_turn none =
      empty_answer-IsRound l w reply current deadline_final final_turn
  answered-IsRound l w reply current deadline_final final_turn (some s) = tt

  tool_end-IsRound :
      (l l' : Loop) (w : W) (outcome : TurnOutcome)
      → IsRound (record budget { max_repairs = l'.consecutive_failures }) false l l'
      → (outcome.failure ≡ none → l'.consecutive_failures ≤ l.consecutive_failures)
      → OnAgain
          (IsRound budget false l)
          (tool_end services system_prompt input budget nonce l' w outcome)
  unfolding tool_end
  tool_end-IsRound l l' w outcome r calm = elim (Option-cases outcome.failure) [
    | inl e ↦
        let fewer = calm e in
        rw e record {
          turn = r.turn;
          not_final = refl;
          entry = r.entry;
          grows = r.grows;
          has_results = r.has_results;
          repairs = λ h. omega arith;
          failures = r.failures;
        }
    | inr (k, e) ↦ elim (Bool-cases (ltb budget.max_repairs l'.consecutive_failures)) [
      | inl u ↦ rw (e, u) tt
      | inr u ↦
          rw (e, u)
            record {
              turn = r.turn;
              not_final = refl;
              entry = r.entry;
              grows = r.grows;
              has_results = r.has_results;
              repairs = λ h. ground arith;
              failures = r.failures;
            }
    ]
  ]

  after_tools-IsRound :
      (l : Loop) (w : W) (reply : LlmReply) (now : ℕ)
      → let outcome =
          (dispatch_turn services.tools l.turn input.allowed_tools budget nonce reply.tool_calls
            w).1 in
        let l' = after_tools services system_prompt input budget nonce l reply outcome now in
        IsRound (record budget { max_repairs = l'.consecutive_failures }) false l l'
  unfolding after_tools
  after_tools-IsRound l w reply now =
      let outcome =
        (dispatch_turn services.tools l.turn input.allowed_tools budget nonce reply.tool_calls
          w).1 in
      record {
        turn = refl;
        not_final = refl;
        entry = tool_turn _ _ _ _;
        grows = refl;
        has_results =
            result_ids-note_last _ outcome.results
            ∙ (dispatch_turn-result_ids services.tools l.turn input.allowed_tools budget nonce
                reply.tool_calls w).0;
        repairs = λ h. omega arith;
        failures = ground arith;
      }

  after_tools_calm :
      (l : Loop) (reply : LlmReply) (outcome : TurnOutcome) (now : ℕ)
      → outcome.failure ≡ none
      → (after_tools services system_prompt input budget nonce l reply outcome
          now).consecutive_failures
        ≤ l.consecutive_failures
  unfolding after_tools
  after_tools_calm l reply outcome now e = ground arith

  tools_turn-IsRound :
      (l : Loop) (w : W) (reply : LlmReply)
      → OnAgain
          (IsRound budget false l)
          (tools_turn services system_prompt input budget nonce l w reply)
  unfolding tools_turn
  tools_turn-IsRound l w reply =
      let outcome =
        (dispatch_turn services.tools l.turn input.allowed_tools budget nonce reply.tool_calls
          w).1 in
      tool_end-IsRound l _ _ outcome (after_tools-IsRound l w reply _)
        (after_tools_calm l reply outcome _)

  replied_turn-IsRound :
      (l : Loop) (w : W) (reply : LlmReply) (current : ℕ) (deadline_final final_turn : Bool)
      → OnAgain (IsRound budget final_turn l) (
          replied_turn services system_prompt input budget nonce l w reply current deadline_final
            final_turn)
  unfolding replied_turn answer_turn
  replied_turn-IsRound l w reply current deadline_final true =
      rw (or_true (is_empty reply.tool_calls))
        (answered-IsRound l w reply current deadline_final true _)
  replied_turn-IsRound l w reply current deadline_final false =
      elim (Bool-cases (is_empty reply.tool_calls)) [
        | inl e ↦ rw e (answered-IsRound l w reply current deadline_final false _)
        | inr e ↦ rw e (tools_turn-IsRound l w reply)
      ]

  gateway_error_ends :
      (P : Loop → Type 0) (turn : ℕ) (w : W) (err : GatewayError)
      → OnAgain P (gateway_error services system_prompt input budget nonce turn w err)
  unfolding gateway_error
  gateway_error_ends P turn w missing_api_key = elim (Bool-cases (turn == 1)) [
    | inl e ↦ rw e tt
    | inr e ↦ rw e tt
  ]
  gateway_error_ends P turn w timeout =
      elim (Bool-cases (deadline_passed budget (services.tools.clock w).0)) [
        | inl e ↦ rw e tt
        | inr e ↦ rw e tt
      ]
  gateway_error_ends P turn w auth = tt
  gateway_error_ends P turn w (forbidden detail) = tt
  gateway_error_ends P turn w (rate_limited after) = tt
  gateway_error_ends P turn w (server status detail after) = tt
  gateway_error_ends P turn w (client status detail) = tt
  gateway_error_ends P turn w (error_body kind message retry) = tt
  gateway_error_ends P turn w (transport detail) = tt
  gateway_error_ends P turn w (invalid_request detail) = tt
  gateway_error_ends P turn w (parse detail) = tt
  gateway_error_ends P turn w empty_choices = tt
  gateway_error_ends P turn w (refused detail) = tt

  -- What a round shows of its start does not depend on the usage.
  same_counters :
      (l : Loop) (usage : TokenUsage) (t : TurnEnd W S) (final_turn : Bool)
      → OnAgain (IsRound budget final_turn (record l { usage = usage })) t
      → OnAgain (IsRound budget final_turn l) t
  same_counters l usage (done r w) final_turn h = tt
  same_counters l usage (again l' w) final_turn h = record {
    turn = h.turn;
    not_final = h.not_final;
    entry = h.entry;
    grows = h.grows;
    has_results = h.has_results;
    repairs = h.repairs;
    failures = h.failures;
  }

  on_reply-IsRound :
      (l : Loop) (w : W) (current : ℕ) (deadline_final final_turn : Bool) (reply : ChatResult)
      → OnAgain (IsRound budget final_turn l) (
          on_reply services system_prompt input budget nonce l w current deadline_final final_turn
            reply)
  unfolding on_reply
  on_reply-IsRound l w current deadline_final final_turn (refused_with err) =
      gateway_error_ends (IsRound budget final_turn l) l.turn w err
  on_reply-IsRound l w current deadline_final final_turn (replied r) =
      same_counters l _ _ final_turn (
        replied_turn-IsRound (record l { usage = add l.usage r.usage }) w (resolve_reply l.turn r)
          current deadline_final final_turn)

  -- The next round of a run starts from the next turn, which was below the turn budget, with one
  -- more entry in the history, and the repairs still within their limit.
  pub record IsNext (l l' : Loop) : Type 0 where
    pub turn : l'.turn ≡ next_u32 l.turn
    pub below : next_u32 l.turn < turn_budget budget l.successful_searches
    pub entry : HistoryEntry
    pub grows : l'.history ≡ l.history ++ entry ∷ []
    pub has_results : HasResults entry
    pub repairs :
        l.consecutive_failures ≤ budget.max_repairs → l'.consecutive_failures ≤ budget.max_repairs
    pub failures : l'.failures_used ≤ l.failures_used + 1

  IsNext-IsRound :
      (l l' : Loop) (final_turn : Bool)
      → IsRound budget
          (leb (turn_budget budget l.successful_searches) (next_u32 l.turn) || final_turn)
          (record l { turn = next_u32 l.turn })
          l'
      → IsNext l l'
  IsNext-IsRound l l' final_turn r =
      let e = r.not_final in
      record {
        turn = r.turn;
        below = ground arith;
        entry = r.entry;
        grows = r.grows;
        has_results = r.has_results;
        repairs = r.repairs;
        failures = r.failures;
      }

  OnAgain-map :
      (P Q : Loop → Type 0) (t : TurnEnd W S) → ((l : Loop) → P l → Q l) → OnAgain P t → OnAgain Q t
  OnAgain-map P Q (done r w) f h = tt
  OnAgain-map P Q (again l w) f h = f l h

  -- Every round ends the run, or is not final and leaves variables that are the next ones.
  pub round-IsNext :
      (l : Loop) (w : W) → OnAgain (IsNext l) (round services system_prompt input budget nonce l w)
  unfolding round chat_turn
  round-IsNext l w = elim (Bool-cases (deadline_passed budget (services.tools.clock w).0)) [
    | inl e ↦ rw e tt
    | inr e ↦ rw e (
        OnAgain-map _ (IsNext l) _ (λ l' r. IsNext-IsRound l l' _ r)
          (on_reply-IsRound (record l { turn = next_u32 l.turn }) _ _ _ _ _))
  ]
