-- ===== src/Context/Pairing.antt =====
-- `assemble` (src/research/agent_loop/context.rs): the shape of the messages that go out.
use web_agent_research.Prelude.{
  [], ℕ, zero, suc, ◌+◌, ◌≡◌, refl, none, some, List, ◌∷◌, ◌++◌, map, Text, length, drop, All, ap,
}
use mathlib.Core.Path.{subst}
use web_agent_research.Budget.{LoopBudget}
use web_agent_research.Llm.{RequestedToolCall, ChatMessage, system, user}
use web_agent_research.Context.{
  ToolMessage, HistoryEntry, text_turn, tool_turn, truncate_history, assemble, history_messages,
  truncation_note, entry_messages, tool_messages,
}
use web_agent_research.Context.Truncation.{IsTruncation, truncate_history-IsTruncation}

-- `IsPaired pending ms`: the ids of `pending` are answered by the first messages of `ms`, one
-- `tool` message each and in this order; no other `tool` message stands in `ms`, and the calls of
-- each message with `tool_calls` are answered by the messages right after it.
pub data IsPaired : List Text → List ChatMessage → Type 0 where
  done : IsPaired [] []
  plain :
      {m : ChatMessage} {ms : List ChatMessage}
      → m.tool_calls ≡ none
      → m.tool_call_id ≡ none
      → IsPaired [] ms
      → IsPaired [] (m ∷ ms)
  calls :
      {m : ChatMessage} {ms : List ChatMessage} (cs : List RequestedToolCall)
      → m.tool_calls ≡ some cs
      → m.tool_call_id ≡ none
      → IsPaired (map (λ c. c.id) cs) ms
      → IsPaired [] (m ∷ ms)
  answer :
      {i : Text} {is : List Text} {m : ChatMessage} {ms : List ChatMessage}
      → m.tool_calls ≡ none
      → m.tool_call_id ≡ some i
      → IsPaired is ms
      → IsPaired (i ∷ is) (m ∷ ms)

-- A tool turn has one result for each call, with its id and in its order.
abbrev pub HasResults : HistoryEntry → Type 0
HasResults (text_turn a o) = Unit
HasResults (tool_turn t cs rs r) = map (λ x. x.id) rs ≡ map (λ c. c.id) cs

IsPaired-results :
    (rs : List ToolMessage) (ms : List ChatMessage)
    → IsPaired [] ms
    → IsPaired (map (λ x. x.id) rs) (tool_messages rs ++ ms)
IsPaired-results [] ms h = h
IsPaired-results (r ∷ rs) ms h = answer refl refl (IsPaired-results rs ms h)

IsPaired-entry :
    (e : HistoryEntry) (ms : List ChatMessage)
    → HasResults e
    → IsPaired [] ms
    → IsPaired [] (entry_messages e ++ ms)
IsPaired-entry (text_turn [] o) ms p h = plain refl refl h
IsPaired-entry (text_turn (c ∷ a) o) ms p h = plain refl refl (plain refl refl h)
IsPaired-entry (tool_turn t cs rs r) ms p h =
    calls cs refl refl (rw p at (IsPaired-results rs ms h))

IsPaired-history : (h : List HistoryEntry) → All HasResults h → IsPaired [] (history_messages h)
IsPaired-history [] p = done
IsPaired-history (e ∷ es) (p, ps) =
    IsPaired-entry e (history_messages es) p (IsPaired-history es ps)

IsPaired-note :
    (dropped : ℕ) (ms : List ChatMessage)
    → IsPaired [] ms
    → IsPaired [] (truncation_note dropped ++ ms)
IsPaired-note zero ms h = h
IsPaired-note (suc n) ms h = plain refl refl h

All-drop : (k : ℕ) (h : List HistoryEntry) → All HasResults h → All HasResults (drop k h)
All-drop zero h p = p
All-drop (suc k) [] p = p
All-drop (suc k) (e ∷ es) (p, ps) = All-drop k es ps

IsTruncation-drop :
    {f l k : ℕ} {h s : List HistoryEntry} → IsTruncation f l h s k → IsTruncation f l h (drop k h) k
IsTruncation-drop {f} {l} {k} {h} t = subst (λ x. IsTruncation f l h x k) t.survives t

module _ (system_prompt goal : Text) (history : List HistoryEntry) (budget : LoopBudget) where
  -- If each tool turn of the history has one result for each of its calls, then in the assembled
  -- messages every `tool` message answers a call of the `tool_calls` message before it and every
  -- call is answered once, in order, whatever truncation dropped.
  pub assemble-IsPaired :
      All HasResults history → IsPaired [] (assemble system_prompt goal history budget).0
  unfolding assemble
  assemble-IsPaired p =
      let cut = truncate_history-IsTruncation (length system_prompt) (length goal) history budget in
      plain refl refl (
        plain refl refl
          (IsPaired-note _ _ (IsPaired-history _ (rw cut.survives (All-drop _ history p)))))

  -- The system prompt and the goal come first and are never dropped, and the messages of the
  -- surviving end of the history come last, the one that the least number of dropped entries
  -- leaves; a note stands between exactly when entries were dropped.
  pub assemble_parts :
      IsTruncation
        (length system_prompt + length goal)
        budget.max_context_chars
        history
        (drop (assemble system_prompt goal history budget).1 history)
        (assemble system_prompt goal history budget).1
      × ((assemble system_prompt goal history budget).0
          ≡ system system_prompt
              ∷ user goal
              ∷ truncation_note (assemble system_prompt goal history budget).1
            ++ history_messages (drop (assemble system_prompt goal history budget).1 history))
  unfolding assemble
  assemble_parts =
      let cut = truncate_history-IsTruncation (length system_prompt) (length goal) history budget in
      (
        IsTruncation-drop cut,
        ap
            (λ h.
              system system_prompt
                ∷ user goal
                ∷ truncation_note
                    (truncate_history (length system_prompt) (length goal) history budget).1
              ++ history_messages h)
            cut.survives,
      )
