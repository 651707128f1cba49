-- ===== src/Context/Truncation.antt =====
-- `truncate_history` (src/research/agent_loop/context.rs): what survives is the longest end of the
-- history that fits.
use web_agent_research.Prelude.{
  [], ℕ, zero, suc, ◌+◌, ◌≤◌, ◌<◌, ◌≡◌, refl, List, ◌∷◌, arith, length, drop,
}
use web_agent_research.Context.{HistoryEntry, total_chars, truncate, truncate_history, LoopBudget}

-- The fixed texts and the entries exceed the limit, and more than one entry is there.
abbrev pub IsTooLong : ℕ → ℕ → List HistoryEntry → Type 0
IsTooLong fixed limit entries = (1 < length entries) × (limit < fixed + total_chars entries)

module _ (fixed limit : ℕ) where
  truncate-drop :
      (h : List HistoryEntry)
      → ((truncate fixed limit h).0 ≡ drop (truncate fixed limit h).1 h)
        × ((truncate fixed limit h).1 ≤ length h)
  unfolding truncate
  truncate-drop [] = (refl, omega arith)
  truncate-drop (e ∷ es) = ground (arith, truncate-drop es)

  truncate_fits : (h : List HistoryEntry) → ¬ IsTooLong fixed limit (truncate fixed limit h).0
  unfolding truncate
  truncate_fits [] = λ k. omega (arith, k.0)
  truncate_fits (e ∷ es) = ground (arith, truncate_fits es)

  truncate_least :
      (k : ℕ) (h : List HistoryEntry)
      → k < (truncate fixed limit h).1
      → IsTooLong fixed limit (drop k h)
  unfolding truncate
  truncate_least k [] h = absurd (omega arith)
  truncate_least zero (e ∷ es) h = ground arith
  truncate_least (suc k) (e ∷ es) h = ground (arith, truncate_least k es)

  truncate_keeps : (h : List HistoryEntry) → 1 ≤ length h → 1 ≤ length (truncate fixed limit h).0
  unfolding truncate
  truncate_keeps [] h = h
  truncate_keeps (e ∷ []) h = ground arith
  truncate_keeps (e ∷ f ∷ es) h = ground (arith, truncate_keeps (f ∷ es))

-- A history, what survives of it and how many of its oldest entries were dropped.
pub record IsTruncation (fixed limit : ℕ) (history surviving : List HistoryEntry) (dropped : ℕ)
    : Type 0 where
  pub survives : surviving ≡ drop dropped history
  pub dropped_bound : dropped ≤ length history
  pub fits : ¬ IsTooLong fixed limit surviving
  pub least : (k : ℕ) → k < dropped → IsTooLong fixed limit (drop k history)
  pub keeps : 1 ≤ length history → 1 ≤ length surviving

-- Truncation drops the least number of oldest entries: what survives is the history without them,
-- it is not too long (it fits the budget, or one entry is left), every shorter cut would leave a
-- history that is too long, and a history that is not empty keeps its last entry.
pub truncate_history-IsTruncation :
    (system_chars goal_chars : ℕ) (history : List HistoryEntry) (budget : LoopBudget)
    → IsTruncation
        (system_chars + goal_chars)
        budget.max_context_chars
        history
        (truncate_history system_chars goal_chars history budget).0
        (truncate_history system_chars goal_chars history budget).1
unfolding truncate_history
truncate_history-IsTruncation s g history budget = record {
  survives = (truncate-drop (s + g) budget.max_context_chars history).0;
  dropped_bound = (truncate-drop (s + g) budget.max_context_chars history).1;
  fits = truncate_fits (s + g) budget.max_context_chars history;
  least = λ k h. truncate_least (s + g) budget.max_context_chars k history h;
  keeps = truncate_keeps (s + g) budget.max_context_chars history;
}
