-- ===== src/Budget/Turns.antt =====
-- How the turn budget grows, and what a window and a deadline leave for the work
-- (src/research/agent_loop/types.rs).
use web_agent_research.Prelude.{ℕ, ◌+◌, ◌-◌, ◌*◌, ◌≤◌, ◌<◌, ◌≡◌, ◌↔◌, min, max, true, false, arith}
use web_agent_research.Budget.{
  LoopBudget, u32_max, ok, err, for_window, with_deadline, turn_budget, in_final_reserve,
  deadline_passed, min_context_chars, max_context_chars_ceiling, max_part_chars_default,
  parts_per_context, chars_per_token, search_turn_bonus,
}

-- What a run may rely on of a budget that `for_window` hands out.
pub record IsWorkable (turns usable : ℕ) (b : LoopBudget) : Type 0 where
  pub turns_kept : b.max_turns ≡ turns
  pub context_above : min_context_chars ≤ b.max_context_chars
  pub context_below : b.max_context_chars ≤ max_context_chars_ceiling
  pub context_in_window : b.max_context_chars ≤ usable * chars_per_token
  pub part_positive : 1 ≤ b.max_part_chars
  pub part_below : b.max_part_chars ≤ max_part_chars_default
  pub parts_fit : b.max_part_chars * parts_per_context ≤ b.max_context_chars

-- A budget made for a window is workable: its context lies between the minimum and the ceiling
-- and within three characters for each token that the reply leaves, and eight parts of at least
-- one character fit into it.
pub for_window-IsWorkable :
    (turns window reserve : ℕ) {b : LoopBudget}
    → for_window turns window reserve ≡ ok b
    → IsWorkable turns (window - reserve) b
unfolding for_window
for_window-IsWorkable turns window reserve h = ground arith

-- A window is refused exactly when three characters for each usable token fall short of the
-- minimum context; the error names the window, the usable tokens and the reserve.
pub for_window-err_iff :
    (turns window reserve : ℕ)
    → (for_window turns window reserve ≡ err window (window - reserve) reserve)
      ↔ ((window - reserve) * chars_per_token < min_context_chars)
unfolding for_window
for_window-err_iff turns window reserve = ground arith

-- The turn budget lies between `max_turns` and the cap (or `max_turns`, if that is larger).
pub turn_budget_bounds :
    (b : LoopBudget) (searches : ℕ)
    → b.max_turns ≤ u32_max
    → (b.max_turns ≤ turn_budget b searches)
      × (turn_budget b searches ≤ max b.max_turns_cap b.max_turns)
unfolding turn_budget
turn_budget_bounds b searches h = ground arith

pub turn_budget_mono : (b : LoopBudget) (s t : ℕ) → s ≤ t → turn_budget b s ≤ turn_budget b t
unfolding turn_budget
turn_budget_mono b s t h = ground arith

-- With no successful search and with one the budget is `max_turns`; from then on each further
-- successful search adds five turns, up to the cap.
pub turn_budget_grows :
    (b : LoopBudget) (s : ℕ)
    → b.max_turns ≤ b.max_turns_cap
    → b.max_turns_cap ≤ u32_max
    → (turn_budget b 0 ≡ b.max_turns)
      × (turn_budget b 1 ≡ b.max_turns)
      × (turn_budget b (s + 2) ≡ min (turn_budget b (s + 1) + search_turn_bonus) b.max_turns_cap)
unfolding turn_budget
turn_budget_grows b s h k = (ground arith, ground arith, ground arith)

-- Under a deadline set by `with_deadline` at `start`, neither the final reserve is reached nor the
-- deadline passed before three quarters of the run time have gone by.
pub with_deadline_reserve :
    (b : LoopBudget) (start run_time request_timeout now : ℕ)
    → 4 * now < 4 * start + 3 * run_time
    → (in_final_reserve (with_deadline b start run_time request_timeout) now ≡ false)
      × (deadline_passed (with_deadline b start run_time request_timeout) now ≡ false)
unfolding with_deadline in_final_reserve deadline_passed
with_deadline_reserve b start run_time request_timeout now h = (ground arith, ground arith)

-- Once the deadline has passed, the final reserve is reached.
pub in_final_reserve_of_passed :
    (b : LoopBudget) (now : ℕ) → deadline_passed b now ≡ true → in_final_reserve b now ≡ true
unfolding in_final_reserve deadline_passed
in_final_reserve_of_passed b now h = ground arith
