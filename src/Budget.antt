-- ===== src/Budget.antt =====
-- src/research/agent_loop/types.rs: the budget of a run and its arithmetic. A `Duration` and an
-- `Instant` are numbers of nanoseconds, an `Instant` counted from the earliest one that the
-- platform can represent.
pub mod Turns
use web_agent_research.Prelude.{
  ℕ, ◌+◌, ◌-◌, ◌*◌, ◌/◌, ◌^◌, min, max, Bool, false, Option, none, some, ltb, leb, if◌then◌else◌,
}

abbrev pub secs : ℕ → ℕ
secs n = n * 1_000_000_000

abbrev pub u32_max : ℕ
u32_max = 2 ^ 32 - 1

abbrev pub usize_max : ℕ
usize_max = 2 ^ 64 - 1

abbrev pub chars_per_token : ℕ
chars_per_token = 3

abbrev pub max_context_chars_ceiling : ℕ
max_context_chars_ceiling = 400_000

abbrev pub max_part_chars_default : ℕ
max_part_chars_default = 24_000

abbrev pub parts_per_context : ℕ
parts_per_context = 8

abbrev pub min_context_chars : ℕ
min_context_chars = 16_000

abbrev pub search_turn_bonus : ℕ
search_turn_bonus = 5

abbrev pub fetch_timeout_margin : ℕ
fetch_timeout_margin = secs 5

-- `fetcher::STATIC_TIMEOUT`
abbrev pub static_timeout : ℕ
static_timeout = secs 10

pub record LoopBudget : Type 0 where
  pub max_turns : ℕ
  pub max_turns_cap : ℕ
  pub max_repairs : ℕ
  pub tool_timeout : ℕ
  pub max_part_chars : ℕ
  pub max_context_chars : ℕ
  pub max_tools_per_turn : ℕ
  pub deadline : Option ℕ
  pub final_reserve : ℕ

-- `LoopBudget::default`
abbrev pub default : LoopBudget
default = record {
  max_turns = 10;
  max_turns_cap = 25;
  max_repairs = 2;
  tool_timeout = secs 45;
  max_part_chars = max_part_chars_default;
  max_context_chars = 24_000;
  max_tools_per_turn = 3;
  deadline = none;
  final_reserve = secs 60;
}

-- `saturating_add`, `saturating_mul` at a width
abbrev pub saturating_add : ℕ → ℕ → ℕ → ℕ
saturating_add top a b = min (a + b) top

abbrev pub saturating_mul : ℕ → ℕ → ℕ → ℕ
saturating_mul top a b = min (a * b) top

-- The error of `for_window`: the numbers that its message names.
pub data WindowResult : Type 0 where
  ok : LoopBudget → WindowResult
  err : ℕ → ℕ → ℕ → WindowResult

-- `saturating_sub` is the truncated `-`. The conversion to `usize` widens.
unfoldable pub for_window : ℕ → ℕ → ℕ → WindowResult
for_window max_turns window_tokens reply_reserve_tokens =
    let usable_tokens = window_tokens - reply_reserve_tokens in
    let context =
      min (saturating_mul usize_max usable_tokens chars_per_token) max_context_chars_ceiling in
    if ltb context min_context_chars
    then err window_tokens usable_tokens reply_reserve_tokens
    else ok (record default {
      max_turns = max_turns;
      max_context_chars = context;
      max_part_chars = min max_part_chars_default (context / parts_per_context);
    })

-- `now` is the reading of `Instant::now()`.
unfoldable pub with_deadline : LoopBudget → ℕ → ℕ → ℕ → LoopBudget
with_deadline b now run_time request_timeout = record b {
  deadline = some (now + run_time);
  final_reserve = min request_timeout (run_time / 4);
}

unfoldable pub turn_budget : LoopBudget → ℕ → ℕ
turn_budget b successful_searches =
    let bonus = saturating_mul u32_max (successful_searches - 1) search_turn_bonus in
    min (saturating_add u32_max b.max_turns bonus) (max b.max_turns_cap b.max_turns)

-- `checked_sub` fails below the earliest instant; `unwrap_or` then takes the deadline itself.
unfoldable pub work_cutoff : LoopBudget → Option ℕ
work_cutoff b = elim b.deadline [
  | none ↦ none
  | some deadline ↦
      some (if ltb deadline b.final_reserve then deadline else deadline - b.final_reserve)
]

unfoldable pub in_final_reserve : LoopBudget → ℕ → Bool
unfolding work_cutoff
in_final_reserve b now = elim (work_cutoff b) [ none ↦ false | some cutoff ↦ leb cutoff now ]

unfoldable pub deadline_passed : LoopBudget → ℕ → Bool
deadline_passed b now = elim b.deadline [ none ↦ false | some deadline ↦ leb deadline now ]

unfoldable pub obscura_timeout : LoopBudget → ℕ
obscura_timeout b = b.tool_timeout - static_timeout - fetch_timeout_margin
