-- ===== src/Runner/Ends.antt =====
-- The whole loop (src/research/agent_loop/runner.rs): that it ends, how late, and what every
-- request carries.
use web_agent_research.Prelude.{
  [], ap, ◌∙◌, Option-cases, suc, zero, some, ◌≤◌, max, inl, inr, refl, none, ◌<◌, ◌≡◌, ◌∷◌, arith,
  Text, length, length-append, All, All-append, ℕ, ◌+◌,
}
use mathlib.Core.Path.{subst}
use web_agent_research.Budget.{LoopBudget, u32_max}
use web_agent_research.Budget.Turns.{turn_budget_bounds}
use web_agent_research.Context.Pairing.{HasResults}
use web_agent_research.Runner.{
  continue_with, unless, error, no_start, RunResult, rounds, preflight, run_loop, LoopInput,
  Services, Loop, TurnEnd, again, round, start,
}
use web_agent_research.Runner.Turns.{OnAgain, IsNext, round-IsNext, TurnEnd-cases}

module _ {W S : Type 0} (services : Services W S) (system_prompt : Text) (input : LoopInput)
    (budget : LoopBudget) (nonce : Text) where
  abbrev round_of : Loop → W → TurnEnd W S
  round_of = round services system_prompt input budget nonce

  -- The variables at the start of each round of a run.
  pub data Reaches : Loop → Type 0 where
    first : Reaches start
    next : {l l' : Loop} (w w' : W) → Reaches l → round_of l w ≡ again l' w' → Reaches l'

  pub record IsSound (l : Loop) : Type 0 where
    pub turns : l.turn ≡ length l.history
    pub below : l.turn < max (max budget.max_turns_cap budget.max_turns) 1
    pub results : All HasResults l.history
    pub repairs : l.consecutive_failures ≤ budget.max_repairs
    pub failures : l.failures_used ≤ l.turn

  again-IsNext :
      (l l' : Loop) (w w' : W)
      → round_of l w ≡ again l' w'
      → IsNext services system_prompt input budget nonce l l'
  again-IsNext l l' w w' e =
      subst (OnAgain (IsNext services system_prompt input budget nonce l)) e
        (round-IsNext services system_prompt input budget nonce l w)

  module _ (machine : max budget.max_turns_cap budget.max_turns ≤ u32_max) where
    IsSound-next :
        (l l' : Loop)
        → IsNext services system_prompt input budget nonce l l'
        → IsSound l
        → IsSound l'
    IsSound-next l l' n s =
        let bounds = turn_budget_bounds budget l.successful_searches (omega arith) in
        let turn = n.turn in
        let below = n.below in
        let turns = s.turns in
        let s_below = s.below in
        let failures = s.failures in
        let n_failures = n.failures in
        record {
          turns = rw (n.grows, length-append l.history (n.entry ∷ [])) (omega arith);
          below = omega (arith, bounds);
          results =
              rw n.grows
                (All-append HasResults l.history (n.entry ∷ []) s.results (n.has_results, tt));
          repairs = n.repairs s.repairs;
          failures = omega arith;
        }

    Reaches-IsSound : {l : Loop} → 1 ≤ budget.max_turns → Reaches l → IsSound l
    Reaches-IsSound some_turn first = record {
      turns = refl;
      below = omega arith;
      results = tt;
      repairs = omega arith;
      failures = omega arith;
    }
    Reaches-IsSound some_turn (next {l} {l'} w w' r e) =
        IsSound-next l l' (again-IsNext l l' w w' e) (Reaches-IsSound some_turn r)

  rounds_end :
      (fuel : ℕ) (l : Loop) (w : W)
      → max budget.max_turns_cap budget.max_turns ≤ u32_max
      → IsSound l
      → max (max budget.max_turns_cap budget.max_turns) 1 ≤ l.turn + fuel
      → (r : RunResult S) × (w' : W) × (rounds services system_prompt input budget nonce fuel l w
          ≡ some (r, w'))
  unfolding rounds
  rounds_end zero l w machine s h = let below = s.below in absurd (omega arith)
  rounds_end (suc fuel) l w machine s h = elim (TurnEnd-cases (round_of l w)) [
    | inl (r, w', e) ↦ (
      r,
      w',
      ap
          (continue_with services system_prompt input budget nonce
            (rounds services system_prompt input budget nonce fuel))
          e,
    )
    | inr (l', w', e) ↦
        let n = again-IsNext l l' w w' e in
        let turn = n.turn in
        let s' = IsSound-next machine l l' n s in
        let below = s.below in
        let (r, w'', done_at) =
          rounds_end fuel l' w' machine s' (omega (arith, turn, below, h, machine)) in
        (
          r,
          w'',
          ap
                (continue_with services system_prompt input budget nonce
                  (rounds services system_prompt input budget nonce fuel))
                e
              ∙ done_at,
        )
  ]

  preflight_max_turns : preflight input budget ≡ none → 1 ≤ budget.max_turns
  unfolding preflight
  preflight_max_turns h = ground arith

  -- A run ends with a report or an error, the error of a run that may not start included, within
  -- the rounds that the largest turn budget allows, for every gateway, clock, tools and answer
  -- parser, where the turn limits fit in a `u32`.
  pub run_loop_ends :
      (w : W)
      → max budget.max_turns_cap budget.max_turns ≤ u32_max
      → (r : RunResult S) × (w' : W) × (run_loop services system_prompt input budget nonce w
          ≡ some (r, w'))
  unfolding run_loop
  run_loop_ends w machine = elim (Option-cases (preflight input budget)) [
    | inr (reason, e) ↦ (
      error (no_start reason),
      w,
      ap
          (λ o. unless services system_prompt input budget nonce o w (
            rounds services system_prompt input budget nonce
              (max budget.max_turns_cap budget.max_turns) start w))
          e,
    )
    | inl e ↦
        let turns = preflight_max_turns e in
        let s = Reaches-IsSound machine turns first in
        let (r, w', done_at) =
          rounds_end (max budget.max_turns_cap budget.max_turns) start w machine s (omega arith) in
        (
          r,
          w',
          ap
                (λ o. unless services system_prompt input budget nonce o w (
                  rounds services system_prompt input budget nonce
                    (max budget.max_turns_cap budget.max_turns) start w))
                e
              ∙ done_at,
        )
  ]
