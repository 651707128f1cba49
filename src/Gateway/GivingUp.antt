-- ===== src/Gateway/GivingUp.antt =====
-- When a call returns an error that a later attempt might not meet (`chat_observed`,
-- src/llm/client.rs).
use web_agent_research.Prelude.{
  ℕ, suc, ◌+◌, ◌≤◌, ◌≡◌, refl, ◌⊎◌, inl, inr, Bool, true, false, none, List, arith, if◌then◌else◌,
  length,
}
use mathlib.Core.Path.{subst}
use web_agent_research.Llm.{ChatResult, replied, refused_with, GatewayError, is_retryable}
use web_agent_research.Gateway.{
  stops, count_timeout, back_off, Net, GatewayConfig, Attempt, Backoff, Round, returned, retried,
  is_timeout, first_attempt, attempts, round, settle,
}
use web_agent_research.Gateway.Retries.{Runs, ends, goes_on, timeouts}

module _ {W : Type 0} (net : Net W) (config : GatewayConfig) where
  -- What a round with no deadline that returns says of the error.
  abbrev GaveUp : ℕ → ℕ → ChatResult → Type 0
  GaveUp attempt timed (replied reply) = Unit
  GaveUp attempt timed (refused_with err) =
      is_retryable err ≡ true
      → (attempts config ≤ attempt) ⊎ ((is_timeout err ≡ true) × (1 ≤ timed))

  -- What a round does to the counters: it returns with a reason, or counts the failed try.
  abbrev Counts : Attempt → Round W → Type 0
  Counts a (returned r w) = GaveUp a.attempt a.timeouts r
  Counts a (retried x a' w) =
      (a'.attempt ≡ suc a.attempt)
      × ((a'.timeouts ≡ (if is_timeout x.reason then 1 else 0) + a.timeouts)
          × (suc a.attempt ≤ attempts config))

  Counts-if :
      (a : Attempt) (test : Bool) (r : ChatResult) (w : W) (rest : Round W)
      → (test ≡ true → GaveUp a.attempt a.timeouts r)
      → (test ≡ false → Counts a rest)
      → Counts a (if test then returned r w else rest)
  Counts-if a true r w rest h k = h refl
  Counts-if a false r w rest h k = k refl

  settle-Counts :
      (a : Attempt) (result : ChatResult × W) → Counts a (settle net config none a result)
  settle-Counts a (replied reply, w) = record {}
  settle-Counts a (refused_with err, w) =
      let counted = count_timeout net config none a err in
      Counts-if a (stops net config none counted err) (refused_with err) w
        (back_off net config none counted w err) (λ stop may_succeed. ground arith)
        (λ go. (omega arith, (ground arith, ground arith)))

  round-Counts : (a : Attempt) (w : W) → Counts a (round net config none a w)
  unfolding round
  round-Counts a w = settle-Counts a (net.try_once w none)

  given_up :
      (a : Attempt) (w : W) (log : List Backoff) (err : GatewayError) (w' : W)
      → Runs net config none a w log (refused_with err) w'
      → is_retryable err ≡ true
      → a.attempt ≤ attempts config
      → (attempts config ≡ length log + a.attempt)
        ⊎ ((is_timeout err ≡ true) × (1 ≤ timeouts log + a.timeouts))
  given_up a w log err w' (ends r _ e) may =
      let c : Counts a (returned (refused_with err) w') = subst (Counts a) e (round-Counts a w) in
      λ fits. elim (c may) [ inl h ↦ inl (omega arith) | inr (t, h) ↦ inr (t, omega arith) ]
  given_up a w _ err w' (goes_on x a' w1 e later) may =
      let (counted, (timed, more)) : Counts a (retried x a' w1) =
        subst (Counts a) e (round-Counts a w) in
      λ fits. elim (given_up a' w1 _ err w' later may (omega arith)) [
        | inl h ↦ inl (omega arith)
        | inr (t, h) ↦ inr (t, omega arith)
      ]

  -- With no deadline, an error that might not come again is returned only after all the attempts, or
  -- as the second timeout of the call.
  pub chat_gives_up :
      (w : W) (log : List Backoff) (err : GatewayError) (w' : W)
      → Runs net config none first_attempt w log (refused_with err) w'
      → is_retryable err ≡ true
      → (attempts config ≡ suc (length log)) ⊎ ((is_timeout err ≡ true) × (1 ≤ timeouts log))
  chat_gives_up w log err w' run may =
      elim (given_up first_attempt w log err w' run may (omega arith)) [
        | inl h ↦ inl (omega arith)
        | inr (t, h) ↦ inr (t, omega arith)
      ]
