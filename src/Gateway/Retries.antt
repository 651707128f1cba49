-- ===== src/Gateway/Retries.antt =====
-- The attempts of one call (`chat_observed`, src/llm/client.rs): that the loop ends, which errors it
-- retries, and how long it sleeps.
use web_agent_research.Prelude.{
  ℕ, suc, ◌+◌, ◌-◌, ◌/◌, ◌^◌, ◌≤◌, ◌<◌, min, ◌≡◌, true, Option, none, some, List, [], ◌∷◌,
  if◌then◌else◌, length,
}
use web_agent_research.Llm.{ChatResult, is_retryable}
use web_agent_research.Llm.Errors.{display, retry_after_secs}
use web_agent_research.Stream.{retry}
use web_agent_research.Budget.{secs}
use web_agent_research.Gateway.{
  Net, GatewayConfig, Attempt, Backoff, Round, returned, retried, is_timeout, attempts, round,
  backoff_delay, GatewayError,
}

abbrev pub timeouts : List Backoff → ℕ
timeouts [] = 0
timeouts (x ∷ log) = (if is_timeout x.reason then 1 else 0) + timeouts log

-- The world after a look at the clock, which only a deadline needs.
abbrev pub seen_deadline : {W : Type 0} → Net W → Option ℕ → W → W
seen_deadline net none w = w
seen_deadline net (some d) w = (net.clock w).1

module _ {W : Type 0} (net : Net W) (config : GatewayConfig) (deadline : Option ℕ) where
  abbrev round_of : Attempt → W → Round W
  round_of = round net config deadline

  -- A retry that the loop may make after an attempt: the world after it has told the caller of the
  -- retry and slept for the delay, from a moment at which the deadline is later than the delay's end.
  pub record IsRetry (attempt : ℕ) (x : Backoff) (w' : W) : Type 0 where
    pub may_succeed : is_retryable x.reason ≡ true
    pub delay_bound : x.delay ≤ secs 60
    pub from : W
    pub slept :
        w'
        ≡ net.sleep
            (net.on_event
              (seen_deadline net deadline from)
              (retry attempt (min (x.delay / 1_000_000) (2 ^ 64 - 1)) (display x.reason)))
            x.delay
    pub in_time : (d : ℕ) → deadline ≡ some d → (net.clock from).0 + x.delay < d

  -- A run of the loop from a state, with its retries.
  pub data Runs : Attempt → W → List Backoff → ChatResult → W → Type 0 where
    ends :
        {a : Attempt} {w : W} (r : ChatResult) (w' : W)
        → round_of a w ≡ returned r w'
        → Runs a w [] r w'
    goes_on :
        {a : Attempt} {w : W} (x : Backoff) (a' : Attempt) (w' : W) {log : List Backoff}
        {r : ChatResult} {w'' : W}
        → round_of a w ≡ retried x a' w'
        → Runs a' w' log r w''
        → Runs a w (x ∷ log) r w''

  -- Every retry of a run is sound.
  abbrev pub AreRetries :
      {a : Attempt} {w : W} {log : List Backoff} {r : ChatResult} {w' : W}
      → Runs a w log r w'
      → Type 0
  AreRetries (ends r w' e) = Unit
  AreRetries (goes_on {a = a} x a' w' e later) = IsRetry a.attempt x w' × AreRetries later

  abbrev pub OnRetried : (Backoff → Attempt → W → Type 0) → Round W → Type 0
  OnRetried P (returned r w) = Unit
  OnRetried P (retried x a w) = P x a w

  -- What a round that goes on leaves.
  pub record IsNext (a : Attempt) (x : Backoff) (a' : Attempt) (w' : W) : Type 0 where
    pub counted : a'.attempt ≡ suc a.attempt
    pub more : a.attempt < attempts config
    pub timed : a'.timeouts ≡ (if is_timeout x.reason then 1 else 0) + a.timeouts
    pub once : is_timeout x.reason ≡ true → a.timeouts ≡ 0
    pub sound : IsRetry a.attempt x w'

  -- How the loop that gives `outcome` ends: its retries, its result, and what bounds the retries.
  pub record IsEnded (a : Attempt) (w : W) (outcome : Option (ChatResult × W)) : Type 0 where
    pub log : List Backoff
    pub result : ChatResult
    pub world : W
    pub run : Runs a w log result world
    pub returns : outcome ≡ some (result, world)
    pub sound : AreRetries run
    pub few : length log + a.attempt ≤ attempts config
    pub one_timeout : timeouts log + a.timeouts ≤ 1

  module _ (drawn : (w : W) (n : ℕ) → (net.random_range w n).0 ≤ n) where
    -- The record of a retry that `back_off` keeps.
    abbrev back_off_of : Attempt → W → GatewayError → Backoff
    back_off_of a w err =
        let (delay, w1) = backoff_delay net config deadline a.attempt (retry_after_secs err) w in
        record { reason = err; delay = delay }
