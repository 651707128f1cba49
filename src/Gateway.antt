-- ===== src/Gateway.antt =====
-- src/llm/client.rs: the gateway client's errors, its backoff and the loop of a call's attempts. A
-- `Duration` and an `Instant` are numbers of nanoseconds. What the loop calls is a field of `Net`:
-- the clock, one attempt (`try_once`, in Gateway/Status.antt), the random number generator, the
-- sleep and the caller's closure for events.
pub mod Retries
pub mod GivingUp
pub mod Status
use web_agent_research.Prelude.{
  ℕ, zero, suc, ◌+◌, ◌-◌, ◌*◌, ◌/◌, ◌%◌, ◌^◌, ◌≤◌, ◌<◌, min, max, ◌≡◌, refl, sym, ap, ◌∙◌, ◌≢◌, ◌↔◌,
  ◌⊎◌, inl, inr, Bool, true, false, not, ◌&&◌, ◌||◌, Option, none, some, List, [], ◌∷◌, ◌++◌, map,
  append-nil, append_assoc, arith, Text, is_empty, text_eq, text_eq_iff, contains, join,
  is_whitespace, is_blank, show, ltb, leb, ◌==◌, if◌then◌else◌, ltb→lt, lt→ltb, leb→le, if_true,
  if_false, ==_iff, Bool-cases, Option-cases, length, take, drop, get_elem?, length-append,
  take-append-drop, length-take, length-drop, length-map, concat, All, All-append, codes,
}
use web_agent_research.Budget.{secs}
use web_agent_research.Llm.Errors.{display, retry_after_secs}
use web_agent_research.Stream.{LlmEvent, retry}
use web_agent_research.Llm.{
  ChatResult, replied, refused_with, GatewayError, missing_api_key, timeout, auth, forbidden,
  rate_limited, server, client, error_body, transport, invalid_request, parse, empty_choices,
  refused, is_retryable,
}

-- `1u64 << attempt.saturating_sub(1).min(3)`
unfoldable pub backoff_ceiling : ℕ → ℕ
backoff_ceiling attempt = secs (2 ^ min (attempt - 1) 3)

pub record Net (W : Type 0) : Type 0 where
  pub clock : W → ℕ × W
  pub try_once : W → Option ℕ → ChatResult × W
  pub random_range : W → ℕ → ℕ × W
  pub sleep : W → ℕ → W
  pub on_event : W → LlmEvent → W

pub record GatewayConfig : Type 0 where
  pub api_key : Text
  pub max_attempts : ℕ
  pub request_timeout : ℕ

-- The variables of the loop.
pub record Attempt : Type 0 where
  pub attempt : ℕ
  pub timeouts : ℕ

-- What a round that goes on did: the error of its try, and the delay.
pub record Backoff : Type 0 where
  pub reason : GatewayError
  pub delay : ℕ

pub data Round (W : Type 0) : Type 0 where
  returned : ChatResult → W → Round W
  retried : Backoff → Attempt → W → Round W

abbrev pub is_timeout : GatewayError → Bool
is_timeout timeout = true
is_timeout _ = false

abbrev pub first_attempt : Attempt
first_attempt = record { attempt = 1; timeouts = 0 }

abbrev pub attempts : GatewayConfig → ℕ
attempts config = max config.max_attempts 1

-- `left <= delay`, where there is a deadline.
abbrev pub too_late : Option ℕ → ℕ → Bool
too_late none delay = false
too_late (some left) delay = leb left delay

-- The attempt's own timeout, `none` where no time is left.
abbrev pub attempt_timeout : GatewayConfig → Option ℕ → Option (Option ℕ)
attempt_timeout config none = some none
attempt_timeout config (some left) =
    if left == 0
    then none
    else if ltb left config.request_timeout
    then some (some left)
    else some none

-- A round's end, and `more`, the loop after it.
abbrev pub after_round :
    {W : Type 0} → (Attempt → W → Option (ChatResult × W)) → Round W → Option (ChatResult × W)
after_round more (returned result w) = some (result, w)
after_round more (retried x a w) = more a w

module _ {W : Type 0} (net : Net W) (config : GatewayConfig) (deadline : Option ℕ) where
  abbrev pub time_left : W → Option ℕ × W
  time_left w = elim deadline [
    | none ↦ (none, w)
    | some d ↦ (some (d - (net.clock w).0), (net.clock w).1)
  ]

  abbrev pub backoff_delay : ℕ → Option ℕ → W → ℕ × W
  backoff_delay attempt (some s) w = (secs (min s 60), w)
  backoff_delay attempt none w =
      let (ms, w') = net.random_range w (backoff_ceiling attempt / 1_000_000) in
      (ms * 1_000_000, w')

  -- The retry that a failed try allows, if its delay ends before the deadline.
  abbrev pub back_off : Attempt → W → GatewayError → Round W
  back_off a w err =
      let (delay, w1) = backoff_delay a.attempt (retry_after_secs err) w in
      let (left, w2) = time_left w1 in
      let event = retry a.attempt (min (delay / 1_000_000) (2 ^ 64 - 1)) (display err) in
      if too_late left delay
      then returned (refused_with err) w2
      else retried (record { reason = err; delay = delay }) (record a { attempt = a.attempt + 1 })
          (net.sleep (net.on_event w2 event) delay)

  abbrev pub count_timeout : Attempt → GatewayError → Attempt
  count_timeout a err = record a {
    timeouts = if is_timeout err then a.timeouts + 1 else a.timeouts;
  }

  -- `!err.is_retryable() || timeout_spent || attempt >= attempts`, at the counted timeouts.
  abbrev pub stops : Attempt → GatewayError → Bool
  stops a err =
      not (is_retryable err)
      || ((is_timeout err && ltb 1 a.timeouts) || leb (attempts config) a.attempt)

  abbrev pub settle : Attempt → ChatResult × W → Round W
  settle a (replied reply, w) = returned (replied reply) w
  settle a (refused_with err, w) =
      let counted = count_timeout a err in
      if stops counted err then returned (refused_with err) w else back_off counted w err

  abbrev pub try_within : Attempt → W → Option (Option ℕ) → Round W
  try_within a w none = returned (refused_with timeout) w
  try_within a w (some limit) = settle a (net.try_once w limit)

  -- A round of the loop.
  unfoldable pub round : Attempt → W → Round W
  round a w = let (left, w1) = time_left w in try_within a w1 (attempt_timeout config left)

  -- The loop; `none` is out of fuel.
  unfoldable pub chat_loop : ℕ → Attempt → W → Option (ChatResult × W)
  unfolding round
  chat_loop zero a w = none
  chat_loop (suc fuel) a w = after_round (chat_loop fuel) (round a w)

  -- `chat_observed`; the request it builds once is what `net.try_once` sends.
  unfoldable pub chat_observed : W → Option (ChatResult × W)
  chat_observed w =
      if is_empty config.api_key
      then some (refused_with missing_api_key, w)
      else chat_loop (attempts config) first_attempt w
