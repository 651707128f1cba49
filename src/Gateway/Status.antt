-- ===== src/Gateway/Status.antt =====
-- src/llm/client.rs: one attempt (`try_once`), from the request that was sent to its result. What
-- `reqwest` gives is data; the wire format is a record of its parsers (`Format`); `serde_json`,
-- `httpdate` and the UTF-8 decoding are parameters.
pub mod Retryable
use web_agent_research.Prelude.{
  ℕ, zero, suc, ◌+◌, ◌-◌, ◌*◌, ◌/◌, ◌%◌, ◌^◌, ◌≤◌, ◌<◌, min, max, ◌≡◌, refl, sym, ap, ◌∙◌, ◌≢◌, ◌↔◌,
  ◌⊎◌, inl, inr, Bool, true, false, not, ◌&&◌, ◌||◌, Option, none, some, List, [], ◌∷◌, ◌++◌, map,
  append-nil, append_assoc, arith, Text, codes, is_empty, text_eq, text_eq_iff, contains, join,
  is_whitespace, is_blank, show, ltb, leb, ◌==◌, if◌then◌else◌, ltb→lt, lt→ltb, leb→le, if_true,
  if_false, ==_iff, Bool-cases, Option-cases, length, take, drop, get_elem?, length-append,
  take-append-drop, length-take, length-drop, length-map, concat, All, All-append,
}
use web_agent_research.Search.{trim}
use web_agent_research.Budget.{secs}
use web_agent_research.Llm.{
  ChatResult, replied, refused_with, GatewayError, auth, forbidden, rate_limited, server, client,
  timeout, transport, invalid_request,
}
use web_agent_research.Llm.Errors.{error_message}
use web_agent_research.Stream.{LlmEvent, Assembler, ChunkRead, is_event_stream, read_sse}

pub record ReqwestError : Type 0 where
  pub is_timeout : Bool
  pub is_builder : Bool
  pub detail : Text
  pub causes : List Text

-- A body read whole.
pub data BodyRead : Type 0 where
  arrived : List ℕ → BodyRead
  lost : ReqwestError → BodyRead

-- The headers are `none` where they are missing or no text; the body is read whole or in chunks.
pub record Response : Type 0 where
  pub status : ℕ
  pub retry_after : Option Text
  pub content_type : Option Text
  pub body : BodyRead
  pub reads : List ChunkRead

pub data Sent : Type 0 where
  unsent : ReqwestError → Sent
  answered : Response → Sent

pub record Format (S : Type 0) : Type 0 where
  pub assembler : Assembler S
  pub parse_body : List ℕ → ChatResult

abbrev with_causes : Text → List Text → Text
with_causes detail [] = detail
with_causes detail (cause ∷ causes) = with_causes (detail ++ (codes ": " ++ cause)) causes

unfoldable pub map_reqwest_error : ReqwestError → GatewayError
map_reqwest_error err =
    let text = with_causes err.detail err.causes in
    if err.is_timeout
    then timeout
    else if err.is_builder
    then invalid_request text
    else transport text

-- `parse::<u64>()`: decimal digits, at least one, after an optional `+`.
digits : Text → ℕ → Option ℕ
digits [] n = some n
digits (c ∷ s) n =
    let rest = digits s (n * 10 + (c - b'0')) in if leb b'0' c && leb c b'9' then rest else none

abbrev in_u64 : Option ℕ → Option ℕ
in_u64 none = none
in_u64 (some n) = if ltb n (2 ^ 64) then some n else none

parse_u64 : Text → Option ℕ
unfolding digits
parse_u64 [] = none
parse_u64 (c ∷ []) = in_u64 (digits (c ∷ []) 0)
parse_u64 (c ∷ d ∷ s) = in_u64 (if c == b'+' then digits (d ∷ s) 0 else digits (c ∷ d ∷ s) 0)

-- A date's distance from now in whole seconds, rounded up; a date in the past is now.
abbrev seconds_until : ℕ → ℕ → ℕ
seconds_until now at =
    (at - now) / 1_000_000_000 + (if (at - now) % 1_000_000_000 == 0 then 0 else 1)

abbrev date_or : (Text → Option ℕ) → ℕ → Text → Option ℕ → Option ℕ
date_or parse_http_date now value (some s) = some s
date_or parse_http_date now value none = elim (parse_http_date value) [
  | none ↦ none
  | some at ↦ some (seconds_until now at)
]

unfoldable pub parse_retry_after : (Text → Option ℕ) → ℕ → Option Text → Option ℕ
unfolding parse_u64 trim
parse_retry_after parse_http_date now none = none
parse_retry_after parse_http_date now (some header) =
    date_or parse_http_date now (trim header) (parse_u64 (trim header))

abbrev bytes_or_default : BodyRead → List ℕ
bytes_or_default (arrived raw) = raw
bytes_or_default (lost err) = []

module _ {S : Type 0} (decode : List ℕ → Text) (pointer : Text → Option Text)
    (parse_http_date : Text → Option ℕ) (format : Format S) where
  abbrev wait_of : ℕ → Response → Option ℕ
  wait_of now r = parse_retry_after parse_http_date now r.retry_after

  -- A response of a status from 400 to 599, other than 401 and 429.
  abbrev error_of : ℕ → Response → GatewayError
  error_of now r =
      let detail = error_message pointer (decode (bytes_or_default r.body)) in
      let wait = if r.status == 503 || r.status == 529 then wait_of now r else none in
      if r.status == 403
      then forbidden detail
      else if leb 500 r.status
      then server r.status detail wait
      else client r.status detail

  abbrev whole_body : BodyRead → ChatResult
  whole_body (lost err) = refused_with (map_reqwest_error err)
  whole_body (arrived raw) = format.parse_body raw

  -- A response, with the time at which it came.
  unfoldable pub response_result : ℕ → Response → ChatResult × List LlmEvent
  response_result now r =
      if r.status == 401
      then (refused_with auth, [])
      else if r.status == 429
      then (refused_with (rate_limited (wait_of now r)), [])
      else if leb 400 r.status && ltb r.status 600
      then (refused_with (error_of now r), [])
      else if is_event_stream r.content_type
      then read_sse decode format.assembler r.reads
      else (whole_body r.body, [])

  unfoldable pub sent_result : ℕ → Sent → ChatResult × List LlmEvent
  unfolding response_result
  sent_result now (unsent err) = (refused_with (map_reqwest_error err), [])
  sent_result now (answered r) = response_result now r

  -- `try_once`: `send` has the attempt's timeout; every event goes to the caller's closure.
  unfoldable pub try_once :
      {W : Type 0}
      → (W → Option ℕ → Sent × W)
      → (W → ℕ × W)
      → (W → LlmEvent → W)
      → W
      → Option ℕ
      → ChatResult × W
  unfolding sent_result
  try_once send now on_event w limit =
      let (sent, w1) = send w limit in
      let (at, w2) = now w1 in
      let (result, events) = sent_result at sent in (result, each on_event w2 events)
    where
      each : {W : Type 0} → (W → LlmEvent → W) → W → List LlmEvent → W
      each on_event w [] = w
      each on_event w (event ∷ events) = each on_event (on_event w event) events
