-- ===== src/Llm/Errors.antt =====
-- src/llm/client.rs: the texts of a gateway error, and the errors that a gateway puts into a body.
use web_agent_research.Prelude.{
  Bool-cases, leb→le, inl, inr, length-append, length-take, ℕ, ◌≤◌, Bool, false, ◌||◌, Option, none,
  some, List, [], ◌∷◌, ◌++◌, arith, Text, is_empty, contains, show, leb, if◌then◌else◌, length,
  take, length-append, length-take, codes,
}
use web_agent_research.Search.{trim}
use web_agent_research.Llm.{
  GatewayError, missing_api_key, auth, forbidden, rate_limited, server, client, error_body, timeout,
  transport, invalid_request, parse, empty_choices, refused,
}

abbrev pub max_detail_chars : ℕ
max_detail_chars = 300

unfoldable pub retry_after_secs : GatewayError → Option ℕ
retry_after_secs (rate_limited retry_after) = retry_after
retry_after_secs (server status detail retry_after) = retry_after
retry_after_secs _ = none

-- `Display`
unfoldable pub display : GatewayError → Text
unfolding show
display missing_api_key = codes "GATEWAY_API_KEY is not set"
display auth = codes "gateway auth failed (bad API key)"
display (forbidden detail) = codes "gateway refused access (HTTP 403): " ++ detail
display (rate_limited (some s)) =
    codes "gateway rate-limited, retry after " ++ (show s ++ codes "s")
display (rate_limited none) = codes "gateway rate-limited"
display (server status detail retry_after) =
    codes "gateway server error (HTTP " ++ (show status ++ (codes "): " ++ detail))
display (client status detail) =
    codes "gateway client error (HTTP " ++ (show status ++ (codes "): " ++ detail))
display (error_body kind message retryable) =
    codes "gateway returned an error body (" ++ (kind ++ (codes "): " ++ message))
display timeout = codes "gateway request timed out"
display (transport detail) = codes "gateway transport error: " ++ detail
display (invalid_request detail) = codes "gateway request is invalid: " ++ detail
display (parse detail) = codes "gateway response parse error: " ++ detail
display empty_choices = codes "gateway returned no choices"
display (refused text) = codes "model refused the turn: " ++ text

-- `…` is U+2026.
unfoldable pub bounded : Text → Text
bounded text =
    let trimmed = trim text in
    if leb (length trimmed) max_detail_chars
    then trimmed
    else take max_detail_chars trimmed ++ 8230 ∷ []

-- What the code reads of an `error` value (`serde_json::Value`): its texts under `type`, `code` and
-- `message`, and itself where it is a text.
pub record ErrorValue : Type 0 where
  pub kind : Option Text
  pub code : Option Text
  pub message : Option Text
  pub text : Option Text

abbrev retryable_error_kinds : List Text
retryable_error_kinds =
    codes "overloaded_error"
    ∷ codes "api_error"
    ∷ codes "rate_limit_error"
    ∷ codes "rate_limit_exceeded"
    ∷ codes "server_error"
    ∷ []

abbrev or_else : Option Text → Option Text → Option Text
or_else none t = t
or_else (some s) t = some s

abbrev kind_retryable : Option Text → Bool
kind_retryable none = false
kind_retryable (some kind) = contains retryable_error_kinds kind

abbrev unwrap_or : Text → Option Text → Text
unwrap_or t none = t
unwrap_or t (some s) = s

-- `map(bounded)`, the empty text replaced.
abbrev pub detail_of : Text → Text
detail_of message =
    let short = bounded message in if is_empty short then codes "no error detail" else short

abbrev message_detail : Option Text → Text
message_detail none = codes "no error detail"
message_detail (some message) = detail_of message

unfoldable pub error_object : ErrorValue → GatewayError
unfolding bounded
error_object error =
    error_body (unwrap_or (codes "unknown") (or_else error.kind error.code))
      (message_detail (or_else error.message error.text))
      (kind_retryable error.kind || kind_retryable error.code)

-- `error_message`, with `pointer` for the text at `/error/message` of a JSON body.
unfoldable pub error_message : (Text → Option Text) → Text → Text
unfolding bounded
error_message pointer body = detail_of (unwrap_or body (pointer body))

cut_bound :
    (t : Text)
    → length (if leb (length t) max_detail_chars then t else take max_detail_chars t ++ 8230 ∷ [])
      ≤ 301
cut_bound t = elim (Bool-cases (leb (length t) max_detail_chars)) [
  | inl e ↦ rw e (omega (arith, leb→le (length t) max_detail_chars e))
  | inr e ↦
      rw (e, length-append (take max_detail_chars t) (8230 ∷ []), length-take max_detail_chars t)
        (omega arith)
]

bounded_short : (text : Text) → length (bounded text) ≤ 301
unfolding bounded
bounded_short text = cut_bound (trim text)

replaced_bound :
    (short : Text)
    → length short ≤ 301
    → (1 ≤ length (if is_empty short then codes "no error detail" else short))
      × (length (if is_empty short then codes "no error detail" else short) ≤ 301)
replaced_bound [] h = (omega arith, omega arith)
replaced_bound (c ∷ short) h = (omega arith, h)

-- The text of an upstream error is never empty, and never longer than the bound and its ellipsis.
pub error_message_bound :
    (pointer : Text → Option Text) (body : Text)
    → (1 ≤ length (error_message pointer body)) × (length (error_message pointer body) ≤ 301)
unfolding error_message
error_message_bound pointer body =
    replaced_bound (bounded (unwrap_or body (pointer body))) (bounded_short _)
