-- ===== src/Gateway/Status/Retryable.antt =====
-- Which responses the client tries again (`try_once`, src/llm/client.rs).
use web_agent_research.Prelude.{
  ltb, ◌&&◌, not, ◌||◌, ◌==◌, true, false, Bool-cases, if_true, if_false, leb, leb→le, inl, inr,
  arith, refl, ◌∙◌, ℕ, ◌≤◌, ◌<◌, ◌≡◌, refl, ◌∙◌, ◌≢◌, ◌↔◌, ◌⊎◌, inl, inr, true, false, not, ◌||◌,
  Option, List, [], arith, Text, leb, ◌==◌, leb→le, if_true, if_false, Bool-cases, length,
}
use web_agent_research.Llm.{
  refused_with, GatewayError, auth, forbidden, server, client, is_retryable,
}
use web_agent_research.Llm.Errors.{error_message_bound}
use web_agent_research.Gateway.Status.{
  Response, Format, answered, response_result, sent_result, error_of, bytes_or_default,
}

-- The text that an error carries, where it has one from the response's body.
abbrev detail_length : GatewayError → ℕ
detail_length (forbidden detail) = length detail
detail_length (server status detail wait) = length detail
detail_length (client status detail) = length detail
detail_length _ = 1

-- An error status, as the error that it becomes.
pub record IsStatusError (status : ℕ) (err : GatewayError) : Type 0 where
  pub retried :
      (is_retryable err ≡ true)
      ↔ ((status ≡ 429) ⊎ ((500 ≤ status) × ((status ≢ 501) × (status ≢ 505))))
  pub has_detail : 1 ≤ detail_length err
  pub short_detail : detail_length err ≤ 301

not_retried :
    (status : ℕ) (err : GatewayError)
    → is_retryable err ≡ false
    → detail_length err ≤ 301
    → 1 ≤ detail_length err
    → ((status ≡ 429) ⊎ ((500 ≤ status) × ((status ≢ 501) × (status ≢ 505))) → ⊥)
    → IsStatusError status err
not_retried status err e short long h = record {
  retried = ((λ t. absurd (ground arith)), (λ c. absurd (h c)));
  has_detail = long;
  short_detail = short;
}

server_retried :
    (status : ℕ)
    → 500 ≤ status
    → (not (status == 501 || status == 505) ≡ true)
      ↔ ((status ≡ 429) ⊎ ((500 ≤ status) × ((status ≢ 501) × (status ≢ 505))))
server_retried status h = ground arith

module _ {S : Type 0} (decode : List ℕ → Text) (pointer : Text → Option Text)
    (parse_http_date : Text → Option ℕ) (format : Format S) where
  error_of-IsStatusError :
      (now : ℕ) (r : Response)
      → r.status ≢ 429
      → IsStatusError r.status (error_of decode pointer parse_http_date format now r)
  unfolding is_retryable
  error_of-IsStatusError now r other =
      let bound = error_message_bound pointer (decode (bytes_or_default r.body)) in
      elim (Bool-cases (r.status == 403)) [
        | inl e ↦ rw e (not_retried r.status _ refl bound.1 bound.0 (λ c. ground arith))
        | inr e ↦ elim (Bool-cases (leb 500 r.status)) [
          | inl le ↦
              rw (e, le)
                (record {
                  retried = server_retried r.status (leb→le 500 r.status le);
                  has_detail = bound.0;
                  short_detail = bound.1;
                })
          | inr lt ↦ rw (e, lt) (not_retried r.status _ refl bound.1 bound.0 (λ c. ground arith))
        ]
      ]

  -- A response of a status from 400 to 599 is an error whatever its body: the client tries again
  -- exactly on 429 and on the 5xx other than 501 and 505, and the text it keeps of the body is not
  -- empty and has at most 301 characters.
  pub error_status :
      (now : ℕ) (r : Response)
      → 400 ≤ r.status
      → r.status < 600
      → (err : GatewayError) × ((sent_result decode pointer parse_http_date format now (answered r)
            ≡ (refused_with err, []))
          × IsStatusError r.status err)
  unfolding sent_result response_result is_retryable
  error_status now r low high =
      let in_range : (leb 400 r.status && ltb r.status 600) ≡ true = ground arith in
      elim (Bool-cases (r.status == 401)) [
        | inl e ↦ (
          auth,
          (
            if_true _ _ e,
            not_retried r.status auth refl (omega arith) (omega arith) (λ c. ground arith),
          ),
        )
        | inr e ↦ elim (Bool-cases (r.status == 429)) [
          | inl t ↦ (
            _,
            (
              if_false _ _ e ∙ if_true _ _ t,
              record {
                retried = ((λ h. inl (ground arith)), (λ h. refl));
                has_detail = omega arith;
                short_detail = omega arith;
              },
            ),
          )
          | inr f ↦ (
            _,
            (
              if_false _ _ e ∙ if_false _ _ f ∙ if_true _ _ in_range,
              error_of-IsStatusError now r (ground arith),
            ),
          )
        ]
      ]
