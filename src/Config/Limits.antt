-- ===== src/Config/Limits.antt =====
-- Bounds on what src/web/search/governor/config.rs configures: suspensions, gaps, limits.
use web_agent_research.Prelude.{
  ℕ, ◌/◌, ◌≤◌, ◌<◌, ◌≡◌, refl, ◌≢◌, ◌↔◌, ◌⊎◌, inl, inr, Option, none, some, arith, Text, ◌==◌,
  Bool-cases,
}
use web_agent_research.Search.{
  SearchProvider, SearchProviderError, empty_query, too_many_queries, challenge, timeout, upstream,
  suspended, throttled, all_failed,
}
use web_agent_research.Config.{
  Env, Suspension, suspension_for, max_suspension, upstream_secs, timeout_secs, status_suspension,
  resolve_gap, pick_gap, millis,
}

-- No suspension that an error maps to is longer than the longest configured one, whatever
-- `Retry-After` the server sends.
pub suspension_for-le-max :
    (env : Env) (e : SearchProviderError) {s : Suspension}
    → suspension_for env e ≡ some s
    → s.duration ≤ max_suspension env
unfolding suspension_for max_suspension
suspension_for-le-max env (challenge p d) h = ground arith
suspension_for-le-max env (upstream p d status (some secs)) h = ground arith
suspension_for-le-max env (upstream p d (some status) none) h = ground arith
suspension_for-le-max env (upstream p d none none) h = ground arith
suspension_for-le-max env (timeout p q) h = ground arith
suspension_for-le-max env empty_query h = ground arith
suspension_for-le-max env (too_many_queries g m) h = ground arith
suspension_for-le-max env (suspended p r s) h = ground arith
suspension_for-le-max env (throttled p d) h = ground arith
suspension_for-le-max env (all_failed f c) h = ground arith

-- The errors that suspend: a bot wall; a response with `Retry-After`; status 403 or 429; a 5xx
-- status or a timeout whose configured seconds are not 0.
pub data Suspends (env : Env) : SearchProviderError → Type 0 where
  by_challenge : {p : SearchProvider} {d : Text} → Suspends env (challenge p d)
  by_retry_after :
      {p : SearchProvider} {d : Text} {status : Option ℕ} {secs : ℕ}
      → Suspends env (upstream p d status (some secs))
  by_status :
      {p : SearchProvider} {d : Text} {status : ℕ}
      → (status ≡ 403) ⊎ (status ≡ 429)
      → Suspends env (upstream p d (some status) none)
  by_server_error :
      {p : SearchProvider} {d : Text} {status : ℕ}
      → 500 ≤ status
      → status ≤ 599
      → 0 < upstream_secs env
      → Suspends env (upstream p d (some status) none)
  by_timeout : {p : SearchProvider} {q : Text} → 0 < timeout_secs env → Suspends env (timeout p q)

Suspends→some : (env : Env) (e : SearchProviderError) → Suspends env e → suspension_for env e ≢ none
unfolding suspension_for
Suspends→some env e by_challenge = λ h. ground arith
Suspends→some env e by_retry_after = λ h. ground arith
Suspends→some env e (by_status (inl h)) = λ k. ground arith
Suspends→some env e (by_status (inr h)) = λ k. ground arith
Suspends→some env e (by_server_error a b c) = λ k. ground arith
Suspends→some env e (by_timeout h) = λ k. ground arith

status-Suspends :
    (env : Env) (p : SearchProvider) (d : Text) (status : ℕ)
    → status_suspension env (some status) ≢ none
    → Suspends env (upstream p d (some status) none)
unfolding status_suspension
status-Suspends env p d status h = elim (Bool-cases (status == 403)) [
  | inl e ↦ by_status (inl (ground arith))
  | inr e ↦ elim (Bool-cases (status == 429)) [
    | inl f ↦ by_status (inr (ground arith))
    | inr f ↦ by_server_error (ground arith) (ground arith) (ground arith)
  ]
]

some→Suspends : (env : Env) (e : SearchProviderError) → suspension_for env e ≢ none → Suspends env e
unfolding suspension_for
some→Suspends env (challenge p d) h = by_challenge
some→Suspends env (upstream p d status (some secs)) h = by_retry_after
some→Suspends env (upstream p d (some status) none) h = status-Suspends env p d status h
some→Suspends env (upstream p d none none) h = absurd (h refl)
some→Suspends env (timeout p q) h = by_timeout (ground arith)
some→Suspends env empty_query h = absurd (h refl)
some→Suspends env (too_many_queries g m) h = absurd (h refl)
some→Suspends env (suspended p r s) h = absurd (h refl)
some→Suspends env (throttled p d) h = absurd (h refl)
some→Suspends env (all_failed f c) h = absurd (h refl)

-- An error maps to a suspension exactly when it is of one of the kinds above; so a transport
-- failure without a status, another status, and every error that is no engine's answer never
-- suspend an engine.
pub suspension_for_iff :
    (env : Env) (e : SearchProviderError) → (suspension_for env e ≢ none) ↔ Suspends env e
suspension_for_iff env e = (some→Suspends env e, Suspends→some env e)

pick_gap_ms :
    (draw : ℕ → ℕ → ℕ) (a b : ℕ)
    → ((lo hi : ℕ) → lo ≤ hi → (lo ≤ draw lo hi) × (draw lo hi ≤ hi))
    → a ≤ b
    → (millis a ≤ pick_gap draw (millis a) (millis b))
      × (pick_gap draw (millis a) (millis b) ≤ millis b)
unfolding pick_gap
pick_gap_ms draw a b h le =
    let ea : millis a / 1_000_000 ≡ a = omega arith in
    let eb : millis b / 1_000_000 ≡ b = omega arith in rw (ea, eb) (ground (arith, h a b le))

-- A pacing gap that is drawn for an engine lies between its configured minimum and maximum, if
-- the generator stays in the range that it is given.
pub pick_gap_bounds :
    (env : Env) (p : SearchProvider) (draw : ℕ → ℕ → ℕ)
    → ((lo hi : ℕ) → lo ≤ hi → (lo ≤ draw lo hi) × (draw lo hi ≤ hi))
    → ((resolve_gap env p).0 ≤ pick_gap draw (resolve_gap env p).0 (resolve_gap env p).1)
      × (pick_gap draw (resolve_gap env p).0 (resolve_gap env p).1 ≤ (resolve_gap env p).1)
unfolding resolve_gap pick_gap
pick_gap_bounds env p draw h = pick_gap_ms draw _ _ h (omega arith)
