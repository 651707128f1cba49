-- ===== src/Dispatch/Pairing.antt =====
-- `dispatch_turn` and `resolve_call_ids` (src/research/agent_loop/dispatch.rs): one result for each
-- call.
use web_agent_research.Prelude.{
  [], ℕ, ◌+◌, ◌-◌, ◌≤◌, max, ◌≡◌, refl, ap, inl, inr, Bool, true, false, not, Option, none, some,
  List, ◌∷◌, ◌++◌, map, arith, Text, is_empty, contains, leb, Bool-cases, length, length-append,
  sym, append-nil, ◌∙◌, append_assoc,
}
use web_agent_research.Budget.{LoopBudget}
use web_agent_research.Llm.{RequestedToolCall}
use web_agent_research.Context.{ToolMessage}
use web_agent_research.ToolResult.{
  FailureKind, dispatch, execution, ToolResult, search, fetch, search_note, search_blocked,
  already_fetched, failed,
}
use web_agent_research.Dispatch.{
  Tools, TurnOutcome, CallFailure, dispatch_call, execute_call, settle, over_cap, disallowed,
  timed_out, finished, dispatch_calls, dispatch_turn, resolve_call_ids, resolve_from, no_outcome,
}

abbrev pub call_ids : List RequestedToolCall → List Text
call_ids = map (λ c. c.id)

abbrev pub result_ids : List ToolMessage → List Text
result_ids = map (λ r. r.id)

map-append {ℓ κ} :
    {A : Type ℓ} {B : Type κ} (f : A → B) (xs ys : List A) → map f (xs ++ ys) ≡ map f xs ++ map f ys
map-append f [] ys = refl
map-append f (x ∷ xs) ys = ap (◌∷◌ (f x)) (map-append f xs ys)

-- Whether the outcome's last failure agrees with its list of failures.
abbrev pub is_some {ℓ} : {A : Type ℓ} → Option A → Bool
is_some none = false
is_some (some a) = true

is_empty-snoc {ℓ} : {A : Type ℓ} (xs : List A) (x : A) → is_empty (xs ++ x ∷ []) ≡ false
is_empty-snoc [] x = refl
is_empty-snoc (y ∷ xs) x = refl

-- What one call adds to the outcome: its result, `ran` evidences at most, and a failure together
-- with its entry.
pub record IsAnswered (call : RequestedToolCall) (ran : ℕ) (o o' : TurnOutcome) : Type 0 where
  pub results : result_ids o'.results ≡ result_ids o.results ++ call.id ∷ []
  pub calls : o'.calls ≡ o.calls
  pub evidence : length o'.evidence ≡ length o.evidence + ran
  pub failures :
      is_some o.failure ≡ not (is_empty o.failures)
      → is_some o'.failure ≡ not (is_empty o'.failures)
  pub searches : o'.successful_searches ≤ o.successful_searches + ran

length-snoc {ℓ} : {A : Type ℓ} (xs : List A) (x : A) → length (xs ++ x ∷ []) ≡ length xs + 1
length-snoc xs x = length-append xs (x ∷ [])

failures-snoc :
    (k : FailureKind) (xs : List CallFailure) (x : CallFailure)
    → is_some (some k) ≡ not (is_empty (xs ++ x ∷ []))
failures-snoc k xs x = rw (is_empty-snoc xs x)

module _ (turn : ℕ) (budget : LoopBudget) (nonce : Text) (call : RequestedToolCall)
    (o : TurnOutcome) where
  pub over_cap-IsAnswered : (cap : ℕ) → IsAnswered call 0 o (over_cap budget cap call o)
  over_cap-IsAnswered cap = record {
    results = map-append _ o.results _;
    calls = refl;
    evidence = omega arith;
    failures = λ h. h;
    searches = omega arith;
  }

  pub disallowed-IsAnswered :
      (allowed : List Text) → IsAnswered call 0 o (disallowed budget allowed call o)
  disallowed-IsAnswered allowed = record {
    results = map-append _ o.results _;
    calls = refl;
    evidence = omega arith;
    failures = λ h. failures-snoc dispatch o.failures _;
    searches = omega arith;
  }

  timed_out-IsAnswered :
      (timeout : ℕ) → IsAnswered call 1 o (timed_out turn budget nonce timeout call o)
  timed_out-IsAnswered timeout = record {
    results = map-append _ o.results _;
    calls = refl;
    evidence = length-snoc o.evidence _;
    failures = λ h. failures-snoc execution o.failures _;
    searches = omega arith;
  }

  finished-IsAnswered :
      (result : ToolResult) → IsAnswered call 1 o (finished turn budget nonce call result o)
  finished-IsAnswered (search hits status) = record {
    results = map-append _ o.results _;
    calls = refl;
    evidence = length-snoc o.evidence _;
    failures = λ h. h;
    searches = omega arith;
  }
  finished-IsAnswered (search_note note) = record {
    results = map-append _ o.results _;
    calls = refl;
    evidence = length-snoc o.evidence _;
    failures = λ h. h;
    searches = omega arith;
  }
  finished-IsAnswered (fetch evidence from to part parts first served) = record {
    results = map-append _ o.results _;
    calls = refl;
    evidence = length-snoc o.evidence _;
    failures = λ h. h;
    searches = omega arith;
  }
  finished-IsAnswered (already_fetched url first_url parts) = record {
    results = map-append _ o.results _;
    calls = refl;
    evidence = length-snoc o.evidence _;
    failures = λ h. h;
    searches = omega arith;
  }
  finished-IsAnswered (search_blocked detail) = record {
    results = map-append _ o.results _;
    calls = refl;
    evidence = length-snoc o.evidence _;
    failures = λ h. failures-snoc execution o.failures _;
    searches = omega arith;
  }
  finished-IsAnswered (failed tool reason kind) = record {
    results = map-append _ o.results _;
    calls = refl;
    evidence = length-snoc o.evidence _;
    failures = λ h. failures-snoc kind o.failures _;
    searches = omega arith;
  }

module _ {W : Type 0} (tools : Tools W) (turn : ℕ) (allowed : List Text) (budget : LoopBudget)
    (nonce : Text) where
  abbrev pub cap : ℕ
  cap = max budget.max_tools_per_turn 1

  pub settle-IsAnswered :
      (timeout : ℕ) (call : RequestedToolCall) (executed : Option ToolResult) (o : TurnOutcome)
      → IsAnswered call 1 o (settle tools turn allowed budget nonce timeout call executed o)
  settle-IsAnswered timeout call none o = timed_out-IsAnswered turn budget nonce call o timeout
  settle-IsAnswered timeout call (some result) o =
      finished-IsAnswered turn budget nonce call o result

  -- A call past the cap runs nothing; any other runs at most once.
  dispatch_call-IsAnswered :
      (index : ℕ) (call : RequestedToolCall) (w : W) (o : TurnOutcome)
      → (ran : ℕ) × (ran ≤ cap - index)
        × (ran ≤ 1)
        × IsAnswered call ran o (dispatch_call tools turn allowed budget nonce index call w o).1
  unfolding dispatch_call execute_call
  dispatch_call-IsAnswered index call w o = elim (Bool-cases (leb cap index)) [
    | inl e ↦ (0, omega arith, omega arith, rw e (over_cap-IsAnswered turn budget nonce call o cap))
    | inr e ↦ elim (Bool-cases (contains allowed call.name)) [
      | inr u ↦ (
        0,
        omega arith,
        omega arith,
        rw (e, u) (disallowed-IsAnswered turn budget nonce call o allowed),
      )
      | inl u ↦ (1, ground arith, omega arith, rw (e, u) (settle-IsAnswered _ call _ o))
    ]
  ]

  -- The calls from `index` on.
  dispatch_calls_lem :
      (index : ℕ) (calls : List RequestedToolCall) (w : W) (o : TurnOutcome)
      → let o' = (dispatch_calls tools turn allowed budget nonce index calls w o).1 in
        (result_ids o'.results ≡ result_ids o.results ++ call_ids calls)
        × (o'.calls ≡ o.calls)
        × (is_some o.failure ≡ not (is_empty o.failures)
            → is_some o'.failure ≡ not (is_empty o'.failures))
        × (ran : ℕ) × (ran ≤ cap - index)
        × (ran ≤ length calls)
        × (length o'.evidence ≡ length o.evidence + ran)
        × (o'.successful_searches ≤ o.successful_searches + ran)
  unfolding dispatch_calls
  dispatch_calls_lem index [] w o =
      (sym (append-nil _), refl, λ h. h, 0, omega arith, omega arith, omega arith, omega arith)
  dispatch_calls_lem index (call ∷ calls) w o =
      let (ran, bound, once, step) = dispatch_call-IsAnswered index call w o in
      let (w', o') = dispatch_call tools turn allowed budget nonce index call w o in
      let (ids, kept, agree, ran', bound', once', evidence, searches) =
        dispatch_calls_lem (index + 1) calls w' o' in
      let step_evidence = step.evidence in
      let step_searches = step.searches in
      (
        ids
            ∙ ap (λ r. r ++ call_ids calls) step.results
            ∙ append_assoc (result_ids o.results) (call.id ∷ []) (call_ids calls),
        kept ∙ step.calls,
        λ h. agree (step.failures h),
        ran + ran',
        omega arith,
        omega arith,
        omega arith,
        omega arith,
      )

  abbrev pub outcome : List RequestedToolCall → W → TurnOutcome
  outcome calls w = (dispatch_turn tools turn allowed budget nonce calls w).1

  -- A turn's results answer its calls one for one: the same ids in the same order, whether a call
  -- was executed, failed, timed out, was not allowed or was over the cap.
  pub dispatch_turn-result_ids :
      (calls : List RequestedToolCall) (w : W)
      → (result_ids (outcome calls w).results ≡ call_ids (outcome calls w).calls)
        × ((outcome calls w).calls ≡ resolve_call_ids turn calls)
  unfolding dispatch_turn
  dispatch_turn-result_ids calls w =
      let resolved = resolve_call_ids turn calls in
      let (ids, kept, agree, ran, bound, once, evidence, searches) =
        dispatch_calls_lem 0 resolved w (no_outcome resolved) in
      (ids ∙ ap call_ids (sym kept), kept)

  -- The outcome names a failure exactly when its list of failed calls is not empty.
  pub dispatch_turn-failure :
      (calls : List RequestedToolCall) (w : W)
      → is_some (outcome calls w).failure ≡ not (is_empty (outcome calls w).failures)
  unfolding dispatch_turn
  dispatch_turn-failure calls w =
      let resolved = resolve_call_ids turn calls in
      let (ids, kept, agree, ran, bound, once, evidence, searches) =
        dispatch_calls_lem 0 resolved w (no_outcome resolved) in
      agree refl

resolve_from_again :
    (turn index index' : ℕ) (calls : List RequestedToolCall)
    → resolve_from turn index' (resolve_from turn index calls) ≡ resolve_from turn index calls
unfolding resolve_from
resolve_from_again turn index index' [] = refl
resolve_from_again turn index index' (call ∷ calls) =
    let rest = resolve_from_again turn (index + 1) (index' + 1) calls in
    elim (Bool-cases (is_empty call.id)) [ inl e ↦ rw (e, rest) | inr e ↦ rw (e, e, rest) ]

-- Resolving ids that are resolved changes nothing, so the ids of the `model.replied` Event, which
-- the runner resolves, are those of the transcript, which the dispatch resolves again.
pub resolve_call_ids_again :
    (turn : ℕ) (calls : List RequestedToolCall)
    → resolve_call_ids turn (resolve_call_ids turn calls) ≡ resolve_call_ids turn calls
unfolding resolve_call_ids
resolve_call_ids_again turn calls = resolve_from_again turn 0 0 calls
