-- ===== src/Dispatch/Executed.antt =====
-- Which calls of a turn `dispatch_turn` (src/research/agent_loop/dispatch.rs) executes.
use web_agent_research.Prelude.{
  ℕ, zero, suc, ◌+◌, ◌-◌, ◌≤◌, ◌≡◌, refl, sym, ap, ◌∙◌, inl, inr, true, false, Option, none, some,
  List, [], ◌∷◌, ◌++◌, append-nil, append_assoc, arith, Text, contains, leb, if◌then◌else◌,
  Bool-cases, length, take, length-append, length-take,
}
use mathlib.Core.Path.{subst}
use web_agent_research.Budget.{LoopBudget, work_cutoff}
use web_agent_research.Llm.{RequestedToolCall}
use web_agent_research.ToolResult.{ToolResult}
use web_agent_research.Dispatch.{
  Tools, TurnOutcome, dispatch_call, execute_call, timeout_of, settle, dispatch_calls,
  dispatch_turn, resolve_call_ids, no_outcome,
}
use web_agent_research.Dispatch.Pairing.{cap, settle-IsAnswered}

-- Tools that note each call they are made to execute.
abbrev pub logged : {W : Type 0} → Tools W → Tools (W × List RequestedToolCall)
logged tools = record {
  clock = λ s. let (now, w) = tools.clock s.0 in (now, (w, s.1));
  execute = λ s call part_chars timeout.
      let (result, w) = tools.execute s.0 call part_chars timeout in
      (result, (w, s.1 ++ call ∷ []));
}

abbrev pub allowed_calls : List Text → List RequestedToolCall → List RequestedToolCall
allowed_calls allowed [] = []
allowed_calls allowed (call ∷ calls) =
    let rest = allowed_calls allowed calls in
    if contains allowed call.name then call ∷ rest else rest

length-allowed_calls :
    (allowed : List Text) (calls : List RequestedToolCall)
    → length (allowed_calls allowed calls) ≤ length calls
length-allowed_calls allowed [] = omega arith
length-allowed_calls allowed (call ∷ calls) =
    let rest = length-allowed_calls allowed calls in ground arith

module _ {W : Type 0} (tools : Tools W) (turn : ℕ) (allowed : List Text) (budget : LoopBudget)
    (nonce : Text) where
  abbrev max_calls : ℕ
  max_calls = cap tools turn allowed budget nonce

  abbrev Logged : Type 0
  Logged = W × List RequestedToolCall

  -- What the calls `ran` leave: their log, an evidence entry for each, and the same world and outcome
  -- as without a log.
  record HasRun (ran : List RequestedToolCall) (s : Logged) (o : TurnOutcome)
      (after : Logged × TurnOutcome) (plain : W × TurnOutcome) : Type 0 where
    pub log : after.0.1 ≡ s.1 ++ ran
    pub world : after.0.0 ≡ plain.0
    pub outcome : after.1 ≡ plain.1
    pub evidence : length after.1.evidence ≡ length o.evidence + length ran
    pub searches : after.1.successful_searches ≤ o.successful_searches + length ran

  timeout_of-logged :
      (cutoff : Option ℕ) (s : Logged)
      → timeout_of (logged tools) turn allowed budget nonce cutoff s ≡ (
        (timeout_of tools turn allowed budget nonce cutoff s.0).0,
        ((timeout_of tools turn allowed budget nonce cutoff s.0).1, s.1),
      )
  timeout_of-logged none s = refl
  timeout_of-logged (some cutoff) s = refl

  -- The calls that a position runs.
  abbrev ran_at : ℕ → RequestedToolCall → List RequestedToolCall
  ran_at index call =
      if leb max_calls index then [] else if contains allowed call.name then call ∷ [] else []

  settle-logged :
      (timeout : ℕ) (call : RequestedToolCall) (executed : Option ToolResult) (o : TurnOutcome)
      → settle (logged tools) turn allowed budget nonce timeout call executed o
        ≡ settle tools turn allowed budget nonce timeout call executed o
  settle-logged timeout call none o = refl
  settle-logged timeout call (some result) o = refl

  -- A call that was executed within a time.
  abbrev within : {V : Type 0} → Tools V → RequestedToolCall → TurnOutcome → ℕ × V → V × TurnOutcome
  within ts call o (timeout, w) =
      let (executed, w') = ts.execute w call budget.max_part_chars timeout in
      (w', settle ts turn allowed budget nonce timeout call executed o)

  within-HasRun :
      (call : RequestedToolCall) (log : List RequestedToolCall) (w : W) (o : TurnOutcome)
      (t : ℕ × W)
      → HasRun
          (call ∷ [])
          (w, log)
          o
          (within (logged tools) call o (t.0, (t.1, log)))
          (within tools call o t)
  within-HasRun call log w o t =
      let (executed, _) = tools.execute t.1 call budget.max_part_chars t.0 in
      let answered =
        settle-IsAnswered (logged tools) turn allowed budget nonce t.0 call executed o in
      record {
        log = refl;
        world = refl;
        outcome = settle-logged t.0 call executed o;
        evidence = answered.evidence;
        searches = answered.searches;
      }

  execute_call-HasRun :
      (call : RequestedToolCall) (s : Logged) (o : TurnOutcome)
      → HasRun
          (call ∷ [])
          s
          o
          (execute_call (logged tools) turn allowed budget nonce call s o)
          (execute_call tools turn allowed budget nonce call s.0 o)
  unfolding execute_call
  execute_call-HasRun call (w, log) o =
      subst
        (λ (t : ℕ × Logged).
          HasRun (call ∷ []) (w, log) o (within (logged tools) call o t)
            (within tools call o
              (timeout_of tools turn allowed budget nonce (work_cutoff budget) w)))
        (sym (timeout_of-logged (work_cutoff budget) (w, log)))
        (within-HasRun call log w o
          (timeout_of tools turn allowed budget nonce (work_cutoff budget) w))

  dispatch_call-HasRun :
      (index : ℕ) (call : RequestedToolCall) (s : Logged) (o : TurnOutcome)
      → HasRun
          (ran_at index call)
          s
          o
          (dispatch_call (logged tools) turn allowed budget nonce index call s o)
          (dispatch_call tools turn allowed budget nonce index call s.0 o)
  unfolding dispatch_call
  dispatch_call-HasRun index call s o = elim (Bool-cases (leb max_calls index)) [
    | inl e ↦ rw e (record {
      log = sym (append-nil s.1);
      world = refl;
      outcome = refl;
      evidence = omega arith;
      searches = omega arith;
    })
    | inr e ↦ elim (Bool-cases (contains allowed call.name)) [
      | inl u ↦ rw (e, u) (execute_call-HasRun call s o)
      | inr u ↦
          rw (e, u)
            (record {
              log = sym (append-nil s.1);
              world = refl;
              outcome = refl;
              evidence = omega arith;
              searches = omega arith;
            })
    ]
  ]

  HasRun-append :
      (ran ran' : List RequestedToolCall) (s : Logged) (o : TurnOutcome)
      (mid : Logged × TurnOutcome) (plain : W × TurnOutcome) (after : Logged × TurnOutcome)
      (end : W × TurnOutcome)
      → HasRun ran s o mid plain
      → HasRun ran' mid.0 mid.1 after end
      → HasRun (ran ++ ran') s o after end
  HasRun-append ran ran' s o mid plain after end h k =
      let count = length-append ran ran' in
      let evidence = h.evidence in
      let evidence' = k.evidence in
      let searches = h.searches in
      let searches' = k.searches in
      record {
        log = k.log ∙ ap (λ l. l ++ ran') h.log ∙ append_assoc s.1 ran ran';
        world = k.world;
        outcome = k.outcome;
        evidence = omega arith;
        searches = omega arith;
      }

  -- The calls that run, from a position on.
  abbrev ran_from : ℕ → List RequestedToolCall → List RequestedToolCall
  ran_from index [] = []
  ran_from index (call ∷ calls) = ran_at index call ++ ran_from (index + 1) calls

  dispatch_calls-HasRun :
      (index : ℕ) (calls : List RequestedToolCall) (s : Logged) (o : TurnOutcome)
      → HasRun
          (ran_from index calls)
          s
          o
          (dispatch_calls (logged tools) turn allowed budget nonce index calls s o)
          (dispatch_calls tools turn allowed budget nonce index calls s.0 o)
  unfolding dispatch_calls
  dispatch_calls-HasRun index [] s o = record {
    log = sym (append-nil s.1);
    world = refl;
    outcome = refl;
    evidence = omega arith;
    searches = omega arith;
  }
  dispatch_calls-HasRun index (call ∷ calls) s o =
      let first = dispatch_call-HasRun index call s o in
      let mid = dispatch_call (logged tools) turn allowed budget nonce index call s o in
      let plain = dispatch_call tools turn allowed budget nonce index call s.0 o in
      let later = dispatch_calls-HasRun (index + 1) calls mid.0 mid.1 in
      let next = dispatch_calls tools turn allowed budget nonce (index + 1) calls in
      HasRun-append (ran_at index call) (ran_from (index + 1) calls) s o mid plain _
        (next plain.0 plain.1) first
        (rw (ap (λ w. next w mid.1) first.world ∙ ap (next plain.0) first.outcome) at later)

  ran_from-take :
      (index n : ℕ) (calls : List RequestedToolCall)
      → max_calls - index ≡ n
      → ran_from index calls ≡ allowed_calls allowed (take n calls)
  ran_from-take index zero [] e = refl
  ran_from-take index (suc n) [] e = refl
  ran_from-take index zero (call ∷ calls) e =
      let past : leb max_calls index ≡ true = ground arith in
      rw past (ran_from-take (index + 1) zero calls (omega arith))
  ran_from-take index (suc n) (call ∷ calls) e =
      let fits : leb max_calls index ≡ false = ground arith in
      let rest = ran_from-take (index + 1) n calls (omega arith) in
      elim (Bool-cases (contains allowed call.name)) [
        | inl u ↦ rw (fits, u) (ap (◌∷◌ call) rest)
        | inr u ↦ rw (fits, u) rest
      ]

  -- A turn executes exactly the calls of allowed tools among the first `max_tools_per_turn` (one at
  -- least), in their order, as tools that note each call show: no more than that cap. The notes change
  -- nothing of the outcome, each executed call leaves one evidence entry and no other call leaves one,
  -- and there are no more successful searches than executed calls.
  pub dispatch_turn-allowed_calls :
      (calls : List RequestedToolCall) (w : W)
      → let (s, o) = dispatch_turn (logged tools) turn allowed budget nonce calls (w, []) in
        (s.1
          ≡ allowed_calls allowed
              (take (cap tools turn allowed budget nonce) (resolve_call_ids turn calls)))
        × (length s.1 ≤ cap tools turn allowed budget nonce)
        × (o ≡ (dispatch_turn tools turn allowed budget nonce calls w).1)
        × (length o.evidence ≡ length s.1)
        × (o.successful_searches ≤ length s.1)
  unfolding dispatch_turn
  dispatch_turn-allowed_calls calls w =
      let resolved = resolve_call_ids turn calls in
      let run = dispatch_calls-HasRun 0 resolved (w, []) (no_outcome resolved) in
      let (s, o) =
        dispatch_calls (logged tools) turn allowed budget nonce 0 resolved (w, [])
          (no_outcome resolved) in
      let taken = ran_from-take 0 max_calls resolved (omega arith) in
      let log : s.1 ≡ allowed_calls allowed (take max_calls resolved) = run.log ∙ taken in
      let evidence : length o.evidence ≡ 0 + length (ran_from 0 resolved) = run.evidence in
      let searches : o.successful_searches ≤ 0 + length (ran_from 0 resolved) = run.searches in
      let ran : length s.1 ≡ length (ran_from 0 resolved) = ap length run.log in
      let lengths : length s.1 ≡ length (allowed_calls allowed (take max_calls resolved)) =
        ap length log in
      let few = length-allowed_calls allowed (take max_calls resolved) in
      let fits = length-take max_calls resolved in
      let bound : length s.1 ≤ max_calls = omega arith in
      let one_each : length o.evidence ≡ length s.1 = omega arith in
      let among : o.successful_searches ≤ length s.1 = omega arith in
      (log, bound, run.outcome, one_each, among)
