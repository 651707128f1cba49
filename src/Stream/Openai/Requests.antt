-- ===== src/Stream/Openai/Requests.antt =====
-- The calls that an ascending map of partial calls gives (`reply_of`, src/llm/stream/openai.rs).
use web_agent_research.Prelude.{
  ℕ, suc, ◌≤◌, ◌<◌, ◌≡◌, refl, sym, ◌∙◌, inl, inr, Option, none, some, List, [], ◌∷◌, arith, ◌==◌,
  if◌then◌else◌, if_false, Bool-cases, ap,
}
use mathlib.Core.Path.{ap₂, subst}
use web_agent_research.Llm.{RequestedToolCall}
use web_agent_research.Stream.Openai.{DeltaToolCall, PartialCall, lookup, requested, requests}
use web_agent_research.Stream.Openai.Entries.{From, lookup-below}
use web_agent_research.Stream.Openai.Calls.{AtIndex, merge_all, requested_at, requested_at-AtIndex}

-- The calls with their indices, which ascend from a number on.
abbrev pub Ascends : ℕ → List (ℕ × RequestedToolCall) → Type 0
Ascends k [] = Unit
Ascends k ((j, call) ∷ calls) = (k ≤ j) × Ascends (suc j) calls

abbrev pub call_at : ℕ → List (ℕ × RequestedToolCall) → Option RequestedToolCall
call_at i [] = none
call_at i ((j, call) ∷ calls) = if i == j then some call else call_at i calls

call_at-below :
    (k i : ℕ) (calls : List (ℕ × RequestedToolCall))
    → Ascends k calls
    → i < k
    → call_at i calls ≡ none
call_at-below k i [] h lt = refl
call_at-below k i ((j, call) ∷ calls) (hj, hs) lt =
    let later = call_at-below (suc j) i calls hs (omega arith) in ground arith

abbrev pub calls_of : List (ℕ × RequestedToolCall) → List RequestedToolCall
calls_of [] = []
calls_of ((j, call) ∷ calls) = call ∷ calls_of calls

requests-rest :
    (j : ℕ) (p : PartialCall) (entries : List (ℕ × PartialCall)) (c : RequestedToolCall)
    (calls : List (ℕ × RequestedToolCall))
    → From (suc j) entries
    → Ascends (suc j) calls
    → ((i : ℕ) → requested_at (lookup i ((j, p) ∷ entries)) ≡ call_at i ((j, c) ∷ calls))
    → (i : ℕ) → requested_at (lookup i entries) ≡ call_at i calls
requests-rest j p entries c calls h k e i = elim (Bool-cases (i == j)) [
  | inl t ↦
      let below : i < suc j = ground arith in
      ap requested_at (lookup-below (suc j) i entries h below)
      ∙ sym (call_at-below (suc j) i calls k below)
  | inr f ↦ ap requested_at (sym (if_false _ _ f)) ∙ e i ∙ if_false _ _ f
]

-- Two ascending maps with the same entries are the same.
requests-ext :
    (k : ℕ) (entries : List (ℕ × PartialCall)) (calls : List (ℕ × RequestedToolCall))
    → From k entries
    → Ascends k calls
    → ((i : ℕ) → requested_at (lookup i entries) ≡ call_at i calls)
    → requests entries ≡ calls_of calls
requests-ext k [] [] h a e = refl
requests-ext k [] ((j, c) ∷ calls) h a e = let first = e j in ground arith
requests-ext k ((j, p) ∷ entries) [] h a e = let first = e j in ground arith
requests-ext k ((j, p) ∷ entries) ((j', c) ∷ calls) (hj, hs) (aj, more) e =
    let here = e j in
    let there = e j' in
    let below = call_at-below (suc j') j calls more in
    let below' = lookup-below (suc j) j' entries hs in
    let same : j ≡ j' = ground arith in
    let equal : requested p ≡ c = ground arith in
    let more' = subst (λ x. Ascends (suc x) calls) (sym same) more in
    ap₂ ◌∷◌ equal (
      requests-ext (suc j) entries calls hs more' (
        requests-rest j p entries c calls hs more' (
          subst
            (λ x. (i : ℕ) → requested_at (lookup i ((j, p) ∷ entries)) ≡ call_at i ((x, c) ∷ calls))
            (sym same) e)))

pub requests-AtIndex :
    (entries : List (ℕ × PartialCall)) (calls : List (ℕ × RequestedToolCall))
    (fragments : ℕ → List DeltaToolCall)
    → From 0 entries
    → Ascends 0 calls
    → ((i : ℕ) → AtIndex (call_at i calls) (fragments i))
    → ((i : ℕ) → lookup i entries ≡ merge_all (fragments i) none)
    → requests entries ≡ calls_of calls
requests-AtIndex entries calls fragments ascending ascends split found =
    requests-ext 0 entries calls ascending ascends (λ i.
      ap requested_at (found i) ∙ requested_at-AtIndex (call_at i calls) (fragments i) (split i))
