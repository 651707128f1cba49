-- ===== src/Stream/Openai/Entries.antt =====
-- The map of partial calls (`BTreeMap`, src/llm/stream/openai.rs), an ascending list.
use web_agent_research.Prelude.{
  ℕ, suc, ◌≤◌, ◌<◌, ◌≡◌, refl, inl, inr, none, some, List, [], ◌∷◌, arith, ltb, ◌==◌, if◌then◌else◌,
  ltb→lt, Bool-cases,
}
use web_agent_research.Stream.Openai.{PartialCall, lookup, insert}

pub lookup-insert :
    (i j : ℕ) (call : PartialCall) (calls : List (ℕ × PartialCall))
    → lookup i (insert j call calls) ≡ (if i == j then some call else lookup i calls)
lookup-insert i j call [] = refl
lookup-insert i j call ((k, other) ∷ calls) = ground (arith, lookup-insert i j call calls)

-- The keys ascend, from a number on.
abbrev pub From : ℕ → List (ℕ × PartialCall) → Type 0
From k [] = Unit
From k ((j, call) ∷ calls) = (k ≤ j) × From (suc j) calls

pub insert-From :
    (k i : ℕ) (call : PartialCall) (calls : List (ℕ × PartialCall))
    → From k calls
    → k ≤ i
    → From k (insert i call calls)
insert-From k i call [] h le = (le, record {})
insert-From k i call ((j, other) ∷ calls) (hj, hs) le = elim (Bool-cases (i == j)) [
  | inl e ↦ let same : i ≡ j = ground arith in rw e (le, rw same hs)
  | inr e ↦ elim (Bool-cases (ltb i j)) [
    | inl lt ↦ rw (e, lt) (le, (ltb→lt i j lt, hs))
    | inr ge ↦ rw (e, ge) (hj, insert-From (suc j) i call calls hs (ground arith))
  ]
]

pub lookup-below :
    (k i : ℕ) (calls : List (ℕ × PartialCall)) → From k calls → i < k → lookup i calls ≡ none
lookup-below k i [] h lt = refl
lookup-below k i ((j, call) ∷ calls) (hj, hs) lt =
    let later = lookup-below (suc j) i calls hs (omega arith) in ground arith
