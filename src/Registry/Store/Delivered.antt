-- ===== src/Registry/Store/Delivered.antt =====
-- The pages that a run's calls deliver for the first time, which are its rows in the Session (`execute`,
-- src/research/agent_loop/registry.rs, and `first_delivery_page`, result.rs).
use web_agent_research.Prelude.{
  ℕ, ◌≡◌, refl, ap, ◌∙◌, ◌≢◌, Option, none, some, List, [], ◌∷◌, map, arith, Text, All,
}
use mathlib.Core.Path.{subst}
use web_agent_research.Llm.{RequestedToolCall}
use web_agent_research.Answer.Links.Distinct.{AreDistinct}
use web_agent_research.ToolResult.{Evidence, ToolResult, first_delivery_page}
use web_agent_research.Registry.Store.{Store, empty_store, Backend, execute, lookup}
use web_agent_research.Registry.Store.Kept.{IsKept}
use web_agent_research.Registry.Store.Change.{Change, OnResult, execute-Change}
use web_agent_research.Registry.Store.Remembered.{execute_ran-IsKept}
use web_agent_research.Registry.Store.Rows.{
  key_of, IsNamed, Change-IsNamed, NotYet, HasRow, IsKept-NotYet, Change-first,
}

abbrev pub with_row : Option Evidence → List Evidence → List Evidence
with_row none rows = rows
with_row (some evidence) rows = evidence ∷ rows

module _ {W J : Type 0} (backend : Backend W J) where
  abbrev key : Evidence → Text
  key = key_of backend.dedup_key

  -- Calls of a run, one after another, and the pages that they deliver for the first time.
  pub data Delivers : Store → W → List Evidence → Store → W → Type 0 where
    no_call : (s : Store) (w : W) → Delivers s w [] s w
    then_call :
        {s : Store} {w : W} {s1 : Store} {w1 : W} {s2 : Store} {w2 : W} {rows : List Evidence}
        (call : RequestedToolCall) (part_chars : ℕ) (r : ToolResult)
        → execute backend s w call part_chars ≡ some (r, (s1, w1))
        → Delivers s1 w1 rows s2 w2
        → Delivers s w (with_row (first_delivery_page r) rows) s2 w2

  execute_ran-Change :
      (s : Store) (w : W) (call : RequestedToolCall) (part_chars : ℕ) (r : ToolResult) (s1 : Store)
      (w1 : W)
      → execute backend s w call part_chars ≡ some (r, (s1, w1))
      → Change backend.dedup_key s r s1
  execute_ran-Change s w call part_chars r s1 w1 e =
      subst (OnResult (Change backend.dedup_key s)) e (execute-Change backend s w call part_chars)

  abbrev AreNotYet : Store → List Evidence → Type 0
  AreNotYet s [] = Unit
  AreNotYet s (e ∷ es) = NotYet backend.dedup_key s e × AreNotYet s es

  IsKept-AreNotYet :
      (s s' : Store) (es : List Evidence) → IsKept s s' → AreNotYet s' es → AreNotYet s es
  IsKept-AreNotYet s s' [] k h = h
  IsKept-AreNotYet s s' (e ∷ es) k (h, hs) =
      (IsKept-NotYet backend.dedup_key s s' e k h, IsKept-AreNotYet s s' es k hs)

  HasRow-≢ :
      (s : Store) (e e' : Evidence)
      → HasRow backend.dedup_key s e
      → NotYet backend.dedup_key s e'
      → key e' ≢ key e
  HasRow-≢ s e e' row later equal =
      let undone =
        later row.index row.stored (ap (λ k. lookup k s.fetched) equal ∙ row.found) row.there in
      let done = row.seen in ground arith

  HasRow-distinct :
      (s : Store) (e : Evidence) (es : List Evidence)
      → HasRow backend.dedup_key s e
      → AreNotYet s es
      → All (λ k. k ≢ key e) (map key es)
  HasRow-distinct s e [] row h = record {}
  HasRow-distinct s e (e' ∷ es) row (h, hs) = (HasRow-≢ s e e' row h, HasRow-distinct s e es row hs)

  Delivers-from :
      (s : Store) (w : W) (rows : List Evidence) (s' : Store) (w' : W)
      → Delivers s w rows s' w'
      → IsNamed backend.dedup_key s
      → AreNotYet s rows × AreDistinct (map key rows)
  Delivers-from s w rows s' w' (no_call _ _) named = (record {}, record {})
  Delivers-from s w rows s' w'
        (then_call {s1 = s1} {w1 = w1} {rows = later} call part_chars r e calls) named =
      let change = execute_ran-Change s w call part_chars r s1 w1 e in
      let kept = execute_ran-IsKept backend s w call part_chars r s1 w1 e in
      let (ahead, distinct) =
        Delivers-from s1 w1 later s' w' calls
          (Change-IsNamed backend.dedup_key s r s1 change named) in
      row (first_delivery_page r) refl change kept ahead distinct
    where
      row :
          (o : Option Evidence)
          → first_delivery_page r ≡ o
          → Change backend.dedup_key s r s1
          → IsKept s s1
          → AreNotYet s1 later
          → AreDistinct (map key later)
          → AreNotYet s (with_row o later) × AreDistinct (map key (with_row o later))
      row none f change kept ahead distinct = (IsKept-AreNotYet s s1 later kept ahead, distinct)
      row (some page) f change kept ahead distinct =
          let (not_yet, has) = Change-first backend.dedup_key s r s1 page change named f in
          (
            (not_yet, IsKept-AreNotYet s s1 later kept ahead),
            (HasRow-distinct s1 page later has ahead, distinct),
          )

  -- However a run that starts with an empty memory mixes its calls, the parts it asks for and the
  -- URLs it reaches a page by, the pages that its results name as delivered for the first time have
  -- pairwise distinct keys of their final URLs: each page becomes one row of the Session.
  pub rows_once :
      (w : W) (rows : List Evidence) (s' : Store) (w' : W)
      → Delivers empty_store w rows s' w'
      → AreDistinct (map (key_of backend.dedup_key) rows)
  rows_once w rows s' w' calls =
      (Delivers-from empty_store w rows s' w' calls (λ i p f. absurd (ground arith))).1
