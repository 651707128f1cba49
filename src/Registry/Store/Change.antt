-- ===== src/Registry/Store/Change.antt =====
-- The changes that a tool call makes to the run's memory (`execute`,
-- src/research/agent_loop/registry.rs).
use web_agent_research.Prelude.{
  ℕ, ◌≡◌, sym, ◌∙◌, inl, inr, true, false, Option, none, some, arith, Text, codes, text_eq, if_true,
  if_false, Bool-cases, get_elem?, refl,
}
use mathlib.Core.Path.{subst}
use web_agent_research.Llm.{RequestedToolCall}
use web_agent_research.ToolResult.{Evidence, Served, ToolResult, first_delivery_page}
use web_agent_research.Search.{SearchInput}
use web_agent_research.Registry.{StoredPage, deliver_part}
use web_agent_research.Registry.Store.{
  Store, FetchInput, Fetched, page, no_page, Parsed, ok, bad, Backend, SearchOutcome, hits, note,
  blocked, no_search, search_result, lookup, set_page, keep_delivered, deliver_at, known_page,
  is_seen, point_to, store_page, with_world, new_fetch, fetch_page, fetch_call, search_call,
  run_call, execute,
}

-- A delivery of a part: the page's text stays, and a first delivery is of a page not delivered yet.
pub record IsDelivery (stored : StoredPage) (r : ToolResult) (after : StoredPage) : Type 0 where
  pub same : after.page ≡ stored.page
  pub first :
      (e : Evidence)
      → first_delivery_page r ≡ some e
      → (stored.delivered ≡ false) × ((after.delivered ≡ true) × (e ≡ stored.page))

deliver_part-IsDelivery :
    (call : RequestedToolCall) (stored : StoredPage) (part part_chars : ℕ) (served : Served)
    (r : ToolResult) (after : StoredPage)
    → deliver_part call stored part part_chars served ≡ some (r, after)
    → IsDelivery stored r after
unfolding deliver_part
deliver_part-IsDelivery call stored part part_chars served r after e = record {
  same = ground arith;
  first = λ e0 f. ground arith;
}

module _ (dedup_key : Text → Text) where
  pub data Change : Store → ToolResult → Store → Type 0 where
    same : (s : Store) (r : ToolResult) → first_delivery_page r ≡ none → Change s r s
    delivers :
        (s : Store) (r : ToolResult) (i : ℕ) (stored after : StoredPage) (s' : Store)
        → get_elem? s.pages i ≡ some stored
        → IsDelivery stored r after
        → s' ≡ record s { pages = set_page i after s.pages }
        → Change s r s'
    adds :
        (s : Store) (r : ToolResult) (requested : Text) (evidence : Evidence) (s1 s' : Store)
        → lookup requested s.fetched ≡ none
        → s1
          ≡ (store_page s requested
              (dedup_key evidence.source_url)
              evidence
              (lookup (dedup_key evidence.source_url) s.fetched)).0
        → Change s1 r s'
        → Change s r s'

abbrev pub OnResult :
    {W : Type 0} → (ToolResult → Store → Type 0) → Option (ToolResult × (Store × W)) → Type 0
OnResult P none = Unit
OnResult P (some (r, (s, w))) = P r s

abbrev OnPair : (ToolResult → Store → Type 0) → Option (ToolResult × Store) → Type 0
OnPair P none = Unit
OnPair P (some (r, s)) = P r s

module _ {W J : Type 0} (backend : Backend W J) where
  abbrev Made : Store → ToolResult → Store → Type 0
  Made = Change backend.dedup_key

  with_world-OnResult :
      (P : ToolResult → Store → Type 0) (w : W) (d : Option (ToolResult × Store))
      → OnPair P d
      → OnResult P (with_world backend w d)
  with_world-OnResult P w none h = record {}
  with_world-OnResult P w (some (r, s)) h = h

  deliver_at-Change :
      (s : Store) (i : ℕ) (call : RequestedToolCall) (part part_chars : ℕ) (served : Served)
      (o : Option StoredPage)
      → get_elem? s.pages i ≡ o
      → OnPair (Made s) (deliver_at s i call part part_chars served o)
  deliver_at-Change s i call part part_chars served none e = record {}
  deliver_at-Change s i call part part_chars served (some stored) e =
      kept (deliver_part call stored part part_chars served) refl
    where
      kept :
          (d : Option (ToolResult × StoredPage))
          → deliver_part call stored part part_chars served ≡ d
          → OnPair (Made s) (keep_delivered s i d)
      kept none f = record {}
      kept (some (r, after)) f =
          delivers s r i stored after _ e
            (deliver_part-IsDelivery call stored part part_chars served r after f) refl

  known_page-Change :
      (s : Store) (i : ℕ) (call : RequestedToolCall) (input : FetchInput) (part_chars : ℕ)
      → OnPair (Made s) (known_page s i call input part_chars)
  known_page-Change s i call input part_chars =
      elim (Bool-cases (is_seen input.part (get_elem? s.pages i))) [
        | inl e ↦ subst (OnPair (Made s)) (sym (if_true _ _ e)) (pointed (get_elem? s.pages i))
        | inr e ↦
            subst (OnPair (Made s)) (sym (if_false _ _ e))
              (deliver_at-Change s i call _ part_chars _ (get_elem? s.pages i) refl)
      ]
    where
      pointed : (o : Option StoredPage) → OnPair (Made s) (point_to input part_chars s o)
      pointed none = record {}
      pointed (some stored) = same s _ refl

  added :
      (s s1 : Store) (requested : Text) (evidence : Evidence) (d : Option (ToolResult × Store))
      → lookup requested s.fetched ≡ none
      → s1
        ≡ (store_page s requested
            (backend.dedup_key evidence.source_url)
            evidence
            (lookup (backend.dedup_key evidence.source_url) s.fetched)).0
      → OnPair (Made s1) d
      → OnPair (Made s) d
  added s s1 requested evidence none fresh e h = record {}
  added s s1 requested evidence (some (r, s')) fresh e h =
      adds s r requested evidence s1 s' fresh e h

  fetch_page-Change :
      (s : Store) (w : W) (call : RequestedToolCall) (args : J) (input : FetchInput)
      (part_chars : ℕ) (o : Option ℕ)
      → lookup (backend.dedup_key input.url) s.fetched ≡ o
      → OnResult (Made s) (fetch_page backend s w call args input part_chars o)
  fetch_page-Change s w call args input part_chars (some i) e =
      with_world-OnResult (Made s) w _ (known_page-Change s i call input part_chars)
  fetch_page-Change s w call args input part_chars none e =
      fresh (backend.fetch_web w args input.url).0
    where
      fresh :
          (fetched : Fetched)
          → OnResult (Made s) (
              new_fetch backend s
                (backend.fetch_web w args input.url).1
                call
                input
                part_chars
                fetched)
      fresh (no_page reason kind) = same s _ refl
      fresh (page evidence served) =
          let source = backend.dedup_key evidence.source_url in
          let stored =
            store_page s (backend.dedup_key input.url) source evidence (lookup source s.fetched) in
          with_world-OnResult (Made s) _ _ (
            added s stored.0 (backend.dedup_key input.url) evidence _ e refl
              (deliver_at-Change stored.0 stored.1 call _ part_chars served _ refl))

  search_result-none :
      (s : Store) (call : RequestedToolCall) (outcome : SearchOutcome)
      → first_delivery_page (search_result s call outcome) ≡ none
  search_result-none s call (hits list status) = refl
  search_result-none s call (note text) = refl
  search_result-none s call (blocked detail) = refl
  search_result-none s call (no_search reason) = refl

  run_call-Change :
      (s : Store) (w : W) (call : RequestedToolCall) (part_chars : ℕ) (args : Parsed J)
      → OnResult (Made s) (run_call backend s w call part_chars args)
  run_call-Change s w call part_chars (bad err) = same s _ refl
  run_call-Change s w call part_chars (ok args) =
      elim (Bool-cases (text_eq call.name (codes "search"))) [
        | inl e ↦
            subst (OnResult (Made s)) (sym (if_true _ _ e))
              (searched (backend.parse_search_args args))
        | inr e ↦ elim (Bool-cases (text_eq call.name (codes "fetch"))) [
          | inl f ↦
              subst (OnResult (Made s)) (sym (if_false _ _ e ∙ if_true _ _ f))
                (got (backend.parse_fetch_input args))
          | inr g ↦
              subst (OnResult (Made s)) (sym (if_false _ _ e ∙ if_false _ _ g)) (same s _ refl)
        ]
      ]
    where
      searched : (i : Parsed SearchInput) → OnResult (Made s) (search_call backend s w call i)
      searched (bad reason) = same s _ refl
      searched (ok input) = same s _ (search_result-none s call (backend.search_web w input).0)

      got :
          (i : Parsed FetchInput)
          → OnResult (Made s) (fetch_call backend s w call args part_chars i)
      got (bad reason) = same s _ refl
      got (ok input) = fetch_page-Change s w call args input part_chars _ refl

  pub execute-Change :
      (s : Store) (w : W) (call : RequestedToolCall) (part_chars : ℕ)
      → OnResult (Change backend.dedup_key s) (execute backend s w call part_chars)
  unfolding execute
  execute-Change s w call part_chars =
      run_call-Change s w call part_chars (backend.from_str call.arguments)
