-- ===== src/Registry/Store/Remembered.antt =====
-- A page is fetched once in a run (`execute`, src/research/agent_loop/registry.rs).
use web_agent_research.Prelude.{
  text_eq_iff, if_true, if_false, get_elem?, refl, true, ap, sym, ◌∙◌, ℕ, ◌≡◌, refl, sym, ◌∙◌, true,
  false, Option, none, some, Text, codes, text_eq, text_eq_iff, if_true, if_false, get_elem?, ap,
}
use mathlib.Core.Path.{subst}
use web_agent_research.Llm.{RequestedToolCall}
use web_agent_research.ToolResult.{Evidence, Served, ToolResult}
use web_agent_research.Registry.{StoredPage, deliver_part}
use web_agent_research.Registry.Store.{
  Store, FetchInput, page, ok, Backend, lookup, deliver_at, known_page, store_page, with_world,
  new_fetch, fetch_page, fetch_call, run_call, execute, keep_delivered,
}
use web_agent_research.Registry.Store.Kept.{
  OnDelivered, with_world-OnStore, IsKept, IsKept-refl, IsKept-trans, OnStore, execute-IsKept,
}

module _ {W J : Type 0} (backend : Backend W J) where
  -- Calls of a run, one after another.
  pub data Calls : Store → W → Store → W → Type 0 where
    no_call : (s : Store) (w : W) → Calls s w s w
    then_call :
        {s : Store} {w : W} {s1 : Store} {w1 : W} {s2 : Store} {w2 : W} (call : RequestedToolCall)
        (part_chars : ℕ) (r : ToolResult)
        → execute backend s w call part_chars ≡ some (r, (s1, w1))
        → Calls s1 w1 s2 w2
        → Calls s w s2 w2

  pub execute_ran-IsKept :
      (s : Store) (w : W) (call : RequestedToolCall) (part_chars : ℕ) (r : ToolResult) (s1 : Store)
      (w1 : W)
      → execute backend s w call part_chars ≡ some (r, (s1, w1))
      → IsKept s s1
  execute_ran-IsKept s w call part_chars r s1 w1 e =
      subst (OnStore (IsKept s)) e (execute-IsKept backend s w call part_chars)

  Calls-IsKept : (s : Store) (w : W) (s' : Store) (w' : W) → Calls s w s' w' → IsKept s s'
  Calls-IsKept s w s' w' (no_call _ _) = IsKept-refl s
  Calls-IsKept s w s' w' (then_call {s1 = s1} {w1 = w1} call part_chars r e later) =
      IsKept-trans s s1 s' (execute_ran-IsKept s w call part_chars r s1 w1 e)
        (Calls-IsKept s1 w1 s' w' later)

  -- A call of `fetch` whose arguments parse.
  pub record IsFetch (call : RequestedToolCall) (input : FetchInput) : Type 0 where
    pub args : J
    pub named : text_eq call.name (codes "fetch") ≡ true
    pub decodes : backend.from_str call.arguments ≡ ok args
    pub parses : backend.parse_fetch_input args ≡ ok input

  not_search :
      (name : Text) → text_eq name (codes "fetch") ≡ true → text_eq name (codes "search") ≡ false
  unfolding text_eq
  not_search name e = ap (λ n. text_eq n (codes "search")) ((text_eq_iff name (codes "fetch")).0 e)

  execute-IsFetch :
      (s : Store) (w : W) (call : RequestedToolCall) (input : FetchInput) (part_chars : ℕ)
      (f : IsFetch call input)
      → execute backend s w call part_chars
        ≡ fetch_page backend s w call f.args input part_chars
            (lookup (backend.dedup_key input.url) s.fetched)
  unfolding execute
  execute-IsFetch s w call input part_chars f =
      ap (run_call backend s w call part_chars) f.decodes
      ∙ if_false _ _ (not_search call.name f.named)
      ∙ if_true _ _ f.named
      ∙ ap (fetch_call backend s w call f.args part_chars) f.parses

  deliver_at-fetched :
      (s : Store) (i : ℕ) (call : RequestedToolCall) (part part_chars : ℕ) (served : Served)
      (o : Option StoredPage)
      → OnDelivered (λ x. x.fetched ≡ s.fetched) (deliver_at s i call part part_chars served o)
  deliver_at-fetched s i call part part_chars served none = record {}
  deliver_at-fetched s i call part part_chars served (some stored) =
      kept (deliver_part call stored part part_chars served)
    where
      kept :
          (d : Option (ToolResult × StoredPage))
          → OnDelivered (λ x. x.fetched ≡ s.fetched) (keep_delivered s i d)
      kept none = record {}
      kept (some (r, after)) = refl

  text_eq_self : (t : Text) → text_eq t t ≡ true
  text_eq_self t = (text_eq_iff t t).1 refl

  store_page-known :
      (s : Store) (requested source : Text) (evidence : Evidence) (o : Option ℕ)
      → lookup requested (store_page s requested source evidence o).0.fetched
        ≡ some (store_page s requested source evidence o).1
  store_page-known s requested source evidence (some i) = if_true _ _ (text_eq_self requested)
  store_page-known s requested source evidence none = if_true _ _ (text_eq_self requested)

  -- A page that was stored is known under the URL that was asked for.
  new_fetch-known :
      (s : Store) (w : W) (call : RequestedToolCall) (input : FetchInput) (part_chars : ℕ)
      (evidence : Evidence) (served : Served) (r : ToolResult) (s' : Store) (w' : W)
      → new_fetch backend s w call input part_chars (page evidence served) ≡ some (r, (s', w'))
      → (i : ℕ) × (lookup (backend.dedup_key input.url) s'.fetched ≡ some i)
  new_fetch-known s w call input part_chars evidence served r s' w' e =
      let source = backend.dedup_key evidence.source_url in
      let requested = backend.dedup_key input.url in
      let stored = store_page s requested source evidence (lookup source s.fetched) in
      let same : s'.fetched ≡ stored.0.fetched =
        subst (OnStore (λ x. x.fetched ≡ stored.0.fetched)) e (
          with_world-OnStore backend (λ x. x.fetched ≡ stored.0.fetched) w _
            (deliver_at-fetched stored.0 stored.1 call _ part_chars served
              (get_elem? stored.0.pages stored.1))) in
      (
        stored.1,
        ap (lookup requested) same
            ∙ store_page-known s requested source evidence (lookup source s.fetched),
      )

  -- A fetch that gave a page, from the network or a tape.
  pub record GavePage (s : Store) (w : W) (call : RequestedToolCall) (input : FetchInput)
      (f : IsFetch call input) : Type 0 where
    pub evidence : Evidence
    pub served : Served
    pub unknown : lookup (backend.dedup_key input.url) s.fetched ≡ none
    pub gave : (backend.fetch_web w f.args input.url).0 ≡ page evidence served

  -- Once a fetch of a URL has given a page, no later fetch of a URL with the same key reaches the web,
  -- whatever calls of the run come between, whatever part is asked for and with whatever part size:
  -- the call answers from the run's pages and leaves the world, which every search and every fetch of
  -- the web changes, as it was.
  pub fetch_once :
      (s : Store) (w : W) (call : RequestedToolCall) (input : FetchInput) (part_chars : ℕ)
      (r : ToolResult) (s1 : Store) (w1 : W) (s2 : Store) (w2 : W) (call' : RequestedToolCall)
      (input' : FetchInput) (part_chars' : ℕ) (f : IsFetch call input)
      → GavePage s w call input f
      → execute backend s w call part_chars ≡ some (r, (s1, w1))
      → Calls s1 w1 s2 w2
      → IsFetch call' input'
      → backend.dedup_key input'.url ≡ backend.dedup_key input.url
      → (i : ℕ) × (execute backend s2 w2 call' part_chars'
          ≡ with_world backend w2 (known_page s2 i call' input' part_chars'))
  fetch_once s w call input part_chars r s1 w1 s2 w2 call' input' part_chars' f g e calls f' k =
      let stored =
        sym (
          execute-IsFetch s w call input part_chars f
          ∙ ap (fetch_page backend s w call f.args input part_chars) g.unknown
          ∙ ap (new_fetch backend s _ call input part_chars) g.gave)
        ∙ e in
      let (i, known) =
        new_fetch-known s _ call input part_chars g.evidence g.served r s1 w1 stored in
      let still = (Calls-IsKept s1 w1 s2 w2 calls).keys (backend.dedup_key input.url) i known in
      (
        i,
        execute-IsFetch s2 w2 call' input' part_chars' f'
            ∙ ap (fetch_page backend s2 w2 call' f'.args input' part_chars')
                (ap (λ x. lookup x s2.fetched) k ∙ still),
      )
