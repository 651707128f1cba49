-- ===== src/Registry/Store.antt =====
-- src/research/agent_loop/registry.rs: one tool call of a run, which runs to its end, and the run's
-- memory of pages. The tools' searches and fetches (with their tape) and the parsers of their
-- arguments are operations of `Backend`. A page that several keys share (`Arc`) is an index into the
-- list of pages. A turn's calls run one after another; a call that its timeout cuts off while it
-- waits for a tool has stored nothing yet.
pub mod Kept
pub mod Remembered
pub mod Change
pub mod Rows
pub mod Delivered
use web_agent_research.Prelude.{
  ℕ, zero, suc, ◌+◌, ◌-◌, ◌*◌, ◌/◌, ◌%◌, ◌^◌, ◌≤◌, ◌<◌, min, max, ◌≡◌, refl, sym, ap, ◌∙◌, ◌≢◌, ◌↔◌,
  ◌⊎◌, inl, inr, Bool, true, false, not, ◌&&◌, ◌||◌, Option, none, List, [], ◌∷◌, ◌++◌, map,
  append-nil, append_assoc, arith, Text, codes, is_empty, text_eq, text_eq_iff, contains, join,
  is_whitespace, is_blank, show, ltb, leb, ◌==◌, if◌then◌else◌, ltb→lt, lt→ltb, leb→le, if_true,
  if_false, ==_iff, Bool-cases, Option-cases, length, take, drop, get_elem?, length-append,
  take-append-drop, length-take, length-drop, length-map, concat, All, All-append, some,
}
use web_agent_research.Llm.{RequestedToolCall}
use web_agent_research.Context.{page_parts}
use web_agent_research.Search.{MergedResult, SearchInput}
use web_agent_research.ToolResult.{
  Evidence, Served, memory, FailureKind, dispatch, execution, ToolResult, search, search_note,
  search_blocked, already_fetched, failed,
}
use web_agent_research.Registry.{StoredPage, deliver_part}

pub record Store : Type 0 where
  pub fetched : List (Text × ℕ)
  pub pages : List StoredPage

abbrev pub empty_store : Store
empty_store = record { fetched = []; pages = [] }

pub record FetchInput : Type 0 where
  pub url : Text
  pub part : Option ℕ

pub data SearchOutcome : Type 0 where
  hits : List MergedResult → List Text → SearchOutcome
  note : Text → SearchOutcome
  blocked : Text → SearchOutcome
  no_search : Text → SearchOutcome

pub data Fetched : Type 0 where
  page : Evidence → Served → Fetched
  no_page : Text → FailureKind → Fetched

pub data Parsed (A : Type 0) : Type 0 where
  ok : A → Parsed A
  bad : Text → Parsed A

pub record Backend (W J : Type 0) : Type 0 where
  pub from_str : Text → Parsed J
  pub parse_search_args : J → Parsed SearchInput
  pub parse_fetch_input : J → Parsed FetchInput
  pub search_web : W → SearchInput → SearchOutcome × W
  pub fetch_web : W → J → Text → Fetched × W
  pub dedup_key : Text → Text

-- The map's entry is the first of its key.
abbrev pub lookup : Text → List (Text × ℕ) → Option ℕ
lookup key [] = none
lookup key ((k, i) ∷ entries) = if text_eq k key then some i else lookup key entries

abbrev pub set_page : ℕ → StoredPage → List StoredPage → List StoredPage
set_page i stored [] = []
set_page zero stored (old ∷ pages) = stored ∷ pages
set_page (suc i) stored (old ∷ pages) = old ∷ set_page i stored pages

abbrev pub keep_delivered :
    Store → ℕ → Option (ToolResult × StoredPage) → Option (ToolResult × Store)
keep_delivered store i none = none
keep_delivered store i (some (result, stored)) =
    some (result, record store { pages = set_page i stored store.pages })

-- `deliver_part` of a page of the store; `none` is a panic.
abbrev pub deliver_at :
    Store → ℕ → RequestedToolCall → ℕ → ℕ → Served → Option StoredPage → Option (ToolResult × Store)
deliver_at store i call part part_chars served none = none
deliver_at store i call part part_chars served (some stored) =
    keep_delivered store i (deliver_part call stored part part_chars served)

abbrev pub pointer : FetchInput → ℕ → StoredPage → ToolResult
pointer input part_chars stored =
    already_fetched input.url stored.page.source_url
      (min (length (page_parts stored.page.markdown part_chars)) (2 ^ 32 - 1))

abbrev pub is_seen : Option ℕ → Option StoredPage → Bool
is_seen (some part) stored = false
is_seen none none = false
is_seen none (some stored) = stored.delivered

abbrev part_or_first : Option ℕ → ℕ
part_or_first none = 1
part_or_first (some part) = part

abbrev pub point_to : FetchInput → ℕ → Store → Option StoredPage → Option (ToolResult × Store)
point_to input part_chars store none = none
point_to input part_chars store (some stored) = some (pointer input part_chars stored, store)

-- A known page: a pointer once the model has seen it, unless a part is asked for.
abbrev pub known_page : Store → ℕ → RequestedToolCall → FetchInput → ℕ → Option (ToolResult × Store)
known_page store i call input part_chars =
    let stored = get_elem? store.pages i in
    if is_seen input.part stored
    then point_to input part_chars store stored
    else deliver_at store i call (part_or_first input.part) part_chars memory stored

abbrev pub new_page : Evidence → StoredPage
new_page evidence = record { page = evidence; delivered = false }

-- The page that is already stored under the final URL, else the new one, under both keys.
abbrev pub store_page : Store → Text → Text → Evidence → Option ℕ → Store × ℕ
store_page store requested source evidence (some i) =
    (record store { fetched = (requested, i) ∷ store.fetched }, i)
store_page store requested source evidence none =
    let i = length store.pages in
    (
      record {
        fetched = (requested, i) ∷ (source, i) ∷ store.fetched;
        pages = store.pages ++ new_page evidence ∷ [];
      },
      i,
    )

abbrev mark : Store → MergedResult → MergedResult
mark store hit = record hit {
  title = elim (lookup hit.canonical_url store.fetched) [
    | none ↦ hit.title
    | some i ↦ hit.title ++ codes " (already fetched)"
  ];
}

abbrev mark_already_fetched : Store → List MergedResult → List MergedResult
mark_already_fetched store list = map (mark store) list

abbrev pub search_result : Store → RequestedToolCall → SearchOutcome → ToolResult
search_result store call (hits list engine_status) =
    search (mark_already_fetched store list) engine_status
search_result store call (note text) = search_note text
search_result store call (blocked detail) = search_blocked detail
search_result store call (no_search reason) = failed call.name reason execution

module _ {W J : Type 0} (backend : Backend W J) where
  abbrev pub with_world : W → Option (ToolResult × Store) → Option (ToolResult × (Store × W))
  with_world w none = none
  with_world w (some (result, store)) = some (result, (store, w))

  abbrev pub new_fetch :
      Store → W → RequestedToolCall → FetchInput → ℕ → Fetched → Option (ToolResult × (Store × W))
  new_fetch store w call input part_chars (no_page reason kind) =
      some (failed call.name reason kind, (store, w))
  new_fetch store w call input part_chars (page evidence served) =
      let source = backend.dedup_key evidence.source_url in
      let (store', i) =
        store_page store (backend.dedup_key input.url) source evidence
          (lookup source store.fetched) in
      with_world w (
        deliver_at store' i call (part_or_first input.part) part_chars served
          (get_elem? store'.pages i))

  abbrev pub fetch_page :
      Store
      → W
      → RequestedToolCall
      → J
      → FetchInput
      → ℕ
      → Option ℕ
      → Option (ToolResult × (Store × W))
  fetch_page store w call args input part_chars (some i) =
      with_world w (known_page store i call input part_chars)
  fetch_page store w call args input part_chars none =
      let (fetched, w') = backend.fetch_web w args input.url in
      new_fetch store w' call input part_chars fetched

  abbrev pub fetch_call :
      Store → W → RequestedToolCall → J → ℕ → Parsed FetchInput → Option (ToolResult × (Store × W))
  fetch_call store w call args part_chars (bad reason) =
      some (failed call.name (codes "invalid args for 'fetch': " ++ reason) dispatch, (store, w))
  fetch_call store w call args part_chars (ok input) =
      fetch_page store w call args input part_chars
        (lookup (backend.dedup_key input.url) store.fetched)

  abbrev pub search_call :
      Store → W → RequestedToolCall → Parsed SearchInput → Option (ToolResult × (Store × W))
  search_call store w call (bad reason) =
      some (failed call.name (codes "invalid args for 'search': " ++ reason) dispatch, (store, w))
  search_call store w call (ok input) =
      let (outcome, w') = backend.search_web w input in
      some (search_result store call outcome, (store, w'))

  abbrev pub run_call :
      Store → W → RequestedToolCall → ℕ → Parsed J → Option (ToolResult × (Store × W))
  run_call store w call part_chars (bad err) =
      some (failed call.name (codes "arguments are not valid JSON: " ++ err) dispatch, (store, w))
  run_call store w call part_chars (ok args) =
      if text_eq call.name (codes "search")
      then search_call store w call (backend.parse_search_args args)
      else if text_eq call.name (codes "fetch")
      then fetch_call store w call args part_chars (backend.parse_fetch_input args)
      else some (
        failed call.name (codes "unknown tool '" ++ (call.name ++ codes "'")) dispatch,
        (store, w),
      )

  unfoldable pub execute : Store → W → RequestedToolCall → ℕ → Option (ToolResult × (Store × W))
  unfolding text_eq deliver_part
  execute store w call part_chars =
      run_call store w call part_chars (backend.from_str call.arguments)
