-- ===== src/Tests/Memory.antt =====
-- Fetches of one page in one run.
use web_agent_research.Prelude.{
  ℕ, zero, suc, ◌+◌, ◌-◌, ◌*◌, ◌/◌, ◌%◌, ◌^◌, ◌≤◌, ◌<◌, min, max, ◌≡◌, sym, ap, ◌∙◌, ◌≢◌, ◌↔◌, ◌⊎◌,
  inl, inr, Bool, true, false, not, ◌&&◌, ◌||◌, Option, none, some, List, [], ◌∷◌, ◌++◌, map,
  append-nil, append_assoc, arith, Text, codes, is_empty, text_eq, text_eq_iff, contains, join,
  is_whitespace, is_blank, show, ltb, leb, ◌==◌, if◌then◌else◌, ltb→lt, lt→ltb, leb→le, if_true,
  if_false, ==_iff, Bool-cases, Option-cases, length, take, drop, get_elem?, length-append,
  take-append-drop, length-take, length-drop, length-map, concat, All, All-append, refl,
}
use web_agent_research.Llm.{RequestedToolCall}
use web_agent_research.ToolResult.{Evidence, ToolResult, fetch, network}
use web_agent_research.Registry.Store.{
  known_page, with_world, Store, empty_store, FetchInput, Fetched, page, Parsed, ok, bad, Backend,
  no_search, execute,
}
use web_agent_research.Registry.Store.Remembered.{IsFetch, fetch_once}
use web_agent_research.Registry.Store.Remembered
use web_agent_research.Registry.Store.Delivered.{no_call, then_call, rows_once}
use web_agent_research.Answer.Links.Distinct.{AreDistinct}
use web_agent_research.Registry.Store.Rows.{key_of}

abbrev evidence : Evidence
evidence = record {
  source_url = codes "https://a.x/p";
  collected_at = codes "now";
  markdown = codes "hi";
  fetch_path = none;
}

-- The world counts the requests.
abbrev backend : Backend ℕ Text
backend = record {
  from_str = ok;
  parse_search_args = λ args. bad args;
  parse_fetch_input = λ args. ok (record { url = args; part = none });
  search_web = λ w input. (no_search [], suc w);
  fetch_web = λ w args url. (page evidence network, suc w);
  dedup_key = λ url. url;
}

abbrev call : RequestedToolCall
call = record { id = codes "1"; name = codes "fetch"; arguments = codes "https://a.x/" }

abbrev input : FetchInput
input = record { url = codes "https://a.x/"; part = none }

abbrev seen_once : Store
seen_once = record {
  fetched = (codes "https://a.x/", 0) ∷ (codes "https://a.x/p", 0) ∷ [];
  pages = record { page = evidence; delivered = true } ∷ [];
}

abbrev first_result : ToolResult
first_result = fetch evidence 0 2 1 1 true network

is_fetch : IsFetch backend call input
unfolding web_agent_research.Prelude.text_eq
is_fetch = record { args = codes "https://a.x/"; named = refl; decodes = refl; parses = refl }

first_fetch : execute backend empty_store 0 call 10 ≡ some (first_result, (seen_once, 1))
unfolding web_agent_research.Registry.Store.execute web_agent_research.Prelude.text_eq
    web_agent_research.Registry.part_spans web_agent_research.Context.page_parts
first_fetch = refl

fetch_once_example :
    (i : ℕ) × (execute backend seen_once 1 call 10
      ≡ with_world backend 1 (known_page seen_once i call input 10))
fetch_once_example =
    fetch_once backend empty_store 0 call input 10 first_result seen_once 1 seen_once 1 call input
      10 is_fetch (record { evidence = evidence; served = network; unknown = refl; gave = refl })
      first_fetch (web_agent_research.Registry.Store.Remembered.no_call seen_once 1) is_fetch refl

-- The same page again, by another URL.
abbrev second_call : RequestedToolCall
second_call = record { id = codes "2"; name = codes "fetch"; arguments = codes "https://a.x/q" }

abbrev seen_twice : Store
seen_twice = record {
  fetched =
      (codes "https://a.x/q", 0) ∷ (codes "https://a.x/", 0) ∷ (codes "https://a.x/p", 0) ∷ [];
  pages = record { page = evidence; delivered = true } ∷ [];
}

abbrev second_result : ToolResult
second_result = fetch evidence 0 2 1 1 false network

second_fetch : execute backend seen_once 1 second_call 10 ≡ some (second_result, (seen_twice, 2))
unfolding web_agent_research.Registry.Store.execute web_agent_research.Prelude.text_eq
    web_agent_research.Registry.part_spans web_agent_research.Context.page_parts
second_fetch = refl

rows_once_example : AreDistinct (map (key_of (λ url. url)) (evidence ∷ []))
rows_once_example = rows_once backend 0 (evidence ∷ []) seen_twice 2 (
    then_call call 10 first_result first_fetch
      (then_call second_call 10 second_result second_fetch (no_call seen_twice 2)))
