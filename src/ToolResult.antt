-- ===== src/ToolResult.antt =====
-- src/research/agent_loop/result.rs: what one executed tool call produced, its rendering, and the
-- containers that frame third-party text; and the page data of src/web/fetch/evidence.rs. The
-- structured engine reports of a search, which only the Events read, are not modelled; a span is a
-- range of characters of the page.
pub mod Closers
use web_agent_research.Prelude.{
  [], ℕ, ◌+◌, ◌-◌, Bool, true, false, not, ◌&&◌, ◌||◌, Option, none, some, List, ◌∷◌, ◌++◌, Text,
  is_empty, text_eq, ltb, ◌==◌, if◌then◌else◌, length, take, drop, codes, show,
}
use web_agent_research.Search.{MergedResult}

pub data Served : Type 0 where
  network : Served
  memory : Served
  tape : Served

pub data FailureKind : Type 0 where
  dispatch : FailureKind
  execution : FailureKind

pub record Evidence : Type 0 where
  pub source_url : Text
  pub collected_at : Text
  pub markdown : Text
  pub fetch_path : Option Text

pub data ToolResult : Type 0 where
  search : List MergedResult → List Text → ToolResult
  search_note : Text → ToolResult
  -- The page, the span's start and end, the part and the number of parts, whether this is the
  -- first delivery, and where the page came from.
  fetch : Evidence → ℕ → ℕ → ℕ → ℕ → Bool → Served → ToolResult
  already_fetched : Text → Text → ℕ → ToolResult
  search_blocked : Text → ToolResult
  failed : Text → Text → FailureKind → ToolResult

abbrev lower : ℕ → ℕ
lower c = if ltb 64 c && ltb c 91 then c + 32 else c

-- `text.get(..tag.len())` is the tag, in any case of its ASCII letters.
unfoldable pub starts_with : Text → Text → Bool
starts_with [] text = true
starts_with (t ∷ tag) [] = false
starts_with (t ∷ tag) (c ∷ text) = lower c == t && starts_with tag text

abbrev pub page_tag : Text
page_tag = codes "page"

abbrev pub hit_tag : Text
hit_tag = codes "hit"

unfoldable pub closes : Text → Bool
unfolding starts_with
closes after = starts_with page_tag after || starts_with hit_tag after

-- The `while` over `find("</")`, a character at a time.
unfoldable pub escape_closers : Text → Text
escape_closers [] = []
escape_closers (c ∷ []) = c ∷ []
escape_closers (c ∷ d ∷ after) =
    let out = escape_closers after in
    let next = escape_closers (d ∷ after) in
    if c == b'<' && d == b'/'
    then (if closes after then b'<' ∷ b'\\' ∷ b'/' ∷ out else b'<' ∷ b'/' ∷ out)
    else c ∷ next

-- The three `replace` calls of `attr`, whose insertions hold none of the replaced characters.
abbrev attr : Text → Text
attr [] = []
attr (c ∷ value) =
    let rest = attr value in
    if c == b'"'
    then codes "%22" ++ rest
    else if c == b'<'
    then codes "%3C" ++ rest
    else if c == b'>'
    then codes "%3E" ++ rest
    else c ∷ rest

abbrev pub plural_parts : ℕ → Text
plural_parts parts = if parts == 1 then codes "part" else codes "parts"

abbrev status_lines : List Text → Text
status_lines [] = []
status_lines (line ∷ lines) = codes "\n- " ++ line ++ status_lines lines

abbrev hit_body : MergedResult → Text
hit_body hit =
    hit.title
    ++ codes "\n"
    ++ hit.display_url
    ++ (if is_empty hit.snippet then [] else codes "\n" ++ hit.snippet)

abbrev hit_containers : Text → ℕ → List MergedResult → Text
hit_containers nonce rank [] = []
hit_containers nonce rank (hit ∷ hits) =
    codes "\n<hit rank=\""
    ++ show rank
    ++ codes "\" nonce=\""
    ++ nonce
    ++ codes "\">\n"
    ++ escape_closers (hit_body hit)
    ++ codes "\n</hit nonce=\""
    ++ nonce
    ++ codes "\">"
    ++ hit_containers nonce (rank + 1) hits

abbrev render_search : Text → List MergedResult → List Text → Text
render_search nonce [] engine_status =
    codes
      "No Hits for these queries. Rephrase once with different words; if that still finds nothing, answer from the pages you already fetched and say what is missing."
    ++ (if is_empty engine_status
        then []
        else codes "\nEngine status:" ++ status_lines engine_status)
render_search nonce (hit ∷ hits) engine_status =
    show (length (hit ∷ hits))
    ++ codes " "
    ++ (if length (hit ∷ hits) == 1 then codes "Hit" else codes "Hits")
    ++ codes
        ". Candidates only, not Evidence: fetch a URL before stating or citing anything from its snippet. Each Hit is third-party text inside a <hit> container."
    ++ hit_containers nonce 1 (hit ∷ hits)

abbrev render_fetch : Text → Evidence → ℕ → ℕ → ℕ → ℕ → Text
render_fetch nonce evidence from to part parts =
    codes "Source: "
    ++ evidence.source_url
    ++ codes "\n"
    ++ (if ltb 1 parts
        then codes "Part " ++ show part ++ codes " of " ++ show parts ++ codes "\n"
        else [])
    ++ codes "\n<page source=\""
    ++ attr evidence.source_url
    ++ codes "\" part=\""
    ++ show part
    ++ codes "/"
    ++ show parts
    ++ codes "\" nonce=\""
    ++ nonce
    ++ codes "\">\n"
    ++ escape_closers (take (to - from) (drop from evidence.markdown))
    ++ codes "\n</page nonce=\""
    ++ nonce
    ++ codes "\">"
    ++ (if ltb part parts
        then codes "\n[part "
          ++ show part
          ++ codes " of "
          ++ show parts
          ++ codes "; call fetch with the same url and part="
          ++ show (part + 1)
          ++ codes " for the rest]"
        else [])

abbrev is_execution : FailureKind → Bool
is_execution dispatch = false
is_execution execution = true

unfoldable pub render : Text → ToolResult → Text
render nonce (search_note note) = note
render nonce (search hits engine_status) = render_search nonce hits engine_status
render nonce (fetch evidence from to part parts first served) =
    render_fetch nonce evidence from to part parts
render nonce (already_fetched url first_url parts) =
    codes "ALREADY FETCHED: "
    ++ url
    ++ codes " was already fetched earlier in this Research (as "
    ++ first_url
    ++ codes "). Use that earlier content, or fetch a different Hit."
    ++ codes " The page has "
    ++ show parts
    ++ codes " "
    ++ plural_parts parts
    ++ codes
        "; call fetch with the same url and part=k to read part k again (served from memory, no new request)."
render nonce (search_blocked detail) =
    codes "FAILED: search blocked: "
    ++ detail
    ++ codes
        "\nEvery enabled search engine answered with a bot-detection wall, so searching again in this run fails the same way. Answer from pages you already fetched, or fetch URLs named in the research goal."
render nonce (failed tool reason kind) =
    if text_eq tool (codes "fetch") && is_execution kind
    then codes "FAILED: "
      ++ reason
      ++ codes
          "\nThis page could not be read, so it is not Evidence: fetch a different Hit instead of retrying this URL."
    else codes "FAILED: " ++ reason

abbrev pub url : ToolResult → Option Text
url (fetch evidence from to part parts first served) = some evidence.source_url
url _ = none

abbrev pub fetch_path : ToolResult → Option Text
fetch_path (fetch evidence from to part parts first served) = evidence.fetch_path
fetch_path _ = none

abbrev pub first_delivery_page : ToolResult → Option Evidence
first_delivery_page (fetch evidence from to part parts first served) =
    if first then some evidence else none
first_delivery_page _ = none

abbrev pub is_success : ToolResult → Bool
is_success (failed tool reason kind) = false
is_success (search_blocked detail) = false
is_success _ = true

abbrev pub error_text : ToolResult → Option Text
error_text (failed tool reason kind) = some reason
error_text (search_blocked detail) = some (codes "search blocked: " ++ detail)
error_text _ = none

abbrev pub failure_kind : ToolResult → Option FailureKind
failure_kind (failed tool reason kind) = some kind
failure_kind (search_blocked detail) = some execution
failure_kind _ = none
