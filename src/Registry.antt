-- ===== src/Registry.antt =====
-- src/research/agent_loop/registry.rs: the parts of a stored page. A panic is `none`; the stored
-- page's `AtomicBool` is a field that the delivery gives back.
pub mod Parts
pub mod Store
use web_agent_research.Prelude.{
  ℕ, zero, suc, ◌+◌, ◌-◌, ◌*◌, ◌/◌, ◌%◌, ◌^◌, ◌≤◌, ◌<◌, min, max, ◌≡◌, refl, sym, ap, ◌∙◌, ◌≢◌, ◌↔◌,
  ◌⊎◌, inl, inr, Bool, true, false, not, ◌&&◌, ◌||◌, Option, none, some, List, [], ◌∷◌, ◌++◌, map,
  append-nil, append_assoc, arith, Text, codes, is_empty, text_eq, text_eq_iff, contains, join,
  is_whitespace, is_blank, show, ltb, leb, ◌==◌, if◌then◌else◌, ltb→lt, lt→ltb, leb→le, if_true,
  if_false, ==_iff, Bool-cases, Option-cases, length, take, drop, get_elem?, length-append,
  take-append-drop, length-take, length-drop, length-map, concat, All, All-append,
}
use web_agent_research.Llm.{RequestedToolCall}
use web_agent_research.Context.{page_parts}
use web_agent_research.ToolResult.{
  Evidence, Served, dispatch, ToolResult, fetch, failed, plural_parts,
}

pub record StoredPage : Type 0 where
  pub page : Evidence
  pub delivered : Bool

spans_from : ℕ → List Text → List (ℕ × ℕ)
spans_from start [] = []
spans_from start (part ∷ parts) =
    (start, start + length part) ∷ spans_from (start + length part) parts

unfoldable pub part_spans : Text → ℕ → List (ℕ × ℕ)
unfolding spans_from
part_spans markdown part_chars = spans_from 0 (page_parts markdown part_chars)

abbrev past_end : RequestedToolCall → ℕ → ℕ → ToolResult
past_end call part parts =
    failed call.name
      (codes "part "
        ++ show part
        ++ codes " is past the end: the page has "
        ++ show parts
        ++ codes " "
        ++ plural_parts parts)
      dispatch

-- `spans.swap_remove(part as usize - 1)`, which panics for part 0 and past the end.
abbrev span_of : List (ℕ × ℕ) → ℕ → Option (ℕ × ℕ)
span_of spans zero = none
span_of spans (suc i) = get_elem? spans i

abbrev deliver_span :
    StoredPage → ℕ → ℕ → Served → Option (ℕ × ℕ) → Option (ToolResult × StoredPage)
deliver_span stored part parts served none = none
deliver_span stored part parts served (some span) = some (
  fetch stored.page span.0 span.1 part parts (not stored.delivered) served,
  record stored { delivered = true },
)

unfoldable pub deliver_part :
    RequestedToolCall → StoredPage → ℕ → ℕ → Served → Option (ToolResult × StoredPage)
deliver_part call stored part part_chars served =
    let spans = part_spans stored.page.markdown part_chars in
    let parts = min (length spans) (2 ^ 32 - 1) in
    if ltb parts part
    then some (past_end call part parts, stored)
    else deliver_span stored part parts served (span_of spans part)
