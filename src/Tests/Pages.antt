-- ===== src/Tests/Pages.antt =====
-- Deliveries of a stored page's parts.
use web_agent_research.Prelude.{◌≢◌, true, false, none, [], arith, codes}
use web_agent_research.Llm.{RequestedToolCall}
use web_agent_research.ToolResult.{network, fetch, first_delivery_page}
use web_agent_research.Registry.{StoredPage}

abbrev call : RequestedToolCall
call = record { id = codes "a"; name = codes "fetch"; arguments = codes "{}" }

abbrev stored : StoredPage
stored = record {
  page = record {
    source_url = codes "https://example.com/";
    collected_at = [];
    markdown = codes "first line\nsecond line";
    fetch_path = none;
  };
  delivered = false;
}

abbrev seen : StoredPage
seen = record stored { delivered = true }

delivered_page : first_delivery_page (fetch stored.page 0 12 1 2 true network) ≢ none
delivered_page e = ground arith
