-- ===== src/Registry/Parts.antt =====
-- `deliver_part` (src/research/agent_loop/registry.rs): which text of a page a part delivers.
use web_agent_research.Prelude.{ℕ, ◌-◌, ◌^◌, List, Text}
use web_agent_research.Context.{page_parts}
use web_agent_research.Registry.{StoredPage}

abbrev pub parts_of : StoredPage → ℕ → List Text
parts_of stored part_chars = page_parts stored.page.markdown part_chars

abbrev u32_max : ℕ
u32_max = 2 ^ 32 - 1
