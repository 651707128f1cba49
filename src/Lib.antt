-- ===== src/Lib.antt =====
-- The research agent of src/: a loop that asks a model, runs the `search` and `fetch` calls it
-- makes, and stops at an answer, under limits on turns, time and context; and the web layer below
-- it, which keeps fetches on public addresses and paces and suspends search engines.
--
-- Parts and files:
--   Prelude        shared names; text as lists of Unicode scalars, numbers' tests, lists
--   Budget         src/research/agent_loop/types.rs: LoopBudget, for_window, turn_budget, deadline
--   Llm            src/llm/request.rs, reply.rs, client.rs: messages, replies, usage, errors
--   Context        src/research/agent_loop/context.rs: history, truncate_history, assemble,
--                  page_parts
--   ToolResult     src/research/agent_loop/result.rs: results, render, escape_closers
--   Registry       src/research/agent_loop/registry.rs: part_spans, deliver_part;
--                  Store: execute and the run's pages
--   Dispatch       src/research/agent_loop/dispatch.rs: resolve_call_ids, dispatch_turn, notes
--   Runner         src/research/agent_loop/runner.rs: preflight, the rounds of run_loop
--   Synthesis      src/research/synthesis.rs: the typed answer
--   Answer         src/research/agent_loop/answer.rs: parse_answer with its links, bullets and block,
--                  retain_fetched_citations
--   Dedup          src/web/search/dedup.rs: the groups of merge_scored
--   Egress         src/web/fetch/egress.rs: refused addresses, URL, DNS and redirect checks
--   Response       src/llm/response.rs: the OpenAI response body and its parser
--   Sse            src/llm/stream/sse.rs: SseParser, push, take_line
--   Stream         src/llm/stream.rs, stream/openai.rs: read_sse, the OpenAI assembler
--   Gateway        src/llm/client.rs: chat_observed, its retries, backoff; try_once
--   Search         src/web/search/types.rs: engines, errors, SearchInput::validate
--   Config         src/web/search/governor/config.rs: settings, suspension_for
--   Engine         src/web/search/governor/persist.rs: clocks, merge_view
--   Governor       src/web/search/governor/mod.rs, permit.rs: sync, records, pace
--   Tests          concrete runs
--
-- How they interact: Runner calls Dispatch for the calls of a reply and Context for the messages of
-- a request; Dispatch renders a ToolResult and caps it with Context; both take the clock and the
-- registry as operations on a world, and Runner the gateway too (the records Tools and Services).
-- Governor keeps one EngineView per engine, merged with the file by Engine's merge_view on each
-- `sync`, and reads its settings from Config.
--
-- State and operations: a function that changes state takes the state and gives the new one. Times
-- are nanoseconds on a clock that starts at the earliest instant; a signed 64-bit number of
-- milliseconds is kept with 2^63 added; counters of 32 bits keep their wrap-around. The rounds
-- of run_loop run on fuel, as many rounds as the largest turn budget, which is enough, since each
-- round that goes on uses a turn; page_parts runs on the characters of the page, since each part
-- takes at least one. Concurrent legs of an engine are a step relation, the wait of `pace` between
-- two steps, with the aborts of waiting legs and the outcomes that legs record as steps.
--
-- The loop of a gateway call runs on fuel too, as many rounds as the call has attempts, which is
-- enough, since a round that goes on counts one. A streamed body is the list of what its reads give;
-- SSE framing works on bytes, whatever `String::from_utf8_lossy` makes of a line.
--
-- Not modelled: the Anthropic format and the request bodies, the registry's tape and argument
-- parsers (the latter and the tools are the record Backend), the verification of quotes (a parameter
-- of Runner), the score and order of merged hits, the engines' HTML, fetching and extraction, files,
-- Events and traces.
pub mod Prelude
pub mod Budget
pub mod Llm
pub mod Response
pub mod Sse
pub mod Stream
pub mod Gateway
pub mod Context
pub mod Egress
pub mod Search
pub mod Dedup
pub mod Config
pub mod Engine
pub mod Governor
pub mod ToolResult
pub mod Registry
pub mod Dispatch
pub mod Runner
pub mod Synthesis
pub mod Answer
mod Tests
