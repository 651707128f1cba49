-- ===== src/Stream.antt =====
-- src/llm/stream.rs: the events of a gateway call, and the reader of a streamed body. A body is the
-- list of what its reads give, and ends where the list does. The assembler of a wire format is a
-- record of its operations; Stream/Openai.antt has the one for OpenAI.
pub mod Whole
pub mod Openai
use web_agent_research.Prelude.{
  ℕ, zero, suc, ◌+◌, ◌-◌, ◌*◌, ◌/◌, ◌%◌, ◌^◌, ◌≤◌, ◌<◌, min, max, ◌≡◌, refl, sym, ap, ◌∙◌, ◌≢◌, ◌↔◌,
  ◌⊎◌, inl, inr, Bool, true, false, not, ◌&&◌, ◌||◌, Option, none, some, List, [], ◌∷◌, ◌++◌, map,
  append-nil, append_assoc, arith, Text, codes, is_empty, text_eq_iff, contains, join,
  is_whitespace, is_blank, show, ltb, leb, ◌==◌, if◌then◌else◌, ltb→lt, lt→ltb, leb→le, if_true,
  if_false, ==_iff, Bool-cases, Option-cases, length, take, drop, get_elem?, length-append,
  take-append-drop, length-take, length-drop, length-map, concat, All, All-append, text_eq,
}
use web_agent_research.Search.{trim}
use web_agent_research.Config.{lower}
use web_agent_research.Llm.{ChatResult, replied, refused_with, GatewayError, timeout}
use web_agent_research.Sse.{SseParser, default, push}

pub data LlmEvent : Type 0 where
  text_event : Text → LlmEvent
  thinking : Text → LlmEvent
  tool_args : ℕ → Option Text → Option Text → Text → LlmEvent
  retry : ℕ → ℕ → Text → LlmEvent

-- `split(';').next()`
first_part : Text → Text
first_part [] = []
first_part (c ∷ s) = let rest = first_part s in if c == b';' then [] else c ∷ rest

unfoldable pub is_event_stream : Option Text → Bool
unfolding first_part trim text_eq
is_event_stream none = false
is_event_stream (some value) =
    text_eq (map lower (trim (first_part value))) (codes "text/event-stream")

-- What `feed` leaves: `Flow::More`, `Flow::Done`, or its error.
pub data Fed (S : Type 0) : Type 0 where
  more : S → Fed S
  finished : S → Fed S
  failed : GatewayError → Fed S

pub record Assembler (S : Type 0) : Type 0 where
  pub new : S
  pub feed : S → Text → Fed S × List LlmEvent
  pub finish : S → ChatResult

-- What a wait for the next chunk gives.
pub data ChunkRead : Type 0 where
  silence : ChunkRead
  broken : GatewayError → ChunkRead
  chunk : List ℕ → ChunkRead

module _ {S : Type 0} (decode : List ℕ → Text) (assembler : Assembler S) where
  -- The payloads after one that was fed.
  abbrev pub after_payload :
      (S → Fed S × List LlmEvent) → Fed S × List LlmEvent → Fed S × List LlmEvent
  after_payload next (more s, events) = ((next s).0, events ++ (next s).1)
  after_payload next (finished s, events) = (finished s, events)
  after_payload next (failed err, events) = (failed err, events)

  unfoldable pub feed_all : List Text → S → Fed S × List LlmEvent
  feed_all [] s = (more s, [])
  feed_all (payload ∷ payloads) s = after_payload (feed_all payloads) (assembler.feed s payload)

  -- The reads after a chunk whose payloads were fed.
  abbrev pub after_chunk :
      (S → ChatResult × List LlmEvent) → Fed S × List LlmEvent → ChatResult × List LlmEvent
  after_chunk next (more s, events) = ((next s).0, events ++ (next s).1)
  after_chunk next (finished s, events) = (assembler.finish s, events)
  after_chunk next (failed err, events) = (refused_with err, events)

  unfoldable pub read_loop : List ChunkRead → SseParser → S → ChatResult × List LlmEvent
  unfolding push
  read_loop [] parser s = (assembler.finish s, [])
  read_loop (silence ∷ reads) parser s = (refused_with timeout, [])
  read_loop (broken err ∷ reads) parser s = (refused_with err, [])
  read_loop (chunk bytes ∷ reads) parser s =
      let (parser', payloads) = push decode bytes parser [] in
      after_chunk (read_loop reads parser') (feed_all payloads s)

  -- `read_sse`
  unfoldable pub read_sse : List ChunkRead → ChatResult × List LlmEvent
  read_sse reads = read_loop reads default assembler.new
