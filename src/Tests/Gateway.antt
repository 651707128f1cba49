-- ===== src/Tests/Gateway.antt =====
-- Runs of the gateway client and of its streams.
use web_agent_research.Prelude.{
  ℕ, zero, suc, ◌≤◌, ◌<◌, ◌≡◌, ◌≢◌, ◌⊎◌, true, Option, none, some, List, [], ◌∷◌, ◌++◌, map, arith,
  Text, codes, text_eq, join, if◌then◌else◌, take, drop, get_elem?, concat, refl,
}
use web_agent_research.Budget.{secs}
use web_agent_research.Llm.{
  is_retryable, ChatResult, replied, refused_with, GatewayError, server, rate_limited,
  RequestedToolCall, no_usage, no_replay,
}
use web_agent_research.Sse.{pop_return, default, push}
use web_agent_research.Sse.Chunks.{push-append}
use web_agent_research.Sse.Frames.{IsLine, stream_of, push-stream_of}
use web_agent_research.Stream.{Assembler, chunk, read_sse, more, after_chunk, feed_all}
use web_agent_research.Stream.Whole.{finishes, read_sse_whole}
use web_agent_research.Stream.Openai.{DeltaToolCall, ChunkChoice, Chunk, Payload, decoded, openai}
use web_agent_research.Stream.Openai.Calls.{mine, AtIndex}
use web_agent_research.Stream.Openai.Requests.{call_at, calls_of}
use web_agent_research.Stream.Openai.Taken.{chunks_bring}
use web_agent_research.Stream.Openai.Reply.{IsReply, read_sse-IsReply}
use web_agent_research.Gateway.{
  Net, GatewayConfig, Backoff, first_attempt, attempts, is_timeout, Attempt, round,
}
use web_agent_research.Gateway.Retries.{Runs, ends, goes_on, timeouts}
use web_agent_research.Gateway.GivingUp.{chat_gives_up}
use web_agent_research.Gateway.Status.{Response, Format, answered, arrived, sent_result}
use web_agent_research.Gateway.Status.Retryable.{IsStatusError, error_status}

abbrev plain : List ℕ → Text
plain l = l

push-append_example :
    push plain (codes "data: o" ++ codes "ne\n\n") default []
    ≡ push plain (codes "ne\n\n") (push plain (codes "data: o") default []).0 []
unfolding push
push-append_example = push-append plain (codes "data: o") (codes "ne\n\n") default []

abbrev lines : List (List ℕ)
lines = codes "one" ∷ codes "two" ∷ []

line : IsLine (codes "one")
unfolding pop_return
line = record { ascii = omega arith; one_line = omega arith; no_return = refl }

other_line : IsLine (codes "two")
unfolding pop_return
other_line = record { ascii = omega arith; one_line = omega arith; no_return = refl }

push-stream_of_example :
    push plain (stream_of (lines ∷ [])) default [] ≡ (default, map (join (codes "\n")) (lines ∷ []))
push-stream_of_example =
    push-stream_of plain (λ l h. refl) (lines ∷ []) []
      (((line, (other_line, record {})), omega arith), record {})

-- An assembler that keeps the payloads.
abbrev keeper : Assembler (List Text)
keeper = record {
  new = [];
  feed = λ s payload. (more (s ++ payload ∷ []), []);
  finish = λ s. replied (record {
    thinking = [];
    output = concat s;
    finish_reason = none;
    tool_calls = [];
    usage = no_usage;
    replay = no_replay;
  });
}

abbrev pieces : List (List ℕ)
pieces = codes "data: o" ∷ codes "ne\n" ∷ codes "\n" ∷ []

read_sse_whole_example :
    read_sse plain keeper (map chunk pieces)
    ≡ after_chunk plain keeper
        (finishes plain keeper)
        (feed_all plain keeper (push plain (concat pieces) default []).1 [])
read_sse_whole_example = read_sse_whole plain keeper pieces

-- The gateway is rate limited on its first try.
abbrev second_time : ℕ → Option ℕ → ChatResult × ℕ
second_time zero limit = (refused_with (rate_limited (some 1)), 1)
second_time (suc w) limit = (
  replied (record {
    thinking = [];
    output = codes "hi";
    finish_reason = none;
    tool_calls = [];
    usage = no_usage;
    replay = no_replay;
  }),
  suc (suc w),
)

abbrev net_of : (ℕ → Option ℕ → ChatResult × ℕ) → Net ℕ
net_of try_once = record {
  clock = λ w. (0, w);
  try_once = try_once;
  random_range = λ w n. (0, w);
  sleep = λ w n. w;
  on_event = λ w event. w;
}

abbrev config : GatewayConfig
config = record { api_key = codes "key"; max_attempts = 2; request_timeout = secs 60 }

abbrev down : GatewayError
down = server 500 (codes "down") (some 1)

abbrev always_down : ℕ → Option ℕ → ChatResult × ℕ
always_down w limit = (refused_with down, suc w)

abbrev down_retry : Backoff
down_retry = record { reason = down; delay = secs 1 }

abbrev second_attempt : Attempt
second_attempt = record { attempt = 2; timeouts = 0 }

down_run :
    Runs (net_of always_down) config none first_attempt 0 (down_retry ∷ []) (refused_with down) 2
unfolding web_agent_research.Gateway.round web_agent_research.Llm.is_retryable
    web_agent_research.Llm.Errors.retry_after_secs web_agent_research.Llm.Errors.display
down_run =
    let second : Runs (net_of always_down) config none second_attempt 1 [] (refused_with down) 2 =
      ends (refused_with down) 2 refl in
    goes_on {a = first_attempt} {w = 0} down_retry second_attempt 1 refl second

chat_gives_up_example :
    (attempts config ≡ 2) ⊎ ((is_timeout down ≡ true) × (1 ≤ timeouts (down_retry ∷ [])))
unfolding is_retryable
chat_gives_up_example =
    chat_gives_up (net_of always_down) config 0 (down_retry ∷ []) down 2 down_run refl

abbrev unavailable : Response
unavailable = record {
  status = 503;
  retry_after = none;
  content_type = none;
  body = arrived (codes "busy");
  reads = [];
}

abbrev kept : Format (List Text)
kept = record { assembler = keeper; parse_body = λ raw. keeper.finish [] }

error_status_example :
    (err : GatewayError) × ((sent_result plain (λ t. none) (λ t. none) kept 0 (answered unavailable)
        ≡ (refused_with err, []))
      × IsStatusError 503 err)
error_status_example =
    error_status plain (λ t. none) (λ t. none) kept 0 unavailable (omega arith) (omega arith)

-- Two calls whose fragments are mixed over two chunks; the second skips an index, gets its id late and
-- has no arguments.
abbrev fragment : ℕ → Option Text → Option Text → Text → DeltaToolCall
fragment index id name arguments = record {
  index = some index;
  id = id;
  function = some (record { name = name; arguments = some arguments });
}

abbrev choice_of : Text → List DeltaToolCall → ChunkChoice
choice_of content calls = record {
  index = some 0;
  delta = record {
    content = some content;
    refusal = none;
    reasoning_content = none;
    reasoning = none;
    reasoning_details = [];
    tool_calls = calls;
  };
  finish_reason = none;
}

abbrev chunk_of : ChunkChoice → Chunk
chunk_of choice = record { choices = choice ∷ []; usage = none; error = none }

abbrev first_chunk : Chunk
first_chunk = chunk_of (
    choice_of (codes "a") (
      fragment 0 (some (codes "x")) (some (codes "search")) (codes "{")
      ∷ fragment 2 none (some (codes "fetch")) []
      ∷ []))

abbrev last_chunk : Chunk
last_chunk = chunk_of (
    choice_of (codes "b")
      (fragment 2 (some (codes "y")) none [] ∷ fragment 0 none none (codes "}") ∷ []))

abbrev from_str : Text → Payload
from_str p = decoded (if text_eq p (codes "1") then first_chunk else last_chunk)

abbrev two_calls : List (ℕ × RequestedToolCall)
two_calls =
    (0, record { id = codes "x"; name = codes "search"; arguments = codes "{}" })
    ∷ (2, record { id = codes "y"; name = codes "fetch"; arguments = codes "{}" })
    ∷ []

abbrev two_chunks : List Chunk
two_chunks = first_chunk ∷ last_chunk ∷ []

split : (i : ℕ) → AtIndex (call_at i two_calls) (mine i (chunks_bring two_chunks).calls)
split zero = (refl, refl, refl)
split (suc zero) = refl
split (suc (suc zero)) = (refl, refl, refl)
split (suc (suc (suc i))) = ground arith

abbrev body : List ℕ
body = codes "data: 1\n\ndata: 2\n\ndata: [DONE]\n\n"

short_line : (c : ℕ) → c < 128 → c ≢ 10 → c ≢ 13 → IsLine (c ∷ [])
unfolding pop_return
short_line c h n r = record {
  ascii = (h, record {});
  one_line = (n, record {});
  no_return = ground arith;
}

done_line : IsLine (codes "[DONE]")
unfolding pop_return
done_line = record { ascii = omega arith; one_line = omega arith; no_return = refl }

read_sse-IsReply_example :
    IsReply plain from_str
      (calls_of two_calls)
      two_chunks
      (read_sse plain (openai from_str) (map chunk (take 9 body ∷ drop 9 body ∷ []))).0
unfolding web_agent_research.Search.trim web_agent_research.Prelude.is_whitespace
    web_agent_research.Prelude.is_blank text_eq
read_sse-IsReply_example =
    read_sse-IsReply plain from_str (λ l h. refl) (codes "1" ∷ codes "2" ∷ []) two_chunks two_calls
      (take 9 body ∷ drop 9 body ∷ [])
      (
        record { some_text = refl; not_done = refl; decodes = refl; no_error = refl },
        (record { some_text = refl; not_done = refl; decodes = refl; no_error = refl }, record {}),
      )
      (
        ((short_line 49 (omega arith) (omega arith) (omega arith), record {}), omega arith),
        (
          ((short_line 50 (omega arith) (omega arith) (omega arith), record {}), omega arith),
          (((done_line, record {}), omega arith), record {}),
        ),
      )
      refl ((0, refl), ((2, refl), ((2, refl), ((0, refl), record {})))) (omega arith) split refl
      refl
