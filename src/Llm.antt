-- ===== src/Llm.antt =====
-- src/llm/request.rs, src/llm/reply.rs and src/llm/client.rs: the wire messages and what a reply
-- carries. A provider's JSON block (`serde_json::Value`) is kept as its text.
pub mod Errors
use web_agent_research.Prelude.{
  [], ℕ, ◌+◌, ◌-◌, ◌^◌, min, Text, codes, Option, none, some, List, if◌then◌else◌, is_empty, Bool,
  true, false, not, ◌||◌, ◌==◌,
}

pub record RequestedToolCall : Type 0 where
  pub id : Text
  pub name : Text
  pub arguments : Text

pub record ReplayBlocks : Type 0 where
  pub blocks : List Text
  pub chars : ℕ

pub record ChatMessage : Type 0 where
  pub role : Text
  pub content : Option Text
  pub tool_calls : Option (List RequestedToolCall)
  pub tool_call_id : Option Text
  pub replay : ReplayBlocks

abbrev pub no_replay : ReplayBlocks
no_replay = record { blocks = []; chars = 0 }

abbrev pub text_message : Text → Text → ChatMessage
text_message role content = record {
  role = role;
  content = some content;
  tool_calls = none;
  tool_call_id = none;
  replay = no_replay;
}

abbrev pub system : Text → ChatMessage
system = text_message (codes "system")

abbrev pub user : Text → ChatMessage
user = text_message (codes "user")

abbrev pub assistant : Text → ChatMessage
assistant = text_message (codes "assistant")

abbrev pub assistant_tool_calls : Text → List RequestedToolCall → ReplayBlocks → ChatMessage
assistant_tool_calls text calls replay = record {
  role = codes "assistant";
  content = if is_empty text then none else some text;
  tool_calls = some calls;
  tool_call_id = none;
  replay = replay;
}

abbrev pub tool : Text → Text → ChatMessage
tool id content = record {
  role = codes "tool";
  content = some content;
  tool_calls = none;
  tool_call_id = some id;
  replay = no_replay;
}

pub record TokenUsage : Type 0 where
  pub prompt_tokens : ℕ
  pub completion_tokens : ℕ
  pub total_tokens : ℕ
  pub reasoning_tokens : ℕ
  pub cached_prompt_tokens : ℕ
  pub cache_creation_prompt_tokens : ℕ

abbrev pub no_usage : TokenUsage
no_usage = record {
  prompt_tokens = 0;
  completion_tokens = 0;
  total_tokens = 0;
  reasoning_tokens = 0;
  cached_prompt_tokens = 0;
  cache_creation_prompt_tokens = 0;
}

-- `u64::saturating_add`
abbrev add_u64 : ℕ → ℕ → ℕ
add_u64 a b = min (a + b) (2 ^ 64 - 1)

unfoldable pub add : TokenUsage → TokenUsage → TokenUsage
add u v = record {
  prompt_tokens = add_u64 u.prompt_tokens v.prompt_tokens;
  completion_tokens = add_u64 u.completion_tokens v.completion_tokens;
  total_tokens = add_u64 u.total_tokens v.total_tokens;
  reasoning_tokens = add_u64 u.reasoning_tokens v.reasoning_tokens;
  cached_prompt_tokens = add_u64 u.cached_prompt_tokens v.cached_prompt_tokens;
  cache_creation_prompt_tokens =
      add_u64 u.cache_creation_prompt_tokens v.cache_creation_prompt_tokens;
}

pub record LlmReply : Type 0 where
  pub thinking : Text
  pub output : Text
  pub finish_reason : Option Text
  pub tool_calls : List RequestedToolCall
  pub usage : TokenUsage
  pub replay : ReplayBlocks

-- src/llm/client.rs
pub data GatewayError : Type 0 where
  missing_api_key : GatewayError
  auth : GatewayError
  forbidden : Text → GatewayError
  rate_limited : Option ℕ → GatewayError
  server : ℕ → Text → Option ℕ → GatewayError
  client : ℕ → Text → GatewayError
  error_body : Text → Text → Bool → GatewayError
  timeout : GatewayError
  transport : Text → GatewayError
  invalid_request : Text → GatewayError
  parse : Text → GatewayError
  empty_choices : GatewayError
  refused : Text → GatewayError

-- Whether the same request may succeed later.
unfoldable pub is_retryable : GatewayError → Bool
is_retryable (rate_limited retry_after) = true
is_retryable (server status detail retry_after) = not (status == 501 || status == 505)
is_retryable (error_body kind message retryable) = retryable
is_retryable timeout = true
is_retryable (transport detail) = true
is_retryable _ = false

-- `Result<LlmReply, GatewayError>`
pub data ChatResult : Type 0 where
  replied : LlmReply → ChatResult
  refused_with : GatewayError → ChatResult
