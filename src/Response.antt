-- ===== src/Response.antt =====
-- src/llm/response.rs: the OpenAI response body and its parser. A body is modelled as it stands after
-- `serde_json` decoded it.
use web_agent_research.Prelude.{ℕ, max, Option, none, some, List, [], ◌∷◌, map, Text, codes, join}
use web_agent_research.Llm.{
  ChatResult, replied, refused_with, empty_choices, refused, TokenUsage, no_usage, no_replay,
  LlmReply, RequestedToolCall,
}
use web_agent_research.Llm.Errors.{ErrorValue, error_object}

pub record ToolFunction : Type 0 where
  pub name : Option Text
  pub arguments : Option Text

pub record ToolCall : Type 0 where
  pub id : Option Text
  pub function : Option ToolFunction

pub record ResponseMessage : Type 0 where
  pub content : Option Text
  pub refusal : Option Text
  pub reasoning_content : Option Text
  pub reasoning : Option Text
  pub reasoning_details : List (Option Text)
  pub tool_calls : List ToolCall

pub record Choice : Type 0 where
  pub message : ResponseMessage
  pub finish_reason : Option Text

-- The details' one field each: `reasoning_tokens` and `cached_tokens`.
pub record ResponseUsage : Type 0 where
  pub prompt_tokens : ℕ
  pub completion_tokens : ℕ
  pub total_tokens : ℕ
  pub completion_tokens_details : Option ℕ
  pub prompt_tokens_details : Option ℕ
  pub cache_read_input_tokens : Option ℕ

-- `error` is `none` for a missing and for a null field.
pub record ChatResponse : Type 0 where
  pub choices : List Choice
  pub usage : Option ResponseUsage
  pub error : Option ErrorValue

abbrev pub unwrap_or {ℓ} : {A : Type ℓ} → A → Option A → A
unwrap_or x none = x
unwrap_or x (some y) = y

-- `.filter(|text| !text.is_empty())`
abbrev pub non_empty : Option Text → Option Text
non_empty none = none
non_empty (some []) = none
non_empty (some (c ∷ text)) = some (c ∷ text)

abbrev pub push_some : Option Text → List Text → List Text
push_some none parts = parts
push_some (some text) parts = text ∷ parts

abbrev pub name_of : Option ToolFunction → Option Text
name_of none = none
name_of (some f) = f.name

abbrev pub arguments_of : Option ToolFunction → Option Text
arguments_of none = none
arguments_of (some f) = f.arguments

abbrev pub requested : ToolCall → RequestedToolCall
requested call = record {
  id = unwrap_or [] call.id;
  name = unwrap_or [] (name_of call.function);
  arguments = unwrap_or (codes "{}") (arguments_of call.function);
}

-- The texts of the details that have one.
abbrev pub detail_parts : List (Option Text) → List Text
detail_parts [] = []
detail_parts (text ∷ details) = push_some (non_empty text) (detail_parts details)

abbrev pub thinking_parts : ResponseMessage → List Text
thinking_parts msg =
    push_some (non_empty msg.reasoning_content)
      (push_some (non_empty msg.reasoning) (detail_parts msg.reasoning_details))

abbrev pub token_usage : ResponseUsage → TokenUsage
token_usage u = record {
  prompt_tokens = u.prompt_tokens;
  completion_tokens = u.completion_tokens;
  total_tokens = u.total_tokens;
  reasoning_tokens = unwrap_or 0 u.completion_tokens_details;
  cached_prompt_tokens =
      max (unwrap_or 0 u.prompt_tokens_details) (unwrap_or 0 u.cache_read_input_tokens);
  cache_creation_prompt_tokens = 0;
}

abbrev pub usage_of : Option ResponseUsage → TokenUsage
usage_of none = no_usage
usage_of (some u) = token_usage u

-- A message with no refusal text.
abbrev message_reply : Choice → Option ResponseUsage → LlmReply
message_reply choice usage = record {
  thinking = join (codes "\n") (thinking_parts choice.message);
  output = unwrap_or [] choice.message.content;
  finish_reason = choice.finish_reason;
  tool_calls = map requested choice.message.tool_calls;
  usage = usage_of usage;
  replay = no_replay;
}

abbrev choice_reply : Choice → Option ResponseUsage → Option Text → ChatResult
choice_reply choice usage none = replied (message_reply choice usage)
choice_reply choice usage (some text) = refused_with (refused text)

abbrev choices_reply : List Choice → Option ResponseUsage → ChatResult
choices_reply [] usage = refused_with empty_choices
choices_reply (choice ∷ choices) usage =
    choice_reply choice usage (non_empty choice.message.refusal)

abbrev reply_unless : ChatResult → Option ErrorValue → ChatResult
reply_unless result none = result
reply_unless result (some error) = refused_with (error_object error)

unfoldable pub parse_reply : ChatResponse → ChatResult
unfolding join error_object
parse_reply resp = reply_unless (choices_reply resp.choices resp.usage) resp.error
