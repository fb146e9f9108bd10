-- ===== src/Messages/Requests.antt =====
-- internal/anthropic/codec.go: `DecodeMessagesRequest`, a request of the Messages API checked and put
-- into the gateway's terms. `F` is float64; the JSON is read here already, and none is a body that is
-- not JSON of that shape. The fields of the gateway's request that the code leaves unset are left out.
use ipsupport_airllm.Base.{Bool, Option, none, some, List, [], ◌∷◌, ◌++◌, map, if◌then◌else◌}
use ipsupport_airllm.Base.Bytes.{Bytes, ascii}
use ipsupport_airllm.Base.Ints.{ℤ, is_positive}
use ipsupport_airllm.Messages.{is_nil}
use ipsupport_airllm.Messages.Codec.{
  Raw, MessageWire, Message, ToolChoice, is_empty, blocks_text_and_images, convert_message,
  translate_tool_choice,
}

pub record ToolWire : Type 0 where
  pub name : Bytes
  pub description : Bytes
  pub input_schema : Bytes

-- `tool_choice` is the type and the name that were read, if any.
pub record MessagesRequest (F : Type 0) : Type 0 where
  pub model : Bytes
  pub system : Raw
  pub messages : List MessageWire
  pub tools : List ToolWire
  pub tool_choice : Option (Bytes × Bytes)
  pub max_tokens : ℤ
  pub temperature : Option F
  pub stream : Bool

pub record Tool : Type 0 where
  pub type : Bytes
  pub name : Bytes
  pub description : Bytes
  pub parameters : Bytes

pub record ChatRequest (F : Type 0) : Type 0 where
  pub model : Bytes
  pub messages : List Message
  pub tools : List Tool
  pub tool_choice : Option ToolChoice
  pub max_tokens : Option ℤ
  pub temperature : Option F
  pub stream : Bool

pub data Refusal : Type 0 where
  not_json no_model no_messages no_max_tokens : Refusal

pub data Decoded (F : Type 0) : Type 0 where
  refused : Refusal → Decoded F
  accepted : ChatRequest F → Decoded F

-- `blocksText`
abbrev pub blocks_text : Raw → Bytes
blocks_text raw = (blocks_text_and_images raw).0

abbrev pub system_message : Bytes → Message
system_message text = record {
  role = ascii "system";
  content = text;
  images = [];
  tool_calls = [];
  tool_call_id = [];
}

unfoldable pub system_messages : Bytes → List Message
system_messages text = if is_nil text then [] else system_message text ∷ []

unfoldable pub convert_messages : List MessageWire → List Message
convert_messages [] = []
convert_messages (mw ∷ mws) = convert_message mw ++ convert_messages mws

abbrev pub tool_of : ToolWire → Tool
tool_of tw = record {
  type = ascii "function";
  name = tw.name;
  description = tw.description;
  parameters = tw.input_schema;
}

module _ {F : Type 0} where
  unfoldable pub request_of : MessagesRequest F → ChatRequest F
  unfolding system_messages convert_messages
  request_of w = record {
    model = w.model;
    messages = system_messages (blocks_text w.system) ++ convert_messages w.messages;
    tools = map tool_of w.tools;
    tool_choice = translate_tool_choice w.tool_choice;
    max_tokens = some w.max_tokens;
    temperature = w.temperature;
    stream = w.stream;
  }

  unfoldable pub decode_messages_request : Option (MessagesRequest F) → Decoded F
  unfolding request_of is_positive
  decode_messages_request none = refused not_json
  decode_messages_request (some w) =
      if is_nil w.model
      then refused no_model
      else if is_empty w.messages
      then refused no_messages
      else if is_positive w.max_tokens
      then accepted (request_of w)
      else refused no_max_tokens
