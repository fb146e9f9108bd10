-- ===== src/Messages/Decodes.antt =====
-- What the decoding of a request refuses, and what it keeps of the others.
use ipsupport_airllm.Base.{◌≡◌, true, false, Option, none, some, List, [], ◌++◌}
use ipsupport_airllm.Base.Bytes.{Bytes}
use ipsupport_airllm.Base.Ints.{is_positive}
use ipsupport_airllm.Messages.{is_nil}
use ipsupport_airllm.Messages.Codec.{said, blocks, unreadable, MessageWire, ToolCall, is_empty}
use ipsupport_airllm.Messages.Conversions.{raw_text, block_text, block_images, block_calls, each}
use ipsupport_airllm.Messages.Requests.{
  MessagesRequest, ChatRequest, Refusal, not_json, no_model, no_messages, no_max_tokens, Decoded,
  refused, accepted,
}

-- What a message holds in all: its text, its images and its calls
abbrev pub message_text : MessageWire → Bytes
message_text mw = elim mw.content [ said s ↦ s | blocks bs ↦ each block_text bs | unreadable ↦ [] ]

abbrev pub message_images : MessageWire → List Bytes
message_images mw = elim mw.content [
  | said s ↦ []
  | blocks bs ↦ each block_images bs
  | unreadable ↦ []
]

abbrev pub message_calls : MessageWire → List ToolCall
message_calls mw = elim mw.content [
  | said s ↦ []
  | blocks bs ↦ each block_calls bs
  | unreadable ↦ []
]

-- Why a request is turned down, the reasons in the order in which they are looked for
abbrev pub Lacks : {F : Type 0} → Refusal → MessagesRequest F → Type 0
Lacks not_json w = ⊥
Lacks no_model w = is_nil w.model ≡ true
Lacks no_messages w = (is_nil w.model ≡ false) × (is_empty w.messages ≡ true)
Lacks no_max_tokens w =
    (is_nil w.model ≡ false) × (is_empty w.messages ≡ false) × (is_positive w.max_tokens ≡ false)

abbrev pub Keeps : {F : Type 0} → MessagesRequest F → ChatRequest F → Type 0
Keeps w r =
    (r.model ≡ w.model)
    × (r.max_tokens ≡ some w.max_tokens)
    × (each (λ m. m.content) r.messages ≡ raw_text w.system ++ each message_text w.messages)
    × (each (λ m. m.images) r.messages ≡ each message_images w.messages)
    × (each (λ m. m.tool_calls) r.messages ≡ each message_calls w.messages)

abbrev pub Reads : {F : Type 0} → Option (MessagesRequest F) → Decoded F → Type 0
Reads none d = d ≡ refused not_json
Reads (some w) (refused why) = Lacks why w
Reads (some w) (accepted r) =
    (is_nil w.model ≡ false)
    × (is_empty w.messages ≡ false)
    × (is_positive w.max_tokens ≡ true)
    × Keeps w r
