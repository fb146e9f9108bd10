-- ===== src/Messages.antt =====
-- internal/anthropic/stream.go: the chunks of an answer written as the events of Anthropic's Messages API.
-- An event is data here, of what its JSON holds; the connection takes so many events more and then
-- fails, which `room` tells. `Reader` is the protocol as a client reads it, `Accepts` that it does.
pub mod Reader
pub mod Writes
pub mod Accepts
pub mod Codec
pub mod Conversions
pub mod Requests
pub mod Decodes
use ipsupport_airllm.Base.{
  ℕ, ◌+◌, ◌-◌, Bool, true, false, ◌&&◌, not, Option, none, some, List, [], ◌∷◌, ◌++◌, nat_eqb, ltb,
  if◌then◌else◌, ◌==◌,
}
use ipsupport_airllm.Base.Bytes.{Bytes, ascii, bytes_eq}

-- `blockKind`
pub data Kind : Type 0 where
  no_block text_block tool_block : Kind

pub record Usage : Type 0 where
  pub prompt_tokens : ℕ
  pub completion_tokens : ℕ

pub record ToolCallDelta : Type 0 where
  pub index : ℕ
  pub id : Bytes
  pub name : Bytes
  pub arguments : Bytes

pub record StreamChunk : Type 0 where
  pub content : Bytes
  pub tool_calls : List ToolCallDelta
  pub finish_reason : Bytes
  pub usage : Option Usage

pub data Event : Type 0 where
  message_start : ℕ → Event
  text_start : ℕ → Event
  tool_start : ℕ → Bytes → Bytes → Event
  text_delta : ℕ → Bytes → Event
  input_json_delta : ℕ → Bytes → Event
  content_block_stop : ℕ → Event
  message_delta : Bytes → ℕ → Option ℕ → Event
  message_stop : Event

-- `out` is what was written, `room` how many events the connection still takes.
pub record StreamWriter : Type 0 where
  pub input_tokens : ℕ
  pub started : Bool
  pub block_kind : Kind
  pub block_idx : ℕ
  pub block_tool : ℕ
  pub next_idx : ℕ
  pub stop : Bytes
  pub out : List Event
  pub room : ℕ

abbrev pub new_stream_writer : ℕ → ℕ → StreamWriter
new_stream_writer input_tokens room = record {
  input_tokens = input_tokens;
  started = false;
  block_kind = no_block;
  block_idx = 0;
  block_tool = 0;
  next_idx = 0;
  stop = [];
  out = [];
  room = room;
}

-- Whether a step wrote all it had to, and the writer after it
abbrev pub Written : Type 0
Written = Bool × StreamWriter

-- What follows a step, unless that failed
infixl 20 ◌then◌
abbrev pub ◌then◌ : Written → (StreamWriter → Written) → Written
(true, s) then next = next s
(false, s) then next = (false, s)

-- The writer after an event
abbrev pub after : Event → StreamWriter → StreamWriter
after e s = record s { out = s.out ++ e ∷ []; room = s.room - 1 }

unfoldable pub event : Event → StreamWriter → Written
event e s = if nat_eqb s.room 0 then (false, s) else (true, after e s)

-- `StopReason` of codec.go
unfoldable pub stop_reason : Bytes → Bytes
stop_reason finish =
    if finish == ascii "tool_calls"
    then ascii "tool_use"
    else if finish == ascii "length"
    then ascii "max_tokens"
    else ascii "end_turn"

abbrev pub is_open : Kind → Bool
is_open no_block = false
is_open text_block = true
is_open tool_block = true

abbrev pub is_text : Kind → Bool
is_text no_block = false
is_text text_block = true
is_text tool_block = false

abbrev pub is_tool : Kind → Bool
is_tool no_block = false
is_tool text_block = false
is_tool tool_block = true

unfoldable pub close_block : StreamWriter → Written
unfolding event
close_block s =
    let stopped =
      event (content_block_stop s.block_idx) s
      then (λ s'. (true, record s' { block_kind = no_block })) in
    if is_open s.block_kind then stopped else (true, s)

unfoldable pub open_tool : ToolCallDelta → StreamWriter → Written
unfolding event
open_tool tc s = event (tool_start s.next_idx tc.id tc.name) s then (λ s'. (
  true,
  record s' {
    block_kind = tool_block;
    block_idx = s'.next_idx;
    block_tool = tc.index;
    next_idx = s'.next_idx + 1;
  },
))

unfoldable pub ensure_tool_block : ToolCallDelta → StreamWriter → Written
unfolding close_block open_tool
ensure_tool_block tc s =
    let opened = close_block s then open_tool tc in
    if is_tool s.block_kind && nat_eqb s.block_tool tc.index then (true, s) else opened

abbrev pub is_nil : Bytes → Bool
is_nil [] = true
is_nil (c ∷ s) = false

-- The loop over the chunk's tool calls
unfoldable pub tool_deltas : List ToolCallDelta → StreamWriter → Written
unfolding ensure_tool_block event
tool_deltas [] s = (true, s)
tool_deltas (tc ∷ tcs) s =
    ensure_tool_block tc s
    then (λ s'.
        if is_nil tc.arguments
        then (true, s')
        else event (input_json_delta s'.block_idx tc.arguments) s')
    then tool_deltas tcs

unfoldable pub open_text : StreamWriter → Written
unfolding event
open_text s = event (text_start s.next_idx) s then (λ s'. (
  true,
  record s' { block_kind = text_block; block_idx = s'.next_idx; next_idx = s'.next_idx + 1 },
))

unfoldable pub write_text : Bytes → StreamWriter → Written
unfolding close_block open_text event
write_text content s =
    let opened = close_block s then open_text in
    (if is_text s.block_kind then (true, s) else opened)
    then (λ s'. event (text_delta s'.block_idx content) s')

unfoldable pub write_usage : Usage → StreamWriter → Written
unfolding close_block event
write_usage u s =
    close_block s
    then (λ s'.
        event
          (message_delta s'.stop u.completion_tokens
            (if ltb 0 u.prompt_tokens then some u.prompt_tokens else none))
          s')
    then event message_stop

unfoldable pub write_start : StreamWriter → Written
unfolding event
write_start s =
    let written =
      event (message_start s.input_tokens) s then (λ s'. (true, record s' { started = true })) in
    if s.started then (true, s) else written

-- The switch of `Chunk`
unfoldable pub dispatch : StreamChunk → StreamWriter → Written
unfolding tool_deltas write_text close_block write_usage
dispatch c s = elim c.tool_calls [
  | tc ∷ tcs ↦ tool_deltas (tc ∷ tcs) s
  | [] ↦
      if not (is_nil c.content)
      then write_text c.content s
      else if not (is_nil c.finish_reason)
      then close_block s
      else elim c.usage [ some u ↦ write_usage u s | none ↦ (true, s) ]
]

unfoldable pub note_stop : StreamChunk → StreamWriter → StreamWriter
unfolding stop_reason
note_stop c s =
    if is_nil c.finish_reason then s else record s { stop = stop_reason c.finish_reason }

unfoldable pub chunk : StreamChunk → StreamWriter → Written
unfolding write_start note_stop dispatch
chunk c s = write_start s then (λ s'. dispatch c (note_stop c s'))

-- The chunks of a stream, up to the first that could not be written
unfoldable pub chunks : List StreamChunk → StreamWriter → Written
unfolding chunk
chunks [] s = (true, s)
chunks (c ∷ cs) s = chunk c s then chunks cs
