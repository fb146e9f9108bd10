-- ===== src/Tests/Streams.antt =====
-- Runs of the writer of streamed answers, and of the conversion of messages.
use ipsupport_airllm.Base.{
  ℕ, ◌≡◌, refl, Bool, true, false, Option, none, some, List, [], ◌∷◌, ◌++◌, All,
}
use ipsupport_airllm.Base.Bytes.{Bytes, ascii}
use ipsupport_airllm.Messages.{
  Usage, StreamChunk, new_stream_writer, chunks, message_start, text_start, tool_start, text_delta,
  input_json_delta, content_block_stop, message_delta, message_stop,
}
use ipsupport_airllm.Messages.Reader.{done}
use ipsupport_airllm.Messages.Writes.{Sound, At}
use ipsupport_airllm.Messages.Accepts.{usage_chunk, chunks-Accepted}
use ipsupport_airllm.Messages.Codec.{Block, part, text_part, tool_use, tool_result, plain, blocks}
use ipsupport_airllm.Base.Ints.{pos}
use ipsupport_airllm.Messages.Requests.{
  MessagesRequest, refused, no_messages, decode_messages_request,
}

abbrev words : StreamChunk
words = record { content = ascii "Hi"; tool_calls = []; finish_reason = []; usage = none }

abbrev calls : StreamChunk
calls = record {
  content = [];
  tool_calls = record { index = 0; id = ascii "c"; name = ascii "f"; arguments = ascii "{}" } ∷ [];
  finish_reason = ascii "tool_calls";
  usage = none;
}

abbrev spent : Usage
spent = record { prompt_tokens = 3; completion_tokens = 5 }

chunks-Accepted_example :
    Sound
      (At done)
      (chunks ((words ∷ calls ∷ []) ++ usage_chunk spent ∷ []) (new_stream_writer 1 20))
chunks-Accepted_example = chunks-Accepted (words ∷ calls ∷ []) spent 1 20 (refl, (refl, tt))

written_test :
    (chunks (words ∷ calls ∷ usage_chunk spent ∷ []) (new_stream_writer 1 20)).1.out
    ≡ message_start 1
      ∷ text_start 0
      ∷ text_delta 0 (ascii "Hi")
      ∷ content_block_stop 0
      ∷ tool_start 1 (ascii "c") (ascii "f")
      ∷ input_json_delta 1 (ascii "{}")
      ∷ content_block_stop 1
      ∷ message_delta (ascii "tool_use") 5 (some 3)
      ∷ message_stop
      ∷ []
unfolding chunks ipsupport_airllm.Base.Bytes.bytes_equal
written_test = refl

abbrev turn : List Block
turn =
    part (text_part (ascii "a"))
    ∷ tool_result (ascii "t1") (plain (ascii "b"))
    ∷ part (text_part (ascii "c"))
    ∷ tool_use (ascii "t2") (ascii "f") []
    ∷ []

abbrev asks : MessagesRequest ℕ
asks = record {
  model = ascii "m";
  system = plain (ascii "be kind");
  messages = record { role = ascii "user"; content = blocks turn } ∷ [];
  tools = [];
  tool_choice = none;
  max_tokens = pos 100;
  temperature = none;
  stream = false;
}

first_fault_test :
    decode_messages_request (some (record asks { messages = []; max_tokens = pos 0 }))
    ≡ refused no_messages
unfolding decode_messages_request
first_fault_test = refl
