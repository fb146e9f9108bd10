-- ===== src/Messages/Reader.antt =====
-- The protocol of the events, as the state of a client that reads them: a message starts, its blocks
-- follow in the order of their index, each with deltas of its own kind between its start and its stop,
-- and then the message ends.
use ipsupport_airllm.Base.{
  ℕ, ◌+◌, ◌≡◌, refl, Option, none, some, List, [], ◌∷◌, ◌++◌, nat_eqb, if◌then◌else◌,
}
use ipsupport_airllm.Messages.{
  Event, message_start, text_start, tool_start, text_delta, input_json_delta, content_block_stop,
  message_delta, message_stop,
}

pub data Reader : Type 0 where
  waiting : Reader
  between : ℕ → Reader
  in_text in_tool : ℕ → Reader
  told done : Reader

-- The state after an event, none when the event may not come
unfoldable pub read : Reader → Event → Option Reader
read waiting (message_start n) = some (between 0)
read (between n) (text_start i) = if nat_eqb i n then some (in_text n) else none
read (between n) (tool_start i id name) = if nat_eqb i n then some (in_tool n) else none
read (between n) (message_delta stop u p) = some told
read (in_text n) (text_delta i text) = if nat_eqb i n then some (in_text n) else none
read (in_text n) (content_block_stop i) = if nat_eqb i n then some (between (n + 1)) else none
read (in_tool n) (input_json_delta i json) = if nat_eqb i n then some (in_tool n) else none
read (in_tool n) (content_block_stop i) = if nat_eqb i n then some (between (n + 1)) else none
read told message_stop = some done
read _ _ = none

abbrev pub read_next : Option Reader → Event → Option Reader
read_next none e = none
read_next (some r) e = read r e

unfoldable pub read_all : Option Reader → List Event → Option Reader
unfolding read
read_all r [] = r
read_all r (e ∷ es) = read_all (read_next r e) es

pub read_all-append :
    (r : Option Reader) (es : List Event) (e : Event)
    → read_all r (es ++ e ∷ []) ≡ read_next (read_all r es) e
unfolding read_all
read_all-append r [] e = refl
read_all-append r (x ∷ es) e = read_all-append (read_next r x) es e
