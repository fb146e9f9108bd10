-- ===== src/Messages/Codec.antt =====
-- internal/anthropic/codec.go: a request of the Messages API as the gateway's own, and the answer back. The
-- JSON is read here already: content is a text, a list of blocks, or neither.
use ipsupport_airllm.Base.{
  Bool, true, false, ◌&&◌, ◌||◌, not, Option, none, some, List, [], ◌∷◌, ◌++◌, map, if◌then◌else◌,
  ◌==◌,
}
use ipsupport_airllm.Base.Bytes.{Bytes, ascii, bytes_eq}
use ipsupport_airllm.Messages.{is_nil}

pub record Source : Type 0 where
  pub type : Bytes
  pub media_type : Bytes
  pub data_base64 : Bytes
  pub url : Bytes

-- A block of text, an image, or one of another type
pub data Part : Type 0 where
  text_part : Bytes → Part
  image_part : Option Source → Part
  other_part : Part

-- A raw value: absent, a text, blocks, or neither
pub data Raw : Type 0 where
  absent malformed : Raw
  plain : Bytes → Raw
  parts : List Part → Raw

pub data Block : Type 0 where
  part : Part → Block
  tool_use : Bytes → Bytes → Bytes → Block
  tool_result : Bytes → Raw → Block

pub data Content : Type 0 where
  said : Bytes → Content
  blocks : List Block → Content
  unreadable : Content

pub record MessageWire : Type 0 where
  pub role : Bytes
  pub content : Content

pub record ToolCall : Type 0 where
  pub id : Bytes
  pub name : Bytes
  pub arguments : Bytes

pub record Message : Type 0 where
  pub role : Bytes
  pub content : Bytes
  pub images : List Bytes
  pub tool_calls : List ToolCall
  pub tool_call_id : Bytes

-- `imageFromBlock`: the image's URL, if the source is usable
unfoldable pub image_from_block : Option Source → Option Bytes
image_from_block none = none
image_from_block (some s) =
    if (s.type == ascii "base64") && not (is_nil s.media_type) && not (is_nil s.data_base64)
    then some (ascii "data:" ++ s.media_type ++ ascii ";base64," ++ s.data_base64)
    else if s.type == ascii "base64"
    then none
    else if (s.type == ascii "url") && not (is_nil s.url)
    then some s.url
    else none

abbrev pub with_image : Option Bytes → List Bytes → List Bytes
with_image none images = images
with_image (some url) images = url ∷ images

abbrev pub text_of : Part → Bytes
text_of (text_part t) = t
text_of (image_part s) = []
text_of other_part = []

unfoldable pub parts_text : List Part → Bytes
parts_text [] = []
parts_text (p ∷ ps) = text_of p ++ parts_text ps

unfoldable pub parts_images : List Part → List Bytes
unfolding image_from_block
parts_images [] = []
parts_images (text_part t ∷ ps) = parts_images ps
parts_images (image_part s ∷ ps) = with_image (image_from_block s) (parts_images ps)
parts_images (other_part ∷ ps) = parts_images ps

-- `blocksTextAndImages`
unfoldable pub blocks_text_and_images : Raw → Bytes × List Bytes
unfolding parts_text parts_images
blocks_text_and_images absent = ([], [])
blocks_text_and_images (plain s) = (s, [])
blocks_text_and_images (parts ps) = (parts_text ps, parts_images ps)
blocks_text_and_images malformed = ([], [])

-- `texts`, `images` and `toolCalls` of the loop
pub record Gathered : Type 0 where
  pub texts : List Bytes
  pub images : List Bytes
  pub tool_calls : List ToolCall

abbrev pub nothing : Gathered
nothing = record { texts = []; images = []; tool_calls = [] }

abbrev pub is_empty : {A : Type 0} → List A → Bool
is_empty [] = true
is_empty (x ∷ xs) = false

-- `strings.Join(texts, "")`
unfoldable pub join : List Bytes → Bytes
join [] = []
join (t ∷ ts) = t ++ join ts

abbrev pub gathered_message : Bytes → Gathered → Message
gathered_message role g = record {
  role = role;
  content = join g.texts;
  images = g.images;
  tool_calls = g.tool_calls;
  tool_call_id = [];
}

-- What `flush` appends
unfoldable pub flush : Bytes → Gathered → List Message
unfolding join
flush role g =
    if is_empty g.texts && is_empty g.images && is_empty g.tool_calls
    then []
    else gathered_message role g ∷ []

abbrev pub arguments_of : Bytes → Bytes
arguments_of input = if is_nil input then ascii "{}" else input

abbrev pub add_image : Option Bytes → Gathered → Gathered
add_image none g = g
add_image (some url) g = record g { images = g.images ++ url ∷ [] }

abbrev pub result_message : Bytes → Raw → Message
result_message id raw =
    let (text, images) = blocks_text_and_images raw in
    record {
      role = ascii "tool";
      content = text;
      images = images;
      tool_calls = [];
      tool_call_id = id;
    }

-- The loop over the blocks, and the last flush: what is appended from here on
unfoldable pub convert_blocks : Bytes → List Block → Gathered → List Message
unfolding flush image_from_block blocks_text_and_images
convert_blocks role [] g = flush role g
convert_blocks role (part (text_part t) ∷ bs) g =
    convert_blocks role bs (record g { texts = g.texts ++ t ∷ [] })
convert_blocks role (part (image_part s) ∷ bs) g =
    convert_blocks role bs (add_image (image_from_block s) g)
convert_blocks role (part other_part ∷ bs) g = convert_blocks role bs g
convert_blocks role (tool_use id name input ∷ bs) g = convert_blocks role bs (record g {
  tool_calls = g.tool_calls ++ record { id = id; name = name; arguments = arguments_of input } ∷ [];
})
convert_blocks role (tool_result id raw ∷ bs) g =
    flush role g ++ result_message id raw ∷ convert_blocks role bs nothing

unfoldable pub convert_message : MessageWire → List Message
unfolding convert_blocks
convert_message mw = elim mw.content [
  | said s ↦
      record { role = mw.role; content = s; images = []; tool_calls = []; tool_call_id = [] } ∷ []
  | blocks bs ↦ convert_blocks mw.role bs nothing
  | unreadable ↦
      record { role = mw.role; content = []; images = []; tool_calls = []; tool_call_id = [] } ∷ []
]

-- The IR's tool choice: none when it is not forwarded
pub data ToolChoice : Type 0 where
  auto required : ToolChoice
  function : Bytes → ToolChoice

-- `translateToolChoice`, of the type and name that were read, if any
unfoldable pub translate_tool_choice : Option (Bytes × Bytes) → Option ToolChoice
translate_tool_choice none = none
translate_tool_choice (some (type, name)) =
    if type == ascii "auto"
    then some auto
    else if type == ascii "any"
    then some required
    else if (type == ascii "tool") && not (is_nil name)
    then some (function name)
    else none

pub data OutBlock : Type 0 where
  out_text : Bytes → OutBlock
  out_tool_use : ToolCall → OutBlock

-- The content of `MarshalMessagesResponse`
unfoldable pub response_content : Bytes → List ToolCall → List OutBlock
response_content content calls =
    (if not (is_nil content) || is_empty calls then out_text content ∷ [] else [])
    ++ map (λ tc. out_tool_use (record tc { arguments = arguments_of tc.arguments })) calls
