-- ===== src/Messages/Conversions.antt =====
-- What the conversion of a message keeps: every text, image and call of its blocks, in their order.
use ipsupport_airllm.Base.{
  ◌≡◌, refl, sym, ap, ◌∙◌, Option, none, some, List, [], ◌∷◌, ◌++◌, append_assoc,
}
use ipsupport_airllm.Base.Bytes.{Bytes}
use ipsupport_airllm.Messages.Codec.{
  Part, text_part, image_part, other_part, Raw, absent, malformed, plain, parts, parts_text, Block,
  part, tool_use, tool_result, ToolCall, image_from_block, blocks_text_and_images, arguments_of,
}

abbrev one_or_none : {A : Type 0} → Option A → List A
one_or_none none = []
one_or_none (some x) = x ∷ []

-- The text and the images of a part, and of a raw value
abbrev pub part_text : Part → Bytes
part_text (text_part t) = t
part_text (image_part s) = []
part_text other_part = []

abbrev pub part_images : Part → List Bytes
part_images (text_part t) = []
part_images (image_part s) = one_or_none (image_from_block s)
part_images other_part = []

abbrev pub each : {A X : Type 0} → (A → List X) → List A → List X
each f [] = []
each f (x ∷ xs) = f x ++ each f xs

abbrev pub raw_text : Raw → Bytes
raw_text absent = []
raw_text malformed = []
raw_text (plain s) = s
raw_text (parts ps) = each part_text ps

abbrev pub raw_images : Raw → List Bytes
raw_images absent = []
raw_images malformed = []
raw_images (plain s) = []
raw_images (parts ps) = each part_images ps

-- The text, the images and the calls of a block
abbrev pub block_text : Block → Bytes
block_text (part p) = part_text p
block_text (tool_use id name input) = []
block_text (tool_result id raw) = raw_text raw

abbrev pub block_images : Block → List Bytes
block_images (part p) = part_images p
block_images (tool_use id name input) = []
block_images (tool_result id raw) = raw_images raw

abbrev pub block_calls : Block → List ToolCall
block_calls (part p) = []
block_calls (tool_use id name input) =
    record { id = id; name = name; arguments = arguments_of input } ∷ []
block_calls (tool_result id raw) = []

parts-text : (ps : List Part) → parts_text ps ≡ each part_text ps
unfolding parts_text
parts-text [] = refl
parts-text (text_part t ∷ ps) = ap (λ r. t ++ r) (parts-text ps)
parts-text (image_part s ∷ ps) = parts-text ps
parts-text (other_part ∷ ps) = parts-text ps

pub raw-text : (raw : Raw) → (blocks_text_and_images raw).0 ≡ raw_text raw
unfolding blocks_text_and_images
raw-text absent = refl
raw-text malformed = refl
raw-text (plain s) = refl
raw-text (parts ps) = parts-text ps

pub each-append :
    {A X : Type 0} (f : A → List X) (xs ys : List A) → each f (xs ++ ys) ≡ each f xs ++ each f ys
each-append f [] ys = refl
each-append f (x ∷ xs) ys =
    ap (λ r. f x ++ r) (each-append f xs ys) ∙ sym (append_assoc (f x) (each f xs) (each f ys))
