-- ===== src/Translate/Openai/Arrival.antt =====
-- internal/translate/canonical_openai.go, with the fields' names of internal/provider/openai/types.go:
-- a user's message with several parts, as a reader of its encoding finds it.
use glitchgate.Prelude.{
  Bool, true, false, ◌||◌, List, [], ◌∷◌, ◌++◌, map, All, ◌≡◌, refl, sym, ap, ap₂, ◌∙◌, arith,
}
use mathlib.Core.List.{append_assoc, append-nil}
use glitchgate.Translate.Values.{done, each}
use glitchgate.Translate.Canonical.{
  CanonicalBlock, block_text, block_image, block_tool_use, block_tool_result, block_thinking,
  block_refusal, block_audio, block_document, CanonicalMessage,
}
use glitchgate.Translate.Openai.{
  ContentPart, parts, ChatMessage, chat_message, user_blocks, openai_user_message_to_canonical,
}
use glitchgate.Translate.Openai.Messages.{
  Split, user_content, flush_parts, add_part, user_step, user_loop, canonical_user_to_openai,
}
use glitchgate.Translate.Openai.Encoding.{
  arrived, IsShown, is_multipart, any_multipart, part_of, image_shown, document_shown, blocks_shown,
}

user_step_shown :
    (b : CanonicalBlock) (st : Split)
    → IsShown b
    → user_step b st ≡ add_part (part_of b) (is_multipart b) st
unfolding user_step IsShown
user_step_shown (block_text s) st e = refl
user_step_shown (block_image f) st e = rw ((image_shown f e).0) refl
user_step_shown (block_document f) st e = rw ((document_shown f e).0) refl
user_step_shown (block_tool_use i n v) st e = elim e [ ]
user_step_shown (block_tool_result i r) st e = elim e [ ]
user_step_shown (block_thinking s) st e = elim e [ ]
user_step_shown (block_refusal s) st e = elim e [ ]
user_step_shown (block_audio a f) st e = elim e [ ]

-- The loop collects the parts of shown blocks.
user_loop_shown :
    (bs : List CanonicalBlock) (ms : List ChatMessage) (ps : List ContentPart) (h : Bool)
    → All IsShown bs
    → user_loop bs (record { messages = ms; parts = ps; has_images = h })
      ≡ record { messages = ms; parts = ps ++ map part_of bs; has_images = h || any_multipart bs }
unfolding user_loop
user_loop_shown [] ms ps h a =
    ap₂ (λ qs k. record { messages = ms; parts = qs; has_images = k }) (sym (append-nil ps))
      (ground arith)
user_loop_shown (b ∷ bs) ms ps h (e, a) =
    ap (user_loop bs) (user_step_shown b (record { messages = ms; parts = ps; has_images = h }) e)
    ∙ user_loop_shown bs ms (ps ++ (part_of b ∷ [])) (h || is_multipart b) a
    ∙ ap₂ (λ qs k. record { messages = ms; parts = qs; has_images = k })
        (append_assoc ps (part_of b ∷ []) (map part_of bs)) (ground arith)

abbrev start : Split
start = record { messages = []; parts = []; has_images = false }

flushed_shown :
    (bs : List CanonicalBlock)
    → All IsShown bs
    → any_multipart bs ≡ true
    → (flush_parts (user_loop bs start)).messages
      ≡ record (chat_message "user") { content = parts (map part_of bs) } ∷ []
unfolding flush_parts user_content
flushed_shown [] a e = ground (arith, e)
flushed_shown (b ∷ bs) a e =
    ap (λ st. (flush_parts st).messages) (user_loop_shown (b ∷ bs) [] [] false a)
    ∙ ap (λ k. (flush_parts (held k)).messages) e
    ∙ one
  where
    held : Bool → Split
    held k = record { messages = []; parts = map part_of (b ∷ bs); has_images = k }

    one :
        (flush_parts (held true)).messages
        ≡ record (chat_message "user") { content = parts (map part_of (b ∷ bs)) } ∷ []
    one = refl

reread_shown :
    (bs : List CanonicalBlock)
    → All IsShown bs
    → each
        (λ msg. openai_user_message_to_canonical (arrived msg))
        (record (chat_message "user") { content = parts (map part_of bs) } ∷ [])
      ≡ done (record { role = "user"; blocks = bs } ∷ [])
unfolding each openai_user_message_to_canonical arrived user_blocks
reread_shown bs a = ap (λ xs. done (record { role = "user"; blocks = xs } ∷ [])) (blocks_shown bs a)

-- A user's message with an image or a document goes to OpenAI as one message, which is read back as
-- it was from its encoding, if its texts are not empty, its images have data of some type or an
-- address that is no data URI, and its documents have data of some type.
pub user_message_arrives :
    (m : CanonicalMessage)
    → m.role ≡ "user"
    → All IsShown m.blocks
    → any_multipart m.blocks ≡ true
    → each (λ msg. openai_user_message_to_canonical (arrived msg)) (canonical_user_to_openai m)
      ≡ done (m ∷ [])
unfolding canonical_user_to_openai
user_message_arrives m r a e =
    ap (each (λ msg. openai_user_message_to_canonical (arrived msg))) (flushed_shown m.blocks a e)
    ∙ reread_shown m.blocks a
    ∙ ap (λ role. done (record { role = role; blocks = m.blocks } ∷ [])) (sym r)
