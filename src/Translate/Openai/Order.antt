-- ===== src/Translate/Openai/Order.antt =====
-- internal/translate/canonical_openai.go: what a user's message says to OpenAI, and in what order.
use glitchgate.Prelude.{
  Bool, true, false, List, [], ◌∷◌, ◌++◌, ◌≡◌, refl, sym, ap, ap₂, ◌∙◌, if◌then◌else◌, is_empty,
  arith, All,
}
use mathlib.Core.List.{append_assoc, append-nil}
use glitchgate.Translate.Values.{Text}
use glitchgate.Translate.Canonical.{
  CanonicalBlock, block_text, block_image, block_tool_use, block_tool_result, block_thinking,
  block_refusal, block_audio, block_document, CanonicalMessage,
}
use glitchgate.Translate.Openai.{
  ContentPart, part_text, part_image, part_audio, part_file, ChatMessage, chat_message,
}
use glitchgate.Translate.Openai.Messages.{
  Split, user_content, flush_parts, add_part, address_of, tool_message, user_step, user_loop,
  canonical_user_to_openai,
}
use glitchgate.Translate.Openai.Pieces.{
  Piece, unless_empty, spell_block, spell_blocks, spell_part, spell_parts, spell_message,
  spell_messages, spell_messages-append, spell_parts-append, is_text, letters-join, image, file,
  result,
}

-- While no part asks for several, all are texts.
IsSplit : Split → Type 0
IsSplit st = st.has_images ≡ false → All (λ p. is_text p ≡ true) st.parts

said : Split → List Piece
said st = spell_messages st.messages ++ spell_parts st.parts

spell-user_content :
    (h : Bool) (ps : List ContentPart)
    → (h ≡ false → All (λ p. is_text p ≡ true) ps)
    → spell_message (record (chat_message "user") { content = user_content h ps }) ≡ spell_parts ps
unfolding spell_message user_content
spell-user_content true ps i = refl
spell-user_content false ps i = letters-join ps (i refl)

spell_messages-single : (m : ChatMessage) → spell_messages (m ∷ []) ≡ spell_message m
unfolding spell_messages
spell_messages-single m = append-nil (spell_message m)

spell_parts-single : (p : ContentPart) → spell_parts (p ∷ []) ≡ spell_part p
unfolding spell_parts
spell_parts-single p = append-nil (spell_part p)

spell-flush :
    (ms : List ChatMessage) (ps : List ContentPart) (h : Bool)
    → (h ≡ false → All (λ p. is_text p ≡ true) ps)
    → spell_messages (flush_parts (record { messages = ms; parts = ps; has_images = h })).messages
      ≡ spell_messages ms ++ spell_parts ps
unfolding flush_parts spell_parts
spell-flush ms [] h i = sym (append-nil (spell_messages ms))
spell-flush ms (p ∷ ps) h i =
    spell_messages-append ms
      (record (chat_message "user") { content = user_content h (p ∷ ps) } ∷ [])
    ∙ ap (λ r. spell_messages ms ++ r)
        (spell_messages-single (record (chat_message "user") { content = user_content h (p ∷ ps) })
          ∙ spell-user_content h (p ∷ ps) i)

flush_parts-IsSplit : (st : Split) → IsSplit st → IsSplit (flush_parts st)
unfolding IsSplit flush_parts
flush_parts-IsSplit st i = of st.messages st.parts st.has_images i
  where
    of :
        (ms : List ChatMessage) (ps : List ContentPart) (h : Bool)
        → IsSplit (record { messages = ms; parts = ps; has_images = h })
        → IsSplit (flush_parts (record { messages = ms; parts = ps; has_images = h }))
    of ms [] h i = i
    of ms (p ∷ ps) h i = λ e. tt

All-snoc :
    (ps : List ContentPart) (p : ContentPart)
    → All (λ q. is_text q ≡ true) ps
    → is_text p ≡ true
    → All (λ q. is_text q ≡ true) (ps ++ (p ∷ []))
All-snoc [] p a e = (e, tt)
All-snoc (q ∷ ps) p (a, rest) e = (a, All-snoc ps p rest e)

add_part-IsSplit :
    (p : ContentPart) (b : Bool) (st : Split)
    → (b ≡ false → is_text p ≡ true)
    → IsSplit st
    → IsSplit (add_part p b st)
unfolding IsSplit
add_part-IsSplit p b st t i =
    λ e. All-snoc st.parts p (i (ground (arith, e))) (t (ground (arith, e)))

said-add_part :
    (p : ContentPart) (b : Bool) (st : Split) → said (add_part p b st) ≡ said st ++ spell_part p
unfolding said
said-add_part p b st =
    ap (λ r. spell_messages st.messages ++ r)
      (spell_parts-append st.parts (p ∷ [])
        ∙ ap (λ r. spell_parts st.parts ++ r) (spell_parts-single p))
    ∙ sym (append_assoc (spell_messages st.messages) (spell_parts st.parts) (spell_part p))

-- The part of an image or of a document, unless its address is empty.
abbrev add_unless_empty : Text → ContentPart → Split → Split
add_unless_empty url p st = if is_empty url then st else add_part p true st

said-unless_empty :
    (url : Text) (p : ContentPart) (q : Piece) (st : Split)
    → spell_part p ≡ q ∷ []
    → said (add_unless_empty url p st) ≡ said st ++ unless_empty url q
said-unless_empty [] p q st e = sym (append-nil (said st))
said-unless_empty (c ∷ url) p q st e = said-add_part p true st ∙ ap (λ r. said st ++ r) e

unless_empty-IsSplit :
    (url : Text) (p : ContentPart) (st : Split) → IsSplit st → IsSplit (add_unless_empty url p st)
unless_empty-IsSplit [] p st i = i
unless_empty-IsSplit (c ∷ url) p st i = add_part-IsSplit p true st (λ e. ground (arith, e)) i

flush_parts-empties : (st : Split) → spell_parts (flush_parts st).parts ≡ []
unfolding flush_parts spell_parts
flush_parts-empties st = of st.messages st.parts st.has_images
  where
    of :
        (ms : List ChatMessage) (ps : List ContentPart) (h : Bool)
        → spell_parts (flush_parts (record { messages = ms; parts = ps; has_images = h })).parts
          ≡ []
    of ms [] h = refl
    of ms (p ∷ ps) h = refl

said-tool_message :
    (id answer : Text) (st : Split)
    → IsSplit st
    → spell_messages ((flush_parts st).messages ++ (tool_message id answer ∷ []))
        ++ spell_parts (flush_parts st).parts
      ≡ said st ++ (result id answer ∷ [])
unfolding spell_message said IsSplit
said-tool_message id answer st i =
    let ms = (flush_parts st).messages in
    let m = tool_message id answer in
    ap (λ r. spell_messages (ms ++ (m ∷ [])) ++ r) (flush_parts-empties st)
    ∙ append-nil (spell_messages (ms ++ (m ∷ [])))
    ∙ spell_messages-append ms (m ∷ [])
    ∙ ap₂ (λ r q. r ++ q) (spell-flush st.messages st.parts st.has_images i)
        (spell_messages-single m)

user_step-IsSplit : (b : CanonicalBlock) (st : Split) → IsSplit st → IsSplit (user_step b st)
unfolding user_step IsSplit
user_step-IsSplit (block_text s) st i = add_part-IsSplit (part_text s) false st (λ e. refl) i
user_step-IsSplit (block_image f) st i =
    let url = address_of f.media_type f.image_data f.url in
    unless_empty-IsSplit url (part_image url) st i
user_step-IsSplit (block_document f) st i =
    let data' = address_of f.media_type f.doc_data f.url in
    unless_empty-IsSplit data' (part_file data' f.filename) st i
user_step-IsSplit (block_audio audio format) st i =
    add_part-IsSplit (part_audio audio format) true st (λ e. ground (arith, e)) i
user_step-IsSplit (block_tool_result id answer) st i = flush_parts-IsSplit st i
user_step-IsSplit (block_tool_use id name input) st i = i
user_step-IsSplit (block_thinking s) st i = i
user_step-IsSplit (block_refusal s) st i = i

said-user_step :
    (b : CanonicalBlock) (st : Split)
    → IsSplit st
    → said (user_step b st) ≡ said st ++ spell_block b
unfolding user_step spell_block said spell_messages
said-user_step (block_text s) st i = said-add_part (part_text s) false st
said-user_step (block_image f) st i =
    let url = address_of f.media_type f.image_data f.url in
    said-unless_empty url (part_image url) (image url) st refl
said-user_step (block_document f) st i =
    let data' = address_of f.media_type f.doc_data f.url in
    said-unless_empty data' (part_file data' f.filename) (file data' f.filename) st refl
said-user_step (block_audio audio format) st i = said-add_part (part_audio audio format) true st
said-user_step (block_tool_result id answer) st i = said-tool_message id answer st i
said-user_step (block_tool_use id name input) st i = sym (append-nil (said st))
said-user_step (block_thinking s) st i = sym (append-nil (said st))
said-user_step (block_refusal s) st i = sym (append-nil (said st))

spell-user_loop :
    (bs : List CanonicalBlock) (st : Split)
    → IsSplit st
    → spell_messages (flush_parts (user_loop bs st)).messages ≡ said st ++ spell_blocks bs
unfolding user_loop spell_blocks IsSplit said
spell-user_loop [] st i =
    spell-flush st.messages st.parts st.has_images i ∙ sym (append-nil (said st))
spell-user_loop (b ∷ bs) st i =
    spell-user_loop bs (user_step b st) (user_step-IsSplit b st i)
    ∙ ap (λ r. r ++ spell_blocks bs) (said-user_step b st i)
    ∙ append_assoc (said st) (spell_block b) (spell_blocks bs)

-- The messages that a user's message becomes for OpenAI say what its blocks say and in their order:
-- every letter of its texts, every image, sound and document that is not empty, and every result of
-- a tool, under the identifier of its call.
pub spell-canonical_user_to_openai :
    (m : CanonicalMessage) → spell_messages (canonical_user_to_openai m) ≡ spell_blocks m.blocks
unfolding canonical_user_to_openai said spell_messages spell_parts IsSplit
spell-canonical_user_to_openai m =
    spell-user_loop m.blocks (record { messages = []; parts = []; has_images = false }) (λ e. tt)
