-- ===== src/Translate/Openai/Silence.antt =====
-- internal/translate/canonical_openai.go: no sound is read of OpenAI's messages.
use glitchgate.Prelude.{
  Bool, true, false, Option, none, some, List, [], ◌∷◌, ◌++◌, map, ◌≡◌, refl, arith, Bool-cases,
  inl, inr, subst, is_empty, if◌then◌else◌, same_bytes, bytes,
}
use glitchgate.Translate.Values.{
  Text, null, boolean, number, string, array, object, Items, no_items, item, Fields, Result, done,
  failed, ◌>>=◌, Json, done-injective, as_string, as_object, or_blank, entry,
}
use glitchgate.Translate.Canonical.{
  CanonicalBlock, block_text, block_thinking, block_refusal, CanonicalMessage,
}
use glitchgate.Translate.Anthropic.Requests.{has_audio}
use glitchgate.Translate.Anthropic.Writing.{IsSilent, nothing-IsSilent, append-IsSilent, AllSilent}
use glitchgate.Translate.Openai.{
  Content, decoded, parts, ChatMessage, ToolCall, content_text, texts_of, image_part, file_part,
  part_to_canonical, parts_to_canonical, user_blocks, nonempty_block, reasoning_of, or_zero,
  call_to_canonical, openai_assistant_message_to_canonical,
}

texts_of-IsSilent : (s : Option Text) → IsSilent (texts_of s)
unfolding IsSilent has_audio
texts_of-IsSilent none = refl
texts_of-IsSilent (some s) = refl

image_part-IsSilent : (m : Option Fields) → IsSilent (image_part m)
unfolding IsSilent has_audio image_part
image_part-IsSilent none = refl
image_part-IsSilent (some m) = elim (Bool-cases (is_empty (or_blank (as_string (entry "url" m))))) [
  | inl e ↦ rw e refl
  | inr e ↦ rw e refl
]

file_part-IsSilent : (m : Option Fields) → IsSilent (file_part m)
unfolding IsSilent has_audio file_part
file_part-IsSilent none = refl
file_part-IsSilent (some m) =
    elim (Bool-cases (is_empty (or_blank (as_string (entry "file_data" m))))) [
      | inl e ↦ rw e refl
      | inr e ↦ rw e refl
    ]

-- What holds of both branches holds of a conditional.
pub either_branch :
    {A : Type 0} (P : A → Type 0) (b : Bool) (x y : A) → P x → P y → P (if b then x else y)
either_branch P true x y p q = p
either_branch P false x y p q = q

part_to_canonical-IsSilent : (m : Fields) → IsSilent (part_to_canonical m)
unfolding part_to_canonical
part_to_canonical-IsSilent m =
    let type = or_blank (as_string (entry "type" m)) in
    either_branch IsSilent (same_bytes type (bytes "text")) _ _
      (texts_of-IsSilent (as_string (entry "text" m)))
      (either_branch IsSilent (same_bytes type (bytes "image_url")) _ _
        (image_part-IsSilent (as_object (entry "image_url" m)))
        (either_branch IsSilent (same_bytes type (bytes "file")) _ _
          (file_part-IsSilent (as_object (entry "file" m))) nothing-IsSilent))

parts_to_canonical-IsSilent : (items : Items) → IsSilent (parts_to_canonical items)
unfolding IsSilent has_audio parts_to_canonical
parts_to_canonical-IsSilent no_items = refl
parts_to_canonical-IsSilent (item (object m) rest) =
    append-IsSilent (part_to_canonical m) (parts_to_canonical rest) (part_to_canonical-IsSilent m)
      (parts_to_canonical-IsSilent rest)
parts_to_canonical-IsSilent (item null rest) = parts_to_canonical-IsSilent rest
parts_to_canonical-IsSilent (item (boolean b) rest) = parts_to_canonical-IsSilent rest
parts_to_canonical-IsSilent (item (number n) rest) = parts_to_canonical-IsSilent rest
parts_to_canonical-IsSilent (item (string s) rest) = parts_to_canonical-IsSilent rest
parts_to_canonical-IsSilent (item (array xs) rest) = parts_to_canonical-IsSilent rest

text_message-IsSilent :
    (r : Result Text) (bs : List CanonicalBlock)
    → (r >>= λ s. done (block_text s ∷ [])) ≡ done bs
    → IsSilent bs
unfolding IsSilent has_audio
text_message-IsSilent (done s) bs e =
    subst (λ xs. has_audio xs ≡ false) (done-injective _ bs e) refl
text_message-IsSilent (failed x) bs e = ground (arith, e)

pub user_blocks-IsSilent :
    (c : Content) (bs : List CanonicalBlock) → user_blocks c ≡ done bs → IsSilent bs
unfolding user_blocks IsSilent has_audio
user_blocks-IsSilent (decoded (string s)) bs e =
    subst IsSilent (done-injective (block_text s ∷ []) bs e) refl
user_blocks-IsSilent (decoded (array items)) bs e =
    subst IsSilent (done-injective (parts_to_canonical items) bs e)
      (parts_to_canonical-IsSilent items)
user_blocks-IsSilent (decoded null) bs e =
    subst IsSilent (done-injective (block_text [] ∷ []) bs e) refl
user_blocks-IsSilent (decoded (boolean b)) bs e =
    text_message-IsSilent (content_text (decoded (boolean b))) bs e
user_blocks-IsSilent (decoded (number n)) bs e =
    text_message-IsSilent (content_text (decoded (number n))) bs e
user_blocks-IsSilent (decoded (object fs)) bs e =
    text_message-IsSilent (content_text (decoded (object fs))) bs e
user_blocks-IsSilent (parts ps) bs e = text_message-IsSilent (content_text (parts ps)) bs e

call-IsSilent : (json : Json) (tcs : List ToolCall) → IsSilent (map (call_to_canonical json) tcs)
unfolding IsSilent has_audio call_to_canonical
call-IsSilent json [] = refl
call-IsSilent json (tc ∷ tcs) = call-IsSilent json tcs

nonempty-IsSilent :
    (block : Text → CanonicalBlock) (s : Text)
    → IsSilent (block s ∷ [])
    → IsSilent (nonempty_block block s)
nonempty-IsSilent block s p =
    either_branch IsSilent (is_empty s) [] (block s ∷ []) nothing-IsSilent p

pub assistant-IsSilent :
    (json : Json) (msg : ChatMessage)
    → IsSilent (openai_assistant_message_to_canonical json msg).blocks
unfolding IsSilent has_audio openai_assistant_message_to_canonical
assistant-IsSilent json msg =
    let thought = nonempty_block block_thinking (reasoning_of msg) in
    let text' = nonempty_block block_text (or_zero (content_text msg.content)) in
    let refused = nonempty_block block_refusal msg.refusal in
    let calls = map (call_to_canonical json) msg.tool_calls in
    append-IsSilent thought (text' ++ (refused ++ calls))
      (nonempty-IsSilent block_thinking (reasoning_of msg) refl)
      (append-IsSilent text' (refused ++ calls)
        (nonempty-IsSilent block_text (or_zero (content_text msg.content)) refl)
        (append-IsSilent refused calls (nonempty-IsSilent block_refusal msg.refusal refl)
          (call-IsSilent json msg.tool_calls)))

pub AllSilent-add :
    (ms : List CanonicalMessage) (m : CanonicalMessage)
    → AllSilent ms
    → IsSilent m.blocks
    → AllSilent (ms ++ (m ∷ []))
unfolding AllSilent
AllSilent-add [] m a p = (p, tt)
AllSilent-add (x ∷ ms) m (q, a) p = (q, AllSilent-add ms m a p)
