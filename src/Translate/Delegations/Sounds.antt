-- ===== src/Translate/Delegations/Sounds.antt =====
-- internal/translate/delegations.go: no request of OpenAI's that can be read is refused for
-- Anthropic.
use glitchgate.Prelude.{some, List, [], ◌∷◌, map, ◌≡◌, refl, ap, ◌∙◌, arith, subst, ◌==◌}
use glitchgate.Translate.Values.{
  Result, done, failed, ◌>>=◌, Json, done-bind, done-injective, Error, bad_role,
}
use glitchgate.Translate.Canonical.{CanonicalMessage, CanonicalRequest}
use glitchgate.Translate.Anthropic.{canonical_message_to_anthropic}
use glitchgate.Translate.Anthropic.Requests.{
  MessagesRequest, has_audio, canonical_to_anthropic_request,
}
use glitchgate.Translate.Anthropic.Writing.{IsSilent, AllSilent, written, written_all}
use glitchgate.Translate.Openai.{
  ChatMessage, content_text, user_blocks, openai_user_message_to_canonical,
}
use glitchgate.Translate.Openai.Requests.{
  ChatCompletionRequest, Turns, add_message, tool_result_message, turn_step, turn_loop,
  openai_request_to_canonical,
}
use glitchgate.Translate.Openai.Reading.{no_turns, built-read}
use glitchgate.Translate.Delegations.{openai_to_anthropic}
use glitchgate.Translate.Openai.Silence.{
  either_branch, user_blocks-IsSilent, assistant-IsSilent, AllSilent-add,
}

-- Whatever a step of the loop ends in without an error is silent.
StaysSilent : Result Turns → Type 0
StaysSilent r = (u : Turns) → r ≡ done u → AllSilent u.messages

failed-StaysSilent : (x : Error) → StaysSilent (failed x)
unfolding StaysSilent
failed-StaysSilent x = λ u e. ground (arith, e)

done-StaysSilent : (t : Turns) → AllSilent t.messages → StaysSilent (done t)
unfolding StaysSilent
done-StaysSilent t a = λ u e. subst (λ v. AllSilent v.messages) (done-injective t u e) a

bind-StaysSilent :
    {A : Type 0} (r : Result A) (f : A → Turns)
    → ((a : A) → r ≡ done a → AllSilent (f a).messages)
    → StaysSilent (r >>= λ a. done (f a))
bind-StaysSilent (done a) f p = done-StaysSilent (f a) (p a refl)
bind-StaysSilent (failed x) f p = failed-StaysSilent x

user_message-IsSilent :
    (msg : ChatMessage) (m : CanonicalMessage)
    → openai_user_message_to_canonical msg ≡ done m
    → IsSilent m.blocks
unfolding openai_user_message_to_canonical
user_message-IsSilent msg m e =
    let (bs, p, q) = done-bind (user_blocks msg.content) _ m e in
    subst (λ n. IsSilent n.blocks) (done-injective _ m q) (user_blocks-IsSilent msg.content bs p)

turn_step-StaysSilent :
    (json : Json) (msg : ChatMessage) (t : Turns)
    → AllSilent t.messages
    → StaysSilent (turn_step json msg t)
unfolding turn_step IsSilent has_audio tool_result_message
turn_step-StaysSilent json msg t a =
    either_branch StaysSilent (msg.role == "system") _ _
      (bind-StaysSilent (content_text msg.content) _ (λ s e. a))
      (either_branch StaysSilent (msg.role == "user") _ _
        (bind-StaysSilent (openai_user_message_to_canonical msg) (add_message t)
          (λ m e. AllSilent-add t.messages m a (user_message-IsSilent msg m e)))
        (either_branch StaysSilent (msg.role == "assistant") _ _
          (done-StaysSilent _ (AllSilent-add t.messages _ a (assistant-IsSilent json msg)))
          (either_branch StaysSilent (msg.role == "tool") _ _
            (bind-StaysSilent (content_text msg.content) _
              (λ s e. AllSilent-add t.messages (tool_result_message msg s) a refl))
            (failed-StaysSilent bad_role))))

turn_loop-StaysSilent :
    (json : Json) (msgs : List ChatMessage) (t : Turns)
    → AllSilent t.messages
    → StaysSilent (turn_loop json msgs t)
unfolding turn_loop StaysSilent
turn_loop-StaysSilent json [] t a = done-StaysSilent t a
turn_loop-StaysSilent json (msg ∷ msgs) t a = λ u e.
    let (next, p, q) = done-bind (turn_step json msg t) (turn_loop json msgs) u e in
    turn_loop-StaysSilent json msgs next (turn_step-StaysSilent json msg t a next p) u q

-- A request of OpenAI's that is read without an error is translated for Anthropic without one, each
-- message by itself and in its order, whatever sounds its parts are: the reading drops them, so the
-- refusal of sounds is never met.
pub openai_to_anthropic_answers :
    (json : Json) (req : ChatCompletionRequest) (canon : CanonicalRequest)
    → openai_request_to_canonical json (some req) ≡ done canon
    → (r : MessagesRequest) × (openai_to_anthropic json (some req) ≡ done r)
      × (r.messages ≡ map canonical_message_to_anthropic canon.messages)
unfolding openai_to_anthropic StaysSilent AllSilent written
openai_to_anthropic_answers json req canon e =
    let (seqs, turns, choice, _, read, _, b) = built-read json req canon e in
    let silent : AllSilent canon.messages =
      subst (λ c. AllSilent c.messages) b
        (turn_loop-StaysSilent json req.messages no_turns tt turns read) in
    let messages = map canonical_message_to_anthropic canon.messages in
    (
      written canon messages,
      ap (λ r. r >>= λ c. canonical_to_anthropic_request (some c)) e ∙ written_all canon silent,
      refl,
    )
