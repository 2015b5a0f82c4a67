-- ===== src/Stream/Listener.antt =====
-- internal/proxy/stream_synth.go, SynthesizeResponsesSSE: what a client makes of the events. The
-- listener is the one that the API's documentation describes: items open and close one after another,
-- and inside an item its parts, whose final text is that of its deltas.
use mathlib.Core.List.{append_assoc, append-nil}
use glitchgate.Prelude.{
  ℕ, suc, true, ◌&&◌, Option, none, some, List, [], ◌∷◌, ◌++◌, String, ◌==◌, eq_refl, nat_eq,
  if◌then◌else◌, ◌≡◌, refl, ap, ◌∙◌, sym, arith, Bool-cases, inl, inr,
}
use glitchgate.Stream.Outputs.{
  OutputContent, OutputItem, ResponsesResponse, Added, in_progress, whole, OutputEvent, created,
  item_added, part_added, text_delta, text_done, part_done, item_done, completed, done_line,
  content_events, item_events, output_events, responses_events,
}

-- An item that was closed, under its index, with the parts that were streamed for it.
pub record Heard (Rest : Type 0) : Type 0 where
  pub index : ℕ
  pub item : OutputItem Rest
  pub parts : List (ℕ × String)

pub data Listener (Rest : Type 0) : Type 0 where
  silent : Listener Rest
  listening : List (Heard Rest) → Listener Rest
  in_item : List (Heard Rest) → ℕ → List (ℕ × String) → Listener Rest
  in_part told : List (Heard Rest) → ℕ → List (ℕ × String) → ℕ → Option String → Listener Rest
  closing ended : List (Heard Rest) → ResponsesResponse Rest → Listener Rest

-- The parts of a message that are output text, each under its index.
abbrev pub text_parts : ℕ → List OutputContent → List (ℕ × String)
text_parts k [] = []
text_parts k (c ∷ cs) =
    let rest = text_parts (suc k) cs in if c.type == "output_text" then (k, c.text) ∷ rest else rest

same_index : (n : ℕ) → nat_eq n n ≡ true
same_index n = ground arith

module _ {Rest : Type 0} where
  unfoldable pub listener_step : Listener Rest → OutputEvent Rest → Option (Listener Rest)
  listener_step silent (created id model) = some (listening [])
  listener_step (listening heard) (item_added i a) = some (in_item heard i [])
  listener_step (in_item heard i parts) (part_added id j k) =
      if nat_eq i j then some (in_part heard i parts k none) else none
  listener_step (in_part heard i parts k none) (text_delta id j l text) =
      if nat_eq i j && nat_eq k l then some (in_part heard i parts k (some text)) else none
  listener_step (in_part heard i parts k (some t)) (text_done id j l text) =
      if nat_eq i j && nat_eq k l && t == text then some (told heard i parts k (some t)) else none
  listener_step (told heard i parts k (some t)) (part_done id j l text) =
      if nat_eq i j && nat_eq k l && t == text
      then some (in_item heard i (parts ++ (k, t) ∷ []))
      else none
  listener_step (in_item heard i parts) (item_done j item) =
      if nat_eq i j
      then some (listening (heard ++ (record { index = i; item = item; parts = parts }) ∷ []))
      else none
  listener_step (listening heard) (completed resp) = some (closing heard resp)
  listener_step (closing heard resp) done_line = some (ended heard resp)
  listener_step _ _ = none

  unfoldable pub listener_run : Listener Rest → List (OutputEvent Rest) → Option (Listener Rest)
  unfolding listener_step
  listener_run l [] = some l
  listener_run l (e ∷ es) = elim (listener_step l e) [ none ↦ none | some m ↦ listener_run m es ]

  -- What should be heard of an item.
  abbrev pub heard_of : ℕ → OutputItem Rest → List (Heard Rest)
  heard_of i item =
      if item.type == "message"
      then record { index = i; item = item; parts = text_parts 0 item.content } ∷ []
      else if item.type == "function_call"
      then record { index = i; item = item; parts = [] } ∷ []
      else []

  abbrev pub all_heard : ℕ → List (OutputItem Rest) → List (Heard Rest)
  all_heard i [] = []
  all_heard i (item ∷ items) = heard_of i item ++ all_heard (suc i) items

  takes :
      (l m : Listener Rest) (e : OutputEvent Rest) (es : List (OutputEvent Rest))
      → listener_step l e ≡ some m
      → listener_run l (e ∷ es) ≡ listener_run m es
  unfolding listener_run
  takes l m e es q = rw (listener_run, q) refl

  part_run :
      (heard : List (Heard Rest)) (id : String) (i k : ℕ) (parts : List (ℕ × String)) (t : String)
      (es : List (OutputEvent Rest))
      → listener_run (in_item heard i parts) (
          part_added id i k
          ∷ (text_delta id i k t ∷ (text_done id i k t ∷ (part_done id i k t ∷ es))))
        ≡ listener_run (in_item heard i (parts ++ (k, t) ∷ [])) es
  unfolding listener_step
  part_run heard id i k parts t es =
      takes (in_item heard i parts) (in_part heard i parts k none) _ _ (rw (same_index i) refl)
      ∙ takes (in_part heard i parts k none) (in_part heard i parts k (some t)) _ _
          (rw (same_index i, same_index k) refl)
      ∙ takes (in_part heard i parts k (some t)) (told heard i parts k (some t)) _ _
          (rw (same_index i, same_index k, eq_refl t) refl)
      ∙ takes (told heard i parts k (some t)) (in_item heard i (parts ++ (k, t) ∷ [])) _ es
          (rw (same_index i, same_index k, eq_refl t) refl)

  parts_run :
      (heard : List (Heard Rest)) (id : String) (i k : ℕ) (parts : List (ℕ × String))
      (cs : List OutputContent) (es : List (OutputEvent Rest))
      → listener_run (in_item heard i parts) (content_events id i k cs ++ es)
        ≡ listener_run (in_item heard i (parts ++ text_parts k cs)) es
  unfolding content_events
  parts_run heard id i k parts [] es =
      ap (λ x. listener_run (in_item heard i x) es) (sym (append-nil parts))
  parts_run heard id i k parts (c ∷ cs) es = elim (Bool-cases (c.type == "output_text")) [
    | inl e ↦
        rw (content_events, e)
          (part_run heard id i k parts c.text (content_events id i (suc k) cs ++ es)
            ∙ parts_run heard id i (suc k) (parts ++ (k, c.text) ∷ []) cs es
            ∙ ap (λ x. listener_run (in_item heard i x) es)
                (append_assoc parts ((k, c.text) ∷ []) (text_parts (suc k) cs)))
    | inr e ↦ rw (content_events, e) (parts_run heard id i (suc k) parts cs es)
  ]

  closes :
      (heard : List (Heard Rest)) (i : ℕ) (parts : List (ℕ × String)) (item : OutputItem Rest)
      (es : List (OutputEvent Rest))
      → listener_run (in_item heard i parts) (item_done i item ∷ es)
        ≡ listener_run
            (listening (heard ++ (record { index = i; item = item; parts = parts }) ∷ []))
            es
  unfolding listener_step
  closes heard i parts item es =
      takes (in_item heard i parts) _ (item_done i item) es (rw (same_index i) refl)

  opens :
      (heard : List (Heard Rest)) (i : ℕ) (a : Added Rest) (es : List (OutputEvent Rest))
      → listener_run (listening heard) (item_added i a ∷ es) ≡ listener_run (in_item heard i []) es
  unfolding listener_step
  opens heard i a es = takes (listening heard) (in_item heard i []) (item_added i a) es refl

  message_run :
      (heard : List (Heard Rest)) (i : ℕ) (item : OutputItem Rest) (es : List (OutputEvent Rest))
      → listener_run (listening heard) (
          (item_added i (in_progress item.id item.role)
            ∷ (content_events item.id i 0 item.content ++ item_done i item ∷ []))
          ++ es)
        ≡ listener_run
            (listening (
              heard ++ (record { index = i; item = item; parts = text_parts 0 item.content }) ∷ []))
            es
  message_run heard i item es =
      opens heard i (in_progress item.id item.role)
        ((content_events item.id i 0 item.content ++ item_done i item ∷ []) ++ es)
      ∙ ap (listener_run (in_item heard i []))
          (append_assoc (content_events item.id i 0 item.content) (item_done i item ∷ []) es)
      ∙ parts_run heard item.id i 0 [] item.content (item_done i item ∷ es)
      ∙ closes heard i (text_parts 0 item.content) item es

  item_run :
      (heard : List (Heard Rest)) (i : ℕ) (item : OutputItem Rest) (es : List (OutputEvent Rest))
      → listener_run (listening heard) (item_events i item ++ es)
        ≡ listener_run (listening (heard ++ heard_of i item)) es
  unfolding item_events
  item_run heard i item es = elim (Bool-cases (item.type == "message")) [
    | inl e ↦ rw (item_events, e) (message_run heard i item es)
    | inr e ↦ elim (Bool-cases (item.type == "function_call")) [
      | inl f ↦
          rw (item_events, e, f)
            (opens heard i (whole item) (item_done i item ∷ es) ∙ closes heard i [] item es)
      | inr f ↦
          rw (item_events, e, f) (ap (λ x. listener_run (listening x) es) (sym (append-nil heard)))
    ]
  ]

  items_run :
      (heard : List (Heard Rest)) (i : ℕ) (items : List (OutputItem Rest))
      (es : List (OutputEvent Rest))
      → listener_run (listening heard) (output_events i items ++ es)
        ≡ listener_run (listening (heard ++ all_heard i items)) es
  unfolding output_events
  items_run heard i [] es = ap (λ x. listener_run (listening x) es) (sym (append-nil heard))
  items_run heard i (item ∷ items) es =
      ap (listener_run (listening heard))
        (append_assoc (item_events i item) (output_events (suc i) items) es)
      ∙ item_run heard i item (output_events (suc i) items ++ es)
      ∙ items_run (heard ++ heard_of i item) (suc i) items es
      ∙ ap (λ x. listener_run (listening x) es)
          (append_assoc heard (heard_of i item) (all_heard (suc i) items))

  -- A listener that takes the events of a response hears each message and each function call once,
  -- in order and under its index, a message with the output texts of its content, and the whole
  -- response at the end.
  pub listener_run-responses_events :
      (resp : ResponsesResponse Rest)
      → listener_run silent (responses_events resp) ≡ some (ended (all_heard 0 resp.output) resp)
  unfolding responses_events listener_run listener_step
  listener_run-responses_events resp = items_run [] 0 resp.output _
