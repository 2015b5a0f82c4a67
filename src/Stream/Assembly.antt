-- ===== src/Stream/Assembly.antt =====
-- internal/proxy/stream_synth.go, SynthesizeAnthropicSSE: what a client makes of the events. The
-- client is the one that the API's documentation describes: it takes a message's blocks one after
-- another, each opened, filled by deltas and closed under the next index, and refuses all else.
use mathlib.Core.List.{append_assoc, append-nil}
use glitchgate.Prelude.{
  ℕ, suc, Bool, true, false, ◌&&◌, ◌||◌, Option, none, some, List, [], ◌∷◌, ◌++◌, map, ◌==◌,
  if◌then◌else◌, bytes, nat_eq, length, length-append, ◌≡◌, refl, ap, sym, ◌∙◌, arith, Bool-cases,
  inl, inr,
}
use glitchgate.Stream.Synthesis.{
  ContentBlock, MessagesResponse, Event, content_block_start, content_block_delta,
  content_block_stop, start_block, delta_of, block_events, anthropic_events,
}
use glitchgate.Stream.Client.{
  Part, Message, Client, kind_of, addition, filled, client_step, client_run, tool_kind, text_kind,
  expecting, between, ended, filling,
}

abbrev or_refused : Bool → Option Client → Option Client
or_refused true c = c
or_refused false c = none

or_refused_lem : (x : Bool) (c : Option Client) → or_refused x c ≡ (if x then c else none)
or_refused_lem true c = refl
or_refused_lem false c = refl

module _ {Json : Type 0} (marshal : Json → List ℕ) where
  -- The blocks that a client can have: texts and tool calls.
  abbrev pub is_carried : ContentBlock Json → Bool
  is_carried b = b.type == "tool_use" || b.type == "text"

  abbrev pub all_carried : List (ContentBlock Json) → Bool
  all_carried [] = true
  all_carried (b ∷ bs) = is_carried b && all_carried bs

  -- Such a block as the client should have it.
  abbrev pub part_of : ContentBlock Json → Part
  part_of b =
      if b.type == "tool_use"
      then record { kind = tool_kind b.id b.name; content = marshal b.input }
      else record { kind = text_kind; content = bytes b.text }

  abbrev opened : ContentBlock Json → Part
  opened b = record { kind = kind_of (start_block marshal b); content = [] }

  fitting :
      (b : ContentBlock Json) (m : Message)
      → is_carried b ≡ true
      → filled m (opened b) (addition (opened b).kind (delta_of marshal b))
        ≡ some (filling m (part_of b))
  fitting b m c = elim (Bool-cases (b.type == "tool_use")) [
    | inl e ↦ rw (e) refl
    | inr e ↦ let t : (b.type == "text") ≡ true = rw e at c in rw (e, t) refl
  ]

  unfitting :
      (b : ContentBlock Json) (m : Message)
      → is_carried b ≡ false
      → filled m (opened b) (addition (opened b).kind (delta_of marshal b)) ≡ none
  unfitting b m c =
      let e : (b.type == "tool_use") ≡ false = ground (arith, c) in
      let t : (b.type == "text") ≡ false = ground (arith, c) in rw (e, t) refl

  same_index : (n : ℕ) → nat_eq n n ≡ true
  same_index n = ground arith

  takes :
      (c d : Client) (e : Event) (es : List Event)
      → client_step c e ≡ some d
      → client_run c (e ∷ es) ≡ client_run d es
  unfolding client_run
  takes c d e es q = rw (client_run, q) refl

  refuses :
      (c : Client) (e : Event) (es : List Event)
      → client_step c e ≡ none
      → client_run c (e ∷ es) ≡ none
  unfolding client_run
  refuses c e es q = rw (client_run, q) refl

  opens :
      (m : Message) (i : ℕ) (b : ContentBlock Json)
      → i ≡ length m.parts
      → client_step (between m) (content_block_start i (start_block marshal b))
        ≡ some (filling m (opened b))
  unfolding client_step
  opens m i b e = rw (e, same_index (length m.parts)) refl

  fills :
      (b : ContentBlock Json) (m : Message) (i : ℕ)
      → i ≡ length m.parts
      → client_step (filling m (opened b)) (content_block_delta i (delta_of marshal b))
        ≡ filled m (opened b) (addition (opened b).kind (delta_of marshal b))
  unfolding client_step
  fills b m i e = rw (e, same_index (length m.parts)) refl

  closes :
      (m : Message) (p : Part) (i : ℕ)
      → i ≡ length m.parts
      → client_step (filling m p) (content_block_stop i)
        ≡ some (between (record m { parts = m.parts ++ p ∷ [] }))
  unfolding client_step
  closes m p i e = rw (e, same_index (length m.parts)) refl

  one_block :
      (b : ContentBlock Json) (m : Message) (i : ℕ) (es : List Event)
      → i ≡ length m.parts
      → client_run (between m) (
          content_block_start i (start_block marshal b)
          ∷ (content_block_delta i (delta_of marshal b) ∷ (content_block_stop i ∷ es)))
        ≡ or_refused
            (is_carried b)
            (client_run (between (record m { parts = m.parts ++ part_of b ∷ [] })) es)
  one_block b m i es e =
      let open_step =
        takes (between m) (filling m (opened b)) (content_block_start i (start_block marshal b))
          (content_block_delta i (delta_of marshal b) ∷ (content_block_stop i ∷ es))
          (opens m i b e) in
      elim (Bool-cases (is_carried b)) [
        | inl c ↦
            open_step
            ∙ takes (filling m (opened b)) (filling m (part_of b))
                (content_block_delta i (delta_of marshal b)) _ (fills b m i e ∙ fitting b m c)
            ∙ takes (filling m (part_of b)) _ (content_block_stop i) es (closes m (part_of b) i e)
            ∙ ap
                (λ x.
                  or_refused x
                    (client_run (between (record m { parts = m.parts ++ part_of b ∷ [] })) es))
                (sym c)
        | inr c ↦
            open_step
            ∙ refuses (filling m (opened b)) (content_block_delta i (delta_of marshal b)) _
                (fills b m i e ∙ unfitting b m c)
            ∙ ap
                (λ x.
                  or_refused x
                    (client_run (between (record m { parts = m.parts ++ part_of b ∷ [] })) es))
                (sym c)
      ]

  both_carried :
      (x y : Bool) (c : Option Client) → or_refused x (or_refused y c) ≡ or_refused (x && y) c
  both_carried true y c = refl
  both_carried false y c = refl

  blocks_run :
      (bs : List (ContentBlock Json)) (m : Message) (i : ℕ) (es : List Event)
      → i ≡ length m.parts
      → client_run (between m) (block_events marshal i bs ++ es)
        ≡ or_refused
            (all_carried bs)
            (client_run (between (record m { parts = m.parts ++ map part_of bs })) es)
  unfolding block_events
  blocks_run [] m i es e =
      ap (λ ps. client_run (between (record m { parts = ps })) es) (sym (append-nil m.parts))
  blocks_run (b ∷ bs) m i es e =
      one_block b m i (block_events marshal (suc i) bs ++ es) e
      ∙ ap (or_refused (is_carried b)) (
          blocks_run bs (record m { parts = m.parts ++ part_of b ∷ [] }) (suc i) es
            (omega (arith, e, length-append m.parts (part_of b ∷ [])))
          ∙ ap
              (λ ps.
                or_refused (all_carried bs) (client_run (between (record m { parts = ps })) es))
              (append_assoc m.parts (part_of b ∷ []) (map part_of bs)))
      ∙ both_carried (is_carried b) (all_carried bs) _

  -- What a client should end with.
  abbrev pub received : MessagesResponse Json → Client
  received resp =
      ended
        (record {
          id = resp.id;
          model = resp.model;
          parts = map part_of resp.content;
          input_usage = record resp.usage { output_tokens = 0 };
        })
        resp.stop_reason resp.stop_sequence resp.usage.output_tokens

  -- A client that takes the events of a response whose blocks are texts and tool calls ends with the
  -- response's identifier, model and stop reason, each block in its place as a text or as a tool
  -- call with its identifier, name and input, and the usage. It refuses the events of a response
  -- with a block of any other type, which the events fill with a text that its kind has not.
  pub client_run-anthropic_events :
      (resp : MessagesResponse Json)
      → client_run expecting (anthropic_events marshal resp)
        ≡ (if all_carried resp.content then some (received resp) else none)
  unfolding anthropic_events client_run client_step
  client_run-anthropic_events resp =
      blocks_run resp.content
        (record {
          id = resp.id;
          model = resp.model;
          parts = [];
          input_usage = record resp.usage { output_tokens = 0 };
        })
        0 _ refl
      ∙ or_refused_lem (all_carried resp.content) (some (received resp))
