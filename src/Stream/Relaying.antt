-- ===== src/Stream/Relaying.antt =====
-- internal/proxy/stream_relay.go over what stream_synth.go writes: a synthesized stream that is read
-- as an upstream's is passed on as it is, with the same token counts.
use mathlib.Core.List.{append_assoc, append-nil}
use glitchgate.Prelude.{
  ℕ, suc, Bool, true, false, not, ◌&&◌, Option, none, some, List, [], ◌∷◌, ◌++◌, bytes, ◌≡◌, refl,
  ap, ap₂, sym, ◌∙◌, arith, Bool-cases, inl, inr, All,
}
use glitchgate.Stream.{
  TokenCounts, no_tokens, StreamResult, contains, sanitize_sse_line, Envelope, start_counts,
  delta_counts, envelope_counts, extract_anthropic_tokens, line_counts, relay_lines,
  relay_sse_stream,
}
use glitchgate.Stream.Synthesis.{
  MessagesResponse, Event, message_start, ping, message_delta, event_type, block_events,
  anthropic_events, event_text, emit_events, response_counts, synthesize_anthropic_sse,
  ContentBlock,
}

-- What the relay decodes of an event's payload.
abbrev pub envelope : Event → Envelope
envelope (message_start id model u) = record {
  type = "message_start";
  message_usage = some u;
  usage = none;
}
envelope (message_delta reason sequence u) = record {
  type = "message_delta";
  message_usage = none;
  usage = some u;
}
envelope e = record { type = event_type e; message_usage = none; usage = none }

abbrev event_counts : Event → TokenCounts → TokenCounts
event_counts (message_start id model u) r = start_counts (some u) r
event_counts (message_delta reason sequence u) r = delta_counts (some u) r
event_counts e r = r

-- The lines of events, as the scanner gives them.
abbrev pub stream_lines : (Event → List ℕ) → List Event → List (List ℕ)
stream_lines payload [] = []
stream_lines payload (e ∷ es) =
    (bytes "event: " ++ bytes (event_type e))
    ∷ ((bytes "data: " ++ payload e) ∷ ([] ∷ stream_lines payload es))

abbrev texts : (Event → List ℕ) → List Event → List ℕ
texts payload [] = []
texts payload (e ∷ es) = event_text payload e ++ texts payload es

abbrev events_counts : List Event → TokenCounts → TokenCounts
events_counts [] r = r
events_counts (e ∷ es) r = events_counts es (event_counts e r)

header_clean :
    (e : Event)
    → sanitize_sse_line (bytes "event: " ++ bytes (event_type e))
      ≡ bytes "event: " ++ bytes (event_type e)
unfolding sanitize_sse_line
header_clean (message_start id model u) = refl
header_clean e = refl

module _ (payload : Event → List ℕ) (decode : List ℕ → Option Envelope) where
  -- What is relied on in package json: a payload has no carriage return or null byte, holds its
  -- event's type, and is decoded to what was encoded.
  unfoldable pub Encodes : Event → Type 0
  unfolding contains sanitize_sse_line
  Encodes e =
      (sanitize_sse_line (payload e) ≡ payload e)
      × (contains (payload e) (bytes (event_type e)) ≡ true)
      × (decode (payload e) ≡ some (envelope e))

  passes_over :
      (p : List ℕ) (en : Envelope) (r : TokenCounts)
      → decode p ≡ some en
      → envelope_counts en r ≡ r
      → extract_anthropic_tokens decode p r ≡ r
  unfolding extract_anthropic_tokens
  passes_over p en r d k =
      elim (Bool-cases
        (not (contains p (bytes "message_start")) && not (contains p (bytes "message_delta")))) [
          | inl e ↦ rw (extract_anthropic_tokens, e) refl
          | inr e ↦ rw (extract_anthropic_tokens, e, d) k
        ]

  not_both : (a b : Bool) → b ≡ true → (not a && not b) ≡ false
  not_both a b e = ground (arith, e)

  extract_lem :
      (e : Event) (r : TokenCounts)
      → Encodes e
      → extract_anthropic_tokens decode (payload e) r ≡ event_counts e r
  unfolding Encodes extract_anthropic_tokens envelope_counts
  extract_lem (message_start id model u) r (s, c, d) = rw (extract_anthropic_tokens, c, d) refl
  extract_lem (message_delta reason sequence u) r (s, c, d) =
      let p = payload (message_delta reason sequence u) in
      rw
        (
          extract_anthropic_tokens,
          not_both (contains p (bytes "message_start")) (contains p (bytes "message_delta")) c,
          d,
        )
        refl
  extract_lem ping r (s, c, d) = passes_over (payload ping) (envelope ping) r d refl
  extract_lem e r (s, c, d) = passes_over (payload e) (envelope e) r d refl

  joined :
      (b t p : List ℕ)
      → ((b ++ ((bytes "event: " ++ t) ++ 10 ∷ [])) ++ ((bytes "data: " ++ p) ++ 10 ∷ []))
          ++ 10 ∷ []
        ≡ b ++ (bytes "event: " ++ (t ++ (10 ∷ (bytes "data: " ++ (p ++ (10 ∷ (10 ∷ [])))))))
  joined b t p = simp (append_assoc)

  module _ (write_ok : ℕ → Bool) (accepts : (n : ℕ) → write_ok n ≡ true) where
    -- One line that is clean, with what it adds to the counts.
    relay_line :
        (n : ℕ) (line : List ℕ) (lines : List (List ℕ)) (r : StreamResult)
        → sanitize_sse_line line ≡ line
        → relay_lines (extract_anthropic_tokens decode) write_ok n (line ∷ lines) r
          ≡ relay_lines (extract_anthropic_tokens decode) write_ok (suc n) lines (record {
            body = r.body ++ (line ++ 10 ∷ []);
            counts = line_counts (extract_anthropic_tokens decode) line r.counts;
          })
    unfolding relay_lines
    relay_line n line lines r c = rw (relay_lines, accepts n, c) refl

    data_clean :
        (e : Event)
        → Encodes e
        → sanitize_sse_line (bytes "data: " ++ payload e) ≡ bytes "data: " ++ payload e
    unfolding Encodes sanitize_sse_line
    data_clean e (s, c, d) = ap (λ p. bytes "data: " ++ p) s

    relay_event :
        (e : Event) (es : List Event) (n : ℕ) (r : StreamResult)
        → Encodes e
        → relay_lines (extract_anthropic_tokens decode) write_ok n (stream_lines payload (e ∷ es)) r
          ≡ relay_lines
              (extract_anthropic_tokens decode)
              write_ok
              (suc (suc (suc n)))
              (stream_lines payload es)
              (record { body = r.body ++ event_text payload e; counts = event_counts e r.counts })
    unfolding line_counts sanitize_sse_line
    relay_event e es n r c =
        let head = bytes "event: " ++ bytes (event_type e) in
        let line = bytes "data: " ++ payload e in
        relay_line n head _ r (header_clean e)
        ∙ relay_line (suc n) line _ _ (data_clean e c)
        ∙ relay_line (suc (suc n)) [] _ _ refl
        ∙ ap₂
            (λ b t.
              relay_lines (extract_anthropic_tokens decode) write_ok (suc (suc (suc n)))
                (stream_lines payload es) (record { body = b; counts = t }))
            (joined r.body (bytes (event_type e)) (payload e)) (extract_lem e r.counts c)

    relay_events :
        (es : List Event) (n : ℕ) (r : StreamResult)
        → All Encodes es
        → relay_lines (extract_anthropic_tokens decode) write_ok n (stream_lines payload es) r
          ≡ (record { body = r.body ++ texts payload es; counts = events_counts es r.counts }, true)
    unfolding relay_lines
    relay_events [] n r a =
        ap (λ b. (record { body = b; counts = r.counts }, true)) (sym (append-nil r.body))
    relay_events (e ∷ es) n r (c, a) =
        relay_event e es n r c
        ∙ relay_events es (suc (suc (suc n))) _ a
        ∙ ap (λ b. (record { body = b; counts = events_counts es (event_counts e r.counts) }, true))
            (append_assoc r.body (event_text payload e) (texts payload es))

    emitted_lem :
        (es : List Event) (n : ℕ) (captured : List ℕ)
        → emit_events (event_text payload) write_ok n captured es
          ≡ (captured ++ texts payload es, true)
    unfolding emit_events
    emitted_lem [] n captured = ap (λ b. (b, true)) (sym (append-nil captured))
    emitted_lem (e ∷ es) n captured =
        rw (emit_events, accepts n)
          (emitted_lem es (suc n) (captured ++ event_text payload e)
            ∙ ap (λ b. (b, true)) (append_assoc captured (event_text payload e) (texts payload es)))

    module _ {Json : Type 0} (marshal : Json → List ℕ) where
      blocks_lem :
          (bs : List (ContentBlock Json)) (i : ℕ) (es : List Event) (t : TokenCounts)
          → events_counts (block_events marshal i bs ++ es) t ≡ events_counts es t
      unfolding block_events
      blocks_lem [] i es t = refl
      blocks_lem (b ∷ bs) i es t = blocks_lem bs (suc i) es t

      counts_lem :
          (resp : MessagesResponse Json)
          → events_counts (anthropic_events marshal resp) no_tokens ≡ response_counts resp.usage
      unfolding anthropic_events
      counts_lem resp = blocks_lem resp.content 0 _ _

      -- A client that accepts every write gets from the relay of a synthesized stream what the
      -- synthesis writes, with the same token counts, if its events' payloads are as package json
      -- makes them.
      pub relay-synthesize :
          (resp : MessagesResponse Json)
          → All Encodes (anthropic_events marshal resp)
          → relay_sse_stream
              (extract_anthropic_tokens decode)
              write_ok
              (stream_lines payload (anthropic_events marshal resp))
            ≡ synthesize_anthropic_sse marshal payload write_ok resp
      unfolding relay_sse_stream synthesize_anthropic_sse
      relay-synthesize resp a =
          relay_events (anthropic_events marshal resp) 0 (record { body = []; counts = no_tokens })
            a
          ∙ ap
              (λ t.
                (record { body = texts payload (anthropic_events marshal resp); counts = t }, true))
              (counts_lem resp)
          ∙ sym
              (rw (synthesize_anthropic_sse, emitted_lem (anthropic_events marshal resp) 0 []) refl)
