-- ===== src/Stream/Cutoff.antt =====
-- internal/proxy/stream_synth.go, SynthesizeAnthropicSSE: a client that goes away.
use glitchgate.Prelude.{
  ℕ, zero, suc, ◌+◌, ◌<◌, Bool, false, List, [], ◌∷◌, ◌++◌, length, ◌≡◌, refl, ap, ◌∙◌, arith,
  Bool-cases, inl, inr,
}
use glitchgate.Stream.{no_tokens}
use glitchgate.Stream.Synthesis.{
  MessagesResponse, Event, event_text, emit_events, anthropic_events, synthesize_anthropic_sse,
}

module _ (write_ok : ℕ → Bool) where
  pub emit_cut {ℓ} :
      {E : Type ℓ} (text : E → List ℕ) (es : List E) (n k m : ℕ) (captured : List ℕ)
      → m ≡ n + k
      → k < length es
      → write_ok m ≡ false
      → (emit_events text write_ok n captured es).1 ≡ false
  unfolding emit_events
  emit_cut text [] n k m captured i l f = absurd (omega (arith, l))
  emit_cut text (e ∷ es) n zero m captured i l f =
      let q : write_ok n ≡ false = ap write_ok (omega (arith, i)) ∙ f in rw (emit_events, q) refl
  emit_cut text (e ∷ es) n (suc k) m captured i l f = elim (Bool-cases (write_ok n)) [
    | inl q ↦
        rw (emit_events, q)
          (emit_cut text es (suc n) k m (captured ++ text e) (omega (arith, i)) (omega (arith, l))
            f)
    | inr q ↦ rw (emit_events, q) refl
  ]

  -- If one of the writes fails, no tokens are counted, whatever the response has used, and the
  -- synthesis ends with the error.
  synthesize_cut :
      {Json : Type 0} (marshal : Json → List ℕ) (payload : Event → List ℕ)
      (resp : MessagesResponse Json) (k : ℕ)
      → k < length (anthropic_events marshal resp)
      → write_ok k ≡ false
      → ((synthesize_anthropic_sse marshal payload write_ok resp).0.counts ≡ no_tokens)
        × ((synthesize_anthropic_sse marshal payload write_ok resp).1 ≡ false)
  unfolding synthesize_anthropic_sse
  synthesize_cut marshal payload resp k l f =
      let c =
        emit_cut (event_text payload) (anthropic_events marshal resp) 0 k k [] (omega arith) l f in
      rw (synthesize_anthropic_sse, c) (refl, refl)
