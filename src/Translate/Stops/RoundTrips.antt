-- ===== src/Translate/Stops/RoundTrips.antt =====
-- internal/translate: which stop reasons survive a translation, and the two ways from Anthropic's
-- to OpenAI's.
use glitchgate.Prelude.{
  String, Option, none, some, ◌==◌, eq_iff, ◌≡◌, ◌≢◌, refl, inl, inr, arith, Bool-cases,
}
use glitchgate.Translate.Stops.{
  StopReason, end_turn, max_tokens, tool_use, stop_sequence, content_filter, unset, unknown,
  canonical_stop_reason_to_anthropic, anthropic_stop_reason_to_canonical,
  canonical_stop_reason_to_openai_finish, openai_finish_to_canonical, map_stop_reason,
}

-- What Anthropic's texts can say.
abbrev pub as_anthropic : StopReason → StopReason
as_anthropic content_filter = end_turn
as_anthropic unset = end_turn
as_anthropic unknown = end_turn
as_anthropic sr = sr

-- What OpenAI's texts can say.
abbrev pub as_openai : StopReason → StopReason
as_openai stop_sequence = end_turn
as_openai unknown = end_turn
as_openai sr = sr

-- A reason written for Anthropic and read back is the reason, where Anthropic has a text for it, and
-- the end of the turn where it has none; written for OpenAI and read back likewise, where OpenAI has
-- none for a stop sequence.
stop_reasons_survive :
    (sr : StopReason)
    → (anthropic_stop_reason_to_canonical (some (canonical_stop_reason_to_anthropic sr))
        ≡ (as_anthropic sr, none))
      × (openai_finish_to_canonical (canonical_stop_reason_to_openai_finish sr) ≡ as_openai sr)
unfolding anthropic_stop_reason_to_canonical openai_finish_to_canonical
stop_reasons_survive end_turn = (refl, refl)
stop_reasons_survive max_tokens = (refl, refl)
stop_reasons_survive tool_use = (refl, refl)
stop_reasons_survive stop_sequence = (refl, refl)
stop_reasons_survive content_filter = (refl, refl)
stop_reasons_survive unset = (refl, refl)
stop_reasons_survive unknown = (refl, refl)

-- For the texts that Anthropic documents and for none at all, the direct map of stop reasons and
-- the one through the canonical form agree.
map_stop_reason_lem :
    (s : Option String)
    → (anthropic_stop_reason_to_canonical s).0 ≢ unknown
    → map_stop_reason s
      ≡ canonical_stop_reason_to_openai_finish (anthropic_stop_reason_to_canonical s).0
unfolding anthropic_stop_reason_to_canonical map_stop_reason
map_stop_reason_lem none n = refl
map_stop_reason_lem (some s) n = elim (Bool-cases (s == "max_tokens")) [
  | inl e ↦ rw ((eq_iff s "max_tokens").0 e) refl
  | inr e ↦ elim (Bool-cases (s == "tool_use")) [
    | inl f ↦ rw ((eq_iff s "tool_use").0 f) refl
    | inr f ↦ elim (Bool-cases (s == "stop_sequence")) [
      | inl g ↦ rw ((eq_iff s "stop_sequence").0 g) refl
      | inr g ↦ elim (Bool-cases (s == "end_turn")) [
        | inl h ↦ rw ((eq_iff s "end_turn").0 h) refl
        | inr h ↦ ground (arith, n, e, f, g, h)
      ]
    ]
  ]
]
