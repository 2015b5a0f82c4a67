-- ===== src/Translate/Anthropic/Keeping.antt =====
-- internal/translate/canonical_anthropic.go: the requests that Anthropic's form can carry.
use glitchgate.Prelude.{
  ℕ, suc, ℤ, pos, true, false, Option, none, some, List, [], ◌∷◌, All, All-each, ◌≡◌, ◌≢◌, refl, ap,
  ap₂, ◌∙◌, is_empty, arith, map, if◌then◌else◌,
}
use glitchgate.Translate.Values.{
  Text, Any, null, boolean, number, string, array, object, done, ◌>>=◌, each,
  extract_anthropic_system,
}
use glitchgate.Translate.Canonical.{
  CanonicalBlock, block_text, block_image, block_tool_use, block_tool_result, block_thinking,
  block_refusal, block_audio, block_document, CanonicalMessage, CanonicalTool, CanonicalToolChoice,
  ToolChoiceMode, choice_auto, choice_required, choice_none, choice_specific, CanonicalThinking,
  CanonicalRequest,
}
use glitchgate.Translate.Effort.{budget_tokens_to_effort}
use glitchgate.Translate.Anthropic.{
  ContentBlock, Content, anthropic_message_to_canonical, canonical_message_to_anthropic,
}
use glitchgate.Translate.Anthropic.Carrying.{IsCarried, IsReread, canonical-anthropic_message}
use glitchgate.Translate.Anthropic.Writing.{
  IsSilent, AllSilent, written_choice, written, written_all,
}
use glitchgate.Translate.Anthropic.Requests.{
  anthropic_tool_choice_to_canonical, tool_to_canonical, positive_limit, thinking_to_canonical,
  anthropic_request_to_canonical, has_audio, tool_to_anthropic, or_schema,
  canonical_tool_choice_to_anthropic, or_default_limit, config_of, thinking_to_anthropic,
  canonical_to_anthropic_request,
}

-- A choice other than none, with a name exactly where one is used.
unfoldable pub IsChoice : Option CanonicalToolChoice → Type 0
IsChoice none = Unit
IsChoice (some c) = of c.mode
  where
    of : ToolChoiceMode → Type 0
    of choice_none = ⊥
    of choice_specific = Unit
    of choice_auto = c.function_name ≡ []
    of choice_required = c.function_name ≡ []

-- A positive budget, with its own effort.
unfoldable pub IsThinking : Option CanonicalThinking → Type 0
unfolding budget_tokens_to_effort
IsThinking none = Unit
IsThinking (some t) =
    (n : ℕ) × (t ≡ record {
      enabled = true;
      budget_tokens = pos (suc n);
      effort = budget_tokens_to_effort (pos (suc n));
    })

unfoldable pub IsLimit : Option ℤ → Type 0
IsLimit limit = (n : ℕ) × (limit ≡ some (pos (suc n)))

-- What Anthropic's form has a place for.
unfoldable pub IsKept : CanonicalRequest → Type 0
unfolding IsChoice IsThinking IsLimit IsCarried
IsKept canon =
    All (λ m. All IsCarried m.blocks) canon.messages
    × All (λ t. t.parameters ≢ null) canon.tools
    × IsLimit canon.max_tokens
    × IsChoice canon.tool_choice
    × IsThinking canon.thinking

has_audio-carried : (bs : List CanonicalBlock) → All IsCarried bs → has_audio bs ≡ false
unfolding has_audio IsCarried
has_audio-carried [] c = refl
has_audio-carried (block_text s ∷ bs) (c, cs) = has_audio-carried bs cs
has_audio-carried (block_image f ∷ bs) (c, cs) = has_audio-carried bs cs
has_audio-carried (block_document f ∷ bs) (c, cs) = has_audio-carried bs cs
has_audio-carried (block_tool_use i n v ∷ bs) (c, cs) = has_audio-carried bs cs
has_audio-carried (block_tool_result i r ∷ bs) (c, cs) = has_audio-carried bs cs
has_audio-carried (block_thinking s ∷ bs) (c, cs) = has_audio-carried bs cs
has_audio-carried (block_refusal s ∷ bs) (c, cs) = has_audio-carried bs cs
has_audio-carried (block_audio a f ∷ bs) (c, cs) = elim c [ ]

messages-carried :
    (reread : Content → Option (List ContentBlock)) (ms : List CanonicalMessage)
    → All (λ m. IsReread reread m.blocks) ms
    → All (λ m. All IsCarried m.blocks) ms
    → each (anthropic_message_to_canonical reread) (map canonical_message_to_anthropic ms) ≡ done ms
unfolding each
messages-carried reread [] e c = refl
messages-carried reread (m ∷ ms) (e, es) (c, cs) =
    ap₂ (λ r rs. r >>= λ y. rs >>= λ ys. done (y ∷ ys)) (canonical-anthropic_message reread m e c)
      (messages-carried reread ms es cs)

schema-kept : (v : Any) → v ≢ null → or_schema v ≡ v
schema-kept null n = elim (n refl) [ ]
schema-kept (boolean b) n = refl
schema-kept (number s) n = refl
schema-kept (string s) n = refl
schema-kept (array xs) n = refl
schema-kept (object fs) n = refl

tools-kept :
    (ts : List CanonicalTool)
    → All (λ t. t.parameters ≢ null) ts
    → map tool_to_canonical (map tool_to_anthropic ts) ≡ ts
tools-kept [] n = refl
tools-kept (t ∷ ts) (n, ns) =
    ap₂ (λ v rest. record { name = t.name; description = t.description; parameters = v } ∷ rest)
      (schema-kept t.parameters n) (tools-kept ts ns)

choice-kept :
    (c : Option CanonicalToolChoice)
    → IsChoice c
    → anthropic_tool_choice_to_canonical (written_choice c) ≡ done c
unfolding IsChoice anthropic_tool_choice_to_canonical canonical_tool_choice_to_anthropic
choice-kept none p = refl
choice-kept (some c) p = of c.mode c.function_name p
  where
    of :
        (m : ToolChoiceMode) (n : Text)
        → IsChoice (some (record { mode = m; function_name = n }))
        → anthropic_tool_choice_to_canonical
            (canonical_tool_choice_to_anthropic (record { mode = m; function_name = n }))
          ≡ done (some (record { mode = m; function_name = n }))
    of choice_auto n p = rw p refl
    of choice_required n p = rw p refl
    of choice_none n p = elim p [ ]
    of choice_specific n p = refl

limit-kept : (l : Option ℤ) → IsLimit l → positive_limit (or_default_limit l) ≡ l
unfolding IsLimit
limit-kept l (n, e) = rw e (ground arith)

config_of-suc :
    (n : ℕ)
    → config_of (pos (suc n)) ≡ some (record { type = "enabled"; budget_tokens = pos (suc n) })
config_of-suc n = ground arith

thinking-kept :
    (max : ℤ) (t : Option CanonicalThinking)
    → IsThinking t
    → thinking_to_canonical (thinking_to_anthropic max t) ≡ t
unfolding IsThinking thinking_to_canonical thinking_to_anthropic
thinking-kept max none p = refl
thinking-kept max (some t) (n, e) = rw e (ap thinking_to_canonical (config_of-suc n))

system-kept : (s : Text) → extract_anthropic_system (if is_empty s then null else string s) ≡ s
unfolding extract_anthropic_system
system-kept [] = refl
system-kept (c ∷ s) = refl

-- A request comes back from Anthropic's form as it was, if that form has a place for it: messages
-- that it carries, a positive limit on the tokens, tools with a schema, a choice other than none,
-- and no thinking or a positive budget with its own effort. The blocks that are written for
-- its messages are read back by package json.
pub canonical-anthropic_request :
    (reread : Content → Option (List ContentBlock)) (canon : CanonicalRequest)
    → All (λ m. IsReread reread m.blocks) canon.messages
    → IsKept canon
    → (canonical_to_anthropic_request (some canon) >>= λ req.
        anthropic_request_to_canonical reread (some req))
      ≡ done canon
unfolding IsKept anthropic_request_to_canonical written IsSilent AllSilent
canonical-anthropic_request reread canon e (ms, ts, l, c, t) =
    ap (λ r. r >>= λ req. anthropic_request_to_canonical reread (some req))
      (written_all canon (All-each (λ m. has_audio-carried m.blocks) canon.messages ms))
    ∙ ap₂
        (λ r k. r >>= λ messages.
          k >>= λ choice. done (result messages choice system limit tools thinking))
        (messages-carried reread canon.messages e ms) (choice-kept canon.tool_choice c)
    ∙ ap₂ (λ s l. done (result canon.messages canon.tool_choice s l tools thinking))
        (system-kept canon.system) (limit-kept canon.max_tokens l)
    ∙ ap₂
        (λ ts t. done (result canon.messages canon.tool_choice canon.system canon.max_tokens ts t))
        (tools-kept canon.tools ts)
        (thinking-kept (or_default_limit canon.max_tokens) canon.thinking t)
  where
    result :
        List CanonicalMessage
        → Option CanonicalToolChoice
        → Text
        → Option ℤ
        → List CanonicalTool
        → Option CanonicalThinking
        → CanonicalRequest
    result messages choice s l ts t = record {
      model = canon.model;
      system = s;
      messages = messages;
      max_tokens = l;
      temperature = canon.temperature;
      top_p = canon.top_p;
      top_k = canon.top_k;
      stop_sequences = canon.stop_sequences;
      stream = canon.stream;
      tools = ts;
      tool_choice = choice;
      thinking = t;
    }

    system : Text
    system = extract_anthropic_system (written canon []).system

    limit : Option ℤ
    limit = positive_limit (or_default_limit canon.max_tokens)

    tools : List CanonicalTool
    tools = map tool_to_canonical (map tool_to_anthropic canon.tools)

    thinking : Option CanonicalThinking
    thinking = thinking_to_canonical (written canon []).thinking
