-- ===== src/Config/Discovery/Filtering.antt =====
-- internal/config/discovery.go: discover_filter against its documented meaning, and the precedence
-- of the explicit entries.
use Prim.Native.String.{◌++◌ as join}
use glitchgate.Prelude.{
  String, Bool, true, false, not, ◌&&◌, ◌||◌, Option, none, some, List, [], ◌∷◌, ◌++◌, eq_iff, ◌≡◌,
  ◌≢◌, refl, inl, inr, arith, Bool-cases, Option-cases, Map, put, All, All-each, All-append, subst,
}
use glitchgate.Config.Types.{ModelMapping, ProviderConfig}
use glitchgate.Config.Names.{cut_prefix}
use glitchgate.Config.Chains.{ChainMap, Result, by_name}
use glitchgate.Config.Discovery.{
  filter_from, match_discover_filter, add_models, discover, explicit_names,
  inject_discovered_models, prefix_of, discovered_entry,
}

unfoldable pub any : (String → Bool) → List String → Bool
any f [] = false
any f (x ∷ xs) = f x || any f xs

module _ (glob : String → String → Option Bool) where
  -- The pattern that is matched: what follows an exclamation mark, or the whole.
  abbrev pub body_of : String → String
  body_of pattern = elim (cut_prefix "!" pattern) [ some exclude ↦ exclude | none ↦ pattern ]

  abbrev pub is_include : String → Bool
  is_include pattern = elim (cut_prefix "!" pattern) [ some exclude ↦ false | none ↦ true ]

  abbrev pub hits : String → String → Bool
  hits id pattern = elim (glob (body_of pattern) id) [ some b ↦ b | none ↦ false ]

  abbrev pub WellFormed : String → String → Type 0
  WellFormed id pattern = glob (body_of pattern) id ≢ none

  -- The documentation's words: no exclude pattern matches, and there is no include pattern or one matches.
  unfoldable pub wanted : String → List String → Bool
  unfolding any
  wanted id filters =
      not (any (λ p. not (is_include p) && hits id p) filters)
      && (not (any is_include filters) || any (λ p. is_include p && hits id p) filters)

  filter_from_lem :
      (id : String) (filters : List String) (has_include included : Bool)
      → All (WellFormed id) filters
      → filter_from glob id filters has_include included
        ≡ some (
            not (any (λ p. not (is_include p) && hits id p) filters)
            && (not (has_include || any is_include filters)
                || (included || any (λ p. is_include p && hits id p) filters)))
  unfolding filter_from any
  filter_from_lem id [] h i w = ground arith
  filter_from_lem id (p ∷ ps) h i (w, ws) = elim (Option-cases (cut_prefix "!" p)) [
    | inl e ↦ elim (Option-cases (glob p id)) [
      | inl g ↦ ground (arith, e, g, w)
      | inr (b, g) ↦ ground (arith, e, g, filter_from_lem id ps true (i || b) ws)
    ]
    | inr (x, e) ↦ elim (Option-cases (glob x id)) [
      | inl g ↦ ground (arith, e, g, w)
      | inr (true, g) ↦ ground (arith, e, g)
      | inr (false, g) ↦ ground (arith, e, g, filter_from_lem id ps h i ws)
    ]
  ]

  -- When every pattern is well formed, a model passes the filters if and only if no exclude pattern
  -- matches it and, where there are include patterns, one of them does: the order of the patterns
  -- does not count, and no error is reported.
  match_discover_filter_lem :
      (id : String) (filters : List String)
      → All (WellFormed id) filters
      → match_discover_filter glob id filters ≡ some (wanted id filters)
  unfolding match_discover_filter wanted any
  match_discover_filter_lem id [] w = refl
  match_discover_filter_lem id (f ∷ fs) w = filter_from_lem id (f ∷ fs) false false w

-- An entry with one of these names is not in the list.
Fresh : Map (Unit {0}) → List ModelMapping → Type 0
Fresh explicit ms = All (λ m. explicit m.model_name ≡ none) ms

by_name-append :
    (ml added : List ModelMapping) (name : String)
    → by_name added name ≡ none
    → by_name (ml ++ added) name ≡ by_name ml name
unfolding by_name
by_name-append [] added name h = h
by_name-append (m ∷ ml) added name h = rw (by_name-append ml added name h) refl

by_name-Fresh :
    (explicit : Map (Unit {0})) (added : List ModelMapping) (name : String)
    → explicit name ≢ none
    → Fresh explicit added
    → by_name added name ≡ none
unfolding by_name Fresh
by_name-Fresh explicit [] name n f = refl
by_name-Fresh explicit (m ∷ ms) name n (e, f) =
    ground (arith, by_name-Fresh explicit ms name n f, n, e, eq_iff m.model_name name)

explicit-by_name :
    (ml : List ModelMapping) (name : String)
    → by_name ml name ≢ none
    → explicit_names ml name ≢ none
unfolding by_name explicit_names
explicit-by_name [] name h = ground (arith, h)
explicit-by_name (m ∷ ms) name h = elim (Option-cases (by_name ms name)) [
  | inl e ↦ ground (arith, e, h, eq_iff m.model_name name)
  | inr (x, e) ↦ ground (arith, explicit-by_name ms name (ground (arith, e)))
]

Fresh-put :
    (explicit : Map (Unit {0})) (name : String) (ms : List ModelMapping)
    → Fresh (put explicit name tt) ms
    → Fresh explicit ms
unfolding Fresh
Fresh-put explicit name ms f = All-each (λ m e. ground (arith, e)) ms f

-- What a provider's models come to: new entries, and the names known before stay known.
Adds : Map (Unit {0}) → Option (List ModelMapping × Map (Unit {0})) → Type 0
Adds explicit none = Unit
Adds explicit (some (added, explicit')) =
    Fresh explicit added × ((k : String) → explicit' k ≡ none → explicit k ≡ none)

AllFresh : Map (Unit {0}) → Option (List ModelMapping) → Type 0
AllFresh explicit none = Unit
AllFresh explicit (some added) = Fresh explicit added

Adds-entry :
    (explicit : Map (Unit {0})) (m : ModelMapping) (o : Option (List ModelMapping × Map (Unit {0})))
    → explicit m.model_name ≡ none
    → Adds (put explicit m.model_name tt) o
    → Adds explicit (elim o [ none ↦ none | some (added, explicit') ↦ some (m ∷ added, explicit') ])
unfolding Adds Fresh
Adds-entry explicit m none e a = tt
Adds-entry explicit m (some (added, explicit')) e (f, k) =
    ((e, Fresh-put explicit m.model_name added f), λ n h. ground (arith, k n h))

AllFresh-append :
    (explicit explicit' : Map (Unit {0})) (added : List ModelMapping)
    (o : Option (List ModelMapping))
    → Fresh explicit added
    → ((k : String) → explicit' k ≡ none → explicit k ≡ none)
    → AllFresh explicit' o
    → AllFresh explicit (elim o [ none ↦ none | some more ↦ some (added ++ more) ])
unfolding AllFresh Fresh
AllFresh-append explicit explicit' added none f k g = tt
AllFresh-append explicit explicit' added (some more) f k g =
    All-append (λ m. explicit m.model_name ≡ none) added more f
      (All-each (λ m e. k m.model_name e) more g)

module _ (glob : String → String → Option Bool) where
  add_models-Adds :
      (pc : ProviderConfig) (ids : List String) (explicit : Map (Unit {0}))
      → Adds explicit (add_models glob pc ids explicit)
  unfolding add_models Adds Fresh
  add_models-Adds pc [] explicit = (tt, λ k e. e)
  add_models-Adds pc (id ∷ ids) explicit =
      elim (Option-cases (match_discover_filter glob id pc.discover_filter)) [
        | inl e ↦ rw (add_models, e) tt
        | inr (false, e) ↦ rw (add_models, e) (add_models-Adds pc ids explicit)
        | inr (true, e) ↦ elim (Option-cases (explicit (join (prefix_of pc) id))) [
          | inr (x, q) ↦ rw (add_models, e, q) (add_models-Adds pc ids explicit)
          | inl q ↦
              rw (add_models, e, q)
                (Adds-entry explicit (discovered_entry pc (join (prefix_of pc) id) id)
                  (add_models glob pc ids (put explicit (join (prefix_of pc) id) tt)) q
                  (add_models-Adds pc ids (put explicit (join (prefix_of pc) id) tt)))
        ]
      ]

  discover-AllFresh :
      (listed : String → Option (List String)) (pcs : List ProviderConfig)
      (explicit : Map (Unit {0}))
      → AllFresh explicit (discover glob listed pcs explicit)
  unfolding discover AllFresh Adds Fresh
  discover-AllFresh listed [] explicit = tt
  discover-AllFresh listed (pc ∷ pcs) explicit = elim (Bool-cases pc.discover_models) [
    | inr e ↦ rw (discover, e) (discover-AllFresh listed pcs explicit)
    | inl e ↦ elim (Option-cases (listed pc.name)) [
      | inl l ↦ rw (discover, e, l) (discover-AllFresh listed pcs explicit)
      | inr (ids, l) ↦ elim (Option-cases (add_models glob pc ids explicit)) [
        | inl a ↦ rw (discover, e, l, a) tt
        | inr ((added, explicit'), a) ↦
            rw (discover, e, l, a)
              (let (f, k) = subst (Adds explicit) a (add_models-Adds pc ids explicit) in
                AllFresh-append explicit explicit' added (discover glob listed pcs explicit') f k
                  (discover-AllFresh listed pcs explicit'))
      ]
    ]
  ]

  -- The list has the same entry under an explicit name after discovery, whatever the providers list.
  pub explicit_kept :
      (listed : String → Option (List String)) (pcs : List ProviderConfig)
      (ml ml' : List ModelMapping) (chains : Result ChainMap) (name : String)
      → inject_discovered_models glob listed pcs ml ≡ some (ml', chains)
      → by_name ml name ≢ none
      → by_name ml' name ≡ by_name ml name
  unfolding inject_discovered_models AllFresh
  explicit_kept listed pcs ml ml' chains name h n =
      elim (Option-cases (discover glob listed pcs (explicit_names ml))) [
        | inl e ↦ ground (arith, e, h)
        | inr (added, e) ↦ ground (
          arith,
          e,
          h,
          by_name-append ml added name (
              by_name-Fresh (explicit_names ml) added name (explicit-by_name ml name n) (
                subst (AllFresh (explicit_names ml)) e
                  (discover-AllFresh listed pcs (explicit_names ml)))),
        )
      ]
