-- ===== src/Config/Providers/Soundness.antt =====
-- internal/config/config.go, validateProviderNames: what it guarantees to FindProvider.
use glitchgate.Prelude.{
  none, some, List, [], ◌∷◌, eq_iff, eq_refl, ◌≡◌, ◌≢◌, inl, inr, arith, Option-cases, Map, put,
  empty_map, All, All-each,
}
use glitchgate.Config.Types.{ProviderConfig}
use glitchgate.Config.Lookup.{find_named_provider}
use glitchgate.Config.Providers.{validate_provider_names}

-- What is true of a valid list, given the names seen before it.
Known : List ProviderConfig → Map (Unit {0}) → List ProviderConfig → Type 0
Known ps seen qs =
    All (λ q. (seen q.name ≡ none) × (q.name ≢ "") × (find_named_provider ps q.name ≡ some q)) qs

valid-Known :
    (ps : List ProviderConfig) (seen : Map (Unit {0}))
    → validate_provider_names ps seen ≡ none
    → Known ps seen ps
unfolding validate_provider_names find_named_provider Known
valid-Known [] seen h = tt
valid-Known (p ∷ ps) seen h = elim (Option-cases (seen p.name)) [
  | inr (x, e) ↦ ground (arith, e, h)
  | inl e ↦ (
    (e, ground (arith, h, eq_iff p.name ""), rw eq_refl),
    All-each (λ q (a, n, f). (ground (arith, a), n, ground (arith, a, f, e, eq_iff p.name q.name)))
        ps (valid-Known ps (put seen p.name tt) (ground (arith, e, h))),
  )
]

-- In a list of providers that passes validation every provider has a name, and looking its name
-- up finds that provider.
valid_providers_found :
    (ps : List ProviderConfig)
    → validate_provider_names ps empty_map ≡ none
    → All (λ p. (p.name ≢ "") × (find_named_provider ps p.name ≡ some p)) ps
unfolding Known
valid_providers_found ps h = All-each (λ p (a, n, f). (n, f)) ps (valid-Known ps empty_map h)
