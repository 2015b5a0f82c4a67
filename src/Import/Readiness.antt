-- ===== src/Import/Readiness.antt =====
-- internal/store/export.go, importFromDump: what it asks of the database besides the rows.
use glitchgate.Prelude.{ℕ, Bool-cases, inl, inr, none, List, [], ◌∷◌, ◌≡◌, refl}
use glitchgate.Import.{
  ImportContext, ImportState, import_pragmas, set_pragmas, prepare, sync_sequence,
}
use glitchgate.Import.Outcomes.{done}

module _ {Float Error : Type 0} (ctx : ImportContext Float Error) where
  -- The database refuses nothing of what an import asks for besides the rows.
  abbrev pub IsReady : Type 0
  IsReady =
      ((p : List ℕ) → ctx.pragma_error p ≡ none)
      × (ctx.bool_columns_error ≡ none)
      × (ctx.sequence_error ≡ none)

  pragmas_set :
      ((p : List ℕ) → ctx.pragma_error p ≡ none)
      → (ps : List (List ℕ)) → set_pragmas ctx ps ≡ done tt
  unfolding set_pragmas
  pragmas_set n [] = refl
  pragmas_set n (p ∷ ps) = rw (set_pragmas, n p) (pragmas_set n ps)

  pub prepare_ready : IsReady → prepare ctx ≡ done tt
  unfolding prepare
  prepare_ready (p, b, s) = elim (Bool-cases ctx.postgres) [
    | inl e ↦ rw (prepare, e, b) refl
    | inr e ↦ rw (prepare, e) (pragmas_set p import_pragmas)
  ]

  pub sync_ready : IsReady → (st : ImportState Float) → sync_sequence ctx st ≡ done st
  unfolding sync_sequence
  sync_ready (p, b, s) st = elim (Bool-cases ctx.postgres) [
    | inl e ↦ rw (sync_sequence, e, s) refl
    | inr e ↦ rw (sync_sequence, e) refl
  ]
