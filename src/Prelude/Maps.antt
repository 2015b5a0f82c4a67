-- ===== src/Prelude/Maps.antt =====
-- Go maps with string keys, as lookup functions: a map has no order that the program relies on.
use Prim.Native.String.{String}
use mathlib.Core.Path.{◌≡◌}
use mathlib.Core.Bool.{Bool}
use mathlib.Core.Option.{Option, none, some}
use mathlib.Core.Logic.{◌⊎◌}
use native.Mathlib.Omega.{arith}
use text.Mathlib.Text.{◌==◌}
use text.Mathlib.TextPositions.{eq_refl}
use glitchgate.Prelude.Tests.{if◌then◌else◌}

abbrev pub Map {ℓ} : Type ℓ → Type ℓ
Map V = String → Option V

module _ {ℓ} {V : Type ℓ} where
  -- make(map[string]V)
  abbrev pub empty_map : Map V
  empty_map k = none

  -- m[key] = v
  abbrev pub put : Map V → String → V → Map V
  put m key v k = if key == k then some v else m k

  -- delete(m, key)
  abbrev pub remove : Map V → String → Map V
  remove m key k = if key == k then none else m k

  -- for k, v := range m { if !keep(v) { delete(m, k) } }
  abbrev pub retain : (V → Bool) → Map V → Map V
  retain keep m k = elim (m k) [ none ↦ none | some v ↦ if keep v then some v else none ]

  pub put_self : (m : Map V) (key : String) (v : V) → put m key v key ≡ some v
  put_self m key v = rw eq_refl

  -- An entry of a map after a write is the value written, or was there before.
  pub put-eq_some :
      (m : Map V) (key k : String) (v w : V) → put m key v k ≡ some w → (v ≡ w) ⊎ (m k ≡ some w)
  put-eq_some m key k v w h = ground arith
