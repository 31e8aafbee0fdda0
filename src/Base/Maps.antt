-- ===== src/Base/Maps.antt =====
-- A Go map with text keys as a function, and memory as a function from addresses.
use Prim.Native.Nat.{ℕ}
use Prim.Native.String.{String}
use mathlib.Core.Option.{Option, none, some}
use text.Mathlib.Text.{◌==◌}
use discordgo.Base.Tests.{eqb, if◌then◌else◌}

abbrev pub Map {ℓ} : Type ℓ → Type ℓ
Map V = String → Option V

module _ {ℓ} {V : Type ℓ} where
  -- `make(map[string]V)`
  abbrev pub no_keys : Map V
  no_keys k = none

  -- `m[k] = v`
  abbrev pub put : String → V → Map V → Map V
  put k v m j = if k == j then some v else m j

  -- `delete(m, k)`
  abbrev pub delete : String → Map V → Map V
  delete k m j = if k == j then none else m j

  -- A write through a pointer.
  abbrev pub write : ℕ → V → (ℕ → V) → ℕ → V
  write p v f q = if eqb p q then v else f q
