-- ===== src/Base/Keys.antt =====
-- Lists whose entries are told apart by a text, under the three loops of `Base.Lists`.
use Prim.Native.String.{String}
use mathlib.Core.Path.{◌≡◌, refl}
use mathlib.Core.Bool.{true, false}
use mathlib.Core.List.{List, [], ◌∷◌}
use mathlib.Core.Option.{Option, none, some}
use native.Mathlib.Omega.{arith}
use text.Mathlib.Text.{◌==◌}
use text.Mathlib.TextEquality.{eq_iff}
use discordgo.Base.Tests.{if◌then◌else◌}
use discordgo.Base.Lists.{find, has, replace_or_append, remove_first}

module _ {A : Type 0} (key : A → String) where
  -- The first entry under a key.
  abbrev pub lookup : String → List A → Option A
  lookup k = find (λ x. key x == k)

  -- No key stands twice.
  abbrev pub DistinctKeys : List A → Type 0
  DistinctKeys [] = Unit
  DistinctKeys (x ∷ xs) = (lookup (key x) xs ≡ none) × DistinctKeys xs

  pub lookup-replace_or_append :
      (new : A) (xs : List A) (k : String)
      → lookup k (replace_or_append (λ x. key x == key new) new xs)
        ≡ (if key new == k then some new else lookup k xs)
  lookup-replace_or_append new [] k = refl
  lookup-replace_or_append new (x ∷ xs) k = ground (
    arith,
    eq_iff (key x) (key new),
    eq_iff (key new) k,
    eq_iff (key x) k,
    lookup-replace_or_append new xs k,
  )

  pub lookup-remove_first :
      (id : String) (xs : List A) (k : String)
      → DistinctKeys xs
      → lookup k (remove_first (λ x. key x == id) xs) ≡ (if id == k then none else lookup k xs)
  lookup-remove_first id [] k d = ground arith
  lookup-remove_first id (x ∷ xs) k d = ground (
    arith,
    eq_iff (key x) id,
    eq_iff id k,
    eq_iff (key x) k,
    d.0,
    lookup-remove_first id xs k d.1,
  )

  pub replace_or_append-DistinctKeys :
      (new : A) (xs : List A)
      → DistinctKeys xs
      → DistinctKeys (replace_or_append (λ x. key x == key new) new xs)
  replace_or_append-DistinctKeys new [] d = (refl, tt)
  replace_or_append-DistinctKeys new (x ∷ xs) d = ground (
    arith,
    eq_iff (key x) (key new),
    eq_iff (key new) (key x),
    lookup-replace_or_append new xs (key x),
    replace_or_append-DistinctKeys new xs d.1,
  )

  pub remove_first-DistinctKeys :
      (id : String) (xs : List A)
      → DistinctKeys xs
      → DistinctKeys (remove_first (λ x. key x == id) xs)
  remove_first-DistinctKeys id [] d = tt
  remove_first-DistinctKeys id (x ∷ xs) d =
      ground (arith, lookup-remove_first id xs (key x) d.1, remove_first-DistinctKeys id xs d.1)

  -- The test of the removing loops says whether there is an entry.
  pub has-lookup :
      (k : String) (xs : List A)
      → has (λ x. key x == k) xs ≡ elim (lookup k xs) [ none ↦ false | some x ↦ true ]
  has-lookup k [] = refl
  has-lookup k (x ∷ xs) = ground (arith, has-lookup k xs)
