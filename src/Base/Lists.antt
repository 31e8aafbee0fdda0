-- ===== src/Base/Lists.antt =====
-- Lists under native numbers, and the three loops that Go code writes over a slice: find the
-- first entry that passes a test, replace it, remove it.
use Prim.Native.Nat.{ℕ, zero, suc, ◌+◌, ◌-◌, ◌≤◌}
use mathlib.Core.Path.{◌≡◌, refl, ap}
use native.Mathlib.Nat.{suc-add}
use mathlib.Core.Bool.{Bool, true, false}
use mathlib.Core.List.{List, [], ◌∷◌, ◌++◌}
use mathlib.Core.Option.{Option, none, some}
use native.Mathlib.Omega.{arith}
use discordgo.Base.Tests.{if◌then◌else◌}

module _ {ℓ} {A : Type ℓ} where
  abbrev pub length : List A → ℕ
  length [] = 0
  length (x ∷ xs) = suc (length xs)

  abbrev pub get_elem? : List A → ℕ → Option A
  get_elem? [] i = none
  get_elem? (x ∷ xs) zero = some x
  get_elem? (x ∷ xs) (suc i) = get_elem? xs i

  abbrev pub drop : ℕ → List A → List A
  drop zero xs = xs
  drop (suc n) [] = []
  drop (suc n) (x ∷ xs) = drop n xs

  abbrev pub take : ℕ → List A → List A
  take zero xs = []
  take (suc n) [] = []
  take (suc n) (x ∷ xs) = x ∷ take n xs

  pub length-append : (xs ys : List A) → length (xs ++ ys) ≡ length xs + length ys
  length-append [] ys = omega arith
  length-append (x ∷ xs) ys = omega (arith, length-append xs ys)

  pub length-drop : (n : ℕ) (xs : List A) → length (drop n xs) ≡ length xs - n
  length-drop zero xs = omega arith
  length-drop (suc n) [] = omega arith
  length-drop (suc n) (x ∷ xs) = omega (arith, length-drop n xs)

module _ {ℓ} {A : Type ℓ} (test : A → Bool) where
  -- `for _, x := range xs { if test(x) { return x } }`
  abbrev pub find : List A → Option A
  find [] = none
  find (x ∷ xs) = if test x then some x else find xs

  -- `for i, x := range xs { if test(x) { xs[i] = new; return } }; xs = append(xs, new)`
  abbrev pub replace_or_append : A → List A → List A
  replace_or_append new [] = new ∷ []
  replace_or_append new (x ∷ xs) = if test x then new ∷ xs else x ∷ replace_or_append new xs

  -- `for i, x := range xs { if test(x) { xs = append(xs[:i], xs[i+1:]...); break } }`
  abbrev pub remove_first : List A → List A
  remove_first [] = []
  remove_first (x ∷ xs) = if test x then xs else x ∷ remove_first xs

  abbrev pub has : List A → Bool
  has [] = false
  has (x ∷ xs) = if test x then true else has xs

-- The entry behind a first part, and what is before and behind it.
pub get_elem?-append :
    {A : Type 0} (xs ys : List A) (y : A) → get_elem? (xs ++ y ∷ ys) (length xs) ≡ some y
get_elem?-append [] ys y = refl
get_elem?-append (x ∷ xs) ys y = get_elem?-append xs ys y

pub get_elem?-append_next :
    {A : Type 0} (xs ys : List A) (y z : A) → get_elem? (xs ++ y ∷ z ∷ ys) (length xs + 1) ≡ some z
get_elem?-append_next [] ys y z = refl
get_elem?-append_next (x ∷ xs) ys y z = rw suc-add (get_elem?-append_next xs ys y z)

pub take-length : {A : Type 0} (xs : List A) → take (length xs) xs ≡ xs
take-length [] = refl
take-length (x ∷ xs) = ap (λ ys. x ∷ ys) (take-length xs)

pub take-append : {A : Type 0} (xs ys : List A) → take (length xs) (xs ++ ys) ≡ xs
take-append [] ys = refl
take-append (x ∷ xs) ys = ap (λ zs. x ∷ zs) (take-append xs ys)

pub drop-append : {A : Type 0} (xs ys : List A) (x : A) → drop (length xs + 1) (xs ++ x ∷ ys) ≡ ys
drop-append [] ys x = refl
drop-append (z ∷ zs) ys x = rw suc-add (drop-append zs ys x)

pub take-all : {A : Type 0} (n : ℕ) (xs : List A) → length xs ≤ n → take n xs ≡ xs
take-all zero [] le = refl
take-all zero (x ∷ xs) le = absurd (omega arith)
take-all (suc n) [] le = refl
take-all (suc n) (x ∷ xs) le = ap (λ ys. x ∷ ys) (take-all n xs (omega arith))

pub drop-length_add :
    {A : Type 0} (xs ys : List A) (n : ℕ) → drop (length xs + n) (xs ++ ys) ≡ drop n ys
drop-length_add [] ys n = ap (λ m. drop m ys) (omega arith)
drop-length_add (x ∷ xs) ys n = rw suc-add (drop-length_add xs ys n)

pub drop-length_append : {A : Type 0} (xs ys : List A) → drop (length xs) (xs ++ ys) ≡ ys
drop-length_append [] ys = refl
drop-length_append (x ∷ xs) ys = drop-length_append xs ys
