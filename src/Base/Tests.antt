-- ===== src/Base/Tests.antt =====
-- Boolean tests on the native numbers, the conditional, and case lemmas.
use Prim.Native.Nat.{ℕ, compare, Ordering}
use mathlib.Core.Path.{◌≡◌, refl}
use mathlib.Core.Logic.{◌⊎◌, inl, inr}
use mathlib.Core.Bool.{Bool, true, false}
use mathlib.Core.Option.{Option, none, some}

abbrev pub ltb : ℕ → ℕ → Bool
ltb a b = elim (compare a b) [ Ordering.lt ↦ true | _ ↦ false ]

abbrev pub leb : ℕ → ℕ → Bool
leb a b = elim (compare a b) [ Ordering.gt ↦ false | _ ↦ true ]

-- Equality of numbers and of addresses; `==` is the equality of texts.
abbrev pub eqb : ℕ → ℕ → Bool
eqb a b = elim (compare a b) [ Ordering.eq ↦ true | _ ↦ false ]

infix 1 if◌then◌else◌
abbrev pub if◌then◌else◌ {ℓ} : {A : Type ℓ} → Bool → A → A → A
if true then x else y = x
if false then x else y = y

pub Bool-cases : (b : Bool) → (b ≡ true) ⊎ (b ≡ false)
Bool-cases true = inl refl
Bool-cases false = inr refl

pub Option-cases {ℓ} : {A : Type ℓ} (o : Option A) → (o ≡ none) ⊎ ((a : A) × (o ≡ some a))
Option-cases none = inl refl
Option-cases (some a) = inr (a, refl)

-- What holds of both branches of a match on an option holds of the match.
pub on_option {ℓ κ} :
    {A : Type ℓ} {B : Type κ} (P : B → Type 0) (o : Option A) (b : B) (f : A → B)
    → (o ≡ none → P b)
    → ((a : A) → o ≡ some a → P (f a))
    → P (elim o [ none ↦ b | some a ↦ f a ])
on_option P none b f h k = h refl
on_option P (some a) b f h k = k a refl

pub on_if {ℓ} :
    {B : Type ℓ} (P : B → Type 0) (t : Bool) (x y : B)
    → (t ≡ true → P x)
    → (t ≡ false → P y)
    → P (if t then x else y)
on_if P true x y h k = h refl
on_if P false x y h k = k refl
