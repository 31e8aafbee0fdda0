-- ===== src/Components/Json.antt =====
-- encoding/json, as components.go uses it: values, the fields of a struct with their `omitempty`,
-- and the decoding of a value into a field.
--
-- Numbers are whole; a value that a field cannot hold is an error, `none`. A key that is missing,
-- and a null, leave a field as it is, which is zero.
use discordgo.Base.{
  ℕ, String, Bool, true, false, ◌==◌, ◌≡◌, refl, ap, fun_ext, Option, none, some, List, [], ◌∷◌,
  eq_iff, if◌then◌else◌, eqb, arith,
}
use discordgo.Ratelimit.Buckets.{ℤ, pos}

mutual
  pub data Json : Type 0 where
    null : Json
    boolean : Bool → Json
    number : ℤ → Json
    text : String → Json
    array : Values → Json
    object : Members → Json

  pub data Values : Type 0 where
    no_values : Values
    value : Json → Values → Values

  pub data Members : Type 0 where
    no_members : Members
    member : String → Json → Members → Members

-- The value of a key, the last one if the key is there more than once.
abbrev pub lookup_member : String → Members → Option Json
lookup_member k no_members = none
lookup_member k (member j v ms) = elim (lookup_member k ms) [
  | some w ↦ some w
  | none ↦ if j == k then some v else none
]

abbrev pub values : List Json → Values
values [] = no_values
values (v ∷ vs) = value v (values vs)

-- The fields of a struct, of which some are left out.
abbrev pub Fields : Type 0
Fields = List (String × Option Json)

abbrev pub members : Fields → Members
members [] = no_members
members ((k, none) ∷ fs) = members fs
members ((k, some v) ∷ fs) = member k v (members fs)

abbrev pub field_of : String → Fields → Option Json
field_of k [] = none
field_of k ((j, v) ∷ fs) = if j == k then v else field_of k fs

abbrev pub without_key : String → Fields → Bool
without_key k [] = true
without_key k ((j, v) ∷ fs) = if j == k then false else without_key k fs

abbrev pub distinct_fields : Fields → Bool
distinct_fields [] = true
distinct_fields ((k, v) ∷ fs) = if without_key k fs then distinct_fields fs else false

without_key-field_of : (k : String) (fs : Fields) → without_key k fs ≡ true → field_of k fs ≡ none
without_key-field_of k [] e = refl
without_key-field_of k ((j, v) ∷ fs) e = ground (arith, without_key-field_of k fs)

pub lookup_member-members :
    (k : String) (fs : Fields)
    → distinct_fields fs ≡ true
    → lookup_member k (members fs) ≡ field_of k fs
lookup_member-members k [] d = refl
lookup_member-members k ((j, none) ∷ fs) d =
    ground (arith, eq_iff j k, without_key-field_of j fs, lookup_member-members k fs)
lookup_member-members k ((j, some v) ∷ fs) d =
    ground (arith, eq_iff j k, without_key-field_of j fs, lookup_member-members k fs)

-- What a field is written as.
abbrev pub omit_text : String → Option Json
omit_text s = if s == "" then none else some (text s)

abbrev pub is_zero : ℤ → Bool
is_zero (pos n) = eqb n 0
is_zero _ = false

abbrev pub omit_int : ℤ → Option Json
omit_int n = if is_zero n then none else some (number n)

abbrev pub omit_flag : Bool → Option Json
omit_flag b = if b then some (boolean true) else none

abbrev pub omit_pointer {ℓ} : {A : Type ℓ} → (A → Json) → Option A → Option Json
omit_pointer f none = none
omit_pointer f (some a) = some (f a)

abbrev pub write_list {ℓ} : {A : Type ℓ} → (A → Json) → List A → Values
write_list f [] = no_values
write_list f (a ∷ xs) = value (f a) (write_list f xs)

-- A slice, which may be nil.
abbrev pub write_slice {ℓ} : {A : Type ℓ} → (A → Json) → Option (List A) → Json
write_slice f none = null
write_slice f (some xs) = array (write_list f xs)

abbrev pub omit_slice {ℓ} : {A : Type ℓ} → (A → Json) → Option (List A) → Option Json
omit_slice f none = none
omit_slice f (some []) = none
omit_slice f (some (a ∷ xs)) = some (array (write_list f (a ∷ xs)))

-- What a field is read from.
abbrev pub as_text : Option Json → Option String
as_text none = some ""
as_text (some null) = some ""
as_text (some (text s)) = some s
as_text (some _) = none

abbrev pub as_int : Option Json → Option ℤ
as_int none = some (pos 0)
as_int (some null) = some (pos 0)
as_int (some (number n)) = some n
as_int (some _) = none

abbrev pub as_uint : Option Json → Option ℕ
as_uint none = some 0
as_uint (some null) = some 0
as_uint (some (number (pos n))) = some n
as_uint (some _) = none

abbrev pub as_flag : Option Json → Option Bool
as_flag none = some false
as_flag (some null) = some false
as_flag (some (boolean b)) = some b
as_flag (some _) = none

abbrev pub map_option {ℓ κ} : {A : Type ℓ} {B : Type κ} → (A → B) → Option A → Option B
map_option f none = none
map_option f (some a) = some (f a)

-- A pointer to a value that is read by `f`.
abbrev pub as_pointer {ℓ} :
    {A : Type ℓ} → (Option Json → Option A) → Option Json → Option (Option A)
as_pointer f none = some none
as_pointer f (some null) = some none
as_pointer f (some v) = map_option some (f (some v))

abbrev pub cons_option {ℓ} : {A : Type ℓ} → Option A → Option (List A) → Option (List A)
cons_option (some a) (some xs) = some (a ∷ xs)
cons_option _ _ = none

abbrev pub read_list {ℓ} : {A : Type ℓ} → (Option Json → Option A) → Values → Option (List A)
read_list f no_values = some []
read_list f (value v vs) = cons_option (f (some v)) (read_list f vs)

abbrev pub as_slice {ℓ} :
    {A : Type ℓ} → (Option Json → Option A) → Option Json → Option (Option (List A))
as_slice f none = some none
as_slice f (some null) = some none
as_slice f (some (array vs)) = map_option some (read_list f vs)
as_slice f (some _) = none

-- The values that a struct is read from.
abbrev pub Keyed : Type 0
Keyed = String → Option Json

abbrev pub as_struct {ℓ} : {A : Type ℓ} → (Keyed → Option A) → Option Json → Option A
as_struct f none = f (λ k. none)
as_struct f (some null) = f (λ k. none)
as_struct f (some (object ms)) = f (λ k. lookup_member k ms)
as_struct f (some _) = none

abbrev pub write_struct : Fields → Json
write_struct fs = object (members fs)

pub struct-write {ℓ} :
    {A : Type ℓ} (f : Keyed → Option A) (fs : Fields)
    → distinct_fields fs ≡ true
    → as_struct f (some (write_struct fs)) ≡ f (λ k. field_of k fs)
struct-write f fs d = ap f (fun_ext (λ k. lookup_member-members k fs d))

-- What is written is read again.
pub text-omit : (s : String) → as_text (omit_text s) ≡ some s
text-omit s = ground (arith, eq_iff s "")

pub int-omit : (n : ℤ) → as_int (omit_int n) ≡ some n
int-omit n = ground arith

pub flag-omit : (b : Bool) → as_flag (omit_flag b) ≡ some b
flag-omit b = ground arith

module _ {A : Type 0} (f : A → Json) (g : Option Json → Option A)
    (inverse : (a : A) → g (some (f a)) ≡ some a) where
  pub list-write : (xs : List A) → read_list g (write_list f xs) ≡ some xs
  list-write [] = refl
  list-write (a ∷ xs) = ground (arith, inverse a, list-write xs)

  pub slice-write : (xs : Option (List A)) → as_slice g (some (write_slice f xs)) ≡ some xs
  slice-write none = refl
  slice-write (some xs) = ground (arith, list-write xs)

-- A slice that is left out where it is empty is nil when it is read again.
abbrev pub or_nil {ℓ} : {A : Type ℓ} → Option (List A) → Option (List A)
or_nil (some []) = none
or_nil xs = xs

module _ {A : Type 0} (f : A → Json) (g : Option Json → Option A)
    (inverse : (a : A) → g (some (f a)) ≡ some a) where
  pub slice-omit : (xs : Option (List A)) → as_slice g (omit_slice f xs) ≡ some (or_nil xs)
  slice-omit none = refl
  slice-omit (some []) = refl
  slice-omit (some (x ∷ xs)) = ap (map_option some) (list-write f g inverse (x ∷ xs))

pub number-omit : (n : Option ℤ) → as_pointer as_int (omit_pointer number n) ≡ some n
number-omit none = refl
number-omit (some n) = refl

pub boolean-omit : (b : Option Bool) → as_pointer as_flag (omit_pointer boolean b) ≡ some b
boolean-omit none = refl
boolean-omit (some b) = refl

pub text-pointer-omit : (s : Option String) → as_pointer as_text (omit_pointer text s) ≡ some s
text-pointer-omit none = refl
text-pointer-omit (some s) = refl

-- Readings in order, up to the first error.
infixl 5 ◌>>=◌
abbrev pub ◌>>=◌ {ℓ κ} : {A : Type ℓ} {B : Type κ} → Option A → (A → Option B) → Option B
none >>= f = none
some a >>= f = f a
