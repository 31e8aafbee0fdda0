-- ===== src/Voice/Bytes.antt =====
-- Bytes and the numbers of encoding/binary that voice.go writes and reads.
use Prim.Native.Nat.{bit_and}
use discordgo.Base.{
  ℕ, zero, suc, ◌+◌, ◌-◌, ◌*◌, ◌/◌, ◌%◌, ◌<◌, ◌≡◌, refl, Bool, true, ◌&&◌, List, [], ◌∷◌, drop,
  take, eqb, arith,
}

-- Each is below 256.
abbrev pub Bytes : Type 0
Bytes = List ℕ

-- `PutUint16` and `PutUint32` of BigEndian, and `PutUint32` of LittleEndian.
abbrev pub be_16 : ℕ → Bytes
be_16 n = n / 256 % 256 ∷ n % 256 ∷ []

abbrev pub be_32 : ℕ → Bytes
be_32 n = n / 16777216 % 256 ∷ n / 65536 % 256 ∷ n / 256 % 256 ∷ n % 256 ∷ []

abbrev pub le_32 : ℕ → Bytes
le_32 n = n % 256 ∷ n / 256 % 256 ∷ n / 65536 % 256 ∷ n / 16777216 % 256 ∷ []

-- `Uint16` and `Uint32`; a slice that is too short, which the source never reads from, gives 0.
abbrev pub be_uint_16 : Bytes → ℕ
be_uint_16 (a ∷ b ∷ bs) = a * 256 + b
be_uint_16 _ = 0

abbrev pub be_uint_32 : Bytes → ℕ
be_uint_32 (a ∷ b ∷ c ∷ d ∷ bs) = a * 16777216 + b * 65536 + c * 256 + d
be_uint_32 _ = 0

abbrev pub le_uint_32 : Bytes → ℕ
le_uint_32 (a ∷ b ∷ c ∷ d ∷ bs) = a + b * 256 + c * 65536 + d * 16777216
le_uint_32 _ = 0

-- `bs[i:j]`
abbrev pub slice : ℕ → ℕ → Bytes → Bytes
slice i j bs = take (j - i) (drop i bs)

abbrev pub zeros : ℕ → Bytes
zeros zero = []
zeros (suc n) = 0 ∷ zeros n

pub be_uint_16-be_16 : (n : ℕ) → n < 65536 → be_uint_16 (be_16 n) ≡ n
be_uint_16-be_16 n h = omega arith

pub be_uint_32-be_32 : (n : ℕ) → n < 4294967296 → be_uint_32 (be_32 n) ≡ n
be_uint_32-be_32 n h = omega arith

pub le_uint_32-le_32 : (n : ℕ) → n < 4294967296 → le_uint_32 (le_32 n) ≡ n
le_uint_32-le_32 n h = omega arith

-- The first byte of an RTP packet of version 2, over all counts of sources.
all_below : ℕ → (ℕ → Bool) → Bool
all_below zero p = true
all_below (suc n) p = p n && all_below n p

all_below_lem : (n : ℕ) (p : ℕ → Bool) (x : ℕ) → all_below n p ≡ true → x < n → p x ≡ true
unfolding all_below
all_below_lem zero p x h lt = absurd (omega arith)
all_below_lem (suc n) p x h lt = ground (arith, all_below_lem n p x)

eqb_lem : (m n : ℕ) → eqb m n ≡ true → m ≡ n
eqb_lem m n h = ground arith

-- Where `f` agrees with `g` on the numbers below `n`, by evaluation.
table : (f g : ℕ → ℕ) (n x : ℕ) → all_below n (λ y. eqb (f y) (g y)) ≡ true → x < n → f x ≡ g x
table f g n x h lt = eqb_lem (f x) (g x) (all_below_lem n (λ y. eqb (f y) (g y)) x h lt)

pub version_plain : (cc : ℕ) → cc < 16 → bit_and (128 + cc) 0xC0 ≡ 0x80
unfolding all_below
version_plain cc h = table (λ c. bit_and (128 + c) 0xC0) (λ c. 0x80) 16 cc refl h

pub version_extended : (cc : ℕ) → cc < 16 → bit_and (144 + cc) 0xC0 ≡ 0x80
unfolding all_below
version_extended cc h = table (λ c. bit_and (144 + c) 0xC0) (λ c. 0x80) 16 cc refl h

pub sources_plain : (cc : ℕ) → cc < 16 → bit_and (128 + cc) 0x0F ≡ cc
unfolding all_below
sources_plain cc h = table (λ c. bit_and (128 + c) 0x0F) (λ c. c) 16 cc refl h

pub sources_extended : (cc : ℕ) → cc < 16 → bit_and (144 + cc) 0x0F ≡ cc
unfolding all_below
sources_extended cc h = table (λ c. bit_and (144 + c) 0x0F) (λ c. c) 16 cc refl h

pub extension_plain : (cc : ℕ) → cc < 16 → bit_and (128 + cc) 0x10 ≡ 0
unfolding all_below
extension_plain cc h = table (λ c. bit_and (128 + c) 0x10) (λ c. 0) 16 cc refl h

pub extension_extended : (cc : ℕ) → cc < 16 → bit_and (144 + cc) 0x10 ≡ 0x10
unfolding all_below
extension_extended cc h = table (λ c. bit_and (144 + c) 0x10) (λ c. 0x10) 16 cc refl h
