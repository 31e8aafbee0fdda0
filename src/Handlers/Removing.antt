-- ===== src/Handlers/Removing.antt =====
-- The loop of `removeEventHandlerInstance` in event.go.
use discordgo.Base.{
  ℕ, zero, suc, ◌+◌, ◌-◌, ◌≡◌, refl, sym, ◌∙◌, true, false, List, [], ◌∷◌, ◌++◌, eqb, length,
  get_elem?, take, drop, length-append, length-drop, get_elem?-append, take-append, drop-append,
  some, arith,
}
use mathlib.Core.List.{append-nil, append_assoc}
use native.Mathlib.Nat.{zero-add, suc-add, add-zero}
use discordgo.State.Types.{Addr}
use discordgo.Handlers.Registry.{remove_loop}

-- The instance is not in the list.
abbrev pub Absent : Addr → List Addr → Type 0
Absent p [] = Unit
Absent p (q ∷ qs) = (eqb q p ≡ false) × Absent p qs

Absent-append : (p : Addr) (xs ys : List Addr) → Absent p xs → Absent p ys → Absent p (xs ++ ys)
Absent-append p [] ys h k = k
Absent-append p (x ∷ xs) ys h k = (h.0, Absent-append p xs ys h.1 k)

Absent-drop : (p : Addr) (n : ℕ) (xs : List Addr) → Absent p xs → Absent p (drop n xs)
Absent-drop p zero xs h = h
Absent-drop p (suc n) [] h = h
Absent-drop p (suc n) (x ∷ xs) h = Absent-drop p n xs h.1

round_passes :
    (rounds i : ℕ) (p q : Addr) (xs stored : List Addr)
    → get_elem? xs i ≡ some q
    → eqb q p ≡ false
    → remove_loop (suc rounds) i p xs stored ≡ remove_loop rounds (i + 1) p xs stored
unfolding remove_loop
round_passes rounds i p q xs stored h other = rw (remove_loop, h, other) refl

round_finds :
    (rounds i : ℕ) (p q : Addr) (xs stored : List Addr)
    → get_elem? xs i ≡ some q
    → eqb q p ≡ true
    → remove_loop (suc rounds) i p xs stored ≡ (
        let shorter = take i xs ++ drop (i + 1) xs in
        remove_loop rounds (i + 1) p (shorter ++ drop (length xs - 1) xs) shorter)
unfolding remove_loop
round_finds rounds i p q xs stored h found = rw (remove_loop, h, found) refl

-- Rounds over other instances change nothing.
remove_loop-Absent :
    (p : Addr) (ys xs zs stored : List Addr) (rounds i : ℕ)
    → Absent p ys
    → length xs ≡ i
    → remove_loop (length ys + rounds) i p (xs ++ (ys ++ zs)) stored
      ≡ remove_loop rounds (i + length ys) p (xs ++ (ys ++ zs)) stored
remove_loop-Absent p [] xs zs stored rounds i absent e = rw (zero-add, add-zero) refl
remove_loop-Absent p (y ∷ ys) xs zs stored rounds i (other, absent) e =
    rw
      (
        suc-add,
        round_passes (length ys + rounds) i p y (xs ++ y ∷ (ys ++ zs)) stored here other,
        sym (append_assoc xs (y ∷ []) (ys ++ zs)),
        remove_loop-Absent p ys (xs ++ y ∷ []) zs stored rounds (i + 1) absent
            (omega (arith, length-append xs (y ∷ []))),
        behind,
      )
      refl
  where
    here : get_elem? (xs ++ y ∷ (ys ++ zs)) i ≡ some y
    here = rw (sym e) (get_elem?-append xs (ys ++ zs) y)

    behind : i + 1 + length ys ≡ i + suc (length ys)
    behind = omega arith

-- All the rounds that are left pass.
remove_loop-rest :
    (p : Addr) (xs ys stored : List Addr) (rounds i : ℕ)
    → Absent p ys
    → length xs ≡ i
    → length ys ≡ rounds
    → remove_loop rounds i p (xs ++ ys) stored ≡ stored
unfolding remove_loop
remove_loop-rest p xs ys stored rounds i absent e f =
    sym same ∙ remove_loop-Absent p ys xs [] stored 0 i absent e
  where
    same :
        remove_loop (length ys + 0) i p (xs ++ (ys ++ [])) stored
        ≡ remove_loop rounds i p (xs ++ ys) stored
    same = rw (append-nil, add-zero, f) refl

drop-behind :
    (m : ℕ) (x : Addr) (xs ys : List Addr) → drop (length xs + 1 + m) (xs ++ x ∷ ys) ≡ drop m ys
drop-behind m x [] ys = rw one_more refl
  where
    one_more : 0 + 1 + m ≡ suc m
    one_more = omega arith
drop-behind m x (z ∷ zs) ys = rw (suc-add, suc-add) (drop-behind m x zs ys)

-- The rounds behind the one that has found the instance.
remove_loop-found :
    (p : Addr) (xs ys : List Addr)
    → Absent p ys
    → remove_loop
        (length ys)
        (length xs + 1)
        p
        ((xs ++ ys) ++ drop (length (xs ++ p ∷ ys) - 1) (xs ++ p ∷ ys))
        (xs ++ ys)
      ≡ xs ++ ys
unfolding remove_loop
remove_loop-found p xs [] absent = refl
remove_loop-found p xs (y ∷ ys) absent =
    rw
      (
        rest,
        sym (append_assoc xs (y ∷ []) ys),
        append_assoc (xs ++ y ∷ []) ys (drop (length ys) (y ∷ ys)),
      )
      (remove_loop-rest p (xs ++ y ∷ []) (ys ++ drop (length ys) (y ∷ ys)) _ (suc (length ys))
        (length xs + 1)
        (Absent-append p ys (drop (length ys) (y ∷ ys)) absent.1
          (Absent-drop p (length ys) (y ∷ ys) absent))
        (length-append xs (y ∷ []))
        (omega
          (arith, length-append ys (drop (length ys) (y ∷ ys)), length-drop (length ys) (y ∷ ys))))
  where
    number : length (xs ++ p ∷ y ∷ ys) - 1 ≡ length xs + 1 + length ys
    number = omega (arith, length-append xs (p ∷ y ∷ ys))

    rest : drop (length (xs ++ p ∷ y ∷ ys) - 1) (xs ++ p ∷ y ∷ ys) ≡ drop (length ys) (y ∷ ys)
    rest = rw number (drop-behind (length ys) p xs (y ∷ ys))

-- Where the list does not hold the instance, the loop leaves it as it is.
pub remove_loop-none :
    (p : Addr) (xs : List Addr) → Absent p xs → remove_loop (length xs) 0 p xs xs ≡ xs
remove_loop-none p xs absent = remove_loop-rest p [] xs xs (length xs) 0 absent refl refl

-- Where the list holds it once, the loop takes it out and keeps the others in their order.
pub remove_loop-once :
    (p : Addr) (xs ys : List Addr)
    → Absent p xs
    → Absent p ys
    → remove_loop (length (xs ++ p ∷ ys)) 0 p (xs ++ p ∷ ys) (xs ++ p ∷ ys) ≡ xs ++ ys
remove_loop-once p xs ys before after =
    rw (length-append xs (p ∷ ys))
      (remove_loop-Absent p xs [] (p ∷ ys) (xs ++ p ∷ ys) (suc (length ys)) 0 before refl ∙ found)
  where
    found : remove_loop (suc (length ys)) (0 + length xs) p (xs ++ p ∷ ys) (xs ++ p ∷ ys) ≡ xs ++ ys
    found = rw zero-add (
        round_finds (length ys) (length xs) p p (xs ++ p ∷ ys) (xs ++ p ∷ ys)
          (get_elem?-append xs ys p) (ground arith)
        ∙ rw (take-append xs (p ∷ ys), drop-append xs ys p) (remove_loop-found p xs ys after))
