-- ===== src/State/Laws/Threads.antt =====
-- The loop of `ThreadMembersUpdate` in state.go that takes the removed members out of a thread.
use discordgo.Base.{
  get_elem?-append, get_elem?-append_next, take-length, take-append, drop-append, ℕ, suc, ◌+◌, ◌-◌,
  ◌≡◌, refl, sym, ◌∙◌, ap, String, Bool, true, false, ◌==◌, none, some, List, [], ◌∷◌, ◌++◌, length,
  get_elem?, take, drop, has, ltb, length-append, arith,
}
use mathlib.Core.List.{append-nil, append_assoc}
use native.Mathlib.Nat.{zero-add, suc-add, add-zero}
use discordgo.State.Types.{Addr, ThreadMember}
use discordgo.State.Store.{State, panics, done}
use discordgo.State.Channels.{channel}
use discordgo.State.Threads.{
  ThreadMembersUpdate, cut, drop_removed, add_thread_members, thread_members_update,
}

-- No member of the list is among the removed ones, as the loop compares them.
abbrev pub is_removed : List String → ThreadMember → Bool
is_removed removed m = has (λ r. m.id == r) removed

abbrev pub AllStay : List String → List ThreadMember → Type 0
AllStay removed [] = Unit
AllStay removed (m ∷ ms) = (is_removed removed m ≡ false) × AllStay removed ms

-- One round, over a member that stays and over one that goes.
round_stays :
    (removed : List String) (xs : List ThreadMember) (m : ThreadMember) (rounds n i : ℕ)
    → get_elem? xs i ≡ some m
    → is_removed removed m ≡ false
    → drop_removed (suc rounds) removed xs n i ≡ drop_removed rounds removed xs n (i + 1)
unfolding drop_removed
round_stays removed xs m rounds n i h stays = rw (drop_removed, h, stays) refl

round_goes :
    (removed : List String) (xs ys : List ThreadMember) (m : ThreadMember) (rounds n i : ℕ)
    → get_elem? xs i ≡ some m
    → is_removed removed m ≡ true
    → cut xs n i ≡ some ys
    → drop_removed (suc rounds) removed xs n i ≡ drop_removed rounds removed ys (n - 1) (i + 1)
unfolding drop_removed
round_goes removed xs ys m rounds n i h goes e = rw (drop_removed, h, goes, e) refl

round_panics :
    (removed : List String) (xs : List ThreadMember) (m : ThreadMember) (rounds n i : ℕ)
    → get_elem? xs i ≡ some m
    → is_removed removed m ≡ true
    → cut xs n i ≡ none
    → drop_removed (suc rounds) removed xs n i ≡ none
unfolding drop_removed
round_panics removed xs m rounds n i h goes e = rw (drop_removed, h, goes, e) refl

-- Rounds over members that stay change nothing: from behind `xs` to behind `xs ++ ys`.
drop_removed-AllStay :
    (removed : List String) (ys xs zs : List ThreadMember) (rounds n i : ℕ)
    → AllStay removed ys
    → length xs ≡ i
    → drop_removed (length ys + rounds) removed (xs ++ (ys ++ zs)) n i
      ≡ drop_removed rounds removed (xs ++ (ys ++ zs)) n (i + length ys)
drop_removed-AllStay removed [] xs zs rounds n i stay e = rw (zero-add, add-zero) refl
drop_removed-AllStay removed (y ∷ ys) xs zs rounds n i (stays, stay) e =
    rw
      (
        suc-add,
        round_stays removed (xs ++ y ∷ (ys ++ zs)) y (length ys + rounds) n i here stays,
        sym (append_assoc xs (y ∷ []) (ys ++ zs)),
        drop_removed-AllStay removed ys (xs ++ y ∷ []) zs rounds n (i + 1) stay
            (omega (arith, length-append xs (y ∷ []))),
        arith_eq,
      )
      refl
  where
    here : get_elem? (xs ++ y ∷ (ys ++ zs)) i ≡ some y
    here = rw (sym e) (get_elem?-append xs (ys ++ zs) y)

    arith_eq : i + 1 + length ys ≡ i + suc (length ys)
    arith_eq = omega arith

-- Where no member is among the removed ones the loop leaves the list as it is.
pub drop_removed_none :
    (removed : List String) (ms : List ThreadMember)
    → AllStay removed ms
    → drop_removed (length ms) removed ms (length ms) 0 ≡ some ms
unfolding drop_removed
drop_removed_none removed ms stay =
    sym (cong_rounds ms)
    ∙ drop_removed-AllStay removed ms [] [] 0 (length ms) 0 stay refl
    ∙ ap some (rw (append-nil) (take-length ms))
  where
    cong_rounds :
        (ys : List ThreadMember)
        → drop_removed (length ms + 0) removed (ms ++ []) (length ms) 0
          ≡ drop_removed (length ms) removed ms (length ms) 0
    cong_rounds ys = rw (append-nil, add-zero) refl

-- Where the last two members are both removed the loop cuts behind the end of the slice.
pub drop_removed_two :
    (removed : List String) (xs : List ThreadMember) (a b : ThreadMember)
    → AllStay removed xs
    → is_removed removed a ≡ true
    → is_removed removed b ≡ true
    → drop_removed
        (length (xs ++ a ∷ b ∷ []))
        removed
        (xs ++ a ∷ b ∷ [])
        (length (xs ++ a ∷ b ∷ []))
        0
      ≡ none
unfolding cut
drop_removed_two removed xs a b stay goes_a goes_b =
    let ms = xs ++ a ∷ b ∷ [] in
    rw
      (
        length-append xs (a ∷ b ∷ []),
        drop_removed-AllStay removed xs [] (a ∷ b ∷ []) 2 (length xs + 2) 0 stay refl,
        zero-add,
        round_goes removed ms (xs ++ b ∷ b ∷ []) a 1 (length xs + 2) (length xs)
            (get_elem?-append xs (b ∷ []) a) goes_a first,
        round_panics removed (xs ++ b ∷ b ∷ []) b 0 (length xs + 2 - 1) (length xs + 1) second
            goes_b (ground arith),
      )
      refl
  where
    whole : take (length xs + 2) (xs ++ a ∷ b ∷ []) ≡ xs ++ a ∷ b ∷ []
    whole = rw (sym (length-append xs (a ∷ b ∷ []))) (take-length (xs ++ a ∷ b ∷ []))

    less : length xs + 2 - 1 ≡ length xs + 1
    less = omega arith

    behind : drop (length xs + 2 - 1) (xs ++ a ∷ b ∷ []) ≡ b ∷ []
    behind = rw less (drop-append xs (b ∷ []) a)

    within : ltb (length xs + 2) (length xs + 1) ≡ false
    within = ground arith

    first : cut (xs ++ a ∷ b ∷ []) (length xs + 2) (length xs) ≡ some (xs ++ b ∷ b ∷ [])
    first = rw (within, whole, behind, take-append xs (a ∷ b ∷ []), drop-append xs (b ∷ []) a) refl

    second : get_elem? (xs ++ b ∷ b ∷ []) (length xs + 1) ≡ some b
    second = get_elem?-append_next xs [] b b

module _ (s : State) (u : ThreadMembersUpdate) (c : Addr)
    (known : s.channel_map u.id ≡ some c) where
  -- Where the last two of a known thread's members are both among the removed ones, and those
  -- before them are not, `ThreadMembersUpdate` panics.
  pub thread_members_update_panics :
      (xs : List ThreadMember) (a b : ThreadMember)
      → (s.channels c).members ≡ xs ++ a ∷ b ∷ []
      → AllStay u.removed_members xs
      → is_removed u.removed_members a ≡ true
      → is_removed u.removed_members b ≡ true
      → (thread_members_update u s).0 ≡ panics
  unfolding thread_members_update channel
  thread_members_update_panics xs a b e stay goes_a goes_b =
      rw (known, e, drop_removed_two u.removed_members xs a b stay goes_a goes_b) refl

  -- Where no member of a known thread carries an ID of the removed ones, and none is added,
  -- `ThreadMembersUpdate` sets the member count and leaves the members of the thread as they are.
  pub thread_members_update_keeps :
      AllStay u.removed_members (s.channels c).members
      → u.added_members ≡ []
      → let out = thread_members_update u s in
        (out.0 ≡ done tt)
        × ((out.1.channels c).members ≡ (s.channels c).members)
        × ((out.1.channels c).member_count ≡ u.member_count)
  unfolding thread_members_update channel add_thread_members
  thread_members_update_keeps stay e =
      rw (known, drop_removed_none u.removed_members (s.channels c).members stay, e) (ground arith)
