-- ===== src/State/Colors.antt =====
-- state.go: `firstRoleColorColor`, `UserColor` and `MessageColor`; structs.go: the order of `Roles`.
--
-- `sort.Sort` is a parameter, which is given `Roles.Less` and the roles.
use discordgo.Base.{
  ℕ, zero, suc, ◌≤◌, ◌≡◌, refl, ◌∙◌, ap, String, Bool, true, not, ◌&&◌, ◌==◌, Option, none, some,
  List, [], ◌∷◌, eqb, ltb, false, sym, find, has, get_elem?, arith, Bool-cases, inl, inr,
}
use mathlib.Core.Option.{some-injective}
use discordgo.State.Types.{Addr, Slice, items, Role, Message}
use discordgo.State.Store.{State, Outcome, done, fails, panics, Action, gets, modify, ◌>>=◌, ◌>>◌}
use discordgo.State.Guilds.{guild}
use discordgo.State.Members.{member, update_guild}
use discordgo.State.Channels.{channel}

-- A role of the member that has a color.
abbrev pub is_colored : List String → Role → Bool
is_colored ids r = has (λ id. r.id == id) ids && not (eqb r.color 0)

abbrev color_or : ℕ → Option Role → ℕ
color_or n none = n
color_or n (some r) = r.color

-- `Roles.Less` of the roles at two places
abbrev pub role_less : Role → Role → Bool
role_less r r' = ltb r'.position r.position

module _ (sort : (Role → Role → Bool) → List Role → List Role) where
  -- The colour of the first of the sorted roles that counts, or of the guild's own role, or 0.
  unfoldable pub first_role_color : List Role → (guild_id : String) → List String → ℕ
  first_role_color roles guild_id ids =
      let sorted = sort role_less roles in
      color_or (color_or 0 (find (λ r. r.id == guild_id) sorted)) (find (is_colored ids) sorted)

  abbrev sort_roles : Slice Role → Slice Role
  sort_roles none = none
  sort_roles (some rs) = some (sort role_less rs)

  -- `firstRoleColorColor` of the guild at an address, whose roles are sorted in place.
  unfoldable pub color_in : Addr → List String → Action ℕ
  unfolding first_role_color
  color_in g ids = do
    roles ← gets (λ s. items (s.guilds g).roles)
    modify (update_guild g (λ x. record x { roles = sort_roles x.roles }))
    gets (λ s. first_role_color roles (s.guilds g).id ids)

  -- 0 where something is not found.
  abbrev pub or_no_color : Outcome ℕ × State → ℕ × State
  or_no_color (done n, s) = (n, s)
  or_no_color (fails e, s) = (0, s)
  or_no_color (panics, s) = (0, s)

  unfoldable pub user_color : String → String → State → ℕ × State
  unfolding color_in
  user_color user channel_id s = or_no_color (
      (do
        c ← channel channel_id
        g ← gets (λ s. (s.channels c).guild_id) >>= guild
        m ← gets (λ s. (s.guilds g).id) >>= λ id. member id user
        ids ← gets (λ s. items (s.members m).roles)
        color_in g ids)
        s)

  -- `MessageColor`
  unfoldable pub message_color : Message → State → ℕ × State
  unfolding color_in
  message_color msg s = elim msg.member [
    | none ↦ (0, s)
    | some m ↦ elim (s.members m).roles [
      | none ↦ (0, s)
      | some ids ↦ or_no_color (
          (do
            c ← channel msg.channel_id
            g ← gets (λ s. (s.channels c).guild_id) >>= guild
            color_in g ids)
            s)
    ]
  ]

-- What `sort.Sort` gives of a list: the same entries, none of them less than one in front of it.
pub record IsSorting (less : Role → Role → Bool) (roles sorted : List Role) : Type 0 where
  pub kept :
      (j : ℕ) (r : Role) → get_elem? roles j ≡ some r → (i : ℕ) × (get_elem? sorted i ≡ some r)
  pub known :
      (i : ℕ) (r : Role) → get_elem? sorted i ≡ some r → (j : ℕ) × (get_elem? roles j ≡ some r)
  pub ordered :
      (i j : ℕ) (r r' : Role)
      → i ≤ j
      → get_elem? sorted i ≡ some r
      → get_elem? sorted j ≡ some r'
      → less r' r ≡ false

-- `find` stops at the first entry that passes.
find-first :
    (test : Role → Bool) (rs : List Role) (j : ℕ) (r : Role)
    → get_elem? rs j ≡ some r
    → test r ≡ true
    → (i : ℕ) × (r' : Role) × (i ≤ j)
      × (get_elem? rs i ≡ some r')
      × (test r' ≡ true)
      × (find test rs ≡ some r')
find-first test [] j r at passes = absurd (cc)
find-first test (x ∷ xs) zero r at passes =
    let same = some-injective _ _ at in
    (0, x, omega arith, refl, ap test same ∙ passes, rw (ap test same ∙ passes) refl)
find-first test (x ∷ xs) (suc j) r at passes = elim (Bool-cases (test x)) [
  | inl yes_ ↦ (0, x, omega arith, refl, yes_, rw yes_ refl)
  | inr no_ ↦
      let (i, r', le, at', passes', found) = find-first test xs j r at passes in
      (suc i, r', omega arith, at', passes', rw no_ found)
]

-- If a member has a role of the guild with a color: the color comes from such a role of the
-- guild, and that role is at no lower position than any of the member's roles with a color. This
-- is for any order of the guild's roles, if `sort.Sort` sorts them by `Roles.Less`.
pub first_role_color_lem :
    (sort : (Role → Role → Bool) → List Role → List Role) (roles : List Role) (guild_id : String)
    (ids : List String) (j : ℕ) (r : Role)
    → IsSorting role_less roles (sort role_less roles)
    → get_elem? roles j ≡ some r
    → is_colored ids r ≡ true
    → (k : ℕ) × (top : Role) × (get_elem? roles k ≡ some top)
      × (is_colored ids top ≡ true)
      × (first_role_color sort roles guild_id ids ≡ top.color)
      × ((j' : ℕ) (r' : Role)
          → get_elem? roles j' ≡ some r'
          → is_colored ids r' ≡ true
          → r'.position ≤ top.position)
unfolding first_role_color
first_role_color_lem sort roles guild_id ids j r sorts at colored =
    let sorted = sort role_less roles in
    let test = is_colored ids in
    let (p, at_p) = sorts.kept j r at in
    let (i, top, le, at_i, colored_top, found) = find-first test sorted p r at_p colored in
    let (k, at_k) = sorts.known i top at_i in
    (
      k,
      top,
      at_k,
      colored_top,
      ap (color_or _) found,
      λ j' r' at' colored'.
          (let (p', at_p') = sorts.kept j' r' at' in
            let (i', other, le', at_i', c', found') = find-first test sorted p' r' at_p' colored' in
            let same = some-injective _ _ (sym found ∙ found') in
            let ahead = sorts.ordered i' p' other r' le' at_i' at_p' in
            let positions = ap Role.position same in ground (arith, ahead)),
    )
