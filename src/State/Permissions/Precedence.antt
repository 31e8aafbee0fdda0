-- ===== src/State/Permissions/Precedence.antt =====
-- What the order of the passes of `memberPermissions` (restapi.go) amounts to.
use discordgo.Base.{
  ℕ, String, ◌≡◌, refl, fun_ext, ◌∙◌, Bool, true, false, ◌&&◌, ◌||◌, ◌==◌, eq_iff, some, List, [],
  ◌∷◌, inl, inr, Bool-cases, if◌then◌else◌, find, has, arith,
}
use discordgo.State.Types.{
  items, Role, OverwriteType, role_overwrite, member_overwrite, PermissionOverwrite, Channel, Guild,
}
use discordgo.State.Permissions.{member_permissions}
use discordgo.State.Permissions.Bitwise.{
  for_roles, for_member, of_channel, of_guild, of_channel-of_guild, all_permissions-of_guild,
  grants, denied, allowed, overridden, role_bit, guild_bit, overwritten_bit, guild_permissions-bit,
  channel_permissions-bit,
}

-- A bit of the result for a member who does not own the guild.
unfoldable pub member_bit : Guild → Channel → String → List String → ℕ → Bool
member_bit g c user ids k = overwritten_bit g c user ids k (guild_bit g ids k)

-- Each bit of the result: the owner has all permissions. Anybody else has what the roles grant, and
-- all permissions if that is the administrator's bit; then what the overwrites of the channel
-- leave of that, an administrator's too, or add to it; and all channel permissions if they leave
-- the administrator's bit.
pub member_permissions-bit :
    (g : Guild) (c : Channel) (user : String) (ids : List String) (i : ℕ)
    → member_permissions g c user ids i ≡ (
        if user == g.owner_id
        then of_guild i
        else member_bit g c user ids i || (member_bit g c user ids 3 && of_channel i))
unfolding member_permissions member_bit
member_permissions-bit g c user ids i = elim (Bool-cases (user == g.owner_id)) [
  | inl e ↦ rw e (all_permissions-of_guild i)
  | inr e ↦ rw e (
      channel_permissions-bit g c user ids _ i
      ∙ rw (guild_permissions-bit g ids i, guild_permissions-bit g ids 3))
]

of_channel-administrator : of_channel 3 ≡ false
unfolding of_channel
of_channel-administrator = refl

-- The same for a member, and at the administrator's bit.
member_permissions-member :
    (g : Guild) (c : Channel) (user : String) (ids : List String) (i : ℕ)
    → (user == g.owner_id) ≡ false
    → member_permissions g c user ids i
      ≡ (member_bit g c user ids i || (member_bit g c user ids 3 && of_channel i))
member_permissions-member g c user ids i other = member_permissions-bit g c user ids i ∙ rw other

member_permissions-administrator :
    (g : Guild) (c : Channel) (user : String) (ids : List String)
    → (user == g.owner_id) ≡ false
    → member_permissions g c user ids 3 ≡ member_bit g c user ids 3
member_permissions-administrator g c user ids other =
    member_permissions-member g c user ids 3 other ∙ rw of_channel-administrator (ground arith)

-- For a member who does not own the guild, the overwrite of the member has the last word, but
-- for the administrator's bit: what it allows is granted, and what it denies without allowing is
-- granted to an administrator only, if it is a channel permission.
pub member_overwrite_last :
    (g : Guild) (c : Channel) (user : String) (ids : List String) (o : PermissionOverwrite) (i : ℕ)
    → (user == g.owner_id) ≡ false
    → find (for_member user) (items c.permission_overwrites) ≡ some o
    → let p = member_permissions g c user ids in
      (o.allow i ≡ true → p i ≡ true)
      × (o.deny i ≡ true → o.allow i ≡ false → p i ≡ (p 3 && of_channel i))
unfolding member_bit
member_overwrite_last g c user ids o i other here = (
  λ a. result ∙ rw (here, a) (ground arith),
  λ d a.
      result ∙ rw (member_permissions-administrator g c user ids other, here, d, a) (ground arith),
)
  where
    result :
        member_permissions g c user ids i
        ≡ (member_bit g c user ids i || (member_bit g c user ids 3 && of_channel i))
    result = member_permissions-member g c user ids i other

-- No overwrite of the list denies bit `i`.
abbrev pub Spares : ℕ → List PermissionOverwrite → Type 0
Spares i [] = Unit
Spares i (o ∷ os) = (o.deny i ≡ false) × Spares i os

denied-Spares :
    (ids : List String) (i : ℕ) (os : List PermissionOverwrite)
    → Spares i os
    → denied ids os i ≡ false
denied-Spares ids i [] h = refl
denied-Spares ids i (o ∷ os) h = ground (arith, denied-Spares ids i os h.1)

overridden-Spares :
    (test : PermissionOverwrite → Bool) (i : ℕ) (os : List PermissionOverwrite)
    → Spares i os
    → overridden (find test os) i true ≡ true
overridden-Spares test i [] h = refl
overridden-Spares test i (o ∷ os) h = elim (Bool-cases (test o)) [
  | inl e ↦ rw (e, h.0) (ground arith)
  | inr e ↦ rw e (overridden-Spares test i os h.1)
]

guild_bit-administrator :
    (g : Guild) (ids : List String) → role_bit g ids 3 ≡ true → guild_bit g ids 3 ≡ true
guild_bit-administrator g ids h = rw h

member_bit-Spares :
    (g : Guild) (c : Channel) (user : String) (ids : List String)
    → role_bit g ids 3 ≡ true
    → Spares 3 (items c.permission_overwrites)
    → member_bit g c user ids 3 ≡ true
unfolding member_bit
member_bit-Spares g c user ids admin spares =
    let os = items c.permission_overwrites in
    rw
      (
        guild_bit-administrator g ids admin,
        denied-Spares ids 3 os spares,
        overridden-Spares (λ o. g.id == o.id) 3 os spares,
      )
      (overridden-Spares (for_member user) 3 os spares)

-- If the roles make the member an administrator and no overwrite of the channel denies the
-- administrator's bit, then the member has every channel permission, whatever else is denied.
pub administrator_unhindered :
    (g : Guild) (c : Channel) (user : String) (ids : List String) (i : ℕ)
    → role_bit g ids 3 ≡ true
    → Spares 3 (items c.permission_overwrites)
    → of_channel i ≡ true
    → member_permissions g c user ids i ≡ true
administrator_unhindered g c user ids i admin spares channel =
    elim (Bool-cases (user == g.owner_id)) [
      | inl e ↦ member_permissions-bit g c user ids i ∙ rw e (of_channel-of_guild i channel)
      | inr e ↦
          member_permissions-member g c user ids i e
          ∙ rw (member_bit-Spares g c user ids admin spares, channel) (ground arith)
    ]

-- The list of a member's roles matters as a set only.
abbrev pub SameRoles : List String → List String → Type 0
SameRoles ids ids' = (x : String) → has (λ id. x == id) ids ≡ has (λ id. x == id) ids'

flip : (x y : String) → (x == y) ≡ (y == x)
flip x y = ground (arith, eq_iff x y, eq_iff y x)

concerns-SameRoles :
    (ids ids' : List String)
    → SameRoles ids ids'
    → (o : PermissionOverwrite) → for_roles ids o ≡ for_roles ids' o
concerns-SameRoles ids ids' same o = go o.type
  where
    go :
        (t : OverwriteType)
        → (elim t [ role_overwrite ↦ has (λ id. id == o.id) ids | member_overwrite ↦ false ])
          ≡ elim t [ role_overwrite ↦ has (λ id. id == o.id) ids' | member_overwrite ↦ false ]
    go role_overwrite = rw (fun_ext (λ id. flip id o.id)) (same o.id)
    go member_overwrite = refl

grants-SameRoles :
    (ids ids' : List String)
    → SameRoles ids ids'
    → (rs : List Role) (i : ℕ) → grants ids rs i ≡ grants ids' rs i
grants-SameRoles ids ids' same [] i = refl
grants-SameRoles ids ids' same (r ∷ rs) i = rw (same r.id, grants-SameRoles ids ids' same rs i)

denied-SameRoles :
    (ids ids' : List String)
    → SameRoles ids ids'
    → (os : List PermissionOverwrite) (i : ℕ) → denied ids os i ≡ denied ids' os i
denied-SameRoles ids ids' same [] i = refl
denied-SameRoles ids ids' same (o ∷ os) i =
    rw (concerns-SameRoles ids ids' same o, denied-SameRoles ids ids' same os i)

allowed-SameRoles :
    (ids ids' : List String)
    → SameRoles ids ids'
    → (os : List PermissionOverwrite) (i : ℕ) → allowed ids os i ≡ allowed ids' os i
allowed-SameRoles ids ids' same [] i = refl
allowed-SameRoles ids ids' same (o ∷ os) i =
    rw (concerns-SameRoles ids ids' same o, allowed-SameRoles ids ids' same os i)

member_bit-SameRoles :
    (g : Guild) (c : Channel) (user : String) (ids ids' : List String) (i : ℕ)
    → SameRoles ids ids'
    → member_bit g c user ids i ≡ member_bit g c user ids' i
unfolding member_bit
member_bit-SameRoles g c user ids ids' i same =
    let rs = items g.roles in
    let os = items c.permission_overwrites in
    rw (
      grants-SameRoles ids ids' same rs i,
      grants-SameRoles ids ids' same rs 3,
      denied-SameRoles ids ids' same os i,
      allowed-SameRoles ids ids' same os i,
    )

-- The permissions are the same for two lists of roles with the same members: neither their order
-- nor repetitions count.
pub member_permissions-SameRoles :
    (g : Guild) (c : Channel) (user : String) (ids ids' : List String) (i : ℕ)
    → SameRoles ids ids'
    → member_permissions g c user ids i ≡ member_permissions g c user ids' i
member_permissions-SameRoles g c user ids ids' i same = rw (
  member_permissions-bit g c user ids i,
  member_permissions-bit g c user ids' i,
  member_bit-SameRoles g c user ids ids' i same,
  member_bit-SameRoles g c user ids ids' 3 same,
)
