-- ===== src/State/Permissions/Bitwise.antt =====
-- `memberPermissions` of restapi.go, one bit at a time.
use discordgo.Base.{
  ℕ, String, ◌≡◌, refl, ap, sym, fun_ext, ◌∙◌, Bool, true, false, eqb, ◌++◌, not, ◌&&◌, ◌||◌, ◌==◌,
  Option, none, some, List, [], ◌∷◌, inl, inr, Bool-cases, if◌then◌else◌, find, has, arith,
}
use discordgo.State.Types.{
  Bits, items, Role, PermissionOverwrite, OverwriteType, role_overwrite, member_overwrite, Channel,
  Guild,
}
use discordgo.State.Permissions.{
  or_bits, no_bits, add_everyone, administrator, all_channel, all_permissions, covers, add_roles,
  override, override_by, is_role, concerns_role, concerns_member, gather, guild_permissions,
  channel_permissions,
}

-- The flags of `PermissionAllChannel` and of `PermissionAll`.
abbrev channel_flags : List ℕ
channel_flags =
    0 ∷ 4 ∷ 6 ∷ 7 ∷ 8 ∷ 10 ∷ 11 ∷ 12 ∷ 13 ∷ 14 ∷ 15 ∷ 16 ∷ 17 ∷ 20 ∷ 21 ∷ 22 ∷ 23 ∷ 24 ∷ 25 ∷ 28
    ∷ []

abbrev every_flag : List ℕ
every_flag = 1 ∷ 2 ∷ 3 ∷ 5 ∷ 29 ∷ 30 ∷ channel_flags

unfoldable pub of_channel : ℕ → Bool
of_channel i = has (eqb i) channel_flags

unfoldable pub of_guild : ℕ → Bool
of_guild i = has (eqb i) every_flag

-- An overwrite of one of the roles, and an overwrite of the member.
abbrev pub for_roles : List String → PermissionOverwrite → Bool
for_roles ids o = elim o.type [
  | role_overwrite ↦ has (λ id. id == o.id) ids
  | member_overwrite ↦ false
]

abbrev pub for_member : String → PermissionOverwrite → Bool
for_member user o = elim o.type [ role_overwrite ↦ false | member_overwrite ↦ o.id == user ]

abbrev within : List ℕ → List ℕ → Bool
within [] ls = true
within (k ∷ ks) ls = has (eqb k) ls && within ks ls

within-has :
    (ks ls : List ℕ) (i : ℕ) → within ks ls ≡ true → has (eqb i) ks ≡ true → has (eqb i) ls ≡ true
within-has [] ls i w h = absurd (cc)
within-has (k ∷ ks) ls i w h = elim (Bool-cases (eqb i k)) [
  | inl e ↦ let same : i ≡ k = grind arith in ap (λ j. has (eqb j) ls) same ∙ ground arith
  | inr e ↦ within-has ks ls i (ground arith) (ground arith)
]

same_flags :
    (ks ls : List ℕ)
    → within ks ls ≡ true
    → within ls ks ≡ true
    → (i : ℕ) → has (eqb i) ks ≡ has (eqb i) ls
same_flags ks ls w w' i = elim (Bool-cases (has (eqb i) ks)) [
  | inl e ↦ e ∙ sym (within-has ks ls i w e)
  | inr e ↦ elim (Bool-cases (has (eqb i) ls)) [
    | inl e' ↦ absurd (ground (arith, within-has ls ks i w' e'))
    | inr e' ↦ e ∙ sym e'
  ]
]

has-append : (ks ls : List ℕ) (i : ℕ) → has (eqb i) (ks ++ ls) ≡ (has (eqb i) ks || has (eqb i) ls)
has-append [] ls i = refl
has-append (k ∷ ks) ls i = ground (arith, has-append ks ls i)

abbrev text_flags : List ℕ
text_flags = 10 ∷ 11 ∷ 12 ∷ 13 ∷ 14 ∷ 15 ∷ 16 ∷ 17 ∷ []

abbrev voice_flags : List ℕ
voice_flags = 10 ∷ 20 ∷ 21 ∷ 22 ∷ 23 ∷ 24 ∷ 25 ∷ 8 ∷ []

abbrev other_flags : List ℕ
other_flags = 0 ∷ 28 ∷ 4 ∷ 6 ∷ 7 ∷ []

abbrev guild_flags : List ℕ
guild_flags = 1 ∷ 2 ∷ 5 ∷ 3 ∷ 29 ∷ 30 ∷ []

pub all_channel-of_channel : (i : ℕ) → all_channel i ≡ of_channel i
unfolding all_channel of_channel
all_channel-of_channel i =
    sym (
      has-append (text_flags ++ voice_flags) other_flags i
      ∙ ap (λ b. b || has (eqb i) other_flags) (has-append text_flags voice_flags i))
    ∙ same_flags (text_flags ++ voice_flags ++ other_flags) channel_flags refl refl i

pub all_permissions-of_guild : (i : ℕ) → all_permissions i ≡ of_guild i
unfolding all_permissions of_guild of_channel
all_permissions-of_guild i =
    ap (λ b. b || has (eqb i) guild_flags) (all_channel-of_channel i)
    ∙ sym (has-append channel_flags guild_flags i)
    ∙ same_flags (channel_flags ++ guild_flags) every_flag refl refl i

pub of_channel-of_guild : (i : ℕ) → of_channel i ≡ true → of_guild i ≡ true
unfolding of_channel of_guild
of_channel-of_guild i = within-has channel_flags every_flag i refl

pub has_none : (ids : List String) → has (λ id. false) ids ≡ false
has_none [] = refl
has_none (x ∷ ids) = has_none ids

concerns_role-for_roles :
    (ids : List String) (o : PermissionOverwrite) → concerns_role ids o ≡ for_roles ids o
concerns_role-for_roles ids o = go o.type
  where
    go :
        (t : OverwriteType)
        → has (λ id. is_role t && (id == o.id)) ids
          ≡ elim t [ role_overwrite ↦ has (λ id. id == o.id) ids | member_overwrite ↦ false ]
    go role_overwrite = refl
    go member_overwrite = has_none ids

concerns_member-for_member :
    (user : String) (o : PermissionOverwrite) → concerns_member user o ≡ for_member user o
concerns_member-for_member user o = go o.type
  where
    go :
        (t : OverwriteType)
        → (not (is_role t) && (o.id == user))
          ≡ elim t [ role_overwrite ↦ false | member_overwrite ↦ o.id == user ]
    go role_overwrite = refl
    go member_overwrite = refl

pub covers-administrator : (p : Bits) → covers p administrator ≡ p 3
unfolding covers
covers-administrator p = elim (Bool-cases (p 3)) [ inl e ↦ rw e | inr e ↦ rw e ]

-- What an administrator has on top.
administrator_step :
    (p extra : Bits) (i : ℕ)
    → (if covers p administrator then or_bits p extra else p) i ≡ (p i || (p 3 && extra i))
administrator_step p extra i = elim (Bool-cases (p 3)) [
  | inl e ↦ rw (covers-administrator p, e)
  | inr e ↦ rw (covers-administrator p, e) (ground arith)
]

-- Some role of the list that the member has grants bit `i`.
abbrev pub grants : List String → List Role → ℕ → Bool
grants ids [] i = false
grants ids (r ∷ rs) i = (has (λ id. r.id == id) ids && r.permissions i) || grants ids rs i

pub add_roles-bit :
    (ids : List String) (rs : List Role) (p : Bits) (i : ℕ)
    → add_roles ids rs p i ≡ (p i || grants ids rs i)
unfolding add_roles
add_roles-bit ids [] p i = ground arith
add_roles-bit ids (r ∷ rs) p i = elim (Bool-cases (has (λ id. r.id == id) ids)) [
  | inl e ↦ rw (e, add_roles-bit ids rs (or_bits p r.permissions) i) (ground arith)
  | inr e ↦ rw (e, add_roles-bit ids rs p i)
]

-- The overwrites of the member's roles deny, or allow, bit `i`.
abbrev pub denied : List String → List PermissionOverwrite → ℕ → Bool
denied ids [] i = false
denied ids (o ∷ os) i = (for_roles ids o && o.deny i) || denied ids os i

abbrev pub allowed : List String → List PermissionOverwrite → ℕ → Bool
allowed ids [] i = false
allowed ids (o ∷ os) i = (for_roles ids o && o.allow i) || allowed ids os i

pub gather-bit :
    (ids : List String) (os : List PermissionOverwrite) (acc : Bits × Bits) (i : ℕ)
    → ((gather ids os acc).0 i ≡ (acc.0 i || denied ids os i))
      × ((gather ids os acc).1 i ≡ (acc.1 i || allowed ids os i))
unfolding gather
gather-bit ids [] acc i = ground arith
gather-bit ids (o ∷ os) acc i = elim (Bool-cases (concerns_role ids o)) [
  | inl e ↦
      let (d, a) = gather-bit ids os (or_bits acc.0 o.deny, or_bits acc.1 o.allow) i in
      rw (e, sym (concerns_role-for_roles ids o) ∙ e, gather) (d ∙ ground arith, a ∙ ground arith)
  | inr e ↦ rw (e, sym (concerns_role-for_roles ids o) ∙ e, gather) (gather-bit ids os acc i)
]

-- One overwrite at one bit: an allow wins over a deny.
abbrev pub overridden : Option PermissionOverwrite → ℕ → Bool → Bool
overridden none i b = b
overridden (some o) i b = not (o.deny i) && b || o.allow i

pub override_by-bit :
    (o : Option PermissionOverwrite) (p : Bits) (i : ℕ) → override_by o p i ≡ overridden o i (p i)
override_by-bit none p i = refl
override_by-bit (some o) p i = refl

abbrev granted_by : Option Role → ℕ → Bool
granted_by none i = false
granted_by (some r) i = r.permissions i

add_everyone-bit : (o : Option Role) (i : ℕ) → add_everyone o no_bits i ≡ granted_by o i
add_everyone-bit none i = refl
add_everyone-bit (some r) i = refl

-- What the roles grant, those of everybody first; an administrator has all permissions.
abbrev pub role_bit : Guild → List String → ℕ → Bool
role_bit g ids i =
    granted_by (find (λ r. r.id == g.id) (items g.roles)) i || grants ids (items g.roles) i

abbrev pub guild_bit : Guild → List String → ℕ → Bool
guild_bit g ids i = role_bit g ids i || (role_bit g ids 3 && of_guild i)

pub guild_permissions-bit :
    (g : Guild) (ids : List String) (i : ℕ) → guild_permissions g ids i ≡ guild_bit g ids i
unfolding guild_permissions
guild_permissions-bit g ids i =
    let os = items g.roles in
    let everyone = find (λ r. r.id == g.id) os in
    let bit = λ (k : ℕ).
      add_roles-bit ids os (add_everyone everyone no_bits) k
      ∙ ap (λ b. b || grants ids os k) (add_everyone-bit everyone k) in
    administrator_step _ all_permissions i ∙ rw (bit i, bit 3, all_permissions-of_guild i)

-- The overwrites of the channel: those of everybody, of the roles together, of the member.
abbrev pub overwritten_bit : Guild → Channel → String → List String → ℕ → Bool → Bool
overwritten_bit g c user ids i b =
    let os = items c.permission_overwrites in
    overridden (find (for_member user) os) i
      (not (denied ids os i) && overridden (find (λ o. g.id == o.id) os) i b || allowed ids os i)

pub channel_permissions-bit :
    (g : Guild) (c : Channel) (user : String) (ids : List String) (p : Bits) (i : ℕ)
    → channel_permissions g c user ids p i ≡ (
        overwritten_bit g c user ids i (p i)
        || (overwritten_bit g c user ids 3 (p 3) && of_channel i))
unfolding channel_permissions
channel_permissions-bit g c user ids p i =
    administrator_step _ all_channel i ∙ rw (bit i, bit 3, all_channel-of_channel i)
  where
    os : List PermissionOverwrite
    os = items c.permission_overwrites

    masks : Bits × Bits
    masks = gather ids os (no_bits, no_bits)

    bit :
        (k : ℕ)
        → override_by
            (find (concerns_member user) os)
            (override masks.0 masks.1 (override_by (find (λ o. g.id == o.id) os) p))
            k
          ≡ overwritten_bit g c user ids k (p k)
    bit k =
        override_by-bit (find (concerns_member user) os) _ k
        ∙ rw (
          (gather-bit ids os (no_bits, no_bits) k).0,
          (gather-bit ids os (no_bits, no_bits) k).1,
          override_by-bit (find (λ o. g.id == o.id) os) p k,
          fun_ext (concerns_member-for_member user),
        )
