-- ===== src/State/Permissions.antt =====
-- restapi.go: `memberPermissions` and `UserChannelPermissions`; state.go: the same on the cache
-- alone, and for a message; the permission flags of structs.go.
pub mod Bitwise
pub mod Precedence
pub mod Fetching
use discordgo.Base.{
  ℕ, zero, suc, String, Bool, true, false, not, ◌&&◌, ◌||◌, ◌==◌, Option, none, some, List, [], ◌∷◌,
  eqb, if◌then◌else◌, find, has,
}
use discordgo.State.Types.{
  Addr, Bits, items, Role, PermissionOverwrite, role_overwrite, member_overwrite, OverwriteType,
  Member, Message, Channel, Guild,
}
use discordgo.State.Store.{
  State, message_incomplete, Outcome, done, fails, panics, Action, fail, gets, ◌>>=◌,
}
use discordgo.State.Guilds.{guild}
use discordgo.State.Members.{member}
use discordgo.State.Channels.{channel}

-- `a | b`, `a & b` and `a &^ b`.
abbrev pub or_bits : Bits → Bits → Bits
or_bits a b i = a i || b i

abbrev pub clear_bits : Bits → Bits → Bits
clear_bits a b i = not (b i) && a i

abbrev pub no_bits : Bits
no_bits i = false

-- `1 << k | …` for the listed positions.
abbrev pub flags : List ℕ → Bits
flags ks i = has (eqb i) ks

abbrev pub administrator : Bits
administrator = flags (3 ∷ [])

abbrev pub all_text : Bits
all_text = flags (10 ∷ 11 ∷ 12 ∷ 13 ∷ 14 ∷ 15 ∷ 16 ∷ 17 ∷ [])

abbrev pub all_voice : Bits
all_voice = flags (10 ∷ 20 ∷ 21 ∷ 22 ∷ 23 ∷ 24 ∷ 25 ∷ 8 ∷ [])

unfoldable pub all_channel : Bits
all_channel = or_bits (or_bits all_text all_voice) (flags (0 ∷ 28 ∷ 4 ∷ 6 ∷ 7 ∷ []))

unfoldable pub all_permissions : Bits
unfolding all_channel
all_permissions = or_bits all_channel (flags (1 ∷ 2 ∷ 5 ∷ 3 ∷ 29 ∷ 30 ∷ []))

-- `p & mask == mask` on an int64: each of the 64 bits of the mask is a bit of `p`.
unfoldable pub covers_below : ℕ → Bits → Bits → Bool
covers_below zero p mask = true
covers_below (suc n) p mask = (if mask n then p n else true) && covers_below n p mask

unfoldable pub covers : Bits → Bits → Bool
unfolding covers_below
covers p mask = covers_below 64 p mask

-- The loop that adds the permissions of each role of the member.
unfoldable pub add_roles : List String → List Role → Bits → Bits
add_roles ids [] p = p
add_roles ids (r ∷ rs) p =
    add_roles ids rs (if has (λ id. r.id == id) ids then or_bits p r.permissions else p)

-- `apermissions &= ^deny; apermissions |= allow`.
abbrev pub override : Bits → Bits → Bits → Bits
override deny allow p = or_bits (clear_bits p deny) allow

abbrev pub override_by : Option PermissionOverwrite → Bits → Bits
override_by none p = p
override_by (some o) p = override o.deny o.allow p

abbrev pub is_role : OverwriteType → Bool
is_role role_overwrite = true
is_role member_overwrite = false

abbrev pub concerns_role : List String → PermissionOverwrite → Bool
concerns_role ids o = has (λ id. is_role o.type && (id == o.id)) ids

abbrev pub concerns_member : String → PermissionOverwrite → Bool
concerns_member user o = not (is_role o.type) && (o.id == user)

-- The loop over the overwrites of roles, with `denies` and `allows`.
unfoldable pub gather : List String → List PermissionOverwrite → Bits × Bits → Bits × Bits
gather ids [] acc = acc
gather ids (o ∷ os) acc =
    gather ids os
      (if concerns_role ids o then (or_bits acc.0 o.deny, or_bits acc.1 o.allow) else acc)

abbrev pub add_everyone : Option Role → Bits → Bits
add_everyone none p = p
add_everyone (some r) p = or_bits p r.permissions

-- The permissions before the overwrites of the channel.
unfoldable pub guild_permissions : Guild → List String → Bits
guild_permissions g ids =
    let everyone = add_everyone (find (λ r. r.id == g.id) (items g.roles)) no_bits in
    let p = add_roles ids (items g.roles) everyone in
    if covers p administrator then or_bits p all_permissions else p

unfoldable pub channel_permissions : Guild → Channel → String → List String → Bits → Bits
channel_permissions g c user ids p =
    let os = items c.permission_overwrites in
    let p₁ = override_by (find (λ o. g.id == o.id) os) p in
    let (denies, allows) = gather ids os (no_bits, no_bits) in
    let p₂ = override denies allows p₁ in
    let p₃ = override_by (find (concerns_member user) os) p₂ in
    if covers p₃ administrator then or_bits p₃ all_channel else p₃

unfoldable pub member_permissions : Guild → Channel → String → List String → Bits
member_permissions g c user ids =
    if user == g.owner_id
    then all_permissions
    else channel_permissions g c user ids (guild_permissions g ids)

-- `State.UserChannelPermissions`.
unfoldable pub cached_permissions : String → String → Action Bits
cached_permissions user channel_id = do
  c ← channel channel_id
  g ← gets (λ s. (s.channels c).guild_id) >>= guild
  m ← gets (λ s. (s.guilds g).id) >>= λ id. member id user
  gets (λ s. member_permissions (s.guilds g) (s.channels c) user (items (s.members m).roles))

-- `MessagePermissions`.
unfoldable pub message_permissions : Message → Action Bits
message_permissions msg = elim msg.author [
  | none ↦ fail message_incomplete
  | some author ↦ elim msg.member [
    | none ↦ fail message_incomplete
    | some m ↦ do
      c ← channel msg.channel_id
      g ← gets (λ s. (s.channels c).guild_id) >>= guild
      gets (λ s.
          member_permissions (s.guilds g) (s.channels c) (s.users author).id
            (items (s.members m).roles))
  ]
]

-- An object that a REST call returns is no part of the cache: its value, or the call's error.
pub data Fetched {ℓ} (A : Type ℓ) : Type ℓ where
  fetched : A → Fetched A
  request_failed : Fetched A

infixl 5 ◌then_fetch◌
abbrev ◌then_fetch◌ {ℓ κ} : {A : Type ℓ} {B : Type κ} → Fetched A → (A → Fetched B) → Fetched B
◌then_fetch◌ (fetched a) f = f a
◌then_fetch◌ request_failed f = request_failed

-- What a lookup in the cache found, or else the call.
abbrev pub cached_or {ℓ} : {A : Type ℓ} → Outcome Addr → (Addr → A) → Fetched A → Fetched A
cached_or (done p) read call = fetched (read p)
cached_or (fails e) read call = call
cached_or panics read call = call

abbrev pub or_fetch {ℓ} : {A : Type ℓ} → Outcome A → Fetched A → Fetched A
or_fetch (done a) rest = fetched a
or_fetch (fails e) rest = rest
or_fetch panics rest = rest

-- `Session.UserChannelPermissions`, over the three REST calls that it may make.
module _ (fetch_channel : String → Fetched Channel) (fetch_guild : String → Fetched Guild)
    (fetch_member : String → String → Fetched Member) where
  unfoldable pub fetched_permissions : String → String → State → Fetched Bits
  fetched_permissions user channel_id s =
      cached_or (channel channel_id s).0 s.channels (fetch_channel channel_id) then_fetch λ c.
      cached_or (guild c.guild_id s).0 s.guilds (fetch_guild c.guild_id) then_fetch λ g.
      if user == g.owner_id
      then fetched all_permissions
      else (cached_or (member g.id user s).0 s.members (fetch_member g.id user) then_fetch λ m.
          fetched (member_permissions g c user (items m.roles)))

  unfoldable pub user_channel_permissions : String → String → State → Fetched Bits
  user_channel_permissions user channel_id s =
      or_fetch (cached_permissions user channel_id s).0 (fetched_permissions user channel_id s)
