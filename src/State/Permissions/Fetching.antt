-- ===== src/State/Permissions/Fetching.antt =====
-- `Session.UserChannelPermissions` of restapi.go: the cache first, and what it lacks by REST.
use discordgo.Base.{String, ◌≡◌, refl, ap, ◌==◌, Option, none, some, inl, inr, Bool-cases, arith}
use discordgo.State.Types.{Addr, Bits, items, Member, Channel, Guild}
use discordgo.State.Store.{State, Outcome, done, fails, panics}
use discordgo.State.Guilds.{guild}
use discordgo.State.Members.{member}
use discordgo.State.Channels.{channel}
use discordgo.State.Permissions.{
  Fetched, fetched, member_permissions, cached_permissions, cached_or, or_fetch,
  fetched_permissions, user_channel_permissions,
}

-- The value that a map and the memory behind it give for a key, or else that of a call.
abbrev pub known : {A : Type 0} → Option Addr → (Addr → A) → Fetched A → Fetched A
known none read call = call
known (some p) read call = fetched (read p)

or_fetch_lem :
    {A : Type 0} (r : Outcome A) (rest : Fetched A) (x : Fetched A)
    → ((a : A) → r ≡ done a → fetched a ≡ x)
    → rest ≡ x
    → or_fetch r rest ≡ x
or_fetch_lem (done a) rest x first then_ = first a refl
or_fetch_lem (fails e) rest x first then_ = then_
or_fetch_lem panics rest x first then_ = then_

-- What the lookups in the cache come to, with the call behind them.
channel-known :
    {A : Type 0} (id : String) (s : State) (read : Addr → A) (call : Fetched A)
    → cached_or (channel id s).0 read call ≡ known (s.channel_map id) read call
unfolding channel
channel-known id s read call = ground arith

guild-known :
    {A : Type 0} (id : String) (s : State) (read : Addr → A) (call : Fetched A)
    → cached_or (guild id s).0 read call ≡ known (s.guild_map id) read call
unfolding guild
guild-known id s read call = ground arith

abbrev pub known_member : String → String → State → Fetched Member → Fetched Member
known_member guild_id user s call = elim (s.member_map guild_id) [
  | none ↦ call
  | some ms ↦ known (ms user) s.members call
]

member-known :
    (id user : String) (s : State) (call : Fetched Member)
    → cached_or (member id user s).0 s.members call ≡ known_member id user s call
unfolding member
member-known id user s call = ground arith

module _ (fetch_channel : String → Fetched Channel) (fetch_guild : String → Fetched Guild)
    (fetch_member : String → String → Fetched Member) (s : State) (user channel_id : String)
    (c : Channel) (g : Guild)
    (has_channel : known (s.channel_map channel_id) s.channels (fetch_channel channel_id)
      ≡ fetched c)
    (has_guild : known (s.guild_map c.guild_id) s.guilds (fetch_guild c.guild_id) ≡ fetched g) where
  fetched_permissions_lem :
      (m : Member)
      → known_member g.id user s (fetch_member g.id user) ≡ fetched m
      → fetched_permissions fetch_channel fetch_guild fetch_member user channel_id s
        ≡ fetched (member_permissions g c user (items m.roles))
  unfolding fetched_permissions member_permissions
  fetched_permissions_lem m has_member =
      rw (channel-known channel_id s s.channels (fetch_channel channel_id), has_channel)
        (rw (guild-known c.guild_id s s.guilds (fetch_guild c.guild_id), has_guild)
          (elim (Bool-cases (user == g.owner_id)) [
            | inl e ↦ rw (e, member_permissions)
            | inr e ↦ rw (e, member-known g.id user s (fetch_member g.id user), has_member)
          ]))

  -- What the cache alone answers is what the lookups give.
  cached_permissions_lem :
      (m : Member) (p : Bits)
      → known_member g.id user s (fetch_member g.id user) ≡ fetched m
      → (cached_permissions user channel_id s).0 ≡ done p
      → p ≡ member_permissions g c user (items m.roles)
  unfolding cached_permissions channel guild member
  cached_permissions_lem m p has_member h = ground arith

  -- With the channel, the guild and the member each taken from the cache, or else from its REST
  -- call, the result is what `memberPermissions` computes of them.
  pub user_channel_permissions_lem :
      (m : Member)
      → known_member g.id user s (fetch_member g.id user) ≡ fetched m
      → user_channel_permissions fetch_channel fetch_guild fetch_member user channel_id s
        ≡ fetched (member_permissions g c user (items m.roles))
  unfolding user_channel_permissions
  user_channel_permissions_lem m has_member =
      or_fetch_lem _ _ _ (λ p e. ap fetched (cached_permissions_lem m p has_member e))
        (fetched_permissions_lem m has_member)
