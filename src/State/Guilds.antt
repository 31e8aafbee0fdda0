-- ===== src/State/Guilds.antt =====
-- state.go: guilds and presences.
use discordgo.Base.{
  String, ◌==◌, none, some, List, [], ◌∷◌, ◌++◌, Map, no_keys, put, delete, eqb, if◌then◌else◌,
  find, has, remove_first,
}
use discordgo.State.Types.{Addr, Slice, items, User, Member, Channel, Guild}
use discordgo.State.Store.{
  State, state_not_found, Action, fail, gets, modify, found, ◌>>=◌, set_user, set_presence,
  set_guild,
}

-- The loops that enter a list of channels into a channel map, and members into a member map.
unfoldable pub index_channels : (Addr → Channel) → List Addr → Map Addr → Map Addr
index_channels channels [] m = m
index_channels channels (c ∷ cs) m = index_channels channels cs (put (channels c).id c m)

unfoldable pub index_members : (Addr → User) → (Addr → Member) → List Addr → Map Addr → Map Addr
index_members users members [] m = m
index_members users members (p ∷ ps) m =
    index_members users members ps (put (users (members p).user).id p m)

unfoldable pub create_member_map : Guild → State → State
unfolding index_members
create_member_map guild s = record s {
  member_map =
      put guild.id (index_members s.users s.members (items guild.members) no_keys) s.member_map;
}

-- A nil slice of the new guild is taken from the old one.
abbrev pub or_old {ℓ} : {A : Type ℓ} → Slice A → Slice A → Slice A
or_old none old = old
or_old (some xs) old = some xs

unfoldable pub preserve : Guild → Guild → Guild
preserve guild g = record guild {
  member_count = if eqb guild.member_count 0 then g.member_count else guild.member_count;
  roles = or_old guild.roles g.roles;
  emojis = or_old guild.emojis g.emojis;
  members = or_old guild.members g.members;
  presences = or_old guild.presences g.presences;
  channels = or_old guild.channels g.channels;
  threads = or_old guild.threads g.threads;
  voice_states = or_old guild.voice_states g.voice_states;
}

unfoldable pub ensure_members : Guild → State → State
unfolding create_member_map
ensure_members guild s = elim guild.members [
  | some _ ↦ create_member_map guild s
  | none ↦ elim (s.member_map guild.id) [
    | some _ ↦ s
    | none ↦ record s { member_map = put guild.id no_keys s.member_map }
  ]
]

-- The end of `GuildAdd`, where the maps of channels and members are up to date.
unfoldable pub enter_guild : Addr → Guild → State → State
unfolding preserve
enter_guild p guild s = elim (s.guild_map guild.id) [
  | some q ↦ let merged = preserve guild (s.guilds q) in set_guild q merged (set_guild p merged s)
  | none ↦ record s {
    ready = record s.ready { guilds = s.ready.guilds ++ p ∷ [] };
    guild_map = put guild.id p s.guild_map;
  }
]

unfoldable pub guild_add : Addr → Action (Unit {0})
unfolding index_channels ensure_members enter_guild
guild_add p s =
    let guild = s.guilds p in
    let channel_map =
      index_channels s.channels (items guild.threads)
        (index_channels s.channels (items guild.channels) s.channel_map) in
    modify (enter_guild p guild) (ensure_members guild (record s { channel_map = channel_map }))

unfoldable pub guild : String → Action Addr
guild id s = found (s.guild_map id) s

unfoldable pub guild_remove : Addr → Action (Unit {0})
unfolding guild
guild_remove p = do
  id ← gets (λ s. (s.guilds p).id)
  _ ← guild id
  modify (λ s. record s {
    ready = record s.ready { guilds = remove_first (λ g. (s.guilds g).id == id) s.ready.guilds };
    guild_map = delete id s.guild_map;
  })

abbrev pub presence_user : State → Addr → String
presence_user s p = (s.users (s.presences p).user).id

-- `if new != "" { old = new }`
abbrev pub given : String → String → String
given new old = if new == "" then old else new

unfoldable pub merge_presence : Addr → Addr → State → State
merge_presence p q s =
    let old = s.presences p in
    let new = s.presences q in
    let status = new.client_status in
    let account = s.users new.user in
    let kept = s.users old.user in
    set_user old.user
      (record kept {
        id = account.id;
        avatar = given account.avatar kept.avatar;
        discriminator = given account.discriminator kept.discriminator;
        email = given account.email kept.email;
        token = given account.token kept.token;
        username = given account.username kept.username;
      })
      (set_presence p
        (record old {
          activities = new.activities;
          status = given new.status old.status;
          client_status = record {
            desktop = given status.desktop old.client_status.desktop;
            mobile = given status.mobile old.client_status.mobile;
            web = given status.web old.client_status.web;
          };
        })
        s)

abbrev pub append_presence : Addr → Addr → State → State
append_presence g q s =
    set_guild g (record (s.guilds g) { presences = some (items (s.guilds g).presences ++ q ∷ []) })
      s

-- `presenceAdd`; `PresenceAdd` is the same under the lock.
unfoldable pub presence_add : String → Addr → Action (Unit {0})
unfolding merge_presence
presence_add guild_id q = do
  g ← gets (λ s. s.guild_map guild_id) >>= found
  here ←
      gets (λ s. find (λ p. presence_user s p == presence_user s q) (items (s.guilds g).presences))
  modify (elim here [ some p ↦ merge_presence p q | none ↦ append_presence g q ])

unfoldable pub presence_remove : String → Addr → Action (Unit {0})
unfolding guild
presence_remove guild_id q = do
  g ← guild guild_id
  same ← gets (λ s p. presence_user s p == presence_user s q)
  ps ← gets (λ s. items (s.guilds g).presences)
  if has same ps
      then modify
          (λ s. set_guild g (record (s.guilds g) { presences = some (remove_first same ps) }) s)
      else fail state_not_found

unfoldable pub presence : String → String → Action Addr
unfolding guild
presence guild_id user_id = do
  g ← guild guild_id
  gets (λ s. find (λ p. presence_user s p == user_id) (items (s.guilds g).presences)) >>= found
