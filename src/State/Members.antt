-- ===== src/State/Members.antt =====
-- state.go: members, roles, emojis and voice states of a guild.
use discordgo.Base.{
  String, ◌==◌, none, some, List, [], ◌∷◌, ◌++◌, put, delete, eqb, if◌then◌else◌, find, has, Map,
  no_keys, replace_or_append, remove_first,
}
use discordgo.State.Types.{Addr, items, Member, Guild, Role, Emoji, VoiceState}
use discordgo.State.Store.{
  State, state_not_found, Action, fail, skip, gets, modify, found, ◌>>=◌, ◌>>◌, set_member,
  set_guild,
}
use discordgo.State.Guilds.{guild}

abbrev pub member_user : State → Addr → String
member_user s p = (s.users (s.members p).user).id

abbrev pub update_guild : Addr → (Guild → Guild) → State → State
update_guild g f s = set_guild g (f (s.guilds g)) s

-- The branches of `memberAdd`.
unfoldable pub append_member : Addr → Addr → State → State
append_member g p s =
    let id = (s.members p).guild_id in
    let table : Map Addr = elim (s.member_map id) [ some ms ↦ ms | none ↦ no_keys ] in
    update_guild g (λ x. record x { members = some (items x.members ++ p ∷ []) })
      (record s { member_map = put id (put (member_user s p) p table) s.member_map })

unfoldable pub replace_member : Addr → Addr → State → State
replace_member q p s =
    let new = s.members p in
    let old = s.members q in
    let merged : Member = record new {
      joined_at = if eqb new.joined_at 0 then old.joined_at else new.joined_at;
    } in
    set_member q merged (set_member p merged s)

-- `memberAdd`; `MemberAdd` is the same under the lock.
unfoldable pub member_add : Addr → Action (Unit {0})
unfolding append_member replace_member
member_add p = do
  g ← gets (λ s. s.guild_map (s.members p).guild_id) >>= found
  table ← gets (λ s. s.member_map (s.members p).guild_id) >>= found
  here ← gets (λ s. table (member_user s p))
  modify (elim here [ none ↦ append_member g p | some q ↦ replace_member q p ])

unfoldable pub member_remove : Addr → Action (Unit {0})
unfolding guild
member_remove p = do
  id ← gets (λ s. (s.members p).guild_id)
  user ← gets (λ s. member_user s p)
  g ← guild id
  table ← gets (λ s. s.member_map id) >>= found
  _ ← found (table user)
  modify (λ s. record s { member_map = put id (delete user table) s.member_map })
  same ← gets (λ s q. member_user s q == user)
  ms ← gets (λ s. items (s.guilds g).members)
  if has same ms
      then modify (update_guild g (λ x. record x { members = some (remove_first same ms) }))
      else fail state_not_found

unfoldable pub member : String → String → Action Addr
member guild_id user_id = do
  table ← gets (λ s. s.member_map guild_id) >>= found
  found (table user_id)

unfoldable pub role_add : String → Role → Action (Unit {0})
unfolding guild
role_add guild_id role = do
  g ← guild guild_id
  modify (
      update_guild g (λ x. record x {
        roles = some (replace_or_append (λ r. r.id == role.id) role (items x.roles));
      }))

unfoldable pub role_remove : String → String → Action (Unit {0})
unfolding guild
role_remove guild_id role_id = do
  g ← guild guild_id
  rs ← gets (λ s. items (s.guilds g).roles)
  if has (λ r. r.id == role_id) rs
      then modify
          (update_guild g (λ x. record x { roles = some (remove_first (λ r. r.id == role_id) rs) }))
      else fail state_not_found

unfoldable pub role : String → String → Action Role
unfolding guild
role guild_id role_id = do
  g ← guild guild_id
  gets (λ s. find (λ r. r.id == role_id) (items (s.guilds g).roles)) >>= found

unfoldable pub emoji : String → String → Action Emoji
unfolding guild
emoji guild_id emoji_id = do
  g ← guild guild_id
  gets (λ s. find (λ e. e.id == emoji_id) (items (s.guilds g).emojis)) >>= found

unfoldable pub emoji_add : String → Emoji → Action (Unit {0})
unfolding guild
emoji_add guild_id new = do
  g ← guild guild_id
  modify (
      update_guild g (λ x. record x {
        emojis = some (replace_or_append (λ e. e.id == new.id) new (items x.emojis));
      }))

unfoldable pub emojis_add : String → List Emoji → Action (Unit {0})
unfolding emoji_add
emojis_add guild_id [] = skip
emojis_add guild_id (e ∷ es) = emoji_add guild_id e >> emojis_add guild_id es

unfoldable pub voice_state_update : VoiceState → Action (Unit {0})
unfolding guild
voice_state_update update = do
  g ← guild update.guild_id
  modify (
      update_guild g (λ x.
        let same = λ (v : VoiceState). v.user_id == update.user_id in
        if update.channel_id == ""
        then (if has same (items x.voice_states)
            then record x { voice_states = some (remove_first same (items x.voice_states)) }
            else x)
        else record x {
          voice_states = some (replace_or_append same update (items x.voice_states));
        }))

unfoldable pub voice_state : String → String → Action VoiceState
unfolding guild
voice_state guild_id user_id = do
  g ← guild guild_id
  gets (λ s. find (λ v. v.user_id == user_id) (items (s.guilds g).voice_states)) >>= found
