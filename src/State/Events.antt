-- ===== src/State/Events.antt =====
-- state.go: `onReady` and `OnInterface`, which keep the state up to date with the gateway.
use discordgo.Base.{
  ℕ, ◌+◌, ◌-◌, ◌%◌, ◌^◌, String, Bool, true, false, not, ◌==◌, Option, none, some, List, [], ◌∷◌,
  eqb, put, write, if◌then◌else◌,
}
use discordgo.State.Types.{Addr, Slice, items, Role, Emoji, VoiceState, ThreadMember, Ready}
use discordgo.State.Store.{
  State, Before, was_guild, was_member, was_role, was_channel, was_message, was_voice_state, Error,
  Action, done, pure, skip, gets, modify, attempt, error_of, finish, ◌>>=◌, ◌>>◌, set_user,
}
use discordgo.State.Guilds.{
  index_channels, create_member_map, guild, guild_add, guild_remove, presence_add,
}
use discordgo.State.Members.{
  update_guild, member_user, member, member_add, member_remove, role, role_add, role_remove,
  voice_state, voice_state_update,
}
use discordgo.State.Channels.{
  channel, channel_add, channel_remove, message, message_add, message_remove, message_remove_by_id,
}
use discordgo.State.Threads.{
  ThreadListSync, ThreadMembersUpdate, thread_list_sync, thread_members_update,
  thread_member_update,
}

-- `++` and `--` on an int.
abbrev pub increment : ℕ → ℕ
increment n = (n + 1) % 2 ^ 64

abbrev pub decrement : ℕ → ℕ
decrement n = (n + (2 ^ 64 - 1)) % 2 ^ 64

-- The loop of `onReady` over the guilds: the threads of a guild are not entered.
unfoldable pub index_guilds : List Addr → State → State
unfolding index_channels create_member_map
index_guilds [] s = s
index_guilds (g ∷ gs) s =
    let x = s.guilds g in
    let t = create_member_map x (record s { guild_map = put x.id g s.guild_map }) in
    index_guilds gs
      (record t { channel_map = index_channels t.channels (items x.channels) t.channel_map })

-- What is stored when the session does not track state.
abbrev bare : Ready → Ready
bare r = record {
  version = r.version;
  session_id = r.session_id;
  user = r.user;
  shard = r.shard;
  resume_gateway_url = "";
  application = r.application;
  guilds = [];
  private_channels = [];
}

unfoldable pub on_ready : Bool → Ready → State → State
unfolding index_guilds
on_ready false r s = record s { ready = bare r }
on_ready true r s =
    let t = index_guilds r.guilds (record s { ready = r }) in
    record t { channel_map = index_channels t.channels r.private_channels t.channel_map }

pub record MembersChunk : Type 0 where
  pub guild_id : String
  pub members : List Addr
  pub presences : List Addr

-- The events that state.go handles; any other event is `unhandled`.
pub data Event : Type 0 where
  ready : Ready → Event
  guild_create guild_update guild_delete : Addr → Event
  guild_member_add guild_member_update guild_member_remove : Addr → Event
  guild_members_chunk : MembersChunk → Event
  guild_role_create guild_role_update : String → Role → Event
  guild_role_delete : String → String → Event
  guild_emojis_update : String → Slice Emoji → Event
  guild_stickers_update : String → Slice ℕ → Event
  channel_create channel_update channel_delete : Addr → Event
  thread_create thread_update thread_delete : Addr → Event
  thread_member_updated : ThreadMember → Event
  thread_members_updated : ThreadMembersUpdate → Event
  thread_list_synced : ThreadListSync → Event
  message_create message_update message_delete : Addr → Event
  message_delete_bulk : String → List String → Event
  voice_state_updated : VoiceState → Event
  presence_update : String → Addr → Event
  unhandled : Event

abbrev pub when : Bool → Action (Unit {0}) → Action (Unit {0})
when true m = m
when false m = skip

-- `if err == nil { oldCopy := *old; t.Before… = &oldCopy }`
abbrev pub note_before {ℓ} : {A : Type ℓ} → (State → A → Before) → Option A → Action (Unit {0})
note_before copy none = skip
note_before copy (some a) = modify (λ s. record s { before = copy s a })

-- An error that a shadowed variable swallows.
abbrev pub ignore : Action (Unit {0}) → Action (Unit {0})
ignore m = error_of m >>= λ _. skip

-- The loops over a chunk: an error does not end them, and the last call's outcome is kept.
unfoldable pub chunk_members : String → List Addr → Option Error → Action (Option Error)
unfolding member_add
chunk_members id [] e = pure e
chunk_members id (p ∷ ps) e = do
  modify (λ s. record s { members = write p (record (s.members p) { guild_id = id }) s.members })
  e' ← error_of (member_add p)
  chunk_members id ps e'

unfoldable pub chunk_presences : String → List Addr → Option Error → Action (Option Error)
unfolding presence_add
chunk_presences id [] e = pure e
chunk_presences id (p ∷ ps) e = do e' ← error_of (presence_add id p); chunk_presences id ps e'

unfoldable pub remove_messages : String → List String → Action (Unit {0})
unfolding message_remove_by_id
remove_messages channel_id [] = skip
remove_messages channel_id (id ∷ ids) =
    ignore (message_remove_by_id channel_id id) >> remove_messages channel_id ids

-- `*Member` for a user that comes online and is not cached yet, at a new address.
unfoldable pub new_member : String → Addr → Action Addr
new_member guild_id user s =
    let p = s.next_member in
    (
      done p,
      record s {
        next_member = p + 1;
        members =
            write p
              (record {
                guild_id = guild_id;
                joined_at = 0;
                nick = "";
                user = user;
                roles = none;
                other = 0;
              })
              s.members;
      },
    )

-- The tail of the handler of `PresenceUpdate` under `TrackMembers`.
unfoldable pub online_member : String → Addr → Action (Unit {0})
unfolding member new_member member_add
online_member guild_id q = do
  user ← gets (λ s. (s.presences q).user)
  status ← gets (λ s. (s.presences q).status)
  if status == "offline" then skip else do
    old ← gets (λ s. (s.users user).id) >>= λ id. attempt (member guild_id id)
    m ← elim old [
      | none ↦ new_member guild_id user
      | some p ↦ do
        modify (λ s.
            let u = (s.members p).user in
            let name = (s.users user).username in
            if name == "" then s else set_user u (record (s.users u) { username = name }) s)
        pure p
    ]
    member_add m

abbrev pub look_up_member : Addr → Action (Option Addr)
look_up_member p = do
  id ← gets (λ s. (s.members p).guild_id)
  user ← gets (λ s. member_user s p)
  attempt (member id user)

-- The shared shape of the handlers that note the old channel; the error of what follows is lost.
abbrev pub change_channel : (Addr → Action (Unit {0})) → Addr → Action (Unit {0})
change_channel act p = do
  old ← gets (λ s. (s.channels p).id) >>= λ id. attempt (channel id)
  note_before (λ s c. was_channel (s.channels c)) old
  ignore (act p)

abbrev pub change_message : (Addr → Action (Unit {0})) → Addr → Action (Unit {0})
change_message act p = do
  channel_id ← gets (λ s. (s.messages p).channel_id)
  id ← gets (λ s. (s.messages p).id)
  old ← attempt (message channel_id id)
  note_before (λ s m. was_message (s.messages m)) old
  act p

abbrev pub tracks_messages : State → Bool
tracks_messages s = not (eqb s.max_message_count 0)

-- The handlers by event, where the session tracks state.
unfoldable pub dispatch : Event → Action (Unit {0})
unfolding chunk_members chunk_presences remove_messages online_member
dispatch (ready r) = skip
dispatch (guild_create p) = guild_add p
dispatch (guild_update p) = guild_add p
dispatch (guild_delete p) = do
  old ← gets (λ s. (s.guilds p).id) >>= λ id. attempt (guild id)
  note_before (λ s g. was_guild (s.guilds g)) old
  guild_remove p
dispatch (guild_member_add p) = do
  g ← gets (λ s. (s.members p).guild_id) >>= guild
  modify (update_guild g (λ x. record x { member_count = increment x.member_count }))
  track ← gets (λ s. s.track_members)
  when track (member_add p)
dispatch (guild_member_update p) = do
  track ← gets (λ s. s.track_members)
  when track
      do old ← look_up_member p; note_before (λ s m. was_member (s.members m)) old; member_add p
dispatch (guild_member_remove p) = do
  g ← gets (λ s. (s.members p).guild_id) >>= guild
  modify (update_guild g (λ x. record x { member_count = decrement x.member_count }))
  track ← gets (λ s. s.track_members)
  when track do
    old ← look_up_member p
    note_before (λ s m. was_member (s.members m)) old
    ignore (member_remove p)
dispatch (guild_members_chunk c) = do
  track ← gets (λ s. s.track_members)
  e ← if track then chunk_members c.guild_id c.members none else pure none
  track_presences ← gets (λ s. s.track_presences)
  e' ← if track_presences then chunk_presences c.guild_id c.presences e else pure e
  finish e'
dispatch (guild_role_create id new) = do
  track ← gets (λ s. s.track_roles)
  when track (role_add id new)
dispatch (guild_role_update id new) = do
  track ← gets (λ s. s.track_roles)
  when track do
    old ← attempt (role id new.id)
    note_before (λ s r. was_role r) old
    ignore (role_add id new)
dispatch (guild_role_delete id role_id) = do
  track ← gets (λ s. s.track_roles)
  when track do
    old ← attempt (role id role_id)
    note_before (λ s r. was_role r) old
    ignore (role_remove id role_id)
dispatch (guild_emojis_update id new) = do
  track ← gets (λ s. s.track_emojis)
  when track do g ← guild id; modify (update_guild g (λ x. record x { emojis = new }))
dispatch (guild_stickers_update id new) = do
  track ← gets (λ s. s.track_stickers)
  when track do g ← guild id; modify (update_guild g (λ x. record x { stickers = new }))
dispatch (channel_create p) = do track ← gets (λ s. s.track_channels); when track (channel_add p)
dispatch (channel_update p) = do
  track ← gets (λ s. s.track_channels)
  when track (change_channel channel_add p)
dispatch (channel_delete p) = do
  track ← gets (λ s. s.track_channels)
  when track (change_channel channel_remove p)
dispatch (thread_create p) = do track ← gets (λ s. s.track_threads); when track (channel_add p)
dispatch (thread_update p) = do
  track ← gets (λ s. s.track_threads)
  when track (change_channel channel_add p)
dispatch (thread_delete p) = do
  track ← gets (λ s. s.track_threads)
  when track (change_channel channel_remove p)
dispatch (thread_member_updated m) = do
  track ← gets (λ s. s.track_threads)
  when track (thread_member_update m)
dispatch (thread_members_updated tmu) = do
  track ← gets (λ s. s.track_thread_members)
  when track (thread_members_update tmu)
dispatch (thread_list_synced tls) = do
  track ← gets (λ s. s.track_threads)
  when track (thread_list_sync tls)
dispatch (message_create p) = do track ← gets tracks_messages; when track (message_add p)
dispatch (message_update p) = do
  track ← gets tracks_messages
  when track (change_message message_add p)
dispatch (message_delete p) = do
  track ← gets tracks_messages
  when track (change_message message_remove p)
dispatch (message_delete_bulk channel_id ids) = do
  track ← gets tracks_messages
  when track (remove_messages channel_id ids)
dispatch (voice_state_updated v) = do
  track ← gets (λ s. s.track_voice)
  when track do
    old ← attempt (voice_state v.guild_id v.user_id)
    note_before (λ s o. was_voice_state o) old
    voice_state_update v
dispatch (presence_update id q) = do
  track_presences ← gets (λ s. s.track_presences)
  when track_presences (ignore (presence_add id q))
  track ← gets (λ s. s.track_members)
  when track (online_member id q)
dispatch unhandled = skip

unfoldable pub on_interface : Bool → Event → Action (Unit {0})
unfolding on_ready dispatch
on_interface enabled (ready r) = modify (on_ready enabled r)
on_interface true e = dispatch e
on_interface false e = skip
