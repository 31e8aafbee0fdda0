-- ===== src/State/Channels.antt =====
-- state.go: channels and messages.
use discordgo.Base.{
  ℕ, ◌-◌, String, Bool, ◌==◌, ◌||◌, none, some, List, [], ◌∷◌, ◌++◌, put, delete, eqb, ltb,
  if◌then◌else◌, find, has, remove_first, length, drop,
}
use discordgo.State.Types.{Addr, Slice, items, Message, Channel, Guild}
use discordgo.State.Store.{
  State, state_not_found, Action, fail, gets, modify, found, ◌>>=◌, ◌>>◌, set_message, set_channel,
}
use discordgo.State.Guilds.{guild, or_old}
use discordgo.State.Members.{update_guild}

-- `ChannelTypeDM` and `ChannelTypeGroupDM`; the three types of threads.
abbrev pub is_private : Channel → Bool
is_private c = eqb c.type 1 || eqb c.type 3

unfoldable pub is_thread : Channel → Bool
is_thread c = eqb c.type 11 || (eqb c.type 12 || eqb c.type 10)

unfoldable pub channel : String → Action Addr
channel id s = found (s.channel_map id) s

unfoldable pub merge_channel : Channel → Channel → Channel
merge_channel new old = record new {
  messages = or_old new.messages old.messages;
  permission_overwrites = or_old new.permission_overwrites old.permission_overwrites;
  thread_metadata = elim new.thread_metadata [ some t ↦ some t | none ↦ old.thread_metadata ];
}

unfoldable pub list_channel : Addr → Channel → Guild → Guild
unfolding is_thread
list_channel p c g =
    if is_thread c
    then record g { threads = some (items g.threads ++ p ∷ []) }
    else record g { channels = some (items g.channels ++ p ∷ []) }

abbrev pub map_channel : Addr → Channel → State → State
map_channel p c s = record s { channel_map = put c.id p s.channel_map }

-- A channel that the map does not hold yet.
unfoldable pub new_channel : Addr → Channel → Action (Unit {0})
unfolding list_channel
new_channel p c =
    if is_private c
    then modify (λ s. map_channel p c (record s {
      ready = record s.ready { private_channels = s.ready.private_channels ++ p ∷ [] };
    }))
    else do
      g ← gets (λ s. s.guild_map c.guild_id) >>= found
      modify (λ s. map_channel p c (update_guild g (list_channel p c) s))

unfoldable pub channel_add : Addr → Action (Unit {0})
unfolding merge_channel new_channel
channel_add p s =
    let c = s.channels p in
    elim (s.channel_map c.id) [
      | some q ↦
          let merged = merge_channel c (s.channels q) in
          modify (λ t. set_channel q merged (set_channel p merged t)) s
      | none ↦ new_channel p c s
    ]

abbrev pub without : State → String → List Addr → List Addr
without s id = remove_first (λ q. (s.channels q).id == id)

-- `append(s[:i], s[i+1:]...)` where the loop finds an entry; a nil slice has none.
abbrev pub without? : State → String → Slice Addr → Slice Addr
without? s id none = none
without? s id (some qs) = some (without s id qs)

unfoldable pub unlist_channel : State → Channel → Guild → Guild
unfolding is_thread
unlist_channel s c g =
    if is_thread c
    then record g { threads = without? s c.id g.threads }
    else record g { channels = without? s c.id g.channels }

unfoldable pub channel_remove : Addr → Action (Unit {0})
unfolding channel guild unlist_channel
channel_remove p = do
  c ← gets (λ s. s.channels p)
  _ ← channel c.id
  if is_private c
      then modify (λ s. record s {
        ready = record s.ready { private_channels = without s c.id s.ready.private_channels };
        channel_map = delete c.id s.channel_map;
      })
      else do
        g ← guild c.guild_id
        modify (λ s. update_guild g (unlist_channel s c) s)
        modify (λ s. record s { channel_map = delete c.id s.channel_map })

-- The new contents of a message that the state holds already.
unfoldable pub merge_message : Message → Message → Message
merge_message new old = record old {
  content = if new.content == "" then old.content else new.content;
  edited_timestamp = elim new.edited_timestamp [ some t ↦ some t | none ↦ old.edited_timestamp ];
  mentions = or_old new.mentions old.mentions;
  embeds = or_old new.embeds old.embeds;
  attachments = or_old new.attachments old.attachments;
  timestamp = if eqb new.timestamp 0 then old.timestamp else new.timestamp;
  author = elim new.author [ some a ↦ some a | none ↦ old.author ];
  components = or_old new.components old.components;
}

abbrev pub message_id : State → Addr → String
message_id s p = (s.messages p).id

-- `ms[len(ms)-max:]` where `ms` is longer than `max`.
unfoldable pub newest : {A : Type 0} → ℕ → List A → List A
newest max ms = if ltb max (length ms) then drop (length ms - max) ms else ms

abbrev pub update_channel : Addr → (Channel → Channel) → State → State
update_channel c f s = set_channel c (f (s.channels c)) s

unfoldable pub message_add : Addr → Action (Unit {0})
unfolding channel merge_message newest
message_add p = do
  new ← gets (λ s. s.messages p)
  c ← channel new.channel_id
  here ← gets (λ s. find (λ q. message_id s q == new.id) (items (s.channels c).messages))
  modify (elim here [
    | some q ↦ λ s. set_message q (merge_message new (s.messages q)) s
    | none ↦ λ s.
        update_channel c
          (λ x. record x {
            messages = some (newest s.max_message_count (items x.messages ++ p ∷ []));
          })
          s
  ])

unfoldable pub message_remove_by_id : String → String → Action (Unit {0})
unfolding channel
message_remove_by_id channel_id id = do
  c ← channel channel_id
  same ← gets (λ s q. message_id s q == id)
  ms ← gets (λ s. items (s.channels c).messages)
  if has same ms
      then modify (update_channel c (λ x. record x { messages = some (remove_first same ms) }))
      else fail state_not_found

unfoldable pub message_remove : Addr → Action (Unit {0})
unfolding message_remove_by_id
message_remove p s = message_remove_by_id (s.messages p).channel_id (s.messages p).id s

unfoldable pub message : String → String → Action Addr
unfolding channel
message channel_id id = do
  c ← channel channel_id
  gets (λ s. find (λ q. message_id s q == id) (items (s.channels c).messages)) >>= found
