-- ===== src/State/Keyed/Events.antt =====
-- Every event keeps the maps of the state keyed (`OnInterface` of state.go).
use discordgo.Base.{
  ℕ, ◌<◌, ◌≤◌, ◌+◌, ◌≡◌, refl, String, Bool, true, false, Option, none, some, Map, on_if, ◌==◌,
  arith, if◌then◌else◌,
}
use native.Mathlib.Nat.{le_refl, le_trans}
use discordgo.State.Types.{Addr, items, Guild}
use discordgo.State.Store.{
  State, was_member, Action, attempt, pure, gets, found, modify, ◌>>=◌, ◌>>◌,
}
use discordgo.State.Guilds.{guild, guild_remove, presence_add}
use discordgo.State.Members.{
  update_guild, member_user, member, member_add, member_remove, role, role_add, role_remove,
  voice_state, voice_state_update,
}
use discordgo.State.Channels.{
  channel, channel_add, channel_remove, message, message_add, message_remove,
}
use discordgo.State.Events.{
  increment, decrement, tracks_messages, Event, ready, guild_create, guild_update, guild_delete,
  guild_member_add, guild_member_update, guild_member_remove, guild_members_chunk,
  guild_role_create, guild_role_update, guild_role_delete, guild_emojis_update,
  guild_stickers_update, channel_create, channel_update, channel_delete, thread_create,
  thread_update, thread_delete, thread_member_updated, thread_members_updated, thread_list_synced,
  message_create, message_update, message_delete, message_delete_bulk, voice_state_updated,
  presence_update, unhandled, when, note_before, ignore, chunk_members, chunk_presences, new_member,
  online_member, look_up_member, change_channel, change_message, dispatch, on_interface,
}
use discordgo.State.Keyed.Members.{
  member_add-Keyed, member_remove-Keyed, role_add-Keyed, role_remove-Keyed,
  voice_state_update-Keyed,
}
use discordgo.State.Keyed.Channels.{
  channel_add-Keyed, channel_remove-Keyed, message_add-Keyed, message_remove-Keyed, channel-Keeps,
}
use discordgo.State.Keyed.Threads.{
  Added, thread_list_sync-Keyed, thread_members_update-Keyed, thread_member_update-Keyed,
}
use discordgo.State.Keeps.{Keeps, bind-Keeps, finish-Keeps, if-Keeps}
use discordgo.State.Keyed.{Keyed, set_guild-Keyed, set_user-Keyed, Allocated}
use discordgo.State.Keyed.Guilds.{
  guild_add-Keyed, guild-Keeps, guild_remove-Keyed, presence_add-Keyed,
}
use discordgo.State.Keyed.Shared.{
  AllocatedGuilds, on_ready-Keyed, when-Keeps, ignore-Keeps, noted-Keeps, member-Keeps, role-Keeps,
  voice_state-Keeps, message-Keeps, chunk_members-Keyed, chunk_presences-Keyed,
  remove_messages-Keyed,
}

-- A new member stands at an address that no table holds.
new_member-Keyed :
    (n : ℕ) (id : String) (user : Addr) (s : State)
    → Keyed n s
    → Keyed (s.next_member + 1) (new_member id user s).1
unfolding new_member
new_member-Keyed n id user s v = record {
  grown = omega arith;
  guilds_keyed = v.guilds_keyed;
  channels_keyed = v.channels_keyed;
  members_keyed = λ k u ms p h i.
      ground (arith, v.members_allocated k u ms p h i, v.members_keyed k u ms p h i);
  members_allocated = λ k u ms p h i. omega (arith, v.members_allocated k u ms p h i);
}

weaken : {m : ℕ} {s : State} (n : ℕ) → n ≤ m → Keyed m s → Keyed n s
weaken n h v = record {
  grown = le_trans h v.grown;
  guilds_keyed = v.guilds_keyed;
  channels_keyed = v.channels_keyed;
  members_keyed = v.members_keyed;
  members_allocated = v.members_allocated;
}

raise : {n : ℕ} {s : State} → Keyed n s → Keyed s.next_member s
raise {n} {s} v = record {
  grown = le_refl s.next_member;
  guilds_keyed = v.guilds_keyed;
  channels_keyed = v.channels_keyed;
  members_keyed = v.members_keyed;
  members_allocated = v.members_allocated;
}

-- `m, err := s.Member(…)`: the state is as before, and a member that is found stands in a table.
attempt_found-cases :
    (P : State → Type 0) (o : Option Addr) (f : Option Addr → Action (Unit {0})) (s : State)
    → P (f none s).1
    → ((p : Addr) → o ≡ some p → P (f (some p) s).1)
    → P ((attempt (found o) >>= f) s).1
attempt_found-cases P none f s h k = h
attempt_found-cases P (some p) f s h k = k p refl

look_up-cases :
    (P : State → Type 0) (o : Option (Map Addr)) (u : String) (f : Option Addr → Action (Unit {0}))
    (s : State)
    → P (f none s).1
    → ((ms : Map Addr) (p : Addr) → o ≡ some ms → ms u ≡ some p → P (f (some p) s).1)
    → P ((attempt (found o >>= λ ms. found (ms u)) >>= f) s).1
look_up-cases P none u f s h k = h
look_up-cases P (some ms) u f s h k = attempt_found-cases P (ms u) f s h (λ p e. k ms p refl e)

online_member-Keyed : (n : ℕ) (id : String) (q : Addr) → Keeps (Keyed n) (online_member id q)
unfolding online_member member
online_member-Keyed n id q s v =
    on_if (λ (m : Action (Unit {0})). Keyed n (m s).1) ((s.presences q).status == "offline") _ _
      (λ _. v)
      (λ _.
        let user = (s.presences q).user in
        look_up-cases (Keyed n) (s.member_map id) (s.users user).id _ s
          (weaken n (omega (arith, v.grown)) (
            member_add-Keyed (s.next_member + 1) s.next_member (omega arith) _
              (new_member-Keyed n id user s v)))
          (λ ms p h i. weaken n v.grown (
            member_add-Keyed s.next_member p (v.members_allocated _ _ ms p h i) _ (
              on_if (Keyed s.next_member) ((s.users user).username == "") _ _ (λ _. raise v)
                (λ _. set_user-Keyed (s.members p).user _ refl (raise v))))))

-- What an event brings: the members that it points to have been allocated.
abbrev pub Fits : ℕ → State → Event → Type 0
Fits n s (ready r) = AllocatedGuilds n s.guilds r.guilds
Fits n s (guild_create p) = Allocated n (items (s.guilds p).members)
Fits n s (guild_update p) = Allocated n (items (s.guilds p).members)
Fits n s (guild_member_add p) = p < n
Fits n s (guild_member_update p) = p < n
Fits n s (guild_members_chunk c) = Allocated n c.members
Fits n s (thread_members_updated tmu) = Added n tmu.added_members
Fits n s e = Unit

change_channel-Keyed :
    (n : ℕ) (act : Addr → Action (Unit {0})) (p : Addr)
    → Keeps (Keyed n) (act p)
    → Keeps (Keyed n) (change_channel act p)
change_channel-Keyed n act p k s v =
    noted-Keeps n (channel (s.channels p).id) _ (ignore (act p))
      (channel-Keeps (Keyed n) (s.channels p).id) (ignore-Keeps (Keyed n) (act p) k) s v

change_message-Keyed :
    (n : ℕ) (act : Addr → Action (Unit {0})) (p : Addr)
    → Keeps (Keyed n) (act p)
    → Keeps (Keyed n) (change_message act p)
change_message-Keyed n act p k s v =
    let m = s.messages p in
    noted-Keeps n (message m.channel_id m.id) _ (act p) (message-Keeps (Keyed n) m.channel_id m.id)
      k s v

-- The handlers that note the old member first.
look_up-Keyed :
    (n : ℕ) (p : Addr) (rest : Action (Unit {0}))
    → Keeps (Keyed n) rest
    → Keeps
        (Keyed n)
        (look_up_member p >>= λ old. note_before (λ s m. was_member (s.members m)) old >> rest)
look_up-Keyed n p rest k s v =
    noted-Keeps n (member (s.members p).guild_id (member_user s p)) _ rest
      (member-Keeps (Keyed n) (s.members p).guild_id (member_user s p)) k s v

-- A handler of a member event: the member count of the guild, and then the cache.
counted-Keyed :
    (n : ℕ) (p : Addr) (count : ℕ → ℕ) (rest : Action (Unit {0}))
    → Keeps (Keyed n) rest
    → Keeps (Keyed n) do
      g ← gets (λ s. (s.members p).guild_id) >>= guild
      modify (update_guild g (λ x. record x { member_count = count x.member_count }))
      track ← gets (λ s. s.track_members)
      when track rest
counted-Keyed n p count rest k s v =
    bind-Keeps (Keyed n) (guild (s.members p).guild_id) _
      (guild-Keeps (Keyed n) (s.members p).guild_id)
      (λ g t w. when-Keeps (Keyed n) t.track_members rest k _ (set_guild-Keyed g _ refl w)) s v

-- A handler that sets a slice of a guild.
set_slice-Keyed :
    (n : ℕ) (id : String) (f : Guild → Guild)
    → ((x : Guild) → (f x).id ≡ x.id)
    → Keeps (Keyed n) (guild id >>= λ g. modify (update_guild g f))
set_slice-Keyed n id f same s v =
    bind-Keeps (Keyed n) (guild id) _ (guild-Keeps (Keyed n) id)
      (λ g t w. set_guild-Keyed g _ (same (t.guilds g)) w) s v

-- Every handler keeps the maps keyed, whatever its outcome.
dispatch-Keyed : (n : ℕ) (e : Event) (s : State) → Fits n s e → Keyed n s → Keyed n (dispatch e s).1
unfolding dispatch
dispatch-Keyed n (ready r) s a v = v
dispatch-Keyed n (guild_create p) s a v = guild_add-Keyed n p s a v
dispatch-Keyed n (guild_update p) s a v = guild_add-Keyed n p s a v
dispatch-Keyed n (guild_delete p) s a v =
    noted-Keeps n (guild (s.guilds p).id) _ (guild_remove p) (guild-Keeps (Keyed n) (s.guilds p).id)
      (guild_remove-Keyed n p) s v
dispatch-Keyed n (guild_member_add p) s a v =
    counted-Keyed n p increment (member_add p) (member_add-Keyed n p a) s v
dispatch-Keyed n (guild_member_update p) s a v =
    when-Keeps (Keyed n) s.track_members _
      (look_up-Keyed n p (member_add p) (member_add-Keyed n p a)) s v
dispatch-Keyed n (guild_member_remove p) s a v =
    counted-Keyed n p decrement _
      (look_up-Keyed n p (ignore (member_remove p))
        (ignore-Keeps (Keyed n) (member_remove p) (member_remove-Keyed n p)))
      s v
dispatch-Keyed n (guild_members_chunk c) s a v =
    bind-Keeps (Keyed n)
      (if s.track_members then chunk_members c.guild_id c.members none else pure none) _
      (if-Keeps (Keyed n) s.track_members _ _ (chunk_members-Keyed n c.guild_id c.members none a)
        (λ t w. w))
      (λ e t w.
        bind-Keeps (Keyed n)
          (if t.track_presences then chunk_presences c.guild_id c.presences e else pure e) _
          (if-Keeps (Keyed n) t.track_presences _ _
            (chunk_presences-Keyed n c.guild_id c.presences e) (λ t w. w))
          (λ e'. finish-Keeps (Keyed n) e') t w)
      s v
dispatch-Keyed n (guild_role_create id r) s a v =
    when-Keeps (Keyed n) s.track_roles (role_add id r) (role_add-Keyed n id r) s v
dispatch-Keyed n (guild_role_update id r) s a v =
    when-Keeps (Keyed n) s.track_roles _
      (noted-Keeps n (role id r.id) _ (ignore (role_add id r)) (role-Keeps (Keyed n) id r.id)
        (ignore-Keeps (Keyed n) (role_add id r) (role_add-Keyed n id r)))
      s v
dispatch-Keyed n (guild_role_delete id k) s a v =
    when-Keeps (Keyed n) s.track_roles _
      (noted-Keeps n (role id k) _ (ignore (role_remove id k)) (role-Keeps (Keyed n) id k)
        (ignore-Keeps (Keyed n) (role_remove id k) (role_remove-Keyed n id k)))
      s v
dispatch-Keyed n (guild_emojis_update id new) s a v =
    when-Keeps (Keyed n) s.track_emojis _
      (set_slice-Keyed n id (λ x. record x { emojis = new }) (λ x. refl)) s v
dispatch-Keyed n (guild_stickers_update id new) s a v =
    when-Keeps (Keyed n) s.track_stickers _
      (set_slice-Keyed n id (λ x. record x { stickers = new }) (λ x. refl)) s v
dispatch-Keyed n (channel_create p) s a v =
    when-Keeps (Keyed n) s.track_channels _ (channel_add-Keyed n p) s v
dispatch-Keyed n (channel_update p) s a v =
    when-Keeps (Keyed n) s.track_channels _
      (change_channel-Keyed n channel_add p (channel_add-Keyed n p)) s v
dispatch-Keyed n (channel_delete p) s a v =
    when-Keeps (Keyed n) s.track_channels _
      (change_channel-Keyed n channel_remove p (channel_remove-Keyed n p)) s v
dispatch-Keyed n (thread_create p) s a v =
    when-Keeps (Keyed n) s.track_threads _ (channel_add-Keyed n p) s v
dispatch-Keyed n (thread_update p) s a v =
    when-Keeps (Keyed n) s.track_threads _
      (change_channel-Keyed n channel_add p (channel_add-Keyed n p)) s v
dispatch-Keyed n (thread_delete p) s a v =
    when-Keeps (Keyed n) s.track_threads _
      (change_channel-Keyed n channel_remove p (channel_remove-Keyed n p)) s v
dispatch-Keyed n (thread_member_updated m) s a v =
    when-Keeps (Keyed n) s.track_threads _ (thread_member_update-Keyed n m) s v
dispatch-Keyed n (thread_members_updated tmu) s a v =
    when-Keeps (Keyed n) s.track_thread_members _ (thread_members_update-Keyed n tmu a) s v
dispatch-Keyed n (thread_list_synced tls) s a v =
    when-Keeps (Keyed n) s.track_threads _ (thread_list_sync-Keyed n tls) s v
dispatch-Keyed n (message_create p) s a v =
    when-Keeps (Keyed n) (tracks_messages s) _ (message_add-Keyed n p) s v
dispatch-Keyed n (message_update p) s a v =
    when-Keeps (Keyed n) (tracks_messages s) _
      (change_message-Keyed n message_add p (message_add-Keyed n p)) s v
dispatch-Keyed n (message_delete p) s a v =
    when-Keeps (Keyed n) (tracks_messages s) _
      (change_message-Keyed n message_remove p (message_remove-Keyed n p)) s v
dispatch-Keyed n (message_delete_bulk channel_id ids) s a v =
    when-Keeps (Keyed n) (tracks_messages s) _ (remove_messages-Keyed n channel_id ids) s v
dispatch-Keyed n (voice_state_updated u) s a v =
    when-Keeps (Keyed n) s.track_voice _
      (noted-Keeps n (voice_state u.guild_id u.user_id) _ (voice_state_update u)
        (voice_state-Keeps (Keyed n) u.guild_id u.user_id) (voice_state_update-Keyed n u))
      s v
dispatch-Keyed n (presence_update id q) s a v =
    bind-Keeps (Keyed n) (when s.track_presences (ignore (presence_add id q))) _
      (when-Keeps (Keyed n) s.track_presences _
        (ignore-Keeps (Keyed n) (presence_add id q) (presence_add-Keyed n id q)))
      (λ _ t. when-Keeps (Keyed n) t.track_members _ (online_member-Keyed n id q) t) s v
dispatch-Keyed n unhandled s a v = v

-- Whatever event the gateway sends, and whether its handler succeeds, fails or panics: if the
-- members that the event points to have been allocated, then after it each guild, channel and
-- member still stands under its own ID in the maps of the state.
pub on_interface-Keyed :
    (enabled : Bool) (e : Event) (s : State)
    → Fits s.next_member s e
    → Keyed s.next_member s
    → Keyed s.next_member (on_interface enabled e s).1
unfolding on_interface
on_interface-Keyed enabled (ready r) s a v = on_ready-Keyed s.next_member enabled r s a v
on_interface-Keyed true e s a v = dispatch-Keyed s.next_member e s a v
on_interface-Keyed false e s a v = v
