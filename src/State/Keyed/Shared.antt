-- ===== src/State/Keyed/Shared.antt =====
-- What the handlers of state.go share keeps the maps keyed.
use discordgo.Base.{ℕ, refl, String, Bool, true, false, Option, none, some, List, [], ◌∷◌, put}
use discordgo.State.Types.{Addr, items, Ready, Guild}
use discordgo.State.Store.{State, Before, Action, Error, attempt, error_of, ◌>>=◌, ◌>>◌}
use discordgo.State.Guilds.{create_member_map, guild, presence_add}
use discordgo.State.Members.{member, member_add, role, voice_state}
use discordgo.State.Channels.{channel, message, message_remove_by_id}
use discordgo.State.Events.{
  index_guilds, on_ready, when, note_before, ignore, chunk_members, chunk_presences,
  remove_messages,
}
use discordgo.State.Keyed.Members.{member_add-Keyed}
use discordgo.State.Keyed.Channels.{message_remove_by_id-Keyed, channel-Keeps}
use discordgo.State.Keeps.{
  Keeps, bind-Keeps, found-Keeps, found_only-Keeps, attempt-Keeps, error_of-Keeps,
}
use discordgo.State.Keyed.{Keyed, put-keyed, steady, set_member-Keyed, ready-Keyed, Allocated}
use discordgo.State.Keyed.Guilds.{
  index_channels-keyed, create_member_map-Keyed, channel_map-Keyed, guild_map-Keyed, guild-Keeps,
  presence_add-Keyed,
}

-- The members of each guild of the list have been allocated.
abbrev pub AllocatedGuilds : ℕ → (Addr → Guild) → List Addr → Type 0
AllocatedGuilds n guilds [] = Unit
AllocatedGuilds n guilds (g ∷ gs) =
    Allocated n (items (guilds g).members) × AllocatedGuilds n guilds gs

pub index_guilds-Keyed :
    (n : ℕ) (gs : List Addr) (s : State)
    → AllocatedGuilds n s.guilds gs
    → Keyed n s
    → Keyed n (index_guilds gs s)
unfolding index_guilds create_member_map
index_guilds-Keyed n [] s a v = v
index_guilds-Keyed n (g ∷ gs) s a v = index_guilds-Keyed n gs _ a.1 (
    channel_map-Keyed _
      (index_channels-keyed s.channels (items (s.guilds g).channels) s.channel_map v.channels_keyed)
      (create_member_map-Keyed (s.guilds g) a.0 (
        guild_map-Keyed (put (s.guilds g).id g s.guild_map)
          (put-keyed (λ x. (s.guilds x).id) s.guild_map (s.guilds g).id g v.guilds_keyed refl) v)))

pub on_ready-Keyed :
    (n : ℕ) (enabled : Bool) (r : Ready) (s : State)
    → AllocatedGuilds n s.guilds r.guilds
    → Keyed n s
    → Keyed n (on_ready enabled r s)
unfolding on_ready
on_ready-Keyed n false r s a v = ready-Keyed _ v
on_ready-Keyed n true r s a v =
    let t = index_guilds r.guilds (record s { ready = r }) in
    let w = index_guilds-Keyed n r.guilds (record s { ready = r }) a (ready-Keyed r v) in
    channel_map-Keyed _
      (index_channels-keyed t.channels r.private_channels t.channel_map w.channels_keyed) w

pub before-Keyed : {n : ℕ} {s : State} (b : Before) → Keyed n s → Keyed n (record s { before = b })
before-Keyed {n} {s} b v =
    steady (record s { before = b }) v (λ p. refl) (λ p. refl) (λ p. refl) refl refl refl refl

pub note_before-Keyed {ℓ} :
    {A : Type ℓ} (n : ℕ) (copy : State → A → Before) (o : Option A)
    → Keeps (Keyed n) (note_before copy o)
note_before-Keyed n copy none s v = v
note_before-Keyed n copy (some a) s v = before-Keyed (copy s a) v

pub when-Keeps :
    (P : State → Type 0) (b : Bool) (m : Action (Unit {0})) → Keeps P m → Keeps P (when b m)
when-Keeps P true m k s h = k s h
when-Keeps P false m k s h = h

pub ignore-Keeps : (P : State → Type 0) (m : Action (Unit {0})) → Keeps P m → Keeps P (ignore m)
ignore-Keeps P m k = bind-Keeps P (error_of m) _ (error_of-Keeps P m k) (λ _ s h. h)

-- A read of the state before an action.
pub noted-Keeps {ℓ} :
    {A : Type ℓ} (n : ℕ) (m : Action A) (copy : State → A → Before) (rest : Action (Unit {0}))
    → Keeps (Keyed n) m
    → Keeps (Keyed n) rest
    → Keeps (Keyed n) (attempt m >>= λ old. note_before copy old >> rest)
noted-Keeps n m copy rest km kr =
    bind-Keeps (Keyed n) (attempt m) _ (attempt-Keeps (Keyed n) m km) λ old.
      bind-Keeps (Keyed n) (note_before copy old) (λ _. rest) (note_before-Keyed n copy old)
        (λ _. kr)

pub member-Keeps : (P : State → Type 0) (id user : String) → Keeps P (member id user)
unfolding member
member-Keeps P id user s h =
    found-Keeps P (s.member_map id) _ s h (λ table _. found_only-Keeps P (table user) s h)

pub role-Keeps : (P : State → Type 0) (id role_id : String) → Keeps P (role id role_id)
unfolding role
role-Keeps P id role_id =
    bind-Keeps P (guild id) _ (guild-Keeps P id) (λ g s. found_only-Keeps P _ s)

pub voice_state-Keeps : (P : State → Type 0) (id user : String) → Keeps P (voice_state id user)
unfolding voice_state
voice_state-Keeps P id user =
    bind-Keeps P (guild id) _ (guild-Keeps P id) (λ g s. found_only-Keeps P _ s)

pub message-Keeps : (P : State → Type 0) (channel_id id : String) → Keeps P (message channel_id id)
unfolding message
message-Keeps P channel_id id =
    bind-Keeps P (channel channel_id) _ (channel-Keeps P channel_id) (λ c s. found_only-Keeps P _ s)

pub chunk_members-Keyed :
    (n : ℕ) (id : String) (ps : List Addr) (e : Option Error)
    → Allocated n ps
    → Keeps (Keyed n) (chunk_members id ps e)
unfolding chunk_members
chunk_members-Keyed n id [] e a s v = v
chunk_members-Keyed n id (p ∷ ps) e a s v =
    bind-Keeps (Keyed n) (error_of (member_add p)) _
      (error_of-Keeps (Keyed n) (member_add p) (member_add-Keyed n p a.0))
      (λ e'. chunk_members-Keyed n id ps e' a.1) _ (set_member-Keyed p _ refl v)

pub chunk_presences-Keyed :
    (n : ℕ) (id : String) (ps : List Addr) (e : Option Error)
    → Keeps (Keyed n) (chunk_presences id ps e)
unfolding chunk_presences
chunk_presences-Keyed n id [] e s v = v
chunk_presences-Keyed n id (p ∷ ps) e s v =
    bind-Keeps (Keyed n) (error_of (presence_add id p)) _
      (error_of-Keeps (Keyed n) (presence_add id p) (presence_add-Keyed n id p))
      (λ e'. chunk_presences-Keyed n id ps e') s v

pub remove_messages-Keyed :
    (n : ℕ) (channel_id : String) (ids : List String)
    → Keeps (Keyed n) (remove_messages channel_id ids)
unfolding remove_messages
remove_messages-Keyed n channel_id [] s v = v
remove_messages-Keyed n channel_id (id ∷ ids) s v =
    bind-Keeps (Keyed n) (ignore (message_remove_by_id channel_id id)) _
      (ignore-Keeps (Keyed n) (message_remove_by_id channel_id id)
        (message_remove_by_id-Keyed n channel_id id))
      (λ _. remove_messages-Keyed n channel_id ids) s v
