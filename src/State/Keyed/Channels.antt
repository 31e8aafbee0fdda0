-- ===== src/State/Keyed/Channels.antt =====
-- The operations of state.go on channels and messages keep the maps keyed.
use discordgo.Base.{
  ℕ, ◌≡◌, refl, sym, ◌∙◌, String, put, delete, on_option, on_if, find, has, ◌==◌, arith,
}
use discordgo.State.Types.{Addr, items, Message, Channel, Guild}
use discordgo.State.Store.{State, Action, Outcome, set_message}
use discordgo.State.Guilds.{guild}
use discordgo.State.Channels.{
  is_private, channel, merge_channel, list_channel, unlist_channel, new_channel, channel_add,
  channel_remove, message_id, message_add, message_remove_by_id, message_remove,
}
use discordgo.State.Keeps.{Keeps, found-Keeps, found_only-Keeps, if-Keeps}
use discordgo.State.Keyed.{
  Keyed, write-id, put-keyed, delete-keyed, steady, set_guild-Keyed, set_channel-Keyed, ready-Keyed,
}
use discordgo.State.Keyed.Guilds.{channel_map-Keyed}

list_channel-id : (p : Addr) (c : Channel) (g : Guild) → (list_channel p c g).id ≡ g.id
unfolding list_channel
list_channel-id p c g = ground arith

unlist_channel-id : (s : State) (c : Channel) (g : Guild) → (unlist_channel s c g).id ≡ g.id
unfolding unlist_channel
unlist_channel-id s c g = ground arith

new_channel-Keyed :
    (n : ℕ) (p : Addr) (c : Channel) (s : State)
    → (s.channels p).id ≡ c.id
    → Keyed n s
    → Keyed n (new_channel p c s).1
unfolding new_channel
new_channel-Keyed n p c s same v =
    let keyed = put-keyed (λ x. (s.channels x).id) s.channel_map c.id p v.channels_keyed same in
    on_if (λ (m : Action (Unit {0})). Keyed n (m s).1) (is_private c) _ _
      (λ _. channel_map-Keyed (put c.id p s.channel_map) keyed (ready-Keyed _ v))
      (λ _. found-Keeps (Keyed n) (s.guild_map c.guild_id) _ s v λ g _.
        channel_map-Keyed (put c.id p s.channel_map) keyed
          (set_guild-Keyed g _ (list_channel-id p c (s.guilds g)) v))

pub channel_add-Keyed : (n : ℕ) (p : Addr) → Keeps (Keyed n) (channel_add p)
unfolding channel_add merge_channel
channel_add-Keyed n p s v =
    on_option (λ (r : Outcome (Unit {0}) × State). Keyed n r.1) (s.channel_map (s.channels p).id) _
      _ (λ _. new_channel-Keyed n p (s.channels p) s refl v)
      (λ q e.
        set_channel-Keyed q _
          (sym (
            write-id (λ (x : Channel). x.id) s.channels p q _ refl
            ∙ v.channels_keyed (s.channels p).id q e))
          (set_channel-Keyed p _ refl v))

pub delete_channel-Keyed :
    {n : ℕ} {s : State} (id : String)
    → Keyed n s
    → Keyed n (record s { channel_map = delete id s.channel_map })
delete_channel-Keyed {n} {s} id v =
    channel_map-Keyed _ (delete-keyed (λ x. (s.channels x).id) s.channel_map id v.channels_keyed) v

pub channel_remove-Keyed : (n : ℕ) (p : Addr) → Keeps (Keyed n) (channel_remove p)
unfolding channel_remove channel guild
channel_remove-Keyed n p s v =
    let c = s.channels p in
    found-Keeps (Keyed n) (s.channel_map c.id) _ s v λ _ _.
      on_if (λ (m : Action (Unit {0})). Keyed n (m s).1) (is_private c) _ _
        (λ _. delete_channel-Keyed c.id (ready-Keyed _ v))
        (λ _. found-Keeps (Keyed n) (s.guild_map c.guild_id) _ s v λ g _.
          delete_channel-Keyed c.id (set_guild-Keyed g _ (unlist_channel-id s c (s.guilds g)) v))

set_message-Keyed :
    {n : ℕ} {s : State} (q : Addr) (m : Message) → Keyed n s → Keyed n (set_message q m s)
set_message-Keyed {n} {s} q m v =
    steady (set_message q m s) v (λ p. refl) (λ p. refl) (λ p. refl) refl refl refl refl

pub message_add-Keyed : (n : ℕ) (p : Addr) → Keeps (Keyed n) (message_add p)
unfolding message_add channel
message_add-Keyed n p s v =
    found-Keeps (Keyed n) (s.channel_map (s.messages p).channel_id) _ s v λ c _.
      on_option (λ (f : State → State). Keyed n (f s))
        (find (λ q. message_id s q == (s.messages p).id) (items (s.channels c).messages)) _ _
        (λ _. set_channel-Keyed c _ refl v) (λ q _. set_message-Keyed q _ v)

pub message_remove_by_id-Keyed :
    (n : ℕ) (channel_id id : String) → Keeps (Keyed n) (message_remove_by_id channel_id id)
unfolding message_remove_by_id channel
message_remove_by_id-Keyed n channel_id id s v =
    found-Keeps (Keyed n) (s.channel_map channel_id) _ s v λ c _.
      if-Keeps (Keyed n) (has (λ q. message_id s q == id) (items (s.channels c).messages)) _ _
        (λ t w. set_channel-Keyed c _ refl w) (λ t w. w) s v

pub message_remove-Keyed : (n : ℕ) (p : Addr) → Keeps (Keyed n) (message_remove p)
unfolding message_remove
message_remove-Keyed n p s v =
    message_remove_by_id-Keyed n (s.messages p).channel_id (s.messages p).id s v

pub channel-Keeps : (P : State → Type 0) (id : String) → Keeps P (channel id)
unfolding channel
channel-Keeps P id s h = found_only-Keeps P (s.channel_map id) s h
