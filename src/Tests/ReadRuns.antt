-- ===== src/Tests/ReadRuns.antt =====
-- Reads of the state of the tests after an operation.
use discordgo.Base.{◌≡◌, ◌≤◌, refl, String, ◌==◌, false, some, [], ◌∷◌, length, arith}
use discordgo.State.Types.{Addr, items, Guild}
use discordgo.State.Store.{done, fails, panics, state_not_found}
use discordgo.State.Guilds.{guild_add}
use discordgo.State.Members.{voice_state, voice_state_update}
use discordgo.State.Channels.{channel, channel_add, channel_remove, message, message_add}
use discordgo.State.Threads.{ThreadMembersUpdate, thread_members_update}
use discordgo.State.Laws.Guilds.{guild_value, Entered, guild_add-guild}
use discordgo.State.Laws.Lists.{voice_state-voice_state_update}
use discordgo.State.Laws.Channels.{Added, channel_add-channel, channel_remove-channel}
use discordgo.State.Laws.Messages.{message-message_add}
use discordgo.State.Laws.Threads.{thread_members_update_panics}
use discordgo.Tests.{home, club, voice_of, follower}

guild_add-guild_example :
    ((x : Guild) × ((guild_value (guild_add 0 home).1 "10" ≡ some x)
        × Entered (home.guild_map "10") home club x))
    × ((k : String) → ("10" == k) ≡ false → (guild_add 0 home).1.guild_map k ≡ home.guild_map k)
guild_add-guild_example = guild_add-guild 0 home

voice_state-voice_state_update_example :
    (voice_state "10" "1" (voice_state_update (voice_of "1" "") home).1).0 ≡ fails state_not_found
voice_state-voice_state_update_example =
    voice_state-voice_state_update home (voice_of "1" "") 0 refl (refl, tt) "1"

channel_add-channel_example :
    Added (home.channel_map "30") 0 home (channel_add 0 home)
    × ((k : String)
        → ("30" == k) ≡ false
        → (channel_add 0 home).1.channel_map k ≡ home.channel_map k)
channel_add-channel_example = channel_add-channel 0 home

channel_remove-channel_example : (channel "30" (channel_remove 0 home).1).0 ≡ fails state_not_found
unfolding channel_remove
channel_remove-channel_example = channel_remove-channel 0 home refl "30"

message-message_add_example :
    ((q : Addr) × ((message "30" "41" (message_add 1 home).1).0 ≡ done q)
      × (((message_add 1 home).1.messages q).id ≡ "41"))
    × (length (items ((message_add 1 home).1.channels 0).messages)
        ≤ (message_add 1 home).1.max_message_count)
message-message_add_example = message-message_add home 1 0 refl (omega arith) (omega arith)

abbrev leavers : ThreadMembersUpdate
leavers = record {
  id = "31";
  guild_id = "10";
  member_count = 0;
  added_members = [];
  removed_members = "1" ∷ "2" ∷ [];
}

abbrev strangers : ThreadMembersUpdate
strangers = record leavers { removed_members = "7" ∷ "8" ∷ []; member_count = 2 }

thread_members_update_panics_example : (thread_members_update leavers home).0 ≡ panics
thread_members_update_panics_example =
    thread_members_update_panics home leavers 1 refl [] (follower "1") (follower "2") refl tt refl
      refl
