-- ===== src/Tests/SendRuns.antt =====
-- Runs of the calls that send and delete messages.
use discordgo.Base.{true, none, some, [], ◌∷◌, ◌≡◌}
use discordgo.State.Types.{Addr}
use discordgo.Rest.Sending.{
  Embed, MessageSend, asks, channel_message_send_complex, channel_messages_bulk_delete_call,
}
use discordgo.Rest.Sent.{
  Deletes, channel_message_send_complex_lem, channel_messages_bulk_delete_call-take,
}

abbrev embeds : Addr → Embed
embeds p = record { type = ""; other = p }

abbrev message : MessageSend
message = record {
  embed = some 4;
  embeds = none;
  file = none;
  files = some (8 ∷ []);
  sticker_ids = none;
  other = 0;
}

channel_message_send_complex_lem_example :
    (channel_message_send_complex true "5" message embeds).0
    ≡ asks "POST" "https://discord.com/api/v9/channels/5/messages"
        (record {
          embeds = record { type = "rich"; other = 4 } ∷ [];
          files = 8 ∷ [];
          sticker_ids = [];
          other = 0;
        })
        "https://discord.com/api/v9/channels/5/messages"
channel_message_send_complex_lem_example = channel_message_send_complex_lem true "5" message embeds

channel_messages_bulk_delete_call-take_example :
    Deletes "5" (channel_messages_bulk_delete_call "5" ("1" ∷ "2" ∷ [])) ("1" ∷ "2" ∷ [])
channel_messages_bulk_delete_call-take_example =
    channel_messages_bulk_delete_call-take "5" ("1" ∷ "2" ∷ [])
