-- ===== src/Tests/ConnectionRuns.antt =====
-- A voice connection from its join to its end.
use discordgo.Base.{◌≡◌, refl, true, false, none, some, List, [], ◌∷◌, ◌++◌}
use discordgo.Ratelimit.Buckets.{negsuc}
use discordgo.Voice.Bytes.{zeros}
use discordgo.Voice.Connection.{VoiceConnection, Dialing, Discovery, start_heartbeat, udp_open}
use discordgo.Voice.Messages.{
  VoiceOperation, ready_op, secret_key, hello, on_voice_event, on_ready_op,
}
use discordgo.Voice.Sessions.{
  VoiceInput, message, join, state_update, server_update, manual_disconnection, no_server,
  voice_run, channel_voice_join, on_voice_server_update, on_voice_state_update, abandon_ws, give_up,
}
use discordgo.Voice.Lifetime.{websocket, udp, opens, shuts, sum_of}
use discordgo.Voice.Keeping.{Kept}
use discordgo.Voice.History.{voice_run-Kept}

abbrev fresh : VoiceConnection
fresh = record {
  ready = false;
  user_id = "";
  guild_id = "";
  channel_id = "";
  deaf = false;
  mute = false;
  speaking = false;
  reconnecting = false;
  max_dave_protocol_version = 0;
  ws_conn = none;
  udp_conn = none;
  session_id = "";
  token = "";
  endpoint = "";
  close_channel = none;
  aead = none;
  op2 = record { ssrc = 0; ip = ""; port = 0 };
  voice_seq_ack = negsuc 0;
  voice_heartbeat_active = false;
  dave_controller = none;
}

abbrev dialing : Dialing
dialing = record {
  session_id = "s";
  connected = some 1;
  identified = true;
  channel = 2;
  default_controller = none;
}

abbrev discovery : Discovery
discovery = record {
  resolved = true;
  connected = some 3;
  written = true;
  reply = some (zeros 8 ++ 49 ∷ 46 ∷ 50 ∷ [] ++ zeros 61 ++ 1 ∷ 2 ∷ []);
  selected = true;
}

abbrev event_of : VoiceOperation → VoiceInput
event_of o = message (record { operation = o; sequence = none })

abbrev history : List VoiceInput
history =
    join "10" "50" false false
    ∷ state_update "1" "1" "s" "50"
    ∷ server_update "t" "voice.example:443" "10" dialing
    ∷ event_of (hello 41250)
    ∷ event_of (ready_op (record { ssrc = 9; ip = "1.2.3.4"; port = 5000 }) discovery)
    ∷ event_of (secret_key (7 ∷ []))
    ∷ event_of (hello 41250)
    ∷ []

history_run :
    let es = (voice_run (history ++ manual_disconnection ∷ no_server ∷ []) fresh).0 in
    (sum_of (opens udp) es ≡ 1) × (sum_of (shuts udp) es ≡ 1) × (sum_of (shuts websocket) es ≡ 1)
unfolding voice_run channel_voice_join on_voice_server_update on_voice_state_update on_voice_event
    start_heartbeat on_ready_op udp_open abandon_ws give_up
history_run = (refl, refl, refl)

voice_run-Kept_example : Kept (voice_run history fresh).0 fresh (voice_run history fresh).1
voice_run-Kept_example = voice_run-Kept history fresh
