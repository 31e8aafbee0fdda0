-- ===== src/Voice/History.antt =====
-- voice.go: over any history, a voice connection closes all it opens but what it still holds.
use discordgo.Base.{
  refl, String, Bool, true, false, ◌==◌, List, [], ◌∷◌, on_if, on_option, if◌then◌else◌,
}
use discordgo.Voice.Connection.{
  VoiceConnection, VoiceEffect, close_connection, disconnect, change_channel, speak, sends_op,
  sends_to_gateway, deletes_connection,
}
use discordgo.Voice.Sessions.{
  channel_voice_join, on_voice_state_update, VoiceInput, message, binary_message,
  manual_disconnection, no_server, protocol_required, listen_error, reconnect_begins,
  reconnect_ends, join_timeout, join, state_update, server_update, ready_set, speaking_called,
  change_called, disconnect_called, close_called, voice_step, voice_run,
}
use discordgo.Voice.Keeping.{Kept, Kept-append, Silent}
use discordgo.Voice.Steps.{
  quiet_step, close_connection-Kept, on_voice_event-Kept, on_binary_event-Kept,
  on_voice_server_update-Kept, abandon_ws-Kept, give_up-Kept, listen_failed-Kept,
  begin_reconnect-Kept,
}

sends-Silent : (b : Bool) → Silent (if b then [] else sends_to_gateway 4 ∷ [])
sends-Silent true = refl
sends-Silent false = refl

on_voice_state_update-Kept :
    (own_id user_id session_id channel_id : String) (v : VoiceConnection)
    → Kept [] v (on_voice_state_update own_id user_id session_id channel_id v)
unfolding on_voice_state_update
on_voice_state_update-Kept own_id user_id session_id channel_id v =
    let quiet : Kept [] v v = quiet_step [] v v refl refl refl refl refl in
    on_if (Kept [] v) (channel_id == "") v _ (λ _. quiet)
      (λ _.
        on_if (Kept [] v) (own_id == user_id) _ v (λ _. quiet_step [] v _ refl refl refl refl refl)
          (λ _. quiet))

disconnect-Kept : (v : VoiceConnection) → let (es, v') = disconnect v in Kept es v v'
unfolding disconnect
disconnect-Kept v =
    let w = record v { session_id = "" } in
    let (es, v') = close_connection w in
    let sends = if v.session_id == "" then [] else sends_to_gateway 4 ∷ [] in
    Kept-append sends _ v w v'
      (quiet_step sends v w (sends-Silent (v.session_id == "")) refl refl refl refl)
      (Kept-append es (deletes_connection v.guild_id ∷ []) w v' v' (close_connection-Kept w)
        (quiet_step _ v' v' refl refl refl refl refl))

speak-Kept :
    (b written : Bool) (v : VoiceConnection) → let (es, v') = (speak b written v).1 in Kept es v v'
unfolding speak
speak-Kept b written v =
    on_option (λ (x : Bool × (List VoiceEffect × VoiceConnection)). Kept x.1.0 v x.1.1) v.ws_conn _
      _ (λ _. quiet_step [] v v refl refl refl refl refl)
      (λ n _. quiet_step (sends_op 5 ∷ []) v _ refl refl refl refl refl)

change_channel-Kept :
    (channel_id : String) (mute deaf written : Bool) (v : VoiceConnection)
    → let (es, v') = (change_channel channel_id mute deaf written v).1 in Kept es v v'
unfolding change_channel
change_channel-Kept channel_id mute deaf true v = quiet_step _ v _ refl refl refl refl refl
change_channel-Kept channel_id mute deaf false v = quiet_step _ v v refl refl refl refl refl

channel_voice_join-Kept :
    (guild_id channel_id : String) (mute deaf : Bool) (v : VoiceConnection)
    → let (es, v') = channel_voice_join guild_id channel_id mute deaf v in Kept es v v'
unfolding channel_voice_join
channel_voice_join-Kept guild_id channel_id mute deaf v = quiet_step _ v _ refl refl refl refl refl

voice_step-Kept :
    (i : VoiceInput) (v : VoiceConnection) → let (es, v') = voice_step i v in Kept es v v'
unfolding voice_step
voice_step-Kept (message e) v = on_voice_event-Kept e v
voice_step-Kept (binary_message bs) v = on_binary_event-Kept bs v
voice_step-Kept manual_disconnection v = abandon_ws-Kept v
voice_step-Kept no_server v = give_up-Kept v
voice_step-Kept protocol_required v = close_connection-Kept v
voice_step-Kept (listen_error ws) v = listen_failed-Kept ws v
voice_step-Kept reconnect_begins v = begin_reconnect-Kept v
voice_step-Kept reconnect_ends v = quiet_step [] v _ refl refl refl refl refl
voice_step-Kept join_timeout v = close_connection-Kept v
voice_step-Kept (join guild_id channel_id mute deaf) v =
    channel_voice_join-Kept guild_id channel_id mute deaf v
voice_step-Kept (state_update own_id user_id session_id channel_id) v =
    on_voice_state_update-Kept own_id user_id session_id channel_id v
voice_step-Kept (server_update token endpoint guild_id d) v =
    on_voice_server_update-Kept token endpoint guild_id d v
voice_step-Kept (ready_set b) v = quiet_step [] v _ refl refl refl refl refl
voice_step-Kept (speaking_called b written) v = speak-Kept b written v
voice_step-Kept (change_called channel_id mute deaf written) v =
    change_channel-Kept channel_id mute deaf written v
voice_step-Kept disconnect_called v = disconnect-Kept v
voice_step-Kept close_called v = close_connection-Kept v

-- Over any history of a connection, whatever fails in it: the websockets, the UDP connections and
-- the close channels that were opened or held at first are closed (or, for websockets, dropped
-- where the server closed them) but for the ones held at the end; and no more heartbeats are
-- started than websockets are opened, apart from the one that is active.
pub voice_run-Kept :
    (is : List VoiceInput) (v : VoiceConnection) → let (es, v') = voice_run is v in Kept es v v'
unfolding voice_run
voice_run-Kept [] v = quiet_step [] v v refl refl refl refl refl
voice_run-Kept (i ∷ is) v =
    let (es, v') = voice_step i v in
    let (fs, v'') = voice_run is v' in
    Kept-append es fs v v' v'' (voice_step-Kept i v) (voice_run-Kept is v')
