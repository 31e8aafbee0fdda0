-- ===== src/Voice/Sessions.antt =====
-- What happens to a voice connection: voice.go, `wsListen` where reading fails and the ends of
-- `reconnect`; wsapi.go, `ChannelVoiceJoin`, `onVoiceStateUpdate` and `onVoiceServerUpdate` for
-- the connection of the guild.
use discordgo.Base.{
  ℕ, String, Bool, true, false, ◌==◌, Option, none, some, List, [], ◌∷◌, ◌++◌, eqb, if◌then◌else◌,
}
use discordgo.Voice.Bytes.{Bytes}
use discordgo.Voice.Connection.{
  VoiceConnection, drops_ws, sends_to_gateway, starts_reconnect, deletes_connection, VoiceAction,
  on_held, close_connection, disconnect, change_channel, speak, Dialing, open_voice, is_none,
}
use discordgo.Voice.Messages.{VoiceEvent, on_voice_event, on_binary_event}

-- `wsListen` at close code 4014, and 5 seconds later.
unfoldable pub abandon_ws : VoiceAction
abandon_ws v = (on_held (λ n. drops_ws n ∷ []) v.ws_conn, record v { ws_conn = none })

unfoldable pub give_up : VoiceAction
unfolding close_connection
give_up v =
    if is_none v.ws_conn
    then (let (es, v') = close_connection v in (deletes_connection v.guild_id ∷ es, v'))
    else ([], v)

abbrev pub is_at : ℕ → Option ℕ → Bool
is_at n none = false
is_at n (some m) = eqb n m

-- `wsListen` at any other error of the websocket that it listens to.
unfoldable pub listen_failed : (ws : ℕ) → VoiceAction
listen_failed ws v = if is_at ws v.ws_conn then (starts_reconnect ∷ [], v) else ([], v)

-- `reconnect` up to its loop, of which the joins are further inputs.
unfoldable pub begin_reconnect : VoiceAction
unfolding close_connection
begin_reconnect v =
    if v.reconnecting then ([], v) else close_connection (record v { reconnecting = true })

-- `ChannelVoiceJoin` up to its wait, with `ChannelVoiceJoinManual`.
unfoldable pub channel_voice_join : (guild_id channel_id : String) (mute deaf : Bool) → VoiceAction
channel_voice_join guild_id channel_id mute deaf v = (
  sends_to_gateway 4 ∷ [],
  record v { guild_id = guild_id; channel_id = channel_id; deaf = deaf; mute = mute },
)

-- `onVoiceStateUpdate` with the user ID of the session.
unfoldable pub on_voice_state_update :
    (own_id user_id session_id channel_id : String) → VoiceConnection → VoiceConnection
on_voice_state_update own_id user_id session_id channel_id v =
    if channel_id == ""
    then v
    else if own_id == user_id
    then record v { user_id = user_id; session_id = session_id; channel_id = channel_id }
    else v

-- `onVoiceServerUpdate`
unfoldable pub on_voice_server_update : (token endpoint guild_id : String) → Dialing → VoiceAction
unfolding close_connection open_voice
on_voice_server_update token endpoint guild_id d v =
    let (es, closed) = close_connection v in
    let (ok, out) =
      open_voice d (record closed { token = token; endpoint = endpoint; guild_id = guild_id }) in
    (es ++ out.0, out.1)

-- Whatever a connection meets, each as one step. `ready_set` is what a sender does at its start
-- and at its end.
pub data VoiceInput : Type 0 where
  message : VoiceEvent → VoiceInput
  binary_message : Bytes → VoiceInput
  manual_disconnection no_server protocol_required : VoiceInput
  listen_error : (ws : ℕ) → VoiceInput
  reconnect_begins reconnect_ends join_timeout : VoiceInput
  join : (guild_id channel_id : String) → (mute deaf : Bool) → VoiceInput
  state_update : (own_id user_id session_id channel_id : String) → VoiceInput
  server_update : (token endpoint guild_id : String) → Dialing → VoiceInput
  ready_set : Bool → VoiceInput
  speaking_called : (b written : Bool) → VoiceInput
  change_called : (channel_id : String) → (mute deaf written : Bool) → VoiceInput
  disconnect_called close_called : VoiceInput

unfoldable pub voice_step : VoiceInput → VoiceAction
unfolding close_connection
voice_step (message e) v = on_voice_event e v
voice_step (binary_message bs) v = on_binary_event bs v
voice_step manual_disconnection v = abandon_ws v
voice_step no_server v = give_up v
voice_step protocol_required v = close_connection v
voice_step (listen_error ws) v = listen_failed ws v
voice_step reconnect_begins v = begin_reconnect v
voice_step reconnect_ends v = ([], record v { reconnecting = false })
voice_step join_timeout v = close_connection v
voice_step (join guild_id channel_id mute deaf) v =
    channel_voice_join guild_id channel_id mute deaf v
voice_step (state_update own_id user_id session_id channel_id) v =
    ([], on_voice_state_update own_id user_id session_id channel_id v)
voice_step (server_update token endpoint guild_id d) v =
    on_voice_server_update token endpoint guild_id d v
voice_step (ready_set b) v = ([], record v { ready = b })
voice_step (speaking_called b written) v = (speak b written v).1
voice_step (change_called channel_id mute deaf written) v =
    (change_channel channel_id mute deaf written v).1
voice_step disconnect_called v = disconnect v
voice_step close_called v = close_connection v

unfoldable pub voice_run : List VoiceInput → VoiceAction
unfolding voice_step
voice_run [] v = ([], v)
voice_run (i ∷ is) v =
    let (es, v') = voice_step i v in let (fs, v'') = voice_run is v' in (es ++ fs, v'')
