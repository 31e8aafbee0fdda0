-- ===== src/Voice/Steps.antt =====
-- voice.go: what each operation does to what the connection has opened.
use discordgo.Base.{
  ℕ, ◌≡◌, refl, String, true, Option, none, some, List, [], ◌∷◌, ap, on_if, if◌then◌else◌, arith,
}
use discordgo.Ratelimit.Buckets.{ℤ}
use discordgo.Voice.Bytes.{Bytes}
use discordgo.Voice.Connection.{
  VoiceConnection, VoiceEffect, on_controller, close_connection, Dialing, open_voice, Discovery,
  udp_open, is_none, calls_controller, calls_handlers, deletes_connection,
}
use discordgo.Voice.Messages.{
  VoiceEvent, VoiceOperation, ready_op, heartbeat_acknowledged, secret_key, resumed,
  clients_connect, client_disconnect, hello, prepare_transition_op, execute_transition,
  prepare_epoch_op, speaking_update, unknown, undecodable, binary_effects, on_ready_op,
  handle_operation, acknowledge, on_voice_event, on_binary_event,
}
use discordgo.Voice.Sessions.{
  abandon_ws, give_up, is_at, listen_failed, begin_reconnect, on_voice_server_update,
}
use discordgo.Voice.Lifetime.{
  Kind, websocket, udp, channel, held, one, Balanced, Beating, close_connection-Balanced,
  udp_open-Balanced, open_voice-Balanced, close_connection-Beating, udp_open-Beating,
  open_voice-Beating, start_heartbeat-Beating, start_heartbeat-Balanced,
}
use discordgo.Voice.Keeping.{
  Kept, Kept-append, Silent, Silent-Kept, on_controller-Silent, Silent-append,
  prepare_transition-Silent, prepare_epoch-Silent, binary-Silent, starts_audio-Silent,
}

pub quiet_step :
    (es : List VoiceEffect) (v v' : VoiceConnection)
    → Silent es
    → v.ws_conn ≡ v'.ws_conn
    → v.udp_conn ≡ v'.udp_conn
    → v.close_channel ≡ v'.close_channel
    → v.voice_heartbeat_active ≡ v'.voice_heartbeat_active
    → Kept es v v'
quiet_step es v v' s a b c d =
    Silent-Kept es v v' s
      (λ k. elim k as (λ k. held k v ≡ held k v') [
        | websocket ↦ ap one a
        | udp ↦ ap one b
        | channel ↦ ap one c
      ])
      (ap (λ t. if t then 1 else 0) d)

pub close_connection-Kept :
    (v : VoiceConnection) → let (es, v') = close_connection v in Kept es v v'
close_connection-Kept v = record {
  balanced = λ k. close_connection-Balanced k v;
  beating = close_connection-Beating v;
}

pub udp_open-Kept :
    (d : Discovery) (v : VoiceConnection) → let (es, v') = (udp_open d v).1 in Kept es v v'
udp_open-Kept d v = record {
  balanced = λ k. udp_open-Balanced k d v;
  beating = udp_open-Beating d v;
}

pub on_ready_op-Kept :
    (d : Discovery) (v : VoiceConnection) → let (es, v') = on_ready_op d v in Kept es v v'
unfolding on_ready_op
on_ready_op-Kept d v =
    let out = udp_open d v in
    on_if (λ (x : List VoiceEffect × VoiceConnection). Kept x.0 v x.1) out.0 _ _
      (λ _.
        Kept-append out.1.0 _ v out.1.1 out.1.1 (udp_open-Kept d v)
          (quiet_step _ out.1.1 out.1.1 (starts_audio-Silent out.1.1) refl refl refl refl))
      (λ _. udp_open-Kept d v)

pub handle_operation-Kept :
    (o : VoiceOperation) (v : VoiceConnection) → let (es, v') = handle_operation o v in Kept es v v'
handle_operation-Kept (ready_op op2 d) v =
    Kept-append [] _ v (record v { op2 = op2 }) _ (quiet_step [] v _ refl refl refl refl refl)
      (on_ready_op-Kept d (record v { op2 = op2 }))
handle_operation-Kept heartbeat_acknowledged v = quiet_step [] v v refl refl refl refl refl
handle_operation-Kept (secret_key key) v = quiet_step [] v _ refl refl refl refl refl
handle_operation-Kept resumed v = quiet_step [] v v refl refl refl refl refl
handle_operation-Kept clients_connect v =
    quiet_step _ v v (on_controller-Silent v.dave_controller) refl refl refl refl
handle_operation-Kept client_disconnect v =
    quiet_step _ v v (on_controller-Silent v.dave_controller) refl refl refl refl
handle_operation-Kept (hello interval) v = record {
  balanced = λ k. start_heartbeat-Balanced k interval v;
  beating = start_heartbeat-Beating interval v;
}
handle_operation-Kept (prepare_transition_op t version) v =
    quiet_step _ v v (prepare_transition-Silent v.dave_controller t version) refl refl refl refl
handle_operation-Kept (execute_transition t) v =
    quiet_step _ v v (on_controller-Silent v.dave_controller) refl refl refl refl
handle_operation-Kept (prepare_epoch_op t version epoch) v =
    quiet_step _ v v (prepare_epoch-Silent v.ws_conn v.dave_controller t version epoch) refl refl
      refl refl
handle_operation-Kept speaking_update v =
    let es = on_controller (calls_controller ∷ []) v.dave_controller in
    quiet_step (calls_handlers ∷ es) v v (omega (arith, on_controller-Silent v.dave_controller))
      refl refl refl refl
handle_operation-Kept unknown v = quiet_step [] v v refl refl refl refl refl
handle_operation-Kept undecodable v = quiet_step [] v v refl refl refl refl refl

pub acknowledge-Kept : (n : Option ℤ) (v : VoiceConnection) → Kept [] v (acknowledge n v)
acknowledge-Kept none v = quiet_step [] v v refl refl refl refl refl
acknowledge-Kept (some n) v = quiet_step [] v _ refl refl refl refl refl

pub on_voice_event-Kept :
    (e : VoiceEvent) (v : VoiceConnection) → let (es, v') = on_voice_event e v in Kept es v v'
unfolding on_voice_event
on_voice_event-Kept e v =
    let v' = acknowledge e.sequence v in
    Kept-append [] _ v v' _ (acknowledge-Kept e.sequence v) (handle_operation-Kept e.operation v')

pub on_binary_event-Kept :
    (bs : Bytes) (v : VoiceConnection) → let (es, v') = on_binary_event bs v in Kept es v v'
unfolding on_binary_event
on_binary_event-Kept [] v = quiet_step [] v v refl refl refl refl refl
on_binary_event-Kept (a ∷ []) v = quiet_step [] v v refl refl refl refl refl
on_binary_event-Kept (a ∷ b ∷ []) v = quiet_step [] v v refl refl refl refl refl
on_binary_event-Kept (a ∷ b ∷ opcode ∷ payload) v =
    let es = binary_effects v.ws_conn opcode payload v.dave_controller in
    quiet_step _ v _
      (Silent-append es (calls_handlers ∷ [])
        (binary-Silent v.ws_conn opcode payload v.dave_controller) refl)
      refl refl refl refl

pub open_voice-Kept :
    (d : Dialing) (v : VoiceConnection)
    → v.close_channel ≡ none
    → let (es, v') = (open_voice d v).1 in Kept es v v'
open_voice-Kept d v h = record {
  balanced = λ k. open_voice-Balanced k d v h;
  beating = open_voice-Beating d v;
}

closed-close_channel : (v : VoiceConnection) → (close_connection v).1.close_channel ≡ none
unfolding close_connection
closed-close_channel v = refl

pub on_voice_server_update-Kept :
    (token endpoint guild_id : String) (d : Dialing) (v : VoiceConnection)
    → let (es, v') = on_voice_server_update token endpoint guild_id d v in Kept es v v'
unfolding on_voice_server_update
on_voice_server_update-Kept token endpoint guild_id d v =
    let (es, closed) = close_connection v in
    let w = record closed { token = token; endpoint = endpoint; guild_id = guild_id } in
    let out = (open_voice d w).1 in
    Kept-append es out.0 v closed out.1 (close_connection-Kept v) (
      Kept-append [] out.0 closed w out.1 (quiet_step [] closed w refl refl refl refl refl)
        (open_voice-Kept d w (closed-close_channel v)))

abandon_ws-Balanced :
    (k : Kind) (v : VoiceConnection) → let (es, v') = abandon_ws v in Balanced k es v v'
unfolding abandon_ws
abandon_ws-Balanced websocket v = ground arith
abandon_ws-Balanced udp v = ground arith
abandon_ws-Balanced channel v = ground arith

abandon_ws-Beating : (v : VoiceConnection) → let (es, v') = abandon_ws v in Beating es v v'
unfolding abandon_ws
abandon_ws-Beating v = ground arith

pub abandon_ws-Kept : (v : VoiceConnection) → let (es, v') = abandon_ws v in Kept es v v'
unfolding abandon_ws
abandon_ws-Kept v = record {
  balanced = λ k. abandon_ws-Balanced k v;
  beating = abandon_ws-Beating v;
}

pub give_up-Kept : (v : VoiceConnection) → let (es, v') = give_up v in Kept es v v'
unfolding give_up
give_up-Kept v =
    let (es, v') = close_connection v in
    on_if (λ (x : List VoiceEffect × VoiceConnection). Kept x.0 v x.1) (is_none v.ws_conn) _ _
      (λ _.
        Kept-append (deletes_connection v.guild_id ∷ []) es v v v'
          (quiet_step _ v v refl refl refl refl refl) (close_connection-Kept v))
      (λ _. quiet_step [] v v refl refl refl refl refl)

pub listen_failed-Kept :
    (ws : ℕ) (v : VoiceConnection) → let (es, v') = listen_failed ws v in Kept es v v'
unfolding listen_failed
listen_failed-Kept ws v =
    on_if (λ (x : List VoiceEffect × VoiceConnection). Kept x.0 v x.1) (is_at ws v.ws_conn) _ _
      (λ _. quiet_step _ v v refl refl refl refl refl)
      (λ _. quiet_step [] v v refl refl refl refl refl)

pub begin_reconnect-Kept : (v : VoiceConnection) → let (es, v') = begin_reconnect v in Kept es v v'
unfolding begin_reconnect
begin_reconnect-Kept v =
    let w = record v { reconnecting = true } in
    on_if (λ (x : List VoiceEffect × VoiceConnection). Kept x.0 v x.1) v.reconnecting _ _
      (λ _. quiet_step [] v v refl refl refl refl refl)
      (λ _.
        Kept-append [] _ v w _ (quiet_step [] v w refl refl refl refl refl)
          (close_connection-Kept w))
