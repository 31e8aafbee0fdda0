-- ===== src/Voice/Connection.antt =====
-- voice.go: the state of `VoiceConnection`; `Close`, `Speaking`, `ChangeChannel`, `Disconnect`,
-- `Resume`, `open`, `udpOpen` and `startHeartbeat`.
--
-- A websocket, a UDP connection and a close channel are told by numbers, which what makes them
-- hands out: they are parameters, as are the results of each write. What is done besides the
-- change of the state is a list of effects.
use discordgo.Base.{
  ℕ, zero, suc, String, Bool, true, false, not, ◌||◌, ◌==◌, Option, none, some, List, [], ◌∷◌, ◌++◌,
  eqb, ltb, length, drop, if◌then◌else◌,
}
use discordgo.Ratelimit.Buckets.{ℤ, negsuc}
use discordgo.Voice.Bytes.{Bytes, be_uint_16, slice}

-- The functions of a `VoiceDAVEController` but those on audio; an error is `none`.
pub record DaveController : Type 0 where
  pub prepare_transition : (transition_id protocol_version : ℕ) → Option Bool
  pub prepare_epoch : (transition_id protocol_version epoch : ℕ) → Option (Bool × Bytes)
  pub handle_mls_proposals : (operation_type : ℕ) → Bytes → Option (Bytes × Bytes)
  pub handle_mls_commit_transition : (transition_id : ℕ) → Bytes → Option Bool
  pub handle_mls_welcome : (transition_id : ℕ) → Bytes → Option Bool

-- The fields of `voiceOP2` that are read.
pub record VoiceReady : Type 0 where
  pub ssrc : ℕ
  pub ip : String
  pub port : ℕ

pub record VoiceConnection : Type 0 where
  pub ready : Bool
  pub user_id : String
  pub guild_id : String
  pub channel_id : String
  pub deaf : Bool
  pub mute : Bool
  pub speaking : Bool
  pub reconnecting : Bool
  pub max_dave_protocol_version : ℕ
  pub ws_conn : Option ℕ
  pub udp_conn : Option ℕ
  pub session_id : String
  pub token : String
  pub endpoint : String
  pub close_channel : Option ℕ
  -- The secret key that the cipher is made of.
  pub aead : Option Bytes
  pub op2 : VoiceReady
  pub voice_seq_ack : ℤ
  pub voice_heartbeat_active : Bool
  pub dave_controller : Option DaveController

pub data VoiceEffect : Type 0 where
  opens_ws closes_ws drops_ws opens_udp closes_udp opens_channel closes_channel : ℕ → VoiceEffect
  -- An operation written to the voice websocket, and one to the session's.
  sends_op sends_to_gateway : ℕ → VoiceEffect
  sends_binary : (opcode : ℕ) → Bytes → VoiceEffect
  sends_discovery : (ssrc : ℕ) → VoiceEffect
  selects_protocol : (ip : Bytes) → (port : ℕ) → VoiceEffect
  -- Goroutines, with the connection and the channel that they are given.
  starts_listen starts_heartbeat starts_keep_alive starts_sender starts_receiver :
      Option ℕ → Option ℕ → VoiceEffect
  starts_reconnect : VoiceEffect
  closes_controller calls_controller calls_handlers : VoiceEffect
  deletes_connection : (guild_id : String) → VoiceEffect

abbrev pub VoiceAction : Type 0
VoiceAction = VoiceConnection → List VoiceEffect × VoiceConnection

-- The effects on what a field holds, if it holds anything.
abbrev pub on_held : (ℕ → List VoiceEffect) → Option ℕ → List VoiceEffect
on_held f none = []
on_held f (some n) = f n

abbrev pub on_controller : List VoiceEffect → Option DaveController → List VoiceEffect
on_controller es none = []
on_controller es (some c) = es

-- `Close`; its writes may fail, which is only logged.
unfoldable pub close_connection : VoiceAction
close_connection v = (
  on_held (λ n. closes_channel n ∷ []) v.close_channel
      ++ (on_held (λ n. closes_udp n ∷ []) v.udp_conn
          ++ (on_held (λ n. closes_ws n ∷ []) v.ws_conn
              ++ on_controller (closes_controller ∷ []) v.dave_controller)),
  record v {
    ready = false;
    speaking = false;
    dave_controller = none;
    close_channel = none;
    udp_conn = none;
    ws_conn = none;
  },
)

-- `Speaking`
unfoldable pub speak :
    (b written : Bool) → VoiceConnection → Bool × (List VoiceEffect × VoiceConnection)
speak b written v = elim v.ws_conn [
  | none ↦ (false, ([], v))
  | some n ↦ (written, (sends_op 5 ∷ [], record v { speaking = if written then b else false }))
]

-- `ChangeChannel`
unfoldable pub change_channel :
    (channel_id : String) (mute deaf written : Bool)
    → VoiceConnection
    → Bool × (List VoiceEffect × VoiceConnection)
change_channel channel_id mute deaf written v = (
  written,
  (
    sends_to_gateway 4 ∷ [],
    (if written
        then record v { channel_id = channel_id; deaf = deaf; mute = mute; speaking = false }
        else v),
  ),
)

-- `Disconnect`; an error of its write is returned, but changes nothing.
unfoldable pub disconnect : VoiceAction
unfolding close_connection
disconnect v =
    let sends = if v.session_id == "" then [] else sends_to_gateway 4 ∷ [] in
    let (es, v') = close_connection (record v { session_id = "" }) in
    (sends ++ (es ++ deletes_connection v.guild_id ∷ []), v')

-- `Resume`
abbrev pub resume : VoiceConnection → Option VoiceEffect
resume v = elim v.ws_conn [ none ↦ none | some n ↦ some (sends_op 7) ]

-- What `open` meets: the session ID at the end of its wait for one, the websocket if it is connected,
-- whether the identification is written, the close channel that is made, and the default
-- controller.
pub record Dialing : Type 0 where
  pub session_id : String
  pub connected : Option ℕ
  pub identified : Bool
  pub channel : ℕ
  pub default_controller : Option DaveController

abbrev pub or_default : Option DaveController → Option DaveController → Option DaveController
or_default none d = d
or_default (some c) d = some c

-- `open` before and behind the connection of the websocket; whether it succeeds comes first.
unfoldable pub identify_voice :
    Dialing → ℕ → VoiceConnection → Bool × (List VoiceEffect × VoiceConnection)
identify_voice d ws v₀ =
    let v = record v₀ {
      ws_conn = some ws;
      max_dave_protocol_version =
          if eqb v₀.max_dave_protocol_version 0 then 1 else v₀.max_dave_protocol_version;
      dave_controller = or_default v₀.dave_controller d.default_controller;
      voice_seq_ack = if v₀.reconnecting then v₀.voice_seq_ack else negsuc 0;
      voice_heartbeat_active = false;
    } in
    if d.identified
    then (
      true,
      (
        opens_ws ws
            ∷ sends_op 0
            ∷ opens_channel d.channel
            ∷ starts_listen (some ws) (some d.channel)
            ∷ [],
        record v { close_channel = some d.channel },
      ),
    )
    else (false, (opens_ws ws ∷ sends_op 0 ∷ [], v))

unfoldable pub open_voice : Dialing → VoiceConnection → Bool × (List VoiceEffect × VoiceConnection)
unfolding identify_voice
open_voice d v = elim v.ws_conn [
  | some n ↦ (true, ([], v))
  | none ↦
      let id = if v.session_id == "" then d.session_id else v.session_id in
      if id == "" then (false, ([], v)) else elim d.connected [
        | none ↦ (false, ([], record v { session_id = id }))
        | some ws ↦ identify_voice d ws (record v { session_id = id })
      ]
]

-- What `udpOpen` meets.
pub record Discovery : Type 0 where
  pub resolved : Bool
  pub connected : Option ℕ
  pub written : Bool
  pub reply : Option Bytes
  pub selected : Bool

-- The address in a reply: what stands between the places 8 and 72 up to the first zero.
abbrev pub until_zero : Bytes → Bytes
until_zero [] = []
until_zero (b ∷ bs) = if eqb b 0 then [] else b ∷ until_zero bs

abbrev pub ip_of : Bytes → Bytes
ip_of rb = until_zero (slice 8 72 rb)

abbrev pub port_of : Bytes → ℕ
port_of rb = be_uint_16 (drop 72 rb)

-- `udpOpen` behind the connection.
unfoldable pub discover : Discovery → ℕ → VoiceConnection → Bool × List VoiceEffect
discover d udp v =
    if not d.written then (false, sends_discovery v.op2.ssrc ∷ []) else elim d.reply [
      | none ↦ (false, sends_discovery v.op2.ssrc ∷ [])
      | some rb ↦
          if ltb (length rb) 74
          then (false, sends_discovery v.op2.ssrc ∷ [])
          else if d.selected
          then (
            true,
            sends_discovery v.op2.ssrc
                ∷ selects_protocol (ip_of rb) (port_of rb)
                ∷ starts_keep_alive (some udp) v.close_channel
                ∷ [],
          )
          else (false, sends_discovery v.op2.ssrc ∷ selects_protocol (ip_of rb) (port_of rb) ∷ [])
    ]

abbrev pub is_none : {A : Type 0} → Option A → Bool
is_none none = true
is_none (some a) = false

-- The checks of `udpOpen`, which return an error each.
abbrev pub udp_refused : Discovery → VoiceConnection → Bool
udp_refused d v =
    is_none v.ws_conn
    || (not (is_none v.udp_conn)
        || (is_none v.close_channel || (v.endpoint == "" || not d.resolved)))

unfoldable pub udp_open : Discovery → VoiceConnection → Bool × (List VoiceEffect × VoiceConnection)
unfolding discover
udp_open d v = if udp_refused d v then (false, ([], v)) else elim d.connected [
  | none ↦ (false, ([], v))
  | some udp ↦
      let (ok, es) = discover d udp v in
      (ok, (opens_udp udp ∷ es, record v { udp_conn = some udp }))
]

-- `startHeartbeat`; an interval that is not positive is 0.
unfoldable pub start_heartbeat : (interval : ℕ) → VoiceAction
start_heartbeat zero v = ([], v)
start_heartbeat (suc n) v = if v.voice_heartbeat_active then ([], v) else (
  starts_heartbeat v.ws_conn v.close_channel ∷ [],
  record v { voice_heartbeat_active = true },
)
