-- ===== src/Voice/Packets.antt =====
-- voice.go: `opusSender` and `opusReceiver`, with the transforms of a DAVE controller.
--
-- A connection's cipher and a controller's two functions are parameters of the model, as fields
-- of records; what the channels and the UDP connection hand to a loop is a list.
use discordgo.Base.{
  ℕ, ◌+◌, ◌%◌, Bool, true, false, ◌||◌, not, Option, none, some, List, [], ◌∷◌, ◌++◌, eqb, leb,
  if◌then◌else◌,
}
use discordgo.Voice.Bytes.{Bytes, be_16, be_32, le_32, zeros}

-- `PCM` is not set by any code of voice.go.
pub record VoicePacket : Type 0 where
  pub ssrc : ℕ
  pub sequence : ℕ
  pub timestamp : ℕ
  pub type : Bytes
  pub opus : Bytes

-- `Seal` and `Open`: the nonce, the text and the additional data.
pub record Aead : Type 0 where
  pub seal : Bytes → Bytes → Bytes → Bytes
  pub unseal : Bytes → Bytes → Bytes → Option Bytes

-- `EncryptOpus` and `DecryptOpus`.
pub record Controller : Type 0 where
  pub encrypt : VoicePacket → Bytes → Option Bytes
  pub decrypt : VoicePacket → Bytes → Option Bytes

abbrev pub transform_outbound_opus : Option Controller → VoicePacket → Bytes → Option Bytes
transform_outbound_opus none p opus = some opus
transform_outbound_opus (some c) p opus = c.encrypt p opus

abbrev pub transform_inbound_opus : Option Controller → VoicePacket → Bytes → Option Bytes
transform_inbound_opus none p opus = some opus
transform_inbound_opus (some c) p opus = c.decrypt p opus

-- The loop's variables, and the fields `nonceCounter` and `speaking` of the connection.
pub record Counters : Type 0 where
  pub sequence : ℕ
  pub timestamp : ℕ
  pub nonce_counter : ℕ
  pub speaking : Bool

-- What a round of the sender meets: the opus data, the cipher and the controller at that time,
-- what the websocket makes of the speaking notification (without a websocket `no_socket`),
-- whether the connection is closed while it waits for its time, and whether the packet is
-- written.
pub data Notified : Type 0 where
  notified not_written no_socket : Notified

pub record Frame : Type 0 where
  pub opus : Bytes
  pub aead : Option Aead
  pub controller : Option Controller
  pub notification : Notified
  pub closed : Bool
  pub written : Bool

-- `Speaking(true)`
abbrev pub speaking_true : Notified → Bool → Bool
speaking_true notified b = true
speaking_true not_written b = false
speaking_true no_socket b = b

-- The end of a round: the loop goes on with or without having sent, or returns.
pub data Sent : Type 0 where
  sent : Bytes → Sent
  dropped stopped : Sent

abbrev pub rtp_header : (ssrc sequence timestamp : ℕ) → Bytes
rtp_header ssrc sequence timestamp = 0x80 ∷ 0x78 ∷ be_16 sequence ++ be_32 timestamp ++ be_32 ssrc

abbrev pub nonce_of : ℕ → Bytes
nonce_of counter = le_32 counter ++ zeros 8

abbrev pub outbound_packet : (ssrc : ℕ) → Counters → VoicePacket
outbound_packet ssrc c = record {
  ssrc = ssrc;
  sequence = c.sequence;
  timestamp = c.timestamp;
  type = [];
  opus = [];
}

-- The counters after a packet that was written.
abbrev pub advance : (size : ℕ) → Counters → Counters
advance size c = record c {
  sequence = if eqb c.sequence 0xFFFF then 0 else c.sequence + 1;
  timestamp =
      let next = (c.timestamp + size) % 4294967296 in if leb 0xFFFFFFFF next then 0 else next;
}

abbrev pub count_nonce : Counters → Counters
count_nonce c = record c { nonce_counter = (c.nonce_counter + 1) % 4294967296 }

-- What is sent of a payload.
abbrev pub sealed_packet : Aead → (ssrc : ℕ) → Counters → Bytes → Bytes
sealed_packet aead ssrc c payload =
    let header = rtp_header ssrc c.sequence c.timestamp in
    header ++ (aead.seal (nonce_of c.nonce_counter) payload header ++ le_32 c.nonce_counter)

-- From the cipher on.
unfoldable pub seal_frame :
    (ssrc size : ℕ) → Option Aead → Frame → Counters → Bytes → Sent × Counters
seal_frame ssrc size none frame c payload = (dropped, count_nonce c)
seal_frame ssrc size (some aead) frame c payload =
    if frame.closed || not frame.written
    then (stopped, count_nonce c)
    else (sent (sealed_packet aead ssrc c payload), advance size (count_nonce c))

-- `if !speaking { v.Speaking(true) }`
abbrev pub notify : Notified → Bool → Bool
notify n speaking = if speaking then speaking else speaking_true n speaking

-- One round of `opusSender`, from a frame on.
unfoldable pub send_frame : (ssrc size : ℕ) → Frame → Counters → Sent × Counters
unfolding seal_frame
send_frame ssrc size frame c₀ =
    let c = record c₀ { speaking = notify frame.notification c₀.speaking } in
    elim (transform_outbound_opus frame.controller (outbound_packet ssrc c) frame.opus) [
      | none ↦ (dropped, c)
      | some payload ↦ seal_frame ssrc size frame.aead frame c payload
    ]

-- The packets of the loop, until it returns or until a channel is closed, which ends the list.
unfoldable pub send_frames : (ssrc size : ℕ) → List Frame → Counters → List Bytes × Counters
unfolding send_frame
send_frames ssrc size [] c = ([], c)
send_frames ssrc size (frame ∷ frames) c =
    let (result, c') = send_frame ssrc size frame c in
    let (rest, c'') = send_frames ssrc size frames c' in
    elim result [ sent packet ↦ (packet ∷ rest, c'') | dropped ↦ (rest, c'') | stopped ↦ ([], c') ]

-- `opusSender` with its first counters; the connection is ready while it runs only.
abbrev pub opus_sender :
    (ssrc size nonce_counter : ℕ) (speaking : Bool) → List Frame → List Bytes × Counters
opus_sender ssrc size nonce_counter speaking frames =
    send_frames ssrc size frames
      (record { sequence = 0; timestamp = 0; nonce_counter = nonce_counter; speaking = speaking })
