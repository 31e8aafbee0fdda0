-- ===== src/Voice/Receiving.antt =====
-- voice.go: `opusReceiver`. Every byte that it looks at is one of the datagram that was read, so
-- the rest of its buffer is left out.
use Prim.Native.Nat.{bit_and}
use discordgo.Base.{
  ℕ, ◌+◌, ◌-◌, ◌*◌, Bool, false, ◌||◌, not, Option, none, some, List, [], ◌∷◌, ◌++◌, eqb, ltb,
  length, drop, take, if◌then◌else◌,
}
use discordgo.Voice.Bytes.{Bytes, le_32, be_uint_16, be_uint_32, le_uint_32, slice, zeros}
use discordgo.Voice.Packets.{VoicePacket, Aead, Controller, transform_inbound_opus}

-- `bs[0]`; an empty datagram is turned away before.
abbrev pub first_byte : Bytes → ℕ
first_byte [] = 0
first_byte (b ∷ bs) = b

-- The length of what is not encrypted, and that of the header extension that is.
unfoldable pub layout : Bytes → Option (ℕ × ℕ)
layout bs =
    if ltb (length bs) 12 || not (eqb (bit_and (first_byte bs) 0xC0) 0x80)
    then none
    else (let base_header_len = 12 + 4 * bit_and (first_byte bs) 0x0F in
        if ltb (length bs) base_header_len
        then none
        else if eqb (bit_and (first_byte bs) 0x10) 0
        then some (base_header_len, 0)
        else if ltb (length bs) (base_header_len + 4)
        then none
        else some (
          base_header_len + 4,
          be_uint_16 (slice (base_header_len + 2) (base_header_len + 4) bs) * 4,
        ))

abbrev pub packet_of : Bytes → VoicePacket
packet_of bs = record {
  ssrc = be_uint_32 (slice 8 12 bs);
  sequence = be_uint_16 (slice 2 4 bs);
  timestamp = be_uint_32 (slice 4 8 bs);
  type = slice 0 2 bs;
  opus = [];
}

-- The text behind the header extension.
abbrev pub strip : (ext_payload_bytes : ℕ) → Bytes → Option Bytes
strip n plain =
    if ltb 0 n then (if ltb (length plain) n then none else some (drop n plain)) else some plain

abbrev pub finish : Option Controller → VoicePacket → Option Bytes → Option VoicePacket
finish controller p none = none
finish controller p (some plain) = elim (transform_inbound_opus controller p plain) [
  | none ↦ none
  | some decoded ↦ some (record p { opus = decoded })
]

-- `aead.Open` of a payload with its nonce counter behind it.
unfoldable pub open_payload : Aead → (aad payload : Bytes) → Option Bytes
open_payload aead aad payload =
    let len = length payload in
    aead.unseal (le_32 (le_uint_32 (drop (len - 4) payload)) ++ zeros 8) (take (len - 4) payload)
      aad

unfoldable pub decrypt_payload :
    Option Aead → Option Controller → (aad_len ext_payload_bytes : ℕ) → Bytes → Option VoicePacket
unfolding open_payload
decrypt_payload none controller aad_len n bs = none
decrypt_payload (some aead) controller aad_len n bs =
    let payload = drop aad_len bs in
    if ltb (length bs) (aad_len + 4) || ltb (length payload) 4
    then none
    else elim (open_payload aead (take aad_len bs) payload) [
      | none ↦ none
      | some plain ↦ finish controller (packet_of bs) (strip n plain)
    ]

-- What is made of a datagram, of which 2048 bytes are read; `none` is one that is skipped.
unfoldable pub receive : Option Aead → Option Controller → Bytes → Option VoicePacket
unfolding layout decrypt_payload
receive aead controller datagram =
    let bs = take 2048 datagram in
    elim (layout bs) [
      | none ↦ none
      | some (aad_len, n) ↦ decrypt_payload aead controller aad_len n bs
    ]

-- What a round of the loop meets: an error of the connection, which is still the current one or
-- not; a closed channel; or a datagram, with the cipher and the controller at that time, and
-- whether the channel is closed before its packet is taken.
pub data Read : Type 0 where
  read_failed : (same_connection : Bool) → Read
  read_closed : Read
  datagram : Bytes → Option Aead → Option Controller → (closed : Bool) → Read

-- `opusReceiver`: the packets that are delivered, and whether a reconnect is started. The loop
-- has not returned where the list ends.
unfoldable pub opus_receiver : List Read → List VoicePacket × Bool
unfolding receive
opus_receiver [] = ([], false)
opus_receiver (read_failed same_connection ∷ reads) = ([], same_connection)
opus_receiver (read_closed ∷ reads) = ([], false)
opus_receiver (datagram bs aead controller closed ∷ reads) =
    let (packets, reconnects) = opus_receiver reads in
    elim (receive aead controller bs) [
      | none ↦ (packets, reconnects)
      | some p ↦ if closed then ([], false) else (p ∷ packets, reconnects)
    ]
