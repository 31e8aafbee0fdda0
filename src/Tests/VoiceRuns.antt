-- ===== src/Tests/VoiceRuns.antt =====
-- Runs of the voice connection.
use mathlib.Core.Option.{some-injective}
use discordgo.Base.{
  ◌≡◌, ◌≢◌, refl, ap, sym, true, false, none, some, List, [], ◌∷◌, ◌++◌, drop, take, arith, inl,
  inr,
}
use discordgo.Voice.Bytes.{Bytes, le_32}
use discordgo.Voice.Packets.{
  VoicePacket, Aead, Controller, Frame, Counters, notified, rtp_header, sealed_packet, send_frame,
  send_frames, outbound_packet,
}
use discordgo.Voice.Numbering.{opus_sender-rtp_header}
use discordgo.Voice.Sealed.{SealedWith, opus_sender-seal}
use discordgo.Voice.Rtp.{Extension, Rtp, header_with, packet_from}
use discordgo.Voice.Receiving.{receive}
use discordgo.Voice.Delivery.{receive-Rtp, receive-send_frame}

-- A cipher that adds nothing.
abbrev clear : Aead
clear = record { seal = λ nonce plain aad. plain; unseal = λ nonce text aad. some text }

-- A controller that puts a byte in front.
abbrev marking : Controller
marking = record {
  encrypt = λ p opus. some (7 ∷ opus);
  decrypt = λ p payload. some (drop 1 payload);
}

abbrev frame_of : Bytes → Frame
frame_of opus = record {
  opus = opus;
  aead = some clear;
  controller = some marking;
  notification = notified;
  closed = false;
  written = true;
}

-- The second frame comes before the key.
abbrev frames : List Frame
frames = frame_of (1 ∷ []) ∷ record (frame_of (2 ∷ [])) { aead = none } ∷ frame_of (3 ∷ []) ∷ []

abbrev counters : Counters
counters = record { sequence = 65535; timestamp = 960; nonce_counter = 5; speaking = false }

abbrev second : Bytes
second = rtp_header 9 1 960 ++ (7 ∷ 3 ∷ []) ++ le_32 7

opus_sender-rtp_header_example : take 12 second ≡ rtp_header 9 1 960
unfolding send_frames
opus_sender-rtp_header_example =
    opus_sender-rtp_header 9 960 5 false frames refl (omega arith) 1 second refl

abbrev first : Bytes
first = rtp_header 9 0 0 ++ (7 ∷ 1 ∷ []) ++ le_32 5

opus_sender-seal_example :
    (n : Bytes) × (n' : Bytes) × (n ≢ n') × SealedWith clear n first × SealedWith clear n' second
unfolding send_frames
opus_sender-seal_example =
    opus_sender-seal clear 9 960 5 false frames 0 1 first second
      (inr refl, (inl refl, (inr refl, tt))) (omega arith) (omega arith) (omega arith) refl refl

abbrev rtp : Rtp
rtp = record {
  kind = 0x78;
  sequence = 700;
  timestamp = 70000;
  ssrc = 9;
  source_count = 1;
  sources = 1 ∷ 2 ∷ 3 ∷ 4 ∷ [];
}

abbrev extension : Extension
extension = record { profile = (0xBE, 0xDE); words = 1; payload = 5 ∷ 6 ∷ 7 ∷ 8 ∷ [] }

receive-Rtp_example :
    receive
      (some clear)
      none
      (header_with rtp (some extension) ++ ((5 ∷ 6 ∷ 7 ∷ 8 ∷ 42 ∷ []) ++ le_32 3))
    ≡ some (packet_from rtp (some extension) (42 ∷ []))
receive-Rtp_example =
    receive-Rtp clear none rtp (some extension) (5 ∷ 6 ∷ 7 ∷ 8 ∷ 42 ∷ []) (42 ∷ []) (42 ∷ []) 3
      (record {
        sequence_below = omega arith;
        timestamp_below = omega arith;
        ssrc_below = omega arith;
        few_sources = omega arith;
        sources_length = refl;
      })
      (omega arith, refl) (omega arith) (omega arith) refl refl

abbrev packet : Bytes
packet = sealed_packet clear 9 counters (7 ∷ 1 ∷ [])

marking-undone :
    (p p' : VoicePacket) (payload : Bytes)
    → some (7 ∷ 1 ∷ []) ≡ some payload
    → some (drop 1 payload) ≡ some (1 ∷ [])
marking-undone p p' payload e = ap (λ b. some (drop 1 b)) (sym (some-injective _ _ e))

receive-send_frame_example :
    receive (some clear) (some marking) packet
    ≡ some (record (outbound_packet 9 counters) { type = 0x80 ∷ 0x78 ∷ []; opus = 1 ∷ [] })
unfolding send_frame
receive-send_frame_example =
    receive-send_frame clear (some marking) 9 960 (frame_of (1 ∷ [])) counters packet (omega arith)
      (omega arith) (omega arith) (omega arith) (omega arith) refl (λ nonce plain aad. refl)
      marking-undone refl
