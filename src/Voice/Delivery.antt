-- ===== src/Voice/Delivery.antt =====
-- voice.go: what `opusReceiver` makes of a packet, also of one that `opusSender` sent.
use mathlib.Core.Option.{some-injective}
use mathlib.Core.Path.{subst}
use discordgo.Base.{
  ℕ, ◌+◌, ◌-◌, ◌≤◌, ◌<◌, ◌≡◌, refl, ◌∙◌, ap, sym, Option, none, some, [], ◌∷◌, ◌++◌, length, drop,
  take, length-append, take-append, drop-length_append, take-all, arith,
}
use discordgo.Voice.Bytes.{Bytes, le_32, le_uint_32, zeros, le_uint_32-le_32}
use discordgo.Voice.Packets.{
  VoicePacket, Aead, Controller, transform_inbound_opus, transform_outbound_opus, outbound_packet,
  Frame, sent, send_frame, rtp_header, nonce_of, sealed_packet, Counters,
}
use discordgo.Voice.Rtp.{
  Extension, Rtp, header_with, extension_payload, Valid, Fits, packet_from, packet_of-header,
  layout-header,
}
use discordgo.Voice.Rounds.{send_frame-sealed_packet}
use discordgo.Voice.Receiving.{
  layout, packet_of, strip, finish, open_payload, decrypt_payload, receive,
}

drop-end : (xs ys : Bytes) → length ys ≡ 4 → drop (length (xs ++ ys) - 4) (xs ++ ys) ≡ ys
drop-end xs ys h =
    ap (λ n. drop n (xs ++ ys)) (omega (arith, length-append xs ys)) ∙ drop-length_append xs ys

take-end : (xs ys : Bytes) → length ys ≡ 4 → take (length (xs ++ ys) - 4) (xs ++ ys) ≡ xs
take-end xs ys h =
    ap (λ n. take n (xs ++ ys)) (omega (arith, length-append xs ys)) ∙ take-append xs ys

open_payload-sealed :
    (aead : Aead) (header cipher plain : Bytes) (counter : ℕ)
    → counter < 4294967296
    → aead.unseal (nonce_of counter) cipher header ≡ some plain
    → open_payload aead header (cipher ++ le_32 counter) ≡ some plain
unfolding open_payload
open_payload-sealed aead header cipher plain counter below opens =
    let whole = cipher ++ le_32 counter in
    ap (λ c. aead.unseal (le_32 (le_uint_32 c) ++ zeros 8) (take (length whole - 4) whole) header)
      (drop-end cipher (le_32 counter) refl)
    ∙ ap (λ c. aead.unseal (le_32 (le_uint_32 (le_32 counter)) ++ zeros 8) c header)
        (take-end cipher (le_32 counter) refl)
    ∙ ap (λ k. aead.unseal (le_32 k ++ zeros 8) cipher header) (le_uint_32-le_32 counter below)
    ∙ opens

decrypt_payload_lem :
    (aead : Aead) (controller : Option Controller) (bs header payload plain : Bytes) (n len : ℕ)
    → take len bs ≡ header
    → drop len bs ≡ payload
    → len + 4 ≤ length bs
    → 4 ≤ length payload
    → open_payload aead header payload ≡ some plain
    → decrypt_payload (some aead) controller len n bs
      ≡ finish controller (packet_of bs) (strip n plain)
unfolding decrypt_payload
decrypt_payload_lem aead controller bs header payload plain n len front back long long' opens =
    rw (front, back, opens) (ground arith)

decrypt_payload-sealed :
    (aead : Aead) (controller : Option Controller) (header cipher plain : Bytes) (counter n len : ℕ)
    → counter < 4294967296
    → len ≡ length header
    → aead.unseal (nonce_of counter) cipher header ≡ some plain
    → decrypt_payload (some aead) controller len n (header ++ (cipher ++ le_32 counter))
      ≡ finish controller (packet_of (header ++ (cipher ++ le_32 counter))) (strip n plain)
decrypt_payload-sealed aead controller header cipher plain counter n len below e opens =
    let tail = cipher ++ le_32 counter in
    decrypt_payload_lem aead controller (header ++ tail) header tail plain n len
      (ap (λ k. take k (header ++ tail)) e ∙ take-append header tail)
      (ap (λ k. drop k (header ++ tail)) e ∙ drop-length_append header tail)
      (omega (arith, length-append header tail, length-append cipher (le_32 counter)))
      (omega (arith, length-append cipher (le_32 counter)))
      (open_payload-sealed aead header cipher plain counter below opens)

strip_lem :
    (n : ℕ) (plain rest : Bytes)
    → 0 < n
    → n ≤ length plain
    → drop n plain ≡ rest
    → strip n plain ≡ some rest
strip_lem n plain rest positive long e = rw e (ground arith)

strip-append : (xs ys : Bytes) (n : ℕ) → n ≡ length xs → strip n (xs ++ ys) ≡ some ys
strip-append [] ys n e = rw e refl
strip-append (x ∷ xs) ys n e =
    let whole = x ∷ xs ++ ys in
    let long = length-append xs ys in
    let rest = ap (λ k. drop k whole) e ∙ drop-length_append (x ∷ xs) ys in
    strip_lem n whole ys (omega arith) (omega arith) rest

finish_lem :
    (controller : Option Controller) (p : VoicePacket) (plain opus : Bytes)
    → transform_inbound_opus controller p plain ≡ some opus
    → finish controller p (some plain) ≡ some (record p { opus = opus })
finish_lem controller p plain opus e = rw (finish, e) refl

-- From the layout on, of a datagram that the read buffer holds.
receive_lem :
    (aead : Option Aead) (controller : Option Controller) (bs : Bytes) (len n : ℕ)
    → length bs ≤ 2048
    → layout bs ≡ some (len, n)
    → receive aead controller bs ≡ decrypt_payload aead controller len n bs
unfolding receive
receive_lem aead controller bs len n fits e =
    let cut = take-all 2048 bs fits in
    rw (receive, ap layout cut ∙ e) (ap (decrypt_payload aead controller len n) cut)

-- An RTP packet of version 2 without padding, of any numbers, up to 15 further sources and any
-- header extension, that fits into the 2048 bytes of the read buffer and whose text is sealed with the header in the clear as additional data and with the nonce counter
-- that stands behind it: what opens it gives the extension's payload and then a text, which the controller
-- transforms. The receiver delivers a packet with just these numbers and the transformed
-- text.
pub receive-Rtp :
    (aead : Aead) (controller : Option Controller) (r : Rtp) (x : Option Extension)
    (cipher text opus : Bytes) (counter : ℕ)
    → Valid r
    → Fits x
    → counter < 4294967296
    → length (header_with r x ++ (cipher ++ le_32 counter)) ≤ 2048
    → aead.unseal (nonce_of counter) cipher (header_with r x) ≡ some (extension_payload x ++ text)
    → transform_inbound_opus controller (packet_from r x []) text ≡ some opus
    → receive (some aead) controller (header_with r x ++ (cipher ++ le_32 counter))
      ≡ some (packet_from r x opus)
receive-Rtp aead controller r x cipher text opus counter v fits below short opens decodes =
    let header = header_with r x in
    let tail = cipher ++ le_32 counter in
    let n = length (extension_payload x) in
    receive_lem (some aead) controller (header ++ tail) (length header) n short
      (layout-header r x tail v fits)
    ∙ decrypt_payload-sealed aead controller header cipher _ counter n (length header) below refl
        opens
    ∙ ap (λ p. finish controller p (strip n (extension_payload x ++ text)))
        (packet_of-header r x tail v)
    ∙ ap (finish controller (packet_from r x [])) (strip-append (extension_payload x) text n refl)
    ∙ finish_lem controller (packet_from r x []) text opus decodes

receive-sealed_packet :
    (aead : Aead) (receiver : Option Controller) (ssrc : ℕ) (c : Counters) (opus payload : Bytes)
    → ssrc < 4294967296
    → c.sequence < 65536
    → c.timestamp < 4294967296
    → c.nonce_counter < 4294967296
    → length (sealed_packet aead ssrc c payload) ≤ 2048
    → ((nonce plain aad : Bytes) → aead.unseal nonce (aead.seal nonce plain aad) aad ≡ some plain)
    → ((p : VoicePacket) → transform_inbound_opus receiver p payload ≡ some opus)
    → receive (some aead) receiver (sealed_packet aead ssrc c payload)
      ≡ some (record (outbound_packet ssrc c) { type = 0x80 ∷ 0x78 ∷ []; opus = opus })
receive-sealed_packet aead receiver ssrc c opus payload ssrc_below sequence_below timestamp_below
      below short opens decodes =
    let header = rtp_header ssrc c.sequence c.timestamp in
    let r : Rtp = record {
      kind = 0x78;
      sequence = c.sequence;
      timestamp = c.timestamp;
      ssrc = ssrc;
      source_count = 0;
      sources = [];
    } in
    receive-Rtp aead receiver r none (aead.seal (nonce_of c.nonce_counter) payload header) payload
      opus c.nonce_counter
      (record {
        sequence_below = sequence_below;
        timestamp_below = timestamp_below;
        ssrc_below = ssrc_below;
        few_sources = omega arith;
        sources_length = refl;
      })
      tt below short (opens _ _ _) (decodes _)

-- A packet that `opusSender` sends of a frame, with numbers below their bounds, is delivered by
-- the receiver with the same numbers and the frame's opus data, if it fits into the 2048 bytes of the read
-- buffer and the receiver has the sender's
-- cipher, which opens what it has sealed, and a controller that undoes the sender's.
pub receive-send_frame :
    (aead : Aead) (receiver : Option Controller) (ssrc size : ℕ) (frame : Frame) (c : Counters)
    (packet : Bytes)
    → ssrc < 4294967296
    → c.sequence < 65536
    → c.timestamp < 4294967296
    → c.nonce_counter < 4294967296
    → length packet ≤ 2048
    → frame.aead ≡ some aead
    → ((nonce plain aad : Bytes) → aead.unseal nonce (aead.seal nonce plain aad) aad ≡ some plain)
    → ((p p' : VoicePacket) (payload : Bytes)
        → transform_outbound_opus frame.controller p frame.opus ≡ some payload
        → transform_inbound_opus receiver p' payload ≡ some frame.opus)
    → (send_frame ssrc size frame c).0 ≡ sent packet
    → receive (some aead) receiver packet
      ≡ some (record (outbound_packet ssrc c) { type = 0x80 ∷ 0x78 ∷ []; opus = frame.opus })
receive-send_frame aead receiver ssrc size frame c packet ssrc_below sequence_below timestamp_below
      below short keyed opens undoes sends =
    let (payload, a, made, keyed', sealed) =
      send_frame-sealed_packet ssrc size frame c packet sends in
    let same = some-injective _ _ (sym keyed' ∙ keyed) in
    let whole = sealed ∙ ap (λ a. sealed_packet a ssrc c payload) same in
    ap (receive (some aead) receiver) whole
    ∙ receive-sealed_packet aead receiver ssrc c frame.opus payload ssrc_below sequence_below
        timestamp_below below (subst (λ bs. length bs ≤ 2048) whole short) opens
        (λ p. undoes _ p payload made)
