-- ===== src/Voice/Rounds.antt =====
-- voice.go: what one round of `opusSender` does to its counters.
use discordgo.Base.{
  ℕ, ◌+◌, ◌-◌, ◌%◌, ◌<◌, ◌≡◌, refl, ◌∙◌, ◌⊎◌, inl, inr, ap, sym, Bool, Option, none, some, [], ◌++◌,
  length, drop, take, drop-length_append, length-append, arith, on_if, on_option,
}
use discordgo.Voice.Bytes.{Bytes, le_32, le_uint_32, le_uint_32-le_32}
use discordgo.Voice.Packets.{
  Aead, Counters, Frame, Sent, sent, dropped, stopped, rtp_header, advance, count_nonce, nonce_of,
  sealed_packet, seal_frame, notify, send_frame, outbound_packet, transform_outbound_opus,
}

-- The nonce counter at the end of a packet.
abbrev pub nonce_at : Bytes → ℕ
nonce_at packet = le_uint_32 (drop (length packet - 4) packet)

-- What a round does to the counters.
abbrev pub Round : (ssrc size : ℕ) → Counters → Sent → Counters → Type 0
Round ssrc size c (sent packet) c' =
    (take 12 packet ≡ rtp_header ssrc c.sequence c.timestamp)
    × (nonce_at packet ≡ c.nonce_counter)
    × (c'.sequence ≡ (advance size c).sequence)
    × (c'.timestamp ≡ (advance size c).timestamp)
    × (c'.nonce_counter ≡ (c.nonce_counter + 1) % 4294967296)
Round ssrc size c dropped c' =
    (c'.sequence ≡ c.sequence)
    × (c'.timestamp ≡ c.timestamp)
    × ((c'.nonce_counter ≡ c.nonce_counter)
        ⊎ (c'.nonce_counter ≡ (c.nonce_counter + 1) % 4294967296))
Round ssrc size c stopped c' = (c'.sequence ≡ c.sequence) × (c'.timestamp ≡ c.timestamp)

drop-end : (xs ys : Bytes) → length ys ≡ 4 → drop (length (xs ++ ys) - 4) (xs ++ ys) ≡ ys
drop-end xs ys h =
    ap (λ n. drop n (xs ++ ys)) (omega (arith, length-append xs ys)) ∙ drop-length_append xs ys

pub sealed_packet-nonce :
    (aead : Aead) (ssrc : ℕ) (c : Counters) (payload : Bytes)
    → c.nonce_counter < 4294967296
    → nonce_at (sealed_packet aead ssrc c payload) ≡ c.nonce_counter
sealed_packet-nonce aead ssrc c payload h =
    let header = rtp_header ssrc c.sequence c.timestamp in
    let body = header ++ aead.seal (nonce_of c.nonce_counter) payload header in
    ap le_uint_32 (drop-end body (le_32 c.nonce_counter) refl) ∙ le_uint_32-le_32 _ h

seal_frame-Round :
    (ssrc size : ℕ) (aead : Option Aead) (frame : Frame) (c : Counters) (payload : Bytes)
    → c.nonce_counter < 4294967296
    → let out = seal_frame ssrc size aead frame c payload in Round ssrc size c out.0 out.1
unfolding seal_frame
seal_frame-Round ssrc size none frame c payload h = (refl, refl, inr refl)
seal_frame-Round ssrc size (some aead) frame c payload h =
    on_if (λ (out : Sent × Counters). Round ssrc size c out.0 out.1) _ (stopped, count_nonce c)
      (sent (sealed_packet aead ssrc c payload), advance size (count_nonce c)) (λ _. (refl, refl))
      (λ _. (refl, sealed_packet-nonce aead ssrc c payload h, refl, refl, refl))

-- The speaking flag does not matter to the numbers.
forget_speaking :
    (ssrc size : ℕ) (c : Counters) (b : Bool) (result : Sent) (c' : Counters)
    → Round ssrc size (record c { speaking = b }) result c'
    → Round ssrc size c result c'
forget_speaking ssrc size c b (sent packet) c' h = h
forget_speaking ssrc size c b dropped c' h = h
forget_speaking ssrc size c b stopped c' h = h

pub send_frame-Round :
    (ssrc size : ℕ) (frame : Frame) (c : Counters)
    → c.nonce_counter < 4294967296
    → let out = send_frame ssrc size frame c in Round ssrc size c out.0 out.1
unfolding send_frame
send_frame-Round ssrc size frame c₀ h =
    let speaking = notify frame.notification c₀.speaking in
    let c = record c₀ { speaking = speaking } in
    let out = send_frame ssrc size frame c₀ in
    forget_speaking ssrc size c₀ speaking out.0 out.1 (
      on_option (λ (out : Sent × Counters). Round ssrc size c out.0 out.1)
        (transform_outbound_opus frame.controller (outbound_packet ssrc c) frame.opus) (dropped, c)
        (λ payload. seal_frame ssrc size frame.aead frame c payload) (λ _. (refl, refl, inl refl))
        (λ payload _. seal_frame-Round ssrc size frame.aead frame c payload h))

-- What holds of each branch of a match on the end of a round holds of the match.
pub on_sent :
    {B : Type 0} (P : B → Type 0) (s : Sent) (f : Bytes → B) (b b' : B)
    → ((p : Bytes) → s ≡ sent p → P (f p))
    → (s ≡ dropped → P b)
    → (s ≡ stopped → P b')
    → P (elim s [ sent p ↦ f p | dropped ↦ b | stopped ↦ b' ])
on_sent P (sent p) f b b' h k l = h p refl
on_sent P dropped f b b' h k l = k refl
on_sent P stopped f b b' h k l = l refl

abbrev bytes_of : Sent → Bytes
bytes_of (sent p) = p
bytes_of _ = []

seal_frame-sealed_packet :
    (ssrc size : ℕ) (aead : Option Aead) (frame : Frame) (c : Counters) (payload packet : Bytes)
    → (seal_frame ssrc size aead frame c payload).0 ≡ sent packet
    → (a : Aead) × (aead ≡ some a) × (packet ≡ sealed_packet a ssrc c payload)
unfolding seal_frame
seal_frame-sealed_packet ssrc size none frame c payload packet = λ e. absurd (cc)
seal_frame-sealed_packet ssrc size (some a) frame c payload packet =
    on_if
      (λ (out : Sent × Counters).
        out.0 ≡ sent packet
        → (a' : Aead) × (some a ≡ some a') × (packet ≡ sealed_packet a' ssrc c payload))
      _ (stopped, count_nonce c)
      (sent (sealed_packet a ssrc c payload), advance size (count_nonce c)) (λ _ e. absurd (cc))
      (λ _ e. (a, refl, ap bytes_of (sym e)))

-- A packet that was sent is the seal of what the controller made of the frame.
pub send_frame-sealed_packet :
    (ssrc size : ℕ) (frame : Frame) (c : Counters) (packet : Bytes)
    → (send_frame ssrc size frame c).0 ≡ sent packet
    → (payload : Bytes) × (a : Aead) × (transform_outbound_opus frame.controller
          (outbound_packet ssrc c)
          frame.opus
        ≡ some payload)
      × (frame.aead ≡ some a)
      × (packet ≡ sealed_packet a ssrc c payload)
unfolding send_frame
send_frame-sealed_packet ssrc size frame c₀ packet =
    let c = record c₀ { speaking = notify frame.notification c₀.speaking } in
    let made = transform_outbound_opus frame.controller (outbound_packet ssrc c₀) frame.opus in
    on_option
      (λ (out : Sent × Counters).
        out.0 ≡ sent packet
        → (payload : Bytes) × (a : Aead) × (made ≡ some payload)
          × (frame.aead ≡ some a)
          × (packet ≡ sealed_packet a ssrc c₀ payload))
      made (dropped, c) (λ payload. seal_frame ssrc size frame.aead frame c payload)
      (λ _ e. absurd (cc))
      (λ payload e e'.
        let (a, keyed, sealed) =
          seal_frame-sealed_packet ssrc size frame.aead frame c payload packet e' in
        (payload, a, e, keyed, sealed))
