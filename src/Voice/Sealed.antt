-- ===== src/Voice/Sealed.antt =====
-- voice.go: the nonces that `opusSender` seals its packets with.
use mathlib.Core.Option.{some-injective}
use discordgo.Base.{
  ℕ, zero, suc, ◌-◌, ◌≤◌, ◌<◌, ◌≡◌, ◌≢◌, refl, ◌∙◌, sym, ◌⊎◌, inl, inr, ap, Bool, Option, none,
  some, List, [], ◌∷◌, ◌++◌, length, get_elem?, drop, take, drop-length_append, length-append,
  arith,
}
use discordgo.Voice.Bytes.{Bytes, le_32, le_uint_32, le_uint_32-le_32}
use discordgo.Voice.Packets.{
  Aead, Counters, Frame, sent, nonce_of, rtp_header, sealed_packet, send_frame, send_frames,
  opus_sender,
}
use discordgo.Voice.Rounds.{
  nonce_at, sealed_packet-nonce, send_frame-Round, send_frame-sealed_packet, on_sent,
}
use discordgo.Voice.Nonces.{counter_below, opus_sender-nonce_at}

-- No frame meets another cipher than this one; it may meet none.
abbrev pub KeyedBy : Aead → List Frame → Type 0
KeyedBy aead [] = Unit
KeyedBy aead (frame ∷ frames) =
    ((frame.aead ≡ none) ⊎ (frame.aead ≡ some aead)) × KeyedBy aead frames

-- A packet that the cipher has sealed with this nonce, between its header and the four bytes that
-- tell the receiver the counter.
abbrev pub SealedWith : Aead → (nonce packet : Bytes) → Type 0
SealedWith aead nonce packet =
    (payload : Bytes) × (packet
      ≡ take 12 packet
        ++ (aead.seal nonce payload (take 12 packet) ++ drop (length packet - 4) packet))

abbrev Sealed : Aead → ℕ → Bytes → Type 0
Sealed aead ssrc p =
    (c : Counters) × (payload : Bytes) × (c.nonce_counter < 4294967296)
    × (p ≡ sealed_packet aead ssrc c payload)

abbrev AllSealed : Aead → ℕ → List Bytes → Type 0
AllSealed aead ssrc packets =
    (i : ℕ) (p : Bytes) → get_elem? packets i ≡ some p → Sealed aead ssrc p

sent-Sealed :
    (aead : Aead) (ssrc : ℕ) (packet : Bytes) (rest : List Bytes)
    → Sealed aead ssrc packet
    → AllSealed aead ssrc rest
    → AllSealed aead ssrc (packet ∷ rest)
sent-Sealed aead ssrc packet rest (c, payload, below, e) later zero p found =
    (c, payload, below, sym (some-injective _ _ found) ∙ e)
sent-Sealed aead ssrc packet rest here later (suc i) p found = later i p found

same_cipher :
    {aead a : Aead} {o : Option Aead} → (o ≡ none) ⊎ (o ≡ some aead) → o ≡ some a → a ≡ aead
same_cipher (inl n) e = absurd (cc)
same_cipher (inr f) e = some-injective _ _ (sym e ∙ f)

send_frame-Sealed :
    (aead : Aead) (ssrc size : ℕ) (frame : Frame) (c : Counters) (packet : Bytes)
    → (frame.aead ≡ none) ⊎ (frame.aead ≡ some aead)
    → c.nonce_counter < 4294967296
    → (send_frame ssrc size frame c).0 ≡ sent packet
    → Sealed aead ssrc packet
send_frame-Sealed aead ssrc size frame c packet keyed below h =
    let (payload, a, made, key, e) = send_frame-sealed_packet ssrc size frame c packet h in
    (c, payload, below, e ∙ ap (λ x. sealed_packet x ssrc c payload) (same_cipher keyed key))

send_frames-Sealed :
    (aead : Aead) (ssrc size : ℕ) (frames : List Frame) (c : Counters)
    → KeyedBy aead frames
    → c.nonce_counter < 4294967296
    → AllSealed aead ssrc (send_frames ssrc size frames c).0
unfolding send_frames
send_frames-Sealed aead ssrc size [] c keyed below = λ i p found. absurd (cc)
send_frames-Sealed aead ssrc size (frame ∷ frames) c keyed below =
    let out = send_frame ssrc size frame c in
    let round = send_frame-Round ssrc size frame c below in
    on_sent (λ (x : List Bytes × Counters). AllSealed aead ssrc x.0) out.0 _ _ _
      (λ packet h.
        let (header, nonce, sequence, timestamp, next) = (rw h at round) in
        sent-Sealed aead ssrc packet _
          (send_frame-Sealed aead ssrc size frame c packet keyed.0 below h)
          (send_frames-Sealed aead ssrc size frames out.1 keyed.1
            (counter_below c.nonce_counter out.1.nonce_counter below (inr next))))
      (λ h.
        let (sequence, timestamp, next) = (rw h at round) in
        send_frames-Sealed aead ssrc size frames out.1 keyed.1
          (counter_below c.nonce_counter out.1.nonce_counter below next))
      (λ h i p found. absurd (cc))

drop-end : (xs ys : Bytes) → length ys ≡ 4 → drop (length (xs ++ ys) - 4) (xs ++ ys) ≡ ys
drop-end xs ys h =
    ap (λ n. drop n (xs ++ ys)) (omega (arith, length-append xs ys)) ∙ drop-length_append xs ys

Sealed-SealedWith :
    (aead : Aead) (ssrc : ℕ) (c : Counters) (payload p : Bytes)
    → p ≡ sealed_packet aead ssrc c payload
    → SealedWith aead (nonce_of c.nonce_counter) p
Sealed-SealedWith aead ssrc c payload p e =
    let header = rtp_header ssrc c.sequence c.timestamp in
    let body = header ++ aead.seal (nonce_of c.nonce_counter) payload header in
    (payload, rw (e, drop-end body (le_32 c.nonce_counter) refl) refl)

nonce_of-injective : (m n : ℕ) → m < 4294967296 → n < 4294967296 → nonce_of m ≡ nonce_of n → m ≡ n
nonce_of-injective m n below below' e =
    sym (le_uint_32-le_32 m below) ∙ ap (λ bs. le_uint_32 (take 4 bs)) e ∙ le_uint_32-le_32 n below'

-- In a run over at most 2 ^ 32 frames, which meet one cipher or none, any two packets are sealed by
-- the cipher with different nonces, each packet's header being the additional data, also where
-- frames are dropped before or after their nonce is taken.
pub opus_sender-seal :
    (aead : Aead) (ssrc size nonce_counter : ℕ) (speaking : Bool) (frames : List Frame) (i j : ℕ)
    (p q : Bytes)
    → KeyedBy aead frames
    → nonce_counter < 4294967296
    → length frames ≤ 4294967296
    → i < j
    → get_elem? (opus_sender ssrc size nonce_counter speaking frames).0 i ≡ some p
    → get_elem? (opus_sender ssrc size nonce_counter speaking frames).0 j ≡ some q
    → (n : Bytes) × (n' : Bytes) × (n ≢ n') × SealedWith aead n p × SealedWith aead n' q
opus_sender-seal aead ssrc size nonce_counter speaking frames i j p q keyed below few lt at at' =
    let all = send_frames-Sealed aead ssrc size frames _ keyed below in
    let (c, payload, low, e) = all i p at in
    let (c', payload', low', e') = all j q at' in
    let apart =
      opus_sender-nonce_at ssrc size nonce_counter speaking frames i j p q below few lt at at' in
    (
      nonce_of c.nonce_counter,
      nonce_of c'.nonce_counter,
      λ same. apart (
          ap nonce_at e
          ∙ sealed_packet-nonce aead ssrc c payload low
          ∙ nonce_of-injective _ _ low low' same
          ∙ sym (ap nonce_at e' ∙ sealed_packet-nonce aead ssrc c' payload' low')),
      Sealed-SealedWith aead ssrc c payload p e,
      Sealed-SealedWith aead ssrc c' payload' q e',
    )
