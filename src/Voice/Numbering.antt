-- ===== src/Voice/Numbering.antt =====
-- voice.go: the sequence numbers, timestamps and nonces of the packets that `opusSender` sends.
use native.Mathlib.Nat.{suc-mul}
use mathlib.Core.Option.{some-injective}
use discordgo.Base.{
  ℕ, zero, suc, ◌+◌, ◌*◌, ◌%◌, ◌<◌, ◌≡◌, refl, ◌∙◌, inl, inr, ap, sym, Bool, some, List, [], ◌∷◌,
  take, get_elem?, arith,
}
use discordgo.Voice.Bytes.{Bytes}
use discordgo.Voice.Packets.{
  Counters, Frame, sent, dropped, rtp_header, advance, send_frame, send_frames, opus_sender,
}
use discordgo.Voice.Rounds.{Round, send_frame-Round, on_sent}

-- The numbers of the `i`-th packet from some counters on.
abbrev pub Numbered : (ssrc size : ℕ) → Counters → ℕ → Bytes → Type 0
Numbered ssrc size c i packet =
    take 12 packet
    ≡ rtp_header ssrc ((c.sequence + i) % 65536) ((c.timestamp + i * size) % 4294967296)

-- What the counters keep to: the timestamp never reaches 0xFFFFFFFF, since it stays even.
record Sound (c : Counters) : Type 0 where
  sequence_below : c.sequence < 65536
  timestamp_below : c.timestamp < 4294967296
  nonce_below : c.nonce_counter < 4294967296
  even : c.timestamp % 2 ≡ 0

advance_timestamp :
    (size : ℕ) (c : Counters)
    → size % 2 ≡ 0
    → c.timestamp % 2 ≡ 0
    → (advance size c).timestamp ≡ (c.timestamp + size) % 4294967296
advance_timestamp size c even even' = grind arith

advance_sequence :
    (size : ℕ) (c : Counters)
    → c.sequence < 65536
    → (advance size c).sequence ≡ (c.sequence + 1) % 65536
advance_sequence size c h = grind arith

-- The counters behind a packet, for what is proved of the ones after it.
sent-Sound :
    (ssrc size : ℕ) (c c' : Counters) (packet : Bytes)
    → size % 2 ≡ 0
    → Sound c
    → Round ssrc size c (sent packet) c'
    → Sound c'
      × (c'.sequence ≡ (c.sequence + 1) % 65536)
      × (c'.timestamp ≡ (c.timestamp + size) % 4294967296)
sent-Sound ssrc size c c' packet e s (header, nonce, sequence, timestamp, counter) =
    let sequence' = sequence ∙ advance_sequence size c s.sequence_below in
    let timestamp' = timestamp ∙ advance_timestamp size c e s.even in
    let even = s.even in
    (
      record {
        sequence_below = omega arith;
        timestamp_below = omega arith;
        nonce_below = omega arith;
        even = omega arith;
      },
      sequence',
      timestamp',
    )

dropped-Sound :
    (ssrc size : ℕ) (c c' : Counters) → Sound c → Round ssrc size c dropped c' → Sound c'
dropped-Sound ssrc size c c' s (sequence, timestamp, inl counter) = record {
  sequence_below = rw sequence s.sequence_below;
  timestamp_below = rw timestamp s.timestamp_below;
  nonce_below = rw counter s.nonce_below;
  even = rw timestamp s.even;
}
dropped-Sound ssrc size c c' s (sequence, timestamp, inr counter) = record {
  sequence_below = rw sequence s.sequence_below;
  timestamp_below = rw timestamp s.timestamp_below;
  nonce_below = omega arith;
  even = rw timestamp s.even;
}

first-Numbered :
    (ssrc size : ℕ) (c : Counters) (packet : Bytes)
    → Sound c
    → take 12 packet ≡ rtp_header ssrc c.sequence c.timestamp
    → Numbered ssrc size c 0 packet
first-Numbered ssrc size c packet s header =
    let below = s.sequence_below in
    let below' = s.timestamp_below in
    header
    ∙ ap (λ n. rtp_header ssrc n c.timestamp) (omega arith)
    ∙ ap (λ n. rtp_header ssrc ((c.sequence + 0) % 65536) n) (omega arith)

later-Numbered :
    (ssrc size i : ℕ) (c c' : Counters) (packet : Bytes)
    → c'.sequence ≡ (c.sequence + 1) % 65536
    → c'.timestamp ≡ (c.timestamp + size) % 4294967296
    → Numbered ssrc size c' i packet
    → Numbered ssrc size c (suc i) packet
later-Numbered ssrc size i c c' packet sequence timestamp h =
    h
    ∙ ap (λ n. rtp_header ssrc n ((c'.timestamp + i * size) % 4294967296)) (omega arith)
    ∙ ap (λ n. rtp_header ssrc ((c.sequence + suc i) % 65536) n) (omega (arith, suc-mul i size))

sent-Numbered :
    (ssrc size : ℕ) (c c' : Counters) (packet : Bytes) (rest : List Bytes)
    → size % 2 ≡ 0
    → Sound c
    → Round ssrc size c (sent packet) c'
    → (Sound c' → (i : ℕ) (p : Bytes) → get_elem? rest i ≡ some p → Numbered ssrc size c' i p)
    → (i : ℕ) (p : Bytes) → get_elem? (packet ∷ rest) i ≡ some p
    → Numbered ssrc size c i p
sent-Numbered ssrc size c c' packet rest e s round later zero p found =
    first-Numbered ssrc size c p s (ap (take 12) (sym (some-injective _ _ found)) ∙ round.0)
sent-Numbered ssrc size c c' packet rest e s round later (suc i) p found =
    let (s', sequence, timestamp) = sent-Sound ssrc size c c' packet e s round in
    later-Numbered ssrc size i c c' p sequence timestamp (later s' i p found)

send_frames-Numbered :
    (ssrc size : ℕ) (frames : List Frame) (c : Counters)
    → size % 2 ≡ 0
    → Sound c
    → (i : ℕ) (p : Bytes) → get_elem? (send_frames ssrc size frames c).0 i ≡ some p
    → Numbered ssrc size c i p
unfolding send_frames
send_frames-Numbered ssrc size [] c e s = λ i p found. absurd (cc)
send_frames-Numbered ssrc size (frame ∷ frames) c e s =
    let out = send_frame ssrc size frame c in
    let round = send_frame-Round ssrc size frame c s.nonce_below in
    on_sent
      (λ (x : List Bytes × Counters).
        (i : ℕ) (p : Bytes) → get_elem? x.0 i ≡ some p → Numbered ssrc size c i p)
      out.0 _ _ _
      (λ packet h.
        sent-Numbered ssrc size c out.1 packet _ e s (rw h at round)
          (λ s'. send_frames-Numbered ssrc size frames out.1 e s'))
      (λ h i p found.
        let round' = (rw h at round) in
        let (sequence, timestamp, counter) = round' in
        rw (sequence, timestamp) at
          (send_frames-Numbered ssrc size frames out.1 e (dropped-Sound ssrc size c out.1 s round')
            i p found))
      (λ h i p found. absurd (cc))

-- Of the packets of one run, for a frame size that is even, the `i`-th has the sequence number
-- `i` and the timestamp `i * size`, as they wrap around in 16 and in 32 bits: neither a dropped
-- frame nor the test that resets the timestamp leaves a gap.
pub opus_sender-rtp_header :
    (ssrc size nonce_counter : ℕ) (speaking : Bool) (frames : List Frame)
    → size % 2 ≡ 0
    → nonce_counter < 4294967296
    → (i : ℕ) (p : Bytes)
    → get_elem? (opus_sender ssrc size nonce_counter speaking frames).0 i ≡ some p
    → take 12 p ≡ rtp_header ssrc (i % 65536) (i * size % 4294967296)
opus_sender-rtp_header ssrc size nonce_counter speaking frames e below i p found =
    let c : Counters = record {
      sequence = 0;
      timestamp = 0;
      nonce_counter = nonce_counter;
      speaking = speaking;
    } in
    let s : Sound c = record {
      sequence_below = omega arith;
      timestamp_below = omega arith;
      nonce_below = below;
      even = refl;
    } in
    send_frames-Numbered ssrc size frames c e s i p found
    ∙ ap (λ n. rtp_header ssrc n ((0 + i * size) % 4294967296)) (omega arith)
    ∙ ap (λ n. rtp_header ssrc (i % 65536) n) (omega arith)
