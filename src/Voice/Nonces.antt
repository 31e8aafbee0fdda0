-- ===== src/Voice/Nonces.antt =====
-- voice.go: the nonce counters of the packets that `opusSender` sends.
use mathlib.Core.Option.{some-injective}
use discordgo.Base.{
  ℕ, zero, suc, ◌+◌, ◌%◌, ◌≤◌, ◌<◌, ◌≡◌, ◌≢◌, ◌∙◌, ◌⊎◌, inl, inr, ap, Bool, some, List, [], ◌∷◌,
  length, get_elem?, arith,
}
use discordgo.Voice.Bytes.{Bytes}
use discordgo.Voice.Packets.{Counters, Frame, send_frame, send_frames, opus_sender}
use discordgo.Voice.Rounds.{nonce_at, send_frame-Round, on_sent}

-- The `i`-th nonce comes at least `i` and less than `n` steps behind that of the counters.
abbrev Behind : ℕ → ℕ → ℕ → Bytes → Type 0
Behind counter n i p = (m : ℕ) × (i ≤ m) × (m < n) × (nonce_at p ≡ (counter + m) % 4294967296)

abbrev AllBehind : ℕ → ℕ → List Bytes → Type 0
AllBehind counter n packets =
    (i : ℕ) (p : Bytes) → get_elem? packets i ≡ some p → Behind counter n i p

sent-Behind :
    (counter counter' n : ℕ) (packet : Bytes) (rest : List Bytes)
    → counter < 4294967296
    → nonce_at packet ≡ counter
    → counter' ≡ (counter + 1) % 4294967296
    → AllBehind counter' n rest
    → AllBehind counter (suc n) (packet ∷ rest)
sent-Behind counter counter' n packet rest below nonce next later zero p found =
    let same = ap nonce_at (some-injective _ _ found) in (0, omega arith, omega arith, omega arith)
sent-Behind counter counter' n packet rest below nonce next later (suc i) p found =
    let (m, from, to, at) = later i p found in (suc m, omega arith, omega arith, omega arith)

-- A dropped frame may have taken a nonce.
dropped-Behind :
    (counter counter' n : ℕ) (packets : List Bytes)
    → (counter' ≡ counter) ⊎ (counter' ≡ (counter + 1) % 4294967296)
    → AllBehind counter' n packets
    → AllBehind counter (suc n) packets
dropped-Behind counter counter' n packets (inl e) later i p found =
    let (m, from, to, at) = later i p found in
    (m, from, omega arith, at ∙ ap (λ k. (k + m) % 4294967296) e)
dropped-Behind counter counter' n packets (inr e) later i p found =
    let (m, from, to, at) = later i p found in (suc m, omega arith, omega arith, omega arith)

pub counter_below :
    (counter counter' : ℕ)
    → counter < 4294967296
    → (counter' ≡ counter) ⊎ (counter' ≡ (counter + 1) % 4294967296)
    → counter' < 4294967296
counter_below counter counter' below (inl e) = omega arith
counter_below counter counter' below (inr e) = omega arith

send_frames-Behind :
    (ssrc size : ℕ) (frames : List Frame) (c : Counters)
    → c.nonce_counter < 4294967296
    → AllBehind c.nonce_counter (length frames) (send_frames ssrc size frames c).0
unfolding send_frames
send_frames-Behind ssrc size [] c below = λ i p found. absurd (cc)
send_frames-Behind ssrc size (frame ∷ frames) c below =
    let out = send_frame ssrc size frame c in
    let round = send_frame-Round ssrc size frame c below in
    on_sent (λ (x : List Bytes × Counters). AllBehind c.nonce_counter (suc (length frames)) x.0)
      out.0 _ _ _
      (λ packet h.
        let (header, nonce, sequence, timestamp, next) = (rw h at round) in
        sent-Behind c.nonce_counter out.1.nonce_counter (length frames) packet _ below nonce next (
          send_frames-Behind ssrc size frames out.1
            (counter_below c.nonce_counter out.1.nonce_counter below (inr next))))
      (λ h.
        let (sequence, timestamp, next) = (rw h at round) in
        dropped-Behind c.nonce_counter out.1.nonce_counter (length frames) _ next (
          send_frames-Behind ssrc size frames out.1
            (counter_below c.nonce_counter out.1.nonce_counter below next)))
      (λ h i p found. absurd (cc))

-- The packets differ pairwise in their nonces.
abbrev Apart : List Bytes → Type 0
Apart packets =
    (i j : ℕ) (p q : Bytes)
    → i < j
    → get_elem? packets i ≡ some p
    → get_elem? packets j ≡ some q
    → nonce_at p ≢ nonce_at q

sent-Apart :
    (counter counter' n : ℕ) (packet : Bytes) (rest : List Bytes)
    → counter < 4294967296
    → suc n ≤ 4294967296
    → nonce_at packet ≡ counter
    → counter' ≡ (counter + 1) % 4294967296
    → AllBehind counter' n rest
    → Apart rest
    → Apart (packet ∷ rest)
sent-Apart counter counter' n packet rest below few nonce next behind apart i zero p q lt at at' =
    absurd (omega arith)
sent-Apart counter counter' n packet rest below few nonce next behind apart zero (suc j) p q lt at
      at' =
    let same = ap nonce_at (some-injective _ _ at) in
    let (m, from, to, nonce') = behind j q at' in omega arith
sent-Apart counter counter' n packet rest below few nonce next behind apart (suc i) (suc j) p q lt
      at at' =
    apart i j p q (omega arith) at at'

send_frames-Apart :
    (ssrc size : ℕ) (frames : List Frame) (c : Counters)
    → c.nonce_counter < 4294967296
    → length frames ≤ 4294967296
    → Apart (send_frames ssrc size frames c).0
unfolding send_frames
send_frames-Apart ssrc size [] c below few = λ i j p q lt at at'. absurd (cc)
send_frames-Apart ssrc size (frame ∷ frames) c below few =
    let out = send_frame ssrc size frame c in
    let round = send_frame-Round ssrc size frame c below in
    on_sent (λ (x : List Bytes × Counters). Apart x.0) out.0 _ _ _
      (λ packet h.
        let (header, nonce, sequence, timestamp, next) = (rw h at round) in
        let below' = counter_below c.nonce_counter out.1.nonce_counter below (inr next) in
        sent-Apart c.nonce_counter out.1.nonce_counter (length frames) packet _ below few nonce next
          (send_frames-Behind ssrc size frames out.1 below')
          (send_frames-Apart ssrc size frames out.1 below' (omega arith)))
      (λ h.
        let (sequence, timestamp, next) = (rw h at round) in
        send_frames-Apart ssrc size frames out.1
          (counter_below c.nonce_counter out.1.nonce_counter below next) (omega arith))
      (λ h i j p q lt at at'. absurd (cc))

-- In a run over at most 2 ^ 32 frames no two packets carry the same counter, also where frames are
-- dropped before or after their counter is taken.
pub opus_sender-nonce_at :
    (ssrc size nonce_counter : ℕ) (speaking : Bool) (frames : List Frame) (i j : ℕ) (p q : Bytes)
    → nonce_counter < 4294967296
    → length frames ≤ 4294967296
    → i < j
    → get_elem? (opus_sender ssrc size nonce_counter speaking frames).0 i ≡ some p
    → get_elem? (opus_sender ssrc size nonce_counter speaking frames).0 j ≡ some q
    → nonce_at p ≢ nonce_at q
opus_sender-nonce_at ssrc size nonce_counter speaking frames i j p q below few lt at at' =
    send_frames-Apart ssrc size frames _ below few i j p q lt at at'
