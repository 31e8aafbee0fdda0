-- ===== src/Voice/Rtp.antt =====
-- voice.go: RTP packets of any shape, and what `opusReceiver` reads off their headers.
use Prim.Native.Nat.{bit_and}
use mathlib.Core.List.{append_assoc}
use discordgo.Base.{
  ℕ, ◌+◌, ◌-◌, ◌*◌, ◌≤◌, ◌<◌, ◌≡◌, refl, ◌∙◌, ap, sym, Option, none, some, [], ◌∷◌, ◌++◌, length,
  drop, take, length-append, drop-length_add, arith,
}
use discordgo.Voice.Bytes.{
  Bytes, be_16, be_32, be_uint_16, slice, be_uint_16-be_16, be_uint_32-be_32, version_plain,
  version_extended, sources_plain, sources_extended, extension_plain, extension_extended,
}
use discordgo.Voice.Packets.{VoicePacket}
use discordgo.Voice.Receiving.{layout, first_byte, packet_of}

-- A header extension: its profile, and the words of its payload.
pub record Extension : Type 0 where
  pub profile : ℕ × ℕ
  pub words : ℕ
  pub payload : Bytes

-- A packet as RTP describes it, but for the header extension: the numbers and the further sources.
pub record Rtp : Type 0 where
  pub kind : ℕ
  pub sequence : ℕ
  pub timestamp : ℕ
  pub ssrc : ℕ
  pub source_count : ℕ
  pub sources : Bytes

abbrev pub fixed_part : ℕ → Rtp → Bytes
fixed_part b r = b ∷ r.kind ∷ be_16 r.sequence ++ be_32 r.timestamp ++ be_32 r.ssrc ++ r.sources

-- What is sent in the clear.
abbrev pub header_with : Rtp → Option Extension → Bytes
header_with r none = fixed_part (128 + r.source_count) r
header_with r (some x) =
    fixed_part (144 + r.source_count) r ++ x.profile.0 ∷ x.profile.1 ∷ be_16 x.words

abbrev pub extension_payload : Option Extension → Bytes
extension_payload none = []
extension_payload (some x) = x.payload

pub record Valid (r : Rtp) : Type 0 where
  pub sequence_below : r.sequence < 65536
  pub timestamp_below : r.timestamp < 4294967296
  pub ssrc_below : r.ssrc < 4294967296
  pub few_sources : r.source_count < 16
  pub sources_length : length r.sources ≡ 4 * r.source_count

abbrev pub Fits : Option Extension → Type 0
Fits none = Unit
Fits (some x) = (x.words < 65536) × (length x.payload ≡ x.words * 4)

layout_plain :
    (bs : Bytes) (cc : ℕ)
    → bit_and (first_byte bs) 0xC0 ≡ 0x80
    → bit_and (first_byte bs) 0x0F ≡ cc
    → bit_and (first_byte bs) 0x10 ≡ 0
    → 12 + 4 * cc ≤ length bs
    → layout bs ≡ some (12 + 4 * cc, 0)
unfolding layout
layout_plain bs cc version sources extension long = rw (version, sources, extension) (ground arith)

layout_extended :
    (bs : Bytes) (cc : ℕ)
    → bit_and (first_byte bs) 0xC0 ≡ 0x80
    → bit_and (first_byte bs) 0x0F ≡ cc
    → bit_and (first_byte bs) 0x10 ≡ 0x10
    → 12 + 4 * cc + 4 ≤ length bs
    → layout bs
      ≡ some (12 + 4 * cc + 4, be_uint_16 (slice (12 + 4 * cc + 2) (12 + 4 * cc + 4) bs) * 4)
unfolding layout
layout_extended bs cc version sources extension long =
    rw (version, sources, extension) (ground arith)

-- The bytes between the fixed part and the rest.
slice-append :
    (xs ys : Bytes) (i j n : ℕ) → n ≡ length xs → slice (n + i) (n + j) (xs ++ ys) ≡ slice i j ys
slice-append xs ys i j n e =
    ap (λ k. take k (drop (n + i) (xs ++ ys))) (omega arith)
    ∙ ap (λ m. take (j - i) (drop (m + i) (xs ++ ys))) e
    ∙ ap (take (j - i)) (drop-length_add xs ys i)

-- The packet that a receiver is to make of these numbers.
abbrev pub packet_from : Rtp → Option Extension → Bytes → VoicePacket
packet_from r x opus = record {
  ssrc = r.ssrc;
  sequence = r.sequence;
  timestamp = r.timestamp;
  type = first_byte (header_with r x) ∷ r.kind ∷ [];
  opus = opus;
}

pub packet_of-header :
    (r : Rtp) (x : Option Extension) (tail : Bytes)
    → Valid r
    → packet_of (header_with r x ++ tail) ≡ packet_from r x []
packet_of-header r none tail v =
    rw
      (
        be_uint_16-be_16 r.sequence v.sequence_below,
        be_uint_32-be_32 r.timestamp v.timestamp_below,
        be_uint_32-be_32 r.ssrc v.ssrc_below,
      )
      refl
packet_of-header r (some x) tail v =
    rw
      (
        be_uint_16-be_16 r.sequence v.sequence_below,
        be_uint_32-be_32 r.timestamp v.timestamp_below,
        be_uint_32-be_32 r.ssrc v.ssrc_below,
      )
      refl

header-length : (r : Rtp) → Valid r → length (header_with r none) ≡ 12 + 4 * r.source_count
header-length r v = omega (arith, v.sources_length)

extended-length :
    (r : Rtp) (x : Extension)
    → Valid r
    → length (header_with r (some x)) ≡ 12 + 4 * r.source_count + 4
extended-length r x v =
    omega
      (arith, v.sources_length, length-append r.sources (x.profile.0 ∷ x.profile.1 ∷ be_16 x.words))

pub layout-header :
    (r : Rtp) (x : Option Extension) (tail : Bytes)
    → Valid r
    → Fits x
    → layout (header_with r x ++ tail)
      ≡ some (length (header_with r x), length (extension_payload x))
layout-header r none tail v fits =
    let e = header-length r v in
    layout_plain (header_with r none ++ tail) r.source_count
      (version_plain r.source_count v.few_sources) (sources_plain r.source_count v.few_sources)
      (extension_plain r.source_count v.few_sources)
      (omega (arith, length-append (header_with r none) tail))
    ∙ ap (λ n. some (n, 0)) (sym e)
layout-header r (some x) tail v fits =
    let cc = r.source_count in
    let preamble = x.profile.0 ∷ x.profile.1 ∷ be_16 x.words in
    let fixed = fixed_part (144 + cc) r in
    let e = extended-length r x v in
    layout_extended (header_with r (some x) ++ tail) cc (version_extended cc v.few_sources)
      (sources_extended cc v.few_sources) (extension_extended cc v.few_sources)
      (omega (arith, length-append (header_with r (some x)) tail))
    ∙ ap (λ ys. some (12 + 4 * cc + 4, be_uint_16 ys * 4))
        (ap (slice (12 + 4 * cc + 2) (12 + 4 * cc + 4)) (append_assoc fixed preamble tail)
          ∙ slice-append fixed (preamble ++ tail) 2 4 (12 + 4 * cc)
              (omega (arith, v.sources_length)))
    ∙ ap (λ n. some (12 + 4 * cc + 4, n * 4)) (be_uint_16-be_16 x.words fits.0)
    ∙ ap (λ n. some (12 + 4 * cc + 4, n)) (sym fits.1)
    ∙ ap (λ n. some (n, length x.payload)) (sym e)
