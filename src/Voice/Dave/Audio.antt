-- ===== src/Voice/Dave/Audio.antt =====
-- voice_dave_controller_libdave.go: `EncryptOpus`, `DecryptOpus` and `HandleSpeakingUpdate`.
--
-- What the native encryptors and decryptors make of a frame is left open: the outcome is what
-- they are called with, and what the controller has told them before.
use discordgo.Base.{
  ℕ, ◌%◌, String, Bool, true, false, ◌==◌, Option, none, some, ◌∷◌, write, eqb, if◌then◌else◌,
}
use discordgo.Voice.Bytes.{Bytes}
use discordgo.Voice.Dave.Controller.{
  LibdaveController, Encryptor, Decryptor, with_user, fetch_ratchet,
}

pub data Sealing : Type 0 where
  -- The frame as it is, where the protocol is off.
  unsealed : Bytes → Sealing
  no_ratchet : Sealing
  encrypts : Encryptor → (ssrc : ℕ) → Bytes → Sealing

pub data Unsealing : Type 0 where
  as_it_is : Bytes → Unsealing
  no_decryptor : Unsealing
  decrypts : Decryptor → Bytes → Unsealing

-- The user whose ratchet the frames that are sent take.
abbrev pub sender : (user_id : String) → LibdaveController → String
sender user_id c = if c.local_user_id == "" then user_id else c.local_user_id

-- `NewEncryptor` with its mode
abbrev pub or_new_encryptor : Option Encryptor → Encryptor
or_new_encryptor (some e) = e
or_new_encryptor none = record { ratchet = none; passthrough = false; codec_ssrc = none }

-- A ratchet that is there already, or the one that the session has.
abbrev pub ratchet_or_fetch :
    (keys : String → Bool) → String → LibdaveController → Option ℕ × LibdaveController
ratchet_or_fetch keys u c = elim (c.ratchets u) [
  | some h ↦ (some h, c)
  | none ↦
      if u == ""
      then (none, c)
      else elim c.session [ none ↦ (none, c) | some v ↦ fetch_ratchet keys u c ]
]

-- The end of `EncryptOpus`, with the ratchet at hand.
unfoldable pub encrypt_with :
    (handle ssrc : ℕ) → Bytes → LibdaveController → Sealing × LibdaveController
encrypt_with h ssrc opus c =
    let e = or_new_encryptor c.encryptor in
    let e₁ = if c.outbound_ratchet_set then e else record e { ratchet = some h } in
    let e₂ = if eqb c.outbound_ssrc ssrc then e₁ else record e₁ { codec_ssrc = some ssrc } in
    (
      encrypts e₂ ssrc opus,
      record c { encryptor = some e₂; outbound_ratchet_set = true; outbound_ssrc = ssrc },
    )

-- `EncryptOpus` of a frame of the packet with this SSRC.
unfoldable pub encrypt_opus :
    (keys : String → Bool) (user_id : String)
    → (ssrc : ℕ) → Bytes
    → LibdaveController
    → Sealing × LibdaveController
unfolding fetch_ratchet encrypt_with
encrypt_opus keys user_id ssrc opus c =
    let (kr, c') = ratchet_or_fetch keys (sender user_id c) c in
    if eqb c.protocol_version 0
    then (unsealed opus, c)
    else elim kr [ none ↦ (no_ratchet, c') | some h ↦ encrypt_with h ssrc opus c' ]

abbrev pub name_of : Option String → String
name_of none = ""
name_of (some u) = u

-- `NewDecryptor` with a ratchet
abbrev pub new_decryptor : ℕ → Decryptor
new_decryptor h = record { ratchet = h; passthrough = none }

abbrev pub add_decryptor : ℕ → Option ℕ → LibdaveController → LibdaveController
add_decryptor ssrc none c = c
add_decryptor ssrc (some h) c = record c {
  decryptors = write ssrc (some (new_decryptor h)) c.decryptors;
}

-- The decryptor of an SSRC is made where it is missing and its user has a ratchet.
unfoldable pub prepare_decryptor :
    (keys : String → Bool) → (ssrc : ℕ) → LibdaveController → LibdaveController
unfolding fetch_ratchet
prepare_decryptor keys ssrc c =
    let u = name_of (c.ssrc_users ssrc) in
    let (kr, c') = ratchet_or_fetch keys u c in
    elim (c.decryptors ssrc) [
      | some d ↦ c
      | none ↦ elim c.session [
        | none ↦ c
        | some v ↦ if u == "" then c else add_decryptor ssrc kr c'
      ]
    ]

-- `DecryptOpus`
unfoldable pub decrypt_opus :
    (keys : String → Bool) → (ssrc : ℕ) → Bytes → LibdaveController → Unsealing × LibdaveController
unfolding prepare_decryptor
decrypt_opus keys ssrc opus c =
    let c' = prepare_decryptor keys ssrc c in
    if eqb c.protocol_version 0
    then (as_it_is opus, c)
    else elim (c'.decryptors ssrc) [ none ↦ (no_decryptor, c') | some d ↦ (decrypts d opus, c') ]

abbrev pub give_ssrc : ℕ → String → LibdaveController → LibdaveController
give_ssrc ssrc user_id c = record c {
  ssrc_users = write ssrc (some user_id) c.ssrc_users;
  mapped_ssrcs = ssrc ∷ c.mapped_ssrcs;
  known_users = with_user user_id c.known_users;
}

-- `HandleSpeakingUpdate`
unfoldable pub handle_speaking_update :
    (keys : String → Bool) → (ssrc : ℕ) → (user_id : String) → LibdaveController → LibdaveController
unfolding prepare_decryptor
handle_speaking_update keys ssrc user_id c =
    let short = ssrc % 4294967296 in
    let c' = give_ssrc short user_id c in
    if eqb ssrc 0 then c else if user_id == "" then c else prepare_decryptor keys short c'
