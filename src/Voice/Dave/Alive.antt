-- ===== src/Voice/Dave/Alive.antt =====
-- voice_dave_controller_libdave.go: the ratchets that frames are encrypted and decrypted with, and
-- those that a commit or the end of a controller leaves.
use discordgo.Base.{
  ℕ, ◌%◌, String, Bool, true, false, ◌≡◌, ◌≢◌, sym, ◌∙◌, ap, Option, some, List, on_option, on_if,
  arith, eq_iff, Bool-cases, inl, inr, eqb,
}
use discordgo.State.Store.{State}
use discordgo.Voice.Bytes.{Bytes}
use discordgo.Voice.Dave.Controller.{
  LibdaveController, Encryptor, Decryptor, is_in, close_controller,
}
use discordgo.Voice.Dave.Transitions.{client_disconnected}
use discordgo.Voice.Dave.Audio.{
  Sealing, encrypts, Unsealing, decrypts, encrypt_opus, encrypt_with, decrypt_opus,
  prepare_decryptor, handle_speaking_update, sender, ratchet_or_fetch,
}
use discordgo.Voice.Dave.Calls.{Reached}
use discordgo.Voice.Dave.Owning.{Sound}
use discordgo.Voice.Dave.Owned.{close_controller-Sound}
use discordgo.Voice.Dave.Using.{
  encrypt_with-Sound, prepare_decryptor-Sound, ratchet_or_fetch-Sound, ratchet_or_fetch-held,
  sender-local,
}
use discordgo.Voice.Dave.Histories.{Reached-Sound}

-- The ratchet is the one that is held for the user, and it is open.
pub record InUse (c : LibdaveController) (u : String) (h : ℕ) : Type 0 where
  pub held : c.ratchets u ≡ some h
  pub is_live : c.live h ≡ true

in_use :
    (user_id u : String) (c : LibdaveController) (h : ℕ)
    → Sound user_id c
    → c.ratchets u ≡ some h
    → InUse c u h
in_use user_id u c h i e = record { held = e; is_live = i.holding.is_live u h e }

encrypt_with-ratchet :
    (user_id : String) (h ssrc : ℕ) (opus : Bytes) (c : LibdaveController)
    → Sound user_id c
    → c.ratchets user_id ≡ some h
    → (e : Encryptor) (n : ℕ) (frame : Bytes) → (encrypt_with h ssrc opus c).0 ≡ encrypts e n frame
    → e.ratchet ≡ some h
unfolding encrypt_with
encrypt_with-ratchet user_id h ssrc opus c i k e n frame f = ground (arith, i.outbound.ready h)

encrypt_with_held :
    (keys : String → Bool) (user_id : String) (ssrc : ℕ) (opus : Bytes) (c : LibdaveController)
    → Sound user_id c
    → (e : Encryptor) (n : ℕ) (frame : Bytes)
    → (encrypt_opus keys user_id ssrc opus c).0 ≡ encrypts e n frame
    → (h : ℕ) × ((e.ratchet ≡ some h) × InUse (encrypt_opus keys user_id ssrc opus c).1 user_id h)
unfolding encrypt_opus
encrypt_with_held keys user_id ssrc opus c i e n frame =
    let out = ratchet_or_fetch keys (sender user_id c) c in
    let j = ratchet_or_fetch-Sound keys user_id (sender user_id c) c i in
    let P = λ (x : Sealing × LibdaveController).
      x.0 ≡ encrypts e n frame → (h : ℕ) × ((e.ratchet ≡ some h) × InUse x.1 user_id h) in
    on_if P (eqb c.protocol_version 0) _ _ (λ p f. absurd (ground arith))
      (λ q.
        on_option P out.0 _ _ (λ o f. absurd (ground arith))
          (λ h o f.
            let at =
              sym (ap (λ w. out.1.ratchets w) (sender-local keys user_id c i.outbound))
              ∙ ratchet_or_fetch-held keys user_id (sender user_id c) c h o in
            (
              h,
              (
                encrypt_with-ratchet user_id h ssrc opus out.1 j at e n frame f,
                in_use user_id user_id _ h (encrypt_with-Sound keys user_id h ssrc opus out.1 at j)
                    at,
              ),
            )))

decrypt_with_held :
    (keys : String → Bool) (user_id : String) (ssrc : ℕ) (opus : Bytes) (c : LibdaveController)
    → Sound user_id c
    → (d : Decryptor) (frame : Bytes) → (decrypt_opus keys ssrc opus c).0 ≡ decrypts d frame
    → let c' = (decrypt_opus keys ssrc opus c).1 in
      (u : String) × ((c'.ssrc_users ssrc ≡ some u) × InUse c' u d.ratchet)
unfolding decrypt_opus
decrypt_with_held keys user_id ssrc opus c i d frame =
    let c' = prepare_decryptor keys ssrc c in
    let j = prepare_decryptor-Sound keys user_id ssrc c i in
    let P = λ (x : Unsealing × LibdaveController).
      x.0 ≡ decrypts d frame
      → (u : String) × ((x.1.ssrc_users ssrc ≡ some u) × InUse x.1 u d.ratchet) in
    on_if P (eqb c.protocol_version 0) _ _ (λ p f. absurd (ground arith))
      (λ q.
        on_option P (c'.decryptors ssrc) _ _ (λ o f. absurd (ground arith))
          (λ d' o f.
            let (u, k) = j.tuned.mapped ssrc d' o in
            (u, (k, in_use user_id u c' d.ratchet j (ground (arith, j.tuned.current ssrc u d'))))))

none_held :
    (user_id : String) (c : LibdaveController) (i : Sound user_id (close_controller c)) (h : ℕ)
    → ¬ ((close_controller c).live h ≡ true)
unfolding close_controller
none_held user_id c i h e = let (u, f) = i.holding.held h e in ground arith

module _ (range : List String → List String) (format_uint : ℕ → String)
    (kept : (us : List String) (u : String) → is_in u (range us) ≡ true → is_in u us ≡ true)
    (digits : (n : ℕ) → format_uint n ≢ "") (user_id guild_id : String) (state : Option State)
    (c : LibdaveController) (r : Reached range format_uint user_id guild_id state c) where
  -- After any calls, in which no SSRC goes to another user before its own is gone: a frame is only
  -- encrypted with the ratchet that is held for the local user, and that ratchet is open.
  pub encrypt_opus-InUse :
      (keys : String → Bool) (ssrc : ℕ) (opus : Bytes) (e : Encryptor) (n : ℕ) (frame : Bytes)
      → (encrypt_opus keys user_id ssrc opus c).0 ≡ encrypts e n frame
      → (h : ℕ) × ((e.ratchet ≡ some h) × InUse (encrypt_opus keys user_id ssrc opus c).1 user_id h)
  encrypt_opus-InUse keys ssrc opus =
      encrypt_with_held keys user_id ssrc opus c
        (Reached-Sound range format_uint kept digits user_id guild_id state c r)

  -- After any calls, in which no SSRC goes to another user before its own is gone: a frame is only
  -- decrypted with the ratchet that is held for the user of its SSRC, and that ratchet is open.
  -- This is for any order in which Go ranges over the users, if it adds none, and for user IDs
  -- that are written as texts that are not empty. Each call is one step: none runs between the
  -- choice of the decryptor and the decryption.
  pub decrypt_opus-InUse :
      (keys : String → Bool) (ssrc : ℕ) (opus : Bytes) (d : Decryptor) (frame : Bytes)
      → (decrypt_opus keys ssrc opus c).0 ≡ decrypts d frame
      → let c' = (decrypt_opus keys ssrc opus c).1 in
        (u : String) × ((c'.ssrc_users ssrc ≡ some u) × InUse c' u d.ratchet)
  decrypt_opus-InUse keys ssrc opus =
      decrypt_with_held keys user_id ssrc opus c
        (Reached-Sound range format_uint kept digits user_id guild_id state c r)

  -- After any calls, in which no SSRC goes to another user before its own is gone: `Close` leaves no
  -- ratchet open.
  pub close_controller-live : (h : ℕ) → (close_controller c).live h ≡ false
  close_controller-live h =
      let i =
        close_controller-Sound user_id c
          (Reached-Sound range format_uint kept digits user_id guild_id state c r) in
      elim (Bool-cases ((close_controller c).live h)) [
        | inl e ↦ absurd (none_held user_id c i h e)
        | inr e ↦ e
      ]

-- In a sound controller, an SSRC other than 0 that has a decryptor goes from the user `w` to
-- another user, `u`, neither of whose IDs is empty: the decryptor stays with the ratchet of `w`,
-- which is closed under it when `w` disconnects.
pub handle_speaking_update-closes :
    (keys : String → Bool) (user_id u w : String) (ssrc : ℕ) (d : Decryptor) (c : LibdaveController)
    → Sound user_id c
    → ssrc ≢ 0
    → u ≢ ""
    → w ≢ ""
    → w ≢ u
    → c.ssrc_users (ssrc % 4294967296) ≡ some w
    → c.decryptors (ssrc % 4294967296) ≡ some d
    → let c' = client_disconnected w (handle_speaking_update keys ssrc u c) in
      (c'.decryptors (ssrc % 4294967296) ≡ some d) × (c'.live d.ratchet ≡ false)
unfolding client_disconnected handle_speaking_update prepare_decryptor
handle_speaking_update-closes keys user_id u w ssrc d c i n p q o s t = (
  ground (arith, eq_iff u "", eq_iff w "", eq_iff w u, eq_iff u w),
  ground (arith, eq_iff u "", eq_iff w "", i.tuned.current (ssrc % 4294967296) w d),
)
