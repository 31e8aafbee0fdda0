-- ===== src/Voice/Dave/Refining.antt =====
-- voice_dave_controller_libdave.go: the controller keeps what it promises of its ratchets.
use discordgo.Base.{
  ℕ, String, Bool, eq_iff, ◌≡◌, refl, sym, ap, ◌∙◌, none, some, List, [], ◌∷◌, eqb, arith,
  Bool-cases, Option-cases, if◌then◌else◌, inl, inr,
}
use discordgo.Voice.Bytes.{Bytes}
use discordgo.Voice.Dave.Controller.{
  LibdaveController, install_ratchet, fetch_ratchet, ensure_session,
}
use discordgo.Voice.Dave.Transitions.{refresh_each, ensure_outbound_ratchet}
use discordgo.Voice.Dave.Audio.{
  sender, ratchet_or_fetch, encrypt_with, encrypt_opus, prepare_decryptor, name_of, no_decryptor,
  decrypts,
}
use discordgo.Voice.Dave.Owning.{Sound}
use discordgo.Voice.Dave.Using.{sender-local, ratchet_or_fetch-held, ratchet_or_fetch-Sound}
use discordgo.Voice.Dave.Group.{
  plain, view, group_fetch, group_ratchet, group_ensure, group_outbound, group_refresh, sealing,
  unsealing, with_ratchet, seals, opens,
}

module _ (keys : String → Bool) where
  view-fetch_ratchet :
      (u : String) (c : LibdaveController)
      → view (fetch_ratchet keys u c).1 ≡ (group_fetch keys u (view c)).1
  unfolding fetch_ratchet install_ratchet
  view-fetch_ratchet u c = ground arith

  view-ratchet_or_fetch :
      (u : String) (c : LibdaveController)
      → view (ratchet_or_fetch keys u c).1 ≡ (group_ratchet keys u (view c)).1
  unfolding fetch_ratchet install_ratchet
  view-ratchet_or_fetch u c = ground arith

  pub ratchet_or_fetch_same :
      (u : String) (c : LibdaveController)
      → (ratchet_or_fetch keys u c).0 ≡ (group_ratchet keys u (view c)).0
  unfolding fetch_ratchet install_ratchet
  ratchet_or_fetch_same u c = ground arith

  pub view-refresh_each :
      (us : List String) (c : LibdaveController)
      → view (refresh_each keys us c) ≡ group_refresh keys us (view c)
  view-refresh_each [] c = refl
  view-refresh_each (u ∷ us) c =
      view-refresh_each us (fetch_ratchet keys u c).1
      ∙ ap (λ g. group_refresh keys us g) (view-fetch_ratchet u c)

  pub view-ensure_outbound_ratchet :
      (user_id : String) (c : LibdaveController)
      → view (ensure_outbound_ratchet keys user_id c) ≡ group_outbound user_id keys (view c)
  unfolding ensure_outbound_ratchet
  view-ensure_outbound_ratchet user_id c = ground (arith, view-fetch_ratchet user_id c)

pub view-ensure_session :
    (user_id : String) (parses : Bool) (n : ℕ) (c : LibdaveController)
    → view (ensure_session user_id parses n c).1 ≡ (group_ensure parses n (view c)).1
unfolding ensure_session
view-ensure_session user_id parses n c = ground arith

pub ensure_session_same :
    (user_id : String) (parses : Bool) (n : ℕ) (c : LibdaveController)
    → (ensure_session user_id parses n c).0 ≡ (group_ensure parses n (view c)).0
unfolding ensure_session
ensure_session_same user_id parses n c = ground arith

encrypt_with-sealing :
    (user_id : String) (h ssrc : ℕ) (opus : Bytes) (c : LibdaveController)
    → Sound user_id c
    → c.ratchets user_id ≡ some h
    → sealing (encrypt_with h ssrc opus c).0 ≡ seals (some h) opus
unfolding encrypt_with
encrypt_with-sealing user_id h ssrc opus c i e = ground (arith, i.outbound.ready h)

encrypt_with-view :
    (h ssrc : ℕ) (opus : Bytes) (c : LibdaveController)
    → view (encrypt_with h ssrc opus c).1 ≡ view c
unfolding encrypt_with
encrypt_with-view h ssrc opus c = refl

pub encrypt_refines :
    (keys : String → Bool) (user_id : String) (ssrc : ℕ) (opus : Bytes) (c : LibdaveController)
    → Sound user_id c
    → let (x, c') = encrypt_opus keys user_id ssrc opus c in
      let (kr, g) = group_ratchet keys (sender user_id c) (view c) in
      (sealing x
        ≡ (if eqb c.protocol_version 0 then plain opus else with_ratchet (λ h. seals h opus) kr))
      × (view c' ≡ (if eqb c.protocol_version 0 then view c else g))
unfolding encrypt_opus
encrypt_refines keys user_id ssrc opus c i =
    let out = ratchet_or_fetch keys (sender user_id c) c in
    let j = ratchet_or_fetch-Sound keys user_id (sender user_id c) c i in
    elim (Bool-cases (eqb c.protocol_version 0)) [
      | inl p ↦ (ground arith, ground arith)
      | inr q ↦ elim (Option-cases out.0) [
        | inl o ↦ (
          ground (arith, ratchet_or_fetch_same keys (sender user_id c) c),
          ground (arith, view-ratchet_or_fetch keys (sender user_id c) c),
        )
        | inr (h, o) ↦
            let at =
              sym (ap (λ w. out.1.ratchets w) (sender-local keys user_id c i.outbound))
              ∙ ratchet_or_fetch-held keys user_id (sender user_id c) c h o in
            (
              ground (
                arith,
                ratchet_or_fetch_same keys (sender user_id c) c,
                encrypt_with-sealing user_id h ssrc opus out.1 j at,
              ),
              ground (
                arith,
                view-ratchet_or_fetch keys (sender user_id c) c,
                encrypt_with-view h ssrc opus out.1,
              ),
            )
      ]
    ]

pub prepare_decryptor-view :
    (keys : String → Bool) (user_id : String) (ssrc : ℕ) (c : LibdaveController)
    → Sound user_id c
    → view (prepare_decryptor keys ssrc c)
      ≡ (group_ratchet keys (name_of (c.ssrc_users ssrc)) (view c)).1
unfolding prepare_decryptor
prepare_decryptor-view keys user_id ssrc c i =
    let u = name_of (c.ssrc_users ssrc) in
    elim (Option-cases (c.decryptors ssrc)) [
      | inl n ↦ ground (arith, view-ratchet_or_fetch keys u c, i.holding.connected u)
      | inr (d, e) ↦
          let (w, f) = i.tuned.mapped ssrc d e in ground (arith, i.tuned.current ssrc w d)
    ]

pub ratchet_or_fetch-decryptors :
    (keys : String → Bool) (u : String) (ssrc : ℕ) (c : LibdaveController)
    → c.decryptors ssrc ≡ none
    → (ratchet_or_fetch keys u c).1.decryptors ssrc ≡ none
unfolding fetch_ratchet install_ratchet
ratchet_or_fetch-decryptors keys u ssrc c n = ground arith

pub prepare_decryptor-ratchet :
    (keys : String → Bool) (user_id : String) (ssrc : ℕ) (opus : Bytes) (c : LibdaveController)
    → Sound user_id c
    → unsealing (elim ((prepare_decryptor keys ssrc c).decryptors ssrc) [
      | none ↦ no_decryptor
      | some d ↦ decrypts d opus
    ])
      ≡ with_ratchet
          (λ h. opens h opus)
          (group_ratchet keys (name_of (c.ssrc_users ssrc)) (view c)).0
unfolding prepare_decryptor
prepare_decryptor-ratchet keys user_id ssrc opus c i =
    let u = name_of (c.ssrc_users ssrc) in
    elim (Option-cases (c.decryptors ssrc)) [
      | inl n ↦ ground (
        arith,
        ratchet_or_fetch_same keys u c,
        ratchet_or_fetch-decryptors keys u ssrc c n,
        i.holding.connected u,
        i.holding.named,
        eq_iff u "",
      )
      | inr (d, e) ↦
          let (w, f) = i.tuned.mapped ssrc d e in ground (arith, i.tuned.current ssrc w d)
    ]
