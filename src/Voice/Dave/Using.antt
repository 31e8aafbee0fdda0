-- ===== src/Voice/Dave/Using.antt =====
-- voice_dave_controller_libdave.go: what the audio and the commits do to the ratchets in use.
use discordgo.Base.{
  ℕ, ◌%◌, String, Bool, true, false, ◌==◌, eq_iff, eq_refl, ◌≡◌, ◌≢◌, refl, sym, ap, ◌∙◌, Option,
  none, some, List, [], ◌∷◌, eqb, arith, Bool-cases, inl, inr, map, on_option, on_if,
}
use discordgo.Voice.Bytes.{Bytes}
use discordgo.Voice.Dave.Controller.{
  LibdaveController, is_in, with_user, with_user_unless_empty, install_ratchet, fetch_ratchet,
}
use discordgo.Voice.Dave.Transitions.{
  add_users, with_roster, refresh_each, refresh_ratchets, ensure_outbound_ratchet,
}
use discordgo.Voice.Dave.Audio.{
  Sealing, Unsealing, sender, ratchet_or_fetch, encrypt_with, encrypt_opus, name_of, add_decryptor,
  prepare_decryptor, give_ssrc, decrypt_opus, handle_speaking_update,
}
use discordgo.Voice.Dave.Owning.{
  Holding-same, Tuned-same, Outbound, Sound, fetch_ratchet-session, fetch_ratchet-Sound,
}

name_of-some : (o : Option String) → (name_of o == "") ≡ false → o ≡ some (name_of o)
name_of-some none n = ground (arith, eq_refl "")
name_of-some (some u) n = refl

module _ (keys : String → Bool) (user_id : String) where
  pub ratchet_or_fetch-Sound :
      (u : String) (c : LibdaveController)
      → Sound user_id c
      → Sound user_id (ratchet_or_fetch keys u c).1
  ratchet_or_fetch-Sound u c i =
      let P = λ (x : Option ℕ × LibdaveController). Sound user_id x.1 in
      on_option P (c.ratchets u) _ _
        (λ e.
          on_if P (u == "") _ _ (λ p. i)
            (λ n.
              on_option P c.session _ _ (λ f. i)
                (λ v f.
                  fetch_ratchet-Sound keys u user_id c v f (λ q. ground (arith, eq_iff u "")) i)))
        (λ h e. i)

  -- A ratchet at hand is the one that is held.
  pub ratchet_or_fetch-held :
      (u : String) (c : LibdaveController) (h : ℕ)
      → (ratchet_or_fetch keys u c).0 ≡ some h
      → (ratchet_or_fetch keys u c).1.ratchets u ≡ some h
  unfolding fetch_ratchet
  ratchet_or_fetch-held u c h e = ground (arith, eq_refl u)

  ratchet_or_fetch-ssrc_users :
      (u : String) (c : LibdaveController) → (ratchet_or_fetch keys u c).1.ssrc_users ≡ c.ssrc_users
  unfolding fetch_ratchet install_ratchet
  ratchet_or_fetch-ssrc_users u c = ground arith

  pub sender-local : (c : LibdaveController) → Outbound user_id c → sender user_id c ≡ user_id
  sender-local c i = ground (arith, i.local)

  pub encrypt_with-Sound :
      (h ssrc : ℕ) (opus : Bytes) (c : LibdaveController)
      → c.ratchets user_id ≡ some h
      → Sound user_id c
      → Sound user_id (encrypt_with h ssrc opus c).1
  unfolding encrypt_with
  encrypt_with-Sound h ssrc opus c e i = record {
    holding = Holding-same c _ refl refl refl refl (λ e. e) i.holding;
    tuned = Tuned-same c _ refl refl refl i.tuned;
    outbound = record {
      local = i.outbound.local;
      ready = λ k f g. ground (arith, i.outbound.ready k);
    };
  }

  add_decryptor-Sound :
      (ssrc : ℕ) (kr : Option ℕ) (u : String) (c : LibdaveController)
      → c.ssrc_users ssrc ≡ some u
      → ((h : ℕ) → kr ≡ some h → c.ratchets u ≡ some h)
      → Sound user_id c
      → Sound user_id (add_decryptor ssrc kr c)
  add_decryptor-Sound ssrc none u c e f i = i
  add_decryptor-Sound ssrc (some h) u c e f i = record {
    holding = Holding-same c _ refl refl refl refl (λ e. e) i.holding;
    tuned = record {
      mapped = λ n d g. elim (Bool-cases (eqb ssrc n)) [
        | inl p ↦ (u, ground arith)
        | inr q ↦ i.tuned.mapped n d (ground arith)
      ];
      current = λ n w d g k. ground (arith, f h, i.tuned.current n w d);
    };
    outbound = record { local = i.outbound.local; ready = i.outbound.ready };
  }

  pub prepare_decryptor-Sound :
      (ssrc : ℕ) (c : LibdaveController)
      → Sound user_id c
      → Sound user_id (prepare_decryptor keys ssrc c)
  unfolding prepare_decryptor
  prepare_decryptor-Sound ssrc c i =
      let u = name_of (c.ssrc_users ssrc) in
      let out = ratchet_or_fetch keys u c in
      on_option (Sound user_id) (c.decryptors ssrc) _ _
        (λ e.
          on_option (Sound user_id) c.session _ _ (λ f. i)
            (λ v f.
              on_if (Sound user_id) (u == "") _ _ (λ p. i)
                (λ n.
                  add_decryptor-Sound ssrc out.0 u out.1
                    (ap (λ f. f ssrc) (ratchet_or_fetch-ssrc_users u c)
                      ∙ name_of-some (c.ssrc_users ssrc) n)
                    (ratchet_or_fetch-held u c) (ratchet_or_fetch-Sound u c i))))
        (λ d e. i)

  pub encrypt_opus-Sound :
      (ssrc : ℕ) (opus : Bytes) (c : LibdaveController)
      → Sound user_id c
      → Sound user_id (encrypt_opus keys user_id ssrc opus c).1
  unfolding encrypt_opus
  encrypt_opus-Sound ssrc opus c i =
      let P = λ (x : Sealing × LibdaveController). Sound user_id x.1 in
      let out = ratchet_or_fetch keys (sender user_id c) c in
      on_if P (eqb c.protocol_version 0) _ _ (λ p. i)
        (λ n.
          on_option P out.0 _ _ (λ e. ratchet_or_fetch-Sound (sender user_id c) c i)
            (λ h e.
              encrypt_with-Sound h ssrc opus out.1
                (sym (ap (λ w. out.1.ratchets w) (sender-local c i.outbound))
                  ∙ ratchet_or_fetch-held (sender user_id c) c h e)
                (ratchet_or_fetch-Sound (sender user_id c) c i)))

  pub decrypt_opus-Sound :
      (ssrc : ℕ) (opus : Bytes) (c : LibdaveController)
      → Sound user_id c
      → Sound user_id (decrypt_opus keys ssrc opus c).1
  unfolding decrypt_opus
  decrypt_opus-Sound ssrc opus c i =
      let P = λ (x : Unsealing × LibdaveController). Sound user_id x.1 in
      let c' = prepare_decryptor keys ssrc c in
      let j = prepare_decryptor-Sound ssrc c i in
      on_if P (eqb c.protocol_version 0) _ _ (λ p. i)
        (λ n. on_option P (c'.decryptors ssrc) _ _ (λ e. j) (λ d e. j))

  -- An SSRC without a user, or of the same one, is given to a user.
  pub given-Sound :
      (n : ℕ) (u : String) (c : LibdaveController)
      → ((w : String) → c.ssrc_users n ≡ some w → w ≡ u)
      → Sound user_id c
      → Sound user_id (give_ssrc n u c)
  given-Sound n u c e i = record {
    holding = Holding-same c _ refl refl refl refl (λ e. e) i.holding;
    tuned = record {
      mapped = λ m d f. elim (Bool-cases (eqb n m)) [
        | inl p ↦ (u, ground arith)
        | inr o ↦ let (w, g) = i.tuned.mapped m d f in (w, ground arith)
      ];
      current = λ m w d f g.
          let (x, k) = i.tuned.mapped m d g in ground (arith, i.tuned.current m x d, e x);
    };
    outbound = record { local = i.outbound.local; ready = i.outbound.ready };
  }

  pub handle_speaking_update-Sound :
      (ssrc : ℕ) (u : String) (c : LibdaveController)
      → ((w : String) → c.ssrc_users (ssrc % 4294967296) ≡ some w → w ≡ u)
      → Sound user_id c
      → Sound user_id (handle_speaking_update keys ssrc u c)
  unfolding handle_speaking_update
  handle_speaking_update-Sound ssrc u c e i =
      let short = ssrc % 4294967296 in
      on_if (Sound user_id) (eqb ssrc 0) _ _ (λ p. i)
        (λ n.
          on_if (Sound user_id) (u == "") _ _ (λ p. i)
            (λ q. prepare_decryptor-Sound short (give_ssrc short u c) (given-Sound short u c e i)))

  pub ensure_outbound_ratchet-Sound :
      (c : LibdaveController)
      → Sound user_id c
      → Sound user_id (ensure_outbound_ratchet keys user_id c)
  unfolding ensure_outbound_ratchet
  ensure_outbound_ratchet-Sound c i =
      on_if (Sound user_id) (user_id == "") _ _ (λ p. i)
        (λ n.
          on_option (Sound user_id) (c.ratchets user_id) _ _
            (λ e.
              on_option (Sound user_id) c.session _ _ (λ f. i)
                (λ v f.
                  fetch_ratchet-Sound keys user_id user_id c v f
                    (λ q. ground (arith, eq_iff user_id "")) i))
            (λ h e. i))

  refresh_each-Sound :
      (us : List String) (c : LibdaveController) (v : ℕ)
      → c.session ≡ some v
      → ((u : String) → is_in u us ≡ true → u ≢ "")
      → Sound user_id c
      → Sound user_id (refresh_each keys us c)
  refresh_each-Sound [] c v e n i = i
  refresh_each-Sound (u ∷ us) c v e n i =
      refresh_each-Sound us (fetch_ratchet keys u c).1 v (fetch_ratchet-session keys u c ∙ e)
        (λ w p. n w (ground arith))
        (fetch_ratchet-Sound keys u user_id c v e (n u (ground (arith, eq_refl u))) i)

add_users-nonempty :
    (ws : List (Option String)) (us : List String)
    → ((u : String) → is_in u us ≡ true → u ≢ "")
    → (u : String) → is_in u (add_users ws us) ≡ true
    → u ≢ ""
add_users-nonempty [] us n = n
add_users-nonempty (none ∷ ws) us n = add_users-nonempty ws us n
add_users-nonempty (some w ∷ ws) us n =
    add_users-nonempty ws (with_user_unless_empty w us)
      (λ u e q. ground (arith, eq_iff w u, eq_iff w "", n u))

with_roster-nonempty :
    (format_uint : ℕ → String) (roster : List ℕ) (us : List String)
    → ((n : ℕ) → format_uint n ≢ "")
    → ((u : String) → is_in u us ≡ true → u ≢ "")
    → (u : String) → is_in u (with_roster (map format_uint roster) us) ≡ true
    → u ≢ ""
with_roster-nonempty format_uint [] us f n = n
with_roster-nonempty format_uint (r ∷ roster) us f n =
    with_roster-nonempty format_uint roster (with_user (format_uint r) us) f
      (λ u e q. ground (arith, eq_iff (format_uint r) u, f r, n u))

pub refresh_ratchets-Sound :
    (keys : String → Bool) (range : List String → List String) (format_uint : ℕ → String)
    → ((us : List String) (u : String) → is_in u (range us) ≡ true → is_in u us ≡ true)
    → ((n : ℕ) → format_uint n ≢ "")
    → (user_id : String) (roster : List ℕ) (c : LibdaveController) (v : ℕ) → c.session ≡ some v
    → Sound user_id c
    → Sound user_id (refresh_ratchets keys range format_uint roster c)
unfolding refresh_ratchets
refresh_ratchets-Sound keys range format_uint r f user_id roster c v e i =
    refresh_each-Sound keys user_id _ c v e
      (λ u p.
        add_users-nonempty (map c.ssrc_users c.mapped_ssrcs) _
          (with_roster-nonempty format_uint roster [] f (λ w q. ground arith)) u (r _ u p))
      i
