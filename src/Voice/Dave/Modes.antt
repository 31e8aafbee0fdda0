-- ===== src/Voice/Dave/Modes.antt =====
-- voice_dave_controller_libdave.go: the modes of passthrough of the encryptor and the decryptors.
use discordgo.Base.{
  ℕ, ◌%◌, String, Bool, true, false, ◌==◌, eq_iff, ◌≡◌, refl, ap, ◌∙◌, Option, none, some, List, [],
  ◌∷◌, map, eqb, arith, Option-cases, if◌then◌else◌, inl, inr, on_if, on_option,
}
use discordgo.Voice.Bytes.{Bytes}
use discordgo.Voice.Dave.Controller.{
  LibdaveController, Encryptor, Decryptor, retune, belongs, install_ratchet, fetch_ratchet,
  ensure_session, current_protocol_version, close_controller,
}
use discordgo.Voice.Dave.Transitions.{
  refresh_each, refresh_ratchets, ensure_outbound_ratchet, CommitResult, nil_result, commit_failed,
  commit_ignored, committed, apply_commit, handle_mls_commit_transition, prepare_transition,
  client_disconnected, unless_belongs, add_users, with_roster,
}
use discordgo.Voice.Dave.Audio.{
  sender, ratchet_or_fetch, encrypt_with, encrypt_opus, prepare_decryptor, decrypt_opus, name_of,
  give_ssrc, handle_speaking_update,
}
use discordgo.Voice.Dave.Owning.{Sound}
use discordgo.Voice.Dave.Using.{sender-local, given-Sound}
use discordgo.Voice.Dave.Refining.{
  ratchet_or_fetch_same, ensure_session_same, prepare_decryptor-ratchet,
}
use discordgo.Voice.Dave.Group.{
  view, group_ratchet, group_ensure, DaveCall, transition, disconnected, commit, speaking, encrypt,
  decrypt, close, sealing_mode, unsealing_mode, told, no_mode, encryptor_mode, decryptor_mode,
  Modes, or_off, or_untold, with_encryptor, with_decryptor, dave_step, dave_mode, group_mode,
  mode_step, Steady,
}

abbrev through_of : Option Encryptor → Option Bool
through_of none = none
through_of (some e) = some e.passthrough

abbrev mode_of : Option Decryptor → Option (Option Bool)
mode_of none = none
mode_of (some d) = some d.passthrough

-- The modes of a controller.
abbrev pub Matches : LibdaveController → Modes → Type 0
Matches c m =
    (through_of c.encryptor ≡ m.encryptor) × ((k : ℕ) → mode_of (c.decryptors k) ≡ m.decryptors k)

abbrev Kept : LibdaveController → LibdaveController → Type 0
Kept c c' =
    (c'.encryptor ≡ c.encryptor) × ((k : ℕ) → mode_of (c'.decryptors k) ≡ mode_of (c.decryptors k))

Kept-trans : (c c' c'' : LibdaveController) → Kept c c' → Kept c' c'' → Kept c c''
Kept-trans c c' c'' (e, f) (e', f') = (e' ∙ e, λ k. f' k ∙ f k)

Kept-Matches : (c c' : LibdaveController) (m : Modes) → Kept c c' → Matches c m → Matches c' m
Kept-Matches c c' m (e, f) (a, b) = (ap through_of e ∙ a, λ k. f k ∙ b k)

mode_of-retune : (b : Bool) (h : ℕ) (d : Option Decryptor) → mode_of (retune b h d) ≡ mode_of d
mode_of-retune b h none = refl
mode_of-retune true h (some d) = refl
mode_of-retune false h (some d) = refl

module _ (keys : String → Bool) where
  fetch_ratchet-Kept : (u : String) (c : LibdaveController) → Kept c (fetch_ratchet keys u c).1
  unfolding fetch_ratchet install_ratchet
  fetch_ratchet-Kept u c = (
    ground arith,
    λ k.
        ground (arith, mode_of-retune (belongs (c.ssrc_users k) u) c.next_ratchet (c.decryptors k)),
  )

  ratchet_or_fetch-Kept :
      (u : String) (c : LibdaveController) → Kept c (ratchet_or_fetch keys u c).1
  ratchet_or_fetch-Kept u c =
      on_option (λ (o : Option ℕ × LibdaveController). Kept c o.1) (c.ratchets u) _
        (λ h. (some h, c))
        (λ _.
          on_if (λ (o : Option ℕ × LibdaveController). Kept c o.1) (u == "") (none, c) _
            (λ _. (refl, λ k. refl))
            (λ _.
              on_option (λ (o : Option ℕ × LibdaveController). Kept c o.1) c.session (none, c)
                (λ v. fetch_ratchet keys u c) (λ _. (refl, λ k. refl))
                (λ v _. fetch_ratchet-Kept u c)))
        (λ h _. (refl, λ k. refl))

  refresh_each-Kept : (us : List String) (c : LibdaveController) → Kept c (refresh_each keys us c)
  refresh_each-Kept [] c = (refl, λ k. refl)
  refresh_each-Kept (u ∷ us) c =
      let c' = (fetch_ratchet keys u c).1 in
      Kept-trans c c' (refresh_each keys us c') (fetch_ratchet-Kept u c) (refresh_each-Kept us c')

  ensure_outbound_ratchet-Kept :
      (u : String) (c : LibdaveController) → Kept c (ensure_outbound_ratchet keys u c)
  unfolding ensure_outbound_ratchet
  ensure_outbound_ratchet-Kept u c =
      on_if (Kept c) (u == "") c _ (λ _. (refl, λ k. refl))
        (λ _.
          on_option (Kept c) (c.ratchets u) _ (λ h. c)
            (λ _.
              on_option (Kept c) c.session c (λ v. (fetch_ratchet keys u c).1)
                (λ _. (refl, λ k. refl)) (λ v _. fetch_ratchet-Kept u c))
            (λ h _. (refl, λ k. refl)))

ensure_session-Kept :
    (user_id : String) (parses : Bool) (n : ℕ) (c : LibdaveController)
    → Kept c (ensure_session user_id parses n c).1
unfolding ensure_session
ensure_session-Kept user_id parses n c = (ground arith, λ k. ground arith)

encrypt-Matches :
    (keys : String → Bool) (user_id : String) (ssrc : ℕ) (opus : Bytes) (c : LibdaveController)
    (m : Modes)
    → Matches c m
    → let kr = (group_ratchet keys (sender user_id c) (view c)).0 in
      let out = encrypt_opus keys user_id ssrc opus c in
      (sealing_mode out.0 ≡ (
        if eqb c.protocol_version 0
        then no_mode
        else elim kr [ none ↦ no_mode | some h ↦ encryptor_mode (or_off m.encryptor) ]))
      × Matches out.1 (if eqb c.protocol_version 0 then m else with_encryptor kr m)
unfolding encrypt_opus encrypt_with
encrypt-Matches keys user_id ssrc opus c m (a, b) =
    let u = sender user_id c in
    let (e, f) = ratchet_or_fetch-Kept keys u c in
    let same = ratchet_or_fetch_same keys u c in
    elim (Option-cases c.encryptor) [
      | inl n ↦ (
        ground (arith, e, same, a, n),
        (ground (arith, e, same, a, n), λ k. ground (arith, same, f k, b k)),
      )
      | inr (x, n) ↦ (
        ground (arith, e, same, a, n),
        (ground (arith, e, same, a, n), λ k. ground (arith, same, f k, b k)),
      )
    ]

prepare_decryptor-Matches :
    (keys : String → Bool) (user_id : String) (ssrc : ℕ) (c : LibdaveController) (m : Modes)
    → Sound user_id c
    → Matches c m
    → Matches
        (prepare_decryptor keys ssrc c)
        (with_decryptor ssrc (group_ratchet keys (name_of (c.ssrc_users ssrc)) (view c)).0 m)
unfolding prepare_decryptor
prepare_decryptor-Matches keys user_id ssrc c m i (a, b) =
    let u = name_of (c.ssrc_users ssrc) in
    let (e, f) = ratchet_or_fetch-Kept keys u c in
    let same = ratchet_or_fetch_same keys u c in
    elim (Option-cases (c.decryptors ssrc)) [
      | inl n ↦ (
        ground (arith, same, e, a, i.holding.connected u, i.holding.named, eq_iff u ""),
        λ k.
            ground (
              arith,
              same,
              f k,
              b k,
              b ssrc,
              n,
              i.holding.connected u,
              i.holding.named,
              eq_iff u "",
            ),
      )
      | inr (d, n) ↦
          let (w, g) = i.tuned.mapped ssrc d n in
          let now = i.tuned.current ssrc w d in
          (ground (arith, a, now), λ k. ground (arith, b k, b ssrc, n, now))
    ]

decrypt-Matches :
    (keys : String → Bool) (user_id : String) (ssrc : ℕ) (opus : Bytes) (c : LibdaveController)
    (m : Modes)
    → Sound user_id c
    → Matches c m
    → let kr = (group_ratchet keys (name_of (c.ssrc_users ssrc)) (view c)).0 in
      let out = decrypt_opus keys ssrc opus c in
      (unsealing_mode out.0 ≡ (
        if eqb c.protocol_version 0
        then no_mode
        else elim kr [ none ↦ no_mode | some h ↦ decryptor_mode (or_untold (m.decryptors ssrc)) ]))
      × Matches out.1 (if eqb c.protocol_version 0 then m else with_decryptor ssrc kr m)
unfolding decrypt_opus
decrypt-Matches keys user_id ssrc opus c m i (a, b) =
    let u = name_of (c.ssrc_users ssrc) in
    let (e, f) = prepare_decryptor-Matches keys user_id ssrc c m i (a, b) in
    let r = prepare_decryptor-ratchet keys user_id ssrc opus c i in
    (
      elim (Option-cases (group_ratchet keys u (view c)).0) [
        | inl n ↦ elim (Option-cases ((prepare_decryptor keys ssrc c).decryptors ssrc)) [
          | inl n' ↦ ground (arith, n, n')
          | inr (d, e') ↦ let clash = (rw (n, e') at r) in absurd (cc)
        ]
        | inr (h, n) ↦ elim (Option-cases ((prepare_decryptor keys ssrc c).decryptors ssrc)) [
          | inl n' ↦ let clash = (rw (n, n') at r) in absurd (cc)
          | inr (d, e') ↦ ground (arith, f ssrc, n, e')
        ]
      ],
      (ground (arith, e, a), λ k. ground (arith, f k, b k)),
    )

speaking-Matches :
    (keys : String → Bool) (user_id u : String) (ssrc : ℕ) (c : LibdaveController) (m : Modes)
    → ((w : String) → c.ssrc_users (ssrc % 4294967296) ≡ some w → w ≡ u)
    → Sound user_id c
    → Matches c m
    → Matches (handle_speaking_update keys ssrc u c) (
        if eqb ssrc 0
        then m
        else if u == ""
        then m
        else with_decryptor
            (ssrc % 4294967296)
            (group_ratchet keys u (view (give_ssrc (ssrc % 4294967296) u c))).0
            m)
unfolding handle_speaking_update
speaking-Matches keys user_id u ssrc c m s i (a, b) =
    let n = ssrc % 4294967296 in
    let (e, f) =
      prepare_decryptor-Matches keys user_id n (give_ssrc n u c) m
        (given-Sound keys user_id n u c s i) (a, b) in
    (ground (arith, e, a), λ k. ground (arith, f k, b k))

prepare_transition-Matches :
    (user_id : String) (parses : Bool) (transition_id n : ℕ) (c : LibdaveController) (m : Modes)
    → Matches c m
    → Matches (prepare_transition user_id parses transition_id n c).1 (
        if (group_ensure parses (n % 65536) (view c)).0
        then record {
          encryptor = told (eqb n 0) m.encryptor;
          decryptors = λ ssrc. told (some (eqb n 0)) (m.decryptors ssrc);
        }
        else m)
unfolding prepare_transition
prepare_transition-Matches user_id parses transition_id n c m (a, b) =
    let (e, f) = ensure_session-Kept user_id parses (n % 65536) c in
    let same = ensure_session_same user_id parses (n % 65536) c in
    (ground (arith, e, same, a), λ k. ground (arith, same, f k, b k))

client_disconnected-Matches :
    (u : String) (c : LibdaveController) (m : Modes)
    → Matches c m
    → Matches (client_disconnected u c) (
        if u == "" then m else record m {
          decryptors = λ ssrc. unless_belongs (c.ssrc_users ssrc) u (m.decryptors ssrc);
        })
unfolding client_disconnected
client_disconnected-Matches u c m (a, b) = (ground (arith, a), λ k. ground (arith, b k))

module _ (range : List String → List String) (format_uint : ℕ → String) (user_id : String) where
  apply_commit-Kept :
      (keys : String → Bool) (r : CommitResult) (c : LibdaveController)
      → Kept c (apply_commit keys range format_uint user_id r c).1
  unfolding apply_commit refresh_ratchets
  apply_commit-Kept keys nil_result c = (refl, λ k. refl)
  apply_commit-Kept keys commit_failed c = (refl, λ k. refl)
  apply_commit-Kept keys commit_ignored c = ensure_outbound_ratchet-Kept keys user_id c
  apply_commit-Kept keys (committed roster) c =
      let c' = refresh_ratchets keys range format_uint roster c in
      Kept-trans c c' (ensure_outbound_ratchet keys user_id c')
        (refresh_each-Kept keys
          (range
            (add_users (map c.ssrc_users c.mapped_ssrcs) (with_roster (map format_uint roster) [])))
          c)
        (ensure_outbound_ratchet-Kept keys user_id c')

  commit-Kept :
      (keys : String → Bool) (parses : Bool) (process : Bytes → CommitResult) (bs : Bytes)
      (c : LibdaveController)
      → Kept c (handle_mls_commit_transition keys range format_uint user_id parses process bs c).1
  unfolding handle_mls_commit_transition
  commit-Kept keys parses process [] c = (refl, λ k. refl)
  commit-Kept keys parses process (b ∷ bs) c =
      let s = ensure_session user_id parses (current_protocol_version c) c in
      let kept = ensure_session-Kept user_id parses (current_protocol_version c) c in
      let P = λ (o : (Option Bool × Bool) × LibdaveController). Kept c o.1 in
      on_if P s.0 _ _
        (λ _.
          on_option P s.1.session _ _ (λ _. kept)
            (λ v _.
              Kept-trans c s.1
                (apply_commit keys range format_uint user_id (process (b ∷ bs)) s.1).1 kept
                (apply_commit-Kept keys (process (b ∷ bs)) s.1)))
        (λ _. kept)

  -- A call of a controller whose modes are those of the group: so it is after the call, and the
  -- frame is given to an encryptor or a decryptor of the mode that the group has for it.
  pub dave_step-Matches :
      (x : DaveCall) (c : LibdaveController) (m : Modes)
      → Steady range format_uint user_id x (view c)
      → Sound user_id c
      → Matches c m
      → (dave_mode range format_uint user_id x c
          ≡ group_mode range format_uint user_id x (view c) m)
        × Matches
            (dave_step range format_uint user_id x c).1
            (mode_step range format_uint user_id x (view c) m)
  unfolding close_controller
  dave_step-Matches (transition p t n) c m s i w =
      (refl, prepare_transition-Matches user_id p t n c m w)
  dave_step-Matches (disconnected u) c m s i w = (refl, client_disconnected-Matches u c m w)
  dave_step-Matches (commit keys p f bs) c m s i w = (
    refl,
    Kept-Matches c (handle_mls_commit_transition keys range format_uint user_id p f bs c).1 m
        (commit-Kept keys p f bs c) w,
  )
  dave_step-Matches (speaking keys n u) c m s i w =
      (refl, speaking-Matches keys user_id u n c m s i w)
  dave_step-Matches (encrypt keys n opus) c m s i w =
      let (e, f) = encrypt-Matches keys user_id n opus c m w in
      let same =
        ap (λ w. (group_ratchet keys w (view c)).0) (sender-local keys user_id c i.outbound) in
      (rw same at e, rw same at f)
  dave_step-Matches (decrypt keys n opus) c m s i w = decrypt-Matches keys user_id n opus c m i w
  dave_step-Matches close c m s i w = (refl, (refl, λ k. refl))
