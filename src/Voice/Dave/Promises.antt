-- ===== src/Voice/Dave/Promises.antt =====
-- voice_dave_controller_libdave.go: any history of calls treats the frames as promised.
use discordgo.Base.{
  ℕ, ◌%◌, String, Bool, true, ◌==◌, ◌≡◌, ◌≢◌, refl, sym, ap, ◌∙◌, none, some, List, [], ◌∷◌, map,
  eqb, arith, if◌then◌else◌,
}
use mathlib.Core.Path.{subst}
use discordgo.Voice.Bytes.{Bytes}
use discordgo.Voice.Dave.Controller.{
  LibdaveController, is_in, ensure_session, current_protocol_version, new_default_dave_controller,
  close_controller,
}
use discordgo.Voice.Dave.Transitions.{
  refresh_ratchets, ensure_outbound_ratchet, add_users, with_roster, CommitResult, nil_result,
  commit_failed, commit_ignored, committed, handle_mls_commit_transition, apply_commit,
  prepare_transition, client_disconnected,
}
use discordgo.Voice.Dave.Audio.{decrypt_opus, name_of, handle_speaking_update, give_ssrc}
use discordgo.Voice.Dave.Owning.{Sound}
use discordgo.Voice.Dave.Owned.{
  prepare_transition-Sound, client_disconnected-Sound, close_controller-Sound,
  new_default_dave_controller-Sound,
}
use discordgo.Voice.Dave.Using.{
  sender-local, given-Sound, encrypt_opus-Sound, decrypt_opus-Sound, handle_speaking_update-Sound,
}
use discordgo.Voice.Dave.Answering.{handle_mls_commit_transition-Sound}
use discordgo.Voice.Dave.Group.{
  plain, Group, view, group_ratchet, group_ensure, group_outbound, group_renew, group_commit,
  group_apply, DaveCall, transition, disconnected, commit, speaking, encrypt, decrypt, close,
  unsealing, dave_step, group_step, dave_run, group_run, dave_mode, group_mode, mode_step, Modes,
  no_modes, Steady, SteadyRun, with_ratchet, opens,
}
use discordgo.Voice.Dave.Modes.{Matches, dave_step-Matches}
use discordgo.Voice.Dave.Refining.{
  view-refresh_each, view-ensure_outbound_ratchet, view-ensure_session, ensure_session_same,
  encrypt_refines, prepare_decryptor-view, prepare_decryptor-ratchet,
}

prepare_transition-view :
    (user_id : String) (parses : Bool) (transition_id n : ℕ) (c : LibdaveController)
    → view (prepare_transition user_id parses transition_id n c).1 ≡ (
        let (ok, g) = group_ensure parses (n % 65536) (view c) in
        if ok then record g { protocol_version = n % 65536 } else g)
unfolding prepare_transition ensure_session
prepare_transition-view user_id parses transition_id n c = ground arith

handle_speaking_update-view :
    (keys : String → Bool) (user_id u : String) (ssrc : ℕ) (c : LibdaveController)
    → ((w : String) → c.ssrc_users (ssrc % 4294967296) ≡ some w → w ≡ u)
    → Sound user_id c
    → view (handle_speaking_update keys ssrc u c) ≡ (
        if eqb ssrc 0
        then view c
        else if u == ""
        then view c
        else (group_ratchet keys u (view (give_ssrc (ssrc % 4294967296) u c))).1)
unfolding handle_speaking_update
handle_speaking_update-view keys user_id u ssrc c e i =
    let n = ssrc % 4294967296 in
    ground (
      arith,
      prepare_decryptor-view keys user_id n (give_ssrc n u c) (given-Sound keys user_id n u c e i),
    )

client_disconnected-view :
    (range : List String → List String) (format_uint : ℕ → String) (user_id u : String)
    (c : LibdaveController)
    → view (client_disconnected u c)
      ≡ (group_step range format_uint user_id (disconnected u) (view c)).1
unfolding client_disconnected
client_disconnected-view range format_uint user_id u c = ground arith

decrypt_opus-unsealing :
    (keys : String → Bool) (user_id : String) (ssrc : ℕ) (opus : Bytes) (c : LibdaveController)
    → Sound user_id c
    → let (x, c') = decrypt_opus keys ssrc opus c in
      let (kr, g) = group_ratchet keys (name_of (c.ssrc_users ssrc)) (view c) in
      (unsealing x
        ≡ (if eqb c.protocol_version 0 then plain opus else with_ratchet (λ h. opens h opus) kr))
      × (view c' ≡ (if eqb c.protocol_version 0 then view c else g))
unfolding decrypt_opus
decrypt_opus-unsealing keys user_id ssrc opus c i = (
  ground (arith, prepare_decryptor-ratchet keys user_id ssrc opus c i),
  ground (arith, prepare_decryptor-view keys user_id ssrc c i),
)

module _ (range : List String → List String) (format_uint : ℕ → String) (user_id : String) where
  renew-view :
      (keys : String → Bool) (roster : List ℕ) (c : LibdaveController)
      → view
          (ensure_outbound_ratchet keys user_id (refresh_ratchets keys range format_uint roster c))
        ≡ group_renew range format_uint user_id keys roster (view c)
  unfolding refresh_ratchets
  renew-view keys roster c =
      view-ensure_outbound_ratchet keys user_id _
      ∙ ap (λ g. group_outbound user_id keys g)
          (view-refresh_each keys
            (range (
              add_users (map c.ssrc_users c.mapped_ssrcs)
                (with_roster (map format_uint roster) [])))
            c)

  apply_commit-view :
      (keys : String → Bool) (r : CommitResult) (c : LibdaveController)
      → view (apply_commit keys range format_uint user_id r c).1
        ≡ group_apply range format_uint user_id keys r (view c)
  unfolding apply_commit
  apply_commit-view keys nil_result c = refl
  apply_commit-view keys commit_failed c = refl
  apply_commit-view keys commit_ignored c = view-ensure_outbound_ratchet keys user_id c
  apply_commit-view keys (committed roster) c = renew-view keys roster c

  handle_mls_commit_transition-view :
      (keys : String → Bool) (parses : Bool) (process : Bytes → CommitResult) (bs : Bytes)
      (c : LibdaveController)
      → view (handle_mls_commit_transition keys range format_uint user_id parses process bs c).1
        ≡ group_commit range format_uint user_id keys parses process bs (view c)
  unfolding handle_mls_commit_transition
  handle_mls_commit_transition-view keys parses process [] c = refl
  handle_mls_commit_transition-view keys parses process (b ∷ bs) c =
      let n = current_protocol_version c in
      let s = ensure_session user_id parses n c in
      let after = λ (ok : Bool) (g : Group).
        if ok
        then elim g.session [
          | none ↦ g
          | some v ↦ group_apply range format_uint user_id keys (process (b ∷ bs)) g
        ]
        else g in
      ground (arith, apply_commit-view keys (process (b ∷ bs)) s.1)
      ∙ (ap (λ ok. after ok (view s.1)) (ensure_session_same user_id parses n c)
          ∙ ap (λ g. after (group_ensure parses n (view c)).0 g)
              (view-ensure_session user_id parses n c))

  encrypt_opus-sealing :
      (keys : String → Bool) (ssrc : ℕ) (opus : Bytes) (c : LibdaveController)
      → Sound user_id c
      → let x = dave_step range format_uint user_id (encrypt keys ssrc opus) c in
        let y = group_step range format_uint user_id (encrypt keys ssrc opus) (view c) in
        (x.0 ≡ y.0) × (view x.1 ≡ y.1)
  encrypt_opus-sealing keys ssrc opus c i =
      let (e, f) = encrypt_refines keys user_id ssrc opus c i in
      let s = ap (λ w. group_ratchet keys w (view c)) (sender-local keys user_id c i.outbound) in
      (ground (arith, e, s), ground (arith, f, s))

  module _ (kept : (us : List String) (u : String) → is_in u (range us) ≡ true → is_in u us ≡ true)
      (digits : (n : ℕ) → format_uint n ≢ "") where
    dave_step-Sound :
        (x : DaveCall) (c : LibdaveController)
        → Steady range format_uint user_id x (view c)
        → Sound user_id c
        → Sound user_id (dave_step range format_uint user_id x c).1
    dave_step-Sound (transition p t n) c s i = prepare_transition-Sound user_id p t n c i
    dave_step-Sound (disconnected u) c s i = client_disconnected-Sound user_id u c i
    dave_step-Sound (commit keys p f bs) c s i =
        handle_mls_commit_transition-Sound keys range format_uint kept digits user_id p f bs c i
    dave_step-Sound (speaking keys n u) c s i = handle_speaking_update-Sound keys user_id n u c s i
    dave_step-Sound (encrypt keys n opus) c s i = encrypt_opus-Sound keys user_id n opus c i
    dave_step-Sound (decrypt keys n opus) c s i = decrypt_opus-Sound keys user_id n opus c i
    dave_step-Sound close c s i = close_controller-Sound user_id c i

    dave_step-group_step :
        (x : DaveCall) (c : LibdaveController)
        → Steady range format_uint user_id x (view c)
        → Sound user_id c
        → ((dave_step range format_uint user_id x c).0
            ≡ (group_step range format_uint user_id x (view c)).0)
          × (view (dave_step range format_uint user_id x c).1
              ≡ (group_step range format_uint user_id x (view c)).1)
    unfolding close_controller
    dave_step-group_step (transition p t n) c s i = (refl, prepare_transition-view user_id p t n c)
    dave_step-group_step (disconnected u) c s i =
        (refl, client_disconnected-view range format_uint user_id u c)
    dave_step-group_step (commit keys p f bs) c s i =
        (refl, handle_mls_commit_transition-view keys p f bs c)
    dave_step-group_step (speaking keys n u) c s i =
        (refl, handle_speaking_update-view keys user_id u n c s i)
    dave_step-group_step (encrypt keys n opus) c s i = encrypt_opus-sealing keys n opus c i
    dave_step-group_step (decrypt keys n opus) c s i =
        let (e, f) = decrypt_opus-unsealing keys user_id n opus c i in
        (ground (arith, e), ground (arith, f))
    dave_step-group_step close c s i = (refl, refl)

    run_from :
        (xs : List DaveCall) (c : LibdaveController) (m : Modes)
        → SteadyRun range format_uint user_id xs (view c)
        → Sound user_id c
        → Matches c m
        → dave_run range format_uint user_id xs c
          ≡ group_run range format_uint user_id xs (view c) m
    run_from [] c m s i w = refl
    run_from (x ∷ xs) c m s i w =
        let c' = (dave_step range format_uint user_id x c).1 in
        let m' = mode_step range format_uint user_id x (view c) m in
        let (e, f) = dave_step-group_step x c s.0 i in
        let (e', f') = dave_step-Matches range format_uint user_id x c m s.0 i w in
        let rest =
          run_from xs c' m' (subst (λ g. SteadyRun range format_uint user_id xs g) (sym f) s.1)
            (dave_step-Sound x c s.0 i) f' in
        let mode = dave_mode range format_uint user_id x c in
        ap (λ t. (t, mode) ∷ dave_run range format_uint user_id xs c') e
        ∙ ap
            (λ n.
              ((group_step range format_uint user_id x (view c)).0, n)
              ∷ dave_run range format_uint user_id xs c')
            e'
        ∙ ap
            (λ ts.
              (
                (group_step range format_uint user_id x (view c)).0,
                group_mode range format_uint user_id x (view c) m,
              )
              ∷ ts)
            (rest ∙ ap (λ g. group_run range format_uint user_id xs g m') f)

    -- Over any transitions, commits, speaking updates, frames, disconnected users and closings of a
    -- new controller, in which no SSRC goes to another user before its own is gone, the frames are
    -- treated as the group promises: each takes the ratchet that is held for its user at the time,
    -- or the one that the session has if none is held; and the encryptor or decryptor that it is
    -- given to was told of passthrough what the last transition said since it was made, if any.
    -- This is for any order in which Go ranges over the users of a commit, if it adds none, and
    -- for user IDs that are written as texts that are not empty.
    pub dave_run-group_run :
        (xs : List DaveCall)
        → SteadyRun range format_uint user_id xs (view (new_default_dave_controller user_id))
        → dave_run range format_uint user_id xs (new_default_dave_controller user_id)
          ≡ group_run range format_uint user_id xs
              (view (new_default_dave_controller user_id))
              no_modes
    unfolding new_default_dave_controller
    dave_run-group_run xs s =
        run_from xs (new_default_dave_controller user_id) no_modes s
          (new_default_dave_controller-Sound user_id) (refl, λ k. refl)
