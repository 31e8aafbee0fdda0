-- ===== src/Tests/DaveRuns.antt =====
-- Runs of the controller that encrypts a voice connection from end to end.
use discordgo.Base.{
  ℕ, String, Bool, true, false, ◌≡◌, ◌≢◌, eq_iff, refl, none, some, List, [], ◌∷◌, arith, eqb,
  if◌then◌else◌,
}
use discordgo.Voice.Bytes.{Bytes}
use discordgo.Voice.Dave.Controller.{
  LibdaveController, Decryptor, new_default_dave_controller, fetch_ratchet, install_ratchet,
  ensure_session,
}
use discordgo.Voice.Dave.Transitions.{
  CommitResult, committed, prepare_transition, client_disconnected, handle_mls_commit_transition,
  refresh_ratchets, ensure_outbound_ratchet, apply_commit,
}
use discordgo.Voice.Dave.Audio.{decrypt_opus, prepare_decryptor, handle_speaking_update}
use discordgo.Voice.Dave.Calls.{Reached, starts, prepares_transition, commits, speaks}
use discordgo.Voice.Dave.Owning.{Sound}
use discordgo.Voice.Dave.Histories.{Reached-Sound}
use discordgo.Voice.Dave.Alive.{InUse, decrypt_opus-InUse, handle_speaking_update-closes}
use discordgo.Voice.Dave.Renewing.{Since, handle_mls_commit_transition-Since}
use discordgo.Voice.Dave.Group.{
  DaveCall, quiet, plain, seals, opens, refused, transition, commit, speaking, encrypt, decrypt,
  disconnected, close, dave_run, no_mode, encryptor_mode, decryptor_mode,
}
use discordgo.Voice.Dave.Promises.{dave_run-group_run}

abbrev digits : ℕ → String
digits n = if eqb n 1 then "1" else "2"

digits_nonempty : (n : ℕ) → digits n ≢ ""
digits_nonempty n = ground (arith, eq_iff "1" "", eq_iff "2" "")

abbrev in_order : List String → List String
in_order us = us

abbrev everyone : String → Bool
everyone u = true

abbrev both : Bytes → CommitResult
both bs = committed (1 ∷ 2 ∷ [])

-- "1" is the local user; "2" speaks with SSRC 20, and "3" does once "2" is gone.
abbrev calls : List DaveCall
calls =
    encrypt everyone 10 (5 ∷ [])
    ∷ transition true 1 1
    ∷ commit everyone true both (9 ∷ [])
    ∷ speaking everyone 20 "2"
    ∷ encrypt everyone 10 (5 ∷ [])
    ∷ decrypt everyone 20 (6 ∷ [])
    ∷ commit everyone true both (9 ∷ [])
    ∷ decrypt everyone 20 (6 ∷ [])
    ∷ disconnected "2"
    ∷ decrypt everyone 20 (6 ∷ [])
    ∷ speaking everyone 20 "3"
    ∷ decrypt everyone 20 (6 ∷ [])
    ∷ transition true 2 0
    ∷ decrypt everyone 20 (6 ∷ [])
    ∷ commit everyone true both (9 ∷ [])
    ∷ encrypt everyone 10 (5 ∷ [])
    ∷ decrypt everyone 20 (6 ∷ [])
    ∷ close
    ∷ decrypt everyone 20 (6 ∷ [])
    ∷ []

dave_run-group_run_example :
    dave_run in_order digits "1" calls (new_default_dave_controller "1")
    ≡ (plain (5 ∷ []), no_mode)
      ∷ (quiet, no_mode)
      ∷ (quiet, no_mode)
      ∷ (quiet, no_mode)
      ∷ (seals (some 1) (5 ∷ []), encryptor_mode false)
      ∷ (opens (some 0) (6 ∷ []), decryptor_mode none)
      ∷ (quiet, no_mode)
      ∷ (opens (some 2) (6 ∷ []), decryptor_mode none)
      ∷ (quiet, no_mode)
      ∷ (refused, no_mode)
      ∷ (quiet, no_mode)
      ∷ (opens (some 4) (6 ∷ []), decryptor_mode none)
      ∷ (quiet, no_mode)
      ∷ (plain (6 ∷ []), no_mode)
      ∷ (quiet, no_mode)
      ∷ (seals (some 7) (5 ∷ []), encryptor_mode true)
      ∷ (opens (some 5) (6 ∷ []), decryptor_mode (some true))
      ∷ (quiet, no_mode)
      ∷ (refused, no_mode)
      ∷ []
unfolding new_default_dave_controller
dave_run-group_run_example =
    dave_run-group_run in_order digits "1" (λ us u e. e) digits_nonempty calls
      (
        tt,
        (
          tt,
          (
            tt,
            (
              (λ w e. ground arith),
              (
                tt,
                (
                  tt,
                  (
                    tt,
                    (
                      tt,
                      (
                        tt,
                        (
                          tt,
                          (
                            (λ w e. ground arith),
                            (tt, (tt, (tt, (tt, (tt, (tt, (tt, (tt, tt)))))))),
                          ),
                        ),
                      ),
                    ),
                  ),
                ),
              ),
            ),
          ),
        ),
      )

-- "2" speaks after a commit.
abbrev new : LibdaveController
new = new_default_dave_controller "1"

abbrev opened : LibdaveController
opened = (prepare_transition "1" true 1 1 new).1

abbrev joined : LibdaveController
joined = (handle_mls_commit_transition everyone in_order digits "1" true both (9 ∷ []) opened).1

abbrev heard : LibdaveController
heard = handle_speaking_update everyone 20 "2" joined

heard-Reached : Reached in_order digits "1" "7" none heard
unfolding new_default_dave_controller prepare_transition handle_mls_commit_transition ensure_session
    apply_commit refresh_ratchets ensure_outbound_ratchet fetch_ratchet install_ratchet
heard-Reached =
    speaks everyone 20 "2" joined (λ w e. ground arith)
      (commits everyone true both (9 ∷ []) opened (prepares_transition true 1 1 new starts))

abbrev tuned : Decryptor
tuned = record { ratchet = 0; passthrough = none }

Reached-Sound_example : Sound "1" heard
Reached-Sound_example =
    Reached-Sound in_order digits (λ us u e. e) digits_nonempty "1" "7" none heard heard-Reached

decrypt_opus-InUse_example :
    let c' = (decrypt_opus everyone 20 (6 ∷ []) heard).1 in
    (u : String) × ((c'.ssrc_users 20 ≡ some u) × InUse c' u 0)
unfolding decrypt_opus new_default_dave_controller prepare_transition handle_mls_commit_transition
    handle_speaking_update ensure_session apply_commit refresh_ratchets ensure_outbound_ratchet
    fetch_ratchet install_ratchet prepare_decryptor
decrypt_opus-InUse_example =
    decrypt_opus-InUse in_order digits (λ us u e. e) digits_nonempty "1" "7" none heard
      heard-Reached everyone 20 (6 ∷ []) tuned (6 ∷ []) refl

handle_speaking_update-closes_example :
    let c' = client_disconnected "2" (handle_speaking_update everyone 20 "3" heard) in
    (c'.decryptors 20 ≡ some tuned) × (c'.live 0 ≡ false)
unfolding new_default_dave_controller prepare_transition handle_mls_commit_transition
    handle_speaking_update ensure_session apply_commit refresh_ratchets ensure_outbound_ratchet
    fetch_ratchet install_ratchet prepare_decryptor
handle_speaking_update-closes_example =
    handle_speaking_update-closes everyone "1" "3" "2" 20 tuned heard Reached-Sound_example
      (λ e. omega (arith, e)) (λ e. ground (arith, eq_iff "3" ""))
      (λ e. ground (arith, eq_iff "2" "")) (λ e. ground (arith, eq_iff "2" "3")) refl refl

handle_mls_commit_transition-Since_example :
    let out = handle_mls_commit_transition everyone in_order digits "1" true both (9 ∷ []) joined in
    (out.0 ≡ (some true, false)) × Since 2 out.1 "2"
unfolding new_default_dave_controller prepare_transition handle_mls_commit_transition ensure_session
    apply_commit refresh_ratchets ensure_outbound_ratchet fetch_ratchet install_ratchet
handle_mls_commit_transition-Since_example =
    handle_mls_commit_transition-Since everyone in_order digits "1" true both 9 [] (1 ∷ 2 ∷ []) 1
      "2" joined (λ us w e. e) refl refl refl refl (λ e. ground (arith, eq_iff "2" ""))
