-- ===== src/Voice/Dave/Histories.antt =====
-- voice_dave_controller_libdave.go: the ratchets over any history of calls.
use discordgo.Base.{ℕ, String, true, ◌≡◌, ◌≢◌, Option, List}
use discordgo.State.Store.{State}
use discordgo.Voice.Dave.Controller.{LibdaveController, is_in}
use discordgo.Voice.Dave.Calls.{
  Reached, starts, prepares_transition, prepares_epoch, connects, disconnects, external_sender,
  proposals, commits, welcomes, encrypts_opus, decrypts_opus, speaks, closes,
}
use discordgo.Voice.Dave.Owning.{Sound}
use discordgo.Voice.Dave.Owned.{
  prepare_transition-Sound, client_disconnected-Sound, close_controller-Sound,
  new_default_dave_controller-Sound,
}
use discordgo.Voice.Dave.Using.{
  encrypt_opus-Sound, decrypt_opus-Sound, handle_speaking_update-Sound,
}
use discordgo.Voice.Dave.Answering.{
  prepare_epoch-Sound, clients_connected-Sound, handle_mls_external_sender-Sound,
  handle_mls_proposals-Sound, handle_mls_commit_transition-Sound, handle_mls_welcome-Sound,
}

module _ (range : List String → List String) (format_uint : ℕ → String)
    (kept : (us : List String) (u : String) → is_in u (range us) ≡ true → is_in u us ≡ true)
    (digits : (n : ℕ) → format_uint n ≢ "") (user_id guild_id : String) (state : Option State) where
  pub Reached-Sound :
      (c : LibdaveController) → Reached range format_uint user_id guild_id state c → Sound user_id c
  Reached-Sound _ starts = new_default_dave_controller-Sound user_id
  Reached-Sound _ (prepares_transition p t n c r) =
      prepare_transition-Sound user_id p t n c (Reached-Sound c r)
  Reached-Sound _ (prepares_epoch p k t n e c r) =
      prepare_epoch-Sound user_id p k t n e c (Reached-Sound c r)
  Reached-Sound _ (connects us c r) = clients_connected-Sound user_id us c (Reached-Sound c r)
  Reached-Sound _ (disconnects u c r) = client_disconnected-Sound user_id u c (Reached-Sound c r)
  Reached-Sound _ (external_sender p k bs c r) =
      handle_mls_external_sender-Sound user_id p k bs c (Reached-Sound c r)
  Reached-Sound _ (proposals p f n bs c r) =
      handle_mls_proposals-Sound range user_id guild_id state p f n bs c (Reached-Sound c r)
  Reached-Sound _ (commits keys p f bs c r) =
      handle_mls_commit_transition-Sound keys range format_uint kept digits user_id p f bs c
        (Reached-Sound c r)
  Reached-Sound _ (welcomes keys p f bs c r) =
      handle_mls_welcome-Sound keys range format_uint kept digits user_id guild_id state p f bs c
        (Reached-Sound c r)
  Reached-Sound _ (encrypts_opus keys n opus c r) =
      encrypt_opus-Sound keys user_id n opus c (Reached-Sound c r)
  Reached-Sound _ (decrypts_opus keys n opus c r) =
      decrypt_opus-Sound keys user_id n opus c (Reached-Sound c r)
  Reached-Sound _ (speaks keys n u c steady r) =
      handle_speaking_update-Sound keys user_id n u c steady (Reached-Sound c r)
  Reached-Sound _ (closes c r) = close_controller-Sound user_id c (Reached-Sound c r)
