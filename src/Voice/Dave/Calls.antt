-- ===== src/Voice/Dave/Calls.antt =====
-- voice_dave_controller_libdave.go: the calls that a voice connection makes, and what holds of the
-- controller after any of them.
use discordgo.Base.{ℕ, ◌%◌, String, Bool, ◌≡◌, Option, some, List}
use discordgo.State.Store.{State}
use discordgo.Voice.Bytes.{Bytes}
use discordgo.Voice.Dave.Controller.{
  LibdaveController, new_default_dave_controller, close_controller,
}
use discordgo.Voice.Dave.Transitions.{
  CommitResult, prepare_transition, prepare_epoch, clients_connected, client_disconnected,
  handle_mls_external_sender, handle_mls_proposals, handle_mls_commit_transition,
  handle_mls_welcome,
}
use discordgo.Voice.Dave.Audio.{encrypt_opus, decrypt_opus, handle_speaking_update}

module _ (range : List String → List String) (format_uint : ℕ → String) (user_id guild_id : String)
    (state : Option State) where
  -- The controllers that calls lead to. An SSRC that belongs to a user is not given to another
  -- one before that user is gone.
  pub data Reached : LibdaveController → Type 0 where
    starts : Reached (new_default_dave_controller user_id)
    prepares_transition :
        (parses : Bool) (transition_id n : ℕ) (c : LibdaveController)
        → Reached c
        → Reached (prepare_transition user_id parses transition_id n c).1
    prepares_epoch :
        (parses : Bool) (key_package : Bytes) (transition_id n epoch : ℕ) (c : LibdaveController)
        → Reached c
        → Reached (prepare_epoch user_id parses key_package transition_id n epoch c).1
    connects :
        (user_ids : List String) (c : LibdaveController)
        → Reached c
        → Reached (clients_connected user_ids c)
    disconnects :
        (u : String) (c : LibdaveController) → Reached c → Reached (client_disconnected u c)
    external_sender :
        (parses : Bool) (key_package bs : Bytes) (c : LibdaveController)
        → Reached c
        → Reached (handle_mls_external_sender user_id parses key_package bs c).1
    proposals :
        (parses : Bool) (process : Bytes → List String → Bytes) (n : ℕ) (bs : Bytes)
        (c : LibdaveController)
        → Reached c
        → Reached (handle_mls_proposals range user_id guild_id state parses process n bs c).1
    commits :
        (keys : String → Bool) (parses : Bool) (process : Bytes → CommitResult) (bs : Bytes)
        → (c : LibdaveController) → Reached c
        → Reached
            (handle_mls_commit_transition keys range format_uint user_id parses process bs c).1
    welcomes :
        (keys : String → Bool) (parses : Bool)
        → (process : Bytes → List String → Option (List ℕ)) → (bs : Bytes) (c : LibdaveController)
        → Reached c
        → Reached
            (handle_mls_welcome keys range format_uint user_id guild_id state parses process bs c).1
    encrypts_opus :
        (keys : String → Bool) (ssrc : ℕ) (opus : Bytes) (c : LibdaveController)
        → Reached c
        → Reached (encrypt_opus keys user_id ssrc opus c).1
    decrypts_opus :
        (keys : String → Bool) (ssrc : ℕ) (opus : Bytes) (c : LibdaveController)
        → Reached c
        → Reached (decrypt_opus keys ssrc opus c).1
    speaks :
        (keys : String → Bool) (ssrc : ℕ) (u : String) (c : LibdaveController)
        → ((w : String) → c.ssrc_users (ssrc % 4294967296) ≡ some w → w ≡ u)
        → Reached c
        → Reached (handle_speaking_update keys ssrc u c)
    closes : (c : LibdaveController) → Reached c → Reached (close_controller c)
