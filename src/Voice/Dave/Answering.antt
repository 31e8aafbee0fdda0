-- ===== src/Voice/Dave/Answering.antt =====
-- voice_dave_controller_libdave.go: what the answers to the messages do to the ratchets in use.
use discordgo.Base.{
  ℕ, ◌%◌, String, Bool, true, ◌≡◌, ◌≢◌, refl, Option, some, List, [], ◌∷◌, on_option, on_if,
}
use discordgo.State.Store.{State}
use discordgo.Voice.Bytes.{Bytes}
use discordgo.Voice.Dave.Controller.{
  LibdaveController, is_in, ensure_session, current_protocol_version,
}
use discordgo.Voice.Dave.Transitions.{
  CommitResult, nil_result, commit_failed, commit_ignored, committed, prepare_epoch,
  clients_connected, handle_mls_external_sender, handle_mls_proposals, handle_mls_commit_transition,
  handle_mls_welcome, recognized_user_ids, apply_commit, refresh_ratchets, ensure_outbound_ratchet,
}
use discordgo.Voice.Dave.Owning.{Sound, Holding-same, Tuned-same}
use discordgo.Voice.Dave.Owned.{ensure_session-Sound}
use discordgo.Voice.Dave.Using.{ensure_outbound_ratchet-Sound, refresh_ratchets-Sound}

pub prepare_epoch-Sound :
    (user_id : String) (parses : Bool) (key_package : Bytes) (transition_id n epoch : ℕ)
    (c : LibdaveController)
    → Sound user_id c
    → Sound user_id (prepare_epoch user_id parses key_package transition_id n epoch c).1
unfolding prepare_epoch
prepare_epoch-Sound user_id parses key_package transition_id n epoch c i =
    let out = ensure_session user_id parses (n % 65536) c in
    let j = ensure_session-Sound user_id parses (n % 65536) c i in
    on_if (λ (x : Option (Bool × Bytes) × LibdaveController). Sound user_id x.1) out.0 _ _ (λ p. j)
      (λ q. j)

pub clients_connected-Sound :
    (user_id : String) (user_ids : List String) (c : LibdaveController)
    → Sound user_id c
    → Sound user_id (clients_connected user_ids c)
unfolding clients_connected
clients_connected-Sound user_id user_ids c i = record {
  holding = Holding-same c _ refl refl refl refl (λ e. e) i.holding;
  tuned = Tuned-same c _ refl refl refl i.tuned;
  outbound = record { local = i.outbound.local; ready = i.outbound.ready };
}

pub handle_mls_external_sender-Sound :
    (user_id : String) (parses : Bool) (key_package bs : Bytes) (c : LibdaveController)
    → Sound user_id c
    → Sound user_id (handle_mls_external_sender user_id parses key_package bs c).1
unfolding handle_mls_external_sender
handle_mls_external_sender-Sound user_id parses key_package [] c i = i
handle_mls_external_sender-Sound user_id parses key_package (b ∷ bs) c i =
    let out = ensure_session user_id parses (current_protocol_version c) c in
    let j = ensure_session-Sound user_id parses (current_protocol_version c) c i in
    on_if (λ (x : Option (Option Bytes) × LibdaveController). Sound user_id x.1) out.0 _ _ (λ p. j)
      (λ q. j)

pub handle_mls_proposals-Sound :
    (range : List String → List String) (user_id guild_id : String) (state : Option State)
    (parses : Bool)
    → (process : Bytes → List String → Bytes) → (n : ℕ) (bs : Bytes) (c : LibdaveController)
    → Sound user_id c
    → Sound user_id (handle_mls_proposals range user_id guild_id state parses process n bs c).1
unfolding handle_mls_proposals
handle_mls_proposals-Sound range user_id guild_id state parses process n [] c i = i
handle_mls_proposals-Sound range user_id guild_id state parses process n (b ∷ bs) c i =
    let out = ensure_session user_id parses (current_protocol_version c) c in
    let j = ensure_session-Sound user_id parses (current_protocol_version c) c i in
    on_if (λ (x : Option (Bytes × Bytes) × LibdaveController). Sound user_id x.1) out.0 _ _ (λ p. j)
      (λ q. j)

module _ (keys : String → Bool) (range : List String → List String) (format_uint : ℕ → String)
    (kept : (us : List String) (u : String) → is_in u (range us) ≡ true → is_in u us ≡ true)
    (digits : (n : ℕ) → format_uint n ≢ "") (user_id : String) where
  renewed-Sound :
      (roster : List ℕ) (c : LibdaveController) (v : ℕ)
      → c.session ≡ some v
      → Sound user_id c
      → Sound user_id
          (ensure_outbound_ratchet keys user_id (refresh_ratchets keys range format_uint roster c))
  renewed-Sound roster c v e i =
      ensure_outbound_ratchet-Sound keys user_id _
        (refresh_ratchets-Sound keys range format_uint kept digits user_id roster c v e i)

  apply_commit-Sound :
      (r : CommitResult) (c : LibdaveController) (v : ℕ)
      → c.session ≡ some v
      → Sound user_id c
      → Sound user_id (apply_commit keys range format_uint user_id r c).1
  unfolding apply_commit
  apply_commit-Sound nil_result c v e i = i
  apply_commit-Sound commit_failed c v e i = i
  apply_commit-Sound commit_ignored c v e i = ensure_outbound_ratchet-Sound keys user_id c i
  apply_commit-Sound (committed roster) c v e i = renewed-Sound roster c v e i

  pub handle_mls_commit_transition-Sound :
      (parses : Bool) (process : Bytes → CommitResult) (bs : Bytes) (c : LibdaveController)
      → Sound user_id c
      → Sound user_id
          (handle_mls_commit_transition keys range format_uint user_id parses process bs c).1
  unfolding handle_mls_commit_transition
  handle_mls_commit_transition-Sound parses process [] c i = i
  handle_mls_commit_transition-Sound parses process (b ∷ bs) c i =
      let out = ensure_session user_id parses (current_protocol_version c) c in
      let j = ensure_session-Sound user_id parses (current_protocol_version c) c i in
      let P = λ (x : (Option Bool × Bool) × LibdaveController). Sound user_id x.1 in
      on_if P out.0 _ _
        (λ p.
          on_option P out.1.session _ _ (λ e. j)
            (λ v e. apply_commit-Sound (process (b ∷ bs)) out.1 v e j))
        (λ q. j)

  pub handle_mls_welcome-Sound :
      (guild_id : String) (state : Option State) (parses : Bool)
      → (process : Bytes → List String → Option (List ℕ)) → (bs : Bytes) (c : LibdaveController)
      → Sound user_id c
      → Sound user_id
          (handle_mls_welcome keys range format_uint user_id guild_id state parses process bs c).1
  unfolding handle_mls_welcome
  handle_mls_welcome-Sound guild_id state parses process [] c i = i
  handle_mls_welcome-Sound guild_id state parses process (b ∷ bs) c i =
      let out = ensure_session user_id parses (current_protocol_version c) c in
      let j = ensure_session-Sound user_id parses (current_protocol_version c) c i in
      let P = λ (x : (Option Bool × Bool) × LibdaveController). Sound user_id x.1 in
      let recognized = range (recognized_user_ids user_id guild_id state out.1) in
      on_if P out.0 _ _
        (λ p.
          on_option P out.1.session _ _ (λ e. j)
            (λ v e.
              on_option P (process (b ∷ bs) recognized) _ _ (λ f. j)
                (λ roster f. renewed-Sound roster out.1 v e j)))
        (λ q. j)
