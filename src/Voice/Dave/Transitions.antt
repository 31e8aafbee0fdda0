-- ===== src/Voice/Dave/Transitions.antt =====
-- voice_dave_controller_libdave.go: what the controller does on the messages of the voice
-- websocket.
--
-- The native session is a parameter: `keys`, the package, and what it makes of proposals, commits
-- and welcomes. `range` is the order in which Go ranges over a map with the given keys, and
-- `format_uint` is `strconv.FormatUint` to the base 10.
use discordgo.Base.{
  ℕ, ◌%◌, String, Bool, true, false, ◌==◌, Option, none, some, List, [], ◌∷◌, map, delete, eqb, leb,
  remove_first, if◌then◌else◌,
}
use discordgo.State.Types.{items}
use discordgo.State.Store.{State}
use discordgo.Voice.Bytes.{Bytes}
use discordgo.Voice.Dave.Controller.{
  LibdaveController, Encryptor, Decryptor, with_user, with_user_unless_empty,
  with_users_unless_empty, close_ratchet, belongs, fetch_ratchet, ensure_session,
  current_protocol_version,
}

abbrev pub all_through : Bool → Option Decryptor → Option Decryptor
all_through b none = none
all_through b (some d) = some (record d { passthrough = some b })

abbrev pub encryptor_through : Bool → Option Encryptor → Option Encryptor
encryptor_through b none = none
encryptor_through b (some e) = some (record e { passthrough = b })

-- `PrepareTransition`; an error is `none`.
unfoldable pub prepare_transition :
    (user_id : String) (channel_parses : Bool) (transition_id protocol_version : ℕ)
    → LibdaveController
    → Option Bool × LibdaveController
unfolding ensure_session
prepare_transition user_id channel_parses transition_id protocol_version c =
    let version = protocol_version % 65536 in
    let (ok, c') = ensure_session user_id channel_parses version c in
    let through = eqb protocol_version 0 in
    if ok
    then (
      some true,
      record c' {
        protocol_version = version;
        decryptors = λ ssrc. all_through through (c'.decryptors ssrc);
        encryptor = encryptor_through through c'.encryptor;
      },
    )
    else (none, c')

-- `PrepareEpoch`: whether the connection is ready, and a key package to send.
unfoldable pub prepare_epoch :
    (user_id : String) (channel_parses : Bool) (key_package : Bytes)
    → (transition_id protocol_version epoch : ℕ) → LibdaveController
    → Option (Bool × Bytes) × LibdaveController
unfolding ensure_session
prepare_epoch user_id channel_parses key_package transition_id protocol_version epoch c =
    let (ok, c') = ensure_session user_id channel_parses (protocol_version % 65536) c in
    if ok
    then (
      (if leb epoch 1
          then elim c'.session [ none ↦ some (false, []) | some v ↦ some (false, key_package) ]
          else some (true, [])),
      c',
    )
    else (none, c')

-- `ClientsConnected`
unfoldable pub clients_connected : List String → LibdaveController → LibdaveController
clients_connected user_ids c = record c {
  known_users = with_users_unless_empty user_ids c.known_users;
}

abbrev pub unless_belongs {ℓ} : {A : Type ℓ} → Option String → String → Option A → Option A
unless_belongs w u a = if belongs w u then none else a

-- `ClientDisconnected`
unfoldable pub client_disconnected : String → LibdaveController → LibdaveController
client_disconnected user_id c = if user_id == "" then c else record c {
  known_users = remove_first (λ w. w == user_id) c.known_users;
  live = close_ratchet (c.ratchets user_id) c.live;
  ratchets = delete user_id c.ratchets;
  decryptors = λ ssrc. unless_belongs (c.ssrc_users ssrc) user_id (c.decryptors ssrc);
  ssrc_users = λ ssrc. unless_belongs (c.ssrc_users ssrc) user_id (c.ssrc_users ssrc);
}

-- `HandleMLSExternalSender`: the key package that it sends, if any.
unfoldable pub handle_mls_external_sender :
    (user_id : String) (channel_parses : Bool) (key_package external_sender : Bytes)
    → LibdaveController
    → Option (Option Bytes) × LibdaveController
unfolding ensure_session
handle_mls_external_sender user_id channel_parses key_package [] c = (some none, c)
handle_mls_external_sender user_id channel_parses key_package (b ∷ bs) c =
    let (ok, c') = ensure_session user_id channel_parses (current_protocol_version c) c in
    if ok
    then (
      some (elim c'.session [
        | none ↦ none
        | some v ↦ elim key_package [ [] ↦ none | k ∷ ks ↦ some (k ∷ ks) ]
      ]),
      c',
    )
    else (none, c')

-- `recognizedUserIDs`
unfoldable pub recognized_user_ids :
    (user_id guild_id : String) (state : Option State) → LibdaveController → List String
recognized_user_ids user_id guild_id state c =
    let seen = with_user_unless_empty user_id c.known_users in
    elim state [
      | none ↦ seen
      | some s ↦ if guild_id == "" then seen else elim (s.guild_map guild_id) [
        | none ↦ seen
        | some g ↦
            with_users_unless_empty (map (λ vs. vs.user_id) (items (s.guilds g).voice_states)) seen
      ]
    ]

abbrev pub add_users : List (Option String) → List String → List String
add_users [] us = us
add_users (none ∷ ws) us = add_users ws us
add_users (some w ∷ ws) us = add_users ws (with_user_unless_empty w us)

abbrev pub with_roster : List String → List String → List String
with_roster [] us = us
with_roster (w ∷ ws) us = with_roster ws (with_user w us)

pub data CommitResult : Type 0 where
  nil_result commit_failed commit_ignored : CommitResult
  committed : (roster : List ℕ) → CommitResult

module _ (keys : String → Bool) where
  -- The loop of `refreshRatchets` over the users that it wants.
  abbrev pub refresh_each : List String → LibdaveController → LibdaveController
  refresh_each [] c = c
  refresh_each (u ∷ us) c = refresh_each us (fetch_ratchet keys u c).1

  unfoldable pub ensure_outbound_ratchet : String → LibdaveController → LibdaveController
  unfolding fetch_ratchet
  ensure_outbound_ratchet user_id c = if user_id == "" then c else elim (c.ratchets user_id) [
    | some h ↦ c
    | none ↦ elim c.session [ none ↦ c | some v ↦ (fetch_ratchet keys user_id c).1 ]
  ]

module _ (keys : String → Bool) (range : List String → List String) (format_uint : ℕ → String) where
  unfoldable pub refresh_ratchets : (roster : List ℕ) → LibdaveController → LibdaveController
  refresh_ratchets roster c =
      let want =
        add_users (map c.ssrc_users c.mapped_ssrcs) (with_roster (map format_uint roster) []) in
      refresh_each keys (range want) c

  -- What `HandleMLSCommitTransition` makes of a result.
  unfoldable pub apply_commit :
      (user_id : String)
      → CommitResult
      → LibdaveController
      → (Option Bool × Bool) × LibdaveController
  unfolding refresh_ratchets ensure_outbound_ratchet
  apply_commit user_id nil_result c = ((none, true), c)
  apply_commit user_id commit_failed c = ((none, true), c)
  apply_commit user_id commit_ignored c =
      ((some true, false), ensure_outbound_ratchet keys user_id c)
  apply_commit user_id (committed roster) c =
      ((some true, false), ensure_outbound_ratchet keys user_id (refresh_ratchets roster c))

  -- `HandleMLSCommitTransition`: an error, whether an invalid commit is reported, and whether the
  -- connection is ready.
  unfoldable pub handle_mls_commit_transition :
      (user_id : String) (channel_parses : Bool)
      → (process_commit : Bytes → CommitResult) → (commit : Bytes) → LibdaveController
      → (Option Bool × Bool) × LibdaveController
  unfolding ensure_session apply_commit
  handle_mls_commit_transition user_id channel_parses process_commit [] c = ((some false, false), c)
  handle_mls_commit_transition user_id channel_parses process_commit (b ∷ bs) c =
      let (ok, c') = ensure_session user_id channel_parses (current_protocol_version c) c in
      if ok
      then elim c'.session [
        | none ↦ ((some false, false), c')
        | some v ↦ apply_commit user_id (process_commit (b ∷ bs)) c'
      ]
      else ((none, false), c')

  -- `HandleMLSWelcome`; a result that is nil is `none`.
  unfoldable pub handle_mls_welcome :
      (user_id guild_id : String) (state : Option State) (channel_parses : Bool)
      → (process_welcome : Bytes → List String → Option (List ℕ)) → (welcome : Bytes)
      → LibdaveController
      → (Option Bool × Bool) × LibdaveController
  unfolding ensure_session refresh_ratchets ensure_outbound_ratchet recognized_user_ids
  handle_mls_welcome user_id guild_id state channel_parses process_welcome [] c =
      ((some false, false), c)
  handle_mls_welcome user_id guild_id state channel_parses process_welcome (b ∷ bs) c =
      let (ok, c') = ensure_session user_id channel_parses (current_protocol_version c) c in
      let recognized = range (recognized_user_ids user_id guild_id state c') in
      if ok
      then elim c'.session [
        | none ↦ ((some false, false), c')
        | some v ↦ elim (process_welcome (b ∷ bs) recognized) [
          | none ↦ ((none, true), c')
          | some roster ↦ (
            (some true, false),
            ensure_outbound_ratchet keys user_id (refresh_ratchets roster c'),
          )
        ]
      ]
      else ((none, false), c')

-- `HandleMLSProposals`; the welcome that it returns is always empty.
unfoldable pub handle_mls_proposals :
    (range : List String → List String)
    → (user_id guild_id : String) (state : Option State) (channel_parses : Bool)
    → (process_proposals : Bytes → List String → Bytes) → (operation_type : ℕ) (payload : Bytes)
    → LibdaveController
    → Option (Bytes × Bytes) × LibdaveController
unfolding ensure_session recognized_user_ids
handle_mls_proposals range user_id guild_id state channel_parses process operation_type [] c =
    (some ([], []), c)
handle_mls_proposals range user_id guild_id state channel_parses process operation_type (b ∷ bs) c =
    let (ok, c') = ensure_session user_id channel_parses (current_protocol_version c) c in
    let recognized = range (recognized_user_ids user_id guild_id state c') in
    if ok
    then (
      some (elim c'.session [ none ↦ ([], []) | some v ↦ (process (b ∷ bs) recognized, []) ]),
      c',
    )
    else (none, c')
