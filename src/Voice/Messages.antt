-- ===== src/Voice/Messages.antt =====
-- voice.go: `onEvent` by the operation of a decoded message, and `onBinaryEvent`.
--
-- What decodes a message is a parameter: `VoiceEvent` is its result. A message comes over a
-- websocket, so that `sendDAVETransitionReady` has one to write to.
use discordgo.Base.{
  ℕ, Bool, true, false, Option, none, some, List, [], ◌∷◌, ◌++◌, eqb, ltb, if◌then◌else◌,
}
use discordgo.Ratelimit.Buckets.{ℤ, pos}
use discordgo.Voice.Bytes.{Bytes, be_uint_16}
use discordgo.Voice.Connection.{
  DaveController, VoiceReady, VoiceConnection, VoiceEffect, sends_op, sends_binary, starts_sender,
  starts_receiver, calls_controller, calls_handlers, VoiceAction, on_controller, Discovery,
  udp_open, start_heartbeat,
}

pub data VoiceOperation : Type 0 where
  -- Operations 2, 4, 5, 6, 8, 9, 11, 13, 21, 22, 24 and the others, in the order of the switch;
  -- `undecodable` is a message or an operation whose data cannot be decoded.
  ready_op : VoiceReady → Discovery → VoiceOperation
  heartbeat_acknowledged : VoiceOperation
  secret_key : Bytes → VoiceOperation
  resumed clients_connect client_disconnect : VoiceOperation
  hello : (interval : ℕ) → VoiceOperation
  prepare_transition_op : (transition_id protocol_version : ℕ) → VoiceOperation
  execute_transition : (transition_id : ℕ) → VoiceOperation
  prepare_epoch_op : (transition_id protocol_version epoch : ℕ) → VoiceOperation
  speaking_update unknown undecodable : VoiceOperation

pub record VoiceEvent : Type 0 where
  pub operation : VoiceOperation
  pub sequence : Option ℤ

abbrev transition_ready : Bool → List VoiceEffect
transition_ready true = sends_op 23 ∷ []
transition_ready false = []

-- `SendDAVE`, with the websocket.
abbrev pub send_dave : Option ℕ → (opcode : ℕ) → Bytes → List VoiceEffect
send_dave none opcode payload = []
send_dave (some ws) opcode payload = sends_binary opcode payload ∷ []

-- `SendDAVEKeyPackage` of a package that is not empty.
abbrev key_package_effects : Option ℕ → Bytes → List VoiceEffect
key_package_effects ws [] = []
key_package_effects ws (b ∷ bs) = send_dave ws 26 (b ∷ bs)

-- `handleDAVEPrepareTransition` with the answer to it.
unfoldable pub prepare_transition_effects :
    Option DaveController → (transition_id protocol_version : ℕ) → List VoiceEffect
prepare_transition_effects none transition_id protocol_version = transition_ready true
prepare_transition_effects (some c) transition_id protocol_version =
    elim (c.prepare_transition transition_id protocol_version) [
      | none ↦ calls_controller ∷ []
      | some is_ready ↦ calls_controller ∷ transition_ready is_ready
    ]

-- `handleDAVEPrepareEpoch` with the answer to it.
unfoldable pub prepare_epoch_effects :
    Option ℕ → Option DaveController → (transition_id protocol_version epoch : ℕ) → List VoiceEffect
prepare_epoch_effects ws none transition_id protocol_version epoch = transition_ready (ltb 1 epoch)
prepare_epoch_effects ws (some c) transition_id protocol_version epoch =
    elim (c.prepare_epoch transition_id protocol_version epoch) [
      | none ↦ calls_controller ∷ []
      | some (is_ready, key_package) ↦
          calls_controller ∷ (key_package_effects ws key_package ++ transition_ready is_ready)
    ]

-- The sender, and the receiver unless the connection is deaf.
abbrev pub starts_audio : VoiceConnection → List VoiceEffect
starts_audio v =
    starts_sender v.udp_conn v.close_channel
    ∷ (if v.deaf then [] else starts_receiver v.udp_conn v.close_channel ∷ [])

unfoldable pub on_ready_op : Discovery → VoiceAction
on_ready_op d v =
    let (ok, rest) = udp_open d v in
    let (es, v') = rest in if ok then (es ++ starts_audio v', v') else (es, v')

abbrev pub handle_operation : VoiceOperation → VoiceAction
handle_operation (ready_op op2 d) v = on_ready_op d (record v { op2 = op2 })
handle_operation heartbeat_acknowledged v = ([], v)
handle_operation (secret_key key) v = ([], record v { aead = some key })
handle_operation resumed v = ([], v)
handle_operation clients_connect v = (on_controller (calls_controller ∷ []) v.dave_controller, v)
handle_operation client_disconnect v = (on_controller (calls_controller ∷ []) v.dave_controller, v)
handle_operation (hello interval) v = start_heartbeat interval v
handle_operation (prepare_transition_op t version) v =
    (prepare_transition_effects v.dave_controller t version, v)
handle_operation (execute_transition t) v =
    (on_controller (calls_controller ∷ []) v.dave_controller, v)
handle_operation (prepare_epoch_op t version epoch) v =
    (prepare_epoch_effects v.ws_conn v.dave_controller t version epoch, v)
handle_operation speaking_update v =
    (calls_handlers ∷ on_controller (calls_controller ∷ []) v.dave_controller, v)
handle_operation unknown v = ([], v)
handle_operation undecodable v = ([], v)

abbrev pub acknowledge : Option ℤ → VoiceConnection → VoiceConnection
acknowledge none v = v
acknowledge (some n) v = record v { voice_seq_ack = n }

-- `onEvent` of a message that is not binary.
unfoldable pub on_voice_event : VoiceEvent → VoiceAction
on_voice_event e v = handle_operation e.operation (acknowledge e.sequence v)

-- `SendDAVECommitWelcome` of a commit that is not empty.
abbrev commit_effects : Option ℕ → Bytes → Bytes → List VoiceEffect
commit_effects ws [] welcome = []
commit_effects ws (b ∷ bs) welcome = send_dave ws 28 (b ∷ bs ++ welcome)

abbrev proposals_effects : Option ℕ → DaveController → Bytes → List VoiceEffect
proposals_effects ws c [] = []
proposals_effects ws c (operation_type ∷ proposals) =
    elim (c.handle_mls_proposals operation_type proposals) [
      | none ↦ calls_controller ∷ []
      | some (commit, welcome) ↦ calls_controller ∷ commit_effects ws commit welcome
    ]

-- Messages with a transition ID of two bytes in front.
abbrev transition_effects : (ℕ → Bytes → Option Bool) → Bytes → List VoiceEffect
transition_effects f (a ∷ b ∷ rest) = elim (f (be_uint_16 (a ∷ b ∷ [])) rest) [
  | none ↦ calls_controller ∷ []
  | some is_ready ↦ calls_controller ∷ transition_ready is_ready
]
transition_effects f _ = []

unfoldable pub binary_effects :
    Option ℕ → (opcode : ℕ) → Bytes → Option DaveController → List VoiceEffect
binary_effects ws opcode payload none = []
binary_effects ws opcode payload (some c) =
    if eqb opcode 25
    then calls_controller ∷ []
    else if eqb opcode 27
    then proposals_effects ws c payload
    else if eqb opcode 29
    then transition_effects c.handle_mls_commit_transition payload
    else if eqb opcode 30
    then transition_effects c.handle_mls_welcome payload
    else []

-- `onBinaryEvent`
unfoldable pub on_binary_event : Bytes → VoiceAction
unfolding binary_effects
on_binary_event (a ∷ b ∷ opcode ∷ payload) v = (
  binary_effects v.ws_conn opcode payload v.dave_controller ++ calls_handlers ∷ [],
  record v { voice_seq_ack = pos (be_uint_16 (a ∷ b ∷ [])) },
)
on_binary_event _ v = ([], v)
