-- ===== src/Gateway/Opening.antt =====
-- wsapi.go: `Open` with `identify`, `CloseWithCode`, the end of `listen` and the rounds of
-- `heartbeat`.
--
-- The session's lock is a field. `Open` takes it, and gives it back at its end; `onEvent` takes it
-- for the operations 7, 9 and 11 and gives it back. It is not reentrant: what takes it while it is
-- held blocks for ever here, where nothing else gives it back. A websocket and a listening
-- channel are numbers, which what makes them hands out; the results of each read and write are
-- parameters.
use discordgo.Base.{
  ℕ, ◌-◌, ◌*◌, String, Bool, true, false, not, ◌&&◌, ◌||◌, ◌==◌, Option, none, some, List, [], ◌∷◌,
  ◌++◌, eqb, ltb, leb, if◌then◌else◌,
}
use discordgo.State.Types.{Time}
use discordgo.Ratelimit.Buckets.{millisecond}
use discordgo.Gateway.Messages.{
  WsMessage, Link, Effect, on_event, first_packet, gateway_of, finished, failed, identify,
  resume_packet, Packet,
}

pub record GatewaySession : Type 0 where
  pub token : String
  pub compress : Bool
  pub shard_id : ℕ
  pub shard_count : ℕ
  pub identify_token : String
  pub identify_compress : Bool
  pub shard : Option (ℕ × ℕ)
  pub gateway : String
  pub ws_conn : Option ℕ
  pub listening : Option ℕ
  pub data_ready : Bool
  pub last_heartbeat_ack : Time
  pub link : Link
  pub lock_held : Bool

pub data GatewayEffect : Type 0 where
  dials : (gateway : String) → GatewayEffect
  connects closes_ws closes_listening : ℕ → GatewayEffect
  sends_packet : Packet → GatewayEffect
  handles_message : List Effect → GatewayEffect
  emits_connect emits_disconnect reconnects_session : GatewayEffect
  sends_beat : (sequence : ℕ) → GatewayEffect
  starts_heart starts_listening : (ws channel : ℕ) → GatewayEffect

-- The errors of `Open`; `bad_message` is one of `onEvent`.
pub data OpenFailure : Type 0 where
  no_gateway not_dialed bad_message not_hello bad_hello shard_bounds not_sent : OpenFailure

pub data OpenResult : Type 0 where
  session_opened already_open deadlocked : OpenResult
  not_opened : OpenFailure → OpenResult

-- What `Open` meets: the gateway that is asked for, the websocket, the two messages (`none` is one
-- that cannot be read or decoded), whether a packet that a message asks for is written, the
-- interval in the first, whether the session's packet is written, and the listening channel.
pub record Contact : Type 0 where
  pub found : Option String
  pub dialed : Option ℕ
  pub hello : Option WsMessage
  pub interval : Option ℕ
  pub now : Time
  pub packet_sent : Bool
  pub first : Option WsMessage
  pub answers_fail : Bool
  pub channel : ℕ

abbrev pub SessionAction : Type 0
SessionAction = GatewaySession → OpenResult × (List GatewayEffect × GatewaySession)

-- The operations for which `onEvent` locks the session.
abbrev pub takes_lock : WsMessage → Bool
takes_lock e = eqb e.operation 7 || (eqb e.operation 9 || eqb e.operation 11)

-- `onEvent` waits for the session's lock.
abbrev pub blocks : WsMessage → GatewaySession → Bool
blocks e s = takes_lock e && s.lock_held

-- `identify` up to its packet; false is `ErrWSShardBounds`.
unfoldable pub prepare_identity : GatewaySession → Bool × GatewaySession
prepare_identity s₀ =
    let s = record s₀ {
      identify_compress = s₀.compress && s₀.identify_compress;
      identify_token =
          if not (s₀.token == "") && (s₀.identify_token == "") then s₀.token else s₀.identify_token;
    } in
    if ltb 1 s.shard_count
    then (if leb s.shard_count s.shard_id
        then (false, s)
        else (true, record s { shard = some (s.shard_id, s.shard_count) }))
    else (true, s)

unfoldable pub prepare : Packet → GatewaySession → Bool × GatewaySession
unfolding prepare_identity
prepare identify s = prepare_identity s
prepare (resume_packet id n) s = (true, s)

-- The end of `Open` after an error.
abbrev pub fail_open : OpenFailure → (ws : ℕ) → SessionAction
fail_open failure ws s = (not_opened failure, (closes_ws ws ∷ [], record s { ws_conn = none }))

abbrev pub before_effects :
    List GatewayEffect
    → OpenResult × (List GatewayEffect × GatewaySession)
    → OpenResult × (List GatewayEffect × GatewaySession)
before_effects es out = (out.0, (es ++ out.1.0, out.1.1))

-- `onEvent` for a message within `Open`, and what follows if it returns no error.
unfoldable pub within_open :
    (String → Bool)
    → Contact
    → (ws : ℕ) → Option WsMessage
    → (WsMessage → SessionAction)
    → SessionAction
unfolding on_event
within_open known c ws none next s = fail_open bad_message ws s
within_open known c ws (some e) next s =
    if blocks e s
    then (deadlocked, ([], s))
    else (let (result, rest) = on_event known c.answers_fail e s.link in
        let s' = record s { link = rest.1 } in
        before_effects (handles_message rest.0 ∷ [])
          (elim result [ failed ↦ fail_open bad_message ws s' | finished ↦ next e s' ]))

-- From the connect event on.
abbrev pub start_loops : Contact → (ws : ℕ) → WsMessage → SessionAction
start_loops c ws e s = (
  session_opened,
  (
    emits_connect ∷ starts_heart ws c.channel ∷ starts_listening ws c.channel ∷ [],
    record s { listening = some c.channel },
  ),
)

-- The packet that begins or resumes the session, and the answer to it. `link₀` is the session's
-- before `Open`, whose sequence it has stored.
unfoldable pub send_first_packet : (String → Bool) → Contact → (ws sequence : ℕ) → SessionAction
unfolding within_open first_packet prepare
send_first_packet known c ws sequence s =
    let packet = first_packet (record s.link { sequence = sequence }) in
    let (ready, s') = prepare packet s in
    let rest = within_open known c ws c.first (start_loops c ws) s' in
    if not ready
    then fail_open shard_bounds ws s'
    else before_effects (sends_packet packet ∷ [])
        (if c.packet_sent then rest else fail_open not_sent ws s')

-- From the first message on.
unfoldable pub greet : (String → Bool) → Contact → (ws sequence : ℕ) → WsMessage → SessionAction
unfolding send_first_packet
greet known c ws sequence e s =
    if not (eqb e.operation 10)
    then fail_open not_hello ws s
    else (let s' = record s { last_heartbeat_ack = c.now } in
        elim c.interval [
          | none ↦ fail_open bad_hello ws s'
          | some interval ↦ send_first_packet known c ws sequence s'
        ])

-- The general gateway, cached or asked for; the resume gateway needs neither.
abbrev pub find_gateway : Contact → GatewaySession → Option GatewaySession
find_gateway c s =
    if not (gateway_of "" s.link == "")
    then some s
    else if s.gateway == ""
    then elim c.found [ none ↦ none | some url ↦ some (record s { gateway = url }) ]
    else some s

-- `Open` under the session's lock.
unfoldable pub open_locked : (String → Bool) → Contact → SessionAction
unfolding greet within_open
open_locked known c s₀ = elim s₀.ws_conn [
  | some n ↦ (already_open, ([], s₀))
  | none ↦ elim (find_gateway c s₀) [
    | none ↦ (not_opened no_gateway, ([], s₀))
    | some s ↦ before_effects (dials (gateway_of s.gateway s.link) ∷ []) (elim c.dialed [
      | none ↦ (not_opened not_dialed, ([], record s { gateway = ""; ws_conn = none }))
      | some ws ↦ before_effects (connects ws ∷ []) (
          within_open known c ws c.hello (greet known c ws s.link.sequence)
            (record s { ws_conn = some ws }))
    ])
  ]
]

-- `defer s.Unlock()`, which a call that blocks does not come to.
abbrev pub unlocked :
    OpenResult × (List GatewayEffect × GatewaySession)
    → OpenResult × (List GatewayEffect × GatewaySession)
unlocked (deadlocked, (es, s)) = (deadlocked, (es, s))
unlocked (session_opened, (es, s)) = (session_opened, (es, record s { lock_held = false }))
unlocked (already_open, (es, s)) = (already_open, (es, record s { lock_held = false }))
unlocked (not_opened failure, (es, s)) = (not_opened failure, (es, record s { lock_held = false }))

unfoldable pub open_session : (String → Bool) → Contact → SessionAction
unfolding open_locked
open_session known c s =
    if s.lock_held
    then (deadlocked, ([], s))
    else unlocked (open_locked known c (record s { lock_held = true }))

abbrev pub closing : (ℕ → GatewayEffect) → Option ℕ → List GatewayEffect
closing f none = []
closing f (some n) = f n ∷ []

-- `CloseWithCode`; errors of its writes are only logged.
unfoldable pub close_with_code : GatewaySession → List GatewayEffect × GatewaySession
close_with_code s = (
  closing closes_listening s.listening ++ (closing closes_ws s.ws_conn ++ emits_disconnect ∷ []),
  record s { data_ready = false; listening = none; ws_conn = none },
)

abbrev pub same_connection : ℕ → Option ℕ → Bool
same_connection ws none = false
same_connection ws (some n) = eqb ws n

-- `listen` at an error of the websocket that it reads.
unfoldable pub stop_listening : (ws : ℕ) → GatewaySession → List GatewayEffect × GatewaySession
unfolding close_with_code
stop_listening ws s =
    if same_connection ws s.ws_conn
    then (let (es, s') = close_with_code s in (es ++ reconnects_session ∷ [], s'))
    else ([], s)

-- One round of `heartbeat`, which ends the loop if it is false. The interval is in milliseconds;
-- `last` is the acknowledgement that it read before it wrote.
unfoldable pub heartbeat :
    (interval : ℕ) (written : Bool) (last now : Time)
    → GatewaySession
    → Bool × (List GatewayEffect × GatewaySession)
unfolding close_with_code
heartbeat interval written last now s =
    if not written || ltb (interval * (5 * millisecond)) (now - last)
    then (let (es, s') = close_with_code s in
        (false, (sends_beat s.link.sequence ∷ es ++ reconnects_session ∷ [], s')))
    else (true, (sends_beat s.link.sequence ∷ [], record s { data_ready = true }))
