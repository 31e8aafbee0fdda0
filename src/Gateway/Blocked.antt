-- ===== src/Gateway/Blocked.antt =====
-- wsapi.go: where `Open` blocks for ever.
use mathlib.Core.Option.{some-injective}
use discordgo.Base.{
  ℕ, ◌≡◌, refl, ◌∙◌, ap, sym, String, Bool, true, false, ◌==◌, Option, none, some, List, [], ◌∷◌,
  on_if, on_option, arith,
}
use discordgo.Gateway.Messages.{
  WsMessage, Link, Effect, on_event, first_packet, finished, failed, resume_packet, Result,
}
use discordgo.Gateway.Opening.{
  GatewaySession, connects, handles_message, no_gateway, not_dialed, bad_message, already_open,
  session_opened, deadlocked, not_opened, Contact, SessionAction, takes_lock, fail_open,
  before_effects, within_open, blocks, unlocked, open_locked, start_loops, send_first_packet, greet,
  find_gateway, open_session,
}
use discordgo.Gateway.Opened.{OpenOutcome}

within_open-locked :
    (known : String → Bool) (c : Contact) (ws : ℕ) (e : WsMessage)
    (next : WsMessage → SessionAction) (s : GatewaySession)
    → takes_lock e ≡ true
    → s.lock_held ≡ true
    → (within_open known c ws (some e) next s).0 ≡ deadlocked
unfolding within_open
within_open-locked known c ws e next s h held = rw (h, held) refl

on_event-hello :
    (known : String → Bool) (fails : Bool) (e : WsMessage) (l : Link)
    → e.operation ≡ 10
    → on_event known fails e l ≡ (finished, ([], l))
unfolding on_event
on_event-hello known fails e l h = rw (on_event, h) refl

takes_lock-hello : (e : WsMessage) → e.operation ≡ 10 → takes_lock e ≡ false
takes_lock-hello e h = rw h refl

within_open-hello :
    (known : String → Bool) (c : Contact) (ws : ℕ) (e : WsMessage)
    (next : WsMessage → SessionAction) (s : GatewaySession)
    → e.operation ≡ 10
    → (within_open known c ws (some e) next s).0 ≡ (next e s).0
unfolding within_open
within_open-hello known c ws e next s h =
    let after = λ (out : Result × (List Effect × Link)).
      (before_effects (handles_message out.1.0 ∷ []) (elim out.0 as (λ r. OpenOutcome) [
        | failed ↦ fail_open bad_message ws (record s { link = out.1.1 })
        | finished ↦ next e (record s { link = out.1.1 })
      ])).0 in
    let unlocked = takes_lock-hello e h in
    on_if (λ (out : OpenOutcome). out.0 ≡ (next e s).0) (blocks e s) (deadlocked, ([], s)) _
      (λ locked. absurd (ground arith))
      (λ _. ap after (on_event-hello known c.answers_fail e s.link h))

first_packet-resumes :
    (l : Link)
    → (l.session_id == "") ≡ false
    → first_packet l ≡ resume_packet l.session_id l.sequence
unfolding first_packet
first_packet-resumes l named = rw named refl

send_first_packet-locked :
    (known : String → Bool) (c : Contact) (ws : ℕ) (first : WsMessage) (s : GatewaySession)
    → s.lock_held ≡ true
    → (s.link.session_id == "") ≡ false
    → c.packet_sent ≡ true
    → c.first ≡ some first
    → takes_lock first ≡ true
    → (send_first_packet known c ws s.link.sequence s).0 ≡ deadlocked
unfolding send_first_packet
send_first_packet-locked known c ws first s held named written answered locked =
    rw (first_packet-resumes s.link named, written, answered)
      (within_open-locked known c ws first (start_loops c ws) s locked held)

find_gateway-cached :
    (c : Contact) (s : GatewaySession) → (s.gateway == "") ≡ false → find_gateway c s ≡ some s
find_gateway-cached c s h = ground arith

greet-locked :
    (known : String → Bool) (c : Contact) (ws interval : ℕ) (hello first : WsMessage)
    (s : GatewaySession)
    → s.lock_held ≡ true
    → (s.link.session_id == "") ≡ false
    → hello.operation ≡ 10
    → c.interval ≡ some interval
    → c.packet_sent ≡ true
    → c.first ≡ some first
    → takes_lock first ≡ true
    → (greet known c ws s.link.sequence hello s).0 ≡ deadlocked
unfolding greet
greet-locked known c ws interval hello first s held named op timed written answered locked =
    rw (op, timed)
      (send_first_packet-locked known c ws first (record s { last_heartbeat_ack = c.now }) held
        named written answered locked)

dial-locked :
    (known : String → Bool) (c : Contact) (ws interval : ℕ) (hello first : WsMessage)
    (s : GatewaySession)
    → s.lock_held ≡ true
    → (s.link.session_id == "") ≡ false
    → c.dialed ≡ some ws
    → c.hello ≡ some hello
    → hello.operation ≡ 10
    → c.interval ≡ some interval
    → c.packet_sent ≡ true
    → c.first ≡ some first
    → takes_lock first ≡ true
    → (elim c.dialed as (λ d. OpenOutcome) [
      | none ↦ (not_opened not_dialed, ([], record s { gateway = ""; ws_conn = none }))
      | some ws ↦ before_effects (connects ws ∷ []) (
          within_open known c ws c.hello
            (greet known c ws s.link.sequence)
            (record s { ws_conn = some ws }))
    ]).0
      ≡ deadlocked
dial-locked known c ws interval hello first s held named dialed greeted op timed written answered
      locked =
    let s' = record s { ws_conn = some ws } in
    let after = λ (d : Option ℕ).
      (elim d as (λ d. OpenOutcome) [
        | none ↦ (not_opened not_dialed, ([], record s { gateway = ""; ws_conn = none }))
        | some ws ↦ before_effects (connects ws ∷ []) (
            within_open known c ws c.hello (greet known c ws s.link.sequence)
              (record s { ws_conn = some ws }))
      ]).0 in
    ap after dialed
    ∙ ap (λ m. (within_open known c ws m (greet known c ws s.link.sequence) s').0) greeted
    ∙ within_open-hello known c ws hello (greet known c ws s.link.sequence) s' op
    ∙ greet-locked known c ws interval hello first s' held named op timed written answered locked

unlocked-deadlocked : (out : OpenOutcome) → out.0 ≡ deadlocked → (unlocked out).0 ≡ deadlocked
unlocked-deadlocked (session_opened, rest) h = h
unlocked-deadlocked (already_open, rest) h = h
unlocked-deadlocked (deadlocked, rest) h = h
unlocked-deadlocked (not_opened failure, rest) h = h

open_locked-deadlocked :
    (known : String → Bool) (c : Contact) (s : GatewaySession) (ws interval : ℕ)
    (hello first : WsMessage)
    → s.lock_held ≡ true
    → s.ws_conn ≡ none
    → (s.link.session_id == "") ≡ false
    → (s.gateway == "") ≡ false
    → c.dialed ≡ some ws
    → c.hello ≡ some hello
    → hello.operation ≡ 10
    → c.interval ≡ some interval
    → c.packet_sent ≡ true
    → c.first ≡ some first
    → takes_lock first ≡ true
    → (open_locked known c s).0 ≡ deadlocked
unfolding open_locked
open_locked-deadlocked known c s ws interval hello first held closed named cached dialed greeted op
      timed written answered locked =
    let P : OpenOutcome → Type 0 = λ out. out.0 ≡ deadlocked in
    on_option P s.ws_conn _ (λ n. (already_open, ([], s)))
      (λ _.
        on_option P (find_gateway c s) (not_opened no_gateway, ([], s)) _
          (λ missing. let found = find_gateway-cached c s cached in absurd (cc))
          (λ s' found.
            let same = some-injective _ _ (sym found ∙ find_gateway-cached c s cached) in
            let named' = ap (λ t. t.link.session_id == "") same ∙ named in
            let held' = ap (λ t. t.lock_held) same ∙ held in
            dial-locked known c ws interval hello first s' held' named' dialed greeted op timed
              written answered locked))
      (λ n open_. absurd (cc))

-- A session that has an ID and a cached gateway is opened, and the answer to its resume packet is
-- an invalid session, a reconnect or a heartbeat acknowledgement: `Open` blocks for ever, since
-- it has kept the session's lock from its start to the message, whose handling takes it.
pub open_session-takes_lock :
    (known : String → Bool) (c : Contact) (s : GatewaySession) (ws interval : ℕ)
    (hello first : WsMessage)
    → s.ws_conn ≡ none
    → (s.link.session_id == "") ≡ false
    → (s.gateway == "") ≡ false
    → c.dialed ≡ some ws
    → c.hello ≡ some hello
    → hello.operation ≡ 10
    → c.interval ≡ some interval
    → c.packet_sent ≡ true
    → c.first ≡ some first
    → takes_lock first ≡ true
    → (open_session known c s).0 ≡ deadlocked
unfolding open_session
open_session-takes_lock known c s ws interval hello first closed named cached dialed greeted op
      timed written answered locked =
    on_if (λ (out : OpenOutcome). out.0 ≡ deadlocked) s.lock_held (deadlocked, ([], s)) _
      (λ _. refl)
      (λ _. unlocked-deadlocked _ (
        open_locked-deadlocked known c (record s { lock_held = true }) ws interval hello first refl
          closed named cached dialed greeted op timed written answered locked))
