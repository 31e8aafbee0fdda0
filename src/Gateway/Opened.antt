-- ===== src/Gateway/Opened.antt =====
-- wsapi.go: what `Open` comes to, with all its errors.
use discordgo.Base.{
  ℕ, ◌+◌, ◌≡◌, refl, ◌∙◌, sym, String, Bool, true, false, not, ◌||◌, Option, none, some, List, [],
  ◌∷◌, ◌++◌, eqb, on_if, on_option, arith,
}
use discordgo.Gateway.Messages.{
  WsMessage, on_event, first_packet, gateway_of, finished, failed, identify, resume_packet, Packet,
  Result,
}
use discordgo.Gateway.Opening.{
  GatewaySession, GatewayEffect, dials, connects, closes_ws, sends_packet, handles_message,
  starts_heart, starts_listening, OpenFailure, no_gateway, not_dialed, bad_message, not_hello,
  bad_hello, shard_bounds, not_sent, OpenResult, session_opened, already_open, deadlocked,
  not_opened, Contact, SessionAction, takes_lock, prepare, fail_open, before_effects, within_open,
  blocks, unlocked, open_locked, start_loops, send_first_packet, greet, find_gateway, open_session,
}

-- The websockets that are opened and closed, and the loops that are started.
abbrev opening : GatewayEffect → ℕ
opening (connects n) = 1
opening _ = 0

abbrev closing_ws : GatewayEffect → ℕ
closing_ws (closes_ws n) = 1
closing_ws _ = 0

abbrev looping : GatewayEffect → ℕ
looping (starts_heart n m) = 1
looping (starts_listening n m) = 1
looping _ = 0

abbrev pub total : (GatewayEffect → ℕ) → List GatewayEffect → ℕ
total f [] = 0
total f (e ∷ es) = f e + total f es

total-append :
    (f : GatewayEffect → ℕ) (es fs : List GatewayEffect)
    → total f (es ++ fs) ≡ total f es + total f fs
total-append f [] fs = omega arith
total-append f (e ∷ es) fs = omega (arith, total-append f es fs)

abbrev pub locks : Option WsMessage → Bool
locks none = false
locks (some e) = takes_lock e

abbrev pub OpenOutcome : Type 0
OpenOutcome = OpenResult × (List GatewayEffect × GatewaySession)

-- How `Open` leaves a session whose channel was `l` before and whose lock was held, if `k`, from a point on at which `n`
-- websockets are open that it is to close if it fails.
abbrev pub Settles : (held : Bool) → Contact → (l : Option ℕ) → (n : ℕ) → OpenOutcome → Type 0
Settles k c l n (session_opened, (es, s)) =
    (s.ws_conn ≡ c.dialed)
    × (s.listening ≡ some c.channel)
    × (total looping es ≡ 2)
    × (n + total opening es ≡ total closing_ws es + 1)
Settles k c l n (already_open, (es, s)) = (n + total opening es ≡ 0) × (total looping es ≡ 0)
Settles k c l n (deadlocked, (es, s)) = (k || (locks c.hello || locks c.first)) ≡ true
Settles k c l n (not_opened failure, (es, s)) =
    (s.ws_conn ≡ none)
    × (s.listening ≡ l)
    × (total looping es ≡ 0)
    × (n + total opening es ≡ total closing_ws es)

or-true-right : (a b : Bool) → b ≡ true → (a || b) ≡ true
or-true-right true b h = refl
or-true-right false b h = h

or-true-left : (a b : Bool) → a ≡ true → (a || b) ≡ true
or-true-left true b h = refl
or-true-left false b h = absurd (cc)

fail_open-Settles :
    (k : Bool) (c : Contact) (failure : OpenFailure) (ws : ℕ) (l : Option ℕ) (s : GatewaySession)
    → s.listening ≡ l
    → Settles k c l 1 (fail_open failure ws s)
fail_open-Settles k c failure ws l s same = (refl, same, refl, refl)

before_effects-Settles :
    (k : Bool) (c : Contact) (l : Option ℕ) (n m : ℕ) (es : List GatewayEffect) (out : OpenOutcome)
    → total looping es ≡ 0
    → total closing_ws es ≡ 0
    → n ≡ m + total opening es
    → Settles k c l n out
    → Settles k c l m (before_effects es out)
before_effects-Settles k c l n m es (session_opened, (fs, s)) a b d (e, f, g, h) = (
  e,
  f,
  omega (arith, total-append looping es fs),
  omega (arith, total-append opening es fs, total-append closing_ws es fs),
)
before_effects-Settles k c l n m es (already_open, (fs, s)) a b d (e, f) =
    (omega (arith, total-append opening es fs), omega (arith, total-append looping es fs))
before_effects-Settles k c l n m es (deadlocked, (fs, s)) a b d h = h
before_effects-Settles k c l n m es (not_opened failure, (fs, s)) a b d (e, f, g, h) = (
  e,
  f,
  omega (arith, total-append looping es fs),
  omega (arith, total-append opening es fs, total-append closing_ws es fs),
)

pub on_result :
    {B : Type 0} (P : B → Type 0) (r : Result) (x y : B)
    → P x
    → P y
    → P (elim r [ failed ↦ x | finished ↦ y ])
on_result P failed x y h k = h
on_result P finished x y h k = k

-- A message within `Open`: what follows it settles the session, and so does the message.
within_open-Settles :
    (k : Bool) (known : String → Bool) (c : Contact) (ws : ℕ) (e : Option WsMessage)
    (next : WsMessage → SessionAction) (l : Option ℕ) (s : GatewaySession)
    → s.listening ≡ l
    → (locks e ≡ true → (k || (locks c.hello || locks c.first)) ≡ true)
    → ((e' : WsMessage) (s' : GatewaySession)
        → s'.listening ≡ l
        → s'.ws_conn ≡ s.ws_conn
        → Settles k c l 1 (next e' s'))
    → Settles k c l 1 (within_open known c ws e next s)
unfolding within_open
within_open-Settles k known c ws none next l s same locked settled =
    fail_open-Settles k c bad_message ws l s same
within_open-Settles k known c ws (some e) next l s same locked settled =
    on_if (Settles k c l 1) (blocks e s) (deadlocked, ([], s)) _ (λ h. locked (ground arith))
      (λ _.
        let out = on_event known c.answers_fail e s.link in
        let s' = record s { link = out.1.1 } in
        before_effects-Settles k c l 1 1 (handles_message out.1.0 ∷ []) _ refl refl refl (
          on_result (Settles k c l 1) out.0 _ _ (fail_open-Settles k c bad_message ws l s' same)
            (settled e s' same refl)))

prepare-kept :
    (packet : Packet) (s : GatewaySession)
    → let (ready, s') = prepare packet s in (s'.listening ≡ s.listening) × (s'.ws_conn ≡ s.ws_conn)
unfolding prepare
prepare-kept identify s = ground arith
prepare-kept (resume_packet id n) s = (refl, refl)

send_first_packet-Settles :
    (k : Bool) (known : String → Bool) (c : Contact) (ws sequence : ℕ) (l : Option ℕ)
    (s : GatewaySession)
    → s.listening ≡ l
    → s.ws_conn ≡ c.dialed
    → Settles k c l 1 (send_first_packet known c ws sequence s)
unfolding send_first_packet
send_first_packet-Settles k known c ws sequence l s same dialed =
    let packet = first_packet (record s.link { sequence = sequence }) in
    let s' = (prepare packet s).1 in
    let (kept, kept') = prepare-kept packet s in
    on_if (Settles k c l 1) (not (prepare packet s).0) (fail_open shard_bounds ws s') _
      (λ _. fail_open-Settles k c shard_bounds ws l s' (kept ∙ same))
      (λ _. before_effects-Settles k c l 1 1 (sends_packet packet ∷ []) _ refl refl refl (
        on_if (Settles k c l 1) c.packet_sent _ (fail_open not_sent ws s')
          (λ _.
            within_open-Settles k known c ws c.first (start_loops c ws) l s' (kept ∙ same)
              (λ h. or-true-right k _ (or-true-right (locks c.hello) (locks c.first) h))
              (λ e t t_same t_ws. (t_ws ∙ kept' ∙ dialed, refl, refl, refl)))
          (λ _. fail_open-Settles k c not_sent ws l s' (kept ∙ same))))

greet-Settles :
    (k : Bool) (known : String → Bool) (c : Contact) (ws sequence : ℕ) (l : Option ℕ)
    (e : WsMessage) (s : GatewaySession)
    → s.listening ≡ l
    → s.ws_conn ≡ c.dialed
    → Settles k c l 1 (greet known c ws sequence e s)
unfolding greet
greet-Settles k known c ws sequence l e s same dialed =
    let s' = record s { last_heartbeat_ack = c.now } in
    on_if (Settles k c l 1) (not (eqb e.operation 10)) (fail_open not_hello ws s) _
      (λ _. fail_open-Settles k c not_hello ws l s same)
      (λ _.
        on_option (Settles k c l 1) c.interval (fail_open bad_hello ws s')
          (λ interval. send_first_packet known c ws sequence s')
          (λ _. fail_open-Settles k c bad_hello ws l s' same)
          (λ interval _. send_first_packet-Settles k known c ws sequence l s' same dialed))

-- From the gateway that was found.
dial-Settles :
    (k : Bool) (known : String → Bool) (c : Contact) (l : Option ℕ) (s : GatewaySession)
    → s.listening ≡ l
    → Settles k c l 0 (elim c.dialed [
      | none ↦ (not_opened not_dialed, ([], record s { gateway = ""; ws_conn = none }))
      | some ws ↦ before_effects (connects ws ∷ []) (
          within_open known c ws c.hello
            (greet known c ws s.link.sequence)
            (record s { ws_conn = some ws }))
    ])
dial-Settles k known c l s same =
    on_option (Settles k c l 0) c.dialed
      (not_opened not_dialed, ([], record s { gateway = ""; ws_conn = none })) _
      (λ _. (refl, same, refl, refl))
      (λ ws dialed.
        let s' = record s { ws_conn = some ws } in
        before_effects-Settles k c l 1 0 (connects ws ∷ []) _ refl refl refl (
          within_open-Settles k known c ws c.hello (greet known c ws s.link.sequence) l s' same
            (λ h. or-true-right k _ (or-true-left (locks c.hello) (locks c.first) h))
            (λ e t t_same t_ws.
              greet-Settles k known c ws s.link.sequence l e t t_same (t_ws ∙ sym dialed))))

find_gateway-listening :
    (c : Contact) (s s' : GatewaySession) → find_gateway c s ≡ some s' → s'.listening ≡ s.listening
find_gateway-listening c s s' h = ground arith

open_locked-Settles :
    (k : Bool) (known : String → Bool) (c : Contact) (s : GatewaySession)
    → Settles k c s.listening 0 (open_locked known c s)
unfolding open_locked
open_locked-Settles k known c s =
    on_option (Settles k c s.listening 0) s.ws_conn _ (λ n. (already_open, ([], s)))
      (λ closed.
        on_option (Settles k c s.listening 0) (find_gateway c s) (not_opened no_gateway, ([], s)) _
          (λ _. (closed, refl, refl, refl))
          (λ s' found.
            before_effects-Settles k c s.listening 0 0 (dials (gateway_of s'.gateway s'.link) ∷ [])
              _ refl refl refl
              (dial-Settles k known c s.listening s' (find_gateway-listening c s s' found))))
      (λ n _. (refl, refl))

unlocked-Settles :
    (k : Bool) (c : Contact) (l : Option ℕ) (n : ℕ) (out : OpenOutcome)
    → Settles k c l n out
    → Settles k c l n (unlocked out)
unlocked-Settles k c l n (session_opened, (es, s)) h = h
unlocked-Settles k c l n (already_open, (es, s)) h = h
unlocked-Settles k c l n (deadlocked, (es, s)) h = h
unlocked-Settles k c l n (not_opened failure, (es, s)) h = h

-- `Open` succeeds with a websocket, a listening channel and both loops; if one is open already
-- it opens and starts nothing; if it fails with another error then the session has no websocket,
-- each one that was opened is closed, no loop is started and the channel stays; and it blocks
-- for ever only if the session's lock is held when it begins, or if one of the two messages that
-- it reads is a reconnect, an invalid session or a heartbeat acknowledgement.
pub open_session-Settles :
    (known : String → Bool) (c : Contact) (s : GatewaySession)
    → Settles s.lock_held c s.listening 0 (open_session known c s)
unfolding open_session
open_session-Settles known c s =
    on_if (Settles s.lock_held c s.listening 0) s.lock_held (deadlocked, ([], s)) _
      (λ held. or-true-left s.lock_held (locks c.hello || locks c.first) held)
      (λ _.
        unlocked-Settles s.lock_held c s.listening 0 _
          (open_locked-Settles s.lock_held known c (record s { lock_held = true })))
