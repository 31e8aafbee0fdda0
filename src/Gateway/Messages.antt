-- ===== src/Gateway/Messages.antt =====
-- wsapi.go: `onEvent`, by the operation of a decoded message, and the choice of `Open` between a
-- new session and a resumed one; event.go: `onReady` of the session.
--
-- What decodes a message is a parameter: `WsMessage` is its result. `write_fails` tells whether a
-- packet cannot be sent.
use discordgo.Base.{
  ℕ, String, Bool, true, false, not, ◌&&◌, ◌==◌, ◌≡◌, refl, ◌∙◌, ap, Option, none, some, List, [],
  ◌∷◌, eqb, if◌then◌else◌, arith,
}

-- The data of an event: that of READY, and any other.
pub data Struct : Type 0 where
  ready_struct : String → String → Struct
  other_struct : Struct

pub record WsMessage : Type 0 where
  pub operation : ℕ
  pub sequence : ℕ
  pub type : String
  -- The raw data as a Boolean, if it is one.
  pub resumable : Option Bool
  pub struct : Struct

-- The fields of a `Session` that name its session at the gateway.
pub record Link : Type 0 where
  pub session_id : String
  pub resume_gateway_url : String
  pub sequence : ℕ

pub data Effect : Type 0 where
  sends_heartbeat : ℕ → Effect
  closes reconnects acknowledges : Effect
  handles : String → Effect

pub data Result : Type 0 where
  finished failed : Result

-- `Session.onReady`
abbrev pub session_on_ready : Struct → Link → Link
session_on_ready (ready_struct id url) s = record s { session_id = id; resume_gateway_url = url }
session_on_ready other_struct s = s

abbrev discard : Bool → Link → Link
discard true s = s
discard false s = record s { session_id = ""; resume_gateway_url = ""; sequence = 0 }

-- `known` holds of the types that have a provider. An event of an unknown type is handled only
-- as an event of the type `__EVENT__`.
unfoldable pub on_event : (String → Bool) → Bool → WsMessage → Link → Result × (List Effect × Link)
on_event known write_fails e s =
    if eqb e.operation 1
    then (if write_fails then failed else finished, (sends_heartbeat s.sequence ∷ [], s))
    else if eqb e.operation 7
    then (finished, (closes ∷ reconnects ∷ [], s))
    else if eqb e.operation 9
    then elim e.resumable [
      | none ↦ (failed, (closes ∷ [], s))
      | some resumable ↦ (finished, (closes ∷ reconnects ∷ [], discard resumable s))
    ]
    else if eqb e.operation 10
    then (finished, ([], s))
    else if eqb e.operation 11
    then (finished, (acknowledges ∷ [], s))
    else if not (eqb e.operation 0)
    then (finished, ([], s))
    else (let t = record s { sequence = e.sequence } in
        if known e.type
        then (finished, (handles e.type ∷ handles "__EVENT__" ∷ [], session_on_ready e.struct t))
        else (finished, (handles "__EVENT__" ∷ [], t)))

-- The first packet that `Open` sends, and the gateway that it connects to.
pub data Packet : Type 0 where
  identify : Packet
  resume_packet : String → ℕ → Packet

unfoldable pub first_packet : Link → Packet
first_packet s =
    if (s.session_id == "") && eqb s.sequence 0
    then identify
    else resume_packet s.session_id s.sequence

unfoldable pub gateway_of : String → Link → String
gateway_of gateway s =
    if not (eqb s.sequence 0) && (not (s.session_id == "") && not (s.resume_gateway_url == ""))
    then s.resume_gateway_url
    else gateway

-- The messages that a connection gets, one after the other.
unfoldable pub run : (String → Bool) → List WsMessage → Link → Link
unfolding on_event
run known [] s = s
run known (e ∷ es) s = run known es (on_event known false e s).1.1

-- A message that ends the session, and one that begins another.
abbrev pub invalidates : WsMessage → Bool
invalidates e = eqb e.operation 9 && elim e.resumable [ some b ↦ not b | none ↦ false ]

abbrev pub begins : (String → Bool) → WsMessage → Bool
begins known e =
    eqb e.operation 0
    && known e.type
    && elim e.struct [ ready_struct id url ↦ true | other_struct ↦ false ]

-- The sequence number of the last event among the messages.
abbrev pub last_sequence : ℕ → List WsMessage → ℕ
last_sequence n [] = n
last_sequence n (e ∷ es) = last_sequence (if eqb e.operation 0 then e.sequence else n) es

abbrev pub Continues : (String → Bool) → List WsMessage → Type 0
Continues known [] = Unit
Continues known (e ∷ es) = (invalidates e ≡ false) × (begins known e ≡ false) × Continues known es

-- A message that neither ends the session nor begins one keeps it, and counts its sequence.
on_event-continues :
    (known : String → Bool) (e : WsMessage) (s : Link)
    → invalidates e ≡ false
    → begins known e ≡ false
    → let t = (on_event known false e s).1.1 in
      (t.session_id ≡ s.session_id)
      × (t.resume_gateway_url ≡ s.resume_gateway_url)
      × (t.sequence ≡ (if eqb e.operation 0 then e.sequence else s.sequence))
unfolding on_event
on_event-continues known e s stays no_ready = ground arith

run-Continues :
    (known : String → Bool) (es : List WsMessage) (s : Link)
    → Continues known es
    → let t = run known es s in
      (t.session_id ≡ s.session_id)
      × (t.resume_gateway_url ≡ s.resume_gateway_url)
      × (t.sequence ≡ last_sequence s.sequence es)
unfolding run
run-Continues known [] s c = (refl, refl, refl)
run-Continues known (e ∷ es) s (stays, no_ready, c) =
    let (id, url, sequence) = on_event-continues known e s stays no_ready in
    let (id', url', sequence') = run-Continues known es (on_event known false e s).1.1 c in
    (id' ∙ id, url' ∙ url, sequence' ∙ ap (λ n. last_sequence n es) sequence)

-- A session with an ID goes on through any messages that neither invalidate it nor begin
-- another: the next connection resumes it from the last event that was received; and it goes to
-- the session's own gateway if there is one and an event has been received.
pub run_resumes :
    (known : String → Bool) (es : List WsMessage) (s : Link) (gateway : String)
    → Continues known es
    → (s.session_id == "") ≡ false
    → (first_packet (run known es s) ≡ resume_packet s.session_id (last_sequence s.sequence es))
      × (eqb (last_sequence s.sequence es) 0 ≡ false
          → (s.resume_gateway_url == "") ≡ false
          → gateway_of gateway (run known es s) ≡ s.resume_gateway_url)
unfolding first_packet gateway_of
run_resumes known es s gateway c named =
    let (id, url, sequence) = run-Continues known es s c in
    (
      rw (first_packet, id, sequence, named) refl,
      λ counted has_url. rw (gateway_of, id, sequence, url, named, counted, has_url) refl,
    )

invalidates-split :
    (e : WsMessage) → invalidates e ≡ true → (e.operation ≡ 9) × (e.resumable ≡ some false)
invalidates-split e h = ground arith

on_event-discards :
    (known : String → Bool) (e : WsMessage) (s : Link)
    → e.operation ≡ 9
    → e.resumable ≡ some false
    → on_event known false e s ≡ (finished, (closes ∷ reconnects ∷ [], discard false s))
unfolding on_event
on_event-discards known e s op data_ = rw (on_event, op, data_) refl

-- After a session that cannot be resumed is invalidated the next connection begins a new one, at
-- the general gateway.
pub on_event-invalidates :
    (known : String → Bool) (e : WsMessage) (s : Link) (gateway : String)
    → invalidates e ≡ true
    → let out = on_event known false e s in
      (out.1.0 ≡ closes ∷ reconnects ∷ [])
      × (first_packet out.1.1 ≡ identify)
      × (gateway_of gateway out.1.1 ≡ gateway)
unfolding first_packet gateway_of
on_event-invalidates known e s gateway h =
    let (op, data_) = invalidates-split e h in
    rw (on_event-discards known e s op data_) (refl, refl, refl)
