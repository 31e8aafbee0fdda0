-- ===== src/Tests/GatewayRuns.antt =====
-- Runs of the gateway connection.
use discordgo.Base.{
  refl, String, Bool, true, false, some, List, ℕ, ◌≡◌, ◌≢◌, [], ◌∷◌, ltb, if◌then◌else◌, arith,
}
use discordgo.Gateway.Reconnecting.{
  Opening, opened, open_failed, connected, reconnect, reconnect_lem,
}
use discordgo.Gateway.Messages.{
  WsMessage, other_struct, Link, closes, reconnects, on_event, identify, resume_packet,
  first_packet, gateway_of, run, run_resumes, on_event-invalidates,
}

-- The twelfth try succeeds.
abbrev tries : ℕ → Opening
tries i = if ltb i 11 then open_failed else opened

twelfth : tries 11 ≢ open_failed
twelfth e = ground arith

reconnect_lem_example :
    reconnect true tries 20 ≡ (1 ∷ 2 ∷ 4 ∷ 8 ∷ 16 ∷ 32 ∷ 64 ∷ 128 ∷ 256 ∷ 512 ∷ 600 ∷ [], connected)
reconnect_lem_example = reconnect_lem tries 11 20 twelfth (λ k h. ground arith) (omega arith)

abbrev event_of : ℕ → ℕ → WsMessage
event_of operation sequence = record {
  operation = operation;
  sequence = sequence;
  type = "MESSAGE_CREATE";
  resumable = some false;
  struct = other_struct;
}

abbrev linked : Link
linked = record { session_id = "s1"; resume_gateway_url = "wss://resume"; sequence = 4 }

abbrev every_type : String → Bool
every_type t = true

-- An event, an acknowledged heartbeat, an event.
abbrev received : List WsMessage
received = event_of 0 5 ∷ event_of 11 0 ∷ event_of 0 6 ∷ []

run_resumes_example :
    (first_packet (run every_type received linked) ≡ resume_packet "s1" 6)
    × (false ≡ false
        → false ≡ false
        → gateway_of "wss://gateway" (run every_type received linked) ≡ "wss://resume")
run_resumes_example =
    run_resumes every_type received linked "wss://gateway"
      (refl, refl, (refl, refl, (refl, refl, tt))) refl

on_event-invalidates_example :
    let out = on_event every_type false (event_of 9 0) linked in
    (out.1.0 ≡ closes ∷ reconnects ∷ [])
    × (first_packet out.1.1 ≡ identify)
    × (gateway_of "wss://gateway" out.1.1 ≡ "wss://gateway")
on_event-invalidates_example =
    on_event-invalidates every_type (event_of 9 0) linked "wss://gateway" refl
